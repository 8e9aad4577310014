-- ===== src/Client/Relay/Screen.antt =====
-- What the relay of src/client.rs writes to the terminal, among all else that it does.
use ttyleport.Prelude.{
  ℕ, zero, suc, ◌-◌, Bool, true, false, List, [], ◌∷◌, ◌++◌, map, Option, none, some, Bytes, ltb, ℤ,
  Result, ok, err, ◌≡◌, refl, sym, subst, ap, append_assoc, append-nil, Bool-cases, inl, inr,
}
use ttyleport.Protocol.{Frame, DecodeError, data_frame, exit, detached, ping, pong}
use ttyleport.Client.Escape.{EscapeState, EscapeAction, typed, detach, suspend, help, process}
use ttyleport.Client.Escape.Stream.{
  Output, byte, do_detach, do_suspend, do_help, outputs_of, outputs, meaning, process-meaning,
}
use ttyleport.Client.Relay.{
  World, Action, send, print, stop_self, going, returned, failed, Doing, timed_send, print_then,
  send_size, suspended, on_action, chain, on_actions, Relay, Round, on_keys, eof, read_failed,
  read_would_block, keys, on_frame, on_tick, Input, stdin_in, frame_in, sigwinch_in, tick_in,
  relay_round, Events, chain_round, relay_loop, heartbeat_timeout, escape_help,
}

-- The bytes that are written to the terminal.
abbrev pub printed_bytes : List Action → Bytes
printed_bytes [] = []
printed_bytes (print p ∷ acts) = p ++ printed_bytes acts
printed_bytes (_ ∷ acts) = printed_bytes acts

-- The help that is asked for.
abbrev pub help_text : List Output → Bytes
help_text [] = []
help_text (do_help ∷ outs) = escape_help ++ help_text outs
help_text (_ ∷ outs) = help_text outs

-- What typed bytes are to show, and where they leave the escape processor.
abbrev pub help_shown : Option EscapeState → Bytes → Bytes
help_shown none bytes = []
help_shown (some state) bytes = help_text (meaning state bytes).1

abbrev pub after_keys : Option EscapeState → Bytes → Option EscapeState
after_keys none bytes = none
after_keys (some state) bytes = some (meaning state bytes).0

-- The same for an input.
abbrev pub shown_now : Option EscapeState → Input → Bytes
shown_now escape (frame_in (some (ok (data_frame p)))) = p
shown_now escape (stdin_in (keys bytes)) = help_shown escape bytes
shown_now escape _ = []

abbrev pub next_escape : Option EscapeState → Input → Option EscapeState
next_escape escape (stdin_in (keys bytes)) = after_keys escape bytes
next_escape escape _ = escape

-- The screen of a run: the server's Data frames, and the help, where it is asked for.
abbrev pub screen : Option EscapeState → Events → Bytes
screen escape [] = []
screen escape ((w, input) ∷ events) =
    shown_now escape input ++ screen (next_escape escape input) events

pub printed_bytes-append :
    (xs ys : List Action) → printed_bytes (xs ++ ys) ≡ printed_bytes xs ++ printed_bytes ys
printed_bytes-append [] ys = refl
printed_bytes-append (print p ∷ xs) ys = rw (printed_bytes-append xs ys) (sym (append_assoc p _ _))
printed_bytes-append (send f ∷ xs) ys = printed_bytes-append xs ys
printed_bytes-append (stop_self ∷ xs) ys = printed_bytes-append xs ys

help_text-append : (xs ys : List Output) → help_text (xs ++ ys) ≡ help_text xs ++ help_text ys
help_text-append [] ys = refl
help_text-append (do_help ∷ xs) ys =
    rw (help_text-append xs ys) (sym (append_assoc escape_help (help_text xs) (help_text ys)))
help_text-append (byte b ∷ xs) ys = help_text-append xs ys
help_text-append (do_detach ∷ xs) ys = help_text-append xs ys
help_text-append (do_suspend ∷ xs) ys = help_text-append xs ys

help_text-byte : (p : Bytes) → help_text (map byte p) ≡ []
help_text-byte [] = refl
help_text-byte (b ∷ p) = help_text-byte p

-- If the relay goes on, exactly this was written.
abbrev pub Prints : Bytes → Doing → Type 0
Prints text (acts, going m) = printed_bytes acts ≡ text
Prints text _ = Unit

append-Prints :
    (text more : Bytes) (acts : List Action) (d : Doing)
    → printed_bytes acts ≡ text
    → Prints more d
    → Prints (text ++ more) (acts ++ d.0, d.1)
append-Prints text more acts (acts', going m) e e' =
    rw (printed_bytes-append acts acts', e, e') refl
append-Prints text more acts (acts', returned code) e _ = tt
append-Prints text more acts (acts', failed) e _ = tt

chain-Prints :
    (text more : Bytes) (d : Doing) (k : ℕ → Doing)
    → Prints text d
    → ((m : ℕ) → Prints more (k m))
    → Prints (text ++ more) (chain d k)
chain-Prints text more (acts, going m) k e h = append-Prints text more acts (k m) e (h m)
chain-Prints text more (acts, returned code) k _ h = tt
chain-Prints text more (acts, failed) k _ h = tt

timed_send-Prints : (n : ℕ) (f : Frame) → Prints [] (timed_send n f)
timed_send-Prints zero f = tt
timed_send-Prints (suc n) f = refl

send_size-Prints : (w : World) (n : ℕ) → Prints [] (send_size w n)
send_size-Prints w zero = tt
send_size-Prints w (suc n) = refl

suspended-Prints : (w : World) (can : Bool) (n : ℕ) → Prints [] (suspended w can n)
suspended-Prints w true zero = tt
suspended-Prints w true (suc n) = refl
suspended-Prints w false n = tt

going-Prints : (can : Bool) (text : Bytes) (n : ℕ) → Prints text (print_then can text (going n))
going-Prints true text n = append-nil text
going-Prints false text n = tt

returned-Prints :
    (can : Bool) (text more : Bytes) (code : Option ℤ)
    → Prints more (print_then can text (returned code))
returned-Prints true text more code = tt
returned-Prints false text more code = tt

on_action-Prints :
    (w : World) (n : ℕ) (a : EscapeAction) → Prints (help_text (outputs_of a)) (on_action w n a)
unfolding on_action
on_action-Prints w n (typed p) = rw (help_text-byte p) (timed_send-Prints n (data_frame p))
on_action-Prints w n detach = returned-Prints w.can_print _ _ _
on_action-Prints w n suspend = suspended-Prints w w.can_suspend n
on_action-Prints w n help = rw (append-nil escape_help) (going-Prints w.can_print escape_help n)

on_actions-Prints :
    (w : World) (n : ℕ) (actions : List EscapeAction)
    → Prints (help_text (outputs actions)) (on_actions w n actions)
unfolding on_actions
on_actions-Prints w n [] = refl
on_actions-Prints w n (a ∷ actions) = rw (help_text-append (outputs_of a) (outputs actions)) (
    chain-Prints (help_text (outputs_of a)) (help_text (outputs actions)) (on_action w n a) _
      (on_action-Prints w n a) (λ m. on_actions-Prints w m actions))

-- The same of a round, with where the escape processor stands behind it.
abbrev pub Shown : Bytes → Option EscapeState → Round → Type 0
Shown text escape (r, d) = Prints text d × (r.escape ≡ escape)

on_keys-Shown :
    (w : World) (r : Relay) (o : Option EscapeState) (bytes : Bytes)
    → r.escape ≡ o
    → Shown
        (shown_now o (stdin_in (keys bytes)))
        (next_escape o (stdin_in (keys bytes)))
        (on_keys w r o bytes)
on_keys-Shown w r none bytes e = (timed_send-Prints w.good_sends (data_frame bytes), e)
on_keys-Shown w r (some state) bytes e =
    let (ends, outs) = process-meaning state bytes in
    (
      rw (← outs) (on_actions-Prints w w.good_sends (process state bytes).1),
      ap (λ (s : EscapeState). some s) ends,
    )

on_frame-Shown :
    (w : World) (r : Relay) (o : Option EscapeState) (f : Option (Result DecodeError Frame))
    → r.escape ≡ o
    → Shown (shown_now o (frame_in f)) o (on_frame w r f)
on_frame-Shown w r o (some (ok (data_frame p))) e = (going-Prints w.can_print p w.good_sends, e)
on_frame-Shown w r o (some (ok pong)) e = (refl, e)
on_frame-Shown w r o (some (ok (exit code))) e = (tt, e)
on_frame-Shown w r o (some (ok detached)) e = (returned-Prints w.can_print _ [] _, e)
on_frame-Shown w r o (some (ok _)) e = (refl, e)
on_frame-Shown w r o (some (err x)) e = (tt, e)
on_frame-Shown w r o none e = (tt, e)

on_tick-Shown :
    (w : World) (r : Relay) (o : Option EscapeState) → r.escape ≡ o → Shown [] o (on_tick w r)
on_tick-Shown w r o e = elim (Bool-cases (ltb heartbeat_timeout (w.now - r.last_pong))) [
  | inl late ↦ rw late (tt, e)
  | inr due ↦ rw due (timed_send-Prints w.good_sends ping, e)
]

relay_round-Shown :
    (w : World) (r : Relay) (o : Option EscapeState) (input : Input)
    → r.escape ≡ o
    → Shown (shown_now o input) (next_escape o input) (relay_round w r input)
unfolding relay_round
relay_round-Shown w r o (stdin_in (keys bytes)) e =
    subst
      (λ (p : Option EscapeState).
        Shown (help_shown o bytes) (after_keys o bytes) (on_keys w r p bytes))
      (sym e) (on_keys-Shown w r o bytes e)
relay_round-Shown w r o (stdin_in eof) e = (tt, e)
relay_round-Shown w r o (stdin_in read_failed) e = (tt, e)
relay_round-Shown w r o (stdin_in read_would_block) e = (refl, e)
relay_round-Shown w r o (frame_in f) e = on_frame-Shown w r o f e
relay_round-Shown w r o sigwinch_in e = (send_size-Prints w w.good_sends, e)
relay_round-Shown w r o tick_in e = on_tick-Shown w r o e

chain_round-Prints :
    (text more : Bytes) (o : Option EscapeState) (round : Round) (k : Relay → Round)
    → Shown text o round
    → ((r : Relay) → r.escape ≡ o → Prints more (k r).1)
    → Prints (text ++ more) (chain_round round k).1
chain_round-Prints text more o (r, (acts, going m)) k (e, at) h =
    append-Prints text more acts (k r).1 e (h r at)
chain_round-Prints text more o (r, (acts, returned code)) k _ h = tt
chain_round-Prints text more o (r, (acts, failed)) k _ h = tt

-- While the relay goes on, in whatever order its inputs come, exactly the server's Data frames and the
-- help that the typed text asks for are written to the terminal, in order and once.
pub relay_loop-Prints :
    (r : Relay) (o : Option EscapeState) (events : Events)
    → r.escape ≡ o
    → Prints (screen o events) (relay_loop r events).1
unfolding relay_loop
relay_loop-Prints r o [] e = refl
relay_loop-Prints r o ((w, input) ∷ events) e =
    chain_round-Prints (shown_now o input) (screen (next_escape o input) events)
      (next_escape o input) (relay_round w r input) (λ r'. relay_loop r' events)
      (relay_round-Shown w r o input e)
      (λ r' at. relay_loop-Prints r' (next_escape o input) events at)

pub printed_going :
    (text : Bytes) (d : Doing) (m : ℕ) → d.1 ≡ going m → Prints text d → printed_bytes d.0 ≡ text
printed_going text (acts, going n) m on h = h
printed_going text (acts, returned code) m on h = cc on
printed_going text (acts, failed) m on h = cc on
