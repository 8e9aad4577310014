-- ===== src/Client/Relay/Typing.antt =====
-- The keyboard through a run of the relay of src/client.rs.
use ttyleport.Prelude.{
  ℕ, zero, suc, ◌-◌, Bool, true, false, List, [], ◌∷◌, ◌++◌, Option, none, some, Bytes, ltb, ℤ,
  Result, ok, err, ◌≡◌, refl, Bool-cases, inl, inr,
}
use ttyleport.Protocol.{Frame, DecodeError, data_frame, exit, detached, ping, pong}
use ttyleport.Client.Escape.{EscapeState, normal, after_newline, after_tilde, process}
use ttyleport.Client.Escape.Stream.{
  Output, byte, do_detach, do_suspend, do_help, outputs, next, react, is_detach, meaning,
  process-meaning,
}
use ttyleport.Client.Escape.Chunks.{detaches, meaning-append}
use ttyleport.Client.Relay.{
  World, Action, going, returned, failed, Doing, timed_send, print_then, send_size, Relay, Round,
  on_actions, on_keys, eof, read_failed, read_would_block, keys, on_frame, on_tick, Input, stdin_in,
  frame_in, sigwinch_in, tick_in, relay_round, Events, chain_round, relay_loop, heartbeat_timeout,
}
use ttyleport.Client.Relay.Keys.{
  sent_bytes, bytes_of, has_detach, typed_now, typed_in, sent_bytes-append, bytes_of-append, Heard,
  on_actions-Heard,
}

-- If the relay goes on behind the typed bytes: what they mean is what was sent, the escape
-- processor stands where they lead, and they do not detach.
abbrev pub Typed : EscapeState → Bytes → Round → Type 0
Typed state typed (r, (acts, going m)) =
    (sent_bytes acts ≡ bytes_of (meaning state typed).1)
    × (r.escape ≡ some (meaning state typed).0)
    × (detaches state typed ≡ false)
Typed state typed _ = Unit

react-detach :
    (state : EscapeState) (b : ℕ) → is_detach state b ≡ true → has_detach (react state b) ≡ true
react-detach normal b h = cc h
react-detach after_newline b h = cc h
react-detach after_tilde b h = rw h refl

has_detach-right : (xs ys : List Output) → has_detach (xs ++ ys) ≡ false → has_detach ys ≡ false
has_detach-right [] ys h = h
has_detach-right (byte b ∷ xs) ys h = has_detach-right xs ys h
has_detach-right (do_detach ∷ xs) ys h = cc h
has_detach-right (do_suspend ∷ xs) ys h = has_detach-right xs ys h
has_detach-right (do_help ∷ xs) ys h = has_detach-right xs ys h

detach_shows :
    (state : EscapeState) (xs : Bytes)
    → has_detach (meaning state xs).1 ≡ false
    → detaches state xs ≡ false
unfolding meaning detaches
detach_shows state [] h = refl
detach_shows state (b ∷ xs) h = elim (Bool-cases (is_detach state b)) [
  | inl e ↦ let found = react-detach state b e in cc (rw (e, found) at h)
  | inr e ↦ rw e (detach_shows (next state b) xs (has_detach-right (react state b) _ (rw e at h)))
]

quiet-Typed :
    (state : EscapeState) (r : Relay) (n : ℕ)
    → r.escape ≡ some state
    → Typed state [] (r, ([], going n))
unfolding meaning detaches
quiet-Typed state r n h = (refl, h, refl)

print-Typed :
    (state : EscapeState) (r : Relay) (can : Bool) (text : Bytes) (n : ℕ)
    → r.escape ≡ some state
    → Typed state [] (r, print_then can text (going n))
unfolding meaning detaches
print-Typed state r true text n h = (refl, h, refl)
print-Typed state r false text n h = tt

returned-Typed :
    (state : EscapeState) (r : Relay) (can : Bool) (text : Bytes) (code : Option ℤ)
    → Typed state [] (r, print_then can text (returned code))
returned-Typed state r true text code = tt
returned-Typed state r false text code = tt

size-Typed :
    (state : EscapeState) (r : Relay) (w : World) (n : ℕ)
    → r.escape ≡ some state
    → Typed state [] (r, send_size w n)
unfolding meaning detaches
size-Typed state r w zero h = tt
size-Typed state r w (suc n) h = (refl, h, refl)

ping-Typed :
    (state : EscapeState) (r : Relay) (n : ℕ)
    → r.escape ≡ some state
    → Typed state [] (r, timed_send n ping)
unfolding meaning detaches
ping-Typed state r zero h = tt
ping-Typed state r (suc n) h = (refl, h, refl)

tick-Typed :
    (state : EscapeState) (w : World) (r : Relay)
    → r.escape ≡ some state
    → Typed state [] (on_tick w r)
tick-Typed state w r h = elim (Bool-cases (ltb heartbeat_timeout (w.now - r.last_pong))) [
  | inl e ↦ rw e tt
  | inr e ↦ rw e (ping-Typed state r w.good_sends h)
]

frame-Typed :
    (state : EscapeState) (w : World) (r : Relay) (f : Option (Result DecodeError Frame))
    → r.escape ≡ some state
    → Typed state [] (on_frame w r f)
frame-Typed state w r (some (ok (data_frame p))) h =
    print-Typed state r w.can_print p w.good_sends h
frame-Typed state w r (some (ok pong)) h =
    quiet-Typed state (record r { last_pong = w.now }) w.good_sends h
frame-Typed state w r (some (ok (exit code))) h = tt
frame-Typed state w r (some (ok detached)) h = returned-Typed state r w.can_print _ _
frame-Typed state w r (some (ok _)) h = quiet-Typed state r w.good_sends h
frame-Typed state w r (some (err e)) h = tt
frame-Typed state w r none h = tt

actions-Typed :
    (state end : EscapeState) (typed : Bytes) (outs : List Output) (r : Relay) (d : Doing)
    → outs ≡ (meaning state typed).1
    → end ≡ (meaning state typed).0
    → r.escape ≡ some end
    → Heard outs d
    → Typed state typed (r, d)
actions-Typed state end typed outs r (acts, going m) eo es h (sent, none_left) =
    (rw (← eo) sent, rw (← es) h, detach_shows state typed (rw (← eo) none_left))
actions-Typed state end typed outs r (acts, returned code) eo es h _ = tt
actions-Typed state end typed outs r (acts, failed) eo es h _ = tt

keys-Typed :
    (state : EscapeState) (w : World) (r : Relay) (o : Option EscapeState) (typed : Bytes)
    → o ≡ some state
    → Typed state typed (on_keys w r o typed)
keys-Typed state w r o typed h =
    let (ends, outs) = process-meaning state typed in
    rw h (
      actions-Typed state (process state typed).0 typed (outputs (process state typed).1)
        (record r { escape = some (process state typed).0 })
        (on_actions w w.good_sends (process state typed).1) outs ends refl
        (on_actions-Heard w w.good_sends (process state typed).1))

relay_round-Typed :
    (state : EscapeState) (w : World) (r : Relay) (input : Input)
    → r.escape ≡ some state
    → Typed state (typed_now input) (relay_round w r input)
unfolding relay_round
relay_round-Typed state w r (stdin_in (keys bytes)) h = keys-Typed state w r r.escape bytes h
relay_round-Typed state w r (stdin_in eof) h = tt
relay_round-Typed state w r (stdin_in read_failed) h = tt
relay_round-Typed state w r (stdin_in read_would_block) h = quiet-Typed state r w.good_sends h
relay_round-Typed state w r (frame_in f) h = frame-Typed state w r f h
relay_round-Typed state w r sigwinch_in h = size-Typed state r w w.good_sends h
relay_round-Typed state w r tick_in h = tick-Typed state w r h

detaches-append :
    (state : EscapeState) (xs ys : Bytes)
    → detaches state xs ≡ false
    → detaches (meaning state xs).0 ys ≡ false
    → detaches state (xs ++ ys) ≡ false
unfolding detaches meaning
detaches-append state [] ys hx hy = hy
detaches-append state (b ∷ xs) ys hx hy = elim (Bool-cases (is_detach state b)) [
  | inl e ↦ cc (rw e at hx)
  | inr e ↦ rw e (detaches-append (next state b) xs ys (rw e at hx) (rw e at hy))
]

append-Typed :
    (state : EscapeState) (xs ys : Bytes) (acts : List Action) (later : Round)
    → sent_bytes acts ≡ bytes_of (meaning state xs).1
    → detaches state xs ≡ false
    → Typed (meaning state xs).0 ys later
    → Typed state (xs ++ ys) (later.0, (acts ++ later.1.0, later.1.1))
append-Typed state xs ys acts (r, (more, going m)) e quiet (e', at, quiet') =
    rw (meaning-append state xs ys quiet) (
      rw (sent_bytes-append acts more, bytes_of-append (meaning state xs).1 _, e, e') refl,
      at,
      detaches-append state xs ys quiet quiet',
    )
append-Typed state xs ys acts (r, (more, returned code)) e quiet _ = tt
append-Typed state xs ys acts (r, (more, failed)) e quiet _ = tt

chain_round-Typed :
    (state : EscapeState) (xs ys : Bytes) (round : Round) (k : Relay → Round)
    → Typed state xs round
    → ((r : Relay) (mid : EscapeState) → r.escape ≡ some mid → Typed mid ys (k r))
    → Typed state (xs ++ ys) (chain_round round k)
chain_round-Typed state xs ys (r, (acts, going m)) k (e, at, quiet) h =
    append-Typed state xs ys acts (k r) e quiet (h r (meaning state xs).0 at)
chain_round-Typed state xs ys (r, (acts, returned code)) k _ h = tt
chain_round-Typed state xs ys (r, (acts, failed)) k _ h = tt

-- While the relay goes on, whatever frames, changes of size, heartbeats and suspensions come between
-- the reads of the keyboard, and however these cut what is typed: the Data frames sent hold exactly
-- the bytes that the typed text means to the escape processor byte by byte, in order, the processor
-- stands where the text leads, and the text does not detach.
pub relay_loop-Typed :
    (state : EscapeState) (r : Relay) (events : Events)
    → r.escape ≡ some state
    → Typed state (typed_in events) (relay_loop r events)
unfolding relay_loop
relay_loop-Typed state r [] h = quiet-Typed state r zero h
relay_loop-Typed state r ((w, input) ∷ events) h =
    chain_round-Typed state (typed_now input) (typed_in events) (relay_round w r input)
      (λ r'. relay_loop r' events) (relay_round-Typed state w r input h)
      (λ r' mid at. relay_loop-Typed mid r' events at)
