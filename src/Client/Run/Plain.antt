-- ===== src/Client/Run/Plain.antt =====
-- A relay of src/client.rs that is given no variables sends none.
use ttyleport.Prelude.{
  ℕ, zero, suc, ◌-◌, inl, inr, Bool, true, false, Option, none, some, List, [], ◌∷◌, ltb,
  Bool-cases, Bytes, All, All-append, Result, ok, err,
}
use ttyleport.Protocol.{Frame, DecodeError, data_frame, exit, detached, ping, pong, env}
use ttyleport.Client.Escape.{EscapeState, EscapeAction, typed, detach, suspend, help, process}
use ttyleport.Client.Relay.{
  World, Action, send, Stay, going, returned, failed, Doing, timed_send, print_then, suspended,
  on_action, chain, on_actions, Relay, Round, on_keys, eof, read_failed, read_would_block, keys,
  on_frame, on_tick, Input, stdin_in, frame_in, sigwinch_in, tick_in, relay_round, Events,
  chain_round, relay_loop, heartbeat_timeout, opening_frames, send_all, relay_from, relay,
}

-- The action sends no variables.
abbrev pub IsPlain : Action → Type 0
IsPlain (send (env vars)) = ⊥
IsPlain _ = Unit

abbrev pub Plain : List Action → Type 0
Plain = All IsPlain

timed_send-Plain : (n : ℕ) (f : Frame) → IsPlain (send f) → Plain (timed_send n f).0
timed_send-Plain zero f h = (h, tt)
timed_send-Plain (suc n) f h = (h, tt)

print_then-Plain : (can : Bool) (text : Bytes) (stay : Stay) → Plain (print_then can text stay).0
print_then-Plain true text stay = (tt, tt)
print_then-Plain false text stay = (tt, tt)

suspended-Plain : (w : World) (can : Bool) (n : ℕ) → Plain (suspended w can n).0
suspended-Plain w true n = (tt, timed_send-Plain n _ tt)
suspended-Plain w false n = (tt, tt)

on_action-Plain : (w : World) (n : ℕ) (a : EscapeAction) → Plain (on_action w n a).0
unfolding on_action
on_action-Plain w n (typed p) = timed_send-Plain n (data_frame p) tt
on_action-Plain w n detach = print_then-Plain w.can_print _ _
on_action-Plain w n suspend = suspended-Plain w w.can_suspend n
on_action-Plain w n help = print_then-Plain w.can_print _ _

chain-Plain :
    (d : Doing) (k : ℕ → Doing) → Plain d.0 → ((m : ℕ) → Plain (k m).0) → Plain (chain d k).0
chain-Plain (acts, going m) k h hk = All-append IsPlain acts (k m).0 h (hk m)
chain-Plain (acts, returned code) k h hk = h
chain-Plain (acts, failed) k h hk = h

on_actions-Plain :
    (w : World) (n : ℕ) (actions : List EscapeAction) → Plain (on_actions w n actions).0
unfolding on_actions
on_actions-Plain w n [] = tt
on_actions-Plain w n (a ∷ actions) =
    chain-Plain (on_action w n a) _ (on_action-Plain w n a) (λ m. on_actions-Plain w m actions)

on_keys-Plain :
    (w : World) (r : Relay) (o : Option EscapeState) (bytes : Bytes)
    → Plain (on_keys w r o bytes).1.0
on_keys-Plain w r (some state) bytes = on_actions-Plain w w.good_sends (process state bytes).1
on_keys-Plain w r none bytes = timed_send-Plain w.good_sends (data_frame bytes) tt

on_tick-Plain : (w : World) (r : Relay) → Plain (on_tick w r).1.0
on_tick-Plain w r = elim (Bool-cases (ltb heartbeat_timeout (w.now - r.last_pong))) [
  | inl e ↦ rw e tt
  | inr e ↦ rw e (timed_send-Plain w.good_sends ping tt)
]

on_frame-Plain :
    (w : World) (r : Relay) (f : Option (Result DecodeError Frame)) → Plain (on_frame w r f).1.0
on_frame-Plain w r (some (ok (data_frame p))) = print_then-Plain w.can_print p _
on_frame-Plain w r (some (ok pong)) = tt
on_frame-Plain w r (some (ok (exit code))) = tt
on_frame-Plain w r (some (ok detached)) = print_then-Plain w.can_print _ _
on_frame-Plain w r (some (ok _)) = tt
on_frame-Plain w r (some (err e)) = tt
on_frame-Plain w r none = tt

relay_round-Plain : (w : World) (r : Relay) (input : Input) → Plain (relay_round w r input).1.0
unfolding relay_round
relay_round-Plain w r (stdin_in (keys bytes)) = on_keys-Plain w r r.escape bytes
relay_round-Plain w r (stdin_in eof) = tt
relay_round-Plain w r (stdin_in read_failed) = tt
relay_round-Plain w r (stdin_in read_would_block) = tt
relay_round-Plain w r (frame_in f) = on_frame-Plain w r f
relay_round-Plain w r sigwinch_in = timed_send-Plain w.good_sends _ tt
relay_round-Plain w r tick_in = on_tick-Plain w r

chain_round-Plain :
    (round : Round) (k : Relay → Round)
    → Plain round.1.0
    → ((r : Relay) → Plain (k r).1.0)
    → Plain (chain_round round k).1.0
chain_round-Plain (r, (acts, going m)) k h hk = All-append IsPlain acts (k r).1.0 h (hk r)
chain_round-Plain (r, (acts, returned code)) k h hk = h
chain_round-Plain (r, (acts, failed)) k h hk = h

relay_loop-Plain : (r : Relay) (events : Events) → Plain (relay_loop r events).1.0
unfolding relay_loop
relay_loop-Plain r [] = tt
relay_loop-Plain r ((w, input) ∷ events) =
    chain_round-Plain (relay_round w r input) _ (relay_round-Plain w r input)
      (λ r'. relay_loop-Plain r' events)

send_all-Plain :
    (n : ℕ) (frames : List Frame) → All (λ f. IsPlain (send f)) frames → Plain (send_all n frames).0
unfolding send_all
send_all-Plain n [] h = tt
send_all-Plain zero (f ∷ frames) (h, hs) = (h, tt)
send_all-Plain (suc n) (f ∷ frames) (h, hs) = (h, send_all-Plain n frames hs)

opening-Plain :
    (w : World) (redraw : Bool) → All (λ f. IsPlain (send f)) (opening_frames w [] redraw)
unfolding opening_frames
opening-Plain w true = (tt, (tt, tt))
opening-Plain w false = (tt, tt)

relay_from-Plain :
    (now : ℕ) (escape : Option EscapeState) (events : Events) (d : Doing)
    → Plain d.0
    → Plain (relay_from now escape events d).1.0
relay_from-Plain now escape events (acts, going n) h =
    All-append IsPlain acts _ h (relay_loop-Plain _ events)
relay_from-Plain now escape events (acts, returned code) h = h
relay_from-Plain now escape events (acts, failed) h = h

pub relay-Plain :
    (w : World) (redraw : Bool) (escape : Option EscapeState) (events : Events)
    → Plain (relay w [] redraw escape events).1.0
unfolding relay
relay-Plain w redraw escape events =
    relay_from-Plain w.now escape events _ (send_all-Plain w.good_sends _ (opening-Plain w redraw))
