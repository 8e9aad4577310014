-- ===== src/Client/Relay/Idle.antt =====
-- How long the relay of src/client.rs stays up when its user does nothing.
use ttyleport.Prelude.{
  ℕ, zero, suc, ◌-◌, ◌<◌, ◌≤◌, Bool, true, false, [], ◌∷◌, some, Bytes, ltb, ok, ◌≡◌, refl, arith,
}
use ttyleport.Protocol.{Frame, data_frame, exit, detached, ping, pong}
use ttyleport.Client.Relay.{
  World, Stay, going, returned, failed, timed_send, print_then, Relay, Round, on_frame, on_tick,
  Input, stdin_in, read_would_block, frame_in, sigwinch_in, tick_in, relay_round, Events,
  chain_round, relay_loop, heartbeat_timeout,
}

-- The instant of the last Pong behind an input.
abbrev pub pong_after : ℕ → World × Input → ℕ
pong_after t (w, frame_in (some (ok pong))) = w.now
pong_after t _ = t

-- An input that leaves the relay alone, where the last Pong came at the given instant: the server neither
-- ends the session nor the connection, what there is to send and to print can be, and a heartbeat is due
-- at most fifteen seconds behind that Pong.
abbrev pub LeavesFrame : World → Frame → Type 0
LeavesFrame w (data_frame p) = w.can_print ≡ true
LeavesFrame w (exit code) = ⊥
LeavesFrame w detached = ⊥
LeavesFrame w _ = Unit

abbrev pub Leaves : ℕ → World × Input → Type 0
Leaves t (w, frame_in (some (ok f))) = LeavesFrame w f
Leaves t (w, tick_in) = (w.now - t ≤ heartbeat_timeout) × (0 < w.good_sends)
Leaves t (w, sigwinch_in) = 0 < w.good_sends
Leaves t (w, stdin_in read_would_block) = Unit
Leaves t _ = ⊥

abbrev pub IsIdle : ℕ → Events → Type 0
IsIdle t [] = Unit
IsIdle t (e ∷ events) = Leaves t e × IsIdle (pong_after t e) events

-- The relay goes on.
abbrev pub GoesOn : Stay → Type 0
GoesOn (going m) = Unit
GoesOn _ = ⊥

abbrev Stands : ℕ → Round → Type 0
Stands t (r, (acts, stay)) = GoesOn stay × (r.last_pong ≡ t)

timed_send-GoesOn : (n : ℕ) (f : Frame) → 0 < n → GoesOn (timed_send n f).1
timed_send-GoesOn zero f h = omega (arith, h)
timed_send-GoesOn (suc n) f h = tt

print_then-GoesOn :
    (can : Bool) (text : Bytes) (n : ℕ) → can ≡ true → GoesOn (print_then can text (going n)).1
print_then-GoesOn true text n h = tt
print_then-GoesOn false text n h = cc h

on_frame-Stands :
    (w : World) (r : Relay) (f : Frame)
    → LeavesFrame w f
    → Stands (pong_after r.last_pong (w, frame_in (some (ok f)))) (on_frame w r (some (ok f)))
on_frame-Stands w r (data_frame p) h = (print_then-GoesOn w.can_print p w.good_sends h, refl)
on_frame-Stands w r (exit code) h = absurd h
on_frame-Stands w r detached h = absurd h
on_frame-Stands w r pong h = (tt, refl)
on_frame-Stands w r _ h = (tt, refl)

on_tick-Stands :
    (w : World) (r : Relay)
    → w.now - r.last_pong ≤ heartbeat_timeout
    → 0 < w.good_sends
    → Stands r.last_pong (on_tick w r)
on_tick-Stands w r due can =
    let early : ltb heartbeat_timeout (w.now - r.last_pong) ≡ false = ground arith in
    rw early (timed_send-GoesOn w.good_sends ping can, refl)

relay_round-Stands :
    (w : World) (r : Relay) (input : Input)
    → Leaves r.last_pong (w, input)
    → Stands (pong_after r.last_pong (w, input)) (relay_round w r input)
unfolding relay_round
relay_round-Stands w r (frame_in (some (ok f))) h = on_frame-Stands w r f h
relay_round-Stands w r tick_in (due, can) = on_tick-Stands w r due can
relay_round-Stands w r sigwinch_in h = (timed_send-GoesOn w.good_sends _ h, refl)
relay_round-Stands w r (stdin_in read_would_block) h = (tt, refl)
relay_round-Stands w r (stdin_in _) h = absurd h
relay_round-Stands w r (frame_in _) h = absurd h

chain_round-GoesOn :
    (t : ℕ) (round : Round) (k : Relay → Round)
    → Stands t round
    → ((r : Relay) → r.last_pong ≡ t → GoesOn (k r).1.1)
    → GoesOn (chain_round round k).1.1
chain_round-GoesOn t (r, (acts, going m)) k (_, e) h = h r e
chain_round-GoesOn t (r, (acts, returned code)) k (stopped, e) h = absurd stopped
chain_round-GoesOn t (r, (acts, failed)) k (stopped, e) h = absurd stopped

-- A client that is left alone stays attached, as long as its server answers: the relay goes on, however
-- many inputs come in whatever order, if its user types nothing, the server ends neither the session nor
-- the connection, what there is to send and to print can be, and each heartbeat is due at most fifteen
-- seconds behind the last Pong.
pub relay_loop-GoesOn :
    (r : Relay) (events : Events) → IsIdle r.last_pong events → GoesOn (relay_loop r events).1.1
unfolding relay_loop
relay_loop-GoesOn r [] h = tt
relay_loop-GoesOn r ((w, input) ∷ events) (h, hs) =
    chain_round-GoesOn (pong_after r.last_pong (w, input)) (relay_round w r input)
      (λ r'. relay_loop r' events) (relay_round-Stands w r input h)
      (λ r' e. relay_loop-GoesOn r' events (rw e hs))
