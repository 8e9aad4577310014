-- ===== src/Server/Attached.antt =====
-- The flag `attached` that `gritty ls` shows, against where the task of src/server.rs stands.
use ttyleport.Prelude.{
  ℕ, true, false, [], ◌∷◌, Option, none, some, Result, ok, err, ◌≡◌, refl, Bytes,
}
use ttyleport.Protocol.{Frame, DecodeError, data_frame}
use ttyleport.Daemon.{SessionMetadata}
use ttyleport.Server.{
  Answers, Input, Events, Session, Relay, Turn, PtyWrite, PtyRead, eof, eio, read_failed,
  read_would_block, output, frame_in, pty_in, client_in, child_in, relaying, waiting, ended, broken,
  step, steps, relay_turn, after_turn, wait_turn, on_frame, on_pty, on_client, on_child, on_data,
  next, fail, break_with, client_gone, shell_exited, wrote, write_failed, write_would_block, Start,
  start, start_client, start_shell,
}

-- The flag is up in the relay loop and down in the wait for a client.
abbrev pub FlagRight : Session → Type 0
FlagRight (relaying r) = r.metadata.attached ≡ true
FlagRight (waiting m) = m.attached ≡ false
FlagRight _ = Unit

abbrev TurnAttached : Turn → Type 0
TurnAttached (r, es, flow) = r.metadata.attached ≡ true

on_data-attached :
    (w : PtyWrite) (r : Relay) (p : Bytes)
    → r.metadata.attached ≡ true
    → TurnAttached (on_data w r p)
on_data-attached (wrote n) r p h = h
on_data-attached write_failed r p h = h
on_data-attached write_would_block r p h = h

on_frame-attached :
    (a : Answers) (r : Relay) (f : Option (Result DecodeError Frame))
    → r.metadata.attached ≡ true
    → TurnAttached (on_frame a r f)
unfolding on_frame
on_frame-attached a r none h = h
on_frame-attached a r (some (err e)) h = h
on_frame-attached a r (some (ok (data_frame p))) h = on_data-attached a.write r p h
on_frame-attached a r (some (ok _)) h = h

on_pty-attached :
    (a : Answers) (r : Relay) (read : PtyRead)
    → r.metadata.attached ≡ true
    → TurnAttached (on_pty a r read)
unfolding on_pty
on_pty-attached a r eof h = h
on_pty-attached a r eio h = h
on_pty-attached a r read_failed h = h
on_pty-attached a r read_would_block h = h
on_pty-attached a r (output bytes) h = h

relay_turn-attached :
    (a : Answers) (r : Relay) (i : Input)
    → r.metadata.attached ≡ true
    → TurnAttached (relay_turn a r i)
unfolding relay_turn on_client on_child
relay_turn-attached a r (frame_in f) h = on_frame-attached a r f h
relay_turn-attached a r (pty_in read) h = on_pty-attached a r read h
relay_turn-attached a r (client_in none) h = h
relay_turn-attached a r (client_in (some c)) h = h
relay_turn-attached a r (child_in none) h = h
relay_turn-attached a r (child_in (some code)) h = h

after_turn-FlagRight : (a : Answers) (t : Turn) → TurnAttached t → FlagRight (after_turn a t).0
after_turn-FlagRight a (r, es, next) h = h
after_turn-FlagRight a (r, es, fail) h = tt
after_turn-FlagRight a (r, es, break_with client_gone) h = refl
after_turn-FlagRight a (r, es, break_with (shell_exited code)) h = tt

wait_turn-FlagRight :
    (m : SessionMetadata) (i : Input) → m.attached ≡ false → FlagRight (wait_turn m i)
unfolding wait_turn
wait_turn-FlagRight m (client_in none) h = tt
wait_turn-FlagRight m (client_in (some c)) h = refl
wait_turn-FlagRight m (child_in none) h = tt
wait_turn-FlagRight m (child_in (some code)) h = tt
wait_turn-FlagRight m (frame_in f) h = h
wait_turn-FlagRight m (pty_in f) h = h

step-FlagRight : (a : Answers) (s : Session) (i : Input) → FlagRight s → FlagRight (step a s i).0
unfolding step
step-FlagRight a (relaying r) i h =
    after_turn-FlagRight a (relay_turn a r i) (relay_turn-attached a r i h)
step-FlagRight a (waiting m) i h = wait_turn-FlagRight m i h
step-FlagRight a ended i h = tt
step-FlagRight a broken i h = tt

steps-FlagRight : (s : Session) (events : Events) → FlagRight s → FlagRight (steps s events).0
unfolding steps
steps-FlagRight s [] h = h
steps-FlagRight s ((a, i) ∷ events) h =
    steps-FlagRight (step a s i).0 events (step-FlagRight a s i h)

start_shell-FlagRight :
    (st : Start) (client : ℕ) (shell : Option ℕ) → FlagRight (start_shell st client shell).0
start_shell-FlagRight st client none = tt
start_shell-FlagRight st client (some pid) = refl

start_client-FlagRight : (st : Start) (client : Option ℕ) → FlagRight (start_client st client).0
start_client-FlagRight st none = tt
start_client-FlagRight st (some c) = start_shell-FlagRight st c st.shell

-- However a session is started and whatever comes in, the flag is up exactly while the task is in
-- the relay loop, and down while it waits for a client.
pub start-steps-FlagRight : (st : Start) (events : Events) → FlagRight (steps (start st).0 events).0
unfolding start
start-steps-FlagRight st events =
    steps-FlagRight (start_client st st.client).0 events (start_client-FlagRight st st.client)
