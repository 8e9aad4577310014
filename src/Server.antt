-- ===== src/Server.antt =====
-- The task of one session, `run` of src/server.rs: the start of the shell, the relay between the
-- attached client and the PTY, and the wait for the next client. A connection is a number. What
-- the operating system answers in one round of the loop is a value of `Answers`.
pub mod Trace
pub mod Keyboard
pub mod Told
pub mod Screen
pub mod Task
pub mod Exit
pub mod Attached
pub mod Relaying
use mathlib.Core.Option.{get_or}
use ttyleport.Prelude.{
  ℕ, ℤ, pos, Bool, true, false, List, [], ◌∷◌, ◌++◌, Option, none, some, Bytes, take, if◌then◌else◌,
  Result, ok, err,
}
use ttyleport.Protocol.{Frame, DecodeError, data_frame, resize, exit, detached, ping, pong, env}
use ttyleport.Security.{clamp_winsize}
use ttyleport.Daemon.{SessionMetadata}

-- Why the relay loop exited.
pub data RelayExit : Type 0 where
  client_gone : RelayExit
  shell_exited : (code : ℤ) → RelayExit

-- A `write` to the PTY, with the number of bytes that it takes.
pub data PtyWrite : Type 0 where
  wrote : (n : ℕ) → PtyWrite
  write_failed write_would_block : PtyWrite

-- A `read` from the PTY.
pub data PtyRead : Type 0 where
  eof eio read_failed read_would_block : PtyRead
  output : (bytes : Bytes) → PtyRead

-- The outcome of `wait`: it fails, or the child has a status, with a code unless a signal ended it.
abbrev pub WaitOutcome : Type 0
WaitOutcome = Option (Option ℤ)

-- `foreground` is whether `tcgetpgrp` succeeds, `sent` whether `framed.send` does. A `try_wait` that
-- finds no exited child is `none`.
pub record Answers : Type 0 where
  pub write : PtyWrite
  pub now : ℕ
  pub foreground : Bool
  pub sent : Bool
  pub try_wait : WaitOutcome

-- `pty_input` is what the PTY takes of a write. A `send` is tried: the connection may be broken.
pub data Effect : Type 0 where
  spawn_shell : (vars : List (Bytes × Bytes)) → Effect
  pty_input : Bytes → Effect
  winsize : (cols rows : ℕ) → Effect
  sigwinch : Effect
  send : (connection : ℕ) → Frame → Effect

-- The relay loop, with the connection in `framed`.
pub record Relay : Type 0 where
  pub connection : ℕ
  pub metadata : SessionMetadata

-- How a round of the relay loop ends: it goes on, breaks, or `run` returns an error.
pub data Flow : Type 0 where
  next : Flow
  break_with : RelayExit → Flow
  fail : Flow

abbrev pub Turn : Type 0
Turn = Relay × List Effect × Flow

-- `Frame::Data`: the number of bytes written is not looked at.
abbrev pub on_data : PtyWrite → Relay → Bytes → Turn
on_data (wrote n) r payload = (r, pty_input (take n payload) ∷ [], next)
on_data write_failed r payload = (r, [], fail)
on_data write_would_block r payload = (r, [], next)

abbrev pub on_resize : Bool → Relay → ℕ × ℕ → Turn
on_resize foreground r (cols, rows) =
    (r, winsize cols rows ∷ (if foreground then sigwinch ∷ [] else []), next)

abbrev pub on_ping : ℕ → Relay → Turn
on_ping now r = (
  record r { metadata = record r.metadata { last_heartbeat = now } },
  send r.connection pong ∷ [],
  next,
)

-- The arm of `framed.next()`.
unfoldable pub on_frame : Answers → Relay → Option (Result DecodeError Frame) → Turn
on_frame a r (some (ok (data_frame payload))) = on_data a.write r payload
on_frame a r (some (ok (resize cols rows))) = on_resize a.foreground r (clamp_winsize cols rows)
on_frame a r (some (ok ping)) = on_ping a.now r
on_frame a r (some (ok (exit code))) = (r, [], break_with client_gone)
on_frame a r (some (ok _)) = (r, [], next)
on_frame a r (some (err e)) = (r, [], fail)
on_frame a r none = (r, [], break_with client_gone)

-- The arm of `async_master.readable()`.
unfoldable pub on_pty : Answers → Relay → PtyRead → Turn
on_pty a r eof = (r, [], break_with (shell_exited (pos 0)))
on_pty a r eio = (r, [], break_with (shell_exited (pos 0)))
on_pty a r read_failed = (r, [], fail)
on_pty a r read_would_block = (r, [], next)
on_pty a r (output bytes) =
    (r, send r.connection (data_frame bytes) ∷ [], if a.sent then next else fail)

-- The arm of `client_rx.recv()`.
unfoldable pub on_client : Relay → Option ℕ → Turn
on_client r none = (r, [], next)
on_client r (some new) = (record r { connection = new }, send r.connection detached ∷ [], next)

-- The arm of `managed.child.wait()`.
unfoldable pub on_child : Relay → WaitOutcome → Turn
on_child r none = (r, [], fail)
on_child r (some code) = (r, [], break_with (shell_exited (get_or code (pos 1))))

-- What `select!` gives.
pub data Input : Type 0 where
  frame_in : Option (Result DecodeError Frame) → Input
  pty_in : PtyRead → Input
  client_in : Option ℕ → Input
  child_in : WaitOutcome → Input

unfoldable pub relay_turn : Answers → Relay → Input → Turn
relay_turn a r (frame_in frame) = on_frame a r frame
relay_turn a r (pty_in read) = on_pty a r read
relay_turn a r (client_in client) = on_client r client
relay_turn a r (child_in status) = on_child r status

-- Where the task stands: in the relay loop, in the wait for a client, or returned with `Ok` or `Err`.
pub data Session : Type 0 where
  relaying : Relay → Session
  waiting : SessionMetadata → Session
  ended broken : Session

abbrev pub exit_code : ℤ → WaitOutcome → ℤ
exit_code code (some status) = get_or status code
exit_code code none = code

-- What follows a round: `match exit` behind the loop when it breaks.
abbrev pub after_turn : Answers → Turn → Session × List Effect
after_turn a (r, effects, next) = (relaying r, effects)
after_turn a (r, effects, break_with client_gone) =
    (waiting (record r.metadata { attached = false }), effects)
after_turn a (r, effects, break_with (shell_exited code)) =
    (ended, effects ++ send r.connection (exit (exit_code code a.try_wait)) ∷ [])
after_turn a (r, effects, fail) = (broken, effects)

-- The wait takes a client or the end of the child; it does not look at the other sources.
unfoldable pub wait_turn : SessionMetadata → Input → Session
wait_turn m (client_in (some client)) =
    relaying (record { connection = client; metadata = record m { attached = true } })
wait_turn m (client_in none) = ended
wait_turn m (child_in (some code)) = ended
wait_turn m (child_in none) = broken
wait_turn m _ = waiting m

unfoldable pub step : Answers → Session → Input → Session × List Effect
step a (relaying r) input = after_turn a (relay_turn a r input)
step a (waiting m) input = (wait_turn m input, [])
step a ended input = (ended, [])
step a broken input = (broken, [])

abbrev pub Events : Type 0
Events = List (Answers × Input)

unfoldable pub steps : Session → Events → Session × List Effect
steps s [] = (s, [])
steps s ((a, input) ∷ events) =
    let now = step a s input in let later = steps now.0 events in (later.0, now.1 ++ later.1)

-- The variables of the first frame; `none` is the timeout of 100 ms. A first frame of another kind
-- is dropped.
abbrev pub first_env : Option (Option (Result DecodeError Frame)) → List (Bytes × Bytes)
first_env (some (some (ok (env vars)))) = vars
first_env _ = []

-- What the start meets: the first client, its first frame, the name of the PTY, the pid of the
-- shell if it can be started, and the clock.
pub record Start : Type 0 where
  pub client : Option ℕ
  pub first_frame : Option (Option (Result DecodeError Frame))
  pub pty_path : Bytes
  pub shell : Option ℕ
  pub now : ℕ

abbrev pub first_metadata : Start → ℕ → SessionMetadata
first_metadata st pid = record {
  pty_path = st.pty_path;
  shell_pid = pid;
  created_at = st.now;
  attached = true;
  last_heartbeat = 0;
}

abbrev pub start_shell : Start → ℕ → Option ℕ → Session × List Effect
start_shell st client none = (broken, [])
start_shell st client (some pid) = (
  relaying (record { connection = client; metadata = first_metadata st pid }),
  spawn_shell (first_env st.first_frame) ∷ [],
)

abbrev pub start_client : Start → Option ℕ → Session × List Effect
start_client st none = (ended, [])
start_client st (some client) = start_shell st client st.shell

unfoldable pub start : Start → Session × List Effect
start st = start_client st st.client
