-- ===== src/Main.antt =====
-- The command line, src/main.rs, behind clap: the requests to the daemon, their answers and the
-- exit status, the parent process of `daemonize`, and `collect_env_vars` of src/lib.rs. The printing of
-- a table is in a child. `serve` is what becomes of a frame that is sent to the control socket.
pub mod Timestamp
pub mod Table
pub mod Requests
pub mod Created
pub mod Listed
pub mod Launch
pub mod Cli
use mathlib.Core.Option.{get_or}
use ttyleport.Prelude.{
  ℕ, zero, suc, ◌+◌, ◌-◌, ◌*◌, ◌/◌, ◌%◌, ◌^◌, ◌≤◌, ◌<◌, ◌≡◌, refl, sym, ap, ap₂, subst, ◌∙◌, ◌≢◌,
  ◌↔◌, ◌⊎◌, inl, inr, Bool, true, false, not, ◌&&◌, ◌||◌, Option, none, some, List, [], ◌∷◌, ◌++◌,
  map, append-nil, append_assoc, arith, ltb, leb, ◌==◌, if◌then◌else◌, ==_iff, Bool-cases,
  Option-cases, Bytes, bytes_eq, bytes_eq_iff, is_empty, codes, ◌>>=◌, length, take, drop,
  length-append, All, All-append, Lacks, Result, ok, err, ℤ, pos, negsuc,
}
use ttyleport.Protocol.{
  Frame, DecodeError, ExpectError, protocol_error, closed_connection, expect_from, new_session,
  attach, list_sessions, kill_session, kill_server, session_created, session_info, ok_frame,
  error_frame,
}
use ttyleport.Client.Run.{Life, Stage, RunEnd, exited, run_failed, unfinished, Ran, run}

pub data CommandError : Type 0 where
  no_daemon not_sent : CommandError
  bad_answer : ExpectError → CommandError
  refused : (message : Bytes) → CommandError
  unexpected_response : Frame → CommandError

-- A connection that brings one frame: whether it is made, whether the frame goes out, and what
-- `framed.next()` gives.
pub record Exchange : Type 0 where
  pub connected : Bool
  pub sent : Bool
  pub answer : Option (Result DecodeError Frame)

abbrev pub Serve : Type 0
Serve = Frame → Exchange

abbrev pub expected : Result ExpectError Frame → Result CommandError Frame
expected (ok frame) = ok frame
expected (err e) = err (bad_answer e)

-- The send and the answer, on a connection that is made.
abbrev pub send_and_expect : Exchange → Result CommandError Frame
send_and_expect x = if x.sent then expected (expect_from x.answer) else err not_sent

unfoldable pub daemon_request : Serve → Frame → Result CommandError Frame
unfolding expect_from
daemon_request serve frame =
    if (serve frame).connected then send_and_expect (serve frame) else err no_daemon

-- `Frame::Ok`, and what each command makes of another frame.
abbrev pub on_ok : Bytes → Frame → Result CommandError Bytes
on_ok said ok_frame = ok said
on_ok said (error_frame message) = err (refused message)
on_ok said other = err (unexpected_response other)

unfoldable pub kill_session_command : Serve → Bytes → Result CommandError Bytes
kill_session_command serve target =
    daemon_request serve (kill_session target) >>= on_ok (codes "session killed: " ++ target)

unfoldable pub kill_server_command : Serve → Result CommandError Bytes
kill_server_command serve = daemon_request serve kill_server >>= on_ok (codes "server killed")

-- `collect_env_vars`: `var` is the environment.
abbrev pub one_var : (Bytes → Option Bytes) → Bytes → List (Bytes × Bytes)
one_var var k = elim (var k) [ some v ↦ (k, v) ∷ [] | none ↦ [] ]

unfoldable pub collect_env_vars : (Bytes → Option Bytes) → List (Bytes × Bytes)
collect_env_vars var =
    one_var var (codes "TERM") ++ (one_var var (codes "LANG") ++ one_var var (codes "COLORTERM"))

-- What a command says, and what its client does then.
abbrev pub Attached : Type 0
Attached = Bytes × Ran

abbrev pub created_line : Option Bytes → Bytes → Bytes
created_line (some name) id =
    codes "session created: " ++ (name ++ (codes " (id " ++ (id ++ codes ")")))
created_line none id = codes "session created: id " ++ id

abbrev pub on_created :
    Option Bytes → Bool → List (Bytes × Bytes) → List Life → Frame → Result CommandError Attached
on_created name no_escape vars lives (session_created id) =
    ok (created_line name id, run id vars false no_escape lives)
on_created name no_escape vars lives (error_frame message) = err (refused message)
on_created name no_escape vars lives other = err (unexpected_response other)

unfoldable pub new_session_command :
    Serve → Option Bytes → Bool → List (Bytes × Bytes) → List Life → Result CommandError Attached
new_session_command serve name no_escape vars lives =
    daemon_request serve (new_session (get_or name [])) >>= on_created name no_escape vars lives

abbrev pub on_attached : Bytes → Bool → Bool → List Life → Frame → Result CommandError Attached
on_attached target redraw no_escape lives ok_frame =
    ok (codes "[attached]", run target [] redraw no_escape lives)
on_attached target redraw no_escape lives (error_frame message) = err (refused message)
on_attached target redraw no_escape lives other = err (unexpected_response other)

-- Behind the loop that waits for a daemon.
unfoldable pub attach_command :
    Serve → Bytes → Bool → Bool → List Life → Result CommandError Attached
unfolding expect_from
attach_command serve target redraw no_escape lives =
    send_and_expect (serve (attach target)) >>= on_attached target redraw no_escape lives

-- That loop: how often it says that it waits, and whether it comes to a connection with these tries.
unfoldable pub wait_for_daemon : List Bool → ℕ × Bool
wait_for_daemon [] = (0, false)
wait_for_daemon (true ∷ tries) = (0, true)
wait_for_daemon (false ∷ tries) = let rest = wait_for_daemon tries in (suc rest.0, rest.1)

-- The exit status of the process: an error is 1. `none` if the client still runs.
abbrev pub ran_status : RunEnd → Option ℤ
ran_status (exited code) = some code
ran_status run_failed = some (pos 1)
ran_status unfinished = none

abbrev pub command_status : {A : Type 0} → Result CommandError A → Option ℤ
command_status (ok a) = some (pos 0)
command_status (err e) = some (pos 1)

-- The parent in `daemonize`: what it reads from the pipe is one byte, or the end.
unfoldable pub parent_status : Bool → ℤ
parent_status true = pos 0
parent_status false = pos 1
