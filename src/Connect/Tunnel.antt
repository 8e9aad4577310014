-- ===== src/Connect/Tunnel.antt =====
-- `run` of src/connect.rs: the remote daemon, the tunnel, and the guard that cleans up. What ssh
-- prints is given as it is behind `from_utf8_lossy` and `trim`.
pub mod Cleanup
use ttyleport.Prelude.{
  ℕ, zero, suc, ◌+◌, ◌-◌, ◌*◌, ◌/◌, ◌%◌, ◌^◌, ◌≤◌, ◌<◌, ◌≡◌, refl, sym, ap, ap₂, subst, ◌∙◌, ◌≢◌,
  ◌↔◌, ◌⊎◌, inl, inr, Bool, true, false, not, ◌&&◌, ◌||◌, Option, none, some, List, [], ◌∷◌, ◌++◌,
  map, append-nil, append_assoc, arith, ltb, leb, ◌==◌, if◌then◌else◌, ==_iff, Bool-cases,
  Option-cases, Bytes, bytes_eq, bytes_eq_iff, is_empty, codes, ◌>>=◌, length, take, drop,
  length-append, All, All-append, Lacks, Result, ok, err, ℤ, pos, negsuc,
}
use ttyleport.Text.Decimal.{to_string}
use ttyleport.Files.{FilePath, join_name, display, IoError}
use ttyleport.Security.Dirs.{Process}
use ttyleport.Daemon.Startup.{socket_dir}
use ttyleport.Connect.{
  Destination, DestinationError, parse_destination, tunnel_command, remote_exec_args,
}

pub data ConnectError : Type 0 where
  bad_destination : DestinationError → ConnectError
  ssh_not_run no_remote_gritty empty_socket_path no_tunnel socket_timeout no_signals : ConnectError
  ssh_failed : Bytes → ConnectError
  no_directory : IoError → ConnectError

-- The outcome of an ssh that runs a command.
pub data SshAnswer : Type 0 where
  not_run : SshAnswer
  output : (success : Bool) (stdout stderr : Bytes) → SshAnswer

unfoldable pub starts_with : Bytes → Bytes → Bool
starts_with [] text = true
starts_with (c ∷ needle) [] = false
starts_with (c ∷ needle) (d ∷ text) = c == d && starts_with needle text

-- `str::contains`
unfoldable pub contains_text : Bytes → Bytes → Bool
unfolding starts_with
contains_text needle [] = is_empty needle
contains_text needle (c ∷ text) = starts_with needle (c ∷ text) || contains_text needle text

-- The end of `remote_exec`.
unfoldable pub remote_exec : SshAnswer → Result ConnectError Bytes
unfolding contains_text
remote_exec not_run = err ssh_not_run
remote_exec (output true stdout stderr) = ok stdout
remote_exec (output false stdout stderr) =
    if contains_text (codes "command not found") stderr
      || contains_text (codes "No such file") stderr
    then err no_remote_gritty
    else err (ssh_failed stderr)

abbrev pub remote_ensure_cmd : Bytes
remote_ensure_cmd =
    codes "SOCK=$(gritty socket-path) && (gritty ls >/dev/null 2>&1 || "
    ++ codes "{ gritty daemon && sleep 0.3; }) && echo \"$SOCK\""

abbrev pub remote_cmd : Bool → Bytes
remote_cmd no_daemon_start =
    if no_daemon_start then codes "gritty socket-path" else remote_ensure_cmd

abbrev pub not_empty : Bytes → Result ConnectError Bytes
not_empty path = if is_empty path then err empty_socket_path else ok path

unfoldable pub ensure_remote_ready : SshAnswer → Result ConnectError Bytes
unfolding remote_exec
ensure_remote_ready answer = remote_exec answer >>= not_empty

unfoldable pub local_socket_path : Process → ℕ → FilePath
unfolding socket_dir to_string
local_socket_path me pid =
    join_name (socket_dir me) (codes "connect-" ++ (to_string pid ++ codes ".sock"))

-- One poll of the local socket, with the clock behind it in nanoseconds.
pub record Poll : Type 0 where
  pub connected : Bool
  pub now : ℕ

abbrev pub socket_deadline : ℕ
socket_deadline = 15_000_000_000

-- How a wait ends; `pending` if the polls given end before it does.
pub data Waited : Type 0 where
  ready timed_out pending : Waited

unfoldable pub wait_for_socket : ℕ → List Poll → Waited
wait_for_socket deadline [] = pending
wait_for_socket deadline (p ∷ polls) =
    let rest = wait_for_socket deadline polls in
    if p.connected then ready else if leb deadline p.now then timed_out else rest

-- What the command does to the world, in order. `monitor` hands the child to `tunnel_monitor`. With
-- `set_handlers` the process comes to handle SIGTERM and Ctrl-C.
pub data TunnelEffect : Type 0 where
  ssh spawn_ssh : (args : List Bytes) → TunnelEffect
  create_parent remove_socket monitor set_handlers cancel : TunnelEffect
  terminate : (pid : ℕ) → TunnelEffect
  print_path : FilePath → TunnelEffect

-- `ConnectGuard::drop`, with the child that the guard still holds, and its pid if it has one.
unfoldable pub drop_guard : Option (Option ℕ) → List TunnelEffect
drop_guard (some (some pid)) = cancel ∷ terminate pid ∷ remove_socket ∷ []
drop_guard (some none) = cancel ∷ remove_socket ∷ []
drop_guard none = cancel ∷ remove_socket ∷ []

pub record ConnectOpts : Type 0 where
  pub destination : Bytes
  pub no_daemon_start : Bool
  pub ssh_options : List Bytes

-- What `run` meets. `child` is the spawned ssh with its pid, if it has one, or `none` if the spawn
-- fails; `start` is the clock when the wait begins. `killed_after` is the number of effects after which
-- SIGINT or SIGTERM comes, if one comes.
pub record Meets : Type 0 where
  pub pid : ℕ
  pub remote : SshAnswer
  pub directory : Result IoError (Unit {0})
  pub child : Option (Option ℕ)
  pub start : ℕ
  pub polls : List Poll
  pub signals : Bool
  pub killed_after : Option ℕ

-- `run` returns a code or an error, or it is still waiting, or a signal ends the process.
pub data TunnelEnd : Type 0 where
  exit_with : (code : ℤ) → TunnelEnd
  error_with : ConnectError → TunnelEnd
  still_waiting killed : TunnelEnd

abbrev pub Tunnel : Type 0
Tunnel = List TunnelEffect × TunnelEnd

-- Behind the wait for the socket: the child goes to the monitor, and the guard is dropped when a
-- signal or the end of the monitor comes, or when the signal handler cannot be set.
abbrev pub on_waited : FilePath → Option ℕ → Bool → Waited → Tunnel
on_waited local child true ready =
    (monitor ∷ print_path local ∷ set_handlers ∷ drop_guard none, exit_with (pos 0))
on_waited local child false ready =
    (monitor ∷ print_path local ∷ drop_guard none, error_with no_signals)
on_waited local child signals timed_out = (drop_guard (some child), error_with socket_timeout)
on_waited local child signals pending = ([], still_waiting)

abbrev pub before : List TunnelEffect → Tunnel → Tunnel
before effects t = (effects ++ t.0, t.1)

abbrev pub on_child : FilePath → Meets → Option (Option ℕ) → Tunnel
on_child local w none = ([], error_with no_tunnel)
on_child local w (some child) =
    on_waited local child w.signals (wait_for_socket (w.start + socket_deadline) w.polls)

abbrev pub on_directory :
    FilePath → Destination → Bytes → ConnectOpts → Meets → Result IoError (Unit {0}) → Tunnel
on_directory local dest remote_sock opts w (ok _) =
    before
      (remove_socket
        ∷ spawn_ssh (tunnel_command dest (display local) remote_sock opts.ssh_options)
        ∷ [])
      (on_child local w w.child)
on_directory local dest remote_sock opts w (err e) = ([], error_with (no_directory e))

abbrev pub on_remote :
    FilePath → Destination → ConnectOpts → Meets → Result ConnectError Bytes → Tunnel
on_remote local dest opts w (ok remote_sock) =
    before (create_parent ∷ []) (on_directory local dest remote_sock opts w w.directory)
on_remote local dest opts w (err e) = ([], error_with e)

abbrev pub on_destination :
    FilePath → ConnectOpts → Meets → Result DestinationError Destination → Tunnel
on_destination local opts w (ok dest) =
    before (ssh (remote_exec_args dest (remote_cmd opts.no_daemon_start) opts.ssh_options) ∷ [])
      (on_remote local dest opts w (ensure_remote_ready w.remote))
on_destination local opts w (err e) = ([], error_with (bad_destination e))

-- Whether the process handles the signals by then.
unfoldable pub handles : List TunnelEffect → Bool
handles [] = false
handles (set_handlers ∷ effects) = true
handles (_ ∷ effects) = handles effects

unfoldable pub first : ℕ → List TunnelEffect → List TunnelEffect
first zero effects = []
first (suc n) [] = []
first (suc n) (e ∷ effects) = e ∷ first n effects

-- SIGINT or SIGTERM behind so many effects, or behind all of them if there are fewer. A process that does
-- not handle it yet is ended at once, and no `drop` runs; one that handles it ends its wait, which is
-- what `on_waited` has.
abbrev pub signalled : Option ℕ → Tunnel → Tunnel
signalled none t = t
signalled (some n) (effects, end) =
    if handles (first n effects) then (effects, end) else (first n effects, killed)

unfoldable pub run_tunnel : Process → ConnectOpts → Meets → Tunnel
unfolding display wait_for_socket drop_guard ensure_remote_ready handles first
run_tunnel me opts w =
    signalled w.killed_after
      (on_destination (local_socket_path me w.pid) opts w (parse_destination opts.destination))
