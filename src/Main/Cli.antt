-- ===== src/Main/Cli.antt =====
-- The command line of src/main.rs behind clap: `Cli`, `Command`, the dispatch of `run`, and `main`.
pub mod Status
use ttyleport.Prelude.{
  ℕ, zero, suc, ◌+◌, ◌-◌, ◌*◌, ◌/◌, ◌%◌, ◌^◌, ◌≤◌, ◌<◌, ◌≡◌, refl, sym, ap, ap₂, subst, ◌∙◌, ◌≢◌,
  ◌↔◌, ◌⊎◌, inl, inr, Bool, true, false, not, ◌&&◌, ◌||◌, Option, none, some, List, [], ◌∷◌, ◌++◌,
  map, append-nil, append_assoc, arith, ltb, leb, ◌==◌, if◌then◌else◌, ==_iff, Bool-cases,
  Option-cases, Bytes, bytes_eq, bytes_eq_iff, is_empty, codes, length, take, drop, length-append,
  All, All-append, Lacks, Result, ok, err, ℤ, pos, negsuc,
}
use ttyleport.Files.{FilePath, IoError, FileSystem, display}
use ttyleport.Security.Dirs.{Process}
use ttyleport.Daemon.Startup.{control_socket_path}
use ttyleport.Client.Relay.Screen.{printed_bytes}
use ttyleport.Client.Run.{Life, Stage, relayed, between}
use ttyleport.Connect.Tunnel.{
  ConnectOpts, Meets, TunnelEnd, Tunnel, TunnelEffect, print_path, exit_with, error_with,
  still_waiting, killed, run_tunnel,
}
use ttyleport.Main.{
  Serve, CommandError, Attached, collect_env_vars, new_session_command, attach_command,
  wait_for_daemon, kill_session_command, kill_server_command, command_status, ran_status,
}
use ttyleport.Main.Timestamp.{Tm}
use ttyleport.Main.Table.{list_sessions_command}
use ttyleport.Main.Launch.{LaunchCalls, Launch, launch_daemon}

pub data Command : Type 0 where
  daemon : (foreground : Bool) → Command
  new_session : (target : Option Bytes) (no_escape : Bool) → Command
  attach : (target : Bytes) (no_redraw no_escape : Bool) → Command
  list_sessions : Command
  kill_session : (target : Bytes) → Command
  kill_server : Command
  socket_path : Command
  connect : (destination : Bytes) (no_daemon_start : Bool) (ssh_options : List Bytes) → Command

pub record Cli : Type 0 where
  pub ctl_socket : Option FilePath
  pub verbose : Bool
  pub command : Command

-- `init_tracing`: the filter it sets, or `none` for the default one, by `RUST_LOG`.
unfoldable pub trace_filter : Bool → Option Bytes → Option Bytes
trace_filter true none = some (codes "gritty=debug")
trace_filter verbose rust_log = none

-- What a command meets: what listens at each path, the environment, the clock, the terminal's lives, the
-- tries to find a daemon, what `gritty connect` meets, and whether the runtime starts.
pub record Meeting : Type 0 where
  pub process : Process
  pub listening : FilePath → Serve
  pub var : Bytes → Option Bytes
  pub localtime : ℤ → Option Tm
  pub now : ℕ
  pub lives : List Life
  pub tries : List Bool
  pub tunnel : Meets
  pub runtime : Bool

abbrev pub ctl_path : Meeting → Option FilePath → FilePath
ctl_path w (some path) = path
ctl_path w none = control_socket_path w.process

-- The exit status, if the command ends, and what it writes to stdout. A write that fails counts whole.
abbrev pub Ending : Type 0
Ending = Option ℤ × Bytes

-- `println!`
unfoldable pub println : List Bytes → Bytes
println [] = []
println (line ∷ lines) = line ++ 10 ∷ println lines

abbrev pub printed : Result CommandError (List Bytes) → Ending
printed (ok lines) = (some (pos 0), println lines)
printed (err e) = (some (pos 1), [])

abbrev pub silent : Result CommandError Bytes → Ending
silent r = (command_status r, [])

-- What the client writes to stdout, on its connections and between them.
unfoldable pub client_output : List Stage → Bytes
client_output [] = []
client_output (relayed acts ∷ stages) = printed_bytes acts ++ client_output stages
client_output (between acts ∷ stages) = printed_bytes acts ++ client_output stages

abbrev pub attached_ending : Result CommandError Attached → Ending
attached_ending (ok (said, ran)) = (ran_status ran.1, client_output ran.0)
attached_ending (err e) = (some (pos 1), [])

abbrev pub after_waiting : ℕ × Bool → Result CommandError Attached → Ending
after_waiting (waits, true) r = attached_ending r
after_waiting (waits, false) r = (none, [])

abbrev pub tunnel_status : TunnelEnd → Option ℤ
tunnel_status (exit_with code) = some code
tunnel_status (error_with e) = some (pos 1)
tunnel_status still_waiting = none
tunnel_status killed = none

unfoldable pub printed_paths : List TunnelEffect → List Bytes
printed_paths [] = []
printed_paths (print_path path ∷ effects) = display path ∷ printed_paths effects
printed_paths (_ ∷ effects) = printed_paths effects

abbrev pub tunnel_ending : Tunnel → Ending
tunnel_ending (effects, end) = (tunnel_status end, println (printed_paths effects))

-- `run`, and `main` around it. `Daemon` does not come here.
unfoldable pub run_command : Meeting → FilePath → Command → Ending
run_command w path (daemon foreground) = (none, [])
run_command w path (new_session target no_escape) =
    attached_ending
      (new_session_command (w.listening path) target no_escape (collect_env_vars w.var) w.lives)
run_command w path (attach target no_redraw no_escape) =
    after_waiting (wait_for_daemon w.tries)
      (attach_command (w.listening path) target (not no_redraw) no_escape w.lives)
run_command w path list_sessions =
    printed (list_sessions_command (w.listening path) w.localtime w.now)
run_command w path (kill_session target) = silent (kill_session_command (w.listening path) target)
run_command w path kill_server = silent (kill_server_command (w.listening path))
run_command w path socket_path = (some (pos 0), println (display path ∷ []))
run_command w path (connect destination no_daemon_start ssh_options) =
    let opts : ConnectOpts = record {
      destination = destination;
      no_daemon_start = no_daemon_start;
      ssh_options = ssh_options;
    } in
    tunnel_ending (run_tunnel w.process opts w.tunnel)

-- What `gritty daemon` meets.
pub record LaunchMeeting (F : FileSystem) : Type 0 where
  pub calls : LaunchCalls
  pub devnull : ℕ
  pub pid : ℕ
  pub signals : Result IoError (Unit {0})
  pub files : F.State

abbrev pub run_other : Meeting → FilePath → Command → Ending
run_other w path command = if w.runtime then run_command w path command else (some (pos 1), [])

-- `main`.
unfoldable pub main_ending : (F : FileSystem) → LaunchMeeting F → Meeting → Cli → Ending
unfolding run_command
main_ending F l w cli = elim cli.command [
  | daemon foreground ↦ (
    (launch_daemon F w.process foreground l.calls l.devnull (ctl_path w cli.ctl_socket) l.pid
        l.signals l.files).status,
    [],
  )
  | other ↦ run_other w (ctl_path w cli.ctl_socket) other
]
