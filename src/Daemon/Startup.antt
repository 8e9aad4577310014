-- ===== src/Daemon/Startup.antt =====
-- Where src/daemon.rs keeps its socket, and how `run` starts: the directory, the socket, the byte
-- that tells the parent process, the PID file and the signal handlers.
pub mod Ready
use ttyleport.Prelude.{
  ℕ, zero, suc, ◌+◌, ◌-◌, ◌*◌, ◌/◌, ◌%◌, ◌^◌, ◌≤◌, ◌<◌, ◌≡◌, refl, sym, ap, ap₂, subst, ◌∙◌, ◌≢◌,
  ◌↔◌, ◌⊎◌, inl, inr, Bool, true, false, not, ◌&&◌, ◌||◌, Option, none, some, List, [], ◌∷◌, ◌++◌,
  map, append-nil, append_assoc, arith, ltb, leb, ◌==◌, if◌then◌else◌, ==_iff, Bool-cases,
  Option-cases, Bytes, bytes_eq, bytes_eq_iff, is_empty, codes, length, take, drop, length-append,
  All, All-append, Lacks, Result, ok, err, ℤ, pos, negsuc,
}
use ttyleport.Text.Decimal.{to_string}
use ttyleport.Files.{
  FilePath, parent, join_name, with_file_name, IoError, Io, after, ◌>>=◌, ◌>>◌, pure, FileSystem,
}
use ttyleport.Security.Dirs.{Process, secure_create_dir_all}
use ttyleport.Security.Socket.{bind_unix_listener}

abbrev pub xdg_dir : Option FilePath → ℕ → FilePath
xdg_dir (some xdg) uid = join_name xdg (codes "gritty")
xdg_dir none uid = (true, (codes "gritty-" ++ to_string uid) ∷ codes "tmp" ∷ [])

unfoldable pub socket_dir : Process → FilePath
unfolding to_string
socket_dir me = xdg_dir me.xdg_runtime_dir me.uid

unfoldable pub control_socket_path : Process → FilePath
unfolding socket_dir
control_socket_path me = join_name (socket_dir me) (codes "ctl.sock")

unfoldable pub pid_file_path : FilePath → FilePath
pid_file_path ctl_path = with_file_name ctl_path (codes "daemon.pid")

-- What the start comes to: whether the parent was told that the daemon is ready, whether `run` goes
-- on to its loop or returns an error, and the files.
pub record Startup (F : FileSystem) : Type 0 where
  pub ready : Bool
  pub outcome : Result IoError (Unit {0})
  pub files : F.State

module _ (F : FileSystem) (me : Process) where
  abbrev pub create_parent : Option FilePath → Io F.State (Unit {0})
  create_parent (some (absolute, names)) = secure_create_dir_all F me absolute names
  create_parent none = pure tt

  unfoldable pub open_socket : FilePath → Io F.State (Unit {0})
  open_socket ctl_path = do create_parent (parent ctl_path); bind_unix_listener F ctl_path

  -- `signals` is the outcome of the two signal handlers.
  abbrev pub with_pid_file :
      Result IoError (Unit {0}) → Result IoError (Unit {0}) × F.State → Startup F
  with_pid_file signals (ok _, s) = record { ready = true; outcome = signals; files = s }
  with_pid_file signals (err e, s) = record { ready = true; outcome = err e; files = s }

  abbrev pub with_socket :
      FilePath → ℕ → Result IoError (Unit {0}) → Result IoError (Unit {0}) × F.State → Startup F
  with_socket ctl_path pid signals (ok _, s) =
      with_pid_file signals (F.write (pid_file_path ctl_path) (to_string pid) s)
  with_socket ctl_path pid signals (err e, s) = record { ready = false; outcome = err e; files = s }

  unfoldable pub start_daemon : FilePath → ℕ → Result IoError (Unit {0}) → F.State → Startup F
  start_daemon ctl_path pid signals s = with_socket ctl_path pid signals (open_socket ctl_path s)
