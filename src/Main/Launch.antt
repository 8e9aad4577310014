-- ===== src/Main/Launch.antt =====
-- `gritty daemon` of src/main.rs: `daemonize`, and the two processes that come of it.
pub mod Served
use ttyleport.Prelude.{
  ℕ, zero, suc, ◌+◌, ◌-◌, ◌*◌, ◌/◌, ◌%◌, ◌^◌, ◌≤◌, ◌<◌, ◌≡◌, refl, sym, ap, ap₂, subst, ◌∙◌, ◌≢◌,
  ◌↔◌, ◌⊎◌, inl, inr, Bool, true, false, not, ◌&&◌, ◌||◌, Option, none, some, List, [], ◌∷◌, ◌++◌,
  map, append-nil, append_assoc, arith, ltb, leb, ◌==◌, if◌then◌else◌, ==_iff, Bool-cases,
  Option-cases, Bytes, bytes_eq, bytes_eq_iff, is_empty, codes, length, take, drop, length-append,
  All, All-append, Lacks, Result, ok, err, ℤ, pos, negsuc,
}
use ttyleport.Files.{FilePath, IoError, FileSystem}
use ttyleport.Security.Dirs.{Process}
use ttyleport.Daemon.Startup.{Startup, start_daemon}
use ttyleport.Main.{parent_status}

-- Which calls succeed: those of `daemonize` before and behind the fork, the runtime, and the byte's way
-- through the pipe.
pub record LaunchCalls : Type 0 where
  pub pipe : Bool
  pub fork : Bool
  pub setsid : Bool
  pub open_devnull : Bool
  pub dup2_stdin : Bool
  pub dup2_stdout : Bool
  pub dup2_stderr : Bool
  pub close_devnull : Bool
  pub runtime : Bool
  pub write_byte : Bool
  pub read_byte : Bool

-- The child in `daemonize`. `devnull` is the descriptor of `/dev/null`.
abbrev pub detaches : LaunchCalls → ℕ → Bool
detaches c devnull =
    c.setsid
    && c.open_devnull
    && c.dup2_stdin
    && c.dup2_stdout
    && c.dup2_stderr
    && (if ltb 2 devnull then c.close_devnull else true)

-- The exit status of the command that the user gave, and what the start of the daemon came to, in
-- whichever process it ran; no status while the daemon runs in the foreground.
pub record Launch (F : FileSystem) : Type 0 where
  pub status : Option ℤ
  pub startup : Option (Startup F)

module _ (F : FileSystem) where
  abbrev pub foreground_status : Result IoError (Unit {0}) → Option ℤ
  foreground_status (ok _) = none
  foreground_status (err e) = some (pos 1)

  abbrev pub in_foreground : LaunchCalls → Startup F → Launch F
  in_foreground c st =
      if c.runtime
      then record { status = foreground_status st.outcome; startup = some st }
      else record { status = some (pos 1); startup = none }

  -- The parent waits for the byte; the pipe ends without one if the child dies before.
  abbrev pub in_background : LaunchCalls → ℕ → Startup F → Launch F
  in_background c devnull st =
      if c.pipe && c.fork
      then (if detaches c devnull && c.runtime
          then record {
            status = some (parent_status (st.ready && (c.write_byte && c.read_byte)));
            startup = some st;
          }
          else record { status = some (parent_status false); startup = none })
      else record { status = some (pos 1); startup = none }

  unfoldable pub launch_daemon :
      Process
      → Bool
      → LaunchCalls
      → (devnull : ℕ) → FilePath
      → (pid : ℕ) → Result IoError (Unit {0})
      → F.State
      → Launch F
  unfolding parent_status
  launch_daemon me foreground c devnull ctl_path pid signals s =
      if foreground
      then in_foreground c (start_daemon F me ctl_path pid signals s)
      else in_background c devnull (start_daemon F me ctl_path pid signals s)
