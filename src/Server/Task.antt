-- ===== src/Server/Task.antt =====
-- The task of one session as a whole, src/server.rs: the PTY that `run` opens first, the shell as a
-- `ManagedChild`, and the abort by the daemon.
pub mod Hangup
use ttyleport.Prelude.{
  ℕ, zero, suc, ◌+◌, ◌-◌, ◌*◌, ◌/◌, ◌%◌, ◌^◌, ◌≤◌, ◌<◌, ◌≡◌, refl, sym, ap, ap₂, subst, ◌∙◌, ◌≢◌,
  ◌↔◌, ◌⊎◌, inl, inr, Bool, true, false, not, ◌&&◌, ◌||◌, Option, none, some, List, [], ◌∷◌, ◌++◌,
  map, append-nil, append_assoc, arith, ltb, leb, ◌==◌, if◌then◌else◌, ==_iff, Bool-cases,
  Option-cases, Bytes, bytes_eq, bytes_eq_iff, is_empty, codes, length, take, drop, length-append,
  All, All-append, Lacks, Result, ok, err, ℤ, pos, negsuc,
}
use mathlib.Core.Option.{get_or}
use ttyleport.Server.{
  Answers, Input, Effect, Session, relaying, waiting, ended, broken, step, Start, start,
}

-- Which calls succeed that open the PTY; `ttyname` is the name of the PTY, if it is found.
pub record Opening : Type 0 where
  pub openpty : Bool
  pub ttyname : Option Bytes
  pub dup_stdin : Bool
  pub dup_stdout : Bool
  pub dup_stderr : Bool
  pub get_flags : Bool
  pub set_flags : Bool
  pub async_fd : Bool

abbrev pub opens : Opening → Bool
opens o =
    o.openpty && o.dup_stdin && o.dup_stdout && o.dup_stderr && o.get_flags && o.set_flags
    && o.async_fd

-- A turn of the task, or `JoinHandle::abort`.
pub data TaskInput : Type 0 where
  turn : Answers → Input → TaskInput
  aborted : TaskInput

-- `hang_up` is the SIGHUP to the process group of the shell.
pub data TaskEffect : Type 0 where
  does : Effect → TaskEffect
  hang_up : (pgid : ℕ) → TaskEffect

-- The task runs and holds the `ManagedChild` of this process group, or it is over.
pub data Task : Type 0 where
  alive : Session → (pgid : ℕ) → Task
  over : Task

abbrev pub TaskRun : Type 0
TaskRun = Task × List TaskEffect

-- `ManagedChild::drop`, when `run` returns.
abbrev pub settle : ℕ → Session × List Effect → TaskRun
settle pgid (relaying r, effects) = (alive (relaying r) pgid, map does effects)
settle pgid (waiting m, effects) = (alive (waiting m) pgid, map does effects)
settle pgid (s, effects) = (over, map does effects ++ hang_up pgid ∷ [])

-- The shell that the start comes to, with its process group: `setsid` makes its pid that.
abbrev pub started : Option ℕ → Option ℕ → Option ℕ
started (some client) shell = shell
started none shell = none

abbrev pub begin : Option ℕ → Session × List Effect → TaskRun
begin (some pid) run = settle pid run
begin none (s, effects) = (over, map does effects)

abbrev pub with_name : Opening → Start → Start
with_name o st = record st { pty_path = get_or o.ttyname [] }

unfoldable pub task_start : Opening → Start → TaskRun
task_start o st =
    if opens o then begin (started st.client st.shell) (start (with_name o st)) else (over, [])

unfoldable pub task_step : Task → TaskInput → TaskRun
task_step over input = (over, [])
task_step (alive s pgid) aborted = (over, hang_up pgid ∷ [])
task_step (alive s pgid) (turn a input) = settle pgid (step a s input)

unfoldable pub task_steps : Task → List TaskInput → TaskRun
task_steps t [] = (t, [])
task_steps t (input ∷ inputs) =
    let now = task_step t input in
    let later = task_steps now.0 inputs in (later.0, now.1 ++ later.1)

unfoldable pub run_task : Opening → Start → List TaskInput → TaskRun
unfolding task_start task_steps
run_task o st inputs =
    let first = task_start o st in
    let later = task_steps first.0 inputs in (later.0, first.1 ++ later.1)
