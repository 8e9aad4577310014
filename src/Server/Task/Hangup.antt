-- ===== src/Server/Task/Hangup.antt =====
-- That no shell outlives the task of src/server.rs without its hang-up.
use ttyleport.Prelude.{
  ℕ, ◌≡◌, refl, ap, true, Option, none, some, List, [], ◌∷◌, ◌++◌, map, append-nil, append_assoc,
}
use ttyleport.Server.{Effect, Session, relaying, waiting, ended, broken, step, Start, start}
use ttyleport.Server.Task.{
  Opening, opens, TaskInput, turn, aborted, TaskEffect, does, hang_up, Task, alive, over, TaskRun,
  settle, started, begin, with_name, task_start, task_step, task_steps, run_task,
}

-- The process groups that are hung up, in order.
abbrev pub hang_ups : List TaskEffect → List ℕ
hang_ups [] = []
hang_ups (hang_up pgid ∷ effects) = pgid ∷ hang_ups effects
hang_ups (does e ∷ effects) = hang_ups effects

-- The process groups that the task still holds.
abbrev pub held : Task → List ℕ
held (alive s pgid) = pgid ∷ []
held over = []

abbrev pub shells : Option ℕ → List ℕ
shells (some pid) = pid ∷ []
shells none = []

hang_ups-append : (xs ys : List TaskEffect) → hang_ups (xs ++ ys) ≡ hang_ups xs ++ hang_ups ys
hang_ups-append [] ys = refl
hang_ups-append (hang_up pgid ∷ xs) ys = ap {B = List ℕ} (λ r. pgid ∷ r) (hang_ups-append xs ys)
hang_ups-append (does e ∷ xs) ys = hang_ups-append xs ys

hang_ups-does : (es : List Effect) → hang_ups (map does es) ≡ []
hang_ups-does [] = refl
hang_ups-does (e ∷ es) = hang_ups-does es

-- Each of the given groups is hung up or still held, once.
abbrev pub Accounts : List ℕ → TaskRun → Type 0
Accounts groups (t, effects) = hang_ups effects ++ held t ≡ groups

dropped-Accounts :
    (pgid : ℕ) (es : List Effect) → Accounts (pgid ∷ []) (over, map does es ++ hang_up pgid ∷ [])
dropped-Accounts pgid es =
    rw (append-nil, hang_ups-append (map does es) (hang_up pgid ∷ []), hang_ups-does es) refl

settle-Accounts : (pgid : ℕ) (r : Session × List Effect) → Accounts (pgid ∷ []) (settle pgid r)
settle-Accounts pgid (relaying r, es) = rw (hang_ups-does es) refl
settle-Accounts pgid (waiting m, es) = rw (hang_ups-does es) refl
settle-Accounts pgid (ended, es) = dropped-Accounts pgid es
settle-Accounts pgid (broken, es) = dropped-Accounts pgid es

begin-Accounts :
    (shell : Option ℕ) (r : Session × List Effect) → Accounts (shells shell) (begin shell r)
begin-Accounts (some pid) r = settle-Accounts pid r
begin-Accounts none (s, es) = rw (append-nil, hang_ups-does es) refl

pub task_step-Accounts : (t : Task) (i : TaskInput) → Accounts (held t) (task_step t i)
unfolding task_step
task_step-Accounts over i = refl
task_step-Accounts (alive s pgid) aborted = refl
task_step-Accounts (alive s pgid) (turn a i) = settle-Accounts pgid (step a s i)

pub chain-Accounts :
    (groups : List ℕ) (now : TaskRun) (later : TaskRun)
    → Accounts groups now
    → Accounts (held now.0) later
    → Accounts groups (later.0, now.1 ++ later.1)
chain-Accounts groups now later h h' = rw (hang_ups-append now.1 later.1, append_assoc, h') h

task_steps-Accounts : (t : Task) (is : List TaskInput) → Accounts (held t) (task_steps t is)
unfolding task_steps
task_steps-Accounts t [] = refl
task_steps-Accounts t (i ∷ is) =
    let now = task_step t i in
    chain-Accounts (held t) now (task_steps now.0 is) (task_step-Accounts t i)
      (task_steps-Accounts now.0 is)

pub task_start-Accounts :
    (o : Opening) (st : Start)
    → opens o ≡ true
    → Accounts (shells (started st.client st.shell)) (task_start o st)
unfolding task_start
task_start-Accounts o st h =
    rw h (begin-Accounts (started st.client st.shell) (start (with_name o st)))

-- When the PTY can be opened and a first client comes, the shell that is started is, at each moment of
-- any run, either held by the task and not hung up, or hung up exactly once and no longer held:
-- however the task ends, by the end of the shell, by an error or by the abort of the daemon, the
-- process group of its shell gets one SIGHUP; if no shell was started, nothing is hung up.
pub run_task-Accounts :
    (o : Opening) (st : Start) (inputs : List TaskInput)
    → opens o ≡ true
    → Accounts (shells (started st.client st.shell)) (run_task o st inputs)
unfolding run_task
run_task-Accounts o st inputs h =
    chain-Accounts (shells (started st.client st.shell)) (task_start o st)
      (task_steps (task_start o st).0 inputs) (task_start-Accounts o st h)
      (task_steps-Accounts (task_start o st).0 inputs)
