-- ===== src/System.antt =====
-- The daemon of src/daemon.rs together with the tasks that it spawns, `run` of src/server.rs: the
-- requests that reach the tasks, and the ends of tasks that reach the table.
pub mod Slots
pub mod Tended
pub mod Events
pub mod Rounds
pub mod Shutdown
pub mod Killed
use ttyleport.Prelude.{
  ℕ, zero, suc, ◌+◌, ◌-◌, ◌*◌, ◌/◌, ◌%◌, ◌^◌, ◌≤◌, ◌<◌, ◌≡◌, refl, sym, ap, ap₂, subst, ◌∙◌, ◌≢◌,
  ◌↔◌, ◌⊎◌, inl, inr, Bool, true, false, not, ◌&&◌, ◌||◌, Option, none, some, List, [], ◌∷◌, ◌++◌,
  map, append-nil, append_assoc, arith, ltb, leb, ◌==◌, if◌then◌else◌, ==_iff, Bool-cases,
  Option-cases, Bytes, bytes_eq, bytes_eq_iff, is_empty, codes, length, take, drop, length-append,
  All, All-append, Lacks, Result, ok, err, ℤ, pos, negsuc,
}
use ttyleport.Daemon.{SessionMetadata}
use ttyleport.Daemon.Step.{
  Daemon, initial, Effect, reply, hand_off, abort, remove_files, Next, again, Input, TaskEvent,
  task_finished, channel_closed, metadata_set, step,
}
use ttyleport.Server as Server
use ttyleport.Server.{Start}
use ttyleport.Server.Task.{
  Opening, opens, TaskInput, turn, aborted, TaskEffect, Task, alive, over, task_start, task_step,
  started,
}

-- A spawned task: where it stands, what it has done, and the shell that its start came to.
pub record Slot : Type 0 where
  pub task : Task
  pub did : List TaskEffect
  pub shell : Option ℕ

-- The tasks by the ids of their sessions; `none` where none was spawned.
abbrev pub Slots : Type 0
Slots = ℕ → Option Slot

abbrev pub turn_slot : TaskInput → Option Slot → Option Slot
turn_slot input none = none
turn_slot input (some sl) =
    let now = task_step sl.task input in some (record sl { task = now.0; did = sl.did ++ now.1 })

abbrev pub turn_at : ℕ → TaskInput → Slots → Slots
turn_at id input f j = if id == j then turn_slot input (f j) else f j

-- `tokio::spawn`, with the first client already in the channel.
abbrev pub spawned : Opening → Start → Slot
spawned o st = record {
  task = (task_start o st).0;
  did = (task_start o st).1;
  shell = if opens o then started st.client st.shell else none;
}

-- A connection that is handed to a task waits in its channel: it is a later turn of the task.
abbrev pub or_spawned : Opening → Start → Option Slot → Option Slot
or_spawned o st (some sl) = some sl
or_spawned o st none = some (spawned o st)

-- What an effect of the daemon does to the tasks. A task is aborted at its next await, which is its
-- next turn here.
abbrev pub apply_effect : Opening → Start → Effect → Slots → Slots
apply_effect o st (hand_off id) f j = if id == j then or_spawned o st (f j) else f j
apply_effect o st (abort id) f j = turn_at id aborted f j
apply_effect o st (reply frame) f j = f j
apply_effect o st remove_files f j = f j

unfoldable pub apply_effects : Opening → Start → List Effect → Slots → Slots
apply_effects o st [] f = f
apply_effects o st (e ∷ es) f = apply_effects o st es (apply_effect o st e f)

-- What happens beside the daemon: a task has a turn, the handle of a task that is over says so, or a
-- task has set its metadata.
pub data Event : Type 0 where
  task_turn : (id : ℕ) → Server.Answers → Server.Input → Event
  notice : (id : ℕ) → Event
  publish : (id : ℕ) → SessionMetadata → Event

abbrev pub has_ended : Task → Bool
has_ended over = true
has_ended (alive s pgid) = false

abbrev pub is_over : Option Slot → Bool
is_over none = false
is_over (some sl) = has_ended sl.task

-- The channel of a task that is over is closed.
abbrev pub when : Bool → TaskEvent → List TaskEvent
when b e = if b then e ∷ [] else []

unfoldable pub run_event : Event → Slots → Slots × List TaskEvent
run_event (task_turn id a input) f =
    let f' = turn_at id (turn a input) f in (f', when (is_over (f' id)) (channel_closed id))
run_event (notice id) f = (f, when (is_over (f id)) (task_finished id))
run_event (publish id meta) f = (f, metadata_set id meta ∷ [])

unfoldable pub run_events : List Event → Slots → Slots × List TaskEvent
run_events [] f = (f, [])
run_events (e ∷ events) f =
    let now = run_event e f in let later = run_events events now.0 in (later.0, now.1 ++ later.1)

pub record System : Type 0 where
  pub daemon : Daemon
  pub slots : Slots

abbrev pub booted : System
booted = record { daemon = initial; slots = λ id. none }

-- A round of the daemon, with what happens beside it while it waits; `o` and `st` are what a task
-- meets that is spawned in this round.
unfoldable pub system_round : ℕ → System → List Event → Opening → Start → Input → System × Next
unfolding run_events
system_round my_uid s events o st input =
    let ran = run_events events s.slots in
    let out = step my_uid s.daemon ran.1 input in
    (record { daemon = out.0; slots = apply_effects o st out.1 ran.0 }, out.2)

-- The systems that some rounds lead to, the number of rounds, and how the last one ended.
pub data Runs (my_uid : ℕ) : ℕ → System → Next → Type 0 where
  boot : Runs my_uid 0 booted again
  round :
      {n : ℕ} {s : System} (events : List Event) (o : Opening) (st : Start) (input : Input)
      → Runs my_uid n s again
      → Runs my_uid
          (suc n)
          (system_round my_uid s events o st input).0
          (system_round my_uid s events o st input).1
