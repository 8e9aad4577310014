-- ===== src/System/Events.antt =====
-- What happens beside the daemon of src/daemon.rs keeps its table and its tasks, src/server.rs, in step.
use ttyleport.Prelude.{ℕ, ◌≡◌, refl, inl, inr, some, List, [], ◌∷◌, ◌++◌, Bool-cases}
use ttyleport.Daemon.{SessionState, Sessions}
use ttyleport.Daemon.Step.{
  TaskEvent, task_finished, channel_closed, apply_task, apply_tasks, update,
}
use ttyleport.Server.Task.{turn}
use ttyleport.System.{
  Slots, turn_at, Event, task_turn, notice, publish, is_over, when, run_event, run_events,
}
use ttyleport.System.Tended.{
  Tended, is_over-Ended, Tended-turn_at, Tended-update-Ended, Tended-update_same,
}

when_over-Tended :
    (t : Sessions) (n : ℕ) (f : Slots) (id : ℕ) (e : TaskEvent) (g : SessionState → SessionState)
    → apply_task e t ≡ update id g t
    → Tended t n f
    → Tended (apply_tasks (when (is_over (f id)) e) t) n f
unfolding apply_tasks
when_over-Tended t n f id e g same h = elim (Bool-cases (is_over (f id))) [
  | inl ended ↦ rw (ended, same) (Tended-update-Ended t n f h id g (is_over-Ended id f ended))
  | inr runs ↦ rw runs h
]

run_event-Tended :
    (t : Sessions) (n : ℕ) (f : Slots) (e : Event)
    → Tended t n f
    → Tended (apply_tasks (run_event e f).1 t) n (run_event e f).0
unfolding run_event apply_task apply_tasks
run_event-Tended t n f (task_turn id a input) h =
    when_over-Tended t n (turn_at id (turn a input) f) id (channel_closed id) _ refl
      (Tended-turn_at t n f h id (turn a input))
run_event-Tended t n f (notice id) h = when_over-Tended t n f id (task_finished id) _ refl h
run_event-Tended t n f (publish id meta) h =
    Tended-update_same t n f h id (λ s. record s { metadata = some meta }) (λ s. (refl, refl))

apply_tasks-append :
    (xs ys : List TaskEvent) (t : Sessions)
    → apply_tasks (xs ++ ys) t ≡ apply_tasks ys (apply_tasks xs t)
unfolding apply_tasks
apply_tasks-append [] ys t = refl
apply_tasks-append (x ∷ xs) ys t = apply_tasks-append xs ys (apply_task x t)

pub run_events-Tended :
    (t : Sessions) (n : ℕ) (f : Slots) (events : List Event)
    → Tended t n f
    → Tended (apply_tasks (run_events events f).1 t) n (run_events events f).0
unfolding run_events
run_events-Tended t n f [] h = unfold apply_tasks in h
run_events-Tended t n f (e ∷ events) h =
    let now = run_event e f in
    rw (apply_tasks-append now.1 (run_events events now.0).1 t)
      (run_events-Tended (apply_tasks now.1 t) n now.0 events (run_event-Tended t n f e h))
