-- ===== src/System/Slots.antt =====
-- What the operations on the table of src/daemon.rs do to the sessions that still run, and the turns of
-- tasks to the tasks.
use mathlib.Core.Option.{some-injective}
use ttyleport.Prelude.{
  ℕ, ◌≡◌, refl, sym, ap, ◌∙◌, ◌⊎◌, inl, inr, Bool, true, false, Option, none, some, [], ◌∷◌, arith,
  ◌==◌, Bool-cases,
}
use ttyleport.Daemon.{SessionState, Sessions, retain, reap_sessions, lookup}
use ttyleport.Daemon.Step.{update}
use ttyleport.Server.Task.{TaskInput, Task, alive, over, aborted, task_step}
use ttyleport.System.{Slot, turn_slot, has_ended}

-- The session is in the table, and its task has not ended.
abbrev pub Live : ℕ → Sessions → Type 0
Live j t = (s : SessionState) × (lookup j t ≡ some s) × (s.finished ≡ false) × (s.closed ≡ false)

-- The session is in the table.
abbrev pub Known : ℕ → Sessions → Type 0
Known j t = (s : SessionState) × (lookup j t ≡ some s)

lookup-retain :
    (keep : SessionState → Bool) (j : ℕ) (t : Sessions) (s : SessionState)
    → lookup j t ≡ some s
    → keep s ≡ true
    → lookup j (retain keep t) ≡ some s
unfolding lookup retain
lookup-retain keep j [] s h k = h
lookup-retain keep j ((i, u) ∷ t) s h k = elim (Bool-cases (i == j)) [
  | inl e ↦
      let same : u ≡ s = some-injective u s (rw e at h) in
      let kept : keep u ≡ true = rw same k in rw (kept, e) (ap some same)
  | inr e ↦
      let later = lookup-retain keep j t s (rw e at h) k in
      elim (Bool-cases (keep u)) [ inl kept ↦ rw (kept, e) later | inr gone ↦ rw gone later ]
]

Known-retain :
    (keep : SessionState → Bool) (j : ℕ) (t : Sessions) → Known j (retain keep t) → Known j t
unfolding lookup retain
Known-retain keep j [] h = h
Known-retain keep j ((i, u) ∷ t) h = elim (Bool-cases (i == j)) [
  | inl e ↦ (u, rw e refl)
  | inr e ↦ elim (Bool-cases (keep u)) [
    | inl kept ↦ let (s, l) = Known-retain keep j t (rw (kept, e) at h) in (s, rw e l)
    | inr gone ↦ let (s, l) = Known-retain keep j t (rw gone at h) in (s, rw e l)
  ]
]

pub Live-reap_sessions : (j : ℕ) (t : Sessions) → Live j t → Live j (reap_sessions t)
unfolding reap_sessions
Live-reap_sessions j t (s, l, runs, is_open) =
    (s, lookup-retain _ j t s l (rw runs refl), runs, is_open)

pub Known-reap_sessions : (j : ℕ) (t : Sessions) → Known j (reap_sessions t) → Known j t
unfolding reap_sessions
Known-reap_sessions j t h = Known-retain _ j t h

module _ (id : ℕ) (g : SessionState → SessionState) where
  lookup-update_other :
      (j : ℕ) (t : Sessions) → id == j ≡ false → lookup j (update id g t) ≡ lookup j t
  unfolding lookup update
  lookup-update_other j [] h = refl
  lookup-update_other j ((i, s) ∷ t) h = ground (arith, lookup-update_other j t h)

  lookup-update_any :
      (j : ℕ) (t : Sessions) (s : SessionState)
      → lookup j t ≡ some s
      → (lookup j (update id g t) ≡ some s) ⊎ (lookup j (update id g t) ≡ some (g s))
  unfolding lookup update
  lookup-update_any j [] s h = cc h
  lookup-update_any j ((i, u) ∷ t) s h = elim (Bool-cases (i == j)) [
    | inl e ↦
        let same : u ≡ s = some-injective u s (rw e at h) in
        elim (Bool-cases (i == id)) [
          | inl hit ↦ rw (e, hit) (inr (ap (λ v. some (g v)) same))
          | inr miss ↦ rw (e, miss) (inl (ap some same))
        ]
    | inr e ↦ rw e (lookup-update_any j t s (rw e at h))
  ]

  pub Known-update : (j : ℕ) (t : Sessions) → Known j (update id g t) → Known j t
  unfolding lookup update
  Known-update j [] h = h
  Known-update j ((i, u) ∷ t) h = elim (Bool-cases (i == j)) [
    | inl e ↦ (u, rw e refl)
    | inr e ↦ let (s, l) = Known-update j t (rw e at h) in (s, rw e l)
  ]

  pub Live-update_other :
      (j : ℕ) (t : Sessions) → id == j ≡ false → Live j t → Live j (update id g t)
  Live-update_other j t h (s, l, runs, is_open) = (s, lookup-update_other j t h ∙ l, runs, is_open)

  pub Live-update_same :
      (j : ℕ) (t : Sessions)
      → ((s : SessionState) → ((g s).finished ≡ s.finished) × ((g s).closed ≡ s.closed))
      → Live j t
      → Live j (update id g t)
  Live-update_same j t same (s, l, runs, is_open) = elim (lookup-update_any j t s l) [
    | inl kept ↦ (s, kept, runs, is_open)
    | inr changed ↦ (g s, changed, (same s).0 ∙ runs, (same s).1 ∙ is_open)
  ]

has_ended-task_step :
    (t : Task) (input : TaskInput) → has_ended t ≡ true → has_ended (task_step t input).0 ≡ true
unfolding task_step
has_ended-task_step over input h = refl
has_ended-task_step (alive s pgid) input h = cc h

-- A turn of a task: there was a task, and one that is over stays over.
pub turn_slot_back :
    (input : TaskInput) (o : Option Slot) (sl : Slot)
    → turn_slot input o ≡ some sl
    → (old : Slot) × (o ≡ some old) × (has_ended sl.task ≡ false → has_ended old.task ≡ false)
turn_slot_back input none sl h = cc h
turn_slot_back input (some old) sl h = (
  old,
  refl,
  λ runs. elim (Bool-cases (has_ended old.task)) [
    | inr still ↦ still
    | inl gone ↦
        let same = ap (λ (x : Slot). has_ended x.task) (some-injective _ sl h) in
        cc (has_ended-task_step old.task input gone, same, runs)
  ],
)

pub turn_slot_forth :
    (input : TaskInput) (o : Option Slot) (old : Slot)
    → o ≡ some old
    → (sl : Slot) × (turn_slot input o ≡ some sl)
turn_slot_forth input none old h = cc h
turn_slot_forth input (some sl) old h = (_, refl)

has_ended-aborted : (t : Task) → has_ended (task_step t aborted).0 ≡ true
unfolding task_step
has_ended-aborted over = refl
has_ended-aborted (alive s pgid) = refl

-- A task that is aborted is over.
pub aborted-over :
    (o : Option Slot) (sl : Slot) → turn_slot aborted o ≡ some sl → has_ended sl.task ≡ true
aborted-over none sl h = cc h
aborted-over (some old) sl h =
    sym (ap (λ (x : Slot). has_ended x.task) (some-injective _ sl h)) ∙ has_ended-aborted old.task
