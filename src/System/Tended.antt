-- ===== src/System/Tended.antt =====
-- What holds between the table of src/daemon.rs and the tasks of src/server.rs, and what keeps it.
use mathlib.Core.Option.{some-injective}
use ttyleport.Prelude.{
  ℕ, ◌+◌, ◌≤◌, ◌≡◌, refl, sym, subst, ◌∙◌, inl, inr, true, false, Option, none, some, arith, ◌==◌,
  if◌then◌else◌, ==_iff, Bool-cases, Bytes,
}
use ttyleport.Daemon.{SessionState, Sessions, reap_sessions, lookup, remove, insert}
use ttyleport.Daemon.Step.{update, fresh_session, is_closed}
use ttyleport.Daemon.Resolve.{lookup-remove, lookup-insert}
use ttyleport.Server.Task.{Opening, opens, TaskInput, aborted, task_start, task_step}
use ttyleport.Server.{Start}
use ttyleport.Server.Task.Hangup.{
  Accounts, shells, chain-Accounts, task_step-Accounts, task_start-Accounts,
}
use ttyleport.System.{Slot, Slots, turn_slot, turn_at, spawned, or_spawned, has_ended, is_over}
use ttyleport.System.Slots.{
  Live, Known, Live-reap_sessions, Known-reap_sessions, Known-update, Live-update_other,
  Live-update_same, turn_slot_back, turn_slot_forth, aborted-over,
}

-- The table `t`, the next id `n` and the tasks `f`: a task that is not over has its session in the table,
-- which does not say that it ended; each session of the table has a task; ids that are not used yet have
-- none; and the shell of each task is held or was hung up, once.
pub record Tended (t : Sessions) (n : ℕ) (f : Slots) : Type 0 where
  pub live : (j : ℕ) (sl : Slot) → f j ≡ some sl → has_ended sl.task ≡ false → Live j t
  pub known : (j : ℕ) → Known j t → (sl : Slot) × (f j ≡ some sl)
  pub fresh : (j : ℕ) → n ≤ j → f j ≡ none
  pub accounted : (j : ℕ) (sl : Slot) → f j ≡ some sl → Accounts (shells sl.shell) (sl.task, sl.did)

-- No task of this id runs.
abbrev pub Ended : ℕ → Slots → Type 0
Ended id f = (sl : Slot) → f id ≡ some sl → has_ended sl.task ≡ true

pub is_over-Ended : (id : ℕ) (f : Slots) → is_over (f id) ≡ true → Ended id f
is_over-Ended id f h sl e = rw e at h

turn_slot-Accounts :
    (input : TaskInput) (o : Option Slot) (sl : Slot)
    → turn_slot input o ≡ some sl
    → ((old : Slot) → o ≡ some old → Accounts (shells old.shell) (old.task, old.did))
    → Accounts (shells sl.shell) (sl.task, sl.did)
turn_slot-Accounts input none sl h all = cc h
turn_slot-Accounts input (some old) sl h all =
    subst (λ (x : Slot). Accounts (shells x.shell) (x.task, x.did)) (some-injective _ sl h)
      (chain-Accounts (shells old.shell) (old.task, old.did) (task_step old.task input)
        (all old refl) (task_step-Accounts old.task input))

spawned-Accounts :
    (o : Opening) (st : Start)
    → Accounts (shells (spawned o st).shell) ((spawned o st).task, (spawned o st).did)
spawned-Accounts o st = elim (Bool-cases (opens o)) [
  | inl opened ↦ let h = task_start-Accounts o st opened in rw opened h
  | inr shut ↦ rw shut (unfold task_start in rw shut refl)
]

module _ (t : Sessions) (n : ℕ) (f : Slots) (h : Tended t n f) where
  -- Another name for the same tasks.
  pub Tended-ext : (f' : Slots) → ((j : ℕ) → f' j ≡ f j) → Tended t n f'
  Tended-ext f' same = record {
    live = λ j sl e. h.live j sl (sym (same j) ∙ e);
    known = λ j k. let (sl, e) = h.known j k in (sl, same j ∙ e);
    fresh = λ j le. same j ∙ h.fresh j le;
    accounted = λ j sl e. h.accounted j sl (sym (same j) ∙ e);
  }

  pub Tended-reap_sessions : Tended (reap_sessions t) n f
  Tended-reap_sessions = record {
    live = λ j sl e runs. Live-reap_sessions j t (h.live j sl e runs);
    known = λ j k. h.known j (Known-reap_sessions j t k);
    fresh = h.fresh;
    accounted = h.accounted;
  }

  -- A task has a turn.
  turn_back :
      (id : ℕ) (input : TaskInput) (j : ℕ) (sl : Slot)
      → turn_at id input f j ≡ some sl
      → (old : Slot) × (f j ≡ some old) × (has_ended sl.task ≡ false → has_ended old.task ≡ false)
  turn_back id input j sl e = elim (Bool-cases (id == j)) [
    | inl hit ↦ turn_slot_back input (f j) sl (rw hit at e)
    | inr miss ↦ (sl, rw miss at e, λ runs. runs)
  ]

  pub Tended-turn_at : (id : ℕ) (input : TaskInput) → Tended t n (turn_at id input f)
  Tended-turn_at id input = record {
    live = λ j sl e runs.
        let (old, e', back) = turn_back id input j sl e in h.live j old e' (back runs);
    known = λ j k.
        let (old, e) = h.known j k in
        elim (Bool-cases (id == j)) [
          | inl hit ↦ rw hit (turn_slot_forth input (f j) old e)
          | inr miss ↦ rw miss (old, e)
        ];
    fresh = λ j le. let e = h.fresh j le in rw e (ground arith);
    accounted = λ j sl e. elim (Bool-cases (id == j)) [
      | inl hit ↦ turn_slot-Accounts input (f j) sl (rw hit at e) (h.accounted j)
      | inr miss ↦ h.accounted j sl (rw miss at e)
    ];
  }

  -- The state of a session whose task is over changes in any way.
  pub Tended-update-Ended :
      (id : ℕ) (g : SessionState → SessionState) → Ended id f → Tended (update id g t) n f
  Tended-update-Ended id g ended = record {
    live = λ j sl e runs. elim (Bool-cases (id == j)) [
      | inl hit ↦ let here : id ≡ j = (==_iff id j).0 hit in cc (ended sl (rw here e), runs)
      | inr miss ↦ Live-update_other id g j t miss (h.live j sl e runs)
    ];
    known = λ j k. h.known j (Known-update id g j t k);
    fresh = h.fresh;
    accounted = h.accounted;
  }

  -- The state of a session changes, but for what it says of the task's end.
  pub Tended-update_same :
      (id : ℕ) (g : SessionState → SessionState)
      → ((s : SessionState) → ((g s).finished ≡ s.finished) × ((g s).closed ≡ s.closed))
      → Tended (update id g t) n f
  Tended-update_same id g same = record {
    live = λ j sl e runs. Live-update_same id g j t same (h.live j sl e runs);
    known = λ j k. h.known j (Known-update id g j t k);
    fresh = h.fresh;
    accounted = h.accounted;
  }

  -- A session whose task is over is removed.
  pub Tended-remove : (id : ℕ) → Ended id f → Tended (remove id t) n f
  Tended-remove id ended = record {
    live = λ j sl e runs. elim (Bool-cases (id == j)) [
      | inl hit ↦ let here : id ≡ j = (==_iff id j).0 hit in cc (ended sl (rw here e), runs)
      | inr miss ↦
          let (s, l, flags, is_open) = h.live j sl e runs in
          (s, rw (lookup-remove id j t, miss) l, flags, is_open)
    ];
    known = λ j (s, l). elim (Bool-cases (id == j)) [
      | inl hit ↦ cc (rw (lookup-remove id j t, hit) at l)
      | inr miss ↦ h.known j (s, rw (lookup-remove id j t, miss) at l)
    ];
    fresh = h.fresh;
    accounted = h.accounted;
  }

  -- The channel of a session that is found closed, or not found, belongs to no task that runs.
  pub is_closed-Ended : (id : ℕ) → is_closed (lookup id t) ≡ true → Ended id f
  is_closed-Ended id shut sl e = elim (Bool-cases (has_ended sl.task)) [
    | inl ended ↦ ended
    | inr runs ↦ let (s, l, _, is_open) = h.live id sl e runs in cc (rw l at shut, is_open)
  ]

  pub aborted-Ended : (id : ℕ) → Ended id (turn_at id aborted f)
  aborted-Ended id sl e =
      let self : id == id ≡ true = (==_iff id id).1 refl in aborted-over (f id) sl (rw self at e)

  -- A session is created, and its task spawned.
  pub Tended-insert :
      (name : Option Bytes) (o : Opening) (st : Start)
      → Tended
          (insert n (fresh_session name) t)
          (n + 1)
          (λ j. if n == j then or_spawned o st (f j) else f j)
  Tended-insert name o st = record {
    live = λ j sl e runs. elim (Bool-cases (n == j)) [
      | inl hit ↦
          (fresh_session name, rw (lookup-insert n j (fresh_session name) t, hit) refl, refl, refl)
      | inr miss ↦
          let (s, l, flags, is_open) = h.live j sl (rw miss at e) runs in
          (s, rw (lookup-insert n j (fresh_session name) t, miss) l, flags, is_open)
    ];
    known = λ j (s, l). elim (Bool-cases (n == j)) [
      | inl hit ↦
          let free : f j ≡ none = h.fresh j (omega (arith, (==_iff n j).0 hit)) in
          rw (hit, free) (spawned o st, refl)
      | inr miss ↦ rw miss (h.known j (s, rw (lookup-insert n j (fresh_session name) t, miss) at l))
    ];
    fresh = λ j le. let miss : n == j ≡ false = ground arith in rw miss (h.fresh j (omega arith));
    accounted = λ j sl e. elim (Bool-cases (n == j)) [
      | inl hit ↦
          let free : f j ≡ none = h.fresh j (omega (arith, (==_iff n j).0 hit)) in
          subst (λ (x : Slot). Accounts (shells x.shell) (x.task, x.did))
            (some-injective (spawned o st) sl (rw (hit, free) at e)) (spawned-Accounts o st)
      | inr miss ↦ h.accounted j sl (rw miss at e)
    ];
  }
