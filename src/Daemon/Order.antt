-- ===== src/Daemon/Order.antt =====
-- Tables of src/daemon.rs that are the same map, in whatever order they are iterated: what is found in
-- them, and what they become, is the same.
pub mod Sorted
pub mod Requests
pub mod Runs
use mathlib.Core.Option.{some-injective}
use ttyleport.Prelude.{
  ℕ, zero, suc, ◌+◌, ◌-◌, ◌*◌, ◌/◌, ◌%◌, ◌^◌, ◌≤◌, ◌<◌, ◌≡◌, refl, sym, ap, ap₂, subst, ◌∙◌, ◌≢◌,
  ◌↔◌, ◌⊎◌, inl, inr, Bool, true, false, not, ◌&&◌, ◌||◌, Option, none, some, List, [], ◌∷◌, ◌++◌,
  map, append-nil, append_assoc, arith, ltb, leb, ◌==◌, if◌then◌else◌, ==_iff, Bool-cases,
  Option-cases, Bytes, bytes_eq, bytes_eq_iff, is_empty, codes, length, take, drop, length-append,
  All, All-append, Lacks, Result, ok, err, ℤ, pos, negsuc,
}
use ttyleport.Protocol.Decode.{u32_max}
use ttyleport.Text.Decimal.{parse}
use ttyleport.Daemon.{
  SessionState, Sessions, retain, reap_sessions, contains_key, lookup, remove, insert, find_by_name,
  find_by_id, resolve_session,
}
use ttyleport.Daemon.Step.{
  TaskEvent, task_finished, channel_closed, metadata_set, update, apply_task, apply_tasks,
}
use ttyleport.Daemon.Table.{IsTable, IsTable-apply_tasks}
use ttyleport.Daemon.Resolve.{lookup-remove, lookup-insert, find_by_name_unique, find_by_name_sound}

-- The same sessions under the same ids.
abbrev pub SameTable : Sessions → Sessions → Type 0
SameTable t u = (j : ℕ) → lookup j t ≡ lookup j u

abbrev has : Option SessionState → Bool
has (some s) = true
has none = false

pub contains_key-has : (j : ℕ) (t : Sessions) → contains_key j t ≡ has (lookup j t)
unfolding contains_key lookup
contains_key-has j [] = refl
contains_key-has j ((i, s) ∷ t) = elim (Bool-cases (i == j)) [
  | inl e ↦ rw e refl
  | inr e ↦ rw e (contains_key-has j t)
]

pub absent-lookup : (j : ℕ) (t : Sessions) → contains_key j t ≡ false → lookup j t ≡ none
absent-lookup j t h = elim (Option-cases (lookup j t)) [
  | inl e ↦ e
  | inr (s, e) ↦ let there = contains_key-has j t in cc (rw e at there, h)
]

abbrev pub running : Option SessionState → Option SessionState
running none = none
running (some s) = if s.finished then none else some s

-- In a sound table no other session shows behind one that is dropped.
pub lookup-reap_sessions :
    (bound j : ℕ) (t : Sessions)
    → IsTable bound t
    → lookup j (reap_sessions t) ≡ running (lookup j t)
unfolding lookup reap_sessions retain
lookup-reap_sessions bound j [] h = refl
lookup-reap_sessions bound j ((i, s) ∷ t) (lt, new, named, h) =
    let later = lookup-reap_sessions bound j t h in
    elim (Bool-cases (i == j)) [
      | inr e ↦ elim (Bool-cases s.finished) [
        | inl over ↦ rw (over, e) later
        | inr runs ↦ rw (runs, e) later
      ]
      | inl e ↦ elim (Bool-cases s.finished) [
        | inr runs ↦ rw (runs, e) refl
        | inl over ↦
            let same : i ≡ j = (==_iff i j).0 e in
            let gone : lookup j t ≡ none = absent-lookup j t (rw same at new) in
            rw (over, e) (rw gone at later)
      ]
    ]

abbrev changed : Bool → (SessionState → SessionState) → Option SessionState → Option SessionState
changed hit g none = none
changed hit g (some s) = some (if hit then g s else s)

lookup-update :
    (id : ℕ) (g : SessionState → SessionState) (j : ℕ) (t : Sessions)
    → lookup j (update id g t) ≡ changed (j == id) g (lookup j t)
unfolding lookup update
lookup-update id g j [] = refl
lookup-update id g j ((i, s) ∷ t) = elim (Bool-cases (i == j)) [
  | inl e ↦ let same : i ≡ j = (==_iff i j).0 e in rw (e, same) refl
  | inr e ↦ rw e (lookup-update id g j t)
]

module _ (t u : Sessions) (same : SameTable t u) where
  contains_key-same : (j : ℕ) → contains_key j t ≡ contains_key j u
  contains_key-same j = rw (contains_key-has j t, contains_key-has j u, same j) refl

  pub find_by_id-same : (o : Option ℕ) → find_by_id t o ≡ find_by_id u o
  unfolding find_by_id
  find_by_id-same none = refl
  find_by_id-same (some id) = rw (contains_key-same id) refl

  pub SameTable-remove : (id : ℕ) → SameTable (remove id t) (remove id u)
  SameTable-remove id j = rw (lookup-remove id j t, lookup-remove id j u, same j) refl

  pub SameTable-insert : (id : ℕ) (s : SessionState) → SameTable (insert id s t) (insert id s u)
  SameTable-insert id s j = rw (lookup-insert id j s t, lookup-insert id j s u, same j) refl

  SameTable-update :
      (id : ℕ) (g : SessionState → SessionState) → SameTable (update id g t) (update id g u)
  SameTable-update id g j = rw (lookup-update id g j t, lookup-update id g j u, same j) refl

  pub SameTable-apply_task : (e : TaskEvent) → SameTable (apply_task e t) (apply_task e u)
  unfolding apply_task
  SameTable-apply_task (task_finished id) = SameTable-update id _
  SameTable-apply_task (channel_closed id) = SameTable-update id _
  SameTable-apply_task (metadata_set id meta) = SameTable-update id _

  pub SameTable-reap_sessions :
      (bound : ℕ)
      → IsTable bound t
      → IsTable bound u
      → SameTable (reap_sessions t) (reap_sessions u)
  SameTable-reap_sessions bound h h' j =
      rw (lookup-reap_sessions bound j t h, lookup-reap_sessions bound j u h', same j) refl

  found-same :
      (bound id : ℕ) (name : Bytes)
      → IsTable bound t
      → IsTable bound u
      → find_by_name t name ≡ some id
      → find_by_name u name ≡ some id
  found-same bound id name h h' e =
      let (s, l, named) = find_by_name_sound bound id t name h e in
      find_by_name_unique bound id u s name h' (sym (same id) ∙ l) named

pub SameTable-apply_tasks :
    (es : List TaskEvent) (t u : Sessions)
    → SameTable t u
    → SameTable (apply_tasks es t) (apply_tasks es u)
unfolding apply_tasks
SameTable-apply_tasks [] t u same = same
SameTable-apply_tasks (e ∷ es) t u same =
    SameTable-apply_tasks es (apply_task e t) (apply_task e u) (SameTable-apply_task t u same e)

module _ (bound : ℕ) (t u : Sessions) (h : IsTable bound t) (h' : IsTable bound u)
    (same : SameTable t u) where
  pub find_by_name-same : (name : Bytes) → find_by_name t name ≡ find_by_name u name
  find_by_name-same name = elim (Option-cases (find_by_name t name)) [
    | inr (id, e) ↦ e ∙ sym (found-same t u same bound id name h h' e)
    | inl e ↦ elim (Option-cases (find_by_name u name)) [
      | inl e' ↦ e ∙ sym e'
      | inr (id, e') ↦ cc (found-same u t (λ j. sym (same j)) bound id name h' h e')
    ]
  ]

  pub resolve_session-same : (target : Bytes) → resolve_session t target ≡ resolve_session u target
  unfolding resolve_session
  resolve_session-same target =
      rw (find_by_name-same target) (elim (Option-cases (find_by_name u target)) [
        | inr (id, e) ↦ rw e refl
        | inl e ↦ rw e (find_by_id-same t u same (parse u32_max target))
      ])
