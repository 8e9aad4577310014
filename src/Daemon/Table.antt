-- ===== src/Daemon/Table.antt =====
-- The table of sessions of src/daemon.rs: what a smaller table keeps, and when a table is sound.
use ttyleport.Prelude.{
  ℕ, ◌+◌, ◌≤◌, ◌<◌, Bool, false, List, [], ◌∷◌, Option, none, some, Bytes, ◌==◌, if◌then◌else◌, ◌≡◌,
  refl, arith, Bool-cases, inl, inr, ◌∙◌,
}
use ttyleport.Daemon.{SessionState, Sessions, retain, contains_key, remove, insert, find_by_name}
use ttyleport.Daemon.Step.{
  TaskEvent, update, apply_task, apply_tasks, task_finished, channel_closed, metadata_set,
}

-- `Sub t u`: `t` is `u` with some sessions left out.
pub data Sub : Sessions → Sessions → Type 0 where
  nil : Sub [] []
  keep : {t u : Sessions} (id : ℕ) (s : SessionState) → Sub t u → Sub ((id, s) ∷ t) ((id, s) ∷ u)
  skip : {t u : Sessions} (id : ℕ) (s : SessionState) → Sub t u → Sub t ((id, s) ∷ u)

pub retain-Sub : (p : SessionState → Bool) (t : Sessions) → Sub (retain p t) t
unfolding retain
retain-Sub p [] = nil
retain-Sub p ((id, s) ∷ t) = elim (Bool-cases (p s)) [
  | inl e ↦ rw e (keep id s (retain-Sub p t))
  | inr e ↦ rw e (skip id s (retain-Sub p t))
]

pub remove-Sub : (id : ℕ) (t : Sessions) → Sub (remove id t) t
unfolding remove
remove-Sub id [] = nil
remove-Sub id ((j, s) ∷ t) = elim (Bool-cases (j == id)) [
  | inl e ↦ rw e (skip j s (remove-Sub id t))
  | inr e ↦ rw e (keep j s (remove-Sub id t))
]

pub contains_key-Sub :
    {t u : Sessions} (id : ℕ) → Sub t u → contains_key id u ≡ false → contains_key id t ≡ false
unfolding contains_key
contains_key-Sub id nil h = h
contains_key-Sub id (keep j s sub) h = ground (arith, contains_key-Sub id sub)
contains_key-Sub id (skip j s sub) h = ground (arith, contains_key-Sub id sub)

pub find_by_name-Sub :
    {t u : Sessions} (name : Bytes)
    → Sub t u
    → find_by_name u name ≡ none
    → find_by_name t name ≡ none
unfolding find_by_name
find_by_name-Sub name nil h = h
find_by_name-Sub name (keep j s sub) h = ground (arith, find_by_name-Sub name sub)
find_by_name-Sub name (skip j s sub) h = ground (arith, find_by_name-Sub name sub)

-- No session of the table has the given name.
abbrev pub Unnamed : Sessions → Option Bytes → Type 0
Unnamed t none = Unit
Unnamed t (some name) = find_by_name t name ≡ none

Unnamed-Sub : {t u : Sessions} (o : Option Bytes) → Sub t u → Unnamed u o → Unnamed t o
Unnamed-Sub none sub h = tt
Unnamed-Sub (some name) sub h = find_by_name-Sub name sub h

-- A sound table: every id is below the bound, no id stands twice, and no name stands twice.
abbrev pub IsTable : ℕ → Sessions → Type 0
IsTable bound [] = Unit
IsTable bound ((id, s) ∷ t) =
    (id < bound) × (contains_key id t ≡ false) × Unnamed t s.name × IsTable bound t

pub IsTable-Sub : {t u : Sessions} (bound : ℕ) → Sub t u → IsTable bound u → IsTable bound t
IsTable-Sub bound nil h = tt
IsTable-Sub bound (keep id s sub) (lt, new, named, h) =
    (lt, contains_key-Sub id sub new, Unnamed-Sub s.name sub named, IsTable-Sub bound sub h)
IsTable-Sub bound (skip id s sub) (lt, new, named, h) = IsTable-Sub bound sub h

pub IsTable-le : (a b : ℕ) (t : Sessions) → a ≤ b → IsTable a t → IsTable b t
IsTable-le a b [] le h = tt
IsTable-le a b ((id, s) ∷ t) le (lt, new, named, h) =
    (omega arith, new, named, IsTable-le a b t le h)

pub contains_key-remove_self : (id : ℕ) (t : Sessions) → contains_key id (remove id t) ≡ false
unfolding contains_key remove
contains_key-remove_self id [] = refl
contains_key-remove_self id ((j, s) ∷ t) = ground (arith, contains_key-remove_self id t)

-- A new id under a name that is not taken.
pub IsTable-insert :
    (bound : ℕ) (s : SessionState) (t : Sessions)
    → IsTable bound t
    → Unnamed t s.name
    → IsTable (bound + 1) (insert bound s t)
unfolding insert
IsTable-insert bound s t h named = (
  omega arith,
  contains_key-remove_self bound t,
  Unnamed-Sub s.name (remove-Sub bound t) named,
  IsTable-le bound (bound + 1) _ (omega arith) (IsTable-Sub bound (remove-Sub bound t) h),
)

-- A task's step keeps every id and every name.
module _ (id : ℕ) (f : SessionState → SessionState)
    (same : (s : SessionState) → (f s).name ≡ s.name) where
  update-name : (j : ℕ) (s : SessionState) → (if j == id then f s else s).name ≡ s.name
  update-name j s = ground (arith, same s)

  contains_key-update : (j : ℕ) (t : Sessions) → contains_key j (update id f t) ≡ contains_key j t
  unfolding contains_key update
  contains_key-update j [] = refl
  contains_key-update j ((k, s) ∷ t) = rw (contains_key-update j t)

  find_by_name-update :
      (name : Bytes) (t : Sessions) → find_by_name (update id f t) name ≡ find_by_name t name
  unfolding find_by_name update
  find_by_name-update name [] = refl
  find_by_name-update name ((k, s) ∷ t) = rw (update-name k s, find_by_name-update name t)

  Unnamed-update : (o : Option Bytes) (t : Sessions) → Unnamed t o → Unnamed (update id f t) o
  Unnamed-update none t h = tt
  Unnamed-update (some name) t h = find_by_name-update name t ∙ h

  IsTable-update : (bound : ℕ) (t : Sessions) → IsTable bound t → IsTable bound (update id f t)
  unfolding update
  IsTable-update bound [] h = tt
  IsTable-update bound ((k, s) ∷ t) (lt, new, named, h) = (
    lt,
    contains_key-update k t ∙ new,
    rw (update-name k s) (Unnamed-update s.name t named),
    IsTable-update bound t h,
  )

pub find_by_name-apply_task :
    (e : TaskEvent) (name : Bytes) (t : Sessions)
    → find_by_name (apply_task e t) name ≡ find_by_name t name
unfolding apply_task
find_by_name-apply_task (task_finished id) name t = find_by_name-update id _ (λ s. refl) name t
find_by_name-apply_task (channel_closed id) name t = find_by_name-update id _ (λ s. refl) name t
find_by_name-apply_task (metadata_set id meta) name t = find_by_name-update id _ (λ s. refl) name t

IsTable-apply_task :
    (bound : ℕ) (e : TaskEvent) (t : Sessions) → IsTable bound t → IsTable bound (apply_task e t)
unfolding apply_task
IsTable-apply_task bound (task_finished id) t h = IsTable-update id _ (λ s. refl) bound t h
IsTable-apply_task bound (channel_closed id) t h = IsTable-update id _ (λ s. refl) bound t h
IsTable-apply_task bound (metadata_set id meta) t h = IsTable-update id _ (λ s. refl) bound t h

pub IsTable-apply_tasks :
    (bound : ℕ) (es : List TaskEvent) (t : Sessions)
    → IsTable bound t
    → IsTable bound (apply_tasks es t)
unfolding apply_tasks
IsTable-apply_tasks bound [] t h = h
IsTable-apply_tasks bound (e ∷ es) t h =
    IsTable-apply_tasks bound es (apply_task e t) (IsTable-apply_task bound e t h)
