-- ===== src/Daemon/Order/Sorted.antt =====
-- What src/daemon.rs makes of a whole table is the same for each order of iteration: the sorted list of
-- entries, and the set of tasks that are aborted.
use ttyleport.Prelude.{
  ℕ, ◌^◌, ◌≤◌, ◌<◌, ◌≡◌, refl, sym, ap, ap₂, ◌∙◌, ◌≢◌, inl, inr, true, false, some, List, [], ◌∷◌,
  map, arith, ◌==◌, ==_iff, Bool-cases,
}
use mathlib.Core.Option.{some-injective}
use mathlib.Core.List.{Perm}
use mathlib.Core.List.Perm
use ttyleport.Protocol.{SessionEntry}
use ttyleport.Daemon.{
  SessionState, Sessions, contains_key, lookup, remove, session_entry, entry_key, insert_by_key,
  sort_by_key, build_session_entries,
}
use ttyleport.Daemon.Step.{abort, remove_files, abort_all}
use ttyleport.Daemon.Table.{IsTable, IsTable-Sub, remove-Sub}
use ttyleport.Daemon.Resolve.{lookup-remove}
use ttyleport.Daemon.Listing.{entry_key-session_entry}
use ttyleport.Daemon.Order.{SameTable, absent-lookup}

insert_by_key_comm :
    (e f : SessionEntry) (es : List SessionEntry)
    → entry_key e ≢ entry_key f
    → insert_by_key e (insert_by_key f es) ≡ insert_by_key f (insert_by_key e es)
unfolding insert_by_key
insert_by_key_comm e f [] ne = ground arith
insert_by_key_comm e f (g ∷ es) ne = ground (arith, insert_by_key_comm e f es ne)

remove_absent : (id : ℕ) (t : Sessions) → contains_key id t ≡ false → remove id t ≡ t
unfolding contains_key remove
remove_absent id [] h = refl
remove_absent id ((j, s) ∷ t) h = ground (arith, remove_absent id t)

lookup-lt :
    (bound id : ℕ) (t : Sessions) (s : SessionState)
    → IsTable bound t
    → lookup id t ≡ some s
    → id < bound
unfolding lookup
lookup-lt bound id [] s h l = cc l
lookup-lt bound id ((j, v) ∷ t) s (lt, new, named, h) l = elim (Bool-cases (j == id)) [
  | inl e ↦ omega (arith, (==_iff j id).0 e)
  | inr e ↦ lookup-lt bound id t s h (rw e at l)
]

-- The list of the whole table is that of the rest with one session's entry put in.
sort_by_key-remove :
    (bound id : ℕ) (t : Sessions) (s : SessionState)
    → IsTable bound t
    → bound ≤ 2 ^ 32
    → lookup id t ≡ some s
    → sort_by_key (map session_entry t)
      ≡ insert_by_key (session_entry (id, s)) (sort_by_key (map session_entry (remove id t)))
unfolding sort_by_key lookup remove
sort_by_key-remove bound id [] s h room l = cc l
sort_by_key-remove bound id ((j, v) ∷ t) s (lt, new, named, h) room l =
    elim (Bool-cases (j == id)) [
      | inl e ↦
          let same : j ≡ id = (==_iff j id).0 e in
          let found : v ≡ s = some-injective v s (rw e at l) in
          let rest : remove id t ≡ t = remove_absent id t (rw same at new) in
          rw (e, rest)
            (ap₂ (λ i u. insert_by_key (session_entry (i, u)) (sort_by_key (map session_entry t)))
              same found)
      | inr e ↦
          let l' = rw e at l in
          let lt' = lookup-lt bound id t s h l' in
          let keys : entry_key (session_entry (j, v)) ≢ entry_key (session_entry (id, s)) =
            rw
              (
                entry_key-session_entry j v (omega arith),
                entry_key-session_entry id s (omega arith),
              )
              (ground arith) in
          rw (e, sort_by_key-remove bound id t s h room l')
            (insert_by_key_comm (session_entry (j, v)) (session_entry (id, s))
              (sort_by_key (map session_entry (remove id t))) keys)
    ]

-- The tasks that are aborted, without their order.
abort_all-remove :
    (id : ℕ) (t : Sessions) (s : SessionState)
    → lookup id t ≡ some s
    → (bound : ℕ) → IsTable bound t
    → Perm (abort_all t) (abort id ∷ abort_all (remove id t))
unfolding abort_all lookup remove
abort_all-remove id [] s l bound h = cc l
abort_all-remove id ((j, v) ∷ t) s l bound (lt, new, named, h) = elim (Bool-cases (j == id)) [
  | inl e ↦
      let same : j ≡ id = (==_iff j id).0 e in
      let rest : remove id t ≡ t = remove_absent id t (rw same at new) in
      rw (e, rest, same) (Perm.refl (abort id ∷ abort_all t))
  | inr e ↦ rw e (
      Perm.trans (Perm.cons (abort j) (abort_all-remove id t s (rw e at l) bound h))
        (Perm.swap (abort id) (abort j) (abort_all (remove id t))))
]

-- The rest of a table is the same as the other table without the session.
tail-SameTable :
    (id : ℕ) (s : SessionState) (t u : Sessions)
    → contains_key id t ≡ false
    → SameTable ((id, s) ∷ t) u
    → SameTable t (remove id u)
unfolding lookup
tail-SameTable id s t u new same j =
    rw (lookup-remove id j u, ← same j)
      (elim (Bool-cases (id == j)) [
        | inl e ↦ let here : id ≡ j = (==_iff id j).0 e in rw e (absent-lookup j t (rw here at new))
        | inr e ↦ rw e refl
      ])

empty-SameTable : (u : Sessions) → SameTable [] u → u ≡ []
unfolding lookup
empty-SameTable [] same = refl
empty-SameTable ((j, s) ∷ u) same =
    let self : j == j ≡ true = (==_iff j j).1 refl in cc (rw self at (same j))

first-SameTable :
    (id : ℕ) (s : SessionState) (t u : Sessions) → SameTable ((id, s) ∷ t) u → lookup id u ≡ some s
unfolding lookup
first-SameTable id s t u same =
    let self : id == id ≡ true = (==_iff id id).1 refl in sym (same id) ∙ rw self refl

-- The same list, in the same order.
pub build_session_entries-same :
    (bound : ℕ) (t u : Sessions)
    → IsTable bound t
    → IsTable bound u
    → bound ≤ 2 ^ 32
    → SameTable t u
    → build_session_entries t ≡ build_session_entries u
unfolding build_session_entries sort_by_key
build_session_entries-same bound [] u h h' room same = rw (empty-SameTable u same) refl
build_session_entries-same bound ((id, s) ∷ t) u (lt, new, named, h) h' room same =
    let rest =
      build_session_entries-same bound t (remove id u) h (IsTable-Sub bound (remove-Sub id u) h')
        room (tail-SameTable id s t u new same) in
    let whole = sort_by_key-remove bound id u s h' room (first-SameTable id s t u same) in
    rw whole (ap (insert_by_key (session_entry (id, s))) rest)

-- The same tasks are aborted, each as often.
pub abort_all-perm :
    (bound : ℕ) (t u : Sessions)
    → IsTable bound t
    → IsTable bound u
    → SameTable t u
    → Perm (abort_all t) (abort_all u)
unfolding abort_all
abort_all-perm bound [] u h h' same = rw (empty-SameTable u same) (Perm.refl (remove_files ∷ []))
abort_all-perm bound ((id, s) ∷ t) u (lt, new, named, h) h' same =
    let rest =
      abort_all-perm bound t (remove id u) h (IsTable-Sub bound (remove-Sub id u) h')
        (tail-SameTable id s t u new same) in
    Perm.trans (Perm.cons (abort id) rest)
      (Perm.symm (abort_all-remove id u s (first-SameTable id s t u same) bound h'))
