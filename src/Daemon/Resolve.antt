-- ===== src/Daemon/Resolve.antt =====
-- `resolve_session` of src/daemon.rs, and looking up in the table of sessions.
use ttyleport.Prelude.{
  ℕ, ◌^◌, ◌<◌, true, [], ◌∷◌, Option, none, some, Bytes, bytes_eq_iff, ◌==◌, if◌then◌else◌, ◌≡◌,
  ◌⊎◌, refl, ap, arith, Bool-cases, Option-cases, inl, inr,
}
use mathlib.Core.Option.{some-injective}
use ttyleport.Text.Decimal.{to_string, parse}
use ttyleport.Text.Decimal.Laws.{parse-to_string}
use ttyleport.Protocol.Decode.{u32_max}
use ttyleport.Daemon.{
  SessionState, Sessions, contains_key, lookup, remove, insert, is_named, find_by_name, find_by_id,
  resolve_session,
}
use ttyleport.Daemon.Table.{IsTable}

pub lookup-remove :
    (id j : ℕ) (t : Sessions) → lookup j (remove id t) ≡ (if id == j then none else lookup j t)
unfolding lookup remove
lookup-remove id j [] = ground arith
lookup-remove id j ((k, s) ∷ t) = ground (arith, lookup-remove id j t)

pub lookup-insert :
    (id j : ℕ) (s : SessionState) (t : Sessions)
    → lookup j (insert id s t) ≡ (if id == j then some s else lookup j t)
unfolding insert
lookup-insert id j s t = unfold lookup in ground (arith, lookup-remove id j t)

pub contains_key-lookup :
    (id : ℕ) (t : Sessions) → contains_key id t ≡ true → (s : SessionState) × (lookup id t ≡ some s)
unfolding contains_key lookup
contains_key-lookup id [] h = cc
contains_key-lookup id ((j, s) ∷ t) h = elim (Bool-cases (j == id)) [
  | inl e ↦ (s, rw e)
  | inr e ↦ rw e (contains_key-lookup id t (rw e at h))
]

lookup-contains_key :
    (id : ℕ) (t : Sessions) (s : SessionState) → lookup id t ≡ some s → contains_key id t ≡ true
unfolding contains_key lookup
lookup-contains_key id [] s h = cc
lookup-contains_key id ((j, u) ∷ t) s h = ground (arith, lookup-contains_key id t s)

is_named_iff : (o : Option Bytes) (n : Bytes) → is_named o n ≡ true → o ≡ some n
unfolding is_named
is_named_iff none n h = cc
is_named_iff (some m) n h = ap {B = Option Bytes} some ((bytes_eq_iff m n).0 h)

pub is_named_self : (n : Bytes) → is_named (some n) n ≡ true
unfolding is_named
is_named_self n = (bytes_eq_iff n n).1 refl

-- The one session with a name is the one found, wherever it stands.
pub find_by_name_unique :
    (bound id : ℕ) (t : Sessions) (s : SessionState) (n : Bytes)
    → IsTable bound t
    → lookup id t ≡ some s
    → s.name ≡ some n
    → find_by_name t n ≡ some id
unfolding find_by_name lookup
find_by_name_unique bound id [] s n h l e = cc
find_by_name_unique bound id ((j, u) ∷ t) s n (lt, new, named, h) l e =
    elim (Bool-cases (j == id)) [
      | inl same ↦
          let found : u ≡ s = some-injective u s (rw same at l) in
          let name : u.name ≡ some n = rw found e in rw (name, is_named_self n) (ground arith)
      | inr other ↦
          let later = find_by_name_unique bound id t s n h (rw other at l) e in
          elim (Bool-cases (is_named u.name n)) [
            | inl taken ↦
                let gone : find_by_name t n ≡ none = rw (is_named_iff u.name n taken) at named in
                cc (later, gone)
            | inr free ↦ rw free later
          ]
    ]

pub find_by_name_sound :
    (bound id : ℕ) (t : Sessions) (n : Bytes)
    → IsTable bound t
    → find_by_name t n ≡ some id
    → (s : SessionState) × (lookup id t ≡ some s) × (s.name ≡ some n)
unfolding find_by_name lookup
find_by_name_sound bound id [] n h e = cc
find_by_name_sound bound id ((j, u) ∷ t) n (lt, new, named, h) e =
    elim (Bool-cases (is_named u.name n)) [
      | inl here ↦
          let same : j ≡ id = some-injective j id (rw here at e) in
          (u, ground arith, is_named_iff u.name n here)
      | inr later ↦
          let (s, l, name) = find_by_name_sound bound id t n h (rw later at e) in
          (s, ground (arith, lookup-contains_key id t s), name)
    ]

find_by_id_sound :
    (t : Sessions) (o : Option ℕ) (id : ℕ)
    → find_by_id t o ≡ some id
    → (o ≡ some id) × (contains_key id t ≡ true)
unfolding find_by_id
find_by_id_sound t none id h = cc
find_by_id_sound t (some k) id h = ground arith

-- A session that has the given name is the one that is found, in whatever order the map is iterated
-- and also if the name reads as another session's id.
pub resolve_session_name :
    (bound id : ℕ) (t : Sessions) (s : SessionState) (target : Bytes)
    → IsTable bound t
    → lookup id t ≡ some s
    → s.name ≡ some target
    → resolve_session t target ≡ some id
unfolding resolve_session
resolve_session_name bound id t s target h l e = rw (find_by_name_unique bound id t s target h l e)

-- An id in decimal finds its session, unless some session has that text for a name.
pub resolve_session_id :
    (id : ℕ) (t : Sessions) (s : SessionState)
    → lookup id t ≡ some s
    → id < 2 ^ 32
    → find_by_name t (to_string id) ≡ none
    → resolve_session t (to_string id) ≡ some id
unfolding resolve_session find_by_id
resolve_session_id id t s l lt free =
    rw (free, parse-to_string u32_max id (omega arith) (omega arith), lookup-contains_key id t s l)

-- What is found is in the table, and the target is its name, or its id when no session has the
-- target for a name.
pub resolve_session_sound :
    (bound id : ℕ) (t : Sessions) (target : Bytes)
    → IsTable bound t
    → resolve_session t target ≡ some id
    → (s : SessionState) × (lookup id t ≡ some s)
      × ((s.name ≡ some target)
          ⊎ ((find_by_name t target ≡ none) × (parse u32_max target ≡ some id)))
unfolding resolve_session
resolve_session_sound bound id t target h e = elim (Option-cases (find_by_name t target)) [
  | inr (j, found) ↦
      let same : j ≡ id = some-injective j id (rw found at e) in
      let (s, l, name) = find_by_name_sound bound j t target h found in (s, rw (← same) l, inl name)
  | inl free ↦
      let (parsed, there) = find_by_id_sound t (parse u32_max target) id (rw free at e) in
      let (s, l) = contains_key-lookup id t there in (s, l, inr (free, parsed))
]
