-- ===== src/Daemon/Listing.antt =====
-- The list that the daemon of src/daemon.rs answers `ListSessions` with.
use ttyleport.Prelude.{
  ℕ, ◌^◌, ◌≤◌, ◌<◌, List, [], ◌∷◌, map, Option, none, some, Bytes, leb, ◌≡◌, refl, arith,
  Bool-cases, inl, inr,
}
use mathlib.Core.List.{Perm}
use mathlib.Core.List.Perm
use ttyleport.Text.Decimal.{to_string}
use ttyleport.Text.Decimal.Laws.{parse-to_string}
use ttyleport.Protocol.{SessionEntry}
use ttyleport.Protocol.Decode.{u32_max}
use ttyleport.Daemon.{
  SessionMetadata, SessionState, Sessions, fill_entry, session_entry, entry_key, insert_by_key,
  sort_by_key, build_session_entries,
}

insert_by_key-perm :
    (e : SessionEntry) (es : List SessionEntry) → Perm (insert_by_key e es) (e ∷ es)
unfolding insert_by_key
insert_by_key-perm e [] = Perm.refl (e ∷ [])
insert_by_key-perm e (f ∷ es) = elim (Bool-cases (leb (entry_key e) (entry_key f))) [
  | inl le ↦ rw le (Perm.refl (e ∷ f ∷ es))
  | inr gt ↦ rw gt (Perm.trans (Perm.cons f (insert_by_key-perm e es)) (Perm.swap e f es))
]

sort_by_key-perm : (es : List SessionEntry) → Perm (sort_by_key es) es
unfolding sort_by_key
sort_by_key-perm [] = Perm.refl []
sort_by_key-perm (e ∷ es) =
    Perm.trans (insert_by_key-perm e (sort_by_key es)) (Perm.cons e (sort_by_key-perm es))

-- Every key is at most the next one.
abbrev pub IsSorted : List SessionEntry → Type 0
IsSorted [] = Unit
IsSorted (e ∷ []) = Unit
IsSorted (e ∷ f ∷ es) = (entry_key e ≤ entry_key f) × IsSorted (f ∷ es)

insert_by_key-IsSorted :
    (e : SessionEntry) (es : List SessionEntry) → IsSorted es → IsSorted (insert_by_key e es)
unfolding insert_by_key
insert_by_key-IsSorted e [] h = tt
insert_by_key-IsSorted e (f ∷ []) h = ground arith
insert_by_key-IsSorted e (f ∷ g ∷ es) (le, h) = ground (arith, insert_by_key-IsSorted e (g ∷ es) h)

sort_by_key-IsSorted : (es : List SessionEntry) → IsSorted (sort_by_key es)
unfolding sort_by_key
sort_by_key-IsSorted [] = tt
sort_by_key-IsSorted (e ∷ es) = insert_by_key-IsSorted e (sort_by_key es) (sort_by_key-IsSorted es)

fill_entry_id :
    (id : ℕ) (name : Option Bytes) (meta : Option SessionMetadata)
    → (fill_entry id name meta).id ≡ to_string id
fill_entry_id id name none = refl
fill_entry_id id name (some meta) = refl

-- The sort key of a session's entry is the session's id.
pub entry_key-session_entry :
    (id : ℕ) (s : SessionState) → id < 2 ^ 32 → entry_key (session_entry (id, s)) ≡ id
unfolding entry_key session_entry
entry_key-session_entry id s lt =
    rw (fill_entry_id id s.name s.metadata, parse-to_string u32_max id (omega arith) (omega arith))

-- The answer holds one entry for each session of the table, made from that session, and the entries
-- stand in the order of their keys, in whatever order the map is iterated; the key of a session's
-- entry is its id.
pub build_session_entries_lem :
    (t : Sessions)
    → Perm (build_session_entries t) (map session_entry t)
      × IsSorted (build_session_entries t)
      × ((id : ℕ) (s : SessionState) → id < 2 ^ 32 → entry_key (session_entry (id, s)) ≡ id)
unfolding build_session_entries
build_session_entries_lem t = (
  sort_by_key-perm (map session_entry t),
  sort_by_key-IsSorted (map session_entry t),
  entry_key-session_entry,
)
