-- ===== src/Files/Memory.antt =====
-- A file system in memory, which meets the laws: for the tests, and to show that the laws can hold.
use ttyleport.Prelude.{
  ℕ, ◌≡◌, refl, sym, ap, ◌∙◌, inl, inr, Bool, true, false, Option, none, some, if◌then◌else◌,
  Bool-cases, Result, ok, err,
}
use ttyleport.Files.{
  FilePath, path_eq, path_eq_iff, IoError, not_found, already_exists, addr_in_use, FileType,
  directory, regular, socket, Metadata, FileSystem, Keeps, KeepsApart, KeepsOthers, IsLawful,
}

-- `live` is whether something listens on the socket.
pub record Node : Type 0 where
  pub metadata : Metadata
  pub live : Bool

abbrev pub Tree : Type 0
Tree = FilePath → Option Node

unfoldable pub update : Tree → FilePath → Option Node → Tree
unfolding path_eq
update t p entry q = if path_eq q p then entry else t q

update_self : (t : Tree) (p : FilePath) (entry : Option Node) → update t p entry p ≡ entry
unfolding update
update_self t p entry = let e : path_eq p p ≡ true = (path_eq_iff p p).1 refl in rw e refl

abbrev is_there : Option Node → Bool
is_there (some n) = true
is_there none = false

abbrev metadata_of : Option Node → Result IoError Metadata
metadata_of (some n) = ok n.metadata
metadata_of none = err not_found

abbrev is_live : Option Node → Bool
is_live (some n) = n.live
is_live none = false

abbrev absent_or : IoError → FilePath → Node → Tree → Option Node → Result IoError (Unit {0}) × Tree
absent_or e p entry t (some n) = (err e, t)
absent_or e p entry t none = (ok tt, update t p (some entry))

abbrev changed : FilePath → ℕ → Tree → Option Node → Result IoError (Unit {0}) × Tree
changed p mode t (some n) =
    (ok tt, update t p (some (record n { metadata = record n.metadata { mode = mode } })))
changed p mode t none = (err not_found, t)

abbrev removed : FilePath → Tree → Option Node → Result IoError (Unit {0}) × Tree
removed p t (some n) = (ok tt, update t p none)
removed p t none = (err not_found, t)

-- The bytes of a file are not kept.
abbrev written : FilePath → Node → Tree → Option Node → Result IoError (Unit {0}) × Tree
written p entry t (some n) = (ok tt, t)
written p entry t none = (ok tt, update t p (some entry))

abbrev node_of : FileType → ℕ → Bool → Node
node_of type uid live = record {
  metadata = record { file_type = type; uid = uid; mode = 0o755 };
  live = live;
}

abbrev pub memory_files : ℕ → FileSystem
memory_files uid = record {
  State = Tree;
  exists = λ t p. is_there (t p);
  symlink_metadata = λ t p. metadata_of (t p);
  same_file = λ t p q. path_eq p q;
  connects = λ t p. is_live (t p);
  create_dir = λ p t. absent_or already_exists p (node_of directory uid false) t (t p);
  set_permissions = λ p mode t. changed p mode t (t p);
  bind = λ p t. absent_or addr_in_use p (node_of socket uid true) t (t p);
  remove_file = λ p t. removed p t (t p);
  write = λ p bytes t. written p (node_of regular uid false) t (t p);
}

made_lem :
    (p : FilePath) (entry : Node) (s t : Tree)
    → update s p (some entry) ≡ t
    → metadata_of (t p) ≡ ok entry.metadata
made_lem p entry s t e = rw (← e, update_self) refl

other_lem :
    (p q : FilePath) (entry : Option Node) (s t : Tree)
    → update s p entry ≡ t
    → path_eq q p ≡ false
    → metadata_of (t q) ≡ metadata_of (s q)
unfolding update
other_lem p q entry s t e apart = rw (← e, apart) refl

-- What is there is not at a path that is free.
apart_lem :
    (p q : FilePath) (s : Tree) (m : Metadata)
    → s p ≡ none
    → metadata_of (s q) ≡ ok m
    → path_eq q p ≡ false
apart_lem p q s m free h = elim (Bool-cases (path_eq q p)) [
  | inl e ↦
      let same : q ≡ p = (path_eq_iff q p).0 e in
      let missing : metadata_of (s q) ≡ err not_found = rw (same, free) refl in cc (sym missing ∙ h)
  | inr e ↦ e
]

added_lem :
    (p : FilePath) (entry : Node) (s t : Tree)
    → s p ≡ none
    → update s p (some entry) ≡ t
    → KeepsApart (memory_files 0) p s t
added_lem p entry s t free e q m h =
    let apart = apart_lem p q s m free h in (apart, other_lem p q (some entry) s t e apart ∙ h)

absent_or_ok :
    (e : IoError) (p : FilePath) (entry : Node) (s t : Tree) (o : Option Node)
    → s p ≡ o
    → absent_or e p entry s o ≡ (ok tt, t)
    → (s p ≡ none) × (update s p (some entry) ≡ t)
absent_or_ok e p entry s t (some n) here h = cc h
absent_or_ok e p entry s t none free h =
    (free, ap (λ (r : Result IoError (Unit {0}) × Tree). r.1) h)

made :
    (e : IoError) (p : FilePath) (entry : Node) (s t : Tree)
    → absent_or e p entry s (s p) ≡ (ok tt, t)
    → (metadata_of (t p) ≡ ok entry.metadata) × KeepsApart (memory_files 0) p s t
made e p entry s t h =
    let (free, same) = absent_or_ok e p entry s t (s p) refl h in
    (made_lem p entry s t same, added_lem p entry s t free same)

in_use_lem :
    (p : FilePath) (entry : Node) (t : Tree) (m : Metadata) (o : Option Node)
    → metadata_of o ≡ ok m
    → absent_or addr_in_use p entry t o ≡ (err addr_in_use, t)
in_use_lem p entry t m (some n) h = refl
in_use_lem p entry t m none h = cc h

changed_lem :
    (p : FilePath) (mode : ℕ) (s t : Tree) (m : Metadata) (o : Option Node)
    → changed p mode s o ≡ (ok tt, t)
    → metadata_of o ≡ ok m
    → (metadata_of (t p) ≡ ok (record m { mode = mode })) × KeepsOthers (memory_files 0) p s t
changed_lem p mode s t m (some n) h e =
    let moved = ap (λ (r : Result IoError (Unit {0}) × Tree). r.1) h in
    let same : n.metadata ≡ m = (cc e) in
    (
      made_lem p _ s t moved ∙ ap (λ (k : Metadata). ok (record k { mode = mode })) same,
      λ q x apart there. other_lem p q _ s t moved apart ∙ there,
    )
changed_lem p mode s t m none h e = cc h

written_lem :
    (p : FilePath) (entry : Node) (r : Result IoError (Unit {0})) (s t : Tree) (o : Option Node)
    → s p ≡ o
    → written p entry s o ≡ (r, t)
    → Keeps (memory_files 0) s t
written_lem p entry r s t (some n) here h q m there =
    rw (← ap (λ (x : Result IoError (Unit {0}) × Tree). x.1) h) there
written_lem p entry r s t none free h q m there =
    (added_lem p entry s t free (ap (λ (x : Result IoError (Unit {0}) × Tree). x.1) h) q m there).1

pub memory_files-IsLawful : (uid : ℕ) → IsLawful (memory_files uid) uid
memory_files-IsLawful uid = record {
  create_dir-made = λ p s t h. (0o755, (made _ p _ s t h).0);
  create_dir-KeepsApart = λ p s t h. (made _ p _ s t h).1;
  set_permissions-set = λ p mode s t m h e type. changed_lem p mode s t m (s p) h e;
  bind-bound = λ p s t h. (0o755, (made _ p _ s t h).0);
  bind_in_use = λ p s m short h. in_use_lem p _ s m (s p) h;
  write-Keeps = λ p bytes r s t h. written_lem p _ r s t (s p) refl h;
}
