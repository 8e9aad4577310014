-- ===== src/Files.antt =====
-- The file system as the program uses it: paths, what `symlink_metadata` tells, and the operations,
-- an interface over an unknown state. `IsLawful` is what the documentation of the operations says.
-- No other process changes the files during an operation.
pub mod Memory
use ttyleport.Prelude.{
  ℕ, zero, suc, ◌+◌, ◌-◌, ◌*◌, ◌/◌, ◌%◌, ◌^◌, ◌≤◌, ◌<◌, ◌≡◌, refl, sym, ap, ap₂, subst, ◌∙◌, ◌≢◌,
  ◌↔◌, ◌⊎◌, inl, inr, Bool, true, false, not, ◌&&◌, ◌||◌, Option, none, some, List, [], ◌∷◌, ◌++◌,
  map, append-nil, append_assoc, arith, ltb, leb, ◌==◌, if◌then◌else◌, ==_iff, Bool-cases,
  Option-cases, Bytes, bytes_eq, bytes_eq_iff, is_empty, codes, length, take, drop, length-append,
  All, All-append, Lacks, Result, ok, err, ℤ, pos, negsuc,
}

-- The parts of a path, the last one first, and whether a root stands in front. The path is written
-- with single separators and none at the end.
abbrev pub FilePath : Type 0
FilePath = Bool × List Bytes

-- `Path::parent`
abbrev pub parent : FilePath → Option FilePath
parent (absolute, []) = none
parent (absolute, name ∷ names) = some (absolute, names)

-- `Path::join` with one name.
abbrev pub join_name : FilePath → Bytes → FilePath
join_name (absolute, names) name = (absolute, name ∷ names)

-- `Path::with_file_name`
abbrev pub with_file_name : FilePath → Bytes → FilePath
with_file_name (absolute, []) name = (absolute, name ∷ [])
with_file_name (absolute, last ∷ names) name = (absolute, name ∷ names)

slashed : List Bytes → Bytes
slashed [] = []
slashed (name ∷ []) = name
slashed (name ∷ next ∷ names) = slashed (next ∷ names) ++ b'/' ∷ name

-- `Path::display`
unfoldable pub display : FilePath → Bytes
unfolding slashed
display (true, names) = b'/' ∷ slashed names
display (false, names) = slashed names

shows_path :
    display (true, codes "ctl.sock" ∷ codes "gritty-7" ∷ codes "tmp" ∷ [])
    ≡ codes "/tmp/gritty-7/ctl.sock"
unfolding display
shows_path = refl

names_eq : List Bytes → List Bytes → Bool
unfolding bytes_eq
names_eq [] [] = true
names_eq (x ∷ xs) (y ∷ ys) = bytes_eq x y && names_eq xs ys
names_eq _ _ = false

abbrev same_root : Bool → Bool → Bool
same_root true b = b
same_root false true = false
same_root false false = true

-- Two paths are equal, part by part.
unfoldable pub path_eq : FilePath → FilePath → Bool
unfolding names_eq
path_eq (a, xs) (b, ys) = same_root a b && names_eq xs ys

names_eq_iff : (xs ys : List Bytes) → (names_eq xs ys ≡ true) ↔ (xs ≡ ys)
unfolding names_eq
names_eq_iff (x ∷ xs) (y ∷ ys) = ground (arith, bytes_eq_iff x y, names_eq_iff xs ys)
names_eq_iff _ _ = ground arith

pub path_eq_iff : (p q : FilePath) → (path_eq p q ≡ true) ↔ (p ≡ q)
unfolding path_eq
path_eq_iff (true, xs) (true, ys) = ground (arith, names_eq_iff xs ys)
path_eq_iff (false, xs) (false, ys) = ground (arith, names_eq_iff xs ys)
path_eq_iff (true, xs) (false, ys) = ground arith
path_eq_iff (false, xs) (true, ys) = ground arith

pub data IoError : Type 0 where
  not_found already_exists addr_in_use permission_denied invalid_input other_error : IoError

pub data FileType : Type 0 where
  directory regular symlink socket : FileType

pub record Metadata : Type 0 where
  pub file_type : FileType
  pub uid : ℕ
  pub mode : ℕ

-- An operation on a state that may fail.
abbrev pub Io : Type 0 → Type 0 → Type 0
Io S A = S → Result IoError A × S

abbrev pub after : {S A B : Type 0} → Result IoError A × S → (A → Io S B) → Result IoError B × S
after (ok a, s) f = f a s
after (err e, s) f = (err e, s)

infixl 5 ◌>>=◌ ◌>>◌
abbrev pub ◌>>=◌ : {S A B : Type 0} → Io S A → (A → Io S B) → Io S B
◌>>=◌ m f s = after (m s) f

abbrev pub ◌>>◌ : {S B : Type 0} → Io S (Unit {0}) → Io S B → Io S B
m >> k = m >>= λ _. k

abbrev pub pure : {S A : Type 0} → A → Io S A
pure a s = (ok a, s)

abbrev pub throw : {S A : Type 0} → IoError → Io S A
throw e s = (err e, s)

-- A bind that succeeds has two steps that succeed.
pub after_ok :
    {S A B : Type 0} (r : Result IoError A × S) (f : A → Io S B) (b : B) (t : S)
    → after r f ≡ (ok b, t)
    → (a : A) × (s : S) × (r ≡ (ok a, s)) × (f a s ≡ (ok b, t))
after_ok (ok a, s) f b t e = (a, s, refl, e)
after_ok (err x, s) f b t e = cc e

-- `connects` is whether a stream can be connected to the path; `same_file`, whether the two paths lead
-- to one file, where a last part that is a symlink is the symlink.
pub record FileSystem : Type 1 where
  pub State : Type 0
  pub exists : State → FilePath → Bool
  pub symlink_metadata : State → FilePath → Result IoError Metadata
  pub same_file : State → FilePath → FilePath → Bool
  pub connects : State → FilePath → Bool
  pub create_dir : FilePath → Io State (Unit {0})
  pub set_permissions : FilePath → ℕ → Io State (Unit {0})
  pub bind : FilePath → Io State (Unit {0})
  pub remove_file : FilePath → Io State (Unit {0})
  pub write : FilePath → Bytes → Io State (Unit {0})

abbrev pub Done : {S : Type 0} → Io S (Unit {0}) → S → S → Type 0
Done op s t = op s ≡ (ok tt, t)

module _ (F : FileSystem) where
  -- What is known of the files of `s` holds in `t`.
  abbrev pub Keeps : F.State → F.State → Type 0
  Keeps s t =
      (q : FilePath) (m : Metadata) → F.symlink_metadata s q ≡ ok m → F.symlink_metadata t q ≡ ok m

  -- The same, and no path of `s` leads to the file at `p`, which is new.
  abbrev pub KeepsApart : FilePath → F.State → F.State → Type 0
  KeepsApart p s t =
      (q : FilePath) (m : Metadata)
      → F.symlink_metadata s q ≡ ok m
      → (F.same_file t q p ≡ false) × (F.symlink_metadata t q ≡ ok m)

  -- The same for the files other than the one at `p`.
  abbrev pub KeepsOthers : FilePath → F.State → F.State → Type 0
  KeepsOthers p s t =
      (q : FilePath) (m : Metadata)
      → F.same_file s q p ≡ false
      → F.symlink_metadata s q ≡ ok m
      → F.symlink_metadata t q ≡ ok m

  -- `uid` is the user of the process. `mkdir` and `bind` make a new file and change none. `chmod` goes
  -- through a symlink, so its law is about other files. `bind` refuses a path, short enough for the
  -- address of a socket, at which a file of any type stands. A `write` that goes to a file that is there
  -- changes its contents only.
  pub record IsLawful (uid : ℕ) : Type 0 where
    pub create_dir-made :
        (p : FilePath) (s t : F.State)
        → Done (F.create_dir p) s t
        → (mode : ℕ) × (F.symlink_metadata t p
            ≡ ok (record { file_type = directory; uid = uid; mode = mode }))
    pub create_dir-KeepsApart :
        (p : FilePath) (s t : F.State) → Done (F.create_dir p) s t → KeepsApart p s t
    pub set_permissions-set :
        (p : FilePath) (mode : ℕ) (s t : F.State) (m : Metadata)
        → Done (F.set_permissions p mode) s t
        → F.symlink_metadata s p ≡ ok m
        → m.file_type ≢ symlink
        → (F.symlink_metadata t p ≡ ok (record m { mode = mode })) × KeepsOthers p s t
    pub bind-bound :
        (p : FilePath) (s t : F.State)
        → Done (F.bind p) s t
        → (mode : ℕ) × (F.symlink_metadata t p
            ≡ ok (record { file_type = socket; uid = uid; mode = mode }))
    pub bind_in_use :
        (p : FilePath) (s : F.State) (m : Metadata)
        → length (display p) < 104
        → F.symlink_metadata s p ≡ ok m
        → F.bind p s ≡ (err addr_in_use, s)
    pub write-Keeps :
        (p : FilePath) (bytes : Bytes) (r : Result IoError (Unit {0})) (s t : F.State)
        → F.write p bytes s ≡ (r, t)
        → Keeps s t
