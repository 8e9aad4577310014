-- ===== src/Security/Dirs.antt =====
-- `secure_create_dir_all` of src/security.rs with `validate_dir` and `is_trusted_root`.
pub mod Secured
use ttyleport.Prelude.{
  ℕ, zero, suc, ◌+◌, ◌-◌, ◌*◌, ◌/◌, ◌%◌, ◌^◌, ◌≤◌, ◌<◌, ◌≡◌, refl, sym, ap, ap₂, subst, ◌∙◌, ◌≢◌,
  ◌↔◌, ◌⊎◌, inl, inr, Bool, true, false, not, ◌&&◌, ◌||◌, Option, none, some, List, [], ◌∷◌, ◌++◌,
  map, append-nil, append_assoc, arith, ltb, leb, ◌==◌, if◌then◌else◌, ==_iff, Bool-cases,
  Option-cases, Bytes, bytes_eq, bytes_eq_iff, is_empty, codes, length, take, drop, length-append,
  All, All-append, Lacks, Result, ok, err, ℤ, pos, negsuc,
}
use ttyleport.Files.{
  FilePath, path_eq, IoError, permission_denied, invalid_input, FileType, directory, symlink,
  Metadata, Io, after, ◌>>=◌, ◌>>◌, pure, throw, FileSystem,
}

-- The user of the process, and `$XDG_RUNTIME_DIR` if it is set.
pub record Process : Type 0 where
  pub uid : ℕ
  pub xdg_runtime_dir : Option FilePath

abbrev pub is_xdg : Option FilePath → FilePath → Bool
is_xdg none path = false
is_xdg (some xdg) path = path_eq path xdg

unfoldable pub is_trusted_root : Process → FilePath → Bool
unfolding path_eq
is_trusted_root me path =
    path_eq path (true, [])
    || path_eq path (true, codes "tmp" ∷ [])
    || path_eq path (true, codes "run" ∷ [])
    || is_xdg me.xdg_runtime_dir path

-- What is known of the file: a directory, and no symlink, of this user.
abbrev pub check_owner : Process → ℕ → Result IoError (Unit {0})
check_owner me uid = if uid == me.uid then ok tt else err permission_denied

abbrev pub check_type : Process → FileType → ℕ → Result IoError (Unit {0})
check_type me directory uid = check_owner me uid
check_type me _ uid = err invalid_input

abbrev pub check_metadata : Process → Result IoError Metadata → Result IoError (Unit {0})
check_metadata me (ok m) = check_type me m.file_type m.uid
check_metadata me (err e) = err e

module _ (F : FileSystem) (me : Process) where
  unfoldable pub validate_dir : FilePath → Io F.State (Unit {0})
  validate_dir path s = (check_metadata me (F.symlink_metadata s path), s)

  unfoldable pub make_dir : FilePath → Io F.State (Unit {0})
  make_dir path = do F.create_dir path; F.set_permissions path 0o700

  -- The recursion is on the parts of the path.
  unfoldable pub secure_create_dir_all : Bool → List Bytes → Io F.State (Unit {0})
  secure_create_dir_all absolute [] s =
      if F.exists s (absolute, [])
      then (if is_trusted_root me (absolute, []) then pure tt s else validate_dir (absolute, []) s)
      else make_dir (absolute, []) s
  secure_create_dir_all absolute (name ∷ names) s =
      let made =
        after (secure_create_dir_all absolute names s) (λ _. make_dir (absolute, name ∷ names)) in
      if F.exists s (absolute, name ∷ names)
      then (if is_trusted_root me (absolute, name ∷ names)
          then pure tt s
          else validate_dir (absolute, name ∷ names) s)
      else made
