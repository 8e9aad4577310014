-- ===== src/Security/Dirs/Secured.antt =====
-- What a successful `secure_create_dir_all` of src/security.rs leaves, over any lawful file system.
use ttyleport.Prelude.{
  ℕ, ◌≡◌, refl, ap, subst, ◌∙◌, ◌⊎◌, inl, inr, Bool, true, false, List, [], ◌∷◌, arith,
  if◌then◌else◌, Bool-cases, Bytes, Result, ok, err,
}
use ttyleport.Files.{
  FilePath, IoError, FileType, directory, regular, symlink, socket, Metadata, after_ok, pure,
  FileSystem, Done, Keeps, IsLawful,
}
use ttyleport.Security.Dirs.{
  Process, is_trusted_root, check_type, check_metadata, validate_dir, make_dir,
  secure_create_dir_all,
}

module _ (F : FileSystem) (me : Process) where
  -- A directory of this user at the path, and no symlink.
  abbrev pub OwnDir : F.State → FilePath → Type 0
  OwnDir t p =
      (mode : ℕ) × (F.symlink_metadata t p
        ≡ ok (record { file_type = directory; uid = me.uid; mode = mode }))

  -- The same with access for this user only.
  abbrev pub PrivateDir : F.State → FilePath → Type 0
  PrivateDir t p =
      F.symlink_metadata t p ≡ ok (record { file_type = directory; uid = me.uid; mode = 0o700 })

  -- The path was there and is a trusted root or a directory of this user, or it was not there, and
  -- is now a private directory, in a directory for which the same holds.
  abbrev pub Secured : F.State → F.State → Bool → List Bytes → Type 0
  Secured s t absolute [] =
      ((F.exists s (absolute, []) ≡ true)
        × ((is_trusted_root me (absolute, []) ≡ true) ⊎ OwnDir t (absolute, [])))
      ⊎ ((F.exists s (absolute, []) ≡ false) × PrivateDir t (absolute, []))
  Secured s t absolute (name ∷ names) =
      ((F.exists s (absolute, name ∷ names) ≡ true)
        × ((is_trusted_root me (absolute, name ∷ names) ≡ true)
            ⊎ OwnDir t (absolute, name ∷ names)))
      ⊎ ((F.exists s (absolute, name ∷ names) ≡ false)
          × PrivateDir t (absolute, name ∷ names)
          × Secured s t absolute names)

  check_type-OwnDir :
      (t : F.State) (p : FilePath) (m : Metadata) (type : FileType)
      → m.file_type ≡ type
      → F.symlink_metadata t p ≡ ok m
      → check_type me type m.uid ≡ ok tt
      → OwnDir t p
  check_type-OwnDir t p m directory at e h = (m.mode, e ∙ ground arith)
  check_type-OwnDir t p m regular at e h = cc h
  check_type-OwnDir t p m symlink at e h = cc h
  check_type-OwnDir t p m socket at e h = cc h

  check_metadata-OwnDir :
      (t : F.State) (p : FilePath) (r : Result IoError Metadata)
      → F.symlink_metadata t p ≡ r
      → check_metadata me r ≡ ok tt
      → OwnDir t p
  check_metadata-OwnDir t p (ok m) e h = check_type-OwnDir t p m m.file_type refl e h
  check_metadata-OwnDir t p (err x) e h = cc h

  validate_dir-OwnDir : (p : FilePath) (s t : F.State) → Done (validate_dir F me p) s t → OwnDir t p
  unfolding validate_dir
  validate_dir-OwnDir p s t h =
      subst (λ (u : F.State). OwnDir u p) (ap (λ (r : Result IoError Unit × F.State). r.1) h)
        (check_metadata-OwnDir s p (F.symlink_metadata s p) refl
          (ap (λ (r : Result IoError Unit × F.State). r.0) h))

  existing-OwnDir :
      (p : FilePath) (s t : F.State)
      → (if is_trusted_root me p then pure tt s else validate_dir F me p s) ≡ (ok tt, t)
      → (is_trusted_root me p ≡ true) ⊎ OwnDir t p
  existing-OwnDir p s t h = elim (Bool-cases (is_trusted_root me p)) [
    | inl trusted ↦ inl trusted
    | inr other ↦ inr (validate_dir-OwnDir p s t (rw other at h))
  ]

  module _ (lawful : IsLawful F me.uid) where
    make_dir-PrivateDir :
        (p : FilePath) (s t : F.State) → Done (make_dir F me p) s t → PrivateDir t p × Keeps F s t
    unfolding make_dir
    make_dir-PrivateDir p s t h =
        let (_, mid, made, set) = after_ok (F.create_dir p s) _ tt t h in
        let (mode, new) = lawful.create_dir-made p s mid made in
        let (mode_set, others) = lawful.set_permissions-set p 0o700 mid t _ set new (cc) in
        (
          mode_set,
          λ q m there.
              let (apart, still) = lawful.create_dir-KeepsApart p s mid made q m there in
              others q m apart still,
        )

    Secured-frame :
        (s t u : F.State) (absolute : Bool) (names : List Bytes)
        → Keeps F t u
        → Secured s t absolute names
        → Secured s u absolute names
    Secured-frame s t u absolute [] same (inl (here, inl trusted)) = inl (here, inl trusted)
    Secured-frame s t u absolute [] same (inl (here, inr (mode, own))) =
        inl (here, inr (mode, same (absolute, []) _ own))
    Secured-frame s t u absolute [] same (inr (gone, own)) = inr (gone, same (absolute, []) _ own)
    Secured-frame s t u absolute (name ∷ names) same (inl (here, inl trusted)) =
        inl (here, inl trusted)
    Secured-frame s t u absolute (name ∷ names) same (inl (here, inr (mode, own))) =
        inl (here, inr (mode, same (absolute, name ∷ names) _ own))
    Secured-frame s t u absolute (name ∷ names) same (inr (gone, own, above)) =
        inr
          (gone, same (absolute, name ∷ names) _ own, Secured-frame s t u absolute names same above)

    -- After a success, every directory on the path that was missing is now a private directory of
    -- this user, and the first one that was there is a trusted root or a directory of this user and no
    -- symlink.
    pub secure_create_dir_all-Secured :
        (absolute : Bool) (names : List Bytes) (s t : F.State)
        → secure_create_dir_all F me absolute names s ≡ (ok tt, t)
        → Secured s t absolute names
    unfolding secure_create_dir_all
    secure_create_dir_all-Secured absolute [] s t h =
        elim (Bool-cases (F.exists s (absolute, []))) [
          | inl here ↦ inl (here, existing-OwnDir (absolute, []) s t (rw here at h))
          | inr gone ↦ inr (gone, (make_dir-PrivateDir (absolute, []) s t (rw gone at h)).0)
        ]
    secure_create_dir_all-Secured absolute (name ∷ names) s t h =
        elim (Bool-cases (F.exists s (absolute, name ∷ names))) [
          | inl here ↦ inl (here, existing-OwnDir (absolute, name ∷ names) s t (rw here at h))
          | inr gone ↦
              let (_, mid, above, made) =
                after_ok (secure_create_dir_all F me absolute names s) _ tt t (rw gone at h) in
              let (own, others) = make_dir-PrivateDir (absolute, name ∷ names) mid t made in
              inr (
                gone,
                own,
                Secured-frame s mid t absolute names others
                    (secure_create_dir_all-Secured absolute names s mid above),
              )
        ]
