-- ===== src/Security/Socket/Bound.antt =====
-- What `bind_unix_listener` of src/security.rs leaves, over any lawful file system.
use ttyleport.Prelude.{
  ℕ, ◌<◌, ◌≡◌, refl, inl, inr, if◌then◌else◌, Bool-cases, length, Result, ok, err,
}
use ttyleport.Files.{
  FilePath, display, IoError, not_found, addr_in_use, socket, Metadata, after_ok, FileSystem, Done,
  IsLawful,
}
use ttyleport.Security.Socket.{
  set_socket_permissions, listen, replace_stale, on_bind, bind_unix_listener,
}

module _ (F : FileSystem) (uid : ℕ) (lawful : IsLawful F uid) where
  -- A socket of this user, with access for this user only.
  abbrev pub PrivateSocket : F.State → FilePath → Type 0
  PrivateSocket t p =
      F.symlink_metadata t p ≡ ok (record { file_type = socket; uid = uid; mode = 0o600 })

  listen-PrivateSocket : (p : FilePath) (s t : F.State) → Done (listen F p) s t → PrivateSocket t p
  unfolding listen set_socket_permissions
  listen-PrivateSocket p s t h =
      let (_, mid, bound, set) = after_ok (F.bind p s) _ tt t h in
      let (mode, new) = lawful.bind-bound p s mid bound in
      (lawful.set_permissions-set p 0o600 mid t _ set new (cc)).0

  replace_stale-PrivateSocket :
      (p : FilePath) (s t : F.State) → Done (replace_stale F p) s t → PrivateSocket t p
  unfolding replace_stale
  replace_stale-PrivateSocket p s t h =
      let (_, mid, removed, rest) = after_ok (F.remove_file p s) _ tt t h in
      listen-PrivateSocket p mid t rest

  on_bind-PrivateSocket :
      (p : FilePath) (s t : F.State) (r : Result IoError (Unit {0}) × F.State)
      → F.bind p s ≡ r
      → on_bind F p r ≡ (ok tt, t)
      → PrivateSocket t p
  unfolding listen
  on_bind-PrivateSocket p s t (ok u, mid) bound h = listen-PrivateSocket p s t (rw bound h)
  on_bind-PrivateSocket p s t (err addr_in_use, mid) bound h =
      elim (Bool-cases (F.connects mid p)) [
        | inl live ↦ cc (rw live at h)
        | inr stale ↦ replace_stale-PrivateSocket p mid t (rw stale at h)
      ]
  on_bind-PrivateSocket p s t (err not_found, mid) bound h = cc h
  on_bind-PrivateSocket p s t (err _, mid) bound h = cc h

  -- A listener that is bound has a socket of this user at its path, which no other user can use.
  pub bind_unix_listener-PrivateSocket :
      (p : FilePath) (s t : F.State) → bind_unix_listener F p s ≡ (ok tt, t) → PrivateSocket t p
  unfolding bind_unix_listener
  bind_unix_listener-PrivateSocket p s t h = on_bind-PrivateSocket p s t (F.bind p s) refl h

  -- At a path where a file of any type stands, and that is short enough for a socket: if something
  -- listens there, the error says so and nothing is changed; else the file is removed, a regular file
  -- or a symlink too, before anything has looked at its type, and a new socket is bound.
  pub bind_unix_listener_in_use :
      (p : FilePath) (s : F.State) (m : Metadata)
      → length (display p) < 104
      → F.symlink_metadata s p ≡ ok m
      → bind_unix_listener F p s
        ≡ (if F.connects s p then (err addr_in_use, s) else replace_stale F p s)
  unfolding bind_unix_listener
  bind_unix_listener_in_use p s m short here = rw (lawful.bind_in_use p s m short here) refl
