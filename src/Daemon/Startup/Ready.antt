-- ===== src/Daemon/Startup/Ready.antt =====
-- What holds when the daemon of src/daemon.rs has told its parent that it is ready.
use ttyleport.Prelude.{
  ℕ, ◌≡◌, refl, ◌⊎◌, inl, inr, Bool, true, false, List, ◌∷◌, Bytes, Result, ok, err,
}
use ttyleport.Text.Decimal.{to_string}
use ttyleport.Files.{FilePath, IoError, after_ok, FileSystem, Keeps, IsLawful}
use ttyleport.Security.Dirs.{Process, secure_create_dir_all}
use ttyleport.Security.Dirs.Secured.{Secured, secure_create_dir_all-Secured}
use ttyleport.Security.Socket.Bound.{PrivateSocket, bind_unix_listener-PrivateSocket}
use ttyleport.Daemon.Startup.{
  pid_file_path, Startup, open_socket, with_pid_file, with_socket, start_daemon,
}

module _ (F : FileSystem) (me : Process) (lawful : IsLawful F me.uid) where
  -- The socket is private to this user, and was bound when the directories above it were secured.
  abbrev pub Served : F.State → F.State → Bool → Bytes → List Bytes → Type 0
  Served s t absolute name names =
      PrivateSocket F me.uid lawful t (absolute, name ∷ names)
      × ((mid : F.State) × (secure_create_dir_all F me absolute names s ≡ (ok tt, mid))
          × Secured F me s mid absolute names)

  open_socket-Served :
      (absolute : Bool) (name : Bytes) (names : List Bytes) (s t : F.State)
      → open_socket F me (absolute, name ∷ names) s ≡ (ok tt, t)
      → Served s t absolute name names
  unfolding open_socket
  open_socket-Served absolute name names s t h =
      let (_, mid, made, bound) = after_ok (secure_create_dir_all F me absolute names s) _ tt t h in
      (
        bind_unix_listener-PrivateSocket F me.uid lawful (absolute, name ∷ names) mid t bound,
        (mid, made, secure_create_dir_all-Secured F me lawful absolute names s mid made),
      )

  -- Either the parent was told, and the socket is served, or it was not, and `run` has failed.
  abbrev pub Told : F.State → Bool → Bytes → List Bytes → Startup F → Type 0
  Told s absolute name names st =
      ((st.ready ≡ true) × Served s st.files absolute name names)
      ⊎ ((st.ready ≡ false) × ((e : IoError) × (st.outcome ≡ err e)))

  with_pid_file-Told :
      (s mid : F.State) (absolute : Bool) (name : Bytes) (names : List Bytes)
      (signals : Result IoError (Unit {0})) (r : Result IoError (Unit {0}) × F.State)
      → Keeps F mid r.1
      → Served s mid absolute name names
      → Told s absolute name names (with_pid_file F me signals r)
  with_pid_file-Told s mid absolute name names signals (ok _, t) same (own, dirs) =
      inl (refl, (same (absolute, name ∷ names) _ own, dirs))
  with_pid_file-Told s mid absolute name names signals (err e, t) same (own, dirs) =
      inl (refl, (same (absolute, name ∷ names) _ own, dirs))

  with_socket-Told :
      (absolute : Bool) (name : Bytes) (names : List Bytes) (pid : ℕ)
      (signals : Result IoError (Unit {0})) (s : F.State) (r : Result IoError (Unit {0}) × F.State)
      → open_socket F me (absolute, name ∷ names) s ≡ r
      → Told s absolute name names (with_socket F me (absolute, name ∷ names) pid signals r)
  with_socket-Told absolute name names pid signals s (ok _, mid) h =
      let w = F.write (pid_file_path (absolute, name ∷ names)) (to_string pid) mid in
      with_pid_file-Told s mid absolute name names signals w
        (lawful.write-Keeps _ (to_string pid) w.0 mid w.1 refl)
        (open_socket-Served absolute name names s mid h)
  with_socket-Told absolute name names pid signals s (err e, mid) h = inr (refl, (e, refl))

  -- The parent is told that the daemon is ready only when its socket stands, private to this user, and
  -- was bound when the directories above it were secured; the PID file, which is written afterwards,
  -- does not disturb it. If the parent is not told, `run` has failed.
  pub start_daemon-Told :
      (absolute : Bool) (name : Bytes) (names : List Bytes) (pid : ℕ)
      (signals : Result IoError (Unit {0})) (s : F.State)
      → Told s absolute name names (start_daemon F me (absolute, name ∷ names) pid signals s)
  unfolding start_daemon
  start_daemon-Told absolute name names pid signals s =
      with_socket-Told absolute name names pid signals s _ refl

  -- The parent is told too early: when the PID file cannot be written or a signal handler cannot be
  -- set, `run` returns an error after the parent has reported that the daemon is running.
  pub start_daemon_too_early :
      (ctl_path : FilePath) (pid : ℕ) (signals : Result IoError (Unit {0})) (s t u : F.State)
      (e : IoError)
      → open_socket F me ctl_path s ≡ (ok tt, t)
      → (F.write (pid_file_path ctl_path) (to_string pid) t ≡ (err e, u))
        ⊎ ((F.write (pid_file_path ctl_path) (to_string pid) t ≡ (ok tt, u)) × (signals ≡ err e))
      → start_daemon F me ctl_path pid signals s
        ≡ record { ready = true; outcome = err e; files = u }
  unfolding start_daemon
  start_daemon_too_early ctl_path pid signals s t u e opened (inl unwritable) =
      rw (opened, unwritable) refl
  start_daemon_too_early ctl_path pid signals s t u e opened (inr (wrote, unset)) =
      rw (opened, wrote, unset) refl
