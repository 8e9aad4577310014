-- ===== src/Main/Launch/Served.antt =====
-- What the exit status of `gritty daemon`, src/main.rs, says about the daemon of src/daemon.rs.
use ttyleport.Prelude.{
  ℕ, ◌≡◌, refl, ◌⊎◌, inl, inr, Bool, true, false, ◌&&◌, Option, none, some, List, ◌∷◌, Bool-cases,
  Bytes, Result, ok, err, ℤ, pos,
}
use ttyleport.Text.Decimal.{to_string}
use ttyleport.Files.{FilePath, IoError, FileSystem, IsLawful}
use ttyleport.Security.Dirs.{Process}
use ttyleport.Daemon.Startup.{Startup, start_daemon, pid_file_path, open_socket}
use ttyleport.Daemon.Startup.Ready.{Served, Told, start_daemon-Told, start_daemon_too_early}
use ttyleport.Main.{parent_status}
use ttyleport.Main.Launch.{LaunchCalls, detaches, in_background, launch_daemon}

module _ (F : FileSystem) (me : Process) (lawful : IsLawful F me.uid) where
  -- The socket stands, private and in secured directories, in the files that the daemon's start leaves.
  abbrev pub Stands : F.State → Bool → Bytes → List Bytes → Option (Startup F) → Type 0
  Stands s absolute name names none = ⊥
  Stands s absolute name names (some st) = Served F me lawful s st.files absolute name names

  Told-Served :
      (s : F.State) (absolute : Bool) (name : Bytes) (names : List Bytes) (st : Startup F)
      → Told F me lawful s absolute name names st
      → st.ready ≡ true
      → Served F me lawful s st.files absolute name names
  Told-Served s absolute name names st (inl (_, served)) h = served
  Told-Served s absolute name names st (inr (silent, _)) h = cc (silent, h)

  status_zero :
      (ready sent : Bool)
      → ◌≡◌ {A = Option ℤ} (some (parent_status (ready && sent))) (some (pos 0))
      → ready ≡ true
  unfolding parent_status
  status_zero true sent h = refl
  status_zero false sent h = cc h

  in_background-Stands :
      (c : LaunchCalls) (devnull : ℕ) (absolute : Bool) (name : Bytes) (names : List Bytes)
      (s : F.State) (st : Startup F)
      → Told F me lawful s absolute name names st
      → (in_background F c devnull st).status ≡ some (pos 0)
      → Stands s absolute name names (in_background F c devnull st).startup
  unfolding parent_status
  in_background-Stands c devnull absolute name names s st told h =
      elim (Bool-cases (c.pipe && c.fork)) [
        | inr e ↦ cc (rw e at h)
        | inl e ↦ elim (Bool-cases (detaches c devnull && c.runtime)) [
          | inr e' ↦ cc (rw (e, e') at h)
          | inl e' ↦
              let ready = status_zero st.ready (c.write_byte && c.read_byte) (rw (e, e') at h) in
              rw (e, e') (Told-Served s absolute name names st told ready)
        ]
      ]

  -- When `gritty daemon` exits with 0, a daemon has started in the background whose socket stands at its
  -- place, private to this user, and was bound when the directories above it were secured.
  pub launch_daemon-Stands :
      (c : LaunchCalls) (devnull : ℕ) (absolute : Bool) (name : Bytes) (names : List Bytes)
      (pid : ℕ) (signals : Result IoError (Unit {0})) (s : F.State)
      → (launch_daemon F me false c devnull (absolute, name ∷ names) pid signals s).status
        ≡ some (pos 0)
      → Stands s absolute name names
          (launch_daemon F me false c devnull (absolute, name ∷ names) pid signals s).startup
  unfolding launch_daemon
  launch_daemon-Stands c devnull absolute name names pid signals s h =
      in_background-Stands c devnull absolute name names s
        (start_daemon F me (absolute, name ∷ names) pid signals s)
        (start_daemon-Told F me lawful absolute name names pid signals s) h

  -- The status says too much: where the byte gets through, `gritty daemon` exits with 0 though the daemon
  -- has failed, when the PID file cannot be written or a signal handler cannot be set.
  pub launch_daemon_too_early :
      (c : LaunchCalls) (devnull : ℕ) (ctl_path : FilePath) (pid : ℕ)
      (signals : Result IoError (Unit {0})) (s t u : F.State) (e : IoError)
      → c.pipe && c.fork ≡ true
      → detaches c devnull && c.runtime ≡ true
      → c.write_byte && c.read_byte ≡ true
      → open_socket F me ctl_path s ≡ (ok tt, t)
      → (F.write (pid_file_path ctl_path) (to_string pid) t ≡ (err e, u))
        ⊎ ((F.write (pid_file_path ctl_path) (to_string pid) t ≡ (ok tt, u)) × (signals ≡ err e))
      → launch_daemon F me false c devnull ctl_path pid signals s ≡ record {
        status = some (pos 0);
        startup = some (record { ready = true; outcome = err e; files = u });
      }
  unfolding launch_daemon parent_status
  launch_daemon_too_early c devnull ctl_path pid signals s t u e forked detached sent opened
        failed =
      rw
        (
          start_daemon_too_early F me lawful ctl_path pid signals s t u e opened failed,
          forked,
          detached,
          sent,
        )
        refl
