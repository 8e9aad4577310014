-- ===== src/Security.antt =====
-- The checks of src/security.rs.
pub mod Dirs
pub mod Socket
use ttyleport.Prelude.{ℕ, ltb, ◌==◌, if◌then◌else◌, Result, ok, err, ◌>>=◌, ◌≤◌, ◌≡◌, ◌↔◌, arith}

abbrev pub max_winsize : ℕ
max_winsize = 10_000

-- `Ord::clamp`
unfoldable pub clamp : ℕ → ℕ → ℕ → ℕ
clamp n lo hi = if ltb n lo then lo else if ltb hi n then hi else n

unfoldable pub clamp_winsize : ℕ → ℕ → ℕ × ℕ
unfolding clamp
clamp_winsize cols rows = (clamp cols 1 max_winsize, clamp rows 1 max_winsize)

pub data PeerError : Type 0 where
  no_credentials : PeerError
  permission_denied : (uid expected : ℕ) → PeerError

-- `cred` is the outcome of `peer_cred`, with the uid that it names.
unfoldable pub verify_peer_uid : ℕ → Result PeerError ℕ → Result PeerError (Unit {0})
verify_peer_uid my_uid cred = do
  uid ← cred
  if uid == my_uid then ok tt else err (permission_denied uid my_uid)

-- Any terminal size is brought into 1 to 10000, and a size in that range is kept.
pub clamp_winsize_bounds :
    (cols rows : ℕ)
    → let (c, r) = clamp_winsize cols rows in
      (1 ≤ c)
      × (c ≤ max_winsize)
      × (1 ≤ r)
      × (r ≤ max_winsize)
      × (1 ≤ cols → cols ≤ max_winsize → c ≡ cols)
      × (1 ≤ rows → rows ≤ max_winsize → r ≡ rows)
unfolding clamp_winsize
clamp_winsize_bounds cols rows = ground arith

-- The check passes exactly for a peer whose credentials are known and name this process's uid.
pub verify_peer_uid_ok :
    (my_uid : ℕ) (cred : Result PeerError ℕ)
    → (verify_peer_uid my_uid cred ≡ ok tt) ↔ (cred ≡ ok my_uid)
unfolding verify_peer_uid
verify_peer_uid_ok my_uid cred = ground arith
