-- ===== src/Security/Socket.antt =====
-- `bind_unix_listener` of src/security.rs with `set_socket_permissions`.
pub mod Bound
use ttyleport.Prelude.{
  ℕ, zero, suc, ◌+◌, ◌-◌, ◌*◌, ◌/◌, ◌%◌, ◌^◌, ◌≤◌, ◌<◌, ◌≡◌, refl, sym, ap, ap₂, subst, ◌∙◌, ◌≢◌,
  ◌↔◌, ◌⊎◌, inl, inr, Bool, true, false, not, ◌&&◌, ◌||◌, Option, none, some, List, [], ◌∷◌, ◌++◌,
  map, append-nil, append_assoc, arith, ltb, leb, ◌==◌, if◌then◌else◌, ==_iff, Bool-cases,
  Option-cases, Bytes, bytes_eq, bytes_eq_iff, is_empty, codes, length, take, drop, length-append,
  All, All-append, Lacks, Result, ok, err, ℤ, pos, negsuc,
}
use ttyleport.Files.{FilePath, IoError, addr_in_use, FileSystem, Io, after, ◌>>=◌, ◌>>◌, throw}

module _ (F : FileSystem) where
  unfoldable pub set_socket_permissions : FilePath → Io F.State (Unit {0})
  set_socket_permissions path = F.set_permissions path 0o600

  unfoldable pub listen : FilePath → Io F.State (Unit {0})
  listen path = do F.bind path; set_socket_permissions path

  unfoldable pub replace_stale : FilePath → Io F.State (Unit {0})
  replace_stale path = do F.remove_file path; listen path

  -- The outcome of the first `bind`.
  abbrev pub on_bind :
      FilePath → Result IoError (Unit {0}) × F.State → Result IoError (Unit {0}) × F.State
  on_bind path (ok _, s) = set_socket_permissions path s
  on_bind path (err addr_in_use, s) =
      if F.connects s path then throw addr_in_use s else replace_stale path s
  on_bind path (err e, s) = (err e, s)

  unfoldable pub bind_unix_listener : FilePath → Io F.State (Unit {0})
  bind_unix_listener path s = on_bind path (F.bind path s)
