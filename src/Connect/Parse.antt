-- ===== src/Connect/Parse.antt =====
-- Which destinations `Destination::parse` of src/connect.rs reads, and how they are written.
use ttyleport.Prelude.{
  ℕ, ◌≤◌, false, [], ◌∷◌, ◌++◌, Option, none, some, Bytes, is_empty, ok, ◌≡◌, ◌≢◌, refl, arith, All,
  All-append, Lacks, append_assoc, append-nil,
}
use ttyleport.Text.Decimal.{to_string}
use ttyleport.Text.Decimal.Laws.{to_string-IsDigit, IsDigit, parse-to_string}
use ttyleport.Text.Lines.{split_once}
use ttyleport.Text.Lines.Laws.{split_once-append}
use ttyleport.Text.Search.{rsplit_once, split_once-Lacks, rsplit_once-Lacks, rsplit_once-append}
use ttyleport.Connect.{
  Destination, at_sign, colon, u16_max, user_part, host_part, destination, parse_destination,
  with_user, ssh_dest,
}

-- A user name that can be told from the host behind it.
abbrev pub IsUser : Option Bytes → Type 0
IsUser (some u) = (u ≢ []) × Lacks at_sign u
IsUser none = Unit

-- A host that is not read as a user's.
abbrev pub IsHostFor : Option Bytes → Bytes → Type 0
IsHostFor (some u) host = Unit
IsHostFor none host = Lacks at_sign host

-- A port of 16 bits, or none behind a host that does not seem to have one.
abbrev pub IsPortFor : Option ℕ → Bytes → Type 0
IsPortFor (some p) host = p ≤ u16_max
IsPortFor none host = Lacks colon host

abbrev pub IsDestination : Destination → Type 0
IsDestination d = (d.host ≢ []) × IsUser d.user × IsHostFor d.user d.host × IsPortFor d.port d.host

-- `user@host:port`, with the parts that there are.
abbrev port_suffix : Option ℕ → Bytes
port_suffix (some p) = colon ∷ to_string p
port_suffix none = []

abbrev pub written : Destination → Bytes
written d = ssh_dest d ++ port_suffix d.port

user_part-with_user :
    (user : Option Bytes) (rest : Bytes)
    → IsUser user
    → IsHostFor user rest
    → user_part (with_user user rest) (split_once at_sign (with_user user rest)) ≡ ok (user, rest)
user_part-with_user none rest _ h = rw (split_once-Lacks at_sign rest h) refl
user_part-with_user (some []) rest (ne, _) h = absurd (ne refl)
user_part-with_user (some (c ∷ u)) rest (_, lacks) h =
    rw (split_once-append at_sign (c ∷ u) rest lacks) refl

IsDigit-Lacks_above : (c : ℕ) (s : Bytes) → 58 ≤ c → All IsDigit s → Lacks c s
IsDigit-Lacks_above c [] lt h = tt
IsDigit-Lacks_above c (d ∷ s) lt (hd, hs) = (ground arith, IsDigit-Lacks_above c s lt hs)

host_part-append :
    (host : Bytes) (port : Option ℕ)
    → IsPortFor port host
    → host_part (host ++ port_suffix port) (rsplit_once colon (host ++ port_suffix port))
      ≡ ok (host, port)
host_part-append host none h = rw (append-nil host, rsplit_once-Lacks colon host h) refl
host_part-append host (some p) h =
    rw
      (
        rsplit_once-append colon host (to_string p)
            (IsDigit-Lacks_above colon (to_string p) (omega arith) (to_string-IsDigit p)),
        parse-to_string u16_max p h (omega arith),
      )
      refl

IsHostFor-append :
    (user : Option Bytes) (host : Bytes) (port : Option ℕ)
    → IsHostFor user host
    → IsHostFor user (host ++ port_suffix port)
IsHostFor-append (some u) host port h = tt
IsHostFor-append none host none h = rw (append-nil host) h
IsHostFor-append none host (some p) h =
    All-append (λ c. c ≢ at_sign) host (colon ∷ to_string p) h
      (ground arith, IsDigit-Lacks_above at_sign (to_string p) (omega arith) (to_string-IsDigit p))

pub with_user-append :
    (user : Option Bytes) (host rest : Bytes)
    → with_user user host ++ rest ≡ with_user user (host ++ rest)
with_user-append none host rest = refl
with_user-append (some u) host rest = append_assoc u (at_sign ∷ host) rest

destination_ok :
    (user : Option Bytes) (host : Bytes) (port : Option ℕ)
    → host ≢ []
    → destination user host port ≡ ok (record { user = user; host = host; port = port })
destination_ok user [] port h = absurd (h refl)
destination_ok user (c ∷ host) port h = refl

is_empty-false : (s : Bytes) → s ≢ [] → is_empty s ≡ false
is_empty-false [] h = absurd (h refl)
is_empty-false (c ∷ s) h = refl

with_user-ne-nil :
    (user : Option Bytes) (host rest : Bytes) → host ≢ [] → with_user user (host ++ rest) ≢ []
with_user-ne-nil none [] rest h = absurd (h refl)
with_user-ne-nil none (c ∷ host) rest h = cc
with_user-ne-nil (some []) host rest h = cc
with_user-ne-nil (some (c ∷ u)) host rest h = cc

-- A destination written as `user@host:port` is read back, with a user and a port or without.
pub parse_destination-written :
    (d : Destination) → IsDestination d → parse_destination (written d) ≡ ok d
unfolding parse_destination ssh_dest
parse_destination-written d (ne, user_ok, host_ok, port_ok) =
    rw
      (
        with_user-append d.user d.host (port_suffix d.port),
        is_empty-false _ (with_user-ne-nil d.user d.host (port_suffix d.port) ne),
        user_part-with_user d.user (d.host ++ port_suffix d.port) user_ok
            (IsHostFor-append d.user d.host d.port host_ok),
        host_part-append d.host d.port port_ok,
      )
      (destination_ok d.user d.host d.port ne)
