-- ===== src/Connect/Accepts.antt =====
-- What `Destination::parse` of src/connect.rs accepts is a destination, and it says what was written.
use ttyleport.Prelude.{
  subst, ℕ, [], ◌∷◌, ◌++◌, Option, none, some, Bytes, Result, ok, err, ◌>>=◌, ◌≡◌, refl, append-nil,
  sym, ◌∙◌, ap,
}
use ttyleport.Text.Decimal.{parse}
use ttyleport.Text.Decimal.Laws.{parse_bound}
use ttyleport.Text.Lines.{split_once}
use ttyleport.Text.Search.{rsplit_once, First, split_once-First, Cut, rsplit_once-Cut}
use ttyleport.Connect.{
  Destination, Parsed, at_sign, colon, u16_max, user_part, port_part, host_part, destination,
  parse_destination, with_user, ssh_dest,
}
use ttyleport.Connect.Parse.{IsUser, IsHostFor, IsPortFor, IsDestination, with_user-append}

-- What stands behind the host: nothing, or a colon and the digits of the port.
abbrev pub PortText : Option ℕ → Bytes → Type 0
PortText none text = text ≡ []
PortText (some p) text =
    (digits : Bytes) × (text ≡ colon ∷ digits) × (parse u16_max digits ≡ some p)

-- A bind that succeeds has two steps that succeed.
bind_ok :
    {E A B : Type 0} (m : Result E A) (f : A → Result E B) (b : B)
    → (m >>= f) ≡ ok b
    → (a : A) × (m ≡ ok a) × (f a ≡ ok b)
bind_ok (ok a) f b e = (a, refl, e)
bind_ok (err x) f b e = cc e

ok-injective : {A : Type 0} (a b : A) → (let left : Parsed A = ok a in left ≡ ok b) → a ≡ b
ok-injective a b e = cc e

abbrev UserPart : Bytes → Option Bytes × Bytes → Type 0
UserPart s (user, rest) = (s ≡ with_user user rest) × IsUser user × IsHostFor user rest

user_part-UserPart :
    (s : Bytes) (o : Option (Bytes × Bytes)) (found : Option Bytes × Bytes)
    → First at_sign s o
    → user_part s o ≡ ok found
    → UserPart s found
user_part-UserPart s none found h e =
    subst (UserPart s) (ok-injective (none, s) found e) (refl, tt, h)
user_part-UserPart s (some ([], b)) found h e = cc e
user_part-UserPart s (some (c ∷ u, b)) found (at, lacks) e =
    subst (UserPart s) (ok-injective (some (c ∷ u), b) found e) (at, ((cc), lacks), tt)

abbrev HostPart : Bytes → Bytes × Option ℕ → Type 0
HostPart rest (host, port) =
    (text : Bytes) × (rest ≡ host ++ text) × PortText port text × IsPortFor port host

port_part-HostPart :
    (rest h digits : Bytes) (o : Option ℕ) (found : Bytes × Option ℕ)
    → rest ≡ h ++ (colon ∷ digits)
    → parse u16_max digits ≡ o
    → port_part h o ≡ ok found
    → HostPart rest found
port_part-HostPart rest h digits none found at read e = cc e
port_part-HostPart rest h digits (some p) found at read e =
    subst (HostPart rest) (ok-injective (h, some p) found e)
      (colon ∷ digits, at, (digits, refl, read), parse_bound u16_max p digits read)

host_part-HostPart :
    (rest : Bytes) (o : Option (Bytes × Bytes)) (found : Bytes × Option ℕ)
    → Cut colon rest o
    → host_part rest o ≡ ok found
    → HostPart rest found
host_part-HostPart rest none found h e =
    subst (HostPart rest) (ok-injective (rest, none) found e) ([], sym (append-nil rest), refl, h)
host_part-HostPart rest (some (h, digits)) found at e =
    port_part-HostPart rest h digits (parse u16_max digits) found at refl e

-- `s` says the destination.
abbrev pub Says : Bytes → Destination → Type 0
Says s d = IsDestination d × ((text : Bytes) × (s ≡ ssh_dest d ++ text) × PortText d.port text)

IsHostFor-front :
    (user : Option Bytes) (host text : Bytes) → IsHostFor user (host ++ text) → IsHostFor user host
IsHostFor-front (some u) host text h = tt
IsHostFor-front none [] text h = tt
IsHostFor-front none (c ∷ host) text (hc, hs) = (hc, IsHostFor-front none host text hs)

destination-Says :
    (s rest : Bytes) (user : Option Bytes) (host : Bytes) (port : Option ℕ) (d : Destination)
    → UserPart s (user, rest)
    → HostPart rest (host, port)
    → destination user host port ≡ ok d
    → Says s d
unfolding ssh_dest
destination-Says s rest user [] port d _ _ e = cc e
destination-Says s rest user (c ∷ host) port d (at, user_ok, host_ok) (text, cut, port_ok, fits) e =
    subst (Says s) (ok-injective (record { user = user; host = c ∷ host; port = port }) d e) (
      (
        (cc),
        user_ok,
        IsHostFor-front user (c ∷ host) text (subst (IsHostFor user) cut host_ok),
        fits,
      ),
      (text, at ∙ ap (with_user user) cut ∙ sym (with_user-append user (c ∷ host) text), port_ok),
    )

-- What is accepted is a destination: the host is not empty, the user, if there is one, is not empty
-- and has no `@`, and the port, if there is one, has 16 bits. The text is the destination given to
-- ssh, with a colon and digits that read as the port behind it if there is a port.
pub parse_destination_sound : (s : Bytes) (d : Destination) → parse_destination s ≡ ok d → Says s d
unfolding parse_destination
parse_destination_sound [] d e = cc e
parse_destination_sound (c ∷ s) d e =
    let ((user, rest), found_user, e1) =
      bind_ok (user_part (c ∷ s) (split_once at_sign (c ∷ s))) _ d e in
    let ((host, port), found_host, e2) = bind_ok (host_part rest (rsplit_once colon rest)) _ d e1 in
    destination-Says (c ∷ s) rest user host port d
      (user_part-UserPart (c ∷ s) _ (user, rest) (split_once-First at_sign (c ∷ s)) found_user)
      (host_part-HostPart rest _ (host, port) (rsplit_once-Cut colon rest) found_host) e2
