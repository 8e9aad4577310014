-- ===== src/Text/Decimal.antt =====
-- `to_string` of an unsigned integer, and `str::parse` into one: `parse max` is `parse::<u16>` for
-- `max` = 2 ^ 16 - 1, and so on. What kind of error a bad text gives is dropped, as the callers do.
pub mod Laws
use ttyleport.Prelude.{
  ℕ, zero, suc, ◌+◌, ◌-◌, ◌*◌, ◌/◌, ◌%◌, ◌||◌, List, [], ◌∷◌, ◌++◌, Option, none, some, Bytes, ltb,
  ◌==◌, if◌then◌else◌, ◌≡◌, refl, codes,
}

-- The fuel bounds the number of digits.
unfoldable pub digits : ℕ → ℕ → Bytes
digits zero n = []
digits (suc fuel) n =
    let front = digits fuel (n / 10) in
    if ltb n 10 then (b'0' + n) ∷ [] else front ++ (b'0' + n % 10) ∷ []

-- A u64 has at most 20 digits.
unfoldable pub to_string : ℕ → Bytes
unfolding digits
to_string = digits 20

-- One digit after the other, with `checked_mul` and `checked_add`.
unfoldable pub scan : ℕ → ℕ → Bytes → Option ℕ
scan max acc [] = some acc
scan max acc (c ∷ s) =
    let d = c - b'0' in
    let rest = scan max (acc * 10 + d) s in
    if ltb c b'0' || ltb b'9' c
    then none
    else if ltb max (acc * 10)
    then none
    else if ltb max (acc * 10 + d)
    then none
    else rest

-- One leading plus is allowed; a sign alone is an error, and so is the empty text.
unfoldable pub parse : ℕ → Bytes → Option ℕ
unfolding scan
parse max [] = none
parse max (c ∷ []) = if c == b'+' || c == b'-' then none else scan max 0 (c ∷ [])
parse max (c ∷ d ∷ s) = scan max 0 (if c == b'+' then d ∷ s else c ∷ d ∷ s)

prints : to_string 4096 ≡ codes "4096"
unfolding to_string
prints = refl

parses :
    (parse 65535 (codes "+0022") ≡ some 22)
    × (parse 65535 (codes "65536") ≡ none)
    × (parse 65535 (codes "-1") ≡ none)
    × (parse 65535 (codes "+") ≡ none)
unfolding parse
parses = (refl, refl, refl, refl)
