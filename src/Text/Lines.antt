-- ===== src/Text/Lines.antt =====
-- `str::lines`, `str::split` by a byte, `str::split_once` and `Vec::join`, which src/protocol.rs uses
-- on the payloads of `Env` and `SessionInfo`.
pub mod Laws
use mathlib.Core.Option
use ttyleport.Prelude.{
  ℕ, Bool, true, false, List, [], ◌∷◌, ◌++◌, Option, none, some, Bytes, ◌==◌, if◌then◌else◌,
  is_empty, ◌≡◌, refl, codes,
}

abbrev pub newline : ℕ
newline = b'\n'

abbrev pub carriage_return : ℕ
carriage_return = b'\r'

-- The text without one final carriage return.
unfoldable pub strip_cr : Bytes → Bytes
strip_cr [] = []
strip_cr (c ∷ []) = if c == carriage_return then [] else c ∷ []
strip_cr (c ∷ d ∷ s) = c ∷ strip_cr (d ∷ s)

-- A line ends at a newline, before which one carriage return is dropped. What follows the last
-- newline is a line as it stands, unless it is empty.
unfoldable pub lines_from : Bytes → Bytes → List Bytes
unfolding strip_cr
lines_from cur [] = if is_empty cur then [] else cur ∷ []
lines_from cur (c ∷ s) = elim (c == newline) [
  | true ↦ strip_cr cur ∷ lines_from [] s
  | false ↦ lines_from (cur ++ c ∷ []) s
]

unfoldable pub lines : Bytes → List Bytes
unfolding lines_from
lines = lines_from []

unfoldable pub split_from : ℕ → Bytes → Bytes → List Bytes
split_from sep cur [] = cur ∷ []
split_from sep cur (c ∷ s) = elim (c == sep) [
  | true ↦ cur ∷ split_from sep [] s
  | false ↦ split_from sep (cur ++ c ∷ []) s
]

unfoldable pub split : ℕ → Bytes → List Bytes
unfolding split_from
split sep = split_from sep []

unfoldable pub split_once : ℕ → Bytes → Option (Bytes × Bytes)
split_once sep [] = none
split_once sep (c ∷ s) =
    if c == sep then some ([], s) else Option.map (λ p. (c ∷ p.0, p.1)) (split_once sep s)

unfoldable pub join : ℕ → List Bytes → Bytes
join sep [] = []
join sep (p ∷ []) = p
join sep (p ∷ q ∷ ps) = p ++ (sep ∷ join sep (q ∷ ps))

lines_crlf : lines (codes "a\r\n\nb\r") ≡ codes "a" ∷ [] ∷ codes "b\r" ∷ []
unfolding lines
lines_crlf = refl

lines_final_newline : lines (codes "a\n") ≡ codes "a" ∷ []
unfolding lines
lines_final_newline = refl

split_tabs : split b'\t' (codes "a\t\tb") ≡ codes "a" ∷ [] ∷ codes "b" ∷ []
unfolding split
split_tabs = refl

split_once_first : split_once b'=' (codes "K=a=b") ≡ some (codes "K", codes "a=b")
unfolding split_once
split_once_first = refl
