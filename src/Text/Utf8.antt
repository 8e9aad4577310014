-- ===== src/Text/Utf8.antt =====
-- `String::from_utf8`: the check that a byte sequence is well-formed UTF-8 (the table of the Unicode
-- standard), as the automaton over the bytes still expected.
use ttyleport.Prelude.{
  ℕ, Bool, true, false, ◌&&◌, [], ◌∷◌, ◌++◌, Option, none, some, Bytes, ltb, leb, ◌==◌,
  if◌then◌else◌, ◌≡◌, refl, ◌<◌, arith, All, Option-cases, inl, inr,
}

-- What the next byte may be: the start of a character, or one of its later bytes.
pub data Expect : Type 0 where
  start tail1 tail2 tail3 after_e0 after_ed after_f0 after_f4 : Expect

within : ℕ → ℕ → Expect → ℕ → Option Expect
within lo hi next c = if leb lo c && leb c hi then some next else none

lead : ℕ → Option Expect
lead c =
    if ltb c 0x80
    then some start
    else if ltb c 0xc2
    then none
    else if ltb c 0xe0
    then some tail1
    else if c == 0xe0
    then some after_e0
    else if c == 0xed
    then some after_ed
    else if ltb c 0xf0
    then some tail2
    else if c == 0xf0
    then some after_f0
    else if ltb c 0xf4
    then some tail3
    else if c == 0xf4
    then some after_f4
    else none

unfoldable pub expect_step : Expect → ℕ → Option Expect
unfolding within lead
expect_step start c = lead c
expect_step tail1 c = within 0x80 0xbf start c
expect_step tail2 c = within 0x80 0xbf tail1 c
expect_step tail3 c = within 0x80 0xbf tail2 c
expect_step after_e0 c = within 0xa0 0xbf tail1 c
expect_step after_ed c = within 0x80 0x9f tail1 c
expect_step after_f0 c = within 0x90 0xbf tail2 c
expect_step after_f4 c = within 0x80 0x8f tail2 c

unfoldable pub expect_run : Expect → Bytes → Option Expect
expect_run e [] = some e
expect_run e (c ∷ s) = elim (expect_step e c) [ none ↦ none | some next ↦ expect_run next s ]

abbrev is_start : Option Expect → Bool
is_start (some start) = true
is_start _ = false

unfoldable pub is_utf8 : Bytes → Bool
unfolding expect_run expect_step
is_utf8 s = is_start (expect_run start s)

-- The bytes of a `String`.
abbrev pub IsUtf8 : Bytes → Type 0
IsUtf8 s = is_utf8 s ≡ true

is_start-some : (o : Option Expect) → is_start o ≡ true → o ≡ some start
is_start-some o h = ground arith

expect_run-append :
    (e f : Expect) (xs ys : Bytes)
    → expect_run e xs ≡ some f
    → expect_run e (xs ++ ys) ≡ expect_run f ys
unfolding expect_run
expect_run-append e f [] ys h = ground arith
expect_run-append e f (c ∷ xs) ys h = elim (Option-cases (expect_step e c)) [
  | inl stuck ↦ cc (rw (stuck, expect_run) at h)
  | inr (next, moved) ↦
      rw (moved, expect_run) (expect_run-append next f xs ys (rw (moved, expect_run) at h))
]

pub IsUtf8-append : (xs ys : Bytes) → IsUtf8 xs → IsUtf8 ys → IsUtf8 (xs ++ ys)
unfolding is_utf8
IsUtf8-append xs ys hx hy =
    rw (expect_run-append start start xs ys (is_start-some (expect_run start xs) hx)) hy

pub ascii-IsUtf8 : (s : Bytes) → All (λ c. c < 128) s → IsUtf8 s
unfolding is_utf8
ascii-IsUtf8 [] h = refl
ascii-IsUtf8 (c ∷ s) (hc, hs) = ground (arith, ascii-IsUtf8 s hs)

-- "é", and the same bytes cut or overlong.
accepts : is_utf8 (0xc3 ∷ 0xa9 ∷ b'x' ∷ []) ≡ true
unfolding is_utf8
accepts = refl

rejects_cut : is_utf8 (b'x' ∷ 0xc3 ∷ []) ≡ false
unfolding is_utf8
rejects_cut = refl

rejects_overlong : is_utf8 (0xc0 ∷ 0x80 ∷ []) ≡ false
unfolding is_utf8
rejects_overlong = refl
