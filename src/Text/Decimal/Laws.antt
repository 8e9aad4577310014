-- ===== src/Text/Decimal/Laws.antt =====
-- Reading a printed number back.
use ttyleport.Prelude.{
  ℕ, zero, suc, ◌+◌, ◌*◌, ◌-◌, ◌/◌, ◌%◌, ◌^◌, ◌≤◌, ◌<◌, [], ◌∷◌, ◌++◌, some, Bytes, ◌≡◌, ◌≢◌, refl,
  sym, ap, ◌∙◌, arith, All, All-append, Lacks, append-nil, append_assoc, Bool-cases, inl, inr, ltb,
  length, length-append,
}
use ttyleport.Text.Decimal.{digits, to_string, scan, parse}

abbrev pub IsDigit : ℕ → Type 0
IsDigit c = (b'0' ≤ c) × (c ≤ b'9')

digits-IsDigit : (fuel n : ℕ) → All IsDigit (digits fuel n)
unfolding digits
digits-IsDigit zero n = tt
digits-IsDigit (suc fuel) n = elim (Bool-cases (ltb n 10)) [
  | inl e ↦ rw e (ground arith)
  | inr e ↦
      rw e
        (All-append IsDigit (digits fuel (n / 10)) _ (digits-IsDigit fuel (n / 10)) (omega arith))
]

pub to_string-IsDigit : (n : ℕ) → All IsDigit (to_string n)
unfolding to_string
to_string-IsDigit n = digits-IsDigit 20 n

append_one-ne-nil : (xs : Bytes) (c : ℕ) → xs ++ c ∷ [] ≢ []
append_one-ne-nil [] c = cc
append_one-ne-nil (x ∷ xs) c = cc

pub to_string-ne-nil : (n : ℕ) → to_string n ≢ []
unfolding to_string
to_string-ne-nil n = ground (arith, append_one-ne-nil (digits 19 (n / 10)) (b'0' + n % 10))

scan_digit :
    (max acc d m : ℕ) (rest : Bytes)
    → d < 10
    → acc * 10 + d ≡ m
    → m ≤ max
    → scan max acc ((b'0' + d) ∷ rest) ≡ scan max m rest
unfolding scan
scan_digit max acc d m rest hd e h = ground arith

scan-digits :
    (max fuel n : ℕ) (rest : Bytes)
    → n ≤ max
    → n < 10 ^ fuel
    → scan max 0 (digits fuel n ++ rest) ≡ scan max n rest
unfolding digits
scan-digits max zero n rest h lt = let e : n ≡ 0 = omega arith in rw e
scan-digits max (suc fuel) n rest h lt = elim (Bool-cases (ltb n 10)) [
  | inl e ↦ rw e (scan_digit max 0 n n rest (ground arith) (omega arith) h)
  | inr e ↦
      rw (e, append_assoc)
        (scan-digits max fuel (n / 10) ((b'0' + n % 10) ∷ rest) (omega arith) (omega arith)
          ∙ scan_digit max (n / 10) (n % 10) n rest (omega arith) (omega arith) h)
]

parse-IsDigit : (max : ℕ) (s : Bytes) → s ≢ [] → All IsDigit s → parse max s ≡ scan max 0 s
unfolding parse
parse-IsDigit max [] h _ = absurd (h refl)
parse-IsDigit max (c ∷ []) h (hc, _) = ground arith
parse-IsDigit max (c ∷ d ∷ s) h (hc, _) = ground arith

-- A number that fits is read back from its print.
pub parse-to_string : (max n : ℕ) → n ≤ max → n < 10 ^ 20 → parse max (to_string n) ≡ some n
parse-to_string max n h lt =
    parse-IsDigit max (to_string n) (to_string-ne-nil n) (to_string-IsDigit n)
    ∙ unfold to_string scan in
      ap (scan max 0) (sym (append-nil (to_string n))) ∙ scan-digits max 20 n [] h lt

pub IsDigit-Lacks : (c : ℕ) (s : Bytes) → c < b'0' → All IsDigit s → Lacks c s
IsDigit-Lacks c [] lt h = tt
IsDigit-Lacks c (d ∷ s) lt (hd, hs) = (ground arith, IsDigit-Lacks c s lt hs)

scan_bound : (max acc n : ℕ) (s : Bytes) → acc ≤ max → scan max acc s ≡ some n → n ≤ max
unfolding scan
scan_bound max acc n [] h e = ground arith
scan_bound max acc n (c ∷ s) h e = ground (arith, scan_bound max (acc * 10 + (c - b'0')) n s)

-- What is read fits.
pub parse_bound : (max n : ℕ) (s : Bytes) → parse max s ≡ some n → n ≤ max
unfolding parse
parse_bound max n [] e = cc e
parse_bound max n (c ∷ []) e = ground (arith, scan_bound max 0 n (c ∷ []))
parse_bound max n (c ∷ d ∷ s) e =
    ground (arith, scan_bound max 0 n (d ∷ s), scan_bound max 0 n (c ∷ d ∷ s))

length-digits : (fuel n : ℕ) → length (digits fuel n) ≤ fuel
unfolding digits
length-digits zero n = omega arith
length-digits (suc fuel) n = elim (Bool-cases (ltb n 10)) [
  | inl e ↦ rw e (omega arith)
  | inr e ↦ rw e (
      omega (
        arith,
        length-append (digits fuel (n / 10)) ((b'0' + n % 10) ∷ []),
        length-digits fuel (n / 10),
      ))
]

pub length-to_string : (n : ℕ) → length (to_string n) ≤ 20
unfolding to_string
length-to_string n = length-digits 20 n
