-- ===== src/Protocol/Payloads.antt =====
-- Texts in the payloads of src/protocol.rs: they are UTF-8, and a printed list is read back.
use mathlib.Core.List.{filter_map}
use ttyleport.Prelude.{
  ℕ, ◌<◌, List, [], ◌∷◌, ◌++◌, map, Option, some, Bytes, All, ok, ◌≡◌, refl, arith, Bool, true,
  false,
}
use ttyleport.Text.Utf8.{IsUtf8, IsUtf8-append, ascii-IsUtf8}
use ttyleport.Text.Decimal.{to_string}
use ttyleport.Text.Decimal.Laws.{IsDigit, to_string-IsDigit}
use ttyleport.Text.Lines.{join}
use ttyleport.Protocol.Encode.{flag}
use ttyleport.Protocol.Decode.{decode_string}

byte-IsUtf8 : (c : ℕ) (s : Bytes) → c < 128 → IsUtf8 s → IsUtf8 (c ∷ s)
byte-IsUtf8 c s h hs = IsUtf8-append (c ∷ []) s (ascii-IsUtf8 (c ∷ []) (h, tt)) hs

-- Two texts with an ASCII byte between them.
pub between-IsUtf8 :
    (c : ℕ) (xs ys : Bytes) → c < 128 → IsUtf8 xs → IsUtf8 ys → IsUtf8 (xs ++ c ∷ ys)
between-IsUtf8 c xs ys h hx hy = IsUtf8-append xs (c ∷ ys) hx (byte-IsUtf8 c ys h hy)

pub join-IsUtf8 : (sep : ℕ) (ls : List Bytes) → sep < 128 → All IsUtf8 ls → IsUtf8 (join sep ls)
unfolding join
join-IsUtf8 sep [] c h = ascii-IsUtf8 [] tt
join-IsUtf8 sep (l ∷ []) c (hl, _) = hl
join-IsUtf8 sep (l ∷ m ∷ ls) c (hl, hs) =
    between-IsUtf8 sep l _ c hl (join-IsUtf8 sep (m ∷ ls) c hs)

IsDigit-ascii : (s : Bytes) → All IsDigit s → All (λ c. c < 128) s
IsDigit-ascii [] h = tt
IsDigit-ascii (c ∷ s) (hc, hs) = (omega arith, IsDigit-ascii s hs)

pub to_string-IsUtf8 : (n : ℕ) → IsUtf8 (to_string n)
to_string-IsUtf8 n = ascii-IsUtf8 (to_string n) (IsDigit-ascii _ (to_string-IsDigit n))

pub flag-IsUtf8 : (b : Bool) → IsUtf8 (flag b)
flag-IsUtf8 true = ascii-IsUtf8 _ (omega arith)
flag-IsUtf8 false = ascii-IsUtf8 _ (omega arith)

pub decode_string_lem : (s : Bytes) → IsUtf8 s → decode_string s ≡ ok s
unfolding decode_string
decode_string_lem s h = rw h

-- A printer and its reader, on a list.
pub filter_map-map {ℓ κ} :
    {A : Type ℓ} {P : A → Type κ} (print : A → Bytes) (read : Bytes → Option A)
    → ((a : A) → P a → read (print a) ≡ some a)
    → (xs : List A) → All P xs
    → filter_map read (map print xs) ≡ xs
unfolding filter_map
filter_map-map print read h [] _ = refl
filter_map-map print read h (x ∷ xs) (hx, hs) = rw (h x hx, filter_map-map print read h xs hs)

pub All-map {ℓ κ ρ} :
    {A : Type ℓ} {P : A → Type κ} (Q : Bytes → Type ρ) (print : A → Bytes)
    → ((a : A) → P a → Q (print a))
    → (xs : List A) → All P xs
    → All Q (map print xs)
All-map Q print h [] _ = tt
All-map Q print h (x ∷ xs) (hx, hs) = (h x hx, All-map Q print h xs hs)
