-- ===== src/Text/Search.antt =====
-- `str::find` and `str::rfind` of a byte with the texts on its two sides, as `Destination::parse` of
-- src/connect.rs takes them: at its first place it is `split_once`, at its last `rsplit_once`.
use mathlib.Core.Option
use ttyleport.Prelude.{
  ℕ, false, [], ◌∷◌, ◌++◌, Option, none, some, Bytes, ◌==◌, if◌then◌else◌, ◌≡◌, refl, codes, Lacks,
  arith, Bool-cases, inl, inr, ap,
}
use ttyleport.Text.Lines.{split_once}

unfoldable pub at_last : ℕ → ℕ → Bytes → Option (Bytes × Bytes) → Option (Bytes × Bytes)
at_last sep c s (some (a, b)) = some (c ∷ a, b)
at_last sep c s none = if c == sep then some ([], s) else none

unfoldable pub rsplit_once : ℕ → Bytes → Option (Bytes × Bytes)
unfolding at_last
rsplit_once sep [] = none
rsplit_once sep (c ∷ s) = at_last sep c s (rsplit_once sep s)

rsplit_once_last : rsplit_once b':' (codes "a:b:c") ≡ some (codes "a:b", codes "c")
unfolding rsplit_once
rsplit_once_last = refl

-- What a search comes to: the separator is missing, or stands behind a text without it.
abbrev pub First : ℕ → Bytes → Option (Bytes × Bytes) → Type 0
First sep s none = Lacks sep s
First sep s (some (a, b)) = (s ≡ a ++ (sep ∷ b)) × Lacks sep a

First-cons :
    (sep c : ℕ) (s : Bytes) (o : Option (Bytes × Bytes))
    → (c == sep) ≡ false
    → First sep s o
    → First sep (c ∷ s) (Option.map (λ p. (c ∷ p.0, p.1)) o)
First-cons sep c s none ne h = (ground (arith), h)
First-cons sep c s (some (a, b)) ne (e, h) = (ap (λ t. c ∷ t) e, (ground arith, h))

pub split_once-First : (sep : ℕ) (s : Bytes) → First sep s (split_once sep s)
unfolding split_once
split_once-First sep [] = tt
split_once-First sep (c ∷ s) = elim (Bool-cases (c == sep)) [
  | inl e ↦ rw e (let same : c ≡ sep = ground arith in (rw same refl, tt))
  | inr ne ↦ rw ne (First-cons sep c s (split_once sep s) ne (split_once-First sep s))
]

pub split_once-Lacks : (sep : ℕ) (s : Bytes) → Lacks sep s → split_once sep s ≡ none
unfolding split_once
split_once-Lacks sep [] h = refl
split_once-Lacks sep (c ∷ s) (hc, hs) = ground (arith, split_once-Lacks sep s hs)

pub rsplit_once-Lacks : (sep : ℕ) (s : Bytes) → Lacks sep s → rsplit_once sep s ≡ none
unfolding rsplit_once
rsplit_once-Lacks sep [] h = refl
rsplit_once-Lacks sep (c ∷ s) (hc, hs) = rw (rsplit_once-Lacks sep s hs) (ground arith)

pub rsplit_once-append :
    (sep : ℕ) (a b : Bytes) → Lacks sep b → rsplit_once sep (a ++ (sep ∷ b)) ≡ some (a, b)
unfolding rsplit_once
rsplit_once-append sep [] b h = rw (rsplit_once-Lacks sep b h) (ground arith)
rsplit_once-append sep (c ∷ a) b h = rw (rsplit_once-append sep a b h) refl

-- The same for the last place.
abbrev pub Cut : ℕ → Bytes → Option (Bytes × Bytes) → Type 0
Cut sep s none = Lacks sep s
Cut sep s (some (a, b)) = s ≡ a ++ (sep ∷ b)

at_last-Cut :
    (sep c : ℕ) (s : Bytes) (o : Option (Bytes × Bytes))
    → Cut sep s o
    → Cut sep (c ∷ s) (at_last sep c s o)
unfolding at_last
at_last-Cut sep c s (some (a, b)) h = ap (λ t. c ∷ t) h
at_last-Cut sep c s none h = elim (Bool-cases (c == sep)) [
  | inl e ↦ rw e (let same : c ≡ sep = ground arith in rw same refl)
  | inr ne ↦ rw ne (ground arith, h)
]

pub rsplit_once-Cut : (sep : ℕ) (s : Bytes) → Cut sep s (rsplit_once sep s)
unfolding rsplit_once
rsplit_once-Cut sep [] = tt
rsplit_once-Cut sep (c ∷ s) = at_last-Cut sep c s (rsplit_once sep s) (rsplit_once-Cut sep s)
