-- ===== src/Text/Lines/Laws.antt =====
-- Reading back the parts of a joined text.
use ttyleport.Prelude.{
  ℕ, List, [], ◌∷◌, ◌++◌, some, Bytes, ◌==◌, ◌≡◌, ◌≢◌, refl, sym, ap, ◌∙◌, arith, All, Lacks,
  append-nil, append_assoc, Bool-cases, inl, inr,
}
use ttyleport.Text.Lines.{
  newline, carriage_return, strip_cr, lines_from, lines, split_from, split, split_once, join,
}

-- A line that `lines` gives back unchanged.
pub record IsLine (l : Bytes) : Type 0 where
  pub lacks_newline : Lacks newline l
  pub no_final_cr : strip_cr l ≡ l
  pub ne_nil : l ≢ []

lines_from-append :
    (l rest cur : Bytes) → Lacks newline l → lines_from cur (l ++ rest) ≡ lines_from (cur ++ l) rest
unfolding lines_from
lines_from-append [] rest cur h = rw append-nil
lines_from-append (c ∷ l) rest cur (hc, hl) =
    ground (arith, lines_from-append l rest (cur ++ c ∷ []) hl, append_assoc cur (c ∷ []) l)

lines_from_end : (l : Bytes) → l ≢ [] → lines_from l [] ≡ l ∷ []
unfolding lines_from
lines_from_end [] h = absurd (h refl)
lines_from_end (c ∷ l) h = refl

lines_from-newline : (cur s : Bytes) → lines_from cur (newline ∷ s) ≡ strip_cr cur ∷ lines_from [] s
unfolding lines_from
lines_from-newline cur s = refl

lines_from-join : (ls : List Bytes) → All IsLine ls → lines_from [] (join newline ls) ≡ ls
unfolding join
lines_from-join [] h = unfold lines_from in refl
lines_from-join (l ∷ []) (hl, _) =
    ap (lines_from []) (sym (append-nil l))
    ∙ lines_from-append l [] [] hl.lacks_newline
    ∙ lines_from_end l hl.ne_nil
lines_from-join (l ∷ m ∷ ls) (hl, hs) =
    lines_from-append l _ [] hl.lacks_newline
    ∙ lines_from-newline l _
    ∙ rw (hl.no_final_cr, lines_from-join (m ∷ ls) hs)

pub lines-join : (ls : List Bytes) → All IsLine ls → lines (join newline ls) ≡ ls
unfolding lines
lines-join = lines_from-join

split_from-append :
    (sep : ℕ) (l rest cur : Bytes)
    → Lacks sep l
    → split_from sep cur (l ++ rest) ≡ split_from sep (cur ++ l) rest
unfolding split_from
split_from-append sep [] rest cur h = rw append-nil
split_from-append sep (c ∷ l) rest cur (hc, hl) =
    ground (arith, split_from-append sep l rest (cur ++ c ∷ []) hl, append_assoc cur (c ∷ []) l)

split_from_sep :
    (sep : ℕ) (cur s : Bytes) → split_from sep cur (sep ∷ s) ≡ cur ∷ split_from sep [] s
unfolding split_from
split_from_sep sep cur s = ground arith

pub split-join :
    (sep : ℕ) (ps : List Bytes) → ps ≢ [] → All (Lacks sep) ps → split sep (join sep ps) ≡ ps
unfolding split join
split-join sep [] h _ = absurd (h refl)
split-join sep (p ∷ []) _ (hp, _) =
    ap (split_from sep []) (sym (append-nil p))
    ∙ split_from-append sep p [] [] hp
    ∙ unfold split_from in refl
split-join sep (p ∷ q ∷ ps) _ (hp, hs) =
    split_from-append sep p _ [] hp
    ∙ split_from_sep sep p _
    ∙ ap {B = List Bytes} (λ r. p ∷ r) (split-join sep (q ∷ ps) (cc) hs)

pub split_once-append :
    (sep : ℕ) (k v : Bytes) → Lacks sep k → split_once sep (k ++ (sep ∷ v)) ≡ some (k, v)
unfolding split_once
split_once-append sep [] v h = ground arith
split_once-append sep (c ∷ k) v (hc, hk) = elim (Bool-cases (c == sep)) [
  | inl e ↦ absurd (ground arith)
  | inr e ↦ rw (e, split_once-append sep k v hk)
]

strip_cr-cons : (c : ℕ) (s : Bytes) → s ≢ [] → strip_cr (c ∷ s) ≡ c ∷ strip_cr s
unfolding strip_cr
strip_cr-cons c [] h = absurd (h refl)
strip_cr-cons c (d ∷ s) h = refl

strip_cr_one : (c : ℕ) → c ≢ carriage_return → strip_cr (c ∷ []) ≡ c ∷ []
unfolding strip_cr
strip_cr_one c h = ground arith

pub append-cons-ne-nil : (k v : Bytes) (c : ℕ) → k ++ (c ∷ v) ≢ []
append-cons-ne-nil [] v c h = cc
append-cons-ne-nil (d ∷ k) v c h = cc

-- Text in front of a separator does not change how the end of the line is read.
pub strip_cr-append :
    (k v : Bytes) (c : ℕ)
    → c ≢ carriage_return
    → strip_cr v ≡ v
    → strip_cr (k ++ (c ∷ v)) ≡ k ++ (c ∷ v)
strip_cr-append [] [] c hc hv = strip_cr_one c hc
strip_cr-append [] (d ∷ v) c hc hv = rw (strip_cr-cons c (d ∷ v) cc, hv)
strip_cr-append (d ∷ k) v c hc hv =
    rw (strip_cr-cons d (k ++ (c ∷ v)) (append-cons-ne-nil k v c), strip_cr-append k v c hc hv)
