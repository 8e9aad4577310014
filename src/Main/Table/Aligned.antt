-- ===== src/Main/Table/Aligned.antt =====
-- The columns of the table that `list_sessions` of src/main.rs prints.
use ttyleport.Prelude.{
  ℕ, zero, suc, ◌+◌, ◌-◌, ◌≤◌, ◌≡◌, refl, List, [], ◌∷◌, ◌++◌, arith, Bytes, length, All,
}
use ttyleport.Main.Timestamp.{repeat}
use ttyleport.Main.Table.{Row, width, chars, pad, Widths, widths, heading}

chars-append : (xs ys : Bytes) → chars (xs ++ ys) ≡ chars xs + chars ys
unfolding chars
chars-append [] ys = omega arith
chars-append (c ∷ xs) ys = ground (arith, chars-append xs ys)

chars-repeat : (n : ℕ) → chars (repeat b' ' n) ≡ n
unfolding chars repeat
chars-repeat zero = refl
chars-repeat (suc n) = ground (arith, chars-repeat n)

chars-le-length : (text : Bytes) → chars text ≤ length text
unfolding chars
chars-le-length [] = omega arith
chars-le-length (c ∷ text) = ground (arith, chars-le-length text)

-- A cell that fits is filled up to exactly the width.
chars-pad : (w : ℕ) (text : Bytes) → length text ≤ w → chars (pad w text) ≡ w
unfolding pad
chars-pad w text fits = omega (
  arith,
  chars-append text (repeat b' ' (w - chars text)),
  chars-repeat (w - chars text),
  chars-le-length text,
)

floor-le-width :
    (floor : ℕ) (column : Row → Bytes) (rows : List Row) → floor ≤ width floor column rows
unfolding width
floor-le-width floor column [] = omega arith
floor-le-width floor column (r ∷ rows) = ground (arith, floor-le-width floor column rows)

width-All :
    (floor w : ℕ) (column : Row → Bytes) (rows : List Row)
    → width floor column rows ≤ w
    → All (λ r. length (column r) ≤ w) rows
unfolding width
width-All floor w column [] h = tt
width-All floor w column (r ∷ rows) h = (ground arith, width-All floor w column rows (ground arith))

column_fits :
    (floor : ℕ) (column : Row → Bytes) (rows : List Row)
    → length (column heading) ≤ floor
    → All (λ r. length (column r) ≤ width floor column rows) (heading ∷ rows)
column_fits floor column rows h = (
  omega (arith, floor-le-width floor column rows),
  width-All floor (width floor column rows) column rows (omega arith),
)

-- Each cell of the line takes exactly the characters of its column.
abbrev pub IsAligned : Widths → Row → Type 0
IsAligned w r =
    (chars (pad w.w_id r.id) ≡ w.w_id)
    × (chars (pad w.w_name r.name) ≡ w.w_name)
    × (chars (pad w.w_pty r.pty) ≡ w.w_pty)
    × (chars (pad w.w_pid r.pid) ≡ w.w_pid)
    × (chars (pad w.w_created r.created) ≡ w.w_created)

rows-IsAligned :
    (w : Widths) (rows : List Row)
    → All (λ r. length r.id ≤ w.w_id) rows
    → All (λ r. length r.name ≤ w.w_name) rows
    → All (λ r. length r.pty ≤ w.w_pty) rows
    → All (λ r. length r.pid ≤ w.w_pid) rows
    → All (λ r. length r.created ≤ w.w_created) rows
    → All (IsAligned w) rows
rows-IsAligned w [] _ _ _ _ _ = tt
rows-IsAligned w (r ∷ rows) (a, ids) (b, bs) (c, cs) (d, ds) (e, es) = (
  (
    chars-pad w.w_id r.id a,
    chars-pad w.w_name r.name b,
    chars-pad w.w_pty r.pty c,
    chars-pad w.w_pid r.pid d,
    chars-pad w.w_created r.created e,
  ),
  rows-IsAligned w rows ids bs cs ds es,
)

-- In the table of any sessions, each cell of each line takes exactly the characters of its column, in
-- the heading too: the columns stand below each other, also if a name has characters of several bytes,
-- of which the widths count the bytes.
pub widths-IsAligned : (rows : List Row) → All (IsAligned (widths rows)) (heading ∷ rows)
unfolding widths
widths-IsAligned rows =
    rows-IsAligned (widths rows) (heading ∷ rows) (column_fits 2 (λ r. r.id) rows (omega arith))
      (column_fits 4 (λ r. r.name) rows (omega arith))
      (column_fits 3 (λ r. r.pty) rows (omega arith))
      (column_fits 3 (λ r. r.pid) rows (omega arith))
      (column_fits 7 (λ r. r.created) rows (omega arith))
