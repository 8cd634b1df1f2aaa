-- ===== src/Console/Cursor.antt =====
-- The cursor stays on the grid, and the grid keeps its size.
use sacabambaspos.Base.{
  ℕ, zero, suc, ◌+◌, ◌-◌, ◌*◌, ◌≤◌, ◌<◌, ◌≡◌, arith, List, [], ◌∷◌, length, length-set,
  length-append, length-take, length-drop, length-replicate, drop, take, replicate, leb, false,
  Bool-cases, inl, inr,
}
use sacabambaspos.Console.{
  Console, blank, con_setxy, con_clear, scroll, at_cursor, place, con_putc, con_puts, serial_putc,
  repaint,
}

pub record IsValid (s : Console) : Type 0 where
  pub has_cols : 0 < s.cols
  pub has_rows : 0 < s.rows
  pub storage : length s.cells ≡ s.cols * s.rows
  pub cx_in : s.cx < s.cols
  pub cy_in : s.cy < s.rows

-- The cursor's cell is a cell of the grid.
pub at_cursor-lt : {s : Console} → IsValid s → at_cursor s < length s.cells
at_cursor-lt v = grind arith

pub con_setxy-IsValid : {s : Console} (x y : ℕ) → IsValid s → IsValid (con_setxy x y s)
unfolding con_setxy
con_setxy-IsValid x y v = ground arith

pub con_clear-IsValid : {s : Console} → IsValid s → IsValid (con_clear s)
unfolding con_clear
con_clear-IsValid {s} v = ground (arith, length-replicate (s.cols * s.rows) (blank s))

-- All rows but the last, and the last.
pub rows_split : (c r : ℕ) → 0 < r → (r - 1) * c + c ≡ c * r
rows_split c zero h = absurd (omega arith)
rows_split c (suc r) h = grind arith

length-scroll :
    (s : Console)
    → 0 < s.rows
    → length s.cells ≡ s.cols * s.rows
    → length (scroll s).cells ≡ s.cols * s.rows
unfolding scroll
length-scroll s some_rows full = omega (
  arith,
  length-append (take ((s.rows - 1) * s.cols) (drop s.cols s.cells)) (replicate s.cols (blank s)),
  length-take ((s.rows - 1) * s.cols) (drop s.cols s.cells),
  length-drop s.cols s.cells,
  length-replicate s.cols (blank s),
  rows_split s.cols s.rows some_rows,
)

-- Before the scroll the cursor may stand one row below the grid.
pub record IsPlaced (old s : Console) : Type 0 where
  pub same_cols : s.cols ≡ old.cols
  pub same_rows : s.rows ≡ old.rows
  pub storage : length s.cells ≡ old.cols * old.rows
  pub cx_in : s.cx < old.cols
  pub cy_in : s.cy ≤ old.rows

pub place-IsPlaced : {s : Console} (c : ℕ) → IsValid s → IsPlaced s (place c (serial_putc c s))
unfolding place serial_putc
place-IsPlaced {s} c v = ground (
  arith,
  length-set s.cells (s.cy * s.cols + (s.cx - 1)) (blank s),
  length-set s.cells (at_cursor s) (record { ch = c; fg = s.cur_fg; bg = s.cur_bg }),
)

repaint-IsValid : {s : Console} (ox oy : ℕ) → IsValid s → IsValid (repaint ox oy s)
unfolding repaint
repaint-IsValid ox oy v = ground arith

scrolled-IsValid :
    (old s : Console)
    → 0 < old.cols
    → 0 < old.rows
    → IsPlaced old s
    → IsValid (scroll (record s { cy = s.rows - 1 }))
unfolding scroll
scrolled-IsValid old s a b p = record {
  has_cols = omega arith;
  has_rows = omega arith;
  storage =
      unfold scroll in
      length-scroll (record s { cy = s.rows - 1 }) (omega arith)
        (rw (p.same_cols, p.same_rows) p.storage);
  cx_in = omega arith;
  cy_in = omega arith;
}

unscrolled-IsValid :
    (old s : Console) → 0 < old.cols → IsPlaced old s → leb s.rows s.cy ≡ false → IsValid s
unscrolled-IsValid old s a p in_grid = record {
  has_cols = omega arith;
  has_rows = ground arith;
  storage = rw (p.same_cols, p.same_rows) p.storage;
  cx_in = omega arith;
  cy_in = ground arith;
}

-- One character keeps the console valid.
pub con_putc-IsValid : {s : Console} (c : ℕ) → IsValid s → IsValid (con_putc c s)
unfolding con_putc
con_putc-IsValid {s} c v = elim (Bool-cases (leb placed.rows placed.cy)) [
  | inl below ↦
      rw below
        (repaint-IsValid _ _ (scrolled-IsValid s placed v.has_cols v.has_rows (place-IsPlaced c v)))
  | inr in_grid ↦ rw in_grid (
      repaint-IsValid s.cx s.cy
        (unscrolled-IsValid s placed v.has_cols (place-IsPlaced c v) in_grid))
]
  where
    placed : Console
    placed = place c (serial_putc c s)

-- Whatever string is printed on a valid console, the cursor stays on the grid, and the cells are as many
-- as the columns times the rows.
pub con_puts-IsValid : (cs : List ℕ) {s : Console} → IsValid s → IsValid (con_puts cs s)
unfolding con_puts
con_puts-IsValid [] v = v
con_puts-IsValid (c ∷ cs) v = con_puts-IsValid cs (con_putc-IsValid c v)
