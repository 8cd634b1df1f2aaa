-- ===== src/Shell/Printed.antt =====
-- What printing in one row does to the cells of that row.
use sacabambaspos.Base.{
  ℕ, suc, ◌+◌, ◌-◌, ◌*◌, ◌≤◌, ◌<◌, ◌≡◌, refl, ap, ◌∙◌, arith, Bool, true, false, ◌&&◌, List, [],
  ◌∷◌, length, get_or, set, get_or-set_self, get_or-set_ne, ltb, leb, ◌==◌, if◌then◌else◌,
  Bool-cases, inl, inr,
}
use sacabambaspos.Console.{
  Console, Cell, con_fg, con_putc, place, serial_putc, repaint, paint_cell, at_cursor,
}
use sacabambaspos.Console.Cursor.{IsValid, con_putc-IsValid, at_cursor-lt}
use sacabambaspos.Shell.Render.{Prints, done, colored, printed}

abbrev no_cell : Cell
no_cell = record { ch = 0; fg = 0; bg = 0 }

-- The character in column `x` of row `y`.
abbrev pub char_at : Console → ℕ → ℕ → ℕ
char_at s x y = (get_or s.cells (y * s.cols + x) no_cell).ch

-- Every character is shown as a glyph, none moves the cursor otherwise.
abbrev pub Printable : List ℕ → Type 0
Printable [] = Unit
Printable (c ∷ cs) = (32 ≤ c) × Printable cs

-- The row after `n` characters `f 0`, `f 1`, … were printed in it.
pub record InRow (f : ℕ → ℕ) (n : ℕ) (s s' : Console) : Type 0 where
  pub valid : IsValid s'
  pub same_cols : s'.cols ≡ s.cols
  pub same_rows : s'.rows ≡ s.rows
  pub same_row : s'.cy ≡ s.cy
  pub moved : s'.cx ≡ s.cx + n
  pub chars :
      (x : ℕ)
      → x < s.cols
      → char_at s' x s.cy
        ≡ (if leb s.cx x && ltb x (s.cx + n) then f (x - s.cx) else char_at s x s.cy)

-- What one character does to the grid when it stays in the row.
record Stored (s : Console) (c : ℕ) (s' : Console) : Type 0 where
  cells : s'.cells ≡ set s.cells (at_cursor s) (record { ch = c; fg = s.cur_fg; bg = s.cur_bg })
  same_cols : s'.cols ≡ s.cols
  same_rows : s'.rows ≡ s.rows
  same_row : s'.cy ≡ s.cy
  moved : s'.cx ≡ s.cx + 1

putc-Stored :
    (s : Console) (c : ℕ) → IsValid s → 32 ≤ c → s.cx + 1 < s.cols → Stored s c (con_putc c s)
unfolding con_putc place serial_putc repaint paint_cell
putc-Stored s c v h room = record {
  cells = ground arith;
  same_cols = ground arith;
  same_rows = ground arith;
  same_row = ground arith;
  moved = ground arith;
}

putc-InRow :
    (s : Console) (c : ℕ)
    → IsValid s
    → 32 ≤ c
    → s.cx + 1 < s.cols
    → InRow (λ i. c) 1 s (con_putc c s)
putc-InRow s c v h room = record {
  valid = con_putc-IsValid c v;
  same_cols = p.same_cols;
  same_rows = p.same_rows;
  same_row = p.same_row;
  moved = p.moved;
  chars = λ x inside. rw (p.cells, p.same_cols) (stored x (x == s.cx) refl);
}
  where
    p : Stored s c (con_putc c s)
    p = putc-Stored s c v h room

    new : Cell
    new = record { ch = c; fg = s.cur_fg; bg = s.cur_bg }

    stored :
        (x : ℕ) (b : Bool)
        → x == s.cx ≡ b
        → (get_or (set s.cells (at_cursor s) new) (s.cy * s.cols + x) no_cell).ch
          ≡ (if leb s.cx x && ltb x (s.cx + 1) then c else char_at s x s.cy)
    stored x true e =
        let here : x ≡ s.cx = ground arith in
        rw here (
          ap (λ (t : Cell). t.ch)
            (get_or-set_self s.cells (at_cursor s) new no_cell (at_cursor-lt v))
          ∙ ground arith)
    stored x false e =
        ap (λ (t : Cell). t.ch)
          (get_or-set_ne s.cells (at_cursor s) (s.cy * s.cols + x) new no_cell (ground arith))
        ∙ ground arith

con_fg-IsValid : {s : Console} (fg : ℕ) → IsValid s → IsValid (con_fg fg s)
unfolding con_fg
con_fg-IsValid fg v = record {
  has_cols = v.has_cols;
  has_rows = v.has_rows;
  storage = v.storage;
  cx_in = v.cx_in;
  cy_in = v.cy_in;
}

fg-InRow :
    {f : ℕ → ℕ} {n : ℕ} {s s' : Console} (fg : ℕ) → InRow f n (con_fg fg s) s' → InRow f n s s'
unfolding con_fg
fg-InRow fg r = record {
  valid = r.valid;
  same_cols = r.same_cols;
  same_rows = r.same_rows;
  same_row = r.same_row;
  moved = r.moved;
  chars = r.chars;
}

-- One more character in front.
cons_char :
    (at n x c : ℕ) (cs : List ℕ) (final mid old : ℕ)
    → final ≡ (if leb (at + 1) x && ltb x (at + 1 + n) then get_or cs (x - (at + 1)) 0 else mid)
    → mid ≡ (if leb at x && ltb x (at + 1) then c else old)
    → final ≡ (if leb at x && ltb x (at + suc n) then get_or (c ∷ cs) (x - at) 0 else old)
cons_char at n x c cs final mid old e f = elim (Bool-cases (leb (at + 1) x)) [
  | inl later ↦ e ∙ rw (index later) (ground (arith, f))
  | inr sooner ↦ elim (Bool-cases (x == at)) [
    | inl same ↦ e ∙ rw (none_left same) (ground (arith, f))
    | inr other ↦ e ∙ ground (arith, f)
  ]
]
  where
    index : leb (at + 1) x ≡ true → x - at ≡ suc (x - (at + 1))
    index h = ground arith

    none_left : x == at ≡ true → x - at ≡ 0
    none_left h = ground arith

-- Printing `c` and then `n` more.
cons-InRow :
    (cs : List ℕ) (c : ℕ) (s s' : Console)
    → IsValid s
    → 32 ≤ c
    → s.cx + suc (length cs) < s.cols
    → InRow (λ i. get_or cs i 0) (length cs) (con_putc c s) s'
    → InRow (λ i. get_or (c ∷ cs) i 0) (suc (length cs)) s s'
cons-InRow cs c s s' v h room r =
    let one : InRow (λ i. c) 1 s (con_putc c s) = putc-InRow s c v h (omega arith) in
    record {
      valid = r.valid;
      same_cols = r.same_cols ∙ one.same_cols;
      same_rows = r.same_rows ∙ one.same_rows;
      same_row = r.same_row ∙ one.same_row;
      moved = omega (arith, r.moved, one.moved);
      chars = λ x inside.
          cons_char s.cx (length cs) x c cs _ _ _
            (rw (one.same_row, one.moved) at (r.chars x (omega (arith, one.same_cols))))
            (one.chars x inside);
    }

-- Printing in a row with room shows the characters from the cursor on, and nothing else changes there.
pub Prints-InRow :
    {cs : List ℕ} {s s' : Console}
    → Prints cs s s'
    → IsValid s
    → Printable cs
    → s.cx + length cs < s.cols
    → InRow (λ i. get_or cs i 0) (length cs) s s'
unfolding con_fg
Prints-InRow {s = s} done v h room = record {
  valid = v;
  same_cols = refl;
  same_rows = refl;
  same_row = refl;
  moved = omega arith;
  chars = λ x inside. ground arith;
}
Prints-InRow {cs = cs} {s = s} {s' = s'} (colored fg p) v h room =
    fg-InRow fg (Prints-InRow p (con_fg-IsValid fg v) h room)
Prints-InRow {cs = c ∷ cs} {s = s} {s' = s'} (printed p) v h room =
    let one : InRow (λ i. c) 1 s (con_putc c s) = putc-InRow s c v h.0 (omega arith) in
    cons-InRow cs c s s' v h.0 room
      (Prints-InRow p (con_putc-IsValid c v) h.1 (omega (arith, one.moved, one.same_cols)))
