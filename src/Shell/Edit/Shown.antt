-- ===== src/Shell/Edit/Shown.antt =====
-- The screen shows the line that is edited.
use sacabambaspos.Base.{
  ℕ, zero, suc, ◌+◌, ◌-◌, ◌≤◌, ◌<◌, ◌≡◌, refl, ap, ◌∙◌, arith, false, ◌&&◌, Option, List, [], ◌∷◌,
  ◌++◌, length, length-append, replicate, get_or, ltb, leb, if◌then◌else◌,
}
use sacabambaspos.Libk.{Mem}
use sacabambaspos.Console.{Console, con_setxy, paint_cell}
use sacabambaspos.Console.Log.{c_lgrey}
use sacabambaspos.Console.Cursor.{IsValid, con_setxy-IsValid}
use sacabambaspos.Proc.Pak.{Pak}
use sacabambaspos.Shell.Render.{
  Prints, colored, Prints-append, render_line, render_tokens-Prints, put_spaces-Prints,
}
use sacabambaspos.Shell.Printed.{char_at, Printable, InRow, Prints-InRow}

-- Row `y` shows the characters from column `px` on, and then blanks.
pub record Shows (w px y : ℕ) (cs : List ℕ) (s : Console) : Type 0 where
  pub width : s.cols ≡ w
  pub valid : IsValid s
  pub in_row : px + length cs < s.cols
  pub row_in : y < s.rows
  pub shows :
      (i : ℕ)
      → px + i < s.cols
      → char_at s (px + i) y ≡ (if ltb i (length cs) then get_or cs i 0 else b' ')

get_or-append :
    (xs ys : List ℕ) (i : ℕ)
    → get_or (xs ++ ys) i 0
      ≡ (if ltb i (length xs) then get_or xs i 0 else get_or ys (i - length xs) 0)
get_or-append [] ys i = ground arith
get_or-append (x ∷ xs) ys zero = ground arith
get_or-append (x ∷ xs) ys (suc i) = ground (arith, get_or-append xs ys i)

abbrev spaces : ℕ → List ℕ
spaces n = replicate n b' '

get_or-spaces : (n i : ℕ) → i < n → get_or (spaces n) i 0 ≡ b' '
get_or-spaces zero i h = absurd (omega arith)
get_or-spaces (suc n) zero h = refl
get_or-spaces (suc n) (suc i) h = get_or-spaces n i (omega arith)

length-spaces : (n : ℕ) → length (spaces n) ≡ n
length-spaces zero = refl
length-spaces (suc n) = ap (λ (k : ℕ). suc k) (length-spaces n)

Printable-spaces : (n : ℕ) → Printable (spaces n)
Printable-spaces zero = tt
Printable-spaces (suc n) = (omega arith, Printable-spaces n)

Printable-append : (xs ys : List ℕ) → Printable xs → Printable ys → Printable (xs ++ ys)
Printable-append [] ys h k = k
Printable-append (x ∷ xs) ys h k = (h.0, Printable-append xs ys h.1 k)

-- `render_line` prints the line and the blanks behind it.
render_line-Prints :
    (pak : Option Pak) (m : Mem) (px py : ℕ) (cs : List ℕ) (pad : ℕ) (s : Console)
    → Prints (cs ++ spaces pad) (con_setxy px py s) (render_line pak m px py cs pad s)
unfolding render_line
render_line-Prints pak m px py cs pad s =
    Prints-append
      (render_tokens-Prints (length cs) pak m false cs (con_setxy px py s) (omega arith))
      (colored c_lgrey (put_spaces-Prints pad _))

setxy_lem :
    (px py : ℕ) (s : Console)
    → px < s.cols
    → py < s.rows
    → ((con_setxy px py s).cx ≡ px) × ((con_setxy px py s).cy ≡ py)
unfolding con_setxy paint_cell
setxy_lem px py s hx hy = (ground arith, ground arith)

setxy_cells :
    (px py : ℕ) (s : Console)
    → ((con_setxy px py s).cells ≡ s.cells)
      × ((con_setxy px py s).cols ≡ s.cols)
      × ((con_setxy px py s).rows ≡ s.rows)
unfolding con_setxy paint_cell
setxy_cells px py s = (refl, refl, refl)

pub setxy-Shows :
    {w px y : ℕ} {cs : List ℕ} {s : Console} (x' y' : ℕ)
    → Shows w px y cs s
    → Shows w px y cs (con_setxy x' y' s)
unfolding con_setxy paint_cell
setxy-Shows x' y' h = record {
  width = h.width;
  valid = con_setxy-IsValid x' y' h.valid;
  in_row = h.in_row;
  row_in = h.row_in;
  shows = h.shows;
}

-- One column: what was printed there, or what it showed before.
column_lem :
    (px i pad : ℕ) (old cs : List ℕ) (final before : ℕ)
    → length old ≤ length cs + pad
    → final ≡ (
        if leb px (px + i) && ltb (px + i) (px + length (cs ++ spaces pad))
        then get_or (cs ++ spaces pad) (px + i - px) 0
        else before)
    → before ≡ (if ltb i (length old) then get_or old i 0 else b' ')
    → final ≡ (if ltb i (length cs) then get_or cs i 0 else b' ')
column_lem px i pad old cs final before reach e f =
    let index : px + i - px ≡ i = omega arith in
    let g : final ≡ (
        if leb px (px + i) && ltb (px + i) (px + length (cs ++ spaces pad))
        then get_or (cs ++ spaces pad) i 0
        else before) =
      rw index at e in
    ground (
      arith,
      g,
      f,
      get_or-append cs (spaces pad) i,
      get_or-spaces pad (i - length cs),
      length-append cs (spaces pad),
      length-spaces pad,
    )

-- After a redraw the row shows the new line, when the blanks reach to the end of the old one.
pub render_line-Shows :
    (pak : Option Pak) (m : Mem) (w px py : ℕ) (old cs : List ℕ) (pad : ℕ) (s : Console)
    → Shows w px py old s
    → Printable cs
    → length old ≤ length cs + pad
    → px + length cs + pad < s.cols
    → Shows w px py cs (render_line pak m px py cs pad s)
render_line-Shows pak m w px py old cs pad s h p reach room =
    let (at_x, at_y) = setxy_lem px py s (omega arith) h.row_in in
    let (same, cols, rows) = setxy_cells px py s in
    let size : length (cs ++ spaces pad) ≡ length cs + pad =
      omega (arith, length-append cs (spaces pad), length-spaces pad) in
    let r : InRow (λ i. get_or (cs ++ spaces pad) i 0) (length (cs ++ spaces pad))
        (con_setxy px py s) (render_line pak m px py cs pad s) =
      Prints-InRow (render_line-Prints pak m px py cs pad s) (con_setxy-IsValid px py h.valid)
        (Printable-append cs (spaces pad) p (Printable-spaces pad))
        (omega (arith, at_x, size, cols)) in
    record {
      width = r.same_cols ∙ cols ∙ h.width;
      valid = r.valid;
      in_row = omega (arith, r.same_cols, cols);
      row_in = omega (arith, r.same_rows, rows, h.row_in);
      shows = λ i inside.
          column_lem px i pad old cs _ (char_at s (px + i) py) reach
            (rw (at_x, at_y, same, cols) at (r.chars (px + i) (omega (arith, r.same_cols, cols))))
            (h.shows i (omega (arith, r.same_cols, cols)));
    }
