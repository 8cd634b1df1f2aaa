-- ===== src/Console/Grid.antt =====
-- What a character and a scroll do to the cells.
use sacabambaspos.Base.{
  ℕ, zero, suc, ◌+◌, ◌-◌, ◌*◌, ◌≤◌, ◌<◌, ◌≡◌, refl, arith, ◌∙◌, ap, List, [], ◌∷◌, ◌++◌, length,
  length-take, length-drop, get_or, get_or-set_self, get_or-set_ne, take, drop, replicate, ltb,
  ◌==◌, if◌then◌else◌, Bool-cases, inl, inr, true, false, ltb→lt, ltb→ge,
}
use sacabambaspos.Console.{Console, Cell, blank, at_cursor, scroll, place}
use sacabambaspos.Console.Cursor.{IsValid, rows_split, at_cursor-lt}

-- The cell in column `x` of row `y`.
abbrev pub cell_at : Console → ℕ → ℕ → Cell
cell_at s x y = get_or s.cells (y * s.cols + x) (blank s)

get_or-drop : (d : Cell) (n i : ℕ) (xs : List Cell) → get_or (drop n xs) i d ≡ get_or xs (n + i) d
get_or-drop d zero i xs = ap (λ t. get_or xs t d) (zero_plus i)
  where
    zero_plus : (k : ℕ) → k ≡ 0 + k
    zero_plus k = omega arith
get_or-drop d (suc n) i [] = refl
get_or-drop d (suc n) i (x ∷ xs) = get_or-drop d n i xs ∙ ap (λ t. get_or (x ∷ xs) t d) shifted
  where
    shifted : suc (n + i) ≡ suc n + i
    shifted = omega arith

get_or-append :
    (d : Cell) (i : ℕ) (xs ys : List Cell)
    → get_or (xs ++ ys) i d
      ≡ (if ltb i (length xs) then get_or xs i d else get_or ys (i - length xs) d)
get_or-append d i [] ys = ground arith
get_or-append d zero (x ∷ xs) ys = ground arith
get_or-append d (suc i) (x ∷ xs) ys = ground (arith, get_or-append d i xs ys)

get_or-take : (d : Cell) (n i : ℕ) (xs : List Cell) → i < n → get_or (take n xs) i d ≡ get_or xs i d
get_or-take d zero i xs h = absurd (omega arith)
get_or-take d (suc n) i [] h = refl
get_or-take d (suc n) zero (x ∷ xs) h = refl
get_or-take d (suc n) (suc i) (x ∷ xs) h = get_or-take d n i xs (omega arith)

get_or-replicate : (d : Cell) (n i : ℕ) → get_or (replicate n d) i d ≡ d
get_or-replicate d zero i = refl
get_or-replicate d (suc n) zero = refl
get_or-replicate d (suc n) (suc i) = get_or-replicate d n i

row_above : (c r x y : ℕ) → x < c → y + 1 < r → y * c + x < (r - 1) * c
row_above c zero x y hx hy = absurd (omega arith)
row_above c (suc r) x y hx hy =
    let e : suc r - 1 ≡ r = omega arith in let below : y < r = omega arith in rw e (grind arith)

last_row : (c r x y : ℕ) → r ≤ y + 1 → (r - 1) * c ≤ y * c + x
last_row c zero x y h = omega arith
last_row c (suc r) x y h =
    let e : suc r - 1 ≡ r = omega arith in let below : r ≤ y = omega arith in rw e (grind arith)

next_row : (c x y : ℕ) → c + (y * c + x) ≡ (y + 1) * c + x
next_row c x y = grind arith

-- After a scroll of a valid console each row shows what the row below it showed, and the last row is
-- blank.
pub scroll_lem :
    (s : Console) (x y : ℕ)
    → IsValid s
    → x < s.cols
    → y < s.rows
    → cell_at (scroll s) x y ≡ (if ltb (y + 1) s.rows then cell_at s x (y + 1) else blank s)
unfolding scroll
scroll_lem s x y v hx hy =
    get_or-append (blank s) (y * s.cols + x) kept (replicate s.cols (blank s))
    ∙ elim (Bool-cases (ltb (y + 1) s.rows)) [
      | inl above ↦
          rw (above, kept_test (row_above s.cols s.rows x y hx (above_lt above)))
            (get_or-take (blank s) ((s.rows - 1) * s.cols) (y * s.cols + x) (drop s.cols s.cells)
                (row_above s.cols s.rows x y hx (above_lt above))
              ∙ get_or-drop (blank s) s.cols (y * s.cols + x) s.cells
              ∙ ap (λ t. get_or s.cells t (blank s)) (next_row s.cols x y))
      | inr last ↦
          rw (last, new_test (last_row s.cols s.rows x y (last_ge last)))
            (get_or-replicate (blank s) s.cols _)
    ]
  where
    kept : List Cell
    kept = take ((s.rows - 1) * s.cols) (drop s.cols s.cells)

    length_kept : length kept ≡ (s.rows - 1) * s.cols
    length_kept = omega (
      arith,
      length-take ((s.rows - 1) * s.cols) (drop s.cols s.cells),
      length-drop s.cols s.cells,
      rows_split s.cols s.rows v.has_rows,
    )

    above_lt : ltb (y + 1) s.rows ≡ true → y + 1 < s.rows
    above_lt e = ltb→lt (y + 1) s.rows e

    last_ge : ltb (y + 1) s.rows ≡ false → s.rows ≤ y + 1
    last_ge e = ltb→ge (y + 1) s.rows e

    kept_test : y * s.cols + x < (s.rows - 1) * s.cols → ltb (y * s.cols + x) (length kept) ≡ true
    kept_test h = ground (arith, length_kept)

    new_test : (s.rows - 1) * s.cols ≤ y * s.cols + x → ltb (y * s.cols + x) (length kept) ≡ false
    new_test h = ground (arith, length_kept)

-- On a valid console a character from 32 on is written to the cursor's cell, in the current colours,
-- and to no other cell.
pub place_printable :
    (s : Console) (c i : ℕ)
    → IsValid s
    → 32 ≤ c
    → get_or (place c s).cells i (blank s) ≡ (
        if i == at_cursor s
        then record { ch = c; fg = s.cur_fg; bg = s.cur_bg }
        else get_or s.cells i (blank s))
unfolding place
place_printable s c i v h = ground (
  arith,
  at_cursor-lt v,
  get_or-set_self s.cells (at_cursor s) (record { ch = c; fg = s.cur_fg; bg = s.cur_bg }) (blank s),
  get_or-set_ne s.cells (at_cursor s) i (record { ch = c; fg = s.cur_fg; bg = s.cur_bg }) (blank s),
)
