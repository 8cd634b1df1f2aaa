-- ===== src/Console.antt =====
-- src/kernel/console.c: the cell grid, the cursor, and the COM1 mirror.
-- Drawing is kept as a trace: `paints` lists, newest first, the cells that `paint_cell` redraws and
-- the redraws of the whole grid by `scroll` and `con_clear`. The pixels behind them are not modelled.
-- A `char` is its byte.
pub mod Grid
pub mod Numbers
pub mod Cursor
pub mod Screen
pub mod Log
mod Tests
use sacabambaspos.Base.{
  ℕ, zero, suc, ◌+◌, ◌-◌, ◌*◌, Bool, not, ◌||◌, List, [], ◌∷◌, ◌++◌, set, take, drop, replicate,
  ltb, leb, ◌==◌, if◌then◌else◌,
}

pub record Cell : Type 0 where
  pub ch : ℕ
  pub fg : ℕ
  pub bg : ℕ

pub data Paint : Type 0 where
  cell : ℕ → ℕ → Paint
  grid : Paint

pub record Console : Type 0 where
  pub cols : ℕ
  pub rows : ℕ
  pub cx : ℕ
  pub cy : ℕ
  pub cur_fg : ℕ
  pub cur_bg : ℕ
  pub cells : List Cell
  pub cursor_on : Bool
  pub serial : List ℕ
  pub paints : List Paint

abbrev pub blank : Console → Cell
blank s = record { ch = b' '; fg = s.cur_fg; bg = s.cur_bg }

unfoldable pub paint_cell : ℕ → ℕ → Console → Console
paint_cell x y s = record s { paints = cell x y ∷ s.paints }

-- A newline goes out behind a carriage return; newest byte first.
unfoldable pub serial_putc : ℕ → Console → Console
serial_putc c s = record s { serial = c ∷ (if c == b'\n' then b'\r' ∷ s.serial else s.serial) }

unfoldable pub con_color : ℕ → ℕ → Console → Console
con_color fg bg s = record s { cur_fg = fg; cur_bg = bg }

unfoldable pub con_fg : ℕ → Console → Console
con_fg fg s = record s { cur_fg = fg }

unfoldable pub con_cursor : Bool → Console → Console
unfolding paint_cell
con_cursor on s = paint_cell s.cx s.cy (record s { cursor_on = on })

unfoldable pub con_setxy : ℕ → ℕ → Console → Console
unfolding paint_cell
con_setxy x y s =
    let x' = if ltb x s.cols then x else s.cols - 1 in
    let y' = if ltb y s.rows then y else s.rows - 1 in
    paint_cell x' y' (paint_cell s.cx s.cy (record s { cx = x'; cy = y' }))

unfoldable pub con_clear : Console → Console
con_clear s = record s {
  cells = replicate (s.cols * s.rows) (blank s);
  cx = 0;
  cy = 0;
  paints = grid ∷ s.paints;
}

-- The rows move up by one, and the last is blank.
unfoldable pub scroll : Console → Console
scroll s = record s {
  cells = take ((s.rows - 1) * s.cols) (drop s.cols s.cells) ++ replicate s.cols (blank s);
  paints = grid ∷ s.paints;
}

-- The index of the cursor's cell.
abbrev pub at_cursor : Console → ℕ
at_cursor s = s.cy * s.cols + s.cx

-- The cell write and the cursor move of one character.
unfoldable pub place : ℕ → Console → Console
place c s =
    if c == b'\n'
    then record s { cx = 0; cy = s.cy + 1 }
    else if c == b'\r'
    then record s { cx = 0 }
    else if c == 8
    then (if s.cx == 0
        then s
        else record s { cx = s.cx - 1; cells = set s.cells (s.cy * s.cols + (s.cx - 1)) (blank s) })
    else record s {
      cells = set s.cells (at_cursor s) (record { ch = c; fg = s.cur_fg; bg = s.cur_bg });
      cx = if leb s.cols (s.cx + 1) then 0 else s.cx + 1;
      cy = if leb s.cols (s.cx + 1) then s.cy + 1 else s.cy;
    }

-- `ox` and `oy` are where the cursor stood.
unfoldable pub repaint : ℕ → ℕ → Console → Console
unfolding paint_cell
repaint ox oy s =
    paint_cell s.cx s.cy (if not (ox == s.cx) || not (oy == s.cy) then paint_cell ox oy s else s)

unfoldable pub con_putc : ℕ → Console → Console
con_putc c s =
    let s' = place c (serial_putc c s) in
    if leb s'.rows s'.cy
    then (let t = scroll (record s' { cy = s'.rows - 1 }) in repaint t.cx t.cy t)
    else repaint s.cx s.cy s'

unfoldable pub con_puts : List ℕ → Console → Console
con_puts [] s = s
con_puts (c ∷ cs) s = con_puts cs (con_putc c s)
