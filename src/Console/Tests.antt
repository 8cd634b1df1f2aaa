-- ===== src/Console/Tests.antt =====
-- A grid of three columns and two rows.
use sacabambaspos.Base.{ℕ, ◌≡◌, refl, arith, true, [], ◌∷◌}
use sacabambaspos.Console.{Cell, Console}
use sacabambaspos.Console.Screen.{Screen, want_win, grid}
use sacabambaspos.Console.Cursor.{IsValid}

abbrev letter_cell : ℕ → Cell
letter_cell c = record { ch = c; fg = 0xFFFFFF; bg = 0 }

abbrev small : Console
small = record {
  cols = 3;
  rows = 2;
  cx = 2;
  cy = 1;
  cur_fg = 0xFFFFFF;
  cur_bg = 0;
  cells =
      letter_cell 65
      ∷ letter_cell 66
      ∷ letter_cell 67
      ∷ letter_cell 68
      ∷ letter_cell 69
      ∷ letter_cell 32
      ∷ [];
  cursor_on = true;
  serial = [];
  paints = [];
}

small-IsValid : IsValid small
small-IsValid = record {
  has_cols = omega arith;
  has_rows = omega arith;
  storage = refl;
  cx_in = omega arith;
  cy_in = omega arith;
}

-- A panel of 200 by 100 pixels on a screen of 320 by 200.
abbrev panel_mode : Screen
panel_mode = record {
  fbw = 320;
  fbh = 200;
  splash = 0x8000;
  pn_x = 60;
  pn_y = 50;
  pn_w = 200;
  pn_h = 100;
}

last_cell : ((grid 8 16 true panel_mode).cols ≡ 23) × ((grid 8 16 true panel_mode).rows ≡ 5)
unfolding grid want_win
last_cell = (refl, refl)
