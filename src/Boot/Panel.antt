-- ===== src/Boot/Panel.antt =====
-- src/efi/boot.c, the overlay console: where its panel lies (`ol_init`) and how it is painted (`ol_flush`)
-- from the splash and the log. The glyphs come from a generated file and are a parameter, as are the
-- first and the last character that have one. A buffer of pixels is a function of the index.
use sacabambaspos.Base.{
  ℕ, zero, suc, ◌+◌, ◌-◌, ◌*◌, ◌/◌, ◌%◌, ◌^◌, Bool, true, false, not, ◌||◌, Option, none, some,
  List, [], ◌∷◌, length, get_or, ltb, leb, ◌==◌, if◌then◌else◌, at_most, u8, u32, test_bit,
}
use sacabambaspos.Boot.Pixels.{Pixel, Pixels, bgr, set_pixel, for_up, at_least}
use sacabambaspos.Boot.Log.{OlCell, OlLog, ol_cols, ol_rows}
pub mod Padding

pub record Panel : Type 0 where
  pub scale : ℕ
  pub pad : ℕ
  pub w : ℕ
  pub h : ℕ
  pub x : ℕ
  pub y : ℕ
  pub cols : ℕ
  pub rows : ℕ

-- `none` is a mode without room for one glyph. `sw` by `sh` is the screen.
unfoldable pub ol_init : ℕ → ℕ → Option Panel
ol_init sw sh =
    let scale = at_most 3 (at_least 1 (sh / 800)) in
    let pad = 12 * scale in
    let w = u32 (sw * 30) / 100 in
    let h = u32 (sh * 44) / 100 in
    if leb w (2 * pad + 8 * scale) || leb h (2 * pad + 16 * scale)
    then none
    else some (record {
      scale = scale;
      pad = pad;
      w = w;
      h = h;
      x = u32 (sw * 2) / 100;
      y = u32 (sh + 2 ^ 33 - u32 (sh * 3) / 100 - h);
      cols = at_most ol_cols ((w - 2 * pad) / (8 * scale));
      rows = at_most ol_rows ((h - 2 * pad) / (16 * scale));
    })

abbrev pub ol_rgb : List Pixel
ol_rgb =
    bgr 40 28 16
    ∷ bgr 230 100 40
    ∷ bgr 90 200 80
    ∷ bgr 200 190 60
    ∷ bgr 70 70 230
    ∷ bgr 200 80 190
    ∷ bgr 60 130 180
    ∷ bgr 205 195 185
    ∷ bgr 135 120 105
    ∷ bgr 255 170 110
    ∷ bgr 140 235 120
    ∷ bgr 255 255 0
    ∷ bgr 110 110 255
    ∷ bgr 200 140 255
    ∷ bgr 100 220 250
    ∷ bgr 255 255 255
    ∷ []

-- Dark glass over a pixel of the splash.
unfoldable pub tinted : Pixel → Pixel
tinted p =
    bgr (u8 ((p.blue * 88 + 26 * 168) / 256)) (u8 ((p.green * 88 + 14 * 168) / 256))
      (u8 ((p.red * 88 + 8 * 168) / 256))

-- `sw` is the width of the splash `frame`.
unfoldable pub draw_glass : ℕ → Pixels → Panel → Pixels → Pixels
draw_glass sw frame p =
    for_up p.h
      (λ y. for_up p.w (λ x. set_pixel (y * p.w + x) (tinted (frame ((p.y + y) * sw + p.x + x)))))

abbrev pub hairline : Pixel
hairline = bgr 150 110 70

unfoldable pub draw_border : Panel → Pixels → Pixels
draw_border p q =
    for_up p.h (λ y r. set_pixel (y * p.w + p.w - 1) hairline (set_pixel (y * p.w) hairline r))
      (for_up p.w (λ x r. set_pixel ((p.h - 1) * p.w + x) hairline (set_pixel x hairline r)) q)

module _ (font : ℕ → ℕ → ℕ) (font_first font_last : ℕ) where
  -- A dot of a glyph is a square of `scale` by `scale` pixels, whose corner is at (`x`, `y`).
  unfoldable pub draw_dot : Panel → ℕ → ℕ → Pixel → Pixels → Pixels
  draw_dot p x y col =
      for_up p.scale (λ sy. for_up p.scale (λ sx. set_pixel ((y + sy) * p.w + x + sx) col))

  unfoldable pub draw_row : Panel → ℕ → ℕ → ℕ → Pixel → Pixels → Pixels
  draw_row p bits px y col q =
      if bits == 0
      then q
      else for_up 8
          (λ gx r.
            if not (test_bit bits (7 - gx)) then r else draw_dot p (px + gx * p.scale) y col r)
          q

  abbrev pub shown : ℕ → ℕ
  shown ch = if ltb ch font_first || ltb font_last ch then b' ' else ch

  -- The cell in column `c` of the row `r` of the panel.
  unfoldable pub draw_cell : Panel → ℕ → ℕ → OlCell → Pixels → Pixels
  draw_cell p r c cell =
      let col = get_or ol_rgb (cell.attr % 16) (bgr 0 0 0) in
      for_up 16 (λ gy.
        draw_row p (font (shown cell.ch - font_first) gy) (p.pad + c * 8 * p.scale)
          (p.pad + r * 16 * p.scale + gy * p.scale) col)

  -- The loop over the columns, from `c` on.
  unfoldable pub draw_line : Panel → ℕ → ℕ → List OlCell → Pixels → Pixels
  draw_line p r c [] q = q
  draw_line p r c (cell ∷ line) q =
      let rest = draw_line p r (suc c) line (draw_cell p r c cell q) in
      if not (ltb c p.cols) || cell.ch == 0 then q else rest

  -- The tail of the log that fits the panel. The log is kept with its newest row first.
  unfoldable pub draw_tail : Panel → OlLog → Pixels → Pixels
  draw_tail p l q =
      let total = suc (length l.above) in
      let first = total - p.rows in
      for_up p.rows
        (λ r s.
          if ltb (first + r) total
          then draw_line p r 0 (get_or (l.row ∷ l.above) (total - 1 - (first + r)) []) s
          else s)
        q

  unfoldable pub ol_flush : ℕ → Pixels → Panel → OlLog → Pixels → Pixels
  ol_flush sw frame p l q = draw_tail p l (draw_border p (draw_glass sw frame p q))
