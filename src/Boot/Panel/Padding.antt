-- ===== src/Boot/Panel/Padding.antt =====
-- The panel of the overlay console (src/efi/boot.c, `ol_init`) lies on the screen, and the text of the log
-- (`ol_flush`) keeps off the padding of the panel.
use native.Mathlib.Nat.{div-mul-le_self, mul-le-mul_right}
use mathlib.Core.Option.{some-injective}
use mathlib.Core.Path.{subst}
use sacabambaspos.Base.{
  ℕ, suc, ◌+◌, ◌-◌, ◌*◌, ◌/◌, ◌%◌, ◌^◌, ◌≤◌, ◌<◌, ◌≡◌, ◌≢◌, ◌⊎◌, refl, ◌∙◌, arith, Bool, true,
  false, not, ◌||◌, none, some, List, [], ◌∷◌, length, get_or, ltb, leb, ◌==◌, if◌then◌else◌,
  at_most, u32, test_bit,
}
use sacabambaspos.Boot.Log.{OlCell, OlLog, ol_cols, ol_rows}
use sacabambaspos.Boot.Panel.{
  Panel, draw_dot, draw_row, draw_cell, draw_line, draw_tail, ol_rgb, draw_glass, draw_border,
  ol_flush, ol_init, shown,
}
use sacabambaspos.Boot.Pixels.{
  Pixel, Pixels, bgr, for_up-keeps, coordinates, if-keeps, set_pixel-other,
}

-- The text area, between the paddings, has room for the rows and the columns.
pub record Fitting (p : Panel) : Type 0 where
  pub across : 2 * p.pad + p.cols * (8 * p.scale) ≤ p.w
  pub down : 2 * p.pad + p.rows * (16 * p.scale) ≤ p.h

-- A pixel of the padding, or one below the panel.
abbrev pub Outer : Panel → ℕ → ℕ → Type 0
Outer p x y = (x < p.pad) ⊎ (p.w ≤ x + p.pad) ⊎ (y < p.pad) ⊎ (p.h ≤ y + p.pad)

abbrev Inner : Panel → ℕ → ℕ → ℕ → Type 0
Inner p x y s = (p.pad ≤ x) × (x + s + p.pad ≤ p.w) × (p.pad ≤ y) × (y + s + p.pad ≤ p.h)

block-le : (k c n s g : ℕ) → c < n → g < k → c * k * s + g * s + s ≤ n * (k * s)
block-le k c n s g hc hg =
    let upto : suc c * k ≤ n * k = mul-le-mul_right k hc in
    let cells : c * k + g + 1 ≤ n * k = grind (arith, upto) in
    let scaled : (c * k + g + 1) * s ≤ n * k * s = mul-le-mul_right s cells in grind (arith, scaled)

module _ (font : ℕ → ℕ → ℕ) (font_first font_last : ℕ) (p : Panel) (X Y : ℕ) (hX : X < p.w)
    (out : Outer p X Y) where
  abbrev at : ℕ
  at = Y * p.w + X

  dot-at : (x y s sx sy : ℕ) → Inner p x y s → sx < s → sy < s → at ≢ (y + sy) * p.w + x + sx
  dot-at x y s sx sy inner hx hy e =
      let same : at ≡ (y + sy) * p.w + (x + sx) = omega (arith, e) in
      let within : x + sx < p.w = omega (arith, inner, hx) in
      let (cx, cy) = coordinates p.w X Y (x + sx) (y + sy) hX within same in
      omega (arith, cx, cy, out, inner, hx, hy)

  draw_dot-keeps :
      (x y : ℕ) (col : Pixel) (q r : Pixels)
      → Inner p x y p.scale
      → r at ≡ q at
      → draw_dot font font_first font_last p x y col r at ≡ q at
  unfolding draw_dot
  draw_dot-keeps x y col q r inner =
      for_up-keeps (λ r. r at ≡ q at) p.scale _
        (λ sy hy.
          for_up-keeps (λ r. r at ≡ q at) p.scale _
            (λ sx hx r h. set_pixel-other _ at col r (dot-at x y p.scale sx sy inner hx hy) ∙ h))
        r

  draw_row-keeps :
      (bits px y : ℕ) (col : Pixel) (q r : Pixels)
      → ((gx : ℕ) → gx < 8 → Inner p (px + gx * p.scale) y p.scale)
      → r at ≡ q at
      → draw_row font font_first font_last p bits px y col r at ≡ q at
  unfolding draw_row
  draw_row-keeps bits px y col q r inner h =
      if-keeps at (bits == 0) _ _ _ (λ _. h)
        (λ _.
          for_up-keeps (λ r. r at ≡ q at) 8 _
            (λ gx hg r h.
              if-keeps at (not (test_bit bits (7 - gx))) _ _ _ (λ _. h)
                (λ _. draw_dot-keeps (px + gx * p.scale) y col q r (inner gx hg) h))
            r h)

  dot_within :
      (a a' b b' : ℕ)
      → Fitting p
      → a + a' + p.scale ≤ p.cols * (8 * p.scale)
      → b + b' + p.scale ≤ p.rows * (16 * p.scale)
      → Inner p (p.pad + a + a') (p.pad + b + b') p.scale
  dot_within a a' b b' fit ha hb =
      let across = fit.across in
      let down = fit.down in (omega arith, omega arith, omega arith, omega arith)

  draw_cell-keeps :
      (r c : ℕ) (cell : OlCell) (q s : Pixels)
      → Fitting p
      → r < p.rows
      → c < p.cols
      → s at ≡ q at
      → draw_cell font font_first font_last p r c cell s at ≡ q at
  unfolding draw_cell
  draw_cell-keeps r c cell q s fit hr hc =
      for_up-keeps (λ s. s at ≡ q at) 16 _
        (λ gy hy s h.
          draw_row-keeps (font (shown font font_first font_last cell.ch - font_first) gy)
            (p.pad + c * 8 * p.scale) (p.pad + r * 16 * p.scale + gy * p.scale)
            (get_or ol_rgb (cell.attr % 16) (bgr 0 0 0)) q s
            (λ gx hx.
              dot_within (c * 8 * p.scale) (gx * p.scale) (r * 16 * p.scale) (gy * p.scale) fit
                (block-le 8 c p.cols p.scale gx hc hx) (block-le 16 r p.rows p.scale gy hr hy))
            h)
        s

  draw_line-keeps :
      (r c : ℕ) (cells : List OlCell) (q s : Pixels)
      → Fitting p
      → r < p.rows
      → s at ≡ q at
      → draw_line font font_first font_last p r c cells s at ≡ q at
  unfolding draw_line
  draw_line-keeps r c [] q s fit hr h = h
  draw_line-keeps r c (cell ∷ cells) q s fit hr h =
      if-keeps at (not (ltb c p.cols) || cell.ch == 0) _ _ _ (λ _. h)
        (λ e.
          draw_line-keeps r (suc c) cells q _ fit hr
            (draw_cell-keeps r c cell q s fit hr (ground (arith, e)) h))

  draw_tail-keeps :
      (l : OlLog) (q s : Pixels)
      → Fitting p
      → s at ≡ q at
      → draw_tail font font_first font_last p l s at ≡ q at
  unfolding draw_tail
  draw_tail-keeps l q s fit =
      for_up-keeps (λ s. s at ≡ q at) p.rows _
        (λ r hr s h.
          if-keeps at (ltb (suc (length l.above) - p.rows + r) (suc (length l.above))) _ _ _
            (λ _. draw_line-keeps r 0 _ q s fit hr h) (λ _. h))
        s

at_most-le : (m n : ℕ) → (at_most m n ≤ m) × (at_most m n ≤ n)
at_most-le m n = (ground arith, ground arith)

text_area : (w pad f n : ℕ) → 2 * pad ≤ w → 2 * pad + at_most n ((w - 2 * pad) / f) * f ≤ w
text_area w pad f n h = omega (
  arith,
  h,
  div-mul-le_self (w - 2 * pad) f,
  mul-le-mul_right f (at_most-le n ((w - 2 * pad) / f)).1,
)

if-some : (b : Bool) (x p : Panel) → (if b then none else some x) ≡ some p → (b ≡ false) × (x ≡ p)
if-some true x p e = absurd (ground (arith, e))
if-some false x p e = (refl, some-injective x p e)

-- The panel that `ol_init` lays out is on the screen, and its text area has room for the rows and the columns.
record OnScreen (sw sh : ℕ) (p : Panel) : Type 0 where
  fitting : Fitting p
  across : p.x + p.w ≤ sw
  down : p.y + p.h ≤ sh

laid-OnScreen :
    (sw sh scale w h : ℕ)
    → sw < 2 ^ 26
    → sh < 2 ^ 26
    → w ≡ u32 (sw * 30) / 100
    → h ≡ u32 (sh * 44) / 100
    → (leb w (2 * (12 * scale) + 8 * scale) || leb h (2 * (12 * scale) + 16 * scale)) ≡ false
    → OnScreen sw sh (record {
      scale = scale;
      pad = 12 * scale;
      w = w;
      h = h;
      x = u32 (sw * 2) / 100;
      y = u32 (sh + 2 ^ 33 - u32 (sh * 3) / 100 - h);
      cols = at_most ol_cols ((w - 2 * (12 * scale)) / (8 * scale));
      rows = at_most ol_rows ((h - 2 * (12 * scale)) / (16 * scale));
    })
laid-OnScreen sw sh scale w h hw hh ew eh room =
    let wide : 2 * (12 * scale) ≤ w = ground (arith, room) in
    let high : 2 * (12 * scale) ≤ h = ground (arith, room) in
    record {
      fitting = record {
        across = text_area w (12 * scale) (8 * scale) ol_cols wide;
        down = text_area h (12 * scale) (16 * scale) ol_rows high;
      };
      across = omega (arith, hw, ew);
      down = omega (arith, hh, eh);
    }

ol_init-OnScreen :
    (sw sh : ℕ) (p : Panel) → sw < 2 ^ 26 → sh < 2 ^ 26 → ol_init sw sh ≡ some p → OnScreen sw sh p
unfolding ol_init
ol_init-OnScreen sw sh p hw hh e =
    let (room, same) = if-some _ _ p e in
    subst (OnScreen sw sh) same (laid-OnScreen sw sh _ _ _ hw hh refl refl room)

-- The panel that ol_init lays out lies on the screen, of fewer than 2^26 columns and rows, and whatever
-- the log holds and whatever the glyphs are, the text that ol_flush paints changes no pixel of the
-- padding around the text, nor one below the panel: they are the glass and the border.
pub ol_flush-padding :
    (font : ℕ → ℕ → ℕ) (font_first font_last : ℕ) (sw sh : ℕ) (frame q : Pixels) (l : OlLog)
    (p : Panel) (x y : ℕ)
    → sw < 2 ^ 26
    → sh < 2 ^ 26
    → ol_init sw sh ≡ some p
    → x < p.w
    → (x < p.pad) ⊎ (p.w ≤ x + p.pad) ⊎ (y < p.pad) ⊎ (p.h ≤ y + p.pad)
    → (p.x + p.w ≤ sw)
      × (p.y + p.h ≤ sh)
      × (ol_flush font font_first font_last sw frame p l q (y * p.w + x)
          ≡ draw_border p (draw_glass sw frame p q) (y * p.w + x))
unfolding ol_flush
ol_flush-padding font font_first font_last sw sh frame q l p x y hw hh e hx out =
    let placed = ol_init-OnScreen sw sh p hw hh e in
    (
      placed.across,
      placed.down,
      draw_tail-keeps font font_first font_last p x y hx out l
          (draw_border p (draw_glass sw frame p q)) _ placed.fitting refl,
    )
