-- ===== src/Boot/Splash/Boxes.antt =====
-- The text on the splash (src/efi/boot.c, `draw_text`) keeps to its box.
use native.Mathlib.Nat.{mod-eq_of_lt}
use mathlib.Core.Path.{ap}
use sacabambaspos.Base.{
  ◌==◌, ℕ, ◌+◌, ◌-◌, ◌*◌, ◌^◌, ◌≤◌, ◌<◌, ◌≡◌, ◌≢◌, ◌⊎◌, ◌∙◌, refl, arith, Bool, true, false, not,
  ◌&&◌, ◌||◌, Option, none, some, List, length, get_or, ltb, u32, test_bit,
}
use sacabambaspos.Boot.Pixels.{Pixel, Pixels, for_up-keeps, coordinates, set_pixel-other, if-keeps}
use sacabambaspos.Boot.Splash.{
  Place, set_clipped, draw_bits, draw_glyph, draw_pass, draw_text, glyph, text_box_w, text_box_h,
}

module _ (p : Place) (w h X Y : ℕ) (hX : X < p.fw) (fits_x : p.x0 + w ≤ p.fw)
    (fits_y : p.y0 + h < 2 ^ 32)
    (out : (X < p.x0) ⊎ (p.x0 + w ≤ X) ⊎ (Y < p.y0) ⊎ (p.y0 + h ≤ Y)) where
  abbrev at : ℕ
  at = Y * p.fw + X

  set_clipped-keeps :
      (x y : ℕ) (col : Pixel) (v : Pixel) (q : Pixels)
      → q at ≡ v
      → set_clipped p w h x y col q at ≡ v
  unfolding set_clipped
  set_clipped-keeps x y col v q e =
      if-keeps at (ltb x w && ltb y h) _ _ v
        (λ inside.
          set_pixel-other _ at col q (apart x y (ground (arith, inside)) (ground (arith, inside)))
          ∙ e)
        (λ _. e)
    where
      unwrapped : {n : ℕ} → n < 2 ^ 32 → u32 n ≡ n
      unwrapped h = mod-eq_of_lt h

      apart : (x y : ℕ) → x < w → y < h → at ≢ u32 (p.y0 + y) * p.fw + p.x0 + x
      apart x y hx hy e =
          let same : Y * p.fw + X ≡ (p.y0 + y) * p.fw + (p.x0 + x) =
            e ∙ ap (λ r. r * p.fw + p.x0 + x) (unwrapped (omega arith)) ∙ omega arith in
          let (cx, cy) = coordinates p.fw X Y (p.x0 + x) (p.y0 + y) hX (omega arith) same in
          omega (arith, cx, cy, out, hx, hy)

  draw_bits-keeps :
      (off ci gy bits : ℕ) (col v : Pixel) (q : Pixels)
      → q at ≡ v
      → draw_bits p w h off ci gy bits col q at ≡ v
  unfolding draw_bits
  draw_bits-keeps off ci gy bits col v q e =
      if-keeps at (bits == 0) _ _ v (λ _. e)
        (λ _.
          for_up-keeps (λ r. r at ≡ v) 8 _
            (λ gx _ r e.
              if-keeps at (not (test_bit bits (7 - gx))) _ _ v (λ _. e)
                (λ _.
                  for_up-keeps (λ r. r at ≡ v) p.scale _
                    (λ py _.
                      for_up-keeps (λ r. r at ≡ v) p.scale _
                        (λ px _ r. set_clipped-keeps _ _ col v r))
                    r e))
            q e)

  draw_glyph-keeps :
      (off ci : ℕ) (rows : Option (List ℕ)) (col v : Pixel) (q : Pixels)
      → q at ≡ v
      → draw_glyph p w h off ci rows col q at ≡ v
  unfolding draw_glyph
  draw_glyph-keeps off ci none col v q e = e
  draw_glyph-keeps off ci (some rows) col v q e =
      for_up-keeps (λ r. r at ≡ v) 8 _
        (λ gy _ r. draw_bits-keeps off ci gy (get_or rows gy 0) col v r) q e

  draw_pass-keeps :
      (s : List ℕ) (under : Bool) (v : Pixel) (q : Pixels)
      → q at ≡ v
      → draw_pass p s w h under q at ≡ v
  unfolding draw_pass
  draw_pass-keeps s under v q e =
      for_up-keeps (λ r. r at ≡ v) (length s) _
        (λ ci _ r. draw_glyph-keeps _ ci (glyph (get_or s ci 0)) _ v r) q e

-- Where the box of a text does not wrap around, draw_text changes no pixel of the frame outside of it, and
-- none at all when the box is not inside the frame.
pub draw_text-box :
    (p : Place) (s : List ℕ) (q : Pixels) (x y : ℕ)
    → p.x0 + text_box_w (length s) p.scale < 2 ^ 32
    → p.y0 + text_box_h p.scale < 2 ^ 32
    → x < p.fw
    → (x < p.x0)
      ⊎ (p.x0 + text_box_w (length s) p.scale ≤ x)
      ⊎ (y < p.y0)
      ⊎ (p.y0 + text_box_h p.scale ≤ y)
      ⊎ (p.fw < p.x0 + text_box_w (length s) p.scale)
      ⊎ (p.fh < p.y0 + text_box_h p.scale)
    → draw_text p s q (y * p.fw + x) ≡ q (y * p.fw + x)
unfolding draw_text
draw_text-box p s q x y hw hh hx out =
    if-keeps (y * p.fw + x) (ltb p.fw (u32 (p.x0 + w)) || ltb p.fh (u32 (p.y0 + h))) _ _
      (q (y * p.fw + x)) (λ _. refl)
      (λ fits.
        let across : p.x0 + w ≤ p.fw = ground (arith, fits, hw) in
        let down : p.y0 + h ≤ p.fh = ground (arith, fits, hh) in
        let beside : (x < p.x0) ⊎ (p.x0 + w ≤ x) ⊎ (y < p.y0) ⊎ (p.y0 + h ≤ y) =
          omega (arith, out, across, down) in
        draw_pass-keeps p w h x y hx across hh beside s false (q (y * p.fw + x)) _
          (draw_pass-keeps p w h x y hx across hh beside s true (q (y * p.fw + x)) q refl))
  where
    w : ℕ
    w = text_box_w (length s) p.scale

    h : ℕ
    h = text_box_h p.scale
