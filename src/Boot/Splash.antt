-- ===== src/Boot/Splash.antt =====
-- src/efi/boot.c, the splash: the picture scaled to the screen (`draw`) and the text over it (`draw_text`,
-- `draw_title`, `draw_version`), composed in a buffer of pixels, which is a function of the index.
use sacabambaspos.Base.{
  ℕ, zero, suc, ◌+◌, ◌-◌, ◌*◌, ◌/◌, ◌^◌, Bool, true, false, not, ◌&&◌, ◌||◌, Option, none, some,
  List, [], ◌∷◌, length, get_or, ltb, leb, ◌==◌, if◌then◌else◌, at_most, u32, test_bit, bytes,
}
use sacabambaspos.Boot.Pixels.{Pixel, Pixels, bgr, set_pixel, at_least, for_up}
pub mod Boxes
pub mod Fish

-- The size of the picture of `iw` by `ih` on the screen of `sw` by `sh`.
unfoldable pub scaled : ℕ → ℕ → ℕ → ℕ → ℕ × ℕ
scaled iw ih sw sh =
    if leb (iw * sh) (ih * sw)
    then (at_least 1 (iw * sh / ih), at_least 1 sh)
    else (at_least 1 sw, at_least 1 (ih * sw / iw))

-- The nearest of `n` pixels of the picture for pixel `d` of `dn`.
unfoldable pub nearest : ℕ → ℕ → ℕ → ℕ
nearest n dn d = at_most (n - 1) (d * n / dn)

-- `asset` is the picture, row by row, in as many pixels as `iw * ih`.
unfoldable pub draw_fish : ℕ → ℕ → ℕ → ℕ → Pixels → Pixels → Pixels
draw_fish iw ih sw sh asset =
    let (dw, dh) = scaled iw ih sw sh in
    let ox = (sw - dw) / 2 in
    let oy = (sh - dh) / 2 in
    for_up dh (λ dy. for_up dw (λ dx.
      set_pixel ((oy + dy) * sw + ox + dx) (asset (nearest ih dh dy * iw + nearest iw dw dx))))

pub record Glyph : Type 0 where
  pub c : ℕ
  pub rows : List ℕ

abbrev pub glyphs : List Glyph
glyphs =
    record { c = b'0'; rows = 0x3C ∷ 0x66 ∷ 0x6E ∷ 0x76 ∷ 0x66 ∷ 0x66 ∷ 0x3C ∷ 0x00 ∷ [] }
    ∷ record { c = b'1'; rows = 0x18 ∷ 0x38 ∷ 0x18 ∷ 0x18 ∷ 0x18 ∷ 0x18 ∷ 0x7E ∷ 0x00 ∷ [] }
    ∷ record { c = b'2'; rows = 0x3C ∷ 0x66 ∷ 0x06 ∷ 0x0C ∷ 0x18 ∷ 0x30 ∷ 0x7E ∷ 0x00 ∷ [] }
    ∷ record { c = b'3'; rows = 0x3C ∷ 0x66 ∷ 0x06 ∷ 0x1C ∷ 0x06 ∷ 0x66 ∷ 0x3C ∷ 0x00 ∷ [] }
    ∷ record { c = b'4'; rows = 0x0C ∷ 0x1C ∷ 0x3C ∷ 0x6C ∷ 0x7E ∷ 0x0C ∷ 0x0C ∷ 0x00 ∷ [] }
    ∷ record { c = b'5'; rows = 0x7E ∷ 0x60 ∷ 0x7C ∷ 0x06 ∷ 0x06 ∷ 0x66 ∷ 0x3C ∷ 0x00 ∷ [] }
    ∷ record { c = b'6'; rows = 0x3C ∷ 0x66 ∷ 0x60 ∷ 0x7C ∷ 0x66 ∷ 0x66 ∷ 0x3C ∷ 0x00 ∷ [] }
    ∷ record { c = b'7'; rows = 0x7E ∷ 0x06 ∷ 0x0C ∷ 0x18 ∷ 0x30 ∷ 0x30 ∷ 0x30 ∷ 0x00 ∷ [] }
    ∷ record { c = b'8'; rows = 0x3C ∷ 0x66 ∷ 0x66 ∷ 0x3C ∷ 0x66 ∷ 0x66 ∷ 0x3C ∷ 0x00 ∷ [] }
    ∷ record { c = b'9'; rows = 0x3C ∷ 0x66 ∷ 0x66 ∷ 0x3E ∷ 0x06 ∷ 0x66 ∷ 0x3C ∷ 0x00 ∷ [] }
    ∷ record { c = b'.'; rows = 0x00 ∷ 0x00 ∷ 0x00 ∷ 0x00 ∷ 0x00 ∷ 0x18 ∷ 0x18 ∷ 0x00 ∷ [] }
    ∷ record { c = b'v'; rows = 0x00 ∷ 0x00 ∷ 0x66 ∷ 0x66 ∷ 0x66 ∷ 0x3C ∷ 0x18 ∷ 0x00 ∷ [] }
    ∷ record { c = b'S'; rows = 0x3C ∷ 0x66 ∷ 0x60 ∷ 0x3C ∷ 0x06 ∷ 0x66 ∷ 0x3C ∷ 0x00 ∷ [] }
    ∷ record { c = b'O'; rows = 0x3C ∷ 0x66 ∷ 0x66 ∷ 0x66 ∷ 0x66 ∷ 0x66 ∷ 0x3C ∷ 0x00 ∷ [] }
    ∷ record { c = b'a'; rows = 0x00 ∷ 0x00 ∷ 0x3C ∷ 0x06 ∷ 0x3E ∷ 0x66 ∷ 0x3E ∷ 0x00 ∷ [] }
    ∷ record { c = b'b'; rows = 0x60 ∷ 0x60 ∷ 0x7C ∷ 0x66 ∷ 0x66 ∷ 0x66 ∷ 0x7C ∷ 0x00 ∷ [] }
    ∷ record { c = b'c'; rows = 0x00 ∷ 0x00 ∷ 0x3C ∷ 0x66 ∷ 0x60 ∷ 0x66 ∷ 0x3C ∷ 0x00 ∷ [] }
    ∷ record { c = b'm'; rows = 0x00 ∷ 0x00 ∷ 0x66 ∷ 0x7F ∷ 0x6B ∷ 0x6B ∷ 0x63 ∷ 0x00 ∷ [] }
    ∷ record { c = b'p'; rows = 0x00 ∷ 0x00 ∷ 0x7C ∷ 0x66 ∷ 0x66 ∷ 0x7C ∷ 0x60 ∷ 0x60 ∷ [] }
    ∷ record { c = b's'; rows = 0x00 ∷ 0x00 ∷ 0x3E ∷ 0x60 ∷ 0x3C ∷ 0x06 ∷ 0x7C ∷ 0x00 ∷ [] }
    ∷ []

unfoldable pub glyph_in : List Glyph → ℕ → Option (List ℕ)
glyph_in [] c = none
glyph_in (g ∷ gs) c = let later = glyph_in gs c in if g.c == c then some g.rows else later

unfoldable pub glyph : ℕ → Option (List ℕ)
glyph = glyph_in glyphs

unfoldable pub text_box_w : ℕ → ℕ → ℕ
text_box_w len scale = u32 ((len * 8 + 4) * scale)

unfoldable pub text_box_h : ℕ → ℕ
text_box_h scale = u32 (12 * scale)

-- Where a text goes: the frame, the text's scale and corner, and the first index that is drawn cyan.
pub record Place : Type 0 where
  pub fw : ℕ
  pub fh : ℕ
  pub scale : ℕ
  pub x0 : ℕ
  pub y0 : ℕ
  pub accent_at : ℕ

-- A pixel of the text, clipped to the box of `w` by `h`.
unfoldable pub set_clipped : Place → ℕ → ℕ → ℕ → ℕ → Pixel → Pixels → Pixels
set_clipped p w h x y col q =
    if ltb x w && ltb y h then set_pixel (u32 (p.y0 + y) * p.fw + p.x0 + x) col q else q

unfoldable pub draw_bits : Place → ℕ → ℕ → ℕ → ℕ → ℕ → ℕ → Pixel → Pixels → Pixels
draw_bits p w h off ci gy bits col q =
    if bits == 0
    then q
    else for_up 8
        (λ gx r.
          if not (test_bit bits (7 - gx))
          then r
          else for_up p.scale
              (λ py. for_up p.scale (λ px.
                set_clipped p w h (u32 (2 * p.scale + ci * 8 * p.scale + gx * p.scale + px + off))
                  (u32 (2 * p.scale + gy * p.scale + py + off)) col))
              r)
        q

unfoldable pub draw_glyph : Place → ℕ → ℕ → ℕ → ℕ → Option (List ℕ) → Pixel → Pixels → Pixels
draw_glyph p w h off ci none col q = q
draw_glyph p w h off ci (some rows) col q =
    for_up 8 (λ gy. draw_bits p w h off ci gy (get_or rows gy 0) col) q

abbrev pub shadow : Pixel
shadow = bgr 10 16 28

-- The shadow, `true`, or the coloured text, `false`.
unfoldable pub draw_pass : Place → List ℕ → ℕ → ℕ → Bool → Pixels → Pixels
draw_pass p s w h under =
    let off = if not under then 0 else if ltb 3 p.scale then p.scale / 3 else 1 in
    for_up (length s) (λ ci.
      draw_glyph p w h off ci (glyph (get_or s ci 0))
        (if under then shadow else if leb p.accent_at ci then bgr 255 255 0 else bgr 255 255 255))

unfoldable pub draw_text : Place → List ℕ → Pixels → Pixels
draw_text p s q =
    let w = text_box_w (length s) p.scale in
    let h = text_box_h p.scale in
    if ltb p.fw (u32 (p.x0 + w)) || ltb p.fh (u32 (p.y0 + h))
    then q
    else draw_pass p s w h false (draw_pass p s w h true q)

-- `while(scale>2 && (len*8+8)*scale > fw) scale--;`
unfoldable pub shrink : ℕ → ℕ → ℕ → ℕ
shrink len fw zero = zero
shrink len fw (suc scale) =
    let smaller = shrink len fw scale in
    if ltb 1 scale && ltb fw (u32 ((len * 8 + 8) * suc scale)) then smaller else suc scale

abbrev pub sbos_version : List ℕ
sbos_version = bytes "v0.4.0"

abbrev pub sbos_name : List ℕ
sbos_name = bytes "SacabambaspOS"

unfoldable pub draw_version : ℕ → ℕ → Pixels → Pixels
draw_version fw fh q =
    let len = length sbos_version in
    let scale = shrink len fw (at_most 12 (at_least 2 (fh / 120))) in
    let w = text_box_w len scale in
    let h = text_box_h scale in
    let margin = 4 * scale in
    if ltb fw (u32 (w + margin)) || ltb fh (u32 (h + margin))
    then q
    else draw_text
        (record {
          fw = fw;
          fh = fh;
          scale = scale;
          x0 = fw - w - margin;
          y0 = fh - h - margin;
          accent_at = 2 ^ 64 - 1;
        })
        sbos_version q

unfoldable pub draw_title : ℕ → ℕ → Pixels → Pixels
draw_title fw fh q =
    let len = length sbos_name in
    let scale = shrink len fw (at_most 16 (at_least 2 (fh / 80))) in
    let w = text_box_w len scale in
    let h = text_box_h scale in
    let margin = 2 * scale in
    if ltb fw (u32 (w + margin)) || ltb fh (u32 (h + margin))
    then q
    else draw_text
        (record {
          fw = fw;
          fh = fh;
          scale = scale;
          x0 = if ltb (u32 (w / 2 + margin)) (fw / 4) then fw / 4 - w / 2 else margin;
          y0 = margin;
          accent_at = len - 2;
        })
        sbos_name q

-- The whole frame, as it is when there is room for it.
unfoldable pub draw_frame : ℕ → ℕ → ℕ → ℕ → Pixels → Pixels → Pixels
draw_frame iw ih sw sh asset q = draw_version sw sh (
    draw_title sw sh
      (draw_fish iw ih sw sh asset (for_up (sw * sh) (λ i. set_pixel i (bgr 30 12 6)) q)))
