-- ===== src/Console/Screen.antt =====
-- src/kernel/console.c: where the text grid lies on the screen (`con_init`), and which pixels a cell
-- covers (`render_cell`). The size of a glyph comes from a generated file and is a parameter, `fw` by
-- `fh`.
use native.Mathlib.Nat.{div-mul-le_self, mul-le-mul_right}
use sacabambaspos.Base.{
  ℕ, suc, ◌+◌, ◌-◌, ◌*◌, ◌/◌, ◌≤◌, ◌<◌, ◌≡◌, ◌⊎◌, refl, arith, Bool, true, false, not, ◌&&◌, inl,
  inr, ltb, leb, ◌==◌, if◌then◌else◌,
}

abbrev pub win_pad : ℕ
win_pad = 8

-- What `con_init` takes from the boot info: the screen, the splash and the panel.
pub record Screen : Type 0 where
  pub fbw : ℕ
  pub fbh : ℕ
  pub splash : ℕ
  pub pn_x : ℕ
  pub pn_y : ℕ
  pub pn_w : ℕ
  pub pn_h : ℕ

pub record Grid : Type 0 where
  pub windowed : Bool
  pub win_px : ℕ
  pub win_py : ℕ
  pub cols : ℕ
  pub rows : ℕ

-- A glyph of a cell that counts in `w / f` lies within `w`.
glyph-lt : (w f x gx : ℕ) → x < w / f → gx < f → x * f + gx < w
glyph-lt w f x gx hx hg = omega (arith, div-mul-le_self w f, mul-le-mul_right f hx, next)
  where
    next : suc x * f ≡ x * f + f
    next = grind arith

module _ (fw fh : ℕ) where
  -- Is there a panel that fits this mode?
  unfoldable pub want_win : Screen → Bool
  want_win s =
      not (s.splash == 0)
      && not (s.pn_w == 0)
      && not (s.pn_h == 0)
      && leb s.pn_w s.fbw
      && leb s.pn_h s.fbh
      && leb s.pn_x (s.fbw - s.pn_w)
      && leb s.pn_y (s.fbh - s.pn_h)
      && ltb (2 * win_pad + fw) s.pn_w
      && ltb (2 * win_pad + fh) s.pn_h

  -- `got` says whether there was room for the background of the panel.
  unfoldable pub grid : Bool → Screen → Grid
  grid got s =
      let windowed = want_win s && got in
      record {
        windowed = windowed;
        win_px = if windowed then s.pn_x + win_pad else 0;
        win_py = if windowed then s.pn_y + win_pad else 0;
        cols = (if windowed then s.pn_w - 2 * win_pad else s.fbw) / fw;
        rows = (if windowed then s.pn_h - 2 * win_pad else s.fbh) / fh;
      }

  -- The column and the row of pixel (`gx`, `gy`) of cell (`x`, `y`).
  abbrev pub pixel_x : Grid → ℕ → ℕ → ℕ
  pixel_x g x gx = g.win_px + x * fw + gx

  abbrev pub pixel_y : Grid → ℕ → ℕ → ℕ
  pixel_y g y gy = g.win_py + y * fh + gy

  -- Whatever the boot info holds, every pixel of every cell of the grid that `con_init` lays out is on the
  -- screen, and in panel mode it is in the panel.
  pub pixel-lt :
      (got : Bool) (s : Screen) (x y gx gy : ℕ)
      → let g = grid got s in
        x < g.cols
        → y < g.rows
        → gx < fw
        → gy < fh
        → (pixel_x g x gx < s.fbw)
          × (pixel_y g y gy < s.fbh)
          × ((g.windowed ≡ false)
              ⊎ ((s.pn_x ≤ pixel_x g x gx)
                  × (pixel_x g x gx < s.pn_x + s.pn_w)
                  × (s.pn_y ≤ pixel_y g y gy)
                  × (pixel_y g y gy < s.pn_y + s.pn_h)))
  unfolding want_win grid
  pixel-lt got s x y gx gy hx hy hgx hgy = on_screen (want_win s && got) (λ e. fits e) hx hy
    where
      fits :
          want_win s && got ≡ true
          → (s.pn_x + s.pn_w ≤ s.fbw) × (s.pn_y + s.pn_h ≤ s.fbh) × (16 < s.pn_w) × (16 < s.pn_h)
      fits e = (ground arith, ground arith, ground arith, ground arith)

      on_screen :
          (b : Bool)
          → (b ≡ true
              → (s.pn_x + s.pn_w ≤ s.fbw)
                × (s.pn_y + s.pn_h ≤ s.fbh)
                × (16 < s.pn_w)
                × (16 < s.pn_h))
          → x < (if b then s.pn_w - 2 * win_pad else s.fbw) / fw
          → y < (if b then s.pn_h - 2 * win_pad else s.fbh) / fh
          → ((if b then s.pn_x + win_pad else 0) + x * fw + gx < s.fbw)
            × ((if b then s.pn_y + win_pad else 0) + y * fh + gy < s.fbh)
            × ((b ≡ false)
                ⊎ ((s.pn_x ≤ (if b then s.pn_x + win_pad else 0) + x * fw + gx)
                    × ((if b then s.pn_x + win_pad else 0) + x * fw + gx < s.pn_x + s.pn_w)
                    × (s.pn_y ≤ (if b then s.pn_y + win_pad else 0) + y * fh + gy)
                    × ((if b then s.pn_y + win_pad else 0) + y * fh + gy < s.pn_y + s.pn_h)))
      on_screen false f cx cy = (
        omega (arith, glyph-lt s.fbw fw x gx cx hgx),
        omega (arith, glyph-lt s.fbh fh y gy cy hgy),
        inl refl,
      )
      on_screen true f cx cy =
          let a : x * fw + gx < s.pn_w - 2 * win_pad =
            glyph-lt (s.pn_w - 2 * win_pad) fw x gx cx hgx in
          let b : y * fh + gy < s.pn_h - 2 * win_pad =
            glyph-lt (s.pn_h - 2 * win_pad) fh y gy cy hgy in
          (
            omega (arith, f refl),
            omega (arith, f refl),
            inr (omega arith, omega (arith, f refl), omega arith, omega (arith, f refl)),
          )
