-- ===== src/Boot/Splash/Fish.antt =====
-- The picture on the splash (src/efi/boot.c, `draw`) is on the screen, and each of its pixels is one of the
-- asset's.
use sacabambaspos.Base.{ℕ, ◌+◌, ◌*◌, ◌≤◌, ◌<◌, ◌≡◌, ◌⊎◌}
use sacabambaspos.Boot.Pixels.{Pixel, Pixels}

-- `d` is the length `s * a / b`, rounded down, and 1 at least.
abbrev pub IsScaled : ℕ → ℕ → ℕ → ℕ → Type 0
IsScaled a b s d = ((a * s < b) × (d ≡ 1)) ⊎ ((1 ≤ d) × (d * b ≤ a * s) × (a * s < d * b + b))

-- The largest size, up to rounding, of the shape of the picture that is within the screen: one side is the
-- screen's, and the other in proportion.
pub record IsFit (iw ih sw sh dw dh : ℕ) : Type 0 where
  pub across : (1 ≤ dw) × (dw ≤ sw)
  pub down : (1 ≤ dh) × (dh ≤ sh)
  pub shape : ((dh ≡ sh) × IsScaled iw ih sh dw) ⊎ ((dw ≡ sw) × IsScaled ih iw sw dh)

-- Pixel `d` of `dn` begins within pixel `k` of `n`, when both divide the same length.
abbrev pub IsNearest : ℕ → ℕ → ℕ → ℕ → Type 0
IsNearest n dn d k = (k * dn ≤ d * n) × (d * n < k * dn + dn)

-- A rectangle of `dw` by `dh` at (`ox`, `oy`) that is painted pixel by pixel.
module _ (sw dw dh ox oy : ℕ) (src : ℕ → ℕ → Pixel) (fits : ox + dw ≤ sw) (dx dy : ℕ) (hx : dx < dw)
    (hy : dy < dh) where
  abbrev Shown : Pixels → Type 0
  Shown q = q ((oy + dy) * sw + (ox + dx)) ≡ src dy dx
