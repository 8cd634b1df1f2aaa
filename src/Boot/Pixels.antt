-- ===== src/Boot/Pixels.antt =====
-- The buffers of pixels that src/efi/boot.c paints in: a function of the index, row by row. A loop that
-- counts up to a bound keeps what each of its steps keeps.
use native.Mathlib.Nat.{mul-add-div_right, mul-add-mod_self_right, div-eq_of_lt, mod-eq_of_lt}
use mathlib.Core.Path.{ap, subst}
use sacabambaspos.Base.{
  ℕ, zero, suc, ◌+◌, ◌*◌, ◌/◌, ◌%◌, ◌<◌, ◌≡◌, ◌≢◌, ◌∙◌, ◌⊎◌, inl, inr, refl, sym, arith, Bool, true,
  false, ltb, ◌==◌, if◌then◌else◌,
}

abbrev pub at_least : ℕ → ℕ → ℕ
at_least m n = if ltb n m then m else n

pub record Pixel : Type 0 where
  pub blue : ℕ
  pub green : ℕ
  pub red : ℕ
  pub reserved : ℕ

abbrev pub bgr : ℕ → ℕ → ℕ → Pixel
bgr b g r = record { blue = b; green = g; red = r; reserved = 0 }

abbrev pub Pixels : Type 0
Pixels = ℕ → Pixel

unfoldable pub set_pixel : ℕ → Pixel → Pixels → Pixels
set_pixel i v q j = if j == i then v else q j

unfoldable pub for_up {ℓ} : {A : Type ℓ} → ℕ → (ℕ → A → A) → A → A
for_up zero f a = a
for_up (suc n) f a = f n (for_up n f a)

pub for_up-keeps {ℓ ℓ'} :
    {A : Type ℓ} (P : A → Type ℓ') (n : ℕ) (f : ℕ → A → A)
    → ((i : ℕ) → i < n → (a : A) → P a → P (f i a))
    → (a : A) → P a
    → P (for_up n f a)
unfolding for_up
for_up-keeps P zero f keep a h = h
for_up-keeps P (suc n) f keep a h =
    keep n (omega arith) _ (for_up-keeps P n f (λ i lt. keep i (omega arith)) a h)

column : (w x y : ℕ) → x < w → (y * w + x) % w ≡ x
column w x y h = mul-add-mod_self_right y w x ∙ mod-eq_of_lt h

line : (w x y : ℕ) → x < w → (y * w + x) / w ≡ y
line w x y h =
    mul-add-div_right (omega (arith, h)) y x ∙ ap (λ d. y + d) (div-eq_of_lt h) ∙ omega arith

pub set_pixel-other : (i j : ℕ) (v : Pixel) (q : Pixels) → j ≢ i → set_pixel i v q j ≡ q j
unfolding set_pixel
set_pixel-other i j v q h = ground (arith, h)

-- Two indices that agree have the same column and row.
pub coordinates : (w x y x' y' : ℕ) → x < w → x' < w → y * w + x ≡ y' * w + x' → (x ≡ x') × (y ≡ y')
coordinates w x y x' y' h h' e = (
  sym (column w x y h) ∙ ap (λ n. n % w) e ∙ column w x' y' h',
  sym (line w x y h) ∙ ap (λ n. n / w) e ∙ line w x' y' h',
)

pub if-keeps :
    (i : ℕ) (b : Bool) (r s : Pixels) (v : Pixel)
    → (b ≡ true → r i ≡ v)
    → (b ≡ false → s i ≡ v)
    → (if b then r else s) i ≡ v
if-keeps i true r s v f g = f refl
if-keeps i false r s v f g = g refl

-- One step does it, and no step undoes it.
pub for_up-hits {ℓ ℓ'} :
    {A : Type ℓ} (P : A → Type ℓ') (n : ℕ) (f : ℕ → A → A) (k : ℕ)
    → k < n
    → ((a : A) → P (f k a))
    → ((i : ℕ) → i < n → (a : A) → P a → P (f i a))
    → (a : A) → P (for_up n f a)
unfolding for_up
for_up-hits P zero f k lt hit keep a = absurd (omega arith)
for_up-hits P (suc n) f k lt hit keep a = elim (last) [
  | inl same ↦ subst (λ i. P (f i (for_up n f a))) same (hit (for_up n f a))
  | inr before ↦
      keep n (omega arith) _ (for_up-hits P n f k before hit (λ i le. keep i (omega arith)) a)
]
  where
    last : (k ≡ n) ⊎ (k < n)
    last = omega (arith, lt)
