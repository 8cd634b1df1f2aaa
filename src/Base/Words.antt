-- ===== src/Base/Words.antt =====
-- Machine words as native numbers. A `w`-bit value is a number below `2 ^ w`; casts and wrap-around
-- are written out. `&` and `|` are the native operations; here are their laws.
use Prim.Native.Nat.{ℕ, zero, suc, ◌+◌, ◌-◌, ◌*◌, ◌/◌, ◌%◌, ◌^◌, ◌≤◌, ◌<◌, min, max}
use Prim.Native.Nat.{bit_and, bit_or, digits, bitwise, bit_and-bitwise, bit_or-bitwise}
use mathlib.Core.Path.{◌≡◌, refl, ap, ap₂, sym, subst}
use mathlib.Core.Bool.{Bool, ◌&&◌, ◌||◌}
use native.Mathlib.Nat.{le_refl, pow-suc, one-le-pow, div-div-eq-div-mul, pow-succ'}
use native.Mathlib.Omega.{arith}
use sacabambaspos.Base.Tests.{◌==◌}

abbrev pub u8 : ℕ → ℕ
u8 n = n % 2 ^ 8

abbrev pub u16 : ℕ → ℕ
u16 n = n % 2 ^ 16

abbrev pub u32 : ℕ → ℕ
u32 n = n % 2 ^ 32

abbrev pub u64 : ℕ → ℕ
u64 n = n % 2 ^ 64

-- `a - b` on 64-bit values.
abbrev pub sub64 : ℕ → ℕ → ℕ
sub64 a b = (a + 2 ^ 64 - b) % 2 ^ 64

-- `x & (1 << k)` as a condition.
abbrev pub test_bit : ℕ → ℕ → Bool
test_bit x k = (x / 2 ^ k % 2) == 1

-- The native operations stand for a recursion on binary digits with fuel. More fuel changes nothing.
module _ (z : ℕ → ℕ) (f : ℕ → ℕ → ℕ) where
  fuel_irrelevant : (m n a b : ℕ) → a ≤ m → a ≤ n → digits z f m a b ≡ digits z f n a b
  fuel_irrelevant zero zero a b p q = refl
  fuel_irrelevant zero (suc n) zero b p q = refl
  fuel_irrelevant zero (suc n) (suc a) b p q = absurd (omega arith)
  fuel_irrelevant (suc m) zero zero b p q = refl
  fuel_irrelevant (suc m) zero (suc a) b p q = absurd (omega arith)
  fuel_irrelevant (suc m) (suc n) zero b p q = refl
  fuel_irrelevant (suc m) (suc n) (suc a) b p q =
      rw (fuel_irrelevant m n (suc a / 2) (b / 2) (omega arith) (omega arith))

  lowest_digit :
      (a b : ℕ)
      → bitwise z f (suc a) b ≡ bitwise z f (suc a / 2) (b / 2) * 2 + f (suc a % 2) (b % 2)
  lowest_digit a b =
      omega (arith, fuel_irrelevant a (suc a / 2) (suc a / 2) (b / 2) (omega arith) (le_refl _))

pub bit_or_digit : (a b : ℕ) → bit_or a b ≡ bit_or (a / 2) (b / 2) * 2 + max (a % 2) (b % 2)
bit_or_digit zero b = simp bit_or-bitwise (omega arith)
bit_or_digit (suc a) b = simp bit_or-bitwise (lowest_digit (λ y. y) max a b)

pub bit_and_digit : (a b : ℕ) → bit_and a b ≡ bit_and (a / 2) (b / 2) * 2 + min (a % 2) (b % 2)
bit_and_digit zero b = simp bit_and-bitwise (omega arith)
bit_and_digit (suc a) b = simp bit_and-bitwise (lowest_digit (λ y. 0) min a b)

pub bit_or-half : (a b : ℕ) → bit_or a b / 2 ≡ bit_or (a / 2) (b / 2)
bit_or-half a b = omega (arith, bit_or_digit a b)

pub bit_and-half : (a b : ℕ) → bit_and a b / 2 ≡ bit_and (a / 2) (b / 2)
bit_and-half a b = omega (arith, bit_and_digit a b)

pub bit_or-odd : (a b : ℕ) → bit_or a b % 2 ≡ max (a % 2) (b % 2)
bit_or-odd a b = omega (arith, bit_or_digit a b)

pub bit_and-odd : (a b : ℕ) → bit_and a b % 2 ≡ min (a % 2) (b % 2)
bit_and-odd a b = omega (arith, bit_and_digit a b)

no_common_bits : (fuel x : ℕ) → x ≤ fuel → bit_and x zero ≡ zero
no_common_bits zero x enough = subst (λ y. bit_and y zero ≡ zero) (empty_word x enough) refl
  where
    empty_word : (y : ℕ) → y ≤ 0 → 0 ≡ y
    empty_word y low = omega arith
no_common_bits (suc fuel) zero enough = refl
no_common_bits (suc fuel) (suc x) enough =
    omega (arith, no_common_bits fuel (suc x / 2) (omega arith), bit_and_digit (suc x) 0)

pub bit_and-zero : (a : ℕ) → bit_and a 0 ≡ 0
bit_and-zero a = no_common_bits a a (le_refl a)

bit_or-zero_fuel : (n a : ℕ) → a ≤ n → bit_or a 0 ≡ a
bit_or-zero_fuel n zero h = refl
bit_or-zero_fuel zero (suc a) h = absurd (omega arith)
bit_or-zero_fuel (suc n) (suc a) h =
    omega (arith, bit_or_digit (suc a) 0, bit_or-zero_fuel n (suc a / 2) (omega arith))

pub bit_or-zero : (a : ℕ) → bit_or a 0 ≡ a
bit_or-zero a = bit_or-zero_fuel a a (le_refl a)

pub zero-bit_and : (b : ℕ) → bit_and 0 b ≡ 0
zero-bit_and b = bit_and-bitwise 0 b

eq_of_halves : (x y : ℕ) → x / 2 ≡ y / 2 → x % 2 ≡ y % 2 → x ≡ y
eq_of_halves x y p q = omega arith

distrib_fuel :
    (n a b m : ℕ) → a + b ≤ n → bit_and (bit_or a b) m ≡ bit_or (bit_and a m) (bit_and b m)
distrib_fuel zero zero zero m h = rw zero-bit_and
distrib_fuel zero zero (suc b) m h = absurd (omega arith)
distrib_fuel zero (suc a) b m h = absurd (omega arith)
distrib_fuel (suc n) a b m h =
    eq_of_halves _ _
      (rw (bit_and-half, bit_or-half a b, bit_or-half, bit_and-half, bit_and-half)
        (distrib_fuel n (a / 2) (b / 2) (m / 2) (omega arith)))
      (omega (
        arith,
        bit_and-odd (bit_or a b) m,
        bit_or-odd a b,
        bit_or-odd (bit_and a m) (bit_and b m),
        bit_and-odd a m,
        bit_and-odd b m,
      ))

-- `(a | b) & m` is `(a & m) | (b & m)`.
pub bit_and-bit_or : (a b m : ℕ) → bit_and (bit_or a b) m ≡ bit_or (bit_and a m) (bit_and b m)
bit_and-bit_or a b m = distrib_fuel (a + b) a b m (le_refl _)

twice-mul : (q k : ℕ) → q * 2 ^ suc k ≡ 2 * (q * 2 ^ k)
twice-mul q k = omega (arith, ap (λ (t : ℕ). q * t) (pow-suc 2 k))

half-twice-add : (x r : ℕ) → (2 * x + r) / 2 ≡ x + r / 2
half-twice-add x r = omega arith

low_fields : (k q r : ℕ) → r < 2 ^ k → bit_and (q * 2 ^ k + r) (2 ^ k - 1) ≡ r
low_fields zero q r h = rw bit_and-zero (omega arith)
low_fields (suc k) q r h =
    eq_of_halves _ _
      (rw (
        bit_and-half,
        twice-mul q k,
        half-twice-add (q * 2 ^ k) r,
        mask_half,
        low_fields k q (r / 2) (omega (arith, pow-suc 2 k)),
      ))
      (omega (
        arith,
        bit_and-odd (q * 2 ^ suc k + r) (2 ^ suc k - 1),
        twice-mul q k,
        pow-suc 2 k,
        one-le-pow k 2,
      ))
  where
    mask_half : (2 ^ suc k - 1) / 2 ≡ 2 ^ k - 1
    mask_half = omega (arith, pow-suc 2 k, one-le-pow k 2)

-- `a & (2^k - 1)` keeps the low `k` bits.
pub bit_and_low : (k a : ℕ) → bit_and a (2 ^ k - 1) ≡ a % 2 ^ k
bit_and_low k a =
    subst (λ t. bit_and t (2 ^ k - 1) ≡ a % 2 ^ k) split
      (low_fields k (a / 2 ^ k) (a % 2 ^ k) (omega (arith, one-le-pow k 2)))
  where
    split : a / 2 ^ k * 2 ^ k + a % 2 ^ k ≡ a
    split = omega arith

-- `&` commutes with a shift to the left of both sides.
pub bit_and-shifted : (k a b : ℕ) → bit_and (a * 2 ^ k) (b * 2 ^ k) ≡ bit_and a b * 2 ^ k
bit_and-shifted zero a b = omega (arith, ap₂ bit_and (one a) (one b))
  where
    one : (x : ℕ) → x * 2 ^ 0 ≡ x
    one x = omega arith
bit_and-shifted (suc k) a b =
    eq_of_halves _ _
      (rw (
        bit_and-half,
        twice-mul a k,
        twice-mul b k,
        twice-mul (bit_and a b) k,
        half_twice (a * 2 ^ k),
        half_twice (b * 2 ^ k),
        half_twice (bit_and a b * 2 ^ k),
        bit_and-shifted k a b,
      ))
      (omega (
        arith,
        bit_and-odd (a * 2 ^ suc k) (b * 2 ^ suc k),
        twice-mul a k,
        twice-mul b k,
        twice-mul (bit_and a b) k,
      ))
  where
    half_twice : (x : ℕ) → 2 * x / 2 ≡ x
    half_twice x = omega arith

halve-pow : (k x : ℕ) → x / 2 ^ suc k ≡ x / 2 / 2 ^ k
halve-pow k x = rw (pow-succ') (sym (div-div-eq-div-mul x 2 (2 ^ k)))

bit_value-bit_or : (k a b : ℕ) → bit_or a b / 2 ^ k % 2 ≡ max (a / 2 ^ k % 2) (b / 2 ^ k % 2)
bit_value-bit_or zero a b = omega (arith, bit_or-odd a b)
bit_value-bit_or (suc k) a b =
    rw (halve-pow k (bit_or a b), halve-pow k a, halve-pow k b, bit_or-half a b)
      (bit_value-bit_or k (a / 2) (b / 2))

bit_value-bit_and : (k a b : ℕ) → bit_and a b / 2 ^ k % 2 ≡ min (a / 2 ^ k % 2) (b / 2 ^ k % 2)
bit_value-bit_and zero a b = omega (arith, bit_and-odd a b)
bit_value-bit_and (suc k) a b =
    rw (halve-pow k (bit_and a b), halve-pow k a, halve-pow k b, bit_and-half a b)
      (bit_value-bit_and k (a / 2) (b / 2))

pub test_bit-bit_or : (a b k : ℕ) → test_bit (bit_or a b) k ≡ test_bit a k || test_bit b k
test_bit-bit_or a b k = ground (arith, bit_value-bit_or k a b)

pub test_bit-bit_and : (a b k : ℕ) → test_bit (bit_and a b) k ≡ test_bit a k && test_bit b k
test_bit-bit_and a b k = ground (arith, bit_value-bit_and k a b)
