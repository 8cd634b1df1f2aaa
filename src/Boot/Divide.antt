-- ===== src/Boot/Divide.antt =====
-- src/efi/boot.c: the 64-bit division of the 32-bit loader.
use native.Mathlib.Nat.{pow-suc, div-div-eq-div-mul, mod-add-div', one-le-pow, mul-le-mul_right}
use sacabambaspos.Base.{
  ℕ, zero, suc, ◌+◌, ◌-◌, ◌*◌, ◌/◌, ◌%◌, ◌^◌, ◌≤◌, ◌<◌, ◌≡◌, refl, sym, ap, ◌∙◌, arith, bit_or,
  bit_or_digit, bit_or-zero, leb, if◌then◌else◌, Bool-cases, inl, inr, u64,
}
use sacabambaspos.Descriptors.Decode.{bit_or-add}

-- The rounds for the bits `i - 1` down to 0: the quotient and the remainder.
unfoldable pub divide_bits : ℕ → ℕ → ℕ → ℕ → ℕ → ℕ × ℕ
divide_bits zero n d q r = (q, r)
divide_bits (suc i) n d q r =
    let r' = bit_or (u64 (r * 2)) (n / 2 ^ i % 2) in
    let fits = leb d r' in
    divide_bits i n d (if fits then bit_or q (2 ^ i) else q) (if fits then r' - d else r')

unfoldable pub udivmod64 : ℕ → ℕ → ℕ × ℕ
unfolding divide_bits
udivmod64 n d = divide_bits 64 n d 0 0

bit_or-comm_fuel : (n a b : ℕ) → a + b ≤ n → bit_or a b ≡ bit_or b a
bit_or-comm_fuel zero a b h =
    let p : a ≡ 0 = omega arith in let q : b ≡ 0 = omega arith in rw (p, q) refl
bit_or-comm_fuel (suc n) a b h =
    omega
      (arith, bit_or_digit a b, bit_or_digit b a, bit_or-comm_fuel n (a / 2) (b / 2) (omega arith))

-- One bit below an even number.
bit_or-bit : (r b : ℕ) → b < 2 → bit_or (r * 2) b ≡ r * 2 + b
bit_or-bit r b h =
    let half : r * 2 / 2 ≡ r = omega arith in
    let none_left : b / 2 ≡ 0 = omega arith in
    let high : bit_or (r * 2 / 2) (b / 2) ≡ r = rw (half, none_left) (bit_or-zero r) in
    omega (arith, bit_or_digit (r * 2) b, high)

-- The next bit of the quotient.
set_bit : (k i : ℕ) → bit_or (k * 2 ^ suc i) (2 ^ i) ≡ (k * 2 + 1) * 2 ^ i
set_bit k i =
    let twice : 2 ^ suc i ≡ 2 ^ i * 2 = pow-suc 2 i in
    bit_or-comm_fuel (k * 2 ^ suc i + 2 ^ i) (k * 2 ^ suc i) (2 ^ i) (omega arith)
    ∙ bit_or-add (suc i) (2 ^ i) k (omega (arith, twice, one-le-pow i 2 (omega arith)))
    ∙ regroup k (2 ^ i) (2 ^ suc i) twice
  where
    regroup : (k p q : ℕ) → q ≡ p * 2 → p + k * q ≡ (k * 2 + 1) * p
    regroup k p q e = rw e (grind arith)

keep_bit : (k i : ℕ) → k * 2 ^ suc i ≡ k * 2 * 2 ^ i
keep_bit k i = rw (pow-suc 2 i) (regroup k (2 ^ i))
  where
    regroup : (k p : ℕ) → k * (p * 2) ≡ k * 2 * p
    regroup k p = grind arith

-- The bits of `n` below 2 ^ (i + 1).
mod-pow_suc : (i n : ℕ) → n % 2 ^ suc i ≡ n / 2 ^ i % 2 * 2 ^ i + n % 2 ^ i
mod-pow_suc i n =
    split (2 ^ i) n (n / 2 ^ i) (n % 2 ^ i) (n % 2 ^ suc i)
      (rw (div-div-eq-div-mul n (2 ^ i) 2, sym (pow-suc 2 i)) (mod-add-div' n (2 ^ suc i)))
      (mod-add-div' n (2 ^ i))
  where
    split :
        (p n m low all : ℕ) → all + m / 2 * (p * 2) ≡ n → low + m * p ≡ n → all ≡ m % 2 * p + low
    split p n m low all e f =
        let halves : m ≡ m / 2 * 2 + m % 2 = omega arith in
        let spread : m * p ≡ m / 2 * (p * 2) + m % 2 * p = ap (λ t. t * p) halves ∙ grind arith in
        omega (arith, e, f, spread)

divide_bits_lem :
    (i n d k r : ℕ)
    → r < d
    → (r + 1) * 2 ^ i ≤ 2 ^ 64
    → ((divide_bits i n d (k * 2 ^ i) r).0 * d + (divide_bits i n d (k * 2 ^ i) r).1
        ≡ (k * d + r) * 2 ^ i + n % 2 ^ i)
      × ((divide_bits i n d (k * 2 ^ i) r).1 < d)
unfolding divide_bits
divide_bits_lem zero n d k r h room = (first (k * d), h)
  where
    first : (x : ℕ) → k * 1 * d + r ≡ (k * d + r) * 1 + n % 1
    first x = let one : k * 1 ≡ k = omega arith in rw one (omega arith)
divide_bits_lem (suc i) n d k r h room = elim (Bool-cases (leb d next)) [
  | inl fits ↦
      let ih =
        divide_bits_lem i n d (k * 2 + 1) (next - d) (ground (arith, h))
          (smaller (next - d) (omega arith)) in
      rw (shifted, fits, set_bit k i, divide_bits)
        (ih.0 ∙ joined ((k * 2 + 1) * d + (next - d)) (odd_part (ground arith)), ih.1)
  | inr small ↦
      let ih = divide_bits_lem i n d (k * 2) next (ground arith) (smaller next (omega arith)) in
      rw (shifted, small, keep_bit k i, divide_bits)
        (ih.0 ∙ joined (k * 2 * d + next) even_part, ih.1)
]
  where
    next : ℕ
    next = r * 2 + n / 2 ^ i % 2

    join :
        (t b p q low all y : ℕ)
        → q ≡ p * 2
        → all ≡ b * p + low
        → y ≡ t * 2 + b
        → y * p + low ≡ t * q + all
    join t b p q low all y e f g = rw (e, f, g) (grind arith)

    joined :
        (y : ℕ)
        → y ≡ (k * d + r) * 2 + n / 2 ^ i % 2
        → y * 2 ^ i + n % 2 ^ i ≡ (k * d + r) * 2 ^ suc i + n % 2 ^ suc i
    joined y g =
        join (k * d + r) (n / 2 ^ i % 2) (2 ^ i) (2 ^ suc i) (n % 2 ^ i) (n % 2 ^ suc i) y
          (pow-suc 2 i) (mod-pow_suc i n) g

    double : k * 2 * d ≡ k * d * 2
    double = grind arith

    double_one : (k * 2 + 1) * d ≡ k * d * 2 + d
    double_one = grind arith

    even_part : k * 2 * d + next ≡ (k * d + r) * 2 + n / 2 ^ i % 2
    even_part = omega (arith, double)

    odd_part : d ≤ next → (k * 2 + 1) * d + (next - d) ≡ (k * d + r) * 2 + n / 2 ^ i % 2
    odd_part low = omega (arith, double_one)

    same_room : (p q : ℕ) → q ≡ p * 2 → (r * 2 + 2) * p ≡ (r + 1) * q
    same_room p q e = rw e (grind arith)

    at_least : (a p : ℕ) → 1 ≤ p → a ≤ a * p
    at_least a p h = grind arith

    smaller : (x : ℕ) → x ≤ r * 2 + 1 → (x + 1) * 2 ^ i ≤ 2 ^ 64
    smaller x e =
        let grown : (x + 1) * 2 ^ i ≤ (r * 2 + 2) * 2 ^ i =
          mul-le-mul_right (2 ^ i) (omega arith) in
        omega (arith, grown, same_room (2 ^ i) (2 ^ suc i) (pow-suc 2 i))

    enough : (r * 2 + 1) ≤ (r * 2 + 1) * 2 ^ i
    enough = at_least (r * 2 + 1) (2 ^ i) (one-le-pow i 2 (omega arith))

    shifted : bit_or (u64 (r * 2)) (n / 2 ^ i % 2) ≡ next
    shifted =
        let whole : u64 (r * 2) ≡ r * 2 = omega (arith, smaller (r * 2) (omega arith), enough) in
        rw whole (bit_or-bit r (n / 2 ^ i % 2) (omega arith))

-- Division of 64-bit numbers, by a divisor that is not 0: the quotient and the remainder.
pub udivmod64_lem :
    (n d : ℕ)
    → n < 2 ^ 64
    → 0 < d
    → ((udivmod64 n d).0 * d + (udivmod64 n d).1 ≡ n) × ((udivmod64 n d).1 < d)
unfolding udivmod64
udivmod64_lem n d h pos =
    let res = divide_bits_lem 64 n d 0 0 pos (omega arith) in (res.0 ∙ omega arith, res.1)
