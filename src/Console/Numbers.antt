-- ===== src/Console/Numbers.antt =====
-- `con_put_u64` and `con_put_hex`: the characters that they print. The buffers hold 20 and 16 digits.
use native.Mathlib.Nat.{pow-suc}
use sacabambaspos.Base.{
  ℕ, zero, suc, ◌+◌, ◌-◌, ◌*◌, ◌/◌, ◌%◌, ◌^◌, ◌≤◌, ◌<◌, ◌≡◌, refl, ap, ◌∙◌, Bool-cases, inl, inr,
  arith, List, [], ◌∷◌, length, ltb, ◌==◌, if◌then◌else◌,
}
use sacabambaspos.Console.{Console, con_puts}

-- `while(v){ b[--i] = '0' + v%10; v /= 10; }`; `fuel` rounds at most, `b` the buffer from `i` on.
unfoldable pub decimal : ℕ → ℕ → List ℕ → List ℕ
decimal zero v b = b
decimal (suc fuel) v b =
    let more = decimal fuel (v / 10) ((b'0' + v % 10) ∷ b) in if v == 0 then b else more

unfoldable pub u64_chars : ℕ → List ℕ
u64_chars v = decimal 21 v (if v == 0 then b'0' ∷ [] else [])

unfoldable pub con_put_u64 : ℕ → Console → Console
con_put_u64 v = con_puts (u64_chars v)

abbrev pub hex_digit : ℕ → ℕ
hex_digit d = if ltb d 10 then b'0' + d else b'a' + d - 10

-- `while(v){ u64 d = v & 15; b[--i] = d < 10 ? '0'+d : 'a'+d-10; v >>= 4; }`
unfoldable pub hexadecimal : ℕ → ℕ → List ℕ → List ℕ
hexadecimal zero v b = b
hexadecimal (suc fuel) v b =
    let more = hexadecimal fuel (v / 16) (hex_digit (v % 16) ∷ b) in if v == 0 then b else more

unfoldable pub hex_chars : ℕ → List ℕ
hex_chars v = hexadecimal 17 v (if v == 0 then b'0' ∷ [] else [])

unfoldable pub con_put_hex : ℕ → Console → Console
con_put_hex v s = con_puts (hex_chars v) (con_puts (b'0' ∷ b'x' ∷ []) s)

-- The number that decimal digits stand for.
pub read_decimal : ℕ → List ℕ → ℕ
read_decimal n [] = n
read_decimal n (c ∷ cs) = read_decimal (n * 10 + (c - b'0')) cs

read_decimal-zero : (v : ℕ) (b : List ℕ) → v ≡ 0 → read_decimal 0 b ≡ read_decimal v b
read_decimal-zero v b h = ap (λ t. read_decimal t b) (omega arith)

decimal_lem :
    (fuel v : ℕ) (b : List ℕ) → v < 10 ^ fuel → read_decimal 0 (decimal fuel v b) ≡ read_decimal v b
unfolding decimal
decimal_lem zero v b h = read_decimal-zero v b (omega arith)
decimal_lem (suc fuel) v b h = elim (Bool-cases (v == 0)) [
  | inl done ↦ rw done (read_decimal-zero v b (ground arith))
  | inr more ↦ rw more (
      decimal_lem fuel (v / 10) ((b'0' + v % 10) ∷ b) (omega (arith, pow-suc 10 fuel))
      ∙ first_digit)
]
  where
    first_digit : read_decimal (v / 10) ((b'0' + v % 10) ∷ b) ≡ read_decimal v b
    first_digit = unfold read_decimal in ap (λ t. read_decimal t b) (omega arith)

length-decimal : (fuel k v : ℕ) (b : List ℕ) → v < 10 ^ k → length (decimal fuel v b) ≤ length b + k
unfolding decimal
length-decimal zero k v b h = omega arith
length-decimal (suc fuel) zero v b h = ground arith
length-decimal (suc fuel) (suc k) v b h =
    ground
      (arith, length-decimal fuel k (v / 10) ((b'0' + v % 10) ∷ b) (omega (arith, pow-suc 10 k)))

-- The digits that are printed for a 64-bit value stand for it, and they are 20 at most.
pub u64_chars_lem :
    (v : ℕ) → v < 2 ^ 64 → (read_decimal 0 (u64_chars v) ≡ v) × (length (u64_chars v) ≤ 20)
unfolding u64_chars
u64_chars_lem v h = elim (Bool-cases (v == 0)) [
  | inl zero_value ↦ rw zero_value (
    decimal_lem 21 v (b'0' ∷ []) (omega arith) ∙ single (ground arith),
    ground (arith, length-decimal 21 0 v (b'0' ∷ [])),
  )
  | inr more ↦ rw more (
    decimal_lem 21 v [] (omega arith) ∙ unfold read_decimal in refl,
    length-decimal 21 20 v [] (omega arith),
  )
]
  where
    single : v ≡ 0 → read_decimal v (b'0' ∷ []) ≡ v
    single e = unfold read_decimal in omega arith
