-- ===== src/Kbd/Letters.antt =====
-- Shift and caps lock on letters.
use mathlib.Core.Bool.{xor}
use sacabambaspos.Base.{
  ℕ, zero, suc, ◌-◌, ◌<◌, ◌≡◌, refl, arith, Bool, true, false, not, ◌&&◌, ◌||◌, Option, none, some,
  get_or, leb, ◌==◌, if◌then◌else◌,
}
use sacabambaspos.Kbd.{Decoder, char_for, decode}
use sacabambaspos.Kbd.Scancodes.{map_lo, map_hi}

-- A test that holds of every code below a bound.
every_code : (ℕ → Bool) → ℕ → Bool
every_code test zero = true
every_code test (suc k) = every_code test k && test k

every_code_lem :
    (test : ℕ → Bool) (k code : ℕ) → code < k → every_code test k ≡ true → test code ≡ true
unfolding every_code
every_code_lem test zero code low passed = absurd (omega arith)
every_code_lem test (suc k) code low passed = ground (arith, every_code_lem test k code)

unfoldable pub letter : ℕ → ℕ
letter sc = get_or map_lo sc 0

unfoldable pub is_letter : ℕ → Bool
is_letter sc = leb b'a' (letter sc) && leb (letter sc) b'z'

is_char : Option ℕ → ℕ → Bool
is_char none c = false
is_char (some x) c = x == c

is_char_sound : (o : Option ℕ) (c : ℕ) → is_char o c ≡ true → o ≡ some c
unfolding is_char
is_char_sound none c h = cc
is_char_sound (some x) c h = ground arith

-- Upper case is the code 32 below.
abbrev pub cased : Bool → ℕ → ℕ
cased upper c = if upper then c - 32 else c

letter_ok : Bool → Bool → ℕ → Bool
letter_ok shift caps sc =
    not (is_letter sc)
    || (not (sc == 0x2A)
        && not (sc == 0x36)
        && not (sc == 0x3A)
        && is_char (char_for shift caps sc) (cased (xor shift caps) (letter sc)))

letter_table : (shift caps : Bool) → every_code (letter_ok shift caps) 128 ≡ true
unfolding every_code letter_ok is_char char_for xor letter is_letter map_lo map_hi
letter_table true true = refl
letter_table true false = refl
letter_table false true = refl
letter_table false false = refl

conditions :
    (l a b c e : Bool)
    → not l || (not a && not b && not c && e) ≡ true
    → l ≡ true
    → (a ≡ false) × (b ≡ false) × (c ≡ false) × (e ≡ true)
conditions l a b c e h k = ground arith

letter_facts :
    (shift caps : Bool) (sc : ℕ)
    → sc < 128
    → is_letter sc ≡ true
    → ((sc == 0x2A) ≡ false)
      × ((sc == 0x36) ≡ false)
      × ((sc == 0x3A) ≡ false)
      × (char_for shift caps sc ≡ some (cased (xor shift caps) (letter sc)))
unfolding letter_ok
letter_facts shift caps sc small lower =
    let (a, b, c, e) =
      conditions (is_letter sc) (sc == 0x2A) (sc == 0x36) (sc == 0x3A)
        (is_char (char_for shift caps sc) (cased (xor shift caps) (letter sc)))
        (every_code_lem (letter_ok shift caps) 128 sc small (letter_table shift caps)) lower in
    (a, b, c, is_char_sound _ _ e)

-- The make code of a letter, not behind 0xE0, gives that letter, in upper case when exactly one of
-- shift and caps lock is on, and leaves the decoder as it is.
pub decode-letter :
    (sc : ℕ) (d : Decoder)
    → sc < 128
    → is_letter sc ≡ true
    → d.ext ≡ false
    → decode sc d ≡ (some (cased (xor (d.shift_l || d.shift_r) d.caps) (letter sc)), d)
unfolding decode
decode-letter sc d small lower plain =
    ground (arith, letter_facts (d.shift_l || d.shift_r) d.caps sc small lower)
