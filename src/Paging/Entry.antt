-- ===== src/Paging/Entry.antt =====
-- The words that the tables hold: what the bit tests and the address mask read from them.
use sacabambaspos.Base.{
  ℕ, ◌+◌, ◌-◌, ◌*◌, ◌/◌, ◌%◌, ◌^◌, ◌<◌, ◌≡◌, refl, arith, ◌∙◌, ap, sym, Bool, true, false, ◌&&◌,
  ◌||◌, bit_and, bit_or, bit_or-zero, bit_and-bit_or, bit_and_low, bit_and-shifted, test_bit,
  test_bit-bit_or, test_bit-bit_and, ◌==◌, if◌then◌else◌,
}
use sacabambaspos.Paging.{
  pte_p, pte_w, pte_u, pte_addr, is_p, is_u, is_ps, frame, table_entry, small_flags,
}

-- The address of a page frame: aligned, and below 2^52.
abbrev pub IsFrame : ℕ → Type 0
IsFrame n = (n % 4096 ≡ 0) × (n < 2 ^ 52)

pub frame_self : (n : ℕ) → IsFrame n → frame n ≡ n
frame_self n h =
    ap frame scaled
    ∙ bit_and-shifted 12 (n / 4096) (2 ^ 40 - 1)
    ∙ ap (λ (t : ℕ). t * 2 ^ 12) masked
    ∙ sym scaled
  where
    scaled : n ≡ n / 4096 * 2 ^ 12
    scaled = omega arith

    masked : bit_and (n / 4096) (2 ^ 40 - 1) ≡ n / 4096
    masked = omega (arith, bit_and_low 40 (n / 4096))

-- Flags outside the address bits do not change the frame.
pub frame-bit_or : (e f : ℕ) → frame f ≡ 0 → frame (bit_or e f) ≡ frame e
frame-bit_or e f h = bit_and-bit_or e f pte_addr ∙ ap (bit_or (frame e)) h ∙ bit_or-zero (frame e)

user_bit : Bool → ℕ
user_bit user = if user then pte_u else 0

frame-user_bit : (user : Bool) → frame (user_bit user) ≡ 0
unfolding user_bit
frame-user_bit true = refl
frame-user_bit false = refl

pub frame-table_entry : (user : Bool) (n : ℕ) → IsFrame n → frame (table_entry user n) ≡ n
unfolding user_bit
frame-table_entry user n h =
    frame-bit_or (bit_or (bit_or n pte_p) pte_w) (user_bit user) (frame-user_bit user)
    ∙ frame-bit_or (bit_or n pte_p) pte_w refl
    ∙ frame-bit_or n pte_p refl
    ∙ frame_self n h

entry_bit :
    (user : Bool) (n k : ℕ)
    → test_bit n k ≡ false
    → test_bit (table_entry user n) k
      ≡ (test_bit pte_p k || test_bit pte_w k) || test_bit (user_bit user) k
unfolding user_bit
entry_bit user n k h =
    test_bit-bit_or (bit_or (bit_or n pte_p) pte_w) (user_bit user) k
    ∙ ap (λ b. b || test_bit (user_bit user) k)
        (test_bit-bit_or (bit_or n pte_p) pte_w k
          ∙ ap (λ b. b || test_bit pte_w k)
              (test_bit-bit_or n pte_p k ∙ ap (λ b. b || test_bit pte_p k) h))

aligned_bits : (n : ℕ) → n % 4096 ≡ 0 → (is_p n ≡ false) × (is_u n ≡ false) × (is_ps n ≡ false)
aligned_bits n h = (ground arith, ground arith, ground arith)

-- A table entry is present, is no 2 MiB page, and has the user bit as asked for.
pub table_entry_bits :
    (user : Bool) (n : ℕ)
    → IsFrame n
    → (is_p (table_entry user n) ≡ true)
      × (is_ps (table_entry user n) ≡ false)
      × (is_u (table_entry user n) ≡ user)
unfolding user_bit
table_entry_bits true n h =
    let (p, u, s) = aligned_bits n h.0 in
    (entry_bit true n 0 p, entry_bit true n 7 s, entry_bit true n 2 u)
table_entry_bits false n h =
    let (p, u, s) = aligned_bits n h.0 in
    (entry_bit false n 0 p, entry_bit false n 7 s, entry_bit false n 2 u)

-- Setting the user bit of an entry leaves its other bits.
pub user_entry_bits :
    (e : ℕ) → (is_p (bit_or e pte_u) ≡ is_p e) × (is_ps (bit_or e pte_u) ≡ is_ps e)
user_entry_bits e =
    (test_bit-bit_or e pte_u 0 ∙ or_false (is_p e), test_bit-bit_or e pte_u 7 ∙ or_false (is_ps e))
  where
    or_false : (b : Bool) → b || false ≡ b
    or_false b = ground arith

-- The user bit of an entry made from an aligned address and flags is that of the flags.
pub is_u-bit_or : (pa f : ℕ) → pa % 4096 ≡ 0 → is_u (bit_or pa f) ≡ is_u f
is_u-bit_or pa f h = test_bit-bit_or pa f 2 ∙ ap (λ b. b || is_u f) (aligned_bits pa h).1

-- The small entries that a 2 MiB entry is split into are for ring 3 only if it was.
pub is_u-split :
    (e i : ℕ) → is_u e ≡ false → is_u (bit_or (frame e + i * 2 ^ 12) (small_flags e)) ≡ false
is_u-split e i h =
    test_bit-bit_or (frame e + i * 2 ^ 12) (small_flags e) 2
    ∙ ap (λ b. b || is_u (small_flags e)) (address ∙ masked pte_addr)
    ∙ masked (2 ^ 64 - 1 - (pte_addr + 128))
  where
    address : is_u (frame e + i * 2 ^ 12) ≡ is_u (frame e)
    address = ap (λ (t : ℕ). t == 1) (omega arith)

    masked : (m : ℕ) → is_u (bit_and e m) ≡ false
    masked m = test_bit-bit_and e m 2 ∙ ap (λ b. b && test_bit m 2) h
