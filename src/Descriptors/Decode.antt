-- ===== src/Descriptors/Decode.antt =====
-- What the CPU reads from the descriptors is what the kernel meant.
use Prim.Native.Nat.{bit_or-bitwise}
use native.Mathlib.Nat.{pow-suc}
use sacabambaspos.Base.{
  ℕ, zero, suc, ◌+◌, ◌*◌, ◌/◌, ◌%◌, ◌^◌, ◌≤◌, ◌<◌, ◌≡◌, refl, ap, ◌∙◌, arith, bit_or, bit_or_digit,
  true, ◌&&◌, Bool-cases, inl, inr, ltb, leb, ◌==◌, if◌then◌else◌, u64,
}
use sacabambaspos.Descriptors.{tss_low, tss_high, IdtEnt, Idt, idt_set, ist_of, idt_from, idt_init}

zero-bit_or : (b : ℕ) → bit_or 0 b ≡ b
zero-bit_or b = bit_or-bitwise 0 b

reassoc : (b x : ℕ) → b * (x * 2) ≡ b * x * 2
reassoc b x = grind arith

-- Bits that do not overlap are added.
pub bit_or-add : (k a b : ℕ) → a < 2 ^ k → bit_or a (b * 2 ^ k) ≡ a + b * 2 ^ k
bit_or-add zero a b h =
    let none_low : a ≡ 0 = omega arith in rw (none_low, zero-bit_or) (omega arith)
bit_or-add (suc k) a b h =
    let twice : b * 2 ^ suc k ≡ b * 2 ^ k * 2 = ap (λ t. b * t) (pow-suc 2 k) ∙ reassoc b (2 ^ k) in
    let half : b * 2 ^ suc k / 2 ≡ b * 2 ^ k = omega (arith, twice) in
    let low : a < 2 ^ k * 2 = omega (arith, pow-suc 2 k) in
    let below : bit_or (a / 2) (b * 2 ^ suc k / 2) ≡ a / 2 + b * 2 ^ k =
      ap (bit_or (a / 2)) half ∙ bit_or-add k (a / 2) b (omega arith) in
    omega (arith, bit_or_digit a (b * 2 ^ suc k), below, twice)

-- The base and the limit of a system descriptor of 16 bytes, from its two words.
abbrev pub base_of : ℕ → ℕ → ℕ
base_of low high = low / 2 ^ 16 % 2 ^ 24 + low / 2 ^ 56 % 2 ^ 8 * 2 ^ 24 + high * 2 ^ 32

abbrev pub limit_of : ℕ → ℕ
limit_of low = low % 2 ^ 16 + low / 2 ^ 48 % 2 ^ 4 * 2 ^ 16

tss_low_sum :
    (b lim : ℕ)
    → tss_low b lim
      ≡ lim % 2 ^ 16
        + b % 2 ^ 24 * 2 ^ 16
        + 0x89 * 2 ^ 40
        + lim / 2 ^ 16 % 2 ^ 4 * 2 ^ 48
        + b / 2 ^ 24 % 2 ^ 8 * 2 ^ 56
unfolding tss_low
tss_low_sum b lim =
    let x1 : ℕ = lim % 2 ^ 16 + b % 2 ^ 24 * 2 ^ 16 in
    let x2 : ℕ = x1 + 0x89 * 2 ^ 40 in
    let x3 : ℕ = x2 + lim / 2 ^ 16 % 2 ^ 4 * 2 ^ 48 in
    rw (
      bit_or-add 16 (lim % 2 ^ 16) (b % 2 ^ 24) (omega arith),
      bit_or-add 40 x1 0x89 (omega arith),
      bit_or-add 48 x2 (lim / 2 ^ 16 % 2 ^ 4) (omega arith),
      bit_or-add 56 x3 (b / 2 ^ 24 % 2 ^ 8) (omega arith),
    )

-- The descriptor of a TSS gives its address and its limit, of 20 bits, and is an available TSS of 64 bits.
pub tss_low-base_of :
    (b lim : ℕ)
    → b < 2 ^ 64
    → lim < 2 ^ 20
    → (base_of (tss_low b lim) (tss_high b) ≡ b)
      × (limit_of (tss_low b lim) ≡ lim)
      × (tss_low b lim / 2 ^ 40 % 2 ^ 8 ≡ 0x89)
unfolding tss_high
tss_low-base_of b lim hb hl = rw (tss_low_sum b lim) (omega arith)

-- Where an interrupt gate leads to.
abbrev pub handler_of : IdtEnt → ℕ
handler_of e = e.off_lo + e.off_mid * 2 ^ 16 + e.off_hi * 2 ^ 32

abbrev gate : ℕ → ℕ → IdtEnt
gate stubs v = record {
  off_lo = u64 (stubs + u64 (v * 16)) % 2 ^ 16;
  sel = 0x08;
  ist = ist_of v;
  attr = 0x8E;
  off_mid = u64 (stubs + u64 (v * 16)) / 2 ^ 16 % 2 ^ 16;
  off_hi = u64 (stubs + u64 (v * 16)) / 2 ^ 32;
}

idt_from_lem :
    (n i stubs v : ℕ) (t : Idt)
    → idt_from n i stubs t v ≡ (if leb i v && ltb v (i + n) then gate stubs v else t v)
unfolding idt_from idt_set
idt_from_lem zero i stubs v t = ground arith
idt_from_lem (suc n) i stubs v t =
    idt_from_lem n (i + 1) stubs v (idt_set i (u64 (stubs + u64 (i * 16))) (ist_of i) t)
    ∙ elim (Bool-cases (v == i)) [
      | inl here ↦ let same : v ≡ i = ground (arith, here) in rw (same) (ground arith)
      | inr other ↦ rw other (ground arith)
    ]

inside : (v : ℕ) → v < 256 → leb 0 v && ltb v (0 + 256) ≡ true
inside v h = ground arith

-- Vector v, of 256, leads to its stub, 16 bytes behind the one before, in ring 0, with interrupts off, on
-- stack 1 for the double fault, 2 for the NMI, and on no stack of its own otherwise.
pub idt_init_lem :
    (stubs v : ℕ) (t : Idt)
    → v < 256
    → stubs + 4096 ≤ 2 ^ 64
    → (handler_of (idt_init stubs t v) ≡ stubs + 16 * v)
      × ((idt_init stubs t v).ist ≡ (if v == 8 then 1 else if v == 2 then 2 else 0))
      × ((idt_init stubs t v).attr ≡ 0x8E)
      × ((idt_init stubs t v).sel ≡ 8)
unfolding idt_init
idt_init_lem stubs v t low room =
    let found : idt_init stubs t v ≡ gate stubs v =
      idt_from_lem 256 0 stubs v t ∙ rw (inside v low) refl in
    rw found (omega arith, refl, refl, refl)
