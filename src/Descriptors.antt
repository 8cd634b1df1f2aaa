-- ===== src/Descriptors.antt =====
-- src/kernel/kmain.c: the GDT with its TSS descriptor and the IDT, as the words that the CPU reads.
pub mod Decode
mod Tests
use sacabambaspos.Base.{
  ℕ, zero, suc, ◌+◌, ◌-◌, ◌*◌, ◌/◌, ◌%◌, ◌^◌, bit_or, List, [], ◌∷◌, ◌==◌, if◌then◌else◌, u64,
}

-- The fields of `struct tss64` that the kernel fills in; `ist` holds the entries 1 and 2.
pub record Tss : Type 0 where
  pub rsp0 : ℕ
  pub ist1 : ℕ
  pub ist2 : ℕ
  pub iomap : ℕ

-- `sizeof(tss)`
abbrev pub tss_size : ℕ
tss_size = 104

-- The stacks of the double fault and the NMI, by their lowest addresses.
abbrev pub ist_stack : ℕ
ist_stack = 8192

unfoldable pub set_rsp0 : ℕ → Tss → Tss
set_rsp0 sp t = record t { rsp0 = sp }

unfoldable pub tss_init : ℕ → ℕ → Tss → Tss
tss_init ist_df ist_nmi t = record t {
  iomap = tss_size;
  ist1 = u64 (ist_df + ist_stack);
  ist2 = u64 (ist_nmi + ist_stack);
}

-- The two words of the descriptor of a TSS at `b` with limit `lim`.
unfoldable pub tss_low : ℕ → ℕ → ℕ
tss_low b lim =
    bit_or
      (bit_or (bit_or (bit_or (lim % 2 ^ 16) (b % 2 ^ 24 * 2 ^ 16)) (0x89 * 2 ^ 40))
        (lim / 2 ^ 16 % 2 ^ 4 * 2 ^ 48))
      (b / 2 ^ 24 % 2 ^ 8 * 2 ^ 56)

unfoldable pub tss_high : ℕ → ℕ
tss_high b = b / 2 ^ 32

-- The table that is loaded, for a TSS at `b`.
unfoldable pub gdt_init : ℕ → List ℕ
unfolding tss_low tss_high
gdt_init b =
    0
    ∷ 0x0020_9A00_0000_0000
    ∷ 0x0000_9200_0000_0000
    ∷ 0x0000_F200_0000_0000
    ∷ 0x0020_FA00_0000_0000
    ∷ tss_low b (tss_size - 1)
    ∷ tss_high b
    ∷ []

pub record IdtEnt : Type 0 where
  pub off_lo : ℕ
  pub sel : ℕ
  pub ist : ℕ
  pub attr : ℕ
  pub off_mid : ℕ
  pub off_hi : ℕ

abbrev pub Idt : Type 0
Idt = ℕ → IdtEnt

unfoldable pub idt_set : ℕ → ℕ → ℕ → Idt → Idt
idt_set v a ist t i =
    if i == v
    then record {
      off_lo = a % 2 ^ 16;
      sel = 0x08;
      ist = ist;
      attr = 0x8E;
      off_mid = a / 2 ^ 16 % 2 ^ 16;
      off_hi = a / 2 ^ 32;
    }
    else t i

abbrev pub ist_of : ℕ → ℕ
ist_of i = if i == 8 then 1 else if i == 2 then 2 else 0

-- The loop over `n` vectors from `i` on; `stubs` is the address of `vector_stubs`.
unfoldable pub idt_from : ℕ → ℕ → ℕ → Idt → Idt
unfolding idt_set
idt_from zero i stubs t = t
idt_from (suc n) i stubs t =
    idt_from n (i + 1) stubs (idt_set i (u64 (stubs + u64 (i * 16))) (ist_of i) t)

unfoldable pub idt_init : ℕ → Idt → Idt
idt_init = idt_from 256 0
