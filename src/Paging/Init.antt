-- ===== src/Paging/Init.antt =====
-- src/kernel/paging.c, `paging_init`: the kernel's own tables.
-- `cpuid`, the model-specific registers and the addresses of the linker are arguments. The loops run
-- over whole numbers of pages; the source's increment past the last page can wrap only for a range
-- that ends in the top 2 MiB of the 64-bit space, where its loop would not end.
use sacabambaspos.Base.{
  ℕ, zero, suc, ◌+◌, ◌-◌, ◌*◌, ◌/◌, Bool, true, false, ◌||◌, none, some, List, [], ◌∷◌, leb, ◌==◌,
  if◌then◌else◌, bit_or, u64, sub64,
}
use sacabambaspos.Paging.{Vm, pte_p, pte_w, nx, frame, alloc_table, map_2m, protect}

-- The fields of `SbosBootInfo` that are used here.
pub record BootInfo : Type 0 where
  pub heap_base : ℕ
  pub heap_size : ℕ
  pub fb_base : ℕ
  pub fb_width : ℕ
  pub fb_height : ℕ
  pub fb_pitch : ℕ
  pub splash_base : ℕ
  pub initrc_base : ℕ
  pub initrc_size : ℕ

-- What the kernel finds out about itself and the machine.
pub record Machine : Type 0 where
  pub text_start : ℕ
  pub text_end : ℕ
  pub rodata_start : ℕ
  pub rodata_end : ℕ
  pub data_start : ℕ
  pub kernel_end : ℕ
  pub apic_base : ℕ
  pub has_nx : Bool

-- `n` large pages from `s` on, those below `low` left out.
unfoldable pub large_pages : ℕ → ℕ → ℕ → Vm → Bool × Vm
large_pages zero low s vm = (true, vm)
large_pages (suc n) low s vm =
    let (done, vm') = map_2m s s (bit_or (bit_or pte_p pte_w) (nx vm)) vm in
    if leb low s
    then elim done [ false ↦ (false, vm') | true ↦ large_pages n low (s + 0x20_0000) vm' ]
    else large_pages n low (s + 0x20_0000) vm

unfoldable pub extra_range : ℕ × ℕ → Vm → Bool × Vm
extra_range (base, len) vm =
    let s = base / 0x20_0000 * 0x20_0000 in
    let e = u64 (base + len) in
    if base == 0 || len == 0
    then (true, vm)
    else large_pages ((e - s + 0x1F_FFFF) / 0x20_0000) 0x1_0000_0000 s vm

unfoldable pub extra_ranges : List (ℕ × ℕ) → Vm → Bool × Vm
extra_ranges [] vm = (true, vm)
extra_ranges (r ∷ rs) vm =
    let (done, vm') = extra_range r vm in
    elim done [ false ↦ (false, vm') | true ↦ extra_ranges rs vm' ]

unfoldable pub extra : BootInfo → Machine → List (ℕ × ℕ)
extra bi k =
    (bi.heap_base, bi.heap_size)
    ∷ (bi.fb_base, u64 (bi.fb_pitch * bi.fb_height * 4))
    ∷ (bi.splash_base, u64 (bi.fb_width * bi.fb_height * 4))
    ∷ (bi.initrc_base, bi.initrc_size)
    ∷ (k.text_start, sub64 k.kernel_end k.text_start)
    ∷ (frame k.apic_base, 0x1000)
    ∷ []

-- `then` runs a step if the one before has succeeded.
unfoldable pub and_then : Bool × Vm → (Vm → Bool × Vm) → Bool × Vm
and_then (done, vm) next = elim done [ false ↦ (false, vm) | true ↦ next vm ]

-- The mappings, from the moment there is a PML4.
unfoldable pub fill_tables : BootInfo → Machine → Vm → Bool × Vm
fill_tables bi k vm =
    and_then
      (and_then
        (and_then (and_then (large_pages 2048 0 0 vm) (extra_ranges (extra bi k)))
          (λ v. protect k.text_start k.text_end pte_p v))
        (λ v. protect k.rodata_start k.rodata_end (bit_or pte_p (nx v)) v))
      (λ v. protect k.data_start k.kernel_end (bit_or (bit_or pte_p pte_w) (nx v)) v)

unfoldable pub paging_init : BootInfo → Machine → Vm → Bool × Vm
paging_init bi k vm =
    let (p, vm') = alloc_table (record vm { nx_ok = k.has_nx }) in
    elim p [
      | none ↦ (false, record vm' { pml4 = 0 })
      | some t ↦ fill_tables bi k (record vm' { pml4 = t })
    ]
