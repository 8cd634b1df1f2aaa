-- ===== src/Paging.antt =====
-- src/kernel/paging.c: the four levels of page tables.
-- `tabs t i` is entry `i` of the table in the page at `t`; a page that `kalloc_page` gives is cleared.
-- The reload of CR3, which flushes the TLB, has no counterpart: the model has no TLB.
pub mod Entry
pub mod Window
pub mod Isolation
pub mod UserOk
pub mod Init
mod Tests
use sacabambaspos.Base.{
  ℕ, zero, suc, ◌+◌, ◌-◌, ◌*◌, ◌/◌, ◌%◌, ◌^◌, Bool, true, false, not, ◌&&◌, ◌||◌, Option, none,
  some, ltb, leb, ◌==◌, if◌then◌else◌, bit_and, bit_or, test_bit, u64,
}
use sacabambaspos.Heap.{Heap, kalloc_page}

abbrev pub pte_p : ℕ
pte_p = 1

abbrev pub pte_w : ℕ
pte_w = 2

abbrev pub pte_u : ℕ
pte_u = 4

abbrev pub pte_ps : ℕ
pte_ps = 128

abbrev pub pte_nxb : ℕ
pte_nxb = 2 ^ 63

abbrev pub pte_addr : ℕ
pte_addr = 0x000F_FFFF_FFFF_F000

abbrev pub user_base : ℕ
user_base = 0x0000_7000_0000_0000

abbrev pub user_top : ℕ
user_top = 0x0000_7001_0000_0000

abbrev pub Tables : Type 0
Tables = ℕ → ℕ → ℕ

pub record Vm : Type 0 where
  pub heap : Heap
  pub tabs : Tables
  pub pml4 : ℕ
  pub nx_ok : Bool

-- The tests on an entry.
abbrev pub is_p : ℕ → Bool
is_p e = test_bit e 0

abbrev pub is_u : ℕ → Bool
is_u e = test_bit e 2

abbrev pub is_ps : ℕ → Bool
is_ps e = test_bit e 7

-- `e & PTE_ADDR`
abbrev pub frame : ℕ → ℕ
frame e = bit_and e pte_addr

unfoldable pub set_entry : ℕ → ℕ → ℕ → Tables → Tables
set_entry t i e tabs t' i' = if t == t' && i == i' then e else tabs t' i'

unfoldable pub clear_table : ℕ → Tables → Tables
clear_table t tabs t' i' = if t == t' then 0 else tabs t' i'

-- `(va>>39)&511` and so on: level 4 is the PML4 and level 1 the page table.
abbrev pub index4 : ℕ → ℕ
index4 va = va / 2 ^ 39 % 512

abbrev pub index3 : ℕ → ℕ
index3 va = va / 2 ^ 30 % 512

abbrev pub index2 : ℕ → ℕ
index2 va = va / 2 ^ 21 % 512

abbrev pub index1 : ℕ → ℕ
index1 va = va / 2 ^ 12 % 512

abbrev pub nx : Vm → ℕ
nx vm = if vm.nx_ok then pte_nxb else 0

-- A cleared table page.
unfoldable pub alloc_table : Vm → Option ℕ × Vm
alloc_table vm =
    let (p, h) = kalloc_page vm.heap in
    elim p [
      | none ↦ (none, record vm { heap = h })
      | some n ↦ (some n, record vm { heap = h; tabs = clear_table n vm.tabs })
    ]

-- `(u64)n | PTE_P | PTE_W | (user ? PTE_U : 0)`
abbrev pub table_entry : Bool → ℕ → ℕ
table_entry user n = bit_or (bit_or (bit_or n pte_p) pte_w) (if user then pte_u else 0)

unfoldable pub write_entry : ℕ → ℕ → ℕ → Vm → Vm
write_entry t i e vm = record vm { tabs = set_entry t i e vm.tabs }

-- A fresh table behind entry `idx` of `tab`.
unfoldable pub new_level : ℕ → ℕ → Bool → Vm → Option ℕ × Vm
unfolding write_entry
new_level tab idx user vm =
    let (p, vm') = alloc_table vm in
    elim p [
      | none ↦ (none, vm')
      | some n ↦ (some (frame (table_entry user n)), write_entry tab idx (table_entry user n) vm')
    ]

unfoldable pub next_level : ℕ → ℕ → Bool → Vm → Option ℕ × Vm
next_level tab idx user vm =
    let e = vm.tabs tab idx in
    if not (is_p e)
    then new_level tab idx user vm
    else if is_ps e
    then (none, vm)
    else if user
    then (some (frame (bit_or e pte_u)), write_entry tab idx (bit_or e pte_u) vm)
    else (some (frame e), vm)

-- The two upper levels of a walk: the page directory for `va`.
unfoldable pub pd_for : ℕ → Bool → Vm → Option ℕ × Vm
pd_for va user vm =
    let (pdpt, vm') = next_level vm.pml4 (index4 va) user vm in
    elim pdpt [ none ↦ (none, vm') | some t ↦ next_level t (index3 va) user vm' ]

unfoldable pub map_2m : ℕ → ℕ → ℕ → Vm → Bool × Vm
map_2m va pa flags vm =
    let (pd, vm') = pd_for va false vm in
    elim pd [
      | none ↦ (false, vm')
      | some t ↦ (true, write_entry t (index2 va) (bit_or (bit_or pa pte_ps) flags) vm')
    ]

-- `pd[di] & ~(PTE_ADDR | PTE_PS)`
abbrev pub small_flags : ℕ → ℕ
small_flags e = bit_and e (2 ^ 64 - 1 - (pte_addr + pte_ps))

-- `for(u64 i=0; i<512; i++) pt[i] = (base + (i<<12)) | flags;`
unfoldable pub fill_table : ℕ → ℕ → Tables → Tables
fill_table pt e tabs t i =
    if pt == t && ltb i 512 then bit_or (frame e + i * 2 ^ 12) (small_flags e) else tabs t i

-- A 2 MiB entry in the way becomes a table of 4 KiB entries with the same permissions.
unfoldable pub split_huge : ℕ → ℕ → Bool → Vm → Bool × Vm
split_huge pd di user vm =
    let e = vm.tabs pd di in
    let (p, vm') = alloc_table vm in
    elim p [
      | none ↦ (false, vm')
      | some pt ↦ (
        true,
        write_entry pd di (table_entry user pt) (record vm' { tabs = fill_table pt e vm'.tabs }),
      )
    ]

unfoldable pub pt_for : ℕ → Bool → Vm → Option ℕ × Vm
pt_for va user vm =
    let (pd, vm') = pd_for va user vm in
    elim pd [
      | none ↦ (none, vm')
      | some t ↦
          let e = vm'.tabs t (index2 va) in
          let (done, vm'') = split_huge t (index2 va) user vm' in
          if is_p e && is_ps e
          then (if done then next_level t (index2 va) user vm'' else (none, vm''))
          else next_level t (index2 va) user vm'
    ]

unfoldable pub map_4k : ℕ → ℕ → ℕ → Bool → Vm → Bool × Vm
map_4k va pa flags user vm =
    let (pt, vm') = pt_for va user vm in
    elim pt [
      | none ↦ (false, vm')
      | some t ↦ (true, write_entry t (index1 va) (bit_or pa flags) vm')
    ]

-- `for(u64 a = start; a < end; a += 4096)`, for `n` pages from `a` on
unfoldable pub protect_pages : ℕ → ℕ → ℕ → Vm → Bool × Vm
protect_pages zero a flags vm = (true, vm)
protect_pages (suc n) a flags vm =
    let (done, vm') = map_4k a a flags false vm in
    elim done [ true ↦ protect_pages n (a + 4096) flags vm' | false ↦ (false, vm') ]

unfoldable pub protect : ℕ → ℕ → ℕ → Vm → Bool × Vm
protect start end flags vm =
    let a = start / 4096 * 4096 in
    let b = u64 (end + 4095) / 4096 * 4096 in protect_pages ((b - a) / 4096) a flags vm

-- The loop of `vm_ensure_identity` for `n` pages of 2 MiB; `false` is its early `return`.
unfoldable pub identity_pages : ℕ → ℕ → Vm → Vm
identity_pages zero a vm = vm
identity_pages (suc n) a vm =
    let (pd, vm') = pd_for a false vm in
    elim pd [
      | none ↦ vm'
      | some t ↦ identity_pages n (a + 0x20_0000) (
          if is_p (vm'.tabs t (index2 a))
          then vm'
          else write_entry t (index2 a)
              (bit_or (bit_or (bit_or (bit_or a pte_ps) pte_p) pte_w) (nx vm')) vm')
    ]

unfoldable pub vm_ensure_identity : ℕ → ℕ → Vm → Vm
vm_ensure_identity base len vm =
    let a = base / 0x20_0000 * 0x20_0000 in
    let end = u64 (base + len) in
    if vm.pml4 == 0 || len == 0 then vm else identity_pages ((end - a + 0x1F_FFFF) / 0x20_0000) a vm

-- `PTE_P | PTE_U | (writable ? PTE_W : 0) | (executable ? 0 : nx())`
abbrev pub user_flags : Bool → Bool → Vm → ℕ
user_flags writable executable vm =
    bit_or (bit_or (bit_or pte_p pte_u) (if writable then pte_w else 0))
      (if executable then 0 else nx vm)

unfoldable pub vm_user_map : ℕ → ℕ → Bool → Bool → Vm → Bool × Vm
vm_user_map va pa writable executable vm =
    if ltb va user_base || leb user_top va
    then (false, vm)
    else map_4k va pa (user_flags writable executable vm) true vm

-- The page table for `va` that is there, as the loops of `vm_user_unmap_range` and `vm_user_ok` find it.
unfoldable pub find_pt : ℕ → Vm → Option ℕ
find_pt va vm =
    let pdpt = frame (vm.tabs vm.pml4 (index4 va)) in
    let e3 = vm.tabs pdpt (index3 va) in
    let e2 = vm.tabs (frame e3) (index2 va) in
    if pdpt == 0
    then none
    else if not (is_p e3)
    then none
    else if not (is_p e2) || is_ps e2
    then none
    else some (frame e2)

unfoldable pub unmap_pages : ℕ → ℕ → Vm → Vm
unmap_pages zero va vm = vm
unmap_pages (suc n) va vm =
    unmap_pages n (va + 4096)
      (elim (find_pt va vm) [ none ↦ vm | some pt ↦ write_entry pt (index1 va) 0 vm ])

unfoldable pub vm_user_unmap_range : ℕ → ℕ → Vm → Vm
vm_user_unmap_range va len vm =
    let a = va / 4096 * 4096 in
    let end = u64 (va + len) in unmap_pages ((end - a + 4095) / 4096) a vm

unfoldable pub page_ok : ℕ → Vm → Bool
page_ok va vm = elim (find_pt va vm) [
  | none ↦ false
  | some pt ↦ is_p (vm.tabs pt (index1 va)) && is_u (vm.tabs pt (index1 va))
]

unfoldable pub pages_ok : ℕ → ℕ → Vm → Bool
pages_ok zero va vm = true
pages_ok (suc n) va vm = page_ok va vm && pages_ok n (va + 4096) vm

-- The mapping's end `va + len` is at most `user_top` where the loop is reached, so it does not wrap.
unfoldable pub vm_user_ok : ℕ → ℕ → Vm → Bool
vm_user_ok va len vm =
    let a = va / 4096 * 4096 in
    if len == 0
    then true
    else if ltb va user_base || leb user_top va || ltb (user_top - va) len
    then false
    else pages_ok ((va + len - a + 4095) / 4096) a vm
