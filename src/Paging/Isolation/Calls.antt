-- ===== src/Paging/Isolation/Calls.antt =====
-- `paging_init`, and the calls that the kernel makes once it has returned.
use sacabambaspos.Base.{
  ℕ, zero, suc, ◌+◌, ◌%◌, ◌^◌, ◌≤◌, ◌<◌, ◌≡◌, ◌⊎◌, inl, inr, refl, ap, arith, Bool, true, false,
  Option, none, some, ◌==◌, ==-refl, List, [], ◌∷◌, Bool-cases, ◌||◌, bit_or, leb,
}
use sacabambaspos.Heap
use sacabambaspos.Heap.{Heap, kalloc, kalloc_page}
use sacabambaspos.Heap.Bounds
use sacabambaspos.Heap.Bounds.{
  kalloc-IsValid, kalloc_grows, kalloc_page-some, kalloc_page_grows, kalloc_page-IsValid,
}
use sacabambaspos.Paging.{
  Vm, pte_p, pte_w, nx, user_base, user_top, clear_table, map_2m, vm_user_map, vm_user_unmap_range,
  vm_ensure_identity,
}
use sacabambaspos.Paging.Init.{
  BootInfo, Machine, large_pages, extra_range, extra_ranges, extra, and_then, fill_tables,
  paging_init,
}
use sacabambaspos.Paging.Window.{Places, IsIsolated, user_access, closed_outside}
use sacabambaspos.Paging.Isolation.{absent-IsPlaced, spare-IsPlaced, alloc_table_given, put_place}
use sacabambaspos.Paging.Isolation.Walks.{Kept, Kept-trans}
use sacabambaspos.Paging.Isolation.Maps.{
  Kept-refl, map_2m-Kept, protect-Kept, vm_ensure_identity-Kept, vm_user_map-Kept,
  vm_user_unmap_range-Kept, data_flags-closed, rodata_flags-closed,
}

large_pages-Kept :
    (n : ℕ) {m : Places} {vm : Vm} (low s : ℕ)
    → s % 4096 ≡ 0
    → IsIsolated m vm
    → Kept m (large_pages n low s vm).1
unfolding large_pages
large_pages-Kept zero low s aligned ok = Kept-refl ok
large_pages-Kept (suc n) {m} {vm} low s aligned ok =
    let flags : ℕ = bit_or (bit_or pte_p pte_w) (nx vm) in
    let w : Kept m (map_2m s s flags vm).1 =
      map_2m-Kept s s flags aligned (data_flags-closed vm) ok in
    elim (Bool-cases (leb low s)) [
      | inr skipped ↦
          rw (skipped, large_pages) (large_pages-Kept n low (s + 0x20_0000) (omega arith) ok)
      | inl wanted ↦ elim (Bool-cases (map_2m s s flags vm).0) [
        | inl done ↦
            rw (wanted, done, large_pages)
              (Kept-trans w.extends
                (large_pages-Kept n low (s + 0x20_0000) (omega arith) w.isolated))
        | inr refused ↦ rw (wanted, refused, large_pages) w
      ]
    ]

extra_range-Kept :
    {m : Places} {vm : Vm} (base len : ℕ) → IsIsolated m vm → Kept m (extra_range (base, len) vm).1
unfolding extra_range
extra_range-Kept base len ok = elim (Bool-cases (base == 0 || len == 0)) [
  | inl skipped ↦ rw skipped (Kept-refl ok)
  | inr wanted ↦ rw wanted (large_pages-Kept _ _ _ (omega arith) ok)
]

extra_ranges-Kept :
    (rs : List (ℕ × ℕ)) {m : Places} {vm : Vm} → IsIsolated m vm → Kept m (extra_ranges rs vm).1
unfolding extra_ranges
extra_ranges-Kept [] ok = Kept-refl ok
extra_ranges-Kept ((base, len) ∷ rs) {m} {vm} ok =
    let w : Kept m (extra_range (base, len) vm).1 = extra_range-Kept base len ok in
    elim (Bool-cases (extra_range (base, len) vm).0) [
      | inl done ↦ rw (done, extra_ranges) (Kept-trans w.extends (extra_ranges-Kept rs w.isolated))
      | inr refused ↦ rw (refused, extra_ranges) w
    ]

and_then-Kept :
    {m : Places} (r : Bool × Vm) (next : Vm → Bool × Vm)
    → Kept m r.1
    → ((m' : Places) (v : Vm) → IsIsolated m' v → Kept m' (next v).1)
    → Kept m (and_then r next).1
unfolding and_then
and_then-Kept (false, v) next w keeps = w
and_then-Kept (true, v) next w keeps = Kept-trans w.extends (keeps w.places v w.isolated)

fill_tables-Kept :
    {m : Places} {vm : Vm} (bi : BootInfo) (k : Machine)
    → IsIsolated m vm
    → Kept m (fill_tables bi k vm).1
unfolding fill_tables
fill_tables-Kept bi k ok =
    and_then-Kept _ _
      (and_then-Kept _ _
        (and_then-Kept _ _
          (and_then-Kept _ _ (large_pages-Kept 2048 0 0 refl ok)
            (λ m' v ok'. extra_ranges-Kept (extra bi k) ok'))
          (λ m' v ok'. protect-Kept k.text_start k.text_end pte_p refl ok'))
        (λ m' v ok'. protect-Kept k.rodata_start k.rodata_end _ (rodata_flags-closed v) ok'))
      (λ m' v ok'. protect-Kept k.data_start k.kernel_end _ (data_flags-closed v) ok')

-- No table at all.
abbrev no_places : Places
no_places = record { level = λ t. 0; block = λ t. 0 }

paging_init_given :
    (bi : BootInfo) (k : Machine) (vm : Vm) (n : ℕ)
    → (kalloc_page vm.heap).0 ≡ some n
    → paging_init bi k vm
      ≡ fill_tables bi k (record vm {
        heap = (kalloc_page vm.heap).1;
        tabs = clear_table n vm.tabs;
        pml4 = n;
        nx_ok = k.has_nx;
      })
unfolding paging_init
paging_init_given bi k vm n e =
    ap
      (λ (r : Option ℕ × Vm). elim r.0 as (λ p. Bool × Vm) [
        | none ↦ (false, record r.1 { pml4 = 0 })
        | some t ↦ fill_tables bi k (record r.1 { pml4 = t })
      ])
      (alloc_table_given (record vm { nx_ok = k.has_nx }) n e)

-- A clear PML4 alone.
root-IsIsolated :
    (vm : Vm) (n : ℕ)
    → Heap.Bounds.IsValid vm.heap
    → vm.heap.heap_end < 2 ^ 52
    → (kalloc_page vm.heap).0 ≡ some n
    → IsIsolated
        (put_place n 4 0 no_places)
        (record vm { heap = (kalloc_page vm.heap).1; tabs = clear_table n vm.tabs; pml4 = n })
unfolding clear_table
root-IsIsolated vm n valid small given = record {
  root = rw (==-refl n) (refl, refl);
  below = λ t used. elim (Bool-cases (t == n)) [
    | inl same ↦ ground (arith, kalloc_page-some n valid given)
    | inr apart ↦ absurd (used (rw apart refl))
  ];
  heap_ok = kalloc_page-IsValid valid;
  heap_low = omega (arith, small, kalloc_page_grows valid);
  entries = λ t i fits. elim (Bool-cases (n == t)) [
    | inl same ↦ rw same (absent-IsPlaced (put_place n 4 0 no_places) t i 0 refl)
    | inr apart ↦
        spare-IsPlaced (put_place n 4 0 no_places) t i (clear_table n vm.tabs t i) (ground arith)
  ];
}

-- A call that the rest of the kernel makes: of this file's interface, or of `kalloc`.
pub data Call : Type 0 where
  ensure_identity : (base len : ℕ) → Call
  user_map : (va pa : ℕ) (writable executable : Bool) → Call
  user_unmap_range : (va len : ℕ) → Call
  alloc : (n : ℕ) → Call

unfoldable pub run : List Call → Vm → Vm
run [] vm = vm
run (ensure_identity base len ∷ calls) vm = run calls (vm_ensure_identity base len vm)
run (user_map va pa w x ∷ calls) vm = run calls (vm_user_map va pa w x vm).1
run (user_unmap_range va len ∷ calls) vm = run calls (vm_user_unmap_range va len vm)
run (alloc n ∷ calls) vm = run calls (record vm { heap = (kalloc n vm.heap).1 })

alloc-IsIsolated :
    {m : Places} {vm : Vm} (n : ℕ)
    → IsIsolated m vm
    → IsIsolated m (record vm { heap = (kalloc n vm.heap).1 })
alloc-IsIsolated n ok = record {
  root = ok.root;
  below = λ t used. omega (arith, ok.below t used, kalloc_grows n ok.heap_ok);
  heap_ok = kalloc-IsValid n ok.heap_ok;
  heap_low = omega (arith, ok.heap_low, kalloc_grows n ok.heap_ok);
  entries = ok.entries;
}

pub run-Kept : (calls : List Call) {m : Places} {vm : Vm} → IsIsolated m vm → Kept m (run calls vm)
unfolding run
run-Kept [] ok = Kept-refl ok
run-Kept (ensure_identity base len ∷ calls) ok =
    let w = vm_ensure_identity-Kept base len ok in Kept-trans w.extends (run-Kept calls w.isolated)
run-Kept (user_map va pa w x ∷ calls) ok =
    let w = vm_user_map-Kept va pa w x ok in Kept-trans w.extends (run-Kept calls w.isolated)
run-Kept (user_unmap_range va len ∷ calls) ok =
    let w = vm_user_unmap_range-Kept va len ok in Kept-trans w.extends (run-Kept calls w.isolated)
run-Kept (alloc n ∷ calls) ok = run-Kept calls (alloc-IsIsolated n ok)

pub paging_init-Kept :
    (bi : BootInfo) (k : Machine) (vm : Vm) (n : ℕ)
    → Heap.Bounds.IsValid vm.heap
    → vm.heap.heap_end < 2 ^ 52
    → (kalloc_page vm.heap).0 ≡ some n
    → Kept (put_place n 4 0 no_places) (paging_init bi k vm).1
paging_init-Kept bi k vm n valid small given =
    rw (paging_init_given bi k vm n given)
      (fill_tables-Kept bi k (root-IsIsolated (record vm { nx_ok = k.has_nx }) n valid small given))

-- When `paging_init` finds a page for the PML4 in a valid heap that ends below 2^52, then from its
-- return on, whether it succeeded or not, and whatever calls the kernel makes afterwards in whatever
-- order, whether they succeed or run out of pages, ring 3 can access no 48-bit address outside the user
-- window.
pub run-user_access :
    (bi : BootInfo) (k : Machine) (vm : Vm) (n : ℕ) (calls : List Call) (va : ℕ)
    → Heap.Bounds.IsValid vm.heap
    → vm.heap.heap_end < 2 ^ 52
    → (kalloc_page vm.heap).0 ≡ some n
    → va < 2 ^ 48
    → (va < user_base) ⊎ (user_top ≤ va)
    → user_access va (run calls (paging_init bi k vm).1) ≡ false
run-user_access bi k vm n calls va valid small given fits outside =
    let w = paging_init-Kept bi k vm n valid small given in
    let w' = run-Kept calls w.isolated in closed_outside va w'.places _ fits w'.isolated outside
