-- ===== src/Proc/Isolation.antt =====
-- A program that is loaded keeps ring 3 in its window.
use sacabambaspos.Base.{
  ℕ, zero, suc, ◌+◌, ◌-◌, ◌*◌, ◌/◌, ◌^◌, ◌≤◌, ◌<◌, ◌≡◌, ◌⊎◌, inl, inr, Bool, true, false,
  Bool-cases, Option-cases, ◌==◌, test_bit, u64,
}
use sacabambaspos.Libk.{Mem}
use sacabambaspos.Heap.{kalloc_page}
use sacabambaspos.Paging.{Vm, user_base, user_top, vm_user_map}
use sacabambaspos.Paging.Window.{Places, IsIsolated, user_access, closed_outside}
use sacabambaspos.Paging.Isolation.{grown-IsIsolated}
use sacabambaspos.Paging.Isolation.Walks.{Kept, Kept-trans}
use sacabambaspos.Paging.Isolation.Maps.{Kept-refl, vm_user_map-Kept}
use sacabambaspos.Proc.{
  ustack_lo, ustack_pages, u16_at, u64_at, load_page, load_pages, load_segment, Image, phdr_at,
  verdict, load_phdrs, stack_pages, header_ok, elf_load, Phdr,
}
use sacabambaspos.Proc.Span.{Verdict-cases, Status-cases}

-- What is written to a page that is no table does not matter.
written-IsIsolated :
    {m : Places} {vm : Vm} (mem : Mem)
    → IsIsolated m vm
    → IsIsolated m (record vm { heap = record vm.heap { mem = mem } })
written-IsIsolated mem ok = record {
  root = ok.root;
  below = ok.below;
  heap_ok = record {
    started = ok.heap_ok.started;
    bounded = ok.heap_ok.bounded;
    no_wrap = ok.heap_ok.no_wrap;
  };
  heap_low = ok.heap_low;
  entries = ok.entries;
}

paged :
    {m : Places} {vm : Vm}
    → IsIsolated m vm
    → IsIsolated m (record vm { heap = (kalloc_page vm.heap).1 })
paged {m} {vm} ok = grown-IsIsolated vm.tabs ok.entries ok

load_page-Kept :
    {m : Places} {vm : Vm} (va src filesz : ℕ) (w x : Bool) (page : ℕ)
    → IsIsolated m vm
    → Kept m (load_page va src filesz w x page vm).1
unfolding load_page
load_page-Kept {m} {vm} va src filesz w x page ok = elim (Option-cases (kalloc_page vm.heap).0) [
  | inl refused ↦ rw (refused, load_page) (Kept-refl (paged ok))
  | inr (pa, given) ↦
      rw (given, load_page) (vm_user_map-Kept page pa w x (written-IsIsolated _ (paged ok)))
]

load_pages-Kept :
    (n : ℕ) {m : Places} {vm : Vm} (va src filesz : ℕ) (w x : Bool) (page : ℕ)
    → IsIsolated m vm
    → Kept m (load_pages n va src filesz w x page vm).1
unfolding load_pages
load_pages-Kept zero va src filesz w x page ok = Kept-refl ok
load_pages-Kept (suc n) {m} {vm} va src filesz w x page ok =
    let h : Kept m (load_page va src filesz w x page vm).1 =
      load_page-Kept va src filesz w x page ok in
    elim (Bool-cases (load_page va src filesz w x page vm).0) [
      | inl done ↦
          rw (done, load_pages)
            (Kept-trans h.extends (load_pages-Kept n va src filesz w x (page + 4096) h.isolated))
      | inr refused ↦ rw (refused, load_pages) h
    ]

load_segment-Kept :
    {m : Places} (va src filesz memsz : ℕ) (w x : Bool) (s : Image)
    → IsIsolated m s.vm
    → Kept m (load_segment va src filesz memsz w x s).1.vm
unfolding load_segment
load_segment-Kept {m} va src filesz memsz w x s ok =
    elim (Bool-cases (load_pages count va src filesz w x start s.vm).0) [
      | inl done ↦ rw (done, load_segment) h
      | inr refused ↦ rw (refused, load_segment) h
    ]
  where
    start : ℕ
    start = va / 4096 * 4096

    count : ℕ
    count = (u64 (va + memsz + 4095) / 4096 * 4096 - start) / 4096

    h : Kept m (load_pages count va src filesz w x start s.vm).1
    h = load_pages-Kept count va src filesz w x start ok

load_phdrs-Kept :
    (n : ℕ) {m : Places} (file size at : ℕ) (s : Image)
    → IsIsolated m s.vm
    → Kept m (load_phdrs n file size at s).1.vm
unfolding load_phdrs
load_phdrs-Kept zero file size at s ok = Kept-refl ok
load_phdrs-Kept (suc n) {m} file size at s ok = elim (Verdict-cases (verdict size ph)) [
  | inl skipped ↦ rw (skipped, load_phdrs) (load_phdrs-Kept n file size (at + 56) s ok)
  | inr (inl refused) ↦ rw (refused, load_phdrs) (Kept-refl ok)
  | inr (inr loaded) ↦
      elim (Bool-cases (load_segment ph.vaddr (file + ph.off) ph.filesz ph.memsz w x s).0) [
        | inl done ↦
            rw (loaded, done, load_phdrs)
              (Kept-trans h.extends (load_phdrs-Kept n file size (at + 56) _ h.isolated))
        | inr no_more ↦ rw (loaded, no_more, load_phdrs) h
      ]
]
  where
    ph : Phdr
    ph = phdr_at s.vm.heap.mem at

    w : Bool
    w = test_bit ph.flags 1

    x : Bool
    x = test_bit ph.flags 0

    h : Kept m (load_segment ph.vaddr (file + ph.off) ph.filesz ph.memsz w x s).1.vm
    h = load_segment-Kept ph.vaddr (file + ph.off) ph.filesz ph.memsz w x s ok

stack_pages-Kept :
    (n : ℕ) {m : Places} {vm : Vm} (page : ℕ) → IsIsolated m vm → Kept m (stack_pages n page vm).1
unfolding stack_pages
stack_pages-Kept zero page ok = Kept-refl ok
stack_pages-Kept (suc n) {m} {vm} page ok = elim (Option-cases (kalloc_page vm.heap).0) [
  | inl refused ↦ rw (refused, stack_pages) (Kept-refl (paged ok))
  | inr (pa, given) ↦
      let next : Vm = record vm { heap = (kalloc_page vm.heap).1 } in
      let h : Kept m (vm_user_map page pa true false next).1 =
        vm_user_map-Kept page pa true false (paged ok) in
      elim (Bool-cases (vm_user_map page pa true false next).0) [
        | inl done ↦
            rw (given, done, stack_pages)
              (Kept-trans h.extends (stack_pages-Kept n (page + 4096) h.isolated))
        | inr no_more ↦ rw (given, no_more, stack_pages) h
      ]
]

pub elf_load-Kept :
    {m : Places} {vm : Vm} (file size : ℕ) → IsIsolated m vm → Kept m (elf_load file size vm).1.vm
unfolding elf_load
elf_load-Kept {m} {vm} file size ok = elim (Bool-cases (header_ok file size vm.heap.mem)) [
  | inr wrong ↦ rw (wrong, elf_load) (Kept-refl ok)
  | inl right ↦ elim (Status-cases (load_phdrs count file size at empty).0) [
    | inr (inl refused) ↦ rw (right, refused, elf_load) h
    | inr (inr out) ↦ rw (right, out, elf_load) h
    | inl loaded ↦ elim (Bool-cases ((load_phdrs count file size at empty).1.img_hi == 0)) [
      | inl nothing ↦ rw (right, loaded, nothing, elf_load) h
      | inr something ↦
          rw (right, loaded, something, elf_load)
            (Kept-trans h.extends (stack_pages-Kept ustack_pages ustack_lo h.isolated))
    ]
  ]
]
  where
    count : ℕ
    count = u16_at vm.heap.mem (file + 56)

    at : ℕ
    at = file + u64_at vm.heap.mem (file + 32)

    empty : Image
    empty = record { vm = vm; img_lo = 2 ^ 64 - 1; img_hi = 0 }

    h : Kept m (load_phdrs count file size at empty).1.vm
    h = load_phdrs-Kept count file size at empty ok

-- Whatever bytes stand where a program file is looked for, and however the load ends, when ring 3 was
-- shut in the user window before the load (`IsIsolated`), it can access no 48-bit address outside the
-- window after it.
pub elf_load-user_access :
    (m : Places) (vm : Vm) (file size va : ℕ)
    → IsIsolated m vm
    → va < 2 ^ 48
    → (va < user_base) ⊎ (user_top ≤ va)
    → user_access va (elf_load file size vm).1.vm ≡ false
elf_load-user_access m vm file size va ok fits outside =
    let h : Kept m (elf_load file size vm).1.vm = elf_load-Kept file size ok in
    closed_outside va h.places _ fits h.isolated outside
