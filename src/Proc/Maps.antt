-- ===== src/Proc/Maps.antt =====
-- Which pages `elf_run` maps for a program, as the calls of `vm_user_map` that it makes.
use mathlib.Core.Path.{subst}
use sacabambaspos.Base.{
  ℕ, zero, suc, ◌+◌, ◌-◌, ◌*◌, ◌/◌, ◌^◌, ◌≤◌, ◌<◌, ◌≡◌, ◌⊎◌, inl, inr, refl, arith, Bool, true,
  false, some, Bool-cases, Option-cases, ◌&&◌, ltb, ◌==◌, if◌then◌else◌, test_bit, u64,
}
use sacabambaspos.Libk.{Mem}
use sacabambaspos.Heap.{kalloc_page}
use sacabambaspos.Paging.{Vm, user_base, vm_user_map}
use sacabambaspos.Proc.{
  user_stack_top, ustack_lo, ustack_pages, Phdr, Image, phdr_at, load_page, load_pages,
  load_segment, verdict, Status, good, load_phdrs, stack_pages, u16_at, u64_at, header_ok, elf_load,
}
use sacabambaspos.Proc.Span.{
  IsSpan, Checked, verdict-Checked, Verdict-cases, Status-cases, load_segment-IsSpan,
  load_phdrs-IsSpan,
}

-- The second state comes from the first by calls of `vm_user_map`, each for a page with the property, not both writable
-- and executable, and to a frame that `kalloc_page` has just given and that may have been written; and by calls
-- of `kalloc_page` whose page is not used.
pub data Maps (P : ℕ → Type 0) (a : Vm) : Vm → Type 0 where
  start : Maps P a a
  takes : {b : Vm} → Maps P a b → Maps P a (record b { heap = (kalloc_page b.heap).1 })
  maps :
      {b : Vm} (page pa : ℕ) (w x : Bool) (m : Mem)
      → P page
      → w && x ≡ false
      → (kalloc_page b.heap).0 ≡ some pa
      → Maps P a b
      → Maps P a
          (vm_user_map page pa w x
            (record b { heap = record (kalloc_page b.heap).1 { mem = m } })).1

-- The pages of the program and those of its stack; a page is left free between them.
abbrev pub InProgram : ℕ → Type 0
InProgram page = (user_base ≤ page) × (page < ustack_lo - 4096)

abbrev pub InStack : ℕ → Type 0
InStack page = (ustack_lo ≤ page) × (page < user_stack_top)

abbrev pub InImage : Image → ℕ → Type 0
InImage s page = (s.img_lo ≤ page) × (page < s.img_hi)

weaken : {P Q : ℕ → Type 0} {a b : Vm} → ((page : ℕ) → P page → Q page) → Maps P a b → Maps Q a b
weaken f start = start
weaken f (takes m) = takes (weaken f m)
weaken f (maps page pa w x mem p e g m) = maps page pa w x mem (f page p) e g (weaken f m)

module _ (P : ℕ → Type 0) (a : Vm) where
  load_page-Maps :
      (va src filesz : ℕ) (w x : Bool) (page : ℕ) (vm : Vm)
      → w && x ≡ false
      → P page
      → Maps P a vm
      → Maps P a (load_page va src filesz w x page vm).1
  unfolding load_page
  load_page-Maps va src filesz w x page vm e p m = elim (Option-cases (kalloc_page vm.heap).0) [
    | inl refused ↦ rw (refused, load_page) (takes m)
    | inr (pa, given) ↦ rw (given, load_page) (maps page pa w x _ p e given m)
  ]

  load_pages-Maps :
      (n va src filesz : ℕ) (w x : Bool) (page : ℕ) (vm : Vm)
      → w && x ≡ false
      → ((k : ℕ) → k < n → P (page + k * 4096))
      → Maps P a vm
      → Maps P a (load_pages n va src filesz w x page vm).1
  unfolding load_pages
  load_pages-Maps zero va src filesz w x page vm e p m = m
  load_pages-Maps (suc n) va src filesz w x page vm e p m =
      let here =
        load_page-Maps va src filesz w x page vm e (subst P (omega arith) (p 0 (omega arith))) m in
      elim (Bool-cases (load_page va src filesz w x page vm).0) [
        | inl done ↦
            rw (done, load_pages)
              (load_pages-Maps n va src filesz w x (page + 4096) _ e
                (λ k lt. subst P (omega arith) (p (suc k) (omega arith))) here)
        | inr no_more ↦ rw (no_more, load_pages) here
      ]

  stack_pages-Maps :
      (n page : ℕ) (vm : Vm)
      → ((k : ℕ) → k < n → P (page + k * 4096))
      → Maps P a vm
      → Maps P a (stack_pages n page vm).1
  unfolding stack_pages
  stack_pages-Maps zero page vm p m = m
  stack_pages-Maps (suc n) page vm p m = elim (Option-cases (kalloc_page vm.heap).0) [
    | inl refused ↦ rw (refused, stack_pages) (takes m)
    | inr (pa, given) ↦
        let next : Vm = record vm { heap = (kalloc_page vm.heap).1 } in
        let here : Maps P a (vm_user_map page pa true false next).1 =
          maps page pa true false (kalloc_page vm.heap).1.mem
            (subst P (omega arith) (p 0 (omega arith))) refl given m in
        elim (Bool-cases (vm_user_map page pa true false next).0) [
          | inl done ↦
              rw (given, done, stack_pages)
                (stack_pages-Maps n (page + 4096) _
                  (λ k lt. subst P (omega arith) (p (suc k) (omega arith))) here)
          | inr no_more ↦ rw (given, no_more, stack_pages) here
        ]
  ]

-- What loading the headers makes of a state, whose pages so far are all in the image.
abbrev Loads : Vm → Status × Image → Type 0
Loads a (status, s) = Maps InProgram a s.vm × (status ≡ good → Maps (InImage s) a s.vm)

in_program : (s : Image) (page : ℕ) → IsSpan s → InImage s page → InProgram page
in_program s page (inl (lo, hi)) p = absurd (omega arith)
in_program s page (inr span) p = omega arith

-- The pages of a segment that has passed the checks.
module _ (size src : ℕ) (ph : Phdr) (a : Vm) (s : Image) (c : Checked size ph) (span : IsSpan s)
    (sofar : Maps (InImage s) a s.vm) where
  abbrev w : Bool
  w = test_bit ph.flags 1

  abbrev x : Bool
  x = test_bit ph.flags 0

  abbrev first : ℕ
  first = ph.vaddr / 4096 * 4096

  abbrev end : ℕ
  end = u64 (ph.vaddr + ph.memsz + 4095) / 4096 * 4096

  -- `load_segment`, wherever its pages are allowed to be.
  segment_pages :
      (P : ℕ → Type 0)
      → ((page : ℕ) → first ≤ page → page < end → P page)
      → ((page : ℕ) → InImage s page → P page)
      → Maps P a (load_pages ((end - first) / 4096) ph.vaddr src ph.filesz w x first s.vm).1
  segment_pages P here before =
      load_pages-Maps P a ((end - first) / 4096) ph.vaddr src ph.filesz w x first s.vm c.w_xor_x
        (λ k lt. here (first + k * 4096) (omega arith) (omega (arith, lt))) (weaken before sofar)

  load_segment-InProgram :
      Maps InProgram a (load_segment ph.vaddr src ph.filesz ph.memsz w x s).1.vm
  unfolding load_segment
  load_segment-InProgram =
      let here =
        segment_pages InProgram (λ page lo hi. omega (arith, c.above, c.below, lo, hi))
          (λ page. in_program s page span) in
      elim (Bool-cases
        (load_pages ((end - first) / 4096) ph.vaddr src ph.filesz w x first s.vm).0) [
          | inl done ↦ rw (done, load_segment) here
          | inr no_more ↦ rw (no_more, load_segment) here
        ]

  load_segment-InImage :
      (load_segment ph.vaddr src ph.filesz ph.memsz w x s).0 ≡ true
      → let s' = (load_segment ph.vaddr src ph.filesz ph.memsz w x s).1 in Maps (InImage s') a s'.vm
  unfolding load_segment
  load_segment-InImage =
      elim (Bool-cases
        (load_pages ((end - first) / 4096) ph.vaddr src ph.filesz w x first s.vm).0) [
          | inl done ↦
              rw (done, load_segment)
                (λ _.
                  segment_pages
                    (λ page.
                      ((if ltb first s.img_lo then first else s.img_lo) ≤ page)
                      × (page < (if ltb s.img_hi end then end else s.img_hi)))
                    (λ page lo hi. ground (arith, lo, hi)) (λ page old. ground (arith, old)))
          | inr no_more ↦ rw (no_more, load_segment) (λ e. cc)
        ]

load_phdrs-Loads :
    (n file size at : ℕ) (a : Vm) (s : Image)
    → IsSpan s
    → Maps (InImage s) a s.vm
    → Loads a (load_phdrs n file size at s)
unfolding load_phdrs
load_phdrs-Loads zero file size at a s span m = (weaken (λ page. in_program s page span) m, λ e. m)
load_phdrs-Loads (suc n) file size at a s span m = elim (Verdict-cases (verdict size ph)) [
  | inl skipped ↦ rw (skipped, load_phdrs) (load_phdrs-Loads n file size (at + 56) a s span m)
  | inr (inl refused) ↦
      rw (refused, load_phdrs) (weaken (λ page. in_program s page span) m, λ e. cc)
  | inr (inr loaded) ↦
      let c = verdict-Checked size ph loaded in
      elim (Bool-cases
        (load_segment ph.vaddr (file + ph.off) ph.filesz ph.memsz (test_bit ph.flags 1)
          (test_bit ph.flags 0) s).0) [
            | inl done ↦
                rw (loaded, done, load_phdrs)
                  (load_phdrs-Loads n file size (at + 56) a _
                    (load_segment-IsSpan size (file + ph.off) (test_bit ph.flags 1)
                      (test_bit ph.flags 0) ph s c span)
                    (load_segment-InImage size (file + ph.off) ph a s c span m done))
            | inr no_more ↦
                rw (loaded, no_more, load_phdrs)
                  (load_segment-InProgram size (file + ph.off) ph a s c span m, λ e. cc)
          ]
]
  where
    ph : Phdr
    ph = phdr_at s.vm.heap.mem at

-- The pages of the stack behind those of the program.
with_stack :
    (P : ℕ → Type 0) (a vm : Vm)
    → Maps P a vm
    → Maps (λ page. P page ⊎ InStack page) a (stack_pages ustack_pages ustack_lo vm).1
with_stack P a vm m =
    stack_pages-Maps (λ page. P page ⊎ InStack page) a ustack_pages ustack_lo vm
      (λ k lt. inr (omega (arith, lt), omega (arith, lt))) (weaken (λ page. inl) m)

IsSpan-some :
    (s : Image)
    → IsSpan s
    → s.img_hi == 0 ≡ false
    → (user_base ≤ s.img_lo) × (s.img_lo < s.img_hi) × (s.img_hi ≤ ustack_lo - 4096)
IsSpan-some s (inl (lo, hi)) e = absurd (ground (arith, hi, e))
IsSpan-some s (inr span) e = span

-- Whatever bytes stand where a program file is looked for, and however the load ends, also when
-- memory runs out within a segment, every call of vm_user_map that elf_run has made maps a frame
-- that kalloc_page has just given at a page of the user window up to a page below the stack, or at
-- one of the stack's, never both writable and executable; nothing else changes the page tables.
-- After a load that succeeds the program's pages are all from img_lo up to img_hi, which is the
-- range that the end of elf_run unmaps, not empty and within those bounds.
pub elf_load-Maps :
    (file size : ℕ) (vm : Vm)
    → let (status, s) = elf_load file size vm in
      Maps (λ page. InProgram page ⊎ InStack page) vm s.vm
      × (status ≡ good
          → (user_base ≤ s.img_lo)
            × (s.img_lo < s.img_hi)
            × (s.img_hi ≤ ustack_lo - 4096)
            × Maps (λ page. InImage s page ⊎ InStack page) vm s.vm)
unfolding elf_load
elf_load-Maps file size vm = elim (Bool-cases (header_ok file size m)) [
  | inr wrong ↦ rw (wrong, elf_load) (start, λ e. cc)
  | inl right ↦ elim (Status-cases (load_phdrs count file size at empty).0) [
    | inr (inl refused) ↦ rw (right, refused, elf_load) (weaken (λ page. inl) loads.0, λ e. cc)
    | inr (inr out) ↦ rw (right, out, elf_load) (weaken (λ page. inl) loads.0, λ e. cc)
    | inl loaded ↦ elim (Bool-cases ((load_phdrs count file size at empty).1.img_hi == 0)) [
      | inl nothing ↦ rw (right, loaded, nothing, elf_load) (weaken (λ page. inl) loads.0, λ e. cc)
      | inr something ↦
          let (low, some_pages, high) =
            IsSpan-some (load_phdrs count file size at empty).1 span something in
          rw (right, loaded, something, elf_load)
            (
              with_stack InProgram vm (load_phdrs count file size at empty).1.vm loads.0,
              λ e. (
                low,
                some_pages,
                high,
                with_stack (InImage (load_phdrs count file size at empty).1) vm
                    (load_phdrs count file size at empty).1.vm (loads.1 loaded),
              ),
            )
    ]
  ]
]
  where
    m : Mem
    m = vm.heap.mem

    count : ℕ
    count = u16_at m (file + 56)

    at : ℕ
    at = file + u64_at m (file + 32)

    empty : Image
    empty = record { vm = vm; img_lo = 2 ^ 64 - 1; img_hi = 0 }

    span : IsSpan (load_phdrs count file size at empty).1
    span = load_phdrs-IsSpan count file size at empty (inl (refl, refl))

    loads : Loads vm (load_phdrs count file size at empty)
    loads = load_phdrs-Loads count file size at vm empty (inl (refl, refl)) start
