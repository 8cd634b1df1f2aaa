-- ===== src/Proc/Tests.antt =====
-- The loader on a page of a small program.
use sacabambaspos.Base.{
  ◌+◌, ◌-◌, ◌≡◌, refl, arith, inl, ◌==◌, ◌&&◌, ltb, leb, if◌then◌else◌, true, false, some, Option,
  ℕ, List, [], ◌∷◌, get_or, ◌⊎◌, ◌≤◌, ◌<◌,
}
use sacabambaspos.Libk.{Mem, memset, memcmp_k}
use sacabambaspos.Heap.{Heap, kalloc_page}
use sacabambaspos.Heap.Bounds.{IsValid}
use sacabambaspos.Paging.{Vm, user_base}
use sacabambaspos.Paging.Init.{BootInfo, Machine, paging_init}
use sacabambaspos.Paging.Window.{user_access}
use sacabambaspos.Paging.Isolation.Calls.{paging_init-Kept}
use sacabambaspos.Proc.{
  Phdr, copy_slice, verdict, load, refuse, elf_load, phdr_at, header_ok, bytes_at, u16_at, u32_at,
  u64_at, is_zero, good, ustack_lo,
}
use sacabambaspos.Proc.Pak.{Pak}
use sacabambaspos.Proc.Load.{copy_slice_lem}
use sacabambaspos.Proc.Maps.{Maps, InProgram, InStack, InImage, elf_load-Maps}
use sacabambaspos.Proc.Isolation.{elf_load-user_access}

abbrev text : Phdr
text = record {
  type = 1;
  flags = 5;
  off = 0x1000;
  vaddr = 0x7000_0000_1000;
  filesz = 0x123;
  memsz = 0x200;
}

text_loads : verdict 0x2000 text ≡ load
unfolding verdict
text_loads = refl

-- The same asked for with W and X is refused.
writable_text : verdict 0x2000 (record text { flags = 7 }) ≡ refuse
unfolding verdict
writable_text = refl

-- Each address holds its low byte.
abbrev pattern : Mem
pattern a = a

-- The second page of a segment that starts in the middle of the page before.
copy_slice_lem_example :
    copy_slice 0x7000_0000_1800 0x5000 0x900 0x7000_0000_2000 0x9000
      (memset 0x9000 0 4096 pattern)
      (0x9000 + 0x20)
    ≡ (if leb 0x7000_0000_1800 (0x7000_0000_2000 + 0x20)
          && ltb (0x7000_0000_2000 + 0x20) (0x7000_0000_1800 + 0x900)
        then pattern (0x5000 + (0x7000_0000_2000 + 0x20 - 0x7000_0000_1800))
        else 0)
copy_slice_lem_example =
    copy_slice_lem 0x7000_0000_1800 0x5000 0x900 0x7000_0000_2000 0x9000 0x20 pattern (omega arith)
      (omega arith) (inl (omega arith))

abbrev start : Heap
start = record {
  heap_at = 0x100_0000;
  heap_end = 0x200_0000;
  heap_start = 0x100_0000;
  mem = pattern;
}

start-IsValid : IsValid start
start-IsValid = record { started = omega arith; bounded = omega arith; no_wrap = omega arith }

first_page : (kalloc_page start).0 ≡ some 0x100_0000
unfolding kalloc_page
first_page = refl

abbrev before : Vm
before = record { heap = start; tabs = λ t i. 7; pml4 = 0; nx_ok = false }

abbrev boot : BootInfo
boot = record {
  heap_base = 0x100_0000;
  heap_size = 0x100_0000;
  fb_base = 0;
  fb_width = 0;
  fb_height = 0;
  fb_pitch = 0;
  splash_base = 0;
  initrc_base = 0;
  initrc_size = 0;
}

abbrev machine : Machine
machine = record {
  text_start = 0x20_0000;
  text_end = 0x20_5000;
  rodata_start = 0x20_5000;
  rodata_end = 0x20_7000;
  data_start = 0x20_7000;
  kernel_end = 0x20_A000;
  apic_base = 0xFEE0_0900;
  has_nx = true;
}

-- A program file of one segment, at 0x80_0000.
abbrev program_bytes : List ℕ
program_bytes =
    127 ∷ 69 ∷ 76 ∷ 70 ∷ 2 ∷ 1 ∷ 1 ∷ 0 ∷ 0 ∷ 0 ∷ 0 ∷ 0 ∷ 0 ∷ 0 ∷ 0 ∷ 0 ∷ 2 ∷ 0 ∷ 62 ∷ 0 ∷ 1 ∷ 0 ∷ 0
    ∷ 0 ∷ 0 ∷ 0 ∷ 0 ∷ 0 ∷ 0 ∷ 112 ∷ 0 ∷ 0 ∷ 64 ∷ 0 ∷ 0 ∷ 0 ∷ 0 ∷ 0 ∷ 0 ∷ 0 ∷ 0 ∷ 0 ∷ 0 ∷ 0 ∷ 0 ∷ 0
    ∷ 0 ∷ 0 ∷ 0 ∷ 0 ∷ 0 ∷ 0 ∷ 64 ∷ 0 ∷ 56 ∷ 0 ∷ 1 ∷ 0 ∷ 0 ∷ 0 ∷ 0 ∷ 0 ∷ 0 ∷ 0 ∷ 1 ∷ 0 ∷ 0 ∷ 0 ∷ 5
    ∷ 0 ∷ 0 ∷ 0 ∷ 0 ∷ 0 ∷ 0 ∷ 0 ∷ 0 ∷ 0 ∷ 0 ∷ 0 ∷ 0 ∷ 0 ∷ 0 ∷ 0 ∷ 0 ∷ 112 ∷ 0 ∷ 0 ∷ 0 ∷ 0 ∷ 0 ∷ 0
    ∷ 0 ∷ 0 ∷ 0 ∷ 0 ∷ 120 ∷ 0 ∷ 0 ∷ 0 ∷ 0 ∷ 0 ∷ 0 ∷ 0 ∷ 200 ∷ 0 ∷ 0 ∷ 0 ∷ 0 ∷ 0 ∷ 0 ∷ 0 ∷ 0 ∷ 16 ∷ 0
    ∷ 0 ∷ 0 ∷ 0 ∷ 0 ∷ 0 ∷ []

abbrev program : Vm
program = record before {
  heap = record start { mem = λ a. get_or program_bytes (a - 0x80_0000) 0 };
}

program_accepted : header_ok 0x80_0000 120 program.heap.mem ≡ true
unfolding header_ok bytes_at u16_at u32_at u64_at is_zero memcmp_k
program_accepted = refl

segment_loaded : verdict 120 (phdr_at program.heap.mem 0x80_0040) ≡ load
unfolding verdict phdr_at u16_at u32_at u64_at
segment_loaded = refl

elf_load-Maps_example :
    let (status, s) = elf_load 0x80_0000 120 program in
    Maps (λ page. InProgram page ⊎ InStack page) program s.vm
    × (status ≡ good
        → (user_base ≤ s.img_lo)
          × (s.img_lo < s.img_hi)
          × (s.img_hi ≤ ustack_lo - 4096)
          × Maps (λ page. InImage s page ⊎ InStack page) program s.vm)
elf_load-Maps_example = elf_load-Maps 0x80_0000 120 program

elf_load-user_access_example :
    user_access 0x20_0000 (elf_load 0x80_0000 0x2000 (paging_init boot machine before).1).1.vm
    ≡ false
elf_load-user_access_example =
    elf_load-user_access _ (paging_init boot machine before).1 0x80_0000 0x2000 0x20_0000
      (paging_init-Kept boot machine before 0x100_0000 start-IsValid (omega arith)
        first_page).isolated
      (omega arith) (inl (omega arith))

-- An archive of one program `ab`.
abbrev one_program : Mem
one_program a = if a == 0x9010 then b'a' else if a == 0x9011 then b'b' else 0

abbrev archive : Option Pak
archive = some (record { base = 0x9000; count = 1; size = 0x1000 })
