-- ===== src/Paging/Tests.antt =====
-- The tables of a small machine.
use sacabambaspos.Base.{◌≤◌, ◌<◌, ◌*◌, ◌/◌, ◌≡◌, refl, arith, inl, true, false, List, [], ◌∷◌, some}
use sacabambaspos.Heap.{Heap, kalloc_page}
use sacabambaspos.Heap.Bounds.{IsValid}
use sacabambaspos.Paging.{Vm, find_pt, page_ok, pages_ok, vm_user_ok}
use sacabambaspos.Paging.UserOk.{vm_user_ok-page_ok}
use sacabambaspos.Paging.Init.{BootInfo, Machine, paging_init}
use sacabambaspos.Paging.Window.{user_access}
use sacabambaspos.Paging.Isolation.Calls.{
  Call, ensure_identity, user_map, user_unmap_range, alloc, run, run-user_access,
}

-- 16 MiB of heap from 16 MiB on.
abbrev start : Heap
start = record {
  heap_at = 0x100_0000;
  heap_end = 0x200_0000;
  heap_start = 0x100_0000;
  mem = λ x. 0;
}

start-IsValid : IsValid start
start-IsValid = record { started = omega arith; bounded = omega arith; no_wrap = omega arith }

-- Every word of memory holds an entry that is open to ring 3.
abbrev dirty : Vm
dirty = record { heap = start; tabs = λ t i. 7; pml4 = 0; nx_ok = false }

abbrev boot : BootInfo
boot = record {
  heap_base = 0x100_0000;
  heap_size = 0x100_0000;
  fb_base = 0x80_0000_0000;
  fb_width = 1024;
  fb_height = 768;
  fb_pitch = 1024;
  splash_base = 0;
  initrc_base = 0;
  initrc_size = 0;
}

abbrev machine : Machine
machine = record {
  text_start = 0x20_0000;
  text_end = 0x20_5000;
  rodata_start = 0x20_5000;
  rodata_end = 0x20_7000;
  data_start = 0x20_7000;
  kernel_end = 0x20_A000;
  apic_base = 0xFEE0_0900;
  has_nx = true;
}

first_page : (kalloc_page start).0 ≡ some 0x100_0000
unfolding kalloc_page
first_page = refl

-- A page of the kernel is mapped into the window, and one outside is asked for.
abbrev calls : List Call
calls =
    user_map 0x7000_0000_0000 0x20_7000 true false
    ∷ alloc 100
    ∷ user_map 0x20_7000 0x20_7000 true true
    ∷ user_unmap_range 0x20_0000 0x1_0000
    ∷ ensure_identity 0x7000_0000_0000 0x1000
    ∷ []

run-user_access_example :
    user_access 0x20_7000 (run calls (paging_init boot machine dirty).1) ≡ false
run-user_access_example =
    run-user_access boot machine dirty 0x100_0000 calls 0x20_7000 start-IsValid (omega arith)
      first_page (omega arith) (inl (omega arith))

-- One page serves as the table of every level, and maps itself.
abbrev looped : Vm
looped = record { heap = start; tabs = λ t i. 0x1007; pml4 = 0x1000; nx_ok = false }

looped_ok : vm_user_ok 0x7000_0000_0FF0 0x20 looped ≡ true
unfolding vm_user_ok pages_ok page_ok find_pt
looped_ok = refl

vm_user_ok-page_ok_example :
    (0x7000_0000_0000 ≤ 0x7000_0000_1001)
    × (0x7000_0000_1001 < 0x7001_0000_0000)
    × (page_ok (0x7000_0000_1001 / 4096 * 4096) looped ≡ true)
vm_user_ok-page_ok_example =
    vm_user_ok-page_ok 0x7000_0000_0FF0 0x20 0x7000_0000_1001 looped looped_ok (omega arith)
      (omega arith)
