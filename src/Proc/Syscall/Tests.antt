-- ===== src/Proc/Syscall/Tests.antt =====
-- System calls of a program whose pages all lie in frame 0x1000.
use sacabambaspos.Base.{
  ◌-◌, ◌%◌, ◌^◌, ◌≡◌, refl, arith, true, false, ◌&&◌, some, inl, inr, [], ◌∷◌, leb, if◌then◌else◌,
  replicate,
}
use sacabambaspos.Heap.{bytes, page}
use sacabambaspos.Console.{Console, con_puts}
use sacabambaspos.Console.Cursor as Cursor
use sacabambaspos.Paging.{Vm, find_pt, vm_user_ok}
use sacabambaspos.Proc.Syscall.{Sys, value, user_byte, sys_write, syscall_dispatch}
use sacabambaspos.Proc.Syscall.Keeps.{Keeps}
use sacabambaspos.Proc.Syscall.Effects.{
  StandAt, Shown, none_left, kept, dropped, syscall_dispatch-write,
}

abbrev screen : Console
screen = record {
  cols = 2;
  rows = 1;
  cx = 0;
  cy = 0;
  cur_fg = 7;
  cur_bg = 0;
  cells = replicate 2 (record { ch = 32; fg = 7; bg = 0 });
  cursor_on = true;
  serial = [];
  paints = [];
}

abbrev mapped : Vm
mapped = record {
  heap = record {
    heap_at = 0x10_0000;
    heap_end = 0x20_0000;
    heap_start = 0x10_0000;
    mem = λ a. a % 256;
  };
  tabs = λ t i. 0x1007;
  pml4 = 0;
  nx_ok = false;
}

abbrev running : Sys
running = record {
  console = screen;
  vm = mapped;
  kbd = record {
    ring = record { slots = replicate 256 0; rd = 0; wr = 0 };
    decoder = record { shift_l = false; shift_r = false; caps = false; ext = false };
  };
  left = [];
  arrivals = (some b'q', []) ∷ [];
  requests = (bytes 2112 ∷ page ∷ []) ∷ [];
  ticks = 100;
}

-- The bytes at 0x7000_0000_0007 are 7 to 10.
low_bytes : StandAt mapped 0x7000_0000_0007 (7 ∷ 8 ∷ 9 ∷ 10 ∷ [])
unfolding user_byte find_pt
low_bytes = (refl, (refl, (refl, (refl, tt))))

three_of_four : Shown (7 ∷ 8 ∷ 9 ∷ 10 ∷ []) (8 ∷ 9 ∷ 10 ∷ [])
three_of_four =
    dropped (λ h. omega arith)
      (kept (inr (inr (inl refl))) (kept (inr (inl refl)) (kept (inl refl) none_left)))

syscall_dispatch-write_example : syscall_dispatch sys_write 0x7000_0000_0007 4 running ≡ (
    if leb 4 65536 && vm_user_ok 0x7000_0000_0007 4 mapped
    then (value 4, record running { console = con_puts (8 ∷ 9 ∷ 10 ∷ []) screen })
    else (value (2 ^ 64 - 1), running))
syscall_dispatch-write_example =
    syscall_dispatch-write 0x7000_0000_0007 running (7 ∷ 8 ∷ 9 ∷ 10 ∷ []) (8 ∷ 9 ∷ 10 ∷ [])
      low_bytes three_of_four
