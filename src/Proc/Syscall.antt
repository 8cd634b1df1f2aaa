-- ===== src/Proc/Syscall.antt =====
-- src/kernel/proc.c: the system calls; src/shared/sbos_abi.h: their numbers. The bytes of a user buffer
-- are read through the page tables, as the MMU does.
pub mod Keeps
pub mod Effects
mod Tests
use sacabambaspos.Base.{
  ℕ, zero, suc, ◌+◌, ◌-◌, ◌*◌, ◌/◌, ◌%◌, ◌^◌, bit_or, Bool, true, false, not, ◌&&◌, ◌||◌, Option,
  none, some, List, [], ◌∷◌, length, get_or, drop, ltb, leb, ◌==◌, if◌then◌else◌, u32, u64,
}
use sacabambaspos.Heap.{Request, allocate}
use sacabambaspos.Console.{Console, con_color, con_cursor, con_setxy, con_clear, con_putc}
use sacabambaspos.Paging.{Vm, find_pt, frame, index1, vm_user_ok}
use sacabambaspos.Kbd.{Kbd, Controller}
use sacabambaspos.Kbd.Getc.{Arrival, try, kbd_getc}

abbrev pub sys_exit : ℕ
sys_exit = 0

abbrev pub sys_write : ℕ
sys_write = 1

abbrev pub sys_getkey : ℕ
sys_getkey = 2

abbrev pub sys_sleep : ℕ
sys_sleep = 3

abbrev pub sys_ms : ℕ
sys_ms = 4

abbrev pub sys_color : ℕ
sys_color = 5

abbrev pub sys_setxy : ℕ
sys_setxy = 6

abbrev pub sys_consize : ℕ
sys_consize = 7

abbrev pub sys_clear : ℕ
sys_clear = 8

abbrev pub sys_cursor : ℕ
sys_cursor = 9

-- What the calls read and change. `arrivals` is what will come to the keyboards, one entry for each try of
-- `kbd_trygetc`, and `requests` what `usbkbd_poll` asks the heap for in each of them: it enumerates
-- the devices that are plugged in. The ticks that go by while a key is waited for are not counted.
pub record Sys : Type 0 where
  pub console : Console
  pub vm : Vm
  pub kbd : Kbd
  pub left : Controller
  pub arrivals : List Arrival
  pub requests : List (List Request)
  pub ticks : ℕ

-- The byte at a user address that is mapped.
unfoldable pub user_byte : Vm → ℕ → ℕ
unfolding find_pt
user_byte vm va = elim (find_pt va vm) [
  | none ↦ 0
  | some pt ↦ vm.heap.mem (frame (vm.tabs pt (index1 va)) + va % 4096)
]

-- Newline, tab, backspace and the printable characters.
unfoldable pub is_text : ℕ → Bool
is_text c = c == b'\n' || c == b'\t' || c == 8 || (leb 0x20 c && leb c 0x7E)

-- The loop of `SYS_WRITE` over `n` bytes from `a` on.
unfoldable pub write_loop : ℕ → ℕ → Vm → Console → Console
unfolding user_byte is_text
write_loop zero a vm s = s
write_loop (suc n) a vm s =
    let c = user_byte vm a in write_loop n (a + 1) vm (if is_text c then con_putc c s else s)

-- `while(ticks < until) hlt();` A tick comes within each `hlt`.
unfoldable pub wait_loop : ℕ → ℕ → ℕ → ℕ
wait_loop zero until ticks = ticks
wait_loop (suc n) until ticks =
    let more = wait_loop n until (ticks + 1) in if ltb ticks until then more else ticks

-- The call returns a value, ends the program with a code, or waits for a key that does not come.
pub data Outcome : Type 0 where
  value : ℕ → Outcome
  aborted : ℕ → Outcome
  waits : Outcome

abbrev minus_one : ℕ
minus_one = 2 ^ 64 - 1

abbrev key_value : Option ℕ → ℕ
key_value none = minus_one
key_value (some c) = c

unfoldable pub do_write : ℕ → ℕ → Sys → Outcome × Sys
do_write a b s =
    if ltb 65536 b || not (vm_user_ok a b s.vm)
    then (value minus_one, s)
    else (value b, record s { console = write_loop b a s.vm s.console })

-- The next arrival, or nothing new.
abbrev pub next_arrival : List Arrival → Arrival × List Arrival
next_arrival [] = ((none, []), [])
next_arrival (a ∷ later) = (a, later)

-- What the calls of `usbkbd_poll` in `n` tries take from the heap.
unfoldable pub poll_usb : ℕ → Sys → Sys
poll_usb zero s = s
poll_usb (suc n) s =
    let heap = (allocate (get_or s.requests 0 []) s.vm.heap).1 in
    poll_usb n (record s { vm = record s.vm { heap = heap }; requests = drop 1 s.requests })

unfoldable pub do_getkey : ℕ → Sys → Outcome × Sys
do_getkey a s =
    let (now, later) = next_arrival s.arrivals in
    if a == 0
    then elim (try now s.left s.kbd) [
      | none ↦ (waits, s)
      | some (key, k, left) ↦
          (value (key_value key), record (poll_usb 1 s) { kbd = k; left = left; arrivals = later })
    ]
    else elim (kbd_getc s.arrivals s.left s.kbd) [
      | none ↦ (waits, poll_usb (length s.arrivals) s)
      | some (c, k, left, later) ↦
          let s' = poll_usb (length s.arrivals - length later) s in
          (value c, record s' { kbd = k; left = left; arrivals = later })
    ]

unfoldable pub do_sleep : ℕ → Sys → Outcome × Sys
unfolding wait_loop
do_sleep a s =
    let ms = if ltb 60000 a then 60000 else a in
    let until = u64 (s.ticks + (ms + 9) / 10) in
    (value 0, record s { ticks = wait_loop (until - s.ticks) until s.ticks })

unfoldable pub syscall_dispatch : ℕ → ℕ → ℕ → Sys → Outcome × Sys
syscall_dispatch nr a b s =
    if nr == sys_exit
    then (aborted (a % 256), s)
    else if nr == sys_write
    then do_write a b s
    else if nr == sys_getkey
    then do_getkey a s
    else if nr == sys_sleep
    then do_sleep a s
    else if nr == sys_ms
    then (value (u64 (s.ticks * 10)), s)
    else if nr == sys_color
    then (value 0, record s { console = con_color (a % 16) (b % 16) s.console })
    else if nr == sys_setxy
    then (value 0, record s { console = con_setxy (u32 a) (u32 b) s.console })
    else if nr == sys_consize
    then (value (bit_or (s.console.cols * 2 ^ 16) s.console.rows), s)
    else if nr == sys_clear
    then (value 0, record s { console = con_clear s.console })
    else if nr == sys_cursor
    then (value 0, record s { console = con_cursor (not (a == 0)) s.console })
    else (value minus_one, s)
