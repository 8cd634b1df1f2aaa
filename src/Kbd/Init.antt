-- ===== src/Kbd/Init.antt =====
-- src/kernel/kbd.c: `kbd_init`. What the status and the data port answer is a list, in the order of the
-- questions, and past its end a port floats at 0xFF; what is written is a list too.
use sacabambaspos.Base.{
  ℕ, zero, suc, bit_or, bit_and, Bool, true, false, not, List, [], ◌∷◌, ◌++◌, ◌==◌, if◌then◌else◌,
  test_bit,
}
use sacabambaspos.Kbd.{Kbd}

pub record Ports : Type 0 where
  pub answers : List ℕ
  pub written : List (ℕ × ℕ)

unfoldable pub inb : Ports → ℕ × Ports
inb p = elim p.answers [ [] ↦ (0xFF, p) | v ∷ rest ↦ (v, record p { answers = rest }) ]

unfoldable pub outb : ℕ → ℕ → Ports → Ports
outb port v p = record p { written = p.written ++ ((port, v) ∷ []) }

-- A write to port 0x80.
unfoldable pub io_wait : Ports → Ports
unfolding outb
io_wait = outb 0x80 0

-- The loop of `kbc_wait_in`, `n` rounds at most; `true` is the 0 of a controller that accepts input.
unfoldable pub wait_in : ℕ → Ports → Bool × Ports
unfolding inb io_wait
wait_in zero p = (false, p)
wait_in (suc n) p =
    let (st, p') = inb p in
    let more = wait_in n (io_wait p') in
    if st == 0xFF then (false, p') else if not (test_bit st 1) then (true, p') else more

unfoldable pub kbc_wait_in : Ports → Bool × Ports
unfolding wait_in
kbc_wait_in = wait_in 50000

-- Stale scancodes, `n` at most.
unfoldable pub drain_stale : ℕ → Ports → Ports
unfolding inb io_wait
drain_stale zero p = p
drain_stale (suc n) p =
    let (st, p') = inb p in
    let more = drain_stale n (io_wait (inb p').1) in if test_bit st 0 then more else p'

-- The command byte, `n` rounds at most; `present` is `false` where the bus floats.
pub record CmdByte : Type 0 where
  pub present : Bool
  pub cmd : ℕ
  pub ports : Ports

unfoldable pub read_cmd : ℕ → Ports → CmdByte
unfolding inb io_wait
read_cmd zero p = record { present = true; cmd = 0x45; ports = p }
read_cmd (suc n) p =
    let (st, p1) = inb p in
    let (st', p2) = inb p1 in
    let (v, p3) = inb p2 in
    let more = read_cmd n (io_wait p2) in
    if st == 0xFF
    then record { present = false; cmd = 0x45; ports = p1 }
    else if test_bit st' 0
    then record { present = true; cmd = v; ports = p3 }
    else more

-- IRQ1 and the translation on, the keyboard's clock not off.
unfoldable pub armed_cmd : ℕ → ℕ
armed_cmd cmd = bit_and (bit_or cmd 0x41) 0xEF

unfoldable pub send_cmd : ℕ → Ports → Bool × Ports
unfolding kbc_wait_in outb armed_cmd
send_cmd cmd p =
    let (ok1, p1) = kbc_wait_in p in
    let (ok2, p2) = kbc_wait_in (outb 0x64 0x60 p1) in
    let (ok3, p3) = kbc_wait_in (outb 0x60 (armed_cmd cmd) p2) in
    if not ok1
    then (false, p1)
    else if not ok2
    then (false, p2)
    else (true, if ok3 then outb 0x60 0xF4 p3 else p3)

-- The conversation after the first status byte.
unfoldable pub arm : Ports → Bool × Ports
unfolding drain_stale kbc_wait_in read_cmd send_cmd
arm p =
    let (ok, p1) = kbc_wait_in (drain_stale 64 p) in
    let c = read_cmd 50000 (outb 0x64 0x20 p1) in
    if not ok
    then (false, p1)
    else if not c.present
    then (false, c.ports)
    else send_cmd c.cmd c.ports

-- The statics are reset in any case.
unfoldable pub reset_statics : Kbd → Kbd
reset_statics k = record {
  ring = record k.ring { rd = 0; wr = 0 };
  decoder = record { shift_l = false; shift_r = false; caps = false; ext = false };
}

unfoldable pub kbd_init : Kbd → Ports → Bool × Kbd × Ports
unfolding reset_statics arm
kbd_init k p =
    let (st, p1) = inb p in
    let (ok, p2) = if st == 0xFF then (false, p1) else arm p1 in (ok, reset_statics k, p2)
