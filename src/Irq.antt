-- ===== src/Irq.antt =====
-- src/kernel/kmain.c: `isr_common` and `panic`, and what the PIC, the PIT and the local APIC are told.
-- A port is its number; what is written is a list in order, and what a PIC's in-service register answers
-- is an argument.
pub mod Dispatch
mod Tests
use sacabambaspos.Base.{
  ℕ, zero, suc, ◌+◌, ◌-◌, ◌*◌, ◌/◌, ◌%◌, ◌^◌, Bool, true, false, not, ◌&&◌, ◌||◌, List, [], ◌∷◌,
  ◌++◌, ltb, leb, ◌==◌, if◌then◌else◌, test_bit, u32, u64, ◌▷◌,
}
use sacabambaspos.Exc.{exc_name}
use sacabambaspos.Console.{Console, con_color, con_fg, con_puts, con_cursor}
use sacabambaspos.Console.Numbers.{con_put_u64, con_put_hex}
use sacabambaspos.Console.Log.{put, c_black, c_red, c_lgrey, c_lred, c_white}
use sacabambaspos.Ring.{Ring}
use sacabambaspos.Kbd.{Controller, kbd_poll}
use sacabambaspos.Proc.Exec.{proc_fault}

-- The words of `struct frame` that are read.
pub record Frame : Type 0 where
  pub rax : ℕ
  pub rdi : ℕ
  pub vec : ℕ
  pub err : ℕ
  pub rip : ℕ
  pub cs : ℕ
  pub rsp : ℕ

-- `cr2` is the address of a page fault.
unfoldable pub panic : Frame → ℕ → Console → Console
panic f cr2 s =
    let s' =
      s
      ▷ con_color c_white c_red
      ▷ put "\n  KERNEL PANIC  "
      ▷ con_color c_lred c_black
      ▷ put " cpu exception "
      ▷ con_put_u64 f.vec
      ▷ put " ("
      ▷ con_puts (exc_name f.vec)
      ▷ put ")\n"
      ▷ con_fg c_lgrey
      ▷ put "  rip="
      ▷ con_put_hex f.rip
      ▷ put "  err="
      ▷ con_put_hex f.err in
    (if f.vec == 14 then s' ▷ put "  cr2=" ▷ con_put_hex cr2 else s')
    ▷ put "\n  rsp="
    ▷ con_put_hex f.rsp
    ▷ put "  rax="
    ▷ con_put_hex f.rax
    ▷ put "  rdi="
    ▷ con_put_hex f.rdi
    ▷ put "\n\n  system halted - power off or reboot. nothing was written to disk.\n"
    ▷ con_cursor false

abbrev pub Writes : Type 0
Writes = List (ℕ × ℕ)

abbrev pub pic1_cmd : ℕ
pic1_cmd = 0x20

abbrev pub pic1_dat : ℕ
pic1_dat = 0x21

abbrev pub pic2_cmd : ℕ
pic2_cmd = 0xA0

abbrev pub pic2_dat : ℕ
pic2_dat = 0xA1

-- What an interrupt can change: the clock, the scancode ring, the 8042, and the ports written so far,
-- oldest first.
pub record Irqs : Type 0 where
  pub ticks : ℕ
  pub ring : Ring
  pub controller : Controller
  pub writes : Writes

unfoldable pub outb : ℕ → ℕ → Irqs → Irqs
outb port v s = record s { writes = s.writes ++ ((port, v) ∷ []) }

-- The question to a PIC for its in-service register.
unfoldable pub ask_isr : ℕ → Irqs → Irqs
unfolding outb
ask_isr port s = outb port 0x0B s

unfoldable pub kbd_irq : Irqs → Irqs
unfolding kbd_poll
kbd_irq s = let (r, k) = kbd_poll s.controller s.ring in record s { ring = r; controller = k }

-- The handler returns, the process is killed with a code, or the kernel stops.
pub data Handled : Type 0 where
  resumed : Irqs → Handled
  killed : ℕ → Console → Handled
  halted : Console → Handled

-- The end of `isr_common`: the clock, the keyboard and the acknowledgement.
unfoldable pub serve : ℕ → Irqs → Irqs
unfolding kbd_irq outb
serve vec s =
    let s' =
      if vec == 32
      then record s { ticks = u64 (s.ticks + 1) }
      else if vec == 33
      then kbd_irq s
      else s in
    outb pic1_cmd 0x20 (if leb 40 vec then outb pic2_cmd 0x20 s' else s')

-- `isr1` and `isr2` are what the in-service registers answer.
unfoldable pub isr_irq : ℕ → ℕ → ℕ → Irqs → Irqs
unfolding serve ask_isr
isr_irq vec isr1 isr2 s =
    if leb 48 vec
    then s
    else if vec == 39
    then (if test_bit isr1 7 then serve vec (ask_isr pic1_cmd s) else ask_isr pic1_cmd s)
    else if vec == 47
    then (if test_bit isr2 7
        then serve vec (ask_isr pic2_cmd s)
        else outb pic1_cmd 0x20 (ask_isr pic2_cmd s))
    else serve vec s

unfoldable pub isr_common : Frame → ℕ → ℕ → ℕ → Console → Irqs → Handled
unfolding isr_irq
isr_common f cr2 isr1 isr2 c s =
    if ltb f.vec 32
    then (if f.cs % 4 == 0
        then halted (panic f cr2 c)
        else (let (code, c') = proc_fault f.vec f.rip cr2 c in killed code c'))
    else resumed (isr_irq f.vec isr1 isr2 s)

-- `io_wait` writes 0 to port 0x80.
abbrev waited : ℕ → ℕ → Writes
waited port v = (port, v) ∷ (0x80, 0) ∷ []

unfoldable pub pic_init : Writes
pic_init =
    waited pic1_cmd 0x11
    ++ (waited pic2_cmd 0x11
        ++ (waited pic1_dat 0x20
            ++ (waited pic2_dat 0x28
                ++ (waited pic1_dat 0x04
                    ++ (waited pic2_dat 0x02
                        ++ (waited pic1_dat 0x01
                            ++ (waited pic2_dat 0x01
                                ++ ((pic1_dat, 0xFC) ∷ (pic2_dat, 0xFF) ∷ []))))))))

unfoldable pub pit_init : Writes
pit_init =
    let div : ℕ = 1193182 / 100 in (0x43, 0x36) ∷ (0x40, div % 256) ∷ (0x40, div / 256 % 256) ∷ []

-- The registers that `lapic_init` writes, in order, when the APIC is there and enabled: `edx` is the word
-- of `cpuid(1)`, `base` the register 0x1B, `version` what register 0x30 answers.
unfoldable pub lapic_init : ℕ → ℕ → ℕ → Bool × Writes
lapic_init edx base version =
    let maxlvt = version / 2 ^ 16 % 256 in
    let perf : Writes = if leb 4 maxlvt then (0x340, 2 ^ 16) ∷ [] else [] in
    let thermal : Writes = if leb 5 maxlvt then (0x330, 2 ^ 16) ∷ [] else [] in
    if not (test_bit edx 9) then (false, []) else if not (test_bit base 11) then (false, []) else (
      true,
      ((0xF0, 0x1FF) ∷ (0x320, 2 ^ 16) ∷ [])
          ++ (perf ++ (thermal ++ ((0x370, 2 ^ 16) ∷ (0x350, 0x700) ∷ (0x360, 0x400) ∷ []))),
    )
