-- ===== src/Irq/Tests.antt =====
-- The timer and a spurious interrupt of the slave.
use sacabambaspos.Base.{
  ℕ, ◌+◌, ◌≡◌, arith, true, [], ◌∷◌, ◌++◌, leb, ◌==◌, if◌then◌else◌, replicate, u64,
}
use sacabambaspos.Console.{Console}
use sacabambaspos.Irq.{Frame, Irqs, resumed, isr_common, pic1_cmd, pic2_cmd}
use sacabambaspos.Irq.Dispatch.{acks, genuine, isr_common-acks}

abbrev trap : ℕ → Frame
trap vec = record { rax = 0; rdi = 0; vec = vec; err = 0; rip = 0x1000; cs = 8; rsp = 0x2000 }

abbrev screen : Console
screen = record {
  cols = 1;
  rows = 1;
  cx = 0;
  cy = 0;
  cur_fg = 7;
  cur_bg = 0;
  cells = record { ch = 32; fg = 7; bg = 0 } ∷ [];
  cursor_on = true;
  serial = [];
  paints = [];
}

abbrev idle : Irqs
idle = record {
  ticks = 41;
  ring = record { slots = replicate 256 0; rd = 0; wr = 0 };
  controller = [];
  writes = [];
}

isr_common-acks_example :
    (s' : Irqs) × (isr_common (trap 47) 0 0 0 screen idle ≡ resumed s')
    × (acks s'.writes
        ≡ acks []
          ++ (if leb 48 47
              then []
              else if leb 40 47
              then (if genuine 47 0 0 then pic2_cmd ∷ pic1_cmd ∷ [] else pic1_cmd ∷ [])
              else if genuine 47 0 0
              then pic1_cmd ∷ []
              else []))
    × (s'.ticks ≡ (if 47 == 32 then u64 (41 + 1) else 41))
isr_common-acks_example = isr_common-acks (trap 47) 0 0 0 screen idle (omega arith)
