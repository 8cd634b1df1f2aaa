-- ===== src/Descriptors/Tests.antt =====
-- Descriptors at concrete addresses.
use sacabambaspos.Base.{◌+◌, ◌*◌, ◌≡◌, arith, ◌==◌, if◌then◌else◌}
use sacabambaspos.Descriptors.{Idt, idt_init}
use sacabambaspos.Descriptors.Decode.{handler_of, idt_init_lem}

abbrev no_gates : Idt
no_gates i = record { off_lo = 0; sel = 0; ist = 0; attr = 0; off_mid = 0; off_hi = 0 }

idt_init_lem_example :
    (handler_of (idt_init 0x10_0000 no_gates 8) ≡ 0x10_0000 + 16 * 8)
    × ((idt_init 0x10_0000 no_gates 8).ist ≡ (if 8 == 8 then 1 else if 8 == 2 then 2 else 0))
    × ((idt_init 0x10_0000 no_gates 8).attr ≡ 0x8E)
    × ((idt_init 0x10_0000 no_gates 8).sel ≡ 8)
idt_init_lem_example = idt_init_lem 0x10_0000 8 no_gates (omega arith) (omega arith)
