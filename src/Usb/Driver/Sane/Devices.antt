-- ===== src/Usb/Driver/Sane/Devices.antt =====
-- The bounds of the device table through the enumeration of a device.
use sacabambaspos.Base.{
  ℕ, ◌+◌, ◌^◌, ◌*◌, ◌≤◌, refl, arith, false, not, ◌||◌, Option, none, some, ltb, ◌==◌, bit_or,
  Bool-cases, inl, inr,
}
use sacabambaspos.Usb.TrbRing.{ring_init}
use sacabambaspos.Usb.Config.{KbdIf}
use sacabambaspos.Usb.Driver.{UsbDev}
use sacabambaspos.Usb.Driver.Devices.{
  Chip, Drv, device, put_dev, command, is_one, dma_alloc, poke, read_context,
}
use sacabambaspos.Usb.Driver.Enumerate.{
  enable_slot, with_ep0, with_octx, alloc_device, poke_ep, poke_tt, address_device, learn_mps,
  Described, describe, set_config, read_config, read_config_head, read_device, restart_ring,
  report_len, with_rbuf, with_epi, alloc_pipe, configure, arm_kbd, setup_keyboard, try_keyboard,
  finish, enum_addressed, enum_slot, enum_at, enum_dev, no_keyboard, kbd_recover,
}
use sacabambaspos.Usb.Driver.Sane.{IsSane, if-keeps, kbd_arm-Keeps}
use sacabambaspos.Usb.Driver.Sane.Steps.{
  Sound, move, device-IsSane, put_dev-Sound, change-Sound, command-Sound, ctrl_xfer-Sound,
  dev_drop-Sound,
}

enable_slot-Sound :
    (c : Chip) (i : ℕ) (s : Drv) → Sound c.slots s → Sound c.slots (enable_slot c i s).1
unfolding enable_slot
enable_slot-Sound c i s k =
    let s1 : Drv = (command 0 (9 * 2 ^ 10) s).1 in
    let k1 = command-Sound c.slots 0 (9 * 2 ^ 10) s k in
    let slot = s1.hc.x.waiter.wslotout in
    let v = device-IsSane c.slots i s1 k1 in
    elim (Bool-cases (not (is_one (command 0 (9 * 2 ^ 10) s).0) || slot == 0 || ltb c.slots slot)) [
      | inl e ↦ rw e (change-Sound c.slots i _ s1 refl refl refl refl k1)
      | inr e ↦
          let le : slot ≤ c.slots = ground (arith, e) in
          rw e (
            put_dev-Sound c.slots i _ s1
              (record { slot = le; rlen = v.rlen; epi = v.epi; ep0 = v.ep0 }) k1)
    ]

dma_alloc-Sound :
    (slots n align : ℕ) (s : Drv) → Sound slots s → Sound slots (dma_alloc n align s).1
unfolding dma_alloc
dma_alloc-Sound slots n align s k = move _ refl k

with_ep0-Sound :
    (slots i : ℕ) (page : Option ℕ) (s : Drv) → Sound slots s → Sound slots (with_ep0 i page s).1
unfolding with_ep0 ring_init
with_ep0-Sound slots i none s k = k
with_ep0-Sound slots i (some page) s k =
    let v = device-IsSane slots i s k in
    put_dev-Sound slots i _ s
      (record { slot = v.slot; rlen = v.rlen; epi = v.epi; ep0 = omega arith }) k

with_octx-Sound :
    (slots i : ℕ) (octx : Option ℕ) (s : Drv) → Sound slots s → Sound slots (with_octx i octx s).1
unfolding with_octx
with_octx-Sound slots i none s k = change-Sound slots i _ s refl refl refl refl k
with_octx-Sound slots i (some octx) s k =
    with_ep0-Sound slots i _ _
      (dma_alloc-Sound slots 4096 4096 _ (change-Sound slots i _ s refl refl refl refl k))

alloc_device-Sound :
    (slots : ℕ) (c : Chip) (i : ℕ) (s : Drv) → Sound slots s → Sound slots (alloc_device c i s).1
unfolding alloc_device
alloc_device-Sound slots c i s k = with_octx-Sound slots i _ _ (dma_alloc-Sound slots _ 64 s k)

poke_ep-Sound :
    (slots : ℕ) (c : Chip) (dci a d v : ℕ) (s : Drv)
    → Sound slots s
    → Sound slots (poke_ep c dci a d v s)
unfolding poke_ep
poke_ep-Sound slots c dci a d v s k = move _ refl k

poke_tt-Sound :
    (slots : ℕ) (c : Chip) (d : UsbDev) (p : Option UsbDev) (port : ℕ) (s : Drv)
    → Sound slots s
    → Sound slots (poke_tt c d p port s)
unfolding poke_tt
poke_tt-Sound slots c d none port s k = k
poke_tt-Sound slots c d (some p) port s k = if-keeps (Sound slots) _ (move (poke _ _ s) refl k) k

address_device-Sound :
    (slots : ℕ) (c : Chip) (i port : ℕ) (s : Drv)
    → Sound slots s
    → Sound slots (address_device c i port s).1
unfolding address_device
address_device-Sound slots c i port s k = command-Sound slots _ _ _ (
    poke_ep-Sound slots c _ _ _ _ _ (
      poke_tt-Sound slots c _ _ port _
        (move _ refl (change-Sound slots i _ s refl refl refl refl k))))

learn_mps-Sound :
    (slots : ℕ) (c : Chip) (i : ℕ) (s : Drv) → Sound slots s → Sound slots (learn_mps c i s)
unfolding learn_mps
learn_mps-Sound slots c i s k =
    if-keeps (Sound slots) _
      (command-Sound slots _ _ _ (
        poke_ep-Sound slots c _ _ _ _ _
          (move _ refl (change-Sound slots i _ s refl refl refl refl k))))
      k

set_config-Sound :
    (slots : ℕ) (c : Chip) (i devclass tot : ℕ) (s : Drv)
    → Sound slots s
    → Sound slots (set_config c i devclass tot s).1
unfolding set_config
set_config-Sound slots c i devclass tot s k =
    let k1 = ctrl_xfer-Sound slots c i 0x00 9 (s.reply 5) 0 0 s k in
    if-keeps (λ (r : Option Described × Drv). Sound slots r.1) _ k1 k1

read_config-Sound :
    (slots : ℕ) (c : Chip) (i devclass tot : ℕ) (s : Drv)
    → Sound slots s
    → Sound slots (read_config c i devclass tot s).1
unfolding read_config
read_config-Sound slots c i devclass tot s k =
    let k1 = ctrl_xfer-Sound slots c i 0x80 6 0x0200 0 tot s k in
    if-keeps (λ (r : Option Described × Drv). Sound slots r.1) _
      (set_config-Sound slots c i devclass tot _ k1) k1

read_config_head-Sound :
    (slots : ℕ) (c : Chip) (i devclass : ℕ) (s : Drv)
    → Sound slots s
    → Sound slots (read_config_head c i devclass s).1
unfolding read_config_head
read_config_head-Sound slots c i devclass s k =
    let k1 = ctrl_xfer-Sound slots c i 0x80 6 0x0200 0 9 s k in
    if-keeps (λ (r : Option Described × Drv). Sound slots r.1) _
      (read_config-Sound slots c i devclass _ _ k1) k1

read_device-Sound :
    (slots : ℕ) (c : Chip) (i : ℕ) (s : Drv) → Sound slots s → Sound slots (read_device c i s).1
unfolding read_device
read_device-Sound slots c i s k =
    let k1 = ctrl_xfer-Sound slots c i 0x80 6 0x0100 0 18 s k in
    if-keeps (λ (r : Option Described × Drv). Sound slots r.1) _
      (read_config_head-Sound slots c i _ _ k1) k1

describe-Sound :
    (slots : ℕ) (c : Chip) (i : ℕ) (s : Drv) → Sound slots s → Sound slots (describe c i s).1
unfolding describe
describe-Sound slots c i s k =
    let k1 = ctrl_xfer-Sound slots c i 0x80 6 0x0100 0 8 s k in
    if-keeps (λ (r : Option Described × Drv). Sound slots r.1) _
      (read_device-Sound slots c i _ (learn_mps-Sound slots c i _ k1)) k1

with_rbuf-Sound :
    (slots i mps : ℕ) (buf : Option ℕ) (s : Drv)
    → Sound slots s
    → Sound slots (with_rbuf i mps buf s).1
unfolding with_rbuf report_len
with_rbuf-Sound slots i mps none s k = change-Sound slots i _ s refl refl refl refl k
with_rbuf-Sound slots i mps (some b) s k =
    let v = device-IsSane slots i s k in
    put_dev-Sound slots i _ s
      (record { slot = v.slot; rlen = ground arith; epi = v.epi; ep0 = v.ep0 }) k

with_epi-Sound :
    (slots i mps : ℕ) (page : Option ℕ) (s : Drv)
    → Sound slots s
    → Sound slots (with_epi i mps page s).1
unfolding with_epi ring_init
with_epi-Sound slots i mps none s k = k
with_epi-Sound slots i mps (some page) s k =
    let v = device-IsSane slots i s k in
    with_rbuf-Sound slots i mps _ _ (
      dma_alloc-Sound slots 64 64 _ (
        put_dev-Sound slots i _ s
          (record { slot = v.slot; rlen = v.rlen; epi = omega arith; ep0 = v.ep0 }) k))

alloc_pipe-Sound :
    (slots i : ℕ) (f : KbdIf) (s : Drv) → Sound slots s → Sound slots (alloc_pipe i f s).1
unfolding alloc_pipe
alloc_pipe-Sound slots i f s k =
    with_epi-Sound slots i f.mps _ _
      (dma_alloc-Sound slots 4096 4096 _ (change-Sound slots i _ s refl refl refl refl k))

configure-Sound :
    (slots : ℕ) (c : Chip) (i : ℕ) (f : KbdIf) (s : Drv)
    → Sound slots s
    → Sound slots (configure c i f s).1
unfolding configure read_context
configure-Sound slots c i f s k =
    command-Sound slots _ _ _ (poke_ep-Sound slots c _ _ _ _ _ (move _ refl k))

arm_kbd-Sound : (slots i : ℕ) (s : Drv) → Sound slots s → Sound slots (arm_kbd i s)
unfolding arm_kbd
arm_kbd-Sound slots i s k = record { inner = kbd_arm-Keeps slots i s.hc.x k.inner }

setup_keyboard-Sound :
    (slots : ℕ) (c : Chip) (i : ℕ) (f : KbdIf) (s : Drv)
    → Sound slots s
    → Sound slots (setup_keyboard c i f s)
unfolding setup_keyboard
setup_keyboard-Sound slots c i f s k =
    let k1 = ctrl_xfer-Sound slots c i 0x21 0x0B 0 f.iface 0 s k in
    let k2 = ctrl_xfer-Sound slots c i 0x21 0x0A 0 f.iface 0 _ k1 in
    let k3 = alloc_pipe-Sound slots i f _ k2 in
    let k4 = configure-Sound slots c i f _ k3 in
    if-keeps (Sound slots) _ k3 (
      if-keeps (Sound slots) _ k4
        (arm_kbd-Sound slots i _ (change-Sound slots i _ _ refl refl refl refl k4)))

try_keyboard-Sound :
    (slots : ℕ) (c : Chip) (i : ℕ) (f : Option KbdIf) (s : Drv)
    → Sound slots s
    → Sound slots (try_keyboard c i f s)
unfolding try_keyboard
try_keyboard-Sound slots c i none s k = k
try_keyboard-Sound slots c i (some f) s k = setup_keyboard-Sound slots c i f s k

finish-Sound :
    (slots : ℕ) (c : Chip) (i : ℕ) (t : Option Described) (s : Drv)
    → Sound slots s
    → Sound slots (finish c i t s).1
unfolding finish
finish-Sound slots c i none s k = dev_drop-Sound slots i s k
finish-Sound slots c i (some t) s k =
    if-keeps (λ (r : Option ℕ × Drv). Sound slots r.1) _ k
      (try_keyboard-Sound slots c i t.keyboard s k)

enum_addressed-Sound :
    (slots : ℕ) (c : Chip) (i : ℕ) (code : Option ℕ) (s : Drv)
    → Sound slots s
    → Sound slots (enum_addressed c i code s).1
unfolding enum_addressed
enum_addressed-Sound slots c i code s k =
    if-keeps (λ (r : Option ℕ × Drv). Sound slots r.1) _ (dev_drop-Sound slots i s k)
      (finish-Sound slots c i _ _ (describe-Sound slots c i s k))

enum_slot-Sound :
    (slots : ℕ) (c : Chip) (i port : ℕ) (slot : Option ℕ) (s : Drv)
    → Sound slots s
    → Sound slots (enum_slot c i port slot s).1
unfolding enum_slot
enum_slot-Sound slots c i port none s k = k
enum_slot-Sound slots c i port (some slot) s k =
    let k1 = alloc_device-Sound slots c i s k in
    if-keeps (λ (r : Option ℕ × Drv). Sound slots r.1) _ (dev_drop-Sound slots i _ k1)
      (enum_addressed-Sound slots c i _ _ (address_device-Sound slots c i port _ k1))

enum_at-Sound :
    (c : Chip) (d : UsbDev) (port : ℕ) (i : Option ℕ) (s : Drv)
    → IsSane c.slots d
    → Sound c.slots s
    → Sound c.slots (enum_at c d port i s).1
unfolding enum_at
enum_at-Sound c d port none s v k = k
enum_at-Sound c d port (some i) s v k =
    enum_slot-Sound c.slots c i port _ _ (enable_slot-Sound c i _ (put_dev-Sound c.slots i d s v k))

pub enum_dev-Sound :
    (c : Chip) (rootport route speed : ℕ) (parent : Option ℕ) (port : ℕ) (s : Drv)
    → Sound c.slots s
    → Sound c.slots (enum_dev c rootport route speed parent port s).1
unfolding enum_dev
enum_dev-Sound c rootport route speed parent port s k = enum_at-Sound c _ port _ s (omega arith) k

no_keyboard-Sound : (slots i : ℕ) (s : Drv) → Sound slots s → Sound slots (no_keyboard i s)
unfolding no_keyboard
no_keyboard-Sound slots i s k = change-Sound slots i _ s refl refl refl refl k

restart_ring-Sound :
    (slots i whose : ℕ) (s : Drv) → Sound slots s → Sound slots (restart_ring i whose s)
unfolding restart_ring
restart_ring-Sound slots i whose s k =
    let e = (device i s).epi in
    let k1 =
      command-Sound slots (bit_or (e.phys + 16 * e.enq) e.cyc) (bit_or (16 * 2 ^ 10) whose) s k in
    if-keeps (Sound slots) _ (arm_kbd-Sound slots i _ k1) (no_keyboard-Sound slots i _ k1)

pub kbd_recover-Sound : (slots i : ℕ) (s : Drv) → Sound slots s → Sound slots (kbd_recover i s)
unfolding kbd_recover
kbd_recover-Sound slots i s k =
    let d = device i s in
    let whose = bit_or (d.dci * 2 ^ 16) (d.slot * 2 ^ 24) in
    let s1 = put_dev i (record d { need_recover = false }) s in
    let k1 =
      command-Sound slots 0 (bit_or (14 * 2 ^ 10) whose) s1
        (change-Sound slots i _ s refl refl refl refl k) in
    if-keeps (Sound slots) _ (no_keyboard-Sound slots i _ k1)
      (restart_ring-Sound slots i whose _ k1)
