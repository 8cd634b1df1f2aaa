-- ===== src/Usb/Driver/Enumerate.antt =====
-- src/kernel/usb.c: `enum_device` in its stages, and `kbd_recover`. A stage that fails drops the device.
use sacabambaspos.Base.{
  ℕ, ◌+◌, ◌-◌, ◌*◌, ◌/◌, ◌%◌, ◌^◌, Bool, true, false, not, ◌&&◌, ◌||◌, Option, none, some,
  replicate, ltb, leb, ◌==◌, if◌then◌else◌, bit_or, bit_and, u16, ◌▷◌,
}
use sacabambaspos.Usb.TrbRing.{ring_init}
use sacabambaspos.Usb.Interval.{ep_interval}
use sacabambaspos.Usb.Config.{KbdIf, find_kbd_if}
use sacabambaspos.Usb.Driver.{UsbDev, unused, kbd_arm}
use sacabambaspos.Usb.Driver.Devices.{
  Chip, Drv, device, put_dev, dma_alloc, command, is_one, timed_out, ctrl_xfer, free_dev, dev_drop,
  clear_inputs, poke, slot_word, ep_word, read_context,
}

-- A slot is asked for; `none` when there is none to be had.
unfoldable pub enable_slot : Chip → ℕ → Drv → Option ℕ × Drv
unfolding put_dev device
enable_slot c i s =
    let (code, s1) = command 0 (9 * 2 ^ 10) s in
    let slot = s1.hc.x.waiter.wslotout in
    if not (is_one code) || slot == 0 || ltb c.slots slot
    then (none, put_dev i (record (device i s1) { used = false }) s1)
    else (some slot, put_dev i (record (device i s1) { slot = slot }) s1)

-- `octx` and the ring of the default endpoint; `false` when the heap is used up.
unfoldable pub with_ep0 : ℕ → Option ℕ → Drv → Bool × Drv
unfolding put_dev device
with_ep0 i none s = (false, s)
with_ep0 i (some page) s = (true, put_dev i (record (device i s) { ep0 = ring_init page }) s)

unfoldable pub with_octx : ℕ → Option ℕ → Drv → Bool × Drv
unfolding put_dev device
with_octx i none s = (false, put_dev i (record (device i s) { octx = 0 }) s)
with_octx i (some octx) s =
    let (page, s') = dma_alloc 4096 4096 (put_dev i (record (device i s) { octx = octx }) s) in
    with_ep0 i page s'

unfoldable pub alloc_device : Chip → ℕ → Drv → Bool × Drv
alloc_device c i s = let (octx, s') = dma_alloc (c.csz * 32) 64 s in with_octx i octx s'

unfoldable pub first_mps : ℕ → ℕ
first_mps speed = if speed == 3 then 64 else if leb 4 speed then 512 else 8

-- The words 1 to 4 of an endpoint's context.
unfoldable pub poke_ep : Chip → ℕ → ℕ → ℕ → ℕ → Drv → Drv
unfolding poke
poke_ep c dci attributes deq average s =
    s
    ▷ poke (ep_word c dci 1) attributes
    ▷ poke (ep_word c dci 2) deq
    ▷ poke (ep_word c dci 3) (deq / 2 ^ 32)
    ▷ poke (ep_word c dci 4) average

-- The transaction translator of a slow device below a fast hub.
unfoldable pub poke_tt : Chip → UsbDev → Option UsbDev → ℕ → Drv → Drv
unfolding poke
poke_tt c d none parentport s = s
poke_tt c d (some p) parentport s =
    if p.speed == 3 && (d.speed == 1 || d.speed == 2)
    then poke (slot_word c 2) (bit_or p.slot (parentport * 2 ^ 8)) s
    else s

unfoldable pub hub_above : Option ℕ → Drv → Option UsbDev
unfolding device
hub_above none s = none
hub_above (some j) s = some (device j s)

-- Address Device.
unfoldable pub address_device : Chip → ℕ → ℕ → Drv → Option ℕ × Drv
unfolding put_dev device poke clear_inputs first_mps
address_device c i parentport s0 =
    let d0 = device i s0 in
    let s1 : Drv = record s0 { dcbaa = λ j. if j == d0.slot then d0.octx else s0.dcbaa j } in
    let mps0 = first_mps d0.speed in
    let s2 = clear_inputs (put_dev i (record d0 { mps0 = mps0 }) s1) in
    let s3 =
      s2
      ▷ poke 1 3
      ▷ poke (slot_word c 0) (bit_or (bit_or d0.route (d0.speed * 2 ^ 20)) (2 ^ 27))
      ▷ poke (slot_word c 1) (d0.rootport * 2 ^ 16) in
    let s4 = poke_tt c d0 (hub_above d0.parent s0) parentport s3 in
    let attributes = bit_or (bit_or (3 * 2) (4 * 2 ^ 3)) (mps0 * 2 ^ 16) in
    command c.ictx (bit_or (11 * 2 ^ 10) (d0.slot * 2 ^ 24))
      (poke_ep c 1 attributes (bit_or d0.ep0.phys 1) 8 s4)

-- The packet size that the device says; the shift count is taken as the CPU does, in five bits.
unfoldable pub told_mps : ℕ → ℕ → ℕ
told_mps speed b7 = if leb 4 speed then u16 (2 ^ (b7 % 32)) else b7

unfoldable pub learn_mps : Chip → ℕ → Drv → Drv
unfolding put_dev device poke clear_inputs told_mps
learn_mps c i s =
    let d = device i s in
    let mps = told_mps d.speed (s.reply 7) in
    let s1 = clear_inputs (put_dev i (record d { mps0 = mps }) s) in
    let attributes = bit_or (bit_or (3 * 2) (4 * 2 ^ 3)) (mps * 2 ^ 16) in
    let s2 = poke_ep c 1 attributes 0 8 (poke 1 2 s1) in
    let s3 = (command c.ictx (bit_or (13 * 2 ^ 10) (d.slot * 2 ^ 24)) s2).1 in
    if leb 8 mps && not (mps == d.mps0) then s3 else s

-- What the descriptors say: the class of the device, and the keyboard among its interfaces.
pub record Described : Type 0 where
  pub devclass : ℕ
  pub keyboard : Option KbdIf

-- The length of the configuration, as far as the buffer goes.
unfoldable pub config_len : ℕ → ℕ
config_len told = if ltb 512 told then 512 else told

-- The descriptors are read and the configuration is set, from the last transfer to the first; `none` when a
-- transfer fails.
unfoldable pub set_config : Chip → ℕ → ℕ → ℕ → Drv → Option Described × Drv
set_config c i devclass tot s =
    let (code, s') = ctrl_xfer c i 0x00 9 (s.reply 5) 0 0 s in
    let t : Described = record { devclass = devclass; keyboard = find_kbd_if s.reply tot } in
    if is_one code then (some t, s') else (none, s')

unfoldable pub read_config : Chip → ℕ → ℕ → ℕ → Drv → Option Described × Drv
read_config c i devclass tot s =
    let (code, s') = ctrl_xfer c i 0x80 6 0x0200 0 tot s in
    if is_one code then set_config c i devclass tot s' else (none, s')

unfoldable pub read_config_head : Chip → ℕ → ℕ → Drv → Option Described × Drv
unfolding config_len
read_config_head c i devclass s =
    let (code, s') = ctrl_xfer c i 0x80 6 0x0200 0 9 s in
    let told = s'.reply 2 + 256 * s'.reply 3 in
    if is_one code && leb 9 told then read_config c i devclass (config_len told) s' else (none, s')

unfoldable pub read_device : Chip → ℕ → Drv → Option Described × Drv
read_device c i s =
    let (code, s') = ctrl_xfer c i 0x80 6 0x0100 0 18 s in
    if is_one code then read_config_head c i (s'.reply 4) s' else (none, s')

unfoldable pub describe : Chip → ℕ → Drv → Option Described × Drv
describe c i s =
    let (code, s') = ctrl_xfer c i 0x80 6 0x0100 0 8 s in
    if is_one code then read_device c i (learn_mps c i s') else (none, s')

unfoldable pub report_len : ℕ → ℕ
report_len mps = if ltb mps 8 then 8 else if ltb 64 mps then 64 else mps

-- The ring and the buffer of the reports; `false` when the heap is used up.
unfoldable pub with_rbuf : ℕ → ℕ → Option ℕ → Drv → Bool × Drv
unfolding put_dev device report_len
with_rbuf i mps none s = (false, put_dev i (record (device i s) { rbuf = 0 }) s)
with_rbuf i mps (some b) s =
    let d : UsbDev = record (device i s) {
      rbuf = b;
      report = replicate 64 0;
      rlen = report_len mps;
    } in
    (true, put_dev i d s)

unfoldable pub with_epi : ℕ → ℕ → Option ℕ → Drv → Bool × Drv
unfolding put_dev device
with_epi i mps none s = (false, s)
with_epi i mps (some page) s =
    let (buf, s') = dma_alloc 64 64 (put_dev i (record (device i s) { epi = ring_init page }) s) in
    with_rbuf i mps buf s'

unfoldable pub alloc_pipe : ℕ → KbdIf → Drv → Bool × Drv
unfolding put_dev device
alloc_pipe i k s =
    let (page, s') =
      dma_alloc 4096 4096 (put_dev i (record (device i s) { dci = (k.ep * 2 + 1) % 256 }) s) in
    with_epi i k.mps page s'

-- Configure Endpoint.
unfoldable pub configure : Chip → ℕ → KbdIf → Drv → Option ℕ × Drv
unfolding device poke clear_inputs
configure c i k s =
    let d = device i s in
    let (os, s1) = read_context s in
    let entries = bit_or (bit_and (os 0) (2 ^ 27 - 1)) (d.dci * 2 ^ 27) in
    let s2 =
      clear_inputs s1
      ▷ poke 1 (bit_or 1 (2 ^ d.dci))
      ▷ poke (slot_word c 0) entries
      ▷ poke (slot_word c 1) (os 1)
      ▷ poke (slot_word c 2) (os 2)
      ▷ poke (slot_word c 3) (os 3)
      ▷ poke (ep_word c d.dci 0) (ep_interval d.speed k.interval * 2 ^ 16) in
    let attributes = bit_or (bit_or (3 * 2) (7 * 2 ^ 3)) (k.mps * 2 ^ 16) in
    let average = bit_or k.mps (k.mps * 2 ^ 16) in
    command c.ictx (bit_or (12 * 2 ^ 10) (d.slot * 2 ^ 24))
      (poke_ep c d.dci attributes (bit_or d.epi.phys 1) average s2)

unfoldable pub arm_kbd : ℕ → Drv → Drv
arm_kbd i s = record s { hc = record s.hc { x = kbd_arm i s.hc.x } }

unfoldable pub setup_keyboard : Chip → ℕ → KbdIf → Drv → Drv
unfolding put_dev device
setup_keyboard c i k s =
    let s1 = (ctrl_xfer c i 0x21 0x0B 0 k.iface 0 s).1 in
    let s2 = (ctrl_xfer c i 0x21 0x0A 0 k.iface 0 s1).1 in
    let (room, s3) = alloc_pipe i k s2 in
    let (code, s4) = configure c i k s3 in
    if not room
    then s3
    else if not (is_one code)
    then s4
    else arm_kbd i (put_dev i (record (device i s4) { is_kbd = true }) s4)

unfoldable pub try_keyboard : Chip → ℕ → Option KbdIf → Drv → Drv
try_keyboard c i none s = s
try_keyboard c i (some k) s = setup_keyboard c i k s

-- Behind the descriptors: the index of a hub is given back, for it is set up where it has none above.
unfoldable pub finish : Chip → ℕ → Option Described → Drv → Option ℕ × Drv
finish c i none s = (none, dev_drop i s)
finish c i (some t) s =
    if t.devclass == 9 then (some i, s) else (none, try_keyboard c i t.keyboard s)

unfoldable pub enum_addressed : Chip → ℕ → Option ℕ → Drv → Option ℕ × Drv
enum_addressed c i code s =
    let (told, s') = describe c i s in
    if not (is_one code) then (none, dev_drop i s) else finish c i told s'

unfoldable pub enum_slot : Chip → ℕ → ℕ → Option ℕ → Drv → Option ℕ × Drv
enum_slot c i parentport none s = (none, s)
enum_slot c i parentport (some slot) s =
    let (room, s1) = alloc_device c i s in
    let (code, s2) = address_device c i parentport s1 in
    if not room then (none, dev_drop i s1) else enum_addressed c i code s2

unfoldable pub enum_at : Chip → UsbDev → ℕ → Option ℕ → Drv → Option ℕ × Drv
unfolding put_dev
enum_at c d parentport none s = (none, s)
enum_at c d parentport (some i) s =
    let (slot, s') = enable_slot c i (put_dev i d s) in enum_slot c i parentport slot s'

-- `enum_device` but for `hub_setup`.
unfoldable pub enum_dev : Chip → ℕ → ℕ → ℕ → Option ℕ → ℕ → Drv → Option ℕ × Drv
enum_dev c rootport route speed parent parentport s =
    let d : UsbDev = record unused {
      used = true;
      speed = speed;
      rootport = rootport;
      route = route;
      parent = parent;
    } in
    enum_at c d parentport (free_dev s.hc.x.dev) s

-- `kbd_recover`
unfoldable pub no_keyboard : ℕ → Drv → Drv
unfolding put_dev device
no_keyboard i s = put_dev i (record (device i s) { is_kbd = false }) s

-- The second command, and a fresh transfer.
unfoldable pub restart_ring : ℕ → ℕ → Drv → Drv
unfolding device
restart_ring i whose s =
    let e = (device i s).epi in
    let (code, s') = command (bit_or (e.phys + 16 * e.enq) e.cyc) (bit_or (16 * 2 ^ 10) whose) s in
    if is_one code then arm_kbd i s' else no_keyboard i s'

unfoldable pub kbd_recover : ℕ → Drv → Drv
unfolding put_dev device
kbd_recover i s =
    let d = device i s in
    let whose = bit_or (d.dci * 2 ^ 16) (d.slot * 2 ^ 24) in
    let s1 = put_dev i (record d { need_recover = false }) s in
    let (code, s2) = command 0 (bit_or (14 * 2 ^ 10) whose) s1 in
    if timed_out code then no_keyboard i s2 else restart_ring i whose s2
