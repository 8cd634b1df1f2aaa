-- ===== src/Usb/Driver/Ports.antt =====
-- src/kernel/usb.c: the root ports (`dev_on_root`, `port_scan`), and what `usbkbd_poll` and `xhci_init_one` do with
-- all of them.
use sacabambaspos.Base.{
  ℕ, zero, suc, ◌+◌, ◌-◌, ◌*◌, ◌/◌, ◌%◌, ◌^◌, ◌≡◌, ◌<◌, refl, arith, Bool, true, false, not, ◌&&◌,
  ◌||◌, Option, none, some, List, [], ◌∷◌, ◌++◌, leb, ◌==◌, if◌then◌else◌, bit_or, bit_and,
  test_bit,
}
use sacabambaspos.Usb.Driver.{UsbDev}
use sacabambaspos.Usb.Driver.Devices.{Chip, Drv, device, sleep_ms, dev_drop, rr, max_devs}
use sacabambaspos.Usb.Driver.Hub.{enum_root}

unfoldable pub dev_on_root : ℕ → List UsbDev → Bool
dev_on_root port [] = false
dev_on_root port (d ∷ ds) = d.used && d.rootport == port && d.route == 0 || dev_on_root port ds

-- A write of PORTSC; the offset from `op` wraps around at port 0.
unfoldable pub write_portsc : ℕ → ℕ → Drv → Drv
write_portsc port v s = record s {
  portsc = s.portsc ++ ((0x400 + (port + 2 ^ 32 - 1) * 16 % 2 ^ 32, v) ∷ []);
}

-- `(1u<<9) | (sc & 0x00FE0000)`
unfoldable pub ack : ℕ → ℕ
ack sc = bit_or (2 ^ 9) (bit_and sc 0xFE_0000)

unfoldable pub drop_port : ℕ → ℕ → ℕ → Drv → Drv
unfolding device
drop_port zero i port s = s
drop_port (suc n) i port s =
    let d = device i s in
    drop_port n (i + 1) port (if d.used && d.rootport == port then dev_drop i s else s)

-- The end of a reset, `n` rounds at most: whether it came, and the last PORTSC.
unfoldable pub reset_rounds : ℕ → ℕ → Drv → (Bool × ℕ) × Drv
unfolding rr
reset_rounds zero sc s = ((false, sc), s)
reset_rounds (suc n) sc s =
    let (sc', s') = rr (sleep_ms 10 s) in
    let rest = reset_rounds n sc' s' in if test_bit sc' 21 then ((true, sc'), s') else rest

unfoldable pub train_rounds : ℕ → ℕ → Drv → (Bool × ℕ) × Drv
unfolding rr
train_rounds zero sc s = ((false, sc), s)
train_rounds (suc n) sc s =
    let (sc', s') = rr s in
    let rest = train_rounds n sc' (sleep_ms 10 s') in
    if test_bit sc' 1 then ((true, sc'), s') else rest

-- A USB 2 port is reset, a USB 3 port trains by itself: whether it is enabled, and the last PORTSC.
unfoldable pub enable_port : Chip → ℕ → ℕ → Drv → (Bool × ℕ) × Drv
unfolding ack
enable_port c port sc s =
    let major = if c.pmajor port == 0 then 2 else c.pmajor port in
    let ((ok2, sc2), s2) = reset_rounds 60 sc (write_portsc port (2 ^ 9 + 2 ^ 4) s) in
    let ((ok3, sc3), s3) = train_rounds 30 sc s in
    if major == 2
    then ((ok2 && test_bit sc2 1, sc2), write_portsc port (ack sc2) s2)
    else ((ok3, sc3), write_portsc port (ack sc3) s3)

unfoldable pub port_connected : Chip → ℕ → ℕ → Drv → Drv
port_connected c port sc s =
    let s1 = if test_bit sc 9 then s else sleep_ms 30 (write_portsc port (2 ^ 9) s) in
    let ((ok, sc'), s2) = enable_port c port sc (sleep_ms 60 s1) in
    if ok then enum_root c port (sc' / 2 ^ 10 % 16) (sleep_ms 10 s2) else s2

unfoldable pub port_scan : Chip → ℕ → Drv → Drv
unfolding rr ack dev_on_root
port_scan c port s =
    let (sc, s1) = rr s in
    let s2 = write_portsc port (ack sc) s1 in
    if sc == 2 ^ 32 - 1
    then s1
    else if not (test_bit sc 0)
    then drop_port max_devs 0 port s2
    else if dev_on_root port s2.hc.x.dev
    then s2
    else port_connected c port sc s2

-- The loop of `xhci_init_one` over the ports from `p`, with a counter of eight bits, on fuel.
unfoldable pub scan_from : ℕ → ℕ → Chip → Drv → Option Drv
scan_from zero p c s = none
scan_from (suc n) p c s =
    let rest = scan_from n ((p + 1) % 256) c (port_scan c p s) in
    if leb p (c.ports % 256) then rest else some s

-- `n` ports in order, from `p`.
unfoldable pub scan_ports : ℕ → ℕ → Chip → Drv → Drv
scan_ports zero p c s = s
scan_ports (suc n) p c s = scan_ports n (p + 1) c (port_scan c p s)

-- With 254 ports at most, more rounds than ports are enough, and the loop visits every port once, in order.
pub scan_from-done :
    (n p k : ℕ) (c : Chip) (s : Drv)
    → p + k ≡ c.ports + 1
    → c.ports < 255
    → k < n
    → scan_from n p c s ≡ some (scan_ports k p c s)
unfolding scan_from scan_ports
scan_from-done zero p k c s e few fuel = absurd (omega arith)
scan_from-done (suc n) p zero c s e few fuel = ground arith
scan_from-done (suc n) p (suc k) c s e few fuel =
    let next : (p + 1) % 256 ≡ p + 1 = omega arith in
    let ih = scan_from-done n (p + 1) k c (port_scan c p s) (omega arith) few (omega arith) in
    ground (arith, next, ih)

-- On a controller with 255 ports the loop does not end, in any number of rounds.
pub scan_from-forever :
    (n p : ℕ) (c : Chip) (s : Drv) → p < 256 → c.ports ≡ 255 → scan_from n p c s ≡ none
unfolding scan_from
scan_from-forever zero p c s small e = refl
scan_from-forever (suc n) p c s small e =
    let ih = scan_from-forever n ((p + 1) % 256) c (port_scan c p s) (omega arith) e in
    ground (arith, ih)
