-- ===== src/Usb/Driver/Hub.antt =====
-- src/kernel/usb.c: hubs (`hub_port_status`, `hub_scan`, `hub_setup`), and `enum_device` with them.
use sacabambaspos.Base.{
  ℕ, zero, suc, ◌+◌, ◌-◌, ◌*◌, ◌%◌, ◌^◌, Bool, true, false, not, ◌&&◌, ◌||◌, Option, none, some,
  ltb, ◌==◌, if◌then◌else◌, bit_or, bit_and, test_bit, ◌▷◌,
}
use sacabambaspos.Usb.Driver.Devices.{
  Chip, Drv, device, put_dev, sleep_ms, command, is_one, ctrl_xfer, dev_drop, clear_inputs, poke,
  slot_word, read_context, max_devs,
}
use sacabambaspos.Usb.Driver.Enumerate.{enum_dev}

pub record PortStatus : Type 0 where
  pub st : ℕ
  pub ch : ℕ

unfoldable pub hub_port_status : Chip → ℕ → ℕ → Drv → Option PortStatus × Drv
hub_port_status c j p s =
    let (code, s') = ctrl_xfer c j 0xA3 0 0 p 4 s in
    let b = s'.reply in
    (if is_one code then some (record { st = b 0 + 256 * b 1; ch = b 2 + 256 * b 3 }) else none, s')

abbrev st_or : ℕ → Option PortStatus → ℕ
st_or st none = st
st_or st (some t) = t.st

-- A round of the wait for the end of a reset, with what the further rounds would give.
unfoldable pub reset_round :
    Option PortStatus → Drv → Option (Bool × ℕ) × Drv → Option (Bool × ℕ) × Drv
reset_round none s more = (none, s)
reset_round (some t) s more = if test_bit t.ch 4 then (some (true, t.st), s) else more

-- The wait, `n` rounds at most: `none` when a status cannot be read, and otherwise the last status, with whether the
-- reset is over.
unfoldable pub reset_wait : ℕ → Chip → ℕ → ℕ → ℕ → Drv → Option (Bool × ℕ) × Drv
reset_wait zero c j p st s = (some (false, st), s)
reset_wait (suc n) c j p st s =
    let (status, s') = hub_port_status c j p (sleep_ms 10 s) in
    let more = reset_wait n c j p (st_or st status) s' in reset_round status s' more

unfoldable pub port_speed : ℕ → ℕ
port_speed st = if test_bit st 9 then 2 else if test_bit st 10 then 3 else 1

unfoldable pub set_conn : ℕ → ℕ → Drv → Drv
unfolding put_dev device
set_conn j conn s = put_dev j (record (device j s) { conn = conn }) s

-- A port whose reset is over, or has been waited for in vain.
unfoldable pub hub_reset : Chip → ℕ → ℕ → Option (Bool × ℕ) → Drv → Bool × Drv
unfolding device port_speed
hub_reset c j p none s = (false, s)
hub_reset c j p (some (ok, st)) s =
    let s1 = (ctrl_xfer c j 0x23 1 20 p 0 s).1 in
    let rootport = (device j s1).rootport in
    let s2 = (enum_dev c rootport p (port_speed st) (some j) p (sleep_ms 20 s1)).1 in
    (true, if not ok || not (test_bit st 1) then s1 else s2)

-- A new device on port `p`; `false` ends the scan.
unfoldable pub hub_connect : Chip → ℕ → ℕ → ℕ → Drv → Bool × Drv
unfolding set_conn device
hub_connect c j p st s =
    let s1 = set_conn j (bit_or (device j s).conn (2 ^ p)) s in
    let s2 = (ctrl_xfer c j 0x23 3 4 p 0 s1).1 in
    let (over, s3) = reset_wait 50 c j p st s2 in hub_reset c j p over s3

abbrev is_parent : ℕ → Option ℕ → Bool
is_parent j none = false
is_parent j (some k) = k == j

-- The devices on port `p` of the hub are dropped, `n` entries of the table from `i`.
unfoldable pub drop_children : ℕ → ℕ → ℕ → ℕ → Drv → Drv
unfolding device
drop_children zero i j p s = s
drop_children (suc n) i j p s =
    let d = device i s in
    drop_children n (i + 1) j p
      (if d.used && is_parent j d.parent && d.route == p then dev_drop i s else s)

unfoldable pub hub_disconnect : ℕ → ℕ → Drv → Drv
unfolding set_conn device
hub_disconnect j p s =
    drop_children max_devs 0 j p (set_conn j (bit_and (device j s).conn (2 ^ 32 - 1 - 2 ^ p)) s)

unfoldable pub hub_changed : Chip → ℕ → ℕ → PortStatus → Drv → Bool × Drv
unfolding device
hub_changed c j p t s0 =
    let s = if test_bit t.ch 0 then (ctrl_xfer c j 0x23 1 16 p 0 s0).1 else s0 in
    let was = test_bit (device j s).conn p in
    if test_bit t.st 0 && not was
    then hub_connect c j p t.st s
    else (true, if not (test_bit t.st 0) && was then hub_disconnect j p s else s)

unfoldable pub hub_port_with : Chip → ℕ → ℕ → Option PortStatus → Drv → Bool × Drv
hub_port_with c j p none s = (false, s)
hub_port_with c j p (some t) s = hub_changed c j p t s

unfoldable pub hub_port : Chip → ℕ → ℕ → Drv → Bool × Drv
hub_port c j p s = let (status, s') = hub_port_status c j p s in hub_port_with c j p status s'

-- `n` ports from `p`.
unfoldable pub hub_ports : ℕ → ℕ → Chip → ℕ → Drv → Drv
hub_ports zero p c j s = s
hub_ports (suc n) p c j s =
    let (go, s') = hub_port c j p s in
    let rest = hub_ports n (p + 1) c j s' in if go then rest else s'

unfoldable pub hub_scan : Chip → ℕ → Drv → Drv
unfolding device
hub_scan c j s = hub_ports (device j s).nports 1 c j s

unfoldable pub power_ports : ℕ → ℕ → Chip → ℕ → Drv → Drv
power_ports zero p c j s = s
power_ports (suc n) p c j s = power_ports n (p + 1) c j (ctrl_xfer c j 0x23 3 8 p 0 s).1

-- The slot is marked as a hub's.
unfoldable pub mark_hub : Chip → ℕ → Drv → Option ℕ × Drv
unfolding device clear_inputs poke
mark_hub c j s =
    let d = device j s in
    let (os, s1) = read_context s in
    let s2 =
      clear_inputs s1
      ▷ poke 1 1
      ▷ poke (slot_word c 0) (bit_or (os 0) (2 ^ 26))
      ▷ poke (slot_word c 1) (bit_or (os 1 % 2 ^ 24) (d.nports * 2 ^ 24))
      ▷ poke (slot_word c 2) (os 2)
      ▷ poke (slot_word c 3) (os 3) in
    command c.ictx (bit_or (12 * 2 ^ 10) (d.slot * 2 ^ 24)) s2

unfoldable pub hub_setup : Chip → ℕ → Drv → Drv
unfolding device put_dev
hub_setup c j s =
    let (code, s1) = ctrl_xfer c j 0xA0 6 0x2900 0 9 s in
    let told = s1.reply 2 in
    let nports = if ltb 15 told then 15 else told in
    let pwrgood = s1.reply 5 * 2 + 100 in
    let s2 = put_dev j (record (device j s1) { nports = nports }) s1 in
    let (marked, s3) = mark_hub c j s2 in
    let s4 = sleep_ms pwrgood (power_ports nports 1 c j s3) in
    let s5 = put_dev j (record (device j s4) { is_hub = true }) s4 in
    if not (is_one code) then s1 else if not (is_one marked) then s3 else hub_scan c j s5

unfoldable pub setup_found : Chip → Option ℕ → Drv → Drv
setup_found c none s = s
setup_found c (some j) s = hub_setup c j s

-- `enum_device` of a device on a root port.
unfoldable pub enum_root : Chip → ℕ → ℕ → Drv → Drv
enum_root c rootport speed s =
    let (hub, s') = enum_dev c rootport 0 speed none 0 s in setup_found c hub s'
