-- ===== src/Usb/Driver/Sane/Ports.antt =====
-- The bounds of the device table through the scans of hubs and root ports, and through a round of `usbkbd_poll`.
use sacabambaspos.Base.{
  ℕ, zero, suc, ◌+◌, ◌^◌, refl, Bool, false, Option, none, some, bit_or, test_bit, min,
}
use sacabambaspos.Usb.Driver.{Event}
use sacabambaspos.Usb.Driver.Poll.{poll_events}
use sacabambaspos.Usb.Driver.Devices.{Chip, Drv, device, sleep_ms, rr, max_devs, read_context}
use sacabambaspos.Usb.Driver.Hub.{
  PortStatus, hub_port_status, reset_round, reset_wait, set_conn, hub_reset, hub_connect,
  drop_children, hub_disconnect, hub_changed, hub_port_with, hub_port, hub_ports, hub_scan,
  power_ports, mark_hub, hub_setup, setup_found, enum_root,
}
use sacabambaspos.Usb.Driver.Ports.{
  write_portsc, ack, drop_port, reset_rounds, train_rounds, enable_port, port_connected, port_scan,
}
use sacabambaspos.Usb.Driver.Service.{
  clear_pscan, rescan_later, scan_flagged, recover_from, scan_hubs, rescan_hubs, serve_hc,
}
use sacabambaspos.Usb.Driver.Sane.{if-keeps, poll_events-Keeps}
use sacabambaspos.Usb.Driver.Sane.Steps.{
  Sound, move, change-Sound, command-Sound, ctrl_xfer-Sound, dev_drop-Sound,
}
use sacabambaspos.Usb.Driver.Sane.Devices.{enum_dev-Sound, kbd_recover-Sound}

sleep_ms-Sound : (slots ms : ℕ) (s : Drv) → Sound slots s → Sound slots (sleep_ms ms s)
unfolding sleep_ms
sleep_ms-Sound slots ms s k = move _ refl k

hub_port_status-Sound :
    (slots : ℕ) (c : Chip) (j p : ℕ) (s : Drv)
    → Sound slots s
    → Sound slots (hub_port_status c j p s).1
unfolding hub_port_status
hub_port_status-Sound slots c j p s k = ctrl_xfer-Sound slots c j 0xA3 0 0 p 4 s k

reset_round-Sound :
    (slots : ℕ) (t : Option PortStatus) (s : Drv) (more : Option (Bool × ℕ) × Drv)
    → Sound slots s
    → Sound slots more.1
    → Sound slots (reset_round t s more).1
unfolding reset_round
reset_round-Sound slots none s more k m = k
reset_round-Sound slots (some t) s more k m =
    if-keeps (λ (r : Option (Bool × ℕ) × Drv). Sound slots r.1) _ k m

reset_wait-Sound :
    (slots n : ℕ) (c : Chip) (j p st : ℕ) (s : Drv)
    → Sound slots s
    → Sound slots (reset_wait n c j p st s).1
unfolding reset_wait
reset_wait-Sound slots zero c j p st s k = k
reset_wait-Sound slots (suc n) c j p st s k =
    let k1 = hub_port_status-Sound slots c j p _ (sleep_ms-Sound slots 10 s k) in
    reset_round-Sound slots _ _ _ k1 (reset_wait-Sound slots n c j p _ _ k1)

set_conn-Sound : (slots j conn : ℕ) (s : Drv) → Sound slots s → Sound slots (set_conn j conn s)
unfolding set_conn
set_conn-Sound slots j conn s k = change-Sound slots j _ s refl refl refl refl k

hub_reset-Sound :
    (c : Chip) (j p : ℕ) (t : Option (Bool × ℕ)) (s : Drv)
    → Sound c.slots s
    → Sound c.slots (hub_reset c j p t s).1
unfolding hub_reset
hub_reset-Sound c j p none s k = k
hub_reset-Sound c j p (some (ok, st)) s k =
    let k1 = ctrl_xfer-Sound c.slots c j 0x23 1 20 p 0 s k in
    if-keeps (Sound c.slots) _ k1 (enum_dev-Sound c _ p _ _ p _ (sleep_ms-Sound c.slots 20 _ k1))

hub_connect-Sound :
    (c : Chip) (j p st : ℕ) (s : Drv) → Sound c.slots s → Sound c.slots (hub_connect c j p st s).1
unfolding hub_connect
hub_connect-Sound c j p st s k =
    let k1 = set_conn-Sound c.slots j (bit_or (device j s).conn (2 ^ p)) s k in
    hub_reset-Sound c j p _ _
      (reset_wait-Sound c.slots 50 c j p st _ (ctrl_xfer-Sound c.slots c j 0x23 3 4 p 0 _ k1))

drop_children-Sound :
    (slots n i j p : ℕ) (s : Drv) → Sound slots s → Sound slots (drop_children n i j p s)
unfolding drop_children
drop_children-Sound slots zero i j p s k = k
drop_children-Sound slots (suc n) i j p s k =
    drop_children-Sound slots n (i + 1) j p _
      (if-keeps (Sound slots) _ (dev_drop-Sound slots i s k) k)

hub_disconnect-Sound :
    (slots j p : ℕ) (s : Drv) → Sound slots s → Sound slots (hub_disconnect j p s)
unfolding hub_disconnect
hub_disconnect-Sound slots j p s k =
    drop_children-Sound slots max_devs 0 j p _ (set_conn-Sound slots j _ s k)

hub_changed-Sound :
    (c : Chip) (j p : ℕ) (t : PortStatus) (s : Drv)
    → Sound c.slots s
    → Sound c.slots (hub_changed c j p t s).1
unfolding hub_changed
hub_changed-Sound c j p t s k =
    let k1 =
      if-keeps (Sound c.slots) (test_bit t.ch 0) (ctrl_xfer-Sound c.slots c j 0x23 1 16 p 0 s k)
        k in
    if-keeps (λ (r : Bool × Drv). Sound c.slots r.1) _ (hub_connect-Sound c j p t.st _ k1)
      (if-keeps (Sound c.slots) _ (hub_disconnect-Sound c.slots j p _ k1) k1)

hub_port_with-Sound :
    (c : Chip) (j p : ℕ) (t : Option PortStatus) (s : Drv)
    → Sound c.slots s
    → Sound c.slots (hub_port_with c j p t s).1
unfolding hub_port_with
hub_port_with-Sound c j p none s k = k
hub_port_with-Sound c j p (some t) s k = hub_changed-Sound c j p t s k

hub_port-Sound :
    (c : Chip) (j p : ℕ) (s : Drv) → Sound c.slots s → Sound c.slots (hub_port c j p s).1
unfolding hub_port
hub_port-Sound c j p s k = hub_port_with-Sound c j p _ _ (hub_port_status-Sound c.slots c j p s k)

hub_ports-Sound :
    (n p : ℕ) (c : Chip) (j : ℕ) (s : Drv) → Sound c.slots s → Sound c.slots (hub_ports n p c j s)
unfolding hub_ports
hub_ports-Sound zero p c j s k = k
hub_ports-Sound (suc n) p c j s k =
    let k1 = hub_port-Sound c j p s k in
    if-keeps (Sound c.slots) _ (hub_ports-Sound n (p + 1) c j _ k1) k1

hub_scan-Sound : (c : Chip) (j : ℕ) (s : Drv) → Sound c.slots s → Sound c.slots (hub_scan c j s)
unfolding hub_scan
hub_scan-Sound c j s k = hub_ports-Sound _ 1 c j s k

power_ports-Sound :
    (slots n p : ℕ) (c : Chip) (j : ℕ) (s : Drv)
    → Sound slots s
    → Sound slots (power_ports n p c j s)
unfolding power_ports
power_ports-Sound slots zero p c j s k = k
power_ports-Sound slots (suc n) p c j s k =
    power_ports-Sound slots n (p + 1) c j _ (ctrl_xfer-Sound slots c j 0x23 3 8 p 0 s k)

mark_hub-Sound :
    (slots : ℕ) (c : Chip) (j : ℕ) (s : Drv) → Sound slots s → Sound slots (mark_hub c j s).1
unfolding mark_hub read_context
mark_hub-Sound slots c j s k = command-Sound slots _ _ _ (move _ refl k)

hub_setup-Sound : (c : Chip) (j : ℕ) (s : Drv) → Sound c.slots s → Sound c.slots (hub_setup c j s)
unfolding hub_setup
hub_setup-Sound c j s k =
    let k1 = ctrl_xfer-Sound c.slots c j 0xA0 6 0x2900 0 9 s k in
    let k3 = mark_hub-Sound c.slots c j _ (change-Sound c.slots j _ _ refl refl refl refl k1) in
    let k4 = sleep_ms-Sound c.slots _ _ (power_ports-Sound c.slots _ 1 c j _ k3) in
    if-keeps (Sound c.slots) _ k1 (
      if-keeps (Sound c.slots) _ k3
        (hub_scan-Sound c j _ (change-Sound c.slots j _ _ refl refl refl refl k4)))

setup_found-Sound :
    (c : Chip) (hub : Option ℕ) (s : Drv) → Sound c.slots s → Sound c.slots (setup_found c hub s)
unfolding setup_found
setup_found-Sound c none s k = k
setup_found-Sound c (some j) s k = hub_setup-Sound c j s k

enum_root-Sound :
    (c : Chip) (port speed : ℕ) (s : Drv)
    → Sound c.slots s
    → Sound c.slots (enum_root c port speed s)
unfolding enum_root
enum_root-Sound c port speed s k =
    setup_found-Sound c _ _ (enum_dev-Sound c port 0 speed none 0 s k)

write_portsc-Sound :
    (slots port v : ℕ) (s : Drv) → Sound slots s → Sound slots (write_portsc port v s)
unfolding write_portsc
write_portsc-Sound slots port v s k = move _ refl k

drop_port-Sound :
    (slots n i port : ℕ) (s : Drv) → Sound slots s → Sound slots (drop_port n i port s)
unfolding drop_port
drop_port-Sound slots zero i port s k = k
drop_port-Sound slots (suc n) i port s k =
    drop_port-Sound slots n (i + 1) port _ (if-keeps (Sound slots) _ (dev_drop-Sound slots i s k) k)

reset_rounds-Sound :
    (slots n sc : ℕ) (s : Drv) → Sound slots s → Sound slots (reset_rounds n sc s).1
unfolding reset_rounds
reset_rounds-Sound slots zero sc s k = k
reset_rounds-Sound slots (suc n) sc s k =
    let k1 : Sound slots (rr (sleep_ms 10 s)).1 = move _ refl (sleep_ms-Sound slots 10 s k) in
    if-keeps (λ (r : (Bool × ℕ) × Drv). Sound slots r.1) _ k1 (reset_rounds-Sound slots n _ _ k1)

train_rounds-Sound :
    (slots n sc : ℕ) (s : Drv) → Sound slots s → Sound slots (train_rounds n sc s).1
unfolding train_rounds
train_rounds-Sound slots zero sc s k = k
train_rounds-Sound slots (suc n) sc s k =
    let k1 : Sound slots (rr s).1 = move _ refl k in
    if-keeps (λ (r : (Bool × ℕ) × Drv). Sound slots r.1) _ k1
      (train_rounds-Sound slots n _ _ (sleep_ms-Sound slots 10 _ k1))

enable_port-Sound :
    (slots : ℕ) (c : Chip) (port sc : ℕ) (s : Drv)
    → Sound slots s
    → Sound slots (enable_port c port sc s).1
unfolding enable_port
enable_port-Sound slots c port sc s k =
    if-keeps (λ (r : (Bool × ℕ) × Drv). Sound slots r.1) _
      (write_portsc-Sound slots port _ _
        (reset_rounds-Sound slots 60 sc _ (write_portsc-Sound slots port _ s k)))
      (write_portsc-Sound slots port _ _ (train_rounds-Sound slots 30 sc s k))

port_connected-Sound :
    (c : Chip) (port sc : ℕ) (s : Drv)
    → Sound c.slots s
    → Sound c.slots (port_connected c port sc s)
unfolding port_connected
port_connected-Sound c port sc s k =
    let k1 =
      if-keeps (Sound c.slots) (test_bit sc 9) k
        (sleep_ms-Sound c.slots 30 _ (write_portsc-Sound c.slots port (2 ^ 9) s k)) in
    let k2 = enable_port-Sound c.slots c port sc _ (sleep_ms-Sound c.slots 60 _ k1) in
    if-keeps (Sound c.slots) _ (enum_root-Sound c port _ _ (sleep_ms-Sound c.slots 10 _ k2)) k2

pub port_scan-Sound :
    (c : Chip) (port : ℕ) (s : Drv) → Sound c.slots s → Sound c.slots (port_scan c port s)
unfolding port_scan
port_scan-Sound c port s k =
    let k1 : Sound c.slots (rr s).1 = move _ refl k in
    let k2 = write_portsc-Sound c.slots port (ack (rr s).0) _ k1 in
    if-keeps (Sound c.slots) _ k1 (
      if-keeps (Sound c.slots) _ (drop_port-Sound c.slots max_devs 0 port _ k2)
        (if-keeps (Sound c.slots) _ k2 (port_connected-Sound c port _ _ k2)))

rescan_later-Sound : (slots : ℕ) (s : Drv) → Sound slots s → Sound slots (rescan_later s)
unfolding rescan_later
rescan_later-Sound slots s k = move _ refl k

scan_flagged-Sound :
    (n p : ℕ) (c : Chip) (s : Drv) → Sound c.slots s → Sound c.slots (scan_flagged n p c s)
unfolding scan_flagged
scan_flagged-Sound zero p c s k = k
scan_flagged-Sound (suc n) p c s k =
    let k1 = port_scan-Sound c p (clear_pscan p s) (move _ refl k) in
    scan_flagged-Sound n (p + 1) c _ (
      if-keeps (Sound c.slots) _ (if-keeps (Sound c.slots) _ (rescan_later-Sound c.slots _ k1) k1)
        k)

recover_from-Sound : (slots n i : ℕ) (s : Drv) → Sound slots s → Sound slots (recover_from n i s)
unfolding recover_from
recover_from-Sound slots zero i s k = k
recover_from-Sound slots (suc n) i s k =
    recover_from-Sound slots n (i + 1) _
      (if-keeps (Sound slots) _ (kbd_recover-Sound slots i s k) k)

scan_hubs-Sound :
    (n i : ℕ) (c : Chip) (hubs : Bool) (s : Drv)
    → Sound c.slots s
    → Sound c.slots (scan_hubs n i c hubs s).1
unfolding scan_hubs
scan_hubs-Sound zero i c hubs s k = k
scan_hubs-Sound (suc n) i c hubs s k =
    scan_hubs-Sound n (i + 1) c _ _ (if-keeps (Sound c.slots) _ (hub_scan-Sound c i s k) k)

rescan_hubs-Sound : (c : Chip) (s : Drv) → Sound c.slots s → Sound c.slots (rescan_hubs c s)
unfolding rescan_hubs
rescan_hubs-Sound c s k =
    let k1 = scan_hubs-Sound max_devs 0 c false _ (rescan_later-Sound c.slots s k) in
    if-keeps (Sound c.slots) _ k1 (move _ refl k1)

-- Whatever the controller, its devices and its registers answer, when each of the 16 entries of the device table has a
-- slot number up to the number of slots, reports of 64 bytes at most, as many as their buffer has, and rings with an
-- index up to 255, then so it is after a round of usbkbd_poll for a controller, with the events, enumerations, hubs,
-- recoveries and disconnections in it.
pub serve_hc-Sound :
    (c : Chip) (ring : ℕ → Event) (s : Drv) → Sound c.slots s → Sound c.slots (serve_hc c ring s)
unfolding serve_hc
serve_hc-Sound c ring s k =
    let s1 : Drv = record s { hc = (poll_events ring s.hc).1 } in
    let k1 : Sound c.slots s1 = record { inner = poll_events-Keeps c.slots ring s.hc k.inner } in
    let k2 =
      recover_from-Sound c.slots max_devs 0 _ (scan_flagged-Sound (min c.ports 255) 1 c s1 k1) in
    if-keeps (Sound c.slots) _ (rescan_hubs-Sound c _ k2) k2
