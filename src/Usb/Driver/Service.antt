-- ===== src/Usb/Driver/Service.antt =====
-- src/kernel/usb.c: `usbkbd_poll`. What the controllers have in common goes from one to the next.
use sacabambaspos.Base.{
  ℕ, zero, suc, ◌+◌, ◌-◌, ◌^◌, Bool, false, not, ◌&&◌, ◌||◌, List, [], ◌∷◌, leb, ◌==◌,
  if◌then◌else◌, min, u64,
}
use sacabambaspos.Heap.{Heap}
use sacabambaspos.Usb.Report.{Typist, repeat_key}
use sacabambaspos.Usb.Driver.{Event, Xhci}
use sacabambaspos.Usb.Driver.Poll.{poll_events}
use sacabambaspos.Usb.Driver.Devices.{Chip, Drv, device, max_devs}
use sacabambaspos.Usb.Driver.Enumerate.{kbd_recover}
use sacabambaspos.Usb.Driver.Hub.{hub_scan}
use sacabambaspos.Usb.Driver.Ports.{port_scan}

-- The `(u64)-1` of a rescan that is not due.
abbrev pub never : ℕ
never = 2 ^ 64 - 1

unfoldable pub clear_pscan : ℕ → Drv → Drv
clear_pscan p s =
    let x : Xhci = record s.hc.x { pscan = λ j. if j == p then false else s.hc.x.pscan j } in
    record s { hc = record s.hc { x = x } }

unfoldable pub rescan_later : Drv → Drv
rescan_later s = record s { hubscan_at = u64 (s.hc.ticks + 150) }

-- `n` of the ports that an event has flagged, from `p`.
unfoldable pub scan_flagged : ℕ → ℕ → Chip → Drv → Drv
unfolding clear_pscan rescan_later
scan_flagged zero p c s = s
scan_flagged (suc n) p c s =
    let s1 = port_scan c p (clear_pscan p s) in
    let s2 = if s1.hubscan_at == 0 || s1.hubscan_at == never then rescan_later s1 else s1 in
    scan_flagged n (p + 1) c (if s.hc.x.pscan p then s2 else s)

unfoldable pub recover_from : ℕ → ℕ → Drv → Drv
unfolding device
recover_from zero i s = s
recover_from (suc n) i s =
    let d = device i s in
    recover_from n (i + 1) (if d.used && d.need_recover then kbd_recover i s else s)

-- The second part is whether there is a hub.
unfoldable pub scan_hubs : ℕ → ℕ → Chip → Bool → Drv → Bool × Drv
unfolding device
scan_hubs zero i c hubs s = (hubs, s)
scan_hubs (suc n) i c hubs s =
    let d = device i s in
    let hub = d.used && d.is_hub in
    scan_hubs n (i + 1) c (hubs || hub) (if hub then hub_scan c i s else s)

unfoldable pub rescan_hubs : Chip → Drv → Drv
unfolding rescan_later
rescan_hubs c s =
    let (hubs, s') = scan_hubs max_devs 0 c false (rescan_later s) in
    if hubs then s' else record s' { hubscan_at = never }

-- One live controller, with what stands in its event ring.
unfoldable pub serve_hc : Chip → (ℕ → Event) → Drv → Drv
serve_hc c ring s =
    let s1 : Drv = record s { hc = (poll_events ring s.hc).1 } in
    let s2 = recover_from max_devs 0 (scan_flagged (min c.ports 255) 1 c s1) in
    if not (s2.hubscan_at == never) && leb s2.hubscan_at s2.hc.ticks then rescan_hubs c s2 else s2

-- A controller that `usbkbd_poll` looks at.
pub record Controller : Type 0 where
  pub chip : Chip
  pub alive : Bool
  pub ring : ℕ → Event
  pub drv : Drv

-- What the controllers have in common: the keyboard's statics, the heap and the clock.
pub record Shared : Type 0 where
  pub typist : Typist
  pub heap : Heap
  pub ticks : ℕ

unfoldable pub with_shared : Shared → Drv → Drv
with_shared c s =
    let x : Xhci = record s.hc.x { typist = c.typist } in
    record s { hc = record s.hc { x = x; ticks = c.ticks }; heap = c.heap }

unfoldable pub shared_of : Drv → Shared
shared_of s = record { typist = s.hc.x.typist; heap = s.heap; ticks = s.hc.ticks }

-- The controllers in turn; the common state before and after.
unfoldable pub serve_all : List Controller → Shared → Shared × List Controller
unfolding with_shared shared_of
serve_all [] t = (t, [])
serve_all (h ∷ hs) t =
    let s = serve_hc h.chip h.ring (with_shared t h.drv) in
    let t1 = if h.alive then shared_of s else t in
    let (t2, rest) = serve_all hs t1 in (t2, (if h.alive then record h { drv = s } else h) ∷ rest)

unfoldable pub usbkbd_poll : Bool → List Controller → Shared → Shared × List Controller
usbkbd_poll ready hs t =
    let (t', hs') = serve_all hs t in
    if ready then (record t' { typist = repeat_key t'.ticks t'.typist }, hs') else (t, hs)
