-- ===== src/Usb/Driver.antt =====
-- src/kernel/usb.c: the state of a controller, and the events that it reports. Registers and doorbells are
-- lists of what was written to them. A keyboard's report buffer belongs to its device; an event carries the
-- bytes that the controller has put at its front.
pub mod Poll
pub mod Devices
pub mod Enumerate
pub mod Hub
pub mod Ports
pub mod Service
pub mod Sane
mod Tests
pub mod Fifo
pub mod Answers
use sacabambaspos.Base.{
  ℕ, zero, suc, ◌+◌, ◌-◌, ◌*◌, ◌/◌, ◌%◌, ◌^◌, ◌≡◌, Bool, true, false, not, ◌&&◌, ◌||◌, Option, none,
  some, List, [], ◌∷◌, ◌++◌, length, get_or, set, drop, replicate, ltb, leb, ◌==◌, if◌then◌else◌,
  bit_or,
}
use sacabambaspos.Usb.TrbRing.{Trb, TrbRing, ring_push}
use sacabambaspos.Usb.Report.{Typist, kbd_report}

-- `parent` is the index of the hub above in the table.
pub record UsbDev : Type 0 where
  pub used : Bool
  pub slot : ℕ
  pub speed : ℕ
  pub rootport : ℕ
  pub route : ℕ
  pub parent : Option ℕ
  pub octx : ℕ
  pub ep0 : TrbRing
  pub mps0 : ℕ
  pub is_kbd : Bool
  pub dci : ℕ
  pub need_recover : Bool
  pub epi : TrbRing
  pub rbuf : ℕ
  pub report : List ℕ
  pub rlen : ℕ
  pub prev : List ℕ
  pub is_hub : Bool
  pub nports : ℕ
  pub conn : ℕ

-- The command or transfer that is waited for: `wt` is 1 for a command, 2 for a transfer, 0 for none.
pub record Waiter : Type 0 where
  pub wdone : Bool
  pub wt : ℕ
  pub wslot : ℕ
  pub wdci : ℕ
  pub wcc : ℕ
  pub wslotout : ℕ
  pub wp : ℕ

-- What the handling of an event changes; `typist` holds the statics of the keyboard.
pub record Xhci : Type 0 where
  pub dev : List UsbDev
  pub pscan : ℕ → Bool
  pub waiter : Waiter
  pub typist : Typist
  pub bells : List (ℕ × ℕ)

abbrev pub no_ring : TrbRing
no_ring = record { t = []; phys = 0; enq = 0; cyc = 0 }

-- A cleared entry of the table.
abbrev pub unused : UsbDev
unused = record {
  used = false;
  slot = 0;
  speed = 0;
  rootport = 0;
  route = 0;
  parent = none;
  octx = 0;
  ep0 = no_ring;
  mps0 = 0;
  is_kbd = false;
  dci = 0;
  need_recover = false;
  epi = no_ring;
  rbuf = 0;
  report = [];
  rlen = 0;
  prev = replicate 8 0;
  is_hub = false;
  nports = 0;
  conn = 0;
}

-- The index of the device.
unfoldable pub dev_by_slot : ℕ → List UsbDev → Option ℕ
dev_by_slot slot [] = none
dev_by_slot slot (d ∷ ds) =
    let later = dev_by_slot slot ds in
    if d.used && d.slot == slot then some 0 else elim later [ none ↦ none | some i ↦ some (suc i) ]

unfoldable pub kbd_arm : ℕ → Xhci → Xhci
kbd_arm i x =
    let d = get_or x.dev i unused in
    let (k, epi) = ring_push d.rbuf d.rlen (2 ^ 10 + 2 ^ 5 + 2 ^ 2) d.epi in
    record x {
      dev = set x.dev i (record d { report = replicate 64 0; epi = epi });
      bells = x.bells ++ ((d.slot, d.dci) ∷ []);
    }

-- A TRB of the event ring, and the bytes of a report that comes with it.
pub record Event : Type 0 where
  pub trb : Trb
  pub written : List ℕ

unfoldable pub event_type : Event → ℕ
event_type e = e.trb.c / 2 ^ 10 % 64

unfoldable pub event_slot : Event → ℕ
event_slot e = e.trb.c / 2 ^ 24 % 256

unfoldable pub event_dci : Event → ℕ
event_dci e = e.trb.c / 2 ^ 16 % 32

unfoldable pub event_code : Event → ℕ
event_code e = e.trb.s / 2 ^ 24 % 256

unfoldable pub completion : Event → Waiter → Waiter
unfolding event_code event_slot
completion e w =
    if w.wt == 1 && e.trb.p == w.wp
    then record w { wcc = event_code e; wslotout = event_slot e; wdone = true }
    else w

unfoldable pub transferred : Event → Waiter → Waiter
unfolding event_code event_slot event_dci
transferred e w =
    if w.wt == 2 && event_slot e == w.wslot && event_dci e == w.wdci
    then record w { wcc = event_code e; wdone = true }
    else w

-- `kbd_report` with the buffer and the last report of device `i`.
unfoldable pub report_of : ℕ → ℕ → Event → Xhci → Xhci
report_of ticks i e x =
    let d = get_or x.dev i unused in
    let r = e.written ++ drop (length e.written) d.report in
    let t = kbd_report ticks r (record x.typist { prev = d.prev }) in
    record x { typist = t; dev = set x.dev i (record d { report = r; prev = t.prev }) }

unfoldable pub keyboard_event : ℕ → ℕ → Event → Xhci → Xhci
unfolding report_of kbd_arm event_code
keyboard_event ticks i e x =
    if event_code e == 1 || event_code e == 13
    then kbd_arm i (report_of ticks i e x)
    else record x { dev = set x.dev i (record (get_or x.dev i unused) { need_recover = true }) }

unfoldable pub is_keyboard : ℕ → List UsbDev → ℕ → Bool
is_keyboard dci devs i = let d = get_or devs i unused in d.is_kbd && dci == d.dci

-- With what `dev_by_slot` has found.
unfoldable pub transfer_to : ℕ → Event → Xhci → Option ℕ → Xhci
unfolding keyboard_event is_keyboard transferred event_dci
transfer_to ticks e x none = record x { waiter = transferred e x.waiter }
transfer_to ticks e x (some i) =
    if is_keyboard (event_dci e) x.dev i
    then keyboard_event ticks i e x
    else record x { waiter = transferred e x.waiter }

unfoldable pub transfer_event : ℕ → Event → Xhci → Xhci
unfolding dev_by_slot transfer_to event_slot
transfer_event ticks e x = transfer_to ticks e x (dev_by_slot (event_slot e) x.dev)

unfoldable pub port_event : Event → Xhci → Xhci
port_event e x =
    let port = e.trb.p / 2 ^ 24 % 2 ^ 32 in
    if leb 1 port && leb port 255
    then record x { pscan = λ p. if p == port then true else x.pscan p }
    else x

unfoldable pub handle_event : ℕ → Event → Xhci → Xhci
unfolding event_type completion transfer_event port_event
handle_event ticks e x =
    if event_type e == 33
    then record x { waiter = completion e x.waiter }
    else if event_type e == 32
    then transfer_event ticks e x
    else if event_type e == 34
    then port_event e x
    else x
