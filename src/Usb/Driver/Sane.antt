-- ===== src/Usb/Driver/Sane.antt =====
-- The bounds that the device table keeps, whatever the hardware answers.
pub mod Steps
pub mod Devices
pub mod Ports
use sacabambaspos.Base.{
  ℕ, zero, suc, ◌+◌, ◌-◌, ◌^◌, ◌≤◌, ◌<◌, ◌≡◌, refl, ap, ◌∙◌, sym, arith, Bool, true, false, Option,
  none, some, List, [], ◌∷◌, get_or, set, length, length-set, if◌then◌else◌, ltb, ◌==◌,
}
use sacabambaspos.Usb.TrbRing.{TrbRing, ring_push, ring_init, follow_link}
use sacabambaspos.Usb.Driver.{
  UsbDev, unused, Xhci, Event, Waiter, kbd_arm, report_of, keyboard_event, transfer_to,
  transfer_event, port_event, handle_event, event_type, completion, dev_by_slot, event_slot,
}
use sacabambaspos.Usb.Driver.Poll.{
  Hc, Cursor, Moment, poll_from, advance, poll_events, wait_rounds, wait_done, with_waiter,
  start_cmd, cmd_exec,
}

-- The slot is one that the controller's array has an entry for, the report fits its buffer of 64 bytes, and the
-- rings are written inside their page.
pub record IsSane (slots : ℕ) (d : UsbDev) : Type 0 where
  pub slot : d.slot ≤ slots
  pub rlen : d.rlen ≤ 64
  pub epi : d.epi.enq ≤ 255
  pub ep0 : d.ep0.enq ≤ 255

abbrev pub AllSane : ℕ → List UsbDev → Type 0
AllSane slots [] = Unit
AllSane slots (d ∷ ds) = IsSane slots d × AllSane slots ds

pub record IsTable (slots : ℕ) (ds : List UsbDev) : Type 0 where
  pub size : length ds ≡ 16
  pub entries : AllSane slots ds

pub unused-IsSane : (slots : ℕ) → IsSane slots unused
unused-IsSane slots = omega arith

get_or-AllSane :
    (slots : ℕ) (ds : List UsbDev) (i : ℕ) → AllSane slots ds → IsSane slots (get_or ds i unused)
get_or-AllSane slots [] i a = unused-IsSane slots
get_or-AllSane slots (d ∷ ds) zero a = a.0
get_or-AllSane slots (d ∷ ds) (suc i) a = get_or-AllSane slots ds i a.1

set-AllSane :
    (slots : ℕ) (ds : List UsbDev) (i : ℕ) (d : UsbDev)
    → IsSane slots d
    → AllSane slots ds
    → AllSane slots (set ds i d)
set-AllSane slots [] i d s a = tt
set-AllSane slots (x ∷ ds) zero d s a = (s, a.1)
set-AllSane slots (x ∷ ds) (suc i) d s a = (a.0, set-AllSane slots ds i d s a.1)

pub get_or-IsTable :
    {slots : ℕ} {ds : List UsbDev} (i : ℕ) → IsTable slots ds → IsSane slots (get_or ds i unused)
get_or-IsTable {slots} {ds} i t = get_or-AllSane slots ds i t.entries

pub set-IsTable :
    {slots : ℕ} {ds : List UsbDev} (i : ℕ) {d : UsbDev}
    → IsSane slots d
    → IsTable slots ds
    → IsTable slots (set ds i d)
set-IsTable {slots} {ds} i {d} s t = record {
  size = length-set ds i d ∙ t.size;
  entries = set-AllSane slots ds i d s t.entries;
}

pub if-keeps {ℓ} :
    {A : Type ℓ} (P : A → Type 0) (b : Bool) {x y : A} → P x → P y → P (if b then x else y)
if-keeps P true p q = p
if-keeps P false p q = q

pub ring_push-enq : (p s ctl : ℕ) (r : TrbRing) → r.enq ≤ 255 → (ring_push p s ctl r).1.enq ≤ 255
unfolding ring_push follow_link
ring_push-enq p s ctl r h = ground arith

-- The state of a controller whose table keeps the bounds.
pub record Keeps (slots : ℕ) (x : Xhci) : Type 0 where
  pub table : IsTable slots x.dev

set-Keeps :
    {slots : ℕ} {x : Xhci} (i : ℕ) {d : UsbDev}
    → IsSane slots d
    → Keeps slots x
    → Keeps slots (record x { dev = set x.dev i d })
set-Keeps i v k = record { table = set-IsTable i v k.table }

pub kbd_arm-Keeps : (slots i : ℕ) (x : Xhci) → Keeps slots x → Keeps slots (kbd_arm i x)
unfolding kbd_arm
kbd_arm-Keeps slots i x k =
    let d = get_or x.dev i unused in
    let v = get_or-IsTable i k.table in
    let epi = ring_push-enq d.rbuf d.rlen (2 ^ 10 + 2 ^ 5 + 2 ^ 2) d.epi v.epi in
    record {
      table =
          set-IsTable i (record { slot = v.slot; rlen = v.rlen; epi = epi; ep0 = v.ep0 }) k.table;
    }

pub same-IsSane :
    {slots : ℕ} {d d' : UsbDev}
    → IsSane slots d
    → d'.slot ≡ d.slot
    → d'.rlen ≡ d.rlen
    → d'.epi ≡ d.epi
    → d'.ep0 ≡ d.ep0
    → IsSane slots d'
same-IsSane v a b c e = record {
  slot = rw a v.slot;
  rlen = rw b v.rlen;
  epi = rw c v.epi;
  ep0 = rw e v.ep0;
}

keyboard_event-Keeps :
    (slots ticks i : ℕ) (e : Event) (x : Xhci)
    → Keeps slots x
    → Keeps slots (keyboard_event ticks i e x)
unfolding keyboard_event report_of
keyboard_event-Keeps slots ticks i e x k =
    let v = get_or-IsTable i k.table in
    if-keeps (Keeps slots) _
      (kbd_arm-Keeps slots i (report_of ticks i e x)
        (record { table = set-IsTable i (same-IsSane v refl refl refl refl) k.table }))
      (record { table = set-IsTable i (same-IsSane v refl refl refl refl) k.table })

transfer_to-Keeps :
    (slots ticks : ℕ) (e : Event) (x : Xhci) (found : Option ℕ)
    → Keeps slots x
    → Keeps slots (transfer_to ticks e x found)
unfolding transfer_to
transfer_to-Keeps slots ticks e x none k = record { table = k.table }
transfer_to-Keeps slots ticks e x (some i) k =
    if-keeps (Keeps slots) _ (keyboard_event-Keeps slots ticks i e x k) (record { table = k.table })

port_event-Keeps : (slots : ℕ) (e : Event) (x : Xhci) → Keeps slots x → Keeps slots (port_event e x)
unfolding port_event
port_event-Keeps slots e x k = ground arith

pub handle_event-Keeps :
    (slots ticks : ℕ) (e : Event) (x : Xhci) → Keeps slots x → Keeps slots (handle_event ticks e x)
unfolding handle_event transfer_event
handle_event-Keeps slots ticks e x k =
    let other = if-keeps (Keeps slots) (event_type e == 34) (port_event-Keeps slots e x k) k in
    let moved = transfer_to-Keeps slots ticks e x (dev_by_slot (event_slot e) x.dev) k in
    if-keeps (Keeps slots) (event_type e == 33) {x = record x { waiter = completion e x.waiter }}
      (record { table = k.table }) (if-keeps (Keeps slots) (event_type e == 32) moved other)

poll_from-Keeps :
    (slots k ticks : ℕ) (ring : ℕ → Event) (q : Cursor) (x : Xhci)
    → Keeps slots x
    → Keeps slots (poll_from k ticks ring q x).2
unfolding poll_from
poll_from-Keeps slots zero ticks ring q x t = t
poll_from-Keeps slots (suc k) ticks ring q x t =
    if-keeps (λ (r : ℕ × Cursor × Xhci). Keeps slots r.2) _
      (poll_from-Keeps slots k ticks ring (advance q) (handle_event ticks (ring q.deq) x)
        (handle_event-Keeps slots ticks (ring q.deq) x t))
      t

pub poll_events-Keeps :
    (slots : ℕ) (ring : ℕ → Event) (h : Hc) → Keeps slots h.x → Keeps slots (poll_events ring h).1.x
unfolding poll_events
poll_events-Keeps slots ring h t = poll_from-Keeps slots 513 h.ticks ring h.q h.x t

wait_rounds-Keeps :
    (slots end : ℕ) (rs : List Moment) (h : Hc)
    → Keeps slots h.x
    → Keeps slots (wait_rounds end rs h).x
unfolding wait_rounds
wait_rounds-Keeps slots end [] h t = record { table = t.table }
wait_rounds-Keeps slots end (r ∷ rs) h t =
    let h0 : Hc = record h { ticks = r.now } in
    if-keeps (λ (s : Hc). Keeps slots s.x) _
      (wait_rounds-Keeps slots end rs (poll_events r.ring h0).1
        (poll_events-Keeps slots r.ring h0 t))
      t

pub wait_done-Keeps : (slots ms : ℕ) (h : Hc) → Keeps slots h.x → Keeps slots (wait_done ms h).1.x
unfolding wait_done
wait_done-Keeps slots ms h k = record { table = (wait_rounds-Keeps slots _ h.rounds h k).table }

pub cmd_exec-Keeps :
    (slots param ctl : ℕ) (h : Hc) → Keeps slots h.x → Keeps slots (cmd_exec param ctl h).1.x
unfolding cmd_exec start_cmd
cmd_exec-Keeps slots param ctl h k =
    wait_done-Keeps slots 1500 (start_cmd param ctl h) (record { table = k.table })
