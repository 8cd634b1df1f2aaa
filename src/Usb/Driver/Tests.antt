-- ===== src/Usb/Driver/Tests.antt =====
-- A controller with concrete events.
use sacabambaspos.Base.{
  ℕ, ◌+◌, ◌*◌, ◌/◌, ◌%◌, ◌^◌, ◌≤◌, ◌≡◌, refl, inl, arith, false, none, some, [], ◌∷◌, ◌==◌,
  if◌then◌else◌, bit_or, replicate, ltb,
}
use sacabambaspos.Usb.TrbRing.{ring_init, ring_push, follow_link}
use sacabambaspos.Usb.Report.{Typist}
use sacabambaspos.Usb.Driver.{Event, Xhci, Waiter, unused, event_code, event_slot, event_type}
use sacabambaspos.Usb.Driver.Poll.{Moment, Hc, poll_events, cmd_exec, start_cmd}
use sacabambaspos.Usb.Driver.Fifo.{Queued, cursor_at, lap_cycle, handle_sent, poll_events-Queued}
use sacabambaspos.Usb.Driver.Answers.{
  IsAnswer, OnlyAnswer, Comes, Polled, InTime, cmd_exec-answer, cmd_exec-silent,
}
use sacabambaspos.Usb.Driver.Devices.{Chip, Drv}
use sacabambaspos.Usb.Driver.Ports.{scan_from, scan_ports, scan_from-done, scan_from-forever}
use sacabambaspos.Usb.Driver.Service.{serve_hc}
use sacabambaspos.Usb.Driver.Sane.Steps.{Sound}
use sacabambaspos.Usb.Driver.Sane.Ports.{serve_hc-Sound}

abbrev typist : Typist
typist = record {
  prev = replicate 8 0;
  usb_caps = false;
  rep_usage = 0;
  rep_key = 0;
  rep_next = 0;
  kq = record { slots = replicate 64 0; rd = 0; wr = 0 };
}

abbrev waiter : Waiter
waiter = record { wdone = false; wt = 0; wslot = 0; wdci = 0; wcc = 0; wslotout = 0; wp = 0 }

abbrev state : Xhci
state = record {
  dev = replicate 16 unused;
  pscan = λ p. false;
  waiter = waiter;
  typist = typist;
  bells = [];
}

-- A change on port 3, in the lap of its number.
abbrev port_change : ℕ → Event
port_change i = record {
  trb = record { p = 3 * 2 ^ 24; s = 0; c = 34 * 2 ^ 10 + lap_cycle (i / 256) };
  written = [];
}

-- Events number 255 and 256, at the end of the ring and at its start; the others are of the first lap.
abbrev wrapped : ℕ → Event
wrapped k = if k == 0 then port_change 256 else port_change 0

abbrev idle : Hc
idle = record {
  x = state;
  q = cursor_at 255;
  ev_phys = 0x8000;
  erdp = 0;
  cmd = ring_init 0x5000;
  ticks = 1;
  rounds = [];
}

wrapped-Queued : Queued port_change 255 257 wrapped
wrapped-Queued = record {
  stored = λ i le lt. ground arith;
  marked = λ i le lt. omega arith;
  free = λ e. omega arith;
}

poll_events-Queued_example :
    let (count, h) = poll_events wrapped idle in
    (count ≡ 2)
    × (h.q ≡ cursor_at 257)
    × (h.x ≡ handle_sent 1 port_change 255 2 state)
    × (h.ticks ≡ 1)
    × (h.erdp ≡ bit_or (0x8000 + 257 % 256 * 16) 8)
poll_events-Queued_example =
    poll_events-Queued port_change 255 2 257 wrapped idle refl (omega arith) refl wrapped-Queued

-- A change on a port, and then the answer to the command at 0x5000: slot 5.
abbrev answers : ℕ → Event
answers i = record {
  trb = record {
    p = if i == 1 then 0x5000 else 3 * 2 ^ 24;
    s = 2 ^ 24;
    c =
        if i == 1
        then 5 * 2 ^ 24 + 33 * 2 ^ 10 + lap_cycle (i / 256)
        else 34 * 2 ^ 10 + lap_cycle (i / 256);
  };
  written = [];
}

-- Behind the `n` events of the first lap the ring is empty.
abbrev first_of : ℕ → ℕ → Event
first_of n k =
    if ltb k n then answers k else record { trb = record { p = 0; s = 0; c = 0 }; written = [] }

first_of-Queued : Queued answers 0 2 (first_of 2)
first_of-Queued = record {
  stored = λ i le lt. ground arith;
  marked = λ i le lt. ground arith;
  free = λ e. omega arith;
}

abbrev asked : Hc
asked = record idle { q = cursor_at 0; rounds = record { now = 3; ring = first_of 2 } ∷ [] }

answers-OnlyAnswer : OnlyAnswer answers 0x5000 0 1
unfolding OnlyAnswer IsAnswer
answers-OnlyAnswer i le ne (type, p) = ground arith

cmd_exec-answer_example :
    let (code, h) = cmd_exec 0 (9 * 2 ^ 10) asked in
    (code ≡ some 1) × (h.x.waiter.wslotout ≡ 5) × (h.x.waiter.wt ≡ 0)
unfolding start_cmd IsAnswer Comes event_type event_code event_slot ring_push follow_link ring_init
cmd_exec-answer_example =
    cmd_exec-answer 0 (9 * 2 ^ 10) answers 1 0 asked refl (omega arith) (omega arith)
      answers-OnlyAnswer (refl, refl) (2, omega arith, first_of-Queued, inl (omega arith))

-- The same without the answer.
abbrev one_change : ℕ → Event
one_change k = if k == 0 then port_change 0 else first_of 0 k

-- A round in time, and one with nothing new that comes when the time is up.
abbrev early : Moment
early = record { now = 3; ring = one_change }

abbrev too_late : Moment
too_late = record { now = 160; ring = one_change }

abbrev unanswered : Hc
unanswered = record idle { q = cursor_at 0; rounds = early ∷ too_late ∷ early ∷ [] }

first_port_change : Queued port_change 0 1 one_change
first_port_change = record {
  stored = λ i le lt. ground arith;
  marked = λ i le lt. ground arith;
  free = λ e. omega arith;
}

no-IsAnswer : (i : ℕ) → 0 ≤ i → ¬ IsAnswer 0x5000 (port_change i)
unfolding IsAnswer
no-IsAnswer i le (type, p) = omega arith

nothing_new : Queued port_change 1 1 one_change
nothing_new = record {
  stored = λ i le lt. absurd (omega arith);
  marked = λ i le lt. omega arith;
  free = λ e. omega arith;
}

cmd_exec-silent_example :
    let (code, h) = cmd_exec 0 (9 * 2 ^ 10) unanswered in
    (code ≡ none)
    × (h.x.waiter.wt ≡ 0)
    × (h.x.waiter.wdone ≡ false)
    × (h.ticks ≡ 160)
    × (h.rounds ≡ early ∷ [])
unfolding start_cmd Polled InTime ring_push follow_link ring_init
cmd_exec-silent_example =
    cmd_exec-silent 0 (9 * 2 ^ 10) port_change 0 (early ∷ []) too_late (early ∷ []) unanswered refl
      (omega arith) refl no-IsAnswer
      (1, omega arith, first_port_change, (0, omega arith, nothing_new, tt)) (omega arith, tt)
      (omega arith)

abbrev chip_of : ℕ → Chip
chip_of ports = record {
  csz = 32;
  slots = 15;
  ports = ports;
  ictx = 0x6000;
  xbuf = 0x7000;
  op = 0x9000;
  pmajor = λ p. 2;
}

abbrev driver : Drv
driver = record {
  hc = idle;
  heap = record { heap_at = 0x10_0000; heap_end = 0x20_0000; heap_start = 0x10_0000; mem = λ a. 0 };
  dcbaa = λ j. 0;
  inputs = λ j. 0;
  reply = λ j. 0;
  replies = [];
  contexts = [];
  regs = [];
  portsc = [];
  hubscan_at = 0;
}

scan_from-done_example : scan_from 3 1 (chip_of 2) driver ≡ some (scan_ports 2 1 (chip_of 2) driver)
scan_from-done_example = scan_from-done 3 1 2 (chip_of 2) driver refl (omega arith) (omega arith)

scan_from-forever_example : scan_from 1000 1 (chip_of 255) driver ≡ none
scan_from-forever_example = scan_from-forever 1000 1 (chip_of 255) driver (omega arith) refl

driver-Sound : Sound 15 driver
driver-Sound = omega arith

serve_hc-Sound_example : Sound 15 (serve_hc (chip_of 2) wrapped driver)
serve_hc-Sound_example = serve_hc-Sound (chip_of 2) wrapped driver driver-Sound
