-- ===== src/Usb/Tests.antt =====
-- The USB driver at concrete reports and rings.
use sacabambaspos.Base.{
  ℕ, ◌/◌, ◌%◌, ◌≡◌, refl, inl, inr, arith, false, List, [], ◌∷◌, get_or, replicate, some,
}
use sacabambaspos.Usb.Report.{Typist, kbd_report}
use sacabambaspos.Usb.Report.Held.{kbd_report_twice}
use sacabambaspos.Usb.TrbRing.{cleared, cycled, ring_init, ring_push}
use sacabambaspos.Usb.TrbRing.Laps.{lap_cycle, At, At-ring_init, ring_push-At}
use sacabambaspos.Usb.Config.{find_kbd_if}
use sacabambaspos.Usb.Config.Refine.{
  Descriptor, interface, endpoint, other, IsAt, AreAt, first_kbd, find_kbd_if_lem,
}

-- Nothing is held and nothing queued.
abbrev silent : Typist
silent = record {
  prev = 0 ∷ 0 ∷ 0 ∷ 0 ∷ 0 ∷ 0 ∷ 0 ∷ 0 ∷ [];
  usb_caps = false;
  rep_usage = 0;
  rep_key = 0;
  rep_next = 0;
  kq = record { slots = replicate 64 0; rd = 0; wr = 0 };
}

-- Left shift with the keys A and B.
abbrev two_down : List ℕ
two_down = 2 ∷ 0 ∷ 4 ∷ 5 ∷ 0 ∷ 0 ∷ 0 ∷ 0 ∷ []

kbd_report_twice_example :
    let s' = kbd_report 10 two_down silent in
    let s'' = kbd_report 11 two_down s' in
    (s''.kq ≡ s'.kq) × (s''.usb_caps ≡ s'.usb_caps) × (s''.rep_key ≡ s'.rep_key)
kbd_report_twice_example =
    kbd_report_twice 10 11 two_down silent
      (inr (omega arith), (inr (omega arith), (inl refl, (inl refl, (inl refl, (inl refl, tt))))))

ring_push-At_example :
    let (k, r') = ring_push 0x1000 8 0x401 (ring_init 0x5000) in
    (k ≡ 0 % 255)
    × (get_or r'.t k cleared ≡ record { p = 0x1000; s = 8; c = cycled 0x401 (lap_cycle (0 / 255)) })
    × ((get_or r'.t k cleared).c % 2 ≡ lap_cycle (0 / 255))
    × At 1 r'
ring_push-At_example = ring_push-At 0x1000 8 0x401 0 (At-ring_init 0x5000)

-- A mouse and a keyboard, each an interface and its endpoint; the keyboard has a HID descriptor between.
abbrev contents : List ℕ
contents =
    9 ∷ 2 ∷ 50 ∷ 0 ∷ 2 ∷ 1 ∷ 0 ∷ 0xA0 ∷ 50 ∷ 9 ∷ 4 ∷ 0 ∷ 0 ∷ 1 ∷ 3 ∷ 1 ∷ 2 ∷ 0 ∷ 7 ∷ 5 ∷ 0x81 ∷ 3
    ∷ 4 ∷ 0 ∷ 10 ∷ 9 ∷ 4 ∷ 1 ∷ 0 ∷ 1 ∷ 3 ∷ 1 ∷ 1 ∷ 0 ∷ 9 ∷ 0x21 ∷ 17 ∷ 1 ∷ 0 ∷ 1 ∷ 34 ∷ 65 ∷ 0 ∷ 7
    ∷ 5 ∷ 0x82 ∷ 3 ∷ 8 ∷ 1 ∷ 12 ∷ []

abbrev buffer : ℕ → ℕ
buffer i = get_or contents i 0

abbrev found_there : List Descriptor
found_there =
    other 9 2
    ∷ interface 9 0 0 3 2
    ∷ endpoint 7 0x81 3 4 0 10
    ∷ interface 9 1 0 3 1
    ∷ other 9 0x21
    ∷ endpoint 7 0x82 3 8 1 12
    ∷ []

found_there-AreAt : AreAt buffer 50 0 found_there
unfolding AreAt IsAt
found_there-AreAt = ground (arith)

find_kbd_if_lem_example :
    find_kbd_if buffer 50 ≡ some (record { iface = 1; ep = 2; interval = 12; mps = 264 })
unfolding first_kbd
find_kbd_if_lem_example = find_kbd_if_lem buffer 50 found_there found_there-AreAt
