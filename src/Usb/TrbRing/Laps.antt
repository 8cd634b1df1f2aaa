-- ===== src/Usb/TrbRing/Laps.antt =====
-- Where the pushes of a ring go: push `i` (counted from 0) is written to slot `i % 255`, with a cycle
-- bit that changes at each lap.
use sacabambaspos.Base.{
  ℕ, zero, suc, ◌+◌, ◌*◌, ◌-◌, ◌/◌, ◌%◌, ◌^◌, ◌≤◌, ◌≡◌, refl, ap, ◌∙◌, set, arith, length,
  length-set, length-replicate, get_or, get_or-set_self, bit_and, bit_xor, bit_or-odd, bit_and-odd,
}
use sacabambaspos.Usb.TrbRing.{
  Trb, TrbRing, ring_trbs, cleared, ring_init, link_ctl, cycled, follow_link, ring_push,
}

-- The cycle bit of lap `q`.
abbrev pub lap_cycle : ℕ → ℕ
lap_cycle q = 1 - q % 2

-- A ring after `i` pushes. The link slot is followed by the next push, not by the one before it.
pub record At (i : ℕ) (r : TrbRing) : Type 0 where
  pub storage : length r.t ≡ ring_trbs
  pub position : r.enq + 255 * ((i - 1) / 255) ≡ i
  pub cycle : r.cyc ≡ lap_cycle ((i - 1) / 255)

pub At-ring_init : (page : ℕ) → At 0 (ring_init page)
unfolding ring_init
At-ring_init page = record {
  storage = length-replicate ring_trbs cleared;
  position = omega arith;
  cycle = refl;
}

flip : (c : ℕ) → c ≤ 1 → bit_xor c 1 ≡ 1 - c
flip zero h = refl
flip (suc zero) h = refl
flip (suc (suc c)) h = absurd (omega arith)

-- After the link is followed, if it is due, the next slot is `i % 255`.
follow_link_lem :
    (i : ℕ) {r : TrbRing}
    → At i r
    → (length (follow_link r).t ≡ ring_trbs)
      × ((follow_link r).enq ≡ i % 255)
      × ((follow_link r).cyc ≡ lap_cycle (i / 255))
unfolding follow_link
follow_link_lem i {r} a =
    ground
      (arith, flip r.cyc, length-set r.t r.enq (record { p = r.phys; s = 0; c = link_ctl r.cyc }))

cycled-odd : (ctl cyc : ℕ) → cyc ≤ 1 → cycled ctl cyc % 2 ≡ cyc
cycled-odd ctl cyc h =
    omega (arith, bit_or-odd (bit_and ctl (2 ^ 32 - 2)) cyc, bit_and-odd ctl (2 ^ 32 - 2))

-- Push number `i`, counted from 0 on a fresh ring, writes its TRB to slot `i % 255` with the cycle bit
-- of lap `i / 255`, and leaves the ring ready for the next.
pub ring_push-At :
    (p s ctl i : ℕ) {r : TrbRing}
    → At i r
    → let (k, r') = ring_push p s ctl r in
      (k ≡ i % 255)
      × (get_or r'.t k cleared ≡ record { p = p; s = s; c = cycled ctl (lap_cycle (i / 255)) })
      × ((get_or r'.t k cleared).c % 2 ≡ lap_cycle (i / 255))
      × At (suc i) r'
unfolding ring_push
ring_push-At p s ctl i {r} a = (
  enq,
  written ∙ ap trb cyc,
  rw written (cycled-odd ctl f.cyc (omega (arith, cyc)) ∙ cyc),
  record {
    storage = length-set f.t f.enq (trb f.cyc) ∙ len;
    position = omega (arith, enq);
    cycle = cyc ∙ ap lap_cycle (omega arith);
  },
)
  where
    f : TrbRing
    f = follow_link r

    len : length f.t ≡ ring_trbs
    len = (follow_link_lem i a).0

    enq : f.enq ≡ i % 255
    enq = (follow_link_lem i a).1

    cyc : f.cyc ≡ lap_cycle (i / 255)
    cyc = (follow_link_lem i a).2

    trb : ℕ → Trb
    trb c = record { p = p; s = s; c = cycled ctl c }

    written : get_or (set f.t f.enq (trb f.cyc)) f.enq cleared ≡ trb f.cyc
    written = get_or-set_self f.t f.enq (trb f.cyc) cleared (omega (arith, enq, len))
