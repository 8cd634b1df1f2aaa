-- ===== src/Usb/TrbRing.antt =====
-- `Ring`, `ring_init` and `ring_push` of src/kernel/usb.c: a producer ring of 256 TRBs, the last of
-- which links back to the first. A ring's TRBs are the list of those in its page.
pub mod Laps
use sacabambaspos.Base.{
  ℕ, ◌+◌, ◌*◌, ◌-◌, ◌^◌, List, [], ◌∷◌, set, replicate, ◌==◌, if◌then◌else◌, bit_and, bit_or,
  bit_xor,
}

-- RING_TRBS
abbrev pub ring_trbs : ℕ
ring_trbs = 256

pub record Trb : Type 0 where
  pub p : ℕ
  pub s : ℕ
  pub c : ℕ

pub record TrbRing : Type 0 where
  pub t : List Trb
  pub phys : ℕ
  pub enq : ℕ
  pub cyc : ℕ

abbrev pub cleared : Trb
cleared = record { p = 0; s = 0; c = 0 }

-- The page comes cleared from `dma_alloc`; when there is none, the source returns 0 and has no ring.
unfoldable pub ring_init : ℕ → TrbRing
ring_init page = record { t = replicate ring_trbs cleared; phys = page; enq = 0; cyc = 1 }

-- `(6u<<10) | 2u | r->cyc`
abbrev pub link_ctl : ℕ → ℕ
link_ctl cyc = bit_or (bit_or (6 * 2 ^ 10) 2) cyc

-- `(ctl & ~1u) | r->cyc`
abbrev pub cycled : ℕ → ℕ → ℕ
cycled ctl cyc = bit_or (bit_and ctl (2 ^ 32 - 2)) cyc

unfoldable pub follow_link : TrbRing → TrbRing
follow_link r =
    if r.enq == ring_trbs - 1
    then record r {
      t = set r.t r.enq (record { p = r.phys; s = 0; c = link_ctl r.cyc });
      enq = 0;
      cyc = bit_xor r.cyc 1;
    }
    else r

-- The index of the TRB that was written, and the new ring.
unfoldable pub ring_push : ℕ → ℕ → ℕ → TrbRing → ℕ × TrbRing
ring_push p s ctl r =
    let r' = follow_link r in
    (
      r'.enq,
      record r' {
        t = set r'.t r'.enq (record { p = p; s = s; c = cycled ctl r'.cyc });
        enq = r'.enq + 1;
      },
    )
