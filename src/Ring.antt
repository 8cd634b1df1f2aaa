-- ===== src/Ring.antt =====
-- The two queues of decoded input: `buf`, `rd` and `wr` of src/kernel/kbd.c (256 slots) and `kq`,
-- `kq_r` and `kq_w` of src/kernel/usb.c (64 slots). One slot stays free, so that full and empty
-- differ.
pub mod Refine
mod Tests
use sacabambaspos.Base.{
  ℕ, zero, suc, ◌+◌, ◌-◌, ◌%◌, List, [], ◌∷◌, ◌++◌, Option, none, some, get_or, set, replicate,
  ◌==◌, if◌then◌else◌, u32,
}

pub record Ring : Type 0 where
  pub slots : List ℕ
  pub rd : ℕ
  pub wr : ℕ

module _ (size : ℕ) where
  pub empty : Ring
  empty = record { slots = replicate size 0; rd = 0; wr = 0 }

  -- A push into a full ring is dropped.
  unfoldable pub push : ℕ → Ring → Ring
  push v r =
      let n = u32 (r.wr + 1) % size in
      if n == r.rd then r else record r { slots = set r.slots r.wr v; wr = n }

  unfoldable pub pop : Ring → Option ℕ × Ring
  pop r =
      if r.rd == r.wr
      then (none, r)
      else (some (get_or r.slots r.rd 0), record r { rd = u32 (r.rd + 1) % size })

  -- The number of values queued, and those values, oldest first.
  abbrev pub used : Ring → ℕ
  used r = (r.wr + size - r.rd) % size

  abbrev pub items : List ℕ → ℕ → ℕ → List ℕ
  items slots h zero = []
  items slots h (suc n) = items slots h n ++ (get_or slots ((h + n) % size) 0 ∷ [])

  abbrev pub contents : Ring → List ℕ
  contents r = items r.slots r.rd (used r)
