-- ===== src/Usb/Interval.antt =====
-- `ep_interval` of src/kernel/usb.c: the exponent of the polling interval.
use sacabambaspos.Base.{
  ℕ, zero, suc, ◌+◌, ◌-◌, ◌*◌, ◌^◌, ◌≤◌, ◌<◌, ◌≡◌, ◌⊎◌, inl, inr, arith, true, false, Bool-cases,
  ◌&&◌, ltb, leb, ◌==◌, if◌then◌else◌,
}

-- `while((1u << (n+1)) <= f && n < 10) n++;` started at 3: seven rounds at most.
log_from : ℕ → ℕ → ℕ → ℕ
log_from zero f n = n
log_from (suc rounds) f n =
    let more = log_from rounds f (n + 1) in if leb (2 ^ (n + 1)) f && ltb n 10 then more else n

unfoldable pub ep_interval : ℕ → ℕ → ℕ
unfolding log_from
ep_interval speed bi =
    if leb 3 speed
    then (let v = if bi == 0 then 0 else bi - 1 in if ltb 15 v then 15 else v)
    else log_from 8 ((if bi == 0 then 8 else bi) * 8) 3

-- What the loop returns.
abbrev pub IsLog : ℕ → ℕ → Type 0
IsLog f n = (2 ^ n ≤ f) × ((f < 2 ^ (n + 1)) ⊎ (n ≡ 10)) × (3 ≤ n) × (n ≤ 10)

log_from-IsLog :
    (rounds f n : ℕ) → 10 < rounds + n → 2 ^ n ≤ f → 3 ≤ n → n ≤ 10 → IsLog f (log_from rounds f n)
unfolding log_from
log_from-IsLog zero f n h low a b = absurd (omega arith)
log_from-IsLog (suc rounds) f n h low a b = elim (Bool-cases (leb (2 ^ (n + 1)) f && ltb n 10)) [
  | inl more ↦
      rw more
        (log_from-IsLog rounds f (n + 1) (omega arith) (grows more) (omega arith) (below more))
  | inr stop ↦ rw stop (low, ended stop, a, b)
]
  where
    grows : leb (2 ^ (n + 1)) f && ltb n 10 ≡ true → 2 ^ (n + 1) ≤ f
    grows p = ground arith

    below : leb (2 ^ (n + 1)) f && ltb n 10 ≡ true → n + 1 ≤ 10
    below p = ground arith

    ended : leb (2 ^ (n + 1)) f && ltb n 10 ≡ false → (f < 2 ^ (n + 1)) ⊎ (n ≡ 10)
    ended p = ground arith

-- At low and full speed (speed below 3) the interval in microframes, 2^n, is the largest power of two
-- from 2^3 to 2^10 that is at most `8 * bInterval`; a `bInterval` of 0 counts as 8.
pub ep_interval-IsLog :
    (speed bi : ℕ) → speed < 3 → IsLog ((if bi == 0 then 8 else bi) * 8) (ep_interval speed bi)
unfolding ep_interval
ep_interval-IsLog speed bi slow = rw (fast_test speed slow) (
    log_from-IsLog 8 ((if bi == 0 then 8 else bi) * 8) 3 (omega arith) (ground arith) (omega arith)
      (omega arith))
  where
    fast_test : (v : ℕ) → v < 3 → leb 3 v ≡ false
    fast_test v h = ground arith
