-- ===== src/Libk/Move.antt =====
-- `memset`, `memcpy` and `memmove` against the memory that each should leave.
use sacabambaspos.Base.{
  ℕ, zero, suc, ◌+◌, ◌-◌, ◌≤◌, ◌≡◌, ◌⊎◌, inl, inr, arith, ◌&&◌, ltb, leb, if◌then◌else◌, u8,
}
use sacabambaspos.Libk.{Mem, store, memset, memcpy, copy_down, memmove}

-- The bytes of `[d, d + n)` are those that `m` holds in `[s, s + n)`; all others are as in `m`.
abbrev pub moved : ℕ → ℕ → ℕ → Mem → Mem
moved d s n m x = if leb d x && ltb x (d + n) then m (s + (x - d)) else m x

pub memset_lem :
    (d c n : ℕ) (m : Mem) (x : ℕ)
    → memset d c n m x ≡ (if leb d x && ltb x (d + n) then u8 c else m x)
unfolding memset
memset_lem d c zero m x = ground arith
memset_lem d c (suc n) m x = rw (memset_lem (d + 1) c n (store m d (u8 c)) x) (ground arith)

-- `memcpy` copies upwards: right where the target starts at or below the source, or clear of it.
pub memcpy_lem :
    (d s n : ℕ) (m : Mem) (x : ℕ) → (d ≤ s) ⊎ (s + n ≤ d) → memcpy d s n m x ≡ moved d s n m x
unfolding memcpy
memcpy_lem d s zero m x h = ground arith
memcpy_lem d s (suc n) m x h =
    rw (memcpy_lem (d + 1) (s + 1) n (store m d (m s)) x (later h)) (ground arith)
  where
    later : (d ≤ s) ⊎ (s + suc n ≤ d) → (d + 1 ≤ s + 1) ⊎ (s + 1 + n ≤ d + 1)
    later (inl p) = inl (omega arith)
    later (inr p) = inr (omega arith)

copy_down_lem : (d s n : ℕ) (m : Mem) (x : ℕ) → s ≤ d → copy_down d s n m x ≡ moved d s n m x
unfolding copy_down
copy_down_lem d s zero m x h = ground arith
copy_down_lem d s (suc n) m x h =
    rw (copy_down_lem d s n (store m (d + n) (m (s + n))) x h) (ground arith)

-- However the two blocks overlap, after `memmove` of `n` bytes from `s` to `d` each byte of `[d, d + n)`
-- is the byte that stood at its place in `[s, s + n)` before the call, and all other bytes are as they
-- were.
pub memmove_lem : (d s n : ℕ) (m : Mem) (x : ℕ) → memmove d s n m x ≡ moved d s n m x
unfolding memmove
memmove_lem d s n m x = ground (arith, memcpy_lem d s n m x, copy_down_lem d s n m x)
