-- ===== src/Boot/Relocs.antt =====
-- The check of a relocation's target: it holds inside the image, and for the last eight addresses.
use sacabambaspos.Base.{
  ℕ, zero, suc, ◌+◌, ◌-◌, ◌/◌, ◌%◌, ◌^◌, ◌≤◌, ◌<◌, ◌≡◌, ◌⊎◌, refl, ap, ◌∙◌, arith, true, ltb,
  Bool-cases, inl, inr, u64, sub64,
}
use sacabambaspos.Libk.{Mem, store}
use sacabambaspos.Boot.KernelLoad.{reloc_ok, store_bytes}
use sacabambaspos.Boot.Confined.{Outside, slide_lem, narrower}

store_bytes-Outside :
    (n a v : ℕ) (m : Mem) (x : ℕ) → a + n < 2 ^ 64 → Outside a n x → store_bytes n a v m x ≡ m x
unfolding store_bytes
store_bytes-Outside zero a v m x h o = refl
store_bytes-Outside (suc n) a v m x h o =
    let up : u64 (a + 1) ≡ a + 1 = omega arith in
    let rest : store_bytes n (a + 1) (v / 256) (store m a (v % 256)) x ≡ store m a (v % 256) x =
      store_bytes-Outside n (a + 1) (v / 256) (store m a (v % 256)) x (omega arith)
        (ground arith) in
    ap (λ t. store_bytes n t (v / 256) (store m a (v % 256)) x) up ∙ rest ∙ ground arith

-- And those eight do pass.
reloc_ok_wraps :
    (lo hi offset : ℕ)
    → lo ≤ offset
    → 2 ^ 64 - 8 ≤ offset
    → offset < 2 ^ 64
    → 8 ≤ hi
    → reloc_ok lo hi offset ≡ true
unfolding reloc_ok
reloc_ok_wraps lo hi offset h far ho k = ground arith

-- A target that passes the check lies in the image, and then the eight bytes that are written there are in
-- the image's place at `base`; or it is one of the last eight addresses of the address space, and then, for
-- a file that begins at 0, the first of the bytes written lies below `base`.
pub reloc_ok_lem :
    (lo hi base offset v : ℕ) (m : Mem)
    → lo < hi
    → hi < 2 ^ 64
    → 8 ≤ base
    → base + (hi - lo) < 2 ^ 64
    → offset < 2 ^ 64
    → reloc_ok lo hi offset ≡ true
    → ((offset + 8 ≤ hi)
        × ((x : ℕ)
            → Outside base (hi - lo) x
            → store_bytes 8 (u64 (sub64 base lo + offset)) v m x ≡ m x))
      ⊎ ((2 ^ 64 - 8 ≤ offset) × (lo ≡ 0 → u64 (sub64 base lo + offset) < base))
unfolding reloc_ok
reloc_ok_lem lo hi base offset v m some_bytes hh hb room ho ok =
    elim (Bool-cases (ltb offset (2 ^ 64 - 8))) [
      | inl small ↦
          let inside : (lo ≤ offset) × (offset + 8 ≤ hi) = (ground arith, ground arith) in
          let place : u64 (sub64 base lo + offset) ≡ base + (offset - lo) =
            slide_lem base lo offset (omega arith) inside.0 ho (omega arith) in
          inl (
            inside.1,
            λ x o.
                store_bytes-Outside 8 _ v m x (omega (arith, place))
                  (narrower base lo hi offset 8 x _ place inside.0 inside.1 o),
          )
      | inr large ↦
          let far : 2 ^ 64 - 8 ≤ offset = ground arith in
          inr (far, λ e. below base lo offset hb (omega arith) far ho e)
    ]
  where
    below :
        (base lo offset : ℕ)
        → 8 ≤ base
        → base < 2 ^ 64
        → 2 ^ 64 - 8 ≤ offset
        → offset < 2 ^ 64
        → lo ≡ 0
        → u64 (sub64 base lo + offset) < base
    below base lo offset h k far ho e = omega arith
