-- ===== src/Boot/Confined.antt =====
-- The segments of the kernel are copied into the pages that were asked for, and nowhere else.
use sacabambaspos.Base.{
  ℕ, zero, suc, ◌+◌, ◌-◌, ◌*◌, ◌/◌, ◌^◌, ◌≤◌, ◌<◌, ◌≡◌, ◌⊎◌, refl, ap, ◌∙◌, arith, Bool, true,
  false, ◌&&◌, ◌||◌, Option, none, some, ltb, Bool-cases, Option-cases, inl, inr, u64, sub64,
}
use sacabambaspos.Libk.{Mem, store, memset}
use sacabambaspos.Libk.Move.{memset_lem}
use sacabambaspos.Proc.{Phdr, phdr_at, u16_at, u32_at, u64_at}
use sacabambaspos.Boot.KernelLoad.{
  Plan, loads, span_from, plan_of, plan, pages, copy_in, load_from, load_image, kernel_span_max,
  ident_ok, phdrs_ok,
}

-- A memory of bytes.
abbrev pub IsBytes : Mem → Type 0
IsBytes f = (a : ℕ) → f a < 256

u64_at-lt : (f : Mem) (a : ℕ) → IsBytes f → u64_at f a < 2 ^ 64
unfolding u64_at u32_at u16_at
u64_at-lt f a h = omega (
  arith,
  h a,
  h (a + 1),
  h (a + 2),
  h (a + 2 + 1),
  h (a + 4),
  h (a + 4 + 1),
  h (a + 4 + 2),
  h (a + 4 + 2 + 1),
)

-- Address `x` is not among the `n` from `a` on.
abbrev pub Outside : ℕ → ℕ → ℕ → Type 0
Outside a n x = (x < a) ⊎ (a + n ≤ x)

copy_in-Outside :
    (n d s : ℕ) (f m : Mem) (x : ℕ) → d + n ≤ 2 ^ 64 → Outside d n x → copy_in n d s f m x ≡ m x
unfolding copy_in
copy_in-Outside zero d s f m x h o = refl
copy_in-Outside (suc zero) d s f m x h o = ground arith
copy_in-Outside (suc (suc n)) d s f m x h o =
    let up : u64 (d + 1) ≡ d + 1 = omega arith in
    let rest : copy_in (suc n) (d + 1) (s + 1) f (store m d (f s)) x ≡ store m d (f s) x =
      copy_in-Outside (suc n) (d + 1) (s + 1) f (store m d (f s)) x (omega arith) (ground arith) in
    ap (λ t. copy_in (suc n) t (s + 1) f (store m d (f s)) x) up ∙ rest ∙ ground arith

-- The headers that are loaded lie between `lo` and `hi`.
abbrev Covered : ℕ → ℕ → Mem → ℕ → ℕ → Type 0
Covered zero at f lo hi = Unit
Covered (suc n) at f lo hi =
    (loads (phdr_at f at) ≡ true
      → (lo ≤ (phdr_at f at).vaddr)
        × ((phdr_at f at).vaddr + (phdr_at f at).memsz ≤ hi)
        × ((phdr_at f at).filesz ≤ (phdr_at f at).memsz))
    × Covered n (at + 56) f lo hi

Covered-le :
    (n at : ℕ) (f : Mem) (lo hi lo' : ℕ) → lo' ≤ lo → Covered n at f lo hi → Covered n at f lo' hi
Covered-le zero at f lo hi lo' h c = tt
Covered-le (suc n) at f lo hi lo' h c =
    (λ e. let (a, b, d) = c.0 e in (omega arith, b, d), Covered-le n (at + 56) f lo hi lo' h c.1)

phdr_at-lt :
    (f : Mem) (at : ℕ)
    → IsBytes f
    → ((phdr_at f at).vaddr < 2 ^ 64) × ((phdr_at f at).memsz < 2 ^ 64)
unfolding phdr_at
phdr_at-lt f at h = (u64_at-lt f (at + 16) h, u64_at-lt f (at + 40) h)

span_from-Covered :
    (n at : ℕ) (f : Mem) (lo hi lo' hi' : ℕ)
    → IsBytes f
    → span_from n at f lo hi ≡ some (lo', hi')
    → (lo' ≤ lo) × (hi ≤ hi') × Covered n at f lo' hi'
unfolding span_from
span_from-Covered zero at f lo hi lo' hi' h e = (ground arith, ground arith, tt)
span_from-Covered (suc n) at f lo hi lo' hi' h e = elim (Bool-cases (loads ph)) [
  | inr skipped ↦
      let (a, b, c) = span_from-Covered n (at + 56) f lo hi lo' hi' h (rw skipped at e) in
      (a, b, (λ k. absurd (clash skipped k), c))
  | inl loaded ↦
      elim (Bool-cases (ltb ph.memsz ph.filesz || ltb (u64 (ph.vaddr + ph.memsz)) ph.vaddr)) [
        | inl bad ↦ absurd (refused (rw (loaded, bad) at e))
        | inr good ↦
            let (a, b, c) =
              span_from-Covered n (at + 56) f _ _ lo' hi' h (rw (loaded, good) at e) in
            let (v, w) = phdr_at-lt f at h in
            (ground arith, ground arith, (λ k. (ground arith, ground arith, ground arith), c))
      ]
]
  where
    ph : Phdr
    ph = phdr_at f at

    clash : {b : Bool} → b ≡ false → b ≡ true → ⊥
    clash p q = cc

    refused : ◌≡◌ {A = Option (ℕ × ℕ)} none (some (lo', hi')) → ⊥
    refused p = cc

-- Where the image puts an address of the file.
pub slide_lem :
    (base lo v : ℕ)
    → base < 2 ^ 64
    → lo ≤ v
    → v < 2 ^ 64
    → base + (v - lo) < 2 ^ 64
    → u64 (sub64 base lo + v) ≡ base + (v - lo)
slide_lem base lo v hb h hv room = omega arith

pub narrower :
    (base lo hi v n x d : ℕ)
    → d ≡ base + (v - lo)
    → lo ≤ v
    → v + n ≤ hi
    → Outside base (hi - lo) x
    → Outside d n x
narrower base lo hi v n x d e low high (inl below) = inl (omega arith)
narrower base lo hi v n x d e low high (inr above) = inr (omega arith)

load_from-Outside :
    (n at : ℕ) (f : Mem) (fsz base lo hi : ℕ) (m : Mem) (x : ℕ)
    → IsBytes f
    → Covered n at f lo hi
    → lo ≤ hi
    → base + (hi - lo) < 2 ^ 64
    → Outside base (hi - lo) x
    → (load_from n at f fsz (sub64 base lo) m).1 x ≡ m x
unfolding load_from
load_from-Outside zero at f fsz base lo hi m x h c le room o = refl
load_from-Outside (suc n) at f fsz base lo hi m x h c le room o = elim (Bool-cases (loads ph)) [
  | inr skipped ↦ rw skipped (load_from-Outside n (at + 56) f fsz base lo hi m x h c.1 le room o)
  | inl loaded ↦ elim (Bool-cases (ltb fsz ph.off || ltb (fsz - ph.off) ph.filesz)) [
    | inl bad ↦ rw (loaded, bad) refl
    | inr good ↦
        let (low, high, fits) = c.0 loaded in
        let (v, w) = phdr_at-lt f at h in
        let d : u64 (sub64 base lo + ph.vaddr) ≡ base + (ph.vaddr - lo) =
          slide_lem base lo ph.vaddr (omega arith) low v (omega arith) in
        rw (loaded, good)
          (load_from-Outside n (at + 56) f fsz base lo hi _ x h c.1 le room o
            ∙ copy_in-Outside ph.filesz (u64 (sub64 base lo + ph.vaddr)) ph.off f m x
                (omega (arith, d))
                (narrower base lo hi ph.vaddr ph.filesz x (u64 (sub64 base lo + ph.vaddr)) d low
                  (omega arith) o))
  ]
]
  where
    ph : Phdr
    ph = phdr_at f at

plan_of_lem :
    (entry lo hi : ℕ) (p : Plan)
    → plan_of entry (lo, hi) ≡ some p
    → (p.lo ≡ lo / 4096 * 4096) × (p.hi ≡ hi) × (lo < hi) × (hi - lo ≤ kernel_span_max)
unfolding plan_of
plan_of_lem entry lo hi p e = ground arith

plan-Covered :
    (fsz : ℕ) (f : Mem) (p : Plan)
    → IsBytes f
    → plan fsz f ≡ some p
    → (p.lo < p.hi)
      × (p.hi - p.lo ≤ kernel_span_max + 4095)
      × Covered (u16_at f 56) (u64_at f 32) f p.lo p.hi
unfolding plan
plan-Covered fsz f p h e =
    elim (Option-cases (span_from (u16_at f 56) (u64_at f 32) f (2 ^ 64 - 1) 0)) [
      | inl bad ↦ absurd (refused (rw (bad, plan) at e))
      | inr ((lo, hi), found) ↦ elim (Bool-cases (ident_ok fsz f && phdrs_ok fsz f)) [
        | inl checked ↦
            let (p1, p2, q1, q2) =
              plan_of_lem (u64_at f 24) lo hi p (rw (found, checked, plan) at e) in
            let (a, b, c) =
              span_from-Covered (u16_at f 56) (u64_at f 32) f (2 ^ 64 - 1) 0 lo hi h found in
            (
              omega (arith, p1, p2),
              omega (arith, p1, p2),
              rw (p1, p2)
                  (Covered-le (u16_at f 56) (u64_at f 32) f lo hi (lo / 4096 * 4096) (omega arith)
                    c),
            )
        | inr unchecked ↦ absurd (refused (rw (found, unchecked, plan) at e))
      ]
    ]
  where
    refused : ◌≡◌ {A = Option Plan} none (some p) → ⊥
    refused q = cc

-- Whatever the file holds, when it is accepted its span is at most 64 MiB, its start rounded down to a page,
-- and copying its segments changes no byte outside of the pages that are asked for at `base`, also when a
-- segment is refused on the way.
pub load_image-Outside :
    (fsz base x : ℕ) (f m : Mem) (p : Plan)
    → IsBytes f
    → plan fsz f ≡ some p
    → base + pages p * 4096 < 2 ^ 64
    → Outside base (pages p * 4096) x
    → (pages p * 4096 ≤ kernel_span_max + 8192) × ((load_image fsz f p base m).1 x ≡ m x)
unfolding load_image
load_image-Outside fsz base x f m p h e room o =
    let (some_bytes, span, covered) = plan-Covered fsz f p h e in
    (
      omega (arith, span),
      load_from-Outside (u16_at f 56) (u64_at f 32) f fsz base p.lo p.hi
            (memset base 0 (pages p * 4096) m) x h covered (omega (arith, some_bytes)) (omega arith)
            (narrow_pages base p.lo p.hi x o)
          ∙ cleared base (pages p * 4096) x o,
    )
  where
    narrow_pages :
        (base lo hi x : ℕ)
        → Outside base ((hi - lo + 0xFFF) / 4096 * 4096) x
        → Outside base (hi - lo) x
    narrow_pages base lo hi x (inl below) = inl below
    narrow_pages base lo hi x (inr above) = inr (omega arith)

    cleared : (d n x : ℕ) → Outside d n x → memset d 0 n m x ≡ m x
    cleared d n x o = memset_lem d 0 n m x ∙ ground arith
