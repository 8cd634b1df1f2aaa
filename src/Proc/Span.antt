-- ===== src/Proc/Span.antt =====
-- The span, `img_lo` to `img_hi`, that `elf_run` keeps of a program's addresses.
use sacabambaspos.Base.{
  ℕ, zero, suc, ◌+◌, ◌-◌, ◌*◌, ◌/◌, ◌^◌, ◌≤◌, ◌<◌, ◌≡◌, ◌⊎◌, inl, inr, refl, arith, Bool, false,
  Bool-cases, ◌&&◌, ltb, if◌then◌else◌, test_bit, u64,
}
use sacabambaspos.Paging.{user_base}
use sacabambaspos.Proc.{
  ustack_lo, Phdr, Image, phdr_at, load_pages, load_segment, Verdict, skip, refuse, load, verdict,
  Status, good, bad_elf, no_memory, load_phdrs,
}

-- What the checks of a program header have shown when it is loaded.
pub record Checked (size : ℕ) (ph : Phdr) : Type 0 where
  pub above : user_base ≤ ph.vaddr
  pub some_bytes : 0 < ph.memsz
  pub below : ph.vaddr + ph.memsz ≤ ustack_lo - 4096
  pub in_file : ph.off + ph.filesz ≤ size
  pub fits : ph.filesz ≤ ph.memsz
  pub w_xor_x : test_bit ph.flags 1 && test_bit ph.flags 0 ≡ false

pub verdict-Checked : (size : ℕ) (ph : Phdr) → verdict size ph ≡ load → Checked size ph
unfolding verdict
verdict-Checked size ph h = record {
  above = ground arith;
  some_bytes = ground arith;
  below = ground arith;
  in_file = ground arith;
  fits = ground arith;
  w_xor_x = ground arith;
}

-- Nothing is loaded, or the pages loaded lie in the user window and leave a page free below the stack.
abbrev pub IsSpan : Image → Type 0
IsSpan s =
    ((s.img_lo ≡ 2 ^ 64 - 1) × (s.img_hi ≡ 0))
    ⊎ ((user_base ≤ s.img_lo) × (s.img_lo < s.img_hi) × (s.img_hi ≤ ustack_lo - 4096))

pub load_segment-IsSpan :
    (size src : ℕ) (w x : Bool) (ph : Phdr) (s : Image)
    → Checked size ph
    → IsSpan s
    → IsSpan (load_segment ph.vaddr src ph.filesz ph.memsz w x s).1
unfolding load_segment
load_segment-IsSpan size src w x ph s c h =
    elim (Bool-cases (load_pages ((end - start) / 4096) ph.vaddr src ph.filesz w x start s.vm).0) [
      | inr refused ↦ rw refused h
      | inl done ↦ rw done (grown h)
    ]
  where
    start : ℕ
    start = ph.vaddr / 4096 * 4096

    end : ℕ
    end = u64 (ph.vaddr + ph.memsz + 4095) / 4096 * 4096

    bounds : (user_base ≤ start) × (start < end) × (end ≤ ustack_lo - 4096)
    bounds = omega (arith, c.above, c.some_bytes, c.below)

    grown :
        ((s.img_lo ≡ 2 ^ 64 - 1) × (s.img_hi ≡ 0))
          ⊎ ((user_base ≤ s.img_lo) × (s.img_lo < s.img_hi) × (s.img_hi ≤ ustack_lo - 4096))
        → (((if ltb start s.img_lo then start else s.img_lo) ≡ 2 ^ 64 - 1)
            × ((if ltb s.img_hi end then end else s.img_hi) ≡ 0))
          ⊎ ((user_base ≤ (if ltb start s.img_lo then start else s.img_lo))
              × ((if ltb start s.img_lo then start else s.img_lo)
                  < (if ltb s.img_hi end then end else s.img_hi))
              × ((if ltb s.img_hi end then end else s.img_hi) ≤ ustack_lo - 4096))
    grown (inl fresh) = inr (ground (arith, bounds))
    grown (inr span) = inr (ground (arith, bounds))

pub Verdict-cases : (v : Verdict) → (v ≡ skip) ⊎ ((v ≡ refuse) ⊎ (v ≡ load))
Verdict-cases skip = inl refl
Verdict-cases refuse = inr (inl refl)
Verdict-cases load = inr (inr refl)

pub load_phdrs-IsSpan :
    (n file size at : ℕ) (s : Image) → IsSpan s → IsSpan (load_phdrs n file size at s).1
unfolding load_phdrs
load_phdrs-IsSpan zero file size at s h = h
load_phdrs-IsSpan (suc n) file size at s h = elim (Verdict-cases (verdict size ph)) [
  | inl skipped ↦ rw (skipped, load_phdrs) (load_phdrs-IsSpan n file size (at + 56) s h)
  | inr (inl refused) ↦ rw (refused, load_phdrs) h
  | inr (inr loaded) ↦ elim (Bool-cases done) [
    | inl yes_done ↦
        rw (loaded, yes_done, load_phdrs)
          (load_phdrs-IsSpan n file size (at + 56) _ (span (verdict-Checked size ph loaded)))
    | inr no_more ↦ rw (loaded, no_more, load_phdrs) (span (verdict-Checked size ph loaded))
  ]
]
  where
    ph : Phdr
    ph = phdr_at s.vm.heap.mem at

    w : Bool
    w = test_bit ph.flags 1

    x : Bool
    x = test_bit ph.flags 0

    done : Bool
    done = (load_segment ph.vaddr (file + ph.off) ph.filesz ph.memsz w x s).0

    span :
        Checked size ph → IsSpan (load_segment ph.vaddr (file + ph.off) ph.filesz ph.memsz w x s).1
    span c = load_segment-IsSpan size (file + ph.off) w x ph s c h

pub Status-cases : (s : Status) → (s ≡ good) ⊎ ((s ≡ bad_elf) ⊎ (s ≡ no_memory))
Status-cases good = inl refl
Status-cases bad_elf = inr (inl refl)
Status-cases no_memory = inr (inr refl)
