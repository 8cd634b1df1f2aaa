-- ===== src/Irq/Dispatch.antt =====
-- Which interrupts are acknowledged, and to whom.
use mathlib.Core.List.{append_assoc, append-nil}
use sacabambaspos.Base.{
  ℕ, ◌+◌, ◌≤◌, ◌≡◌, refl, sym, ap, ◌∙◌, arith, Bool, true, false, ◌&&◌, ◌||◌, List, [], ◌∷◌, ◌++◌,
  leb, ◌==◌, if◌then◌else◌, Bool-cases, inl, inr, test_bit, u64,
}
use sacabambaspos.Console.{Console}
use sacabambaspos.Irq.{
  Frame, resumed, isr_common, Irqs, Writes, outb, ask_isr, kbd_irq, serve, isr_irq, pic1_cmd,
  pic2_cmd,
}

-- The ends of interrupt among the writes.
pub acks : Writes → List ℕ
acks [] = []
acks ((port, v) ∷ w) =
    if v == 0x20 && (port == pic1_cmd || port == pic2_cmd) then port ∷ acks w else acks w

-- Is the vector's line raised in earnest?
abbrev pub genuine : ℕ → ℕ → ℕ → Bool
genuine vec isr1 isr2 =
    if vec == 39 then test_bit isr1 7 else if vec == 47 then test_bit isr2 7 else true

acks-append : (v w : Writes) → acks (v ++ w) ≡ acks v ++ acks w
unfolding acks
acks-append [] w = refl
acks-append ((port, x) ∷ v) w = ground (arith, acks-append v w)

abbrev eoi : ℕ → Writes
eoi vec = if leb 40 vec then (pic2_cmd, 0x20) ∷ (pic1_cmd, 0x20) ∷ [] else (pic1_cmd, 0x20) ∷ []

-- What was written and the time.
record Did (s : Irqs) (w : Writes) (t : ℕ) (s' : Irqs) : Type 0 where
  wrote : s'.writes ≡ s.writes ++ w
  time : s'.ticks ≡ t

ticked : ℕ → ℕ → ℕ
ticked vec t = if vec == 32 then u64 (t + 1) else t

serve-Did : (vec : ℕ) (s : Irqs) → Did s (eoi vec) (ticked vec s.ticks) (serve vec s)
unfolding serve outb ticked kbd_irq
serve-Did vec s = record {
  wrote = ground (arith, append_assoc s.writes ((pic2_cmd, 0x20) ∷ []) ((pic1_cmd, 0x20) ∷ []));
  time = ground arith;
}

asked-Did :
    (vec port : ℕ) (s : Irqs)
    → Did s ((port, 0x0B) ∷ eoi vec) (ticked vec s.ticks) (serve vec (ask_isr port s))
unfolding ask_isr outb
asked-Did vec port s =
    let d : Did (ask_isr port s) (eoi vec) (ticked vec s.ticks) (serve vec (ask_isr port s)) =
      serve-Did vec (ask_isr port s) in
    record { wrote = d.wrote ∙ append_assoc s.writes ((port, 0x0B) ∷ []) (eoi vec); time = d.time }

-- What is written for a vector.
told : ℕ → ℕ → ℕ → Writes
told vec isr1 isr2 =
    if leb 48 vec
    then []
    else if vec == 39
    then (if test_bit isr1 7 then (pic1_cmd, 0x0B) ∷ eoi vec else (pic1_cmd, 0x0B) ∷ [])
    else if vec == 47
    then (if test_bit isr2 7
        then (pic2_cmd, 0x0B) ∷ eoi vec
        else (pic2_cmd, 0x0B) ∷ (pic1_cmd, 0x20) ∷ [])
    else eoi vec

choice-Did :
    (s : Irqs) (t : ℕ) (b : Bool) (v w : Writes) (x y : Irqs)
    → (b ≡ true → Did s v t x)
    → (b ≡ false → Did s w t y)
    → Did s (if b then v else w) t (if b then x else y)
choice-Did s t true v w x y h k = h refl
choice-Did s t false v w x y h k = k refl

isr_irq-Did :
    (vec isr1 isr2 : ℕ) (s : Irqs)
    → Did s (told vec isr1 isr2) (ticked vec s.ticks) (isr_irq vec isr1 isr2 s)
unfolding isr_irq told ticked
isr_irq-Did vec isr1 isr2 s =
    choice-Did s t (leb 48 vec) _ _ _ _
      (λ h. record { wrote = sym (append-nil s.writes); time = ground arith })
      λ _.
        choice-Did s t (vec == 39) _ _ _ _
          (λ h.
            choice-Did s t (test_bit isr1 7) _ _ _ _ (λ _. asked-Did vec pic1_cmd s)
              (λ _. record { wrote = refl; time = ground (arith, h) }))
          λ _.
            choice-Did s t (vec == 47) _ _ _ _
              (λ h.
                choice-Did s t (test_bit isr2 7) _ _ _ _ (λ _. asked-Did vec pic2_cmd s)
                  (λ _. record {
                    wrote = append_assoc s.writes ((pic2_cmd, 0x0B) ∷ []) ((pic1_cmd, 0x20) ∷ []);
                    time = ground (arith, h);
                  }))
              λ _. serve-Did vec s
  where
    t : ℕ
    t = ticked vec s.ticks

abbrev expected : ℕ → ℕ → ℕ → List ℕ
expected vec isr1 isr2 =
    if leb 48 vec
    then []
    else if leb 40 vec
    then (if genuine vec isr1 isr2 then pic2_cmd ∷ pic1_cmd ∷ [] else pic1_cmd ∷ [])
    else if genuine vec isr1 isr2
    then pic1_cmd ∷ []
    else []

acks-told : (vec isr1 isr2 : ℕ) → acks (told vec isr1 isr2) ≡ expected vec isr1 isr2
unfolding told acks
acks-told vec isr1 isr2 = elim (Bool-cases (test_bit isr1 7)) [
  | inl one ↦ elim (Bool-cases (test_bit isr2 7)) [
    | inl two ↦ rw (one, two) (ground arith)
    | inr two ↦ rw (one, two) (ground arith)
  ]
  | inr one ↦ elim (Bool-cases (test_bit isr2 7)) [
    | inl two ↦ rw (one, two) (ground arith)
    | inr two ↦ rw (one, two) (ground arith)
  ]
]

-- An interrupt 32 to 47 of the PICs is acknowledged once: to the master alone, or, from 40 on, to the slave
-- and then to the master; a spurious one of the master (39) to nobody, and one of the slave (47) to the
-- master. Other vectors from 48 on are not. The clock goes on by one exactly at 32.
pub isr_common-acks :
    (f : Frame) (cr2 isr1 isr2 : ℕ) (c : Console) (s : Irqs)
    → 32 ≤ f.vec
    → (s' : Irqs) × (isr_common f cr2 isr1 isr2 c s ≡ resumed s')
      × (acks s'.writes
          ≡ acks s.writes
            ++ (if leb 48 f.vec
                then []
                else if leb 40 f.vec
                then (if genuine f.vec isr1 isr2 then pic2_cmd ∷ pic1_cmd ∷ [] else pic1_cmd ∷ [])
                else if genuine f.vec isr1 isr2
                then pic1_cmd ∷ []
                else []))
      × (s'.ticks ≡ (if f.vec == 32 then u64 (s.ticks + 1) else s.ticks))
unfolding isr_common ticked
isr_common-acks f cr2 isr1 isr2 c s low =
    let d = isr_irq-Did f.vec isr1 isr2 s in
    (
      isr_irq f.vec isr1 isr2 s,
      ground arith,
      rw (d.wrote, acks-append s.writes (told f.vec isr1 isr2))
          (ap (λ l. acks s.writes ++ l) (acks-told f.vec isr1 isr2)),
      d.time,
    )
