-- ===== src/Usb/Report/Held.antt =====
-- A key that is held is typed once: a report with no new usage changes nothing but the repeat.
use sacabambaspos.Base.{
  ℕ, zero, suc, ◌<◌, ◌≡◌, ◌⊎◌, inl, inr, refl, ap, ◌∙◌, arith, Bool, true, not, List, [], ◌∷◌,
  get_or, take, ◌==◌, bit_and,
}
use sacabambaspos.Usb.Report.{Typist, holds, usages, press, press_all, settle, kbd_report}

-- Each usage is empty, or held according to `prev`, and none is a rollover code.
abbrev pub AllHeld : List ℕ → List ℕ → Type 0
AllHeld prev [] = Unit
AllHeld prev (u ∷ us) = ((u ≡ 0) ⊎ ((holds u (usages prev) ≡ true) × (3 < u))) × AllHeld prev us

press_all-held :
    (ticks : ℕ) (shift : Bool) (us : List ℕ) (s : Typist)
    → AllHeld s.prev us
    → press_all ticks shift us s ≡ (true, s)
unfolding press_all press
press_all-held ticks shift [] s h = refl
press_all-held ticks shift (u ∷ us) s h = ground (arith, press_all-held ticks shift us s h.1)

-- Such a report leaves the queue, caps lock and the repeated key's code and time as they are.
pub kbd_report-held :
    (ticks : ℕ) (r : List ℕ) (s : Typist)
    → AllHeld s.prev (usages r)
    → kbd_report ticks r s ≡ settle r s
unfolding kbd_report
kbd_report-held ticks r s h =
    rw (press_all-held ticks (not (bit_and (get_or r 0 0) 0x22 == 0)) (usages r) s h)

abbrev pub NoRollover : List ℕ → Type 0
NoRollover [] = Unit
NoRollover (u ∷ us) = ((u ≡ 0) ⊎ (3 < u)) × NoRollover us

press_all-done :
    (ticks : ℕ) (shift : Bool) (us : List ℕ) (s : Typist)
    → NoRollover us
    → (press_all ticks shift us s).0 ≡ true
unfolding press_all
press_all-done ticks shift [] s h = refl
press_all-done ticks shift (u ∷ us) s h =
    ground (arith, press_all-done ticks shift us (press ticks shift u s) h.1)

kbd_report-done :
    (ticks : ℕ) (r : List ℕ) (s : Typist)
    → NoRollover (usages r)
    → (kbd_report ticks r s).prev ≡ take 8 r
unfolding kbd_report settle
kbd_report-done ticks r s h =
    ground (arith, press_all-done ticks (not (bit_and (get_or r 0 0) 0x22 == 0)) (usages r) s h)

take-take : (n : ℕ) (xs : List ℕ) → take n (take n xs) ≡ take n xs
take-take zero xs = refl
take-take (suc n) [] = refl
take-take (suc n) (x ∷ xs) = ap (λ t. x ∷ t) (take-take n xs)

usages-take : (r : List ℕ) → usages (take 8 r) ≡ usages r
usages-take [] = refl
usages-take (a ∷ []) = refl
usages-take (a ∷ b ∷ r) = take-take 6 r

AllHeld-self :
    (prev us : List ℕ)
    → ((u : ℕ) → holds u us ≡ true → holds u (usages prev) ≡ true)
    → NoRollover us
    → AllHeld prev us
unfolding holds
AllHeld-self prev [] sub h = tt
AllHeld-self prev (u ∷ us) sub (inl e, h) =
    (inl e, AllHeld-self prev us (λ x p. sub x (ground arith)) h)
AllHeld-self prev (u ∷ us) sub (inr p, h) =
    (inr (sub u (ground arith), p), AllHeld-self prev us (λ x q. sub x (ground arith)) h)

-- A report without a rollover code types nothing when it comes again at once, whatever the two times:
-- the second leaves the key queue, caps lock and the repeated key as the first left them.
pub kbd_report_twice :
    (t1 t2 : ℕ) (r : List ℕ) (s : Typist)
    → NoRollover (usages r)
    → let s' = kbd_report t1 r s in
      let s'' = kbd_report t2 r s' in
      (s''.kq ≡ s'.kq) × (s''.usb_caps ≡ s'.usb_caps) × (s''.rep_key ≡ s'.rep_key)
unfolding settle
kbd_report_twice t1 t2 r s h = rw (kbd_report-held t2 r (kbd_report t1 r s) held) (refl, refl, refl)
  where
    same : usages (kbd_report t1 r s).prev ≡ usages r
    same = ap usages (kbd_report-done t1 r s h) ∙ usages-take r

    held : AllHeld (kbd_report t1 r s).prev (usages r)
    held = AllHeld-self (kbd_report t1 r s).prev (usages r) (λ u p. rw same p) h
