-- ===== src/Usb/Report/Typematic.antt =====
-- Rollover codes, and the end of the software repeat.
use sacabambaspos.Base.{ℕ, ◌≤◌, ◌<◌, ◌≡◌, arith, List, [], ◌∷◌}
use sacabambaspos.Usb.Report.{Typist, holds, press, press_all, settle, kbd_report, repeat_key}

-- A report that begins with a rollover code (1 to 3 in its first usage) changes nothing.
pub kbd_report_rollover :
    (ticks a b u : ℕ) (us : List ℕ) (s : Typist)
    → 0 < u
    → u ≤ 3
    → kbd_report ticks (a ∷ b ∷ u ∷ us) s ≡ s
unfolding kbd_report press_all
kbd_report_rollover ticks a b u us s low high = ground arith

-- A report of eight bytes without any key queues nothing, and after it no key repeats at any time.
pub repeat_key-released :
    (ticks later a b : ℕ) (s : Typist)
    → let s' = kbd_report ticks (a ∷ b ∷ 0 ∷ 0 ∷ 0 ∷ 0 ∷ 0 ∷ 0 ∷ []) s in
      (repeat_key later s' ≡ s') × (s'.kq ≡ s.kq)
unfolding kbd_report press_all press settle holds repeat_key
repeat_key-released ticks later a b s = ground arith
