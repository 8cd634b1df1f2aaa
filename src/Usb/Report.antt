-- ===== src/Usb/Report.antt =====
-- `kq_push`, `usbkbd_pop`, `kbd_report` and the typematic part of `usbkbd_poll` of src/kernel/usb.c.
-- `ticks` is an argument: it does not change while a report is handled.
pub mod Held
pub mod Typematic
use sacabambaspos.Base.{
  ℕ, zero, suc, ◌+◌, ◌%◌, Bool, true, false, not, ◌&&◌, ◌||◌, Option, List, [], ◌∷◌, get_or, take,
  drop, leb, ◌==◌, if◌then◌else◌, bit_and, u64, u16,
}
use sacabambaspos.Ring
use sacabambaspos.Ring.{Ring}
use sacabambaspos.Usb.Keymap.{usage_to_key}

-- KQ
abbrev pub kq_size : ℕ
kq_size = 64

-- The statics of the key queue and the typematic, and `prev` of the one keyboard whose report it is.
pub record Typist : Type 0 where
  pub prev : List ℕ
  pub usb_caps : Bool
  pub rep_usage : ℕ
  pub rep_key : ℕ
  pub rep_next : ℕ
  pub kq : Ring

unfoldable pub kq_push : ℕ → Ring → Ring
kq_push c = Ring.push kq_size (u16 c)

unfoldable pub usbkbd_pop : Ring → Option ℕ × Ring
usbkbd_pop = Ring.pop kq_size

-- `for(int j = 2; j < 8; j++) if(r[j] == u) held = 1;` over those six bytes
unfoldable pub holds : ℕ → List ℕ → Bool
holds u [] = false
holds u (x ∷ xs) = x == u || holds u xs

abbrev pub usages : List ℕ → List ℕ
usages r = take 6 (drop 2 r)

-- One usage of the report that is no rollover code.
unfoldable pub press : ℕ → Bool → ℕ → Typist → Typist
unfolding kq_push
press ticks shift u s =
    let k = usage_to_key s.usb_caps u shift in
    if u == 0
    then s
    else if holds u (usages s.prev)
    then s
    else if u == 0x39
    then record s { usb_caps = not s.usb_caps }
    else if k == 0
    then s
    else record s { kq = kq_push k s.kq; rep_usage = u; rep_key = k; rep_next = u64 (ticks + 50) }

-- The first loop; `false` is its `return` at a rollover code.
unfoldable pub press_all : ℕ → Bool → List ℕ → Typist → Bool × Typist
press_all ticks shift [] s = (true, s)
press_all ticks shift (u ∷ us) s =
    let rest = press_all ticks shift us (press ticks shift u s) in
    if not (u == 0) && leb u 3 then (false, s) else rest

-- The repeat dies with its key, and the report becomes the last one.
unfoldable pub settle : List ℕ → Typist → Typist
settle r s = record s {
  rep_usage =
      if not (s.rep_usage == 0) && not (holds s.rep_usage (usages r)) then 0 else s.rep_usage;
  prev = take 8 r;
}

unfoldable pub kbd_report : ℕ → List ℕ → Typist → Typist
kbd_report ticks r s =
    let (done, s') = press_all ticks (not (bit_and (get_or r 0 0) 0x22 == 0)) (usages r) s in
    if done then settle r s' else s'

-- The end of `usbkbd_poll`: a held key repeats.
unfoldable pub repeat_key : ℕ → Typist → Typist
unfolding kq_push
repeat_key ticks s =
    if not (s.rep_usage == 0) && leb s.rep_next ticks
    then record s { kq = kq_push s.rep_key s.kq; rep_next = u64 (ticks + 3) }
    else s
