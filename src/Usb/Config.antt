-- ===== src/Usb/Config.antt =====
-- src/kernel/usb.c: `find_kbd_if`, the search of a configuration descriptor for a keyboard. The buffer is a
-- function of the index, and the `cur` of the walk is `none` for -1.
use sacabambaspos.Base.{
  ℕ, zero, suc, ◌+◌, ◌-◌, ◌*◌, ◌/◌, ◌%◌, ◌^◌, ◌≤◌, ◌<◌, ◌≡◌, ◌≢◌, refl, ap, ◌∙◌, arith, Bool, true,
  false, not, ◌&&◌, ◌||◌, List, [], ◌∷◌, ltb, leb, ◌==◌, if◌then◌else◌, Bool-cases, inl, inr,
  Option, none, some, test_bit, bit_or, bit_and,
}
pub mod Refine

pub record KbdIf : Type 0 where
  pub iface : ℕ
  pub ep : ℕ
  pub interval : ℕ
  pub mps : ℕ

-- A HID keyboard interface in its first setting.
unfoldable pub keyboard_at : (ℕ → ℕ) → ℕ → Option ℕ
keyboard_at b i =
    if b (i + 5) == 3 && b (i + 7) == 1 && b (i + 3) == 0 then some (b (i + 2)) else none

unfoldable pub interrupt_in : ℕ → ℕ → Bool
interrupt_in address attributes = test_bit address 7 && attributes % 4 == 3

unfoldable pub endpoint_at : (ℕ → ℕ) → ℕ → ℕ → KbdIf
endpoint_at b i cur = record {
  iface = cur;
  ep = b (i + 2) % 16;
  interval = b (i + 6);
  mps = b (i + 4) + 256 * b (i + 5);
}

-- A round of the loop: it ends the walk, finds the endpoint, or goes on with `cur`.
pub data Round : Type 0 where
  stop : Round
  hit : KbdIf → Round
  next : Option ℕ → Round

unfoldable pub endpoint_round : (ℕ → ℕ) → ℕ → Option ℕ → Round
unfolding interrupt_in endpoint_at
endpoint_round b i none = next none
endpoint_round b i (some c) =
    if interrupt_in (b (i + 2)) (b (i + 3)) then hit (endpoint_at b i c) else next (some c)

unfoldable pub round_at : (ℕ → ℕ) → ℕ → ℕ → Option ℕ → Round
unfolding keyboard_at endpoint_round
round_at b tot i cur =
    if not (ltb (i + 1) tot) || ltb (b i) 2 || ltb tot (i + b i)
    then stop
    else if b (i + 1) == 4
    then next (keyboard_at b i)
    else if b (i + 1) == 5
    then endpoint_round b i cur
    else next cur

-- The loop of `find_kbd_if` from index `i` on fuel.
unfoldable pub kbd_if_from : ℕ → (ℕ → ℕ) → ℕ → ℕ → Option ℕ → Option KbdIf
unfolding round_at
kbd_if_from zero b tot i cur = none
kbd_if_from (suc n) b tot i cur = elim (round_at b tot i cur) [
  | stop ↦ none
  | hit k ↦ some k
  | next c ↦ kbd_if_from n b tot (i + b i) c
]

-- A round goes on by two bytes or more.
unfoldable pub find_kbd_if : (ℕ → ℕ) → ℕ → Option KbdIf
unfolding kbd_if_from
find_kbd_if b tot = kbd_if_from tot b tot 0 none
