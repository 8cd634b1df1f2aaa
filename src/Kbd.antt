-- ===== src/Kbd.antt =====
-- src/kernel/kbd.c: scancodes go from the 8042 into a ring and through the set-1 state machine.
-- The 8042 is a parameter: the list of what the status port and the data port answer, one pair for
-- each time that a loop asks; past its end nothing is pending.
pub mod Scancodes
pub mod Poll
pub mod Drain
pub mod Modifiers
pub mod Letters
pub mod Getc
pub mod Init
mod Tests
use sacabambaspos.Base.{
  ℕ, zero, suc, ◌%◌, Bool, true, false, not, ◌&&◌, ◌||◌, Option, none, some, List, [], ◌∷◌, get_or,
  ltb, leb, ◌==◌, if◌then◌else◌, test_bit, ◌+◌, ◌-◌,
}
use sacabambaspos.Keys.{key_up, key_down, key_left, key_right, key_del, key_home, key_end}
use sacabambaspos.Ring.{Ring, push, pop}
use Scancodes.{map_lo, map_hi}

-- BUFSZ
abbrev pub bufsz : ℕ
bufsz = 256

-- A status byte and the data byte behind it.
abbrev pub Controller : Type 0
Controller = List (ℕ × ℕ)

-- At most `n` rounds of the loop of `kbd_poll`; the source starts with 16.
unfoldable pub poll_rounds : ℕ → Controller → Ring → Ring × Controller
poll_rounds zero k r = (r, k)
poll_rounds (suc n) [] r = (r, [])
poll_rounds (suc n) ((st, sc) ∷ k) r =
    let aux = poll_rounds n k r in
    let kept = poll_rounds n k (push bufsz sc r) in
    if st == 0xFF || not (test_bit st 0) then (r, k) else if test_bit st 5 then aux else kept

unfoldable pub kbd_poll : Controller → Ring → Ring × Controller
unfolding poll_rounds
kbd_poll = poll_rounds 16

pub record Decoder : Type 0 where
  pub shift_l : Bool
  pub shift_r : Bool
  pub caps : Bool
  pub ext : Bool

-- The switch on the code behind 0xE0.
unfoldable pub extended_key : ℕ → Option ℕ
extended_key sc =
    if sc == 0x48
    then some key_up
    else if sc == 0x50
    then some key_down
    else if sc == 0x4B
    then some key_left
    else if sc == 0x4D
    then some key_right
    else if sc == 0x53
    then some key_del
    else if sc == 0x47
    then some key_home
    else if sc == 0x4F
    then some key_end
    else if sc == 0x1C
    then some b'\n'
    else none

-- The character of a make code under shift and caps lock; 0 is no character.
unfoldable pub char_for : Bool → Bool → ℕ → Option ℕ
char_for shift caps sc =
    let c = if shift then get_or map_hi sc 0 else get_or map_lo sc 0 in
    if c == 0
    then none
    else if caps && leb b'a' c && leb c b'z' && not shift
    then some (c - 32)
    else if caps && leb b'A' c && leb c b'Z' && shift
    then some (c + 32)
    else some c

-- `none` is the -1 of "nothing to emit".
unfoldable pub decode : ℕ → Decoder → Option ℕ × Decoder
decode sc d =
    if sc == 0xE0
    then (none, record d { ext = true })
    else if d.ext
    then (if test_bit sc 7 then none else extended_key sc, record d { ext = false })
    else if test_bit sc 7
    then (
      none,
      record d {
        shift_l = if sc % 128 == 0x2A then false else d.shift_l;
        shift_r = if sc % 128 == 0x36 then false else d.shift_r;
      },
    )
    else if sc == 0x2A
    then (none, record d { shift_l = true })
    else if sc == 0x36
    then (none, record d { shift_r = true })
    else if sc == 0x3A
    then (none, record d { caps = not d.caps })
    else if leb 128 sc
    then (none, d)
    else (char_for (d.shift_l || d.shift_r) d.caps sc, d)

-- The statics of the file.
pub record Kbd : Type 0 where
  pub ring : Ring
  pub decoder : Decoder

-- At most `n` rounds of the loop of `kbd_trygetc`, behind the USB queue. `some none` is the -1 of an
-- empty ring; `none` means that the rounds ran out.
unfoldable pub drain : ℕ → Controller → Kbd → Option (Option ℕ × Kbd × Controller)
drain zero k s = none
drain (suc n) k s =
    let (r, k') = kbd_poll k s.ring in
    let (sc, r') = pop bufsz r in
    elim sc [
      | none ↦ some (none, record s { ring = r' }, k')
      | some code ↦
          let (key, d) = decode code s.decoder in
          let s' : Kbd = record { ring = r'; decoder = d } in
          elim key [ none ↦ drain n k' s' | some c ↦ some (some c, s', k') ]
    ]

-- What `usbkbd_pop` gave comes first.
unfoldable pub kbd_trygetc : Option ℕ → ℕ → Controller → Kbd → Option (Option ℕ × Kbd × Controller)
unfolding drain
kbd_trygetc (some c) n k s = some (some c, s, k)
kbd_trygetc none n k s = drain n k s
