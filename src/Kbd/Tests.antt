-- ===== src/Kbd/Tests.antt =====
-- The keyboard at concrete scancodes.
use sacabambaspos.Base.{
  ℕ, ◌≡◌, ◌≢◌, refl, arith, true, false, List, [], ◌∷◌, ◌++◌, none, some, take, replicate,
}
use sacabambaspos.Ring.{Ring, contents}
use sacabambaspos.Ring.Refine.{IsValid}
use sacabambaspos.Kbd.{Controller, Decoder, poll_rounds}
use sacabambaspos.Kbd.Poll.{pending_prefix, keyboard_bytes, contents-poll_rounds}
use sacabambaspos.Kbd.Getc.{kbd_getc, kbd_getc-ne-none}
use sacabambaspos.Kbd.Modifiers.{decode_all, codes, held, toggled, shift-decode_all}
use sacabambaspos.Kbd.Scancodes.{map_lo}
use sacabambaspos.Kbd.Letters.{letter, is_letter}

abbrev no_keys : Ring
no_keys = record { slots = replicate 256 0; rd = 0; wr = 0 }

no_keys-IsValid : IsValid 256 no_keys
no_keys-IsValid = record {
  storage = refl;
  rd_in = omega arith;
  wr_in = omega arith;
  small = omega arith;
}

-- A key, a byte of the mouse, and a key; then nothing.
abbrev two_keys : Controller
two_keys = (1, 0x1E) ∷ (0x21, 7) ∷ (1, 0x9E) ∷ []

abbrev idle : Decoder
idle = record { shift_l = false; shift_r = false; caps = false; ext = false }

contents-poll_rounds_example :
    contents 256 (poll_rounds 512 two_keys no_keys).0
    ≡ take 255 (contents 256 no_keys ++ keyboard_bytes (pending_prefix (take 512 two_keys)))
contents-poll_rounds_example = contents-poll_rounds 512 two_keys no_keys-IsValid

-- Right shift down, an extended code, right shift up, caps lock.
abbrev stream : List ℕ
stream = 0x36 ∷ 0xE0 ∷ 0x2A ∷ 0xB6 ∷ 0x3A ∷ []

shift-decode_all_example :
    ((decode_all stream idle).shift_l ≡ held 0x2A (codes false stream) false)
    × ((decode_all stream idle).shift_r ≡ held 0x36 (codes false stream) false)
    × ((decode_all stream idle).caps ≡ toggled (codes false stream) false)
shift-decode_all_example =
    shift-decode_all stream idle
      (omega arith, (omega arith, (omega arith, (omega arith, (omega arith, tt)))))

abbrev shifted : Decoder
shifted = record { shift_l = true; shift_r = false; caps = false; ext = false }

a_is_letter : is_letter 0x1E ≡ true
unfolding is_letter letter map_lo
a_is_letter = refl

-- Two tries without a key, and then one from the USB keyboard.
kbd_getc-ne-none_example :
    kbd_getc
      (((none, two_keys) ∷ (none, []) ∷ []) ++ ((some b'q', []) ∷ []))
      []
      (record { ring = no_keys; decoder = idle })
    ≢ none
kbd_getc-ne-none_example =
    kbd_getc-ne-none ((none, two_keys) ∷ (none, []) ∷ []) b'q' [] [] []
      (record { ring = no_keys; decoder = idle }) no_keys-IsValid
