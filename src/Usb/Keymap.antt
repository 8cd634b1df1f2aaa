-- ===== src/Usb/Keymap.antt =====
-- `usage_to_key` of src/kernel/usb.c. `shift ^ usb_caps` is an exclusive or of two flags.
use mathlib.Core.Bool.{xor}
use sacabambaspos.Base.{ℕ, ◌+◌, ◌-◌, Bool, ◌&&◌, List, [], ◌∷◌, get_or, leb, if◌then◌else◌}
use sacabambaspos.Keys.{key_up, key_down, key_left, key_right, key_del, key_home, key_end}

-- The codes of "!@#$%^&*()" and of "1234567890".
abbrev shifted_digits : List ℕ
shifted_digits = 33 ∷ 64 ∷ 35 ∷ 36 ∷ 37 ∷ 94 ∷ 38 ∷ 42 ∷ 40 ∷ 41 ∷ []

abbrev digits : List ℕ
digits = 49 ∷ 50 ∷ 51 ∷ 52 ∷ 53 ∷ 54 ∷ 55 ∷ 56 ∷ 57 ∷ 48 ∷ []

-- Usages 0x28 to 0x38, without and with shift. The characters are in ASCII.
abbrev plain_row : List ℕ
plain_row = 10 ∷ 27 ∷ 8 ∷ 9 ∷ 32 ∷ 45 ∷ 61 ∷ 91 ∷ 93 ∷ 92 ∷ 35 ∷ 59 ∷ 39 ∷ 96 ∷ 44 ∷ 46 ∷ 47 ∷ []

abbrev shifted_row : List ℕ
shifted_row =
    10 ∷ 27 ∷ 8 ∷ 9 ∷ 32 ∷ 95 ∷ 43 ∷ 123 ∷ 125 ∷ 124 ∷ 126 ∷ 58 ∷ 34 ∷ 126 ∷ 60 ∷ 62 ∷ 63 ∷ []

-- Usages 0x4A to 0x52, those of `switch` with no `case` as 0.
abbrev navigation : List ℕ
navigation = key_home ∷ 0 ∷ key_del ∷ key_end ∷ 0 ∷ key_right ∷ key_left ∷ key_down ∷ key_up ∷ []

-- Usages 0x54 to 0x63: the keypad.
abbrev keypad : List ℕ
keypad = 47 ∷ 42 ∷ 45 ∷ 43 ∷ 10 ∷ 49 ∷ 50 ∷ 51 ∷ 52 ∷ 53 ∷ 54 ∷ 55 ∷ 56 ∷ 57 ∷ 48 ∷ 46 ∷ []

unfoldable pub usage_to_key : Bool → ℕ → Bool → ℕ
usage_to_key usb_caps u shift =
    if leb 0x04 u && leb u 0x1D
    then (if xor shift usb_caps then b'A' + (u - 0x04) else b'a' + (u - 0x04))
    else if leb 0x1E u && leb u 0x27
    then (if shift then get_or shifted_digits (u - 0x1E) 0 else get_or digits (u - 0x1E) 0)
    else if leb 0x28 u && leb u 0x38
    then (if shift then get_or shifted_row (u - 0x28) 0 else get_or plain_row (u - 0x28) 0)
    else if leb 0x4A u && leb u 0x52
    then get_or navigation (u - 0x4A) 0
    else if leb 0x54 u && leb u 0x63
    then get_or keypad (u - 0x54) 0
    else 0
