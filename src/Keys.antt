-- ===== src/Keys.antt =====
-- Key codes: the SBOS_KEY_* of src/shared/sbos_abi.h, which src/kernel/kernel.h renames KEY_*.
use sacabambaspos.Base.{ℕ}

abbrev pub key_up : ℕ
key_up = 0x100

abbrev pub key_down : ℕ
key_down = 0x101

abbrev pub key_left : ℕ
key_left = 0x102

abbrev pub key_right : ℕ
key_right = 0x103

abbrev pub key_del : ℕ
key_del = 0x104

abbrev pub key_home : ℕ
key_home = 0x105

abbrev pub key_end : ℕ
key_end = 0x106
