-- ===== src/Libk/Tests.antt =====
-- The block and string functions at concrete inputs.

use sacabambaspos.Base.{◌≡◌, refl, [], ◌∷◌, negsuc}
use sacabambaspos.Libk.{Mem, memmove, copy_down, strcmp}
use sacabambaspos.Libk.Move.{moved, memmove_lem}

-- Each address holds its own number.
abbrev counting : Mem
counting x = x

-- An overlapping move up by two.
overlap : memmove 12 10 4 counting 14 ≡ 12
unfolding memmove copy_down
overlap = refl

memmove_lem_example : memmove 12 10 4 counting 14 ≡ moved 12 10 4 counting 14
memmove_lem_example = memmove_lem 12 10 4 counting 14

shorter_first : strcmp (b'a' ∷ []) (b'a' ∷ b'b' ∷ []) ≡ negsuc 97
unfolding strcmp
shorter_first = refl
