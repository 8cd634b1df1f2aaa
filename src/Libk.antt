-- ===== src/Libk.antt =====
-- src/kernel/kmain.c, "tiny libk", and `memcmp_k` of src/kernel/proc.c.
-- Memory is a function from addresses to bytes, and an address is a number. A `char *` that is only
-- read is the list of the bytes from it on, whose end reads as a NUL.
pub mod Move
pub mod Strings
mod Tests
use sacabambaspos.Base.{
  ℕ, zero, suc, ◌+◌, ◌-◌, Bool, not, ◌&&◌, ◌||◌, List, [], ◌∷◌, ltb, ◌==◌, if◌then◌else◌, u8, ℤ,
  sub_ℕ, pos,
}

abbrev pub Mem : Type 0
Mem = ℕ → ℕ

-- `*p = v`
abbrev pub store : Mem → ℕ → ℕ → Mem
store m p v q = if p == q then v else m q

-- `while(n--) *p++=(u8)c;`
unfoldable pub memset : ℕ → ℕ → ℕ → Mem → Mem
memset d c zero m = m
memset d c (suc n) m = memset (d + 1) c n (store m d (u8 c))

-- `while(n--) *a++=*b++;`
unfoldable pub memcpy : ℕ → ℕ → ℕ → Mem → Mem
memcpy d s zero m = m
memcpy d s (suc n) m = memcpy (d + 1) (s + 1) n (store m d (m s))

-- `while(n--) *--a=*--b;` with `a` and `b` at the ends of the blocks
unfoldable pub copy_down : ℕ → ℕ → ℕ → Mem → Mem
copy_down d s zero m = m
copy_down d s (suc n) m = copy_down d s n (store m (d + n) (m (s + n)))

unfoldable pub memmove : ℕ → ℕ → ℕ → Mem → Mem
memmove d s n m =
    if d == s || n == 0 then m else if ltb d s then memcpy d s n m else copy_down d s n m

unfoldable pub strlen : List ℕ → ℕ
strlen [] = 0
strlen (c ∷ s) = if c == 0 then 0 else suc (strlen s)

unfoldable pub strcmp : List ℕ → List ℕ → ℤ
strcmp [] [] = sub_ℕ 0 0
strcmp [] (y ∷ b) = sub_ℕ 0 y
strcmp (x ∷ a) [] = sub_ℕ x 0
strcmp (x ∷ a) (y ∷ b) = if not (x == 0) && x == y then strcmp a b else sub_ℕ x y

unfoldable pub strncmp : List ℕ → List ℕ → ℕ → ℤ
strncmp a b zero = pos 0
strncmp [] [] (suc n) = sub_ℕ 0 0
strncmp [] (y ∷ b) (suc n) = sub_ℕ 0 y
strncmp (x ∷ a) [] (suc n) = sub_ℕ x 0
strncmp (x ∷ a) (y ∷ b) (suc n) = if not (x == 0) && x == y then strncmp a b n else sub_ℕ x y

-- `for(; n--; x++, y++) if(*x != *y) return *x - *y;`
unfoldable pub memcmp_k : List ℕ → List ℕ → ℕ → ℤ
memcmp_k a b zero = pos 0
memcmp_k [] [] (suc n) = pos 0
memcmp_k [] (y ∷ b) (suc n) = if not (0 == y) then sub_ℕ 0 y else memcmp_k [] b n
memcmp_k (x ∷ a) [] (suc n) = if not (x == 0) then sub_ℕ x 0 else memcmp_k a [] n
memcmp_k (x ∷ a) (y ∷ b) (suc n) = if not (x == y) then sub_ℕ x y else memcmp_k a b n
