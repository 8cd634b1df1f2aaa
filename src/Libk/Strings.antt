-- ===== src/Libk/Strings.antt =====
-- C strings are compared as the lists of their characters.
use sacabambaspos.Base.{
  ℕ, zero, suc, ◌≡◌, ◌↔◌, refl, arith, List, [], ◌∷◌, length, take, ◌==◌, if◌then◌else◌, pos,
}
use sacabambaspos.Libk.{strlen, strcmp, strncmp}

-- The characters before the terminator.
abbrev pub chars : List ℕ → List ℕ
chars [] = []
chars (c ∷ s) = if c == 0 then [] else c ∷ chars s

pub strlen-chars : (s : List ℕ) → strlen s ≡ length (chars s)
unfolding strlen
strlen-chars [] = refl
strlen-chars (c ∷ s) = ground (arith, strlen-chars s)

-- `strcmp` returns 0 exactly when the two strings have the same characters before the terminating 0.
pub strcmp_iff : (a b : List ℕ) → (strcmp a b ≡ pos 0) ↔ (chars a ≡ chars b)
unfolding strcmp
strcmp_iff [] [] = ground arith
strcmp_iff [] (y ∷ b) = ground arith
strcmp_iff (x ∷ a) [] = ground arith
strcmp_iff (x ∷ a) (y ∷ b) = ground (arith, strcmp_iff a b)

-- `strncmp` returns 0 exactly when the first `n` characters before the terminating 0 are the same.
pub strncmp_iff :
    (a b : List ℕ) (n : ℕ) → (strncmp a b n ≡ pos 0) ↔ (take n (chars a) ≡ take n (chars b))
unfolding strncmp
strncmp_iff a b zero = ground arith
strncmp_iff [] [] (suc n) = ground arith
strncmp_iff [] (y ∷ b) (suc n) = ground arith
strncmp_iff (x ∷ a) [] (suc n) = ground arith
strncmp_iff (x ∷ a) (y ∷ b) (suc n) = ground (arith, strncmp_iff a b n)
