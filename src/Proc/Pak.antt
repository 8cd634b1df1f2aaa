-- ===== src/Proc/Pak.antt =====
-- src/kernel/proc.c: the archive of programs, BIN.PAK, in memory. A name takes 24 bytes, of which the
-- last is 0 as tools/mkpak.py writes them.
use sacabambaspos.Base.{
  ℕ, zero, suc, ◌+◌, ◌*◌, ◌<◌, ◌≡◌, ◌≢◌, refl, ap, arith, Bool, true, false, not, ◌&&◌, ◌||◌,
  Option, none, some, List, [], ◌∷◌, length, get_or, ltb, leb, ◌==◌, if◌then◌else◌, Bool-cases, inl,
  inr, ◌∙◌, sub_ℕ,
}
use sacabambaspos.Libk.{Mem, strcmp, strncmp, memcmp_k}
use sacabambaspos.Proc.{is_zero, u32_at, bytes_at}

-- `pak`, whose header is at `base`, and `pak_size`.
pub record Pak : Type 0 where
  pub base : ℕ
  pub count : ℕ
  pub size : ℕ

abbrev magic : List ℕ
magic = b'S' ∷ b'B' ∷ b'O' ∷ b'S' ∷ b'P' ∷ b'A' ∷ b'K' ∷ b'1' ∷ []

unfoldable pub pak_init : ℕ → ℕ → Mem → Option Pak
pak_init base size m =
    if base == 0 || ltb size 16
    then none
    else if not (is_zero (memcmp_k (bytes_at 8 m base) magic 8))
    then none
    else if ltb 256 (u32_at m (base + 8)) || ltb size (16 + u32_at m (base + 8) * 40)
    then none
    else some (record { base = base; count = u32_at m (base + 8); size = size })

unfoldable pub proc_count : Option Pak → ℕ
proc_count none = 0
proc_count (some p) = p.count

-- The address of entry `i`.
abbrev pub pak_ent : Pak → ℕ → ℕ
pak_ent p i = p.base + 16 + i * 40

unfoldable pub ent_name : Mem → ℕ → List ℕ
ent_name m e = bytes_at 24 m e

unfoldable pub proc_name : Option Pak → ℕ → Mem → Option (List ℕ)
proc_name none i m = none
proc_name (some p) i m = if leb p.count i then none else some (ent_name m (pak_ent p i))

-- The loop over `n` entries from number `i` on: the address of the first with the name.
unfoldable pub find_from : ℕ → ℕ → Pak → List ℕ → Mem → Option ℕ
find_from zero i p name m = none
find_from (suc n) i p name m =
    let rest = find_from n (i + 1) p name m in
    if is_zero (strcmp (ent_name m (pak_ent p i)) name) then some (pak_ent p i) else rest

unfoldable pub pak_find : Option Pak → List ℕ → Mem → Option ℕ
pak_find none name m = none
pak_find (some p) name m = find_from p.count 0 p name m

unfoldable pub has_from : ℕ → ℕ → Pak → List ℕ → ℕ → Mem → Bool
has_from zero i p name n m = false
has_from (suc k) i p name n m =
    let rest = has_from k (i + 1) p name n m in
    let e = ent_name m (pak_ent p i) in
    if is_zero (strncmp e name n) && get_or e n 0 == 0 then true else rest

-- The name ends after `n` characters, whatever follows.
unfoldable pub proc_has : Option Pak → List ℕ → ℕ → Mem → Bool
proc_has none name n m = false
proc_has (some p) name n m = if n == 0 || leb 24 n then false else has_from p.count 0 p name n m

-- No character is the terminating 0.
abbrev pub NoNul : List ℕ → Type 0
NoNul [] = Unit
NoNul (c ∷ w) = (c ≢ 0) × NoNul w

is_zero-sub_ℕ : (x y : ℕ) → is_zero (sub_ℕ x y) ≡ (x == y)
unfolding is_zero
is_zero-sub_ℕ x y = ground arith

-- The two ways to compare a word with the name of an entry agree.
same_name :
    (e w : List ℕ)
    → NoNul w
    → length w < length e
    → (is_zero (strncmp e w (length w)) && get_or e (length w) 0 == 0) ≡ is_zero (strcmp e w)
unfolding strncmp strcmp is_zero
same_name [] w h low = absurd (omega arith)
same_name (x ∷ e) [] h low = ground arith
same_name (x ∷ e) (y ∷ w) h low = elim (Bool-cases (not (x == 0) && x == y)) [
  | inl next ↦ rw next (same_name e w h.1 (omega arith))
  | inr differ ↦ rw (differ, unequal differ) refl
]
  where
    unequal : not (x == 0) && x == y ≡ false → is_zero (sub_ℕ x y) ≡ false
    unequal d = is_zero-sub_ℕ x y ∙ ground arith

length-bytes_at : (n : ℕ) (m : Mem) (a : ℕ) → length (bytes_at n m a) ≡ n
unfolding bytes_at
length-bytes_at zero m a = refl
length-bytes_at (suc n) m a = ap (λ (t : ℕ). suc t) (length-bytes_at n m (a + 1))

abbrev pub is_some : Option ℕ → Bool
is_some none = false
is_some (some e) = true

has_from-find_from :
    (k i : ℕ) (p : Pak) (w : List ℕ) (m : Mem)
    → NoNul w
    → length w < 24
    → has_from k i p w (length w) m ≡ is_some (find_from k i p w m)
unfolding has_from find_from ent_name
has_from-find_from zero i p w m h low = refl
has_from-find_from (suc k) i p w m h low =
    rw
      (same_name (bytes_at 24 m (pak_ent p i)) w h
        (omega (arith, length-bytes_at 24 m (pak_ent p i))))
      (elim (Bool-cases (is_zero (strcmp (bytes_at 24 m (pak_ent p i)) w))) [
        | inl found ↦ rw (found, find_from) refl
        | inr other ↦ rw (other, find_from) (has_from-find_from k (i + 1) p w m h low)
      ])

-- For a word of 1 to 23 characters without a 0, the shell's question whether there is a program of that
-- name has the answer yes exactly when `proc_exec` finds one.
pub proc_has-pak_find :
    (p : Option Pak) (w : List ℕ) (m : Mem)
    → NoNul w
    → 0 < length w
    → length w < 24
    → proc_has p w (length w) m ≡ is_some (pak_find p w m)
unfolding proc_has pak_find
proc_has-pak_find none w m h some_char low = refl
proc_has-pak_find (some p) w m h some_char low =
    rw (short) (has_from-find_from p.count 0 p w m h low)
  where
    short : length w == 0 || leb 24 (length w) ≡ false
    short = ground arith
