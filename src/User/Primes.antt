-- ===== src/User/Primes.antt =====
-- src/user/primes.c: the sieve. `comp` is the array, by index; the program has `top` = 100000.
pub mod Correct
use sacabambaspos.Base.{
  ℕ, zero, suc, ◌+◌, ◌-◌, ◌*◌, ◌/◌, ◌%◌, ◌≤◌, ◌<◌, ◌≡◌, ◌≢◌, refl, sym, ap, ◌∙◌, arith, Bool, true,
  false, not, ◌&&◌, ◌||◌, ltb, leb, ◌==◌, if◌then◌else◌, Bool-cases, inl, inr,
}

abbrev pub n_max : ℕ
n_max = 100000

abbrev pub Marks : Type 0
Marks = ℕ → Bool

unfoldable pub set_mark : ℕ → Marks → Marks
set_mark j comp x = if x == j then true else comp x

-- `for(int j = i + i; j <= N; j += i) comp[j] = 1;` from `j` on, `fuel` rounds at most.
unfoldable pub mark_from : ℕ → ℕ → ℕ → ℕ → Marks → Marks
mark_from zero top i j comp = comp
mark_from (suc fuel) top i j comp =
    let rest = mark_from fuel top i (j + i) (set_mark j comp) in if ltb top j then comp else rest

pub record Sieve : Type 0 where
  pub comp : Marks
  pub count : ℕ
  pub last : ℕ

-- One round of the loop over `i`.
unfoldable pub sieve_step : ℕ → ℕ → Sieve → Sieve
unfolding mark_from
sieve_step top i s =
    if s.comp i
    then s
    else record { comp = mark_from top top i (i + i) s.comp; count = s.count + 1; last = i }

-- The rounds for `n` values from `i` on.
unfoldable pub sieve_from : ℕ → ℕ → ℕ → Sieve → Sieve
sieve_from zero top i s = s
sieve_from (suc n) top i s = sieve_from n top (i + 1) (sieve_step top i s)

unfoldable pub sieve : ℕ → Sieve
unfolding sieve_from
sieve top = sieve_from (top - 1) top 2 (record { comp = λ x. false; count = 0; last = 0 })
