-- ===== src/User/Primes/Correct.antt =====
-- The sieve leaves the primes.
use native.Mathlib.Nat.{
  mod-add-div', mul-le-mul_right, mul-mod_right, mul_comm, dvd_trans, dvd_of_mod-eq-zero,
  mod-eq-zero_of_dvd,
}
use sacabambaspos.Base.{
  ℕ, zero, suc, ◌+◌, ◌-◌, ◌*◌, ◌/◌, ◌%◌, ◌≤◌, ◌<◌, ◌≡◌, ◌≢◌, refl, sym, ap, ◌∙◌, arith, Bool, true,
  false, ◌&&◌, ◌||◌, ltb, leb, ◌==◌, Bool-cases, inl, inr,
}
use sacabambaspos.User.Primes.{Marks, set_mark, mark_from, Sieve, sieve_step, sieve_from, sieve}

-- Has `x` a divisor from 2 on, below `i` and below itself?
unfoldable pub divided : ℕ → ℕ → Bool
divided zero x = false
divided (suc p) x = divided p x || (leb 2 p && ltb p x && x % p == 0)

-- Between two multiples in a row there is none.
gap : (i k x : ℕ) → x % i ≡ 0 → i * k ≤ x → x ≢ i * k → i * k + i ≤ x
gap i k x h low other = elim (Bool-cases (leb (x / i) k)) [
  | inl few ↦
      let below : x / i * i ≤ k * i = mul-le-mul_right i (ground (arith, few)) in
      absurd (other (omega (arith, below, mod-add-div' x i, mul_comm i k)))
  | inr more ↦
      let above : (k + 1) * i ≤ x / i * i = mul-le-mul_right i (ground (arith, more)) in
      omega (arith, above, mod-add-div' x i, spread)
]
  where
    spread : (k + 1) * i ≡ i * k + i
    spread = grind arith

-- What `mark_from` leaves: the multiples of `i` from `i * k` up to `top` are marked.
mark_from_lem :
    (fuel top i k : ℕ) (comp : Marks) (x : ℕ)
    → 0 < i
    → top < i * k + fuel
    → mark_from fuel top i (i * k) comp x ≡ (comp x || (leb (i * k) x && leb x top && x % i == 0))
unfolding mark_from set_mark
mark_from_lem zero top i k comp x pos enough = ground arith
mark_from_lem (suc fuel) top i k comp x pos enough = elim (Bool-cases (ltb top (i * k))) [
  | inl beyond ↦ rw beyond (outside (i * k) (comp x) (x % i == 0) beyond)
  | inr within ↦ rw within (
      ap (λ j. mark_from fuel top i j (set_mark (i * k) comp) x) next
      ∙ mark_from_lem fuel top i (k + 1) (set_mark (i * k) comp) x pos (omega (arith, next))
      ∙ ap (λ j. set_mark (i * k) comp x || (leb j x && leb x top && x % i == 0)) (sym next)
      ∙ joined (x == i * k) refl within)
]
  where
    next : i * k + i ≡ i * (k + 1)
    next = grind arith

    outside : (j : ℕ) (b c : Bool) → ltb top j ≡ true → b ≡ (b || (leb j x && leb x top && c))
    outside j true c h = refl
    outside j false c h = ground arith

    joined :
        (b : Bool)
        → x == i * k ≡ b
        → ltb top (i * k) ≡ false
        → (set_mark (i * k) comp x || (leb (i * k + i) x && leb x top && x % i == 0))
          ≡ (comp x || (leb (i * k) x && leb x top && x % i == 0))
    joined true e h =
        let here : x ≡ i * k = ground (arith, e) in
        let multiple : x % i ≡ 0 = ap (λ t. t % i) here ∙ mul-mod_right i k in
        ground (arith, here, multiple)
    joined false e h = rw e (ap (λ t. comp x || t) (later (x % i == 0) refl e))
      where
        later :
            (c : Bool)
            → x % i == 0 ≡ c
            → x == i * k ≡ false
            → (leb (i * k + i) x && leb x top && c) ≡ (leb (i * k) x && leb x top && c)
        later false m h = ground arith
        later true m h = ground (arith, gap i k x)

-- A divisor, from the test.
divided-divisor :
    (i x : ℕ) → divided i x ≡ true → (q : ℕ) × (2 ≤ q) × (q < i) × (q < x) × (x % q ≡ 0)
unfolding divided
divided-divisor zero x h = cc
divided-divisor (suc p) x h = elim (Bool-cases (divided p x)) [
  | inl before ↦ let (q, a, b, c, d) = divided-divisor p x before in (q, a, omega arith, c, d)
  | inr not_before ↦ (
    p,
    ground (arith, not_before),
    omega arith,
    ground (arith, not_before),
    ground (arith, not_before),
  )
]

divisor-divided : (i q x : ℕ) → 2 ≤ q → q < i → q < x → x % q ≡ 0 → divided i x ≡ true
unfolding divided
divisor-divided zero q x a b c d = absurd (omega arith)
divisor-divided (suc p) q x a b c d = elim (Bool-cases (q == p)) [
  | inl here ↦ let same : q ≡ p = ground (arith, here) in ground arith
  | inr other ↦ ground (arith, divisor-divided p q x a (ground (arith, other)) c d)
]

mod-zero_trans : (a b c : ℕ) → b % a ≡ 0 → c % b ≡ 0 → c % a ≡ 0
mod-zero_trans a b c p q =
    mod-eq-zero_of_dvd a (dvd_trans a (dvd_of_mod-eq-zero a p) (dvd_of_mod-eq-zero b q))

-- A number that has a divisor adds none to its multiples.
divided-multiple : (i x : ℕ) → divided i i ≡ true → i < x → x % i ≡ 0 → divided i x ≡ true
divided-multiple i x h low m =
    let (q, a, b, c, d) = divided-divisor i i h in
    divisor-divided i q x a b (omega arith) (mod-zero_trans q i x d m)

-- The marks up to `top` before round `i`.
abbrev Marked : ℕ → ℕ → Marks → Type 0
Marked top i comp = (x : ℕ) → x ≤ top → comp x ≡ divided i x

divided_suc : (i x : ℕ) → divided (i + 1) x ≡ (divided i x || (leb 2 i && ltb i x && x % i == 0))
unfolding divided
divided_suc i x = ap (λ t. divided t x) one_more
  where
    one_more : i + 1 ≡ suc i
    one_more = omega arith

sieve_step-Marked :
    (top i : ℕ) (s : Sieve)
    → 2 ≤ i
    → i ≤ top
    → Marked top i s.comp
    → Marked top (i + 1) (sieve_step top i s).comp
unfolding sieve_step
sieve_step-Marked top i s two low h x le = elim (Bool-cases (s.comp i)) [
  | inl composite ↦ rw composite (h x le ∙ skipped composite ∙ sym (divided_suc i x))
  | inr prime ↦ rw prime (
      ap (λ j. mark_from top top i j s.comp x) (omega arith)
      ∙ mark_from_lem top top i 2 s.comp x (omega arith) (omega arith)
      ∙ marked
      ∙ sym (divided_suc i x))
]
  where
    skipped : s.comp i ≡ true → divided i x ≡ (divided i x || (leb 2 i && ltb i x && x % i == 0))
    skipped e = absorbed (divided i x) (leb 2 i && ltb i x && x % i == 0) (λ all.
        let (above, multiple) = parts (x % i) all in
        divided-multiple i x (sym (h i low) ∙ e) above multiple)
      where
        absorbed : (d c : Bool) → (c ≡ true → d ≡ true) → d ≡ (d || c)
        absorbed true c k = refl
        absorbed false true k = k refl
        absorbed false false k = refl

        parts : (m : ℕ) → (leb 2 i && ltb i x && m == 0) ≡ true → (i < x) × (m ≡ 0)
        parts m all = ground arith

    same :
        (c : Bool) → x % i == 0 ≡ c → (leb (i * 2) x && leb x top && c) ≡ (leb 2 i && ltb i x && c)
    same false e = ground arith
    same true e = ground (arith, gap i 1 x)

    marked :
        (s.comp x || (leb (i * 2) x && leb x top && x % i == 0))
        ≡ (divided i x || (leb 2 i && ltb i x && x % i == 0))
    marked =
        ap (λ t. t || (leb (i * 2) x && leb x top && x % i == 0)) (h x le)
        ∙ ap (λ t. divided i x || t) (same (x % i == 0) refl)

sieve_from-Marked :
    (n top i : ℕ) (s : Sieve)
    → 2 ≤ i
    → i + n ≤ top + 1
    → Marked top i s.comp
    → Marked top (i + n) (sieve_from n top i s).comp
unfolding sieve_from
sieve_from-Marked zero top i s two room h x le = h x le ∙ ap (λ t. divided t x) (omega arith)
sieve_from-Marked (suc n) top i s two room h x le =
    sieve_from-Marked n top (i + 1) (sieve_step top i s) (omega arith) (omega arith)
      (sieve_step-Marked top i s two (omega arith) h) x le
    ∙ ap (λ t. divided t x) (omega arith)

none_below_two : (i x : ℕ) → i ≤ 2 → divided i x ≡ false
unfolding divided
none_below_two zero x h = refl
none_below_two (suc i) x h = ground (arith, none_below_two i x (omega arith))

-- A number without a divisor from 2 on below itself.
abbrev pub IsPrime : ℕ → Type 0
IsPrime x = (2 ≤ x) × ((q : ℕ) → 2 ≤ q → q < x → x % q ≢ 0)

-- After the sieve the numbers from 2 to `top` that are not marked are the primes among them.
pub sieve-IsPrime :
    (top x : ℕ)
    → 2 ≤ x
    → x ≤ top
    → ((sieve top).comp x ≡ false → IsPrime x) × (IsPrime x → (sieve top).comp x ≡ false)
unfolding sieve
sieve-IsPrime top x two le = (only_if, if_prime (divided (top + 1) x) refl)
  where
    result : (sieve top).comp x ≡ divided (top + 1) x
    result =
        sieve_from-Marked (top - 1) top 2 (record { comp = λ y. false; count = 0; last = 0 })
          (omega arith) (omega arith) (λ y k. sym (none_below_two 2 y (omega arith))) x le
        ∙ ap (λ t. divided t x) (omega arith)

    only_if : (sieve top).comp x ≡ false → IsPrime x
    only_if e =
        (two, λ q a b c. clash (sym e ∙ result ∙ divisor-divided (top + 1) q x a (omega arith) b c))
      where
        clash : ◌≡◌ {A = Bool} false true → ⊥
        clash p = cc

    if_prime : (d : Bool) → divided (top + 1) x ≡ d → IsPrime x → (sieve top).comp x ≡ false
    if_prime false e p = result ∙ e
    if_prime true e p = let (q, a, b, c, d) = divided-divisor (top + 1) x e in absurd (p.1 q a c d)
