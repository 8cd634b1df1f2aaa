-- ===== src/Ring/Refine.antt =====
-- A ring is a bounded FIFO queue of its contents.
use native.Mathlib.Nat.{mod-eq_of_lt, mod-eq-sub-mod}
use native.Mathlib.Decide.{dec_lt, ℕ_discrete}
use mathlib.Core.Path.{subst}
use sacabambaspos.Base.{
  ℕ, zero, suc, ◌+◌, ◌-◌, ◌%◌, ◌^◌, ◌≤◌, ◌<◌, ◌≡◌, ◌≢◌, refl, arith, ap, sym, false, true, List, [],
  ◌∷◌, ◌++◌, Option, none, some, length, length-set, length-append, get_or, set, get_or-set_self,
  get_or-set_ne, ◌==◌, if◌then◌else◌, ltb,
}
use sacabambaspos.Ring.{Ring, push, pop, used, items, contents}

-- The value that a pop gave, before the rest.
abbrev pub optional : Option ℕ → List ℕ → List ℕ
optional none xs = xs
optional (some x) xs = x ∷ xs

module _ (size : ℕ) where
  pub record IsValid (r : Ring) : Type 0 where
    pub storage : length r.slots ≡ size
    pub rd_in : r.rd < size
    pub wr_in : r.wr < size
    pub small : size < 2 ^ 32

  pub push-IsValid : {r : Ring} (v : ℕ) → IsValid r → IsValid (push size v r)
  unfolding push
  push-IsValid {r} v ok = ground (arith, length-set r.slots r.wr v)

  pub pop-IsValid : {r : Ring} → IsValid r → IsValid (pop size r).1
  unfolding pop
  pop-IsValid ok = ground arith

  -- One turn at most.
  wrap : (x : ℕ) → x < size + size → x % size ≡ (if ltb x size then x else x - size)
  wrap x h = elim (dec_lt x size) [
    | yes p ↦ ground (arith, mod-eq_of_lt p)
    | no p ↦ ground (
      arith,
      mod-eq-sub-mod {n = x} {m = size} (omega arith),
      mod-eq_of_lt {n = x - size} {m = size} (omega arith),
    )
  ]

  apart : (h n k : ℕ) → h < size → n < k → k < size → (h + k) % size ≢ (h + n) % size
  apart h n k hh hn hk = ground (arith, wrap (h + k), wrap (h + n))

  -- A write outside the queued part does not show.
  items-set :
      (slots : List ℕ) (h n k v : ℕ)
      → h < size
      → n ≤ k
      → k < size
      → items size (set slots ((h + k) % size) v) h n ≡ items size slots h n
  items-set slots h zero k v hh hn hk = refl
  items-set slots h (suc n) k v hh hn hk = rw (
    items-set slots h n k v hh (omega arith) hk,
    get_or-set_ne slots ((h + k) % size) ((h + n) % size) v 0 (apart h n k hh hn hk),
  )

  -- The oldest value first.
  items-suc :
      (slots : List ℕ) (h n : ℕ)
      → h < size
      → n < size
      → items size slots h (suc n) ≡ get_or slots h 0 ∷ items size slots ((h + 1) % size) n
  items-suc slots h zero hh hn = rw (unmoved)
    where
      unmoved : (h + 0) % size ≡ h
      unmoved = ground (arith, wrap (h + 0))
  items-suc slots h (suc n) hh hn = rw shifted (
      ap (λ t. t ++ (get_or slots ((h + suc n) % size) 0 ∷ []))
        (items-suc slots h n hh (omega arith)))
    where
      shifted : ((h + 1) % size + n) % size ≡ (h + suc n) % size
      shifted = ground (arith, wrap (h + 1), wrap ((h + 1) % size + n), wrap (h + suc n))

  length-items : (slots : List ℕ) (h n : ℕ) → length (items size slots h n) ≡ n
  length-items slots h zero = refl
  length-items slots h (suc n) = omega (
    arith,
    length-append (items size slots h n) (get_or slots ((h + n) % size) 0 ∷ []),
    length-items slots h n,
  )

  items-set_last :
      (slots : List ℕ) (h n v : ℕ)
      → length slots ≡ size
      → h < size
      → n < size
      → items size (set slots ((h + n) % size) v) h (suc n) ≡ items size slots h n ++ (v ∷ [])
  items-set_last slots h n v len hh hn = rw (
    items-set slots h n n v hh (omega arith) hn,
    get_or-set_self slots ((h + n) % size) v 0 (omega arith),
  )

  items-set_end :
      (slots : List ℕ) (h n w v : ℕ)
      → length slots ≡ size
      → h < size
      → n < size
      → w ≡ (h + n) % size
      → items size (set slots w v) h (suc n) ≡ items size slots h n ++ (v ∷ [])
  items-set_end slots h n w v len hh hn e =
      subst (λ t. items size (set slots t v) h (suc n) ≡ items size slots h n ++ (v ∷ [])) (sym e)
        (items-set_last slots h n v len hh hn)

  -- The write position stands behind the queued values.
  wr-used : {r : Ring} → IsValid r → r.wr ≡ (r.rd + used size r) % size
  wr-used {r} ok = ground (arith, wrap (r.wr + size - r.rd), wrap (r.rd + used size r))

  push_full : {r : Ring} (v : ℕ) → IsValid r → used size r + 1 ≡ size → push size v r ≡ r
  unfolding push
  push_full {r} v ok full = ground (arith, wrap (r.wr + size - r.rd), wrap (r.wr + 1))

  push_room :
      {r : Ring} (v : ℕ)
      → IsValid r
      → used size r + 1 ≢ size
      → (push size v r ≡ record r { slots = set r.slots r.wr v; wr = (r.wr + 1) % size })
        × ((((r.wr + 1) % size) + size - r.rd) % size ≡ suc (used size r))
  unfolding push
  push_room {r} v ok room = (
    rw (fits, differs),
    ground
        (arith, wrap (r.wr + size - r.rd), wrap (r.wr + 1), wrap ((r.wr + 1) % size + size - r.rd)),
  )
    where
      fits : (r.wr + 1) % 2 ^ 32 ≡ r.wr + 1
      fits = omega arith

      differs : ((r.wr + 1) % size == r.rd) ≡ false
      differs = ground (arith, wrap (r.wr + size - r.rd), wrap (r.wr + 1))

  full_test : (n : ℕ) → n + 1 ≡ size → ltb (n + 1) size ≡ false
  full_test n h = ground arith

  room_test : (n : ℕ) → n < size → n + 1 ≢ size → ltb (n + 1) size ≡ true
  room_test n h ne = ground arith

  -- A push into a valid ring adds the value as the newest while there is room for one more, of `size - 1`
  -- values at most, and is dropped otherwise.
  pub contents-push :
      {r : Ring} (v : ℕ)
      → IsValid r
      → contents size (push size v r) ≡ (
          if ltb (length (contents size r) + 1) size
          then contents size r ++ (v ∷ [])
          else contents size r)
  contents-push {r} v ok = elim (ℕ_discrete (used size r + 1) size) [
    | yes full ↦
        rw (
          push_full v ok full,
          length-items r.slots r.rd (used size r),
          full_test (used size r) full,
        )
    | no room ↦ rw (
      (push_room v ok room).0,
      (push_room v ok room).1,
      items-set_end r.slots r.rd (used size r) r.wr v ok.storage ok.rd_in (omega arith)
          (wr-used ok),
      length-items r.slots r.rd (used size r),
      room_test (used size r) (omega arith) room,
    )
  ]

  pop-none : {r : Ring} → r.rd ≡ r.wr → pop size r ≡ (none, r)
  unfolding pop
  pop-none e = ground arith

  pop-some :
      {r : Ring}
      → IsValid r
      → r.rd ≢ r.wr
      → (pop size r ≡ (some (get_or r.slots r.rd 0), record r { rd = (r.rd + 1) % size }))
        × (used size r ≡ suc ((r.wr + size - (r.rd + 1) % size) % size))
  unfolding pop
  pop-some {r} ok ne = (
    rw (fits, differs),
    ground
        (arith, wrap (r.wr + size - r.rd), wrap (r.rd + 1), wrap (r.wr + size - (r.rd + 1) % size)),
  )
    where
      fits : (r.rd + 1) % 2 ^ 32 ≡ r.rd + 1
      fits = omega arith

      differs : (r.rd == r.wr) ≡ false
      differs = ground arith

  -- A pop takes the oldest value of a valid ring, if it holds one, and leaves the rest in order.
  pub contents-pop :
      {r : Ring}
      → IsValid r
      → contents size r ≡ optional (pop size r).0 (contents size (pop size r).1)
  contents-pop {r} ok = elim (ℕ_discrete r.rd r.wr) [
    | yes none_left ↦ rw (pop-none {r = r} none_left)
    | no more ↦
        rw ((pop-some ok more).0, (pop-some ok more).1)
          (items-suc r.slots r.rd ((r.wr + size - (r.rd + 1) % size) % size) ok.rd_in
            (omega (arith, (pop-some ok more).1)))
  ]

  -- One slot always stays free.
  pub length-contents-lt : {r : Ring} → IsValid r → length (contents size r) < size
  length-contents-lt {r} ok = omega (arith, length-items r.slots r.rd (used size r))
