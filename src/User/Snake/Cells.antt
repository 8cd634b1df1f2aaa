-- ===== src/User/Snake/Cells.antt =====
-- Lists of different cells of a field: a cell is the number 64 * column + row.
use sacabambaspos.Base.{
  ℕ, zero, suc, ◌-◌, ◌≤◌, ◌<◌, ◌≡◌, inl, inr, refl, ap, arith, Bool, true, false, not, ◌&&◌, ◌||◌,
  List, [], ◌∷◌, length, ◌==◌, if◌then◌else◌, Bool-cases,
}

abbrev pub member : ℕ → List ℕ → Bool
member k [] = false
member k (c ∷ cs) = k == c || member k cs

abbrev pub Distinct : List ℕ → Type 0
Distinct [] = Unit
Distinct (c ∷ cs) = (member c cs ≡ false) × Distinct cs

-- All but the last.
abbrev pub front : List ℕ → List ℕ
front [] = []
front (c ∷ []) = []
front (c ∷ d ∷ cs) = c ∷ front (d ∷ cs)

abbrev pub last : List ℕ → ℕ
last [] = 0
last (c ∷ []) = c
last (c ∷ d ∷ cs) = last (d ∷ cs)

pub length-front : (cs : List ℕ) → length (front cs) ≡ length cs - 1
length-front [] = refl
length-front (c ∷ []) = refl
length-front (c ∷ d ∷ cs) = omega (arith, length-front (d ∷ cs))

member-last : (c : ℕ) (cs : List ℕ) → member (last (c ∷ cs)) (c ∷ cs) ≡ true
member-last c [] = ground arith
member-last c (d ∷ cs) = ground (arith, member-last d cs)

pub member-front :
    (k : ℕ) (cs : List ℕ) → Distinct cs → member k (front cs) ≡ member k cs && not (k == last cs)
member-front k [] d = refl
member-front k (c ∷ []) d = ground arith
member-front k (c ∷ e ∷ cs) (new, d) =
    ground (arith, member-front k (e ∷ cs) d, member-last e cs, new)

pub Distinct-front : (cs : List ℕ) → Distinct cs → Distinct (front cs)
Distinct-front [] d = tt
Distinct-front (c ∷ []) d = tt
Distinct-front (c ∷ e ∷ cs) (new, d) =
    (ground (arith, member-front c (e ∷ cs) d, new), Distinct-front (e ∷ cs) d)

-- The pigeonhole principle.
remove : ℕ → List ℕ → List ℕ
remove k [] = []
remove k (c ∷ cs) = if k == c then remove k cs else c ∷ remove k cs

abbrev pub AllBelow : ℕ → List ℕ → Type 0
AllBelow n [] = Unit
AllBelow n (c ∷ cs) = (c < n) × AllBelow n cs

member-remove : (j k : ℕ) (cs : List ℕ) → member j cs ≡ false → member j (remove k cs) ≡ false
unfolding remove
member-remove j k [] e = refl
member-remove j k (c ∷ cs) e = ground (arith, member-remove j k cs)

Distinct-remove : (k : ℕ) (cs : List ℕ) → Distinct cs → Distinct (remove k cs)
unfolding remove
Distinct-remove k [] d = tt
Distinct-remove k (c ∷ cs) (new, d) = elim (Bool-cases (k == c)) [
  | inl e ↦ rw e (Distinct-remove k cs d)
  | inr e ↦ rw e (member-remove c k cs new, Distinct-remove k cs d)
]

AllBelow-remove : (n : ℕ) (cs : List ℕ) → AllBelow (suc n) cs → AllBelow n (remove n cs)
unfolding remove
AllBelow-remove n [] b = tt
AllBelow-remove n (c ∷ cs) (lt, b) = elim (Bool-cases (n == c)) [
  | inl e ↦ rw e (AllBelow-remove n cs b)
  | inr e ↦ rw e (ground (arith, e), AllBelow-remove n cs b)
]

remove_absent : (k : ℕ) (cs : List ℕ) → member k cs ≡ false → remove k cs ≡ cs
unfolding remove
remove_absent k [] e = refl
remove_absent k (c ∷ cs) e = ground (arith, remove_absent k cs)

length-remove : (k : ℕ) (cs : List ℕ) → Distinct cs → length cs ≤ suc (length (remove k cs))
unfolding remove
length-remove k [] d = omega arith
length-remove k (c ∷ cs) (new, d) = elim (Bool-cases (k == c)) [
  | inl e ↦
      let same : k ≡ c = ground (arith, e) in
      rw e (omega (arith, ap length (remove_absent k cs (rw same new))))
  | inr e ↦ rw e (omega (arith, length-remove k cs d))
]

pub length-le : (n : ℕ) (cs : List ℕ) → Distinct cs → AllBelow n cs → length cs ≤ n
length-le zero [] d b = omega arith
length-le zero (c ∷ cs) d (lt, b) = absurd (omega arith)
length-le (suc n) cs d b =
    let ih = length-le n (remove n cs) (Distinct-remove n cs d) (AllBelow-remove n cs b) in
    omega (arith, length-remove n cs d)
