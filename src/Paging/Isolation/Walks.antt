-- ===== src/Paging/Isolation/Walks.antt =====
-- Walks of several levels: `pd_for` (the two steps that every mapping starts with) and `pt_for`.
use mathlib.Core.Path.{subst}
use sacabambaspos.Base.{
  ℕ, suc, ◌+◌, ◌*◌, ◌≤◌, ◌<◌, ◌≡◌, ◌⊎◌, inl, inr, refl, sym, ◌∙◌, ap, arith, Bool, true, false,
  Option, none, ◌==◌, ==-refl, if◌then◌else◌, Bool-cases, Option-cases, ◌&&◌, lt→ltb,
}
use sacabambaspos.Paging.{
  Vm, Tables, is_p, is_u, is_ps, user_base, user_top, index1, index2, index3, index4, alloc_table,
  next_level, pd_for, fill_table, split_huge, pt_for,
}
use sacabambaspos.Paging.Entry.{is_u-split}
use sacabambaspos.Paging.Window.{Places, entry_block, InWindow, IsPlaced, IsIsolated}
use sacabambaspos.Paging.Isolation.{
  spare-IsPlaced, alloc_table-IsIsolated, Allocates, alloc_table-Allocates, put_place, Extends,
  Extends-refl,
}
use sacabambaspos.Paging.Isolation.Levels.{Walked, Walked-none, link-Walked, next_level-Walked}

pub Extends-trans : {m m' m'' : Places} → Extends m m' → Extends m' m'' → Extends m m''
Extends-trans {m} {m'} {m''} x y = record {
  same = λ t used.
      let (l, b) = x.same t used in let (l', b') = y.same t (omega arith) in (l' ∙ l, b' ∙ b);
}

-- A walk that goes on from where another has ended.
pub Walked-trans :
    {m m' : Places} {k q : ℕ} {r : Option ℕ × Vm} → Extends m m' → Walked m' k q r → Walked m k q r
Walked-trans x w = record {
  places = w.places;
  extends = Extends-trans x w.extends;
  isolated = w.isolated;
  found = w.found;
}

-- The number of the 1 GiB block of an address, of its 2 MiB block, and of its page.
abbrev pub giga_block : ℕ → ℕ
giga_block va = index4 va * 512 + index3 va

abbrev pub mega_block : ℕ → ℕ
mega_block va = giga_block va * 512 + index2 va

abbrev pub page_block : ℕ → ℕ
page_block va = mega_block va * 512 + index1 va

abbrev pub IsUser : ℕ → Type 0
IsUser va = (user_base ≤ va) × (va < user_top)

InWindow-4 : (va : ℕ) → IsUser va → InWindow 4 (index4 va)
InWindow-4 va u = (omega arith, omega arith)

InWindow-3 : (va : ℕ) → IsUser va → InWindow 3 (giga_block va)
InWindow-3 va u = (omega arith, omega arith)

InWindow-2 : (va : ℕ) → IsUser va → InWindow 2 (mega_block va)
InWindow-2 va u = (omega arith, omega arith)

pub InWindow-1 : (va : ℕ) → IsUser va → InWindow 1 (page_block va)
InWindow-1 va u = (omega arith, omega arith)

-- A step from a table whose block is known.
step :
    {m : Places} {vm : Vm} (tab idx k q : ℕ) (user : Bool)
    → idx < 512
    → (m.level tab ≡ suc (suc k)) × (m.block tab ≡ q)
    → (user ≡ true → InWindow (suc (suc k)) (q * 512 + idx))
    → IsIsolated m vm
    → Walked m (suc k) (q * 512 + idx) (next_level tab idx user vm)
step {m} {vm} tab idx k q user fits at window ok =
    subst (λ q'. Walked m (suc k) (q' * 512 + idx) (next_level tab idx user vm)) at.1
      (next_level-Walked tab idx k user fits at.0
        (λ asked. subst (λ q'. InWindow (suc (suc k)) (q' * 512 + idx)) (sym at.1) (window asked))
        ok)

-- The first two steps of a walk.
pub pd_for-Walked :
    {m : Places} {vm : Vm} (va : ℕ) (user : Bool)
    → (user ≡ true → IsUser va)
    → IsIsolated m vm
    → Walked m 2 (giga_block va) (pd_for va user vm)
unfolding pd_for
pd_for-Walked {m} {vm} va user inside ok =
    let first : 0 * 512 + index4 va ≡ index4 va = omega arith in
    let w : Walked m 3 (index4 va) (next_level vm.pml4 (index4 va) user vm) =
      subst (λ q. Walked m 3 q (next_level vm.pml4 (index4 va) user vm)) first
        (step vm.pml4 (index4 va) 2 0 user (omega arith) ok.root
          (λ asked. subst (InWindow 4) (sym first) (InWindow-4 va (inside asked))) ok) in
    elim (Option-cases (next_level vm.pml4 (index4 va) user vm).0) [
      | inl refused ↦
          rw (refused, pd_for)
            (record {
              places = w.places;
              extends = w.extends;
              isolated = w.isolated;
              found = λ t e. cc;
            })
      | inr (t, given) ↦
          rw (given, pd_for)
            (Walked-trans w.extends (
              step t (index3 va) 1 (index4 va) user (omega arith) (w.found t given)
                (λ asked. InWindow-3 va (inside asked)) w.isolated))
    ]

-- The end of an operation: ring 3 is still in its window and the tables on the map stay.
pub record Kept (m : Places) (vm : Vm) : Type 0 where
  pub places : Places
  pub extends : Extends m places
  pub isolated : IsIsolated places vm

pub Walked-Kept : {m : Places} {k q : ℕ} {r : Option ℕ × Vm} → Walked m k q r → Kept m r.1
Walked-Kept w = record { places = w.places; extends = w.extends; isolated = w.isolated }

pub Kept-trans : {m m' : Places} {vm : Vm} → Extends m m' → Kept m' vm → Kept m vm
Kept-trans x w = record {
  places = w.places;
  extends = Extends-trans x w.extends;
  isolated = w.isolated;
}

-- A 2 MiB page is closed to ring 3.
large-closed :
    {m : Places} {vm : Vm} (pd di : ℕ)
    → di < 512
    → m.level pd ≡ 2
    → is_p (vm.tabs pd di) ≡ true
    → is_ps (vm.tabs pd di) ≡ true
    → IsIsolated m vm
    → is_u (vm.tabs pd di) ≡ false
large-closed {m} {vm} pd di fits lvl present large ok = elim (Bool-cases (is_u (vm.tabs pd di))) [
  | inl open_user ↦ absurd (clash ((ok.entries pd di fits).user (omega arith) present open_user).1)
  | inr closed ↦ closed
]
  where
    clash : (m.level pd ≡ 1) ⊎ (is_ps (vm.tabs pd di) ≡ false) → ⊥
    clash (inl one) = omega arith
    clash (inr small) = cc

-- A page that is no table may be filled.
fill_table-IsIsolated :
    {m : Places} {vm : Vm} (n e : ℕ)
    → m.level n ≡ 0
    → IsIsolated m vm
    → IsIsolated m (record vm { tabs = fill_table n e vm.tabs })
unfolding fill_table
fill_table-IsIsolated {m} {vm} n e unused ok = record {
  root = ok.root;
  below = ok.below;
  heap_ok = ok.heap_ok;
  heap_low = ok.heap_low;
  entries = λ t i small. elim (Bool-cases (n == t)) [
    | inl same ↦
        spare-IsPlaced m t i (fill_table n e vm.tabs t i) (sym (ap m.level (ground arith)) ∙ unused)
    | inr apart ↦ rw (apart, fill_table) (ok.entries t i small)
  ];
}

-- The small entries that a 2 MiB page closed to ring 3 is split into may stand in their table.
filled-IsPlaced :
    (m : Places) (n q e i : ℕ) (tabs : Tables)
    → i < 512
    → is_u e ≡ false
    → IsPlaced (put_place n 1 q m) n i (fill_table n e tabs n i)
unfolding fill_table
filled-IsPlaced m n q e i tabs small closed =
    rw (==-refl n, lt→ltb i 512 small)
      (record {
        link = λ k l p s. absurd (
            clash k
              (subst (λ (b : Bool). (if b then 1 else m.level n) ≡ suc (suc k)) (==-refl n) l));
        user = λ l p u. absurd (differ (sym (is_u-split e i closed) ∙ u));
      })
  where
    clash : (k : ℕ) → 1 ≡ suc (suc k) → ⊥
    clash k l = omega arith

    differ : false ≡ true → ⊥
    differ d = cc

-- The split of a 2 MiB page.
split_huge-Kept :
    {m : Places} {vm : Vm} (pd di : ℕ) (user : Bool)
    → di < 512
    → m.level pd ≡ 2
    → (user ≡ true → InWindow 2 (entry_block m pd di))
    → is_p (vm.tabs pd di) ≡ true
    → is_ps (vm.tabs pd di) ≡ true
    → IsIsolated m vm
    → Kept m (split_huge pd di user vm).1
unfolding split_huge
split_huge-Kept {m} {vm} pd di user fits lvl window present large ok =
    elim (Option-cases (alloc_table vm).0) [
      | inl refused ↦
          rw (refused, split_huge)
            (record {
              places = m;
              extends = Extends-refl m;
              isolated = alloc_table-IsIsolated vm ok;
            })
      | inr (n, given) ↦
          let new : Allocates m vm n (alloc_table vm).1 = alloc_table-Allocates vm n ok given in
          rw (given, split_huge)
            (Walked-Kept (
              link-Walked pd di n 0 user new.unused new.is_frame new.low lvl window
                (λ i small.
                  filled-IsPlaced m n (entry_block m pd di) (vm.tabs pd di) i
                    (alloc_table vm).1.tabs small (large-closed pd di fits lvl present large ok))
                (fill_table-IsIsolated n (vm.tabs pd di) new.unused
                  (alloc_table-IsIsolated vm ok))))
    ]

-- The page table for an address.
pub pt_for-Walked :
    {m : Places} {vm : Vm} (va : ℕ) (user : Bool)
    → (user ≡ true → IsUser va)
    → IsIsolated m vm
    → Walked m 1 (mega_block va) (pt_for va user vm)
unfolding pt_for
pt_for-Walked {m} {vm} va user inside ok =
    let w : Walked m 2 (giga_block va) (pd_for va user vm) = pd_for-Walked va user inside ok in
    let vm' : Vm = (pd_for va user vm).1 in
    elim (Option-cases (pd_for va user vm).0) [
      | inl refused ↦
          rw (refused, pt_for)
            (record {
              places = w.places;
              extends = w.extends;
              isolated = w.isolated;
              found = λ t e. cc;
            })
      | inr (t, given) ↦
          rw (given, pt_for)
            (Walked-trans w.extends (
              last t vm' w.places (w.found t given) w.isolated (is_p (vm'.tabs t (index2 va)))
                (is_ps (vm'.tabs t (index2 va))) refl refl))
    ]
  where
    window : user ≡ true → InWindow 2 (giga_block va * 512 + index2 va)
    window asked = InWindow-2 va (inside asked)

    last :
        (t : ℕ) (vm' : Vm) (m' : Places)
        → (m'.level t ≡ 2) × (m'.block t ≡ giga_block va)
        → IsIsolated m' vm'
        → (p s : Bool) → is_p (vm'.tabs t (index2 va)) ≡ p
        → is_ps (vm'.tabs t (index2 va)) ≡ s
        → Walked m' 1 (mega_block va) (
            if p && s
            then (if (split_huge t (index2 va) user vm').0
                then next_level t (index2 va) user (split_huge t (index2 va) user vm').1
                else (none, (split_huge t (index2 va) user vm').1))
            else next_level t (index2 va) user vm')
    last t vm' m' at ok' false s p_is s_is =
        step t (index2 va) 0 (giga_block va) user (omega arith) at window ok'
    last t vm' m' at ok' true false p_is s_is =
        step t (index2 va) 0 (giga_block va) user (omega arith) at window ok'
    last t vm' m' at ok' true true p_is s_is =
        let h : Kept m' (split_huge t (index2 va) user vm').1 =
          split_huge-Kept t (index2 va) user (omega arith) at.0
            (λ asked. subst (λ q. InWindow 2 (q * 512 + index2 va)) (sym at.1) (window asked)) p_is
            s_is ok' in
        let (l, b) = h.extends.same t (omega (arith, at.0)) in
        elim (Bool-cases (split_huge t (index2 va) user vm').0) [
          | inl done ↦ rw done (
              Walked-trans h.extends (
                step t (index2 va) 0 (giga_block va) user (omega arith) (l ∙ at.0, b ∙ at.1) window
                  h.isolated))
          | inr refused ↦ rw refused (Walked-trans h.extends (Walked-none _ h.isolated))
        ]
