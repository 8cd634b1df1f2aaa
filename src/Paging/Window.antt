-- ===== src/Paging/Window.antt =====
-- Which table covers which addresses, and the condition under which ring 3 reaches nothing outside its
-- window.
use mathlib.Core.Path.{subst}
use sacabambaspos.Base.{
  ℕ, suc, ◌+◌, ◌-◌, ◌*◌, ◌/◌, ◌^◌, ◌≤◌, ◌<◌, ◌≡◌, ◌≢◌, ◌⊎◌, inl, inr, arith, Bool, true, false,
  ◌&&◌, ◌||◌, Bool-cases,
}
use sacabambaspos.Heap
use sacabambaspos.Heap.Bounds
use sacabambaspos.Paging.{
  Vm, user_base, user_top, is_p, is_u, is_ps, frame, index1, index2, index3, index4,
}

-- A map of the tables: the level of each (0 for a page that is no table), and the number of the block
-- of addresses that it covers, blocks of its size counted from address 0.
pub record Places : Type 0 where
  pub level : ℕ → ℕ
  pub block : ℕ → ℕ

-- The block that entry `i` of a table covers.
abbrev pub entry_block : Places → ℕ → ℕ → ℕ
entry_block m t i = m.block t * 512 + i

-- The bytes that an entry of a level covers.
abbrev pub span : ℕ → ℕ
span k = 2 ^ (9 * k + 3)

-- Some address of the block is in the user window.
abbrev pub InWindow : ℕ → ℕ → Type 0
InWindow k q = (user_base / span k ≤ q) × (q ≤ (user_top - 1) / span k)

-- An entry that may stand at place `i` of table `t`: it leads to the table for its block, and it is
-- open to ring 3 only where its block meets the window, and then it is no large page.
pub record IsPlaced (m : Places) (t i e : ℕ) : Type 0 where
  pub link :
      (k : ℕ)
      → m.level t ≡ suc (suc k)
      → is_p e ≡ true
      → is_ps e ≡ false
      → (m.level (frame e) ≡ suc k) × (m.block (frame e) ≡ entry_block m t i)
  pub user :
      m.level t ≢ 0
      → is_p e ≡ true
      → is_u e ≡ true
      → InWindow (m.level t) (entry_block m t i) × ((m.level t ≡ 1) ⊎ (is_ps e ≡ false))

pub record IsIsolated (m : Places) (vm : Vm) : Type 0 where
  pub root : (m.level vm.pml4 ≡ 4) × (m.block vm.pml4 ≡ 0)
  pub below : (t : ℕ) → m.level t ≢ 0 → t < vm.heap.heap_at
  pub heap_ok : Heap.Bounds.IsValid vm.heap
  pub heap_low : vm.heap.heap_end < 2 ^ 52
  pub entries : (t i : ℕ) → i < 512 → IsPlaced m t i (vm.tabs t i)

-- What the MMU lets ring 3 read at a 48-bit address: every level present and open to it, down to a
-- page or a large page.
abbrev open_entry : ℕ → Bool → Bool
open_entry e rest = is_p e && (is_u e && rest)

pub user_access : ℕ → Vm → Bool
user_access va vm =
    let e4 = vm.tabs vm.pml4 (index4 va) in
    let e3 = vm.tabs (frame e4) (index3 va) in
    let e2 = vm.tabs (frame e3) (index2 va) in
    let e1 = vm.tabs (frame e2) (index1 va) in
    open_entry e4
      (is_ps e4 || open_entry e3 (is_ps e3 || open_entry e2 (is_ps e2 || open_entry e1 true)))

open_entry_parts :
    (e : ℕ) (rest : Bool)
    → open_entry e rest ≡ true
    → (is_p e ≡ true) × (is_u e ≡ true) × (rest ≡ true)
open_entry_parts e rest h = bools (is_p e) (is_u e) h
  where
    bools : (p u : Bool) → p && (u && rest) ≡ true → (p ≡ true) × (u ≡ true) × (rest ≡ true)
    bools p u q = ground arith

not_large : (s rest : Bool) → s || rest ≡ true → s ≡ false → rest ≡ true
not_large s rest h e = ground arith

-- An entry open to ring 3 above the last level leads to the table for its block.
descend :
    (m : Places) (vm : Vm) (k t i : ℕ)
    → IsIsolated m vm
    → i < 512
    → m.level t ≡ suc (suc k)
    → is_p (vm.tabs t i) ≡ true
    → is_u (vm.tabs t i) ≡ true
    → (is_ps (vm.tabs t i) ≡ false)
      × (m.level (frame (vm.tabs t i)) ≡ suc k)
      × (m.block (frame (vm.tabs t i)) ≡ entry_block m t i)
descend m vm k t i ok small lvl p u = let (l, b) = placed.link k lvl p large in (large, l, b)
  where
    placed : IsPlaced m t i (vm.tabs t i)
    placed = ok.entries t i small

    pick : (m.level t ≡ 1) ⊎ (is_ps (vm.tabs t i) ≡ false) → is_ps (vm.tabs t i) ≡ false
    pick (inl one) = absurd (omega arith)
    pick (inr q) = q

    large : is_ps (vm.tabs t i) ≡ false
    large = pick (placed.user (omega arith) p u).1

-- The block of a page is its address by 4096.
page_block :
    (va : ℕ)
    → va < 2 ^ 48
    → ((index4 va * 512 + index3 va) * 512 + index2 va) * 512 + index1 va ≡ va / 4096
page_block va h = omega arith

window_of_page : (va q : ℕ) → q ≡ va / 4096 → InWindow 1 q → (user_base ≤ va) × (va < user_top)
window_of_page va q e h = omega arith

-- Ring 3 reaches no address outside the window.
pub user_access-InWindow :
    (va : ℕ) (m : Places) (vm : Vm)
    → va < 2 ^ 48
    → IsIsolated m vm
    → user_access va vm ≡ true
    → (user_base ≤ va) × (va < user_top)
unfolding user_access
user_access-InWindow va m vm small ok h =
    let e4 : ℕ = vm.tabs vm.pml4 (index4 va) in
    let (p4, u4, r4) = open_entry_parts e4 _ h in
    let (s4, l3, b3) = descend m vm 2 vm.pml4 (index4 va) ok (omega arith) ok.root.0 p4 u4 in
    let e3 : ℕ = vm.tabs (frame e4) (index3 va) in
    let (p3, u3, r3) = open_entry_parts e3 _ (not_large _ _ r4 s4) in
    let (s3, l2, b2) = descend m vm 1 (frame e4) (index3 va) ok (omega arith) l3 p3 u3 in
    let e2 : ℕ = vm.tabs (frame e3) (index2 va) in
    let (p2, u2, r2) = open_entry_parts e2 _ (not_large _ _ r3 s3) in
    let (s2, l1, b1) = descend m vm 0 (frame e3) (index2 va) ok (omega arith) l2 p2 u2 in
    let e1 : ℕ = vm.tabs (frame e2) (index1 va) in
    let (p1, u1, r1) = open_entry_parts e1 _ (not_large _ _ r2 s2) in
    let seen : InWindow (m.level (frame e2)) (entry_block m (frame e2) (index1 va)) =
      ((ok.entries (frame e2) (index1 va) (omega arith)).user (omega arith) p1 u1).0 in
    window_of_page va (entry_block m (frame e2) (index1 va))
      (omega (arith, page_block va small, ok.root.1))
      (subst (λ k. InWindow k (entry_block m (frame e2) (index1 va))) l1 seen)

pub closed_outside :
    (va : ℕ) (m : Places) (vm : Vm)
    → va < 2 ^ 48
    → IsIsolated m vm
    → (va < user_base) ⊎ (user_top ≤ va)
    → user_access va vm ≡ false
closed_outside va m vm fits ok outside = elim (Bool-cases (user_access va vm)) [
  | inl seen ↦ absurd (apart outside (user_access-InWindow va m vm fits ok seen))
  | inr closed ↦ closed
]
  where
    apart : (va < user_base) ⊎ (user_top ≤ va) → (user_base ≤ va) × (va < user_top) → ⊥
    apart (inl low) inside = omega arith
    apart (inr high) inside = omega arith
