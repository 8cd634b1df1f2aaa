-- ===== src/Paging/Isolation.antt =====
-- Every operation on the tables keeps ring 3 inside its window.
pub mod Levels
pub mod Walks
pub mod Maps
pub mod Calls
use mathlib.Core.Path.{subst, subst₂}
use native.Mathlib.Decide.{ℕ_discrete}
use sacabambaspos.Base.{
  ℕ, zero, suc, ◌+◌, ◌-◌, ◌*◌, ◌/◌, ◌%◌, ◌^◌, ◌≤◌, ◌<◌, ◌≡◌, ◌≢◌, ◌⊎◌, inl, inr, refl, sym, ◌∙◌, ap,
  arith, Bool, true, false, Option, none, some, ◌==◌, if◌then◌else◌, Bool-cases, Option-cases, ◌&&◌,
  bit_or, ltb,
}
use sacabambaspos.Heap
use sacabambaspos.Heap.{Heap, kalloc_page}
use sacabambaspos.Heap.Bounds
use sacabambaspos.Heap.Bounds.{
  kalloc_page_lem, kalloc_page-IsValid, kalloc_page_grows, kalloc_page-some,
}
use sacabambaspos.Paging.{
  Vm, Tables, is_p, is_u, is_ps, frame, set_entry, clear_table, write_entry, alloc_table,
  fill_table,
}
use sacabambaspos.Paging.Entry.{IsFrame, is_u-split}
use sacabambaspos.Paging.Window.{Places, entry_block, InWindow, IsPlaced, IsIsolated}

-- A write of an entry that may stand there.
pub write_entry-IsIsolated :
    {m : Places} {vm : Vm} (t i e : ℕ)
    → IsPlaced m t i e
    → IsIsolated m vm
    → IsIsolated m (write_entry t i e vm)
unfolding write_entry set_entry
write_entry-IsIsolated {m} {vm} t i e placed ok = record {
  root = ok.root;
  below = ok.below;
  heap_ok = ok.heap_ok;
  heap_low = ok.heap_low;
  entries = λ t' i' small. written t' i' small;
}
  where
    written : (t' i' : ℕ) → i' < 512 → IsPlaced m t' i' (set_entry t i e vm.tabs t' i')
    written t' i' small = elim (Bool-cases (t == t' && i == i')) [
      | inl same ↦ rw same (subst₂ (λ a b. IsPlaced m a b e) (ground arith) (ground arith) placed)
      | inr other ↦ rw other (ok.entries t' i' small)
    ]

-- An entry that is not present may stand anywhere.
pub absent-IsPlaced : (m : Places) (t i e : ℕ) → is_p e ≡ false → IsPlaced m t i e
absent-IsPlaced m t i e absent = record { link = λ k l p s. cc; user = λ l p u. cc }

cleared-IsPlaced :
    (m : Places) (n t i : ℕ) (tabs : Tables)
    → IsPlaced m t i (tabs t i)
    → IsPlaced m t i (clear_table n tabs t i)
unfolding clear_table
cleared-IsPlaced m n t i tabs placed = elim (Bool-cases (n == t)) [
  | inl same ↦ rw same (absent-IsPlaced m t i 0 refl)
  | inr other ↦ rw other placed
]

-- After a call for a page, whether or not it is given.
pub grown-IsIsolated :
    {m : Places} {vm : Vm} (tabs : Tables)
    → ((t i : ℕ) → i < 512 → IsPlaced m t i (tabs t i))
    → IsIsolated m vm
    → IsIsolated m (record vm { heap = (kalloc_page vm.heap).1; tabs = tabs })
grown-IsIsolated {m} {vm} tabs placed ok = record {
  root = ok.root;
  below = λ t used. omega (arith, ok.below t used, kalloc_page_grows ok.heap_ok);
  heap_ok = kalloc_page-IsValid ok.heap_ok;
  heap_low = omega (arith, ok.heap_low, kalloc_page_grows ok.heap_ok);
  entries = placed;
}

pub alloc_table_refused :
    (vm : Vm)
    → (kalloc_page vm.heap).0 ≡ none
    → alloc_table vm ≡ (none, record vm { heap = (kalloc_page vm.heap).1 })
unfolding alloc_table
alloc_table_refused vm e = rw (e, alloc_table)

pub alloc_table_given :
    (vm : Vm) (n : ℕ)
    → (kalloc_page vm.heap).0 ≡ some n
    → alloc_table vm
      ≡ (some n, record vm { heap = (kalloc_page vm.heap).1; tabs = clear_table n vm.tabs })
unfolding alloc_table
alloc_table_given vm n e = rw (e, alloc_table)

pub alloc_table-IsIsolated :
    {m : Places} (vm : Vm) → IsIsolated m vm → IsIsolated m (alloc_table vm).1
alloc_table-IsIsolated {m} vm ok = elim (Option-cases (kalloc_page vm.heap).0) [
  | inl refused ↦ rw (alloc_table_refused vm refused) (grown-IsIsolated vm.tabs ok.entries ok)
  | inr (n, given) ↦ rw (alloc_table_given vm n given) (
      grown-IsIsolated (clear_table n vm.tabs)
        (λ t i small. cleared-IsPlaced m n t i vm.tabs (ok.entries t i small)) ok)
]

-- A page for a table that is given was given by the heap.
pub alloc_table-some :
    (vm : Vm) (n : ℕ) → (alloc_table vm).0 ≡ some n → (kalloc_page vm.heap).0 ≡ some n
alloc_table-some vm n = elim (Option-cases (kalloc_page vm.heap).0) [
  | inl refused ↦ rw (alloc_table_refused vm refused) (λ e. cc)
  | inr (k, given) ↦ rw (alloc_table_given vm k given) (λ e. given ∙ e)
]

-- If a page is given, it is a frame that was no table, it is clear, and it lies below the new heap
-- pointer.
pub record Allocates (m : Places) (vm : Vm) (n : ℕ) (vm' : Vm) : Type 0 where
  pub is_frame : IsFrame n
  pub unused : m.level n ≡ 0
  pub low : n < vm'.heap.heap_at
  pub same_root : vm'.pml4 ≡ vm.pml4
  pub cleared : vm'.tabs ≡ clear_table n vm.tabs

unused_above :
    {m : Places} {vm : Vm} (n : ℕ) → IsIsolated m vm → vm.heap.heap_at ≤ n → m.level n ≡ 0
unused_above {m} n ok high = elim (ℕ_discrete (m.level n) 0) [
  | yes zero_level ↦ zero_level
  | no used ↦ absurd (omega (arith, ok.below n used))
]

pub alloc_table-Allocates :
    {m : Places} (vm : Vm) (n : ℕ)
    → IsIsolated m vm
    → (alloc_table vm).0 ≡ some n
    → Allocates m vm n (alloc_table vm).1
alloc_table-Allocates {m} vm n ok e =
    let given : (kalloc_page vm.heap).0 ≡ some n = alloc_table-some vm n e in
    rw (alloc_table_given vm n given) (record {
      is_frame = omega (arith, kalloc_page-some n ok.heap_ok given, ok.heap_low);
      unused = unused_above n ok (omega (arith, kalloc_page-some n ok.heap_ok given));
      low = omega (arith, kalloc_page-some n ok.heap_ok given);
      same_root = refl;
      cleared = refl;
    })

-- A new table in the map.
abbrev pub put_place : ℕ → ℕ → ℕ → Places → Places
put_place n k q m = record {
  level = λ t. if t == n then k else m.level t;
  block = λ t. if t == n then q else m.block t;
}

-- Tables that are on the map stay where they are.
pub record Extends (m m' : Places) : Type 0 where
  pub same : (t : ℕ) → m.level t ≢ 0 → (m'.level t ≡ m.level t) × (m'.block t ≡ m.block t)

pub Extends-refl : (m : Places) → Extends m m
Extends-refl m = record { same = λ t used. (refl, refl) }

pub put_place-Extends : (m : Places) (n k q : ℕ) → m.level n ≡ 0 → Extends m (put_place n k q m)
put_place-Extends m n k q unused = record { same = λ t used. other t used }
  where
    other :
        (t : ℕ)
        → m.level t ≢ 0
        → ((put_place n k q m).level t ≡ m.level t) × ((put_place n k q m).block t ≡ m.block t)
    other t used = elim (Bool-cases (t == n)) [
      | inl same ↦ absurd (used (ap m.level (ground arith) ∙ unused))
      | inr apart ↦ rw apart (refl, refl)
    ]

-- An entry of a table that is on the map may still stand there when the map grows.
IsPlaced-Extends :
    (m m' : Places) (t i e : ℕ)
    → Extends m m'
    → m.level t ≢ 0
    → IsPlaced m t i e
    → IsPlaced m' t i e
IsPlaced-Extends m m' t i e x used placed = record {
  link = λ k l p s.
      let (level_e, block_e) = placed.link k (sym (x.same t used).0 ∙ l) p s in
      let (same_level, same_block) = x.same (frame e) (omega arith) in
      (
        same_level ∙ level_e,
        same_block ∙ block_e ∙ ap (λ (b : ℕ). b * 512 + i) (sym (x.same t used).1),
      );
  user = λ l p u.
      subst₂ (λ k b. InWindow k (b * 512 + i) × ((k ≡ 1) ⊎ (is_ps e ≡ false)))
        (sym (x.same t used).0) (sym (x.same t used).1) (placed.user used p u);
}

-- In a page that is no table any entry may stand.
pub spare-IsPlaced : (m : Places) (t i e : ℕ) → m.level t ≡ 0 → IsPlaced m t i e
spare-IsPlaced m t i e spare = record {
  link = λ k l p s. absurd (omega arith);
  user = λ l p u. absurd (l spare);
}

-- A clear page below the heap pointer may become a table.
pub put_place-IsIsolated :
    {m : Places} {vm : Vm} (n k q : ℕ)
    → m.level n ≡ 0
    → n < vm.heap.heap_at
    → ((i : ℕ) → i < 512 → IsPlaced (put_place n k q m) n i (vm.tabs n i))
    → IsIsolated m vm
    → IsIsolated (put_place n k q m) vm
put_place-IsIsolated {m} {vm} n k q unused low clear ok = record {
  root = let (l, b) = x.same vm.pml4 (omega (arith, ok.root)) in (l ∙ ok.root.0, b ∙ ok.root.1);
  below = λ t used. lower t used;
  heap_ok = ok.heap_ok;
  heap_low = ok.heap_low;
  entries = λ t i small. placed t i small;
}
  where
    x : Extends m (put_place n k q m)
    x = put_place-Extends m n k q unused

    lower : (t : ℕ) → (put_place n k q m).level t ≢ 0 → t < vm.heap.heap_at
    lower t used = elim (Bool-cases (t == n)) [
      | inl same ↦ ground arith
      | inr apart ↦ ok.below t (subst (λ (b : Bool). (if b then k else m.level t) ≢ 0) apart used)
    ]

    placed : (t i : ℕ) → i < 512 → IsPlaced (put_place n k q m) t i (vm.tabs t i)
    placed t i small = elim (Bool-cases (t == n)) [
      | inl same ↦
          subst (λ t'. IsPlaced (put_place n k q m) t' i (vm.tabs t' i)) (ground arith)
            (clear i small)
      | inr apart ↦ elim (ℕ_discrete (m.level t) 0) [
        | yes spare ↦ spare-IsPlaced (put_place n k q m) t i (vm.tabs t i) (rw apart spare)
        | no used ↦
            IsPlaced-Extends m (put_place n k q m) t i (vm.tabs t i) x used (ok.entries t i small)
      ]
    ]
