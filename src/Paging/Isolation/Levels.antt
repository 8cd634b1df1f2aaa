-- ===== src/Paging/Isolation/Levels.antt =====
-- One step down the tables: `next_level`, and the split of a 2 MiB entry in `map_4k`.
use mathlib.Core.Path.{subst, subst₂}
use sacabambaspos.Base.{
  ℕ, suc, ◌+◌, ◌*◌, ◌<◌, ◌≡◌, ◌≢◌, inl, inr, refl, sym, ◌∙◌, ap, arith, Bool, true, false, Option,
  none, some, ==-refl, if◌then◌else◌, Bool-cases, Option-cases, bit_or,
}
use sacabambaspos.Paging.{
  Vm, is_p, is_ps, frame, pte_u, table_entry, clear_table, write_entry, alloc_table, new_level,
  next_level,
}
use sacabambaspos.Paging.Entry.{
  IsFrame, frame-table_entry, table_entry_bits, user_entry_bits, frame-bit_or,
}
use sacabambaspos.Paging.Window.{Places, entry_block, InWindow, IsPlaced, IsIsolated}
use sacabambaspos.Paging.Isolation.{
  write_entry-IsIsolated, absent-IsPlaced, alloc_table-IsIsolated, Allocates, alloc_table-Allocates,
  put_place, Extends, Extends-refl, put_place-Extends, put_place-IsIsolated,
}

-- The end of a walk down to level `k`: ring 3 is still in its window, the tables on the map stay, and
-- a table that is found is the one of block `q`.
pub record Walked (m : Places) (k q : ℕ) (r : Option ℕ × Vm) : Type 0 where
  pub places : Places
  pub extends : Extends m places
  pub isolated : IsIsolated places r.1
  pub found : (t : ℕ) → r.0 ≡ some t → (places.level t ≡ k) × (places.block t ≡ q)

pub Walked-none : {m : Places} {k q : ℕ} (vm : Vm) → IsIsolated m vm → Walked m k q (none, vm)
Walked-none {m} vm ok = record {
  places = m;
  extends = Extends-refl m;
  isolated = ok;
  found = λ t e. cc;
}

-- The entry for a new table may stand where the table was asked for.
table_entry-IsPlaced :
    (m : Places) (tab idx n k : ℕ) (user : Bool)
    → m.level n ≡ 0
    → IsFrame n
    → m.level tab ≡ suc (suc k)
    → (user ≡ true → InWindow (suc (suc k)) (entry_block m tab idx))
    → IsPlaced (put_place n (suc k) (entry_block m tab idx) m) tab idx (table_entry user n)
table_entry-IsPlaced m tab idx n k user unused framed lvl window = record {
  link = λ k' l p s. (
    rw (frame-table_entry user n framed, ==-refl n) (omega (arith, level_tab)),
    rw (frame-table_entry user n framed, ==-refl n)
        (ap (λ (b : ℕ). b * 512 + idx) (sym (x.same tab used).1)),
  );
  user = λ l p u. (
    subst₂ (λ k' b. InWindow k' (b * 512 + idx)) (sym level_tab) (sym (x.same tab used).1)
        (window (sym (table_entry_bits user n framed).2 ∙ u)),
    inr (table_entry_bits user n framed).1,
  );
}
  where
    used : m.level tab ≢ 0
    used = omega arith

    x : Extends m (put_place n (suc k) (entry_block m tab idx) m)
    x = put_place-Extends m n (suc k) (entry_block m tab idx) unused

    level_tab : (put_place n (suc k) (entry_block m tab idx) m).level tab ≡ suc (suc k)
    level_tab = (x.same tab used).0 ∙ lvl

-- A new table, whose entries may stand in it, linked where it was asked for.
pub link-Walked :
    {m : Places} {vm : Vm} (tab idx n k : ℕ) (user : Bool)
    → m.level n ≡ 0
    → IsFrame n
    → n < vm.heap.heap_at
    → m.level tab ≡ suc (suc k)
    → (user ≡ true → InWindow (suc (suc k)) (entry_block m tab idx))
    → ((i : ℕ)
        → i < 512
        → IsPlaced (put_place n (suc k) (entry_block m tab idx) m) n i (vm.tabs n i))
    → IsIsolated m vm
    → Walked m
        (suc k)
        (entry_block m tab idx)
        (some (frame (table_entry user n)), write_entry tab idx (table_entry user n) vm)
link-Walked {m} {vm} tab idx n k user unused framed low lvl window fill ok = record {
  places = put_place n (suc k) (entry_block m tab idx) m;
  extends = put_place-Extends m n (suc k) (entry_block m tab idx) unused;
  isolated =
      write_entry-IsIsolated tab idx (table_entry user n)
        (table_entry-IsPlaced m tab idx n k user unused framed lvl window)
        (put_place-IsIsolated n (suc k) (entry_block m tab idx) unused low fill ok);
  found = λ t e.
      let same : frame (table_entry user n) ≡ t = cc in
      rw (sym same, frame-table_entry user n framed, ==-refl n) (refl, refl);
}

-- A walk from an entry that is there.
stay-Walked :
    {m : Places} {vm : Vm} (k q f : ℕ)
    → m.level f ≡ k
    → m.block f ≡ q
    → IsIsolated m vm
    → Walked m k q (some f, vm)
stay-Walked {m} k q f level_f block_f ok = record {
  places = m;
  extends = Extends-refl m;
  isolated = ok;
  found = λ t e. let same : f ≡ t = cc in rw (sym same) (level_f, block_f);
}

new_level-Walked :
    {m : Places} {vm : Vm} (tab idx k : ℕ) (user : Bool)
    → m.level tab ≡ suc (suc k)
    → (user ≡ true → InWindow (suc (suc k)) (entry_block m tab idx))
    → IsIsolated m vm
    → Walked m (suc k) (entry_block m tab idx) (new_level tab idx user vm)
unfolding new_level write_entry clear_table
new_level-Walked {m} {vm} tab idx k user lvl window ok = elim (Option-cases (alloc_table vm).0) [
  | inl refused ↦
      rw (refused, new_level) (Walked-none (alloc_table vm).1 (alloc_table-IsIsolated vm ok))
  | inr (n, given) ↦
      let new : Allocates m vm n (alloc_table vm).1 = alloc_table-Allocates vm n ok given in
      rw (given, new_level)
        (link-Walked tab idx n k user new.unused new.is_frame new.low lvl window
          (λ i small. rw new.cleared (clear n i)) (alloc_table-IsIsolated vm ok))
]
  where
    clear :
        (n i : ℕ)
        → IsPlaced (put_place n (suc k) (entry_block m tab idx) m) n i (clear_table n vm.tabs n i)
    clear n i = rw (==-refl n) (absent-IsPlaced _ n i 0 refl)

-- The user bit that a walk for ring 3 adds to an entry.
user_entry-IsPlaced :
    (m : Places) (tab idx e k : ℕ)
    → m.level tab ≡ suc (suc k)
    → is_p e ≡ true
    → is_ps e ≡ false
    → InWindow (suc (suc k)) (entry_block m tab idx)
    → IsPlaced m tab idx e
    → IsPlaced m tab idx (bit_or e pte_u)
user_entry-IsPlaced m tab idx e k lvl present small window placed = record {
  link = λ k' l p s. rw (frame-bit_or e pte_u refl) (placed.link k' l present small);
  user = λ l p u. (
    subst (λ k'. InWindow k' (entry_block m tab idx)) (sym lvl) window,
    inr ((user_entry_bits e).1 ∙ small),
  );
}

-- One step down the tables.
pub next_level-Walked :
    {m : Places} {vm : Vm} (tab idx k : ℕ) (user : Bool)
    → idx < 512
    → m.level tab ≡ suc (suc k)
    → (user ≡ true → InWindow (suc (suc k)) (entry_block m tab idx))
    → IsIsolated m vm
    → Walked m (suc k) (entry_block m tab idx) (next_level tab idx user vm)
unfolding next_level
next_level-Walked {m} {vm} tab idx k user fits lvl window ok =
    let e : ℕ = vm.tabs tab idx in
    elim (Bool-cases (is_p e)) [
      | inr absent ↦ rw absent (new_level-Walked tab idx k user lvl window ok)
      | inl present ↦ elim (Bool-cases (is_ps e)) [
        | inl large ↦ rw (present, large) (Walked-none vm ok)
        | inr small ↦ rw (present, small) (down present small user window)
      ]
    ]
  where
    down :
        is_p (vm.tabs tab idx) ≡ true
        → is_ps (vm.tabs tab idx) ≡ false
        → (user' : Bool) → (user' ≡ true → InWindow (suc (suc k)) (entry_block m tab idx))
        → Walked m (suc k) (entry_block m tab idx) (
            if user'
            then (
              some (frame (bit_or (vm.tabs tab idx) pte_u)),
              write_entry tab idx (bit_or (vm.tabs tab idx) pte_u) vm,
            )
            else (some (frame (vm.tabs tab idx)), vm))
    down present small false window' =
        let (l, b) = (ok.entries tab idx fits).link k lvl present small in
        stay-Walked (suc k) (entry_block m tab idx) (frame (vm.tabs tab idx)) l b ok
    down present small true window' =
        let (l, b) = (ok.entries tab idx fits).link k lvl present small in
        let f : frame (bit_or (vm.tabs tab idx) pte_u) ≡ frame (vm.tabs tab idx) =
          frame-bit_or (vm.tabs tab idx) pte_u refl in
        stay-Walked (suc k) (entry_block m tab idx) (frame (bit_or (vm.tabs tab idx) pte_u))
          (ap m.level f ∙ l) (ap m.block f ∙ b)
          (write_entry-IsIsolated tab idx (bit_or (vm.tabs tab idx) pte_u)
            (user_entry-IsPlaced m tab idx (vm.tabs tab idx) k lvl present small (window' refl)
              (ok.entries tab idx fits))
            ok)
