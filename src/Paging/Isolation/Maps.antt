-- ===== src/Paging/Isolation/Maps.antt =====
-- The mappings: `map_2m`, `map_4k`, `protect`, `vm_ensure_identity`, `vm_user_map` and
-- `vm_user_unmap_range`.
use mathlib.Core.Path.{subst}
use sacabambaspos.Base.{
  ℕ, zero, suc, ◌+◌, ◌*◌, ◌%◌, ◌≡◌, inl, inr, refl, sym, ◌∙◌, ap, arith, Bool, true, false, Option,
  ◌==◌, Bool-cases, Option-cases, ◌||◌, bit_or, ltb, leb, test_bit, test_bit-bit_or,
}
use sacabambaspos.Paging.{
  Vm, is_p, is_u, is_ps, pte_p, pte_w, pte_ps, user_base, user_top, index1, index2, nx, write_entry,
  pd_for, pt_for, map_2m, map_4k, protect_pages, protect, identity_pages, vm_ensure_identity,
  user_flags, vm_user_map, find_pt, unmap_pages, vm_user_unmap_range,
}
use sacabambaspos.Paging.Entry.{is_u-bit_or}
use sacabambaspos.Paging.Window.{Places, entry_block, InWindow, IsPlaced, IsIsolated}
use sacabambaspos.Paging.Isolation.{write_entry-IsIsolated, absent-IsPlaced, Extends-refl}
use sacabambaspos.Paging.Isolation.Levels.{Walked}
use sacabambaspos.Paging.Isolation.Walks.{
  IsUser, InWindow-1, Kept, Kept-trans, Walked-Kept, mega_block, giga_block, pd_for-Walked,
  pt_for-Walked,
}

pub Kept-refl : {m : Places} {vm : Vm} → IsIsolated m vm → Kept m vm
Kept-refl {m} ok = record { places = m; extends = Extends-refl m; isolated = ok }

-- A write after a walk.
write-Kept :
    {m : Places} {k q : ℕ} {r : Option ℕ × Vm} (w : Walked m k q r) (t i e : ℕ)
    → IsPlaced w.places t i e
    → Kept m (write_entry t i e r.1)
write-Kept w t i e placed = record {
  places = w.places;
  extends = w.extends;
  isolated = write_entry-IsIsolated t i e placed w.isolated;
}

or_bit : (k e f : ℕ) {b : Bool} → test_bit e k ≡ b → test_bit (bit_or e f) k ≡ b || test_bit f k
or_bit k e f h = test_bit-bit_or e f k ∙ ap (λ b. b || test_bit f k) h

-- A large page that is closed to ring 3 may stand anywhere.
closed-IsPlaced : (m : Places) (t i e : ℕ) → is_ps e ≡ true → is_u e ≡ false → IsPlaced m t i e
closed-IsPlaced m t i e large shut = record {
  link = λ k l p s. absurd (differ (sym large ∙ s));
  user = λ l p u. absurd (differ (sym u ∙ shut));
}
  where
    differ : true ≡ false → ⊥
    differ d = cc

large-IsPlaced :
    (m : Places) (t i pa flags : ℕ)
    → pa % 4096 ≡ 0
    → is_u flags ≡ false
    → IsPlaced m t i (bit_or (bit_or pa pte_ps) flags)
large-IsPlaced m t i pa flags aligned closed =
    closed-IsPlaced m t i _
      (or_bit 7 _ flags (or_bit 7 _ pte_ps refl) ∙ or_true (is_ps pa) (is_ps flags))
      (or_bit 2 _ flags (is_u-bit_or pa pte_ps aligned) ∙ closed)
  where
    or_true : (a b : Bool) → (a || true) || b ≡ true
    or_true a b = ground arith

pub map_2m-Kept :
    {m : Places} {vm : Vm} (va pa flags : ℕ)
    → pa % 4096 ≡ 0
    → is_u flags ≡ false
    → IsIsolated m vm
    → Kept m (map_2m va pa flags vm).1
unfolding map_2m
map_2m-Kept {m} {vm} va pa flags aligned closed ok =
    let w : Walked m 2 (giga_block va) (pd_for va false vm) =
      pd_for-Walked va false (λ asked. cc) ok in
    elim (Option-cases (pd_for va false vm).0) [
      | inl refused ↦ rw (refused, map_2m) (Walked-Kept w)
      | inr (t, given) ↦
          rw (given, map_2m)
            (write-Kept w t (index2 va) (bit_or (bit_or pa pte_ps) flags)
              (large-IsPlaced w.places t (index2 va) pa flags aligned closed))
    ]

-- A small page may be open to ring 3 where it is in the window.
pub map_4k-Kept :
    {m : Places} {vm : Vm} (va pa flags : ℕ) (user : Bool)
    → (user ≡ true → IsUser va)
    → (is_u (bit_or pa flags) ≡ true → IsUser va)
    → IsIsolated m vm
    → Kept m (map_4k va pa flags user vm).1
unfolding map_4k
map_4k-Kept {m} {vm} va pa flags user inside shown ok =
    let w : Walked m 1 (mega_block va) (pt_for va user vm) = pt_for-Walked va user inside ok in
    elim (Option-cases (pt_for va user vm).0) [
      | inl refused ↦ rw (refused, map_4k) (Walked-Kept w)
      | inr (t, given) ↦
          rw (given, map_4k)
            (write-Kept w t (index1 va) (bit_or pa flags) (placed w t (w.found t given)))
    ]
  where
    placed :
        (w : Walked m 1 (mega_block va) (pt_for va user vm)) (t : ℕ)
        → (w.places.level t ≡ 1) × (w.places.block t ≡ mega_block va)
        → IsPlaced w.places t (index1 va) (bit_or pa flags)
    placed w t at = record {
      link = λ k l p s. absurd (omega (arith, l, at));
      user = λ l p u. (
        subst (λ k. InWindow k (entry_block w.places t (index1 va))) (sym at.0)
            (subst (λ q. InWindow 1 (q * 512 + index1 va)) (sym at.1) (InWindow-1 va (shown u))),
        inl at.0,
      );
    }

protect_pages-Kept :
    (n : ℕ) {m : Places} {vm : Vm} (a flags : ℕ)
    → a % 4096 ≡ 0
    → is_u flags ≡ false
    → IsIsolated m vm
    → Kept m (protect_pages n a flags vm).1
unfolding protect_pages
protect_pages-Kept zero a flags aligned closed ok = Kept-refl ok
protect_pages-Kept (suc n) {m} {vm} a flags aligned closed ok =
    let w : Kept m (map_4k a a flags false vm).1 =
      map_4k-Kept a a flags false (λ asked. cc)
        (λ u. absurd (differ (sym (is_u-bit_or a flags aligned ∙ closed) ∙ u))) ok in
    elim (Bool-cases (map_4k a a flags false vm).0) [
      | inl done ↦
          rw (done, protect_pages)
            (Kept-trans w.extends
              (protect_pages-Kept n (a + 4096) flags (omega arith) closed w.isolated))
      | inr refused ↦ rw (refused, protect_pages) w
    ]
  where
    differ : false ≡ true → ⊥
    differ d = cc

pub protect-Kept :
    {m : Places} {vm : Vm} (start end flags : ℕ)
    → is_u flags ≡ false
    → IsIsolated m vm
    → Kept m (protect start end flags vm).1
unfolding protect
protect-Kept start end flags closed ok = protect_pages-Kept _ _ flags (omega arith) closed ok

nx-closed : (vm : Vm) → is_u (nx vm) ≡ false
nx-closed vm = elim (Bool-cases vm.nx_ok) [
  | inl has ↦ rw has refl
  | inr not_there ↦ rw not_there refl
]

pub data_flags-closed : (vm : Vm) → is_u (bit_or (bit_or pte_p pte_w) (nx vm)) ≡ false
data_flags-closed vm = test_bit-bit_or (bit_or pte_p pte_w) (nx vm) 2 ∙ nx-closed vm

pub rodata_flags-closed : (vm : Vm) → is_u (bit_or pte_p (nx vm)) ≡ false
rodata_flags-closed vm = test_bit-bit_or pte_p (nx vm) 2 ∙ nx-closed vm

-- The entry of `vm_ensure_identity`.
identity-IsPlaced :
    (m : Places) (vm : Vm) (t i a : ℕ)
    → a % 4096 ≡ 0
    → IsPlaced m t i (bit_or (bit_or (bit_or (bit_or a pte_ps) pte_p) pte_w) (nx vm))
identity-IsPlaced m vm t i a aligned =
    closed-IsPlaced m t i _
      (or_bit 7 _ (nx vm) (or_bit 7 _ pte_w (or_bit 7 _ pte_p (or_bit 7 _ pte_ps refl)))
        ∙ or_true (is_ps a) (is_ps (nx vm)))
      (or_bit 2 _ (nx vm) (or_bit 2 _ pte_w (or_bit 2 _ pte_p (is_u-bit_or a pte_ps aligned)))
        ∙ nx-closed vm)
  where
    or_true : (b c : Bool) → (((b || true) || false) || false) || c ≡ true
    or_true b c = ground arith

identity_pages-Kept :
    (n : ℕ) {m : Places} {vm : Vm} (a : ℕ)
    → a % 4096 ≡ 0
    → IsIsolated m vm
    → Kept m (identity_pages n a vm)
unfolding identity_pages
identity_pages-Kept zero a aligned ok = Kept-refl ok
identity_pages-Kept (suc n) {m} {vm} a aligned ok =
    let w : Walked m 2 (giga_block a) (pd_for a false vm) =
      pd_for-Walked a false (λ asked. cc) ok in
    elim (Option-cases (pd_for a false vm).0) [
      | inl refused ↦ rw (refused, identity_pages) (Walked-Kept w)
      | inr (t, given) ↦ elim (Bool-cases (is_p ((pd_for a false vm).1.tabs t (index2 a)))) [
        | inl present ↦
            rw (given, present, identity_pages)
              (Kept-trans w.extends
                (identity_pages-Kept n (a + 0x20_0000) (omega arith) w.isolated))
        | inr absent ↦
            let h : Kept m (
                write_entry t (index2 a)
                  (bit_or (bit_or (bit_or (bit_or a pte_ps) pte_p) pte_w)
                    (nx (pd_for a false vm).1))
                  (pd_for a false vm).1) =
              write-Kept w t (index2 a) _
                (identity-IsPlaced w.places (pd_for a false vm).1 t (index2 a) a aligned) in
            rw (given, absent, identity_pages)
              (Kept-trans h.extends
                (identity_pages-Kept n (a + 0x20_0000) (omega arith) h.isolated))
      ]
    ]

pub vm_ensure_identity-Kept :
    {m : Places} {vm : Vm} (base len : ℕ)
    → IsIsolated m vm
    → Kept m (vm_ensure_identity base len vm)
unfolding vm_ensure_identity
vm_ensure_identity-Kept {m} {vm} base len ok = elim (Bool-cases (vm.pml4 == 0 || len == 0)) [
  | inl skipped ↦ rw skipped (Kept-refl ok)
  | inr mapped ↦ rw mapped (identity_pages-Kept _ _ (omega arith) ok)
]

pub vm_user_map-Kept :
    {m : Places} {vm : Vm} (va pa : ℕ) (writable executable : Bool)
    → IsIsolated m vm
    → Kept m (vm_user_map va pa writable executable vm).1
unfolding vm_user_map
vm_user_map-Kept {m} {vm} va pa writable executable ok =
    elim (Bool-cases (ltb va user_base || leb user_top va)) [
      | inl outside ↦ rw outside (Kept-refl ok)
      | inr inside ↦ rw inside (
          map_4k-Kept va pa (user_flags writable executable vm) true (λ asked. in_window inside)
            (λ u. in_window inside) ok)
    ]
  where
    in_window : ltb va user_base || leb user_top va ≡ false → IsUser va
    in_window h = (ground arith, ground arith)

unmap_pages-Kept :
    (n : ℕ) {m : Places} {vm : Vm} (va : ℕ) → IsIsolated m vm → Kept m (unmap_pages n va vm)
unfolding unmap_pages
unmap_pages-Kept zero va ok = Kept-refl ok
unmap_pages-Kept (suc n) {m} {vm} va ok = elim (Option-cases (find_pt va vm)) [
  | inl no_table ↦ rw (no_table, unmap_pages) (unmap_pages-Kept n (va + 4096) ok)
  | inr (t, there) ↦
      rw (there, unmap_pages)
        (unmap_pages-Kept n (va + 4096)
          (write_entry-IsIsolated t (index1 va) 0 (absent-IsPlaced m t (index1 va) 0 refl) ok))
]

pub vm_user_unmap_range-Kept :
    {m : Places} {vm : Vm} (va len : ℕ) → IsIsolated m vm → Kept m (vm_user_unmap_range va len vm)
unfolding vm_user_unmap_range
vm_user_unmap_range-Kept va len ok = unmap_pages-Kept _ _ ok
