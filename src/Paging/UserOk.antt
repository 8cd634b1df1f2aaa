-- ===== src/Paging/UserOk.antt =====
-- src/kernel/paging.c, `vm_user_ok`: what the check of a user buffer guarantees.
use mathlib.Core.Path.{subst}
use sacabambaspos.Base.{
  ℕ, zero, suc, ◌+◌, ◌-◌, ◌*◌, ◌/◌, ◌≤◌, ◌<◌, ◌≡◌, inl, inr, arith, Bool, true, false, Bool-cases,
  ◌&&◌, ◌||◌, ltb, leb, ◌==◌, if◌then◌else◌,
}
use sacabambaspos.Paging.{Vm, user_base, user_top, page_ok, pages_ok, vm_user_ok}

both : (b c : Bool) → b && c ≡ true → (b ≡ true) × (c ≡ true)
both b c h = ground arith

-- The loop has checked page number `k`.
pages_ok-page_ok :
    (n k va : ℕ) (vm : Vm) → pages_ok n va vm ≡ true → k < n → page_ok (va + k * 4096) vm ≡ true
unfolding pages_ok
pages_ok-page_ok zero k va vm h low = absurd (omega arith)
pages_ok-page_ok (suc n) zero va vm h low =
    subst (λ a. page_ok a vm ≡ true) (omega arith)
      (both (page_ok va vm) (pages_ok n (va + 4096) vm) h).0
pages_ok-page_ok (suc n) (suc k) va vm h low =
    subst (λ a. page_ok a vm ≡ true) (omega arith)
      (pages_ok-page_ok n k (va + 4096) vm (both (page_ok va vm) (pages_ok n (va + 4096) vm) h).1
        (omega arith))

-- When `vm_user_ok` accepts the buffer of `len` bytes at `va`, every address in it is in the user window,
-- and its page has a present entry that is open to ring 3 in its page table.
pub vm_user_ok-page_ok :
    (va len a : ℕ) (vm : Vm)
    → vm_user_ok va len vm ≡ true
    → va ≤ a
    → a < va + len
    → (user_base ≤ a) × (a < user_top) × (page_ok (a / 4096 * 4096) vm ≡ true)
unfolding vm_user_ok
vm_user_ok-page_ok va len a vm h low high = elim (Bool-cases outside) [
  | inl out ↦ absurd (refused (subst (λ b. (if b then false else checked) ≡ true) out some_bytes))
  | inr within ↦ (
    ground arith,
    ground arith,
    subst (λ p. page_ok p vm ≡ true) (omega arith)
        (pages_ok-page_ok count (a / 4096 - va / 4096) (va / 4096 * 4096) vm
          (subst (λ b. (if b then false else checked) ≡ true) within some_bytes) (omega arith)),
  )
]
  where
    count : ℕ
    count = (va + len - va / 4096 * 4096 + 4095) / 4096

    checked : Bool
    checked = pages_ok count (va / 4096 * 4096) vm

    outside : Bool
    outside = ltb va user_base || leb user_top va || ltb (user_top - va) len

    not_empty : len == 0 ≡ false
    not_empty = ground arith

    some_bytes : (if outside then false else checked) ≡ true
    some_bytes =
        subst (λ b. (if b then true else if outside then false else checked) ≡ true) not_empty h

    refused : false ≡ true → ⊥
    refused e = cc
