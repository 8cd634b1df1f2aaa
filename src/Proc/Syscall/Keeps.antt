-- ===== src/Proc/Syscall/Keeps.antt =====
-- Whatever a program asks for, the kernel's console, keyboard and heap stay valid and its page tables stay.
use sacabambaspos.Base.{ℕ, ◌≤◌, ◌≡◌, List, [], ◌∷◌}
use sacabambaspos.Console.{Console}
use sacabambaspos.Console.Cursor.{IsValid}
use sacabambaspos.Heap.Bounds as Heap
use sacabambaspos.Ring.Refine as Ring
use sacabambaspos.Kbd.{Kbd, bufsz}
use sacabambaspos.Proc.Syscall.{Sys, value, aborted, waits, syscall_dispatch}

-- What a call leaves true and leaves alone.
pub record Keeps (old s : Sys) : Type 0 where
  pub console : IsValid s.console
  pub ring : Ring.IsValid bufsz s.kbd.ring
  pub same_tabs : s.vm.tabs ≡ old.vm.tabs
  pub same_root : s.vm.pml4 ≡ old.vm.pml4
  pub heap : Heap.IsValid s.vm.heap
  pub grown :
      (old.vm.heap.heap_at ≤ s.vm.heap.heap_at) × (s.vm.heap.heap_end ≡ old.vm.heap.heap_end)
  pub quiet : old.requests ≡ [] → (s.vm ≡ old.vm) × (s.requests ≡ [])

-- A program's calls, one after another, up to its exit or a wait that does not end.
unfoldable pub calls : List (ℕ × ℕ × ℕ) → Sys → Sys
calls [] s = s
calls ((nr, a, b) ∷ more) s =
    let (outcome, s') = syscall_dispatch nr a b s in
    elim outcome [ value v ↦ calls more s' | aborted code ↦ s' | waits ↦ s' ]
