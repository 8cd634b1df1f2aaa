-- ===== src/Proc/Init.antt =====
-- src/kernel/proc.c: `proc_init`. What is written to the model-specific registers is a list, in order.
use sacabambaspos.Base.{ℕ, ◌*◌, ◌^◌, bit_or, Option, none, some, List, [], ◌∷◌, bytes}
use sacabambaspos.Libk.{Mem}
use sacabambaspos.Descriptors.{Tss, set_rsp0}
use sacabambaspos.Console.{Console}
use sacabambaspos.Console.Log.{c_dgrey, klog_ok, klog_tagged}
use sacabambaspos.Proc.Pak.{Pak, pak_init}

-- What the call sets up.
pub record Armed : Type 0 where
  pub pak : Option Pak
  pub tss : Tss
  pub msrs : List (ℕ × ℕ)
  pub console : Console

abbrev pub wrmsrs : ℕ → ℕ → List (ℕ × ℕ)
wrmsrs efer entry =
    (0xC000_0080, bit_or efer 1)
    ∷ (0xC000_0081, bit_or (0x13 * 2 ^ 48) (0x08 * 2 ^ 32))
    ∷ (0xC000_0082, entry)
    ∷ (0xC000_0084, 0x700)
    ∷ []

-- The archive is `size` bytes at `base`; `sstack_top`, `entry` and `efer` are the top of the stack of system
-- calls, the address of `syscall_entry` and the register as it was.
unfoldable pub proc_init : ℕ → ℕ → Mem → ℕ → ℕ → ℕ → Tss → Console → Armed
unfolding set_rsp0 pak_init
proc_init base size m sstack_top entry efer tss s =
    let pak = pak_init base size m in
    record {
      pak = pak;
      tss = set_rsp0 sstack_top tss;
      msrs = wrmsrs efer entry;
      console = elim pak [
        | some p ↦ klog_ok (bytes "ring 3 armed: syscalls + user paging") s
        | none ↦ klog_tagged (bytes " INFO ") c_dgrey (bytes "no BIN.PAK - shell builtins only") s
      ];
    }
