-- ===== src/Exc.antt =====
-- src/kernel/kmain.c: the names of the CPU's exceptions.
use sacabambaspos.Base.{ℕ, List, [], ◌∷◌, get_or, String, bytes}

abbrev exc_names : List String
exc_names =
    "#DE divide" ∷ "#DB debug" ∷ "NMI" ∷ "#BP breakpoint" ∷ "#OF overflow" ∷ "#BR bound"
    ∷ "#UD invalid opcode" ∷ "#NM fpu" ∷ "#DF double fault" ∷ "x87 seg" ∷ "#TS tss" ∷ "#NP segment"
    ∷ "#SS stack" ∷ "#GP general protection" ∷ "#PF page fault" ∷ "reserved" ∷ "#MF x87"
    ∷ "#AC align" ∷ "#MC machine check" ∷ "#XM simd" ∷ "#VE virt" ∷ "#CP cet" ∷ []

unfoldable pub exc_name : ℕ → List ℕ
exc_name v = bytes (get_or exc_names v "?")
