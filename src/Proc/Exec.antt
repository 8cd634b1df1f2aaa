-- ===== src/Proc/Exec.antt =====
-- src/kernel/proc.c: `proc_exec` and `proc_fault`. `user_enter` is assembly and an argument.
use sacabambaspos.Base.{
  ℕ, ◌+◌, ◌-◌, Bool, true, false, ◌&&◌, Option, none, some, List, leb, ◌==◌, if◌then◌else◌, ◌▷◌,
}
use sacabambaspos.Libk.{Mem}
use sacabambaspos.Exc.{exc_name}
use sacabambaspos.Console.{Console, con_fg, con_putc, con_puts}
use sacabambaspos.Console.Numbers.{con_put_u64, con_put_hex}
use sacabambaspos.Console.Log.{put, c_lgrey, c_dgrey, c_lred, c_white}
use sacabambaspos.Proc.{Proc, Status, good, bad_elf, no_memory, elf_run, u64_at}
use sacabambaspos.Proc.Pak.{Pak, pak_find}

-- What `user_enter` does with the entry, the stack and the state: the exit code and the state behind it.
abbrev pub Enter : Type 0
Enter = ℕ → ℕ → Proc → ℕ × Proc

-- The file of the entry at `e`, if it lies in the archive: where it begins and its size.
unfoldable pub pak_file : Pak → ℕ → Mem → Option (ℕ × ℕ)
unfolding u64_at
pak_file pak e m =
    let off = u64_at m (e + 24) in
    let size = u64_at m (e + 32) in
    if leb off pak.size && leb size (pak.size - off) then some (pak.base + off, size) else none

unfoldable pub run_file : Enter → Option (ℕ × ℕ) → Proc → Status × ℕ × Proc
unfolding elf_run
run_file enter none s = (bad_elf, 0, s)
run_file enter (some (file, size)) s = elf_run enter file size s

abbrev pub on_console : (Console → Console) → Proc → Proc
on_console f s = record s { console = f s.console }

unfoldable pub refused : List ℕ → Status → Console → Console
refused name no_memory c =
    c
    ▷ con_fg c_lred
    ▷ put "  can't run "
    ▷ con_puts name
    ▷ con_fg c_dgrey
    ▷ put "  (out of memory)\n"
refused name other c =
    c ▷ con_fg c_lred ▷ put "  can't run " ▷ con_puts name ▷ con_fg c_dgrey ▷ put "  (bad ELF)\n"

-- A code from 0x180 on stands for a fault, which has been reported.
unfoldable pub finished : ℕ → Console → Console
finished code c =
    let c' = con_fg c_lgrey c in
    if leb 0x180 code
    then c'
    else if code == 0
    then c'
    else c' ▷ con_fg c_dgrey ▷ put "  exit code " ▷ con_put_u64 code ▷ con_putc b'\n'

unfoldable pub report : List ℕ → Status → ℕ → Console → Console
report name good code c = finished code c
report name bad_elf code c = refused name bad_elf c
report name no_memory code c = refused name no_memory c

-- `false` is the -1 of a name that is no program's.
unfoldable pub proc_exec : Enter → Option Pak → List ℕ → Proc → Bool × Proc
unfolding run_file report
proc_exec enter none name s = (false, s)
proc_exec enter (some pak) name s =
    let m = s.image.vm.heap.mem in
    elim (pak_find (some pak) name m) [
      | none ↦ (false, s)
      | some e ↦
          let (status, code, s') = run_file enter (pak_file pak e m) s in
          (true, on_console (report name status code) s')
    ]

-- What `proc_fault` shows, and the code that it hands to `user_abort`; `cr2` is the address register.
unfoldable pub proc_fault : ℕ → ℕ → ℕ → Console → ℕ × Console
proc_fault vec rip cr2 c =
    let c' =
      c
      ▷ con_fg c_lred
      ▷ put "\n  process killed: "
      ▷ con_fg c_white
      ▷ con_puts (exc_name vec)
      ▷ con_fg c_lgrey
      ▷ put "  rip="
      ▷ con_put_hex rip in
    (0x180 + vec, con_putc b'\n' (if vec == 14 then c' ▷ put "  addr=" ▷ con_put_hex cr2 else c'))
