-- ===== src/Shell/Run.antt =====
-- src/kernel/shell.c: `shell_run_line`, behind its tokenizer, and the loop of `shell_main`.
pub mod Commands
pub mod Colors
use sacabambaspos.Base.{
  ℕ, zero, suc, ◌+◌, ◌-◌, Bool, true, false, ◌&&◌, Option, none, some, List, [], ◌∷◌, length, ltb,
  ◌==◌, if◌then◌else◌, ◌▷◌,
}
use sacabambaspos.Libk.{Mem, strlen}
use sacabambaspos.Heap.{Heap}
use sacabambaspos.Console.{Console, con_fg, con_putc, con_puts}
use sacabambaspos.Console.Log.{put, c_dgrey, c_lgreen, c_lred, c_white}
use sacabambaspos.Proc.{Proc}
use sacabambaspos.Proc.Pak.{Pak}
use sacabambaspos.Proc.Exec.{Enter, on_console, proc_exec}
use sacabambaspos.Shell.Tokens.{Args, shell_args}
use sacabambaspos.Shell.Builtins.{
  Facts, Argv, Builtin, help, ls, clear, echo, ver, mem, uptime, fb, colors, fish, reboot, halt,
  Cmd, find_cmd, run_builtin,
}
use sacabambaspos.Shell.Render.{put_prompt, render_line}
use sacabambaspos.Shell.Line.{chars_of}
use sacabambaspos.Shell.Edit.{Editor, read_line, remember}

-- `reboot` and `halt` do not return.
pub data Flow : Type 0 where
  back : Proc → Flow
  stopped : Console → Flow

unfoldable pub too_many : Console → Console
too_many s = s ▷ con_fg c_lred ▷ put "  too many arguments (16 max)\n"

-- The line is shown as if it had been typed.
unfoldable pub echo_line : Option Pak → Mem → List ℕ → Console → Console
unfolding render_line put_prompt
echo_line pak m line s =
    let s' = put_prompt s in con_putc b'\n' (render_line pak m s'.cx s'.cy line 0 s')

unfoldable pub no_command : List ℕ → Console → Console
no_command name s =
    s
    ▷ con_fg c_lred
    ▷ put "  no such command: "
    ▷ con_fg c_white
    ▷ con_puts name
    ▷ con_fg c_dgrey
    ▷ put "   (try "
    ▷ con_fg c_lgreen
    ▷ put "help"
    ▷ con_fg c_dgrey
    ▷ put ")\n"

unfoldable pub returns : Builtin → Bool
returns reboot = false
returns halt = false
returns other = true

-- The commands read the heap as it is now.
abbrev pub now : Facts → Proc → Facts
now k s = record k { heap = s.image.vm.heap }

unfoldable pub call_builtin : Builtin → Argv → Facts → Proc → Flow
unfolding returns run_builtin
call_builtin fn argv k s =
    let c = run_builtin fn argv (now k s) s.console in
    if returns fn then back (record s { console = c }) else stopped c

unfoldable pub dispatch : Enter → Facts → List ℕ → Argv → Proc → Flow
unfolding call_builtin
dispatch enter k name argv s = elim (find_cmd name (strlen name)) [
  | some c ↦ call_builtin c.fn argv k s
  | none ↦
      let (ran, s') = proc_exec enter k.pak name s in
      if ran then back s' else back (on_console (no_command name) s')
]

unfoldable pub run_args : Enter → Facts → List ℕ → Bool → Args → Proc → Flow
unfolding dispatch echo_line
run_args enter k line echoed a s = elim a.argv [
  | [] ↦ back s
  | name ∷ more ↦
      let shown = on_console (echo_line k.pak s.image.vm.heap.mem line) s in
      if a.overflow
      then back (on_console too_many s)
      else dispatch enter k name (name ∷ more) (if echoed then shown else s)
]

-- `none` means that the rounds of the tokenizer ran out.
unfoldable pub shell_run_line : Enter → Facts → List ℕ → Bool → Proc → Option Flow
unfolding run_args
shell_run_line enter k line echoed s = elim (shell_args line) [
  | none ↦ none
  | some a ↦ some (run_args enter k line echoed a s)
]

pub record Shell : Type 0 where
  pub proc : Proc
  pub hist : List (List ℕ)
  pub b : Mem

-- The shell goes on, or the machine has stopped.
pub data Turn : Type 0 where
  next : Shell → List ℕ → Turn
  stops : Console → Turn

unfoldable pub after_line : List (List ℕ) → Mem → List ℕ → Option Flow → Option Turn
after_line hist b keys none = none
after_line hist b keys (some (back p)) = some (next (record { proc = p; hist = hist; b = b }) keys)
after_line hist b keys (some (stopped c)) = some (stops c)

unfoldable pub after_read : Enter → Facts → List ℕ → Editor → Shell → Option Turn
unfolding after_line
after_read enter k keys e s =
    let line = chars_of e.line in
    let p = record s.proc { console = e.console } in
    let hist = remember line s.hist in
    if length line == 0
    then some (next (record { proc = p; hist = s.hist; b = e.line.b }) keys)
    else after_line hist e.line.b keys (shell_run_line enter k line false p)

-- A round of the loop of `shell_main` on the keys that will be typed; `none` waits for more of them.
unfoldable pub shell_turn : Enter → Facts → List ℕ → Shell → Option Turn
unfolding after_read
shell_turn enter k keys s =
    elim (read_line s.hist k.pak s.proc.image.vm.heap.mem s.b keys (put_prompt s.proc.console)) [
      | none ↦ none
      | some (e, rest) ↦ after_read enter k rest e s
    ]
