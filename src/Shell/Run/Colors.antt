-- ===== src/Shell/Run/Colors.antt =====
-- The colour that `render_line` gives to a first word without quotes tells what comes of running the line.
use sacabambaspos.Base.{◌≡◌, Bool, true, Option, none, some, ◌⊎◌}
use sacabambaspos.Proc.{Proc}
use sacabambaspos.Proc.Pak.{Pak}
use sacabambaspos.Shell.Builtins.{Facts, Argv, Cmd}
use sacabambaspos.Shell.Run.{back, Flow, call_builtin}

-- What comes of a first word: a builtin or a program runs, `ran` being whether there is a program, or neither.
abbrev Runs : Facts → Argv → Proc → Option Cmd → Bool → Proc → Flow → Type 0
Runs k argv s o ran s' flow =
    ((b : Cmd) × (o ≡ some b) × (flow ≡ call_builtin b.fn argv k s))
    ⊎ ((o ≡ none) × (ran ≡ true) × (flow ≡ back s'))
