-- ===== src/Shell/Run/Commands.antt =====
-- A line of quoted words runs the builtin that its first word names.
use sacabambaspos.Base.{
  ℕ, zero, suc, ◌+◌, ◌≤◌, ◌<◌, ◌≡◌, refl, ap, ◌∙◌, arith, Bool, false, Option, none, some, List, [],
  ◌∷◌, length, length-append, ◌-◌, take, if◌then◌else◌, bytes,
}
use sacabambaspos.Libk.{strlen, strncmp}
use sacabambaspos.Proc.{Proc, is_zero}
use sacabambaspos.Proc.Exec.{Enter, on_console, proc_exec}
use sacabambaspos.Shell.Tokens.{
  line_max, max_args, quote_all, Unquoted, AllUnquoted, shell_args, tokenize-quote_all,
}
use sacabambaspos.Shell.Builtins.{
  Facts, Argv, Builtin, help, ls, clear, echo, ver, mem, uptime, fb, colors, fish, reboot, halt,
  Cmd, cmds, find_in, find_cmd,
}
use sacabambaspos.Shell.Run.{back, no_command, call_builtin, dispatch, run_args, shell_run_line}

-- The word that each builtin goes by.
abbrev pub word : Builtin → List ℕ
word help = bytes "help"
word ls = bytes "ls"
word clear = bytes "clear"
word echo = bytes "echo"
word ver = bytes "ver"
word mem = bytes "mem"
word uptime = bytes "uptime"
word fb = bytes "fb"
word colors = bytes "colors"
word fish = bytes "fish"
word reboot = bytes "reboot"
word halt = bytes "halt"

abbrev called : Option Cmd → Option Builtin
called none = none
called (some c) = some c.fn

find_cmd-word : (b : Builtin) → called (find_cmd (word b) (strlen (word b))) ≡ some b
unfolding find_cmd find_in cmds strlen strncmp is_zero
find_cmd-word help = refl
find_cmd-word ls = refl
find_cmd-word clear = refl
find_cmd-word echo = refl
find_cmd-word ver = refl
find_cmd-word mem = refl
find_cmd-word uptime = refl
find_cmd-word fb = refl
find_cmd-word colors = refl
find_cmd-word fish = refl
find_cmd-word reboot = refl
find_cmd-word halt = refl

word-Unquoted : (b : Builtin) → Unquoted (word b)
word-Unquoted help = omega arith
word-Unquoted ls = omega arith
word-Unquoted clear = omega arith
word-Unquoted echo = omega arith
word-Unquoted ver = omega arith
word-Unquoted mem = omega arith
word-Unquoted uptime = omega arith
word-Unquoted fb = omega arith
word-Unquoted colors = omega arith
word-Unquoted fish = omega arith
word-Unquoted reboot = omega arith
word-Unquoted halt = omega arith

dispatch-word :
    (enter : Enter) (k : Facts) (b : Builtin) (argv : Argv) (s : Proc)
    → dispatch enter k (word b) argv s ≡ call_builtin b argv k s
unfolding dispatch
dispatch-word enter k b argv s = go (find_cmd (word b) (strlen (word b))) (find_cmd-word b)
  where
    ran : Bool
    ran = (proc_exec enter k.pak (word b) s).0

    s' : Proc
    s' = (proc_exec enter k.pak (word b) s).1

    go :
        (o : Option Cmd)
        → called o ≡ some b
        → (elim o [
          | some c ↦ call_builtin c.fn argv k s
          | none ↦ if ran then back s' else back (on_console (no_command (word b)) s')
        ])
          ≡ call_builtin b argv k s
    go none e = cc
    go (some c) e = cc

pub take_all {ℓ} : {A : Type ℓ} (n : ℕ) (xs : List A) → length xs ≤ n → take n xs ≡ xs
take_all zero [] h = refl
take_all zero (x ∷ xs) h = absurd (omega arith)
take_all (suc n) [] h = refl
take_all (suc n) (x ∷ xs) h = ap (λ t. x ∷ t) (take_all n xs (omega arith))

length-quote_all : (ws : List (List ℕ)) → length ws ≤ length (quote_all ws)
unfolding quote_all
length-quote_all [] = omega arith
length-quote_all (w ∷ ws) =
    omega (arith, length-quote_all ws, length-append w (b'"' ∷ (b' ' ∷ quote_all ws)))

shell_args-quote_all :
    (ws : List (List ℕ))
    → AllUnquoted ws
    → length ws ≤ max_args
    → length (quote_all ws) < line_max
    → shell_args (quote_all ws) ≡ some (record { argv = ws; overflow = false })
unfolding shell_args
shell_args-quote_all ws h few fits = rw (take_all (line_max - 1) (quote_all ws) (omega arith)) (
    tokenize-quote_all (length (quote_all ws) + 1) 0 ws h (omega (arith, length-quote_all ws))
      (omega arith)
    ∙ rw (take_all (max_args - 0) ws few) (ground arith))

-- A line that fits, of at most 16 words in double quotes, none with such a quote inside, runs the builtin
-- that the first word names, with all of the words.
pub shell_run_line-quote_all :
    (enter : Enter) (k : Facts) (b : Builtin) (ws : List (List ℕ)) (s : Proc)
    → AllUnquoted ws
    → length ws < max_args
    → length (quote_all (word b ∷ ws)) < line_max
    → shell_run_line enter k (quote_all (word b ∷ ws)) false s
      ≡ some (call_builtin b (word b ∷ ws) k s)
unfolding shell_run_line run_args
shell_run_line-quote_all enter k b ws s h few fits =
    rw (shell_args-quote_all (word b ∷ ws) (word-Unquoted b, h) (omega arith) fits, shell_run_line)
      (ap some (dispatch-word enter k b (word b ∷ ws) s))
