-- ===== src/Initrc.antt =====
-- src/kernel/kmain.c, `run_initrc`: the lines of the boot script that go to `shell_run_line`.
mod Tests
use mathlib.Core.List.{append-nil, append_assoc}
use sacabambaspos.Base.{
  ℕ, zero, suc, ◌+◌, ◌≤◌, ◌<◌, ◌≡◌, ◌≢◌, refl, sym, ap, ◌∙◌, arith, Bool, true, false, not, ◌&&◌,
  ◌||◌, List, [], ◌∷◌, ◌++◌, length, ltb, ◌==◌, if◌then◌else◌, inl, inr, Bool-cases, length-append,
}
use sacabambaspos.Libk.Strings.{chars}
use sacabambaspos.Shell.Tokens.{skip_spaces}

abbrev pub line_room : ℕ
line_room = 239

-- `if(*p && *p!='#') shell_run_line(p, 1);` behind the leading spaces
unfoldable pub emit : List ℕ → List (List ℕ)
unfolding skip_spaces
emit line = elim (skip_spaces (chars line)) [
  | [] ↦ []
  | c ∷ p ↦ if c == b'#' then [] else (c ∷ p) ∷ []
]

-- The loop, with `line` read so far; the end of the script counts as a newline.
unfoldable pub script_lines : List ℕ → List ℕ → List (List ℕ)
script_lines [] line = emit line
script_lines (c ∷ s) line =
    let next = script_lines s in
    if c == b'\r'
    then next line
    else if c == b'\n'
    then emit line ++ next []
    else if ltb (length line) line_room
    then next (line ++ (c ∷ []))
    else next line

unfoldable pub run_initrc : ℕ → List ℕ → List (List ℕ)
unfolding script_lines
run_initrc base s = if base == 0 || length s == 0 then [] else script_lines s []

-- No character ends a line or the string.
abbrev pub Plain : List ℕ → Type 0
Plain [] = Unit
Plain (c ∷ w) = (c ≢ b'\n') × (c ≢ b'\r') × (c ≢ 0) × Plain w

-- A line that the shell is to see: it fits, and begins with neither a space nor a `#`.
abbrev pub IsCommand : List ℕ → Type 0
IsCommand [] = ⊥
IsCommand (c ∷ w) = (c ≢ b' ') × (c ≢ b'#') × Plain (c ∷ w) × (length (c ∷ w) ≤ line_room)

abbrev pub AllCommands : List (List ℕ) → Type 0
AllCommands [] = Unit
AllCommands (w ∷ ws) = IsCommand w × AllCommands ws

-- The script of the lines, each ended as on DOS or as on Unix.
abbrev pub script : Bool → List (List ℕ) → List ℕ
script dos [] = []
script dos (w ∷ ws) = w ++ (if dos then b'\r' ∷ b'\n' ∷ script dos ws else b'\n' ∷ script dos ws)

script_lines-line :
    (w rest line : List ℕ)
    → Plain w
    → length line + length w ≤ line_room
    → script_lines (w ++ rest) line ≡ script_lines rest (line ++ w)
unfolding script_lines
script_lines-line [] rest line h fits = ap (script_lines rest) (sym (append-nil line))
script_lines-line (c ∷ w) rest line h fits =
    rw (other.0, other.1, room)
      (script_lines-line w rest (line ++ (c ∷ [])) h.3 (omega (arith, length-append line (c ∷ [])))
        ∙ ap (script_lines rest) (append_assoc line (c ∷ []) w))
  where
    other : (c == b'\r' ≡ false) × (c == b'\n' ≡ false)
    other = (ground arith, ground arith)

    room : ltb (length line) line_room ≡ true
    room = ground arith

chars-Plain : (w : List ℕ) → Plain w → chars w ≡ w
chars-Plain [] h = refl
chars-Plain (c ∷ w) h = ground (arith, chars-Plain w)

emit-command : (w : List ℕ) → IsCommand w → emit w ≡ w ∷ []
unfolding emit skip_spaces
emit-command [] h = absurd h
emit-command (c ∷ w) h = ap pick (ap skip_spaces (chars-Plain (c ∷ w) h.2) ∙ stripped) ∙ kept
  where
    no_space : c == b' ' ≡ false
    no_space = ground arith

    no_hash : c == b'#' ≡ false
    no_hash = ground arith

    pick : List ℕ → List (List ℕ)
    pick line = elim line as (λ l. List (List ℕ)) [
      | [] ↦ []
      | d ∷ p ↦ if d == b'#' then [] else (d ∷ p) ∷ []
    ]

    stripped : skip_spaces (c ∷ w) ≡ c ∷ w
    stripped = rw no_space refl

    kept : pick (c ∷ w) ≡ (c ∷ w) ∷ []
    kept = rw no_hash refl

IsCommand-Plain : (w : List ℕ) → IsCommand w → Plain w × (length w ≤ line_room)
IsCommand-Plain [] h = absurd h
IsCommand-Plain (c ∷ w) h = (h.2, h.3)

-- From a script of lines that each fit and begin with neither a space nor a `#`, ended as on Unix or as on
-- DOS, `run_initrc` hands every line to the shell as it is, in order.
pub script_lines-script :
    (dos : Bool) (ws : List (List ℕ)) → AllCommands ws → script_lines (script dos ws) [] ≡ ws
unfolding script_lines emit skip_spaces
script_lines-script dos [] h = refl
script_lines-script dos (w ∷ ws) h =
    let (plain, fits) = IsCommand-Plain w h.0 in
    script_lines-line w (ended dos) [] plain (omega arith)
    ∙ line_end (script_lines-script dos ws h.1) dos
  where
    ended : Bool → List ℕ
    ended d = if d then b'\r' ∷ b'\n' ∷ script dos ws else b'\n' ∷ script dos ws

    line_end : script_lines (script dos ws) [] ≡ ws → (d : Bool) → script_lines (ended d) w ≡ w ∷ ws
    line_end rest true = rw (emit-command w h.0, rest) refl
    line_end rest false = rw (emit-command w h.0, rest) refl
