-- ===== src/Shell/Edit.antt =====
-- src/kernel/shell.c: `read_line` as a step per key, and the history of `shell_main`.
pub mod Shown
pub mod Invariant
pub mod Steps
pub mod Spec
use sacabambaspos.Base.{
  ℕ, zero, suc, ◌+◌, ◌-◌, Bool, true, false, ◌&&◌, ◌||◌, Option, none, some, List, [], ◌∷◌, ◌++◌,
  length, get_or, drop, ltb, leb, ◌==◌, if◌then◌else◌, ◌▷◌,
}
use sacabambaspos.Keys.{key_up, key_down, key_left, key_right, key_del, key_home, key_end}
use sacabambaspos.Libk.{Mem, store}
use sacabambaspos.Console.{Console, con_setxy, con_putc}
use sacabambaspos.Proc.Pak.{Pak}
use sacabambaspos.Shell.Tokens.{line_max}
use sacabambaspos.Shell.Render.{render_line}
use sacabambaspos.Shell.Line.{Line, chars_of, backspace, delete, left, right, insert, recall}

abbrev pub hist_max : ℕ
hist_max = 16

-- What stays while a line is read: where the prompt ended, the history, oldest line first, and the
-- archive that the colours ask for.
pub record Env : Type 0 where
  pub px : ℕ
  pub py : ℕ
  pub hist : List (List ℕ)
  pub pak : Option Pak
  pub mem : Mem

pub record Editor : Type 0 where
  pub line : Line
  pub hist_at : ℕ
  pub console : Console

unfoldable pub redraw : Env → ℕ → Editor → Editor
redraw env pad e = record e {
  console = render_line env.pak env.mem env.px env.py (chars_of e.line) pad e.console;
}

-- To line `want` of the history, or to an empty line behind it.
unfoldable pub turn_to : Env → ℕ → Editor → Editor
unfolding redraw
turn_to env want e =
    let l =
      if want == length env.hist
      then record e.line { len = 0; cur = 0 }
      else recall (get_or env.hist want []) e.line in
    redraw env (e.line.len - l.len) (record e { line = l; hist_at = want })

-- A key that stands for a character.
unfoldable pub key_char : Env → ℕ → Editor → Editor
key_char env c e =
    let l = e.line in
    if ltb c 0x20 || ltb 0x7E c
    then e
    else if leb e.console.cols (env.px + l.len + 2) || leb line_max (l.len + 1)
    then e
    else redraw env 0 (record e { line = insert c l })

-- The arrows up and down, and the rest.
unfoldable pub key_hist : Env → ℕ → Editor → Editor
key_hist env c e =
    if c == key_up
    then (if e.hist_at == 0 || ltb (length env.hist) (e.hist_at - 1)
        then e
        else turn_to env (e.hist_at - 1) e)
    else if c == key_down
    then (if ltb (length env.hist) (e.hist_at + 1) then e else turn_to env (e.hist_at + 1) e)
    else key_char env c e

-- The keys that move the edit position, and the rest.
unfoldable pub key_move : Env → ℕ → Editor → Editor
key_move env c e =
    let l = e.line in
    if c == key_left
    then record e { line = left l }
    else if c == key_right
    then record e { line = right l }
    else if c == key_home
    then record e { line = record l { cur = 0 } }
    else if c == key_end
    then record e { line = record l { cur = l.len } }
    else key_hist env c e

-- What a key does, but for the newline.
unfoldable pub key : Env → ℕ → Editor → Editor
key env c e =
    let l = e.line in
    if c == 8
    then (if l.cur == 0 then e else redraw env 1 (record e { line = backspace l }))
    else if c == key_del
    then (if leb l.len l.cur then e else redraw env 1 (record e { line = delete l }))
    else key_move env c e

-- The cursor before a key is read.
unfoldable pub place_cursor : Env → Editor → Editor
place_cursor env e = record e { console = con_setxy (env.px + e.line.cur) env.py e.console }

unfoldable pub enter : Env → Editor → Editor
enter env e = record e {
  line = record e.line { b = store e.line.b e.line.len 0 };
  console = e.console ▷ con_setxy (env.px + e.line.len) env.py ▷ con_putc b'\n';
}

-- `none` waits for more keys than there are; else the end of the line, and the keys behind it.
unfoldable pub read_keys : Env → List ℕ → Editor → Option (Editor × List ℕ)
unfolding key place_cursor enter
read_keys env [] e = none
read_keys env (c ∷ keys) e =
    let e' = place_cursor env e in
    let next = read_keys env keys (key env c e') in
    if c == b'\n' then some (enter env e', keys) else next

-- The prompt has been printed; the array holds what the last line left.
unfoldable pub read_line :
    List (List ℕ) → Option Pak → Mem → Mem → List ℕ → Console → Option (Editor × List ℕ)
unfolding read_keys
read_line hist pak mem b keys s =
    read_keys (record { px = s.cx; py = s.cy; hist = hist; pak = pak; mem = mem }) keys
      (record { line = record { b = b; len = 0; cur = 0 }; hist_at = length hist; console = s })

-- The history after a line that is not empty: the oldest of 16 makes room.
unfoldable pub remember : List ℕ → List (List ℕ) → List (List ℕ)
remember line hist = (if length hist == hist_max then drop 1 hist else hist) ++ (line ∷ [])
