-- ===== src/Shell/Tests.antt =====
-- The tokenizer and the line editor on concrete input.
use sacabambaspos.Base.{
  ℕ, zero, suc, ◌+◌, ◌-◌, ◌*◌, ◌<◌, ◌≡◌, refl, ap, ◌∙◌, arith, true, List, [], ◌∷◌, ◌++◌, none,
  some, take, length, ltb, get_or, false, replicate, bytes,
}
use sacabambaspos.Console.{Cell, Console}
use sacabambaspos.Proc.{Proc}
use sacabambaspos.Proc.Exec.{Enter}
use sacabambaspos.Shell.Builtins.{Facts, echo}
use sacabambaspos.Shell.Run.{call_builtin, shell_run_line}
use sacabambaspos.Shell.Run.Commands.{word, shell_run_line-quote_all}
use sacabambaspos.Keys.{key_left, key_up}
use sacabambaspos.Shell.Line.{text}
use sacabambaspos.Shell.Edit.{Env, Editor, enter, read_keys}
use sacabambaspos.Shell.Edit.Invariant.{OnScreen}
use sacabambaspos.Shell.Edit.Spec.{typed, edit_keys, read_keys_lem}
use sacabambaspos.Shell.Tokens.{Args, max_args, tokenize, quote_all, tokenize-quote_all}

-- Two words, the second with a space and the third empty.
abbrev three_words : List (List ℕ)
three_words = (b'l' ∷ b's' ∷ []) ∷ (b'a' ∷ b' ' ∷ b'b' ∷ []) ∷ [] ∷ []

tokenize-quote_all_example :
    tokenize 4 0 (quote_all three_words)
    ≡ some (record {
      argv = take (max_args - 0) three_words;
      overflow = ltb max_args (0 + length three_words);
    })
tokenize-quote_all_example =
    tokenize-quote_all 4 0 three_words
      (
        (omega arith, (omega arith, tt)),
        ((omega arith, (omega arith, (omega arith, tt))), (tt, tt)),
      )
      (omega arith) (omega arith)

-- A prompt of two columns on an empty screen, and one line of history.
abbrev empty_cell : Cell
empty_cell = record { ch = b' '; fg = 7; bg = 0 }

abbrev screen : Console
screen = record {
  cols = 20;
  rows = 2;
  cx = 2;
  cy = 0;
  cur_fg = 7;
  cur_bg = 0;
  cells = replicate 40 empty_cell;
  cursor_on = true;
  serial = [];
  paints = [];
}

abbrev prompted : Env
prompted = record {
  px = 2;
  py = 0;
  hist = (b'v' ∷ b'e' ∷ b'r' ∷ []) ∷ [];
  pak = none;
  mem = λ _. 0;
}

abbrev fresh : Editor
fresh = record { line = record { b = λ _. 0; len = 0; cur = 0 }; hist_at = 1; console = screen }

get_or-empty : (n i : ℕ) (d : Cell) → i < n → get_or (replicate n empty_cell) i d ≡ empty_cell
get_or-empty zero i d h = absurd (omega arith)
get_or-empty (suc n) zero d h = refl
get_or-empty (suc n) (suc i) d h = get_or-empty n i d (omega arith)

fresh-OnScreen : OnScreen 20 prompted fresh
unfolding text
fresh-OnScreen = record {
  shown = record {
    width = refl;
    valid = record {
      has_cols = omega arith;
      has_rows = omega arith;
      storage = refl;
      cx_in = omega arith;
      cy_in = omega arith;
    };
    in_row = omega arith;
    row_in = omega arith;
    shows = λ i inside.
        ap (λ (c : Cell). c.ch) (get_or-empty 40 (0 * 20 + (2 + i)) _ (omega arith)) ∙ ground arith;
  };
  cur_in = omega arith;
  small = omega arith;
  printable = tt;
  hist_in = omega arith;
}

read_keys_lem_example :
    (e' : Editor) × (read_keys prompted ((key_up ∷ key_left ∷ 8 ∷ b'x' ∷ []) ++ (b'\n' ∷ [])) fresh
      ≡ some (enter prompted e', []))
    × OnScreen 20 prompted e'
    × (typed e'
        ≡ edit_keys 20 2
            ((b'v' ∷ b'e' ∷ b'r' ∷ []) ∷ [])
            (key_up ∷ key_left ∷ 8 ∷ b'x' ∷ [])
            (typed fresh))
read_keys_lem_example =
    read_keys_lem (key_up ∷ key_left ∷ 8 ∷ b'x' ∷ []) [] (refl, (refl, (refl, (refl, tt))))
      (omega arith) fresh-OnScreen

abbrev returns_zero : Enter
returns_zero entry sp s = (0, s)

abbrev machine : Proc
machine = record {
  image = record {
    vm = record {
      heap = record { heap_at = 0; heap_end = 0; heap_start = 0; mem = λ a. 0 };
      tabs = λ t i. 0;
      pml4 = 0;
      nx_ok = false;
    };
    img_lo = 0;
    img_hi = 0;
  };
  console = screen;
}

abbrev facts : Facts
facts = record {
  total_ram = 0;
  heap_size = 0;
  fb_base = 0;
  fb_width = 0;
  fb_height = 0;
  fb_pitch = 0;
  fb_format = 0;
  heap = machine.image.vm.heap;
  ticks = 0;
  pak = none;
}

shell_run_line-quote_all_example :
    shell_run_line returns_zero facts
      (quote_all (word echo ∷ (b'h' ∷ b'i' ∷ []) ∷ []))
      false
      machine
    ≡ some (call_builtin echo (word echo ∷ (b'h' ∷ b'i' ∷ []) ∷ []) facts machine)
unfolding quote_all
shell_run_line-quote_all_example =
    shell_run_line-quote_all returns_zero facts echo ((b'h' ∷ b'i' ∷ []) ∷ []) machine
      ((omega arith, (omega arith, tt)), tt) (omega arith) (omega arith)

abbrev unknown : List ℕ
unknown = bytes "lx a"

abbrev words : Args
words = record { argv = bytes "lx" ∷ bytes "a" ∷ []; overflow = false }
