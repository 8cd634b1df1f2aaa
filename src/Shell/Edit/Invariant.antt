-- ===== src/Shell/Edit/Invariant.antt =====
-- Every key keeps the editor in its row and in its buffer, and the row shows the line.
use sacabambaspos.Base.{
  ℕ, zero, suc, ◌+◌, ◌-◌, ◌≤◌, ◌<◌, arith, List, [], ◌∷◌, ◌++◌, length, take, drop, get_or, ◌==◌,
  Bool-cases, inl, inr,
}
use sacabambaspos.Shell.Tokens.{line_max}
use sacabambaspos.Shell.Printed.{Printable}
use sacabambaspos.Shell.Line.{Line, text, chars_of, recall}
use sacabambaspos.Shell.Line.Refine.{length-text, insert_at, erase_at, recall_lem}
use sacabambaspos.Shell.Edit.{Env, Editor, redraw, turn_to, place_cursor}
use sacabambaspos.Shell.Edit.Shown.{Shows, setxy-Shows, render_line-Shows}

-- Lines that this row and the buffer have room for.
abbrev pub AllFit : ℕ → ℕ → List (List ℕ) → Type 0
AllFit w px [] = Unit
AllFit w px (h ∷ hs) = ((px + length h < w) × (length h < line_max) × Printable h) × AllFit w px hs

-- The editor on a row of width `w`.
pub record OnScreen (w : ℕ) (env : Env) (e : Editor) : Type 0 where
  pub shown : Shows w env.px env.py (chars_of e.line) e.console
  pub cur_in : e.line.cur ≤ e.line.len
  pub small : e.line.len < line_max
  pub printable : Printable (chars_of e.line)
  pub hist_in : e.hist_at ≤ length env.hist

Printable-take : (i : ℕ) (xs : List ℕ) → Printable xs → Printable (take i xs)
Printable-take zero xs h = tt
Printable-take (suc i) [] h = tt
Printable-take (suc i) (x ∷ xs) h = (h.0, Printable-take i xs h.1)

Printable-drop : (i : ℕ) (xs : List ℕ) → Printable xs → Printable (drop i xs)
Printable-drop zero xs h = h
Printable-drop (suc i) [] h = tt
Printable-drop (suc i) (x ∷ xs) h = Printable-drop i xs h.1

Printable-append : (xs ys : List ℕ) → Printable xs → Printable ys → Printable (xs ++ ys)
Printable-append [] ys h k = k
Printable-append (x ∷ xs) ys h k = (h.0, Printable-append xs ys h.1 k)

pub Printable-insert_at :
    (i c : ℕ) (xs : List ℕ) → 32 ≤ c → Printable xs → Printable (insert_at i c xs)
unfolding insert_at
Printable-insert_at i c xs low h =
    Printable-append (take i xs) (c ∷ drop i xs) (Printable-take i xs h)
      (low, Printable-drop i xs h)

pub Printable-erase_at : (i : ℕ) (xs : List ℕ) → Printable xs → Printable (erase_at i xs)
unfolding erase_at
Printable-erase_at i xs h =
    Printable-append (take i xs) (drop (i + 1) xs) (Printable-take i xs h)
      (Printable-drop (i + 1) xs h)

-- A redraw with a new line.
pub redraw-OnScreen :
    {w : ℕ} {env : Env} {e : Editor} (pad : ℕ) (l : Line) (k : ℕ)
    → OnScreen w env e
    → Printable (chars_of l)
    → l.cur ≤ l.len
    → l.len < line_max
    → e.line.len ≤ l.len + pad
    → env.px + l.len + pad < w
    → k ≤ length env.hist
    → OnScreen w env (redraw env pad (record e { line = l; hist_at = k }))
unfolding redraw
redraw-OnScreen {w} {env} {e} pad l k o p cur small reach room hist_in = record {
  shown =
      render_line-Shows env.pak env.mem w env.px env.py (chars_of e.line) (chars_of l) pad e.console
        o.shown p (omega (arith, length-text e.line.len e.line.b, length-text l.len l.b))
        (omega (arith, length-text l.len l.b, o.shown.width));
  cur_in = cur;
  small = small;
  printable = p;
  hist_in = hist_in;
}

-- A key that only moves the edit position.
pub moved-OnScreen :
    {w : ℕ} {env : Env} {e : Editor} (cur : ℕ)
    → OnScreen w env e
    → cur ≤ e.line.len
    → OnScreen w env (record e { line = record e.line { cur = cur } })
moved-OnScreen cur o h = record {
  shown = o.shown;
  cur_in = h;
  small = o.small;
  printable = o.printable;
  hist_in = o.hist_in;
}

pub place_cursor-OnScreen :
    {w : ℕ} {env : Env} {e : Editor} → OnScreen w env e → OnScreen w env (place_cursor env e)
unfolding place_cursor
place_cursor-OnScreen o = record {
  shown = setxy-Shows _ _ o.shown;
  cur_in = o.cur_in;
  small = o.small;
  printable = o.printable;
  hist_in = o.hist_in;
}

fit_at :
    (w px : ℕ) (hs : List (List ℕ)) (i : ℕ)
    → AllFit w px hs
    → i < length hs
    → (px + length (get_or hs i []) < w)
      × (length (get_or hs i []) < line_max)
      × Printable (get_or hs i [])
fit_at w px [] i h low = absurd (omega arith)
fit_at w px (x ∷ hs) zero h low = h.0
fit_at w px (x ∷ hs) (suc i) h low = fit_at w px hs i h.1 (omega arith)

pub in_row_len : {w : ℕ} {env : Env} {e : Editor} → OnScreen w env e → env.px + e.line.len < w
in_row_len {e = e} o = omega (arith, o.shown.in_row, o.shown.width, length-text e.line.len e.line.b)

emptied-Printable : (l : Line) → Printable (chars_of (record l { len = 0; cur = 0 }))
unfolding text
emptied-Printable l = tt

recall-Printable : (h : List ℕ) (l : Line) → Printable h → Printable (chars_of (recall h l))
recall-Printable h l k = rw (recall_lem h l) k

recall-OnScreen :
    {w : ℕ} {env : Env} {e : Editor} (h : List ℕ) (want : ℕ)
    → OnScreen w env e
    → (env.px + length h < w) × (length h < line_max) × Printable h
    → want ≤ length env.hist
    → OnScreen w env (
        redraw env
          (e.line.len - (recall h e.line).len)
          (record e { line = recall h e.line; hist_at = want }))
unfolding recall
recall-OnScreen {w} {env} {e} h want o fits k =
    redraw-OnScreen (e.line.len - length h) (recall h e.line) want o
      (recall-Printable h e.line fits.2) (omega arith) (omega (arith, fits.1)) (omega arith)
      (omega (arith, in_row_len o, fits.0)) k

pub turn_to-OnScreen :
    {w : ℕ} {env : Env} {e : Editor} (want : ℕ)
    → AllFit w env.px env.hist
    → want ≤ length env.hist
    → OnScreen w env e
    → OnScreen w env (turn_to env want e)
unfolding turn_to
turn_to-OnScreen {w} {env} {e} want fits h o = elim (Bool-cases (want == length env.hist)) [
  | inl fresh ↦ rw fresh (
      redraw-OnScreen (e.line.len - 0) (record e.line { len = 0; cur = 0 }) want o
        (emptied-Printable e.line) (omega arith) (omega arith) (omega arith)
        (omega (arith, in_row_len o)) h)
  | inr old ↦ rw old (
      recall-OnScreen (get_or env.hist want []) want o
        (fit_at w env.px env.hist want fits (ground arith)) h)
]
