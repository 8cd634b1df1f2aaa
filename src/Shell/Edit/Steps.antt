-- ===== src/Shell/Edit/Steps.antt =====
-- Each key keeps the editor on the screen.
use sacabambaspos.Base.{
  ℕ, ◌+◌, ◌-◌, ◌≤◌, ◌<◌, ◌≡◌, refl, arith, Bool, true, false, ◌||◌, length, ltb, leb, ◌==◌,
  if◌then◌else◌, Bool-cases, inl, inr,
}
use sacabambaspos.Keys.{key_up, key_down, key_left, key_right, key_del, key_home, key_end}
use sacabambaspos.Shell.Tokens.{line_max}
use sacabambaspos.Shell.Printed.{Printable}
use sacabambaspos.Shell.Line.{Line, chars_of, backspace, delete, left, right, insert}
use sacabambaspos.Shell.Line.Refine.{insert_lem, delete_lem, backspace_lem}
use sacabambaspos.Shell.Edit.{Env, Editor, redraw, key_char, key_hist, key_move, key}
use sacabambaspos.Shell.Edit.Invariant.{
  AllFit, OnScreen, Printable-insert_at, Printable-erase_at, redraw-OnScreen, moved-OnScreen,
  in_row_len, turn_to-OnScreen,
}

erased-OnScreen :
    {w : ℕ} {env : Env} {e : Editor} (l : Line)
    → OnScreen w env e
    → Printable (chars_of l)
    → l.cur ≤ l.len
    → l.len + 1 ≡ e.line.len
    → OnScreen w env (redraw env 1 (record e { line = l }))
erased-OnScreen l o p cur size =
    redraw-OnScreen 1 l _ o p cur (omega (arith, o.small)) (omega arith)
      (omega (arith, in_row_len o)) o.hist_in

backspace_size :
    (l : Line)
    → l.cur ≤ l.len
    → l.cur == 0 ≡ false
    → ((backspace l).cur ≤ (backspace l).len) × ((backspace l).len + 1 ≡ l.len)
unfolding backspace
backspace_size l h inside = ground arith

delete_size :
    (l : Line)
    → leb l.len l.cur ≡ false
    → ((delete l).cur ≤ (delete l).len) × ((delete l).len + 1 ≡ l.len)
unfolding delete
delete_size l inside = ground arith

insert_size :
    (c : ℕ) (l : Line)
    → l.cur ≤ l.len
    → ((insert c l).cur ≤ (insert c l).len) × ((insert c l).len ≡ l.len + 1)
unfolding insert
insert_size c l h = (omega arith, refl)

backspace-OnScreen :
    {w : ℕ} {env : Env} {e : Editor}
    → OnScreen w env e
    → e.line.cur == 0 ≡ false
    → OnScreen w env (redraw env 1 (record e { line = backspace e.line }))
backspace-OnScreen {w} {env} {e} o inside =
    let (cur, size) = backspace_size e.line o.cur_in inside in
    erased-OnScreen (backspace e.line) o
      (rw (backspace_lem e.line o.cur_in, inside)
        (Printable-erase_at (e.line.cur - 1) _ o.printable))
      cur size

delete-OnScreen :
    {w : ℕ} {env : Env} {e : Editor}
    → OnScreen w env e
    → leb e.line.len e.line.cur ≡ false
    → OnScreen w env (redraw env 1 (record e { line = delete e.line }))
delete-OnScreen {w} {env} {e} o inside =
    let (cur, size) = delete_size e.line inside in
    let before : ltb e.line.cur e.line.len ≡ true = ground (arith, inside) in
    erased-OnScreen (delete e.line) o
      (rw (delete_lem e.line, before) (Printable-erase_at e.line.cur _ o.printable)) cur size

insert-OnScreen :
    {w : ℕ} {env : Env} {e : Editor} (c : ℕ)
    → OnScreen w env e
    → 32 ≤ c
    → leb e.console.cols (env.px + e.line.len + 2) || leb line_max (e.line.len + 1) ≡ false
    → OnScreen w env (redraw env 0 (record e { line = insert c e.line }))
insert-OnScreen {w} {env} {e} c o low room =
    let (cur, size) = insert_size c e.line o.cur_in in
    let (fits, small) = has_room env.px e.line.len e.console.cols room in
    redraw-OnScreen 0 (insert c e.line) e.hist_at o
      (rw (insert_lem c e.line o.cur_in) (Printable-insert_at e.line.cur c _ low o.printable)) cur
      (omega (arith, small)) (omega arith) (omega (arith, fits, o.shown.width)) o.hist_in
  where
    has_room :
        (px len cols : ℕ)
        → leb cols (px + len + 2) || leb line_max (len + 1) ≡ false
        → (px + len + 2 < cols) × (len + 1 < line_max)
    has_room px len cols h = ground arith

-- A choice between two editors on the screen.
choice-OnScreen :
    {w : ℕ} {env : Env} (b : Bool) (e f : Editor)
    → (b ≡ true → OnScreen w env e)
    → (b ≡ false → OnScreen w env f)
    → OnScreen w env (if b then e else f)
choice-OnScreen true e f h k = h refl
choice-OnScreen false e f h k = k refl

left-OnScreen :
    {w : ℕ} {env : Env} {e : Editor}
    → OnScreen w env e
    → OnScreen w env (record e { line = left e.line })
unfolding left
left-OnScreen {w} {env} {e} o = elim (Bool-cases (e.line.cur == 0)) [
  | inl at_start ↦ rw at_start o
  | inr inside ↦ rw inside (moved-OnScreen (e.line.cur - 1) o (omega (arith, o.cur_in)))
]

right-OnScreen :
    {w : ℕ} {env : Env} {e : Editor}
    → OnScreen w env e
    → OnScreen w env (record e { line = right e.line })
unfolding right
right-OnScreen {w} {env} {e} o = elim (Bool-cases (ltb e.line.cur e.line.len)) [
  | inl inside ↦ rw inside (moved-OnScreen (e.line.cur + 1) o (ground arith))
  | inr at_end ↦ rw at_end o
]

or_false : (a b : Bool) → a || b ≡ false → (a ≡ false) × (b ≡ false)
or_false a b h = ground arith

key_char-OnScreen :
    {w : ℕ} {env : Env} {e : Editor} (c : ℕ) → OnScreen w env e → OnScreen w env (key_char env c e)
unfolding key_char
key_char-OnScreen {w} {env} {e} c o =
    choice-OnScreen (ltb c 0x20 || ltb 0x7E c) _ _ (λ _. o)
      λ h.
        choice-OnScreen
          (leb e.console.cols (env.px + e.line.len + 2) || leb line_max (e.line.len + 1)) _ _
          (λ _. o)
          (λ room. insert-OnScreen c o (ground (arith, or_false (ltb c 0x20) (ltb 0x7E c) h)) room)

key_hist-OnScreen :
    {w : ℕ} {env : Env} {e : Editor} (c : ℕ)
    → AllFit w env.px env.hist
    → OnScreen w env e
    → OnScreen w env (key_hist env c e)
unfolding key_hist
key_hist-OnScreen {w} {env} {e} c fits o =
    choice-OnScreen (c == key_up) _ _
      (λ _.
        choice-OnScreen (e.hist_at == 0 || ltb (length env.hist) (e.hist_at - 1)) _ _ (λ _. o)
          (λ h. turn_to-OnScreen (e.hist_at - 1) fits (omega (arith, o.hist_in)) o))
      λ _.
        choice-OnScreen (c == key_down) _ _
          (λ _.
            choice-OnScreen (ltb (length env.hist) (e.hist_at + 1)) _ _ (λ _. o)
              (λ h. turn_to-OnScreen (e.hist_at + 1) fits (ground arith) o))
          λ _. key_char-OnScreen c o

key_move-OnScreen :
    {w : ℕ} {env : Env} {e : Editor} (c : ℕ)
    → AllFit w env.px env.hist
    → OnScreen w env e
    → OnScreen w env (key_move env c e)
unfolding key_move
key_move-OnScreen {w} {env} {e} c fits o =
    choice-OnScreen (c == key_left) _ _ (λ _. left-OnScreen o)
      λ _.
        choice-OnScreen (c == key_right) _ _ (λ _. right-OnScreen o)
          λ _.
            choice-OnScreen (c == key_home) _ _ (λ _. moved-OnScreen 0 o (omega arith))
              λ _.
                choice-OnScreen (c == key_end) _ _ (λ _. moved-OnScreen e.line.len o (omega arith))
                  λ _. key_hist-OnScreen c fits o

-- Every key but the newline.
pub key-OnScreen :
    {w : ℕ} {env : Env} {e : Editor} (c : ℕ)
    → AllFit w env.px env.hist
    → OnScreen w env e
    → OnScreen w env (key env c e)
unfolding key
key-OnScreen {w} {env} {e} c fits o =
    choice-OnScreen (c == 8) _ _
      (λ _. choice-OnScreen (e.line.cur == 0) _ _ (λ _. o) (λ h. backspace-OnScreen o h))
      λ _.
        choice-OnScreen (c == key_del) _ _
          (λ _. choice-OnScreen (leb e.line.len e.line.cur) _ _ (λ _. o) (λ h. delete-OnScreen o h))
          λ _. key_move-OnScreen c fits o
