-- ===== src/Shell/Edit/Spec.antt =====
-- The editor as an editor of a list: what each key does to the characters typed.
use sacabambaspos.Base.{
  ℕ, ◌+◌, ◌-◌, ◌≤◌, ◌≡◌, refl, sym, ap, ◌∙◌, arith, Bool, true, false, ◌||◌, List, [], ◌∷◌, ◌++◌,
  length, get_or, ltb, leb, ◌==◌, if◌then◌else◌, some, Bool-cases, inl, inr,
}
use sacabambaspos.Keys.{key_up, key_down, key_left, key_right, key_del, key_home, key_end}
use sacabambaspos.Libk.{Mem}
use sacabambaspos.Shell.Tokens.{line_max}
use sacabambaspos.Shell.Line.{Line, text, chars_of, backspace, delete, left, right, insert, recall}
use sacabambaspos.Shell.Line.Refine.{
  length-text, insert_at, erase_at, insert_lem, delete_lem, backspace_lem, recall_lem,
}
use sacabambaspos.Shell.Edit.{
  Env, Editor, redraw, turn_to, key_char, key_hist, key_move, key, place_cursor, enter, read_keys,
}
use sacabambaspos.Shell.Edit.Invariant.{AllFit, OnScreen, place_cursor-OnScreen}
use sacabambaspos.Shell.Edit.Steps.{key-OnScreen}

pub record Typed : Type 0 where
  pub chars : List ℕ
  pub cur : ℕ
  pub hist_at : ℕ

abbrev pub typed : Editor → Typed
typed e = record { chars = chars_of e.line; cur = e.line.cur; hist_at = e.hist_at }

unfoldable pub recall_key : List (List ℕ) → ℕ → Typed
recall_key hist want =
    let h = if want == length hist then [] else get_or hist want [] in
    record { chars = h; cur = length h; hist_at = want }

-- In a row of width `w` with the prompt up to column `px`: a character, the history, the moves, and every
-- key but the newline.
edit_char : ℕ → ℕ → ℕ → Typed → Typed
edit_char w px c t =
    if ltb c 0x20 || ltb 0x7E c
    then t
    else if leb w (px + length t.chars + 2) || leb line_max (length t.chars + 1)
    then t
    else record t { chars = insert_at t.cur c t.chars; cur = t.cur + 1 }

edit_hist : ℕ → ℕ → List (List ℕ) → ℕ → Typed → Typed
edit_hist w px hist c t =
    if c == key_up
    then (if t.hist_at == 0 || ltb (length hist) (t.hist_at - 1)
        then t
        else recall_key hist (t.hist_at - 1))
    else if c == key_down
    then (if ltb (length hist) (t.hist_at + 1) then t else recall_key hist (t.hist_at + 1))
    else edit_char w px c t

edit_move : ℕ → ℕ → List (List ℕ) → ℕ → Typed → Typed
edit_move w px hist c t =
    if c == key_left
    then record t { cur = t.cur - 1 }
    else if c == key_right
    then record t { cur = if ltb t.cur (length t.chars) then t.cur + 1 else t.cur }
    else if c == key_home
    then record t { cur = 0 }
    else if c == key_end
    then record t { cur = length t.chars }
    else edit_hist w px hist c t

pub edit_key : ℕ → ℕ → List (List ℕ) → ℕ → Typed → Typed
edit_key w px hist c t =
    if c == 8
    then (if t.cur == 0
        then t
        else record t { chars = erase_at (t.cur - 1) t.chars; cur = t.cur - 1 })
    else if c == key_del
    then (if leb (length t.chars) t.cur then t else record t { chars = erase_at t.cur t.chars })
    else edit_move w px hist c t

pub edit_keys : ℕ → ℕ → List (List ℕ) → List ℕ → Typed → Typed
edit_keys w px hist [] t = t
edit_keys w px hist (c ∷ keys) t = edit_keys w px hist keys (edit_key w px hist c t)

choice-typed :
    (a b : Bool) (e f : Editor) (t u : Typed)
    → a ≡ b
    → (a ≡ true → typed e ≡ t)
    → (a ≡ false → typed f ≡ u)
    → typed (if a then e else f) ≡ (if b then t else u)
choice-typed true b e f t u same h k = rw (sym same) (h refl)
choice-typed false b e f t u same h k = rw (sym same) (k refl)

abbrev typed_as : List ℕ → ℕ → ℕ → Typed
typed_as cs k h = record { chars = cs; cur = k; hist_at = h }

typed_eq : (cs ds : List ℕ) (k i h : ℕ) → cs ≡ ds → k ≡ i → typed_as cs k h ≡ typed_as ds i h
typed_eq cs ds k i h p q = cc

backspace_cur : (l : Line) → l.cur == 0 ≡ false → (backspace l).cur ≡ l.cur - 1
unfolding backspace
backspace_cur l h = rw h refl

delete_cur : (l : Line) → (delete l).cur ≡ l.cur
unfolding delete
delete_cur l = ground arith

insert_cur : (c : ℕ) (l : Line) → (insert c l).cur ≡ l.cur + 1
unfolding insert
insert_cur c l = refl

backspace-typed :
    (env : Env) (e : Editor)
    → e.line.cur ≤ e.line.len
    → e.line.cur == 0 ≡ false
    → typed (redraw env 1 (record e { line = backspace e.line }))
      ≡ typed_as (erase_at (e.line.cur - 1) (chars_of e.line)) (e.line.cur - 1) e.hist_at
unfolding redraw
backspace-typed env e h inside =
    typed_eq _ _ _ _ e.hist_at (backspace_lem e.line h ∙ rw inside refl)
      (backspace_cur e.line inside)

delete-typed :
    (env : Env) (e : Editor)
    → leb e.line.len e.line.cur ≡ false
    → typed (redraw env 1 (record e { line = delete e.line }))
      ≡ typed_as (erase_at e.line.cur (chars_of e.line)) e.line.cur e.hist_at
unfolding redraw
delete-typed env e inside =
    typed_eq _ _ _ _ e.hist_at (delete_lem e.line ∙ rw (before e.line.len e.line.cur inside) refl)
      (delete_cur e.line)
  where
    before : (len cur : ℕ) → leb len cur ≡ false → ltb cur len ≡ true
    before len cur h = ground arith

insert-typed :
    (env : Env) (e : Editor) (c : ℕ)
    → e.line.cur ≤ e.line.len
    → typed (redraw env 0 (record e { line = insert c e.line }))
      ≡ typed_as (insert_at e.line.cur c (chars_of e.line)) (e.line.cur + 1) e.hist_at
unfolding redraw
insert-typed env e c h = typed_eq _ _ _ _ e.hist_at (insert_lem c e.line h) (insert_cur c e.line)

text_zero : (b : Mem) → text 0 b ≡ []
unfolding text
text_zero b = refl

recall_cur : (h : List ℕ) (l : Line) → (recall h l).cur ≡ length h
unfolding recall
recall_cur h l = refl

turn_to-typed :
    (env : Env) (want : ℕ) (e : Editor) → typed (turn_to env want e) ≡ recall_key env.hist want
unfolding turn_to redraw recall_key
turn_to-typed env want e = elim (Bool-cases (want == length env.hist)) [
  | inl fresh ↦ rw fresh (typed_eq _ _ 0 0 want (text_zero e.line.b) refl)
  | inr old ↦ rw old (
      typed_eq _ _ _ _ want (recall_lem (get_or env.hist want []) e.line)
        (recall_cur (get_or env.hist want []) e.line))
]

left-typed :
    (e : Editor)
    → typed (record e { line = left e.line })
      ≡ typed_as (chars_of e.line) (e.line.cur - 1) e.hist_at
unfolding left
left-typed e = elim (Bool-cases (e.line.cur == 0)) [
  | inl at_start ↦ rw at_start (typed_eq _ _ _ _ e.hist_at refl (ground (arith, at_start)))
  | inr inside ↦ rw inside refl
]

right-typed :
    (e : Editor)
    → typed (record e { line = right e.line })
      ≡ typed_as
          (chars_of e.line)
          (if ltb e.line.cur (length (chars_of e.line)) then e.line.cur + 1 else e.line.cur)
          e.hist_at
unfolding right
right-typed e =
    rw (length-text e.line.len e.line.b) (elim (Bool-cases (ltb e.line.cur e.line.len)) [
      | inl inside ↦ rw inside refl
      | inr at_end ↦ rw at_end refl
    ])

place_cursor-typed : (env : Env) (e : Editor) → typed (place_cursor env e) ≡ typed e
unfolding place_cursor
place_cursor-typed env e = refl

key_char-typed :
    {w : ℕ} {env : Env} {e : Editor} (c : ℕ)
    → OnScreen w env e
    → typed (key_char env c e) ≡ edit_char w env.px c (typed e)
unfolding key_char edit_char
key_char-typed {w} {env} {e} c o =
    choice-typed (ltb c 0x20 || ltb 0x7E c) _ _ _ _ _ refl (λ _. refl)
      λ _.
        choice-typed (leb e.console.cols (env.px + e.line.len + 2) || leb line_max (e.line.len + 1))
          _ _ _ _ _
          (no_room w env.px e.line.len (length (chars_of e.line)) e.console.cols o.shown.width
            (sym (length-text e.line.len e.line.b)))
          (λ _. refl) (λ _. insert-typed env e c o.cur_in)
  where
    no_room :
        (w px n k cols : ℕ)
        → cols ≡ w
        → n ≡ k
        → leb cols (px + n + 2) || leb line_max (n + 1) ≡ leb w (px + k + 2) || leb line_max (k + 1)
    no_room w px n k cols p q = rw (p, q) refl

key_hist-typed :
    {w : ℕ} {env : Env} {e : Editor} (c : ℕ)
    → OnScreen w env e
    → typed (key_hist env c e) ≡ edit_hist w env.px env.hist c (typed e)
unfolding key_hist edit_hist
key_hist-typed {w} {env} {e} c o =
    choice-typed (c == key_up) _ _ _ _ _ refl
      (λ _.
        choice-typed (e.hist_at == 0 || ltb (length env.hist) (e.hist_at - 1)) _ _ _ _ _ refl
          (λ _. refl) (λ _. turn_to-typed env (e.hist_at - 1) e))
      λ _.
        choice-typed (c == key_down) _ _ _ _ _ refl
          (λ _.
            choice-typed (ltb (length env.hist) (e.hist_at + 1)) _ _ _ _ _ refl (λ _. refl)
              (λ _. turn_to-typed env (e.hist_at + 1) e))
          λ _. key_char-typed c o

key_move-typed :
    {w : ℕ} {env : Env} {e : Editor} (c : ℕ)
    → OnScreen w env e
    → typed (key_move env c e) ≡ edit_move w env.px env.hist c (typed e)
unfolding key_move edit_move
key_move-typed {w} {env} {e} c o =
    choice-typed (c == key_left) _ _ _ _ _ refl (λ _. left-typed e)
      λ _.
        choice-typed (c == key_right) _ _ _ _ _ refl (λ _. right-typed e)
          λ _.
            choice-typed (c == key_home) _ _ _ _ _ refl (λ _. refl)
              λ _.
                choice-typed (c == key_end) _ _ _ _ _ refl
                  (λ _. typed_eq _ _ _ _ e.hist_at refl (sym (length-text e.line.len e.line.b)))
                  λ _. key_hist-typed c o

-- Every key edits the characters as the list editor does.
key-typed :
    {w : ℕ} {env : Env} {e : Editor} (c : ℕ)
    → OnScreen w env e
    → typed (key env c e) ≡ edit_key w env.px env.hist c (typed e)
unfolding key edit_key
key-typed {w} {env} {e} c o =
    choice-typed (c == 8) _ _ _ _ _ refl
      (λ _.
        choice-typed (e.line.cur == 0) _ _ _ _ _ refl (λ _. refl)
          (λ h. backspace-typed env e o.cur_in h))
      λ _.
        choice-typed (c == key_del) _ _ _ _ _ refl
          (λ _.
            choice-typed (leb e.line.len e.line.cur) _ _ _ _ _
              (ap (λ n. leb n e.line.cur) (sym (length-text e.line.len e.line.b))) (λ _. refl)
              (λ h. delete-typed env e h))
          λ _. key_move-typed c o

-- The keys of a line, newline excluded.
abbrev pub NoEnter : List ℕ → Type 0
NoEnter [] = Unit
NoEnter (c ∷ keys) = (c == b'\n' ≡ false) × NoEnter keys

-- On a screen that shows the line, with room in the row and the buffer for every line of the history, any
-- keys up to a newline end the reading. The line is then what the keys make of it in the editor of a list,
-- it fits the buffer, and the row shows it.
pub read_keys_lem :
    {w : ℕ} {env : Env} (keys rest : List ℕ) {e : Editor}
    → NoEnter keys
    → AllFit w env.px env.hist
    → OnScreen w env e
    → (e' : Editor) × (read_keys env (keys ++ (b'\n' ∷ rest)) e ≡ some (enter env e', rest))
      × OnScreen w env e'
      × (typed e' ≡ edit_keys w env.px env.hist keys (typed e))
unfolding read_keys edit_keys
read_keys_lem {env = env} [] rest {e = e} n fits o =
    (place_cursor env e, refl, place_cursor-OnScreen o, place_cursor-typed env e)
read_keys_lem {w} {env} (c ∷ keys) rest {e} n fits o =
    let o' : OnScreen w env (place_cursor env e) = place_cursor-OnScreen o in
    let (e', read, shown, same) = read_keys_lem keys rest n.1 fits (key-OnScreen c fits o') in
    (
      e',
      rw n.0 read,
      shown,
      same
          ∙ ap (edit_keys w env.px env.hist keys)
              (key-typed c o' ∙ ap (edit_key w env.px env.hist c) (place_cursor-typed env e)),
    )
