-- ===== src/User/Snake.antt =====
-- src/user/snake.c. A position is a column and a row. The step to the left of column 0 or above row 0 does not come
-- up: the snake's head is inside the border. A step that does not find a place for the food in the rounds that it
-- is given is `none`.
pub mod Cells
pub mod Trail
pub mod Rounds
pub mod Games
use sacabambaspos.Base.{
  ℕ, zero, suc, ◌+◌, ◌-◌, ◌*◌, ◌/◌, ◌%◌, Bool, true, false, not, ◌&&◌, ◌||◌, Option, none, some,
  List, [], ◌∷◌, ◌++◌, ltb, leb, ◌==◌, if◌then◌else◌, min, bytes,
}
use sacabambaspos.Keys.{key_up, key_down, key_left, key_right}
use sacabambaspos.User.Calls.{
  Call, writen, sleep, color, setxy, clear, cursor, print, printu, rnd_next,
}

-- MAXW * MAXH
abbrev pub body_size : ℕ
body_size = 8192

-- (dx, dy)
pub data Dir : Type 0 where
  up : Dir
  down : Dir
  left : Dir
  right : Dir

abbrev pub opposite : Dir → Dir → Bool
opposite up down = true
opposite down up = true
opposite left right = true
opposite right left = true
opposite a b = false

pub record Snake : Type 0 where
  pub w : ℕ
  pub h : ℕ
  pub body : ℕ → ℕ
  pub occ : ℕ → ℕ → Bool
  pub hx : ℕ
  pub hy : ℕ
  pub dir : Dir
  pub head : ℕ
  pub tail : ℕ
  pub score : ℕ
  pub grow : ℕ
  pub fx : ℕ
  pub fy : ℕ
  pub seed : ℕ
  pub calls : List Call

unfoldable pub emit_calls : List Call → Snake → Snake
emit_calls cs s = record s { calls = s.calls ++ cs }

unfoldable pub cell : ℕ → ℕ → ℕ → ℕ → List Call
cell x y c fg = setxy x y ∷ color fg 0 ∷ writen (c ∷ []) ∷ []

unfoldable pub status : ℕ → List Call
unfolding print printu
status score =
    setxy 2 0
    ∷ color 14 0
    ∷ print (bytes "snake  ")
    ∷ color 7 0
    ∷ print (bytes "score ")
    ∷ color 11 0
    ∷ printu score
    ∷ print (bytes "   ")
    ∷ []

-- The column and the row of a new food, and the seed: `n` tries at most.
unfoldable pub find_food : ℕ → (ℕ → ℕ → Bool) → ℕ → ℕ → ℕ → Option (ℕ × ℕ × ℕ)
find_food zero occ w h seed = none
find_food (suc n) occ w h seed =
    let s1 = rnd_next seed in
    let s2 = rnd_next s1 in
    let fx = 1 + s1 % (w - 2) in
    let fy = 2 + s2 % (h - 3) in
    let again = find_food n occ w h s2 in if occ fx fy then again else some (fx, fy, s2)

unfoldable pub put_food : Option (ℕ × ℕ × ℕ) → Snake → Option Snake
unfolding emit_calls cell
put_food none s = none
put_food (some (fx, fy, seed)) s =
    some (emit_calls (cell fx fy b'*' 12) (record s { fx = fx; fy = fy; seed = seed }))

-- `x<<8 | y`
abbrev pub pack : ℕ → ℕ → ℕ
pack x y = x * 256 + y

unfoldable pub set_occ : ℕ → ℕ → Bool → (ℕ → ℕ → Bool) → ℕ → ℕ → Bool
set_occ x y v occ i j = if i == x && j == y then v else occ i j

-- The new head is drawn and recorded; `px` and `py` are where it was.
unfoldable pub forward : ℕ → ℕ → Snake → Snake
unfolding emit_calls cell set_occ
forward px py s =
    let head = (s.head + 1) % body_size in
    emit_calls (cell px py b'o' 2 ++ cell s.hx s.hy b'O' 10) (record s {
      head = head;
      body = λ i. if i == head then pack s.hx s.hy else s.body i;
      occ = set_occ s.hx s.hy true s.occ;
    })

unfoldable pub eat : ℕ → Snake → Option Snake
unfolding put_food emit_calls status
eat tries s =
    let s' =
      emit_calls (status (s.score + 1)) (record s { score = s.score + 1; grow = s.grow + 1 }) in
    let fed = put_food (find_food tries s'.occ s'.w s'.h s'.seed) s' in
    if s.hx == s.fx && s.hy == s.fy then fed else some s

unfoldable pub erase : Snake → Snake
unfolding emit_calls cell set_occ
erase s =
    let tx = s.body s.tail / 256 in
    let ty = s.body s.tail % 256 in
    emit_calls (cell tx ty b' ' 7)
      (record s { occ = set_occ tx ty false s.occ; tail = (s.tail + 1) % body_size })

unfoldable pub shrink : Snake → Snake
shrink s = if ltb 0 s.grow then record s { grow = s.grow - 1 } else erase s

-- The keys of a round; `none` is the jump to the end of the game.
unfoldable pub turn : ℕ → Dir → Dir
turn k d =
    if k == key_up
    then up
    else if k == key_down
    then down
    else if k == key_left
    then left
    else if k == key_right
    then right
    else d

unfoldable pub steer : List ℕ → Dir → Option Dir
unfolding turn
steer [] d = some d
steer (k ∷ ks) d =
    let further = steer ks (turn k d) in if k == b'q' || k == 27 then none else further

unfoldable pub step_x : Dir → ℕ → ℕ
step_x up x = x
step_x down x = x
step_x left x = x - 1
step_x right x = x + 1

unfoldable pub step_y : Dir → ℕ → ℕ
step_y up y = y - 1
step_y down y = y + 1
step_y left y = y
step_y right y = y

unfoldable pub move_head : Dir → Snake → Snake
unfolding step_x step_y
move_head nd s =
    let d = if opposite nd s.dir then s.dir else nd in
    record s { dir = d; hx = step_x d s.hx; hy = step_y d s.hy }

unfoldable pub crashed : Snake → Bool
crashed s = leb s.hx 0 || leb (s.w - 1) s.hx || leb s.hy 1 || leb (s.h - 1) s.hy || s.occ s.hx s.hy

-- A round of the game: whether it goes on, and the state.
unfoldable pub finish_round : Option Snake → Option (Bool × Snake)
unfolding shrink emit_calls
finish_round none = none
finish_round (some s) = some (true, emit_calls (sleep 120 ∷ []) (shrink s))

unfoldable pub round_towards : ℕ → Option Dir → Snake → Option (Bool × Snake)
round_towards tries none s = some (false, s)
round_towards tries (some nd) s =
    let s1 = move_head nd s in
    if crashed s1 then some (false, s1) else finish_round (eat tries (forward s.hx s.hy s1))

unfoldable pub play_round : ℕ → List ℕ → Snake → Option (Bool × Snake)
play_round tries keys s = round_towards tries (steer keys s.dir) s

unfoldable pub go_on :
    Option (Bool × Snake) → (Snake → Option (Bool × Snake)) → Option (Bool × Snake)
go_on none k = none
go_on (some (go, s)) k = if go then k s else some (false, s)

-- The rounds, with the keys that come in each; past the last the state is as it is then.
unfoldable pub play : ℕ → List (List ℕ) → Snake → Option (Bool × Snake)
play tries [] s = some (true, s)
play tries (keys ∷ rounds) s = go_on (play_round tries keys s) (play tries rounds)

-- The border, `n` columns from `x` and `n` rows from `y`.
unfoldable pub border_x : ℕ → ℕ → ℕ → List Call
unfolding cell
border_x zero x h = []
border_x (suc n) x h = cell x 1 b'-' 8 ++ cell x (h - 1) b'-' 8 ++ border_x n (x + 1) h

unfoldable pub border_y : ℕ → ℕ → ℕ → List Call
unfolding cell
border_y zero y w = []
border_y (suc n) y w = cell 0 y b'|' 8 ++ cell (w - 1) y b'|' 8 ++ border_y n (y + 1) w

unfoldable pub opening : ℕ → ℕ → ℕ → Snake
unfolding cell border_x border_y set_occ
opening w h seed = record {
  w = w;
  h = h;
  body = λ i. if i == 0 then pack (w / 2) (h / 2) else 0;
  occ = set_occ (w / 2) (h / 2) true (λ x y. false);
  hx = w / 2;
  hy = h / 2;
  dir = right;
  head = 0;
  tail = 0;
  score = 0;
  grow = 2;
  fx = w / 2;
  fy = h / 2;
  seed = seed;
  calls =
      clear ∷ cursor 0 ∷ color 8 0 ∷ border_x w 0 h
      ++ border_y (h - 1) 1 w
      ++ cell (w / 2) (h / 2) b'O' 10;
}

pub data Start : Type 0 where
  too_small : List Call → Start
  no_place : Start
  ready : Snake → Start

unfoldable pub start_with : Option Snake → Start
unfolding emit_calls status
start_with none = no_place
start_with (some s) = ready (emit_calls (status 0) s)

-- `main` up to the first round, on a console of `cols` columns and `rows` rows, at `now` milliseconds.
unfoldable pub start : ℕ → ℕ → ℕ → ℕ → Start
unfolding put_food opening start_with print
start tries cols rows now =
    let w = min cols 128 in
    let h = min rows 64 in
    let s = opening w h (if now % 2 == 0 then now + 1 else now) in
    if ltb w 20 || ltb h 10
    then too_small (print (bytes "  console too small for snake\n") ∷ [])
    else start_with (put_food (find_food tries s.occ w h s.seed) s)

-- The end of `main`; the wait for a key is between the two halves.
unfoldable pub game_over : Snake → List Call
unfolding print printu
game_over s =
    setxy (s.w / 2 - 6) (s.h / 2)
    ∷ color 15 4
    ∷ print (bytes " GAME  OVER ")
    ∷ setxy (s.w / 2 - 9) (s.h / 2 + 1)
    ∷ color 7 0
    ∷ print (bytes "score ")
    ∷ printu s.score
    ∷ print (bytes " - any key")
    ∷ color 7 0
    ∷ clear
    ∷ cursor 1
    ∷ []
