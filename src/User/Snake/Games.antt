-- ===== src/User/Snake/Games.antt =====
-- Whole games of snake, and its food.
use sacabambaspos.Base.{
  ℕ, zero, suc, ◌+◌, ◌-◌, ◌/◌, ◌%◌, ◌≤◌, ◌<◌, ◌≡◌, ◌⊎◌, refl, arith, Bool, true, false, ◌||◌,
  Option, none, some, List, [], ◌∷◌, length, ltb, Bool-cases, inl, inr, min, bytes,
}
use native.Mathlib.Nat.{mod-lt}
use sacabambaspos.User.Calls.{rnd_next, print}
use sacabambaspos.User.Snake.{
  Snake, Dir, put_food, find_food, steer, move_head, crashed, finish_round, eat, forward,
  round_towards, play_round, play, go_on, emit_calls, cell, status, opening, set_occ, start,
  start_with, ready, too_small,
}
use sacabambaspos.User.Snake.Trail.{code, Trail, same-Trail, Trail-room}
use sacabambaspos.User.Snake.Rounds.{Shows, play_round-Shows, ahead, move_head-Trail}

-- A place for the food is inside the border, and no cell of the snake.
pub find_food_lem :
    (tries : ℕ) (occ : ℕ → ℕ → Bool) (w h seed fx fy seed' : ℕ)
    → 20 ≤ w
    → 10 ≤ h
    → find_food tries occ w h seed ≡ some (fx, fy, seed')
    → (1 ≤ fx) × (fx < w - 1) × (2 ≤ fy) × (fy < h - 1) × (occ fx fy ≡ false)
unfolding find_food
find_food_lem zero occ w h seed fx fy seed' wide high e = cc
find_food_lem (suc n) occ w h seed fx fy seed' wide high e =
    let s1 = rnd_next seed in
    let s2 = rnd_next s1 in
    let x = 1 + s1 % (w - 2) in
    let y = 2 + s2 % (h - 3) in
    let lx : s1 % (w - 2) < w - 2 = mod-lt s1 (omega arith) in
    let ly : s2 % (h - 3) < h - 3 = mod-lt s2 (omega arith) in
    elim (Bool-cases (occ x y)) [
      | inl taken ↦ find_food_lem n occ w h s2 fx fy seed' wide high (rw taken at e)
      | inr free ↦
          let e' : ◌≡◌ {A = Option (ℕ × ℕ × ℕ)} (some (x, y, s2)) (some (fx, fy, seed')) =
            rw free at e in
          let ex : x ≡ fx = cc in
          let ey : y ≡ fy = cc in
          (omega arith, omega arith, omega arith, omega arith, rw (← ex, ← ey) free)
    ]

-- When every cell inside the border is occupied, the search for a place for the food does not end, in any number of
-- tries.
pub find_food-full :
    (tries : ℕ) (occ : ℕ → ℕ → Bool) (w h seed : ℕ)
    → 20 ≤ w
    → 10 ≤ h
    → ((x y : ℕ) → 1 ≤ x → x < w - 1 → 2 ≤ y → y < h - 1 → occ x y ≡ true)
    → find_food tries occ w h seed ≡ none
unfolding find_food
find_food-full zero occ w h seed wide high full = refl
find_food-full (suc n) occ w h seed wide high full =
    let s1 = rnd_next seed in
    let s2 = rnd_next s1 in
    let lx : s1 % (w - 2) < w - 2 = mod-lt s1 (omega arith) in
    let ly : s2 % (h - 3) < h - 3 = mod-lt s2 (omega arith) in
    let taken =
      full (1 + s1 % (w - 2)) (2 + s2 % (h - 3)) (omega arith) (omega arith) (omega arith)
        (omega arith) in
    rw taken (find_food-full n occ w h s2 wide high full)

opening-Shows :
    (w h seed : ℕ)
    → 20 ≤ w
    → w ≤ 128
    → 10 ≤ h
    → h ≤ 64
    → Shows (opening w h seed) (code (w / 2) (h / 2)) []
unfolding opening set_occ
opening-Shows w h seed wide wmax high hmax = record {
  trail = record {
    wide = wmax;
    high = hmax;
    some_cell = omega arith;
    inside = (
      record {
        from_left = omega arith;
        from_right = omega arith;
        from_top = omega arith;
        from_bottom = omega arith;
      },
      tt,
    );
    distinct = (refl, tt);
    head_lt = omega arith;
    ring = (ground arith, tt);
    tail_at = refl;
    occupied = λ x y lt. ground arith;
  };
  lead = refl;
  row = omega arith;
}

put_food-Shows :
    (food : Option (ℕ × ℕ × ℕ)) (s s' : Snake) (c : ℕ) (cs : List ℕ)
    → put_food food s ≡ some s'
    → Shows s c cs
    → Shows s' c cs
unfolding put_food emit_calls
put_food-Shows none s s' c cs e v = cc
put_food-Shows (some (fx, fy, seed)) s s' c cs e v =
    let done : emit_calls (cell fx fy b'*' 12) (record s { fx = fx; fy = fy; seed = seed }) ≡ s' =
      cc in
    rw (← done) (record {
      trail = same-Trail _ refl refl refl refl refl refl v.trail;
      lead = v.lead;
      row = v.row;
    })

start_with-Shows :
    (o : Option Snake) (s : Snake) (c : ℕ) (cs : List ℕ)
    → ((t : Snake) → o ≡ some t → Shows t c cs)
    → start_with o ≡ ready s
    → Shows s c cs
unfolding start_with emit_calls
start_with-Shows none s c cs v e = cc
start_with-Shows (some t) s c cs v e =
    let v' = v t refl in
    let done : emit_calls (status 0) t ≡ s = cc in
    rw (← done) (record {
      trail = same-Trail _ refl refl refl refl refl refl v'.trail;
      lead = v'.lead;
      row = v'.row;
    })

pub start-Shows :
    (tries cols rows now : ℕ) (s : Snake)
    → start tries cols rows now ≡ ready s
    → Shows s (code (min cols 128 / 2) (min rows 64 / 2)) []
unfolding start
start-Shows tries cols rows now s e =
    elim (Bool-cases (ltb (min cols 128) 20 || ltb (min rows 64) 10)) [
      | inl small ↦
          let print_only : too_small (print (bytes "  console too small for snake\n") ∷ [])
              ≡ ready s =
            rw small at e in
          cc
      | inr fits ↦
          start_with-Shows _ s _ []
            (λ t put. put_food-Shows _ _ t _ [] put (
              opening-Shows (min cols 128) (min rows 64) _ (ground (arith, fits)) (omega arith)
                (ground (arith, fits)) (omega arith)))
            (rw fits at e)
    ]

finish_round-goes : (o : Option Snake) (s' : Snake) → finish_round o ≡ some (false, s') → ⊥
unfolding finish_round
finish_round-goes none s' e = cc
finish_round-goes (some m) s' e = cc

-- The end of a game by a crash or a key leaves the ring and the grid.
round_towards-over :
    (tries : ℕ) (nd : Option Dir) (s s' : Snake) (cells : List ℕ)
    → Trail s cells
    → round_towards tries nd s ≡ some (false, s')
    → Trail s' cells
unfolding round_towards
round_towards-over tries none s s' cells t e = let same : s ≡ s' = cc in rw (← same) t
round_towards-over tries (some nd) s s' cells t e = elim (Bool-cases (crashed (move_head nd s))) [
  | inl bad ↦
      let e' : ◌≡◌ {A = Option (Bool × Snake)} (some (false, move_head nd s)) (some (false, s')) =
        rw bad at e in
      let same : move_head nd s ≡ s' = cc in rw (← same) (move_head-Trail nd s cells t)
  | inr fine ↦
      absurd (finish_round-goes (eat tries (forward s.hx s.hy (move_head nd s))) s' (rw fine at e))
]

round_on :
    (tries : ℕ) (keys : List ℕ) (nd : Option Dir) (s s' : Snake) (c : ℕ) (cs : List ℕ)
    → steer keys s.dir ≡ nd
    → Shows s c cs
    → play_round tries keys s ≡ some (true, s')
    → (c' : ℕ) × (cs' : List ℕ) × Shows s' c' cs'
unfolding play_round round_towards
round_on tries keys none s s' c cs keyed v e =
    let over : ◌≡◌ {A = Option (Bool × Snake)} (some (false, s)) (some (true, s')) =
      rw keyed at e in
    cc
round_on tries keys (some nd) s s' c cs keyed v e =
    (ahead nd s, _, (play_round-Shows tries keys nd s s' c cs v keyed e).2)

round_over :
    (tries : ℕ) (keys : List ℕ) (s s' : Snake) (c : ℕ) (cs : List ℕ)
    → Shows s c cs
    → play_round tries keys s ≡ some (false, s')
    → Trail s' (c ∷ cs)
unfolding play_round
round_over tries keys s s' c cs v e =
    round_towards-over tries (steer keys s.dir) s s' (c ∷ cs) v.trail e

go_on-inv :
    (o : Option (Bool × Snake)) (k : Snake → Option (Bool × Snake)) (go : Bool) (s' : Snake)
    → go_on o k ≡ some (go, s')
    → ((m : Snake) × (o ≡ some (true, m)) × (k m ≡ some (go, s'))) ⊎ (o ≡ some (false, s'))
unfolding go_on
go_on-inv none k go s' e = cc
go_on-inv (some (true, m)) k go s' e = inl (m, refl, e)
go_on-inv (some (false, m)) k go s' e = inr cc

play-Trail :
    (tries : ℕ) (rounds : List (List ℕ)) (s s' : Snake) (go : Bool) (c : ℕ) (cs : List ℕ)
    → Shows s c cs
    → play tries rounds s ≡ some (go, s')
    → (cells : List ℕ) × Trail s' cells
unfolding play
play-Trail tries [] s s' go c cs v e = let same : s ≡ s' = cc in (c ∷ cs, rw (← same) v.trail)
play-Trail tries (keys ∷ rounds) s s' go c cs v e =
    elim (go_on-inv (play_round tries keys s) (play tries rounds) go s' e) [
      | inl (m, on, rest) ↦
          let (c', cs', v') = round_on tries keys _ s m c cs refl v on in
          play-Trail tries rounds m s' go c' cs' v' rest
      | inr over ↦ (c ∷ cs, round_over tries keys s s' c cs v over)
    ]

-- Whatever the size of the console, the seed and the keys, at any point of a game of snake and at its end there is a list
-- of different cells inside the border that the entries of body from head back to tail spell, that occ marks and no other
-- cells, and that is shorter than body, so that the ring never overwrites its tail.
pub start-Trail :
    (tries cols rows now : ℕ) (rounds : List (List ℕ)) (s s' : Snake) (go : Bool)
    → start tries cols rows now ≡ ready s
    → play tries rounds s ≡ some (go, s')
    → (cells : List ℕ) × Trail s' cells × (length cells < 8192)
start-Trail tries cols rows now rounds s s' go begun played =
    let (cells, t) =
      play-Trail tries rounds s s' go _ [] (start-Shows tries cols rows now s begun) played in
    (cells, t, omega (arith, Trail-room t))
