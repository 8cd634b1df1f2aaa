-- ===== src/User/Snake/Rounds.antt =====
-- A round of snake as a step of the list of the snake's cells.
use sacabambaspos.Base.{
  ℕ, ◌+◌, ◌<◌, ◌≡◌, refl, ap, ◌∙◌, sym, arith, Bool, true, false, ◌&&◌, Option, none, some, List,
  [], ◌∷◌, ◌==◌, ltb, if◌then◌else◌, Bool-cases, inl, inr,
}
use sacabambaspos.User.Calls.{Call, sleep}
use sacabambaspos.User.Snake.{
  Snake, Dir, opposite, forward, shrink, erase, put_food, find_food, eat, steer, step_x, step_y,
  move_head, crashed, finish_round, round_towards, play_round, emit_calls, cell, up, down, left,
  right, status,
}
use sacabambaspos.User.Snake.Cells.{member, front}
use sacabambaspos.User.Snake.Trail.{code, InField, Trail, forward-Trail, shrink-Trail, same-Trail}

-- The snake with its head on `c` and the rest of its cells behind.
pub record Shows (s : Snake) (c : ℕ) (cs : List ℕ) : Type 0 where
  pub trail : Trail s (c ∷ cs)
  pub lead : c ≡ code s.hx s.hy
  pub row : s.hy < 64

-- What eating leaves alone.
record Fed (more : ℕ) (s s' : Snake) : Type 0 where
  w : s'.w ≡ s.w
  h : s'.h ≡ s.h
  head : s'.head ≡ s.head
  tail : s'.tail ≡ s.tail
  body : s'.body ≡ s.body
  occ : s'.occ ≡ s.occ
  hx : s'.hx ≡ s.hx
  hy : s'.hy ≡ s.hy
  dir : s'.dir ≡ s.dir
  grow : s'.grow ≡ s.grow + more

put_food-Fed :
    (more : ℕ) (f : Option (ℕ × ℕ × ℕ)) (s0 s s' : Snake)
    → Fed more s0 s
    → put_food f s ≡ some s'
    → Fed more s0 s'
unfolding put_food emit_calls
put_food-Fed more none s0 s s' k e = cc
put_food-Fed more (some (fx, fy, seed)) s0 s s' k e =
    let done : emit_calls (cell fx fy b'*' 12) (record s { fx = fx; fy = fy; seed = seed }) ≡ s' =
      cc in
    rw (← done) (record {
      w = k.w;
      h = k.h;
      head = k.head;
      tail = k.tail;
      body = k.body;
      occ = k.occ;
      hx = k.hx;
      hy = k.hy;
      dir = k.dir;
      grow = k.grow;
    })

longer :
    (s : Snake) (cs : List Call) (score : ℕ)
    → Fed 1 s (emit_calls cs (record s { score = score; grow = s.grow + 1 }))
unfolding emit_calls
longer s cs score = record {
  w = refl;
  h = refl;
  head = refl;
  tail = refl;
  body = refl;
  occ = refl;
  hx = refl;
  hy = refl;
  dir = refl;
  grow = refl;
}

unfed : (s : Snake) → Fed 0 s s
unfed s = record {
  w = refl;
  h = refl;
  head = refl;
  tail = refl;
  body = refl;
  occ = refl;
  hx = refl;
  hy = refl;
  dir = refl;
  grow = omega arith;
}

-- At the food the snake grows by one.
abbrev pub growth : Snake → ℕ
growth s = if s.hx == s.fx && s.hy == s.fy then 1 else 0

eat-Fed : (tries : ℕ) (s s' : Snake) → eat tries s ≡ some s' → Fed (growth s) s s'
unfolding eat emit_calls
eat-Fed tries s s' e = elim (Bool-cases (s.hx == s.fx && s.hy == s.fy)) [
  | inl at ↦
      let fed =
        emit_calls (status (s.score + 1)) (record s { score = s.score + 1; grow = s.grow + 1 }) in
      let found = find_food tries s.occ s.w s.h s.seed in
      rw at
        (put_food-Fed 1 found s fed s' (longer s (status (s.score + 1)) (s.score + 1)) (rw at at e))
  | inr off ↦
      let kept : some s ≡ some s' = rw off at e in
      let same : s ≡ s' = cc in rw (off, ← same) (unfed s)
]

eat-Trail :
    (tries : ℕ) (s s' : Snake) (cells : List ℕ)
    → eat tries s ≡ some s'
    → Trail s cells
    → Trail s' cells
eat-Trail tries s s' cells e t =
    let f = eat-Fed tries s s' e in same-Trail s' f.w f.h f.head f.tail f.body f.occ t

-- The cell in front of the head, in the direction that the keys give.
abbrev pub heading : Dir → Snake → Dir
heading nd s = if opposite nd s.dir then s.dir else nd

abbrev pub ahead : Dir → Snake → ℕ
ahead nd s = code (step_x (heading nd s) s.hx) (step_y (heading nd s) s.hy)

-- The snake does not crash exactly where the cell is inside the border and not one of its own.
step_row : (d : Dir) (y : ℕ) → y < 63 → step_y d y < 64
unfolding step_y
step_row up y lt = omega arith
step_row down y lt = omega arith
step_row left y lt = omega arith
step_row right y lt = omega arith

clear_ahead :
    (s : Snake) (cells : List ℕ)
    → Trail s cells
    → s.hy < 64
    → crashed s ≡ false
    → InField s.w s.h (code s.hx s.hy) × (member (code s.hx s.hy) cells ≡ false)
unfolding crashed
clear_ahead s cells t row e = (
  record {
    from_left = ground (arith, e);
    from_right = ground (arith, e);
    from_top = ground (arith, e);
    from_bottom = ground (arith, e);
  },
  ground (arith, e, t.occupied s.hx s.hy row),
)

finish_round-inv :
    (o : Option Snake) (s' : Snake)
    → finish_round o ≡ some (true, s')
    → (m : Snake) × (o ≡ some m) × (emit_calls (sleep 120 ∷ []) (shrink m) ≡ s')
unfolding finish_round
finish_round-inv none s' e = cc
finish_round-inv (some m) s' e = (m, refl, cc)

-- The cells behind the new head.
abbrev pub behind : ℕ → ℕ → List ℕ → List ℕ
behind grow c cs = if ltb 0 grow then c ∷ cs else front (c ∷ cs)

follow :
    (m : Snake) (n c : ℕ) (cs : List ℕ)
    → Trail m (n ∷ c ∷ cs)
    → Trail (emit_calls (sleep 120 ∷ []) (shrink m)) (n ∷ behind m.grow c cs)
unfolding emit_calls
follow m n c cs t =
    let t' = shrink-Trail m n (c ∷ cs) t (omega arith) in
    elim (Bool-cases (ltb 0 m.grow)) [
      | inl e ↦ rw e (same-Trail _ refl refl refl refl refl refl (rw e at t'))
      | inr e ↦ rw e (same-Trail _ refl refl refl refl refl refl (rw e at t'))
    ]

-- What a round that goes on has done, from the move to the eaten food.
round_towards-go :
    (tries : ℕ) (nd : Dir) (s s' : Snake)
    → round_towards tries (some nd) s ≡ some (true, s')
    → (crashed (move_head nd s) ≡ false)
      × (finish_round (eat tries (forward s.hx s.hy (move_head nd s))) ≡ some (true, s'))
unfolding round_towards
round_towards-go tries nd s s' e = elim (Bool-cases (crashed (move_head nd s))) [
  | inl bad ↦
      let over : ◌≡◌ {A = Option (Bool × Snake)} (some (false, move_head nd s)) (some (true, s')) =
        rw bad at e in
      cc
  | inr fine ↦ (fine, rw fine at e)
]

pub move_head-Trail :
    (nd : Dir) (s : Snake) (cells : List ℕ) → Trail s cells → Trail (move_head nd s) cells
unfolding move_head
move_head-Trail nd s cells t = same-Trail _ refl refl refl refl refl refl t

ahead_lem :
    (nd : Dir) (s : Snake)
    → (code (move_head nd s).hx (move_head nd s).hy ≡ ahead nd s)
      × ((move_head nd s).hy ≡ step_y (heading nd s) s.hy)
      × ((move_head nd s).w ≡ s.w)
      × ((move_head nd s).h ≡ s.h)
      × ((move_head nd s).grow ≡ s.grow)
unfolding move_head
ahead_lem nd s = (refl, refl, refl, refl, refl)

forward_lem :
    (px py : ℕ) (s : Snake)
    → ((forward px py s).hx ≡ s.hx)
      × ((forward px py s).hy ≡ s.hy)
      × ((forward px py s).grow ≡ s.grow)
      × (growth (forward px py s) ≡ growth s)
unfolding forward emit_calls
forward_lem px py s = (refl, refl, refl, refl)

shrunk_lem :
    (m : Snake)
    → ((emit_calls (sleep 120 ∷ []) (shrink m)).hx ≡ m.hx)
      × ((emit_calls (sleep 120 ∷ []) (shrink m)).hy ≡ m.hy)
unfolding shrink erase emit_calls
shrunk_lem m = elim (Bool-cases (ltb 0 m.grow)) [
  | inl e ↦ rw e (refl, refl)
  | inr e ↦ rw e (refl, refl)
]

-- When the keys of a round give a direction and the snake that the list of its cells shows goes on, the cell in front of
-- the head, in that direction or straight on where it is the opposite one, is inside the border and none of the snake's;
-- after the round it is the head, and the other cells follow, without the last one when there is nothing to grow.
pub play_round-Shows :
    (tries : ℕ) (keys : List ℕ) (nd : Dir) (s s' : Snake) (c : ℕ) (cs : List ℕ)
    → Shows s c cs
    → steer keys s.dir ≡ some nd
    → play_round tries keys s ≡ some (true, s')
    → InField s.w s.h (ahead nd s)
      × (member (ahead nd s) (c ∷ cs) ≡ false)
      × Shows s' (ahead nd s) (behind (s.grow + growth (move_head nd s)) c cs)
unfolding play_round move_head
play_round-Shows tries keys nd s s' c cs v keyed e =
    let s1 = move_head nd s in
    let t1 = move_head-Trail nd s (c ∷ cs) v.trail in
    let (at, row, ew, eh, egrow) = ahead_lem nd s in
    let (fine, went) = round_towards-go tries nd s s' (rw keyed at e) in
    let bottom = v.trail.inside.0.from_bottom in
    let low : s.hy < 63 = omega (arith, bottom, v.lead, v.row, v.trail.high) in
    let row1 : s1.hy < 64 = rw row (step_row (heading nd s) s.hy low) in
    let (f, new) = clear_ahead s1 (c ∷ cs) t1 row1 fine in
    let (m, ate, done) = finish_round-inv (eat tries (forward s.hx s.hy s1)) s' went in
    let t2 = forward-Trail s.hx s.hy s1 (c ∷ cs) t1 f row1 new in
    let fed = eat-Fed tries (forward s.hx s.hy s1) m ate in
    let t3 = follow m _ c cs (eat-Trail tries _ m _ ate t2) in
    let (fhx, fhy, fgrow, fmore) = forward_lem s.hx s.hy s1 in
    let (shx, shy) = shrunk_lem m in
    let grown : m.grow ≡ s.grow + growth s1 = omega (arith, fed.grow, fgrow, fmore, egrow) in
    let field : InField s.w s.h (code s1.hx s1.hy) = record {
      from_left = f.from_left;
      from_right = rw (← ew) f.from_right;
      from_top = f.from_top;
      from_bottom = rw (← eh) f.from_bottom;
    } in
    let hx : s'.hx ≡ s1.hx = ap (λ (z : Snake). z.hx) (sym done) ∙ shx ∙ fed.hx ∙ fhx in
    let hy : s'.hy ≡ s1.hy = ap (λ (z : Snake). z.hy) (sym done) ∙ shy ∙ fed.hy ∙ fhy in
    (
      rw (← at) field,
      rw (← at) new,
      record {
        trail = rw (← at, ← grown, ← done) t3;
        lead = rw (hx, hy) (sym at);
        row = rw hy row1;
      },
    )
