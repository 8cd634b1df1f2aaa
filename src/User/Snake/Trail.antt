-- ===== src/User/Snake/Trail.antt =====
-- The ring `body` and the grid `occ` of the snake, as the list of its cells, the head first.
use sacabambaspos.Base.{
  ℕ, suc, ◌+◌, ◌-◌, ◌*◌, ◌/◌, ◌%◌, ◌≤◌, ◌<◌, ◌≡◌, refl, ap, ◌∙◌, arith, false, List, [], ◌∷◌,
  length, ◌==◌, ltb, if◌then◌else◌, Bool-cases, inl, inr,
}
use sacabambaspos.User.Snake.{Snake, forward, shrink, erase, set_occ, emit_calls, pack}
use sacabambaspos.User.Snake.Cells.{
  member, Distinct, front, last, length-front, member-front, Distinct-front, AllBelow, length-le,
}

abbrev pub code : ℕ → ℕ → ℕ
code x y = 64 * x + y

-- What `body` holds for a cell.
abbrev pub packed : ℕ → ℕ
packed k = pack (k / 64) (k % 64)

-- Inside the border.
pub record InField (w h k : ℕ) : Type 0 where
  pub from_left : 1 ≤ k / 64
  pub from_right : k / 64 < w - 1
  pub from_top : 2 ≤ k % 64
  pub from_bottom : k % 64 < h - 1

abbrev pub AllIn : ℕ → ℕ → List ℕ → Type 0
AllIn w h [] = Unit
AllIn w h (c ∷ cs) = InField w h c × AllIn w h cs

-- The ring read backwards from index `i`.
abbrev pub InRing : (ℕ → ℕ) → ℕ → List ℕ → Type 0
InRing body i [] = Unit
InRing body i (c ∷ cs) = (body i ≡ packed c) × InRing body ((i + 8191) % 8192) cs

pub record Trail (s : Snake) (cells : List ℕ) : Type 0 where
  pub wide : s.w ≤ 128
  pub high : s.h ≤ 64
  pub some_cell : 0 < length cells
  pub inside : AllIn s.w s.h cells
  pub distinct : Distinct cells
  pub head_lt : s.head < 8192
  pub ring : InRing s.body s.head cells
  pub tail_at : s.tail ≡ (s.head + 8193 - length cells) % 8192
  pub occupied : (x y : ℕ) → y < 64 → s.occ x y ≡ member (code x y) cells

AllIn-AllBelow : (w h : ℕ) (cs : List ℕ) → w ≤ 128 → AllIn w h cs → AllBelow 8128 cs
AllIn-AllBelow w h [] wide a = tt
AllIn-AllBelow w h (c ∷ cs) wide (f, a) =
    let x = f.from_right in (omega (arith, x), AllIn-AllBelow w h cs wide a)

-- The ring has room for one more cell.
pub Trail-room : {s : Snake} {cells : List ℕ} → Trail s cells → length cells ≤ 8128
Trail-room {s} {cells} t =
    length-le 8128 cells t.distinct (AllIn-AllBelow s.w s.h cells t.wide t.inside)

-- Writing at `j` leaves `n` entries back from `i` alone, when it is not among them.
InRing-update :
    (body : ℕ → ℕ) (j v i n : ℕ) (cs : List ℕ)
    → i < 8192
    → (i + n + 1) % 8192 ≡ j
    → length cs + n < 8192
    → InRing body i cs
    → InRing (λ k. if k == j then v else body k) i cs
InRing-update body j v i n [] lt e room r = tt
InRing-update body j v i n (c ∷ cs) lt e room (here, rest) = (
  ground (arith, here),
  InRing-update body j v ((i + 8191) % 8192) (n + 1) cs (omega arith) (omega arith) (omega arith)
      rest,
)

InRing-front : (body : ℕ → ℕ) (i : ℕ) (cs : List ℕ) → InRing body i cs → InRing body i (front cs)
InRing-front body i [] r = tt
InRing-front body i (c ∷ []) r = tt
InRing-front body i (c ∷ d ∷ cs) (here, rest) =
    (here, InRing-front body ((i + 8191) % 8192) (d ∷ cs) rest)

AllIn-front : (w h : ℕ) (cs : List ℕ) → AllIn w h cs → AllIn w h (front cs)
AllIn-front w h [] a = tt
AllIn-front w h (c ∷ []) a = tt
AllIn-front w h (c ∷ d ∷ cs) (f, a) = (f, AllIn-front w h (d ∷ cs) a)

-- The tail's entry is the last cell.
InRing-last :
    (body : ℕ → ℕ) (i : ℕ) (c : ℕ) (cs : List ℕ)
    → i < 8192
    → length cs < 8192
    → InRing body i (c ∷ cs)
    → body ((i + 8192 - length cs) % 8192) ≡ packed (last (c ∷ cs))
InRing-last body i c [] lt room (here, rest) = ap body (omega arith) ∙ here
InRing-last body i c (d ∷ cs) lt room (here, rest) =
    let same : (i + 8192 - suc (length cs)) % 8192 ≡ ((i + 8191) % 8192 + 8192 - length cs) % 8192 =
      omega arith in
    ap body same ∙ InRing-last body ((i + 8191) % 8192) d cs (omega arith) (omega arith) rest

AllIn-last : (w h c : ℕ) (cs : List ℕ) → AllIn w h (c ∷ cs) → InField w h (last (c ∷ cs))
AllIn-last w h c [] (f, a) = f
AllIn-last w h c (d ∷ cs) (f, a) = AllIn-last w h d cs a

pub forward-Trail :
    (px py : ℕ) (s : Snake) (cells : List ℕ)
    → Trail s cells
    → InField s.w s.h (code s.hx s.hy)
    → s.hy < 64
    → member (code s.hx s.hy) cells ≡ false
    → Trail (forward px py s) (code s.hx s.hy ∷ cells)
unfolding forward emit_calls set_occ
forward-Trail px py s cells t f low new =
    let room = Trail-room t in
    let j = (s.head + 1) % 8192 in
    let back : (j + 8191) % 8192 ≡ s.head = omega (arith, t.head_lt) in
    record {
      wide = t.wide;
      high = t.high;
      some_cell = omega arith;
      inside = (f, t.inside);
      distinct = (new, t.distinct);
      head_lt = omega arith;
      ring = (
        ground arith,
        rw back (
            InRing-update s.body j (pack s.hx s.hy) s.head 0 cells t.head_lt (omega arith)
              (omega (arith, room)) t.ring),
      );
      tail_at = omega (arith, t.tail_at, room, t.head_lt, t.some_cell);
      occupied = λ x y lt. ground (arith, t.occupied x y lt);
    }

-- The entry at `tail`, and its coordinates.
tail_entry :
    (s : Snake) (c : ℕ) (cs : List ℕ)
    → Trail s (c ∷ cs)
    → (s.body s.tail / 256 ≡ last (c ∷ cs) / 64) × (s.body s.tail % 256 ≡ last (c ∷ cs) % 64)
tail_entry s c cs t =
    let room = Trail-room t in
    let at : s.tail ≡ (s.head + 8192 - length cs) % 8192 = omega (arith, t.tail_at) in
    let entry =
      ap s.body at ∙ InRing-last s.body s.head c cs t.head_lt (omega (arith, room)) t.ring in
    (omega (arith, entry), omega (arith, entry))

erase-Trail :
    (s : Snake) (c : ℕ) (cs : List ℕ)
    → Trail s (c ∷ cs)
    → 0 < length cs
    → Trail (erase s) (front (c ∷ cs))
unfolding erase emit_calls set_occ
erase-Trail s c cs t two = record {
  wide = t.wide;
  high = t.high;
  some_cell = omega (arith, length-front (c ∷ cs));
  inside = AllIn-front s.w s.h (c ∷ cs) t.inside;
  distinct = Distinct-front (c ∷ cs) t.distinct;
  head_lt = t.head_lt;
  ring = InRing-front s.body s.head (c ∷ cs) t.ring;
  tail_at = omega (arith, t.tail_at, length-front (c ∷ cs), Trail-room t, t.head_lt);
  occupied = λ x y lt. ground (
    arith,
    (tail_entry s c cs t).0,
    (tail_entry s c cs t).1,
    member-front (code x y) (c ∷ cs) t.distinct,
    t.occupied x y lt,
  );
}

-- A snake with the same ring and grid.
pub same-Trail :
    {s : Snake} {cells : List ℕ} (s' : Snake)
    → s'.w ≡ s.w
    → s'.h ≡ s.h
    → s'.head ≡ s.head
    → s'.tail ≡ s.tail
    → s'.body ≡ s.body
    → s'.occ ≡ s.occ
    → Trail s cells
    → Trail s' cells
same-Trail s' ew eh ehead etail ebody eocc t = record {
  wide = rw ew t.wide;
  high = rw eh t.high;
  some_cell = t.some_cell;
  inside = rw (ew, eh) t.inside;
  distinct = t.distinct;
  head_lt = rw ehead t.head_lt;
  ring = rw (ebody, ehead) t.ring;
  tail_at = rw (etail, ehead) t.tail_at;
  occupied = λ x y lt. rw eocc (t.occupied x y lt);
}

-- The tail follows when the snake does not grow.
pub shrink-Trail :
    (s : Snake) (c : ℕ) (cs : List ℕ)
    → Trail s (c ∷ cs)
    → 0 < length cs
    → Trail (shrink s) (if ltb 0 s.grow then c ∷ cs else front (c ∷ cs))
unfolding shrink
shrink-Trail s c cs t two = elim (Bool-cases (ltb 0 s.grow)) [
  | inl e ↦ rw e (same-Trail _ refl refl refl refl refl refl t)
  | inr e ↦ rw e (erase-Trail s c cs t two)
]
