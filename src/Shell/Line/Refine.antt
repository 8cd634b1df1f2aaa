-- ===== src/Shell/Line/Refine.antt =====
-- The buffer as a list: every key edits the list in the obvious way.
use mathlib.Core.Path.{subst}
use sacabambaspos.Base.{
  ℕ, zero, suc, ◌+◌, ◌-◌, ◌≤◌, ◌<◌, ◌≡◌, refl, ap, ◌∙◌, arith, true, false, List, [], ◌∷◌, ◌++◌,
  length, take, drop, get_or, ltb, leb, ◌==◌, if◌then◌else◌, Bool-cases, inl, inr,
}
use sacabambaspos.Libk.{Mem, store, memmove}
use sacabambaspos.Libk.Move.{memmove_lem}
use sacabambaspos.Shell.Line.{Line, text, chars_of, backspace, delete, insert, fill, recall}

pub length-text : (n : ℕ) (b : Mem) → length (text n b) ≡ n
unfolding text
length-text zero b = refl
length-text (suc n) b = ap (λ (k : ℕ). suc k) (length-text n (λ i. b (i + 1)))

-- Only the part in use matters.
pub text-ext : (n : ℕ) (b c : Mem) → ((i : ℕ) → i < n → b i ≡ c i) → text n b ≡ text n c
unfolding text
text-ext zero b c h = refl
text-ext (suc n) b c h =
    rw (h 0 (omega arith)) (ap (λ t. c 0 ∷ t) (text-ext n _ _ (λ i low. h (i + 1) (omega arith))))

pub get_or-text : (n : ℕ) (b : Mem) (i : ℕ) → i < n → get_or (text n b) i 0 ≡ b i
unfolding text
get_or-text zero b i h = absurd (omega arith)
get_or-text (suc n) b zero h = refl
get_or-text (suc n) b (suc i) h =
    get_or-text n (λ k. b (k + 1)) i (omega arith) ∙ ap b (omega arith)

-- The list operations, by position.
unfoldable pub insert_at : ℕ → ℕ → List ℕ → List ℕ
insert_at i c xs = take i xs ++ (c ∷ drop i xs)

unfoldable pub erase_at : ℕ → List ℕ → List ℕ
erase_at i xs = take i xs ++ drop (i + 1) xs

text-take : (i n : ℕ) (b : Mem) → i ≤ n → take i (text n b) ≡ text i b
unfolding text
text-take zero n b h = refl
text-take (suc i) zero b h = absurd (omega arith)
text-take (suc i) (suc n) b h = ap (λ t. b 0 ∷ t) (text-take i n (λ k. b (k + 1)) (omega arith))

text-drop : (i n : ℕ) (b : Mem) → i ≤ n → drop i (text n b) ≡ text (n - i) (λ k. b (k + i))
unfolding text
text-drop zero n b h = rw (whole) (text-ext n b (λ k. b (k + 0)) (λ i low. ap b (omega arith)))
  where
    whole : n - 0 ≡ n
    whole = omega arith
text-drop (suc i) zero b h = absurd (omega arith)
text-drop (suc i) (suc n) b h =
    text-drop i n (λ k. b (k + 1)) (omega arith)
    ∙ rw (rest) (text-ext (n - i) _ _ (λ k low. ap b (omega arith)))
  where
    rest : suc n - suc i ≡ n - i
    rest = omega arith

text-append : (i n : ℕ) (b : Mem) → text (i + n) b ≡ text i b ++ text n (λ k. b (k + i))
unfolding text
text-append zero n b = rw (whole) (text-ext n b (λ k. b (k + 0)) (λ k low. ap b (omega arith)))
  where
    whole : 0 + n ≡ n
    whole = omega arith
text-append (suc i) n b = rw (one_more) (
    ap (λ t. b 0 ∷ t)
      (text-append i n (λ k. b (k + 1))
        ∙ ap (λ t. text i (λ k. b (k + 1)) ++ t) (text-ext n _ _ (λ k low. ap b (omega arith)))))
  where
    one_more : suc i + n ≡ suc (i + n)
    one_more = omega arith

-- An array that agrees with two others below and from a position on.
text-parts :
    (i n : ℕ) (b low high : Mem)
    → ((k : ℕ) → k < i → b k ≡ low k)
    → ((k : ℕ) → k < n → b (k + i) ≡ high k)
    → text (i + n) b ≡ text i low ++ text n high
text-parts i n b low high below above =
    text-append i n b
    ∙ ap (λ t. t ++ text n (λ k. b (k + i))) (text-ext i b low below)
    ∙ ap (λ t. text i low ++ t) (text-ext n (λ k. b (k + i)) high above)

pub insert_lem :
    (c : ℕ) (l : Line) → l.cur ≤ l.len → chars_of (insert c l) ≡ insert_at l.cur c (chars_of l)
unfolding insert insert_at text
insert_lem c l h =
    ap (λ k. text k new) (omega arith)
    ∙ text-parts l.cur (suc (l.len - l.cur)) new l.b after below above
    ∙ rw (text-take l.cur l.len l.b h, text-drop l.cur l.len l.b h)
        (ap (λ t. text l.cur l.b ++ t) tail)
  where
    new : Mem
    new = store (memmove (l.cur + 1) l.cur (l.len - l.cur) l.b) l.cur c

    after : Mem
    after k = if k == 0 then c else l.b (k - 1 + l.cur)

    after_suc : (k : ℕ) → after (k + 1) ≡ l.b (k + l.cur)
    after_suc k =
        let from : k + 1 - 1 + l.cur ≡ k + l.cur = omega arith in ground (arith, ap l.b from)

    below : (k : ℕ) → k < l.cur → new k ≡ l.b k
    below k low = ground (arith, memmove_lem (l.cur + 1) l.cur (l.len - l.cur) l.b k)

    above : (k : ℕ) → k < suc (l.len - l.cur) → new (k + l.cur) ≡ after k
    above zero low = ground arith
    above (suc k) low =
        let from : l.cur + (suc k + l.cur - (l.cur + 1)) ≡ suc k - 1 + l.cur = omega arith in
        ground
          (arith, memmove_lem (l.cur + 1) l.cur (l.len - l.cur) l.b (suc k + l.cur), ap l.b from)

    tail : text (suc (l.len - l.cur)) after ≡ c ∷ text (l.len - l.cur) (λ k. l.b (k + l.cur))
    tail = ap (λ t. c ∷ t) (text-ext (l.len - l.cur) _ _ (λ k low. after_suc k))

-- A character is moved over.
erase_lem :
    (i n : ℕ) (b : Mem)
    → i < n
    → text (n - 1) (memmove i (i + 1) (n - (i + 1)) b) ≡ erase_at i (text n b)
unfolding erase_at
erase_lem i n b h =
    ap (λ k. text k new) (omega arith)
    ∙ text-parts i (n - (i + 1)) new b (λ k. b (k + (i + 1))) below above
    ∙ rw (text-take i n b (omega arith), text-drop (i + 1) n b (omega arith)) refl
  where
    new : Mem
    new = memmove i (i + 1) (n - (i + 1)) b

    below : (k : ℕ) → k < i → new k ≡ b k
    below k low = ground (arith, memmove_lem i (i + 1) (n - (i + 1)) b k)

    above : (k : ℕ) → k < n - (i + 1) → new (k + i) ≡ b (k + (i + 1))
    above k low =
        let from : i + 1 + (k + i - i) ≡ k + (i + 1) = omega arith in
        ground (arith, memmove_lem i (i + 1) (n - (i + 1)) b (k + i), ap b from)

pub delete_lem :
    (l : Line)
    → chars_of (delete l) ≡ (if ltb l.cur l.len then erase_at l.cur (chars_of l) else chars_of l)
unfolding delete
delete_lem l = elim (Bool-cases (leb l.len l.cur)) [
  | inl at_end ↦ rw (at_end, not_inside at_end) refl
  | inr inside ↦ rw (inside, is_inside inside, same_size) (erase_lem l.cur l.len l.b (ground arith))
]
  where
    not_inside : leb l.len l.cur ≡ true → ltb l.cur l.len ≡ false
    not_inside e = ground arith

    is_inside : leb l.len l.cur ≡ false → ltb l.cur l.len ≡ true
    is_inside e = ground arith

    same_size : l.len - l.cur - 1 ≡ l.len - (l.cur + 1)
    same_size = omega arith

pub backspace_lem :
    (l : Line)
    → l.cur ≤ l.len
    → chars_of (backspace l)
      ≡ (if l.cur == 0 then chars_of l else erase_at (l.cur - 1) (chars_of l))
unfolding backspace
backspace_lem l h = elim (Bool-cases (l.cur == 0)) [
  | inl at_start ↦ rw at_start refl
  | inr inside ↦ rw inside (
      subst
        (λ i.
          text (l.len - 1) (memmove (l.cur - 1) i (l.len - i) l.b)
          ≡ erase_at (l.cur - 1) (chars_of l))
        (behind inside) (erase_lem (l.cur - 1) l.len l.b (ground arith)))
]
  where
    behind : l.cur == 0 ≡ false → l.cur - 1 + 1 ≡ l.cur
    behind e = ground arith

fill_other : (h : List ℕ) (a i : ℕ) (m : Mem) → i < a → fill a h m i ≡ m i
unfolding fill
fill_other [] a i m low = refl
fill_other (c ∷ h) a i m low = fill_other h (a + 1) i (store m a c) (omega arith) ∙ ground arith

fill_lem : (h : List ℕ) (a : ℕ) (m : Mem) → text (length h) (λ k. fill a h m (k + a)) ≡ h
unfolding fill text
fill_lem [] a m = refl
fill_lem (c ∷ h) a m =
    ap (λ d. d ∷ text (length h) (λ i. fill (a + 1) h (store m a c) (i + 1 + a))) first
    ∙ ap (λ t. c ∷ t)
        (text-ext (length h) _ _ (λ i low. ap (fill (a + 1) h (store m a c)) (omega arith))
          ∙ fill_lem h (a + 1) (store m a c))
  where
    first : fill (a + 1) h (store m a c) (0 + a) ≡ c
    first = fill_other h (a + 1) (0 + a) (store m a c) (omega arith) ∙ ground arith

pub recall_lem : (h : List ℕ) (l : Line) → chars_of (recall h l) ≡ h
unfolding recall
recall_lem h l =
    text-ext (length h) _ _ (λ k low. ap (fill 0 h l.b) (omega arith)) ∙ fill_lem h 0 l.b
