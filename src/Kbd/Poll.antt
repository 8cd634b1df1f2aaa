-- ===== src/Kbd/Poll.antt =====
-- `kbd_poll` and `kbd_trygetc`: which bytes of the controller reach the ring, and that the read ends.
use mathlib.Core.List.{append-nil, append_assoc}
use native.Mathlib.Decide.{dec_lt}
use sacabambaspos.Base.{
  ℕ, zero, suc, ◌+◌, ◌≤◌, ◌<◌, ◌≡◌, refl, ap, arith, Bool, true, false, not, ◌&&◌, List, [], ◌∷◌,
  ◌++◌, length, take, ltb, ◌==◌, if◌then◌else◌, test_bit,
}
use sacabambaspos.Ring.{Ring, contents}
use sacabambaspos.Ring.Refine.{IsValid, push-IsValid, contents-push, length-contents-lt}
use sacabambaspos.Kbd.{bufsz, Controller, poll_rounds}

-- Output-buffer-full, from a controller that is there.
abbrev pub pending : ℕ × ℕ → Bool
pending (st, sc) = not (st == 0xFF) && test_bit st 0

-- A byte of the mouse.
abbrev pub aux : ℕ × ℕ → Bool
aux (st, sc) = test_bit st 5

abbrev pub pending_prefix : Controller → Controller
pending_prefix [] = []
pending_prefix (e ∷ k) = if pending e then e ∷ pending_prefix k else []

abbrev pub keyboard_bytes : Controller → List ℕ
keyboard_bytes [] = []
keyboard_bytes (e ∷ k) = if aux e then keyboard_bytes k else e.1 ∷ keyboard_bytes k

take_all {ℓ} : {A : Type ℓ} (n : ℕ) (xs ys : List A) → length xs ≡ n → take n (xs ++ ys) ≡ xs
take_all zero [] ys h = refl
take_all zero (x ∷ xs) ys h = absurd (omega arith)
take_all (suc n) [] ys h = absurd (omega arith)
take_all (suc n) (x ∷ xs) ys h = ap (λ t. x ∷ t) (take_all n xs ys (omega arith))

take_more {ℓ} : {A : Type ℓ} (n : ℕ) (xs : List A) → length xs ≤ n → take n xs ≡ xs
take_more zero [] h = refl
take_more zero (x ∷ xs) h = absurd (omega arith)
take_more (suc n) [] h = refl
take_more (suc n) (x ∷ xs) h = ap (λ t. x ∷ t) (take_more n xs (omega arith))

take_pushed :
    (n v : ℕ) (xs ys : List ℕ)
    → length xs ≤ n
    → take n ((if ltb (length xs + 1) (suc n) then xs ++ (v ∷ []) else xs) ++ ys)
      ≡ take n (xs ++ (v ∷ ys))
take_pushed n v xs ys h = elim (dec_lt (length xs) n) [
  | yes p ↦ rw (room p, append_assoc)
  | no p ↦ rw (full p, take_all n xs ys (omega arith), take_all n xs (v ∷ ys) (omega arith))
]
  where
    room : length xs < n → ltb (length xs + 1) (suc n) ≡ true
    room p = ground arith

    full : ¬ (length xs < n) → ltb (length xs + 1) (suc n) ≡ false
    full p = ground arith

room_below : (r : Ring) → IsValid bufsz r → length (contents bufsz r) ≤ 255
room_below r v = omega (arith, length-contents-lt bufsz v)

kept_all : (r : Ring) → IsValid bufsz r → contents bufsz r ≡ take 255 (contents bufsz r ++ [])
kept_all r v = rw (append-nil, take_more 255 (contents bufsz r) (room_below r v))

-- After `n` rounds of polling a valid ring holds its old contents and then, in order, the bytes that
-- did not come from the mouse among the first `n` of the controller, up to the first that was not
-- pending; what is beyond 255 values is dropped.
pub contents-poll_rounds :
    (n : ℕ) (k : Controller) {r : Ring}
    → IsValid bufsz r
    → contents bufsz (poll_rounds n k r).0
      ≡ take 255 (contents bufsz r ++ keyboard_bytes (pending_prefix (take n k)))
unfolding poll_rounds
contents-poll_rounds zero k {r} v = kept_all r v
contents-poll_rounds (suc n) [] {r} v = kept_all r v
contents-poll_rounds (suc n) ((st, sc) ∷ k) {r} v = ground (
  arith,
  contents-poll_rounds n k v,
  contents-poll_rounds n k (push-IsValid bufsz sc v),
  contents-push bufsz sc v,
  kept_all r v,
  take_pushed 255 sc (contents bufsz r) (keyboard_bytes (pending_prefix (take n k)))
      (room_below r v),
)
