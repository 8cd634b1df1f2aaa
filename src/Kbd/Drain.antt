-- ===== src/Kbd/Drain.antt =====
-- The loop of `kbd_trygetc` ends: each round takes a scancode out of the ring or returns.
use sacabambaspos.Base.{
  ℕ, zero, suc, ◌+◌, ◌≤◌, ◌<◌, ◌≡◌, ◌≢◌, arith, none, some, [], ◌∷◌, length, length-append,
  Option-cases, inl, inr, refl, Option,
}
use sacabambaspos.Ring.{Ring, push, pop, contents}
use sacabambaspos.Ring.Refine.{IsValid, push-IsValid, pop-IsValid, contents-push, contents-pop}
use sacabambaspos.Kbd.{bufsz, Controller, poll_rounds, kbd_poll, Kbd, decode, drain}

pub poll_rounds-IsValid :
    (n : ℕ) (k : Controller) {r : Ring} → IsValid bufsz r → IsValid bufsz (poll_rounds n k r).0
unfolding poll_rounds
poll_rounds-IsValid zero k v = v
poll_rounds-IsValid (suc n) [] v = v
poll_rounds-IsValid (suc n) ((st, sc) ∷ k) v =
    ground (arith, poll_rounds-IsValid n k v, poll_rounds-IsValid n k (push-IsValid bufsz sc v))

-- A push lengthens the queue by one at most.
length-push :
    {r : Ring} (v : ℕ)
    → IsValid bufsz r
    → length (contents bufsz (push bufsz v r)) ≤ length (contents bufsz r) + 1
length-push {r} v ok =
    ground (arith, contents-push bufsz v ok, length-append (contents bufsz r) (v ∷ []))

-- What a poll adds to the ring it takes from the controller.
length-poll_rounds :
    (n : ℕ) (k : Controller) {r : Ring}
    → IsValid bufsz r
    → length (contents bufsz (poll_rounds n k r).0) + length (poll_rounds n k r).1
      ≤ length (contents bufsz r) + length k
unfolding poll_rounds
length-poll_rounds zero k v = omega arith
length-poll_rounds (suc n) [] v = omega arith
length-poll_rounds (suc n) ((st, sc) ∷ k) v = ground (
  arith,
  length-poll_rounds n k v,
  length-poll_rounds n k (push-IsValid bufsz sc v),
  length-push sc v,
)

length-pop :
    {r : Ring} (x : ℕ)
    → IsValid bufsz r
    → (pop bufsz r).0 ≡ some x
    → length (contents bufsz (pop bufsz r).1) < length (contents bufsz r)
length-pop {r} x v e = ground (arith, contents-pop bufsz v)

kbd_poll-IsValid : (k : Controller) {r : Ring} → IsValid bufsz r → IsValid bufsz (kbd_poll k r).0
unfolding kbd_poll
kbd_poll-IsValid k v = poll_rounds-IsValid 16 k v

length-kbd_poll :
    (k : Controller) {r : Ring}
    → IsValid bufsz r
    → length (contents bufsz (kbd_poll k r).0) + length (kbd_poll k r).1
      ≤ length (contents bufsz r) + length k
unfolding kbd_poll
length-kbd_poll k v = length-poll_rounds 16 k v

-- With more rounds than there are scancodes in a valid ring and bytes in the controller, the loop of
-- `kbd_trygetc` returns.
pub drain-ne-none :
    (n : ℕ) (k : Controller) (s : Kbd)
    → IsValid bufsz s.ring
    → length (contents bufsz s.ring) + length k < n
    → drain n k s ≢ none
unfolding drain
drain-ne-none zero k s v h = absurd (omega arith)
drain-ne-none (suc n) k s v h = elim (Option-cases (pop bufsz polled).0) [
  | inl none_left ↦ rw (none_left, drain) (λ e. cc)
  | inr (code, e) ↦
      rw (e, drain)
        (elim (Option-cases (decode code s.decoder).0) [
          | inl quiet ↦ rw quiet (
              drain-ne-none n (kbd_poll k s.ring).1 _ (pop-IsValid bufsz polled_ok)
                (omega (arith, length-kbd_poll k v, length-pop code polled_ok e)))
          | inr (c, key) ↦ rw key (λ q. cc)
        ])
]
  where
    polled : Ring
    polled = (kbd_poll k s.ring).0

    polled_ok : IsValid bufsz polled
    polled_ok = kbd_poll-IsValid k v

-- So it gives a result, and the ring is valid again.
pub drain-IsValid :
    (n : ℕ) (k : Controller) (s : Kbd)
    → IsValid bufsz s.ring
    → length (contents bufsz s.ring) + length k < n
    → (key : Option ℕ) × (s' : Kbd) × (k' : Controller) × (drain n k s ≡ some (key, s', k'))
      × IsValid bufsz s'.ring
unfolding drain
drain-IsValid zero k s v h = absurd (omega arith)
drain-IsValid (suc n) k s v h = elim (Option-cases (pop bufsz polled).0) [
  | inl none_left ↦ (
    none,
    record s { ring = (pop bufsz polled).1 },
    left,
    rw (none_left, drain) refl,
    pop-IsValid bufsz polled_ok,
  )
  | inr (code, e) ↦
      let d = (decode code s.decoder).1 in
      let s' : Kbd = record { ring = (pop bufsz polled).1; decoder = d } in
      elim (Option-cases (decode code s.decoder).0) [
        | inl quiet ↦
            let (key, t, k', more, ok) =
              drain-IsValid n left s' (pop-IsValid bufsz polled_ok)
                (omega (arith, length-kbd_poll k v, length-pop code polled_ok e)) in
            (key, t, k', rw (e, drain) (rw quiet more), ok)
        | inr (c, key) ↦
            (some c, s', left, rw (e, drain) (rw key refl), pop-IsValid bufsz polled_ok)
      ]
]
  where
    polled : Ring
    polled = (kbd_poll k s.ring).0

    left : Controller
    left = (kbd_poll k s.ring).1

    polled_ok : IsValid bufsz polled
    polled_ok = kbd_poll-IsValid k v
