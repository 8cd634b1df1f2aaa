-- ===== src/Kbd/Getc.antt =====
-- src/kernel/kbd.c, `kbd_getc`: a key is waited for.
use sacabambaspos.Base.{
  ℕ, ◌+◌, ◌≡◌, ◌≢◌, refl, arith, Option, none, some, List, [], ◌∷◌, ◌++◌, length,
}
use sacabambaspos.Ring.{contents}
use sacabambaspos.Ring.Refine.{IsValid}
use sacabambaspos.Kbd.{bufsz, Controller, Kbd, kbd_trygetc}
use sacabambaspos.Kbd.Drain.{drain-IsValid}

-- What comes between two tries: the key of the USB keyboard, if there is one, and bytes in the controller.
abbrev pub Arrival : Type 0
Arrival = Option ℕ × Controller

-- The rounds that a try needs.
abbrev pub rounds : Controller → Kbd → ℕ
rounds k s = length (contents bufsz s.ring) + length k + 1

-- One try, with what was left in the controller.
unfoldable pub try : Arrival → Controller → Kbd → Option (Option ℕ × Kbd × Controller)
try (usb, bytes) k s = kbd_trygetc usb (rounds (k ++ bytes) s) (k ++ bytes) s

-- `none` waits for an arrival that does not come.
unfoldable pub kbd_getc :
    List Arrival → Controller → Kbd → Option (ℕ × Kbd × Controller × List Arrival)
unfolding try
kbd_getc [] k s = none
kbd_getc (a ∷ later) k s = elim (try a k s) [
  | none ↦ none
  | some (key, s', k') ↦ elim key [ none ↦ kbd_getc later k' s' | some c ↦ some (c, s', k', later) ]
]

pub try-IsValid :
    (a : Arrival) (k : Controller) (s : Kbd)
    → IsValid bufsz s.ring
    → (key : Option ℕ) × (s' : Kbd) × (k' : Controller) × (try a k s ≡ some (key, s', k'))
      × IsValid bufsz s'.ring
unfolding try kbd_trygetc
try-IsValid (some c, bytes) k s v = (some c, s, k ++ bytes, refl, v)
try-IsValid (none, bytes) k s v =
    drain-IsValid (rounds (k ++ bytes) s) (k ++ bytes) s v (omega arith)

try_usb :
    (c : ℕ) (bytes : Controller) (k : Controller) (s : Kbd)
    → try (some c, bytes) k s ≡ some (some c, s, k ++ bytes)
unfolding try kbd_trygetc
try_usb c bytes k s = refl

-- When a key of the USB keyboard comes, however much comes before it, `kbd_getc` returns.
pub kbd_getc-ne-none :
    (before : List Arrival) (c : ℕ) (bytes : Controller) (later : List Arrival) (k : Controller)
    (s : Kbd)
    → IsValid bufsz s.ring
    → kbd_getc (before ++ ((some c, bytes) ∷ later)) k s ≢ none
unfolding kbd_getc
kbd_getc-ne-none [] c bytes later k s v = rw (try_usb c bytes k s, kbd_getc) (λ e. cc)
kbd_getc-ne-none (a ∷ before) c bytes later k s v =
    let (key, s', k', tried, ok) = try-IsValid a k s v in
    rw (tried, kbd_getc) (go key s' k' (kbd_getc-ne-none before c bytes later k' s' ok))
  where
    go :
        (key : Option ℕ) (s' : Kbd) (k' : Controller)
        → kbd_getc (before ++ ((some c, bytes) ∷ later)) k' s' ≢ none
        → (elim key [
          | none ↦ kbd_getc (before ++ ((some c, bytes) ∷ later)) k' s'
          | some d ↦ some (d, s', k', before ++ ((some c, bytes) ∷ later))
        ])
          ≢ none
    go none s' k' h = h
    go (some d) s' k' h = λ e. cc

abbrev pub GotValid : Option (ℕ × Kbd × Controller × List Arrival) → Type 0
GotValid none = Unit
GotValid (some (c, s, k, later)) = IsValid bufsz s.ring

pub kbd_getc-GotValid :
    (arrivals : List Arrival) (k : Controller) (s : Kbd)
    → IsValid bufsz s.ring
    → GotValid (kbd_getc arrivals k s)
unfolding kbd_getc
kbd_getc-GotValid [] k s v = tt
kbd_getc-GotValid (a ∷ later) k s v =
    let (key, s', k', tried, ok) = try-IsValid a k s v in
    rw (tried, kbd_getc) (go key s' k' ok (kbd_getc-GotValid later k' s' ok))
  where
    go :
        (key : Option ℕ) (s' : Kbd) (k' : Controller)
        → IsValid bufsz s'.ring
        → GotValid (kbd_getc later k' s')
        → GotValid (elim key [ none ↦ kbd_getc later k' s' | some c ↦ some (c, s', k', later) ])
    go none s' k' ok h = h
    go (some c) s' k' ok h = ok
