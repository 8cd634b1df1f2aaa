-- ===== src/Kbd/Modifiers.antt =====
-- Shift, caps lock and the 0xE0 prefix over a whole stream of scancodes.
use sacabambaspos.Base.{
  ℕ, ◌+◌, ◌≡◌, ◌<◌, refl, arith, Bool, true, false, not, List, [], ◌∷◌, ◌==◌, if◌then◌else◌,
}
use sacabambaspos.Kbd.{Decoder, decode}

-- The decoder after a stream.
pub decode_all : List ℕ → Decoder → Decoder
decode_all [] d = d
decode_all (sc ∷ scs) d = decode_all scs (decode sc d).1

-- The stream read as whole codes: the prefix 0xE0 belongs to the code behind it.
pub data Code : Type 0 where
  plain : ℕ → Code
  extended : ℕ → Code

pub codes : Bool → List ℕ → List Code
codes e [] = []
codes e (sc ∷ scs) =
    let rest = codes false scs in
    if sc == 0xE0 then codes true scs else (if e then extended sc else plain sc) ∷ rest

-- A key is down after its make code `k` and up after its break code `k + 128`.
pub held : ℕ → List Code → Bool → Bool
held k [] b = b
held k (extended sc ∷ cs) b = held k cs b
held k (plain sc ∷ cs) b = held k cs (if sc == k then true else if sc == k + 128 then false else b)

-- Caps lock changes at every make code of its key.
pub toggled : List Code → Bool → Bool
toggled [] b = b
toggled (extended sc ∷ cs) b = toggled cs b
toggled (plain sc ∷ cs) b = toggled cs (if sc == 0x3A then not b else b)

abbrev pub IsStream : List ℕ → Type 0
IsStream [] = Unit
IsStream (sc ∷ scs) = (sc < 256) × IsStream scs

-- After any stream of bytes each of the two shift flags is set exactly when its key is held down in
-- the stream read as whole codes, and caps lock is on as often as its key was pressed asks for; a code
-- behind 0xE0 counts for none of them.
pub shift-decode_all :
    (scs : List ℕ) (d : Decoder)
    → IsStream scs
    → ((decode_all scs d).shift_l ≡ held 0x2A (codes d.ext scs) d.shift_l)
      × ((decode_all scs d).shift_r ≡ held 0x36 (codes d.ext scs) d.shift_r)
      × ((decode_all scs d).caps ≡ toggled (codes d.ext scs) d.caps)
unfolding decode_all decode codes held toggled
shift-decode_all [] d h = (refl, refl, refl)
shift-decode_all (sc ∷ scs) d h = ground (arith, shift-decode_all scs (decode sc d).1 h.1)
