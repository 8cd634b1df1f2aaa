-- ===== src/Usb/Config/Refine.antt =====
-- The search for a keyboard, `find_kbd_if` of src/kernel/usb.c, on a list of descriptors.
use sacabambaspos.Base.{
  ℕ, zero, suc, ◌+◌, ◌*◌, ◌%◌, ◌≤◌, ◌≡◌, ◌≢◌, refl, ap, ◌∙◌, arith, ◌&&◌, List, [], ◌∷◌, leb, ◌==◌,
  if◌then◌else◌, Bool-cases, inl, inr, Option, none, some, test_bit,
}
use sacabambaspos.Usb.Config.{
  KbdIf, keyboard_at, interrupt_in, endpoint_at, stop, hit, next, endpoint_round, round_at,
  kbd_if_from, find_kbd_if,
}

-- What `find_kbd_if` reads of a descriptor.
pub data Descriptor : Type 0 where
  interface : (len number setting class protocol : ℕ) → Descriptor
  endpoint : (len address attributes size_low size_high interval : ℕ) → Descriptor
  other : (len type : ℕ) → Descriptor

unfoldable pub size : Descriptor → ℕ
size (interface len number setting class protocol) = len
size (endpoint len address attributes size_low size_high interval) = len
size (other len type) = len

-- The descriptor lies at index `i`.
unfoldable pub IsAt : (ℕ → ℕ) → ℕ → Descriptor → Type 0
unfolding size
IsAt b i (interface len number setting class protocol) =
    (b i ≡ len)
    × (b (i + 1) ≡ 4)
    × (b (i + 2) ≡ number)
    × (b (i + 3) ≡ setting)
    × (b (i + 5) ≡ class)
    × (b (i + 7) ≡ protocol)
IsAt b i (endpoint len address attributes size_low size_high interval) =
    (b i ≡ len)
    × (b (i + 1) ≡ 5)
    × (b (i + 2) ≡ address)
    × (b (i + 3) ≡ attributes)
    × (b (i + 4) ≡ size_low)
    × (b (i + 5) ≡ size_high)
    × (b (i + 6) ≡ interval)
IsAt b i (other len type) = (b i ≡ len) × (b (i + 1) ≡ type) × (type ≢ 4) × (type ≢ 5)

-- The descriptors lie one after the other from `i` up to `tot`.
unfoldable pub AreAt : (ℕ → ℕ) → ℕ → ℕ → List Descriptor → Type 0
unfolding size IsAt
AreAt b tot i [] = i ≡ tot
AreAt b tot i (d ∷ ds) = (2 ≤ size d) × (IsAt b i d) × AreAt b tot (i + size d) ds

-- The first interrupt IN endpoint behind the interface of a keyboard, before another interface.
unfoldable pub first_kbd : Option ℕ → List Descriptor → Option KbdIf
first_kbd cur [] = none
first_kbd cur (interface len number setting class protocol ∷ ds) =
    first_kbd (if class == 3 && protocol == 1 && setting == 0 then some number else none) ds
first_kbd none (endpoint len address attributes size_low size_high interval ∷ ds) =
    first_kbd none ds
first_kbd (some c) (endpoint len address attributes size_low size_high interval ∷ ds) =
    let later = first_kbd (some c) ds in
    if leb 128 (address % 256) && attributes % 4 == 3
    then some (record {
      iface = c;
      ep = address % 16;
      interval = interval;
      mps = size_low + 256 * size_high;
    })
    else later
first_kbd cur (other len type ∷ ds) = first_kbd cur ds

AreAt-end : (b : ℕ → ℕ) (tot i : ℕ) (ds : List Descriptor) → AreAt b tot i ds → i ≤ tot
unfolding AreAt
AreAt-end b tot i [] e = omega arith
AreAt-end b tot i (d ∷ ds) (large, d', a) = let h = AreAt-end b tot (i + size d) ds a in omega arith

-- A whole descriptor is looked at.
round_at-whole :
    (b : ℕ → ℕ) (tot i : ℕ) (cur : Option ℕ)
    → 2 ≤ b i
    → i + b i ≤ tot
    → round_at b tot i cur ≡ (
        if b (i + 1) == 4
        then next (keyboard_at b i)
        else if b (i + 1) == 5
        then endpoint_round b i cur
        else next cur)
unfolding round_at
round_at-whole b tot i cur large ends = ground arith

-- A round on each kind of descriptor.
round_at-interface :
    (b : ℕ → ℕ) (tot i : ℕ) (cur : Option ℕ)
    → 2 ≤ b i
    → i + b i ≤ tot
    → b (i + 1) ≡ 4
    → round_at b tot i cur ≡ next (keyboard_at b i)
round_at-interface b tot i cur large ends e = ground (arith, round_at-whole b tot i cur large ends)

round_at-endpoint :
    (b : ℕ → ℕ) (tot i : ℕ) (cur : Option ℕ)
    → 2 ≤ b i
    → i + b i ≤ tot
    → b (i + 1) ≡ 5
    → round_at b tot i cur ≡ endpoint_round b i cur
round_at-endpoint b tot i cur large ends e = ground (arith, round_at-whole b tot i cur large ends)

round_at-other :
    (b : ℕ → ℕ) (tot i : ℕ) (cur : Option ℕ)
    → 2 ≤ b i
    → i + b i ≤ tot
    → b (i + 1) ≢ 4
    → b (i + 1) ≢ 5
    → round_at b tot i cur ≡ next cur
round_at-other b tot i cur large ends e f = ground (arith, round_at-whole b tot i cur large ends)

kbd_if_from-next :
    (n : ℕ) (b : ℕ → ℕ) (tot i : ℕ) (cur c : Option ℕ)
    → round_at b tot i cur ≡ next c
    → kbd_if_from (suc n) b tot i cur ≡ kbd_if_from n b tot (i + b i) c
unfolding kbd_if_from
kbd_if_from-next n b tot i cur c e = rw (e, kbd_if_from) refl

kbd_if_from-hit :
    (n : ℕ) (b : ℕ → ℕ) (tot i : ℕ) (cur : Option ℕ) (k : KbdIf)
    → round_at b tot i cur ≡ hit k
    → kbd_if_from (suc n) b tot i cur ≡ some k
unfolding kbd_if_from
kbd_if_from-hit n b tot i cur k e = rw (e, kbd_if_from) refl

kbd_if_from-end :
    (n : ℕ) (b : ℕ → ℕ) (tot i : ℕ) (cur : Option ℕ) → i ≡ tot → kbd_if_from n b tot i cur ≡ none
unfolding kbd_if_from round_at
kbd_if_from-end zero b tot i cur e = refl
kbd_if_from-end (suc n) b tot i cur e = rw (stops, kbd_if_from) refl
  where
    stops : round_at b tot i cur ≡ stop
    stops = ground arith

keyboard_at-interface :
    (b : ℕ → ℕ) (i number setting class protocol : ℕ)
    → b (i + 2) ≡ number
    → b (i + 3) ≡ setting
    → b (i + 5) ≡ class
    → b (i + 7) ≡ protocol
    → keyboard_at b i ≡ (if class == 3 && protocol == 1 && setting == 0 then some number else none)
unfolding keyboard_at
keyboard_at-interface b i number setting class protocol num set cls pro =
    rw (num, set, cls, pro) refl

interrupt_in_lem :
    (address attributes : ℕ)
    → interrupt_in address attributes ≡ leb 128 (address % 256) && attributes % 4 == 3
unfolding interrupt_in
interrupt_in_lem address attributes = ap (λ x. x && attributes % 4 == 3) (top_bit address)
  where
    top_bit : (x : ℕ) → test_bit x 7 ≡ leb 128 (x % 256)
    top_bit x = ground arith

endpoint_round-endpoint :
    (b : ℕ → ℕ) (i c address attributes size_low size_high interval : ℕ)
    → b (i + 2) ≡ address
    → b (i + 3) ≡ attributes
    → b (i + 4) ≡ size_low
    → b (i + 5) ≡ size_high
    → b (i + 6) ≡ interval
    → endpoint_round b i (some c) ≡ (
        if leb 128 (address % 256) && attributes % 4 == 3
        then hit (record {
          iface = c;
          ep = address % 16;
          interval = interval;
          mps = size_low + 256 * size_high;
        })
        else next (some c))
unfolding endpoint_round endpoint_at
endpoint_round-endpoint b i c address attributes size_low size_high interval addr att lo hi int =
    rw (addr, att, lo, hi, int, interrupt_in_lem address attributes) refl

kbd_if_from-first_kbd :
    (n : ℕ) (b : ℕ → ℕ) (tot i : ℕ) (cur : Option ℕ) (ds : List Descriptor)
    → AreAt b tot i ds
    → tot ≤ i + n
    → kbd_if_from n b tot i cur ≡ first_kbd cur ds
unfolding AreAt IsAt first_kbd endpoint_round
kbd_if_from-first_kbd n b tot i cur [] a h = kbd_if_from-end n b tot i cur a
kbd_if_from-first_kbd zero b tot i cur (d ∷ ds) (large, d', a) h =
    let ends = AreAt-end b tot (i + size d) ds a in ground arith
kbd_if_from-first_kbd (suc n) b tot i cur (interface len number setting class protocol ∷ ds)
      (large, (l, t, num, set, cls, pro), a) h =
    let ends = AreAt-end b tot (i + len) ds a in
    let now = round_at-interface b tot i cur (omega arith) (omega arith) t in
    let same = keyboard_at-interface b i number setting class protocol num set cls pro in
    let ih = kbd_if_from-first_kbd n b tot (i + len) _ ds a (omega arith) in
    kbd_if_from-next n b tot i cur _ now ∙ rw (l, same) ih
kbd_if_from-first_kbd (suc n) b tot i none
      (endpoint len address attributes size_low size_high interval ∷ ds)
      (large, (l, t, addr, att, lo, hi, int), a) h =
    let ends = AreAt-end b tot (i + len) ds a in
    let now = round_at-endpoint b tot i none (omega arith) (omega arith) t in
    let ih = kbd_if_from-first_kbd n b tot (i + len) none ds a (omega arith) in
    kbd_if_from-next n b tot i none none now ∙ rw (l) ih
kbd_if_from-first_kbd (suc n) b tot i (some c)
      (endpoint len address attributes size_low size_high interval ∷ ds)
      (large, (l, t, addr, att, lo, hi, int), a) h =
    let ends = AreAt-end b tot (i + len) ds a in
    let now = round_at-endpoint b tot i (some c) (omega arith) (omega arith) t in
    let ih = kbd_if_from-first_kbd n b tot (i + len) (some c) ds a (omega arith) in
    let read =
      endpoint_round-endpoint b i c address attributes size_low size_high interval addr att lo hi
        int in
    let found : KbdIf = record {
      iface = c;
      ep = address % 16;
      interval = interval;
      mps = size_low + 256 * size_high;
    } in
    elim (Bool-cases (leb 128 (address % 256) && attributes % 4 == 3)) [
      | inl is_in ↦
          kbd_if_from-hit n b tot i (some c) found (now ∙ read ∙ rw (is_in) refl) ∙ rw (is_in) refl
      | inr out ↦
          kbd_if_from-next n b tot i (some c) (some c) (now ∙ read ∙ rw (out) refl) ∙ rw (out, l) ih
    ]
kbd_if_from-first_kbd (suc n) b tot i cur (other len type ∷ ds) (large, (l, t, ne4, ne5), a) h =
    let ends = AreAt-end b tot (i + len) ds a in
    let now = round_at-other b tot i cur (omega arith) (omega arith) (rw (t) ne4) (rw (t) ne5) in
    let ih = kbd_if_from-first_kbd n b tot (i + len) cur ds a (omega arith) in
    kbd_if_from-next n b tot i cur cur now ∙ rw (l) ih

-- When descriptors of two bytes or more fill the buffer, one after the other, find_kbd_if finds the first
-- interrupt IN endpoint that stands behind the descriptor of a keyboard interface in its setting 0, with no
-- other interface between them, and finds nothing when there is none.
pub find_kbd_if_lem :
    (b : ℕ → ℕ) (tot : ℕ) (ds : List Descriptor)
    → AreAt b tot 0 ds
    → find_kbd_if b tot ≡ first_kbd none ds
unfolding find_kbd_if
find_kbd_if_lem b tot ds a = kbd_if_from-first_kbd tot b tot 0 none ds a (omega arith)
