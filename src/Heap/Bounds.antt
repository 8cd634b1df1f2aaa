-- ===== src/Heap/Bounds.antt =====
-- Where the blocks of the bump heap lie, and that they never overlap.
use mathlib.Core.Path.{subst, subst₂}
use mathlib.Core.Option.{some-injective}
use sacabambaspos.Base.{
  ℕ, ◌+◌, ◌-◌, ◌*◌, ◌/◌, ◌%◌, ◌^◌, ◌≤◌, ◌<◌, ◌≡◌, refl, ◌∙◌, arith, Option, none, some, List, [],
  ◌∷◌, ltb, leb, true, false, Bool-cases, inl, inr, ◌||◌, ap, if◌then◌else◌,
}
use sacabambaspos.Libk.{memset}
use sacabambaspos.Heap.{
  Heap, align_up, take_block, kalloc, kalloc_page, Request, bytes, page, Block, granted, allocate,
}

-- The pointer may pass the end, but not the page that the end lies in; no sum wraps.
pub record IsValid (h : Heap) : Type 0 where
  pub started : h.heap_start ≤ h.heap_at
  pub bounded : h.heap_at ≤ (h.heap_end + 4095) / 4096 * 4096
  pub no_wrap : h.heap_end + 8192 ≤ 2 ^ 64

pub kalloc-IsValid : {h : Heap} (n : ℕ) → IsValid h → IsValid (kalloc n h).1
unfolding kalloc
kalloc-IsValid n v = ground arith

pub kalloc_page-IsValid : {h : Heap} → IsValid h → IsValid (kalloc_page h).1
unfolding kalloc_page
kalloc_page-IsValid v = ground arith

-- The next multiple of `k`, with no wrap-around.
abbrev pub next_multiple : ℕ → ℕ → ℕ
next_multiple k x = (x + (k - 1)) / k * k

-- The heap after `n` bytes at `p` are taken and cleared.
abbrev pub taken : ℕ → ℕ → Heap → Heap
taken p n h = record h { heap_at = p + n; mem = memset p 0 n h.mem }

room :
    (n : ℕ) (h : Heap)
    → leb (h.heap_at + n) h.heap_end ≡ true
    → ltb h.heap_end h.heap_at || ltb (h.heap_end - h.heap_at) n ≡ false
room n h fits = ground arith

no_room :
    (n : ℕ) (h : Heap)
    → h.heap_end < 2 ^ 64
    → leb (h.heap_at + n) h.heap_end ≡ false
    → ltb h.heap_end h.heap_at || ltb (h.heap_end - h.heap_at) n ≡ true
no_room n h small over = ground arith

sum_fits :
    (n : ℕ) (h : Heap)
    → h.heap_end < 2 ^ 64
    → leb (h.heap_at + n) h.heap_end ≡ true
    → (h.heap_at + n) % 2 ^ 64 ≡ h.heap_at + n
sum_fits n h small fits = ground arith

-- `take_block` gives the block at the pointer exactly when it ends inside the heap.
take_block_lem :
    (n : ℕ) (h : Heap)
    → h.heap_end < 2 ^ 64
    → take_block n h ≡ (
        if leb (h.heap_at + n) h.heap_end then (some h.heap_at, taken h.heap_at n h) else (none, h))
unfolding take_block
take_block_lem n h small = elim (Bool-cases (leb (h.heap_at + n) h.heap_end)) [
  | inl fits ↦ rw (fits, room n h fits, sum_fits n h small fits)
  | inr over ↦ rw (over, no_room n h small over)
]

align_up-eq :
    {h : Heap} (k : ℕ) → IsValid h → k ≤ 4096 → align_up k h.heap_at ≡ next_multiple k h.heap_at
align_up-eq {h} k v s = ap (λ (t : ℕ). t / k * k) (omega arith)

-- In a valid heap `kalloc n` gives the next 16-aligned address, with its `n` bytes cleared and the
-- pointer behind them, when the block ends inside the heap; otherwise it refuses and only aligns the
-- pointer.
pub kalloc_lem :
    {h : Heap} (n : ℕ)
    → IsValid h
    → let p = next_multiple 16 h.heap_at in
      let h' = record h { heap_at = p } in
      kalloc n h ≡ (if leb (p + n) h.heap_end then (some p, taken p n h') else (none, h'))
unfolding kalloc
kalloc_lem {h} n v = rw (align_up-eq 16 v (omega arith)) (take_block_lem n _ (omega arith))

-- In a valid heap `kalloc_page` gives the next 4096-aligned address, with its 4096 bytes cleared and the
-- pointer behind them, when the page ends inside the heap; otherwise it refuses and only aligns the
-- pointer.
pub kalloc_page_lem :
    {h : Heap}
    → IsValid h
    → let p = next_multiple 4096 h.heap_at in
      let h' = record h { heap_at = p } in
      kalloc_page h ≡ (if leb (p + 4096) h.heap_end then (some p, taken p 4096 h') else (none, h'))
unfolding kalloc_page
kalloc_page_lem {h} v = rw (align_up-eq 4096 v (omega arith)) (take_block_lem 4096 _ (omega arith))

-- Blocks in a row: each begins no lower than where the one before ends, and ends by `hi`.
abbrev pub InRow : ℕ → ℕ → List Block → Type 0
InRow lo hi [] = Unit
InRow lo hi (b ∷ bs) = (lo ≤ b.addr) × (b.addr + b.size ≤ hi) × InRow (b.addr + b.size) hi bs

InRow-weaken : (lo lo' hi : ℕ) (bs : List Block) → lo' ≤ lo → InRow lo hi bs → InRow lo' hi bs
InRow-weaken lo lo' hi [] h r = tt
InRow-weaken lo lo' hi (b ∷ bs) h r = (omega arith, r.1, r.2)

-- After a call: the invariant holds, the pointer has not gone down, the end stays, and what was
-- granted lies between the old pointer, the new one and the end.
abbrev Granted : ℕ → Heap → Option ℕ × Heap → Type 0
Granted n h (none, h') = IsValid h' × (h'.heap_end ≡ h.heap_end) × (h.heap_at ≤ h'.heap_at)
Granted n h (some p, h') =
    IsValid h'
    × (h'.heap_end ≡ h.heap_end)
    × (h.heap_at ≤ p)
    × (p + n ≤ h.heap_end)
    × (h'.heap_at ≡ p + n)

kalloc-Granted : {h : Heap} (n : ℕ) → IsValid h → Granted n h (kalloc n h)
kalloc-Granted {h} n v = elim (Bool-cases (leb (next_multiple 16 h.heap_at + n) h.heap_end)) [
  | inl fits ↦ rw (kalloc_lem n v, fits) (ground arith)
  | inr over ↦ rw (kalloc_lem n v, over) (omega arith)
]

kalloc_page-Granted : {h : Heap} → IsValid h → Granted 4096 h (kalloc_page h)
kalloc_page-Granted {h} v =
    elim (Bool-cases (leb (next_multiple 4096 h.heap_at + 4096) h.heap_end)) [
      | inl fits ↦ rw (kalloc_page_lem v, fits) (ground arith)
      | inr over ↦ rw (kalloc_page_lem v, over) (omega arith)
    ]

granted-InRow :
    (n : ℕ) (h : Heap) (p : Option ℕ) (h' : Heap) (bs : List Block)
    → Granted n h (p, h')
    → InRow h'.heap_at h'.heap_end bs
    → InRow h.heap_at h.heap_end (granted p n bs)
granted-InRow n h none h' bs g r =
    subst (λ e. InRow h.heap_at e bs) g.1 (InRow-weaken h'.heap_at h.heap_at h'.heap_end bs g.2 r)
granted-InRow n h (some p) h' bs g r = (g.2, g.3, subst₂ (λ a e. InRow a e bs) g.4 g.1 r)

-- Whatever a client asks of a valid heap, the blocks that it is granted lie in a row, each behind the
-- one before, from the heap pointer to the heap's end.
pub allocate-InRow :
    (rs : List Request) {h : Heap} → IsValid h → InRow h.heap_at h.heap_end (allocate rs h).0
unfolding allocate
allocate-InRow [] v = tt
allocate-InRow (bytes n ∷ rs) {h} v =
    granted-InRow n h (kalloc n h).0 (kalloc n h).1 (allocate rs (kalloc n h).1).0
      (kalloc-Granted n v) (allocate-InRow rs (kalloc-IsValid n v))
allocate-InRow (page ∷ rs) {h} v =
    granted-InRow 4096 h (kalloc_page h).0 (kalloc_page h).1 (allocate rs (kalloc_page h).1).0
      (kalloc_page-Granted v) (allocate-InRow rs (kalloc_page-IsValid v))

-- A call for bytes never lowers the pointer, and leaves the end alone.
pub kalloc_grows :
    {h : Heap} (n : ℕ)
    → IsValid h
    → (h.heap_at ≤ (kalloc n h).1.heap_at) × ((kalloc n h).1.heap_end ≡ h.heap_end)
kalloc_grows {h} n v = elim (Bool-cases (leb (next_multiple 16 h.heap_at + n) h.heap_end)) [
  | inl fits ↦ rw (kalloc_lem n v, fits) (omega arith)
  | inr over ↦ rw (kalloc_lem n v, over) (omega arith)
]

-- The same for a call for a page.
pub kalloc_page_grows :
    {h : Heap}
    → IsValid h
    → (h.heap_at ≤ (kalloc_page h).1.heap_at) × ((kalloc_page h).1.heap_end ≡ h.heap_end)
kalloc_page_grows {h} v = elim (Bool-cases (leb (next_multiple 4096 h.heap_at + 4096) h.heap_end)) [
  | inl fits ↦ rw (kalloc_page_lem v, fits) (omega arith)
  | inr over ↦ rw (kalloc_page_lem v, over) (omega arith)
]

-- A page that is given is aligned, and lies between the old pointer, the new one and the end.
pub kalloc_page-some :
    {h : Heap} (p : ℕ)
    → IsValid h
    → (kalloc_page h).0 ≡ some p
    → (p % 4096 ≡ 0)
      × (h.heap_at ≤ p)
      × (p + 4096 ≤ h.heap_end)
      × ((kalloc_page h).1.heap_at ≡ p + 4096)
kalloc_page-some {h} p v =
    elim (Bool-cases (leb (next_multiple 4096 h.heap_at + 4096) h.heap_end)) [
      | inl fits ↦ rw (kalloc_page_lem v, fits) (λ e. ground (arith, some-injective e))
      | inr over ↦ rw (kalloc_page_lem v, over) (λ e. cc)
    ]

-- Whatever is asked for, the heap stays valid, its pointer does not go down, and its end stays.
pub allocate-IsValid :
    (rs : List Request) {h : Heap}
    → IsValid h
    → IsValid (allocate rs h).1
      × (h.heap_at ≤ (allocate rs h).1.heap_at)
      × ((allocate rs h).1.heap_end ≡ h.heap_end)
unfolding allocate
allocate-IsValid [] v = (v, omega arith, refl)
allocate-IsValid (bytes n ∷ rs) {h} v =
    let (up, same) = kalloc_grows n v in
    let (valid, more, end) = allocate-IsValid rs (kalloc-IsValid n v) in
    (valid, omega (arith, up, more), end ∙ same)
allocate-IsValid (page ∷ rs) {h} v =
    let (up, same) = kalloc_page_grows v in
    let (valid, more, end) = allocate-IsValid rs (kalloc_page-IsValid v) in
    (valid, omega (arith, up, more), end ∙ same)

pub allocate-nil : (h : Heap) → (allocate [] h).1 ≡ h
unfolding allocate
allocate-nil h = refl
