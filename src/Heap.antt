-- ===== src/Heap.antt =====
-- src/kernel/kmain.c, the bump heap. A heap pointer is a 64-bit address, and memory is `Libk.Mem`.
pub mod Bounds
mod Tests
use sacabambaspos.Base.{
  ℕ, ◌+◌, ◌-◌, ◌*◌, ◌/◌, ◌%◌, ◌^◌, ◌||◌, Option, none, some, ltb, if◌then◌else◌, u64, List, [], ◌∷◌,
}
use sacabambaspos.Libk.{Mem, memset}

pub record Heap : Type 0 where
  pub heap_at : ℕ
  pub heap_end : ℕ
  pub heap_start : ℕ
  pub mem : Mem

pub kalloc_init : ℕ → ℕ → Mem → Heap
kalloc_init heap_base heap_size m = record {
  heap_at = heap_base;
  heap_end = u64 (heap_base + heap_size);
  heap_start = heap_base;
  mem = m;
}

-- `(x + (k - 1)) & ~(k - 1)` on 64-bit values, for `k` a power of two.
abbrev pub align_up : ℕ → ℕ → ℕ
align_up k x = u64 (x + (k - 1)) / k * k

-- The pointer stays aligned also when the request is refused.
take_block : ℕ → Heap → Option ℕ × Heap
take_block n h = if ltb h.heap_end h.heap_at || ltb (h.heap_end - h.heap_at) n then (none, h) else (
  some h.heap_at,
  record h { heap_at = u64 (h.heap_at + n); mem = memset h.heap_at 0 n h.mem },
)

unfoldable pub kalloc : ℕ → Heap → Option ℕ × Heap
unfolding take_block
kalloc n h = take_block n (record h { heap_at = align_up 16 h.heap_at })

unfoldable pub kalloc_page : Heap → Option ℕ × Heap
unfolding take_block
kalloc_page h = take_block 4096 (record h { heap_at = align_up 4096 h.heap_at })

unfoldable pub kalloc_used : Heap → ℕ
kalloc_used h = (h.heap_at + 2 ^ 64 - h.heap_start) % 2 ^ 64

-- A client's calls in order: the blocks that it was given, oldest first.
pub data Request : Type 0 where
  bytes : ℕ → Request
  page : Request

pub record Block : Type 0 where
  pub addr : ℕ
  pub size : ℕ

abbrev pub granted : Option ℕ → ℕ → List Block → List Block
granted none n bs = bs
granted (some p) n bs = record { addr = p; size = n } ∷ bs

pub allocate : List Request → Heap → List Block × Heap
allocate [] h = ([], h)
allocate (bytes n ∷ rs) h =
    let (p, h') = kalloc n h in let (bs, h'') = allocate rs h' in (granted p n bs, h'')
allocate (page ∷ rs) h =
    let (p, h') = kalloc_page h in let (bs, h'') = allocate rs h' in (granted p 4096 bs, h'')
