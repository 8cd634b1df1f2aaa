-- ===== src/Heap/Tests.antt =====
-- The heap at a concrete size.
use sacabambaspos.Base.{◌≡◌, refl, arith, [], ◌∷◌, some}
use sacabambaspos.Heap.{Heap, kalloc, allocate, bytes, page}
use sacabambaspos.Heap.Bounds.{IsValid, InRow, allocate-InRow}

-- Four pages, of which one and 100 bytes are used.
abbrev four_pages : Heap
four_pages = record {
  heap_at = 0x10_1064;
  heap_end = 0x10_4000;
  heap_start = 0x10_0000;
  mem = λ x. 7;
}

four_pages-IsValid : IsValid four_pages
four_pages-IsValid = record { started = omega arith; bounded = omega arith; no_wrap = omega arith }

next_block : (kalloc 10 four_pages).0 ≡ some 0x10_1070
unfolding kalloc
next_block = refl

allocate-InRow_example :
    InRow 0x10_1064 0x10_4000
      (allocate (bytes 10 ∷ page ∷ bytes 0x2000 ∷ bytes 3 ∷ []) four_pages).0
allocate-InRow_example =
    allocate-InRow (bytes 10 ∷ page ∷ bytes 0x2000 ∷ bytes 3 ∷ []) four_pages-IsValid
