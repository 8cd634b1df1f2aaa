-- ===== src/Proc/Load.antt =====
-- What a page of a program holds after `load_segment` has filled it.
use sacabambaspos.Base.{
  ℕ, ◌+◌, ◌-◌, ◌≤◌, ◌<◌, ◌≡◌, ◌⊎◌, inl, inr, refl, ◌∙◌, arith, true, false, Bool-cases, ◌&&◌, ltb,
  leb, ltb→lt, if◌then◌else◌,
}
use sacabambaspos.Libk.{Mem, memset}
use sacabambaspos.Libk.Move.{moved, memset_lem, memcpy_lem}
use sacabambaspos.Proc.{copy_slice}

-- The slice of the file: what is copied is right where the frame and the file are apart.
slice-moved :
    (va src filesz page pa : ℕ) (m : Mem) (x : ℕ)
    → va < page + 4096
    → (src + filesz ≤ pa) ⊎ (pa + 4096 ≤ src)
    → let flo = page - va in
      let pgo = va - page in
      let n = if ltb (4096 - pgo) (filesz - flo) then 4096 - pgo else filesz - flo in
      copy_slice va src filesz page pa m x
      ≡ (if ltb flo filesz then moved (pa + pgo) (src + flo) n m x else m x)
unfolding copy_slice
slice-moved va src filesz page pa m x near apart = elim (Bool-cases (ltb (page - va) filesz)) [
  | inr past ↦ rw past refl
  | inl part ↦
      rw part (memcpy_lem (pa + (va - page)) (src + (page - va)) size m x (clear apart part))
]
  where
    size : ℕ
    size =
        if ltb (4096 - (va - page)) (filesz - (page - va))
        then 4096 - (va - page)
        else filesz - (page - va)

    fits : size ≤ filesz - (page - va)
    fits = ground arith

    clear :
        (src + filesz ≤ pa) ⊎ (pa + 4096 ≤ src)
        → ltb (page - va) filesz ≡ true
        → (pa + (va - page) ≤ src + (page - va)) ⊎ (src + (page - va) + size ≤ pa + (va - page))
    clear (inl below) part = inr (omega (arith, fits, ltb→lt (page - va) filesz part))
    clear (inr above) part = inl (omega arith)

-- Byte `k` of the frame at `pa` that is mapped at `page`, after the page was cleared and its slice of the
-- file copied: the byte of the file for the address `page + k` when the file has one, and otherwise 0.
-- The frame and the file are apart, and the page does not end below the segment.
pub copy_slice_lem :
    (va src filesz page pa k : ℕ) (m : Mem)
    → va < page + 4096
    → k < 4096
    → (src + filesz ≤ pa) ⊎ (pa + 4096 ≤ src)
    → copy_slice va src filesz page pa (memset pa 0 4096 m) (pa + k)
      ≡ (if leb va (page + k) && ltb (page + k) (va + filesz) then m (src + (page + k - va)) else 0)
copy_slice_lem va src filesz page pa k m near small apart =
    rw (slice-moved va src filesz page pa (memset pa 0 4096 m) (pa + k) near apart)
      (elim (Bool-cases (leb va (page + k) && ltb (page + k) (va + filesz))) [
        | inl inside ↦
            rw
              (
                inside,
                in_part inside,
                in_slice inside,
                at_source inside,
                memset_lem pa 0 4096 m (src + (page + k - va)),
                not_cleared inside,
              )
              refl
        | inr outside ↦ rw outside (elim (Bool-cases (ltb (page - va) filesz)) [
          | inl part ↦ rw (part, out_slice outside part) fresh
          | inr past ↦ rw past fresh
        ])
      ])
  where
    flo : ℕ
    flo = page - va

    pgo : ℕ
    pgo = va - page

    n : ℕ
    n = if ltb (4096 - pgo) (filesz - flo) then 4096 - pgo else filesz - flo

    in_part : leb va (page + k) && ltb (page + k) (va + filesz) ≡ true → ltb flo filesz ≡ true
    in_part h = ground arith

    in_slice :
        leb va (page + k) && ltb (page + k) (va + filesz) ≡ true
        → leb (pa + pgo) (pa + k) && ltb (pa + k) (pa + pgo + n) ≡ true
    in_slice h = ground arith

    at_source :
        leb va (page + k) && ltb (page + k) (va + filesz) ≡ true
        → src + flo + (pa + k - (pa + pgo)) ≡ src + (page + k - va)
    at_source h = ground arith

    not_cleared :
        leb va (page + k) && ltb (page + k) (va + filesz) ≡ true
        → leb pa (src + (page + k - va)) && ltb (src + (page + k - va)) (pa + 4096) ≡ false
    not_cleared h = ground (arith, apart)

    out_slice :
        leb va (page + k) && ltb (page + k) (va + filesz) ≡ false
        → ltb flo filesz ≡ true
        → leb (pa + pgo) (pa + k) && ltb (pa + k) (pa + pgo + n) ≡ false
    out_slice h part = ground arith

    fresh : memset pa 0 4096 m (pa + k) ≡ 0
    fresh = memset_lem pa 0 4096 m (pa + k) ∙ ground arith
