-- ===== src/Boot/Files/Chunks.antt =====
-- The chunked reading of src/efi/boot.c puts a file together whatever the sizes of the reads are.
use mathlib.Core.Path.{ap}
use native.Mathlib.Nat.{zero-add, suc-add}
use sacabambaspos.Base.{
  ℕ, zero, suc, ◌+◌, ◌-◌, ◌≤◌, ◌<◌, ◌≡◌, refl, sym, ◌∙◌, arith, Bool-cases, true, false, ◌&&◌, ◌||◌,
  List, [], ◌∷◌, ◌++◌, length, length-take, length-drop, take, drop, ltb, ◌==◌, if◌then◌else◌,
  at_most, inl, inr,
}
use sacabambaspos.Boot.Files.{
  File, Volume, loaded, failed, after_chunk, open_file, read_chunks, file_of, load_file,
  efi_load_error, chunk_max,
}

-- A file of these contents: a read within them gives the next bytes, as many as it likes but one at least.
pub record Serves (contents : List ℕ) (f : File) : Type 0 where
  pub size : ℕ → ℕ → ℕ
  pub read_eq : (at want : ℕ) → f.read at want ≡ (0, take (size at want) (drop at contents))
  pub bounded : (at want : ℕ) → size at want ≤ want
  pub progress : (at want : ℕ) → 0 < want → at < length contents → 0 < size at want

module _ {ℓ} {A : Type ℓ} where
  drop_nil : (n : ℕ) → drop {A = A} n [] ≡ []
  drop_nil zero = refl
  drop_nil (suc n) = refl

  drop-drop : (m n : ℕ) (xs : List A) → drop n (drop m xs) ≡ drop (m + n) xs
  drop-drop zero n xs = rw (zero-add n) refl
  drop-drop (suc m) n [] = drop_nil n ∙ sym (drop_nil (suc m + n))
  drop-drop (suc m) n (x ∷ xs) = rw (suc-add m n) (drop-drop m n xs)

  take-length : (n : ℕ) (xs : List A) → length xs ≤ n → take n xs ≡ xs
  take-length zero [] h = refl
  take-length zero (x ∷ xs) h = absurd (omega arith)
  take-length (suc n) [] h = refl
  take-length (suc n) (x ∷ xs) h = ap (λ t. x ∷ t) (take-length n xs (omega arith))

  take-nil : (n : ℕ) (xs : List A) → length xs ≡ 0 → take n xs ≡ []
  take-nil zero xs h = refl
  take-nil (suc n) [] h = refl
  take-nil (suc n) (x ∷ xs) h = absurd (omega arith)

  -- A piece and what is missing to `m` make up `m`.
  joined :
      (k m : ℕ) (xs : List A)
      → k ≤ m
      → take k xs ++ take (m - length (take k xs)) (drop (length (take k xs)) xs) ≡ take m xs
  joined zero m xs h = ap (λ i. take i xs) (omega arith)
  joined (suc k) zero xs h = absurd (omega arith)
  joined (suc k) (suc m) [] h = take-nil (suc m - 0) [] refl
  joined (suc k) (suc m) (x ∷ xs) h =
      ap (λ i. x ∷ (take k xs ++ take i (drop (length (take k xs)) xs))) (omega arith)
      ∙ ap (λ t. x ∷ t) (joined k m xs (omega (arith, h)))

-- A round on a piece of `k` bytes of what is left, `d`.
after_chunk_lem :
    (got total k : ℕ) (d : List ℕ) (rest : ℕ × List ℕ)
    → k ≤ total - got
    → (got < total → 0 < length d → 0 < k)
    → (got < total
        → 0 < length (take k d)
        → rest ≡ (0, take (total - got - length (take k d)) (drop (length (take k d)) d)))
    → after_chunk (ltb got total) (0, take k d) rest ≡ (0, take (total - got) d)
unfolding after_chunk
after_chunk_lem got total k d rest hk progress e = elim (Bool-cases (ltb got total)) [
  | inr off ↦ rw off (alike (no_more (total - got) (ground (arith, off))))
  | inl on ↦ rw on (elim (Bool-cases (length (take k d) == 0)) [
    | inl none_left ↦
        rw none_left
          (alike (sym (take-nil (total - got) d (ended none_left (progress (ground (arith, on)))))))
    | inr some_left ↦ rw some_left (
        rw (e (ground (arith, on)) (ground (arith, some_left)))
          (alike (joined k (total - got) d hk)))
  ])
]
  where
    alike : {xs ys : List ℕ} → xs ≡ ys → ◌≡◌ {A = ℕ × List ℕ} (0, xs) (0, ys)
    alike p = ap (λ xs. (0, xs)) p

    no_more : (i : ℕ) → i ≡ 0 → [] ≡ take i d
    no_more i h = rw h refl

    ended : (length (take k d) == 0) ≡ true → (0 < length d → 0 < k) → length d ≡ 0
    ended h pos = ground (arith, length-take k d, h, pos)

module _ (contents : List ℕ) (f : File) (s : Serves contents f) (start total : ℕ) where
  -- A chunk and what follows it.
  read_chunks_lem :
      (n got : ℕ)
      → total - got ≤ n
      → read_chunks n f start total got ≡ (0, take (total - got) (drop (start + got) contents))
  unfolding read_chunks
  read_chunks_lem zero got enough = nothing (total - got) (omega (arith, enough))
    where
      nothing :
          (i : ℕ) → i ≡ 0 → ◌≡◌ {A = ℕ × List ℕ} (0, []) (0, take i (drop (start + got) contents))
      nothing i e = rw e refl
  read_chunks_lem (suc n) got enough =
      rw (s.read_eq (start + got) (at_most chunk_max (total - got))) (
        after_chunk_lem got total (s.size (start + got) (at_most chunk_max (total - got)))
          (drop (start + got) contents) _
          (ground (arith, s.bounded (start + got) (at_most chunk_max (total - got))))
          (λ on more.
            s.progress (start + got) _ (ground (arith, on))
              (omega (arith, length-drop (start + got) contents, more)))
          (λ on more. later _ (read_chunks_lem n (got + _) (omega (arith, enough, more)))))
    where
      later :
          (m : ℕ)
          → read_chunks n f start total (got + m)
            ≡ (0, take (total - (got + m)) (drop (start + (got + m)) contents))
          → read_chunks n f start total (got + m)
            ≡ (0, take (total - got - m) (drop m (drop (start + got) contents)))
      later m ih =
          let here : start + (got + m) ≡ start + got + m = omega arith in
          let left : total - (got + m) ≡ total - got - m = omega arith in
          ih
          ∙ ap (λ i. (0, take i (drop (start + (got + m)) contents))) left
          ∙ ap (λ i. (0, take (total - got - m) (drop i contents))) here
          ∙ ap (λ xs. (0, take (total - got - m) xs)) (sym (drop-drop (start + got) m contents))

file_of_lem :
    (limit : ℕ) (contents : List ℕ)
    → file_of limit (0, take limit contents) ≡ (
        if ltb 0 (length contents) && ltb (length contents) limit
        then loaded contents
        else failed efi_load_error)
unfolding file_of
file_of_lem limit contents =
    elim (Bool-cases (ltb 0 (length contents) && ltb (length contents) limit)) [
      | inl fits ↦
          rw fits (rw (take-length limit contents (ground (arith, fits))) (rw (taken fits) refl))
      | inr e ↦ rw e (rw (refused e) refl)
    ]
  where
    taken :
        ltb 0 (length contents) && ltb (length contents) limit ≡ true
        → (length contents == 0 || length contents == limit) ≡ false
    taken e = ground (arith, e)

    refused :
        ltb 0 (length contents) && ltb (length contents) limit ≡ false
        → (length (take limit contents) == 0 || length (take limit contents) == limit) ≡ true
    refused e = ground (arith, length-take limit contents, e)

-- When a candidate opens, there is room for the buffer, and the firmware serves the file in pieces
-- of whatever sizes, one byte at least, load_file gives all of its contents when they are not
-- empty and below the cap, and EFI_LOAD_ERROR otherwise, never a part of them.
pub load_file_lem :
    (v : Volume) (f : File) (contents : List ℕ) (limit : ℕ)
    → Serves contents f
    → open_file v ≡ inr f
    → v.allocate limit ≡ 0
    → load_file v limit ≡ (
        if ltb 0 (length contents) && ltb (length contents) limit
        then loaded contents
        else failed efi_load_error)
unfolding load_file
load_file_lem v f contents limit s opens room =
    rw (opens, load_file)
      (rw room (
        rw (read_chunks_lem contents f s 0 limit limit 0 (omega arith))
          (rw (sub_zero limit) (file_of_lem limit contents))))
  where
    sub_zero : (n : ℕ) → n - 0 ≡ n
    sub_zero n = omega arith
