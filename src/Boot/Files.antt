-- ===== src/Boot/Files.antt =====
-- src/efi/boot.c: the reading of files from the boot volume (`load_file`, `load_asset`). The firmware's
-- file protocol is a parameter: a file answers a read at a position with a status and the bytes. A buffer
-- is the list of the bytes that were read into it.
use sacabambaspos.Base.{
  ℕ, zero, suc, ◌+◌, ◌-◌, ◌*◌, ◌^◌, ◌⊎◌, inl, inr, Bool, not, ◌&&◌, ◌||◌, Option, none, some, List,
  [], ◌∷◌, ◌++◌, length, get_or, ltb, ◌==◌, if◌then◌else◌, at_most,
}
pub mod Chunks

-- The firmware's side: `read position want` is the status and the bytes.
pub record File : Type 0 where
  pub read : ℕ → ℕ → ℕ × List ℕ

-- The statuses of the protocols on the way, the candidates in order, and `AllocatePool`, by size.
pub record Volume : Type 0 where
  pub loaded_image : ℕ
  pub file_system : ℕ
  pub open_volume : ℕ
  pub candidates : List (Option File)
  pub allocate : ℕ → ℕ

pub data LoadResult : Type 0 where
  loaded : List ℕ → LoadResult
  failed : ℕ → LoadResult

-- EFIERR on a 64-bit machine.
abbrev pub efi_err : ℕ → ℕ
efi_err a = 2 ^ 63 + a

abbrev pub efi_load_error : ℕ
efi_load_error = efi_err 1

abbrev pub efi_unsupported : ℕ
efi_unsupported = efi_err 3

abbrev pub efi_not_found : ℕ
efi_not_found = efi_err 14

-- The first candidate that opens.
unfoldable pub open_first : List (Option File) → Option File
open_first [] = none
open_first (none ∷ rest) = open_first rest
open_first (some f ∷ rest) = some f

unfoldable pub open_file : Volume → ℕ ⊎ File
open_file v =
    if not (v.loaded_image == 0)
    then inl v.loaded_image
    else if not (v.file_system == 0)
    then inl v.file_system
    else if not (v.open_volume == 0)
    then inl v.open_volume
    else elim (open_first v.candidates) [ none ↦ inl efi_not_found | some f ↦ inr f ]

abbrev pub chunk_max : ℕ
chunk_max = 1024 * 1024

-- A round: the answer to the read when the loop goes on, and what the later rounds make of the rest.
unfoldable pub after_chunk : Bool → ℕ × List ℕ → ℕ × List ℕ → ℕ × List ℕ
after_chunk goes_on (s, bs) (s', more) =
    if not goes_on
    then (0, [])
    else if not (s == 0) || length bs == 0
    then (s, [])
    else (s', bs ++ more)

-- The loop that reads chunks from position `start + got` on, up to `total` bytes: the last status and
-- the bytes. A round reads a byte or more or is the last, so `total` rounds are enough.
unfoldable pub read_chunks : ℕ → File → ℕ → ℕ → ℕ → ℕ × List ℕ
read_chunks zero f start total got = (0, [])
read_chunks (suc n) f start total got =
    let answer = f.read (start + got) (at_most chunk_max (total - got)) in
    after_chunk (ltb got total) answer (read_chunks n f start total (got + length (answer.1)))

unfoldable pub file_of : ℕ → ℕ × List ℕ → LoadResult
file_of cap (s, bs) =
    if not (s == 0)
    then failed s
    else if length bs == 0 || length bs == cap
    then failed efi_load_error
    else loaded bs

unfoldable pub load_file : Volume → ℕ → LoadResult
load_file v cap = elim (open_file v) [
  | inl s ↦ failed s
  | inr f ↦
      if not (v.allocate cap == 0)
      then failed (v.allocate cap)
      else file_of cap (read_chunks cap f 0 cap 0)
]

-- The header of the splash, 32 bytes.
abbrev pub le32 : List ℕ → ℕ → ℕ
le32 h o =
    get_or h o 0
    + get_or h (o + 1) 0 * 2 ^ 8
    + get_or h (o + 2) 0 * 2 ^ 16
    + get_or h (o + 3) 0 * 2 ^ 24

unfoldable pub sbmp_check : List ℕ → ℕ
sbmp_check h =
    if not
      (get_or h 0 0 == b'S' && get_or h 1 0 == b'B' && get_or h 2 0 == b'M' && get_or h 3 0 == b'P')
    then efi_load_error
    else if not (le32 h 4 == 1) || not (le32 h 20 == 0) || not (le32 h 16 == 32)
    then efi_unsupported
    else if le32 h 8 == 0 || le32 h 12 == 0 || ltb 8192 (le32 h 8) || ltb 8192 (le32 h 12)
    then efi_load_error
    else 0

unfoldable pub asset_of : List ℕ → ℕ → ℕ × List ℕ → LoadResult
asset_of h pixbytes (s, bs) =
    if not (s == 0)
    then failed s
    else if not (length bs == pixbytes)
    then failed efi_load_error
    else loaded (h ++ bs)

unfoldable pub read_asset : Volume → File → LoadResult
read_asset v f =
    let (s, h) = f.read 0 32 in
    let pixbytes = le32 h 8 * le32 h 12 * 4 in
    if not (s == 0)
    then failed s
    else if not (length h == 32)
    then failed efi_load_error
    else if not (sbmp_check h == 0)
    then failed (sbmp_check h)
    else if not (v.allocate (32 + pixbytes) == 0)
    then failed (v.allocate (32 + pixbytes))
    else asset_of h pixbytes (read_chunks pixbytes f 32 pixbytes 0)

unfoldable pub load_asset : Volume → LoadResult
load_asset v = elim (open_file v) [ inl s ↦ failed s | inr f ↦ read_asset v f ]
