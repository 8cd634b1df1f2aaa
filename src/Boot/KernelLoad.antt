-- ===== src/Boot/KernelLoad.antt =====
-- src/efi/boot.c, `kernel_load`: the kernel's ELF file is checked, copied to where the firmware has room and
-- relocated. `f` is the file's buffer, by offset, which the firmware allocates apart from the image; the
-- image lies at `base`, which `AllocatePages` gives, in the memory `m`.
use sacabambaspos.Base.{
  ℕ, zero, suc, ◌+◌, ◌-◌, ◌*◌, ◌/◌, ◌%◌, ◌^◌, Bool, not, ◌&&◌, ◌||◌, Option, none, some, ltb, leb,
  ◌==◌, if◌then◌else◌, u64, sub64,
}
use sacabambaspos.Libk.{Mem, store, memset}
use sacabambaspos.Proc.{Phdr, phdr_at, u16_at, u64_at}

abbrev pub kernel_span_max : ℕ
kernel_span_max = 64 * 1024 * 1024

unfoldable pub ident_ok : ℕ → Mem → Bool
unfolding u16_at
ident_ok fsz f =
    leb 64 fsz
    && f 0 == 0x7F
    && f 1 == b'E'
    && f 2 == b'L'
    && f 3 == b'F'
    && f 4 == 2
    && f 5 == 1
    && u16_at f 18 == 62
    && u16_at f 16 == 3

unfoldable pub phdrs_ok : ℕ → Mem → Bool
unfolding u16_at u64_at
phdrs_ok fsz f =
    u16_at f 54 == 56
    && not (u16_at f 56 == 0)
    && leb (u16_at f 56) 64
    && leb (u64_at f 32) fsz
    && leb (u16_at f 56 * 56) (fsz - u64_at f 32)

abbrev pub loads : Phdr → Bool
loads ph = ph.type == 1 && not (ph.memsz == 0)

-- The first loop, over `n` program headers from `at` on: the lowest address and the end. `none` is
-- EFI_LOAD_ERROR.
unfoldable pub span_from : ℕ → ℕ → Mem → ℕ → ℕ → Option (ℕ × ℕ)
span_from zero at f lo hi = some (lo, hi)
span_from (suc n) at f lo hi =
    let ph = phdr_at f at in
    let end = u64 (ph.vaddr + ph.memsz) in
    let next = span_from n (at + 56) f in
    let wider = next (if ltb ph.vaddr lo then ph.vaddr else lo) (if ltb hi end then end else hi) in
    let same = next lo hi in
    if not (loads ph)
    then same
    else if ltb ph.memsz ph.filesz || ltb end ph.vaddr
    then none
    else wider

-- Where the file asks to be: `lo` is the start of a page.
pub record Plan : Type 0 where
  pub lo : ℕ
  pub hi : ℕ

unfoldable pub plan_of : ℕ → ℕ × ℕ → Option Plan
plan_of entry (lo, hi) =
    if leb hi lo || ltb kernel_span_max (hi - lo)
    then none
    else (let lo' = lo / 4096 * 4096 in
        if ltb entry lo' || leb hi entry then none else some (record { lo = lo'; hi = hi }))

unfoldable pub plan : ℕ → Mem → Option Plan
unfolding ident_ok phdrs_ok plan_of
plan fsz f = elim (span_from (u16_at f 56) (u64_at f 32) f (2 ^ 64 - 1) 0) [
  | none ↦ none
  | some span ↦ if ident_ok fsz f && phdrs_ok fsz f then plan_of (u64_at f 24) span else none
]

abbrev pub pages : Plan → ℕ
pages p = (p.hi - p.lo + 0xFFF) / 4096

pub data LoadStatus : Type 0 where
  success : LoadStatus
  load_error : LoadStatus
  unsupported : LoadStatus

-- `memcpy` from the file.
unfoldable pub copy_in : ℕ → ℕ → ℕ → Mem → Mem → Mem
copy_in zero d s f m = m
copy_in (suc n) d s f m = copy_in n (u64 (d + 1)) (s + 1) f (store m d (f s))

-- The second loop: the segments' bytes.
unfoldable pub load_from : ℕ → ℕ → Mem → ℕ → ℕ → Mem → LoadStatus × Mem
load_from zero at f fsz slide m = (success, m)
load_from (suc n) at f fsz slide m =
    let ph = phdr_at f at in
    let same = load_from n (at + 56) f fsz slide m in
    let copied =
      load_from n (at + 56) f fsz slide (copy_in ph.filesz (u64 (slide + ph.vaddr)) ph.off f m) in
    if not (loads ph)
    then same
    else if ltb fsz ph.off || ltb (fsz - ph.off) ph.filesz
    then (load_error, m)
    else copied

-- An 8-byte store.
unfoldable pub store_bytes : ℕ → ℕ → ℕ → Mem → Mem
store_bytes zero a v m = m
store_bytes (suc n) a v m = store_bytes n (u64 (a + 1)) (v / 256) (store m a (v % 256))

unfoldable pub reloc_ok : ℕ → ℕ → ℕ → Bool
reloc_ok lo hi offset = not (ltb offset lo) && not (ltb hi (u64 (offset + 8)))

-- The loop over `n` relocations from address `at` on.
unfoldable pub relocs : ℕ → ℕ → Plan → ℕ → Mem → LoadStatus × Mem
unfolding reloc_ok store_bytes
relocs zero at p slide m = (success, m)
relocs (suc n) at p slide m =
    let offset = u64_at m at in
    let addend = u64_at m (at + 16) in
    let done =
      relocs n (u64 (at + 24)) p slide
        (store_bytes 8 (u64 (slide + offset)) (u64 (slide + addend)) m) in
    if not (u64_at m (at + 8) % 2 ^ 32 == 8)
    then (unsupported, m)
    else if not (reloc_ok p.lo p.hi offset)
    then (load_error, m)
    else done

-- The scan of the dynamic table: DT_RELA and DT_RELASZ, up to DT_NULL.
unfoldable pub scan_dyn : ℕ → ℕ → Mem → ℕ × ℕ → ℕ × ℕ
scan_dyn zero at m found = found
scan_dyn (suc n) at m (rela_v, relasz) =
    let tag = u64_at m at in
    let val = u64_at m (at + 8) in
    let rest =
      scan_dyn n (u64 (at + 16)) m
        (if tag == 7 then val else rela_v, if tag == 8 then val else relasz) in
    if tag == 0 then (rela_v, relasz) else rest

-- What the third loop does for a PT_DYNAMIC header.
unfoldable pub relocate : Phdr → Plan → ℕ → Mem → LoadStatus × Mem
unfolding scan_dyn relocs
relocate ph p slide m =
    let (rela_v, relasz) = scan_dyn (ph.memsz / 16) (u64 (slide + ph.vaddr)) m (0, 0) in
    if ltb ph.vaddr p.lo || ltb (sub64 p.hi ph.vaddr) ph.memsz
    then (load_error, m)
    else if relasz == 0
    then (success, m)
    else if ltb rela_v p.lo || ltb (sub64 p.hi rela_v) relasz
    then (load_error, m)
    else relocs (relasz / 24) (u64 (slide + rela_v)) p slide m

unfoldable pub relocate_from : ℕ → ℕ → Mem → Plan → ℕ → Mem → LoadStatus × Mem
unfolding relocate
relocate_from zero at f p slide m = (success, m)
relocate_from (suc n) at f p slide m =
    let ph = phdr_at f at in
    let same = relocate_from n (at + 56) f p slide m in
    let (status, m') = relocate ph p slide m in
    let more = relocate_from n (at + 56) f p slide m' in
    if not (ph.type == 2) then same else elim status [
      | success ↦ more
      | load_error ↦ (load_error, m')
      | unsupported ↦ (unsupported, m')
    ]

-- The image before its relocations.
unfoldable pub load_image : ℕ → Mem → Plan → ℕ → Mem → LoadStatus × Mem
unfolding load_from
load_image fsz f p base m =
    load_from (u16_at f 56) (u64_at f 32) f fsz (sub64 base p.lo) (memset base 0 (pages p * 4096) m)

-- The entry, when all went well, and the memory. `none` refuses the file before memory is asked for.
unfoldable pub kernel_load : ℕ → Mem → ℕ → Mem → Option (LoadStatus × ℕ × Mem)
unfolding plan load_image relocate_from
kernel_load fsz f base m = elim (plan fsz f) [
  | none ↦ none
  | some p ↦
      let slide = sub64 base p.lo in
      let entry = u64 (slide + u64_at f 24) in
      let (status, m1) = load_image fsz f p base m in
      let (status', m2) = relocate_from (u16_at f 56) (u64_at f 32) f p slide m1 in
      elim status [
        | success ↦ some (status', entry, m2)
        | load_error ↦ some (load_error, entry, m1)
        | unsupported ↦ some (unsupported, entry, m1)
      ]
]
