-- ===== src/Proc.antt =====
-- src/kernel/proc.c: the ELF loader. The file lies in the identity-mapped memory of the Heap.
-- `user_enter` is assembly and an argument here.
pub mod Load
pub mod Span
pub mod Maps
pub mod Isolation
pub mod Pak
pub mod Exec
pub mod Init
pub mod Syscall
mod Tests
use sacabambaspos.Base.{
  ℕ, zero, suc, ◌+◌, ◌-◌, ◌*◌, ◌/◌, ◌%◌, ◌^◌, Bool, true, false, not, ◌&&◌, ◌||◌, Option, none,
  some, List, [], ◌∷◌, ℤ, pos, negsuc, ltb, leb, ◌==◌, if◌then◌else◌, bit_and, test_bit, u64,
}
use sacabambaspos.Libk.{Mem, memcpy, memcmp_k}
use sacabambaspos.Heap.{Heap, kalloc_page}
use sacabambaspos.Console.{Console, con_cursor}
use sacabambaspos.Paging.{Vm, user_base, user_top, vm_user_map, vm_user_unmap_range}

abbrev pub user_stack_top : ℕ
user_stack_top = 0x0000_7000_FFFF_F000

abbrev pub ustack_pages : ℕ
ustack_pages = 64

abbrev pub ustack_lo : ℕ
ustack_lo = user_stack_top - ustack_pages * 4096

-- Little-endian fields.
unfoldable pub u16_at : Mem → ℕ → ℕ
u16_at m a = m a + 2 ^ 8 * m (a + 1)

unfoldable pub u32_at : Mem → ℕ → ℕ
unfolding u16_at
u32_at m a = u16_at m a + 2 ^ 16 * u16_at m (a + 2)

unfoldable pub u64_at : Mem → ℕ → ℕ
unfolding u32_at
u64_at m a = u32_at m a + 2 ^ 32 * u32_at m (a + 4)

unfoldable pub bytes_at : ℕ → Mem → ℕ → List ℕ
bytes_at zero m a = []
bytes_at (suc n) m a = m a ∷ bytes_at n m (a + 1)

pub record Phdr : Type 0 where
  pub type : ℕ
  pub flags : ℕ
  pub off : ℕ
  pub vaddr : ℕ
  pub filesz : ℕ
  pub memsz : ℕ

unfoldable pub phdr_at : Mem → ℕ → Phdr
unfolding u32_at u64_at
phdr_at m a = record {
  type = u32_at m a;
  flags = u32_at m (a + 4);
  off = u64_at m (a + 8);
  vaddr = u64_at m (a + 16);
  filesz = u64_at m (a + 32);
  memsz = u64_at m (a + 40);
}

-- The slice of the file that lands in the page at `page` is copied into the fresh frame at `pa`:
-- `page > va ? page - va : 0` is the difference that stops at 0.
unfoldable pub copy_slice : ℕ → ℕ → ℕ → ℕ → ℕ → Mem → Mem
copy_slice va src filesz page pa m =
    let flo = page - va in
    let pgo = va - page in
    let n = if ltb (4096 - pgo) (filesz - flo) then 4096 - pgo else filesz - flo in
    if ltb flo filesz then memcpy (pa + pgo) (src + flo) n m else m

unfoldable pub load_page : ℕ → ℕ → ℕ → Bool → Bool → ℕ → Vm → Bool × Vm
load_page va src filesz writable executable page vm =
    let (p, h) = kalloc_page vm.heap in
    elim p [
      | none ↦ (false, record vm { heap = h })
      | some pa ↦
          vm_user_map page pa writable executable
            (record vm { heap = record h { mem = copy_slice va src filesz page pa h.mem } })
    ]

-- The loop of `load_segment` over `n` pages.
unfoldable pub load_pages : ℕ → ℕ → ℕ → ℕ → Bool → Bool → ℕ → Vm → Bool × Vm
load_pages zero va src filesz writable executable page vm = (true, vm)
load_pages (suc n) va src filesz writable executable page vm =
    let (done, vm') = load_page va src filesz writable executable page vm in
    elim done [
      | false ↦ (false, vm')
      | true ↦ load_pages n va src filesz writable executable (page + 4096) vm'
    ]

-- The tables with `img_lo` and `img_hi`.
pub record Image : Type 0 where
  pub vm : Vm
  pub img_lo : ℕ
  pub img_hi : ℕ

unfoldable pub load_segment : ℕ → ℕ → ℕ → ℕ → Bool → Bool → Image → Bool × Image
load_segment va src filesz memsz writable executable s =
    let start = va / 4096 * 4096 in
    let end = u64 (va + memsz + 4095) / 4096 * 4096 in
    let (done, vm') =
      load_pages ((end - start) / 4096) va src filesz writable executable start s.vm in
    if done
    then (
      true,
      record {
        vm = vm';
        img_lo = if ltb start s.img_lo then start else s.img_lo;
        img_hi = if ltb s.img_hi end then end else s.img_hi;
      },
    )
    else (false, record s { vm = vm' })

-- What the loop of `elf_run` does with a program header: `continue`, `return -1`, or load it.
pub data Verdict : Type 0 where
  skip : Verdict
  refuse : Verdict
  load : Verdict

unfoldable pub verdict : ℕ → Phdr → Verdict
verdict size ph =
    if not (ph.type == 1) || ph.memsz == 0
    then skip
    else if ltb ph.memsz ph.filesz || ltb (32 * 2 ^ 20) ph.memsz
    then refuse
    else if ltb ph.vaddr user_base
        || leb (ustack_lo - 4096) ph.vaddr
        || ltb (ustack_lo - 4096 - ph.vaddr) ph.memsz
    then refuse
    else if ltb size ph.off || ltb (size - ph.off) ph.filesz
    then refuse
    else if test_bit ph.flags 1 && test_bit ph.flags 0
    then refuse
    else load

-- The results 0, -1 and -2.
pub data Status : Type 0 where
  good : Status
  bad_elf : Status
  no_memory : Status

unfoldable pub load_phdrs : ℕ → ℕ → ℕ → ℕ → Image → Status × Image
load_phdrs zero file size at s = (good, s)
load_phdrs (suc n) file size at s =
    let ph = phdr_at s.vm.heap.mem at in
    let next = load_phdrs n file size (at + 56) in
    let (done, s') =
      load_segment ph.vaddr (file + ph.off) ph.filesz ph.memsz (test_bit ph.flags 1)
        (test_bit ph.flags 0) s in
    elim (verdict size ph) [
      | skip ↦ next s
      | refuse ↦ (bad_elf, s)
      | load ↦ if done then next s' else (no_memory, s')
    ]

-- `n` pages of stack from `page` on.
unfoldable pub stack_pages : ℕ → ℕ → Vm → Bool × Vm
stack_pages zero page vm = (true, vm)
stack_pages (suc n) page vm =
    let (p, h) = kalloc_page vm.heap in
    elim p [
      | none ↦ (false, record vm { heap = h })
      | some pa ↦
          let (done, vm') = vm_user_map page pa true false (record vm { heap = h }) in
          elim done [ false ↦ (false, vm') | true ↦ stack_pages n (page + 4096) vm' ]
    ]

unfoldable pub is_zero : ℤ → Bool
is_zero (pos n) = n == 0
is_zero (negsuc n) = false

-- The checks of the file's header.
unfoldable pub header_ok : ℕ → ℕ → Mem → Bool
unfolding is_zero u16_at u64_at
header_ok file size m =
    leb 64 size
    && is_zero (memcmp_k (bytes_at 7 m file) (0x7F ∷ b'E' ∷ b'L' ∷ b'F' ∷ 2 ∷ 1 ∷ 1 ∷ 0 ∷ []) 7)
    && u16_at m (file + 16) == 2
    && u16_at m (file + 18) == 0x3E
    && not (u16_at m (file + 56) == 0)
    && leb (u16_at m (file + 56)) 16
    && u16_at m (file + 54) == 56
    && leb (u64_at m (file + 32)) size
    && leb (u16_at m (file + 56) * 56) (size - u64_at m (file + 32))
    && leb user_base (u64_at m (file + 24))
    && ltb (u64_at m (file + 24)) user_top

-- `elf_run` up to the entry of the program.
unfoldable pub elf_load : ℕ → ℕ → Vm → Status × Image
elf_load file size vm =
    let m = vm.heap.mem in
    let empty : Image = record { vm = vm; img_lo = 2 ^ 64 - 1; img_hi = 0 } in
    let (status, s) =
      load_phdrs (u16_at m (file + 56)) file size (file + u64_at m (file + 32)) empty in
    let (done, vm') = stack_pages ustack_pages ustack_lo s.vm in
    if not (header_ok file size m) then (bad_elf, empty) else elim status [
      | bad_elf ↦ (bad_elf, s)
      | no_memory ↦ (no_memory, s)
      | good ↦
          if s.img_hi == 0
          then (bad_elf, s)
          else (if done then good else no_memory, record s { vm = vm' })
    ]

pub record Proc : Type 0 where
  pub image : Image
  pub console : Console

-- `enter` runs the program from its entry on a stack, and gives the exit code and what it left behind.
unfoldable pub elf_run : (ℕ → ℕ → Proc → ℕ × Proc) → ℕ → ℕ → Proc → Status × ℕ × Proc
elf_run enter file size s =
    let entry = u64_at s.image.vm.heap.mem (file + 24) in
    let (status, i) = elf_load file size s.image.vm in
    let (code, s') =
      enter entry (user_stack_top - 16)
        (record { image = i; console = con_cursor false s.console }) in
    let lo = s'.image.img_lo in
    let vm' = vm_user_unmap_range lo (s'.image.img_hi - lo) s'.image.vm in
    elim status [
      | bad_elf ↦ (bad_elf, 0, record s { image = i })
      | no_memory ↦ (no_memory, 0, record s { image = i })
      | good ↦ (
        good,
        code,
        record {
          image = record s'.image { vm = vm_user_unmap_range ustack_lo (ustack_pages * 4096) vm' };
          console = con_cursor true s'.console;
        },
      )
    ]
