-- ===== src/Boot/Tests.antt =====
-- The loader on a file of one segment.
use sacabambaspos.Base.{
  ℕ, zero, suc, ◌+◌, ◌-◌, ◌*◌, ◌^◌, ◌≤◌, ◌<◌, ◌≡◌, ◌⊎◌, refl, arith, true, none, some, List, [],
  ◌∷◌, get_or, take, drop, min, u64, sub64, inl, inr,
}
use sacabambaspos.Libk.{Mem}
use sacabambaspos.Proc.{phdr_at, u16_at, u32_at, u64_at}
use sacabambaspos.Boot.KernelLoad.{
  Plan, plan, span_from, plan_of, ident_ok, phdrs_ok, pages, load_image, reloc_ok, store_bytes,
  kernel_span_max,
}
use sacabambaspos.Boot.Confined.{IsBytes, Outside, load_image-Outside}
use sacabambaspos.Boot.Relocs.{reloc_ok_lem}
use sacabambaspos.Boot.Divide.{udivmod64, udivmod64_lem}
use sacabambaspos.Boot.Log.{OlLog}
use sacabambaspos.Boot.Panel.{Panel, ol_init, ol_flush, draw_border, draw_glass}
use sacabambaspos.Boot.Pixels.{Pixels, bgr}
use sacabambaspos.Boot.Panel.Padding.{ol_flush-padding}
use sacabambaspos.Boot.Files.{File, Volume, loaded, efi_err, open_first, open_file, load_file}
use sacabambaspos.Boot.Files.Chunks.{Serves, load_file_lem}
use sacabambaspos.Boot.Splash.{Place, text_box_w, text_box_h, draw_text}
use sacabambaspos.Boot.Splash.Boxes.{draw_text-box}
use sacabambaspos.Boot.Leave.{
  MemoryDescriptor, Attempt, ram_of, exit_boot_services, exit_boot_services-first,
}

-- The header of the file, and a program header for 16 bytes from offset 4 at address 0x1000.
abbrev contents : List ℕ
contents =
    0x7F ∷ b'E' ∷ b'L' ∷ b'F' ∷ 2 ∷ 1 ∷ 1 ∷ 0 ∷ 0 ∷ 0 ∷ 0 ∷ 0 ∷ 0 ∷ 0 ∷ 0 ∷ 0 ∷ 3 ∷ 0 ∷ 62 ∷ 0 ∷ 1
    ∷ 0 ∷ 0 ∷ 0 ∷ 4 ∷ 16 ∷ 0 ∷ 0 ∷ 0 ∷ 0 ∷ 0 ∷ 0 ∷ 64 ∷ 0 ∷ 0 ∷ 0 ∷ 0 ∷ 0 ∷ 0 ∷ 0 ∷ 0 ∷ 0 ∷ 0 ∷ 0
    ∷ 0 ∷ 0 ∷ 0 ∷ 0 ∷ 0 ∷ 0 ∷ 0 ∷ 0 ∷ 64 ∷ 0 ∷ 56 ∷ 0 ∷ 1 ∷ 0 ∷ 0 ∷ 0 ∷ 0 ∷ 0 ∷ 0 ∷ 0 ∷ 1 ∷ 0 ∷ 0
    ∷ 0 ∷ 5 ∷ 0 ∷ 0 ∷ 0 ∷ 4 ∷ 0 ∷ 0 ∷ 0 ∷ 0 ∷ 0 ∷ 0 ∷ 0 ∷ 0 ∷ 16 ∷ 0 ∷ 0 ∷ 0 ∷ 0 ∷ 0 ∷ 0 ∷ 0 ∷ 16
    ∷ 0 ∷ 0 ∷ 0 ∷ 0 ∷ 0 ∷ 0 ∷ 16 ∷ 0 ∷ 0 ∷ 0 ∷ 0 ∷ 0 ∷ 0 ∷ 0 ∷ 16 ∷ 0 ∷ 0 ∷ 0 ∷ 0 ∷ 0 ∷ 0 ∷ 0 ∷ []

abbrev file : Mem
file a = get_or contents a 0

AllBytes : List ℕ → Type 0
AllBytes [] = Unit
AllBytes (b ∷ bs) = (b < 256) × AllBytes bs

get_or-lt : (bs : List ℕ) (a : ℕ) → AllBytes bs → get_or bs a 0 < 256
unfolding AllBytes
get_or-lt [] a h = omega arith
get_or-lt (b ∷ bs) zero h = h.0
get_or-lt (b ∷ bs) (suc a) h = get_or-lt bs a h.1

contents-AllBytes : AllBytes contents
unfolding AllBytes
contents-AllBytes = omega arith

file-IsBytes : IsBytes file
file-IsBytes a = get_or-lt contents a contents-AllBytes

abbrev planned : Plan
planned = record { lo = 0x1000; hi = 0x1010 }

file-plan : plan 120 file ≡ some planned
unfolding plan span_from plan_of ident_ok phdrs_ok phdr_at u16_at u32_at u64_at
file-plan = refl

abbrev any : Mem
any a = 7

load_image-Outside_example :
    (pages planned * 4096 ≤ kernel_span_max + 8192)
    × ((load_image 120 file planned 0x20_0000 any).1 0x1F_FFFF ≡ any 0x1F_FFFF)
load_image-Outside_example =
    load_image-Outside 120 0x20_0000 0x1F_FFFF file any planned file-IsBytes file-plan (omega arith)
      (inl (omega arith))

accepted : reloc_ok 0 0x5000 (2 ^ 64 - 8) ≡ true
unfolding reloc_ok
accepted = refl

reloc_ok_lem_example :
    ((2 ^ 64 - 8 + 8 ≤ 0x5000)
      × ((x : ℕ)
          → Outside 0x20_0000 (0x5000 - 0) x
          → store_bytes 8 (u64 (sub64 0x20_0000 0 + (2 ^ 64 - 8))) 9 any x ≡ any x))
    ⊎ ((2 ^ 64 - 8 ≤ 2 ^ 64 - 8)
        × (◌≡◌ {A = ℕ} 0 0 → u64 (sub64 0x20_0000 0 + (2 ^ 64 - 8)) < 0x20_0000))
reloc_ok_lem_example =
    reloc_ok_lem 0 0x5000 0x20_0000 (2 ^ 64 - 8) 9 any (omega arith) (omega arith) (omega arith)
      (omega arith) (omega arith) accepted

udivmod64_lem_example :
    ((udivmod64 (2 ^ 64 - 1) (2 ^ 63 + 1)).0 * (2 ^ 63 + 1)
        + (udivmod64 (2 ^ 64 - 1) (2 ^ 63 + 1)).1
      ≡ 2 ^ 64 - 1)
    × ((udivmod64 (2 ^ 64 - 1) (2 ^ 63 + 1)).1 < 2 ^ 63 + 1)
udivmod64_lem_example = udivmod64_lem (2 ^ 64 - 1) (2 ^ 63 + 1) (omega arith) (omega arith)

-- An overlay on a screen of 800 by 600, whose log is one letter.
abbrev overlay : Panel
overlay = record { scale = 1; pad = 12; w = 240; h = 264; x = 16; y = 318; cols = 27; rows = 15 }

abbrev black : Pixels
black i = bgr 0 0 0

abbrev one_letter : OlLog
one_letter = record { row = record { ch = b'A'; attr = 7 } ∷ []; above = []; cur_attr = 7 }

overlay-laid : ol_init 800 600 ≡ some overlay
unfolding ol_init
overlay-laid = refl

ol_flush-padding_example :
    (16 + 240 ≤ 800)
    × (318 + 264 ≤ 600)
    × (ol_flush (λ g y. 0xFF) 32 126 800 black overlay one_letter black (3 * 240 + 5)
        ≡ draw_border overlay (draw_glass 800 black overlay black) (3 * 240 + 5))
ol_flush-padding_example =
    ol_flush-padding (λ g y. 0xFF) 32 126 800 600 black black one_letter overlay 5 3 (omega arith)
      (omega arith) overlay-laid (omega arith) (inl (omega arith))

-- A volume whose second candidate is a file of three bytes, which are read one at a time.
abbrev script : List ℕ
script = b'v' ∷ b'e' ∷ b'r' ∷ []

abbrev slow_file : File
slow_file = record { read = λ at want. (0, take (min 1 want) (drop at script)) }

abbrev slow_volume : Volume
slow_volume = record {
  loaded_image = 0;
  file_system = 0;
  open_volume = 0;
  candidates = none ∷ some slow_file ∷ [];
  allocate = λ n. 0;
}

slow_file-Serves : Serves script slow_file
slow_file-Serves = record {
  size = λ at want. min 1 want;
  read_eq = λ at want. refl;
  bounded = λ at want. omega arith;
  progress = λ at want pos within. omega (arith, pos);
}

slow_file-opens : open_file slow_volume ≡ inr slow_file
unfolding open_file open_first
slow_file-opens = refl

load_file_example : load_file slow_volume 65536 ≡ loaded script
load_file_example =
    load_file_lem slow_volume slow_file script 65536 slow_file-Serves slow_file-opens refl

-- A map of two descriptors of 48 bytes, of which one is the kernel's, and a try that came too late.
abbrev map_of_two : ℕ → MemoryDescriptor
map_of_two zero = record { type = 7; number_of_pages = 16 }
map_of_two (suc o) = record { type = 11; number_of_pages = 8 }

abbrev late : Attempt
late = record {
  map_status = 0;
  dsz = 48;
  msz = 96;
  descriptor = map_of_two;
  exit_status = efi_err 2;
}

abbrev in_time : Attempt
in_time = record { map_status = 0; dsz = 48; msz = 96; descriptor = map_of_two; exit_status = 0 }

exit_boot_services-first_example :
    exit_boot_services 48 true (late ∷ in_time ∷ []) ≡ some (u64 (ram_of 2 in_time 0))
exit_boot_services-first_example =
    exit_boot_services-first 48 (late ∷ []) in_time [] (omega arith)
      (inr (omega arith, omega arith), tt) (refl, omega arith, refl)

-- A text of one letter in the corner of a small frame, and a picture of two pixels on four.
abbrev corner : Place
corner = record { fw = 40; fh = 30; scale = 2; x0 = 4; y0 = 2; accent_at = 9 }

draw_text-box_example : draw_text corner (b'O' ∷ []) black (1 * 40 + 7) ≡ black (1 * 40 + 7)
unfolding text_box_w text_box_h
draw_text-box_example =
    draw_text-box corner (b'O' ∷ []) black 7 1 (omega arith) (omega arith) (omega arith)
      (inr (inr (inl (omega arith))))

abbrev picture : Pixels
picture i = bgr i 0 0
