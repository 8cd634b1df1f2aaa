-- ===== src/Shell/Builtins.antt =====
-- src/kernel/shell.c: the commands that are built in. `reboot` and `halt` print and do not return.
use sacabambaspos.Base.{
  ℕ, zero, suc, ◌+◌, ◌-◌, ◌/◌, ◌%◌, ◌^◌, false, ◌&&◌, Option, none, some, List, [], ◌∷◌, take, ltb,
  ◌==◌, if◌then◌else◌, String, bytes, ◌▷◌,
}
use sacabambaspos.Libk.{strlen, strncmp}
use sacabambaspos.Heap.{Heap, kalloc_used}
use sacabambaspos.Console.{Console, con_fg, con_color, con_putc, con_puts, con_clear, con_cursor}
use sacabambaspos.Console.Numbers.{con_put_u64, con_put_hex}
use sacabambaspos.Console.Log.{put, c_black, c_lgrey, c_dgrey, c_lgreen, c_lcyan, c_yellow, c_white}
use sacabambaspos.Proc.{is_zero}
use sacabambaspos.Proc.Pak.{Pak, proc_count, proc_name}

-- What the commands read: the boot info, the heap, the clock and the archive.
pub record Facts : Type 0 where
  pub total_ram : ℕ
  pub heap_size : ℕ
  pub fb_base : ℕ
  pub fb_width : ℕ
  pub fb_height : ℕ
  pub fb_pitch : ℕ
  pub fb_format : ℕ
  pub heap : Heap
  pub ticks : ℕ
  pub pak : Option Pak

abbrev pub Argv : Type 0
Argv = List (List ℕ)

pub data Builtin : Type 0 where
  help ls clear echo ver mem uptime fb colors fish reboot halt : Builtin

pub record Cmd : Type 0 where
  pub name : List ℕ
  pub text : List ℕ
  pub fn : Builtin

abbrev entry : String → String → Builtin → Cmd
entry name text fn = record { name = bytes name; text = bytes text; fn = fn }

unfoldable pub cmds : List Cmd
cmds =
    entry "help" "list commands" help
    ∷ entry "ls" "list /bin programs" ls
    ∷ entry "clear" "wipe the screen" clear
    ∷ entry "echo" "print arguments" echo
    ∷ entry "ver" "version + lineage" ver
    ∷ entry "mem" "RAM + kernel heap usage" mem
    ∷ entry "uptime" "time since kernel entry" uptime
    ∷ entry "fb" "framebuffer + console geometry" fb
    ∷ entry "colors" "palette test" colors
    ∷ entry "fish" "the mascot" fish
    ∷ entry "reboot" "reset the machine" reboot
    ∷ entry "halt" "stop the CPU" halt
    ∷ []

unfoldable pub find_in : List Cmd → List ℕ → ℕ → Option Cmd
find_in [] name n = none
find_in (c ∷ cs) name n =
    let rest = find_in cs name n in
    if strlen c.name == n && is_zero (strncmp c.name name n) then some c else rest

-- The name is not terminated: it ends after `n` characters.
unfoldable pub find_cmd : List ℕ → ℕ → Option Cmd
find_cmd = find_in cmds

unfoldable pub put_spaces : ℕ → Console → Console
put_spaces zero s = s
put_spaces (suc n) s = put_spaces n (con_putc b' ' s)

unfoldable pub list_entries : List Cmd → Console → Console
list_entries [] s = s
list_entries (c ∷ cs) s =
    s
    ▷ con_fg c_lgreen
    ▷ put "  "
    ▷ con_puts c.name
    ▷ put_spaces (10 - strlen c.name)
    ▷ con_fg c_lgrey
    ▷ con_puts c.text
    ▷ con_putc b'\n'
    ▷ list_entries cs

unfoldable pub list_cmds : Console → Console
list_cmds = list_entries cmds

unfoldable pub cmd_help : Facts → Console → Console
cmd_help k s =
    let s' = s ▷ con_fg c_lcyan ▷ put "  SacabambaspOS shell builtins\n" ▷ list_cmds in
    if ltb 0 (proc_count k.pak)
    then s' ▷ con_fg c_lcyan ▷ put "  /bin programs (ring 3) - see " ▷ con_fg c_lgreen ▷ put "ls\n"
    else s'

-- The characters before the 0 that ends the name.
abbrev name_of : Option (List ℕ) → List ℕ
name_of none = []
name_of (some w) = take (strlen w) w

-- Programs number `i` and up, `n` of them.
unfoldable pub list_programs : ℕ → ℕ → Facts → Console → Console
list_programs zero i k s = s
list_programs (suc n) i k s =
    s
    ▷ con_fg c_lgreen
    ▷ put "  "
    ▷ con_puts (name_of (proc_name k.pak i k.heap.mem))
    ▷ con_putc b'\n'
    ▷ list_programs n (i + 1) k

unfoldable pub cmd_ls : Facts → Console → Console
cmd_ls k s =
    let n = proc_count k.pak in
    if n == 0
    then s ▷ con_fg c_dgrey ▷ put "  no BIN.PAK loaded - builtins only\n"
    else s
      ▷ con_fg c_dgrey
      ▷ put "  /bin  ("
      ▷ con_put_u64 n
      ▷ (if n == 1 then put " program, ring 3)\n" else put " programs, ring 3)\n")
      ▷ list_programs n 0 k

-- The arguments behind the command's name, with single spaces between.
unfoldable pub echo_args : Argv → Console → Console
echo_args [] s = s
echo_args (w ∷ []) s = con_puts w s
echo_args (w ∷ v ∷ ws) s = s ▷ con_puts w ▷ con_putc b' ' ▷ echo_args (v ∷ ws)

unfoldable pub cmd_echo : Argv → Console → Console
cmd_echo [] s = s ▷ con_fg c_white ▷ con_putc b'\n'
cmd_echo (w ∷ ws) s = s ▷ con_fg c_white ▷ echo_args ws ▷ con_putc b'\n'

unfoldable pub cmd_ver : Console → Console
cmd_ver s =
    s
    ▷ con_fg c_white
    ▷ put "  Sacabambasp"
    ▷ con_fg c_lcyan
    ▷ put "OS "
    ▷ con_fg c_yellow
    ▷ put "v0.4.0"
    ▷ con_fg c_lgrey
    ▷ put "  stage 2: ring-3 userland\n"
    ▷ con_fg c_dgrey
    ▷ put "  named after Sacabambaspis janvieri, 460 million years your senior\n"

unfoldable pub cmd_mem : Facts → Console → Console
cmd_mem k s =
    s
    ▷ con_fg c_lgrey
    ▷ put "  total RAM   "
    ▷ con_fg c_lcyan
    ▷ con_put_u64 (k.total_ram / 2 ^ 20)
    ▷ put " MiB\n"
    ▷ con_fg c_lgrey
    ▷ put "  kernel heap "
    ▷ con_fg c_lcyan
    ▷ con_put_u64 (kalloc_used k.heap / 2 ^ 10)
    ▷ put " KiB"
    ▷ con_fg c_lgrey
    ▷ put " used of "
    ▷ con_fg c_lcyan
    ▷ con_put_u64 (k.heap_size / 2 ^ 20)
    ▷ put " MiB\n"

unfoldable pub cmd_uptime : Facts → Console → Console
cmd_uptime k s =
    let t = k.ticks in
    s
    ▷ con_fg c_lgrey
    ▷ put "  up "
    ▷ con_fg c_lcyan
    ▷ con_put_u64 (t / 100)
    ▷ con_putc b'.'
    ▷ con_putc (b'0' + t / 10 % 10)
    ▷ con_putc (b'0' + t % 10)
    ▷ con_fg c_lgrey
    ▷ put " s ("
    ▷ con_fg c_lcyan
    ▷ con_put_u64 t
    ▷ con_fg c_lgrey
    ▷ put " ticks @ 100 Hz)\n"

unfoldable pub cmd_fb : Facts → Console → Console
cmd_fb k s =
    s
    ▷ con_fg c_lgrey
    ▷ put "  framebuffer "
    ▷ con_fg c_lcyan
    ▷ con_put_u64 k.fb_width
    ▷ con_putc b'x'
    ▷ con_put_u64 k.fb_height
    ▷ con_fg c_lgrey
    ▷ put " @ "
    ▷ con_fg c_lcyan
    ▷ con_put_hex k.fb_base
    ▷ con_fg c_lgrey
    ▷ put "  pitch "
    ▷ con_fg c_lcyan
    ▷ con_put_u64 k.fb_pitch
    ▷ con_fg c_lgrey
    ▷ put " px  "
    ▷ con_fg c_lcyan
    ▷ (if k.fb_format == 0 then put "BGRX" else put "RGBX")
    ▷ con_fg c_lgrey
    ▷ put "  console "
    ▷ con_fg c_lcyan
    ▷ con_put_u64 s.cols
    ▷ con_putc b'x'
    ▷ con_put_u64 s.rows
    ▷ con_putc b'\n'

-- Colour `i` and the next, `n` of them; black shows as dark grey.
unfoldable pub show_colors : ℕ → ℕ → Console → Console
show_colors zero i s = s
show_colors (suc n) i s =
    s ▷ con_color (if i == c_black then c_dgrey else i) c_black ▷ put "##" ▷ show_colors n (i + 1)

unfoldable pub cmd_colors : Console → Console
cmd_colors s = s ▷ put "  " ▷ show_colors 16 0 ▷ con_color c_lgrey c_black ▷ con_putc b'\n'

unfoldable pub cmd_fish : Console → Console
cmd_fish s =
    s
    ▷ con_fg c_lcyan
    ▷ put "        ______________________ "
    ▷ con_putc b'\n'
    ▷ put "      /                        \\___ "
    ▷ con_putc b'\n'
    ▷ put "     /  O                          \\__"
    ▷ con_putc b'\n'
    ▷ put "    |  __                     ________/"
    ▷ con_putc b'\n'
    ▷ put "     \\ \\/                 ___/"
    ▷ con_putc b'\n'
    ▷ put "      \\___________________\\"
    ▷ con_putc b'\n'
    ▷ con_fg c_dgrey
    ▷ put "  sacabambaspis approves of this boot\n"

-- What `cmd_reboot` and `cmd_halt` show before the machine stops.
unfoldable pub cmd_reboot : Console → Console
cmd_reboot s = s ▷ con_fg c_yellow ▷ put "  rebooting...\n"

unfoldable pub cmd_halt : Console → Console
cmd_halt s =
    s
    ▷ con_fg c_yellow
    ▷ put "  halted. pull the USB whenever - nothing was written.\n"
    ▷ con_cursor false

-- `c->fn(argc, argv)`
unfoldable pub run_builtin : Builtin → Argv → Facts → Console → Console
run_builtin help w k s = cmd_help k s
run_builtin ls w k s = cmd_ls k s
run_builtin clear w k s = con_clear s
run_builtin echo w k s = cmd_echo w s
run_builtin ver w k s = cmd_ver s
run_builtin mem w k s = cmd_mem k s
run_builtin uptime w k s = cmd_uptime k s
run_builtin fb w k s = cmd_fb k s
run_builtin colors w k s = cmd_colors s
run_builtin fish w k s = cmd_fish s
run_builtin reboot w k s = cmd_reboot s
run_builtin halt w k s = cmd_halt s
