-- ===== src/Lib.antt =====
-- SacabambaspOS is a small 64-bit hobby kernel with its own UEFI loader: a console on the frame
-- buffer, PS/2 and USB keyboards, a shell, and user programs that run in ring 3 behind page tables.
-- The library models the parts of the kernel that keep state, and proves what makes them correct.
--
-- Base and its children: shared names, lists and words (`% 2 ^ w` is the wrap-around of a w-bit integer).
-- Libk: `memset`, `memcpy`, `memmove` and the string functions of src/kernel/kmain.c, over a memory that
--   is a function from addresses to bytes and over lists of characters (a list ends where C has the 0).
-- Heap: `kalloc_init`, `kalloc` and `kalloc_page` of src/kernel/kmain.c; `allocate` is a client's run of
--   calls.
-- Ring: the queues of src/kernel/kbd.c (`buf`, `rd`, `wr`) and src/kernel/usb.c (`kq`, `kq_r`, `kq_w`).
-- Keys: the key codes of src/shared/sbos_abi.h.
-- Kbd: src/kernel/kbd.c: `kbd_poll`, `decode` and `kbd_trygetc`. The controller is the list of the
--   status and data bytes that it will give. The loop of `kbd_trygetc` runs on fuel, and a theorem says
--   how much is enough. `Kbd.Getc` has `kbd_getc` over a list of what arrives between its tries,
--   and `Kbd.Init` `kbd_init`, with the answers of the ports as a list and 0xFF past its end.
-- Usb: of src/kernel/usb.c the reports of a boot keyboard (`kbd_report`, `usage_to_key`, the typematic at
--   the end of `usbkbd_poll`), the producer ring (`ring_init`, `ring_push`), `ep_interval`,
--   and in `Usb.Config` `find_kbd_if`, in as many rounds at most as the buffer has bytes. The keys
--   wait in a Ring of 64 slots that `kbd_trygetc` empties first.
--   `Usb.Driver` has the state of a controller and `handle_event`; below it `Poll` has `poll_events`, the
--   waits and `cmd_exec`, `Devices` the device table, `ctrl_xfer` and the contexts, `Enumerate`
--   `enum_device` in stages and `kbd_recover`, `Hub` the hubs, `Ports` the root ports and `Service`
--   `usbkbd_poll`. What the hardware does comes as lists: the event ring at each round of a wait, the
--   replies to control transfers, the output contexts and the PORTSC values that are read. `Fifo` and
--   `Answers` are about the event ring and the waits, `Sane` about the bounds in the device table.
-- Console: the cell grid, the cursor and the serial mirror of src/kernel/console.c. What is painted is
--   recorded as a list of cells or the whole grid, and not as pixels; `Console.Screen` has the geometry
--   of `con_init` and `render_cell`, with the size of a glyph (a generated file) as a parameter.
--   `Console.Log` has the log lines and the names of the colours.
-- Exc, Descriptors, Irq: src/kernel/kmain.c: the names of the exceptions; the GDT, the TSS and the IDT as
--   the words that the CPU reads; `isr_common` with what is written to the ports as a list, `panic`, and
--   what the PICs, the PIT and the local APIC are told.
-- Shell: src/kernel/shell.c. `Shell.Tokens` has the tokenizer of `shell_run_line`, on fuel,
--   `Shell.Builtins` the commands, `Shell.Render` the prompt and `render_line`, `Shell.Line` the buffer
--   that `read_line` edits and `Shell.Edit` its loop as a step per key, over the list of the keys to come.
--   `Shell.Edit.Shown` is about the row on the screen, `Shell.Edit.Spec` has the plain editor of a list.
--   `Shell.Run` has `shell_run_line` and a round of `shell_main`, `Shell.Run.Commands` and `Colors` are
--   about the first word of a line. A loop of `render_line` takes a
--   character or more in each round, so it runs on the length of the line.
-- Paging: src/kernel/paging.c. `Paging` has the tables and the operations, `Paging.Init` has
--   `paging_init`. `Paging.Window` says which table covers which addresses and what the MMU lets ring 3
--   access (`user_access`); `Paging.Isolation` follows that through every operation. A table is
--   a page of the Heap, and the words that it holds are a function of the page and the index. `cpuid`,
--   the registers and the linker's addresses are arguments of `paging_init`. `Paging.UserOk` is about the
--   check of user buffers.
-- Proc: the program loader of src/kernel/proc.c (`elf_run`). The file lies in the memory of the Heap, the
--   program's pages come from it and are mapped by Paging; `user_enter` is an argument. `Proc.Load` is
--   about the bytes, `Proc.Span` about the recorded span, `Proc.Maps` about the pages that are mapped,
--   `Proc.Isolation` about what ring 3 can access, and
--   `Proc.Pak` models the archive of programs, `Proc.Exec` `proc_exec` and `proc_fault`, `Proc.Init`
--   `proc_init`, and `Proc.Syscall` the system calls: user memory is read through the page tables, keys
--   come from a list of arrivals, what `usbkbd_poll` takes from the heap meanwhile from a list of
--   requests, and a tick comes within each `hlt`, so that the wait of SYS_SLEEP
--   runs on the ticks that are left.
-- Boot: src/efi/boot.c. `Boot.KernelLoad` has `kernel_load` on the bytes of the file, with the address
--   that the firmware gives as an argument: the loops run over the numbers in the header. `Boot.Confined`
--   is about the copying of segments, `Boot.Relocs` about the targets of relocations, and `Boot.Divide`
--   has the 64-bit division of the 32-bit loader. `Boot.Log` has the log kept for the overlay and
--   `find_rsdp` over the list of the configuration tables. `Boot.Files` has `load_file` and `load_asset`
--   over a file that answers a read at a position: as many rounds as bytes are wanted, and
--   `Boot.Files.Chunks` shows that they are enough. `Boot.Leave` has `exit_boot_services` over the list
--   of the firmware's answers. `Boot.Panel` has the geometry of `ol_init` and the painting of `ol_flush`,
--   `Boot.Splash` the frame that `draw` composes, both in buffers of `Boot.Pixels`.
-- User: of src/user the sieve of primes.c, where a run over the multiples has as many rounds as the bound, and a
--   lemma says that they are enough, and snake.c: `User.Snake` has the game as a step per round, with the
--   keys of each round as a list, and `User.Calls` the calls of sbos.h. The search for a place for the food
--   runs on a number of tries. `Trail`, `Rounds` and `Games` are about the list of the snake's cells.
-- Initrc: the reading of lines in `run_initrc` of src/kernel/kmain.c.
--
-- Not modelled: the bring-up of an xHCI controller and the search for it, the order of `kmain`, the pixels of
-- the kernel's console, the reset of the machine by the command `reboot`, the rest of the UEFI loader (the order
-- of `efi_main`, how pixels are sent to the screen and the text to the firmware's console) and what the other
-- user programs print (src/user). Assembly has no state here.
pub mod Base
pub mod Libk
pub mod Heap
pub mod Ring
pub mod Keys
pub mod Kbd
pub mod Usb
pub mod Console
pub mod Exc
pub mod Descriptors
pub mod Shell
pub mod Initrc
pub mod Paging
pub mod Proc
pub mod Irq
pub mod Boot
pub mod User
