-- ===== src/Usb/Driver/Devices.antt =====
-- src/kernel/usb.c: the device table, control transfers, and the contexts. What the hardware puts into memory
-- or a register is a list of what is found there, in the order of the reads: past the end a buffer is as it was,
-- and a register floats. `none` for a completion code is the -1 of a wait whose time is up.
use sacabambaspos.Base.{
  ℕ, suc, ◌+◌, ◌-◌, ◌*◌, ◌/◌, ◌%◌, ◌^◌, Bool, true, false, not, ◌&&◌, Option, none, some, List, [],
  ◌∷◌, ◌++◌, get_or, drop, set, ◌==◌, if◌then◌else◌, bit_or, test_bit, u64,
}
use sacabambaspos.Heap.{Heap, kalloc, align_up}
use sacabambaspos.Usb.TrbRing.{ring_push}
use sacabambaspos.Usb.Report.{Typist}
use sacabambaspos.Usb.Driver.{UsbDev, unused, Waiter}
use sacabambaspos.Usb.Driver.Poll.{Hc, cmd_exec, wait_done}

abbrev pub max_devs : ℕ
max_devs = 16

-- What does not change once the controller runs: `ictx`, `xbuf` and `op` are addresses.
pub record Chip : Type 0 where
  pub csz : ℕ
  pub slots : ℕ
  pub ports : ℕ
  pub ictx : ℕ
  pub xbuf : ℕ
  pub op : ℕ
  pub pmajor : ℕ → ℕ

-- `inputs` are the words of the input context, `reply` the bytes in `xbuf`, and `portsc` what was written there.
pub record Drv : Type 0 where
  pub hc : Hc
  pub heap : Heap
  pub dcbaa : ℕ → ℕ
  pub inputs : ℕ → ℕ
  pub reply : ℕ → ℕ
  pub replies : List (ℕ → ℕ)
  pub contexts : List (ℕ → ℕ)
  pub regs : List ℕ
  pub portsc : List (ℕ × ℕ)
  pub hubscan_at : ℕ

unfoldable pub device : ℕ → Drv → UsbDev
device i s = get_or s.hc.x.dev i unused

unfoldable pub put_dev : ℕ → UsbDev → Drv → Drv
put_dev i d s = record s { hc = record s.hc { x = record s.hc.x { dev = set s.hc.x.dev i d } } }

unfoldable pub dma_alloc : ℕ → ℕ → Drv → Option ℕ × Drv
dma_alloc n align s =
    let (p, heap) = kalloc (n + align) s.heap in
    (elim p [ none ↦ none | some a ↦ some (align_up align a) ], record s { heap = heap })

unfoldable pub sleep_ms : ℕ → Drv → Drv
sleep_ms ms s = record s { hc = record s.hc { ticks = u64 (s.hc.ticks + ms / 10 + 2) } }

unfoldable pub command : ℕ → ℕ → Drv → Option ℕ × Drv
command param ctl s = let (code, h) = cmd_exec param ctl s.hc in (code, record s { hc = h })

abbrev pub is_one : Option ℕ → Bool
is_one none = false
is_one (some c) = c == 1

abbrev pub timed_out : Option ℕ → Bool
timed_out none = true
timed_out (some c) = false

-- Control transfers on the ring of the default endpoint.
unfoldable pub push_ep0 : ℕ → ℕ → ℕ → ℕ → Drv → Drv
unfolding put_dev device
push_ep0 i p len ctl s =
    put_dev i (record (device i s) { ep0 = (ring_push p len ctl (device i s).ep0).1 }) s

unfoldable pub setup_of : ℕ → ℕ → ℕ → ℕ → ℕ → ℕ
setup_of bm req val idx len =
    bit_or (bit_or (bit_or (bit_or bm (req * 2 ^ 8)) (val * 2 ^ 16)) (idx * 2 ^ 32)) (len * 2 ^ 48)

unfoldable pub transfer_type : ℕ → ℕ → ℕ
transfer_type bm len = if len == 0 then 0 else if test_bit bm 7 then 3 else 2

unfoldable pub status_in : ℕ → ℕ → ℕ
status_in bm len = if not (len == 0) && test_bit bm 7 then 0 else 1

unfoldable pub push_transfer : Chip → ℕ → ℕ → ℕ → ℕ → ℕ → ℕ → Drv → Drv
unfolding setup_of transfer_type status_in
push_transfer c i bm req val idx len s =
    let s1 =
      push_ep0 i (setup_of bm req val idx len) 8
        (2 * 2 ^ 10 + 2 ^ 6 + transfer_type bm len * 2 ^ 16) s in
    let s2 = if len == 0 then s1 else push_ep0 i c.xbuf len (3 * 2 ^ 10 + bm / 2 ^ 7 * 2 ^ 16) s1 in
    push_ep0 i 0 0 (4 * 2 ^ 10 + 2 ^ 5 + status_in bm len * 2 ^ 16) s2

-- What an IN transfer brings is the next reply.
unfoldable pub receive : ℕ → ℕ → Drv → Drv
receive bm len s =
    if not (len == 0) && test_bit bm 7
    then record s { reply = get_or s.replies 0 s.reply; replies = drop 1 s.replies }
    else s

unfoldable pub await_transfer : ℕ → Drv → Option ℕ × Drv
unfolding device
await_transfer i s =
    let slot = (device i s).slot in
    let x = s.hc.x in
    let w : Waiter = record x.waiter { wt = 2; wslot = slot; wdci = 1; wdone = false } in
    let h : Hc = record s.hc { x = record x { waiter = w; bells = x.bells ++ ((slot, 1) ∷ []) } } in
    let (code, h') = wait_done 1500 h in (code, record s { hc = h' })

unfoldable pub ctrl_xfer : Chip → ℕ → ℕ → ℕ → ℕ → ℕ → ℕ → Drv → Option ℕ × Drv
unfolding push_transfer await_transfer receive
ctrl_xfer c i bm req val idx len s =
    let (code, s') = await_transfer i (push_transfer c i bm req val idx len s) in
    (code, receive bm len s')

-- The table.
unfoldable pub free_dev : List UsbDev → Option ℕ
free_dev [] = none
free_dev (d ∷ ds) =
    let later = free_dev ds in
    if not d.used then some 0 else elim later [ none ↦ none | some i ↦ some (suc i) ]

-- `dev_drop`
unfoldable pub disable_slot : ℕ → Drv → Drv
disable_slot slot s =
    let s' = (command 0 (bit_or (10 * 2 ^ 10) (slot * 2 ^ 24)) s).1 in
    record s' { dcbaa = λ j. if j == slot then 0 else s'.dcbaa j }

unfoldable pub stop_repeat : Bool → Drv → Drv
stop_repeat is_kbd s =
    let t : Typist = record s.hc.x.typist { rep_usage = 0 } in
    if is_kbd then record s { hc = record s.hc { x = record s.hc.x { typist = t } } } else s

unfoldable pub dev_drop : ℕ → Drv → Drv
unfolding disable_slot stop_repeat put_dev device
dev_drop i s =
    let slot = (device i s).slot in
    let s1 = if slot == 0 then s else disable_slot slot s in
    let s2 = stop_repeat (device i s1).is_kbd s1 in
    put_dev i (record (device i s2) { used = false }) s2

-- The words of the input context.
unfoldable pub clear_inputs : Drv → Drv
clear_inputs s = record s { inputs = λ j. 0 }

unfoldable pub poke : ℕ → ℕ → Drv → Drv
poke k v s = record s { inputs = λ j. if j == k then v % 2 ^ 32 else s.inputs j }

-- Word `k` of `ictx_slot` and of `ictx_ep`.
abbrev pub slot_word : Chip → ℕ → ℕ
slot_word c k = c.csz / 4 + k

abbrev pub ep_word : Chip → ℕ → ℕ → ℕ
ep_word c dci k = c.csz * (1 + dci) / 4 + k

-- The words of the output context.
unfoldable pub read_context : Drv → (ℕ → ℕ) × Drv
read_context s = (get_or s.contexts 0 (λ k. 0), record s { contexts = drop 1 s.contexts })

unfoldable pub rr : Drv → ℕ × Drv
rr s = (get_or s.regs 0 (2 ^ 32 - 1), record s { regs = drop 1 s.regs })
