-- ===== src/Usb/Driver/Poll.antt =====
-- src/kernel/usb.c: `poll_events`, `wait_done`, `cmd_exec` and `ctrl_xfer`. The page of the event ring is a
-- function of the slot. A wait goes round once for each of the rounds to come, which say the tick count and
-- what stands in the event ring then. Behind the rounds that are listed nothing comes until the time of the wait
-- is up.
use sacabambaspos.Base.{
  ℕ, zero, suc, ◌+◌, ◌-◌, ◌*◌, ◌/◌, ◌%◌, false, not, ◌&&◌, Option, none, some, List, [], ◌∷◌, ◌++◌,
  max, ltb, ◌==◌, if◌then◌else◌, bit_or, u64,
}
use sacabambaspos.Usb.TrbRing.{TrbRing, ring_push, ring_trbs}
use sacabambaspos.Usb.Driver.{Event, Waiter, Xhci, handle_event}

-- `ev_deq` and `ev_cyc`.
pub record Cursor : Type 0 where
  pub deq : ℕ
  pub cyc : ℕ

unfoldable pub advance : Cursor → Cursor
advance q =
    if q.deq + 1 == ring_trbs
    then record { deq = 0; cyc = 1 - q.cyc }
    else record q { deq = q.deq + 1 }

-- At most `k` events: their number, the cursor and the state.
unfoldable pub poll_from : ℕ → ℕ → (ℕ → Event) → Cursor → Xhci → ℕ × Cursor × Xhci
unfolding advance
poll_from zero ticks ring q x = (0, q, x)
poll_from (suc k) ticks ring q x =
    let e = ring q.deq in
    let (n, q', x') = poll_from k ticks ring (advance q) (handle_event ticks e x) in
    if e.trb.c % 2 == q.cyc then (suc n, q', x') else (0, q, x)

pub record Moment : Type 0 where
  pub now : ℕ
  pub ring : ℕ → Event

-- The controller with its event ring at `ev_phys`, the command ring, and what is to come.
pub record Hc : Type 0 where
  pub x : Xhci
  pub q : Cursor
  pub ev_phys : ℕ
  pub erdp : ℕ
  pub cmd : TrbRing
  pub ticks : ℕ
  pub rounds : List Moment

unfoldable pub poll_events : (ℕ → Event) → Hc → ℕ × Hc
poll_events ring h =
    let (n, q, x) = poll_from 513 h.ticks ring h.q h.x in
    let erdp = bit_or (h.ev_phys + q.deq * 16) 8 in
    (n, record h { q = q; x = x; erdp = if n == 0 then h.erdp else erdp })

-- The loop of `wait_done`.
unfoldable pub wait_rounds : ℕ → List Moment → Hc → Hc
wait_rounds end [] h = record h {
  rounds = [];
  ticks = if h.x.waiter.wdone then h.ticks else max h.ticks end;
}
wait_rounds end (r ∷ rs) h =
    let later = wait_rounds end rs (poll_events r.ring (record h { ticks = r.now })).1 in
    if not h.x.waiter.wdone && ltb h.ticks end then later else record h { rounds = r ∷ rs }

unfoldable pub with_waiter : Waiter → Hc → Hc
with_waiter w h = record h { x = record h.x { waiter = w } }

-- `none` is the -1 of a wait whose time is up.
unfoldable pub wait_done : ℕ → Hc → Option ℕ × Hc
unfolding with_waiter
wait_done ms h =
    let h' = wait_rounds (u64 (h.ticks + ms / 10 + 2)) h.rounds h in
    let w = h'.x.waiter in
    (if w.wdone then some w.wcc else none, with_waiter (record w { wt = 0; wdone = false }) h')

-- The command's TRB is at index `k` of the ring; its address is what the completion names.
unfoldable pub start_cmd : ℕ → ℕ → Hc → Hc
unfolding with_waiter
start_cmd param ctl h =
    let (k, cmd) = ring_push param 0 ctl h.cmd in
    let w : Waiter = record h.x.waiter { wt = 1; wp = cmd.phys + 16 * k; wdone = false } in
    let x : Xhci = record h.x { waiter = w; bells = h.x.bells ++ ((0, 0) ∷ []) } in
    record h { x = x; cmd = cmd }

-- What `slot_out` gets is `wslotout` of the new state.
unfoldable pub cmd_exec : ℕ → ℕ → Hc → Option ℕ × Hc
cmd_exec param ctl h = wait_done 1500 (start_cmd param ctl h)
