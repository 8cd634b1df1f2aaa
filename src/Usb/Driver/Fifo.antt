-- ===== src/Usb/Driver/Fifo.antt =====
-- The event ring as a queue: what the controller has queued is what `poll_events` handles.
use sacabambaspos.Base.{
  ℕ, zero, suc, ◌+◌, ◌-◌, ◌*◌, ◌/◌, ◌%◌, ◌≤◌, ◌<◌, ◌≡◌, ◌≢◌, refl, ap, ◌∙◌, arith, ◌==◌,
  if◌then◌else◌, bit_or,
}
use sacabambaspos.Usb.Driver.{Event, Xhci, handle_event}
use sacabambaspos.Usb.Driver.Poll.{Cursor, advance, poll_from, Hc, poll_events}

-- The cycle bit of lap `q`.
abbrev pub lap_cycle : ℕ → ℕ
lap_cycle q = 1 - q % 2

-- The cursor in front of event number `n`, counted from 0.
abbrev pub cursor_at : ℕ → Cursor
cursor_at n = record { deq = n % 256; cyc = lap_cycle (n / 256) }

-- The events from number `n` to before `m` stand in the ring, each with the cycle bit of its lap, and the slot
-- behind them has the cycle bit of the lap before.
pub record Queued (sent : ℕ → Event) (n m : ℕ) (ring : ℕ → Event) : Type 0 where
  pub stored : (i : ℕ) → n ≤ i → i < m → ring (i % 256) ≡ sent i
  pub marked : (i : ℕ) → n ≤ i → i < m → (sent i).trb.c % 2 ≡ lap_cycle (i / 256)
  pub free : (ring (m % 256)).trb.c % 2 ≢ lap_cycle (m / 256)

-- The events number `n` to `n + d - 1`, handled in order.
unfoldable pub handle_sent : ℕ → (ℕ → Event) → ℕ → ℕ → Xhci → Xhci
handle_sent ticks sent n zero x = x
handle_sent ticks sent n (suc d) x =
    handle_sent ticks sent (suc n) d (handle_event ticks (sent n) x)

advance-cursor_at : (n : ℕ) → advance (cursor_at n) ≡ cursor_at (suc n)
unfolding advance
advance-cursor_at n = ground arith

behind :
    {sent : ℕ → Event} {n m : ℕ} {ring : ℕ → Event}
    → Queued sent n m ring
    → Queued sent (suc n) m ring
behind q = record {
  stored = λ i le lt. q.stored i (omega arith) lt;
  marked = λ i le lt. q.marked i (omega arith) lt;
  free = q.free;
}

-- Reading stops in front of a slot with the other cycle bit, and goes on behind one with the cursor's.
poll_from-stop :
    (k ticks : ℕ) (ring : ℕ → Event) (q : Cursor) (x : Xhci)
    → (ring q.deq).trb.c % 2 ≢ q.cyc
    → poll_from k ticks ring q x ≡ (0, q, x)
unfolding poll_from
poll_from-stop zero ticks ring q x h = refl
poll_from-stop (suc k) ticks ring q x h = ground arith

poll_from-next :
    (k ticks : ℕ) (ring : ℕ → Event) (q : Cursor) (x : Xhci)
    → (ring q.deq).trb.c % 2 ≡ q.cyc
    → let r = poll_from k ticks ring (advance q) (handle_event ticks (ring q.deq) x) in
      poll_from (suc k) ticks ring q x ≡ (suc r.0, r.1, r.2)
unfolding poll_from
poll_from-next k ticks ring q x h = ground arith

poll_from-Queued :
    (k ticks : ℕ) (sent : ℕ → Event) (n d m : ℕ) (ring : ℕ → Event) (x : Xhci)
    → n + d ≡ m
    → d ≤ k
    → Queued sent n m ring
    → poll_from k ticks ring (cursor_at n) x ≡ (d, cursor_at m, handle_sent ticks sent n d x)
unfolding handle_sent
poll_from-Queued k ticks sent n zero m ring x e le q =
    let same : n ≡ m = omega arith in
    poll_from-stop k ticks ring (cursor_at n) x (rw same q.free)
    ∙ ap (λ (i : ℕ). (0, cursor_at i, x)) same
poll_from-Queued zero ticks sent n (suc d) m ring x e le q = absurd (omega arith)
poll_from-Queued (suc k) ticks sent n (suc d) m ring x e le q =
    let here = q.stored n (omega arith) (omega arith) in
    let mark = q.marked n (omega arith) (omega arith) in
    let ih =
      poll_from-Queued k ticks sent (suc n) d m ring (handle_event ticks (sent n) x) (omega arith)
        (omega arith) (behind q) in
    poll_from-next k ticks ring (cursor_at n) x (rw here mark)
    ∙ rw (here, advance-cursor_at n) (ap (λ (r : ℕ × Cursor × Xhci). (suc r.0, r.1, r.2)) ih)

-- When the controller has queued the events up to number m, 513 new ones at most, and the cursor stands in front
-- of number n, poll_events handles exactly the events n to m - 1, in order, stands in front of number m after it,
-- and tells the controller so when there was one.
pub poll_events-Queued :
    (sent : ℕ → Event) (n d m : ℕ) (ring : ℕ → Event) (h : Hc)
    → n + d ≡ m
    → d ≤ 513
    → h.q ≡ cursor_at n
    → Queued sent n m ring
    → let (count, h') = poll_events ring h in
      (count ≡ d)
      × (h'.q ≡ cursor_at m)
      × (h'.x ≡ handle_sent h.ticks sent n d h.x)
      × (h'.ticks ≡ h.ticks)
      × (h'.erdp ≡ (if d == 0 then h.erdp else bit_or (h.ev_phys + m % 256 * 16) 8))
unfolding poll_events
poll_events-Queued sent n d m ring h e le at queued =
    let r = poll_from-Queued 513 h.ticks sent n d m ring h.x e le queued in
    rw at (rw r (refl, refl, refl, refl, refl))
