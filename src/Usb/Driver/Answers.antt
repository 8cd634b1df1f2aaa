-- ===== src/Usb/Driver/Answers.antt =====
-- What `wait_done` makes of the answers of the controller to a command.
use sacabambaspos.Base.{
  ℕ, zero, suc, ◌+◌, ◌/◌, ◌^◌, ◌≤◌, ◌<◌, ◌≡◌, ◌≢◌, ◌⊎◌, inl, inr, refl, ap, ◌∙◌, arith, ◌==◌,
  if◌then◌else◌, true, false, List, [], ◌∷◌, ◌++◌, Option, none, some, u64,
}
use sacabambaspos.Usb.Driver.{
  Event, Xhci, Waiter, handle_event, transfer_to, transfer_event, completion, transferred,
  keyboard_event, report_of, kbd_arm, port_event, event_type, event_code, event_slot, dev_by_slot,
}
use sacabambaspos.Usb.Driver.Poll.{
  Moment, Hc, poll_events, wait_rounds, wait_done, start_cmd, cmd_exec,
}
use sacabambaspos.Usb.Driver.Fifo.{Queued, cursor_at, handle_sent, poll_events-Queued}

-- The event is the completion of the command at `wp`.
unfoldable pub IsAnswer : ℕ → Event → Type 0
IsAnswer wp e = (event_type e ≡ 33) × (e.trb.p ≡ wp)

abbrev answered : Event → Waiter → Waiter
answered e w = record w { wcc = event_code e; wslotout = event_slot e; wdone = true }

keyboard_event-waiter :
    (ticks i : ℕ) (e : Event) (x : Xhci) → (keyboard_event ticks i e x).waiter ≡ x.waiter
unfolding keyboard_event kbd_arm report_of
keyboard_event-waiter ticks i e x = ground arith

transferred-command : (e : Event) (w : Waiter) → w.wt ≡ 1 → transferred e w ≡ w
unfolding transferred
transferred-command e w h = ground arith

transfer_to-waiter :
    (ticks : ℕ) (e : Event) (x : Xhci) (found : Option ℕ)
    → x.waiter.wt ≡ 1
    → (transfer_to ticks e x found).waiter ≡ x.waiter
unfolding transfer_to
transfer_to-waiter ticks e x none h = transferred-command e x.waiter h
transfer_to-waiter ticks e x (some i) h =
    ground (arith, keyboard_event-waiter ticks i e x, transferred-command e x.waiter h)

transfer_event-waiter :
    (ticks : ℕ) (e : Event) (x : Xhci)
    → x.waiter.wt ≡ 1
    → (transfer_event ticks e x).waiter ≡ x.waiter
unfolding transfer_event
transfer_event-waiter ticks e x = transfer_to-waiter ticks e x (dev_by_slot (event_slot e) x.dev)

handle_event-waiter :
    (ticks : ℕ) (e : Event) (x : Xhci)
    → x.waiter.wt ≡ 1
    → (handle_event ticks e x).waiter
      ≡ (if event_type e == 33 then completion e x.waiter else x.waiter)
unfolding handle_event port_event
handle_event-waiter ticks e x h = ground (arith, transfer_event-waiter ticks e x h)

-- An event that does not answer the command changes nothing of the waiting.
quiet :
    (ticks : ℕ) (e : Event) (x : Xhci)
    → x.waiter.wt ≡ 1
    → ¬ IsAnswer x.waiter.wp e
    → (handle_event ticks e x).waiter ≡ x.waiter
unfolding completion IsAnswer
quiet ticks e x h other = handle_event-waiter ticks e x h ∙ ground arith

answer :
    (ticks : ℕ) (e : Event) (x : Xhci)
    → x.waiter.wt ≡ 1
    → IsAnswer x.waiter.wp e
    → (handle_event ticks e x).waiter ≡ answered e x.waiter
unfolding completion IsAnswer
answer ticks e x h (t, p) = handle_event-waiter ticks e x h ∙ ground (arith, t, p)

-- Of the events from number n on only number a, if any, answers the command.
unfoldable pub OnlyAnswer : (ℕ → Event) → ℕ → ℕ → ℕ → Type 0
OnlyAnswer sent wp n a = (i : ℕ) → n ≤ i → i ≢ a → ¬ IsAnswer wp (sent i)

handle_sent-quiet :
    (ticks : ℕ) (sent : ℕ → Event) (wp n d a : ℕ) (x : Xhci)
    → x.waiter.wt ≡ 1
    → x.waiter.wp ≡ wp
    → OnlyAnswer sent wp n a
    → (n + d ≤ a) ⊎ (a < n)
    → (handle_sent ticks sent n d x).waiter ≡ x.waiter
unfolding handle_sent OnlyAnswer
handle_sent-quiet ticks sent wp n zero a x t p only off = refl
handle_sent-quiet ticks sent wp n (suc d) a x t p only off =
    let same = quiet ticks (sent n) x t (rw p (only n (omega arith) (omega arith))) in
    handle_sent-quiet ticks sent wp (suc n) d a (handle_event ticks (sent n) x) (rw same t)
      (rw same p) (λ i h. only i (omega arith)) (omega arith)
    ∙ same

handle_sent-answer :
    (ticks : ℕ) (sent : ℕ → Event) (wp n d a : ℕ) (x : Xhci)
    → x.waiter.wt ≡ 1
    → x.waiter.wp ≡ wp
    → OnlyAnswer sent wp n a
    → IsAnswer wp (sent a)
    → n ≤ a
    → a < n + d
    → (handle_sent ticks sent n d x).waiter ≡ answered (sent a) x.waiter
unfolding handle_sent OnlyAnswer
handle_sent-answer ticks sent wp n zero a x t p only is le lt = absurd (omega arith)
handle_sent-answer ticks sent wp n (suc d) a x t p only is le lt =
    let where_it_is : (n ≡ a) ⊎ (suc n ≤ a) = omega arith in
    elim where_it_is [
      | inl e ↦
          let this : IsAnswer x.waiter.wp (sent n) = rw (p, e) is in
          let same = answer ticks (sent n) x t this in
          handle_sent-quiet ticks sent wp (suc n) d a (handle_event ticks (sent n) x) (rw same t)
            (rw same p) (λ i h. only i (omega arith)) (inr (omega arith))
          ∙ same
          ∙ ap (λ (i : ℕ). answered (sent i) x.waiter) e
      | inr before ↦
          let same = quiet ticks (sent n) x t (rw p (only n (omega arith) (omega arith))) in
          handle_sent-answer ticks sent wp (suc n) d a (handle_event ticks (sent n) x) (rw same t)
            (rw same p) (λ i h. only i (omega arith)) is before (omega arith)
          ∙ ap (answered (sent a)) same
    ]

-- The rounds of a wait up to the one whose events have number a among them: each finds the events up to some
-- number, 513 new ones at most, and is followed by another before the end.
unfoldable pub Comes : (ℕ → Event) → ℕ → ℕ → ℕ → List Moment → Type 0
Comes sent a end n [] = ⊥
Comes sent a end n (r ∷ rs) =
    (d : ℕ) × (d ≤ 513)
    × Queued sent n (n + d) r.ring
    × ((a < n + d) ⊎ ((r.now < end) × (n + d ≤ a) × Comes sent a end (n + d) rs))

wait_rounds-go :
    (end : ℕ) (r : Moment) (rs : List Moment) (h : Hc)
    → h.x.waiter.wdone ≡ false
    → h.ticks < end
    → wait_rounds end (r ∷ rs) h
      ≡ wait_rounds end rs (poll_events r.ring (record h { ticks = r.now })).1
unfolding wait_rounds
wait_rounds-go end r rs h e soon = ground arith

wait_rounds-stop :
    (end : ℕ) (rs : List Moment) (h : Hc) → h.x.waiter.wdone ≡ true → (wait_rounds end rs h).x ≡ h.x
unfolding wait_rounds
wait_rounds-stop end [] h e = refl
wait_rounds-stop end (r ∷ rs) h e = ground arith

wait_rounds-answer :
    (sent : ℕ → Event) (wp a end n : ℕ) (rs : List Moment) (h : Hc)
    → h.q ≡ cursor_at n
    → h.x.waiter.wt ≡ 1
    → h.x.waiter.wp ≡ wp
    → h.x.waiter.wdone ≡ false
    → h.ticks < end
    → n ≤ a
    → OnlyAnswer sent wp n a
    → IsAnswer wp (sent a)
    → Comes sent a end n rs
    → (wait_rounds end rs h).x.waiter ≡ answered (sent a) h.x.waiter
unfolding Comes OnlyAnswer
wait_rounds-answer sent wp a end n [] h at t p pending soon le only is c = absurd c
wait_rounds-answer sent wp a end n (r ∷ rs) h at t p pending soon le only is
      (d, few, queued, rest) =
    let (count, q, x, now, erdp) =
      poll_events-Queued sent n d (n + d) r.ring (record h { ticks = r.now }) refl few at queued in
    let h' : Hc = (poll_events r.ring (record h { ticks = r.now })).1 in
    let go = ap (λ (s : Hc). s.x.waiter) (wait_rounds-go end r rs h pending soon) in
    elim rest [
      | inl here ↦
          let w =
            ap (λ (s : Xhci). s.waiter) x
            ∙ handle_sent-answer r.now sent wp n d a h.x t p only is le here in
          go ∙ ap (λ (s : Xhci). s.waiter) (wait_rounds-stop end rs h' (rw w refl)) ∙ w
      | inr (soon', behind, comes) ↦
          let w =
            ap (λ (s : Xhci). s.waiter) x
            ∙ handle_sent-quiet r.now sent wp n d a h.x t p only (inl behind) in
          go
          ∙ wait_rounds-answer sent wp a end (n + d) rs h' q (rw w t) (rw w p) (rw w pending)
              (rw now soon') behind (λ i le'. only i (omega arith)) is comes
          ∙ ap (answered (sent a)) w
    ]

-- The end of a wait whose loop has ended with the waiter `w`.
wait_done-waiter :
    (ms end : ℕ) (h : Hc) (w : Waiter)
    → u64 (h.ticks + ms / 10 + 2) ≡ end
    → (wait_rounds end h.rounds h).x.waiter ≡ w
    → let (code, h') = wait_done ms h in
      (code ≡ (if w.wdone then some w.wcc else none))
      × (h'.x.waiter ≡ record w { wt = 0; wdone = false })
unfolding wait_done
wait_done-waiter ms end h w e f = rw (e, f) (refl, refl)

-- A command that is answered in time gives the completion code of its answer, and the slot that the answer names
-- stands in wslotout; whatever other events come before, with and after the answer.
pub cmd_exec-answer :
    (param ctl : ℕ) (sent : ℕ → Event) (a n : ℕ) (h : Hc)
    → h.q ≡ cursor_at n
    → n ≤ a
    → h.ticks + 152 < 2 ^ 64
    → let h' = start_cmd param ctl h in
      OnlyAnswer sent h'.x.waiter.wp n a
      → IsAnswer h'.x.waiter.wp (sent a)
      → Comes sent a (h.ticks + 152) n h.rounds
      → let (code, h'') = cmd_exec param ctl h in
        (code ≡ some (event_code (sent a)))
        × (h''.x.waiter.wslotout ≡ event_slot (sent a))
        × (h''.x.waiter.wt ≡ 0)
unfolding cmd_exec start_cmd
cmd_exec-answer param ctl sent a n h at le room only is comes =
    let h' : Hc = start_cmd param ctl h in
    let w =
      wait_rounds-answer sent h'.x.waiter.wp a (h.ticks + 152) n h.rounds h' at refl refl refl
        (omega arith) le only is comes in
    let (code, left) = wait_done-waiter 1500 (h.ticks + 152) h' _ (omega arith) w in
    (code, ap (λ (v : Waiter). v.wslotout) left, ap (λ (v : Waiter). v.wt) left)

-- Every round finds the events up to some number, 513 new ones at most.
unfoldable pub Polled : (ℕ → Event) → ℕ → List Moment → Type 0
Polled sent n [] = Unit
Polled sent n (r ∷ rs) = (d : ℕ) × (d ≤ 513) × Queued sent n (n + d) r.ring × Polled sent (n + d) rs

-- A round that finds no answer.
quiet_round :
    (sent : ℕ → Event) (wp n d : ℕ) (r : Moment) (h : Hc) {x : Xhci}
    → h.x.waiter.wt ≡ 1
    → h.x.waiter.wp ≡ wp
    → ((i : ℕ) → n ≤ i → ¬ IsAnswer wp (sent i))
    → x ≡ handle_sent r.now sent n d h.x
    → x.waiter ≡ h.x.waiter
unfolding OnlyAnswer
quiet_round sent wp n d r h t p silent x =
    ap (λ (s : Xhci). s.waiter) x
    ∙ handle_sent-quiet r.now sent wp n d (n + d) h.x t p (λ i le ne. silent i le)
        (inl (omega arith))

-- A wait whose time is up goes round no more.
wait_rounds-late :
    (end : ℕ) (rs : List Moment) (h : Hc)
    → end ≤ h.ticks
    → ((wait_rounds end rs h).x ≡ h.x)
      × ((wait_rounds end rs h).ticks ≡ h.ticks)
      × ((wait_rounds end rs h).rounds ≡ rs)
unfolding wait_rounds
wait_rounds-late end [] h late = (refl, ground arith, refl)
wait_rounds-late end (r ∷ rs) h late = (ground arith, ground arith, ground arith)

-- These rounds come before the end.
unfoldable pub InTime : ℕ → List Moment → Type 0
InTime end [] = Unit
InTime end (r ∷ rs) = (r.now < end) × InTime end rs

wait_rounds-silent :
    (sent : ℕ → Event) (wp end n : ℕ) (before : List Moment) (last : Moment) (after : List Moment)
    (h : Hc)
    → h.q ≡ cursor_at n
    → h.x.waiter.wt ≡ 1
    → h.x.waiter.wp ≡ wp
    → h.x.waiter.wdone ≡ false
    → h.ticks < end
    → ((i : ℕ) → n ≤ i → ¬ IsAnswer wp (sent i))
    → Polled sent n (before ++ (last ∷ []))
    → InTime end before
    → end ≤ last.now
    → let h' = wait_rounds end (before ++ (last ∷ after)) h in
      (h'.x.waiter ≡ h.x.waiter) × (h'.ticks ≡ last.now) × (h'.rounds ≡ after)
unfolding Polled OnlyAnswer InTime
wait_rounds-silent sent wp end n [] last after h at t p pending soon silent (d, few, queued, rest)
      early late =
    let (count, q, x, now, erdp) =
      poll_events-Queued sent n d (n + d) last.ring (record h { ticks = last.now }) refl few at
        queued in
    let h' : Hc = (poll_events last.ring (record h { ticks = last.now })).1 in
    let w = quiet_round sent wp n d last h t p silent x in
    let (same_x, same_now, left) = wait_rounds-late end after h' (rw now late) in
    rw (wait_rounds-go end last after h pending soon)
      (ap (λ (s : Xhci). s.waiter) same_x ∙ w, same_now ∙ now, left)
wait_rounds-silent sent wp end n (r ∷ before) last after h at t p pending soon silent
      (d, few, queued, rest) (in_time, early) late =
    let (count, q, x, now, erdp) =
      poll_events-Queued sent n d (n + d) r.ring (record h { ticks = r.now }) refl few at queued in
    let h' : Hc = (poll_events r.ring (record h { ticks = r.now })).1 in
    let w = quiet_round sent wp n d r h t p silent x in
    let (same_w, time, left) =
      wait_rounds-silent sent wp end (n + d) before last after h' q (rw w t) (rw w p) (rw w pending)
        (rw now in_time) (λ i le. silent i (omega arith)) rest early late in
    rw (wait_rounds-go end r (before ++ (last ∷ after)) h pending soon) (same_w ∙ w, time, left)

wait_done-time :
    (ms : ℕ) (h : Hc)
    → let h' = wait_rounds (u64 (h.ticks + ms / 10 + 2)) h.rounds h in
      ((wait_done ms h).1.ticks ≡ h'.ticks) × ((wait_done ms h).1.rounds ≡ h'.rounds)
unfolding wait_done
wait_done-time ms h = (refl, refl)

-- When no event answers a command, whatever else comes, 513 new events at most in a round, the
-- wait goes on through every round that comes less than 152 ticks after its begin and ends with
-- the first that does not: the time is that round's, the later rounds are left, there is no
-- completion code, and nothing is waited for any longer.
pub cmd_exec-silent :
    (param ctl : ℕ) (sent : ℕ → Event) (n : ℕ) (before : List Moment) (last : Moment)
    (after : List Moment) (h : Hc)
    → h.q ≡ cursor_at n
    → h.ticks + 152 < 2 ^ 64
    → h.rounds ≡ before ++ (last ∷ after)
    → let h' = start_cmd param ctl h in
      ((i : ℕ) → n ≤ i → ¬ IsAnswer h'.x.waiter.wp (sent i))
      → Polled sent n (before ++ (last ∷ []))
      → InTime (h.ticks + 152) before
      → h.ticks + 152 ≤ last.now
      → let (code, h'') = cmd_exec param ctl h in
        (code ≡ none)
        × (h''.x.waiter.wt ≡ 0)
        × (h''.x.waiter.wdone ≡ false)
        × (h''.ticks ≡ last.now)
        × (h''.rounds ≡ after)
unfolding cmd_exec start_cmd
cmd_exec-silent param ctl sent n before last after h at room rounds silent polled early late =
    let h' : Hc = start_cmd param ctl h in
    let end : u64 (h.ticks + 1500 / 10 + 2) ≡ h.ticks + 152 = omega (arith, room) in
    let (w, now, left) =
      wait_rounds-silent sent h'.x.waiter.wp (h.ticks + 152) n before last after h' at refl refl
        refl (omega arith) silent polled early late in
    let ended = ap (λ rs. wait_rounds (h.ticks + 152) rs h') rounds in
    let (code, waiter) =
      wait_done-waiter 1500 (h.ticks + 152) h' _ end (ap (λ (s : Hc). s.x.waiter) ended ∙ w) in
    let (time, rest) = wait_done-time 1500 h' in
    let whole = ap (λ e. wait_rounds e h.rounds h') end ∙ ended in
    (
      code,
      ap (λ (v : Waiter). v.wt) waiter,
      ap (λ (v : Waiter). v.wdone) waiter,
      time ∙ ap (λ (s : Hc). s.ticks) whole ∙ now,
      rest ∙ ap (λ (s : Hc). s.rounds) whole ∙ left,
    )
