-- ===== src/Proc/Syscall/Effects.antt =====
-- What `SYS_WRITE` shows and how long `SYS_SLEEP` waits.
use sacabambaspos.Base.{
  ℕ, zero, suc, ◌+◌, ◌-◌, ◌*◌, ◌/◌, ◌^◌, ◌≤◌, ◌<◌, ◌≡◌, ◌≢◌, refl, arith, true, false, ◌&&◌, ◌⊎◌,
  length, List, [], ◌∷◌, ltb, leb, if◌then◌else◌, Bool-cases, inl, inr, min, u64,
}
use sacabambaspos.Console.{Console, con_putc, con_puts}
use sacabambaspos.Paging.{Vm, vm_user_ok}
use sacabambaspos.Proc.Syscall.{
  Sys, value, user_byte, is_text, write_loop, wait_loop, do_write, do_sleep, syscall_dispatch,
  sys_write, sys_sleep,
}

-- What a terminal shows: newline, tab, backspace and the characters from the space to the tilde.
abbrev pub IsShown : ℕ → Type 0
IsShown c = (c ≡ 10) ⊎ (c ≡ 9) ⊎ (c ≡ 8) ⊎ ((32 ≤ c) × (c ≤ 126))

-- What is left of the bytes when only what a terminal shows is kept.
pub data Shown : List ℕ → List ℕ → Type 0 where
  none_left : Shown [] []
  kept : {c : ℕ} {cs out : List ℕ} → IsShown c → Shown cs out → Shown (c ∷ cs) (c ∷ out)
  dropped : {c : ℕ} {cs out : List ℕ} → ¬ IsShown c → Shown cs out → Shown (c ∷ cs) out

-- The bytes stand one after the other from `a` on.
abbrev pub StandAt : Vm → ℕ → List ℕ → Type 0
StandAt vm a [] = Unit
StandAt vm a (c ∷ cs) = (user_byte vm a ≡ c) × StandAt vm (a + 1) cs

is_text-IsShown : (c : ℕ) → IsShown c → is_text c ≡ true
unfolding is_text
is_text-IsShown c h = ground (arith, h)

is_text-not-IsShown : (c : ℕ) → ¬ IsShown c → is_text c ≡ false
unfolding is_text
is_text-not-IsShown c h =
    let newline : c ≢ 10 = λ e. h (inl e) in
    let tab : c ≢ 9 = λ e. h (inr (inl e)) in
    let backspace : c ≢ 8 = λ e. h (inr (inr (inl e))) in
    let range : (32 ≤ c) × (c ≤ 126) → ⊥ = λ e. h (inr (inr (inr e))) in
    let apart : (c < 32) ⊎ (126 < c) = elim (Bool-cases (leb 32 c && leb c 126)) [
      | inl e ↦ absurd (range (ground (arith, e), ground (arith, e)))
      | inr e ↦ outside e
    ] in
    ground (arith, newline, tab, backspace, apart)
  where
    outside : leb 32 c && leb c 126 ≡ false → (c < 32) ⊎ (126 < c)
    outside e =
        let split : (c < 32) ⊎ (32 ≤ c) = omega arith in
        elim split [ inl low ↦ inl low | inr high ↦ inr (ground (arith, e, high)) ]

write_loop_lem :
    (a : ℕ) (vm : Vm) (s : Console) (cs out : List ℕ)
    → StandAt vm a cs
    → Shown cs out
    → write_loop (length cs) a vm s ≡ con_puts out s
unfolding write_loop con_puts
write_loop_lem a vm s [] [] h none_left = refl
write_loop_lem a vm s [] (_ ∷ out) h shown = elim shown [ ]
write_loop_lem a vm s (c ∷ cs) (_ ∷ out) (byte, h) (kept shows more) =
    rw (byte, is_text-IsShown c shows, write_loop)
      ((write_loop_lem (a + 1) vm (con_putc c s) cs out h more))
write_loop_lem a vm s (c ∷ cs) out (byte, h) (dropped hides more) =
    rw (byte, is_text-not-IsShown c hides, write_loop) ((write_loop_lem (a + 1) vm s cs out h more))

-- SYS_WRITE of the bytes that stand at an address, read through the page tables, prints, in order,
-- those of them that are 8, 9, 10 or from 32 to 126, and returns how many bytes there were, when
-- there are 65536 at most and vm_user_ok accepts the buffer; otherwise it returns -1 and changes
-- nothing.
pub syscall_dispatch-write :
    (a : ℕ) (s : Sys) (cs out : List ℕ)
    → StandAt s.vm a cs
    → Shown cs out
    → syscall_dispatch sys_write a (length cs) s ≡ (
        if leb (length cs) 65536 && vm_user_ok a (length cs) s.vm
        then (value (length cs), record s { console = con_puts out s.console })
        else (value (2 ^ 64 - 1), s))
unfolding syscall_dispatch do_write
syscall_dispatch-write a s cs out h shown = elim (Bool-cases (vm_user_ok a (length cs) s.vm)) [
  | inl ok ↦ rw (ok, write_loop_lem a s.vm s.console cs out h shown) (ground arith)
  | inr bad ↦ rw bad (ground arith)
]

wait_loop_lem :
    (n until t : ℕ) → until ≤ t + n → wait_loop n until t ≡ (if ltb t until then until else t)
unfolding wait_loop
wait_loop_lem zero until t h = ground arith
wait_loop_lem (suc n) until t h = ground (arith, wait_loop_lem n until (t + 1))

awake :
    (t a ms : ℕ)
    → t + 6000 < 2 ^ 64
    → ms ≡ min a 60000
    → (t * 10 + min a 60000
        ≤ wait_loop (u64 (t + (ms + 9) / 10) - t) (u64 (t + (ms + 9) / 10)) t * 10)
      × (wait_loop (u64 (t + (ms + 9) / 10) - t) (u64 (t + (ms + 9) / 10)) t * 10
          < t * 10 + min a 60000 + 10)
awake t a ms h e =
    let until = u64 (t + (ms + 9) / 10) in
    (
      ground (arith, wait_loop_lem (until - t) until t),
      ground (arith, wait_loop_lem (until - t) until t),
    )

-- `SYS_SLEEP` returns 0 when the milliseconds asked for, 60000 at most, are over, in ticks of 10 ms that it
-- has begun: less than a tick later at most.
pub syscall_dispatch-sleep :
    (a b : ℕ) (s : Sys)
    → s.ticks + 6000 < 2 ^ 64
    → ((syscall_dispatch sys_sleep a b s).0 ≡ value 0)
      × (s.ticks * 10 + min a 60000 ≤ (syscall_dispatch sys_sleep a b s).1.ticks * 10)
      × ((syscall_dispatch sys_sleep a b s).1.ticks * 10 < s.ticks * 10 + min a 60000 + 10)
unfolding syscall_dispatch do_sleep
syscall_dispatch-sleep a b s h =
    let (enough, soon) = awake s.ticks a (if ltb 60000 a then 60000 else a) h (ground arith) in
    (refl, enough, soon)
