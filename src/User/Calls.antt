-- ===== src/User/Calls.antt =====
-- src/user/sbos.h: what a program asks of the kernel, as a list of calls, and the random numbers.
use sacabambaspos.Base.{ℕ, ◌*◌, ◌/◌, ◌^◌, List, ◌==◌, if◌then◌else◌, bit_xor, u64}
use sacabambaspos.Console.Numbers.{u64_chars}

-- The calls that give no result.
pub data Call : Type 0 where
  writen : List ℕ → Call
  sleep : ℕ → Call
  color : (fg bg : ℕ) → Call
  setxy : (x y : ℕ) → Call
  clear : Call
  cursor : ℕ → Call

-- `print` and `printu`; the buffer of `printu` has room for the 20 digits of a 64-bit number.
unfoldable pub print : List ℕ → Call
print s = writen s

unfoldable pub printu : ℕ → Call
printu v = writen (u64_chars v)

-- The new seed, which is also the number.
unfoldable pub rnd_next : ℕ → ℕ
rnd_next s =
    let x : ℕ = if s == 0 then 88172645463325252 else s in
    let y = bit_xor x (u64 (x * 2 ^ 13)) in
    let z = bit_xor y (y / 2 ^ 7) in bit_xor z (u64 (z * 2 ^ 17))
