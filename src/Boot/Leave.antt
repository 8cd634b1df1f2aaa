-- ===== src/Boot/Leave.antt =====
-- src/efi/boot.c, `exit_boot_services`: up to eight tries to take the memory map and leave the firmware, and
-- the sum of the memory that is the kernel's from then on. The firmware's answers to each try are a list.
use mathlib.Core.Path.{ap}
use native.Mathlib.Nat.{div-mul-le_self, lt-div-mul-add, div-le_self, zero-add}
use sacabambaspos.Base.{
  ℕ, zero, suc, ◌+◌, ◌*◌, ◌<◌, ◌≡◌, ◌≢◌, ◌≤◌, ◌∙◌, ◌/◌, ◌^◌, refl, sym, arith, Bool, true, false,
  not, ◌||◌, Option, none, some, List, [], ◌∷◌, ltb, leb, ◌==◌, if◌then◌else◌, u64, ◌⊎◌, inl, inr,
  length, ◌++◌,
}

pub record MemoryDescriptor : Type 0 where
  pub type : ℕ
  pub number_of_pages : ℕ

-- What the firmware answers in one try: the status of `GetMemoryMap`, the size of a descriptor and of the
-- map, the descriptor at an offset, and the status of `ExitBootServices`.
pub record Attempt : Type 0 where
  pub map_status : ℕ
  pub dsz : ℕ
  pub msz : ℕ
  pub descriptor : ℕ → MemoryDescriptor
  pub exit_status : ℕ

abbrev pub is_ram : ℕ → Bool
is_ram t = t == 1 || t == 2 || t == 3 || t == 4 || t == 7

-- The loop over the map from offset `o` on, in `n` rounds at most.
unfoldable pub ram_from : ℕ → Attempt → ℕ → ℕ → ℕ
ram_from zero a o ram = ram
ram_from (suc n) a o ram =
    let d = a.descriptor o in
    let rest =
      ram_from n a (o + a.dsz)
        (if is_ram d.type then u64 (ram + d.number_of_pages * 4096) else ram) in
    if leb (o + a.dsz) a.msz then rest else ram

unfoldable pub total_ram : Attempt → ℕ
total_ram a = ram_from a.msz a 0 0

-- The loop over the tries: the memory counted, when the firmware let go. `none` is EFI_LOAD_ERROR.
unfoldable pub try_exit : ℕ → List Attempt → Option ℕ
try_exit zero tries = none
try_exit (suc n) [] = none
try_exit (suc n) (a ∷ tries) =
    let again = try_exit n tries in
    if not (a.map_status == 0)
    then again
    else if a.dsz == 0
    then none
    else if a.exit_status == 0
    then some (total_ram a)
    else again

-- `dsz` is what the first call for the size reports, and `got` whether there was room for the map.
unfoldable pub exit_boot_services : ℕ → Bool → List Attempt → Option ℕ
exit_boot_services dsz got tries = if dsz == 0 || not got then none else try_exit 8 tries

-- What the kernel may use of `n` descriptors from offset `o` on, in bytes.
unfoldable pub ram_of : ℕ → Attempt → ℕ → ℕ
ram_of zero a o = 0
ram_of (suc n) a o =
    let d = a.descriptor o in
    (if is_ram d.type then d.number_of_pages * 4096 else 0) + ram_of n a (o + a.dsz)

ram_from_lem :
    (c n : ℕ) (a : Attempt) (o ram : ℕ)
    → o + c * a.dsz ≤ a.msz
    → a.msz < o + suc c * a.dsz
    → c ≤ n
    → ram < 2 ^ 64
    → ram_from n a o ram ≡ u64 (ram + ram_of c a o)
unfolding ram_from ram_of
ram_from_lem zero zero a o ram lo hi hn hr = omega arith
ram_from_lem zero (suc n) a o ram lo hi hn hr = rw (stop (grind (arith, hi))) (omega arith)
  where
    stop : a.msz < o + a.dsz → leb (o + a.dsz) a.msz ≡ false
    stop h = ground (arith, h)
ram_from_lem (suc c) zero a o ram lo hi hn hr = absurd (omega arith)
ram_from_lem (suc c) (suc n) a o ram lo hi hn hr = rw (goes_on (grind (arith, lo))) (
    ram_from_lem c n a (o + a.dsz) _ (grind (arith, lo)) (grind (arith, hi)) (omega (arith, hn))
      (below (is_ram ((a.descriptor o).type)))
    ∙ counted (is_ram ((a.descriptor o).type)))
  where
    goes_on : o + a.dsz ≤ a.msz → leb (o + a.dsz) a.msz ≡ true
    goes_on h = ground (arith, h)

    below :
        (b : Bool)
        → (if b then u64 (ram + (a.descriptor o).number_of_pages * 4096) else ram) < 2 ^ 64
    below true = omega arith
    below false = hr

    counted :
        (b : Bool)
        → u64 (
            (if b then u64 (ram + (a.descriptor o).number_of_pages * 4096) else ram)
            + ram_of c a (o + a.dsz))
          ≡ u64 (
              ram
              + ((if b then (a.descriptor o).number_of_pages * 4096 else 0)
                  + ram_of c a (o + a.dsz)))
    counted true = omega arith
    counted false = omega arith

total_ram_lem : (a : Attempt) → a.dsz ≢ 0 → total_ram a ≡ u64 (ram_of (a.msz / a.dsz) a 0)
unfolding total_ram
total_ram_lem a size =
    ram_from_lem (a.msz / a.dsz) a.msz a 0 0 (omega (arith, div-mul-le_self a.msz a.dsz))
      (grind (arith, lt-div-mul-add {a = a.msz} {b = a.dsz} (omega (arith, size))))
      (div-le_self a.msz a.dsz) (omega arith)
    ∙ ap u64 (zero-add _)

-- A try that goes on to the next: no map, or a map that is out of date at `ExitBootServices`.
abbrev pub Refused : Attempt → Type 0
Refused a = (a.map_status ≢ 0) ⊎ ((a.dsz ≢ 0) × (a.exit_status ≢ 0))

abbrev pub Accepted : Attempt → Type 0
Accepted a = (a.map_status ≡ 0) × (a.dsz ≢ 0) × (a.exit_status ≡ 0)

abbrev pub AllRefused : List Attempt → Type 0
AllRefused [] = Unit
AllRefused (a ∷ rest) = Refused a × AllRefused rest

is_zero : (n : ℕ) → n ≡ 0 → (n == 0) ≡ true
is_zero n h = ground (arith, h)

not_zero : (n : ℕ) → n ≢ 0 → (n == 0) ≡ false
not_zero n h = ground (arith, h)

try_exit-Refused :
    (n : ℕ) (b : Attempt) (rest : List Attempt)
    → Refused b
    → try_exit (suc n) (b ∷ rest) ≡ try_exit n rest
unfolding try_exit
try_exit-Refused n b rest (inl no_map) = rw (not_zero b.map_status no_map) refl
try_exit-Refused n b rest (inr (size, stale)) =
    rw (not_zero b.dsz size) (rw (not_zero b.exit_status stale) (either (b.map_status == 0)))
  where
    either : (c : Bool) → (if not c then try_exit n rest else try_exit n rest) ≡ try_exit n rest
    either true = refl
    either false = refl

try_exit-first :
    (n : ℕ) (before : List Attempt) (a : Attempt) (after : List Attempt)
    → AllRefused before
    → Accepted a
    → try_exit n (before ++ (a ∷ after))
      ≡ (if ltb (length before) n then some (total_ram a) else none)
unfolding try_exit
try_exit-first zero before a after r h = rw (none_left (length before)) refl
  where
    none_left : (m : ℕ) → ltb m 0 ≡ false
    none_left m = ground arith
try_exit-first (suc n) [] a after r (got_map, size, left) =
    rw (is_zero a.map_status got_map)
      (rw (not_zero a.dsz size) (rw (is_zero a.exit_status left) (rw (room n) refl)))
  where
    room : (m : ℕ) → ltb 0 (suc m) ≡ true
    room m = ground arith
try_exit-first (suc n) (b ∷ before) a after (refused, r) h =
    rw (shift (length before))
      (try_exit-Refused n b (before ++ (a ∷ after)) refused ∙ try_exit-first n before a after r h)
  where
    shift : (m : ℕ) → ltb (suc m) (suc n) ≡ ltb m n
    shift m = ground arith

-- When the size of a descriptor is reported and there is room for the map, and the firmware
-- refuses a number of tries, with no map or with a map that is out of date, and then lets go,
-- exit_boot_services succeeds exactly if fewer than eight were refused, and the memory it reports
-- is that of the map of the try that was accepted: the pages that its descriptors give the kernel,
-- modulo 2^64 bytes.
pub exit_boot_services-first :
    (dsz : ℕ) (before : List Attempt) (a : Attempt) (after : List Attempt)
    → dsz ≢ 0
    → AllRefused before
    → Accepted a
    → exit_boot_services dsz true (before ++ (a ∷ after))
      ≡ (if ltb (length before) 8 then some (u64 (ram_of (a.msz / a.dsz) a 0)) else none)
unfolding exit_boot_services
exit_boot_services-first dsz before a after size r h =
    rw (not_zero dsz size) (rw (sym (total_ram_lem a (h.1))) (try_exit-first 8 before a after r h))
