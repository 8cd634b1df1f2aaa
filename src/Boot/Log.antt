-- ===== src/Boot/Log.antt =====
-- src/efi/boot.c: the boot log that is kept for the overlay, and the search for
-- the ACPI table. A row is the
-- list of its cells, and the log the list of its rows up to the current one, newest first.
use sacabambaspos.Base.{
  ℕ, zero, suc, ◌-◌, ◌%◌, ◌≤◌, ◌<◌, ◌≡◌, refl, arith, Bool, true, false, not, ◌&&◌, List, [], ◌∷◌,
  ◌++◌, length, length-append, length-take, take, ltb, ◌==◌, if◌then◌else◌, bytes, ◌▷◌,
}

abbrev pub ol_cols : ℕ
ol_cols = 128

abbrev pub ol_rows : ℕ
ol_rows = 160

pub record OlCell : Type 0 where
  pub ch : ℕ
  pub attr : ℕ

-- The current row, the rows above it, newest first, and the colour.
pub record OlLog : Type 0 where
  pub row : List OlCell
  pub above : List (List OlCell)
  pub cur_attr : ℕ

unfoldable pub new_row : OlLog → OlLog
new_row l = record l { row = []; above = take (ol_rows - 1) (l.row ∷ l.above) }

unfoldable pub add_cell : ℕ → OlLog → OlLog
add_cell c l = record l { row = l.row ++ (record { ch = c; attr = l.cur_attr % 16 } ∷ []) }

unfoldable pub rec_putc : ℕ → OlLog → OlLog
unfolding new_row add_cell
rec_putc c l =
    if c == b'\r'
    then l
    else if not (c == b'\n') && ltb (length l.row) ol_cols
    then add_cell c l
    else if c == b'\n'
    then new_row l
    else add_cell c (new_row l)

-- What `puts16` records: other characters than ASCII show as question marks.
unfoldable pub rec_puts : List ℕ → OlLog → OlLog
unfolding rec_putc
rec_puts [] l = l
rec_puts (c ∷ cs) l = rec_puts cs (rec_putc (if ltb c 128 then c else b'?') l)

unfoldable pub con_attr : ℕ → OlLog → OlLog
con_attr a l = record l { cur_attr = a }

unfoldable pub log_tag : List ℕ → ℕ → OlLog → OlLog
unfolding con_attr rec_puts
log_tag tag color l =
    l
    ▷ con_attr 0x08
    ▷ rec_puts (bytes "  [")
    ▷ con_attr color
    ▷ rec_puts tag
    ▷ con_attr 0x08
    ▷ rec_puts (bytes "] ")
    ▷ con_attr 0x07

unfoldable pub log_ok : List ℕ → OlLog → OlLog
log_ok m l = l ▷ log_tag (bytes "  OK  ") 0x0A ▷ rec_puts m ▷ rec_puts (bytes "\r\n")

unfoldable pub log_fail : List ℕ → OlLog → OlLog
log_fail m l = l ▷ log_tag (bytes " FAIL ") 0x0C ▷ rec_puts m ▷ rec_puts (bytes "\r\n")

-- The log has room for every row.
pub record Fits (l : OlLog) : Type 0 where
  pub in_row : length l.row ≤ ol_cols
  pub in_log : length l.above < ol_rows

pub new_row-Fits : (l : OlLog) → Fits (new_row l)
unfolding new_row
new_row-Fits l = record { in_row = omega arith; in_log = ground (arith, length-take 158 l.above) }

pub add_cell-Fits : (c : ℕ) (l : OlLog) → Fits l → length l.row < ol_cols → Fits (add_cell c l)
unfolding add_cell
add_cell-Fits c l f room = record {
  in_row =
      ground (arith, length-append l.row (record { ch = c; attr = l.cur_attr % 16 } ∷ []), room);
  in_log = f.in_log;
}

if-Fits :
    (b : Bool) {x y : OlLog}
    → (b ≡ true → Fits x)
    → (b ≡ false → Fits y)
    → Fits (if b then x else y)
if-Fits true f g = f refl
if-Fits false f g = g refl

pub rec_putc-Fits : (c : ℕ) (l : OlLog) → Fits l → Fits (rec_putc c l)
unfolding rec_putc
rec_putc-Fits c l f =
    let below = new_row-Fits l in
    if-Fits (c == b'\r') (λ _. f)
      (λ _.
        if-Fits (not (c == b'\n') && ltb (length l.row) ol_cols)
          (λ e. add_cell-Fits c l f (ground (arith, e)))
          (λ _.
            if-Fits (c == b'\n') (λ _. below)
              (λ _. add_cell-Fits c (new_row l) below (omega arith))))

-- Whatever is recorded, there is a row for it.
pub rec_puts-Fits : (s : List ℕ) (l : OlLog) → Fits l → Fits (rec_puts s l)
unfolding rec_puts
rec_puts-Fits [] l f = f
rec_puts-Fits (c ∷ cs) l f = rec_puts-Fits cs _ (rec_putc-Fits (if ltb c 128 then c else b'?') l f)

-- A GUID is the list of its bytes.
unfoldable pub guid_eq : ℕ → List ℕ → List ℕ → Bool
guid_eq zero a b = true
guid_eq (suc n) (x ∷ a) (y ∷ b) = x == y && guid_eq n a b
guid_eq (suc n) a b = false

pub record ConfigTable : Type 0 where
  pub vendor_guid : List ℕ
  pub vendor_table : ℕ

abbrev pub acpi2 : List ℕ
acpi2 =
    0x71 ∷ 0xE8 ∷ 0x68 ∷ 0x88 ∷ 0xF1 ∷ 0xE4 ∷ 0xD3 ∷ 0x11 ∷ 0xBC ∷ 0x22 ∷ 0 ∷ 0x80 ∷ 0xC7 ∷ 0x3C
    ∷ 0x88 ∷ 0x81 ∷ []

abbrev pub acpi1 : List ℕ
acpi1 =
    0x30 ∷ 0x2D ∷ 0x9D ∷ 0xEB ∷ 0x88 ∷ 0x2D ∷ 0xD3 ∷ 0x11 ∷ 0x9A ∷ 0x16 ∷ 0 ∷ 0x90 ∷ 0x27 ∷ 0x3F
    ∷ 0xC1 ∷ 0x4D ∷ []

-- The loop of `find_rsdp`, with `v1` so far.
unfoldable pub rsdp_from : ℕ → List ConfigTable → ℕ
unfolding guid_eq
rsdp_from v1 [] = v1
rsdp_from v1 (t ∷ ts) =
    let older = rsdp_from t.vendor_table ts in
    let kept = rsdp_from v1 ts in
    if guid_eq 16 t.vendor_guid acpi2
    then t.vendor_table
    else if guid_eq 16 t.vendor_guid acpi1
    then older
    else kept

unfoldable pub find_rsdp : List ConfigTable → ℕ
unfolding rsdp_from
find_rsdp = rsdp_from 0
