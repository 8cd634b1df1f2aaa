-- ===== src/Shell/Line.antt =====
-- src/kernel/shell.c: the buffer of `read_line` and what each key does to it. `b` is the array, by index.
pub mod Refine
use sacabambaspos.Base.{
  ℕ, zero, suc, ◌+◌, ◌-◌, Bool, true, false, List, [], ◌∷◌, length, ltb, leb, ◌==◌, if◌then◌else◌,
}
use sacabambaspos.Libk.{Mem, store, memmove}

pub record Line : Type 0 where
  pub b : Mem
  pub len : ℕ
  pub cur : ℕ

-- The line as a string.
unfoldable pub text : ℕ → Mem → List ℕ
text zero b = []
text (suc n) b = b 0 ∷ text n (λ i. b (i + 1))

abbrev pub chars_of : Line → List ℕ
chars_of l = text l.len l.b

unfoldable pub backspace : Line → Line
backspace l = if l.cur == 0 then l else record {
  b = memmove (l.cur - 1) l.cur (l.len - l.cur) l.b;
  len = l.len - 1;
  cur = l.cur - 1;
}

unfoldable pub delete : Line → Line
delete l =
    if leb l.len l.cur
    then l
    else record l { b = memmove l.cur (l.cur + 1) (l.len - l.cur - 1) l.b; len = l.len - 1 }

unfoldable pub left : Line → Line
left l = if l.cur == 0 then l else record l { cur = l.cur - 1 }

unfoldable pub right : Line → Line
right l = if ltb l.cur l.len then record l { cur = l.cur + 1 } else l

unfoldable pub insert : ℕ → Line → Line
insert c l = record {
  b = store (memmove (l.cur + 1) l.cur (l.len - l.cur) l.b) l.cur c;
  len = l.len + 1;
  cur = l.cur + 1;
}

-- `memcpy(b, hist[want], len)`
unfoldable pub fill : ℕ → List ℕ → Mem → Mem
fill a [] m = m
fill a (c ∷ cs) m = fill (a + 1) cs (store m a c)

unfoldable pub recall : List ℕ → Line → Line
recall h l = record { b = fill 0 h l.b; len = length h; cur = length h }
