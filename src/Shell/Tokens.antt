-- ===== src/Shell/Tokens.antt =====
-- `shell_run_line`: the line is cut into arguments. A string is the list of its characters; the NULs
-- that the code writes into its buffer end the arguments, which are lists here.
use sacabambaspos.Base.{
  ℕ, zero, suc, ◌+◌, ◌-◌, ◌≤◌, ◌<◌, ◌≡◌, ◌≢◌, refl, arith, Bool, true, false, Option, none, some,
  List, [], ◌∷◌, ◌++◌, length, take, ltb, ◌==◌, if◌then◌else◌, List-cases, Bool-cases, inl, inr, ap,
}

-- LINE_MAX
abbrev pub line_max : ℕ
line_max = 240

abbrev pub max_args : ℕ
max_args = 16

-- `while(*p==' ') p++;`
unfoldable pub skip_spaces : List ℕ → List ℕ
skip_spaces [] = []
skip_spaces (c ∷ p) = if c == b' ' then skip_spaces p else c ∷ p

-- `while(*p && *p!=q) p++;`, then `if(*p) *p++ = 0;`: the characters passed, and what follows `q`.
unfoldable pub until : ℕ → List ℕ → List ℕ × List ℕ
until q [] = ([], [])
until q (c ∷ p) = let (w, rest) = until q p in if c == q then ([], p) else (c ∷ w, rest)

pub record Args : Type 0 where
  pub argv : List (List ℕ)
  pub overflow : Bool

abbrev pub add_arg : List ℕ → Option Args → Option Args
add_arg w none = none
add_arg w (some a) = some (record a { argv = w ∷ a.argv })

-- The argument that begins with `c`, and what follows it.
unfoldable pub next_arg : ℕ → List ℕ → List ℕ × List ℕ
unfolding until
next_arg c rest = if c == b'"' then until b'"' rest else until b' ' (c ∷ rest)

-- The loop, with `argc` arguments found so far; `none` means that the rounds ran out.
unfoldable pub tokenize : ℕ → ℕ → List ℕ → Option Args
tokenize zero argc p = none
tokenize (suc rounds) argc p = elim (skip_spaces p) [
  | [] ↦ some (record { argv = []; overflow = false })
  | c ∷ rest ↦
      let (w, p') = next_arg c rest in
      let more = add_arg w (tokenize rounds (argc + 1) p') in
      if argc == max_args then some (record { argv = []; overflow = true }) else more
]

-- The copy into `buf` keeps 239 characters.
unfoldable pub shell_args : List ℕ → Option Args
unfolding tokenize skip_spaces next_arg
shell_args line = let n = take (line_max - 1) line in tokenize (length n + 1) 0 n

length-skip_spaces : (p : List ℕ) → length (skip_spaces p) ≤ length p
unfolding skip_spaces
length-skip_spaces [] = omega arith
length-skip_spaces (c ∷ p) = ground (arith, length-skip_spaces p)

length-until : (q : ℕ) (p : List ℕ) → length (until q p).1 ≤ length p
unfolding until
length-until q [] = omega arith
length-until q (c ∷ p) = ground (arith, length-until q p)

-- What follows the spaces begins with no space.
skip_spaces-ne : (p : List ℕ) (c : ℕ) (rest : List ℕ) → skip_spaces p ≡ c ∷ rest → c ≢ b' '
unfolding skip_spaces
skip_spaces-ne [] c rest e = cc
skip_spaces-ne (d ∷ p) c rest e = ground (arith, skip_spaces-ne p c rest)

until_other : (c : ℕ) (rest : List ℕ) → c ≢ b' ' → (until b' ' (c ∷ rest)).1 ≡ (until b' ' rest).1
unfolding until
until_other c rest h = ground arith

length-next_arg : (c : ℕ) (rest : List ℕ) → c ≢ b' ' → length (next_arg c rest).1 ≤ length rest
unfolding next_arg
length-next_arg c rest h = elim (Bool-cases (c == b'"')) [
  | inl quoted ↦ rw quoted (length-until b'"' rest)
  | inr plain ↦ rw (plain, until_other c rest h) (length-until b' ' rest)
]

add_arg-ne-none : (w : List ℕ) (o : Option Args) → o ≢ none → add_arg w o ≢ none
add_arg-ne-none w none h = h
add_arg-ne-none w (some a) h = λ e. cc

-- With more rounds than the line has characters the loop of the tokenizer returns.
pub tokenize-ne-none :
    (rounds argc : ℕ) (p : List ℕ) → length p < rounds → tokenize rounds argc p ≢ none
unfolding tokenize
tokenize-ne-none zero argc p h = absurd (omega arith)
tokenize-ne-none (suc rounds) argc p h = elim (List-cases (skip_spaces p)) [
  | inl e ↦ rw (e, tokenize) (λ q. cc)
  | inr (c, rest, e) ↦
      rw (e, tokenize)
        (elim (Bool-cases (argc == max_args)) [
          | inl full ↦ rw full (λ q. cc)
          | inr room ↦ rw room (
              add_arg-ne-none (next_arg c rest).0 (tokenize rounds (argc + 1) (next_arg c rest).1)
                (tokenize-ne-none rounds (argc + 1) (next_arg c rest).1 (shorter c rest e)))
        ])
]
  where
    shorter :
        (c : ℕ) (rest : List ℕ) → skip_spaces p ≡ c ∷ rest → length (next_arg c rest).1 < rounds
    shorter c rest e = omega (
      arith,
      ap length e,
      length-skip_spaces p,
      length-next_arg c rest (skip_spaces-ne p c rest e),
    )

-- A line of words in double quotes.
unfoldable pub quote_all : List (List ℕ) → List ℕ
quote_all [] = []
quote_all (w ∷ ws) = b'"' ∷ (w ++ (b'"' ∷ (b' ' ∷ quote_all ws)))

-- No character of the word is a double quote.
abbrev pub Unquoted : List ℕ → Type 0
Unquoted [] = Unit
Unquoted (c ∷ w) = (c ≢ b'"') × Unquoted w

abbrev pub AllUnquoted : List (List ℕ) → Type 0
AllUnquoted [] = Unit
AllUnquoted (w ∷ ws) = Unquoted w × AllUnquoted ws

until-quote : (w rest : List ℕ) → Unquoted w → until b'"' (w ++ (b'"' ∷ rest)) ≡ (w, rest)
unfolding until
until-quote [] rest h = refl
until-quote (c ∷ w) rest h = ground (arith, until-quote w rest h.1)

tokenize-space :
    (rounds argc : ℕ) (p : List ℕ) → tokenize rounds argc (b' ' ∷ p) ≡ tokenize rounds argc p
unfolding tokenize skip_spaces
tokenize-space zero argc p = refl
tokenize-space (suc rounds) argc p = refl

take_nil : (n : ℕ) → take {A = List ℕ} n [] ≡ []
take_nil zero = refl
take_nil (suc n) = refl

within : (n : ℕ) → n ≤ max_args → ltb max_args (n + 0) ≡ false
within n h = ground arith

none_left : (n : ℕ) → (n == max_args) ≡ true → max_args - n ≡ 0
none_left n h = ground arith

over : (n k : ℕ) → (n == max_args) ≡ true → ltb max_args (n + suc k) ≡ true
over n k h = ground arith

one_left :
    (n : ℕ) → n ≤ max_args → (n == max_args) ≡ false → max_args - n ≡ suc (max_args - (n + 1))
one_left n h k = ground arith

regroup : (n k : ℕ) → n + 1 + k ≡ n + suc k
regroup n k = omega arith

-- From a line of words in double quotes, none with such a quote inside, the tokenizer gets the words as
-- they are, spaces and empty words included: of more than 16, counting those it already had, the
-- first 16, and the overflow is noticed. The rounds are more than the words.
pub tokenize-quote_all :
    (rounds argc : ℕ) (ws : List (List ℕ))
    → AllUnquoted ws
    → length ws < rounds
    → argc ≤ max_args
    → tokenize rounds argc (quote_all ws)
      ≡ some
          (record { argv = take (max_args - argc) ws; overflow = ltb max_args (argc + length ws) })
unfolding tokenize quote_all skip_spaces next_arg
tokenize-quote_all zero argc ws h r a = absurd (omega arith)
tokenize-quote_all (suc rounds) argc [] h r a = rw (take_nil (max_args - argc), within argc a)
tokenize-quote_all (suc rounds) argc (w ∷ ws) h r a = elim (Bool-cases (argc == max_args)) [
  | inl full ↦ rw (full, none_left argc full, over argc (length ws) full)
  | inr room ↦
      rw
        (
          room,
          until-quote w (b' ' ∷ quote_all ws) h.0,
          tokenize-space rounds (argc + 1) (quote_all ws),
          tokenize-quote_all rounds (argc + 1) ws h.1 (omega arith) (ground arith),
        )
        (rw (one_left argc a room, regroup argc (length ws)))
]
