-- ===== src/Shell/Render.antt =====
-- src/kernel/shell.c: the prompt, and the colouring of the line that is edited.
use mathlib.Core.Path.{subst}
use sacabambaspos.Base.{
  ℕ, zero, suc, ◌≤◌, ◌≡◌, refl, sym, ap, arith, Bool, true, false, not, ◌&&◌, ◌||◌, Option, none,
  some, List, [], ◌∷◌, ◌++◌, length, replicate, length-append, leb, ◌==◌, if◌then◌else◌, Bool-cases,
  inl, inr, ◌▷◌,
}
use sacabambaspos.Libk.{Mem}
use sacabambaspos.Console.{Console, con_fg, con_setxy, con_putc, con_puts}
use sacabambaspos.Console.Log.{put, c_lgrey, c_lgreen, c_lcyan, c_lred, c_pink, c_yellow, c_white}
use sacabambaspos.Proc.Pak.{Pak, proc_has}
use sacabambaspos.Shell.Builtins.{Cmd, find_cmd, put_spaces}

unfoldable pub put_prompt : Console → Console
put_prompt s = s ▷ con_fg c_lcyan ▷ put "sbos " ▷ con_fg c_yellow ▷ put "><> " ▷ con_fg c_lgrey

unfoldable pub all_digits : List ℕ → Bool
all_digits [] = true
all_digits (c ∷ cs) = leb b'0' c && leb c b'9' && all_digits cs

unfoldable pub is_digit_tok : List ℕ → Bool
unfolding all_digits
is_digit_tok cs = not (length cs == 0) && all_digits cs

-- `while(j<len && b[j]!='"') j++; if(j<len) j++;`
unfoldable pub to_quote : List ℕ → List ℕ × List ℕ
to_quote [] = ([], [])
to_quote (c ∷ p) = let (w, rest) = to_quote p in if c == b'"' then (c ∷ [], p) else (c ∷ w, rest)

-- `while(j<len && b[j]!=' ') j++;`
unfoldable pub to_space : List ℕ → List ℕ × List ℕ
to_space [] = ([], [])
to_space (c ∷ p) = let (w, rest) = to_space p in if c == b' ' then ([], c ∷ p) else (c ∷ w, rest)

-- The rest of the token that begins with `c`, and what follows the token.
unfoldable pub token : ℕ → List ℕ → List ℕ × List ℕ
token c p = if c == b'"' then to_quote p else to_space p

abbrev pub found : Option Cmd → Bool
found none = false
found (some c) = true

unfoldable pub token_color : Option Pak → Mem → Bool → ℕ → List ℕ → ℕ
token_color pak m first_done c w =
    let t = c ∷ w in
    if not first_done
    then (if found (find_cmd t (length t)) || proc_has pak t (length t) m then c_lgreen else c_lred)
    else if c == b'"'
    then c_yellow
    else if c == b'-'
    then c_pink
    else if is_digit_tok t
    then c_lcyan
    else c_white

-- The outer loop, over what is left of the line. A round takes one character or more.
unfoldable pub render_tokens : ℕ → Option Pak → Mem → Bool → List ℕ → Console → Console
render_tokens zero pak m first_done p s = s
render_tokens (suc n) pak m first_done [] s = s
render_tokens (suc n) pak m first_done (c ∷ p) s =
    let next = render_tokens n pak m in
    let (w, rest) = token c p in
    if c == b' '
    then s ▷ con_fg c_lgrey ▷ con_putc b' ' ▷ next first_done p
    else s ▷ con_fg (token_color pak m first_done c w) ▷ con_puts (c ∷ w) ▷ next true rest

unfoldable pub render_line : Option Pak → Mem → ℕ → ℕ → List ℕ → ℕ → Console → Console
render_line pak m px py b pad s =
    s ▷ con_setxy px py ▷ render_tokens (length b) pak m false b ▷ con_fg c_lgrey ▷ put_spaces pad

-- `s'` comes from `s` by printing the characters, in whatever colours.
pub data Prints : List ℕ → Console → Console → Type 0 where
  done : {s : Console} → Prints [] s s
  colored : {cs : List ℕ} {s s' : Console} (fg : ℕ) → Prints cs (con_fg fg s) s' → Prints cs s s'
  printed :
      {c : ℕ} {cs : List ℕ} {s s' : Console} → Prints cs (con_putc c s) s' → Prints (c ∷ cs) s s'

pub con_puts-Prints :
    (w : List ℕ) {cs : List ℕ} {s s' : Console}
    → Prints cs (con_puts w s) s'
    → Prints (w ++ cs) s s'
unfolding con_puts
con_puts-Prints [] h = h
con_puts-Prints (c ∷ w) h = printed (con_puts-Prints w h)

pub Prints-append :
    {cs ds : List ℕ} {s t u : Console} → Prints cs s t → Prints ds t u → Prints (cs ++ ds) s u
Prints-append done k = k
Prints-append (colored fg h) k = colored fg (Prints-append h k)
Prints-append (printed h) k = printed (Prints-append h k)

to_quote-append : (p : List ℕ) → (to_quote p).0 ++ (to_quote p).1 ≡ p
unfolding to_quote
to_quote-append [] = refl
to_quote-append (c ∷ p) = elim (Bool-cases (c == b'"')) [
  | inl found_one ↦ rw found_one refl
  | inr other ↦ rw other (ap (λ t. c ∷ t) (to_quote-append p))
]

to_space-append : (p : List ℕ) → (to_space p).0 ++ (to_space p).1 ≡ p
unfolding to_space
to_space-append [] = refl
to_space-append (c ∷ p) = elim (Bool-cases (c == b' ')) [
  | inl found_one ↦ rw found_one refl
  | inr other ↦ rw other (ap (λ t. c ∷ t) (to_space-append p))
]

token-append : (c : ℕ) (p : List ℕ) → (token c p).0 ++ (token c p).1 ≡ p
unfolding token
token-append c p = elim (Bool-cases (c == b'"')) [
  | inl quoted ↦ rw quoted (to_quote-append p)
  | inr word ↦ rw word (to_space-append p)
]

-- Whatever the colours, the line is printed as it is.
pub render_tokens-Prints :
    (n : ℕ) (pak : Option Pak) (m : Mem) (first_done : Bool) (p : List ℕ) (s : Console)
    → length p ≤ n
    → Prints p s (render_tokens n pak m first_done p s)
unfolding render_tokens
render_tokens-Prints zero pak m f [] s h = done
render_tokens-Prints zero pak m f (c ∷ p) s h = absurd (omega arith)
render_tokens-Prints (suc n) pak m f [] s h = done
render_tokens-Prints (suc n) pak m f (c ∷ p) s h = elim (Bool-cases (c == b' ')) [
  | inl space ↦
      rw (space, render_tokens)
        (subst
          (λ d. Prints (d ∷ p) s (render_tokens n pak m f p (con_putc b' ' (con_fg c_lgrey s))))
          (sym (is_space space))
          (colored c_lgrey (printed (render_tokens-Prints n pak m f p _ (omega arith)))))
  | inr word ↦
      rw (word, render_tokens)
        (subst
          (λ t. Prints (c ∷ t) s (
            render_tokens n pak m true (token c p).1
              (con_puts (c ∷ (token c p).0) (con_fg (token_color pak m f c (token c p).0) s))))
          (token-append c p)
          (colored (token_color pak m f c (token c p).0) (
            con_puts-Prints (c ∷ (token c p).0)
              (render_tokens-Prints n pak m true (token c p).1 _ shorter))))
]
  where
    is_space : c == b' ' ≡ true → c ≡ b' '
    is_space e = ground arith

    shorter : length (token c p).1 ≤ n
    shorter =
        omega (arith, h, ap length (token-append c p), length-append (token c p).0 (token c p).1)

pub put_spaces-Prints : (n : ℕ) (s : Console) → Prints (replicate n b' ') s (put_spaces n s)
unfolding put_spaces
put_spaces-Prints zero s = done
put_spaces-Prints (suc n) s = printed (put_spaces-Prints n (con_putc b' ' s))
