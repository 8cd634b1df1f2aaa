-- ===== src/Base/Text.antt =====
-- String literals of the source, and calls in a row.
use Prim.Native.Nat.{ℕ}
use Prim.Native.Char.{code}
use Prim.Native.String.{String}
use mathlib.Core.List.{List, [], ◌∷◌}

-- The bytes of an ASCII literal.
abbrev pub bytes : String → List ℕ
bytes String.[] = []
bytes (String.◌∷◌ c s) = code c ∷ bytes s

-- `x ▷ f ▷ g` is `f(x); g(x);` for calls that change `x`.
infixl 2 ◌▷◌
abbrev pub ◌▷◌ {ℓ} : {A : Type ℓ} {B : Type ℓ} → A → (A → B) → B
x ▷ f = f x
