-- ===== src/Initrc/Tests.antt =====
-- Two lines of a boot script.
use sacabambaspos.Base.{ℕ, ◌≡◌, refl, arith, true, List, [], ◌∷◌}
use sacabambaspos.Shell.Tokens.{skip_spaces}
use sacabambaspos.Initrc.{run_initrc, script_lines, emit, script, script_lines-script}

abbrev two_lines : List (List ℕ)
two_lines = (b'v' ∷ b'e' ∷ b'r' ∷ []) ∷ (b'l' ∷ b's' ∷ []) ∷ []

-- Leading spaces go and a comment is left out.
comment : run_initrc 0x9000 (b' ' ∷ b'v' ∷ b'\n' ∷ b'#' ∷ b'x' ∷ []) ≡ (b'v' ∷ []) ∷ []
unfolding run_initrc script_lines emit skip_spaces
comment = refl

script_lines-script_example : script_lines (script true two_lines) [] ≡ two_lines
script_lines-script_example = script_lines-script true two_lines (
  (
    omega arith,
    omega arith,
    ((
      omega arith,
      omega arith,
      omega arith,
      (omega arith, omega arith, omega arith, (omega arith, omega arith, omega arith, tt)),
    )),
    omega arith,
  ),
  (
    (
      omega arith,
      omega arith,
      ((omega arith, omega arith, omega arith, (omega arith, omega arith, omega arith, tt))),
      omega arith,
    ),
    tt,
  ),
)
