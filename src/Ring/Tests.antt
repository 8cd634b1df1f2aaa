-- ===== src/Ring/Tests.antt =====
-- A ring of four slots that has wrapped.
use sacabambaspos.Base.{◌≡◌, refl, arith, [], ◌∷◌, some}
use sacabambaspos.Ring.{Ring, pop}
use sacabambaspos.Ring.Refine.{IsValid}

-- It holds 30 and 10.
abbrev wrapped : Ring
wrapped = record { slots = 10 ∷ 0 ∷ 20 ∷ 30 ∷ []; rd = 3; wr = 1 }

wrapped-IsValid : IsValid 4 wrapped
wrapped-IsValid = record {
  storage = refl;
  rd_in = omega arith;
  wr_in = omega arith;
  small = omega arith;
}

oldest : (pop 4 wrapped).0 ≡ some 30
unfolding pop
oldest = refl
