-- ===== src/Compare.antt =====
-- `ikrt_bnbncomp` of src/ikarus-numerics.c: the order of two bignums as a fixnum.
pub mod Laws
use ikarus.Base.{ℕ, zero, suc, ◌-◌, List, get_or, ltb, if◌then◌else◌}
use ikarus.Base.Int.{pos, negsuc}
use ikarus.Bignum.{Bignum, limb_count, nonnegative}
use ikarus.Word.{fix}

-- The loop from the top limb down; `less` and `more` are what the caller returns.
pub compare_limbs : ℕ → ℕ → ℕ → List ℕ → List ℕ → ℕ
compare_limbs less more zero xs ys = 0
compare_limbs less more (suc i) xs ys =
    let t1 = get_or xs i 0 in
    let t2 = get_or ys i 0 in
    let rest = compare_limbs less more i xs ys in
    if ltb t1 t2 then less else if ltb t2 t1 then more else rest

pub compare_magnitudes : ℕ → ℕ → Bignum → Bignum → ℕ
compare_magnitudes less more x y =
    let n1 = limb_count x in
    let n2 = limb_count y in
    if ltb n1 n2
    then less
    else if ltb n2 n1
    then more
    else compare_limbs less more n1 x.limbs y.limbs

pub ikrt_bnbncomp : Bignum → Bignum → ℕ
ikrt_bnbncomp x y =
    if nonnegative x
    then if nonnegative y
      then compare_magnitudes (fix (negsuc 0)) (fix (pos 1)) x y
      else fix (pos 1)
    else if nonnegative y
    then fix (negsuc 0)
    else compare_magnitudes (fix (pos 1)) (fix (negsuc 0)) x y
