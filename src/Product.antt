-- ===== src/Product.antt =====
-- Products of src/ikarus-numerics.c that involve a bignum: `ikrt_fxbnmult` and `ikrt_bnbnmult`.
pub mod Laws
use ikarus.Base.{ℕ, ◌+◌, ◌-◌, ◌++◌, [], ◌∷◌, take, leb, ◌==◌, if◌then◌else◌}
use ikarus.Base.Int.{pos, eq_ℤ, is_pos, neg}
use ikarus.Bignum.{Bignum, Obj, word, Result, ok, limb_count, sign_bits, normalize_bignum}
use ikarus.Mpn.{Mpn}
use ikarus.Word.{to_word, unfix}

pub ikrt_fxbnmult : Mpn → ℕ → Bignum → Result Obj
ikrt_fxbnmult m x y =
    let n2 = unfix x in
    let n = limb_count y in
    let (r, hi) = m.mul_1 (take n y.limbs) (if is_pos n2 then to_word n2 else to_word (neg n2)) in
    if eq_ℤ n2 (pos 0)
    then ok (word 0)
    else normalize_bignum (n + 1) (if is_pos n2 then sign_bits y else 8 - sign_bits y)
        (r ++ hi ∷ [])

pub ikrt_bnbnmult : Mpn → Bignum → Bignum → Result Obj
ikrt_bnbnmult m x y =
    let n1 = limb_count x in
    let n2 = limb_count y in
    let bn =
      if leb n2 n1
      then m.mul (take n1 x.limbs) (take n2 y.limbs)
      else m.mul (take n2 y.limbs) (take n1 x.limbs) in
    let sign = if sign_bits x == 0 then sign_bits y else 8 - sign_bits y in
    normalize_bignum (n1 + n2) sign bn
