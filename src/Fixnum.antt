-- ===== src/Fixnum.antt =====
-- Fixnum arithmetic of src/ikarus-numerics.c: `ikrt_fxfxplus`, `ikrt_fxfxminus` and
-- `ikrt_fxfxmult`, which make a bignum where the result fits no fixnum.
pub mod Laws
use ikarus.Base.{
  ℕ, ◌-◌, ◌*◌, ◌%◌, Bool, true, false, not, List, [], ◌∷◌, ltb, leb, ◌==◌, if◌then◌else◌,
}
use ikarus.Base.Int.{ℤ, pos, neg, neg_ℕ, eq_ℤ, is_neg, is_pos, magnitude, ◌+ℤ◌, ◌-ℤ◌}
use ikarus.Bignum.{Obj, word, Result, ok, header, verify_bignum}
use ikarus.Mpn.{Mpn}
use ikarus.Word.{to_word, fix, unfix, most_positive_fixnum, most_negative_fixnum}

-- What is made of the long `r`.
pub fxfxplus_result : ℤ → Result Obj
fxfxplus_result r =
    let q = fix r in
    if eq_ℤ r (unfix q)
    then ok (word q)
    else if is_pos r
    then verify_bignum (record { fst = header 0 1; limbs = to_word r ∷ [] })
    else verify_bignum (record { fst = header 8 1; limbs = to_word (neg r) ∷ [] })

pub ikrt_fxfxplus : ℕ → ℕ → Result Obj
unfolding fxfxplus_result
ikrt_fxfxplus x y = fxfxplus_result (unfix x +ℤ unfix y)

pub fxfxminus_result : ℤ → Result Obj
fxfxminus_result r =
    if not (is_neg r)
    then if leb (to_word r) most_positive_fixnum
      then ok (word (fix r))
      else verify_bignum (record { fst = header 0 1; limbs = to_word r ∷ [] })
    else let fxr = fix r in
      if eq_ℤ (unfix fxr) r
      then ok (word fxr)
      else verify_bignum (record { fst = header 8 1; limbs = to_word (neg r) ∷ [] })

pub ikrt_fxfxminus : ℕ → ℕ → Result Obj
unfolding fxfxminus_result
ikrt_fxfxminus x y = fxfxminus_result (unfix x -ℤ unfix y)

-- `sign` after the two tests n1 < 0 and n2 < 0, each of which makes it `1 - sign`.
abbrev pub product_sign : ℤ → ℤ → ℕ
product_sign n1 n2 = let sign = if is_neg n1 then 1 else 0 in if is_neg n2 then 1 - sign else sign

-- `hi` and `lo` are the two limbs of the product of the magnitudes.
pub fxfxmult_result : ℕ → ℕ → ℕ → Result Obj
fxfxmult_result sign hi lo =
    if hi == 0
    then if (if sign == 0 then leb lo most_positive_fixnum else leb lo most_negative_fixnum)
      then ok (word (fix (if sign == 0 then pos lo else neg_ℕ lo)))
      else verify_bignum (record { fst = header (sign * 8) 1; limbs = lo ∷ [] })
    else verify_bignum (record { fst = header (sign * 8) 2; limbs = lo ∷ hi ∷ [] })

first_limb : List ℕ → ℕ
first_limb [] = 0
first_limb (x ∷ xs) = x

pub ikrt_fxfxmult : Mpn → ℕ → ℕ → Result Obj
unfolding first_limb fxfxmult_result
ikrt_fxfxmult m x y =
    let n1 = unfix x in
    let n2 = unfix y in
    let (lo, hi) = m.mul_1 (magnitude n1 ∷ []) (magnitude n2) in
    fxfxmult_result (product_sign n1 n2) hi (first_limb lo)
