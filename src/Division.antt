-- ===== src/Division.antt =====
-- Quotients and remainders of src/ikarus-numerics.c: `ikrt_bnbndivrem`, `ikrt_bnfxdivrem` and
-- `ikrt_bnfx_modulo`. The callers have checked that the divisor is not zero.
pub mod Laws
pub mod Modulo
use ikarus.Base.{ℕ, ◌+◌, ◌-◌, ◌*◌, ◌%◌, take, ltb, ◌==◌, if◌then◌else◌}
use ikarus.Base.Int.{pos, neg_ℕ, is_neg, magnitude, ◌+ℤ◌, ◌-ℤ◌}
use ikarus.Bignum.{
  Bignum, Obj, word, bignum, Result, ok, ◌>>=◌, limb_count, sign_bits, nonnegative,
  normalize_bignum,
}
use ikarus.Mpn.{Mpn}
use ikarus.Word.{fix, unfix, word_mod}

-- The pair of the quotient and the remainder.
pub ikrt_bnbndivrem : Mpn → Bignum → Bignum → Result (Obj × Obj)
ikrt_bnbndivrem m x y =
    let xn = limb_count x in
    let yn = limb_count y in
    let qn = xn - yn + 1 in
    let (q_limbs, r_limbs) = m.tdiv_qr (take xn x.limbs) (take yn y.limbs) in
    if ltb xn yn then ok (word 0, bignum x) else do
      r ← normalize_bignum yn (if nonnegative x then 0 else 8) r_limbs
      q ← normalize_bignum qn (if nonnegative y then sign_bits x else 8 - sign_bits x) q_limbs
      ok (q, r)

pub ikrt_bnfxdivrem : Mpn → Bignum → ℕ → Result (Obj × Obj)
ikrt_bnfxdivrem m x y =
    let yint = unfix y in
    let s2n = limb_count x in
    let (quot_limbs, rv) = m.divrem_1 (take s2n x.limbs) (magnitude yint) in
    let rem = if nonnegative x then fix (pos rv) else (word_mod - rv * 8 % word_mod) % word_mod in
    do
      quot ← normalize_bignum s2n (if is_neg yint then 8 - sign_bits x else sign_bits x) quot_limbs
      ok (quot, word rem)

pub ikrt_bnfx_modulo : Mpn → Bignum → ℕ → ℕ
ikrt_bnfx_modulo m x y =
    let yint = unfix y in
    let r = m.mod_1 (take (limb_count x) x.limbs) (magnitude yint) in
    if is_neg yint
    then if nonnegative x then fix (yint +ℤ pos r) else fix (neg_ℕ r)
    else if nonnegative x
    then fix (pos r)
    else fix (yint -ℤ pos r)
