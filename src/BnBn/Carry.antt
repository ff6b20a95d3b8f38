-- ===== src/BnBn/Carry.antt =====
-- The carry of `ikrt_bnbnplus` where x has fewer limbs than y: the code stores it below the top limb
-- of the sum, which stays as the memory held it.
use ikarus.Base.{
  ℕ, zero, suc, ◌+◌, ◌-◌, ◌*◌, ◌/◌, ◌<◌, ◌≤◌, ◌≡◌, ◌≢◌, refl, sym, ap, ◌∙◌, arith, List, [], ◌∷◌,
  ◌++◌, length, length-set, set, get_or, get_or-set_ne, get_or-append_last, ltb, ◌==◌, false, true,
  take_all, inl, inr,
}
use ikarus.Base.Int.{ℤ, ◌+ℤ◌, magnitude}
use ikarus.Bignum.Normalize.{IsSign}
use ikarus.Bignum.Valid.{IsBignum, IsBignum-length_pos}
use ikarus.Bignum.{
  Bignum, Obj, bignum, Result, ok, limb_count, sign_bits, with_sign, header, to_int, verify_bignum,
}
use ikarus.BnBn.Add.{carry_one}
use ikarus.BnBn.Order.{sign_bits-IsSign, same_sum}
use ikarus.BnBn.{ikrt_bnbnplus, add_magnitudes}
use ikarus.Limbs.{value, value-append, value-lt, IsLimbs, weight}
use ikarus.Mpn.{Mpn, IsMpn}
use ikarus.Word.{word_mod}

set-append_front {ℓ} :
    {A : Type ℓ} (xs ys : List A) (i : ℕ) (v : A)
    → i < length xs
    → set (xs ++ ys) i v ≡ set xs i v ++ ys
set-append_front [] ys i v lt = absurd (omega arith)
set-append_front (x ∷ xs) ys zero v lt = refl
set-append_front (x ∷ xs) ys (suc i) v lt = ap (◌∷◌ x) (set-append_front xs ys i v (omega arith))

IsLimbs-set : (xs : List ℕ) (i v : ℕ) → v < word_mod → IsLimbs xs → IsLimbs (set xs i v)
IsLimbs-set [] i v lt h = tt
IsLimbs-set (x ∷ xs) zero v lt h = (lt, h.1)
IsLimbs-set (x ∷ xs) (suc i) v lt h = (h.0, IsLimbs-set xs i v lt h.1)

-- The call returns an object, and its number is not v.
pub record ReturnsOther (r : Result Obj) (v : ℤ) : Type 0 where
  pub out : Obj
  pub returns : r ≡ ok out
  pub differs : to_int out ≢ v

passes :
    (b : Bignum)
    → 1 < limb_count b
    → 0 < get_or b.limbs (limb_count b - 1) 0
    → verify_bignum b ≡ ok (bignum b)
unfolding verify_bignum
passes b long top = ground arith

magnitude-with_sign : (s a : ℕ) → IsSign s → magnitude (with_sign s a) ≡ a
magnitude-with_sign s a (inl e) = rw e refl
magnitude-with_sign s zero (inr e) = rw e refl
magnitude-with_sign s (suc a) (inr e) = rw e refl

-- Numbers that agree have the same top limb.
same_top : (w a b top : ℕ) → a < w → b < w → a + w * top ≡ b + w → top ≡ 1
same_top w a b zero ha hb e = absurd (omega arith)
same_top w a b (suc zero) ha hb e = refl
same_top w a b (suc (suc top)) ha hb e = absurd (omega arith)

module _ (sign place junk : ℕ) (r : List ℕ) (hs : IsSign sign) (limbs : IsLimbs r)
    (low : place < length r) (some : 0 < junk) (wrong : junk ≢ 1) where
  stored : List ℕ
  stored = set (r ++ junk ∷ []) place 1

  value-stored : value stored ≡ value r + weight (length r) → junk ≡ 1
  unfolding stored
  value-stored e =
      let front : stored ≡ set r place 1 ++ junk ∷ [] =
        set-append_front r (junk ∷ []) place 1 low in
      let limbs' = IsLimbs-set r place 1 (omega arith) limbs in
      let len = length-set r place 1 in
      let below = value-lt (set r place 1) limbs' in
      same_top (weight (length r)) (value (set r place 1)) (value r) junk (rw len at below)
        (value-lt r limbs)
        (omega (arith, e, ap value front, rw len at (value-append (set r place 1) (junk ∷ []))))

  stored-ReturnsOther :
      ReturnsOther
        (verify_bignum (record { fst = header sign (length r + 1); limbs = stored }))
        (with_sign sign (value r + weight (length r)))
  unfolding stored
  stored-ReturnsOther =
      let b : Bignum = record { fst = header sign (length r + 1); limbs = stored } in
      let count : header sign (length r + 1) / 16 ≡ length r + 1 = elim hs [
        | inl e ↦ omega (arith, e)
        | inr e ↦ omega (arith, e)
      ] in
      let index : length r + 1 - 1 ≡ length r = omega arith in
      let top : get_or stored (length r) 0 ≡ junk =
        get_or-set_ne (r ++ junk ∷ []) place (length r) 1 0 low ∙ get_or-append_last r junk 0 in
      record {
        out = bignum b;
        returns = passes b (omega (arith, count, low)) (rw (count, index, top) some);
        differs = λ e. wrong (
            value-stored (
              sym (magnitude-with_sign (sign_bits b) (value stored) (sign_bits-IsSign b))
              ∙ ap magnitude e
              ∙ magnitude-with_sign sign (value r + weight (length r)) hs));
      }

module _ (m : Mpn) (laws : IsMpn m) where
  -- For two bignums of the same sign, the first with fewer limbs, whose sum has a carry, let the limb
  -- of the fresh memory above the sum hold neither 0 nor 1. Then `ikrt_bnbnplus` returns an object,
  -- which `verify_bignum` lets pass, and its number is not the sum.
  pub ikrt_bnbnplus-ReturnsOther :
      (junk : ℕ) (x y : Bignum)
      → IsBignum x
      → IsBignum y
      → sign_bits x ≡ sign_bits y
      → length x.limbs < length y.limbs
      → weight (length y.limbs) ≤ value x.limbs + value y.limbs
      → 0 < junk
      → junk ≢ 1
      → ReturnsOther (ikrt_bnbnplus m junk x y) (to_int (bignum x) +ℤ to_int (bignum y))
  unfolding ikrt_bnbnplus add_magnitudes stored
  ikrt_bnbnplus-ReturnsOther junk x y hx hy same shorter carries some wrong =
      let s = sign_bits y in
      let n = length y.limbs in
      let r = m.add y.limbs x.limbs in
      let e : (s == s) ≡ true = ground arith in
      let f : ltb n (length x.limbs) ≡ false = ground arith in
      let sum =
        laws.add_lem y.limbs x.limbs hy.in_words hx.in_words (omega arith)
          (IsBignum-length_pos x hx) in
      let one = carry_one n (value y.limbs + value x.limbs) r sum (omega arith) in
      let total : value x.limbs + value y.limbs ≡ value r.0 + weight (length r.0) =
        omega (arith, sum.sum, ap weight sum.size, ap (λ c. weight n * c) one) in
      rw
        (
          hx.counted,
          hy.counted,
          same,
          e,
          f,
          ← same_sum s (value x.limbs) (value y.limbs) (sign_bits-IsSign y),
          take_all x.limbs,
          take_all y.limbs,
          one,
          total,
          ← sum.size,
        )
        (stored-ReturnsOther s (length x.limbs) junk r.0 (sign_bits-IsSign y) sum.limbs
          (omega (arith, sum.size)) some wrong)
