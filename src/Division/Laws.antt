-- ===== src/Division/Laws.antt =====
-- Quotients are truncated towards zero and remainders take the sign of the dividend.
use ikarus.Base.{
  ℕ, zero, suc, ◌+◌, ◌-◌, ◌*◌, ◌/◌, ◌%◌, ◌^◌, ◌≤◌, ◌<◌, ◌≡◌, refl, arith, List, length, take, ltb,
  ◌==◌, true, false, Bool-cases, if◌then◌else◌, Bool, inl, inr, take_all,
}
use ikarus.Base.Int.{ℤ, pos, negsuc, neg_ℕ, is_neg, magnitude}
use ikarus.Bignum.Normalize.{IsSign, normalize_bignum-Returns}
use ikarus.Bignum.Valid.{IsBignum, IsNumber, Returns}
use ikarus.Bignum.{
  Bignum, bignum, Obj, Result, ok, word, to_int, nonnegative, sign_bits, with_sign,
  normalize_bignum,
}
use ikarus.BnBn.Subtract.{shorter_lt}
use ikarus.Division.{ikrt_bnbndivrem, ikrt_bnfxdivrem}
use ikarus.Limbs.{value, IsLimbs}
use ikarus.Mpn.{Mpn, IsMpn}
use ikarus.Word.{
  fix, unfix, word_mod, IsFixnum, FitsFixnum, unfix-fix, fix-IsFixnum, unfix-FitsFixnum,
}
use native.Mathlib.Nat.{mod-lt, mod-eq_of_lt}

-- The call returns a pair of numbers in normal form, for the integers q and r.
pub record ReturnsPair (c : Result (Obj × Obj)) (q r : ℤ) : Type 0 where
  pub quotient : Obj
  pub remainder : Obj
  pub returns : c ≡ ok (quotient, remainder)
  pub quotient_normal : IsNumber quotient
  pub remainder_normal : IsNumber remainder
  pub quotient_equals : to_int quotient ≡ q
  pub remainder_equals : to_int remainder ≡ r

-- The sign bits of a quotient.
abbrev pub quotient_sign : ℕ → ℕ → ℕ
quotient_sign s t = if t == 0 then s else 8 - s

sign_bits-IsSign : (b : Bignum) → IsSign (sign_bits b)
sign_bits-IsSign b = omega arith

whole-Returns :
    (n sign v : ℕ) (d : List ℕ)
    → IsSign sign
    → length d ≡ n
    → IsLimbs d
    → value d ≡ v
    → Returns (normalize_bignum n sign d) (with_sign sign v)
whole-Returns n sign v d s len limbs same =
    let whole : value (take n d) ≡ v = rw (← len, take_all d) same in
    rw (← whole) (normalize_bignum-Returns n sign d s limbs (omega arith))

small_quotient : (a b : ℕ) → a < b → a / b ≡ 0
small_quotient a b h = grind arith

pub magnitude-le : (a : ℤ) → FitsFixnum a → magnitude a ≤ 2 ^ 60
magnitude-le (pos n) h = omega arith
magnitude-le (negsuc n) h = omega arith

-- The word of the remainder is a fixnum of either sign.
remainder_word :
    (plus : Bool) (r : ℕ)
    → r < 2 ^ 60
    → (if plus then fix (pos r) else (word_mod - r * 8 % word_mod) % word_mod)
      ≡ fix (if plus then pos r else neg_ℕ r)
unfolding fix
remainder_word true r h = refl
remainder_word false zero h = refl
remainder_word false (suc r) h = omega arith

remainder_fits : (plus : Bool) (r : ℕ) → r < 2 ^ 60 → FitsFixnum (if plus then pos r else neg_ℕ r)
remainder_fits true r h = omega arith
remainder_fits false zero h = omega arith
remainder_fits false (suc r) h = omega arith

module _ (m : Mpn) (laws : IsMpn m) (x : Bignum) (hx : IsBignum x) where
  long_division :
      (y : Bignum)
      → IsBignum y
      → length y.limbs ≤ length x.limbs
      → ltb (length x.limbs) (length y.limbs) ≡ false
      → ReturnsPair
          (ikrt_bnbndivrem m x y)
          (with_sign (quotient_sign (sign_bits x) (sign_bits y)) (value x.limbs / value y.limbs))
          (with_sign (sign_bits x) (value x.limbs % value y.limbs))
  unfolding ikrt_bnbndivrem
  long_division y hy le e =
      let s = sign_bits x in
      let t = sign_bits y in
      let d = laws.tdiv_qr_lem x.limbs y.limbs hx.in_words hy.in_words le hy.trimmed in
      let rs : ℕ = if nonnegative x then 0 else 8 in
      let same_sign : rs ≡ s = ground arith in
      let q_sign : IsSign (quotient_sign s t) = ground arith in
      let r =
        whole-Returns (length y.limbs) s (value x.limbs % value y.limbs) _ (sign_bits-IsSign x)
          d.remainder_size d.remainder_limbs d.remainder in
      let q =
        whole-Returns (length x.limbs - length y.limbs + 1) (quotient_sign s t)
          (value x.limbs / value y.limbs) _ q_sign d.quotient_size d.quotient_limbs d.quotient in
      record {
        quotient = q.out;
        remainder = r.out;
        returns = rw (
          hx.counted,
          hy.counted,
          take_all x.limbs,
          take_all y.limbs,
          e,
          same_sign,
          r.returns,
          q.returns,
        );
        quotient_normal = q.normal;
        remainder_normal = r.normal;
        quotient_equals = q.equals;
        remainder_equals = r.equals;
      }

  short_division :
      (y : Bignum)
      → IsBignum y
      → ltb (length x.limbs) (length y.limbs) ≡ true
      → ReturnsPair
          (ikrt_bnbndivrem m x y)
          (with_sign (quotient_sign (sign_bits x) (sign_bits y)) (value x.limbs / value y.limbs))
          (with_sign (sign_bits x) (value x.limbs % value y.limbs))
  unfolding ikrt_bnbndivrem
  short_division y hy e =
      let lt = shorter_lt x.limbs y.limbs hx.in_words (ground arith) hy.trimmed in
      record {
        quotient = word 0;
        remainder = bignum x;
        returns = rw (hx.counted, hy.counted, e);
        quotient_normal = omega arith;
        remainder_normal = hx;
        quotient_equals =
            rw (small_quotient (value x.limbs) (value y.limbs) lt) (unfold unfix in ground arith);
        remainder_equals = rw (mod-eq_of_lt lt);
      }

  -- The quotient and the remainder of two bignums are returned, in normal form.
  pub ikrt_bnbndivrem-Returns :
      (y : Bignum)
      → IsBignum y
      → ReturnsPair
          (ikrt_bnbndivrem m x y)
          (with_sign (quotient_sign (sign_bits x) (sign_bits y)) (value x.limbs / value y.limbs))
          (with_sign (sign_bits x) (value x.limbs % value y.limbs))
  ikrt_bnbndivrem-Returns y hy = elim (Bool-cases (ltb (length x.limbs) (length y.limbs))) [
    | inl e ↦ short_division y hy e
    | inr e ↦ long_division y hy (ground arith) e
  ]

  -- The quotient and the remainder of a bignum by a fixnum are returned, in normal form, unless the
  -- fixnum is zero.
  pub ikrt_bnfxdivrem-Returns :
      (y : ℕ)
      → IsFixnum y
      → 0 < magnitude (unfix y)
      → ReturnsPair
          (ikrt_bnfxdivrem m x y)
          (with_sign
            (if is_neg (unfix y) then 8 - sign_bits x else sign_bits x)
            (value x.limbs / magnitude (unfix y)))
          (with_sign (sign_bits x) (value x.limbs % magnitude (unfix y)))
  unfolding ikrt_bnfxdivrem
  ikrt_bnfxdivrem-Returns y hy some =
      let b = magnitude (unfix y) in
      let small = magnitude-le (unfix y) (unfix-FitsFixnum y hy) in
      let d = laws.divrem_1_lem x.limbs b hx.in_words some (omega (arith, small)) in
      let sign = if is_neg (unfix y) then 8 - sign_bits x else sign_bits x in
      let hs : IsSign sign = ground arith in
      let q = whole-Returns (length x.limbs) sign (value x.limbs / b) _ hs d.0 d.1 d.2 in
      let rest = mod-lt (value x.limbs) {m = b} some in
      let r = remainder_word (nonnegative x) (value x.limbs % b) (omega (arith, small, rest)) in
      let r_sign : (if nonnegative x then pos (value x.limbs % b) else neg_ℕ (value x.limbs % b))
          ≡ with_sign (sign_bits x) (value x.limbs % b) =
        refl in
      record {
        quotient = q.out;
        remainder =
            word
              (fix (if nonnegative x then pos (value x.limbs % b) else neg_ℕ (value x.limbs % b)));
        returns = rw (hx.counted, take_all x.limbs, q.returns, d.3, r);
        quotient_normal = q.normal;
        remainder_normal = fix-IsFixnum _;
        quotient_equals = q.equals;
        remainder_equals =
            unfix-fix _
              (remainder_fits (nonnegative x) (value x.limbs % b) (omega (arith, small, rest)));
      }

-- The truncated quotient and the remainder of a bignum by a bignum and by a fixnum that is not zero
-- are returned, in normal form.
pub bignum_divisions :
    (m : Mpn) (x y : Bignum) (z : ℕ)
    → IsMpn m
    → IsBignum x
    → IsBignum y
    → IsFixnum z
    → 0 < magnitude (unfix z)
    → ReturnsPair
        (ikrt_bnbndivrem m x y)
        (with_sign (quotient_sign (sign_bits x) (sign_bits y)) (value x.limbs / value y.limbs))
        (with_sign (sign_bits x) (value x.limbs % value y.limbs))
      × ReturnsPair
          (ikrt_bnfxdivrem m x z)
          (with_sign
            (if is_neg (unfix z) then 8 - sign_bits x else sign_bits x)
            (value x.limbs / magnitude (unfix z)))
          (with_sign (sign_bits x) (value x.limbs % magnitude (unfix z)))
bignum_divisions m x y z laws hx hy hz some =
    (ikrt_bnbndivrem-Returns m laws x hx y hy, ikrt_bnfxdivrem-Returns m laws x hx z hz some)
