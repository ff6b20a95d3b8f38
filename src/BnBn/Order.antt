-- ===== src/BnBn/Order.antt =====
-- Two magnitudes with a sign each: which is the greater, and what their sum and difference are.
use ikarus.Base.{
  ℕ, suc, ◌+◌, ◌-◌, ◌≤◌, ◌<◌, ◌≡◌, ◌≢◌, sym, ap, ◌∙◌, arith, length, take, get_or, inl, inr, true,
  ltb, leb, ◌==◌, if◌then◌else◌, Bool-cases, take_all,
}
use ikarus.Base.Int.{ℤ, pos, neg, neg_ℕ, ◌+ℤ◌}
use ikarus.Base.Magnitude.{pos_grow, neg_shrink, pos_shrink, neg_grow, neg-neg_ℕ, +ℤ_comm}
use ikarus.Bignum.Normalize.{IsSign, zero-Returns}
use ikarus.Bignum.Valid.{IsBignum, Returns, IsBignum-length_pos}
use ikarus.Bignum.{Bignum, Result, Obj, ok, word, sign_bits, with_sign}
use ikarus.BnBn.Subtract.{IsCut, take_lt, sub_magnitudes-Returns}
use ikarus.BnBn.{exchanged, sub_magnitudes}
use ikarus.Limbs.{value}
use ikarus.Mpn.{Mpn, IsMpn}

pub sign_bits-IsSign : (b : Bignum) → IsSign (sign_bits b)
sign_bits-IsSign b = omega arith

module _ (m : Mpn) (laws : IsMpn m) (x y : Bignum) (hx : IsBignum x) (hy : IsBignum y) where
  -- What remains of two magnitudes with the same limb count, cut to c limbs.
  module _ (s t c : ℕ) (hs : IsSign s) (ht : IsSign t) (r : ℤ)
      (above : value y.limbs ≤ value x.limbs → with_sign s (value x.limbs - value y.limbs) ≡ r)
      (below : value x.limbs ≤ value y.limbs → with_sign t (value y.limbs - value x.limbs) ≡ r)
      (len : length x.limbs ≡ length y.limbs) (cut : IsCut (length x.limbs) x.limbs y.limbs c) where
    cut_same : value x.limbs + value (take c y.limbs) ≡ value y.limbs + value (take c x.limbs)
    cut_same = omega (
      arith,
      cut.same,
      ap value (take_all x.limbs),
      ap value (take_all y.limbs),
      ap (λ n. value (take n y.limbs)) len,
    )

    equal-Returns : c ≡ 0 → Returns (ok (word 0)) r
    equal-Returns z =
        let same : value x.limbs ≡ value y.limbs = omega (arith, rw z at cut_same) in
        let none : value x.limbs - value y.limbs ≡ 0 = omega (arith, same) in
        rw (← above (omega (arith, same)), none) (zero-Returns s)

    cut_lt :
        0 < c
        → get_or x.limbs (c - 1) 0 < get_or y.limbs (c - 1) 0
        → value (take c x.limbs) < value (take c y.limbs)
    cut_lt positive lt =
        let whole : suc (c - 1) ≡ c = omega arith in
        rw whole at (
          take_lt (c - 1) x.limbs y.limbs hx.in_words (omega (arith, cut.le))
            (omega (arith, cut.le)) lt)

    cut_gt :
        0 < c
        → get_or y.limbs (c - 1) 0 < get_or x.limbs (c - 1) 0
        → value (take c y.limbs) < value (take c x.limbs)
    cut_gt positive lt =
        let whole : suc (c - 1) ≡ c = omega arith in
        rw whole at (
          take_lt (c - 1) y.limbs x.limbs hy.in_words (omega (arith, cut.le))
            (omega (arith, cut.le)) lt)

    lower-Returns :
        0 < c
        → get_or x.limbs (c - 1) 0 < get_or y.limbs (c - 1) 0
        → Returns (sub_magnitudes m t c y c x) r
    lower-Returns positive lt =
        let smaller = cut_lt positive lt in
        let same : value (take c y.limbs) - value (take c x.limbs) ≡ value y.limbs - value x.limbs =
          omega (arith, cut_same, smaller) in
        rw (← below (omega (arith, cut_same, smaller)), ← same)
          (sub_magnitudes-Returns m t c c y x laws ht hy.in_words hx.in_words
            (omega (arith, cut.le)) cut.le (omega arith) positive (omega (arith, smaller)))

    pub upper-le :
        0 < c → get_or y.limbs (c - 1) 0 < get_or x.limbs (c - 1) 0 → value y.limbs ≤ value x.limbs
    upper-le positive lt = omega (arith, cut_same, cut_gt positive lt)

    pub upper-Returns :
        0 < c
        → get_or y.limbs (c - 1) 0 < get_or x.limbs (c - 1) 0
        → Returns (sub_magnitudes m s c x c y) r
    upper-Returns positive lt =
        let smaller = cut_gt positive lt in
        let same : value (take c x.limbs) - value (take c y.limbs) ≡ value x.limbs - value y.limbs =
          omega (arith, cut_same, smaller) in
        rw (← above (omega (arith, cut_same, smaller)), ← same)
          (sub_magnitudes-Returns m s c c x y laws hs hx.in_words hy.in_words cut.le
            (omega (arith, cut.le)) (omega arith) positive (omega (arith, smaller)))

    -- The subtraction of all the limbs, which the sum does where x is the greater.
    pub whole-Returns :
        value y.limbs ≤ value x.limbs
        → Returns (sub_magnitudes m s (length x.limbs) x (length y.limbs) y) r
    whole-Returns le = rw (← above le) (
        rw (take_all x.limbs, take_all y.limbs) at
          (sub_magnitudes-Returns m s (length x.limbs) (length y.limbs) x y laws hs hx.in_words
            hy.in_words (omega arith) (omega arith) (omega (arith, len)) (IsBignum-length_pos y hy)
            (rw (take_all x.limbs, take_all y.limbs) le)))

    pub equal_lengths-Returns :
        (upper : Result Obj)
        → (0 < c → get_or y.limbs (c - 1) 0 < get_or x.limbs (c - 1) 0 → Returns upper r)
        → Returns
            (if c == 0
              then ok (word 0)
              else if exchanged c c x y
              then sub_magnitudes m t c y c x
              else upper)
            r
    unfolding exchanged
    equal_lengths-Returns upper big = elim (Bool-cases (c == 0)) [
      | inl e ↦ rw e (equal-Returns (ground arith))
      | inr e ↦
          let refl_c : (c == c) ≡ true = ground arith in
          let refl_le : leb c c ≡ true = ground arith in
          rw (e, refl_c, refl_le)
            (elim (Bool-cases (ltb (get_or x.limbs (c - 1) 0) (get_or y.limbs (c - 1) 0))) [
              | inl f ↦ rw f (lower-Returns (ground arith) (ground arith))
              | inr f ↦ rw f (big (ground arith) (ground (arith, cut.differ)))
            ])
    ]

-- Signs and magnitudes.
pub opposite_sum :
    (s t a b : ℕ)
    → IsSign s
    → IsSign t
    → s ≢ t
    → b ≤ a
    → with_sign s (a - b) ≡ with_sign s a +ℤ with_sign t b
opposite_sum s t a b (inl e) (inl f) differ le = absurd (differ (e ∙ sym f))
opposite_sum s t a b (inl e) (inr f) differ le =
    rw (e, f) (pos_shrink b a le ∙ +ℤ_comm (neg_ℕ b) (pos a))
opposite_sum s t a b (inr e) (inl f) differ le =
    rw (e, f) (neg_shrink b a le ∙ +ℤ_comm (pos b) (neg_ℕ a))
opposite_sum s t a b (inr e) (inr f) differ le = absurd (differ (e ∙ sym f))

pub same_sum : (s a b : ℕ) → IsSign s → with_sign s (a + b) ≡ with_sign s a +ℤ with_sign s b
same_sum s a b (inl e) = rw e (pos_grow b a ∙ +ℤ_comm (pos b) (pos a))
same_sum s a b (inr e) = rw e (neg_grow b a ∙ +ℤ_comm (neg_ℕ b) (neg_ℕ a))

pub neg-with_sign : (s a : ℕ) → IsSign s → neg (with_sign s a) ≡ with_sign (8 - s) a
neg-with_sign s a (inl e) = rw e
neg-with_sign s a (inr e) = rw e (neg-neg_ℕ a)
