-- ===== src/FxBn/Laws.antt =====
-- Sums and differences of a fixnum and a bignum are right, on every branch.
use ikarus.Base.{
  ℕ, zero, suc, ◌+◌, ◌%◌, ◌^◌, ◌≤◌, ◌<◌, ◌≡◌, ◌≢◌, refl, arith, get_or, inl, inr, lt→ltb, ◌==◌,
  ◌&&◌, if◌then◌else◌, Bool-cases,
}
use ikarus.Base.Int.{ℤ, pos, negsuc, neg, neg_ℕ, is_pos, is_neg, ◌+ℤ◌, ◌-ℤ◌}
use ikarus.Base.Magnitude.{
  pos_grow, neg_shrink, pos_shrink, neg_grow, pos_minus, neg_minus, neg-neg_ℕ, minus_swap,
}
use ikarus.Bignum.Normalize.{verify_bignum-Returns, fix-Returns}
use ikarus.Bignum.Valid.{IsBignum, Returns, value-one, two_limbs-big, IsBignum-length_pos}
use ikarus.Bignum.{Bignum, bignum, Result, Obj, ok, nonnegative, sign_bits, to_int, limb_count}
use ikarus.FxBn.{grow, shrink, ikrt_fxbnplus, ikrt_bnnegate, ikrt_fxbnminus, ikrt_bnfxminus}
use ikarus.FxBn.Steps.{grow-Returns, shrink-Returns, counted_limbs_lem}
use ikarus.Limbs.{value}
use ikarus.Mpn.{Mpn, IsMpn}
use ikarus.Word.{
  IsFixnum, FitsFixnum, to_word, unfix, unfix-FitsFixnum, unfix-eq-zero, word_mod,
  most_positive_fixnum,
}

same-Returns : (y : Bignum) → IsBignum y → Returns (ok (bignum y)) (to_int (bignum y))
same-Returns y h = record { out = bignum y; returns = refl; normal = h; equals = refl }

zero_plus : (b : ℤ) → unfix 0 +ℤ b ≡ b
unfolding unfix ◌+ℤ◌
zero_plus b = ground arith

minus_zero : (b : ℤ) → b -ℤ unfix 0 ≡ b
unfolding unfix ◌-ℤ◌
minus_zero b = ground arith

zero_minus : (b : ℤ) → unfix 0 -ℤ b ≡ neg b
unfolding unfix ◌-ℤ◌
zero_minus (pos zero) = ground arith
zero_minus (pos (suc n)) = ground arith
zero_minus (negsuc n) = ground arith

-- The negation of a bignum is returned, in normal form.
pub ikrt_bnnegate-Returns :
    (x : Bignum) → IsBignum x → Returns (ikrt_bnnegate x) (neg (to_int (bignum x)))
unfolding ikrt_bnnegate
ikrt_bnnegate-Returns x h =
    let limb = get_or x.limbs 0 0 in
    elim (Bool-cases (limb_count x == 1 && nonnegative x && limb == most_positive_fixnum + 1)) [
      | inl e ↦
          let plain : sign_bits x ≡ 0 = ground arith in
          let one : value x.limbs ≡ limb = value-one x.limbs (ground (arith, h.counted)) in
          let least : limb ≡ most_positive_fixnum + 1 = ground arith in
          rw e (rw (plain, one) (fix-Returns 8 limb (omega arith)))
      | inr e ↦
          rw (e, counted_limbs_lem x h)
            (elim (Bool-cases (nonnegative x)) [
              | inl f ↦
                  let plain : sign_bits x ≡ 0 = ground arith in
                  rw plain (
                    verify_bignum-Returns 8 (limb_count x) x.limbs (inr refl) h.counted h.in_words
                      h.trimmed
                      (ground (
                        arith,
                        h.big,
                        value-one x.limbs,
                        two_limbs-big x.limbs,
                        IsBignum-length_pos x h,
                      )))
              | inr f ↦
                  let minus : sign_bits x ≡ 8 = ground arith in
                  rw (minus, neg-neg_ℕ)
                    (verify_bignum-Returns 0 (limb_count x) x.limbs (inl refl) h.counted h.in_words
                      h.trimmed (ground (arith, h.big)))
            ])
    ]

module _ (m : Mpn) (laws : IsMpn m) (y : Bignum) (hy : IsBignum y) where
  -- Both branches of a step that depends on the sign of y.
  by_sign :
      (f : ℤ → ℤ) (a b : Result Obj)
      → ((sign_bits y ≡ 0) → Returns a (f (pos (value y.limbs))))
      → ((sign_bits y ≢ 0) → Returns b (f (neg_ℕ (value y.limbs))))
      → Returns (if nonnegative y then a else b) (f (to_int (bignum y)))
  by_sign f a b g h = elim (Bool-cases (nonnegative y)) [
    | inl e ↦ rw e (g (ground arith))
    | inr e ↦ rw e (h (ground arith))
  ]

  -- Adding v to y.
  up-Returns :
      (v : ℕ)
      → v ≤ 2 ^ 60
      → Returns
          (if nonnegative y then grow m 0 y v else shrink m 8 y v)
          (pos v +ℤ to_int (bignum y))
  up-Returns v h =
      by_sign (λ r. pos v +ℤ r) (grow m 0 y v) (shrink m 8 y v)
        (λ e.
          rw pos_grow at
            (grow-Returns m laws 0 (inl refl) y hy v (omega arith) (ground (arith, hy.big))))
        (λ e.
          rw (neg_shrink v (value y.limbs) (ground (arith, hy.big))) at
            (shrink-Returns m laws 8 (inr refl) y hy v h))

  -- Taking v away from y.
  down-Returns :
      (v : ℕ)
      → v ≤ 2 ^ 60
      → Returns
          (if nonnegative y then shrink m 0 y v else grow m 8 y v)
          (neg_ℕ v +ℤ to_int (bignum y))
  down-Returns v h =
      by_sign (λ r. neg_ℕ v +ℤ r) (shrink m 0 y v) (grow m 8 y v)
        (λ e.
          rw (pos_shrink v (value y.limbs) (ground (arith, hy.big))) at
            (shrink-Returns m laws 0 (inl refl) y hy v h))
        (λ e.
          rw neg_grow at
            (grow-Returns m laws 8 (inr refl) y hy v (omega arith) (ground (arith, hy.big))))

  -- Taking y away from v.
  up_minus-Returns :
      (v : ℕ)
      → v ≤ 2 ^ 60
      → Returns
          (if nonnegative y then shrink m 8 y v else grow m 0 y v)
          (pos v -ℤ to_int (bignum y))
  up_minus-Returns v h =
      by_sign (λ r. pos v -ℤ r) (shrink m 8 y v) (grow m 0 y v)
        (λ e. rw pos_minus (
          rw (neg_shrink v (value y.limbs) (ground (arith, hy.big))) at
            (shrink-Returns m laws 8 (inr refl) y hy v h)))
        (λ e.
          rw (pos_minus, neg-neg_ℕ)
            (rw pos_grow at
              (grow-Returns m laws 0 (inl refl) y hy v (omega arith) (ground (arith, hy.big)))))

  -- Taking y away from -v.
  down_minus-Returns :
      (v : ℕ)
      → 0 < v
      → v ≤ 2 ^ 60
      → Returns
          (if nonnegative y then grow m 8 y v else shrink m 0 y v)
          (neg_ℕ v -ℤ to_int (bignum y))
  down_minus-Returns v more h =
      by_sign (λ r. neg_ℕ v -ℤ r) (grow m 8 y v) (shrink m 0 y v)
        (λ e. rw neg_minus (
          rw neg_grow at
            (grow-Returns m laws 8 (inr refl) y hy v (omega arith) (ground (arith, hy.big)))))
        (λ e.
          rw (neg_minus, neg-neg_ℕ)
            (rw (pos_shrink v (value y.limbs) (ground (arith, hy.big))) at
              (shrink-Returns m laws 0 (inl refl) y hy v h)))

  plus_cases :
      (r : ℤ)
      → FitsFixnum r
      → Returns
          (if is_pos r
            then if nonnegative y then grow m 0 y (to_word r) else shrink m 8 y (to_word r)
            else if nonnegative y
            then shrink m 0 y (to_word (neg r))
            else grow m 8 y (to_word (neg r)))
          (r +ℤ to_int (bignum y))
  plus_cases (pos zero) fits = down-Returns 0 (omega arith)
  plus_cases (pos (suc n)) fits =
      let same : suc n % word_mod ≡ suc n = omega arith in
      rw (lt→ltb 0 (suc n) (omega arith), same) (up-Returns (suc n) (omega arith))
  plus_cases (negsuc n) fits =
      let same : suc n % word_mod ≡ suc n = omega arith in
      rw same (down-Returns (suc n) (omega arith))

  minus_cases :
      (r : ℤ)
      → FitsFixnum r
      → r ≢ pos 0
      → Returns
          (if is_pos r
            then if nonnegative y then shrink m 8 y (to_word r) else grow m 0 y (to_word r)
            else if nonnegative y
            then grow m 8 y (to_word (neg r))
            else shrink m 0 y (to_word (neg r)))
          (r -ℤ to_int (bignum y))
  minus_cases (pos zero) fits some = absurd (some refl)
  minus_cases (pos (suc n)) fits some =
      let same : suc n % word_mod ≡ suc n = omega arith in
      rw (lt→ltb 0 (suc n) (omega arith), same) (up_minus-Returns (suc n) (omega arith))
  minus_cases (negsuc n) fits some =
      let same : suc n % word_mod ≡ suc n = omega arith in
      rw same (down_minus-Returns (suc n) (omega arith) (omega arith))

  minus_fx_cases :
      (r : ℤ)
      → FitsFixnum r
      → Returns
          (if is_neg r
            then if nonnegative y
              then grow m 0 y (to_word (neg r))
              else shrink m 8 y (to_word (neg r))
            else if nonnegative y
            then shrink m 0 y (to_word r)
            else grow m 8 y (to_word r))
          (to_int (bignum y) -ℤ r)
  minus_fx_cases (pos n) fits =
      let same : n % word_mod ≡ n = omega arith in
      rw (same, minus_swap (pos n) (to_int (bignum y))) (down-Returns n (omega arith))
  minus_fx_cases (negsuc n) fits =
      let same : suc n % word_mod ≡ suc n = omega arith in
      rw (same, minus_swap (negsuc n) (to_int (bignum y))) (up-Returns (suc n) (omega arith))

  -- A fixnum and a bignum have their sum returned, in normal form, and no call exits.
  pub ikrt_fxbnplus-Returns :
      (x : ℕ) → IsFixnum x → Returns (ikrt_fxbnplus m x y) (unfix x +ℤ to_int (bignum y))
  unfolding ikrt_fxbnplus
  ikrt_fxbnplus-Returns x hx = elim (Bool-cases (x == 0)) [
    | inl e ↦ let none : x ≡ 0 = ground arith in rw (none, zero_plus) (same-Returns y hy)
    | inr e ↦ rw e (plus_cases (unfix x) (unfix-FitsFixnum x hx))
  ]

  -- A bignum minus a fixnum is returned, in normal form.
  pub ikrt_bnfxminus-Returns :
      (x : ℕ) → IsFixnum x → Returns (ikrt_bnfxminus m y x) (to_int (bignum y) -ℤ unfix x)
  unfolding ikrt_bnfxminus
  ikrt_bnfxminus-Returns x hx = elim (Bool-cases (x == 0)) [
    | inl e ↦ let none : x ≡ 0 = ground arith in rw (none, minus_zero) (same-Returns y hy)
    | inr e ↦ rw e (minus_fx_cases (unfix x) (unfix-FitsFixnum x hx))
  ]

  -- A fixnum minus a bignum is returned, in normal form.
  pub ikrt_fxbnminus-Returns :
      (x : ℕ) → IsFixnum x → Returns (ikrt_fxbnminus m x y) (unfix x -ℤ to_int (bignum y))
  unfolding ikrt_fxbnminus
  ikrt_fxbnminus-Returns x hx = elim (Bool-cases (x == 0)) [
    | inl e ↦ let none : x ≡ 0 = ground arith in rw (none, zero_minus) (ikrt_bnnegate-Returns y hy)
    | inr e ↦
        rw e (
          minus_cases (unfix x) (unfix-FitsFixnum x hx) (λ z. ground (arith, unfix-eq-zero x hx z)))
  ]

-- A fixnum minus a bignum and a bignum minus a fixnum are returned, in normal form.
pub mixed_differences :
    (m : Mpn) (x : ℕ) (y : Bignum)
    → IsMpn m
    → IsFixnum x
    → IsBignum y
    → Returns (ikrt_fxbnminus m x y) (unfix x -ℤ to_int (bignum y))
      × Returns (ikrt_bnfxminus m y x) (to_int (bignum y) -ℤ unfix x)
mixed_differences m x y laws hx hy =
    (ikrt_fxbnminus-Returns m laws y hy x hx, ikrt_bnfxminus-Returns m laws y hy x hx)
