-- ===== src/BnBn/Minus.antt =====
-- `ikrt_bnbnminus`: the difference of two bignums.
use ikarus.Base.{
  ℕ, ◌+◌, ◌-◌, ◌≤◌, ◌≡◌, ◌≢◌, refl, sym, ap, ◌∙◌, arith, length, ◌⊎◌, inl, inr, true, false, Bool,
  leb, ◌==◌, ◌&&◌, if◌then◌else◌, Bool-cases,
}
use ikarus.Base.Int.{ℤ, ◌+ℤ◌, ◌-ℤ◌, int_laws}
use ikarus.Base.Magnitude.{+ℤ_comm, minus-plus_neg}
use ikarus.Bignum.Normalize.{IsSign, zero-Returns}
use ikarus.Bignum.Valid.{IsBignum, Returns}
use ikarus.Bignum.{Bignum, bignum, ok, word, sign_bits, with_sign, to_int}
use ikarus.BnBn.Laws.{CarryFits, unequal-Returns, x_first-Returns, y_first-Returns, same_sum-big}
use ikarus.BnBn.Order.{
  sign_bits-IsSign, opposite_sum, same_sum, neg-with_sign, upper-Returns, equal_lengths-Returns,
}
use ikarus.BnBn.Subtract.{skip_equal-IsCut}
use ikarus.BnBn.{ikrt_bnbnminus, exchanged, add_magnitudes, sub_magnitudes, skip_equal}
use ikarus.Limbs.{value}
use ikarus.Mpn.{Mpn, IsMpn}

minus_self : (a : ℤ) → a -ℤ a ≡ with_sign 0 0
minus_self a = omega int_laws

module _ (m : Mpn) (laws : IsMpn m) (x y : Bignum) (hx : IsBignum x) (hy : IsBignum y) where
  -- The branches of the difference for one sign.
  same_sign-Returns :
      sign_bits x ≡ sign_bits y
      → let n = length x.limbs in
        let k = length y.limbs in
        let xlimbs = if n == k then skip_equal n x.limbs y.limbs else n in
        let ylimbs = if n == k then xlimbs else k in
        Returns
          (if n == k && xlimbs == 0
            then ok (word 0)
            else if exchanged xlimbs ylimbs x y
            then sub_magnitudes m (8 - sign_bits y) ylimbs y xlimbs x
            else sub_magnitudes m (sign_bits x) xlimbs x ylimbs y)
          (to_int (bignum x) -ℤ to_int (bignum y))
  same_sign-Returns same =
      let s = sign_bits x in
      let t = 8 - sign_bits y in
      let hs = sign_bits-IsSign x in
      let ht : IsSign t = omega arith in
      let differ : s ≢ t = λ e. omega (arith, e, same) in
      let r = to_int (bignum x) -ℤ to_int (bignum y) in
      let flipped : r ≡ with_sign s (value x.limbs) +ℤ with_sign t (value y.limbs) =
        minus-plus_neg (to_int (bignum x)) (to_int (bignum y))
        ∙ ap (λ b. to_int (bignum x) +ℤ b)
            (neg-with_sign (sign_bits y) (value y.limbs) (sign_bits-IsSign y)) in
      let above : value y.limbs ≤ value x.limbs → with_sign s (value x.limbs - value y.limbs) ≡ r =
        λ le. opposite_sum s t (value x.limbs) (value y.limbs) hs ht differ le ∙ sym flipped in
      let below : value x.limbs ≤ value y.limbs → with_sign t (value y.limbs - value x.limbs) ≡ r =
        λ le.
          opposite_sum t s (value y.limbs) (value x.limbs) ht hs (λ e. differ (sym e)) le
          ∙ +ℤ_comm (with_sign t (value y.limbs)) (to_int (bignum x))
          ∙ sym flipped in
      elim (Bool-cases (length x.limbs == length y.limbs)) [
        | inl e ↦
            let len : length x.limbs ≡ length y.limbs = ground arith in
            let c = skip_equal (length x.limbs) x.limbs y.limbs in
            let cut =
              skip_equal-IsCut (length x.limbs) x.limbs y.limbs (omega arith)
                (omega (arith, len)) in
            rw e (
              equal_lengths-Returns m laws x y hx hy s t c hs ht r above below len cut _
                (upper-Returns m laws x y hx hy s t c hs ht r above below len cut))
        | inr e ↦ rw e (unequal-Returns m laws x y hx hy s t r hs ht above below (ground arith))
      ]

  other_sign-Returns :
      (junk : ℕ)
      → sign_bits x ≢ sign_bits y
      → CarryFits x y
      → Returns
          (if leb (length y.limbs) (length x.limbs)
            then add_magnitudes m junk
                (length x.limbs)
                (sign_bits x)
                (length x.limbs)
                x
                (length y.limbs)
                y
            else add_magnitudes m junk
                (length x.limbs)
                (sign_bits x)
                (length y.limbs)
                y
                (length x.limbs)
                x)
          (to_int (bignum x) -ℤ to_int (bignum y))
  other_sign-Returns junk differ placed =
      let s = sign_bits x in
      let hs = sign_bits-IsSign x in
      let flip : 8 - sign_bits y ≡ s = omega (arith, differ) in
      let sum : to_int (bignum x) -ℤ to_int (bignum y)
          ≡ with_sign s (value x.limbs + value y.limbs) =
        minus-plus_neg (to_int (bignum x)) (to_int (bignum y))
        ∙ ap (λ b. to_int (bignum x) +ℤ b)
            (neg-with_sign (sign_bits y) (value y.limbs) (sign_bits-IsSign y)
              ∙ ap (λ q. with_sign q (value y.limbs)) flip)
        ∙ sym (same_sum s (value x.limbs) (value y.limbs) hs) in
      let big = same_sum-big m laws x y hx hy s (inl refl) in
      rw sum (elim (Bool-cases (leb (length y.limbs) (length x.limbs))) [
        | inl f ↦ rw f (x_first-Returns m laws x y hx hy junk s hs big placed (ground arith))
        | inr f ↦ rw f (y_first-Returns m laws x y hx hy junk s hs big placed (ground arith))
      ])

  -- The difference of two bignums is returned, in normal form, if their signs are equal or the
  -- carry finds its place; equal pointers are pointers to equal numbers.
  pub ikrt_bnbnminus-Returns :
      (junk : ℕ) (same : Bool)
      → (same ≡ true → x ≡ y)
      → (sign_bits x ≡ sign_bits y) ⊎ CarryFits x y
      → Returns (ikrt_bnbnminus m junk same x y) (to_int (bignum x) -ℤ to_int (bignum y))
  unfolding ikrt_bnbnminus
  ikrt_bnbnminus-Returns junk true alias placed =
      rw (alias refl, minus_self (to_int (bignum y))) (zero-Returns 0)
  ikrt_bnbnminus-Returns junk false alias (inl same) =
      let e : (sign_bits x == sign_bits y) ≡ true = ground arith in
      rw (hx.counted, hy.counted, e) (same_sign-Returns same)
  ikrt_bnbnminus-Returns junk false alias (inr placed) =
      elim (Bool-cases (sign_bits x == sign_bits y)) [
        | inl e ↦ rw (hx.counted, hy.counted, e) (same_sign-Returns (ground arith))
        | inr e ↦ rw (hx.counted, hy.counted, e) (other_sign-Returns junk (ground arith) placed)
      ]
