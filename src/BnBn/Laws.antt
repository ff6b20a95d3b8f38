-- ===== src/BnBn/Laws.antt =====
-- Sums and differences of bignums are right wherever the carry is stored above the sum.
use ikarus.Base.{
  ℕ, ◌+◌, ◌-◌, ◌≤◌, ◌<◌, ◌≡◌, ◌≢◌, refl, sym, subst, ◌∙◌, arith, length, ◌⊎◌, inl, inr, false, ltb,
  leb, ◌==◌, ◌&&◌, if◌then◌else◌, Bool-cases, take_all,
}
use ikarus.Base.Int.{ℤ, ◌+ℤ◌}
use ikarus.Base.Magnitude.{+ℤ_comm}
use ikarus.Bignum.Normalize.{IsSign}
use ikarus.Bignum.Valid.{IsBignum, Returns, IsBignum-length_pos}
use ikarus.Bignum.{Bignum, bignum, ok, word, sign_bits, with_sign, to_int, most_fixnum}
use ikarus.BnBn.Add.{add_magnitudes-Returns, add_magnitudes-Returns_fits}
use ikarus.BnBn.Order.{
  sign_bits-IsSign, opposite_sum, same_sum, whole-Returns, upper-le, equal_lengths-Returns,
}
use ikarus.BnBn.Subtract.{skip_equal-IsCut, shorter_lt, sub_magnitudes-Returns}
use ikarus.BnBn.{ikrt_bnbnplus, exchanged, sub_magnitudes, add_magnitudes, skip_equal}
use ikarus.Limbs.{value, weight}
use ikarus.Mpn.{Mpn, IsMpn}
use native.Mathlib.Nat.{add_comm}

-- Where the carry of a sum of magnitudes finds its place: x has at least as many limbs as y, or
-- there is no carry.
abbrev pub CarryFits : Bignum → Bignum → Type 0
CarryFits x y =
    (length y.limbs ≤ length x.limbs) ⊎ (value x.limbs + value y.limbs < weight (length y.limbs))

module _ (m : Mpn) (laws : IsMpn m) (x y : Bignum) (hx : IsBignum x) (hy : IsBignum y) where
  -- Magnitudes of different lengths.
  pub unequal-Returns :
      (s t : ℕ) (r : ℤ)
      → IsSign s
      → IsSign t
      → (value y.limbs ≤ value x.limbs → with_sign s (value x.limbs - value y.limbs) ≡ r)
      → (value x.limbs ≤ value y.limbs → with_sign t (value y.limbs - value x.limbs) ≡ r)
      → length x.limbs ≢ length y.limbs
      → Returns
          (if exchanged (length x.limbs) (length y.limbs) x y
            then sub_magnitudes m t (length y.limbs) y (length x.limbs) x
            else sub_magnitudes m s (length x.limbs) x (length y.limbs) y)
          r
  unfolding exchanged
  unequal-Returns s t r hs ht above below differ =
      let n = length x.limbs in
      let k = length y.limbs in
      let other : (n == k) ≡ false = ground arith in
      elim (Bool-cases (leb n k)) [
        | inl e ↦
            let lt : n < k = ground arith in
            let smaller = shorter_lt x.limbs y.limbs hx.in_words lt hy.trimmed in
            rw (e, other, ← below (omega (arith, smaller)))
              (rw (take_all x.limbs, take_all y.limbs) at
                (sub_magnitudes-Returns m t k n y x laws ht hy.in_words hx.in_words (omega arith)
                  (omega arith) (omega (arith, lt)) (IsBignum-length_pos x hx)
                  (rw (take_all x.limbs, take_all y.limbs) (omega (arith, smaller)))))
        | inr e ↦
            let lt : k < n = ground arith in
            let smaller = shorter_lt y.limbs x.limbs hy.in_words lt hx.trimmed in
            rw (e, ← above (omega (arith, smaller)))
              (rw (take_all x.limbs, take_all y.limbs) at
                (sub_magnitudes-Returns m s n k x y laws hs hx.in_words hy.in_words (omega arith)
                  (omega arith) (omega (arith, lt)) (IsBignum-length_pos y hy)
                  (rw (take_all x.limbs, take_all y.limbs) (omega (arith, smaller)))))
      ]

  -- The branches of the sum for two signs.
  opposite-Returns :
      sign_bits x ≢ sign_bits y
      → let n = length x.limbs in
        let k = length y.limbs in
        let xlimbs = if n == k then skip_equal n x.limbs y.limbs else n in
        let ylimbs = if n == k then xlimbs else k in
        Returns
          (if n == k && xlimbs == 0
            then ok (word 0)
            else if exchanged xlimbs ylimbs x y
            then sub_magnitudes m (sign_bits y) ylimbs y xlimbs x
            else sub_magnitudes m (sign_bits x) n x k y)
          (to_int (bignum x) +ℤ to_int (bignum y))
  opposite-Returns differ =
      let s = sign_bits x in
      let t = sign_bits y in
      let hs = sign_bits-IsSign x in
      let ht = sign_bits-IsSign y in
      let r = to_int (bignum x) +ℤ to_int (bignum y) in
      let above : value y.limbs ≤ value x.limbs → with_sign s (value x.limbs - value y.limbs) ≡ r =
        opposite_sum s t (value x.limbs) (value y.limbs) hs ht differ in
      let below : value x.limbs ≤ value y.limbs → with_sign t (value y.limbs - value x.limbs) ≡ r =
        λ le.
          opposite_sum t s (value y.limbs) (value x.limbs) ht hs (λ e. differ (sym e)) le
          ∙ +ℤ_comm (to_int (bignum y)) (to_int (bignum x)) in
      elim (Bool-cases (length x.limbs == length y.limbs)) [
        | inl e ↦
            let len : length x.limbs ≡ length y.limbs = ground arith in
            let c = skip_equal (length x.limbs) x.limbs y.limbs in
            let cut =
              skip_equal-IsCut (length x.limbs) x.limbs y.limbs (omega arith)
                (omega (arith, len)) in
            rw e (
              equal_lengths-Returns m laws x y hx hy s t c hs ht r above below len cut _ (λ p gt.
                whole-Returns m laws x y hx hy s t c hs ht r above below len cut
                  (upper-le m laws x y hx hy s t c hs ht r above below len cut p gt)))
        | inr e ↦ rw e (unequal-Returns s t r hs ht above below (ground arith))
      ]

  module _ (junk s : ℕ) (hs : IsSign s) (big : most_fixnum s < value x.limbs + value y.limbs)
      (placed : CarryFits x y) where
    pub x_first-Returns :
        length y.limbs ≤ length x.limbs
        → Returns
            (add_magnitudes m junk (length x.limbs) s (length x.limbs) x (length y.limbs) y)
            (with_sign s (value x.limbs + value y.limbs))
    x_first-Returns le = add_magnitudes-Returns m laws s hs junk x y hx hy le big

    pub y_first-Returns :
        length x.limbs ≤ length y.limbs
        → Returns
            (add_magnitudes m junk (length x.limbs) s (length y.limbs) y (length x.limbs) x)
            (with_sign s (value x.limbs + value y.limbs))
    y_first-Returns le =
        let swap = add_comm (value x.limbs) (value y.limbs) in rw swap (by_place placed)
      where
        by_place :
            CarryFits x y
            → Returns
                (add_magnitudes m junk (length x.limbs) s (length y.limbs) y (length x.limbs) x)
                (with_sign s (value y.limbs + value x.limbs))
        by_place (inl p) =
            let len : length x.limbs ≡ length y.limbs = omega arith in
            subst
              (λ n.
                Returns (add_magnitudes m junk n s (length y.limbs) y (length x.limbs) x)
                  (with_sign s (value y.limbs + value x.limbs)))
              (sym len) (add_magnitudes-Returns m laws s hs junk y x hy hx le (omega arith))
        by_place (inr p) =
            add_magnitudes-Returns_fits m laws s hs junk (length x.limbs) y x hy hx le (omega arith)
              (omega arith)

  pub same_sum-big :
      (s : ℕ)
      → (s ≡ sign_bits x) ⊎ (s ≡ sign_bits y)
      → most_fixnum s < value x.limbs + value y.limbs
  same_sum-big s (inl e) = rw e (omega (arith, hx.big))
  same_sum-big s (inr e) = rw e (omega (arith, hy.big))

  -- The sum of two bignums is returned, in normal form, if their signs differ or the carry finds
  -- its place.
  pub ikrt_bnbnplus-Returns :
      (junk : ℕ)
      → (sign_bits x ≢ sign_bits y) ⊎ CarryFits x y
      → Returns (ikrt_bnbnplus m junk x y) (to_int (bignum x) +ℤ to_int (bignum y))
  unfolding ikrt_bnbnplus
  ikrt_bnbnplus-Returns junk (inl differ) =
      let other : (sign_bits x == sign_bits y) ≡ false = ground arith in
      rw (hx.counted, hy.counted, other) (opposite-Returns differ)
  ikrt_bnbnplus-Returns junk (inr placed) = elim (Bool-cases (sign_bits x == sign_bits y)) [
    | inl e ↦
        let s = sign_bits x in
        let hs = sign_bits-IsSign x in
        let same : sign_bits y ≡ s = ground arith in
        let big = same_sum-big s (inl refl) in
        let sum = same_sum s (value x.limbs) (value y.limbs) hs in
        rw (hx.counted, hy.counted, e, same, ← sum)
          (elim (Bool-cases (ltb (length y.limbs) (length x.limbs))) [
            | inl f ↦ rw f (x_first-Returns junk s hs big placed (ground arith))
            | inr f ↦ rw f (y_first-Returns junk s hs big placed (ground arith))
          ])
    | inr e ↦ rw (hx.counted, hy.counted, e) (opposite-Returns (ground arith))
  ]
