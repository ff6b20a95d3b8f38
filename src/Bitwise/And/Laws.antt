-- ===== src/Bitwise/And/Laws.antt =====
-- `ikrt_bnbnlogand` returns the `and` of its operands.
use ikarus.Base.{
  ℕ, suc, ◌≤◌, ◌<◌, ◌≡◌, ◌≢◌, refl, sym, ◌∙◌, arith, true, [], ◌∷◌, length, leb, Bool-cases, inl,
  inr,
}
use ikarus.Base.Int.{ℤ, pos, negsuc}
use ikarus.Bignum.Valid.{IsBignum}
use ikarus.Bignum.{Bignum, Result, Obj, bignum, ok, to_int, nonnegative, header, limb_count}
use ikarus.Bits.Values.{testbit, bit_above}
use ikarus.Bits.Words.{bit, bit-bit_and}
use ikarus.Bitwise.And.Positive.{kept, kept-Returns, kept_unnormalised}
use ikarus.Bitwise.And.{logand_negative-limbs, logand_mixed-limbs}
use ikarus.Bitwise.Combine.{and_bit, and_bit_comm, combined, zeros_above, bit_and-word}
use ikarus.Bitwise.Limbwise.{length-zip, length-zip_le, zip-IsLimbs, length-over, over_nil}
use ikarus.Bitwise.Operand.{signs, magnitude_limbs-IsBignum}
use ikarus.Bitwise.Twos.{ReturnsBits, Returns-ReturnsBits, ReturnsBits-map}
use ikarus.Bitwise.{
  bits_compliment_logand, zip_limbs, logand_negative, logand_mixed, logand_positive,
  ikrt_bnbnlogand,
}
use ikarus.Limbs.{value}
use ikarus.Shift.Complement.{length-complement}
use ikarus.Shift.{bits_compliment_with_carry}
use ikarus.Word.{most_positive_fixnum}
use Prim.Native.Nat.{bit_and}

-- Two bignums that are not negative and whose common bits are those of the greatest fixnum.
unfoldable pub CommonFixnum : Bignum → Bignum → Type 0
CommonFixnum x y =
    (nonnegative x ≡ true)
    × (nonnegative y ≡ true)
    × (value (zip_limbs bit_and x.limbs y.limbs) ≡ most_positive_fixnum)

abbrev and_of : ℤ → ℤ → ℕ → ℕ
and_of a b i = and_bit (testbit a i) (testbit b i)

module _ (x y : Bignum) (hx : IsBignum x) (hy : IsBignum y) where
  -- Both are negative.
  negative-ReturnsBits :
      (a b : ℕ)
      → value x.limbs ≡ suc a
      → value y.limbs ≡ suc b
      → length y.limbs ≤ length x.limbs
      → ReturnsBits (logand_negative x y) (and_of (negsuc b) (negsuc a))
  unfolding logand_negative
  negative-ReturnsBits a b va vb le =
      rw (magnitude_limbs-IsBignum x hx, magnitude_limbs-IsBignum y hy, hx.counted)
        (logand_negative-limbs x.limbs y.limbs a b hx.in_words hy.in_words va vb le)

  -- y is negative.
  mixed-ReturnsBits :
      (b : ℕ)
      → value y.limbs ≡ suc b
      → ReturnsBits (logand_mixed x y) (and_of (negsuc b) (pos (value x.limbs)))
  unfolding logand_mixed
  mixed-ReturnsBits b vb =
      let xs = x.limbs in
      let ys = y.limbs in
      let c = bits_compliment_with_carry 1 ys in
      let size = length-complement ys 1 in
      rw (magnitude_limbs-IsBignum x hx, magnitude_limbs-IsBignum y hy, hx.counted, hy.counted)
        (elim (Bool-cases (leb (length xs) (length ys))) [
          | inl e ↦
              let le : length xs ≤ length ys = ground arith in
              let done =
                logand_mixed-limbs xs ys b hx.in_words hy.in_words vb [] tt
                  (rw (over_nil (zip_limbs bit_and c xs))
                    (length-zip_le bit_and c xs (omega (arith, size))))
                  (λ j l h. absurd (omega arith)) in
              rw e (rw (over_nil (bits_compliment_logand 1 ys xs)) at done)
          | inr e ↦
              let lt : length ys < length xs = ground arith in
              rw e (
                logand_mixed-limbs xs ys b hx.in_words hy.in_words vb xs hx.in_words
                  (length-over (zip_limbs bit_and c xs) xs
                    (omega (arith, length-zip bit_and c xs (omega (arith, size)), size)))
                  (λ j l h. refl))
        ])

  zip_bits :
      (i : ℕ)
      → bit (value (zip_limbs bit_and x.limbs y.limbs)) i
        ≡ and_of (pos (value x.limbs)) (pos (value y.limbs)) i
  zip_bits i = rw (over_nil (zip_limbs bit_and x.limbs y.limbs)) at (
      combined bit_and and_bit bit-bit_and bit_and-word x.limbs y.limbs [] (bit (value x.limbs))
        (bit (value y.limbs)) (suc i) i hx.in_words hy.in_words tt (λ j l. refl) (λ j l. refl)
        (λ j l h.
          bit_above 0 0 j (omega arith) (omega arith)
          ∙ sym (elim h [
            | inl k ↦ rw (zeros_above x.limbs j hx.in_words k) (omega arith)
            | inr k ↦ rw (zeros_above y.limbs j hy.in_words k) (omega arith)
          ]))
        (omega arith))

  -- Neither is negative.
  positive-ReturnsBits :
      value (zip_limbs bit_and x.limbs y.limbs) ≢ most_positive_fixnum
      → ReturnsBits (logand_positive x y) (and_of (pos (value x.limbs)) (pos (value y.limbs)))
  unfolding logand_positive
  positive-ReturnsBits other =
      let d = zip_limbs bit_and x.limbs y.limbs in
      rw (magnitude_limbs-IsBignum x hx, magnitude_limbs-IsBignum y hy)
        (Returns-ReturnsBits (kept d) (pos (value d)) _
          (kept-Returns d (zip-IsLimbs bit_and bit_and-word x.limbs y.limbs hx.in_words hy.in_words)
            other)
          zip_bits)

-- The `and` of two bignums in normal form is returned, in normal form, unless neither is negative
-- and the limbs in common hold the greatest fixnum.
pub ikrt_bnbnlogand-ReturnsBits :
    (x y : Bignum)
    → IsBignum x
    → IsBignum y
    → ¬ CommonFixnum x y
    → ReturnsBits
        (ikrt_bnbnlogand x y)
        (λ i. and_bit (testbit (to_int (bignum x)) i) (testbit (to_int (bignum y)) i))
unfolding ikrt_bnbnlogand CommonFixnum
ikrt_bnbnlogand-ReturnsBits x y hx hy other = elim (signs x hx) [
  | inl p ↦ elim (signs y hy) [
    | inl q ↦ rw (p, q) (positive-ReturnsBits x y hx hy (λ e. other (p, q, e)))
    | inr q ↦
        rw (p, q.test, q.magnitude)
          (swapped (negsuc q.below) (pos (value x.limbs)) (logand_mixed x y)
            (mixed-ReturnsBits x y hx hy q.below q.magnitude))
  ]
  | inr p ↦ elim (signs y hy) [
    | inl q ↦ rw (p.test, q, p.magnitude) (mixed-ReturnsBits y x hy hx p.below p.magnitude)
    | inr q ↦
        rw (p.test, q.test, p.magnitude, q.magnitude)
          (elim (Bool-cases (leb (limb_count y) (limb_count x))) [
            | inl e ↦ rw e (
                swapped (negsuc q.below) (negsuc p.below) (logand_negative x y) (
                  negative-ReturnsBits x y hx hy p.below q.below p.magnitude q.magnitude
                    (ground (arith, hx.counted, hy.counted))))
            | inr e ↦ rw e (
                negative-ReturnsBits y x hy hx q.below p.below q.magnitude p.magnitude
                  (ground (arith, hx.counted, hy.counted)))
          ])
  ]
]
  where
    swapped : (a b : ℤ) (r : Result Obj) → ReturnsBits r (and_of a b) → ReturnsBits r (and_of b a)
    swapped a b r h =
        ReturnsBits-map r (and_of a b) (and_of b a) (λ i. and_bit_comm (testbit a i) (testbit b i))
          h

-- If neither of two bignums in normal form is negative and the limbs in common hold the greatest
-- fixnum, a bignum of one limb is returned, which is not in normal form.
pub ikrt_bnbnlogand-not_normal :
    (x y : Bignum)
    → IsBignum x
    → IsBignum y
    → CommonFixnum x y
    → let b : Bignum = record { fst = header 0 1; limbs = most_positive_fixnum ∷ [] } in
      (ikrt_bnbnlogand x y ≡ ok (bignum b)) × (¬ IsBignum b)
unfolding ikrt_bnbnlogand CommonFixnum logand_positive
ikrt_bnbnlogand-not_normal x y hx hy h = (
  rw (h.0, h.1, magnitude_limbs-IsBignum x hx, magnitude_limbs-IsBignum y hy)
      (kept_unnormalised (zip_limbs bit_and x.limbs y.limbs) h.2),
  λ n. absurd (omega (arith, n.big)),
)
