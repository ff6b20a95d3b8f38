-- ===== src/Bitwise/Or/Laws.antt =====
-- `ikrt_bnbnlogor` returns the `or` of its operands.
use ikarus.Base.{
  ℕ, suc, ◌≤◌, ◌≡◌, refl, sym, ap, ◌∙◌, arith, true, List, length, take, leb, ltb, ◌==◌, Bool-cases,
  inl, inr,
}
use ikarus.Base.Int.{ℤ, pos, negsuc}
use ikarus.Bignum.Valid.{IsBignum}
use ikarus.Bignum.{Bignum, Result, Obj, bignum, to_int, limb_count, normalize_bignum}
use ikarus.Bits.Values.{testbit}
use ikarus.Bits.Words.{bit}
use ikarus.Bitwise.Combine.{or_bit, or_bit_comm, or_bit_zero, zeros_above}
use ikarus.Bitwise.Limbwise.{zip-take, logor-zip, length-logor}
use ikarus.Bitwise.Operand.{signs, magnitude_limbs-IsBignum}
use ikarus.Bitwise.Or.{logor_ones-limbs, logor_positive-limbs}
use ikarus.Bitwise.Twos.{ReturnsBits, ReturnsBits-map, complement-IsTwos, whole_complement}
use ikarus.Bitwise.{
  bits_compliment2, bits_compliment_logor, over, zip_limbs, logor_negative, logor_mixed,
  logor_positive, ikrt_bnbnlogor,
}
use ikarus.Limbs.{value}
use ikarus.Shift.Complement.{length-complement}
use ikarus.Shift.{bits_compliment_with_carry, bits_compliment}
use Prim.Native.Nat.{bit_or}

abbrev or_of : ℤ → ℤ → ℕ → ℕ
or_of a b i = or_bit (testbit a i) (testbit b i)

swapped : (a b : ℤ) (r : Result Obj) → ReturnsBits r (or_of a b) → ReturnsBits r (or_of b a)
swapped a b r h =
    ReturnsBits-map r (or_of a b) (or_of b a) (λ i. or_bit_comm (testbit a i) (testbit b i)) h

-- Only as many limbs as the complement has are read.
logor-take :
    (ds xs : List ℕ)
    → bits_compliment_logor 1 ds (take (length ds) xs) ≡ bits_compliment_logor 1 ds xs
logor-take ds xs =
    let c = bits_compliment_with_carry 1 ds in
    let size = length-complement ds 1 in
    rw (logor-zip 1 ds (take (length ds) xs), logor-zip 1 ds xs, ← size, zip-take bit_or c xs) refl

module _ (x y : Bignum) (hx : IsBignum x) (hy : IsBignum y) where
  -- Both are negative.
  negative-ReturnsBits :
      (a b : ℕ)
      → value x.limbs ≡ suc a
      → value y.limbs ≡ suc b
      → length y.limbs ≤ length x.limbs
      → ReturnsBits (logor_negative x y) (or_of (negsuc a) (negsuc b))
  unfolding logor_negative
  negative-ReturnsBits a b va vb le =
      let n = length x.limbs in
      let s = bits_compliment2 y.limbs n in
      let t = complement-IsTwos y.limbs n b hy.in_words le vb in
      rw (magnitude_limbs-IsBignum x hx, magnitude_limbs-IsBignum y hy, hx.counted)
        (logor_ones-limbs x.limbs s a (testbit (negsuc b)) hx.in_words t.limbs va
          (λ j l. t.bits j (omega (arith, l, t.size)))
          (λ j l h. absurd (omega (arith, l, h, t.size))))

  -- y is negative.
  mixed-limbs :
      (b : ℕ)
      → value y.limbs ≡ suc b
      → ReturnsBits
          (normalize_bignum
            (length y.limbs)
            8
            (bits_compliment2 (bits_compliment_logor 1 y.limbs x.limbs) (length y.limbs)))
          (or_of (negsuc b) (pos (value x.limbs)))
  mixed-limbs b vb =
      logor_ones-limbs y.limbs x.limbs b (bit (value x.limbs)) hy.in_words hx.in_words vb
        (λ j l. refl) (λ j l h. zeros_above x.limbs j hx.in_words h)

  mixed-ReturnsBits :
      (b : ℕ)
      → value y.limbs ≡ suc b
      → ReturnsBits (logor_mixed x y) (or_of (negsuc b) (pos (value x.limbs)))
  unfolding logor_mixed bits_compliment
  mixed-ReturnsBits b vb =
      let done = mixed-limbs b vb in
      let r = bits_compliment_logor 1 y.limbs x.limbs in
      rw (magnitude_limbs-IsBignum x hx, magnitude_limbs-IsBignum y hy, hx.counted, hy.counted)
        (elim (Bool-cases (leb (length y.limbs) (length x.limbs))) [
          | inl e ↦ rw (e, logor-take y.limbs x.limbs) done
          | inr e ↦
              let size = length-logor 1 y.limbs x.limbs in
              let whole = ap (λ n. bits_compliment2 r n) (sym size) ∙ whole_complement r in
              rw e (rw whole at done)
        ])

  -- Neither is negative, and the limbs of x or of y are kept.
  kept_x :
      length y.limbs ≤ length x.limbs
      → ReturnsBits
          (normalize_bignum (length x.limbs) 0 (over (zip_limbs bit_or x.limbs y.limbs) x.limbs))
          (or_of (pos (value x.limbs)) (pos (value y.limbs)))
  kept_x le =
      logor_positive-limbs x.limbs y.limbs x.limbs hx.in_words hy.in_words hx.in_words (omega arith)
        le
        (λ j l h. or_bit_zero (bit (value x.limbs) j) (bit (value y.limbs) j) (elim h [
          | inl k ↦ absurd (omega (arith, k, l))
          | inr k ↦ zeros_above y.limbs j hy.in_words k
        ]))

  kept_y :
      length x.limbs ≤ length y.limbs
      → ReturnsBits
          (normalize_bignum (length y.limbs) 0 (over (zip_limbs bit_or x.limbs y.limbs) y.limbs))
          (or_of (pos (value x.limbs)) (pos (value y.limbs)))
  kept_y le =
      logor_positive-limbs x.limbs y.limbs y.limbs hx.in_words hy.in_words hy.in_words le
        (omega arith)
        (λ j l h.
          or_bit_zero (bit (value y.limbs) j) (bit (value x.limbs) j) (elim h [
            | inl k ↦ zeros_above x.limbs j hx.in_words k
            | inr k ↦ absurd (omega (arith, k, l))
          ])
          ∙ or_bit_comm (bit (value y.limbs) j) (bit (value x.limbs) j))

  positive-ReturnsBits :
      ReturnsBits (logor_positive x y) (or_of (pos (value x.limbs)) (pos (value y.limbs)))
  unfolding logor_positive
  positive-ReturnsBits =
      let xs = x.limbs in
      let ys = y.limbs in
      rw (magnitude_limbs-IsBignum x hx, magnitude_limbs-IsBignum y hy, hx.counted, hy.counted)
        (elim (Bool-cases (ltb (length ys) (length xs))) [
          | inl e ↦
              let same : (length xs == length xs) ≡ true = ground arith in
              rw (e, same) (kept_x (ground arith))
          | inr e ↦ elim (Bool-cases (length ys == length xs)) [
            | inl f ↦
                let same : length ys ≡ length xs = ground arith in
                rw (e, f, same) (kept_x (omega (arith, same)))
            | inr f ↦ rw (e, f) (kept_y (ground arith))
          ]
        ])

-- The `or` of two bignums in normal form is returned, in normal form.
pub ikrt_bnbnlogor-ReturnsBits :
    (x y : Bignum)
    → IsBignum x
    → IsBignum y
    → ReturnsBits
        (ikrt_bnbnlogor x y)
        (λ i. or_bit (testbit (to_int (bignum x)) i) (testbit (to_int (bignum y)) i))
unfolding ikrt_bnbnlogor
ikrt_bnbnlogor-ReturnsBits x y hx hy = elim (signs x hx) [
  | inl p ↦ elim (signs y hy) [
    | inl q ↦ rw (p, q) (positive-ReturnsBits x y hx hy)
    | inr q ↦
        rw (p, q.test, q.magnitude)
          (swapped (negsuc q.below) (pos (value x.limbs)) (logor_mixed x y)
            (mixed-ReturnsBits x y hx hy q.below q.magnitude))
  ]
  | inr p ↦ elim (signs y hy) [
    | inl q ↦ rw (p.test, q, p.magnitude) (mixed-ReturnsBits y x hy hx p.below p.magnitude)
    | inr q ↦
        rw (p.test, q.test, p.magnitude, q.magnitude)
          (elim (Bool-cases (leb (limb_count y) (limb_count x))) [
            | inl e ↦ rw e (
                negative-ReturnsBits x y hx hy p.below q.below p.magnitude q.magnitude
                  (ground (arith, hx.counted, hy.counted)))
            | inr e ↦ rw e (
                swapped (negsuc q.below) (negsuc p.below) (logor_negative y x) (
                  negative-ReturnsBits y x hy hx q.below p.below q.magnitude p.magnitude
                    (ground (arith, hx.counted, hy.counted))))
          ])
  ]
]
