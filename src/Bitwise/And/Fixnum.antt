-- ===== src/Bitwise/And/Fixnum.antt =====
-- `ikrt_fxbnlogand` returns the `and` of a fixnum and a bignum.
use ikarus.Base.{
  ℕ, suc, ◌+◌, ◌*◌, ◌≤◌, ◌<◌, ◌≡◌, refl, sym, ap₂, ◌∙◌, arith, true, false, length, get_or,
  Bool-cases, inl, inr,
}
use ikarus.Base.Int.{ℤ, pos, negsuc, is_neg, eq_ℤ}
use ikarus.Bignum.Valid.{IsBignum, IsBignum-length_pos}
use ikarus.Bignum.{
  Bignum, Obj, Result, ok, word, bignum, to_int, nonnegative, normalize_bignum, verify_bignum,
}
use ikarus.Bits.Values.{testbit, bit_above}
use ikarus.Bits.Words.{bit, bit-bit_and, bit_and-lt}
use ikarus.Bitwise.Combine.{
  and_bit, and_bit_one, one_and_bit, and_bit_comm, bit_pos, ones_above, bit_and-word,
}
use ikarus.Bitwise.First.{
  length-at_first, at_first-IsLimbs, first_combined, first_everywhere, first-ReturnsBits,
}
use ikarus.Bitwise.Operand.{signs, magnitude_limbs-IsBignum}
use ikarus.Bitwise.Twos.{complement-IsTwos, ReturnsBits, ReturnsBits-map, negative-ReturnsBits}
use ikarus.Bitwise.Words.{
  word_bits, high_zeros, high_ones, zeros-ReturnsBits, low_limb_bits, low_complement_bits,
  kept_high, to_word-lt,
}
use ikarus.Bitwise.{bits_compliment2, at_first, negated, ikrt_fxbnlogand}
use ikarus.Limbs.{value, get_or-lt}
use ikarus.Word.{IsFixnum, FitsFixnum, unfix, unfix-FitsFixnum, fix, to_long, to_word, word_mod}
use Prim.Native.Nat.{bit_and}

module _ (n : ℤ) (y : Bignum) (fits : FitsFixnum n) (hy : IsBignum y) where
  -- The fixnum is not negative, and l has the low bits of y.
  low-ReturnsBits :
      (b : ℤ) (l : ℕ)
      → is_neg n ≡ false
      → l < word_mod
      → ((i : ℕ) → i < 64 → bit l i ≡ testbit b i)
      → ReturnsBits
          (ok (word (fix (to_long (bit_and (to_word n) l)))))
          (λ i. and_bit (testbit n i) (testbit b i))
  low-ReturnsBits b l plus lt low =
      zeros-ReturnsBits (bit_and (to_word n) l) _ (bit_and-lt 64 (to_word n) l lt)
        (λ i s. bit-bit_and (to_word n) l i ∙ ap₂ and_bit (word_bits n i fits s) (low i s))
        (λ i le. rw (high_zeros n i fits plus le) (omega arith))

  -- Both are negative.
  negative-limbs :
      (b : ℕ)
      → is_neg n ≡ true
      → value y.limbs ≡ suc b
      → let len = length y.limbs + 1 in
        ReturnsBits
          (normalize_bignum len 8 (
            bits_compliment2
              (at_first (λ d. bit_and d (to_word n)) (bits_compliment2 y.limbs len))
              len))
          (λ i. and_bit (testbit (negsuc b) i) (testbit n i))
  negative-limbs b minus vb =
      let w = to_word n in
      let hw = to_word-lt n in
      let len = length y.limbs + 1 in
      let ds = bits_compliment2 y.limbs len in
      let t = complement-IsTwos y.limbs len b hy.in_words (omega arith) vb in
      let r = at_first (λ d. bit_and d w) ds in
      let above : (i : ℕ)
          → 64 * length y.limbs ≤ i
          → and_bit (testbit (negsuc b) i) (testbit n i) ≡ 1 =
        λ i l.
          ap₂ and_bit (ones_above y.limbs b i hy.in_words vb l)
            (high_ones n i fits minus (omega (arith, l, IsBignum-length_pos y hy))) in
      let at : (i : ℕ)
          → i < 64 * len
          → bit (value r) i ≡ and_bit (testbit (negsuc b) i) (testbit n i) =
        λ i l.
          first_combined bit_and w hw and_bit bit-bit_and bit_and-word ds (testbit (negsuc b))
            (testbit n) len i t.limbs t.size t.bits (λ j s. word_bits n j fits s)
            (λ j s.
              and_bit_one (testbit (negsuc b) j) (testbit n j)
                (high_ones n j fits minus (omega (arith, s))))
            l in
      negative-ReturnsBits len r _
        (at_first-IsLimbs bit_and w hw (λ d l. bit_and-word d w l hw) ds t.limbs)
        (length-at_first bit_and w hw ds ∙ t.size)
        (bit_pos (value r) (64 * length y.limbs)
          (at (64 * length y.limbs) (omega arith) ∙ above (64 * length y.limbs) (omega arith)))
        at (λ i l. above i (omega (arith, l)))

  -- Only the fixnum is negative.
  mixed-limbs :
      is_neg n ≡ true
      → nonnegative y ≡ true
      → ReturnsBits
          (verify_bignum
            (record { fst = y.fst; limbs = at_first (λ d. bit_and d (to_word n)) y.limbs }))
          (λ i. and_bit (testbit (pos (value y.limbs)) i) (testbit n i))
  mixed-limbs minus plus =
      let w = to_word n in
      let hw = to_word-lt n in
      first-ReturnsBits bit_and w hw (λ d l. bit_and-word d w l hw)
        (λ d lt big.
          kept_high d (bit_and d w) lt
            (λ i le l zero.
              and_bit_one (bit d i) (bit w i) (word_bits n i fits l ∙ high_ones n i fits minus le)
              ∙ sym (bit-bit_and d w i)
              ∙ zero)
            big)
        y _ hy plus
        (λ i.
          first_everywhere bit_and w hw and_bit bit-bit_and bit_and-word y.limbs (testbit n) i
            hy.in_words (IsBignum-length_pos y hy) (λ j l. word_bits n j fits l)
            (λ j l.
              and_bit_one (bit (value y.limbs) j) (testbit n j)
                (high_ones n j fits minus (omega (arith, l)))))

-- All ones change nothing.
same-ReturnsBits :
    (n : ℤ) (y : Bignum)
    → IsBignum y
    → eq_ℤ n (negsuc 0) ≡ true
    → ReturnsBits (ok (bignum y)) (λ i. and_bit (testbit n i) (testbit (to_int (bignum y)) i))
same-ReturnsBits (pos n) y hy e = ground arith
same-ReturnsBits (negsuc n) y hy e = record {
  out = bignum y;
  returns = refl;
  normal = hy;
  bits = λ i.
      let none : n ≡ 0 = ground arith in
      one_and_bit (testbit (negsuc n) i) (testbit (to_int (bignum y)) i)
        (omega (arith, bit_above n 0 i (omega (arith, none)) (omega arith)));
}

swapped :
    (a b : ℤ) (r : Result Obj)
    → ReturnsBits r (λ i. and_bit (testbit a i) (testbit b i))
    → ReturnsBits r (λ i. and_bit (testbit b i) (testbit a i))
swapped a b r h = ReturnsBits-map r _ _ (λ i. and_bit_comm (testbit a i) (testbit b i)) h

-- The `and` of a fixnum and a bignum in normal form is returned, in normal form.
pub ikrt_fxbnlogand-ReturnsBits :
    (x : ℕ) (y : Bignum)
    → IsFixnum x
    → IsBignum y
    → ReturnsBits
        (ikrt_fxbnlogand x y)
        (λ i. and_bit (testbit (unfix x) i) (testbit (to_int (bignum y)) i))
unfolding ikrt_fxbnlogand
ikrt_fxbnlogand-ReturnsBits x y hx hy =
    let n = unfix x in
    let fits = unfix-FitsFixnum x hx in
    elim (Bool-cases (is_neg n)) [
      | inl e ↦ elim (Bool-cases (eq_ℤ n (negsuc 0))) [
        | inl f ↦ rw (e, f) (same-ReturnsBits n y hy f)
        | inr f ↦ elim (signs y hy) [
          | inl q ↦
              rw (e, f, q, magnitude_limbs-IsBignum y hy)
                (swapped (pos (value y.limbs)) n _ (mixed-limbs n y fits hy e q))
          | inr q ↦
              rw (e, f, q.test, q.magnitude, magnitude_limbs-IsBignum y hy, hy.counted)
                (swapped (negsuc q.below) n _ (negative-limbs n y fits hy q.below e q.magnitude))
        ]
      ]
      | inr e ↦ elim (signs y hy) [
        | inl q ↦
            rw (e, q)
              (low-ReturnsBits n y fits hy (pos (value y.limbs)) (get_or y.limbs 0 0) e
                (get_or-lt y.limbs 0 hy.in_words) (low_limb_bits y.limbs))
        | inr q ↦
            rw (e, q.test, q.magnitude)
              (low-ReturnsBits n y fits hy (negsuc q.below) (negated (get_or y.limbs 0 0)) e
                (omega arith)
                (λ i l. low_complement_bits y.limbs q.below i hy.in_words q.magnitude l))
      ]
    ]
