-- ===== src/Bitwise/And.antt =====
-- What the loops of `ikrt_bnbnlogand` leave where an operand is negative.
pub mod Laws
pub mod Fixnum
pub mod Positive
use ikarus.Base.{
  ℕ, suc, ◌+◌, ◌-◌, ◌*◌, ◌≤◌, ◌<◌, ◌≡◌, refl, sym, ap, ap₂, ◌∙◌, arith, List, [], ◌∷◌, ◌++◌, length,
  replicate, leb, Bool-cases, ◌⊎◌, inl, inr,
}
use ikarus.Base.Int.{ℤ, pos, negsuc}
use ikarus.Bignum.Valid.{IsBignum}
use ikarus.Bignum.{Bignum, bignum, normalize_bignum, to_int, nonnegative}
use ikarus.Bits.Values.{testbit}
use ikarus.Bits.Words.{bit, bit-bit_and}
use ikarus.Bitwise.Combine.{
  and_bit, one_and_bit, combined, bit_pos, ones_above, zeros_above, bit_and-word,
}
use ikarus.Bitwise.Limbwise.{
  logand-zip, length-zip, length-zip_le, zip-IsLimbs, over-IsLimbs, length-over, over_nil,
}
use ikarus.Bitwise.Operand.{IsNegative, signs, magnitude_limbs-IsBignum}
use ikarus.Bitwise.Twos.{
  IsTwos, whole-IsTwos, complement-IsTwos, ReturnsBits, positive-ReturnsBits, negative-ReturnsBits,
}
use ikarus.Bitwise.{
  bits_compliment2, bits_compliment_logand, over, zip_limbs, logand_negative, logand_mixed,
  ikrt_bnbnlogand,
}
use ikarus.Limbs.{value, IsLimbs}
use ikarus.Shift.{bits_compliment_with_carry}
use Prim.Native.Nat.{bit_and, bit_or}

-- Limbs of two negative numbers, the first no shorter.
pub logand_negative-limbs :
    (xs ys : List ℕ) (a b : ℕ)
    → IsLimbs xs
    → IsLimbs ys
    → value xs ≡ suc a
    → value ys ≡ suc b
    → length ys ≤ length xs
    → let n = length xs + 1 in
      let s = bits_compliment2 xs n in
      ReturnsBits
        (normalize_bignum n 8 (bits_compliment2 (over (bits_compliment_logand 1 ys s) s) n))
        (λ i. and_bit (testbit (negsuc b) i) (testbit (negsuc a) i))
logand_negative-limbs xs ys a b hx hy va vb le =
    let n = length xs + 1 in
    let s = bits_compliment2 xs n in
    let c = bits_compliment_with_carry 1 ys in
    let ts = complement-IsTwos xs n a hx (omega arith) va in
    let tc = whole-IsTwos ys b hy vb in
    let r = over (zip_limbs bit_and c s) s in
    let at : (i : ℕ)
        → i < 64 * n
        → bit (value r) i ≡ and_bit (testbit (negsuc b) i) (testbit (negsuc a) i) =
      λ i lt.
        combined bit_and and_bit bit-bit_and bit_and-word c s s (testbit (negsuc b))
          (testbit (negsuc a)) n i tc.limbs ts.limbs ts.limbs
          (λ j l. tc.bits j (omega (arith, l, tc.size)))
          (λ j l. ts.bits j (omega (arith, l, ts.size)))
          (λ j l h.
            ts.bits j l ∙ one_and_bit (testbit (negsuc b) j) (testbit (negsuc a) j) (high j l h))
          lt in
    let len : length r ≡ n =
      length-over (zip_limbs bit_and c s) s
        (omega (arith, length-zip bit_and c s (omega (arith, tc.size, ts.size)), tc.size, ts.size))
      ∙ ts.size in
    rw (logand-zip 1 ys s) (
      negative-ReturnsBits n r _
        (over-IsLimbs (zip_limbs bit_and c s) s
          (zip-IsLimbs bit_and bit_and-word c s tc.limbs ts.limbs) ts.limbs)
        len
        (bit_pos (value r) (64 * length xs)
          (at (64 * length xs) (omega arith) ∙ both (64 * length xs) (omega arith)))
        at (λ i l. both i (omega (arith, l))))
  where
    high :
        (j : ℕ)
        → j < 64 * (length xs + 1)
        → (64 * length (bits_compliment_with_carry 1 ys) ≤ j)
          ⊎ (64 * length (bits_compliment2 xs (length xs + 1)) ≤ j)
        → testbit (negsuc b) j ≡ 1
    high j l h = ones_above ys b j hy vb (elim h [
      | inl k ↦ omega (arith, k, (whole-IsTwos ys b hy vb).size)
      | inr k ↦
          absurd
            (omega (arith, k, l, (complement-IsTwos xs (length xs + 1) a hx (omega arith) va).size))
    ])

    both : (i : ℕ) → 64 * length xs ≤ i → and_bit (testbit (negsuc b) i) (testbit (negsuc a) i) ≡ 1
    both i l = ap₂ and_bit (ones_above ys b i hy vb (omega arith)) (ones_above xs a i hx va l)

-- Limbs of a number that is not negative and of one that is.
module _ (xs ys : List ℕ) (b : ℕ) (hx : IsLimbs xs) (hy : IsLimbs ys) (vb : value ys ≡ suc b)
    (keep : List ℕ) where
  abbrev c : List ℕ
  c = bits_compliment_with_carry 1 ys

  tc : IsTwos (negsuc b) (length ys) c
  tc = whole-IsTwos ys b hy vb

  pub logand_mixed-limbs :
      IsLimbs keep
      → length (over (zip_limbs bit_and c xs) keep) ≡ length xs
      → ((j : ℕ) → j < 64 * length xs → 64 * length ys ≤ j → bit (value keep) j ≡ bit (value xs) j)
      → ReturnsBits
          (normalize_bignum (length xs) 0 (over (bits_compliment_logand 1 ys xs) keep))
          (λ i. and_bit (testbit (negsuc b) i) (bit (value xs) i))
  logand_mixed-limbs hk len same = rw (logand-zip 1 ys xs) (
      positive-ReturnsBits (length xs) (over (zip_limbs bit_and c xs) keep) _
        (over-IsLimbs (zip_limbs bit_and c xs) keep
          (zip-IsLimbs bit_and bit_and-word c xs tc.limbs hx) hk)
        len
        (λ i lt.
          combined bit_and and_bit bit-bit_and bit_and-word c xs keep (testbit (negsuc b))
            (bit (value xs)) (length xs) i tc.limbs hx hk
            (λ j l. tc.bits j (omega (arith, l, tc.size))) (λ j l. refl)
            (λ j l h. elim h [
              | inl k ↦
                  let le : 64 * length ys ≤ j = omega (arith, k, tc.size) in
                  same j l le ∙ one_and_bit (testbit (negsuc b) j) _ (ones_above ys b j hy vb le)
              | inr k ↦ absurd (omega (arith, k, l))
            ])
            lt)
        (λ i l. rw (zeros_above xs i hx l) (omega arith)))
