-- ===== src/Bitwise/Or.antt =====
-- What the loops of `ikrt_bnbnlogor` leave.
pub mod Laws
pub mod Fixnum
use ikarus.Base.{
  ℕ, suc, ◌+◌, ◌-◌, ◌*◌, ◌≤◌, ◌<◌, ◌≡◌, refl, sym, ap, ◌∙◌, arith, List, length, ◌⊎◌, inl, inr,
}
use ikarus.Base.Int.{pos, negsuc}
use ikarus.Bignum.{normalize_bignum}
use ikarus.Bits.Values.{testbit}
use ikarus.Bits.Words.{bit, bit-le, bit-bit_or}
use ikarus.Bitwise.Combine.{
  or_bit, or_bit_zero, or_bit_one, bit-le-or_bit, combined, kept_pos, ones_above, zeros_above,
  bit_or-word,
}
use ikarus.Bitwise.Limbwise.{logor-zip, length-zip_first, zip-IsLimbs, over-IsLimbs, length-over}
use ikarus.Bitwise.Twos.{whole-IsTwos, ReturnsBits, positive-ReturnsBits, negative-ReturnsBits}
use ikarus.Bitwise.{bits_compliment2, bits_compliment_logor, over, zip_limbs}
use ikarus.Limbs.{value, IsLimbs, value-lt}
use ikarus.Shift.Complement.{value-complement_carry}
use ikarus.Shift.{bits_compliment_with_carry}
use Prim.Native.Nat.{bit_or}

-- The complement of limbs, with limbs that have the bits q, is the magnitude of a negative number.
module _ (ds zs : List ℕ) (a : ℕ) (q : ℕ → ℕ) (hd : IsLimbs ds) (hz : IsLimbs zs)
    (va : value ds ≡ suc a) (bits : (j : ℕ) → j < 64 * length zs → bit (value zs) j ≡ q j)
    (above : (j : ℕ) → j < 64 * length ds → 64 * length zs ≤ j → q j ≡ 0) where
  abbrev c : List ℕ
  c = bits_compliment_with_carry 1 ds

  abbrev r : List ℕ
  r = over (zip_limbs bit_or c zs) c

  r_bits : (i : ℕ) → i < 64 * length ds → bit (value r) i ≡ or_bit (testbit (negsuc a) i) (q i)
  r_bits i lt =
      let tc = whole-IsTwos ds a hd va in
      combined bit_or or_bit bit-bit_or bit_or-word c zs c (testbit (negsuc a)) q (length ds) i
        tc.limbs hz tc.limbs (λ j l. tc.bits j (omega (arith, l, tc.size))) bits
        (λ j l h.
          tc.bits j l
          ∙ or_bit_zero (testbit (negsuc a) j) (q j)
              (elim h [ inl k ↦ absurd (omega (arith, k, l, tc.size)) | inr k ↦ above j l k ]))
        lt

  r_pos : 0 < value r
  r_pos =
      let tc = whole-IsTwos ds a hd va in
      kept_pos c r tc.limbs
        (omega (arith, value-complement_carry ds hd (omega (arith, va)), value-lt ds hd))
        (λ i lt.
          let l : i < 64 * length ds = omega (arith, lt, tc.size) in
          omega (
            arith,
            r_bits i l,
            tc.bits i l,
            bit-le (value c) i,
            bit-le-or_bit (testbit (negsuc a) i) (q i) (omega arith),
          ))

  pub logor_ones-limbs :
      ReturnsBits
        (normalize_bignum
          (length ds)
          8
          (bits_compliment2 (bits_compliment_logor 1 ds zs) (length ds)))
        (λ i. or_bit (testbit (negsuc a) i) (q i))
  logor_ones-limbs =
      let tc = whole-IsTwos ds a hd va in
      let z = zip_limbs bit_or c zs in
      rw (logor-zip 1 ds zs) (
        negative-ReturnsBits (length ds) r _
          (over-IsLimbs z c (zip-IsLimbs bit_or bit_or-word c zs tc.limbs hz) tc.limbs)
          (length-over z c (length-zip_first bit_or c zs) ∙ tc.size) r_pos r_bits
          (λ i l. or_bit_one (testbit (negsuc a) i) (q i) (ones_above ds a i hd va l)))

-- Limbs of two numbers that are not negative, with those of the longer one.
pub logor_positive-limbs :
    (xs ys zs : List ℕ)
    → IsLimbs xs
    → IsLimbs ys
    → IsLimbs zs
    → length xs ≤ length zs
    → length ys ≤ length zs
    → ((j : ℕ)
        → j < 64 * length zs
        → (64 * length xs ≤ j) ⊎ (64 * length ys ≤ j)
        → bit (value zs) j ≡ or_bit (bit (value xs) j) (bit (value ys) j))
    → ReturnsBits
        (normalize_bignum (length zs) 0 (over (zip_limbs bit_or xs ys) zs))
        (λ i. or_bit (bit (value xs) i) (bit (value ys) i))
logor_positive-limbs xs ys zs hx hy hz lx ly above =
    let z = zip_limbs bit_or xs ys in
    positive-ReturnsBits (length zs) (over z zs) _
      (over-IsLimbs z zs (zip-IsLimbs bit_or bit_or-word xs ys hx hy) hz)
      (length-over z zs (omega (arith, length-zip_first bit_or xs ys)))
      (λ i lt.
        combined bit_or or_bit bit-bit_or bit_or-word xs ys zs (bit (value xs)) (bit (value ys))
          (length zs) i hx hy hz (λ j l. refl) (λ j l. refl) above lt)
      (λ i l.
        rw (zeros_above xs i hx (omega (arith, l)), zeros_above ys i hy (omega (arith, l)))
          (omega arith))
