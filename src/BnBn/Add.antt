-- ===== src/BnBn/Add.antt =====
-- The addition of two magnitudes, the one with more limbs first.
use ikarus.Base.{
  ℕ, zero, suc, ◌+◌, ◌*◌, ◌≤◌, ◌<◌, ◌≡◌, refl, ap, arith, List, [], ◌∷◌, ◌++◌, length, set, ◌==◌,
  if◌then◌else◌, take_all, set-append_last,
}
use ikarus.Bignum.Normalize.{IsSign}
use ikarus.Bignum.Valid.{Returns, IsBignum, IsBignum-length_pos}
use ikarus.Bignum.{Bignum, with_sign, most_fixnum, header, verify_bignum}
use ikarus.BnBn.{add_magnitudes}
use ikarus.FxBn.Steps.{carry-Returns}
use ikarus.Limbs.{value, value-lt, weight, weight-le-value_top}
use ikarus.Mpn.{Mpn, IsMpn, IsSum}

-- The carry is stored above the sum.
carry_place :
    (sign n junk : ℕ) (r : List ℕ × ℕ)
    → length r.0 ≡ n
    → (if r.1 == 0
        then verify_bignum (record { fst = header sign n; limbs = r.0 })
        else verify_bignum
            (record { fst = header sign (n + 1); limbs = set (r.0 ++ junk ∷ []) n 1 }))
      ≡ (if r.1 == 0
          then verify_bignum (record { fst = header sign n; limbs = r.0 })
          else verify_bignum (record { fst = header sign (n + 1); limbs = r.0 ++ 1 ∷ [] }))
carry_place sign n junk r len = rw (← len, set-append_last)

-- Where the sum fits, the place of the carry does not matter.
no_carry : (n v : ℕ) (r : List ℕ × ℕ) → IsSum n v r → v < weight n → r.1 ≡ 0
no_carry n v (r, zero) p lt = refl
no_carry n v (r, suc c) p lt = absurd (omega (arith, p.sum, weight-le-mul n c))
  where
    weight-le-mul : (k c : ℕ) → weight k ≤ weight k * suc c
    weight-le-mul k c = grind arith

pub carry_one : (n v : ℕ) (r : List ℕ × ℕ) → IsSum n v r → weight n ≤ v → r.1 ≡ 1
carry_one n v (r, zero) p le = absurd (omega (arith, p.sum, value-lt r p.limbs, ap weight p.size))
carry_one n v (r, suc zero) p le = refl
carry_one n v (r, suc (suc c)) p le = absurd (omega (arith, p.carry))

module _ (m : Mpn) (laws : IsMpn m) (sign : ℕ) (s : IsSign sign) where
  -- With the carry stored above the sum the sum of the magnitudes is returned.
  pub add_magnitudes-Returns :
      (junk : ℕ) (x y : Bignum)
      → IsBignum x
      → IsBignum y
      → length y.limbs ≤ length x.limbs
      → most_fixnum sign < value x.limbs + value y.limbs
      → Returns
          (add_magnitudes m junk (length x.limbs) sign (length x.limbs) x (length y.limbs) y)
          (with_sign sign (value x.limbs + value y.limbs))
  unfolding add_magnitudes
  add_magnitudes-Returns junk x y hx hy le big =
      let sum =
        laws.add_lem x.limbs y.limbs hx.in_words hy.in_words le (IsBignum-length_pos y hy) in
      rw
        (
          take_all x.limbs,
          take_all y.limbs,
          carry_place sign (length x.limbs) junk (m.add x.limbs y.limbs) sum.size,
        )
        (carry-Returns sign (length x.limbs) (value x.limbs + value y.limbs) _ s sum
          (IsBignum-length_pos x hx) (omega (arith, weight-le-value_top x.limbs hx.trimmed)) big)

  pub add_magnitudes-Returns_fits :
      (junk place : ℕ) (x y : Bignum)
      → IsBignum x
      → IsBignum y
      → length y.limbs ≤ length x.limbs
      → most_fixnum sign < value x.limbs + value y.limbs
      → value x.limbs + value y.limbs < weight (length x.limbs)
      → Returns
          (add_magnitudes m junk place sign (length x.limbs) x (length y.limbs) y)
          (with_sign sign (value x.limbs + value y.limbs))
  unfolding add_magnitudes
  add_magnitudes-Returns_fits junk place x y hx hy le big fits =
      let n = length x.limbs in
      let r = m.add x.limbs y.limbs in
      let sum =
        laws.add_lem x.limbs y.limbs hx.in_words hy.in_words le (IsBignum-length_pos y hy) in
      let none = no_carry n (value x.limbs + value y.limbs) r sum fits in
      rw (take_all x.limbs, take_all y.limbs, none)
        (rw none at (
          carry-Returns sign n (value x.limbs + value y.limbs) r s sum (IsBignum-length_pos x hx)
            (omega (arith, weight-le-value_top x.limbs hx.trimmed)) big))
