-- ===== src/BnBn/Subtract.antt =====
-- The subtraction of the smaller magnitude from the greater, and how the code finds which is which.
use ikarus.Base.{
  ℕ, zero, suc, ◌+◌, ◌-◌, ◌*◌, ◌≤◌, ◌<◌, ◌≡◌, ◌≢◌, refl, ap, arith, List, length, take, get_or, inl,
  inr, ◌==◌, if◌then◌else◌, Bool-cases, take_all, length-take,
}
use ikarus.Bignum.Normalize.{IsSign, normalize_bignum-Returns}
use ikarus.Bignum.Valid.{Returns}
use ikarus.Bignum.{Bignum, with_sign, normalize_bignum, exits, borrow_bug}
use ikarus.BnBn.{sub_magnitudes, skip_equal}
use ikarus.Limbs.{
  value, weight, IsLimbs, IsLimbs-take, value-lt, value-take-suc, weight_mono, weight-le-value_top,
}
use ikarus.Mpn.{Mpn, IsMpn, IsDifference}
use native.Mathlib.Nat.{mul-le-mul_left}

-- The limbs above are equal, and where some are left the one at the top differs.
pub record IsCut (n : ℕ) (xs ys : List ℕ) (k : ℕ) : Type 0 where
  pub le : k ≤ n
  pub same : value (take n xs) + value (take k ys) ≡ value (take n ys) + value (take k xs)
  pub differ : 0 < k → get_or xs (k - 1) 0 ≢ get_or ys (k - 1) 0

pub skip_equal-IsCut :
    (n : ℕ) (xs ys : List ℕ) → n ≤ length xs → n ≤ length ys → IsCut n xs ys (skip_equal n xs ys)
unfolding skip_equal
skip_equal-IsCut zero xs ys hx hy = record { le = omega arith; same = refl; differ = omega arith }
skip_equal-IsCut (suc n) xs ys hx hy =
    let rest = skip_equal-IsCut n xs ys (omega arith) (omega arith) in
    elim (Bool-cases (get_or xs n 0 == get_or ys n 0)) [
      | inl e ↦
          let top : get_or xs n 0 ≡ get_or ys n 0 = ground arith in
          rw e (record {
            le = omega (arith, rest.le);
            same = omega (
              arith,
              rest.same,
              value-take-suc n xs hx,
              value-take-suc n ys hy,
              ap (λ t. weight n * t) top,
            );
            differ = rest.differ;
          })
      | inr e ↦ rw e (record { le = omega arith; same = omega arith; differ = λ p. ground arith })
    ]

-- A greater limb at the top makes a greater number.
pub take_lt :
    (n : ℕ) (xs ys : List ℕ)
    → IsLimbs xs
    → n < length xs
    → n < length ys
    → get_or xs n 0 < get_or ys n 0
    → value (take (suc n) xs) < value (take (suc n) ys)
take_lt n xs ys limbs hx hy top = omega (
  arith,
  value-take-suc n xs hx,
  value-take-suc n ys hy,
  value-lt (take n xs) (IsLimbs-take n xs limbs),
  ap weight (length-take n xs (omega arith)),
  mul-le-mul_left (weight n) top,
)

-- A number with fewer limbs is smaller.
pub shorter_lt :
    (xs ys : List ℕ)
    → IsLimbs xs
    → length xs < length ys
    → 0 < get_or ys (length ys - 1) 0
    → value xs < value ys
shorter_lt xs ys limbs shorter top = omega (
  arith,
  value-lt xs limbs,
  weight_mono (length xs) (length ys - 1) (omega arith),
  weight-le-value_top ys top,
)

-- What is made of the limbs of a difference that does not borrow.
no_borrow-Returns :
    (sign n a b : ℕ) (r : List ℕ × ℕ)
    → IsSign sign
    → IsDifference n a b r
    → a < weight n
    → b ≤ a
    → Returns
        (if r.1 == 0 then normalize_bignum n sign r.0 else exits borrow_bug)
        (with_sign sign (a - b))
no_borrow-Returns sign n a b (r, zero) s d lt le =
    let same : value (take n r) ≡ a - b =
      rw (← d.size) (rw (take_all r) (omega (arith, d.difference))) in
    rw (← same) (normalize_bignum-Returns n sign r s d.limbs (omega (arith, d.size)))
no_borrow-Returns sign n a b (r, suc c) s d lt le = absurd (borrows c d.borrow d.difference)
  where
    borrows : (e : ℕ) → suc e ≤ 1 → value r + b ≡ a + weight n * suc e → ⊥
    borrows zero h e = omega (arith, value-lt r d.limbs, ap weight d.size)
    borrows (suc e) h f = omega arith

pub sub_magnitudes-Returns :
    (m : Mpn) (sign n k : ℕ) (x y : Bignum)
    → IsMpn m
    → IsSign sign
    → IsLimbs x.limbs
    → IsLimbs y.limbs
    → n ≤ length x.limbs
    → k ≤ length y.limbs
    → k ≤ n
    → 0 < k
    → value (take k y.limbs) ≤ value (take n x.limbs)
    → Returns
        (sub_magnitudes m sign n x k y)
        (with_sign sign (value (take n x.limbs) - value (take k y.limbs)))
unfolding sub_magnitudes
sub_magnitudes-Returns m sign n k x y laws s lx ly hx hy le positive smaller =
    let a = take n x.limbs in
    let b = take k y.limbs in
    let len : length a ≡ n = length-take n x.limbs hx in
    let limbs = IsLimbs-take n x.limbs lx in
    no_borrow-Returns sign n (value a) (value b) _ s
      (rw len at (
        laws.sub_lem a b limbs (IsLimbs-take k y.limbs ly)
          (omega (arith, len, length-take k y.limbs hy)) (omega (arith, length-take k y.limbs hy))))
      (rw len at (value-lt a limbs)) smaller
