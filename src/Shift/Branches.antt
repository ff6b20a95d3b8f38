-- ===== src/Shift/Branches.antt =====
-- The branches of `ikrt_bignum_shift_right`.
use ikarus.Base.{
  ℕ, suc, ◌+◌, ◌-◌, ◌/◌, ◌%◌, ◌^◌, ◌≤◌, ◌<◌, ◌≡◌, refl, ap, arith, List, length, get_or, take, drop,
  length-take, length-drop, inl, inr, ◌==◌, leb, Bool-cases, if◌then◌else◌,
}
use ikarus.Bignum.Normalize.{zero-Returns}
use ikarus.Bignum.Valid.{Returns}
use ikarus.Bignum.{ok, word, with_sign, normalize_bignum}
use ikarus.Limbs.{
  value, weight, IsLimbs, value-take-drop, value-lt, weight_mono, weight_pos, weight-le-value_top,
  IsLimbs-take, IsLimbs-drop,
}
use ikarus.Shift.Right.{
  value-copy_right, length-copy_right, copy_right-IsLimbs, value-drop, div-pow_split, weight-le-pow,
}
use ikarus.Shift.Complement.{value-complement_rounded}
use ikarus.Shift.Rounding.{limbs-Returns, round_whole, round_rest}
use ikarus.Shift.{copy_bits_shifting_right, bits_compliment_with_carry, bits_carry}
use native.Mathlib.Nat.{div-eq_of_lt}

pub none_left :
    (m a : ℕ) (xs : List ℕ) → IsLimbs xs → length xs ≤ m / 64 → a ≤ value xs → a / 2 ^ m ≡ 0
none_left m a xs limbs le small =
    div-eq_of_lt
      (omega (arith, value-lt xs limbs, weight_mono (length xs) (m / 64) le, weight-le-pow m))

pub length-kept : (w : ℕ) (xs : List ℕ) → w ≤ length xs → length (drop w xs) ≡ length xs - w
length-kept w xs h = omega (arith, length-drop w xs h)

pub whole-div : (m a : ℕ) → m % 64 ≡ 0 → a / weight (m / 64) ≡ a / 2 ^ m
whole-div m a z = omega (arith, rw z at (div-pow_split m a))

-- The branches for a number that is not negative.
pub nonnegative-Returns :
    (m : ℕ) (xs : List ℕ)
    → IsLimbs xs
    → Returns
        (if leb (length xs) (m / 64)
          then ok (word 0)
          else if m % 64 == 0
          then normalize_bignum (length xs - m / 64) 0 (drop (m / 64) xs)
          else normalize_bignum
              (length xs - m / 64)
              0
              (copy_bits_shifting_right (m % 64) (drop (m / 64) xs)))
        (with_sign 0 (value xs / 2 ^ m))
nonnegative-Returns m xs limbs =
    let kept = IsLimbs-drop (m / 64) xs limbs in
    elim (Bool-cases (leb (length xs) (m / 64))) [
      | inl e ↦
          rw (e, none_left m (value xs) xs limbs (ground arith) (omega arith)) (zero-Returns 0)
      | inr e ↦
          let le : m / 64 ≤ length xs = ground arith in
          elim (Bool-cases (m % 64 == 0)) [
            | inl z ↦
                rw (e, z)
                  (limbs-Returns _ 0 _ _ (inl refl) kept (length-kept (m / 64) xs le)
                    (rw (value-drop (m / 64) xs limbs le) (whole-div m (value xs) (ground arith))))
            | inr z ↦
                rw (e, z)
                  (limbs-Returns _ 0 _ _ (inl refl)
                    (copy_right-IsLimbs (m % 64) (drop (m / 64) xs) (omega arith) kept)
                    (rw (length-copy_right (m % 64) (drop (m / 64) xs) (omega arith))
                      (length-kept (m / 64) xs le))
                    (rw
                      (
                        value-copy_right (m % 64) (drop (m / 64) xs) (omega arith),
                        value-drop (m / 64) xs limbs le,
                      )
                      (div-pow_split m (value xs))))
          ]
    ]

-- The complement that a shift of a negative number starts from.
abbrev pub start : ℕ → List ℕ → List ℕ
start m xs = bits_compliment_with_carry (bits_carry (take (m / 64) xs)) (drop (m / 64) xs)

-- The magnitude without the limbs that go, rounded up.
pub record IsRounded (m a : ℕ) (xs : List ℕ) : Type 0 where
  pub exact : value (take (m / 64) xs) ≡ 0 → suc (a / weight (m / 64)) ≡ value (drop (m / 64) xs)
  pub rest : 0 < value (take (m / 64) xs) → suc (a / weight (m / 64)) ≡ value (drop (m / 64) xs) + 1

pub rounded :
    (m a : ℕ) (xs : List ℕ) → IsLimbs xs → m / 64 < length xs → value xs ≡ suc a → IsRounded m a xs
rounded m a xs limbs le e =
    let w = m / 64 in
    let parts = value-take-drop w xs (omega arith) in
    let low : value (take w xs) < weight w = omega (
      arith,
      value-lt (take w xs) (IsLimbs-take w xs limbs),
      ap weight (length-take w xs (omega arith)),
    ) in
    record {
      exact = λ z. omega (
        arith,
        round_whole (weight w) (value (drop w xs)) a (weight_pos w) (omega (arith, z, e, parts)),
      );
      rest = λ z. omega (
        arith,
        round_rest (weight w) (value (take w xs) - 1) (value (drop w xs)) a (omega (arith, low))
            (omega (arith, z, e, parts)),
      );
    }

pub value-start :
    (m a : ℕ) (xs : List ℕ)
    → IsLimbs xs
    → m / 64 < length xs
    → 0 < value (drop (m / 64) xs)
    → value xs ≡ suc a
    → value (start m xs) + suc (a / weight (m / 64)) ≡ weight (length xs - m / 64)
value-start m a xs limbs le some e =
    let w = m / 64 in
    let r = rounded m a xs limbs le e in
    omega (
      arith,
      value-complement_rounded (take w xs) (drop w xs) (suc (a / weight w))
          (IsLimbs-drop w xs limbs) some r.exact r.rest,
      ap weight (length-kept w xs (omega arith)),
    )

-- The limbs that stay hold the top limb.
pub kept_pos :
    (w : ℕ) (xs : List ℕ)
    → IsLimbs xs
    → w < length xs
    → 0 < get_or xs (length xs - 1) 0
    → 0 < value (drop w xs)
kept_pos w xs limbs le top = elim (Bool-cases (value (drop w xs) == 0)) [
  | inl e ↦
      let none : value (drop w xs) ≡ 0 = ground arith in
      let parts = rw none at (value-take-drop w xs (omega arith)) in
      absurd (
        omega (
          arith,
          parts,
          value-lt (take w xs) (IsLimbs-take w xs limbs),
          ap weight (length-take w xs (omega arith)),
          weight_mono w (length xs - 1) (omega arith),
          weight-le-value_top xs top,
        ))
  | inr e ↦ ground arith
]
