-- ===== src/BitLength/Laws.antt =====
-- The length of a bignum in bits.
use ikarus.Base.{
  ℕ, zero, suc, ◌+◌, ◌-◌, ◌*◌, ◌/◌, ◌^◌, ◌≤◌, ◌<◌, ◌≡◌, refl, ap, arith, List, [], ◌∷◌, length,
  get_or, take, length-take, ◌⊎◌, inl, inr, ◌==◌, Bool-cases, true, false, if◌then◌else◌,
}
use ikarus.Base.Int.{ℤ, pos, negsuc}
use ikarus.BitLength.{limb_length_loop, limb_length, another_bit_set, ikrt_bignum_length}
use ikarus.Bignum.Valid.{IsBignum, IsBignum-length_pos}
use ikarus.Bignum.{Bignum, bignum, to_int}
use ikarus.BnBn.Order.{sign_bits-IsSign}
use ikarus.Limbs.{value, weight, value-lt, value-top, weight_pos, IsLimbs-take, get_or-lt}
use ikarus.Shift.Bits.{pow_add, pow_pos}
use ikarus.Shift.Left.{weight-pow}
use ikarus.Word.{fix}
use native.Mathlib.Nat.{mul-le-mul_left, mul-add, pow-suc}

-- The number a is positive and has k bits.
pub record IsLength (a k : ℕ) : Type 0 where
  pub some : 0 < k
  pub low : 2 ^ (k - 1) ≤ a
  pub high : a < 2 ^ k

pow_pred : (k : ℕ) → 0 < k → 2 ^ k ≡ 2 * 2 ^ (k - 1)
pow_pred zero h = absurd (omega arith)
pow_pred (suc k) h = let same : suc k - 1 ≡ k = omega arith in rw same (omega (arith, pow-suc 2 k))

loop-IsLength : (fuel n : ℕ) → 0 < n → n < 2 ^ fuel → IsLength n (limb_length_loop fuel n)
unfolding limb_length_loop
loop-IsLength zero n some lt = absurd (omega arith)
loop-IsLength (suc fuel) n some lt =
    let e : (n == 0) ≡ false = ground arith in
    let double = pow-suc 2 fuel in
    rw e (elim (Bool-cases (n == 1)) [
      | inl f ↦
          let one : n ≡ 1 = ground arith in
          let done : limb_length_loop fuel (n / 2) ≡ 0 = rw one (zero_loop fuel) in
          rw (done, one) (record { some = omega arith; low = omega arith; high = omega arith })
      | inr f ↦
          let more : 1 < n = ground arith in
          let rest = loop-IsLength fuel (n / 2) (omega arith) (omega (arith, lt, double)) in
          let k = limb_length_loop fuel (n / 2) in
          let same : suc k - 1 ≡ k = omega arith in
          record {
            some = omega arith;
            low = rw same (omega (arith, rest.low, rest.some, pow_pred k rest.some));
            high = omega (arith, rest.high, pow-suc 2 k);
          }
    ])
  where
    zero_loop : (f : ℕ) → limb_length_loop f (1 / 2) ≡ 0
    zero_loop zero = refl
    zero_loop (suc f) = refl

limb_length-IsLength : (n : ℕ) → 0 < n → n < 2 ^ 64 → IsLength n (limb_length n)
unfolding limb_length
limb_length-IsLength n some lt = loop-IsLength 64 n some lt

another_bit_set-cases :
    (ds : List ℕ)
    → ((another_bit_set ds ≡ true) × (0 < value ds))
      ⊎ ((another_bit_set ds ≡ false) × (value ds ≡ 0))
unfolding another_bit_set
another_bit_set-cases [] = inr (refl, refl)
another_bit_set-cases (d ∷ ds) = elim (Bool-cases (d == 0)) [
  | inl e ↦
      let none : d ≡ 0 = ground arith in
      rw e (elim (another_bit_set-cases ds) [
        | inl h ↦ inl (h.0, omega (arith, h.1))
        | inr h ↦ inr (h.0, omega (arith, h.1, none))
      ])
  | inr e ↦ rw e (inl (refl, ground arith))
]

-- What the last limb says of the whole number.
whole-IsLength :
    (n last k v : ℕ)
    → IsLength last k
    → v < weight n * (last + 1)
    → weight n * 2 ^ (k - 1) ≤ v
    → IsLength v (n * 64 + k)
whole-IsLength n last k v h up down =
    let before : n * 64 + k - 1 ≡ 64 * n + (k - 1) = omega (arith, h.some) in
    let after : n * 64 + k ≡ 64 * n + k = omega arith in
    record {
      some = omega (arith, h.some);
      low = rw (before, pow_add (64 * n) (k - 1), ← weight-pow n) down;
      high =
          rw (after, pow_add (64 * n) k, ← weight-pow n)
            (let le : last + 1 ≤ 2 ^ k = omega (arith, h.high) in
              omega (arith, up, mul-le-mul_left (weight n) le));
    }

-- The call returns the number of bits of v, as a fixnum.
pub record ReturnsLength (w v : ℕ) : Type 0 where
  pub bits : ℕ
  pub returns : w ≡ fix (pos bits)
  pub measured : IsLength v bits

-- The bits of an integer: those of its complement if it is negative.
abbrev pub bits_of : ℤ → ℕ
bits_of (pos n) = n
bits_of (negsuc n) = n

lengths : (n k v : ℕ) → IsLength v (n * 64 + k) → ReturnsLength (fix (pos (n * 64 + k))) v
lengths n k v h = record { bits = n * 64 + k; returns = refl; measured = h }

not_one : (b a : ℕ) → suc a ≡ 2 ^ b → 0 < a → 0 < b
not_one zero a e some = absurd (omega (arith, e, some))
not_one (suc b) a e some = omega arith

-- The magnitude is a power of two: its predecessor has one bit less.
power-ReturnsLength :
    (n k low a : ℕ)
    → 0 < k
    → low ≡ 0
    → suc a ≡ low + weight n * 2 ^ (k - 1)
    → 0 < a
    → ReturnsLength (fix (pos (n * 64 + k - 1))) a
power-ReturnsLength n k low a positive none e some =
    let parts : n * 64 + k - 1 ≡ 64 * n + (k - 1) = omega (arith, positive) in
    let whole : suc a ≡ 2 ^ (n * 64 + k - 1) =
      rw (parts, pow_add (64 * n) (k - 1), ← weight-pow n) (omega (arith, e, none)) in
    let bits : 0 < n * 64 + k - 1 = not_one (n * 64 + k - 1) a whole some in
    record {
      bits = n * 64 + k - 1;
      returns = refl;
      measured = record {
        some = bits;
        low =
            omega
              (arith, whole, some, pow_pred (n * 64 + k - 1) bits, pow_pos (n * 64 + k - 1 - 1));
        high = omega (arith, whole);
      };
    }

-- The branches for a negative number; a is the number's complement.
negative-ReturnsLength :
    (n last k low a : ℕ) (ds : List ℕ)
    → value ds ≡ low
    → IsLength last k
    → low < weight n
    → suc a ≡ low + weight n * last
    → 0 < a
    → ReturnsLength
        (if last == 2 ^ (k - 1)
          then if another_bit_set ds then fix (pos (n * 64 + k)) else fix (pos (n * 64 + k - 1))
          else fix (pos (n * 64 + k)))
        a
negative-ReturnsLength n last k low a ds same h lt e some =
    let up : a < weight n * (last + 1) = omega (arith, e, lt, mul-add (weight n) last 1) in
    elim (Bool-cases (last == 2 ^ (k - 1))) [
      | inl f ↦
          let single : last ≡ 2 ^ (k - 1) = ground arith in
          let top = ap (λ l. weight n * l) single in
          rw f (elim (another_bit_set-cases ds) [
            | inl g ↦
                rw g.0 (
                  lengths n k a (whole-IsLength n last k a h up (omega (arith, e, g.1, same, top))))
            | inr g ↦ rw g.0 (
                power-ReturnsLength n k low a h.some (omega (arith, g.1, same))
                  (omega (arith, e, top)) some)
          ])
      | inr f ↦
          let more : 2 ^ (k - 1) + 1 ≤ last = let below = h.low in ground arith in
          rw f (
            lengths n k a (
              whole-IsLength n last k a h up (
                omega (
                  arith,
                  e,
                  weight_pos n,
                  mul-le-mul_left (weight n) more,
                  mul-add (weight n) (2 ^ (k - 1)) 1,
                ))))
    ]

-- The number of bits of a bignum is returned, or that of its complement if it is negative.
pub ikrt_bignum_length-ReturnsLength :
    (x : Bignum) → IsBignum x → ReturnsLength (ikrt_bignum_length x) (bits_of (to_int (bignum x)))
unfolding ikrt_bignum_length
ikrt_bignum_length-ReturnsLength x hx =
    let xs = x.limbs in
    let n = length xs - 1 in
    let last = get_or xs n 0 in
    let positive = IsBignum-length_pos x hx in
    let parts = value-top xs positive in
    let h = limb_length-IsLength last hx.trimmed (get_or-lt xs n hx.in_words) in
    let low : value (take n xs) < weight n = omega (
      arith,
      value-lt (take n xs) (IsLimbs-take n xs hx.in_words),
      ap weight (length-take n xs (omega arith)),
    ) in
    rw hx.counted (elim (sign_bits-IsSign x) [
      | inl e ↦ rw e (
          lengths n (limb_length last) (value xs) (
            whole-IsLength n last (limb_length last) (value xs) h
              (omega (arith, parts, low, mul-add (weight n) last 1))
              (omega (arith, parts, mul-le-mul_left (weight n) h.low))))
      | inr e ↦
          let big : 2 ≤ value xs = ground (arith, hx.big) in
          let a = value xs - 1 in
          let v : value xs ≡ suc a = omega arith in
          rw (e, v)
            (negative-ReturnsLength n last (limb_length last) (value (take n xs)) a (take n xs) refl
              h low (omega (arith, parts, v)) (omega arith))
    ])
