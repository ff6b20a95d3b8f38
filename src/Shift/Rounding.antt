-- ===== src/Shift/Rounding.antt =====
-- The complement of a shifted complement: a magnitude rounded up.
use ikarus.Base.{
  ℕ, zero, suc, ◌+◌, ◌-◌, ◌*◌, ◌/◌, ◌%◌, ◌^◌, ◌≤◌, ◌<◌, ◌≡◌, sym, ap, arith, List, ltb, length,
  get_or, take, take_all, inl, inr, Bool-cases,
}
use ikarus.Bignum.Normalize.{IsSign, normalize_bignum-Returns}
use ikarus.Bignum.Valid.{Returns}
use ikarus.Bignum.{with_sign, normalize_bignum}
use ikarus.Limbs.{value, weight, IsLimbs, value-top}
use ikarus.Shift.Bits.{pow_pos, pow_le_word, pow_split}
use ikarus.Shift.Right.{value-copy_right, length-copy_right, copy_right-IsLimbs}
use ikarus.Shift.Complement.{
  value-bits_compliment, value-fill_top, length-fill_top, fill_top-IsLimbs,
}
use ikarus.Shift.{copy_bits_shifting_right, bits_compliment, fill_top}
use ikarus.Word.{word_mod}
use native.Mathlib.Nat.{
  mul_assoc, mul_comm, add-mul, mul-add, add-mul-div_right, add-mul-div_left, div-eq_of_lt,
  div-lt_iff_lt-mul, mod-add-div, mod-lt, mul-le-mul_left, pow-suc,
}

pub limbs-Returns :
    (n s v : ℕ) (d : List ℕ)
    → IsSign s
    → IsLimbs d
    → length d ≡ n
    → value d ≡ v
    → Returns (normalize_bignum n s d) (with_sign s v)
limbs-Returns n s v d hs limbs len same =
    let whole : value (take n d) ≡ v = rw (← len, take_all d) same in
    rw (← whole) (normalize_bignum-Returns n s d hs limbs (omega (arith, len)))

-- A magnitude of which t is cut off: one more than the quotient of its predecessor rounds up.
pub round_whole : (w d a : ℕ) → 0 < w → suc a ≡ w * d → a / w + 1 ≡ d
round_whole w zero a positive e = absurd (omega (arith, e))
round_whole w (suc d) a positive e =
    let parts : a ≡ w - 1 + w * d = omega (arith, e) in
    let low : w - 1 < w = omega arith in
    rw (parts, add-mul-div_left (w - 1) d positive, div-eq_of_lt low) (omega arith)

pub round_rest : (w t d a : ℕ) → t < w → suc a ≡ suc t + w * d → a / w + 1 ≡ d + 1
round_rest w t d a lt e =
    let parts : a ≡ t + w * d = omega (arith, e) in
    let positive : 0 < w = omega arith in
    rw (parts, add-mul-div_left t d positive, div-eq_of_lt lt) (omega arith)

-- The complement divides as the number rounds up.
complement_div : (t p v q : ℕ) → 0 < p → v + suc q ≡ t * p → v / p + (q / p + 1) ≡ t
complement_div t p v q positive e =
    let u = q / p in
    let lt : q / p < t = (div-lt_iff_lt-mul positive).1 (omega (arith, e)) in
    let d = t - 1 - q / p in
    let sum : d + (q / p + 1) ≡ t = omega arith in
    let low : p - 1 - q % p < p = omega arith in
    let parts : v ≡ p - 1 - q % p + d * p = omega (
      arith,
      e,
      mod-lt q positive,
      mod-add-div q p,
      mul_comm p (q / p),
      ap (λ n. n * p) sum,
      add-mul d (q / p + 1) p,
      add-mul (q / p) 1 p,
    ) in
    rw (parts, add-mul-div_right (p - 1 - q % p) d positive, div-eq_of_lt low) (omega (arith, sum))

-- The top limb of a number below weight n * k is below k.
top_lt :
    (n k : ℕ) (xs : List ℕ)
    → 0 < n
    → length xs ≡ n
    → value xs < weight (n - 1) * k
    → get_or xs (n - 1) 0 < k
top_lt n k xs positive len lt = elim (Bool-cases (ltb (get_or xs (n - 1) 0) k)) [
  | inl e ↦ ground arith
  | inr e ↦
      let le : k ≤ get_or xs (n - 1) 0 = ground arith in
      let top = rw len at (value-top xs (omega (arith, len))) in
      absurd (omega (arith, top, lt, mul-le-mul_left (weight (n - 1)) le))
]

weight_top : (n : ℕ) → 0 < n → weight n ≡ weight (n - 1) * word_mod
weight_top zero h = absurd (omega arith)
weight_top (suc n) h = let same : suc n - 1 ≡ n = omega arith in rw same (omega arith)

two_le_pow : (r : ℕ) → 0 < r → 2 ≤ 2 ^ r
two_le_pow zero h = absurd (omega arith)
two_le_pow (suc r) h = omega (arith, pow-suc 2 r, pow_pos r)

-- The branch with a bit shift: the complement shifted to the right, with ones at the top.
pub value-filled :
    (n r q : ℕ) (ds : List ℕ)
    → 0 < n
    → 0 < r
    → r < 64
    → IsLimbs ds
    → length ds ≡ n
    → value ds + suc q ≡ weight n
    → value (bits_compliment (fill_top n r (copy_bits_shifting_right r ds))) ≡ q / 2 ^ r + 1
value-filled n r q ds positive bits le limbs len e =
    let k = 2 ^ (64 - r) in
    let p = 2 ^ r in
    let t = weight (n - 1) * k in
    let c = copy_bits_shifting_right r ds in
    let whole : t * p ≡ weight n =
      rw (mul_assoc (weight (n - 1)) k p, pow_split r (omega arith))
        (sym (weight_top n positive)) in
    let shifted : value c + (q / p + 1) ≡ t =
      rw (value-copy_right r ds (omega arith))
        (complement_div t p (value ds) q (pow_pos r) (omega (arith, e, whole))) in
    let size : length c ≡ n = omega (arith, length-copy_right r ds (omega arith), len) in
    let free : get_or c (n - 1) 0 < k = top_lt n k c positive size (omega (arith, shifted)) in
    let filled = value-fill_top n r c (omega (arith, size)) in
    let ones : weight (n - 1) * (word_mod - k) + t ≡ weight n = omega (
      arith,
      weight_top n positive,
      mul-add (weight (n - 1)) (word_mod - k) k,
      ap (λ n'. weight (n - 1) * n')
          (let whole_word : word_mod - k + k ≡ word_mod =
              omega (arith, pow_le_word (64 - r) (omega arith)) in
            whole_word),
    ) in
    let below : t < weight n =
      omega (arith, whole, shifted, mul-le-mul_left t (two_le_pow r bits)) in
    omega (
      arith,
      filled,
      ones,
      below,
      shifted,
      ap weight (length-fill_top n r c),
      ap weight size,
      value-bits_compliment (fill_top n r c)
          (fill_top-IsLimbs n r c (copy_right-IsLimbs r ds (omega arith) limbs) free
            (pow_le_word (64 - r) (omega arith)))
          (omega (arith, filled, ones, below)),
    )
