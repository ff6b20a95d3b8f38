-- ===== src/Mpn/Reference.antt =====
-- An implementation of the mpn functions on numbers: the laws can be met, and the model runs.
use ikarus.Base.{
  ℕ, zero, suc, ◌+◌, ◌-◌, ◌*◌, ◌/◌, ◌%◌, ◌≤◌, ◌<◌, ◌≡◌, refl, ap, arith, List, [], ◌∷◌, length,
  get_or, ltb, if◌then◌else◌, ◌↔◌,
}
use ikarus.Limbs.{
  value, weight, IsLimbs, weight_pos, weight_mono, weight_add, value-lt, weight-le-value_top,
  get_or_in,
}
use ikarus.Mpn.{Mpn, IsMpn, IsSum, IsDifference, IsProduct, IsQuotient}
use ikarus.Word.{word_mod}
use native.Mathlib.Nat.{mul-le-mul_left, lt_of_mul-lt-mul_left, div-lt_iff_lt-mul, mod-lt}

-- The n low limbs of a number, and what is above them.
unfoldable pub limbs_of : ℕ → ℕ → List ℕ
limbs_of zero v = []
limbs_of (suc n) v = v % word_mod ∷ limbs_of n (v / word_mod)

unfoldable pub above : ℕ → ℕ → ℕ
above zero v = v
above (suc n) v = above n (v / word_mod)

length-limbs_of : (n v : ℕ) → length (limbs_of n v) ≡ n
unfolding limbs_of
length-limbs_of zero v = refl
length-limbs_of (suc n) v = ap suc (length-limbs_of n (v / word_mod))

limbs_of-IsLimbs : (n v : ℕ) → IsLimbs (limbs_of n v)
unfolding limbs_of
limbs_of-IsLimbs zero v = tt
limbs_of-IsLimbs (suc n) v = (omega arith, limbs_of-IsLimbs n (v / word_mod))

value-limbs_of : (n v : ℕ) → value (limbs_of n v) + weight n * above n v ≡ v
unfolding limbs_of above
value-limbs_of zero v = omega arith
value-limbs_of (suc n) v = omega (arith, value-limbs_of n (v / word_mod))

above-le : (n v k : ℕ) → v < weight n * suc k → above n v ≤ k
above-le n v k h = omega (
  arith,
  lt_of_mul-lt-mul_left (weight n) {m = above n v} {n = suc k} (omega (arith, value-limbs_of n v)),
)

value-limbs_of_lt : (n v : ℕ) → v < weight n → value (limbs_of n v) ≡ v
value-limbs_of_lt n v h = ground (arith, value-limbs_of n v, above-le n v 0)

sum_of : ℕ → ℕ → List ℕ × ℕ
sum_of n v = (limbs_of n v, above n v)

sum_of-IsSum : (n v : ℕ) → v < weight n * 2 → IsSum n v (sum_of n v)
unfolding sum_of
sum_of-IsSum n v h = record {
  size = length-limbs_of n v;
  limbs = limbs_of-IsLimbs n v;
  carry = above-le n v 1 h;
  sum = value-limbs_of n v;
}

difference_of : ℕ → ℕ → ℕ → List ℕ × ℕ
difference_of n a b =
    let borrow = if ltb a b then 1 else 0 in (limbs_of n (a + weight n * borrow - b), borrow)

difference_of-IsDifference :
    (n a b : ℕ) → a < weight n → b ≤ weight n → IsDifference n a b (difference_of n a b)
unfolding difference_of
difference_of-IsDifference n a b ha hb = record {
  size = length-limbs_of n _;
  limbs = limbs_of-IsLimbs n _;
  borrow = ground arith;
  difference = ground (arith, value-limbs_of_lt n (a + weight n * (if ltb a b then 1 else 0) - b));
}

sum_of-IsProduct :
    (n a v : ℕ) → a < weight n → v < word_mod → IsProduct n (a * v) (sum_of n (a * v))
unfolding sum_of
sum_of-IsProduct n a v ha hv = record {
  size = length-limbs_of n _;
  limbs = limbs_of-IsLimbs n _;
  top = omega (arith, above-le n (a * v) (word_mod - 1) (grind arith));
  product = value-limbs_of n (a * v);
}

-- The functions of the layer, on the numbers that the limbs stand for.
pub reference : Mpn
reference = record {
  add_1 = λ s v. sum_of (length s) (value s + v);
  add = λ s t. sum_of (length s) (value s + value t);
  sub_1 = λ s v. difference_of (length s) (value s) v;
  sub = λ s t. difference_of (length s) (value s) (value t);
  mul_1 = λ s v. sum_of (length s) (value s * v);
  mul = λ s t. limbs_of (length s + length t) (value s * value t);
  tdiv_qr = λ s t. (
    limbs_of (length s - length t + 1) (value s / value t),
    limbs_of (length t) (value s % value t),
  );
  divrem_1 = λ s v. (limbs_of (length s) (value s / v), value s % v);
  mod_1 = λ s v. value s % v;
}

weight-one-le : (n : ℕ) → 0 < n → word_mod ≤ weight n
weight-one-le zero h = absurd (omega arith)
weight-one-le (suc n) h = omega (arith, weight_pos n)

mul-limbs_lt :
    (s t : List ℕ) → IsLimbs s → IsLimbs t → value s * value t < weight (length s + length t)
mul-limbs_lt s t hs ht =
    rw (weight_add (length s) (length t)) (grind (arith, value-lt s hs, value-lt t ht))

quotient-lt :
    (s t : List ℕ)
    → IsLimbs s
    → length t ≤ length s
    → 0 < get_or t (length t - 1) 0
    → value s / value t < weight (length s - length t + 1)
quotient-lt s t hs le top =
    let n = length s - length t + 1 in
    let k = length t - 1 in
    let whole : n + k ≡ length s = omega (arith, get_or_in t _ top) in
    (div-lt-iff s).1 (
      omega (
        arith,
        value-lt s hs,
        weight_add n k,
        ap weight whole,
        mul-le-mul_left (weight n) (weight-le-value_top t top),
      ))
  where
    div-lt-iff :
        (u : List ℕ)
        → (value u / value t < weight (length s - length t + 1))
          ↔ (value u < weight (length s - length t + 1) * value t)
    div-lt-iff u =
        div-lt_iff_lt-mul (omega (arith, weight-le-value_top t top, weight_pos (length t - 1)))

tdiv_qr-IsQuotient :
    (s t : List ℕ)
    → IsLimbs s
    → IsLimbs t
    → length t ≤ length s
    → 0 < get_or t (length t - 1) 0
    → IsQuotient (length s) (length t) (value s) (value t) (reference.tdiv_qr s t)
unfolding reference
tdiv_qr-IsQuotient s t hs ht le top = record {
  quotient_size = length-limbs_of _ _;
  quotient_limbs = limbs_of-IsLimbs _ _;
  remainder_size = length-limbs_of _ _;
  remainder_limbs = limbs_of-IsLimbs _ _;
  quotient = value-limbs_of_lt _ _ (quotient-lt s t hs le top);
  remainder = value-limbs_of_lt _ _ (
      omega (
        arith,
        value-lt t ht,
        weight-le-value_top t top,
        weight_pos (length t - 1),
        mod-lt (value s) {m = value t}
            (omega (arith, weight-le-value_top t top, weight_pos (length t - 1))),
      ));
}

-- They meet what the manual promises.
pub reference-IsMpn : IsMpn reference
unfolding reference
reference-IsMpn = record {
  add_1_lem = λ s v hs pos hv.
      sum_of-IsSum (length s) (value s + v)
        (omega (arith, value-lt s hs, weight-one-le (length s) pos));
  add_lem = λ s t hs ht le pos.
      sum_of-IsSum (length s) (value s + value t)
        (omega (arith, value-lt s hs, value-lt t ht, weight_mono (length t) (length s) le));
  sub_1_lem = λ s v hs pos hv.
      difference_of-IsDifference (length s) (value s) v (value-lt s hs)
        (omega (arith, weight-one-le (length s) pos));
  sub_lem = λ s t hs ht le pos.
      difference_of-IsDifference (length s) (value s) (value t) (value-lt s hs)
        (omega (arith, value-lt t ht, weight_mono (length t) (length s) le));
  mul_1_lem = λ s v hs pos hv. sum_of-IsProduct (length s) (value s) v (value-lt s hs) hv;
  mul_lem = λ s t hs ht le pos.
      (length-limbs_of _ _, limbs_of-IsLimbs _ _, value-limbs_of_lt _ _ (mul-limbs_lt s t hs ht));
  tdiv_qr_lem = tdiv_qr-IsQuotient;
  divrem_1_lem = λ s v hs pos hv. (
    length-limbs_of _ _,
    limbs_of-IsLimbs _ _,
    value-limbs_of_lt _ _ (omega (arith, value-lt s hs)),
    refl,
  );
  mod_1_lem = λ s v hs pos hv. refl;
}
