-- ===== src/Bitwise/Twos.antt =====
-- Integers as limbs in two's complement, and limbs that are turned back into a number.
use ikarus.Base.{
  ℕ, suc, ◌+◌, ◌-◌, ◌*◌, ◌^◌, ◌≤◌, ◌<◌, ◌≡◌, refl, sym, ap, ◌∙◌, arith, List, ◌++◌, length,
  replicate, inl, inr, ltb, Bool-cases, length-append, length-replicate,
}
use ikarus.Base.Int.{ℤ, pos, negsuc}
use ikarus.Bignum.Valid.{IsNumber, Returns}
use ikarus.Bignum.{Obj, Result, ok, to_int, normalize_bignum}
use ikarus.Bits.Values.{testbit, bit_above, bit-complement}
use ikarus.Bits.Words.{bit, bit-le}
use ikarus.Bitwise.{bits_compliment2}
use ikarus.Limbs.{
  value, weight, IsLimbs, value-lt, value-append, value-replicate, IsLimbs-append,
  IsLimbs-replicate,
}
use ikarus.Shift.Complement.{complement-IsLimbs, length-complement, value-complement_carry}
use ikarus.Shift.Left.{weight-pow}
use ikarus.Shift.Rounding.{limbs-Returns}
use ikarus.Shift.{bits_compliment_with_carry}
use mathlib.Core.List.{append-nil}

-- Limbs that agree with an integer in all their bits.
pub record IsTwos (a : ℤ) (n : ℕ) (ds : List ℕ) : Type 0 where
  pub size : length ds ≡ n
  pub limbs : IsLimbs ds
  pub bits : (i : ℕ) → i < 64 * n → bit (value ds) i ≡ testbit a i

pub limbs-IsTwos : (ds : List ℕ) → IsLimbs ds → IsTwos (pos (value ds)) (length ds) ds
limbs-IsTwos ds h = record { size = refl; limbs = h; bits = λ i lt. refl }

pub extended :
    (ds : List ℕ) (n : ℕ)
    → length ds ≤ n
    → (value (ds ++ replicate (n - length ds) 0) ≡ value ds)
      × (length (ds ++ replicate (n - length ds) 0) ≡ n)
extended ds n le =
    let k = n - length ds in
    (
      rw (value-append ds (replicate k 0), value-replicate k) (omega arith),
      omega (arith, length-append ds (replicate k 0), length-replicate {A = ℕ} k 0),
    )

complement_value :
    (ds : List ℕ) (n : ℕ)
    → IsLimbs ds
    → length ds ≤ n
    → 0 < value ds
    → value (bits_compliment2 ds n) + value ds ≡ 2 ^ (64 * n)
unfolding bits_compliment2
complement_value ds n h le some =
    let k = n - length ds in
    let e = ds ++ replicate k 0 in
    let (v, len) = extended ds n le in
    omega (
      arith,
      v,
      value-complement_carry e (IsLimbs-append ds (replicate k 0) h (IsLimbs-replicate k))
          (omega (arith, v, some)),
      ap weight len,
      weight-pow n,
    )

-- The complement of a magnitude is the negative number.
pub complement-IsTwos :
    (ds : List ℕ) (n a : ℕ)
    → IsLimbs ds
    → length ds ≤ n
    → value ds ≡ suc a
    → IsTwos (negsuc a) n (bits_compliment2 ds n)
complement-IsTwos ds n a h le v =
    let total = complement_value ds n h le (omega (arith, v)) in
    let is : value (bits_compliment2 ds n) ≡ 2 ^ (64 * n) - 1 - a = omega (arith, total, v) in
    record {
      size =
          unfold bits_compliment2 in
          length-complement (ds ++ replicate (n - length ds) 0) 1 ∙ (extended ds n le).1;
      limbs = unfold bits_compliment2 in complement-IsLimbs (ds ++ replicate (n - length ds) 0) 1;
      bits = λ i lt. rw is (bit-complement (64 * n) a i (omega (arith, total, v)) lt);
    }

pub whole_complement :
    (ds : List ℕ) → bits_compliment2 ds (length ds) ≡ bits_compliment_with_carry 1 ds
unfolding bits_compliment2
whole_complement ds =
    let none : length ds - length ds ≡ 0 = omega arith in rw (none, append-nil ds) refl

pub whole-IsTwos :
    (ds : List ℕ) (a : ℕ)
    → IsLimbs ds
    → value ds ≡ suc a
    → IsTwos (negsuc a) (length ds) (bits_compliment_with_carry 1 ds)
whole-IsTwos ds a h v =
    rw (whole_complement ds) at (complement-IsTwos ds (length ds) a h (omega arith) v)

-- The call returns a number in normal form with those bits.
pub record ReturnsBits (r : Result Obj) (f : ℕ → ℕ) : Type 0 where
  pub out : Obj
  pub returns : r ≡ ok out
  pub normal : IsNumber out
  pub bits : (i : ℕ) → testbit (to_int out) i ≡ f i

pub Returns-ReturnsBits :
    (r : Result Obj) (v : ℤ) (f : ℕ → ℕ)
    → Returns r v
    → ((i : ℕ) → testbit v i ≡ f i)
    → ReturnsBits r f
Returns-ReturnsBits r v f h same = record {
  out = h.out;
  returns = h.returns;
  normal = h.normal;
  bits = λ i. ap (λ a. testbit a i) h.equals ∙ same i;
}

pub ReturnsBits-map :
    (r : Result Obj) (f g : ℕ → ℕ) → ((i : ℕ) → f i ≡ g i) → ReturnsBits r f → ReturnsBits r g
ReturnsBits-map r f g same h = record {
  out = h.out;
  returns = h.returns;
  normal = h.normal;
  bits = λ i. h.bits i ∙ same i;
}

-- Limbs whose bits are those wanted, with none above, are normalised to a number that is not
-- negative.
pub positive-ReturnsBits :
    (n : ℕ) (ds : List ℕ) (f : ℕ → ℕ)
    → IsLimbs ds
    → length ds ≡ n
    → ((i : ℕ) → i < 64 * n → bit (value ds) i ≡ f i)
    → ((i : ℕ) → 64 * n ≤ i → f i ≡ 0)
    → ReturnsBits (normalize_bignum n 0 ds) f
positive-ReturnsBits n ds f h len below above =
    let lt : value ds < 2 ^ (64 * n) = omega (arith, value-lt ds h, ap weight len, weight-pow n) in
    Returns-ReturnsBits (normalize_bignum n 0 ds) (pos (value ds)) f
      (limbs-Returns n 0 (value ds) ds (inl refl) h len refl)
      (λ i. elim (Bool-cases (ltb i (64 * n))) [
        | inl e ↦ below i (ground arith)
        | inr e ↦
            let le : 64 * n ≤ i = ground arith in
            bit_above (value ds) (64 * n) i lt le ∙ sym (above i le)
      ])

-- Limbs with those bits, and all ones above, are turned into the magnitude of a negative number.
pub negative-ReturnsBits :
    (n : ℕ) (ds : List ℕ) (f : ℕ → ℕ)
    → IsLimbs ds
    → length ds ≡ n
    → 0 < value ds
    → ((i : ℕ) → i < 64 * n → bit (value ds) i ≡ f i)
    → ((i : ℕ) → 64 * n ≤ i → f i ≡ 1)
    → ReturnsBits (normalize_bignum n 8 (bits_compliment2 ds n)) f
negative-ReturnsBits n ds f h len some below above =
    let total = complement_value ds n h (omega (arith, len)) some in
    let lt : value ds < 2 ^ (64 * n) = omega (arith, value-lt ds h, ap weight len, weight-pow n) in
    let a = 2 ^ (64 * n) - 1 - value ds in
    let v : value (bits_compliment2 ds n) ≡ suc a = omega (arith, total, lt) in
    let t = complement-IsTwos ds n (value ds - 1) h (omega (arith, len)) (omega (arith, some)) in
    Returns-ReturnsBits (normalize_bignum n 8 (bits_compliment2 ds n)) (negsuc a) f
      (limbs-Returns n 8 (suc a) (bits_compliment2 ds n) (inr refl) t.limbs t.size v)
      (λ i. elim (Bool-cases (ltb i (64 * n))) [
        | inl e ↦
            let l : i < 64 * n = ground arith in
            omega (arith, bit-complement (64 * n) (value ds) i lt l, bit-le (value ds) i, below i l)
        | inr e ↦
            let le : 64 * n ≤ i = ground arith in
            omega (arith, bit_above a (64 * n) i (omega (arith, lt)) le, above i le)
      ])
