-- ===== src/Shift/Laws.antt =====
-- A shift to the right of a bignum divides by a power of two and rounds down.
use ikarus.Base.{
  ℕ, suc, ◌+◌, ◌-◌, ◌/◌, ◌%◌, ◌^◌, ◌<◌, ◌≡◌, ◌≢◌, refl, ap, arith, List, length, get_or, take, drop,
  take_all, inl, inr, ◌==◌, leb, Bool-cases, false, if◌then◌else◌,
}
use ikarus.Base.Int.{ℤ, pos, negsuc}
use ikarus.Bignum.Normalize.{fix-Returns}
use ikarus.Bignum.Valid.{IsBignum, Returns}
use ikarus.Bignum.{Bignum, bignum, ok, word, to_int, sign_bits, normalize_bignum}
use ikarus.BnBn.Order.{sign_bits-IsSign}
use ikarus.Limbs.{value, weight, IsLimbs, value-lt, IsLimbs-drop}
use ikarus.Shift.Right.{length-copy_right, div-pow_split}
use ikarus.Shift.Complement.{
  complement-IsLimbs, length-complement, value-bits_compliment, value-complement_zero,
  length-fill_top,
}
use ikarus.Shift.Branches.{
  none_left, length-kept, whole-div, nonnegative-Returns, start, rounded, value-start, kept_pos,
}
use ikarus.Shift.Rounding.{limbs-Returns, value-filled}
use ikarus.Shift.{
  ikrt_bignum_shift_right, copy_bits_shifting_right, bits_compliment, bits_carry, fill_top,
}
use ikarus.Word.{unfix, fix}

-- The quotient rounded down.
abbrev pub floor_div : ℤ → ℕ → ℤ
floor_div (pos a) p = pos (a / p)
floor_div (negsuc a) p = negsuc (a / p)

-- A negative number shifted by whole limbs, where those that stay are all ones and those that go
-- are not all zero.
pub record LosesLimb (x : Bignum) (m : ℕ) : Type 0 where
  pub negative : sign_bits x ≡ 8
  pub whole_limbs : m % 64 ≡ 0
  pub stays : m / 64 < length x.limbs
  pub goes : 0 < value (take (m / 64) x.limbs)
  pub ones : value (drop (m / 64) x.limbs) + 1 ≡ weight (length x.limbs - m / 64)

-- Without a bit shift, the complement is undone, unless its start has no bit left.
start_pos :
    (m a : ℕ) (xs : List ℕ)
    → IsLimbs xs
    → m / 64 < length xs
    → 0 < get_or xs (length xs - 1) 0
    → value xs ≡ suc a
    → (0 < value (take (m / 64) xs) → value (drop (m / 64) xs) + 1 ≢ weight (length xs - m / 64))
    → 0 < value (start m xs)
start_pos m a xs limbs le top e keeps =
    let w = m / 64 in
    let r = rounded m a xs limbs le e in
    ground (
      arith,
      r.exact,
      r.rest,
      keeps,
      value-start m a xs limbs le (kept_pos w xs limbs le top) e,
      value-lt (drop w xs) (IsLimbs-drop w xs limbs),
      ap weight (length-kept w xs (omega arith)),
    )

length-start : (m : ℕ) (xs : List ℕ) → m / 64 < length xs → length (start m xs) ≡ length xs - m / 64
length-start m xs le =
    rw (length-complement (drop (m / 64) xs) (bits_carry (take (m / 64) xs)))
      (length-kept (m / 64) xs (omega arith))

start-IsLimbs : (m : ℕ) (xs : List ℕ) → IsLimbs (start m xs)
start-IsLimbs m xs = complement-IsLimbs (drop (m / 64) xs) (bits_carry (take (m / 64) xs))

value-undone :
    (m a : ℕ) (xs : List ℕ)
    → IsLimbs xs
    → m / 64 < length xs
    → 0 < get_or xs (length xs - 1) 0
    → value xs ≡ suc a
    → m % 64 ≡ 0
    → 0 < value (start m xs)
    → value (bits_compliment (start m xs)) ≡ suc (a / 2 ^ m)
value-undone m a xs limbs le top e z some = omega (
  arith,
  value-bits_compliment (start m xs) (start-IsLimbs m xs) some,
  value-start m a xs limbs le (kept_pos (m / 64) xs limbs le top) e,
  ap weight (length-start m xs le),
  whole-div m a z,
)

value-shifted :
    (m a : ℕ) (xs : List ℕ)
    → IsLimbs xs
    → m / 64 < length xs
    → 0 < get_or xs (length xs - 1) 0
    → value xs ≡ suc a
    → 0 < m % 64
    → value (
        bits_compliment
          (fill_top (length xs - m / 64) (m % 64) (copy_bits_shifting_right (m % 64) (start m xs))))
      ≡ suc (a / 2 ^ m)
value-shifted m a xs limbs le top e bits = omega (
  arith,
  value-filled (length xs - m / 64) (m % 64) (a / weight (m / 64)) (start m xs) (omega arith) bits
      (omega arith) (start-IsLimbs m xs) (length-start m xs le)
      (value-start m a xs limbs le (kept_pos (m / 64) xs limbs le top) e),
  div-pow_split m a,
)

length-compliment : (ds : List ℕ) → length (bits_compliment ds) ≡ length ds
unfolding bits_compliment
length-compliment ds = length-complement ds 1

compliment-IsLimbs : (ds : List ℕ) → IsLimbs (bits_compliment ds)
unfolding bits_compliment
compliment-IsLimbs ds = complement-IsLimbs ds 1

-- The branches for a negative number.
negative-Returns :
    (m a : ℕ) (xs : List ℕ)
    → IsLimbs xs
    → 0 < get_or xs (length xs - 1) 0
    → value xs ≡ suc a
    → (m % 64 ≡ 0 → m / 64 < length xs → 0 < value (start m xs))
    → Returns
        (if leb (length xs) (m / 64)
          then ok (word (fix (negsuc 0)))
          else if m % 64 == 0
          then normalize_bignum (length xs - m / 64) 8 (bits_compliment (start m xs))
          else normalize_bignum (length xs - m / 64) 8 (
              bits_compliment (
                fill_top
                  (length xs - m / 64)
                  (m % 64)
                  (copy_bits_shifting_right (m % 64) (start m xs)))))
        (negsuc (a / 2 ^ m))
negative-Returns m a xs limbs top e some = elim (Bool-cases (leb (length xs) (m / 64))) [
  | inl b ↦
      rw (b, none_left m a xs limbs (ground arith) (omega (arith, e)))
        (fix-Returns 8 1 (omega arith))
  | inr b ↦
      let le : m / 64 < length xs = ground arith in
      elim (Bool-cases (m % 64 == 0)) [
        | inl z ↦
            let whole : m % 64 ≡ 0 = ground arith in
            rw (b, z)
              (limbs-Returns _ 8 (suc (a / 2 ^ m)) _ (inr refl) (compliment-IsLimbs (start m xs))
                (rw (length-compliment (start m xs)) (length-start m xs le))
                (value-undone m a xs limbs le top e whole (some whole le)))
        | inr z ↦
            let n = length xs - m / 64 in
            let c = copy_bits_shifting_right (m % 64) (start m xs) in
            let len : length c ≡ n =
              rw (length-copy_right (m % 64) (start m xs) (omega arith)) (length-start m xs le) in
            rw (b, z)
              (limbs-Returns n 8 (suc (a / 2 ^ m)) _ (inr refl)
                (compliment-IsLimbs (fill_top n (m % 64) c))
                (rw (length-compliment (fill_top n (m % 64) c), length-fill_top n (m % 64) c) len)
                (value-shifted m a xs limbs le top e (ground arith)))
      ]
]

-- A bignum shifted to the right by a count that is not negative is returned divided by the power
-- of two, rounded down and in normal form. Left out is a negative bignum shifted by whole limbs
-- where the limbs that stay are all ones and those that go are not all zero.
pub ikrt_bignum_shift_right-Returns :
    (x : Bignum) (y m : ℕ)
    → IsBignum x
    → unfix y ≡ pos m
    → ¬ LosesLimb x m
    → Returns (ikrt_bignum_shift_right x y) (floor_div (to_int (bignum x)) (2 ^ m))
unfolding ikrt_bignum_shift_right
ikrt_bignum_shift_right-Returns x y m hx count keeps =
    rw (count, hx.counted, take_all x.limbs)
      (elim (sign_bits-IsSign x) [
        | inl e ↦ rw e (nonnegative-Returns m x.limbs hx.in_words)
        | inr e ↦
            let big : 0 < value x.limbs = ground (arith, hx.big) in
            let a = value x.limbs - 1 in
            let v : value x.limbs ≡ suc a = omega arith in
            rw (e, v)
              (negative-Returns m a x.limbs hx.in_words hx.trimmed v (λ whole le.
                start_pos m a x.limbs hx.in_words le hx.trimmed v (λ goes ones. keeps (record {
                  negative = e;
                  whole_limbs = whole;
                  stays = le;
                  goes = goes;
                  ones = ones;
                }))))
      ])

-- A negative bignum shifted by whole limbs, where the limbs that stay are all ones and those that
-- go are not all zero, gives 0, which is not the quotient rounded down.
pub ikrt_bignum_shift_right_loses :
    (x : Bignum) (y m : ℕ)
    → IsBignum x
    → unfix y ≡ pos m
    → LosesLimb x m
    → Returns (ikrt_bignum_shift_right x y) (pos 0)
      × (floor_div (to_int (bignum x)) (2 ^ m) ≢ pos 0)
unfolding ikrt_bignum_shift_right
ikrt_bignum_shift_right_loses x y m hx count h =
    let xs = x.limbs in
    let some : 0 < value xs = ground (arith, hx.big) in
    let a = value xs - 1 in
    let v : value xs ≡ suc a = omega arith in
    let none : value (start m xs) ≡ 0 = omega (
      arith,
      value-start m a xs hx.in_words h.stays (kept_pos (m / 64) xs hx.in_words h.stays hx.trimmed)
          v,
      (rounded m a xs hx.in_words h.stays v).rest h.goes,
      h.ones,
    ) in
    let over : leb (length xs) (m / 64) ≡ false = let le = h.stays in ground arith in
    (
      rw (count, hx.counted, take_all xs, h.negative, over, h.whole_limbs)
          (limbs-Returns _ 8 0 _ (inr refl) (compliment-IsLimbs (start m xs))
            (rw (length-compliment (start m xs)) (length-start m xs h.stays))
            (unfold bits_compliment in value-complement_zero (start m xs) none)),
      rw (h.negative, v) (λ e. ground arith),
    )
