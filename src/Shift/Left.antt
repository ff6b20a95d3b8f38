-- ===== src/Shift/Left.antt =====
-- A shift to the left multiplies by a power of two.
use ikarus.Base.{
  ℕ, zero, suc, ltb, true, ◌+◌, ◌-◌, ◌*◌, ◌/◌, ◌%◌, ◌^◌, ◌<◌, ◌≡◌, refl, ap, arith, List, [], ◌∷◌,
  ◌++◌, length, take, replicate, take_all, length-append, length-replicate, inl, inr, ◌==◌,
  Bool-cases, if◌then◌else◌,
}
use ikarus.Base.Int.{ℤ, pos, negsuc, is_neg, magnitude, ◌*ℤ◌}
use ikarus.Bignum.Normalize.{IsSign, normalize_bignum-Returns}
use ikarus.Bignum.Valid.{IsBignum, IsBignum-length_pos, Returns}
use ikarus.Bignum.{Bignum, Obj, Result, bignum, with_sign, to_int, sign_bits, normalize_bignum}
use ikarus.BnBn.Order.{sign_bits-IsSign}
use ikarus.Limbs.{
  value, weight, IsLimbs, value-append, value-replicate, IsLimbs-append, IsLimbs-replicate,
}
use ikarus.Product.Laws.{times_sign}
use ikarus.Shift.Bits.{
  pow_add, pow_pos, pow_le_word, pow-IsSplit, limb_shift, carry_lt, value-copy_left,
  length-copy_left, copy_left-IsLimbs,
}
use ikarus.Shift.{
  allocates, ikrt_fixnum_shift_left, ikrt_bignum_shift_left, copy_bits_shifting_left,
}
use ikarus.Word.{IsFixnum, unfix, unfix-FitsFixnum, word_mod, align}
use native.Mathlib.Nat.{mul_left_comm}

pub weight-pow : (q : ℕ) → weight q ≡ 2 ^ (64 * q)
weight-pow zero = refl
weight-pow (suc q) =
    let more : 64 * suc q ≡ 64 + 64 * q = omega arith in
    rw (more, pow_add 64 (64 * q)) (ap (λ n. word_mod * n) (weight-pow q))

pub weight-pow_split : (m : ℕ) → weight (m / 64) * 2 ^ (m % 64) ≡ 2 ^ m
weight-pow_split m =
    let parts : 64 * (m / 64) + m % 64 ≡ m = omega arith in
    rw (weight-pow (m / 64), ← pow_add (64 * (m / 64)) (m % 64), parts)

value-zeros_append : (n : ℕ) (xs : List ℕ) → value (replicate n 0 ++ xs) ≡ weight n * value xs
value-zeros_append n xs =
    rw (value-append (replicate n 0) xs, value-replicate n, length-replicate {A = ℕ} n 0)
      (omega arith)

with_sign_times : (s a b : ℕ) → IsSign s → with_sign s (a * b) ≡ with_sign s a *ℤ pos b
with_sign_times s a b (inl e) = rw e (times_sign 0 0 a b (inl refl) (inl refl))
with_sign_times s a b (inr e) = rw e (times_sign 8 0 a b (inr refl) (inl refl))

-- Limbs that hold the shifted number above the whole limbs that the shift leaves free.
shifted-Returns :
    (m n s v : ℕ) (xs : List ℕ)
    → IsSign s
    → IsLimbs xs
    → value xs ≡ v * 2 ^ (m % 64)
    → n ≡ length xs + m / 64
    → Returns (normalize_bignum n s (replicate (m / 64) 0 ++ xs)) (with_sign s v *ℤ pos (2 ^ m))
shifted-Returns m n s v xs hs limbs same count =
    let d = replicate (m / 64) 0 ++ xs in
    let len : n ≡ length d = omega (
      arith,
      count,
      length-append (replicate (m / 64) 0) xs,
      length-replicate {A = ℕ} (m / 64) 0,
    ) in
    let total : value (take n d) ≡ v * 2 ^ m = rw (
      len,
      take_all d,
      value-zeros_append (m / 64) xs,
      same,
      mul_left_comm (weight (m / 64)) v (2 ^ (m % 64)),
      weight-pow_split m,
    ) in
    rw (← with_sign_times s v (2 ^ m) hs, ← total)
      (normalize_bignum-Returns n s d hs
        (IsLimbs-append (replicate (m / 64) 0) xs (IsLimbs-replicate (m / 64)) limbs)
        (omega (arith, len)))

-- A fixnum in the two limbs that its bits reach.
value-fixnum_shift :
    (r a : ℕ)
    → r < 64
    → a < word_mod
    → value (a * 2 ^ r % word_mod ∷ (if r == 0 then 0 else a / 2 ^ (64 - r)) ∷ []) ≡ a * 2 ^ r
value-fixnum_shift zero a h lt = omega arith
value-fixnum_shift (suc r) a h lt =
    ground (arith, limb_shift (2 ^ (64 - suc r)) (2 ^ suc r) a (pow-IsSplit (suc r) (omega arith)))

fixnum_shift-IsLimbs :
    (r a : ℕ)
    → r < 64
    → a < word_mod
    → IsLimbs (a * 2 ^ r % word_mod ∷ (if r == 0 then 0 else a / 2 ^ (64 - r)) ∷ [])
fixnum_shift-IsLimbs zero a h lt = (omega arith, (omega arith, tt))
fixnum_shift-IsLimbs (suc r) a h lt =
    let s = pow-IsSplit (suc r) (omega arith) in
    (
      omega arith,
      (
        ground (
          arith,
          carry_lt (2 ^ (64 - suc r)) (2 ^ suc r) a s lt,
          pow_le_word (suc r) (omega arith),
        ),
        tt,
      ),
    )

with_sign-magnitude : (n : ℤ) → with_sign (if is_neg n then 8 else 0) (magnitude n) ≡ n
with_sign-magnitude (pos n) = refl
with_sign-magnitude (negsuc n) = refl

fixnum-IsSign : (n : ℤ) → IsSign (if is_neg n then 8 else 0)
fixnum-IsSign (pos n) = inl refl
fixnum-IsSign (negsuc n) = inr refl

magnitude_lt : (x : ℕ) → IsFixnum x → magnitude (unfix x) < word_mod
magnitude_lt x h = let fits = unfix-FitsFixnum x h in ground arith

-- An allocation whose size fits an int.
allocates_lem :
    (limbs : ℕ) (r : Result Obj) → align (8 + limbs * 8) < 2 ^ 31 → allocates limbs r ≡ r
unfolding allocates
allocates_lem limbs r fits =
    let small : ltb (align (8 + limbs * 8)) (2 ^ 31) ≡ true = ground arith in rw small refl

-- A fixnum shifted to the left by a count that is not negative, and that leaves the size of the
-- result an int, is returned as its product with the power of two, in normal form.
pub ikrt_fixnum_shift_left-Returns :
    (x y m : ℕ)
    → IsFixnum x
    → unfix y ≡ pos m
    → align (8 + (m / 64 + 2) * 8) < 2 ^ 31
    → Returns (ikrt_fixnum_shift_left x y) (unfix x *ℤ pos (2 ^ m))
unfolding ikrt_fixnum_shift_left
ikrt_fixnum_shift_left-Returns x y m hx count fits =
    let a = magnitude (unfix x) in
    let r : m % 64 < 64 = omega arith in
    rw (count, allocates_lem (m / 64 + 2) _ (omega (arith, fits)))
      (rw (with_sign-magnitude (unfix x)) at (
        shifted-Returns m (m / 64 + 2) (if is_neg (unfix x) then 8 else 0) a
          (a * 2 ^ (m % 64) % word_mod ∷ (if m % 64 == 0 then 0 else a / 2 ^ (64 - m % 64)) ∷ [])
          (fixnum-IsSign (unfix x)) (fixnum_shift-IsLimbs (m % 64) a r (magnitude_lt x hx))
          (value-fixnum_shift (m % 64) a r (magnitude_lt x hx)) (omega arith)))

-- A bignum shifted to the left by a count that is not negative, and that leaves the size of the
-- result an int, is returned as its product with the power of two, in normal form.
pub ikrt_bignum_shift_left-Returns :
    (x : Bignum) (y m : ℕ)
    → IsBignum x
    → unfix y ≡ pos m
    → align (8 + (length x.limbs + m / 64 + 1) * 8) < 2 ^ 31
    → Returns (ikrt_bignum_shift_left x y) (to_int (bignum x) *ℤ pos (2 ^ m))
unfolding ikrt_bignum_shift_left
ikrt_bignum_shift_left-Returns x y m hx count fits =
    let s = sign_bits-IsSign x in
    rw (count, hx.counted, take_all x.limbs)
      (elim (Bool-cases (m % 64 == 0)) [
        | inl e ↦
            rw (e, allocates_lem (length x.limbs + m / 64) _ (omega (arith, fits)))
              (shifted-Returns m (length x.limbs + m / 64) (sign_bits x) (value x.limbs) x.limbs s
                hx.in_words (let z : m % 64 ≡ 0 = ground arith in rw z (omega arith)) refl)
        | inr e ↦
            rw (e, allocates_lem (length x.limbs + m / 64 + 1) _ (omega (arith, fits)))
              (shifted-Returns m (length x.limbs + m / 64 + 1) (sign_bits x) (value x.limbs)
                (copy_bits_shifting_left (m % 64) 0 x.limbs) s
                (copy_left-IsLimbs (m % 64) 0 x.limbs (omega arith) (pow_pos (m % 64)) hx.in_words)
                (omega (arith, value-copy_left (m % 64) 0 x.limbs (omega arith)))
                (omega (arith, length-copy_left (m % 64) 0 x.limbs)))
      ])

-- A fixnum and a bignum are shifted to the left by a count that is not negative. Let an object with
-- the limbs of the bignum, the whole limbs of the count and one limb more have a size that fits an
-- int. Then both are returned as their products with the power of two, in normal form.
pub left_shifts :
    (x y m : ℕ) (z : Bignum)
    → IsFixnum x
    → IsBignum z
    → unfix y ≡ pos m
    → align (8 + (length z.limbs + m / 64 + 1) * 8) < 2 ^ 31
    → Returns (ikrt_fixnum_shift_left x y) (unfix x *ℤ pos (2 ^ m))
      × Returns (ikrt_bignum_shift_left z y) (to_int (bignum z) *ℤ pos (2 ^ m))
left_shifts x y m z hx hz count fits = (
  ikrt_fixnum_shift_left-Returns x y m hx count (omega (arith, fits, IsBignum-length_pos z hz)),
  ikrt_bignum_shift_left-Returns z y m hz count fits,
)
