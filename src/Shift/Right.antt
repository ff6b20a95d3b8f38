-- ===== src/Shift/Right.antt =====
-- Limbs shifted to the right are the quotient by a power of two.
use ikarus.Base.{
  ℕ, ◌-◌, ◌*◌, ◌/◌, ◌%◌, ◌^◌, ◌≤◌, ◌<◌, ◌≡◌, refl, ap, arith, List, [], ◌∷◌, length, take, drop,
  length-take,
}
use ikarus.Limbs.{value, weight, IsLimbs, value-take-drop, value-lt, weight_pos, IsLimbs-take}
use ikarus.Shift.Bits.{
  IsSplit, pow_pos, pow-IsSplit, carry_lt, value-copy_left, length-copy_left, copy_left-IsLimbs,
}
use ikarus.Shift.Left.{weight-pow_split}
use ikarus.Shift.{copy_bits_shifting_left, shift_right_loop, copy_bits_shifting_right}
use ikarus.Word.{word_mod}
use native.Mathlib.Nat.{
  mul_assoc, mul_comm, add-mul-div_right, add-mul-div_left, div-eq_of_lt, div-div-eq-div-mul,
  mul-le-mul_left,
}

-- The two loops agree: a shift to the right by m moves the bits of a limb as far as one to the
-- left by 64 - m.
loop-copy_left :
    (m c : ℕ) (xs : List ℕ)
    → m ≤ 64
    → shift_right_loop m c xs ≡ copy_bits_shifting_left (64 - m) c xs
unfolding shift_right_loop copy_bits_shifting_left
loop-copy_left m c [] h = refl
loop-copy_left m c (b ∷ bs) h =
    let back : 64 - (64 - m) ≡ m = omega arith in rw (back, loop-copy_left m (b / 2 ^ m) bs h)

back-IsSplit : (m : ℕ) → m ≤ 64 → IsSplit (2 ^ m) (2 ^ (64 - m))
back-IsSplit m h =
    let s = pow-IsSplit m h in
    record {
      whole = omega (arith, s.whole, mul_comm (2 ^ m) (2 ^ (64 - m)));
      kept = s.moved;
      moved = s.kept;
    }

pub value-copy_right :
    (m : ℕ) (xs : List ℕ) → m ≤ 64 → value (copy_bits_shifting_right m xs) ≡ value xs / 2 ^ m
unfolding copy_bits_shifting_right
value-copy_right m [] h = omega arith
value-copy_right m (b ∷ bs) h =
    let s = back-IsSplit m h in
    let k = 2 ^ (64 - m) in
    let p = 2 ^ m in
    let moved : word_mod * value bs ≡ value bs * k * p = omega (
      arith,
      s.whole,
      ap (λ n. n * value bs) s.whole,
      mul_comm (p * k) (value bs),
      mul_comm p k,
      ap (λ n. value bs * n) (mul_comm p k),
      mul_assoc (value bs) k p,
    ) in
    rw
      (
        loop-copy_left m (b / p) bs h,
        value-copy_left (64 - m) (b / p) bs (omega arith),
        moved,
        add-mul-div_right b (value bs * k) s.kept,
      )
      (omega arith)

pub length-copy_right :
    (m : ℕ) (xs : List ℕ) → m ≤ 64 → length (copy_bits_shifting_right m xs) ≡ length xs
unfolding copy_bits_shifting_right
length-copy_right m [] h = refl
length-copy_right m (b ∷ bs) h =
    rw (loop-copy_left m (b / 2 ^ m) bs h) (length-copy_left (64 - m) (b / 2 ^ m) bs)

pub copy_right-IsLimbs :
    (m : ℕ) (xs : List ℕ) → m ≤ 64 → IsLimbs xs → IsLimbs (copy_bits_shifting_right m xs)
unfolding copy_bits_shifting_right
copy_right-IsLimbs m [] h limbs = tt
copy_right-IsLimbs m (b ∷ bs) h limbs = rw (loop-copy_left m (b / 2 ^ m) bs h) (
    copy_left-IsLimbs (64 - m) (b / 2 ^ m) bs (omega arith)
      (carry_lt (2 ^ m) (2 ^ (64 - m)) b (back-IsSplit m h) limbs.0) limbs.1)

pub value-drop :
    (w : ℕ) (xs : List ℕ) → IsLimbs xs → w ≤ length xs → value (drop w xs) ≡ value xs / weight w
value-drop w xs limbs h =
    let low : value (take w xs) < weight w =
      omega
        (arith, value-lt (take w xs) (IsLimbs-take w xs limbs), ap weight (length-take w xs h)) in
    rw
      (
        value-take-drop w xs h,
        add-mul-div_left (value (take w xs)) (value (drop w xs)) (weight_pos w),
        div-eq_of_lt low,
      )
      (omega arith)

pub div-pow_split : (m a : ℕ) → a / weight (m / 64) / 2 ^ (m % 64) ≡ a / 2 ^ m
div-pow_split m a = rw (div-div-eq-div-mul a (weight (m / 64)) (2 ^ (m % 64)), weight-pow_split m)

pub weight-le-pow : (m : ℕ) → weight (m / 64) ≤ 2 ^ m
weight-le-pow m =
    omega (arith, weight-pow_split m, mul-le-mul_left (weight (m / 64)) (pow_pos (m % 64)))
