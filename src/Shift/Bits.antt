-- ===== src/Shift/Bits.antt =====
-- What the loops over shifted limbs compute.
use ikarus.Base.{
  ℕ, zero, suc, ◌+◌, ◌-◌, ◌*◌, ◌/◌, ◌%◌, ◌^◌, ◌≤◌, ◌<◌, ◌≡◌, refl, sym, ap, arith, List, [], ◌∷◌,
  length,
}
use ikarus.Limbs.{value, IsLimbs}
use ikarus.Shift.{copy_bits_shifting_left}
use ikarus.Word.{word_mod}
use native.Mathlib.Nat.{
  mul-le-mul_right, pow-suc, mul-div-mul_right, mod-add-div, div-lt_iff_lt-mul, add-mul, mul_assoc,
  mul_comm, mul_right_comm, mod-lt,
}
use Prim.Native.Nat.add

pub pow_add : (a b : ℕ) → 2 ^ (a + b) ≡ 2 ^ a * 2 ^ b
pow_add zero b = let none : 0 + b ≡ b = omega arith in rw none (omega arith)
pow_add (suc a) b = omega (
  arith,
  ap (λ n. 2 ^ n) (add.suc a b),
  pow-suc 2 (a + b),
  pow-suc 2 a,
  pow_add a b,
  add-mul (2 ^ a) (2 ^ a) (2 ^ b),
  ap (λ n. n * 2 ^ b) (pow-suc 2 a),
  mul_assoc (2 ^ a) 2 (2 ^ b),
  mul_comm 2 (2 ^ b),
  mul_assoc (2 ^ a) (2 ^ b) 2,
)

pub pow_split : (m : ℕ) → m ≤ 64 → 2 ^ (64 - m) * 2 ^ m ≡ word_mod
pow_split m h = let whole : 64 - m + m ≡ 64 = omega arith in rw (← pow_add (64 - m) m, whole)

pub pow_pos : (m : ℕ) → 0 < 2 ^ m
pow_pos zero = omega arith
pow_pos (suc m) = omega (arith, pow-suc 2 m, pow_pos m)

-- The two factors of a word: what a shift keeps and what it pushes out.
pub record IsSplit (k p : ℕ) : Type 0 where
  pub whole : k * p ≡ word_mod
  pub kept : 0 < k
  pub moved : 0 < p

pub pow-IsSplit : (m : ℕ) → m ≤ 64 → IsSplit (2 ^ (64 - m)) (2 ^ m)
pow-IsSplit m h = record { whole = pow_split m h; kept = pow_pos _; moved = pow_pos _ }

-- A shifted limb and its carry.
pub limb_shift : (k p b : ℕ) → IsSplit k p → b * p ≡ b * p % word_mod + word_mod * (b / k)
limb_shift k p b s =
    let q : b * p / word_mod ≡ b / k = rw (← s.whole) (mul-div-mul_right b k s.moved) in
    rw q at (sym (mod-add-div (b * p) word_mod))

-- The low bits of a shifted limb are free for the carry that comes in.
limb_room : (k p b : ℕ) → IsSplit k p → b * p % word_mod + p ≤ word_mod
limb_room k p b s = omega (
  arith,
  limb_shift k p b s,
  mul-le-mul_right p (mod-lt b s.kept),
  add-mul (b % k) 1 p,
  s.whole,
  ap (λ n. n * p) (mod-add-div b k),
  add-mul (b % k) (k * (b / k)) p,
  mul_right_comm k (b / k) p,
  ap (λ n. n * (b / k)) s.whole,
)

pub carry_lt : (k p b : ℕ) → IsSplit k p → b < word_mod → b / k < p
carry_lt k p b s h =
    (div-lt_iff_lt-mul s.kept).1
      (let e : p * k ≡ word_mod = omega (arith, s.whole, mul_comm p k) in rw e h)

pub pow_le_word : (m : ℕ) → m ≤ 64 → 2 ^ m ≤ word_mod
pow_le_word m h = omega (arith, pow_split m h, mul-le-mul_right (2 ^ m) (pow_pos (64 - m)))

pub value-copy_left :
    (m c : ℕ) (xs : List ℕ) → m ≤ 64 → value (copy_bits_shifting_left m c xs) ≡ value xs * 2 ^ m + c
unfolding copy_bits_shifting_left
value-copy_left m c [] h = omega arith
value-copy_left m c (b ∷ bs) h = omega (
  arith,
  limb_shift (2 ^ (64 - m)) (2 ^ m) b (pow-IsSplit m h),
  value-copy_left m (b / 2 ^ (64 - m)) bs h,
  add-mul b (word_mod * value bs) (2 ^ m),
  mul_assoc word_mod (value bs) (2 ^ m),
)

pub length-copy_left :
    (m c : ℕ) (xs : List ℕ) → length (copy_bits_shifting_left m c xs) ≡ suc (length xs)
unfolding copy_bits_shifting_left
length-copy_left m c [] = refl
length-copy_left m c (b ∷ bs) = ap suc (length-copy_left m (b / 2 ^ (64 - m)) bs)

pub copy_left-IsLimbs :
    (m c : ℕ) (xs : List ℕ)
    → m ≤ 64
    → c < 2 ^ m
    → IsLimbs xs
    → IsLimbs (copy_bits_shifting_left m c xs)
unfolding copy_bits_shifting_left
copy_left-IsLimbs m c [] h lt limbs = (omega (arith, pow_le_word m h), tt)
copy_left-IsLimbs m c (b ∷ bs) h lt limbs =
    let s = pow-IsSplit m h in
    (
      omega (arith, limb_room (2 ^ (64 - m)) (2 ^ m) b s),
      copy_left-IsLimbs m (b / 2 ^ (64 - m)) bs h (carry_lt (2 ^ (64 - m)) (2 ^ m) b s limbs.0)
          limbs.1,
    )
