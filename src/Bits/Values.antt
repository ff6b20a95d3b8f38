-- ===== src/Bits/Values.antt =====
-- Bits of limb arrays and of integers.
use ikarus.Base.{ℕ, zero, suc, ◌+◌, ◌-◌, ◌*◌, ◌/◌, ◌^◌, ◌≤◌, ◌<◌, ◌≡◌, refl, ap, arith}
use ikarus.Base.Int.{ℤ, pos, negsuc}
use ikarus.Bits.Words.{bit, bit-zero, bit-suc}
use ikarus.Shift.Bits.{pow_add, pow_pos, pow_split}
use ikarus.Word.{word_mod}
use native.Mathlib.Nat.{
  pow-suc, mul-le-mul_left, mul_right_comm, div-div-eq-div-mul, div-eq_of_lt, add-mul-div_right,
}

-- Bit i of an integer in two's complement.
abbrev pub testbit : ℤ → ℕ → ℕ
testbit (pos n) i = bit n i
testbit (negsuc n) i = 1 - bit n i

pub pow_mono : (k i : ℕ) → k ≤ i → 2 ^ k ≤ 2 ^ i
pow_mono k i le =
    let whole : k + (i - k) ≡ i = omega arith in
    omega
      (arith, ap (λ n. 2 ^ n) whole, pow_add k (i - k), mul-le-mul_left (2 ^ k) (pow_pos (i - k)))

pub bit_above : (n k i : ℕ) → n < 2 ^ k → k ≤ i → bit n i ≡ 0
unfolding bit
bit_above n k i h le =
    let small : n < 2 ^ i = omega (arith, h, pow_mono k i le) in
    rw (div-eq_of_lt small) (omega arith)

-- The complement turns each bit over.
pub bit-complement : (k n i : ℕ) → n < 2 ^ k → i < k → bit (2 ^ k - 1 - n) i ≡ 1 - bit n i
bit-complement zero n i h lt = absurd (omega arith)
bit-complement (suc k) n zero h lt =
    rw (bit-zero (2 ^ suc k - 1 - n), bit-zero n) (omega (arith, pow-suc 2 k, h))
bit-complement (suc k) n (suc i) h lt =
    let half : (2 ^ suc k - 1 - n) / 2 ≡ 2 ^ k - 1 - n / 2 = omega (arith, pow-suc 2 k, h) in
    rw (bit-suc (2 ^ suc k - 1 - n) i, bit-suc n i, half)
      (bit-complement k (n / 2) i (omega (arith, pow-suc 2 k, h)) (omega arith))

-- The first limb holds the bits below 64, the others the rest.
pub bit-value_low : (x v i : ℕ) → i < 64 → bit (x + word_mod * v) i ≡ bit x i
unfolding bit
bit-value_low x v i lt =
    let next : suc (63 - i) ≡ 64 - i = omega arith in
    let double : 2 ^ (64 - i) ≡ 2 ^ (63 - i) * 2 = rw (← next) (pow-suc 2 (63 - i)) in
    let moved : word_mod * v ≡ 2 ^ (64 - i) * v * 2 ^ i = omega (
      arith,
      ap (λ n. n * v) (pow_split i (omega arith)),
      mul_right_comm (2 ^ (64 - i)) (2 ^ i) v,
    ) in
    let even : 2 ^ (64 - i) * v ≡ 2 * (2 ^ (63 - i) * v) =
      omega (arith, ap (λ n. n * v) double, mul_right_comm (2 ^ (63 - i)) 2 v) in
    rw (moved, add-mul-div_right x (2 ^ (64 - i) * v) (pow_pos i), even) (omega arith)

pub bit-value_high : (x v i : ℕ) → x < word_mod → bit (x + word_mod * v) (64 + i) ≡ bit v i
unfolding bit
bit-value_high x v i lt =
    let top : (x + word_mod * v) / word_mod ≡ v = omega (arith, lt) in
    rw (pow_add 64 i, ← div-div-eq-div-mul (x + word_mod * v) word_mod (2 ^ i), top) refl
