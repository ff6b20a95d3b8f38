-- ===== src/Bits/Words.antt =====
-- Bits of natural numbers, and of `bit_and` and `bit_or`.
use ikarus.Base.{ℕ, zero, suc, ◌+◌, ◌-◌, ◌*◌, ◌/◌, ◌%◌, ◌^◌, ◌≤◌, ◌<◌, ◌≡◌, refl, ap, ◌∙◌, arith}
use Prim.Native.Nat.{min, max, digits, bitwise, bit_and, bit_or, bit_and-bitwise, bit_or-bitwise}
use native.Mathlib.Nat.{
  pow-suc, div-div-eq-div-mul, mul_comm, mod-add-div, mod-lt, mod-eq_of_lt, add-mul-mod_self_left,
}

-- Bit i of n.
unfoldable pub bit : ℕ → ℕ → ℕ
bit n i = n / 2 ^ i % 2

pub bit-zero : (n : ℕ) → bit n 0 ≡ n % 2
unfolding bit
bit-zero n = omega arith

pub bit-suc : (n i : ℕ) → bit n (suc i) ≡ bit (n / 2) i
unfolding bit
bit-suc n i = rw (pow-suc 2 i, mul_comm (2 ^ i) 2, ← div-div-eq-div-mul n 2 (2 ^ i))

pub bit-le : (n i : ℕ) → bit n i ≤ 1
unfolding bit
bit-le n i = omega arith

-- More digits to go than the first number has change nothing.
digits_enough :
    (z : ℕ → ℕ) (f : ℕ → ℕ → ℕ) (n k a b : ℕ) → a ≤ n → a ≤ k → digits z f n a b ≡ digits z f k a b
digits_enough z f zero zero a b h g = refl
digits_enough z f zero (suc k) zero b h g = refl
digits_enough z f zero (suc k) (suc a) b h g = absurd (omega arith)
digits_enough z f (suc n) zero zero b h g = refl
digits_enough z f (suc n) zero (suc a) b h g = absurd (omega arith)
digits_enough z f (suc n) (suc k) zero b h g = refl
digits_enough z f (suc n) (suc k) (suc a) b h g =
    rw (digits_enough z f n k (suc a / 2) (b / 2) (omega arith) (omega arith))

bitwise-suc :
    (z : ℕ → ℕ) (f : ℕ → ℕ → ℕ) (a b : ℕ)
    → bitwise z f (suc a) b ≡ bitwise z f (suc a / 2) (b / 2) * 2 + f (suc a % 2) (b % 2)
bitwise-suc z f a b =
    rw (digits_enough z f a (suc a / 2) (suc a / 2) (b / 2) (omega arith) (omega arith)) refl

-- Digits that are 0 or 1.
min_digit : (a b : ℕ) → a ≤ 1 → b ≤ 1 → min a b ≡ a * b
min_digit zero b h g = ground arith
min_digit (suc zero) zero h g = refl
min_digit (suc zero) (suc zero) h g = refl
min_digit (suc zero) (suc (suc b)) h g = absurd (omega arith)
min_digit (suc (suc a)) b h g = absurd (omega arith)

max_digit : (a b : ℕ) → a ≤ 1 → b ≤ 1 → max a b ≡ a + b - a * b
max_digit zero b h g = ground arith
max_digit (suc zero) zero h g = refl
max_digit (suc zero) (suc zero) h g = refl
max_digit (suc zero) (suc (suc b)) h g = absurd (omega arith)
max_digit (suc (suc a)) b h g = absurd (omega arith)

pub mul_digit_le : (a b : ℕ) → a ≤ 1 → b ≤ 1 → a * b ≤ 1
mul_digit_le zero b h g = omega arith
mul_digit_le (suc zero) b h g = omega arith
mul_digit_le (suc (suc a)) b h g = absurd (omega arith)

or_digit_le : (a b : ℕ) → a ≤ 1 → b ≤ 1 → a + b - a * b ≤ 1
or_digit_le zero b h g = omega arith
or_digit_le (suc zero) b h g = omega arith
or_digit_le (suc (suc a)) b h g = absurd (omega arith)

bit_and-half : (a b : ℕ) → bit_and a b ≡ bit_and (a / 2) (b / 2) * 2 + a % 2 * (b % 2)
bit_and-half zero b = simp bit_and-bitwise (omega arith)
bit_and-half (suc a) b =
    let digit = min_digit (suc a % 2) (b % 2) (omega arith) (omega arith) in
    rw (← digit) (simp bit_and-bitwise (bitwise-suc (λ y. 0) min a b))

bit_or-half :
    (a b : ℕ) → bit_or a b ≡ bit_or (a / 2) (b / 2) * 2 + (a % 2 + b % 2 - a % 2 * (b % 2))
bit_or-half zero b = simp bit_or-bitwise (omega arith)
bit_or-half (suc a) b =
    let digit = max_digit (suc a % 2) (b % 2) (omega arith) (omega arith) in
    rw (← digit) (simp bit_or-bitwise (bitwise-suc (λ y. y) max a b))

bit_and-div : (a b : ℕ) → bit_and a b / 2 ≡ bit_and (a / 2) (b / 2)
bit_and-div a b =
    omega (arith, bit_and-half a b, mul_digit_le (a % 2) (b % 2) (omega arith) (omega arith))

bit_or-div : (a b : ℕ) → bit_or a b / 2 ≡ bit_or (a / 2) (b / 2)
bit_or-div a b =
    omega (arith, bit_or-half a b, or_digit_le (a % 2) (b % 2) (omega arith) (omega arith))

-- `&` and `|` act on each bit.
pub bit-bit_and : (a b i : ℕ) → bit (bit_and a b) i ≡ bit a i * bit b i
bit-bit_and a b zero =
    rw (bit-zero (bit_and a b), bit-zero a, bit-zero b)
      (omega (arith, bit_and-half a b, mul_digit_le (a % 2) (b % 2) (omega arith) (omega arith)))
bit-bit_and a b (suc i) =
    rw (bit-suc (bit_and a b) i, bit-suc a i, bit-suc b i, bit_and-div a b)
      (bit-bit_and (a / 2) (b / 2) i)

pub bit-bit_or : (a b i : ℕ) → bit (bit_or a b) i ≡ bit a i + bit b i - bit a i * bit b i
bit-bit_or a b zero =
    rw (bit-zero (bit_or a b), bit-zero a, bit-zero b)
      (omega (arith, bit_or-half a b, or_digit_le (a % 2) (b % 2) (omega arith) (omega arith)))
bit-bit_or a b (suc i) =
    rw (bit-suc (bit_or a b) i, bit-suc a i, bit-suc b i, bit_or-div a b)
      (bit-bit_or (a / 2) (b / 2) i)

digits_none : (n a : ℕ) → digits (λ b. zero) min n a 0 ≡ 0
digits_none zero a = refl
digits_none (suc n) zero = refl
digits_none (suc n) (suc a) =
    let low : min (suc a % 2) 0 ≡ 0 =
      omega (arith, min_digit (suc a % 2) 0 (omega arith) (omega arith)) in
    omega (arith, digits_none n (suc a / 2), low)

-- Neither makes a number longer.
pub bit_and-lt : (k a b : ℕ) → b < 2 ^ k → bit_and a b < 2 ^ k
bit_and-lt zero a b h =
    let none : b ≡ 0 = omega arith in rw (none, bit_and-bitwise) (omega (arith, digits_none a a))
bit_and-lt (suc k) a b h = omega (
  arith,
  bit_and-half a b,
  pow-suc 2 k,
  bit_and-lt k (a / 2) (b / 2) (omega (arith, pow-suc 2 k)),
  mul_digit_le (a % 2) (b % 2) (omega arith) (omega arith),
)

pub bit_or-lt : (k a b : ℕ) → a < 2 ^ k → b < 2 ^ k → bit_or a b < 2 ^ k
bit_or-lt zero a b h g =
    let none : a ≡ 0 = omega arith in
    let none' : b ≡ 0 = omega arith in rw (none, none') (omega arith)
bit_or-lt (suc k) a b h g = omega (
  arith,
  bit_or-half a b,
  pow-suc 2 k,
  bit_or-lt k (a / 2) (b / 2) (omega (arith, pow-suc 2 k)) (omega (arith, pow-suc 2 k)),
  or_digit_le (a % 2) (b % 2) (omega arith) (omega arith),
)

below_pow : (k a b : ℕ) → a < 2 ^ k → bit_and a b ≤ a
below_pow zero a b h = let none : a ≡ 0 = omega arith in rw (none, bit_and-bitwise) (omega arith)
below_pow (suc k) a b h = omega (
  arith,
  bit_and-half a b,
  mul_digit_le (a % 2) (b % 2) (omega arith) (omega arith),
  digit_product (a % 2) (b % 2) (omega arith),
  below_pow k (a / 2) (b / 2) (omega (arith, pow-suc 2 k, h)),
)
  where
    digit_product : (a b : ℕ) → b ≤ 1 → a * b ≤ a
    digit_product a zero h = omega arith
    digit_product a (suc zero) h = omega arith
    digit_product a (suc (suc b)) h = absurd (omega arith)

lt_pow : (a : ℕ) → a < 2 ^ a
lt_pow zero = omega arith
lt_pow (suc a) = omega (arith, lt_pow a, pow-suc 2 a)

pub bit_and-le : (a b : ℕ) → bit_and a b ≤ a
bit_and-le a b = below_pow a a b (lt_pow a)

mod_twice : (p a : ℕ) → 0 < p → a % (p * 2) ≡ a / 2 % p * 2 + a % 2
mod_twice p a h =
    let parts : a ≡ a / 2 % p * 2 + a % 2 + p * 2 * (a / 2 / p) =
      omega (arith, mod-add-div (a / 2) p) in
    ap (λ n. n % (p * 2)) parts
    ∙ add-mul-mod_self_left (a / 2 % p * 2 + a % 2) (p * 2) (a / 2 / p)
    ∙ mod-eq_of_lt (omega (arith, mod-lt (a / 2) h))

two_pow_pos : (k : ℕ) → 0 < 2 ^ k
two_pow_pos zero = omega arith
two_pow_pos (suc k) = omega (arith, pow-suc 2 k, two_pow_pos k)

-- A mask of low bits keeps a remainder.
pub bit_and-ones : (k a : ℕ) → bit_and a (2 ^ k - 1) ≡ a % 2 ^ k
bit_and-ones zero a =
    let bound : bit_and a 0 < 2 ^ 0 = bit_and-lt 0 a 0 (omega arith) in omega (arith, bound)
bit_and-ones (suc k) a =
    let half : (2 ^ suc k - 1) / 2 ≡ 2 ^ k - 1 = omega (arith, pow-suc 2 k, two_pow_pos k) in
    let odd : (2 ^ suc k - 1) % 2 ≡ 1 = omega (arith, pow-suc 2 k, two_pow_pos k) in
    omega (
      arith,
      bit_and-half a (2 ^ suc k - 1),
      ap (λ n. bit_and (a / 2) n) half,
      ap (λ n. a % 2 * n) odd,
      bit_and-ones k (a / 2),
      ap (λ n. a % n) (pow-suc 2 k),
      mod_twice (2 ^ k) a (two_pow_pos k),
    )
