-- ===== src/Bitwise/Combine.antt =====
-- The limbs that the loops over two operands leave: their bits are the operands' bits combined.
use ikarus.Base.{
  ℕ, zero, suc, ◌+◌, ◌-◌, ◌*◌, ◌/◌, ◌^◌, ◌≤◌, ◌<◌, ◌≡◌, sym, ap, ap₂, ◌∙◌, arith, List, length, ◌⊎◌,
  inl, inr, ltb, Bool-cases,
}
use ikarus.Base.Int.{negsuc}
use ikarus.Bits.Values.{testbit, bit_above}
use ikarus.Bits.Words.{bit, bit-zero, bit-suc, bit_and-lt, bit_or-lt}
use ikarus.Bitwise.{over, zip_limbs}
use ikarus.Bitwise.Limbwise.{bit-zip, bit-zip_above}
use ikarus.Limbs.{value, IsLimbs, value-lt}
use ikarus.Shift.Left.{weight-pow}
use ikarus.Word.{word_mod}
use Prim.Native.Nat.{bit_and, bit_or}

-- `and` and `or` of two bits.
abbrev pub and_bit : ℕ → ℕ → ℕ
and_bit a b = a * b

abbrev pub or_bit : ℕ → ℕ → ℕ
or_bit a b = a + b - a * b

pub and_bit_one : (a b : ℕ) → b ≡ 1 → a ≡ and_bit a b
and_bit_one a b e = rw e (omega arith)

pub one_and_bit : (a b : ℕ) → a ≡ 1 → b ≡ and_bit a b
one_and_bit a b e = rw e (omega arith)

pub and_bit_comm : (a b : ℕ) → and_bit a b ≡ and_bit b a
and_bit_comm a b = omega arith

pub or_bit_comm : (a b : ℕ) → or_bit a b ≡ or_bit b a
or_bit_comm a b = omega arith

pub or_bit_zero : (a b : ℕ) → b ≡ 0 → a ≡ or_bit a b
or_bit_zero a b e = rw e (omega arith)

pub zero_or_bit : (a b : ℕ) → a ≡ 0 → b ≡ or_bit a b
zero_or_bit a b e = rw e (omega arith)

pub or_bit_one : (a b : ℕ) → a ≡ 1 → or_bit a b ≡ 1
or_bit_one a b e = rw e (omega arith)

pub bit-le-or_bit : (a b : ℕ) → a ≤ 1 → a ≤ or_bit a b
bit-le-or_bit zero b h = omega arith
bit-le-or_bit (suc zero) b h = omega arith
bit-le-or_bit (suc (suc a)) b h = absurd (omega arith)

-- A number with a bit is not zero, and one without a bit is.
pub bit_pos : (n i : ℕ) → bit n i ≡ 1 → 0 < n
bit_pos n i e = elim (Bool-cases (ltb 0 n)) [
  | inl f ↦ ground arith
  | inr f ↦
      let none : n ≡ 0 = ground arith in
      absurd (omega (arith, e, ap (λ m. bit m i) none, bit_above 0 0 i (omega arith) (omega arith)))
]

pub no_bits : (k n : ℕ) → n < 2 ^ k → ((i : ℕ) → i < k → bit n i ≡ 0) → n ≡ 0
no_bits zero n h none = omega arith
no_bits (suc k) n h none =
    let half =
      no_bits k (n / 2) (omega (arith, h))
        (λ i lt. sym (bit-suc n i) ∙ none (suc i) (omega (arith, lt))) in
    omega (arith, half, bit-zero n, none 0 (omega arith))

pub value_bound : (ds : List ℕ) → IsLimbs ds → value ds < 2 ^ (64 * length ds)
value_bound ds h = omega (arith, value-lt ds h, weight-pow (length ds))

-- Limbs whose bits hold those of limbs that are not zero are not zero.
pub kept_pos :
    (xs rs : List ℕ)
    → IsLimbs xs
    → 0 < value xs
    → ((i : ℕ) → i < 64 * length xs → bit (value xs) i ≤ bit (value rs) i)
    → 0 < value rs
kept_pos xs rs h some kept = elim (Bool-cases (ltb 0 (value rs))) [
  | inl e ↦ ground arith
  | inr e ↦
      let none : value rs ≡ 0 = ground arith in
      absurd (
        omega (
          arith,
          some,
          no_bits (64 * length xs) (value xs) (value_bound xs h) (λ i lt. omega (
            arith,
            kept i lt,
            ap (λ m. bit m i) none,
            bit_above 0 0 i (omega arith) (omega arith),
          )),
        ))
]

-- Above its limbs, a negative number has ones.
pub ones_above :
    (ds : List ℕ) (a i : ℕ)
    → IsLimbs ds
    → value ds ≡ suc a
    → 64 * length ds ≤ i
    → testbit (negsuc a) i ≡ 1
ones_above ds a i h v le =
    omega (arith, bit_above a (64 * length ds) i (omega (arith, v, value_bound ds h)) le)

pub zeros_above : (ds : List ℕ) (i : ℕ) → IsLimbs ds → 64 * length ds ≤ i → bit (value ds) i ≡ 0
zeros_above ds i h le = bit_above (value ds) (64 * length ds) i (value_bound ds h) le

abbrev WordOp : (ℕ → ℕ → ℕ) → Type 0
WordOp f = (a b : ℕ) → a < word_mod → b < word_mod → f a b < word_mod

pub bit_and-word : WordOp bit_and
bit_and-word a b h g = bit_and-lt 64 a b g

pub bit_or-word : WordOp bit_or
bit_or-word a b h g = bit_or-lt 64 a b h g

-- The bits of the limbs that both operands have and of those that are kept above them.
pub combined :
    (f d : ℕ → ℕ → ℕ)
    → ((a b i : ℕ) → bit (f a b) i ≡ d (bit a i) (bit b i))
    → WordOp f
    → (xs ys zs : List ℕ) (p q : ℕ → ℕ) (n i : ℕ) → IsLimbs xs
    → IsLimbs ys
    → IsLimbs zs
    → ((j : ℕ) → j < 64 * length xs → bit (value xs) j ≡ p j)
    → ((j : ℕ) → j < 64 * length ys → bit (value ys) j ≡ q j)
    → ((j : ℕ)
        → j < 64 * n
        → (64 * length xs ≤ j) ⊎ (64 * length ys ≤ j)
        → bit (value zs) j ≡ d (p j) (q j))
    → i < 64 * n
    → bit (value (over (zip_limbs f xs ys) zs)) i ≡ d (p i) (q i)
combined f d law small xs ys zs p q n i hx hy hz px qy above lt =
    elim (Bool-cases (ltb i (64 * length xs))) [
      | inr e ↦ up (inl (ground arith))
      | inl e ↦ elim (Bool-cases (ltb i (64 * length ys))) [
        | inr g ↦ up (inr (ground arith))
        | inl g ↦
            let lx : i < 64 * length xs = ground arith in
            let ly : i < 64 * length ys = ground arith in
            bit-zip f d law small xs ys zs i hx hy lx ly ∙ ap₂ d (px i lx) (qy i ly)
      ]
    ]
  where
    up :
        (64 * length xs ≤ i) ⊎ (64 * length ys ≤ i)
        → bit (value (over (zip_limbs f xs ys) zs)) i ≡ d (p i) (q i)
    up h = bit-zip_above f small xs ys zs i hx hy hz h ∙ above i lt h
