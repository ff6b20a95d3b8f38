-- ===== src/Shift/Complement.antt =====
-- The two's complement of limbs, and the top limb filled with ones.
use ikarus.Base.{
  ℕ, zero, suc, ◌+◌, ◌-◌, ◌*◌, ◌%◌, ◌^◌, ◌≤◌, ◌<◌, ◌≡◌, refl, ap, arith, List, [], ◌∷◌, length,
  get_or, set, ◌⊎◌, inl, inr, ◌==◌, false, length-set,
}
use ikarus.Limbs.{value, weight, IsLimbs}
use ikarus.Shift.{bits_compliment_with_carry, bits_compliment, bits_carry, fill_top}
use ikarus.Word.{word_mod}

pub complement-IsLimbs : (ds : List ℕ) (c : ℕ) → IsLimbs (bits_compliment_with_carry c ds)
unfolding bits_compliment_with_carry
complement-IsLimbs [] c = tt
complement-IsLimbs (d ∷ ds) c = (omega arith, complement-IsLimbs ds _)

pub length-complement : (ds : List ℕ) (c : ℕ) → length (bits_compliment_with_carry c ds) ≡ length ds
unfolding bits_compliment_with_carry
length-complement [] c = refl
length-complement (d ∷ ds) c = ap suc (length-complement ds _)

not_zero : (d : ℕ) → (suc d == 0) ≡ false
not_zero d = ground arith

-- With no carry, the limbs and their complement are all ones together.
value-complement_none :
    (ds : List ℕ)
    → IsLimbs ds
    → value (bits_compliment_with_carry 0 ds) + value ds + 1 ≡ weight (length ds)
unfolding bits_compliment_with_carry
value-complement_none [] h = omega arith
value-complement_none (d ∷ ds) h =
    let head : (0 + (word_mod - 1 - d)) % word_mod ≡ word_mod - 1 - d = omega arith in
    rw head (omega (arith, value-complement_none ds h.1, h.0))

-- With a carry, they add up to the next weight, unless all limbs are zero.
pub value-complement_carry :
    (ds : List ℕ)
    → IsLimbs ds
    → 0 < value ds
    → value (bits_compliment_with_carry 1 ds) + value ds ≡ weight (length ds)
unfolding bits_compliment_with_carry
value-complement_carry [] h pos = absurd (omega arith)
value-complement_carry (zero ∷ ds) h pos =
    omega (arith, value-complement_carry ds h.1 (omega (arith, pos)))
value-complement_carry (suc d ∷ ds) h pos =
    let head : (1 + (word_mod - 1 - suc d)) % word_mod ≡ word_mod - suc d = omega (arith, h.0) in
    rw (head, not_zero d) (omega (arith, value-complement_none ds h.1, h.0))

pub value-complement_zero :
    (ds : List ℕ) → value ds ≡ 0 → value (bits_compliment_with_carry 1 ds) ≡ 0
unfolding bits_compliment_with_carry
value-complement_zero [] e = refl
value-complement_zero (zero ∷ ds) e = omega (arith, value-complement_zero ds (omega arith))
value-complement_zero (suc d ∷ ds) e = absurd (omega (arith, e))

-- `bits_carry` tells whether the limbs are all zero.
pub bits_carry-cases :
    (ds : List ℕ) → ((bits_carry ds ≡ 1) × (value ds ≡ 0)) ⊎ ((bits_carry ds ≡ 0) × (0 < value ds))
unfolding bits_carry
bits_carry-cases [] = inl (refl, refl)
bits_carry-cases (zero ∷ ds) = elim (bits_carry-cases ds) [
  | inl e ↦ inl (e.0, omega (arith, e.1))
  | inr e ↦ inr (e.0, omega (arith, e.1))
]
bits_carry-cases (suc d ∷ ds) = inr (rw (not_zero d), omega arith)

-- The complement of the limbs that stay, whose carry comes from the limbs that go: q is the
-- magnitude rounded up.
pub value-complement_rounded :
    (low ds : List ℕ) (q : ℕ)
    → IsLimbs ds
    → 0 < value ds
    → (value low ≡ 0 → q ≡ value ds)
    → (0 < value low → q ≡ value ds + 1)
    → value (bits_compliment_with_carry (bits_carry low) ds) + q ≡ weight (length ds)
value-complement_rounded low ds q h pos whole rest = elim (bits_carry-cases low) [
  | inl e ↦ rw e.0 (omega (arith, value-complement_carry ds h pos, whole e.1))
  | inr e ↦ rw e.0 (omega (arith, value-complement_none ds h, rest e.1))
]

pub value-bits_compliment :
    (ds : List ℕ)
    → IsLimbs ds
    → 0 < value ds
    → value (bits_compliment ds) + value ds ≡ weight (length ds)
unfolding bits_compliment
value-bits_compliment ds h pos = value-complement_carry ds h pos

value-set_more :
    (xs : List ℕ) (i v : ℕ)
    → i < length xs
    → value (set xs i (get_or xs i 0 + v)) ≡ value xs + weight i * v
value-set_more [] i v h = absurd (omega arith)
value-set_more (x ∷ xs) zero v h = omega arith
value-set_more (x ∷ xs) (suc i) v h = omega (arith, value-set_more xs i v (omega arith))

IsLimbs-set : (xs : List ℕ) (i v : ℕ) → IsLimbs xs → v < word_mod → IsLimbs (set xs i v)
IsLimbs-set [] i v h lt = tt
IsLimbs-set (x ∷ xs) zero v h lt = (lt, h.1)
IsLimbs-set (x ∷ xs) (suc i) v h lt = (h.0, IsLimbs-set xs i v h.1 lt)

pub value-fill_top :
    (n r : ℕ) (xs : List ℕ)
    → n - 1 < length xs
    → value (fill_top n r xs) ≡ value xs + weight (n - 1) * (word_mod - 2 ^ (64 - r))
unfolding fill_top
value-fill_top n r xs h = value-set_more xs (n - 1) _ h

pub length-fill_top : (n r : ℕ) (xs : List ℕ) → length (fill_top n r xs) ≡ length xs
unfolding fill_top
length-fill_top n r xs = length-set xs (n - 1) _

pub fill_top-IsLimbs :
    (n r : ℕ) (xs : List ℕ)
    → IsLimbs xs
    → get_or xs (n - 1) 0 < 2 ^ (64 - r)
    → 2 ^ (64 - r) ≤ word_mod
    → IsLimbs (fill_top n r xs)
unfolding fill_top
fill_top-IsLimbs n r xs h free le = IsLimbs-set xs (n - 1) _ h (omega (arith, free, le))
