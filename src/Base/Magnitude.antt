-- ===== src/Base/Magnitude.antt =====
-- Sums of integers given by a sign and a magnitude.
use ikarus.Base.{ℕ, zero, suc, ◌+◌, ◌-◌, ◌≤◌, ◌≡◌, refl, arith}
use ikarus.Base.Int.{ℤ, pos, negsuc, neg, neg_ℕ, ◌+ℤ◌, ◌-ℤ◌}

-- The integers that the steps produce, for a magnitude a and a change v.
pub pos_grow : (v a : ℕ) → pos (a + v) ≡ pos v +ℤ pos a
unfolding ◌+ℤ◌
pos_grow v a = ground arith

neg_rest : (d v a : ℕ) → d + v ≡ a → neg_ℕ d ≡ pos v +ℤ neg_ℕ a
unfolding ◌+ℤ◌
neg_rest zero v zero h = ground arith
neg_rest zero v (suc a) h = ground arith
neg_rest (suc d) v zero h = absurd (omega arith)
neg_rest (suc d) v (suc a) h = ground arith

pub neg_shrink : (v a : ℕ) → v ≤ a → neg_ℕ (a - v) ≡ pos v +ℤ neg_ℕ a
neg_shrink v a h = neg_rest (a - v) v a (omega arith)

pub pos_shrink : (v a : ℕ) → v ≤ a → pos (a - v) ≡ neg_ℕ v +ℤ pos a
unfolding ◌+ℤ◌
pos_shrink zero a h = ground arith
pos_shrink (suc v) a h = ground arith

pub neg_grow : (v a : ℕ) → neg_ℕ (a + v) ≡ neg_ℕ v +ℤ neg_ℕ a
unfolding ◌+ℤ◌
neg_grow zero zero = refl
neg_grow zero (suc a) = let whole : suc a + 0 ≡ suc a = omega arith in rw whole (ground arith)
neg_grow (suc v) zero = let whole : 0 + suc v ≡ suc v = omega arith in rw whole (ground arith)
neg_grow (suc v) (suc a) =
    let whole : suc a + suc v ≡ suc (a + v + 1) = omega arith in rw whole (ground arith)

-- The same steps for a difference from which the bignum is taken away.
pub pos_minus : (v : ℕ) (b : ℤ) → pos v -ℤ b ≡ pos v +ℤ neg b
unfolding ◌+ℤ◌ ◌-ℤ◌
pos_minus v (pos zero) = ground arith
pos_minus v (pos (suc n)) = ground arith
pos_minus v (negsuc n) = ground arith

pub neg_minus : (v : ℕ) (b : ℤ) → neg_ℕ v -ℤ b ≡ neg_ℕ v +ℤ neg b
unfolding ◌+ℤ◌ ◌-ℤ◌
neg_minus zero (pos zero) = ground arith
neg_minus zero (pos (suc n)) = ground arith
neg_minus zero (negsuc n) = ground arith
neg_minus (suc v) (pos zero) = ground arith
neg_minus (suc v) (pos (suc n)) = ground arith
neg_minus (suc v) (negsuc n) = ground arith

pub neg-neg_ℕ : (a : ℕ) → neg (neg_ℕ a) ≡ pos a
neg-neg_ℕ zero = refl
neg-neg_ℕ (suc a) = refl

pub minus_swap : (a b : ℤ) → b -ℤ a ≡ neg a +ℤ b
unfolding ◌+ℤ◌ ◌-ℤ◌
minus_swap (pos zero) b = ground arith
minus_swap (pos (suc n)) b = ground arith
minus_swap (negsuc n) b = ground arith

pub +ℤ_comm : (a b : ℤ) → a +ℤ b ≡ b +ℤ a
unfolding ◌+ℤ◌
+ℤ_comm a b = ground arith

pub minus-plus_neg : (a b : ℤ) → a -ℤ b ≡ a +ℤ neg b
unfolding ◌+ℤ◌ ◌-ℤ◌
minus-plus_neg a (pos zero) = ground arith
minus-plus_neg a (pos (suc n)) = ground arith
minus-plus_neg a (negsuc n) = ground arith
