-- ===== src/Bitwise/Operand.antt =====
-- A bignum in normal form as an operand of the bit operations.
use ikarus.Base.{◌≡◌, arith, true, false, ℕ, suc, ◌-◌, ◌⊎◌, inl, inr, take_all, Bool-cases}
use ikarus.Bignum.Valid.{IsBignum}
use ikarus.Bignum.{Bignum, nonnegative}
use ikarus.Bitwise.{magnitude_limbs}
use ikarus.Limbs.{value}

pub record IsNegative (x : Bignum) : Type 0 where
  pub test : nonnegative x ≡ false
  pub below : ℕ
  pub magnitude : value x.limbs ≡ suc below

pub signs : (x : Bignum) → IsBignum x → (nonnegative x ≡ true) ⊎ IsNegative x
signs x h = elim (Bool-cases (nonnegative x)) [
  | inl e ↦ inl e
  | inr e ↦
      let a = value x.limbs - 1 in
      let m : value x.limbs ≡ suc a = omega (arith, h.big) in
      inr (record { test = e; below = a; magnitude = m })
]

pub magnitude_limbs-IsBignum : (x : Bignum) → IsBignum x → magnitude_limbs x ≡ x.limbs
magnitude_limbs-IsBignum x h = rw h.counted (take_all x.limbs)
