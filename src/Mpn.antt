-- ===== src/Mpn.antt =====
-- The functions of GMP's mpn layer that the runtime calls, as a parameter of the model. A limb
-- array {p, n} is the list of its n limbs; what a function writes through a pointer is returned.
pub mod Reference
use ikarus.Base.{ℕ, ◌+◌, ◌-◌, ◌*◌, ◌/◌, ◌%◌, ◌^◌, ◌≤◌, ◌<◌, ◌≡◌, List, length, get_or}
use ikarus.Limbs.{value, weight, IsLimbs}

pub record Mpn : Type 0 where
  -- the limbs of the sum, and the carry
  pub add_1 : List ℕ → ℕ → List ℕ × ℕ
  pub add : List ℕ → List ℕ → List ℕ × ℕ
  -- the limbs of the difference, and the borrow
  pub sub_1 : List ℕ → ℕ → List ℕ × ℕ
  pub sub : List ℕ → List ℕ → List ℕ × ℕ
  -- the low limbs of the product, and the limb above them
  pub mul_1 : List ℕ → ℕ → List ℕ × ℕ
  pub mul : List ℕ → List ℕ → List ℕ
  -- the quotient and the remainder
  pub tdiv_qr : List ℕ → List ℕ → List ℕ × List ℕ
  pub divrem_1 : List ℕ → ℕ → List ℕ × ℕ
  pub mod_1 : List ℕ → ℕ → ℕ

-- A result of n limbs with a carry, which stand for the number v together.
pub record IsSum (n v : ℕ) (r : List ℕ × ℕ) : Type 0 where
  pub size : length r.0 ≡ n
  pub limbs : IsLimbs r.0
  pub carry : r.1 ≤ 1
  pub sum : value r.0 + weight n * r.1 ≡ v

-- A result of n limbs with a borrow, for the difference of a and b.
pub record IsDifference (n a b : ℕ) (r : List ℕ × ℕ) : Type 0 where
  pub size : length r.0 ≡ n
  pub limbs : IsLimbs r.0
  pub borrow : r.1 ≤ 1
  pub difference : value r.0 + b ≡ a + weight n * r.1

-- A result of n limbs, and the limb above them, which stand for the number v together.
pub record IsProduct (n v : ℕ) (r : List ℕ × ℕ) : Type 0 where
  pub size : length r.0 ≡ n
  pub limbs : IsLimbs r.0
  pub top : r.1 < 2 ^ 64
  pub product : value r.0 + weight n * r.1 ≡ v

-- The quotient and the remainder of a by b, given as n and k limbs.
pub record IsQuotient (n k a b : ℕ) (r : List ℕ × List ℕ) : Type 0 where
  pub quotient_size : length r.0 ≡ n - k + 1
  pub quotient_limbs : IsLimbs r.0
  pub remainder_size : length r.1 ≡ k
  pub remainder_limbs : IsLimbs r.1
  pub quotient : value r.0 ≡ a / b
  pub remainder : value r.1 ≡ a % b

-- What the GMP manual promises of these functions.
pub record IsMpn (m : Mpn) : Type 0 where
  pub add_1_lem :
      (s : List ℕ) (v : ℕ)
      → IsLimbs s
      → 0 < length s
      → v < 2 ^ 64
      → IsSum (length s) (value s + v) (m.add_1 s v)
  pub add_lem :
      (s t : List ℕ)
      → IsLimbs s
      → IsLimbs t
      → length t ≤ length s
      → 0 < length t
      → IsSum (length s) (value s + value t) (m.add s t)
  pub sub_1_lem :
      (s : List ℕ) (v : ℕ)
      → IsLimbs s
      → 0 < length s
      → v < 2 ^ 64
      → IsDifference (length s) (value s) v (m.sub_1 s v)
  pub sub_lem :
      (s t : List ℕ)
      → IsLimbs s
      → IsLimbs t
      → length t ≤ length s
      → 0 < length t
      → IsDifference (length s) (value s) (value t) (m.sub s t)
  pub mul_1_lem :
      (s : List ℕ) (v : ℕ)
      → IsLimbs s
      → 0 < length s
      → v < 2 ^ 64
      → IsProduct (length s) (value s * v) (m.mul_1 s v)
  pub mul_lem :
      (s t : List ℕ)
      → IsLimbs s
      → IsLimbs t
      → length t ≤ length s
      → 0 < length t
      → (length (m.mul s t) ≡ length s + length t)
        × IsLimbs (m.mul s t)
        × (value (m.mul s t) ≡ value s * value t)
  pub tdiv_qr_lem :
      (s t : List ℕ)
      → IsLimbs s
      → IsLimbs t
      → length t ≤ length s
      → 0 < get_or t (length t - 1) 0
      → IsQuotient (length s) (length t) (value s) (value t) (m.tdiv_qr s t)
  pub divrem_1_lem :
      (s : List ℕ) (v : ℕ)
      → IsLimbs s
      → 0 < v
      → v < 2 ^ 64
      → (length (m.divrem_1 s v).0 ≡ length s)
        × IsLimbs (m.divrem_1 s v).0
        × (value (m.divrem_1 s v).0 ≡ value s / v)
        × ((m.divrem_1 s v).1 ≡ value s % v)
  pub mod_1_lem : (s : List ℕ) (v : ℕ) → IsLimbs s → 0 < v → v < 2 ^ 64 → m.mod_1 s v ≡ value s % v
