-- ===== src/Printing/Digits.antt =====
-- Decimal digits, and what mpn_get_str returns.
use ikarus.Base.{
  ℕ, ◌+◌, ◌-◌, ◌*◌, ◌<◌, ◌≡◌, refl, arith, List, [], ◌∷◌, length, get_or, Bool-cases, ◌==◌, inl,
  inr, Option, some,
}
use ikarus.Limbs.{value, IsLimbs}
use ikarus.Printing.{string_start}

-- The number that digits stand for, the highest first, behind a number that is read already.
unfoldable pub decimal_from : ℕ → List ℕ → ℕ
decimal_from n [] = n
decimal_from n (d ∷ ds) = decimal_from (n * 10 + d) ds

unfoldable pub IsDigits : List ℕ → Type 0
IsDigits [] = Unit
IsDigits (d ∷ ds) = (d < 10) × IsDigits ds

-- mpn_get_str on limbs whose top one is not zero: digits of the number, with zeros in front at will.
pub record IsGetStr (get_str : List ℕ → List ℕ) : Type 0 where
  pub digits : (ds : List ℕ) → IsLimbs ds → 0 < get_or ds (length ds - 1) 0 → IsDigits (get_str ds)
  pub number :
      (ds : List ℕ)
      → IsLimbs ds
      → 0 < get_or ds (length ds - 1) 0
      → decimal_from 0 (get_str ds) ≡ value ds

-- Digits that start with one that is not zero.
pub record IsNumeral (n : ℕ) (ds : List ℕ) : Type 0 where
  pub digits : IsDigits ds
  pub first : 0 < get_or ds 0 0
  pub number : decimal_from 0 ds ≡ n

pub record Starts (r : Option (List ℕ)) (n : ℕ) : Type 0 where
  pub digits : List ℕ
  pub returns : r ≡ some digits
  pub numeral : IsNumeral n digits

-- The loop stops at a digit before the end of a number that is not zero.
pub string_start-Starts :
    (ds : List ℕ)
    → IsDigits ds
    → 0 < decimal_from 0 ds
    → Starts (string_start ds) (decimal_from 0 ds)
unfolding string_start decimal_from IsDigits
string_start-Starts [] h positive = absurd (omega arith)
string_start-Starts (d ∷ ds) h positive = elim (Bool-cases (d == 0)) [
  | inl e ↦
      let empty : d ≡ 0 = ground arith in
      let same : decimal_from (0 * 10 + d) ds ≡ decimal_from 0 ds = rw empty refl in
      rw (e, same) (string_start-Starts ds h.1 (omega (arith, same, positive)))
  | inr e ↦ rw e (record {
    digits = d ∷ ds;
    returns = refl;
    numeral = record { digits = h; first = ground arith; number = refl };
  })
]
