-- ===== src/Printing/Reference.antt =====
-- Decimal digits by division, an implementation of mpn_get_str.
use ikarus.Base.{
  ℕ, zero, suc, ◌*◌, ◌/◌, ◌%◌, ◌^◌, ◌≤◌, ◌<◌, ◌≡◌, ap, ◌∙◌, arith, List, [], ◌∷◌, length,
}
use ikarus.Limbs.{value, IsLimbs, value-lt}
use ikarus.Printing.Digits.{decimal_from, IsDigits, IsGetStr}
use ikarus.Shift.Left.{weight-pow}
use native.Mathlib.Nat.{pow-suc, pow-le-pow_left}

-- As many digits as asked for, in front of those that are there.
pub digits_of : ℕ → ℕ → List ℕ → List ℕ
digits_of zero n acc = acc
digits_of (suc k) n acc = digits_of k (n / 10) (n % 10 ∷ acc)

pub digits_reference : List ℕ → List ℕ
digits_reference ds = digits_of (64 * length ds) (value ds) []

digits_of-IsDigits : (k n : ℕ) (acc : List ℕ) → IsDigits acc → IsDigits (digits_of k n acc)
unfolding digits_of
digits_of-IsDigits zero n acc h = h
digits_of-IsDigits (suc k) n acc h =
    digits_of-IsDigits k (n / 10) (n % 10 ∷ acc) (unfold IsDigits in (omega arith, h))

decimal_from-digits_of :
    (k n : ℕ) (acc : List ℕ) → n < 10 ^ k → decimal_from 0 (digits_of k n acc) ≡ decimal_from n acc
unfolding digits_of decimal_from
decimal_from-digits_of zero n acc lt = ap (λ m. decimal_from m acc) (omega (arith, lt))
decimal_from-digits_of (suc k) n acc lt =
    decimal_from-digits_of k (n / 10) (n % 10 ∷ acc) (omega (arith, lt, pow-suc 10 k))
    ∙ ap (λ m. decimal_from m acc) (omega arith)

enough : (ds : List ℕ) → IsLimbs ds → value ds < 10 ^ (64 * length ds)
enough ds h =
    let wider : 2 ^ (64 * length ds) ≤ 10 ^ (64 * length ds) =
      pow-le-pow_left (omega arith) (64 * length ds) in
    omega (arith, value-lt ds h, weight-pow (length ds), wider)

pub digits_reference-IsGetStr : IsGetStr digits_reference
unfolding digits_reference decimal_from
digits_reference-IsGetStr = record {
  digits = λ ds h top. digits_of-IsDigits (64 * length ds) (value ds) [] (unfold IsDigits in tt);
  number = λ ds h top. decimal_from-digits_of (64 * length ds) (value ds) [] (enough ds h);
}
