-- ===== src/Limbs.antt =====
-- Lists of 64-bit limbs, least significant first (GMP's mp_limb_t arrays), and the number that
-- such a list stands for.
use ikarus.Base.{
  ℕ, zero, suc, ◌+◌, ◌-◌, ◌*◌, ◌≤◌, ◌<◌, ◌≡◌, refl, ap, arith, List, [], ◌∷◌, ◌++◌, length, get_or,
  take, drop, replicate, take_all, length-take,
}
use ikarus.Word.{word_mod}
use Prim.Native.Nat.add
use native.Mathlib.Nat.{mul-le-mul_left}

abbrev pub value : List ℕ → ℕ
value [] = 0
value (x ∷ xs) = x + word_mod * value xs

-- word_mod ^ n
abbrev pub weight : ℕ → ℕ
weight zero = 1
weight (suc n) = word_mod * weight n

abbrev pub IsLimbs : List ℕ → Type 0
IsLimbs [] = Unit {0}
IsLimbs (x ∷ xs) = (x < word_mod) × IsLimbs xs

pub weight_pos : (n : ℕ) → 0 < weight n
weight_pos zero = omega arith
weight_pos (suc n) = omega (arith, weight_pos n)

pub weight_mono : (n m : ℕ) → n ≤ m → weight n ≤ weight m
weight_mono zero m h = weight_pos m
weight_mono (suc n) zero h = absurd (omega arith)
weight_mono (suc n) (suc m) h = omega (arith, weight_mono n m (omega arith))

pub weight_add : (n m : ℕ) → weight (n + m) ≡ weight n * weight m
weight_add zero m = ground arith
weight_add (suc n) m = rw (add.suc n m) (omega (arith, weight_add n m))

pub value-lt : (xs : List ℕ) → IsLimbs xs → value xs < weight (length xs)
value-lt [] h = omega arith
value-lt (x ∷ xs) h = omega (arith, value-lt xs h.1)

pub value-append : (xs ys : List ℕ) → value (xs ++ ys) ≡ value xs + weight (length xs) * value ys
value-append [] ys = omega arith
value-append (x ∷ xs) ys = omega (arith, value-append xs ys)

pub value-append_last :
    (xs : List ℕ) (x : ℕ) → value (xs ++ x ∷ []) ≡ value xs + weight (length xs) * x
value-append_last [] x = omega arith
value-append_last (y ∷ ys) x = omega (arith, value-append_last ys x)

-- One more limb from the low end.
pub value-take-suc :
    (n : ℕ) (xs : List ℕ)
    → n < length xs
    → value (take (suc n) xs) ≡ value (take n xs) + weight n * get_or xs n 0
value-take-suc n [] h = absurd (omega arith)
value-take-suc zero (x ∷ xs) h = omega arith
value-take-suc (suc n) (x ∷ xs) h = omega (arith, value-take-suc n xs (omega arith))

pub value-take-drop :
    (n : ℕ) (xs : List ℕ)
    → n ≤ length xs
    → value xs ≡ value (take n xs) + weight n * value (drop n xs)
value-take-drop zero xs h = omega arith
value-take-drop (suc n) [] h = absurd (omega arith)
value-take-drop (suc n) (x ∷ xs) h = omega (arith, value-take-drop n xs (omega arith))

pub value-replicate : (n : ℕ) → value (replicate n 0) ≡ 0
value-replicate zero = refl
value-replicate (suc n) = omega (arith, value-replicate n)

pub IsLimbs-take : (n : ℕ) (xs : List ℕ) → IsLimbs xs → IsLimbs (take n xs)
IsLimbs-take zero xs h = tt
IsLimbs-take (suc n) [] h = tt
IsLimbs-take (suc n) (x ∷ xs) h = (h.0, IsLimbs-take n xs h.1)

pub IsLimbs-drop : (n : ℕ) (xs : List ℕ) → IsLimbs xs → IsLimbs (drop n xs)
IsLimbs-drop zero xs h = h
IsLimbs-drop (suc n) [] h = tt
IsLimbs-drop (suc n) (x ∷ xs) h = IsLimbs-drop n xs h.1

pub IsLimbs-append : (xs ys : List ℕ) → IsLimbs xs → IsLimbs ys → IsLimbs (xs ++ ys)
IsLimbs-append [] ys h k = k
IsLimbs-append (x ∷ xs) ys h k = (h.0, IsLimbs-append xs ys h.1 k)

pub IsLimbs-replicate : (n : ℕ) → IsLimbs (replicate n 0)
IsLimbs-replicate zero = tt
IsLimbs-replicate (suc n) = (omega arith, IsLimbs-replicate n)

pub get_or-lt : (xs : List ℕ) (i : ℕ) → IsLimbs xs → get_or xs i 0 < word_mod
get_or-lt [] i h = omega arith
get_or-lt (x ∷ xs) zero h = h.0
get_or-lt (x ∷ xs) (suc i) h = get_or-lt xs i h.1

-- A limb that is not zero bounds the number from below.
pub weight-le-value :
    (n : ℕ) (xs : List ℕ) → n < length xs → 0 < get_or xs n 0 → weight n ≤ value (take (suc n) xs)
weight-le-value n xs h pos = omega (arith, value-take-suc n xs h, mul-le-mul_left (weight n) pos)

-- The limb at the top.
pub value-top :
    (xs : List ℕ)
    → 0 < length xs
    → value xs
      ≡ value (take (length xs - 1) xs) + weight (length xs - 1) * get_or xs (length xs - 1) 0
value-top xs h =
    let n = length xs - 1 in
    let whole : suc n ≡ length xs = omega arith in
    omega (
      arith,
      value-take-suc n xs (omega arith),
      ap (λ k. value (take k xs)) whole,
      ap value (take_all xs),
    )

pub get_or_in : (xs : List ℕ) (i : ℕ) → 0 < get_or xs i 0 → i < length xs
get_or_in [] i h = absurd (omega arith)
get_or_in (x ∷ xs) zero h = omega arith
get_or_in (x ∷ xs) (suc i) h = omega (arith, get_or_in xs i h)

pub weight-le-value_top :
    (xs : List ℕ) → 0 < get_or xs (length xs - 1) 0 → weight (length xs - 1) ≤ value xs
weight-le-value_top xs h = omega (
  arith,
  value-top xs (omega (arith, get_or_in xs _ h)),
  mul-le-mul_left (weight (length xs - 1)) h,
)

-- The top limb of a number that is large enough is not zero.
pub top_pos :
    (xs : List ℕ)
    → IsLimbs xs
    → 0 < length xs
    → weight (length xs - 1) ≤ value xs
    → 0 < get_or xs (length xs - 1) 0
top_pos xs limbs h big =
    let n = length xs - 1 in
    ground (
      arith,
      value-top xs h,
      value-lt (take n xs) (IsLimbs-take n xs limbs),
      length-take n xs (omega arith),
      ap weight (length-take n xs (omega arith)),
    )
