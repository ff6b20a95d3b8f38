-- ===== src/Foreign/Numbers.antt =====
-- The conversions between C's integers and numbers.
use ikarus.Base.{
  ℕ, zero, suc, ◌+◌, ◌-◌, ◌*◌, ◌/◌, ◌%◌, ◌^◌, ◌≤◌, ◌<◌, ◌≡◌, refl, ap, arith, [], ◌∷◌, get_or,
  length, some, true, false, ltb, leb, ◌==◌, Bool-cases, inl, inr,
}
use ikarus.Base.Int.{ℤ, pos, negsuc, neg_ℕ, eq_ℤ}
use ikarus.Bignum.Valid.{IsBignum, IsNumber, value-one, two_limbs-big, IsBignum-length_pos}
use ikarus.Bignum.{Bignum, Obj, word, bignum, header, to_int, sign_bits}
use ikarus.Foreign.{s_to_number, u_to_number, extract_num, extract_num_longlong}
use ikarus.Limbs.{value}
use ikarus.Word.{
  FitsFixnum, fix, unfix, fix-IsFixnum, unfix-fix, unfix-fix_fits, most_positive_fixnum,
  most_negative_fixnum, to_long,
}

abbrev pub FitsBits : ℕ → ℤ → Type 0
FitsBits w (pos n) = n < 2 ^ w
FitsBits w (negsuc n) = n < 2 ^ w

-- The object is the number in normal form.
abbrev pub IsNumberOf : Obj → ℤ → Type 0
IsNumberOf o n = IsNumber o × (to_int o ≡ n)

positive_limb :
    (m : ℕ)
    → most_positive_fixnum < m
    → m < 2 ^ 64
    → IsNumberOf (bignum (record { fst = header 0 1; limbs = m ∷ [] })) (pos m)
positive_limb m big lt =
    let whole : m + 2 ^ 64 * 0 ≡ m = omega arith in
    (
      record {
        tagged = refl;
        counted = refl;
        in_words = (lt, tt);
        trimmed = omega (arith, big);
        big = omega (arith, big);
      },
      rw whole refl,
    )

negative_limb :
    (m : ℕ)
    → most_negative_fixnum ≤ m
    → suc m < 2 ^ 64
    → IsNumberOf (bignum (record { fst = header 8 1; limbs = suc m ∷ [] })) (negsuc m)
negative_limb m big lt =
    let whole : suc m + 2 ^ 64 * 0 ≡ suc m = omega arith in
    (
      record {
        tagged = refl;
        counted = refl;
        in_words = (lt, tt);
        trimmed = omega arith;
        big = omega (arith, big);
      },
      rw whole refl,
    )

small : (n : ℤ) → FitsFixnum n → IsNumberOf (word (fix n)) n
small n h = (fix-IsFixnum n, unfix-fix n h)

same_eq : (n : ℤ) → eq_ℤ n n ≡ true
same_eq (pos n) = ground arith
same_eq (negsuc n) = ground arith

fits_test : (n : ℤ) → FitsFixnum n → eq_ℤ (unfix (fix n)) n ≡ true
fits_test n h = rw (unfix-fix n h) (same_eq n)

no_fit : (n : ℤ) → ¬ FitsFixnum n → eq_ℤ (unfix (fix n)) n ≡ false
no_fit n ne = elim (Bool-cases (eq_ℤ (unfix (fix n)) n)) [
  | inl e ↦ absurd (ne (unfix-fix_fits n (same (unfix (fix n)) n e)))
  | inr e ↦ e
]
  where
    same : (a b : ℤ) → eq_ℤ a b ≡ true → a ≡ b
    same a b h = ground arith

-- A long as a number.
pub s_to_number-IsNumberOf : (n : ℤ) → FitsBits 63 n → IsNumberOf (s_to_number n) n
unfolding s_to_number
s_to_number-IsNumberOf (pos n) h = elim (Bool-cases (leb n most_positive_fixnum)) [
  | inl e ↦
      let fits : FitsFixnum (pos n) = ground arith in
      rw (fits_test (pos n) fits) (small (pos n) fits)
  | inr e ↦
      let big : most_positive_fixnum < n = ground arith in
      let whole : n % 2 ^ 64 ≡ n = omega arith in
      let above : ltb 0 n ≡ true = ground arith in
      rw (no_fit (pos n) (λ f. omega (arith, f, big)), above, whole)
        (positive_limb n big (omega arith))
]
s_to_number-IsNumberOf (negsuc n) h = elim (Bool-cases (leb (suc n) most_negative_fixnum)) [
  | inl e ↦
      let fits : FitsFixnum (negsuc n) = ground arith in
      rw (fits_test (negsuc n) fits) (small (negsuc n) fits)
  | inr e ↦
      let big : most_negative_fixnum ≤ n = ground arith in
      let whole : suc n % 2 ^ 64 ≡ suc n = omega arith in
      rw (no_fit (negsuc n) (λ f. omega (arith, f, big)), whole) (negative_limb n big (omega arith))
]

-- An unsigned long as a number.
pub u_to_number-IsNumberOf : (n : ℕ) → n < 2 ^ 64 → IsNumberOf (u_to_number n) (pos n)
unfolding u_to_number
u_to_number-IsNumberOf n h = elim (Bool-cases (leb n ((2 ^ 64 - 1) / 16))) [
  | inl e ↦ rw e (small (pos n) (ground arith))
  | inr e ↦ rw e (positive_limb n (ground arith) h)
]

-- A bignum of a long has one limb.
one_limb : (b : Bignum) → IsBignum b → value b.limbs < 2 ^ 64 → value b.limbs ≡ get_or b.limbs 0 0
one_limb b h lt = elim (Bool-cases (ltb 1 (length b.limbs))) [
  | inl e ↦ absurd (omega (arith, lt, two_limbs-big b.limbs (ground arith) h.trimmed))
  | inr e ↦
      let some : 0 < length b.limbs = IsBignum-length_pos b h in
      value-one b.limbs (ground (arith, some))
]

long_positive : (v : ℕ) → v < 2 ^ 63 → to_long v ≡ pos v
long_positive v h = ground arith

long_negative : (v : ℕ) → FitsBits 63 (neg_ℕ v) → 0 < v → to_long ((2 ^ 64 - v) % 2 ^ 64) ≡ neg_ℕ v
long_negative zero h lt = absurd (omega arith)
long_negative (suc k) h lt =
    let low : (2 ^ 64 - suc k) % 2 ^ 64 ≡ 2 ^ 64 - suc k = omega arith in rw low (ground arith)

magnitude_fits : (v : ℕ) → FitsBits 63 (neg_ℕ v) → v < 2 ^ 64
magnitude_fits zero h = omega arith
magnitude_fits (suc k) h = omega (arith, h)

-- The long of a number that fits one.
pub extract_num-some :
    (o : Obj) → IsNumber o → FitsBits 63 (to_int o) → extract_num o ≡ some (to_int o)
unfolding extract_num
extract_num-some (word w) h fits =
    let tag : (w % 8 == 0) ≡ true = ground (arith, h.tagged) in rw tag refl
extract_num-some (bignum b) h fits = elim (Bool-cases (sign_bits b == 0)) [
  | inl e ↦
      let at : value b.limbs < 2 ^ 63 = rw e at fits in
      let one = one_limb b h (omega (arith, at)) in
      rw (e, one) (ap some (long_positive (get_or b.limbs 0 0) (omega (arith, at, one))))
  | inr e ↦
      let at : FitsBits 63 (neg_ℕ (value b.limbs)) = rw e at fits in
      let one = one_limb b h (magnitude_fits (value b.limbs) at) in
      rw (e, one)
        (ap some (long_negative (get_or b.limbs 0 0) (rw one at at) (omega (arith, one, h.big))))
]

-- Both readings of a number as an integer of 64 bits are the same.
pub extract_num_longlong-extract_num : (o : Obj) → extract_num_longlong o ≡ extract_num o
unfolding extract_num_longlong extract_num
extract_num_longlong-extract_num (word w) = refl
extract_num_longlong-extract_num (bignum b) = elim (Bool-cases (b.fst == 19)) [
  | inl e ↦ let f : b.fst ≡ 19 = ground arith in rw f refl
  | inr e ↦ elim (Bool-cases (b.fst == 27)) [
    | inl f ↦ let g : b.fst ≡ 27 = ground arith in rw g refl
    | inr f ↦ ground arith
  ]
]

-- A long and an unsigned long are made numbers in normal form, and every object is read as the same
-- integer by extract_num and by extract_num_longlong.
pub conversions :
    (n : ℤ) (u : ℕ) (o : Obj)
    → FitsBits 63 n
    → u < 2 ^ 64
    → IsNumberOf (s_to_number n) n
      × IsNumberOf (u_to_number u) (pos u)
      × (extract_num_longlong o ≡ extract_num o)
conversions n u o hn hu =
    (s_to_number-IsNumberOf n hn, u_to_number-IsNumberOf u hu, extract_num_longlong-extract_num o)
