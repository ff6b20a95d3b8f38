-- ===== src/Bignum/Normalize.antt =====
-- What the constructors of bignums return.
use ikarus.Base.{
  ℕ, zero, suc, ◌-◌, ◌*◌, ◌/◌, ◌%◌, ◌≤◌, ◌<◌, ◌≡◌, refl, arith, List, length, take, get_or, ◌⊎◌,
  inl, inr, length-take, get_or-take, sym, ◌&&◌, leb, ◌==◌, Bool-cases, true,
}
use ikarus.Bignum.Valid.{IsBignum, Returns, verify_bignum-ok, two_limbs-big, value-one}
use ikarus.Bignum.{
  Bignum, word, bignum, ok, header, with_sign, most_fixnum, verify_bignum, trim, normalize_bignum,
}
use ikarus.Limbs.{value, IsLimbs, IsLimbs-take, value-take-suc}
use ikarus.Word.{fix, FitsFixnum, fix-IsFixnum, unfix-fix}

-- The two values of the sign bits.
abbrev pub IsSign : ℕ → Type 0
IsSign sign = (sign ≡ 0) ⊎ (sign ≡ 8)

with_sign-FitsFixnum : (s m : ℕ) → m ≤ most_fixnum s → FitsFixnum (with_sign s m)
with_sign-FitsFixnum s zero h = elim (Bool-cases (s == 0)) [
  | inl e ↦ rw e (omega arith)
  | inr e ↦ rw e (omega arith)
]
with_sign-FitsFixnum s (suc m) h = elim (Bool-cases (s == 0)) [
  | inl e ↦ rw e (rw e at h)
  | inr e ↦ rw e (rw e at h)
]

-- A word is returned for what fits a fixnum.
pub fix-Returns :
    (sign m : ℕ)
    → m ≤ most_fixnum sign
    → Returns (ok (word (fix (with_sign sign m)))) (with_sign sign m)
fix-Returns sign m h = record {
  out = word (fix (with_sign sign m));
  returns = refl;
  normal = fix-IsFixnum _;
  equals = unfix-fix (with_sign sign m) (with_sign-FitsFixnum sign m h);
}

-- The sign and the count are read back from the header.
pub header-IsBignum :
    (sign n : ℕ) (d : List ℕ)
    → IsSign sign
    → n ≡ length d
    → IsLimbs d
    → 0 < get_or d (length d - 1) 0
    → most_fixnum sign < value d
    → (IsBignum (record { fst = header sign n; limbs = d })) × (header sign n / 8 % 2 * 8 ≡ sign)
header-IsBignum sign n d s count limbs top big =
    let bits : header sign n / 8 % 2 * 8 ≡ sign = omega arith in
    (
      record {
        tagged = omega arith;
        counted = omega arith;
        in_words = limbs;
        trimmed = top;
        big = rw bits big;
      },
      bits,
    )

-- A header over limbs in normal form makes a bignum.
pub verify_bignum-Returns :
    (sign n : ℕ) (d : List ℕ)
    → IsSign sign
    → n ≡ length d
    → IsLimbs d
    → 0 < get_or d (length d - 1) 0
    → most_fixnum sign < value d
    → Returns (verify_bignum (record { fst = header sign n; limbs = d })) (with_sign sign (value d))
verify_bignum-Returns sign n d s count limbs top big =
    let b : Bignum = record { fst = header sign n; limbs = d } in
    let (whole, bits) = header-IsBignum sign n d s count limbs top big in
    record { out = bignum b; returns = verify_bignum-ok b whole; normal = whole; equals = rw bits }

pub zero-Returns : (sign : ℕ) → Returns (ok (word 0)) (with_sign sign 0)
zero-Returns sign = rw zero_word at (fix-Returns sign 0 (omega arith))
  where
    zero_word : fix (with_sign sign 0) ≡ 0
    zero_word = unfold fix in elim (Bool-cases (sign == 0)) [ inl e ↦ rw e | inr e ↦ rw e ]

-- The zeros at the top are dropped, and the number stays.
pub record IsTrim (n : ℕ) (d : List ℕ) (k : ℕ) : Type 0 where
  pub le : k ≤ n
  pub same : value (take k d) ≡ value (take n d)
  pub top : 0 < k → 0 < get_or d (k - 1) 0

pub trim-IsTrim : (n : ℕ) (d : List ℕ) → n ≤ length d → IsTrim n d (trim n d)
unfolding trim
trim-IsTrim zero d h = record { le = omega arith; same = refl; top = omega arith }
trim-IsTrim (suc n) d h =
    let rest = trim-IsTrim n d (omega arith) in
    elim (Bool-cases (get_or d n 0 == 0)) [
      | inl e ↦ rw e (record {
        le = omega (arith, rest.le);
        same = ground (arith, rest.same, value-take-suc n d h);
        top = rest.top;
      })
      | inr e ↦ rw e (record { le = omega arith; same = refl; top = λ p. ground arith })
    ]

-- What is left of the trimmed limbs once they are known to be a bignum.
pub trimmed-Returns :
    (k sign : ℕ) (d : List ℕ)
    → IsSign sign
    → IsLimbs d
    → 0 < k
    → k ≤ length d
    → 0 < get_or d (k - 1) 0
    → (k ≡ 1 → most_fixnum sign < get_or d 0 0)
    → Returns
        (verify_bignum (record { fst = header sign k; limbs = take k d }))
        (with_sign sign (value (take k d)))
trimmed-Returns k sign d s limbs positive le top big =
    let len = length-take k d le in
    let top' : 0 < get_or (take k d) (length (take k d) - 1) 0 =
      rw len (rw (get_or-take k d (k - 1) 0 (omega arith)) top) in
    verify_bignum-Returns sign k (take k d) s (sym len) (IsLimbs-take k d limbs) top'
      (ground (arith, big, value-one (take k d), two_limbs-big (take k d), get_or-take k d 0 0))

-- `normalize_bignum` returns the number of the limbs under its sign, as a fixnum where one holds it
-- and in normal form otherwise.
pub normalize_bignum-Returns :
    (n sign : ℕ) (d : List ℕ)
    → IsSign sign
    → IsLimbs d
    → n ≤ length d
    → Returns (normalize_bignum n sign d) (with_sign sign (value (take n d)))
unfolding normalize_bignum
normalize_bignum-Returns n sign d s limbs le =
    let t = trim-IsTrim n d le in
    let k = trim n d in
    rw (← t.same) (elim (Bool-cases (k == 0)) [
      | inl e ↦ let z : trim n d ≡ 0 = ground arith in rw z (zero-Returns sign)
      | inr e ↦ elim (Bool-cases (k == 1 && leb (get_or d 0 0) (most_fixnum sign))) [
        | inl f ↦
            let z : trim n d ≡ 1 = ground arith in
            let small : leb (get_or d 0 0) (most_fixnum sign) ≡ true = ground arith in
            let one : value (take 1 d) ≡ get_or d 0 0 =
              omega (arith, value-take-suc 0 d (omega (arith, t.le))) in
            rw (z, small, one) (fix-Returns sign (get_or d 0 0) (ground arith))
        | inr f ↦
            rw (e, f)
              (trimmed-Returns k sign d s limbs (ground arith) (omega (arith, t.le))
                (t.top (ground arith)) (ground arith))
      ]
    ])
