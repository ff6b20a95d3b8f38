-- ===== src/Bitwise/And/Positive.antt =====
-- `ikrt_bnbnlogand` of two bignums that are not negative.
use ikarus.Base.{
  ℕ, ◌-◌, ◌<◌, ◌≡◌, ◌≢◌, refl, sym, ap, ◌∙◌, arith, true, List, [], ◌∷◌, length, take, get_or,
  take_all, length-take, get_or-take, ltb, ◌==◌, ◌&&◌, if◌then◌else◌, Bool-cases, inl, inr,
}
use ikarus.Base.Int.{pos}
use ikarus.Bignum.Normalize.{trim-IsTrim, fix-Returns, zero-Returns, header-IsBignum}
use ikarus.Bignum.Valid.{Returns, value-one, two_limbs-big}
use ikarus.Bignum.{Obj, Result, ok, word, bignum, header, trim}
use ikarus.Limbs.{value, IsLimbs, value-take-suc, IsLimbs-take}
use ikarus.Word.{fix, most_positive_fixnum}

-- The result for limbs that the loop combines.
abbrev pub kept : List ℕ → Result Obj
kept d =
    let k = trim (length d) d in
    let last = get_or d (k - 1) 0 in
    if k == 0
    then ok (word 0)
    else if k == 1 && ltb last most_positive_fixnum
    then ok (word (fix (pos last)))
    else ok (bignum (record { fst = header 0 k; limbs = take k d }))

pub kept-Returns :
    (d : List ℕ) → IsLimbs d → value d ≢ most_positive_fixnum → Returns (kept d) (pos (value d))
kept-Returns d h other =
    let t = trim-IsTrim (length d) d (omega arith) in
    let k = trim (length d) d in
    let whole : value (take k d) ≡ value d = t.same ∙ ap value (take_all d) in
    rw (← whole) (elim (Bool-cases (k == 0)) [
      | inl e ↦ let z : trim (length d) d ≡ 0 = ground arith in rw z (zero-Returns 0)
      | inr e ↦ elim (Bool-cases (k == 1 && ltb (get_or d (k - 1) 0) most_positive_fixnum)) [
        | inl f ↦
            let z : trim (length d) d ≡ 1 = ground arith in
            let g = rw z at f in
            let small : ltb (get_or d 0 0) most_positive_fixnum ≡ true = g in
            let one : value (take 1 d) ≡ get_or d 0 0 =
              omega (arith, value-take-suc 0 d (omega (arith, t.le))) in
            rw (z, small, one) (fix-Returns 0 (get_or d 0 0) (ground arith))
        | inr f ↦
            let len = length-take k d t.le in
            let top : 0 < get_or (take k d) (length (take k d) - 1) 0 =
              rw len (rw (get_or-take k d (k - 1) 0 (ground arith)) (t.top (ground arith))) in
            let (normal, bits) =
              header-IsBignum 0 k (take k d) (inl refl) (sym len) (IsLimbs-take k d h) top (
                ground (
                  arith,
                  whole,
                  other,
                  len,
                  value-one (take k d),
                  two_limbs-big (take k d),
                  top,
                  get_or-take k d 0 0,
                )) in
            rw (e, f)
              (record { out = bignum _; returns = refl; normal = normal; equals = rw bits refl })
      ]
    ])

single : (xs : List ℕ) → length xs ≡ 1 → xs ≡ value xs ∷ []
single [] h = absurd (omega arith)
single (x ∷ []) h = ap (λ n. n ∷ []) (omega arith)
single (x ∷ y ∷ xs) h = absurd (omega arith)

-- One limb is left of a number that one limb holds.
trim-single :
    (d : List ℕ)
    → value d ≡ most_positive_fixnum
    → (trim (length d) d ≡ 1) × (take 1 d ≡ most_positive_fixnum ∷ [])
trim-single d e =
    let t = trim-IsTrim (length d) d (omega arith) in
    let k = trim (length d) d in
    let whole : value (take k d) ≡ value d = t.same ∙ ap value (take_all d) in
    let len = length-take k d t.le in
    let some : k ≢ 0 = λ z. absurd (omega (arith, e, whole, ap (λ n. value (take n d)) z)) in
    let top : 0 < get_or (take k d) (length (take k d) - 1) 0 =
      rw len (rw (get_or-take k d (k - 1) 0 (omega (arith, some))) (t.top (omega (arith, some)))) in
    let one : k ≡ 1 = ground (arith, some, whole, e, len, two_limbs-big (take k d), top) in
    (
      one,
      single (take 1 d) (length-take 1 d (omega (arith, t.le, one)))
          ∙ ap (λ n. n ∷ []) (ap (λ n. value (take n d)) (sym one) ∙ whole ∙ e),
    )

-- Limbs with the value of the greatest fixnum are returned as a bignum.
pub kept_unnormalised :
    (d : List ℕ)
    → value d ≡ most_positive_fixnum
    → kept d ≡ ok (bignum (record { fst = header 0 1; limbs = most_positive_fixnum ∷ [] }))
kept_unnormalised d e =
    let (one, same) = trim-single d e in
    let first : get_or d 0 0 ≡ most_positive_fixnum =
      sym (get_or-take 1 d 0 0 (omega arith)) ∙ ap (λ xs. get_or xs 0 0) same in
    rw (one, first, same) refl
