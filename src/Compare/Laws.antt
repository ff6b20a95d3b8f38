-- ===== src/Compare/Laws.antt =====
-- The comparison of bignums is the order of the integers.
use ikarus.Base.{
  ℕ, zero, suc, ◌*◌, ◌≤◌, ◌<◌, ◌≡◌, refl, ap, arith, List, length, take, get_or, ltb, Bool-cases,
  inl, inr, take_all,
}
use ikarus.Base.Int.{ℤ, pos, negsuc, neg_ℕ, pos_part, ◌<ℤ◌}
use ikarus.Bignum.Valid.{IsBignum}
use ikarus.Bignum.{Bignum, bignum, to_int, nonnegative}
use ikarus.BnBn.Subtract.{take_lt, shorter_lt}
use ikarus.Compare.{compare_limbs, compare_magnitudes, ikrt_bnbncomp}
use ikarus.Limbs.{value, weight, IsLimbs, value-take-suc}
use ikarus.Word.{fix}

-- The word c says how a and b are ordered.
pub record Compares (less more c a b : ℕ) : Type 0 where
  pub below : a < b → c ≡ less
  pub equal : a ≡ b → c ≡ 0
  pub above : b < a → c ≡ more

module _ (less more : ℕ) (xs ys : List ℕ) (hx : IsLimbs xs) (hy : IsLimbs ys) where
  compare_limbs-Compares :
      (n : ℕ)
      → n ≤ length xs
      → n ≤ length ys
      → Compares less more (compare_limbs less more n xs ys) (value (take n xs)) (value (take n ys))
  unfolding compare_limbs
  compare_limbs-Compares zero p q = record {
    below = omega arith;
    equal = λ e. refl;
    above = omega arith;
  }
  compare_limbs-Compares (suc n) p q =
      let rest = compare_limbs-Compares n (omega arith) (omega arith) in
      let t1 = get_or xs n 0 in
      let t2 = get_or ys n 0 in
      elim (Bool-cases (ltb t1 t2)) [
        | inl e ↦
            let lt = take_lt n xs ys hx p q (ground arith) in
            rw e (record {
              below = λ h. refl;
              equal = λ h. absurd (omega (arith, lt));
              above = λ h. absurd (omega (arith, lt));
            })
        | inr e ↦ elim (Bool-cases (ltb t2 t1)) [
          | inl f ↦
              let lt = take_lt n ys xs hy q p (ground arith) in
              rw (e, f)
                (record {
                  below = λ h. absurd (omega (arith, lt));
                  equal = λ h. absurd (omega (arith, lt));
                  above = λ h. refl;
                })
          | inr f ↦
              let same : t1 ≡ t2 = ground arith in
              let ex = value-take-suc n xs p in
              let ey = value-take-suc n ys q in
              let top = ap (λ t. weight n * t) same in
              rw (e, f)
                (record {
                  below = λ h. rest.below (omega (arith, ex, ey, top));
                  equal = λ h. rest.equal (omega (arith, ex, ey, top));
                  above = λ h. rest.above (omega (arith, ex, ey, top));
                })
        ]
      ]

compare_magnitudes-Compares :
    (less more : ℕ) (x y : Bignum)
    → IsBignum x
    → IsBignum y
    → Compares less more (compare_magnitudes less more x y) (value x.limbs) (value y.limbs)
unfolding compare_magnitudes
compare_magnitudes-Compares less more x y hx hy =
    let n = length x.limbs in
    let k = length y.limbs in
    elim (Bool-cases (ltb n k)) [
      | inl e ↦
          let lt = shorter_lt x.limbs y.limbs hx.in_words (ground arith) hy.trimmed in
          rw (hx.counted, hy.counted, e)
            (record {
              below = λ h. refl;
              equal = λ h. absurd (omega (arith, lt));
              above = λ h. absurd (omega (arith, lt));
            })
      | inr e ↦ elim (Bool-cases (ltb k n)) [
        | inl f ↦
            let lt = shorter_lt y.limbs x.limbs hy.in_words (ground arith) hx.trimmed in
            rw (hx.counted, hy.counted, e, f)
              (record {
                below = λ h. absurd (omega (arith, lt));
                equal = λ h. absurd (omega (arith, lt));
                above = λ h. refl;
              })
        | inr f ↦
            let len : k ≡ n = ground arith in
            let c =
              compare_limbs-Compares less more x.limbs y.limbs hx.in_words hy.in_words n
                (omega arith) (omega (arith, len)) in
            let whole : take n y.limbs ≡ y.limbs = rw (← len) (take_all y.limbs) in
            rw (hx.counted, hy.counted, e, f) (rw (take_all x.limbs, whole) at c)
      ]
    ]

-- The word c says how two integers are ordered: the fixnum -1, 0 or 1.
pub record Orders (a b : ℤ) (c : ℕ) : Type 0 where
  pub less : a <ℤ b → c ≡ fix (negsuc 0)
  pub equal : a ≡ b → c ≡ 0
  pub more : b <ℤ a → c ≡ fix (pos 1)

neg-eq : (a b : ℕ) → neg_ℕ a ≡ neg_ℕ b → a ≡ b
neg-eq zero zero h = refl
neg-eq zero (suc b) h = cc
neg-eq (suc a) zero h = cc
neg-eq (suc a) (suc b) h = ground arith

neg-lt : (a b : ℕ) → neg_ℕ a <ℤ neg_ℕ b → b < a
neg-lt zero zero h = omega arith
neg-lt zero (suc b) h = omega arith
neg-lt (suc a) zero h = omega arith
neg-lt (suc a) (suc b) h = omega arith

both_pos : (a b c : ℕ) → Compares (fix (negsuc 0)) (fix (pos 1)) c a b → Orders (pos a) (pos b) c
both_pos a b c h = record {
  less = λ p. h.below (omega arith);
  equal = λ p. h.equal (ap pos_part p);
  more = λ p. h.above (omega arith);
}

both_neg :
    (a b c : ℕ) → Compares (fix (pos 1)) (fix (negsuc 0)) c a b → Orders (neg_ℕ a) (neg_ℕ b) c
both_neg a b c h = record {
  less = λ p. h.above (neg-lt a b p);
  equal = λ p. h.equal (neg-eq a b p);
  more = λ p. h.below (neg-lt b a p);
}

pos_neg : (a b : ℕ) → 0 < b → Orders (pos a) (neg_ℕ b) (fix (pos 1))
pos_neg a zero h = absurd (omega arith)
pos_neg a (suc b) h = record { less = λ p. absurd (omega arith); equal = λ p. cc; more = λ p. refl }

neg_pos : (a b : ℕ) → 0 < a → Orders (neg_ℕ a) (pos b) (fix (negsuc 0))
neg_pos zero b h = absurd (omega arith)
neg_pos (suc a) b h = record { less = λ p. refl; equal = λ p. cc; more = λ p. absurd (omega arith) }

-- `ikrt_bnbncomp` returns the fixnum -1, 0 or 1 as the first integer is less than, equal to or
-- greater than the second.
pub ikrt_bnbncomp-Orders :
    (x y : Bignum)
    → IsBignum x
    → IsBignum y
    → Orders (to_int (bignum x)) (to_int (bignum y)) (ikrt_bnbncomp x y)
unfolding ikrt_bnbncomp
ikrt_bnbncomp-Orders x y hx hy =
    let a = value x.limbs in
    let b = value y.limbs in
    let up = compare_magnitudes-Compares (fix (negsuc 0)) (fix (pos 1)) x y hx hy in
    let down = compare_magnitudes-Compares (fix (pos 1)) (fix (negsuc 0)) x y hx hy in
    elim (Bool-cases (nonnegative x)) [
      | inl e ↦ elim (Bool-cases (nonnegative y)) [
        | inl f ↦ rw (e, f) (both_pos a b _ up)
        | inr f ↦ rw (e, f) (pos_neg a b (omega (arith, hy.big)))
      ]
      | inr e ↦ elim (Bool-cases (nonnegative y)) [
        | inl f ↦ rw (e, f) (neg_pos a b (omega (arith, hx.big)))
        | inr f ↦ rw (e, f) (both_neg a b _ down)
      ]
    ]
