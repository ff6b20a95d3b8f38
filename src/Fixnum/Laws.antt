-- ===== src/Fixnum/Laws.antt =====
-- Sums, differences and products of fixnums are right, on every branch.
use ikarus.Base.{
  ℕ, zero, suc, ◌+◌, ◌%◌, ◌^◌, lt→ltb, ◌*◌, ◌≤◌, ◌<◌, ◌≡◌, refl, sym, arith, ◌⊎◌, leb, ◌==◌, List,
  [], ◌∷◌, inl, inr, true, false, Bool-cases,
}
use ikarus.Base.Int.{ℤ, pos, negsuc, eq_ℤ, magnitude, ◌+ℤ◌, ◌-ℤ◌, ◌*ℤ◌}
use ikarus.Bignum.Normalize.{IsSign, verify_bignum-Returns, fix-Returns}
use ikarus.Bignum.Valid.{Returns}
use ikarus.Bignum.{ok, word, with_sign, most_fixnum, verify_bignum, header}
use ikarus.Fixnum.{
  fxfxplus_result, fxfxminus_result, fxfxmult_result, product_sign, first_limb, ikrt_fxfxplus,
  ikrt_fxfxminus, ikrt_fxfxmult,
}
use ikarus.Mpn.{Mpn, IsMpn, IsProduct}
use ikarus.Word.{
  IsFixnum, FitsFixnum, fix, unfix, unfix-FitsFixnum, unfix-fix, unfix-fix_fits, fix-IsFixnum,
  word_mod, most_positive_fixnum, most_negative_fixnum,
}

-- A bignum of one limb.
one_limb-Returns :
    (sign m : ℕ)
    → IsSign sign
    → most_fixnum sign < m
    → m < word_mod
    → Returns (verify_bignum (record { fst = header sign 1; limbs = m ∷ [] })) (with_sign sign m)
one_limb-Returns sign m s big lt =
    rw whole at
      (verify_bignum-Returns sign 1 (m ∷ []) s refl (lt, tt) (ground arith) (ground arith))
  where
    whole : m + word_mod * 0 ≡ m
    whole = omega arith

word-Returns : (r : ℤ) → FitsFixnum r → Returns (ok (word (fix r))) r
word-Returns r h = record {
  out = word (fix r);
  returns = refl;
  normal = fix-IsFixnum r;
  equals = unfix-fix r h;
}

-- A number that two fixnums can reach in one step.
abbrev Near : ℤ → Type 0
Near (pos n) = n < 2 ^ 62
Near (negsuc n) = n < 2 ^ 62

eq_ℤ-refl : (a : ℤ) → eq_ℤ a a ≡ true
eq_ℤ-refl a = ground arith

eq_ℤ-eq : (a b : ℤ) → eq_ℤ a b ≡ true → a ≡ b
eq_ℤ-eq a b h = ground arith

fits_test : (r : ℤ) → FitsFixnum r → eq_ℤ r (unfix (fix r)) ≡ true
fits_test r h = rw (unfix-fix r h) (eq_ℤ-refl r)

fits_test_false : (r : ℤ) → eq_ℤ r (unfix (fix r)) ≡ false → ¬ FitsFixnum r
fits_test_false r e h = let t = fits_test r h in cc

plus_large : (r : ℤ) → Near r → eq_ℤ r (unfix (fix r)) ≡ false → Returns (fxfxplus_result r) r
unfolding fxfxplus_result
plus_large (pos n) near e =
    let big : most_positive_fixnum < n = omega (arith, fits_test_false (pos n) e) in
    let same : n % word_mod ≡ n = omega arith in
    rw (e, same, lt→ltb 0 n (omega arith)) (one_limb-Returns 0 n (inl refl) big (omega arith))
plus_large (negsuc n) near e =
    let big : most_negative_fixnum < suc n = omega (arith, fits_test_false (negsuc n) e) in
    let same : suc n % word_mod ≡ suc n = omega arith in
    rw (e, same) (one_limb-Returns 8 (suc n) (inr refl) big (omega arith))

plus_result-Returns : (r : ℤ) → Near r → Returns (fxfxplus_result r) r
unfolding fxfxplus_result
plus_result-Returns r near = elim (Bool-cases (eq_ℤ r (unfix (fix r)))) [
  | inl e ↦ rw e (word-Returns r (unfix-fix_fits r (sym (eq_ℤ-eq _ _ e))))
  | inr e ↦ plus_large r near e
]

FitsFixnum-Near : (a b : ℤ) → FitsFixnum a → FitsFixnum b → Near (a +ℤ b)
FitsFixnum-Near a b ha hb = unfold ◌+ℤ◌ in ground arith

-- The sum of two fixnums is returned, in normal form.
pub ikrt_fxfxplus-Returns :
    (x y : ℕ) → IsFixnum x → IsFixnum y → Returns (ikrt_fxfxplus x y) (unfix x +ℤ unfix y)
unfolding ikrt_fxfxplus
ikrt_fxfxplus-Returns x y hx hy =
    plus_result-Returns (unfix x +ℤ unfix y)
      (FitsFixnum-Near (unfix x) (unfix y) (unfix-FitsFixnum x hx) (unfix-FitsFixnum y hy))

minus_large : (r : ℤ) → Near r → ¬ FitsFixnum r → Returns (fxfxminus_result r) r
unfolding fxfxminus_result
minus_large (pos n) near e =
    let big : most_positive_fixnum < n = omega (arith, e) in
    let same : n % word_mod ≡ n = omega arith in
    let over : leb n most_positive_fixnum ≡ false = ground arith in
    rw (same, over) (one_limb-Returns 0 n (inl refl) big (omega arith))
minus_large (negsuc n) near e =
    let big : most_negative_fixnum < suc n = omega (arith, e) in
    let same : suc n % word_mod ≡ suc n = omega arith in
    let differs : eq_ℤ (unfix (fix (negsuc n))) (negsuc n) ≡ false =
      ground (arith, eq_ℤ-eq (unfix (fix (negsuc n))) (negsuc n), unfix-fix_fits (negsuc n)) in
    rw (differs, same) (one_limb-Returns 8 (suc n) (inr refl) big (omega arith))

minus_small : (r : ℤ) → FitsFixnum r → Returns (fxfxminus_result r) r
unfolding fxfxminus_result
minus_small (pos n) h =
    let same : n % word_mod ≡ n = omega arith in
    let fits : leb n most_positive_fixnum ≡ true = ground arith in
    rw (same, fits) (word-Returns (pos n) h)
minus_small (negsuc n) h =
    rw (unfix-fix (negsuc n) h, eq_ℤ-refl (negsuc n)) (word-Returns (negsuc n) h)

FitsFixnum-dec : (r : ℤ) → FitsFixnum r ⊎ (¬ FitsFixnum r)
FitsFixnum-dec (pos n) = omega arith
FitsFixnum-dec (negsuc n) = omega arith

Near-minus : (a b : ℤ) → FitsFixnum a → FitsFixnum b → Near (a -ℤ b)
Near-minus a b ha hb = unfold ◌-ℤ◌ in ground arith

-- The difference of two fixnums is returned, in normal form.
pub ikrt_fxfxminus-Returns :
    (x y : ℕ) → IsFixnum x → IsFixnum y → Returns (ikrt_fxfxminus x y) (unfix x -ℤ unfix y)
unfolding ikrt_fxfxminus
ikrt_fxfxminus-Returns x y hx hy = elim (FitsFixnum-dec (unfix x -ℤ unfix y)) [
  | inl h ↦ minus_small _ h
  | inr h ↦
      minus_large _ (Near-minus (unfix x) (unfix y) (unfix-FitsFixnum x hx) (unfix-FitsFixnum y hy))
        h
]

two_limbs-Returns :
    (sign lo hi : ℕ)
    → IsSign sign
    → lo < word_mod
    → hi < word_mod
    → 0 < hi
    → Returns
        (verify_bignum (record { fst = header sign 2; limbs = lo ∷ hi ∷ [] }))
        (with_sign sign (lo + word_mod * hi))
two_limbs-Returns sign lo hi s l h positive =
    rw whole at
      (verify_bignum-Returns sign 2 (lo ∷ hi ∷ []) s refl (l, (h, tt)) positive (ground arith))
  where
    whole : lo + word_mod * (hi + word_mod * 0) ≡ lo + word_mod * hi
    whole = omega arith

product_result-Returns :
    (sign hi lo : ℕ)
    → sign ≤ 1
    → lo < word_mod
    → hi < word_mod
    → Returns (fxfxmult_result sign hi lo) (with_sign (sign * 8) (lo + word_mod * hi))
unfolding fxfxmult_result
product_result-Returns zero zero lo s l h =
    let whole : lo + word_mod * 0 ≡ lo = omega arith in
    rw whole (elim (Bool-cases (leb lo most_positive_fixnum)) [
      | inl e ↦ rw e (fix-Returns 0 lo (ground arith))
      | inr e ↦ rw e (one_limb-Returns 0 lo (inl refl) (ground arith) l)
    ])
product_result-Returns (suc zero) zero lo s l h =
    let whole : lo + word_mod * 0 ≡ lo = omega arith in
    rw whole (elim (Bool-cases (leb lo most_negative_fixnum)) [
      | inl e ↦ rw e (fix-Returns 8 lo (ground arith))
      | inr e ↦ rw e (one_limb-Returns 8 lo (inr refl) (ground arith) l)
    ])
product_result-Returns (suc (suc sign)) hi lo s l h = absurd (omega arith)
product_result-Returns sign (suc hi) lo s l h =
    let more : (suc hi == 0) ≡ false = ground arith in
    rw more (two_limbs-Returns (sign * 8) lo (suc hi) (ground arith) l h (omega arith))

with_sign-product :
    (a b : ℤ) → with_sign (product_sign a b * 8) (magnitude a * magnitude b) ≡ a *ℤ b
unfolding ◌*ℤ◌
with_sign-product (pos a) (pos b) = ground arith
with_sign-product (pos a) (negsuc b) = ground arith
with_sign-product (negsuc a) (pos b) = ground arith
with_sign-product (negsuc a) (negsuc b) = ground arith

magnitude-lt : (a : ℤ) → FitsFixnum a → magnitude a < word_mod
magnitude-lt (pos a) h = omega arith
magnitude-lt (negsuc a) h = omega arith

product_sign-le : (a b : ℤ) → product_sign a b ≤ 1
product_sign-le (pos a) (pos b) = omega arith
product_sign-le (pos a) (negsuc b) = omega arith
product_sign-le (negsuc a) (pos b) = omega arith
product_sign-le (negsuc a) (negsuc b) = omega arith

one_product-Returns :
    (sign a v : ℕ) (r : List ℕ × ℕ)
    → sign ≤ 1
    → IsProduct 1 (a * v) r
    → Returns (fxfxmult_result sign r.1 (first_limb r.0)) (with_sign (sign * 8) (a * v))
unfolding first_limb
one_product-Returns sign a v ([], hi) s p = absurd (omega (arith, p.size))
one_product-Returns sign a v (lo ∷ [], hi) s p =
    rw whole at (product_result-Returns sign hi lo s p.limbs.0 p.top)
  where
    whole : lo + word_mod * hi ≡ a * v
    whole = omega (arith, p.product)
one_product-Returns sign a v (lo ∷ k ∷ ks, hi) s p = absurd (omega (arith, p.size))

-- The product of two fixnums is returned, in normal form.
pub ikrt_fxfxmult-Returns :
    (m : Mpn) (x y : ℕ)
    → IsMpn m
    → IsFixnum x
    → IsFixnum y
    → Returns (ikrt_fxfxmult m x y) (unfix x *ℤ unfix y)
unfolding ikrt_fxfxmult
ikrt_fxfxmult-Returns m x y laws hx hy =
    let a = unfix x in
    let b = unfix y in
    let la = magnitude-lt a (unfix-FitsFixnum x hx) in
    let lb = magnitude-lt b (unfix-FitsFixnum y hy) in
    let one : magnitude a + word_mod * 0 ≡ magnitude a = omega arith in
    let p = laws.mul_1_lem (magnitude a ∷ []) (magnitude b) (la, tt) (omega arith) lb in
    rw (← with_sign-product a b) (
      one_product-Returns (product_sign a b) (magnitude a) (magnitude b) _ (product_sign-le a b)
        (rw one at p))

-- The sum, the difference and the product of two fixnums are returned, in normal form.
pub fixnum_results :
    (m : Mpn) (x y : ℕ)
    → IsMpn m
    → IsFixnum x
    → IsFixnum y
    → Returns (ikrt_fxfxplus x y) (unfix x +ℤ unfix y)
      × Returns (ikrt_fxfxminus x y) (unfix x -ℤ unfix y)
      × Returns (ikrt_fxfxmult m x y) (unfix x *ℤ unfix y)
fixnum_results m x y laws hx hy = (
  ikrt_fxfxplus-Returns x y hx hy,
  ikrt_fxfxminus-Returns x y hx hy,
  ikrt_fxfxmult-Returns m x y laws hx hy,
)
