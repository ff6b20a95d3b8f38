-- ===== src/Product/Laws.antt =====
-- Products with a bignum are right, on every branch.
use ikarus.Base.{
  ℕ, zero, suc, ◌+◌, ◌-◌, ◌*◌, ◌%◌, ◌<◌, ◌≡◌, refl, ap, arith, List, [], ◌∷◌, ◌++◌, length, take,
  inl, inr, false, leb, ◌==◌, if◌then◌else◌, Bool-cases, take_all, length-append, lt→ltb,
}
use ikarus.Base.Int.{ℤ, pos, negsuc, neg, is_pos, eq_ℤ, ◌*ℤ◌}
use ikarus.Bignum.Normalize.{IsSign, normalize_bignum-Returns, zero-Returns}
use ikarus.Bignum.Valid.{IsBignum, Returns, IsBignum-length_pos}
use ikarus.Bignum.{Bignum, bignum, ok, word, sign_bits, with_sign, to_int, normalize_bignum}
use ikarus.Limbs.{value, weight, IsLimbs, IsLimbs-append, value-append_last}
use ikarus.Mpn.{Mpn, IsMpn, IsProduct}
use ikarus.Product.{ikrt_fxbnmult, ikrt_bnbnmult}
use ikarus.Word.{IsFixnum, FitsFixnum, to_word, unfix, unfix-FitsFixnum, word_mod}
use native.Mathlib.Nat.{mul_comm, add_comm}

with_sign-zero : (s : ℕ) → with_sign s 0 ≡ pos 0
with_sign-zero s = ground arith

zero_times : (b : ℤ) → pos 0 *ℤ b ≡ pos 0
unfolding ◌*ℤ◌
zero_times b = ground arith

times_zero : (a : ℤ) → a *ℤ pos 0 ≡ pos 0
unfolding ◌*ℤ◌
times_zero a = ground arith

-- The sign of a product.
pub times_sign :
    (s t a b : ℕ)
    → IsSign s
    → IsSign t
    → with_sign (if s == 0 then t else 8 - t) (a * b) ≡ with_sign s a *ℤ with_sign t b
times_sign s t zero b hs ht =
    let none : 0 * b ≡ 0 = omega arith in rw (none, with_sign-zero s, zero_times) (with_sign-zero _)
times_sign s t (suc a) zero hs ht =
    let none : suc a * 0 ≡ 0 = omega arith in
    rw (none, with_sign-zero t, times_zero) (with_sign-zero _)
times_sign s t (suc a) (suc b) hs ht =
    let some : suc a * suc b ≡ suc (a + b + a * b) = omega arith in rw some (by_signs some hs ht)
  where
    by_signs :
        suc a * suc b ≡ suc (a + b + a * b)
        → IsSign s
        → IsSign t
        → with_sign (if s == 0 then t else 8 - t) (suc (a + b + a * b))
          ≡ with_sign s (suc a) *ℤ with_sign t (suc b)
    by_signs e (inl f) (inl g) = rw (f, g) (unfold ◌*ℤ◌ in ground arith)
    by_signs e (inl f) (inr g) = rw (f, g) (unfold ◌*ℤ◌ in ground arith)
    by_signs e (inr f) (inl g) = rw (f, g) (unfold ◌*ℤ◌ in ground arith)
    by_signs e (inr f) (inr g) = rw (f, g) (unfold ◌*ℤ◌ in ground arith)

-- The limb above a product is stored behind it.
product-Returns :
    (sign n v : ℕ) (r : List ℕ × ℕ)
    → IsSign sign
    → IsProduct n v r
    → Returns (normalize_bignum (n + 1) sign (r.0 ++ r.1 ∷ [])) (with_sign sign v)
product-Returns sign n v r s p =
    let all = r.0 ++ r.1 ∷ [] in
    let len : length all ≡ n + 1 = omega (arith, p.size, length-append r.0 (r.1 ∷ [])) in
    let same : value (take (n + 1) all) ≡ v =
      rw (← len, take_all all)
        (omega (arith, p.product, value-append_last r.0 r.1, ap (λ k. weight k * r.1) p.size)) in
    rw (← same) (
      normalize_bignum-Returns (n + 1) sign all s
        (IsLimbs-append r.0 (r.1 ∷ []) p.limbs (p.top, tt)) (omega (arith, len)))

sign_bits-IsSign : (b : Bignum) → IsSign (sign_bits b)
sign_bits-IsSign b = omega arith

module _ (m : Mpn) (laws : IsMpn m) where
  scaled :
      (v : ℕ) (y : Bignum) (hy : IsBignum y) (sign : ℕ) (hs : IsSign sign)
      → v < word_mod
      → Returns
          (normalize_bignum
            (length y.limbs + 1)
            sign
            ((m.mul_1 y.limbs v).0 ++ (m.mul_1 y.limbs v).1 ∷ []))
          (with_sign sign (value y.limbs * v))
  scaled v y hy sign hs lt =
      product-Returns sign (length y.limbs) (value y.limbs * v) (m.mul_1 y.limbs v) hs
        (laws.mul_1_lem y.limbs v hy.in_words (IsBignum-length_pos y hy) lt)

  fx_cases :
      (r : ℤ) (y : Bignum)
      → IsBignum y
      → FitsFixnum r
      → let v = if is_pos r then to_word r else to_word (neg r) in
        let (p, hi) = m.mul_1 y.limbs v in
        Returns
          (if eq_ℤ r (pos 0)
            then ok (word 0)
            else normalize_bignum
                (length y.limbs + 1)
                (if is_pos r then sign_bits y else 8 - sign_bits y)
                (p ++ hi ∷ []))
          (r *ℤ to_int (bignum y))
  fx_cases (pos zero) y hy fits = rw zero_times (zero-Returns 0)
  fx_cases (pos (suc n)) y hy fits =
      let t = sign_bits y in
      let v : suc n % word_mod ≡ suc n = omega arith in
      let some : eq_ℤ (pos (suc n)) (pos 0) ≡ false = ground arith in
      rw
        (
          some,
          lt→ltb 0 (suc n) (omega arith),
          v,
          ← times_sign 0 t (suc n) (value y.limbs) (inl refl) (sign_bits-IsSign y),
          mul_comm (suc n) (value y.limbs),
        )
        (scaled (suc n) y hy t (sign_bits-IsSign y) (omega arith))
  fx_cases (negsuc n) y hy fits =
      let t = sign_bits y in
      let v : suc n % word_mod ≡ suc n = omega arith in
      let some : eq_ℤ (negsuc n) (pos 0) ≡ false = ground arith in
      rw
        (
          some,
          v,
          ← times_sign 8 t (suc n) (value y.limbs) (inr refl) (sign_bits-IsSign y),
          mul_comm (suc n) (value y.limbs),
        )
        (scaled (suc n) y hy (8 - t) (omega arith) (omega arith))

  -- The product of a fixnum and a bignum is returned, in normal form.
  pub ikrt_fxbnmult-Returns :
      (x : ℕ) (y : Bignum)
      → IsFixnum x
      → IsBignum y
      → Returns (ikrt_fxbnmult m x y) (unfix x *ℤ to_int (bignum y))
  unfolding ikrt_fxbnmult
  ikrt_fxbnmult-Returns x y hx hy =
      rw (hy.counted, take_all y.limbs) (fx_cases (unfix x) y hy (unfix-FitsFixnum x hx))

  limbs-Returns :
      (sign n v : ℕ) (d : List ℕ)
      → IsSign sign
      → (length d ≡ n) × IsLimbs d × (value d ≡ v)
      → Returns (normalize_bignum n sign d) (with_sign sign v)
  limbs-Returns sign n v d s (len, limbs, same) =
      let whole : value (take n d) ≡ v = rw (← len, take_all d) same in
      rw (← whole) (normalize_bignum-Returns n sign d s limbs (omega arith))

  -- The product of two bignums is returned, in normal form.
  pub ikrt_bnbnmult-Returns :
      (x y : Bignum)
      → IsBignum x
      → IsBignum y
      → Returns (ikrt_bnbnmult m x y) (to_int (bignum x) *ℤ to_int (bignum y))
  unfolding ikrt_bnbnmult
  ikrt_bnbnmult-Returns x y hx hy =
      let a = value x.limbs in
      let b = value y.limbs in
      let n = length x.limbs in
      let k = length y.limbs in
      let s = sign_bits x in
      let t = sign_bits y in
      let sign = if s == 0 then t else 8 - t in
      let hs : IsSign sign = ground arith in
      rw
        (
          hx.counted,
          hy.counted,
          take_all x.limbs,
          take_all y.limbs,
          ← times_sign s t a b (sign_bits-IsSign x) (sign_bits-IsSign y),
        )
        (elim (Bool-cases (leb k n)) [
          | inl e ↦ rw e (
              limbs-Returns sign (n + k) (a * b) _ hs (
                laws.mul_lem x.limbs y.limbs hx.in_words hy.in_words (ground arith)
                  (IsBignum-length_pos y hy)))
          | inr e ↦
              rw (e, add_comm n k, mul_comm a b)
                (limbs-Returns sign (k + n) (b * a) _ hs (
                  laws.mul_lem y.limbs x.limbs hy.in_words hx.in_words (ground arith)
                    (IsBignum-length_pos x hx)))
        ])

-- The product of a bignum with a fixnum and that with a bignum are returned, in normal form.
pub bignum_products :
    (m : Mpn) (x : ℕ) (y z : Bignum)
    → IsMpn m
    → IsFixnum x
    → IsBignum y
    → IsBignum z
    → Returns (ikrt_fxbnmult m x y) (unfix x *ℤ to_int (bignum y))
      × Returns (ikrt_bnbnmult m z y) (to_int (bignum z) *ℤ to_int (bignum y))
bignum_products m x y z laws hx hy hz =
    (ikrt_fxbnmult-Returns m laws x y hx hy, ikrt_bnbnmult-Returns m laws z y hz hy)
