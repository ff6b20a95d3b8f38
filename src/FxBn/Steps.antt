-- ===== src/FxBn/Steps.antt =====
-- The two steps in which the magnitude of a bignum changes by one limb.
use ikarus.Base.{
  ℕ, zero, suc, ◌+◌, ◌-◌, ◌*◌, ◌^◌, ◌≤◌, ◌<◌, ◌≡◌, refl, sym, ap, arith, List, [], ◌∷◌, ◌++◌,
  length, take, get_or, inl, inr, leb, ◌==◌, ◌&&◌, if◌then◌else◌, Bool-cases, take_all,
  length-append, get_or-append_last, length-take, get_or-take,
}
use ikarus.Bignum.Normalize.{IsSign, verify_bignum-Returns, normalize_bignum-Returns}
use ikarus.Bignum.Valid.{IsBignum, Returns, IsBignum-length_pos}
use ikarus.Bignum.{
  Bignum, ok, exits, borrow_bug, word, with_sign, most_fixnum, header, verify_bignum, trim,
  normalize_bignum,
}
use ikarus.FxBn.{grow, shrink, shrink_result, counted_limbs}
use ikarus.Limbs.{
  value, weight, IsLimbs, value-append, value-lt, value-take-suc, IsLimbs-take, IsLimbs-append,
  top_pos, weight_pos, weight-le-value_top,
}
use ikarus.Mpn.{Mpn, IsMpn, IsSum, IsDifference}
use ikarus.Word.{fix}

pub counted_limbs_lem : (b : Bignum) → IsBignum b → counted_limbs b ≡ b.limbs
counted_limbs_lem b h = rw h.counted (take_all b.limbs)

-- The limbs of a sum with their carry, as the code stores them.
pub carry-Returns :
    (sign n v : ℕ) (r : List ℕ × ℕ)
    → IsSign sign
    → IsSum n v r
    → 0 < n
    → weight (n - 1) ≤ v
    → most_fixnum sign < v
    → Returns
        (if r.1 == 0
          then verify_bignum (record { fst = header sign n; limbs = r.0 })
          else verify_bignum (record { fst = header sign (n + 1); limbs = r.0 ++ 1 ∷ [] }))
        (with_sign sign v)
carry-Returns sign n v (r, zero) s p positive large big =
    let same : value r ≡ v = omega (arith, p.sum) in
    rw (← same) (
      verify_bignum-Returns sign n r s (sym p.size) p.limbs
        (top_pos r p.limbs (omega (arith, p.size)) (rw p.size (omega arith))) (omega arith))
carry-Returns sign n v (r, suc zero) s p positive large big =
    let same : value (r ++ 1 ∷ []) ≡ v =
      omega (arith, p.sum, value-append r (1 ∷ []), ap weight p.size) in
    let len : length (r ++ 1 ∷ []) ≡ n + 1 = omega (arith, p.size, length-append r (1 ∷ [])) in
    let last : length (r ++ 1 ∷ []) - 1 ≡ length r = omega (arith, len, p.size) in
    rw (← same) (
      verify_bignum-Returns sign (n + 1) (r ++ 1 ∷ []) s (sym len)
        (IsLimbs-append r (1 ∷ []) p.limbs (omega arith, tt))
        (rw last (omega (arith, get_or-append_last r 1 0))) (omega arith))
carry-Returns sign n v (r, suc (suc c)) s p positive large big = absurd (omega (arith, p.carry))

below_top_pos :
    (j : ℕ) (r : List ℕ)
    → IsLimbs r
    → suc j < length r
    → get_or r (suc j) 0 ≡ 0
    → value (take (suc (suc j)) r) ≡ value r
    → weight (suc j) ≤ value r + 2 ^ 61
    → 0 < get_or r j 0
below_top_pos j r limbs le zero_top whole large =
    let len : length (take (suc j) r) ≡ suc j = length-take (suc j) r (omega arith) in
    let n : length (take (suc j) r) - 1 ≡ j = omega (arith, len) in
    let none_above : weight (suc j) * get_or r (suc j) 0 ≡ 0 = rw zero_top (omega arith) in
    let same : value (take (suc j) r) ≡ value r = omega (arith, value-take-suc (suc j) r le) in
    let top =
      top_pos (take (suc j) r) (IsLimbs-take (suc j) r limbs) (omega (arith, len))
        (rw n (omega (arith, weight_pos j, same))) in
    rw (n, get_or-take (suc j) r j 0 (omega arith)) at top

-- Where only the top limb can be zero, one look at it is as good as a loop.
shrink_size-trim :
    (n : ℕ) (r : List ℕ)
    → IsLimbs r
    → length r ≡ n
    → 0 < n
    → weight (n - 1) ≤ value r + 2 ^ 61
    → (if get_or r (n - 1) 0 == 0 then n - 1 else n) ≡ trim n r
unfolding trim
shrink_size-trim zero r limbs len positive large = absurd (omega arith)
shrink_size-trim (suc zero) r limbs len positive large = refl
shrink_size-trim (suc (suc j)) r limbs len positive large =
    let whole : value (take (suc (suc j)) r) ≡ value r = ap value (rw len at (take_all r)) in
    let n1 : suc (suc j) - 1 ≡ suc j = omega arith in
    rw n1 (
      ground (
        arith,
        λ (z : get_or r (suc j) 0 ≡ 0).
            below_top_pos j r limbs (omega (arith, len)) z whole (rw n1 at large),
      ))

shrink_result-normalize :
    (n sign : ℕ) (r : List ℕ)
    → IsLimbs r
    → length r ≡ n
    → 0 < n
    → weight (n - 1) ≤ value r + 2 ^ 61
    → shrink_result n sign r ≡ normalize_bignum n sign r
unfolding shrink_result normalize_bignum
shrink_result-normalize n sign r limbs len positive large =
    rw (shrink_size-trim n r limbs len positive large) (one_last (trim n r))
  where
    one_last :
        (k : ℕ)
        → (if k == 0
            then ok (word 0)
            else if k == 1 && leb (get_or r (k - 1) 0) (most_fixnum sign)
            then ok (word (fix (with_sign sign (get_or r (k - 1) 0))))
            else verify_bignum (record { fst = header sign k; limbs = take k r }))
          ≡ (if k == 0
              then ok (word 0)
              else if k == 1 && leb (get_or r 0 0) (most_fixnum sign)
              then ok (word (fix (with_sign sign (get_or r 0 0))))
              else verify_bignum (record { fst = header sign k; limbs = take k r }))
    one_last k = elim (Bool-cases (k == 1)) [
      | inl e ↦ let one : k ≡ 1 = ground arith in rw one
      | inr e ↦ rw e
    ]

-- The limbs of a difference that does not borrow.
borrow-Returns :
    (n sign a v : ℕ) (r : List ℕ × ℕ)
    → IsSign sign
    → IsDifference n a v r
    → 0 < n
    → a < weight n
    → weight (n - 1) ≤ a
    → v ≤ a
    → v ≤ 2 ^ 60
    → Returns
        (if r.1 == 0 then shrink_result n sign r.0 else exits borrow_bug)
        (with_sign sign (a - v))
borrow-Returns n sign a v (r, zero) s d positive lt large le small =
    let same : value r ≡ a - v = omega (arith, d.difference) in
    let whole : value (take n r) ≡ a - v = rw (← d.size) (rw (take_all r) same) in
    rw (shrink_result-normalize n sign r d.limbs d.size positive (omega arith), ← whole)
      (normalize_bignum-Returns n sign r s d.limbs (omega (arith, d.size)))
borrow-Returns n sign a v (r, suc b) s d positive lt large le small =
    absurd (borrows b d.borrow d.difference)
  where
    borrows : (c : ℕ) → suc c ≤ 1 → value r + v ≡ a + weight n * suc c → ⊥
    borrows zero h e = omega (arith, value-lt r d.limbs, ap weight d.size)
    borrows (suc c) h e = omega arith

module _ (m : Mpn) (laws : IsMpn m) (sign : ℕ) (s : IsSign sign) (y : Bignum)
    (hy : IsBignum y) where
  pub grow-Returns :
      (v : ℕ)
      → v < 2 ^ 64
      → most_fixnum sign < value y.limbs + v
      → Returns (grow m sign y v) (with_sign sign (value y.limbs + v))
  unfolding grow
  grow-Returns v hv big =
      rw (counted_limbs_lem y hy, hy.counted)
        (carry-Returns sign (length y.limbs) (value y.limbs + v) _ s
          (laws.add_1_lem y.limbs v hy.in_words (IsBignum-length_pos y hy) hv)
          (IsBignum-length_pos y hy) (omega (arith, weight-le-value_top y.limbs hy.trimmed)) big)

  pub shrink-Returns :
      (v : ℕ) → v ≤ 2 ^ 60 → Returns (shrink m sign y v) (with_sign sign (value y.limbs - v))
  unfolding shrink
  shrink-Returns v hv =
      let positive = IsBignum-length_pos y hy in
      rw (counted_limbs_lem y hy, hy.counted)
        (borrow-Returns (length y.limbs) sign (value y.limbs) v _ s
          (laws.sub_1_lem y.limbs v hy.in_words positive (omega arith)) positive
          (value-lt y.limbs hy.in_words) (weight-le-value_top y.limbs hy.trimmed)
          (ground (arith, hy.big)) hv)
