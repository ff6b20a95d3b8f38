-- ===== src/Bitwise/First.antt =====
-- A word combined with the lowest limb.
use ikarus.Base.{
  ℕ, suc, ◌-◌, ◌*◌, ◌^◌, ◌≤◌, ◌<◌, ◌≡◌, refl, sym, ap, ◌∙◌, arith, true, List, [], ◌∷◌, length,
  get_or, ltb, Bool-cases, inl, inr,
}
use ikarus.Bignum.Valid.{IsBignum, two_limbs-big, verify_bignum-ok}
use ikarus.Bignum.{Bignum, bignum, nonnegative, verify_bignum}
use ikarus.Bits.Words.{bit}
use ikarus.Bitwise.Combine.{combined, zeros_above}
use ikarus.Bitwise.Twos.{ReturnsBits}
use ikarus.Bitwise.{at_first, over, zip_limbs}
use ikarus.Limbs.{value, IsLimbs}
use ikarus.Word.{word_mod}

module _ (f : ℕ → ℕ → ℕ) (w : ℕ) (hw : w < word_mod) where
  abbrev step : ℕ → ℕ
  step d = f d w

  pub length-at_first : (ds : List ℕ) → length (at_first step ds) ≡ length ds
  length-at_first [] = refl
  length-at_first (d ∷ ds) = refl

  pub at_first-IsLimbs :
      ((d : ℕ) → d < word_mod → f d w < word_mod)
      → (ds : List ℕ) → IsLimbs ds
      → IsLimbs (at_first step ds)
  at_first-IsLimbs small [] h = tt
  at_first-IsLimbs small (d ∷ ds) h = (small d h.0, h.1)

  zip-nil : (ds : List ℕ) → zip_limbs f ds [] ≡ []
  unfolding zip_limbs
  zip-nil [] = refl
  zip-nil (d ∷ ds) = refl

  -- One limb is combined, and those above it are kept.
  first-over : (ds : List ℕ) → at_first step ds ≡ over (zip_limbs f ds (w ∷ [])) ds
  unfolding zip_limbs
  first-over [] = refl
  first-over (d ∷ ds) = rw (zip-nil ds) refl

  pub first_combined :
      (d : ℕ → ℕ → ℕ)
      → ((a b i : ℕ) → bit (f a b) i ≡ d (bit a i) (bit b i))
      → ((a b : ℕ) → a < word_mod → b < word_mod → f a b < word_mod)
      → (ds : List ℕ) (p q : ℕ → ℕ) (n i : ℕ) → IsLimbs ds
      → length ds ≡ n
      → ((j : ℕ) → j < 64 * n → bit (value ds) j ≡ p j)
      → ((j : ℕ) → j < 64 → bit w j ≡ q j)
      → ((j : ℕ) → 64 ≤ j → p j ≡ d (p j) (q j))
      → i < 64 * n
      → bit (value (at_first step ds)) i ≡ d (p i) (q i)
  first_combined d law small ds p q n i h size below low high lt = rw (first-over ds) (
      combined f d law small ds (w ∷ []) ds p q n i h (hw, tt) h
        (λ j l. below j (omega (arith, l, size))) (λ j l. ap (λ m. bit m j) (omega arith) ∙ low j l)
        (λ j l k. elim k [
          | inl m ↦ absurd (omega (arith, m, l, size))
          | inr m ↦ below j l ∙ high j m
        ])
        lt)

  pub first_everywhere :
      (d : ℕ → ℕ → ℕ)
      → ((a b i : ℕ) → bit (f a b) i ≡ d (bit a i) (bit b i))
      → ((a b : ℕ) → a < word_mod → b < word_mod → f a b < word_mod)
      → (ds : List ℕ) (q : ℕ → ℕ) (i : ℕ) → IsLimbs ds
      → 0 < length ds
      → ((j : ℕ) → j < 64 → bit w j ≡ q j)
      → ((j : ℕ) → 64 ≤ j → bit (value ds) j ≡ d (bit (value ds) j) (q j))
      → bit (value (at_first step ds)) i ≡ d (bit (value ds) i) (q i)
  first_everywhere d law small ds q i h some low high =
      let size = length-at_first ds in
      elim (Bool-cases (ltb i (64 * length ds))) [
        | inl e ↦
            first_combined d law small ds (bit (value ds)) q (length ds) i h refl (λ j l. refl) low
              high (ground arith)
        | inr e ↦
            let le : 64 * length ds ≤ i = ground arith in
            zeros_above (at_first step ds) i (at_first-IsLimbs (λ a l. small a w l hw) ds h)
              (omega (arith, le, size))
            ∙ sym (zeros_above ds i h le)
            ∙ high i (omega (arith, le, some))
      ]

  -- The limbs stay in normal form under a sign bit of 0.
  module _ (small : (d : ℕ) → d < word_mod → f d w < word_mod)
      (keeps : (d : ℕ) → d < word_mod → 2 ^ 60 ≤ d → 2 ^ 60 ≤ f d w) where
    first-top :
        (ds : List ℕ)
        → IsLimbs ds
        → 0 < get_or ds (length ds - 1) 0
        → 2 ^ 60 ≤ value ds
        → 0 < get_or (at_first step ds) (length ds - 1) 0
    first-top [] h top big = top
    first-top (d ∷ []) h top big = omega (arith, keeps d h.0 (omega (arith, big)))
    first-top (d ∷ e ∷ ds) h top big =
        let last : length (d ∷ e ∷ ds) - 1 ≡ suc (length ds) = omega arith in
        rw last (rw last at top)

    first-big :
        (ds : List ℕ)
        → IsLimbs ds
        → 0 < get_or ds (length ds - 1) 0
        → 2 ^ 60 ≤ value ds
        → 2 ^ 60 ≤ value (at_first step ds)
    first-big [] h top big = big
    first-big (d ∷ []) h top big = omega (arith, keeps d h.0 (omega (arith, big)))
    first-big (d ∷ e ∷ ds) h top big =
        omega
          (arith, two_limbs-big (f d w ∷ e ∷ ds) (omega arith) (first-top (d ∷ e ∷ ds) h top big))

    -- A bignum that is not negative passes `verify_bignum` with its lowest limb replaced.
    pub first-ReturnsBits :
        (y : Bignum) (g : ℕ → ℕ)
        → IsBignum y
        → nonnegative y ≡ true
        → ((i : ℕ) → bit (value (at_first step y.limbs)) i ≡ g i)
        → ReturnsBits (verify_bignum (record { fst = y.fst; limbs = at_first step y.limbs })) g
    first-ReturnsBits y g h plus same =
        let limit : 2 ^ 60 ≤ value y.limbs = ground (arith, h.big) in
        let size = length-at_first y.limbs in
        let big = first-big y.limbs h.in_words h.trimmed limit in
        let b : Bignum = record { fst = y.fst; limbs = at_first step y.limbs } in
        let whole : IsBignum b = record {
          tagged = h.tagged;
          counted = h.counted ∙ sym size;
          in_words = at_first-IsLimbs small y.limbs h.in_words;
          trimmed = rw size (first-top y.limbs h.in_words h.trimmed limit);
          big = ground (arith, plus, big);
        } in
        record {
          out = bignum b;
          returns = verify_bignum-ok b whole;
          normal = whole;
          bits = λ i. rw plus (same i);
        }
