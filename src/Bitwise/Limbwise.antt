-- ===== src/Bitwise/Limbwise.antt =====
-- The loops over limbs, bit by bit.
use ikarus.Base.{
  ℕ, suc, ◌+◌, ◌-◌, ◌*◌, ◌%◌, ◌≤◌, ◌<◌, ◌≡◌, refl, sym, ap, arith, List, [], ◌∷◌, length, take, ◌⊎◌,
  inl, inr, ltb, Bool-cases, subst, ◌==◌, if◌then◌else◌, not, ◌&&◌,
}
use ikarus.Bits.Values.{bit-value_low, bit-value_high}
use ikarus.Bits.Words.{bit}
use ikarus.Bitwise.{bits_compliment_logand, bits_compliment_logor, over, zip_limbs}
use ikarus.Limbs.{value, IsLimbs}
use ikarus.Shift.Complement.{length-complement}
use ikarus.Shift.{bits_compliment_with_carry}
use ikarus.Word.{word_mod}
use Prim.Native.Nat.{bit_and, bit_or}

pub logand-zip :
    (c : ℕ) (ds es : List ℕ)
    → bits_compliment_logand c ds es ≡ zip_limbs bit_and (bits_compliment_with_carry c ds) es
unfolding bits_compliment_logand bits_compliment_with_carry zip_limbs
logand-zip c [] es = refl
logand-zip c (d ∷ ds) [] = refl
logand-zip c (d ∷ ds) (e ∷ es) =
    ap (◌∷◌ (bit_and ((c + (word_mod - 1 - d)) % word_mod) e))
      (logand-zip (if not (c == 0) && (d == 0) then 1 else 0) ds es)

pub logor-zip :
    (c : ℕ) (ds es : List ℕ)
    → bits_compliment_logor c ds es
      ≡ over
          (zip_limbs bit_or (bits_compliment_with_carry c ds) es)
          (bits_compliment_with_carry c ds)
unfolding bits_compliment_logor bits_compliment_with_carry zip_limbs
logor-zip c [] es = refl
logor-zip c (d ∷ ds) [] = refl
logor-zip c (d ∷ ds) (e ∷ es) =
    ap (◌∷◌ (bit_or ((c + (word_mod - 1 - d)) % word_mod) e))
      (logor-zip (if not (c == 0) && (d == 0) then 1 else 0) ds es)

pub length-logor : (c : ℕ) (ds es : List ℕ) → length (bits_compliment_logor c ds es) ≡ length ds
unfolding bits_compliment_logor
length-logor c [] es = refl
length-logor c (d ∷ ds) [] = length-complement (d ∷ ds) c
length-logor c (d ∷ ds) (e ∷ es) =
    ap suc (length-logor (if not (c == 0) && (d == 0) then 1 else 0) ds es)

pub over_nil : (rs : List ℕ) → over rs [] ≡ rs
over_nil [] = refl
over_nil (r ∷ rs) = refl

pub over-IsLimbs : (rs zs : List ℕ) → IsLimbs rs → IsLimbs zs → IsLimbs (over rs zs)
over-IsLimbs [] zs h g = g
over-IsLimbs (r ∷ rs) [] h g = h
over-IsLimbs (r ∷ rs) (z ∷ zs) h g = (h.0, over-IsLimbs rs zs h.1 g.1)

pub length-over : (rs zs : List ℕ) → length rs ≤ length zs → length (over rs zs) ≡ length zs
length-over [] zs h = refl
length-over (r ∷ rs) [] h = absurd (omega arith)
length-over (r ∷ rs) (z ∷ zs) h = ap suc (length-over rs zs (omega arith))

-- The limbs above the first.
abbrev tail : List ℕ → List ℕ
tail [] = []
tail (z ∷ zs) = zs

first_bit :
    (zs : List ℕ) (r : ℕ) (rs : List ℕ) (i : ℕ)
    → i < 64
    → bit (value (over (r ∷ rs) zs)) i ≡ bit r i
first_bit [] r rs i lt = bit-value_low r (value rs) i lt
first_bit (z ∷ zs) r rs i lt = bit-value_low r (value (over rs zs)) i lt

later_bit :
    (zs : List ℕ) (r : ℕ) (rs : List ℕ) (j : ℕ)
    → r < word_mod
    → bit (value (over (r ∷ rs) zs)) (64 + j) ≡ bit (value (over rs (tail zs))) j
later_bit [] r rs j lt = rw (over_nil rs) (bit-value_high r (value rs) j lt)
later_bit (z ∷ zs) r rs j lt = bit-value_high r (value (over rs zs)) j lt

tail-IsLimbs : (zs : List ℕ) → IsLimbs zs → IsLimbs (tail zs)
tail-IsLimbs [] h = tt
tail-IsLimbs (z ∷ zs) h = h.1

bit-tail : (zs : List ℕ) (j : ℕ) → IsLimbs zs → bit (value (tail zs)) j ≡ bit (value zs) (64 + j)
bit-tail [] j h =
    sym (subst (λ n. bit n (64 + j) ≡ bit 0 j) (omega arith) (bit-value_high 0 0 j (omega arith)))
bit-tail (z ∷ zs) j h = sym (bit-value_high z (value zs) j h.0)

module _ (f : ℕ → ℕ → ℕ) where
  pub length-zip : (xs ys : List ℕ) → length xs ≤ length ys → length (zip_limbs f xs ys) ≡ length xs
  unfolding zip_limbs
  length-zip [] ys h = refl
  length-zip (x ∷ xs) [] h = absurd (omega arith)
  length-zip (x ∷ xs) (y ∷ ys) h = ap suc (length-zip xs ys (omega arith))

  pub length-zip_le :
      (xs ys : List ℕ) → length ys ≤ length xs → length (zip_limbs f xs ys) ≡ length ys
  unfolding zip_limbs
  length-zip_le [] [] h = refl
  length-zip_le [] (y ∷ ys) h = absurd (omega arith)
  length-zip_le (x ∷ xs) [] h = refl
  length-zip_le (x ∷ xs) (y ∷ ys) h = ap suc (length-zip_le xs ys (omega arith))

  pub length-zip_first : (xs ys : List ℕ) → length (zip_limbs f xs ys) ≤ length xs
  unfolding zip_limbs
  length-zip_first [] ys = omega arith
  length-zip_first (x ∷ xs) [] = omega arith
  length-zip_first (x ∷ xs) (y ∷ ys) = omega (arith, length-zip_first xs ys)

  pub zip-take : (xs ys : List ℕ) → zip_limbs f xs (take (length xs) ys) ≡ zip_limbs f xs ys
  unfolding zip_limbs
  zip-take [] ys = refl
  zip-take (x ∷ xs) [] = refl
  zip-take (x ∷ xs) (y ∷ ys) = ap (◌∷◌ (f x y)) (zip-take xs ys)

  pub zip-IsLimbs :
      ((a b : ℕ) → a < word_mod → b < word_mod → f a b < word_mod)
      → (xs ys : List ℕ) → IsLimbs xs
      → IsLimbs ys
      → IsLimbs (zip_limbs f xs ys)
  unfolding zip_limbs
  zip-IsLimbs small [] ys h g = tt
  zip-IsLimbs small (x ∷ xs) [] h g = tt
  zip-IsLimbs small (x ∷ xs) (y ∷ ys) h g = (small x y h.0 g.0, zip-IsLimbs small xs ys h.1 g.1)

  -- Below the end of the shorter operand, the bits are combined.
  pub bit-zip :
      (d : ℕ → ℕ → ℕ)
      → ((a b i : ℕ) → bit (f a b) i ≡ d (bit a i) (bit b i))
      → ((a b : ℕ) → a < word_mod → b < word_mod → f a b < word_mod)
      → (xs ys zs : List ℕ) (i : ℕ) → IsLimbs xs
      → IsLimbs ys
      → i < 64 * length xs
      → i < 64 * length ys
      → bit (value (over (zip_limbs f xs ys) zs)) i ≡ d (bit (value xs) i) (bit (value ys) i)
  unfolding zip_limbs
  bit-zip d law small [] ys zs i h g lx ly = absurd (omega arith)
  bit-zip d law small (x ∷ xs) [] zs i h g lx ly = absurd (omega arith)
  bit-zip d law small (x ∷ xs) (y ∷ ys) zs i h g lx ly = elim (Bool-cases (ltb i 64)) [
    | inl e ↦
        let lt : i < 64 = ground arith in
        rw
          (
            first_bit zs (f x y) (zip_limbs f xs ys) i lt,
            bit-value_low x (value xs) i lt,
            bit-value_low y (value ys) i lt,
          )
          (law x y i)
    | inr e ↦
        let j = i - 64 in
        let is : 64 + j ≡ i = ground arith in
        rw (← is) (
          rw
            (
              later_bit zs (f x y) (zip_limbs f xs ys) j (small x y h.0 g.0),
              bit-value_high x (value xs) j h.0,
              bit-value_high y (value ys) j g.0,
            )
            (bit-zip d law small xs ys (tail zs) j h.1 g.1 (omega arith) (omega arith)))
  ]

  -- Above it, the bits are those of the operand that is kept.
  pub bit-zip_above :
      ((a b : ℕ) → a < word_mod → b < word_mod → f a b < word_mod)
      → (xs ys zs : List ℕ) (i : ℕ) → IsLimbs xs
      → IsLimbs ys
      → IsLimbs zs
      → (64 * length xs ≤ i) ⊎ (64 * length ys ≤ i)
      → bit (value (over (zip_limbs f xs ys) zs)) i ≡ bit (value zs) i
  unfolding zip_limbs
  bit-zip_above small [] ys zs i h g k above = refl
  bit-zip_above small (x ∷ xs) [] zs i h g k above = refl
  bit-zip_above small (x ∷ xs) (y ∷ ys) zs i h g k above =
      let j = i - 64 in
      let is : 64 + j ≡ i = omega (arith, above) in
      rw (← is) (
        rw
          (
            later_bit zs (f x y) (zip_limbs f xs ys) j (small x y h.0 g.0),
            bit-zip_above small xs ys (tail zs) j h.1 g.1 (tail-IsLimbs zs k)
                (elim above [ inl a ↦ inl (omega (arith, a)) | inr a ↦ inr (omega (arith, a)) ]),
          )
          (bit-tail zs j k))
