-- ===== src/Bitwise/Words.antt =====
-- The bits of fixnums as machine words, and words that are turned back into fixnums.
use ikarus.Base.{
  ℕ, zero, suc, ◌-◌, ◌*◌, ◌/◌, ◌%◌, ◌^◌, ◌≤◌, ◌<◌, ◌≡◌, refl, sym, ap, ◌∙◌, arith, true, false,
  List, [], ◌∷◌, get_or, ltb, Bool-cases, inl, inr,
}
use ikarus.Base.Int.{ℤ, pos, negsuc, is_neg}
use ikarus.Bignum.{ok, word}
use ikarus.Bits.Values.{testbit, bit_above, bit-complement, bit-value_low}
use ikarus.Bits.Words.{bit, bit-le, bit-suc}
use ikarus.Bitwise.Combine.{no_bits}
use ikarus.Bitwise.Twos.{whole-IsTwos, ReturnsBits}
use ikarus.Bitwise.{negated}
use ikarus.Limbs.{value, IsLimbs}
use ikarus.Shift.{bits_compliment_with_carry}
use ikarus.Word.{to_word, to_long, fix, word_mod, FitsFixnum, fix-IsFixnum, unfix-fix}
use native.Mathlib.Nat.{pow-suc}

pub word_bits : (n : ℤ) (i : ℕ) → FitsFixnum n → i < 64 → bit (to_word n) i ≡ testbit n i
word_bits (pos n) i h lt = ap (λ m. bit m i) (omega arith)
word_bits (negsuc n) i h lt =
    let small : n % word_mod ≡ n = omega arith in rw small (bit-complement 64 n i (omega arith) lt)

-- A fixnum has its sign in the bits from 60 on.
pub high_zeros : (n : ℤ) (i : ℕ) → FitsFixnum n → is_neg n ≡ false → 60 ≤ i → testbit n i ≡ 0
high_zeros (pos n) i h s le = bit_above n 60 i (omega arith) le
high_zeros (negsuc n) i h s le = ground arith

pub high_ones : (n : ℤ) (i : ℕ) → FitsFixnum n → is_neg n ≡ true → 60 ≤ i → testbit n i ≡ 1
high_ones (pos n) i h s le = ground arith
high_ones (negsuc n) i h s le = omega (arith, bit_above n 60 i (omega arith) le)

-- A number with zeros from bit k on is below 2 ^ k.
pub small_of_bits : (k j n : ℕ) → n < 2 ^ j * 2 ^ k → ((i : ℕ) → k ≤ i → bit n i ≡ 0) → n < 2 ^ k
small_of_bits zero j n lt zeros =
    let none = no_bits j n (omega (arith, lt)) (λ i l. zeros i (omega arith)) in omega (arith, none)
small_of_bits (suc k) j n lt zeros =
    let product : 2 ^ j * 2 ^ suc k ≡ 2 ^ j * 2 ^ k * 2 =
      omega (arith, ap (λ m. 2 ^ j * m) (pow-suc 2 k)) in
    let half =
      small_of_bits k j (n / 2) (omega (arith, lt, product))
        (λ i l. sym (bit-suc n i) ∙ zeros (suc i) (omega (arith, l))) in
    omega (arith, half, pow-suc 2 k)

-- A word past every fixnum stays so under an operation that keeps its bits from 60 on.
pub kept_high :
    (d r : ℕ)
    → d < word_mod
    → ((i : ℕ) → 60 ≤ i → i < 64 → bit r i ≡ 0 → bit d i ≡ 0)
    → 2 ^ 60 ≤ d
    → 2 ^ 60 ≤ r
kept_high d r lt kept big = elim (Bool-cases (ltb r (2 ^ 60))) [
  | inr e ↦ ground arith
  | inl e ↦
      let zeros : (i : ℕ) → 60 ≤ i → bit d i ≡ 0 = λ i l. elim (Bool-cases (ltb i 64)) [
        | inl f ↦ kept i l (ground arith) (bit_above r 60 i (ground arith) l)
        | inr f ↦ bit_above d 64 i (omega (arith, lt)) (ground arith)
      ] in
      absurd (omega (arith, big, small_of_bits 60 4 d (omega (arith, lt)) zeros))
]

pub to_word-lt : (n : ℤ) → to_word n < word_mod
to_word-lt (pos n) = omega arith
to_word-lt (negsuc n) = omega arith

fixnum-ReturnsBits :
    (n : ℤ) (f : ℕ → ℕ)
    → FitsFixnum n
    → ((i : ℕ) → testbit n i ≡ f i)
    → ReturnsBits (ok (word (fix n))) f
fixnum-ReturnsBits n f fits same = record {
  out = word (fix n);
  returns = refl;
  normal = fix-IsFixnum n;
  bits = λ i. rw (unfix-fix n fits) (same i);
}

-- A word with zeros from bit 60 on is returned as a fixnum that is not negative.
pub zeros-ReturnsBits :
    (w : ℕ) (f : ℕ → ℕ)
    → w < word_mod
    → ((i : ℕ) → i < 64 → bit w i ≡ f i)
    → ((i : ℕ) → 60 ≤ i → f i ≡ 0)
    → ReturnsBits (ok (word (fix (to_long w)))) f
zeros-ReturnsBits w f lt low high =
    let same : (i : ℕ) → bit w i ≡ f i = λ i. elim (Bool-cases (ltb i 64)) [
      | inl e ↦ low i (ground arith)
      | inr e ↦
          let le : 64 ≤ i = ground arith in
          bit_above w 64 i (omega (arith, lt)) le ∙ sym (high i (omega (arith, le)))
    ] in
    let small : w < 2 ^ 60 = small_of_bits 60 4 w (omega (arith, lt)) (λ i l. same i ∙ high i l) in
    let test : ltb w (2 ^ 63) ≡ true = ground (arith, small) in
    rw test (fixnum-ReturnsBits (pos w) f (omega (arith, small)) same)

-- A word with ones from bit 60 on is returned as a negative fixnum.
pub ones-ReturnsBits :
    (w : ℕ) (f : ℕ → ℕ)
    → w < word_mod
    → ((i : ℕ) → i < 64 → bit w i ≡ f i)
    → ((i : ℕ) → 60 ≤ i → f i ≡ 1)
    → ReturnsBits (ok (word (fix (to_long w)))) f
ones-ReturnsBits w f lt low high =
    let a = word_mod - 1 - w in
    let turned : (i : ℕ) → i < 64 → bit a i ≡ 1 - f i =
      λ i l. bit-complement 64 w i (omega (arith, lt)) l ∙ ap (λ b. 1 - b) (low i l) in
    let zeros : (i : ℕ) → 60 ≤ i → bit a i ≡ 0 = λ i l. elim (Bool-cases (ltb i 64)) [
      | inl e ↦ omega (arith, turned i (ground arith), high i l)
      | inr e ↦ bit_above a 64 i (omega arith) (ground arith)
    ] in
    let small : a < 2 ^ 60 = small_of_bits 60 4 a (omega arith) zeros in
    let test : ltb w (2 ^ 63) ≡ false = ground (arith, small, lt) in
    rw test (
      fixnum-ReturnsBits (negsuc a) f (omega (arith, small)) (λ i. elim (Bool-cases (ltb i 64)) [
        | inl e ↦ let l : i < 64 = ground arith in omega (arith, turned i l, low i l, bit-le w i)
        | inr e ↦ let le : 60 ≤ i = ground arith in omega (arith, zeros i le, high i le)
      ]))

-- The lowest limb.
pub low_limb_bits : (ds : List ℕ) (i : ℕ) → i < 64 → bit (get_or ds 0 0) i ≡ bit (value ds) i
low_limb_bits [] i lt = refl
low_limb_bits (d ∷ ds) i lt = sym (bit-value_low d (value ds) i lt)

pub low_complement_bits :
    (ds : List ℕ) (a i : ℕ)
    → IsLimbs ds
    → value ds ≡ suc a
    → i < 64
    → bit (negated (get_or ds 0 0)) i ≡ testbit (negsuc a) i
unfolding bits_compliment_with_carry
low_complement_bits [] a i h v lt = absurd (omega (arith, v))
low_complement_bits (d ∷ ds) a i h v lt =
    sym (bit-value_low (negated d) _ i lt) ∙ (whole-IsTwos (d ∷ ds) a h v).bits i (omega arith)
