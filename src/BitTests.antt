-- ===== src/BitTests.antt =====
-- The theorems on `and` and `or`, at concrete numbers.
use ikarus.Base.{◌-◌, ◌^◌, ◌≡◌, refl, arith, [], ◌∷◌}
use ikarus.Bignum.Valid.{IsBignum}
use ikarus.Bignum.{Bignum, bignum, ok, to_int, header}
use ikarus.Bits.Values.{testbit}
use ikarus.Bitwise.And.Laws.{CommonFixnum, ikrt_bnbnlogand-ReturnsBits, ikrt_bnbnlogand-not_normal}
use ikarus.Bitwise.Combine.{and_bit, or_bit}
use ikarus.Bitwise.Mixed.{fixnum-ReturnsBits}
use ikarus.Bitwise.Or.Laws.{ikrt_bnbnlogor-ReturnsBits}
use ikarus.Bitwise.Twos.{ReturnsBits}
use ikarus.Bitwise.{ikrt_fxbnlogand, ikrt_bnbnlogand, ikrt_fxbnlogor, ikrt_bnbnlogor, zip_limbs}
use ikarus.Tests.{minus_two, minus_two-IsFixnum, below, below-IsBignum, ones, ones-IsBignum}
use ikarus.Word.{unfix, most_positive_fixnum}

-- 2 ^ 64 + 2 ^ 60 - 1 and 2 ^ 65 + 2 ^ 60 - 1, which have the greatest fixnum in common.
abbrev first : Bignum
first = record { fst = 35; limbs = (2 ^ 60 - 1) ∷ 1 ∷ [] }

abbrev second : Bignum
second = record { fst = 35; limbs = (2 ^ 60 - 1) ∷ 2 ∷ [] }

first-IsBignum : IsBignum first
first-IsBignum = record {
  tagged = omega arith;
  counted = omega arith;
  in_words = omega arith;
  trimmed = omega arith;
  big = omega arith;
}

second-IsBignum : IsBignum second
second-IsBignum = record {
  tagged = omega arith;
  counted = omega arith;
  in_words = omega arith;
  trimmed = omega arith;
  big = omega arith;
}

common : CommonFixnum first second
unfolding CommonFixnum zip_limbs
common = (refl, refl, refl)

below_apart : ¬ CommonFixnum below ones
unfolding CommonFixnum
below_apart h = ground arith

ikrt_bnbnlogand-ReturnsBits_example :
    ReturnsBits
      (ikrt_bnbnlogand below ones)
      (λ i. and_bit (testbit (to_int (bignum below)) i) (testbit (to_int (bignum ones)) i))
ikrt_bnbnlogand-ReturnsBits_example =
    ikrt_bnbnlogand-ReturnsBits below ones below-IsBignum ones-IsBignum below_apart

ikrt_bnbnlogand-not_normal_example :
    let b : Bignum = record { fst = header 0 1; limbs = most_positive_fixnum ∷ [] } in
    (ikrt_bnbnlogand first second ≡ ok (bignum b)) × (¬ IsBignum b)
ikrt_bnbnlogand-not_normal_example =
    ikrt_bnbnlogand-not_normal first second first-IsBignum second-IsBignum common

ikrt_bnbnlogor-ReturnsBits_example :
    ReturnsBits
      (ikrt_bnbnlogor ones below)
      (λ i. or_bit (testbit (to_int (bignum ones)) i) (testbit (to_int (bignum below)) i))
ikrt_bnbnlogor-ReturnsBits_example =
    ikrt_bnbnlogor-ReturnsBits ones below ones-IsBignum below-IsBignum

fixnum-ReturnsBits_example :
    ReturnsBits
      (ikrt_fxbnlogand minus_two below)
      (λ i. and_bit (testbit (unfix minus_two) i) (testbit (to_int (bignum below)) i))
    × ReturnsBits
        (ikrt_fxbnlogor minus_two below)
        (λ i. or_bit (testbit (unfix minus_two) i) (testbit (to_int (bignum below)) i))
fixnum-ReturnsBits_example = fixnum-ReturnsBits minus_two below minus_two-IsFixnum below-IsBignum
