-- ===== src/ForeignTests.antt =====
-- Reads and writes of foreign memory at concrete numbers.
use ikarus.Base.{◌^◌, ◌≡◌, refl, arith, [], ◌∷◌}
use ikarus.Bignum.Valid.{IsBignum, IsNumber}
use ikarus.Bignum.{Bignum, Obj, word, bignum, to_int}
use ikarus.Foreign.Laws.{Stores, ikrt_ref-ikrt_set}
use ikarus.Base.Int.{pos, negsuc}
use ikarus.Foreign.Numbers.{FitsBits, IsNumberOf, conversions}
use ikarus.Foreign.{
  ForeignMemory, target_address, s_to_number, u_to_number, extract_num, extract_num_longlong,
  ikrt_ref_char, ikrt_ref_short, ikrt_ref_int, ikrt_ref_long, ikrt_set_char, ikrt_set_short,
  ikrt_set_int, ikrt_set_long,
}
use ikarus.Word.{unfix}

abbrev zeros : ForeignMemory
zeros i = 0

-- The fixnum 3, and -(2 ^ 62).
abbrev three_object : Obj
three_object = word 24

abbrev low_long : Bignum
low_long = record { fst = 27; limbs = 2 ^ 62 ∷ [] }

three_object-IsNumber : IsNumber three_object
three_object-IsNumber = record { in_word = omega arith; tagged = refl }

low_long-IsBignum : IsBignum low_long
low_long-IsBignum = record {
  tagged = refl;
  counted = refl;
  in_words = (omega arith, tt);
  trimmed = omega arith;
  big = omega arith;
}

three_object-char : FitsBits 7 (to_int three_object)
unfolding unfix
three_object-char = omega arith

three_object-short : FitsBits 15 (to_int three_object)
unfolding unfix
three_object-short = omega arith

three_object-int : FitsBits 31 (to_int three_object)
unfolding unfix
three_object-int = omega arith

low_long-long : FitsBits 63 (to_int (bignum low_long))
low_long-long = omega arith

ikrt_ref-ikrt_set_example :
    Stores 1
      (target_address 4096 24)
      zeros
      (ikrt_set_char 4096 24 three_object zeros)
      (λ m. word (ikrt_ref_char 4096 24 m))
      (to_int three_object)
    × Stores 2
        (target_address 4096 24)
        zeros
        (ikrt_set_short 4096 24 three_object zeros)
        (λ m. word (ikrt_ref_short 4096 24 m))
        (to_int three_object)
    × Stores 4
        (target_address 4096 24)
        zeros
        (ikrt_set_int 4096 24 three_object zeros)
        (λ m. word (ikrt_ref_int 4096 24 m))
        (to_int three_object)
    × Stores 8
        (target_address 4096 24)
        zeros
        (ikrt_set_long 4096 24 (bignum low_long) zeros)
        (ikrt_ref_long 4096 24)
        (to_int (bignum low_long))
ikrt_ref-ikrt_set_example =
    ikrt_ref-ikrt_set 4096 24 zeros three_object three_object three_object (bignum low_long)
      (three_object-IsNumber, three_object-char) (three_object-IsNumber, three_object-short)
      (three_object-IsNumber, three_object-int) (low_long-IsBignum, low_long-long)

conversions_example :
    IsNumberOf (s_to_number (negsuc 8)) (negsuc 8)
    × IsNumberOf (u_to_number (2 ^ 63)) (pos (2 ^ 63))
    × (extract_num_longlong (bignum low_long) ≡ extract_num (bignum low_long))
conversions_example = conversions (negsuc 8) (2 ^ 63) (bignum low_long) (omega arith) (omega arith)
