-- ===== src/Tests.antt =====
-- Concrete runs of the numeric operations over the reference mpn layer, and the theorems at
-- concrete inputs.
use ikarus.Base.{
  ℕ, ◌+◌, ◌-◌, ◌*◌, ◌/◌, ◌%◌, ◌^◌, ◌≡◌, refl, arith, [], ◌∷◌, take, inl, inr, false, ◌↔◌, ◌≢◌,
}
use ikarus.Base.Int.{pos, ◌+ℤ◌, ◌-ℤ◌, ◌*ℤ◌}
use ikarus.Bignum.Normalize.{normalize_bignum-Returns}
use ikarus.Bignum.Valid.{IsBignum, Returns, verify_bignum_iff}
use ikarus.Bignum.{
  Bignum, bignum, ok, to_int, sign_bits, with_sign, normalize_bignum, verify_bignum,
}
use ikarus.BitLength.Laws.{ReturnsLength, bits_of, ikrt_bignum_length-ReturnsLength}
use ikarus.BitLength.{ikrt_bignum_length}
use ikarus.BnBn.Carry.{ReturnsOther, ikrt_bnbnplus-ReturnsOther}
use ikarus.BnBn.Laws.{ikrt_bnbnplus-Returns}
use ikarus.BnBn.Minus.{ikrt_bnbnminus-Returns}
use ikarus.BnBn.{ikrt_bnbnplus, ikrt_bnbnminus}
use ikarus.Compare.Laws.{Orders, ikrt_bnbncomp-Orders}
use ikarus.Compare.{ikrt_bnbncomp}
use ikarus.Division.Laws.{ReturnsPair, quotient_sign, bignum_divisions}
use ikarus.Division.Modulo.{IsModulo, ikrt_bnfx_modulo-IsModulo, ikrt_bnfx_modulo_divides}
use ikarus.Division.{ikrt_bnbndivrem, ikrt_bnfxdivrem, ikrt_bnfx_modulo}
use ikarus.Fixnum.Laws.{fixnum_results}
use ikarus.Fixnum.{ikrt_fxfxplus, ikrt_fxfxminus, ikrt_fxfxmult}
use ikarus.FxBn.Laws.{ikrt_fxbnplus-Returns, mixed_differences}
use ikarus.FxBn.{ikrt_fxbnplus, ikrt_fxbnminus, ikrt_bnfxminus}
use ikarus.Limbs.{value}
use ikarus.Lognot.Laws.{lognot, ikrt_bnlognot-Returns}
use ikarus.Lognot.{ikrt_bnlognot}
use ikarus.Mpn.Reference.{reference, reference-IsMpn}
use ikarus.Product.Laws.{bignum_products}
use ikarus.Product.{ikrt_fxbnmult, ikrt_bnbnmult}
use ikarus.Shift.Laws.{
  floor_div, LosesLimb, ikrt_bignum_shift_right-Returns, ikrt_bignum_shift_right_loses,
}
use ikarus.Shift.Left.{left_shifts}
use ikarus.Shift.{ikrt_fixnum_shift_left, ikrt_bignum_shift_left, ikrt_bignum_shift_right}
use ikarus.Word.{unfix, IsFixnum}

-- The greatest fixnum, the fixnum -2 and the fixnum 3, as words.
abbrev greatest : ℕ
greatest = (2 ^ 60 - 1) * 8

abbrev pub minus_two : ℕ
minus_two = 2 ^ 64 - 16

abbrev pub three : ℕ
three = 24

-- 2 ^ 60, the least positive bignum.
abbrev least : Bignum
least = record { fst = 19; limbs = 2 ^ 60 ∷ [] }

-- -(2 ^ 64 + 5), and 2 ^ 128 - 1.
abbrev pub below : Bignum
below = record { fst = 43; limbs = 5 ∷ 1 ∷ [] }

abbrev pub ones : Bignum
ones = record { fst = 35; limbs = (2 ^ 64 - 1) ∷ (2 ^ 64 - 1) ∷ [] }

-- -(2 ^ 60 + 1).
abbrev negative : Bignum
negative = record { fst = 27; limbs = (2 ^ 60 + 1) ∷ [] }

-- -(2 ^ 128 - 2 ^ 64 + 1), and the fixnum 64.
abbrev lossy : Bignum
lossy = record { fst = 43; limbs = 1 ∷ (2 ^ 64 - 1) ∷ [] }

abbrev whole_limb : ℕ
whole_limb = 512

greatest-IsFixnum : IsFixnum greatest
greatest-IsFixnum = omega arith

pub minus_two-IsFixnum : IsFixnum minus_two
minus_two-IsFixnum = omega arith

pub three-IsFixnum : IsFixnum three
three-IsFixnum = omega arith

least-IsBignum : IsBignum least
least-IsBignum = omega arith

pub below-IsBignum : IsBignum below
below-IsBignum = omega arith

lossy-IsBignum : IsBignum lossy
lossy-IsBignum = omega arith

lossy-LosesLimb : LosesLimb lossy 64
lossy-LosesLimb = omega arith

pub three-whole : unfix three ≡ pos 3
unfolding unfix
three-whole = refl

whole_limb-whole : unfix whole_limb ≡ pos 64
unfolding unfix
whole_limb-whole = refl

pub ones-IsBignum : IsBignum ones
ones-IsBignum = omega arith

negative-IsBignum : IsBignum negative
negative-IsBignum = omega arith

verify_bignum_iff_example : (verify_bignum least ≡ ok (bignum least)) ↔ IsBignum least
verify_bignum_iff_example = verify_bignum_iff least (omega arith) (omega arith) (omega arith)

normalize_bignum-Returns_example :
    Returns (normalize_bignum 2 8 (7 ∷ 0 ∷ [])) (with_sign 8 (value (take 2 (7 ∷ 0 ∷ []))))
normalize_bignum-Returns_example =
    normalize_bignum-Returns 2 8 (7 ∷ 0 ∷ []) (inr refl) (omega arith) (omega arith)

ikrt_fxbnplus-Returns_example :
    Returns (ikrt_fxbnplus reference minus_two least) (unfix minus_two +ℤ to_int (bignum least))
ikrt_fxbnplus-Returns_example =
    ikrt_fxbnplus-Returns reference reference-IsMpn least least-IsBignum minus_two
      minus_two-IsFixnum

ikrt_bnbnplus-Returns_example :
    Returns (ikrt_bnbnplus reference 0 ones below) (to_int (bignum ones) +ℤ to_int (bignum below))
ikrt_bnbnplus-Returns_example =
    ikrt_bnbnplus-Returns reference reference-IsMpn ones below ones-IsBignum below-IsBignum 0
      (inl (omega arith))

-- The limb above the sum holds a 7.
ikrt_bnbnplus-ReturnsOther_example :
    ReturnsOther
      (ikrt_bnbnplus reference 7 least ones)
      (to_int (bignum least) +ℤ to_int (bignum ones))
ikrt_bnbnplus-ReturnsOther_example =
    ikrt_bnbnplus-ReturnsOther reference reference-IsMpn 7 least ones least-IsBignum ones-IsBignum
      refl (omega arith) (omega arith) (omega arith) (λ e. omega (arith, e))

ikrt_bnbnminus-Returns_example :
    Returns
      (ikrt_bnbnminus reference 0 false least ones)
      (to_int (bignum least) -ℤ to_int (bignum ones))
ikrt_bnbnminus-Returns_example =
    ikrt_bnbnminus-Returns reference reference-IsMpn least ones least-IsBignum ones-IsBignum 0 false
      (λ e. cc) (inl refl)

ikrt_bnbncomp-Orders_example :
    Orders (to_int (bignum below)) (to_int (bignum ones)) (ikrt_bnbncomp below ones)
ikrt_bnbncomp-Orders_example = ikrt_bnbncomp-Orders below ones below-IsBignum ones-IsBignum

ikrt_bnfx_modulo-IsModulo_example :
    IsModulo (to_int (bignum ones)) (unfix three) (unfix (ikrt_bnfx_modulo reference ones three))
unfolding unfix
ikrt_bnfx_modulo-IsModulo_example =
    ikrt_bnfx_modulo-IsModulo reference reference-IsMpn ones ones-IsBignum three three-IsFixnum
      (omega arith) (inl refl)

ikrt_bnfx_modulo_divides_example :
    (unfix (ikrt_bnfx_modulo reference least minus_two) ≡ unfix minus_two)
    × (¬ IsModulo
        (to_int (bignum least))
        (unfix minus_two)
        (unfix (ikrt_bnfx_modulo reference least minus_two)))
unfolding unfix
ikrt_bnfx_modulo_divides_example =
    ikrt_bnfx_modulo_divides reference reference-IsMpn least least-IsBignum minus_two
      minus_two-IsFixnum (omega arith) refl refl

ikrt_bignum_shift_right-Returns_example :
    Returns (ikrt_bignum_shift_right below three) (floor_div (to_int (bignum below)) (2 ^ 3))
ikrt_bignum_shift_right-Returns_example =
    ikrt_bignum_shift_right-Returns below three 3 below-IsBignum three-whole
      (λ h. let whole = h.whole_limbs in omega arith)

ikrt_bignum_shift_right_loses_example :
    Returns (ikrt_bignum_shift_right lossy whole_limb) (pos 0)
    × (floor_div (to_int (bignum lossy)) (2 ^ 64) ≢ pos 0)
ikrt_bignum_shift_right_loses_example =
    ikrt_bignum_shift_right_loses lossy whole_limb 64 lossy-IsBignum whole_limb-whole
      lossy-LosesLimb

ikrt_bnlognot-Returns_example : Returns (ikrt_bnlognot ones) (lognot (to_int (bignum ones)))
ikrt_bnlognot-Returns_example = ikrt_bnlognot-Returns ones ones-IsBignum

ikrt_bignum_length-ReturnsLength_example :
    ReturnsLength (ikrt_bignum_length below) (bits_of (to_int (bignum below)))
ikrt_bignum_length-ReturnsLength_example = ikrt_bignum_length-ReturnsLength below below-IsBignum

fixnum_results_example :
    Returns (ikrt_fxfxplus greatest minus_two) (unfix greatest +ℤ unfix minus_two)
    × Returns (ikrt_fxfxminus greatest minus_two) (unfix greatest -ℤ unfix minus_two)
    × Returns (ikrt_fxfxmult reference greatest minus_two) (unfix greatest *ℤ unfix minus_two)
fixnum_results_example =
    fixnum_results reference greatest minus_two reference-IsMpn greatest-IsFixnum minus_two-IsFixnum

mixed_differences_example :
    Returns (ikrt_fxbnminus reference minus_two ones) (unfix minus_two -ℤ to_int (bignum ones))
    × Returns (ikrt_bnfxminus reference ones minus_two) (to_int (bignum ones) -ℤ unfix minus_two)
mixed_differences_example =
    mixed_differences reference minus_two ones reference-IsMpn minus_two-IsFixnum ones-IsBignum

bignum_products_example :
    Returns (ikrt_fxbnmult reference minus_two ones) (unfix minus_two *ℤ to_int (bignum ones))
    × Returns (ikrt_bnbnmult reference least ones) (to_int (bignum least) *ℤ to_int (bignum ones))
bignum_products_example =
    bignum_products reference minus_two ones least reference-IsMpn minus_two-IsFixnum ones-IsBignum
      least-IsBignum

left_shifts_example :
    Returns (ikrt_fixnum_shift_left minus_two three) (unfix minus_two *ℤ pos (2 ^ 3))
    × Returns (ikrt_bignum_shift_left below three) (to_int (bignum below) *ℤ pos (2 ^ 3))
left_shifts_example =
    left_shifts minus_two three 3 below minus_two-IsFixnum below-IsBignum three-whole (omega arith)

bignum_divisions_example :
    ReturnsPair
      (ikrt_bnbndivrem reference ones below)
      (with_sign
        (quotient_sign (sign_bits ones) (sign_bits below))
        (value ones.limbs / value below.limbs))
      (with_sign (sign_bits ones) (value ones.limbs % value below.limbs))
    × ReturnsPair
        (ikrt_bnfxdivrem reference ones three)
        (with_sign 0 (value ones.limbs / 3))
        (with_sign (sign_bits ones) (value ones.limbs % 3))
unfolding unfix
bignum_divisions_example =
    bignum_divisions reference ones below three reference-IsMpn ones-IsBignum below-IsBignum
      three-IsFixnum (omega arith)
