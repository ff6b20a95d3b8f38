-- ===== src/Bitwise/Mixed.antt =====
-- Both bit operations on a fixnum and a bignum, ikrt_fxbnlogand and ikrt_fxbnlogor of
-- src/ikarus-numerics.c.
use ikarus.Base.{ℕ}
use ikarus.Bignum.Valid.{IsBignum}
use ikarus.Bignum.{Bignum, bignum, to_int}
use ikarus.Bits.Values.{testbit}
use ikarus.Bitwise.And.Fixnum.{ikrt_fxbnlogand-ReturnsBits}
use ikarus.Bitwise.Combine.{and_bit, or_bit}
use ikarus.Bitwise.Or.Fixnum.{ikrt_fxbnlogor-ReturnsBits}
use ikarus.Bitwise.Twos.{ReturnsBits}
use ikarus.Bitwise.{ikrt_fxbnlogand, ikrt_fxbnlogor}
use ikarus.Word.{IsFixnum, unfix}

-- The `and` and the `or` of a fixnum and a bignum in normal form are returned, in normal form.
pub fixnum-ReturnsBits :
    (x : ℕ) (y : Bignum)
    → IsFixnum x
    → IsBignum y
    → ReturnsBits
        (ikrt_fxbnlogand x y)
        (λ i. and_bit (testbit (unfix x) i) (testbit (to_int (bignum y)) i))
      × ReturnsBits
          (ikrt_fxbnlogor x y)
          (λ i. or_bit (testbit (unfix x) i) (testbit (to_int (bignum y)) i))
fixnum-ReturnsBits x y hx hy =
    (ikrt_fxbnlogand-ReturnsBits x y hx hy, ikrt_fxbnlogor-ReturnsBits x y hx hy)
