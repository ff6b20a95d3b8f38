-- ===== src/PrintingTests.antt =====
-- The text of a bignum, at a concrete number.
use ikarus.Base.{true}
use ikarus.Bignum.{bignum, to_int}
use ikarus.Printing.Laws.{Prints, ikrt_bignum_to_bytevector-Prints}
use ikarus.Printing.Reference.{digits_reference, digits_reference-IsGetStr}
use ikarus.Printing.{ikrt_bignum_to_bytevector}
use ikarus.Tests.{below, below-IsBignum}

ikrt_bignum_to_bytevector-Prints_example :
    Prints (ikrt_bignum_to_bytevector digits_reference true below) (to_int (bignum below))
ikrt_bignum_to_bytevector-Prints_example =
    ikrt_bignum_to_bytevector-Prints digits_reference digits_reference-IsGetStr below below-IsBignum
