-- ===== src/FxBn.antt =====
-- Sums and differences of a fixnum and a bignum, and the negation of a bignum, of
-- src/ikarus-numerics.c.
pub mod Steps
pub mod Laws
use ikarus.Base.{ℕ, ◌+◌, ◌-◌, ◌++◌, [], ◌∷◌, List, ◌&&◌, take, get_or, leb, ◌==◌, if◌then◌else◌}
use ikarus.Base.Int.{is_pos, is_neg, neg, neg_ℕ}
use ikarus.Bignum.{
  Bignum, Obj, word, bignum, Result, ok, exits, borrow_bug, limb_count, nonnegative, sign_bits,
  header, with_sign, most_fixnum, verify_bignum,
}
use ikarus.Mpn.{Mpn}
use ikarus.Word.{to_word, fix, unfix, most_positive_fixnum}

-- The limbs that the header counts, as they are handed to mpn.
abbrev pub counted_limbs : Bignum → List ℕ
counted_limbs b = take (limb_count b) b.limbs

-- The branches in which the magnitude grows by `v`: `mpn_add_1` and a limb for the carry. `sign`
-- is that of the result.
pub grow : Mpn → ℕ → Bignum → ℕ → Result Obj
grow m sign y v =
    let (r, carry) = m.add_1 (counted_limbs y) v in
    if carry == 0
    then verify_bignum (record { fst = header sign (limb_count y); limbs = r })
    else verify_bignum (record { fst = header sign (limb_count y + 1); limbs = r ++ 1 ∷ [] })

-- What is made of the limbs of a difference: at most one of them is dropped at the top.
pub shrink_result : ℕ → ℕ → List ℕ → Result Obj
shrink_result n sign r =
    let result_size = if get_or r (n - 1) 0 == 0 then n - 1 else n in
    let last = get_or r (result_size - 1) 0 in
    if result_size == 0
    then ok (word 0)
    else if result_size == 1 && leb last (most_fixnum sign)
    then ok (word (fix (with_sign sign last)))
    else verify_bignum (record { fst = header sign result_size; limbs = take result_size r })

-- The branches in which the magnitude shrinks by `v`: `mpn_sub_1`, and an exit on a borrow.
pub shrink : Mpn → ℕ → Bignum → ℕ → Result Obj
unfolding shrink_result
shrink m sign y v =
    let (r, borrow) = m.sub_1 (counted_limbs y) v in
    if borrow == 0 then shrink_result (limb_count y) sign r else exits borrow_bug

pub ikrt_fxbnplus : Mpn → ℕ → Bignum → Result Obj
ikrt_fxbnplus m x y =
    let intx = unfix x in
    if x == 0
    then ok (bignum y)
    else if is_pos intx
    then if nonnegative y then grow m 0 y (to_word intx) else shrink m 8 y (to_word intx)
    else if nonnegative y
    then shrink m 0 y (to_word (neg intx))
    else grow m 8 y (to_word (neg intx))

pub ikrt_bnnegate : Bignum → Result Obj
ikrt_bnnegate x =
    let limb = get_or x.limbs 0 0 in
    if limb_count x == 1 && nonnegative x && limb == most_positive_fixnum + 1
    then ok (word (fix (neg_ℕ limb)))
    else verify_bignum
        (record { fst = header (8 - sign_bits x) (limb_count x); limbs = counted_limbs x })

pub ikrt_fxbnminus : Mpn → ℕ → Bignum → Result Obj
ikrt_fxbnminus m x y =
    let intx = unfix x in
    if x == 0
    then ikrt_bnnegate y
    else if is_pos intx
    then if nonnegative y then shrink m 8 y (to_word intx) else grow m 0 y (to_word intx)
    else if nonnegative y
    then grow m 8 y (to_word (neg intx))
    else shrink m 0 y (to_word (neg intx))

pub ikrt_bnfxminus : Mpn → Bignum → ℕ → Result Obj
ikrt_bnfxminus m x y =
    let inty = unfix y in
    if y == 0
    then ok (bignum x)
    else if is_neg inty
    then if nonnegative x
      then grow m 0 x (to_word (neg inty))
      else shrink m 8 x (to_word (neg inty))
    else if nonnegative x
    then shrink m 0 x (to_word inty)
    else grow m 8 x (to_word inty)
