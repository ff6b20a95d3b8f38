-- ===== src/BnBn.antt =====
-- Sums and differences of two bignums, `ikrt_bnbnplus` and `ikrt_bnbnminus` of
-- src/ikarus-numerics.c.
pub mod Add
pub mod Subtract
pub mod Order
pub mod Laws
pub mod Carry
pub mod Minus
use ikarus.Base.{
  ℕ, zero, suc, ◌+◌, ◌-◌, ◌++◌, [], ◌∷◌, List, Bool, true, false, ◌&&◌, take, set, get_or, ltb, leb,
  ◌==◌, if◌then◌else◌,
}
use ikarus.Bignum.{
  Bignum, Obj, word, Result, ok, exits, borrow_bug, limb_count, sign_bits, header, verify_bignum,
  normalize_bignum,
}
use ikarus.Mpn.{Mpn}

-- The sum of two magnitudes. `junk` is what the fresh memory held in the limb above the sum, and
-- `place` is the index at which the code stores the carry.
pub add_magnitudes : Mpn → ℕ → ℕ → ℕ → ℕ → Bignum → ℕ → Bignum → Result Obj
add_magnitudes m junk place sign n1 s1 n2 s2 =
    let (res, carry) = m.add (take n1 s1.limbs) (take n2 s2.limbs) in
    if carry == 0
    then verify_bignum (record { fst = header sign n1; limbs = res })
    else verify_bignum
        (record { fst = header sign (n1 + 1); limbs = set (res ++ junk ∷ []) place 1 })

-- The difference of two magnitudes, the greater one first. What follows the subtraction is what
-- `normalize_bignum` does, written out once more.
pub sub_magnitudes : Mpn → ℕ → ℕ → Bignum → ℕ → Bignum → Result Obj
sub_magnitudes m sign n1 s1 n2 s2 =
    let (res, burrow) = m.sub (take n1 s1.limbs) (take n2 s2.limbs) in
    if burrow == 0 then normalize_bignum n1 sign res else exits borrow_bug

-- The loop that drops the limbs at the top in which two numbers of n limbs agree.
pub skip_equal : ℕ → List ℕ → List ℕ → ℕ
skip_equal zero xs ys = 0
skip_equal (suc n) xs ys = if get_or xs n 0 == get_or ys n 0 then skip_equal n xs ys else suc n

-- Whether the two operands are exchanged: |y| is greater than |x|.
pub exchanged : ℕ → ℕ → Bignum → Bignum → Bool
exchanged xlimbs ylimbs x y =
    if leb xlimbs ylimbs
    then if xlimbs == ylimbs
      then ltb (get_or x.limbs (xlimbs - 1) 0) (get_or y.limbs (xlimbs - 1) 0)
      else true
    else false

pub ikrt_bnbnplus : Mpn → ℕ → Bignum → Bignum → Result Obj
ikrt_bnbnplus m junk x y =
    let n = limb_count x in
    let k = limb_count y in
    if sign_bits x == sign_bits y
    then if ltb k n
      then add_magnitudes m junk n (sign_bits x) n x k y
      else add_magnitudes m junk n (sign_bits x) k y n x
    else let xlimbs = if n == k then skip_equal n x.limbs y.limbs else n in
      let ylimbs = if n == k then xlimbs else k in
      if n == k && xlimbs == 0
      then ok (word 0)
      else if exchanged xlimbs ylimbs x y
      then sub_magnitudes m (sign_bits y) ylimbs y xlimbs x
      else sub_magnitudes m (sign_bits x) n x k y

-- `same` says that the two pointers are equal.
pub ikrt_bnbnminus : Mpn → ℕ → Bool → Bignum → Bignum → Result Obj
ikrt_bnbnminus m junk same x y =
    let n = limb_count x in
    let k = limb_count y in
    let xlimbs = if n == k then skip_equal n x.limbs y.limbs else n in
    let ylimbs = if n == k then xlimbs else k in
    if same
    then ok (word 0)
    else if sign_bits x == sign_bits y
    then if n == k && xlimbs == 0
      then ok (word 0)
      else if exchanged xlimbs ylimbs x y
      then sub_magnitudes m (8 - sign_bits y) ylimbs y xlimbs x
      else sub_magnitudes m (sign_bits x) xlimbs x ylimbs y
    else if leb k n
    then add_magnitudes m junk n (sign_bits x) n x k y
    else add_magnitudes m junk n (sign_bits x) k y n x
