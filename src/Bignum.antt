-- ===== src/Bignum.antt =====
-- Bignums of src/ikarus-numerics.c: the header word and the limbs behind it, `verify_bignum`,
-- `normalize_bignum` and the two tests that read one word. `verify_bignum` is the version that checks.
-- configure.ac sets NDEBUG, under which it is its argument: what it returns is the same, but where it
-- exits here, the object is returned as it is.
pub mod Valid
pub mod Normalize
use ikarus.Base.{
  ℕ, zero, suc, ◌+◌, ◌-◌, ◌*◌, ◌/◌, ◌%◌, Bool, List, ◌&&◌, take, get_or, ltb, leb, ◌==◌,
  if◌then◌else◌,
}
use ikarus.Base.Int.{ℤ, pos, neg_ℕ}
use ikarus.Limbs.{value}
use ikarus.Word.{unfix, fix, most_positive_fixnum, most_negative_fixnum}

-- `fst` is the header: the tag 3, the sign bit 8, and the limb count from bit 4 on.
pub record Bignum : Type 0 where
  pub fst : ℕ
  pub limbs : List ℕ

-- A tagged word, or a pointer to a bignum.
pub data Obj : Type 0 where
  word : ℕ → Obj
  bignum : Bignum → Obj

-- The calls of exit(-1), and an allocation whose size does not fit the `int` that ik_safe_alloc takes,
-- where C leaves the rest open.
pub data Exit : Type 0 where
  invalid_limb_count invalid_last_limb positive_fixnum negative_fixnum borrow_bug : Exit
  size_not_int : Exit

pub data Result {ℓ} (A : Type ℓ) : Type ℓ where
  ok : A → Result A
  exits : Exit → Result A

infixl 5 ◌>>=◌
abbrev pub ◌>>=◌ {ℓ κ} : {A : Type ℓ} {B : Type κ} → Result A → (A → Result B) → Result B
ok a >>= f = f a
exits e >>= f = exits e

-- bnfst_limb_count
abbrev pub limb_count : Bignum → ℕ
limb_count b = b.fst / 16

-- bignum_sign_mask & fst: 0, or 8 if the number is negative
abbrev pub sign_bits : Bignum → ℕ
sign_bits b = b.fst / 8 % 2 * 8

-- The negation of `bnfst_negative`.
abbrev pub nonnegative : Bignum → Bool
nonnegative b = sign_bits b == 0

-- `(limbs << bignum_length_shift) | sign | bignum_tag`, fields that do not overlap. A limb count
-- of 2 ^ 60, at which the shift would lose bits, does not fit the address space.
abbrev pub header : ℕ → ℕ → ℕ
header sign n = n * 16 + sign + 3

-- The number with sign bits and magnitude.
abbrev pub with_sign : ℕ → ℕ → ℤ
with_sign sign m = if sign == 0 then pos m else neg_ℕ m

-- The greatest magnitude that is a fixnum under that sign.
abbrev pub most_fixnum : ℕ → ℕ
most_fixnum sign = if sign == 0 then most_positive_fixnum else most_negative_fixnum

-- The integer that a number object stands for.
abbrev pub to_int : Obj → ℤ
to_int (word w) = unfix w
to_int (bignum b) = with_sign (sign_bits b) (value b.limbs)

unfoldable pub verify_bignum : Bignum → Result Obj
verify_bignum b =
    let last_limb = get_or b.limbs (limb_count b - 1) 0 in
    if leb (limb_count b) 0
    then exits invalid_limb_count
    else if last_limb == 0
    then exits invalid_last_limb
    else if limb_count b == 1
    then if nonnegative b
      then if leb last_limb most_positive_fixnum then exits positive_fixnum else ok (bignum b)
      else if leb last_limb most_negative_fixnum
      then exits negative_fixnum
      else ok (bignum b)
    else ok (bignum b)

-- The loop at the head of `normalize_bignum`: the limb count without the zeros at the top.
unfoldable pub trim : ℕ → List ℕ → ℕ
trim zero d = 0
trim (suc n) d = if get_or d n 0 == 0 then trim n d else suc n

-- `limbs` limbs of data have been stored in `r`, whose header is still to be written. For no limbs,
-- which no caller passes, C reads the word in front of the data.
unfoldable pub normalize_bignum : ℕ → ℕ → List ℕ → Result Obj
normalize_bignum limbs sign r =
    let n = trim limbs r in
    let last = get_or r 0 0 in
    if n == 0
    then ok (word 0)
    else if n == 1 && leb last (most_fixnum sign)
    then ok (word (fix (with_sign sign last)))
    else verify_bignum (record { fst = header sign n; limbs = take n r })

pub ikrt_positive_bn : Bignum → Bool
ikrt_positive_bn x = nonnegative x

-- `ref(x, wordsize-vector_tag)` is the lowest limb.
pub ikrt_even_bn : Bignum → Bool
ikrt_even_bn x = get_or x.limbs 0 0 % 2 == 0
