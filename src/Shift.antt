-- ===== src/Shift.antt =====
-- Shifts of src/ikarus-numerics.c: `ikrt_fixnum_shift_left`, `ikrt_bignum_shift_left` and
-- `ikrt_bignum_shift_right`. The callers pass a count that is positive. A shift to the left by a count
-- for which the size of the result does not fit an `int` ends with `size_not_int`.
pub mod Bits
pub mod Left
pub mod Right
pub mod Complement
pub mod Rounding
pub mod Branches
pub mod Laws
use ikarus.Base.{
  ℕ, zero, suc, ◌+◌, ◌-◌, ◌*◌, ◌/◌, ◌%◌, ◌^◌, Bool, ◌&&◌, not, List, [], ◌∷◌, ◌++◌, take, drop, set,
  replicate, get_or, ltb, leb, ◌==◌, if◌then◌else◌,
}
use ikarus.Base.Int.{pos, negsuc, is_neg, magnitude}
use ikarus.Bignum.{
  Bignum, Obj, word, Result, ok, exits, size_not_int, limb_count, sign_bits, nonnegative,
  normalize_bignum,
}
use ikarus.Word.{fix, unfix, word_mod, align}

-- `copy_bits_shifting_left`, from the limb at which the carry comes in. The bits of the carry lie
-- below those of the shifted limb, so that the sum is their `|`.
pub copy_bits_shifting_left : ℕ → ℕ → List ℕ → List ℕ
copy_bits_shifting_left m carry [] = carry ∷ []
copy_bits_shifting_left m carry (b ∷ bs) =
    (b * 2 ^ m % word_mod + carry) ∷ copy_bits_shifting_left m (b / 2 ^ (64 - m)) bs

-- The loop of `copy_bits_shifting_right`.
pub shift_right_loop : ℕ → ℕ → List ℕ → List ℕ
shift_right_loop m carry [] = carry ∷ []
shift_right_loop m carry (b ∷ bs) =
    (b * 2 ^ (64 - m) % word_mod + carry) ∷ shift_right_loop m (b / 2 ^ m) bs

pub copy_bits_shifting_right : ℕ → List ℕ → List ℕ
copy_bits_shifting_right m [] = []
copy_bits_shifting_right m (b ∷ bs) = shift_right_loop m (b / 2 ^ m) bs

-- `bits_compliment_with_carry`: `carry + ~ d` on words.
unfoldable pub bits_compliment_with_carry : ℕ → List ℕ → List ℕ
bits_compliment_with_carry carry [] = []
bits_compliment_with_carry carry (d ∷ ds) =
    (carry + (word_mod - 1 - d)) % word_mod
    ∷ bits_compliment_with_carry (if not (carry == 0) && (d == 0) then 1 else 0) ds

unfoldable pub bits_compliment : List ℕ → List ℕ
unfolding bits_compliment_with_carry
bits_compliment ds = bits_compliment_with_carry 1 ds

-- `bits_carry`: 1 if all limbs are zero.
pub bits_carry : List ℕ → ℕ
bits_carry [] = 1
bits_carry (d ∷ ds) = if d == 0 then bits_carry ds else 0

-- `ik_safe_alloc(pcb, align(disp_bignum_data + limb_count * wordsize))`: the size is passed as an
-- `int`, and where it fits one, so does the limb count. C would cut a larger one to 32 bits.
pub allocates : ℕ → Result Obj → Result Obj
allocates limbs r = if ltb (align (8 + limbs * 8)) (2 ^ 31) then r else exits size_not_int

-- `n >= 0` and `n < 0` differ in the sign of what is shifted.
pub ikrt_fixnum_shift_left : ℕ → ℕ → Result Obj
ikrt_fixnum_shift_left x y =
    let m = magnitude (unfix y) in
    let n = unfix x in
    let bit_shift = m % 64 in
    let high = if bit_shift == 0 then 0 else magnitude n / 2 ^ (64 - bit_shift) in
    let low = magnitude n * 2 ^ bit_shift % word_mod in
    allocates (m / 64 + 2) (
      normalize_bignum (m / 64 + 2) (if is_neg n then 8 else 0)
        (replicate (m / 64) 0 ++ low ∷ high ∷ []))

pub ikrt_bignum_shift_left : Bignum → ℕ → Result Obj
unfolding copy_bits_shifting_left
ikrt_bignum_shift_left x y =
    let m = magnitude (unfix y) in
    let n = limb_count x in
    let whole_limb_shift = m / 64 in
    let bit_shift = m % 64 in
    if bit_shift == 0
    then allocates (n + whole_limb_shift) (
        normalize_bignum (n + whole_limb_shift) (sign_bits x)
          (replicate whole_limb_shift 0 ++ take n x.limbs))
    else allocates (n + whole_limb_shift + 1) (
        normalize_bignum (n + whole_limb_shift + 1) (sign_bits x)
          (replicate whole_limb_shift 0 ++ copy_bits_shifting_left bit_shift 0 (take n x.limbs)))

-- `*p |= -1L << (mp_bits_per_limb - bit_shift)`, where those bits of the limb are zero.
pub fill_top : ℕ → ℕ → List ℕ → List ℕ
fill_top n bit_shift r = set r (n - 1) (get_or r (n - 1) 0 + (word_mod - 2 ^ (64 - bit_shift)))

pub ikrt_bignum_shift_right : Bignum → ℕ → Result Obj
unfolding copy_bits_shifting_right bits_compliment_with_carry bits_compliment bits_carry fill_top
ikrt_bignum_shift_right x y =
    let m = magnitude (unfix y) in
    let limbs = take (limb_count x) x.limbs in
    let whole_limb_shift = m / 64 in
    let bit_shift = m % 64 in
    let n = limb_count x - whole_limb_shift in
    let kept = drop whole_limb_shift limbs in
    let r = bits_compliment_with_carry (bits_carry (take whole_limb_shift limbs)) kept in
    if not (nonnegative x)
    then if leb (limb_count x) whole_limb_shift
      then ok (word (fix (negsuc 0)))
      else if bit_shift == 0
      then normalize_bignum n 8 (bits_compliment r)
      else normalize_bignum n 8
          (bits_compliment (fill_top n bit_shift (copy_bits_shifting_right bit_shift r)))
    else if leb (limb_count x) whole_limb_shift
    then ok (word 0)
    else if bit_shift == 0
    then normalize_bignum n 0 kept
    else normalize_bignum n 0 (copy_bits_shifting_right bit_shift kept)
