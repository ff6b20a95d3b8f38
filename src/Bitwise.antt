-- ===== src/Bitwise.antt =====
-- `and` and `or` of bignums in src/ikarus-numerics.c: `ikrt_fxbnlogand`, `ikrt_bnbnlogand`,
-- `ikrt_fxbnlogor` and `ikrt_bnbnlogor`, on two's complements.
pub mod Limbwise
pub mod Combine
pub mod Operand
pub mod And
pub mod Or
pub mod Words
pub mod First
pub mod Twos
pub mod Mixed
use ikarus.Base.{
  ℕ, zero, suc, ◌+◌, ◌-◌, ◌*◌, ◌%◌, List, [], ◌∷◌, ◌++◌, Bool, true, false, ◌&&◌, not, take,
  replicate, length, get_or, ltb, leb, ◌==◌, if◌then◌else◌,
}
use ikarus.Base.Int.{ℤ, pos, negsuc, is_neg, eq_ℤ}
use ikarus.Bignum.{
  Bignum, Obj, word, bignum, Result, ok, limb_count, nonnegative, header, verify_bignum, trim,
  normalize_bignum,
}
use ikarus.Shift.{bits_compliment_with_carry, bits_compliment}
use ikarus.Word.{word_mod, to_word, to_long, fix, unfix, most_positive_fixnum}
use Prim.Native.Nat.{bit_and, bit_or}

-- `bits_compliment2`: the loops over n1 limbs and over the zeros above them, n2 limbs in all.
pub bits_compliment2 : List ℕ → ℕ → List ℕ
bits_compliment2 src n2 = bits_compliment_with_carry 1 (src ++ replicate (n2 - length src) 0)

-- `bits_compliment_logand` over as many limbs as the shorter operand has.
pub bits_compliment_logand : ℕ → List ℕ → List ℕ → List ℕ
bits_compliment_logand carry [] es = []
bits_compliment_logand carry (d ∷ ds) [] = []
bits_compliment_logand carry (d ∷ ds) (e ∷ es) =
    bit_and ((carry + (word_mod - 1 - d)) % word_mod) e
    ∷ bits_compliment_logand (if not (carry == 0) && (d == 0) then 1 else 0) ds es

-- `bits_compliment_logor`, and `bits_compliment_carry` with its carry for the limbs of the first
-- operand that are left.
pub bits_compliment_logor : ℕ → List ℕ → List ℕ → List ℕ
bits_compliment_logor carry [] es = []
bits_compliment_logor carry (d ∷ ds) [] = bits_compliment_with_carry carry (d ∷ ds)
bits_compliment_logor carry (d ∷ ds) (e ∷ es) =
    bit_or ((carry + (word_mod - 1 - d)) % word_mod) e
    ∷ bits_compliment_logor (if not (carry == 0) && (d == 0) then 1 else 0) ds es

-- The limbs of the second operand above those that were written, as `copy_limbs` copies them or as
-- they stand in place.
abbrev pub over : List ℕ → List ℕ → List ℕ
over [] s = s
over (r ∷ rs) [] = r ∷ rs
over (r ∷ rs) (e ∷ es) = r ∷ over rs es

-- The first limb is replaced by `f` of it.
abbrev pub at_first : (ℕ → ℕ) → List ℕ → List ℕ
at_first f [] = []
at_first f (d ∷ ds) = f d ∷ ds

abbrev pub magnitude_limbs : Bignum → List ℕ
magnitude_limbs b = take (limb_count b) b.limbs

-- `1 + ~ d` on a word.
abbrev pub negated : ℕ → ℕ
negated d = (1 + (word_mod - 1 - d)) % word_mod

pub ikrt_fxbnlogand : ℕ → Bignum → Result Obj
unfolding bits_compliment2
ikrt_fxbnlogand x y =
    let n1 = unfix x in
    let limb = get_or y.limbs 0 0 in
    let len = limb_count y in
    let s2 = magnitude_limbs y in
    if not (is_neg n1)
    then if not (nonnegative y)
      then ok (word (fix (to_long (bit_and (to_word n1) (negated limb)))))
      else ok (word (fix (to_long (bit_and (to_word n1) limb))))
    else if eq_ℤ n1 (negsuc 0)
    then ok (bignum y)
    else if not (nonnegative y)
    then normalize_bignum (len + 1) 8 (
        bits_compliment2 (at_first (λ d. bit_and d (to_word n1)) (bits_compliment2 s2 (len + 1)))
          (len + 1))
    else verify_bignum (record { fst = y.fst; limbs = at_first (λ d. bit_and d (to_word n1)) s2 })

-- Both negative, and x no shorter than y.
pub logand_negative : Bignum → Bignum → Result Obj
unfolding bits_compliment2 bits_compliment_logand
logand_negative x y =
    let n1 = limb_count x in
    let s = bits_compliment2 (magnitude_limbs x) (n1 + 1) in
    let r = over (bits_compliment_logand 1 (magnitude_limbs y) s) s in
    normalize_bignum (n1 + 1) 8 (bits_compliment2 r (n1 + 1))

-- x is not negative, y is.
pub logand_mixed : Bignum → Bignum → Result Obj
unfolding bits_compliment_logand
logand_mixed x y =
    let n1 = limb_count x in
    let n2 = limb_count y in
    let s1 = magnitude_limbs x in
    let s2 = magnitude_limbs y in
    if leb n1 n2
    then normalize_bignum n1 0 (bits_compliment_logand 1 s2 s1)
    else normalize_bignum n1 0 (over (bits_compliment_logand 1 s2 s1) s1)

-- The limbs that both operands have, combined by `f`.
unfoldable pub zip_limbs : (ℕ → ℕ → ℕ) → List ℕ → List ℕ → List ℕ
zip_limbs f [] ys = []
zip_limbs f (x ∷ xs) [] = []
zip_limbs f (x ∷ xs) (y ∷ ys) = f x y ∷ zip_limbs f xs ys

-- Neither is negative. The loop goes down to the last limb that is not zero, as that of
-- `normalize_bignum` does.
pub logand_positive : Bignum → Bignum → Result Obj
unfolding zip_limbs
logand_positive x y =
    let d = zip_limbs bit_and (magnitude_limbs x) (magnitude_limbs y) in
    let k = trim (length d) d in
    let last = get_or d (k - 1) 0 in
    if k == 0
    then ok (word 0)
    else if k == 1 && ltb last most_positive_fixnum
    then ok (word (fix (pos last)))
    else ok (bignum (record { fst = header 0 k; limbs = take k d }))

pub ikrt_bnbnlogand : Bignum → Bignum → Result Obj
unfolding logand_negative logand_mixed logand_positive
ikrt_bnbnlogand x y =
    if not (nonnegative x)
    then if not (nonnegative y)
      then if leb (limb_count y) (limb_count x) then logand_negative x y else logand_negative y x
      else logand_mixed y x
    else if not (nonnegative y)
    then logand_mixed x y
    else logand_positive x y

pub ikrt_fxbnlogor : ℕ → Bignum → Result Obj
unfolding bits_compliment2
ikrt_fxbnlogor x y =
    let n1 = unfix x in
    let limb = get_or y.limbs 0 0 in
    let len = limb_count y in
    let s2 = magnitude_limbs y in
    if is_neg n1
    then if not (nonnegative y)
      then ok (word (fix (to_long (bit_or (to_word n1) (negated limb)))))
      else ok (word (fix (to_long (bit_or (to_word n1) limb))))
    else if eq_ℤ n1 (pos 0)
    then ok (bignum y)
    else if not (nonnegative y)
    then normalize_bignum (len + 1) 8 (
        bits_compliment2 (at_first (λ d. bit_or d (to_word n1)) (bits_compliment2 s2 (len + 1)))
          (len + 1))
    else verify_bignum (record { fst = y.fst; limbs = at_first (λ d. bit_or d (to_word n1)) s2 })

-- Both negative, and x no shorter than y.
pub logor_negative : Bignum → Bignum → Result Obj
unfolding bits_compliment2 bits_compliment_logor
logor_negative x y =
    let n1 = limb_count x in
    let s = bits_compliment2 (magnitude_limbs y) n1 in
    normalize_bignum n1 8 (bits_compliment2 (bits_compliment_logor 1 (magnitude_limbs x) s) n1)

-- x is not negative, y is.
pub logor_mixed : Bignum → Bignum → Result Obj
unfolding bits_compliment2 bits_compliment_logor
logor_mixed x y =
    let n2 = limb_count y in
    let s1 = magnitude_limbs x in
    let s2 = magnitude_limbs y in
    if leb n2 (limb_count x)
    then normalize_bignum n2 8 (bits_compliment2 (bits_compliment_logor 1 s2 (take n2 s1)) n2)
    else normalize_bignum n2 8 (bits_compliment (bits_compliment_logor 1 s2 s1))

pub logor_positive : Bignum → Bignum → Result Obj
unfolding zip_limbs
logor_positive x y =
    let n1 = limb_count x in
    let n2 = limb_count y in
    let n = if ltb n2 n1 then n1 else n2 in
    let s1 = magnitude_limbs x in
    let s2 = magnitude_limbs y in
    if n == n1
    then normalize_bignum n 0 (over (zip_limbs bit_or s1 s2) s1)
    else normalize_bignum n 0 (over (zip_limbs bit_or s1 s2) s2)

pub ikrt_bnbnlogor : Bignum → Bignum → Result Obj
unfolding logor_negative logor_mixed logor_positive
ikrt_bnbnlogor x y =
    if not (nonnegative x)
    then if not (nonnegative y)
      then if leb (limb_count y) (limb_count x) then logor_negative x y else logor_negative y x
      else logor_mixed y x
    else if not (nonnegative y)
    then logor_mixed x y
    else logor_positive x y
