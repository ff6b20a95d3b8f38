-- ===== src/Bignum/Valid.antt =====
-- Which objects are numbers in normal form, and what `verify_bignum` accepts.
use ikarus.Base.{ℕ, ◌-◌, ◌/◌, ◌%◌, ◌≤◌, ◌<◌, ◌≡◌, refl, arith, List, [], ◌∷◌, length, get_or, ◌↔◌}
use ikarus.Base.Int.{ℤ}
use ikarus.Bignum.{
  Bignum, Obj, word, bignum, Result, ok, sign_bits, most_fixnum, to_int, verify_bignum,
}
use ikarus.Limbs.{value, IsLimbs, weight_mono, get_or_in, weight-le-value_top}
use ikarus.Word.{IsFixnum, word_mod}

-- A bignum in normal form: its header is right, the top limb is not zero, and no fixnum holds it.
pub record IsBignum (b : Bignum) : Type 0 where
  pub tagged : b.fst % 8 ≡ 3
  pub counted : b.fst / 16 ≡ length b.limbs
  pub in_words : IsLimbs b.limbs
  pub trimmed : 0 < get_or b.limbs (length b.limbs - 1) 0
  pub big : most_fixnum (sign_bits b) < value b.limbs

abbrev pub IsNumber : Obj → Type 0
IsNumber (word w) = IsFixnum w
IsNumber (bignum b) = IsBignum b

-- The call returns, and its result is the number v in normal form.
pub record Returns (r : Result Obj) (v : ℤ) : Type 0 where
  pub out : Obj
  pub returns : r ≡ ok out
  pub normal : IsNumber out
  pub equals : to_int out ≡ v

pub IsBignum-length_pos : (b : Bignum) → IsBignum b → 0 < length b.limbs
IsBignum-length_pos b h = omega (arith, get_or_in b.limbs _ h.trimmed)

pub value-one : (xs : List ℕ) → length xs ≡ 1 → value xs ≡ get_or xs 0 0
value-one [] h = refl
value-one (x ∷ []) h = omega arith
value-one (x ∷ y ∷ xs) h = absurd (omega arith)

-- `verify_bignum` lets a bignum in normal form pass.
pub verify_bignum-ok : (b : Bignum) → IsBignum b → verify_bignum b ≡ ok (bignum b)
unfolding verify_bignum
verify_bignum-ok b h =
    rw h.counted (ground (arith, h.trimmed, h.big, value-one b.limbs, IsBignum-length_pos b h))

-- What `verify_bignum` returns is its argument.
pub verify_bignum-same : (b : Bignum) (out : Obj) → verify_bignum b ≡ ok out → out ≡ bignum b
unfolding verify_bignum
verify_bignum-same b out e = ground arith

-- A number with two limbs or more is past every fixnum.
pub two_limbs-big :
    (xs : List ℕ) → 1 < length xs → 0 < get_or xs (length xs - 1) 0 → word_mod ≤ value xs
two_limbs-big xs h top =
    omega (arith, weight-le-value_top xs top, weight_mono 1 (length xs - 1) (omega arith))

verify_bignum-trimmed :
    (b : Bignum)
    → b.fst / 16 ≡ length b.limbs
    → verify_bignum b ≡ ok (bignum b)
    → 0 < get_or b.limbs (length b.limbs - 1) 0
unfolding verify_bignum
verify_bignum-trimmed b count e = let e' = rw count at e in ground arith

verify_bignum-big :
    (b : Bignum)
    → b.fst / 16 ≡ length b.limbs
    → verify_bignum b ≡ ok (bignum b)
    → most_fixnum (sign_bits b) < value b.limbs
unfolding verify_bignum
verify_bignum-big b count e =
    let top = verify_bignum-trimmed b count e in
    let e' = rw count at e in ground (arith, top, two_limbs-big b.limbs, value-one b.limbs)

-- With a header that is right, `verify_bignum` accepts exactly the bignums in normal form.
pub verify_bignum_iff :
    (b : Bignum)
    → b.fst % 8 ≡ 3
    → b.fst / 16 ≡ length b.limbs
    → IsLimbs b.limbs
    → (verify_bignum b ≡ ok (bignum b)) ↔ IsBignum b
verify_bignum_iff b tag count limbs = (
  λ e. record {
    tagged = tag;
    counted = count;
    in_words = limbs;
    trimmed = verify_bignum-trimmed b count e;
    big = verify_bignum-big b count e;
  },
  verify_bignum-ok b,
)
