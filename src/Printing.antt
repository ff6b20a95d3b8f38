-- ===== src/Printing.antt =====
-- `ikrt_bignum_to_bytevector` of src/ikarus-numerics.c, the decimal digits of a bignum. The function
-- mpn_get_str of GMP and the success of malloc are parameters.
pub mod Digits
pub mod Laws
pub mod Reference
use ikarus.Base.{
  ℕ, ◌+◌, ◌-◌, ◌*◌, ◌/◌, List, [], ◌∷◌, ◌++◌, map, take, length, Bool, not, leb, ◌==◌,
  if◌then◌else◌, Option, none, some,
}
use ikarus.Base.Int.{pos}
use ikarus.Bignum.{Bignum, limb_count, sign_bits}
use ikarus.Word.{fix, align}

-- The object: the length word, as many bytes as the allocator gave behind it, and the bytes that
-- were stored there, from the first on.
pub record Bytevector : Type 0 where
  pub size : ℕ
  pub room : ℕ
  pub stored : List ℕ

-- The result, the calls of exit(-1), and a read behind the digits.
pub data Printed : Type 0 where
  printed : Bytevector → Printed
  invalid_length no_memory past_digits : Printed

-- The loop over the zeros in front.
pub string_start : List ℕ → Option (List ℕ)
string_start [] = none
string_start (d ∷ ds) = let rest = string_start ds in if d == 0 then rest else some (d ∷ ds)

-- The sign and the digits as characters.
pub text : ℕ → List ℕ → List ℕ
text sign_bit digits = (if not (sign_bit == 0) then 45 ∷ [] else []) ++ map (λ d. d + 48) digits

pub ikrt_bignum_to_bytevector : (List ℕ → List ℕ) → Bool → Bignum → Printed
unfolding string_start text
ikrt_bignum_to_bytevector mpn_get_str allocated x =
    let sign_bit = sign_bits x in
    let extra = if not (sign_bit == 0) then 1 else 0 in
    if leb (limb_count x) 0
    then invalid_length
    else if not allocated
    then no_memory
    else elim (string_start (mpn_get_str (take (limb_count x) x.limbs))) [
      | none ↦ past_digits
      | some digits ↦ printed (record {
        size = fix (pos (length digits + extra));
        room = align (length digits + 8 + extra) - 8;
        stored = text sign_bit digits ++ 0 ∷ [];
      })
    ]
