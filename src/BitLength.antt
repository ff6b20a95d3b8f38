-- ===== src/BitLength.antt =====
-- `limb_length` and `ikrt_bignum_length` of src/ikarus-numerics.c: how many bits a number needs.
pub mod Laws
use ikarus.Base.{
  ℕ, zero, suc, ◌+◌, ◌-◌, ◌*◌, ◌/◌, ◌^◌, Bool, true, false, List, [], ◌∷◌, take, get_or, ◌==◌,
  if◌then◌else◌,
}
use ikarus.Base.Int.{pos}
use ikarus.Bignum.{Bignum, limb_count, nonnegative}
use ikarus.Word.{fix}

-- The loop of `limb_length` on fuel.
pub limb_length_loop : ℕ → ℕ → ℕ
limb_length_loop zero n = 0
limb_length_loop (suc fuel) n =
    let rest = limb_length_loop fuel (n / 2) in if n == 0 then 0 else suc rest

-- A word has 64 bits, and each round takes one.
pub limb_length : ℕ → ℕ
unfolding limb_length_loop
limb_length n = limb_length_loop 64 n

-- The loop that looks for another bit set below the last limb.
pub another_bit_set : List ℕ → Bool
another_bit_set [] = false
another_bit_set (d ∷ ds) = if d == 0 then another_bit_set ds else true

pub ikrt_bignum_length : Bignum → ℕ
unfolding another_bit_set
ikrt_bignum_length x =
    let sn = limb_count x in
    let last = get_or x.limbs (sn - 1) 0 in
    let n0 = limb_length last in
    if nonnegative x
    then fix (pos ((sn - 1) * 64 + n0))
    else if last == 2 ^ (n0 - 1)
    then if another_bit_set (take (sn - 1) x.limbs)
      then fix (pos ((sn - 1) * 64 + n0))
      else fix (pos ((sn - 1) * 64 + n0 - 1))
    else fix (pos ((sn - 1) * 64 + n0))
