-- ===== src/Lognot.antt =====
-- `ikrt_bnlognot` of src/ikarus-numerics.c: the bitwise complement of a bignum.
pub mod Laws
use ikarus.Base.{
  ℕ, suc, ◌+◌, ◌-◌, ◌/◌, List, [], ◌∷◌, ◌++◌, take, replicate, length, ◌==◌, if◌then◌else◌,
}
use ikarus.Bignum.{
  Bignum, Obj, bignum, Result, ok, limb_count, nonnegative, header, normalize_bignum,
}
use ikarus.Word.{word_mod}

-- The loops of the negative branch: -1 for the zeros at the low end, one less in the first limb
-- that is not zero, and the rest as it is.
pub decremented : List ℕ → List ℕ
decremented [] = []
decremented (d ∷ ds) = if d == 0 then (word_mod - 1) ∷ decremented ds else (d - 1) ∷ ds

-- The first loop of the other branch: how many limbs at the low end are all ones.
pub low_ones : List ℕ → ℕ
low_ones [] = 0
low_ones (d ∷ ds) = if d == word_mod - 1 then suc (low_ones ds) else 0

-- The loops that follow: 0 for those limbs, one more in the next, and the rest as it is.
pub incremented : List ℕ → List ℕ
incremented [] = []
incremented (d ∷ ds) = if d == word_mod - 1 then 0 ∷ incremented ds else (d + 1) ∷ ds

pub ikrt_bnlognot : Bignum → Result Obj
unfolding decremented low_ones incremented
ikrt_bnlognot x =
    let n = limb_count x in
    let s1 = take n x.limbs in
    if nonnegative x
    then if low_ones s1 == n
      then ok (bignum (record { fst = header 8 (n + 1); limbs = replicate n 0 ++ 1 ∷ [] }))
      else ok (bignum (record { fst = header 8 n; limbs = incremented s1 }))
    else normalize_bignum n 0 (decremented s1)
