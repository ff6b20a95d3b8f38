-- ===== src/RandomTests.antt =====
-- A random number, at a concrete argument and a concrete sequence of numbers.
use ikarus.Base.{ℕ, ◌-◌, ◌≤◌, ◌<◌, ◌%◌, ◌^◌, ◌≡◌, arith, some, inr}
use ikarus.Base.Int.{pos}
use ikarus.Random.Laws.{ikrt_fxrandom_lem}
use ikarus.Random.{ikrt_fxrandom}
use ikarus.Tests.{three, three-IsFixnum, three-whole}
use ikarus.Word.{fix}

abbrev sevens : ℕ → ℕ
sevens i = 7 - i

-- The low two bits of 7 are not below 3.
seven_above : (i : ℕ) → i < 1 → 3 ≤ sevens i % 2 ^ 2
seven_above i lt = let first : i ≡ 0 = omega arith in rw first (omega arith)

ikrt_fxrandom_lem_example : ikrt_fxrandom 2 sevens three ≡ some (fix (pos 2))
ikrt_fxrandom_lem_example =
    ikrt_fxrandom_lem sevens three 3 2 1 three-IsFixnum three-whole (omega arith)
      (inr (omega arith)) (omega arith) seven_above
