-- ===== src/Random.antt =====
-- `ikrt_fxrandom` of src/ikarus-numerics.c. The calls of random() are a parameter, a sequence of
-- numbers.
pub mod Laws
use ikarus.Base.{ℕ, zero, suc, ◌+◌, ◌*◌, Bool, false, ltb, if◌then◌else◌, Option, none, some}
use ikarus.Base.Int.{ℤ, pos, negsuc}
use ikarus.Word.{fix, unfix}
use Prim.Native.Nat.{bit_and}

-- m < n on a long, for an m that is not negative.
abbrev pub is_below : ℕ → ℤ → Bool
is_below m (pos n) = ltb m n
is_below m (negsuc n) = false

-- The loop that sets as many low bits as n has, on fuel. Below a fixnum, the shift loses no bit.
pub mask_loop : ℕ → ℕ → ℤ → Option ℕ
mask_loop zero mask n = none
mask_loop (suc fuel) mask n =
    let rest = mask_loop fuel (mask * 2 + 1) n in if is_below mask n then rest else some mask

-- The loop over the calls of random() from the i-th on, on fuel.
pub draw_loop : ℕ → (ℕ → ℕ) → ℕ → ℕ → ℤ → Option ℕ
draw_loop zero random i mask n = none
draw_loop (suc fuel) random i mask n =
    let rest = draw_loop fuel random (suc i) mask n in
    let r = bit_and (random i) mask in if is_below r n then some (fix (pos r)) else rest

-- Both loops for the number of x, with as many calls of random() as the fuel says; 64 steps are
-- enough for the mask.
pub random_below : ℕ → (ℕ → ℕ) → ℤ → Option ℕ
random_below fuel random n = elim (mask_loop 64 1 n) [
  | some mask ↦ draw_loop fuel random 0 mask n
  | none ↦ none
]

pub ikrt_fxrandom : ℕ → (ℕ → ℕ) → ℕ → Option ℕ
ikrt_fxrandom fuel random x = random_below fuel random (unfix x)
