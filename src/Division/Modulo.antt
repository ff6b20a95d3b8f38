-- ===== src/Division/Modulo.antt =====
-- `ikrt_bnfx_modulo`: where it is the modulo of the Scheme report, and where it is not.
use ikarus.Base.{
  ℕ, zero, suc, ◌+◌, ◌-◌, ◌*◌, ◌/◌, ◌%◌, ◌^◌, ◌≤◌, ◌<◌, ◌≡◌, refl, sym, ap, ◌∙◌, arith, ◌==◌, true,
  false, not, Bool, Bool-cases, if◌then◌else◌, ◌⊎◌, inl, inr, take_all,
}
use ikarus.Base.Int.{ℤ, pos, negsuc, neg_ℕ, is_neg, magnitude, ◌+ℤ◌, ◌-ℤ◌, ◌*ℤ◌, ◌≤ℤ◌, ◌<ℤ◌}
use ikarus.Base.Magnitude.{pos_grow, neg_grow, pos_shrink, neg_shrink, +ℤ_comm}
use ikarus.Bignum.Valid.{IsBignum}
use ikarus.Bignum.{Bignum, bignum, to_int, nonnegative, sign_bits, with_sign}
use ikarus.Division.Laws.{magnitude-le}
use ikarus.Division.{ikrt_bnfx_modulo}
use ikarus.Limbs.{value}
use ikarus.Mpn.{Mpn, IsMpn}
use ikarus.Product.Laws.{times_sign}
use ikarus.Word.{fix, unfix, IsFixnum, FitsFixnum, unfix-fix, unfix-FitsFixnum}
use native.Mathlib.Nat.{mod-lt, add_comm}

-- r lies between 0 and y, on the side of y.
abbrev pub Between : ℤ → ℤ → Type 0
Between (pos b) r = (pos 0 ≤ℤ r) × (r <ℤ pos b)
Between (negsuc b) r = (negsuc b <ℤ r) × (r ≤ℤ pos 0)

-- The floored remainder r of x by y: the sign of y, and less than y in magnitude.
pub record IsModulo (x y r : ℤ) : Type 0 where
  pub quotient : ℤ
  pub divides : x ≡ quotient *ℤ y +ℤ r
  pub between : Between y r

-- The integer that the branches compute, from the magnitudes a and b and their signs.
abbrev modulo_of : Bool → ℕ → ℤ → ℤ
modulo_of plus r (pos b) = if plus then pos r else pos b -ℤ pos r
modulo_of plus r (negsuc b) = if plus then negsuc b +ℤ pos r else neg_ℕ r

times_pos_pos : (k b : ℕ) → pos k *ℤ pos b ≡ pos (k * b)
times_pos_pos k b = sym (times_sign 0 0 k b (inl refl) (inl refl))

times_neg_pos : (k b : ℕ) → neg_ℕ k *ℤ pos b ≡ neg_ℕ (k * b)
times_neg_pos k b = sym (times_sign 8 0 k b (inr refl) (inl refl))

times_pos_neg : (k b : ℕ) → pos k *ℤ neg_ℕ b ≡ neg_ℕ (k * b)
times_pos_neg k b = sym (times_sign 0 8 k b (inl refl) (inr refl))

times_neg_neg : (k b : ℕ) → neg_ℕ k *ℤ neg_ℕ b ≡ pos (k * b)
times_neg_neg k b = sym (times_sign 8 8 k b (inr refl) (inr refl))

minus_pos : (b r : ℕ) → r ≤ b → pos b -ℤ pos r ≡ pos (b - r)
unfolding ◌-ℤ◌
minus_pos b r h = ground arith

neg_back : (a v : ℕ) → neg_ℕ a ≡ pos v +ℤ neg_ℕ (a + v)
neg_back a v =
    let left : a + v - v ≡ a = omega arith in rw left at (neg_shrink v (a + v) (omega arith))

pos_back : (a v : ℕ) → pos a ≡ neg_ℕ v +ℤ pos (a + v)
pos_back a v =
    let left : a + v - v ≡ a = omega arith in rw left at (pos_shrink v (a + v) (omega arith))

neg_ℕ-Between : (b r : ℕ) → r < b → Between (neg_ℕ b) (neg_ℕ r)
neg_ℕ-Between zero r h = absurd (omega arith)
neg_ℕ-Between (suc b) zero h = omega arith
neg_ℕ-Between (suc b) (suc r) h = omega arith

module _ (a b : ℕ) (some : 0 < b) where
  split : a ≡ a / b * b + a % b
  split = grind arith

  rest_lt : a % b < b
  rest_lt = mod-lt a {m = b} some

  next : a + (b - a % b) ≡ suc (a / b) * b
  next = omega (arith, split, rest_lt)

  pos_pos : IsModulo (pos a) (pos b) (pos (a % b))
  pos_pos = record {
    quotient = pos (a / b);
    divides = rw (times_pos_pos, +ℤ_comm, ← pos_grow) (ap pos split);
    between = (omega arith, omega (arith, rest_lt));
  }

  neg_neg : IsModulo (neg_ℕ a) (neg_ℕ b) (neg_ℕ (a % b))
  neg_neg = record {
    quotient = pos (a / b);
    divides = rw (times_pos_neg, ← neg_grow) (ap neg_ℕ (split ∙ add_comm (a / b * b) (a % b)));
    between = neg_ℕ-Between b (a % b) rest_lt;
  }

  neg_pos : 0 < a % b → IsModulo (neg_ℕ a) (pos b) (pos (b - a % b))
  neg_pos rest = record {
    quotient = neg_ℕ (suc (a / b));
    divides = rw (times_neg_pos, ← next, +ℤ_comm) (neg_back a (b - a % b));
    between = (omega arith, omega (arith, rest_lt));
  }

  pos_neg : 0 < a % b → IsModulo (pos a) (neg_ℕ b) (neg_ℕ (b - a % b))
  pos_neg rest = record {
    quotient = neg_ℕ (suc (a / b));
    divides = rw (times_neg_neg, ← next, +ℤ_comm) (pos_back a (b - a % b));
    between = neg_ℕ-Between b (b - a % b) (omega (arith, rest_lt));
  }

neg_plus : (b r : ℕ) → r ≤ suc b → negsuc b +ℤ pos r ≡ neg_ℕ (suc b - r)
neg_plus b r h = +ℤ_comm (negsuc b) (pos r) ∙ sym (neg_shrink r (suc b) h)

-- The integer of the branch is the modulo, unless the signs differ and nothing is left over.
branch-IsModulo :
    (s a : ℕ) (y : ℤ)
    → 0 < magnitude y
    → ((s == 0) ≡ not (is_neg y)) ⊎ (0 < a % magnitude y)
    → IsModulo (with_sign s a) y (modulo_of (s == 0) (a % magnitude y) y)
branch-IsModulo s a (pos b) some ok = elim (Bool-cases (s == 0)) [
  | inl e ↦ rw e (pos_pos a b some)
  | inr e ↦
      let more : 0 < a % b = ground arith in
      rw (e, minus_pos b (a % b) (omega (arith, rest_lt a b some))) (neg_pos a b some more)
]
branch-IsModulo s a (negsuc b) some ok = elim (Bool-cases (s == 0)) [
  | inl e ↦
      let more : 0 < a % suc b = ground arith in
      rw (e, neg_plus b (a % suc b) (omega (arith, rest_lt a (suc b) some)))
        (pos_neg a (suc b) some more)
  | inr e ↦ rw e (neg_neg a (suc b) some)
]

modulo_of-Fits :
    (plus : Bool) (r : ℕ) (y : ℤ) → FitsFixnum y → r < magnitude y → FitsFixnum (modulo_of plus r y)
modulo_of-Fits true r (pos b) fits lt = omega arith
modulo_of-Fits false r (pos b) fits lt = rw (minus_pos b r (omega arith)) (omega arith)
modulo_of-Fits true r (negsuc b) fits lt =
    rw (neg_plus b r (omega arith)) (neg_fits (suc b - r) (omega arith))
  where
    neg_fits : (n : ℕ) → n ≤ 2 ^ 60 → FitsFixnum (neg_ℕ n)
    neg_fits zero h = omega arith
    neg_fits (suc n) h = omega arith
modulo_of-Fits false zero (negsuc b) fits lt = omega arith
modulo_of-Fits false (suc r) (negsuc b) fits lt = omega arith

modulo_branches :
    (x : Bignum) (r : ℕ) (y : ℤ)
    → (if is_neg y
        then if nonnegative x then fix (y +ℤ pos r) else fix (neg_ℕ r)
        else if nonnegative x
        then fix (pos r)
        else fix (y -ℤ pos r))
      ≡ fix (modulo_of (nonnegative x) r y)
modulo_branches x r (pos b) = ground arith
modulo_branches x r (negsuc b) = ground arith

divisor_itself : (plus : Bool) (y : ℤ) → plus ≡ is_neg y → modulo_of plus 0 y ≡ y
unfolding ◌+ℤ◌ ◌-ℤ◌
divisor_itself true (pos b) e = cc
divisor_itself false (pos b) e = ground arith
divisor_itself true (negsuc b) e = ground arith
divisor_itself false (negsuc b) e = cc

not-IsModulo : (x y : ℤ) → ¬ IsModulo x y y
not-IsModulo x (pos b) h = omega (arith, h.between)
not-IsModulo x (negsuc b) h = omega (arith, h.between)

module _ (m : Mpn) (laws : IsMpn m) (x : Bignum) (hx : IsBignum x) (y : ℕ) (hy : IsFixnum y)
    (some : 0 < magnitude (unfix y)) where
  modulo_value :
      unfix (ikrt_bnfx_modulo m x y)
      ≡ modulo_of (nonnegative x) (value x.limbs % magnitude (unfix y)) (unfix y)
  unfolding ikrt_bnfx_modulo
  modulo_value =
      let b = magnitude (unfix y) in
      let fits = unfix-FitsFixnum y hy in
      let r =
        laws.mod_1_lem x.limbs b hx.in_words some (omega (arith, magnitude-le (unfix y) fits)) in
      rw (hx.counted, take_all x.limbs, r, modulo_branches x (value x.limbs % b) (unfix y))
        (unfix-fix _ (
          modulo_of-Fits (nonnegative x) (value x.limbs % b) (unfix y) fits
            (mod-lt (value x.limbs) {m = b} some)))

  -- `ikrt_bnfx_modulo` is the modulo if the signs agree or the division leaves a rest.
  pub ikrt_bnfx_modulo-IsModulo :
      (nonnegative x ≡ not (is_neg (unfix y))) ⊎ (0 < value x.limbs % magnitude (unfix y))
      → IsModulo (to_int (bignum x)) (unfix y) (unfix (ikrt_bnfx_modulo m x y))
  ikrt_bnfx_modulo-IsModulo ok =
      rw modulo_value (branch-IsModulo (sign_bits x) (value x.limbs) (unfix y) some ok)

  -- If the signs differ and the fixnum divides the bignum, the call returns the divisor itself where
  -- the modulo is zero.
  pub ikrt_bnfx_modulo_divides :
      nonnegative x ≡ is_neg (unfix y)
      → value x.limbs % magnitude (unfix y) ≡ 0
      → (unfix (ikrt_bnfx_modulo m x y) ≡ unfix y)
        × (¬ IsModulo (to_int (bignum x)) (unfix y) (unfix (ikrt_bnfx_modulo m x y)))
  ikrt_bnfx_modulo_divides differ none =
      let same : unfix (ikrt_bnfx_modulo m x y) ≡ unfix y =
        modulo_value ∙ rw none (divisor_itself (nonnegative x) (unfix y) differ) in
      (same, rw same (not-IsModulo (to_int (bignum x)) (unfix y)))
