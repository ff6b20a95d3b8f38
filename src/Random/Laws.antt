-- ===== src/Random/Laws.antt =====
-- What `ikrt_fxrandom` returns for a sequence of numbers from random().
use ikarus.Base.{
  ℕ, zero, suc, ◌+◌, ◌-◌, ◌*◌, ◌%◌, ◌^◌, ◌≤◌, ◌<◌, ◌≡◌, refl, sym, subst, ap, ◌∙◌, arith, true,
  false, Bool-cases, ltb, some, none, ◌⊎◌, inl, inr,
}
use ikarus.Base.Int.{pos}
use ikarus.Bits.Words.{bit_and-ones}
use ikarus.Random.{mask_loop, draw_loop, random_below, ikrt_fxrandom}
use ikarus.Shift.Bits.{pow_pos}
use ikarus.Word.{IsFixnum, fix, unfix, unfix-FitsFixnum}
use native.Mathlib.Nat.{pow-suc, pow-le-pow_right}

grows : (a p : ℕ) → 0 < p → a ≤ a * p
grows a zero h = absurd (omega arith)
grows a (suc p) h = omega arith

-- After k rounds the mask covers n, and not before.
mask_loop_lem :
    (k fuel mask n : ℕ)
    → k < fuel
    → n < (mask + 1) * 2 ^ k
    → (k ≡ 0) ⊎ ((mask + 1) * 2 ^ k ≤ 2 * n)
    → mask_loop fuel mask (pos n) ≡ some ((mask + 1) * 2 ^ k - 1)
unfolding mask_loop
mask_loop_lem k zero mask n small lt least = absurd (omega arith)
mask_loop_lem zero (suc fuel) mask n small lt least =
    let stop : ltb mask n ≡ false = ground arith in
    let same : (mask + 1) * 2 ^ 0 - 1 ≡ mask = omega arith in rw (stop, same) refl
mask_loop_lem (suc k) (suc fuel) mask n small lt least =
    let twice : (mask + 1) * 2 ^ suc k ≡ (mask * 2 + 1 + 1) * 2 ^ k =
      rw (pow-suc 2 k) (omega arith) in
    let most : (mask + 1) * 2 ^ suc k ≤ 2 * n = elim least [
      | inl e ↦ absurd (omega (arith, e))
      | inr h ↦ h
    ] in
    let at_least = grows (mask + 1) (2 ^ k) (pow_pos k) in
    let next : ltb mask n ≡ true =
      (let lower : mask < n = omega (arith, most, twice, at_least) in ground arith) in
    rw (next, twice)
      (mask_loop_lem k fuel (mask * 2 + 1) n (omega arith) (omega (arith, lt, twice))
        (inr (omega (arith, most, twice))))

-- The loop returns the first masked number that is below n.
draw_loop_lem :
    (j : ℕ) (random : ℕ → ℕ) (i bits n : ℕ)
    → random (i + j) % 2 ^ bits < n
    → ((k : ℕ) → k < j → n ≤ random (i + k) % 2 ^ bits)
    → draw_loop (suc j) random i (2 ^ bits - 1) (pos n)
      ≡ some (fix (pos (random (i + j) % 2 ^ bits)))
unfolding draw_loop
draw_loop_lem zero random i bits n lt above =
    let at : i + 0 ≡ i = omega arith in
    let lt' = rw at at lt in
    let small : ltb (random i % 2 ^ bits) n ≡ true = ground (arith, lt') in
    rw (bit_and-ones bits (random i), small, at) refl
draw_loop_lem (suc j) random i bits n lt above =
    let at : i + suc j ≡ suc i + j = omega arith in
    let first : i + 0 ≡ i = omega arith in
    let high = rw first at (above 0 (omega arith)) in
    let large : ltb (random i % 2 ^ bits) n ≡ false = ground (arith, high) in
    rw (bit_and-ones bits (random i), large, at)
      (draw_loop_lem j random (suc i) bits n (rw at at lt) λ k less.
        let step : i + suc k ≡ suc i + k = omega arith in rw step at (above (suc k) (omega arith)))

bits_fit : (bits n : ℕ) → n < 2 ^ 60 → 2 ^ bits ≤ 2 * n → bits < 65
bits_fit bits n fits least = elim (Bool-cases (ltb bits 65)) [
  | inl e ↦ ground arith
  | inr e ↦
      let long : 65 ≤ bits = ground arith in
      absurd (omega (arith, fits, least, pow-le-pow_right {n = 2} (omega arith) long))
]

zero_add : (j : ℕ) → 0 + j ≡ j
zero_add j = omega arith

random_below_lem :
    (random : ℕ → ℕ) (n bits j : ℕ)
    → n < 2 ^ 60
    → n < 2 ^ bits
    → (bits ≡ 1) ⊎ (2 ^ bits ≤ 2 * n)
    → random j % 2 ^ bits < n
    → ((i : ℕ) → i < j → n ≤ random i % 2 ^ bits)
    → random_below (suc j) random (pos n) ≡ some (fix (pos (random j % 2 ^ bits)))
unfolding random_below
random_below_lem random n zero j fits covers least lt above = absurd (omega (arith, covers, lt))
random_below_lem random n (suc k) j fits covers least lt above =
    let twice : (1 + 1) * 2 ^ k ≡ 2 ^ suc k = omega (arith, pow-suc 2 k) in
    let stops =
      mask_loop_lem k 64 1 n
        (elim least [ inl e ↦ omega (arith, e) | inr h ↦ omega (arith, bits_fit (suc k) n fits h) ])
        (omega (arith, covers, twice))
        (elim least [ inl e ↦ inl (omega (arith, e)) | inr h ↦ inr (omega (arith, h, twice)) ]) in
    let mask_lem : mask_loop 64 1 (pos n) ≡ some (2 ^ suc k - 1) =
      stops ∙ ap (λ p. some (p - 1)) twice in
    subst
      (λ r.
        elim r [ some mask ↦ draw_loop (suc j) random 0 mask (pos n) | none ↦ none ]
        ≡ some (fix (pos (random j % 2 ^ suc k))))
      (sym mask_lem)
      (rw (zero_add j) at (
        draw_loop_lem j random 0 (suc k) n (rw (zero_add j) lt)
          λ i less. rw (zero_add i) (above i less)))

-- Let the fixnum x of n be below 2 ^ bits, for the least number of bits, 1 at the least. If the low
-- bits of call j of random(), from 0 on, are the first that are below n, then `ikrt_fxrandom` stops
-- after j + 1 calls and returns the fixnum of those bits.
pub ikrt_fxrandom_lem :
    (random : ℕ → ℕ) (x n bits j : ℕ)
    → IsFixnum x
    → unfix x ≡ pos n
    → n < 2 ^ bits
    → (bits ≡ 1) ⊎ (2 ^ bits ≤ 2 * n)
    → random j % 2 ^ bits < n
    → ((i : ℕ) → i < j → n ≤ random i % 2 ^ bits)
    → ikrt_fxrandom (suc j) random x ≡ some (fix (pos (random j % 2 ^ bits)))
unfolding ikrt_fxrandom
ikrt_fxrandom_lem random x n bits j h whole covers least lt above =
    let fits : n ≤ 2 ^ 60 - 1 = rw whole at (unfix-FitsFixnum x h) in
    rw whole (random_below_lem random n bits j (omega (arith, fits)) covers least lt above)
