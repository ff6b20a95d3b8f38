-- ===== src/Lognot/Laws.antt =====
-- The complement of a bignum is its negation less one.
use ikarus.Base.{
  ℕ, zero, suc, ◌+◌, ◌-◌, ◌*◌, ◌/◌, ◌%◌, ◌<◌, ◌≡◌, ◌≢◌, refl, ap, arith, List, [], ◌∷◌, ◌++◌,
  length, get_or, replicate, take_all, length-append, length-replicate, get_or-append_last, inl,
  inr, ◌==◌, Bool-cases, false, if◌then◌else◌, sym,
}
use ikarus.Base.Int.{ℤ, pos, negsuc}
use ikarus.Bignum.Valid.{IsBignum, Returns}
use ikarus.Bignum.{Bignum, bignum, ok, header, to_int, most_fixnum}
use ikarus.BnBn.Order.{sign_bits-IsSign}
use ikarus.Limbs.{
  value, weight, IsLimbs, value-append_last, value-replicate, IsLimbs-append, IsLimbs-replicate,
  get_or_in, top_pos, weight-le-value_top,
}
use ikarus.Lognot.{decremented, low_ones, incremented, ikrt_bnlognot}
use ikarus.Shift.Rounding.{limbs-Returns}
use ikarus.Word.{word_mod}

-- ~n
abbrev pub lognot : ℤ → ℤ
lognot (pos n) = negsuc n
lognot (negsuc n) = pos n

-- Limbs of two successive numbers, as many in both.
record IsNext (a b : List ℕ) : Type 0 where
  next : value b ≡ value a + 1
  size : length b ≡ length a
  lower : IsLimbs a
  limbs : IsLimbs b

decremented-IsNext : (ds : List ℕ) → IsLimbs ds → 0 < value ds → IsNext (decremented ds) ds
unfolding decremented
decremented-IsNext [] h some = absurd (omega arith)
decremented-IsNext (zero ∷ ds) h some =
    let rest = decremented-IsNext ds h.1 (omega (arith, some)) in
    record {
      next = omega (arith, rest.next);
      size = ap suc rest.size;
      lower = (omega arith, rest.lower);
      limbs = h;
    }
decremented-IsNext (suc d ∷ ds) h some =
    let e : (suc d == 0) ≡ false = ground arith in
    rw e (record { next = omega arith; size = refl; lower = (omega (arith, h.0), h.1); limbs = h })

incremented-IsNext :
    (ds : List ℕ) → IsLimbs ds → low_ones ds ≢ length ds → IsNext ds (incremented ds)
unfolding incremented low_ones
incremented-IsNext [] h some = absurd (some refl)
incremented-IsNext (d ∷ ds) h some = elim (Bool-cases (d == word_mod - 1)) [
  | inl e ↦
      let rest = incremented-IsNext ds h.1 (λ f. some (rw e (ap suc f))) in
      let full : d ≡ word_mod - 1 = ground arith in
      rw e (record {
        next = omega (arith, rest.next, full);
        size = ap suc rest.size;
        lower = h;
        limbs = (omega arith, rest.limbs);
      })
  | inr e ↦
      let room : d ≢ word_mod - 1 = ground arith in
      rw e (record {
        next = omega arith;
        size = refl;
        lower = h;
        limbs = (omega (arith, room, h.0), h.1);
      })
]

low_ones-value : (ds : List ℕ) → low_ones ds ≡ length ds → value ds + 1 ≡ weight (length ds)
unfolding low_ones
low_ones-value [] e = refl
low_ones-value (d ∷ ds) e = elim (Bool-cases (d == word_mod - 1)) [
  | inl f ↦
      let full : d ≡ word_mod - 1 = ground arith in
      let rest = rw f at e in omega (arith, full, low_ones-value ds (omega (arith, rest)))
  | inr f ↦ let none = rw f at e in absurd (omega (arith, none))
]

-- A negative number in normal form.
bignum-Returns :
    (n a : ℕ) (d : List ℕ)
    → n ≡ length d
    → IsLimbs d
    → 0 < get_or d (length d - 1) 0
    → value d ≡ suc a
    → most_fixnum 8 < suc a
    → Returns (ok (bignum (record { fst = header 8 n; limbs = d }))) (negsuc a)
bignum-Returns n a d count limbs top v big =
    let bits : header 8 n / 8 % 2 * 8 ≡ 8 = omega arith in
    record {
      out = bignum (record { fst = header 8 n; limbs = d });
      returns = refl;
      normal = record {
        tagged = omega arith;
        counted = omega (arith, count);
        in_words = limbs;
        trimmed = top;
        big = rw (bits, v) big;
      };
      equals = rw (bits, v) refl;
    }

positive-Returns :
    (xs : List ℕ)
    → IsLimbs xs
    → 0 < get_or xs (length xs - 1) 0
    → most_fixnum 0 < value xs
    → Returns
        (if low_ones xs == length xs
          then ok (
              bignum (record {
                fst = header 8 (length xs + 1);
                limbs = replicate (length xs) 0 ++ 1 ∷ [];
              }))
          else ok (bignum (record { fst = header 8 (length xs); limbs = incremented xs })))
        (negsuc (value xs))
positive-Returns xs limbs top big = elim (Bool-cases (low_ones xs == length xs)) [
  | inl e ↦
      let full = low_ones-value xs (ground arith) in
      let zeros = length-replicate {A = ℕ} (length xs) 0 in
      let d : List ℕ = replicate (length xs) 0 ++ 1 ∷ [] in
      let len : length d ≡ length xs + 1 =
        omega (arith, length-append {A = ℕ} (replicate (length xs) 0) (1 ∷ []), zeros) in
      let last : length d - 1 ≡ length (replicate {A = ℕ} (length xs) 0) =
        omega (arith, len, zeros) in
      let v : value d ≡ suc (value xs) = omega (
        arith,
        full,
        value-append_last (replicate (length xs) 0) 1,
        value-replicate (length xs),
        ap weight zeros,
      ) in
      rw e (
        bignum-Returns (length xs + 1) (value xs) d (sym len)
          (IsLimbs-append (replicate (length xs) 0) (1 ∷ []) (IsLimbs-replicate (length xs))
            (omega arith, tt))
          (rw last (omega (arith, get_or-append_last {A = ℕ} (replicate (length xs) 0) 1 0))) v
          (omega (arith, big)))
  | inr e ↦
      let i = incremented-IsNext xs limbs (ground arith) in
      let low = weight-le-value_top xs top in
      let some : 0 < length xs = omega (arith, get_or_in xs _ top) in
      rw e (
        bignum-Returns (length xs) (value xs) (incremented xs) (sym i.size) i.limbs
          (top_pos (incremented xs) i.limbs (omega (arith, some, i.size))
            (rw i.size (omega (arith, low, i.next))))
          (omega (arith, i.next)) (omega (arith, big)))
]

-- The complement of a bignum is returned, in normal form.
pub ikrt_bnlognot-Returns :
    (x : Bignum) → IsBignum x → Returns (ikrt_bnlognot x) (lognot (to_int (bignum x)))
unfolding ikrt_bnlognot
ikrt_bnlognot-Returns x hx =
    rw (hx.counted, take_all x.limbs)
      (elim (sign_bits-IsSign x) [
        | inl e ↦ rw e (positive-Returns x.limbs hx.in_words hx.trimmed (rw e at hx.big))
        | inr e ↦
            let some : 0 < value x.limbs = ground (arith, hx.big) in
            let a = value x.limbs - 1 in
            let v : value x.limbs ≡ suc a = omega arith in
            let next = decremented-IsNext x.limbs hx.in_words some in
            rw (e, v)
              (limbs-Returns (length x.limbs) 0 a _ (inl refl) next.lower (sym next.size)
                (omega (arith, next.next)))
      ])
