-- ===== src/Printing/Laws.antt =====
-- `ikrt_bignum_to_bytevector` writes the number in decimal digits.
use ikarus.Base.{
  ℕ, suc, ◌+◌, ◌-◌, ◌%◌, ◌≤◌, ◌<◌, ◌≡◌, ◌↔◌, refl, sym, ap, ap₂, ◌∙◌, arith, List, [], ◌∷◌, ◌++◌,
  map, length, true, false, not, ◌==◌, if◌then◌else◌, Bool-cases, inl, inr, take_all, leb,
}
use ikarus.Base.Int.{ℤ, pos, neg_ℕ}
use ikarus.Bignum.Valid.{IsBignum, IsBignum-length_pos}
use ikarus.Bignum.{Bignum, bignum, to_int, with_sign, sign_bits, limb_count}
use ikarus.Limbs.{value}
use ikarus.Printing.Digits.{decimal_from, IsGetStr, IsNumeral, Starts, string_start-Starts}
use ikarus.Printing.{Bytevector, Printed, printed, string_start, text, ikrt_bignum_to_bytevector}
use ikarus.Word.{fix, align}

-- The number that characters are read as: a minus sign, and decimal digits.
pub read_text : List ℕ → ℤ
read_text [] = pos 0
read_text (c ∷ cs) =
    if c == 45
    then neg_ℕ (decimal_from 0 (map (λ b. b - 48) cs))
    else pos (decimal_from 0 (map (λ b. b - 48) (c ∷ cs)))

-- The text that was stored reads back as v, without zeros in front, and the length word counts
-- its characters.
pub record Prints (r : Printed) (v : ℤ) : Type 0 where
  pub out : Bytevector
  pub digits : List ℕ
  pub magnitude : ℕ
  pub sign : ℕ
  pub returns : r ≡ printed out
  pub numeral : IsNumeral magnitude digits
  pub number : with_sign sign magnitude ≡ v
  pub size : out.size ≡ fix (pos (length (text sign digits)))
  pub stored : out.stored ≡ text sign digits ++ 0 ∷ []
  pub reads : read_text (text sign digits) ≡ v
  pub characters_fit : length (text sign digits) ≤ out.room
  pub zero_past_end :
      (out.room < length (text sign digits) + 1) ↔ ((length (text sign digits) + 8) % 16 ≡ 0)

chars-digits : (ds : List ℕ) → map (λ b. b - 48) (map (λ d. d + 48) ds) ≡ ds
chars-digits [] = refl
chars-digits (d ∷ ds) = ap₂ (λ n ns. n ∷ ns) (omega arith) (chars-digits ds)

length-chars : (ds : List ℕ) → length (map (λ d. d + 48) ds) ≡ length ds
length-chars [] = refl
length-chars (d ∷ ds) = ap suc (length-chars ds)

abbrev extra_of : ℕ → ℕ
extra_of sign = if not (sign == 0) then 1 else 0

length-text : (sign : ℕ) (ds : List ℕ) → length (text sign ds) ≡ length ds + extra_of sign
unfolding text
length-text sign ds = elim (Bool-cases (sign == 0)) [
  | inl e ↦ rw e (omega (arith, length-chars ds))
  | inr e ↦ rw e (omega (arith, length-chars ds))
]

read_text-text :
    (sign n : ℕ) (ds : List ℕ) → IsNumeral n ds → read_text (text sign ds) ≡ with_sign sign n
unfolding text read_text
read_text-text sign n [] h = absurd (omega (arith, h.first))
read_text-text sign n (d ∷ ds) h = elim (Bool-cases (sign == 0)) [
  | inl e ↦
      let apart : (d + 48 == 45) ≡ false = ground arith in
      rw (e, apart) (ap pos (ap (decimal_from 0) (chars-digits (d ∷ ds)) ∙ h.number))
  | inr e ↦ rw e (ap neg_ℕ (ap (decimal_from 0) (chars-digits (d ∷ ds)) ∙ h.number))
]

module _ (get_str : List ℕ → List ℕ) (laws : IsGetStr get_str) (x : Bignum) (hx : IsBignum x) where
  -- The digits behind the zeros.
  starts : Starts (string_start (get_str x.limbs)) (value x.limbs)
  starts =
      let number = laws.number x.limbs hx.in_words hx.trimmed in
      rw (← number) (
        string_start-Starts (get_str x.limbs) (laws.digits x.limbs hx.in_words hx.trimmed)
          (omega (arith, number, hx.big)))

  abbrev object : List ℕ → Bytevector
  object digits = record {
    size = fix (pos (length digits + extra_of (sign_bits x)));
    room = align (length digits + 8 + extra_of (sign_bits x)) - 8;
    stored = text (sign_bits x) digits ++ 0 ∷ [];
  }

  printed_object : ikrt_bignum_to_bytevector get_str true x ≡ printed (object starts.digits)
  unfolding ikrt_bignum_to_bytevector
  printed_object =
      let counted : leb (limb_count x) 0 ≡ false =
        ground (arith, hx.counted, IsBignum-length_pos x hx) in
      rw (counted, hx.counted, take_all x.limbs, starts.returns) refl

  room_for :
      (digits : List ℕ)
      → let room = align (length digits + 8 + extra_of (sign_bits x)) - 8 in
        let n = length (text (sign_bits x) digits) in
        (n ≤ room) × ((room < n + 1) ↔ ((n + 8) % 16 ≡ 0))
  room_for digits =
      let size = length-text (sign_bits x) digits in
      (omega (arith, size), (λ h. omega (arith, size, h), λ h. omega (arith, size, h)))

-- The text of a bignum in normal form is stored: its sign and its decimal digits without zeros in
-- front, which read back as the number. The length word counts it, and it fits the object. The
-- zero byte behind it is within the object unless the text ends where the object does.
pub ikrt_bignum_to_bytevector-Prints :
    (get_str : List ℕ → List ℕ)
    → IsGetStr get_str
    → (x : Bignum) → IsBignum x
    → Prints (ikrt_bignum_to_bytevector get_str true x) (to_int (bignum x))
ikrt_bignum_to_bytevector-Prints get_str laws x hx =
    let s = starts get_str laws x hx in
    let size = length-text (sign_bits x) s.digits in
    let (fits, past) = room_for get_str laws x hx s.digits in
    record {
      out = object get_str laws x hx s.digits;
      digits = s.digits;
      magnitude = value x.limbs;
      sign = sign_bits x;
      returns = printed_object get_str laws x hx;
      numeral = s.numeral;
      number = refl;
      size = ap (λ n. fix (pos n)) (sym size);
      stored = refl;
      reads = read_text-text (sign_bits x) (value x.limbs) s.digits s.numeral;
      characters_fit = fits;
      zero_past_end = past;
    }
