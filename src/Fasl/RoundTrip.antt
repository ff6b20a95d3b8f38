-- ===== src/Fasl/RoundTrip.antt =====
-- `do_read` reads back what is written for a datum.
use ikarus.Base.{
  ℕ, zero, suc, ◌+◌, ◌*◌, ◌^◌, ◌<◌, ◌≡◌, refl, arith, List, [], ◌++◌, length, length-append, leb,
  true, false, Bool-cases, inl, inr,
}
use ikarus.Base.Int.{pos}
use ikarus.Fasl.Input.{fasl_read_buf_lem, read_word_lem, read_long_lem, read_int_lem, size_of_lem}
use ikarus.Fasl.Leaves.{immediate_read, marked_read, bytes_read, ascii_read, string_read}
use ikarus.Fasl.Objects.{int_to_scheme_char}
use ikarus.Fasl.Pairs.{ReadsAll, read_list_lem, read_pair_lem}
use ikarus.Fasl.Port.{next_byte, fasl_read_byte, fasl_read_buf}
use ikarus.Fasl.Read.{do_read, read_prefix, tag_of, read_tagged, list_length}
use ikarus.Fasl.Relocate.{bytes_of}
use ikarus.Fasl.Stored.{Reading, ReadsDatum, after, At-append}
use ikarus.Fasl.Write.{
  Datum, Data, count, list_prefix, write, write_all, IsDatum, AreData, Represents,
}
use ikarus.Fasl.{Value, Object, FaslPort, Env, ok}
use ikarus.Word.{to_word}
use mathlib.Core.List.{append_assoc}

char_word : (c : ℕ) → c < 2 ^ 31 → to_word (pos c) ≡ c
char_word c lt = omega arith

real_read :
    (rest : List ℕ) (h : List Object) (p : FaslPort) (bs : List ℕ)
    → length bs ≡ 8
    → fasl_read_buf 8 (after (bs ++ rest) h p) ≡ ok (bs, after rest h p)
real_read rest h p bs e = rw e at (fasl_read_buf_lem (after [] h p) rest bs)

-- The two types of list, by their lengths.
list_read :
    (env : Env) (n : ℕ) (xs : Data) (rest : List ℕ) (h : List Object) (p : FaslPort)
    → count xs * 16 + 64 < 2 ^ 31
    → ReadsAll (do_read env n) xs
    → Reading
        (do_read env (suc n) (after ((list_prefix (count xs) ++ write_all xs) ++ rest) h p))
        rest
        h
        p
        (Datum.list xs)
unfolding do_read fasl_read_byte next_byte read_prefix tag_of read_tagged list_prefix list_length
list_read env n xs rest h p small parts = elim (Bool-cases (leb (count xs) 255)) [
  | inl e ↦ rw e (read_list_lem env (do_read env n) rest h p xs parts)
  | inr e ↦
      rw
        (
          e,
          append_assoc (bytes_of 8 (count xs)) (write_all xs) rest,
          read_long_lem (after [] h p) (write_all xs ++ rest) (count xs) (omega (arith, small)),
          size_of_lem 16 (count xs) (after (write_all xs ++ rest) h p) small,
        )
        (read_list_lem env (do_read env n) rest h p xs parts)
]

prefix-length : (n : ℕ) → 0 < length (list_prefix n)
unfolding list_prefix
prefix-length n = elim (Bool-cases (leb n 255)) [
  | inl e ↦ rw e (omega arith)
  | inr e ↦ rw e (omega arith)
]

mutual
  unfolding do_read fasl_read_byte next_byte read_prefix tag_of read_tagged write Represents IsDatum

  read_datum :
      (env : Env) (d : Datum)
      → IsDatum d
      → (fuel : ℕ) → length (write d) < fuel
      → ReadsDatum (do_read env fuel) d
  read_datum env d valid zero lt rest h p = absurd (omega arith)
  read_datum env (Datum.fixnum w) valid (suc n) lt rest h p =
      immediate_read rest h p _ (Value.immediate w)
        (rw (read_word_lem (after [] h p) rest w valid) refl) refl
  read_datum env (Datum.boolean true) valid (suc n) lt rest h p =
      immediate_read rest h p _ (Value.immediate 63) refl refl
  read_datum env (Datum.boolean false) valid (suc n) lt rest h p =
      immediate_read rest h p _ (Value.immediate 47) refl refl
  read_datum env Datum.null valid (suc n) lt rest h p =
      immediate_read rest h p _ (Value.immediate 79) refl refl
  read_datum env (Datum.byte_char c) valid (suc n) lt rest h p =
      immediate_read rest h p _ (Value.immediate (int_to_scheme_char c)) refl refl
  read_datum env (Datum.char c) valid (suc n) lt rest h p =
      immediate_read rest h p _ (Value.immediate (int_to_scheme_char c))
        (rw (read_int_lem (after [] h p) rest c valid, char_word c valid) refl) refl
  read_datum env (Datum.ascii s) valid (suc n) lt rest h p =
      marked_read rest h p _ _ (ascii_read env (do_read env n) rest h p s valid) (At-append h _)
  read_datum env (Datum.string s) valid (suc n) lt rest h p =
      marked_read rest h p _ _ (string_read env (do_read env n) rest h p s valid.0 valid.1)
        (At-append h _)
  read_datum env (Datum.bytes bs) valid (suc n) lt rest h p =
      marked_read rest h p _ _ (bytes_read env (do_read env n) rest h p bs valid) (At-append h _)
  read_datum env (Datum.real bs) valid (suc n) lt rest h p =
      marked_read rest h p _ (Object.flonum bs) (rw (real_read rest h p bs valid) refl)
        (At-append h _)
  read_datum env (Datum.pair a d) valid (suc n) lt rest h p =
      let size = length-append (write a) (write d) in
      read_pair_lem env (do_read env n) rest h p a d
        (read_datum env a valid.0 n (omega (arith, lt, size)))
        (read_datum env d valid.1 n (omega (arith, lt, size)))
  read_datum env (Datum.list xs) valid (suc n) lt rest h p = list_read env n xs rest h p valid.0 (
      read_data env xs valid.1 n (
        omega (
          arith,
          lt,
          length-append (list_prefix (count xs)) (write_all xs),
          prefix-length (count xs),
        )))

  read_data :
      (env : Env) (xs : Data)
      → AreData xs
      → (fuel : ℕ) → length (write_all xs) < fuel
      → ReadsAll (do_read env fuel) xs
  read_data env (Data.last a d) valid fuel lt =
      let size = length-append (write a) (write d) in
      (
        read_datum env a valid.0 fuel (omega (arith, lt, size)),
        read_datum env d valid.1 fuel (omega (arith, lt, size)),
      )
  read_data env (Data.item e xs) valid fuel lt =
      let size = length-append (write e) (write_all xs) in
      (
        read_datum env e valid.0 fuel (omega (arith, lt, size)),
        read_data env xs valid.1 fuel (omega (arith, lt, size)),
      )

-- The bytes of a datum in front of any rest are read as a value that stands for it, by objects that
-- were not there before. The rest is left, the marks, the symbol tables and the objects that were
-- there stay, and the length of the bytes is enough fuel.
pub do_read-write :
    (env : Env) (d : Datum)
    → IsDatum d
    → (fuel : ℕ) → length (write d) < fuel
    → ReadsDatum (do_read env fuel) d
do_read-write = read_datum
