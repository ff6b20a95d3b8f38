-- ===== src/Fasl/Leaves.antt =====
-- The branches of `do_read` without parts on what is written for a datum.
use ikarus.Base.{
  ℕ, ◌+◌, ◌*◌, ◌^◌, ◌<◌, ◌≡◌, refl, ◌∙◌, arith, List, [], ◌∷◌, ◌++◌, length, map, length-append,
}
use ikarus.Fasl.Input.{
  little_endian-bytes_of, fasl_read_buf_lem, read_long_lem, size_of_lem, chars_of, read_many-chars,
}
use ikarus.Fasl.Objects.{integer_to_char, marked}
use ikarus.Fasl.Port.{Reader, little_endian}
use ikarus.Fasl.Read.{read_bytevector, read_ascii_string, read_string}
use ikarus.Fasl.Relocate.{bytes_of}
use ikarus.Fasl.Stored.{Reading, after, Keeps-append, marked_lem}
use ikarus.Fasl.Write.{Datum, write_chars, AreChars, Represents}
use ikarus.Fasl.{Value, Object, FaslPort, Env, Outcome, ok}
use mathlib.Core.List.{append_assoc}

-- A value without an object.
pub immediate_read :
    {r : Outcome (Value × FaslPort)} (rest : List ℕ) (h : List Object) (p : FaslPort) (d : Datum)
    (v : Value)
    → r ≡ ok (v, after rest h p)
    → Represents (length h) h v d
    → Reading r rest h p d
immediate_read rest h p d v e s = record {
  value = v;
  heap = h;
  run = e;
  grows = omega arith;
  keeps = λ a o g. g;
  stands = s;
}

-- A value of one object that is made at the end.
pub marked_read :
    {r : Outcome (Value × FaslPort)} (rest : List ℕ) (h : List Object) (p : FaslPort) (d : Datum)
    (o : Object)
    → r ≡ marked 0 o (after rest h p)
    → Represents (length h) (h ++ o ∷ []) (Value.object (length h)) d
    → Reading r rest h p d
marked_read rest h p d o e s = record {
  value = Value.object (length h);
  heap = h ++ o ∷ [];
  run = e ∙ marked_lem rest h p o;
  grows = omega (arith, length-append h (o ∷ []));
  keeps = Keeps-append h (o ∷ []);
  stands = s;
}

module _ (env : Env) (m : Reader Value) (rest : List ℕ) (h : List Object) (p : FaslPort) where
  pub bytes_read :
      (bs : List ℕ)
      → length bs * 1 + 64 < 2 ^ 31
      → read_bytevector env m 0 (after ((bytes_of 8 (length bs) ++ bs) ++ rest) h p)
        ≡ marked 0 (Object.bytevector bs) (after rest h p)
  unfolding read_bytevector
  bytes_read bs lt =
      rw
        (
          append_assoc (bytes_of 8 (length bs)) bs rest,
          read_long_lem (after [] h p) (bs ++ rest) (length bs) (omega (arith, lt)),
          size_of_lem 1 (length bs) (after (bs ++ rest) h p) lt,
          fasl_read_buf_lem (after [] h p) rest bs,
        )
        refl

  pub ascii_read :
      (s : List ℕ)
      → length s * 4 + 64 < 2 ^ 31
      → read_ascii_string env m 0 (after ((bytes_of 8 (length s) ++ s) ++ rest) h p)
        ≡ marked 0 (Object.string (map integer_to_char s)) (after rest h p)
  unfolding read_ascii_string
  ascii_read s lt =
      rw
        (
          append_assoc (bytes_of 8 (length s)) s rest,
          read_long_lem (after [] h p) (s ++ rest) (length s) (omega (arith, lt)),
          size_of_lem 4 (length s) (after (s ++ rest) h p) lt,
          fasl_read_buf_lem (after [] h p) rest s,
        )
        refl

  chars_back :
      (cs : List ℕ)
      → AreChars cs
      → map (λ c. integer_to_char (little_endian c)) (chars_of cs) ≡ map integer_to_char cs
  chars_back [] u = refl
  chars_back (c ∷ cs) (lt, more) =
      rw (little_endian-bytes_of 4 c (omega (arith, lt)), chars_back cs more) refl

  pub string_read :
      (s : List ℕ)
      → length s * 4 + 64 < 2 ^ 31
      → AreChars s
      → read_string env m 0 (after ((bytes_of 8 (length s) ++ write_chars s) ++ rest) h p)
        ≡ marked 0 (Object.string (map integer_to_char s)) (after rest h p)
  unfolding read_string
  string_read s lt chars =
      rw
        (
          append_assoc (bytes_of 8 (length s)) (write_chars s) rest,
          read_long_lem (after [] h p) (write_chars s ++ rest) (length s) (omega (arith, lt)),
          size_of_lem 4 (length s) (after (write_chars s ++ rest) h p) lt,
          read_many-chars (after [] h p) rest s,
          chars_back s chars,
        )
        refl
