-- ===== src/Fasl/Input.antt =====
-- What the readers of bytes give on an input that starts with the bytes they ask for.
use ikarus.Base.{
  ℕ, zero, suc, ◌+◌, ◌*◌, ◌/◌, ◌^◌, ◌<◌, ◌≡◌, refl, ap, arith, List, [], ◌∷◌, ◌++◌, map, length,
  take, drop, length-append, ltb, leb, true,
}
use ikarus.Base.Int.{pos}
use ikarus.Fasl.Objects.{read_many}
use ikarus.Fasl.Port.{fasl_read_buf, little_endian, read_int, read_long, read_word, size_of}
use ikarus.Fasl.Relocate.{bytes_of}
use ikarus.Fasl.Write.{write_chars}
use ikarus.Fasl.{FaslPort, ok}
use mathlib.Core.List.{append_assoc}

-- A port with another input.
abbrev pub at : List ℕ → FaslPort → FaslPort
at xs p = record p { input = xs }

pub length-bytes_of : (k n : ℕ) → length (bytes_of k n) ≡ k
unfolding bytes_of
length-bytes_of zero n = refl
length-bytes_of (suc k) n = ap suc (length-bytes_of k (n / 256))

-- The bytes of a number give it back if they are enough.
pub little_endian-bytes_of : (k n : ℕ) → n < 256 ^ k → little_endian (bytes_of k n) ≡ n
unfolding little_endian bytes_of
little_endian-bytes_of zero n lt = omega arith
little_endian-bytes_of (suc k) n lt =
    let split : 256 ^ suc k ≡ 256 * 256 ^ k = omega arith in
    omega (arith, little_endian-bytes_of k (n / 256) (omega (arith, split, lt)))

take-append : (xs ys : List ℕ) → take (length xs) (xs ++ ys) ≡ xs
take-append [] ys = refl
take-append (x ∷ xs) ys = ap (◌∷◌ x) (take-append xs ys)

drop-append : (xs ys : List ℕ) → drop (length xs) (xs ++ ys) ≡ ys
drop-append [] ys = refl
drop-append (x ∷ xs) ys = drop-append xs ys

module _ (p : FaslPort) (rest : List ℕ) where
  pub fasl_read_buf_lem :
      (xs : List ℕ) → fasl_read_buf (length xs) (at (xs ++ rest) p) ≡ ok (xs, at rest p)
  unfolding fasl_read_buf
  fasl_read_buf_lem xs =
      let short : leb (length xs) (length (xs ++ rest)) ≡ true =
        ground (arith, length-append xs rest) in
      rw (short, take-append xs rest, drop-append xs rest) refl

  pub bytes_lem :
      (k n : ℕ) → fasl_read_buf k (at (bytes_of k n ++ rest) p) ≡ ok (bytes_of k n, at rest p)
  bytes_lem k n = rw (length-bytes_of k n) at (fasl_read_buf_lem (bytes_of k n))

  pub read_word_lem :
      (n : ℕ) → n < 2 ^ 64 → read_word (at (bytes_of 8 n ++ rest) p) ≡ ok (n, at rest p)
  unfolding read_word
  read_word_lem n lt = rw (bytes_lem 8 n, little_endian-bytes_of 8 n (omega arith)) refl

  pub read_long_lem :
      (n : ℕ) → n < 2 ^ 31 → read_long (at (bytes_of 8 n ++ rest) p) ≡ ok (pos n, at rest p)
  unfolding read_long
  read_long_lem n lt =
      let low : ltb n (2 ^ 63) ≡ true = ground arith in
      rw (bytes_lem 8 n, little_endian-bytes_of 8 n (omega arith), low) refl

  pub read_int_lem :
      (n : ℕ) → n < 2 ^ 31 → read_int (at (bytes_of 4 n ++ rest) p) ≡ ok (pos n, at rest p)
  unfolding read_int
  read_int_lem n lt =
      let low : ltb n (2 ^ 31) ≡ true = ground arith in
      rw (bytes_lem 4 n, little_endian-bytes_of 4 n (omega arith), low) refl

pub size_of_lem : (b n : ℕ) (p : FaslPort) → n * b + 64 < 2 ^ 31 → size_of b (pos n) p ≡ ok (n, p)
unfolding size_of
size_of_lem b n p lt = let fits : ltb (n * b + 64) (2 ^ 31) ≡ true = ground arith in rw fits refl

-- The characters of a string, by four bytes each.
abbrev pub chars_of : List ℕ → List (List ℕ)
chars_of cs = map (bytes_of 4) cs

pub read_many-chars :
    (p : FaslPort) (rest cs : List ℕ)
    → read_many (fasl_read_buf 4) (length cs) (at (write_chars cs ++ rest) p)
      ≡ ok (chars_of cs, at rest p)
unfolding read_many write_chars
read_many-chars p rest [] = refl
read_many-chars p rest (c ∷ cs) =
    rw
      (
        append_assoc (bytes_of 4 c) (write_chars cs) rest,
        bytes_lem p (write_chars cs ++ rest) 4 c,
        read_many-chars p rest cs,
      )
      refl
