-- ===== src/Fasl/Port.antt =====
-- The operations of the reader on its port: bytes, integers, marks and allocation.
use ikarus.Base.{
  ℕ, zero, suc, ◌+◌, ◌-◌, ◌*◌, ◌^◌, List, [], ◌∷◌, ◌++◌, length, take, drop, replicate, set,
  get_elem?, Option, none, some, ltb, leb, ◌==◌, if◌then◌else◌,
}
use ikarus.Base.Int.{ℤ, pos, negsuc}
use ikarus.Fasl
use ikarus.Fasl.{
  Value, Object, FaslPort, Store, Stop, Outcome, ok, stop, beyond_eof, invalid_index, mark_too_big,
  mark_set, no_mark, bad_length, mark_outside, wrong_object,
}

abbrev pub Reader {ℓ} : Type ℓ → Type ℓ
Reader A = FaslPort → Outcome (A × FaslPort)

abbrev pub pure {ℓ} : {A : Type ℓ} → A → Reader A
pure a p = ok (a, p)

abbrev pub fails {ℓ} : {A : Type ℓ} → Stop → Reader A
fails e p = stop e

module _ {ℓ κ} {A : Type ℓ} {B : Type κ} where
  infixl 1 ◌>>=◌ ◌>>◌
  abbrev pub ◌>>=◌ : Reader A → (A → Reader B) → Reader B
  m >>= f = λ p. Fasl.bind (m p) λ (a, p'). f a p'

  abbrev pub ◌>>◌ : Reader A → Reader B → Reader B
  m >> k = m >>= λ _. k

-- fasl_read_byte, on the input.
unfoldable pub next_byte : List ℕ → FaslPort → Outcome (ℕ × FaslPort)
next_byte [] p = stop beyond_eof
next_byte (b ∷ rest) p = ok (b, record p { input = rest })

unfoldable pub fasl_read_byte : Reader ℕ
fasl_read_byte p = next_byte p.input p

-- fasl_read_buf, for a count that is not negative.
unfoldable pub fasl_read_buf : ℕ → Reader (List ℕ)
fasl_read_buf n p =
    if leb n (length p.input)
    then ok (take n p.input, record p { input = drop n p.input })
    else stop beyond_eof

-- The number of bytes, the lowest first.
unfoldable pub little_endian : List ℕ → ℕ
little_endian [] = 0
little_endian (b ∷ bs) = b + 256 * little_endian bs

-- A word of w bits as a signed number.
abbrev pub signed : ℕ → ℕ → ℤ
signed w n = if ltb n (2 ^ (w - 1)) then pos n else negsuc (2 ^ w - 1 - n)

unfoldable pub read_int : Reader ℤ
read_int = do bytes ← fasl_read_buf 4; pure (signed 32 (little_endian bytes))

unfoldable pub read_long : Reader ℤ
read_long = do bytes ← fasl_read_buf 8; pure (signed 64 (little_endian bytes))

unfoldable pub read_word : Reader ℕ
read_word = do bytes ← fasl_read_buf 8; pure (little_endian bytes)

-- A length for an object of so many bytes for each element, and a few more, whose size is an int.
unfoldable pub size_of : ℕ → ℤ → Reader ℕ
size_of bytes (negsuc n) = fails bad_length
size_of bytes (pos n) = if ltb (n * bytes + 64) (2 ^ 31) then pure n else fails bad_length

-- An index of a mark, or exit(-1).
unfoldable pub positive : ℤ → Reader ℕ
positive (pos zero) = fails invalid_index
positive (pos (suc n)) = pure (suc n)
positive (negsuc n) = fails invalid_index

-- The checks behind '>': of a mark among those that there are, and the making of the marks where
-- there are none. The first index is not compared with their number.
unfoldable pub check_unset : Option (Option Value) → Reader (Unit {0})
check_unset none = fails mark_too_big
check_unset (some none) = pure tt
check_unset (some (some v)) = fails mark_set

unfoldable pub check_marks : List (Option Value) → ℕ → Reader (Unit {0})
check_marks [] idx p = ok (tt, record p { marks = replicate 8192 none })
check_marks (x ∷ xs) idx p = check_unset (get_elem? (x ∷ xs) idx) p

unfoldable pub check_mark : ℕ → Reader (Unit {0})
check_mark idx p = check_marks p.marks idx p

-- `if(put_mark_index) p->marks[put_mark_index] = v`
unfoldable pub put_mark : ℕ → Value → Reader (Unit {0})
put_mark idx v p =
    if idx == 0
    then ok (tt, p)
    else if ltb idx (length p.marks)
    then ok (tt, record p { marks = set p.marks idx (some v) })
    else stop mark_outside

-- The value behind '<'.
unfoldable pub set_mark : Option (Option Value) → Reader Value
set_mark none = fails invalid_index
set_mark (some none) = fails no_mark
set_mark (some (some v)) = pure v

unfoldable pub get_mark : ℕ → Reader Value
get_mark idx p = set_mark (get_elem? p.marks idx) p

-- New objects, at one address after another; the first address.
unfoldable pub allocate : List Object → Reader ℕ
allocate objects p =
    ok (length p.store.heap, record p { store = record p.store { heap = p.store.heap ++ objects } })

unfoldable pub write_object : ℕ → Object → Reader (Unit {0})
write_object i o p = ok (tt, record p { store = record p.store { heap = set p.store.heap i o } })

unfoldable pub existing : Option Object → Reader Object
existing (some o) = pure o
existing none = fails wrong_object

unfoldable pub read_object : Value → Reader Object
read_object (Value.object i) p = existing (get_elem? p.store.heap i) p
read_object (Value.immediate w) p = stop wrong_object
read_object (Value.symbol s) p = stop wrong_object
read_object Value.unwritten p = stop wrong_object
