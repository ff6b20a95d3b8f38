-- ===== src/Fasl/Write.antt =====
-- Data without sharing, in the format of object files that scheme/ikarus.fasl.write.ss writes, and
-- how the objects of a heap stand for them.
use ikarus.Base.{
  ℕ, suc, ◌+◌, ◌*◌, ◌^◌, ◌≤◌, ◌<◌, ◌≡◌, List, [], ◌∷◌, ◌++◌, map, length, get_elem?, Bool, leb,
  if◌then◌else◌, some,
}
use ikarus.Fasl.Objects.{int_to_scheme_char, integer_to_char}
use ikarus.Fasl.Relocate.{bytes_of}
use ikarus.Fasl.{Value, Object}

-- A list has items in front of its last pair.
mutual
  pub data Datum : Type 0 where
    fixnum : ℕ → Datum
    boolean : Bool → Datum
    null : Datum
    byte_char : ℕ → Datum
    char : ℕ → Datum
    ascii : List ℕ → Datum
    string : List ℕ → Datum
    bytes : List ℕ → Datum
    real : List ℕ → Datum
    pair : Datum → Datum → Datum
    list : Data → Datum

  pub data Data : Type 0 where
    last : Datum → Datum → Data
    item : Datum → Data → Data

abbrev pub count : Data → ℕ
count (last a d) = 0
count (item d ds) = suc (count ds)

-- A short list has its length in a byte.
unfoldable pub list_prefix : ℕ → List ℕ
list_prefix n = if leb n 255 then 108 ∷ n ∷ [] else 76 ∷ bytes_of 8 n

unfoldable pub write_chars : List ℕ → List ℕ
write_chars [] = []
write_chars (c ∷ cs) = bytes_of 4 c ++ write_chars cs

unfoldable mutual
  pub write : Datum → List ℕ
  write (fixnum w) = 73 ∷ bytes_of 8 w
  write (boolean b) = (if b then 84 else 70) ∷ []
  write null = 78 ∷ []
  write (byte_char c) = 99 ∷ c ∷ []
  write (char c) = 67 ∷ bytes_of 4 c
  write (ascii s) = 115 ∷ (bytes_of 8 (length s) ++ s)
  write (string s) = 83 ∷ (bytes_of 8 (length s) ++ write_chars s)
  write (bytes bs) = 118 ∷ (bytes_of 8 (length bs) ++ bs)
  write (real bs) = 102 ∷ bs
  write (pair a d) = 80 ∷ (write a ++ write d)
  write (list xs) = list_prefix (count xs) ++ write_all xs

  pub write_all : Data → List ℕ
  write_all (last a d) = write a ++ write d
  write_all (item d ds) = write d ++ write_all ds

abbrev pub AreChars : List ℕ → Type 0
AreChars [] = Unit
AreChars (c ∷ cs) = (c < 2 ^ 32) × AreChars cs

-- The limits of the format.
unfoldable mutual
  pub IsDatum : Datum → Type 0
  IsDatum (fixnum w) = w < 2 ^ 64
  IsDatum (boolean b) = Unit
  IsDatum null = Unit
  IsDatum (byte_char c) = Unit
  IsDatum (char c) = c < 2 ^ 31
  IsDatum (ascii s) = length s * 4 + 64 < 2 ^ 31
  IsDatum (string s) = (length s * 4 + 64 < 2 ^ 31) × AreChars s
  IsDatum (bytes bs) = length bs * 1 + 64 < 2 ^ 31
  IsDatum (real bs) = length bs ≡ 8
  IsDatum (pair a d) = IsDatum a × IsDatum d
  IsDatum (list xs) = (count xs * 16 + 64 < 2 ^ 31) × AreData xs

  pub AreData : Data → Type 0
  AreData (last a d) = IsDatum a × IsDatum d
  AreData (item d ds) = IsDatum d × AreData ds

-- An object of the heap, not below the address b.
pub record At (b : ℕ) (heap : List Object) (v : Value) (o : Object) : Type 0 where
  pub address : ℕ
  pub object_at : v ≡ Value.object address
  pub above : b ≤ address
  pub holds : get_elem? heap address ≡ some o

-- A value stands for a datum, by objects that are not below the address b.
unfoldable mutual
  pub Represents : ℕ → List Object → Value → Datum → Type 0
  Represents b h v (fixnum w) = v ≡ Value.immediate w
  Represents b h v (boolean c) = v ≡ Value.immediate (if c then 63 else 47)
  Represents b h v null = v ≡ Value.immediate 79
  Represents b h v (byte_char c) = v ≡ Value.immediate (int_to_scheme_char c)
  Represents b h v (char c) = v ≡ Value.immediate (int_to_scheme_char c)
  Represents b h v (ascii s) = At b h v (Object.string (map integer_to_char s))
  Represents b h v (string s) = At b h v (Object.string (map integer_to_char s))
  Represents b h v (bytes bs) = At b h v (Object.bytevector bs)
  Represents b h v (real bs) = At b h v (Object.flonum bs)
  Represents b h v (pair a d) =
      (x y : Value) × (At b h v (Object.pair x y) × (Represents b h x a × Represents b h y d))
  Represents b h v (list xs) = RepresentsList b h v xs

  -- A list of pairs, each at the address behind the one before it.
  pub RepresentsList : ℕ → List Object → Value → Data → Type 0
  RepresentsList b h v (last a d) =
      (x y : Value) × (At b h v (Object.pair x y) × (Represents b h x a × Represents b h y d))
  RepresentsList b h v (item e xs) =
      (x y : Value) × (At b h v (Object.pair x y) × (Represents b h x e × RepresentsList b h y xs))
