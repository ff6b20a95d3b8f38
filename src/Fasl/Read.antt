-- ===== src/Fasl/Read.antt =====
-- `do_read`: the branches by the type of an object, and the whole file.
use ikarus.Base.{ℕ, zero, suc, ◌+◌, ◌%◌, [], ◌∷◌, map, replicate, ◌==◌, if◌then◌else◌}
use ikarus.Base.Int.{ℤ, pos, negsuc}
use ikarus.Fasl.{
  Value, Object, Env, Code, out_of_fuel, immediate, unwritten, pair, vector, flonum, bignum,
  compnum, cflonum, closure, code, invalid_length, invalid_type,
}
use ikarus.Fasl.Objects.{
  int_to_scheme_char, integer_to_char, read_many, marked, elements, name_of, on_tables,
  ik_relocate_code, read_elements, read_cars, read_pair_at, read_fields, is_flonum, rtd_of,
  sign_and_length, bignum_header,
}
use ikarus.Fasl.Port.{
  Reader, pure, fails, ◌>>=◌, ◌>>◌, fasl_read_byte, fasl_read_buf, little_endian, read_int,
  read_long, read_word, size_of, positive, check_mark, put_mark, get_mark, allocate, write_object,
  read_object,
}
use ikarus.Symbols.{ikrt_string_to_symbol, ikrt_strings_to_gensym}
use ikarus.Word.{to_word, fix}

-- The types of objects, by their characters.
pub data Tag : Type 0 where
  code_tag pair_tag symbol_tag ascii_tag string_tag vector_tag fixnum_tag false_tag true_tag : Tag
  null_tag byte_char_tag gensym_tag rtd_tag closure_tag reference_tag bytevector_tag : Tag
  short_list_tag list_tag flonum_tag char_tag bignum_tag complex_tag other_tag : Tag

-- The chain of comparisons: x P M s S V I F T N c G R Q < v l L f C b i.
unfoldable pub tag_of : ℕ → Tag
tag_of c =
    if c == 120
    then Tag.code_tag
    else if c == 80
    then Tag.pair_tag
    else if c == 77
    then Tag.symbol_tag
    else if c == 115
    then Tag.ascii_tag
    else if c == 83
    then Tag.string_tag
    else if c == 86
    then Tag.vector_tag
    else if c == 73
    then Tag.fixnum_tag
    else if c == 70
    then Tag.false_tag
    else if c == 84
    then Tag.true_tag
    else if c == 78
    then Tag.null_tag
    else if c == 99
    then Tag.byte_char_tag
    else if c == 71
    then Tag.gensym_tag
    else if c == 82
    then Tag.rtd_tag
    else if c == 81
    then Tag.closure_tag
    else if c == 60
    then Tag.reference_tag
    else if c == 118
    then Tag.bytevector_tag
    else if c == 108
    then Tag.short_list_tag
    else if c == 76
    then Tag.list_tag
    else if c == 102
    then Tag.flonum_tag
    else if c == 67
    then Tag.char_tag
    else if c == 98
    then Tag.bignum_tag
    else if c == 105
    then Tag.complex_tag
    else Tag.other_tag

module _ (env : Env) (do_read : Reader Value) (mark : ℕ) where
  -- 'x'
  unfoldable pub read_code : Reader Value
  read_code = do
    size ← read_long
    n ← size_of 1 size
    freevars ← read_word
    annotation ← do_read
    bytes ← fasl_read_buf n
    let made : Code = record {
      size = fix (pos n);
      freevars = freevars;
      annotation = annotation;
      reloc_vector = unwritten;
      data_bytes = bytes;
    }
    i ← allocate (code made ∷ [])
    put_mark mark (Value.object i)
    vec ← do_read
    relocs ← read_object vec
    ik_relocate_code env i (record made { reloc_vector = vec }) relocs
    pure (Value.object i)

  -- 'P'
  unfoldable pub read_pair : Reader Value
  read_pair = do
    i ← allocate (pair unwritten unwritten ∷ [])
    put_mark mark (Value.object i)
    read_pair_at do_read i
    pure (Value.object i)

  -- 'M'
  unfoldable pub read_symbol : Reader Value
  read_symbol = do
    str ← do_read
    o ← read_object str
    s ← elements o
    sym ← on_tables (ikrt_string_to_symbol env.symbol_memory s)
    put_mark mark sym
    pure sym

  -- 's'
  unfoldable pub read_ascii_string : Reader Value
  read_ascii_string = do
    len ← read_long
    n ← size_of 4 len
    bytes ← fasl_read_buf n
    marked mark (Object.string (map integer_to_char bytes))

  -- 'S'
  unfoldable pub read_string : Reader Value
  read_string = do
    len ← read_long
    n ← size_of 4 len
    chars ← read_many (fasl_read_buf 4) n
    marked mark (Object.string (map (λ c. integer_to_char (little_endian c)) chars))

  -- 'V'
  unfoldable pub read_vector : Reader Value
  read_vector = do
    len ← read_long
    n ← size_of 8 len
    i ← allocate (vector (replicate n unwritten) ∷ [])
    put_mark mark (Value.object i)
    read_elements do_read i [] n
    pure (Value.object i)

  -- 'G'
  unfoldable pub read_gensym : Reader Value
  read_gensym = do
    pretty ← do_read
    unique ← do_read
    name ← name_of pretty
    o ← read_object unique
    ustr ← elements o
    sym ← on_tables (ikrt_strings_to_gensym env.gensym_memory name ustr)
    put_mark mark sym
    pure sym

  -- The list of the fields.
  unfoldable pub field_list : ℕ → Reader Value
  field_list zero = pure (immediate 79)
  field_list (suc n) = do
    i ← allocate (replicate (suc n) (pair unwritten unwritten))
    read_fields do_read i (suc n)
    pure (Value.object i)

  -- 'R'
  unfoldable pub read_rtd : Reader Value
  read_rtd = do
    name ← do_read
    symb ← do_read
    len ← read_long
    n ← size_of 16 len
    fields ← field_list n
    v ← rtd_of env name n fields symb
    put_mark mark v
    pure v

  -- 'Q'
  unfoldable pub read_closure : Reader Value
  read_closure = do
    i ← allocate (closure unwritten ∷ [])
    put_mark mark (Value.object i)
    c ← do_read
    write_object i (closure c)
    pure (Value.object i)

  -- 'v'
  unfoldable pub read_bytevector : Reader Value
  read_bytevector = do
    len ← read_long
    n ← size_of 1 len
    bytes ← fasl_read_buf n
    marked mark (Object.bytevector bytes)

  -- 'l' and 'L', for as many pairs before the last.
  unfoldable pub read_list : ℕ → Reader Value
  read_list n = do
    i ← allocate (replicate (suc n) (pair unwritten unwritten))
    put_mark mark (Value.object i)
    read_cars do_read i n
    read_pair_at do_read (i + n)
    pure (Value.object i)

  unfoldable pub list_length : ℤ → Reader ℕ
  list_length (pos n) = size_of 16 (pos n)
  list_length (negsuc n) = fails invalid_length

  -- len & 3
  unfoldable pub check_length : ℕ → Reader (Unit {0})
  check_length len = if len % 4 == 0 then pure tt else fails invalid_length

  -- 'b'
  unfoldable pub read_bignum : Reader Value
  read_bignum = do
    size ← read_long
    let (sign, len) = sign_and_length size
    check_length len
    n ← size_of 1 (pos len)
    bytes ← fasl_read_buf n
    marked mark (bignum (bignum_header sign n) bytes)

  -- 'i'
  unfoldable pub read_complex : Reader Value
  read_complex = do
    real ← do_read
    imag ← do_read
    b ← is_flonum real
    marked mark (if b then cflonum real imag else compnum real imag)

  unfoldable pub read_tagged : Tag → Reader Value
  read_tagged Tag.code_tag = read_code
  read_tagged Tag.pair_tag = read_pair
  read_tagged Tag.symbol_tag = read_symbol
  read_tagged Tag.ascii_tag = read_ascii_string
  read_tagged Tag.string_tag = read_string
  read_tagged Tag.vector_tag = read_vector
  read_tagged Tag.fixnum_tag = do w ← read_word; pure (immediate w)
  read_tagged Tag.false_tag = pure (immediate 47)
  read_tagged Tag.true_tag = pure (immediate 63)
  read_tagged Tag.null_tag = pure (immediate 79)
  read_tagged Tag.byte_char_tag = do x ← fasl_read_byte; pure (immediate (int_to_scheme_char x))
  read_tagged Tag.gensym_tag = read_gensym
  read_tagged Tag.rtd_tag = read_rtd
  read_tagged Tag.closure_tag = read_closure
  read_tagged Tag.reference_tag = do n ← read_int; idx ← positive n; get_mark idx
  read_tagged Tag.bytevector_tag = read_bytevector
  read_tagged Tag.short_list_tag = do n ← fasl_read_byte; read_list n
  read_tagged Tag.list_tag = do len ← read_long; n ← list_length len; read_list n
  read_tagged Tag.flonum_tag = do bytes ← fasl_read_buf 8; marked mark (flonum bytes)
  read_tagged Tag.char_tag = do n ← read_int; pure (immediate (int_to_scheme_char (to_word n)))
  read_tagged Tag.bignum_tag = read_bignum
  read_tagged Tag.complex_tag = read_complex
  read_tagged Tag.other_tag = fails invalid_type

-- The index behind '>', and the type.
unfoldable pub read_mark : Reader (ℕ × ℕ)
read_mark = do n ← read_int; c ← fasl_read_byte; idx ← positive n; check_mark idx; pure (idx, c)

-- The index, or 0 where there is none, and the type.
unfoldable pub read_prefix : ℕ → Reader (ℕ × ℕ)
read_prefix c = if c == 62 then read_mark else pure (0, c)

-- `do_read` on fuel, one unit for each call inside another.
unfoldable pub do_read : Env → ℕ → Reader Value
do_read env zero p = out_of_fuel
do_read env (suc fuel) p =
    (do
      c ← fasl_read_byte
      (mark, c') ← read_prefix c
      read_tagged env (do_read env fuel) mark (tag_of c'))
      p
