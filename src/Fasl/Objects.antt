-- ===== src/Fasl/Objects.antt =====
-- The branches of `do_read`, each over the reader of the parts, after the mark and the type.
use ikarus.Base.{
  ℕ, zero, suc, ◌+◌, ◌*◌, ◌/◌, ◌%◌, ◌^◌, List, [], ◌∷◌, ◌++◌, length, replicate, Option, none, some,
  Bool, true, false, ◌==◌, if◌then◌else◌,
}
use ikarus.Base.Int.{ℤ, pos, negsuc}
use ikarus.Fasl
use ikarus.Fasl.{
  Value, Object, FaslPort, Store, Env, Code, Rtd, Outcome, ok, stop, immediate, unwritten, pair,
  vector, flonum, compnum, cflonum, closure, code, rtd, invalid_length, bad_length, wrong_object,
  symbol_fault,
}
use ikarus.Fasl.Port.{
  Reader, pure, fails, ◌>>=◌, ◌>>◌, put_mark, allocate, write_object, read_object,
}
use ikarus.Fasl.Relocate.{relocate}
use ikarus.Symbols
use ikarus.Symbols.{Field, false_object, ikrt_string_to_symbol, ikrt_strings_to_gensym}
use ikarus.Word.{fix}

-- int_to_scheme_char on a word, and integer_to_char on an int.
abbrev pub int_to_scheme_char : ℕ → ℕ
int_to_scheme_char x = x * 256 % 2 ^ 64 + 15

abbrev pub integer_to_char : ℕ → ℕ
integer_to_char c = (c * 256 + 15) % 2 ^ 32

-- The loops that read n parts.
unfoldable pub read_many {ℓ} : {A : Type ℓ} → Reader A → ℕ → Reader (List A)
read_many m zero = pure []
read_many m (suc n) = do a ← m; rest ← read_many m n; pure (a ∷ rest)

-- The object is marked once it is made, and returned.
unfoldable pub marked : ℕ → Object → Reader Value
marked mark o = do i ← allocate (o ∷ []); put_mark mark (Value.object i); pure (Value.object i)

-- The elements of a string object.
unfoldable pub elements : Object → Reader (List ℕ)
elements (Object.string s) = pure s
elements o = fails wrong_object

-- The name of a gensym; the tables hold those that are strings or #f.
unfoldable pub name_field : Object → Reader Field
name_field (Object.string s) = pure (Field.string s)
name_field o = fails wrong_object

unfoldable pub name_of : Value → Reader Field
name_of (Value.object i) = do o ← read_object (Value.object i); name_field o
name_of (immediate w) = if w == 47 then pure false_object else fails wrong_object
name_of v = fails wrong_object

-- A call on the symbol tables, by its outcome.
unfoldable pub interned : Symbols.Outcome (ℕ × Symbols.Pcb) → Reader Value
interned (Symbols.ok (s, pcb)) p =
    ok (Value.symbol s, record p { store = record p.store { pcb = pcb } })
interned (Symbols.fault e) p = stop symbol_fault

unfoldable pub on_tables : (Symbols.Pcb → Symbols.Outcome (ℕ × Symbols.Pcb)) → Reader Value
on_tables f p = interned (f p.store.pcb) p

-- ik_relocate_code on a code object and the object that its vector is.
unfoldable pub ik_relocate_code : Env → ℕ → Code → Object → Reader (Unit {0})
ik_relocate_code env i c (vector vs) p =
    Fasl.bind (relocate env p.store.heap (env.address (Value.object i) + 43) vs c.data_bytes)
      (λ bytes. write_object i (code (record c { data_bytes = bytes })) p)
ik_relocate_code env i c o p = stop wrong_object

-- The elements of a vector, stored one after another behind those that are there.
unfoldable pub read_elements : Reader Value → ℕ → List Value → ℕ → Reader (Unit {0})
read_elements do_read i done zero = pure tt
read_elements do_read i done (suc n) = do
  v ← do_read
  write_object i (vector (done ++ v ∷ replicate n unwritten))
  read_elements do_read i (done ++ v ∷ []) n

-- The first n pairs of a list, each with the next as its cdr.
unfoldable pub read_cars : Reader Value → ℕ → ℕ → Reader (Unit {0})
read_cars do_read i zero = pure tt
read_cars do_read i (suc n) = do
  v ← do_read
  write_object i (pair v (Value.object (i + 1)))
  read_cars do_read (i + 1) n

-- The car and the cdr of a pair.
unfoldable pub read_pair_at : Reader Value → ℕ → Reader (Unit {0})
read_pair_at do_read i = do
  car ← do_read
  write_object i (pair car unwritten)
  cdr ← do_read
  write_object i (pair car cdr)

-- The pairs of the fields of a record type.
unfoldable pub read_fields : Reader Value → ℕ → ℕ → Reader (Unit {0})
read_fields do_read i zero = pure tt
read_fields do_read i (suc zero) = do v ← do_read; write_object i (pair v (immediate 79))
read_fields do_read i (suc (suc n)) = do
  v ← do_read
  write_object i (pair v (Value.object (i + 1)))
  read_fields do_read (i + 1) (suc n)

-- Whether a value is a flonum.
unfoldable pub is_flonum : Value → Reader Bool
is_flonum (Value.object i) = do
  o ← read_object (Value.object i)
  pure (elim o [ flonum bytes ↦ true | other ↦ false ])
is_flonum v = pure false

-- The value that was stored in a symbol.
unfoldable pub symbol_value : List (ℕ × Value) → ℕ → Option Value
symbol_value [] s = none
symbol_value ((t, v) ∷ values) s =
    let rest = symbol_value values s in if t == s then some v else rest

-- A new record type is stored in its symbol, whose page is marked; a symbol that has one keeps it.
unfoldable pub make_rtd : Env → Rtd → ℕ → Option Value → Reader Value
make_rtd env made s (some v) p = ok (v, p)
make_rtd env made s none p =
    let i = length p.store.heap in
    let page = (env.address (Value.symbol s) + 19) / 4096 in
    let tables = record p.store.pcb { dirty = page ∷ p.store.pcb.dirty } in
    ok (
      Value.object i,
      record p {
        store = record {
          heap = p.store.heap ++ rtd made ∷ [];
          pcb = tables;
          values = (s, Value.object i) ∷ p.store.values;
        };
      },
    )

unfoldable pub rtd_of : Env → Value → ℕ → Value → Value → Reader Value
rtd_of env name n fields (Value.symbol s) p =
    let made : Rtd = record {
      name = name;
      length = fix (pos n);
      fields = fields;
      symbol_of = Value.symbol s;
    } in
    make_rtd env made s (symbol_value p.store.values s) p
rtd_of env name n fields v p = stop wrong_object

-- The sign, and the length without it.
unfoldable pub sign_and_length : ℤ → ℕ × ℕ
sign_and_length (pos n) = (0, n)
sign_and_length (negsuc n) = (1, n + 1)

-- The header of a bignum of so many bytes, whose limbs are taken to be of four.
abbrev pub bignum_header : ℕ → ℕ → ℕ
bignum_header sign len = 3 + sign * 8 + len / 4 * 16
