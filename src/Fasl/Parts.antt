-- ===== src/Fasl/Parts.antt =====
-- The parts of the branches of `do_read` take their bytes from the input.
use ikarus.Base.{
  ℕ, zero, suc, ◌+◌, refl, arith, List, [], ◌∷◌, ◌++◌, length, false, length-append, get_elem?, leb,
  ◌==◌, Option, none, some,
}
use ikarus.Base.Int.{ℤ, pos, negsuc, eq_ℤ}
use ikarus.Fasl.Consumes.{
  Reads, pure-Reads, fails-Reads, then-Reads, if-Reads, put_mark-Reads, allocate-Reads,
  write_object-Reads, read_object-Reads, same_input,
}
use ikarus.Fasl.Ensures.{Ensures, holds, stopped, Ensures-if, Ensures-bind}
use ikarus.Fasl.Objects.{
  read_many, marked, elements, name_field, name_of, interned, on_tables, ik_relocate_code,
  read_elements, read_cars, read_pair_at, read_fields, is_flonum, make_rtd, rtd_of, symbol_value,
}
use ikarus.Fasl.Port.{Reader}
use ikarus.Fasl.Relocate.{
  Kind, word_of, has_two, kind_of, relocate, relocate_two, relocate_three, store_bytes,
  foreign_address, name_bytes, found_name,
}
use ikarus.Fasl
use ikarus.Fasl.{Value, Object, Env, Code, Rtd, Outcome, wrong_object}
use ikarus.Symbols
use ikarus.Word.{unfix}

pub read_many-Reads {ℓ} :
    {A : Type ℓ} (n : ℕ) (m : Reader A) (k : ℕ) → Reads n 0 m → Reads n 0 (read_many m k)
unfolding read_many
read_many-Reads n m zero h = pure-Reads n []
read_many-Reads n m (suc k) h =
    then-Reads n m _ h
      λ a. then-Reads n (read_many m k) _ (read_many-Reads n m k h) λ rest. pure-Reads n (a ∷ rest)

pub marked-Reads : (n mark : ℕ) (o : Object) → Reads n 0 (marked mark o)
unfolding marked
marked-Reads n mark o = then-Reads n _ _ (allocate-Reads n (o ∷ [])) λ i.
    then-Reads n _ _ (put_mark-Reads n mark (Value.object i)) λ u. pure-Reads n (Value.object i)

pub elements-Reads : (n : ℕ) (o : Object) → Reads n 0 (elements o)
unfolding elements
elements-Reads n (Object.string s) = pure-Reads n s
elements-Reads n _ = fails-Reads n 0 wrong_object

name_field-Reads : (n : ℕ) (o : Object) → Reads n 0 (name_field o)
unfolding name_field
name_field-Reads n (Object.string s) = pure-Reads n (Symbols.string s)
name_field-Reads n _ = fails-Reads n 0 wrong_object

pub name_of-Reads : (n : ℕ) (v : Value) → Reads n 0 (name_of v)
unfolding name_of
name_of-Reads n (Value.object i) =
    then-Reads n _ _ (read_object-Reads n (Value.object i)) λ o. name_field-Reads n o
name_of-Reads n (Value.immediate w) =
    if-Reads n 0 (w == 47) _ _ (pure-Reads n Symbols.false_object) (fails-Reads n 0 wrong_object)
name_of-Reads n _ = fails-Reads n 0 wrong_object

interned-Reads : (n : ℕ) (r : Symbols.Outcome (ℕ × Symbols.Pcb)) → Reads n 0 (interned r)
unfolding interned
interned-Reads n (Symbols.ok x) p le = holds (same_input refl (omega arith), λ extra. refl)
interned-Reads n (Symbols.fault e) p le = stopped

pub on_tables-Reads :
    (n : ℕ) (f : Symbols.Pcb → Symbols.Outcome (ℕ × Symbols.Pcb)) → Reads n 0 (on_tables f)
unfolding on_tables
on_tables-Reads n f p le = interned-Reads n (f p.store.pcb) p le

store_bytes-Ensures :
    (bytes : List ℕ) (off : ℤ) (all : List ℕ) → Ensures (λ r. Unit {0}) (store_bytes bytes off all)
unfolding store_bytes
store_bytes-Ensures bytes (negsuc n) all = stopped
store_bytes-Ensures bytes (pos off) all =
    Ensures-if (leb (off + length bytes) (length all)) (λ e. holds tt) (λ e. stopped)

named-Ensures : (o : Option ℕ) → Ensures (λ r. Unit {0}) (found_name o)
unfolding found_name
named-Ensures (some s) = holds tt
named-Ensures none = stopped

name_bytes-Ensures : (env : Env) (o : Option Object) → Ensures (λ r. Unit {0}) (name_bytes env o)
unfolding name_bytes
name_bytes-Ensures env (some (Object.bytevector name)) = named-Ensures (env.dlsym name)
name_bytes-Ensures env _ = stopped

foreign_address-Ensures :
    (env : Env) (heap : List Object) (v : Value)
    → Ensures (λ r. Unit {0}) (foreign_address env heap v)
unfolding foreign_address
foreign_address-Ensures env heap (Value.object i) = name_bytes-Ensures env (get_elem? heap i)
foreign_address-Ensures env heap _ = stopped

two_words-Ensures :
    (env : Env) (heap : List Object) (k : Kind) (r : ℤ) (a : Value) (bytes : List ℕ)
    → Ensures (λ x. Unit {0}) (relocate_two env heap k r a bytes)
unfolding relocate_two
two_words-Ensures env heap Kind.vanilla r a bytes = store_bytes-Ensures _ _ bytes
two_words-Ensures env heap Kind.foreign r a bytes =
    Ensures-bind (foreign_address-Ensures env heap a) λ sym u. store_bytes-Ensures _ _ bytes
two_words-Ensures env heap Kind.displaced r a bytes = stopped
two_words-Ensures env heap Kind.jump_label r a bytes = stopped

three_words-Ensures :
    (env : Env) (d : ℕ) (k : Kind) (r : ℤ) (a b : Value) (bytes : List ℕ)
    → Ensures (λ x. Unit {0}) (relocate_three env d k r a b bytes)
unfolding relocate_three
three_words-Ensures env d Kind.vanilla r a b bytes = stopped
three_words-Ensures env d Kind.foreign r a b bytes = stopped
three_words-Ensures env d Kind.displaced r a b bytes = store_bytes-Ensures _ _ bytes
three_words-Ensures env d Kind.jump_label r a b bytes = store_bytes-Ensures _ _ bytes

relocate-Ensures :
    (env : Env) (heap : List Object) (d : ℕ) (vs : List Value) (bytes : List ℕ)
    → Ensures (λ r. Unit {0}) (relocate env heap d vs bytes)
unfolding relocate
relocate-Ensures env heap d [] bytes = holds tt
relocate-Ensures env heap d (v ∷ []) bytes =
    Ensures-if (eq_ℤ (unfix (word_of env v)) (pos 0)) (λ e. stopped) (λ e. stopped)
relocate-Ensures env heap d (v ∷ a ∷ []) bytes =
    Ensures-if (eq_ℤ (unfix (word_of env v)) (pos 0)) (λ e. stopped)
      (λ e. two_words-Ensures env heap _ _ a bytes)
relocate-Ensures env heap d (v ∷ a ∷ b ∷ rest) bytes =
    Ensures-if (eq_ℤ (unfix (word_of env v)) (pos 0)) (λ e. stopped)
      (λ e.
        Ensures-if (has_two (kind_of (unfix (word_of env v))))
          (λ f.
            Ensures-bind (two_words-Ensures env heap _ _ a bytes)
              λ r u. relocate-Ensures env heap d (b ∷ rest) r)
          (λ f.
            Ensures-bind (three_words-Ensures env d _ _ a b bytes)
              λ r u. relocate-Ensures env heap d rest r))

-- An outcome that does not depend on the port, and a reader behind it.
after_outcome {ℓ κ} :
    {A : Type ℓ} {B : Type κ} (n : ℕ) (r : Outcome A) (f : A → Reader B)
    → Ensures (λ a. Unit {0}) r
    → ((a : A) → Reads n 0 (f a))
    → Reads n 0 (λ p. Fasl.bind r (λ a. f a p))
after_outcome n _ f (holds {a} u) h p le = h a p le
after_outcome n _ f stopped h p le = stopped

pub ik_relocate_code-Reads :
    (n : ℕ) (env : Env) (i : ℕ) (c : Code) (o : Object) → Reads n 0 (ik_relocate_code env i c o)
unfolding ik_relocate_code
ik_relocate_code-Reads n env i c (Object.vector vs) p le =
    after_outcome n (relocate env p.store.heap _ vs c.data_bytes) _
      (relocate-Ensures env p.store.heap _ vs c.data_bytes) (λ bytes. write_object-Reads n i _) p le
ik_relocate_code-Reads n env i c _ p le = stopped

pub is_flonum-Reads : (n : ℕ) (v : Value) → Reads n 0 (is_flonum v)
unfolding is_flonum
is_flonum-Reads n (Value.object i) =
    then-Reads n _ _ (read_object-Reads n (Value.object i)) λ o. pure-Reads n _
is_flonum-Reads n _ = pure-Reads n false

make_rtd-Reads :
    (n : ℕ) (env : Env) (made : Rtd) (s : ℕ) (v : Option Value) → Reads n 0 (make_rtd env made s v)
unfolding make_rtd
make_rtd-Reads n env made s (some v) p le = holds (same_input refl (omega arith), λ extra. refl)
make_rtd-Reads n env made s none p le = holds (
  same_input refl (omega (arith, length-append p.store.heap (Object.rtd made ∷ []))),
  λ extra. refl,
)

pub rtd_of-Reads :
    (n : ℕ) (env : Env) (name : Value) (k : ℕ) (fields symb : Value)
    → Reads n 0 (rtd_of env name k fields symb)
unfolding rtd_of
rtd_of-Reads n env name k fields (Value.symbol s) p le =
    make_rtd-Reads n env _ s (symbol_value p.store.values s) p le
rtd_of-Reads n env name k fields _ p le = stopped

module _ (n : ℕ) (m : Reader Value) (h : Reads n 0 m) where
  pub read_elements-Reads :
      (i : ℕ) (done : List Value) (k : ℕ) → Reads n 0 (read_elements m i done k)
  unfolding read_elements
  read_elements-Reads i done zero = pure-Reads n tt
  read_elements-Reads i done (suc k) =
      then-Reads n _ _ h λ v.
        then-Reads n _ _ (write_object-Reads n i _) λ u. read_elements-Reads i (done ++ v ∷ []) k

  pub read_cars-Reads : (i k : ℕ) → Reads n 0 (read_cars m i k)
  unfolding read_cars
  read_cars-Reads i zero = pure-Reads n tt
  read_cars-Reads i (suc k) =
      then-Reads n _ _ h
        λ v. then-Reads n _ _ (write_object-Reads n i _) λ u. read_cars-Reads (i + 1) k

  pub read_pair_at-Reads : (i : ℕ) → Reads n 0 (read_pair_at m i)
  unfolding read_pair_at
  read_pair_at-Reads i = then-Reads n _ _ h λ car.
      then-Reads n _ _ (write_object-Reads n i _)
        λ u. then-Reads n _ _ h λ cdr. write_object-Reads n i _

  pub read_fields-Reads : (i k : ℕ) → Reads n 0 (read_fields m i k)
  unfolding read_fields
  read_fields-Reads i zero = pure-Reads n tt
  read_fields-Reads i (suc zero) = then-Reads n _ _ h λ v. write_object-Reads n i _
  read_fields-Reads i (suc (suc k)) =
      then-Reads n _ _ h
        λ v. then-Reads n _ _ (write_object-Reads n i _) λ u. read_fields-Reads (i + 1) (suc k)
