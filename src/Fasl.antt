-- ===== src/Fasl.antt =====
-- The reader of object files, src/ikarus-fasl.c: what it makes, and its port. An address is the
-- index of an object among those that were allocated, which are contiguous where the code asks for
-- several at once.
pub mod Port
pub mod Relocate
pub mod Objects
pub mod Read
pub mod Load
pub mod Ensures
pub mod Consumes
pub mod Parts
pub mod Bounds
pub mod Total
pub mod Write
pub mod Holds
pub mod Input
pub mod Stored
pub mod Pairs
pub mod Leaves
pub mod RoundTrip
use ikarus.Base.{ℕ, ◌+◌, List, Option, none, some}
use ikarus.Symbols.{Pcb}

-- A word with an immediate in it, an object, a symbol, or memory that was not written.
pub data Value : Type 0 where
  immediate : ℕ → Value
  object : ℕ → Value
  symbol : ℕ → Value
  unwritten : Value

pub record Code : Type 0 where
  pub size : ℕ
  pub freevars : ℕ
  pub annotation : Value
  pub reloc_vector : Value
  pub data_bytes : List ℕ

pub record Rtd : Type 0 where
  pub name : Value
  pub length : ℕ
  pub fields : Value
  pub symbol_of : Value

-- The objects behind their tags. The elements of a string are those of `ikchar`; a bignum has its
-- header and its data in bytes.
pub data Object : Type 0 where
  pair : Value → Value → Object
  string : List ℕ → Object
  vector : List Value → Object
  bytevector : List ℕ → Object
  flonum : List ℕ → Object
  bignum : ℕ → List ℕ → Object
  compnum cflonum : Value → Value → Object
  closure : Value → Object
  code : Code → Object
  rtd : Rtd → Object

-- What outlives the reading of a file. `values` are the values that were stored in symbols.
pub record Store : Type 0 where
  pub heap : List Object
  pub pcb : Pcb
  pub values : List (ℕ × Value)

-- `input` are the bytes from memp up to memq; the marks are empty before the first one is set.
pub record FaslPort : Type 0 where
  pub input : List ℕ
  pub marks : List (Option Value)
  pub store : Store

-- What the reader depends on: the memory of new symbol tables, the address of a value, and dlsym.
pub record Env : Type 0 where
  pub symbol_memory : ℕ
  pub gensym_memory : ℕ
  pub address : Value → ℕ
  pub dlsym : List ℕ → Option ℕ

-- The calls of exit(-1), and what C leaves undefined: a length that is negative or does not fit an
-- int, a mark outside the marks, an object of another type, a write outside a code object; and the run of an
-- object that does not come back.
pub data Stop : Type 0 where
  beyond_eof invalid_index mark_too_big mark_set no_mark invalid_length invalid_type : Stop
  invalid_header unset_reloc foreign_name no_foreign_name : Stop
  bad_length mark_outside wrong_object outside_code symbol_fault : Stop
  not_returned : Stop

pub data Outcome {ℓ} (A : Type ℓ) : Type ℓ where
  ok : A → Outcome A
  stop : Stop → Outcome A
  out_of_fuel : Outcome A

abbrev pub bind {ℓ κ} : {A : Type ℓ} {B : Type κ} → Outcome A → (A → Outcome B) → Outcome B
bind (ok a) f = f a
bind (stop e) f = stop e
bind out_of_fuel f = out_of_fuel
