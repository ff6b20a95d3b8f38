-- ===== src/Symbols.antt =====
-- The symbol tables of src/ikarus-symbol-table.c. A pointer to a symbol is its index among the
-- symbols that were made; the pairs of a bucket, which nothing else points to, are a list.
pub mod Chain
pub mod Unlink
pub mod Place
pub mod Maps
pub mod Intern
pub mod Interned
pub mod Laws
pub mod Gensym
pub mod Unintern
pub mod History
pub mod Dirty
use ikarus.Base.{
  ℕ, zero, suc, ◌+◌, ◌*◌, ◌/◌, ◌%◌, List, [], ◌∷◌, ◌++◌, Option, none, some, Bool, true, false,
  ◌&&◌, length, get_or, get_elem?, set, replicate, ◌==◌, if◌then◌else◌,
}
use ikarus.Hash.{compute_hash}

-- What a field of a symbol holds. A string is given by its elements.
pub data Field : Type 0 where
  string : List ℕ → Field
  unbound_object null_object false_object true_object : Field

pub record Symbol : Type 0 where
  pub name : Field
  pub ustring : Field
  pub value : Field
  pub proc : Field
  pub plist : Field

-- `base` is the address of the vector's memory.
pub record Table : Type 0 where
  pub base : ℕ
  pub buckets : List (List ℕ)

-- A table, 0 before it is made, or #f after it is given away.
pub data Slot : Type 0 where
  unmade : Slot
  dead : Slot
  made : Table → Slot

-- The part of the process control block that this file uses. `dirty` are the indices of the dirty
-- vector that were written.
pub record Pcb : Type 0 where
  pub symbols : List Symbol
  pub symbol_table : Slot
  pub gensym_table : Slot
  pub dirty : List ℕ

-- The reads that C leaves undefined, and exit(-1) on a dead symbol table.
pub data Fault : Type 0 where
  no_such_symbol not_a_string not_a_table dead_symbol_table : Fault

pub data Outcome {ℓ} (A : Type ℓ) : Type ℓ where
  ok : A → Outcome A
  fault : Fault → Outcome A

infixl 5 ◌>>=◌
abbrev pub ◌>>=◌ {ℓ κ} : {A : Type ℓ} {B : Type κ} → Outcome A → (A → Outcome B) → Outcome B
ok a >>= f = f a
fault e >>= f = fault e

abbrev pub deref : List Symbol → ℕ → Outcome Symbol
deref symbols sym = elim (get_elem? symbols sym) [ some r ↦ ok r | none ↦ fault no_such_symbol ]

abbrev pub as_string : Field → Outcome (List ℕ)
as_string (string str) = ok str
as_string unbound_object = fault not_a_string
as_string null_object = fault not_a_string
as_string false_object = fault not_a_string
as_string true_object = fault not_a_string

-- NUM_OF_BUCKETS, a power of two.
pub num_of_buckets : ℕ
num_of_buckets = 4096

-- `mem` is the memory that `ik_mmap_ptr` returns.
pub make_symbol_table : ℕ → Table
unfolding num_of_buckets
make_symbol_table mem = record { base = mem; buckets = replicate num_of_buckets [] }

-- The loop of memcmp, on strings of one length.
pub equal_elements : List ℕ → List ℕ → Bool
equal_elements [] ys = true
equal_elements (x ∷ xs) [] = true
equal_elements (x ∷ xs) (y ∷ ys) = x == y && equal_elements xs ys

pub strings_eqp : List ℕ → List ℕ → Bool
unfolding equal_elements
strings_eqp str1 str2 = if length str1 == length str2 then equal_elements str1 str2 else false

-- The new symbol is the last one.
pub ik_make_symbol : Field → Field → Pcb → ℕ × Pcb
ik_make_symbol str ustr pcb =
    let sym : Symbol = record {
      name = str;
      ustring = ustr;
      value = unbound_object;
      proc = str;
      plist = null_object;
    } in
    (length pcb.symbols, record pcb { symbols = pcb.symbols ++ sym ∷ [] })

-- `h & (n - 1)`, for a power of two n.
pub bucket_index : List ℕ → Table → ℕ
bucket_index str st = compute_hash str % length st.buckets

abbrev pub bucket : Table → ℕ → List ℕ
bucket st idx = get_or st.buckets idx []

-- The loops over a bucket that compare the strings in one field of the symbols.
pub find_symbol : (Symbol → Field) → List Symbol → List ℕ → List ℕ → Outcome (Option ℕ)
unfolding strings_eqp
find_symbol field symbols str [] = ok none
find_symbol field symbols str (sym ∷ b) = do
  r ← deref symbols sym
  sym_str ← as_string (field r)
  if strings_eqp sym_str str then ok (some sym) else find_symbol field symbols str b

-- `page_index` of the bucket's address, which lies one word above the vector's memory.
abbrev pub bucket_page : Table → ℕ → ℕ
bucket_page st idx = (st.base + 8 + idx * 8) / 4096

-- A pair for `sym` goes in front of the bucket, whose page is marked.
pub push_symbol : ℕ → ℕ → Table → Pcb → Table × Pcb
push_symbol idx sym st pcb = (
  record st { buckets = set st.buckets idx (sym ∷ bucket st idx) },
  record pcb { dirty = bucket_page st idx ∷ pcb.dirty },
)

pub intern_string : List ℕ → Table → Pcb → Outcome (ℕ × Table × Pcb)
unfolding bucket_index find_symbol ik_make_symbol push_symbol
intern_string str st pcb =
    let idx = bucket_index str st in
    do
      found ← find_symbol (λ r. r.name) pcb.symbols str (bucket st idx)
      elim found [
        | some sym ↦ ok (sym, st, pcb)
        | none ↦
            let (sym, pcb') = ik_make_symbol (string str) false_object pcb in
            let (st', pcb'') = push_symbol idx sym st pcb' in ok (sym, st', pcb'')
      ]

pub intern_unique_string : Field → List ℕ → Table → Pcb → Outcome (ℕ × Table × Pcb)
unfolding bucket_index find_symbol ik_make_symbol push_symbol
intern_unique_string str ustr st pcb =
    let idx = bucket_index ustr st in
    do
      found ← find_symbol (λ r. r.ustring) pcb.symbols ustr (bucket st idx)
      elim found [
        | some sym ↦ ok (sym, st, pcb)
        | none ↦
            let (sym, pcb') = ik_make_symbol str (string ustr) pcb in
            let (st', pcb'') = push_symbol idx sym st pcb' in ok (sym, st', pcb'')
      ]

-- The gensym table, which is made where there is none; it is never #f.
pub open_table : ℕ → Slot → Outcome Table
unfolding make_symbol_table
open_table mem unmade = ok (make_symbol_table mem)
open_table mem (made st) = ok st
open_table mem dead = fault not_a_table

-- The symbol table, which is made where there is none, and exit(-1) once it is given away.
pub live_table : ℕ → Slot → Outcome Table
unfolding make_symbol_table
live_table mem unmade = ok (make_symbol_table mem)
live_table mem (made st) = ok st
live_table mem dead = fault dead_symbol_table

pub ikrt_string_to_symbol : ℕ → List ℕ → Pcb → Outcome (ℕ × Pcb)
unfolding intern_string live_table
ikrt_string_to_symbol mem str pcb = do
  table ← live_table mem pcb.symbol_table
  (sym, st, pcb') ← intern_string str table pcb
  ok (sym, record pcb' { symbol_table = made st })

pub ik_intern_string : ℕ → List ℕ → Pcb → Outcome (ℕ × Pcb)
unfolding ikrt_string_to_symbol
ik_intern_string mem str pcb = ikrt_string_to_symbol mem str pcb

pub ikrt_strings_to_gensym : ℕ → Field → List ℕ → Pcb → Outcome (ℕ × Pcb)
unfolding intern_unique_string open_table
ikrt_strings_to_gensym mem str ustr pcb = do
  table ← open_table mem pcb.gensym_table
  (sym, st, pcb') ← intern_unique_string str ustr table pcb
  ok (sym, record pcb' { gensym_table = made st })

pub ikrt_intern_gensym : ℕ → ℕ → Pcb → Outcome (Bool × Pcb)
unfolding open_table bucket_index find_symbol push_symbol
ikrt_intern_gensym mem sym pcb = do
  table ← open_table mem pcb.gensym_table
  r ← deref pcb.symbols sym
  ustr ← as_string r.ustring
  let idx = bucket_index ustr table
  found ← find_symbol (λ r. r.ustring) pcb.symbols ustr (bucket table idx)
  elim found [
    | some other ↦ ok (false, record pcb { gensym_table = made table })
    | none ↦
        let (st, pcb') = push_symbol idx sym table pcb in
        ok (true, record pcb' { gensym_table = made st })
  ]

-- The loop of `ikrt_unintern_gensym`: the bucket without the first pair that holds `sym`.
pub unlink : ℕ → List ℕ → Option (List ℕ)
unlink sym [] = none
unlink sym (s ∷ b) =
    let rest = unlink sym b in
    if s == sym then some b else elim rest [ some b' ↦ some (s ∷ b') | none ↦ none ]

-- `ikrt_unintern_gensym` on a table, for a symbol with the fields `r` and the unique string `field`.
pub unintern_from : ℕ → Symbol → Field → Table → Pcb → Outcome (Bool × Pcb)
unfolding bucket_index unlink
unintern_from sym r field st pcb = elim field [
  | string ustr ↦
      let idx = bucket_index ustr st in
      elim (unlink sym (bucket st idx)) [
        | some b ↦ ok (
          true,
          record pcb {
            symbols = set pcb.symbols sym (record r { ustring = true_object });
            gensym_table = made (record st { buckets = set st.buckets idx b });
          },
        )
        | none ↦ ok (false, pcb)
      ]
  | other ↦ ok (false, pcb)
]

pub unintern_gensym : ℕ → Slot → Pcb → Outcome (Bool × Pcb)
unfolding unintern_from
unintern_gensym sym unmade pcb = ok (false, pcb)
unintern_gensym sym dead pcb = fault not_a_table
unintern_gensym sym (made st) pcb = do
  r ← deref pcb.symbols sym
  unintern_from sym r r.ustring st pcb

pub ikrt_unintern_gensym : ℕ → Pcb → Outcome (Bool × Pcb)
unfolding unintern_gensym
ikrt_unintern_gensym sym pcb = unintern_gensym sym pcb.gensym_table pcb

pub ikrt_get_symbol_table : Pcb → Outcome (Slot × Pcb)
ikrt_get_symbol_table pcb = elim pcb.symbol_table [
  | dead ↦ fault dead_symbol_table
  | other ↦ ok (pcb.symbol_table, record pcb { symbol_table = dead })
]
