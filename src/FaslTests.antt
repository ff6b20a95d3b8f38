-- ===== src/FaslTests.antt =====
-- The reader of object files on concrete bytes.
use ikarus.Fasl.Relocate.{bytes_of}
use ikarus.Base.{true, length, ◌<◌, ℕ, ◌≢◌, arith, List, [], ◌∷◌, ◌++◌, none, some}
use ikarus.Fasl.Consumes.{Takes}
use ikarus.Fasl.Ensures.{Ensures}
use ikarus.Fasl.Load.{fasl_header, ik_fasl_load}
use ikarus.Fasl.Read.{do_read}
use ikarus.Fasl.RoundTrip.{do_read-write}
use ikarus.Fasl.Stored.{Reading, after}
use ikarus.Fasl.Total.{do_read-Ensures, ik_fasl_load_has_fuel}
use ikarus.Fasl.{Env, Store, FaslPort, out_of_fuel}
use ikarus.Fasl.Write.{Datum, Data, write, IsDatum, list_prefix}
use ikarus.Symbols.{unmade}

abbrev env : Env
env = record { symbol_memory = 0; gensym_memory = 0; address = λ v. 0; dlsym = λ name. none }

abbrev empty_store : Store
empty_store = record {
  heap = [];
  pcb = record { symbols = []; symbol_table = unmade; gensym_table = unmade; dirty = [] };
  values = [];
}

-- (#t . (#\A . mark 1)), where the first pair has the mark 1.
abbrev pair_bytes : List ℕ
pair_bytes = 62 ∷ 1 ∷ 0 ∷ 0 ∷ 0 ∷ 80 ∷ 84 ∷ 80 ∷ 99 ∷ 65 ∷ 60 ∷ 1 ∷ 0 ∷ 0 ∷ 0 ∷ []

abbrev pair_port : FaslPort
pair_port = record { input = pair_bytes; marks = []; store = empty_store }

do_read-Ensures_example : Ensures (Takes 1 (do_read env 16) pair_port) (do_read env 16 pair_port)
do_read-Ensures_example = do_read-Ensures env 16 pair_port (omega arith)

-- Two objects, #t and ().
abbrev two_objects : List ℕ
two_objects = fasl_header ++ 84 ∷ fasl_header ++ 78 ∷ []

ik_fasl_load_has_fuel_example :
    ik_fasl_load env (λ v store. some store) 14 two_objects empty_store ≢ out_of_fuel
ik_fasl_load_has_fuel_example =
    ik_fasl_load_has_fuel env (λ v store. some store) two_objects empty_store

-- (#t 1 . ("a")), where the last pair of the list has its own type.
abbrev some_datum : Datum
some_datum =
    Datum.pair (Datum.boolean true)
      (Datum.list (Data.item (Datum.fixnum 8) (Data.last (Datum.ascii (97 ∷ [])) Datum.null)))

some_datum-IsDatum : IsDatum some_datum
unfolding IsDatum
some_datum-IsDatum = (tt, (omega arith, (omega arith, (omega arith, tt))))

some_datum-short : length (write some_datum) < 64
unfolding write list_prefix bytes_of
some_datum-short = omega arith

do_read-write_example :
    Reading
      (do_read env 64 (after (write some_datum ++ 78 ∷ []) [] pair_port))
      (78 ∷ [])
      []
      pair_port
      some_datum
do_read-write_example =
    do_read-write env some_datum some_datum-IsDatum 64 some_datum-short (78 ∷ []) [] pair_port
