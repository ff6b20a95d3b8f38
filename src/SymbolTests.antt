-- ===== src/SymbolTests.antt =====
-- The theorems on the symbol tables at concrete strings.
use ikarus.Base.{ℕ, ◌≡◌, ◌≢◌, refl, List, [], ◌∷◌, none, true, ◌↔◌}
use ikarus.Symbols.Dirty.{Marks, intern_string-Marks}
use ikarus.Symbols.Gensym.{InternsGensym, ikrt_intern_gensym-InternsGensym}
use ikarus.Symbols.History.{here, IsLive, ikrt_string_to_symbol_eq}
use ikarus.Symbols.Intern.{Returns, new_symbol}
use ikarus.Symbols.Interned.{Interns}
use ikarus.Symbols.Laws.{
  ikrt_string_to_symbol-Interns, both_tables-Interns, ikrt_get_symbol_table_dead,
}
use ikarus.Symbols.Place.{make_symbol_table-IsTable}
use ikarus.Symbols.Maps.{name_of, ustring_of, symbol_map, gensym_map, IsPcb}
use ikarus.Symbols.Unintern.{
  Uninterns, ikrt_unintern_gensym-Uninterns, ikrt_unintern_gensym-ikrt_intern_gensym,
}
use ikarus.Symbols.{
  string, false_object, Symbol, unmade, dead, Pcb, ◌>>=◌, fault, dead_symbol_table,
  ikrt_string_to_symbol, ikrt_strings_to_gensym, ikrt_intern_gensym, ikrt_unintern_gensym,
  ikrt_get_symbol_table, make_symbol_table, intern_string, intern_unique_string,
}

-- "a" and "b", each character over the tag of characters.
abbrev a_string : List ℕ
a_string = 24847 ∷ []

abbrev b_string : List ℕ
b_string = 25103 ∷ []

-- A gensym with the unique string "a", and no table yet.
abbrev a_gensym : Symbol
a_gensym = new_symbol false_object (string a_string)

abbrev start : Pcb
start = record { symbols = a_gensym ∷ []; symbol_table = unmade; gensym_table = unmade; dirty = [] }

unmade_not_dead : unmade ≢ dead
unmade_not_dead e = cc

start-IsPcb : IsPcb start
start-IsPcb = record { symbols_lem = tt; gensyms_lem = tt; live = unmade_not_dead }

start-IsLive : IsLive start
start-IsLive = record { valid = start-IsPcb; in_use = unmade_not_dead }

no_gensym : gensym_map start a_string ≡ none
unfolding gensym_map
no_gensym = refl

ikrt_get_symbol_table_dead_example : Returns (ikrt_get_symbol_table start) λ r.
    (r.0 ≡ start.symbol_table)
    × ((mem : ℕ) (str : List ℕ) → ikrt_string_to_symbol mem str r.1 ≡ fault dead_symbol_table)
    × (ikrt_get_symbol_table r.1 ≡ fault dead_symbol_table)
ikrt_get_symbol_table_dead_example = ikrt_get_symbol_table_dead start unmade_not_dead

ikrt_intern_gensym-InternsGensym_example :
    Returns (ikrt_intern_gensym 4096 0 start) (InternsGensym 0 a_string start)
ikrt_intern_gensym-InternsGensym_example =
    ikrt_intern_gensym-InternsGensym 4096 0 a_gensym a_string start start-IsPcb refl refl

ikrt_unintern_gensym-Uninterns_example :
    Returns (ikrt_unintern_gensym 0 start) (Uninterns 0 a_string start)
ikrt_unintern_gensym-Uninterns_example =
    ikrt_unintern_gensym-Uninterns 0 a_gensym a_string start start-IsPcb refl refl

ikrt_unintern_gensym-ikrt_intern_gensym_example :
    Returns
      (ikrt_intern_gensym 4096 0 start >>= λ (b, pcb'). ikrt_unintern_gensym 0 pcb')
      λ t. (t.0 ≡ true) × ((q : List ℕ) → gensym_map t.1 q ≡ gensym_map start q)
ikrt_unintern_gensym-ikrt_intern_gensym_example =
    ikrt_unintern_gensym-ikrt_intern_gensym 4096 0 a_gensym a_string start start-IsPcb refl refl
      no_gensym

first :
    Returns
      (ikrt_string_to_symbol 4096 a_string start)
      (Interns symbol_map gensym_map (new_symbol (string a_string) false_object) start a_string)
first = ikrt_string_to_symbol-Interns 4096 a_string start start-IsPcb unmade_not_dead

second :
    Returns
      (ikrt_string_to_symbol 8192 b_string first.0.1)
      (Interns symbol_map gensym_map (new_symbol (string b_string) false_object) first.0.1 b_string)
second =
    ikrt_string_to_symbol-Interns 8192 b_string first.0.1 first.2.valid
      (first.2.in_use unmade_not_dead)

ikrt_string_to_symbol_eq_example : (first.0.0 ≡ second.0.0) ↔ (a_string ≡ b_string)
ikrt_string_to_symbol_eq_example =
    ikrt_string_to_symbol_eq start first.0.1 first.0.1 second.0.1 4096 8192 a_string b_string
      first.0.0 second.0.0 start-IsLive first.1 here second.1

intern_string-Marks_example :
    Returns
      (intern_string a_string (make_symbol_table 4096) start)
      (Marks (make_symbol_table 4096) start)
    × Returns
        (intern_unique_string false_object b_string (make_symbol_table 8192) start)
        (Marks (make_symbol_table 8192) start)
intern_string-Marks_example =
    intern_string-Marks a_string b_string false_object (make_symbol_table 4096)
      (make_symbol_table 8192) start (make_symbol_table-IsTable (name_of start) 4096).0
      (make_symbol_table-IsTable (ustring_of start) 8192).0

both_tables-Interns_example :
    Returns
      (ikrt_string_to_symbol 4096 a_string start)
      (Interns symbol_map gensym_map (new_symbol (string a_string) false_object) start a_string)
    × Returns
        (ikrt_strings_to_gensym 4096 false_object b_string start)
        (Interns gensym_map symbol_map (new_symbol false_object (string b_string)) start b_string)
both_tables-Interns_example =
    both_tables-Interns 4096 a_string false_object b_string start start-IsPcb unmade_not_dead
