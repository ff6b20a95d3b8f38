-- ===== src/Symbols/Laws.antt =====
-- `ikrt_string_to_symbol` and `ikrt_strings_to_gensym` return the symbol of a string.
use ikarus.Base.{ℕ, ◌≡◌, ◌≢◌, refl, sym, List, Option, ◌⊎◌, inl, inr}
use ikarus.Symbols.Intern.{Returns, new_symbol}
use ikarus.Symbols.Interned.{
  Reads, make_symbol_table-Reads, Interns, intern_symbol, intern_gensym_string,
}
use ikarus.Symbols.Maps.{name_of, ustring_of, IsSlot, slot_view, symbol_map, gensym_map, IsPcb}
use ikarus.Symbols.{
  Field, string, false_object, Table, Slot, unmade, dead, made, Pcb, ok, fault, dead_symbol_table,
  make_symbol_table, open_table, live_table, ikrt_string_to_symbol, ikrt_strings_to_gensym,
  ikrt_get_symbol_table,
}

pub Slot-cases :
    (slot : Slot) → (slot ≡ unmade) ⊎ ((slot ≡ dead) ⊎ ((st : Table) × (slot ≡ made st)))
Slot-cases unmade = inl refl
Slot-cases dead = inr (inl refl)
Slot-cases (made st) = inr (inr (st, refl))

-- The table that a call works on reads as the slot did.
pub open_table-Reads :
    (f : ℕ → Option (List ℕ)) (mem : ℕ) (slot : Slot)
    → IsSlot f slot
    → slot ≢ dead
    → (st : Table) × (open_table mem slot ≡ ok st) × Reads f (slot_view f slot) st
unfolding open_table
open_table-Reads f mem unmade h live = (make_symbol_table mem, refl, make_symbol_table-Reads f mem)
open_table-Reads f mem dead h live = absurd (live refl)
open_table-Reads f mem (made st) h live = (st, refl, record { is_table = h; reads = λ q. refl })

live_table-Reads :
    (f : ℕ → Option (List ℕ)) (mem : ℕ) (slot : Slot)
    → IsSlot f slot
    → slot ≢ dead
    → (st : Table) × (live_table mem slot ≡ ok st) × Reads f (slot_view f slot) st
unfolding live_table
live_table-Reads f mem unmade h live = (make_symbol_table mem, refl, make_symbol_table-Reads f mem)
live_table-Reads f mem dead h live = absurd (live refl)
live_table-Reads f mem (made st) h live = (st, refl, record { is_table = h; reads = λ q. refl })

-- Unless the symbol table has been given away, `ikrt_string_to_symbol` returns the symbol that is
-- stored under the string, or a new one that it stores. The other entries and the gensyms stay.
pub ikrt_string_to_symbol-Interns :
    (mem : ℕ) (str : List ℕ) (pcb : Pcb)
    → IsPcb pcb
    → pcb.symbol_table ≢ dead
    → Returns
        (ikrt_string_to_symbol mem str pcb)
        (Interns symbol_map gensym_map (new_symbol (string str) false_object) pcb str)
unfolding ikrt_string_to_symbol symbol_map
ikrt_string_to_symbol-Interns mem str pcb h live =
    let (st, opens, reads) =
      live_table-Reads (name_of pcb) mem pcb.symbol_table h.symbols_lem live in
    rw opens (intern_symbol pcb h str st reads)

-- `ikrt_strings_to_gensym` returns the gensym that is stored under the unique string, or a new one
-- that it stores. The other entries and the symbols stay.
pub ikrt_strings_to_gensym-Interns :
    (mem : ℕ) (str : Field) (ustr : List ℕ) (pcb : Pcb)
    → IsPcb pcb
    → Returns
        (ikrt_strings_to_gensym mem str ustr pcb)
        (Interns gensym_map symbol_map (new_symbol str (string ustr)) pcb ustr)
unfolding ikrt_strings_to_gensym gensym_map
ikrt_strings_to_gensym-Interns mem str ustr pcb h =
    let (st, opens, reads) =
      open_table-Reads (ustring_of pcb) mem pcb.gensym_table h.gensyms_lem h.live in
    rw opens (intern_gensym_string pcb h str ustr st reads)

-- Once the symbol table has been given away, no string can be made a symbol any more, and the table
-- cannot be given away again.
pub ikrt_get_symbol_table_dead :
    (pcb : Pcb)
    → pcb.symbol_table ≢ dead
    → Returns (ikrt_get_symbol_table pcb) λ r.
      (r.0 ≡ pcb.symbol_table)
      × ((mem : ℕ) (str : List ℕ) → ikrt_string_to_symbol mem str r.1 ≡ fault dead_symbol_table)
      × (ikrt_get_symbol_table r.1 ≡ fault dead_symbol_table)
unfolding ikrt_get_symbol_table ikrt_string_to_symbol live_table
ikrt_get_symbol_table_dead pcb live = elim (Slot-cases pcb.symbol_table) [
  | inl e ↦ ((unmade, record pcb { symbol_table = dead }), rw e, (sym e, λ mem str. refl, refl))
  | inr (inl e) ↦ absurd (live e)
  | inr (inr (st, e)) ↦
      ((made st, record pcb { symbol_table = dead }), rw e, (sym e, λ mem str. refl, refl))
]

-- Unless the symbol table has been given away, `ikrt_string_to_symbol` returns the symbol that is
-- stored under the string, or a new one that it stores; `ikrt_strings_to_gensym` returns the gensym
-- that is stored under the unique string, or a new one that it stores. The other entries of the
-- tables stay.
pub both_tables-Interns :
    (mem : ℕ) (str : List ℕ) (field : Field) (ustr : List ℕ) (pcb : Pcb)
    → IsPcb pcb
    → pcb.symbol_table ≢ dead
    → Returns
        (ikrt_string_to_symbol mem str pcb)
        (Interns symbol_map gensym_map (new_symbol (string str) false_object) pcb str)
      × Returns
          (ikrt_strings_to_gensym mem field ustr pcb)
          (Interns gensym_map symbol_map (new_symbol field (string ustr)) pcb ustr)
both_tables-Interns mem str field ustr pcb h live = (
  ikrt_string_to_symbol-Interns mem str pcb h live,
  ikrt_strings_to_gensym-Interns mem field ustr pcb h,
)
