-- ===== src/Symbols/Maps.antt =====
-- The two maps that the process control block keeps, from strings to symbols.
use ikarus.Base.{
  ℕ, ◌≡◌, ◌≢◌, refl, arith, List, [], ◌∷◌, ◌++◌, Option, none, some, false, ◌==◌, length, get_elem?,
  set, get_elem?_in, get_elem?-append_last, get_elem?-set, inl, inr, Bool-cases,
}
use ikarus.Symbols.Chain.{
  string_of, string_of-some, IsChain-string, InChain, lookup-frame, IsChain-frame,
}
use ikarus.Symbols.Place.{IsTable, view, home}
use ikarus.Symbols.{Field, Symbol, Table, Slot, unmade, dead, made, Pcb, bucket}

abbrev pub name_of : Pcb → ℕ → Option (List ℕ)
name_of pcb = string_of (λ r. r.name) pcb.symbols

abbrev pub ustring_of : Pcb → ℕ → Option (List ℕ)
ustring_of pcb = string_of (λ r. r.ustring) pcb.symbols

abbrev pub IsSlot : (ℕ → Option (List ℕ)) → Slot → Type 0
IsSlot f (made st) = IsTable f st
IsSlot f unmade = Unit {0}
IsSlot f dead = Unit {0}

abbrev pub slot_view : (ℕ → Option (List ℕ)) → Slot → List ℕ → Option ℕ
slot_view f (made st) str = view f st str
slot_view f unmade str = none
slot_view f dead str = none

-- The symbols under their names, and the gensyms under their unique strings.
unfoldable pub symbol_map : Pcb → List ℕ → Option ℕ
symbol_map pcb = slot_view (name_of pcb) pcb.symbol_table

unfoldable pub gensym_map : Pcb → List ℕ → Option ℕ
gensym_map pcb = slot_view (ustring_of pcb) pcb.gensym_table

-- Both tables are in order, and the gensym table has not been given away.
pub record IsPcb (pcb : Pcb) : Type 0 where
  pub symbols_lem : IsSlot (name_of pcb) pcb.symbol_table
  pub gensyms_lem : IsSlot (ustring_of pcb) pcb.gensym_table
  pub live : pcb.gensym_table ≢ dead

-- Symbols that no bucket holds do not matter.
module _ (f g : ℕ → Option (List ℕ)) where
  IsTable-frame :
      (st : Table)
      → IsTable f st
      → ((j t : ℕ) → InChain t (bucket st j) → g t ≡ f t)
      → IsTable g st × ((q : List ℕ) → view g st q ≡ view f st q)
  unfolding view
  IsTable-frame st h same = (
    record {
      width = h.width;
      chains = λ j. IsChain-frame f g home j (bucket st j) (h.chains j) (same j);
    },
    λ q. lookup-frame f g q (bucket st (home q)) (same (home q)),
  )

  unfoldable pub Keeps : Slot → Type 0
  Keeps slot = IsSlot g slot × ((q : List ℕ) → slot_view g slot q ≡ slot_view f slot q)

-- A new symbol leaves the strings of those in a table alone.
pub append_same :
    (field : Symbol → Field) (symbols : List Symbol) (r : Symbol) (st : Table)
    → IsTable (string_of field symbols) st
    → (j t : ℕ) → InChain t (bucket st j)
    → string_of field (symbols ++ r ∷ []) t ≡ string_of field symbols t
append_same field symbols r st h j t m =
    let (u, has, _) =
      IsChain-string home j (string_of field symbols) (bucket st j) t (h.chains j) m in
    let (_, got, _) = string_of-some field symbols t u has in
    let lt = get_elem?_in symbols t _ got in
    let other : (t == length symbols) ≡ false = ground arith in
    rw (get_elem?-append_last symbols r t, other)

pub append-Keeps :
    (field : Symbol → Field) (symbols : List Symbol) (r : Symbol) (slot : Slot)
    → IsSlot (string_of field symbols) slot
    → Keeps (string_of field symbols) (string_of field (symbols ++ r ∷ [])) slot
unfolding Keeps
append-Keeps field symbols r unmade h = (tt, λ q. refl)
append-Keeps field symbols r dead h = (tt, λ q. refl)
append-Keeps field symbols r (made st) h =
    IsTable-frame (string_of field symbols) (string_of field (symbols ++ r ∷ [])) st h
      (append_same field symbols r st h)

-- A changed symbol has the strings of before in a field that is left alone.
pub set-Keeps :
    (field : Symbol → Field) (symbols : List Symbol) (s : ℕ) (r r' : Symbol) (slot : Slot)
    → get_elem? symbols s ≡ some r
    → field r' ≡ field r
    → IsSlot (string_of field symbols) slot
    → Keeps (string_of field symbols) (string_of field (set symbols s r')) slot
unfolding Keeps
set-Keeps field symbols s r r' unmade got same h = (tt, λ q. refl)
set-Keeps field symbols s r r' dead got same h = (tt, λ q. refl)
set-Keeps field symbols s r r' (made st) got same h =
    IsTable-frame (string_of field symbols) (string_of field (set symbols s r')) st h
      (λ j t m. set_same t)
  where
    set_same : (t : ℕ) → string_of field (set symbols s r') t ≡ string_of field symbols t
    set_same t =
        rw (get_elem?-set symbols s t r' (get_elem?_in symbols s r got))
          (elim (Bool-cases (t == s)) [
            | inl e ↦ let is : t ≡ s = ground arith in rw (e, is, got, same)
            | inr e ↦ rw e
          ])
