-- ===== src/Symbols/Intern.antt =====
-- What `intern_string` and `intern_unique_string` return.
use ikarus.Base.{ℕ, ◌≡◌, refl, List, [], ◌∷◌, ◌++◌, none, some, length}
use ikarus.Symbols.Chain.{string_of, find_symbol-lookup}
use ikarus.Symbols.Maps.{name_of, ustring_of}
use ikarus.Symbols.Place.{IsTable, view, home, bucket_index-home, set_bucket}
use ikarus.Symbols.{
  Field, string, unbound_object, null_object, false_object, Symbol, Table, Pcb, Outcome, ok, bucket,
  bucket_index, bucket_page, find_symbol, ik_make_symbol, push_symbol, intern_string,
  intern_unique_string,
}

-- The call ends without a fault.
abbrev pub Returns {ℓ} : {A : Type ℓ} → Outcome A → (A → Type 0) → Type ℓ
Returns {A = A} r P = (a : A) × (r ≡ ok a) × P a

-- The loop over the home bucket reads the table.
pub find_view :
    (field : Symbol → Field) (symbols : List Symbol) (str : List ℕ) (st : Table)
    → IsTable (string_of field symbols) st
    → find_symbol field symbols str (bucket st (bucket_index str st))
      ≡ ok (view (string_of field symbols) st str)
unfolding view
find_view field symbols str st h = rw (bucket_index-home (string_of field symbols) st str h) (
    find_symbol-lookup field symbols str home (home str) (bucket st (home str))
      (h.chains (home str)))

abbrev pub new_symbol : Field → Field → Symbol
new_symbol str ustr = record {
  name = str;
  ustring = ustr;
  value = unbound_object;
  proc = str;
  plist = null_object;
}

-- The table with the symbol in front of the string's bucket.
abbrev pub pushed : Table → List ℕ → ℕ → Table
pushed st str s = set_bucket st (home str) (s ∷ bucket st (home str))

abbrev pub grown : Pcb → Symbol → Table → List ℕ → Pcb
grown pcb r st str = record pcb {
  symbols = pcb.symbols ++ r ∷ [];
  dirty = bucket_page st (home str) ∷ pcb.dirty;
}

module _ (pcb : Pcb) (st : Table) where
  pub intern_string-known :
      (str : List ℕ) (s : ℕ)
      → IsTable (name_of pcb) st
      → view (name_of pcb) st str ≡ some s
      → intern_string str st pcb ≡ ok (s, st, pcb)
  unfolding intern_string
  intern_string-known str s h e = rw (find_view (λ r. r.name) pcb.symbols str st h, e)

  pub intern_string-fresh :
      (str : List ℕ)
      → IsTable (name_of pcb) st
      → view (name_of pcb) st str ≡ none
      → intern_string str st pcb
        ≡ ok (
          length pcb.symbols,
          pushed st str (length pcb.symbols),
          grown pcb (new_symbol (string str) false_object) st str,
        )
  unfolding intern_string push_symbol ik_make_symbol
  intern_string-fresh str h e =
      rw (find_view (λ r. r.name) pcb.symbols str st h, e, bucket_index-home (name_of pcb) st str h)
        refl

  pub intern_unique_string-known :
      (str : Field) (ustr : List ℕ) (s : ℕ)
      → IsTable (ustring_of pcb) st
      → view (ustring_of pcb) st ustr ≡ some s
      → intern_unique_string str ustr st pcb ≡ ok (s, st, pcb)
  unfolding intern_unique_string
  intern_unique_string-known str ustr s h e =
      rw (find_view (λ r. r.ustring) pcb.symbols ustr st h, e)

  pub intern_unique_string-fresh :
      (str : Field) (ustr : List ℕ)
      → IsTable (ustring_of pcb) st
      → view (ustring_of pcb) st ustr ≡ none
      → intern_unique_string str ustr st pcb
        ≡ ok (
          length pcb.symbols,
          pushed st ustr (length pcb.symbols),
          grown pcb (new_symbol str (string ustr)) st ustr,
        )
  unfolding intern_unique_string push_symbol ik_make_symbol
  intern_unique_string-fresh str ustr h e =
      rw
        (
          find_view (λ r. r.ustring) pcb.symbols ustr st h,
          e,
          bucket_index-home (ustring_of pcb) st ustr h,
        )
        refl
