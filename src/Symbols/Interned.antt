-- ===== src/Symbols/Interned.antt =====
-- What `intern_string` and `intern_unique_string` do to the two maps.
use ikarus.Base.{
  ℕ, ◌≡◌, ◌≢◌, refl, sym, ◌∙◌, arith, List, [], ◌∷◌, ◌++◌, Option, none, some, true, ◌==◌, length,
  get_elem?-append_last, inl, inr, Bool-cases, Option-cases,
}
use ikarus.Symbols.Chain.{strings_eqp_iff, string_of}
use ikarus.Symbols.Maps.{
  name_of, ustring_of, symbol_map, gensym_map, IsPcb, Keeps, append_same, append-Keeps,
}
use ikarus.Symbols.Place.{IsTable, view, make_symbol_table-IsTable, update, push-Stores}
use ikarus.Symbols.{
  Field, string, false_object, Symbol, Table, dead, made, Pcb, ok, ◌>>=◌, make_symbol_table,
  strings_eqp, intern_string, intern_unique_string,
}
use ikarus.Symbols.Intern.{
  Returns, new_symbol, pushed, grown, intern_string-known, intern_string-fresh,
  intern_unique_string-known, intern_unique_string-fresh,
}

-- A table that reads as a map, for the symbols `f`.
pub record Reads (f : ℕ → Option (List ℕ)) (m : List ℕ → Option ℕ) (st : Table) : Type 0 where
  pub is_table : IsTable f st
  pub reads : (q : List ℕ) → view f st q ≡ m q

pub make_symbol_table-Reads :
    (f : ℕ → Option (List ℕ)) (mem : ℕ) → Reads f (λ q. none) (make_symbol_table mem)
make_symbol_table-Reads f mem = record {
  is_table = (make_symbol_table-IsTable f mem).0;
  reads = (make_symbol_table-IsTable f mem).1;
}

-- The symbol of a string after a call: the old one, or a new one that is stored under it.
pub record Interns (m other : Pcb → List ℕ → Option ℕ) (new : Symbol) (pcb : Pcb) (str : List ℕ)
    (r : ℕ × Pcb) : Type 0 where
  pub valid : IsPcb r.1
  pub in_use : pcb.symbol_table ≢ dead → r.1.symbol_table ≢ dead
  pub reads : (q : List ℕ) → m r.1 q ≡ update (m pcb) str (some r.0) q
  pub others : (q : List ℕ) → other r.1 q ≡ other pcb q
  pub known : (s : ℕ) → m pcb str ≡ some s → (r.0 ≡ s) × (r.1.symbols ≡ pcb.symbols)
  pub fresh :
      m pcb str ≡ none → (r.0 ≡ length pcb.symbols) × (r.1.symbols ≡ pcb.symbols ++ new ∷ [])

pub update_known :
    (m : List ℕ → Option ℕ) (str : List ℕ) (s : ℕ)
    → m str ≡ some s
    → (q : List ℕ) → m q ≡ update m str (some s) q
update_known m str s e q = elim (Bool-cases (strings_eqp str q)) [
  | inl same ↦ let is : str ≡ q = (strings_eqp_iff str q).0 same in rw same (rw (← is) e)
  | inr other ↦ rw other
]

new_string :
    (field : Symbol → Field) (symbols : List Symbol) (r : Symbol) (u : List ℕ)
    → field r ≡ string u
    → string_of field (symbols ++ r ∷ []) (length symbols) ≡ some u
new_string field symbols r u e =
    let here : (length symbols == length symbols) ≡ true = ground arith in
    rw (get_elem?-append_last symbols r (length symbols), here, e)

pub update_congr :
    (m m' : List ℕ → Option ℕ) (str : List ℕ) (v : Option ℕ) (q : List ℕ)
    → m q ≡ m' q
    → update m str v q ≡ update m' str v q
update_congr m m' str v q e = rw e

pub made_not_dead : (st : Table) → ¬ (made st ≡ dead)
made_not_dead st e = cc

module _ (pcb : Pcb) (valid : IsPcb pcb) where
  pub intern_symbol :
      (str : List ℕ) (st : Table)
      → Reads (name_of pcb) (symbol_map pcb) st
      → Returns
          (intern_string str st pcb >>= λ (sym, st', pcb').
            ok (sym, record pcb' { symbol_table = made st' }))
          (Interns symbol_map gensym_map (new_symbol (string str) false_object) pcb str)
  unfolding symbol_map gensym_map Keeps
  intern_symbol str st h =
      let n = length pcb.symbols in
      let r = new_symbol (string str) false_object in
      elim (Option-cases (symbol_map pcb str)) [
        | inr (s, e) ↦ (
          (s, record pcb { symbol_table = made st }),
          rw (intern_string-known pcb st str s h.is_table (h.reads str ∙ e)),
          record {
            valid = record {
              symbols_lem = h.is_table;
              gensyms_lem = valid.gensyms_lem;
              live = valid.live;
            };
            in_use = λ l e'. made_not_dead st e';
            reads = λ q. h.reads q ∙ update_known (symbol_map pcb) str s e q;
            others = λ q. refl;
            known = λ t e'. (let is = sym e ∙ e' in ground arith, refl);
            fresh = λ e'. cc;
          },
        )
        | inl e ↦
            let free = h.reads str ∙ e in
            let t =
              push-Stores (name_of pcb) (string_of (λ r. r.name) (pcb.symbols ++ r ∷ [])) st
                h.is_table str n (new_string (λ r. r.name) pcb.symbols r str refl) free
                (append_same (λ r. r.name) pcb.symbols r st h.is_table) in
            let k =
              append-Keeps (λ r. r.ustring) pcb.symbols r pcb.gensym_table valid.gensyms_lem in
            (
              (n, record (grown pcb r st str) { symbol_table = made (pushed st str n) }),
              rw (intern_string-fresh pcb st str h.is_table free),
              record {
                valid = record { symbols_lem = t.0; gensyms_lem = k.0; live = valid.live };
                in_use = λ l e'. made_not_dead (pushed st str n) e';
                reads = λ q.
                    t.1 q
                    ∙ update_congr (view (name_of pcb) st) (symbol_map pcb) str (some n) q
                        (h.reads q);
                others = k.1;
                known = λ s e'. cc;
                fresh = λ e'. (refl, refl);
              },
            )
      ]

  pub intern_gensym_string :
      (str : Field) (ustr : List ℕ) (st : Table)
      → Reads (ustring_of pcb) (gensym_map pcb) st
      → Returns
          (intern_unique_string str ustr st pcb >>= λ (sym, st', pcb').
            ok (sym, record pcb' { gensym_table = made st' }))
          (Interns gensym_map symbol_map (new_symbol str (string ustr)) pcb ustr)
  unfolding symbol_map gensym_map Keeps
  intern_gensym_string str ustr st h =
      let n = length pcb.symbols in
      let r = new_symbol str (string ustr) in
      elim (Option-cases (gensym_map pcb ustr)) [
        | inr (s, e) ↦ (
          (s, record pcb { gensym_table = made st }),
          rw (intern_unique_string-known pcb st str ustr s h.is_table (h.reads ustr ∙ e)),
          record {
            valid = record {
              symbols_lem = valid.symbols_lem;
              gensyms_lem = h.is_table;
              live = λ e'. made_not_dead st e';
            };
            in_use = λ l. l;
            reads = λ q. h.reads q ∙ update_known (gensym_map pcb) ustr s e q;
            others = λ q. refl;
            known = λ t e'. (let is = sym e ∙ e' in ground arith, refl);
            fresh = λ e'. cc;
          },
        )
        | inl e ↦
            let free = h.reads ustr ∙ e in
            let t =
              push-Stores (ustring_of pcb) (string_of (λ r. r.ustring) (pcb.symbols ++ r ∷ [])) st
                h.is_table ustr n (new_string (λ r. r.ustring) pcb.symbols r ustr refl) free
                (append_same (λ r. r.ustring) pcb.symbols r st h.is_table) in
            let k = append-Keeps (λ r. r.name) pcb.symbols r pcb.symbol_table valid.symbols_lem in
            (
              (n, record (grown pcb r st ustr) { gensym_table = made (pushed st ustr n) }),
              rw (intern_unique_string-fresh pcb st str ustr h.is_table free),
              record {
                valid = record {
                  symbols_lem = k.0;
                  gensyms_lem = t.0;
                  live = λ e'. made_not_dead (pushed st ustr n) e';
                };
                in_use = λ l. l;
                reads = λ q.
                    t.1 q
                    ∙ update_congr (view (ustring_of pcb) st) (gensym_map pcb) ustr (some n) q
                        (h.reads q);
                others = k.1;
                known = λ s e'. cc;
                fresh = λ e'. (refl, refl);
              },
            )
      ]
