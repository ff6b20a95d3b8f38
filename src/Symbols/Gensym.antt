-- ===== src/Symbols/Gensym.antt =====
-- `ikrt_intern_gensym`.
use ikarus.Base.{
  ℕ, ◌≡◌, ◌≢◌, refl, ◌∙◌, List, ◌∷◌, Bool, none, some, true, false, get_elem?, inl, inr, ◌↔◌,
  Option-cases,
}
use ikarus.Symbols.Intern.{Returns, find_view, pushed}
use ikarus.Symbols.Interned.{update_congr, made_not_dead}
use ikarus.Symbols.Laws.{open_table-Reads}
use ikarus.Symbols.Maps.{ustring_of, symbol_map, gensym_map, IsPcb}
use ikarus.Symbols.Place.{view, home, bucket_index-home, update, push-Stores}
use ikarus.Symbols.{
  string, Symbol, dead, made, Pcb, ok, deref, bucket_page, push_symbol, ikrt_intern_gensym,
}

-- The gensym is stored under its unique string unless the string is taken, and the answer says
-- which. No symbol changes.
pub record InternsGensym (s : ℕ) (u : List ℕ) (pcb : Pcb) (r : Bool × Pcb) : Type 0 where
  pub valid : IsPcb r.1
  pub in_use : pcb.symbol_table ≢ dead → r.1.symbol_table ≢ dead
  pub answer : (r.0 ≡ true) ↔ (gensym_map pcb u ≡ none)
  pub stored : r.0 ≡ true → (q : List ℕ) → gensym_map r.1 q ≡ update (gensym_map pcb) u (some s) q
  pub taken : r.0 ≡ false → (q : List ℕ) → gensym_map r.1 q ≡ gensym_map pcb q
  pub others : (q : List ℕ) → symbol_map r.1 q ≡ symbol_map pcb q
  pub symbols : r.1.symbols ≡ pcb.symbols

pub has_ustring :
    (pcb : Pcb) (s : ℕ) (r : Symbol) (u : List ℕ)
    → get_elem? pcb.symbols s ≡ some r
    → r.ustring ≡ string u
    → ustring_of pcb s ≡ some u
has_ustring pcb s r u got e = rw (got, e)

pub deref_lem :
    (symbols : List Symbol) (s : ℕ) (r : Symbol)
    → get_elem? symbols s ≡ some r
    → deref symbols s ≡ ok r
deref_lem symbols s r e = rw (e, deref)

-- A gensym with a unique string is stored unless the string is taken, and the answer says which.
pub ikrt_intern_gensym-InternsGensym :
    (mem s : ℕ) (r : Symbol) (u : List ℕ) (pcb : Pcb)
    → IsPcb pcb
    → get_elem? pcb.symbols s ≡ some r
    → r.ustring ≡ string u
    → Returns (ikrt_intern_gensym mem s pcb) (InternsGensym s u pcb)
unfolding ikrt_intern_gensym gensym_map symbol_map push_symbol
ikrt_intern_gensym-InternsGensym mem s r u pcb h got is =
    let (st, opens, reads) =
      open_table-Reads (ustring_of pcb) mem pcb.gensym_table h.gensyms_lem h.live in
    let found = find_view (λ x. x.ustring) pcb.symbols u st reads.is_table in
    elim (Option-cases (gensym_map pcb u)) [
      | inr (other, e) ↦ (
        (false, record pcb { gensym_table = made st }),
        rw (opens, deref_lem pcb.symbols s r got, is, found, reads.reads u, e),
        record {
          valid = record {
            symbols_lem = h.symbols_lem;
            gensyms_lem = reads.is_table;
            live = λ e'. made_not_dead st e';
          };
          in_use = λ l. l;
          answer = (λ e'. cc, λ e'. cc);
          stored = λ e'. cc;
          taken = λ e' q. reads.reads q;
          others = λ q. refl;
          symbols = refl;
        },
      )
      | inl e ↦
          let t =
            push-Stores (ustring_of pcb) (ustring_of pcb) st reads.is_table u s
              (has_ustring pcb s r u got is) (reads.reads u ∙ e) (λ j t m. refl) in
          (
            (
              true,
              record pcb {
                gensym_table = made (pushed st u s);
                dirty = bucket_page st (home u) ∷ pcb.dirty;
              },
            ),
            rw
                (
                  opens,
                  deref_lem pcb.symbols s r got,
                  is,
                  found,
                  reads.reads u,
                  e,
                  bucket_index-home (ustring_of pcb) st u reads.is_table,
                )
                refl,
            record {
              valid = record {
                symbols_lem = h.symbols_lem;
                gensyms_lem = t.0;
                live = λ e'. made_not_dead (pushed st u s) e';
              };
              in_use = λ l. l;
              answer = (λ e'. e, λ e'. refl);
              stored = λ e' q.
                  t.1 q
                  ∙ update_congr (view (ustring_of pcb) st) (gensym_map pcb) u (some s) q
                      (reads.reads q);
              taken = λ e'. cc;
              others = λ q. refl;
              symbols = refl;
            },
          )
    ]
