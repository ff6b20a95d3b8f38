-- ===== src/Symbols/History.antt =====
-- What a program can observe over any sequence of calls on the symbol tables.
use ikarus.Base.{
  ℕ, ◌≡◌, ◌≢◌, sym, subst, ap, ◌∙◌, arith, List, Bool, some, false, ◌↔◌, get_elem?, inl, inr,
  Bool-cases, Option-cases,
}
use ikarus.Symbols.Chain.{strings_eqp_iff, strings_eqp_refl, text, text-string, lookup-string}
use ikarus.Symbols.Gensym.{InternsGensym, ikrt_intern_gensym-InternsGensym}
use ikarus.Symbols.Unintern.{Uninterns, ikrt_unintern_gensym-Uninterns, ikrt_unintern_gensym-none}
use ikarus.Symbols.Intern.{Returns, new_symbol}
use ikarus.Symbols.Interned.{Interns}
use ikarus.Symbols.Laws.{ikrt_string_to_symbol-Interns, ikrt_strings_to_gensym-Interns}
use ikarus.Symbols.Maps.{name_of, slot_view, symbol_map, gensym_map, IsPcb}
use ikarus.Symbols.Place.{view, home}
use ikarus.Symbols.{
  Field, string, false_object, Symbol, Slot, dead, made, unmade, Pcb, Outcome, ok, strings_eqp,
  bucket, ikrt_string_to_symbol, ikrt_strings_to_gensym, ikrt_intern_gensym, ikrt_unintern_gensym,
}

-- One call that ends. A gensym is interned with the unique string that it was given.
pub data Step (p q : Pcb) : Type 0 where
  symbol : (mem : ℕ) (str : List ℕ) (s : ℕ) → ikrt_string_to_symbol mem str p ≡ ok (s, q) → Step p q
  gensym :
      (mem : ℕ) (str : Field) (ustr : List ℕ) (s : ℕ)
      → ikrt_strings_to_gensym mem str ustr p ≡ ok (s, q)
      → Step p q
  intern :
      (mem s : ℕ) (r : Symbol) (u : List ℕ) (b : Bool)
      → get_elem? p.symbols s ≡ some r
      → r.ustring ≡ string u
      → ikrt_intern_gensym mem s p ≡ ok (b, q)
      → Step p q
  unintern :
      (s : ℕ) (r : Symbol) (b : Bool)
      → get_elem? p.symbols s ≡ some r
      → ikrt_unintern_gensym s p ≡ ok (b, q)
      → Step p q

pub data Reach (p : Pcb) : Pcb → Type 0 where
  here : Reach p p
  next : {q r : Pcb} → Reach p q → Step q r → Reach p r

-- The symbol table is in use and both tables are in order.
pub record IsLive (p : Pcb) : Type 0 where
  pub valid : IsPcb p
  pub in_use : p.symbol_table ≢ dead

-- Nothing is lost from the symbol table.
pub record Extends (p q : Pcb) : Type 0 where
  pub live : IsLive q
  pub kept : (str : List ℕ) (s : ℕ) → symbol_map p str ≡ some s → symbol_map q str ≡ some s

ok-inj : {A : Type 0} (a b : A) → ok a ≡ ok b → a ≡ b
ok-inj a b e = ground arith

-- What a call returned has the property that each of its results has.
returned : {A : Type 0} (P : A → Type 0) (r : Outcome A) (a : A) → Returns r P → r ≡ ok a → P a
returned P r a (b, e, h) e' = let same : b ≡ a = ok-inj b a (sym e ∙ e') in subst P same h

Step-Extends : (p q : Pcb) → IsLive p → Step p q → Extends p q
Step-Extends p q h (symbol mem str s e) =
    let t =
      returned (Interns symbol_map gensym_map (new_symbol (string str) false_object) p str)
        (ikrt_string_to_symbol mem str p) (s, q)
        (ikrt_string_to_symbol-Interns mem str p h.valid h.in_use) e in
    record {
      live = record { valid = t.valid; in_use = t.in_use h.in_use };
      kept = λ x a old. t.reads x ∙ (elim (Bool-cases (strings_eqp str x)) [
        | inl same ↦
            let is : str ≡ x = (strings_eqp_iff str x).0 same in
            let known = t.known a (rw (← is) at old) in rw same (ap some known.0)
        | inr other ↦ rw other old
      ]);
    }
Step-Extends p q h (gensym mem str ustr s e) =
    let t =
      returned (Interns gensym_map symbol_map (new_symbol str (string ustr)) p ustr)
        (ikrt_strings_to_gensym mem str ustr p) (s, q)
        (ikrt_strings_to_gensym-Interns mem str ustr p h.valid) e in
    record {
      live = record { valid = t.valid; in_use = t.in_use h.in_use };
      kept = λ x a old. t.others x ∙ old;
    }
Step-Extends p q h (intern mem s r u b got is e) =
    let t =
      returned (InternsGensym s u p) (ikrt_intern_gensym mem s p) (b, q)
        (ikrt_intern_gensym-InternsGensym mem s r u p h.valid got is) e in
    record {
      live = record { valid = t.valid; in_use = t.in_use h.in_use };
      kept = λ x a old. t.others x ∙ old;
    }
Step-Extends p q h (unintern s r b got e) = elim (Option-cases (text r.ustring)) [
  | inl no_string ↦
      let same : (false, p) ≡ (b, q) =
        ok-inj (false, p) (b, q)
          (sym (ikrt_unintern_gensym-none s r p h.valid got no_string) ∙ e) in
      let is : p ≡ q = ap (λ x. x.1) same in rw (← is) (record { live = h; kept = λ x a old. old })
  | inr (u, has) ↦
      let t =
        returned (Uninterns s u p) (ikrt_unintern_gensym s p) (b, q)
          (ikrt_unintern_gensym-Uninterns s r u p h.valid got (text-string r.ustring u has)) e in
      record {
        live = record { valid = t.valid; in_use = t.in_use h.in_use };
        kept = λ x a old. t.others x ∙ old;
      }
]

Reach-Extends : (p q : Pcb) → IsLive p → Reach p q → Extends p q
Reach-Extends p q h here = record { live = h; kept = λ x a old. old }
Reach-Extends p q h (next {q = r} before step) =
    let t = Reach-Extends p r h before in
    let t' = Step-Extends r q t.live step in
    record { live = t'.live; kept = λ x a old. t'.kept x a (t.kept x a old) }

-- A symbol is stored under one string only.
symbol_map-inj :
    (p : Pcb) (a b : List ℕ) (s : ℕ) → symbol_map p a ≡ some s → symbol_map p b ≡ some s → a ≡ b
unfolding symbol_map view
symbol_map-inj p a b s ea eb = from_slot p.symbol_table ea eb
  where
    from_slot :
        (slot : Slot)
        → slot_view (name_of p) slot a ≡ some s
        → slot_view (name_of p) slot b ≡ some s
        → a ≡ b
    from_slot unmade ea eb = cc
    from_slot dead ea eb = cc
    from_slot (made st) ea eb =
        let here = lookup-string (name_of p) a (bucket st (home a)) s ea in
        let there = lookup-string (name_of p) b (bucket st (home b)) s eb in
        let e = sym here ∙ there in ground arith

returns_symbol :
    (mem : ℕ) (str : List ℕ) (s : ℕ) (p q : Pcb)
    → IsLive p
    → ikrt_string_to_symbol mem str p ≡ ok (s, q)
    → symbol_map q str ≡ some s
returns_symbol mem str s p q h e =
    let t =
      returned (Interns symbol_map gensym_map (new_symbol (string str) false_object) p str)
        (ikrt_string_to_symbol mem str p) (s, q)
        (ikrt_string_to_symbol-Interns mem str p h.valid h.in_use) e in
    t.reads str ∙ (rw (strings_eqp_refl str))

-- Symbols are equal exactly when their strings are: of two calls of `ikrt_string_to_symbol` with
-- any other calls between them, the second returns the symbol of the first if and only if the
-- strings are the same.
pub ikrt_string_to_symbol_eq :
    (p q q' r : Pcb) (mem mem' : ℕ) (a b : List ℕ) (s t : ℕ)
    → IsLive p
    → ikrt_string_to_symbol mem a p ≡ ok (s, q)
    → Reach q q'
    → ikrt_string_to_symbol mem' b q' ≡ ok (t, r)
    → (s ≡ t) ↔ (a ≡ b)
ikrt_string_to_symbol_eq p q q' r mem mem' a b s t h first between second =
    let after = (Step-Extends p q h (symbol mem a s first)).live in
    let x = Reach-Extends q q' after between in
    let y = Step-Extends q' r x.live (symbol mem' b t second) in
    let held = y.kept a s (x.kept a s (returns_symbol mem a s p q h first)) in
    let new = returns_symbol mem' b t q' r x.live second in
    (
      λ e. symbol_map-inj r a b s held (rw (← e) at new),
      λ e. let both = sym held ∙ (rw (← e) at new) in ground arith,
    )
