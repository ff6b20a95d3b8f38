-- ===== src/Symbols/Unintern.antt =====
-- `ikrt_unintern_gensym`.
use ikarus.Base.{
  ℕ, ◌≡◌, ◌≢◌, refl, sym, ap, ◌∙◌, arith, List, Bool, none, some, true, false, ◌==◌, if◌then◌else◌,
  get_elem?, set, get_elem?-set, get_elem?_in, inl, inr, ◌↔◌, Bool-cases, Option-cases,
}
use ikarus.Symbols.Chain.{strings_eqp_iff, strings_eqp_refl, text}
use ikarus.Symbols.Intern.{Returns}
use ikarus.Symbols.Interned.{made_not_dead}
use ikarus.Symbols.Maps.{ustring_of, symbol_map, gensym_map, IsPcb, Keeps, set-Keeps}
use ikarus.Symbols.Place.{IsTable, view, home, bucket_index-home, set_bucket, update, drop-Stores}
use ikarus.Symbols.Unlink.{unlink-none, lookup-own, lookup_in, unlink-IsUnlinked}
use ikarus.Symbols.{
  Field, string, unbound_object, null_object, false_object, true_object, Symbol, Table, Slot,
  unmade, dead, made, Pcb, ok, ◌>>=◌, bucket, unintern_from, unintern_gensym, unlink, strings_eqp,
  ikrt_intern_gensym, ikrt_unintern_gensym,
}
use ikarus.Symbols.Gensym.{has_ustring, deref_lem, ikrt_intern_gensym-InternsGensym}

-- The gensym that is stored under its unique string is taken out and loses the string, and the
-- answer says whether it was. Otherwise nothing changes.
pub record Uninterns (s : ℕ) (u : List ℕ) (pcb : Pcb) (r : Bool × Pcb) : Type 0 where
  pub valid : IsPcb r.1
  pub in_use : pcb.symbol_table ≢ dead → r.1.symbol_table ≢ dead
  pub answer : (r.0 ≡ true) ↔ (gensym_map pcb u ≡ some s)
  pub removed :
      r.0 ≡ true
      → ((q : List ℕ) → gensym_map r.1 q ≡ update (gensym_map pcb) u none q)
        × (ustring_of r.1 s ≡ none)
  pub kept : r.0 ≡ false → r.1 ≡ pcb
  pub others : (q : List ℕ) → symbol_map r.1 q ≡ symbol_map pcb q

not_stored :
    (s : ℕ) (u : List ℕ) (pcb : Pcb)
    → IsPcb pcb
    → gensym_map pcb u ≢ some s
    → Uninterns s u pcb (false, pcb)
not_stored s u pcb h far = record {
  valid = h;
  in_use = λ l. l;
  answer = (λ e. cc, λ e. absurd (far e));
  removed = λ e. cc;
  kept = λ e. refl;
  others = λ q. refl;
}

module _ (s : ℕ) (r : Symbol) (u : List ℕ) (pcb : Pcb) (h : IsPcb pcb)
    (got : get_elem? pcb.symbols s ≡ some r) (is : r.ustring ≡ string u) where
  abbrev freed : Symbol
  freed = record r { ustring = true_object }

  abbrev after : Table → List ℕ → Pcb
  after st c = record pcb {
    symbols = set pcb.symbols s freed;
    gensym_table = made (set_bucket st (home u) c);
  }

  ustring-after :
      (st : Table) (c : List ℕ) (t : ℕ)
      → ustring_of (after st c) t ≡ (if t == s then none else ustring_of pcb t)
  ustring-after st c t =
      rw (get_elem?-set pcb.symbols s t freed (get_elem?_in pcb.symbols s r got))
        (elim (Bool-cases (t == s)) [ inl e ↦ rw e | inr e ↦ rw e ])

  taken_out :
      (st : Table) (c : List ℕ)
      → pcb.gensym_table ≡ made st
      → IsTable (ustring_of pcb) st
      → unlink s (bucket st (home u)) ≡ some c
      → Uninterns s u pcb (true, after st c)
  unfolding gensym_map symbol_map Keeps view
  taken_out st c e is_table found =
      let has = has_ustring pcb s r u got is in
      let t =
        drop-Stores (ustring_of pcb) (ustring_of (after st c)) st is_table u s c has found
          (λ x apart. let ne : (x == s) ≡ false = ground arith in ustring-after st c x ∙ rw ne) in
      let k =
        set-Keeps (λ x. x.name) pcb.symbols s r freed pcb.symbol_table got refl h.symbols_lem in
      let b = bucket st (home u) in
      let chain = is_table.chains (home u) in
      let was = (unlink-IsUnlinked home (home u) (ustring_of pcb) s u b c chain has found).was in
      record {
        valid = record {
          symbols_lem = k.0;
          gensyms_lem = t.0;
          live = λ e'. made_not_dead (set_bucket st (home u) c) e';
        };
        in_use = λ l. l;
        answer = (
          λ e'. rw e (lookup-own home (home u) (ustring_of pcb) s u b chain has was),
          λ e'. refl,
        );
        removed = λ e'. (
          λ q. t.1 q ∙ (rw e),
          let here : (s == s) ≡ true = ground arith in ustring-after st c s ∙ rw here,
        );
        kept = λ e'. cc;
        others = k.1;
      }

  from_table :
      (st : Table)
      → pcb.gensym_table ≡ made st
      → Returns (unintern_from s r (string u) st pcb) (Uninterns s u pcb)
  unfolding unintern_from gensym_map view
  from_table st e =
      let is_table : IsTable (ustring_of pcb) st = rw e at h.gensyms_lem in
      let at_home = bucket_index-home (ustring_of pcb) st u is_table in
      elim (Option-cases (unlink s (bucket st (home u)))) [
        | inr (c, found) ↦ (
          (true, after st c),
          rw (at_home, found, unintern_from) (rw at_home),
          taken_out st c e is_table found,
        )
        | inl missing ↦ (
          (false, pcb),
          rw (at_home, missing, unintern_from),
          not_stored s u pcb h (λ e'.
              let stored : view (ustring_of pcb) st u ≡ some s = rw e at e' in
              unlink-none s (bucket st (home u)) missing (
                lookup_in home (home u) (ustring_of pcb) s u (bucket st (home u))
                  (is_table.chains (home u)) stored)),
        )
      ]

  from_slot :
      (slot : Slot)
      → pcb.gensym_table ≡ slot
      → Returns (unintern_gensym s slot pcb) (Uninterns s u pcb)
  unfolding unintern_gensym gensym_map
  from_slot unmade e = ((false, pcb), refl, not_stored s u pcb h (λ e'. let e'' = rw e at e' in cc))
  from_slot dead e = absurd (h.live e)
  from_slot (made st) e = rw (deref_lem pcb.symbols s r got, is) (from_table st e)

-- A gensym with a unique string is taken out of the table and loses the string if it is the one
-- stored under it, and the answer says so. Otherwise nothing changes.
pub ikrt_unintern_gensym-Uninterns :
    (s : ℕ) (r : Symbol) (u : List ℕ) (pcb : Pcb)
    → IsPcb pcb
    → get_elem? pcb.symbols s ≡ some r
    → r.ustring ≡ string u
    → Returns (ikrt_unintern_gensym s pcb) (Uninterns s u pcb)
unfolding ikrt_unintern_gensym
ikrt_unintern_gensym-Uninterns s r u pcb h got is =
    from_slot s r u pcb h got is pcb.gensym_table refl

-- A symbol without a unique string is in no table.
pub ikrt_unintern_gensym-none :
    (s : ℕ) (r : Symbol) (pcb : Pcb)
    → IsPcb pcb
    → get_elem? pcb.symbols s ≡ some r
    → text r.ustring ≡ none
    → ikrt_unintern_gensym s pcb ≡ ok (false, pcb)
unfolding ikrt_unintern_gensym unintern_gensym unintern_from
ikrt_unintern_gensym-none s r pcb h got is = from_any pcb.gensym_table h.live
  where
    no_string :
        (v : Field) (st : Table) → text v ≡ none → unintern_from s r v st pcb ≡ ok (false, pcb)
    no_string (string u) st e = cc
    no_string unbound_object st e = refl
    no_string null_object st e = refl
    no_string false_object st e = refl
    no_string true_object st e = refl

    from_any : (slot : Slot) → slot ≢ dead → unintern_gensym s slot pcb ≡ ok (false, pcb)
    from_any unmade live = refl
    from_any dead live = absurd (live refl)
    from_any (made st) live = rw (deref_lem pcb.symbols s r got) (no_string r.ustring st is)

-- A gensym that is interned, under a unique string under which none is stored, and then uninterned
-- leaves the gensym table as it was; both calls answer #t.
pub ikrt_unintern_gensym-ikrt_intern_gensym :
    (mem s : ℕ) (r : Symbol) (u : List ℕ) (pcb : Pcb)
    → IsPcb pcb
    → get_elem? pcb.symbols s ≡ some r
    → r.ustring ≡ string u
    → gensym_map pcb u ≡ none
    → Returns
        (ikrt_intern_gensym mem s pcb >>= λ (b, pcb'). ikrt_unintern_gensym s pcb')
        λ t. (t.0 ≡ true) × ((q : List ℕ) → gensym_map t.1 q ≡ gensym_map pcb q)
ikrt_unintern_gensym-ikrt_intern_gensym mem s r u pcb h got is free =
    let ((b, pcb'), e, i) = ikrt_intern_gensym-InternsGensym mem s r u pcb h got is in
    let yes : b ≡ true = i.answer.1 free in
    let got' : get_elem? pcb'.symbols s ≡ some r = ap (λ l. get_elem? l s) i.symbols ∙ got in
    let (t, e', o) = ikrt_unintern_gensym-Uninterns s r u pcb' i.valid got' is in
    let held : gensym_map pcb' u ≡ some s = i.stored yes u ∙ (rw (strings_eqp_refl u)) in
    let gone : t.0 ≡ true = o.answer.1 held in
    (
      t,
      rw (e, e'),
      (
        gone,
        λ q. (o.removed gone).0 q ∙ (elim (Bool-cases (strings_eqp u q)) [
          | inl same ↦
              let eq : u ≡ q = (strings_eqp_iff u q).0 same in rw same (rw (← eq) (sym free))
          | inr other ↦ let old = i.stored yes q in rw other (rw other at old)
        ]),
      ),
    )
