-- ===== src/Symbols/Dirty.antt =====
-- The write barrier: a bucket that changes has its page marked for the collector.
use ikarus.Base.{
  ℕ, ◌≡◌, refl, ◌∙◌, arith, List, [], ◌∷◌, Option, ◌⊎◌, inl, inr, ◌==◌, Bool-cases, Option-cases,
  get_or-set,
}
use ikarus.Symbols.Chain.{InChain}
use ikarus.Symbols.Intern.{
  Returns, pushed, intern_string-known, intern_string-fresh, intern_unique_string-known,
  intern_unique_string-fresh,
}
use ikarus.Symbols.Maps.{name_of, ustring_of}
use ikarus.Symbols.Place.{IsTable, view, home, home-lt}
use ikarus.Symbols.{Field, Table, Pcb, bucket, bucket_page, intern_string, intern_unique_string}

-- Each bucket is as it was, or its page is marked, and no mark is lost.
pub record Marks (st : Table) (pcb : Pcb) (r : ℕ × Table × Pcb) : Type 0 where
  pub base : r.1.base ≡ st.base
  pub marked : (i : ℕ) → (bucket r.1 i ≡ bucket st i) ⊎ InChain (bucket_page st i) r.2.dirty
  pub kept : (page : ℕ) → InChain page pcb.dirty → InChain page r.2.dirty

same-Marks : (st : Table) (pcb : Pcb) (s : ℕ) → Marks st pcb (s, st, pcb)
same-Marks st pcb s = record { base = refl; marked = λ i. inl refl; kept = λ page m. m }

pushed_marked :
    (f : ℕ → Option (List ℕ)) (st : Table) (str : List ℕ) (s : ℕ) (dirty : List ℕ)
    → IsTable f st
    → (i : ℕ)
    → (bucket (pushed st str s) i ≡ bucket st i)
      ⊎ InChain (bucket_page st i) (bucket_page st (home str) ∷ dirty)
pushed_marked f st str s dirty h i =
    let e =
      get_or-set st.buckets (home str) i (s ∷ bucket st (home str)) [] (rw h.width (home-lt str)) in
    elim (Bool-cases (i == home str)) [
      | inl same ↦ let is : i ≡ home str = ground arith in inr (inl (rw is))
      | inr far ↦ inl (e ∙ (rw far))
    ]

-- Interning a string marks the page of each bucket that it changes, in either table, and loses no
-- mark.
pub intern_string-Marks :
    (str ustr : List ℕ) (name : Field) (st ust : Table) (pcb : Pcb)
    → IsTable (name_of pcb) st
    → IsTable (ustring_of pcb) ust
    → Returns (intern_string str st pcb) (Marks st pcb)
      × Returns (intern_unique_string name ustr ust pcb) (Marks ust pcb)
intern_string-Marks str ustr name st ust pcb h uh = (
  elim (Option-cases (view (name_of pcb) st str)) [
    | inr (s, e) ↦ (_, intern_string-known pcb st str s h e, same-Marks st pcb s)
    | inl e ↦ (
      _,
      intern_string-fresh pcb st str h e,
      record {
        base = refl;
        marked = pushed_marked (name_of pcb) st str _ pcb.dirty h;
        kept = λ page m. inr m;
      },
    )
  ],
  elim (Option-cases (view (ustring_of pcb) ust ustr)) [
    | inr (s, e) ↦ (_, intern_unique_string-known pcb ust name ustr s uh e, same-Marks ust pcb s)
    | inl e ↦ (
      _,
      intern_unique_string-fresh pcb ust name ustr uh e,
      record {
        base = refl;
        marked = pushed_marked (ustring_of pcb) ust ustr _ pcb.dirty uh;
        kept = λ page m. inr m;
      },
    )
  ],
)
