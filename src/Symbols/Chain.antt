-- ===== src/Symbols/Chain.antt =====
-- One bucket: what the loops over it find.
use ikarus.Base.{
  ℕ, ◌≡◌, ◌≢◌, refl, sym, ap, ◌∙◌, arith, List, [], ◌∷◌, Option, none, some, Bool, true, false,
  get_elem?, if◌then◌else◌, ◌⊎◌, inl, inr, ◌↔◌, Bool-cases, Option-cases,
}
use ikarus.Symbols.{
  Field, Symbol, string, unbound_object, null_object, false_object, true_object, ok, equal_elements,
  strings_eqp, find_symbol,
}

-- `strings_eqp` decides equality of strings.
pub strings_eqp_iff : (xs ys : List ℕ) → (strings_eqp xs ys ≡ true) ↔ (xs ≡ ys)
unfolding strings_eqp equal_elements
strings_eqp_iff [] [] = (λ e. refl, λ e. refl)
strings_eqp_iff [] (y ∷ ys) = (λ e. ground arith, λ e. ground arith)
strings_eqp_iff (x ∷ xs) [] = (λ e. ground arith, λ e. ground arith)
strings_eqp_iff (x ∷ xs) (y ∷ ys) =
    let rest = strings_eqp_iff xs ys in (λ e. ground (arith, rest), λ e. ground (arith, rest))

pub strings_eqp_refl : (xs : List ℕ) → strings_eqp xs xs ≡ true
strings_eqp_refl xs = (strings_eqp_iff xs xs).1 refl

abbrev pub text : Field → Option (List ℕ)
text (string str) = some str
text unbound_object = none
text null_object = none
text false_object = none
text true_object = none

-- The string in that field of a symbol, if there is one.
abbrev pub text_of : (Symbol → Field) → Option Symbol → Option (List ℕ)
text_of field (some r) = text (field r)
text_of field none = none

abbrev pub string_of : (Symbol → Field) → List Symbol → ℕ → Option (List ℕ)
string_of field symbols s = text_of field (get_elem? symbols s)

abbrev pub holds : Option (List ℕ) → List ℕ → Bool
holds (some t) str = strings_eqp t str
holds none str = false

-- What `find_symbol` is to find, where nothing goes wrong.
pub lookup : (ℕ → Option (List ℕ)) → List ℕ → List ℕ → Option ℕ
lookup f str [] = none
lookup f str (sym ∷ b) = let rest = lookup f str b in if holds (f sym) str then some sym else rest

-- Each symbol of the bucket has a string that belongs there, and that no later one has.
abbrev pub IsChain : (List ℕ → ℕ) → ℕ → (ℕ → Option (List ℕ)) → List ℕ → Type 0
IsChain home i f [] = Unit {0}
IsChain home i f (sym ∷ b) =
    ((u : List ℕ) × (f sym ≡ some u) × (home u ≡ i) × (lookup f u b ≡ none)) × IsChain home i f b

pub text-string : (v : Field) (u : List ℕ) → text v ≡ some u → v ≡ string u
text-string (string str) u e = ground arith
text-string unbound_object u e = cc
text-string null_object u e = cc
text-string false_object u e = cc
text-string true_object u e = cc

pub string_of-some :
    (field : Symbol → Field) (symbols : List Symbol) (s : ℕ) (u : List ℕ)
    → string_of field symbols s ≡ some u
    → (r : Symbol) × (get_elem? symbols s ≡ some r) × (field r ≡ string u)
string_of-some field symbols s u e = elim (Option-cases (get_elem? symbols s)) [
  | inl none_here ↦ let e' = rw none_here at e in cc
  | inr (r, some_here) ↦ (r, some_here, text-string (field r) u (rw some_here at e))
]

pub find_symbol-lookup :
    (field : Symbol → Field) (symbols : List Symbol) (str : List ℕ) (home : List ℕ → ℕ) (i : ℕ)
    (b : List ℕ)
    → IsChain home i (string_of field symbols) b
    → find_symbol field symbols str b ≡ ok (lookup (string_of field symbols) str b)
unfolding find_symbol lookup
find_symbol-lookup field symbols str home i [] h = refl
find_symbol-lookup field symbols str home i (s ∷ b) h =
    let (u, e, _, _) = h.0 in
    let (r, got, holds) = string_of-some field symbols s u e in
    let rest = find_symbol-lookup field symbols str home i b h.1 in
    rw (got, holds, rest) (ground arith)

module _ (f : ℕ → Option (List ℕ)) where
  pub lookup-nil : (str : List ℕ) → lookup f str [] ≡ none
  unfolding lookup
  lookup-nil str = refl

  pub lookup-cons :
      (u str : List ℕ) (s : ℕ) (b : List ℕ)
      → f s ≡ some u
      → lookup f str (s ∷ b) ≡ (if strings_eqp u str then some s else lookup f str b)
  unfolding lookup
  lookup-cons u str s b e = rw e

  -- A symbol that is found has the string.
  pub lookup-string : (str : List ℕ) (b : List ℕ) (s : ℕ) → lookup f str b ≡ some s → f s ≡ some str
  unfolding lookup
  lookup-string str [] s e = cc
  lookup-string str (t ∷ b) s e = elim (Option-cases (f t)) [
    | inl none_here ↦ lookup-string str b s (rw none_here at e)
    | inr (u, here) ↦ elim (Bool-cases (strings_eqp u str)) [
      | inl same ↦
          let e' = rw (here, same) at e in
          let eq : u ≡ str = (strings_eqp_iff u str).0 same in
          let is : t ≡ s = ground arith in rw (← is, ← eq) here
      | inr other ↦ lookup-string str b s (rw (here, other) at e)
    ]
  ]

  -- A string whose home is another bucket is not found.
  pub lookup-elsewhere :
      (home : List ℕ → ℕ) (i : ℕ) (str : List ℕ) (b : List ℕ)
      → IsChain home i f b
      → home str ≢ i
      → lookup f str b ≡ none
  unfolding lookup
  lookup-elsewhere home i str [] h far = refl
  lookup-elsewhere home i str (s ∷ b) h far =
      let (u, e, at_home, _) = h.0 in
      let rest = lookup-elsewhere home i str b h.1 far in
      elim (Bool-cases (strings_eqp u str)) [
        | inl same ↦
            let eq : u ≡ str = (strings_eqp_iff u str).0 same in
            absurd (far (ap home (sym eq) ∙ at_home))
        | inr other ↦ rw (e, other) rest
      ]

abbrev pub InChain : ℕ → List ℕ → Type 0
InChain s [] = ⊥
InChain s (t ∷ b) = (s ≡ t) ⊎ InChain s b

pub IsChain-string :
    (home : List ℕ → ℕ) (i : ℕ) (f : ℕ → Option (List ℕ)) (b : List ℕ) (s : ℕ)
    → IsChain home i f b
    → InChain s b
    → (u : List ℕ) × (f s ≡ some u) × (home u ≡ i)
IsChain-string home i f [] s h m = absurd m
IsChain-string home i f (t ∷ b) s h (inl e) = let (u, p, q, _) = h.0 in (u, rw e p, q)
IsChain-string home i f (t ∷ b) s h (inr m) = IsChain-string home i f b s h.1 m

-- A change of other symbols leaves a bucket as it is.
module _ (f g : ℕ → Option (List ℕ)) where
  pub lookup-frame :
      (str : List ℕ) (b : List ℕ)
      → ((s : ℕ) → InChain s b → g s ≡ f s)
      → lookup g str b ≡ lookup f str b
  unfolding lookup
  lookup-frame str [] same = refl
  lookup-frame str (s ∷ b) same = rw (same s (inl refl), lookup-frame str b (λ t m. same t (inr m)))

  pub IsChain-frame :
      (home : List ℕ → ℕ) (i : ℕ) (b : List ℕ)
      → IsChain home i f b
      → ((s : ℕ) → InChain s b → g s ≡ f s)
      → IsChain home i g b
  IsChain-frame home i [] h same = tt
  IsChain-frame home i (s ∷ b) h same =
      let (u, e, at_home, fresh) = h.0 in
      (
        (u, same s (inl refl) ∙ e, at_home, lookup-frame u b (λ t m. same t (inr m)) ∙ fresh),
        IsChain-frame home i b h.1 (λ t m. same t (inr m)),
      )
