-- ===== src/Symbols/Unlink.antt =====
-- The removal of a symbol from its bucket.
use ikarus.Base.{
  ℕ, ◌≡◌, ◌≢◌, refl, sym, ◌∙◌, arith, List, [], ◌∷◌, Option, none, some, true, ◌==◌, if◌then◌else◌,
  inl, inr, Bool-cases, Option-cases,
}
use ikarus.Symbols.Chain.{
  strings_eqp_iff, strings_eqp_refl, lookup, lookup-nil, lookup-cons, IsChain, InChain,
}
use ikarus.Symbols.{strings_eqp, unlink}

pub unlink-none : (s : ℕ) (b : List ℕ) → unlink s b ≡ none → ¬ InChain s b
unfolding unlink
unlink-none s [] e m = m
unlink-none s (t ∷ b) e m = elim (Bool-cases (t == s)) [
  | inl same ↦ let e' = rw same at e in cc
  | inr other ↦ elim (Option-cases (unlink s b)) [
    | inl gone ↦ elim m [ inl is ↦ ground arith | inr later ↦ unlink-none s b gone later ]
    | inr (b', here) ↦ ground arith
  ]
]

module _ (home : List ℕ → ℕ) (i : ℕ) (f : ℕ → Option (List ℕ)) where
  pub lookup-InChain :
      (s : ℕ) (u : List ℕ) (b : List ℕ)
      → IsChain home i f b
      → f s ≡ some u
      → InChain s b
      → lookup f u b ≢ none
  lookup-InChain s u [] h is m e = m
  lookup-InChain s u (t ∷ b) h is m e =
      let (v, has, _, _) = h.0 in
      let e' = rw (lookup-cons f v u t b has) at e in
      elim m [
        | inl eq ↦
            let same : v ≡ u = ground arith in let e'' = rw (same, strings_eqp_refl u) at e' in cc
        | inr later ↦ elim (Bool-cases (strings_eqp v u)) [
          | inl eq ↦ let e'' = rw eq at e' in cc
          | inr ne ↦ lookup-InChain s u b h.1 is later (rw ne at e')
        ]
      ]

  -- A symbol of the bucket is the one found under its string.
  pub lookup-own :
      (s : ℕ) (u : List ℕ) (b : List ℕ)
      → IsChain home i f b
      → f s ≡ some u
      → InChain s b
      → lookup f u b ≡ some s
  lookup-own s u [] h is m = absurd m
  lookup-own s u (t ∷ b) h is m =
      let (v, has, _, fresh) = h.0 in
      rw (lookup-cons f v u t b has) (elim m [
        | inl e ↦ let same : v ≡ u = ground arith in rw (same, strings_eqp_refl u, e)
        | inr later ↦ elim (Bool-cases (strings_eqp v u)) [
          | inl eq ↦
              absurd (lookup-InChain s u b h.1 is later (rw ((strings_eqp_iff v u).0 eq) at fresh))
          | inr ne ↦ rw ne (lookup-own s u b h.1 is later)
        ]
      ])

  pub lookup_in :
      (s : ℕ) (u : List ℕ) (b : List ℕ) → IsChain home i f b → lookup f u b ≡ some s → InChain s b
  lookup_in s u [] h e = let e' = sym (lookup-nil f u) ∙ e in cc
  lookup_in s u (t ∷ b) h e =
      let (v, has, _, _) = h.0 in
      let e' = rw (lookup-cons f v u t b has) at e in
      elim (Bool-cases (strings_eqp v u)) [
        | inl eq ↦ let e'' = rw eq at e' in inl (ground arith)
        | inr ne ↦ inr (lookup_in s u b h.1 (rw ne at e'))
      ]

  -- What is left of the bucket.
  pub record IsUnlinked (s : ℕ) (u : List ℕ) (b c : List ℕ) : Type 0 where
    pub was : InChain s b
    pub others : (t : ℕ) → InChain t c → InChain t b × (t ≢ s)
    pub chain : IsChain home i f c
    pub reads : (v : List ℕ) → lookup f v c ≡ (if strings_eqp u v then none else lookup f v b)

  unlink_here :
      (s : ℕ) (u : List ℕ) (b : List ℕ)
      → IsChain home i f (s ∷ b)
      → f s ≡ some u
      → IsUnlinked s u (s ∷ b) b
  unlink_here s u b h is =
      let (v, has, _, fresh) = h.0 in
      let same : v ≡ u = let e = sym has ∙ is in ground arith in
      let absent : lookup f u b ≡ none = rw same at fresh in
      record {
        was = inl refl;
        others = λ t m. (inr m, λ e. lookup-InChain s u b h.1 is (rw e at m) absent);
        chain = h.1;
        reads = λ w. rw (lookup-cons f u w s b is) (elim (Bool-cases (strings_eqp u w)) [
          | inl eq ↦ let e : u ≡ w = (strings_eqp_iff u w).0 eq in rw eq (rw (← e) absent)
          | inr ne ↦ rw ne
        ]);
      }

  unlink_later :
      (s : ℕ) (u : List ℕ) (t : ℕ) (b c : List ℕ)
      → IsChain home i f (t ∷ b)
      → f s ≡ some u
      → t ≢ s
      → IsUnlinked s u b c
      → IsUnlinked s u (t ∷ b) (t ∷ c)
  unlink_later s u t b c h is apart r =
      let (v, has, at_home, fresh) = h.0 in
      let distinct : strings_eqp v u ≡ true → ⊥ =
        λ eq. lookup-InChain s u b h.1 is r.was (rw ((strings_eqp_iff v u).0 eq) at fresh) in
      let absent : lookup f v c ≡ none =
        r.reads v
        ∙ (elim (Bool-cases (strings_eqp u v)) [ inl eq ↦ rw eq | inr ne ↦ rw ne fresh ]) in
      record {
        was = inr r.was;
        others = λ x m. elim m [
          | inl e ↦ (inl e, λ e'. apart (sym e ∙ e'))
          | inr m' ↦ (inr (r.others x m').0, (r.others x m').1)
        ];
        chain = ((v, has, at_home, absent), r.chain);
        reads = λ w.
            rw (lookup-cons f v w t c has, lookup-cons f v w t b has, r.reads w)
              (elim (Bool-cases (strings_eqp u w)) [
                | inl eq ↦
                    let e : u ≡ w = (strings_eqp_iff u w).0 eq in
                    elim (Bool-cases (strings_eqp v w)) [
                      | inl eq' ↦ absurd (distinct (rw (← e) at eq'))
                      | inr ne' ↦ rw (eq, ne')
                    ]
                | inr ne ↦ rw ne
              ]);
      }

  pub unlink-IsUnlinked :
      (s : ℕ) (u : List ℕ) (b c : List ℕ)
      → IsChain home i f b
      → f s ≡ some u
      → unlink s b ≡ some c
      → IsUnlinked s u b c
  unfolding unlink
  unlink-IsUnlinked s u [] c h is e = cc
  unlink-IsUnlinked s u (t ∷ b) c h is e = elim (Bool-cases (t == s)) [
    | inl same ↦
        let eq : t ≡ s = ground arith in
        let rest : b ≡ c = let e' = rw same at e in ground arith in
        rw (eq, ← rest) (unlink_here s u b (rw eq at h) is)
    | inr other ↦ elim (Option-cases (unlink s b)) [
      | inl none_here ↦ ground arith
      | inr (d, here) ↦
          let rest : t ∷ d ≡ c = ground arith in
          rw (← rest)
            (unlink_later s u t b d h is (ground arith) (unlink-IsUnlinked s u b d h.1 is here))
    ]
  ]
