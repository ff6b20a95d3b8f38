-- ===== src/Symbols/Place.antt =====
-- Tables whose symbols all stand in their home buckets, and the writes to one bucket.
use ikarus.Base.{
  ℕ, ◌%◌, ◌<◌, ◌≡◌, ◌≢◌, refl, sym, ap, ◌∙◌, arith, List, [], ◌∷◌, Option, none, some, true, ◌==◌,
  if◌then◌else◌, inl, inr, Bool-cases, length, set, length-set, get_or-set, get_or-replicate,
  length-replicate,
}
use native.Mathlib.Nat.{mod-lt}
use ikarus.Hash.{compute_hash}
use ikarus.Symbols.Chain.{
  strings_eqp_iff, lookup, lookup-nil, lookup-cons, lookup-frame, IsChain, InChain, IsChain-string,
  IsChain-frame,
}
use ikarus.Symbols.Unlink.{unlink-IsUnlinked}
use ikarus.Symbols.{
  strings_eqp, unlink, Table, num_of_buckets, make_symbol_table, bucket, bucket_index,
}

num_of_buckets_pos : 0 < num_of_buckets
unfolding num_of_buckets
num_of_buckets_pos = omega arith

-- The bucket of a string.
pub home : List ℕ → ℕ
home str = compute_hash str % num_of_buckets

pub home-lt : (str : List ℕ) → home str < num_of_buckets
unfolding home
home-lt str = mod-lt (compute_hash str) num_of_buckets_pos

-- Each symbol stands in the bucket of its string, and no string occurs twice.
pub record IsTable (f : ℕ → Option (List ℕ)) (st : Table) : Type 0 where
  pub width : length st.buckets ≡ num_of_buckets
  pub chains : (i : ℕ) → IsChain home i f (bucket st i)

-- The symbol that a table holds under a string.
unfoldable pub view : (ℕ → Option (List ℕ)) → Table → List ℕ → Option ℕ
view f st str = lookup f str (bucket st (home str))

pub make_symbol_table-IsTable :
    (f : ℕ → Option (List ℕ)) (mem : ℕ)
    → IsTable f (make_symbol_table mem)
      × ((str : List ℕ) → view f (make_symbol_table mem) str ≡ none)
unfolding make_symbol_table view
make_symbol_table-IsTable f mem = (
  record {
    width = length-replicate {A = List ℕ} num_of_buckets [];
    chains = λ i. rw (get_or-replicate {A = List ℕ} num_of_buckets i []) tt;
  },
  λ str. rw (get_or-replicate {A = List ℕ} num_of_buckets (home str) []) (lookup-nil f str),
)

pub bucket_index-home :
    (f : ℕ → Option (List ℕ)) (st : Table) (str : List ℕ)
    → IsTable f st
    → bucket_index str st ≡ home str
unfolding bucket_index home
bucket_index-home f st str h = rw h.width

-- A bucket is replaced while the symbols of the others keep their strings.
abbrev pub set_bucket : Table → ℕ → List ℕ → Table
set_bucket st i c = record st { buckets = set st.buckets i c }

module _ (f g : ℕ → Option (List ℕ)) (st : Table) (h : IsTable f st) (i : ℕ)
    (lt : i < num_of_buckets) (c : List ℕ)
    (others : (j : ℕ) → j ≢ i → (s : ℕ) → InChain s (bucket st j) → g s ≡ f s) where
  set_bucket-bucket : (j : ℕ) → bucket (set_bucket st i c) j ≡ (if j == i then c else bucket st j)
  set_bucket-bucket j = get_or-set st.buckets i j c [] (rw h.width lt)

  pub set_bucket-IsTable : IsChain home i g c → IsTable g (set_bucket st i c)
  set_bucket-IsTable chain = record {
    width = length-set st.buckets i c ∙ h.width;
    chains = λ j. rw (set_bucket-bucket j) (elim (Bool-cases (j == i)) [
      | inl same ↦ let e : j ≡ i = ground arith in rw same (rw e chain)
      | inr far ↦
          rw far (IsChain-frame f g home j (bucket st j) (h.chains j) (others j (ground arith)))
    ]);
  }

  pub set_bucket-view :
      (str : List ℕ)
      → view g (set_bucket st i c) str ≡ (if home str == i then lookup g str c else view f st str)
  unfolding view
  set_bucket-view str = rw (set_bucket-bucket (home str)) (elim (Bool-cases (home str == i)) [
    | inl same ↦ rw same
    | inr far ↦
        rw far (lookup-frame f g str (bucket st (home str)) (others (home str) (ground arith)))
  ])

-- The abstract map with one entry changed.
abbrev pub update : (List ℕ → Option ℕ) → List ℕ → Option ℕ → List ℕ → Option ℕ
update m str v q = if strings_eqp str q then v else m q

module _ (f g : ℕ → Option (List ℕ)) (st : Table) (h : IsTable f st) (u : List ℕ) where
  -- The bucket of a string is replaced by one that reads differently at that string only.
  abbrev pub Stores : Option ℕ → List ℕ → Type 0
  Stores v c =
      IsTable g (set_bucket st (home u) c)
      × ((q : List ℕ) → view g (set_bucket st (home u) c) q ≡ update (view f st) u v q)

  store :
      (v : Option ℕ) (c : List ℕ)
      → ((j : ℕ) → j ≢ home u → (t : ℕ) → InChain t (bucket st j) → g t ≡ f t)
      → IsChain home (home u) g c
      → ((q : List ℕ)
          → lookup g q c ≡ (if strings_eqp u q then v else lookup f q (bucket st (home u))))
      → Stores v c
  store v c others chain reads = (
    set_bucket-IsTable f g st h (home u) (home-lt u) c others chain,
    λ q. set_bucket-view f g st h (home u) (home-lt u) c others q ∙ at_home q,
  )
    where
      at_home :
          (q : List ℕ)
          → (if home q == home u then lookup g q c else view f st q)
            ≡ (if strings_eqp u q then v else view f st q)
      at_home q =
          unfold view in
          elim (Bool-cases (strings_eqp u q)) [
            | inl same ↦
                let e : u ≡ q = (strings_eqp_iff u q).0 same in
                let here : (home q == home u) ≡ true = let e' = ap home e in ground arith in
                rw (here, reads q, same)
            | inr other ↦ elim (Bool-cases (home q == home u)) [
              | inl here ↦
                  let e : home q ≡ home u = ground arith in rw (here, reads q, other) (rw (sym e))
              | inr far ↦ rw (far, other)
            ]
          ]

  -- A symbol under a string that the table does not hold goes in front of its bucket.
  pub push-Stores :
      (s : ℕ)
      → g s ≡ some u
      → view f st u ≡ none
      → ((j t : ℕ) → InChain t (bucket st j) → g t ≡ f t)
      → Stores (some s) (s ∷ bucket st (home u))
  push-Stores s is free same =
      let b = bucket st (home u) in
      let free' : lookup f u b ≡ none = unfold view in free in
      store (some s) (s ∷ b) (λ j far. same j)
        (
          (u, is, refl, lookup-frame f g u b (same (home u)) ∙ free'),
          IsChain-frame f g home (home u) b (h.chains (home u)) (same (home u)),
        )
        (λ q. rw (lookup-cons g u q s b is, lookup-frame f g q b (same (home u))))

  -- A symbol that the table holds is taken out of its bucket.
  pub drop-Stores :
      (s : ℕ) (c : List ℕ)
      → f s ≡ some u
      → unlink s (bucket st (home u)) ≡ some c
      → ((t : ℕ) → t ≢ s → g t ≡ f t)
      → Stores none c
  drop-Stores s c is found same =
      let b = bucket st (home u) in
      let r = unlink-IsUnlinked home (home u) f s u b c (h.chains (home u)) is found in
      let off : (t : ℕ) → InChain t c → g t ≡ f t = λ t m. same t (r.others t m).1 in
      store none c
        (λ j far t m. same t (λ e.
          let (v, has, there) = IsChain-string home j f (bucket st j) t (h.chains j) m in
          let eq : v ≡ u = let e' = sym has ∙ ap f e ∙ is in ground arith in
          far (sym there ∙ ap home eq)))
        (IsChain-frame f g home (home u) c r.chain off) (λ q. lookup-frame f g q c off ∙ r.reads q)
