-- ===== src/Pages/Conses.antt =====
-- What ikrt_weak_cons makes is new, and is a weak pair for ikrt_is_weak_pair.
use ikarus.Base.{
  ℕ, ◌+◌, ◌%◌, ◌≤◌, ◌<◌, ◌≡◌, ◌≢◌, refl, ◌∙◌, arith, List, [], ◌∷◌, ltb, Bool-cases, ◌⊎◌, inl, inr,
}
use ikarus.Pages.Cache.{IsMemory}
use ikarus.Pages.Map.{IsFresh, Maps, ik_mmap_typed-Maps}
use ikarus.Pages.Types.{type_at}
use ikarus.Pages.Valid.{Gives}
use ikarus.Pages.Weak.{
  WeakPair, WeakPairs, weak_pairs_mt, cons_at, ikrt_weak_cons, ikrt_is_weak_pair,
}
use ikarus.Pages.{Memory, page_index}

-- A pair with its tag in a page of weak pairs, outside the space that is left.
pub record IsWeakPair (m : Memory) (ap ep p : ℕ) : Type 0 where
  pub tagged : p % 16 ≡ 1
  pub typed_lem : type_at m (page_index p) ≡ weak_pairs_mt
  pub apart : (p < ap) ⊎ (ep ≤ p)

abbrev pub AreWeakPairs : Memory → ℕ → ℕ → List WeakPair → Type 0
AreWeakPairs m ap ep [] = Unit
AreWeakPairs m ap ep (w ∷ ws) = IsWeakPair m ap ep w.pair × AreWeakPairs m ap ep ws

-- The space that is left is in a page of weak pairs.
pub record IsWeak (w : WeakPairs) : Type 0 where
  pub memory_lem : IsMemory w.memory
  pub ap_lem : w.weak_pairs_ap % 16 ≡ 0
  pub ep_lem : w.weak_pairs_ep % 4096 ≡ 0
  pub space :
      w.weak_pairs_ap < w.weak_pairs_ep
      → (w.weak_pairs_ep ≤ w.weak_pairs_ap + 4096)
        × (type_at w.memory (page_index w.weak_pairs_ap) ≡ weak_pairs_mt)
  pub pairs_lem : AreWeakPairs w.memory w.weak_pairs_ap w.weak_pairs_ep w.pairs

abbrev pub IsNew : ℕ → List WeakPair → Type 0
IsNew p [] = Unit
IsNew p (w ∷ ws) = (p ≢ w.pair) × IsNew p ws

-- The pair is new, holds its two values, and is recognized.
pub record Conses (w : WeakPairs) (a d : ℕ) (r : ℕ × WeakPairs) : Type 0 where
  pub valid : IsWeak r.1
  pub made : r.1.pairs ≡ record { pair = r.0; car = a; cdr = d } ∷ w.pairs
  pub new : IsNew r.0 w.pairs
  pub recognized : ikrt_is_weak_pair r.0 r.1 ≡ 63

recognized_lem :
    (p : ℕ) (w : WeakPairs)
    → p % 16 ≡ 1
    → type_at w.memory (page_index p) ≡ weak_pairs_mt
    → ikrt_is_weak_pair p w ≡ 63
unfolding ikrt_is_weak_pair
recognized_lem p w tag t = let low : p % 8 ≡ 1 = omega (arith, tag) in rw (low, t) refl

-- The pairs that there are stay pairs when pages change that were in no use, and the space that is
-- left becomes smaller or is in other pages.
carry :
    (m m' : Memory) (ap ep ap' ep' : ℕ) (ws : List WeakPair)
    → ((p : ℕ) → IsWeakPair m ap ep p → IsWeakPair m' ap' ep' p)
    → AreWeakPairs m ap ep ws
    → AreWeakPairs m' ap' ep' ws
carry m m' ap ep ap' ep' [] f h = tt
carry m m' ap ep ap' ep' (w ∷ ws) f (h, hs) = (f w.pair h, carry m m' ap ep ap' ep' ws f hs)

new_lem :
    (m : Memory) (ap ep p : ℕ) (ws : List WeakPair)
    → ((q : ℕ) → IsWeakPair m ap ep q → p ≢ q)
    → AreWeakPairs m ap ep ws
    → IsNew p ws
new_lem m ap ep p [] f h = tt
new_lem m ap ep p (w ∷ ws) f (h, hs) = (f w.pair h, new_lem m ap ep p ws f hs)

other_page :
    (q mem : ℕ) → mem % 4096 ≡ 0 → page_index q ≢ page_index mem → (q < mem + 16) ⊎ (mem + 4096 ≤ q)
other_page q mem whole ne = elim (Bool-cases (ltb q mem)) [
  | inl e ↦ let lt : q < mem = ground arith in inl (omega (arith, lt))
  | inr e ↦ let le : mem ≤ q = ground arith in inr (omega (arith, le, ne, whole))
]

module _ (w : WeakPairs) (valid : IsWeak w) (a d : ℕ) where
  in_page :
      w.weak_pairs_ap + 16 ≤ w.weak_pairs_ep
      → Conses w a d (
          cons_at (w.weak_pairs_ap + 1) (w.weak_pairs_ap + 16) w.weak_pairs_ep a d w.memory w.pairs)
  in_page room =
      let ap = w.weak_pairs_ap in
      let ep = w.weak_pairs_ep in
      let s = valid.space (omega (arith, room)) in
      let same : page_index (ap + 1) ≡ page_index ap = omega (arith, valid.ap_lem) in
      let type : type_at w.memory (page_index (ap + 1)) ≡ weak_pairs_mt = rw same s.1 in
      let tag : (ap + 1) % 16 ≡ 1 = omega (arith, valid.ap_lem) in
      record {
        valid = record {
          memory_lem = valid.memory_lem;
          ap_lem = omega (arith, valid.ap_lem);
          ep_lem = valid.ep_lem;
          space = λ lt.
              let next : page_index (ap + 16) ≡ page_index ap =
                omega (arith, lt, s.0, valid.ap_lem, valid.ep_lem) in
              (omega (arith, s.0), rw next s.1);
          pairs_lem = (
            record { tagged = tag; typed_lem = type; apart = inl (omega arith) },
            carry w.memory w.memory ap ep (ap + 16) ep w.pairs
                (λ p h. record {
                  tagged = h.tagged;
                  typed_lem = h.typed_lem;
                  apart = elim h.apart [ inl l ↦ inl (omega (arith, l)) | inr g ↦ inr g ];
                })
                valid.pairs_lem,
          );
        };
        made = refl;
        new =
            new_lem w.memory ap ep (ap + 1) w.pairs
              (λ q h e. elim h.apart [
                | inl l ↦ omega (arith, l, e)
                | inr g ↦ omega (arith, g, e, room)
              ])
              valid.pairs_lem;
        recognized = recognized_lem (ap + 1) _ tag type;
      }

  in_new_page :
      (mapped mem : ℕ) (m : Memory)
      → Maps w.memory mapped 4096 weak_pairs_mt (mem, m)
      → Conses w a d (cons_at (mem + 1) (mem + 16) (mem + 4096) a d m w.pairs)
  in_new_page mapped mem m g =
      let b = g.inside.base_page in
      let typed_at : (x : ℕ)
          → page_index x ≡ page_index mem
          → type_at m (page_index x) ≡ weak_pairs_mt =
        λ x e. rw e (g.types_lem (page_index mem) ∙ ground arith) in
      let beside : (q : ℕ)
          → type_at w.memory (page_index q) ≡ weak_pairs_mt
          → page_index q ≢ page_index mem =
        λ q t e.
          let z = g.free (page_index q) (omega (arith, e)) (omega (arith, e)) in
          omega (arith, t, z) in
      record {
        valid = record {
          memory_lem = g.memory;
          ap_lem = omega (arith, b);
          ep_lem = omega (arith, b);
          space = λ lt. (omega arith, typed_at (mem + 16) (omega (arith, b)));
          pairs_lem = (
            record {
              tagged = omega (arith, b);
              typed_lem = typed_at (mem + 1) (omega (arith, b));
              apart = inl (omega arith);
            },
            carry w.memory m w.weak_pairs_ap w.weak_pairs_ep (mem + 16) (mem + 4096) w.pairs
                (λ q h. record {
                  tagged = h.tagged;
                  typed_lem = g.types_lem (page_index q) ∙ ground (arith, h.typed_lem);
                  apart = other_page q mem b (beside q h.typed_lem);
                })
                valid.pairs_lem,
          );
        };
        made = refl;
        new =
            new_lem w.memory w.weak_pairs_ap w.weak_pairs_ep (mem + 1) w.pairs
              (λ q h e. beside q h.typed_lem (omega (arith, e, b))) valid.pairs_lem;
        recognized =
            recognized_lem (mem + 1) _ (omega (arith, b)) (typed_at (mem + 1) (omega (arith, b)));
      }

-- A weak pair is made at a new address, holds the two values and is recognized, and so are all that
-- were made before.
pub ikrt_weak_cons-Conses :
    (mapped a d : ℕ) (w : WeakPairs)
    → IsWeak w
    → IsFresh w.memory mapped 4096
    → Gives (ikrt_weak_cons mapped a d w) (Conses w a d)
unfolding ikrt_weak_cons
ikrt_weak_cons-Conses mapped a d w valid fresh =
    elim (Bool-cases (ltb w.weak_pairs_ep (w.weak_pairs_ap + 16))) [
      | inl e ↦
          let g =
            ik_mmap_typed-Maps w.memory mapped 4096 weak_pairs_mt valid.memory_lem fresh
              (omega arith) in
          rw (e, g.run)
            (record {
              result = _;
              run = refl;
              ensures = in_new_page w valid a d mapped g.result.0 g.result.1 g.ensures;
            })
      | inr e ↦
          rw e (record { result = _; run = refl; ensures = in_page w valid a d (ground arith) })
    ]
