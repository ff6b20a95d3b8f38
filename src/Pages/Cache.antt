-- ===== src/Pages/Cache.antt =====
-- The cache of pages: distinct holes inside the tables.
use ikarus.Base.{
  ℕ, zero, suc, ◌+◌, ◌-◌, ◌*◌, ◌%◌, ◌^◌, ◌≤◌, ◌<◌, ◌≡◌, ◌≢◌, refl, arith, List, [], ◌∷◌, ◌==◌,
  Bool-cases, ◌⊎◌, inl, inr,
}
use ikarus.Pages.Types.{type_at}
use ikarus.Pages.Valid.{IsTable}
use ikarus.Pages.{Memory, Caching, page_index, cache_pages}

abbrev pub All : (ℕ → Type 0) → List ℕ → Type 0
All Q [] = Unit
All Q (b ∷ bs) = Q b × All Q bs

pub record IsHole (m : Memory) (b : ℕ) : Type 0 where
  pub whole : b % 4096 ≡ 0
  pub from : m.memory_base ≤ b
  pub to : b + 4096 ≤ m.memory_end
  pub hole : type_at m (page_index b) ≡ 0

abbrev pub AreCached : Memory → List ℕ → Type 0
AreCached m [] = Unit
AreCached m (b ∷ bs) = IsHole m b × (All (λ c. b ≢ c) bs × AreCached m bs)

pub record IsMemory (m : Memory) : Type 0 where
  pub table : IsTable m
  pub cached : AreCached m m.cached_pages

pub AreCached-carry :
    (m m' : Memory) (Q : ℕ → Type 0) (bs : List ℕ)
    → ((b : ℕ) → Q b → IsHole m b → IsHole m' b)
    → All Q bs
    → AreCached m bs
    → AreCached m' bs
AreCached-carry m m' Q [] f qs cs = tt
AreCached-carry m m' Q (b ∷ bs) f (q, qs) (h, (ne, cs)) =
    (f b q h, (ne, AreCached-carry m m' Q bs f qs cs))

pub AreCached-All :
    (m : Memory) (Q : ℕ → Type 0) (bs : List ℕ)
    → ((b : ℕ) → IsHole m b → Q b)
    → AreCached m bs
    → All Q bs
AreCached-All m Q [] f cs = tt
AreCached-All m Q (b ∷ bs) f (h, (ne, cs)) = (f b h, AreCached-All m Q bs f cs)

pub All-map : {Q R : ℕ → Type 0} (bs : List ℕ) → ((b : ℕ) → Q b → R b) → All Q bs → All R bs
All-map [] f qs = tt
All-map (b ∷ bs) f (q, qs) = (f b q, All-map bs f qs)

-- Pages of a range are put in front, the last one first.
abbrev pub put : ℕ → ℕ → List ℕ → List ℕ
put base zero bs = bs
put base (suc k) bs = put (base + 4096) k (base ∷ bs)

-- As many pages of a range as there are nodes went into the cache, or all of them.
pub record Caches (m : Memory) (base size nodes : ℕ) (bs : List ℕ) (c : Caching) : Type 0 where
  pub kept : ℕ
  pub cached_lem : c.cached ≡ put base kept bs
  pub nodes_lem : c.uncached + kept ≡ nodes
  pub base_lem : c.base ≡ base + kept * 4096
  pub size_lem : c.size + kept * 4096 ≡ size
  pub most : (c.uncached ≡ 0) ⊎ (c.size ≡ 0)
  pub valid : AreCached m c.cached

pub cache_pages-Caches :
    (m : Memory) (nodes base size : ℕ) (bs : List ℕ)
    → 0 < size
    → size < 2 ^ 64
    → size % 4096 ≡ 0
    → ((b : ℕ) → (b % 4096 ≡ base % 4096) → base ≤ b → b < base + size → IsHole m b)
    → All (λ b. (b < base) ⊎ (base + size ≤ b)) bs
    → AreCached m bs
    → Caches m base size nodes bs (cache_pages nodes base size bs)
unfolding cache_pages
cache_pages-Caches m zero base size bs some small whole holes out cs = record {
  kept = 0;
  cached_lem = refl;
  nodes_lem = refl;
  base_lem = omega arith;
  size_lem = omega arith;
  most = inl refl;
  valid = cs;
}
cache_pages-Caches m (suc r) base size bs some small whole holes out cs =
    let left : (size + (2 ^ 64 - 4096)) % 2 ^ 64 ≡ size - 4096 = omega arith in
    let next : AreCached m (base ∷ bs) = (
      holes base refl (omega arith) (omega arith),
      (
        All-map bs
            (λ b o e. elim o [ inl l ↦ omega (arith, l, e) | inr g ↦ omega (arith, g, e, some) ])
            out,
        cs,
      ),
    ) in
    rw left (elim (Bool-cases (size - 4096 == 0)) [
      | inl e ↦ rw e (record {
        kept = 1;
        cached_lem = refl;
        nodes_lem = omega arith;
        base_lem = omega arith;
        size_lem = ground arith;
        most = inr refl;
        valid = next;
      })
      | inr e ↦
          let more : 4096 < size = ground arith in
          let c =
            cache_pages-Caches m r (base + 4096) (size - 4096) (base ∷ bs) (omega (arith, more))
              (omega arith) (omega arith)
              (λ b w lo hi.
                holes b (omega (arith, w)) (omega (arith, lo)) (omega (arith, hi, more)))
              (
                inl (omega arith),
                All-map bs
                    (λ b o. elim o [
                      | inl l ↦ inl (omega (arith, l))
                      | inr g ↦ inr (omega (arith, g, more))
                    ])
                    out,
              )
              next in
          rw e (record {
            kept = suc c.kept;
            cached_lem = c.cached_lem;
            nodes_lem = omega (arith, c.nodes_lem);
            base_lem = omega (arith, c.base_lem);
            size_lem = omega (arith, c.size_lem, more);
            most = c.most;
            valid = c.valid;
          })
    ])
