-- ===== src/Pages/Map.antt =====
-- ik_mmap_typed: the pages that it hands out, from the cache or from ik_mmap.
use ikarus.Base.{
  ℕ, ◌+◌, ◌%◌, ◌≤◌, ◌<◌, ◌≡◌, ◌≢◌, refl, sym, subst, ◌∙◌, arith, List, [], ◌∷◌, ltb, ◌==◌,
  if◌then◌else◌, Bool-cases, ◌⊎◌, inl, inr,
}
use ikarus.Pages.Cache.{All, AreCached, IsMemory, AreCached-carry, AreCached-All}
use ikarus.Pages.Types.{type_at, dirty_at}
use ikarus.Pages.Valid.{Inside, Extends, Gives, extend_table_maybe-Extends}
use ikarus.Pages.{
  Memory, page_index, entry, fill, set_segment_type, from_cache, typed, ik_mmap_typed,
}
use ikarus.Pages.Ranges.{
  covers, Apart, IsHole-same, in_memory-Inside, filled_types, filled-IsTable, covers-apart,
}

-- No page of the range has a type.
abbrev pub AllFree : ℕ → ℕ → Memory → Type 0
AllFree base size m =
    (page : ℕ)
    → page_index base ≤ page
    → page < page_index base + page_index size
    → type_at m page ≡ 0

-- What ik_mmap maps: whole pages that were not mapped, so that they are in no use and not in the
-- cache, and not on both sides of the memory that is.
pub record IsFresh (m : Memory) (mapped size : ℕ) : Type 0 where
  pub whole : mapped % 4096 ≡ 0
  pub one_side : mapped < m.memory_base → mapped + size ≤ m.memory_end
  pub apart : All (Apart mapped size) m.cached_pages
  pub free : AllFree mapped size m

-- The pages were free and have the type now, and no other page changes; they are from ik_mmap, or
-- they are the page that was first in the cache and is not there any more.
pub record Maps (m : Memory) (mapped size type : ℕ) (r : ℕ × Memory) : Type 0 where
  pub memory : IsMemory r.1
  pub inside : Inside r.0 size r.1
  pub free : AllFree r.0 size m
  pub types_lem :
      (page : ℕ) → type_at r.1 page ≡ (if covers r.0 size page then type else type_at m page)
  pub dirty_lem : (page : ℕ) → dirty_at r.1 page ≡ dirty_at m page
  pub apart : All (Apart r.0 size) r.1.cached_pages
  pub source :
      ((r.0 ≡ mapped) × (r.1.cached_pages ≡ m.cached_pages))
      ⊎ (m.cached_pages ≡ r.0 ∷ r.1.cached_pages)

module _ (m : Memory) (valid : IsMemory m) (p size type : ℕ) where
  abbrev typed_pages : Memory → Memory
  typed_pages m' = record m' {
    segment_vector = fill m'.segment_vector (entry m' p) (page_index size) type;
  }

  put_types :
      (m' : Memory)
      → Extends p size m m'
      → All (Apart p size) m.cached_pages
      → IsMemory (typed_pages m')
  put_types m' x out = record {
    table = filled-IsTable m' x.table p size x.inside type;
    cached = subst (AreCached (typed_pages m')) (sym x.cache_same) (
        AreCached-carry m (typed_pages m') _ m.cached_pages
          (λ b o hole. record {
            whole = hole.whole;
            from = omega (arith, hole.from, x.lower);
            to = omega (arith, hole.to, x.higher);
            hole =
                filled_types m' x.table p size x.inside type (page_index b)
                ∙ rw (covers-apart m' x.table p size x.inside b o)
                    (x.types_same (page_index b) ∙ hole.hole);
          })
          out valid.cached);
  }

  typed-Maps :
      (mapped nodes : ℕ) (before : List ℕ)
      → p % 4096 ≡ 0
      → size % 4096 ≡ 0
      → (p < m.memory_base → p + size ≤ m.memory_end)
      → All (Apart p size) m.cached_pages
      → AllFree p size m
      → ((p ≡ mapped) × (m.cached_pages ≡ before)) ⊎ (before ≡ p ∷ m.cached_pages)
      → Gives
          (typed size type p m)
          (Maps (record m { cached_pages = before; uncached_pages = nodes }) mapped size type)
  unfolding typed set_segment_type
  typed-Maps mapped nodes before hp hs fits out free from =
      let e = extend_table_maybe-Extends p size m valid.table hp hs fits in
      let x = e.ensures in
      rw (typed, e.run, set_segment_type, in_memory-Inside e.result x.table p size x.inside)
        (record {
          result = (p, typed_pages e.result);
          run = refl;
          ensures = record {
            memory = put_types e.result x out;
            inside = record {
              base_page = hp;
              size_page = hs;
              from = x.inside.from;
              to = x.inside.to;
            };
            free = free;
            types_lem = λ page.
                filled_types e.result x.table p size x.inside type page
                ∙ rw (x.types_same page) refl;
            dirty_lem = x.dirty_same;
            apart = rw x.cache_same out;
            source = elim from [
              | inl (a, b) ↦ inl (a, x.cache_same ∙ b)
              | inr b ↦ inr (rw x.cache_same b)
            ];
          };
        })

-- Another page of the cache is beside a page.
cached_apart :
    (m : Memory) (p : ℕ) (bs : List ℕ)
    → p % 4096 ≡ 0
    → All (λ c. p ≢ c) bs
    → AreCached m bs
    → All (Apart p 4096) bs
cached_apart m p [] w ne cs = tt
cached_apart m p (b ∷ bs) w (n, ne) (h, (more, cs)) = (
  elim (Bool-cases (ltb b p)) [
    | inl e ↦ inl (ground arith)
    | inr e ↦
        let le : p ≤ b = ground arith in
        elim (Bool-cases (p == b)) [
          | inl f ↦ absurd (n (ground arith))
          | inr f ↦ let lt : p < b = ground arith in inr (omega (arith, lt, w, h.whole))
        ]
  ],
  cached_apart m p bs w ne cs,
)

from_mmap :
    (m : Memory) (mapped size type : ℕ)
    → IsMemory m
    → IsFresh m mapped size
    → size % 4096 ≡ 0
    → Gives (typed size type mapped m) (Maps m mapped size type)
from_mmap m mapped size type valid f hs =
    typed-Maps m valid mapped size type mapped m.uncached_pages m.cached_pages f.whole hs f.one_side
      f.apart f.free (inl (refl, refl))

page_from_cache :
    (m : Memory) (mapped type : ℕ) (cached : List ℕ)
    → m.cached_pages ≡ cached
    → IsMemory m
    → IsFresh m mapped 4096
    → Gives
        (typed 4096 type (from_cache mapped m cached).0 (from_cache mapped m cached).1)
        (Maps m mapped 4096 type)
unfolding from_cache
page_from_cache m mapped type [] e valid f = from_mmap m mapped 4096 type valid f (omega arith)
page_from_cache m mapped type (b ∷ bs) e valid f =
    let taken : Memory = record m { cached_pages = bs; uncached_pages = m.uncached_pages + 1 } in
    let t = valid.table in
    let (h, (ne, cs)) : AreCached m (b ∷ bs) = subst (AreCached m) e valid.cached in
    let rest : AreCached taken bs =
      AreCached-carry m taken (λ c. Unit) bs (λ c u hole. IsHole-same m taken c refl refl refl hole)
        (AreCached-All m (λ c. Unit) bs (λ c hole. tt) cs) cs in
    let valid' : IsMemory taken = record {
      table = record {
        base_whole = t.base_whole;
        end_whole = t.end_whole;
        ordered = t.ordered;
        types_lem = t.types_lem;
        dirty_lem = t.dirty_lem;
      };
      cached = rest;
    } in
    let r =
      typed-Maps taken valid' b 4096 type mapped m.uncached_pages (b ∷ bs) h.whole (omega arith)
        (λ lt. absurd (omega (arith, lt, h.from))) (cached_apart m b bs h.whole ne cs)
        (λ page lo hi. let same : page ≡ page_index b = omega (arith, lo, hi) in rw same h.hole)
        (inr refl) in
    subst
      (λ xs.
        Gives (typed 4096 type b taken) (Maps (record m { cached_pages = xs }) mapped 4096 type))
      (sym e) r

-- A call with whole pages, where ik_mmap maps fresh ones: the pages that are handed out were free,
-- have the type afterwards and are not in the cache, which still has distinct holes only. No other
-- page changes. They are those that ik_mmap mapped, or the first page of the cache.
pub ik_mmap_typed-Maps :
    (m : Memory) (mapped size type : ℕ)
    → IsMemory m
    → IsFresh m mapped size
    → size % 4096 ≡ 0
    → Gives (ik_mmap_typed mapped size type m) (Maps m mapped size type)
unfolding ik_mmap_typed
ik_mmap_typed-Maps m mapped size type valid f hs = elim (Bool-cases (size == 4096)) [
  | inl e ↦
      let page : size ≡ 4096 = ground arith in
      rw page (page_from_cache m mapped type m.cached_pages refl valid (rw page at f))
  | inr e ↦ rw e (from_mmap m mapped size type valid f hs)
]
