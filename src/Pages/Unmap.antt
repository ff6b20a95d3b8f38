-- ===== src/Pages/Unmap.antt =====
-- ik_munmap_from_segment: the pages of the range, and the cache.
use ikarus.Base.{
  ℕ, ◌+◌, ◌-◌, ◌*◌, ◌%◌, ◌^◌, ◌≤◌, ◌<◌, ◌≡◌, refl, ◌∙◌, arith, Option, none, some, ◌==◌,
  if◌then◌else◌, ◌⊎◌, inl, inr,
}
use ikarus.Pages.Cache.{
  All, IsHole, AreCached, IsMemory, AreCached-carry, AreCached-All, put, Caches, cache_pages-Caches,
}
use ikarus.Pages.Types.{type_at, dirty_at, length-fill}
use ikarus.Pages.Valid.{Inside, Gives}
use ikarus.Pages.{Memory, page_index, entry, fill, cache_pages, ik_munmap_from_segment, unmap}
use ikarus.Pages.Ranges.{
  covers, InUse, Apart, IsHole-same, in_memory-Inside, filled_types, cleaned, all_holes,
  filled-IsTable, covers-apart, covers-in, apart-InUse,
}

-- The pages of the range are holes and not dirty, the others are as before; the first of them are
-- in the cache, as many as it has nodes, and the rest of the range is unmapped.
pub record Unmaps (m : Memory) (base size : ℕ) (r : Memory × Option (ℕ × ℕ)) : Type 0 where
  pub memory : IsMemory r.0
  pub types_lem :
      (page : ℕ) → type_at r.0 page ≡ (if covers base size page then 0 else type_at m page)
  pub dirty_lem :
      (page : ℕ) → dirty_at r.0 page ≡ (if covers base size page then 0 else dirty_at m page)
  pub kept : ℕ
  pub cached_lem : r.0.cached_pages ≡ put base kept m.cached_pages
  pub nodes_lem : r.0.uncached_pages + kept ≡ m.uncached_pages
  pub most : (r.0.uncached_pages ≡ 0) ⊎ (kept * 4096 ≡ size)
  pub left_lem :
      r.1 ≡ (if kept * 4096 == size then none else some (base + kept * 4096, size - kept * 4096))

module _ (m : Memory) (base size : ℕ) (valid : IsMemory m) (h : Inside base size m)
    (used : InUse base size m) where
  abbrev emptied : Memory
  emptied = record m { segment_vector = fill m.segment_vector (entry m base) (page_index size) 0 }

  new-IsHole : (b : ℕ) → b % 4096 ≡ base % 4096 → base ≤ b → b < base + size → IsHole emptied b
  new-IsHole b w lo hi = record {
    whole = omega (arith, w, h.base_page);
    from = omega (arith, lo, h.from);
    to = omega (arith, hi, w, h.base_page, h.size_page, h.to);
    hole =
        rw
          (
            filled_types m valid.table base size h 0 (page_index b),
            covers-in m valid.table base size h b lo hi,
          )
          refl;
  }

  out : All (Apart base size) m.cached_pages
  out = AreCached-All m _ m.cached_pages (apart-InUse m valid.table base size h used) valid.cached

  still_cached : AreCached emptied m.cached_pages
  still_cached =
      AreCached-carry m emptied _ m.cached_pages
        (λ b o hole.
          IsHole-same m emptied b refl refl
            (rw
              (
                filled_types m valid.table base size h 0 (page_index b),
                covers-apart m valid.table base size h b o,
              )
              refl)
            hole)
        out valid.cached

  caching :
      0 < size
      → size < 2 ^ 64
      → Caches emptied base size m.uncached_pages m.cached_pages
          (cache_pages m.uncached_pages base size m.cached_pages)
  caching big small =
      cache_pages-Caches emptied m.uncached_pages base size m.cached_pages big small h.size_page
        new-IsHole out still_cached

  given_back :
      0 < size → size < 2 ^ 64 → Unmaps m base size (unmap m base size emptied.segment_vector)
  given_back big small =
      let c = caching big small in
      let after = unmap m base size emptied.segment_vector in
      let t = filled-IsTable m valid.table base size h 0 in
      record {
        memory = record {
          table = record {
            base_whole = t.base_whole;
            end_whole = t.end_whole;
            ordered = t.ordered;
            types_lem = t.types_lem;
            dirty_lem = length-fill m.dirty_vector (entry m base) (page_index size) 0 ∙ t.dirty_lem;
          };
          cached =
              AreCached-carry emptied after.0 (λ b. Unit) _
                (λ b u hole. IsHole-same emptied after.0 b refl refl refl hole)
                (AreCached-All emptied (λ b. Unit) _ (λ b hole. tt) c.valid) c.valid;
        };
        types_lem = filled_types m valid.table base size h 0;
        dirty_lem = cleaned m valid.table base size h;
        kept = c.kept;
        cached_lem = c.cached_lem;
        nodes_lem = c.nodes_lem;
        most = elim c.most [ inl e ↦ inl e | inr e ↦ inr (omega (arith, e, c.size_lem)) ];
        left_lem = ground (arith, c.size_lem, c.base_lem);
      }

-- Whole pages that are in use are given back: they become holes that are not dirty and no other page
-- changes, as many of them stay in the cache as it has nodes, and the rest is unmapped. The cache
-- still has distinct holes only.
pub ik_munmap_from_segment-Unmaps :
    (m : Memory) (base size : ℕ)
    → IsMemory m
    → Inside base size m
    → InUse base size m
    → 0 < size
    → size < 2 ^ 64
    → Gives (ik_munmap_from_segment base size m) (Unmaps m base size)
unfolding ik_munmap_from_segment
ik_munmap_from_segment-Unmaps m base size valid h used big small =
    rw (in_memory-Inside m valid.table base size h, all_holes m valid.table base size h used)
      (record {
        result = unmap m base size (fill m.segment_vector (entry m base) (page_index size) 0);
        run = refl;
        ensures = given_back m base size valid h used big small;
      })
