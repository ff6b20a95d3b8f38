-- ===== src/Pages/Ranges.antt =====
-- Ranges of whole pages in the vectors, and the pages that are outside of them.
use ikarus.Base.{
  ℕ, ◌+◌, ◌-◌, ◌≤◌, ◌<◌, ◌≡◌, ◌≢◌, refl, ◌∙◌, arith, some, Bool, true, false, ltb, leb, ◌==◌, ◌&&◌,
  if◌then◌else◌, Bool-cases, ◌⊎◌, inl, inr, length,
}
use ikarus.Pages.Cache.{IsHole}
use ikarus.Pages.Types.{type_at, dirty_at, length-fill, make_holes-fill, entry_at-fill}
use ikarus.Pages.Valid.{IsTable, Inside}
use ikarus.Pages.{Memory, page_index, entry, fill, make_holes, in_memory, align_to_next_page}

-- Whether a page is one of a range.
abbrev pub covers : ℕ → ℕ → ℕ → Bool
covers base size page = leb (page_index base) page && ltb page (page_index base + page_index size)

-- No page of the range is a hole.
abbrev pub InUse : ℕ → ℕ → Memory → Type 0
InUse base size m =
    (page : ℕ)
    → page_index base ≤ page
    → page < page_index base + page_index size
    → type_at m page ≢ 0

abbrev pub Apart : ℕ → ℕ → ℕ → Type 0
Apart base size b = (b < base) ⊎ (base + size ≤ b)

-- The same pages and types, whatever the cache is.
pub IsHole-same :
    (m m' : Memory) (b : ℕ)
    → m.memory_base ≡ m'.memory_base
    → m.memory_end ≡ m'.memory_end
    → type_at m' (page_index b) ≡ type_at m (page_index b)
    → IsHole m b
    → IsHole m' b
IsHole-same m m' b lo hi same h = record {
  whole = h.whole;
  from = omega (arith, h.from, lo);
  to = omega (arith, h.to, hi);
  hole = same ∙ h.hole;
}

module _ (m : Memory) (t : IsTable m) (base size : ℕ) (h : Inside base size m) where
  room : entry m base + page_index size ≤ length m.segment_vector
  room = omega (
    arith, t.types_lem, t.base_whole, t.end_whole, t.ordered, h.base_page, h.size_page, h.from,
    h.to,
  )

  room_dirty : entry m base + page_index size ≤ length m.dirty_vector
  room_dirty = omega (
    arith, t.dirty_lem, t.base_whole, t.end_whole, t.ordered, h.base_page, h.size_page, h.from,
    h.to,
  )

  low : page_index m.memory_base ≤ page_index base
  low = omega (arith, h.from)

  pub in_memory-Inside : in_memory base size m ≡ true
  in_memory-Inside =
      let a : leb m.memory_base base ≡ true = ground (arith, h.from) in
      let b : leb (base + size) m.memory_end ≡ true = ground (arith, h.to) in
      let c : (size == align_to_next_page size) ≡ true = ground (arith, h.size_page) in
      rw (a, b, c) refl

  -- The types of all pages when those of the range are set.
  pub filled_types :
      (type page : ℕ)
      → type_at
          (record m {
            segment_vector = fill m.segment_vector (entry m base) (page_index size) type;
          })
          page
        ≡ (if covers base size page then type else type_at m page)
  filled_types type page =
      entry_at-fill m.segment_vector (page_index m.memory_base) page (page_index base)
        (page_index size) type low room

  pub cleaned :
      (page : ℕ)
      → dirty_at
          (record m { dirty_vector = fill m.dirty_vector (entry m base) (page_index size) 0 })
          page
        ≡ (if covers base size page then 0 else dirty_at m page)
  cleaned page =
      entry_at-fill m.dirty_vector (page_index m.memory_base) page (page_index base)
        (page_index size) 0 low room_dirty

  pub all_holes :
      InUse base size m
      → make_holes m.segment_vector (entry m base) (page_index size)
        ≡ some (fill m.segment_vector (entry m base) (page_index size) 0)
  all_holes used =
      make_holes-fill m.segment_vector (entry m base) (page_index size) room (λ j lo hi e.
        let back : page_index m.memory_base + j - page_index m.memory_base ≡ j = omega arith in
        let inside : ltb (page_index m.memory_base + j) (page_index m.memory_base) ≡ false =
          ground arith in
        used (page_index m.memory_base + j) (omega (arith, lo, low)) (omega (arith, hi, low))
          (rw (inside, back) e))

  pub filled-IsTable :
      (type : ℕ)
      → IsTable (record m {
        segment_vector = fill m.segment_vector (entry m base) (page_index size) type;
      })
  filled-IsTable type = record {
    base_whole = t.base_whole;
    end_whole = t.end_whole;
    ordered = t.ordered;
    types_lem = length-fill m.segment_vector (entry m base) (page_index size) type ∙ t.types_lem;
    dirty_lem = t.dirty_lem;
  }

  -- A page outside of the range, and one in it.
  pub covers-apart : (b : ℕ) → Apart base size b → covers base size (page_index b) ≡ false
  covers-apart b (inl lt) =
      let before : leb (page_index base) (page_index b) ≡ false = ground (arith, lt, h.base_page) in
      rw before refl
  covers-apart b (inr le) =
      let behind : ltb (page_index b) (page_index base + page_index size) ≡ false =
        ground (arith, le, h.base_page, h.size_page) in
      ground (arith, behind)

  pub covers-in : (b : ℕ) → base ≤ b → b < base + size → covers base size (page_index b) ≡ true
  covers-in b lo hi =
      let first : leb (page_index base) (page_index b) ≡ true = ground (arith, lo) in
      let last : ltb (page_index b) (page_index base + page_index size) ≡ true =
        ground (arith, hi, h.base_page, h.size_page) in
      rw (first, last) refl

  -- A hole is not in a range that is in use.
  pub apart-InUse : InUse base size m → (b : ℕ) → IsHole m b → Apart base size b
  apart-InUse used b hole = elim (Bool-cases (ltb b base)) [
    | inl e ↦ inl (ground arith)
    | inr e ↦ elim (Bool-cases (leb (base + size) b)) [
      | inl f ↦ inr (ground arith)
      | inr f ↦
          let lo : base ≤ b = ground arith in
          let hi : b < base + size = ground arith in
          absurd (
            used (page_index b) (omega (arith, lo)) (omega (arith, hi, h.base_page, h.size_page))
              hole.hole)
    ]
  ]
