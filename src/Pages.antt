-- ===== src/Pages.antt =====
-- The pages of src/ikarus-runtime.c and their types: the segment vector and the dirty vector, which
-- have an entry for each page from memory_base up to memory_end, and the cache of pages that are
-- kept mapped. A failed assert is none. What ik_mmap maps is an argument.
pub mod Types
pub mod Cache
pub mod Valid
pub mod Ranges
pub mod Unmap
pub mod Map
pub mod History
pub mod Weak
pub mod Conses
use ikarus.Base.{
  ℕ, zero, suc, ◌+◌, ◌-◌, ◌*◌, ◌/◌, ◌%◌, ◌^◌, List, [], ◌∷◌, ◌++◌, replicate, set, get_or, Option,
  none, some, Bool, true, false, ltb, leb, ◌==◌, ◌&&◌, if◌then◌else◌,
}

-- `uncached_pages` counts the nodes of the list that hold no page.
pub record Memory : Type 0 where
  pub memory_base : ℕ
  pub memory_end : ℕ
  pub segment_vector : List ℕ
  pub dirty_vector : List ℕ
  pub cached_pages : List ℕ
  pub uncached_pages : ℕ

abbrev pub page_index : ℕ → ℕ
page_index x = x / 4096

abbrev pub align_to_next_page : ℕ → ℕ
align_to_next_page x = (x + 4095) / 4096 * 4096

-- A segment has 1024 pages.
abbrev pub segment_index : ℕ → ℕ
segment_index x = x / 4194304

-- The first part makes the vectors longer in front, the second behind.
unfoldable pub extend_table_maybe : ℕ → ℕ → Memory → Option Memory
extend_table_maybe p size m =
    let q = p + size in
    let old_lo = segment_index m.memory_base in
    let old_hi = segment_index m.memory_end in
    let new_lo = segment_index p in
    let new_hi = segment_index (q + 4194303) in
    let in_front : List ℕ = replicate ((old_hi - new_lo - (old_hi - old_lo)) * 1024) 0 in
    let behind : List ℕ = replicate ((new_hi - old_lo - (old_hi - old_lo)) * 1024) 0 in
    if size == align_to_next_page size
    then if ltb p m.memory_base
      then some (record m {
        dirty_vector = in_front ++ m.dirty_vector;
        segment_vector = in_front ++ m.segment_vector;
        memory_base = new_lo * 4194304;
      })
      else if leb m.memory_end q
      then some (record m {
        dirty_vector = m.dirty_vector ++ behind;
        segment_vector = m.segment_vector ++ behind;
        memory_end = new_hi * 4194304;
      })
      else some m
    else none

-- The asserts in front of both loops over the pages of a range.
abbrev pub in_memory : ℕ → ℕ → Memory → Bool
in_memory base size m =
    leb m.memory_base base && (leb (base + size) m.memory_end && size == align_to_next_page size)

-- Where the entry of a page is.
abbrev pub entry : Memory → ℕ → ℕ
entry m base = page_index base - page_index m.memory_base

-- Entries from one on get a value.
unfoldable pub fill : List ℕ → ℕ → ℕ → ℕ → List ℕ
fill v i zero type = v
fill v i (suc n) type = fill (set v i type) (i + 1) n type

unfoldable pub set_segment_type : ℕ → ℕ → ℕ → Memory → Option Memory
set_segment_type base size type m =
    if in_memory base size m
    then some
        (record m { segment_vector = fill m.segment_vector (entry m base) (page_index size) type })
    else none

-- The loop that makes holes (of type 0) of pages that are none.
unfoldable pub make_holes : List ℕ → ℕ → ℕ → Option (List ℕ)
make_holes v i zero = some v
make_holes v i (suc n) =
    let rest = make_holes (set v i 0) (i + 1) n in if get_or v i 0 == 0 then none else rest

-- The pages that were put into the cache, the nodes left, and the rest of the range.
pub record Caching : Type 0 where
  pub cached : List ℕ
  pub uncached : ℕ
  pub base : ℕ
  pub size : ℕ

-- The loop over the nodes, which runs once at least and wraps the size around.
unfoldable pub cache_pages : ℕ → ℕ → ℕ → List ℕ → Caching
cache_pages zero base size cached = record {
  cached = cached;
  uncached = 0;
  base = base;
  size = size;
}
cache_pages (suc r) base size cached =
    let left = (size + (2 ^ 64 - 4096)) % 2 ^ 64 in
    let rest = cache_pages r (base + 4096) left (base ∷ cached) in
    if left == 0
    then record { cached = base ∷ cached; uncached = r; base = base + 4096; size = 0 }
    else rest

-- What is left of the range is unmapped.
abbrev pub unmapped : Caching → Option (ℕ × ℕ)
unmapped c = if c.size == 0 then none else some (c.base, c.size)

abbrev pub unmap : Memory → ℕ → ℕ → List ℕ → Memory × Option (ℕ × ℕ)
unmap m base size holes =
    let c = cache_pages m.uncached_pages base size m.cached_pages in
    (
      record m {
        segment_vector = holes;
        dirty_vector = fill m.dirty_vector (entry m base) (page_index size) 0;
        cached_pages = c.cached;
        uncached_pages = c.uncached;
      },
      unmapped c,
    )

unfoldable pub ik_munmap_from_segment : ℕ → ℕ → Memory → Option (Memory × Option (ℕ × ℕ))
ik_munmap_from_segment base size m =
    if in_memory base size m
    then elim (make_holes m.segment_vector (entry m base) (page_index size)) [
      | none ↦ none
      | some holes ↦ some (unmap m base size holes)
    ]
    else none

-- A page from the cache, or one that ik_mmap maps.
unfoldable pub from_cache : ℕ → Memory → List ℕ → ℕ × Memory
from_cache mapped m [] = (mapped, m)
from_cache mapped m (base ∷ next) =
    (base, record m { cached_pages = next; uncached_pages = m.uncached_pages + 1 })

-- The pages are put into the tables.
unfoldable pub typed : ℕ → ℕ → ℕ → Memory → Option (ℕ × Memory)
typed size type p m = elim (extend_table_maybe p size m) [
  | none ↦ none
  | some m' ↦ elim (set_segment_type p size type m') [ none ↦ none | some m'' ↦ some (p, m'') ]
]

unfoldable pub ik_mmap_typed : ℕ → ℕ → ℕ → Memory → Option (ℕ × Memory)
ik_mmap_typed mapped size type m =
    let r = if size == 4096 then from_cache mapped m m.cached_pages else (mapped, m) in
    typed size type r.0 r.1

-- pointers_mt, data_mt and code_mt, with the bits of a generation.
abbrev pub ik_mmap_ptr : ℕ → ℕ → ℕ → Memory → Option (ℕ × Memory)
ik_mmap_ptr mapped size gen m = ik_mmap_typed mapped size (70400 + gen) m

abbrev pub ik_mmap_data : ℕ → ℕ → ℕ → Memory → Option (ℕ × Memory)
ik_mmap_data mapped size gen m = ik_mmap_typed mapped size (66560 + gen) m

-- Only the first page of code is scanned.
unfoldable pub ik_mmap_code : ℕ → ℕ → ℕ → Memory → Option (ℕ × Memory)
ik_mmap_code mapped size gen m = elim (ik_mmap_typed mapped size (70912 + gen) m) [
  | none ↦ none
  | some (p, m') ↦
      if ltb 4096 size
      then elim (set_segment_type (p + 4096) (size - 4096) (66560 + gen) m') [
        | none ↦ none
        | some m'' ↦ some (p, m'')
      ]
      else some (p, m')
]

abbrev pub ik_mmap_mixed : ℕ → ℕ → Memory → Option (ℕ × Memory)
ik_mmap_mixed mapped size m = ik_mmap_typed mapped size 256 m
