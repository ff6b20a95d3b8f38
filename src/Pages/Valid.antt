-- ===== src/Pages/Valid.antt =====
-- What holds of the tables between the calls, and that longer tables say the same of each page.
use ikarus.Base.{
  ℕ, ◌+◌, ◌-◌, ◌*◌, ◌%◌, ◌≤◌, ◌<◌, ◌≡◌, refl, arith, List, ◌++◌, replicate, length, length-append,
  length-replicate, Option, some, true, ltb, leb, ◌==◌, Bool-cases, inl, inr,
}
use ikarus.Pages.Types.{type_at, dirty_at, entry_at, entry_at-in_front, get_or-behind}
use ikarus.Pages.{Memory, page_index, extend_table_maybe, align_to_next_page, segment_index}

-- The vectors have an entry for each page of the segments from memory_base up to memory_end.
pub record IsTable (m : Memory) : Type 0 where
  pub base_whole : m.memory_base % 4194304 ≡ 0
  pub end_whole : m.memory_end % 4194304 ≡ 0
  pub ordered : m.memory_base ≤ m.memory_end
  pub types_lem : length m.segment_vector ≡ page_index m.memory_end - page_index m.memory_base
  pub dirty_lem : length m.dirty_vector ≡ page_index m.memory_end - page_index m.memory_base

-- A range of whole pages inside the tables.
pub record Inside (base size : ℕ) (m : Memory) : Type 0 where
  pub base_page : base % 4096 ≡ 0
  pub size_page : size % 4096 ≡ 0
  pub from : m.memory_base ≤ base
  pub to : base + size ≤ m.memory_end

-- Tables that hold a range, and say the same of every page as before; the cache is the same.
pub record Extends (base size : ℕ) (m m' : Memory) : Type 0 where
  pub table : IsTable m'
  pub inside : Inside base size m'
  pub lower : m'.memory_base ≤ m.memory_base
  pub higher : m.memory_end ≤ m'.memory_end
  pub types_same : (page : ℕ) → type_at m' page ≡ type_at m page
  pub dirty_same : (page : ℕ) → dirty_at m' page ≡ dirty_at m page
  pub cache_same : m'.cached_pages ≡ m.cached_pages
  pub nodes_same : m'.uncached_pages ≡ m.uncached_pages

-- A call with its result.
pub record Gives {ℓ} {A : Type ℓ} (r : Option A) (P : A → Type 0) : Type ℓ where
  pub result : A
  pub run : r ≡ some result
  pub ensures : P result

entry_at-behind :
    (v : List ℕ) (n lo page : ℕ) → entry_at (v ++ replicate n 0) lo page ≡ entry_at v lo page
entry_at-behind v n lo page = rw (get_or-behind v n (page - lo)) refl

module _ (p size : ℕ) (m : Memory) (t : IsTable m) (hp : p % 4096 ≡ 0) (hs : size % 4096 ≡ 0) where
  abbrev missing : ℕ → ℕ → ℕ
  missing lo hi = (hi - lo - (segment_index m.memory_end - segment_index m.memory_base)) * 1024

  -- Tables that are longer in front.
  abbrev longer_in_front : Memory
  longer_in_front =
      let zeros : List ℕ = replicate (missing (segment_index p) (segment_index m.memory_end)) 0 in
      record m {
        dirty_vector = zeros ++ m.dirty_vector;
        segment_vector = zeros ++ m.segment_vector;
        memory_base = segment_index p * 4194304;
      }

  in_front-Extends : p < m.memory_base → p + size ≤ m.memory_end → Extends p size m longer_in_front
  in_front-Extends less fits =
      let b = t.base_whole in
      let o = t.ordered in
      let n = missing (segment_index p) (segment_index m.memory_end) in
      let l = length-append (replicate n 0) m.segment_vector in
      let ld = length-append (replicate n 0) m.dirty_vector in
      let ln = length-replicate {A = ℕ} n 0 in
      let lo : page_index (segment_index p * 4194304) + n ≡ page_index m.memory_base =
        omega (arith, less, b, t.end_whole, o) in
      record {
        table = record {
          base_whole = omega arith;
          end_whole = t.end_whole;
          ordered = omega (arith, less, o);
          types_lem = omega (arith, t.types_lem, l, ln, lo, o);
          dirty_lem = omega (arith, t.dirty_lem, ld, ln, lo, o);
        };
        inside = record { base_page = hp; size_page = hs; from = omega arith; to = fits };
        lower = omega (arith, less);
        higher = omega arith;
        types_same = λ page. entry_at-in_front m.segment_vector n _ _ page lo;
        dirty_same = λ page. entry_at-in_front m.dirty_vector n _ _ page lo;
        cache_same = refl;
        nodes_same = refl;
      }

  -- Tables that are longer behind.
  abbrev longer_behind : Memory
  longer_behind =
      let new_hi = segment_index (p + size + 4194303) in
      let zeros : List ℕ = replicate (missing (segment_index m.memory_base) new_hi) 0 in
      record m {
        dirty_vector = m.dirty_vector ++ zeros;
        segment_vector = m.segment_vector ++ zeros;
        memory_end = new_hi * 4194304;
      }

  behind-Extends : m.memory_base ≤ p → m.memory_end ≤ p + size → Extends p size m longer_behind
  behind-Extends from above =
      let e = t.end_whole in
      let o = t.ordered in
      let new_hi = segment_index (p + size + 4194303) in
      let n = missing (segment_index m.memory_base) new_hi in
      let l = length-append m.segment_vector (replicate n 0) in
      let ld = length-append m.dirty_vector (replicate n 0) in
      let ln = length-replicate {A = ℕ} n 0 in
      let hi : page_index m.memory_end + n ≡ page_index (new_hi * 4194304) =
        omega (arith, above, t.base_whole, e, o) in
      record {
        table = record {
          base_whole = t.base_whole;
          end_whole = omega arith;
          ordered = omega (arith, above, o);
          types_lem = omega (arith, t.types_lem, l, ln, hi, o);
          dirty_lem = omega (arith, t.dirty_lem, ld, ln, hi, o);
        };
        inside = record { base_page = hp; size_page = hs; from = from; to = omega arith };
        lower = omega arith;
        higher = omega (arith, above);
        types_same = λ page. entry_at-behind m.segment_vector n _ page;
        dirty_same = λ page. entry_at-behind m.dirty_vector n _ page;
        cache_same = refl;
        nodes_same = refl;
      }

  there-Extends : m.memory_base ≤ p → p + size < m.memory_end → Extends p size m m
  there-Extends from to = record {
    table = t;
    inside = record { base_page = hp; size_page = hs; from = from; to = omega (arith, to) };
    lower = omega arith;
    higher = omega arith;
    types_same = λ page. refl;
    dirty_same = λ page. refl;
    cache_same = refl;
    nodes_same = refl;
  }

-- A range of whole pages that does not go from below the tables to above them is put into the
-- tables: they are made longer in front or behind where it is outside, and give every page the type
-- and the dirty mark that it had.
pub extend_table_maybe-Extends :
    (p size : ℕ) (m : Memory)
    → IsTable m
    → p % 4096 ≡ 0
    → size % 4096 ≡ 0
    → (p < m.memory_base → p + size ≤ m.memory_end)
    → Gives (extend_table_maybe p size m) (Extends p size m)
unfolding extend_table_maybe
extend_table_maybe-Extends p size m t hp hs fits =
    let aligned : (size == align_to_next_page size) ≡ true = ground arith in
    rw aligned (elim (Bool-cases (ltb p m.memory_base)) [
      | inl low ↦
          let less : p < m.memory_base = ground arith in
          rw low (record {
            result = longer_in_front p size m t hp hs;
            run = refl;
            ensures = in_front-Extends p size m t hp hs less (fits less);
          })
      | inr low ↦
          let from : m.memory_base ≤ p = ground arith in
          rw low (elim (Bool-cases (leb m.memory_end (p + size))) [
            | inl high ↦ rw high (record {
              result = longer_behind p size m t hp hs;
              run = refl;
              ensures = behind-Extends p size m t hp hs from (ground arith);
            })
            | inr high ↦ rw high (record {
              result = m;
              run = refl;
              ensures = there-Extends p size m t hp hs from (ground arith);
            })
          ])
    ])
