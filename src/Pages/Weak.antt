-- ===== src/Pages/Weak.antt =====
-- The weak pairs of src/ikarus-weak-pairs.c, which lie in pages of a type of their own.
use ikarus.Base.{ℕ, ◌+◌, ◌/◌, ◌%◌, List, ◌∷◌, Option, none, some, ltb, ◌==◌, if◌then◌else◌}
use ikarus.Pages.Types.{type_at}
use ikarus.Pages.{Memory, page_index, ik_mmap_typed}

pub record WeakPair : Type 0 where
  pub pair : ℕ
  pub car : ℕ
  pub cdr : ℕ

-- The pairs that were made, the last one first.
pub record WeakPairs : Type 0 where
  pub memory : Memory
  pub weak_pairs_ap : ℕ
  pub weak_pairs_ep : ℕ
  pub pairs : List WeakPair

-- weak_pairs_mt
abbrev pub weak_pairs_mt : ℕ
weak_pairs_mt = 71168

-- A pair is made at the address p.
abbrev pub cons_at : ℕ → ℕ → ℕ → ℕ → ℕ → Memory → List WeakPair → ℕ × WeakPairs
cons_at p ap ep a d m pairs = (
  p,
  record {
    memory = m;
    weak_pairs_ap = ap;
    weak_pairs_ep = ep;
    pairs = record { pair = p; car = a; cdr = d } ∷ pairs;
  },
)

unfoldable pub ikrt_weak_cons : ℕ → ℕ → ℕ → WeakPairs → Option (ℕ × WeakPairs)
ikrt_weak_cons mapped a d w =
    let ap = w.weak_pairs_ap in
    let nap = ap + 16 in
    if ltb w.weak_pairs_ep nap
    then elim (ik_mmap_typed mapped 4096 weak_pairs_mt w.memory) [
      | none ↦ none
      | some (mem, m) ↦ some (cons_at (mem + 1) (mem + 16) (mem + 4096) a d m w.pairs)
    ]
    else some (cons_at (ap + 1) nap w.weak_pairs_ep a d w.memory w.pairs)

-- #f or #t. A page outside the segment vector, whose entry C leaves undefined, has the type 0.
unfoldable pub ikrt_is_weak_pair : ℕ → WeakPairs → ℕ
ikrt_is_weak_pair x w =
    if x % 8 == 1 then if type_at w.memory (page_index x) / 256 % 16 == 6 then 63 else 47 else 47
