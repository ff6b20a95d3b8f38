-- ===== src/Pages/History.antt =====
-- Sequences of calls of ik_mmap_typed and ik_munmap_from_segment, and a page that is in use.
use ikarus.Base.{
  ℕ, ◌+◌, ◌%◌, ◌^◌, ◌≤◌, ◌<◌, ◌≡◌, ◌≢◌, refl, sym, subst, ◌∙◌, Option, some, Bool, true, false,
  arith,
}
use ikarus.Pages.Cache.{IsMemory}
use ikarus.Pages.Map.{IsFresh, ik_mmap_typed-Maps}
use ikarus.Pages.Ranges.{covers, InUse}
use ikarus.Pages.Types.{type_at}
use ikarus.Pages.Unmap.{ik_munmap_from_segment-Unmaps}
use ikarus.Pages.Valid.{Inside, Gives}
use ikarus.Pages.{Memory, page_index, ik_mmap_typed, ik_munmap_from_segment}

-- Calls one after another, none of which gives back the page: ik_mmap maps fresh pages, and ranges
-- that are given back are in use.
pub data Run (page : ℕ) : Memory → Memory → Type 0 where
  done : {m : Memory} → Run page m m
  maps :
      {m m' m'' : Memory} (mapped size type p : ℕ)
      → IsFresh m mapped size
      → size % 4096 ≡ 0
      → ik_mmap_typed mapped size type m ≡ some (p, m')
      → Run page m' m''
      → Run page m m''
  unmaps :
      {m m' m'' : Memory} (base size : ℕ) (left : Option (ℕ × ℕ))
      → Inside base size m
      → InUse base size m
      → 0 < size
      → size < 2 ^ 64
      → covers base size page ≡ false
      → ik_munmap_from_segment base size m ≡ some (m', left)
      → Run page m' m''
      → Run page m m''

-- No call on the way hands out a range with the page in it.
abbrev pub NeverHanded : (page : ℕ) {m m' : Memory} → Run page m m' → Type 0
NeverHanded page done = Unit {0}
NeverHanded page (maps mapped size type p f hs e more) =
    (covers p size page ≡ false) × NeverHanded page more
NeverHanded page (unmaps base size left h u big small out e more) = NeverHanded page more

some_eq {ℓ} : {A : Type ℓ} (a b : A) → some a ≡ some b → a ≡ b
some_eq a b e = cc

-- What a call ensures holds of the result it has.
at_result {ℓ} :
    {A : Type ℓ} {r : Option A} {P : A → Type 0} → Gives r P → (a : A) → r ≡ some a → P a
at_result {P = P} g a e = subst P (some_eq g.result a (sym g.run ∙ e)) g.ensures

not_covered : (b : Bool) (u : ℕ) → (b ≡ true → u ≡ 0) → u ≢ 0 → b ≡ false
not_covered true u free ne = absurd (ne (free refl))
not_covered false u free ne = refl

covers_lo : (base size page : ℕ) → covers base size page ≡ true → page_index base ≤ page
covers_lo base size page e = ground arith

covers_hi :
    (base size page : ℕ) → covers base size page ≡ true → page < page_index base + page_index size
covers_hi base size page e = ground arith

-- Through any calls that do not give it back, a page in use keeps its type, and no call of
-- `ik_mmap_typed` returns a range with the page in it; the tables and the cache stay valid.
pub Run-keeps :
    (page : ℕ) (m m' : Memory)
    → IsMemory m
    → type_at m page ≢ 0
    → (run : Run page m m')
    → IsMemory m' × (type_at m' page ≡ type_at m page) × NeverHanded page run
Run-keeps page m _ valid used done = (valid, refl, tt)
Run-keeps page m m'' valid used (maps {m' = m'} mapped size type p f hs e more) =
    let g = at_result (ik_mmap_typed-Maps m mapped size type valid f hs) (p, m') e in
    let other : covers p size page ≡ false =
      not_covered (covers p size page) (type_at m page)
        (λ c. g.free page (covers_lo p size page c) (covers_hi p size page c)) used in
    let same : type_at m' page ≡ type_at m page = g.types_lem page ∙ rw other refl in
    let rest = Run-keeps page m' m'' g.memory (λ z. used (sym same ∙ z)) more in
    (rest.0, rest.1 ∙ same, (other, rest.2))
Run-keeps page m m'' valid used (unmaps {m' = m'} base size left h u big small out e more) =
    let g =
      at_result (ik_munmap_from_segment-Unmaps m base size valid h u big small) (m', left) e in
    let same : type_at m' page ≡ type_at m page = g.types_lem page ∙ rw out refl in
    let rest = Run-keeps page m' m'' g.memory (λ z. used (sym same ∙ z)) more in
    (rest.0, rest.1 ∙ same, rest.2)
