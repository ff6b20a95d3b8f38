-- ===== src/Pages/Types.antt =====
-- The type of each page: what the vectors hold, and 0 outside them.
use ikarus.Base.{
  ℕ, zero, suc, ◌+◌, ◌-◌, ◌≤◌, ◌<◌, ◌≡◌, ◌≢◌, refl, ◌∙◌, arith, List, [], ◌∷◌, ◌++◌, replicate, set,
  get_or, length, length-set, get_or-set, some, false, ltb, leb, ◌==◌, ◌&&◌, if◌then◌else◌,
}
use ikarus.Pages.{Memory, page_index, fill, make_holes}

abbrev pub entry_at : List ℕ → ℕ → ℕ → ℕ
entry_at v lo page = if ltb page lo then 0 else get_or v (page - lo) 0

abbrev pub type_at : Memory → ℕ → ℕ
type_at m page = entry_at m.segment_vector (page_index m.memory_base) page

abbrev pub dirty_at : Memory → ℕ → ℕ
dirty_at m page = entry_at m.dirty_vector (page_index m.memory_base) page

pub get_or-behind : (v : List ℕ) (n i : ℕ) → get_or (v ++ replicate n 0) i 0 ≡ get_or v i 0
get_or-behind [] zero i = refl
get_or-behind [] (suc n) zero = refl
get_or-behind [] (suc n) (suc i) = get_or-behind [] n i
get_or-behind (x ∷ v) n zero = refl
get_or-behind (x ∷ v) n (suc i) = get_or-behind v n i

get_or-in_front :
    (v : List ℕ) (n i : ℕ)
    → get_or (replicate n 0 ++ v) i 0 ≡ (if ltb i n then 0 else get_or v (i - n) 0)
get_or-in_front v zero i = let same : i - 0 ≡ i = omega arith in rw same (ground arith)
get_or-in_front v (suc n) zero = ground arith
get_or-in_front v (suc n) (suc i) =
    let less : suc i - suc n ≡ i - n = omega arith in
    rw less (ground (arith, get_or-in_front v n i))

pub entry_at-in_front :
    (v : List ℕ) (n lo lo' page : ℕ)
    → lo' + n ≡ lo
    → entry_at (replicate n 0 ++ v) lo' page ≡ entry_at v lo page
entry_at-in_front v n lo lo' page e =
    let same : page - lo' - n ≡ page - lo = omega arith in
    rw (get_or-in_front v n (page - lo'), same) (ground arith)

pub length-fill : (v : List ℕ) (i n t : ℕ) → length (fill v i n t) ≡ length v
unfolding fill
length-fill v i zero t = refl
length-fill v i (suc n) t = length-fill (set v i t) (i + 1) n t ∙ length-set v i t

get_or-fill :
    (v : List ℕ) (i n t j : ℕ)
    → i + n ≤ length v
    → get_or (fill v i n t) j 0 ≡ (if leb i j && ltb j (i + n) then t else get_or v j 0)
unfolding fill
get_or-fill v i zero t j h = ground arith
get_or-fill v i (suc n) t j h =
    let l = length-set v i t in
    let below : i + 1 + n ≡ i + suc n = omega arith in
    ground (
      arith,
      get_or-fill (set v i t) (i + 1) n t j (omega (arith, l, h)),
      get_or-set v i j t 0 (omega (arith, h)),
    )

-- Where no page of the range is a hole they all become holes.
pub make_holes-fill :
    (v : List ℕ) (i n : ℕ)
    → i + n ≤ length v
    → ((j : ℕ) → i ≤ j → j < i + n → get_or v j 0 ≢ 0)
    → make_holes v i n ≡ some (fill v i n 0)
unfolding make_holes fill
make_holes-fill v i zero h used = refl
make_holes-fill v i (suc n) h used =
    let here : (get_or v i 0 == 0) ≡ false = ground (arith, used i (omega arith) (omega arith)) in
    let l = length-set v i 0 in
    rw
      (
        here,
        make_holes-fill (set v i 0) (i + 1) n (omega (arith, l, h)) (λ j lo hi. ground (
          arith,
          get_or-set v i j 0 0 (omega (arith, h)),
          used j (omega (arith, lo)) (omega (arith, hi)),
        )),
      )
      refl

-- The type of the pages of a range that was filled, and of the others.
pub entry_at-fill :
    (v : List ℕ) (lo page i n t : ℕ)
    → lo ≤ i
    → i - lo + n ≤ length v
    → entry_at (fill v (i - lo) n t) lo page
      ≡ (if leb i page && ltb page (i + n) then t else entry_at v lo page)
entry_at-fill v lo page i n t le h = ground (arith, get_or-fill v (i - lo) n t (page - lo) h)
