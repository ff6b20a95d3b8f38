-- ===== src/Foreign/Bytes.antt =====
-- The bytes of a number in memory.
use ikarus.Base.{
  ℕ, zero, suc, ◌+◌, ◌-◌, ◌*◌, ◌/◌, ◌%◌, ◌^◌, ◌≤◌, ◌<◌, ◌≡◌, refl, ap, sym, ap₂, ◌∙◌, arith, List,
  [], ◌∷◌, get_or, length, true, false, ltb, leb, ◌⊎◌, inl, inr,
}
use ikarus.Base.Int.{ℤ, pos, negsuc}
use ikarus.Fasl.Input.{length-bytes_of}
use ikarus.Fasl.Port.{little_endian, signed}
use ikarus.Fasl.Relocate.{bytes_of}
use ikarus.Foreign.Numbers.{FitsBits}
use ikarus.Foreign.{ForeignMemory, load_at, store_at}
use ikarus.Word.{to_word}
use native.Mathlib.Nat.{mod-lt, div-add-mod, mul-add-mod_self_left, mod-eq_of_lt}

store_at-in :
    (mem : ForeignMemory) (a i : ℕ) (bs : List ℕ)
    → i < length bs
    → store_at mem a bs (a + i) ≡ get_or bs i 0
unfolding store_at
store_at-in mem a i bs lt =
    let first : leb a (a + i) ≡ true = ground arith in
    let last : ltb (a + i) (a + length bs) ≡ true = ground arith in
    let index : a + i - a ≡ i = omega arith in rw (first, last, index) refl

pub store_at-out :
    (mem : ForeignMemory) (a i : ℕ) (bs : List ℕ)
    → (i < a) ⊎ (a + length bs ≤ i)
    → store_at mem a bs i ≡ mem i
unfolding store_at
store_at-out mem a i bs (inl lt) = let before : leb a i ≡ false = ground arith in rw before refl
store_at-out mem a i bs (inr le) =
    let behind : ltb i (a + length bs) ≡ false = ground arith in ground (arith, behind)

load_bytes :
    (mem : ForeignMemory) (a : ℕ) (bs : List ℕ)
    → ((i : ℕ) → i < length bs → mem (a + i) ≡ get_or bs i 0)
    → load_at mem a (length bs) ≡ bs
unfolding load_at
load_bytes mem a [] h = refl
load_bytes mem a (b ∷ bs) h =
    let here : a + 0 ≡ a = omega arith in
    ap₂ (◌∷◌) (rw here at (h 0 (omega arith))) (
      load_bytes mem (a + 1) bs λ i lt.
        let next : a + suc i ≡ a + 1 + i = omega arith in
        rw next at (h (suc i) (omega (arith, lt))))

-- Bytes that were stored are loaded.
pub load_at-store_at :
    (mem : ForeignMemory) (a n v : ℕ) → load_at (store_at mem a (bytes_of n v)) a n ≡ bytes_of n v
load_at-store_at mem a n v = rw (length-bytes_of n v) at (
    load_bytes (store_at mem a (bytes_of n v)) a (bytes_of n v)
      (λ i lt. store_at-in mem a i (bytes_of n v) lt))

power_pos : (n : ℕ) → 0 < 256 ^ n
power_pos zero = omega arith
power_pos (suc n) = omega (arith, power_pos n)

pub little_endian-bytes : (n v : ℕ) → little_endian (bytes_of n v) ≡ v % 256 ^ n
unfolding little_endian bytes_of
little_endian-bytes zero v = omega arith
little_endian-bytes (suc n) v =
    let P = 256 ^ n in
    let q = v / 256 in
    let low : v % 256 + 256 * (q % P) < 256 * P = omega (arith, mod-lt q (power_pos n)) in
    let split : v ≡ 256 * P * (q / P) + (v % 256 + 256 * (q % P)) =
      omega (arith, div-add-mod q P) in
    let power : 256 ^ suc n ≡ 256 * P = omega arith in
    rw (little_endian-bytes n q, power)
      (sym (
        ap (λ x. x % (256 * P)) split
        ∙ mul-add-mod_self_left (256 * P) (q / P) (v % 256 + 256 * (q % P))
        ∙ mod-eq_of_lt low))

pub signed-8 : (v : ℤ) → FitsBits 7 v → signed 8 (to_word v % 256 ^ 1) ≡ v
signed-8 (pos n) h = ground arith
signed-8 (negsuc n) h = ground arith

pub signed-16 : (v : ℤ) → FitsBits 15 v → signed 16 (to_word v % 256 ^ 2) ≡ v
signed-16 (pos n) h = ground arith
signed-16 (negsuc n) h = ground arith

pub signed-32 : (v : ℤ) → FitsBits 31 v → signed 32 (to_word v % 256 ^ 4) ≡ v
signed-32 (pos n) h = ground arith
signed-32 (negsuc n) h = ground arith

pub signed-64 : (v : ℤ) → FitsBits 63 v → signed 64 (to_word v % 256 ^ 8) ≡ v
signed-64 (pos n) h = ground arith
signed-64 (negsuc n) h = ground arith
