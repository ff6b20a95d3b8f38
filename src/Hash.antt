-- ===== src/Hash.antt =====
-- `compute_hash` of src/ikarus-symbol-table.c. A string is the list of its 32-bit elements, each a
-- character shifted over its tag; an `int` is given by its 32 bits.
use ikarus.Base.{ℕ, ◌+◌, ◌-◌, ◌*◌, ◌/◌, ◌%◌, ◌^◌, List, [], ◌∷◌, length, ltb, if◌then◌else◌}
use ikarus.Base.Int.{ℤ, pos, negsuc}
use ikarus.Word.{to_word}
use Prim.Native.Nat.{bit_xor}

abbrev pub int_mod : ℕ
int_mod = 2 ^ 32

-- `h >> k` on an `int` copies the sign bit.
pub sar : ℕ → ℕ → ℕ
sar h k = if ltb h (2 ^ 31) then h / 2 ^ k else h / 2 ^ k + (int_mod - 2 ^ (32 - k))

-- One round of the loop, for the element `d`.
pub hash_round : ℕ → ℕ → ℕ
unfolding sar
hash_round h d =
    let c = sar d 8 in
    let h = (h + c) % int_mod in let h = (h + h * 2 ^ 10) % int_mod in bit_xor h (sar h 6)

pub hash_loop : ℕ → List ℕ → ℕ
hash_loop h [] = h
hash_loop h (d ∷ ds) = hash_loop (hash_round h d) ds

-- The bits of the `int` that is returned as a `long`.
pub compute_hash : List ℕ → ℕ
unfolding sar hash_round hash_loop
compute_hash str =
    let h = hash_loop (length str % int_mod) str in
    let h = (h + h * 2 ^ 3) % int_mod in
    let h = bit_xor h (sar h 11) in
    let h = (h + h * 2 ^ 15) % int_mod in if ltb h (2 ^ 31) then h else (1 + int_mod - h) % int_mod

-- An `int` as a `long`.
abbrev pub widen : ℕ → ℤ
widen h = if ltb h (2 ^ 31) then pos h else negsuc (int_mod - 1 - h)

-- `& ~fx_mask` clears the three bits of the tag.
pub ikrt_string_hash : List ℕ → ℕ
ikrt_string_hash str = let h = to_word (widen (compute_hash str)) in h - h % 8
