-- ===== src/Foreign.antt =====
-- Foreign memory and numbers, src/ikarus-pointers.c: the conversions between C's integers and
-- numbers, pointers as numbers, and the reads and writes of integers at a pointer.
pub mod Numbers
pub mod Bytes
pub mod Laws
use ikarus.Base.{
  ℕ, zero, suc, ◌+◌, ◌-◌, ◌*◌, ◌/◌, ◌%◌, ◌^◌, List, [], ◌∷◌, length, get_or, Option, none, some,
  Bool, true, false, ltb, leb, ◌==◌, ◌&&◌, if◌then◌else◌,
}
use ikarus.Base.Int.{ℤ, pos, neg, eq_ℤ, is_pos}
use ikarus.Bignum.{Bignum, Obj, word, bignum, Result, ok, nonnegative, header, normalize_bignum}
use ikarus.Fasl.Port.{little_endian, signed}
use ikarus.Fasl.Relocate.{bytes_of}
use ikarus.Word.{to_word, to_long, fix, unfix}

unfoldable pub s_to_number : ℤ → Obj
s_to_number n =
    let fx = fix n in
    if eq_ℤ (unfix fx) n
    then word fx
    else if is_pos n
    then bignum (record { fst = header 0 1; limbs = to_word n ∷ [] })
    else bignum (record { fst = header 8 1; limbs = to_word (neg n) ∷ [] })

-- A long long is as wide as a long.
unfoldable pub sll_to_number : ℤ → Obj
sll_to_number n =
    if eq_ℤ (to_long (to_word n)) n
    then s_to_number n
    else if is_pos n
    then bignum (record { fst = header 0 1; limbs = to_word n ∷ [] })
    else bignum (record { fst = header 8 1; limbs = to_word (neg n) ∷ [] })

unfoldable pub u_to_number : ℕ → Obj
u_to_number n =
    let mxn = (2 ^ 64 - 1) / 16 in
    if leb n mxn then word (fix (pos n)) else bignum (record { fst = header 0 1; limbs = n ∷ [] })

unfoldable pub ull_to_number : ℕ → Result Obj
ull_to_number n =
    if n % 2 ^ 64 == n then ok (u_to_number n) else normalize_bignum 1 0 (n % 2 ^ 64 ∷ [])

-- The lowest limb, with the sign.
abbrev low_limb : Bignum → ℤ
low_limb b =
    let limb = get_or b.limbs 0 0 in
    if nonnegative b then to_long limb else to_long ((2 ^ 64 - limb) % 2 ^ 64)

-- 0x7F is void. Another word is no number, and the read behind it is undefined.
unfoldable pub extract_num : Obj → Option ℤ
extract_num (word w) =
    if w % 8 == 0 then some (unfix w) else if w == 127 then some (pos 0) else none
extract_num (bignum b) = some (low_limb b)

unfoldable pub extract_num_longlong : Obj → Option ℤ
extract_num_longlong (word w) =
    if w % 8 == 0 then some (unfix w) else if w == 127 then some (pos 0) else none
extract_num_longlong (bignum b) =
    let limb = get_or b.limbs 0 0 in
    let negated = to_long ((2 ^ 64 - limb) % 2 ^ 64) in
    if b.fst == header 0 1
    then some (to_long limb)
    else if b.fst == header 8 1
    then some negated
    else if nonnegative b
    then some (to_long limb)
    else some negated

-- A pointer is its data.
unfoldable pub ikrt_pointer_to_int : ℕ → Obj
ikrt_pointer_to_int x =
    let p = to_long x in
    let pfx = fix p in
    if eq_ℤ (unfix pfx) p
    then word pfx
    else if is_pos p
    then bignum (record { fst = header 0 1; limbs = to_word p ∷ [] })
    else bignum (record { fst = header 8 1; limbs = to_word (neg p) ∷ [] })

unfoldable pub ikrt_fx_to_pointer : ℕ → ℕ
ikrt_fx_to_pointer x = to_word (unfix x)

unfoldable pub ikrt_bn_to_pointer : Bignum → ℕ
ikrt_bn_to_pointer b =
    let limb = get_or b.limbs 0 0 in if nonnegative b then limb else (2 ^ 64 - limb) % 2 ^ 64

-- The bytes of the memory, by their addresses.
abbrev pub ForeignMemory : Type 0
ForeignMemory = ℕ → ℕ

unfoldable pub load_at : ForeignMemory → ℕ → ℕ → List ℕ
load_at mem a zero = []
load_at mem a (suc n) = mem a ∷ load_at mem (a + 1) n

unfoldable pub store_at : ForeignMemory → ℕ → List ℕ → ForeignMemory
store_at mem a bytes i =
    if leb a i && ltb i (a + length bytes) then get_or bytes (i - a) 0 else mem i

-- ref(p, off_pointer_data) + unfix(off)
abbrev pub target_address : ℕ → ℕ → ℕ
target_address p off = (p + to_word (unfix off)) % 2 ^ 64

abbrev pub read_at : ℕ → ℕ → ℕ → ForeignMemory → ℕ
read_at n p off mem = little_endian (load_at mem (target_address p off) n)

-- The low bytes of a number are stored.
abbrev pub write_at : ℕ → Option ℤ → ℕ → ℕ → ForeignMemory → Option ForeignMemory
write_at n none p off mem = none
write_at n (some v) p off mem = some (store_at mem (target_address p off) (bytes_of n (to_word v)))

unfoldable pub ikrt_ref_char : ℕ → ℕ → ForeignMemory → ℕ
ikrt_ref_char p off mem = fix (signed 8 (read_at 1 p off mem))

unfoldable pub ikrt_ref_uchar : ℕ → ℕ → ForeignMemory → ℕ
ikrt_ref_uchar p off mem = fix (pos (read_at 1 p off mem))

unfoldable pub ikrt_ref_short : ℕ → ℕ → ForeignMemory → ℕ
ikrt_ref_short p off mem = fix (signed 16 (read_at 2 p off mem))

unfoldable pub ikrt_ref_ushort : ℕ → ℕ → ForeignMemory → ℕ
ikrt_ref_ushort p off mem = fix (pos (read_at 2 p off mem))

unfoldable pub ikrt_ref_int : ℕ → ℕ → ForeignMemory → ℕ
ikrt_ref_int p off mem = fix (signed 32 (read_at 4 p off mem))

unfoldable pub ikrt_ref_uint : ℕ → ℕ → ForeignMemory → ℕ
ikrt_ref_uint p off mem = fix (pos (read_at 4 p off mem))

unfoldable pub ikrt_ref_long : ℕ → ℕ → ForeignMemory → Obj
ikrt_ref_long p off mem = s_to_number (signed 64 (read_at 8 p off mem))

unfoldable pub ikrt_ref_ulong : ℕ → ℕ → ForeignMemory → Obj
ikrt_ref_ulong p off mem = u_to_number (read_at 8 p off mem)

unfoldable pub ikrt_ref_longlong : ℕ → ℕ → ForeignMemory → Obj
ikrt_ref_longlong p off mem = sll_to_number (signed 64 (read_at 8 p off mem))

unfoldable pub ikrt_ref_ulonglong : ℕ → ℕ → ForeignMemory → Result Obj
ikrt_ref_ulonglong p off mem = ull_to_number (read_at 8 p off mem)

unfoldable pub ikrt_set_char : ℕ → ℕ → Obj → ForeignMemory → Option ForeignMemory
ikrt_set_char p off v mem = write_at 1 (extract_num v) p off mem

unfoldable pub ikrt_set_short : ℕ → ℕ → Obj → ForeignMemory → Option ForeignMemory
ikrt_set_short p off v mem = write_at 2 (extract_num v) p off mem

unfoldable pub ikrt_set_int : ℕ → ℕ → Obj → ForeignMemory → Option ForeignMemory
ikrt_set_int p off v mem = write_at 4 (extract_num v) p off mem

unfoldable pub ikrt_set_long : ℕ → ℕ → Obj → ForeignMemory → Option ForeignMemory
ikrt_set_long p off v mem = write_at 8 (extract_num v) p off mem

unfoldable pub ikrt_set_longlong : ℕ → ℕ → Obj → ForeignMemory → Option ForeignMemory
ikrt_set_longlong p off v mem = write_at 8 (extract_num_longlong v) p off mem
