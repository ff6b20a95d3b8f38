-- ===== src/Foreign/Laws.antt =====
-- What is written at a pointer is read back there.
use ikarus.Base.{
  ℕ, ◌+◌, ◌%◌, ◌^◌, ◌≤◌, ◌<◌, ◌≡◌, refl, subst, sym, arith, ◌⊎◌, Option, some, ◌∙◌, ap,
}
use ikarus.Base.Int.{ℤ, pos, negsuc}
use ikarus.Bignum.Valid.{IsNumber}
use ikarus.Bignum.{Obj, word, to_int}
use ikarus.Fasl.Input.{length-bytes_of}
use ikarus.Fasl.Port.{signed}
use ikarus.Fasl.Relocate.{bytes_of}
use ikarus.Foreign.Bytes.{
  store_at-out, load_at-store_at, little_endian-bytes, signed-8, signed-16, signed-32, signed-64,
}
use ikarus.Foreign.Numbers.{FitsBits, IsNumberOf, s_to_number-IsNumberOf, extract_num-some}
use ikarus.Foreign.{
  ForeignMemory, store_at, target_address, read_at, write_at, extract_num, s_to_number,
  ikrt_ref_char, ikrt_ref_short, ikrt_ref_int, ikrt_ref_long, ikrt_set_char, ikrt_set_short,
  ikrt_set_int, ikrt_set_long,
}
use ikarus.Word.{FitsFixnum, fix, fix-IsFixnum, unfix-fix, to_word}

-- A call that stores so many bytes: the others stay, and the number is read back in normal form.
pub record Stores (size a : ℕ) (mem : ForeignMemory) (call : Option ForeignMemory)
    (ref : ForeignMemory → Obj) (v : ℤ) : Type 0 where
  pub after : ForeignMemory
  pub stored : call ≡ some after
  pub others : (i : ℕ) → (i < a) ⊎ (a + size ≤ i) → after i ≡ mem i
  pub back : IsNumberOf (ref after) v

module _ (p off : ℕ) (mem : ForeignMemory) where
  read_back :
      (n : ℕ) (v : ℤ)
      → read_at n p off (store_at mem (target_address p off) (bytes_of n (to_word v)))
        ≡ to_word v % 256 ^ n
  read_back n v =
      rw (load_at-store_at mem (target_address p off) n (to_word v))
        (little_endian-bytes n (to_word v))

  stores :
      (n : ℕ) (v : Obj) (ref : ForeignMemory → Obj)
      → IsNumber v
      → FitsBits 63 (to_int v)
      → ((m : ForeignMemory)
          → read_at n p off m ≡ to_word (to_int v) % 256 ^ n
          → IsNumberOf (ref m) (to_int v))
      → Stores n (target_address p off) mem (write_at n (extract_num v) p off mem) ref (to_int v)
  stores n v ref h fits reads = rw (extract_num-some v h fits) (record {
    after = store_at mem (target_address p off) (bytes_of n (to_word (to_int v)));
    stored = refl;
    others = λ i out.
        store_at-out mem (target_address p off) i (bytes_of n (to_word (to_int v)))
          (rw (length-bytes_of n (to_word (to_int v))) out);
    back = reads _ (read_back n (to_int v));
  })

wider : (w k : ℕ) (v : ℤ) → 2 ^ w ≤ 2 ^ k → FitsBits w v → FitsBits k v
wider w k (pos n) le h = omega (arith, le, h)
wider w k (negsuc n) le h = omega (arith, le, h)

fixnum_of : (n v : ℤ) → FitsBits 31 v → n ≡ v → IsNumberOf (word (fix n)) v
fixnum_of n v h e = rw e (fix-IsFixnum v, unfix-fix v (fits v h))
  where
    fits : (v : ℤ) → FitsBits 31 v → FitsFixnum v
    fits (pos n) h = omega (arith, h)
    fits (negsuc n) h = omega (arith, h)

-- A number that fits a char, a short, an int or a long is read back in normal form where it was
-- written, and no byte beside it changes.
pub ikrt_ref-ikrt_set :
    (p off : ℕ) (mem : ForeignMemory) (c s i l : Obj)
    → IsNumber c × FitsBits 7 (to_int c)
    → IsNumber s × FitsBits 15 (to_int s)
    → IsNumber i × FitsBits 31 (to_int i)
    → IsNumber l × FitsBits 63 (to_int l)
    → Stores 1
        (target_address p off)
        mem
        (ikrt_set_char p off c mem)
        (λ m. word (ikrt_ref_char p off m))
        (to_int c)
      × Stores 2
          (target_address p off)
          mem
          (ikrt_set_short p off s mem)
          (λ m. word (ikrt_ref_short p off m))
          (to_int s)
      × Stores 4
          (target_address p off)
          mem
          (ikrt_set_int p off i mem)
          (λ m. word (ikrt_ref_int p off m))
          (to_int i)
      × Stores 8
          (target_address p off)
          mem
          (ikrt_set_long p off l mem)
          (ikrt_ref_long p off)
          (to_int l)
unfolding ikrt_set_char ikrt_set_short ikrt_set_int ikrt_set_long ikrt_ref_char ikrt_ref_short
    ikrt_ref_int ikrt_ref_long
ikrt_ref-ikrt_set p off mem c s i l (nc, fc) (ns, fs) (ni, fi) (nl, fl) = (
  stores p off mem 1 c _ nc (wider 7 63 (to_int c) (omega arith) fc) (λ m e.
      fixnum_of _ (to_int c) (wider 7 31 (to_int c) (omega arith) fc)
        (ap (signed 8) e ∙ signed-8 (to_int c) fc)),
  stores p off mem 2 s _ ns (wider 15 63 (to_int s) (omega arith) fs) (λ m e.
      fixnum_of _ (to_int s) (wider 15 31 (to_int s) (omega arith) fs)
        (ap (signed 16) e ∙ signed-16 (to_int s) fs)),
  stores p off mem 4 i _ ni (wider 31 63 (to_int i) (omega arith) fi)
      (λ m e. fixnum_of _ (to_int i) fi (ap (signed 32) e ∙ signed-32 (to_int i) fi)),
  stores p off mem 8 l _ nl fl (λ m e.
      subst (λ n. IsNumberOf (s_to_number n) (to_int l))
        (sym (ap (signed 64) e ∙ signed-64 (to_int l) fl)) (s_to_number-IsNumberOf (to_int l) fl)),
)
