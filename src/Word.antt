-- ===== src/Word.antt =====
-- The 64-bit words of src/ikarus-data.h: `long` and `unsigned long`, and fixnums.
use ikarus.Base.{ℕ, suc, ◌+◌, ◌-◌, ◌*◌, ◌/◌, ◌%◌, ◌^◌, ◌≤◌, ◌<◌, ◌≡◌, arith}
use ikarus.Base.{ltb, if◌then◌else◌}
use ikarus.Base.Int.{ℤ, pos, negsuc}

-- One more than the largest word, which is also the base of the limbs of a bignum.
abbrev pub word_mod : ℕ
word_mod = 2 ^ 64

-- align, to two words of 8 bytes.
abbrev pub align : ℕ → ℕ
align n = (n + 15) / 16 * 16

-- `(unsigned long) n`
abbrev pub to_word : ℤ → ℕ
to_word (pos n) = n % word_mod
to_word (negsuc n) = word_mod - 1 - n % word_mod

-- `(long) w`
abbrev pub to_long : ℕ → ℤ
to_long w = if ltb w (2 ^ 63) then pos w else negsuc (word_mod - 1 - w)

-- `n >> 3` on a long rounds down.
abbrev pub shr_fx : ℤ → ℤ
shr_fx (pos n) = pos (n / 8)
shr_fx (negsuc n) = negsuc (n / 8)

-- `unfix`: the integer of a fixnum.
unfoldable pub unfix : ℕ → ℤ
unfix w = shr_fx (to_long w)

-- `fix`: the bits that the shift pushes out are lost.
unfoldable pub fix : ℤ → ℕ
fix n = to_word n * 8 % word_mod

abbrev pub most_positive_fixnum : ℕ
most_positive_fixnum = (word_mod - 1) / 16

-- The magnitude of the least fixnum.
abbrev pub most_negative_fixnum : ℕ
most_negative_fixnum = most_positive_fixnum + 1

-- A word with the fixnum tag.
pub record IsFixnum (w : ℕ) : Type 0 where
  pub in_word : w < word_mod
  pub tagged : w % 8 ≡ 0

-- A number that fits a fixnum.
abbrev pub FitsFixnum : ℤ → Type 0
FitsFixnum (pos n) = n ≤ most_positive_fixnum
FitsFixnum (negsuc n) = suc n ≤ most_negative_fixnum

pub fix-IsFixnum : (n : ℤ) → IsFixnum (fix n)
unfolding fix
fix-IsFixnum (pos n) = omega arith
fix-IsFixnum (negsuc n) = omega arith

pub unfix-fix : (n : ℤ) → FitsFixnum n → unfix (fix n) ≡ n
unfolding fix unfix
unfix-fix (pos n) h = ground arith
unfix-fix (negsuc n) h = ground arith

pub fix-unfix : (w : ℕ) → IsFixnum w → fix (unfix w) ≡ w
unfolding fix unfix
fix-unfix w h = ground arith

pub unfix-FitsFixnum : (w : ℕ) → IsFixnum w → FitsFixnum (unfix w)
unfolding unfix
unfix-FitsFixnum w h = ground arith

-- The check that the fixnum operations use to see whether a result fits.
pub unfix-fix_fits : (n : ℤ) → unfix (fix n) ≡ n → FitsFixnum n
unfix-fix_fits n e = subst_fits (unfix-FitsFixnum (fix n) (fix-IsFixnum n))
  where
    subst_fits : FitsFixnum (unfix (fix n)) → FitsFixnum n
    subst_fits h = rw e at h

pub unfix-eq-zero : (w : ℕ) → IsFixnum w → unfix w ≡ pos 0 → w ≡ 0
unfolding unfix
unfix-eq-zero w h e = ground arith
