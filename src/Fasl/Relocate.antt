-- ===== src/Fasl/Relocate.antt =====
-- `ik_relocate_code`: the words of a relocation vector are stored in the bytes of a code object.
use ikarus.Base.{
  ℕ, zero, suc, ◌+◌, ◌-◌, ◌/◌, ◌%◌, ◌^◌, List, [], ◌∷◌, ◌++◌, length, take, drop, get_elem?, Option,
  none, some, Bool, true, false, leb, ◌==◌, if◌then◌else◌,
}
use ikarus.Base.Int.{ℤ, pos, negsuc, eq_ℤ}
use ikarus.Fasl.{
  Value, Object, Env, Outcome, ok, stop, bind, immediate, object, bytevector, outside_code,
  wrong_object, unset_reloc, foreign_name, no_foreign_name,
}
use ikarus.Word.{to_word, unfix}

-- The word of a value.
abbrev pub word_of : Env → Value → ℕ
word_of env (immediate w) = w
word_of env v = env.address v

-- The low bytes of a word, the lowest first.
unfoldable pub bytes_of : ℕ → ℕ → List ℕ
bytes_of zero w = []
bytes_of (suc n) w = w % 256 ∷ bytes_of n (w / 256)

-- Bytes that are stored at an offset.
unfoldable pub store_bytes : List ℕ → ℤ → List ℕ → Outcome (List ℕ)
store_bytes bytes (negsuc n) data_bytes = stop outside_code
store_bytes bytes (pos off) data_bytes =
    if leb (off + length bytes) (length data_bytes)
    then ok (take off data_bytes ++ (bytes ++ drop (off + length bytes) data_bytes))
    else stop outside_code

-- r & 3
pub data Kind : Type 0 where
  vanilla foreign displaced jump_label : Kind

unfoldable pub kind_of : ℤ → Kind
kind_of r =
    let tag = to_word r % 4 in
    if tag == 0
    then Kind.vanilla
    else if tag == 1
    then Kind.foreign
    else if tag == 2
    then Kind.displaced
    else Kind.jump_label

-- r >> 2
unfoldable pub code_offset : ℤ → ℤ
code_offset (pos n) = pos (n / 4)
code_offset (negsuc n) = negsuc (n / 4)

-- obj + obj_off
unfoldable pub displaced_object : Env → Value → Value → ℕ
displaced_object env obj_off obj =
    (word_of env obj + to_word (unfix (word_of env obj_off))) % 2 ^ 64

-- The distance from the word behind the one that is stored, as an int.
unfoldable pub relative_distance : ℕ → ℤ → ℕ → ℕ
relative_distance code_data code_off target =
    let next_word = (code_data + to_word code_off + 4) % 2 ^ 64 in
    (target + (2 ^ 64 - next_word)) % 2 ^ 32

unfoldable pub found_name : Option ℕ → Outcome ℕ
found_name (some sym) = ok sym
found_name none = stop no_foreign_name

unfoldable pub name_bytes : Env → Option Object → Outcome ℕ
name_bytes env (some (bytevector name)) = found_name (env.dlsym name)
name_bytes env _ = stop foreign_name

unfoldable pub foreign_address : Env → List Object → Value → Outcome ℕ
foreign_address env heap (object i) = name_bytes env (get_elem? heap i)
foreign_address env heap _ = stop foreign_name

-- The kinds whose entry has two words, of which `a` is the second; another kind reads behind the
-- vector.
unfoldable pub relocate_two : Env → List Object → Kind → ℤ → Value → List ℕ → Outcome (List ℕ)
relocate_two env heap Kind.vanilla r a bytes =
    store_bytes (bytes_of 8 (word_of env a)) (code_offset r) bytes
relocate_two env heap Kind.foreign r a bytes =
    bind (foreign_address env heap a) (λ sym. store_bytes (bytes_of 8 sym) (code_offset r) bytes)
relocate_two env heap Kind.displaced r a bytes = stop wrong_object
relocate_two env heap Kind.jump_label r a bytes = stop wrong_object

-- The kinds whose entry has three.
unfoldable pub relocate_three : Env → ℕ → Kind → ℤ → Value → Value → List ℕ → Outcome (List ℕ)
relocate_three env code_data Kind.vanilla r a b bytes = stop wrong_object
relocate_three env code_data Kind.foreign r a b bytes = stop wrong_object
relocate_three env code_data Kind.displaced r a b bytes =
    store_bytes (bytes_of 8 (displaced_object env a b)) (code_offset r) bytes
relocate_three env code_data Kind.jump_label r a b bytes =
    store_bytes
      (bytes_of 4 (relative_distance code_data (code_offset r) (displaced_object env a b)))
      (code_offset r) bytes

abbrev pub has_two : Kind → Bool
has_two Kind.vanilla = true
has_two Kind.foreign = true
has_two Kind.displaced = false
has_two Kind.jump_label = false

-- The loop over the vector. `code_data` is the address of the bytes.
unfoldable pub relocate : Env → List Object → ℕ → List Value → List ℕ → Outcome (List ℕ)
relocate env heap code_data [] bytes = ok bytes
relocate env heap code_data (v ∷ []) bytes =
    if eq_ℤ (unfix (word_of env v)) (pos 0) then stop unset_reloc else stop wrong_object
relocate env heap code_data (v ∷ a ∷ []) bytes =
    let r = unfix (word_of env v) in
    if eq_ℤ r (pos 0) then stop unset_reloc else relocate_two env heap (kind_of r) r a bytes
relocate env heap code_data (v ∷ a ∷ b ∷ rest) bytes =
    let r = unfix (word_of env v) in
    if eq_ℤ r (pos 0)
    then stop unset_reloc
    else if has_two (kind_of r)
    then bind (relocate_two env heap (kind_of r) r a bytes) (relocate env heap code_data (b ∷ rest))
    else bind (relocate_three env code_data (kind_of r) r a b bytes)
        (relocate env heap code_data rest)
