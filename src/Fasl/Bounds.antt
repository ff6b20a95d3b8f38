-- ===== src/Fasl/Bounds.antt =====
-- The branches of `do_read` take their bytes from the input.
use ikarus.Base.{ℕ, zero, suc, ◌+◌, [], ◌==◌}
use ikarus.Base.Int.{ℤ, pos, negsuc}
use ikarus.Fasl.Consumes.{
  Reads, pure-Reads, fails-Reads, any-Reads, then-Reads, if-Reads, fasl_read_byte-Reads,
  fasl_read_buf-Reads, read_int-Reads, read_long-Reads, read_word-Reads, size_of-Reads,
  positive-Reads, check_mark-Reads, put_mark-Reads, get_mark-Reads, allocate-Reads,
  write_object-Reads, read_object-Reads,
}
use ikarus.Fasl.Parts.{
  read_many-Reads, marked-Reads, elements-Reads, name_of-Reads, on_tables-Reads,
  ik_relocate_code-Reads, is_flonum-Reads, rtd_of-Reads, read_elements-Reads, read_cars-Reads,
  read_pair_at-Reads, read_fields-Reads,
}
use ikarus.Fasl.Port.{Reader, fasl_read_buf, read_long}
use ikarus.Fasl.Read.{
  Tag, read_tagged, read_mark, read_prefix, read_code, read_pair, read_symbol, read_ascii_string,
  read_string, read_vector, read_gensym, field_list, read_rtd, read_closure, read_bytevector,
  read_list, list_length, check_length, read_bignum, read_complex,
}
use ikarus.Fasl.{Value, Env, invalid_length, invalid_type}

long-Reads : (n : ℕ) → Reads n 0 read_long
long-Reads n = any-Reads n 8 _ (read_long-Reads n)

pub buf-Reads : (n k : ℕ) → Reads n 0 (fasl_read_buf k)
buf-Reads n k = any-Reads n k _ (fasl_read_buf-Reads n k)

module _ (env : Env) (n : ℕ) (m : Reader Value) (h : Reads n 0 m) (mark : ℕ) where
  code_branch : Reads n 0 (read_code env m mark)
  unfolding read_code
  code_branch = then-Reads n _ _ (long-Reads n) λ size.
      then-Reads n _ _ (size_of-Reads n 1 size) λ k.
        then-Reads n _ _ (any-Reads n 8 _ (read_word-Reads n)) λ freevars.
          then-Reads n _ _ h λ annotation. then-Reads n _ _ (buf-Reads n k) λ bytes.
            then-Reads n _ _ (allocate-Reads n _) λ i.
              then-Reads n _ _ (put_mark-Reads n mark _) λ u. then-Reads n _ _ h λ vec.
                then-Reads n _ _ (read_object-Reads n vec) λ relocs.
                  then-Reads n _ _ (ik_relocate_code-Reads n env i _ relocs) λ u'. pure-Reads n _

  pair_branch : Reads n 0 (read_pair env m mark)
  unfolding read_pair
  pair_branch = then-Reads n _ _ (allocate-Reads n _) λ i.
      then-Reads n _ _ (put_mark-Reads n mark _)
        λ u. then-Reads n _ _ (read_pair_at-Reads n m h i) λ u'. pure-Reads n _

  symbol_branch : Reads n 0 (read_symbol env m mark)
  unfolding read_symbol
  symbol_branch = then-Reads n _ _ h λ str. then-Reads n _ _ (read_object-Reads n str) λ o.
      then-Reads n _ _ (elements-Reads n o) λ s.
        then-Reads n _ _ (on_tables-Reads n _)
          λ sym. then-Reads n _ _ (put_mark-Reads n mark sym) λ u. pure-Reads n sym

  ascii_branch : Reads n 0 (read_ascii_string env m mark)
  unfolding read_ascii_string
  ascii_branch = then-Reads n _ _ (long-Reads n) λ len.
      then-Reads n _ _ (size_of-Reads n 4 len)
        λ k. then-Reads n _ _ (buf-Reads n k) λ bytes. marked-Reads n mark _

  string_branch : Reads n 0 (read_string env m mark)
  unfolding read_string
  string_branch = then-Reads n _ _ (long-Reads n) λ len.
      then-Reads n _ _ (size_of-Reads n 4 len)
        λ k. then-Reads n _ _ (read_many-Reads n _ k (buf-Reads n 4)) λ chars. marked-Reads n mark _

  vector_branch : Reads n 0 (read_vector env m mark)
  unfolding read_vector
  vector_branch = then-Reads n _ _ (long-Reads n) λ len.
      then-Reads n _ _ (size_of-Reads n 8 len) λ k. then-Reads n _ _ (allocate-Reads n _) λ i.
        then-Reads n _ _ (put_mark-Reads n mark _)
          λ u. then-Reads n _ _ (read_elements-Reads n m h i [] k) λ u'. pure-Reads n _

  gensym_branch : Reads n 0 (read_gensym env m mark)
  unfolding read_gensym
  gensym_branch = then-Reads n _ _ h λ pretty. then-Reads n _ _ h λ unique.
      then-Reads n _ _ (name_of-Reads n pretty) λ name.
        then-Reads n _ _ (read_object-Reads n unique) λ o.
          then-Reads n _ _ (elements-Reads n o) λ ustr.
            then-Reads n _ _ (on_tables-Reads n _)
              λ sym. then-Reads n _ _ (put_mark-Reads n mark sym) λ u. pure-Reads n sym

  fields_branch : (k : ℕ) → Reads n 0 (field_list env m mark k)
  unfolding field_list
  fields_branch zero = pure-Reads n _
  fields_branch (suc k) =
      then-Reads n _ _ (allocate-Reads n _)
        λ i. then-Reads n _ _ (read_fields-Reads n m h i (suc k)) λ u. pure-Reads n _

  rtd_branch : Reads n 0 (read_rtd env m mark)
  unfolding read_rtd
  rtd_branch = then-Reads n _ _ h λ name. then-Reads n _ _ h λ symb.
      then-Reads n _ _ (long-Reads n) λ len. then-Reads n _ _ (size_of-Reads n 16 len) λ k.
        then-Reads n _ _ (fields_branch k) λ fields.
          then-Reads n _ _ (rtd_of-Reads n env name k fields symb)
            λ v. then-Reads n _ _ (put_mark-Reads n mark v) λ u. pure-Reads n v

  closure_branch : Reads n 0 (read_closure env m mark)
  unfolding read_closure
  closure_branch = then-Reads n _ _ (allocate-Reads n _) λ i.
      then-Reads n _ _ (put_mark-Reads n mark _) λ u.
        then-Reads n _ _ h λ c. then-Reads n _ _ (write_object-Reads n i _) λ u'. pure-Reads n _

  bytevector_branch : Reads n 0 (read_bytevector env m mark)
  unfolding read_bytevector
  bytevector_branch = then-Reads n _ _ (long-Reads n) λ len.
      then-Reads n _ _ (size_of-Reads n 1 len)
        λ k. then-Reads n _ _ (buf-Reads n k) λ bytes. marked-Reads n mark _

  list_branch : (k : ℕ) → Reads n 0 (read_list env m mark k)
  unfolding read_list
  list_branch k = then-Reads n _ _ (allocate-Reads n _) λ i.
      then-Reads n _ _ (put_mark-Reads n mark _) λ u.
        then-Reads n _ _ (read_cars-Reads n m h i k)
          λ u'. then-Reads n _ _ (read_pair_at-Reads n m h (i + k)) λ u''. pure-Reads n _

  length_branch : (len : ℤ) → Reads n 0 (list_length env m mark len)
  unfolding list_length
  length_branch (pos k) = size_of-Reads n 16 (pos k)
  length_branch (negsuc k) = fails-Reads n 0 invalid_length

  bignum_branch : Reads n 0 (read_bignum env m mark)
  unfolding read_bignum check_length
  bignum_branch = then-Reads n _ _ (long-Reads n) λ size.
      then-Reads n _ _ (if-Reads n 0 _ _ _ (pure-Reads n tt) (fails-Reads n 0 invalid_length)) λ u.
        then-Reads n _ _ (size_of-Reads n 1 _)
          λ k. then-Reads n _ _ (buf-Reads n k) λ bytes. marked-Reads n mark _

  complex_branch : Reads n 0 (read_complex env m mark)
  unfolding read_complex
  complex_branch = then-Reads n _ _ h λ real.
      then-Reads n _ _ h
        λ imag. then-Reads n _ _ (is_flonum-Reads n real) λ b. marked-Reads n mark _

  pub read_tagged-Reads : (t : Tag) → Reads n 0 (read_tagged env m mark t)
  unfolding read_tagged
  read_tagged-Reads Tag.code_tag = code_branch
  read_tagged-Reads Tag.pair_tag = pair_branch
  read_tagged-Reads Tag.symbol_tag = symbol_branch
  read_tagged-Reads Tag.ascii_tag = ascii_branch
  read_tagged-Reads Tag.string_tag = string_branch
  read_tagged-Reads Tag.vector_tag = vector_branch
  read_tagged-Reads Tag.fixnum_tag =
      then-Reads n _ _ (any-Reads n 8 _ (read_word-Reads n)) λ w. pure-Reads n _
  read_tagged-Reads Tag.false_tag = pure-Reads n _
  read_tagged-Reads Tag.true_tag = pure-Reads n _
  read_tagged-Reads Tag.null_tag = pure-Reads n _
  read_tagged-Reads Tag.byte_char_tag =
      then-Reads n _ _ (any-Reads n 1 _ (fasl_read_byte-Reads n)) λ x. pure-Reads n _
  read_tagged-Reads Tag.gensym_tag = gensym_branch
  read_tagged-Reads Tag.rtd_tag = rtd_branch
  read_tagged-Reads Tag.closure_tag = closure_branch
  read_tagged-Reads Tag.reference_tag =
      then-Reads n _ _ (any-Reads n 4 _ (read_int-Reads n))
        λ k. then-Reads n _ _ (positive-Reads n k) λ idx. get_mark-Reads n idx
  read_tagged-Reads Tag.bytevector_tag = bytevector_branch
  read_tagged-Reads Tag.short_list_tag =
      then-Reads n _ _ (any-Reads n 1 _ (fasl_read_byte-Reads n)) λ k. list_branch k
  read_tagged-Reads Tag.list_tag =
      then-Reads n _ _ (long-Reads n) λ len. then-Reads n _ _ (length_branch len) λ k. list_branch k
  read_tagged-Reads Tag.flonum_tag = then-Reads n _ _ (buf-Reads n 8) λ bytes. marked-Reads n mark _
  read_tagged-Reads Tag.char_tag =
      then-Reads n _ _ (any-Reads n 4 _ (read_int-Reads n)) λ k. pure-Reads n _
  read_tagged-Reads Tag.bignum_tag = bignum_branch
  read_tagged-Reads Tag.complex_tag = complex_branch
  read_tagged-Reads Tag.other_tag = fails-Reads n 0 invalid_type

pub read_prefix-Reads : (n c : ℕ) → Reads n 0 (read_prefix c)
unfolding read_prefix read_mark
read_prefix-Reads n c =
    if-Reads n 0 (c == 62) _ _
      (then-Reads n _ _ (any-Reads n 4 _ (read_int-Reads n)) λ k.
        then-Reads n _ _ (any-Reads n 1 _ (fasl_read_byte-Reads n)) λ c'.
          then-Reads n _ _ (positive-Reads n k)
            λ idx. then-Reads n _ _ (check_mark-Reads n idx) λ u. pure-Reads n _)
      (pure-Reads n _)
