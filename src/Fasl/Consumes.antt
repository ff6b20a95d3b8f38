-- ===== src/Fasl/Consumes.antt =====
-- Every reader takes its bytes from the front of the input and none from behind its end, and none is
-- left out of fuel by an input that is short enough.
use ikarus.Base.{
  ℕ, zero, suc, ◌+◌, ◌-◌, ◌≤◌, ◌≡◌, refl, sym, ap, ◌∙◌, arith, List, [], ◌∷◌, ◌++◌, length, take,
  drop, length-append, length-take, length-set, get_elem?, ltb, ◌==◌, Option, none, some, leb, Bool,
  true, false, if◌then◌else◌,
}
use ikarus.Fasl.Ensures.{Ensures, holds, stopped, Ensures-if, Ensures-bind, Ensures-map}
use ikarus.Fasl.Port.{
  Reader, pure, fails, ◌>>=◌, next_byte, fasl_read_byte, fasl_read_buf, read_int, read_long,
  read_word, size_of, positive, check_unset, check_marks, check_mark, put_mark, set_mark, get_mark,
  allocate, write_object, existing, read_object,
}
use ikarus.Base.Int.{ℤ, pos, negsuc}
use ikarus.Fasl.{
  FaslPort, Stop, ok, Value, Object, bad_length, invalid_index, mark_too_big, mark_set, no_mark,
  wrong_object,
}
use mathlib.Core.List.{append_assoc}

-- At least k bytes are gone from the front of the input, and no object is.
pub record Consumes (k : ℕ) (p p' : FaslPort) : Type 0 where
  pub read : List ℕ
  pub split : p.input ≡ read ++ p'.input
  pub enough : k ≤ length read
  pub grows : length p.store.heap ≤ length p'.store.heap

pub Consumes-length :
    {k : ℕ} {p p' : FaslPort} → Consumes k p p' → length p'.input + k ≤ length p.input
Consumes-length {p = p} {p'} c =
    omega (arith, ap length c.split, length-append c.read p'.input, c.enough)

pub Consumes-trans :
    {j k : ℕ} {p p' p'' : FaslPort} → Consumes j p p' → Consumes k p' p'' → Consumes (j + k) p p''
Consumes-trans {p'' = p''} c d = record {
  read = c.read ++ d.read;
  split =
      c.split ∙ ap (λ rest. c.read ++ rest) d.split ∙ sym (append_assoc c.read d.read p''.input);
  enough = omega (arith, length-append c.read d.read, c.enough, d.enough);
  grows = omega (arith, c.grows, d.grows);
}

-- A port with more bytes behind its input.
abbrev pub more : List ℕ → FaslPort → FaslPort
more extra p = record p { input = p.input ++ extra }

-- The run took k bytes at least, and none that is not in the input: it has the same result with any
-- more bytes behind it, and leaves them.
abbrev pub Takes {ℓ} : {A : Type ℓ} → ℕ → Reader A → FaslPort → A × FaslPort → Type ℓ
Takes k m p (a, p') =
    Consumes k p p' × ((extra : List ℕ) → m (more extra p) ≡ ok (a, more extra p'))

-- On an input of n bytes at most, the reader stops or takes k bytes at least.
abbrev pub Reads {ℓ} : {A : Type ℓ} → ℕ → ℕ → Reader A → Type ℓ
Reads n k m = (p : FaslPort) → length p.input ≤ n → Ensures (Takes k m p) (m p)

module _ {ℓ} {A : Type ℓ} where
  pub pure-Reads : (n : ℕ) (a : A) → Reads n 0 (pure a)
  pure-Reads n a p h =
      holds (
        record { read = []; split = refl; enough = omega arith; grows = omega arith },
        λ extra. refl,
      )

  pub fails-Reads : (n k : ℕ) (e : Stop) → Reads {A = A} n k (fails e)
  fails-Reads n k e p h = stopped

  pub bind-Reads {κ} :
      {B : Type κ} (n j k : ℕ) (m : Reader A) (f : A → Reader B)
      → Reads n j m
      → ((a : A) → Reads (n - j) k (f a))
      → Reads n (j + k) (m >>= f)
  bind-Reads n j k m f h g p le = Ensures-bind (h p le) λ (a, p') (c, again).
      Ensures-map
        (λ (b, p'') (d, again'). (Consumes-trans c d, λ extra. rw (again extra) (again' extra)))
        (g a p' (omega (arith, Consumes-length c, le)))

  -- A reader that takes more than it is asked for, or more than it may.
  pub less-Reads : (n j k : ℕ) (m : Reader A) → k ≤ j → Reads n j m → Reads n k m
  less-Reads n j k m le h p small =
      Ensures-map
        (λ x (c, again). (
          record {
            read = c.read;
            split = c.split;
            enough = omega (arith, le, c.enough);
            grows = c.grows;
          },
          again,
        ))
        (h p small)

  pub any-Reads : (n k : ℕ) (m : Reader A) → Reads n k m → Reads n 0 m
  any-Reads n k m h = less-Reads n k 0 m (omega arith) h

  pub then-Reads {κ} :
      {B : Type κ} (n : ℕ) (m : Reader A) (f : A → Reader B)
      → Reads n 0 m
      → ((a : A) → Reads n 0 (f a))
      → Reads n 0 (m >>= f)
  then-Reads n m f h g = bind-Reads n 0 0 m f h (λ a p le. g a p (omega (arith, le)))

  pub if-Reads :
      (n k : ℕ) (b : Bool) (x y : Reader A)
      → Reads n k x
      → Reads n k y
      → Reads n k (if b then x else y)
  if-Reads n k true x y h g = h
  if-Reads n k false x y h g = g

next_byte-Ensures :
    (xs : List ℕ) (p : FaslPort)
    → p.input ≡ xs
    → Ensures (Takes 1 fasl_read_byte p) (next_byte xs p)
unfolding fasl_read_byte next_byte
next_byte-Ensures [] p e = stopped
next_byte-Ensures (b ∷ rest) p e = holds (
  record { read = b ∷ []; split = e; enough = omega arith; grows = omega arith },
  λ extra. rw e refl,
)

pub fasl_read_byte-Reads : (n : ℕ) → Reads n 1 fasl_read_byte
unfolding fasl_read_byte
fasl_read_byte-Reads n p le = next_byte-Ensures p.input p refl

take-drop : (n : ℕ) (xs : List ℕ) → xs ≡ take n xs ++ drop n xs
take-drop zero xs = refl
take-drop (suc n) [] = refl
take-drop (suc n) (x ∷ xs) = ap (◌∷◌ x) (take-drop n xs)

take-front : (n : ℕ) (xs ys : List ℕ) → n ≤ length xs → take n (xs ++ ys) ≡ take n xs
take-front zero xs ys le = refl
take-front (suc n) [] ys le = absurd (omega arith)
take-front (suc n) (x ∷ xs) ys le = ap (◌∷◌ x) (take-front n xs ys (omega arith))

drop-front : (n : ℕ) (xs ys : List ℕ) → n ≤ length xs → drop n (xs ++ ys) ≡ drop n xs ++ ys
drop-front zero xs ys le = refl
drop-front (suc n) [] ys le = absurd (omega arith)
drop-front (suc n) (x ∷ xs) ys le = drop-front n xs ys (omega arith)

pub fasl_read_buf-Reads : (n k : ℕ) → Reads n k (fasl_read_buf k)
unfolding fasl_read_buf
fasl_read_buf-Reads n k p le =
    Ensures-if (leb k (length p.input))
      (λ e.
        let there : k ≤ length p.input = ground arith in
        holds (
          record {
            read = take k p.input;
            split = take-drop k p.input;
            enough = omega (arith, length-take k p.input there);
            grows = omega arith;
          },
          λ extra.
              let longer : leb k (length (p.input ++ extra)) ≡ true =
                ground (arith, there, length-append p.input extra) in
              rw (longer, take-front k p.input extra there, drop-front k p.input extra there) refl,
        ))
      (λ e. stopped)

pub read_int-Reads : (n : ℕ) → Reads n 4 read_int
unfolding read_int
read_int-Reads n =
    bind-Reads n 4 0 (fasl_read_buf 4) _ (fasl_read_buf-Reads n 4) (λ bytes. pure-Reads (n - 4) _)

pub read_long-Reads : (n : ℕ) → Reads n 8 read_long
unfolding read_long
read_long-Reads n =
    bind-Reads n 8 0 (fasl_read_buf 8) _ (fasl_read_buf-Reads n 8) (λ bytes. pure-Reads (n - 8) _)

pub read_word-Reads : (n : ℕ) → Reads n 8 read_word
unfolding read_word
read_word-Reads n =
    bind-Reads n 8 0 (fasl_read_buf 8) _ (fasl_read_buf-Reads n 8) (λ bytes. pure-Reads (n - 8) _)

pub size_of-Reads : (n b : ℕ) (len : ℤ) → Reads n 0 (size_of b len)
unfolding size_of
size_of-Reads n b (pos len) = if-Reads n 0 _ _ _ (pure-Reads n len) (fails-Reads n 0 bad_length)
size_of-Reads n b (negsuc len) = fails-Reads n 0 bad_length

pub positive-Reads : (n : ℕ) (idx : ℤ) → Reads n 0 (positive idx)
unfolding positive
positive-Reads n (pos zero) = fails-Reads n 0 invalid_index
positive-Reads n (pos (suc i)) = pure-Reads n (suc i)
positive-Reads n (negsuc i) = fails-Reads n 0 invalid_index

-- The input and the objects stay.
pub same_input :
    {p p' : FaslPort}
    → p.input ≡ p'.input
    → length p.store.heap ≤ length p'.store.heap
    → Consumes 0 p p'
same_input e g = record { read = []; split = e; enough = omega arith; grows = g }

check_unset-Reads : (n : ℕ) (m : Option (Option Value)) → Reads n 0 (check_unset m)
unfolding check_unset
check_unset-Reads n none = fails-Reads n 0 mark_too_big
check_unset-Reads n (some none) = pure-Reads n tt
check_unset-Reads n (some (some v)) = fails-Reads n 0 mark_set

check_marks-Reads : (n : ℕ) (ms : List (Option Value)) (idx : ℕ) → Reads n 0 (check_marks ms idx)
unfolding check_marks
check_marks-Reads n [] idx p le = holds (same_input refl (omega arith), λ extra. refl)
check_marks-Reads n (x ∷ xs) idx p le = check_unset-Reads n (get_elem? (x ∷ xs) idx) p le

pub check_mark-Reads : (n idx : ℕ) → Reads n 0 (check_mark idx)
unfolding check_mark
check_mark-Reads n idx p le = check_marks-Reads n p.marks idx p le

pub put_mark-Reads : (n idx : ℕ) (v : Value) → Reads n 0 (put_mark idx v)
unfolding put_mark
put_mark-Reads n idx v p le =
    Ensures-if (idx == 0) (λ e. holds (same_input refl (omega arith), λ extra. rw e refl))
      (λ e.
        Ensures-if (ltb idx (length p.marks))
          (λ f. holds (same_input refl (omega arith), λ extra. rw (e, f) refl)) (λ f. stopped))

set_mark-Reads : (n : ℕ) (m : Option (Option Value)) → Reads n 0 (set_mark m)
unfolding set_mark
set_mark-Reads n none = fails-Reads n 0 invalid_index
set_mark-Reads n (some none) = fails-Reads n 0 no_mark
set_mark-Reads n (some (some v)) = pure-Reads n v

pub get_mark-Reads : (n idx : ℕ) → Reads n 0 (get_mark idx)
unfolding get_mark
get_mark-Reads n idx p le = set_mark-Reads n (get_elem? p.marks idx) p le

pub allocate-Reads : (n : ℕ) (os : List Object) → Reads n 0 (allocate os)
unfolding allocate
allocate-Reads n os p le =
    holds (same_input refl (omega (arith, length-append p.store.heap os)), λ extra. refl)

pub write_object-Reads : (n i : ℕ) (o : Object) → Reads n 0 (write_object i o)
unfolding write_object
write_object-Reads n i o p le =
    holds (same_input refl (omega (arith, length-set p.store.heap i o)), λ extra. refl)

existing-Reads : (n : ℕ) (o : Option Object) → Reads n 0 (existing o)
unfolding existing
existing-Reads n (some o) = pure-Reads n o
existing-Reads n none = fails-Reads n 0 wrong_object

pub read_object-Reads : (n : ℕ) (v : Value) → Reads n 0 (read_object v)
unfolding read_object
read_object-Reads n (Value.object i) p le = existing-Reads n (get_elem? p.store.heap i) p le
read_object-Reads n (Value.immediate w) p le = stopped
read_object-Reads n (Value.symbol s) p le = stopped
read_object-Reads n Value.unwritten p le = stopped
