-- ===== src/Fasl/Pairs.antt =====
-- The reading of pairs and lists in the places that were allocated for them.
use ikarus.Base.{
  ℕ, suc, ◌+◌, ◌≤◌, ◌<◌, ◌≡◌, refl, arith, List, [], ◌∷◌, ◌++◌, length, length-append, length-set,
  length-replicate, replicate, get_elem?, get_elem?_in, set, some, ◌⊎◌, inl, inr,
}
use ikarus.Fasl
use ikarus.Fasl.Holds.{Represents-carry, RepresentsList-carry}
use ikarus.Fasl.Objects.{read_cars, read_pair_at}
use ikarus.Fasl.Port.{Reader, ◌>>=◌, allocate, put_mark, write_object}
use ikarus.Fasl.Read.{read_pair, read_list}
use ikarus.Fasl.Stored.{Reading, ReadsDatum, after, Keeps-append, set_kept, set_written}
use ikarus.Fasl.Write.{Datum, Data, count, write, write_all, Represents, RepresentsList}
use ikarus.Fasl.{Value, Object, FaslPort, Env, Outcome, ok, pair, unwritten}
use mathlib.Core.List.{append_assoc}

-- The objects outside the addresses from i up to j stay.
abbrev Outside : ℕ → ℕ → List Object → List Object → Type 0
Outside i j h h' =
    (a : ℕ) (o : Object) → (a < i) ⊎ (j ≤ a) → get_elem? h a ≡ some o → get_elem? h' a ≡ some o

-- A run that fills the pairs of a list from the address i on.
record Filling (r : Outcome (Unit {0} × FaslPort)) (rest : List ℕ) (h : List Object) (p : FaslPort)
    (i : ℕ) (xs : Data) : Type 0 where
  heap : List Object
  run : r ≡ ok (tt, after rest heap p)
  grows : length h ≤ length heap
  keeps : Outside i (i + count xs + 1) h heap
  stands : RepresentsList i heap (Value.object i) xs

pair_at :
    (m : Reader Value) (a d : Datum)
    → ReadsDatum m a
    → ReadsDatum m d
    → (rest : List ℕ) (h : List Object) (p : FaslPort) (i : ℕ) → i < length h
    → Filling
        (read_pair_at m i (after ((write a ++ write d) ++ rest) h p))
        rest
        h
        p
        i
        (Data.last a d)
unfolding read_pair_at write_object RepresentsList
pair_at m a d ra rd rest h p i lt =
    let A = ra (write d ++ rest) h p in
    let x = A.value in
    let h2 = set A.heap i (pair x unwritten) in
    let l2 = length-set A.heap i (pair x unwritten) in
    let B = rd rest h2 p in
    let y = B.value in
    let h4 = set B.heap i (pair x y) in
    let in1 : i < length A.heap = omega (arith, lt, A.grows) in
    let in3 : i < length B.heap = omega (arith, in1, l2, B.grows) in
    let later : (c : ℕ) (o : Object)
        → (c < i) ⊎ (i < c)
        → get_elem? A.heap c ≡ some o
        → get_elem? h4 c ≡ some o =
      λ c o ne e. set_kept B.heap i c o _ in3 ne (B.keeps c o (set_kept A.heap i c o _ in1 ne e)) in
    record {
      heap = h4;
      run = rw (append_assoc (write a) (write d) rest, A.run, B.run) refl;
      grows = omega (arith, A.grows, l2, B.grows, length-set B.heap i (pair x y));
      keeps = λ c o out e.
          later c o (elim out [ inl l ↦ inl l | inr g ↦ inr (omega (arith, g)) ]) (A.keeps c o e);
      stands = (
        x,
        y,
        (
          record {
            address = i;
            object_at = refl;
            above = omega arith;
            holds = set_written B.heap i _ in3;
          },
          (
            Represents-carry (length h) i A.heap h4
                (λ c o le e. (omega (arith, le, lt), later c o (inr (omega (arith, le, lt))) e)) x a
                A.stands,
            Represents-carry (length h2) i B.heap h4
                (λ c o le e. (
                  omega (arith, le, in1, l2),
                  set_kept B.heap i c o _ in3 (inr (omega (arith, le, in1, l2))) e,
                ))
                y d B.stands,
          ),
        ),
      );
    }

-- The reader reads every part.
abbrev pub ReadsAll : Reader Value → Data → Type 0
ReadsAll m (Data.last a d) = ReadsDatum m a × ReadsDatum m d
ReadsAll m (Data.item e xs) = ReadsDatum m e × ReadsAll m xs

list_at :
    (m : Reader Value) (xs : Data)
    → ReadsAll m xs
    → (rest : List ℕ) (h : List Object) (p : FaslPort) (i j : ℕ) → j ≡ i + count xs
    → j < length h
    → Filling
        ((read_cars m i (count xs) >>= λ u. read_pair_at m j) (after (write_all xs ++ rest) h p))
        rest
        h
        p
        i
        xs
unfolding read_cars write_object RepresentsList write
list_at m (Data.last a d) (ra, rd) rest h p i j e lt =
    let here : j ≡ i = omega (arith, e) in
    rw here (pair_at m a d ra rd rest h p i (omega (arith, lt, here)))
list_at m (Data.item x xs) (rx, rs) rest h p i j e lt =
    let A = rx (write_all xs ++ rest) h p in
    let v = A.value in
    let first = pair v (Value.object (i + 1)) in
    let h2 = set A.heap i first in
    let l2 = length-set A.heap i first in
    let B = list_at m xs rs rest h2 p (i + 1) j (omega arith) (omega (arith, lt, A.grows, l2)) in
    let in1 : i < length A.heap = omega (arith, lt, A.grows) in
    let later : (c : ℕ) (o : Object)
        → (c < i) ⊎ (i + count xs + 2 ≤ c)
        → get_elem? A.heap c ≡ some o
        → get_elem? B.heap c ≡ some o =
      λ c o out f. elim out [
        | inl l ↦ B.keeps c o (inl (omega (arith, l))) (set_kept A.heap i c o first in1 (inl l) f)
        | inr g ↦
            B.keeps c o (inr (omega (arith, g)))
              (set_kept A.heap i c o first in1 (inr (omega (arith, g))) f)
      ] in
    record {
      heap = B.heap;
      run = rw (append_assoc (write x) (write_all xs) rest, A.run, B.run) refl;
      grows = omega (arith, A.grows, l2, B.grows);
      keeps = λ c o out f.
          later c o (elim out [ inl l ↦ inl l | inr g ↦ inr (omega (arith, g)) ]) (A.keeps c o f);
      stands = (
        v,
        Value.object (i + 1),
        (
          record {
            address = i;
            object_at = refl;
            above = omega arith;
            holds = B.keeps i first (inl (omega arith)) (set_written A.heap i first in1);
          },
          (
            Represents-carry (length h) i A.heap B.heap
                (λ c o le f.
                  (omega (arith, le, lt, e), later c o (inr (omega (arith, le, lt, e))) f))
                v x A.stands,
            RepresentsList-carry (i + 1) i B.heap B.heap (λ c o le f. (omega (arith, le), f))
                (Value.object (i + 1)) xs B.stands,
          ),
        ),
      );
    }

pairs_there :
    (h : List Object) (n : ℕ) (o : Object) → length h + n < length (h ++ replicate (suc n) o)
pairs_there h n o = omega (arith, length-append h (replicate (suc n) o), length-replicate (suc n) o)

filled :
    (r : Outcome (Unit {0} × FaslPort)) (rest : List ℕ) (h os : List Object) (p : FaslPort)
    (xs : Data) (d : Datum)
    → ((heap : List Object)
        → RepresentsList (length h) heap (Value.object (length h)) xs
        → Represents (length h) heap (Value.object (length h)) d)
    → Filling r rest (h ++ os) p (length h) xs
    → Reading (Fasl.bind r λ (u, p'). ok (Value.object (length h), p')) rest h p d
filled r rest h os p xs d same f = record {
  value = Value.object (length h);
  heap = f.heap;
  run = rw f.run refl;
  grows = omega (arith, f.grows, length-append h os);
  keeps = λ a x g. f.keeps a x (inl (get_elem?_in h a x g)) (Keeps-append h os a x g);
  stands = same f.heap f.stands;
}

bind-bind {ℓ κ ι} :
    {A : Type ℓ} {B : Type κ} {C : Type ι} (r : Outcome A) (f : A → Outcome B) (g : B → Outcome C)
    → Fasl.bind (Fasl.bind r f) g ≡ Fasl.bind r (λ a. Fasl.bind (f a) g)
bind-bind (Fasl.ok a) f g = refl
bind-bind (Fasl.stop e) f g = refl
bind-bind Fasl.out_of_fuel f g = refl

module _ (env : Env) (m : Reader Value) (rest : List ℕ) (h : List Object) (p : FaslPort) where
  pub read_list_lem :
      (xs : Data)
      → ReadsAll m xs
      → Reading
          (read_list env m 0 (count xs) (after (write_all xs ++ rest) h p))
          rest
          h
          p
          (Datum.list xs)
  unfolding read_list allocate put_mark Represents
  read_list_lem xs rs =
      let o = pair unwritten unwritten in
      let h' = h ++ replicate (suc (count xs)) o in
      let f =
        list_at m xs rs rest h' p (length h) (length h + count xs) refl
          (pairs_there h (count xs) o) in
      rw (bind-bind _ _ _) at
        (filled _ rest h (replicate (suc (count xs)) o) p xs (Datum.list xs) (λ heap s. s) f)

  pub read_pair_lem :
      (a d : Datum)
      → ReadsDatum m a
      → ReadsDatum m d
      → Reading
          (read_pair env m 0 (after ((write a ++ write d) ++ rest) h p))
          rest
          h
          p
          (Datum.pair a d)
  unfolding read_pair allocate put_mark RepresentsList
  read_pair_lem a d ra rd =
      let o = pair unwritten unwritten in
      let f =
        pair_at m a d ra rd rest (h ++ o ∷ []) p (length h)
          (omega (arith, length-append h (o ∷ []))) in
      filled _ rest h (o ∷ []) p (Data.last a d) (Datum.pair a d) (λ heap s. s) f
