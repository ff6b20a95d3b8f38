-- ===== src/Fasl/Stored.antt =====
-- What the reading of one datum leaves: a value that stands for it, by new objects of the heap.
use ikarus.Base.{
  ℕ, zero, suc, ◌≤◌, ◌<◌, ◌≡◌, refl, arith, List, [], ◌∷◌, ◌++◌, length, get_elem?,
  get_elem?-append_last, get_elem?-set, set, some, ◌⊎◌, inl, inr,
}
use ikarus.Fasl.Objects.{marked}
use ikarus.Fasl.Port.{Reader, allocate, put_mark}
use ikarus.Fasl.Write.{Datum, write, At, Represents}
use ikarus.Fasl.{Value, Object, FaslPort, Outcome, ok}

-- A port with another input and another heap.
abbrev pub after : List ℕ → List Object → FaslPort → FaslPort
after xs h p = record p { input = xs; store = record p.store { heap = h } }

-- The objects of one heap are in another.
abbrev pub Keeps : List Object → List Object → Type 0
Keeps h h' = (a : ℕ) (o : Object) → get_elem? h a ≡ some o → get_elem? h' a ≡ some o

-- A run over the rest of the input with the heap h.
pub record Reading (r : Outcome (Value × FaslPort)) (rest : List ℕ) (h : List Object) (p : FaslPort)
    (d : Datum) : Type 0 where
  pub value : Value
  pub heap : List Object
  pub run : r ≡ ok (value, after rest heap p)
  pub grows : length h ≤ length heap
  pub keeps : Keeps h heap
  pub stands : Represents (length h) heap value d

-- The reader reads a datum wherever its bytes are in front.
abbrev pub ReadsDatum : Reader Value → Datum → Type 0
ReadsDatum m d =
    (rest : List ℕ) (h : List Object) (p : FaslPort)
    → Reading (m (after (write d ++ rest) h p)) rest h p d

pub Keeps-append : (h os : List Object) → Keeps h (h ++ os)
Keeps-append [] os a o e = cc
Keeps-append (x ∷ h) os zero o e = e
Keeps-append (x ∷ h) os (suc a) o e = Keeps-append h os a o e

-- An object that is written leaves the others.
pub set_kept :
    (h : List Object) (i a : ℕ) (o v : Object)
    → i < length h
    → (a < i) ⊎ (i < a)
    → get_elem? h a ≡ some o
    → get_elem? (set h i v) a ≡ some o
set_kept h i a o v lt (inl ne) e = ground (arith, get_elem?-set h i a v lt)
set_kept h i a o v lt (inr ne) e = ground (arith, get_elem?-set h i a v lt)

pub set_written :
    (h : List Object) (i : ℕ) (v : Object) → i < length h → get_elem? (set h i v) i ≡ some v
set_written h i v lt = ground (arith, get_elem?-set h i i v lt)

pub marked_lem :
    (rest : List ℕ) (h : List Object) (p : FaslPort) (o : Object)
    → marked 0 o (after rest h p) ≡ ok (Value.object (length h), after rest (h ++ o ∷ []) p)
unfolding marked allocate put_mark
marked_lem rest h p o = refl

pub At-append :
    (h : List Object) (o : Object) → At (length h) (h ++ o ∷ []) (Value.object (length h)) o
At-append h o = record {
  address = length h;
  object_at = refl;
  above = omega arith;
  holds = ground (arith, get_elem?-append_last h o (length h));
}
