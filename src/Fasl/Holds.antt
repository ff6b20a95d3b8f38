-- ===== src/Fasl/Holds.antt =====
-- A value goes on standing for a datum in a heap that keeps the objects it stands by.
use ikarus.Base.{ℕ, ◌≤◌, ◌≡◌, List, get_elem?, some}
use ikarus.Fasl.Write.{Datum, Data, At, Represents, RepresentsList}
use ikarus.Fasl.{Value, Object}

-- The objects from the address b on are in the second heap too, and not below c.
abbrev pub Carries : ℕ → List Object → ℕ → List Object → Type 0
Carries b h c h' =
    (a : ℕ) (o : Object) → b ≤ a → get_elem? h a ≡ some o → (c ≤ a) × (get_elem? h' a ≡ some o)

module _ (b c : ℕ) (h h' : List Object) (carry : Carries b h c h') where
  pub At-carry : (v : Value) (o : Object) → At b h v o → At c h' v o
  At-carry v o at =
      let kept = carry at.address o at.above at.holds in
      record { address = at.address; object_at = at.object_at; above = kept.0; holds = kept.1 }

  mutual
    unfolding Represents

    pub Represents-carry : (v : Value) (d : Datum) → Represents b h v d → Represents c h' v d
    Represents-carry v (Datum.fixnum w) r = r
    Represents-carry v (Datum.boolean x) r = r
    Represents-carry v Datum.null r = r
    Represents-carry v (Datum.byte_char x) r = r
    Represents-carry v (Datum.char x) r = r
    Represents-carry v (Datum.ascii s) r = At-carry v _ r
    Represents-carry v (Datum.string s) r = At-carry v _ r
    Represents-carry v (Datum.bytes bs) r = At-carry v _ r
    Represents-carry v (Datum.real bs) r = At-carry v _ r
    Represents-carry v (Datum.pair a d) (x, y, (at, (ra, rd))) =
        (x, y, (At-carry v _ at, (Represents-carry x a ra, Represents-carry y d rd)))
    Represents-carry v (Datum.list xs) r = RepresentsList-carry v xs r

    pub RepresentsList-carry :
        (v : Value) (xs : Data) → RepresentsList b h v xs → RepresentsList c h' v xs
    RepresentsList-carry v (Data.last a d) (x, y, (at, (ra, rd))) =
        (x, y, (At-carry v _ at, (Represents-carry x a ra, Represents-carry y d rd)))
    RepresentsList-carry v (Data.item e xs) (x, y, (at, (re, rest))) =
        (x, y, (At-carry v _ at, (Represents-carry x e re, RepresentsList-carry y xs rest)))
