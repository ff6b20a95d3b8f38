-- ===== src/Fasl/Total.antt =====
-- The fuel of `do_read` and of `ik_fasl_load`: each call takes a byte at least, so that the length of
-- the input is enough.
use ikarus.Base.{Option, some, none, ℕ, zero, suc, ◌≤◌, ◌<◌, ◌≢◌, arith, List, [], ◌∷◌, length}
use ikarus.Fasl
use ikarus.Fasl.Bounds.{read_tagged-Reads, read_prefix-Reads}
use ikarus.Fasl.Consumes.{
  Consumes-length, Takes, Reads, fails-Reads, bind-Reads, any-Reads, then-Reads, if-Reads,
  fasl_read_byte-Reads, fasl_read_buf-Reads,
}
use ikarus.Fasl.Ensures.{Ensures, holds, stopped, Ensures-bind, Ensures-out_of_fuel}
use ikarus.Fasl.Load.{fasl_header, same_bytes, ik_fasl_read, returned, ik_fasl_load}
use ikarus.Fasl.Port.{Reader, next_byte, fasl_read_byte, fasl_read_buf}
use ikarus.Fasl.Read.{do_read, tag_of, read_prefix}
use ikarus.Fasl.{Value, Store, FaslPort, Env, Outcome, out_of_fuel, invalid_header}

at_end {ℓ} :
    {A : Type ℓ} (f : ℕ → Reader A) (P : A × FaslPort → Type 0) (xs : List ℕ) (p : FaslPort)
    → length xs ≤ 0
    → Ensures P (Fasl.bind (next_byte xs p) (λ (c, p'). f c p'))
unfolding next_byte
at_end f P [] p le = stopped
at_end f P (x ∷ xs) p le = absurd (omega arith)

do_read-Reads : (env : Env) (n : ℕ) → Reads n 1 (do_read env (suc n))
unfolding do_read fasl_read_byte
do_read-Reads env zero p le = at_end _ _ p.input p le
do_read-Reads env (suc n) q short =
    bind-Reads (suc n) 1 0 fasl_read_byte _ (fasl_read_byte-Reads (suc n))
      (λ c p le.
        then-Reads n (read_prefix c) _ (read_prefix-Reads n c)
          (λ x.
            read_tagged-Reads env n (do_read env (suc n)) (any-Reads n 1 _ (do_read-Reads env n))
              x.0 (tag_of x.1))
          p (omega (arith, le)))
      q short

-- With more fuel than the input has bytes, `do_read` stops, at a call of exit(-1) or where C leaves
-- the rest undefined, or it returns. Then at least one byte and only bytes from the front of the input
-- are gone, no object is, and nothing behind the end of the input was read: with any more bytes behind
-- it, `do_read` returns the same value, marks and store, and leaves those bytes behind the others.
pub do_read-Ensures :
    (env : Env) (fuel : ℕ) (p : FaslPort)
    → length p.input < fuel
    → Ensures (Takes 1 (do_read env fuel) p) (do_read env fuel p)
do_read-Ensures env zero p lt = absurd (omega arith)
do_read-Ensures env (suc n) p lt = do_read-Reads env n p (omega (arith, lt))

ik_fasl_read-Reads : (env : Env) (n : ℕ) → Reads (suc n) 6 (ik_fasl_read env (suc n))
unfolding ik_fasl_read
ik_fasl_read-Reads env n =
    bind-Reads (suc n) 6 0 (fasl_read_buf 6) _ (fasl_read_buf-Reads (suc n) 6) λ buf p le.
      if-Reads n 0 (same_bytes buf fasl_header) _ _ (any-Reads n 1 _ (do_read-Reads env n))
        (fails-Reads n 0 invalid_header) p (omega (arith, le))

returned-Ensures : (r : Option Store) → Ensures (λ s. Unit {0}) (returned r)
unfolding returned
returned-Ensures (some s) = holds tt
returned-Ensures none = stopped

load_rounds :
    (env : Env) (exec : Value → Store → Option Store) (rounds : ℕ) (bytes : List ℕ) (store : Store)
    → length bytes ≤ rounds
    → Ensures (λ s. Unit {0}) (ik_fasl_load env exec rounds bytes store)
unfolding ik_fasl_load
load_rounds env exec rounds [] store le = holds tt
load_rounds env exec zero (b ∷ bytes) store le = absurd (omega arith)
load_rounds env exec (suc rounds) (b ∷ bytes) store le =
    let p : FaslPort = record { input = b ∷ bytes; marks = []; store = store } in
    Ensures-bind (ik_fasl_read-Reads env (length bytes) p (omega arith)) λ (v, p') (c, again).
      Ensures-bind (returned-Ensures (exec v p'.store))
        λ s u. load_rounds env exec rounds p'.input s (omega (arith, Consumes-length c, le))

-- For each object that is run, let `exec` say whether the run comes back, and with which store. The
-- length of the file is enough fuel for the loops of `ik_fasl_load`: it comes to the end of the file,
-- or it stops at a call of exit(-1), where C leaves the rest undefined, or in a run that does not come
-- back.
pub ik_fasl_load_has_fuel :
    (env : Env) (exec : Value → Store → Option Store) (bytes : List ℕ) (store : Store)
    → ik_fasl_load env exec (length bytes) bytes store ≢ out_of_fuel
ik_fasl_load_has_fuel env exec bytes store =
    Ensures-out_of_fuel (load_rounds env exec (length bytes) bytes store (omega arith))
