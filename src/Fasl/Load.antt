-- ===== src/Fasl/Load.antt =====
-- `ik_fasl_read` and `ik_fasl_load`: the objects of a file, each with the header in front. What the
-- code of an object does when it is run (ik_exec_code) is a parameter: it comes back with a store, or
-- it exits or runs on, and does not come back.
use ikarus.Base.{
  Option, some, none, ℕ, zero, suc, List, [], ◌∷◌, Bool, true, false, ◌&&◌, ◌==◌, length,
  if◌then◌else◌,
}
use ikarus.Fasl
use ikarus.Fasl.{
  Value, FaslPort, Store, Env, Outcome, ok, stop, not_returned, out_of_fuel, invalid_header,
}
use ikarus.Fasl.Port.{Reader, fails, ◌>>=◌, fasl_read_buf}
use ikarus.Fasl.Read.{do_read}

-- #@IK02
abbrev pub fasl_header : List ℕ
fasl_header = 35 ∷ 64 ∷ 73 ∷ 75 ∷ 48 ∷ 50 ∷ []

-- The bytes of two buffers are the same.
unfoldable pub same_bytes : List ℕ → List ℕ → Bool
same_bytes [] [] = true
same_bytes [] (y ∷ ys) = false
same_bytes (x ∷ xs) [] = false
same_bytes (x ∷ xs) (y ∷ ys) = x == y && same_bytes xs ys

unfoldable pub ik_fasl_read : Env → ℕ → Reader Value
ik_fasl_read env fuel = do
  buf ← fasl_read_buf 6
  if same_bytes buf fasl_header then do_read env fuel else fails invalid_header

-- What is left of the loop when the call of ik_exec_code comes back.
unfoldable pub returned : Option Store → Outcome Store
returned (some store) = ok store
returned none = stop not_returned

-- The loop over the objects of a file: each is read without marks of an earlier one, and run.
unfoldable pub ik_fasl_load :
    Env → (Value → Store → Option Store) → ℕ → List ℕ → Store → Outcome Store
ik_fasl_load env exec rounds [] store = ok store
ik_fasl_load env exec zero (b ∷ bytes) store = out_of_fuel
ik_fasl_load env exec (suc rounds) (b ∷ bytes) store =
    Fasl.bind
      (ik_fasl_read env (length (b ∷ bytes))
        (record { input = b ∷ bytes; marks = []; store = store }))
      (λ (v, p). Fasl.bind (returned (exec v p.store)) λ s. ik_fasl_load env exec rounds p.input s)
