-- ===== src/Common/Errors.antt =====
-- Python's exceptions as values, and what a call returns when it raises none.
use mathlib.Core.Path.{◌≡◌, refl}
use mathlib.Core.Bool.{Bool, true, false}

-- The exceptions that the code raises.
pub data Exception : Type 0 where
  index_error key_error value_error assertion_error not_implemented bad_parameter
        unbound_local_error networkx_error :
      Exception

-- A call's value, or the exception it ends with.
pub data Result {ℓ} (Value : Type ℓ) : Type ℓ where
  ok : (value : Value) → Result Value
  err : (raised : Exception) → Result Value

-- The call raises nothing, and its value satisfies `P`.
abbrev pub Returns {ℓ κ} : {V : Type ℓ} → (V → Type κ) → Result V → Type (ℓ ⊔ κ)
Returns {V} P call = (v : V) × (call ≡ ok v) × P v

-- `assert test`, for the exception that a failing test raises.
abbrev pub guard : Bool → Exception → Result (Unit {0})
guard test raised = elim test [ true ↦ ok tt | false ↦ err raised ]

infixl 5 ◌>>=◌ ◌>>◌
-- A call whose value the rest of the code uses; an exception ends both.
abbrev pub ◌>>=◌ {ℓ κ} : {V : Type ℓ} {W : Type κ} → Result V → (V → Result W) → Result W
call >>= rest = elim call [ ok v ↦ rest v | err raised ↦ err raised ]

-- A call for its exception alone.
abbrev pub ◌>>◌ {κ} : {W : Type κ} → Result (Unit {0}) → Result W → Result W
call >> rest = elim call [ ok _ ↦ rest | err raised ↦ err raised ]

module _ {ℓ κ} {V : Type ℓ} {W : Type κ} where
  pub >>=-eq-ok :
      (call : Result V) (rest : V → Result W) {w : W}
      → (call >>= rest) ≡ ok w
      → (v : V) × (call ≡ ok v) × (rest v ≡ ok w)
  >>=-eq-ok (ok v) rest done = (v, refl, done)
  >>=-eq-ok (err raised) rest done = cc

  pub Returns->>= {μ} :
      {Q : W → Type μ} (call : Result V) (rest : V → Result W) {v : V}
      → call ≡ ok v
      → Returns Q (rest v)
      → Returns Q (call >>= rest)
  Returns->>= call rest e (w, e', q) = (w, rw e e', q)

pub guard-eq-ok :
    (test : Bool) (raised : Exception) {u : Unit {0}} → guard test raised ≡ ok u → test ≡ true
guard-eq-ok true raised passed = refl
guard-eq-ok false raised passed = cc

pub ok_inj {ℓ} : {V : Type ℓ} {v w : V} → ◌≡◌ {A = Result V} (ok v) (ok w) → v ≡ w
ok_inj same = cc
