-- ===== src/Base/Calls.antt =====
-- How a call of a Go function ends: it returns a value, it returns an error, or it panics.
use Prim.Native.String.{String}
use mathlib.Core.Path.{◌≡◌, refl, ap}
use mathlib.Core.Bool.{Bool, true, false}
use mathlib.Core.Logic.{◌⊎◌, inl, inr}
use mathlib.Core.Option.{Option, none, some}
use mathlib.Core.List.{List, [], ◌∷◌}

pub data Outcome {ℓ} (A : Type ℓ) : Type ℓ where
  panic : Outcome A
  err : String → Outcome A
  ok : A → Outcome A

pub ok-injective {ℓ} : {A : Type ℓ} {a b : A} → ok a ≡ ok b → a ≡ b
ok-injective {A} {a} {b} h = ap (value a) h
  where
    value : A → Outcome A → A
    value d (ok x) = x
    value d (err e) = d
    value d panic = d

-- A chain of calls, each of which may fail.
infixl 5 ◌>>=◌
abbrev pub ◌>>=◌ {ℓ κ} : {X : Type ℓ} {Y : Type κ} → Outcome X → (X → Outcome Y) → Outcome Y
panic >>= next = panic
err message >>= next = err message
ok x >>= next = next x

-- A call for its effect alone.
infixl 5 ◌>>◌
abbrev pub ◌>>◌ {ℓ} : {Y : Type ℓ} → Outcome (Unit {0}) → Outcome Y → Outcome Y
first >> second = first >>= λ _. second

-- An error with the caller's own message where the callee said `false`.
abbrev pub or_err {ℓ} : {A : Type ℓ} → String → Option A → Outcome A
or_err e none = err e
or_err e (some a) = ok a

-- `if !b { return nil, err }`
abbrev pub guard : Bool → String → Outcome (Unit {0})
guard true e = ok tt
guard false e = err e

-- A value that is there, or a panic.
abbrev pub or_panic {ℓ} : {A : Type ℓ} → Option A → Outcome A
or_panic none = panic
or_panic (some a) = ok a

-- A chain that returned a value has done so in each of its calls.
pub >>=-eq-ok {ℓ κ} :
    {X : Type ℓ} {Y : Type κ} (call : Outcome X) (next : X → Outcome Y) {y : Y}
    → (call >>= next) ≡ ok y
    → (x : X) × (call ≡ ok x) × (next x ≡ ok y)
>>=-eq-ok panic next returned = cc
>>=-eq-ok (err message) next returned = cc
>>=-eq-ok (ok x) next returned = (x, refl, returned)

-- `if err != nil { panic(err) }`
abbrev pub no_error {ℓ} : {A : Type ℓ} → Outcome A → Outcome A
no_error (ok a) = ok a
no_error (err e) = panic
no_error panic = panic

pub Outcome-cases {ℓ} :
    {A : Type ℓ} (r : Outcome A)
    → ((a : A) × (r ≡ ok a)) ⊎ (((e : String) × (r ≡ err e)) ⊎ (r ≡ panic))
Outcome-cases (ok a) = inl (a, refl)
Outcome-cases (err e) = inr (inl (e, refl))
Outcome-cases panic = inr (inr refl)

-- A loop that makes a slice of the results of a call on each element, and stops at a failure.
abbrev pub collect {ℓ κ} : {A : Type ℓ} {B : Type κ} → (A → Outcome B) → List A → Outcome (List B)
collect f [] = ok []
collect f (x ∷ xs) = do y ← f x; ys ← collect f xs; ok (y ∷ ys)

-- What holds of the end of a chain, when it holds after each value of the first call.
pub after {ℓ κ μ} :
    {A : Type ℓ} {B : Type κ} {P : B → Type μ} (call : Outcome A) (next : A → Outcome B)
    → ((a : A) → call ≡ ok a → (y : B) → next a ≡ ok y → P y)
    → (y : B) → (call >>= next) ≡ ok y
    → P y
after call next step y returned =
    let (a, called, rest) = >>=-eq-ok call next returned in step a called y rest

pub no_error-inv {ℓ} : {A : Type ℓ} (o : Outcome A) {a : A} → no_error o ≡ ok a → o ≡ ok a
no_error-inv (ok x) h = h
no_error-inv (err e) h = cc
no_error-inv panic h = cc

pub or_panic-inv {ℓ} : {A : Type ℓ} {o : Option A} {a : A} → or_panic o ≡ ok a → o ≡ some a
or_panic-inv {o = none} h = cc
or_panic-inv {o = some x} h = ap some (ok-injective h)
