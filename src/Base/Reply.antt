-- ===== src/Base/Reply.antt =====
-- The answers of a service: a value, or one of the exceptions that its methods throw.
use Prim.Native.Nat.{ℕ}
use Prim.Native.String.{String}
use mathlib.Core.Path.{subst, ◌≡◌, refl}
use mathlib.Core.Bool.{Bool, true, false}
use mathlib.Core.Option.{Option, none, some}
use proactive.Base.Texts.{Text}

-- NestJS's exceptions by class, and the errors of the database client.
pub data Failure : Type 0 where
  bad_request not_found forbidden unauthorized : String → Failure
  conflicting too_many_requests service_unavailable : String → Failure
  unique_violation record_missing : String → Failure
  -- `buildConflictError`: message, reason, visit, local record and idempotency key.
  conflict : Text → Text → Option ℕ → Option ℕ → Option ℕ → Failure

pub data Result {ℓ} (A : Type ℓ) : Type ℓ where
  err : Failure → Result A
  ok : A → Result A

-- `await`: what throws ends the method, and the rest runs on the value.
infixl 5 ◌>>=◌ ◌>>◌
abbrev pub ◌>>=◌ {ℓ μ} : {A : Type ℓ} {B : Type μ} → Result A → (A → Result B) → Result B
err failure >>= rest = err failure
ok value >>= rest = rest value

abbrev pub ◌>>◌ {μ} : {B : Type μ} → Result (Unit {0}) → Result B → Result B
step >> rest = step >>= λ _. rest

-- `if (!test) throw e`, and `if (test) throw e`.
abbrev pub require : Bool → Failure → Result (Unit {0})
require true e = ok tt
require false e = err e

abbrev pub refuse : Bool → Failure → Result (Unit {0})
refuse true e = err e
refuse false e = ok tt

-- A row that must be there, and one that must not.
abbrev pub found {ℓ} : {A : Type ℓ} → Option A → Failure → Result A
found none e = err e
found (some a) e = ok a

abbrev pub absent {ℓ} : {A : Type ℓ} → Option A → Failure → Result (Unit {0})
absent none e = ok tt
absent (some _) e = err e

-- What is done with the answer, if there is one.
abbrev pub map_ok {ℓ μ} : {A : Type ℓ} {B : Type μ} → (A → B) → Result A → Result B
map_ok f (ok a) = ok (f a)
map_ok f (err e) = err e

-- A chain that succeeds: its first step did, and so did the rest.
pub >>=-eq-ok {ℓ μ} :
    {A : Type ℓ} {B : Type μ} (step : Result A) (rest : A → Result B) {answer : B}
    → (step >>= rest) ≡ ok answer
    → (value : A) × (step ≡ ok value) × (rest value ≡ ok answer)
>>=-eq-ok (err failure) rest h = cc
>>=-eq-ok (ok value) rest h = (value, refl, h)

pub map_ok-eq-ok {ℓ μ} :
    {A : Type ℓ} {B : Type μ} (f : A → B) (r : Result A) {b : B}
    → map_ok f r ≡ ok b
    → (a : A) × (r ≡ ok a) × (f a ≡ b)
map_ok-eq-ok f (err failure) h = cc
map_ok-eq-ok f (ok a) h = (a, refl, cc)

pub map_ok_err {ℓ μ} :
    {A : Type ℓ} {B : Type μ} (f : A → B) (r : Result A) {b : B} {e : Failure}
    → r ≡ err e
    → map_ok f r ≡ ok b
    → ⊥
map_ok_err f r q h = cc

pub ok-injective {ℓ} : {A : Type ℓ} {a b : A} → ok a ≡ ok b → a ≡ b
ok-injective h = cc

-- What holds of a result if it is there, and the rule for a chain.
abbrev pub IfOk {ℓ κ} : {A : Type ℓ} → (A → Type κ) → Result A → Type κ
IfOk P (ok a) = P a
IfOk P (err e) = Unit

pub IfOk-bind {ℓ κ μ ν} :
    {A : Type ℓ} {B : Type κ} (Q : A → Type μ) (P : B → Type ν) (m : Result A) (f : A → Result B)
    → IfOk Q m
    → ((a : A) → Q a → IfOk P (f a))
    → IfOk P (m >>= f)
IfOk-bind Q P (ok a) f q h = h a q
IfOk-bind Q P (err e) f q h = tt

pub IfOk-ok {ℓ κ} : {A : Type ℓ} (P : A → Type κ) (m : Result A) {a : A} → IfOk P m → m ≡ ok a → P a
IfOk-ok P (ok a) h e = subst P (ok-injective e) h
IfOk-ok P (err x) h e = cc

pub IfOk-of_eq {ℓ κ} :
    {A : Type ℓ} (P : A → Type κ) (m : Result A) → ((a : A) → m ≡ ok a → P a) → IfOk P m
IfOk-of_eq P (ok a) h = h a refl
IfOk-of_eq P (err e) h = tt

-- The rule for each kind of first step, which hands on what the step has established.
module _ {ℓ κ} {B : Type ℓ} (P : B → Type κ) where
  pub IfOk-found {μ} :
      {A : Type μ} (o : Option A) (e : Failure) (f : A → Result B)
      → ((a : A) → o ≡ some a → IfOk P (f a))
      → IfOk P (found o e >>= f)
  IfOk-found none e f h = tt
  IfOk-found (some a) e f h = h a refl

  pub IfOk-absent {μ} :
      {A : Type μ} (o : Option A) (e : Failure) (f : Unit {0} → Result B)
      → (o ≡ none → IfOk P (f tt))
      → IfOk P (absent o e >>= f)
  IfOk-absent none e f h = h refl
  IfOk-absent (some a) e f h = tt

  pub IfOk-refuse :
      (b : Bool) (e : Failure) (f : Unit {0} → Result B)
      → (b ≡ false → IfOk P (f tt))
      → IfOk P (refuse b e >>= f)
  IfOk-refuse true e f h = tt
  IfOk-refuse false e f h = h refl

  pub IfOk-step {μ} :
      {A : Type μ} (m : Result A) (f : A → Result B)
      → ((a : A) → m ≡ ok a → IfOk P (f a))
      → IfOk P (m >>= f)
  IfOk-step (ok a) f h = h a refl
  IfOk-step (err e) f h = tt
