-- ===== src/Action.antt =====
-- A call of a service that keeps state: it hands back the state that it leaves, after an exception
-- too, since what has been written stays written.
use proactive.Base.{
  ◌≡◌, refl, subst, if◌then◌else◌, Bool, true, false, Option, none, some, Result, ok, err, map_ok,
  found, Failure,
}
pub mod Keeps
pub mod Ends

abbrev pub Action {ℓ κ} : Type ℓ → Type κ → Type (ℓ ⊔ κ)
Action S A = S → S × Result A

-- An exception ends the call in the state where it was thrown.
unfoldable pub and_then {ℓ κ μ} :
    {S : Type ℓ} {A : Type κ} {B : Type μ} → S × Result A → (A → Action S B) → S × Result B
and_then (s, ok a) f = f a s
and_then (s, err e) f = (s, err e)

infixl 5 ◌>>=◌
infixr 5 ◌>>◌
unfoldable pub ◌>>=◌ {ℓ κ μ} :
    {S : Type ℓ} {A : Type κ} {B : Type μ} → Action S A → (A → Action S B) → Action S B
unfolding and_then
◌>>=◌ m f s = and_then (m s) f

unfoldable pub ◌>>◌ {ℓ κ} :
    {S : Type ℓ} {B : Type κ} → Action S (Unit {0}) → Action S B → Action S B
unfolding ◌>>=◌
m >> k = m >>= λ _. k

module _ {ℓ κ} {S : Type ℓ} {A : Type κ} where
  unfoldable pub give : A → Action S A
  give a s = (s, ok a)

  unfoldable pub throw : Failure → Action S A
  throw e s = (s, err e)

  unfoldable pub gets : (S → A) → Action S A
  gets f s = (s, ok (f s))

  -- A result computed from the state, which does not change.
  unfoldable pub reads : (S → Result A) → Action S A
  reads f s = (s, f s)

  -- `if (!row) throw e`.
  unfoldable pub expect : Option A → Failure → Action S A
  expect none e s = (s, err e)
  expect (some a) e s = (s, ok a)

module _ {ℓ} {S : Type ℓ} where
  unfoldable pub modify : (S → S) → Action S (Unit {0})
  modify f s = (f s, ok tt)

  unfoldable pub settled : S → Result S → S × Result (Unit {0})
  settled s (ok s') = (s', ok tt)
  settled s (err e) = (s, err e)

  -- A write that a constraint of the database may refuse.
  unfoldable pub writes : (S → Result S) → Action S (Unit {0})
  unfolding settled
  writes f s = settled s (f s)

  -- `if (test) throw e`, and `if (!test) throw e`.
  unfoldable pub throw_if : Bool → Failure → Action S (Unit {0})
  throw_if true e s = (s, err e)
  throw_if false e s = (s, ok tt)

  unfoldable pub throw_unless : Bool → Failure → Action S (Unit {0})
  throw_unless true e s = (s, ok tt)
  throw_unless false e s = (s, err e)

module _ {ℓ κ} {S : Type ℓ} {A : Type κ} where
  unfoldable pub settled_with : S → Result (S × A) → S × Result A
  settled_with s (ok (s', a)) = (s', ok a)
  settled_with s (err e) = (s, err e)

  -- A call that answers with the state it leaves.
  unfoldable pub stores : (S → Result (S × A)) → Action S A
  unfolding settled_with
  stores f s = settled_with s (f s)
