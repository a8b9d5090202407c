-- ===== src/Action/Keeps.antt =====
-- What a call keeps of its state, or leads to.
use proactive.Base.{
  ◌≡◌, refl, subst, if◌then◌else◌, Bool, true, false, Option, none, some, Result, ok, err, map_ok,
  Failure,
}
use proactive.Action.{
  Action, and_then, ◌>>=◌, ◌>>◌, give, throw, gets, reads, expect, modify, settled, writes,
  throw_if, throw_unless, settled_with, stores,
}

-- A property of the state that a call hands on, whatever its answer.
unfoldable pub Keeps {ℓ κ μ} : {S : Type ℓ} {A : Type κ} → (S → Type μ) → Action S A → Type (ℓ ⊔ μ)
Keeps {S = S} P m = (s : S) → P s → P (m s).0

module _ {ℓ μ} {S : Type ℓ} (P : S → Type μ) where
  pub and_then-Keeps {κ ν} :
      {A : Type κ} {B : Type ν} (r : S × Result A) (f : A → Action S B)
      → ((a : A) → Keeps P (f a))
      → P r.0
      → P (and_then r f).0
  unfolding Keeps and_then
  and_then-Keeps (s, ok a) f h p = h a s p
  and_then-Keeps (s, err e) f h p = p

  pub bind-Keeps {κ ν} :
      {A : Type κ} {B : Type ν} (m : Action S A) (f : A → Action S B)
      → Keeps P m
      → ((a : A) → Keeps P (f a))
      → Keeps P (m >>= f)
  unfolding Keeps ◌>>=◌
  bind-Keeps m f k h s p = and_then-Keeps (m s) f h (k s p)

  pub then-Keeps {κ} :
      {B : Type κ} (m : Action S (Unit {0})) (k : Action S B)
      → Keeps P m
      → Keeps P k
      → Keeps P (m >> k)
  unfolding ◌>>◌
  then-Keeps m k h g = bind-Keeps m (λ _. k) h (λ _. g)

  pub give-Keeps {κ} : {A : Type κ} (a : A) → Keeps P (give a)
  unfolding Keeps give
  give-Keeps a s p = p

  pub throw-Keeps {κ} : (A : Type κ) (e : Failure) → Keeps P (throw {A = A} e)
  unfolding Keeps throw
  throw-Keeps A e s p = p

  pub gets-Keeps {κ} : {A : Type κ} (f : S → A) → Keeps P (gets f)
  unfolding Keeps gets
  gets-Keeps f s p = p

  pub reads-Keeps {κ} : {A : Type κ} (f : S → Result A) → Keeps P (reads f)
  unfolding Keeps reads
  reads-Keeps f s p = p

  pub expect-Keeps {κ} : {A : Type κ} (o : Option A) (e : Failure) → Keeps P (expect o e)
  unfolding Keeps expect
  expect-Keeps none e s p = p
  expect-Keeps (some a) e s p = p

  pub throw_if-Keeps : (b : Bool) (e : Failure) → Keeps P (throw_if b e)
  unfolding Keeps throw_if
  throw_if-Keeps true e s p = p
  throw_if-Keeps false e s p = p

  pub throw_unless-Keeps : (b : Bool) (e : Failure) → Keeps P (throw_unless b e)
  unfolding Keeps throw_unless
  throw_unless-Keeps true e s p = p
  throw_unless-Keeps false e s p = p

  pub modify-Keeps : (f : S → S) → ((s : S) → P s → P (f s)) → Keeps P (modify f)
  unfolding Keeps modify
  modify-Keeps f h = h

  pub writes-Keeps :
      (f : S → Result S) → ((s s' : S) → f s ≡ ok s' → P s → P s') → Keeps P (writes f)
  unfolding Keeps writes settled
  writes-Keeps f h s p = written (f s) refl
    where
      written : (r : Result S) → f s ≡ r → P (settled s r).0
      written (ok s') e = h s s' e p
      written (err x) e = p

  -- A write of what is computed from the state.
  pub stored-Keeps {κ} :
      {X : Type κ} (put : S → X → S) (r : S → Result X)
      → ((s : S) (x : X) → r s ≡ ok x → P s → P (put s x))
      → Keeps P (writes (λ s. map_ok (put s) (r s)))
  unfolding Keeps writes settled
  stored-Keeps {X = X} put r h s p = stored (r s) refl
    where
      stored : (o : Result X) → r s ≡ o → P (settled s (map_ok (put s) o)).0
      stored (ok x) e = h s x e p
      stored (err x) e = p

  pub stores-Keeps {κ ν} :
      {X : Type κ} {A : Type ν} (put : S → X → S × A) (r : S → Result X)
      → ((s : S) (x : X) → P s → P (put s x).0)
      → Keeps P (stores (λ s. map_ok (put s) (r s)))
  unfolding Keeps stores settled_with
  stores-Keeps {X = X} put r h s p = stored (r s)
    where
      stored : (o : Result X) → P (settled_with s (map_ok (put s) o)).0
      stored (ok x) = h s x p
      stored (err x) = p

  pub if-Keeps {κ} :
      {A : Type κ} (b : Bool) (m k : Action S A)
      → Keeps P m
      → Keeps P k
      → Keeps P (if b then m else k)
  if-Keeps true m k h g = h
  if-Keeps false m k h g = g

pub Keeps-end {ℓ κ μ} :
    {S : Type ℓ} {A : Type κ} (P : S → Type μ) (m : Action S A) {s t : S} {r : Result A}
    → Keeps P m
    → P s
    → m s ≡ (t, r)
    → P t
unfolding Keeps
Keeps-end P m {s} h p e = subst (λ x. P x.0) e (h s p)

-- A call that leads from `Q` to `P`: what comes after a write that `P` alone does not tell of.
unfoldable pub Leads {ℓ κ μ} :
    {S : Type ℓ} {A : Type κ} → (S → Type μ) → (S → Type μ) → Action S A → Type (ℓ ⊔ μ)
Leads {S = S} Q P m = (s : S) → Q s → P (m s).0

module _ {ℓ μ} {S : Type ℓ} (Q P : S → Type μ) where
  pub modify-Leads {κ} :
      {B : Type κ} (f : S → S) (k : Action S B)
      → ((s : S) → P s → Q (f s))
      → Leads Q P k
      → Keeps P (modify f >> k)
  unfolding Keeps Leads ◌>>◌ ◌>>=◌ and_then modify
  modify-Leads f k h g s p = g (f s) (h s p)

  and_then-Leads {κ ν} :
      {A : Type κ} {B : Type ν} (r : S × Result A) (k : A → Action S B)
      → ((s : S) → Q s → P s)
      → ((a : A) → Leads Q P (k a))
      → Q r.0
      → P (and_then r k).0
  unfolding Leads and_then
  and_then-Leads (s, ok a) k w g q = g a s q
  and_then-Leads (s, err e) k w g q = w s q

  pub bind-Leads {κ ν} :
      {A : Type κ} {B : Type ν} (m : Action S A) (k : A → Action S B)
      → ((s : S) → Q s → P s)
      → Keeps Q m
      → ((a : A) → Leads Q P (k a))
      → Leads Q P (m >>= k)
  unfolding Keeps Leads ◌>>=◌
  bind-Leads m k w h g s q = and_then-Leads (m s) k w g (h s q)

  pub stored-Leads {κ} :
      {X : Type κ} (put : S → X → S) (r : S → Result X)
      → ((s : S) → Q s → P s)
      → ((s : S) (x : X) → r s ≡ ok x → Q s → P (put s x))
      → Leads Q P (writes (λ s. map_ok (put s) (r s)))
  unfolding Leads writes settled
  stored-Leads {X = X} put r w h s q = stored (r s) refl
    where
      stored : (o : Result X) → r s ≡ o → P (settled s (map_ok (put s) o)).0
      stored (ok x) e = h s x e q
      stored (err x) e = w s q

  pub then-Leads {κ} :
      {B : Type κ} (m : Action S (Unit {0})) (k : Action S B)
      → Leads Q P m
      → Keeps P k
      → Leads Q P (m >> k)
  unfolding Keeps Leads ◌>>◌ ◌>>=◌
  then-Leads m k h g s q = and_then-Keeps P (m s) (λ _. k) (λ _. g) (h s q)
