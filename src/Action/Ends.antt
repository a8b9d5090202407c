-- ===== src/Action/Ends.antt =====
-- How a call ends, step by step.
use proactive.Base.{
  ◌≡◌, refl, if◌then◌else◌, Bool, true, false, Option, none, some, Result, ok, err, map_ok, found,
  Failure,
}
use proactive.Action.{
  Action, and_then, ◌>>=◌, ◌>>◌, give, throw, gets, reads, modify, settled, writes, throw_if,
  throw_unless,
}

-- How a call ends: `Q` of the answer and the state, or `E` of the state after an exception.
abbrev pub Ends {ℓ κ μ} :
    {S : Type ℓ} {A : Type κ} → (A → S → Type μ) → (S → Type μ) → S × Result A → Type μ
Ends Q E (s, ok a) = Q a s
Ends Q E (s, err e) = E s

-- What holds of the end of a call, step by step from the state in which it is made.
module _ {ℓ κ μ} {S : Type ℓ} {B : Type κ} (R : S × Result B → Type μ) where
  pub found-runs {ν} :
      {A : Type ν} (o : S → Option A) (e : Failure) (k : A → Action S B) (s : S)
      → R (s, err e)
      → ((a : A) → o s ≡ some a → R (k a s))
      → R ((reads (λ s. found (o s) e) >>= k) s)
  unfolding ◌>>=◌ and_then reads
  found-runs {A = A} o e k s h g = run (o s) refl
    where
      run : (x : Option A) → o s ≡ x → R (and_then (s, found x e) k)
      run none q = h
      run (some a) q = g a q

  pub reads-runs {ν} :
      {A : Type ν} (r : S → Result A) (k : A → Action S B) (s : S)
      → ((e : Failure) → R (s, err e))
      → ((a : A) → r s ≡ ok a → R (k a s))
      → R ((reads r >>= k) s)
  unfolding ◌>>=◌ and_then reads
  reads-runs {A = A} r k s h g = run (r s) refl
    where
      run : (x : Result A) → r s ≡ x → R (and_then (s, x) k)
      run (err e) q = h e
      run (ok a) q = g a q

  pub if-runs :
      (b : Bool) (m k : Action S B) (s : S)
      → (b ≡ true → R (m s))
      → (b ≡ false → R (k s))
      → R ((if b then m else k) s)
  if-runs true m k s h g = h refl
  if-runs false m k s h g = g refl

  pub stored-runs {ν} :
      {X : Type ν} (put : S → X → S) (r : S → Result X) (k : Action S B) (s : S)
      → ((e : Failure) → r s ≡ err e → R (s, err e))
      → ((x : X) → r s ≡ ok x → R (k (put s x)))
      → R ((writes (λ s. map_ok (put s) (r s)) >> k) s)
  unfolding ◌>>◌ ◌>>=◌ and_then writes settled
  stored-runs {X = X} put r k s h g = run (r s) refl
    where
      run : (x : Result X) → r s ≡ x → R (and_then (settled s (map_ok (put s) x)) (λ _. k))
      run (err e) q = h e q
      run (ok a) q = g a q

  pub gets-runs {ν} :
      {A : Type ν} (f : S → A) (k : A → Action S B) (s : S) → R (k (f s) s) → R ((gets f >>= k) s)
  unfolding ◌>>=◌ and_then gets
  gets-runs f k s h = h

  -- A step of which the end is known.
  pub bind-runs {ν} :
      {A : Type ν} (m : Action S A) (k : A → Action S B) (s : S)
      → ((t : S) (e : Failure) → m s ≡ (t, err e) → R (t, err e))
      → ((t : S) (a : A) → m s ≡ (t, ok a) → R (k a t))
      → R ((m >>= k) s)
  unfolding ◌>>=◌ and_then
  bind-runs {A = A} m k s h g = run (m s) refl
    where
      run : (x : S × Result A) → m s ≡ x → R (and_then x k)
      run (t, err e) q = h t e q
      run (t, ok a) q = g t a q

  pub then-runs :
      (m : Action S (Unit {0})) (k : Action S B) (s : S)
      → ((t : S) (e : Failure) → m s ≡ (t, err e) → R (t, err e))
      → ((t : S) → m s ≡ (t, ok tt) → R (k t))
      → R ((m >> k) s)
  unfolding ◌>>◌
  then-runs m k s h g = bind-runs m (λ _. k) s h (λ t _ q. g t q)

  pub known-runs {ν} :
      {A : Type ν} (m : Action S A) (k : A → Action S B) (s : S) {t : S} {a : A}
      → m s ≡ (t, ok a)
      → R (k a t)
      → R ((m >>= k) s)
  unfolding ◌>>=◌ and_then
  known-runs m k s e h = rw e h

  pub read-runs :
      (r : S → Result B) (s : S)
      → ((e : Failure) → R (s, err e))
      → ((b : B) → r s ≡ ok b → R (s, ok b))
      → R (reads r s)
  unfolding reads
  read-runs r s h g = run (r s) refl
    where
      run : (x : Result B) → r s ≡ x → R (s, x)
      run (err e) q = h e
      run (ok b) q = g b q

  pub get-runs : (f : S → B) (s : S) → R (s, ok (f s)) → R (gets f s)
  unfolding gets
  get-runs f s h = h

  pub throw-runs : (e : Failure) (s : S) → R (s, err e) → R (throw e s)
  unfolding throw
  throw-runs e s h = h

  pub give-runs : (b : B) (s : S) → R (s, ok b) → R (give b s)
  unfolding give
  give-runs b s h = h

  pub modify-runs : (f : S → S) (k : Action S B) (s : S) → R (k (f s)) → R ((modify f >> k) s)
  unfolding ◌>>◌ ◌>>=◌ and_then modify
  modify-runs f k s h = h

  pub unless-runs :
      (b : Bool) (e : Failure) (k : Action S B) (s : S)
      → R (s, err e)
      → (b ≡ true → R (k s))
      → R ((throw_unless b e >> k) s)
  unfolding ◌>>◌ ◌>>=◌ and_then throw_unless
  unless-runs true e k s h g = g refl
  unless-runs false e k s h g = h

  pub when-runs :
      (b : Bool) (e : Failure) (k : Action S B) (s : S)
      → R (s, err e)
      → (b ≡ false → R (k s))
      → R ((throw_if b e >> k) s)
  unfolding ◌>>◌ ◌>>=◌ and_then throw_if
  when-runs true e k s h g = h
  when-runs false e k s h g = g refl

  -- A step that is known to leave the state as it was.
  pub quiet-runs {ν} :
      {A : Type ν} (m : Action S A) (k : A → Action S B) (s : S)
      → (m s).0 ≡ s
      → ((e : Failure) → R (s, err e))
      → ((a : A) → R (k a s))
      → R ((m >>= k) s)
  unfolding ◌>>=◌ and_then
  quiet-runs {A = A} m k s q h g = run (m s) q
    where
      run : (x : S × Result A) → x.0 ≡ s → R (and_then x k)
      run (t, err e) q = rw q (h e)
      run (t, ok a) q = rw q (g a)
