-- ===== src/Auth/Spent.antt =====
-- Tokens that are out of use stay so.
use proactive.Base.{
  ℕ, ◌≡◌, ◌≢◌, ◌==◌, refl, sym, ◌∙◌, Bool, true, false, ◌||◌, not, none, List, [], ◌∷◌, Text, arith,
  is_null, text_eq, text_eq_self, beq_self, if◌then◌else◌, leb, any, update_where, find_first-some,
  In, In-any, here, there, All, All-map, All-in, Pairwise, Result, ok, ok-injective, err,
  unauthorized,
}
use proactive.Policies.{EffectivePolicy, get_effective_policy}
use proactive.Action.Ends.{
  Ends, found-runs, give-runs, modify-runs, if-runs, stored-runs, quiet-runs,
}
use proactive.Action.{◌>>=◌, ◌>>◌, and_then, reads, give, throw, modify}
use proactive.Auth.Records.{Account, AuthState, RefreshToken, OneTimeToken, RevocationReason}
use proactive.Auth.Runtime.{Runtime, Moment}
use proactive.Auth.Login.{is_usable}
use proactive.Auth.Parts.{
  Session, has_hash, refresh_hash_of, use_token, is_unused, get_auth_policy, issue_session,
  insert_refresh_token, with_refresh_tokens,
}
use proactive.Auth.Tokens.{
  has_token, is_reused, rotate, detect_reuse, refresh, revoke, revoke_one, use_tokens, new_token,
}
use proactive.Auth.Service.{AuthCall, auth_step, auth_run}
use proactive.Auth.Stable.{Stable}
use proactive.Auth.Stable.Writes.{insert_unique-ok}
use proactive.Auth.Stable.Calls.{auth_step-Keeps}
use proactive.Auth.Orderly.{Differ, IsOrderly}

pub eq_of_text_eq : (s t : Text) → text_eq s t ≡ true → s ≡ t
eq_of_text_eq [] [] h = refl
eq_of_text_eq [] (b ∷ t) h = absurd (ground arith)
eq_of_text_eq (a ∷ s) [] h = absurd (ground arith)
eq_of_text_eq (a ∷ s) (b ∷ t) h = ground (arith, eq_of_text_eq s t)

pub true_ne_false : true ≢ false
true_ne_false h = cc

-- Where no hash stands for two rows, a row is the only one of its hash.
pub sole_row {ℓ} :
    {A : Type ℓ} (hash_of : A → Text) {x y : A} {xs : List A}
    → Pairwise (Differ hash_of) xs
    → In x xs
    → In y xs
    → text_eq (hash_of y) (hash_of x) ≡ true
    → y ≡ x
sole_row hash_of p (here e) (here f) h = f ∙ sym e
sole_row hash_of p (here e) (there j) h =
    let d = All-in (Differ hash_of _) p.0 j in absurd (true_ne_false (sym h ∙ rw e d))
sole_row hash_of {x} {y} p (there {y = z} i) (here f) h =
    let q = eq_of_text_eq (hash_of y) (hash_of x) h in
    let r : text_eq (hash_of x) (hash_of z) ≡ true = rw (← f, q) (text_eq_self (hash_of x)) in
    absurd (true_ne_false (sym r ∙ All-in (Differ hash_of z) p.0 i))
sole_row hash_of p (there i) (there j) h = sole_row hash_of p.1 i j h

pub All-from {ℓ κ} :
    {A : Type ℓ} (P : A → Type κ) (xs : List A) → ((x : A) → In x xs → P x) → All P xs
All-from P [] h = tt
All-from P (x ∷ xs) h = (h x (here refl), All-from P xs (λ y i. h y (there i)))

-- Every row of a hash is out of use.
abbrev pub IsRevoked : Text → AuthState → Type 0
IsRevoked h s =
    All (λ (t : RefreshToken). text_eq t.token_hash h ≡ true → is_null t.revoked_at ≡ false)
      s.refresh_tokens

abbrev pub AreUsed : Text → List OneTimeToken → Type 0
AreUsed h = All (λ (t : OneTimeToken). text_eq t.token_hash h ≡ true → is_null t.used_at ≡ false)

-- No token drawn in the history has the hash.
abbrev pub IsFresh : Runtime → Text → List (Moment × AuthCall) → Type 0
IsFresh rt h = All (λ (c : Moment × AuthCall). text_eq (rt.hash_token c.0.token) h ≡ false)

module _ (rt : Runtime) (h : Text) (m : Moment)
    (fresh : text_eq (rt.hash_token m.token) h ≡ false) where
  IsRevoked-Stable : Stable rt m (IsRevoked h)
  unfolding revoke
  IsRevoked-Stable = record {
    audit = λ s x p. p;
    accounts = λ s x p. p;
    attempts = λ s x p. p;
    recovery_attempts = λ s x p. p;
    codes = λ s x p. p;
    cases = λ s x p. p;
    revoked = λ s q reason p.
        All-map _ _ (λ x. if q x then revoke m.now reason x else x) s.refresh_tokens
          (λ x k. ground arith) p;
    issued = λ s t e f p. (λ g. absurd (true_ne_false (sym g ∙ rw e fresh)), p);
    reset_used = λ s q p. p;
    reset_renewed = λ s id at e p. p;
    activation_used = λ s q p. p;
    activation_renewed = λ s id at e p. p;
    challenge_used = λ s q p. p;
    challenge_renewed = λ s c e f p. p;
    impersonation_ended = λ s q p. p;
    impersonation_replaced = λ s i p. p;
  }

  pub use-AreUsed :
      (q : OneTimeToken → Bool) (xs : List OneTimeToken)
      → AreUsed h xs
      → AreUsed h (update_where q (use_token m.now) xs)
  use-AreUsed q xs =
      All-map _ _ (λ x. if q x then use_token m.now x else x) xs (λ x k. ground arith)

  pub renew-AreUsed :
      (id at : ℕ) (xs : List OneTimeToken)
      → AreUsed h xs
      → AreUsed h (new_token rt m id at ∷ use_tokens rt m id xs)
  renew-AreUsed id at xs p =
      (λ g. absurd (true_ne_false (sym g ∙ fresh)), use-AreUsed (is_unused id) xs p)

module _ (rt : Runtime) (token : Text) where
  -- A token that is out of use gets no session.
  pub refused :
      (m : Moment) (s : AuthState)
      → IsRevoked (rt.hash_token token) s
      → (refresh rt m token s).1 ≡ err (unauthorized "Invalid refresh token")
  unfolding refresh detect_reuse ◌>>◌ ◌>>=◌ and_then throw modify
  refused m s p = found-runs R _ _ _ s refl (λ t e. found-runs R _ _ _ s refl (λ a _.
      if-runs R (is_reused m.now t) _ _ s (λ _. refl)
        (λ _.
          if-runs R (not (is_null t.revoked_at)) _ _ s (λ _. refl)
            (λ n.
              let (i, q) = find_first-some (has_token rt m token) s.refresh_tokens e in
              let k = All-in _ p i q in absurd (ground arith)))))
    where
      R : AuthState × Result Session → Type 0
      R r = r.1 ≡ err (unauthorized "Invalid refresh token")

-- A test that a change does not touch counts the same rows after it.
any-update {ℓ} :
    {A : Type ℓ} (p q : A → Bool) (f : A → A) (xs : List A)
    → ((x : A) → p (f x) ≡ p x)
    → any p (update_where q f xs) ≡ any p xs
any-update p q f [] h = refl
any-update p q f (x ∷ xs) h = ground (arith, h x, any-update p q f xs h)

pub get_auth_policy-quiet :
    (rt : Runtime) (a : Account) (s : AuthState) → (get_auth_policy rt a s).0 ≡ s
unfolding get_auth_policy ◌>>=◌ and_then reads give
get_auth_policy-quiet rt a s =
    quiet (get_effective_policy rt.default_policy s.policies a.organization_id a.campaign_id)
  where
    quiet : (r : Result EffectivePolicy) → (and_then (s, r) (λ policy. give policy.settings)).0 ≡ s
    quiet (ok p) = refl
    quiet (err e) = refl

module _ (rt : Runtime) (token : Text) (m : Moment) where
  revoked :
      (reason : RevocationReason) (t : RefreshToken) (b : Bool) (x : RefreshToken)
      → (x.id == t.id) ≡ b
      → (text_eq x.token_hash (rt.hash_token token) ≡ true → x ≡ t)
      → text_eq (if b then revoke m.now reason x else x).token_hash (rt.hash_token token) ≡ true
      → is_null (if b then revoke m.now reason x else x).revoked_at ≡ false
  unfolding revoke
  revoked reason t true x e k g = refl
  revoked reason t false x e k g = absurd (true_ne_false (sym (beq_self t.id) ∙ rw (k g) at e))

  -- Once its row is revoked, and no other has its hash, a token is out of use.
  revoke_one-IsRevoked :
      (reason : RevocationReason) (s : AuthState) {t : RefreshToken}
      → Pairwise (Differ refresh_hash_of) s.refresh_tokens
      → In t s.refresh_tokens
      → text_eq t.token_hash (rt.hash_token token) ≡ true
      → IsRevoked (rt.hash_token token) (revoke_one m.now t.id reason s)
  unfolding revoke_one revoke
  revoke_one-IsRevoked reason s {t} d i h =
      All-map _ _ (λ x. if x.id == t.id then revoke m.now reason x else x) s.refresh_tokens
        (λ x k. revoked reason t (x.id == t.id) x refl k)
        (All-from _ s.refresh_tokens (λ x j g.
          sole_row refresh_hash_of d i j
            (rw (eq_of_text_eq t.token_hash (rt.hash_token token) h) g)))

  abbrev Refreshed : AuthState × Result Session → Type 0
  Refreshed = Ends (λ _. IsRevoked (rt.hash_token token)) (λ _. Unit {0})

  -- A token drawn anew that had the hash would be there already.
  taken :
      (s : AuthState) {t : RefreshToken}
      → In t s.refresh_tokens
      → text_eq t.token_hash (rt.hash_token token) ≡ true
      → text_eq (rt.hash_token m.token) (rt.hash_token token) ≡ true
      → any
          (has_hash refresh_hash_of (rt.hash_token m.token))
          (revoke_one m.now t.id RevocationReason.rotated s).refresh_tokens
        ≡ true
  unfolding revoke_one revoke
  taken s {t} i h k =
      any-update (has_hash refresh_hash_of (rt.hash_token m.token)) (λ x. x.id == t.id)
        (revoke m.now RevocationReason.rotated) s.refresh_tokens (λ x. refl)
      ∙ In-any (has_hash refresh_hash_of (rt.hash_token m.token)) s.refresh_tokens i
          (rw (eq_of_text_eq (rt.hash_token m.token) (rt.hash_token token) k) h)

  issue-IsRevoked :
      (a : Account) (s : AuthState)
      → IsRevoked (rt.hash_token token) s
      → (text_eq (rt.hash_token m.token) (rt.hash_token token) ≡ true
          → any (has_hash refresh_hash_of (rt.hash_token m.token)) s.refresh_tokens ≡ true)
      → Refreshed (issue_session rt m a none none s)
  unfolding issue_session insert_refresh_token
  issue-IsRevoked a s p taken =
      quiet-runs Refreshed (get_auth_policy rt a) _ s (get_auth_policy-quiet rt a s) (λ _. tt)
        (λ policy.
          stored-runs Refreshed with_refresh_tokens _ _ s (λ _ _. tt)
            (λ x e.
              let (f, g) = insert_unique-ok refresh_hash_of _ s.refresh_tokens e in
              give-runs Refreshed _ _ (rw g (λ k. absurd (true_ne_false (sym (taken k) ∙ f)), p))))

  rotate-IsRevoked :
      (s : AuthState) {t : RefreshToken} (a : Account)
      → Pairwise (Differ refresh_hash_of) s.refresh_tokens
      → In t s.refresh_tokens
      → text_eq t.token_hash (rt.hash_token token) ≡ true
      → Refreshed (rotate rt m t a s)
  unfolding rotate
  rotate-IsRevoked s {t} a d i h = modify-runs Refreshed _ _ s (
      modify-runs Refreshed _ _ _
        (issue-IsRevoked a _ (revoke_one-IsRevoked RevocationReason.rotated s d i h) (taken s i h)))

  refresh-IsRevoked :
      (s : AuthState)
      → IsOrderly s
      → Ends (λ _. IsRevoked (rt.hash_token token)) (λ _. Unit {0}) (refresh rt m token s)
  unfolding refresh detect_reuse ◌>>◌ ◌>>=◌ and_then throw modify
  refresh-IsRevoked s o = found-runs R _ _ _ s tt (λ t e. found-runs R _ _ _ s tt (λ a _.
      if-runs R (is_reused m.now t) _ _ s (λ _. tt)
        (λ _.
          if-runs R (not (is_null t.revoked_at)) _ _ s (λ _. tt)
            (λ _.
              if-runs R (leb t.expires_at m.now || not (is_usable a)) _ _ s (λ _. tt)
                (λ _.
                  let (i, q) = find_first-some (has_token rt m token) s.refresh_tokens e in
                  rotate-IsRevoked s a o.0 i q)))))
    where
      R : AuthState × Result Session → Type 0
      R = Ends (λ _. IsRevoked (rt.hash_token token)) (λ _. Unit {0})

pub Ends-ok {ℓ κ μ} :
    {S : Type ℓ} {A : Type κ} (Q : A → S → Type μ) (E : S → Type μ) (r : S × Result A) {a : A}
    → Ends Q E r
    → r.1 ≡ ok a
    → Q a r.0
Ends-ok Q E (s, ok b) h e = rw (← ok-injective e) h
Ends-ok Q E (s, err x) h e = cc

pub IsRevoked-run :
    (rt : Runtime) (h : Text) (calls : List (Moment × AuthCall)) (s : AuthState)
    → IsFresh rt h calls
    → IsRevoked h s
    → IsRevoked h (auth_run rt calls s)
unfolding auth_run
IsRevoked-run rt h [] s f p = p
IsRevoked-run rt h ((m, call) ∷ calls) s f p =
    IsRevoked-run rt h calls (auth_step rt m call s) f.1
      (auth_step-Keeps rt m (IsRevoked h) (IsRevoked-Stable rt h m f.0) call s p)

module _ (rt : Runtime) (token : Text) (m : Moment) (s : AuthState)
    (calls : List (Moment × AuthCall)) (m' : Moment) where
  -- From a state in order, a refresh token that has been exchanged for a session gets no second one:
  -- it is refused after every history of calls in which no token drawn has its hash.
  pub refresh-single_use :
      {session : Session}
      → IsOrderly s
      → (refresh rt m token s).1 ≡ ok session
      → IsFresh rt (rt.hash_token token) calls
      → (refresh rt m' token (auth_run rt calls (refresh rt m token s).0)).1
        ≡ err (unauthorized "Invalid refresh token")
  refresh-single_use o e f = refused rt token m' _ (
      IsRevoked-run rt (rt.hash_token token) calls _ f (
        Ends-ok (λ _. IsRevoked (rt.hash_token token)) (λ _. Unit {0}) (refresh rt m token s)
          (refresh-IsRevoked rt token m s o) e))
