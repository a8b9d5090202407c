-- ===== src/Auth/Entry.antt =====
-- Signing in with a password: who gets a session, and how an account is locked.
use proactive.Base.{
  ◌+◌, ◌≤◌, ◌≡◌, refl, ◌∙◌, Bool, true, false, Option, none, some, List, [], ◌∷◌, Text, trim,
  beq_self, arith, is_null, if◌then◌else◌, update_where, find_first, Result, ok, err, map_ok_err,
}
use proactive.Policies.{EffectivePolicy, get_effective_policy}
use proactive.Action.Ends.{
  gets-runs, throw-runs, modify-runs, if-runs, stored-runs, bind-runs, known-runs,
}
use proactive.Action.{reads, give, ◌>>=◌, and_then}
use proactive.Auth.Records.{Account, Attempt, AuthState}
use proactive.Auth.Runtime.{Runtime, Moment}
use proactive.Auth.Limits.{assert_within_rate_limit, with_login_attempts}
use proactive.Auth.Users.{has_email, has_id, undeleted, find_by_email}
use proactive.Auth.Parts.{get_auth_policy}
use proactive.Auth.Login.{
  is_usable, is_locked, check_account, check_password, refuse_login, refuse_password,
  failed_account, lock_until, validate_user, login,
}

abbrev pub normalized_email : Runtime → Text → Text
normalized_email rt email = rt.to_lower_case (trim email)

-- A call that is refused and leaves the accounts as they were.
abbrev pub IsRefused {ℓ} : {A : Type ℓ} → List Account → AuthState × Result A → Type 0
IsRefused accounts (s, ok a) = ⊥
IsRefused accounts (s, err e) = s.accounts ≡ accounts

-- The rows that a change leaves in sight of a search.
find_first-update {ℓ} :
    {A : Type ℓ} (p q : A → Bool) (f : A → A) (xs : List A) {x : A}
    → ((y : A) → p (f y) ≡ p y)
    → find_first p xs ≡ some x
    → find_first p (update_where q f xs) ≡ some (if q x then f x else x)
find_first-update p q f [] h e = absurd (ground arith)
find_first-update p q f (y ∷ ys) {x} h e = ground (arith, h y, find_first-update p q f ys {x = x} h)

undeleted-some : (o : Option Account) {a : Account} → undeleted o ≡ some a → o ≡ some a
undeleted-some none h = absurd (ground arith)
undeleted-some (some a) h = ground arith

undeleted-is_null :
    (o : Option Account) {a : Account} → undeleted o ≡ some a → is_null a.deleted_at ≡ true
undeleted-is_null none h = absurd (ground arith)
undeleted-is_null (some a) h = ground arith

module _ (rt : Runtime) (m : Moment) (email password : Text) (s : AuthState) where
  refuse_login-IsRefused :
      (t : AuthState) → t.accounts ≡ s.accounts → IsRefused s.accounts (refuse_login rt m email t)
  unfolding refuse_login
  refuse_login-IsRefused t h =
      modify-runs (IsRefused s.accounts) _ _ t (throw-runs (IsRefused s.accounts) _ _ h)

module _ (rt : Runtime) (m : Moment) (email password : Text) (s : AuthState) {a : Account}
    (e : find_by_email rt (normalized_email rt email) s ≡ some a) (u : is_usable a ≡ false) where
  not_usable :
      (x : List Attempt)
      → IsRefused s.accounts (
          check_account rt m
            (normalized_email rt email)
            password
            (some a)
            (with_login_attempts rt s x))
  unfolding check_account
  not_usable x =
      if-runs (IsRefused s.accounts) (is_usable a) _ _ _ (λ t. absurd (ground arith))
        (λ _. refuse_login-IsRefused rt m (normalized_email rt email) password s _ refl)

  -- An account that is not active is refused, whatever the password.
  validate-IsRefused : IsRefused s.accounts (validate_user rt m email password s)
  unfolding validate_user assert_within_rate_limit find_by_email
  validate-IsRefused =
      stored-runs (IsRefused s.accounts) (with_login_attempts rt) _ _ s (λ _ _. refl)
        (λ x _. gets-runs (IsRefused s.accounts) _ _ _ (rw e (not_usable x)))

  login-IsRefused : IsRefused s.accounts (login rt m email password s)
  unfolding login
  login-IsRefused =
      bind-runs (IsRefused s.accounts) (validate_user rt m email password) _ s
        (λ t x q. rw q at validate-IsRefused) (λ t b q. absurd (rw q at validate-IsRefused))

-- The state after a series of tries to sign in with an address.
unfoldable pub tries : Runtime → Text → List (Moment × Text) → AuthState → AuthState
unfolding login
tries rt email [] s = s
tries rt email ((m, password) ∷ rest) s = tries rt email rest (login rt m email password s).0

IsRefused-accounts {ℓ} :
    {A : Type ℓ} (accounts : List Account) (r : AuthState × Result A)
    → IsRefused accounts r
    → r.0.accounts ≡ accounts
IsRefused-accounts accounts (s, ok a) h = absurd h
IsRefused-accounts accounts (s, err e) h = h

find_by_email-accounts :
    (rt : Runtime) (email : Text) (s t : AuthState)
    → t.accounts ≡ s.accounts
    → find_by_email rt email t ≡ find_by_email rt email s
unfolding find_by_email
find_by_email-accounts rt email s t h = rw h

tries-kept :
    (rt : Runtime) (email : Text) (ts : List (Moment × Text)) (s : AuthState) {a : Account}
    → find_by_email rt (normalized_email rt email) s ≡ some a
    → is_usable a ≡ false
    → find_by_email rt (normalized_email rt email) (tries rt email ts s) ≡ some a
unfolding tries
tries-kept rt email [] s e u = e
tries-kept rt email ((m, p) ∷ ts) s e u =
    tries-kept rt email ts (login rt m email p s).0
      (find_by_email-accounts rt (normalized_email rt email) s (login rt m email p s).0 (
          IsRefused-accounts s.accounts (login rt m email p s) (login-IsRefused rt m email p s e u))
        ∙ e)
      u

get_auth_policy-known :
    (rt : Runtime) (a : Account) (s : AuthState) {policy : EffectivePolicy}
    → get_effective_policy rt.default_policy s.policies a.organization_id a.campaign_id ≡ ok policy
    → get_auth_policy rt a s ≡ (s, ok policy.settings)
unfolding get_auth_policy ◌>>=◌ and_then reads give
get_auth_policy-known rt a s p = rw p

-- A wrong password that reaches the threshold locks the account.
module _ (rt : Runtime) (m : Moment) (email wrong : Text) (s : AuthState) {a : Account}
    {s1 : AuthState} {policy : EffectivePolicy}
    (e : find_by_email rt (normalized_email rt email) s ≡ some a) (u : is_usable a ≡ true)
    (l : is_locked m.now a.locked_until ≡ false)
    (c : rt.compare_password wrong a.password_hash ≡ false)
    (p : get_effective_policy rt.default_policy s.policies a.organization_id a.campaign_id
      ≡ ok policy)
    (t : policy.settings.login_lockout_threshold ≤ a.failed_login_attempts + 1)
    (w : assert_within_rate_limit rt m.now "login" (normalized_email rt email) s ≡ ok s1) where
  -- The columns of the account after the wrong password.
  abbrev changed : Account → Account
  changed =
      failed_account rt m (a.failed_login_attempts + 1)
        (lock_until rt m policy.settings (a.failed_login_attempts + 1))

  abbrev after_wrong : List Account
  after_wrong = update_where (has_id a.id) changed s.accounts

  abbrev Locks {ℓ} : {A : Type ℓ} → AuthState × Result A → Type 0
  Locks = IsRefused after_wrong

  refuse_password-Locks :
      (x : List Attempt) → Locks (refuse_password rt m a (with_login_attempts rt s x))
  unfolding refuse_password
  refuse_password-Locks x =
      known-runs Locks (get_auth_policy rt a) _ _
        (get_auth_policy-known rt a (with_login_attempts rt s x) p)
        (modify-runs Locks _ _ _ (modify-runs Locks _ _ _ (throw-runs Locks _ _ refl)))

  validate-Locks : Locks (validate_user rt m email wrong s)
  unfolding validate_user assert_within_rate_limit find_by_email check_account check_password
  validate-Locks =
      stored-runs Locks (with_login_attempts rt) _ _ s
        (λ f q. absurd (map_ok_err (with_login_attempts rt s) _ q w))
        (λ x _. gets-runs Locks _ _ _ (
          rw e (
            if-runs Locks (is_usable a) _ _ _
              (λ _.
                if-runs Locks (is_locked m.now a.locked_until) _ _ _ (λ k. absurd (ground arith))
                  (λ _.
                    if-runs Locks (rt.compare_password wrong a.password_hash) _ _ _
                      (λ k. absurd (ground arith)) (λ _. refuse_password-Locks x)))
              (λ k. absurd (ground arith)))))

  login-Locks : Locks (login rt m email wrong s)
  unfolding login
  login-Locks =
      bind-runs Locks (validate_user rt m email wrong) _ s (λ t x q. rw q at validate-Locks)
        (λ t b q. absurd (rw q at validate-Locks))

  locked_account :
      (b : Account) × (find_by_email rt (normalized_email rt email) (login rt m email wrong s).0
        ≡ some b)
      × (is_usable b ≡ false)
  unfolding find_by_email failed_account
  locked_account =
      let found_row = undeleted-some (find_first (has_email address) s.accounts) e in
      let kept =
        find_first-update (has_email address) (has_id a.id) changed s.accounts (λ y. refl)
          found_row in
      let accounts_are = IsRefused-accounts after_wrong (login rt m email wrong s) login-Locks in
      (
        changed a,
        rw (accounts_are, kept, beq_self a.id, undeleted-is_null (find_first _ s.accounts) e) refl,
        ground arith,
      )
    where
      address : Text
      address = rt.to_lower_case (trim (normalized_email rt email))

-- Once a wrong password has reached the threshold of the policy, no series of tries to sign in with
-- the address gets in any more, whatever their passwords and however late they come.
pub lockout-permanent :
    (rt : Runtime) (m : Moment) (email wrong : Text) (s : AuthState) {a : Account} {s1 : AuthState}
    {policy : EffectivePolicy} (ts : List (Moment × Text)) (m' : Moment) (password : Text)
    → find_by_email rt (normalized_email rt email) s ≡ some a
    → is_usable a ≡ true
    → is_locked m.now a.locked_until ≡ false
    → rt.compare_password wrong a.password_hash ≡ false
    → get_effective_policy rt.default_policy s.policies a.organization_id a.campaign_id ≡ ok policy
    → policy.settings.login_lockout_threshold ≤ a.failed_login_attempts + 1
    → assert_within_rate_limit rt m.now "login" (normalized_email rt email) s ≡ ok s1
    → let after = tries rt email ts (login rt m email wrong s).0 in
      IsRefused after.accounts (login rt m' email password after)
lockout-permanent rt m email wrong s ts m' password e u l c p t w =
    let (b, q, v) = locked_account rt m email wrong s e u l c p t w in
    login-IsRefused rt m' email password (tries rt email ts (login rt m email wrong s).0)
      (tries-kept rt email ts (login rt m email wrong s).0 q v) v
