-- ===== src/Auth/Orderly.antt =====
-- The invariant of the tables of tokens, challenges and impersonations.
use proactive.Base.{
  ℕ, ◌≡◌, refl, Bool, true, false, ◌&&◌, ◌==◌, List, [], ◌∷◌, Text, arith, is_null, text_eq,
  if◌then◌else◌, any, update_where, All, All-map, All-weaken, Pairwise, Pairwise-map,
  All-everywhere,
}
use proactive.Auth.Records.{AuthState, OneTimeToken, MfaChallenge, Impersonation}
use proactive.Auth.Runtime.{Runtime, Moment}
use proactive.Auth.Parts.{
  has_hash, token_hash_of, refresh_hash_of, challenge_hash_of, is_unused, use_token, use_challenge,
  is_open_challenge, end_challenges, same_purpose,
}
use proactive.Auth.Impersonate.{is_open_of, end_impersonation}
use proactive.Auth.Tokens.{revoke, use_tokens, new_token}
use proactive.Auth.Service.{AuthCall, auth_step, auth_run}
use proactive.Auth.Stable.{Stable}
use proactive.Auth.Stable.Calls.{auth_step-Keeps}

module _ {ℓ} {A : Type ℓ} where
  -- Two rows that no hash stands for together.
  abbrev pub Differ : (A → Text) → A → A → Type 0
  Differ hash_of a b = text_eq (hash_of b) (hash_of a) ≡ false

  pub any-All : (p : A → Bool) (xs : List A) → any p xs ≡ false → All (λ x. p x ≡ false) xs
  any-All p [] h = tt
  any-All p (x ∷ xs) h = (ground arith, any-All p xs (ground arith))

  -- A change that leaves the hashes leaves them apart.
  update-Differ :
      (hash_of : A → Text) (q : A → Bool) (f : A → A) (xs : List A)
      → ((x : A) → hash_of (f x) ≡ hash_of x)
      → Pairwise (Differ hash_of) xs
      → Pairwise (Differ hash_of) (update_where q f xs)
  update-Differ hash_of q f xs h =
      Pairwise-map (Differ hash_of) (λ x. if q x then f x else x) xs
        (λ x y d. rw (same (q x) x, same (q y) y) d)
    where
      same : (b : Bool) (x : A) → hash_of (if b then f x else x) ≡ hash_of x
      same true x = h x
      same false x = refl

-- Two rows that are not both open for one account (and purpose).
abbrev pub IsSoleToken : OneTimeToken → OneTimeToken → Type 0
IsSoleToken a b = (is_unused a.user_id b && is_null a.used_at) ≡ false

abbrev pub IsSoleChallenge : MfaChallenge → MfaChallenge → Type 0
IsSoleChallenge a b =
    (a.user_id == b.user_id
      && same_purpose a.purpose b.purpose
      && is_null a.used_at
      && is_null b.used_at)
    ≡ false

abbrev pub IsSoleImpersonation : Impersonation → Impersonation → Type 0
IsSoleImpersonation a b = (is_open_of a.actor_user_id b && is_null a.ended_at) ≡ false

abbrev pub IsOrderlyTokens : List OneTimeToken → Type 0
IsOrderlyTokens xs = Pairwise (Differ token_hash_of) xs × Pairwise IsSoleToken xs

-- No token's hash stands for two rows; an account has at most one open reset, one open activation
-- and one open challenge of each purpose, and an actor at most one open impersonation.
abbrev pub IsOrderly : AuthState → Type 0
IsOrderly s =
    Pairwise (Differ refresh_hash_of) s.refresh_tokens
    × IsOrderlyTokens s.reset_tokens
    × IsOrderlyTokens s.activation_tokens
    × (Pairwise (Differ challenge_hash_of) s.challenges × Pairwise IsSoleChallenge s.challenges)
    × Pairwise IsSoleImpersonation s.impersonations

module _ (rt : Runtime) (m : Moment) where
  use-IsSoleToken :
      (q : OneTimeToken → Bool) (xs : List OneTimeToken)
      → Pairwise IsSoleToken xs
      → Pairwise IsSoleToken (update_where q (use_token m.now) xs)
  use-IsSoleToken q xs =
      Pairwise-map IsSoleToken (λ x. if q x then use_token m.now x else x) xs
        (λ a b h. ground arith)

  use_tokens-none :
      (id : ℕ) (xs : List OneTimeToken) → All (λ x. is_unused id x ≡ false) (use_tokens rt m id xs)
  use_tokens-none id xs =
      All-map (λ _. Unit {0}) (λ x. is_unused id x ≡ false)
        (λ x. if is_unused id x then use_token m.now x else x) xs (λ x _. ground arith)
        (All-everywhere (λ _. Unit {0}) xs (λ x. tt))

  renew-IsSoleToken :
      (id at : ℕ) (xs : List OneTimeToken)
      → Pairwise IsSoleToken xs
      → Pairwise IsSoleToken (new_token rt m id at ∷ use_tokens rt m id xs)
  renew-IsSoleToken id at xs h = (
    All-weaken _ _ (use_tokens rt m id xs) (λ x e. ground arith) (use_tokens-none id xs),
    use-IsSoleToken (is_unused id) xs h,
  )

  use-IsSoleChallenge :
      (q : MfaChallenge → Bool) (xs : List MfaChallenge)
      → Pairwise IsSoleChallenge xs
      → Pairwise IsSoleChallenge (update_where q (use_challenge rt m) xs)
  use-IsSoleChallenge q xs =
      Pairwise-map IsSoleChallenge (λ x. if q x then use_challenge rt m x else x) xs
        (λ a b h. ground arith)

  renew-IsSoleChallenge :
      (c : MfaChallenge) (xs : List MfaChallenge)
      → Pairwise IsSoleChallenge xs
      → Pairwise IsSoleChallenge (c ∷ end_challenges rt m c.user_id c.purpose xs)
  renew-IsSoleChallenge c xs h = (
    All-map (λ _. Unit {0}) (IsSoleChallenge c)
        (λ x. if is_open_challenge rt m c.user_id c.purpose x then use_challenge rt m x else x) xs
        (λ x _. ground arith) (All-everywhere (λ _. Unit {0}) xs (λ x. tt)),
    use-IsSoleChallenge (is_open_challenge rt m c.user_id c.purpose) xs h,
  )

  end-IsSoleImpersonation :
      (q : Impersonation → Bool) (xs : List Impersonation)
      → Pairwise IsSoleImpersonation xs
      → Pairwise IsSoleImpersonation (update_where q (end_impersonation rt m) xs)
  end-IsSoleImpersonation q xs =
      Pairwise-map IsSoleImpersonation (λ x. if q x then end_impersonation rt m x else x) xs
        (λ a b h. ground arith)

  replace-IsSoleImpersonation :
      (i : Impersonation) (xs : List Impersonation)
      → Pairwise IsSoleImpersonation xs
      → Pairwise IsSoleImpersonation
          (i ∷ update_where (is_open_of i.actor_user_id) (end_impersonation rt m) xs)
  replace-IsSoleImpersonation i xs h = (
    All-map (λ _. Unit {0}) (IsSoleImpersonation i)
        (λ x. if is_open_of i.actor_user_id x then end_impersonation rt m x else x) xs
        (λ x _. ground arith) (All-everywhere (λ _. Unit {0}) xs (λ x. tt)),
    end-IsSoleImpersonation (is_open_of i.actor_user_id) xs h,
  )

  use-IsOrderlyTokens :
      (q : OneTimeToken → Bool) (xs : List OneTimeToken)
      → IsOrderlyTokens xs
      → IsOrderlyTokens (update_where q (use_token m.now) xs)
  use-IsOrderlyTokens q xs (d, h) =
      (update-Differ token_hash_of q (use_token m.now) xs (λ x. refl) d, use-IsSoleToken q xs h)

  renew-IsOrderlyTokens :
      (id at : ℕ) (xs : List OneTimeToken)
      → any (has_hash token_hash_of (rt.hash_token m.token)) (use_tokens rt m id xs) ≡ false
      → IsOrderlyTokens xs
      → IsOrderlyTokens (new_token rt m id at ∷ use_tokens rt m id xs)
  renew-IsOrderlyTokens id at xs e h = (
    (any-All _ (use_tokens rt m id xs) e, (use-IsOrderlyTokens (is_unused id) xs h).0),
    renew-IsSoleToken id at xs h.1,
  )

  pub IsOrderly-Stable : Stable rt m IsOrderly
  unfolding revoke
  IsOrderly-Stable = record {
    audit = λ s x p. p;
    accounts = λ s x p. p;
    attempts = λ s x p. p;
    recovery_attempts = λ s x p. p;
    codes = λ s x p. p;
    cases = λ s x p. p;
    revoked = λ s q reason (a, b, c, d, e). (
      update-Differ refresh_hash_of q (revoke m.now reason) s.refresh_tokens (λ x. refl) a,
      b,
      c,
      d,
      e,
    );
    issued = λ s t h f (a, b, c, d, e). ((any-All _ s.refresh_tokens f, a), b, c, d, e);
    reset_used = λ s q (a, b, c, d, e). (a, use-IsOrderlyTokens q s.reset_tokens b, c, d, e);
    reset_renewed =
        λ s id at f (a, b, c, d, e). (a, renew-IsOrderlyTokens id at s.reset_tokens f b, c, d, e);
    activation_used =
        λ s q (a, b, c, d, e). (a, b, use-IsOrderlyTokens q s.activation_tokens c, d, e);
    activation_renewed = λ s id at f (a, b, c, d, e).
        (a, b, renew-IsOrderlyTokens id at s.activation_tokens f c, d, e);
    challenge_used = λ s q (a, b, c, (d, e), g). (
      a,
      b,
      c,
      (
        update-Differ challenge_hash_of q (use_challenge rt m) s.challenges (λ x. refl) d,
        use-IsSoleChallenge q s.challenges e,
      ),
      g,
    );
    challenge_renewed = λ s t h f (a, b, c, (d, e), g). (
      a,
      b,
      c,
      (
        (
          any-All _ (end_challenges rt m t.user_id t.purpose s.challenges) f,
          update-Differ challenge_hash_of _ (use_challenge rt m) s.challenges (λ x. refl) d,
        ),
        renew-IsSoleChallenge t s.challenges e,
      ),
      g,
    );
    impersonation_ended =
        λ s q (a, b, c, d, e). (a, b, c, d, end-IsSoleImpersonation q s.impersonations e);
    impersonation_replaced =
        λ s i (a, b, c, d, e). (a, b, c, d, replace-IsSoleImpersonation i s.impersonations e);
  }

-- Every history of calls of the auth, recovery and user services keeps the tables of tokens in
-- order: no hash stands for two rows, and an account has at most one open reset, one open activation
-- and one open challenge of each purpose, an admin at most one open impersonation.
pub auth_run-IsOrderly :
    (rt : Runtime) (calls : List (Moment × AuthCall)) (s : AuthState)
    → IsOrderly s
    → IsOrderly (auth_run rt calls s)
unfolding auth_run
auth_run-IsOrderly rt [] s h = h
auth_run-IsOrderly rt ((m, call) ∷ calls) s h =
    auth_run-IsOrderly rt calls (auth_step rt m call s)
      (auth_step-Keeps rt m IsOrderly (IsOrderly-Stable rt m) call s h)
