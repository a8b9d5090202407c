-- ===== src/Auth/Stable/Recoveries.antt =====
-- The calls of backend/src/recovery/recovery.service.ts hand on a property that bears their writes.
use proactive.Base.{
  ℕ, ◌≡◌, Bool, true, false, Option, List, [], ◌∷◌, Text, ok, ◌+◌, ◌*◌, subst, ok-injective,
  map_ok-eq-ok,
}
use proactive.Action.Keeps.{
  Keeps, bind-Keeps, then-Keeps, give-Keeps, throw-Keeps, gets-Keeps, reads-Keeps, expect-Keeps,
  throw_if-Keeps, throw_unless-Keeps, modify-Keeps, writes-Keeps, stores-Keeps, if-Keeps,
}
use proactive.Action.{modify, writes}
use proactive.Auth.Records.{Account, AuthState, RecoveryCase, RecoveryType}
use proactive.Auth.Runtime.{Runtime, Moment}
use proactive.Auth.Parts.{token_hash_of, insert_unique}
use proactive.Auth.Tokens.{store_reset_token, with_reset_tokens, new_token, use_tokens, revoke_all}
use proactive.Auth.Recover.{
  set_case, create_case, expire_each, expire_stale, list_cases, check_path, request, reject,
  needs_password_reset,
}
use proactive.Auth.Recover.Approve.{
  strip_account, give_reset_token, close_case, execute, deliver_notification, finish_approval,
  approve,
}
use proactive.Auth.Stable.{Stable}
use proactive.Auth.Stable.Writes.{
  insert_unique-ok, log-Keeps, account-Keeps, get_auth_policy-Keeps, mark-Keeps, limit-Keeps,
  recovery_limit-Keeps, clear-Keeps, issue_session-Keeps, replace_backup_codes-Keeps,
  consume_backup_code-Keeps, consume_mfa_challenge-Keeps, replace_impersonation-Keeps,
  renew_reset_token-Keeps, renew_activation_token-Keeps, create_mfa_challenge-Keeps,
}

pub ruleset chains = (
  bind-Keeps, then-Keeps, give-Keeps, throw-Keeps, gets-Keeps, reads-Keeps, expect-Keeps,
  throw_if-Keeps, throw_unless-Keeps, if-Keeps,
)

pub ruleset parts = (
  log-Keeps, account-Keeps, get_auth_policy-Keeps, mark-Keeps, limit-Keeps, recovery_limit-Keeps,
  clear-Keeps, issue_session-Keeps, replace_backup_codes-Keeps, consume_backup_code-Keeps,
  consume_mfa_challenge-Keeps, replace_impersonation-Keeps, renew_reset_token-Keeps,
  renew_activation_token-Keeps, create_mfa_challenge-Keeps,
)

module _ {ℓ} (rt : Runtime) (m : Moment) (P : AuthState → Type ℓ) (st : Stable rt m P) where
  set_case-Keeps : (id : ℕ) (f : RecoveryCase → RecoveryCase) → Keeps P (modify (set_case id f))
  set_case-Keeps id f = modify-Keeps P _ (λ s. st.cases s _)

  expire_each-Keeps : (o : ℕ) (cs : List RecoveryCase) → Keeps P (expire_each o cs)
  unfolding expire_each
  expire_each-Keeps o [] = give-Keeps P _
  expire_each-Keeps o (c ∷ cs) =
      then-Keeps P _ _ (set_case-Keeps c.id _)
        (then-Keeps P _ _ (log-Keeps rt m P st _) (expire_each-Keeps o cs))

  expire_stale-Keeps : (o : ℕ) → Keeps P (expire_stale rt m o)
  unfolding expire_stale
  expire_stale-Keeps o = search (chains, parts, expire_each-Keeps) depth 24 fits 3000

  pub list_cases-Keeps : (actor : ℕ) → Keeps P (list_cases rt m actor)
  unfolding list_cases
  list_cases-Keeps actor = search (chains, parts, expire_stale-Keeps) depth 24 fits 3000

  check_path-Keeps : (type : RecoveryType) (a : Account) → Keeps P (check_path rt m type a)
  unfolding check_path
  check_path-Keeps type a = search (chains, parts) depth 24 fits 3000

  create_case-Keeps : (c : RecoveryCase) → Keeps P (create_case rt m c)
  unfolding create_case
  create_case-Keeps c = modify-Keeps P _ (λ s. st.cases s _)

  pub request-Keeps :
      (actor : ℕ) (target : ℕ) (type : RecoveryType) (reason : Option Text)
      → Keeps P (request rt m actor target type reason)
  unfolding request
  request-Keeps actor target type reason =
      search (chains, parts, check_path-Keeps, create_case-Keeps) depth 24 fits 3000

  pub reject-Keeps :
      (actor : ℕ) (id : ℕ) (reason : Option Text) → Keeps P (reject rt m actor id reason)
  unfolding reject
  reject-Keeps actor id reason = search (chains, parts, set_case-Keeps) depth 24 fits 3000

  -- What `approve` takes from the account, but for the reset tokens.
  others-Keeps :
      (id : ℕ) (s : AuthState)
      → P s
      → P (record (strip_account rt m id s) { reset_tokens = s.reset_tokens })
  unfolding strip_account revoke_all
  others-Keeps id s p = st.revoked _ _ _ (
      st.impersonation_ended _ _
        (st.codes _ _ (st.challenge_used _ _ (st.activation_used _ _ (st.accounts s _ p)))))

  given-Keeps :
      (b : Bool) (id ttl : ℕ) (s s' : AuthState)
      → give_reset_token rt m b id ttl (strip_account rt m id s) ≡ ok s'
      → P s
      → P s'
  unfolding give_reset_token store_reset_token strip_account revoke_all
  given-Keeps false id ttl s s' e p =
      subst P (ok-injective e) (st.reset_used _ _ (others-Keeps id s p))
  given-Keeps true id ttl s s' e p =
      let (x, d, f) =
        map_ok-eq-ok (with_reset_tokens rt m (strip_account rt m id s))
          (insert_unique token_hash_of (new_token rt m id (m.now + ttl * 60_000))
            (use_tokens rt m id s.reset_tokens))
          e in
      let (q, r) = insert_unique-ok token_hash_of _ _ d in
      rw (← f, r) (st.reset_renewed _ id _ q (others-Keeps id s p))

  execute-Keeps :
      (actor : ℕ) (reason : Text) (ttl : ℕ) (c : RecoveryCase)
      → Keeps P (writes (execute rt m actor reason ttl c))
  unfolding execute close_case
  execute-Keeps actor reason ttl c = writes-Keeps P _ (λ s s' e p.
      let (x, d, f) =
        map_ok-eq-ok (close_case rt m actor reason c)
          (give_reset_token rt m (needs_password_reset c.type) c.target_user_id ttl
            (strip_account rt m c.target_user_id s))
          e in
      rw (← f) (st.audit _ _ (st.cases x _ (given-Keeps _ c.target_user_id ttl s x d p))))

  deliver_notification-Keeps : (c : RecoveryCase) → Keeps P (deliver_notification rt m c)
  unfolding deliver_notification
  deliver_notification-Keeps c = search (chains, parts, set_case-Keeps)

  finish_approval-Keeps :
      (c : RecoveryCase) (r : Text) (actor : ℕ) → Keeps P (finish_approval rt m c r actor)
  unfolding finish_approval
  finish_approval-Keeps c r actor =
      search (chains, parts, execute-Keeps, deliver_notification-Keeps) depth 24 fits 3000

  pub approve-Keeps :
      (actor : ℕ) (id : ℕ) (reason : Option Text) → Keeps P (approve rt m actor id reason)
  unfolding approve
  approve-Keeps actor id reason = search (chains, parts, finish_approval-Keeps) depth 24 fits 3000
  -- So does every step.
