-- ===== src/Auth/Stable/Writes.antt =====
-- The private methods of the auth service hand on a property that bears their writes.
use proactive.Base.{
  ℕ, ◌≡◌, refl, false, Bool-cases, inl, inr, Option, none, some, List, ◌∷◌, Text, String, ok, arith,
  any,
}
use proactive.Store.{Team}
use proactive.Action.Keeps.{
  Keeps, bind-Keeps, then-Keeps, give-Keeps, gets-Keeps, reads-Keeps, modify-Keeps, stored-Keeps,
  modify-Leads, bind-Leads, stored-Leads, then-Leads,
}
use proactive.Action.{modify, writes, ◌>>=◌, ◌>>◌, and_then}
use proactive.Auth.Records.{
  Account, AuthState, AuditEntry, RefreshToken, MfaBackupCode, MfaChallengePurpose, Impersonation,
}
use proactive.Auth.Runtime.{Runtime, Moment}
use proactive.Auth.Limits.{
  assert_within_rate_limit, clear_rate_limit, recovery_rate_limit, with_login_attempts,
  with_recovery_attempts,
}
use proactive.Auth.Parts.{
  log, set_account, get_auth_policy, has_hash, token_hash_of, refresh_hash_of, challenge_hash_of,
  insert_unique, insert_refresh_token, insert_challenge, with_refresh_tokens, with_challenges,
  issue_session, mark_interactive_login_complete, replace_backup_codes, consume_backup_code,
  use_code, end_challenges, create_mfa_challenge, consume_mfa_challenge,
}
use proactive.Auth.Impersonate.{replace_impersonation}
use proactive.Auth.Tokens.{
  use_tokens, new_token, with_reset_tokens, with_activation_tokens, store_reset_token,
  store_activation_token, renew_reset_token, renew_activation_token,
}
use proactive.Auth.Stable.{Stable}

-- A row that is stored stands before the others, and no other has its hash.
pub insert_unique-ok {ℓ} :
    {A : Type ℓ} (hash_of : A → Text) (t : A) (rows : List A) {x : List A}
    → insert_unique hash_of t rows ≡ ok x
    → (any (has_hash hash_of (hash_of t)) rows ≡ false) × (x ≡ t ∷ rows)
unfolding insert_unique
insert_unique-ok hash_of t rows e = elim (Bool-cases (any (has_hash hash_of (hash_of t)) rows)) [
  | inl d ↦ absurd (ground arith)
  | inr d ↦ (d, ground arith)
]

pub get_auth_policy-Keeps {ℓ} :
    (rt : Runtime) (P : AuthState → Type ℓ) (a : Account) → Keeps P (get_auth_policy rt a)
unfolding get_auth_policy
get_auth_policy-Keeps rt P a = search (bind-Keeps, give-Keeps, reads-Keeps)

-- The state after a write, told by the state before it.
abbrev pub Image {ℓ} : (AuthState → Type ℓ) → (AuthState → AuthState) → AuthState → Type ℓ
Image P f s' = (s : AuthState) × P s × (s' ≡ f s)

module _ {ℓ} (rt : Runtime) (m : Moment) (P : AuthState → Type ℓ) (st : Stable rt m P) where
  pub log-Keeps : (entry : AuditEntry) → Keeps P (log entry)
  log-Keeps entry = modify-Keeps P _ (λ s. st.audit s (entry ∷ s.audit_logs))

  pub account-Keeps : (id : ℕ) (f : Account → Account) → Keeps P (modify (set_account id f))
  account-Keeps id f = modify-Keeps P _ (λ s. st.accounts s _)

  pub mark-Keeps : (id : ℕ) → Keeps P (mark_interactive_login_complete rt m id)
  unfolding mark_interactive_login_complete
  mark-Keeps id = account-Keeps id _

  pub limit-Keeps :
      (action : String) (key : Text)
      → Keeps P (writes (assert_within_rate_limit rt m.now action key))
  unfolding assert_within_rate_limit
  limit-Keeps action key = stored-Keeps P (with_login_attempts rt) _ (λ s x e. st.attempts s x)

  pub recovery_limit-Keeps : (key : Text) → Keeps P (writes (recovery_rate_limit rt m.now key))
  unfolding recovery_rate_limit
  recovery_limit-Keeps key =
      stored-Keeps P (with_recovery_attempts rt) _ (λ s x e. st.recovery_attempts s x)

  pub clear-Keeps :
      (action : String) (key : Text) → Keeps P (modify (clear_rate_limit rt action key))
  unfolding clear_rate_limit
  clear-Keeps action key = modify-Keeps P _ (λ s. st.attempts s _)

  issued-Keeps :
      (t : RefreshToken)
      → t.token_hash ≡ rt.hash_token m.token
      → Keeps P (writes (insert_refresh_token t))
  unfolding insert_refresh_token
  issued-Keeps t h = stored-Keeps P with_refresh_tokens _ (λ s x e p.
      let (d, q) = insert_unique-ok refresh_hash_of t s.refresh_tokens e in
      rw q (st.issued s t h d p))

  pub issue_session-Keeps :
      (a : Account) (team : Option Team) (at : Option ℕ) → Keeps P (issue_session rt m a team at)
  unfolding issue_session
  issue_session-Keeps a team at =
      bind-Keeps P _ _ (get_auth_policy-Keeps rt P a)
        (λ policy. then-Keeps P _ _ (issued-Keeps _ refl) (give-Keeps P _))

  pub replace_backup_codes-Keeps : (a : Account) → Keeps P (replace_backup_codes rt m a)
  unfolding replace_backup_codes
  replace_backup_codes-Keeps a =
      bind-Keeps P _ _ (get_auth_policy-Keeps rt P a)
        (λ policy. then-Keeps P _ _ (modify-Keeps P _ (λ s. st.codes s _)) (give-Keeps P _))

  use_code-Keeps : (o : Option MfaBackupCode) → Keeps P (use_code rt m o)
  unfolding use_code
  use_code-Keeps none = give-Keeps P _
  use_code-Keeps (some c) = then-Keeps P _ _ (modify-Keeps P _ (λ s. st.codes s _)) (give-Keeps P _)

  pub consume_backup_code-Keeps :
      (id : ℕ) (code : Text) → Keeps P (consume_backup_code rt m id code)
  unfolding consume_backup_code
  consume_backup_code-Keeps id code = search (bind-Keeps, gets-Keeps, use_code-Keeps)

  pub consume_mfa_challenge-Keeps : (id : ℕ) → Keeps P (consume_mfa_challenge rt m id)
  unfolding consume_mfa_challenge
  consume_mfa_challenge-Keeps id = modify-Keeps P _ (λ s. st.challenge_used s _)

  pub replace_impersonation-Keeps : (i : Impersonation) → Keeps P (replace_impersonation rt m i)
  unfolding replace_impersonation Keeps ◌>>◌ ◌>>=◌ and_then modify
  replace_impersonation-Keeps i s p = st.impersonation_replaced s i p

  pub renew_reset_token-Keeps : (id at : ℕ) → Keeps P (renew_reset_token rt m id at)
  unfolding renew_reset_token store_reset_token
  renew_reset_token-Keeps id at =
      modify-Leads (Image P end) P end _ (λ s p. (s, p, refl))
        (stored-Leads (Image P end) P (with_reset_tokens rt m) _
          (λ s' (s, p, e). rw e (st.reset_used s _ p))
          (λ s' x d (s, p, e).
            let (q, r) = insert_unique-ok token_hash_of (new_token rt m id at) s'.reset_tokens d in
            rw (r, e) (st.reset_renewed s id at (rw e at q) p)))
    where
      end : AuthState → AuthState
      end s = record s { reset_tokens = use_tokens rt m id s.reset_tokens }

  pub renew_activation_token-Keeps :
      (id : ℕ) (a : Account) → Keeps P (renew_activation_token rt m id a)
  unfolding renew_activation_token store_activation_token
  renew_activation_token-Keeps id a =
      modify-Leads (Image P end) P end _ (λ s p. (s, p, refl))
        (bind-Leads (Image P end) P _ _ weaken (get_auth_policy-Keeps rt (Image P end) a) (λ policy.
          then-Leads (Image P end) P _ _
            (stored-Leads (Image P end) P (with_activation_tokens rt m) _ weaken
              (λ s' x d (s, p, e).
                let (q, r) =
                  insert_unique-ok token_hash_of (new_token rt m id _) s'.activation_tokens d in
                rw (r, e) (st.activation_renewed s id _ (rw e at q) p)))
            (give-Keeps P _)))
    where
      end : AuthState → AuthState
      end s = record s { activation_tokens = use_tokens rt m id s.activation_tokens }

      weaken : (s : AuthState) → Image P end s → P s
      weaken s' (s, p, e) = rw e (st.activation_used s _ p)

  pub create_mfa_challenge-Keeps :
      (a : Account) (purpose : MfaChallengePurpose) → Keeps P (create_mfa_challenge rt m a purpose)
  unfolding create_mfa_challenge insert_challenge
  create_mfa_challenge-Keeps a purpose =
      modify-Leads (Image P end) P end _ (λ s p. (s, p, refl))
        (bind-Leads (Image P end) P _ _ weaken (get_auth_policy-Keeps rt (Image P end) a) (λ policy.
          then-Leads (Image P end) P _ _
            (stored-Leads (Image P end) P with_challenges _ weaken (λ s' x d (s, p, e).
              let (q, r) = insert_unique-ok challenge_hash_of _ s'.challenges d in
              rw (r, e) (st.challenge_renewed s _ refl (rw e at q) p)))
            (give-Keeps P _)))
    where
      end : AuthState → AuthState
      end s = record s { challenges = end_challenges rt m a.id purpose s.challenges }

      weaken : (s : AuthState) → Image P end s → P s
      weaken s' (s, p, e) = rw e (st.challenge_used s _ p)
