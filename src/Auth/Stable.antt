-- ===== src/Auth/Stable.antt =====
-- What a property of the state must bear for every call of the auth and recovery services to hand
-- it on: the writes that the calls are made of.
pub mod Writes
pub mod Recoveries
pub mod Calls
use proactive.Base.{ℕ, ◌≡◌, Bool, false, List, ◌∷◌, any, update_where}
use proactive.Auth.Records.{
  Account, AuthState, AuditEntry, Attempt, RefreshToken, OneTimeToken, MfaChallenge, MfaBackupCode,
  Impersonation, RecoveryCase, RevocationReason,
}
use proactive.Auth.Runtime.{Runtime, Moment}
use proactive.Auth.Parts.{
  has_hash, token_hash_of, refresh_hash_of, challenge_hash_of, end_challenges, use_challenge,
  use_token,
}
use proactive.Auth.Impersonate.{is_open_of, end_impersonation}
use proactive.Auth.Tokens.{revoke, use_tokens, new_token}

-- A new token is stored only if no row has its hash; before a one-time token, a challenge or an
-- impersonation is stored, the open ones of its kind are ended.
pub record Stable {ℓ} (rt : Runtime) (m : Moment) (P : AuthState → Type ℓ) : Type ℓ where
  pub audit : (s : AuthState) (x : List AuditEntry) → P s → P (record s { audit_logs = x })
  pub accounts : (s : AuthState) (x : List Account) → P s → P (record s { accounts = x })
  pub attempts : (s : AuthState) (x : List Attempt) → P s → P (record s { login_attempts = x })
  pub recovery_attempts :
      (s : AuthState) (x : List Attempt) → P s → P (record s { recovery_attempts = x })
  pub codes : (s : AuthState) (x : List MfaBackupCode) → P s → P (record s { backup_codes = x })
  pub cases : (s : AuthState) (x : List RecoveryCase) → P s → P (record s { recovery_cases = x })
  pub revoked :
      (s : AuthState) (q : RefreshToken → Bool) (reason : RevocationReason)
      → P s
      → P (record s { refresh_tokens = update_where q (revoke m.now reason) s.refresh_tokens })
  pub issued :
      (s : AuthState) (t : RefreshToken)
      → t.token_hash ≡ rt.hash_token m.token
      → any (has_hash refresh_hash_of t.token_hash) s.refresh_tokens ≡ false
      → P s
      → P (record s { refresh_tokens = t ∷ s.refresh_tokens })
  pub reset_used :
      (s : AuthState) (q : OneTimeToken → Bool)
      → P s
      → P (record s { reset_tokens = update_where q (use_token m.now) s.reset_tokens })
  pub reset_renewed :
      (s : AuthState) (id expires_at : ℕ)
      → any (has_hash token_hash_of (rt.hash_token m.token)) (use_tokens rt m id s.reset_tokens)
        ≡ false
      → P s
      → P (record s {
        reset_tokens = new_token rt m id expires_at ∷ use_tokens rt m id s.reset_tokens;
      })
  pub activation_used :
      (s : AuthState) (q : OneTimeToken → Bool)
      → P s
      → P (record s { activation_tokens = update_where q (use_token m.now) s.activation_tokens })
  pub activation_renewed :
      (s : AuthState) (id expires_at : ℕ)
      → any
          (has_hash token_hash_of (rt.hash_token m.token))
          (use_tokens rt m id s.activation_tokens)
        ≡ false
      → P s
      → P (record s {
        activation_tokens = new_token rt m id expires_at ∷ use_tokens rt m id s.activation_tokens;
      })
  pub challenge_used :
      (s : AuthState) (q : MfaChallenge → Bool)
      → P s
      → P (record s { challenges = update_where q (use_challenge rt m) s.challenges })
  pub challenge_renewed :
      (s : AuthState) (c : MfaChallenge)
      → c.token_hash ≡ rt.hash_token m.challenge
      → any
          (has_hash challenge_hash_of c.token_hash)
          (end_challenges rt m c.user_id c.purpose s.challenges)
        ≡ false
      → P s
      → P (record s { challenges = c ∷ end_challenges rt m c.user_id c.purpose s.challenges })
  pub impersonation_ended :
      (s : AuthState) (q : Impersonation → Bool)
      → P s
      → P (record s { impersonations = update_where q (end_impersonation rt m) s.impersonations })
  pub impersonation_replaced :
      (s : AuthState) (i : Impersonation)
      → P s
      → P (record s {
        impersonations =
            i ∷ update_where (is_open_of i.actor_user_id) (end_impersonation rt m) s.impersonations;
      })
