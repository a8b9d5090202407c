-- ===== src/Auth/Parts.antt =====
-- The private methods of backend/src/auth/auth.service.ts that its operations share.
use proactive.Base.{
  ℕ, zero, suc, Bool, true, false, Option, none, some, List, [], ◌∷◌, ◌++◌, Text, text_eq, trim,
  map_ok, String, Result, ok, err, unique_violation, ◌==◌, ◌&&◌, not, is_null, ltb, any, keep,
  find_first, update_where, if◌then◌else◌,
}
use proactive.Store.{UserRole, Team, Value}
use proactive.Policies.{get_effective_policy}
use proactive.Policies.Settings.{PolicySettings}
use proactive.Action.{Action, ◌>>=◌, ◌>>◌, give, gets, reads, modify, writes}
use proactive.Auth.Records.{
  Account, AuthState, AuditEntry, AuditSubject, RefreshToken, OneTimeToken, MfaChallenge,
  MfaChallengePurpose, MfaBackupCode,
}
use proactive.Auth.Runtime.{Runtime, Moment, JwtPayload, days_from_now, minutes_from_now}
use proactive.Auth.Users.{has_id, sanitize}

abbrev pub AuthAction {ℓ} : Type ℓ → Type ℓ
AuthAction A = Action AuthState A

abbrev pub log : AuditEntry → AuthAction (Unit {0})
log entry = modify (λ s. record s { audit_logs = entry ∷ s.audit_logs })

-- An entry on an account's sign-in.
abbrev pub auth_entry :
    ℕ → String → Option String → Option Text → List (String × Value) → AuditEntry
auth_entry user_id action reason_code reason_text new_values = record {
  actor_user_id = some user_id;
  organization_id = none;
  action_type = action;
  entity_type = "user_auth";
  entity_id = AuditSubject.row user_id;
  reason_code = reason_code;
  reason_text = reason_text;
  old_values = [];
  new_values = new_values;
}

abbrev pub log_auth : ℕ → String → AuthAction (Unit {0})
log_auth user_id action = log (auth_entry user_id action none none [])

abbrev pub is_privileged : UserRole → Bool
is_privileged UserRole.admin = true
is_privileged UserRole.supervisor = true
is_privileged UserRole.canvasser = false

unfoldable pub requires_mfa : Account → Bool
requires_mfa a = is_privileged a.role

-- The row that a token or a code belongs to, read with it.
abbrev pub account_of : ℕ → AuthState → Option Account
account_of user_id s = find_first (has_id user_id) s.accounts

abbrev pub set_account : ℕ → (Account → Account) → AuthState → AuthState
set_account user_id change s = record s {
  accounts = update_where (has_id user_id) change s.accounts;
}

abbrev pub same_purpose : MfaChallengePurpose → MfaChallengePurpose → Bool
same_purpose MfaChallengePurpose.setup MfaChallengePurpose.setup = true
same_purpose MfaChallengePurpose.verify MfaChallengePurpose.verify = true
same_purpose MfaChallengePurpose.setup MfaChallengePurpose.verify = false
same_purpose MfaChallengePurpose.verify MfaChallengePurpose.setup = false

-- A one-time token that is open, and its end.
abbrev pub is_unused : ℕ → OneTimeToken → Bool
is_unused user_id t = t.user_id == user_id && is_null t.used_at

abbrev pub use_token : ℕ → OneTimeToken → OneTimeToken
use_token now t = record t { used_at = some now }

-- `findFirst` on the hash of a token that is unused and has not expired.
abbrev pub is_redeemable : Text → ℕ → OneTimeToken → Bool
is_redeemable hash now t = text_eq t.token_hash hash && is_null t.used_at && ltb now t.expires_at

-- `create` of a row with a token's hash, which stands for one row of its table by the schema.
abbrev pub has_hash {ℓ} : {A : Type ℓ} → (A → Text) → Text → A → Bool
has_hash hash_of hash r = text_eq (hash_of r) hash

unfoldable pub insert_unique {ℓ} : {A : Type ℓ} → (A → Text) → A → List A → Result (List A)
insert_unique hash_of t rows =
    if any (has_hash hash_of (hash_of t)) rows
    then err (unique_violation "token_hash")
    else ok (t ∷ rows)

abbrev pub token_hash_of : OneTimeToken → Text
token_hash_of t = t.token_hash

abbrev pub refresh_hash_of : RefreshToken → Text
refresh_hash_of t = t.token_hash

abbrev pub challenge_hash_of : MfaChallenge → Text
challenge_hash_of t = t.token_hash

abbrev pub with_refresh_tokens : AuthState → List RefreshToken → AuthState
with_refresh_tokens s rows = record s { refresh_tokens = rows }

abbrev pub with_challenges : AuthState → List MfaChallenge → AuthState
with_challenges s rows = record s { challenges = rows }

unfoldable pub insert_refresh_token : RefreshToken → AuthState → Result AuthState
unfolding insert_unique
insert_refresh_token t s =
    map_ok (with_refresh_tokens s) (insert_unique refresh_hash_of t s.refresh_tokens)

unfoldable pub insert_challenge : MfaChallenge → AuthState → Result AuthState
unfolding insert_unique
insert_challenge t s = map_ok (with_challenges s) (insert_unique challenge_hash_of t s.challenges)

-- What a sign-in hands to its caller.
pub record Session : Type 0 where
  pub access_token : Text
  pub refresh_token : Text
  pub role : UserRole
  pub user : Account

module _ (rt : Runtime) where
  -- `getAuthPolicy`
  unfoldable pub get_auth_policy : Account → AuthAction PolicySettings
  get_auth_policy a = do
    policy ←
        reads
          (λ s. get_effective_policy rt.default_policy s.policies a.organization_id a.campaign_id)
    give policy.settings

  unfoldable pub build_jwt_payload : Account → Option ℕ → JwtPayload
  build_jwt_payload a mfa_verified_at = record {
    sub = a.id;
    email = a.email;
    role = a.role;
    organization_id = a.organization_id;
    campaign_id = a.campaign_id;
    team_id = a.team_id;
    mfa_verified_at = mfa_verified_at;
    impersonator = none;
  }

  module _ (m : Moment) where
    -- `Array.from({ length }, ...)` from the index on.
    unfoldable pub backup_codes_from : ℕ → ℕ → List Text
    backup_codes_from index zero = []
    backup_codes_from index (suc n) = m.backup_code index ∷ backup_codes_from (suc index) n

    unfoldable pub backup_rows : ℕ → ℕ → List Text → List MfaBackupCode
    backup_rows user_id index [] = []
    backup_rows user_id index (code ∷ codes) =
        record {
          id = m.code_id index;
          user_id = user_id;
          code_hash = rt.hash_token code;
          used_at = none;
        }
        ∷ backup_rows user_id (suc index) codes

    unfoldable pub replace_backup_codes : Account → AuthAction (List Text)
    unfolding get_auth_policy backup_codes_from backup_rows
    replace_backup_codes a = do
      policy ← get_auth_policy a
      let codes = backup_codes_from 0 policy.mfa_backup_code_count in
          modify (λ s. record s {
            backup_codes =
                backup_rows a.id 0 codes
                ++ keep (λ (c : MfaBackupCode). not (c.user_id == a.id)) s.backup_codes;
          })
          >> give codes

    abbrev pub is_open_code : ℕ → Text → MfaBackupCode → Bool
    is_open_code user_id hash c =
        c.user_id == user_id && text_eq c.code_hash hash && is_null c.used_at

    -- The code that is found is used up.
    unfoldable pub use_code : Option MfaBackupCode → AuthAction Bool
    use_code none = give false
    use_code (some stored) =
        modify (λ s. record s {
          backup_codes =
              update_where (λ (c : MfaBackupCode). c.id == stored.id)
                (λ (c : MfaBackupCode). record c { used_at = some m.now }) s.backup_codes;
        })
        >> give true

    unfoldable pub consume_backup_code : ℕ → Text → AuthAction Bool
    unfolding use_code
    consume_backup_code user_id code = do
      stored ← gets (λ s.
          find_first (is_open_code user_id (rt.hash_token (rt.to_upper_case (trim code))))
            s.backup_codes)
      use_code stored

    abbrev pub is_open_challenge : ℕ → MfaChallengePurpose → MfaChallenge → Bool
    is_open_challenge user_id purpose c =
        c.user_id == user_id && same_purpose c.purpose purpose && is_null c.used_at

    abbrev pub use_challenge : MfaChallenge → MfaChallenge
    use_challenge c = record c { used_at = some m.now }

    abbrev pub end_challenges : ℕ → MfaChallengePurpose → List MfaChallenge → List MfaChallenge
    end_challenges user_id purpose = update_where (is_open_challenge user_id purpose) use_challenge

    -- Between the two writes the policy is read, which may throw.
    unfoldable pub create_mfa_challenge : Account → MfaChallengePurpose → AuthAction Text
    unfolding get_auth_policy insert_challenge
    create_mfa_challenge a purpose = do
      modify (λ s. record s { challenges = end_challenges a.id purpose s.challenges })
      policy ← get_auth_policy a
      writes (
          insert_challenge (record {
            id = m.new_id;
            user_id = a.id;
            token_hash = rt.hash_token m.challenge;
            purpose = purpose;
            expires_at = minutes_from_now m policy.mfa_challenge_ttl_minutes;
            used_at = none;
          }))
      give m.challenge

    abbrev pub is_live_challenge : Text → MfaChallengePurpose → MfaChallenge → Bool
    is_live_challenge hash purpose c =
        text_eq c.token_hash hash
        && same_purpose c.purpose purpose
        && is_null c.used_at
        && ltb m.now c.expires_at

    unfoldable pub find_mfa_challenge : Text → MfaChallengePurpose → AuthState → Option MfaChallenge
    find_mfa_challenge token purpose s =
        find_first (is_live_challenge (rt.hash_token token) purpose) s.challenges

    unfoldable pub consume_mfa_challenge : ℕ → AuthAction (Unit {0})
    consume_mfa_challenge id = modify (λ s. record s {
      challenges = update_where (λ (c : MfaChallenge). c.id == id) use_challenge s.challenges;
    })

    unfoldable pub mark_interactive_login_complete : ℕ → AuthAction (Unit {0})
    mark_interactive_login_complete user_id =
        modify (set_account user_id (λ a. record a { last_login_at = some m.now }))

    -- `team` is the team that the account was read with, if it was.
    unfoldable pub issue_session : Account → Option Team → Option ℕ → AuthAction Session
    unfolding get_auth_policy insert_refresh_token build_jwt_payload sanitize
    issue_session a team mfa_verified_at = do
      policy ← get_auth_policy a
      writes (
          insert_refresh_token (record {
            id = m.new_id;
            user_id = a.id;
            token_hash = rt.hash_token m.token;
            expires_at = days_from_now m policy.refresh_token_ttl_days;
            revoked_at = none;
            revocation_reason = none;
          }))
      give (record {
        access_token = rt.sign (build_jwt_payload a mfa_verified_at);
        refresh_token = m.token;
        role = a.role;
        user = sanitize team a;
      })
