-- ===== src/Auth/SecondFactor.antt =====
-- backend/src/auth/auth.service.ts: setting up the second factor, verifying it, stepping up to it
-- and switching it off.
use proactive.Base.{
  ℕ, Bool, true, false, Option, none, some, List, [], ◌∷◌, Text, trim, String, unauthorized,
  bad_request, forbidden, ◌==◌, ◌&&◌, not, is_null, count, keep, update_where, found, if◌then◌else◌,
}
use proactive.Store.{UserRole, Value}
use proactive.Action.{◌>>=◌, ◌>>◌, give, gets, reads, expect, modify, writes, throw_unless}
use proactive.Auth.Records.{Account, AuthState, MfaChallenge, MfaChallengePurpose, MfaBackupCode}
use proactive.Auth.Runtime.{Runtime, Moment}
use proactive.Auth.Totp.{generate_base32_secret, verify_totp, build_otp_auth_uri}
use proactive.Auth.Limits.{assert_within_rate_limit, clear_rate_limit}
use proactive.Auth.Users.{has_id, find_by_id, sanitize, team_of}
use proactive.Auth.Parts.{
  AuthAction, Session, log, log_auth, auth_entry, account_of, set_account, requires_mfa,
  get_auth_policy, build_jwt_payload, replace_backup_codes, consume_backup_code, use_challenge,
  find_mfa_challenge, consume_mfa_challenge, issue_session, mark_interactive_login_complete,
}

pub record MfaStatus : Type 0 where
  pub enabled : Bool
  pub required : Bool
  pub backup_code_count : ℕ

-- The answer of `stepUpMfa`.
pub record SteppedUp : Type 0 where
  pub access_token : Text
  pub role : UserRole
  pub user : Account

-- A secret that is missing or empty stops the operation.
abbrev pub filled : Option Text → Option Text
filled none = none
filled (some []) = none
filled (some (c ∷ s)) = some (c ∷ s)

abbrev pub current_secret : List ℕ → Option Text → Text
current_secret bytes none = generate_base32_secret bytes
current_secret bytes (some secret) = secret

module _ (rt : Runtime) (m : Moment) where
  -- A live challenge, with its account.
  unfoldable pub read_challenge :
      Text → MfaChallengePurpose → String → AuthAction (MfaChallenge × Account)
  unfolding find_mfa_challenge
  read_challenge token purpose message = do
    challenge ← reads (λ s. found (find_mfa_challenge rt m token purpose s) (unauthorized message))
    account ← reads (λ s. found (account_of challenge.user_id s) (unauthorized message))
    give (challenge, account)

  -- A code of the authenticator, or else a backup code, which is used up.
  unfoldable pub check_code : ℕ → Text → Text → AuthAction Bool
  unfolding verify_totp consume_backup_code
  check_code user_id secret code =
      let normalized = trim code in
      if verify_totp rt m.now secret normalized
      then give false
      else (consume_backup_code rt m user_id normalized >>= λ used.
          throw_unless used (unauthorized "Invalid MFA or backup code") >> give used)

  unfoldable pub initialize_mfa_setup : Text → AuthAction (Text × Text)
  unfolding read_challenge generate_base32_secret build_otp_auth_uri
  initialize_mfa_setup token = do
    (challenge, account) ←
        read_challenge token MfaChallengePurpose.setup "Invalid or expired MFA setup challenge"
    let secret = current_secret m.secret_bytes account.mfa_temp_secret in
        modify (λ s.
          if is_null account.mfa_temp_secret
          then set_account challenge.user_id (λ a. record a { mfa_temp_secret = some secret }) s
          else s)
        >> give (secret, build_otp_auth_uri rt account.email secret)

  abbrev pub enable_mfa : Text → Account → Account
  enable_mfa secret a = record a {
    mfa_secret = some secret;
    mfa_temp_secret = none;
    mfa_enabled = true;
  }

  unfoldable pub complete_mfa_setup : Text → Text → AuthAction (Session × List Text)
  unfolding read_challenge verify_totp consume_mfa_challenge replace_backup_codes find_by_id
      issue_session mark_interactive_login_complete
  complete_mfa_setup token code = do
    (challenge, account) ←
        read_challenge token MfaChallengePurpose.setup "Invalid or expired MFA setup challenge"
    secret ←
        expect (filled account.mfa_temp_secret)
          (unauthorized "Invalid or expired MFA setup challenge")
    throw_unless (verify_totp rt m.now secret code) (unauthorized "Invalid MFA code")
    modify (set_account challenge.user_id (enable_mfa secret))
    consume_mfa_challenge rt m challenge.id
    codes ← replace_backup_codes rt m account
    a ← reads (find_by_id challenge.user_id)
    team ← gets (λ s. team_of s a)
    session ← issue_session rt m a team (some m.now)
    mark_interactive_login_complete rt m challenge.user_id
    log_auth challenge.user_id "mfa_enabled"
    give (session, codes)

  abbrev pub verified_action : Bool → String
  verified_action true = "mfa_backup_code_used"
  verified_action false = "mfa_verified"

  unfoldable pub verify_mfa_challenge : Text → Text → AuthAction Session
  unfolding read_challenge assert_within_rate_limit check_code clear_rate_limit
      consume_mfa_challenge issue_session mark_interactive_login_complete
  verify_mfa_challenge token code = do
    (challenge, account) ←
        read_challenge token MfaChallengePurpose.verify
          "Invalid or expired MFA verification challenge"
    secret ←
        expect (filled account.mfa_secret)
          (unauthorized "Invalid or expired MFA verification challenge")
    writes (assert_within_rate_limit rt m.now "mfa-verify" (rt.id_text challenge.user_id))
    used ← check_code challenge.user_id secret code
    modify (clear_rate_limit rt "mfa-verify" (rt.id_text challenge.user_id))
    consume_mfa_challenge rt m challenge.id
    session ← issue_session rt m account none (some m.now)
    mark_interactive_login_complete rt m challenge.user_id
    log_auth challenge.user_id (verified_action used)
    give session

  unfoldable pub mfa_status : ℕ → AuthAction MfaStatus
  unfolding find_by_id requires_mfa
  mfa_status user_id = do
    a ← reads (find_by_id user_id)
    gets (λ s. record {
      enabled = a.mfa_enabled;
      required = requires_mfa a;
      backup_code_count =
          if a.mfa_enabled
          then count (λ (c : MfaBackupCode). c.user_id == user_id && is_null c.used_at)
              s.backup_codes
          else 0;
    })

  -- The transaction of `disableMfa`.
  unfoldable pub without_mfa : ℕ → AuthState → AuthState
  without_mfa user_id s = record s {
    accounts =
        update_where (has_id user_id)
          (λ a. record a { mfa_enabled = false; mfa_secret = none; mfa_temp_secret = none })
          s.accounts;
    challenges =
        update_where (λ (c : MfaChallenge). c.user_id == user_id && is_null c.used_at)
          (use_challenge rt m) s.challenges;
    backup_codes = keep (λ (c : MfaBackupCode). not (c.user_id == user_id)) s.backup_codes;
  }

  abbrev pub disable_reason : Bool → String
  disable_reason true = "BACKUP_CODE"
  disable_reason false = "TOTP"

  -- The answer tells whether the next sign-in has to set the second factor up again.
  unfoldable pub disable_mfa : ℕ → Text → Text → AuthAction Bool
  unfolding find_by_id assert_within_rate_limit check_code clear_rate_limit without_mfa requires_mfa
  disable_mfa user_id password code = do
    a ← reads (find_by_id user_id)
    throw_unless a.mfa_enabled (bad_request "MFA is not enabled for this account")
    secret ← expect (filled a.mfa_secret) (bad_request "MFA is not enabled for this account")
    writes (assert_within_rate_limit rt m.now "mfa-disable" (rt.id_text user_id))
    throw_unless (rt.compare_password password a.password_hash) (unauthorized "Invalid credentials")
    used ← check_code a.id secret code
    modify (clear_rate_limit rt "mfa-disable" (rt.id_text user_id))
    modify (without_mfa user_id)
    log (auth_entry user_id "mfa_disabled" (some (disable_reason used)) none [])
    give (requires_mfa a)

  abbrev pub step_up_action : Bool → String
  step_up_action true = "mfa_step_up_backup_code_used"
  step_up_action false = "mfa_step_up_verified"

  -- `impersonator` is the claim of the caller's token.
  unfoldable pub step_up_mfa : ℕ → Option ℕ → Text → AuthAction SteppedUp
  unfolding find_by_id requires_mfa assert_within_rate_limit check_code clear_rate_limit
      get_auth_policy build_jwt_payload sanitize
  step_up_mfa user_id impersonator code = do
    throw_unless (is_null impersonator)
        (forbidden "Sensitive actions are unavailable during impersonation")
    a ← reads (find_by_id user_id)
    throw_unless (requires_mfa a && a.mfa_enabled)
        (forbidden "MFA step-up is unavailable for this account")
    secret ← expect (filled a.mfa_secret) (forbidden "MFA step-up is unavailable for this account")
    writes (assert_within_rate_limit rt m.now "mfa-step-up" (rt.id_text a.id))
    used ← check_code a.id secret code
    modify (clear_rate_limit rt "mfa-step-up" (rt.id_text a.id))
    policy ← get_auth_policy rt a
    log (
        auth_entry a.id (step_up_action used) none none
          (("validForMinutes", Value.number_of policy.sensitive_mfa_window_minutes) ∷ []))
    gets (λ s. record {
      access_token = rt.sign (build_jwt_payload rt a (some m.now));
      role = a.role;
      user = sanitize (team_of s a) a;
    })
