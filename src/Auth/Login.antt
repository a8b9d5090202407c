-- ===== src/Auth/Login.antt =====
-- backend/src/auth/auth.service.ts: `validateUser` and `login`.
use proactive.Base.{
  ℕ, ◌+◌, Bool, true, false, Option, none, some, [], ◌∷◌, Text, text, text_eq, trim, String,
  unauthorized, ◌&&◌, ◌||◌, not, is_null, leb, ltb, or_else, if◌then◌else◌,
}
use proactive.Store.{UserRole, Value}
use proactive.Policies.Settings.{PolicySettings}
use proactive.Action.{◌>>=◌, ◌>>◌, give, throw, gets, reads, modify, writes}
use proactive.Auth.Records.{Account, AuditSubject, MfaChallengePurpose}
use proactive.Auth.Runtime.{Runtime, Moment, minutes_from_now}
use proactive.Auth.Limits.{assert_within_rate_limit, clear_rate_limit}
use proactive.Auth.Users.{find_by_email, find_by_id, sanitize, team_of}
use proactive.Auth.Parts.{
  AuthAction, Session, log, log_auth, auth_entry, set_account, requires_mfa, get_auth_policy,
  create_mfa_challenge, issue_session, mark_interactive_login_complete,
}

-- A sign-in ends with a session or asks for the second factor.
pub data LoginAnswer : Type 0 where
  signed_in : Session → LoginAnswer
  mfa_required : Bool → Text → UserRole → Account → LoginAnswer

abbrev pub is_usable : Account → Bool
is_usable a = a.is_active && text_eq a.status (text "active")

abbrev pub is_locked : ℕ → Option ℕ → Bool
is_locked now none = false
is_locked now (some until) = ltb now until

abbrev pub lock_code : Option ℕ → String
lock_code none = "INVALID_CREDENTIALS"
lock_code (some until) = "ACCOUNT_LOCKED"

abbrev pub lock_status : Option ℕ → Text → Text
lock_status none current = current
lock_status (some until) current = text "locked"

abbrev pub time_value : Option ℕ → Value
time_value none = Value.null
time_value (some t) = Value.time_of t

module _ (rt : Runtime) (m : Moment) where
  abbrev pub lock_until : PolicySettings → ℕ → Option ℕ
  lock_until policy attempts =
      if leb policy.login_lockout_threshold attempts
      then some (minutes_from_now m policy.login_lockout_minutes)
      else none

  -- The columns that a wrong password changes.
  unfoldable pub failed_account : ℕ → Option ℕ → Account → Account
  failed_account attempts locked_until a = record a {
    failed_login_attempts = attempts;
    locked_until = locked_until;
    status = lock_status locked_until a.status;
  }

  unfoldable pub refuse_password : Account → AuthAction Account
  unfolding get_auth_policy failed_account
  refuse_password a = do
    policy ← get_auth_policy rt a
    let attempts = a.failed_login_attempts + 1 in
        let locked_until = lock_until policy attempts in
        modify (set_account a.id (failed_account attempts locked_until))
        >> log (
            auth_entry a.id "login_failed" (some (lock_code locked_until)) none (
              ("failedLoginAttempts", Value.number_of attempts)
              ∷ ("lockedUntil", time_value locked_until)
              ∷ []))
        >> throw (unauthorized "Invalid credentials")

  abbrev pub needs_reset : Account → Bool
  needs_reset a =
      ltb 0 a.failed_login_attempts
      || not (is_null a.locked_until)
      || not (text_eq a.status (text "active"))
      || is_null a.activated_at

  unfoldable pub cleared_account : Option ℕ → Account → Account
  cleared_account activated_at a = record a {
    failed_login_attempts = 0;
    locked_until = none;
    status = text "active";
    activated_at = or_else activated_at (some m.now);
  }

  unfoldable pub accept_password : Text → Account → AuthAction Account
  unfolding cleared_account clear_rate_limit find_by_id
  accept_password email a = do
    modify (λ s. if needs_reset a then set_account a.id (cleared_account a.activated_at) s else s)
    modify (clear_rate_limit rt "login" email)
    reads (find_by_id a.id)

  unfoldable pub check_password : Text → Text → Account → AuthAction Account
  unfolding refuse_password accept_password
  check_password email password a =
      if is_locked m.now a.locked_until
      then log (auth_entry a.id "login_failed" (some "ACCOUNT_LOCKED") none [])
        >> throw (unauthorized "Account is temporarily locked")
      else if rt.compare_password password a.password_hash
      then accept_password email a
      else refuse_password a

  unfoldable pub refuse_login : Text → AuthAction Account
  refuse_login email =
      log (record {
        actor_user_id = none;
        organization_id = none;
        action_type = "login_failed";
        entity_type = "user_auth";
        entity_id = AuditSubject.mail email;
        reason_code = some "INVALID_CREDENTIALS";
        reason_text = none;
        old_values = [];
        new_values = [];
      })
      >> throw (unauthorized "Invalid credentials")

  unfoldable pub check_account : Text → Text → Option Account → AuthAction Account
  unfolding check_password refuse_login
  check_account email password none = refuse_login email
  check_account email password (some a) =
      if is_usable a then check_password email password a else refuse_login email

  unfoldable pub validate_user : Text → Text → AuthAction Account
  unfolding assert_within_rate_limit find_by_email check_account
  validate_user email password =
      let normalized = rt.to_lower_case (trim email) in
      writes (assert_within_rate_limit rt m.now "login" normalized)
      >> (gets (find_by_email rt normalized) >>= check_account normalized password)

  abbrev pub challenge_purpose : Bool → MfaChallengePurpose
  challenge_purpose true = MfaChallengePurpose.setup
  challenge_purpose false = MfaChallengePurpose.verify

  abbrev pub challenge_action : Bool → String
  challenge_action true = "mfa_setup_challenge_issued"
  challenge_action false = "mfa_verify_challenge_issued"

  -- The challenge of `login` and of `activateAccount`, which gives the reason `reason_text`.
  unfoldable pub ask_second_factor : Account → Option Text → AuthAction LoginAnswer
  unfolding create_mfa_challenge sanitize
  ask_second_factor a reason_text =
      let setup_required = not a.mfa_enabled in
      create_mfa_challenge rt m a (challenge_purpose setup_required) >>= λ challenge_token.
      log (auth_entry a.id (challenge_action setup_required) none reason_text [])
      >> gets (λ s. mfa_required setup_required challenge_token a.role (sanitize (team_of s a) a))

  unfoldable pub sign_in : Account → AuthAction LoginAnswer
  unfolding issue_session mark_interactive_login_complete
  sign_in a = do
    team ← gets (λ s. team_of s a)
    session ← issue_session rt m a team none
    mark_interactive_login_complete rt m a.id
    log_auth a.id "login_succeeded"
    give (signed_in session)

  unfoldable pub login : Text → Text → AuthAction LoginAnswer
  unfolding validate_user requires_mfa ask_second_factor sign_in
  login email password = do
    a ← validate_user email password
    if requires_mfa a then ask_second_factor a none else sign_in a
