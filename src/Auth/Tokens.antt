-- ===== src/Auth/Tokens.antt =====
-- backend/src/auth/auth.service.ts: refresh tokens, password resets, invitations and activation.
use proactive.Base.{
  ℕ, ◌-◌, Bool, true, false, Option, none, some, List, [], ◌∷◌, Text, text, text_eq, trim, Result,
  map_ok, unauthorized, ◌==◌, ◌&&◌, ◌||◌, not, is_null, leb, ltb, find_first, update_where, found,
  if◌then◌else◌,
}
use proactive.Store.{Value}
use proactive.Action.{◌>>=◌, ◌>>◌, give, throw, gets, reads, modify, writes, stores}
use proactive.Auth.Records.{
  Account, AuthState, AuditSubject, RefreshToken, OneTimeToken, RevocationReason,
}
use proactive.Auth.Runtime.{Runtime, Moment, minutes_from_now, hours_from_now, rotation_grace}
use proactive.Auth.Limits.{assert_within_rate_limit}
use proactive.Auth.Users.{NewUser, find_by_email, find_by_id, team_of, create_invited_canvasser}
use proactive.Auth.Parts.{
  AuthAction, Session, log, log_auth, account_of, set_account, requires_mfa, is_unused, use_token,
  is_redeemable, insert_unique, token_hash_of, get_auth_policy, issue_session,
}
use proactive.Auth.Login.{LoginAnswer, signed_in, is_usable, ask_second_factor}
use proactive.Auth.Impersonate.{role_name}

-- A refresh token that was handed in for a new one counts as stolen after the grace.
abbrev pub is_rotated : Option RevocationReason → Bool
is_rotated (some RevocationReason.rotated) = true
is_rotated (some RevocationReason.logout) = false
is_rotated (some RevocationReason.password_reset) = false
is_rotated (some RevocationReason.reuse_detected) = false
is_rotated (some RevocationReason.privileged_recovery) = false
is_rotated none = false

abbrev pub is_past_grace : ℕ → Option ℕ → Bool
is_past_grace now none = false
is_past_grace now (some revoked_at) = ltb rotation_grace (now - revoked_at)

abbrev pub is_reused : ℕ → RefreshToken → Bool
is_reused now t = is_past_grace now t.revoked_at && is_rotated t.revocation_reason

abbrev pub is_unrevoked : ℕ → RefreshToken → Bool
is_unrevoked user_id t = t.user_id == user_id && is_null t.revoked_at

unfoldable pub revoke : ℕ → RevocationReason → RefreshToken → RefreshToken
revoke now reason t = record t { revoked_at = some now; revocation_reason = some reason }

unfoldable pub revoke_all : ℕ → ℕ → RevocationReason → AuthState → AuthState
unfolding revoke
revoke_all now user_id reason s = record s {
  refresh_tokens = update_where (is_unrevoked user_id) (revoke now reason) s.refresh_tokens;
}

unfoldable pub revoke_one : ℕ → ℕ → RevocationReason → AuthState → AuthState
unfolding revoke
revoke_one now id reason s = record s {
  refresh_tokens =
      update_where (λ (t : RefreshToken). t.id == id) (revoke now reason) s.refresh_tokens;
}

-- A reset that was asked for; the token is told only where the environment says so.
pub record ResetRequested : Type 0 where
  pub expires_at : ℕ
  pub reset_token : Option Text

pub record Activation : Type 0 where
  pub activation_token : Text
  pub expires_at : ℕ

module _ (rt : Runtime) (m : Moment) where
  abbrev pub has_token : Text → RefreshToken → Bool
  has_token token t = text_eq t.token_hash (rt.hash_token token)

  -- The token is put out of use and a new session stands for it.
  unfoldable pub rotate : RefreshToken → Account → AuthAction Session
  unfolding revoke_one issue_session
  rotate stored account = do
    modify (revoke_one m.now stored.id RevocationReason.rotated)
    log_auth stored.user_id "token_refreshed"
    issue_session rt m account none none

  unfoldable pub detect_reuse : RefreshToken → AuthAction Session
  unfolding revoke_all
  detect_reuse stored =
      modify (revoke_all m.now stored.user_id RevocationReason.reuse_detected)
      >> log_auth stored.user_id "refresh_token_reuse_detected"
      >> throw (unauthorized "Invalid refresh token")

  unfoldable pub refresh : Text → AuthAction Session
  unfolding rotate detect_reuse
  refresh token = do
    stored ← reads (λ s.
        found (find_first (has_token token) s.refresh_tokens)
          (unauthorized "Invalid refresh token"))
    account ←
        reads (λ s. found (account_of stored.user_id s) (unauthorized "Invalid refresh token"))
    if is_reused m.now stored
        then detect_reuse stored
        else if not (is_null stored.revoked_at)
        then throw (unauthorized "Invalid refresh token")
        else if leb stored.expires_at m.now || not (is_usable account)
        then throw (unauthorized "Invalid refresh token")
        else rotate stored account

  unfoldable pub log_out_of : Option RefreshToken → AuthAction (Unit {0})
  unfolding revoke_one
  log_out_of none = give tt
  log_out_of (some stored) =
      modify (revoke_one m.now stored.id RevocationReason.logout)
      >> log_auth stored.user_id "logout_succeeded"

  unfoldable pub logout : Text → AuthAction (Unit {0})
  unfolding log_out_of
  logout token =
      gets (λ s. find_first (λ t. has_token token t && is_null t.revoked_at) s.refresh_tokens)
      >>= log_out_of

  abbrev pub use_tokens : ℕ → List OneTimeToken → List OneTimeToken
  use_tokens user_id = update_where (is_unused user_id) (use_token m.now)

  abbrev pub new_token : ℕ → ℕ → OneTimeToken
  new_token user_id expires_at = record {
    id = m.new_id;
    user_id = user_id;
    token_hash = rt.hash_token m.token;
    expires_at = expires_at;
    used_at = none;
  }

  abbrev pub with_reset_tokens : AuthState → List OneTimeToken → AuthState
  with_reset_tokens s tokens = record s { reset_tokens = tokens }

  abbrev pub with_activation_tokens : AuthState → List OneTimeToken → AuthState
  with_activation_tokens s tokens = record s { activation_tokens = tokens }

  unfoldable pub store_reset_token : OneTimeToken → AuthState → Result AuthState
  unfolding insert_unique
  store_reset_token t s =
      map_ok (with_reset_tokens s) (insert_unique token_hash_of t s.reset_tokens)

  unfoldable pub store_activation_token : OneTimeToken → AuthState → Result AuthState
  unfolding insert_unique
  store_activation_token t s =
      map_ok (with_activation_tokens s) (insert_unique token_hash_of t s.activation_tokens)

  -- The open tokens of an account make way for a new one.
  unfoldable pub renew_reset_token : ℕ → ℕ → AuthAction (Unit {0})
  unfolding store_reset_token
  renew_reset_token user_id expires_at =
      modify (λ s. record s { reset_tokens = use_tokens user_id s.reset_tokens })
      >> writes (store_reset_token (new_token user_id expires_at))

  unfoldable pub reset_for : Account → AuthAction ResetRequested
  unfolding get_auth_policy renew_reset_token
  reset_for a = do
    policy ← get_auth_policy rt a
    let expires_at = minutes_from_now m policy.password_reset_ttl_minutes in
        renew_reset_token a.id expires_at
        >> log_auth a.id "password_reset_requested"
        >> give (record {
          expires_at = expires_at;
          reset_token = if rt.expose_reset_tokens then some m.token else none;
        })

  -- An address that is unknown gets the answer `none`, which tells nothing.
  unfoldable pub reset_if_known : Option Account → AuthAction (Option ResetRequested)
  unfolding reset_for
  reset_if_known none = give none
  reset_if_known (some a) = reset_for a >>= λ r. give (some r)

  unfoldable pub request_password_reset : Text → AuthAction (Option ResetRequested)
  unfolding assert_within_rate_limit find_by_email reset_if_known
  request_password_reset email =
      let normalized = rt.to_lower_case (trim email) in
      writes (assert_within_rate_limit rt m.now "password-reset" normalized)
      >> (gets (find_by_email rt normalized) >>= reset_if_known)

  unfoldable pub reset_account : Text → Account → Account
  reset_account password_hash a = record a {
    password_hash = password_hash;
    is_active = true;
    status = text "active";
    failed_login_attempts = 0;
    locked_until = none;
  }

  abbrev pub redeem : ℕ → List OneTimeToken → List OneTimeToken
  redeem id = update_where (λ t. t.id == id) (use_token m.now)

  -- The transaction of `completePasswordReset`.
  unfoldable pub apply_reset : OneTimeToken → Text → AuthState → AuthState
  unfolding reset_account revoke_all
  apply_reset stored password_hash s =
      revoke_all m.now stored.user_id RevocationReason.password_reset
        (record (set_account stored.user_id (reset_account password_hash) s) {
          reset_tokens = redeem stored.id s.reset_tokens;
        })

  unfoldable pub complete_password_reset : Text → Text → AuthAction (Unit {0})
  unfolding apply_reset
  complete_password_reset token password = do
    stored ← reads (λ s.
        found (find_first (is_redeemable (rt.hash_token token) m.now) s.reset_tokens)
          (unauthorized "Invalid or expired reset token"))
    modify (apply_reset stored (rt.hash_password m.salt password))
    log_auth stored.user_id "password_reset_completed"

  -- Between the two writes the policy is read, which may throw.
  unfoldable pub renew_activation_token : ℕ → Account → AuthAction ℕ
  unfolding get_auth_policy store_activation_token
  renew_activation_token user_id a = do
    modify (λ s. record s { activation_tokens = use_tokens user_id s.activation_tokens })
    policy ← get_auth_policy rt a
    let expires_at = hours_from_now m policy.activation_token_ttl_hours in
        writes (store_activation_token (new_token user_id expires_at)) >> give expires_at

  unfoldable pub create_activation_for_user : ℕ → AuthAction Activation
  unfolding find_by_id renew_activation_token
  create_activation_for_user user_id = do
    a ← reads (find_by_id user_id)
    expires_at ← renew_activation_token user_id a
    log_auth user_id "activation_token_issued"
    give (record { activation_token = m.token; expires_at = expires_at })

  -- The placeholder password is the hash of a second opaque token.
  unfoldable pub invite_canvasser : ℕ → NewUser → AuthAction (Account × Activation)
  unfolding create_invited_canvasser create_activation_for_user
  invite_canvasser actor_user_id input = do
    a ← stores (create_invited_canvasser rt m input (rt.hash_password m.salt m.challenge))
    activation ← create_activation_for_user a.id
    log (record {
      actor_user_id = some actor_user_id;
      organization_id = none;
      action_type = "field_user_invited";
      entity_type = "user";
      entity_id = AuditSubject.row a.id;
      reason_code = none;
      reason_text = none;
      old_values = [];
      new_values = ("role", Value.word (role_name a.role)) ∷ [];
    })
    give (a, activation)

  unfoldable pub activated_account : Text → Account → Account
  activated_account password_hash a = record a {
    password_hash = password_hash;
    is_active = true;
    status = text "active";
    activated_at = some m.now;
    failed_login_attempts = 0;
    locked_until = none;
  }

  -- The transaction of `activateAccount`.
  unfoldable pub apply_activation : OneTimeToken → Text → AuthState → AuthState
  unfolding activated_account
  apply_activation stored password_hash s =
      record (set_account stored.user_id (activated_account password_hash) s) {
        activation_tokens = redeem stored.id s.activation_tokens;
      }

  unfoldable pub activate_account : Text → Text → AuthAction LoginAnswer
  unfolding apply_activation find_by_id requires_mfa ask_second_factor issue_session
  activate_account token password = do
    stored ← reads (λ s.
        found (find_first (is_redeemable (rt.hash_token token) m.now) s.activation_tokens)
          (unauthorized "Invalid or expired activation token"))
    modify (apply_activation stored (rt.hash_password m.salt password))
    a ← reads (find_by_id stored.user_id)
    log_auth stored.user_id "account_activated"
    if requires_mfa a
        then ask_second_factor rt m a (some (text "post_activation"))
        else (gets (λ s. team_of s a) >>= λ team.
            issue_session rt m a team none >>= λ session. give (signed_in session))
