-- ===== src/Tests/AuthData.antt =====
-- The data of the sign-in tests: an organization with two admins and a canvasser, and stand-ins for
-- what the program takes from outside, which mark what they are given.
use proactive.Base.{ℕ, true, false, none, some, [], ◌∷◌, Text, text, text_eq}
use proactive.Store.{UserRole}
use proactive.Auth.Records.{
  Account, AuthState, RefreshToken, OneTimeToken, RecoveryCase, RecoveryType, RecoveryStatus,
  NotificationStatus,
}
use proactive.Auth.Runtime.{Runtime, Moment}
use proactive.Tests.Data.{defaults}

abbrev pub runtime : Runtime
runtime = record {
  to_lower_case = λ s. s;
  to_upper_case = λ s. s;
  id_text = λ n. n ∷ [];
  hash_token = λ s. 1 ∷ s;
  hmac_sha1 = λ key bytes. bytes;
  hash_password = λ salt s. 7 ∷ s;
  compare_password = λ s hash. text_eq (7 ∷ s) hash;
  sign = λ payload. text "signed";
  encode_uri_component = λ s. s;
  mfa_issuer = text "PROACTIVE FCS";
  expose_reset_tokens = false;
  default_policy = defaults;
  default_settings = record {
    auth_rate_limit_window_minutes = 15;
    auth_rate_limit_max_attempts = 10;
    retention_job_enabled = false;
    retention_job_interval_minutes = 60;
  };
  has_webhook = true;
  break_glass_enabled = false;
  recovery_max_attempts = 5;
  recovery_window_minutes = 60;
  recovery_case_ttl_minutes = 30;
}

-- The moment at which the clock shows `n`, and what is drawn then.
abbrev pub at_time : ℕ → Moment
at_time n = record {
  now = n;
  new_id = n;
  token = n ∷ 0 ∷ [];
  challenge = n ∷ 1 ∷ [];
  secret_bytes = n ∷ [];
  backup_code = λ i. n ∷ i ∷ [];
  code_id = λ i. i;
  salt = n;
  delivered = true;
}

abbrev pub member : ℕ → Text → UserRole → Account
member id email role = record {
  id = id;
  first_name = text "Ada";
  last_name = text "Lee";
  email = email;
  password_hash = 7 ∷ text "open";
  role = role;
  organization_id = some 1;
  campaign_id = none;
  team_id = none;
  region_code = none;
  is_active = true;
  status = text "active";
  mfa_enabled = false;
  mfa_secret = none;
  mfa_temp_secret = none;
  failed_login_attempts = 0;
  locked_until = none;
  invited_at = none;
  activated_at = some 1;
  last_login_at = none;
  deleted_at = none;
  created_at = 1;
}

abbrev pub held : Text
held = text "held"

abbrev pub mailed : Text
mailed = text "mailed"

abbrev pub held_row : RefreshToken
held_row = record {
  id = 1;
  user_id = 2;
  token_hash = 1 ∷ held;
  expires_at = 1_000_000;
  revoked_at = none;
  revocation_reason = none;
}

abbrev pub mailed_row : OneTimeToken
mailed_row = record {
  id = 1;
  user_id = 2;
  token_hash = 1 ∷ mailed;
  expires_at = 1_000_000;
  used_at = none;
}

-- The case that the first admin has opened for the canvasser.
abbrev pub opened : RecoveryCase
opened = record {
  id = 6;
  organization_id = 1;
  target_user_id = 2;
  requested_by_user_id = 8;
  reviewed_by_user_id = none;
  type = RecoveryType.help_desk_account_recovery;
  status = RecoveryStatus.pending;
  reason_text = text "lost the phone";
  review_reason = none;
  notification_status = NotificationStatus.pending;
  notification_error = none;
  expires_at = 1_000_000;
  created_at = 10;
  reviewed_at = none;
  executed_at = none;
}

abbrev pub tables : AuthState
tables = record {
  accounts =
      member 2 (text "ada@x.org") UserRole.canvasser
      ∷ member 8 (text "bob@x.org") UserRole.admin
      ∷ member 9 (text "eve@x.org") UserRole.admin
      ∷ [];
  teams = [];
  campaigns = [];
  policies = [];
  system_settings = none;
  refresh_tokens = held_row ∷ [];
  activation_tokens = [];
  reset_tokens = mailed_row ∷ [];
  challenges = [];
  backup_codes = [];
  impersonations = [];
  recovery_cases = opened ∷ [];
  audit_logs = [];
  login_attempts = [];
  recovery_attempts = [];
}
