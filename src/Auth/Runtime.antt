-- ===== src/Auth/Runtime.antt =====
-- What sign-in takes from outside the repository, the moment of a call, and the durations of
-- backend/src/auth/auth.service.ts.
use proactive.Base.{ℕ, ◌+◌, ◌*◌, Bool, Option, List, Text}
use proactive.Store.{UserRole}
use proactive.Policies.Settings.{PolicySettings}
use proactive.Auth.Records.{SystemSettings}

-- The claims that an admin's token carries while it acts for another account.
pub record Impersonator : Type 0 where
  pub session_id : ℕ
  pub user_id : ℕ
  pub email : Text
  pub role : UserRole
  pub name : Text
  pub started_at : ℕ
  pub reason_text : Option Text

pub record JwtPayload : Type 0 where
  pub sub : ℕ
  pub email : Text
  pub role : UserRole
  pub organization_id : Option ℕ
  pub campaign_id : Option ℕ
  pub team_id : Option ℕ
  pub mfa_verified_at : Option ℕ
  pub impersonator : Option Impersonator

-- ECMAScript's case mappings, the text of an identifier, node:crypto, bcrypt, the JWT service, the
-- settings that the environment gives, and the recovery service's webhook.
pub record Runtime : Type 0 where
  pub to_lower_case : Text → Text
  pub to_upper_case : Text → Text
  pub id_text : ℕ → Text
  pub hash_token : Text → Text
  pub hmac_sha1 : List ℕ → List ℕ → List ℕ
  pub hash_password : ℕ → Text → Text
  pub compare_password : Text → Text → Bool
  pub sign : JwtPayload → Text
  pub encode_uri_component : Text → Text
  pub mfa_issuer : Text
  pub expose_reset_tokens : Bool
  pub default_policy : PolicySettings
  pub default_settings : SystemSettings
  pub has_webhook : Bool
  pub break_glass_enabled : Bool
  pub recovery_max_attempts : ℕ
  pub recovery_window_minutes : ℕ
  pub recovery_case_ttl_minutes : ℕ

-- The clock, taken once a call, and what the call draws at random or gets from the database: the
-- identifiers of new rows, an opaque token, the bytes of a secret, backup codes and the salt of a
-- password. `delivered` tells whether the webhook answers with success.
pub record Moment : Type 0 where
  pub now : ℕ
  pub new_id : ℕ
  pub token : Text
  pub challenge : Text
  pub secret_bytes : List ℕ
  pub backup_code : ℕ → Text
  pub code_id : ℕ → ℕ
  pub salt : ℕ
  pub delivered : Bool

abbrev pub days_from_now : Moment → ℕ → ℕ
days_from_now m days = m.now + days * 24 * 60 * 60 * 1000

abbrev pub hours_from_now : Moment → ℕ → ℕ
hours_from_now m hours = m.now + hours * 60 * 60 * 1000

abbrev pub minutes_from_now : Moment → ℕ → ℕ
minutes_from_now m minutes = m.now + minutes * 60 * 1000

-- `REFRESH_TOKEN_ROTATION_GRACE_MS`
abbrev pub rotation_grace : ℕ
rotation_grace = 10_000
