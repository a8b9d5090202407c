-- ===== src/Auth/Records.antt =====
-- The models of backend/prisma/schema.prisma that sign-in and account recovery read and write, and
-- the state that the services keep in memory. Here a row of the table of users has its columns for
-- sign-in. Identifiers and times are numbers, as in Store.
use proactive.Base.{ℕ, Bool, Option, List, Text, String}
use proactive.Store.{UserRole, Team, Value}
use proactive.Policies.{Campaign, OperationalPolicy}

pub data MfaChallengePurpose : Type 0 where
  setup verify : MfaChallengePurpose

-- What puts a refresh token out of use: `REFRESH_TOKEN_REVOCATION_REASON`, and the recovery service.
pub data RevocationReason : Type 0 where
  logout password_reset reuse_detected rotated privileged_recovery : RevocationReason

pub record Account : Type 0 where
  pub id : ℕ
  pub first_name : Text
  pub last_name : Text
  pub email : Text
  pub password_hash : Text
  pub role : UserRole
  pub organization_id : Option ℕ
  pub campaign_id : Option ℕ
  pub team_id : Option ℕ
  pub region_code : Option Text
  pub is_active : Bool
  pub status : Text
  pub mfa_enabled : Bool
  pub mfa_secret : Option Text
  pub mfa_temp_secret : Option Text
  pub failed_login_attempts : ℕ
  pub locked_until : Option ℕ
  pub invited_at : Option ℕ
  pub activated_at : Option ℕ
  pub last_login_at : Option ℕ
  pub deleted_at : Option ℕ
  pub created_at : ℕ

pub record RefreshToken : Type 0 where
  pub id : ℕ
  pub user_id : ℕ
  pub token_hash : Text
  pub expires_at : ℕ
  pub revoked_at : Option ℕ
  pub revocation_reason : Option RevocationReason

-- A row of `ActivationToken` or of `PasswordResetToken`, two models of one shape.
pub record OneTimeToken : Type 0 where
  pub id : ℕ
  pub user_id : ℕ
  pub token_hash : Text
  pub expires_at : ℕ
  pub used_at : Option ℕ

pub record MfaChallenge : Type 0 where
  pub id : ℕ
  pub user_id : ℕ
  pub token_hash : Text
  pub purpose : MfaChallengePurpose
  pub expires_at : ℕ
  pub used_at : Option ℕ

pub record MfaBackupCode : Type 0 where
  pub id : ℕ
  pub user_id : ℕ
  pub code_hash : Text
  pub used_at : Option ℕ

pub record Impersonation : Type 0 where
  pub id : ℕ
  pub actor_user_id : ℕ
  pub target_user_id : ℕ
  pub organization_id : Option ℕ
  pub campaign_id : Option ℕ
  pub reason_text : Option Text
  pub started_at : ℕ
  pub ended_at : Option ℕ

pub data RecoveryType : Type 0 where
  help_desk_mfa_reset help_desk_account_recovery break_glass_account_recovery : RecoveryType

pub data RecoveryStatus : Type 0 where
  pending executed rejected expired : RecoveryStatus

pub data NotificationStatus : Type 0 where
  not_configured pending delivered failed : NotificationStatus

pub record RecoveryCase : Type 0 where
  pub id : ℕ
  pub organization_id : ℕ
  pub target_user_id : ℕ
  pub requested_by_user_id : ℕ
  pub reviewed_by_user_id : Option ℕ
  pub type : RecoveryType
  pub status : RecoveryStatus
  pub reason_text : Text
  pub review_reason : Option Text
  pub notification_status : NotificationStatus
  pub notification_error : Option String
  pub expires_at : ℕ
  pub created_at : ℕ
  pub reviewed_at : Option ℕ
  pub executed_at : Option ℕ

pub record SystemSettings : Type 0 where
  pub auth_rate_limit_window_minutes : ℕ
  pub auth_rate_limit_max_attempts : ℕ
  pub retention_job_enabled : Bool
  pub retention_job_interval_minutes : ℕ

-- An entry of the audit log; what it is about is a row or, for a failed login, an address.
pub data AuditSubject : Type 0 where
  row : ℕ → AuditSubject
  mail : Text → AuditSubject

pub record AuditEntry : Type 0 where
  pub actor_user_id : Option ℕ
  pub organization_id : Option ℕ
  pub action_type : String
  pub entity_type : String
  pub entity_id : AuditSubject
  pub reason_code : Option String
  pub reason_text : Option Text
  pub old_values : List (String × Value)
  pub new_values : List (String × Value)

-- An entry of a service's `Map` of attempts.
pub record Attempt : Type 0 where
  pub key : Text
  pub count : ℕ
  pub reset_at : ℕ

pub record AuthState : Type 0 where
  pub accounts : List Account
  pub teams : List Team
  pub campaigns : List Campaign
  pub policies : List OperationalPolicy
  pub system_settings : Option SystemSettings
  pub refresh_tokens : List RefreshToken
  pub activation_tokens : List OneTimeToken
  pub reset_tokens : List OneTimeToken
  pub challenges : List MfaChallenge
  pub backup_codes : List MfaBackupCode
  pub impersonations : List Impersonation
  pub recovery_cases : List RecoveryCase
  pub audit_logs : List AuditEntry
  pub login_attempts : List Attempt
  pub recovery_attempts : List Attempt
