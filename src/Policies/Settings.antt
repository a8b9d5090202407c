-- ===== src/Policies/Settings.antt =====
-- backend/src/policies/policies.service.ts: the settings of a policy, as a record of the database
-- and as the service hands them out, and the normalisation between the two. Settings are whole
-- numbers by the schema and the request's validation; a number below zero is refused as 0 is, and
-- is 0 here.
use Prim.Native.String
use proactive.Base.{
  ℕ, zero, suc, ◌<◌, Bool, Option, Text, String, text, text_eq, Result, ok, err, bad_request,
  if◌then◌else◌, ◌>>=◌,
}

pub data ImportMode : Type 0 where
  create_only upsert replace_turf_membership : ImportMode

pub data DuplicateStrategy : Type 0 where
  skip error merge review : DuplicateStrategy

pub data SupervisorScopeMode : Type 0 where
  team region : SupervisorScopeMode

-- `Mode` and `Strategy` are texts in the database and enums in an effective policy.
pub record Settings (Mode Strategy : Type 0) : Type 0 where
  pub default_import_profile_code : Text
  pub default_import_mode : Mode
  pub default_duplicate_strategy : Strategy
  pub default_van_export_profile_code : Text
  pub default_internal_export_profile_code : Text
  pub sensitive_mfa_window_minutes : ℕ
  pub canvasser_correction_window_minutes : ℕ
  pub max_attempts_per_household : ℕ
  pub min_minutes_between_attempts : ℕ
  pub geofence_radius_feet : ℕ
  pub gps_low_accuracy_meters : ℕ
  pub refresh_token_ttl_days : ℕ
  pub activation_token_ttl_hours : ℕ
  pub password_reset_ttl_minutes : ℕ
  pub login_lockout_threshold : ℕ
  pub login_lockout_minutes : ℕ
  pub mfa_challenge_ttl_minutes : ℕ
  pub mfa_backup_code_count : ℕ
  pub retention_archive_days : Option ℕ
  pub retention_purge_days : Option ℕ
  pub require_archive_reason : Bool
  pub allow_org_outcome_fallback : Bool
  pub supervisor_scope_mode : SupervisorScopeMode

abbrev pub PolicySettings : Type 0
PolicySettings = Settings ImportMode DuplicateStrategy

abbrev pub StoredSettings : Type 0
StoredSettings = Settings Text Text

unfoldable pub normalize_duplicate_strategy : Text → DuplicateStrategy
normalize_duplicate_strategy value =
    if text_eq value (text "error")
    then DuplicateStrategy.error
    else if text_eq value (text "merge")
    then DuplicateStrategy.merge
    else if text_eq value (text "review")
    then DuplicateStrategy.review
    else DuplicateStrategy.skip

unfoldable pub normalize_import_mode : Text → ImportMode
normalize_import_mode value =
    if text_eq value (text "create_only")
    then ImportMode.create_only
    else if text_eq value (text "upsert")
    then ImportMode.upsert
    else ImportMode.replace_turf_membership

-- The text that stands for an enum in the database.
unfoldable pub strategy_name : DuplicateStrategy → Text
strategy_name DuplicateStrategy.skip = text "skip"
strategy_name DuplicateStrategy.error = text "error"
strategy_name DuplicateStrategy.merge = text "merge"
strategy_name DuplicateStrategy.review = text "review"

unfoldable pub mode_name : ImportMode → Text
mode_name ImportMode.create_only = text "create_only"
mode_name ImportMode.upsert = text "upsert"
mode_name ImportMode.replace_turf_membership = text "replace_turf_membership"

unfoldable pub normalize_positive_integer : ℕ → String → Result ℕ
normalize_positive_integer zero field_name =
    err (bad_request (String.◌++◌ field_name " must be greater than zero"))
normalize_positive_integer (suc n) field_name = ok (suc n)

-- The settings as they are written to a record.
unfoldable pub stored : PolicySettings → StoredSettings
unfolding mode_name strategy_name
stored s = record {
  default_import_profile_code = s.default_import_profile_code;
  default_import_mode = mode_name s.default_import_mode;
  default_duplicate_strategy = strategy_name s.default_duplicate_strategy;
  default_van_export_profile_code = s.default_van_export_profile_code;
  default_internal_export_profile_code = s.default_internal_export_profile_code;
  sensitive_mfa_window_minutes = s.sensitive_mfa_window_minutes;
  canvasser_correction_window_minutes = s.canvasser_correction_window_minutes;
  max_attempts_per_household = s.max_attempts_per_household;
  min_minutes_between_attempts = s.min_minutes_between_attempts;
  geofence_radius_feet = s.geofence_radius_feet;
  gps_low_accuracy_meters = s.gps_low_accuracy_meters;
  refresh_token_ttl_days = s.refresh_token_ttl_days;
  activation_token_ttl_hours = s.activation_token_ttl_hours;
  password_reset_ttl_minutes = s.password_reset_ttl_minutes;
  login_lockout_threshold = s.login_lockout_threshold;
  login_lockout_minutes = s.login_lockout_minutes;
  mfa_challenge_ttl_minutes = s.mfa_challenge_ttl_minutes;
  mfa_backup_code_count = s.mfa_backup_code_count;
  retention_archive_days = s.retention_archive_days;
  retention_purge_days = s.retention_purge_days;
  require_archive_reason = s.require_archive_reason;
  allow_org_outcome_fallback = s.allow_org_outcome_fallback;
  supervisor_scope_mode = s.supervisor_scope_mode;
}

-- `mergePolicyRecord` for a record that is there: all settings are the record's, normalised.
unfoldable pub normalized : StoredSettings → Result PolicySettings
unfolding normalize_positive_integer normalize_import_mode normalize_duplicate_strategy
normalized r = do
  sensitive_mfa_window_minutes ←
      normalize_positive_integer r.sensitive_mfa_window_minutes "sensitiveMfaWindowMinutes"
  canvasser_correction_window_minutes ←
      normalize_positive_integer r.canvasser_correction_window_minutes
        "canvasserCorrectionWindowMinutes"
  max_attempts_per_household ←
      normalize_positive_integer r.max_attempts_per_household "maxAttemptsPerHousehold"
  min_minutes_between_attempts ←
      normalize_positive_integer r.min_minutes_between_attempts "minMinutesBetweenAttempts"
  geofence_radius_feet ← normalize_positive_integer r.geofence_radius_feet "geofenceRadiusFeet"
  gps_low_accuracy_meters ←
      normalize_positive_integer r.gps_low_accuracy_meters "gpsLowAccuracyMeters"
  refresh_token_ttl_days ← normalize_positive_integer r.refresh_token_ttl_days "refreshTokenTtlDays"
  activation_token_ttl_hours ←
      normalize_positive_integer r.activation_token_ttl_hours "activationTokenTtlHours"
  password_reset_ttl_minutes ←
      normalize_positive_integer r.password_reset_ttl_minutes "passwordResetTtlMinutes"
  login_lockout_threshold ←
      normalize_positive_integer r.login_lockout_threshold "loginLockoutThreshold"
  login_lockout_minutes ← normalize_positive_integer r.login_lockout_minutes "loginLockoutMinutes"
  mfa_challenge_ttl_minutes ←
      normalize_positive_integer r.mfa_challenge_ttl_minutes "mfaChallengeTtlMinutes"
  mfa_backup_code_count ← normalize_positive_integer r.mfa_backup_code_count "mfaBackupCodeCount"
  ok (record {
    default_import_profile_code = r.default_import_profile_code;
    default_import_mode = normalize_import_mode r.default_import_mode;
    default_duplicate_strategy = normalize_duplicate_strategy r.default_duplicate_strategy;
    default_van_export_profile_code = r.default_van_export_profile_code;
    default_internal_export_profile_code = r.default_internal_export_profile_code;
    sensitive_mfa_window_minutes = sensitive_mfa_window_minutes;
    canvasser_correction_window_minutes = canvasser_correction_window_minutes;
    max_attempts_per_household = max_attempts_per_household;
    min_minutes_between_attempts = min_minutes_between_attempts;
    geofence_radius_feet = geofence_radius_feet;
    gps_low_accuracy_meters = gps_low_accuracy_meters;
    refresh_token_ttl_days = refresh_token_ttl_days;
    activation_token_ttl_hours = activation_token_ttl_hours;
    password_reset_ttl_minutes = password_reset_ttl_minutes;
    login_lockout_threshold = login_lockout_threshold;
    login_lockout_minutes = login_lockout_minutes;
    mfa_challenge_ttl_minutes = mfa_challenge_ttl_minutes;
    mfa_backup_code_count = mfa_backup_code_count;
    retention_archive_days = r.retention_archive_days;
    retention_purge_days = r.retention_purge_days;
    require_archive_reason = r.require_archive_reason;
    allow_org_outcome_fallback = r.allow_org_outcome_fallback;
    supervisor_scope_mode = r.supervisor_scope_mode;
  })

-- Every limit, window and lifetime of the settings is at least 1.
pub record IsPositive (s : PolicySettings) : Type 0 where
  pub sensitive_mfa_window_minutes : 0 < s.sensitive_mfa_window_minutes
  pub canvasser_correction_window_minutes : 0 < s.canvasser_correction_window_minutes
  pub max_attempts_per_household : 0 < s.max_attempts_per_household
  pub min_minutes_between_attempts : 0 < s.min_minutes_between_attempts
  pub geofence_radius_feet : 0 < s.geofence_radius_feet
  pub gps_low_accuracy_meters : 0 < s.gps_low_accuracy_meters
  pub refresh_token_ttl_days : 0 < s.refresh_token_ttl_days
  pub activation_token_ttl_hours : 0 < s.activation_token_ttl_hours
  pub password_reset_ttl_minutes : 0 < s.password_reset_ttl_minutes
  pub login_lockout_threshold : 0 < s.login_lockout_threshold
  pub login_lockout_minutes : 0 < s.login_lockout_minutes
  pub mfa_challenge_ttl_minutes : 0 < s.mfa_challenge_ttl_minutes
  pub mfa_backup_code_count : 0 < s.mfa_backup_code_count
