-- ===== src/Policies/Update.antt =====
-- backend/src/policies/policies.service.ts: the settings that an update asks for. A setting that
-- the request leaves out (`undefined`) is `none`; a retention period may also be `null`.
use Prim.Native.String
use proactive.Base.{
  ℕ, zero, suc, Bool, Option, none, some, Text, trim, is_blank, String, Result, ok, err,
  bad_request, if◌then◌else◌, leb, or_value, refuse, ◌>>=◌, ◌>>◌,
}
use proactive.Policies.Settings.{
  ImportMode, DuplicateStrategy, SupervisorScopeMode, PolicySettings, normalize_positive_integer,
}

pub record PolicyUpdateInput : Type 0 where
  pub default_import_profile_code : Option Text
  pub default_import_mode : Option ImportMode
  pub default_duplicate_strategy : Option DuplicateStrategy
  pub default_van_export_profile_code : Option Text
  pub default_internal_export_profile_code : Option Text
  pub sensitive_mfa_window_minutes : Option ℕ
  pub canvasser_correction_window_minutes : Option ℕ
  pub max_attempts_per_household : Option ℕ
  pub min_minutes_between_attempts : Option ℕ
  pub geofence_radius_feet : Option ℕ
  pub gps_low_accuracy_meters : Option ℕ
  pub refresh_token_ttl_days : Option ℕ
  pub activation_token_ttl_hours : Option ℕ
  pub password_reset_ttl_minutes : Option ℕ
  pub login_lockout_threshold : Option ℕ
  pub login_lockout_minutes : Option ℕ
  pub mfa_challenge_ttl_minutes : Option ℕ
  pub mfa_backup_code_count : Option ℕ
  pub retention_archive_days : Option (Option ℕ)
  pub retention_purge_days : Option (Option ℕ)
  pub require_archive_reason : Option Bool
  pub allow_org_outcome_fallback : Option Bool
  pub supervisor_scope_mode : Option SupervisorScopeMode

-- `value?.trim() || current`
unfoldable pub trimmed_or : Option Text → Text → Text
trimmed_or none current = current
trimmed_or (some value) current = if is_blank (trim value) then current else trim value

unfoldable pub sanitize_nullable_day_value : Option (Option ℕ) → String → Result (Option (Option ℕ))
sanitize_nullable_day_value none field_name = ok none
sanitize_nullable_day_value (some none) field_name = ok (some none)
sanitize_nullable_day_value (some (some zero)) field_name =
    err (bad_request (String.◌++◌ field_name " must be greater than zero or null"))
sanitize_nullable_day_value (some (some (suc n))) field_name = ok (some (some (suc n)))

-- `value === undefined ? current : normalizePositiveInteger(value, current, name)`
unfoldable pub chosen : Option ℕ → ℕ → String → Result ℕ
unfolding normalize_positive_integer
chosen none current field_name = ok current
chosen (some value) current field_name = normalize_positive_integer value field_name

-- `archiveDays && purgeDays && purgeDays <= archiveDays`, where 0 is false.
unfoldable pub purge_too_early : Option ℕ → Option ℕ → Bool
purge_too_early none _ = Bool.false
purge_too_early (some _) none = Bool.false
purge_too_early (some zero) (some _) = Bool.false
purge_too_early (some (suc _)) (some zero) = Bool.false
purge_too_early (some (suc archive)) (some (suc purge)) = leb (suc purge) (suc archive)

unfoldable pub next_settings : PolicySettings → PolicyUpdateInput → Result PolicySettings
unfolding trimmed_or sanitize_nullable_day_value
next_settings current input = do
  archive_days ← sanitize_nullable_day_value input.retention_archive_days "retentionArchiveDays"
  purge_days ← sanitize_nullable_day_value input.retention_purge_days "retentionPurgeDays"
  sensitive_mfa_window_minutes ←
      chosen input.sensitive_mfa_window_minutes current.sensitive_mfa_window_minutes
        "sensitiveMfaWindowMinutes"
  canvasser_correction_window_minutes ←
      chosen input.canvasser_correction_window_minutes current.canvasser_correction_window_minutes
        "canvasserCorrectionWindowMinutes"
  max_attempts_per_household ←
      chosen input.max_attempts_per_household current.max_attempts_per_household
        "maxAttemptsPerHousehold"
  min_minutes_between_attempts ←
      chosen input.min_minutes_between_attempts current.min_minutes_between_attempts
        "minMinutesBetweenAttempts"
  geofence_radius_feet ←
      chosen input.geofence_radius_feet current.geofence_radius_feet "geofenceRadiusFeet"
  gps_low_accuracy_meters ←
      chosen input.gps_low_accuracy_meters current.gps_low_accuracy_meters "gpsLowAccuracyMeters"
  refresh_token_ttl_days ←
      chosen input.refresh_token_ttl_days current.refresh_token_ttl_days "refreshTokenTtlDays"
  activation_token_ttl_hours ←
      chosen input.activation_token_ttl_hours current.activation_token_ttl_hours
        "activationTokenTtlHours"
  password_reset_ttl_minutes ←
      chosen input.password_reset_ttl_minutes current.password_reset_ttl_minutes
        "passwordResetTtlMinutes"
  login_lockout_threshold ←
      chosen input.login_lockout_threshold current.login_lockout_threshold "loginLockoutThreshold"
  login_lockout_minutes ←
      chosen input.login_lockout_minutes current.login_lockout_minutes "loginLockoutMinutes"
  mfa_challenge_ttl_minutes ←
      chosen input.mfa_challenge_ttl_minutes current.mfa_challenge_ttl_minutes
        "mfaChallengeTtlMinutes"
  mfa_backup_code_count ←
      chosen input.mfa_backup_code_count current.mfa_backup_code_count "mfaBackupCodeCount"
  let next_archive_days = or_value archive_days current.retention_archive_days
  let next_purge_days = or_value purge_days current.retention_purge_days
  refuse (purge_too_early next_archive_days next_purge_days)
      (bad_request "retentionPurgeDays must be greater than retentionArchiveDays")
  ok (record {
    default_import_profile_code =
        trimmed_or input.default_import_profile_code current.default_import_profile_code;
    default_import_mode = or_value input.default_import_mode current.default_import_mode;
    default_duplicate_strategy =
        or_value input.default_duplicate_strategy current.default_duplicate_strategy;
    default_van_export_profile_code =
        trimmed_or input.default_van_export_profile_code current.default_van_export_profile_code;
    default_internal_export_profile_code =
        trimmed_or input.default_internal_export_profile_code
          current.default_internal_export_profile_code;
    sensitive_mfa_window_minutes = sensitive_mfa_window_minutes;
    canvasser_correction_window_minutes = canvasser_correction_window_minutes;
    max_attempts_per_household = max_attempts_per_household;
    min_minutes_between_attempts = min_minutes_between_attempts;
    geofence_radius_feet = geofence_radius_feet;
    gps_low_accuracy_meters = gps_low_accuracy_meters;
    refresh_token_ttl_days = refresh_token_ttl_days;
    activation_token_ttl_hours = activation_token_ttl_hours;
    password_reset_ttl_minutes = password_reset_ttl_minutes;
    login_lockout_threshold = login_lockout_threshold;
    login_lockout_minutes = login_lockout_minutes;
    mfa_challenge_ttl_minutes = mfa_challenge_ttl_minutes;
    mfa_backup_code_count = mfa_backup_code_count;
    retention_archive_days = next_archive_days;
    retention_purge_days = next_purge_days;
    require_archive_reason = or_value input.require_archive_reason current.require_archive_reason;
    allow_org_outcome_fallback =
        or_value input.allow_org_outcome_fallback current.allow_org_outcome_fallback;
    supervisor_scope_mode = or_value input.supervisor_scope_mode current.supervisor_scope_mode;
  })
