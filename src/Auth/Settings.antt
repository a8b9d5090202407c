-- ===== src/Auth/Settings.antt =====
-- backend/src/system-settings/system-settings.service.ts. Settings are whole numbers by the schema
-- and the request's validation; a number below zero is refused as 0 is, and is 0 here.
use Prim.Native.String
use proactive.Base.{
  ℕ, zero, suc, Bool, Option, none, some, String, Result, ok, err, bad_request, ◌>>=◌,
}
use proactive.Auth.Records.{SystemSettings}

unfoldable pub normalize_positive_setting : ℕ → String → Result ℕ
normalize_positive_setting zero field_name =
    err (bad_request (String.◌++◌ field_name " must be greater than zero"))
normalize_positive_setting (suc n) field_name = ok (suc n)

-- `defaults` is what `getDefaultSettings` makes of the environment.
unfoldable pub get_effective_settings :
    SystemSettings → Option SystemSettings → Result SystemSettings
unfolding normalize_positive_setting
get_effective_settings defaults none = ok defaults
get_effective_settings defaults (some r) = do
  window ← normalize_positive_setting r.auth_rate_limit_window_minutes "authRateLimitWindowMinutes"
  attempts ← normalize_positive_setting r.auth_rate_limit_max_attempts "authRateLimitMaxAttempts"
  interval ←
      normalize_positive_setting r.retention_job_interval_minutes "retentionJobIntervalMinutes"
  ok (record {
    auth_rate_limit_window_minutes = window;
    auth_rate_limit_max_attempts = attempts;
    retention_job_enabled = r.retention_job_enabled;
    retention_job_interval_minutes = interval;
  })

-- A field of the input that is left out is `none`.
pub record SystemSettingsInput : Type 0 where
  pub auth_rate_limit_window_minutes : Option ℕ
  pub auth_rate_limit_max_attempts : Option ℕ
  pub retention_job_enabled : Option Bool
  pub retention_job_interval_minutes : Option ℕ

unfoldable pub chosen_number : Option ℕ → ℕ → String → Result ℕ
unfolding normalize_positive_setting
chosen_number none current field_name = ok current
chosen_number (some n) current field_name = normalize_positive_setting n field_name

abbrev pub chosen_flag : Option Bool → Bool → Bool
chosen_flag none current = current
chosen_flag (some b) current = b

-- `upsertSettings` up to its write, which puts the settings in the one record of the table.
unfoldable pub next_system_settings :
    SystemSettings → Option SystemSettings → SystemSettingsInput → Result SystemSettings
unfolding get_effective_settings chosen_number
next_system_settings defaults stored input = do
  current ← get_effective_settings defaults stored
  window ←
      chosen_number input.auth_rate_limit_window_minutes current.auth_rate_limit_window_minutes
        "authRateLimitWindowMinutes"
  attempts ←
      chosen_number input.auth_rate_limit_max_attempts current.auth_rate_limit_max_attempts
        "authRateLimitMaxAttempts"
  interval ←
      chosen_number input.retention_job_interval_minutes current.retention_job_interval_minutes
        "retentionJobIntervalMinutes"
  ok (record {
    auth_rate_limit_window_minutes = window;
    auth_rate_limit_max_attempts = attempts;
    retention_job_enabled = chosen_flag input.retention_job_enabled current.retention_job_enabled;
    retention_job_interval_minutes = interval;
  })

unfoldable pub upsert_settings :
    SystemSettings
    → Option SystemSettings
    → SystemSettingsInput
    → Result (Option SystemSettings × SystemSettings)
unfolding next_system_settings
upsert_settings defaults stored input = do
  next ← next_system_settings defaults stored input
  effective ← get_effective_settings defaults (some next)
  ok (some next, effective)

unfoldable pub clear_settings : SystemSettings → Result (Option SystemSettings × SystemSettings)
clear_settings defaults = do effective ← get_effective_settings defaults none; ok (none, effective)
