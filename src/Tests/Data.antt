-- ===== src/Tests/Data.antt =====
-- The data of the tests: the defaults of the policy service, one organization and one turf.
use proactive.Base.{true, false, none, some, [], ◌∷◌, text, arith}
use proactive.Store.{Db, User, Turf, UserRole, TurfStatus}
use proactive.Access.{AccessScope}
use proactive.Policies.{PolicyStore, AccountScope}
use proactive.Policies.Settings.{
  PolicySettings, ImportMode, DuplicateStrategy, SupervisorScopeMode, IsPositive,
}
use proactive.Policies.Update.{PolicyUpdateInput}

abbrev pub defaults : PolicySettings
defaults = record {
  default_import_profile_code = text "van_standard";
  default_import_mode = ImportMode.replace_turf_membership;
  default_duplicate_strategy = DuplicateStrategy.skip;
  default_van_export_profile_code = text "van_compatible";
  default_internal_export_profile_code = text "internal_master";
  sensitive_mfa_window_minutes = 5;
  canvasser_correction_window_minutes = 10;
  max_attempts_per_household = 3;
  min_minutes_between_attempts = 5;
  geofence_radius_feet = 75;
  gps_low_accuracy_meters = 30;
  refresh_token_ttl_days = 14;
  activation_token_ttl_hours = 48;
  password_reset_ttl_minutes = 30;
  login_lockout_threshold = 5;
  login_lockout_minutes = 15;
  mfa_challenge_ttl_minutes = 10;
  mfa_backup_code_count = 10;
  retention_archive_days = none;
  retention_purge_days = none;
  require_archive_reason = false;
  allow_org_outcome_fallback = true;
  supervisor_scope_mode = SupervisorScopeMode.team;
}

pub defaults-IsPositive : IsPositive defaults
defaults-IsPositive = omega arith

-- An update of the limit on attempts and of the retention periods.
abbrev pub stricter : PolicyUpdateInput
stricter = record {
  default_import_profile_code = none;
  default_import_mode = some ImportMode.upsert;
  default_duplicate_strategy = none;
  default_van_export_profile_code = none;
  default_internal_export_profile_code = none;
  sensitive_mfa_window_minutes = none;
  canvasser_correction_window_minutes = none;
  max_attempts_per_household = some 2;
  min_minutes_between_attempts = none;
  geofence_radius_feet = none;
  gps_low_accuracy_meters = none;
  refresh_token_ttl_days = none;
  activation_token_ttl_hours = none;
  password_reset_ttl_minutes = none;
  login_lockout_threshold = none;
  login_lockout_minutes = none;
  mfa_challenge_ttl_minutes = none;
  mfa_backup_code_count = none;
  retention_archive_days = some (some 30);
  retention_purge_days = some (some 90);
  require_archive_reason = none;
  allow_org_outcome_fallback = none;
  supervisor_scope_mode = none;
}

abbrev pub policy_store : PolicyStore
policy_store = record { campaigns = record { id = 7; organization_id = 1 } ∷ []; policies = [] }

abbrev pub account : AccountScope
account = record { organization_id = some 1; campaign_id = none }

abbrev pub canvasser : User
canvasser = record {
  id = 5;
  role = UserRole.canvasser;
  organization_id = some 1;
  campaign_id = none;
  team_id = none;
  region_code = none;
  is_active = true;
  status = text "active";
  deleted_at = none;
}

abbrev pub turf : Turf
turf = record {
  id = 10;
  name = text "North";
  description = none;
  organization_id = some 1;
  campaign_id = none;
  team_id = none;
  region_code = none;
  status = TurfStatus.unassigned;
  is_shared = true;
  created_by_id = none;
  completed_at = none;
  completed_by_id = none;
  reopened_at = none;
  reopened_by_id = none;
  reopened_reason = none;
  deleted_at = none;
  delete_reason = none;
  archived_at = none;
  purge_at = none;
  created_at = 0;
}

abbrev pub database : Db
database = record {
  users = canvasser ∷ [];
  teams = [];
  turfs = turf ∷ [];
  assignments = [];
  sessions = [];
  addresses = [];
  address_requests = [];
  outcomes = [];
  visits = [];
  geofence_results = [];
  sync_events = [];
  corrections = [];
  audit_logs = [];
}

abbrev pub organization_scope : AccessScope
organization_scope = record {
  organization_id = some 1;
  campaign_id = none;
  team_id = none;
  region_code = none;
  role = some UserRole.admin;
}
