-- ===== src/Tests/VisitData.antt =====
-- The data of the visit tests: one household in the test turf, worked by the test canvasser.
use proactive.Base.{
  ℕ, ◌+◌, ◌-◌, ◌*◌, true, false, leb, ltb, Option, none, some, [], ◌∷◌, Text, text,
}
use proactive.Store.{
  Db, Address, OutcomeDefinition, VisitLog, TurfAssignment, AssignmentStatus, SyncStatus, GpsStatus,
  VisitResult, VisitSource, UserRole,
}
use proactive.Policies.{EffectivePolicy, PolicySourceScope}
use proactive.Visits.Platform.{Platform}
use proactive.Visits.Conflicts.{VisitInput}
use proactive.Visits.Correct.{CorrectionInput}
use proactive.Tests.Data.{defaults, database, organization_scope}

-- A platform on whole numbers, on which every place is at no distance from every other.
abbrev pub flat : Platform
flat = record {
  plus = λ a b. a + b;
  minus = λ a b. a - b;
  times = λ a b. a * b;
  over = λ a b. a;
  square = λ a. a * a;
  literal = λ s. 1;
  whole = λ a. a;
  decimal = λ a. a;
  pi = 3;
  sin = λ a. 0;
  cos = λ a. 1;
  sqrt = λ a. a;
  atan2 = λ a b. 0;
  round = λ a. a;
  at_most = leb;
  above = λ a b. ltb b a;
  is_truthy = λ a. ltb 0 a;
  shown = λ a. "5";
  sorts_before = λ a b. true;
}

abbrev pub household : Address
household = record {
  id = 40;
  turf_id = 10;
  organization_id = some 1;
  campaign_id = none;
  team_id = none;
  region_code = none;
  latitude = some 3;
  longitude = some 4;
  deleted_at = none;
  delete_reason = none;
  purge_at = none;
}

abbrev pub outcome_of : ℕ → Option ℕ → Text → OutcomeDefinition
outcome_of id campaign_id code = record {
  id = id;
  organization_id = some 1;
  campaign_id = campaign_id;
  code = code;
  label = code;
  requires_note = false;
  display_order = 0;
  is_active = true;
}

abbrev pub knocked : OutcomeDefinition
knocked = outcome_of 50 none (text "knocked")

abbrev pub knocked_in_campaign : OutcomeDefinition
knocked_in_campaign = outcome_of 51 (some 7) (text "knocked")

abbrev pub not_home : OutcomeDefinition
not_home = outcome_of 52 none (text "not_home")

abbrev pub assignment : TurfAssignment
assignment = record {
  id = 20;
  turf_id = 10;
  canvasser_id = 5;
  organization_id = some 1;
  campaign_id = none;
  team_id = none;
  region_code = none;
  assigned_by_user_id = some 1;
  assigned_at = 0;
  unassigned_at = none;
  reassignment_reason = none;
  status = AssignmentStatus.active;
}

abbrev pub field : Db
field = record database {
  addresses = household ∷ [];
  assignments = assignment ∷ [];
  outcomes = knocked_in_campaign ∷ knocked ∷ not_home ∷ [];
}

abbrev pub submission : VisitInput
submission = record {
  canvasser_id = 5;
  address_id = 40;
  session_id = none;
  outcome_code = text "knocked";
  notes = none;
  latitude = some 3;
  longitude = some 4;
  accuracy_meters = none;
  local_record_uuid = some 900;
  idempotency_key = none;
  client_created_at = none;
}

-- The row that the submission makes at time 1000.
abbrev pub first_visit : VisitLog
first_visit = record {
  id = 60;
  turf_id = 10;
  address_id = 40;
  session_id = none;
  canvasser_id = 5;
  organization_id = some 1;
  campaign_id = none;
  team_id = none;
  region_code = none;
  outcome_definition_id = some 50;
  visit_time = 1000;
  client_created_at = none;
  server_received_at = 1000;
  local_record_uuid = some 900;
  idempotency_key = none;
  sync_status = SyncStatus.synced;
  sync_conflict_flag = false;
  sync_conflict_reason = none;
  source = VisitSource.mobile_app;
  latitude = some 3;
  longitude = some 4;
  accuracy_meters = none;
  gps_status = GpsStatus.verified;
  result = VisitResult.knocked;
  outcome_code = text "knocked";
  outcome_label = text "knocked";
  contact_made = false;
  notes = none;
  van_exported = false;
  geofence_validated = true;
  geofence_distance_meters = none;
  deleted_at = none;
}

abbrev pub visited : Db
visited = record field { visits = first_visit ∷ [] }

abbrev pub correction : CorrectionInput
correction = record {
  visit_id = 60;
  actor_user_id = 5;
  actor_role = UserRole.canvasser;
  scope = organization_scope;
  outcome_code = text "not_home";
  notes = none;
  reason = text "typo";
}

abbrev pub default_policy : Option ℕ → EffectivePolicy
default_policy campaign_id = record {
  id = none;
  organization_id = some 1;
  campaign_id = campaign_id;
  source_scope = PolicySourceScope.default;
  explicit_record = false;
  inherited_from_organization = false;
  settings = defaults;
}
