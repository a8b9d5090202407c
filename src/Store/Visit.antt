-- ===== src/Store/Visit.antt =====
-- Visit outcomes, visits and the records that are kept beside a visit.
use proactive.Base.{ℕ, Bool, Option, Text, String}
use proactive.Store.Enums.{SyncStatus, GpsStatus, VisitResult, VisitSource}

pub record OutcomeDefinition : Type 0 where
  pub id : ℕ
  pub organization_id : Option ℕ
  pub campaign_id : Option ℕ
  pub code : Text
  pub label : Text
  pub requires_note : Bool
  pub display_order : ℕ
  pub is_active : Bool

pub record VisitLog : Type 0 where
  pub id : ℕ
  pub turf_id : ℕ
  pub address_id : ℕ
  pub session_id : Option ℕ
  pub canvasser_id : ℕ
  pub organization_id : Option ℕ
  pub campaign_id : Option ℕ
  pub team_id : Option ℕ
  pub region_code : Option Text
  pub outcome_definition_id : Option ℕ
  pub visit_time : ℕ
  pub client_created_at : Option ℕ
  pub server_received_at : ℕ
  pub local_record_uuid : Option ℕ
  pub idempotency_key : Option ℕ
  pub sync_status : SyncStatus
  pub sync_conflict_flag : Bool
  pub sync_conflict_reason : Option Text
  pub source : VisitSource
  pub latitude : Option ℕ
  pub longitude : Option ℕ
  pub accuracy_meters : Option ℕ
  pub gps_status : GpsStatus
  pub result : VisitResult
  pub outcome_code : Text
  pub outcome_label : Text
  pub contact_made : Bool
  pub notes : Option Text
  pub van_exported : Bool
  pub geofence_validated : Bool
  pub geofence_distance_meters : Option ℕ
  pub deleted_at : Option ℕ

pub record VisitGeofenceResult : Type 0 where
  pub visit_log_id : ℕ
  pub address_id : ℕ
  pub target_latitude : Option ℕ
  pub target_longitude : Option ℕ
  pub captured_latitude : Option ℕ
  pub captured_longitude : Option ℕ
  pub accuracy_meters : Option ℕ
  pub distance_from_target_feet : Option ℕ
  pub validation_radius_feet : ℕ
  pub gps_status : GpsStatus
  pub failure_reason : Option Text
  pub captured_at : Option ℕ
  pub override_flag : Bool

pub record SyncEvent : Type 0 where
  pub entity_type : String
  pub entity_id : ℕ
  pub local_record_uuid : Option ℕ
  pub idempotency_key : Option ℕ
  pub event_type : String
  pub sync_status : SyncStatus
  pub attempt_count : ℕ
  pub error_code : Option Text
  pub error_message : Option Text
  pub attempted_at : Option ℕ
  pub completed_at : Option ℕ

-- `buildCorrectionSnapshot`'s result.
pub record CorrectionSnapshot : Type 0 where
  pub outcome_definition_id : Option ℕ
  pub outcome_code : Text
  pub outcome_label : Text
  pub result : VisitResult
  pub notes : Option Text
  pub contact_made : Bool

pub record VisitCorrection : Type 0 where
  pub visit_log_id : ℕ
  pub actor_user_id : ℕ
  pub organization_id : Option ℕ
  pub campaign_id : Option ℕ
  pub reason_text : Text
  pub old_values : CorrectionSnapshot
  pub new_values : CorrectionSnapshot
