-- ===== src/Visits/Conflicts.antt =====
-- `visitMatchesIncomingSubmission`, `markExistingVisitConflict` and `createConflictVisit` of
-- backend/src/visits/visits.service.ts, and the rows that these and `logVisit` write.
use proactive.Base.{
  ◌>>=◌, ℕ, Bool, true, false, not, ◌&&◌, ◌||◌, ◌==◌, Option, none, some, List, [], ◌∷◌, String,
  Text, text, text_eq, trimmed_option, non_empty, same_id, same_text, is_null, any, or_else,
  update_where, if◌then◌else◌, Result, ok, err, unique_violation, record_missing,
}
use proactive.Store.{
  Db, Turf, Address, OutcomeDefinition, VisitLog, VisitGeofenceResult, SyncEvent, AuditLog, Value,
  null, id_of, text_of, flag_of, word, SyncStatus, VisitSource,
}
use proactive.Visits.Platform.{Platform}
use proactive.Visits.Outcomes.{normalize_legacy_result}
use proactive.Visits.Geofence.{GpsResult}

-- The request. An empty identifier counts as none, and the time of the client has been read.
pub record VisitInput : Type 0 where
  pub canvasser_id : ℕ
  pub address_id : ℕ
  pub session_id : Option ℕ
  pub outcome_code : Text
  pub notes : Option Text
  pub latitude : Option ℕ
  pub longitude : Option ℕ
  pub accuracy_meters : Option ℕ
  pub local_record_uuid : Option ℕ
  pub idempotency_key : Option ℕ
  pub client_created_at : Option ℕ

-- What the checks of `logVisit` have found when they let the visit through.
pub record Checked : Type 0 where
  pub address : Address
  pub turf : Turf
  pub outcome : OutcomeDefinition
  pub gps : GpsResult
  pub radius_feet : ℕ
  pub by_local_record : Option VisitLog
  pub by_key : Option VisitLog

abbrev pub normalize_optional_text : Option Text → Option Text
normalize_optional_text value = non_empty (trimmed_option value)

unfoldable pub visit_matches_incoming_submission : VisitLog → VisitInput → Checked → Option ℕ → Bool
visit_matches_incoming_submission existing input c session_id =
    existing.canvasser_id == input.canvasser_id
    && existing.turf_id == c.address.turf_id
    && existing.address_id == c.address.id
    && same_id existing.session_id session_id
    && text_eq existing.outcome_code c.outcome.code
    && same_text existing.notes (normalize_optional_text input.notes)
    && same_id existing.client_created_at input.client_created_at

abbrev pub optional_identifier : Option ℕ → Value
optional_identifier none = null
optional_identifier (some n) = id_of n

abbrev pub log_visit_entry :
    ℕ → String → ℕ → Option Text → Option Text → List (String × Value) → AuditLog
log_visit_entry actor action visit_id reason_code reason_text new_values = record {
  actor_user_id = some actor;
  organization_id = none;
  action_type = action;
  entity_type = "visit_log";
  entity_id = visit_id;
  reason_code = reason_code;
  reason_text = reason_text;
  old_values = [];
  new_values = new_values;
}

abbrev pub sync_event :
    ℕ → ℕ → VisitInput → String → SyncStatus → Option Text → Option Text → SyncEvent
sync_event now visit_id input event_type status error_code error_message = record {
  entity_type = "visit_log";
  entity_id = visit_id;
  local_record_uuid = input.local_record_uuid;
  idempotency_key = input.idempotency_key;
  event_type = event_type;
  sync_status = status;
  attempt_count = 1;
  error_code = error_code;
  error_message = error_message;
  attempted_at = some now;
  completed_at = some now;
}

abbrev pub marked : Text → VisitLog → VisitLog
marked reason v = record v {
  sync_status = SyncStatus.conflict;
  sync_conflict_flag = true;
  sync_conflict_reason = some reason;
}

unfoldable pub mark_existing_visit_conflict : ℕ → ℕ → VisitInput → Text → Text → Db → Db
mark_existing_visit_conflict now visit_id input reason message db = record db {
  visits = update_where (λ v. v.id == visit_id) (marked reason) db.visits;
  sync_events =
      sync_event now visit_id input "duplicate_payload_conflict" SyncStatus.conflict (some reason)
        (some message)
      ∷ db.sync_events;
  audit_logs =
      log_visit_entry input.canvasser_id "visit_sync_conflict_detected" visit_id (some reason)
        (some message)
        (("syncStatus", word "conflict")
          ∷ ("syncConflictFlag", flag_of true)
          ∷ ("syncConflictReason", text_of reason)
          ∷ ("localRecordUuid", optional_identifier input.local_record_uuid)
          ∷ ("idempotencyKey", optional_identifier input.idempotency_key)
          ∷ [])
      ∷ db.audit_logs;
}

-- An identifier, a local record and an idempotency key are unique where they are given.
abbrev pub clashes : Option ℕ → Option ℕ → Bool
clashes none b = false
clashes (some a) b = same_id b (some a)

abbrev pub is_taken : VisitLog → VisitLog → Bool
is_taken row v =
    v.id == row.id
    || clashes row.local_record_uuid v.local_record_uuid
    || clashes row.idempotency_key v.idempotency_key

-- A session that is named must be there (a foreign key).
abbrev pub lacks_session : Db → VisitLog → Bool
lacks_session db row =
    not (is_null row.session_id) && not (any (λ s. same_id (some s.id) row.session_id) db.sessions)

unfoldable pub create_visit : Db → VisitLog → Result Db
create_visit db row =
    if any (is_taken row) db.visits
    then err (unique_violation "visit_logs")
    else if lacks_session db row
    then err (record_missing "turf_sessions")
    else ok (record db { visits = row ∷ db.visits })

-- `geofenceDistanceMeters ? Math.round(geofenceDistanceMeters) : undefined`
abbrev pub rounded : Platform → Option ℕ → Option ℕ
rounded p none = none
rounded p (some meters) = if p.is_truthy meters then some (p.round meters) else none

-- The row of a visit; the two callers differ in the session, the notes and the sync status.
unfoldable pub visit_row :
    Platform
    → ℕ
    → ℕ
    → VisitInput
    → Checked
    → Option ℕ
    → Option Text
    → SyncStatus
    → Option Text
    → VisitLog
unfolding normalize_legacy_result
visit_row p now new_id input c session_id notes sync_status conflict_reason = record {
  id = new_id;
  turf_id = c.address.turf_id;
  address_id = c.address.id;
  session_id = session_id;
  canvasser_id = input.canvasser_id;
  organization_id = or_else c.address.organization_id c.turf.organization_id;
  campaign_id = or_else c.address.campaign_id c.turf.campaign_id;
  team_id = or_else c.address.team_id c.turf.team_id;
  region_code = or_else c.address.region_code c.turf.region_code;
  outcome_definition_id = some c.outcome.id;
  visit_time = now;
  client_created_at = input.client_created_at;
  server_received_at = now;
  local_record_uuid = input.local_record_uuid;
  idempotency_key = input.idempotency_key;
  sync_status = sync_status;
  sync_conflict_flag = not (is_null conflict_reason);
  sync_conflict_reason = conflict_reason;
  source = VisitSource.mobile_app;
  latitude = input.latitude;
  longitude = input.longitude;
  accuracy_meters = input.accuracy_meters;
  gps_status = c.gps.gps_status;
  result = normalize_legacy_result c.outcome.code;
  outcome_code = c.outcome.code;
  outcome_label = c.outcome.label;
  contact_made = text_eq c.outcome.code (text "talked_to_voter");
  notes = notes;
  van_exported = false;
  geofence_validated = c.gps.geofence_validated;
  geofence_distance_meters = rounded p c.gps.geofence_distance_meters;
  deleted_at = none;
}

abbrev pub or_now : Option ℕ → ℕ → ℕ
or_now none now = now
or_now (some t) now = t

unfoldable pub geofence_row : ℕ → ℕ → VisitInput → Checked → Option Text → VisitGeofenceResult
geofence_row now visit_id input c failure_reason = record {
  visit_log_id = visit_id;
  address_id = c.address.id;
  target_latitude = c.address.latitude;
  target_longitude = c.address.longitude;
  captured_latitude = input.latitude;
  captured_longitude = input.longitude;
  accuracy_meters = input.accuracy_meters;
  distance_from_target_feet = c.gps.distance_from_target_feet;
  validation_radius_feet = c.radius_feet;
  gps_status = c.gps.gps_status;
  failure_reason = failure_reason;
  captured_at = some (or_now input.client_created_at now);
  override_flag = false;
}

unfoldable pub create_conflict_visit :
    Platform → ℕ → ℕ → VisitInput → Checked → Text → Text → Db → Result (Db × VisitLog)
unfolding create_visit visit_row geofence_row
create_conflict_visit p now new_id input c reason message db = do
  let visit =
      visit_row p now new_id input c input.session_id input.notes SyncStatus.conflict (some reason)
  created ← create_visit db visit
  ok (
    record created {
      geofence_results =
          geofence_row now visit.id input c (or_else c.gps.failure_reason (some reason))
          ∷ db.geofence_results;
      sync_events =
          sync_event now visit.id input "ingest_conflict" SyncStatus.conflict (some reason)
            (some message)
          ∷ db.sync_events;
      audit_logs =
          log_visit_entry input.canvasser_id "visit_sync_conflict_detected" visit.id (some reason)
            (some message)
            (("addressId", id_of c.address.id)
              ∷ ("turfId", id_of c.address.turf_id)
              ∷ ("localRecordUuid", optional_identifier input.local_record_uuid)
              ∷ ("idempotencyKey", optional_identifier input.idempotency_key)
              ∷ ("syncStatus", word "conflict")
              ∷ ("syncConflictReason", text_of reason)
              ∷ [])
          ∷ db.audit_logs;
    },
    visit,
  )
