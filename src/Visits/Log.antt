-- ===== src/Visits/Log.antt =====
-- `logVisit` of backend/src/visits/visits.service.ts. It answers with the database as well: a
-- conflict is recorded in a transaction of its own, and thrown after it. `now` is the clock's
-- reading, one for a call, and `new_id` the identifier that the database makes for a new visit.
use Prim.Native.String
use proactive.Base.{
  ◌>>=◌, ◌>>◌, ℕ, Bool, false, not, ◌&&◌, ◌||◌, ◌==◌, ◌*◌, ◌+◌, Option, none, some, List, [], ◌∷◌,
  Text, text, or_value, or_else, is_null, any, count, find_first, find_latest, leb, ltb,
  if◌then◌else◌, Result, ok, err, Failure, bad_request, record_missing, conflict, found, refuse,
}
use proactive.Store.{
  Db, Address, VisitLog, id_of, word, text_of, SyncStatus, is_conflict, result_name, gps_name,
  sync_name,
}
use proactive.Policies.{OperationalPolicy, get_effective_policy}
use proactive.Policies.Settings.{PolicySettings}
use proactive.Turfs.Guards.{is_held, is_open}
use proactive.Visits.Platform.{Platform}
use proactive.Visits.Outcomes.{find_scoped_outcome_definition}
use proactive.Visits.Geofence.{check_geofence}
use proactive.Visits.Conflicts.{
  VisitInput, Checked, normalize_optional_text, visit_matches_incoming_submission,
  mark_existing_visit_conflict, create_visit, create_conflict_visit, visit_row, geofence_row,
  sync_event, log_visit_entry, optional_identifier,
}

-- `findUnique` by an identifier, if the request has it.
abbrev pub find_by : (VisitLog → Option ℕ) → Option ℕ → List VisitLog → Option VisitLog
find_by key none rows = none
find_by key (some wanted) rows =
    find_first (λ v. elim (key v) [ none ↦ false | some k ↦ k == wanted ]) rows

abbrev pub is_conflicted : VisitLog → Bool
is_conflicted v = is_conflict v.sync_status || v.sync_conflict_flag

-- A visit that is known and in conflict is not taken again.
unfoldable pub refuse_conflicted : Option VisitLog → VisitInput → Result (Unit {0})
refuse_conflicted none input = ok tt
refuse_conflicted (some v) input = refuse (is_conflicted v) (
    conflict
      (or_value v.sync_conflict_reason (text "This visit requires admin review before it can sync"))
      (or_value v.sync_conflict_reason (text "existing_conflict")) (some v.id)
      (or_else v.local_record_uuid input.local_record_uuid)
      (or_else v.idempotency_key input.idempotency_key))

-- An attempt on the household counts unless it is deleted or in conflict.
abbrev pub is_attempt : Address → VisitLog → Bool
is_attempt address v =
    v.turf_id == address.turf_id
    && v.address_id == address.id
    && is_null v.deleted_at
    && not (is_conflict v.sync_status)

abbrev pub attempts : Address → List VisitLog → ℕ
attempts address rows = count (is_attempt address) rows

abbrev pub previous_visit : Address → ℕ → List VisitLog → Option VisitLog
previous_visit address canvasser_id rows =
    find_latest (λ v. v.visit_time) (λ v. is_attempt address v && v.canvasser_id == canvasser_id)
      rows

-- `Date.now() - visitTime < minutes * 60 * 1000`
abbrev pub too_soon : ℕ → ℕ → Option VisitLog → Bool
too_soon now minutes none = false
too_soon now minutes (some v) = ltb now (v.visit_time + minutes * 60 * 1000)

abbrev pub conflict_error : VisitInput → ℕ → Text → Text → Failure
conflict_error input visit_id reason message =
    conflict message reason (some visit_id) input.local_record_uuid input.idempotency_key

abbrev pub mismatch_message : Text
mismatch_message =
    text
      "This queued visit does not match the previously synced submission with the same local identifier."

-- The session that a visit is logged in when the request names none.
abbrev pub current_session : Db → ℕ → ℕ → Option ℕ
current_session db canvasser_id turf_id =
    elim (find_latest (λ s. s.start_time)
      (λ s. s.canvasser_id == canvasser_id && s.turf_id == turf_id && is_open s) db.sessions) [
        | none ↦ none
        | some s ↦ some s.id
      ]

module _ (platform : Platform) (defaults : PolicySettings) (policies : List OperationalPolicy)
    (now : ℕ) where
  -- What `logVisit` reads and refuses before it looks at the assignment.
  unfoldable pub checked : VisitInput → Db → Result Checked
  checked input db = do
    let by_local_record = find_by (λ v. v.local_record_uuid) input.local_record_uuid db.visits
    let by_key = find_by (λ v. v.idempotency_key) input.idempotency_key db.visits
    refuse_conflicted by_local_record input
    refuse_conflicted by_key input
    address ←
        found (find_first (λ a. a.id == input.address_id) db.addresses)
          (bad_request "Address not found")
    turf ← found (find_first (λ t. t.id == address.turf_id) db.turfs) (record_missing "turfs")
    refuse (not (is_null address.deleted_at)) (bad_request "Address not found")
    definition ←
        find_scoped_outcome_definition platform defaults policies address.organization_id
          (or_else address.campaign_id turf.campaign_id) input.outcome_code db
    outcome ← found definition (bad_request "Visit outcome is not recognized")
    refuse (outcome.requires_note && is_null (normalize_optional_text input.notes))
        (bad_request "Notes are required for the selected visit outcome")
    policy ←
        get_effective_policy defaults policies
          (or_else address.organization_id turf.organization_id)
          (or_else address.campaign_id turf.campaign_id)
    refuse (leb policy.settings.max_attempts_per_household (attempts address db.visits))
        (bad_request "This household has reached the maximum attempts for this turf cycle")
    refuse
        (too_soon now policy.settings.min_minutes_between_attempts
          (previous_visit address input.canvasser_id db.visits))
        (bad_request (
          String.◌++◌
            (String.◌++◌ "Please wait "
              (platform.shown policy.settings.min_minutes_between_attempts))
            " minutes before logging another attempt for this household"))
    ok (record {
      address = address;
      turf = turf;
      outcome = outcome;
      gps =
          check_geofence platform policy.settings.geofence_radius_feet input.latitude
            input.longitude input.accuracy_meters policy.settings.gps_low_accuracy_meters
            address.latitude address.longitude;
      radius_feet = policy.settings.geofence_radius_feet;
      by_local_record = by_local_record;
      by_key = by_key;
    })

module _ (platform : Platform) (now new_id : ℕ) (input : VisitInput) (c : Checked) where
  -- `createConflictVisit`, and the error that is thrown after it.
  unfoldable pub rejected : Text → Text → Db → Result (Db × VisitLog) → Db × Result VisitLog
  rejected reason message db (err e) = (db, err e)
  rejected reason message db (ok (after, visit)) =
      (after, err (conflict_error input visit.id reason message))

  unfoldable pub conflicted : Text → Text → Db → Db × Result VisitLog
  unfolding rejected
  conflicted reason message db =
      rejected reason message db
        (create_conflict_visit platform now new_id input c reason message db)

  -- The transaction that stores a visit, once its row is created.
  unfoldable pub accepted : VisitLog → Db → Result Db → Db × Result VisitLog
  accepted visit db (err e) = (db, err e)
  accepted visit db (ok created) = (
    record created {
      geofence_results =
          geofence_row now visit.id input c c.gps.failure_reason ∷ db.geofence_results;
      sync_events =
          sync_event now visit.id input "ingest" SyncStatus.synced none none ∷ db.sync_events;
      audit_logs =
          log_visit_entry input.canvasser_id "visit_created" visit.id none none (
            ("addressId", id_of c.address.id)
            ∷ ("turfId", id_of c.address.turf_id)
            ∷ ("result", word (result_name visit.result))
            ∷ ("outcomeCode", text_of visit.outcome_code)
            ∷ ("outcomeLabel", text_of visit.outcome_label)
            ∷ ("gpsStatus", word (gps_name visit.gps_status))
            ∷ ("syncStatus", word (sync_name visit.sync_status))
            ∷ ("localRecordUuid", optional_identifier visit.local_record_uuid)
            ∷ ("idempotencyKey", optional_identifier visit.idempotency_key)
            ∷ [])
          ∷ db.audit_logs;
    },
    ok visit,
  )

  unfoldable pub create_synced : Option ℕ → Db → Db × Result VisitLog
  unfolding accepted
  create_synced session_id db =
      let visit =
        visit_row platform now new_id input c session_id (normalize_optional_text input.notes)
          SyncStatus.synced none in
      accepted visit db (create_visit db visit)

  -- A visit with a known identifier: the same submission, or another under the same identifier.
  unfoldable pub settle_duplicate : VisitLog → Option ℕ → Text → Db → Db × Result VisitLog
  settle_duplicate existing session_id reason db =
      if visit_matches_incoming_submission existing input c session_id then (db, ok existing) else (
        mark_existing_visit_conflict now existing.id input reason mismatch_message db,
        err (conflict_error input existing.id reason mismatch_message),
      )

  unfoldable pub settle : Option VisitLog → Option VisitLog → Option ℕ → Db → Db × Result VisitLog
  unfolding settle_duplicate create_synced
  settle (some v) by_key session_id db =
      settle_duplicate v session_id (text "local_record_uuid_payload_mismatch") db
  settle none (some v) session_id db =
      settle_duplicate v session_id (text "idempotency_key_payload_mismatch") db
  settle none none session_id db = create_synced session_id db

  unfoldable pub in_session : Option ℕ → Db → Db × Result VisitLog
  unfolding settle conflicted
  in_session none db =
      settle c.by_local_record c.by_key (current_session db input.canvasser_id c.address.turf_id) db
  in_session (some id) db =
      if any
        (λ s. s.id == id && s.canvasser_id == input.canvasser_id && s.turf_id == c.address.turf_id)
        db.sessions
      then settle c.by_local_record c.by_key (some id) db
      else conflicted (text "session_invalid")
          (text "The recorded turf session is no longer valid for this visit") db

  unfoldable pub ingest : Db → Db × Result VisitLog
  unfolding in_session conflicted
  ingest db =
      if any (is_held c.address.turf_id input.canvasser_id) db.assignments
      then in_session input.session_id db
      else conflicted (text "assignment_changed")
          (text "The turf assignment changed before this offline visit could sync") db

-- What follows the checks.
unfoldable pub after_checks :
    Platform → ℕ → ℕ → VisitInput → Result Checked → Db → Db × Result VisitLog
unfolding ingest
after_checks platform now new_id input (err e) db = (db, err e)
after_checks platform now new_id input (ok c) db = ingest platform now new_id input c db

unfoldable pub log_visit :
    Platform
    → PolicySettings
    → List OperationalPolicy
    → ℕ
    → ℕ
    → VisitInput
    → Db
    → Db × Result VisitLog
unfolding checked after_checks
log_visit platform defaults policies now new_id input db =
    after_checks platform now new_id input (checked platform defaults policies now input db) db
