-- ===== src/Visits/Correct.antt =====
-- `correctVisit` of backend/src/visits/visits.service.ts, and what it calls.
use proactive.Base.{
  ◌>>=◌, ◌>>◌, ℕ, Bool, true, false, not, ◌&&◌, ◌||◌, ◌==◌, ◌*◌, ◌+◌, Option, none, some, List, [],
  ◌∷◌, String, Text, text, text_eq, trim, is_blank, non_empty, same_id, same_text, is_null, ltb,
  find_first, update_where, if◌then◌else◌, Result, ok, err, bad_request, not_found, forbidden,
  found, refuse,
}
use proactive.Store.{
  Db, OutcomeDefinition, VisitLog, VisitGeofenceResult, CorrectionSnapshot, Value, null, word,
  text_of, flag_of, UserRole, is_canvasser, is_conflict, result_name,
}
use proactive.Access.{AccessScope, ScopeKey, in_scope}
use proactive.Policies.{OperationalPolicy, get_effective_policy}
use proactive.Policies.Settings.{PolicySettings}
use proactive.Visits.Platform.{Platform}
use proactive.Visits.Outcomes.{normalize_legacy_result, find_scoped_outcome_definition}
use proactive.Visits.Conflicts.{optional_identifier}

pub record CorrectionInput : Type 0 where
  pub visit_id : ℕ
  pub actor_user_id : ℕ
  pub actor_role : UserRole
  pub scope : AccessScope
  pub outcome_code : Text
  pub notes : Option Text
  pub reason : Text

abbrev pub visit_key : VisitLog → ScopeKey
visit_key v = record {
  organization_id = v.organization_id;
  campaign_id = v.campaign_id;
  team_id = v.team_id;
  region_code = v.region_code;
}

unfoldable pub find_scoped_visit : Db → ℕ → AccessScope → Option VisitLog
find_scoped_visit db visit_id scope =
    find_first (λ v. v.id == visit_id && in_scope scope (visit_key v) && is_null v.deleted_at)
      db.visits

-- The window of a policy that has none is 10 minutes.
abbrev pub get_correction_window_minutes : ℕ → ℕ
get_correction_window_minutes minutes = if ltb 0 minutes then minutes else 10

abbrev pub is_overridden : Option VisitGeofenceResult → Bool
is_overridden none = false
is_overridden (some g) = g.override_flag

unfoldable pub build_correction_lock_reason : VisitLog → Option VisitGeofenceResult → Option String
build_correction_lock_reason v geofence =
    if v.van_exported
    then some "Exported visits are locked and cannot be corrected"
    else if v.sync_conflict_flag || is_conflict v.sync_status
    then some "Resolve the sync conflict before correcting this visit"
    else if is_overridden geofence
    then some "Visits with GPS overrides are locked and cannot be corrected"
    else none

abbrev pub refuse_locked : Option String → Result (Unit {0})
refuse_locked none = ok tt
refuse_locked (some reason) = err (bad_request reason)

unfoldable pub normalize_correction_notes : Option Text → Option Text → Option Text
normalize_correction_notes none existing = existing
normalize_correction_notes (some notes) existing = non_empty (some (trim notes))

unfoldable pub build_correction_snapshot : VisitLog → CorrectionSnapshot
build_correction_snapshot v = record {
  outcome_definition_id = v.outcome_definition_id;
  outcome_code = v.outcome_code;
  outcome_label = v.outcome_label;
  result = v.result;
  notes = v.notes;
  contact_made = v.contact_made;
}

abbrev pub same_flag : Bool → Bool → Bool
same_flag true b = b
same_flag false b = not b

-- `JSON.stringify(oldValues) === JSON.stringify(newValues)`: the fields agree one by one.
unfoldable pub same_snapshot : CorrectionSnapshot → CorrectionSnapshot → Bool
same_snapshot a b =
    same_id a.outcome_definition_id b.outcome_definition_id
    && text_eq a.outcome_code b.outcome_code
    && text_eq a.outcome_label b.outcome_label
    && text_eq (text (result_name a.result)) (text (result_name b.result))
    && same_text a.notes b.notes
    && same_flag a.contact_made b.contact_made

abbrev pub corrected_values : OutcomeDefinition → Option Text → CorrectionSnapshot
corrected_values outcome notes = record {
  outcome_definition_id = some outcome.id;
  outcome_code = outcome.code;
  outcome_label = outcome.label;
  result = normalize_legacy_result outcome.code;
  notes = notes;
  contact_made = text_eq outcome.code (text "talked_to_voter");
}

abbrev pub with_values : CorrectionSnapshot → VisitLog → VisitLog
with_values s v = record v {
  outcome_definition_id = s.outcome_definition_id;
  outcome_code = s.outcome_code;
  outcome_label = s.outcome_label;
  result = s.result;
  notes = s.notes;
  contact_made = s.contact_made;
}

abbrev pub shown_notes : Option Text → Value
shown_notes none = null
shown_notes (some notes) = text_of notes

abbrev pub shown_snapshot : CorrectionSnapshot → List (String × Value)
shown_snapshot s =
    ("outcomeDefinitionId", optional_identifier s.outcome_definition_id)
    ∷ ("outcomeCode", text_of s.outcome_code)
    ∷ ("outcomeLabel", text_of s.outcome_label)
    ∷ ("result", word (result_name s.result))
    ∷ ("notes", shown_notes s.notes)
    ∷ ("contactMade", flag_of s.contact_made)
    ∷ []

-- The transaction of `correctVisit`.
unfoldable pub record_correction : CorrectionInput → Text → VisitLog → CorrectionSnapshot → Db → Db
record_correction input reason visit new_values db = record db {
  visits = update_where (λ v. v.id == input.visit_id) (with_values new_values) db.visits;
  corrections =
      record {
        visit_log_id = input.visit_id;
        actor_user_id = input.actor_user_id;
        organization_id = visit.organization_id;
        campaign_id = visit.campaign_id;
        reason_text = reason;
        old_values = build_correction_snapshot visit;
        new_values = new_values;
      }
      ∷ db.corrections;
  audit_logs =
      record {
        actor_user_id = some input.actor_user_id;
        organization_id = none;
        action_type = "visit_corrected";
        entity_type = "visit_log";
        entity_id = input.visit_id;
        reason_code = none;
        reason_text = some reason;
        old_values = shown_snapshot (build_correction_snapshot visit);
        new_values = shown_snapshot new_values;
      }
      ∷ db.audit_logs;
}

module _ (platform : Platform) (defaults : PolicySettings) (policies : List OperationalPolicy)
    (now : ℕ) where
  -- A canvasser corrects visits of their own, and only for a while.
  unfoldable pub ensure_correctable_by : CorrectionInput → VisitLog → Bool → Result (Unit {0})
  ensure_correctable_by input visit false = ok tt
  ensure_correctable_by input visit true = do
    refuse (not (visit.canvasser_id == input.actor_user_id))
        (forbidden "You can only correct your own recent submissions")
    policy ← get_effective_policy defaults policies visit.organization_id visit.campaign_id
    refuse
        (ltb
          (visit.visit_time
            + get_correction_window_minutes policy.settings.canvasser_correction_window_minutes
              * 60
              * 1000)
          now)
        (forbidden "The correction window for this visit has expired")

  unfoldable pub correct_visit : CorrectionInput → Db → Result (Db × VisitLog)
  unfolding ensure_correctable_by build_correction_snapshot record_correction
  correct_visit input db = do
    let reason = trim input.reason
    refuse (is_blank reason) (bad_request "Correction reason is required")
    visit ← found (find_scoped_visit db input.visit_id input.scope) (not_found "Visit not found")
    ensure_correctable_by input visit (is_canvasser input.actor_role)
    refuse_locked (
        build_correction_lock_reason visit
          (find_first (λ g. g.visit_log_id == visit.id) db.geofence_results))
    definition ←
        find_scoped_outcome_definition platform defaults policies input.scope.organization_id
          input.scope.campaign_id input.outcome_code db
    outcome ← found definition (bad_request "Visit outcome is not recognized")
    let notes = normalize_correction_notes input.notes visit.notes
    refuse (outcome.requires_note && is_null (non_empty notes))
        (bad_request "Notes are required for the selected visit outcome")
    let new_values = corrected_values outcome notes
    refuse (same_snapshot (build_correction_snapshot visit) new_values)
        (bad_request "This correction does not change the visit")
    ok (record_correction input reason visit new_values db, with_values new_values visit)
