-- ===== src/Tests/VisitTests.antt =====
-- Visits: one that is logged, repeated and corrected.
use proactive.Base.{
  true, ℕ, map, trim, trimmed_option, ◌≡◌, refl, ◌≤◌, none, some, List, [], ◌∷◌, text, arith, All,
  here, there, count, same_id, Failure, err, ok, ◌==◌,
}
use proactive.Store.{OutcomeDefinition}
use proactive.Access.{in_scope}
use proactive.Store.{Db, GpsStatus}
use proactive.Policies.{get_effective_policy, effective_of, campaign_policy, find_policy_record}
use proactive.Visits.Outcomes.{find_scoped_outcome_definition}
use proactive.Visits.Conflicts.{Checked, create_visit, visit_row, geofence_row}
use proactive.Visits.Log.{log_visit, refuse_conflicted, attempts}
use proactive.Visits.Correct.{
  correct_visit, find_scoped_visit, build_correction_lock_reason, same_snapshot,
}
use proactive.Visits.Geofence.{check_geofence, against_target}
use proactive.Visits.Platform.{get_distance_in_meters}
use proactive.Visits.History.{
  VisitCall, log, correct, run_visits, IsSound, IsCoherent, run_visits-IsSound,
}
use proactive.Visits.Attempts.{IsAt, run_visits-attempts, log_visit-rested}
use proactive.Visits.Fallback.{find_scoped_outcome_definition-general}
use proactive.Tests.Data.{defaults, turf}
use proactive.Tests.VisitData.{
  flat, household, knocked, field, submission, first_visit, visited, correction, default_policy,
}

logged : (log_visit flat defaults [] 1000 60 submission field).0.visits ≡ first_visit ∷ []
unfolding log_visit refuse_conflicted find_scoped_outcome_definition get_effective_policy
    effective_of campaign_policy find_policy_record create_visit visit_row check_geofence
    against_target get_distance_in_meters trim trimmed_option
logged = refl

abbrev day : List (ℕ × VisitCall)
day = (1000, log 60 submission) ∷ (2000, correct correction) ∷ []

codes :
    map (λ v. v.outcome_code) (run_visits flat defaults [] day field).visits ≡ text "not_home" ∷ []
unfolding run_visits correct_visit trim find_scoped_visit log_visit refuse_conflicted
    find_scoped_outcome_definition get_effective_policy effective_of campaign_policy
    find_policy_record create_visit visit_row in_scope build_correction_lock_reason geofence_row
    same_snapshot
codes = refl

field-IsSound : IsSound field
field-IsSound = record { separate = tt; coherent = tt }

run_visits-IsSound_example :
    (count
        (λ v. same_id v.local_record_uuid (some 900))
        (run_visits flat defaults [] day field).visits
      ≤ 1)
    × (count
          (λ v. same_id v.idempotency_key (some 900))
          (run_visits flat defaults [] day field).visits
        ≤ 1)
    × (count (λ v. v.id == 900) (run_visits flat defaults [] day field).visits ≤ 1)
    × All IsCoherent (run_visits flat defaults [] day field).visits
run_visits-IsSound_example = run_visits-IsSound flat defaults [] day field 900 field-IsSound

field-IsAt : IsAt flat defaults [] household turf (default_policy none) field
unfolding get_effective_policy effective_of campaign_policy find_policy_record
field-IsAt = record { listed = refl; joined = refl; applied = refl }

visited-IsAt : IsAt flat defaults [] household turf (default_policy none) visited
visited-IsAt = record { listed = refl; joined = refl; applied = field-IsAt.applied }

run_visits-attempts_example : attempts household (run_visits flat defaults [] day field).visits ≤ 3
run_visits-attempts_example =
    run_visits-attempts flat defaults [] household turf (default_policy none) day field field-IsAt
      (omega arith)

-- A minute later the phone, which has missed the answer, sends the same visit again.
log_visit-rested_example :
    (e : Failure) × (log_visit flat defaults [] 61000 61 submission visited ≡ (visited, err e))
log_visit-rested_example =
    log_visit-rested flat defaults [] household turf (default_policy none) 61000 61 submission
      visited first_visit visited-IsAt refl (here refl) refl refl (omega arith)

campaign_policy_is :
    get_effective_policy defaults [] (some 1) (some 7) ≡ ok (default_policy (some 7))
unfolding get_effective_policy effective_of campaign_policy find_policy_record
campaign_policy_is = refl

find_scoped_outcome_definition-general_example :
    (y : OutcomeDefinition) × (find_scoped_outcome_definition flat defaults []
        (some 1)
        (some 7)
        (text "knocked")
        field
      ≡ ok (some y))
    × (y.campaign_id ≡ none)
find_scoped_outcome_definition-general_example =
    find_scoped_outcome_definition-general flat defaults [] (some 1) 7 (text "knocked") field
      (default_policy (some 7)) knocked campaign_policy_is refl (there (here refl)) refl refl

abbrev stored_db : Db
stored_db = (log_visit flat defaults [] 1000 60 submission field).0

abbrev checked_again : Checked
checked_again = record {
  address = household;
  turf = turf;
  outcome = knocked;
  gps = record {
    gps_status = GpsStatus.verified;
    geofence_validated = true;
    geofence_distance_meters = some 0;
    distance_from_target_feet = some 0;
    failure_reason = none;
  };
  radius_feet = 75;
  by_local_record = some first_visit;
  by_key = none;
}
