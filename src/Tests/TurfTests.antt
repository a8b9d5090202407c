-- ===== src/Tests/TurfTests.antt =====
-- Turfs: a history from assignment to completion, a change of scope, and a deletion.
use proactive.Base.{ℕ, ◌≡◌, refl, ◌⊎◌, true, none, some, List, [], ◌∷◌, text, IfOk, map}
use proactive.Store.{SessionStatus, TurfStatus}
use proactive.Access.{in_scope}
use proactive.Turfs.Guards.{
  find_scoped_turf, ensure_assignable_canvasser, ensure_no_cross_turf_open_session,
  ensure_turf_session_availability, create_assignment, create_session,
}
use proactive.Turfs.Admin.{TurfScopeInput, assign_turf, end_assignments}
use proactive.Turfs.Retire.{delete_turf, open_session_count}
use proactive.Turfs.Sessions.{
  SessionInput, start_session, pause_session, resume_session, complete_session, open_session,
}
use proactive.Turfs.History.{Call, assign, start, pause, resume, complete, delete, step, run}
use proactive.Turfs.Reach.{IsReached, retires, step-IsReached}
use proactive.Turfs.Effects.{delete_turf-hidden}
use proactive.Tests.Data.{defaults, database, organization_scope}

abbrev at_turf : SessionInput
at_turf = record { canvasser_id = 5; turf_id = 10; latitude = none; longitude = none }

-- The canvasser is assigned, starts, pauses, resumes and is done.
abbrev shift : List (ℕ × Call)
shift =
    (100, assign 20 10 5 1 none organization_scope)
    ∷ (200, start 30 at_turf)
    ∷ (300, pause at_turf)
    ∷ (400, resume at_turf)
    ∷ []

abbrev worked : List (ℕ × Call)
worked =
    (100, assign 20 10 5 1 none organization_scope)
    ∷ (200, start 30 at_turf)
    ∷ (500, complete at_turf)
    ∷ []

resumed_status :
    map (λ s. s.status) (run defaults [] shift database).sessions ≡ SessionStatus.active ∷ []
unfolding run step assign_turf start_session resume_session pause_session
    ensure_assignable_canvasser find_scoped_turf in_scope ensure_no_cross_turf_open_session
    create_assignment end_assignments ensure_turf_session_availability open_session create_session
resumed_status = refl

completed_status :
    map (λ t. t.status) (run defaults [] worked database).turfs ≡ TurfStatus.completed ∷ []
unfolding run step assign_turf start_session complete_session ensure_assignable_canvasser
    find_scoped_turf in_scope ensure_no_cross_turf_open_session create_assignment end_assignments
    ensure_turf_session_availability open_session create_session
completed_status = refl

abbrev delete_call : Call
delete_call = delete 10 1 (text "sold") organization_scope

step-IsReached_example :
    (step defaults [] (600, delete_call) database ≡ database)
    ⊎ (IsReached 10 organization_scope database
        × (retires delete_call ≡ true → open_session_count 10 database ≡ 0))
step-IsReached_example =
    step-IsReached defaults [] 600 database delete_call 10 organization_scope refl

abbrev to_north : TurfScopeInput
to_north = record { team_id = some none; region_code = some (some (text "north")) }

delete_turf-hidden_example :
    IfOk
      (λ r. find_scoped_turf r.0 10 organization_scope ≡ none)
      (delete_turf defaults [] 600 10 1 (text "sold") organization_scope database)
delete_turf-hidden_example =
    delete_turf-hidden defaults [] 600 10 1 (text "sold") organization_scope organization_scope
      database
