-- ===== src/Turfs/Admin.antt =====
-- backend/src/turfs/turfs.service.ts: `createTurf`, `updateTurfScope` and `assignTurf`.
use proactive.Base.{
  ℕ, Bool, false, Option, none, some, List, [], ◌∷◌, Text, text, text_eq, not, ◌&&◌, ◌==◌, Result,
  ok, bad_request, not_found, found, refuse, trimmed_option, non_empty, or_else, or_value,
  find_first, any, update_where, if◌then◌else◌, ◌>>=◌, ◌>>◌,
}
use proactive.Store.{
  Db, Team, Turf, TurfAssignment, TurfSession, Value, id_of, null, text_of, TurfStatus,
  AssignmentStatus, is_current,
}
use proactive.Access.{AccessScope}
use proactive.Turfs.Guards.{
  find_user, find_scoped_turf, ensure_assignable_canvasser, validate_team_scope,
  ensure_no_cross_turf_open_session, create_assignment, is_open_on, is_current_on, log_turf,
}

abbrev pub team_campaign : Option Team → Option ℕ
team_campaign none = none
team_campaign (some team) = team.campaign_id

abbrev pub team_region : Option Team → Option Text
team_region none = none
team_region (some team) = team.region_code

-- `regionCode?.trim() || team?.regionCode || null`
unfoldable pub chosen_region : Option Text → Option Team → Option Text
chosen_region region_code team =
    or_else (non_empty (trimmed_option region_code)) (non_empty (team_region team))

pub record CreateTurfInput : Type 0 where
  pub name : Text
  pub description : Option Text
  pub team_id : Option ℕ
  pub region_code : Option Text

unfoldable pub create_turf : ℕ → ℕ → CreateTurfInput → ℕ → Db → Result (Db × Turf)
create_turf now new_id input created_by_id db = do
  creator ← find_user db created_by_id
  team ← validate_team_scope db creator.organization_id input.team_id
  let turf : Turf = record {
    id = new_id;
    name = input.name;
    description = input.description;
    organization_id = creator.organization_id;
    campaign_id = or_else creator.campaign_id (team_campaign team);
    team_id = input.team_id;
    region_code = chosen_region input.region_code team;
    status = TurfStatus.unassigned;
    is_shared = false;
    created_by_id = some created_by_id;
    completed_at = none;
    completed_by_id = none;
    reopened_at = none;
    reopened_by_id = none;
    reopened_reason = none;
    deleted_at = none;
    delete_reason = none;
    archived_at = none;
    purge_at = none;
    created_at = now;
  }
  ok (record db { turfs = turf ∷ db.turfs }, turf)

-- A field that the request leaves out is `none`, and `null` is `some none`.
pub record TurfScopeInput : Type 0 where
  pub team_id : Option (Option ℕ)
  pub region_code : Option (Option Text)

-- `input.regionCode === undefined ? turf.regionCode : …`
unfoldable pub next_region : Option (Option Text) → Option Team → Option Text → Option Text
unfolding chosen_region
next_region none team current = current
next_region (some region_code) team current = chosen_region region_code team

-- The update of the turf, and of every row that hangs on it.
unfoldable pub propagate_scope : Option (Option ℕ) → Option Text → ℕ → Db → Db
propagate_scope team_id region turf_id db = record db {
  turfs =
      update_where (λ t. t.id == turf_id)
        (λ t. record t { team_id = or_value team_id t.team_id; region_code = region }) db.turfs;
  addresses =
      update_where (λ a. a.turf_id == turf_id)
        (λ a. record a { team_id = or_value team_id a.team_id; region_code = region }) db.addresses;
  assignments =
      update_where (λ a. a.turf_id == turf_id)
        (λ a. record a { team_id = or_value team_id a.team_id; region_code = region })
        db.assignments;
  sessions =
      update_where (λ s. s.turf_id == turf_id)
        (λ s. record s { team_id = or_value team_id s.team_id; region_code = region }) db.sessions;
  visits =
      update_where (λ v. v.turf_id == turf_id)
        (λ v. record v { team_id = or_value team_id v.team_id; region_code = region }) db.visits;
  address_requests =
      update_where (λ r. r.turf_id == turf_id)
        (λ r. record r { team_id = or_value team_id r.team_id; region_code = region })
        db.address_requests;
}

abbrev pub optional_id : Option ℕ → Value
optional_id none = null
optional_id (some n) = id_of n

abbrev pub optional_text : Option Text → Value
optional_text none = null
optional_text (some t) = text_of t

unfoldable pub update_turf_scope : ℕ → TurfScopeInput → ℕ → AccessScope → Db → Result (Db × Turf)
unfolding next_region propagate_scope
update_turf_scope turf_id input actor_user_id scope db = do
  turf ← found (find_scoped_turf db turf_id scope) (not_found "Turf not found")
  team ← validate_team_scope db turf.organization_id (or_value input.team_id none)
  let region = next_region input.region_code team turf.region_code
  let updated : Turf = record turf {
    team_id = or_value input.team_id turf.team_id;
    region_code = region;
  }
  ok (
    log_turf (propagate_scope input.team_id region turf_id db) actor_user_id "turf_scope_updated"
        updated.id none []
        (("teamId", optional_id updated.team_id)
          ∷ ("regionCode", optional_text updated.region_code)
          ∷ []),
    updated,
  )

-- `a && b && a !== b` on identifiers and on region codes.
abbrev pub ids_clash : Option ℕ → Option ℕ → Bool
ids_clash none b = false
ids_clash (some a) none = false
ids_clash (some a) (some b) = not (a == b)

abbrev pub texts_clash : Option Text → Option Text → Bool
texts_clash none b = false
texts_clash (some a) none = false
texts_clash (some a) (some b) = not (text_eq a b)

abbrev pub held_by_other : Option TurfSession → ℕ → Bool
held_by_other none canvasser_id = false
held_by_other (some s) canvasser_id = not (s.canvasser_id == canvasser_id)

abbrev pub end_assignment : ℕ → Text → TurfAssignment → TurfAssignment
end_assignment now reason a = record a {
  status = AssignmentStatus.removed;
  unassigned_at = some now;
  reassignment_reason = some reason;
}

-- A current assignment of the canvasser on another turf.
abbrev pub is_elsewhere : ℕ → ℕ → TurfAssignment → Bool
is_elsewhere canvasser_id turf_id a =
    a.canvasser_id == canvasser_id && not (a.turf_id == turf_id) && is_current a.status

-- The two `updateMany` of `assignTurf`: the turf's assignments end, then the canvasser's others.
unfoldable pub end_assignments : ℕ → Option Text → ℕ → ℕ → List TurfAssignment → List TurfAssignment
end_assignments now reason canvasser_id turf_id rows =
    update_where (is_elsewhere canvasser_id turf_id)
      (end_assignment now (or_value reason (text "assigned_to_other_turf")))
      (update_where (is_current_on turf_id)
        (end_assignment now (or_value reason (text "reassigned"))) rows)

abbrev pub set_turf_status : TurfStatus → ℕ → List Turf → List Turf
set_turf_status status turf_id =
    update_where (λ t. t.id == turf_id) (λ t. record t { status = status })

-- The row that `assignTurf` creates.
abbrev pub new_assignment : ℕ → ℕ → Turf → ℕ → ℕ → ℕ → Option Text → TurfAssignment
new_assignment now new_id turf turf_id canvasser_id actor_user_id reason = record {
  id = new_id;
  turf_id = turf_id;
  canvasser_id = canvasser_id;
  organization_id = turf.organization_id;
  campaign_id = turf.campaign_id;
  team_id = turf.team_id;
  region_code = turf.region_code;
  assigned_by_user_id = some actor_user_id;
  assigned_at = now;
  unassigned_at = none;
  reassignment_reason = reason;
  status = AssignmentStatus.assigned;
}

unfoldable pub assign_turf :
    ℕ → ℕ → ℕ → ℕ → ℕ → Option Text → AccessScope → Db → Result (Db × TurfAssignment)
assign_turf now new_id turf_id canvasser_id actor_user_id reason scope db = do
  _ ← ensure_assignable_canvasser db canvasser_id scope.organization_id
  turf ← found (find_scoped_turf db turf_id scope) (not_found "Turf not found")
  canvasser ← ensure_assignable_canvasser db canvasser_id scope.organization_id
  refuse (ids_clash turf.team_id canvasser.team_id)
      (bad_request "Selected canvasser is assigned to a different team")
  refuse (texts_clash (non_empty turf.region_code) (non_empty canvasser.region_code))
      (bad_request "Selected canvasser is assigned to a different region")
  ensure_no_cross_turf_open_session db canvasser_id turf_id
  refuse (held_by_other (find_first (is_open_on turf_id) db.sessions) canvasser_id)
      (bad_request "Close the current turf session before reassigning")
  let assignment = new_assignment now new_id turf turf_id canvasser_id actor_user_id reason
  created ←
      create_assignment
        (record db { assignments = end_assignments now reason canvasser_id turf_id db.assignments })
        assignment
  let action =
      if any (is_current_on turf_id) db.assignments then "turf_reassigned" else "turf_assigned"
  ok (
    log_turf (record created { turfs = set_turf_status TurfStatus.assigned turf_id created.turfs })
        actor_user_id action turf_id reason []
        (("canvasserId", id_of canvasser_id) ∷ ("assignmentId", id_of assignment.id) ∷ []),
    assignment,
  )
