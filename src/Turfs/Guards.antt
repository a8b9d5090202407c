-- ===== src/Turfs/Guards.antt =====
-- backend/src/turfs/turfs.service.ts: the lookups and checks that the operations share, and
-- `findById` of backend/src/users/users.service.ts.
use proactive.Base.{
  ℕ, Bool, true, Option, none, some, List, ◌∷◌, Text, String, text, text_eq, not, ◌&&◌, ◌||◌, ◌==◌,
  ◌*◌, ◌+◌, Result, ok, err, bad_request, not_found, unique_violation, found, absent, require,
  refuse, is_null, same_id, find_first, any, if◌then◌else◌, ◌>>=◌, ◌>>◌,
}
use proactive.Store.{
  Db, User, Team, Turf, TurfAssignment, TurfSession, Value, is_current, is_canvasser,
}
use proactive.Access.{AccessScope, ScopeKey, in_scope}

-- `findById` of the users service.
unfoldable pub find_user : Db → ℕ → Result User
find_user db id = do
  user ← found (find_first (λ u. u.id == id) db.users) (not_found "User not found")
  refuse (not (is_null user.deleted_at)) (not_found "User not found")
  ok user

abbrev pub turf_key : Turf → ScopeKey
turf_key t = record {
  organization_id = t.organization_id;
  campaign_id = t.campaign_id;
  team_id = t.team_id;
  region_code = t.region_code;
}

unfoldable pub find_scoped_turf : Db → ℕ → AccessScope → Option Turf
find_scoped_turf db turf_id scope =
    find_first (λ t. t.id == turf_id && in_scope scope (turf_key t) && is_null t.deleted_at)
      db.turfs

unfoldable pub ensure_assignable_canvasser : Db → ℕ → Option ℕ → Result User
unfolding find_user
ensure_assignable_canvasser db canvasser_id organization_id = do
  canvasser ← find_user db canvasser_id
  require (is_canvasser canvasser.role) (bad_request "Selected user is not a canvasser")
  refuse (not canvasser.is_active || not (text_eq canvasser.status (text "active")))
      (bad_request "Selected canvasser is not active")
  require (same_id canvasser.organization_id organization_id) (not_found "User not found")
  ok canvasser

-- A filter that is left out (`undefined`) lets every row through.
abbrev pub matches_optional : Option ℕ → ℕ → Bool
matches_optional none value = true
matches_optional (some wanted) value = value == wanted

unfoldable pub validate_team_scope : Db → Option ℕ → Option ℕ → Result (Option Team)
validate_team_scope db organization_id none = ok none
validate_team_scope db organization_id (some team_id) = do
  team ←
      found
        (find_first
          (λ t.
            t.id == team_id && matches_optional organization_id t.organization_id && t.is_active)
          db.teams)
        (bad_request "Team not found")
  ok (some team)

abbrev pub is_open : TurfSession → Bool
is_open s = is_null s.end_time

-- An open session of the canvasser on another turf.
abbrev pub is_cross_turf : ℕ → ℕ → TurfSession → Bool
is_cross_turf canvasser_id turf_id s =
    s.canvasser_id == canvasser_id && is_open s && not (s.turf_id == turf_id)

unfoldable pub ensure_no_cross_turf_open_session : Db → ℕ → ℕ → Result (Unit {0})
ensure_no_cross_turf_open_session db canvasser_id turf_id =
    absent (find_first (is_cross_turf canvasser_id turf_id) db.sessions)
      (bad_request "Canvasser already has an open session on another turf")

abbrev pub is_foreign : ℕ → ℕ → TurfSession → Bool
is_foreign turf_id canvasser_id s =
    s.turf_id == turf_id && is_open s && not (s.canvasser_id == canvasser_id)

unfoldable pub ensure_turf_session_availability : Db → ℕ → ℕ → Result Turf
ensure_turf_session_availability db turf_id canvasser_id = do
  turf ← found (find_first (λ t. t.id == turf_id) db.turfs) (not_found "Turf not found")
  refuse (not turf.is_shared && any (is_foreign turf_id canvasser_id) db.sessions)
      (bad_request "This turf already has an open session")
  ok turf

abbrev pub is_held : ℕ → ℕ → TurfAssignment → Bool
is_held turf_id canvasser_id a =
    a.canvasser_id == canvasser_id && a.turf_id == turf_id && is_current a.status

abbrev pub is_current_on : ℕ → TurfAssignment → Bool
is_current_on turf_id a = a.turf_id == turf_id && is_current a.status

abbrev pub is_open_on : ℕ → TurfSession → Bool
is_open_on turf_id s = s.turf_id == turf_id && is_open s

-- `days` of 0 and no `days` set no date.
unfoldable pub build_purge_at : ℕ → Option ℕ → Option ℕ
build_purge_at now none = none
build_purge_at now (some days) = if days == 0 then none else some (now + days * 24 * 60 * 60 * 1000)

-- A primary key is unique: a row whose identifier is taken is refused.
unfoldable pub create_assignment : Db → TurfAssignment → Result Db
create_assignment db row =
    if any (λ a. a.id == row.id) db.assignments
    then err (unique_violation "turf_assignments.id")
    else ok (record db { assignments = row ∷ db.assignments })

unfoldable pub create_session : Db → TurfSession → Result Db
create_session db row =
    if any (λ s. s.id == row.id) db.sessions
    then err (unique_violation "turf_sessions.id")
    else ok (record db { sessions = row ∷ db.sessions })

-- `log` of backend/src/audit/audit.service.ts, on the entity `turf`.
abbrev pub log_turf :
    Db → ℕ → String → ℕ → Option Text → List (String × Value) → List (String × Value) → Db
log_turf db actor_user_id action_type turf_id reason_text old_values new_values = record db {
  audit_logs =
      record {
        actor_user_id = some actor_user_id;
        organization_id = none;
        action_type = action_type;
        entity_type = "turf";
        entity_id = turf_id;
        reason_code = none;
        reason_text = reason_text;
        old_values = old_values;
        new_values = new_values;
      }
      ∷ db.audit_logs;
}
