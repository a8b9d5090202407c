-- ===== src/Turfs/Sessions.antt =====
-- backend/src/turfs/turfs.service.ts: `startSession`, `pauseSession`, `resumeSession` and
-- `completeSession`, which `endSession` is.
use proactive.Base.{
  ℕ, Bool, true, false, Option, none, some, List, [], ◌∷◌, ◌++◌, String, text, ◌&&◌, ◌==◌, Result,
  ok, err, bad_request, record_missing, found, or_else, find_first, find_latest, any, count,
  update_where, if◌then◌else◌, ◌>>=◌, ◌>>◌,
}
use proactive.Store.{
  Db, Turf, TurfAssignment, TurfSession, Value, id_of, number_of, TurfStatus, AssignmentStatus,
  SessionStatus,
}
use proactive.Turfs.Guards.{
  ensure_no_cross_turf_open_session, ensure_turf_session_availability, create_session, is_open,
  is_open_on, is_held, is_current_on, log_turf,
}
use proactive.Turfs.Admin.{set_turf_status}

-- The answer's status: `ended` is shown as `completed`.
abbrev pub shown_status : SessionStatus → String
shown_status SessionStatus.active = "active"
shown_status SessionStatus.paused = "paused"
shown_status SessionStatus.ended = "completed"
shown_status SessionStatus.force_closed = "force_closed"

pub record SessionView : Type 0 where
  pub id : ℕ
  pub turf_id : ℕ
  pub canvasser_id : ℕ
  pub start_time : ℕ
  pub end_time : Option ℕ
  pub status : String
  pub start_lat : Option ℕ
  pub start_lng : Option ℕ
  pub end_lat : Option ℕ
  pub end_lng : Option ℕ

unfoldable pub serialize_session : TurfSession → SessionView
serialize_session s = record {
  id = s.id;
  turf_id = s.turf_id;
  canvasser_id = s.canvasser_id;
  start_time = s.start_time;
  end_time = s.end_time;
  status = shown_status s.status;
  start_lat = s.start_lat;
  start_lng = s.start_lng;
  end_lat = s.end_lat;
  end_lng = s.end_lng;
}

pub record SessionInput : Type 0 where
  pub canvasser_id : ℕ
  pub turf_id : ℕ
  pub latitude : Option ℕ
  pub longitude : Option ℕ

-- A field of the audit entry that is left out if there is no value.
abbrev pub optional_number : String → Option ℕ → List (String × Value)
optional_number name none = []
optional_number name (some n) = (name, number_of n) ∷ []

abbrev pub log_session : Db → SessionInput → String → ℕ → Db
log_session db input action session_id =
    log_turf db input.canvasser_id action input.turf_id none [] (
      ("sessionId", id_of session_id) ∷ optional_number "latitude" input.latitude
      ++ optional_number "longitude" input.longitude)

abbrev pub activate : ℕ → List TurfAssignment → List TurfAssignment
activate id = update_where (λ a. a.id == id) (λ a. record a { status = AssignmentStatus.active })

-- An open session of the canvasser on the turf.
abbrev pub is_own : SessionInput → TurfSession → Bool
is_own input s = s.canvasser_id == input.canvasser_id && s.turf_id == input.turf_id && is_open s

-- What `startSession` does where the canvasser has no open session on the turf.
unfoldable pub open_session : ℕ → ℕ → SessionInput → TurfAssignment → Db → Result (Db × SessionView)
unfolding serialize_session
open_session now new_id input assignment db = do
  let session : TurfSession = record {
    id = new_id;
    turf_id = input.turf_id;
    canvasser_id = input.canvasser_id;
    organization_id = assignment.organization_id;
    campaign_id = assignment.campaign_id;
    team_id = assignment.team_id;
    region_code = assignment.region_code;
    start_time = now;
    end_time = none;
    status = SessionStatus.active;
    last_activity_at = some now;
    pause_reason = none;
    end_reason = none;
    start_lat = input.latitude;
    start_lng = input.longitude;
    end_lat = none;
    end_lng = none;
  }
  created ←
      create_session
        (record db {
          assignments = activate assignment.id db.assignments;
          turfs = set_turf_status TurfStatus.in_progress input.turf_id db.turfs;
        })
        session
  ok (log_session created input "turf_started" session.id, serialize_session session)

unfoldable pub start_session : ℕ → ℕ → SessionInput → Db → Result (Db × SessionView)
start_session now new_id input db = do
  assignment ←
      found (find_first (is_held input.turf_id input.canvasser_id) db.assignments)
        (bad_request "No active assignment for this turf")
  ensure_no_cross_turf_open_session db input.canvasser_id input.turf_id
  _ ← ensure_turf_session_availability db input.turf_id input.canvasser_id
  elim (find_first (is_own input) db.sessions) [
    | some existing ↦ ok (db, serialize_session existing)
    | none ↦ open_session now new_id input assignment db
  ]

abbrev pub is_active : SessionStatus → Bool
is_active SessionStatus.active = true
is_active SessionStatus.paused = false
is_active SessionStatus.ended = false
is_active SessionStatus.force_closed = false

abbrev pub is_paused : SessionStatus → Bool
is_paused SessionStatus.paused = true
is_paused SessionStatus.active = false
is_paused SessionStatus.ended = false
is_paused SessionStatus.force_closed = false

-- `findFirst` by start time, latest first, among the sessions of a status.
abbrev pub latest_own : SessionInput → (SessionStatus → Bool) → Db → Option TurfSession
latest_own input wanted db =
    find_latest (λ s. s.start_time) (λ s. is_own input s && wanted s.status) db.sessions

abbrev pub update_session : ℕ → (TurfSession → TurfSession) → List TurfSession → List TurfSession
update_session id f = update_where (λ s. s.id == id) f

-- `turf.update` fails if there is no such turf.
unfoldable pub change_turf : Db → ℕ → (Turf → Turf) → Result Db
change_turf db turf_id f =
    if any (λ t. t.id == turf_id) db.turfs
    then ok (record db { turfs = update_where (λ t. t.id == turf_id) f db.turfs })
    else err (record_missing "turfs")

abbrev pub paused_session : ℕ → TurfSession → TurfSession
paused_session now s = record s {
  status = SessionStatus.paused;
  last_activity_at = some now;
  pause_reason = some (text "manual_pause");
}

unfoldable pub pause_session : ℕ → SessionInput → Db → Result (Db × SessionView)
unfolding change_turf serialize_session
pause_session now input db = do
  session ←
      found (latest_own input is_active db) (bad_request "No active session found for this turf")
  changed ←
      change_turf
        (record db { sessions = update_session session.id (paused_session now) db.sessions })
        input.turf_id (λ t. record t { status = TurfStatus.paused })
  ok (
    log_session changed input "turf_paused" session.id,
    serialize_session (paused_session now session),
  )

abbrev pub resumed_session : ℕ → TurfSession → TurfSession
resumed_session now s = record s {
  status = SessionStatus.active;
  last_activity_at = some now;
  pause_reason = none;
}

unfoldable pub resume_session : ℕ → SessionInput → Db → Result (Db × SessionView)
unfolding serialize_session
resume_session now input db = do
  assignment ←
      found (find_first (is_held input.turf_id input.canvasser_id) db.assignments)
        (bad_request "No active assignment for this turf")
  ensure_no_cross_turf_open_session db input.canvasser_id input.turf_id
  _ ← ensure_turf_session_availability db input.turf_id input.canvasser_id
  session ←
      found (latest_own input is_paused db) (bad_request "No paused session found for this turf")
  ok (
    log_session
        (record db {
          assignments = activate assignment.id db.assignments;
          turfs = set_turf_status TurfStatus.in_progress input.turf_id db.turfs;
          sessions = update_session session.id (resumed_session now) db.sessions;
        })
        input "turf_resumed" session.id,
    serialize_session (resumed_session now session),
  )

abbrev pub ended_session : ℕ → SessionInput → TurfSession → TurfSession
ended_session now input s = record s {
  end_time = some now;
  status = SessionStatus.ended;
  last_activity_at = some now;
  end_reason = some (text "completed");
  end_lat = or_else input.latitude s.end_lat;
  end_lng = or_else input.longitude s.end_lng;
}

abbrev pub is_running : SessionStatus → Bool
is_running SessionStatus.active = true
is_running SessionStatus.paused = true
is_running SessionStatus.ended = false
is_running SessionStatus.force_closed = false

-- The canvasser's current assignments on the turf are done, and the session is over.
unfoldable pub close_session : ℕ → SessionInput → TurfSession → Db → Db
close_session now input session db = record db {
  assignments =
      update_where (is_held input.turf_id input.canvasser_id)
        (λ a. record a { status = AssignmentStatus.completed }) db.assignments;
  sessions = update_session session.id (ended_session now input) db.sessions;
}

-- The turf is completed when nobody works on it or is assigned to it any more.
unfoldable pub completed_turf : ℕ → SessionInput → Db → Turf → Turf
completed_turf now input db t =
    if count (is_open_on input.turf_id) db.sessions == 0
      && count (is_current_on input.turf_id) db.assignments == 0
    then record t {
      status = TurfStatus.completed;
      completed_at = some now;
      completed_by_id = some input.canvasser_id;
    }
    else record t { status = TurfStatus.in_progress }

unfoldable pub complete_session : ℕ → SessionInput → Db → Result (Db × SessionView)
unfolding change_turf close_session completed_turf serialize_session
complete_session now input db = do
  session ←
      found (latest_own input is_running db) (bad_request "No open session found for this turf")
  let closed = close_session now input session db
  changed ← change_turf closed input.turf_id (completed_turf now input closed)
  ok (
    log_session changed input "turf_completed" session.id,
    serialize_session (ended_session now input session),
  )

-- `endSession` is another name of it.
unfoldable pub end_session : ℕ → SessionInput → Db → Result (Db × SessionView)
unfolding complete_session
end_session now input db = complete_session now input db
