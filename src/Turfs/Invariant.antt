-- ===== src/Turfs/Invariant.antt =====
-- The invariant of the turf service's tables.
use proactive.Base.{Bool, true, false, ◌≡◌, List, All, Pairwise, any, is_null}
use proactive.Store.{Db, Turf, TurfAssignment, TurfSession, TurfStatus, is_current}
use proactive.Turfs.Apart.{Holding, Apart, holds, holds_turf}

abbrev pub assignment_holding : Holding TurfAssignment
assignment_holding = record {
  id = λ a. a.id;
  turf = λ a. a.turf_id;
  canvasser = λ a. a.canvasser_id;
  live = λ a. is_current a.status;
}

abbrev pub session_holding : Holding TurfSession
session_holding = record {
  id = λ s. s.id;
  turf = λ s. s.turf_id;
  canvasser = λ s. s.canvasser_id;
  live = λ s. is_null s.end_time;
}

-- A turf that nobody works on any more.
abbrev pub is_finished : TurfStatus → Bool
is_finished TurfStatus.completed = true
is_finished TurfStatus.archived = true
is_finished TurfStatus.unassigned = false
is_finished TurfStatus.assigned = false
is_finished TurfStatus.in_progress = false
is_finished TurfStatus.paused = false
is_finished TurfStatus.reopened = false

-- An open session goes with a current assignment of its canvasser to its turf.
abbrev pub IsCovered : List TurfAssignment → TurfSession → Type 0
IsCovered assignments s =
    is_null s.end_time ≡ true
    → any (holds assignment_holding s.turf_id s.canvasser_id) assignments ≡ true

-- A finished turf has no current assignment.
abbrev pub IsReleased : List TurfAssignment → Turf → Type 0
IsReleased assignments t =
    is_finished t.status ≡ true → any (holds_turf assignment_holding t.id) assignments ≡ false

pub record IsConsistent (db : Db) : Type 0 where
  pub assignments_apart : Pairwise (Apart assignment_holding) db.assignments
  pub sessions_apart : Pairwise (Apart session_holding) db.sessions
  pub covered : All (IsCovered db.assignments) db.sessions
  pub released : All (IsReleased db.assignments) db.turfs
