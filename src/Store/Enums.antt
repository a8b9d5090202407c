-- ===== src/Store/Enums.antt =====
-- The enums of the schema, and their comparison.
use proactive.Base.{Bool, true, false, String}

pub data UserRole : Type 0 where
  admin supervisor canvasser : UserRole

pub data TurfStatus : Type 0 where
  unassigned assigned in_progress paused completed reopened archived : TurfStatus

pub data AssignmentStatus : Type 0 where
  assigned active completed removed : AssignmentStatus

pub data SessionStatus : Type 0 where
  active paused ended force_closed : SessionStatus

pub data SyncStatus : Type 0 where
  pending syncing synced failed conflict : SyncStatus

pub data GpsStatus : Type 0 where
  verified flagged missing low_accuracy : GpsStatus

pub data VisitResult : Type 0 where
  knocked lit_drop not_home refused talked_to_voter other : VisitResult

pub data VisitSource : Type 0 where
  mobile_app web_app csv_import admin_entry : VisitSource

-- `status: { in: [AssignmentStatus.assigned, AssignmentStatus.active] }`
abbrev pub is_current : AssignmentStatus → Bool
is_current AssignmentStatus.assigned = true
is_current AssignmentStatus.active = true
is_current AssignmentStatus.completed = false
is_current AssignmentStatus.removed = false

abbrev pub is_canvasser : UserRole → Bool
is_canvasser UserRole.canvasser = true
is_canvasser UserRole.admin = false
is_canvasser UserRole.supervisor = false

abbrev pub is_conflict : SyncStatus → Bool
is_conflict SyncStatus.conflict = true
is_conflict SyncStatus.pending = false
is_conflict SyncStatus.syncing = false
is_conflict SyncStatus.synced = false
is_conflict SyncStatus.failed = false

abbrev pub is_verified : GpsStatus → Bool
is_verified GpsStatus.verified = true
is_verified GpsStatus.flagged = false
is_verified GpsStatus.missing = false
is_verified GpsStatus.low_accuracy = false

-- The enums as the JSON of an audit entry shows them.
abbrev pub result_name : VisitResult → String
result_name VisitResult.knocked = "knocked"
result_name VisitResult.lit_drop = "lit_drop"
result_name VisitResult.not_home = "not_home"
result_name VisitResult.refused = "refused"
result_name VisitResult.talked_to_voter = "talked_to_voter"
result_name VisitResult.other = "other"

abbrev pub gps_name : GpsStatus → String
gps_name GpsStatus.verified = "verified"
gps_name GpsStatus.flagged = "flagged"
gps_name GpsStatus.missing = "missing"
gps_name GpsStatus.low_accuracy = "low_accuracy"

abbrev pub sync_name : SyncStatus → String
sync_name SyncStatus.pending = "pending"
sync_name SyncStatus.syncing = "syncing"
sync_name SyncStatus.synced = "synced"
sync_name SyncStatus.failed = "failed"
sync_name SyncStatus.conflict = "conflict"
