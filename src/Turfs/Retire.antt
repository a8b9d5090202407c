-- ===== src/Turfs/Retire.antt =====
-- backend/src/turfs/turfs.service.ts: `reopenTurf`, `archiveTurf` and `deleteTurf`. The policy in
-- effect is that of Policies.antt, from the `defaults` and the table of `policies`.
use proactive.Base.{
  ℕ, Option, none, some, List, [], ◌∷◌, Text, text, trim, trimmed_option, non_empty, ◌&&◌, ◌==◌,
  Result, ok, bad_request, not_found, found, refuse, or_else, or_value, is_null, is_blank, ltb,
  count, update_where, ◌>>=◌, ◌>>◌,
}
use proactive.Store.{Db, Turf, Value, null, time_of, turf_status_of, TurfStatus}
use proactive.Access.{AccessScope}
use proactive.Policies.{OperationalPolicy, get_effective_policy}
use proactive.Policies.Settings.{PolicySettings}
use proactive.Turfs.Guards.{find_scoped_turf, build_purge_at, is_open_on, is_current_on, log_turf}
use proactive.Turfs.Admin.{end_assignment}

-- The change of one turf, and the turf as the update returns it.
abbrev pub update_turf : ℕ → (Turf → Turf) → Db → Db
update_turf turf_id f db = record db { turfs = update_where (λ t. t.id == turf_id) f db.turfs }

abbrev pub open_session_count : ℕ → Db → ℕ
open_session_count turf_id db = count (is_open_on turf_id) db.sessions

abbrev pub reopened_turf : ℕ → ℕ → Option Text → Turf → Turf
reopened_turf now actor_user_id reason t = record t {
  status = TurfStatus.reopened;
  completed_at = none;
  completed_by_id = none;
  reopened_at = some now;
  reopened_by_id = some actor_user_id;
  reopened_reason = or_else reason t.reopened_reason;
}

unfoldable pub reopen_turf : ℕ → ℕ → ℕ → Option Text → AccessScope → Db → Result (Db × Turf)
reopen_turf now turf_id actor_user_id reason scope db = do
  turf ← found (find_scoped_turf db turf_id scope) (not_found "Turf not found")
  refuse (ltb 0 (open_session_count turf_id db))
      (bad_request "Cannot reopen a turf with an open session")
  let updated = reopened_turf now actor_user_id reason turf
  ok (
    log_turf (update_turf turf_id (reopened_turf now actor_user_id reason) db) actor_user_id
        "turf_reopened" turf_id reason (("status", turf_status_of turf.status) ∷ [])
        (("status", turf_status_of updated.status) ∷ []),
    updated,
  )

abbrev pub archived_turf : ℕ → Option ℕ → Turf → Turf
archived_turf now purge_at t = record t {
  status = TurfStatus.archived;
  archived_at = some now;
  purge_at = purge_at;
}

-- The end of a turf's current assignments.
abbrev pub end_current : ℕ → Text → ℕ → Db → Db
end_current now reason turf_id db = record db {
  assignments = update_where (is_current_on turf_id) (end_assignment now reason) db.assignments;
}

abbrev pub optional_time : Option ℕ → Value
optional_time none = null
optional_time (some t) = time_of t

unfoldable pub archive_turf :
    PolicySettings
    → List OperationalPolicy
    → ℕ
    → ℕ
    → ℕ
    → Option Text
    → AccessScope
    → Db
    → Result (Db × Turf)
archive_turf defaults policies now turf_id actor_user_id reason scope db = do
  policy ← get_effective_policy defaults policies scope.organization_id scope.campaign_id
  let normalized_reason = non_empty (trimmed_option reason)
  refuse (policy.settings.require_archive_reason && is_null normalized_reason)
      (bad_request "An archive reason is required by the current policy")
  turf ← found (find_scoped_turf db turf_id scope) (not_found "Turf not found")
  refuse (ltb 0 (open_session_count turf_id db))
      (bad_request "Cannot archive a turf with an open session")
  let purge_at = build_purge_at now policy.settings.retention_purge_days
  let updated = archived_turf now purge_at turf
  let ended = end_current now (or_value normalized_reason (text "archived")) turf_id db
  ok (
    log_turf (update_turf turf_id (archived_turf now purge_at) ended) actor_user_id "turf_archived"
        turf_id normalized_reason (("status", turf_status_of turf.status) ∷ [])
        (("status", turf_status_of updated.status)
          ∷ ("archivedAt", optional_time updated.archived_at)
          ∷ ("purgeAt", optional_time updated.purge_at)
          ∷ []),
    updated,
  )

-- `archivedAt` is that of the turf that was found.
abbrev pub deleted_turf : ℕ → Option ℕ → Text → Option ℕ → Turf → Turf
deleted_turf now archived_at reason purge_at t = record t {
  status = TurfStatus.archived;
  archived_at = or_else archived_at (some now);
  deleted_at = some now;
  delete_reason = some reason;
  purge_at = purge_at;
}

abbrev pub delete_addresses : ℕ → Text → Option ℕ → ℕ → Db → Db
delete_addresses now reason purge_at turf_id db = record db {
  addresses =
      update_where (λ a. a.turf_id == turf_id && is_null a.deleted_at)
        (λ a. record a { deleted_at = some now; delete_reason = some reason; purge_at = purge_at })
        db.addresses;
}

unfoldable pub delete_turf :
    PolicySettings
    → List OperationalPolicy
    → ℕ
    → ℕ
    → ℕ
    → Text
    → AccessScope
    → Db
    → Result (Db × Turf)
delete_turf defaults policies now turf_id actor_user_id reason scope db = do
  let normalized_reason = trim reason
  refuse (is_blank normalized_reason) (bad_request "A delete reason is required")
  policy ← get_effective_policy defaults policies scope.organization_id scope.campaign_id
  turf ← found (find_scoped_turf db turf_id scope) (not_found "Turf not found")
  refuse (ltb 0 (open_session_count turf_id db))
      (bad_request "Cannot delete a turf with an open session")
  let purge_at = build_purge_at now policy.settings.retention_purge_days
  let updated = deleted_turf now turf.archived_at normalized_reason purge_at turf
  let ended =
      delete_addresses now normalized_reason purge_at turf_id
        (end_current now normalized_reason turf_id db)
  ok (
    log_turf
        (update_turf turf_id (deleted_turf now turf.archived_at normalized_reason purge_at) ended)
        actor_user_id "turf_deleted" turf_id (some normalized_reason)
        (("status", turf_status_of turf.status) ∷ [])
        (("status", turf_status_of updated.status)
          ∷ ("deletedAt", optional_time updated.deleted_at)
          ∷ ("purgeAt", optional_time updated.purge_at)
          ∷ []),
    updated,
  )
