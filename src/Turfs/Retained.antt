-- ===== src/Turfs/Retained.antt =====
-- Creating, rescoping, reopening, archiving and deleting a turf keep the invariant.
use proactive.Base.{
  All-map, text, ℕ, false, ◌≡◌, refl, inl, inr, none, Option, Text, trim, is_blank, is_null,
  non_empty, trimmed_option, ◌&&◌, ◌==◌, ltb, if◌then◌else◌, List, map, arith, All, any, All-weaken,
  All-everywhere, Bool-cases, eq_of_beq, count-zero, or_value, IfOk, IfOk-found, IfOk-refuse,
  IfOk-step,
}
use proactive.Store.{Db, Turf, TurfAssignment}
use proactive.Access.{AccessScope}
use proactive.Policies.{OperationalPolicy, get_effective_policy}
use proactive.Policies.Settings.{PolicySettings}
use proactive.Turfs.Apart.{Weakens, Pairwise-Weakens, holds_turf, any-false}
use proactive.Turfs.Guards.{
  find_user, find_scoped_turf, validate_team_scope, is_open_on, is_current_on,
}
use proactive.Turfs.Invariant.{assignment_holding, session_holding, IsReleased, IsConsistent}
use proactive.Turfs.Preserve.{
  IsCovered-sessions, IsCovered-assignments, IsReleased-assignments, IsReleased-turfs,
}
use proactive.Turfs.Admin.{
  CreateTurfInput, TurfScopeInput, create_turf, propagate_scope, update_turf_scope, end_assignment,
}
use proactive.Turfs.Retire.{open_session_count, end_current, reopen_turf, archive_turf, delete_turf}

abbrev pub IsRetained : Db × Turf → Type 0
IsRetained r = IsConsistent r.0

pub create_turf-IsConsistent :
    (now new_id : ℕ) (input : CreateTurfInput) (created_by_id : ℕ) (db : Db)
    → IsConsistent db
    → IfOk IsRetained (create_turf now new_id input created_by_id db)
unfolding create_turf
create_turf-IsConsistent now new_id input created_by_id db v =
    IfOk-step IsRetained (find_user db created_by_id) _ λ creator _.
      IfOk-step IsRetained (validate_team_scope db creator.organization_id input.team_id) _
        λ team _. record {
          assignments_apart = v.assignments_apart;
          sessions_apart = v.sessions_apart;
          covered = v.covered;
          released = (λ h. cc, v.released);
        }

propagate_scope-IsConsistent :
    (team_id : Option (Option ℕ)) (region : Option Text) (turf_id : ℕ) (db : Db)
    → IsConsistent db
    → IsConsistent (propagate_scope team_id region turf_id db)
unfolding propagate_scope
propagate_scope-IsConsistent team_id region turf_id db v = record {
  assignments_apart =
      Pairwise-Weakens assignment_holding _ db.assignments
        (All-everywhere _ db.assignments (λ a. ground arith)) v.assignments_apart;
  sessions_apart =
      Pairwise-Weakens session_holding _ db.sessions
        (All-everywhere _ db.sessions (λ s. ground arith)) v.sessions_apart;
  covered =
      IsCovered-assignments db.assignments _ _
        (All-everywhere _ _ (λ s _. All-everywhere _ db.assignments (λ a h. ground arith)))
        (IsCovered-sessions db.assignments _ db.sessions
          (All-everywhere _ db.sessions (λ s. ground arith)) v.covered);
  released = IsReleased-turfs _ _ db.turfs (All-everywhere _ db.turfs (λ t. ground arith)) (
      IsReleased-assignments db.assignments _ db.turfs
        (All-everywhere _ db.assignments (λ a. ground arith)) v.released);
}

pub update_turf_scope-IsConsistent :
    (turf_id : ℕ) (input : TurfScopeInput) (actor_user_id : ℕ) (scope : AccessScope) (db : Db)
    → IsConsistent db
    → IfOk IsRetained (update_turf_scope turf_id input actor_user_id scope db)
unfolding update_turf_scope
update_turf_scope-IsConsistent turf_id input actor_user_id scope db v =
    IfOk-found IsRetained (find_scoped_turf db turf_id scope) _ _ λ turf _.
      IfOk-step IsRetained
        (validate_team_scope db turf.organization_id (or_value input.team_id none)) _
        λ team _.
          let c = propagate_scope-IsConsistent input.team_id _ turf_id db v in
          record {
            assignments_apart = c.assignments_apart;
            sessions_apart = c.sessions_apart;
            covered = c.covered;
            released = c.released;
          }

pub reopen_turf-IsConsistent :
    (now turf_id actor_user_id : ℕ) (reason : Option Text) (scope : AccessScope) (db : Db)
    → IsConsistent db
    → IfOk IsRetained (reopen_turf now turf_id actor_user_id reason scope db)
unfolding reopen_turf
reopen_turf-IsConsistent now turf_id actor_user_id reason scope db v =
    IfOk-found IsRetained (find_scoped_turf db turf_id scope) _ _ λ turf _.
      IfOk-refuse IsRetained (ltb 0 (open_session_count turf_id db)) _ _ λ _. record {
        assignments_apart = v.assignments_apart;
        sessions_apart = v.sessions_apart;
        covered = v.covered;
        released =
            IsReleased-turfs _ _ db.turfs (All-everywhere _ db.turfs (λ t. ground arith))
              v.released;
      }

-- The end of the current assignments of a turf that has no open session.
module _ (now : ℕ) (reason : Text) (turf_id : ℕ) (db : Db) (v : IsConsistent db)
    (idle : ltb 0 (open_session_count turf_id db) ≡ false) where
  abbrev ended : TurfAssignment → TurfAssignment
  ended a = if is_current_on turf_id a then end_assignment now reason a else a

  ended-Weakens : All (Weakens assignment_holding ended) db.assignments
  ended-Weakens = All-everywhere _ db.assignments (λ a. ground arith)

  none_open : All (λ s. is_open_on turf_id s ≡ false) db.sessions
  none_open = count-zero _ db.sessions (ground arith)

  end_current-IsConsistent : IsConsistent (end_current now reason turf_id db)
  end_current-IsConsistent = record {
    assignments_apart =
        Pairwise-Weakens assignment_holding ended db.assignments ended-Weakens v.assignments_apart;
    sessions_apart = v.sessions_apart;
    covered =
        IsCovered-assignments db.assignments ended db.sessions
          (All-weaken _ _ db.sessions
            (λ s f o. All-everywhere _ db.assignments (λ a h. ground arith)) none_open)
          v.covered;
    released = IsReleased-assignments db.assignments ended db.turfs ended-Weakens v.released;
  }

  -- The turf has no current assignment left.
  none_current :
      (t : ℕ)
      → t ≡ turf_id
      → any (holds_turf assignment_holding t) (map ended db.assignments) ≡ false
  none_current t e = any-false _ _ (
      All-map (λ _. Unit {0}) _ ended db.assignments (λ a _. ground arith)
        (All-everywhere _ db.assignments (λ _. tt)))

  retired_turf :
      (f : Turf → Turf)
      → ((t : Turf) → (f t).id ≡ t.id)
      → All
          (IsReleased (map ended db.assignments))
          (map (λ t. if t.id == turf_id then f t else t) db.turfs)
  retired_turf f same =
      IsReleased-turfs _ _ db.turfs
        (All-everywhere _ db.turfs (λ t. elim (Bool-cases (t.id == turf_id)) [
          | inl e ↦ rw e (same t, λ _. inr (none_current t.id (eq_of_beq _ _ e)))
          | inr e ↦ rw e (refl, λ h. inl h)
        ]))
        end_current-IsConsistent.released

pub archive_turf-IsConsistent :
    (defaults : PolicySettings) (policies : List OperationalPolicy) (now turf_id actor_user_id : ℕ)
    (reason : Option Text) (scope : AccessScope) (db : Db)
    → IsConsistent db
    → IfOk IsRetained (archive_turf defaults policies now turf_id actor_user_id reason scope db)
unfolding archive_turf
archive_turf-IsConsistent defaults policies now turf_id actor_user_id reason scope db v =
    IfOk-step IsRetained
      (get_effective_policy defaults policies scope.organization_id scope.campaign_id) _
      λ policy _.
        IfOk-refuse IsRetained
          (policy.settings.require_archive_reason && is_null (non_empty (trimmed_option reason))) _
          _
          λ _. IfOk-found IsRetained (find_scoped_turf db turf_id scope) _ _ λ turf _.
            IfOk-refuse IsRetained (ltb 0 (open_session_count turf_id db)) _ _ λ idle.
              let c =
                end_current-IsConsistent now
                  (or_value (non_empty (trimmed_option reason)) (text "archived")) turf_id db v
                  idle in
              record {
                assignments_apart = c.assignments_apart;
                sessions_apart = c.sessions_apart;
                covered = c.covered;
                released = retired_turf now _ turf_id db v idle _ (λ t. refl);
              }

pub delete_turf-IsConsistent :
    (defaults : PolicySettings) (policies : List OperationalPolicy) (now turf_id actor_user_id : ℕ)
    (reason : Text) (scope : AccessScope) (db : Db)
    → IsConsistent db
    → IfOk IsRetained (delete_turf defaults policies now turf_id actor_user_id reason scope db)
unfolding delete_turf
delete_turf-IsConsistent defaults policies now turf_id actor_user_id reason scope db v =
    IfOk-refuse IsRetained (is_blank (trim reason)) _ _ λ _.
      IfOk-step IsRetained
        (get_effective_policy defaults policies scope.organization_id scope.campaign_id) _
        λ policy _. IfOk-found IsRetained (find_scoped_turf db turf_id scope) _ _ λ turf _.
          IfOk-refuse IsRetained (ltb 0 (open_session_count turf_id db)) _ _ λ idle.
            let c = end_current-IsConsistent now (trim reason) turf_id db v idle in
            record {
              assignments_apart = c.assignments_apart;
              sessions_apart = c.sessions_apart;
              covered = c.covered;
              released = retired_turf now _ turf_id db v idle _ (λ t. refl);
            }
