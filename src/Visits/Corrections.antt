-- ===== src/Visits/Corrections.antt =====
-- What a correction that goes through had to meet, and what it writes.
use proactive.Base.{
  ℕ, Bool, true, false, ◌≡◌, refl, not, ◌&&◌, ◌||◌, ◌==◌, ◌*◌, ◌+◌, ◌≤◌, some, List, arith, is_null,
  is_blank, trim, non_empty, find_first, eq_of_beq, IfOk, IfOk-found, IfOk-refuse, IfOk-step, ok,
  >>=-eq-ok, refuse,
}
use proactive.Store.{Db, VisitLog, CorrectionSnapshot, is_canvasser, is_conflict}
use proactive.Policies.{OperationalPolicy, EffectivePolicy, get_effective_policy}
use proactive.Policies.Settings.{PolicySettings}
use proactive.Visits.Platform.{Platform}
use proactive.Visits.Outcomes.{find_scoped_outcome_definition}
use proactive.Visits.Correct.{
  CorrectionInput, find_scoped_visit, ensure_correctable_by, build_correction_lock_reason,
  refuse_locked, normalize_correction_notes, build_correction_snapshot, same_snapshot,
  corrected_values, with_values, record_correction, correct_visit, get_correction_window_minutes,
  is_overridden,
}

module _ (platform : Platform) (defaults : PolicySettings) (policies : List OperationalPolicy)
    (now : ℕ) where
  -- Who may correct: anyone but a canvasser, or the canvasser of the visit within the window of the
  -- policy in effect for the visit.
  abbrev pub IsPermitted : CorrectionInput → VisitLog → Bool → Type 0
  IsPermitted input visit false = Unit
  IsPermitted input visit true =
      (visit.canvasser_id ≡ input.actor_user_id)
      × (policy : EffectivePolicy) × (get_effective_policy defaults policies visit.organization_id
            visit.campaign_id
          ≡ ok policy)
      × (now
          ≤ visit.visit_time
            + get_correction_window_minutes policy.settings.canvasser_correction_window_minutes
              * 60
              * 1000)

  ensure_correctable_by-IsPermitted :
      (input : CorrectionInput) (visit : VisitLog) (canvasser : Bool)
      → ensure_correctable_by platform defaults policies now input visit canvasser ≡ ok tt
      → IsPermitted input visit canvasser
  unfolding ensure_correctable_by
  ensure_correctable_by-IsPermitted input visit false h = tt
  ensure_correctable_by-IsPermitted input visit true h =
      let (_, own, h1) =
        >>=-eq-ok (refuse (not (visit.canvasser_id == input.actor_user_id)) _) _ h in
      let (policy, e, h2) =
        >>=-eq-ok (get_effective_policy defaults policies visit.organization_id visit.campaign_id) _
          h1 in
      (eq_of_beq _ _ (ground arith), policy, e, ground arith)

  -- What a correction has found and written.
  pub record IsCorrected (input : CorrectionInput) (db : Db) (r : Db × VisitLog) : Type 0 where
    pub visit : VisitLog
    pub listed : find_scoped_visit db input.visit_id input.scope ≡ some visit
    pub permitted : IsPermitted input visit (is_canvasser input.actor_role)
    pub unexported : visit.van_exported ≡ false
    pub settled : (visit.sync_conflict_flag || is_conflict visit.sync_status) ≡ false
    pub verified :
        is_overridden (find_first (λ g. g.visit_log_id == visit.id) db.geofence_results) ≡ false
    pub values : CorrectionSnapshot
    pub changed : same_snapshot (build_correction_snapshot visit) values ≡ false
    pub reason : is_blank (trim input.reason) ≡ false
    pub written :
        r ≡ (record_correction input (trim input.reason) visit values db, with_values values visit)

  pub correct_visit-IsCorrected :
      (input : CorrectionInput) (db : Db)
      → IfOk (IsCorrected input db) (correct_visit platform defaults policies now input db)
  unfolding correct_visit build_correction_lock_reason
  correct_visit-IsCorrected input db =
      let P = IsCorrected input db in
      IfOk-refuse P (is_blank (trim input.reason)) _ _ λ reason.
        IfOk-found P (find_scoped_visit db input.visit_id input.scope) _ _ λ visit listed.
          IfOk-step P
            (ensure_correctable_by platform defaults policies now input visit
              (is_canvasser input.actor_role))
            _
            λ _ permitted.
              IfOk-step P
                (refuse_locked (
                  build_correction_lock_reason visit
                    (find_first (λ g. g.visit_log_id == visit.id) db.geofence_results)))
                _
                λ _ unlocked.
                  IfOk-step P
                    (find_scoped_outcome_definition platform defaults policies
                      input.scope.organization_id input.scope.campaign_id input.outcome_code db)
                    _
                    λ definition _. IfOk-found P definition _ _ λ outcome _.
                      IfOk-refuse P
                        (outcome.requires_note
                          && is_null
                              (non_empty (normalize_correction_notes input.notes visit.notes)))
                        _ _
                        λ _.
                          IfOk-refuse P
                            (same_snapshot (build_correction_snapshot visit) (
                              corrected_values outcome
                                (normalize_correction_notes input.notes visit.notes)))
                            _ _
                            λ changed. record {
                              visit = visit;
                              listed = listed;
                              permitted =
                                  ensure_correctable_by-IsPermitted input visit
                                    (is_canvasser input.actor_role) permitted;
                              unexported = ground arith;
                              settled = ground arith;
                              verified = ground arith;
                              values =
                                  corrected_values outcome
                                    (normalize_correction_notes input.notes visit.notes);
                              changed = changed;
                              reason = reason;
                              written = refl;
                            }
