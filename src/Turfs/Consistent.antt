-- ===== src/Turfs/Consistent.antt =====
-- The session operations keep the invariant of the tables.
use proactive.Base.{
  ℕ, true, false, ◌≡◌, refl, inl, inr, ◌==◌, if◌then◌else◌, List, map, arith, All, Pairwise, In,
  any, find_first, All-weaken, All-everywhere, Bool-cases, find_first-some, IfOk, IfOk-found,
  IfOk-step,
}
use proactive.Store.{Db, Turf, TurfAssignment, TurfSession, TurfStatus, is_current}
use proactive.Turfs.Apart.{Apart, Weakens, Pairwise-Weakens, Pairwise-found}
use proactive.Turfs.Guards.{
  is_held, ensure_turf_session_availability, ensure_no_cross_turf_open_session,
}
use proactive.Turfs.Invariant.{
  assignment_holding, session_holding, is_finished, IsCovered, IsReleased, IsConsistent,
}
use proactive.Turfs.Preserve.{
  IsCovered-sessions, IsCovered-assignments, IsReleased-assignments, IsReleased-turfs, activated,
  activated-Weakens, activated-Keeps,
}
use proactive.Turfs.Sessions.{
  SessionInput, SessionView, is_active, is_paused, latest_own, paused_session, resumed_session,
  pause_session, resume_session,
}

abbrev pub IsKept : Db × SessionView → Type 0
IsKept r = IsConsistent r.0

-- A change of a session's status alone.
paused_Weakens :
    (now id : ℕ) (s : TurfSession)
    → Weakens session_holding (λ x. if x.id == id then paused_session now x else x) s
paused_Weakens now id s = ground arith

resumed_Weakens :
    (now id : ℕ) (s : TurfSession)
    → Weakens session_holding (λ x. if x.id == id then resumed_session now x else x) s
resumed_Weakens now id s = ground arith

-- A turf's status may become one that is not finished.
pub IsReleased-status :
    (rows : List TurfAssignment) (id : ℕ) (status : TurfStatus) (ts : List Turf)
    → is_finished status ≡ false
    → All (IsReleased rows) ts
    → All (IsReleased rows) (map (λ t. if t.id == id then record t { status = status } else t) ts)
IsReleased-status rows id status ts e r =
    IsReleased-turfs rows _ ts (All-everywhere _ ts (λ t. ground arith)) r

pub pause_session-IsConsistent :
    (now : ℕ) (input : SessionInput) (db : Db)
    → IsConsistent db
    → IfOk IsKept (pause_session now input db)
unfolding pause_session
pause_session-IsConsistent now input db v =
    IfOk-found IsKept (latest_own input is_active db) _ _ λ session _.
      elim (Bool-cases (any (λ t. t.id == input.turf_id) db.turfs)) [
        | inl e ↦ rw e (record {
          assignments_apart = v.assignments_apart;
          sessions_apart =
              Pairwise-Weakens session_holding _ db.sessions
                (All-everywhere _ db.sessions (paused_Weakens now session.id)) v.sessions_apart;
          covered =
              IsCovered-sessions db.assignments _ db.sessions
                (All-everywhere _ db.sessions (paused_Weakens now session.id)) v.covered;
          released =
              IsReleased-status db.assignments input.turf_id TurfStatus.paused db.turfs refl
                v.released;
        })
        | inr e ↦ rw e tt
      ]

-- The rows as the found assignment becomes active.
module _ (rows : List TurfAssignment) (a : TurfAssignment)
    (apart : Pairwise (Apart assignment_holding) rows) (i : In a rows)
    (current : is_current a.status ≡ true) where
  pub activated-All : All (Weakens assignment_holding (activated a)) rows
  activated-All =
      All-weaken _ _ rows (λ x f. activated-Weakens a current x f)
        (Pairwise-found assignment_holding apart i)

  pub activated-Apart : Pairwise (Apart assignment_holding) (map (activated a) rows)
  activated-Apart = Pairwise-Weakens assignment_holding (activated a) rows activated-All apart

  pub activated-IsCovered :
      (ss : List TurfSession)
      → All (IsCovered rows) ss
      → All (IsCovered (map (activated a) rows)) ss
  activated-IsCovered ss c =
      IsCovered-assignments rows (activated a) ss
        (All-everywhere _ ss (λ s _.
          All-weaken _ _ rows (λ x f. activated-Keeps a current x f s.turf_id s.canvasser_id)
            (Pairwise-found assignment_holding apart i)))
        c

  pub activated-IsReleased :
      (ts : List Turf) → All (IsReleased rows) ts → All (IsReleased (map (activated a) rows)) ts
  activated-IsReleased ts r = IsReleased-assignments rows (activated a) ts activated-All r

pub is_held-current :
    (t c : ℕ) (a : TurfAssignment) → is_held t c a ≡ true → is_current a.status ≡ true
is_held-current t c a h = ground arith

pub resume_session-IsConsistent :
    (now : ℕ) (input : SessionInput) (db : Db)
    → IsConsistent db
    → IfOk IsKept (resume_session now input db)
unfolding resume_session
resume_session-IsConsistent now input db v =
    IfOk-found IsKept (find_first (is_held input.turf_id input.canvasser_id) db.assignments) _ _
      λ a found.
        IfOk-step IsKept (ensure_no_cross_turf_open_session db input.canvasser_id input.turf_id) _
          λ _ _.
            IfOk-step IsKept (ensure_turf_session_availability db input.turf_id input.canvasser_id)
              _
              λ _ _. IfOk-found IsKept (latest_own input is_paused db) _ _ λ session _.
                let (i, held) = find_first-some _ db.assignments found in
                let current = is_held-current input.turf_id input.canvasser_id a held in
                record {
                  assignments_apart =
                      activated-Apart db.assignments a v.assignments_apart i current;
                  sessions_apart =
                      Pairwise-Weakens session_holding _ db.sessions
                        (All-everywhere _ db.sessions (resumed_Weakens now session.id))
                        v.sessions_apart;
                  covered =
                      IsCovered-sessions _ _ db.sessions
                        (All-everywhere _ db.sessions (resumed_Weakens now session.id))
                        (activated-IsCovered db.assignments a v.assignments_apart i current
                          db.sessions v.covered);
                  released =
                      IsReleased-status _ input.turf_id TurfStatus.in_progress db.turfs refl (
                        activated-IsReleased db.assignments a v.assignments_apart i current db.turfs
                          v.released);
                }
