-- ===== src/Turfs/Complete.antt =====
-- Completing a session keeps the invariant: no other open session rests on the assignment.
use proactive.Base.{
  eq_of_beq, All-map, ℕ, true, false, ◌≡◌, ◌≢◌, ◌⊎◌, inl, inr, ◌&&◌, ◌==◌, if◌then◌else◌, map,
  arith, All, In, any, count, All-everywhere, Bool-cases, find_latest-some, count-zero, IfOk,
  IfOk-found,
}
use proactive.Store.{Db, Turf, TurfAssignment, TurfSession, AssignmentStatus}
use proactive.Turfs.Apart.{Weakens, Pairwise-Weakens, Pairwise-found, holds_turf, any-false}
use proactive.Turfs.Guards.{is_held, is_open, is_open_on, is_current_on}
use proactive.Turfs.Invariant.{assignment_holding, session_holding, is_finished, IsConsistent}
use proactive.Turfs.Preserve.{
  Keeps, IsCovered-sessions, IsCovered-assignments, IsReleased-assignments, IsReleased-turfs,
}
use proactive.Turfs.Consistent.{IsKept}
use proactive.Turfs.Sessions.{
  SessionInput, is_own, is_running, latest_own, ended_session, close_session, completed_turf,
  complete_session,
}

abbrev done : SessionInput → TurfAssignment → TurfAssignment
done input a =
    if is_held input.turf_id input.canvasser_id a
    then record a { status = AssignmentStatus.completed }
    else a

done-Weakens :
    (input : SessionInput) (a : TurfAssignment) → Weakens assignment_holding (done input) a
done-Weakens input a = ground arith

ended-Weakens :
    (now id : ℕ) (input : SessionInput) (s : TurfSession)
    → Weakens session_holding (λ x. if x.id == id then ended_session now input x else x) s
ended-Weakens now id input s = ground arith

-- The assignments of others stay as they are.
done-Keeps :
    (input : SessionInput) (t c : ℕ) (a : TurfAssignment)
    → c ≢ input.canvasser_id
    → Keeps (done input) t c a
done-Keeps input t c a d h = ground arith

-- A turf becomes completed only where no assignment is current.
completed_turf-released :
    (now : ℕ) (input : SessionInput) (db : Db) (t : Turf)
    → let g = λ (x : Turf). if x.id == input.turf_id then completed_turf now input db x else x in
      ((g t).id ≡ t.id)
      × (is_finished (g t).status ≡ true
          → (is_finished t.status ≡ true)
            ⊎ (any (holds_turf assignment_holding t.id) db.assignments ≡ false))
unfolding completed_turf
completed_turf-released now input db t = (
  ground arith,
  λ h. elim (Bool-cases (t.id == input.turf_id)) [
    | inl e ↦
        elim (Bool-cases (
          count (is_open_on input.turf_id) db.sessions == 0
          && count (is_current_on input.turf_id) db.assignments == 0)) [
            | inl z ↦ inr (
                rw (eq_of_beq _ _ e)
                  (any-false _ db.assignments (count-zero _ db.assignments (ground arith))))
            | inr z ↦ absurd (ground arith)
          ]
    | inr e ↦ inl (ground arith)
  ],
)

module _ (now : ℕ) (input : SessionInput) (session : TurfSession) (db : Db) (v : IsConsistent db)
    (i : In session db.sessions) (own : is_own input session ≡ true) where
  abbrev ended : TurfSession → TurfSession
  ended s = if s.id == session.id then ended_session now input s else s

  -- A session that is open still has another canvasser.
  strangers :
      All
        (λ s. is_open s ≡ true → All (Keeps (done input) s.turf_id s.canvasser_id) db.assignments)
        (map ended db.sessions)
  strangers =
      All-map _ _ ended db.sessions
        (λ s f o.
          let other : (ended s).canvasser_id ≢ input.canvasser_id = elim f [
            | inl same ↦ absurd (ground arith)
            | inr (_, differ) ↦ λ e. (differ (ground arith) (ground arith)).1 (ground arith)
          ] in
          All-everywhere _ db.assignments
            (λ a. done-Keeps input (ended s).turf_id (ended s).canvasser_id a other))
        (Pairwise-found session_holding v.sessions_apart i)

  close_session-IsConsistent : IsConsistent (close_session now input session db)
  unfolding close_session
  close_session-IsConsistent =
      let weak = All-everywhere _ db.sessions (ended-Weakens now session.id input) in
      let gone = All-everywhere _ db.assignments (done-Weakens input) in
      record {
        assignments_apart =
            Pairwise-Weakens assignment_holding (done input) db.assignments gone
              v.assignments_apart;
        sessions_apart = Pairwise-Weakens session_holding ended db.sessions weak v.sessions_apart;
        covered =
            IsCovered-assignments db.assignments (done input) _ strangers
              (IsCovered-sessions db.assignments ended db.sessions weak v.covered);
        released = IsReleased-assignments db.assignments (done input) db.turfs gone v.released;
      }

pub complete_session-IsConsistent :
    (now : ℕ) (input : SessionInput) (db : Db)
    → IsConsistent db
    → IfOk IsKept (complete_session now input db)
unfolding complete_session
complete_session-IsConsistent now input db v =
    IfOk-found IsKept (latest_own input is_running db) _ _ λ session found.
      let (i, wanted, _) = find_latest-some (λ s. s.start_time) _ db.sessions found in
      let c = close_session-IsConsistent now input session db v i (ground arith) in
      elim (Bool-cases (any (λ t. t.id == input.turf_id) db.turfs)) [
        | inl e ↦ rw e (record {
          assignments_apart = c.assignments_apart;
          sessions_apart = c.sessions_apart;
          covered = c.covered;
          released =
              IsReleased-turfs _ _ db.turfs
                (All-everywhere _ db.turfs
                  (completed_turf-released now input (close_session now input session db)))
                c.released;
        })
        | inr e ↦ rw e tt
      ]
