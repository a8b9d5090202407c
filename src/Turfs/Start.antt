-- ===== src/Turfs/Start.antt =====
-- Starting a session keeps the invariant: the new session stands apart from every open one.
use proactive.Base.{
  ℕ, true, false, ◌≡◌, refl, sym, ◌≢◌, inl, inr, none, ◌==◌, List, arith, All, Pairwise, In, any,
  find_first, All-weaken, All-both, All-in, Bool-cases, Option-cases, find_first-some,
  find_first-none, any-In, In-any, IfOk, IfOk-found, IfOk-absent, IfOk-step,
}
use proactive.Store.{Db, TurfAssignment, TurfSession, TurfStatus}
use proactive.Turfs.Apart.{Apart, Pairwise-found, holds, any-none, any-map-true}
use proactive.Turfs.Guards.{
  is_held, is_cross_turf, is_open, ensure_turf_session_availability,
  ensure_no_cross_turf_open_session, create_session,
}
use proactive.Turfs.Invariant.{assignment_holding, IsConsistent}
use proactive.Turfs.Preserve.{activated, activated-Keeps}
use proactive.Turfs.Consistent.{
  IsKept, is_held-current, IsReleased-status, activated-Apart, activated-IsCovered,
  activated-IsReleased,
}
use proactive.Turfs.Sessions.{SessionInput, is_own, open_session, start_session}

-- Only the assignment that was found is current on its turf.
sole_holder :
    (rows : List TurfAssignment) (t c d : ℕ) (a : TurfAssignment)
    → Pairwise (Apart assignment_holding) rows
    → In a rows
    → is_held t c a ≡ true
    → any (holds assignment_holding t d) rows ≡ true
    → d ≡ c
sole_holder rows t c d a p i held e =
    let (b, j, holding) = any-In _ rows e in
    elim (All-in _ (Pairwise-found assignment_holding p i) j) [
      | inl same ↦ ground arith
      | inr (_, differ) ↦ absurd ((differ (ground arith) (ground arith)).0 (ground arith))
    ]

-- An open session of nobody on another turf and of nobody on this one is none of the canvasser's.
not_own :
    (input : SessionInput) (s : TurfSession)
    → is_open s ≡ true
    → is_cross_turf input.canvasser_id input.turf_id s ≡ false
    → is_own input s ≡ false
    → s.canvasser_id ≢ input.canvasser_id
not_own input s o x y e = ground arith

module _ (now new_id : ℕ) (input : SessionInput) (a : TurfAssignment) (db : Db)
    (v : IsConsistent db) (i : In a db.assignments)
    (held : is_held input.turf_id input.canvasser_id a ≡ true)
    (no_cross : find_first (is_cross_turf input.canvasser_id input.turf_id) db.sessions ≡ none)
    (no_own : find_first (is_own input) db.sessions ≡ none) where
  -- Each session has another canvasser and another turf, if it is open.
  others :
      All
        (λ s.
          is_open s ≡ true → (input.turf_id ≢ s.turf_id) × (input.canvasser_id ≢ s.canvasser_id))
        db.sessions
  others =
      All-weaken _ _ db.sessions
        (λ s f o.
          let ((cross, own), covered) = f in
          let stranger = not_own input s o cross own in
          (
            λ e. stranger (
                sole_holder db.assignments input.turf_id input.canvasser_id s.canvasser_id a
                  v.assignments_apart i held (rw e (covered o))),
            λ e. stranger (sym e),
          ))
        (All-both _ _ db.sessions
          (All-both _ _ db.sessions (find_first-none _ db.sessions no_cross)
            (find_first-none _ db.sessions no_own))
          v.covered)

  open_session-IsConsistent : IfOk IsKept (open_session now new_id input a db)
  unfolding open_session create_session
  open_session-IsConsistent = elim (Bool-cases (any (λ s. s.id == new_id) db.sessions)) [
    | inl e ↦ rw e tt
    | inr e ↦
        let current = is_held-current input.turf_id input.canvasser_id a held in
        rw e (record {
          assignments_apart = activated-Apart db.assignments a v.assignments_apart i current;
          sessions_apart = (
            All-weaken _ _ db.sessions (λ s f. ((λ q. ground arith), λ _ o. f.1 o))
                (All-both _ _ db.sessions (any-none _ db.sessions e) others),
            v.sessions_apart,
          );
          covered = (
            λ _.
                any-map-true _ _ (activated a) db.assignments
                  (All-weaken _ _ db.assignments
                    (λ x f. activated-Keeps a current x f input.turf_id input.canvasser_id)
                    (Pairwise-found assignment_holding v.assignments_apart i))
                  (In-any _ db.assignments i held),
            activated-IsCovered db.assignments a v.assignments_apart i current db.sessions
                v.covered,
          );
          released = IsReleased-status _ input.turf_id TurfStatus.in_progress db.turfs refl (
              activated-IsReleased db.assignments a v.assignments_apart i current db.turfs
                v.released);
        })
  ]

pub start_session-IsConsistent :
    (now new_id : ℕ) (input : SessionInput) (db : Db)
    → IsConsistent db
    → IfOk IsKept (start_session now new_id input db)
unfolding start_session ensure_no_cross_turf_open_session
start_session-IsConsistent now new_id input db v =
    IfOk-found IsKept (find_first (is_held input.turf_id input.canvasser_id) db.assignments) _ _
      λ a found.
        IfOk-absent IsKept (find_first (is_cross_turf input.canvasser_id input.turf_id) db.sessions)
          _ _
          λ no_cross.
            IfOk-step IsKept (ensure_turf_session_availability db input.turf_id input.canvasser_id)
              _
              λ _ _.
                let (i, held) = find_first-some _ db.assignments found in
                elim (Option-cases (find_first (is_own input) db.sessions)) [
                  | inl e ↦
                      rw e (open_session-IsConsistent now new_id input a db v i held no_cross e)
                  | inr (s, e) ↦ rw e v
                ]
