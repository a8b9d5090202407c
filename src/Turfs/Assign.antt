-- ===== src/Turfs/Assign.antt =====
-- Assigning a turf keeps the invariant, and leaves one current assignment on the turf and one of
-- the canvasser.
use proactive.Base.{
  non_empty, or_value, text, ℕ, true, false, ◌≡◌, refl, ◌≢◌, inl, inr, none, Option, Text, ◌==◌,
  if◌then◌else◌, List, [], ◌∷◌, map, arith, All, Pairwise, any, find_first, All-weaken,
  All-everywhere, All-both, All-map, Bool-cases, Option-cases, find_first-some, find_first-none,
  IfOk, IfOk-found, IfOk-refuse, IfOk-step, IfOk-absent,
}
use proactive.Store.{Db, Turf, TurfAssignment, TurfSession, TurfStatus, is_current}
use proactive.Access.{AccessScope}
use proactive.Turfs.Apart.{
  Apart, Weakens, Pairwise-Weakens, Pairwise-found, holds, any-none, any-map-true,
}
use proactive.Turfs.Guards.{
  find_scoped_turf, ensure_assignable_canvasser, ensure_no_cross_turf_open_session,
  create_assignment, is_cross_turf, is_open, is_open_on, is_current_on,
}
use proactive.Turfs.Invariant.{
  assignment_holding, session_holding, IsCovered, IsReleased, IsConsistent,
}
use proactive.Turfs.Preserve.{Keeps, IsReleased-assignments}
use proactive.Turfs.Admin.{
  is_elsewhere, end_assignment, end_assignments, held_by_other, ids_clash, texts_clash, assign_turf,
  new_assignment,
}

abbrev pub IsAssigned : Db × TurfAssignment → Type 0
IsAssigned r = IsConsistent r.0

-- A row that, if it is current, is on another turf and of another canvasser.
abbrev pub IsAway : ℕ → ℕ → TurfAssignment → Type 0
IsAway turf_id canvasser_id a =
    is_current a.status ≡ true → (turf_id ≢ a.turf_id) × (canvasser_id ≢ a.canvasser_id)

-- The two updates, row by row.
module _ (now : ℕ) (reason other : Text) (canvasser_id turf_id : ℕ) where
  abbrev pub off_turf : TurfAssignment → TurfAssignment
  off_turf a = if is_current_on turf_id a then end_assignment now reason a else a

  abbrev pub off_others : TurfAssignment → TurfAssignment
  off_others a = if is_elsewhere canvasser_id turf_id a then end_assignment now other a else a

  off_turf-Weakens : (a : TurfAssignment) → Weakens assignment_holding off_turf a
  off_turf-Weakens a = ground arith

  off_others-Weakens : (a : TurfAssignment) → Weakens assignment_holding off_others a
  off_others-Weakens a = ground arith

  off_turf-Keeps : (t c : ℕ) (a : TurfAssignment) → t ≢ turf_id → Keeps off_turf t c a
  off_turf-Keeps t c a d h = ground arith

  off_others-Keeps : (t c : ℕ) (a : TurfAssignment) → c ≢ canvasser_id → Keeps off_others t c a
  off_others-Keeps t c a d h = ground arith

  -- What is current after both is on another turf and of another canvasser.
  pub ended_apart : (a : TurfAssignment) → IsAway turf_id canvasser_id (off_others (off_turf a))
  ended_apart a h = ground arith

module _ (turf_id canvasser_id : ℕ) (db : Db) (v : IsConsistent db)
    (no_cross : find_first (is_cross_turf canvasser_id turf_id) db.sessions ≡ none)
    (own : held_by_other (find_first (is_open_on turf_id) db.sessions) canvasser_id ≡ false) where
  not_cross :
      (s : TurfSession)
      → is_open s ≡ true
      → is_cross_turf canvasser_id turf_id s ≡ false
      → s.turf_id ≢ turf_id
      → s.canvasser_id ≢ canvasser_id
  not_cross s o n d e = ground arith

  -- An open session on the turf is the canvasser's.
  own_sessions : All (λ s. is_open_on turf_id s ≡ true → s.canvasser_id ≡ canvasser_id) db.sessions
  own_sessions = elim (Option-cases (find_first (is_open_on turf_id) db.sessions)) [
    | inl e ↦
        All-weaken _ _ db.sessions (λ s n o. absurd (ground arith))
          (find_first-none _ db.sessions e)
    | inr (first, e) ↦
        let (i, o) = find_first-some _ db.sessions e in
        let mine : first.canvasser_id ≡ canvasser_id = let h = rw e at own in ground arith in
        All-weaken _ _ db.sessions
          (λ s f q. elim f [
            | inl same ↦ rw (← same) mine
            | inr (_, differ) ↦ absurd ((differ (ground arith) (ground arith)).0 (ground arith))
          ])
          (Pairwise-found session_holding v.sessions_apart i)
  ]

  -- An open session on another turf is of another canvasser.
  other_sessions :
      All (λ s. is_open s ≡ true → s.turf_id ≢ turf_id → s.canvasser_id ≢ canvasser_id) db.sessions
  other_sessions =
      All-weaken _ _ db.sessions (λ s n o d. not_cross s o n d)
        (find_first-none _ db.sessions no_cross)

IsReleased-assigned :
    (new : TurfAssignment) (rows : List TurfAssignment) (turf_id : ℕ) (ts : List Turf)
    → new.turf_id ≡ turf_id
    → All (IsReleased rows) ts
    → All
        (IsReleased (new ∷ rows))
        (map (λ t. if t.id == turf_id then record t { status = TurfStatus.assigned } else t) ts)
IsReleased-assigned new rows turf_id [] e r = tt
IsReleased-assigned new rows turf_id (t ∷ ts) e (r, rs) = (
  λ h. elim (Bool-cases (t.id == turf_id)) [
    | inl q ↦ absurd (ground arith)
    | inr q ↦ ground (arith, r)
  ],
  IsReleased-assigned new rows turf_id ts e rs,
)

-- The tables after the two updates and the new row.
module _ (now : ℕ) (reason other : Text) (turf_id canvasser_id : ℕ) (new : TurfAssignment) (db : Db)
    (v : IsConsistent db) (on : new.turf_id ≡ turf_id) (by : new.canvasser_id ≡ canvasser_id)
    (live : is_current new.status ≡ true)
    (own : All (λ s. is_open_on turf_id s ≡ true → s.canvasser_id ≡ canvasser_id) db.sessions)
    (others : All
      (λ s. is_open s ≡ true → s.turf_id ≢ turf_id → s.canvasser_id ≢ canvasser_id)
      db.sessions) where
  abbrev ended : List TurfAssignment
  ended =
      map (off_others now reason other canvasser_id turf_id)
        (map (off_turf now reason other canvasser_id turf_id) db.assignments)

  assigned-Apart :
      any (λ a. a.id == new.id) ended ≡ false → Pairwise (Apart assignment_holding) (new ∷ ended)
  assigned-Apart fresh = (
    All-weaken (λ a. ((a.id == new.id) ≡ false) × IsAway turf_id canvasser_id a) _ ended
        (λ a f. ((λ q. ground arith), λ _ l. let (t, c) = f.1 l in (rw on t, rw by c)))
        (All-both _ _ ended (any-none _ ended fresh) (
          All-map
            (λ a. IsAway turf_id canvasser_id (off_others now reason other canvasser_id turf_id a))
            (IsAway turf_id canvasser_id) (off_others now reason other canvasser_id turf_id) _
            (λ a w. w)
            (All-map (λ _. Unit {0}) _ (off_turf now reason other canvasser_id turf_id)
              db.assignments (λ a w. ended_apart now reason other canvasser_id turf_id a)
              (All-everywhere (λ _. Unit {0}) db.assignments (λ _. tt))))),
    Pairwise-Weakens assignment_holding _ _
        (All-everywhere _ _ (off_others-Weakens now reason other canvasser_id turf_id))
        (Pairwise-Weakens assignment_holding _ db.assignments
          (All-everywhere _ db.assignments (off_turf-Weakens now reason other canvasser_id turf_id))
          v.assignments_apart),
  )

  assigned-IsCovered : All (IsCovered (new ∷ ended)) db.sessions
  assigned-IsCovered =
      All-weaken _ _ db.sessions
        (λ s f o. elim (Bool-cases (s.turf_id == turf_id)) [
          | inl e ↦ let mine = f.0.0 (ground arith) in ground arith
          | inr e ↦
              let away : s.turf_id ≢ turf_id = ground arith in
              let kept : any (holds assignment_holding s.turf_id s.canvasser_id) ended ≡ true =
                any-map-true (holds assignment_holding s.turf_id s.canvasser_id)
                  (holds assignment_holding s.turf_id s.canvasser_id)
                  (off_others now reason other canvasser_id turf_id)
                  (map (off_turf now reason other canvasser_id turf_id) db.assignments)
                  (All-everywhere _
                    (map (off_turf now reason other canvasser_id turf_id) db.assignments)
                    (λ a.
                      off_others-Keeps now reason other canvasser_id turf_id s.turf_id
                        s.canvasser_id a (f.0.1 o away)))
                  (any-map-true (holds assignment_holding s.turf_id s.canvasser_id)
                    (holds assignment_holding s.turf_id s.canvasser_id)
                    (off_turf now reason other canvasser_id turf_id) db.assignments
                    (All-everywhere _ db.assignments (λ a.
                      off_turf-Keeps now reason other canvasser_id turf_id s.turf_id s.canvasser_id
                        a away))
                    (f.1 o)) in
              ground arith
        ])
        (All-both _ _ db.sessions (All-both _ _ db.sessions own others) v.covered)

  assigned-IsReleased : All (IsReleased ended) db.turfs
  assigned-IsReleased =
      IsReleased-assignments _ _ db.turfs
        (All-everywhere _ _ (off_others-Weakens now reason other canvasser_id turf_id))
        (IsReleased-assignments db.assignments _ db.turfs
          (All-everywhere _ db.assignments (off_turf-Weakens now reason other canvasser_id turf_id))
          v.released)

pub assign_turf-IsConsistent :
    (now new_id turf_id canvasser_id actor_user_id : ℕ) (reason : Option Text) (scope : AccessScope)
    (db : Db)
    → IsConsistent db
    → IfOk IsAssigned (assign_turf now new_id turf_id canvasser_id actor_user_id reason scope db)
unfolding assign_turf ensure_no_cross_turf_open_session create_assignment end_assignments
assign_turf-IsConsistent now new_id turf_id canvasser_id actor_user_id reason scope db v =
    IfOk-step IsAssigned (ensure_assignable_canvasser db canvasser_id scope.organization_id) _
      λ _ _. IfOk-found IsAssigned (find_scoped_turf db turf_id scope) _ _ λ turf _.
        IfOk-step IsAssigned (ensure_assignable_canvasser db canvasser_id scope.organization_id) _
          λ canvasser _. IfOk-refuse IsAssigned (ids_clash turf.team_id canvasser.team_id) _ _ λ _.
            IfOk-refuse IsAssigned
              (texts_clash (non_empty turf.region_code) (non_empty canvasser.region_code)) _ _
              λ _.
                IfOk-absent IsAssigned (find_first (is_cross_turf canvasser_id turf_id) db.sessions)
                  _ _
                  λ no_cross.
                    IfOk-refuse IsAssigned
                      (held_by_other (find_first (is_open_on turf_id) db.sessions) canvasser_id) _ _
                      λ mine.
                        let own = own_sessions turf_id canvasser_id db v no_cross mine in
                        let others = other_sessions turf_id canvasser_id db v no_cross mine in
                        let new =
                          new_assignment now new_id turf turf_id canvasser_id actor_user_id
                            reason in
                        let other = or_value reason (text "assigned_to_other_turf") in
                        let here = or_value reason (text "reassigned") in
                        elim (Bool-cases (
                          any (λ a. a.id == new_id)
                            (ended now here other turf_id canvasser_id new db v refl refl refl own
                              others))) [
                                | inl e ↦ rw e tt
                                | inr e ↦ rw e (record {
                                  assignments_apart =
                                      assigned-Apart now here other turf_id canvasser_id new db v
                                        refl refl refl own others e;
                                  sessions_apart = v.sessions_apart;
                                  covered =
                                      assigned-IsCovered now here other turf_id canvasser_id new db
                                        v refl refl refl own others;
                                  released = IsReleased-assigned new _ turf_id db.turfs refl (
                                      assigned-IsReleased now here other turf_id canvasser_id new db
                                        v refl refl refl own others);
                                })
                              ]
