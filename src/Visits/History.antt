-- ===== src/Visits/History.antt =====
-- Histories of visits that are logged and corrected, and the invariant of the table of visits.
use proactive.Base.{
  ℕ, Bool, true, false, ◌≡◌, refl, inl, inr, not, ◌==◌, ◌≤◌, Option, none, some, Text, List, [],
  ◌∷◌, map, arith, All, Pairwise, any, count, is_null, same_id, All-map, All-weaken, Pairwise-map,
  Bool-cases, count-none, IfOk, IfOk-ok, IfOk-of_eq, Result, ok, err, if◌then◌else◌,
}
use proactive.Store.{Db, VisitLog, SyncStatus, CorrectionSnapshot, is_conflict, is_verified}
use proactive.Policies.{OperationalPolicy}
use proactive.Policies.Settings.{PolicySettings}
use proactive.Turfs.History.{after}
use proactive.Visits.Platform.{Platform}
use proactive.Visits.Conflicts.{VisitInput, Checked, marked, clashes, is_taken, visit_row}
use proactive.Visits.Log.{log_visit}
use proactive.Visits.Correct.{CorrectionInput, correct_visit, with_values, record_correction}
use proactive.Visits.Corrections.{correct_visit-IsCorrected}
use proactive.Visits.Change.{Change, same, mark, add, log_visit-Change}
use proactive.Visits.Facts.{Facts, checked-Facts}

-- A call of the visit service, with the identifier that a new visit is given.
pub data VisitCall : Type 0 where
  log : ℕ → VisitInput → VisitCall
  correct : CorrectionInput → VisitCall

module _ (platform : Platform) (defaults : PolicySettings) (policies : List OperationalPolicy) where
  unfoldable pub visit_step : ℕ × VisitCall → Db → Db
  visit_step (now, log new_id input) db =
      (log_visit platform defaults policies now new_id input db).0
  visit_step (now, correct input) db =
      after db (correct_visit platform defaults policies now input db)

  unfoldable pub run_visits : List (ℕ × VisitCall) → Db → Db
  unfolding visit_step
  run_visits [] db = db
  run_visits (c ∷ cs) db = run_visits cs (visit_step c db)

-- Two visits share no identifier, no local record and no idempotency key.
abbrev pub IsSeparate : VisitLog → VisitLog → Type 0
IsSeparate v w = is_taken v w ≡ false

-- A visit is flagged if and only if its status is a conflict, and validated if and only if its GPS
-- status is verified.
abbrev pub IsCoherent : VisitLog → Type 0
IsCoherent v =
    (v.sync_conflict_flag ≡ is_conflict v.sync_status)
    × (v.geofence_validated ≡ is_verified v.gps_status)

pub record IsSound (db : Db) : Type 0 where
  pub separate : Pairwise IsSeparate db.visits
  pub coherent : All IsCoherent db.visits

any-All :
    (p : VisitLog → Bool) (rows : List VisitLog) → any p rows ≡ false → All (λ v. p v ≡ false) rows
any-All p [] h = tt
any-All p (v ∷ rows) h = (ground arith, any-All p rows (ground arith))

abbrev IsSoundTable : List VisitLog → Type 0
IsSoundTable rows = Pairwise IsSeparate rows × All IsCoherent rows

marked-IsSound :
    (id : ℕ) (reason : Text) (rows : List VisitLog)
    → IsSoundTable rows
    → IsSoundTable (map (λ v. if v.id == id then marked reason v else v) rows)
marked-IsSound id reason rows (s, c) = (
  Pairwise-map IsSeparate _ rows (λ v w h. ground arith) s,
  All-map IsCoherent IsCoherent _ rows (λ v h. ground arith) c,
)

after-IfOk :
    {A : Type 0} (db : Db) (m : Result (Db × A))
    → IsSoundTable db.visits
    → IfOk (λ r. IsSoundTable r.0.visits) m
    → IsSoundTable (after db m).visits
after-IfOk db (ok r) v k = k
after-IfOk db (err e) v k = v

corrected-IsSound :
    (input : CorrectionInput) (rows : List VisitLog) (s : CorrectionSnapshot)
    → IsSoundTable rows
    → IsSoundTable (map (λ v. if v.id == input.visit_id then with_values s v else v) rows)
corrected-IsSound input rows s (k, c) = (
  Pairwise-map IsSeparate _ rows (λ v w h. ground arith) k,
  All-map IsCoherent IsCoherent _ rows (λ v h. ground arith) c,
)

module _ (platform : Platform) (defaults : PolicySettings) (policies : List OperationalPolicy)
    (now : ℕ) where
  added-IsCoherent :
      (new_id : ℕ) (input : VisitInput) (db : Db) (c : Checked) (session_id : Option ℕ)
      (notes : Option Text) (status : SyncStatus) (reason : Option Text)
      → Facts platform defaults policies now input db c
      → not (is_null reason) ≡ is_conflict status
      → IsCoherent (visit_row platform now new_id input c session_id notes status reason)
  unfolding visit_row
  added-IsCoherent new_id input db c session_id notes status reason f e = (e, f.agreed.0)

  changed-IsSound :
      (new_id : ℕ) (input : VisitInput) (db db' : Db)
      → Change platform defaults policies now new_id input db db'
      → IsSoundTable db.visits
      → IsSoundTable db'.visits
  changed-IsSound new_id input db db' (same e) v = rw e v
  changed-IsSound new_id input db db' (mark id reason e) v =
      rw e (marked-IsSound id reason db.visits v)
  changed-IsSound new_id input db db' (add c session_id notes status reason e flag free is) (s, k) =
      rw is (
        (any-All _ db.visits free, s),
        (
          added-IsCoherent new_id input db c session_id notes status reason
              (checked-Facts platform defaults policies now input db e) flag,
          k,
        ),
      )

  correct_visit-IsSound :
      (input : CorrectionInput) (db : Db)
      → IsSoundTable db.visits
      → IfOk (λ r. IsSoundTable r.0.visits) (correct_visit platform defaults policies now input db)
  unfolding record_correction
  correct_visit-IsSound input db v =
      IfOk-of_eq (λ r. IsSoundTable r.0.visits) _
        λ r e.
          let c =
            IfOk-ok _ _ (correct_visit-IsCorrected platform defaults policies now input db) e in
          rw c.written (corrected-IsSound input db.visits c.values v)

  visit_step-IsSound :
      (c : VisitCall) (db : Db)
      → IsSoundTable db.visits
      → IsSoundTable (visit_step platform defaults policies (now, c) db).visits
  unfolding visit_step
  visit_step-IsSound (log new_id input) db v =
      changed-IsSound new_id input db _
        (log_visit-Change platform defaults policies now new_id input db).0 v
  visit_step-IsSound (correct input) db v = after-IfOk db _ v (correct_visit-IsSound input db v)

count-separate :
    (p : VisitLog → Bool) (rows : List VisitLog)
    → ((v w : VisitLog) → IsSeparate v w → p v ≡ true → p w ≡ false)
    → Pairwise IsSeparate rows
    → count p rows ≤ 1
count-separate p [] h s = omega arith
count-separate p (v ∷ rows) h s = elim (Bool-cases (p v)) [
  | inl e ↦ rw (e, count-none p rows (All-weaken _ _ rows (λ w r. h v w r e) s.0)) (omega arith)
  | inr e ↦ rw e (count-separate p rows h s.1)
]

clashes-false :
    (n : ℕ) (a b : Option ℕ)
    → clashes a b ≡ false
    → same_id a (some n) ≡ true
    → same_id b (some n) ≡ false
clashes-false n none b k e = absurd (ground arith)
clashes-false n (some x) none k e = refl
clashes-false n (some x) (some y) k e = ground arith

separate_local :
    (n : ℕ) (v w : VisitLog)
    → IsSeparate v w
    → same_id v.local_record_uuid (some n) ≡ true
    → same_id w.local_record_uuid (some n) ≡ false
separate_local n v w k e = clashes-false n v.local_record_uuid w.local_record_uuid (ground arith) e

separate_key :
    (n : ℕ) (v w : VisitLog)
    → IsSeparate v w
    → same_id v.idempotency_key (some n) ≡ true
    → same_id w.idempotency_key (some n) ≡ false
separate_key n v w k e = clashes-false n v.idempotency_key w.idempotency_key (ground arith) e

module _ (platform : Platform) (defaults : PolicySettings) (policies : List OperationalPolicy) where
  run_visits-IsSoundTable :
      (cs : List (ℕ × VisitCall)) (db : Db)
      → IsSoundTable db.visits
      → IsSoundTable (run_visits platform defaults policies cs db).visits
  unfolding run_visits
  run_visits-IsSoundTable [] db v = v
  run_visits-IsSoundTable (c ∷ cs) db v =
      run_visits-IsSoundTable cs (visit_step platform defaults policies c db)
        (visit_step-IsSound platform defaults policies c.0 c.1 db v)

  -- After every history of visits logged and corrected from a sound table, at most one visit has a
  -- given local record, at most one a given idempotency key and at most one a given identifier; and
  -- every visit is flagged if and only if its status is a conflict, and validated if and only if its
  -- GPS status is verified.
  pub run_visits-IsSound :
      (cs : List (ℕ × VisitCall)) (db : Db) (n : ℕ)
      → IsSound db
      → (count
            (λ v. same_id v.local_record_uuid (some n))
            (run_visits platform defaults policies cs db).visits
          ≤ 1)
        × (count
              (λ v. same_id v.idempotency_key (some n))
              (run_visits platform defaults policies cs db).visits
            ≤ 1)
        × (count (λ v. v.id == n) (run_visits platform defaults policies cs db).visits ≤ 1)
        × All IsCoherent (run_visits platform defaults policies cs db).visits
  run_visits-IsSound cs db n v =
      let (s, c) = run_visits-IsSoundTable cs db (v.separate, v.coherent) in
      (
        count-separate _ _ (λ a b k e. separate_local n a b k e) s,
        count-separate _ _ (λ a b k e. separate_key n a b k e) s,
        count-separate _ _ (λ a b k e. ground arith) s,
        c,
      )
