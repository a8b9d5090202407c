-- ===== src/Visits/Attempts.antt =====
-- The limits of `logVisit` on the attempts at a household, and what a known identifier does.
use proactive.Base.{
  ℕ, Bool, true, false, ◌≡◌, refl, sym, ◌∙◌, inl, inr, ◌==◌, ◌*◌, ◌+◌, ◌≤◌, ◌<◌, Option, none, some,
  List, [], ◌∷◌, map, arith, find_first, find_first-some, find_latest-some, find_latest-none, count,
  eq_of_beq, Bool-cases, All-in, In, IfOk, IfOk-ok, IfOk-of_eq, Result, ok, err, Failure,
  ok-injective, ◌≢◌, if◌then◌else◌,
}
use proactive.Store.{Db, Turf, Address, VisitLog}
use proactive.Policies.{OperationalPolicy, EffectivePolicy}
use proactive.Policies.Settings.{PolicySettings}
use proactive.Turfs.History.{after}
use proactive.Visits.Platform.{Platform}
use proactive.Visits.Conflicts.{VisitInput, Checked, marked, visit_row}
use proactive.Visits.Log.{
  checked, after_checks, log_visit, attempts, is_attempt, too_soon, previous_visit,
}
use proactive.Visits.Correct.{CorrectionInput, correct_visit, with_values, record_correction}
use proactive.Visits.Corrections.{correct_visit-IsCorrected}
use proactive.Visits.Change.{Change, same, mark, add, IsReadOnly, log_visit-Change}
use proactive.Visits.Facts.{Facts, checked-Facts, policy_at}
use proactive.Visits.History.{VisitCall, log, correct, visit_step, run_visits}

-- A change of rows that makes no attempt of what was none adds none.
count-map-le :
    (p : VisitLog → Bool) (f : VisitLog → VisitLog) (rows : List VisitLog)
    → ((v : VisitLog) → p (f v) ≡ true → p v ≡ true)
    → count p (map f rows) ≤ count p rows
count-map-le p f [] h = omega arith
count-map-le p f (v ∷ rows) h = elim (Bool-cases (p (f v))) [
  | inl e ↦ let q = h v e in rw (e, q) (omega (arith, count-map-le p f rows h))
  | inr e ↦ rw e (elim (Bool-cases (p v)) [
    | inl q ↦ rw q (omega (arith, count-map-le p f rows h))
    | inr q ↦ rw q (count-map-le p f rows h)
  ])
]

some-injective {ℓ} : {A : Type ℓ} {a b : A} → some a ≡ some b → a ≡ b
some-injective h = cc

-- The address of an identifier, its turf and the policy that is applied there.
pub record IsAt (platform : Platform) (defaults : PolicySettings)
    (policies : List OperationalPolicy) (address : Address) (turf : Turf) (policy : EffectivePolicy)
    (db : Db) : Type 0 where
  pub listed : find_first (λ a. a.id == address.id) db.addresses ≡ some address
  pub joined : find_first (λ t. t.id == address.turf_id) db.turfs ≡ some turf
  pub applied : policy_at platform defaults policies address turf ≡ ok policy

module _ (platform : Platform) (defaults : PolicySettings) (policies : List OperationalPolicy)
    (address : Address) (turf : Turf) (policy : EffectivePolicy) where
  -- What the checks found for the address is this address, and this policy.
  Facts-here :
      (now : ℕ) (input : VisitInput) (db : Db) (c : Checked)
      → IsAt platform defaults policies address turf policy db
      → (f : Facts platform defaults policies now input db c) → input.address_id ≡ address.id
      → (c.address ≡ address) × (f.policy ≡ policy)
  Facts-here now input db c i f e =
      let same_address : c.address ≡ address = some-injective (sym f.listed ∙ (rw e i.listed)) in
      let same_turf : c.turf ≡ turf = some-injective (sym f.joined ∙ (rw same_address i.joined)) in
      (same_address, ok-injective (sym f.applied ∙ (rw (same_address, same_turf) i.applied)))

  IsAt-step :
      (db db' : Db)
      → IsReadOnly db db'
      → IsAt platform defaults policies address turf policy db
      → IsAt platform defaults policies address turf policy db'
  IsAt-step db db' r i = record {
    listed = rw r.addresses i.listed;
    joined = rw r.turfs i.joined;
    applied = i.applied;
  }

  changed-attempts :
      (now new_id : ℕ) (input : VisitInput) (db db' : Db)
      → IsAt platform defaults policies address turf policy db
      → Change platform defaults policies now new_id input db db'
      → attempts address db.visits ≤ policy.settings.max_attempts_per_household
      → attempts address db'.visits ≤ policy.settings.max_attempts_per_household
  unfolding visit_row
  changed-attempts now new_id input db db' i (same e) h = rw e h
  changed-attempts now new_id input db db' i (mark id reason e) h = rw e (
      let m =
        count-map-le (is_attempt address) (λ v. if v.id == id then marked reason v else v) db.visits
          (λ v q. ground arith) in
      omega arith)
  changed-attempts now new_id input db db' i (add c session_id notes status reason e flag free is)
        h =
      let f = checked-Facts platform defaults policies now input db e in
      let row = visit_row platform now new_id input c session_id notes status reason in
      rw is (elim (Bool-cases (is_attempt address row)) [
        | inl q ↦
            let named : c.address.id ≡ input.address_id =
              eq_of_beq _ _
                (find_first-some (λ a. a.id == input.address_id) db.addresses f.listed).1 in
            let here : c.address.id ≡ address.id = eq_of_beq _ _ (ground arith) in
            let (a, p) = Facts-here now input db c i f (sym named ∙ here) in
            let room : attempts address db.visits < policy.settings.max_attempts_per_household =
              rw (← a) (rw (← p) f.below) in
            rw q (omega arith)
        | inr q ↦ rw q h
      ])

  correct-attempts :
      (now : ℕ) (input : CorrectionInput) (db : Db)
      → IfOk
          (λ r. (attempts address r.0.visits ≤ attempts address db.visits) × IsReadOnly db r.0)
          (correct_visit platform defaults policies now input db)
  unfolding record_correction
  correct-attempts now input db =
      IfOk-of_eq
        (λ r. (attempts address r.0.visits ≤ attempts address db.visits) × IsReadOnly db r.0) _
        λ r e.
          let c =
            IfOk-ok _ _ (correct_visit-IsCorrected platform defaults policies now input db) e in
          rw c.written (
            count-map-le (is_attempt address)
                (λ v. if v.id == input.visit_id then with_values c.values v else v) db.visits
                (λ v q. ground arith),
            record {
              addresses = refl;
              turfs = refl;
              outcomes = refl;
              sessions = refl;
              assignments = refl;
            },
          )

  Bounded : Db → Type 0
  Bounded db =
      IsAt platform defaults policies address turf policy db
      × (attempts address db.visits ≤ policy.settings.max_attempts_per_household)

  after-Bounded :
      {A : Type 0} (db : Db) (m : Result (Db × A))
      → Bounded db
      → IfOk (λ r. (attempts address r.0.visits ≤ attempts address db.visits) × IsReadOnly db r.0) m
      → Bounded (after db m)
  unfolding Bounded
  after-Bounded db (ok r) (i, b) (le, k) = (IsAt-step db r.0 k i, omega arith)
  after-Bounded db (err e) b k = b

  visit_step-Bounded :
      (now : ℕ) (c : VisitCall) (db : Db)
      → Bounded db
      → Bounded (visit_step platform defaults policies (now, c) db)
  unfolding visit_step Bounded
  visit_step-Bounded now (log new_id input) db (i, b) =
      let (change, k) = log_visit-Change platform defaults policies now new_id input db in
      (IsAt-step db _ k i, changed-attempts now new_id input db _ i change b)
  visit_step-Bounded now (correct input) db b = after-Bounded db _ b (correct-attempts now input db)

  run_visits-Bounded :
      (cs : List (ℕ × VisitCall)) (db : Db)
      → Bounded db
      → Bounded (run_visits platform defaults policies cs db)
  unfolding run_visits
  run_visits-Bounded [] db b = b
  run_visits-Bounded (c ∷ cs) db b =
      run_visits-Bounded cs (visit_step platform defaults policies c db)
        (visit_step-Bounded c.0 c.1 db b)

  -- Where the attempts at an address are within the limit of the policy in effect there, they are so
  -- after every history of visits logged and corrected.
  pub run_visits-attempts :
      (cs : List (ℕ × VisitCall)) (db : Db)
      → IsAt platform defaults policies address turf policy db
      → attempts address db.visits ≤ policy.settings.max_attempts_per_household
      → attempts address (run_visits platform defaults policies cs db).visits
        ≤ policy.settings.max_attempts_per_household
  unfolding Bounded
  run_visits-attempts cs db i b = (run_visits-Bounded cs db (i, b)).1

  module _ (now new_id : ℕ) (input : VisitInput) (db : Db) where
    previous_late :
        (minutes : ℕ) (v : VisitLog) (o : Option VisitLog)
        → previous_visit address input.canvasser_id db.visits ≡ o
        → In v db.visits
        → is_attempt address v ≡ true
        → v.canvasser_id ≡ input.canvasser_id
        → now < v.visit_time + minutes * 60 * 1000
        → too_soon now minutes o ≡ true
    previous_late minutes v none e i a own late =
        absurd (let n = All-in _ (find_latest-none _ _ db.visits e) i in ground arith)
    previous_late minutes v (some w) e i a own late =
        let (_, _, latest) = find_latest-some (λ v. v.visit_time) _ db.visits e in
        let le = All-in _ latest i (ground arith) in ground arith

    refused :
        (m : Result Checked)
        → checked platform defaults policies now input db ≡ m
        → ((c : Checked) → m ≢ ok c)
        → (e : Failure) × (log_visit platform defaults policies now new_id input db ≡ (db, err e))
    unfolding log_visit after_checks
    refused (ok c) e h = absurd (h c refl)
    refused (err q) e h = (q, rw e refl)

    -- A submission by a canvasser who has an attempt at the address within the policy's interval is
    -- refused and changes nothing, whatever identifiers it carries: also if it repeats that attempt.
    pub log_visit-rested :
        (v : VisitLog)
        → IsAt platform defaults policies address turf policy db
        → input.address_id ≡ address.id
        → In v db.visits
        → is_attempt address v ≡ true
        → v.canvasser_id ≡ input.canvasser_id
        → now < v.visit_time + policy.settings.min_minutes_between_attempts * 60 * 1000
        → (e : Failure) × (log_visit platform defaults policies now new_id input db ≡ (db, err e))
    log_visit-rested v i here listed a own late = refused _ refl λ c e.
        let f = checked-Facts platform defaults policies now input db e in
        let (at, p) = Facts-here now input db c i f here in
        let soon =
          previous_late policy.settings.min_minutes_between_attempts v _ refl listed a own late in
        let rested : too_soon now policy.settings.min_minutes_between_attempts
              (previous_visit address input.canvasser_id db.visits)
            ≡ false =
          rw (← at) (rw (← p) f.rested) in
        absurd (ground arith)
