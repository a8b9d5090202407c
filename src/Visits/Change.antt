-- ===== src/Visits/Change.antt =====
-- What a call of `logVisit` does to the table of visits: nothing, a mark on one visit, or a new row.
use proactive.Base.{
  ℕ, false, ◌≡◌, refl, inl, inr, not, ◌&&◌, ◌==◌, Option, none, some, List, ◌∷◌, Text, any, is_null,
  update_where, arith, Bool-cases, >>=-eq-ok, ok-injective, ap, sym, Result, ok, err,
}
use proactive.Store.{Db, VisitLog, SyncStatus, is_conflict}
use proactive.Policies.{OperationalPolicy}
use proactive.Policies.Settings.{PolicySettings}
use proactive.Turfs.Guards.{is_held}
use proactive.Visits.Platform.{Platform}
use proactive.Visits.Conflicts.{
  VisitInput, Checked, marked, is_taken, lacks_session, normalize_optional_text, visit_row,
  create_visit, create_conflict_visit, mark_existing_visit_conflict,
  visit_matches_incoming_submission,
}
use proactive.Visits.Log.{
  checked, rejected, conflicted, accepted, create_synced, settle_duplicate, settle, in_session,
  ingest, after_checks, log_visit,
}

-- The tables that a call reads only.
pub record IsReadOnly (db db' : Db) : Type 0 where
  pub addresses : db'.addresses ≡ db.addresses
  pub turfs : db'.turfs ≡ db.turfs
  pub outcomes : db'.outcomes ≡ db.outcomes
  pub sessions : db'.sessions ≡ db.sessions
  pub assignments : db'.assignments ≡ db.assignments

-- A row that is created was free to be, and is the new head of the table.
pub create_visit-eq-ok :
    (db : Db) (row : VisitLog) {created : Db}
    → create_visit db row ≡ ok created
    → (any (is_taken row) db.visits ≡ false) × (created ≡ record db { visits = row ∷ db.visits })
unfolding create_visit
create_visit-eq-ok db row h = elim (Bool-cases (any (is_taken row) db.visits)) [
  | inl t ↦ let q = rw t at h in absurd (ground arith)
  | inr t ↦ elim (Bool-cases (lacks_session db row)) [
    | inl l ↦ let q = rw (t, l) at h in absurd (ground arith)
    | inr l ↦ let q = rw (t, l) at h in (t, sym (ok-injective q))
  ]
]

module _ (platform : Platform) (defaults : PolicySettings) (policies : List OperationalPolicy)
    (now new_id : ℕ) (input : VisitInput) where
  pub data Change (db db' : Db) : Type 0 where
    same : db'.visits ≡ db.visits → Change db db'
    mark :
        (id : ℕ) (reason : Text)
        → db'.visits ≡ update_where (λ v. v.id == id) (marked reason) db.visits
        → Change db db'
    add :
        (c : Checked) (session_id : Option ℕ) (notes : Option Text) (status : SyncStatus)
        (reason : Option Text)
        → checked platform defaults policies now input db ≡ ok c
        → not (is_null reason) ≡ is_conflict status
        → any
            (is_taken (visit_row platform now new_id input c session_id notes status reason))
            db.visits
          ≡ false
        → db'.visits
          ≡ visit_row platform now new_id input c session_id notes status reason ∷ db.visits
        → Change db db'

  abbrev Step : Db → Db → Type 0
  Step db db' = Change db db' × IsReadOnly db db'

  kept : (db : Db) → Step db db
  kept db = (
    same refl,
    record { addresses = refl; turfs = refl; outcomes = refl; sessions = refl; assignments = refl },
  )

  module _ (c : Checked) (db : Db)
      (e : checked platform defaults policies now input db ≡ ok c) where
    abbrev synced_row : Option ℕ → VisitLog
    synced_row session_id =
        visit_row platform now new_id input c session_id (normalize_optional_text input.notes)
          SyncStatus.synced none

    rejected-Step :
        (reason message : Text) (m : Result (Db × VisitLog))
        → create_conflict_visit platform now new_id input c reason message db ≡ m
        → Step db (rejected platform now new_id input c reason message db m).0
    unfolding rejected create_conflict_visit
    rejected-Step reason message (err q) h = kept db
    rejected-Step reason message (ok r) h =
        let row =
          visit_row platform now new_id input c input.session_id input.notes SyncStatus.conflict
            (some reason) in
        let (created, made, k) = >>=-eq-ok (create_visit db row) _ h in
        let (free, is) = create_visit-eq-ok db row made in
        let same_db = ap (λ q. q.0) (sym (ok-injective k)) in
        rw (same_db, is)
          (
            add c input.session_id input.notes SyncStatus.conflict (some reason) e refl free refl,
            record {
              addresses = refl;
              turfs = refl;
              outcomes = refl;
              sessions = refl;
              assignments = refl;
            },
          )

    conflicted-Step :
        (reason message : Text)
        → Step db (conflicted platform now new_id input c reason message db).0
    unfolding conflicted
    conflicted-Step reason message = rejected-Step reason message _ refl

    accepted-Step :
        (session_id : Option ℕ) (m : Result Db)
        → create_visit db (synced_row session_id) ≡ m
        → Step db (accepted platform now new_id input c (synced_row session_id) db m).0
    unfolding accepted
    accepted-Step session_id (err q) h = kept db
    accepted-Step session_id (ok created) h =
        let (free, is) = create_visit-eq-ok db (synced_row session_id) h in
        rw is (
          add c session_id (normalize_optional_text input.notes) SyncStatus.synced none e refl free
              refl,
          record {
            addresses = refl;
            turfs = refl;
            outcomes = refl;
            sessions = refl;
            assignments = refl;
          },
        )

    create_synced-Step :
        (session_id : Option ℕ)
        → Step db (create_synced platform now new_id input c session_id db).0
    unfolding create_synced
    create_synced-Step session_id = accepted-Step session_id _ refl

    settle_duplicate-Step :
        (v : VisitLog) (session_id : Option ℕ) (reason : Text)
        → Step db (settle_duplicate platform now new_id input c v session_id reason db).0
    unfolding settle_duplicate mark_existing_visit_conflict
    settle_duplicate-Step v session_id reason =
        elim (Bool-cases (visit_matches_incoming_submission v input c session_id)) [
          | inl t ↦ rw t (kept db)
          | inr t ↦ rw t (
            mark v.id reason refl,
            record {
              addresses = refl;
              turfs = refl;
              outcomes = refl;
              sessions = refl;
              assignments = refl;
            },
          )
        ]

    settle-Step :
        (by_uuid by_key : Option VisitLog) (session_id : Option ℕ)
        → Step db (settle platform now new_id input c by_uuid by_key session_id db).0
    unfolding settle
    settle-Step (some v) by_key session_id = settle_duplicate-Step v session_id _
    settle-Step none (some v) session_id = settle_duplicate-Step v session_id _
    settle-Step none none session_id = create_synced-Step session_id

    in_session-Step : (id : Option ℕ) → Step db (in_session platform now new_id input c id db).0
    unfolding in_session
    in_session-Step none = settle-Step c.by_local_record c.by_key _
    in_session-Step (some id) =
        elim (Bool-cases (
          any
            (λ s.
              s.id == id && s.canvasser_id == input.canvasser_id && s.turf_id == c.address.turf_id)
            db.sessions)) [
              | inl t ↦ rw t (settle-Step c.by_local_record c.by_key (some id))
              | inr t ↦ rw t (conflicted-Step _ _)
            ]

    ingest-Step : Step db (ingest platform now new_id input c db).0
    unfolding ingest
    ingest-Step =
        elim (Bool-cases (any (is_held c.address.turf_id input.canvasser_id) db.assignments)) [
          | inl t ↦ rw t (in_session-Step input.session_id)
          | inr t ↦ rw t (conflicted-Step _ _)
        ]

  after_checks-Step :
      (db : Db) (m : Result Checked)
      → checked platform defaults policies now input db ≡ m
      → Step db (after_checks platform now new_id input m db).0
  unfolding after_checks
  after_checks-Step db (ok c) e = ingest-Step c db e
  after_checks-Step db (err e) q = kept db

  pub log_visit-Change :
      (db : Db)
      → Change db (log_visit platform defaults policies now new_id input db).0
        × IsReadOnly db (log_visit platform defaults policies now new_id input db).0
  unfolding log_visit
  log_visit-Change db = after_checks-Step db (checked platform defaults policies now input db) refl
