-- ===== src/Turfs/Effects.antt =====
-- What an administrative call leaves behind: the turf's one assignment, the scope of all that hangs
-- on a turf, and a deleted turf.
use proactive.Base.{
  ℕ, true, ◌≡◌, refl, ◌≢◌, ◌⊎◌, inl, inr, ◌&&◌, ◌==◌, if◌then◌else◌, Option, none, Text, List, [],
  ◌∷◌, map, arith, All, In, is_null, ltb, trim, is_blank, find_first, Bool-cases, IfOk, IfOk-found,
  IfOk-refuse, IfOk-step,
}
use proactive.Store.{Db, Turf, TurfAssignment, TurfStatus, is_current}
use proactive.Access.{AccessScope, in_scope}
use proactive.Policies.{OperationalPolicy, get_effective_policy}
use proactive.Policies.Settings.{PolicySettings}
use proactive.Turfs.Guards.{find_scoped_turf, turf_key}
use proactive.Turfs.Retire.{open_session_count, deleted_turf, delete_turf}

-- The answer is the one current row of its turf and of its canvasser.
abbrev pub IsSole : ℕ → ℕ → Db × TurfAssignment → Type 0
IsSole turf_id canvasser_id r =
    In r.1 r.0.assignments
    × (r.1.turf_id ≡ turf_id)
    × (r.1.canvasser_id ≡ canvasser_id)
    × (is_current r.1.status ≡ true)
    × All
        (λ a.
          is_current a.status ≡ true
          → (a.turf_id ≡ turf_id) ⊎ (a.canvasser_id ≡ canvasser_id)
          → r.1 ≡ a)
        r.0.assignments
    × All (λ t. t.id ≡ turf_id → t.status ≡ TurfStatus.assigned) r.0.turfs

-- The scope of a row that hangs on the turf is that of the turf: the region always, and the team
-- where the request names one.
abbrev pub FollowsScope : Option (Option ℕ) → Turf → Option ℕ → Option Text → Type 0
FollowsScope team turf team_id region_code =
    (region_code ≡ turf.region_code) × (team ≢ none → team_id ≡ turf.team_id)

abbrev pub IsPropagated : Option (Option ℕ) → ℕ → Db × Turf → Type 0
IsPropagated team id r =
    All (λ t. t.id ≡ id → FollowsScope team r.1 t.team_id t.region_code) r.0.turfs
    × All (λ a. a.turf_id ≡ id → FollowsScope team r.1 a.team_id a.region_code) r.0.addresses
    × All (λ a. a.turf_id ≡ id → FollowsScope team r.1 a.team_id a.region_code) r.0.assignments
    × All (λ s. s.turf_id ≡ id → FollowsScope team r.1 s.team_id s.region_code) r.0.sessions
    × All (λ v. v.turf_id ≡ id → FollowsScope team r.1 v.team_id v.region_code) r.0.visits
    × All (λ q. q.turf_id ≡ id → FollowsScope team r.1 q.team_id q.region_code) r.0.address_requests

deleted_hidden :
    (now : ℕ) (turf_id : ℕ) (archived_at : Option ℕ) (reason : Text) (purge_at : Option ℕ)
    (scope : AccessScope) (ts : List Turf)
    → find_first
        (λ t. t.id == turf_id && in_scope scope (turf_key t) && is_null t.deleted_at)
        (map
          (λ t. if t.id == turf_id then deleted_turf now archived_at reason purge_at t else t)
          ts)
      ≡ none
deleted_hidden now turf_id archived_at reason purge_at scope [] = refl
deleted_hidden now turf_id archived_at reason purge_at scope (t ∷ ts) =
    elim (Bool-cases (t.id == turf_id)) [
      | inl e ↦
          rw e (ground (arith, deleted_hidden now turf_id archived_at reason purge_at scope ts))
      | inr e ↦ rw (e, e) (deleted_hidden now turf_id archived_at reason purge_at scope ts)
    ]

-- A turf that has just been deleted is found in no scope any more.
pub delete_turf-hidden :
    (defaults : PolicySettings) (policies : List OperationalPolicy) (now turf_id actor : ℕ)
    (reason : Text) (scope other : AccessScope) (db : Db)
    → IfOk
        (λ r. find_scoped_turf r.0 turf_id other ≡ none)
        (delete_turf defaults policies now turf_id actor reason scope db)
unfolding delete_turf find_scoped_turf
delete_turf-hidden defaults policies now turf_id actor reason scope other db =
    IfOk-refuse _ (is_blank (trim reason)) _ _ λ _.
      IfOk-step _ (get_effective_policy defaults policies scope.organization_id scope.campaign_id) _
        λ policy _.
          IfOk-found _
            (find_first
              (λ t. t.id == turf_id && in_scope scope (turf_key t) && is_null t.deleted_at)
              db.turfs)
            _ _
            λ t _.
              IfOk-refuse _ (ltb 0 (open_session_count turf_id db)) _ _
                λ idle. deleted_hidden now turf_id t.archived_at (trim reason) _ other db.turfs
