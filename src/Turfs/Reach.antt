-- ===== src/Turfs/Reach.antt =====
-- Which turfs a call reaches: an administrator's scope, open sessions and deletion as guards.
use proactive.Base.{
  subst, ℕ, Bool, true, false, ◌≡◌, refl, ◌⊎◌, inl, inr, ◌&&◌, Option, none, some, Text, List,
  arith, In, is_null, ltb, trim, is_blank, non_empty, trimmed_option, find_first-some, eq_of_beq,
  IfOk, IfOk-found, IfOk-refuse, IfOk-step, Result, ok, err, same_id,
}
use proactive.Store.{Db, Turf}
use proactive.Access.{AccessScope, in_scope}
use proactive.Policies.{OperationalPolicy, get_effective_policy}
use proactive.Policies.Settings.{PolicySettings}
use proactive.Turfs.Guards.{find_scoped_turf, turf_key, ensure_assignable_canvasser}
use proactive.Turfs.Admin.{TurfScopeInput, update_turf_scope, assign_turf}
use proactive.Turfs.Retire.{open_session_count, reopen_turf, archive_turf, delete_turf}
use proactive.Turfs.History.{
  Call, create, rescope, assign, reopen, archive, delete, start, pause, resume, complete, after,
  step,
}

-- The turf is there, lies in the scope, is of the scope's organization and is not deleted.
pub record IsReached (turf_id : ℕ) (scope : AccessScope) (db : Db) : Type 0 where
  pub turf : Turf
  pub listed : In turf db.turfs
  pub named : turf.id ≡ turf_id
  pub scoped : in_scope scope (turf_key turf) ≡ true
  pub organization : turf.organization_id ≡ scope.organization_id
  pub kept : turf.deleted_at ≡ none

same_id-eq : (a b : Option ℕ) → same_id a b ≡ true → a ≡ b
same_id-eq none none h = refl
same_id-eq (some a) (some b) h = ground arith
same_id-eq none (some b) h = cc
same_id-eq (some a) none h = cc

in_scope-organization :
    (scope : AccessScope) (t : Turf)
    → in_scope scope (turf_key t) ≡ true
    → t.organization_id ≡ scope.organization_id
unfolding in_scope
in_scope-organization scope t h = same_id-eq t.organization_id scope.organization_id (ground arith)

is_null-eq : (o : Option ℕ) → is_null o ≡ true → o ≡ none
is_null-eq none h = refl
is_null-eq (some n) h = cc

find_scoped_turf-IsReached :
    (db : Db) (turf_id : ℕ) (scope : AccessScope) {t : Turf}
    → find_scoped_turf db turf_id scope ≡ some t
    → IsReached turf_id scope db
unfolding find_scoped_turf
find_scoped_turf-IsReached db turf_id scope {t} e =
    let (i, h) = find_first-some _ db.turfs e in
    let scoped : in_scope scope (turf_key t) ≡ true = ground arith in
    record {
      turf = t;
      listed = i;
      named = eq_of_beq _ _ (ground arith);
      scoped = scoped;
      organization = in_scope-organization scope t scoped;
      kept = is_null-eq t.deleted_at (ground arith);
    }

-- The turf and the scope of an administrative call.
abbrev pub target : Call → Option (ℕ × AccessScope)
target (create _ _ _) = none
target (rescope turf _ _ scope) = some (turf, scope)
target (assign _ turf _ _ _ scope) = some (turf, scope)
target (reopen turf _ _ scope) = some (turf, scope)
target (archive turf _ _ scope) = some (turf, scope)
target (delete turf _ _ scope) = some (turf, scope)
target (start _ _) = none
target (pause _) = none
target (resume _) = none
target (complete _) = none

const_IfOk {ℓ κ} : {A : Type ℓ} {P : Type κ} (m : Result A) → P → IfOk (λ _. P) m
const_IfOk (ok a) p = p
const_IfOk (err e) p = tt

module _ (turf_id actor : ℕ) (scope : AccessScope) (db : Db) where
  update_turf_scope-IsReached :
      (input : TurfScopeInput)
      → IfOk (λ _. IsReached turf_id scope db) (update_turf_scope turf_id input actor scope db)
  unfolding update_turf_scope
  update_turf_scope-IsReached input =
      IfOk-found _ (find_scoped_turf db turf_id scope) _ _
        λ t e. const_IfOk _ (find_scoped_turf-IsReached db turf_id scope e)

  module _ (now : ℕ) (reason : Option Text) where
    assign_turf-IsReached :
        (new_id canvasser : ℕ)
        → IfOk
            (λ _. IsReached turf_id scope db)
            (assign_turf now new_id turf_id canvasser actor reason scope db)
    unfolding assign_turf
    assign_turf-IsReached new_id canvasser =
        IfOk-step _ (ensure_assignable_canvasser db canvasser scope.organization_id) _ λ _ _.
          IfOk-found _ (find_scoped_turf db turf_id scope) _ _
            λ t e. const_IfOk _ (find_scoped_turf-IsReached db turf_id scope e)

    reopen_turf-IsReached :
        IfOk
          (λ _. IsReached turf_id scope db × (open_session_count turf_id db ≡ 0))
          (reopen_turf now turf_id actor reason scope db)
    unfolding reopen_turf
    reopen_turf-IsReached = IfOk-found _ (find_scoped_turf db turf_id scope) _ _ λ t e.
        IfOk-refuse _ (ltb 0 (open_session_count turf_id db)) _ _
          λ idle. (find_scoped_turf-IsReached db turf_id scope e, ground arith)

    module _ (defaults : PolicySettings) (policies : List OperationalPolicy) where
      archive_turf-IsReached :
          IfOk
            (λ _. IsReached turf_id scope db × (open_session_count turf_id db ≡ 0))
            (archive_turf defaults policies now turf_id actor reason scope db)
      unfolding archive_turf
      archive_turf-IsReached =
          IfOk-step _
            (get_effective_policy defaults policies scope.organization_id scope.campaign_id) _
            λ policy _.
              IfOk-refuse _
                (policy.settings.require_archive_reason
                  && is_null (non_empty (trimmed_option reason)))
                _ _
                λ _. IfOk-found _ (find_scoped_turf db turf_id scope) _ _ λ t e.
                  IfOk-refuse _ (ltb 0 (open_session_count turf_id db)) _ _
                    λ idle. (find_scoped_turf-IsReached db turf_id scope e, ground arith)

  delete_turf-IsReached :
      (defaults : PolicySettings) (policies : List OperationalPolicy) (now : ℕ) (reason : Text)
      → IfOk
          (λ _. IsReached turf_id scope db × (open_session_count turf_id db ≡ 0))
          (delete_turf defaults policies now turf_id actor reason scope db)
  unfolding delete_turf
  delete_turf-IsReached defaults policies now reason =
      IfOk-refuse _ (is_blank (trim reason)) _ _ λ _.
        IfOk-step _ (get_effective_policy defaults policies scope.organization_id scope.campaign_id)
          _
          λ policy _. IfOk-found _ (find_scoped_turf db turf_id scope) _ _ λ t e.
            IfOk-refuse _ (ltb 0 (open_session_count turf_id db)) _ _
              λ idle. (find_scoped_turf-IsReached db turf_id scope e, ground arith)

-- A call that takes a turf out of work, or back into it.
abbrev pub retires : Call → Bool
retires (reopen _ _ _ _) = true
retires (archive _ _ _ _) = true
retires (delete _ _ _ _) = true
retires (create _ _ _) = false
retires (rescope _ _ _ _) = false
retires (assign _ _ _ _ _ _) = false
retires (start _ _) = false
retires (pause _) = false
retires (resume _) = false
retires (complete _) = false

-- What an administrative call that has changed something had before it.
abbrev Effective : Db → Bool → Option (ℕ × AccessScope) → Type 0
Effective db retiring none = Unit
Effective db retiring (some (turf, scope)) =
    IsReached turf scope db × (retiring ≡ true → open_session_count turf db ≡ 0)

abbrev Guarded : Db → Db → Bool → Option (ℕ × AccessScope) → Type 0
Guarded db db' retiring o = (db' ≡ db) ⊎ Effective db retiring o

guarded {ℓ} :
    {A : Type ℓ} (P : Type 0) (db : Db) (m : Result (Db × A)) (Q : Type 0)
    → IfOk (λ _. P) m
    → (P → Q)
    → (after db m ≡ db) ⊎ Q
guarded P db (ok r) Q h k = inr (k h)
guarded P db (err e) Q h k = inl refl

module _ (defaults : PolicySettings) (policies : List OperationalPolicy) (now : ℕ) (db : Db) where
  step-Guarded : (c : Call) → Guarded db (step defaults policies (now, c) db) (retires c) (target c)
  unfolding step
  step-Guarded (create _ _ _) = inr tt
  step-Guarded (rescope turf input actor scope) =
      guarded (IsReached turf scope db) db _ _
        (update_turf_scope-IsReached turf actor scope db input) (λ r. (r, λ q. cc))
  step-Guarded (assign new_id turf canvasser actor reason scope) =
      guarded (IsReached turf scope db) db _ _
        (assign_turf-IsReached turf actor scope db now reason new_id canvasser) (λ r. (r, λ q. cc))
  step-Guarded (reopen turf actor reason scope) =
      guarded (IsReached turf scope db × (open_session_count turf db ≡ 0)) db _ _
        (reopen_turf-IsReached turf actor scope db now reason) (λ r. (r.0, λ _. r.1))
  step-Guarded (archive turf actor reason scope) =
      guarded (IsReached turf scope db × (open_session_count turf db ≡ 0)) db _ _
        (archive_turf-IsReached turf actor scope db now reason defaults policies)
        (λ r. (r.0, λ _. r.1))
  step-Guarded (delete turf actor reason scope) =
      guarded (IsReached turf scope db × (open_session_count turf db ≡ 0)) db _ _
        (delete_turf-IsReached turf actor scope db defaults policies now reason)
        (λ r. (r.0, λ _. r.1))
  step-Guarded (start _ _) = inr tt
  step-Guarded (pause _) = inr tt
  step-Guarded (resume _) = inr tt
  step-Guarded (complete _) = inr tt

  -- An administrative call leaves the database as it was unless its turf is listed, in the caller's
  -- scope, of the caller's organization and not deleted; one that reopens, archives or deletes the
  -- turf does so too while the turf has an open session.
  pub step-IsReached :
      (c : Call) (turf_id : ℕ) (scope : AccessScope)
      → target c ≡ some (turf_id, scope)
      → (step defaults policies (now, c) db ≡ db)
        ⊎ (IsReached turf_id scope db × (retires c ≡ true → open_session_count turf_id db ≡ 0))
  step-IsReached c turf_id scope e =
      subst (Guarded db (step defaults policies (now, c) db) (retires c)) e (step-Guarded c)
