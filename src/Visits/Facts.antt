-- ===== src/Visits/Facts.antt =====
-- What holds once the checks of `logVisit` have let a visit through.
use proactive.Base.{
  ℕ, false, ◌≡◌, refl, not, ◌&&◌, ◌==◌, ◌<◌, Option, none, some, List, arith, is_null, leb,
  find_first, or_else, inl, inr, IfOk, IfOk-found, IfOk-refuse, IfOk-step, IfOk-ok, Result, ok,
  Bool-cases,
}
use proactive.Store.{Db, Turf, Address, is_verified}
use proactive.Policies.{OperationalPolicy, EffectivePolicy, get_effective_policy}
use proactive.Policies.Settings.{PolicySettings}
use proactive.Visits.Platform.{Platform}
use proactive.Visits.Outcomes.{find_scoped_outcome_definition}
use proactive.Visits.Geofence.{GpsResult, located, against_target, check_geofence, is_inaccurate}
use proactive.Visits.Conflicts.{VisitInput, Checked, normalize_optional_text}
use proactive.Visits.Log.{checked, find_by, refuse_conflicted, attempts, previous_visit, too_soon}

-- The flag and the status of a geofence check agree, and a reason is given unless it is verified.
abbrev pub Agrees : GpsResult → Type 0
Agrees g =
    (g.geofence_validated ≡ is_verified g.gps_status)
    × (is_null g.failure_reason ≡ is_verified g.gps_status)

module _ (p : Platform) (radius_feet : ℕ) where
  located-Agrees : (meters : ℕ) → Agrees (located p radius_feet meters)
  unfolding located
  located-Agrees meters =
      elim (Bool-cases (p.at_most meters (p.times (p.whole radius_feet) (p.literal "0.3048")))) [
        | inl t ↦ rw t (refl, refl)
        | inr t ↦ rw t (refl, refl)
      ]

  against_target-Agrees : (x y : ℕ) (a b : Option ℕ) → Agrees (against_target p radius_feet x y a b)
  unfolding against_target
  against_target-Agrees x y (some a) (some b) = located-Agrees _
  against_target-Agrees x y (some a) none = (refl, refl)
  against_target-Agrees x y none b = (refl, refl)

  pub check_geofence-Agrees :
      (x y accuracy : Option ℕ) (threshold : ℕ) (a b : Option ℕ)
      → Agrees (check_geofence p radius_feet x y accuracy threshold a b)
  unfolding check_geofence
  check_geofence-Agrees (some x) (some y) accuracy threshold a b =
      elim (Bool-cases (is_inaccurate p threshold accuracy)) [
        | inl t ↦ rw t (refl, refl)
        | inr t ↦ rw t (against_target-Agrees x y a b)
      ]
  check_geofence-Agrees (some x) none accuracy threshold a b = (refl, refl)
  check_geofence-Agrees none y accuracy threshold a b = (refl, refl)

module _ (platform : Platform) (defaults : PolicySettings) (policies : List OperationalPolicy) where
  -- The policy that `logVisit` applies at an address.
  abbrev pub policy_at : Address → Turf → Result EffectivePolicy
  policy_at address turf =
      get_effective_policy defaults policies (or_else address.organization_id turf.organization_id)
        (or_else address.campaign_id turf.campaign_id)

  pub record Facts (now : ℕ) (input : VisitInput) (db : Db) (c : Checked) : Type 0 where
    pub listed : find_first (λ a. a.id == input.address_id) db.addresses ≡ some c.address
    pub joined : find_first (λ t. t.id == c.address.turf_id) db.turfs ≡ some c.turf
    pub defined :
        find_scoped_outcome_definition platform defaults policies c.address.organization_id
          (or_else c.address.campaign_id c.turf.campaign_id)
          input.outcome_code
          db
        ≡ ok (some c.outcome)
    pub recorded :
        c.by_local_record ≡ find_by (λ v. v.local_record_uuid) input.local_record_uuid db.visits
    pub keyed : c.by_key ≡ find_by (λ v. v.idempotency_key) input.idempotency_key db.visits
    pub agreed : Agrees c.gps
    pub policy : EffectivePolicy
    pub applied : policy_at c.address c.turf ≡ ok policy
    pub below : attempts c.address db.visits < policy.settings.max_attempts_per_household
    pub rested :
        too_soon now policy.settings.min_minutes_between_attempts
          (previous_visit c.address input.canvasser_id db.visits)
        ≡ false

  checked-IfOk :
      (now : ℕ) (input : VisitInput) (db : Db)
      → IfOk (Facts now input db) (checked platform defaults policies now input db)
  unfolding checked
  checked-IfOk now input db =
      let F = Facts now input db in
      IfOk-step F
        (refuse_conflicted (find_by (λ v. v.local_record_uuid) input.local_record_uuid db.visits)
          input)
        _
        λ _ _.
          IfOk-step F
            (refuse_conflicted (find_by (λ v. v.idempotency_key) input.idempotency_key db.visits)
              input)
            _
            λ _ _.
              IfOk-found F (find_first (λ a. a.id == input.address_id) db.addresses) _ _
                λ address listed.
                  IfOk-found F (find_first (λ t. t.id == address.turf_id) db.turfs) _ _
                    λ turf joined. IfOk-refuse F (not (is_null address.deleted_at)) _ _ λ _.
                      IfOk-step F
                        (find_scoped_outcome_definition platform defaults policies
                          address.organization_id (or_else address.campaign_id turf.campaign_id)
                          input.outcome_code db)
                        _
                        λ definition d. IfOk-found F definition _ _ λ outcome o.
                          IfOk-refuse F
                            (outcome.requires_note && is_null (normalize_optional_text input.notes))
                            _ _
                            λ _. IfOk-step F (policy_at address turf) _ λ policy applied.
                              IfOk-refuse F
                                (leb policy.settings.max_attempts_per_household
                                  (attempts address db.visits))
                                _ _
                                λ below.
                                  IfOk-refuse F
                                    (too_soon now policy.settings.min_minutes_between_attempts
                                      (previous_visit address input.canvasser_id db.visits))
                                    _ _
                                    λ rested. record {
                                      listed = listed;
                                      joined = joined;
                                      defined = rw (← o) d;
                                      recorded = refl;
                                      keyed = refl;
                                      agreed =
                                          check_geofence-Agrees platform
                                            policy.settings.geofence_radius_feet _ _ _ _ _ _;
                                      policy = policy;
                                      applied = applied;
                                      below = ground arith;
                                      rested = rested;
                                    }

  pub checked-Facts :
      (now : ℕ) (input : VisitInput) (db : Db) {c : Checked}
      → checked platform defaults policies now input db ≡ ok c
      → Facts now input db c
  checked-Facts now input db e = IfOk-ok (Facts now input db) _ (checked-IfOk now input db) e
