-- ===== src/Visits/Fallback.antt =====
-- Which outcome a campaign gets where it may fall back on its organization's.
use proactive.Base.{
  ℕ, Bool, true, ◌≡◌, refl, inl, inr, ◌&&◌, Option, none, some, List, [], ◌∷◌, Text, text_eq,
  same_id, is_null, arith, In, here, there, Bool-cases, ok,
}
use proactive.Store.{Db, OutcomeDefinition}
use proactive.Policies.{OperationalPolicy, EffectivePolicy, get_effective_policy}
use proactive.Policies.Settings.{PolicySettings}
use proactive.Visits.Platform.{Platform}
use proactive.Visits.Outcomes.{
  campaign_admits, comes_first, first_of, find_ordered, find_scoped_outcome_definition,
}

module _ (p : Platform) (test : OutcomeDefinition → Bool) where
  -- Once an organization's outcome is among them, one of the organization is first.
  first_of-general :
      (x y : OutcomeDefinition)
      → is_null y.campaign_id ≡ true
      → is_null (first_of p x (some y)).campaign_id ≡ true
  first_of-general x y h = elim (Bool-cases (is_null x.campaign_id)) [
    | inl e ↦ elim (Bool-cases (comes_first p x y)) [ inl q ↦ rw q e | inr q ↦ rw q h ]
    | inr e ↦ rw (e, h) h
  ]

  first_of-own :
      (x : OutcomeDefinition) (o : Option OutcomeDefinition)
      → is_null x.campaign_id ≡ true
      → is_null (first_of p x o).campaign_id ≡ true
  first_of-own x none h = h
  first_of-own x (some y) h = elim (Bool-cases (is_null y.campaign_id)) [
    | inl e ↦ first_of-general x y e
    | inr e ↦ rw (h, e) h
  ]

  find_ordered-general :
      (xs : List OutcomeDefinition) {o : OutcomeDefinition}
      → In o xs
      → test o ≡ true
      → is_null o.campaign_id ≡ true
      → (y : OutcomeDefinition) × (find_ordered p test xs ≡ some y) × (is_null y.campaign_id ≡ true)
  find_ordered-general [] i t n = elim i [ ]
  find_ordered-general (x ∷ xs) (here e) t n =
      let tx : test x ≡ true = rw (← e) t in
      (
        first_of p x (find_ordered p test xs),
        rw tx refl,
        first_of-own x (find_ordered p test xs) (rw (← e) n),
      )
  find_ordered-general (x ∷ xs) (there i) t n =
      let (y, f, h) = find_ordered-general xs i t n in
      elim (Bool-cases (test x)) [
        | inl tx ↦ (first_of p x (some y), rw (tx, f) refl, first_of-general x y h)
        | inr tx ↦ (y, rw tx f, h)
      ]

is_null-none : (o : Option ℕ) → is_null o ≡ true → o ≡ none
is_null-none none h = refl
is_null-none (some n) h = cc

-- Where the policy lets a campaign fall back on its organization's outcomes, and the organization
-- has an active one of the code, the outcome that is found is of the organization and of no
-- campaign, even if the campaign has one of its own.
pub find_scoped_outcome_definition-general :
    (platform : Platform) (defaults : PolicySettings) (policies : List OperationalPolicy)
    (organization_id : Option ℕ) (c : ℕ) (code : Text) (db : Db) (policy : EffectivePolicy)
    (o : OutcomeDefinition)
    → get_effective_policy defaults policies organization_id (some c) ≡ ok policy
    → policy.settings.allow_org_outcome_fallback ≡ true
    → In o db.outcomes
    → (same_id o.organization_id organization_id && text_eq o.code code && o.is_active) ≡ true
    → o.campaign_id ≡ none
    → (y : OutcomeDefinition) × (find_scoped_outcome_definition platform defaults policies
          organization_id
          (some c)
          code
          db
        ≡ ok (some y))
      × (y.campaign_id ≡ none)
unfolding find_scoped_outcome_definition
find_scoped_outcome_definition-general platform defaults policies organization_id c code db policy o
      e allowed i t n =
    let (y, f, h) =
      find_ordered-general platform
        (λ o.
          same_id o.organization_id organization_id
          && text_eq o.code code
          && o.is_active
          && campaign_admits (some c) true o)
        db.outcomes i (rw n (ground arith)) (rw n refl) in
    (y, rw (e, allowed, f) refl, is_null-none y.campaign_id h)
