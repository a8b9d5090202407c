-- ===== src/Visits/Outcomes.antt =====
-- `normalizeLegacyResult`, `findScopedOutcomeDefinition` and `listActiveOutcomes` of
-- backend/src/visits/visits.service.ts. PostgreSQL sorts a null first in descending order.
use proactive.Base.{
  ℕ, Bool, true, false, not, ◌&&◌, ◌||◌, ◌==◌, Option, none, some, List, [], ◌∷◌, Text, text,
  text_eq, trim, same_id, is_null, ltb, if◌then◌else◌, Result, ok, ◌>>=◌,
}
use proactive.Store.{OutcomeDefinition, VisitResult, Db}
use proactive.Policies.{OperationalPolicy, get_effective_policy}
use proactive.Policies.Settings.{PolicySettings}
use proactive.Visits.Platform.{Platform}

unfoldable pub normalize_legacy_result : Text → VisitResult
normalize_legacy_result outcome_code =
    let normalized = trim outcome_code in
    if text_eq normalized (text "knocked")
    then VisitResult.knocked
    else if text_eq normalized (text "lit_drop")
    then VisitResult.lit_drop
    else if text_eq normalized (text "not_home")
    then VisitResult.not_home
    else if text_eq normalized (text "refused")
    then VisitResult.refused
    else if text_eq normalized (text "talked_to_voter")
    then VisitResult.talked_to_voter
    else VisitResult.other

-- The campaigns whose outcomes are seen: the campaign's own, and the organization's (none) where
-- the policy lets a campaign fall back on them.
abbrev pub campaign_admits : Option ℕ → Bool → OutcomeDefinition → Bool
campaign_admits none fallback o = is_null o.campaign_id
campaign_admits (some c) true o = same_id o.campaign_id (some c) || is_null o.campaign_id
campaign_admits (some c) false o = same_id o.campaign_id (some c)

-- Campaign in descending order, of which a null is the first, then the display order, then the label.
abbrev pub comes_first : Platform → OutcomeDefinition → OutcomeDefinition → Bool
comes_first p x y =
    if is_null x.campaign_id && not (is_null y.campaign_id)
    then true
    else if not (is_null x.campaign_id) && is_null y.campaign_id
    then false
    else if ltb x.display_order y.display_order
    then true
    else x.display_order == y.display_order && p.sorts_before x.label y.label

abbrev pub first_of : Platform → OutcomeDefinition → Option OutcomeDefinition → OutcomeDefinition
first_of p x none = x
first_of p x (some y) = if comes_first p x y then x else y

abbrev pub find_ordered :
    Platform → (OutcomeDefinition → Bool) → List OutcomeDefinition → Option OutcomeDefinition
find_ordered p test [] = none
find_ordered p test (x ∷ xs) =
    let rest = find_ordered p test xs in if test x then some (first_of p x rest) else rest

module _ (platform : Platform) (defaults : PolicySettings) (policies : List OperationalPolicy) where
  unfoldable pub find_scoped_outcome_definition :
      Option ℕ → Option ℕ → Text → Db → Result (Option OutcomeDefinition)
  find_scoped_outcome_definition organization_id campaign_id code db = do
    policy ← get_effective_policy defaults policies organization_id campaign_id
    ok (
        find_ordered platform
          (λ o.
            same_id o.organization_id organization_id
            && text_eq o.code code
            && o.is_active
            && campaign_admits campaign_id policy.settings.allow_org_outcome_fallback o)
          db.outcomes)
