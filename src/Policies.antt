-- ===== src/Policies.antt =====
-- backend/src/policies/policies.service.ts: the policy in effect for an organization or one of its
-- campaigns, and the operations on policies. `defaults` is what `getDefaultPolicy` makes of the
-- environment. A scope key is the pair that its text is made of.
pub mod Settings
pub mod Update
pub mod Bounds
pub mod Table
pub mod ReadBack
use proactive.Base.{
  ℕ, Bool, true, false, Option, none, some, List, [], ◌∷◌, Result, ok, err, Failure, bad_request,
  forbidden, same_id, is_null, any, find_first, update_where, keep, refuse, require, found, not,
  ◌&&◌, ◌==◌, if◌then◌else◌, ◌>>=◌, ◌>>◌,
}
use Settings.{PolicySettings, StoredSettings, stored, normalized}
use Update.{PolicyUpdateInput, next_settings}

pub record OperationalPolicy : Type 0 where
  pub id : ℕ
  pub organization_id : ℕ
  pub campaign_id : Option ℕ
  pub settings : StoredSettings

pub record Campaign : Type 0 where
  pub id : ℕ
  pub organization_id : ℕ

pub record PolicyStore : Type 0 where
  pub campaigns : List Campaign
  pub policies : List OperationalPolicy

pub data PolicySourceScope : Type 0 where
  default organization campaign : PolicySourceScope

pub record EffectivePolicy : Type 0 where
  pub id : Option ℕ
  pub organization_id : Option ℕ
  pub campaign_id : Option ℕ
  pub source_scope : PolicySourceScope
  pub explicit_record : Bool
  pub inherited_from_organization : Bool
  pub settings : PolicySettings

-- The record's `scopeKey` is that of an organization and, unless it is `none`, a campaign.
abbrev pub has_scope_key : ℕ → Option ℕ → OperationalPolicy → Bool
has_scope_key organization_id campaign_id r =
    r.organization_id == organization_id && same_id r.campaign_id campaign_id

unfoldable pub find_policy_record : List OperationalPolicy → ℕ → Option ℕ → Option OperationalPolicy
find_policy_record policies organization_id campaign_id =
    find_first (has_scope_key organization_id campaign_id) policies

unfoldable pub merge_policy_record :
    PolicySettings → Option OperationalPolicy → Result PolicySettings
merge_policy_record base none = ok base
merge_policy_record base (some r) = normalized r.settings

unfoldable pub map_record :
    Option ℕ
    → Option ℕ
    → PolicySettings
    → Option ℕ
    → PolicySourceScope
    → Bool
    → Bool
    → EffectivePolicy
map_record organization_id campaign_id settings id source_scope explicit_record inherited = record {
  id = id;
  organization_id = organization_id;
  campaign_id = campaign_id;
  source_scope = source_scope;
  explicit_record = explicit_record;
  inherited_from_organization = inherited;
  settings = settings;
}

-- The campaign's own record, if the scope names a campaign that has one.
unfoldable pub campaign_policy : List OperationalPolicy → ℕ → Option ℕ → Option OperationalPolicy
campaign_policy policies organization_id none = none
campaign_policy policies organization_id (some c) =
    find_policy_record policies organization_id (some c)

-- The three cases of `getEffectivePolicy` once the records are read.
unfoldable pub effective_of :
    PolicySettings
    → ℕ
    → Option ℕ
    → Option OperationalPolicy
    → Option OperationalPolicy
    → Result EffectivePolicy
unfolding merge_policy_record map_record
effective_of defaults o c (some own) organization_policy = do
  inherited ← merge_policy_record defaults organization_policy
  settings ← merge_policy_record inherited (some own)
  ok (map_record (some o) c settings (some own.id) PolicySourceScope.campaign true false)
effective_of defaults o c none (some r) = do
  settings ← merge_policy_record defaults (some r)
  ok (
      map_record (some o) c settings (if is_null c then some r.id else none)
        PolicySourceScope.organization (is_null c) (not (is_null c)))
effective_of defaults o c none none =
    ok (map_record (some o) c defaults none PolicySourceScope.default false false)

unfoldable pub get_effective_policy :
    PolicySettings → List OperationalPolicy → Option ℕ → Option ℕ → Result EffectivePolicy
unfolding map_record
get_effective_policy defaults policies none c =
    ok (map_record none c defaults none PolicySourceScope.default false false)
get_effective_policy defaults policies (some o) c =
    effective_of defaults o c (campaign_policy policies o c) (find_policy_record policies o none)

-- The scope of an account: its organization and campaign.
pub record AccountScope : Type 0 where
  pub organization_id : Option ℕ
  pub campaign_id : Option ℕ

unfoldable pub assert_campaign_in_organization : PolicyStore → ℕ → ℕ → Result (Unit {0})
assert_campaign_in_organization store o c =
    require (any (λ r. r.id == c && r.organization_id == o) store.campaigns)
      (bad_request "Campaign not found in your organization scope")

-- An account of a campaign is held to it; another may name a campaign of its organization.
unfoldable pub resolve_campaign : PolicyStore → ℕ → Option ℕ → Option ℕ → Result (Option ℕ)
unfolding assert_campaign_in_organization
resolve_campaign store o (some own) none = ok (some own)
resolve_campaign store o (some own) (some requested) =
    if requested == own
    then ok (some own)
    else err (forbidden "You cannot manage policies outside your campaign scope")
resolve_campaign store o none none = ok none
resolve_campaign store o none (some requested) = do
  assert_campaign_in_organization store o requested
  ok (some requested)

unfoldable pub resolve_target_scope : PolicyStore → AccountScope → Option ℕ → Result (ℕ × Option ℕ)
unfolding resolve_campaign
resolve_target_scope store scope requested = do
  o ←
      found scope.organization_id
        (bad_request "Operational policies require an organization-scoped account")
  c ← resolve_campaign store o scope.campaign_id requested
  ok (o, c)

unfoldable pub get_manageable_policy :
    PolicySettings → PolicyStore → AccountScope → Option ℕ → Result EffectivePolicy
get_manageable_policy defaults store scope requested = do
  (o, c) ← resolve_target_scope store scope requested
  get_effective_policy defaults store.policies (some o) c

-- `upsert` at a scope key; `new_id` is the identifier that the database gives a new record.
unfoldable pub upsert_record :
    List OperationalPolicy → ℕ → ℕ → Option ℕ → StoredSettings → List OperationalPolicy
upsert_record policies new_id o c settings =
    if any (has_scope_key o c) policies
    then update_where (has_scope_key o c) (λ r. record r { settings = settings }) policies
    else record { id = new_id; organization_id = o; campaign_id = c; settings = settings }
      ∷ policies

-- `upsertPolicy` up to its write.
unfoldable pub written :
    PolicySettings → PolicyStore → ℕ → ℕ → Option ℕ → PolicyUpdateInput → Result PolicyStore
unfolding upsert_record
written defaults store new_id o c input = do
  current ← get_effective_policy defaults store.policies (some o) c
  next ← next_settings current.settings input
  ok (record store { policies = upsert_record store.policies new_id o c (stored next) })

unfoldable pub upsert_policy :
    PolicySettings
    → PolicyStore
    → ℕ
    → AccountScope
    → Option ℕ
    → PolicyUpdateInput
    → Result (PolicyStore × EffectivePolicy)
unfolding written
upsert_policy defaults store new_id scope requested input = do
  (o, c) ← resolve_target_scope store scope requested
  after ← written defaults store new_id o c input
  policy ← get_effective_policy defaults after.policies (some o) c
  ok (after, policy)

unfoldable pub clear_policy :
    PolicySettings → PolicyStore → AccountScope → Option ℕ → Result (PolicyStore × EffectivePolicy)
clear_policy defaults store scope requested = do
  (o, c) ← resolve_target_scope store scope requested
  let after = record store { policies = keep (λ r. not (has_scope_key o c r)) store.policies }
  policy ← get_effective_policy defaults after.policies (some o) c
  ok (after, policy)
