-- ===== src/Tests/PolicyTests.antt =====
-- Policies: a write, what it is read back as, and its clearing.
use proactive.Base.{◌≡◌, refl, true, false, none, some, [], ◌∷◌, ok, inr, IfOk}
use proactive.Policies.{
  PolicyStore, EffectivePolicy, written, upsert_policy, get_effective_policy, clear_policy,
  resolve_target_scope, upsert_record, OperationalPolicy, campaign_policy, effective_of,
  find_policy_record, PolicySourceScope, assert_campaign_in_organization,
}
use proactive.Policies.Settings.{PolicySettings, IsPositive, stored}
use proactive.Policies.Update.{next_settings, chosen, purge_too_early}
use proactive.Policies.Bounds.{
  IsSound, HasPositive, get_effective_policy-IsPositive, next_settings-IsSound,
}
use proactive.Policies.ReadBack.{written-read_back, written-isolated, clear-falls_back}
use proactive.Tests.Data.{defaults, defaults-IsPositive, stricter, policy_store, account}

abbrev next : PolicySettings
next = record defaults {
  default_import_mode = proactive.Policies.Settings.ImportMode.upsert;
  max_attempts_per_household = 2;
  retention_archive_days = some 30;
  retention_purge_days = some 90;
}

abbrev after : PolicyStore
after = record policy_store {
  policies =
      record { id = 3; organization_id = 1; campaign_id = some 7; settings = stored next } ∷ [];
}

write : written defaults policy_store 3 1 (some 7) stricter ≡ ok after
unfolding written get_effective_policy campaign_policy effective_of find_policy_record next_settings
    chosen purge_too_early
write = refl

get_effective_policy-IsPositive_example :
    IfOk HasPositive (get_effective_policy defaults after.policies (some 1) (some 7))
get_effective_policy-IsPositive_example =
    get_effective_policy-IsPositive defaults after.policies (some 1) (some 7) defaults-IsPositive

next_settings-IsSound_example : IfOk IsSound (next_settings defaults stricter)
next_settings-IsSound_example = next_settings-IsSound defaults stricter defaults-IsPositive

written-read_back_example :
    (current : EffectivePolicy) × (policy : EffectivePolicy) × (get_effective_policy defaults []
        (some 1)
        (some 7)
      ≡ ok current)
    × (get_effective_policy defaults after.policies (some 1) (some 7) ≡ ok policy)
    × (next_settings current.settings stricter ≡ ok policy.settings)
    × (policy.explicit_record ≡ true)
    × IsSound policy.settings
written-read_back_example =
    written-read_back defaults policy_store 3 1 (some 7) stricter defaults-IsPositive write

-- The organization itself is not governed by what its campaign is given.
written-isolated_example :
    get_effective_policy defaults after.policies (some 1) none
    ≡ get_effective_policy defaults [] (some 1) none
written-isolated_example =
    written-isolated defaults policy_store 3 1 (some 7) stricter 1 none write
      (inr ((λ e. cc), (λ e. cc)))

abbrev general : EffectivePolicy
general = record {
  id = none;
  organization_id = some 1;
  campaign_id = some 7;
  source_scope = PolicySourceScope.default;
  explicit_record = false;
  inherited_from_organization = false;
  settings = defaults;
}

target : resolve_target_scope after account (some 7) ≡ ok (1, some 7)
unfolding resolve_target_scope assert_campaign_in_organization
target = refl

cleared : clear_policy defaults after account (some 7) ≡ ok (policy_store, general)
unfolding clear_policy resolve_target_scope get_effective_policy campaign_policy effective_of
    find_policy_record
cleared = refl

clear-falls_back_example :
    (g : EffectivePolicy) × (get_effective_policy defaults after.policies (some 1) none ≡ ok g)
    × (general.settings ≡ g.settings)
    × (general.explicit_record ≡ false)
    × (general.id ≡ none)
clear-falls_back_example = clear-falls_back defaults after account (some 7) 1 7 target cleared
