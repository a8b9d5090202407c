-- ===== src/Policies/Bounds.antt =====
-- The settings of a policy stay in range: the policy in effect, and what an update writes.
use proactive.Policies.{
  OperationalPolicy, EffectivePolicy, merge_policy_record, effective_of, get_effective_policy,
  campaign_policy, find_policy_record,
}
use proactive.Base.{
  List, IfOk-of_eq, IfOk, IfOk-bind, IfOk-step, IfOk-refuse, ◌>>=◌, false, Result, none, some, zero,
  suc, ℕ, Option, String, ◌≡◌, refl, arith, ok, ◌<◌, ◌⊎◌, inl, inr,
}
use proactive.Policies.Settings.{
  StoredSettings, PolicySettings, normalized, stored, IsPositive, ImportMode, DuplicateStrategy,
  normalize_import_mode, mode_name, normalize_duplicate_strategy, strategy_name,
}
use proactive.Policies.Update.{
  chosen, sanitize_nullable_day_value, PolicyUpdateInput, next_settings, purge_too_early,
}

normalize-mode_name : (m : ImportMode) → normalize_import_mode (mode_name m) ≡ m
unfolding normalize_import_mode mode_name
normalize-mode_name ImportMode.create_only = refl
normalize-mode_name ImportMode.upsert = refl
normalize-mode_name ImportMode.replace_turf_membership = refl

normalize-strategy_name :
    (s : DuplicateStrategy) → normalize_duplicate_strategy (strategy_name s) ≡ s
unfolding normalize_duplicate_strategy strategy_name
normalize-strategy_name DuplicateStrategy.skip = refl
normalize-strategy_name DuplicateStrategy.error = refl
normalize-strategy_name DuplicateStrategy.merge = refl
normalize-strategy_name DuplicateStrategy.review = refl

pub normalized-IsPositive :
    (r : StoredSettings) {s : PolicySettings} → normalized r ≡ ok s → IsPositive s
unfolding normalized
normalized-IsPositive r h = ground arith

-- Positive settings are read back as they were written.
pub normalized-stored : (s : PolicySettings) → IsPositive s → normalized (stored s) ≡ ok s
unfolding normalized stored
normalized-stored s p = ground (
  arith,
  normalize-mode_name s.default_import_mode,
  normalize-strategy_name s.default_duplicate_strategy,
)

chosen-IfOk :
    (value : Option ℕ) (current : ℕ) (name : String)
    → 0 < current
    → IfOk (λ n. 0 < n) (chosen value current name)
unfolding chosen
chosen-IfOk none current name p = p
chosen-IfOk (some zero) current name p = tt
chosen-IfOk (some (suc n)) current name p = omega arith

-- Where a period for archiving and one for purging are set (0 sets none), the purge is later.
abbrev pub IsLater : Option ℕ → Option ℕ → Type 0
IsLater none purge = Unit
IsLater (some archive) none = Unit
IsLater (some archive) (some purge) = (archive ≡ 0) ⊎ (purge ≡ 0) ⊎ (archive < purge)

abbrev pub PurgesLater : PolicySettings → Type 0
PurgesLater s = IsLater s.retention_archive_days s.retention_purge_days

purge_too_early-IsLater :
    (archive purge : Option ℕ) → purge_too_early archive purge ≡ false → IsLater archive purge
unfolding purge_too_early
purge_too_early-IsLater none purge h = tt
purge_too_early-IsLater (some archive) none h = tt
purge_too_early-IsLater (some zero) (some purge) h = inl refl
purge_too_early-IsLater (some (suc archive)) (some zero) h = inr (inl refl)
purge_too_early-IsLater (some (suc archive)) (some (suc purge)) h = inr (inr (ground arith))

abbrev pub IsSound : PolicySettings → Type 0
IsSound s = IsPositive s × PurgesLater s

-- A setting that is chosen is positive for the rest.
IfOk-chosen :
    (value : Option ℕ) (current : ℕ) (name : String) (f : ℕ → Result PolicySettings)
    → 0 < current
    → ((n : ℕ) → 0 < n → IfOk IsSound (f n))
    → IfOk IsSound (chosen value current name >>= f)
IfOk-chosen value current name f p h =
    IfOk-bind (λ n. 0 < n) IsSound (chosen value current name) f (chosen-IfOk value current name p)
      h

-- With positive settings before, an update leaves positive settings and periods in order.
pub next_settings-IsSound :
    (current : PolicySettings) (input : PolicyUpdateInput)
    → IsPositive current
    → IfOk IsSound (next_settings current input)
unfolding next_settings
next_settings-IsSound current input p =
    IfOk-step IsSound (sanitize_nullable_day_value input.retention_archive_days _) _ λ archive _.
      IfOk-step IsSound (sanitize_nullable_day_value input.retention_purge_days _) _ λ purge _.
        IfOk-chosen _ _ _ _ p.sensitive_mfa_window_minutes λ _ p0.
          IfOk-chosen _ _ _ _ p.canvasser_correction_window_minutes λ _ p1.
            IfOk-chosen _ _ _ _ p.max_attempts_per_household λ _ p2.
              IfOk-chosen _ _ _ _ p.min_minutes_between_attempts λ _ p3.
                IfOk-chosen _ _ _ _ p.geofence_radius_feet λ _ p4.
                  IfOk-chosen _ _ _ _ p.gps_low_accuracy_meters λ _ p5.
                    IfOk-chosen _ _ _ _ p.refresh_token_ttl_days λ _ p6.
                      IfOk-chosen _ _ _ _ p.activation_token_ttl_hours λ _ p7.
                        IfOk-chosen _ _ _ _ p.password_reset_ttl_minutes λ _ p8.
                          IfOk-chosen _ _ _ _ p.login_lockout_threshold λ _ p9.
                            IfOk-chosen _ _ _ _ p.login_lockout_minutes λ _ p10.
                              IfOk-chosen _ _ _ _ p.mfa_challenge_ttl_minutes λ _ p11.
                                IfOk-chosen _ _ _ _ p.mfa_backup_code_count λ _ p12.
                                  IfOk-refuse IsSound (purge_too_early _ _) _ _ λ later. (
                                    record {
                                      sensitive_mfa_window_minutes = p0;
                                      canvasser_correction_window_minutes = p1;
                                      max_attempts_per_household = p2;
                                      min_minutes_between_attempts = p3;
                                      geofence_radius_feet = p4;
                                      gps_low_accuracy_meters = p5;
                                      refresh_token_ttl_days = p6;
                                      activation_token_ttl_hours = p7;
                                      password_reset_ttl_minutes = p8;
                                      login_lockout_threshold = p9;
                                      login_lockout_minutes = p10;
                                      mfa_challenge_ttl_minutes = p11;
                                      mfa_backup_code_count = p12;
                                    },
                                    purge_too_early-IsLater _ _ later,
                                  )

normalized-IfOk : (r : StoredSettings) → IfOk IsPositive (normalized r)
normalized-IfOk r = IfOk-of_eq IsPositive (normalized r) (λ s. normalized-IsPositive r)

merge-IfOk :
    (base : PolicySettings) (r : Option OperationalPolicy)
    → IsPositive base
    → IfOk IsPositive (merge_policy_record base r)
unfolding merge_policy_record
merge-IfOk base none p = p
merge-IfOk base (some r) p = normalized-IfOk r.settings

abbrev pub HasPositive : EffectivePolicy → Type 0
HasPositive e = IsPositive e.settings

effective_of-IfOk :
    (defaults : PolicySettings) (o : ℕ) (c : Option ℕ) (own org : Option OperationalPolicy)
    → IsPositive defaults
    → IfOk HasPositive (effective_of defaults o c own org)
unfolding effective_of
effective_of-IfOk defaults o c (some own) org p =
    IfOk-bind IsPositive HasPositive (merge_policy_record defaults org) _
      (merge-IfOk defaults org p)
      λ inherited _.
        IfOk-bind IsPositive HasPositive (merge_policy_record inherited (some own)) _
          (normalized-IfOk own.settings) λ s q. q
effective_of-IfOk defaults o c none (some r) p =
    IfOk-bind IsPositive HasPositive (merge_policy_record defaults (some r)) _
      (normalized-IfOk r.settings) λ s q. q
effective_of-IfOk defaults o c none none p = p

-- Whatever the database holds, a policy in effect has positive settings if the defaults are.
pub get_effective_policy-IsPositive :
    (defaults : PolicySettings) (policies : List OperationalPolicy) (o c : Option ℕ)
    → IsPositive defaults
    → IfOk HasPositive (get_effective_policy defaults policies o c)
unfolding get_effective_policy
get_effective_policy-IsPositive defaults policies none c p = p
get_effective_policy-IsPositive defaults policies (some o) c p =
    effective_of-IfOk defaults o c (campaign_policy policies o c)
      (find_policy_record policies o none) p
