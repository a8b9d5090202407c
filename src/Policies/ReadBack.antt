-- ===== src/Policies/ReadBack.antt =====
-- backend/src/policies/policies.service.ts: what a write to the policies changes, and what it leaves.
use proactive.Base.{
  false, ℕ, ◌≡◌, refl, ◌≢◌, ◌⊎◌, inl, inr, sym, ap, true, Option, none, some, List, ok, >>=-eq-ok,
  IfOk-ok, ok-injective, keep, not,
}
use proactive.Policies.Settings.{PolicySettings, IsPositive, normalized, stored}
use proactive.Policies.Update.{PolicyUpdateInput, next_settings}
use proactive.Policies.Bounds.{
  IsSound, next_settings-IsSound, get_effective_policy-IsPositive, normalized-stored,
}
use proactive.Policies.Table.{
  IsOther, find-upsert_self, find-upsert_other, find-clear_self, find-clear_other,
}
use proactive.Policies.{
  resolve_target_scope, OperationalPolicy, PolicySourceScope, map_record, PolicyStore,
  EffectivePolicy, AccountScope, has_scope_key, find_policy_record, merge_policy_record,
  campaign_policy, effective_of, get_effective_policy, upsert_record, written, clear_policy,
}

-- A policy is in effect only if the organization's record, where there is one, is in order.
effective_of-merge :
    (defaults : PolicySettings) (o : ℕ) (c : Option ℕ) (own org : Option OperationalPolicy)
    {e : EffectivePolicy}
    → effective_of defaults o c own org ≡ ok e
    → (s : PolicySettings) × (merge_policy_record defaults org ≡ ok s)
unfolding effective_of merge_policy_record
effective_of-merge defaults o c (some own) none h = (defaults, refl)
effective_of-merge defaults o c (some own) (some r) h =
    let (s, e, _) = >>=-eq-ok (normalized r.settings) _ h in (s, e)
effective_of-merge defaults o c none (some r) h =
    let (s, e, _) = >>=-eq-ok (normalized r.settings) _ h in (s, e)
effective_of-merge defaults o c none none h = (defaults, refl)

-- A key's own record, read in the changed table, gives the settings that were written.
effective_of-own :
    (defaults : PolicySettings) (o : ℕ) (c : Option ℕ) (own : OperationalPolicy)
    (org : Option OperationalPolicy) (s : PolicySettings)
    → (inherited : PolicySettings) × (merge_policy_record defaults org ≡ ok inherited)
    → normalized own.settings ≡ ok s
    → (e : EffectivePolicy) × (effective_of defaults o c (some own) org ≡ ok e)
      × (e.settings ≡ s)
      × (e.explicit_record ≡ true)
unfolding effective_of merge_policy_record
effective_of-own defaults o c own org s (i, m) n = (
  map_record (some o) c s (some own.id) PolicySourceScope.campaign true false,
  rw m (rw n),
  refl,
  refl,
)

-- The same, whichever of the two records the key is.
effective_self :
    (defaults : PolicySettings) (policies : List OperationalPolicy) (o : ℕ) (c : Option ℕ)
    (r : OperationalPolicy) (s : PolicySettings)
    → find_policy_record policies o c ≡ some r
    → normalized r.settings ≡ ok s
    → (inherited : PolicySettings) × (merge_policy_record defaults
          (find_policy_record policies o none)
        ≡ ok inherited)
    → (e : EffectivePolicy) × (get_effective_policy defaults policies (some o) c ≡ ok e)
      × (e.settings ≡ s)
      × (e.explicit_record ≡ true)
unfolding get_effective_policy campaign_policy effective_of
effective_self defaults policies o (some c) r s f n m =
    rw f (effective_of-own defaults o (some c) r (find_policy_record policies o none) s m n)
effective_self defaults policies o none r s f n m = rw f (
  map_record (some o) none s (some r.id) PolicySourceScope.organization true false,
  rw n,
  refl,
  refl,
)

-- After a write the organization's record, where there is one, is in order still.
inherited-upsert :
    (defaults : PolicySettings) (policies : List OperationalPolicy) (new_id o : ℕ) (c : Option ℕ)
    (next : PolicySettings) {current : EffectivePolicy}
    → IsPositive next
    → get_effective_policy defaults policies (some o) c ≡ ok current
    → (i : PolicySettings) × (merge_policy_record defaults
          (find_policy_record (upsert_record policies new_id o c (stored next)) o none)
        ≡ ok i)
unfolding merge_policy_record get_effective_policy
inherited-upsert defaults policies new_id o none next p e =
    let (r, f, same) = find-upsert_self o none (stored next) policies new_id in
    (next, rw f (rw same (normalized-stored next p)))
inherited-upsert defaults policies new_id o (some x) next p e =
    let (i, m) = effective_of-merge defaults o (some x) _ _ e in
    (i, rw (find-upsert_other o (some x) (stored next) policies new_id o none (inr (λ q. cc))) m)

-- Where another key is written or cleared, a lookup that names the organization's record or the
-- campaign's own finds what it found.
effective-other :
    (defaults : PolicySettings) (before after : List OperationalPolicy) (o : ℕ) (c : Option ℕ)
    → find_policy_record after o none ≡ find_policy_record before o none
    → ((x : ℕ) → c ≡ some x → find_policy_record after o c ≡ find_policy_record before o c)
    → get_effective_policy defaults after (some o) c
      ≡ get_effective_policy defaults before (some o) c
unfolding get_effective_policy campaign_policy
effective-other defaults before after o none org own = rw org
effective-other defaults before after o (some x) org own = rw (org, own x refl)

-- `o' c'` lies outside what a write at `o c` governs: another organization, or, where the write is
-- to a campaign, anything but that campaign.
abbrev pub IsUngoverned : ℕ → Option ℕ → ℕ → Option ℕ → Type 0
IsUngoverned o c o' c' = (o' ≢ o) ⊎ ((c ≢ none) × (c' ≢ c))

IsUngoverned-org :
    (o : ℕ) (c : Option ℕ) (o' : ℕ) (c' : Option ℕ) → IsUngoverned o c o' c' → IsOther o c o' none
IsUngoverned-org o c o' c' (inl h) = inl h
IsUngoverned-org o c o' c' (inr (h, _)) = inr (λ e. h (sym e))

IsUngoverned-own :
    (o : ℕ) (c : Option ℕ) (o' : ℕ) (c' : Option ℕ) → IsUngoverned o c o' c' → IsOther o c o' c'
IsUngoverned-own o c o' c' (inl h) = inl h
IsUngoverned-own o c o' c' (inr (_, h)) = inr h

module _ (defaults : PolicySettings) (store : PolicyStore) (new_id o : ℕ) (c : Option ℕ)
    (input : PolicyUpdateInput) {after : PolicyStore} where
  -- The parts of a write that went through.
  written_parts :
      written defaults store new_id o c input ≡ ok after
      → (current : EffectivePolicy) × (next : PolicySettings) × (get_effective_policy defaults
            store.policies
            (some o)
            c
          ≡ ok current)
        × (next_settings current.settings input ≡ ok next)
        × (after
            ≡ record store { policies = upsert_record store.policies new_id o c (stored next) })
  unfolding written
  written_parts h =
      let (current, e, h1) =
        >>=-eq-ok (get_effective_policy defaults store.policies (some o) c) _ h in
      let (next, n, h2) = >>=-eq-ok (next_settings current.settings input) _ h1 in
      (current, next, e, n, sym (ok-injective h2))

  -- With positive defaults, a write that goes through is read back: the policy then in effect at
  -- its scope exists, is explicit, and has exactly the settings that the update makes of those in
  -- effect before; its limits are positive and it purges later than it archives.
  pub written-read_back :
      IsPositive defaults
      → written defaults store new_id o c input ≡ ok after
      → (current : EffectivePolicy) × (policy : EffectivePolicy) × (get_effective_policy defaults
            store.policies
            (some o)
            c
          ≡ ok current)
        × (get_effective_policy defaults after.policies (some o) c ≡ ok policy)
        × (next_settings current.settings input ≡ ok policy.settings)
        × (policy.explicit_record ≡ true)
        × IsSound policy.settings
  written-read_back p h =
      let (current, next, e, n, made) = written_parts h in
      let sound =
        IfOk-ok IsSound (next_settings current.settings input)
          (next_settings-IsSound current.settings input
            (IfOk-ok _ _ (get_effective_policy-IsPositive defaults store.policies (some o) c p) e))
          n in
      let (r, f, same) = find-upsert_self o c (stored next) store.policies new_id in
      let (policy, read, exact, explicit) =
        effective_self defaults _ o c r next f (rw same (normalized-stored next sound.0))
          (inherited-upsert defaults store.policies new_id o c next sound.0 e) in
      (current, policy, e, rw made read, rw exact n, explicit, rw exact sound)

  -- A write leaves the policy in effect at every scope that it does not govern.
  pub written-isolated :
      (o' : ℕ) (c' : Option ℕ)
      → written defaults store new_id o c input ≡ ok after
      → IsUngoverned o c o' c'
      → get_effective_policy defaults after.policies (some o') c'
        ≡ get_effective_policy defaults store.policies (some o') c'
  written-isolated o' c' h u =
      let (current, next, _, _, made) = written_parts h in
      rw made (
        effective-other defaults store.policies _ o' c'
          (find-upsert_other o c (stored next) store.policies new_id o' none
            (IsUngoverned-org o c o' c' u))
          (λ _ _.
            find-upsert_other o c (stored next) store.policies new_id o' c'
              (IsUngoverned-own o c o' c' u)))

-- What is in effect for a campaign that has no record of its own.
effective_of-fallback :
    (defaults : PolicySettings) (o x : ℕ) (org : Option OperationalPolicy)
    {policy : EffectivePolicy}
    → effective_of defaults o (some x) none org ≡ ok policy
    → (general : EffectivePolicy) × (effective_of defaults o none none org ≡ ok general)
      × (policy.settings ≡ general.settings)
      × (policy.explicit_record ≡ false)
      × (policy.id ≡ none)
unfolding effective_of merge_policy_record
effective_of-fallback defaults o x none h =
    let e = sym (ok-injective h) in
    (
      map_record (some o) none defaults none PolicySourceScope.default false false,
      refl,
      rw e,
      rw e,
      rw e,
    )
effective_of-fallback defaults o x (some r) h =
    let (s, n, h1) = >>=-eq-ok (normalized r.settings) _ h in
    let e = sym (ok-injective h1) in
    (
      map_record (some o) none s (some r.id) PolicySourceScope.organization true false,
      rw n,
      rw e,
      rw e,
      rw e,
    )

-- Clearing a campaign's policy puts in effect, for the campaign, the settings that its organization
-- had in effect before; the policy is then no explicit record and names none.
pub clear-falls_back :
    (defaults : PolicySettings) (store : PolicyStore) (scope : AccountScope) (requested : Option ℕ)
    (o x : ℕ) {after : PolicyStore} {policy : EffectivePolicy}
    → resolve_target_scope store scope requested ≡ ok (o, some x)
    → clear_policy defaults store scope requested ≡ ok (after, policy)
    → (general : EffectivePolicy) × (get_effective_policy defaults store.policies (some o) none
        ≡ ok general)
      × (policy.settings ≡ general.settings)
      × (policy.explicit_record ≡ false)
      × (policy.id ≡ none)
unfolding clear_policy get_effective_policy campaign_policy
clear-falls_back defaults store scope requested o x {policy} t h =
    let cleared = keep (λ r. not (has_scope_key o (some x) r)) store.policies in
    let h1 = rw t at h in
    let (p, e, made) = >>=-eq-ok (get_effective_policy defaults cleared (some o) (some x)) _ h1 in
    let same : p ≡ policy = ap (λ q. q.1) (ok-injective made) in
    let e1 =
      rw
        (
          find-clear_self o (some x) store.policies,
          find-clear_other o (some x) store.policies o none (inr (λ q. cc)),
        )
        at e in
    rw (← same) (effective_of-fallback defaults o x (find_policy_record store.policies o none) e1)
