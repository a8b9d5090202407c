-- ===== src/Policies/Table.antt =====
-- How a lookup by scope key goes through the two writes to the table of policies.
use proactive.Base.{
  ℕ, ◌≡◌, refl, ◌≢◌, ◌⊎◌, inl, inr, true, false, Bool-cases, Option, none, some, List, [], ◌∷◌,
  arith, any, find_first, update_where, keep, not,
}
use proactive.Policies.Settings.{StoredSettings}
use proactive.Policies.{OperationalPolicy, has_scope_key, find_policy_record, upsert_record}

-- Two scope keys that differ.
abbrev pub IsOther : ℕ → Option ℕ → ℕ → Option ℕ → Type 0
IsOther o c o' c' = (o' ≢ o) ⊎ (c' ≢ c)

has_scope_key-IsOther :
    (o : ℕ) (c : Option ℕ) (o' : ℕ) (c' : Option ℕ) (r : OperationalPolicy)
    → IsOther o c o' c'
    → has_scope_key o c r ≡ true
    → has_scope_key o' c' r ≡ false
has_scope_key-IsOther o none o' none r d h = ground arith
has_scope_key-IsOther o none o' (some x) r d h = ground arith
has_scope_key-IsOther o (some x) o' none r d h = ground arith
has_scope_key-IsOther o (some x) o' (some y) r d h = ground arith

has_scope_key_self :
    (o : ℕ) (c : Option ℕ) (id : ℕ) (s : StoredSettings)
    → has_scope_key o c (record { id = id; organization_id = o; campaign_id = c; settings = s })
      ≡ true
has_scope_key_self o none id s = ground arith
has_scope_key_self o (some c) id s = ground arith

module _ (o : ℕ) (c : Option ℕ) (s : StoredSettings) where
  find-update_other :
      (o' : ℕ) (c' : Option ℕ) (rs : List OperationalPolicy)
      → IsOther o c o' c'
      → find_first
          (has_scope_key o' c')
          (update_where (has_scope_key o c) (λ r. record r { settings = s }) rs)
        ≡ find_first (has_scope_key o' c') rs
  find-update_other o' c' [] d = refl
  find-update_other o' c' (r ∷ rs) d = elim (Bool-cases (has_scope_key o c r)) [
    | inl e ↦ rw (e, has_scope_key-IsOther o c o' c' r d e) (find-update_other o' c' rs d)
    | inr e ↦ rw (e, find-update_other o' c' rs d)
  ]

  find-update_self :
      (rs : List OperationalPolicy)
      → any (has_scope_key o c) rs ≡ true
      → (r : OperationalPolicy) × (find_first
            (has_scope_key o c)
            (update_where (has_scope_key o c) (λ r. record r { settings = s }) rs)
          ≡ some r)
        × (r.settings ≡ s)
  find-update_self [] h = absurd (ground arith)
  find-update_self (r ∷ rs) h = elim (Bool-cases (has_scope_key o c r)) [
    | inl e ↦ (record r { settings = s }, rw (e, e), refl)
    | inr e ↦ rw (e, e) (find-update_self rs (rw e at h))
  ]

  -- The record at the key is the one that was written.
  pub find-upsert_self :
      (rs : List OperationalPolicy) (new_id : ℕ)
      → (r : OperationalPolicy) × (find_policy_record (upsert_record rs new_id o c s) o c ≡ some r)
        × (r.settings ≡ s)
  unfolding find_policy_record upsert_record
  find-upsert_self rs new_id = elim (Bool-cases (any (has_scope_key o c) rs)) [
    | inl e ↦ rw e (find-update_self rs e)
    | inr e ↦ (
      record { id = new_id; organization_id = o; campaign_id = c; settings = s },
      rw (e, has_scope_key_self o c new_id s),
      refl,
    )
  ]

  -- The record at any other key is as before.
  pub find-upsert_other :
      (rs : List OperationalPolicy) (new_id o' : ℕ) (c' : Option ℕ)
      → IsOther o c o' c'
      → find_policy_record (upsert_record rs new_id o c s) o' c' ≡ find_policy_record rs o' c'
  unfolding find_policy_record upsert_record
  find-upsert_other rs new_id o' c' d = elim (Bool-cases (any (has_scope_key o c) rs)) [
    | inl e ↦ rw e (find-update_other o' c' rs d)
    | inr e ↦ rw e (
        rw (
          has_scope_key-IsOther o c o' c'
            (record { id = new_id; organization_id = o; campaign_id = c; settings = s }) d
            (has_scope_key_self o c new_id s)))
  ]

module _ (o : ℕ) (c : Option ℕ) where
  pub find-clear_self :
      (rs : List OperationalPolicy)
      → find_policy_record (keep (λ r. not (has_scope_key o c r)) rs) o c ≡ none
  unfolding find_policy_record
  find-clear_self [] = refl
  find-clear_self (r ∷ rs) = elim (Bool-cases (has_scope_key o c r)) [
    | inl e ↦ rw e (find-clear_self rs)
    | inr e ↦ rw (e, e) (find-clear_self rs)
  ]

  pub find-clear_other :
      (rs : List OperationalPolicy) (o' : ℕ) (c' : Option ℕ)
      → IsOther o c o' c'
      → find_policy_record (keep (λ r. not (has_scope_key o c r)) rs) o' c'
        ≡ find_policy_record rs o' c'
  unfolding find_policy_record
  find-clear_other [] o' c' d = refl
  find-clear_other (r ∷ rs) o' c' d = elim (Bool-cases (has_scope_key o c r)) [
    | inl e ↦ rw (e, has_scope_key-IsOther o c o' c' r d e) (find-clear_other rs o' c' d)
    | inr e ↦ rw (e, find-clear_other rs o' c' d)
  ]
