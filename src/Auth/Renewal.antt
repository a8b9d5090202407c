-- ===== src/Auth/Renewal.antt =====
-- `refresh` of backend/src/auth/auth.service.ts does what it is for.
use proactive.Base.{
  ℕ, ◌<◌, ◌≡◌, ◌==◌, refl, ◌∙◌, Bool, true, false, Bool-cases, inl, inr, none, some, List, [], ◌∷◌,
  Text, arith, text_eq_self, leb, any, update_where, find_first, ok,
}
use proactive.Policies.{EffectivePolicy, get_effective_policy}
use proactive.Action.Ends.{Ends}
use proactive.Action.{◌>>=◌, ◌>>◌, and_then, reads, give, modify, writes, settled}
use proactive.Auth.Records.{Account, AuthState, RefreshToken, RevocationReason}
use proactive.Auth.Runtime.{Runtime, Moment, days_from_now}
use proactive.Auth.Login.{is_usable}
use proactive.Auth.Parts.{
  Session, account_of, has_hash, refresh_hash_of, get_auth_policy, issue_session,
  insert_refresh_token, insert_unique,
}
use proactive.Auth.Tokens.{has_token, rotate, refresh, revoke, revoke_one}

-- To revoke rows leaves the hashes of the table.
any-revoke :
    (h : Text) (p : RefreshToken → Bool) (now : ℕ) (reason : RevocationReason)
    (xs : List RefreshToken)
    → any (has_hash refresh_hash_of h) (update_where p (revoke now reason) xs)
      ≡ any (has_hash refresh_hash_of h) xs
unfolding revoke
any-revoke h p now reason [] = refl
any-revoke h p now reason (x ∷ xs) = elim (Bool-cases (p x)) [
  | inl e ↦ rw (e, any-revoke h p now reason xs) refl
  | inr e ↦ rw (e, any-revoke h p now reason xs) refl
]

-- A session with the token that was drawn, which stands in the table for the account, is not revoked
-- and expires when the policy says.
abbrev pub IsRenewed : Runtime → Moment → Account → EffectivePolicy → Session → AuthState → Type 0
IsRenewed rt m a policy session s =
    (session.refresh_token ≡ m.token)
    × ((row : RefreshToken) × (find_first (has_token rt m m.token) s.refresh_tokens ≡ some row)
        × (row.user_id ≡ a.id)
        × (row.revoked_at ≡ none)
        × (row.expires_at ≡ days_from_now m policy.settings.refresh_token_ttl_days))

-- A refresh token that is stored, not revoked and not expired, of an account that is active, is
-- exchanged for a session, where the account's policy can be read and the token drawn is new; and the
-- session's token is stored for the account, not revoked, for the days of the policy.
pub refresh-IsRenewed :
    (rt : Runtime) (m : Moment) (token : Text) (s : AuthState) (t : RefreshToken) (a : Account)
    (policy : EffectivePolicy)
    → find_first (has_token rt m token) s.refresh_tokens ≡ some t
    → account_of t.user_id s ≡ some a
    → t.revoked_at ≡ none
    → m.now < t.expires_at
    → is_usable a ≡ true
    → get_effective_policy rt.default_policy s.policies a.organization_id a.campaign_id ≡ ok policy
    → any (has_hash refresh_hash_of (rt.hash_token m.token)) s.refresh_tokens ≡ false
    → Ends (IsRenewed rt m a policy) (λ _. ⊥) (refresh rt m token s)
unfolding refresh rotate revoke_one issue_session get_auth_policy insert_refresh_token insert_unique
    ◌>>=◌ ◌>>◌ and_then reads give modify writes settled
refresh-IsRenewed rt m token s t a policy e f r x u q d =
    let late : leb t.expires_at m.now ≡ false = ground (arith, x) in
    let new =
      any-revoke (rt.hash_token m.token) (λ (y : RefreshToken). y.id == t.id) m.now
        RevocationReason.rotated s.refresh_tokens
      ∙ d in
    rw (e, f, r, late, u, q, new, text_eq_self (rt.hash_token m.token))
      (refl, (_, refl, refl, refl, refl))
