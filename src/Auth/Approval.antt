-- ===== src/Auth/Approval.antt =====
-- Recovery takes two admins, and an execution leaves the account with nothing to sign in with.
use proactive.Base.{
  ℕ, ◌≡◌, true, false, ◌&&◌, ◌==◌, Option, some, Text, is_null, leb, any, In, All, Result,
}
use proactive.Action.Ends.{Ends}
use proactive.Action.Keeps.{Keeps}
use proactive.Auth.Records.{Account, AuthState, MfaChallenge, MfaBackupCode, RecoveryCase}
use proactive.Auth.Runtime.{Runtime, Moment}
use proactive.Auth.Parts.{is_unused}
use proactive.Auth.Login.{is_usable}
use proactive.Auth.Impersonate.{is_admin}
use proactive.Auth.Tokens.{is_unrevoked}
use proactive.Auth.Recover.{is_pending}
use proactive.Auth.Recover.Approve.{involves}

-- Who may approve which case: a usable admin of its organization, who has neither asked for it nor
-- is recovered by it; the case is pending and has not expired.
abbrev pub IsApprovable : Moment → ℕ → ℕ → AuthState → RecoveryCase → Type 0
IsApprovable m actor_user_id case_id s c =
    (actor : Account) × In actor s.accounts
    × In c s.recovery_cases
    × (actor.id ≡ actor_user_id)
    × (c.id ≡ case_id)
    × (is_admin actor.role ≡ true)
    × (is_usable actor ≡ true)
    × (is_null actor.deleted_at ≡ true)
    × (actor.organization_id ≡ some c.organization_id)
    × (is_pending c.status ≡ true)
    × (leb c.expires_at m.now ≡ false)
    × ((c.requested_by_user_id == actor.id) ≡ false)
    × ((c.target_user_id == actor.id) ≡ false)

-- Nothing is left of an account to sign in with: its refresh tokens are revoked, its activations and
-- challenges used, its backup codes gone, and the impersonations that it has part in ended.
abbrev pub IsStripped : Runtime → Moment → ℕ → AuthState → Type 0
IsStripped rt m id s =
    All (λ t. is_unrevoked id t ≡ false) s.refresh_tokens
    × All (λ t. is_unused id t ≡ false) s.activation_tokens
    × All (λ (c : MfaChallenge). (c.user_id == id && is_null c.used_at) ≡ false) s.challenges
    × (any (λ (c : MfaBackupCode). c.user_id == id) s.backup_codes ≡ false)
    × All (λ i. involves rt m id i ≡ false) s.impersonations

module _ (rt : Runtime) (m : Moment) (actor_user_id case_id : ℕ) (reason : Option Text)
    (s : AuthState) where
  abbrev pub Approved : AuthState × Result (Option RecoveryCase) → Type 0
  Approved =
      Ends
        (λ _ s'.
          (c : RecoveryCase) × IsApprovable m actor_user_id case_id s c
          × IsStripped rt m c.target_user_id s')
        (λ _. Unit {0})
