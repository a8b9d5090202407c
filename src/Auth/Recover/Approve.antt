-- ===== src/Auth/Recover/Approve.antt =====
-- backend/src/recovery/recovery.service.ts: `approve`, which executes a recovery, and the notification.
use proactive.Base.{
  ℕ, ◌+◌, ◌*◌, Bool, true, false, Option, none, some, [], ◌∷◌, Text, String, Result, ok, map_ok,
  forbidden, not_found, service_unavailable, ◌==◌, ◌&&◌, ◌||◌, not, is_null, leb, keep, find_first,
  update_where, found, if◌then◌else◌,
}
use proactive.Store.{Value}
use proactive.Policies.{get_effective_policy}
use proactive.Action.{◌>>=◌, ◌>>◌, give, gets, reads, modify, writes, throw_if}
use proactive.Auth.Records.{
  Account, AuthState, AuditEntry, MfaChallenge, MfaBackupCode, Impersonation, RecoveryCase,
  RecoveryStatus, NotificationStatus, RevocationReason,
}
use proactive.Auth.Runtime.{Runtime, Moment}
use proactive.Auth.Limits.{recovery_rate_limit}
use proactive.Auth.Parts.{AuthAction, log, account_of, set_account, use_challenge}
use proactive.Auth.Impersonate.{end_impersonation}
use proactive.Auth.Tokens.{revoke_all, use_tokens, new_token, store_reset_token}
use proactive.Auth.Recover.{
  recovery_reason, recovery_actor, needs_password_reset, type_name, case_entry, set_case,
  first_notification, limit_key, is_open_case,
}

module _ (rt : Runtime) (m : Moment) where
  unfoldable pub recovered_account : Account → Account
  recovered_account a = record a {
    mfa_enabled = false;
    mfa_secret = none;
    mfa_temp_secret = none;
    failed_login_attempts = 0;
    locked_until = none;
  }

  unfoldable pub executed_case : ℕ → Text → RecoveryCase → RecoveryCase
  executed_case actor reason c = record c {
    status = RecoveryStatus.executed;
    reviewed_by_user_id = some actor;
    reviewed_at = some m.now;
    executed_at = some m.now;
    review_reason = some reason;
    notification_status = first_notification rt m;
  }

  abbrev pub involves : ℕ → Impersonation → Bool
  involves id i = (i.actor_user_id == id || i.target_user_id == id) && is_null i.ended_at

  -- What the transaction of `approve` takes from the account before it issues a reset.
  unfoldable pub strip_account : ℕ → AuthState → AuthState
  unfolding recovered_account revoke_all
  strip_account id s =
      revoke_all m.now id RevocationReason.privileged_recovery
        (record (set_account id recovered_account s) {
          reset_tokens = use_tokens rt m id s.reset_tokens;
          activation_tokens = use_tokens rt m id s.activation_tokens;
          challenges =
              update_where (λ (c : MfaChallenge). c.user_id == id && is_null c.used_at)
                (use_challenge rt m) s.challenges;
          backup_codes = keep (λ (c : MfaBackupCode). not (c.user_id == id)) s.backup_codes;
          impersonations = update_where (involves id) (end_impersonation rt m) s.impersonations;
        })

  unfoldable pub give_reset_token : Bool → ℕ → ℕ → AuthState → Result AuthState
  unfolding store_reset_token
  give_reset_token false id ttl s = ok s
  give_reset_token true id ttl s =
      store_reset_token rt m (new_token rt m id (m.now + ttl * 60_000)) s

  abbrev pub execution_entry : ℕ → Text → RecoveryCase → AuditEntry
  execution_entry actor reason c =
      case_entry (some actor) c.organization_id "privileged_recovery_executed" "user_auth"
        c.target_user_id (some reason) []
        (("recoveryCaseId", Value.id_of c.id)
          ∷ ("sessionsRevoked", Value.flag_of true)
          ∷ ("recoveryArtifactsRevoked", Value.flag_of true)
          ∷ ("mfaReset", Value.flag_of true)
          ∷ ("passwordResetIssued", Value.flag_of (needs_password_reset c.type))
          ∷ [])

  abbrev pub approval_entry : ℕ → Text → RecoveryCase → AuditEntry
  approval_entry actor reason c =
      case_entry (some actor) c.organization_id "recovery_case_approved" "recovery_case" c.id
        (some reason) []
        (("targetUserId", Value.id_of c.target_user_id)
          ∷ ("type", Value.word (type_name c.type))
          ∷ [])

  -- The end of the transaction of `approve`: the case, and its two entries in the log.
  unfoldable pub close_case : ℕ → Text → RecoveryCase → AuthState → AuthState
  unfolding executed_case
  close_case actor reason c s = record (set_case c.id (executed_case actor reason) s) {
    audit_logs = execution_entry actor reason c ∷ approval_entry actor reason c ∷ s.audit_logs;
  }

  -- The transaction of `approve`: all of it is written, or none.
  unfoldable pub execute : ℕ → Text → ℕ → RecoveryCase → AuthState → Result AuthState
  unfolding strip_account give_reset_token close_case
  execute actor reason ttl c s = map_ok (close_case actor reason c) (
      give_reset_token (needs_password_reset c.type) c.target_user_id ttl
        (strip_account c.target_user_id s))

  abbrev pub delivery_status : Bool → NotificationStatus
  delivery_status true = NotificationStatus.delivered
  delivery_status false = NotificationStatus.failed

  abbrev pub delivery_error : Bool → Option String
  delivery_error true = none
  delivery_error false = some "delivery_failed"

  abbrev pub delivery_action : Bool → String
  delivery_action true = "recovery_notification_delivered"
  delivery_action false = "recovery_notification_failed"

  abbrev pub delivery_name : Bool → String
  delivery_name true = "delivered"
  delivery_name false = "failed"

  unfoldable pub deliver_notification : RecoveryCase → AuthAction (Unit {0})
  deliver_notification c =
      modify (
        set_case c.id (λ r. record r {
          notification_status = delivery_status m.delivered;
          notification_error = delivery_error m.delivered;
        }))
      >> log (
          case_entry none c.organization_id (delivery_action m.delivered) "recovery_case" c.id none
            []
            (("targetUserId", Value.id_of c.target_user_id)
              ∷ ("notificationStatus", Value.word (delivery_name m.delivered))
              ∷ []))

  -- The part of `approve` after the checks of its actor.
  unfoldable pub finish_approval : RecoveryCase → Text → ℕ → AuthAction (Option RecoveryCase)
  unfolding execute deliver_notification
  finish_approval c review_reason actor_id = do
    target ←
        reads (λ s. found (account_of c.target_user_id s) (not_found "Recovery target not found"))
    throw_if (needs_password_reset c.type && not rt.has_webhook)
        (service_unavailable "Account recovery requires an independent notification webhook")
    policy ← reads (λ s.
        get_effective_policy rt.default_policy s.policies (some c.organization_id)
          target.campaign_id)
    writes (execute actor_id review_reason policy.settings.password_reset_ttl_minutes c)
    if rt.has_webhook then deliver_notification c else give tt
    gets (λ s. find_first (λ (r : RecoveryCase). r.id == c.id) s.recovery_cases)

  unfoldable pub approve : ℕ → ℕ → Option Text → AuthAction (Option RecoveryCase)
  unfolding recovery_actor recovery_reason recovery_rate_limit finish_approval
  approve actor_user_id case_id reason = do
    (actor, organization) ← reads (recovery_actor actor_user_id)
    review_reason ← reads (λ _. recovery_reason reason "Approval reason")
    c ← reads (λ s.
        found (find_first (is_open_case rt m case_id organization) s.recovery_cases)
          (not_found "Pending recovery case not found or expired"))
    throw_if (leb c.expires_at m.now) (not_found "Pending recovery case not found or expired")
    writes (recovery_rate_limit rt m.now (limit_key rt m "approve" actor.id c.target_user_id))
    throw_if (c.requested_by_user_id == actor.id)
        (forbidden "A distinct admin must approve this recovery case")
    throw_if (c.target_user_id == actor.id)
        (forbidden "Support actors cannot recover their own account")
    finish_approval c review_reason actor.id
