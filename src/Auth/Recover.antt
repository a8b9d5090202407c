-- ===== src/Auth/Recover.antt =====
-- backend/src/recovery/recovery.service.ts: an admin asks for the recovery of an account, and a
-- second one approves or rejects it.
use Prim.Native.String
use proactive.Base.{
  ℕ, zero, suc, ◌+◌, ◌*◌, Bool, true, false, Option, none, some, List, [], ◌∷◌, ◌++◌, Text, text,
  trim, or_value, String, Result, ok, err, map_ok, bad_request, forbidden, not_found, conflicting,
  service_unavailable, ◌==◌, ◌&&◌, ◌||◌, not, is_null, same_id, leb, ltb, keep, find_first,
  update_where, found, if◌then◌else◌,
}
use proactive.Store.{Value}
use proactive.Policies.{get_effective_policy}
use proactive.Action.{◌>>=◌, ◌>>◌, give, gets, reads, modify, writes, throw_if, throw_unless}
use proactive.Auth.Records.{
  Account, AuthState, AuditEntry, AuditSubject, MfaChallenge, MfaBackupCode, Impersonation,
  RecoveryCase, RecoveryType, RecoveryStatus, NotificationStatus, RevocationReason,
}
use proactive.Auth.Runtime.{Runtime, Moment, minutes_from_now}
use proactive.Auth.Limits.{recovery_rate_limit}
use proactive.Auth.Parts.{AuthAction, log, account_of, set_account, use_challenge}
use proactive.Auth.Login.{is_usable}
use proactive.Auth.Impersonate.{is_admin, end_impersonation}
use proactive.Auth.Tokens.{revoke_all, use_tokens, new_token, store_reset_token}
pub mod Approve

abbrev pub text_length : Text → ℕ
text_length [] = 0
text_length (c ∷ s) = suc (text_length s)

unfoldable pub recovery_reason : Option Text → String → Result Text
recovery_reason value label =
    if ltb (text_length normalized) 10 || ltb 1000 (text_length normalized)
    then err (bad_request (String.◌++◌ label " must be between 10 and 1000 characters"))
    else ok normalized
  where
    normalized : Text
    normalized = trim (or_value value [])

abbrev pub is_recovery_admin : ℕ → Account → Bool
is_recovery_admin id a = a.id == id && is_admin a.role && is_usable a && is_null a.deleted_at

-- The actor, with the organization that it must have.
abbrev pub with_organization : Option Account → Result (Account × ℕ)
with_organization none = err (forbidden "Recovery requires an active organization admin")
with_organization (some a) = elim a.organization_id [
  | none ↦ err (forbidden "Recovery requires an active organization admin")
  | some o ↦ ok (a, o)
]

unfoldable pub recovery_actor : ℕ → AuthState → Result (Account × ℕ)
recovery_actor id s = with_organization (find_first (is_recovery_admin id) s.accounts)

abbrev pub is_pending : RecoveryStatus → Bool
is_pending RecoveryStatus.pending = true
is_pending RecoveryStatus.executed = false
is_pending RecoveryStatus.rejected = false
is_pending RecoveryStatus.expired = false

abbrev pub is_break_glass : RecoveryType → Bool
is_break_glass RecoveryType.break_glass_account_recovery = true
is_break_glass RecoveryType.help_desk_mfa_reset = false
is_break_glass RecoveryType.help_desk_account_recovery = false

-- `recovery.type !== RecoveryCaseType.help_desk_mfa_reset`
abbrev pub needs_password_reset : RecoveryType → Bool
needs_password_reset RecoveryType.help_desk_mfa_reset = false
needs_password_reset RecoveryType.help_desk_account_recovery = true
needs_password_reset RecoveryType.break_glass_account_recovery = true

abbrev pub type_name : RecoveryType → String
type_name RecoveryType.help_desk_mfa_reset = "help_desk_mfa_reset"
type_name RecoveryType.help_desk_account_recovery = "help_desk_account_recovery"
type_name RecoveryType.break_glass_account_recovery = "break_glass_account_recovery"

abbrev pub case_entry :
    Option ℕ
    → ℕ
    → String
    → String
    → ℕ
    → Option Text
    → List (String × Value)
    → List (String × Value)
    → AuditEntry
case_entry actor organization action entity id reason old_values new_values = record {
  actor_user_id = actor;
  organization_id = some organization;
  action_type = action;
  entity_type = entity;
  entity_id = AuditSubject.row id;
  reason_code = none;
  reason_text = reason;
  old_values = old_values;
  new_values = new_values;
}

abbrev pub set_case : ℕ → (RecoveryCase → RecoveryCase) → AuthState → AuthState
set_case id change s = record s {
  recovery_cases = update_where (λ (c : RecoveryCase). c.id == id) change s.recovery_cases;
}

abbrev pub is_stale : ℕ → ℕ → RecoveryCase → Bool
is_stale now organization c =
    c.organization_id == organization && is_pending c.status && leb c.expires_at now

abbrev pub expire_case : RecoveryCase → RecoveryCase
expire_case c = record c { status = RecoveryStatus.expired }

-- The loop over the stale cases.
unfoldable pub expire_each : ℕ → List RecoveryCase → AuthAction (Unit {0})
expire_each organization [] = give tt
expire_each organization (c ∷ cs) =
    modify (set_case c.id expire_case)
    >> log (
        case_entry none organization "recovery_case_expired" "recovery_case" c.id none []
          (("targetUserId", Value.id_of c.target_user_id) ∷ ("status", Value.word "expired") ∷ []))
    >> expire_each organization cs

-- `orderBy: { createdAt: 'desc' }` and `take`.
unfoldable pub insert_latest : RecoveryCase → List RecoveryCase → List RecoveryCase
insert_latest c [] = c ∷ []
insert_latest c (d ∷ ds) =
    let rest = insert_latest c ds in if leb d.created_at c.created_at then c ∷ d ∷ ds else d ∷ rest

unfoldable pub latest_first : List RecoveryCase → List RecoveryCase
unfolding insert_latest
latest_first [] = []
latest_first (c ∷ cs) = insert_latest c (latest_first cs)

abbrev pub take_first : ℕ → List RecoveryCase → List RecoveryCase
take_first zero cs = []
take_first (suc n) [] = []
take_first (suc n) (c ∷ cs) = c ∷ take_first n cs

module _ (rt : Runtime) (m : Moment) where
  unfoldable pub expire_stale : ℕ → AuthAction (Unit {0})
  unfolding expire_each
  expire_stale organization =
      gets (λ s. keep (is_stale m.now organization) s.recovery_cases) >>= expire_each organization

  unfoldable pub list_cases : ℕ → AuthAction (List RecoveryCase)
  unfolding recovery_actor expire_stale latest_first
  list_cases actor_user_id = do
    (actor, organization) ← reads (recovery_actor actor_user_id)
    expire_stale organization
    gets (λ s. take_first 100 (
        latest_first
          (keep (λ (c : RecoveryCase). c.organization_id == organization) s.recovery_cases)))

  abbrev pub first_notification : NotificationStatus
  first_notification =
      if rt.has_webhook then NotificationStatus.pending else NotificationStatus.not_configured

  -- An admin's account is recovered by breaking the glass, where the environment allows it.
  unfoldable pub check_path : RecoveryType → Account → AuthAction (Unit {0})
  check_path type target =
      if is_break_glass type
      then throw_unless rt.break_glass_enabled (forbidden "Break-glass recovery is disabled")
      else throw_if (is_admin target.role)
          (forbidden "Admin accounts require the break-glass recovery path")

  abbrev pub is_target : ℕ → ℕ → Account → Bool
  is_target id organization a =
      a.id == id && same_id a.organization_id (some organization) && is_null a.deleted_at

  abbrev pub is_pending_for : ℕ → RecoveryCase → Bool
  is_pending_for target c =
      c.target_user_id == target && is_pending c.status && ltb m.now c.expires_at

  unfoldable pub new_case : ℕ → ℕ → ℕ → RecoveryType → Text → RecoveryCase
  new_case organization target actor type reason = record {
    id = m.new_id;
    organization_id = organization;
    target_user_id = target;
    requested_by_user_id = actor;
    reviewed_by_user_id = none;
    type = type;
    status = RecoveryStatus.pending;
    reason_text = reason;
    review_reason = none;
    notification_status = first_notification;
    notification_error = none;
    expires_at = minutes_from_now m rt.recovery_case_ttl_minutes;
    created_at = m.now;
    reviewed_at = none;
    executed_at = none;
  }

  abbrev pub limit_key : String → ℕ → ℕ → Text
  limit_key action actor target = text action ++ (58 ∷ rt.id_text actor) ++ (58 ∷ rt.id_text target)

  unfoldable pub create_case : RecoveryCase → AuthAction (Unit {0})
  create_case c = modify (λ s. record s { recovery_cases = c ∷ s.recovery_cases })

  unfoldable pub request : ℕ → ℕ → RecoveryType → Option Text → AuthAction RecoveryCase
  unfolding recovery_actor recovery_rate_limit check_path recovery_reason new_case create_case
  request actor_user_id target_user_id type reason = do
    (actor, organization) ← reads (recovery_actor actor_user_id)
    writes (recovery_rate_limit rt m.now (limit_key "request" actor.id target_user_id))
    throw_if (actor.id == target_user_id)
        (forbidden "Support actors cannot recover their own account")
    target ← reads (λ s.
        found (find_first (is_target target_user_id organization) s.accounts)
          (not_found "Recovery target not found in your organization"))
    check_path type target
    reason_text ← reads (λ _. recovery_reason reason "Recovery reason")
    existing ← gets (λ s. find_first (is_pending_for target.id) s.recovery_cases)
    throw_unless (is_null existing)
        (conflicting "A pending recovery case already exists for this account")
    let c = new_case organization target.id actor.id type reason_text in
        create_case c
        >> log (
            case_entry (some actor.id) organization "recovery_case_requested" "recovery_case" c.id
              (some reason_text) []
              (("targetUserId", Value.id_of target.id)
                ∷ ("type", Value.word (type_name type))
                ∷ ("expiresAt", Value.time_of c.expires_at)
                ∷ []))
        >> give c

  abbrev pub is_open_case : ℕ → ℕ → RecoveryCase → Bool
  is_open_case id organization c =
      c.id == id && c.organization_id == organization && is_pending c.status

  unfoldable pub rejected_case : ℕ → Text → RecoveryCase → RecoveryCase
  rejected_case actor reason c = record c {
    status = RecoveryStatus.rejected;
    reviewed_by_user_id = some actor;
    reviewed_at = some m.now;
    review_reason = some reason;
  }

  unfoldable pub reject : ℕ → ℕ → Option Text → AuthAction RecoveryCase
  unfolding recovery_actor recovery_reason rejected_case
  reject actor_user_id case_id reason = do
    (actor, organization) ← reads (recovery_actor actor_user_id)
    review_reason ← reads (λ _. recovery_reason reason "Review reason")
    existing ← reads (λ s.
        found (find_first (is_open_case case_id organization) s.recovery_cases)
          (not_found "Pending recovery case not found"))
    modify (set_case existing.id (rejected_case actor.id review_reason))
    log (
        case_entry (some actor.id) organization "recovery_case_rejected" "recovery_case" existing.id
          (some review_reason) (("status", Value.word "pending") ∷ [])
          (("status", Value.word "rejected") ∷ []))
    give (rejected_case actor.id review_reason existing)
