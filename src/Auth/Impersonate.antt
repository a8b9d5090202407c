-- ===== src/Auth/Impersonate.antt =====
-- backend/src/auth/auth.service.ts: the sessions in which an admin acts for another account.
use proactive.Base.{
  ℕ, Bool, true, false, Option, none, some, List, [], ◌∷◌, ◌++◌, Text, text, trim, String,
  forbidden, bad_request, not_found, ◌==◌, ◌&&◌, is_null, same_id, non_empty, trimmed_option,
  update_where, find_first, find_latest, found,
}
use proactive.Store.{UserRole, Value}
use proactive.Action.{◌>>=◌, ◌>>◌, give, gets, reads, modify, throw_if, throw_unless}
use proactive.Auth.Records.{Account, AuditEntry, AuditSubject, Impersonation}
use proactive.Auth.Runtime.{Runtime, Moment, Impersonator}
use proactive.Auth.Users.{find_by_id, sanitize}
use proactive.Auth.Parts.{AuthAction, log, account_of, build_jwt_payload}

abbrev pub is_admin : UserRole → Bool
is_admin UserRole.admin = true
is_admin UserRole.supervisor = false
is_admin UserRole.canvasser = false

-- An impersonation as it is shown, with the account that is acted for.
pub record ImpersonationView : Type 0 where
  pub id : ℕ
  pub started_at : ℕ
  pub ended_at : Option ℕ
  pub reason_text : Option Text
  pub target_user : Account

pub record ImpersonationStart : Type 0 where
  pub access_token : Text
  pub role : UserRole
  pub user : Account
  pub impersonation : Impersonator

abbrev pub is_open_of : ℕ → Impersonation → Bool
is_open_of actor i = i.actor_user_id == actor && is_null i.ended_at

abbrev pub is_open_at : ℕ → ℕ → Impersonation → Bool
is_open_at id actor i = i.id == id && is_open_of actor i

abbrev pub impersonation_entry :
    ℕ → String → ℕ → Option Text → List (String × Value) → List (String × Value) → AuditEntry
impersonation_entry actor action session reason old_values new_values = record {
  actor_user_id = some actor;
  organization_id = none;
  action_type = action;
  entity_type = "impersonation_session";
  entity_id = AuditSubject.row session;
  reason_code = none;
  reason_text = reason;
  old_values = old_values;
  new_values = new_values;
}

abbrev pub role_name : UserRole → String
role_name UserRole.admin = "admin"
role_name UserRole.supervisor = "supervisor"
role_name UserRole.canvasser = "canvasser"

unfoldable pub shown_impersonation : Impersonation → Account → ImpersonationView
unfolding sanitize
shown_impersonation i target = record {
  id = i.id;
  started_at = i.started_at;
  ended_at = i.ended_at;
  reason_text = i.reason_text;
  target_user = sanitize none target;
}

-- The latest open session of the actor, if there is one.
unfoldable pub shown_option : Option Impersonation → AuthAction (Option ImpersonationView)
unfolding shown_impersonation
shown_option none = give none
shown_option (some i) = do
  target ← reads (λ s. found (account_of i.target_user_id s) (not_found "User not found"))
  give (some (shown_impersonation i target))

unfoldable pub get_active_impersonation : ℕ → AuthAction (Option ImpersonationView)
unfolding shown_option
get_active_impersonation actor = do
  session ←
      gets
        (λ s. find_latest (λ (i : Impersonation). i.started_at) (is_open_of actor) s.impersonations)
  shown_option session

module _ (rt : Runtime) (m : Moment) where
  abbrev pub end_impersonation : Impersonation → Impersonation
  end_impersonation i = record i { ended_at = some m.now }

  unfoldable pub new_impersonation : ℕ → Account → ℕ → Option Text → Impersonation
  new_impersonation actor_user_id actor target_user_id reason_text = record {
    id = m.new_id;
    actor_user_id = actor_user_id;
    target_user_id = target_user_id;
    organization_id = actor.organization_id;
    campaign_id = none;
    reason_text = non_empty (trimmed_option reason_text);
    started_at = m.now;
    ended_at = none;
  }

  unfoldable pub impersonator_claims : Account → Impersonation → Impersonator
  impersonator_claims actor session = record {
    session_id = session.id;
    user_id = actor.id;
    email = actor.email;
    role = actor.role;
    name = trim (actor.first_name ++ text " " ++ actor.last_name);
    started_at = session.started_at;
    reason_text = session.reason_text;
  }

  -- The actor's open sessions end before the new one stands.
  unfoldable pub replace_impersonation : Impersonation → AuthAction (Unit {0})
  replace_impersonation session =
      modify (λ s. record s {
        impersonations =
            update_where (is_open_of session.actor_user_id) end_impersonation s.impersonations;
      })
      >> modify (λ s. record s { impersonations = session ∷ s.impersonations })

  unfoldable pub start_impersonation : ℕ → ℕ → Option Text → AuthAction ImpersonationStart
  unfolding find_by_id new_impersonation impersonator_claims replace_impersonation build_jwt_payload
      sanitize
  start_impersonation actor_user_id target_user_id reason_text = do
    actor ← reads (find_by_id actor_user_id)
    throw_unless (is_admin actor.role) (forbidden "Only admins can start impersonation sessions")
    target ← reads (find_by_id target_user_id)
    throw_if (is_admin target.role) (bad_request "Admins cannot impersonate other admin accounts")
    throw_unless (same_id target.organization_id actor.organization_id) (not_found "User not found")
    let session = new_impersonation actor_user_id actor target_user_id reason_text in
        let claims = impersonator_claims actor session in
        replace_impersonation session
        >> log (
            impersonation_entry actor_user_id "impersonation_started" session.id
              (non_empty (trimmed_option reason_text)) []
              (("targetUserId", Value.id_of target_user_id)
                ∷ ("targetRole", Value.word (role_name target.role))
                ∷ []))
        >> give (record {
          access_token =
              rt.sign (record (build_jwt_payload rt target none) { impersonator = some claims });
          role = target.role;
          user = sanitize none target;
          impersonation = claims;
        })

  unfoldable pub end_session_at : ℕ → AuthAction (Unit {0})
  end_session_at id = modify (λ s. record s {
    impersonations =
        update_where (λ (i : Impersonation). i.id == id) end_impersonation s.impersonations;
  })

  unfoldable pub stop_impersonation : ℕ → ℕ → AuthAction ImpersonationView
  unfolding shown_impersonation end_session_at
  stop_impersonation actor_user_id session_id = do
    session ← reads (λ s.
        found (find_first (is_open_at session_id actor_user_id) s.impersonations)
          (not_found "Impersonation session not found"))
    target ← reads (λ s.
        found (account_of session.target_user_id s) (not_found "Impersonation session not found"))
    end_session_at session_id
    log (
        impersonation_entry actor_user_id "impersonation_stopped" session_id none
          (("targetUserId", Value.id_of session.target_user_id) ∷ []) [])
    give (shown_impersonation (end_impersonation session) target)
