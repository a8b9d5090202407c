-- ===== src/Auth/Service.antt =====
-- The calls of the auth and recovery services, and of the user service on accounts, as steps of one
-- machine: `step` is the state that a call leaves, whatever its answer.
use proactive.Base.{ℕ, Option, List, [], ◌∷◌, Text}
use proactive.Action.{stores}
use proactive.Auth.Records.{AuthState, RecoveryType}
use proactive.Auth.Runtime.{Runtime, Moment}
use proactive.Auth.Users.{NewUser, UserUpdate, create_canvasser, update_canvasser}
use proactive.Auth.Parts.{AuthAction}
use proactive.Auth.Login.{login}
use proactive.Auth.SecondFactor.{
  initialize_mfa_setup, complete_mfa_setup, verify_mfa_challenge, mfa_status, disable_mfa,
  step_up_mfa,
}
use proactive.Auth.Impersonate.{get_active_impersonation, start_impersonation, stop_impersonation}
use proactive.Auth.Tokens.{
  refresh, logout, request_password_reset, complete_password_reset, create_activation_for_user,
  invite_canvasser, activate_account,
}
use proactive.Auth.Recover.{list_cases, request, reject}
use proactive.Auth.Recover.Approve.{approve}

pub data AuthCall : Type 0 where
  logs_in : Text → Text → AuthCall
  initializes_mfa : Text → AuthCall
  completes_mfa verifies_mfa : Text → Text → AuthCall
  reads_mfa : ℕ → AuthCall
  disables_mfa : ℕ → Text → Text → AuthCall
  steps_up : ℕ → Option ℕ → Text → AuthCall
  reads_impersonation : ℕ → AuthCall
  starts_impersonation : ℕ → ℕ → Option Text → AuthCall
  stops_impersonation : ℕ → ℕ → AuthCall
  refreshes logs_out : Text → AuthCall
  requests_reset : Text → AuthCall
  completes_reset : Text → Text → AuthCall
  issues_activation : ℕ → AuthCall
  invites : ℕ → NewUser → AuthCall
  activates : Text → Text → AuthCall
  creates : NewUser → Text → AuthCall
  updates : ℕ → UserUpdate → AuthCall
  lists_cases : ℕ → AuthCall
  requests_recovery : ℕ → ℕ → RecoveryType → Option Text → AuthCall
  rejects approves : ℕ → ℕ → Option Text → AuthCall

abbrev pub left {ℓ} : {A : Type ℓ} → AuthAction A → AuthState → AuthState
left action s = (action s).0

module _ (rt : Runtime) where
  unfoldable pub auth_step : Moment → AuthCall → AuthState → AuthState
  unfolding login initialize_mfa_setup complete_mfa_setup verify_mfa_challenge mfa_status
      disable_mfa step_up_mfa get_active_impersonation start_impersonation stop_impersonation
      refresh logout request_password_reset complete_password_reset create_activation_for_user
      invite_canvasser activate_account create_canvasser update_canvasser list_cases request reject
      approve
  auth_step m (logs_in email password) = left (login rt m email password)
  auth_step m (initializes_mfa token) = left (initialize_mfa_setup rt m token)
  auth_step m (completes_mfa token code) = left (complete_mfa_setup rt m token code)
  auth_step m (verifies_mfa token code) = left (verify_mfa_challenge rt m token code)
  auth_step m (reads_mfa id) = left (mfa_status rt m id)
  auth_step m (disables_mfa id password code) = left (disable_mfa rt m id password code)
  auth_step m (steps_up id impersonator code) = left (step_up_mfa rt m id impersonator code)
  auth_step m (reads_impersonation id) = left (get_active_impersonation id)
  auth_step m (starts_impersonation actor target reason) =
      left (start_impersonation rt m actor target reason)
  auth_step m (stops_impersonation actor session) = left (stop_impersonation rt m actor session)
  auth_step m (refreshes token) = left (refresh rt m token)
  auth_step m (logs_out token) = left (logout rt m token)
  auth_step m (requests_reset email) = left (request_password_reset rt m email)
  auth_step m (completes_reset token password) = left (complete_password_reset rt m token password)
  auth_step m (issues_activation id) = left (create_activation_for_user rt m id)
  auth_step m (invites actor input) = left (invite_canvasser rt m actor input)
  auth_step m (activates token password) = left (activate_account rt m token password)
  auth_step m (creates input password) = left (stores (create_canvasser rt m input password))
  auth_step m (updates id input) = left (stores (update_canvasser rt m id input))
  auth_step m (lists_cases actor) = left (list_cases rt m actor)
  auth_step m (requests_recovery actor target type reason) =
      left (request rt m actor target type reason)
  auth_step m (rejects actor id reason) = left (reject rt m actor id reason)
  auth_step m (approves actor id reason) = left (approve rt m actor id reason)

  unfoldable pub auth_run : List (Moment × AuthCall) → AuthState → AuthState
  unfolding auth_step
  auth_run [] s = s
  auth_run ((m, call) ∷ calls) s = auth_run calls (auth_step m call s)
