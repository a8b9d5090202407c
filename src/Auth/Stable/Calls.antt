-- ===== src/Auth/Stable/Calls.antt =====
-- Every call hands on a property that bears the writes of the services.
use proactive.Base.{ℕ, Bool, true, false, is_null, if◌then◌else◌, Option, none, some, Text, String}
use proactive.Action.Keeps.{
  Keeps, bind-Keeps, then-Keeps, give-Keeps, reads-Keeps, modify-Keeps, stores-Keeps, if-Keeps,
}
use proactive.Action.{modify, stores}
use proactive.Auth.Records.{
  Account, AuthState, MfaChallengePurpose, RefreshToken, OneTimeToken, Impersonation,
  RevocationReason,
}
use proactive.Auth.Runtime.{Runtime, Moment}
use proactive.Auth.Parts.{set_account}
use proactive.Auth.Users.{
  NewUser, UserUpdate, with_accounts, create_canvasser, create_invited_canvasser, update_canvasser,
}
use proactive.Auth.Login.{
  refuse_password, accept_password, check_password, refuse_login, check_account, validate_user,
  ask_second_factor, sign_in, login, needs_reset, cleared_account,
}
use proactive.Auth.SecondFactor.{
  read_challenge, check_code, initialize_mfa_setup, complete_mfa_setup, verify_mfa_challenge,
  mfa_status, without_mfa, disable_mfa, step_up_mfa,
}
use proactive.Auth.Impersonate.{
  shown_option, get_active_impersonation, start_impersonation, stop_impersonation, end_session_at,
}
use proactive.Auth.Tokens.{
  revoke_all, revoke_one, rotate, detect_reuse, refresh, log_out_of, logout, reset_for,
  reset_if_known, request_password_reset, apply_reset, complete_password_reset,
  create_activation_for_user, invite_canvasser, apply_activation, activate_account,
}
use proactive.Auth.Service.{
  AuthCall, logs_in, initializes_mfa, completes_mfa, verifies_mfa, reads_mfa, disables_mfa,
  steps_up, reads_impersonation, starts_impersonation, stops_impersonation, refreshes, logs_out,
  requests_reset, completes_reset, issues_activation, invites, activates, creates, updates,
  lists_cases, requests_recovery, rejects, approves, auth_step,
}
use proactive.Auth.Stable.{Stable}
use proactive.Auth.Stable.Writes.{account-Keeps, clear-Keeps}
use proactive.Auth.Stable.Recoveries.{
  chains, parts, list_cases-Keeps, request-Keeps, reject-Keeps, approve-Keeps,
}

module _ {ℓ} (rt : Runtime) (m : Moment) (P : AuthState → Type ℓ) (st : Stable rt m P) where
  refuse_password-Keeps : (a : Account) → Keeps P (refuse_password rt m a)
  unfolding refuse_password
  refuse_password-Keeps a = search (chains, parts) depth 12

  refuse_login-Keeps : (email : Text) → Keeps P (refuse_login rt m email)
  unfolding refuse_login
  refuse_login-Keeps email = search (chains, parts) depth 12

  accept_password-Keeps : (email : Text) (a : Account) → Keeps P (accept_password rt m email a)
  unfolding accept_password
  accept_password-Keeps email a =
      then-Keeps P _ _ (reset (needs_reset rt m a))
        (then-Keeps P _ _ (clear-Keeps rt m P st "login" email) (reads-Keeps P _))
    where
      reset :
          (b : Bool)
          → Keeps P (
              modify
                (λ s. if b then set_account a.id (cleared_account rt m a.activated_at) s else s))
      reset true = account-Keeps rt m P st a.id _
      reset false = modify-Keeps P _ (λ s p. p)

  check_password-Keeps :
      (email : Text) (password : Text) (a : Account)
      → Keeps P (check_password rt m email password a)
  unfolding check_password
  check_password-Keeps email password a =
      search (chains, parts, accept_password-Keeps, refuse_password-Keeps) depth 24 fits 3000

  check_account-Keeps :
      (email password : Text) (o : Option Account) → Keeps P (check_account rt m email password o)
  unfolding check_account
  check_account-Keeps email password none = refuse_login-Keeps email
  check_account-Keeps email password (some a) =
      if-Keeps P _ _ _ (check_password-Keeps email password a) (refuse_login-Keeps email)

  validate_user-Keeps :
      (email : Text) (password : Text) → Keeps P (validate_user rt m email password)
  unfolding validate_user
  validate_user-Keeps email password =
      search (chains, parts, check_account-Keeps) depth 24 fits 3000

  ask_second_factor-Keeps :
      (a : Account) (reason : Option Text) → Keeps P (ask_second_factor rt m a reason)
  unfolding ask_second_factor
  ask_second_factor-Keeps a reason = search (chains, parts) depth 24 fits 3000

  sign_in-Keeps : (a : Account) → Keeps P (sign_in rt m a)
  unfolding sign_in
  sign_in-Keeps a = search (chains, parts) depth 24 fits 3000

  login-Keeps : (email : Text) (password : Text) → Keeps P (login rt m email password)
  unfolding login
  login-Keeps email password =
      search (chains, parts, validate_user-Keeps, ask_second_factor-Keeps, sign_in-Keeps) depth 24
        fits 3000

  read_challenge-Keeps :
      (token : Text) (purpose : MfaChallengePurpose) (message : String)
      → Keeps P (read_challenge rt m token purpose message)
  unfolding read_challenge
  read_challenge-Keeps token purpose message = search (chains, parts) depth 24 fits 3000

  check_code-Keeps :
      (id : ℕ) (secret : Text) (code : Text) → Keeps P (check_code rt m id secret code)
  unfolding check_code
  check_code-Keeps id secret code = search (chains, parts) depth 24 fits 3000

  initialize_mfa_setup-Keeps : (token : Text) → Keeps P (initialize_mfa_setup rt m token)
  unfolding initialize_mfa_setup
  initialize_mfa_setup-Keeps token =
      bind-Keeps P _ _ (read_challenge-Keeps token _ _) (λ (c, a).
        then-Keeps P _ _ (stored (is_null a.mfa_temp_secret) c.user_id _) (give-Keeps P _))
    where
      stored :
          (b : Bool) (id : ℕ) (f : Account → Account)
          → Keeps P (modify (λ s. if b then set_account id f s else s))
      stored true id f = account-Keeps rt m P st id f
      stored false id f = modify-Keeps P _ (λ s p. p)

  complete_mfa_setup-Keeps :
      (token : Text) (code : Text) → Keeps P (complete_mfa_setup rt m token code)
  unfolding complete_mfa_setup
  complete_mfa_setup-Keeps token code =
      search (chains, parts, read_challenge-Keeps) depth 24 fits 3000

  verify_mfa_challenge-Keeps :
      (token : Text) (code : Text) → Keeps P (verify_mfa_challenge rt m token code)
  unfolding verify_mfa_challenge
  verify_mfa_challenge-Keeps token code =
      search (chains, parts, read_challenge-Keeps, check_code-Keeps) depth 24 fits 3000

  mfa_status-Keeps : (id : ℕ) → Keeps P (mfa_status rt m id)
  unfolding mfa_status
  mfa_status-Keeps id = search (chains, parts) depth 24 fits 3000

  without_mfa-Keeps : (id : ℕ) → Keeps P (modify (without_mfa rt m id))
  unfolding without_mfa
  without_mfa-Keeps id =
      modify-Keeps P _ (λ s p. st.codes _ _ (st.challenge_used _ _ (st.accounts s _ p)))

  disable_mfa-Keeps :
      (id : ℕ) (password : Text) (code : Text) → Keeps P (disable_mfa rt m id password code)
  unfolding disable_mfa
  disable_mfa-Keeps id password code =
      search (chains, parts, check_code-Keeps, without_mfa-Keeps) depth 24 fits 3000

  step_up_mfa-Keeps :
      (id : ℕ) (impersonator : Option ℕ) (code : Text)
      → Keeps P (step_up_mfa rt m id impersonator code)
  unfolding step_up_mfa
  step_up_mfa-Keeps id impersonator code =
      search (chains, parts, check_code-Keeps) depth 24 fits 3000

  shown_option-Keeps : (o : Option Impersonation) → Keeps P (shown_option o)
  unfolding shown_option
  shown_option-Keeps none = give-Keeps P _
  shown_option-Keeps (some i) = search chains

  get_active_impersonation-Keeps : (actor : ℕ) → Keeps P (get_active_impersonation actor)
  unfolding get_active_impersonation
  get_active_impersonation-Keeps actor =
      search (chains, parts, shown_option-Keeps) depth 24 fits 3000

  start_impersonation-Keeps :
      (actor : ℕ) (target : ℕ) (reason : Option Text)
      → Keeps P (start_impersonation rt m actor target reason)
  unfolding start_impersonation
  start_impersonation-Keeps actor target reason = search (chains, parts) depth 24 fits 3000

  end_session_at-Keeps : (id : ℕ) → Keeps P (end_session_at rt m id)
  unfolding end_session_at
  end_session_at-Keeps id = modify-Keeps P _ (λ s. st.impersonation_ended s _)

  stop_impersonation-Keeps : (actor : ℕ) (id : ℕ) → Keeps P (stop_impersonation rt m actor id)
  unfolding stop_impersonation
  stop_impersonation-Keeps actor id =
      search (chains, parts, end_session_at-Keeps) depth 24 fits 3000

  revoke_all-Keeps :
      (id : ℕ) (reason : RevocationReason) → Keeps P (modify (revoke_all m.now id reason))
  unfolding revoke_all
  revoke_all-Keeps id reason = modify-Keeps P _ (λ s. st.revoked s _ reason)

  revoke_one-Keeps :
      (id : ℕ) (reason : RevocationReason) → Keeps P (modify (revoke_one m.now id reason))
  unfolding revoke_one
  revoke_one-Keeps id reason = modify-Keeps P _ (λ s. st.revoked s _ reason)

  rotate-Keeps : (t : RefreshToken) (a : Account) → Keeps P (rotate rt m t a)
  unfolding rotate
  rotate-Keeps t a = search (chains, parts, revoke_one-Keeps) depth 24 fits 3000

  detect_reuse-Keeps : (t : RefreshToken) → Keeps P (detect_reuse rt m t)
  unfolding detect_reuse
  detect_reuse-Keeps t = search (chains, parts, revoke_all-Keeps) depth 24 fits 3000

  refresh-Keeps : (token : Text) → Keeps P (refresh rt m token)
  unfolding refresh
  refresh-Keeps token = search (chains, parts, rotate-Keeps, detect_reuse-Keeps) depth 24 fits 3000

  log_out_of-Keeps : (o : Option RefreshToken) → Keeps P (log_out_of rt m o)
  unfolding log_out_of
  log_out_of-Keeps none = give-Keeps P _
  log_out_of-Keeps (some t) = search (chains, parts, revoke_one-Keeps)

  logout-Keeps : (token : Text) → Keeps P (logout rt m token)
  unfolding logout
  logout-Keeps token = search (chains, parts, log_out_of-Keeps) depth 24 fits 3000

  reset_for-Keeps : (a : Account) → Keeps P (reset_for rt m a)
  unfolding reset_for
  reset_for-Keeps a = search (chains, parts) depth 24 fits 3000

  reset_if_known-Keeps : (o : Option Account) → Keeps P (reset_if_known rt m o)
  unfolding reset_if_known
  reset_if_known-Keeps none = give-Keeps P _
  reset_if_known-Keeps (some a) = search (chains, reset_for-Keeps)

  request_password_reset-Keeps : (email : Text) → Keeps P (request_password_reset rt m email)
  unfolding request_password_reset
  request_password_reset-Keeps email =
      search (chains, parts, reset_if_known-Keeps) depth 24 fits 3000

  apply_reset-Keeps : (t : OneTimeToken) (hash : Text) → Keeps P (modify (apply_reset rt m t hash))
  unfolding apply_reset revoke_all
  apply_reset-Keeps t hash =
      modify-Keeps P _ (λ s p. st.revoked _ _ _ (st.reset_used _ _ (st.accounts s _ p)))

  complete_password_reset-Keeps :
      (token : Text) (password : Text) → Keeps P (complete_password_reset rt m token password)
  unfolding complete_password_reset
  complete_password_reset-Keeps token password =
      search (chains, parts, apply_reset-Keeps) depth 24 fits 3000

  create_activation_for_user-Keeps : (id : ℕ) → Keeps P (create_activation_for_user rt m id)
  unfolding create_activation_for_user
  create_activation_for_user-Keeps id = search (chains, parts) depth 24 fits 3000

  create_canvasser-Keeps :
      (input : NewUser) (password : Text) → Keeps P (stores (create_canvasser rt m input password))
  unfolding create_canvasser
  create_canvasser-Keeps input password =
      stores-Keeps P with_accounts _ (λ s (rows, a) p. st.accounts s rows p)

  create_invited_canvasser-Keeps :
      (input : NewUser) (hash : Text) → Keeps P (stores (create_invited_canvasser rt m input hash))
  unfolding create_invited_canvasser
  create_invited_canvasser-Keeps input hash =
      stores-Keeps P with_accounts _ (λ s (rows, a) p. st.accounts s rows p)

  update_canvasser-Keeps :
      (id : ℕ) (input : UserUpdate) → Keeps P (stores (update_canvasser rt m id input))
  unfolding update_canvasser
  update_canvasser-Keeps id input =
      stores-Keeps P with_accounts _ (λ s (rows, a) p. st.accounts s rows p)

  invite_canvasser-Keeps :
      (actor : ℕ) (input : NewUser) → Keeps P (invite_canvasser rt m actor input)
  unfolding invite_canvasser
  invite_canvasser-Keeps actor input =
      search (chains, parts, create_invited_canvasser-Keeps, create_activation_for_user-Keeps) depth
        24 fits 3000

  apply_activation-Keeps :
      (t : OneTimeToken) (hash : Text) → Keeps P (modify (apply_activation rt m t hash))
  unfolding apply_activation
  apply_activation-Keeps t hash =
      modify-Keeps P _ (λ s p. st.activation_used _ _ (st.accounts s _ p))

  activate_account-Keeps :
      (token : Text) (password : Text) → Keeps P (activate_account rt m token password)
  unfolding activate_account
  activate_account-Keeps token password =
      search (chains, parts, apply_activation-Keeps, ask_second_factor-Keeps) depth 24 fits 3000

  pub auth_step-Keeps : (call : AuthCall) (s : AuthState) → P s → P (auth_step rt m call s)
  unfolding auth_step Keeps
  auth_step-Keeps (logs_in email password) = login-Keeps email password
  auth_step-Keeps (initializes_mfa token) = initialize_mfa_setup-Keeps token
  auth_step-Keeps (completes_mfa token code) = complete_mfa_setup-Keeps token code
  auth_step-Keeps (verifies_mfa token code) = verify_mfa_challenge-Keeps token code
  auth_step-Keeps (reads_mfa id) = mfa_status-Keeps id
  auth_step-Keeps (disables_mfa id password code) = disable_mfa-Keeps id password code
  auth_step-Keeps (steps_up id impersonator code) = step_up_mfa-Keeps id impersonator code
  auth_step-Keeps (reads_impersonation id) = get_active_impersonation-Keeps id
  auth_step-Keeps (starts_impersonation actor target reason) =
      start_impersonation-Keeps actor target reason
  auth_step-Keeps (stops_impersonation actor session) = stop_impersonation-Keeps actor session
  auth_step-Keeps (refreshes token) = refresh-Keeps token
  auth_step-Keeps (logs_out token) = logout-Keeps token
  auth_step-Keeps (requests_reset email) = request_password_reset-Keeps email
  auth_step-Keeps (completes_reset token password) = complete_password_reset-Keeps token password
  auth_step-Keeps (issues_activation id) = create_activation_for_user-Keeps id
  auth_step-Keeps (invites actor input) = invite_canvasser-Keeps actor input
  auth_step-Keeps (activates token password) = activate_account-Keeps token password
  auth_step-Keeps (creates input password) = create_canvasser-Keeps input password
  auth_step-Keeps (updates id input) = update_canvasser-Keeps id input
  auth_step-Keeps (lists_cases actor) = list_cases-Keeps rt m P st actor
  auth_step-Keeps (requests_recovery actor target type reason) =
      request-Keeps rt m P st actor target type reason
  auth_step-Keeps (rejects actor id reason) = reject-Keeps rt m P st actor id reason
  auth_step-Keeps (approves actor id reason) = approve-Keeps rt m P st actor id reason
