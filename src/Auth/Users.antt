-- ===== src/Auth/Users.antt =====
-- backend/src/users/users.service.ts, on the accounts. An email stands for one account by the
-- schema, deleted accounts included; a write that would break this is refused by the database.
use proactive.Base.{
  ℕ, Bool, true, false, Option, none, some, List, ◌∷◌, Text, text, text_eq, trim, Result, map_ok,
  ok, err, bad_request, not_found, conflicting, unique_violation, ◌==◌, ◌&&◌, not, same_id, is_null,
  or_else, any, find_first, update_where, found, refuse, require, if◌then◌else◌, ◌>>=◌, ◌>>◌,
}
use proactive.Store.{UserRole, Team}
use proactive.Policies.{Campaign}
use proactive.Auth.Records.{Account, AuthState}
use proactive.Auth.Runtime.{Runtime, Moment}

abbrev pub has_id : ℕ → Account → Bool
has_id id a = a.id == id

abbrev pub has_email : Text → Account → Bool
has_email email a = text_eq a.email email

-- `user?.deletedAt ? null : user`
abbrev pub undeleted : Option Account → Option Account
undeleted none = none
undeleted (some a) = if is_null a.deleted_at then some a else none

unfoldable pub find_by_email : Runtime → Text → AuthState → Option Account
find_by_email rt email s =
    undeleted (find_first (has_email (rt.to_lower_case (trim email))) s.accounts)

unfoldable pub find_by_id : ℕ → AuthState → Result Account
find_by_id id s = found (undeleted (find_first (has_id id) s.accounts)) (not_found "User not found")

-- `sanitize` returns every column of the row that it is given, with the region of the team, if the
-- row was read with one, where the account has none.
unfoldable pub sanitize : Option Team → Account → Account
sanitize none a = a
sanitize (some team) a = record a { region_code = or_else a.region_code team.region_code }

abbrev pub team_of : AuthState → Account → Option Team
team_of s a = find_first (λ t. same_id (some t.id) a.team_id) s.teams

unfoldable pub validate_user_campaign_scope :
    List Campaign → Option ℕ → Option ℕ → Result (Unit {0})
validate_user_campaign_scope campaigns organization_id none = ok tt
validate_user_campaign_scope campaigns none (some c) =
    err (bad_request "Campaign assignments require an organization scope")
validate_user_campaign_scope campaigns (some o) (some c) =
    require (any (λ r. r.id == c && r.organization_id == o) campaigns)
      (bad_request "Campaign is invalid for the current organization scope")

abbrev pub other_campaign : Option ℕ → Option ℕ → Bool
other_campaign (some a) (some b) = not (a == b)
other_campaign none b = false
other_campaign (some a) none = false

unfoldable pub validate_user_team_scope :
    List Team → Option ℕ → Option ℕ → Option ℕ → Result (Option Team)
validate_user_team_scope teams organization_id campaign_id none = ok none
validate_user_team_scope teams none campaign_id (some t) =
    err (bad_request "Team assignments require an organization scope")
validate_user_team_scope teams (some o) campaign_id (some t) = do
  team ←
      found (find_first (λ r. r.id == t && r.organization_id == o && r.is_active) teams)
        (bad_request "Team is invalid for the current organization scope")
  refuse (other_campaign team.campaign_id campaign_id)
      (bad_request "Team is invalid for the current campaign scope")
  ok (some team)

unfoldable pub normalize_field_user_role : Option UserRole → Result UserRole
normalize_field_user_role none = ok UserRole.canvasser
normalize_field_user_role (some UserRole.supervisor) = ok UserRole.supervisor
normalize_field_user_role (some UserRole.canvasser) = ok UserRole.canvasser
normalize_field_user_role (some UserRole.admin) =
    err (bad_request "Role must be canvasser or supervisor")

-- The input of `createCanvasser` and `createInvitedCanvasser`, less the password.
pub record NewUser : Type 0 where
  pub first_name : Text
  pub last_name : Text
  pub email : Text
  pub role : Option UserRole
  pub organization_id : Option ℕ
  pub campaign_id : Option ℕ
  pub team_id : Option ℕ

abbrev pub inherited_region : Option Team → Option Text
inherited_region none = none
inherited_region (some team) = team.region_code

unfoldable pub new_account : Moment → NewUser → Text → UserRole → Option Team → Text → Account
new_account m input email role team password_hash = record {
  id = m.new_id;
  first_name = input.first_name;
  last_name = input.last_name;
  email = email;
  password_hash = password_hash;
  role = role;
  organization_id = input.organization_id;
  campaign_id = input.campaign_id;
  team_id = input.team_id;
  region_code = inherited_region team;
  is_active = true;
  status = text "active";
  mfa_enabled = false;
  mfa_secret = none;
  mfa_temp_secret = none;
  failed_login_attempts = 0;
  locked_until = none;
  invited_at = none;
  activated_at = some m.now;
  last_login_at = none;
  deleted_at = none;
  created_at = m.now;
}

-- An invited account waits for its activation.
unfoldable pub invited_account : Moment → Account → Account
invited_account m a = record a {
  is_active = false;
  status = text "invited";
  invited_at = some m.now;
  activated_at = none;
}

abbrev pub with_accounts : AuthState → List Account × Account → AuthState × Account
with_accounts s (rows, account) = (record s { accounts = rows }, account)

module _ (rt : Runtime) (m : Moment) where
  -- The checks and the row of both operations; `shape` makes the row that of an invitation.
  unfoldable pub user_rows :
      NewUser → Text → (Account → Account) → AuthState → Result (List Account × Account)
  unfolding validate_user_campaign_scope validate_user_team_scope normalize_field_user_role
      new_account sanitize
  user_rows input password_hash shape s = do
    refuse (not (is_null (undeleted (find_first (has_email email) s.accounts))))
        (conflicting "A user with this email already exists")
    validate_user_campaign_scope s.campaigns input.organization_id input.campaign_id
    team ← validate_user_team_scope s.teams input.organization_id input.campaign_id input.team_id
    role ← normalize_field_user_role input.role
    refuse (any (has_email email) s.accounts) (unique_violation "users_email_key")
    let account = shape (new_account m input email role team password_hash) in
        ok (account ∷ s.accounts, sanitize team account)
    where
      email : Text
      email = rt.to_lower_case (trim input.email)

  unfoldable pub create_canvasser : NewUser → Text → AuthState → Result (AuthState × Account)
  unfolding user_rows
  create_canvasser input password s =
      map_ok (with_accounts s) (user_rows input (rt.hash_password m.salt password) (λ a. a) s)

  unfoldable pub create_invited_canvasser :
      NewUser → Text → AuthState → Result (AuthState × Account)
  unfolding user_rows invited_account
  create_invited_canvasser input password_hash s =
      map_ok (with_accounts s) (user_rows input password_hash (invited_account m) s)

-- A field that is left out is `none`; one that may be null is an option in turn.
pub record UserUpdate : Type 0 where
  pub first_name : Option Text
  pub last_name : Option Text
  pub email : Option Text
  pub password : Option Text
  pub is_active : Option Bool
  pub role : Option UserRole
  pub organization_id : Option (Option ℕ)
  pub campaign_id : Option (Option ℕ)
  pub team_id : Option (Option ℕ)

abbrev pub given {ℓ} : {A : Type ℓ} → Option A → A → A
given none current = current
given (some a) current = a

abbrev pub nullable : Option (Option ℕ) → Option ℕ
nullable none = none
nullable (some x) = x

abbrev pub other_organization : Option (Option ℕ) → Option ℕ → Bool
other_organization none existing = false
other_organization (some o) existing = not (same_id existing o)

abbrev pub next_status : Option Bool → Text → Text
next_status none current = current
next_status (some true) current = text "active"
next_status (some false) current = text "inactive"

abbrev pub next_account_region : Option (Option ℕ) → Option Team → Option Text → Option Text
next_account_region none team current = current
next_account_region (some t) team current = inherited_region team

abbrev pub optional_role : Option UserRole → UserRole → Result UserRole
optional_role none current = ok current
optional_role (some r) current = normalize_field_user_role (some r)

abbrev pub next_email : Runtime → Option Text → Text → Text
next_email rt none current = current
next_email rt (some e) current = rt.to_lower_case (trim e)

abbrev pub next_password : Runtime → Moment → Option Text → Text → Text
next_password rt m none current = current
next_password rt m (some p) current = rt.hash_password m.salt p

abbrev pub takes_email : ℕ → Text → Account → Bool
takes_email id email a = not (has_id id a) && has_email email a

unfoldable pub updated_account :
    Runtime → Moment → UserUpdate → UserRole → Option Team → Account → Account
updated_account rt m input role team a = record a {
  first_name = given input.first_name a.first_name;
  last_name = given input.last_name a.last_name;
  email = next_email rt input.email a.email;
  password_hash = next_password rt m input.password a.password_hash;
  is_active = given input.is_active a.is_active;
  status = next_status input.is_active a.status;
  role = role;
  campaign_id = given input.campaign_id a.campaign_id;
  team_id = given input.team_id a.team_id;
  region_code = next_account_region input.team_id team a.region_code;
}

unfoldable pub updated_rows :
    Runtime → Moment → ℕ → UserUpdate → AuthState → Result (List Account × Account)
unfolding validate_user_campaign_scope validate_user_team_scope normalize_field_user_role
    updated_account sanitize
updated_rows rt m id input s = do
  existing ← found (undeleted (find_first (has_id id) s.accounts)) (not_found "User not found")
  refuse (other_organization input.organization_id existing.organization_id)
      (not_found "User not found")
  let organization = or_else (nullable input.organization_id) existing.organization_id in
      validate_user_campaign_scope s.campaigns organization (nullable input.campaign_id) >>= λ _.
      validate_user_team_scope s.teams organization
        (or_else (nullable input.campaign_id) existing.campaign_id) (nullable input.team_id)
      >>= λ team. optional_role input.role existing.role >>= λ role.
          let next = updated_account rt m input role team existing in
          refuse (any (takes_email id next.email) s.accounts) (unique_violation "users_email_key")
          >>= λ _. ok (
            update_where (has_id id) (updated_account rt m input role team) s.accounts,
            sanitize team next,
          )

unfoldable pub update_canvasser :
    Runtime → Moment → ℕ → UserUpdate → AuthState → Result (AuthState × Account)
unfolding updated_rows
update_canvasser rt m id input s = map_ok (with_accounts s) (updated_rows rt m id input s)
