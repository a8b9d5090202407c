-- ===== src/Auth/Sound.antt =====
-- What a sign-in with a password establishes, and what it tells.
use proactive.Base.{◌≡◌, true, false, some, Text, Result}
use proactive.Action.Ends.{Ends}
use proactive.Action.Keeps.{Keeps}
use proactive.Auth.Records.{Account, AuthState}
use proactive.Auth.Runtime.{Runtime, Moment}
use proactive.Auth.Users.{find_by_email}
use proactive.Auth.Parts.{Session, is_privileged}
use proactive.Auth.Login.{LoginAnswer, signed_in, mfa_required, is_usable}
use proactive.Auth.Entry.{normalized_email}

-- The account at the address is active, not deleted, and the password is its own.
abbrev pub IsProven : Runtime → Text → Text → AuthState → Type 0
IsProven rt email password s =
    (a : Account) × (find_by_email rt (normalized_email rt email) s ≡ some a)
    × (is_usable a ≡ true)
    × (rt.compare_password password a.password_hash ≡ true)

-- A session is a canvasser's; an admin or a supervisor is asked for the second factor, and no
-- refresh token is issued.
abbrev pub IsAuthentic : Runtime → Text → Text → AuthState → LoginAnswer → AuthState → Type 0
IsAuthentic rt email password s (signed_in session) s' =
    IsProven rt email password s × (is_privileged session.role ≡ false)
IsAuthentic rt email password s (mfa_required setup token role user) s' =
    IsProven rt email password s
    × (is_privileged role ≡ true)
    × (s'.refresh_tokens ≡ s.refresh_tokens)

abbrev HasRole : Account → AuthState × Result Session → Type 0
HasRole a = Ends (λ session _. session.role ≡ a.role) (λ _. Unit {0})

module _ (rt : Runtime) (m : Moment) (email password : Text) (s : AuthState) where
  abbrev Same : AuthState → Type 0
  Same t = t.refresh_tokens ≡ s.refresh_tokens

  -- What a password that is accepted has shown.
  abbrev Validated : AuthState × Result Account → Type 0
  Validated = Ends (λ _ t. IsProven rt email password s × Same t) (λ _. Unit {0})

  abbrev Authentic : AuthState × Result LoginAnswer → Type 0
  Authentic = Ends (IsAuthentic rt email password s) (λ _. Unit {0})
