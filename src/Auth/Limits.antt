-- ===== src/Auth/Limits.antt =====
-- The counters of attempts: `assertWithinRateLimit` and `clearRateLimit` of
-- backend/src/auth/auth.service.ts and `rateLimit` of backend/src/recovery/recovery.service.ts,
-- which keep one in memory for each key.
use proactive.Base.{
  ℕ, ◌+◌, ◌*◌, Bool, Option, none, some, List, ◌∷◌, ◌++◌, Text, text, text_eq, trim, String, Result,
  ok, err, map_ok, too_many_requests, if◌then◌else◌, leb, find_first, keep, not, ◌>>=◌, Failure,
}
use proactive.Auth.Records.{Attempt, AuthState}
use proactive.Auth.Runtime.{Runtime}
use proactive.Auth.Settings.{get_effective_settings}

abbrev pub has_attempt : Text → Attempt → Bool
has_attempt key a = text_eq a.key key

-- `map.set(key, ...)`
unfoldable pub set_attempt : Text → ℕ → ℕ → List Attempt → List Attempt
set_attempt key count reset_at attempts =
    record { key = key; count = count; reset_at = reset_at }
    ∷ keep (λ a. not (has_attempt key a)) attempts

-- The counter of a key after one more attempt: a new window, or one more in the window. A limit of
-- attempts that is reached throws.
unfoldable pub count_attempt :
    Failure → ℕ → ℕ → ℕ → Text → Option Attempt → List Attempt → Result (List Attempt)
unfolding set_attempt
count_attempt e max_attempts window now key none attempts =
    ok (set_attempt key 1 (now + window) attempts)
count_attempt e max_attempts window now key (some entry) attempts =
    if leb entry.reset_at now
    then ok (set_attempt key 1 (now + window) attempts)
    else if leb max_attempts entry.count
    then err e
    else ok (set_attempt key (entry.count + 1) entry.reset_at attempts)

unfoldable pub limit_attempts : Failure → ℕ → ℕ → ℕ → Text → List Attempt → Result (List Attempt)
unfolding count_attempt
limit_attempts e max_attempts window now key attempts =
    count_attempt e max_attempts window now key (find_first (has_attempt key) attempts) attempts

module _ (rt : Runtime) where
  unfoldable pub rate_limit_key : String → Text → Text
  rate_limit_key action identifier = text action ++ (58 ∷ rt.to_lower_case (trim identifier))

  abbrev pub with_login_attempts : AuthState → List Attempt → AuthState
  with_login_attempts s attempts = record s { login_attempts = attempts }

  abbrev pub with_recovery_attempts : AuthState → List Attempt → AuthState
  with_recovery_attempts s attempts = record s { recovery_attempts = attempts }

  unfoldable pub counted : ℕ → Text → AuthState → Result (List Attempt)
  unfolding limit_attempts get_effective_settings
  counted now key s = do
    settings ← get_effective_settings rt.default_settings s.system_settings
    limit_attempts (too_many_requests "Too many authentication attempts. Please try again later.")
        settings.auth_rate_limit_max_attempts (settings.auth_rate_limit_window_minutes * 60 * 1000)
        now key s.login_attempts

  unfoldable pub assert_within_rate_limit : ℕ → String → Text → AuthState → Result AuthState
  unfolding rate_limit_key counted
  assert_within_rate_limit now action identifier s =
      map_ok (with_login_attempts s) (counted now (rate_limit_key action identifier) s)

  unfoldable pub clear_rate_limit : String → Text → AuthState → AuthState
  unfolding rate_limit_key
  clear_rate_limit action identifier s = record s {
    login_attempts =
        keep (λ a. not (has_attempt (rate_limit_key action identifier) a)) s.login_attempts;
  }

  -- `rateLimit` of the recovery service, with a map of its own.
  unfoldable pub recovery_rate_limit : ℕ → Text → AuthState → Result AuthState
  unfolding limit_attempts
  recovery_rate_limit now key s = map_ok (with_recovery_attempts s) (
      limit_attempts (too_many_requests "Recovery attempt limit exceeded") rt.recovery_max_attempts
        (rt.recovery_window_minutes * 60_000) now key s.recovery_attempts)
