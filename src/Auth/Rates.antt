-- ===== src/Auth/Rates.antt =====
-- How many attempts the counters let through.
use proactive.Base.{
  ℕ, suc, ◌+◌, ◌-◌, ◌≤◌, ◌<◌, ◌≡◌, refl, none, some, List, [], ◌∷◌, Text, text_eq_self, arith,
  find_first, All, Result, ok, err, Failure,
}
use proactive.Auth.Records.{Attempt}
use proactive.Auth.Limits.{has_attempt, set_attempt, count_attempt, limit_attempts}

module _ (e : Failure) (max_attempts window : ℕ) (key : Text) where
  -- How many attempts at one key get through, made at these times, one after the other.
  abbrev pub passed_of : Result (List Attempt) → (List Attempt → ℕ) → ℕ → ℕ
  passed_of (ok next) rest refused = suc (rest next)
  passed_of (err x) rest refused = refused

  unfoldable pub passed : List ℕ → List Attempt → ℕ
  unfolding limit_attempts
  passed [] attempts = 0
  passed (t ∷ ts) attempts =
      let refused = passed ts attempts in
      passed_of (limit_attempts e max_attempts window t key attempts) (passed ts) refused

  find-set :
      (count reset_at : ℕ) (attempts : List Attempt)
      → find_first (has_attempt key) (set_attempt key count reset_at attempts)
        ≡ some (record { key = key; count = count; reset_at = reset_at })
  unfolding set_attempt
  find-set count reset_at attempts = rw (text_eq_self key) refl

  -- Within the window of a counter, no more than the limit leaves.
  passed-counted :
      (ts : List ℕ) (attempts : List Attempt) {a : Attempt}
      → find_first (has_attempt key) attempts ≡ some a
      → All (λ t. t < a.reset_at) ts
      → passed ts attempts ≤ max_attempts - a.count
  unfolding passed limit_attempts count_attempt
  passed-counted [] attempts h w = omega arith
  passed-counted (t ∷ ts) attempts {a} h w =
      let next = set_attempt key (a.count + 1) a.reset_at attempts in
      let later = passed-counted ts next (find-set (a.count + 1) a.reset_at attempts) w.1 in
      let skipped = passed-counted ts attempts h w.1 in rw h (ground arith)

  -- Where the limit is positive and no attempt at the key is counted yet, at most the limit's number
  -- of attempts within the window of the first get through, that one included, however many are made.
  pub passed-bounded :
      (t : ℕ) (ts : List ℕ) (attempts : List Attempt)
      → 1 ≤ max_attempts
      → find_first (has_attempt key) attempts ≡ none
      → All (λ u. u < t + window) ts
      → passed (t ∷ ts) attempts ≤ max_attempts
  unfolding passed limit_attempts count_attempt
  passed-bounded t ts attempts p h w =
      let next = set_attempt key 1 (t + window) attempts in
      let later = passed-counted ts next (find-set 1 (t + window) attempts) w in rw h (omega arith)
