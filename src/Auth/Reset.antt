-- ===== src/Auth/Reset.antt =====
-- Password resets and activations: their tokens serve once, and a reset ends every session.
use proactive.Base.{
  ℕ, ◌≡◌, ◌==◌, refl, sym, ◌∙◌, Bool, true, false, none, some, List, [], ◌∷◌, Text, arith, is_null,
  text_eq, if◌then◌else◌, beq_self, find_first, find_first-some, In, All-map, Pairwise, Result, ok,
  err, unauthorized,
}
use proactive.Action.Ends.{found-runs, Ends}
use proactive.Action.{◌>>=◌, ◌>>◌, and_then, reads, modify}
use proactive.Auth.Records.{AuthState, RefreshToken, OneTimeToken, RevocationReason}
use proactive.Auth.Runtime.{Runtime, Moment}
use proactive.Auth.Parts.{refresh_hash_of, token_hash_of, is_redeemable, use_token}
use proactive.Auth.Tokens.{
  refresh, revoke, revoke_all, is_unrevoked, redeem, apply_reset, complete_password_reset,
}
use proactive.Auth.Service.{AuthCall, auth_step, auth_run}
use proactive.Auth.Stable.{Stable}
use proactive.Auth.Stable.Calls.{auth_step-Keeps}
use proactive.Auth.Orderly.{Differ, IsOrderly}
use proactive.Auth.Spent.{
  IsFresh, IsRevoked, AreUsed, use-AreUsed, renew-AreUsed, IsRevoked-run, refused, sole_row,
  eq_of_text_eq, All-from, true_ne_false, Ends-ok,
}

module _ (rt : Runtime) (h : Text) (m : Moment)
    (fresh : text_eq (rt.hash_token m.token) h ≡ false) where
  resets-Stable : Stable rt m (λ s. AreUsed h s.reset_tokens)
  resets-Stable = record {
    audit = λ s x p. p;
    accounts = λ s x p. p;
    attempts = λ s x p. p;
    recovery_attempts = λ s x p. p;
    codes = λ s x p. p;
    cases = λ s x p. p;
    revoked = λ s q reason p. p;
    issued = λ s t e f p. p;
    reset_used = λ s q. use-AreUsed rt h m fresh q s.reset_tokens;
    reset_renewed = λ s id at e. renew-AreUsed rt h m fresh id at s.reset_tokens;
    activation_used = λ s q p. p;
    activation_renewed = λ s id at e p. p;
    challenge_used = λ s q p. p;
    challenge_renewed = λ s c e f p. p;
    impersonation_ended = λ s q p. p;
    impersonation_replaced = λ s i p. p;
  }

resets-run :
    (rt : Runtime) (h : Text) (calls : List (Moment × AuthCall)) (s : AuthState)
    → IsFresh rt h calls
    → AreUsed h s.reset_tokens
    → AreUsed h (auth_run rt calls s).reset_tokens
unfolding auth_run
resets-run rt h [] s f p = p
resets-run rt h ((m, call) ∷ calls) s f p =
    resets-run rt h calls (auth_step rt m call s) f.1
      (auth_step-Keeps rt m (λ s. AreUsed h s.reset_tokens) (resets-Stable rt h m f.0) call s p)

-- A token of which every row is used is not found.
redeemable-none :
    (h : Text) (now : ℕ) (xs : List OneTimeToken)
    → AreUsed h xs
    → find_first (is_redeemable h now) xs ≡ none
redeemable-none h now [] p = refl
redeemable-none h now (x ∷ xs) p = ground (arith, p.0, redeemable-none h now xs p.1)

module _ (m : Moment) (h : Text) where
  redeemed :
      (t : OneTimeToken) (b : Bool) (x : OneTimeToken)
      → (x.id == t.id) ≡ b
      → (text_eq x.token_hash h ≡ true → x ≡ t)
      → text_eq (if b then use_token m.now x else x).token_hash h ≡ true
      → is_null (if b then use_token m.now x else x).used_at ≡ false
  redeemed t true x e k g = refl
  redeemed t false x e k g = absurd (true_ne_false (sym (beq_self t.id) ∙ rw (k g) at e))

  -- Once its row is used, and no other has its hash, a token is out of use.
  redeem-AreUsed :
      (rt : Runtime) {t : OneTimeToken} {xs : List OneTimeToken}
      → Pairwise (Differ token_hash_of) xs
      → In t xs
      → text_eq t.token_hash h ≡ true
      → AreUsed h (redeem rt m t.id xs)
  redeem-AreUsed rt {t} {xs} d i e =
      All-map _ _ (λ x. if x.id == t.id then use_token m.now x else x) xs
        (λ x k. redeemed t (x.id == t.id) x refl k)
        (All-from _ xs
          (λ x j g. sole_row token_hash_of d i j (rw (eq_of_text_eq t.token_hash h e) g)))

-- Of a user whose unrevoked tokens are revoked, every token is out of use.
revoke_all-IsRevoked :
    (now id : ℕ) (reason : RevocationReason) (h : Text) (s : AuthState) {t : RefreshToken}
    → Pairwise (Differ refresh_hash_of) s.refresh_tokens
    → In t s.refresh_tokens
    → t.user_id ≡ id
    → text_eq t.token_hash h ≡ true
    → IsRevoked h (revoke_all now id reason s)
unfolding revoke_all revoke
revoke_all-IsRevoked now id reason h s {t} d i u e =
    All-map (λ (x : RefreshToken). text_eq x.token_hash h ≡ true → (x.user_id == id) ≡ true) _
      (λ x. if is_unrevoked id x then revoke now reason x else x) s.refresh_tokens
      (λ x k. ground arith)
      (All-from _ s.refresh_tokens (λ x j g.
        let q = sole_row refresh_hash_of d i j (rw (eq_of_text_eq t.token_hash h e) g) in
        rw (q, u) (beq_self id)))

spent_reset :
    (rt : Runtime) (token password : Text) (m : Moment) (s : AuthState)
    → AreUsed (rt.hash_token token) s.reset_tokens
    → complete_password_reset rt m token password s
      ≡ (s, err (unauthorized "Invalid or expired reset token"))
unfolding complete_password_reset ◌>>=◌ and_then reads
spent_reset rt token password m s u =
    rw (redeemable-none (rt.hash_token token) m.now s.reset_tokens u)

module _ (rt : Runtime) (token password : Text) (m : Moment) (s : AuthState)
    (calls : List (Moment × AuthCall)) (m' : Moment) where
  complete-AreUsed :
      IsOrderly s
      → Ends
          (λ _ s'. AreUsed (rt.hash_token token) s'.reset_tokens)
          (λ _. Unit {0})
          (complete_password_reset rt m token password s)
  unfolding complete_password_reset apply_reset revoke_all ◌>>◌ ◌>>=◌ and_then modify
  complete-AreUsed o = found-runs R _ _ _ s tt (λ t e.
      let (i, q) = find_first-some (is_redeemable (rt.hash_token token) m.now) s.reset_tokens e in
      redeem-AreUsed m (rt.hash_token token) rt o.1.0 i (ground arith))
    where
      R : AuthState × Result (Unit {0}) → Type 0
      R = Ends (λ _ s'. AreUsed (rt.hash_token token) s'.reset_tokens) (λ _. Unit {0})

  -- From a state in order, a reset token that has set a password sets no second one: it is refused
  -- after every history of calls in which no token drawn has its hash.
  pub complete_password_reset-single_use :
      (password' : Text)
      → IsOrderly s
      → (complete_password_reset rt m token password s).1 ≡ ok tt
      → IsFresh rt (rt.hash_token token) calls
      → complete_password_reset rt m' token password'
          (auth_run rt calls (complete_password_reset rt m token password s).0)
        ≡ (
          auth_run rt calls (complete_password_reset rt m token password s).0,
          err (unauthorized "Invalid or expired reset token"),
        )
  complete_password_reset-single_use password' o e f = spent_reset rt token password' m' _ (
      resets-run rt (rt.hash_token token) calls _ f (
        Ends-ok (λ _ s'. AreUsed (rt.hash_token token) s'.reset_tokens) (λ _. Unit {0})
          (complete_password_reset rt m token password s) (complete-AreUsed o) e))

module _ (rt : Runtime) (token password : Text) (m : Moment) (s : AuthState) where
  complete-IsRevoked :
      (h : Text) {t : RefreshToken} {stored : OneTimeToken}
      → IsOrderly s
      → find_first (is_redeemable (rt.hash_token token) m.now) s.reset_tokens ≡ some stored
      → In t s.refresh_tokens
      → t.user_id ≡ stored.user_id
      → text_eq t.token_hash h ≡ true
      → IsRevoked h (complete_password_reset rt m token password s).0
  unfolding complete_password_reset apply_reset revoke_all ◌>>◌ ◌>>=◌ and_then modify reads
  complete-IsRevoked h {t} {stored} o e i u k =
      rw e (revoke_all-IsRevoked m.now stored.user_id RevocationReason.password_reset h s o.0 i u k)

  -- From a state in order, a completed password reset puts every refresh token of its account out of
  -- use: each is refused after every history of calls in which no token drawn has its hash.
  pub complete_password_reset-ends_sessions :
      (held : Text) {t : RefreshToken} {stored : OneTimeToken} (calls : List (Moment × AuthCall))
      (m' : Moment)
      → IsOrderly s
      → find_first (is_redeemable (rt.hash_token token) m.now) s.reset_tokens ≡ some stored
      → In t s.refresh_tokens
      → t.user_id ≡ stored.user_id
      → text_eq t.token_hash (rt.hash_token held) ≡ true
      → IsFresh rt (rt.hash_token held) calls
      → (refresh rt m' held (auth_run rt calls (complete_password_reset rt m token password s).0)).1
        ≡ err (unauthorized "Invalid refresh token")
  complete_password_reset-ends_sessions held calls m' o e i u k f = refused rt held m' _ (
      IsRevoked-run rt (rt.hash_token held) calls _ f
        (complete-IsRevoked (rt.hash_token held) o e i u k))
