-- ===== src/Tests/AuthTests.antt =====
-- Sign-in: tokens that serve once, the lock after wrong passwords, and a recovery by two admins.
use proactive.Base.{
  ◌≡◌, refl, none, some, [], ◌∷◌, text, err, unauthorized, forbidden, ◌≤◌, here, List, arith, trim,
  false,
}
use proactive.Action.Ends.{Ends}
use proactive.Action.{
  ◌>>=◌, ◌>>◌, and_then, give, gets, reads, modify, writes, settled, throw, throw_if,
}
use proactive.Policies.{get_effective_policy, effective_of, campaign_policy, find_policy_record}
use proactive.Auth.Records.{AuthState}
use proactive.Auth.Runtime.{Moment}
use proactive.Auth.Service.{AuthCall, logs_in, requests_reset, starts_impersonation, auth_run}
use proactive.Auth.Orderly.{IsOrderly, auth_run-IsOrderly}
use proactive.Auth.Spent.{IsFresh, refresh-single_use}
use proactive.Auth.Reset.{complete_password_reset-single_use, complete_password_reset-ends_sessions}
use proactive.Auth.Tokens.{refresh, complete_password_reset}
use proactive.Store.{UserRole}
use proactive.Auth.Limits.{assert_within_rate_limit}
use proactive.Auth.Users.{find_by_email}
use proactive.Auth.Login.{login}
use proactive.Auth.Entry.{IsRefused, tries, lockout-permanent}
use proactive.Auth.Recover.Approve.{approve}
use proactive.Auth.Rates.{passed, passed-bounded}
use proactive.Auth.Base32.{decode-generate}
use proactive.Auth.Renewal.{IsRenewed, refresh-IsRenewed}
use proactive.Policies.{EffectivePolicy, PolicySourceScope, map_record}
use proactive.Tests.Data.{defaults}
use proactive.Auth.Totp.{generate_base32_secret, decode_base32}
use proactive.Tests.AuthData.{runtime, at_time, held, mailed, held_row, mailed_row, tables, member}

-- Two sign-ins, and a reset asked for.
abbrev calls : List (Moment × AuthCall)
calls =
    (at_time 200, logs_in (text "bob@x.org") (text "open"))
    ∷ (at_time 300, logs_in (text "ada@x.org") (text "open"))
    ∷ (at_time 400, requests_reset (text "ada@x.org"))
    ∷ (at_time 500, starts_impersonation 8 2 none)
    ∷ []

tables-IsOrderly : IsOrderly tables
tables-IsOrderly = ((tt, tt), ((tt, tt), (tt, tt)), (tt, tt), (tt, tt), tt)

calls-IsFresh_held : IsFresh runtime (1 ∷ held) calls
calls-IsFresh_held = (refl, (refl, (refl, (refl, tt))))

calls-IsFresh-mailed : IsFresh runtime (1 ∷ mailed) calls
calls-IsFresh-mailed = (refl, (refl, (refl, (refl, tt))))

auth_run-IsOrderly_example : IsOrderly (auth_run runtime calls tables)
auth_run-IsOrderly_example = auth_run-IsOrderly runtime calls tables tables-IsOrderly

refresh-single_use_example :
    (refresh runtime
      (at_time 9000)
      held
      (auth_run runtime calls (refresh runtime (at_time 100) held tables).0)).1
    ≡ err (unauthorized "Invalid refresh token")
unfolding refresh ◌>>=◌ ◌>>◌ and_then give gets reads modify writes settled throw
    get_effective_policy effective_of campaign_policy find_policy_record
refresh-single_use_example =
    refresh-single_use runtime held (at_time 100) tables calls (at_time 9000) tables-IsOrderly refl
      calls-IsFresh_held

complete_password_reset-single_use_example :
    complete_password_reset runtime (at_time 9000) mailed (text "again") (
      auth_run runtime calls
        (complete_password_reset runtime (at_time 100) mailed (text "new") tables).0)
    ≡ (
      auth_run runtime calls
          (complete_password_reset runtime (at_time 100) mailed (text "new") tables).0,
      err (unauthorized "Invalid or expired reset token"),
    )
unfolding complete_password_reset ◌>>=◌ ◌>>◌ and_then reads modify
complete_password_reset-single_use_example =
    complete_password_reset-single_use runtime mailed (text "new") (at_time 100) tables calls
      (at_time 9000) (text "again") tables-IsOrderly refl calls-IsFresh-mailed

complete_password_reset-ends_sessions_example :
    (refresh runtime (at_time 9000) held (
      auth_run runtime calls
        (complete_password_reset runtime (at_time 100) mailed (text "new") tables).0)).1
    ≡ err (unauthorized "Invalid refresh token")
complete_password_reset-ends_sessions_example =
    complete_password_reset-ends_sessions runtime mailed (text "new") (at_time 100) tables held
      {t = held_row} {stored = mailed_row} calls (at_time 9000) tables-IsOrderly refl (here refl)
      refl refl calls-IsFresh_held

-- One wrong password before the threshold, and then the right one, once long after the lock.
abbrev weary : AuthState
weary = record tables {
  accounts =
      record (member 2 (text "ada@x.org") UserRole.canvasser) { failed_login_attempts = 4 } ∷ [];
}

lockout-permanent_example :
    let after =
      tries runtime
        (text "ada@x.org")
        ((at_time 1_000_000_000, text "open") ∷ [])
        (login runtime (at_time 100) (text "ada@x.org") (text "shut") weary).0 in
    IsRefused after.accounts
      (login runtime (at_time 9_000_000_000) (text "ada@x.org") (text "open") after)
unfolding assert_within_rate_limit find_by_email get_effective_policy effective_of campaign_policy
    find_policy_record trim
lockout-permanent_example =
    lockout-permanent runtime (at_time 100) (text "ada@x.org") (text "shut") weary
      ((at_time 1_000_000_000, text "open") ∷ []) (at_time 9_000_000_000) (text "open") refl refl
      refl refl refl (omega arith) refl

passed-bounded_example : passed (unauthorized "later") 3 1000 held (5 ∷ 6 ∷ 7 ∷ 8 ∷ 900 ∷ []) [] ≤ 3
passed-bounded_example =
    passed-bounded (unauthorized "later") 3 1000 held 5 (6 ∷ 7 ∷ 8 ∷ 900 ∷ []) [] (omega arith) refl
      (omega arith, (omega arith, (omega arith, (omega arith, tt))))

decode-generate_example :
    decode_base32 runtime (generate_base32_secret (18 ∷ 255 ∷ 0 ∷ [])) ≡ 18 ∷ 255 ∷ 0 ∷ []
decode-generate_example =
    decode-generate runtime (18 ∷ 255 ∷ 0 ∷ []) (omega arith, (omega arith, (omega arith, tt)))
      (λ s h. refl)

-- The same, by running the program: three bytes make five characters.
secret_runs : generate_base32_secret (18 ∷ 255 ∷ 0 ∷ []) ≡ text "CL7QA"
unfolding generate_base32_secret
secret_runs = refl

-- The approval goes through, and an approval by the admin who asked does not.
approve_runs :
    (approve runtime (at_time 100) 8 6 (some (text "seen in person")) tables).1
    ≡ err (forbidden "A distinct admin must approve this recovery case")
unfolding approve ◌>>=◌ ◌>>◌ and_then reads writes settled throw_if trim
approve_runs = refl

-- The policy where none is stored.
abbrev default_effective : EffectivePolicy
default_effective = record {
  id = none;
  organization_id = some 1;
  campaign_id = none;
  source_scope = PolicySourceScope.default;
  explicit_record = false;
  inherited_from_organization = false;
  settings = defaults;
}

refresh-IsRenewed_example :
    Ends
      (IsRenewed runtime
        (at_time 100)
        (member 2 (text "ada@x.org") UserRole.canvasser)
        default_effective)
      (λ _. ⊥)
      (refresh runtime (at_time 100) held tables)
unfolding get_effective_policy effective_of campaign_policy find_policy_record map_record
refresh-IsRenewed_example =
    refresh-IsRenewed runtime (at_time 100) held tables held_row
      (member 2 (text "ada@x.org") UserRole.canvasser) default_effective refl refl refl
      (omega arith) refl refl refl
