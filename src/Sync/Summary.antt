-- ===== src/Sync/Summary.antt =====
-- What the diagnostics of a queued visit say of its whole history: mobile-app/src/syncDiagnostics.ts.
use proactive.Base.{
  ℕ, suc, ◌+◌, ◌-◌, ◌*◌, ◌≤◌, ◌≡◌, refl, ap, ◌∙◌, Bool, true, Option, none, some, List, [], ◌∷◌,
  ◌++◌, leb, All, All-weaken, Pairwise, subst, arith, if◌then◌else◌,
}
use proactive.Sync.{
  VisitSyncStatus, SyncTransition, SyncDiagnosticPolicy, QueuedVisit, QueueDiagnostics,
  TransitionInput, create_queue_diagnostics, first_transition, new_transition,
  transition_queued_visit, prune_transitions, is_syncing, time_of_input, sync_diagnostic_policy,
  bounded_integer, slice_last,
}
use proactive.Sync.Prune.{prune-prune, All-add}

-- A change of status: the clock, the status, and what is known of it.
pub record Change : Type 0 where
  pub now : ℕ
  pub status : VisitSyncStatus
  pub input : TransitionInput

unfoldable pub entry_of : Change → SyncTransition
unfolding new_transition
entry_of c = new_transition c.now c.status c.input

abbrev pub time_of_change : Change → ℕ
time_of_change c = time_of_input c.now c.input

unfoldable pub run_changes : SyncDiagnosticPolicy → List Change → QueuedVisit → QueuedVisit
unfolding transition_queued_visit
run_changes policy [] item = item
run_changes policy (c ∷ cs) item =
    run_changes policy cs (transition_queued_visit policy c.now item c.status c.input)

-- The entries of a history in order, after those of `log`.
unfoldable pub full_log : List SyncTransition → List Change → List SyncTransition
full_log log [] = log
full_log log (c ∷ cs) = full_log (log ++ entry_of c ∷ []) cs

unfoldable pub last_time : ℕ → List Change → ℕ
last_time at [] = at
last_time at (c ∷ cs) = last_time (time_of_change c) cs

-- The number of attempts, and the time of the last one.
unfoldable pub attempts_in : List Change → ℕ
attempts_in [] = 0
attempts_in (c ∷ cs) = let rest = attempts_in cs in if is_syncing c.status then suc rest else rest

unfoldable pub last_attempt : Option ℕ → List Change → Option ℕ
last_attempt last [] = last
last_attempt last (c ∷ cs) =
    last_attempt (if is_syncing c.status then some (time_of_change c) else last) cs

-- No change is earlier than the one before it.
abbrev pub IsOrdered : ℕ → List Change → Type 0
IsOrdered at [] = Unit
IsOrdered at (c ∷ cs) = (at ≤ time_of_change c) × IsOrdered (time_of_change c) cs

-- The diagnostics that a whole history makes.
abbrev pub IsSummary :
    SyncDiagnosticPolicy
    → ℕ
    → List SyncTransition
    → List Change
    → QueueDiagnostics
    → QueueDiagnostics
    → Type 0
IsSummary policy at log changes before d =
    (d.transitions ≡ prune_transitions policy (full_log log changes) (last_time at changes))
    × (d.retry_count ≡ before.retry_count + attempts_in changes)
    × (d.last_attempt_at ≡ last_attempt before.last_attempt_at changes)

Pairwise-add :
    (xs : List SyncTransition) (z : SyncTransition)
    → Pairwise (λ x y. x.at ≤ y.at) xs
    → All (λ x. x.at ≤ z.at) xs
    → Pairwise (λ x y. x.at ≤ y.at) (xs ++ z ∷ [])
Pairwise-add [] z p h = (tt, tt)
Pairwise-add (x ∷ xs) z p h = (All-add (λ y. x.at ≤ y.at) xs z p.0 h.0, Pairwise-add xs z p.1 h.1)

run_changes-IsLogged :
    (policy : SyncDiagnosticPolicy) (at : ℕ) (log : List SyncTransition) (changes : List Change)
    (item : QueuedVisit)
    → Pairwise (λ x y. x.at ≤ y.at) log
    → All (λ x. x.at ≤ at) log
    → IsOrdered at changes
    → item.diagnostics.transitions ≡ prune_transitions policy log at
    → IsSummary policy at log changes item.diagnostics (run_changes policy changes item).diagnostics
unfolding entry_of new_transition run_changes full_log last_time attempts_in last_attempt
    transition_queued_visit prune_transitions
run_changes-IsLogged policy at log [] item p l o h = (h, omega arith, refl)
run_changes-IsLogged policy at log (c ∷ cs) item p l o h =
    let t = entry_of c in
    let next = transition_queued_visit policy c.now item c.status c.input in
    let below =
      All-weaken (λ x. x.at ≤ at) (λ x. x.at ≤ t.at) log (λ x r. omega (arith, r, o.0)) l in
    let step : next.diagnostics.transitions ≡ prune_transitions policy (log ++ t ∷ []) t.at =
      ap (λ ts. prune_transitions policy (ts ++ t ∷ []) t.at) h
      ∙ prune-prune (λ x. x.at) policy.max_transitions (at - policy.retention_days * 86_400_000)
          (t.at - policy.retention_days * 86_400_000) log t (omega (arith, o.0)) p below in
    let rest =
      run_changes-IsLogged policy t.at (log ++ t ∷ []) cs next (Pairwise-add log t p below)
        (All-add (λ x. x.at ≤ t.at) log t below (omega arith)) o.1 step in
    (rest.0, ground (arith, rest.1), rest.2)

-- A number of entries that the environment sets is 3 at the least.
pub max_transitions-positive :
    (transitions days : Option ℕ) → 3 ≤ (sync_diagnostic_policy transitions days).max_transitions
unfolding sync_diagnostic_policy bounded_integer
max_transitions-positive none days = omega arith
max_transitions-positive (some n) days = omega arith

first-pruned :
    (transitions days : Option ℕ) (at : ℕ) (is_online : Bool)
    → first_transition at is_online ∷ []
      ≡ prune_transitions
          (sync_diagnostic_policy transitions days)
          (first_transition at is_online ∷ [])
          at
unfolding prune_transitions slice_last
first-pruned transitions days at is_online =
    let policy = sync_diagnostic_policy transitions days in
    let e : leb (at - policy.retention_days * 86_400_000) at ≡ true = ground arith in
    let f : leb 1 policy.max_transitions ≡ true =
      ground (arith, max_transitions-positive transitions days) in
    rw (e, f) refl

-- The diagnostics of a visit that was queued and then changed in the order of time are those of its
-- whole history: the entries are what one pruning at the end leaves of all of them, the count of
-- tries is the number of changes to syncing, and the last try is the last of these.
pub run_changes-IsSummary :
    (transitions days : Option ℕ) (at : ℕ) (is_online : Bool) (changes : List Change)
    (item : QueuedVisit)
    → item.diagnostics ≡ create_queue_diagnostics at is_online
    → IsOrdered at changes
    → IsSummary
        (sync_diagnostic_policy transitions days)
        at
        (first_transition at is_online ∷ [])
        changes
        (create_queue_diagnostics at is_online)
        (run_changes (sync_diagnostic_policy transitions days) changes item).diagnostics
unfolding create_queue_diagnostics
run_changes-IsSummary transitions days at is_online changes item h o =
    subst
      (λ d.
        IsSummary (sync_diagnostic_policy transitions days) at (first_transition at is_online ∷ [])
          changes d
          (run_changes (sync_diagnostic_policy transitions days) changes item).diagnostics)
      h
      (run_changes-IsLogged (sync_diagnostic_policy transitions days) at
        (first_transition at is_online ∷ []) changes item (tt, tt) (omega arith, tt) o
        (ap (λ d. d.transitions) h ∙ first-pruned transitions days at is_online))
