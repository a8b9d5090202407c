-- ===== src/Tests/SyncTests.antt =====
-- A visit that the phone fails to send, tries again and sends.
use proactive.Base.{
  ◌≡◌, ◌≤◌, refl, true, false, none, some, [], ◌∷◌, List, ℕ, length, ◌+◌, ◌*◌, All, arith,
}
use proactive.Sync.{
  QueuedVisit, VisitSyncStatus, SyncFailure, TransitionInput, sync_diagnostic_policy,
  bounded_integer, create_queue_diagnostics, first_transition, transition_queued_visit,
  time_of_input, prune_transitions, slice_last, new_transition,
}
use proactive.Sync.Prune.{transition_queued_visit-IsBounded}
use proactive.Sync.Summary.{Change, IsSummary, run_changes, run_changes-IsSummary}

abbrev waiting : QueuedVisit
waiting = record {
  id = 1;
  created_at = 1_000;
  sync_status = VisitSyncStatus.pending;
  diagnostics = create_queue_diagnostics 1_000 false;
}

abbrev change_at : ℕ → VisitSyncStatus → Change
change_at now status = record {
  now = now;
  status = status;
  input = record { at = none; is_online = some true; error = none; server_acknowledged = none };
}

abbrev failure_at : ℕ → Change
failure_at now = record {
  now = now;
  status = VisitSyncStatus.failed;
  input = record {
    at = none;
    is_online = none;
    error = some (SyncFailure.with_status 503);
    server_acknowledged = none;
  };
}

abbrev changes : List Change
changes =
    change_at 2_000 VisitSyncStatus.syncing
    ∷ failure_at 3_000
    ∷ change_at 9_000 VisitSyncStatus.syncing
    ∷ change_at 9_500 VisitSyncStatus.synced
    ∷ []

run_changes-IsSummary_example :
    IsSummary
      (sync_diagnostic_policy (some 1) none)
      1_000
      (first_transition 1_000 false ∷ [])
      changes
      (create_queue_diagnostics 1_000 false)
      (run_changes (sync_diagnostic_policy (some 1) none) changes waiting).diagnostics
run_changes-IsSummary_example =
    run_changes-IsSummary (some 1) none 1_000 false changes waiting refl
      (omega arith, (omega arith, (omega arith, (omega arith, tt))))

-- Two tries, of which the last three entries are left.
retries_run :
    (run_changes (sync_diagnostic_policy (some 1) none) changes waiting).diagnostics.retry_count ≡ 2
unfolding run_changes transition_queued_visit create_queue_diagnostics
retries_run = refl

entries_run :
    length
      (run_changes (sync_diagnostic_policy (some 1) none) changes waiting).diagnostics.transitions
    ≡ 3
unfolding run_changes transition_queued_visit create_queue_diagnostics prune_transitions slice_last
    new_transition sync_diagnostic_policy bounded_integer
entries_run = refl

abbrev input : TransitionInput
input = record { at = some 5_000; is_online = some false; error = none; server_acknowledged = none }

transition_queued_visit-IsBounded_example :
    let next =
      (transition_queued_visit
        (sync_diagnostic_policy none none)
        9_000
        waiting
        VisitSyncStatus.pending
        input).diagnostics.transitions in
    (length next ≤ (sync_diagnostic_policy none none).max_transitions)
    × All
        (λ t.
          time_of_input 9_000 input
          ≤ t.at + (sync_diagnostic_policy none none).retention_days * 86_400_000)
        next
transition_queued_visit-IsBounded_example =
    transition_queued_visit-IsBounded (sync_diagnostic_policy none none) 9_000 waiting
      VisitSyncStatus.pending input
