-- ===== src/Sync.antt =====
-- mobile-app/src/syncDiagnostics.ts: what the phone remembers of its attempts to send a visit. A time
-- is a number of milliseconds. Where the environment gives a number, it is an integer or nothing.
use proactive.Base.{
  ℕ, ◌+◌, ◌-◌, ◌*◌, max, min, Bool, true, false, Option, none, some, List, [], ◌∷◌, ◌++◌, length,
  keep, leb, ltb, ◌&&◌, ◌==◌, not, if◌then◌else◌,
}
pub mod Prune
pub mod Summary

pub data VisitSyncStatus : Type 0 where
  pending syncing synced failed conflict : VisitSyncStatus

pub data SyncErrorCategory : Type 0 where
  network authentication authorization validation : SyncErrorCategory
  rate_limited server disputed unknown : SyncErrorCategory

pub data SyncDependencyState : Type 0 where
  offline reachable auth_required server_rejected conflict_review : SyncDependencyState

pub record SyncTransition : Type 0 where
  pub at : ℕ
  pub status : VisitSyncStatus
  pub error_category : Option SyncErrorCategory
  pub dependency_state : SyncDependencyState
  pub server_acknowledged : Bool

pub record QueueDiagnostics : Type 0 where
  pub retry_count : ℕ
  pub last_attempt_at : Option ℕ
  pub last_error_category : Option SyncErrorCategory
  pub dependency_state : SyncDependencyState
  pub server_acknowledged : Bool
  pub transitions : List SyncTransition

-- A queued visit, without the submission itself, which no function here reads.
pub record QueuedVisit : Type 0 where
  pub id : ℕ
  pub created_at : ℕ
  pub sync_status : VisitSyncStatus
  pub diagnostics : QueueDiagnostics

-- A thrown value: without a status, with one that is no number, or with one.
pub data SyncFailure : Type 0 where
  no_status not_a_number : SyncFailure
  with_status : ℕ → SyncFailure

pub record TransitionInput : Type 0 where
  pub at : Option ℕ
  pub is_online : Option Bool
  pub error : Option SyncFailure
  pub server_acknowledged : Option Bool

pub record SyncDiagnosticPolicy : Type 0 where
  pub max_transitions : ℕ
  pub retention_days : ℕ

unfoldable pub bounded_integer : Option ℕ → ℕ → ℕ → ℕ → ℕ
bounded_integer none fallback minimum maximum = fallback
bounded_integer (some parsed) fallback minimum maximum = min maximum (max minimum parsed)

unfoldable pub sync_diagnostic_policy : Option ℕ → Option ℕ → SyncDiagnosticPolicy
unfolding bounded_integer
sync_diagnostic_policy transitions days = record {
  max_transitions = bounded_integer transitions 12 3 50;
  retention_days = bounded_integer days 14 1 90;
}

abbrev pub first_dependency : Bool → SyncDependencyState
first_dependency is_online = if is_online then reachable else offline

abbrev pub first_transition : ℕ → Bool → SyncTransition
first_transition at is_online = record {
  at = at;
  status = pending;
  error_category = none;
  dependency_state = first_dependency is_online;
  server_acknowledged = false;
}

unfoldable pub create_queue_diagnostics : ℕ → Bool → QueueDiagnostics
create_queue_diagnostics at is_online = record {
  retry_count = 0;
  last_attempt_at = none;
  last_error_category = none;
  dependency_state = first_dependency is_online;
  server_acknowledged = false;
  transitions = first_transition at is_online ∷ [];
}

abbrev pub classify_status : ℕ → SyncErrorCategory
classify_status status =
    if status == 0
    then network
    else if status == 401
    then authentication
    else if status == 403
    then authorization
    else if status == 409
    then disputed
    else if status == 429
    then rate_limited
    else if leb 400 status && ltb status 500
    then validation
    else if leb 500 status
    then server
    else unknown

unfoldable pub classify_sync_error : SyncFailure → SyncErrorCategory
classify_sync_error no_status = network
classify_sync_error not_a_number = unknown
classify_sync_error (with_status status) = classify_status status

unfoldable pub server_acknowledged_error : SyncFailure → Bool
server_acknowledged_error no_status = false
server_acknowledged_error not_a_number = false
server_acknowledged_error (with_status status) = ltb 0 status

unfoldable pub dependency_for : SyncErrorCategory → SyncDependencyState
dependency_for network = offline
dependency_for authentication = auth_required
dependency_for disputed = conflict_review
dependency_for _ = server_rejected

-- `slice(-n)`, for an n that is not 0.
unfoldable pub slice_last {ℓ} : {A : Type ℓ} → ℕ → List A → List A
slice_last n [] = []
slice_last n (x ∷ xs) =
    let rest = slice_last n xs in if leb (length (x ∷ xs)) n then x ∷ xs else rest

abbrev pub is_retained : ℕ → SyncTransition → Bool
is_retained cutoff t = leb cutoff t.at

unfoldable pub prune_transitions :
    SyncDiagnosticPolicy → List SyncTransition → ℕ → List SyncTransition
unfolding slice_last
prune_transitions policy transitions now =
    slice_last policy.max_transitions
      (keep (is_retained (now - policy.retention_days * 86_400_000)) transitions)

abbrev pub is_syncing : VisitSyncStatus → Bool
is_syncing syncing = true
is_syncing _ = false

abbrev pub category_of : Option SyncFailure → Option SyncErrorCategory
category_of none = none
category_of (some e) = some (classify_sync_error e)

abbrev pub dependency_of : Option SyncFailure → Option Bool → SyncDependencyState
dependency_of (some e) is_online = dependency_for (classify_sync_error e)
dependency_of none (some false) = offline
dependency_of none _ = reachable

abbrev pub acknowledged_of : Option Bool → Option SyncFailure → Bool
acknowledged_of (some given) error = given
acknowledged_of none none = false
acknowledged_of none (some e) = server_acknowledged_error e

abbrev pub time_of_input : ℕ → TransitionInput → ℕ
time_of_input now input = elim input.at [ none ↦ now | some at ↦ at ]

-- The entry that a transition adds.
unfoldable pub new_transition : ℕ → VisitSyncStatus → TransitionInput → SyncTransition
unfolding classify_sync_error dependency_for server_acknowledged_error
new_transition now status input = record {
  at = time_of_input now input;
  status = status;
  error_category = category_of input.error;
  dependency_state = dependency_of input.error input.is_online;
  server_acknowledged = acknowledged_of input.server_acknowledged input.error;
}

abbrev pub next_category :
    Option SyncErrorCategory → Bool → Option SyncErrorCategory → Option SyncErrorCategory
next_category (some c) attempts last = some c
next_category none attempts last = if attempts then none else last

unfoldable pub transition_queued_visit :
    SyncDiagnosticPolicy → ℕ → QueuedVisit → VisitSyncStatus → TransitionInput → QueuedVisit
unfolding new_transition prune_transitions
transition_queued_visit policy now item status input =
    let t = new_transition now status input in
    let d = item.diagnostics in
    let attempts = is_syncing status in
    record item {
      sync_status = status;
      diagnostics = record {
        retry_count = d.retry_count + (if attempts then 1 else 0);
        last_attempt_at = if attempts then some t.at else d.last_attempt_at;
        last_error_category = next_category t.error_category attempts d.last_error_category;
        dependency_state = t.dependency_state;
        server_acknowledged = t.server_acknowledged;
        transitions = prune_transitions policy (d.transitions ++ (t ∷ [])) t.at;
      };
    }
