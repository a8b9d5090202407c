-- ===== src/Turfs/History.antt =====
-- Histories of calls of the turf service, each a transaction; a call that throws changes nothing.
use proactive.Base.{ℕ, ◌&&◌, ◌==◌, ◌≤◌, Option, Text, List, [], ◌∷◌, count, Result, ok, err}
use proactive.Store.{Db}
use proactive.Access.{AccessScope}
use proactive.Policies.{OperationalPolicy}
use proactive.Policies.Settings.{PolicySettings}
use proactive.Turfs.Apart.{Apart}
use proactive.Turfs.Guards.{is_open, is_open_on, is_current_on}
use proactive.Turfs.Admin.{
  CreateTurfInput, TurfScopeInput, create_turf, update_turf_scope, assign_turf,
}
use proactive.Turfs.Retire.{reopen_turf, archive_turf, delete_turf}
use proactive.Turfs.Sessions.{
  SessionInput, start_session, pause_session, resume_session, complete_session,
}

-- A call with its arguments; an operation that creates a row is given the identifier that the
-- database makes for it.
pub data Call : Type 0 where
  create : ℕ → CreateTurfInput → ℕ → Call
  rescope : ℕ → TurfScopeInput → ℕ → AccessScope → Call
  assign : ℕ → ℕ → ℕ → ℕ → Option Text → AccessScope → Call
  reopen : ℕ → ℕ → Option Text → AccessScope → Call
  archive : ℕ → ℕ → Option Text → AccessScope → Call
  delete : ℕ → ℕ → Text → AccessScope → Call
  start : ℕ → SessionInput → Call
  pause resume complete : SessionInput → Call

abbrev pub after {ℓ} : {A : Type ℓ} → Db → Result (Db × A) → Db
after db (ok r) = r.0
after db (err e) = db

module _ (defaults : PolicySettings) (policies : List OperationalPolicy) where
  unfoldable pub step : ℕ × Call → Db → Db
  step (now, create new_id input actor) db = after db (create_turf now new_id input actor db)
  step (now, rescope turf input actor scope) db =
      after db (update_turf_scope turf input actor scope db)
  step (now, assign new_id turf canvasser actor reason scope) db =
      after db (assign_turf now new_id turf canvasser actor reason scope db)
  step (now, reopen turf actor reason scope) db =
      after db (reopen_turf now turf actor reason scope db)
  step (now, archive turf actor reason scope) db =
      after db (archive_turf defaults policies now turf actor reason scope db)
  step (now, delete turf actor reason scope) db =
      after db (delete_turf defaults policies now turf actor reason scope db)
  step (now, start new_id input) db = after db (start_session now new_id input db)
  step (now, pause input) db = after db (pause_session now input db)
  step (now, resume input) db = after db (resume_session now input db)
  step (now, complete input) db = after db (complete_session now input db)

  unfoldable pub run : List (ℕ × Call) → Db → Db
  unfolding step
  run [] db = db
  run (c ∷ cs) db = run cs (step c db)

-- In a consistent database a turf has at most one open session, shared or not, and at most one
-- current assignment; a canvasser has at most one open session over all turfs.
abbrev pub IsExclusive : ℕ → ℕ → Db → Type 0
IsExclusive turf canvasser db =
    (count (is_open_on turf) db.sessions ≤ 1)
    × (count (λ s. s.canvasser_id == canvasser && is_open s) db.sessions ≤ 1)
    × (count (is_current_on turf) db.assignments ≤ 1)
