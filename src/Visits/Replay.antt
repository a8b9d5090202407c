-- ===== src/Visits/Replay.antt =====
-- A submission that is stored and sent again.
use proactive.Base.{ℕ, true, ◌≡◌, ◌&&◌, ◌==◌, Option, none, some, ◌∷◌, any, Result, ok, err}
use proactive.Store.{Db, VisitLog, SyncStatus}
use proactive.Turfs.Guards.{is_held}
use proactive.Visits.Platform.{Platform}
use proactive.Visits.Conflicts.{VisitInput, Checked, normalize_optional_text, visit_row}
use proactive.Visits.Log.{current_session}
use proactive.Visits.Change.{IsReadOnly}

-- The session that the visit is logged in is found, and is the one named here.
abbrev Resolves : Option ℕ → ℕ → ℕ → Db → Option ℕ → Type 0
Resolves none canvasser turf db session = session ≡ current_session db canvasser turf
Resolves (some id) canvasser turf db session =
    (any (λ s. s.id == id && s.canvasser_id == canvasser && s.turf_id == turf) db.sessions ≡ true)
    × (session ≡ some id)

module _ (platform : Platform) (now new_id : ℕ) (input : VisitInput) (c : Checked) (db : Db) where
  -- What a visit that is stored anew has left behind.
  pub record IsStored (db' : Db) (v : VisitLog) : Type 0 where
    pub session : Option ℕ
    pub held : any (is_held c.address.turf_id input.canvasser_id) db.assignments ≡ true
    pub resolved : Resolves input.session_id input.canvasser_id c.address.turf_id db session
    pub row :
        v
        ≡ visit_row platform now new_id input c session
            (normalize_optional_text input.notes)
            SyncStatus.synced
            none
    pub listed : db'.visits ≡ v ∷ db.visits
    pub kept : IsReadOnly db db'

  -- A call that answers with a visit leaves this behind, or has known the visit.
  abbrev Answers : Db × Result VisitLog → Type 0
  Answers (db', ok v) = IsStored db' v
  Answers (db', err e) = Unit
