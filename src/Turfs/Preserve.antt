-- ===== src/Turfs/Preserve.antt =====
-- How the parts of the invariant go through a change of the tables, row by row.
use proactive.Base.{
  ℕ, true, false, ◌≡◌, ◌⊎◌, inl, inr, ◌==◌, if◌then◌else◌, List, [], ◌∷◌, map, arith, All, any,
  is_null, All-weaken,
}
use proactive.Store.{Turf, TurfAssignment, TurfSession, AssignmentStatus, is_current}
use proactive.Turfs.Apart.{Apart, Weakens, holds, holds_turf, any-map-true, any-map-false}
use proactive.Turfs.Invariant.{
  assignment_holding, session_holding, is_finished, IsCovered, IsReleased,
}

-- A change of the assignments that keeps every current one on `turf` of `canvasser`.
abbrev pub Keeps : (TurfAssignment → TurfAssignment) → ℕ → ℕ → TurfAssignment → Type 0
Keeps g turf canvasser a =
    holds assignment_holding turf canvasser a ≡ true
    → holds assignment_holding turf canvasser (g a) ≡ true

pub IsCovered-sessions :
    (rows : List TurfAssignment) (g : TurfSession → TurfSession) (ss : List TurfSession)
    → All (Weakens session_holding g) ss
    → All (IsCovered rows) ss
    → All (IsCovered rows) (map g ss)
IsCovered-sessions rows g [] w c = tt
IsCovered-sessions rows g (s ∷ ss) ((_, t, p, l), ws) (c, cs) =
    (λ h. rw (t, p) (c (l h)), IsCovered-sessions rows g ss ws cs)

pub IsCovered-assignments :
    (rows : List TurfAssignment) (g : TurfAssignment → TurfAssignment) (ss : List TurfSession)
    → All (λ s. is_null s.end_time ≡ true → All (Keeps g s.turf_id s.canvasser_id) rows) ss
    → All (IsCovered rows) ss
    → All (IsCovered (map g rows)) ss
IsCovered-assignments rows g [] k c = tt
IsCovered-assignments rows g (s ∷ ss) (k, ks) (c, cs) =
    (λ h. any-map-true _ _ g rows (k h) (c h), IsCovered-assignments rows g ss ks cs)

pub IsCovered-cons :
    (a : TurfAssignment) (rows : List TurfAssignment) (ss : List TurfSession)
    → All (IsCovered rows) ss
    → All (IsCovered (a ∷ rows)) ss
IsCovered-cons a rows [] c = tt
IsCovered-cons a rows (s ∷ ss) (c, cs) = (λ h. ground (arith, c h), IsCovered-cons a rows ss cs)

-- A change of the assignments alone, and one of the turfs alone.
pub IsReleased-assignments :
    (rows : List TurfAssignment) (g : TurfAssignment → TurfAssignment) (ts : List Turf)
    → All (Weakens assignment_holding g) rows
    → All (IsReleased rows) ts
    → All (IsReleased (map g rows)) ts
IsReleased-assignments rows g [] w r = tt
IsReleased-assignments rows g (t ∷ ts) w (r, rs) = (
  λ h.
      any-map-false _ _ g rows
        (All-weaken _ _ rows
          (λ a v e. let (_, same, _, l) = v in let lv = l (ground arith) in ground arith) w)
        (r h),
  IsReleased-assignments rows g ts w rs,
)

pub IsReleased-turfs :
    (rows : List TurfAssignment) (g : Turf → Turf) (ts : List Turf)
    → All
        (λ t.
          ((g t).id ≡ t.id)
          × (is_finished (g t).status ≡ true
              → (is_finished t.status ≡ true)
                ⊎ (any (holds_turf assignment_holding t.id) rows ≡ false)))
        ts
    → All (IsReleased rows) ts
    → All (IsReleased rows) (map g ts)
IsReleased-turfs rows g [] k r = tt
IsReleased-turfs rows g (t ∷ ts) ((same, k), ks) (r, rs) = (
  λ h. rw same (elim (k h) [ inl old ↦ r old | inr new ↦ new ]),
  IsReleased-turfs rows g ts ks rs,
)

-- The update that makes a found current assignment active.
abbrev pub activated : TurfAssignment → TurfAssignment → TurfAssignment
activated a x = if x.id == a.id then record x { status = AssignmentStatus.active } else x

module _ (a : TurfAssignment) (current : is_current a.status ≡ true) (x : TurfAssignment)
    (found : (a ≡ x) ⊎ Apart assignment_holding a x) where
  pub activated-Weakens : Weakens assignment_holding (activated a) x
  activated-Weakens = elim found [
    | inl e ↦ rw (← e) (ground arith, ground arith, ground arith, λ _. current)
    | inr (ids, _) ↦ ground arith
  ]

  pub activated-Keeps : (turf canvasser : ℕ) → Keeps (activated a) turf canvasser x
  activated-Keeps turf canvasser h = ground arith
