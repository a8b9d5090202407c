-- ===== src/Sync/Prune.antt =====
-- `pruneTransitions` of mobile-app/src/syncDiagnostics.ts: to prune a list that grows, each time a
-- transition is added, is to prune the whole of it in the end.
use proactive.Base.{
  ℕ, suc, ◌+◌, ◌-◌, ◌*◌, ◌≤◌, ◌≡◌, refl, sym, ap, subst, ◌∙◌, Bool, true, false, Bool-cases, inl,
  inr, List, [], ◌∷◌, ◌++◌, leb, length, keep, All, Pairwise, arith, All-weaken,
}
use proactive.Sync.{
  slice_last, is_retained, SyncTransition, SyncDiagnosticPolicy, QueuedVisit, VisitSyncStatus,
  TransitionInput, transition_queued_visit, prune_transitions, new_transition, time_of_input,
}

pub length-add {ℓ} : {A : Type ℓ} (xs : List A) (z : A) → length (xs ++ z ∷ []) ≡ suc (length xs)
length-add [] z = refl
length-add (x ∷ xs) z = ap suc (length-add xs z)

pub All-add {ℓ κ} :
    {A : Type ℓ} (P : A → Type κ) (xs : List A) (z : A) → All P xs → P z → All P (xs ++ z ∷ [])
All-add P [] z h p = (p, tt)
All-add P (x ∷ xs) z h p = (h.0, All-add P xs z h.1 p)

pub slice_last-short {ℓ} :
    {A : Type ℓ} (n : ℕ) (x : A) (xs : List A)
    → leb (length (x ∷ xs)) n ≡ true
    → slice_last n (x ∷ xs) ≡ x ∷ xs
unfolding slice_last
slice_last-short n x xs h = rw h refl

pub slice_last-long {ℓ} :
    {A : Type ℓ} (n : ℕ) (x : A) (xs : List A)
    → leb (length (x ∷ xs)) n ≡ false
    → slice_last n (x ∷ xs) ≡ slice_last n xs
unfolding slice_last
slice_last-long n x xs h = rw h refl

module _ {ℓ} {A : Type ℓ} (time : A → ℕ) where
  abbrev is_late : ℕ → A → Bool
  is_late c x = leb c (time x)

  keep-yes :
      (c : ℕ) (x : A) (xs : List A)
      → is_late c x ≡ true
      → keep (is_late c) (x ∷ xs) ≡ x ∷ keep (is_late c) xs
  keep-yes c x xs h = rw h refl

  keep-no :
      (c : ℕ) (x : A) (xs : List A)
      → is_late c x ≡ false
      → keep (is_late c) (x ∷ xs) ≡ keep (is_late c) xs
  keep-no c x xs h = rw h refl

  keep-All : (c : ℕ) (xs : List A) → All (λ x. c ≤ time x) xs → keep (is_late c) xs ≡ xs
  keep-All c [] h = refl
  keep-All c (x ∷ xs) h =
      let e : is_late c x ≡ true = ground (arith, h.0) in
      keep-yes c x xs e ∙ ap (λ ys. x ∷ ys) (keep-All c xs h.1)

  -- Where no more is kept of the list than of its tail, its first element makes no difference.
  prune-kept :
      (n d : ℕ) (y : A) (ys : List A) (z : A)
      → All (λ x. time y ≤ time x) ys
      → time y ≤ time z
      → slice_last n (keep (is_late d) (slice_last n ys ++ z ∷ []))
        ≡ slice_last n (keep (is_late d) (ys ++ z ∷ []))
      → slice_last n (keep (is_late d) (slice_last n (y ∷ ys) ++ z ∷ []))
        ≡ slice_last n (keep (is_late d) (y ∷ ys ++ z ∷ []))
  prune-kept n d y ys z s l rest = elim (Bool-cases (leb (length (y ∷ ys)) n)) [
    | inl e ↦ rw (slice_last-short n y ys e) refl
    | inr e ↦ rw (slice_last-long n y ys e) (rest ∙ sym (dropped e))
  ]
    where
      dropped :
          leb (length (y ∷ ys)) n ≡ false
          → slice_last n (keep (is_late d) (y ∷ ys ++ z ∷ []))
            ≡ slice_last n (keep (is_late d) (ys ++ z ∷ []))
      dropped e = elim (Bool-cases (is_late d y)) [
        | inr f ↦ rw (keep-no d y (ys ++ z ∷ []) f) refl
        | inl f ↦
            let all = keep-All d (ys ++ z ∷ []) (
              All-add (λ x. d ≤ time x) ys z
                (All-weaken (λ x. time y ≤ time x) (λ x. d ≤ time x) ys
                  (λ x r. ground (arith, r, f)) s)
                (ground (arith, l, f))) in
            rw (keep-yes d y (ys ++ z ∷ []) f, all)
              (slice_last-long n y (ys ++ z ∷ []) (ground (arith, e, length-add ys z)))
      ]

  pub prune-prune :
      (n c d : ℕ) (xs : List A) (z : A)
      → c ≤ d
      → Pairwise (λ x y. time x ≤ time y) xs
      → All (λ x. time x ≤ time z) xs
      → slice_last n (keep (is_late d) (slice_last n (keep (is_late c) xs) ++ z ∷ []))
        ≡ slice_last n (keep (is_late d) (xs ++ z ∷ []))
  unfolding slice_last
  prune-prune n c d [] z h s l = refl
  prune-prune n c d (y ∷ ys) z h s l =
      let rest = prune-prune n c d ys z h s.1 l.1 in
      elim (Bool-cases (is_late c y)) [
        | inl e ↦
            let all = keep-All c ys (
              All-weaken (λ x. time y ≤ time x) (λ x. c ≤ time x) ys (λ x r. ground (arith, r, e))
                s.0) in
            rw (keep-yes c y ys e, all)
              (prune-kept n d y ys z s.0 l.0 (
                subst
                  (λ k.
                    slice_last n (keep (is_late d) (slice_last n k ++ z ∷ []))
                    ≡ slice_last n (keep (is_late d) (ys ++ z ∷ [])))
                  all rest))
        | inr e ↦
            let f : is_late d y ≡ false = ground (arith, e, h) in
            rw (keep-no c y ys e, keep-no d y (ys ++ z ∷ []) f) rest
      ]

slice_last-length {ℓ} : {A : Type ℓ} (n : ℕ) (xs : List A) → length (slice_last n xs) ≤ n
unfolding slice_last
slice_last-length n [] = omega arith
slice_last-length n (x ∷ xs) = elim (Bool-cases (leb (length (x ∷ xs)) n)) [
  | inl e ↦ rw e (ground (arith, e))
  | inr e ↦ rw e (slice_last-length n xs)
]

slice_last-All {ℓ κ} :
    {A : Type ℓ} (P : A → Type κ) (n : ℕ) (xs : List A) → All P xs → All P (slice_last n xs)
unfolding slice_last
slice_last-All P n [] h = tt
slice_last-All P n (x ∷ xs) h = elim (Bool-cases (leb (length (x ∷ xs)) n)) [
  | inl e ↦ rw e h
  | inr e ↦ rw e (slice_last-All P n xs h.1)
]

keep-retained : (c : ℕ) (xs : List SyncTransition) → All (λ x. c ≤ x.at) (keep (is_retained c) xs)
keep-retained c [] = tt
keep-retained c (x ∷ xs) = elim (Bool-cases (leb c x.at)) [
  | inl e ↦ rw e (ground (arith, e), keep-retained c xs)
  | inr e ↦ rw e (keep-retained c xs)
]

-- A queued visit that has just changed, whatever was stored for it, has at most the number of entries
-- that the policy allows, and none that is older than the days that it allows.
pub transition_queued_visit-IsBounded :
    (policy : SyncDiagnosticPolicy) (now : ℕ) (item : QueuedVisit) (status : VisitSyncStatus)
    (input : TransitionInput)
    → let next = (transition_queued_visit policy now item status input).diagnostics.transitions in
      (length next ≤ policy.max_transitions)
      × All (λ t. time_of_input now input ≤ t.at + policy.retention_days * 86_400_000) next
unfolding transition_queued_visit prune_transitions new_transition
transition_queued_visit-IsBounded policy now item status input =
    let at = time_of_input now input in
    let span = policy.retention_days * 86_400_000 in
    let log = item.diagnostics.transitions ++ new_transition now status input ∷ [] in
    (
      slice_last-length policy.max_transitions (keep (is_retained (at - span)) log),
      slice_last-All (λ t. at ≤ t.at + span) policy.max_transitions
          (keep (is_retained (at - span)) log)
          (All-weaken (λ t. at - span ≤ t.at) (λ t. at ≤ t.at + span)
            (keep (is_retained (at - span)) log) (λ t r. omega (arith, r))
            (keep-retained (at - span) log)),
    )
