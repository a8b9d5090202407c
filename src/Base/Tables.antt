-- ===== src/Base/Tables.antt =====
-- What the services ask of the database client, on a table that is a list of rows.
use Prim.Native.Nat.{ℕ, ◌≤◌}
use mathlib.Core.Path.{sym, ◌≡◌}
use mathlib.Core.Bool.{◌&&◌, Bool, true, false}
use mathlib.Core.Option.{Option, none, some}
use mathlib.Core.List.{List, [], ◌∷◌, map}
use native.Mathlib.Omega.{arith}
use proactive.Base.Tests.{if◌then◌else◌, leb, Bool-cases, Option-cases}
use mathlib.Core.Logic.{inl, inr}
use proactive.Base.Lists.{All-weaken, All, In, here, there}

module _ {ℓ} {A : Type ℓ} where
  -- `update` and `updateMany`: the rows that pass the test are changed.
  abbrev pub update_where : (A → Bool) → (A → A) → List A → List A
  update_where p f = map (λ x. if p x then f x else x)

  -- The later of two rows, the one on the left if they are of one time.
  abbrev pub later_of : (A → ℕ) → A → Option A → A
  later_of time x none = x
  later_of time x (some y) = if leb (time y) (time x) then x else y

  -- `findFirst` with `orderBy: { time: 'desc' }`.
  abbrev pub find_latest : (A → ℕ) → (A → Bool) → List A → Option A
  find_latest time p [] = none
  find_latest time p (x ∷ xs) =
      let rest = find_latest time p xs in if p x then some (later_of time x rest) else rest

module _ {ℓ} {A : Type ℓ} (time : A → ℕ) (p : A → Bool) where
  pub find_latest-none : (xs : List A) → find_latest time p xs ≡ none → All (λ x. p x ≡ false) xs
  find_latest-none [] h = tt
  find_latest-none (x ∷ xs) h = elim (Bool-cases (p x)) [
    | inl e ↦ absurd (ground arith)
    | inr e ↦ (e, find_latest-none xs (ground arith))
  ]

  -- The row that is found stands in the table, passes the test, and none that does is later.
  pub find_latest-some :
      (xs : List A) {y : A}
      → find_latest time p xs ≡ some y
      → In y xs × (p y ≡ true) × All (λ x. p x ≡ true → time x ≤ time y) xs
  find_latest-some [] h = absurd (ground arith)
  find_latest-some (x ∷ xs) {y} h = elim (Option-cases (find_latest time p xs)) [
    | inl e ↦ elim (Bool-cases (p x)) [
      | inl q ↦ (
        here (ground arith),
        ground arith,
        (
          λ _. ground arith,
          All-weaken _ _ xs (λ z w v. absurd (ground arith)) (find_latest-none xs e),
        ),
      )
      | inr q ↦ absurd (ground arith)
    ]
    | inr (z, e) ↦
        let (i, q, a) = find_latest-some xs e in
        elim (Bool-cases (p x && leb (time z) (time x))) [
          | inl q' ↦
              let x_is : x ≡ y = ground arith in
              (
                here (sym x_is),
                ground arith,
                (λ _. ground arith, All-weaken _ _ xs (λ v w r. let b = w r in ground arith) a),
              )
          | inr q' ↦
              let z_is : z ≡ y = ground arith in
              (
                there (rw (← z_is) i),
                ground arith,
                (λ r. ground arith, All-weaken _ _ xs (λ v w r. let b = w r in ground arith) a),
              )
        ]
  ]
