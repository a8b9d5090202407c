-- ===== src/Base/Lists.antt =====
-- Predicates on lists by recursion, and the searches that the services make in a table.
use Prim.Native.Nat.{ℕ, suc}
use mathlib.Core.Path.{◌≡◌, refl}
use mathlib.Core.Logic.{◌⊎◌, inl, inr}
use mathlib.Core.Bool.{Bool, true, false, ◌||◌}
use mathlib.Core.Option.{Option, none, some}
use mathlib.Core.List.{List, [], ◌∷◌, map}
use native.Mathlib.Omega.{arith}
use proactive.Base.Tests.{if◌then◌else◌, Bool-cases}

module _ {ℓ} {A : Type ℓ} where
  abbrev pub All {κ} : (A → Type κ) → List A → Type κ
  All P [] = Unit
  All P (x ∷ xs) = P x × All P xs

  -- Every row stands in `R` to each later one.
  abbrev pub Pairwise {κ} : (A → A → Type κ) → List A → Type κ
  Pairwise R [] = Unit
  Pairwise R (x ∷ xs) = All (R x) xs × Pairwise R xs

  -- A row stands in the list.
  pub data In (x : A) : List A → Type ℓ where
    here : {y : A} {ys : List A} → x ≡ y → In x (y ∷ ys)
    there : {y : A} {ys : List A} → In x ys → In x (y ∷ ys)

  abbrev pub find_first : (A → Bool) → List A → Option A
  find_first p [] = none
  find_first p (x ∷ xs) = if p x then some x else find_first p xs

  abbrev pub any : (A → Bool) → List A → Bool
  any p [] = false
  any p (x ∷ xs) = p x || any p xs

  abbrev pub length : List A → ℕ
  length [] = 0
  length (x ∷ xs) = suc (length xs)

  abbrev pub count : (A → Bool) → List A → ℕ
  count p [] = 0
  count p (x ∷ xs) = let n = count p xs in if p x then suc n else n

  abbrev pub keep : (A → Bool) → List A → List A
  keep p [] = []
  keep p (x ∷ xs) = let ys = keep p xs in if p x then x ∷ ys else ys

module _ {ℓ} {A : Type ℓ} where
  pub All-map {κ} :
      (P Q : A → Type κ) (f : A → A) (xs : List A)
      → ((x : A) → P x → Q (f x))
      → All P xs
      → All Q (map f xs)
  All-map P Q f [] h a = tt
  All-map P Q f (x ∷ xs) h a = (h x a.0, All-map P Q f xs h a.1)

  pub All-weaken {κ} :
      (P Q : A → Type κ) (xs : List A) → ((x : A) → P x → Q x) → All P xs → All Q xs
  All-weaken P Q [] h a = tt
  All-weaken P Q (x ∷ xs) h a = (h x a.0, All-weaken P Q xs h a.1)

  pub All-both {κ μ} :
      (P : A → Type κ) (Q : A → Type μ) (xs : List A)
      → All P xs
      → All Q xs
      → All (λ x. P x × Q x) xs
  All-both P Q [] a b = tt
  All-both P Q (x ∷ xs) a b = ((a.0, b.0), All-both P Q xs a.1 b.1)

  pub All-everywhere {κ} : (P : A → Type κ) (xs : List A) → ((x : A) → P x) → All P xs
  All-everywhere P [] h = tt
  All-everywhere P (x ∷ xs) h = (h x, All-everywhere P xs h)

  pub All-in {κ} : (P : A → Type κ) {x : A} {xs : List A} → All P xs → In x xs → P x
  All-in P a (here e) = rw e a.0
  All-in P a (there i) = All-in P a.1 i

  pub Pairwise-map {κ} :
      (R : A → A → Type κ) (f : A → A) (xs : List A)
      → ((x y : A) → R x y → R (f x) (f y))
      → Pairwise R xs
      → Pairwise R (map f xs)
  Pairwise-map R f [] h p = tt
  Pairwise-map R f (x ∷ xs) h p =
      (All-map (R x) (R (f x)) f xs (λ y. h x y) p.0, Pairwise-map R f xs h p.1)

  -- In a table that a symmetric relation orders pairwise, each row is the chosen one or related.
  pub Pairwise-In :
      (R : A → A → Type ℓ) {x : A} {xs : List A}
      → ((a b : A) → R a b → R b a)
      → Pairwise R xs
      → In x xs
      → All (λ y. (x ≡ y) ⊎ R x y) xs
  Pairwise-In R {x} s p (here {y} {ys} e) =
      (inl e, All-weaken (R y) (λ z. (x ≡ z) ⊎ R x z) ys (λ z r. inr (rw e r)) p.0)
  Pairwise-In R {x} s p (there {y} {ys} i) =
      (inr (s y x (All-in (R y) p.0 i)), Pairwise-In R s p.1 i)

  pub find_first-none :
      (p : A → Bool) (xs : List A) → find_first p xs ≡ none → All (λ x. p x ≡ false) xs
  find_first-none p [] h = tt
  find_first-none p (x ∷ xs) h = elim (Bool-cases (p x)) [
    | inl e ↦ absurd (ground arith)
    | inr e ↦ (e, find_first-none p xs (ground arith))
  ]

  pub find_first-some :
      (p : A → Bool) (xs : List A) {x : A} → find_first p xs ≡ some x → In x xs × (p x ≡ true)
  find_first-some p [] h = absurd (ground arith)
  find_first-some p (y ∷ ys) {x} h = elim (Bool-cases (p y)) [
    | inl e ↦ (here (ground arith), ground arith)
    | inr e ↦ let (i, q) = find_first-some p ys {x = x} (ground arith) in (there i, q)
  ]

  pub count-zero : (p : A → Bool) (xs : List A) → count p xs ≡ 0 → All (λ x. p x ≡ false) xs
  count-zero p [] h = tt
  count-zero p (x ∷ xs) h = elim (Bool-cases (p x)) [
    | inl e ↦ absurd (ground arith)
    | inr e ↦ (e, count-zero p xs (ground arith))
  ]

  pub count-none : (p : A → Bool) (xs : List A) → All (λ x. p x ≡ false) xs → count p xs ≡ 0
  count-none p [] h = refl
  count-none p (x ∷ xs) h = ground (arith, count-none p xs h.1)

  pub any-In : (p : A → Bool) (xs : List A) → any p xs ≡ true → (x : A) × In x xs × (p x ≡ true)
  any-In p [] h = absurd (ground arith)
  any-In p (x ∷ xs) h = elim (Bool-cases (p x)) [
    | inl e ↦ (x, here refl, e)
    | inr e ↦ let (y, i, q) = any-In p xs (ground arith) in (y, there i, q)
  ]

  pub In-any : (p : A → Bool) {x : A} (xs : List A) → In x xs → p x ≡ true → any p xs ≡ true
  In-any p [] i e = elim i [ ]
  In-any p (y ∷ ys) (here q) e = ground arith
  In-any p (y ∷ ys) (there i) e = ground (arith, In-any p ys i e)
