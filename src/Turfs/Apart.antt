-- ===== src/Turfs/Apart.antt =====
-- Rows that hold a turf for a canvasser, assignments and sessions alike: rows have identifiers of
-- their own, and two that are live hold different turfs for different canvassers.
use proactive.Base.{
  ℕ, Bool, true, false, ◌≡◌, refl, sym, ◌≢◌, ◌⊎◌, inl, inr, ◌&&◌, ◌==◌, List, [], ◌∷◌, map, arith,
  All, Pairwise, In, any, Pairwise-In, Bool-cases,
}

pub record Holding (A : Type 0) : Type 0 where
  pub id : A → ℕ
  pub turf : A → ℕ
  pub canvasser : A → ℕ
  pub live : A → Bool

module _ {A : Type 0} (k : Holding A) where
  abbrev pub Apart : A → A → Type 0
  Apart x y =
      (k.id x ≢ k.id y)
      × (k.live x ≡ true
          → k.live y ≡ true
          → (k.turf x ≢ k.turf y) × (k.canvasser x ≢ k.canvasser y))

  Apart-sym : (x y : A) → Apart x y → Apart y x
  Apart-sym x y (ids, holds) =
      (λ e. ids (sym e), λ q p. let (t, c) = holds p q in (λ e. t (sym e), λ e. c (sym e)))

  -- A change that keeps what a row holds, and makes no row live.
  abbrev pub Weakens : (A → A) → A → Type 0
  Weakens f x =
      (k.id (f x) ≡ k.id x)
      × (k.turf (f x) ≡ k.turf x)
      × (k.canvasser (f x) ≡ k.canvasser x)
      × (k.live (f x) ≡ true → k.live x ≡ true)

  Apart-weaken : (f : A → A) (x y : A) → Weakens f x → Weakens f y → Apart x y → Apart (f x) (f y)
  Apart-weaken f x y (i, t, c, l) (i', t', c', l') (ids, holds) =
      (rw (i, i') ids, λ p q. let (ht, hc) = holds (l p) (l' q) in (rw (t, t') ht, rw (c, c') hc))

  All-Apart :
      (f : A → A) (x : A) (xs : List A)
      → Weakens f x
      → All (Weakens f) xs
      → All (Apart x) xs
      → All (Apart (f x)) (map f xs)
  All-Apart f x [] w ws a = tt
  All-Apart f x (y ∷ ys) w ws a = (Apart-weaken f x y w ws.0 a.0, All-Apart f x ys w ws.1 a.1)

  pub Pairwise-Weakens :
      (f : A → A) (xs : List A) → All (Weakens f) xs → Pairwise Apart xs → Pairwise Apart (map f xs)
  Pairwise-Weakens f [] ws p = tt
  Pairwise-Weakens f (x ∷ xs) ws p =
      (All-Apart f x xs ws.0 ws.1 p.0, Pairwise-Weakens f xs ws.1 p.1)

  -- Each row is the one that was found, or stands apart from it.
  pub Pairwise-found :
      {x : A} {xs : List A} → Pairwise Apart xs → In x xs → All (λ y. (x ≡ y) ⊎ Apart x y) xs
  Pairwise-found p i = Pairwise-In Apart Apart-sym p i

  -- A live row that holds the turf for the canvasser, and one that holds it for anybody.
  abbrev pub holds : ℕ → ℕ → A → Bool
  holds turf canvasser x = k.canvasser x == canvasser && k.turf x == turf && k.live x

  abbrev pub holds_turf : ℕ → A → Bool
  holds_turf turf x = k.turf x == turf && k.live x
  -- What a test finds after a change, given what the change does to the test on each row.

module _ {A : Type 0} where
  pub any-map-true :
      (p q : A → Bool) (f : A → A) (xs : List A)
      → All (λ x. p x ≡ true → q (f x) ≡ true) xs
      → any p xs ≡ true
      → any q (map f xs) ≡ true
  any-map-true p q f [] h a = a
  any-map-true p q f (x ∷ xs) h a = elim (Bool-cases (p x)) [
    | inl e ↦ rw (h.0 e) refl
    | inr e ↦ ground (arith, any-map-true p q f xs h.1)
  ]

  pub any-map-false :
      (p q : A → Bool) (f : A → A) (xs : List A)
      → All (λ x. q (f x) ≡ true → p x ≡ true) xs
      → any p xs ≡ false
      → any q (map f xs) ≡ false
  any-map-false p q f [] h a = a
  any-map-false p q f (x ∷ xs) h a = elim (Bool-cases (q (f x))) [
    | inl e ↦ absurd (ground (arith, h.0 e))
    | inr e ↦ rw e (any-map-false p q f xs h.1 (ground arith))
  ]

  pub any-false : (p : A → Bool) (xs : List A) → All (λ x. p x ≡ false) xs → any p xs ≡ false
  any-false p [] h = refl
  any-false p (x ∷ xs) h = rw h.0 (any-false p xs h.1)

  pub any-none : (p : A → Bool) (xs : List A) → any p xs ≡ false → All (λ x. p x ≡ false) xs
  any-none p [] h = tt
  any-none p (x ∷ xs) h = (ground arith, any-none p xs (ground arith))
