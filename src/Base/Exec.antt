-- ===== src/Base/Exec.antt =====
-- Statements that read and change a state. A run either finishes with a value and a new state,
-- or does what C leaves undefined: an access out of bounds, or through a null or wild pointer.
use mathlib.Core.Path.{◌≡◌, refl, sym, ◌∙◌}
use native.Mathlib.Omega.{arith}
use mathlib.Core.Logic.{◌⊎◌, inl, inr}

pub data Outcome {ℓ} (A : Type ℓ) : Type ℓ where
  done : A → Outcome A
  undefined : Outcome A

abbrev pub Exec : Type 0 → Type 0 → Type 0
Exec S A = S → Outcome (A × S)

module _ {S : Type 0} where
  infixl 5 ◌>>=◌ ◌>>◌
  abbrev pub pure : {A : Type 0} → A → Exec S A
  pure a s = done (a, s)

  abbrev pub fault : {A : Type 0} → Exec S A
  fault s = undefined

  abbrev pub ◌>>=◌ : {A B : Type 0} → Exec S A → (A → Exec S B) → Exec S B
  ◌>>=◌ m f s = elim (m s) [ done (a, s') ↦ f a s' | undefined ↦ undefined ]

  abbrev pub ◌>>◌ : {B : Type 0} → Exec S (Unit {0}) → Exec S B → Exec S B
  m >> k = m >>= λ _. k

  -- A call that always returns.
  abbrev pub sys : {A : Type 0} → (S → A × S) → Exec S A
  sys f s = done (f s)

  -- A step that finishes hands its value and its state to the rest.
  pub >>=-done :
      {A B : Type 0} (m : Exec S A) (f : A → Exec S B) {s t : S} {a : A}
      → m s ≡ done (a, t)
      → (m >>= f) s ≡ f a t
  >>=-done m f e = rw (e, ◌>>=◌)

  -- To split on how a step ends and keep the equation.
  pub Exec-cases :
      {A : Type 0} (o : Outcome (A × S)) → (o ≡ undefined) ⊎ ((a : A) × (t : S) × (o ≡ done (a, t)))
  Exec-cases undefined = inl refl
  Exec-cases (done (a, t)) = inr (a, t, refl)

  -- A sequence that finishes is two steps that finish.
  pub >>=-eq-done :
      {A B : Type 0} (m : Exec S A) (f : A → Exec S B) {s t : S} {b : B}
      → (m >>= f) s ≡ done (b, t)
      → (a : A) × (s1 : S) × (m s ≡ done (a, s1)) × (f a s1 ≡ done (b, t))
  >>=-eq-done m f {s} h = elim (Exec-cases (m s)) [
    | inl e ↦ absurd (ground (arith, e))
    | inr (a, s1, e) ↦ (a, s1, e, sym (>>=-done m f e) ∙ h)
  ]

  pub pure-eq-done : {A : Type 0} {a b : A} {s t : S} → pure a s ≡ done (b, t) → (a ≡ b) × (s ≡ t)
  pure-eq-done h = ground arith
