-- ===== src/Prelude/Effect.antt =====
-- Code that works on a state and can fail: a `&mut self` method, or a function that calls the
-- system. `Ends` says what holds of its result and of the state that it leaves.
use mathlib.Core.Path.{◌≡◌, refl}
use mathlib.Core.List.{List, [], ◌∷◌}
use ferro_wg.Prelude.Fallible.{Result, ok, err}

abbrev pub Eff {ℓ κ μ} : Type ℓ → Type κ → Type μ → Type (ℓ ⊔ κ ⊔ μ)
Eff S E A = S → Result A E × S

module _ {ℓ κ μ} {S : Type ℓ} {E : Type κ} {A : Type μ} where
  abbrev pub pure : A → Eff S E A
  pure a s = (ok a, s)

  -- A result that does not depend on the state, with its `?`.
  abbrev pub lift : Result A E → Eff S E A
  lift r s = (r, s)

  -- The state is read.
  abbrev pub gets : (S → A) → Eff S E A
  gets f s = (ok (f s), s)

module _ {ℓ κ μ ν} {S : Type ℓ} {E : Type κ} {A : Type μ} {B : Type ν} where
  abbrev pub bind_result : Result A E × S → (A → Eff S E B) → Result B E × S
  bind_result (ok a, s) f = f a s
  bind_result (err e, s) f = (err e, s)

  abbrev pub ◌>>=◌ : Eff S E A → (A → Eff S E B) → Eff S E B
  ◌>>=◌ m f s = bind_result (m s) f

infixl 5 ◌>>=◌ ◌>>◌
module _ {ℓ κ ν} {S : Type ℓ} {E : Type κ} {B : Type ν} where
  abbrev pub ◌>>◌ : Eff S E (Unit {0}) → Eff S E B → Eff S E B
  ◌>>◌ m k = m >>= λ _. k

module _ {ℓ κ μ ν} {S : Type ℓ} {E : Type κ} {A : Type μ} {F : Type ν} where
  abbrev pub map_err_result : (E → F) → Result A E × S → Result A F × S
  map_err_result f (ok a, s) = (ok a, s)
  map_err_result f (err e, s) = (err (f e), s)

  abbrev pub with_err : (E → F) → Eff S E A → Eff S F A
  with_err f m s = map_err_result f (m s)

  -- The error becomes a value, for code that matches on it.
  abbrev pub attempt : Eff S E A → Eff S F (Result A E)
  attempt m s = (ok (m s).0, (m s).1)

  -- An error that is logged at most.
  abbrev pub ignore : Eff S E A → Eff S F (Unit {0})
  ignore m s = (ok tt, (m s).1)

module _ {ℓ κ μ} {S : Type ℓ} {E : Type κ} {A : Type μ} where
  -- `for a in list { body(a)?; }`
  abbrev pub for_each : (A → Eff S E (Unit {0})) → List A → Eff S E (Unit {0})
  for_each f [] = pure tt
  for_each f (a ∷ rest) = f a >> for_each f rest

module _ {ℓ κ μ} {S : Type ℓ} {E : Type κ} {A : Type μ} where
  -- What holds of a value and the state it comes with, or of an error and its state.
  abbrev pub Ends {ν} : (A → S → Type ν) → (E → S → Type ν) → Result A E × S → Type ν
  Ends Q R (ok a, s) = Q a s
  Ends Q R (err e, s) = R e s

module _ {ℓ κ μ ν ρ} {S : Type ℓ} {E : Type κ} {A : Type μ} {B : Type ν} where
  pub bind-Ends :
      (Q : B → S → Type ρ) (R : E → S → Type ρ) (r : Result A E × S) (f : A → Eff S E B)
      → Ends (λ a s. Ends Q R (f a s)) R r
      → Ends Q R (bind_result r f)
  bind-Ends Q R (ok a, s) f h = h
  bind-Ends Q R (err e, s) f h = h

  -- The rule for a step of which nothing needs to be known.
  pub bind-Ends_all :
      (Q : B → S → Type ρ) (R : E → S → Type ρ) (r : Result A E × S) (f : A → Eff S E B)
      → ((a : A) (s : S) → Ends Q R (f a s))
      → ((e : E) (s : S) → R e s)
      → Ends Q R (bind_result r f)
  bind-Ends_all Q R (ok a, s) f h g = h a s
  bind-Ends_all Q R (err e, s) f h g = g e s

  -- The rule for a result that the state has no part in.
  pub bind-Ends_lift :
      (Q : B → S → Type ρ) (R : E → S → Type ρ) (r : Result A E) (f : A → Eff S E B) (s : S)
      → ((a : A) → r ≡ ok a → Ends Q R (f a s))
      → ((e : E) → r ≡ err e → R e s)
      → Ends Q R (bind_result (r, s) f)
  bind-Ends_lift Q R (ok a) f s h g = h a refl
  bind-Ends_lift Q R (err e) f s h g = g e refl

module _ {ℓ κ μ ρ} {S : Type ℓ} {E : Type κ} {A : Type μ} where
  pub Ends-map :
      (Q Q' : A → S → Type ρ) (R R' : E → S → Type ρ) (r : Result A E × S)
      → ((a : A) (s : S) → Q a s → Q' a s)
      → ((e : E) (s : S) → R e s → R' e s)
      → Ends Q R r
      → Ends Q' R' r
  Ends-map Q Q' R R' (ok a, s) f g h = f a s h
  Ends-map Q Q' R R' (err e, s) f g h = g e s h
