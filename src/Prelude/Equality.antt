-- ===== src/Prelude/Equality.antt =====
-- Equality tests as an interface, text, and the sets and maps that the code takes from Rust's
-- collections: a `HashSet` is a list read only through `contains`, a map an association list.
use Prim.Native.Nat.{ℕ}
use Prim.Native.Char.{code}
use Prim.Native.String.{String}
use mathlib.Core.Path.{◌≡◌, refl}
use mathlib.Core.Logic.{◌↔◌, inl, inr}
use mathlib.Core.Bool.{Bool, true, false, not, ◌&&◌, ◌||◌}
use mathlib.Core.Option.{Option, none, some}
use mathlib.Core.List.{List, [], ◌∷◌}
use native.Mathlib.Omega.{arith}
use ferro_wg.Prelude.Tests.{nat_beq, nat_beq_iff, if◌then◌else◌, Bool-cases}
use ferro_wg.Prelude.Lists.{filter}

pub record Eq {ℓ} (A : Type ℓ) : Type ℓ where
  pub beq : (x y : A) → Bool
  -- the test decides equality
  pub beq_iff : (x y : A) → (beq x y ≡ true) ↔ (x ≡ y)

-- A Rust `str`: its characters, as code points.
abbrev pub Text : Type 0
Text = List ℕ

unfoldable pub text_beq : Text → Text → Bool
text_beq [] [] = true
text_beq (x ∷ xs) (y ∷ ys) = nat_beq x y && text_beq xs ys
text_beq _ _ = false

pub text_beq_iff : (a b : Text) → (text_beq a b ≡ true) ↔ (a ≡ b)
unfolding text_beq
text_beq_iff (x ∷ a) (y ∷ b) = ground (arith, text_beq_iff a b)
text_beq_iff _ _ = ground arith

abbrev pub ◌==◌ {ℓ} : {A : Type ℓ} ⦃e : Eq A⦄ (x y : A) → Bool
◌==◌ ⦃e⦄ x y = e.beq x y

infix 50 ◌==◌
instance abbrev pub nat_eq : Eq ℕ
nat_eq = record { beq = nat_beq; beq_iff = nat_beq_iff }

instance abbrev pub text_eq : Eq Text
text_eq = record { beq = text_beq; beq_iff = text_beq_iff }

-- A text literal of the source, as code points.
abbrev pub codes : String → Text
codes String.[] = []
codes (String.◌∷◌ c s) = code c ∷ codes s

module _ {ℓ} {A : Type ℓ} ⦃e : Eq A⦄ where
  pub ==_refl : (a : A) → (a == a) ≡ true
  ==_refl a = (e.beq_iff a a).1 refl

  unfoldable pub contains : List A → A → Bool
  contains [] a = false
  contains (x ∷ xs) a = x == a || contains xs a

  -- `HashSet::insert`
  unfoldable pub set_insert : A → List A → List A
  set_insert a xs = if contains xs a then xs else a ∷ xs

  -- `HashSet::remove`
  unfoldable pub set_remove : A → List A → List A
  set_remove a xs = filter (λ x. not (x == a)) xs

  -- No element comes twice.
  abbrev pub IsDistinct : List A → Type 0
  IsDistinct [] = Unit
  IsDistinct (x ∷ xs) = (contains xs x ≡ false) × IsDistinct xs

  pub contains-insert :
      (a b : A) (xs : List A) → contains (set_insert a xs) b ≡ (a == b || contains xs b)
  unfolding set_insert contains
  contains-insert a b xs = elim (Bool-cases (contains xs a)) [
    | inl old ↦ rw old (ground (arith, e.beq_iff a b, old))
    | inr new ↦ rw new
  ]

  pub contains-remove :
      (a b : A) (xs : List A) → contains (set_remove a xs) b ≡ (not (a == b) && contains xs b)
  unfolding set_remove contains
  contains-remove a b [] = ground arith
  contains-remove a b (x ∷ xs) = ground (
    arith,
    contains-remove a b xs,
    e.beq_iff x a,
    e.beq_iff x b,
    e.beq_iff a b,
    ==_refl a,
    ==_refl b,
  )

module _ {ℓ κ} {K : Type ℓ} ⦃e : Eq K⦄ {V : Type κ} where
  unfoldable pub lookup : K → List (K × V) → Option V
  lookup k [] = none
  lookup k ((j, v) ∷ m) = if j == k then some v else lookup k m

  -- `HashMap::insert`: one entry for each key.
  unfoldable pub map_insert : K → V → List (K × V) → List (K × V)
  map_insert k v [] = (k, v) ∷ []
  map_insert k v ((j, w) ∷ m) = if j == k then (k, v) ∷ m else (j, w) ∷ map_insert k v m

  pub lookup-insert :
      (k j : K) (v : V) (m : List (K × V))
      → lookup j (map_insert k v m) ≡ (if k == j then some v else lookup j m)
  unfolding lookup map_insert
  lookup-insert k j v [] = refl
  lookup-insert k j v ((i, w) ∷ m) =
      ground (arith, e.beq_iff k j, e.beq_iff i k, e.beq_iff i j, lookup-insert k j v m)
