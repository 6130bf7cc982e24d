-- ===== src/Common/Eq.antt =====
-- `#[derive(PartialEq, Eq)]` on generic keys.
use mathlib.Core.Path.{◌≡◌, refl, sym, ap, ◌∙◌}
use mathlib.Core.Logic.{◌↔◌, inl, inr}
use mathlib.Core.Bool.{true≢false, Bool, true, false}
use mathlib.Core.List.{List, [], ◌∷◌}
use mathlib.Core.Option.{Option, none, some, some-injective}
use native.Mathlib.Omega.{arith}
use zigbee_rust_playground.Common.Tests.{if◌then◌else◌, Bool-cases}

pub record Eq {ℓ} (A : Type ℓ) : Type ℓ where
  pub beq : A → A → Bool
  pub beq_law : (x y : A) → (beq x y ≡ true) ↔ (x ≡ y)

module _ {ℓ} {A : Type ℓ} ⦃e : Eq A⦄ where
  pub beq_refl : (a : A) → e.beq a a ≡ true
  beq_refl a = (e.beq_law a a).1 refl

  pub beq_ne : (a b : A) → ¬ (a ≡ b) → e.beq a b ≡ false
  beq_ne a b h = elim (Bool-cases (e.beq a b)) [
    | inl hit ↦ absurd (h ((e.beq_law a b).0 hit))
    | inr miss ↦ miss
  ]

  pub beq_false-sym : (a b : A) → e.beq a b ≡ false → e.beq b a ≡ false
  beq_false-sym a b h =
      beq_ne b a λ same. absurd (true≢false (sym (beq_refl a) ∙ ap (e.beq a) (sym same) ∙ h))

  -- A `HashSet` as a list without duplicates.
  unfoldable pub contains : List A → A → Bool
  contains [] v = false
  contains (x ∷ xs) v = if e.beq x v then true else contains xs v

  unfoldable pub insert : A → List A → List A
  unfolding contains
  insert v xs = if contains xs v then xs else v ∷ xs

  unfoldable pub remove : A → List A → List A
  remove v [] = []
  remove v (x ∷ xs) = if e.beq x v then remove v xs else x ∷ remove v xs

abbrev pub option_beq : {A : Type 0} → (A → A → Bool) → Option A → Option A → Bool
option_beq f none none = true
option_beq f none (some b) = false
option_beq f (some a) none = false
option_beq f (some a) (some b) = f a b

pub option_beq_law :
    {A : Type 0} ⦃e : Eq A⦄ (x y : Option A) → (option_beq e.beq x y ≡ true) ↔ (x ≡ y)
option_beq_law none none = ((λ h. refl), (λ h. refl))
option_beq_law none (some b) =
    ((λ h. absurd (ground (arith, h))), (λ h. absurd (ground (arith, h))))
option_beq_law (some a) none =
    ((λ h. absurd (ground (arith, h))), (λ h. absurd (ground (arith, h))))
option_beq_law ⦃e⦄ (some a) (some b) =
    ((λ h. ap some ((e.beq_law a b).0 h)), (λ h. (e.beq_law a b).1 (some-injective a b h)))

instance abbrev pub option_eq : {A : Type 0} ⦃e : Eq A⦄ → Eq (Option A)
option_eq ⦃e⦄ = record { beq = λ x y. option_beq e.beq x y; beq_law = option_beq_law }
