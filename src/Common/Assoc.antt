-- ===== src/Common/Assoc.antt =====
-- A `HashMap` as a list of pairs. The standard library leaves the order of an iteration open; here it
-- is that of the list, where a new key comes last.
use mathlib.Core.Path.{◌≡◌, refl, ap, ◌∙◌, subst}
use mathlib.Core.Logic.{inl, inr}
use mathlib.Core.Bool.{true, false}
use mathlib.Core.Option.{Option, none, some}
use mathlib.Core.Option
use mathlib.Core.List.{List, [], ◌∷◌}
use native.Mathlib.Omega.{arith}
use zigbee_rust_playground.Common.Tests.{if◌then◌else◌, Bool-cases}
use zigbee_rust_playground.Common.Eq.{Eq, beq_false-sym}

module _ {K : Type 0} ⦃e : Eq K⦄ where
  -- Two keys that equal the same one.
  beq_same : (a b c : K) → e.beq a b ≡ true → e.beq a c ≡ e.beq b c
  beq_same a b c h = let same : a ≡ b = (e.beq_law a b).0 h in ap (λ x. e.beq x c) same

  beq_apart : (a b c : K) → e.beq a b ≡ false → e.beq b c ≡ true → e.beq a c ≡ false
  beq_apart a b c h h' = let same : b ≡ c = (e.beq_law b c).0 h' in rw (← same) h

module _ {K V : Type 0} ⦃e : Eq K⦄ where
  -- `get`
  unfoldable pub lookup : K → List (K × V) → Option V
  lookup k [] = none
  lookup k ((k', v) ∷ m) = if e.beq k' k then some v else lookup k m

  -- `insert`
  unfoldable pub store : K → V → List (K × V) → List (K × V)
  store k v [] = (k, v) ∷ []
  store k v ((k', v') ∷ m) = if e.beq k' k then (k', v) ∷ m else (k', v') ∷ store k v m

  -- `remove`
  unfoldable pub erase : K → List (K × V) → List (K × V)
  erase k [] = []
  erase k ((k', v) ∷ m) = if e.beq k' k then erase k m else (k', v) ∷ erase k m

  pub lookup-store :
      (j k : K) (v : V) (m : List (K × V))
      → lookup j (store k v m) ≡ (if e.beq k j then some v else lookup j m)
  unfolding lookup store
  lookup-store j k v [] = refl
  lookup-store j k v ((k', v') ∷ m) = elim (Bool-cases (e.beq k' k)) [
    | inl same ↦ ground (arith, same, beq_same k' k j same)
    | inr other ↦ elim (Bool-cases (e.beq k j)) [
      | inl hit ↦
          let miss : e.beq k' j ≡ false = beq_apart k' k j other hit in
          ground (arith, other, hit, miss, lookup-store j k v m)
      | inr miss ↦ ground (arith, other, miss, lookup-store j k v m)
    ]
  ]

  pub lookup-erase :
      (j k : K) (m : List (K × V)) → lookup j (erase k m) ≡ (if e.beq k j then none else lookup j m)
  unfolding lookup erase
  lookup-erase j k [] = ground arith
  lookup-erase j k ((k', v') ∷ m) = elim (Bool-cases (e.beq k' k)) [
    | inl same ↦ ground (arith, same, beq_same k' k j same, lookup-erase j k m)
    | inr other ↦ elim (Bool-cases (e.beq k j)) [
      | inl hit ↦
          let miss : e.beq k' j ≡ false = beq_apart k' k j other hit in
          ground (arith, other, hit, miss, lookup-erase j k m)
      | inr miss ↦ ground (arith, other, miss, lookup-erase j k m)
    ]
  ]

  -- What holds of every value.
  abbrev pub AllValues : (V → Type 0) → List (K × V) → Type 0
  AllValues P [] = Unit {0}
  AllValues P ((k, v) ∷ m) = P v × AllValues P m

  pub AllValues-lookup :
      (P : V → Type 0) (k : K) (v : V) (m : List (K × V))
      → AllValues P m
      → lookup k m ≡ some v
      → P v
  unfolding lookup
  AllValues-lookup P k v [] a h = absurd (ground (arith, h))
  AllValues-lookup P k v ((k', v') ∷ m) (p, a) h = elim (Bool-cases (e.beq k' k)) [
    | inl same ↦ subst P {x = v'} {y = v} (ground (arith, h, same)) p
    | inr other ↦ AllValues-lookup P k v m a (ground (arith, h, other))
  ]

  pub AllValues-store :
      (P : V → Type 0) (k : K) (v : V) (m : List (K × V))
      → P v
      → AllValues P m
      → AllValues P (store k v m)
  unfolding store
  AllValues-store P k v [] p a = (p, a)
  AllValues-store P k v ((k', v') ∷ m) p (p', a) = elim (Bool-cases (e.beq k' k)) [
    | inl same ↦ rw same (p, a)
    | inr other ↦ rw other (p', AllValues-store P k v m p a)
  ]

  pub AllValues-erase :
      (P : V → Type 0) (k : K) (m : List (K × V)) → AllValues P m → AllValues P (erase k m)
  unfolding erase
  AllValues-erase P k [] a = a
  AllValues-erase P k ((k', v') ∷ m) (p, a) = elim (Bool-cases (e.beq k' k)) [
    | inl same ↦ rw same (AllValues-erase P k m a)
    | inr other ↦ rw other (p, AllValues-erase P k m a)
  ]

module _ {K V : Type 0} where
  -- `iter_mut` over the values.
  unfoldable pub map_values : (V → V) → List (K × V) → List (K × V)
  map_values f [] = []
  map_values f ((k, v) ∷ m) = (k, f v) ∷ map_values f m

module _ {K V : Type 0} ⦃e : Eq K⦄ where
  pub lookup-map_values :
      (f : V → V) (k : K) (m : List (K × V)) → lookup k (map_values f m) ≡ Option.map f (lookup k m)
  unfolding lookup map_values
  lookup-map_values f k [] = refl
  lookup-map_values f k ((k', v) ∷ m) = elim (Bool-cases (e.beq k' k)) [
    | inl same ↦ rw same refl
    | inr other ↦ rw other (lookup-map_values f k m)
  ]

  -- One pair for each key.
  abbrev pub AreDistinct : List (K × V) → Type 0
  AreDistinct [] = Unit {0}
  AreDistinct ((k, v) ∷ m) = (lookup k m ≡ none) × AreDistinct m

  pub AreDistinct-store :
      (k : K) (v : V) (m : List (K × V)) → AreDistinct m → AreDistinct (store k v m)
  unfolding store
  AreDistinct-store k v [] a = (unfold lookup in refl, tt)
  AreDistinct-store k v ((k', v') ∷ m) (a1, a2) = elim (Bool-cases (e.beq k' k)) [
    | inl same ↦ rw same (a1, a2)
    | inr other ↦
        rw other
          (lookup-store k' k v m ∙ simp (beq_false-sym k' k other) a1, AreDistinct-store k v m a2)
  ]

  pub AreDistinct-map_values :
      (f : V → V) (m : List (K × V)) → AreDistinct m → AreDistinct (map_values f m)
  unfolding map_values
  AreDistinct-map_values f [] a = a
  AreDistinct-map_values f ((k, v) ∷ m) (a1, a2) =
      (lookup-map_values f k m ∙ rw a1 refl, AreDistinct-map_values f m a2)
