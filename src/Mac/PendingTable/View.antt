-- ===== src/Mac/PendingTable/View.antt =====
-- What the table stores, in the order of the slots, and how lookups and writes show in it.
use zigbee_rust_playground.Common.{
  ℕ, zero, suc, ◌+◌, ◌<◌, ◌≡◌, ◌≢◌, refl, sym, ap, ◌∙◌, arith, ◌==◌, if◌then◌else◌, Bool, true,
  false, Bool-cases, inl, inr, Option, none, some, List, [], ◌∷◌, ◌++◌, append_assoc, Option-cases,
  length, set,
}
use native.Mathlib.Decide.{ℕ_discrete}
use zigbee_rust_playground.Common.Eq.{Eq, beq_refl, beq_ne, contains, remove}
use zigbee_rust_playground.Mac.PendingTable.{
  Entry, value_at, set_dirty, holds, get_index, retain_ne,
}
use zigbee_rust_playground.Mac.PendingTable.Order.{count}

abbrev pub opt_list {ℓ} : {A : Type ℓ} → Option A → List A
opt_list none = []
opt_list (some a) = a ∷ []

module _ {T : Type 0} where
  -- The stored values, the first to be overwritten first.
  abbrev pub view : List (Entry T) → List ℕ → List T
  view table [] = []
  view table (i ∷ is) = opt_list (value_at table i) ++ view table is

  pub value_at-set :
      (table : List (Entry T)) (i j : ℕ) (x : Entry T)
      → i < length table
      → value_at (set table i x) j ≡ (if i == j then x.value else value_at table j)
  value_at-set [] i j x h = elim h [ ]
  value_at-set (y ∷ ys) zero zero x h = refl
  value_at-set (y ∷ ys) zero (suc j) x h = ground arith
  value_at-set (y ∷ ys) (suc i) zero x h = ground arith
  value_at-set (y ∷ ys) (suc i) (suc j) x h = value_at-set ys i j x (omega arith) ∙ ground arith

  pub value_at-lt :
      (table : List (Entry T)) (i : ℕ) (v : T) → value_at table i ≡ some v → i < length table
  value_at-lt [] i v h = cc
  value_at-lt (y ∷ ys) zero v h = omega arith
  value_at-lt (y ∷ ys) (suc i) v h = omega (arith, value_at-lt ys i v h)

  pub value_at-set_dirty :
      (d : Bool) (table : List (Entry T)) (i j : ℕ)
      → value_at (set_dirty d table i) j ≡ value_at table j
  value_at-set_dirty d [] i j = refl
  value_at-set_dirty d (y ∷ ys) zero zero = refl
  value_at-set_dirty d (y ∷ ys) zero (suc j) = refl
  value_at-set_dirty d (y ∷ ys) (suc i) zero = refl
  value_at-set_dirty d (y ∷ ys) (suc i) (suc j) = value_at-set_dirty d ys i j

  pub view-append :
      (table : List (Entry T)) (is js : List ℕ)
      → view table (is ++ js) ≡ view table is ++ view table js
  view-append table [] js = refl
  view-append table (i ∷ is) js =
      ap (◌++◌ (opt_list (value_at table i))) (view-append table is js)
      ∙ sym (append_assoc (opt_list (value_at table i)) (view table is) (view table js))

  -- The view looks at the table only through the slots' values.
  pub view-cong :
      (table table' : List (Entry T)) (is : List ℕ)
      → ((i : ℕ) → 0 < count i is → value_at table i ≡ value_at table' i)
      → view table is ≡ view table' is
  view-cong table table' [] h = refl
  view-cong table table' (i ∷ is) h = rw (h i (ground arith)) (
      ap (◌++◌ (opt_list (value_at table' i)))
        (view-cong table table' is (λ j p. h j (omega arith))))

module _ {T : Type 0} ⦃e : Eq T⦄ where
  holds→value : (x : Entry T) (v : T) → holds x v ≡ true → x.value ≡ some v
  holds→value x v h = elim (Option-cases x.value) [
    | inl empty ↦ cc (h, empty)
    | inr (w, full) ↦ full ∙ ap some ((e.beq_law w v).0 (rw full at h))
  ]

  value→holds : (x : Entry T) (v : T) → x.value ≡ some v → holds x v ≡ true
  value→holds x v h = rw h (beq_refl v)

  -- A lookup finds the slot of a value, if there is one.
  pub get_index-some :
      (v : T) (table : List (Entry T)) (from i : ℕ)
      → get_index v table from ≡ some i
      → (j : ℕ) × (i ≡ from + j) × (value_at table j ≡ some v)
  unfolding get_index
  get_index-some v [] from i h = cc
  get_index-some v (x ∷ xs) from i h = elim (Bool-cases (holds x v)) [
    | inl hit ↦ (0, ground arith, holds→value x v hit)
    | inr miss ↦
        let (j, e1, e2) = get_index-some v xs (suc from) i (ground arith) in
        (suc j, omega arith, e2)
  ]

  pub get_index-none :
      (v : T) (table : List (Entry T)) (from i : ℕ)
      → get_index v table from ≡ none
      → value_at table i ≢ some v
  unfolding get_index
  get_index-none v [] from i h = λ q. cc
  get_index-none v (x ∷ xs) from zero h = λ q. ground (arith, value→holds x v q)
  get_index-none v (x ∷ xs) from (suc i) h = get_index-none v xs (suc from) i (ground arith)

  -- A value that only the slot `i` holds leaves the view with the slot.
  pub view-retain_ne :
      (v : T) (table : List (Entry T)) (i : ℕ) (is : List ℕ)
      → value_at table i ≡ some v
      → ((j : ℕ) → value_at table j ≡ some v → j ≡ i)
      → view table (retain_ne i is) ≡ remove v (view table is)
  unfolding retain_ne remove
  view-retain_ne v table i [] h only = refl
  view-retain_ne v table i (x ∷ xs) h only = elim (ℕ_discrete x i) [
    | yes same ↦
        let here : value_at table x ≡ some v = ap (value_at table) same ∙ h in
        ground (arith, here, beq_refl v, view-retain_ne v table i xs h only)
    | no other ↦ elim (Option-cases (value_at table x)) [
      | inl empty ↦ ground (arith, empty, view-retain_ne v table i xs h only)
      | inr (w, full) ↦
          let differs : e.beq w v ≡ false = beq_ne w v λ q. other (only x (full ∙ ap some q)) in
          ground (arith, full, differs, view-retain_ne v table i xs h only)
    ]
  ]

  pub contains-view :
      (v : T) (table : List (Entry T)) (i : ℕ) (is : List ℕ)
      → value_at table i ≡ some v
      → 0 < count i is
      → contains (view table is) v ≡ true
  unfolding contains
  contains-view v table i [] h c = elim c [ ]
  contains-view v table i (x ∷ xs) h c = elim (ℕ_discrete x i) [
    | yes same ↦
        let here : value_at table x ≡ some v = ap (value_at table) same ∙ h in rw (here, beq_refl v)
    | no other ↦ elim (Option-cases (value_at table x)) [
      | inl empty ↦ rw empty (contains-view v table i xs h (ground arith))
      | inr (w, full) ↦ ground (arith, full, contains-view v table i xs h)
    ]
  ]

  pub contains-view_absent :
      (v : T) (table : List (Entry T)) (is : List ℕ)
      → ((j : ℕ) → value_at table j ≢ some v)
      → contains (view table is) v ≡ false
  unfolding contains
  contains-view_absent v table [] absent = refl
  contains-view_absent v table (x ∷ xs) absent = elim (Option-cases (value_at table x)) [
    | inl empty ↦ rw empty (contains-view_absent v table xs absent)
    | inr (w, full) ↦
        rw (full, beq_ne w v λ q. absent x (full ∙ ap some q))
          (contains-view_absent v table xs absent)
  ]
