-- ===== src/Mac/PendingTable/Slots.antt =====
-- The invariant of the table, and the moves of one slot that keep it.
use zigbee_rust_playground.Common.{
  ℕ, ◌<◌, ◌≡◌, sym, ◌∙◌, arith, ◌==◌, true, false, is_some, Bool-cases, inl, inr, some, List, [],
  ◌∷◌, ◌++◌, length, All, All-append,
}
use zigbee_rust_playground.Common.Eq.{Eq, beq_refl, beq_ne, contains, insert, remove}
use zigbee_rust_playground.Mac.PendingTable.{Entry, PendingTable, value_at, retain_ne}
use zigbee_rust_playground.Mac.PendingTable.Order.{count, IsOrder}

module _ {T : Type 0} where
  abbrev pub IsUsed : List (Entry T) → ℕ → Type 0
  IsUsed table i = is_some (value_at table i) ≡ true

  -- Slots that hold no value come first in the order.
  abbrev pub FreeFirst : List (Entry T) → List ℕ → Type 0
  FreeFirst table [] = Unit {0}
  FreeFirst table (i ∷ is) = (IsUsed table i → All (IsUsed table) is) × FreeFirst table is

  pub IsUsed-cong :
      (table table' : List (Entry T)) (is : List ℕ)
      → ((i : ℕ) → 0 < count i is → value_at table i ≡ value_at table' i)
      → All (IsUsed table) is
      → All (IsUsed table') is
  IsUsed-cong table table' [] h a = tt
  IsUsed-cong table table' (i ∷ is) h (u, a) =
      (rw (h i (ground arith)) at u, IsUsed-cong table table' is (λ j p. h j (omega arith)) a)

  pub FreeFirst-cong :
      (table table' : List (Entry T)) (is : List ℕ)
      → ((i : ℕ) → 0 < count i is → value_at table i ≡ value_at table' i)
      → FreeFirst table is
      → FreeFirst table' is
  FreeFirst-cong table table' [] h f = tt
  FreeFirst-cong table table' (i ∷ is) h (u, f) = (
    (λ used.
        IsUsed-cong table table' is (λ j p. h j (omega arith)) (u (rw (h i (ground arith)) used))),
    FreeFirst-cong table table' is (λ j p. h j (omega arith)) f,
  )

  IsUsed-retain_ne :
      (table : List (Entry T)) (i : ℕ) (is : List ℕ)
      → All (IsUsed table) is
      → All (IsUsed table) (retain_ne i is)
  unfolding retain_ne
  IsUsed-retain_ne table i [] a = tt
  IsUsed-retain_ne table i (x ∷ xs) (u, a) = ground (arith, IsUsed-retain_ne table i xs a)

  pub FreeFirst-retain_ne :
      (table : List (Entry T)) (i : ℕ) (is : List ℕ)
      → FreeFirst table is
      → FreeFirst table (retain_ne i is)
  unfolding retain_ne
  FreeFirst-retain_ne table i [] f = tt
  FreeFirst-retain_ne table i (x ∷ xs) (u, f) = elim (Bool-cases (x == i)) [
    | inl same ↦ rw same (FreeFirst-retain_ne table i xs f)
    | inr other ↦
        rw other ((λ used. IsUsed-retain_ne table i xs (u used)), FreeFirst-retain_ne table i xs f)
  ]

  pub FreeFirst-append_used :
      (table : List (Entry T)) (i : ℕ) (is : List ℕ)
      → IsUsed table i
      → FreeFirst table is
      → FreeFirst table (is ++ (i ∷ []))
  FreeFirst-append_used table i [] used f = ((λ _. tt), tt)
  FreeFirst-append_used table i (x ∷ xs) used (u, f) = (
    (λ q. All-append (IsUsed table) xs (i ∷ []) (u q) (used, tt)),
    FreeFirst-append_used table i xs used f,
  )

  -- A slot that holds a value may go to the end.
  pub FreeFirst-promoted :
      (table : List (Entry T)) (i : ℕ) (is : List ℕ)
      → IsUsed table i
      → FreeFirst table is
      → FreeFirst table (retain_ne i is ++ (i ∷ []))
  FreeFirst-promoted table i is used f =
      FreeFirst-append_used table i (retain_ne i is) used (FreeFirst-retain_ne table i is f)

module _ {T : Type 0} ⦃e : Eq T⦄ where
  -- The invariant of a table of `n` slots: the order is one, a value has one slot at most and is in
  -- the set of values, and slots that hold no value are overwritten first.
  pub record IsTable (n : ℕ) (t : PendingTable T) : Type 0 where
    pub order : IsOrder n t.order
    pub size : length t.table ≡ n
    pub distinct :
        (i j : ℕ) (v : T) → value_at t.table i ≡ some v → value_at t.table j ≡ some v → j ≡ i
    pub known : (i : ℕ) (v : T) → value_at t.table i ≡ some v → contains t.values v ≡ true
    pub free_first : FreeFirst t.table t.order

  pub contains-insert :
      (v w : T) (xs : List T) → contains xs w ≡ true → contains (insert v xs) w ≡ true
  unfolding contains insert
  contains-insert v w xs h = ground arith

  pub contains-insert_self : (v : T) (xs : List T) → contains (insert v xs) v ≡ true
  unfolding contains insert
  contains-insert_self v xs = ground (arith, beq_refl v)

  pub contains-remove_ne :
      (v w : T) (xs : List T) → ¬ (w ≡ v) → contains xs w ≡ true → contains (remove v xs) w ≡ true
  unfolding contains remove
  contains-remove_ne v w [] ne h = cc
  contains-remove_ne v w (x ∷ xs) ne h = elim (Bool-cases (e.beq x v)) [
    | inl same ↦
        let differs : e.beq x w ≡ false = beq_ne x w λ q. ne (sym q ∙ (e.beq_law x v).0 same) in
        ground (arith, same, differs, contains-remove_ne v w xs ne)
    | inr other ↦ ground (arith, other, contains-remove_ne v w xs ne)
  ]
