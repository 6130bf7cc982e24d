-- ===== src/Mac/PendingTable/Keeps.antt =====
-- The calls that only touch the dirty marks and the update under way keep the slots, and every call
-- keeps the invariant.
use zigbee_rust_playground.Common.{
  ℕ, zero, suc, ◌<◌, ◌≡◌, refl, sym, ap, ◌∙◌, inl, inr, ◌==◌, Bool, true, false, Bool-cases, Option,
  none, some, List, [], ◌∷◌, length,
}
use zigbee_rust_playground.Common.Eq.{Eq}
use zigbee_rust_playground.Mac.PendingTable.{
  Entry, PendingTable, value_at, set_dirty, mark_used, assume_empty, finish_update,
  report_update_result, poll_update, set_pending, remove_value,
}
use zigbee_rust_playground.Mac.PendingTable.Slots.{IsTable, FreeFirst-cong}
use zigbee_rust_playground.Mac.PendingTable.View.{value_at-set_dirty}
use zigbee_rust_playground.Mac.PendingTable.Refine.{insert_value-lru, remove_value-lru}
use zigbee_rust_playground.Mac.PendingTable.Sync.{poll_update-cases, length-set_dirty}

module _ {T : Type 0} where
  length-mark_used : (table : List (Entry T)) → length (mark_used table) ≡ length table
  unfolding mark_used
  length-mark_used [] = refl
  length-mark_used (x ∷ xs) = ap suc (length-mark_used xs)

  value_at-mark_used :
      (table : List (Entry T)) (j : ℕ) → value_at (mark_used table) j ≡ value_at table j
  unfolding mark_used
  value_at-mark_used [] j = refl
  value_at-mark_used (x ∷ xs) zero = refl
  value_at-mark_used (x ∷ xs) (suc j) = value_at-mark_used xs j

  -- The slots hold the same values in the same order.
  pub record SameSlots (t u : PendingTable T) : Type 0 where
    pub values : u.values ≡ t.values
    pub order : u.order ≡ t.order
    pub size : length u.table ≡ length t.table
    pub slots : (j : ℕ) → value_at u.table j ≡ value_at t.table j

  SameSlots-refl : (t : PendingTable T) → SameSlots t t
  SameSlots-refl t = record { values = refl; order = refl; size = refl; slots = λ j. refl }

  pub assume_empty-SameSlots : (t : PendingTable T) → SameSlots t (assume_empty t)
  unfolding assume_empty
  assume_empty-SameSlots t = record {
    values = refl;
    order = refl;
    size = length-mark_used t.table;
    slots = value_at-mark_used t.table;
  }

  set_dirty-SameSlots :
      (t : PendingTable T) (d : Bool) (i : ℕ)
      → SameSlots t (record t { table = set_dirty d t.table i })
  set_dirty-SameSlots t d i = record {
    values = refl;
    order = refl;
    size = length-set_dirty d t.table i;
    slots = value_at-set_dirty d t.table i;
  }

  finish_update-SameSlots :
      (current index : ℕ) (result : Bool) (token : ℕ) (t : PendingTable T)
      → SameSlots t (finish_update current index result token t)
  unfolding finish_update
  finish_update-SameSlots current index result token t = elim (Bool-cases (token == current)) [
    | inr other ↦ rw other (SameSlots-refl t)
    | inl mine ↦ elim (Bool-cases result) [
      | inl done ↦
          simp (mine, done) (record { values = refl; order = refl; size = refl; slots = λ j. refl })
      | inr failed ↦
          let same = set_dirty-SameSlots t true index in
          simp (mine, failed)
            (record { values = refl; order = refl; size = same.size; slots = same.slots })
    ]
  ]

  answered :
      (key : ℕ) (success : Bool) (t : PendingTable T) (updating : Option (ℕ × ℕ))
      → SameSlots t (elim updating [
        | none ↦ t
        | some (current, index) ↦ finish_update current index success key t
      ])
  answered key success t none = SameSlots-refl t
  answered key success t (some (current, index)) =
      finish_update-SameSlots current index success key t

  pub report_update_result-SameSlots :
      (key : ℕ) (success : Bool) (t : PendingTable T)
      → SameSlots t (report_update_result key success t)
  unfolding report_update_result
  report_update_result-SameSlots key success t = answered key success t t.updating

module _ {T : Type 0} ⦃e : Eq T⦄ where
  pub SameSlots-IsTable : (n : ℕ) (t u : PendingTable T) → SameSlots t u → IsTable n t → IsTable n u
  SameSlots-IsTable n t u same inv = record {
    order = rw same.order inv.order;
    size = same.size ∙ inv.size;
    distinct = λ i j v p q. inv.distinct i j v (sym (same.slots i) ∙ p) (sym (same.slots j) ∙ q);
    known = λ i v p. rw same.values (inv.known i v (sym (same.slots i) ∙ p));
    free_first =
        rw same.order
          (FreeFirst-cong t.table u.table t.order (λ j p. sym (same.slots j)) inv.free_first);
  }

  pub poll_update-SameSlots :
      (key cx : ℕ) (t : PendingTable T) → SameSlots t (poll_update key cx t).1
  poll_update-SameSlots key cx t =
      elim (poll_update-cases key cx t (poll_update key cx t).1 (poll_update key cx t).0 refl) [
        | inl (p, q) ↦ rw q (record { values = refl; order = refl; size = refl; slots = λ j. refl })
        | inr (i, found, free, p, q) ↦
            let same = set_dirty-SameSlots t false i in
            rw q (record { values = refl; order = refl; size = same.size; slots = same.slots })
      ]

  -- `set` never panics on a table with slots, and keeps the invariant.
  pub set_pending-IsTable :
      (n : ℕ) (v : T) (inserted : Bool) (t : PendingTable T)
      → 0 < n
      → IsTable n t
      → (u : PendingTable T) × (set_pending v inserted t ≡ some u) × IsTable n u
  unfolding set_pending
  set_pending-IsTable n v true t pos inv =
      let (u, done, inv', lru) = insert_value-lru n v t pos inv in (u, rw done, inv')
  set_pending-IsTable n v false t pos inv =
      ((remove_value v t).0, refl, (remove_value-lru n v t inv).0)
