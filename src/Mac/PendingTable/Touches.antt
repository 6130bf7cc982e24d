-- ===== src/Mac/PendingTable/Touches.antt =====
-- Every write to the table marks its slot dirty, and no call but a poll or an answer touches the
-- update under way.
use zigbee_rust_playground.Common.{
  ℕ, zero, suc, ◌≡◌, refl, arith, ltb, Bool, true, false, is_some, Bool-cases, Option-cases, inl,
  inr, some, List, [], ◌∷◌, ◌++◌, length, set, length-set,
}
use mathlib.Core.Path.{subst}
use zigbee_rust_playground.Common.Eq.{Eq, contains, insert, remove}
use zigbee_rust_playground.Mac.PendingTable.{
  Entry, PendingTable, retain_ne, new_entry, default_entry, value_at, dirty_at, get_index,
  take_slot, promote, insert_value, free_slot, remove_value, wake_if_free, promote_index,
  demote_index, first,
}

module _ {T : Type 0} where
  -- Every slot that changed is dirty, and the update under way is the same.
  pub record Touches (t u : PendingTable T) : Type 0 where
    pub was_clean : (i : ℕ) → dirty_at u.table i ≡ false → dirty_at t.table i ≡ false
    pub same_value : (i : ℕ) → dirty_at u.table i ≡ false → value_at u.table i ≡ value_at t.table i
    pub same_size : length u.table ≡ length t.table
    pub same_update : u.updating ≡ t.updating

  set-clean :
      (table : List (Entry T)) (i j : ℕ) (x : Entry T)
      → x.dirty ≡ true
      → dirty_at (set table i x) j ≡ false
      → (dirty_at table j ≡ false) × (value_at (set table i x) j ≡ value_at table j)
  set-clean [] i j x d h = (refl, refl)
  set-clean (y ∷ ys) zero zero x d h = cc
  set-clean (y ∷ ys) zero (suc j) x d h = (h, refl)
  set-clean (y ∷ ys) (suc i) zero x d h = (h, refl)
  set-clean (y ∷ ys) (suc i) (suc j) x d h = set-clean ys i j x d h

  -- An entry of the table is written: the new one is dirty.
  written-Touches :
      (t : PendingTable T) (i : ℕ) (x : Entry T)
      → x.dirty ≡ true
      → Touches t (record t { table = set t.table i x })
  written-Touches t i x d = record {
    was_clean = λ j h. (set-clean t.table i j x d h).0;
    same_value = λ j h. (set-clean t.table i j x d h).1;
    same_size = length-set t.table i x;
    same_update = refl;
  }

  Touches-refl : (t : PendingTable T) → Touches t t
  Touches-refl t = record {
    was_clean = λ i h. h;
    same_value = λ i h. refl;
    same_size = refl;
    same_update = refl;
  }

  wake_if_free-Touches : (t u : PendingTable T) → Touches t u → Touches t (wake_if_free u)
  unfolding wake_if_free
  wake_if_free-Touches t u h = elim (Bool-cases (is_some u.updating)) [
    | inl busy ↦ rw busy h
    | inr free ↦ rw free (record {
      was_clean = h.was_clean;
      same_value = h.same_value;
      same_size = h.same_size;
      same_update = h.same_update;
    })
  ]

  order-Touches :
      (t u : PendingTable T) (order : List ℕ) → Touches t u → Touches t (record u { order = order })
  order-Touches t u order h = record {
    was_clean = h.was_clean;
    same_value = h.same_value;
    same_size = h.same_size;
    same_update = h.same_update;
  }

module _ {T : Type 0} ⦃e : Eq T⦄ where
  take_slot-Touches : (v : T) (t u : PendingTable T) → take_slot v t ≡ some u → Touches t u
  unfolding take_slot promote_index
  take_slot-Touches v t u h = elim (Option-cases (first t.order)) [
    | inl empty ↦ absurd (ground (arith, empty))
    | inr (next, found) ↦ elim (Bool-cases (ltb next (length t.table))) [
      | inl room ↦
          let after : PendingTable T = record t { table = set t.table next (new_entry v) } in
          let touched = written-Touches t next (new_entry v) (unfold new_entry in refl) in
          subst (Touches t) (ground (arith, found, room)) (
            order-Touches t (wake_if_free after)
              (retain_ne next (wake_if_free after).order ++ (next ∷ []))
              (wake_if_free-Touches t after touched))
      | inr out ↦ absurd (ground (arith, found, out))
    ]
  ]

  pub promote-Touches :
      (v : T) (t u : PendingTable T) (b : Bool) → promote v t ≡ some (u, b) → Touches t u
  unfolding promote promote_index
  promote-Touches v t u b h = elim (Bool-cases (contains t.values v)) [
    | inr unlisted ↦ subst (Touches t) (ground (arith, unlisted)) (Touches-refl t)
    | inl listed ↦ elim (Option-cases (get_index v t.table 0)) [
      | inr (i, found) ↦
          subst (Touches t) (ground (arith, listed, found))
            (order-Touches t t (retain_ne i t.order ++ (i ∷ [])) (Touches-refl t))
      | inl missing ↦ elim (Option-cases (take_slot v t)) [
        | inl full ↦ absurd (ground (arith, listed, missing, full))
        | inr (w, taken) ↦
            subst (Touches t) (ground (arith, listed, missing, taken))
              (take_slot-Touches v t w taken)
      ]
    ]
  ]

  pub insert_value-Touches :
      (v : T) (t u : PendingTable T) (b : Bool) → insert_value v t ≡ some (u, b) → Touches t u
  unfolding insert_value
  insert_value-Touches v t u b h =
      let t' : PendingTable T = record t { values = insert v t.values } in
      elim (Option-cases (promote v t')) [
        | inl panic ↦ absurd (ground (arith, panic))
        | inr ((w, b'), done) ↦
            let touched = promote-Touches v t' w b' done in
            let touched' : Touches t w = record {
              was_clean = touched.was_clean;
              same_value = touched.same_value;
              same_size = touched.same_size;
              same_update = touched.same_update;
            } in
            subst (Touches t) {x = w} {y = u} (ground (arith, done)) touched'
      ]

  unlisted-Touches :
      (t u : PendingTable T) (values : List T)
      → Touches (record t { values = values }) u
      → Touches t u
  unlisted-Touches t u values touched = record {
    was_clean = touched.was_clean;
    same_value = touched.same_value;
    same_size = touched.same_size;
    same_update = touched.same_update;
  }

  free_slot-Touches : (v : T) (t : PendingTable T) → Touches t (free_slot v t)
  unfolding free_slot demote_index
  free_slot-Touches v t = elim (Option-cases (get_index v t.table 0)) [
    | inl missing ↦ rw (missing, free_slot) (Touches-refl t)
    | inr (i, found) ↦
        let after : PendingTable T = record t { table = set t.table i default_entry } in
        let touched = written-Touches t i default_entry (unfold default_entry in refl) in
        rw (found, free_slot)
          (order-Touches t (wake_if_free after) (i ∷ retain_ne i (wake_if_free after).order)
            (wake_if_free-Touches t after touched))
  ]

  pub remove_value-Touches : (v : T) (t : PendingTable T) → Touches t (remove_value v t).0
  unfolding remove_value
  remove_value-Touches v t = elim (Bool-cases (contains t.values v)) [
    | inr unlisted ↦ rw unlisted (Touches-refl t)
    | inl listed ↦ rw listed (
        unlisted-Touches t _ (remove v t.values)
          (free_slot-Touches v (record t { values = remove v t.values })))
  ]
