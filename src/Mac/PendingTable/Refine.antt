-- ===== src/Mac/PendingTable/Refine.antt =====
-- The methods of the table refine those of a bounded list of recently used values.
use zigbee_rust_playground.Common.{
  ℕ, ◌<◌, ◌≡◌, ◌≢◌, refl, sym, ap, ◌∙◌, arith, ltb, ◌==◌, if◌then◌else◌, true, false, not, is_some,
  Bool-cases, Option-cases, inl, inr, none, some, List, [], ◌∷◌, length, set, length-set,
}
use mathlib.Core.Path.{subst}
use native.Mathlib.Nat.{zero-add}
use zigbee_rust_playground.Common.Eq.{Eq, contains, insert, remove}
use zigbee_rust_playground.Mac.PendingTable.{
  PendingTable, new_entry, default_entry, value_at, retain_ne, get_index, take_slot, promote,
  insert_value, free_slot, remove_value, wake_if_free, promote_index, demote_index, first,
}
use zigbee_rust_playground.Mac.PendingTable.Order.{count, count-retain_ne, demoted-IsOrder}
use zigbee_rust_playground.Mac.PendingTable.View.{
  view-cong, view-retain_ne, contains-view, contains-view_absent, get_index-some, get_index-none,
  value_at-lt, value_at-set,
}
use zigbee_rust_playground.Mac.PendingTable.Slots.{
  IsTable, FreeFirst-cong, FreeFirst-retain_ne, contains-insert, contains-insert_self,
  contains-remove_ne,
}
use zigbee_rust_playground.Mac.PendingTable.Lru.{
  stored, lru_insert, promote_index-lru, wake_if_free-lru, filled, filled-IsTable, filled-stored,
}

split_first : (xs : List ℕ) → 0 < length xs → (y : ℕ) × (ys : List ℕ) × (xs ≡ y ∷ ys)
split_first [] h = elim h [ ]
split_first (x ∷ xs) h = (x, xs, refl)

module _ {T : Type 0} ⦃e : Eq T⦄ where
  promote_index-wake_if_free :
      (i : ℕ) (t : PendingTable T)
      → promote_index i (wake_if_free t) ≡ wake_if_free (promote_index i t)
  unfolding promote_index wake_if_free
  promote_index-wake_if_free i t = elim (Bool-cases (is_some t.updating)) [
    | inl busy ↦ rw busy
    | inr free ↦ rw free
  ]

  take_slot-first :
      (v : T) (t : PendingTable T) (next : ℕ) (rest : List ℕ)
      → t.order ≡ next ∷ rest
      → ltb next (length t.table) ≡ true
      → take_slot v t
        ≡ some (
            promote_index next (wake_if_free (record t { table = set t.table next (new_entry v) })))
  unfolding take_slot first
  take_slot-first v t next rest head room = simp (head, room)

  take_slot-lru :
      (n : ℕ) (v : T) (t : PendingTable T)
      → 0 < n
      → IsTable n t
      → contains t.values v ≡ true
      → ((j : ℕ) → value_at t.table j ≢ some v)
      → (u : PendingTable T) × (take_slot v t ≡ some u)
        × IsTable n u
        × (stored u ≡ lru_insert n v (stored t))
  take_slot-lru n v t pos inv listed absent =
      let (next, rest, head) = split_first t.order (omega (arith, inv.order.all)) in
      let room : ltb next (length t.table) ≡ true =
        ground (arith, inv.order.once next, head, inv.size) in
      let full : PendingTable T =
        promote_index next (filled n next rest v t inv head listed absent) in
      let (inv', same) =
        wake_if_free-lru n full (filled-IsTable n next rest v t inv head listed absent) in
      (
        wake_if_free full,
        take_slot-first v t next rest head room
            ∙ ap some
                (promote_index-wake_if_free next (filled n next rest v t inv head listed absent)),
        inv',
        same ∙ filled-stored n next rest v t inv head listed absent,
      )

  -- Listing a value keeps the invariant.
  listed-IsTable :
      (n : ℕ) (v : T) (t : PendingTable T)
      → IsTable n t
      → IsTable n (record t { values = insert v t.values })
  listed-IsTable n v t inv = record {
    order = inv.order;
    size = inv.size;
    distinct = inv.distinct;
    known = λ i w p. contains-insert v w t.values (inv.known i w p);
    free_first = inv.free_first;
  }

  promote-missing :
      (v : T) (t : PendingTable T) {u : PendingTable T}
      → contains t.values v ≡ true
      → get_index v t.table 0 ≡ none
      → take_slot v t ≡ some u
      → promote v t ≡ some (u, true)
  unfolding promote
  promote-missing v t listed missing taken = simp (listed, missing, taken)

  promote-found :
      (v : T) (t : PendingTable T) {i : ℕ}
      → contains t.values v ≡ true
      → get_index v t.table 0 ≡ some i
      → promote v t ≡ some (promote_index i t, true)
  unfolding promote
  promote-found v t listed found = simp (listed, found)

  insert_value-promote :
      (v : T) (t : PendingTable T) {u : PendingTable T}
      → promote v (record t { values = insert v t.values }) ≡ some (u, true)
      → insert_value v t ≡ some (u, not (contains t.values v))
  unfolding insert_value
  insert_value-promote v t promoted = rw promoted

  -- On a table with at least one slot that meets the invariant, `insert` does not panic: it keeps the
  -- invariant, the stored values change as those of a bounded list of recently used values, and it
  -- answers whether the value was new.
  pub insert_value-lru :
      (n : ℕ) (v : T) (t : PendingTable T)
      → 0 < n
      → IsTable n t
      → (u : PendingTable T) × (insert_value v t ≡ some (u, not (contains t.values v)))
        × IsTable n u
        × (stored u ≡ lru_insert n v (stored t))
  insert_value-lru n v t pos inv =
      let t' : PendingTable T = record t { values = insert v t.values } in
      let inv' : IsTable n t' = listed-IsTable n v t inv in
      let listed = contains-insert_self v t.values in
      elim (Option-cases (get_index v t.table 0)) [
        | inl missing ↦
            let (u, e1, e2, e3) =
              take_slot-lru n v t' pos inv' listed (λ j. get_index-none v t.table 0 j missing) in
            (u, insert_value-promote v t (promote-missing v t' listed missing e1), e2, e3)
        | inr (i, found) ↦
            let (j, e1, e2) = get_index-some v t.table 0 i found in
            let at : value_at t.table i ≡ some v = rw e1 (rw zero-add e2) in
            let (inv'', newest) = promote_index-lru n i v t' inv' at in
            let present =
              contains-view v t.table i t.order at
                (ground (arith, inv.order.once i, inv.size, value_at-lt t.table i v at)) in
            (
              promote_index i t',
              insert_value-promote v t (promote-found v t' listed found),
              inv'',
              newest ∙ rw present,
            )
      ]

  remove-absent : (v : T) (xs : List T) → contains xs v ≡ false → remove v xs ≡ xs
  unfolding contains remove
  remove-absent v [] h = refl
  remove-absent v (x ∷ xs) h = ground (arith, remove-absent v xs)

  unstored :
      (v : T) (t : PendingTable T)
      → ((j : ℕ) → value_at t.table j ≢ some v)
      → stored t ≡ remove v (stored t)
  unstored v t absent =
      sym (remove-absent v (stored t) (contains-view_absent v t.table t.order absent))

  -- A value that has no slot may leave the set of values.
  unlisted-IsTable :
      (n : ℕ) (v : T) (t : PendingTable T)
      → IsTable n t
      → ((j : ℕ) → value_at t.table j ≢ some v)
      → IsTable n (record t { values = remove v t.values })
  unlisted-IsTable n v t inv absent = record {
    order = inv.order;
    size = inv.size;
    distinct = inv.distinct;
    known =
        λ i w p. contains-remove_ne v w t.values (λ q. absent i (p ∙ ap some q)) (inv.known i w p);
    free_first = inv.free_first;
  }

  module _ (n i : ℕ) (v : T) (t : PendingTable T) (inv : IsTable n t)
      (at : value_at t.table i ≡ some v) where
    abbrev emptied : PendingTable T
    emptied = record t { table = set t.table i default_entry }

    cleared : (j : ℕ) → value_at emptied.table j ≡ (if i == j then none else value_at t.table j)
    unfolding default_entry
    cleared j = value_at-set t.table i j default_entry (value_at-lt t.table i v at)

    emptied-absent : (j : ℕ) → value_at emptied.table j ≢ some v
    emptied-absent j p = ground (arith, cleared j, inv.distinct i j v at)

    emptied-keeps :
        (j : ℕ) (w : T) → value_at emptied.table j ≡ some w → value_at t.table j ≡ some w
    emptied-keeps j w p = ground (arith, cleared j)

    kept :
        (j : ℕ) → 0 < count j (retain_ne i t.order) → value_at t.table j ≡ value_at emptied.table j
    kept j p = ground (arith, cleared j, count-retain_ne j i t.order)

    emptied-IsTable : IsTable n (demote_index i emptied)
    unfolding demote_index
    emptied-IsTable = record {
      order =
          demoted-IsOrder n i t.order (omega (arith, inv.size, value_at-lt t.table i v at))
            inv.order;
      size = length-set t.table i default_entry ∙ inv.size;
      distinct = λ j k w p q. inv.distinct j k w (emptied-keeps j w p) (emptied-keeps k w q);
      known = λ j w p. inv.known j w (emptied-keeps j w p);
      free_first = (
        (λ used. absurd (ground (arith, cleared i, used))),
        FreeFirst-cong t.table emptied.table (retain_ne i t.order) kept
            (FreeFirst-retain_ne t.table i t.order inv.free_first),
      );
    }

    emptied-stored : stored (demote_index i emptied) ≡ remove v (stored t)
    unfolding demote_index
    emptied-stored =
        let self : value_at emptied.table i ≡ none = cleared i ∙ ground arith in
        rw self (
          sym (view-cong t.table emptied.table (retain_ne i t.order) kept)
          ∙ view-retain_ne v t.table i t.order at (λ j q. inv.distinct i j v at q))

  free_slot-found :
      (v : T) (t : PendingTable T) {i : ℕ}
      → get_index v t.table 0 ≡ some i
      → free_slot v t
        ≡ demote_index i (wake_if_free (record t { table = set t.table i default_entry }))
  unfolding free_slot
  free_slot-found v t found = rw (found, free_slot)

  free_slot-missing :
      (v : T) (t : PendingTable T) → get_index v t.table 0 ≡ none → free_slot v t ≡ t
  unfolding free_slot
  free_slot-missing v t missing = rw (missing, free_slot)

  demote_index-wake_if_free :
      (i : ℕ) (t : PendingTable T)
      → demote_index i (wake_if_free t) ≡ wake_if_free (demote_index i t)
  unfolding demote_index wake_if_free
  demote_index-wake_if_free i t = elim (Bool-cases (is_some t.updating)) [
    | inl busy ↦ rw busy
    | inr free ↦ rw free
  ]

  -- Freeing the slot of a value, if it has one.
  free_slot-lru :
      (n : ℕ) (v : T) (t : PendingTable T)
      → IsTable n t
      → IsTable n (free_slot v (record t { values = remove v t.values }))
        × (stored (free_slot v (record t { values = remove v t.values })) ≡ remove v (stored t))
  unfolding demote_index
  free_slot-lru n v t inv = elim (Option-cases (get_index v t.table 0)) [
    | inl missing ↦
        let absent : (j : ℕ) → value_at t.table j ≢ some v =
          λ j. get_index-none v t.table 0 j missing in
        rw (free_slot-missing v (record t { values = remove v t.values }) missing)
          (unlisted-IsTable n v t inv absent, unstored v t absent)
    | inr (i, found) ↦
        let (j, e1, e2) = get_index-some v t.table 0 i found in
        let at : value_at t.table i ≡ some v = rw e1 (rw zero-add e2) in
        let u : PendingTable T = demote_index i (emptied n i v t inv at) in
        let inv' : IsTable n (record u { values = remove v u.values }) =
          unlisted-IsTable n v u (emptied-IsTable n i v t inv at) (emptied-absent n i v t inv at) in
        let (woken, same) = wake_if_free-lru n (record u { values = remove v u.values }) inv' in
        subst (λ x. IsTable n x × (stored x ≡ remove v (stored t)))
          (sym (
            free_slot-found v (record t { values = remove v t.values }) found
            ∙ demote_index-wake_if_free i
                (record t { values = remove v t.values; table = set t.table i default_entry })))
          (woken, same ∙ emptied-stored n i v t inv at)
  ]

  -- On a table that meets the invariant, `remove` takes the value out of the stored ones, keeps the
  -- invariant, and answers whether the value was there.
  pub remove_value-lru :
      (n : ℕ) (v : T) (t : PendingTable T)
      → IsTable n t
      → IsTable n (remove_value v t).0
        × (stored (remove_value v t).0 ≡ remove v (stored t))
        × ((remove_value v t).1 ≡ contains t.values v)
  unfolding remove_value
  remove_value-lru n v t inv = elim (Bool-cases (contains t.values v)) [
    | inl present ↦
        let (inv', smaller) = free_slot-lru n v t inv in rw present (inv', smaller, refl)
    | inr missing ↦
        rw missing (inv, unstored v t (λ j q. ground (arith, missing, inv.known j v q)), refl)
  ]
