-- ===== src/Mac/PendingTable/Lru.antt =====
-- The bounded list of recently used values that the table stands for, and how a slot changes it.
use zigbee_rust_playground.Common.{
  ℕ, suc, ◌≤◌, ◌<◌, ◌≡◌, ◌≢◌, refl, ap, ◌∙◌, arith, ltb, ◌==◌, if◌then◌else◌, true, is_some,
  Bool-cases, Option-cases, inl, inr, some, List, [], ◌∷◌, ◌++◌, length, All, set, length-set,
}
use native.Mathlib.Decide.{ℕ_discrete}
use zigbee_rust_playground.Common.Eq.{Eq, contains, remove}
use zigbee_rust_playground.Mac.PendingTable.{
  Entry, PendingTable, new_entry, value_at, retain_ne, wake_if_free, promote_index,
}
use zigbee_rust_playground.Mac.PendingTable.Order.{count, retain_ne-absent, promoted-IsOrder}
use zigbee_rust_playground.Mac.PendingTable.View.{
  opt_list, view, view-append, view-cong, view-retain_ne, contains-view_absent, value_at-lt,
  value_at-set,
}
use zigbee_rust_playground.Mac.PendingTable.Slots.{
  IsTable, IsUsed, FreeFirst-cong, FreeFirst-append_used, FreeFirst-promoted,
}

module _ {T : Type 0} where
  abbrev pub tail : List T → List T
  tail [] = []
  tail (x ∷ xs) = xs

  -- The stored values of a table, least recently used first.
  abbrev pub stored : PendingTable T → List T
  stored t = view t.table t.order

  length-view-le : (table : List (Entry T)) (is : List ℕ) → length (view table is) ≤ length is
  length-view-le table [] = omega arith
  length-view-le table (i ∷ is) = elim (Option-cases (value_at table i)) [
    | inl empty ↦ rw empty (omega (arith, length-view-le table is))
    | inr (w, full) ↦ rw full (omega (arith, length-view-le table is))
  ]

  length-view_used :
      (table : List (Entry T)) (is : List ℕ)
      → All (IsUsed table) is
      → length (view table is) ≡ length is
  length-view_used table [] a = refl
  length-view_used table (i ∷ is) (u, a) = elim (Option-cases (value_at table i)) [
    | inl empty ↦ absurd (ground (arith, empty, u))
    | inr (w, full) ↦ rw full (omega (arith, length-view_used table is a))
  ]

module _ {T : Type 0} ⦃e : Eq T⦄ where
  -- The specification: a value that is inserted becomes the newest; the oldest makes room for it if the
  -- list is full.
  abbrev pub lru_insert : ℕ → T → List T → List T
  lru_insert n v l =
      if contains l v
      then remove v l ++ (v ∷ [])
      else if ltb (length l) n
      then l ++ (v ∷ [])
      else tail l ++ (v ∷ [])

  -- A value with a slot is promoted.
  pub promote_index-lru :
      (n i : ℕ) (v : T) (t : PendingTable T)
      → IsTable n t
      → value_at t.table i ≡ some v
      → IsTable n (promote_index i t)
        × (stored (promote_index i t) ≡ remove v (stored t) ++ (v ∷ []))
  unfolding promote_index
  promote_index-lru n i v t inv at = (
    record {
      order =
          promoted-IsOrder n i t.order (omega (arith, inv.size, value_at-lt t.table i v at))
            inv.order;
      size = inv.size;
      distinct = inv.distinct;
      known = inv.known;
      free_first = FreeFirst-promoted t.table i t.order (rw at) inv.free_first;
    },
    view-append t.table (retain_ne i t.order) (i ∷ [])
        ∙ rw (view-retain_ne v t.table i t.order at (λ j q. inv.distinct i j v at q), at),
  )

  -- Waking changes neither the slots nor the values.
  pub wake_if_free-lru :
      (n : ℕ) (t : PendingTable T)
      → IsTable n t
      → IsTable n (wake_if_free t) × (stored (wake_if_free t) ≡ stored t)
  unfolding wake_if_free
  wake_if_free-lru n t inv = elim (Bool-cases (is_some t.updating)) [
    | inl busy ↦ rw busy (inv, refl)
    | inr free ↦ rw free (
      record {
        order = inv.order;
        size = inv.size;
        distinct = inv.distinct;
        known = inv.known;
        free_first = inv.free_first;
      },
      refl,
    )
  ]

  -- A value with no slot takes the first slot of the order.
  module _ (n next : ℕ) (rest : List ℕ) (v : T) (t : PendingTable T) (inv : IsTable n t)
      (head : t.order ≡ next ∷ rest) (listed : contains t.values v ≡ true)
      (absent : (j : ℕ) → value_at t.table j ≢ some v) where
    abbrev pub filled : PendingTable T
    filled = record t { table = set t.table next (new_entry v) }

    next-lt : next < n
    next-lt = ground (arith, inv.order.once next, head)

    written : (j : ℕ) → value_at filled.table j ≡ (if next == j then some v else value_at t.table j)
    unfolding new_entry
    written j = value_at-set t.table next j (new_entry v) (omega (arith, inv.size, next-lt))

    rest-once : count next rest ≡ 0
    rest-once = ground (arith, inv.order.once next, head, next-lt)

    kept : (j : ℕ) → 0 < count j rest → value_at t.table j ≡ value_at filled.table j
    kept j p = elim (ℕ_discrete next j) [
      | yes same ↦ absurd (omega (arith, rest-once, ap (λ k. count k rest) same))
      | no other ↦ ground (arith, written j)
    ]

    filled-distinct :
        (i j : ℕ) (w : T)
        → value_at filled.table i ≡ some w
        → value_at filled.table j ≡ some w
        → j ≡ i
    filled-distinct i j w p q =
        ground (arith, written i, written j, inv.distinct i j w, absent i, absent j)

    filled-known : (i : ℕ) (w : T) → value_at filled.table i ≡ some w → contains t.values w ≡ true
    filled-known i w p = ground (arith, written i, inv.known i w, listed)

    reordered : retain_ne next t.order ≡ rest
    unfolding retain_ne
    reordered = rw head (ground (arith, retain_ne-absent next rest rest-once))

    pub filled-IsTable : IsTable n (promote_index next filled)
    unfolding promote_index
    filled-IsTable = record {
      order = promoted-IsOrder n next t.order next-lt inv.order;
      size = length-set t.table next (new_entry v) ∙ inv.size;
      distinct = filled-distinct;
      known = filled-known;
      free_first = rw reordered (
          FreeFirst-append_used filled.table next rest (ground (arith, written next))
            (FreeFirst-cong t.table filled.table rest kept (rw head at inv.free_first).1));
    }

    filled-view : stored (promote_index next filled) ≡ view t.table rest ++ (v ∷ [])
    unfolding promote_index
    filled-view = rw reordered (
        view-append filled.table rest (next ∷ [])
        ∙ rw (← view-cong t.table filled.table rest kept) (ground (arith, written next)))

    old-view : stored t ≡ opt_list (value_at t.table next) ++ view t.table rest
    old-view = rw head

    rest-all : suc (length rest) ≡ n
    rest-all = rw head at inv.order.all

    pub filled-stored : stored (promote_index next filled) ≡ lru_insert n v (stored t)
    filled-stored = elim (Option-cases (value_at t.table next)) [
      | inl empty ↦
          filled-view
          ∙ ground (
            arith,
            old-view,
            empty,
            rest-all,
            contains-view_absent v t.table t.order absent,
            length-view-le t.table rest,
          )
      | inr (w, full) ↦
          filled-view
          ∙ ground (
            arith,
            old-view,
            full,
            rest-all,
            contains-view_absent v t.table t.order absent,
            length-view_used t.table rest ((rw head at inv.free_first).0 (rw full)),
          )
    ]
