-- ===== src/Mac/PendingTable/Fresh.antt =====
-- A new table.
use zigbee_rust_playground.Common.{ℕ, zero, suc, ◌≡◌, refl, ap, arith, none, List, [], ◌∷◌, length}
use zigbee_rust_playground.Common.Eq.{Eq}
use zigbee_rust_playground.Mac.PendingTable.{
  Entry, new, replicate_default, default_entry, value_at, range,
}
use zigbee_rust_playground.Mac.PendingTable.Order.{range-IsOrder}
use zigbee_rust_playground.Mac.PendingTable.Slots.{IsTable, FreeFirst}
use zigbee_rust_playground.Mac.PendingTable.View.{view}
use zigbee_rust_playground.Mac.PendingTable.Lru.{stored}

length-replicate_default : (T : Type 0) (n : ℕ) → length {A = Entry T} (replicate_default n) ≡ n
unfolding replicate_default
length-replicate_default T zero = refl
length-replicate_default T (suc n) = ap suc (length-replicate_default T n)

value_at-replicate_default :
    (T : Type 0) (n j : ℕ) → value_at {T = T} (replicate_default n) j ≡ none
unfolding replicate_default default_entry
value_at-replicate_default T zero j = refl
value_at-replicate_default T (suc n) zero = refl
value_at-replicate_default T (suc n) (suc j) = value_at-replicate_default T n j

FreeFirst-default : (T : Type 0) (n : ℕ) (is : List ℕ) → FreeFirst {T = T} (replicate_default n) is
FreeFirst-default T n [] = tt
FreeFirst-default T n (i ∷ is) = (
  (λ used. absurd (ground (arith, used, value_at-replicate_default T n i))),
  FreeFirst-default T n is,
)

view-default : (T : Type 0) (n : ℕ) (is : List ℕ) → view {T = T} (replicate_default n) is ≡ []
view-default T n [] = refl
view-default T n (i ∷ is) = rw (value_at-replicate_default T n i) (view-default T n is)

module _ {T : Type 0} ⦃e : Eq T⦄ where
  -- A new table keeps the invariant and stores nothing.
  pub new-IsTable : (n : ℕ) → IsTable {T = T} n (new n) × (stored {T = T} (new n) ≡ [])
  unfolding new
  new-IsTable n = (
    record {
      order = range-IsOrder n;
      size = length-replicate_default T n;
      distinct = λ i j v p q. absurd (ground (arith, p, value_at-replicate_default T n i));
      known = λ i v p. absurd (ground (arith, p, value_at-replicate_default T n i));
      free_first = FreeFirst-default T n (range 0 n);
    },
    view-default T n (range 0 n),
  )
