-- ===== src/Mac/PendingTable.antt =====
-- src/ieee802154/mac/pendingtable.rs: the slots of the radio's table of addresses with pending data.
-- A method that can panic returns an option, `none` for the panic. A new `UniqueKey` is an argument.
pub mod Order
pub mod View
pub mod Slots
pub mod Lru
pub mod Refine
pub mod Touches
pub mod Sync
pub mod Fresh
pub mod Keeps
use zigbee_rust_playground.Common.{
  ℕ, zero, suc, ◌≡◌, ltb, ◌==◌, if◌then◌else◌, Option, none, some, is_some, Bool, true, false, not,
  List, [], ◌∷◌, ◌++◌, length, get_elem?, set,
}
use zigbee_rust_playground.Common.Opt.{◌>>=◌}
use zigbee_rust_playground.Common.Eq.{Eq, contains, insert, remove}
use zigbee_rust_playground.Mac.Waker.{WakerStore, wake, register, Poll, ready, pending}
use zigbee_rust_playground.Mac.Waker

pub record Entry (T : Type 0) : Type 0 where
  pub dirty : Bool
  pub value : Option T

pub record PendingTable (T : Type 0) : Type 0 where
  pub values : List T
  pub table : List (Entry T)
  -- The first index is the first to be overwritten.
  pub order : List ℕ
  pub updating : Option (ℕ × ℕ)
  pub waker : WakerStore

pub record Update (T : Type 0) : Type 0 where
  pub key : ℕ
  pub index : ℕ
  pub value : Option T

-- `Vec::retain(|x| x != &index)`
unfoldable pub retain_ne : ℕ → List ℕ → List ℕ
retain_ne i [] = []
retain_ne i (x ∷ xs) = if x == i then retain_ne i xs else x ∷ retain_ne i xs

-- `(0..size).collect()`, counted up from `from`.
unfoldable pub range : ℕ → ℕ → List ℕ
range from zero = []
range from (suc n) = from ∷ range (suc from) n

unfoldable pub first : List ℕ → Option ℕ
first [] = none
first (x ∷ xs) = some x

module _ {T : Type 0} where
  unfoldable pub default_entry : Entry T
  default_entry = record { dirty = true; value = none }

  unfoldable pub new_entry : T → Entry T
  new_entry v = record { dirty = true; value = some v }

  unfoldable pub replicate_default : ℕ → List (Entry T)
  unfolding default_entry
  replicate_default zero = []
  replicate_default (suc n) = default_entry ∷ replicate_default n

  unfoldable pub new : ℕ → PendingTable T
  unfolding replicate_default range
  new size = record {
    values = [];
    table = replicate_default size;
    order = range 0 size;
    updating = none;
    waker = Waker.new;
  }

  unfoldable pub mark_used : List (Entry T) → List (Entry T)
  mark_used [] = []
  mark_used (e ∷ es) = record e { dirty = is_some e.value } ∷ mark_used es

  unfoldable pub assume_empty : PendingTable T → PendingTable T
  unfolding mark_used
  assume_empty t = record t { table = mark_used t.table; waker = wake t.waker }

  -- `if self.updating.is_none() { self.wake() }`
  unfoldable pub wake_if_free : PendingTable T → PendingTable T
  wake_if_free t = if is_some t.updating then t else record t { waker = wake t.waker }

  unfoldable pub promote_index : ℕ → PendingTable T → PendingTable T
  unfolding retain_ne
  promote_index i t = record t { order = retain_ne i t.order ++ (i ∷ []) }

  unfoldable pub demote_index : ℕ → PendingTable T → PendingTable T
  unfolding retain_ne
  demote_index i t = record t { order = i ∷ retain_ne i t.order }

  -- The index of the first dirty entry.
  unfoldable pub first_dirty : List (Entry T) → ℕ → Option ℕ
  first_dirty [] i = none
  first_dirty (e ∷ es) i = if e.dirty then some i else first_dirty es (suc i)

  abbrev pub set_dirty : Bool → List (Entry T) → ℕ → List (Entry T)
  set_dirty d [] i = []
  set_dirty d (e ∷ es) zero = record e { dirty = d } ∷ es
  set_dirty d (e ∷ es) (suc i) = e ∷ set_dirty d es i

  abbrev pub value_at : List (Entry T) → ℕ → Option T
  value_at [] i = none
  value_at (e ∷ es) zero = e.value
  value_at (e ∷ es) (suc i) = value_at es i

  abbrev pub dirty_at : List (Entry T) → ℕ → Bool
  dirty_at [] i = false
  dirty_at (e ∷ es) zero = e.dirty
  dirty_at (e ∷ es) (suc i) = dirty_at es i

  unfoldable pub finish_update : ℕ → ℕ → Bool → ℕ → PendingTable T → PendingTable T
  finish_update current index result token t =
      if token == current
      then record t {
        updating = none;
        table = if result then t.table else set_dirty true t.table index;
        waker = wake t.waker;
      }
      else t

  unfoldable pub report_update_result : ℕ → Bool → PendingTable T → PendingTable T
  report_update_result token result t = elim t.updating [
    | none ↦ t
    | some (current, index) ↦ finish_update current index result token t
  ]

  unfoldable pub start_update : Option ℕ → ℕ → ℕ → PendingTable T → Poll (Update T) × PendingTable T
  unfolding register
  start_update none key cx t = (pending, record t { waker = register t.waker cx })
  start_update (some index) key cx t = (
    ready (record { key = key; index = index; value = value_at t.table index }),
    record t { table = set_dirty false t.table index; updating = some (key, index) },
  )

  unfoldable pub poll_update : ℕ → ℕ → PendingTable T → Poll (Update T) × PendingTable T
  poll_update key cx t =
      start_update (if is_some t.updating then none else first_dirty t.table 0) key cx t

module _ {T : Type 0} ⦃e : Eq T⦄ where
  abbrev pub holds : Entry T → T → Bool
  holds entry v = elim entry.value [ none ↦ false | some w ↦ e.beq w v ]

  unfoldable pub get_index : T → List (Entry T) → ℕ → Option ℕ
  get_index v [] i = none
  get_index v (x ∷ xs) i = if holds x v then some i else get_index v xs (suc i)

  -- The branch of `promote` for a value with no slot yet.
  unfoldable pub take_slot : T → PendingTable T → Option (PendingTable T)
  take_slot v t = do
    next ← first t.order
    if ltb next (length t.table)
        then some (
            promote_index next (wake_if_free (record t { table = set t.table next (new_entry v) })))
        else none

  unfoldable pub promote : T → PendingTable T → Option (PendingTable T × Bool)
  promote v t =
      if contains t.values v
      then elim (get_index v t.table 0) [
        | some i ↦ some (promote_index i t, true)
        | none ↦ (take_slot v t >>= λ u. some (u, true))
      ]
      else some (t, false)

  unfoldable pub insert_value : T → PendingTable T → Option (PendingTable T × Bool)
  insert_value v t = do
    (u, _) ← promote v (record t { values = insert v t.values })
    some (u, not (contains t.values v))

  unfoldable pub free_slot : T → PendingTable T → PendingTable T
  free_slot v t = elim (get_index v t.table 0) [
    | some i ↦ demote_index i (wake_if_free (record t { table = set t.table i default_entry }))
    | none ↦ t
  ]

  unfoldable pub remove_value : T → PendingTable T → PendingTable T × Bool
  remove_value v t =
      if contains t.values v
      then (free_slot v (record t { values = remove v t.values }), true)
      else (t, false)

  -- `PendingTable::set`
  unfoldable pub set_pending : T → Bool → PendingTable T → Option (PendingTable T)
  set_pending v true t = do (u, _) ← insert_value v t; some u
  set_pending v false t = some (remove_value v t).0
