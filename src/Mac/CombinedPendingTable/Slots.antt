-- ===== src/Mac/CombinedPendingTable/Slots.antt =====
-- Both tables keep their invariant over every call, and no call panics.
use zigbee_rust_playground.Common.{
  ℕ, ◌≡◌, refl, arith, Bool, true, false, if◌then◌else◌, is_some, opt_eq, Bool-cases, inl, inr,
  Option, none, some,
}
use mathlib.Core.Path.{subst}
use zigbee_rust_playground.Common.Eq.{Eq}
use zigbee_rust_playground.Frame.Types.{PanId, ShortAddress, ExtendedAddress, Address, FullAddress}
use zigbee_rust_playground.Mac.Waker.{Poll, ready, pending}
use zigbee_rust_playground.Mac.PendingTable.{PendingTable, Update, assume_empty, poll_update}
use zigbee_rust_playground.Mac.PendingTable.Slots.{IsTable}
use zigbee_rust_playground.Mac.PendingTable.Fresh.{new-IsTable}
use zigbee_rust_playground.Mac.PendingTable.Keeps.{
  SameSlots-IsTable, assume_empty-SameSlots, report_update_result-SameSlots, poll_update-SameSlots,
  set_pending-IsTable,
}
use zigbee_rust_playground.Mac.CombinedPendingTable.{
  CombinedPendingTable, new, report_init_result, set_full, set_address, poll_action, poll_short,
  poll_extended, report_update_result, extended_address_eq, pan_short_eq,
}

pub record HasTables (t : CombinedPendingTable) : Type 0 where
  pub short : IsTable 8 t.short_table
  pub extended : IsTable 8 t.extended_table

pub new-HasTables : HasTables new
unfolding new
new-HasTables = record { short = (new-IsTable 8).0; extended = (new-IsTable 8).0 }

set_full-HasTables :
    (pan : PanId) (address : Address) (inserted : Bool) (t : CombinedPendingTable)
    → HasTables t
    → (u : CombinedPendingTable) × (set_full pan address inserted t ≡ some u) × HasTables u
unfolding set_full
set_full-HasTables pan (Address.short a) inserted t h =
    let (u, done, inv) =
      set_pending-IsTable 8 (pan, a) inserted t.short_table (omega arith) h.short in
    (record t { short_table = u }, rw done, record { short = inv; extended = h.extended })
set_full-HasTables pan (Address.extended a) inserted t h =
    let (u, done, inv) =
      set_pending-IsTable 8 a inserted t.extended_table (omega arith) h.extended in
    (record t { extended_table = u }, rw done, record { short = h.short; extended = inv })

-- `set` never panics.
pub set_address-HasTables :
    (address : Option FullAddress) (inserted : Bool) (t : CombinedPendingTable)
    → HasTables t
    → (u : CombinedPendingTable) × (set_address address inserted t ≡ some u) × HasTables u
unfolding set_address
set_address-HasTables none inserted t h = (
  record t { without_address = inserted },
  refl,
  record { short = h.short; extended = h.extended },
)
set_address-HasTables (some a) inserted t h = set_full-HasTables a.pan_id a.address inserted t h

emptied-IsTable :
    {T : Type 0} ⦃e : Eq T⦄ (result : Bool) (t : PendingTable T)
    → IsTable 8 t
    → IsTable 8 (if result then assume_empty t else t)
emptied-IsTable true t h = SameSlots-IsTable 8 t (assume_empty t) (assume_empty-SameSlots t) h
emptied-IsTable false t h = h

pub report_init_result-HasTables :
    (key : ℕ) (result : Bool) (t : CombinedPendingTable)
    → HasTables t
    → HasTables (report_init_result key result t)
unfolding report_init_result
report_init_result-HasTables key result t h = elim (Bool-cases (opt_eq t.initializing (some key))) [
  | inr other ↦ rw other h
  | inl mine ↦ rw mine (record {
    short = emptied-IsTable result t.short_table h.short;
    extended = emptied-IsTable result t.extended_table h.extended;
  })
]

pub report_update_result-HasTables :
    (key : ℕ) (success : Bool) (t : CombinedPendingTable)
    → HasTables t
    → HasTables (report_update_result key success t)
unfolding report_update_result
report_update_result-HasTables key success t h = record {
  short =
      SameSlots-IsTable 8 t.short_table _ (report_update_result-SameSlots key success t.short_table)
        h.short;
  extended =
      SameSlots-IsTable 8 t.extended_table _
        (report_update_result-SameSlots key success t.extended_table) h.extended;
}

poll_extended-HasTables :
    (key cx : ℕ) (t : CombinedPendingTable)
    (p : Poll (Update ExtendedAddress) × PendingTable ExtendedAddress)
    → HasTables t
    → IsTable 8 p.1
    → HasTables (poll_extended p t).1
unfolding poll_extended
poll_extended-HasTables key cx t (ready up, u) h inv = record { short = h.short; extended = inv }
poll_extended-HasTables key cx t (pending, u) h inv = record { short = h.short; extended = inv }

poll_short-HasTables :
    (key cx : ℕ) (t : CombinedPendingTable)
    (p : Poll (Update (PanId × ShortAddress)) × PendingTable (PanId × ShortAddress))
    → HasTables t
    → IsTable 8 p.1
    → HasTables (poll_short p key cx t).1
unfolding poll_short
poll_short-HasTables key cx t (ready up, u) h inv = record { short = inv; extended = h.extended }
poll_short-HasTables key cx t (pending, u) h inv =
    poll_extended-HasTables key cx (record t { short_table = u })
      (poll_update key cx t.extended_table) (record { short = inv; extended = h.extended })
      (SameSlots-IsTable 8 t.extended_table _ (poll_update-SameSlots key cx t.extended_table)
        h.extended)

pub poll_action-HasTables :
    (key cx : ℕ) (t : CombinedPendingTable) → HasTables t → HasTables (poll_action key cx t).1
unfolding poll_action
poll_action-HasTables key cx t h = elim (Bool-cases (is_some t.initializing)) [
  | inl busy ↦ rw busy (record { short = h.short; extended = h.extended })
  | inr idle ↦ elim (Bool-cases t.is_initialized) [
    | inr fresh ↦
        subst HasTables {x = record t { initializing = some key }} (ground (arith, idle, fresh))
          (record { short = h.short; extended = h.extended })
    | inl running ↦
        simp (idle, running)
          (poll_short-HasTables key cx t (poll_update key cx t.short_table) h (
            SameSlots-IsTable 8 t.short_table _ (poll_update-SameSlots key cx t.short_table)
              h.short))
  ]
]
