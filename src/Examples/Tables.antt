-- ===== src/Examples/Tables.antt =====
-- Tables of addresses with pending data.
use zigbee_rust_playground.Common.{
  ℕ, ◌<◌, ◌≡◌, refl, arith, [], length, Option, none, some, is_some, true, not, ◌||◌,
}
use zigbee_rust_playground.Common.Eq.{contains, remove}
use zigbee_rust_playground.Frame.Types.{ExtendedAddress}
use zigbee_rust_playground.Mac.Waker.{pending}
use zigbee_rust_playground.Mac.PendingTable.{
  PendingTable, new, insert_value, remove_value, poll_update, report_update_result, value_at,
  start_update, first_dirty, finish_update, replicate_default, default_entry,
}
use zigbee_rust_playground.Mac.PendingTable.Slots.{IsTable}
use zigbee_rust_playground.Mac.PendingTable.Fresh.{new-IsTable}
use zigbee_rust_playground.Mac.PendingTable.Lru.{stored, lru_insert}
use zigbee_rust_playground.Mac.PendingTable.Refine.{insert_value-lru, remove_value-lru}
use zigbee_rust_playground.Mac.PendingTable.Sync.{
  System, put, Reach, here, next, start, polled, carried_out, poll_update-settled,
}
use zigbee_rust_playground.Mac.CombinedPendingTable.{
  CombinedPendingTable, extended_address_eq, poll_action,
}
use zigbee_rust_playground.Mac.CombinedPendingTable
use zigbee_rust_playground.Mac.CombinedPendingTable.Calm
use zigbee_rust_playground.Mac.CombinedPendingTable.Calm.{updating-uninitialized}

abbrev address : ExtendedAddress
address = record { value = 5 }

abbrev one_slot : PendingTable ExtendedAddress
one_slot = new 1

new-IsTable_example : IsTable {T = ExtendedAddress} 1 one_slot × (stored one_slot ≡ [])
new-IsTable_example = new-IsTable 1

insert_value-lru_example :
    (u : PendingTable ExtendedAddress) × (insert_value address one_slot
      ≡ some (u, not (contains one_slot.values address)))
    × IsTable 1 u
    × (stored u ≡ lru_insert 1 address (stored one_slot))
insert_value-lru_example = insert_value-lru 1 address one_slot (omega arith) (new-IsTable 1).0

remove_value-lru_example :
    IsTable 1 (remove_value address one_slot).0
    × (stored (remove_value address one_slot).0 ≡ remove address (stored one_slot))
    × ((remove_value address one_slot).1 ≡ contains one_slot.values address)
remove_value-lru_example = remove_value-lru 1 address one_slot (new-IsTable 1).0

-- The only slot of a new table is sent to the radio, which held something else.
abbrev old : ℕ → Option ExtendedAddress
old j = some (record { value = 9 })

abbrev sent_slot : System ExtendedAddress
sent_slot = record { table = (poll_update 3 0 one_slot).1; device = old; sent = none }

abbrev settled : System ExtendedAddress
settled = record {
  table = report_update_result 3 true sent_slot.table;
  device = put old 0 none;
  sent = none;
}

settled-Reach : Reach (start 1 old) settled
unfolding new poll_update report_update_result start_update first_dirty finish_update
    replicate_default default_entry
settled-Reach =
    next (next here (polled 3 0 (record { key = 3; index = 0; value = none }) sent_slot.table refl))
      (carried_out 3 0 refl)

settled-idle : settled.table.updating ≡ none
unfolding new poll_update report_update_result start_update first_dirty finish_update
    replicate_default default_entry
settled-idle = refl

settled-pending : poll_update 4 0 settled.table ≡ (pending, (poll_update 4 0 settled.table).1)
unfolding new poll_update report_update_result start_update first_dirty finish_update
    replicate_default default_entry
settled-pending = refl

settled-bound : 0 < length settled.table.table
unfolding new poll_update report_update_result start_update first_dirty finish_update
    replicate_default default_entry
settled-bound = ground arith

poll_update-settled_example : settled.device 0 ≡ value_at settled.table.table 0
poll_update-settled_example =
    poll_update-settled 1 old 4 0 (poll_update 4 0 settled.table).1 settled-Reach settled-idle
      settled-pending 0 settled-bound

initializing :
    (is_some (poll_action 3 0 CombinedPendingTable.new).1.initializing
      || not (poll_action 3 0 CombinedPendingTable.new).1.is_initialized)
    ≡ true
unfolding poll_action CombinedPendingTable.new
initializing = refl

updating-uninitialized_example :
    ((poll_action 3 0 CombinedPendingTable.new).1.short_table.updating ≡ none)
    × ((poll_action 3 0 CombinedPendingTable.new).1.extended_table.updating ≡ none)
updating-uninitialized_example =
    updating-uninitialized (poll_action 3 0 CombinedPendingTable.new).1
      (Calm.next Calm.here (Calm.polled 3 0)) initializing
