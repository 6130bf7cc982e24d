-- ===== src/Examples/Services.antt =====
-- Runs of the data service on one data request.
use zigbee_rust_playground.Common.{ℕ, ◌<◌, ◌≡◌, arith, none, List, [], ◌∷◌, true, false, ok}
use zigbee_rust_playground.Frame.Types.{AddressingMode}
use zigbee_rust_playground.Pib.{Pib}
use zigbee_rust_playground.Common.Assoc.{lookup, store}
use zigbee_rust_playground.Services.Mcps
use zigbee_rust_playground.Mac.DeviceQueue.{contains}
use zigbee_rust_playground.Mac.DeviceQueue
use zigbee_rust_playground.Mac.Waker.{Poll}
use zigbee_rust_playground.Mac.CombinedPendingTable.Slots.{HasTables, new-HasTables}
use zigbee_rust_playground.Mac.DataService.{
  DataService, DataServiceAction, new, process_mcps_request, process_mcps_data_request, insert,
  poll_action,
}
use zigbee_rust_playground.Mac.DataService.Total.{total, poll_action-total}
use zigbee_rust_playground.Mac.DataService.Held.{holds, AreQueues}
use zigbee_rust_playground.Mac.DataService.Reach.{start, step, mcps_requested, reach-holds}
use zigbee_rust_playground.Examples.Queues.{pib}
use zigbee_rust_playground.Examples.Bimaps.{Change, changes}

abbrev data_request : Mcps.DataRequest
data_request = record {
  source_addressing_mode = AddressingMode.short;
  destination = none;
  msdu = 1 ∷ 2 ∷ [];
  msdu_handle = 7;
  ack_tx = false;
  indirect_tx = false;
}

abbrev requested : DataService ℕ (List Change)
requested = (process_mcps_request (λ n. n) 5 pib (Mcps.data_request data_request) new).1

requested-total : total requested.queues < 20
unfolding total process_mcps_request process_mcps_data_request insert new lookup store
    DeviceQueue.insert DeviceQueue.new contains
requested-total = omega arith

requested-HasTables : HasTables requested.pending_table
unfolding process_mcps_request process_mcps_data_request insert new lookup
requested-HasTables = new-HasTables

poll_action-total_example :
    (x : Poll DataServiceAction) × (pib' : Pib) × (s' : DataService ℕ (List Change)) × (poll_action
        20
        (λ t. false)
        1
        0
        pib
        requested
      ≡ ok (x, pib', s'))
    × HasTables s'.pending_table
poll_action-total_example =
    poll_action-total 20 (λ t. false) 1 0 pib requested requested-HasTables requested-total

reach-holds_example :
    AreQueues requested.queues
    × ((handle key : ℕ)
        → changes.has requested.msdu_handles handle key ≡ true
        → holds key requested.queues ≡ true)
reach-holds_example =
    reach-holds requested
      (step start (mcps_requested (λ n. n) 5 pib (Mcps.data_request data_request)))
