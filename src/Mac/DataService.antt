-- ===== src/Mac/DataService.antt =====
-- src/ieee802154/mac/data.rs: the queues of all devices, the handles of the data requests and the
-- pending tables. A new `UniqueKey` is an argument; a call of `poll_action` draws one at most, since it
-- returns where it draws one. All polls of timers in one call see the same time.
pub mod Total
pub mod Held
pub mod Passes
pub mod Drained
pub mod Handles
pub mod Reach
pub mod Counted
pub mod Tables
pub mod Fits
use zigbee_rust_playground.Common.{
  ℕ, zero, suc, ◌==◌, if◌then◌else◌, Bool, true, false, not, ◌||◌, Option, none, some, List, [],
  ◌∷◌, Result, ok, err, map_err,
}
use zigbee_rust_playground.Common.Eq.{Eq, option_eq, option_beq}
use zigbee_rust_playground.Common.Assoc.{lookup, store, erase, map_values}
use zigbee_rust_playground.Bimap.{BiMap}
use zigbee_rust_playground.Frame.Types.{
  PanId, ShortAddress, ExtendedAddress, FullAddress, full_address_eq, Frame, FrameType, Command,
  data_request, Payload,
}
use zigbee_rust_playground.Frame.Keys.{full_address_key}
use zigbee_rust_playground.Pib.{
  Pib, Error, transaction_expired, channel_access_failure, no_ack, invalid_handle,
  get_full_short_address, get_full_extended_address,
}
use zigbee_rust_playground.Services.Mcps
use zigbee_rust_playground.Services.Mcps.{Confirm, data_confirm, purge_confirm}
use zigbee_rust_playground.Mac.Waker.{WakerStore, Poll, ready, pending, wake, pend}
use zigbee_rust_playground.Mac.Waker
use zigbee_rust_playground.Mac.CombinedPendingTable.{
  CombinedPendingTable, CombinedPendingTableAction, init, update_short, update_extended,
  report_init_result, set_address,
}
use zigbee_rust_playground.Mac.CombinedPendingTable
use zigbee_rust_playground.Mac.DeviceQueue.{
  DataRequest, DeviceQueue, DeviceQueueError, DeviceQueueAction, SendOutcome, empty, set_pending,
  send_frame, report_result, process_datarequest, process_acknowledge, poll_next_action,
}
use zigbee_rust_playground.Mac.DeviceQueue

pub data DataServiceAction : Type 0 where
  init_pending_table : ℕ → DataServiceAction
  set_pending_short : ℕ → ℕ → Option (PanId × ShortAddress) → DataServiceAction
  set_pending_extended : ℕ → ℕ → Option ExtendedAddress → DataServiceAction
  send_data : ℕ → Frame → DataServiceAction
  confirm : Confirm → DataServiceAction

-- `From<CombinedPendingTableAction> for DataServiceAction`
unfoldable pub from_table_action : CombinedPendingTableAction → DataServiceAction
from_table_action (init key) = init_pending_table key
from_table_action (update_short key index value) = set_pending_short key index value
from_table_action (update_extended key index value) = set_pending_extended key index value

unfoldable pub from_queue_error : DeviceQueueError → Error
from_queue_error DeviceQueueError.transaction_expired = transaction_expired
from_queue_error DeviceQueueError.send_failure = channel_access_failure
from_queue_error DeviceQueueError.no_ack = no_ack

abbrev pub Queues : Type 0 → Type 0
Queues Timer = List (Option FullAddress × DeviceQueue Timer)

pub record DataService (Timer M : Type 0) : Type 0 where
  pub queues : Queues Timer
  pub msdu_handles : M
  pub pending_table : CombinedPendingTable
  pub waker : WakerStore

-- How a call that does not return ends: the fuel of its loop is gone, or it panics.
pub data Stop : Type 0 where
  out_of_fuel panic : Stop

module _ {Timer : Type 0} where
  -- The loop of `remove`, where `||` leaves out the call once a queue had the key.
  unfoldable pub remove_each : ℕ → Bool → Queues Timer → Bool × Queues Timer
  remove_each key removed [] = (removed, [])
  remove_each key true (p ∷ ps) = let (r, qs) = remove_each key true ps in (r, p ∷ qs)
  remove_each key false ((d, q) ∷ ps) =
      let (removed, q') = DeviceQueue.remove key q in
      let (r, qs) = remove_each key removed ps in (r, (d, q') ∷ qs)

  -- The loop of `poll_action` over the queues, up to the first that is ready.
  unfoldable pub poll_queues :
      (Timer → Bool)
      → ℕ
      → ℕ
      → Pib
      → Queues Timer
      → Option (Option FullAddress × DeviceQueueAction) × Pib × Queues Timer
  poll_queues expired key cx pib [] = (none, pib, [])
  poll_queues expired key cx pib ((d, q) ∷ ps) =
      let (polled, pib', q') = poll_next_action expired key cx pib q in
      let (found, pib'', qs) = poll_queues expired key cx pib' ps in
      elim polled [
        | ready action ↦ (some (d, action), pib', (d, q') ∷ ps)
        | pending ↦ (found, pib'', (d, q') ∷ qs)
      ]

module _ {Timer M : Type 0} ⦃b : BiMap M⦄ where
  unfoldable pub new : DataService Timer M
  new = record {
    queues = [];
    msdu_handles = b.empty;
    pending_table = CombinedPendingTable.new;
    waker = Waker.new;
  }

  unfoldable pub insert :
      (ℕ → Timer) → Pib → DataRequest → DataService Timer M → DataService Timer M
  insert sleep pib entry s = elim (lookup entry.destination s.queues) [
    | some existing ↦ record s {
      queues = store entry.destination (DeviceQueue.insert sleep pib entry existing).1 s.queues;
    }
    | none ↦ record s {
      queues =
          store entry.destination (DeviceQueue.insert sleep pib entry DeviceQueue.new).1 s.queues;
      waker = wake s.waker;
    }
  ]

  unfoldable pub remove : ℕ → DataService Timer M → Bool × DataService Timer M
  remove key s =
      let (removed, queues) = remove_each key false s.queues in
      (removed, record s { queues = queues })

  -- What `poll_action` does with the first action of a queue: it returns a result, or it goes round
  -- again, and panics where the pending table does.
  unfoldable pub queue_action :
      Option FullAddress
      → DeviceQueueAction
      → DataService Timer M
      → Result Stop (Option DataServiceAction × DataService Timer M)
  queue_action destination empty s = ok (none, record s { queues = erase destination s.queues })
  queue_action destination (set_pending pending_bit) s =
      elim (set_address destination pending_bit s.pending_table) [
        | none ↦ err panic
        | some table ↦ ok (none, record s { pending_table = table })
      ]
  queue_action destination (send_frame key frame) s = ok (some (send_data key frame), s)
  queue_action destination (report_result key result) s =
      let (found, handles) = b.remove_by_right key s.msdu_handles in
      let s' : DataService Timer M = record s { msdu_handles = handles } in
      elim found [
        | none ↦ ok (none, s')
        | some (handle, _) ↦ ok (
          some (
              confirm (
                data_confirm (record {
                  msdu_handle = handle;
                  ack_payload = map_err from_queue_error result;
                }))),
          s',
        )
      ]

  -- An action of a queue returns from `poll_action`, or has it go round again.
  abbrev pub after_action :
      Pib
      → Result Stop (Option DataServiceAction × DataService Timer M)
      → Result Stop (Option (Poll DataServiceAction) × Pib × DataService Timer M)
  after_action pib (err stop) = err stop
  after_action pib (ok (none, s)) = ok (none, pib, s)
  after_action pib (ok (some x, s)) = ok (some (ready x), pib, s)

  -- One round of the loop of `poll_action`: `some` of what it returns, or `none` to go round again.
  unfoldable pub poll_round :
      (Timer → Bool)
      → ℕ
      → ℕ
      → Pib
      → DataService Timer M
      → Result Stop (Option (Poll DataServiceAction) × Pib × DataService Timer M)
  poll_round expired key cx pib s =
      let (table_action, table) = CombinedPendingTable.poll_action key cx s.pending_table in
      let (found, pib', queues) = poll_queues expired key cx pib s.queues in
      let polled : DataService Timer M = record s { pending_table = table; queues = queues } in
      elim table_action [
        | ready x ↦ ok (some (ready (from_table_action x)), pib, record s { pending_table = table })
        | pending ↦ elim found [
          | none ↦ ok (some pending, pib', record polled { waker = pend s.waker cx })
          | some (destination, action) ↦ after_action pib' (queue_action destination action polled)
        ]
      ]

  unfoldable pub poll_action :
      ℕ
      → (Timer → Bool)
      → ℕ
      → ℕ
      → Pib
      → DataService Timer M
      → Result Stop (Poll DataServiceAction × Pib × DataService Timer M)
  poll_action zero expired key cx pib s = err out_of_fuel
  poll_action (suc fuel) expired key cx pib s = elim (poll_round expired key cx pib s) [
    | err stop ↦ err stop
    | ok (some x, pib', s') ↦ ok (x, pib', s')
    | ok (none, pib', s') ↦ poll_action fuel expired key cx pib' s'
  ]

  unfoldable pub process_init_pending_table_result :
      ℕ → Bool → DataService Timer M → DataService Timer M
  process_init_pending_table_result key success s = record s {
    pending_table = report_init_result key success s.pending_table;
  }

  unfoldable pub process_set_pending_result : ℕ → Bool → DataService Timer M → DataService Timer M
  process_set_pending_result key success s = record s {
    pending_table = CombinedPendingTable.report_update_result key success s.pending_table;
  }

  unfoldable pub process_send_result :
      (ℕ → Timer) → ℕ → Bool → DataService Timer M → DataService Timer M
  process_send_result sleep key success s = record s {
    queues = map_values (DeviceQueue.process_send_result sleep key success) s.queues;
  }

  unfoldable pub process_frame_ack : Frame → Payload → DataService Timer M → DataService Timer M
  process_frame_ack frame payload s = record s {
    queues = map_values (process_acknowledge frame.sequence_number payload.bytes) s.queues;
  }

  unfoldable pub process_frame_data_request :
      Pib → Frame → DataService Timer M → DataService Timer M
  process_frame_data_request pib frame s =
      if option_beq full_address_eq frame.destination (some (get_full_short_address pib))
        || option_beq full_address_eq frame.destination (some (get_full_extended_address pib))
      then elim (lookup frame.source s.queues) [
        | none ↦ s
        | some queue ↦ record s { queues = store frame.source (process_datarequest queue) s.queues }
      ]
      else s

  unfoldable pub process_frame : Pib → Frame → DataService Timer M → DataService Timer M
  process_frame pib frame s = elim frame.frame_type [
    | FrameType.ack payload ↦ process_frame_ack frame payload s
    | FrameType.command data_request ↦ process_frame_data_request pib frame s
    | _ ↦ s
  ]

  -- `process_mcps_data_request`, with its new key.
  unfoldable pub process_mcps_data_request :
      (ℕ → Timer)
      → ℕ
      → Pib
      → Mcps.DataRequest
      → DataService Timer M
      → Option Confirm × DataService Timer M
  process_mcps_data_request sleep key pib request s =
      let s' : DataService Timer M =
        insert sleep pib
          (record {
            key = key;
            destination = request.destination;
            source_mode = request.source_addressing_mode;
            acknowledge_request = request.ack_tx;
            indirect = request.indirect_tx;
            content = FrameType.data_frame (record { bytes = request.msdu });
          })
          s in
      (none, record s' { msdu_handles = b.insert request.msdu_handle key s'.msdu_handles })

  unfoldable pub process_mcps_purge_request :
      Mcps.PurgeRequest → DataService Timer M → Confirm × DataService Timer M
  process_mcps_purge_request request s =
      let (found, handles) = b.remove_by_left request.msdu_handle s.msdu_handles in
      let s' : DataService Timer M = record s { msdu_handles = handles } in
      elim found [
        | some (handle, key) ↦
            (purge_confirm (record { msdu_handle = handle; status = ok tt }), (remove key s').1)
        | none ↦ (
          purge_confirm (record { msdu_handle = request.msdu_handle; status = err invalid_handle }),
          s',
        )
      ]

  unfoldable pub process_mcps_request :
      (ℕ → Timer)
      → ℕ
      → Pib
      → Mcps.Request
      → DataService Timer M
      → Option Confirm × DataService Timer M
  process_mcps_request sleep key pib (Mcps.data_request r) s =
      process_mcps_data_request sleep key pib r s
  process_mcps_request sleep key pib (Mcps.purge_request r) s =
      let (answer, s') = process_mcps_purge_request r s in (some answer, s')
