-- ===== src/Mac/DeviceQueue.antt =====
-- src/ieee802154/mac/devicequeue.rs: the frames that wait for one device. A timer is what
-- `async_std::task::sleep` returns: its type, the function that makes one of a duration in nanoseconds
-- and the test whether a poll of it is ready are parameters; what a poll of a timer registers in it is
-- not modelled. A new `UniqueKey` is an argument.
pub mod Runs
pub mod Attempts
pub mod Retries
pub mod Keys
pub mod Cost
pub mod Numbers
pub mod Requests
pub mod Answers
pub mod Actions
use zigbee_rust_playground.Common.{
  ℕ, ◌+◌, ◌*◌, ◌-◌, ◌==◌, ltb, opt_eq, is_some, if◌then◌else◌, Bool, true, false, not, ◌||◌, ◌&&◌,
  Option, none, some, List, [], ◌∷◌, ◌++◌, length, Result, ok, err,
}
use zigbee_rust_playground.Frame.Types.{FullAddress, AddressingMode, FrameType, Frame}
use zigbee_rust_playground.Pib.{
  Pib, next_data_sequence_nr, get_full_short_address, get_full_extended_address,
}
use zigbee_rust_playground.Mac.Waker.{WakerStore, Poll, ready, pending, wake, pend}
use zigbee_rust_playground.Mac.Waker

-- src/ieee802154/mac/data.rs
pub record DataRequest : Type 0 where
  pub key : ℕ
  pub destination : Option FullAddress
  pub source_mode : AddressingMode
  pub acknowledge_request : Bool
  pub indirect : Bool
  pub content : FrameType

pub data DeviceQueueError : Type 0 where
  transaction_expired send_failure no_ack : DeviceQueueError

abbrev pub SendOutcome : Type 0
SendOutcome = Result DeviceQueueError (List ℕ)

pub data DeviceQueueState (Timer : Type 0) : Type 0 where
  idle : (datarequest : Bool) → DeviceQueueState Timer
  sending :
      (send_key : ℕ) (ack_requested : Option ℕ) (ack_payload : List ℕ) → DeviceQueueState Timer
  waiting_for_ack : (ack_requested : ℕ) (timeout : Timer) → DeviceQueueState Timer
  have_result : (result : SendOutcome) → DeviceQueueState Timer

pub record DeviceQueueEntry (Timer : Type 0) : Type 0 where
  pub request : DataRequest
  pub retries_left : ℕ
  pub timeout : Timer

pub record DeviceQueue (Timer : Type 0) : Type 0 where
  pub state : DeviceQueueState Timer
  pub last_pending_reported : Option Bool
  pub entries : List (DeviceQueueEntry Timer)
  pub waker : WakerStore

pub data DeviceQueueAction : Type 0 where
  empty : DeviceQueueAction
  set_pending : Bool → DeviceQueueAction
  send_frame : ℕ → Frame → DeviceQueueAction
  report_result : ℕ → SendOutcome → DeviceQueueAction

-- The frame to send for a request, the sequence number that its acknowledgement is to have, and the
-- PIB with the next sequence number.
unfoldable pub source_address : AddressingMode → Pib → Option FullAddress
source_address AddressingMode.none pib = none
source_address AddressingMode.reserved pib = none
source_address AddressingMode.short pib = some (get_full_short_address pib)
source_address AddressingMode.extended pib = some (get_full_extended_address pib)

unfoldable pub create_frame : DataRequest → Pib → Bool → (Option ℕ × Frame) × Pib
create_frame request pib more_pending =
    let (sequence_nr, pib') = next_data_sequence_nr pib in
    (
      (
        if request.acknowledge_request then some sequence_nr else none,
        record {
          frame_pending = more_pending;
          acknowledge_request = request.acknowledge_request;
          sequence_number = some sequence_nr;
          destination = request.destination;
          source = source_address request.source_mode pib;
          frame_type = request.content;
        },
      ),
      pib',
    )

-- Whether the last report of the pending bit was this one.
abbrev pub reported_as : Option Bool → Bool → Bool
reported_as none b = false
reported_as (some true) b = b
reported_as (some false) b = not b

module _ {Timer : Type 0} where
  unfoldable pub new : DeviceQueue Timer
  new = record { state = idle false; last_pending_reported = none; entries = []; waker = Waker.new }

  unfoldable pub contains : ℕ → List (DeviceQueueEntry Timer) → Bool
  contains key [] = false
  contains key (e ∷ es) = if e.request.key == key then true else contains key es

  -- `insert`, with what `sleep` makes of the PIB's persistence time.
  unfoldable pub insert :
      (ℕ → Timer) → Pib → DataRequest → DeviceQueue Timer → Bool × DeviceQueue Timer
  insert sleep pib entry q = if contains entry.key q.entries then (false, q) else (
    true,
    record q {
      entries =
          q.entries
          ++ (record {
            request = entry;
            retries_left = pib.mac_max_frame_retries;
            timeout = sleep pib.mac_transaction_persistence_time;
          }
              ∷ []);
      waker = wake q.waker;
    },
  )

  -- `entries.retain(|e| e.data.key != key)`
  unfoldable pub retain : ℕ → List (DeviceQueueEntry Timer) → List (DeviceQueueEntry Timer)
  retain key [] = []
  retain key (e ∷ es) = if e.request.key == key then retain key es else e ∷ retain key es

  unfoldable pub front_is : ℕ → List (DeviceQueueEntry Timer) → Bool
  front_is key [] = false
  front_is key (e ∷ es) = e.request.key == key

  unfoldable pub remove : ℕ → DeviceQueue Timer → Bool × DeviceQueue Timer
  remove key q =
      let first_removed = front_is key q.entries in
      let entries = retain key q.entries in
      let state = if first_removed then idle false else q.state in
      if first_removed || ltb (length entries) (length q.entries)
      then (true, record q { entries = entries; state = state; waker = wake q.waker })
      else (false, record q { entries = entries; state = state })

  unfoldable pub received_datarequest : DeviceQueueState Timer → DeviceQueueState Timer
  received_datarequest (idle d) = idle true
  received_datarequest (sending k a p) = sending k a p
  received_datarequest (waiting_for_ack a t) = waiting_for_ack a t
  received_datarequest (have_result r) = have_result r

  unfoldable pub process_datarequest : DeviceQueue Timer → DeviceQueue Timer
  unfolding received_datarequest
  process_datarequest q = record q { state = received_datarequest q.state; waker = wake q.waker }

  -- `process_send_result` where the key is that of the frame under way and sending it failed.
  unfoldable pub failed_send : DeviceQueue Timer → List (DeviceQueueEntry Timer) → DeviceQueue Timer
  failed_send q [] = record q { state = idle false }
  failed_send q (front ∷ rest) =
      if front.request.indirect
      then record q { state = idle false }
      else if ltb 0 front.retries_left
      then record q {
        state = idle false;
        entries = record front { retries_left = front.retries_left - 1 } ∷ rest;
      }
      else record q { state = have_result (err send_failure) }

  -- The state that follows a frame that was sent. The acknowledgement may take 100 ms.
  unfoldable pub after_send : (ℕ → Timer) → Option ℕ → List ℕ → DeviceQueueState Timer
  after_send sleep (some ack_requested) ack_payload =
      waiting_for_ack ack_requested (sleep (100 * 1000000))
  after_send sleep none ack_payload = have_result (ok ack_payload)

  unfoldable pub send_result :
      (ℕ → Timer) → ℕ → Bool → DeviceQueueState Timer → DeviceQueue Timer → DeviceQueue Timer
  send_result sleep key success (sending send_key ack_requested ack_payload) q =
      if send_key == key
      then if success
        then record q { state = after_send sleep ack_requested ack_payload }
        else failed_send q q.entries
      else q
  send_result sleep key success (idle d) q = q
  send_result sleep key success (waiting_for_ack a t) q = q
  send_result sleep key success (have_result r) q = q

  unfoldable pub process_send_result :
      (ℕ → Timer) → ℕ → Bool → DeviceQueue Timer → DeviceQueue Timer
  process_send_result sleep key success q = send_result sleep key success q.state q

  unfoldable pub acknowledged : Option ℕ → List ℕ → DeviceQueueState Timer → DeviceQueueState Timer
  acknowledged seq_nr payload (waiting_for_ack ack_requested timeout) =
      if opt_eq seq_nr (some ack_requested)
      then have_result (ok payload)
      else waiting_for_ack ack_requested timeout
  acknowledged seq_nr payload (sending send_key ack_requested ack_payload) =
      if is_some ack_requested && opt_eq ack_requested seq_nr
      then sending send_key none payload
      else sending send_key ack_requested ack_payload
  acknowledged seq_nr payload (idle d) = idle d
  acknowledged seq_nr payload (have_result r) = have_result r

  unfoldable pub process_acknowledge : Option ℕ → List ℕ → DeviceQueue Timer → DeviceQueue Timer
  process_acknowledge seq_nr payload q = record q { state = acknowledged seq_nr payload q.state }

  -- The loop over the entries' timeouts: the index of the first that expired, its key, and the others.
  unfoldable pub take_expired :
      (Timer → Bool)
      → List (DeviceQueueEntry Timer)
      → Option (ℕ × ℕ × List (DeviceQueueEntry Timer))
  take_expired expired [] = none
  take_expired expired (e ∷ es) =
      if expired e.timeout then some (0, e.request.key, es) else elim (take_expired expired es) [
        | none ↦ none
        | some (index, key, others) ↦ some (1 + index, key, e ∷ others)
      ]

  -- The end of `poll_next_action`: the timeouts, and then waiting.
  unfoldable pub poll_timeouts :
      ℕ
      → DeviceQueue Timer
      → Option (ℕ × ℕ × List (DeviceQueueEntry Timer))
      → Poll DeviceQueueAction × DeviceQueue Timer
  poll_timeouts cx q none = (pending, record q { waker = pend q.waker cx })
  poll_timeouts cx q (some (index, key, others)) = (
    ready (report_result key (err transaction_expired)),
    record q { entries = others; state = if index == 0 then idle false else q.state },
  )

  unfoldable pub wait :
      (Timer → Bool)
      → ℕ
      → Pib
      → DeviceQueue Timer
      → Poll DeviceQueueAction × Pib × DeviceQueue Timer
  wait expired cx pib q =
      let (action, q') = poll_timeouts cx q (take_expired expired q.entries) in (action, pib, q')

  unfoldable pub front_indirect : List (DeviceQueueEntry Timer) → Bool
  front_indirect [] = false
  front_indirect (e ∷ es) = e.request.indirect

  -- `poll_next_action` for the entry in front and those after it, by the state.
  unfoldable pub poll_front :
      (Timer → Bool)
      → ℕ
      → ℕ
      → DeviceQueueState Timer
      → DeviceQueueEntry Timer
      → List (DeviceQueueEntry Timer)
      → Pib
      → DeviceQueue Timer
      → Poll DeviceQueueAction × Pib × DeviceQueue Timer
  poll_front expired key cx (idle datarequest) front rest pib q =
      if not front.request.indirect || datarequest
      then (let ((ack_requested, frame), pib') =
            create_frame front.request pib (front_indirect rest) in
          (ready (send_frame key frame), pib', record q { state = sending key ack_requested [] }))
      else wait expired cx pib (record q { state = idle false })
  poll_front expired key cx (waiting_for_ack ack_requested timeout) front rest pib q =
      if expired timeout
      then if front.request.indirect
        then wait expired cx pib (record q { state = idle false })
        else if ltb 0 front.retries_left
        then wait expired cx pib (record q {
          state = idle false;
          entries = record front { retries_left = front.retries_left - 1 } ∷ rest;
        })
        else (
          ready (report_result front.request.key (err no_ack)),
          pib,
          record q { state = idle false; entries = rest },
        )
      else wait expired cx pib q
  poll_front expired key cx (have_result result) front rest pib q = (
    ready (report_result front.request.key result),
    pib,
    record q { state = idle false; entries = rest },
  )
  poll_front expired key cx (sending send_key ack_requested ack_payload) front rest pib q =
      wait expired cx pib q

  -- `poll_next_action` where the pending bit is as it was reported.
  unfoldable pub poll_entries :
      (Timer → Bool)
      → ℕ
      → ℕ
      → List (DeviceQueueEntry Timer)
      → Pib
      → DeviceQueue Timer
      → Poll DeviceQueueAction × Pib × DeviceQueue Timer
  poll_entries expired key cx [] pib q = (ready empty, pib, record q { state = idle false })
  poll_entries expired key cx (front ∷ rest) pib q =
      poll_front expired key cx q.state front rest pib q

  unfoldable pub poll_next_action :
      (Timer → Bool)
      → ℕ
      → ℕ
      → Pib
      → DeviceQueue Timer
      → Poll DeviceQueueAction × Pib × DeviceQueue Timer
  poll_next_action expired key cx pib q =
      if reported_as q.last_pending_reported (front_indirect q.entries)
      then poll_entries expired key cx q.entries pib q
      else (
        ready (set_pending (front_indirect q.entries)),
        pib,
        record q { last_pending_reported = some (front_indirect q.entries) },
      )
