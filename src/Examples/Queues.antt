-- ===== src/Examples/Queues.antt =====
-- The queue of one device, with a request that is sent at once and one that waits for a data request.
use zigbee_rust_playground.Common.{
  ℕ, ◌+◌, ◌*◌, ◌≤◌, ◌≡◌, refl, arith, [], ◌∷◌, get_elem?, none, some, Bool, true, false, not, ◌||◌,
  ◌&&◌, ◌==◌, ltb,
}
use zigbee_rust_playground.Frame.Types.{FrameType, AddressingMode}
use zigbee_rust_playground.Pib.{Pib, next_data_sequence_nr}
use zigbee_rust_playground.Pib as Attributes
use zigbee_rust_playground.Mac.DeviceQueue.{
  DataRequest, DeviceQueue, DeviceQueueEntry, new, insert, remove, contains, poll_next_action,
  poll_entries, poll_front, front_indirect, create_frame,
}
use zigbee_rust_playground.Mac.DeviceQueue.Runs.{
  Run, Reach, here, next, inserted, polled, start, counted,
}
use zigbee_rust_playground.Mac.DeviceQueue.Retries.{sent-IsBounded}
use zigbee_rust_playground.Mac.DeviceQueue.Keys.{
  AreKeyed, Reports, insert-keys, remove-keys, poll_next_action-keys,
}
use zigbee_rust_playground.Mac.DeviceQueue.Actions.{poll_next_action-Answers}
use zigbee_rust_playground.Mac.DeviceQueue.Answers.{Answers}

abbrev pub pib : Pib
pib = Attributes.new 250 254 (record { value = 0x0011223344556677 }) 11 20

abbrev request : DataRequest
request = record {
  key = 1;
  destination = none;
  source_mode = AddressingMode.short;
  acknowledge_request = true;
  indirect = false;
  content = FrameType.data_frame (record { bytes = 1 ∷ [] });
}

abbrev entry : DeviceQueueEntry ℕ
entry = record { request = request; retries_left = 3; timeout = 900 }

abbrev later : DeviceQueueEntry ℕ
later = record {
  request = record request { key = 2; indirect = true };
  retries_left = 3;
  timeout = 950;
}

abbrev queue : DeviceQueue ℕ
queue = record (new {Timer = ℕ}) {
  entries = entry ∷ later ∷ [];
  last_pending_reported = some false;
}

queue-AreKeyed : AreKeyed queue.entries
unfolding contains
queue-AreKeyed = (refl, (refl, tt))

-- At the time 100 no timer has expired.
abbrev expired : ℕ → Bool
expired t = ltb t 100

insert-keys_example :
    AreKeyed (insert (λ d. d) pib request queue).1.entries
    × ((insert (λ d. d) pib request queue).0 ≡ not (contains request.key queue.entries))
    × ((j : ℕ)
        → contains j (insert (λ d. d) pib request queue).1.entries
          ≡ (contains j queue.entries || (request.key == j)))
insert-keys_example = insert-keys (λ d. d) pib request queue queue-AreKeyed

remove-keys_example :
    AreKeyed (remove 2 queue).1.entries
    × ((remove 2 queue).0 ≡ contains 2 queue.entries)
    × ((j : ℕ) → contains j (remove 2 queue).1.entries ≡ (contains j queue.entries && not (2 == j)))
remove-keys_example = remove-keys 2 queue queue-AreKeyed

poll_next_action-keys_example : Reports queue.entries (poll_next_action expired 8 0 pib queue)
poll_next_action-keys_example = poll_next_action-keys expired 8 0 pib queue queue-AreKeyed

poll_next_action-Answers_example :
    Answers expired 0 pib queue (poll_next_action expired 8 0 pib queue)
poll_next_action-Answers_example = poll_next_action-Answers expired 8 0 pib queue

-- A request is inserted; the first poll reports the pending bit and the second hands out the frame.
abbrev run0 : Run ℕ
run0 = record start { queue = (insert (λ d. d) pib request new).1 }

abbrev run1 : Run ℕ
run1 = record {
  queue = (poll_next_action expired 7 0 pib run0.queue).2;
  sent = counted (poll_next_action expired 7 0 pib run0.queue).0 run0.queue.entries run0.sent;
}

abbrev run2 : Run ℕ
run2 = record {
  queue = (poll_next_action expired 8 0 pib run1.queue).2;
  sent = counted (poll_next_action expired 8 0 pib run1.queue).0 run1.queue.entries run1.sent;
}

few : pib.mac_max_frame_retries ≤ 3
unfolding Attributes.new
few = omega arith

run2-Reach : Reach 3 run2
run2-Reach =
    next (next (next here (inserted (λ d. d) pib request few refl)) (polled expired 7 0 pib))
      (polled expired 8 0 pib)

abbrev front : DeviceQueueEntry ℕ
front = record entry { timeout = 5 * 60 * 1000000000 }

in_front : get_elem? run2.queue.entries 0 ≡ some front
unfolding Attributes.new new insert contains poll_next_action poll_entries poll_front front_indirect
    create_frame next_data_sequence_nr counted
in_front = refl

sent-IsBounded_example : run2.sent 1 ≤ 3 + 1
sent-IsBounded_example = sent-IsBounded 3 run2 0 front run2-Reach in_front refl
