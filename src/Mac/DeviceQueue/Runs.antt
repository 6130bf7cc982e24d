-- ===== src/Mac/DeviceQueue/Runs.antt =====
-- What happens to a device's queue, with the frames that were handed out for each request.
use zigbee_rust_playground.Common.{
  ℕ, suc, ◌≤◌, ◌≡◌, ◌==◌, if◌then◌else◌, Bool, List, [], ◌∷◌, Option,
}
use zigbee_rust_playground.Pib.{Pib}
use zigbee_rust_playground.Mac.Waker.{Poll, ready, pending}
use zigbee_rust_playground.Mac.DeviceQueue.{
  DataRequest, DeviceQueue, DeviceQueueEntry, DeviceQueueAction, empty, set_pending, send_frame,
  report_result, new, insert, remove, process_datarequest, process_send_result, process_acknowledge,
  poll_next_action,
}

abbrev pub bump : ℕ → (ℕ → ℕ) → ℕ → ℕ
bump key sent j = if j == key then suc (sent j) else sent j

-- A queue with the number of frames that it handed out for each key.
pub record Run (Timer : Type 0) : Type 0 where
  pub queue : DeviceQueue Timer
  pub sent : ℕ → ℕ

module _ {Timer : Type 0} where
  -- A frame is handed out for the entry in front.
  unfoldable pub counted : Poll DeviceQueueAction → List (DeviceQueueEntry Timer) → (ℕ → ℕ) → ℕ → ℕ
  counted (ready (send_frame key frame)) (front ∷ rest) sent = bump front.request.key sent
  counted (ready (send_frame key frame)) [] sent = sent
  counted (ready empty) entries sent = sent
  counted (ready (set_pending b)) entries sent = sent
  counted (ready (report_result key r)) entries sent = sent
  counted pending entries sent = sent

  -- The calls of the data service. The PIB allows at most `n` retries when a request is inserted, and
  -- its key is one for which no frame was handed out before.
  pub data Step (n : ℕ) (s : Run Timer) : Run Timer → Type 0 where
    inserted :
        (sleep : ℕ → Timer) (pib : Pib) (request : DataRequest)
        → pib.mac_max_frame_retries ≤ n
        → s.sent request.key ≡ 0
        → Step n s (record s { queue = (insert sleep pib request s.queue).1 })
    removed : (key : ℕ) → Step n s (record s { queue = (remove key s.queue).1 })
    data_requested : Step n s (record s { queue = process_datarequest s.queue })
    send_reported :
        (sleep : ℕ → Timer) (key : ℕ) (success : Bool)
        → Step n s (record s { queue = process_send_result sleep key success s.queue })
    acknowledge_received :
        (seq_nr : Option ℕ) (payload : List ℕ)
        → Step n s (record s { queue = process_acknowledge seq_nr payload s.queue })
    polled :
        (expired : Timer → Bool) (key cx : ℕ) (pib : Pib)
        → Step n s (record {
          queue = (poll_next_action expired key cx pib s.queue).2;
          sent = counted (poll_next_action expired key cx pib s.queue).0 s.queue.entries s.sent;
        })

  abbrev pub start : Run Timer
  start = record { queue = new; sent = λ _. 0 }

  pub data Reach (n : ℕ) : Run Timer → Type 0 where
    here : Reach n start
    next : {s u : Run Timer} → Reach n s → Step n s u → Reach n u
