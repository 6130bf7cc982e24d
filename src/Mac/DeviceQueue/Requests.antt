-- ===== src/Mac/DeviceQueue/Requests.antt =====
-- What holds of every request of a queue, over the operations of the queue.
use zigbee_rust_playground.Common.{
  ℕ, ◌≡◌, refl, inl, inr, ◌-◌, arith, Bool, false, not, ◌||◌, ltb, length, ◌==◌, Bool-cases,
  Option-cases, some, List, [], ◌∷◌, ◌++◌,
}
use zigbee_rust_playground.Pib.{Pib}
use zigbee_rust_playground.Mac.Waker.{Poll, ready, pending}
use zigbee_rust_playground.Mac.DeviceQueue.{
  DataRequest, DeviceQueue, DeviceQueueEntry, DeviceQueueState, idle, sending, waiting_for_ack,
  have_result, DeviceQueueAction, empty, set_pending, send_frame, report_result, contains, insert,
  retain, front_is, remove, failed_send, send_result, process_send_result, take_expired,
  poll_timeouts, wait, poll_front, poll_entries, poll_next_action, create_frame, front_indirect,
  reported_as,
}
use zigbee_rust_playground.Mac.DeviceQueue.Attempts.{take_expired-cases}

-- The frame that an answer hands out is of a request with the property.
abbrev pub Sends : (DataRequest → Type 0) → Poll DeviceQueueAction → Type 0
Sends P (ready (send_frame key frame)) = (r : DataRequest) × P r × (frame.frame_type ≡ r.content)
Sends P (ready empty) = Unit {0}
Sends P (ready (set_pending b)) = Unit {0}
Sends P (ready (report_result key r)) = Unit {0}
Sends P pending = Unit {0}

module _ {Timer : Type 0} (P : DataRequest → Type 0) where
  abbrev pub AllRequests : List (DeviceQueueEntry Timer) → Type 0
  AllRequests [] = Unit {0}
  AllRequests (e ∷ es) = P e.request × AllRequests es

  AllRequests-append :
      (es : List (DeviceQueueEntry Timer)) (x : DeviceQueueEntry Timer)
      → AllRequests es
      → P x.request
      → AllRequests (es ++ (x ∷ []))
  AllRequests-append [] x a p = (p, tt)
  AllRequests-append (e ∷ es) x (h, a) p = (h, AllRequests-append es x a p)

  pub insert-AllRequests :
      (sleep : ℕ → Timer) (pib : Pib) (request : DataRequest) (q : DeviceQueue Timer)
      → AllRequests q.entries
      → P request
      → AllRequests (insert sleep pib request q).1.entries
  unfolding insert
  insert-AllRequests sleep pib request q a p = elim (Bool-cases (contains request.key q.entries)) [
    | inl known ↦ simp known a
    | inr fresh ↦ simp fresh (AllRequests-append q.entries _ a p)
  ]

  AllRequests-retain :
      (key : ℕ) (es : List (DeviceQueueEntry Timer)) → AllRequests es → AllRequests (retain key es)
  unfolding retain
  AllRequests-retain key [] a = a
  AllRequests-retain key (e ∷ es) (h, a) = elim (Bool-cases (e.request.key == key)) [
    | inl gone ↦ rw gone (AllRequests-retain key es a)
    | inr kept ↦ rw kept (h, AllRequests-retain key es a)
  ]

  pub remove-AllRequests :
      (key : ℕ) (q : DeviceQueue Timer)
      → AllRequests q.entries
      → AllRequests (remove key q).1.entries
  unfolding remove
  remove-AllRequests key q a =
      elim (Bool-cases
        (front_is key q.entries || ltb (length (retain key q.entries)) (length q.entries))) [
          | inl hit ↦ simp hit (AllRequests-retain key q.entries a)
          | inr miss ↦ simp miss (AllRequests-retain key q.entries a)
        ]

  failed_send-AllRequests :
      (q : DeviceQueue Timer) (es : List (DeviceQueueEntry Timer))
      → q.entries ≡ es
      → AllRequests es
      → AllRequests (failed_send q es).entries
  unfolding failed_send
  failed_send-AllRequests q [] same a = rw same a
  failed_send-AllRequests q (e ∷ es) same a = elim (Bool-cases e.request.indirect) [
    | inl indirect ↦ simp indirect (rw same a)
    | inr direct ↦ elim (Bool-cases (ltb 0 e.retries_left)) [
      | inl left ↦ simp (direct, left) a
      | inr spent ↦ simp (direct, spent) (rw same a)
    ]
  ]

  send_result-AllRequests :
      (sleep : ℕ → Timer) (key : ℕ) (success : Bool) (state : DeviceQueueState Timer)
      (q : DeviceQueue Timer)
      → AllRequests q.entries
      → AllRequests (send_result sleep key success state q).entries
  unfolding send_result
  send_result-AllRequests sleep key success (idle d) q a = a
  send_result-AllRequests sleep key success (waiting_for_ack n t) q a = a
  send_result-AllRequests sleep key success (have_result r) q a = a
  send_result-AllRequests sleep key success (sending s n p) q a = elim (Bool-cases (s == key)) [
    | inr other ↦ simp other a
    | inl mine ↦ elim (Bool-cases success) [
      | inl done ↦ simp (mine, done) a
      | inr failed ↦ simp (mine, failed) (failed_send-AllRequests q q.entries refl a)
    ]
  ]

  pub process_send_result-AllRequests :
      (sleep : ℕ → Timer) (key : ℕ) (success : Bool) (q : DeviceQueue Timer)
      → AllRequests q.entries
      → AllRequests (process_send_result sleep key success q).entries
  unfolding process_send_result
  process_send_result-AllRequests sleep key success q a =
      send_result-AllRequests sleep key success q.state q a

  abbrev pub Keeps : Poll DeviceQueueAction × Pib × DeviceQueue Timer → Type 0
  Keeps (action, pib, q) = AllRequests q.entries × Sends P action

  AllRequests-take_expired :
      (expired : Timer → Bool) (i key : ℕ) (es others : List (DeviceQueueEntry Timer))
      → AllRequests es
      → take_expired expired es ≡ some (i, key, others)
      → AllRequests others
  AllRequests-take_expired expired i key [] others a h =
      absurd (unfold take_expired in ground (arith, h))
  AllRequests-take_expired expired i key (e ∷ es) others (p, a) h =
      elim (take_expired-cases expired i key e es others h) [
        | inl (e1, e2, e3) ↦ rw e3 a
        | inr (i', others', later, e1, e2) ↦
            rw e2 (p, AllRequests-take_expired expired i' key es others' a later)
      ]

  wait-Keeps :
      (expired : Timer → Bool) (cx : ℕ) (pib : Pib) (q : DeviceQueue Timer)
      → AllRequests q.entries
      → Keeps (wait expired cx pib q)
  unfolding wait poll_timeouts
  wait-Keeps expired cx pib q a = elim (Option-cases (take_expired expired q.entries)) [
    | inl never ↦ rw never (a, tt)
    | inr ((i, key, others), found) ↦
        rw found (AllRequests-take_expired expired i key q.entries others a found, tt)
  ]

  poll_front-Keeps :
      (expired : Timer → Bool) (key cx : ℕ) (state : DeviceQueueState Timer)
      (e : DeviceQueueEntry Timer) (es : List (DeviceQueueEntry Timer)) (pib : Pib)
      (q : DeviceQueue Timer)
      → q.entries ≡ e ∷ es
      → AllRequests (e ∷ es)
      → Keeps (poll_front expired key cx state e es pib q)
  unfolding poll_front create_frame
  poll_front-Keeps expired key cx (idle d) e es pib q same a =
      elim (Bool-cases (not e.request.indirect || d)) [
        | inl go ↦ simp go (rw same a, (e.request, a.0, refl))
        | inr stay ↦
            simp stay (wait-Keeps expired cx pib (record q { state = idle false }) (rw same a))
      ]
  poll_front-Keeps expired key cx (sending s n p) e es pib q same a =
      wait-Keeps expired cx pib q (rw same a)
  poll_front-Keeps expired key cx (have_result r) e es pib q same a = (a.1, tt)
  poll_front-Keeps expired key cx (waiting_for_ack n t) e es pib q same a =
      elim (Bool-cases (expired t)) [
        | inr early ↦ simp early (wait-Keeps expired cx pib q (rw same a))
        | inl late ↦ elim (Bool-cases e.request.indirect) [
          | inl indirect ↦
              simp (late, indirect)
                (wait-Keeps expired cx pib (record q { state = idle false }) (rw same a))
          | inr direct ↦ elim (Bool-cases (ltb 0 e.retries_left)) [
            | inr spent ↦ simp (late, direct, spent) (a.1, tt)
            | inl left ↦
                simp (late, direct, left)
                  (wait-Keeps expired cx pib
                    (record q {
                      state = idle false;
                      entries = record e { retries_left = e.retries_left - 1 } ∷ es;
                    })
                    a)
          ]
        ]
      ]

  poll_entries-Keeps :
      (expired : Timer → Bool) (key cx : ℕ) (es : List (DeviceQueueEntry Timer)) (pib : Pib)
      (q : DeviceQueue Timer)
      → q.entries ≡ es
      → AllRequests es
      → Keeps (poll_entries expired key cx es pib q)
  unfolding poll_entries
  poll_entries-Keeps expired key cx [] pib q same a = (rw same a, tt)
  poll_entries-Keeps expired key cx (e ∷ es) pib q same a =
      poll_front-Keeps expired key cx q.state e es pib q same a

  pub poll_next_action-Keeps :
      (expired : Timer → Bool) (key cx : ℕ) (pib : Pib) (q : DeviceQueue Timer)
      → AllRequests q.entries
      → Keeps (poll_next_action expired key cx pib q)
  unfolding poll_next_action
  poll_next_action-Keeps expired key cx pib q a =
      elim (Bool-cases (reported_as q.last_pending_reported (front_indirect q.entries))) [
        | inl same ↦ simp same (poll_entries-Keeps expired key cx q.entries pib q refl a)
        | inr changed ↦ simp changed (a, tt)
      ]
