-- ===== src/Mac/DeviceQueue/Retries.antt =====
-- A request that is sent at once is handed out at most once more than the PIB allows retries.
use zigbee_rust_playground.Common.{
  ℕ, zero, suc, ◌+◌, ◌-◌, ◌≤◌, ◌<◌, ◌≡◌, refl, arith, ◌==◌, ltb, bit_of, if◌then◌else◌, Bool, true,
  false, not, ◌||◌, ◌&&◌, Bool-cases, Option-cases, is_some, opt_eq, inl, inr, List, [], ◌∷◌, ◌++◌,
  length, Option, none, some, get_elem?,
}
use mathlib.Core.Path.{subst}
use zigbee_rust_playground.Pib.{Pib}
use zigbee_rust_playground.Mac.Waker.{Poll}
use zigbee_rust_playground.Mac.DeviceQueue.{
  DataRequest, DeviceQueue, DeviceQueueEntry, DeviceQueueState, idle, sending, waiting_for_ack,
  have_result, DeviceQueueAction, new, contains, insert, retain, front_is, remove,
  received_datarequest, process_datarequest, failed_send, after_send, send_result,
  process_send_result, acknowledged, process_acknowledge, take_expired, poll_timeouts, wait,
  poll_front, poll_entries, poll_next_action, create_frame, front_indirect, reported_as,
}
use zigbee_rust_playground.Mac.DeviceQueue.Runs.{
  Run, counted, Step, Reach, here, next, inserted, removed, data_requested, send_reported,
  acknowledge_received, polled,
}
use zigbee_rust_playground.Mac.DeviceQueue.Attempts.{
  is_busy, AreFresh, AreWithin, take_expired-cases, contains-retain, AreFresh-retain,
  AreWithin-fresh, AreFresh-bump, contains-expired, AreFresh-expired, contains-append,
  AreFresh-append,
}

lt_of_ltb : (a b : ℕ) → ltb a b ≡ true → a < b
lt_of_ltb a b h = ground (arith, h)

module _ {Timer : Type 0} (n : ℕ) where
  abbrev IsBounded : Run Timer → Type 0
  IsBounded s = AreWithin n s.sent (is_busy s.queue.state) s.queue.entries

  AreWithin-append :
      (sent : ℕ → ℕ) (busy : Bool) (es : List (DeviceQueueEntry Timer)) (x : DeviceQueueEntry Timer)
      → sent x.request.key ≡ 0
      → x.retries_left ≤ n
      → contains x.request.key es ≡ false
      → AreWithin n sent busy es
      → AreWithin n sent busy (es ++ (x ∷ []))
  unfolding contains
  AreWithin-append sent busy [] x z r h w = ((λ _. omega (arith, z, r)), refl, tt)
  AreWithin-append sent busy (e ∷ es) x z r h (w1, w2, w3) = (
    w1,
    contains-append n e.request.key es x w2 (ground (arith, h)),
    AreFresh-append n sent es x z r (ground (arith, h)) w3,
  )

  insert-IsBounded :
      (sleep : ℕ → Timer) (pib : Pib) (request : DataRequest) (s : Run Timer)
      → pib.mac_max_frame_retries ≤ n
      → s.sent request.key ≡ 0
      → IsBounded s
      → IsBounded (record s { queue = (insert sleep pib request s.queue).1 })
  unfolding insert
  insert-IsBounded sleep pib request s r z w =
      elim (Bool-cases (contains request.key s.queue.entries)) [
        | inl known ↦ simp known w
        | inr fresh ↦ simp fresh (
            AreWithin-append s.sent (is_busy s.queue.state) s.queue.entries
              (record {
                request = request;
                retries_left = pib.mac_max_frame_retries;
                timeout = sleep pib.mac_transaction_persistence_time;
              })
              z r fresh w)
      ]

  AreWithin-retain :
      (sent : ℕ → ℕ) (key : ℕ) (state : DeviceQueueState Timer) (es : List (DeviceQueueEntry Timer))
      → AreWithin n sent (is_busy state) es
      → AreWithin n sent (is_busy (if front_is key es then idle false else state)) (retain key es)
  unfolding front_is retain
  AreWithin-retain sent key state [] w = w
  AreWithin-retain sent key state (e ∷ es) (w1, w2, w3) = elim (Bool-cases (e.request.key == key)) [
    | inl mine ↦
        simp mine (AreWithin-fresh n sent (retain key es) (AreFresh-retain n sent key es w3))
    | inr other ↦
        simp other (w1, contains-retain n e.request.key key es w2, AreFresh-retain n sent key es w3)
  ]

  remove-IsBounded :
      (key : ℕ) (s : Run Timer)
      → IsBounded s
      → IsBounded (record s { queue = (remove key s.queue).1 })
  unfolding remove
  remove-IsBounded key s w =
      let kept = AreWithin-retain s.sent key s.queue.state s.queue.entries w in
      elim (Bool-cases (
        front_is key s.queue.entries
        || ltb (length (retain key s.queue.entries)) (length s.queue.entries))) [
          | inl some_left ↦ simp some_left kept
          | inr none_left ↦ simp none_left kept
        ]

  failed_send-IsBounded :
      (sent : ℕ → ℕ) (q : DeviceQueue Timer) (es : List (DeviceQueueEntry Timer))
      → q.entries ≡ es
      → AreWithin n sent true es
      → AreWithin n sent (is_busy (failed_send q es).state) (failed_send q es).entries
  unfolding failed_send
  failed_send-IsBounded sent q [] same w = absurd (ground (arith, w))
  failed_send-IsBounded sent q (e ∷ es) same (w1, w2, w3) = elim (Bool-cases e.request.indirect) [
    | inl indirect ↦ simp indirect (rw same ((λ h. absurd (ground (arith, h, indirect))), w2, w3))
    | inr direct ↦ elim (Bool-cases (ltb 0 e.retries_left)) [
      | inl left ↦
          simp (direct, left)
            ((λ h. omega (arith, w1 direct, lt_of_ltb 0 e.retries_left left)), w2, w3)
      | inr spent ↦ simp (direct, spent) (rw same (w1, w2, w3))
    ]
  ]

  send_result-IsBounded :
      (sleep : ℕ → Timer) (key : ℕ) (success : Bool) (sent : ℕ → ℕ) (q : DeviceQueue Timer)
      (state : DeviceQueueState Timer)
      → q.state ≡ state
      → AreWithin n sent (is_busy state) q.entries
      → AreWithin n sent
          (is_busy (send_result sleep key success state q).state)
          (send_result sleep key success state q).entries
  unfolding send_result after_send
  send_result-IsBounded sleep key success sent q (idle d) same w = rw same w
  send_result-IsBounded sleep key success sent q (waiting_for_ack a t) same w = rw same w
  send_result-IsBounded sleep key success sent q (have_result r) same w = rw same w
  send_result-IsBounded sleep key success sent q (sending k a p) same w =
      elim (Bool-cases (k == key)) [
        | inr other ↦ simp other (rw same w)
        | inl mine ↦ elim (Bool-cases success) [
          | inr failed ↦ simp (mine, failed) (failed_send-IsBounded sent q q.entries refl w)
          | inl sent_ok ↦ elim (Option-cases a) [
            | inl unacked ↦ simp (mine, sent_ok, unacked) w
            | inr (seq, acked) ↦ simp (mine, sent_ok, acked) w
          ]
        ]
      ]

  is_busy-acknowledged :
      (seq_nr : Option ℕ) (payload : List ℕ) (state : DeviceQueueState Timer)
      → is_busy (acknowledged seq_nr payload state) ≡ is_busy state
  unfolding acknowledged
  is_busy-acknowledged seq_nr payload (idle d) = refl
  is_busy-acknowledged seq_nr payload (have_result r) = refl
  is_busy-acknowledged seq_nr payload (sending k a p) =
      elim (Bool-cases (is_some a && opt_eq a seq_nr)) [ inl hit ↦ simp hit | inr miss ↦ simp miss ]
  is_busy-acknowledged seq_nr payload (waiting_for_ack a t) =
      elim (Bool-cases (opt_eq seq_nr (some a))) [ inl hit ↦ simp hit | inr miss ↦ simp miss ]

  is_busy-datarequest :
      (state : DeviceQueueState Timer) → is_busy (received_datarequest state) ≡ is_busy state
  unfolding received_datarequest
  is_busy-datarequest (idle d) = refl
  is_busy-datarequest (have_result r) = refl
  is_busy-datarequest (sending k a p) = refl
  is_busy-datarequest (waiting_for_ack a t) = refl

  -- What a poll answers with, and the queue that it leaves.
  abbrev IsBoundedPoll :
      (ℕ → ℕ)
      → List (DeviceQueueEntry Timer)
      → Poll DeviceQueueAction × Pib × DeviceQueue Timer
      → Type 0
  IsBoundedPoll sent before (action, pib, q) =
      AreWithin n (counted action before sent) (is_busy q.state) q.entries

  wait-IsBounded :
      (sent : ℕ → ℕ) (expired : Timer → Bool) (cx : ℕ) (pib : Pib)
      (before es : List (DeviceQueueEntry Timer)) (q : DeviceQueue Timer)
      → q.entries ≡ es
      → AreWithin n sent (is_busy q.state) es
      → IsBoundedPoll sent before (wait expired cx pib q)
  unfolding wait poll_timeouts counted
  wait-IsBounded sent expired cx pib before [] q same w =
      let none_expired : take_expired expired q.entries ≡ none =
        rw same (unfold take_expired in refl) in
      rw none_expired (rw same w)
  wait-IsBounded sent expired cx pib before (e ∷ es) q same (w1, w2, w3) =
      elim (Option-cases (take_expired expired (e ∷ es))) [
        | inl never ↦ rw (same, never) (w1, w2, w3)
        | inr ((i, key, others), found) ↦
            elim (take_expired-cases expired i key e es others found) [
              | inl (e1, e2, e3) ↦ rw (same, found, e1, e3) (AreWithin-fresh n sent es w3)
              | inr (i', others', later, e1, e2) ↦
                  let behind : (i == 0) ≡ false = ground (arith, e1) in
                  rw (same, found, behind, e2)
                    (
                      w1,
                      contains-expired n expired e.request.key i' key es others' later w2,
                      AreFresh-expired n sent expired i' key es others' later w3,
                    )
            ]
      ]

  poll_front-IsBounded :
      (sent : ℕ → ℕ) (expired : Timer → Bool) (key cx : ℕ) (state : DeviceQueueState Timer)
      (e : DeviceQueueEntry Timer) (es : List (DeviceQueueEntry Timer)) (pib : Pib)
      (q : DeviceQueue Timer)
      → q.entries ≡ e ∷ es
      → q.state ≡ state
      → AreWithin n sent (is_busy state) (e ∷ es)
      → IsBoundedPoll sent (e ∷ es) (poll_front expired key cx state e es pib q)
  unfolding poll_front create_frame counted
  poll_front-IsBounded sent expired key cx (idle d) e es pib q same now (w1, w2, w3) =
      elim (Bool-cases (not e.request.indirect || d)) [
        | inl go ↦
            simp go (
              rw same
                ((λ h. ground (arith, w1 h)), w2, AreFresh-bump n sent e.request.key es w2 w3))
        | inr stay ↦ simp stay (
            wait-IsBounded sent expired cx pib (e ∷ es) (e ∷ es) (record q { state = idle false })
              same (w1, w2, w3))
      ]
  poll_front-IsBounded sent expired key cx (sending k a p) e es pib q same now w =
      wait-IsBounded sent expired cx pib (e ∷ es) (e ∷ es) q same (rw now w)
  poll_front-IsBounded sent expired key cx (have_result r) e es pib q same now (w1, w2, w3) =
      AreWithin-fresh n sent es w3
  poll_front-IsBounded sent expired key cx (waiting_for_ack a t) e es pib q same now (w1, w2, w3) =
      elim (Bool-cases (expired t)) [
        | inr early ↦
            simp early
              (wait-IsBounded sent expired cx pib (e ∷ es) (e ∷ es) q same (rw now (w1, w2, w3)))
        | inl late ↦ elim (Bool-cases e.request.indirect) [
          | inl indirect ↦
              simp (late, indirect)
                (wait-IsBounded sent expired cx pib (e ∷ es) (e ∷ es)
                  (record q { state = idle false }) same
                  ((λ h. absurd (ground (arith, h, indirect))), w2, w3))
          | inr direct ↦ elim (Bool-cases (ltb 0 e.retries_left)) [
            | inr spent ↦ simp (late, direct, spent) (AreWithin-fresh n sent es w3)
            | inl left ↦
                simp (late, direct, left)
                  (wait-IsBounded sent expired cx pib (e ∷ es)
                    (record e { retries_left = e.retries_left - 1 } ∷ es)
                    (record q {
                      state = idle false;
                      entries = record e { retries_left = e.retries_left - 1 } ∷ es;
                    })
                    refl ((λ h. omega (arith, w1 direct, lt_of_ltb 0 e.retries_left left)), w2, w3))
          ]
        ]
      ]

  poll_entries-IsBounded :
      (sent : ℕ → ℕ) (expired : Timer → Bool) (key cx : ℕ) (es : List (DeviceQueueEntry Timer))
      (pib : Pib) (q : DeviceQueue Timer)
      → q.entries ≡ es
      → AreWithin n sent (is_busy q.state) es
      → IsBoundedPoll sent es (poll_entries expired key cx es pib q)
  unfolding poll_entries counted
  poll_entries-IsBounded sent expired key cx [] pib q same w = rw same refl
  poll_entries-IsBounded sent expired key cx (e ∷ es) pib q same w =
      poll_front-IsBounded sent expired key cx q.state e es pib q same refl w

  poll_next_action-IsBounded :
      (expired : Timer → Bool) (key cx : ℕ) (pib : Pib) (s : Run Timer)
      → IsBounded s
      → IsBoundedPoll s.sent s.queue.entries (poll_next_action expired key cx pib s.queue)
  unfolding poll_next_action counted
  poll_next_action-IsBounded expired key cx pib s w =
      elim (Bool-cases
        (reported_as s.queue.last_pending_reported (front_indirect s.queue.entries))) [
          | inl reported ↦
              simp reported
                (poll_entries-IsBounded s.sent expired key cx s.queue.entries pib s.queue refl w)
          | inr changed ↦ simp changed w
        ]

  Step-IsBounded : {s u : Run Timer} → Step n s u → IsBounded s → IsBounded u
  Step-IsBounded {s} (inserted sleep pib request r z) w = insert-IsBounded sleep pib request s r z w
  Step-IsBounded {s} (removed key) w = remove-IsBounded key s w
  Step-IsBounded {s} data_requested w =
      unfold process_datarequest in rw (is_busy-datarequest s.queue.state) w
  Step-IsBounded {s} (send_reported sleep key success) w =
      unfold process_send_result in
      send_result-IsBounded sleep key success s.sent s.queue s.queue.state refl w
  Step-IsBounded {s} (acknowledge_received seq_nr payload) w =
      unfold process_acknowledge in rw (is_busy-acknowledged seq_nr payload s.queue.state) w
  Step-IsBounded {s} (polled expired key cx pib) w =
      poll_next_action-IsBounded expired key cx pib s w

  Reach-IsBounded : {s : Run Timer} → Reach n s → IsBounded s
  Reach-IsBounded here = unfold new in refl
  Reach-IsBounded (next r step) = Step-IsBounded step (Reach-IsBounded r)

  AreFresh-at :
      (sent : ℕ → ℕ) (es : List (DeviceQueueEntry Timer)) (i : ℕ) (e : DeviceQueueEntry Timer)
      → AreFresh n sent es
      → get_elem? es i ≡ some e
      → sent e.request.key ≡ 0
  AreFresh-at sent [] i e h at = absurd (ground (arith, at))
  AreFresh-at sent (x ∷ xs) zero e (h1, h2, h3, h4) at =
      subst (λ y. sent y.request.key ≡ 0) {x = x} {y = e} (ground (arith, at)) h1
  AreFresh-at sent (x ∷ xs) (suc i) e (h1, h2, h3, h4) at = AreFresh-at sent xs i e h4 at

  AreWithin-at :
      (sent : ℕ → ℕ) (busy : Bool) (es : List (DeviceQueueEntry Timer)) (i : ℕ)
      (e : DeviceQueueEntry Timer)
      → AreWithin n sent busy es
      → get_elem? es i ≡ some e
      → e.request.indirect ≡ false
      → sent e.request.key ≤ n + 1
  AreWithin-at sent busy [] i e h at direct = absurd (ground (arith, at))
  AreWithin-at sent busy (x ∷ xs) zero e (h1, h2, h3) at direct =
      let same : x ≡ e = ground (arith, at) in
      let within : sent x.request.key + x.retries_left ≤ n + bit_of busy = h1 (rw same direct) in
      subst (λ y. sent y.request.key ≤ n + 1) {x = x} {y = e} same (ground (arith, within))
  AreWithin-at sent busy (x ∷ xs) (suc i) e (h1, h2, h3) at direct =
      omega (arith, AreFresh-at sent xs i e h3 at)

  -- Over any calls and polls from a new queue, where each request is inserted while the PIB allows at
  -- most `n` retries and with a key for which no frame was handed out before: for every request in the
  -- queue that is not indirect, at most `n + 1` frames have been handed out to be sent.
  pub sent-IsBounded :
      (s : Run Timer) (i : ℕ) (e : DeviceQueueEntry Timer)
      → Reach n s
      → get_elem? s.queue.entries i ≡ some e
      → e.request.indirect ≡ false
      → s.sent e.request.key ≤ n + 1
  sent-IsBounded s i e r at direct =
      AreWithin-at s.sent (is_busy s.queue.state) s.queue.entries i e (Reach-IsBounded r) at direct
