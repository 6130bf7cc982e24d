-- ===== src/Mac/DataService/Passes.antt =====
-- The loops over all queues, and the requests that the queues hold.
use zigbee_rust_playground.Common.{
  ℕ, ◌≡◌, refl, inl, inr, ◌==◌, arith, ltb, Bool, true, false, ◌||◌, Bool-cases, Option, none, some,
  List, [], ◌∷◌,
}
use zigbee_rust_playground.Common.Eq.{option_eq, option_beq}
use zigbee_rust_playground.Common.Assoc.{lookup, map_values}
use zigbee_rust_playground.Frame.Types.{FullAddress, full_address_eq}
use zigbee_rust_playground.Frame.Keys.{full_address_key}
use zigbee_rust_playground.Pib.{Pib}
use zigbee_rust_playground.Mac.Waker.{ready, Poll-cases}
use zigbee_rust_playground.Mac.DeviceQueue.{
  DeviceQueue, DeviceQueueEntry, DeviceQueueState, idle, sending, waiting_for_ack, have_result,
  DeviceQueueAction, poll_next_action, contains, remove, process_send_result, send_result,
  failed_send,
}
use zigbee_rust_playground.Mac.DeviceQueue.Keys.{
  AreKeyed, reports, remove-keys, poll_next_action-keys,
}
use zigbee_rust_playground.Mac.DataService.{Queues, remove_each, poll_queues}
use zigbee_rust_playground.Mac.DataService.Total.{poll_queues-pending, poll_queues-ready}
use zigbee_rust_playground.Mac.DataService.Held.{holds, AreQueues}

-- Whether the answer of a queue reports the request with this key.
abbrev pub reported : Option (Option FullAddress × DeviceQueueAction) → ℕ → Bool
reported none j = false
reported (some (d, action)) j = reports (ready action) j

module _ {Timer : Type 0} where
  -- A queue with the same requests.
  abbrev pub SameKeys : DeviceQueue Timer → DeviceQueue Timer → Type 0
  SameKeys q q' = AreKeyed q'.entries × ((j : ℕ) → contains j q'.entries ≡ contains j q.entries)

  failed_send-SameKeys :
      (q : DeviceQueue Timer) (es : List (DeviceQueueEntry Timer))
      → q.entries ≡ es
      → AreKeyed es
      → SameKeys q (failed_send q es)
  unfolding failed_send contains
  failed_send-SameKeys q [] same k = (rw same k, λ j. refl)
  failed_send-SameKeys q (e ∷ es) same k = elim (Bool-cases e.request.indirect) [
    | inl indirect ↦ simp indirect (rw same k, λ j. refl)
    | inr direct ↦ elim (Bool-cases (ltb 0 e.retries_left)) [
      | inl left ↦ simp (direct, left) (k, λ j. rw same)
      | inr spent ↦ simp (direct, spent) (rw same k, λ j. refl)
    ]
  ]

  send_result-SameKeys :
      (sleep : ℕ → Timer) (key : ℕ) (success : Bool) (state : DeviceQueueState Timer)
      (q : DeviceQueue Timer)
      → AreKeyed q.entries
      → SameKeys q (send_result sleep key success state q)
  unfolding send_result
  send_result-SameKeys sleep key success (idle d) q k = (k, λ j. refl)
  send_result-SameKeys sleep key success (waiting_for_ack a t) q k = (k, λ j. refl)
  send_result-SameKeys sleep key success (have_result r) q k = (k, λ j. refl)
  send_result-SameKeys sleep key success (sending s a p) q k = elim (Bool-cases (s == key)) [
    | inr other ↦ simp other (k, λ j. refl)
    | inl mine ↦ elim (Bool-cases success) [
      | inl done ↦ simp (mine, done) (k, λ j. refl)
      | inr failed ↦ simp (mine, failed) (failed_send-SameKeys q q.entries refl k)
    ]
  ]

  pub process_send_result-SameKeys :
      (sleep : ℕ → Timer) (key : ℕ) (success : Bool) (q : DeviceQueue Timer)
      → AreKeyed q.entries
      → SameKeys q (process_send_result sleep key success q)
  unfolding process_send_result
  process_send_result-SameKeys sleep key success q k =
      send_result-SameKeys sleep key success q.state q k

  lookup-map_values_none :
      (f : DeviceQueue Timer → DeviceQueue Timer) (d : Option FullAddress) (ps : Queues Timer)
      → lookup d ps ≡ none
      → lookup d (map_values f ps) ≡ none
  unfolding lookup map_values
  lookup-map_values_none f d [] h = refl
  lookup-map_values_none f d ((d', q) ∷ ps) h =
      elim (Bool-cases (option_beq full_address_eq d' d)) [
        | inl same ↦ absurd (ground (arith, h, same))
        | inr other ↦ ground (arith, h, other, lookup-map_values_none f d ps)
      ]

  pub map_values-holds :
      (f : DeviceQueue Timer → DeviceQueue Timer) (ps : Queues Timer)
      → ((q : DeviceQueue Timer) → AreKeyed q.entries → SameKeys q (f q))
      → AreQueues ps
      → AreQueues (map_values f ps) × ((j : ℕ) → holds j (map_values f ps) ≡ holds j ps)
  unfolding map_values holds
  map_values-holds f [] same a = (tt, λ j. refl)
  map_values-holds f ((d, q) ∷ ps) same (a1, a2, a3) =
      let (a', h') = map_values-holds f ps same a3 in
      let (k', c') = same q a2 in ((lookup-map_values_none f d ps a1, k', a'), λ j. rw (c' j, h' j))

  lookup-remove_each_none :
      (key : ℕ) (removed : Bool) (d : Option FullAddress) (ps : Queues Timer)
      → lookup d ps ≡ none
      → lookup d (remove_each key removed ps).1 ≡ none
  unfolding lookup remove_each
  lookup-remove_each_none key removed d [] h = refl
  lookup-remove_each_none key true d ((d', q) ∷ ps) h =
      elim (Bool-cases (option_beq full_address_eq d' d)) [
        | inl same ↦ absurd (ground (arith, h, same))
        | inr other ↦ ground (arith, h, other, lookup-remove_each_none key true d ps)
      ]
  lookup-remove_each_none key false d ((d', q) ∷ ps) h =
      elim (Bool-cases (option_beq full_address_eq d' d)) [
        | inl same ↦ absurd (ground (arith, h, same))
        | inr other ↦ ground (arith, h, other, lookup-remove_each_none key (remove key q).0 d ps)
      ]

  -- Removing a key leaves all others where they are.
  pub remove_each-holds :
      (key : ℕ) (removed : Bool) (ps : Queues Timer)
      → AreQueues ps
      → AreQueues (remove_each key removed ps).1
        × ((j : ℕ) → (key == j) ≡ false → holds j (remove_each key removed ps).1 ≡ holds j ps)
  unfolding remove_each holds
  remove_each-holds key removed [] a = (tt, λ j ne. refl)
  remove_each-holds key true ((d, q) ∷ ps) (a1, a2, a3) =
      let (a', h') = remove_each-holds key true ps a3 in
      ((lookup-remove_each_none key true d ps a1, a2, a'), λ j ne. rw (h' j ne))
  remove_each-holds key false ((d, q) ∷ ps) (a1, a2, a3) =
      let (k', answer, c') = remove-keys key q a2 in
      let (a', h') = remove_each-holds key (remove key q).0 ps a3 in
      (
        (lookup-remove_each_none key (remove key q).0 d ps a1, k', a'),
        λ j ne. rw (h' j ne) (ground (arith, c' j, ne)),
      )

  pub lookup-poll_queues_none :
      (expired : Timer → Bool) (key cx : ℕ) (pib : Pib) (d : Option FullAddress) (ps : Queues Timer)
      → lookup d ps ≡ none
      → lookup d (poll_queues expired key cx pib ps).2 ≡ none
  unfolding lookup
  lookup-poll_queues_none expired key cx pib d [] h = unfold poll_queues in refl
  lookup-poll_queues_none expired key cx pib d ((d', q) ∷ ps) h =
      elim (Bool-cases (option_beq full_address_eq d' d)) [
        | inl same ↦ absurd (ground (arith, h, same))
        | inr other ↦ elim (Poll-cases (poll_next_action expired key cx pib q).0) [
          | inl waits ↦
              rw (poll_queues-pending expired key cx pib d' q ps waits, other)
                (lookup-poll_queues_none expired key cx (poll_next_action expired key cx pib q).1 d
                  ps (ground (arith, h, other)))
          | inr (action, answer) ↦
              rw (poll_queues-ready expired key cx pib d' q ps action answer, other)
                (ground (arith, h, other))
        ]
      ]

  -- A poll of the queues takes out no request but the one that it reports.
  pub poll_queues-holds :
      (expired : Timer → Bool) (key cx : ℕ) (pib : Pib) (ps : Queues Timer)
      → AreQueues ps
      → AreQueues (poll_queues expired key cx pib ps).2
        × ((j : ℕ)
            → holds j ps ≡ true
            → (reported (poll_queues expired key cx pib ps).0 j
                || holds j (poll_queues expired key cx pib ps).2)
              ≡ true)
  unfolding holds
  poll_queues-holds expired key cx pib [] a =
      unfold poll_queues in (tt, λ j h. absurd (ground (arith, h)))
  poll_queues-holds expired key cx pib ((d, q) ∷ ps) (a1, a2, a3) =
      let pib' = (poll_next_action expired key cx pib q).1 in
      let (k', c', r') = poll_next_action-keys expired key cx pib q a2 in
      elim (Poll-cases (poll_next_action expired key cx pib q).0) [
        | inl waits ↦
            let (a', h') = poll_queues-holds expired key cx pib' ps a3 in
            rw (poll_queues-pending expired key cx pib d q ps waits) (
              (lookup-poll_queues_none expired key cx pib' d ps a1, k', a'),
              λ j h. ground (arith, h, h' j, rw waits at (c' j)),
            )
        | inr (action, answer) ↦
            rw (poll_queues-ready expired key cx pib d q ps action answer)
              ((a1, k', a3), λ j h. ground (arith, h, rw answer at (c' j)))
      ]
