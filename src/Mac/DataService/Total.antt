-- ===== src/Mac/DataService/Total.antt =====
-- `poll_action` returns: it never panics, and the number of rounds of its loop is bounded.
use zigbee_rust_playground.Common.{
  ℕ, zero, suc, ◌+◌, ◌≤◌, ◌<◌, ◌≡◌, refl, inl, inr, arith, bit_of, Bool, true, false, is_some,
  Bool-cases, Option-cases, Option, none, some, [], ◌∷◌, Result, ok, err,
}
use zigbee_rust_playground.Common.Eq.{option_eq, beq_refl, option_beq}
use zigbee_rust_playground.Common.Assoc.{lookup, erase}
use zigbee_rust_playground.Bimap.{BiMap}
use zigbee_rust_playground.Frame.Types.{FullAddress, full_address_eq}
use zigbee_rust_playground.Frame.Keys.{full_address_key}
use zigbee_rust_playground.Pib.{Pib}
use zigbee_rust_playground.Mac.Waker.{Poll, ready, pending, Poll-cases}
use zigbee_rust_playground.Mac.CombinedPendingTable.{CombinedPendingTable, set_address}
use zigbee_rust_playground.Mac.CombinedPendingTable
use zigbee_rust_playground.Mac.CombinedPendingTable.Slots.{
  HasTables, set_address-HasTables, poll_action-HasTables,
}
use zigbee_rust_playground.Mac.DeviceQueue.{
  DeviceQueue, DeviceQueueAction, empty, set_pending, send_frame, report_result, poll_next_action,
}
use zigbee_rust_playground.Mac.DeviceQueue.Cost.{cost, progress, poll_next_action-IsCheaper}
use zigbee_rust_playground.Mac.DataService.{
  DataService, DataServiceAction, Queues, Stop, poll_queues, queue_action, poll_round, poll_action,
  after_action,
}

abbrev action_of : Option (Option FullAddress × DeviceQueueAction) → Bool
action_of none = false
action_of (some (d, action)) = progress (ready action)

module _ {Timer : Type 0} where
  -- One queue that waits, and one that answers.
  pub poll_queues-pending :
      (expired : Timer → Bool) (key cx : ℕ) (pib : Pib) (d : Option FullAddress)
      (q : DeviceQueue Timer) (ps : Queues Timer)
      → (poll_next_action expired key cx pib q).0 ≡ pending
      → poll_queues expired key cx pib ((d, q) ∷ ps) ≡ (
          let (action, pib', q') = poll_next_action expired key cx pib q in
          let (found, pib'', qs) = poll_queues expired key cx pib' ps in
          (found, pib'', (d, q') ∷ qs))
  unfolding poll_queues
  poll_queues-pending expired key cx pib d q ps waits = rw (waits, poll_queues)

  pub poll_queues-ready :
      (expired : Timer → Bool) (key cx : ℕ) (pib : Pib) (d : Option FullAddress)
      (q : DeviceQueue Timer) (ps : Queues Timer) (action : DeviceQueueAction)
      → (poll_next_action expired key cx pib q).0 ≡ ready action
      → poll_queues expired key cx pib ((d, q) ∷ ps) ≡ (
          let (a, pib', q') = poll_next_action expired key cx pib q in
          (some (d, action), pib', (d, q') ∷ ps))
  unfolding poll_queues
  poll_queues-ready expired key cx pib d q ps action answer = rw (answer, poll_queues)

  -- The most rounds that the queues can take.
  unfoldable pub total : Queues Timer → ℕ
  total [] = 0
  total ((d, q) ∷ ps) = cost q + total ps

  poll_queues-total :
      (expired : Timer → Bool) (key cx : ℕ) (pib : Pib) (ps : Queues Timer)
      → total (poll_queues expired key cx pib ps).2
          + bit_of (action_of (poll_queues expired key cx pib ps).0)
        ≤ total ps
  unfolding total
  poll_queues-total expired key cx pib [] = unfold poll_queues in omega arith
  poll_queues-total expired key cx pib ((d, q) ∷ ps) =
      elim (Poll-cases (poll_next_action expired key cx pib q).0) [
        | inl waits ↦
            let cheaper = poll_next_action-IsCheaper expired key cx pib q in
            rw (poll_queues-pending expired key cx pib d q ps waits) (
              omega (
                arith,
                cheaper,
                poll_queues-total expired key cx (poll_next_action expired key cx pib q).1 ps,
              ))
        | inr (action, answer) ↦
            let cheaper = rw answer at (poll_next_action-IsCheaper expired key cx pib q) in
            rw (poll_queues-ready expired key cx pib d q ps action answer) (omega (arith, cheaper))
      ]

  -- The queue that answered is in the map.
  pub poll_queues-lookup :
      (expired : Timer → Bool) (key cx : ℕ) (pib : Pib) (ps : Queues Timer) (d : Option FullAddress)
      (action : DeviceQueueAction)
      → (poll_queues expired key cx pib ps).0 ≡ some (d, action)
      → is_some (lookup d (poll_queues expired key cx pib ps).2) ≡ true
  unfolding lookup
  poll_queues-lookup expired key cx pib [] d action h =
      absurd (unfold poll_queues in ground (arith, h))
  poll_queues-lookup expired key cx pib ((d', q) ∷ ps) d action h =
      elim (Poll-cases (poll_next_action expired key cx pib q).0) [
        | inl waits ↦
            let later = rw (poll_queues-pending expired key cx pib d' q ps waits) at h in
            let there =
              poll_queues-lookup expired key cx (poll_next_action expired key cx pib q).1 ps d
                action later in
            rw (poll_queues-pending expired key cx pib d' q ps waits) (ground (arith, there))
        | inr (action', answer) ↦
            let now = rw (poll_queues-ready expired key cx pib d' q ps action' answer) at h in
            let same : d' ≡ d = ground (arith, now) in
            rw (poll_queues-ready expired key cx pib d' q ps action' answer)
              (rw same (ground (arith, beq_refl d)))
      ]

  total-erase :
      (d : Option FullAddress) (ps : Queues Timer)
      → (total (erase d ps) ≤ total ps)
        × (is_some (lookup d ps) ≡ true → total (erase d ps) < total ps)
  unfolding total erase lookup
  total-erase d [] = (omega arith, λ h. absurd (ground (arith, h)))
  total-erase d ((d', q) ∷ ps) =
      let (le, lt) = total-erase d ps in
      elim (Bool-cases (option_beq full_address_eq d' d)) [
        | inl same ↦ rw same (omega (arith, le), λ h. omega (arith, le))
        | inr other ↦ rw other (omega (arith, le), λ h. omega (arith, lt h))
      ]

module _ {Timer M : Type 0} ⦃b : BiMap M⦄ where
  -- One round returns, or goes round again with fewer rounds left.
  abbrev pub IsRound :
      DataService Timer M
      → Result Stop (Option (Poll DataServiceAction) × Pib × DataService Timer M)
      → Type 0
  IsRound s (err stop) = ⊥
  IsRound s (ok (some x, pib, s')) = HasTables s'.pending_table
  IsRound s (ok (none, pib, s')) = HasTables s'.pending_table × (total s'.queues < total s.queues)

  queue_action-IsRound :
      (pib : Pib) (s u : DataService Timer M) (d : Option FullAddress) (action : DeviceQueueAction)
      → HasTables u.pending_table
      → total u.queues + bit_of (progress (ready action)) ≤ total s.queues
      → is_some (lookup d u.queues) ≡ true
      → IsRound s (after_action pib (queue_action d action u))
  unfolding queue_action
  queue_action-IsRound pib s u d empty h le there =
      (h, omega (arith, le, (total-erase d u.queues).1 there))
  queue_action-IsRound pib s u d (set_pending p) h le there =
      let (table, done, h') = set_address-HasTables d p u.pending_table h in
      rw (done, queue_action) (h', omega (arith, le))
  queue_action-IsRound pib s u d (send_frame key frame) h le there = h
  queue_action-IsRound pib s u d (report_result key result) h le there =
      elim (Option-cases (b.remove_by_right key u.msdu_handles).0) [
        | inl unknown ↦ rw (unknown, queue_action) (h, omega (arith, le))
        | inr ((handle, r), known) ↦ rw (known, queue_action) h
      ]

  pub poll_round-IsRound :
      (expired : Timer → Bool) (key cx : ℕ) (pib : Pib) (s : DataService Timer M)
      → HasTables s.pending_table
      → IsRound s (poll_round expired key cx pib s)
  unfolding poll_round
  poll_round-IsRound expired key cx pib s h =
      let h' = poll_action-HasTables key cx s.pending_table h in
      elim (Poll-cases (CombinedPendingTable.poll_action key cx s.pending_table).0) [
        | inr (x, answer) ↦ rw (answer, poll_round) h'
        | inl waits ↦ elim (Option-cases (poll_queues expired key cx pib s.queues).0) [
          | inl none_ready ↦ rw (waits, none_ready, poll_round) h'
          | inr ((d, action), found) ↦
              let le = rw found at (poll_queues-total expired key cx pib s.queues) in
              let there = poll_queues-lookup expired key cx pib s.queues d action found in
              rw (waits, found, poll_round)
                (queue_action-IsRound (poll_queues expired key cx pib s.queues).1 s
                  (record s {
                    pending_table = (CombinedPendingTable.poll_action key cx s.pending_table).1;
                    queues = (poll_queues expired key cx pib s.queues).2;
                  })
                  d action h' le there)
        ]
      ]

  abbrev Returns : Result Stop (Poll DataServiceAction × Pib × DataService Timer M) → Type 0
  Returns r =
      (x : Poll DataServiceAction) × (pib' : Pib) × (s' : DataService Timer M) × (r
        ≡ ok (x, pib', s'))
      × HasTables s'.pending_table

  returned :
      (s : DataService Timer M)
      (r : Result Stop (Option (Poll DataServiceAction) × Pib × DataService Timer M))
      (again : Pib
        → DataService Timer M
        → Result Stop (Poll DataServiceAction × Pib × DataService Timer M))
      → IsRound s r
      → ((pib' : Pib) (s' : DataService Timer M)
          → HasTables s'.pending_table
          → total s'.queues < total s.queues
          → Returns (again pib' s'))
      → Returns (elim r [
        | err stop ↦ err stop
        | ok (some x, pib', s') ↦ ok (x, pib', s')
        | ok (none, pib', s') ↦ again pib' s'
      ])
  returned s (err stop) again i rest = absurd i
  returned s (ok (some x, pib', s')) again i rest = (x, pib', s', refl, i)
  returned s (ok (none, pib', s')) again (i, less) rest = rest pib' s' i less

  -- With more fuel than the rounds that the queues can take, and both pending tables meeting their
  -- invariant, `poll_action` returns, does not panic, and keeps the tables' invariant.
  pub poll_action-total :
      (fuel : ℕ) (expired : Timer → Bool) (key cx : ℕ) (pib : Pib) (s : DataService Timer M)
      → HasTables s.pending_table
      → total s.queues < fuel
      → (x : Poll DataServiceAction) × (pib' : Pib) × (s' : DataService Timer M) × (poll_action fuel
            expired key cx pib s
          ≡ ok (x, pib', s'))
        × HasTables s'.pending_table
  unfolding poll_action
  poll_action-total zero expired key cx pib s h lt = absurd (omega (arith, lt))
  poll_action-total (suc fuel) expired key cx pib s h lt =
      returned s (poll_round expired key cx pib s)
        (λ pib' s'. poll_action fuel expired key cx pib' s')
        (poll_round-IsRound expired key cx pib s h)
        (λ pib' s' i less.
          poll_action-total fuel expired key cx pib' s' i (omega (arith, less, lt)))
