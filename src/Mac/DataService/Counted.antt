-- ===== src/Mac/DataService/Counted.antt =====
-- `poll_action` changes the PIB in its data sequence number only, and keeps the pending tables' invariant.
use zigbee_rust_playground.Common.{
  ℕ, ◌≡◌, refl, ◌∙◌, ap, inl, inr, Bool, Option-cases, Option, none, some, [], ◌∷◌, Result, ok, err,
}
use zigbee_rust_playground.Bimap.{BiMap}
use zigbee_rust_playground.Frame.Types.{FullAddress}
use zigbee_rust_playground.Pib.{Pib}
use zigbee_rust_playground.Mac.Waker.{Poll, Poll-cases}
use zigbee_rust_playground.Mac.CombinedPendingTable
use zigbee_rust_playground.Mac.CombinedPendingTable.{set_address}
use zigbee_rust_playground.Mac.CombinedPendingTable.Slots.{HasTables}
use zigbee_rust_playground.Mac.DeviceQueue.{
  DeviceQueueAction, empty, set_pending, send_frame, report_result, poll_next_action,
}
use zigbee_rust_playground.Mac.DeviceQueue.Numbers.{IsCounted, poll_next_action-IsCounted}
use zigbee_rust_playground.Mac.DataService.{
  DataService, DataServiceAction, Queues, Stop, poll_queues, queue_action, after_action, poll_round,
  poll_action,
}
use zigbee_rust_playground.Mac.DataService.Total.{
  poll_queues-pending, poll_queues-ready, IsRound, poll_round-IsRound,
}
use zigbee_rust_playground.Mac.DataService.Reach.{After, poll_action-keeps}

IsCounted-trans : (p p' p'' : Pib) → IsCounted p p' → IsCounted p' p'' → IsCounted p p''
IsCounted-trans p p' p'' (n, e) (n', e') = (n', e' ∙ ap (λ (q : Pib). record q { mac_dsn = n' }) e)

module _ {Timer : Type 0} where
  poll_queues-IsCounted :
      (expired : Timer → Bool) (key cx : ℕ) (pib : Pib) (ps : Queues Timer)
      → IsCounted pib (poll_queues expired key cx pib ps).1
  poll_queues-IsCounted expired key cx pib [] = unfold poll_queues in (pib.mac_dsn, refl)
  poll_queues-IsCounted expired key cx pib ((d, q) ∷ ps) =
      let one = poll_next_action-IsCounted expired key cx pib q in
      elim (Poll-cases (poll_next_action expired key cx pib q).0) [
        | inl waits ↦ rw (poll_queues-pending expired key cx pib d q ps waits) (
            IsCounted-trans pib _ _ one
              (poll_queues-IsCounted expired key cx (poll_next_action expired key cx pib q).1 ps))
        | inr (action, answer) ↦ rw (poll_queues-ready expired key cx pib d q ps action answer) one
      ]

module _ {Timer M : Type 0} ⦃b : BiMap M⦄ where
  queue_action-IsCounted :
      (pib p : Pib) (u : DataService Timer M) (d : Option FullAddress) (action : DeviceQueueAction)
      → IsCounted pib p
      → After (λ p' v. IsCounted pib p') (after_action p (queue_action d action u))
  unfolding queue_action
  queue_action-IsCounted pib p u d empty h = h
  queue_action-IsCounted pib p u d (set_pending bit) h =
      elim (Option-cases (set_address d bit u.pending_table)) [
        | inl panics ↦ rw (panics, queue_action) tt
        | inr (table, done) ↦ rw (done, queue_action) h
      ]
  queue_action-IsCounted pib p u d (send_frame key frame) h = h
  queue_action-IsCounted pib p u d (report_result key result) h =
      elim (Option-cases (b.remove_by_right key u.msdu_handles).0) [
        | inl unknown ↦ rw (unknown, queue_action) h
        | inr ((handle, r), known) ↦ rw (known, queue_action) h
      ]

  poll_round-IsCounted :
      (expired : Timer → Bool) (key cx : ℕ) (start pib : Pib) (s : DataService Timer M)
      → IsCounted start pib
      → After (λ p u. IsCounted start p) (poll_round expired key cx pib s)
  unfolding poll_round
  poll_round-IsCounted expired key cx start pib s h =
      let h' = IsCounted-trans start pib _ h (poll_queues-IsCounted expired key cx pib s.queues) in
      elim (Poll-cases (CombinedPendingTable.poll_action key cx s.pending_table).0) [
        | inr (x, answer) ↦ rw (answer, poll_round) h
        | inl waits ↦ elim (Option-cases (poll_queues expired key cx pib s.queues).0) [
          | inl none_ready ↦ rw (waits, none_ready, poll_round) h'
          | inr ((d, action), found) ↦
              rw (waits, found, poll_round) (queue_action-IsCounted start _ _ d action h')
        ]
      ]

  pub poll_action-IsCounted :
      (fuel : ℕ) (expired : Timer → Bool) (key cx : ℕ) (pib : Pib) (s : DataService Timer M)
      (x : Poll DataServiceAction) (pib' : Pib) (s' : DataService Timer M)
      → poll_action fuel expired key cx pib s ≡ ok (x, pib', s')
      → IsCounted pib pib'
  poll_action-IsCounted fuel expired key cx pib s x pib' s' h =
      poll_action-keeps (λ p u. IsCounted pib p) expired key cx
        (λ p u. poll_round-IsCounted expired key cx pib p u) fuel pib s x pib' s' h
        (pib.mac_dsn, refl)

  round-HasTables :
      (s : DataService Timer M)
      (r : Result Stop (Option (Poll DataServiceAction) × Pib × DataService Timer M))
      → IsRound s r
      → After (λ p u. HasTables u.pending_table) r
  round-HasTables s (err stop) h = tt
  round-HasTables s (ok (none, p, u)) (h, less) = h
  round-HasTables s (ok (some x, p, u)) h = h

  pub poll_action-HasTables :
      (fuel : ℕ) (expired : Timer → Bool) (key cx : ℕ) (pib : Pib) (s : DataService Timer M)
      (x : Poll DataServiceAction) (pib' : Pib) (s' : DataService Timer M)
      → poll_action fuel expired key cx pib s ≡ ok (x, pib', s')
      → HasTables s.pending_table
      → HasTables s'.pending_table
  poll_action-HasTables fuel expired key cx pib s x pib' s' =
      poll_action-keeps (λ p u. HasTables u.pending_table) expired key cx
        (λ p u h. round-HasTables u _ (poll_round-IsRound expired key cx p u h)) fuel pib s x pib'
        s'
