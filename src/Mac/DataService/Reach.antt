-- ===== src/Mac/DataService/Reach.antt =====
-- The states that the calls of data.rs reach, and the requests of the handles in them.
use zigbee_rust_playground.Common.{
  ℕ, zero, suc, ◌≡◌, refl, ap, ◌∙◌, inl, inr, arith, Bool, true, false, ◌||◌, Option-cases, Option,
  none, some, Result, ok, err,
}
use mathlib.Core.Path.{subst}
use zigbee_rust_playground.Common.Eq.{option_eq}
use zigbee_rust_playground.Common.Assoc.{lookup}
use zigbee_rust_playground.Bimap.{BiMap}
use zigbee_rust_playground.Frame.Types.{FullAddress, Frame}
use zigbee_rust_playground.Frame.Keys.{full_address_key}
use zigbee_rust_playground.Pib.{Pib}
use zigbee_rust_playground.Services.Mcps
use zigbee_rust_playground.Services.Mcps.{Confirm}
use zigbee_rust_playground.Mac.Waker.{Poll, ready, Poll-cases}
use zigbee_rust_playground.Mac.CombinedPendingTable.{CombinedPendingTable, set_address}
use zigbee_rust_playground.Mac.CombinedPendingTable
use zigbee_rust_playground.Mac.DeviceQueue.{
  DataRequest, DeviceQueue, DeviceQueueAction, empty, set_pending, send_frame, report_result,
  contains,
}
use zigbee_rust_playground.Mac.DeviceQueue.Keys.{reports}
use zigbee_rust_playground.Mac.DataService.{
  DataService, DataServiceAction, Stop, poll_queues, queue_action, poll_round, poll_action,
  after_action, new, insert, process_init_pending_table_result, process_set_pending_result,
  process_send_result, process_frame, process_mcps_request,
}
use zigbee_rust_playground.Mac.DataService.Held.{holds, AreQueues, AreQueues-erase, holds-erase}
use zigbee_rust_playground.Mac.DataService.Passes.{poll_queues-holds}
use zigbee_rust_playground.Mac.DataService.Drained.{poll_queues-drained}
use zigbee_rust_playground.Mac.DataService.Handles.{
  IsOpen, insert-IsOpen, process_mcps_data_request-IsOpen, process_mcps_purge_request-IsOpen,
  process_frame-IsOpen, process_send_result-IsOpen,
}

module _ {Timer M : Type 0} ⦃b : BiMap M⦄ where
  -- What a round of `poll_action` leaves.
  abbrev pub After :
      (Pib → DataService Timer M → Type 0)
      → Result Stop (Option (Poll DataServiceAction) × Pib × DataService Timer M)
      → Type 0
  After P (err stop) = Unit {0}
  After P (ok (x, pib, s)) = P pib s

  -- The request that a round reports loses its handle, and the queue that it drops holds none.
  queue_action-IsOpen :
      (pib : Pib) (u : DataService Timer M) (d : Option FullAddress) (action : DeviceQueueAction)
      → AreQueues u.queues
      → ((h k : ℕ)
          → b.has u.msdu_handles h k ≡ true
          → (reports (ready action) k || holds k u.queues) ≡ true)
      → (action ≡ empty
          → (j : ℕ) (q : DeviceQueue Timer) → lookup d u.queues ≡ some q
          → contains j q.entries ≡ false)
      → After (λ p u. IsOpen u) (after_action pib (queue_action d action u))
  unfolding queue_action
  queue_action-IsOpen pib u d empty a o drained = (
    AreQueues-erase d u.queues a,
    λ h k is_open. holds-erase k d u.queues a (drained refl k) (o h k is_open),
  )
  queue_action-IsOpen pib u d (set_pending p) a o drained =
      elim (Option-cases (set_address d p u.pending_table)) [
        | inl panics ↦ rw (panics, queue_action) tt
        | inr (table, done) ↦ rw (done, queue_action) (a, o)
      ]
  queue_action-IsOpen pib u d (send_frame key frame) a o drained = (a, o)
  queue_action-IsOpen pib u d (report_result key result) a o drained =
      let left : (h k : ℕ)
          → b.has (b.remove_by_right key u.msdu_handles).1 h k ≡ true
          → holds k u.queues ≡ true =
        λ h k is_open.
          let rest = b.right_rest key u.msdu_handles h k in
          let was : b.has u.msdu_handles h k ≡ true = ground (arith, rest, is_open) in
          ground (arith, rest, is_open, o h k was) in
      elim (Option-cases (b.remove_by_right key u.msdu_handles).0) [
        | inl unknown ↦ rw (unknown, queue_action) (a, left)
        | inr ((handle, r), known) ↦ rw (known, queue_action) (a, left)
      ]

  poll_round-IsOpen :
      (expired : Timer → Bool) (key cx : ℕ) (pib : Pib) (s : DataService Timer M)
      → IsOpen s
      → After (λ p u. IsOpen u) (poll_round expired key cx pib s)
  unfolding poll_round
  poll_round-IsOpen expired key cx pib s (a, o) =
      let table = CombinedPendingTable.poll_action key cx s.pending_table in
      let (a', h') = poll_queues-holds expired key cx pib s.queues a in
      elim (Poll-cases table.0) [
        | inr (x, answer) ↦ rw (answer, poll_round) (a, o)
        | inl waits ↦ elim (Option-cases (poll_queues expired key cx pib s.queues).0) [
          | inl none_ready ↦
              rw (waits, none_ready, poll_round)
                (a', λ h k is_open. rw none_ready at (h' k (o h k is_open)))
          | inr ((d, action), found) ↦
              rw (waits, found, poll_round)
                (queue_action-IsOpen (poll_queues expired key cx pib s.queues).1
                  (record s {
                    pending_table = table.1;
                    queues = (poll_queues expired key cx pib s.queues).2;
                  })
                  d action a' (λ h k is_open. rw found at (h' k (o h k is_open)))
                  (λ is_empty j q at.
                    poll_queues-drained expired key cx pib d s.queues a
                      (found ∙ ap (λ x. some (d, x)) is_empty) j q at))
        ]
      ]

  after_round :
      (P : Pib → DataService Timer M → Type 0)
      (r : Result Stop (Option (Poll DataServiceAction) × Pib × DataService Timer M))
      (again : Pib
        → DataService Timer M
        → Result Stop (Poll DataServiceAction × Pib × DataService Timer M))
      (x : Poll DataServiceAction) (pib' : Pib) (s' : DataService Timer M)
      → After P r
      → ((p : Pib) (u : DataService Timer M) → again p u ≡ ok (x, pib', s') → P p u → P pib' s')
      → elim r [
        | err stop ↦ err stop
        | ok (some y, p, u) ↦ ok (y, p, u)
        | ok (none, p, u) ↦ again p u
      ]
        ≡ ok (x, pib', s')
      → P pib' s'
  after_round P (err stop) again x pib' s' i rest h = absurd (ground (arith, h))
  after_round P (ok (some y, p, u)) again x pib' s' i rest h =
      subst (λ (q : Pib × DataService Timer M). P q.0 q.1) {x = (p, u)} {y = (pib', s')}
        (ground (arith, h)) i
  after_round P (ok (none, p, u)) again x pib' s' i rest h = rest p u h i

  -- What every round keeps, `poll_action` keeps.
  pub poll_action-keeps :
      (P : Pib → DataService Timer M → Type 0) (expired : Timer → Bool) (key cx : ℕ)
      → ((pib : Pib) (s : DataService Timer M)
          → P pib s
          → After P (poll_round expired key cx pib s))
      → (fuel : ℕ) (pib : Pib) (s : DataService Timer M) (x : Poll DataServiceAction) (pib' : Pib)
        (s' : DataService Timer M)
      → poll_action fuel expired key cx pib s ≡ ok (x, pib', s')
      → P pib s
      → P pib' s'
  unfolding poll_action
  poll_action-keeps P expired key cx round zero pib s x pib' s' h i = absurd (ground (arith, h))
  poll_action-keeps P expired key cx round (suc fuel) pib s x pib' s' h i =
      after_round P (poll_round expired key cx pib s) (λ p u. poll_action fuel expired key cx p u) x
        pib' s' (round pib s i)
        (λ p u h' i'. poll_action-keeps P expired key cx round fuel p u x pib' s' h' i') h

  poll_action-IsOpen :
      (fuel : ℕ) (expired : Timer → Bool) (key cx : ℕ) (pib : Pib) (s : DataService Timer M)
      (x : Poll DataServiceAction) (pib' : Pib) (s' : DataService Timer M)
      → poll_action fuel expired key cx pib s ≡ ok (x, pib', s')
      → IsOpen s
      → IsOpen s'
  poll_action-IsOpen fuel expired key cx pib s x pib' s' =
      poll_action-keeps (λ p u. IsOpen u) expired key cx (poll_round-IsOpen expired key cx) fuel pib
        s x pib' s'

  -- One call of the data service, of any of its clients.
  pub data Step : DataService Timer M → DataService Timer M → Type 0 where
    polled :
        {s s' : DataService Timer M} (fuel : ℕ) (expired : Timer → Bool) (key cx : ℕ) (pib : Pib)
        (x : Poll DataServiceAction) (pib' : Pib)
        → poll_action fuel expired key cx pib s ≡ ok (x, pib', s')
        → Step s s'
    mcps_requested :
        {s : DataService Timer M} (sleep : ℕ → Timer) (key : ℕ) (pib : Pib) (request : Mcps.Request)
        → Step s (process_mcps_request sleep key pib request s).1
    inserted :
        {s : DataService Timer M} (sleep : ℕ → Timer) (pib : Pib) (entry : DataRequest)
        → Step s (insert sleep pib entry s)
    received :
        {s : DataService Timer M} (pib : Pib) (frame : Frame) → Step s (process_frame pib frame s)
    sent :
        {s : DataService Timer M} (sleep : ℕ → Timer) (key : ℕ) (success : Bool)
        → Step s (process_send_result sleep key success s)
    table_cleared :
        {s : DataService Timer M} (key : ℕ) (success : Bool)
        → Step s (process_init_pending_table_result key success s)
    slot_written :
        {s : DataService Timer M} (key : ℕ) (success : Bool)
        → Step s (process_set_pending_result key success s)

  pub data Reach : DataService Timer M → Type 0 where
    start : Reach new
    step : {s s' : DataService Timer M} → Reach s → Step s s' → Reach s'

  process_mcps_request-IsOpen :
      (sleep : ℕ → Timer) (key : ℕ) (pib : Pib) (request : Mcps.Request) (s : DataService Timer M)
      → IsOpen s
      → IsOpen (process_mcps_request sleep key pib request s).1
  unfolding process_mcps_request
  process_mcps_request-IsOpen sleep key pib (Mcps.data_request r) s i =
      process_mcps_data_request-IsOpen sleep key pib r s i
  process_mcps_request-IsOpen sleep key pib (Mcps.purge_request r) s i =
      process_mcps_purge_request-IsOpen r s i

  pub step-IsOpen : (s s' : DataService Timer M) → Step s s' → IsOpen s → IsOpen s'
  unfolding process_init_pending_table_result process_set_pending_result
  step-IsOpen s s' (polled fuel expired key cx pib x pib' h) i =
      poll_action-IsOpen fuel expired key cx pib s x pib' s' h i
  step-IsOpen s s' (mcps_requested sleep key pib request) i =
      process_mcps_request-IsOpen sleep key pib request s i
  step-IsOpen s s' (inserted sleep pib entry) i = insert-IsOpen sleep pib entry s i
  step-IsOpen s s' (received pib frame) i = process_frame-IsOpen pib frame s i
  step-IsOpen s s' (sent sleep key success) i = process_send_result-IsOpen sleep key success s i
  step-IsOpen s s' (table_cleared key success) i = i
  step-IsOpen s s' (slot_written key success) i = i

  reach-IsOpen : (s : DataService Timer M) → Reach s → IsOpen s
  unfolding new
  reach-IsOpen s start = (tt, λ h k is_open. absurd (ground (arith, is_open, b.has_empty h k)))
  reach-IsOpen s' (step {s} r t) = step-IsOpen s s' t (reach-IsOpen s r)

  -- In a reachable state, the request of every open handle is in a queue, the queues have different
  -- destinations, and the requests in a queue have different keys.
  pub reach-holds :
      (s : DataService Timer M)
      → Reach s
      → AreQueues s.queues
        × ((handle key : ℕ) → b.has s.msdu_handles handle key ≡ true → holds key s.queues ≡ true)
  reach-holds s r = reach-IsOpen s r
