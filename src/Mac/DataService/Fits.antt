-- ===== src/Mac/DataService/Fits.antt =====
-- The frames of the data service can be packed, where the requests that it is given can.
use zigbee_rust_playground.Common.{
  ℕ, zero, suc, ◌≡◌, refl, inl, inr, arith, Bool, true, false, ◌||◌, Bool-cases, Option-cases,
  Option, none, some, [], ◌∷◌, Result, ok, err,
}
use mathlib.Core.Path.{subst}
use zigbee_rust_playground.Common.Eq.{option_eq, option_beq}
use zigbee_rust_playground.Common.Assoc.{
  lookup, map_values, AllValues, AllValues-lookup, AllValues-store, AllValues-erase,
}
use zigbee_rust_playground.Bimap.{BiMap}
use zigbee_rust_playground.Frame.Types.{
  FullAddress, full_address_eq, Frame, FrameType, Command, data_request, Payload,
}
use zigbee_rust_playground.Frame.Keys.{full_address_key}
use zigbee_rust_playground.Frame.Layout.{BodyFits}
use zigbee_rust_playground.Pib.{Pib, get_full_short_address, get_full_extended_address}
use zigbee_rust_playground.Services.Mcps
use zigbee_rust_playground.Mac.Waker.{Poll, ready, pending, Poll-cases}
use zigbee_rust_playground.Mac.CombinedPendingTable
use zigbee_rust_playground.Mac.CombinedPendingTable.{
  CombinedPendingTableAction, set_address, init, update_short, update_extended,
}
use zigbee_rust_playground.Mac.DeviceQueue.{
  DataRequest, DeviceQueue, DeviceQueueAction, empty, set_pending, send_frame, report_result,
  poll_next_action, process_datarequest, process_acknowledge,
}
use zigbee_rust_playground.Mac.DeviceQueue
use zigbee_rust_playground.Mac.DeviceQueue.Requests.{
  AllRequests, Sends, insert-AllRequests, remove-AllRequests, process_send_result-AllRequests,
  poll_next_action-Keeps,
}
use zigbee_rust_playground.Mac.DataService.{
  DataService, DataServiceAction, init_pending_table, set_pending_short, set_pending_extended,
  send_data, confirm, from_table_action, Queues, Stop, remove_each, poll_queues, queue_action,
  after_action, poll_round, poll_action, insert, remove, process_init_pending_table_result,
  process_set_pending_result, process_send_result, process_frame, process_frame_ack,
  process_frame_data_request, process_mcps_data_request, process_mcps_purge_request,
  process_mcps_request,
}
use zigbee_rust_playground.Mac.DataService.Total.{poll_queues-pending, poll_queues-ready}
use zigbee_rust_playground.Mac.DataService.Reach.{
  Step, polled, mcps_requested, inserted, received, sent, table_cleared, slot_written,
}

abbrev pub Fit : DataRequest → Type 0
Fit r = BodyFits r.content

abbrev pub FitsPoll : Poll DataServiceAction → Type 0
FitsPoll (ready (send_data key frame)) = BodyFits frame.frame_type
FitsPoll (ready (init_pending_table key)) = Unit {0}
FitsPoll (ready (set_pending_short key i v)) = Unit {0}
FitsPoll (ready (set_pending_extended key i v)) = Unit {0}
FitsPoll (ready (confirm c)) = Unit {0}
FitsPoll pending = Unit {0}

from_table_action-FitsPoll :
    (x : CombinedPendingTableAction) → FitsPoll (ready (from_table_action x))
unfolding from_table_action
from_table_action-FitsPoll (init key) = tt
from_table_action-FitsPoll (update_short key i v) = tt
from_table_action-FitsPoll (update_extended key i v) = tt

abbrev Found : Option (Option FullAddress × DeviceQueueAction) → Type 0
Found none = Unit {0}
Found (some (d, action)) = Sends Fit (ready action)

module _ {Timer : Type 0} where
  abbrev pub AllFit : Queues Timer → Type 0
  AllFit ps = AllValues (λ q. AllRequests Fit q.entries) ps

  map_values-AllFit :
      (g : DeviceQueue Timer → DeviceQueue Timer) (ps : Queues Timer)
      → ((q : DeviceQueue Timer) → AllRequests Fit q.entries → AllRequests Fit (g q).entries)
      → AllFit ps
      → AllFit (map_values g ps)
  unfolding map_values
  map_values-AllFit g [] keeps a = a
  map_values-AllFit g ((d, q) ∷ ps) keeps (h, a) = (keeps q h, map_values-AllFit g ps keeps a)

  remove_each-AllFit :
      (key : ℕ) (removed : Bool) (ps : Queues Timer)
      → AllFit ps
      → AllFit (remove_each key removed ps).1
  unfolding remove_each
  remove_each-AllFit key removed [] a = a
  remove_each-AllFit key true ((d, q) ∷ ps) (h, a) = (h, remove_each-AllFit key true ps a)
  remove_each-AllFit key false ((d, q) ∷ ps) (h, a) =
      (remove-AllRequests Fit key q h, remove_each-AllFit key (DeviceQueue.remove key q).0 ps a)

  poll_queues-AllFit :
      (expired : Timer → Bool) (key cx : ℕ) (pib : Pib) (ps : Queues Timer)
      → AllFit ps
      → AllFit (poll_queues expired key cx pib ps).2 × Found (poll_queues expired key cx pib ps).0
  poll_queues-AllFit expired key cx pib [] a = unfold poll_queues in (tt, tt)
  poll_queues-AllFit expired key cx pib ((d, q) ∷ ps) (h, a) =
      let (h', s) = poll_next_action-Keeps Fit expired key cx pib q h in
      elim (Poll-cases (poll_next_action expired key cx pib q).0) [
        | inl waits ↦
            let (a', f) =
              poll_queues-AllFit expired key cx (poll_next_action expired key cx pib q).1 ps a in
            rw (poll_queues-pending expired key cx pib d q ps waits) ((h', a'), f)
        | inr (action, answer) ↦
            rw (poll_queues-ready expired key cx pib d q ps action answer) ((h', a), rw answer at s)
      ]

module _ {Timer M : Type 0} ⦃b : BiMap M⦄ where
  abbrev FitsRound :
      Result Stop (Option (Poll DataServiceAction) × Pib × DataService Timer M) → Type 0
  FitsRound (err stop) = Unit {0}
  FitsRound (ok (none, p, u)) = AllFit u.queues
  FitsRound (ok (some x, p, u)) = AllFit u.queues × FitsPoll x

  queue_action-FitsRound :
      (p : Pib) (u : DataService Timer M) (d : Option FullAddress) (action : DeviceQueueAction)
      → AllFit u.queues
      → Sends Fit (ready action)
      → FitsRound (after_action p (queue_action d action u))
  unfolding queue_action
  queue_action-FitsRound p u d empty a s =
      AllValues-erase (λ q. AllRequests Fit q.entries) d u.queues a
  queue_action-FitsRound p u d (set_pending bit) a s =
      elim (Option-cases (set_address d bit u.pending_table)) [
        | inl panics ↦ rw (panics, queue_action) tt
        | inr (table, done) ↦ rw (done, queue_action) a
      ]
  queue_action-FitsRound p u d (send_frame key frame) a (r, fits, same) = (a, rw same fits)
  queue_action-FitsRound p u d (report_result key result) a s =
      elim (Option-cases (b.remove_by_right key u.msdu_handles).0) [
        | inl unknown ↦ rw (unknown, queue_action) a
        | inr ((handle, r), known) ↦ rw (known, queue_action) (a, tt)
      ]

  poll_round-FitsRound :
      (expired : Timer → Bool) (key cx : ℕ) (pib : Pib) (s : DataService Timer M)
      → AllFit s.queues
      → FitsRound (poll_round expired key cx pib s)
  unfolding poll_round
  poll_round-FitsRound expired key cx pib s a =
      let (a', f) = poll_queues-AllFit expired key cx pib s.queues a in
      elim (Poll-cases (CombinedPendingTable.poll_action key cx s.pending_table).0) [
        | inr (x, answer) ↦ rw (answer, poll_round) (a, from_table_action-FitsPoll x)
        | inl waits ↦ elim (Option-cases (poll_queues expired key cx pib s.queues).0) [
          | inl none_ready ↦ rw (waits, none_ready, poll_round) (a', tt)
          | inr ((d, action), found) ↦
              rw (waits, found, poll_round) (queue_action-FitsRound _ _ d action a' (rw found at f))
        ]
      ]

  after_round :
      (r : Result Stop (Option (Poll DataServiceAction) × Pib × DataService Timer M))
      (again : Pib
        → DataService Timer M
        → Result Stop (Poll DataServiceAction × Pib × DataService Timer M))
      (x : Poll DataServiceAction) (pib' : Pib) (s' : DataService Timer M)
      → FitsRound r
      → ((p : Pib) (u : DataService Timer M)
          → again p u ≡ ok (x, pib', s')
          → AllFit u.queues
          → AllFit s'.queues × FitsPoll x)
      → elim r [
        | err stop ↦ err stop
        | ok (some y, p, u) ↦ ok (y, p, u)
        | ok (none, p, u) ↦ again p u
      ]
        ≡ ok (x, pib', s')
      → AllFit s'.queues × FitsPoll x
  after_round (err stop) again x pib' s' i rest h = absurd (ground (arith, h))
  after_round (ok (some y, p, u)) again x pib' s' i rest h =
      subst (λ (q : Poll DataServiceAction × DataService Timer M). AllFit q.1.queues × FitsPoll q.0)
        {x = (y, u)} {y = (x, s')} (ground (arith, h)) i
  after_round (ok (none, p, u)) again x pib' s' i rest h = rest p u h i

  pub poll_action-AllFit :
      (fuel : ℕ) (expired : Timer → Bool) (key cx : ℕ) (pib : Pib) (s : DataService Timer M)
      (x : Poll DataServiceAction) (pib' : Pib) (s' : DataService Timer M)
      → poll_action fuel expired key cx pib s ≡ ok (x, pib', s')
      → AllFit s.queues
      → AllFit s'.queues × FitsPoll x
  unfolding poll_action
  poll_action-AllFit zero expired key cx pib s x pib' s' h a = absurd (ground (arith, h))
  poll_action-AllFit (suc fuel) expired key cx pib s x pib' s' h a =
      after_round (poll_round expired key cx pib s) (λ p u. poll_action fuel expired key cx p u) x
        pib' s' (poll_round-FitsRound expired key cx pib s a)
        (λ p u h' a'. poll_action-AllFit fuel expired key cx p u x pib' s' h' a') h

  insert-AllFit :
      (sleep : ℕ → Timer) (pib : Pib) (entry : DataRequest) (s : DataService Timer M)
      → Fit entry
      → AllFit s.queues
      → AllFit (insert sleep pib entry s).queues
  unfolding insert DeviceQueue.new
  insert-AllFit sleep pib entry s fits a = elim (Option-cases (lookup entry.destination s.queues)) [
    | inl absent ↦
        rw (absent, insert)
          (AllValues-store (λ q. AllRequests Fit q.entries) entry.destination _ s.queues
            (insert-AllRequests Fit sleep pib entry DeviceQueue.new tt fits) a)
    | inr (q, there) ↦
        let old =
          AllValues-lookup (λ q. AllRequests Fit q.entries) entry.destination q s.queues a there in
        rw (there, insert)
          (AllValues-store (λ q. AllRequests Fit q.entries) entry.destination _ s.queues
            (insert-AllRequests Fit sleep pib entry q old fits) a)
  ]

  process_frame_data_request-AllFit :
      (pib : Pib) (frame : Frame) (s : DataService Timer M)
      → AllFit s.queues
      → AllFit (process_frame_data_request pib frame s).queues
  unfolding process_frame_data_request
  process_frame_data_request-AllFit pib frame s a =
      elim (Bool-cases (
        option_beq full_address_eq frame.destination (some (get_full_short_address pib))
        || option_beq full_address_eq frame.destination (some (get_full_extended_address pib)))) [
          | inr other ↦ rw (other, process_frame_data_request) a
          | inl mine ↦ elim (Option-cases (lookup frame.source s.queues)) [
            | inl absent ↦ rw (mine, absent, process_frame_data_request) a
            | inr (q, there) ↦
                let old =
                  AllValues-lookup (λ q. AllRequests Fit q.entries) frame.source q s.queues a
                    there in
                rw (mine, there, process_frame_data_request)
                  (AllValues-store (λ q. AllRequests Fit q.entries) frame.source _ s.queues
                    (unfold process_datarequest in old) a)
          ]
        ]

  process_frame_ack-AllFit :
      (frame : Frame) (payload : Payload) (s : DataService Timer M)
      → AllFit s.queues
      → AllFit (process_frame_ack frame payload s).queues
  unfolding process_frame_ack process_acknowledge
  process_frame_ack-AllFit frame payload s a = map_values-AllFit _ s.queues (λ q h. h) a

  process_frame-AllFit :
      (pib : Pib) (frame : Frame) (s : DataService Timer M) (t : FrameType)
      → frame.frame_type ≡ t
      → AllFit s.queues
      → AllFit (process_frame pib frame s).queues
  unfolding process_frame
  process_frame-AllFit pib frame s (FrameType.command data_request) same a =
      rw (same, process_frame) (process_frame_data_request-AllFit pib frame s a)
  process_frame-AllFit pib frame s (FrameType.ack x) same a =
      rw (same, process_frame) (process_frame_ack-AllFit frame x s a)
  process_frame-AllFit pib frame s (FrameType.command (Command.association_request c)) same a =
      rw (same, process_frame) a
  process_frame-AllFit pib frame s (FrameType.command (Command.association_response c)) same a =
      rw (same, process_frame) a
  process_frame-AllFit pib frame s (FrameType.command Command.beacon_request) same a =
      rw (same, process_frame) a
  process_frame-AllFit pib frame s (FrameType.beacon x) same a = rw (same, process_frame) a
  process_frame-AllFit pib frame s (FrameType.data_frame x) same a = rw (same, process_frame) a
  process_frame-AllFit pib frame s (FrameType.reserved x) same a = rw (same, process_frame) a
  process_frame-AllFit pib frame s (FrameType.multipurpose x) same a = rw (same, process_frame) a
  process_frame-AllFit pib frame s (FrameType.fragment x) same a = rw (same, process_frame) a
  process_frame-AllFit pib frame s (FrameType.extended x) same a = rw (same, process_frame) a

  process_mcps_request-AllFit :
      (sleep : ℕ → Timer) (key : ℕ) (pib : Pib) (request : Mcps.Request) (s : DataService Timer M)
      → AllFit s.queues
      → AllFit (process_mcps_request sleep key pib request s).1.queues
  unfolding process_mcps_request process_mcps_data_request process_mcps_purge_request remove
  process_mcps_request-AllFit sleep key pib (Mcps.data_request r) s a =
      insert-AllFit sleep pib _ s tt a
  process_mcps_request-AllFit sleep key pib (Mcps.purge_request r) s a =
      elim (Option-cases (b.remove_by_left r.msdu_handle s.msdu_handles).0) [
        | inl unknown ↦ rw (unknown, process_mcps_request, process_mcps_purge_request) a
        | inr ((l, k), known) ↦
            rw (known, process_mcps_request, process_mcps_purge_request)
              (remove_each-AllFit k false s.queues a)
      ]

  -- The request that a call inserts, if it inserts one of its own, can be packed.
  abbrev pub InsertsFit : (s s' : DataService Timer M) → Step s s' → Type 0
  InsertsFit s s' (inserted sleep pib entry) = Fit entry
  InsertsFit s s' (polled fuel expired key cx pib x pib' h) = Unit {0}
  InsertsFit s s' (mcps_requested sleep key pib request) = Unit {0}
  InsertsFit s s' (received pib frame) = Unit {0}
  InsertsFit s s' (sent sleep key success) = Unit {0}
  InsertsFit s s' (table_cleared key success) = Unit {0}
  InsertsFit s s' (slot_written key success) = Unit {0}

  pub step-AllFit :
      (s s' : DataService Timer M) (t : Step s s')
      → InsertsFit s s' t
      → AllFit s.queues
      → AllFit s'.queues
  unfolding process_init_pending_table_result process_set_pending_result process_send_result
  step-AllFit s s' (polled fuel expired key cx pib x pib' h) i a =
      (poll_action-AllFit fuel expired key cx pib s x pib' s' h a).0
  step-AllFit s s' (mcps_requested sleep key pib request) i a =
      process_mcps_request-AllFit sleep key pib request s a
  step-AllFit s s' (inserted sleep pib entry) i a = insert-AllFit sleep pib entry s i a
  step-AllFit s s' (received pib frame) i a =
      process_frame-AllFit pib frame s frame.frame_type refl a
  step-AllFit s s' (sent sleep key success) i a =
      map_values-AllFit _ s.queues
        (λ q h. process_send_result-AllRequests Fit sleep key success q h) a
  step-AllFit s s' (table_cleared key success) i a = a
  step-AllFit s s' (slot_written key success) i a = a
