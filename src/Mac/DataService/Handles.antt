-- ===== src/Mac/DataService/Handles.antt =====
-- The handles of the data requests and the requests in the queues, along the calls of data.rs.
use zigbee_rust_playground.Common.{
  ℕ, ◌≡◌, refl, ◌∙◌, inl, inr, ◌==◌, ==_iff, arith, Bool, true, false, not, ◌&&◌, ◌||◌, Bool-cases,
  Option-cases, some,
}
use zigbee_rust_playground.Common.Eq.{option_eq, option_beq}
use zigbee_rust_playground.Common.Assoc.{lookup, store}
use zigbee_rust_playground.Bimap.{BiMap}
use zigbee_rust_playground.Frame.Types.{
  full_address_eq, Frame, FrameType, Command, data_request, Payload,
}
use zigbee_rust_playground.Frame.Keys.{full_address_key}
use zigbee_rust_playground.Pib.{Pib, get_full_short_address, get_full_extended_address}
use zigbee_rust_playground.Services.Mcps
use zigbee_rust_playground.Services.Mcps.{Confirm}
use zigbee_rust_playground.Mac.DeviceQueue.{
  DataRequest, DeviceQueue, DeviceQueueAction, empty, set_pending, send_frame, report_result,
  contains, process_datarequest, process_acknowledge,
}
use zigbee_rust_playground.Mac.DeviceQueue
use zigbee_rust_playground.Mac.DeviceQueue.Keys.{insert-keys}
use zigbee_rust_playground.Mac.DataService.{
  DataService, Queues, insert, remove, remove_each, process_send_result, process_frame,
  process_frame_ack, process_frame_data_request, process_mcps_data_request,
  process_mcps_purge_request,
}
use zigbee_rust_playground.Mac.DataService.Held.{
  holds, AreQueues, holds-store, holds-stored, AreQueues-store, AreQueues-lookup,
}
use zigbee_rust_playground.Mac.DataService.Passes.{
  process_send_result-SameKeys, map_values-holds, remove_each-holds,
}

module _ {Timer M : Type 0} ⦃b : BiMap M⦄ where
  -- The queues are well formed, and the request of every open handle is in one of them.
  abbrev pub AreOpen : M → Queues Timer → Type 0
  AreOpen m ps = AreQueues ps × ((h k : ℕ) → b.has m h k ≡ true → holds k ps ≡ true)

  pub AreOpen-keeps :
      (m : M) (ps ps' : Queues Timer)
      → AreQueues ps'
      → ((j : ℕ) → holds j ps ≡ true → holds j ps' ≡ true)
      → AreOpen m ps
      → AreOpen m ps'
  AreOpen-keeps m ps ps' a keeps (a0, o) = (a, λ h k is_open. keeps k (o h k is_open))

  abbrev pub IsOpen : DataService Timer M → Type 0
  IsOpen s = AreOpen s.msdu_handles s.queues

  -- A new request: the queues hold it, and all that they held.
  pub insert-holds :
      (sleep : ℕ → Timer) (pib : Pib) (entry : DataRequest) (s : DataService Timer M)
      → AreQueues s.queues
      → AreQueues (insert sleep pib entry s).queues
        × ((j : ℕ) → holds j s.queues ≡ true → holds j (insert sleep pib entry s).queues ≡ true)
        × (holds entry.key (insert sleep pib entry s).queues ≡ true)
  unfolding insert
  insert-holds sleep pib entry s a = elim (Option-cases (lookup entry.destination s.queues)) [
    | inl absent ↦
        let (k', t', c') =
          insert-keys sleep pib entry DeviceQueue.new (unfold DeviceQueue.new in tt) in
        rw (absent, insert)
          (
            AreQueues-store entry.destination _ s.queues k' a,
            (λ j.
                holds-store j entry.destination _ s.queues
                  (λ q at. absurd (ground (arith, at, absent)))),
            holds-stored entry.key entry.destination _ s.queues (ground (arith, c' entry.key)),
          )
    | inr (q, at) ↦
        let (k', t', c') =
          insert-keys sleep pib entry q (AreQueues-lookup entry.destination q s.queues a at) in
        rw (at, insert)
          (
            AreQueues-store entry.destination _ s.queues k' a,
            (λ j. holds-store j entry.destination _ s.queues (λ q' at' had.
                (let same : q' ≡ q = ground (arith, at, at') in
                  ground (arith, c' j, rw same at had)))),
            holds-stored entry.key entry.destination _ s.queues (ground (arith, c' entry.key)),
          )
  ]

  pub insert-handles :
      (sleep : ℕ → Timer) (pib : Pib) (entry : DataRequest) (s : DataService Timer M)
      → (insert sleep pib entry s).msdu_handles ≡ s.msdu_handles
  unfolding insert
  insert-handles sleep pib entry s = elim (Option-cases (lookup entry.destination s.queues)) [
    | inl absent ↦ rw (absent, insert) refl
    | inr (q, at) ↦ rw (at, insert) refl
  ]

  pub insert-IsOpen :
      (sleep : ℕ → Timer) (pib : Pib) (entry : DataRequest) (s : DataService Timer M)
      → IsOpen s
      → IsOpen (insert sleep pib entry s)
  insert-IsOpen sleep pib entry s i =
      let (a', keeps, held) = insert-holds sleep pib entry s i.0 in
      rw (insert-handles sleep pib entry s)
        (AreOpen-keeps s.msdu_handles s.queues (insert sleep pib entry s).queues a' keeps i)

  -- Opening a handle for a request that a queue holds.
  AreOpen-opened :
      (handle key : ℕ) (m : M) (ps : Queues Timer)
      → holds key ps ≡ true
      → AreOpen m ps
      → AreOpen (b.insert handle key m) ps
  AreOpen-opened handle key m ps held (a, o) = (
    a,
    λ h k is_open.
        let now = rw (b.has_insert handle key m h k) at is_open in
        elim (Bool-cases (key == k)) [
          | inl same ↦ rw (← (==_iff key k).0 same) held
          | inr other ↦ o h k (ground (arith, now, other))
        ],
  )

  pub process_mcps_data_request-IsOpen :
      (sleep : ℕ → Timer) (key : ℕ) (pib : Pib) (request : Mcps.DataRequest)
      (s : DataService Timer M)
      → IsOpen s
      → IsOpen (process_mcps_data_request sleep key pib request s).1
  unfolding process_mcps_data_request
  process_mcps_data_request-IsOpen sleep key pib request s i =
      let entry : DataRequest = record {
        key = key;
        destination = request.destination;
        source_mode = request.source_addressing_mode;
        acknowledge_request = request.ack_tx;
        indirect = request.indirect_tx;
        content = FrameType.data_frame (record { bytes = request.msdu });
      } in
      let (a', keeps, held) = insert-holds sleep pib entry s i.0 in
      AreOpen-opened request.msdu_handle key (insert sleep pib entry s).msdu_handles
        (insert sleep pib entry s).queues held (insert-IsOpen sleep pib entry s i)

  -- Closing the handle of a request, with the request left or taken out.
  AreOpen-closed :
      (handle key : ℕ) (m m' : M) (ps ps' : Queues Timer)
      → b.has m handle key ≡ true
      → ((h k : ℕ) → b.has m' h k ≡ (b.has m h k && not (handle == h)))
      → AreQueues ps'
      → ((j : ℕ) → (key == j) ≡ false → holds j ps ≡ true → holds j ps' ≡ true)
      → AreOpen m ps
      → AreOpen m' ps'
  AreOpen-closed handle key m m' ps ps' had rest a' keeps (a, o) = (
    a',
    λ h k is_open.
        let now : b.has m h k ≡ true = ground (arith, rest h k, is_open) in
        let apart : (handle == h) ≡ false = ground (arith, rest h k, is_open) in
        elim (Bool-cases (key == k)) [
          | inl same ↦
              let both = rw (← (==_iff key k).0 same) at now in
              absurd
                (ground (arith, apart, (==_iff handle h).1 (b.one_left m handle h key had both)))
          | inr other ↦ keeps k other (o h k now)
        ],
  )

  pub process_mcps_purge_request-IsOpen :
      (request : Mcps.PurgeRequest) (s : DataService Timer M)
      → IsOpen s
      → IsOpen (process_mcps_purge_request request s).1
  unfolding process_mcps_purge_request remove
  process_mcps_purge_request-IsOpen request s i =
      let handle = request.msdu_handle in
      let m = s.msdu_handles in
      elim (Option-cases (b.remove_by_left handle m).0) [
        | inl unknown ↦
            rw (unknown, process_mcps_purge_request)
              (i.0, λ h k is_open. i.1 h k (ground (arith, is_open, b.left_rest handle m h k)))
        | inr ((l, key), known) ↦
            let (same, had) = b.left_some handle m l key known in
            let (a', h') = remove_each-holds key false s.queues i.0 in
            rw (known, process_mcps_purge_request)
              (AreOpen-closed handle key m (b.remove_by_left handle m).1 s.queues
                (remove_each key false s.queues).1 had (b.left_rest handle m) a'
                (λ j ne had'. h' j ne ∙ had') i)
      ]

  process_frame_data_request-IsOpen :
      (pib : Pib) (frame : Frame) (s : DataService Timer M)
      → IsOpen s
      → IsOpen (process_frame_data_request pib frame s)
  unfolding process_frame_data_request
  process_frame_data_request-IsOpen pib frame s (a, o) =
      elim (Bool-cases (
        option_beq full_address_eq frame.destination (some (get_full_short_address pib))
        || option_beq full_address_eq frame.destination (some (get_full_extended_address pib)))) [
          | inr other ↦ rw (other, process_frame_data_request) (a, o)
          | inl mine ↦ elim (Option-cases (lookup frame.source s.queues)) [
            | inl absent ↦ rw (mine, absent, process_frame_data_request) (a, o)
            | inr (q, at) ↦
                rw (mine, at, process_frame_data_request)
                  (AreOpen-keeps s.msdu_handles s.queues
                    (store frame.source (process_datarequest q) s.queues)
                    (AreQueues-store frame.source (process_datarequest q) s.queues
                      (unfold process_datarequest in AreQueues-lookup frame.source q s.queues a at)
                      a)
                    (λ j. holds-store j frame.source (process_datarequest q) s.queues (λ q' at' had.
                      let same : q' ≡ q = ground (arith, at, at') in
                      unfold process_datarequest in rw same at had))
                    (a, o))
          ]
        ]

  process_frame_ack-IsOpen :
      (frame : Frame) (payload : Payload) (s : DataService Timer M)
      → IsOpen s
      → IsOpen (process_frame_ack frame payload s)
  unfolding process_frame_ack process_acknowledge
  process_frame_ack-IsOpen frame payload s (a, o) =
      let (a', h') =
        map_values-holds (process_acknowledge frame.sequence_number payload.bytes) s.queues
          (λ q k. (k, λ j. refl)) a in
      AreOpen-keeps s.msdu_handles s.queues _ a' (λ j had. h' j ∙ had) (a, o)

  process_frame_of :
      (pib : Pib) (frame : Frame) (s : DataService Timer M) (t : FrameType)
      → frame.frame_type ≡ t
      → IsOpen s
      → IsOpen (process_frame pib frame s)
  unfolding process_frame
  process_frame_of pib frame s (FrameType.ack payload) same i =
      rw (same, process_frame) (process_frame_ack-IsOpen frame payload s i)
  process_frame_of pib frame s (FrameType.command data_request) same i =
      rw (same, process_frame) (process_frame_data_request-IsOpen pib frame s i)
  process_frame_of pib frame s (FrameType.command (Command.association_request c)) same i =
      rw (same, process_frame) i
  process_frame_of pib frame s (FrameType.command (Command.association_response c)) same i =
      rw (same, process_frame) i
  process_frame_of pib frame s (FrameType.command Command.beacon_request) same i =
      rw (same, process_frame) i
  process_frame_of pib frame s (FrameType.beacon x) same i = rw (same, process_frame) i
  process_frame_of pib frame s (FrameType.data_frame x) same i = rw (same, process_frame) i
  process_frame_of pib frame s (FrameType.reserved x) same i = rw (same, process_frame) i
  process_frame_of pib frame s (FrameType.multipurpose x) same i = rw (same, process_frame) i
  process_frame_of pib frame s (FrameType.fragment x) same i = rw (same, process_frame) i
  process_frame_of pib frame s (FrameType.extended x) same i = rw (same, process_frame) i

  pub process_frame-IsOpen :
      (pib : Pib) (frame : Frame) (s : DataService Timer M)
      → IsOpen s
      → IsOpen (process_frame pib frame s)
  process_frame-IsOpen pib frame s i = process_frame_of pib frame s frame.frame_type refl i

  pub process_send_result-IsOpen :
      (sleep : ℕ → Timer) (key : ℕ) (success : Bool) (s : DataService Timer M)
      → IsOpen s
      → IsOpen (process_send_result sleep key success s)
  unfolding process_send_result
  process_send_result-IsOpen sleep key success s (a, o) =
      let (a', h') =
        map_values-holds (DeviceQueue.process_send_result sleep key success) s.queues
          (λ q k. process_send_result-SameKeys sleep key success q k) a in
      AreOpen-keeps s.msdu_handles s.queues _ a' (λ j had. h' j ∙ had) (a, o)
