-- ===== src/Mac/DeviceQueue/Answers.antt =====
-- What the answers of a poll of a device queue say: the statements, and the timers of the requests.
use zigbee_rust_playground.Common.{
  ℕ, ◌+◌, ◌%◌, ◌≡◌, ◌≢◌, refl, ap, ◌∙◌, arith, if◌then◌else◌, Bool, true, false, not, ◌||◌,
  Bool-cases, Option-cases, inl, inr, ◌⊎◌, ◌==◌, All, ◌++◌, List, [], ◌∷◌, none, some, err,
}
use zigbee_rust_playground.Frame.Types.{Frame}
use zigbee_rust_playground.Pib.{Pib}
use zigbee_rust_playground.Mac.Waker.{Poll, ready, pending, pend}
use zigbee_rust_playground.Mac.DeviceQueue.{
  DeviceQueue, DeviceQueueEntry, DeviceQueueState, idle, sending, waiting_for_ack, have_result,
  DeviceQueueAction, SendOutcome, empty, set_pending, send_frame, report_result,
  transaction_expired, no_ack, take_expired, source_address, front_indirect,
}

module _ {Timer : Type 0} where
  -- The frame that is handed out, and the queue and the PIB after it.
  pub record IsSent (pib pib' : Pib) (q q' : DeviceQueue Timer) (key : ℕ) (frame : Frame)
      (front : DeviceQueueEntry Timer) (rest : List (DeviceQueueEntry Timer)) (datarequest : Bool)
      : Type 0 where
    pub in_front : q.entries ≡ front ∷ rest
    pub was_idle : q.state ≡ idle datarequest
    pub asked_for : (not front.request.indirect || datarequest) ≡ true
    pub content : frame.frame_type ≡ front.request.content
    pub destination : frame.destination ≡ front.request.destination
    pub source : frame.source ≡ source_address front.request.source_mode pib
    pub more_pending : frame.frame_pending ≡ front_indirect rest
    pub sequence_number : frame.sequence_number ≡ some pib.mac_dsn
    pub next_sequence_number : pib'.mac_dsn ≡ (pib.mac_dsn + 1) % 256
    pub now_sending :
        q'.state
        ≡ sending key (if front.request.acknowledge_request then some pib.mac_dsn else none) []
    pub kept : q'.entries ≡ q.entries

  -- Why the front request of a queue waits, by the state; with the state that it waits in and the
  -- retries that it has left.
  abbrev pub Waits :
      (Timer → Bool)
      → DeviceQueueState Timer
      → DeviceQueueEntry Timer
      → DeviceQueueState Timer
      → ℕ
      → Type 0
  Waits expired (idle datarequest) front state left =
      (front.request.indirect ≡ true)
      × (datarequest ≡ false)
      × (state ≡ idle false)
      × (left ≡ front.retries_left)
  Waits expired (sending send_key ack_requested ack_payload) front state left =
      (state ≡ sending send_key ack_requested ack_payload) × (left ≡ front.retries_left)
  Waits expired (have_result result) front state left = ⊥
  Waits expired (waiting_for_ack ack timeout) front state left =
      ((expired timeout ≡ false)
        × (state ≡ waiting_for_ack ack timeout)
        × (left ≡ front.retries_left))
      ⊎ ((expired timeout ≡ true)
          × (state ≡ idle false)
          × (((front.request.indirect ≡ true) × (left ≡ front.retries_left))
              ⊎ ((front.request.indirect ≡ false) × (left + 1 ≡ front.retries_left))))

  abbrev pub IsUnexpired : (Timer → Bool) → DeviceQueueEntry Timer → Type 0
  IsUnexpired expired e = expired e.timeout ≡ false

  -- The first entry of a list whose timer has expired, and the others.
  pub record IsFirstExpired (expired : Timer → Bool) (es : List (DeviceQueueEntry Timer))
      (before : List (DeviceQueueEntry Timer)) (e : DeviceQueueEntry Timer)
      (after : List (DeviceQueueEntry Timer)) : Type 0 where
    pub split : es ≡ before ++ (e ∷ after)
    pub earlier_wait : All (IsUnexpired expired) before
    pub timer_expired : expired e.timeout ≡ true

  -- The state after the entry behind `before` was taken out.
  abbrev pub state_behind :
      List (DeviceQueueEntry Timer) → DeviceQueueState Timer → DeviceQueueState Timer
  state_behind [] state = idle false
  state_behind (b ∷ before) state = state

  -- A queue that waits for its front request, and finds that the timer of a request has expired.
  abbrev pub Expiry : (Timer → Bool) → DeviceQueue Timer → ℕ → DeviceQueue Timer → Type 0
  Expiry expired q key q' =
      (front e : DeviceQueueEntry Timer) × (rest before after : List (DeviceQueueEntry Timer))
      × (left : ℕ) × (state : DeviceQueueState Timer) × (q.entries ≡ front ∷ rest)
      × Waits expired q.state front state left
      × IsFirstExpired expired (record front { retries_left = left } ∷ rest) before e after
      × (e.request.key ≡ key)
      × (q'.entries ≡ before ++ after)
      × (q'.state ≡ state_behind before state)

  -- Why the result of a request is reported, and the queue after it.
  abbrev pub Reason :
      (Timer → Bool) → DeviceQueue Timer → ℕ → SendOutcome → DeviceQueue Timer → Type 0
  Reason expired q key result q' =
      ((front : DeviceQueueEntry Timer) × (rest : List (DeviceQueueEntry Timer)) × (q.entries
          ≡ front ∷ rest)
        × (front.request.key ≡ key)
        × (q'.entries ≡ rest)
        × (q'.state ≡ idle false)
        × ((q.state ≡ have_result result)
            ⊎ ((ack : ℕ) × (timeout : Timer) × (q.state ≡ waiting_for_ack ack timeout)
                × (expired timeout ≡ true)
                × (front.request.indirect ≡ false)
                × (front.retries_left ≡ 0)
                × (result ≡ err no_ack))))
      ⊎ ((result ≡ err transaction_expired) × Expiry expired q key q')

  abbrev pub Answers :
      (Timer → Bool)
      → ℕ
      → Pib
      → DeviceQueue Timer
      → Poll DeviceQueueAction × Pib × DeviceQueue Timer
      → Type 0
  Answers expired cx pib q (ready empty, pib', q') =
      (q.entries ≡ [])
      × (q.last_pending_reported ≡ some false)
      × (q'.state ≡ idle false)
      × (pib' ≡ pib)
  Answers expired cx pib q (ready (set_pending b), pib', q') =
      (b ≡ front_indirect q.entries)
      × (q.last_pending_reported ≢ some b)
      × (q' ≡ record q { last_pending_reported = some b })
      × (pib' ≡ pib)
  Answers expired cx pib q (ready (send_frame key frame), pib', q') =
      (front : DeviceQueueEntry Timer) × (rest : List (DeviceQueueEntry Timer))
      × (datarequest : Bool) × IsSent pib pib' q q' key frame front rest datarequest
  Answers expired cx pib q (ready (report_result key result), pib', q') =
      Reason expired q key result q' × (pib' ≡ pib)
  Answers expired cx pib q (pending, pib', q') =
      (front : DeviceQueueEntry Timer) × (rest : List (DeviceQueueEntry Timer)) × (left : ℕ)
      × (q.entries ≡ front ∷ rest)
      × Waits expired q.state front q'.state left
      × (q'.entries ≡ record front { retries_left = left } ∷ rest)
      × All (IsUnexpired expired) q'.entries
      × (q'.waker ≡ pend q.waker cx)
      × (pib' ≡ pib)

  pub take_expired-none :
      (expired : Timer → Bool) (es : List (DeviceQueueEntry Timer))
      → take_expired expired es ≡ none
      → All (IsUnexpired expired) es
  unfolding take_expired
  take_expired-none expired [] h = tt
  take_expired-none expired (e ∷ es) h = elim (Bool-cases (expired e.timeout)) [
    | inl now ↦ absurd (ground (arith, h, now))
    | inr later ↦ elim (Option-cases (take_expired expired es)) [
      | inl never ↦ (later, take_expired-none expired es never)
      | inr ((i, key, others), found) ↦ absurd (ground (arith, h, later, found))
    ]
  ]

  pub take_expired-first :
      (expired : Timer → Bool) (es : List (DeviceQueueEntry Timer)) (i key : ℕ)
      (others : List (DeviceQueueEntry Timer)) (state : DeviceQueueState Timer)
      → take_expired expired es ≡ some (i, key, others)
      → (e : DeviceQueueEntry Timer) × (before after : List (DeviceQueueEntry Timer))
        × IsFirstExpired expired es before e after
        × (e.request.key ≡ key)
        × (others ≡ before ++ after)
        × ((if i == 0 then idle false else state) ≡ state_behind before state)
  take_expired-first expired [] i key others state h =
      absurd (unfold take_expired in ground (arith, h))
  take_expired-first expired (e ∷ es) i key others state h = elim (Bool-cases (expired e.timeout)) [
    | inl now ↦
        let at : i ≡ 0 = unfold take_expired in ground (arith, h, now) in
        (
          e,
          [],
          es,
          record { split = refl; earlier_wait = tt; timer_expired = now },
          unfold take_expired in ground (arith, h, now),
          unfold take_expired in ground (arith, h, now),
          rw at refl,
        )
    | inr later ↦ elim (Option-cases (take_expired expired es)) [
      | inl never ↦ absurd (unfold take_expired in ground (arith, h, later, never))
      | inr ((i', key', others'), found) ↦
          let at : i ≡ 1 + i' = unfold take_expired in ground (arith, h, later, found) in
          let same : key' ≡ key = unfold take_expired in ground (arith, h, later, found) in
          let kept : others ≡ e ∷ others' =
            unfold take_expired in ground (arith, h, later, found) in
          let (x, before, after, first, here, left, _) =
            take_expired-first expired es i' key' others' state found in
          (
            x,
            e ∷ before,
            after,
            record {
              split = ap (λ ys. e ∷ ys) first.split;
              earlier_wait = (later, first.earlier_wait);
              timer_expired = first.timer_expired;
            },
            here ∙ same,
            kept ∙ ap (λ ys. e ∷ ys) left,
            (let later_one : (1 + i' == 0) ≡ false = ground arith in rw at (rw later_one refl)),
          )
    ]
  ]
