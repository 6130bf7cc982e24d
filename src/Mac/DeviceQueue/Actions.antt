-- ===== src/Mac/DeviceQueue/Actions.antt =====
-- What each answer of a poll of a device queue says.
use zigbee_rust_playground.Common.{
  ℕ, ◌-◌, ◌≡◌, ◌≢◌, refl, sym, ap, ◌∙◌, arith, ltb, Bool, true, false, not, ◌||◌, Bool-cases,
  Option-cases, inl, inr, List, [], ◌∷◌, Option, none, some,
}
use zigbee_rust_playground.Pib.{Pib, next_data_sequence_nr}
use zigbee_rust_playground.Mac.Waker.{pend}
use zigbee_rust_playground.Mac.DeviceQueue.{
  DeviceQueue, DeviceQueueEntry, DeviceQueueState, idle, sending, waiting_for_ack, have_result,
  take_expired, poll_timeouts, wait, poll_front, poll_entries, poll_next_action, create_frame,
  front_indirect, reported_as,
}
use zigbee_rust_playground.Mac.DeviceQueue.Answers.{
  IsFirstExpired, Waits, Answers, take_expired-none, take_expired-first,
}

reported_as-true : (o : Option Bool) (b : Bool) → reported_as o b ≡ true → o ≡ some b
reported_as-true none b h = absurd (ground (arith, h))
reported_as-true (some true) true h = refl
reported_as-true (some true) false h = absurd (ground (arith, h))
reported_as-true (some false) true h = absurd (ground (arith, h))
reported_as-true (some false) false h = refl

reported_as-false : (o : Option Bool) (b : Bool) → reported_as o b ≡ false → o ≢ some b
reported_as-false none b h e = absurd (ground (arith, e))
reported_as-false (some true) true h e = absurd (ground (arith, h))
reported_as-false (some true) false h e = absurd (ground (arith, e))
reported_as-false (some false) true h e = absurd (ground (arith, e))
reported_as-false (some false) false h e = absurd (ground (arith, h))

module _ {Timer : Type 0} where
  -- A queue that is left waiting for its front request, with its timers still to look at.
  wait-Answers :
      (expired : Timer → Bool) (cx : ℕ) (pib : Pib) (q r : DeviceQueue Timer)
      (front : DeviceQueueEntry Timer) (rest : List (DeviceQueueEntry Timer)) (left : ℕ)
      → q.entries ≡ front ∷ rest
      → Waits expired q.state front r.state left
      → r.entries ≡ record front { retries_left = left } ∷ rest
      → r.waker ≡ q.waker
      → Answers expired cx pib q (wait expired cx pib r)
  unfolding wait poll_timeouts
  wait-Answers expired cx pib q r front rest left same waits entries waker =
      elim (Option-cases (take_expired expired r.entries)) [
        | inl never ↦ rw never (
          front,
          rest,
          left,
          same,
          waits,
          entries,
          take_expired-none expired r.entries never,
          ap (λ w. pend w cx) waker,
          refl,
        )
        | inr ((i, key, others), found) ↦
            let (e, before, after, first, here, kept, state) =
              take_expired-first expired r.entries i key others r.state found in
            let fired : IsFirstExpired expired (record front { retries_left = left } ∷ rest) before
                e after =
              record {
                split = sym entries ∙ first.split;
                earlier_wait = first.earlier_wait;
                timer_expired = first.timer_expired;
              } in
            rw found (
              inr (
                refl,
                (
                  front, e, rest, before, after, left, r.state, same, waits, fired, here, kept,
                  state,
                ),
              ),
              refl,
            )
      ]

  poll_front-Answers :
      (expired : Timer → Bool) (key cx : ℕ) (state : DeviceQueueState Timer)
      (e : DeviceQueueEntry Timer) (es : List (DeviceQueueEntry Timer)) (pib : Pib)
      (q : DeviceQueue Timer)
      → q.entries ≡ e ∷ es
      → q.state ≡ state
      → Answers expired cx pib q (poll_front expired key cx state e es pib q)
  unfolding poll_front create_frame next_data_sequence_nr
  poll_front-Answers expired key cx (idle d) e es pib q same now =
      elim (Bool-cases (not e.request.indirect || d)) [
        | inl go ↦ simp go (
          e,
          es,
          d,
          record {
            in_front = same;
            was_idle = now;
            asked_for = go;
            content = refl;
            destination = refl;
            source = refl;
            more_pending = refl;
            sequence_number = refl;
            next_sequence_number = refl;
            now_sending = refl;
            kept = refl;
          },
        )
        | inr stay ↦ simp stay (
            wait-Answers expired cx pib q (record q { state = idle false }) e es e.retries_left same
              (rw now (ground (arith, stay), ground (arith, stay), refl, refl)) same refl)
      ]
  poll_front-Answers expired key cx (sending s a p) e es pib q same now =
      wait-Answers expired cx pib q q e es e.retries_left same (rw now (refl, refl)) same refl
  poll_front-Answers expired key cx (have_result r) e es pib q same now =
      (inl (e, es, same, refl, refl, refl, inl now), refl)
  poll_front-Answers expired key cx (waiting_for_ack a t) e es pib q same now =
      elim (Bool-cases (expired t)) [
        | inr early ↦ simp early (
            wait-Answers expired cx pib q q e es e.retries_left same
              (rw now (inl (early, refl, refl))) same refl)
        | inl late ↦ elim (Bool-cases e.request.indirect) [
          | inl indirect ↦
              simp (late, indirect)
                (wait-Answers expired cx pib q (record q { state = idle false }) e es e.retries_left
                  same (rw now (inr (late, refl, inl (indirect, refl)))) same refl)
          | inr direct ↦ elim (Bool-cases (ltb 0 e.retries_left)) [
            | inr spent ↦
                simp (late, direct, spent)
                  (
                    (inl (
                      e,
                      es,
                      same,
                      refl,
                      refl,
                      refl,
                      inr (a, t, now, late, direct, ground (arith, spent), refl),
                    )),
                    refl,
                  )
            | inl more ↦
                simp (late, direct, more)
                  (wait-Answers expired cx pib q
                    (record q {
                      state = idle false;
                      entries = record e { retries_left = e.retries_left - 1 } ∷ es;
                    })
                    e es (e.retries_left - 1) same
                    (rw now (inr (late, refl, inr (direct, ground (arith, more))))) refl refl)
          ]
        ]
      ]

  poll_entries-Answers :
      (expired : Timer → Bool) (key cx : ℕ) (es : List (DeviceQueueEntry Timer)) (pib : Pib)
      (q : DeviceQueue Timer)
      → q.entries ≡ es
      → q.last_pending_reported ≡ some (front_indirect es)
      → Answers expired cx pib q (poll_entries expired key cx es pib q)
  unfolding poll_entries front_indirect
  poll_entries-Answers expired key cx [] pib q same last = (same, last, refl, refl)
  poll_entries-Answers expired key cx (e ∷ es) pib q same last =
      poll_front-Answers expired key cx q.state e es pib q same refl

  -- What each answer of a poll says. The queue is empty, and its pending bit was reported as off. The
  -- pending bit differs from the last report. A frame with the PIB's sequence number is sent for the
  -- idle request in front, which where it is indirect was asked for by a data request. The result of the
  -- request in front is the one that was kept, or `no_ack` after its acknowledgement's timer expired
  -- with no retry left; it leaves the queue, which is idle. A request expired: its timer is the first in
  -- the queue to have expired, and it alone leaves the queue, which is idle if it was in front. With
  -- `pending`, no timer of a request has expired, the task is registered, and the request in front is
  -- under way, waits for a data request or for an acknowledgement whose timer runs, or goes back to
  -- idle, as that timer expired, with one retry less where it is not indirect. Only a frame that is
  -- sent changes the PIB.
  pub poll_next_action-Answers :
      (expired : Timer → Bool) (key cx : ℕ) (pib : Pib) (q : DeviceQueue Timer)
      → Answers expired cx pib q (poll_next_action expired key cx pib q)
  unfolding poll_next_action
  poll_next_action-Answers expired key cx pib q =
      elim (Bool-cases (reported_as q.last_pending_reported (front_indirect q.entries))) [
        | inl same ↦ simp same (
            poll_entries-Answers expired key cx q.entries pib q refl
              (reported_as-true q.last_pending_reported (front_indirect q.entries) same))
        | inr changed ↦ simp changed (
          refl,
          reported_as-false q.last_pending_reported (front_indirect q.entries) changed,
          refl,
          refl,
        )
      ]
