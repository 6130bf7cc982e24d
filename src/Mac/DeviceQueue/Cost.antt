-- ===== src/Mac/DeviceQueue/Cost.antt =====
-- A bound on the answers that a queue gives before it waits: each report and each change of the
-- pending bit lowers it.
use zigbee_rust_playground.Common.{
  ℕ, suc, ◌+◌, ◌*◌, ◌-◌, ◌≤◌, ◌≡◌, refl, ap, arith, ltb, bit_of, Bool, true, false, not, ◌||◌,
  Bool-cases, Option-cases, inl, inr, List, [], ◌∷◌, length, Option, some,
}
use zigbee_rust_playground.Pib.{Pib}
use zigbee_rust_playground.Mac.Waker.{Poll, ready, pending}
use zigbee_rust_playground.Mac.DeviceQueue.{
  DeviceQueue, DeviceQueueEntry, DeviceQueueState, idle, sending, waiting_for_ack, have_result,
  DeviceQueueAction, empty, set_pending, send_frame, report_result, take_expired, poll_timeouts,
  wait, poll_front, poll_entries, poll_next_action, create_frame, front_indirect, reported_as,
}
use zigbee_rust_playground.Mac.DeviceQueue.Attempts.{take_expired-cases}

-- The answers after which `poll_action` of the data service may go round again.
abbrev pub progress : Poll DeviceQueueAction → Bool
progress (ready (set_pending b)) = true
progress (ready (report_result key r)) = true
progress (ready empty) = false
progress (ready (send_frame key frame)) = false
progress pending = false

bit_of-le : (b : Bool) → bit_of b ≤ 1
bit_of-le true = omega arith
bit_of-le false = omega arith

reported_as_refl : (b : Bool) → reported_as (some b) b ≡ true
reported_as_refl true = refl
reported_as_refl false = refl

module _ {Timer : Type 0} where
  abbrev cost_of : Option Bool → List (DeviceQueueEntry Timer) → ℕ
  cost_of last entries =
      2 * length entries + 1 + bit_of (not (reported_as last (front_indirect entries)))

  abbrev pub cost : DeviceQueue Timer → ℕ
  cost q = cost_of q.last_pending_reported q.entries

  abbrev IsCheaper : DeviceQueue Timer → Poll DeviceQueueAction × Pib × DeviceQueue Timer → Type 0
  IsCheaper q (action, pib, q') = cost q' + bit_of (progress action) ≤ cost q

  length-take_expired :
      (expired : Timer → Bool) (i key : ℕ) (es others : List (DeviceQueueEntry Timer))
      → take_expired expired es ≡ some (i, key, others)
      → length es ≡ suc (length others)
  length-take_expired expired i key [] others h = absurd (unfold take_expired in ground (arith, h))
  length-take_expired expired i key (e ∷ es) others h =
      elim (take_expired-cases expired i key e es others h) [
        | inl (e1, e2, e3) ↦ rw e3
        | inr (i', others', later, e1, e2) ↦
            rw e2 (ap suc (length-take_expired expired i' key es others' later))
      ]

  wait-IsCheaper :
      (expired : Timer → Bool) (cx : ℕ) (pib : Pib) (q : DeviceQueue Timer)
      → reported_as q.last_pending_reported (front_indirect q.entries) ≡ true
      → IsCheaper q (wait expired cx pib q)
  unfolding wait poll_timeouts
  wait-IsCheaper expired cx pib q reported = elim (Option-cases (take_expired expired q.entries)) [
    | inl never ↦ rw never (omega arith)
    | inr ((i, key, others), found) ↦ rw found (
        omega (
          arith,
          length-take_expired expired i key q.entries others found,
          bit_of-le (not (reported_as q.last_pending_reported (front_indirect others))),
        ))
  ]

  popped-IsCheaper :
      (last : Option Bool) (e : DeviceQueueEntry Timer) (es : List (DeviceQueueEntry Timer))
      → cost_of last es + 1 ≤ cost_of last (e ∷ es)
  popped-IsCheaper last e es = omega (arith, bit_of-le (not (reported_as last (front_indirect es))))

  poll_front-IsCheaper :
      (expired : Timer → Bool) (key cx : ℕ) (state : DeviceQueueState Timer)
      (e : DeviceQueueEntry Timer) (es : List (DeviceQueueEntry Timer)) (pib : Pib)
      (q : DeviceQueue Timer)
      → q.entries ≡ e ∷ es
      → reported_as q.last_pending_reported (front_indirect q.entries) ≡ true
      → IsCheaper q (poll_front expired key cx state e es pib q)
  unfolding poll_front create_frame front_indirect
  poll_front-IsCheaper expired key cx (idle d) e es pib q same reported =
      elim (Bool-cases (not e.request.indirect || d)) [
        | inl go ↦ simp go (omega arith)
        | inr stay ↦
            simp stay (wait-IsCheaper expired cx pib (record q { state = idle false }) reported)
      ]
  poll_front-IsCheaper expired key cx (sending s a p) e es pib q same reported =
      wait-IsCheaper expired cx pib q reported
  poll_front-IsCheaper expired key cx (have_result r) e es pib q same reported =
      rw same (popped-IsCheaper q.last_pending_reported e es)
  poll_front-IsCheaper expired key cx (waiting_for_ack a t) e es pib q same reported =
      elim (Bool-cases (expired t)) [
        | inr early ↦ simp early (wait-IsCheaper expired cx pib q reported)
        | inl late ↦ elim (Bool-cases e.request.indirect) [
          | inl indirect ↦
              simp (late, indirect)
                (wait-IsCheaper expired cx pib (record q { state = idle false }) reported)
          | inr direct ↦ elim (Bool-cases (ltb 0 e.retries_left)) [
            | inr spent ↦
                simp (late, direct, spent) (rw same (popped-IsCheaper q.last_pending_reported e es))
            | inl left ↦
                let q' : DeviceQueue Timer = record q {
                  state = idle false;
                  entries = record e { retries_left = e.retries_left - 1 } ∷ es;
                } in
                let same_cost : cost q' ≡ cost q = rw same refl in
                let reported' : reported_as q.last_pending_reported e.request.indirect ≡ true =
                  rw same at reported in
                simp (late, direct, left)
                  (omega (arith, wait-IsCheaper expired cx pib q' reported', same_cost))
          ]
        ]
      ]

  poll_entries-IsCheaper :
      (expired : Timer → Bool) (key cx : ℕ) (es : List (DeviceQueueEntry Timer)) (pib : Pib)
      (q : DeviceQueue Timer)
      → q.entries ≡ es
      → reported_as q.last_pending_reported (front_indirect q.entries) ≡ true
      → IsCheaper q (poll_entries expired key cx es pib q)
  unfolding poll_entries
  poll_entries-IsCheaper expired key cx [] pib q same reported = omega arith
  poll_entries-IsCheaper expired key cx (e ∷ es) pib q same reported =
      poll_front-IsCheaper expired key cx q.state e es pib q same reported

  pub poll_next_action-IsCheaper :
      (expired : Timer → Bool) (key cx : ℕ) (pib : Pib) (q : DeviceQueue Timer)
      → IsCheaper q (poll_next_action expired key cx pib q)
  unfolding poll_next_action
  poll_next_action-IsCheaper expired key cx pib q =
      elim (Bool-cases (reported_as q.last_pending_reported (front_indirect q.entries))) [
        | inl reported ↦
            let free : bit_of (not (reported_as q.last_pending_reported (front_indirect q.entries)))
                ≡ 0 =
              ground (arith, reported) in
            simp reported (
              omega
                (arith, poll_entries-IsCheaper expired key cx q.entries pib q refl reported, free))
        | inr changed ↦ simp (changed, reported_as_refl (front_indirect q.entries)) (omega arith)
      ]
