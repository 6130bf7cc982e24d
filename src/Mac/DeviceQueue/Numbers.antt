-- ===== src/Mac/DeviceQueue/Numbers.antt =====
-- A poll of a device queue changes the PIB in its data sequence number only.
use zigbee_rust_playground.Common.{
  ℕ, ◌≡◌, refl, inl, inr, Bool, not, ◌||◌, ltb, Bool-cases, List, [], ◌∷◌,
}
use zigbee_rust_playground.Pib.{Pib, next_data_sequence_nr}
use zigbee_rust_playground.Mac.DeviceQueue.{
  DeviceQueue, DeviceQueueEntry, DeviceQueueState, idle, sending, waiting_for_ack, have_result,
  poll_next_action, poll_entries, poll_front, wait, create_frame, front_indirect, reported_as,
}

abbrev pub IsCounted : Pib → Pib → Type 0
IsCounted pib pib' = (n : ℕ) × (pib' ≡ record pib { mac_dsn = n })

module _ {Timer : Type 0} where
  wait-IsCounted :
      (expired : Timer → Bool) (cx : ℕ) (pib : Pib) (q : DeviceQueue Timer)
      → IsCounted pib (wait expired cx pib q).1
  unfolding wait
  wait-IsCounted expired cx pib q = (pib.mac_dsn, refl)

  poll_front-IsCounted :
      (expired : Timer → Bool) (key cx : ℕ) (state : DeviceQueueState Timer)
      (e : DeviceQueueEntry Timer) (es : List (DeviceQueueEntry Timer)) (pib : Pib)
      (q : DeviceQueue Timer)
      → IsCounted pib (poll_front expired key cx state e es pib q).1
  unfolding poll_front create_frame next_data_sequence_nr
  poll_front-IsCounted expired key cx (idle d) e es pib q =
      elim (Bool-cases (not e.request.indirect || d)) [
        | inl go ↦ simp go (_, refl)
        | inr stay ↦ simp stay (wait-IsCounted expired cx pib _)
      ]
  poll_front-IsCounted expired key cx (waiting_for_ack a timeout) e es pib q =
      elim (Bool-cases (expired timeout)) [
        | inr early ↦ simp early (wait-IsCounted expired cx pib q)
        | inl late ↦ elim (Bool-cases e.request.indirect) [
          | inl indirect ↦ simp (late, indirect) (wait-IsCounted expired cx pib _)
          | inr direct ↦ elim (Bool-cases (ltb 0 e.retries_left)) [
            | inl left ↦ simp (late, direct, left) (wait-IsCounted expired cx pib _)
            | inr spent ↦ simp (late, direct, spent) (pib.mac_dsn, refl)
          ]
        ]
      ]
  poll_front-IsCounted expired key cx (have_result r) e es pib q = (pib.mac_dsn, refl)
  poll_front-IsCounted expired key cx (sending k a p) e es pib q = wait-IsCounted expired cx pib q

  poll_entries-IsCounted :
      (expired : Timer → Bool) (key cx : ℕ) (es : List (DeviceQueueEntry Timer)) (pib : Pib)
      (q : DeviceQueue Timer)
      → IsCounted pib (poll_entries expired key cx es pib q).1
  unfolding poll_entries
  poll_entries-IsCounted expired key cx [] pib q = (pib.mac_dsn, refl)
  poll_entries-IsCounted expired key cx (e ∷ es) pib q =
      poll_front-IsCounted expired key cx q.state e es pib q

  pub poll_next_action-IsCounted :
      (expired : Timer → Bool) (key cx : ℕ) (pib : Pib) (q : DeviceQueue Timer)
      → IsCounted pib (poll_next_action expired key cx pib q).1
  unfolding poll_next_action
  poll_next_action-IsCounted expired key cx pib q =
      elim (Bool-cases (reported_as q.last_pending_reported (front_indirect q.entries))) [
        | inl reported ↦ simp reported (poll_entries-IsCounted expired key cx q.entries pib q)
        | inr changed ↦ simp changed (pib.mac_dsn, refl)
      ]
