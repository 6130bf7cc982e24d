-- ===== src/Mac/DataService/Drained.antt =====
-- A destination whose queue answers that it is empty: `poll_action` drops it, and drops no request.
use zigbee_rust_playground.Common.{
  ℕ, ◌≡◌, refl, ap, ◌∙◌, inl, inr, arith, Bool, false, Bool-cases, Option, none, some, [], ◌∷◌,
}
use mathlib.Core.Path.{subst}
use zigbee_rust_playground.Common.Eq.{option_eq, option_beq, option_beq_law}
use zigbee_rust_playground.Common.Assoc.{lookup}
use zigbee_rust_playground.Frame.Types.{FullAddress, full_address_eq}
use zigbee_rust_playground.Frame.Keys.{full_address_key}
use zigbee_rust_playground.Pib.{Pib}
use zigbee_rust_playground.Mac.Waker.{ready, Poll-cases}
use zigbee_rust_playground.Mac.DeviceQueue.{DeviceQueue, empty, poll_next_action, contains}
use zigbee_rust_playground.Mac.DeviceQueue.Keys.{AreKeyed, poll_next_action-keys}
use zigbee_rust_playground.Mac.DeviceQueue.Actions.{poll_next_action-Answers}
use zigbee_rust_playground.Mac.DataService.{Queues, poll_queues}
use zigbee_rust_playground.Mac.DataService.Total.{
  poll_queues-pending, poll_queues-ready, poll_queues-lookup,
}
use zigbee_rust_playground.Mac.DataService.Held.{AreQueues}
use zigbee_rust_playground.Mac.DataService.Passes.{lookup-poll_queues_none}

module _ {Timer : Type 0} where
  -- A queue that answers `empty` holds nothing afterwards.
  poll_next_action-drained :
      (expired : Timer → Bool) (key cx : ℕ) (pib : Pib) (q : DeviceQueue Timer)
      → AreKeyed q.entries
      → (poll_next_action expired key cx pib q).0 ≡ ready empty
      → (j : ℕ) → contains j (poll_next_action expired key cx pib q).2.entries ≡ false
  poll_next_action-drained expired key cx pib q k answer j =
      let (k', c', r') = poll_next_action-keys expired key cx pib q k in
      let (none_left, off, state, kept) =
        rw answer at (poll_next_action-Answers expired key cx pib q) in
      let nothing : contains j q.entries ≡ false = rw none_left (unfold contains in refl) in
      ground (arith, c' j, nothing)

  pub poll_queues-drained :
      (expired : Timer → Bool) (key cx : ℕ) (pib : Pib) (d : Option FullAddress) (ps : Queues Timer)
      → AreQueues ps
      → (poll_queues expired key cx pib ps).0 ≡ some (d, empty)
      → (j : ℕ) (q : DeviceQueue Timer) → lookup d (poll_queues expired key cx pib ps).2 ≡ some q
      → contains j q.entries ≡ false
  unfolding lookup
  poll_queues-drained expired key cx pib d [] a h j q at =
      absurd (unfold poll_queues in ground (arith, h))
  poll_queues-drained expired key cx pib d ((d', q') ∷ ps) (a1, a2, a3) h j q at =
      let pib' = (poll_next_action expired key cx pib q').1 in
      elim (Poll-cases (poll_next_action expired key cx pib q').0) [
        | inr (action, answer) ↦
            let step = poll_queues-ready expired key cx pib d' q' ps action answer in
            let mine = rw step at h in
            let same : d' ≡ d = ground (arith, mine) in
            let is_empty : action ≡ empty = ground (arith, mine) in
            let there = rw step at at in
            let hit = (option_beq_law d' d).1 same in
            subst (λ x. contains j x.entries ≡ false)
              {x = (poll_next_action expired key cx pib q').2} {y = q} (ground (arith, there, hit))
              (poll_next_action-drained expired key cx pib q' a2 (answer ∙ ap ready is_empty) j)
        | inl waits ↦
            let step = poll_queues-pending expired key cx pib d' q' ps waits in
            let later = rw step at h in
            let there = rw step at at in
            elim (Bool-cases (option_beq full_address_eq d' d)) [
              | inl same ↦ absurd (
                  let gone : lookup d ps ≡ none =
                    subst (λ k. lookup k ps ≡ none) ((option_beq_law d' d).0 same) a1 in
                  ground (
                    arith,
                    lookup-poll_queues_none expired key cx pib' d ps gone,
                    poll_queues-lookup expired key cx pib' ps d empty later,
                  ))
              | inr other ↦
                  poll_queues-drained expired key cx pib' d ps a3 later j q
                    (ground (arith, there, other))
            ]
      ]
