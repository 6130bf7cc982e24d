-- ===== src/Mac/DataService/Held.antt =====
-- The requests that the queues of the data service hold.
use zigbee_rust_playground.Common.{
  ℕ, ◌≡◌, refl, ◌∙◌, inl, inr, arith, Bool, true, false, ◌||◌, Bool-cases, Option, none, some, [],
  ◌∷◌,
}
use mathlib.Core.Path.{subst}
use zigbee_rust_playground.Common.Eq.{option_eq, option_beq, option_beq_law, beq_false-sym}
use zigbee_rust_playground.Common.Assoc.{lookup-store, lookup-erase, lookup, store, erase}
use zigbee_rust_playground.Frame.Types.{FullAddress, full_address_eq}
use zigbee_rust_playground.Frame.Keys.{full_address_key}
use zigbee_rust_playground.Mac.DeviceQueue.{DeviceQueue, contains}
use zigbee_rust_playground.Mac.DeviceQueue.Keys.{AreKeyed}
use zigbee_rust_playground.Mac.DataService.{Queues}

module _ {Timer : Type 0} where
  -- Whether a queue holds the request with this key.
  unfoldable pub holds : ℕ → Queues Timer → Bool
  holds j [] = false
  holds j ((d, q) ∷ ps) = contains j q.entries || holds j ps

  -- The map has one queue for each destination, and the keys in a queue differ.
  abbrev pub AreQueues : Queues Timer → Type 0
  AreQueues [] = Unit {0}
  AreQueues ((d, q) ∷ ps) = (lookup d ps ≡ none) × AreKeyed q.entries × AreQueues ps

  -- A queue that holds at least the requests of another.
  abbrev pub Covers : DeviceQueue Timer → DeviceQueue Timer → Type 0
  Covers q q' = (j : ℕ) → contains j q.entries ≡ true → contains j q'.entries ≡ true

  pub holds-store :
      (j : ℕ) (d : Option FullAddress) (q' : DeviceQueue Timer) (ps : Queues Timer)
      → ((q : DeviceQueue Timer)
          → lookup d ps ≡ some q
          → contains j q.entries ≡ true
          → contains j q'.entries ≡ true)
      → holds j ps ≡ true
      → holds j (store d q' ps) ≡ true
  unfolding holds store lookup
  holds-store j d q' [] covers h = absurd (ground (arith, h))
  holds-store j d q' ((d', q) ∷ ps) covers h = elim (Bool-cases (option_beq full_address_eq d' d)) [
    | inl same ↦ elim (Bool-cases (contains j q.entries)) [
      | inl had ↦ rw same (ground (arith, covers q (ground (arith, same)) had))
      | inr had_not ↦ rw same (ground (arith, h, had_not))
    ]
    | inr other ↦ elim (Bool-cases (contains j q.entries)) [
      | inl had ↦ rw other (ground (arith, had))
      | inr had_not ↦ rw other (
          ground (
            arith,
            had_not,
            holds-store j d q' ps (λ x at. covers x (ground (arith, other, at)))
                (ground (arith, h, had_not)),
          ))
    ]
  ]

  pub holds-stored :
      (j : ℕ) (d : Option FullAddress) (q' : DeviceQueue Timer) (ps : Queues Timer)
      → contains j q'.entries ≡ true
      → holds j (store d q' ps) ≡ true
  unfolding holds store
  holds-stored j d q' [] h = ground (arith, h)
  holds-stored j d q' ((d', q) ∷ ps) h = ground (arith, h, holds-stored j d q' ps h)

  pub lookup-stored_none :
      (d k : Option FullAddress) (q' : DeviceQueue Timer) (ps : Queues Timer)
      → option_beq full_address_eq k d ≡ false
      → lookup d ps ≡ none
      → lookup d (store k q' ps) ≡ none
  lookup-stored_none d k q' ps ne h = lookup-store d k q' ps ∙ simp ne h

  pub AreQueues-store :
      (d : Option FullAddress) (q' : DeviceQueue Timer) (ps : Queues Timer)
      → AreKeyed q'.entries
      → AreQueues ps
      → AreQueues (store d q' ps)
  unfolding store
  AreQueues-store d q' [] k a = (unfold lookup in refl, k, tt)
  AreQueues-store d q' ((d', q) ∷ ps) k (a1, a2, a3) =
      elim (Bool-cases (option_beq full_address_eq d' d)) [
        | inl same ↦ rw same (a1, k, a3)
        | inr other ↦ rw other (
          lookup-stored_none d' d q' ps (beq_false-sym d' d other) a1,
          a2,
          AreQueues-store d q' ps k a3,
        )
      ]

  pub AreQueues-lookup :
      (d : Option FullAddress) (q : DeviceQueue Timer) (ps : Queues Timer)
      → AreQueues ps
      → lookup d ps ≡ some q
      → AreKeyed q.entries
  unfolding lookup
  AreQueues-lookup d q [] a h = absurd (ground (arith, h))
  AreQueues-lookup d q ((d', q') ∷ ps) (a1, a2, a3) h =
      elim (Bool-cases (option_beq full_address_eq d' d)) [
        | inl same ↦ subst (λ x. AreKeyed x.entries) {x = q'} {y = q} (ground (arith, h, same)) a2
        | inr other ↦ AreQueues-lookup d q ps a3 (ground (arith, h, other))
      ]

  pub AreQueues-erase :
      (d : Option FullAddress) (ps : Queues Timer) → AreQueues ps → AreQueues (erase d ps)
  unfolding erase
  AreQueues-erase d [] a = a
  AreQueues-erase d ((d', q) ∷ ps) (a1, a2, a3) =
      elim (Bool-cases (option_beq full_address_eq d' d)) [
        | inl same ↦ rw same (AreQueues-erase d ps a3)
        | inr other ↦
            rw other (lookup-erase d' d ps ∙ ground (arith, a1), a2, AreQueues-erase d ps a3)
      ]

  erase-absent : (d : Option FullAddress) (ps : Queues Timer) → lookup d ps ≡ none → erase d ps ≡ ps
  unfolding erase lookup
  erase-absent d [] h = refl
  erase-absent d ((d', q) ∷ ps) h = elim (Bool-cases (option_beq full_address_eq d' d)) [
    | inl same ↦ absurd (ground (arith, h, same))
    | inr other ↦ rw (other, erase-absent d ps (ground (arith, h, other)))
  ]

  -- Dropping a queue that holds nothing.
  pub holds-erase :
      (j : ℕ) (d : Option FullAddress) (ps : Queues Timer)
      → AreQueues ps
      → ((q : DeviceQueue Timer) → lookup d ps ≡ some q → contains j q.entries ≡ false)
      → holds j ps ≡ true
      → holds j (erase d ps) ≡ true
  unfolding holds erase lookup
  holds-erase j d [] a vacant h = h
  holds-erase j d ((d', q) ∷ ps) (a1, a2, a3) vacant h =
      elim (Bool-cases (option_beq full_address_eq d' d)) [
        | inl same ↦
            let gone : lookup d ps ≡ none =
              subst (λ k. lookup k ps ≡ none) ((option_beq_law d' d).0 same) a1 in
            rw (same, erase-absent d ps gone) (ground (arith, h, vacant q (ground (arith, same))))
        | inr other ↦ elim (Bool-cases (contains j q.entries)) [
          | inl had ↦ rw other (ground (arith, had))
          | inr had_not ↦ rw other (
              ground (
                arith,
                had_not,
                holds-erase j d ps a3 (λ x at. vacant x (ground (arith, other, at)))
                    (ground (arith, h, had_not)),
              ))
        ]
      ]
