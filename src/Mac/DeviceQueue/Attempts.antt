-- ===== src/Mac/DeviceQueue/Attempts.antt =====
-- A request that is sent at once is handed out at most once more than the PIB allows retries.
use zigbee_rust_playground.Common.{
  ℕ, ◌+◌, ◌≤◌, ◌≡◌, refl, arith, ◌==◌, bit_of, Bool, true, false, Bool-cases, Option-cases, inl,
  inr, ◌⊎◌, ◌∙◌, List, [], ◌∷◌, ◌++◌, some,
}
use zigbee_rust_playground.Mac.DeviceQueue.{
  DeviceQueueEntry, DeviceQueueState, idle, sending, waiting_for_ack, have_result, contains, retain,
  take_expired,
}
use zigbee_rust_playground.Mac.DeviceQueue.Runs.{bump}

module _ {Timer : Type 0} where
  abbrev pub is_busy : DeviceQueueState Timer → Bool
  is_busy (idle d) = false
  is_busy (sending k a p) = true
  is_busy (waiting_for_ack a t) = true
  is_busy (have_result r) = true

  pub take_expired-cases :
      (expired : Timer → Bool) (i key : ℕ) (e : DeviceQueueEntry Timer)
      (es others : List (DeviceQueueEntry Timer))
      → take_expired expired (e ∷ es) ≡ some (i, key, others)
      → ((i ≡ 0) × (key ≡ e.request.key) × (others ≡ es))
        ⊎ ((i' : ℕ) × (others' : List (DeviceQueueEntry Timer)) × (take_expired expired es
              ≡ some (i', key, others'))
            × (i ≡ 1 + i')
            × (others ≡ e ∷ others'))
  unfolding take_expired
  take_expired-cases expired i key e es others h = elim (Bool-cases (expired e.timeout)) [
    | inl now ↦ inl (ground (arith, h, now), ground (arith, h, now), ground (arith, h, now))
    | inr later ↦ elim (Option-cases (take_expired expired es)) [
      | inl never ↦ absurd (ground (arith, h, later, never))
      | inr ((i', key', others'), found) ↦
          let same : key' ≡ key = ground (arith, h, later, found) in
          inr (
            i',
            others',
            found ∙ rw same,
            ground (arith, h, later, found),
            ground (arith, h, later, found),
          )
    ]
  ]

  module _ (n : ℕ) where
    -- The entries behind the one in front: nothing was handed out for them, and their keys differ.
    abbrev pub AreFresh : (ℕ → ℕ) → List (DeviceQueueEntry Timer) → Type 0
    AreFresh sent [] = Unit
    AreFresh sent (e ∷ es) =
        (sent e.request.key ≡ 0)
        × (e.retries_left ≤ n)
        × (contains e.request.key es ≡ false)
        × AreFresh sent es

    -- Each frame that was handed out for the entry in front, but for the one under way, took a retry.
    abbrev pub AreWithin : (ℕ → ℕ) → Bool → List (DeviceQueueEntry Timer) → Type 0
    AreWithin sent busy [] = busy ≡ false
    AreWithin sent busy (e ∷ es) =
        (e.request.indirect ≡ false → sent e.request.key + e.retries_left ≤ n + bit_of busy)
        × (contains e.request.key es ≡ false)
        × AreFresh sent es

    pub contains-retain :
        (j key : ℕ) (es : List (DeviceQueueEntry Timer))
        → contains j es ≡ false
        → contains j (retain key es) ≡ false
    unfolding contains retain
    contains-retain j key [] h = refl
    contains-retain j key (e ∷ es) h = ground (arith, contains-retain j key es)

    pub AreFresh-retain :
        (sent : ℕ → ℕ) (key : ℕ) (es : List (DeviceQueueEntry Timer))
        → AreFresh sent es
        → AreFresh sent (retain key es)
    unfolding retain
    AreFresh-retain sent key [] h = h
    AreFresh-retain sent key (e ∷ es) (h1, h2, h3, h4) = elim (Bool-cases (e.request.key == key)) [
      | inl gone ↦ rw gone (AreFresh-retain sent key es h4)
      | inr kept ↦
          rw kept (h1, h2, contains-retain e.request.key key es h3, AreFresh-retain sent key es h4)
    ]

    -- The entry in front left: the next one was never handed out.
    pub AreWithin-fresh :
        (sent : ℕ → ℕ) (es : List (DeviceQueueEntry Timer))
        → AreFresh sent es
        → AreWithin sent false es
    AreWithin-fresh sent [] h = refl
    AreWithin-fresh sent (e ∷ es) (h1, h2, h3, h4) = ((λ _. omega (arith, h1, h2)), h3, h4)

    pub AreFresh-bump :
        (sent : ℕ → ℕ) (key : ℕ) (es : List (DeviceQueueEntry Timer))
        → contains key es ≡ false
        → AreFresh sent es
        → AreFresh (bump key sent) es
    unfolding contains
    AreFresh-bump sent key [] h f = f
    AreFresh-bump sent key (e ∷ es) h (h1, h2, h3, h4) =
        (ground (arith, h, h1), h2, h3, AreFresh-bump sent key es (ground (arith, h)) h4)

    pub contains-expired :
        (expired : Timer → Bool) (j i key : ℕ) (es others : List (DeviceQueueEntry Timer))
        → take_expired expired es ≡ some (i, key, others)
        → contains j es ≡ false
        → contains j others ≡ false
    unfolding take_expired contains
    contains-expired expired j i key [] others h c = absurd (ground (arith, h))
    contains-expired expired j i key (e ∷ es) others h c =
        elim (take_expired-cases expired i key e es others h) [
          | inl (e1, e2, e3) ↦ rw e3 (ground (arith, c))
          | inr (i', others', found, e1, e2) ↦
              rw e2 (ground (arith, c, contains-expired expired j i' key es others' found))
        ]

    pub AreFresh-expired :
        (sent : ℕ → ℕ) (expired : Timer → Bool) (i key : ℕ)
        (es others : List (DeviceQueueEntry Timer))
        → take_expired expired es ≡ some (i, key, others)
        → AreFresh sent es
        → AreFresh sent others
    unfolding take_expired
    AreFresh-expired sent expired i key [] others h f = absurd (ground (arith, h))
    AreFresh-expired sent expired i key (e ∷ es) others h (h1, h2, h3, h4) =
        elim (take_expired-cases expired i key e es others h) [
          | inl (e1, e2, e3) ↦ rw e3 h4
          | inr (i', others', found, e1, e2) ↦ rw e2 (
            h1,
            h2,
            contains-expired expired e.request.key i' key es others' found h3,
            AreFresh-expired sent expired i' key es others' found h4,
          )
        ]

    pub contains-append :
        (j : ℕ) (es : List (DeviceQueueEntry Timer)) (x : DeviceQueueEntry Timer)
        → contains j es ≡ false
        → (x.request.key == j) ≡ false
        → contains j (es ++ (x ∷ [])) ≡ false
    unfolding contains
    contains-append j [] x h ne = ground (arith, ne)
    contains-append j (e ∷ es) x h ne = ground (arith, h, contains-append j es x)

    pub AreFresh-append :
        (sent : ℕ → ℕ) (es : List (DeviceQueueEntry Timer)) (x : DeviceQueueEntry Timer)
        → sent x.request.key ≡ 0
        → x.retries_left ≤ n
        → contains x.request.key es ≡ false
        → AreFresh sent es
        → AreFresh sent (es ++ (x ∷ []))
    unfolding contains
    AreFresh-append sent [] x z r h f = (z, r, refl, f)
    AreFresh-append sent (e ∷ es) x z r h (h1, h2, h3, h4) = (
      h1,
      h2,
      contains-append e.request.key es x h3 (ground (arith, h)),
      AreFresh-append sent es x z r (ground (arith, h)) h4,
    )
