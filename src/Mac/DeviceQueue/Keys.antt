-- ===== src/Mac/DeviceQueue/Keys.antt =====
-- The keys of the requests in a queue: none is lost, and none is reported twice.
use zigbee_rust_playground.Common.{
  ℕ, ◌-◌, ◌≡◌, refl, arith, ◌==◌, ltb, Bool, true, false, not, ◌||◌, ◌&&◌, ==_iff, ◌≤◌, Bool-cases,
  Option-cases, inl, inr, List, [], ◌∷◌, ◌++◌, length, some,
}
use mathlib.Core.Path.{subst}
use zigbee_rust_playground.Pib.{Pib}
use zigbee_rust_playground.Mac.Waker.{Poll, ready, pending}
use zigbee_rust_playground.Mac.DeviceQueue.{
  DataRequest, DeviceQueue, DeviceQueueEntry, DeviceQueueState, idle, sending, waiting_for_ack,
  have_result, DeviceQueueAction, empty, set_pending, send_frame, report_result, contains, insert,
  retain, front_is, remove, take_expired, poll_timeouts, wait, poll_front, poll_entries,
  poll_next_action, create_frame, front_indirect, reported_as,
}
use zigbee_rust_playground.Mac.DeviceQueue.Attempts.{take_expired-cases}

-- Whether the answer of a poll reports the result of the request with this key.
abbrev pub reports : Poll DeviceQueueAction → ℕ → Bool
reports (ready (report_result key r)) j = key == j
reports (ready empty) j = false
reports (ready (set_pending b)) j = false
reports (ready (send_frame key frame)) j = false
reports pending j = false

module _ {Timer : Type 0} where
  -- No two requests have the same key.
  abbrev pub AreKeyed : List (DeviceQueueEntry Timer) → Type 0
  AreKeyed [] = Unit
  AreKeyed (e ∷ es) = (contains e.request.key es ≡ false) × AreKeyed es

  contains-append :
      (j : ℕ) (es : List (DeviceQueueEntry Timer)) (x : DeviceQueueEntry Timer)
      → contains j (es ++ (x ∷ [])) ≡ (contains j es || (x.request.key == j))
  unfolding contains
  contains-append j [] x = ground arith
  contains-append j (e ∷ es) x = ground (arith, contains-append j es x)

  AreKeyed-append :
      (es : List (DeviceQueueEntry Timer)) (x : DeviceQueueEntry Timer)
      → contains x.request.key es ≡ false
      → AreKeyed es
      → AreKeyed (es ++ (x ∷ []))
  unfolding contains
  AreKeyed-append [] x h k = (refl, tt)
  AreKeyed-append (e ∷ es) x h (k1, k2) = (
    ground (arith, h, k1, contains-append e.request.key es x),
    AreKeyed-append es x (ground (arith, h)) k2,
  )

  contains-retain :
      (j key : ℕ) (es : List (DeviceQueueEntry Timer))
      → contains j (retain key es) ≡ (contains j es && not (key == j))
  unfolding contains retain
  contains-retain j key [] = refl
  contains-retain j key (e ∷ es) = ground (arith, contains-retain j key es)

  AreKeyed-retain :
      (key : ℕ) (es : List (DeviceQueueEntry Timer)) → AreKeyed es → AreKeyed (retain key es)
  unfolding retain
  AreKeyed-retain key [] k = k
  AreKeyed-retain key (e ∷ es) (k1, k2) = elim (Bool-cases (e.request.key == key)) [
    | inl gone ↦ rw gone (AreKeyed-retain key es k2)
    | inr kept ↦
        rw kept
          (ground (arith, k1, contains-retain e.request.key key es), AreKeyed-retain key es k2)
  ]

  contains-same :
      (a b : ℕ) (es : List (DeviceQueueEntry Timer))
      → (a == b) ≡ true
      → contains a es ≡ true
      → contains b es ≡ true
  contains-same a b es same h = let e : a ≡ b = (==_iff a b).0 same in rw⁻¹ e h

  known_or :
      (a b : ℕ) (es : List (DeviceQueueEntry Timer))
      → contains a es ≡ true
      → ((a == b) || contains b es) ≡ contains b es
  known_or a b es h = elim (Bool-cases (a == b)) [
    | inr other ↦ simp other
    | inl same ↦ ground (arith, same, contains-same a b es same h)
  ]

  contains-known :
      (a b : ℕ) (es : List (DeviceQueueEntry Timer))
      → contains a es ≡ true
      → contains b es ≡ (contains b es || (a == b))
  contains-known a b es h = elim (Bool-cases (a == b)) [
    | inr other ↦ ground (arith, other)
    | inl same ↦
        let e : a ≡ b = (==_iff a b).0 same in
        let known : contains b es ≡ true = rw⁻¹ e h in ground (arith, known)
  ]

  -- A key that is there and one that is not are different.
  contains-apart :
      (a b : ℕ) (es : List (DeviceQueueEntry Timer))
      → contains a es ≡ false
      → contains b es ≡ true
      → (b == a) ≡ false
  contains-apart a b es h h' = elim (Bool-cases (b == a)) [
    | inr other ↦ other
    | inl same ↦
        let e : b ≡ a = (==_iff b a).0 same in
        let known : contains a es ≡ true = rw⁻¹ e h' in absurd (ground (arith, h, known))
  ]

  contains-popped :
      (j : ℕ) (e : DeviceQueueEntry Timer) (es : List (DeviceQueueEntry Timer))
      → contains e.request.key es ≡ false
      → contains j es ≡ (contains j (e ∷ es) && not (e.request.key == j))
  unfolding contains
  contains-popped j e es h = elim (Bool-cases (contains j es)) [
    | inl known ↦ ground (arith, known, contains-apart e.request.key j es h known)
    | inr unknown ↦ ground (arith, unknown)
  ]

  length-retain :
      (key : ℕ) (es : List (DeviceQueueEntry Timer))
      → (length (retain key es) ≤ length es)
        × (ltb (length (retain key es)) (length es) ≡ contains key es)
  unfolding contains retain
  length-retain key [] = (ground arith, refl)
  length-retain key (e ∷ es) =
      let (at_most, fewer) = length-retain key es in
      (ground (arith, at_most), ground (arith, at_most, fewer))

  removed-contains :
      (key : ℕ) (es : List (DeviceQueueEntry Timer))
      → (front_is key es || ltb (length (retain key es)) (length es)) ≡ contains key es
  unfolding front_is contains
  removed-contains key [] = (length-retain key []).1
  removed-contains key (e ∷ es) = ground (arith, (length-retain key (e ∷ es)).1)

  -- Where the keys of a queue are different, they stay so over `insert`. It answers whether the key of
  -- the request was missing, and adds that key and no other.
  pub insert-keys :
      (sleep : ℕ → Timer) (pib : Pib) (request : DataRequest) (q : DeviceQueue Timer)
      → AreKeyed q.entries
      → AreKeyed (insert sleep pib request q).1.entries
        × ((insert sleep pib request q).0 ≡ not (contains request.key q.entries))
        × ((j : ℕ)
            → contains j (insert sleep pib request q).1.entries
              ≡ (contains j q.entries || (request.key == j)))
  unfolding insert
  insert-keys sleep pib request q k = elim (Bool-cases (contains request.key q.entries)) [
    | inl known ↦ simp known (k, refl, λ j. contains-known request.key j q.entries known)
    | inr fresh ↦
        simp fresh (AreKeyed-append q.entries _ fresh k, refl, λ j. contains-append j q.entries _)
  ]

  -- Where the keys of a queue are different, they stay so over `remove`. It answers whether the key was
  -- there, and takes out that key and no other.
  pub remove-keys :
      (key : ℕ) (q : DeviceQueue Timer)
      → AreKeyed q.entries
      → AreKeyed (remove key q).1.entries
        × ((remove key q).0 ≡ contains key q.entries)
        × ((j : ℕ) → contains j (remove key q).1.entries ≡ (contains j q.entries && not (key == j)))
  unfolding remove
  remove-keys key q k =
      let same = removed-contains key q.entries in
      elim (Bool-cases
        (front_is key q.entries || ltb (length (retain key q.entries)) (length q.entries))) [
          | inl hit ↦ simp hit (
            AreKeyed-retain key q.entries k,
            ground (arith, hit, same),
            λ j. contains-retain j key q.entries,
          )
          | inr miss ↦ simp miss (
            AreKeyed-retain key q.entries k,
            ground (arith, miss, same),
            λ j. contains-retain j key q.entries,
          )
        ]

  -- What a poll leaves of the requests that were there before.
  abbrev pub Reports :
      List (DeviceQueueEntry Timer) → Poll DeviceQueueAction × Pib × DeviceQueue Timer → Type 0
  Reports before (action, pib, q) =
      AreKeyed q.entries
      × ((j : ℕ) → contains j q.entries ≡ (contains j before && not (reports action j)))
      × ((j : ℕ) → (reports action j || contains j before) ≡ contains j before)

  take_expired-keys :
      (expired : Timer → Bool) (i key : ℕ) (es others : List (DeviceQueueEntry Timer))
      → AreKeyed es
      → take_expired expired es ≡ some (i, key, others)
      → AreKeyed others
        × (contains key es ≡ true)
        × ((j : ℕ) → contains j others ≡ (contains j es && not (key == j)))
  unfolding contains
  take_expired-keys expired i key [] others k h = absurd (unfold take_expired in ground (arith, h))
  take_expired-keys expired i key (e ∷ es) others (k1, k2) h =
      elim (take_expired-cases expired i key e es others h) [
        | inl (e1, e2, e3) ↦ rw (e2, e3) (k2, ground arith, λ j. contains-popped j e es k1)
        | inr (i', others', later, e1, e2) ↦
            let (l1, l2, l3) = take_expired-keys expired i' key es others' k2 later in
            rw e2 (
              (ground (arith, k1, l3 e.request.key), l1),
              ground (arith, l2),
              λ j. ground (arith, l3 j, contains-apart e.request.key key es k1 l2),
            )
      ]

  wait-keys :
      (expired : Timer → Bool) (cx : ℕ) (pib : Pib) (q : DeviceQueue Timer)
      → AreKeyed q.entries
      → Reports q.entries (wait expired cx pib q)
  unfolding wait poll_timeouts
  wait-keys expired cx pib q k = elim (Option-cases (take_expired expired q.entries)) [
    | inl never ↦ rw never (k, (λ j. ground arith), (λ j. refl))
    | inr ((i, key, others), found) ↦
        let (l1, l2, l3) = take_expired-keys expired i key q.entries others k found in
        rw found (l1, (λ j. l3 j), (λ j. known_or key j q.entries l2))
  ]

  kept_wait-keys :
      (expired : Timer → Bool) (cx : ℕ) (pib : Pib) (es : List (DeviceQueueEntry Timer))
      (q : DeviceQueue Timer)
      → q.entries ≡ es
      → AreKeyed es
      → Reports es (wait expired cx pib q)
  kept_wait-keys expired cx pib es q same k =
      subst (λ l. Reports l (wait expired cx pib q)) same (wait-keys expired cx pib q (rw same k))

  poll_front-keys :
      (expired : Timer → Bool) (key cx : ℕ) (state : DeviceQueueState Timer)
      (e : DeviceQueueEntry Timer) (es : List (DeviceQueueEntry Timer)) (pib : Pib)
      (q : DeviceQueue Timer)
      → q.entries ≡ e ∷ es
      → AreKeyed (e ∷ es)
      → Reports (e ∷ es) (poll_front expired key cx state e es pib q)
  unfolding poll_front create_frame contains
  poll_front-keys expired key cx (idle d) e es pib q same k =
      elim (Bool-cases (not e.request.indirect || d)) [
        | inl go ↦ simp go (rw same (k, (λ j. ground arith), (λ j. refl)))
        | inr stay ↦
            simp stay
              (kept_wait-keys expired cx pib (e ∷ es) (record q { state = idle false }) same k)
      ]
  poll_front-keys expired key cx (sending s a p) e es pib q same k =
      kept_wait-keys expired cx pib (e ∷ es) q same k
  poll_front-keys expired key cx (have_result r) e es pib q same (k1, k2) =
      (k2, (λ j. contains-popped j e es k1), (λ j. ground arith))
  poll_front-keys expired key cx (waiting_for_ack a t) e es pib q same (k1, k2) =
      elim (Bool-cases (expired t)) [
        | inr early ↦ simp early (kept_wait-keys expired cx pib (e ∷ es) q same (k1, k2))
        | inl late ↦ elim (Bool-cases e.request.indirect) [
          | inl indirect ↦
              simp (late, indirect)
                (kept_wait-keys expired cx pib (e ∷ es) (record q { state = idle false }) same
                  (k1, k2))
          | inr direct ↦ elim (Bool-cases (ltb 0 e.retries_left)) [
            | inr spent ↦
                simp (late, direct, spent)
                  (k2, (λ j. contains-popped j e es k1), (λ j. ground arith))
            | inl left ↦
                simp (late, direct, left)
                  (wait-keys expired cx pib
                    (record q {
                      state = idle false;
                      entries = record e { retries_left = e.retries_left - 1 } ∷ es;
                    })
                    (k1, k2))
          ]
        ]
      ]

  poll_entries-keys :
      (expired : Timer → Bool) (key cx : ℕ) (es : List (DeviceQueueEntry Timer)) (pib : Pib)
      (q : DeviceQueue Timer)
      → q.entries ≡ es
      → AreKeyed es
      → Reports es (poll_entries expired key cx es pib q)
  unfolding poll_entries contains
  poll_entries-keys expired key cx [] pib q same k = rw same (k, (λ j. refl), (λ j. refl))
  poll_entries-keys expired key cx (e ∷ es) pib q same k =
      poll_front-keys expired key cx q.state e es pib q same k

  -- Where the keys of a queue are different, they stay so over a poll. It reports the result only of a
  -- request that was in the queue and takes it out; it takes out no other request and adds none.
  pub poll_next_action-keys :
      (expired : Timer → Bool) (key cx : ℕ) (pib : Pib) (q : DeviceQueue Timer)
      → AreKeyed q.entries
      → Reports q.entries (poll_next_action expired key cx pib q)
  unfolding poll_next_action
  poll_next_action-keys expired key cx pib q k =
      elim (Bool-cases (reported_as q.last_pending_reported (front_indirect q.entries))) [
        | inl reported ↦ simp reported (poll_entries-keys expired key cx q.entries pib q refl k)
        | inr changed ↦ simp changed (k, (λ j. ground arith), (λ j. refl))
      ]
