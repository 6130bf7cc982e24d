-- ===== src/Mac/PendingTable/Sync.antt =====
-- The table against the radio's own table: the updates that the table hands out bring the radio's
-- slots in line with it, over any interleaving of calls and answers.
use zigbee_rust_playground.Common.{
  ℕ, zero, suc, ◌<◌, ◌≡◌, refl, sym, ap, ◌∙◌, arith, ◌==◌, if◌then◌else◌, Bool, true, false,
  Option-cases, inl, inr, ◌⊎◌, Option, none, some, List, [], ◌∷◌, length,
}
use zigbee_rust_playground.Common.Eq.{Eq}
use zigbee_rust_playground.Mac.Waker.{Poll, ready, pending, register, wake}
use zigbee_rust_playground.Mac.PendingTable.{
  Entry, PendingTable, Update, default_entry, value_at, dirty_at, set_dirty, first_dirty, promote,
  insert_value, remove_value, mark_used, assume_empty, start_update, poll_update, finish_update,
  report_update_result, new, replicate_default,
}
use zigbee_rust_playground.Mac.PendingTable.Touches.{
  Touches, insert_value-Touches, remove_value-Touches, promote-Touches,
}
use zigbee_rust_playground.Mac.PendingTable.View.{value_at-set_dirty}

-- Whether an update of the slot is under way.
abbrev pub in_flight : Option (ℕ × ℕ) → ℕ → Bool
in_flight none j = false
in_flight (some (key, i)) j = i == j

-- The table with the radio's slots, and the value that the update under way carries.
pub record System (T : Type 0) : Type 0 where
  pub table : PendingTable T
  pub device : ℕ → Option T
  pub sent : Option T

module _ {T : Type 0} where
  abbrev pub put : (ℕ → Option T) → ℕ → Option T → ℕ → Option T
  put device i x j = if i == j then x else device j

  pub length-set_dirty :
      (d : Bool) (table : List (Entry T)) (i : ℕ) → length (set_dirty d table i) ≡ length table
  length-set_dirty d [] i = refl
  length-set_dirty d (y ∷ ys) zero = refl
  length-set_dirty d (y ∷ ys) (suc i) = ap suc (length-set_dirty d ys i)

  dirty_at-set_dirty :
      (d : Bool) (table : List (Entry T)) (i j : ℕ)
      → j < length table
      → dirty_at (set_dirty d table i) j ≡ (if i == j then d else dirty_at table j)
  dirty_at-set_dirty d [] i j h = elim h [ ]
  dirty_at-set_dirty d (y ∷ ys) zero zero h = refl
  dirty_at-set_dirty d (y ∷ ys) zero (suc j) h = ground arith
  dirty_at-set_dirty d (y ∷ ys) (suc i) zero h = ground arith
  dirty_at-set_dirty d (y ∷ ys) (suc i) (suc j) h =
      dirty_at-set_dirty d ys i j (omega arith) ∙ ground arith

  -- A slot that is not dirty agrees with the radio, or with the update under way to it.
  abbrev pub IsSynced : System T → Type 0
  IsSynced s =
      (j : ℕ)
      → j < length s.table.table
      → dirty_at s.table.table j ≡ false
      → value_at s.table.table j ≡ (if in_flight s.table.updating j then s.sent else s.device j)

  Touches-IsSynced :
      (s : System T) (u : PendingTable T)
      → Touches s.table u
      → IsSynced s
      → IsSynced (record s { table = u })
  Touches-IsSynced s u t synced j h clean =
      t.same_value j clean
      ∙ synced j (omega (arith, t.same_size)) (t.was_clean j clean)
      ∙ rw t.same_update

replicate_default-dirty :
    (T : Type 0) (n j : ℕ)
    → j < length {A = Entry T} (replicate_default n)
    → dirty_at {T = T} (replicate_default n) j ≡ true
unfolding replicate_default default_entry
replicate_default-dirty T zero j h = elim h [ ]
replicate_default-dirty T (suc n) zero h = refl
replicate_default-dirty T (suc n) (suc j) h = replicate_default-dirty T n j (omega (arith, h))

module _ {T : Type 0} ⦃e : Eq T⦄ where
  -- What happens to them: the calls of the program, a poll that hands out an update, and the radio's
  -- answer to the update under way. Where it reports a failure, the slot may hold anything.
  pub data Step (s : System T) : System T → Type 0 where
    inserted :
        (v : T) (b : Bool) (u : PendingTable T)
        → insert_value v s.table ≡ some (u, b)
        → Step s (record s { table = u })
    removed : (v : T) → Step s (record s { table = (remove_value v s.table).0 })
    promoted :
        (v : T) (b : Bool) (u : PendingTable T)
        → promote v s.table ≡ some (u, b)
        → Step s (record s { table = u })
    polled :
        (key cx : ℕ) (up : Update T) (u : PendingTable T)
        → poll_update key cx s.table ≡ (ready up, u)
        → Step s (record s { table = u; sent = up.value })
    idle :
        (key cx : ℕ) (u : PendingTable T)
        → poll_update key cx s.table ≡ (pending, u)
        → Step s (record s { table = u })
    carried_out :
        (key i : ℕ)
        → s.table.updating ≡ some (key, i)
        → Step s (record s {
          table = report_update_result key true s.table;
          device = put s.device i s.sent;
        })
    refused :
        (key i : ℕ) (x : Option T)
        → s.table.updating ≡ some (key, i)
        → Step s
            (record s { table = report_update_result key false s.table; device = put s.device i x })
    cleared :
        s.table.updating ≡ none
        → Step s (record s { table = assume_empty s.table; device = λ _. none })

  pub data Reach (s : System T) : System T → Type 0 where
    here : Reach s s
    next : {t u : System T} → Reach s t → Step t u → Reach s u

  mark_used-clean :
      (table : List (Entry T)) (j : ℕ)
      → dirty_at (mark_used table) j ≡ false
      → value_at (mark_used table) j ≡ none
  unfolding mark_used
  mark_used-clean [] j h = refl
  mark_used-clean (y ∷ ys) zero h = elim (Option-cases y.value) [
    | inl empty ↦ empty
    | inr (v, at) ↦ absurd (ground (arith, at))
  ]
  mark_used-clean (y ∷ ys) (suc j) h = mark_used-clean ys j h

  -- What a poll does, by whether an update is under way.
  pub poll_update-cases :
      (key cx : ℕ) (t u : PendingTable T) (p : Poll (Update T))
      → poll_update key cx t ≡ (p, u)
      → ((p ≡ pending) × (u ≡ record t { waker = register t.waker cx }))
        ⊎ ((i : ℕ) × (first_dirty t.table 0 ≡ some i)
            × (t.updating ≡ none)
            × (p ≡ ready (record { key = key; index = i; value = value_at t.table i }))
            × (u ≡ record t { table = set_dirty false t.table i; updating = some (key, i) }))
  unfolding poll_update start_update
  poll_update-cases key cx t u p e = elim (Option-cases t.updating) [
    | inr (busy, at) ↦ inl (ground (arith, at, e), ground (arith, at, e))
    | inl free ↦ elim (Option-cases (first_dirty t.table 0)) [
      | inl clean ↦ inl (ground (arith, free, clean, e), ground (arith, free, clean, e))
      | inr (i, found) ↦
          inr (i, found, free, ground (arith, free, found, e), ground (arith, free, found, e))
    ]
  ]

  report_update_result-ok :
      (key i : ℕ) (t : PendingTable T)
      → t.updating ≡ some (key, i)
      → report_update_result key true t ≡ record t { updating = none; waker = wake t.waker }
  unfolding report_update_result finish_update
  report_update_result-ok key i t e = rw (e, finish_update) ground arith

  report_update_result-failed :
      (key i : ℕ) (t : PendingTable T)
      → t.updating ≡ some (key, i)
      → report_update_result key false t
        ≡ record t { updating = none; table = set_dirty true t.table i; waker = wake t.waker }
  unfolding report_update_result finish_update
  report_update_result-failed key i t e = rw (e, finish_update) ground arith

  -- A step keeps every slot that is not dirty in line with the radio.
  Step-IsSynced : {s s' : System T} → Step s s' → IsSynced s → IsSynced s'
  Step-IsSynced {s} (inserted v b u e) h =
      Touches-IsSynced s u (insert_value-Touches v s.table u b e) h
  Step-IsSynced {s} (removed v) h = Touches-IsSynced s _ (remove_value-Touches v s.table) h
  Step-IsSynced {s} (promoted v b u e) h = Touches-IsSynced s u (promote-Touches v s.table u b e) h
  Step-IsSynced {s} (polled key cx up u e) h =
      elim (poll_update-cases key cx s.table u (ready up) e) [
        | inl (p, q) ↦ absurd (ground (arith, p))
        | inr (i, found, free, p, q) ↦ rw q (λ j bound clean.
            let inside : j < length s.table.table =
              omega (arith, bound, length-set_dirty false s.table.table i) in
            ground (
              arith,
              p,
              free,
              clean,
              inside,
              h j inside,
              dirty_at-set_dirty false s.table.table i j inside,
              value_at-set_dirty false s.table.table i j,
            ))
      ]
  Step-IsSynced {s} (idle key cx u e) h = elim (poll_update-cases key cx s.table u pending e) [
    | inl (p, q) ↦ rw q h
    | inr (i, found, free, p, q) ↦ absurd (ground (arith, p))
  ]
  Step-IsSynced {s} (carried_out key i e) h =
      rw (report_update_result-ok key i s.table e) (λ j bound clean. h j bound clean ∙ rw e refl)
  Step-IsSynced {s} (refused key i x e) h =
      rw (report_update_result-failed key i s.table e) (λ j bound clean.
        let inside : j < length s.table.table =
          omega (arith, bound, length-set_dirty true s.table.table i) in
        ground (
          arith,
          e,
          clean,
          inside,
          h j inside,
          dirty_at-set_dirty true s.table.table i j inside,
          value_at-set_dirty true s.table.table i j,
        ))
  Step-IsSynced {s} (cleared e) h =
      unfold assume_empty in
      λ j bound clean. ground (arith, e, clean, mark_used-clean s.table.table j)

  -- No slot is dirty where there is none to send.
  first_dirty-none :
      (table : List (Entry T)) (from j : ℕ)
      → first_dirty table from ≡ none
      → dirty_at table j ≡ false
  unfolding first_dirty
  first_dirty-none [] from j h = refl
  first_dirty-none (y ∷ ys) from zero h = ground arith
  first_dirty-none (y ∷ ys) from (suc j) h = first_dirty-none ys (suc from) j (ground arith)

  pub Reach-IsSynced : {s s' : System T} → Reach s s' → IsSynced s → IsSynced s'
  Reach-IsSynced here h = h
  Reach-IsSynced (next r step) h = Step-IsSynced step (Reach-IsSynced r h)

  settled :
      {s s' : System T} (key cx : ℕ) (u : PendingTable T)
      → IsSynced s
      → Reach s s'
      → s'.table.updating ≡ none
      → poll_update key cx s'.table ≡ (pending, u)
      → (j : ℕ) → j < length s'.table.table
      → s'.device j ≡ value_at s'.table.table j
  unfolding poll_update start_update
  settled {s' = s'} key cx u h r free nothing j bound =
      elim (Option-cases (first_dirty s'.table.table 0)) [
        | inr (i, found) ↦ absurd (ground (arith, found, free, nothing))
        | inl clean ↦
            sym (Reach-IsSynced r h j bound (first_dirty-none s'.table.table 0 j clean) ∙ rw free)
      ]

  abbrev pub start : ℕ → (ℕ → Option T) → System T
  start size device = record { table = new size; device = device; sent = none }

  start-IsSynced : (size : ℕ) (device : ℕ → Option T) → IsSynced (start size device)
  unfolding new
  start-IsSynced size device i inside clean =
      absurd (ground (arith, clean, replicate_default-dirty T size i inside))

  -- From a new table and a radio whose slots hold anything, after any sequence of calls, of polls and
  -- of answers to the update under way: where no update is under way and a poll finds nothing to
  -- send, every slot of the radio holds the value of the table's slot.
  pub poll_update-settled :
      {s : System T} (size : ℕ) (device : ℕ → Option T) (key cx : ℕ) (u : PendingTable T)
      → Reach (start size device) s
      → s.table.updating ≡ none
      → poll_update key cx s.table ≡ (pending, u)
      → (j : ℕ) → j < length s.table.table
      → s.device j ≡ value_at s.table.table j
  poll_update-settled size device key cx u r free nothing j bound =
      settled key cx u (start-IsSynced size device) r free nothing j bound
