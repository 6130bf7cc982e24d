-- ===== src/Mac/CombinedPendingTable/Calm.antt =====
-- The tables have no update under way before the radio's tables were cleared, nor while they are.
use zigbee_rust_playground.Common.{
  ℕ, ◌≡◌, refl, sym, ◌∙◌, arith, Bool, true, false, not, ◌||◌, if◌then◌else◌, is_some, opt_eq,
  Bool-cases, Option-cases, inl, inr, Option, none, some,
}
use mathlib.Core.Path.{subst}
use zigbee_rust_playground.Common.Eq.{Eq}
use zigbee_rust_playground.Frame.Types.{PanId, Address, FullAddress, ShortAddress, ExtendedAddress}
use zigbee_rust_playground.Mac.Waker.{Poll, ready, pending}
use zigbee_rust_playground.Mac.PendingTable.{
  PendingTable, Update, assume_empty, poll_update, set_pending, finish_update, insert_value,
  remove_value,
}
use zigbee_rust_playground.Mac.PendingTable
use zigbee_rust_playground.Mac.PendingTable.Touches.{insert_value-Touches, remove_value-Touches}
use zigbee_rust_playground.Mac.CombinedPendingTable.{
  CombinedPendingTable, new, report_init_result, set_full, set_address, poll_action, poll_short,
  poll_extended, report_update_result, extended_address_eq, pan_short_eq,
}

-- The calls of the data service, with any arguments.
pub data Step (t : CombinedPendingTable) : CombinedPendingTable → Type 0 where
  address_set :
      (address : Option FullAddress) (inserted : Bool) (u : CombinedPendingTable)
      → set_address address inserted t ≡ some u
      → Step t u
  polled : (key cx : ℕ) → Step t (poll_action key cx t).1
  init_reported : (key : ℕ) (result : Bool) → Step t (report_init_result key result t)
  update_reported : (key : ℕ) (success : Bool) → Step t (report_update_result key success t)

pub data Reach (t : CombinedPendingTable) : CombinedPendingTable → Type 0 where
  here : Reach t t
  next : {u v : CombinedPendingTable} → Reach t u → Step u v → Reach t v

pub record IsCalm (t : CombinedPendingTable) : Type 0 where
  pub uninitialized : is_some t.initializing ≡ true → t.is_initialized ≡ false
  pub short_idle : t.is_initialized ≡ false → t.short_table.updating ≡ none
  pub extended_idle : t.is_initialized ≡ false → t.extended_table.updating ≡ none

updating-set_pending :
    {T : Type 0} ⦃e : Eq T⦄ (v : T) (b : Bool) (t u : PendingTable T)
    → set_pending v b t ≡ some u
    → u.updating ≡ t.updating
unfolding set_pending
updating-set_pending v true t u h = elim (Option-cases (insert_value v t)) [
  | inl panic ↦ absurd (ground (arith, panic))
  | inr ((w, b), done) ↦
      let e : w ≡ u = ground (arith, done) in
      rw (sym e) (insert_value-Touches v t w b done).same_update
]
updating-set_pending v false t u h =
    let e : (remove_value v t).0 ≡ u = ground (arith, h) in
    rw (sym e) (remove_value-Touches v t).same_update

updating-report :
    {T : Type 0} (key : ℕ) (b : Bool) (t : PendingTable T)
    → t.updating ≡ none
    → (PendingTable.report_update_result key b t).updating ≡ none
unfolding PendingTable.report_update_result
updating-report key b t h = rw (h, PendingTable.report_update_result) h

set_full-IsCalm :
    (pan : PanId) (address : Address) (inserted : Bool) (t u : CombinedPendingTable)
    → set_full pan address inserted t ≡ some u
    → IsCalm t
    → IsCalm u
unfolding set_full
set_full-IsCalm pan (Address.short a) inserted t u h calm =
    elim (Option-cases (set_pending (pan, a) inserted t.short_table)) [
      | inl panic ↦ absurd (ground (arith, panic))
      | inr (w, done) ↦
          let same : w.updating ≡ t.short_table.updating =
            updating-set_pending (pan, a) inserted t.short_table w done in
          subst IsCalm {x = record t { short_table = w }} {y = u} (ground (arith, h, done))
            (record {
              uninitialized = calm.uninitialized;
              short_idle = λ q. same ∙ calm.short_idle q;
              extended_idle = calm.extended_idle;
            })
    ]
set_full-IsCalm pan (Address.extended a) inserted t u h calm =
    elim (Option-cases (set_pending a inserted t.extended_table)) [
      | inl panic ↦ absurd (ground (arith, panic))
      | inr (w, done) ↦
          let same : w.updating ≡ t.extended_table.updating =
            updating-set_pending a inserted t.extended_table w done in
          subst IsCalm {x = record t { extended_table = w }} {y = u} (ground (arith, h, done))
            (record {
              uninitialized = calm.uninitialized;
              short_idle = calm.short_idle;
              extended_idle = λ q. same ∙ calm.extended_idle q;
            })
    ]

set_address-IsCalm :
    (address : Option FullAddress) (inserted : Bool) (t u : CombinedPendingTable)
    → set_address address inserted t ≡ some u
    → IsCalm t
    → IsCalm u
unfolding set_address
set_address-IsCalm none inserted t u h calm =
    subst IsCalm {x = record t { without_address = inserted }} {y = u} (ground (arith, h)) (record {
      uninitialized = calm.uninitialized;
      short_idle = calm.short_idle;
      extended_idle = calm.extended_idle;
    })
set_address-IsCalm (some address) inserted t u h calm =
    set_full-IsCalm address.pan_id address.address inserted t u h calm

idle-if :
    {T : Type 0} (result : Bool) (t : PendingTable T)
    → t.updating ≡ none
    → result ≡ false
    → (if result then assume_empty t else t).updating ≡ none
idle-if result t idle failed = rw failed idle

report_init_result-IsCalm :
    (key : ℕ) (result : Bool) (t : CombinedPendingTable)
    → IsCalm t
    → IsCalm (report_init_result key result t)
unfolding report_init_result
report_init_result-IsCalm key result t calm = elim (Bool-cases (opt_eq t.initializing (some key))) [
  | inr other ↦ rw other calm
  | inl mine ↦
      let pending_init : is_some t.initializing ≡ true = ground (arith, mine) in
      rw mine (record {
        uninitialized = λ q. absurd (ground (arith, q));
        short_idle =
            λ q. idle-if result t.short_table (calm.short_idle (calm.uninitialized pending_init)) q;
        extended_idle = λ q.
            idle-if result t.extended_table (calm.extended_idle (calm.uninitialized pending_init))
              q;
      })
]

poll_extended-flags :
    (t : CombinedPendingTable) (p : Poll (Update ExtendedAddress) × PendingTable ExtendedAddress)
    → ((poll_extended p t).1.initializing ≡ t.initializing)
      × ((poll_extended p t).1.is_initialized ≡ t.is_initialized)
unfolding poll_extended
poll_extended-flags t (ready up, u) = (refl, refl)
poll_extended-flags t (pending, u) = (refl, refl)

poll_short-flags :
    (key cx : ℕ) (t : CombinedPendingTable)
    (p : Poll (Update (PanId × ShortAddress)) × PendingTable (PanId × ShortAddress))
    → ((poll_short p key cx t).1.initializing ≡ t.initializing)
      × ((poll_short p key cx t).1.is_initialized ≡ t.is_initialized)
unfolding poll_short
poll_short-flags key cx t (ready up, u) = (refl, refl)
poll_short-flags key cx t (pending, u) =
    poll_extended-flags (record t { short_table = u }) (poll_update key cx t.extended_table)

poll_short-IsCalm :
    (key cx : ℕ) (t : CombinedPendingTable)
    (p : Poll (Update (PanId × ShortAddress)) × PendingTable (PanId × ShortAddress))
    → is_some t.initializing ≡ false
    → t.is_initialized ≡ true
    → IsCalm (poll_short p key cx t).1
poll_short-IsCalm key cx t p idle running =
    let same : ((poll_short p key cx t).1.initializing ≡ t.initializing)
        × ((poll_short p key cx t).1.is_initialized ≡ t.is_initialized) =
      poll_short-flags key cx t p in
    record {
      uninitialized = λ q. absurd (ground (arith, q, idle, same.0));
      short_idle = λ q. absurd (ground (arith, q, running, same.1));
      extended_idle = λ q. absurd (ground (arith, q, running, same.1));
    }

poll_action-IsCalm :
    (key cx : ℕ) (t : CombinedPendingTable) → IsCalm t → IsCalm (poll_action key cx t).1
unfolding poll_action
poll_action-IsCalm key cx t calm = elim (Bool-cases (is_some t.initializing)) [
  | inl busy ↦ rw busy (record {
    uninitialized = calm.uninitialized;
    short_idle = calm.short_idle;
    extended_idle = calm.extended_idle;
  })
  | inr idle ↦ elim (Bool-cases t.is_initialized) [
    | inr fresh ↦
        subst IsCalm {x = record t { initializing = some key }} (ground (arith, idle, fresh))
          (record {
            uninitialized = λ _. fresh;
            short_idle = calm.short_idle;
            extended_idle = calm.extended_idle;
          })
    | inl running ↦ simp (idle, running) (poll_short-IsCalm key cx t _ idle running)
  ]
]

Step-IsCalm : {t u : CombinedPendingTable} → Step t u → IsCalm t → IsCalm u
Step-IsCalm {t} {u} (address_set address inserted u' h) calm =
    set_address-IsCalm address inserted t u h calm
Step-IsCalm {t} (polled key cx) calm = poll_action-IsCalm key cx t calm
Step-IsCalm {t} (init_reported key result) calm = report_init_result-IsCalm key result t calm
Step-IsCalm {t} (update_reported key success) calm =
    unfold report_update_result in
    record {
      uninitialized = calm.uninitialized;
      short_idle = λ q. updating-report key success t.short_table (calm.short_idle q);
      extended_idle = λ q. updating-report key success t.extended_table (calm.extended_idle q);
    }

Reach-IsCalm : {t : CombinedPendingTable} → Reach new t → IsCalm t
unfolding new PendingTable.new
Reach-IsCalm here = record {
  uninitialized = λ _. refl;
  short_idle = λ _. refl;
  extended_idle = λ _. refl;
}
Reach-IsCalm (next r step) = Step-IsCalm step (Reach-IsCalm r)

-- After any calls on a new table: while a clearing of the radio's tables is under way, and until one
-- has succeeded, neither table has an update under way.
pub updating-uninitialized :
    (t : CombinedPendingTable)
    → Reach new t
    → (is_some t.initializing || not t.is_initialized) ≡ true
    → (t.short_table.updating ≡ none) × (t.extended_table.updating ≡ none)
updating-uninitialized t r h =
    let calm = Reach-IsCalm r in
    let off : t.is_initialized ≡ false = elim (Bool-cases (is_some t.initializing)) [
      | inl busy ↦ calm.uninitialized busy
      | inr idle ↦ ground (arith, h, idle)
    ] in
    (calm.short_idle off, calm.extended_idle off)
