-- ===== src/Mac/CombinedPendingTable.antt =====
-- src/ieee802154/mac/combinedpendingtable.rs: the tables of short and of extended addresses, and the
-- clearing of the radio's tables that comes first. A new `UniqueKey` is an argument; the two keys of
-- `poll_action` are those of the tables' updates.
pub mod Calm
pub mod Slots
use zigbee_rust_playground.Common.{
  ℕ, Option, none, some, is_some, opt_eq, Bool, true, false, if◌then◌else◌, ◌==◌, ◌↔◌, arith, ◌≡◌,
  ◌&&◌, ap, ==_iff,
}
use zigbee_rust_playground.Common.Opt.{◌>>=◌}
use zigbee_rust_playground.Common.Eq.{Eq}
use zigbee_rust_playground.Frame.Types.{PanId, ShortAddress, ExtendedAddress, Address, FullAddress}
use zigbee_rust_playground.Mac.Waker.{WakerStore, Poll, ready, pending, wake, pend}
use zigbee_rust_playground.Mac.Waker
use zigbee_rust_playground.Mac.PendingTable.{
  PendingTable, Update, assume_empty, poll_update, set_pending,
}
use zigbee_rust_playground.Mac.PendingTable

instance pub extended_address_eq : Eq ExtendedAddress
extended_address_eq = record {
  beq = λ a b. a.value == b.value;
  beq_law = λ a b. (
    (λ h. ap (λ n. record { value = n }) ((==_iff a.value b.value).0 h)),
    (λ h. (==_iff a.value b.value).1 (ap (λ x. x.value) h)),
  );
}

pair_eq :
    {pan pan' : PanId} {a a' : ShortAddress}
    → pan.value ≡ pan'.value
    → a.value ≡ a'.value
    → ◌≡◌ {A = PanId × ShortAddress} (pan, a) (pan', a')
pair_eq e e' i = (record { value = e i }, record { value = e' i })

instance pub pan_short_eq : Eq (PanId × ShortAddress)
pan_short_eq = record {
  beq = λ a b. (a.0.value == b.0.value) && (a.1.value == b.1.value);
  beq_law = λ (pan, a) (pan', a'). (
    (λ h. pair_eq (ground (arith, h)) (ground (arith, h))),
    (λ h.
        let e1 : pan.value ≡ pan'.value = ap (λ x. x.0.value) h in
        let e2 : a.value ≡ a'.value = ap (λ x. x.1.value) h in ground (arith, e1, e2)),
  );
}

pub data CombinedPendingTableAction : Type 0 where
  init : ℕ → CombinedPendingTableAction
  update_short : ℕ → ℕ → Option (PanId × ShortAddress) → CombinedPendingTableAction
  update_extended : ℕ → ℕ → Option ExtendedAddress → CombinedPendingTableAction

pub record CombinedPendingTable : Type 0 where
  pub waker : WakerStore
  pub initializing : Option ℕ
  pub is_initialized : Bool
  pub without_address : Bool
  pub short_table : PendingTable (PanId × ShortAddress)
  pub extended_table : PendingTable ExtendedAddress

unfoldable pub new : CombinedPendingTable
new = record {
  waker = Waker.new;
  initializing = none;
  is_initialized = false;
  without_address = false;
  short_table = PendingTable.new 8;
  extended_table = PendingTable.new 8;
}

unfoldable pub report_init_result : ℕ → Bool → CombinedPendingTable → CombinedPendingTable
report_init_result key result t =
    if opt_eq t.initializing (some key)
    then record t {
      initializing = none;
      is_initialized = result;
      short_table = if result then assume_empty t.short_table else t.short_table;
      extended_table = if result then assume_empty t.extended_table else t.extended_table;
      waker = wake t.waker;
    }
    else t

unfoldable pub set_full :
    PanId → Address → Bool → CombinedPendingTable → Option CombinedPendingTable
set_full pan (Address.short a) inserted t = do
  u ← set_pending (pan, a) inserted t.short_table
  some (record t { short_table = u })
set_full pan (Address.extended a) inserted t = do
  u ← set_pending a inserted t.extended_table
  some (record t { extended_table = u })

-- `set`; `none` is a panic in one of the tables.
unfoldable pub set_address :
    Option FullAddress → Bool → CombinedPendingTable → Option CombinedPendingTable
unfolding set_full
set_address none inserted t = some (record t { without_address = inserted })
set_address (some address) inserted t = set_full address.pan_id address.address inserted t

-- The last branches of `poll_action`, by what the polls of the tables answer.
unfoldable pub poll_extended :
    Poll (Update ExtendedAddress) × PendingTable ExtendedAddress
    → CombinedPendingTable
    → Poll CombinedPendingTableAction × CombinedPendingTable
poll_extended (ready up, u) t =
    (ready (update_extended up.key up.index up.value), record t { extended_table = u })
poll_extended (pending, u) t = (pending, record t { extended_table = u })

unfoldable pub poll_short :
    Poll (Update (PanId × ShortAddress)) × PendingTable (PanId × ShortAddress)
    → ℕ
    → ℕ
    → CombinedPendingTable
    → Poll CombinedPendingTableAction × CombinedPendingTable
poll_short (ready up, u) key cx t =
    (ready (update_short up.key up.index up.value), record t { short_table = u })
poll_short (pending, u) key cx t =
    poll_extended (poll_update key cx t.extended_table) (record t { short_table = u })

unfoldable pub poll_action :
    ℕ → ℕ → CombinedPendingTable → Poll CombinedPendingTableAction × CombinedPendingTable
poll_action key cx t =
    if is_some t.initializing
    then (pending, record t { waker = pend t.waker cx })
    else if t.is_initialized
    then poll_short (poll_update key cx t.short_table) key cx t
    else (ready (init key), record t { initializing = some key })

unfoldable pub report_update_result : ℕ → Bool → CombinedPendingTable → CombinedPendingTable
report_update_result key success t = record t {
  short_table = PendingTable.report_update_result key success t.short_table;
  extended_table = PendingTable.report_update_result key success t.extended_table;
}
