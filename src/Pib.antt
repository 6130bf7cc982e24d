-- ===== src/Pib.antt =====
-- src/ieee802154/pib.rs: the PAN information base. A `Duration` is its number of nanoseconds, and the
-- numbers that `random()` yields are arguments.
pub mod Access
pub mod Sequence
use zigbee_rust_playground.Common.{
  ◌*◌, ℕ, ◌+◌, ◌%◌, Bool, true, false, List, [], Option, none, some, Result, ok, err, ◌>>=◌, ◌==◌,
  not, if◌then◌else◌, map_err,
}
use zigbee_rust_playground.Frame.Types.{
  ShortAddress, ExtendedAddress, PanId, FullAddress, Address, short_eq, none_assigned,
}

pub data PibProperty : Type 0 where
  mac_extended_address mac_associated_pan_coord mac_association_permit mac_beacon_payload mac_bsn
        mac_dsn mac_pan_id mac_short_address mac_beacon_auto_respond
        mac_transaction_persistence_time mac_max_frame_retries phy_current_channel phy_max_tx_power
        phy_tx_power :
      PibProperty

pub data PibValue : Type 0 where
  bool : Bool → PibValue
  u8 : ℕ → PibValue
  u16 : ℕ → PibValue
  blob : List ℕ → PibValue
  duration : ℕ → PibValue
  short_address : ShortAddress → PibValue
  extended_address : ExtendedAddress → PibValue
  pan_id : PanId → PibValue
  pair : PibValue → PibValue → PibValue
  empty : PibValue

-- services/error.rs
pub data Error : Type 0 where
  channel_access_failure frame_too_long read_only unsupported_attribute invalid_index
        invalid_parameter invalid_handle no_short_address transaction_expired no_ack :
      Error

-- `TryInto<..> for PIBValue`; its error type `()` leaves nothing to carry.
unfoldable pub try_bool : PibValue → Option Bool
try_bool (PibValue.bool x) = some x
try_bool _ = none

unfoldable pub try_u8 : PibValue → Option ℕ
try_u8 (PibValue.u8 x) = some x
try_u8 _ = none

unfoldable pub try_u16 : PibValue → Option ℕ
try_u16 (PibValue.u16 x) = some x
try_u16 _ = none

unfoldable pub try_blob : PibValue → Option (List ℕ)
try_blob (PibValue.blob x) = some x
try_blob _ = none

unfoldable pub try_duration : PibValue → Option ℕ
try_duration (PibValue.duration x) = some x
try_duration _ = none

unfoldable pub try_short_address : PibValue → Option ShortAddress
try_short_address (PibValue.short_address x) = some x
try_short_address _ = none

unfoldable pub try_pan_id : PibValue → Option PanId
try_pan_id (PibValue.pan_id x) = some x
try_pan_id _ = none

pub record Pib : Type 0 where
  pub mac_extended_address : ExtendedAddress
  pub mac_associated_pan_coord : Option (ExtendedAddress × ShortAddress)
  pub mac_association_permit : Bool
  pub mac_beacon_payload : List ℕ
  pub mac_bsn : ℕ
  pub mac_dsn : ℕ
  pub mac_pan_id : PanId
  pub mac_short_address : ShortAddress
  pub mac_beacon_auto_respond : Bool
  pub mac_transaction_persistence_time : ℕ
  pub mac_max_frame_retries : ℕ
  pub phy_current_channel : ℕ
  pub phy_max_tx_power : ℕ
  pub phy_tx_power : ℕ

-- `PIB::new`, with the two random numbers first.
unfoldable pub new : ℕ → ℕ → ExtendedAddress → ℕ → ℕ → Pib
new bsn dsn address channel power = record {
  mac_extended_address = address;
  mac_associated_pan_coord = none;
  mac_association_permit = false;
  mac_beacon_payload = [];
  mac_bsn = bsn;
  mac_dsn = dsn;
  mac_pan_id = record { value = 0xFFFF };
  mac_short_address = record { value = 0xFFFF };
  mac_beacon_auto_respond = false;
  mac_transaction_persistence_time = 5 * 60 * 1000000000;
  mac_max_frame_retries = 3;
  phy_current_channel = channel;
  phy_max_tx_power = power;
  phy_tx_power = power;
}

-- `PIB::reset`
unfoldable pub reset : ℕ → ℕ → Pib → Pib
unfolding new
reset bsn dsn p = new bsn dsn p.mac_extended_address p.phy_current_channel p.phy_tx_power

-- `From<Option<(ExtendedAddress, ShortAddress)>> for PIBValue`
unfoldable pub from_coord : Option (ExtendedAddress × ShortAddress) → PibValue
from_coord none = empty
from_coord (some (a, b)) = pair (PibValue.extended_address a) (PibValue.short_address b)

-- `PIB::get`; `none` is the error `()`.
unfoldable pub get : PibProperty → Pib → Option PibValue
unfolding from_coord
get PibProperty.mac_extended_address p = some (PibValue.extended_address p.mac_extended_address)
get PibProperty.mac_associated_pan_coord p = some (from_coord p.mac_associated_pan_coord)
get PibProperty.mac_association_permit p = some (PibValue.bool p.mac_association_permit)
get PibProperty.mac_beacon_payload p = some (PibValue.blob p.mac_beacon_payload)
get PibProperty.mac_bsn p = some (PibValue.u8 p.mac_bsn)
get PibProperty.mac_dsn p = some (PibValue.u8 p.mac_dsn)
get PibProperty.mac_pan_id p = some (PibValue.pan_id p.mac_pan_id)
get PibProperty.mac_short_address p = some (PibValue.short_address p.mac_short_address)
get PibProperty.mac_beacon_auto_respond p = some (PibValue.bool p.mac_beacon_auto_respond)
get PibProperty.mac_transaction_persistence_time p =
    some (PibValue.duration p.mac_transaction_persistence_time)
get PibProperty.mac_max_frame_retries p = none
get PibProperty.phy_current_channel p = some (PibValue.u16 p.phy_current_channel)
get PibProperty.phy_max_tx_power p = some (PibValue.u16 p.phy_max_tx_power)
get PibProperty.phy_tx_power p = some (PibValue.u16 p.phy_tx_power)

-- `value.try_into().or(Err(InvalidParameter))?`, then the field's write.
unfoldable pub assign {ℓ} : {A : Type ℓ} → Option A → (A → Pib) → Result Error Pib
assign none write = err invalid_parameter
assign (some x) write = ok (write x)

-- `PIB::set`; an error leaves the PIB as it was.
unfoldable pub set : PibProperty → PibValue → Pib → Result Error Pib
unfolding assign try_bool try_u8 try_u16 try_blob try_duration try_short_address try_pan_id
set PibProperty.mac_extended_address v p = err read_only
set PibProperty.mac_association_permit v p =
    assign (try_bool v) (λ x. record p { mac_association_permit = x })
set PibProperty.mac_beacon_payload v p =
    assign (try_blob v) (λ x. record p { mac_beacon_payload = x })
set PibProperty.mac_bsn v p = assign (try_u8 v) (λ x. record p { mac_bsn = x })
set PibProperty.mac_dsn v p = assign (try_u8 v) (λ x. record p { mac_dsn = x })
set PibProperty.mac_pan_id v p = assign (try_pan_id v) (λ x. record p { mac_pan_id = x })
set PibProperty.mac_short_address v p =
    assign (try_short_address v) (λ x. record p { mac_short_address = x })
set PibProperty.mac_beacon_auto_respond v p =
    assign (try_bool v) (λ x. record p { mac_beacon_auto_respond = x })
set PibProperty.mac_transaction_persistence_time v p =
    assign (try_duration v) (λ x. record p { mac_transaction_persistence_time = x })
set PibProperty.phy_current_channel v p =
    assign (try_u16 v) (λ x. record p { phy_current_channel = x })
set PibProperty.phy_max_tx_power v p = assign (try_u16 v) (λ x. record p { phy_max_tx_power = x })
set PibProperty.phy_tx_power v p = assign (try_u16 v) (λ x. record p { phy_tx_power = x })
set PibProperty.mac_associated_pan_coord v p = err unsupported_attribute
set PibProperty.mac_max_frame_retries v p = err unsupported_attribute

unfoldable pub next_beacon_sequence_nr : Pib → ℕ × Pib
next_beacon_sequence_nr p = (p.mac_bsn, record p { mac_bsn = (p.mac_bsn + 1) % 256 })

unfoldable pub next_data_sequence_nr : Pib → ℕ × Pib
next_data_sequence_nr p = (p.mac_dsn, record p { mac_dsn = (p.mac_dsn + 1) % 256 })

unfoldable pub get_full_short_address : Pib → FullAddress
get_full_short_address p = record {
  pan_id = p.mac_pan_id;
  address =
      if not (short_eq p.mac_short_address none_assigned)
      then Address.short p.mac_short_address
      else Address.extended p.mac_extended_address;
}

unfoldable pub get_full_extended_address : Pib → FullAddress
get_full_extended_address p = record {
  pan_id = p.mac_pan_id;
  address = Address.extended p.mac_extended_address;
}
