-- ===== src/Services/Mlme.antt =====
-- src/ieee802154/services/mlme.rs. The fields that nothing reads are kept.
use zigbee_rust_playground.Common.{ℕ, Bool, Option, Result}
use zigbee_rust_playground.Frame.Types.{
  FullAddress, ExtendedAddress, ShortAddress, PanId, CapabilityInformation, AssociationError,
}
use zigbee_rust_playground.Pib.{Error, PibProperty, PibValue}

pub data BeaconType : Type 0 where
  beacon enhanced_beacon : BeaconType

pub record ResetRequest : Type 0 where
  pub set_default_pib : Bool

pub record StartRequest : Type 0 where
  pub pan_id : PanId
  pub channel_number : ℕ
  pub channel_page : ℕ
  pub start_time : ℕ
  pub beacon_order : ℕ
  pub superframe_order : ℕ
  pub pan_coordinator : Bool
  pub battery_life_extension : Bool

pub record BeaconRequest : Type 0 where
  pub beacon_type : BeaconType
  pub channel : ℕ
  pub channel_page : ℕ
  pub superframe_order : ℕ
  pub dst_addr : Option FullAddress

pub record GetRequest : Type 0 where
  pub attribute : PibProperty

pub record SetRequest : Type 0 where
  pub attribute : PibProperty
  pub value : PibValue

pub data Request : Type 0 where
  reset_request : ResetRequest → Request
  start_request : StartRequest → Request
  beacon_request : BeaconRequest → Request
  get_request : GetRequest → Request
  set_request : SetRequest → Request

pub data Confirm : Type 0 where
  reset_confirm : Result Error (Unit {0}) → Confirm
  start_confirm : Result Error (Unit {0}) → Confirm
  beacon_confirm : Result Error (Unit {0}) → Confirm
  get_confirm : PibProperty → Result Error PibValue → Confirm
  set_confirm : PibProperty → Result Error (Unit {0}) → Confirm

pub data Indication : Type 0 where
  beacon_indication :
      (beacon_type : BeaconType) (src_addr : Option FullAddress) (dst_pan_id : PanId) → Indication
  associate_indication :
      (device_address : ExtendedAddress) (capability_information : CapabilityInformation)
      → Indication

pub data Response : Type 0 where
  associate_response :
      (device_address : ExtendedAddress) (fast_association : Bool)
      (status : Result AssociationError (Option ShortAddress))
      → Response

pub data Input : Type 0 where
  request_input : Request → Input
  response_input : Response → Input
