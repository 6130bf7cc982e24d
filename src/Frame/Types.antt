-- ===== src/Frame/Types.antt =====
-- frame.rs: the data types. A u8, u16, u64 or usize is a number; `IsFrame` in Frame/Valid.antt
-- states the ranges.
use zigbee_rust_playground.Common.{ℕ, List, Option, Bool, false, Result, ◌==◌, ◌&&◌}

pub record ShortAddress : Type 0 where
  pub value : ℕ

pub record ExtendedAddress : Type 0 where
  pub value : ℕ

pub record PanId : Type 0 where
  pub value : ℕ

pub data Address : Type 0 where
  short : ShortAddress → Address
  extended : ExtendedAddress → Address

pub record FullAddress : Type 0 where
  pub pan_id : PanId
  pub address : Address

pub data AddressingMode : Type 0 where
  none reserved short extended : AddressingMode

abbrev pub broadcast : ShortAddress
broadcast = record { value = 0xFFFF }

abbrev pub invalid : ShortAddress
invalid = record { value = 0xFFFF }

abbrev pub none_assigned : ShortAddress
none_assigned = record { value = 0xFFFE }

abbrev pub broadcast_pan : PanId
broadcast_pan = record { value = 0xFFFF }

-- The derived equality tests.
abbrev pub short_eq : ShortAddress → ShortAddress → Bool
short_eq a b = a.value == b.value

abbrev pub pan_eq : PanId → PanId → Bool
pan_eq a b = a.value == b.value

abbrev pub address_eq : Address → Address → Bool
address_eq (Address.short a) (Address.short b) = a.value == b.value
address_eq (Address.short a) (Address.extended b) = false
address_eq (Address.extended a) (Address.short b) = false
address_eq (Address.extended a) (Address.extended b) = a.value == b.value

abbrev pub full_address_eq : FullAddress → FullAddress → Bool
full_address_eq a b = pan_eq a.pan_id b.pan_id && address_eq a.address b.address

pub record Payload : Type 0 where
  pub bytes : List ℕ

pub record Beacon : Type 0 where
  pub beacon_order : ℕ
  pub superframe_order : ℕ
  pub final_cap_slot : ℕ
  pub battery_life_extension : Bool
  pub pan_coordinator : Bool
  pub association_permit : Bool
  pub payload : Payload

pub data DeviceType : Type 0 where
  rfd ffd : DeviceType

pub data PowerSource : Type 0 where
  battery ac : PowerSource

pub record CapabilityInformation : Type 0 where
  pub device_type : DeviceType
  pub power_source : PowerSource
  pub receiver_on_when_idle : Bool
  pub fast_association : Bool
  pub security_capable : Bool
  pub allocate_address : Bool

pub data AssociationError : Type 0 where
  pan_at_capacity pan_access_denied hopping_sequence_offset : AssociationError

pub record AssociationResponse : Type 0 where
  pub fast_association : Bool
  pub status : Result AssociationError ShortAddress

pub data Command : Type 0 where
  association_request : CapabilityInformation → Command
  association_response : AssociationResponse → Command
  data_request : Command
  beacon_request : Command

pub data FrameType : Type 0 where
  beacon : Beacon → FrameType
  data_frame : Payload → FrameType
  ack : Payload → FrameType
  command : Command → FrameType
  reserved : Payload → FrameType
  multipurpose : Payload → FrameType
  fragment : Payload → FrameType
  extended : Payload → FrameType

pub record Frame : Type 0 where
  pub frame_pending : Bool
  pub acknowledge_request : Bool
  pub sequence_number : Option ℕ
  pub destination : Option FullAddress
  pub source : Option FullAddress
  pub frame_type : FrameType
