-- ===== src/Mac/Management.antt =====
-- src/ieee802154/mac/management.rs: the radio's parameters, the frames to send, and the requests of the
-- MLME. The map of the parameters is iterated in the order of its list. A new `UniqueKey` is an argument.
pub mod Requested
pub mod Handlers
pub mod Polled
pub mod Sync
pub mod Fits
use zigbee_rust_playground.Common.{
  ℕ, ◌==◌, if◌then◌else◌, Bool, true, false, not, ◌&&◌, ◌||◌, Option, none, some, is_some, List, [],
  ◌∷◌, ◌++◌, Result, ok, err,
}
use zigbee_rust_playground.Common.Eq.{Eq, option_eq, option_beq}
use zigbee_rust_playground.Common.Assoc.{lookup, store, map_values}
use zigbee_rust_playground.Bimap.{BiMap}
use zigbee_rust_playground.Frame.Types.{
  ShortAddress, ExtendedAddress, PanId, Address, AddressingMode, FullAddress, full_address_eq,
  short_eq, invalid, none_assigned, broadcast_pan, Frame, FrameType, Beacon, CapabilityInformation,
  Command, AssociationError, association_request, association_response, beacon_request,
}
use zigbee_rust_playground.Frame.Keys.{full_address_key}
use zigbee_rust_playground.Pib.{
  Pib, PibProperty, PibValue, Error, get, set, reset, next_beacon_sequence_nr,
  get_full_short_address, invalid_parameter, no_short_address, unsupported_attribute,
}
use zigbee_rust_playground.Radio.{
  RawRadioParam, channel, pan_id, short_address, rx_mode, tx_power, RadioParamValue, value_u16,
  RadioRxMode, from_rx_mode,
}
use zigbee_rust_playground.Radio.Params.{param_key, value_eq}
use zigbee_rust_playground.Services.Mlme
use zigbee_rust_playground.Services.Mlme.{
  Confirm, reset_confirm, start_confirm, beacon_confirm, get_confirm, set_confirm, Indication,
  beacon_indication, associate_indication, Response, associate_response,
}
use zigbee_rust_playground.Mac.Waker.{WakerStore, Poll, ready, pending, wake, pend}
use zigbee_rust_playground.Mac.Waker
use zigbee_rust_playground.Mac.DeviceQueue.{DataRequest}
use zigbee_rust_playground.Mac.DataService.{DataService}
use zigbee_rust_playground.Mac.DataService

pub data ManagementServiceAction : Type 0 where
  set_param : ℕ → RawRadioParam → RadioParamValue → ManagementServiceAction
  send_frame : Frame → ManagementServiceAction

pub record RadioParamInfo : Type 0 where
  pub requested_value : RadioParamValue
  pub updating : Option ℕ
  pub dirty : Bool

abbrev pub RadioParams : Type 0
RadioParams = List (RawRadioParam × RadioParamInfo)

pub record ManagementService : Type 0 where
  pub outgoing : List Frame
  pub waker : WakerStore
  pub radio_params : RadioParams

-- `update_radio_parameter`
unfoldable pub update_radio_parameter :
    RawRadioParam → RadioParamValue → ManagementService → ManagementService
update_radio_parameter parameter value s = elim (lookup parameter s.radio_params) [
  | none ↦ record s {
    radio_params =
        store parameter (record { requested_value = value; updating = none; dirty = true })
          s.radio_params;
    waker = wake s.waker;
  }
  | some current ↦ if value_eq current.requested_value value then s else record s {
    radio_params =
        store parameter (record current { requested_value = value; dirty = true }) s.radio_params;
    waker = wake s.waker;
  }
]

abbrev pub rx_mode_value : RadioParamValue
rx_mode_value = from_rx_mode (record { address_filter = true; autoack = true; poll_mode = false })

unfoldable pub update_radio_parameters : Pib → ManagementService → ManagementService
update_radio_parameters pib s =
    let s1 = update_radio_parameter channel (value_u16 pib.phy_current_channel) s in
    let s2 = update_radio_parameter pan_id (value_u16 pib.mac_pan_id.value) s1 in
    let s3 = update_radio_parameter short_address (value_u16 pib.mac_short_address.value) s2 in
    let s4 = update_radio_parameter rx_mode rx_mode_value s3 in
    update_radio_parameter tx_power (value_u16 pib.phy_tx_power) s4

unfoldable pub new : Pib → ManagementService
new pib =
    update_radio_parameters pib (record { outgoing = []; waker = Waker.new; radio_params = [] })

-- The loop of `poll_radio_param_update`.
unfoldable pub poll_params : ℕ → RadioParams → Option ManagementServiceAction × RadioParams
poll_params key [] = (none, [])
poll_params key ((param, info) ∷ ps) =
    let (found, rest) = poll_params key ps in
    if info.dirty && not (is_some info.updating)
    then (
      some (set_param key param info.requested_value),
      (param, record info { dirty = false; updating = some key }) ∷ ps,
    )
    else (found, (param, info) ∷ rest)

-- The rest of `poll_action`, where no parameter is due: the first frame to send.
unfoldable pub poll_outgoing :
    ℕ → ManagementService → List Frame → Poll ManagementServiceAction × ManagementService
poll_outgoing cx s [] = (pending, record s { waker = pend s.waker cx })
poll_outgoing cx s (frame ∷ rest) = (ready (send_frame frame), record s { outgoing = rest })

-- `poll_action`, with `poll_radio_param_update` first.
unfoldable pub poll_action :
    ℕ → ℕ → ManagementService → Poll ManagementServiceAction × ManagementService
poll_action key cx s =
    let (found, params) = poll_params key s.radio_params in
    elim found [
      | some action ↦ (ready action, record s { radio_params = params })
      | none ↦ poll_outgoing cx s s.outgoing
    ]

-- What `process_set_param_result` does to one parameter, and whether it has the task woken.
abbrev pub is_updating : ℕ → RadioParamInfo → Bool
is_updating key info = option_beq (λ a b. a == b) info.updating (some key)

unfoldable pub settle : ℕ → Bool → RadioParamInfo → RadioParamInfo
settle key result info =
    if is_updating key info
    then record info { updating = none; dirty = info.dirty || not result }
    else info

unfoldable pub should_wake : ℕ → Bool → RadioParams → Bool
should_wake key result [] = false
should_wake key result ((param, info) ∷ ps) =
    (is_updating key info && (settle key result info).dirty) || should_wake key result ps

unfoldable pub process_set_param_result : ℕ → Bool → ManagementService → ManagementService
process_set_param_result key result s = record s {
  radio_params = map_values (settle key result) s.radio_params;
  waker = if should_wake key result s.radio_params then wake s.waker else s.waker;
}

-- The address that makes the device the coordinator of its network.
abbrev pub coord_eq : ExtendedAddress × ShortAddress → ExtendedAddress × ShortAddress → Bool
coord_eq (a, b) (c, d) = (a.value == c.value) && short_eq b d

unfoldable pub beacon_frame : Pib → Mlme.BeaconRequest → Frame
beacon_frame pib request = record {
  frame_pending = false;
  acknowledge_request = false;
  sequence_number = some (next_beacon_sequence_nr pib).0;
  destination = none;
  source = some (get_full_short_address pib);
  frame_type = FrameType.beacon (record {
    beacon_order = 15;
    superframe_order = request.superframe_order;
    final_cap_slot = 15;
    battery_life_extension = false;
    pan_coordinator =
        option_beq coord_eq pib.mac_associated_pan_coord
          (some (pib.mac_extended_address, pib.mac_short_address));
    association_permit = pib.mac_association_permit;
    payload = record { bytes = pib.mac_beacon_payload };
  });
}

unfoldable pub process_mlme_beacon_request :
    Pib → Mlme.BeaconRequest → ManagementService → Result Error (Unit {0}) × Pib × ManagementService
process_mlme_beacon_request pib request s =
    if not (request.superframe_order == 15)
      || (not (request.channel == pib.phy_current_channel) || not (request.channel_page == 0))
    then (err invalid_parameter, pib, s)
    else (
      ok tt,
      (next_beacon_sequence_nr pib).1,
      record s { outgoing = s.outgoing ++ (beacon_frame pib request ∷ []) },
    )

unfoldable pub process_mlme_get_request : Pib → Mlme.GetRequest → Result Error PibValue
process_mlme_get_request pib request = elim (get request.attribute pib) [
  | none ↦ err unsupported_attribute
  | some value ↦ ok value
]

-- `process_mlme_set_request`: the radio's parameters follow the PIB, whether it changed or not.
unfoldable pub process_mlme_set_request :
    Pib → Mlme.SetRequest → ManagementService → Result Error (Unit {0}) × Pib × ManagementService
process_mlme_set_request pib request s = elim (set request.attribute request.value pib) [
  | err e ↦ (err e, pib, update_radio_parameters pib s)
  | ok pib' ↦ (ok tt, pib', update_radio_parameters pib' s)
]

unfoldable pub process_mlme_start_request :
    Pib → Mlme.StartRequest → ManagementService → Result Error (Unit {0}) × Pib × ManagementService
process_mlme_start_request pib request s =
    if short_eq pib.mac_short_address invalid
    then (err no_short_address, pib, s)
    else if not (request.channel_page == 0)
        || (not (request.start_time == 0)
            || (not (request.beacon_order == 15)
                || (not (request.superframe_order == 15)
                    || (not request.pan_coordinator || request.battery_life_extension))))
    then (err invalid_parameter, pib, s)
    else let pib' : Pib = record pib {
      phy_current_channel = request.channel_number;
      mac_pan_id = request.pan_id;
      mac_associated_pan_coord =
          if request.pan_coordinator
          then some (pib.mac_extended_address, pib.mac_short_address)
          else pib.mac_associated_pan_coord;
    } in
      (ok tt, pib', update_radio_parameters pib' s)

-- `status.map(|addr| addr.unwrap_or_else(ShortAddress::none_assigned))`
abbrev pub assigned :
    Result AssociationError (Option ShortAddress) → Result AssociationError ShortAddress
assigned (err e) = err e
assigned (ok none) = ok none_assigned
assigned (ok (some address)) = ok address

module _ {Timer M : Type 0} ⦃b : BiMap M⦄ where
  -- `process_mlme_reset_request`, with the random numbers of a new PIB.
  unfoldable pub process_mlme_reset_request :
      ℕ
      → ℕ
      → Pib
      → Mlme.ResetRequest
      → ManagementService
      → DataService Timer M
      → Result Error (Unit {0}) × Pib × ManagementService × DataService Timer M
  process_mlme_reset_request bsn dsn pib request s data_service =
      let pib' = if request.set_default_pib then reset bsn dsn pib else pib in
      (ok tt, pib', new pib', DataService.new)

  unfoldable pub process_mlme_request :
      ℕ
      → ℕ
      → Pib
      → DataService Timer M
      → Mlme.Request
      → ManagementService
      → Option Confirm × Pib × DataService Timer M × ManagementService
  process_mlme_request bsn dsn pib data_service (Mlme.beacon_request r) s =
      let (result, pib', s') = process_mlme_beacon_request pib r s in
      (some (beacon_confirm result), pib', data_service, s')
  process_mlme_request bsn dsn pib data_service (Mlme.reset_request r) s =
      let (result, pib', s', data_service') =
        process_mlme_reset_request bsn dsn pib r s data_service in
      (some (reset_confirm result), pib', data_service', s')
  process_mlme_request bsn dsn pib data_service (Mlme.start_request r) s =
      let (result, pib', s') = process_mlme_start_request pib r s in
      (some (start_confirm result), pib', data_service, s')
  process_mlme_request bsn dsn pib data_service (Mlme.get_request r) s =
      (some (get_confirm r.attribute (process_mlme_get_request pib r)), pib, data_service, s)
  process_mlme_request bsn dsn pib data_service (Mlme.set_request r) s =
      let (result, pib', s') = process_mlme_set_request pib r s in
      (some (set_confirm r.attribute result), pib', data_service, s')

  -- `process_mlme_response`, with its new key.
  unfoldable pub process_mlme_response :
      (ℕ → Timer) → ℕ → Pib → Response → DataService Timer M → DataService Timer M
  process_mlme_response sleep key pib (associate_response device_address fast_association status) =
      DataService.insert sleep pib (record {
        key = key;
        destination =
            some (record { pan_id = pib.mac_pan_id; address = Address.extended device_address });
        source_mode = AddressingMode.extended;
        acknowledge_request = true;
        indirect = not fast_association;
        content = FrameType.command (
            association_response
              (record { fast_association = fast_association; status = assigned status }));
      })

unfoldable pub process_frame_beacon_request :
    Pib → Frame → ManagementService → Option Indication × Pib × ManagementService
process_frame_beacon_request pib frame s =
    let (result, pib', s') =
      process_mlme_beacon_request pib
        (record {
          beacon_type = Mlme.beacon;
          channel = pib.phy_current_channel;
          channel_page = 0;
          superframe_order = 15;
          dst_addr = frame.source;
        })
        s in
    if pib.mac_beacon_auto_respond then (none, pib', s') else (
      some (
          beacon_indication Mlme.beacon frame.source (elim frame.destination [
            | none ↦ broadcast_pan
            | some full_address ↦ full_address.pan_id
          ])),
      pib,
      s,
    )

unfoldable pub process_frame_association_request :
    Pib → Frame → CapabilityInformation → Option Indication
process_frame_association_request pib frame capability_information =
    if not pib.mac_association_permit
    then none
    else if not (option_beq full_address_eq frame.destination (some (get_full_short_address pib)))
    then none
    else elim frame.source [
      | none ↦ none
      | some source ↦ elim source.address [
        | Address.short a ↦ none
        | Address.extended device_address ↦
            some (associate_indication device_address capability_information)
      ]
    ]

unfoldable pub process_frame :
    Pib → Frame → ManagementService → Option Indication × Pib × ManagementService
process_frame pib frame s = elim frame.frame_type [
  | FrameType.command beacon_request ↦ process_frame_beacon_request pib frame s
  | FrameType.command (association_request req) ↦
      (process_frame_association_request pib frame req, pib, s)
  | _ ↦ (none, pib, s)
]
