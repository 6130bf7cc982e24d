-- ===== src/Mac/Service.antt =====
-- src/ieee802154/mac/service.rs: the loop of the MAC. An input is polled for and processed; what is sent
-- to the channels is listed. A closed channel, for which the code panics, and the tasks are left out.
pub mod Stops
pub mod Reach
pub mod Once
use zigbee_rust_playground.Common.{
  ℕ, Bool, true, false, Option, none, some, List, [], ◌∷◌, Result, ok, err,
}
use zigbee_rust_playground.Bitfield.{Bitfield}
use zigbee_rust_playground.Bimap.{BiMap}
use zigbee_rust_playground.Pack.{VecPackTarget, vec_new, vec_target, UnpackError}
use zigbee_rust_playground.Frame.Types.{Frame, PanId, ShortAddress, ExtendedAddress}
use zigbee_rust_playground.Frame.Codec.{pack, unpack}
use zigbee_rust_playground.Pib.{Pib}
use zigbee_rust_playground.Pib as Attributes
use zigbee_rust_playground.Radio.{
  RadioRequest, RadioResponse, RadioPacket, RadioError, init_pending_data_table, send_packet,
  param_set, param_got, pending_data_table_initialized, power_set, packet_sent, packet_received,
  pending_short_set, pending_extended_set,
}
use zigbee_rust_playground.Radio
use zigbee_rust_playground.Services.Mcps
use zigbee_rust_playground.Services.Mlme
use zigbee_rust_playground.Mac.Waker.{Poll, ready, pending}
use zigbee_rust_playground.Mac.DataService.{DataService, DataServiceAction, Stop}
use zigbee_rust_playground.Mac.DataService
use zigbee_rust_playground.Mac.Management.{ManagementService, ManagementServiceAction, set_param}
use zigbee_rust_playground.Mac.Management

pub data MacInput : Type 0 where
  radio_input : RadioResponse → MacInput
  mlme_request : Mlme.Request → MacInput
  mlme_response : Mlme.Response → MacInput
  mcps_request : Mcps.Request → MacInput
  management_action : ManagementServiceAction → MacInput
  data_action : DataServiceAction → MacInput

unfoldable pub from_mlme : Mlme.Input → MacInput
from_mlme (Mlme.request_input x) = mlme_request x
from_mlme (Mlme.response_input x) = mlme_response x

-- What the MAC sends to its channels.
pub data Output : Type 0 where
  radio_request : RadioRequest → Output
  mlme_confirm : Mlme.Confirm → Output
  mlme_indication : Mlme.Indication → Output
  mcps_confirm : Mcps.Confirm → Output

pub record MacData (Timer M : Type 0) : Type 0 where
  pub pib : Pib
  pub management : ManagementService
  pub data_service : DataService Timer M

-- `r.is_ok()`
abbrev pub is_ok {ℓ ℓ'} : {A : Type ℓ} {E : Type ℓ'} → Result E A → Bool
is_ok (ok x) = true
is_ok (err e) = false

-- The messages of one channel that is asked after all before it had none.
abbrev pub or_else {ℓ} : {A : Type ℓ} → Poll A → Poll A → Poll A
or_else (ready x) rest = ready x
or_else pending rest = rest

abbrev pub map_poll {ℓ ℓ'} : {A : Type ℓ} {B : Type ℓ'} → (A → B) → Poll A → Poll B
map_poll f (ready x) = ready (f x)
map_poll f pending = pending

module _ {Timer M : Type 0} ⦃b : BiMap M⦄ where
  -- `MacData::new`, with what the radio answered to the requests for its parameters.
  unfoldable pub new : ℕ → ℕ → ExtendedAddress → ℕ → ℕ → MacData Timer M
  new bsn dsn extended_address current_channel max_tx_power =
      let pib = Attributes.new bsn dsn extended_address current_channel max_tx_power in
      record { pib = pib; management = Management.new pib; data_service = DataService.new }

  -- `poll_next_input`: the services before the radio, the MLME and the MCPS, each asked in its turn.
  unfoldable pub poll_next_input :
      ℕ
      → (Timer → Bool)
      → ℕ
      → ℕ
      → Poll RadioResponse
      → Poll Mlme.Input
      → Poll Mcps.Request
      → MacData Timer M
      → Result Stop (Poll MacInput × MacData Timer M)
  poll_next_input fuel expired key cx radio mlme mcps mac =
      let (action, management) = Management.poll_action key cx mac.management in
      elim action [
        | ready x ↦ ok (ready (management_action x), record mac { management = management })
        | pending ↦ elim (DataService.poll_action fuel expired key cx mac.pib mac.data_service) [
          | err stop ↦ err stop
          | ok (polled, pib, data_service) ↦ ok (
            or_else (map_poll data_action polled) (
                or_else (map_poll radio_input radio)
                  (or_else (map_poll from_mlme mlme) (map_poll mcps_request mcps))),
            record { pib = pib; management = management; data_service = data_service },
          )
        ]
      ]

module _ ⦃f : Bitfield⦄ where
  -- `send_frame`, which panics where the frame cannot be packed.
  unfoldable pub send_frame : ℕ → Frame → Option (List Output)
  send_frame key frame = elim (pack frame vec_new) [
    | err e ↦ none
    | ok target ↦ some (radio_request (send_packet key target.bytes) ∷ [])
  ]

  unfoldable pub process_management : ℕ → ManagementServiceAction → Option (List Output)
  process_management key (set_param k p v) = some (radio_request (Radio.set_param k p v) ∷ [])
  process_management key (ManagementServiceAction.send_frame frame) = send_frame key frame

  -- The numbers of the addresses for the radio.
  abbrev pub short_numbers : Option (PanId × ShortAddress) → Option (ℕ × ℕ)
  short_numbers none = none
  short_numbers (some (pan_id, address)) = some (pan_id.value, address.value)

  abbrev pub extended_number : Option ExtendedAddress → Option ℕ
  extended_number none = none
  extended_number (some address) = some address.value

  unfoldable pub process_data : DataServiceAction → Option (List Output)
  process_data (DataServiceAction.init_pending_table key) =
      some (radio_request (init_pending_data_table key) ∷ [])
  process_data (DataServiceAction.set_pending_short key index value) =
      some (radio_request (Radio.set_pending_short key index (short_numbers value)) ∷ [])
  process_data (DataServiceAction.set_pending_extended key index value) =
      some (radio_request (Radio.set_pending_extended key index (extended_number value)) ∷ [])
  process_data (DataServiceAction.send_data key frame) = send_frame key frame
  process_data (DataServiceAction.confirm confirm) = some (mcps_confirm confirm ∷ [])

-- The confirm or the indication that there is.
abbrev pub sent {ℓ} : {A : Type ℓ} → (A → Output) → Option A → List Output
sent make none = []
sent make (some x) = make x ∷ []

abbrev pub with_state {ℓ} : {S : Type ℓ} → S → Option (List Output) → Option (List Output × S)
with_state mac none = none
with_state mac (some outputs) = some (outputs, mac)

module _ {Timer M : Type 0} ⦃b : BiMap M⦄ ⦃f : Bitfield⦄ where
  unfoldable pub process_mlme_request :
      ℕ → ℕ → Mlme.Request → MacData Timer M → List Output × MacData Timer M
  process_mlme_request bsn dsn request mac =
      let (confirm, pib, data_service, management) =
        Management.process_mlme_request bsn dsn mac.pib mac.data_service request mac.management in
      (
        sent mlme_confirm confirm,
        record { pib = pib; management = management; data_service = data_service },
      )

  unfoldable pub process_mcps_request :
      (ℕ → Timer) → ℕ → Mcps.Request → MacData Timer M → List Output × MacData Timer M
  process_mcps_request sleep key request mac =
      let (confirm, data_service) =
        DataService.process_mcps_request sleep key mac.pib request mac.data_service in
      (sent mcps_confirm confirm, record mac { data_service = data_service })

  -- `process_radio_packet`, which panics where the packet is no frame.
  unfoldable pub process_radio_packet :
      RadioPacket → MacData Timer M → Option (List Output × MacData Timer M)
  process_radio_packet packet mac = elim (unpack packet.bytes) [
    | err e ↦ none
    | ok (frame, rest) ↦
        let (indication, pib, management) = Management.process_frame mac.pib frame mac.management in
        some (
          sent mlme_indication indication,
          record {
            pib = pib;
            management = management;
            data_service = DataService.process_frame pib frame mac.data_service;
          },
        )
  ]

  unfoldable pub process_radio_response :
      (ℕ → Timer) → RadioResponse → MacData Timer M → Option (List Output × MacData Timer M)
  process_radio_response sleep (pending_data_table_initialized key r) mac = some (
    [],
    record mac {
      data_service = DataService.process_init_pending_table_result key (is_ok r) mac.data_service;
    },
  )
  process_radio_response sleep (pending_short_set key r) mac = some (
    [],
    record mac {
      data_service = DataService.process_set_pending_result key (is_ok r) mac.data_service;
    },
  )
  process_radio_response sleep (pending_extended_set key r) mac = some (
    [],
    record mac {
      data_service = DataService.process_set_pending_result key (is_ok r) mac.data_service;
    },
  )
  process_radio_response sleep (param_set key p r) mac = some (
    [],
    record mac { management = Management.process_set_param_result key (is_ok r) mac.management },
  )
  process_radio_response sleep (packet_received packet) mac = process_radio_packet packet mac
  process_radio_response sleep (packet_sent key r) mac = some (
    [],
    record mac {
      data_service = DataService.process_send_result sleep key (is_ok r) mac.data_service;
    },
  )
  process_radio_response sleep (param_got key p r) mac = some ([], mac)
  process_radio_response sleep (power_set key power r) mac = some ([], mac)

  -- The body of the loop of `process`: what is sent, or `none` where the code panics.
  unfoldable pub process_input :
      (ℕ → Timer) → ℕ → ℕ → ℕ → MacInput → MacData Timer M → Option (List Output × MacData Timer M)
  process_input sleep key bsn dsn (management_action x) mac =
      with_state mac (process_management key x)
  process_input sleep key bsn dsn (data_action x) mac = with_state mac (process_data x)
  process_input sleep key bsn dsn (mlme_request x) mac = some (process_mlme_request bsn dsn x mac)
  process_input sleep key bsn dsn (mlme_response x) mac = some (
    [],
    record mac {
      data_service = Management.process_mlme_response sleep key mac.pib x mac.data_service;
    },
  )
  process_input sleep key bsn dsn (radio_input x) mac = process_radio_response sleep x mac
  process_input sleep key bsn dsn (mcps_request x) mac = some (process_mcps_request sleep key x mac)
