-- ===== src/Mac/Service/Stops.antt =====
-- When the loop of the MAC panics while it processes an input.
use zigbee_rust_playground.Common.{
  ℕ, ◌≡◌, refl, ◌∙◌, ◌⊎◌, inl, inr, Bool, true, false, not, Option, none, some, is_some, List,
  Result, ok, err,
}
use zigbee_rust_playground.Bitfield.{Bitfield}
use zigbee_rust_playground.Bimap.{BiMap}
use zigbee_rust_playground.Frame.Types.{Frame}
use zigbee_rust_playground.Frame.Codec.{unpack}
use zigbee_rust_playground.Frame.Layout.{BodyFits}
use zigbee_rust_playground.Frame.RoundTrip.{pack-vec}
use zigbee_rust_playground.Radio.{
  RadioPacket, packet_received, param_set, param_got, pending_data_table_initialized, power_set,
  packet_sent, pending_short_set, pending_extended_set,
}
use zigbee_rust_playground.Mac.DataService.{DataServiceAction}
use zigbee_rust_playground.Mac.Management.{ManagementServiceAction, set_param}
use zigbee_rust_playground.Mac.Service.{
  MacInput, radio_input, mlme_request, mlme_response, mcps_request, management_action, data_action,
  MacData, Output, send_frame, process_management, process_data, process_radio_packet,
  process_radio_response, process_input, with_state,
}

pub Result-cases {ℓ ℓ'} :
    {E : Type ℓ} {A : Type ℓ'} (r : Result E A) → ((e : E) × (r ≡ err e)) ⊎ ((x : A) × (r ≡ ok x))
Result-cases (err e) = inl (e, refl)
Result-cases (ok x) = inr (x, refl)

-- The frame that an input has sent can be packed.
abbrev pub Fits : MacInput → Type 0
Fits (management_action (ManagementServiceAction.send_frame frame)) = BodyFits frame.frame_type
Fits (data_action (DataServiceAction.send_data key frame)) = BodyFits frame.frame_type
Fits _ = Unit {0}

module _ ⦃f : Bitfield⦄ where
  -- Whether the bytes of a packet are refused by `Frame::unpack`.
  abbrev is_error {ℓ ℓ'} : {A : Type ℓ} {E : Type ℓ'} → Result E A → Bool
  is_error (ok x) = false
  is_error (err e) = true

  abbrev pub is_garbled : MacInput → Bool
  is_garbled (radio_input (packet_received packet)) = is_error (unpack packet.bytes)
  is_garbled _ = false

  send_frame-fits :
      (key : ℕ) (frame : Frame) → BodyFits frame.frame_type → is_some (send_frame key frame) ≡ true
  unfolding send_frame
  send_frame-fits key frame fits = rw (pack-vec frame fits, is_some) refl

  process_management-Fits :
      (key : ℕ) (x : ManagementServiceAction)
      → Fits (management_action x)
      → is_some (process_management key x) ≡ true
  unfolding process_management
  process_management-Fits key (set_param k p v) fits = refl
  process_management-Fits key (ManagementServiceAction.send_frame frame) fits =
      send_frame-fits key frame fits

  process_data-Fits :
      (x : DataServiceAction) → Fits (data_action x) → is_some (process_data x) ≡ true
  unfolding process_data
  process_data-Fits (DataServiceAction.init_pending_table key) fits = refl
  process_data-Fits (DataServiceAction.set_pending_short key i v) fits = refl
  process_data-Fits (DataServiceAction.set_pending_extended key i v) fits = refl
  process_data-Fits (DataServiceAction.send_data key frame) fits = send_frame-fits key frame fits
  process_data-Fits (DataServiceAction.confirm c) fits = refl

module _ {Timer M : Type 0} ⦃b : BiMap M⦄ ⦃f : Bitfield⦄ where
  is_some-with_state :
      (mac : MacData Timer M) (outputs : Option (List Output))
      → is_some (with_state mac outputs) ≡ is_some outputs
  is_some-with_state mac none = refl
  is_some-with_state mac (some x) = refl

  process_radio_packet-reads :
      (packet : RadioPacket) (mac : MacData Timer M)
      → is_some (process_radio_packet packet mac)
        ≡ not (is_garbled (radio_input (packet_received packet)))
  unfolding process_radio_packet
  process_radio_packet-reads packet mac = elim (Result-cases (unpack packet.bytes)) [
    | inl (e, refused) ↦ rw (refused, process_radio_packet, is_some) refl
    | inr (x, read) ↦ rw (read, process_radio_packet, is_some) refl
  ]

  -- An input that has a frame sent has one that can be packed: then processing it panics exactly where
  -- it is a packet that `Frame::unpack` refuses.
  pub process_input-stops :
      (sleep : ℕ → Timer) (key bsn dsn : ℕ) (i : MacInput) (mac : MacData Timer M)
      → Fits i
      → is_some (process_input sleep key bsn dsn i mac) ≡ not (is_garbled i)
  unfolding process_input process_radio_response
  process_input-stops sleep key bsn dsn (management_action x) mac fits =
      is_some-with_state mac (process_management key x) ∙ process_management-Fits key x fits
  process_input-stops sleep key bsn dsn (data_action x) mac fits =
      is_some-with_state mac (process_data x) ∙ process_data-Fits x fits
  process_input-stops sleep key bsn dsn (mlme_request x) mac fits = refl
  process_input-stops sleep key bsn dsn (mlme_response x) mac fits = refl
  process_input-stops sleep key bsn dsn (mcps_request x) mac fits = refl
  process_input-stops sleep key bsn dsn (radio_input (packet_received packet)) mac fits =
      process_radio_packet-reads packet mac
  process_input-stops sleep key bsn dsn (radio_input (param_set k p r)) mac fits = refl
  process_input-stops sleep key bsn dsn (radio_input (param_got k p r)) mac fits = refl
  process_input-stops sleep key bsn dsn (radio_input (pending_data_table_initialized k r)) mac
        fits =
      refl
  process_input-stops sleep key bsn dsn (radio_input (power_set k p r)) mac fits = refl
  process_input-stops sleep key bsn dsn (radio_input (packet_sent k r)) mac fits = refl
  process_input-stops sleep key bsn dsn (radio_input (pending_short_set k r)) mac fits = refl
  process_input-stops sleep key bsn dsn (radio_input (pending_extended_set k r)) mac fits = refl
