-- ===== src/Mac/Management/Handlers.antt =====
-- The requests of the MLME and the frames for it: what they leave of the PIB and of the parameters.
use zigbee_rust_playground.Common.{
  ℕ, ◌==◌, ◌≡◌, refl, ◌∙◌, inl, inr, arith, Bool, true, false, not, ◌||◌, Bool-cases, Option-cases,
  Option, none, some, Result, ok, err,
}
use zigbee_rust_playground.Common.Assoc.{lookup}
use zigbee_rust_playground.Radio.{
  RawRadioParam, RadioParamValue, channel, pan_id, short_address, rx_mode, tx_power,
}
use zigbee_rust_playground.Radio.Params.{param_key, value_eq}
use zigbee_rust_playground.Bimap.{BiMap}
use zigbee_rust_playground.Frame.Types.{
  Frame, FrameType, Command, beacon_request, association_request, short_eq, invalid,
}
use zigbee_rust_playground.Pib.{Pib, Error, set, next_beacon_sequence_nr}
use zigbee_rust_playground.Services.Mlme
use zigbee_rust_playground.Services.Mlme.{
  Confirm, reset_confirm, start_confirm, beacon_confirm, get_confirm, set_confirm,
}
use zigbee_rust_playground.Mac.DataService.{DataService}
use zigbee_rust_playground.Mac.Management.{
  ManagementService, RadioParams, process_mlme_beacon_request, process_mlme_set_request,
  process_mlme_start_request, process_mlme_reset_request, process_mlme_request, process_frame,
  process_frame_beacon_request, update_radio_parameters, update_radio_parameter,
}
use zigbee_rust_playground.Mac.Management.Requested.{
  Agrees, update_radio_parameters-Agrees, new-Agrees,
}

-- A sequence number of the PIB that moves on leaves what the radio is asked for.
next_beacon_sequence_nr-Agrees :
    (pib : Pib) (params : RadioParams)
    → Agrees pib params
    → Agrees (next_beacon_sequence_nr pib).1 params
unfolding next_beacon_sequence_nr
next_beacon_sequence_nr-Agrees pib params a = record {
  channel_value = a.channel_value;
  pan_value = a.pan_value;
  address_value = a.address_value;
  mode_value = a.mode_value;
  power_value = a.power_value;
}

abbrev failed {ℓ} : {A : Type ℓ} → Result Error A → Bool
failed (err e) = true
failed (ok x) = false

-- Of an answer with the PIB and the service after it: they agree, and an error changed neither the
-- PIB nor the frames to send.
record IsSound {ℓ} {A : Type ℓ} (pib : Pib) (s : ManagementService) (r : Result Error A)
    (pib' : Pib) (s' : ManagementService) : Type ℓ where
  agree : Agrees pib s.radio_params → Agrees pib' s'.radio_params
  same_pib : failed r ≡ true → pib' ≡ pib
  same_frames : failed r ≡ true → s'.outgoing ≡ s.outgoing

process_mlme_beacon_request-IsSound :
    (pib : Pib) (request : Mlme.BeaconRequest) (s : ManagementService)
    → (let (r, pib', s') = process_mlme_beacon_request pib request s in IsSound pib s r pib' s')
unfolding process_mlme_beacon_request
process_mlme_beacon_request-IsSound pib request s =
    elim (Bool-cases (
      not (request.superframe_order == 15)
      || (not (request.channel == pib.phy_current_channel) || not (request.channel_page == 0)))) [
        | inl bad ↦
            rw (bad) (record { agree = λ a. a; same_pib = λ e. refl; same_frames = λ e. refl })
        | inr good ↦ rw (good) (record {
          agree = next_beacon_sequence_nr-Agrees pib s.radio_params;
          same_pib = λ e. absurd (ground (arith, e));
          same_frames = λ e. absurd (ground (arith, e));
        })
      ]

update_radio_parameter-outgoing :
    (p : RawRadioParam) (v : RadioParamValue) (s : ManagementService)
    → (update_radio_parameter p v s).outgoing ≡ s.outgoing
unfolding update_radio_parameter
update_radio_parameter-outgoing p v s = elim (Option-cases (lookup p s.radio_params)) [
  | inl absent ↦ rw (absent, update_radio_parameter) refl
  | inr (info, known) ↦ elim (Bool-cases (value_eq info.requested_value v)) [
    | inr changed ↦ rw (known, changed, update_radio_parameter) refl
    | inl same ↦ rw (known, same, update_radio_parameter) refl
  ]
]

pub update_radio_parameters-outgoing :
    (pib : Pib) (s : ManagementService) → (update_radio_parameters pib s).outgoing ≡ s.outgoing
unfolding update_radio_parameters
update_radio_parameters-outgoing pib s =
    update_radio_parameter-outgoing tx_power _ _
    ∙ update_radio_parameter-outgoing rx_mode _ _
    ∙ update_radio_parameter-outgoing short_address _ _
    ∙ update_radio_parameter-outgoing pan_id _ _
    ∙ update_radio_parameter-outgoing channel _ s

process_mlme_set_request-IsSound :
    (pib : Pib) (request : Mlme.SetRequest) (s : ManagementService) (r : Result Error Pib)
    → set request.attribute request.value pib ≡ r
    → (let (r, pib', s') = process_mlme_set_request pib request s in IsSound pib s r pib' s')
unfolding process_mlme_set_request
process_mlme_set_request-IsSound pib request s (err e) same =
    rw (same, process_mlme_set_request)
      (record {
        agree = λ a. update_radio_parameters-Agrees pib s;
        same_pib = λ h. refl;
        same_frames = λ h. update_radio_parameters-outgoing pib s;
      })
process_mlme_set_request-IsSound pib request s (ok pib') same =
    rw (same, process_mlme_set_request)
      (record {
        agree = λ a. update_radio_parameters-Agrees pib' s;
        same_pib = λ h. absurd (ground (arith, h));
        same_frames = λ h. absurd (ground (arith, h));
      })

process_mlme_start_request-IsSound :
    (pib : Pib) (request : Mlme.StartRequest) (s : ManagementService)
    → (let (r, pib', s') = process_mlme_start_request pib request s in IsSound pib s r pib' s')
unfolding process_mlme_start_request
process_mlme_start_request-IsSound pib request s =
    elim (Bool-cases (short_eq pib.mac_short_address invalid)) [
      | inl without ↦
          rw without (record { agree = λ a. a; same_pib = λ h. refl; same_frames = λ h. refl })
      | inr addressed ↦
          elim (Bool-cases (
            not (request.channel_page == 0)
            || (not (request.start_time == 0)
                || (not (request.beacon_order == 15)
                    || (not (request.superframe_order == 15)
                        || (not request.pan_coordinator || request.battery_life_extension)))))) [
                          | inl bad ↦
                              rw (addressed, bad)
                                (record {
                                  agree = λ a. a;
                                  same_pib = λ h. refl;
                                  same_frames = λ h. refl;
                                })
                          | inr good ↦
                              rw (addressed, good)
                                (record {
                                  agree = λ a. update_radio_parameters-Agrees _ s;
                                  same_pib = λ h. absurd (ground (arith, h));
                                  same_frames = λ h. absurd (ground (arith, h));
                                })
                        ]
    ]

-- Whether an answer of the MLME is an error.
abbrev pub refused : Option Confirm → Bool
refused none = false
refused (some (reset_confirm r)) = failed r
refused (some (start_confirm r)) = failed r
refused (some (beacon_confirm r)) = failed r
refused (some (get_confirm attribute r)) = failed r
refused (some (set_confirm attribute r)) = failed r

module _ {Timer M : Type 0} ⦃b : BiMap M⦄ where
  -- Where the radio's parameters are asked to have the PIB's values, they are after any request.
  pub process_mlme_request-Agrees :
      (bsn dsn : ℕ) (pib : Pib) (data_service : DataService Timer M) (request : Mlme.Request)
      (s : ManagementService)
      → Agrees pib s.radio_params
      → Agrees
          (process_mlme_request bsn dsn pib data_service request s).1
          (process_mlme_request bsn dsn pib data_service request s).3.radio_params
  unfolding process_mlme_request process_mlme_reset_request
  process_mlme_request-Agrees bsn dsn pib d (Mlme.beacon_request r) s a =
      let sound = process_mlme_beacon_request-IsSound pib r s in sound.agree a
  process_mlme_request-Agrees bsn dsn pib d (Mlme.reset_request r) s a = new-Agrees _
  process_mlme_request-Agrees bsn dsn pib d (Mlme.start_request r) s a =
      let sound = process_mlme_start_request-IsSound pib r s in sound.agree a
  process_mlme_request-Agrees bsn dsn pib d (Mlme.get_request r) s a = a
  process_mlme_request-Agrees bsn dsn pib d (Mlme.set_request r) s a =
      let sound = process_mlme_set_request-IsSound pib r s _ refl in sound.agree a

  -- A request that is answered with an error leaves the PIB, the data service and the frames to send.
  pub process_mlme_request-refused :
      (bsn dsn : ℕ) (pib : Pib) (data_service : DataService Timer M) (request : Mlme.Request)
      (s : ManagementService)
      → refused (process_mlme_request bsn dsn pib data_service request s).0 ≡ true
      → ((process_mlme_request bsn dsn pib data_service request s).1 ≡ pib)
        × ((process_mlme_request bsn dsn pib data_service request s).2 ≡ data_service)
        × ((process_mlme_request bsn dsn pib data_service request s).3.outgoing ≡ s.outgoing)
  unfolding process_mlme_request process_mlme_reset_request
  process_mlme_request-refused bsn dsn pib d (Mlme.beacon_request r) s h =
      let sound = process_mlme_beacon_request-IsSound pib r s in
      (sound.same_pib h, refl, sound.same_frames h)
  process_mlme_request-refused bsn dsn pib d (Mlme.reset_request r) s h = absurd (ground (arith, h))
  process_mlme_request-refused bsn dsn pib d (Mlme.start_request r) s h =
      let sound = process_mlme_start_request-IsSound pib r s in
      (sound.same_pib h, refl, sound.same_frames h)
  process_mlme_request-refused bsn dsn pib d (Mlme.get_request r) s h = (refl, refl, refl)
  process_mlme_request-refused bsn dsn pib d (Mlme.set_request r) s h =
      let sound = process_mlme_set_request-IsSound pib r s _ refl in
      (sound.same_pib h, refl, sound.same_frames h)

process_frame_beacon_request-Agrees :
    (pib : Pib) (frame : Frame) (s : ManagementService)
    → Agrees pib s.radio_params
    → Agrees
        (process_frame_beacon_request pib frame s).1
        (process_frame_beacon_request pib frame s).2.radio_params
unfolding process_frame_beacon_request
process_frame_beacon_request-Agrees pib frame s a =
    let sound = process_mlme_beacon_request-IsSound pib _ s in
    elim (Bool-cases pib.mac_beacon_auto_respond) [
      | inl answers ↦ simp answers (sound.agree a)
      | inr asks ↦ simp asks a
    ]

process_frame_of :
    (pib : Pib) (frame : Frame) (s : ManagementService) (t : FrameType)
    → frame.frame_type ≡ t
    → Agrees pib s.radio_params
    → Agrees (process_frame pib frame s).1 (process_frame pib frame s).2.radio_params
unfolding process_frame
process_frame_of pib frame s (FrameType.command beacon_request) same a =
    rw (same, process_frame) (process_frame_beacon_request-Agrees pib frame s a)
process_frame_of pib frame s (FrameType.command (association_request c)) same a =
    rw (same, process_frame) a
process_frame_of pib frame s (FrameType.command (Command.association_response c)) same a =
    rw (same, process_frame) a
process_frame_of pib frame s (FrameType.command Command.data_request) same a =
    rw (same, process_frame) a
process_frame_of pib frame s (FrameType.beacon x) same a = rw (same, process_frame) a
process_frame_of pib frame s (FrameType.ack x) same a = rw (same, process_frame) a
process_frame_of pib frame s (FrameType.data_frame x) same a = rw (same, process_frame) a
process_frame_of pib frame s (FrameType.reserved x) same a = rw (same, process_frame) a
process_frame_of pib frame s (FrameType.multipurpose x) same a = rw (same, process_frame) a
process_frame_of pib frame s (FrameType.fragment x) same a = rw (same, process_frame) a
process_frame_of pib frame s (FrameType.extended x) same a = rw (same, process_frame) a

pub process_frame-Agrees :
    (pib : Pib) (frame : Frame) (s : ManagementService)
    → Agrees pib s.radio_params
    → Agrees (process_frame pib frame s).1 (process_frame pib frame s).2.radio_params
process_frame-Agrees pib frame s a = process_frame_of pib frame s frame.frame_type refl a
