-- ===== src/Mac/Management/Requested.antt =====
-- The values that the radio's parameters are asked to have, along the operations of management.rs.
use zigbee_rust_playground.Common.{
  ℕ, ◌≡◌, refl, ap, ◌∙◌, inl, inr, arith, if◌then◌else◌, Bool, not, ◌&&◌, Bool-cases, Option-cases,
  Option, none, some, is_some, List, [], ◌∷◌,
}
use zigbee_rust_playground.Common.Assoc.{lookup, store, lookup-store, map_values}
use zigbee_rust_playground.Frame.Types.{Frame}
use zigbee_rust_playground.Pib.{Pib}
use zigbee_rust_playground.Radio.{
  RawRadioParam, channel, pan_id, short_address, rx_mode, tx_power, RadioParamValue, value_u16,
  param_number,
}
use zigbee_rust_playground.Radio.Params.{
  param_key, param_eq, param_eq-elim, value_eq, value_eq-elim,
}
use zigbee_rust_playground.Mac.Management.{
  RadioParamInfo, RadioParams, ManagementService, update_radio_parameter, update_radio_parameters,
  rx_mode_value, new, poll_params, poll_outgoing, poll_action, settle, is_updating,
  process_set_param_result,
}

-- The value that a parameter is asked to have, where the service knows it.
abbrev pub value_of : Option RadioParamInfo → Option RadioParamValue
value_of none = none
value_of (some info) = some info.requested_value

abbrev pub requested : RawRadioParam → RadioParams → Option RadioParamValue
requested p params = value_of (lookup p params)

requested-stored :
    (p j : RawRadioParam) (info : RadioParamInfo) (params : RadioParams)
    → requested j (store p info params)
      ≡ (if param_eq p j then some info.requested_value else requested j params)
requested-stored p j info params = elim (Bool-cases (param_eq p j)) [
  | inl same ↦ rw (lookup-store j p info params, same) refl
  | inr other ↦ rw (lookup-store j p info params, other) refl
]

pub update_radio_parameter-requested :
    (p j : RawRadioParam) (v : RadioParamValue) (s : ManagementService)
    → requested j (update_radio_parameter p v s).radio_params
      ≡ (if param_eq p j then some v else requested j s.radio_params)
unfolding update_radio_parameter
update_radio_parameter-requested p j v s = elim (Option-cases (lookup p s.radio_params)) [
  | inl absent ↦ rw (absent, update_radio_parameter) (requested-stored p j _ s.radio_params)
  | inr (info, known) ↦ elim (Bool-cases (value_eq info.requested_value v)) [
    | inr changed ↦
        rw (known, changed, update_radio_parameter) (requested-stored p j _ s.radio_params)
    | inl same ↦
        rw (known, same, update_radio_parameter)
          (elim (Bool-cases (param_eq p j)) [
            | inr other ↦ ground (arith, other)
            | inl hit ↦
                let there : requested j s.radio_params ≡ some v =
                  rw (← param_eq-elim p j hit)
                    (rw known (ap some (value_eq-elim info.requested_value v same))) in
                ground (arith, hit, there)
          ])
  ]
]

-- The parameters are asked to have the PIB's values, and the fixed mode of reception.
pub record Agrees (pib : Pib) (params : RadioParams) : Type 0 where
  pub channel_value : requested channel params ≡ some (value_u16 pib.phy_current_channel)
  pub pan_value : requested pan_id params ≡ some (value_u16 pib.mac_pan_id.value)
  pub address_value : requested short_address params ≡ some (value_u16 pib.mac_short_address.value)
  pub mode_value : requested rx_mode params ≡ some rx_mode_value
  pub power_value : requested tx_power params ≡ some (value_u16 pib.phy_tx_power)

pub update_radio_parameters-Agrees :
    (pib : Pib) (s : ManagementService) → Agrees pib (update_radio_parameters pib s).radio_params
unfolding update_radio_parameters param_number
update_radio_parameters-Agrees pib s =
    let s1 = update_radio_parameter channel (value_u16 pib.phy_current_channel) s in
    let s2 = update_radio_parameter pan_id (value_u16 pib.mac_pan_id.value) s1 in
    let s3 = update_radio_parameter short_address (value_u16 pib.mac_short_address.value) s2 in
    let s4 = update_radio_parameter rx_mode rx_mode_value s3 in
    let last = λ (j : RawRadioParam).
      update_radio_parameter-requested tx_power j (value_u16 pib.phy_tx_power) s4 in
    let fourth =
      λ (j : RawRadioParam). update_radio_parameter-requested rx_mode j rx_mode_value s3 in
    let third = λ (j : RawRadioParam).
      update_radio_parameter-requested short_address j (value_u16 pib.mac_short_address.value) s2 in
    let second = λ (j : RawRadioParam).
      update_radio_parameter-requested pan_id j (value_u16 pib.mac_pan_id.value) s1 in
    let first = λ (j : RawRadioParam).
      update_radio_parameter-requested channel j (value_u16 pib.phy_current_channel) s in
    record {
      channel_value =
          last channel ∙ fourth channel ∙ third channel ∙ second channel ∙ first channel;
      pan_value = last pan_id ∙ fourth pan_id ∙ third pan_id ∙ second pan_id;
      address_value = last short_address ∙ fourth short_address ∙ third short_address;
      mode_value = last rx_mode ∙ fourth rx_mode;
      power_value = last tx_power;
    }

pub new-Agrees : (pib : Pib) → Agrees pib (new pib).radio_params
unfolding new
new-Agrees pib = update_radio_parameters-Agrees pib _

poll_params-requested :
    (key : ℕ) (j : RawRadioParam) (params : RadioParams)
    → requested j (poll_params key params).1 ≡ requested j params
unfolding lookup poll_params
poll_params-requested key j [] = refl
poll_params-requested key j ((p, info) ∷ ps) =
    let rest = poll_params-requested key j ps in
    elim (Bool-cases (info.dirty && not (is_some info.updating))) [
      | inl due ↦ elim (Bool-cases (param_eq p j)) [
        | inl same ↦ rw (due, same) refl
        | inr other ↦ rw (due, other) refl
      ]
      | inr waits ↦ elim (Bool-cases (param_eq p j)) [
        | inl same ↦ rw (waits, same) refl
        | inr other ↦ rw (waits, other) rest
      ]
    ]

settle-requested :
    (key : ℕ) (result : Bool) (info : RadioParamInfo)
    → (settle key result info).requested_value ≡ info.requested_value
unfolding settle
settle-requested key result info = elim (Bool-cases (is_updating key info)) [
  | inl mine ↦ simp mine refl
  | inr other ↦ simp other refl
]

map_values-requested :
    (key : ℕ) (result : Bool) (j : RawRadioParam) (params : RadioParams)
    → requested j (map_values (settle key result) params) ≡ requested j params
unfolding lookup map_values
map_values-requested key result j [] = refl
map_values-requested key result j ((p, info) ∷ ps) = elim (Bool-cases (param_eq p j)) [
  | inl same ↦ simp same (ap some (settle-requested key result info))
  | inr other ↦ simp other (map_values-requested key result j ps)
]

-- A map that asks for the same values.
Agrees-same :
    (pib : Pib) (params params' : RadioParams)
    → ((j : RawRadioParam) → requested j params' ≡ requested j params)
    → Agrees pib params
    → Agrees pib params'
Agrees-same pib params params' same a = record {
  channel_value = same channel ∙ a.channel_value;
  pan_value = same pan_id ∙ a.pan_value;
  address_value = same short_address ∙ a.address_value;
  mode_value = same rx_mode ∙ a.mode_value;
  power_value = same tx_power ∙ a.power_value;
}

pub poll_outgoing-params :
    (cx : ℕ) (s : ManagementService) (frames : List Frame)
    → (poll_outgoing cx s frames).1.radio_params ≡ s.radio_params
unfolding poll_outgoing
poll_outgoing-params cx s [] = refl
poll_outgoing-params cx s (frame ∷ rest) = refl

pub poll_action-Agrees :
    (pib : Pib) (key cx : ℕ) (s : ManagementService)
    → Agrees pib s.radio_params
    → Agrees pib (poll_action key cx s).1.radio_params
unfolding poll_action
poll_action-Agrees pib key cx s a = elim (Option-cases (poll_params key s.radio_params).0) [
  | inr (action, found) ↦
      rw (found, poll_action)
        (Agrees-same pib s.radio_params _ (λ j. poll_params-requested key j s.radio_params) a)
  | inl idle ↦ rw (idle, poll_action) (rw (poll_outgoing-params cx s s.outgoing) a)
]

pub process_set_param_result-Agrees :
    (pib : Pib) (key : ℕ) (result : Bool) (s : ManagementService)
    → Agrees pib s.radio_params
    → Agrees pib (process_set_param_result key result s).radio_params
unfolding process_set_param_result
process_set_param_result-Agrees pib key result s a =
    Agrees-same pib s.radio_params _ (λ j. map_values-requested key result j s.radio_params) a
