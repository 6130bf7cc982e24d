-- ===== src/Mac/Management/Polled.antt =====
-- What the operations of management.rs do to the entry of one parameter of the radio.
use zigbee_rust_playground.Common.{
  ℕ, ◌≡◌, refl, sym, ◌∙◌, ◌⊎◌, inl, inr, arith, if◌then◌else◌, true, false, not, ◌&&◌, Bool-cases,
  Option-cases, Option, none, some, is_some, [], ◌∷◌,
}
use mathlib.Core.Path.{subst}
use mathlib.Core.Option.{some-injective}
use zigbee_rust_playground.Common.Eq.{beq_ne, beq_false-sym}
use zigbee_rust_playground.Common.Assoc.{
  lookup, store, lookup-store, AreDistinct, AreDistinct-store,
}
use zigbee_rust_playground.Pib.{Pib}
use zigbee_rust_playground.Radio.{
  RawRadioParam, channel, pan_id, short_address, rx_mode, tx_power, RadioParamValue, value_u16,
}
use zigbee_rust_playground.Radio.Params.{
  param_key, param_eq, param_eq-elim, param_eq_refl, value_eq,
}
use zigbee_rust_playground.Mac.Management.{
  RadioParamInfo, RadioParams, ManagementService, ManagementServiceAction, set_param,
  update_radio_parameter, update_radio_parameters, poll_params, rx_mode_value,
}

-- An entry stays as it was, or asks for a new value and keeps the update under way.
abbrev pub Kept : RadioParams → RawRadioParam → RadioParamInfo → Type 0
Kept params p info' =
    (lookup p params ≡ some info')
    ⊎ ((info'.dirty ≡ true)
        × ((info'.updating ≡ none)
            ⊎ ((info : RadioParamInfo) × (lookup p params ≡ some info)
                × (info'.updating ≡ info.updating))))

abbrev pub Asks : RadioParams → RadioParams → Type 0
Asks params params' =
    (p : RawRadioParam) (info' : RadioParamInfo)
    → lookup p params' ≡ some info'
    → Kept params p info'

Asks-trans : (m m' m'' : RadioParams) → Asks m m' → Asks m' m'' → Asks m m''
Asks-trans m m' m'' a a' p info h = elim (a' p info h) [
  | inl same ↦ a p info same
  | inr (dirty, inl fresh) ↦ inr (dirty, inl fresh)
  | inr (dirty, inr (before, there, same)) ↦ elim (a p before there) [
    | inl same' ↦ inr (dirty, inr (before, same', same))
    | inr (dirty', inl fresh) ↦ inr (dirty, inl (same ∙ fresh))
    | inr (dirty', inr (first, there', same')) ↦ inr (dirty, inr (first, there', same ∙ same'))
  ]
]

Asks-stored :
    (p : RawRadioParam) (info : RadioParamInfo) (params : RadioParams)
    → Kept params p info
    → Asks params (store p info params)
Asks-stored p info params k j info' h =
    let found : (if param_eq p j then some info else lookup j params) ≡ some info' =
      sym (lookup-store j p info params) ∙ h in
    elim (Bool-cases (param_eq p j)) [
      | inl same ↦
          let now : info ≡ info' = some-injective info info' (rw same at found) in
          subst (Kept params j) now (subst (λ x. Kept params x info) (param_eq-elim p j same) k)
      | inr other ↦ inl (rw other at found)
    ]

-- The parameters are known once each.
abbrev pub IsAsked : RadioParams → RadioParams → Type 0
IsAsked params params' = Asks params params' × (AreDistinct params → AreDistinct params')

update_radio_parameter-IsAsked :
    (p : RawRadioParam) (v : RadioParamValue) (s : ManagementService)
    → IsAsked s.radio_params (update_radio_parameter p v s).radio_params
unfolding update_radio_parameter
update_radio_parameter-IsAsked p v s = elim (Option-cases (lookup p s.radio_params)) [
  | inl absent ↦
      rw (absent, update_radio_parameter)
        (
          Asks-stored p _ s.radio_params (inr (refl, inl refl)),
          AreDistinct-store p _ s.radio_params,
        )
  | inr (info, known) ↦ elim (Bool-cases (value_eq info.requested_value v)) [
    | inr changed ↦
        rw (known, changed, update_radio_parameter)
          (
            Asks-stored p _ s.radio_params (inr (refl, inr (info, known, refl))),
            AreDistinct-store p _ s.radio_params,
          )
    | inl same ↦ rw (known, same, update_radio_parameter) ((λ j info' h. inl h), λ d. d)
  ]
]

IsAsked-trans : (m m' m'' : RadioParams) → IsAsked m m' → IsAsked m' m'' → IsAsked m m''
IsAsked-trans m m' m'' (a, d) (a', d') = (Asks-trans m m' m'' a a', λ h. d' (d h))

pub update_radio_parameters-IsAsked :
    (pib : Pib) (s : ManagementService)
    → IsAsked s.radio_params (update_radio_parameters pib s).radio_params
unfolding update_radio_parameters
update_radio_parameters-IsAsked pib s =
    let s1 = update_radio_parameter channel (value_u16 pib.phy_current_channel) s in
    let s2 = update_radio_parameter pan_id (value_u16 pib.mac_pan_id.value) s1 in
    let s3 = update_radio_parameter short_address (value_u16 pib.mac_short_address.value) s2 in
    let s4 = update_radio_parameter rx_mode rx_mode_value s3 in
    IsAsked-trans _ s1.radio_params _ (update_radio_parameter-IsAsked channel _ s) (
      IsAsked-trans _ s2.radio_params _ (update_radio_parameter-IsAsked pan_id _ s1) (
        IsAsked-trans _ s3.radio_params _ (update_radio_parameter-IsAsked short_address _ s2) (
          IsAsked-trans _ s4.radio_params _ (update_radio_parameter-IsAsked rx_mode _ s3)
            (update_radio_parameter-IsAsked tx_power _ s4))))

-- The entry of a parameter that is handed out.
abbrev pub handed_out : ℕ → RadioParamInfo → RadioParamInfo
handed_out key info = record info { dirty = false; updating = some key }

-- What a poll of the parameters does: nothing, or it hands one out that is due.
abbrev pub Hands : ℕ → RadioParams → Option ManagementServiceAction × RadioParams → Type 0
Hands key params (none, params') = params' ≡ params
Hands key params (some action, params') =
    (p : RawRadioParam) × (info : RadioParamInfo) × (lookup p params ≡ some info)
    × (info.dirty ≡ true)
    × (info.updating ≡ none)
    × (action ≡ set_param key p info.requested_value)
    × ((j : RawRadioParam)
        → lookup j params' ≡ (if param_eq p j then some (handed_out key info) else lookup j params))
    × AreDistinct params'

Hands-cons :
    (key : ℕ) (q : RawRadioParam) (info : RadioParamInfo) (params : RadioParams)
    (found : Option ManagementServiceAction) (params' : RadioParams)
    → lookup q params ≡ none
    → Hands key params (found, params')
    → Hands key ((q, info) ∷ params) (found, (q, info) ∷ params')
unfolding lookup
Hands-cons key q info params none params' fresh h = rw h refl
Hands-cons key q info params (some action) params' fresh
      (p, i, there, due, free, what, all, distinct) =
    let apart : param_eq q p ≡ false =
      beq_ne q p (λ same. absurd (ground (arith, there, rw same at fresh))) in
    let apart' : param_eq p q ≡ false = beq_false-sym q p apart in
    (
      p,
      i,
      rw apart there,
      due,
      free,
      what,
      (λ j. elim (Bool-cases (param_eq q j)) [
        | inl hit ↦
            let miss : param_eq p j ≡ false = rw (← param_eq-elim q j hit) apart' in
            rw (hit, miss) refl
        | inr other ↦ rw other (all j)
      ]),
      (all q ∙ rw apart' fresh, distinct),
    )

unset :
    (info : RadioParamInfo)
    → (info.dirty && not (is_some info.updating)) ≡ true
    → info.updating ≡ none
unset info due = elim (Option-cases info.updating) [
  | inl free ↦ free
  | inr (key, taken) ↦ absurd (ground (arith, due, taken))
]

pub poll_params-Hands :
    (key : ℕ) (params : RadioParams)
    → AreDistinct params
    → Hands key params (poll_params key params)
unfolding poll_params lookup
poll_params-Hands key [] a = refl
poll_params-Hands key ((q, info) ∷ ps) (a1, a2) =
    elim (Bool-cases (info.dirty && not (is_some info.updating))) [
      | inl due ↦ rw due (
        q,
        info,
        rw (param_eq_refl q) refl,
        ground (arith, due),
        unset info due,
        refl,
        (λ j. elim (Bool-cases (param_eq q j)) [
          | inl hit ↦ rw hit refl
          | inr other ↦ rw other refl
        ]),
        (a1, a2),
      )
      | inr waits ↦ rw waits (
          Hands-cons key q info ps (poll_params key ps).0 (poll_params key ps).1 a1
            (poll_params-Hands key ps a2))
    ]
