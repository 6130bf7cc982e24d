-- ===== src/Mac/Management/Sync.antt =====
-- The parameters of the radio against what the service asks for, over any interleaving of requests, polls
-- and answers of the radio.
use zigbee_rust_playground.Common.{
  ℕ, ==_iff, ◌≡◌, ◌≢◌, refl, sym, ap, ◌∙◌, ◌⊎◌, inl, inr, arith, if◌then◌else◌, Bool, true, false,
  not, ◌||◌, Bool-cases, Option-cases, Option, none, some, is_some, List, [], ◌∷◌,
}
use mathlib.Core.Option.{some-injective}
use zigbee_rust_playground.Common.Assoc.{
  lookup, map_values, lookup-map_values, AreDistinct, AreDistinct-map_values,
}
use zigbee_rust_playground.Frame.Types.{Frame}
use zigbee_rust_playground.Pib.{Pib}
use zigbee_rust_playground.Radio.{RawRadioParam, RadioParamValue}
use zigbee_rust_playground.Radio.Params.{param_key, param_eq, param_eq-elim, param_eq_refl}
use zigbee_rust_playground.Mac.Waker
use zigbee_rust_playground.Mac.Waker.{WakerStore, Poll, ready, pending}
use zigbee_rust_playground.Mac.Management.{
  RadioParamInfo, RadioParams, ManagementService, ManagementServiceAction, set_param, send_frame,
  update_radio_parameters, new, poll_params, poll_outgoing, poll_action, settle, is_updating,
  process_set_param_result,
}
use zigbee_rust_playground.Mac.Management.Polled.{
  IsAsked, update_radio_parameters-IsAsked, handed_out, Hands, poll_params-Hands,
}

-- The service with the radio's parameters, and the value last sent for each.
pub record System : Type 0 where
  pub service : ManagementService
  pub device : RawRadioParam → Option RadioParamValue
  pub sent : RawRadioParam → Option RadioParamValue

abbrev pub put :
    RawRadioParam
    → Option RadioParamValue
    → (RawRadioParam → Option RadioParamValue)
    → RawRadioParam
    → Option RadioParamValue
put p v device j = if param_eq p j then v else device j

-- What happens to them: requests, which may change the PIB and the frames; polls; and the radio's answer
-- to an update under way. Where it reports a failure, the parameter may have any value. A key that is
-- drawn is new.
pub data Step (s : System) : System → Type 0 where
  requested : (pib : Pib) → Step s (record s { service = update_radio_parameters pib s.service })
  framed :
      (frames : List Frame) → Step s (record s { service = record s.service { outgoing = frames } })
  polled :
      (key cx : ℕ) (p : RawRadioParam) (v : RadioParamValue) (u : ManagementService)
      → ((j : RawRadioParam) (info : RadioParamInfo)
          → lookup j s.service.radio_params ≡ some info
          → info.updating ≢ some key)
      → poll_action key cx s.service ≡ (ready (set_param key p v), u)
      → Step s (record s { service = u; sent = put p (some v) s.sent })
  sent_frame :
      (key cx : ℕ) (frame : Frame) (u : ManagementService)
      → poll_action key cx s.service ≡ (ready (send_frame frame), u)
      → Step s (record s { service = u })
  idle :
      (key cx : ℕ) (u : ManagementService)
      → poll_action key cx s.service ≡ (pending, u)
      → Step s (record s { service = u })
  carried_out :
      (key : ℕ) (p : RawRadioParam) (info : RadioParamInfo)
      → lookup p s.service.radio_params ≡ some info
      → info.updating ≡ some key
      → Step s (record s {
        service = process_set_param_result key true s.service;
        device = put p (s.sent p) s.device;
      })
  failed :
      (key : ℕ) (p : RawRadioParam) (info : RadioParamInfo) (v : Option RadioParamValue)
      → lookup p s.service.radio_params ≡ some info
      → info.updating ≡ some key
      → Step s (record s {
        service = process_set_param_result key false s.service;
        device = put p v s.device;
      })

pub data Reach : System → Type 0 where
  start :
      (pib : Pib) (device sent : RawRadioParam → Option RadioParamValue)
      → Reach (record { service = new pib; device = device; sent = sent })
  step : {s s' : System} → Reach s → Step s s' → Reach s'

-- A parameter that is not dirty has the value that it is asked to have, in the radio or on its way.
record IsSynced (s : System) : Type 0 where
  distinct : AreDistinct s.service.radio_params
  apart :
      (p q : RawRadioParam) (i j : RadioParamInfo) (key : ℕ)
      → lookup p s.service.radio_params ≡ some i
      → lookup q s.service.radio_params ≡ some j
      → i.updating ≡ some key
      → j.updating ≡ some key
      → p ≡ q
  clean :
      (p : RawRadioParam) (info : RadioParamInfo)
      → lookup p s.service.radio_params ≡ some info
      → info.dirty ≡ false
      → (if is_some info.updating then s.sent p else s.device p) ≡ some info.requested_value

-- New values that are asked for.
Asks-IsSynced :
    (s : System) (u : ManagementService)
    → IsAsked s.service.radio_params u.radio_params
    → IsSynced s
    → IsSynced (record s { service = u })
Asks-IsSynced s u (asks, d) h =
    let was : (p : RawRadioParam) (i : RadioParamInfo) (key : ℕ)
        → lookup p u.radio_params ≡ some i
        → i.updating ≡ some key
        → (i' : RadioParamInfo) × (lookup p s.service.radio_params ≡ some i')
          × (i'.updating ≡ some key) =
      λ p i key there busy. elim (asks p i there) [
        | inl same ↦ (i, same, busy)
        | inr (dirty, inl free) ↦ absurd (ground (arith, free, busy))
        | inr (dirty, inr (i', there', same)) ↦ (i', there', sym same ∙ busy)
      ] in
    record {
      distinct = d h.distinct;
      apart = λ p q i j key hp hq hi hj.
          let (i', hp', hi') = was p i key hp hi in
          let (j', hq', hj') = was q j key hq hj in h.apart p q i' j' key hp' hq' hi' hj';
      clean = λ p info there not_dirty. elim (asks p info there) [
        | inl same ↦ h.clean p info same not_dirty
        | inr (dirty, rest) ↦ absurd (ground (arith, dirty, not_dirty))
      ];
    }

same-IsSynced :
    (s : System) (u : ManagementService)
    → u.radio_params ≡ s.service.radio_params
    → IsSynced s
    → IsSynced (record s { service = u })
same-IsSynced s u same h =
    Asks-IsSynced s u ((λ p info at_p. inl (rw same at at_p)), λ d. rw same d) h

-- What a poll answers.
abbrev Polls : ℕ → ManagementService → Poll ManagementServiceAction × ManagementService → Type 0
Polls key s (ready (set_param k p v), u) =
    Hands key s.radio_params (some (set_param k p v), u.radio_params)
Polls key s (ready (send_frame frame), u) = u.radio_params ≡ s.radio_params
Polls key s (pending, u) = u.radio_params ≡ s.radio_params

poll_outgoing-Polls :
    (key cx : ℕ) (s : ManagementService) (frames : List Frame)
    → Polls key s (poll_outgoing cx s frames)
unfolding poll_outgoing
poll_outgoing-Polls key cx s [] = refl
poll_outgoing-Polls key cx s (frame ∷ rest) = refl

handed-Polls :
    (key : ℕ) (s u : ManagementService) (action : ManagementServiceAction)
    → Hands key s.radio_params (some action, u.radio_params)
    → Polls key s (ready action, u)
handed-Polls key s u (set_param k p v) h = h
handed-Polls key s u (send_frame frame) (p, i, there, due, free, what, all, distinct) =
    absurd (ground (arith, what))

poll_action-Polls :
    (key cx : ℕ) (s : ManagementService)
    → AreDistinct s.radio_params
    → Polls key s (poll_action key cx s)
unfolding poll_action
poll_action-Polls key cx s d =
    let hands = poll_params-Hands key s.radio_params d in
    elim (Option-cases (poll_params key s.radio_params).0) [
      | inl none_due ↦ rw (none_due, poll_action) (poll_outgoing-Polls key cx s s.outgoing)
      | inr (action, found) ↦
          rw (found, poll_action)
            (handed-Polls key s (record s { radio_params = (poll_params key s.radio_params).1 })
              action (rw found at hands))
    ]

-- An update that is handed out.
Hands-IsSynced :
    (key : ℕ) (p : RawRadioParam) (v : RadioParamValue) (s : System) (u : ManagementService)
    → ((j : RawRadioParam) (info : RadioParamInfo)
        → lookup j s.service.radio_params ≡ some info
        → info.updating ≢ some key)
    → Hands key s.service.radio_params (some (set_param key p v), u.radio_params)
    → IsSynced s
    → IsSynced (record s { service = u; sent = put p (some v) s.sent })
Hands-IsSynced key p v s u fresh (p', info, there, due, free, what, all, d) h =
    let same_param : p ≡ p' = ground (arith, what) in
    let same_value : v ≡ info.requested_value = ground (arith, what) in
    let entry : (q : RawRadioParam) (i : RadioParamInfo)
        → lookup q u.radio_params ≡ some i
        → ((param_eq p' q ≡ true) × (handed_out key info ≡ i))
          ⊎ ((param_eq p' q ≡ false) × (lookup q s.service.radio_params ≡ some i)) =
      λ q i at_q.
        let now = sym (all q) ∙ at_q in
        elim (Bool-cases (param_eq p' q)) [
          | inl hit ↦ inl (hit, some-injective _ i (rw hit at now))
          | inr miss ↦ inr (miss, rw miss at now)
        ] in
    record {
      distinct = d;
      apart = λ q r i j k hq hr hi hj. elim (entry q i hq) [
        | inl (hit, same) ↦ elim (entry r j hr) [
          | inl (hit', same') ↦ sym (param_eq-elim p' q hit) ∙ param_eq-elim p' r hit'
          | inr (miss', old') ↦
              absurd (fresh r j old' (hj ∙ sym hi ∙ ap (λ x. x.updating) (sym same)))
        ]
        | inr (miss, old) ↦ elim (entry r j hr) [
          | inl (hit', same') ↦
              absurd (fresh q i old (hi ∙ sym hj ∙ ap (λ x. x.updating) (sym same')))
          | inr (miss', old') ↦ h.apart q r i j k old old' hi hj
        ]
      ];
      clean = λ q i at_q not_dirty. elim (entry q i at_q) [
        | inl (hit, same) ↦ rw (← same, same_param, hit) (ap some same_value)
        | inr (miss, old) ↦ rw (same_param, miss) (h.clean q i old not_dirty)
      ];
    }

-- An answer of the radio to the update under way.
settle-old :
    (key : ℕ) (result : Bool) (q : RawRadioParam) (i' : RadioParamInfo) (params : RadioParams)
    → lookup q (map_values (settle key result) params) ≡ some i'
    → (i : RadioParamInfo) × (lookup q params ≡ some i) × (settle key result i ≡ i')
settle-old key result q i' params h =
    let now = sym (lookup-map_values (settle key result) q params) ∙ h in
    elim (Option-cases (lookup q params)) [
      | inl absent ↦ absurd (ground (arith, rw absent at now))
      | inr (i, there) ↦ (i, there, some-injective _ i' (rw there at now))
    ]

is_updating-elim : (key : ℕ) (i : RadioParamInfo) → is_updating key i ≡ true → i.updating ≡ some key
is_updating-elim key i h = elim (Option-cases i.updating) [
  | inl free ↦ absurd (ground (arith, rw free at h))
  | inr (k, busy) ↦ busy ∙ ap some ((==_iff k key).0 (rw busy at h))
]

is_updating-intro :
    (key : ℕ) (i : RadioParamInfo) → i.updating ≡ some key → is_updating key i ≡ true
is_updating-intro key i h = rw h ((==_iff key key).1 refl)

settle-busy :
    (key k : ℕ) (result : Bool) (i : RadioParamInfo)
    → (settle key result i).updating ≡ some k
    → i.updating ≡ some k
unfolding settle
settle-busy key k result i h = elim (Bool-cases (is_updating key i)) [
  | inl mine ↦ absurd (ground (arith, h, mine))
  | inr other ↦ ground (arith, h, other)
]

settle-mine :
    (key : ℕ) (result : Bool) (i : RadioParamInfo)
    → is_updating key i ≡ true
    → settle key result i ≡ record i { updating = none; dirty = i.dirty || not result }
unfolding settle
settle-mine key result i mine = simp mine refl

settle-other :
    (key : ℕ) (result : Bool) (i : RadioParamInfo)
    → is_updating key i ≡ false
    → settle key result i ≡ i
unfolding settle
settle-other key result i other = simp other refl

settled-IsSynced :
    (key : ℕ) (result : Bool) (p : RawRadioParam) (info : RadioParamInfo)
    (x : Option RadioParamValue) (s : System)
    → lookup p s.service.radio_params ≡ some info
    → info.updating ≡ some key
    → (result ≡ true → x ≡ s.sent p)
    → IsSynced s
    → IsSynced (record s {
      service = process_set_param_result key result s.service;
      device = put p x s.device;
    })
unfolding process_set_param_result
settled-IsSynced key result p info x s there busy carried h =
    let params = s.service.radio_params in
    record {
      distinct = AreDistinct-map_values (settle key result) params h.distinct;
      apart = λ q r i' j' k hq hr hi hj.
          let (i, old, same) = settle-old key result q i' params hq in
          let (j, old', same') = settle-old key result r j' params hr in
          h.apart q r i j k old old' (settle-busy key k result i (rw same hi))
            (settle-busy key k result j (rw same' hj));
      clean = λ q i' at_q not_dirty.
          let (i, old, same) = settle-old key result q i' params at_q in
          elim (Bool-cases (is_updating key i)) [
            | inl mine ↦
                let now = is_updating-elim key i mine in
                let is_p : q ≡ p = h.apart q p i info key old there now busy in
                let after = sym (settle-mine key result i mine) ∙ same in
                let states : (i.dirty || not result) ≡ false = rw (← after) at not_dirty in
                let clean_before : i.dirty ≡ false = ground (arith, states) in
                let success : result ≡ true = ground (arith, states) in
                let value : s.sent q ≡ some i.requested_value =
                  rw now at (h.clean q i old clean_before) in
                rw (← after, is_p, param_eq_refl p) (carried success ∙ rw is_p at value)
            | inr other ↦ elim (Bool-cases (param_eq p q)) [
              | inl hit ↦
                  let same_info : info ≡ i =
                    some-injective info i (sym there ∙ rw (param_eq-elim p q hit) old) in
                  absurd (
                    ground (
                      arith,
                      other,
                      is_updating-intro key i (ap (λ y. y.updating) (sym same_info) ∙ busy),
                    ))
              | inr miss ↦
                  let after = sym (settle-other key result i other) ∙ same in
                  rw (← after, miss) (h.clean q i old (rw (← after) at not_dirty))
            ]
          ];
    }

step-IsSynced : (s s' : System) → Step s s' → IsSynced s → IsSynced s'
step-IsSynced s s' (requested pib) h =
    Asks-IsSynced s _ (update_radio_parameters-IsAsked pib s.service) h
step-IsSynced s s' (framed frames) h = record {
  distinct = h.distinct;
  apart = h.apart;
  clean = h.clean;
}
step-IsSynced s s' (polled key cx p v u fresh answer) h =
    Hands-IsSynced key p v s u fresh (rw answer at (poll_action-Polls key cx s.service h.distinct))
      h
step-IsSynced s s' (sent_frame key cx frame u answer) h =
    same-IsSynced s u (rw answer at (poll_action-Polls key cx s.service h.distinct)) h
step-IsSynced s s' (idle key cx u answer) h =
    same-IsSynced s u (rw answer at (poll_action-Polls key cx s.service h.distinct)) h
step-IsSynced s s' (carried_out key p info there busy) h =
    settled-IsSynced key true p info (s.sent p) s there busy (λ e. refl) h
step-IsSynced s s' (failed key p info v there busy) h =
    settled-IsSynced key false p info v s there busy (λ e. absurd (ground (arith, e))) h

new-IsSynced :
    (pib : Pib) (device sent : RawRadioParam → Option RadioParamValue)
    → IsSynced (record { service = new pib; device = device; sent = sent })
unfolding new lookup
new-IsSynced pib device sent =
    let blank : System = record {
      service = record { outgoing = []; waker = Waker.new; radio_params = [] };
      device = device;
      sent = sent;
    } in
    Asks-IsSynced blank _ (update_radio_parameters-IsAsked pib blank.service) (record {
      distinct = tt;
      apart = λ p q i j key hp hq hi hj. absurd (ground (arith, hp));
      clean = λ p info there not_dirty. absurd (ground (arith, there));
    })

reach-IsSynced : (s : System) → Reach s → IsSynced s
reach-IsSynced s (start pib device sent) = new-IsSynced pib device sent
reach-IsSynced s' (step {s} r t) = step-IsSynced s s' t (reach-IsSynced s r)

-- In a reachable state, a parameter that is neither dirty nor being updated has, in the radio, the value
-- that the service asks for.
pub reach-synced :
    (s : System) (p : RawRadioParam) (info : RadioParamInfo)
    → Reach s
    → lookup p s.service.radio_params ≡ some info
    → info.dirty ≡ false
    → info.updating ≡ none
    → s.device p ≡ some info.requested_value
reach-synced s p info r there not_dirty free =
    let inv = reach-IsSynced s r in rw free at (inv.clean p info there not_dirty)
