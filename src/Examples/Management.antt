-- ===== src/Examples/Management.antt =====
-- Runs of the management service and of the loop of the MAC.
use zigbee_rust_playground.Common.{
  ℕ, ◌<◌, ok, ◌≡◌, ◌≢◌, refl, arith, none, some, is_some, not, List, true, false,
}
use zigbee_rust_playground.Common.Assoc.{lookup, store, map_values, AllValues, AllValues-lookup}
use zigbee_rust_playground.Bitfield.{Bitfield, arithmetic}
use zigbee_rust_playground.Frame.Types.{ExtendedAddress}
use zigbee_rust_playground.Pib.{
  Pib, PibValue, Error, mac_short_address, mac_extended_address, set, assign, try_short_address,
}
use zigbee_rust_playground.Pib as Attributes
use zigbee_rust_playground.Radio.{RawRadioParam, channel, value_u16, param_number}
use zigbee_rust_playground.Radio.Params.{param_key}
use zigbee_rust_playground.Services.Mlme
use zigbee_rust_playground.Mac.Waker.{Poll, ready, pending, wake}
use zigbee_rust_playground.Mac.Waker
use zigbee_rust_playground.Mac.DataService.{DataService}
use zigbee_rust_playground.Mac.DataService
use zigbee_rust_playground.Mac.Management.{
  RadioParamInfo, set_param, new, poll_action, poll_params, update_radio_parameters,
  update_radio_parameter, process_set_param_result, settle, process_mlme_request,
  process_mlme_set_request,
}
use zigbee_rust_playground.Mac.Management.Requested.{Agrees, new-Agrees}
use zigbee_rust_playground.Mac.Management.Handlers.{
  refused, process_mlme_request-Agrees, process_mlme_request-refused,
}
use zigbee_rust_playground.Mac.Management.Sync.{
  System, Reach, start, step, polled, carried_out, put, reach-synced,
}
use zigbee_rust_playground.Mac.DataService.Held.{holds}
use zigbee_rust_playground.Mac.DataService.Total.{total}
use zigbee_rust_playground.Mac.Service.Reach as Loop
use zigbee_rust_playground.Mac.Service.Reach.{reach-Agrees, poll_next_input-total}
use zigbee_rust_playground.Mac.Service.Once.{process_polled-stops}
use zigbee_rust_playground.Mac.Service
use zigbee_rust_playground.Mac.Service.{
  management_action, mlme_request, poll_next_input, MacInput, radio_input, MacData, process_input,
}
use zigbee_rust_playground.Mac.Service.Stops.{is_garbled}
use zigbee_rust_playground.Examples.Queues.{pib}
use zigbee_rust_playground.Examples.Bimaps.{Change, changes}

instance bits : Bitfield
bits = arithmetic

abbrev first : System
first = record { service = new pib; device = λ p. none; sent = λ p. none }

abbrev asked : System
asked = record first {
  service = (poll_action 1 0 first.service).1;
  sent = put channel (some (value_u16 11)) first.sent;
}

abbrev answered : System
answered = record asked {
  service = process_set_param_result 1 true asked.service;
  device = put channel (asked.sent channel) asked.device;
}

abbrev busy : RadioParamInfo
busy = record { requested_value = value_u16 11; updating = some 1; dirty = false }

abbrev known : RadioParamInfo
known = record { requested_value = value_u16 11; updating = none; dirty = false }

first-waits : AllValues (λ i. i.updating ≡ none) first.service.radio_params
unfolding new update_radio_parameters update_radio_parameter lookup store param_number wake
    Waker.new Attributes.new
first-waits = (refl, (refl, (refl, (refl, (refl, tt)))))

first-free :
    (j : RawRadioParam) (info : RadioParamInfo)
    → lookup j first.service.radio_params ≡ some info
    → info.updating ≢ some 1
first-free j info h taken = absurd (
    ground (
      arith,
      taken,
      AllValues-lookup (λ i. i.updating ≡ none) j info first.service.radio_params first-waits h,
    ))

asked-answer :
    poll_action 1 0 first.service ≡ (ready (set_param 1 channel (value_u16 11)), asked.service)
unfolding poll_action poll_params new update_radio_parameters update_radio_parameter lookup store
    param_number wake Waker.new Attributes.new
asked-answer = refl

asked-busy : lookup channel asked.service.radio_params ≡ some busy
unfolding poll_action poll_params new update_radio_parameters update_radio_parameter lookup store
    param_number wake Waker.new Attributes.new
asked-busy = refl

answered-known : lookup channel answered.service.radio_params ≡ some known
unfolding poll_action poll_params new update_radio_parameters update_radio_parameter lookup store
    param_number wake Waker.new Attributes.new process_set_param_result map_values settle
answered-known = refl

answered-Reach : Reach answered
answered-Reach =
    step
      (step (start pib (λ p. none) (λ p. none))
        (polled 1 0 channel (value_u16 11) asked.service first-free asked-answer))
      (carried_out 1 channel busy asked-busy refl)

reach-synced_example : answered.device channel ≡ some (value_u16 11)
reach-synced_example = reach-synced answered channel known answered-Reach answered-known refl refl

abbrev set_address : Mlme.Request
set_address = Mlme.set_request (record {
  attribute = mac_short_address;
  value = PibValue.short_address (record { value = 9 });
})

process_mlme_request-Agrees_example :
    Agrees
      (process_mlme_request {Timer = ℕ} {M = List Change} 1 2 pib DataService.new set_address
        (new pib)).1
      (process_mlme_request {Timer = ℕ} {M = List Change} 1 2 pib DataService.new set_address
        (new pib)).3.radio_params
process_mlme_request-Agrees_example =
    process_mlme_request-Agrees 1 2 pib DataService.new set_address (new pib) (new-Agrees pib)

abbrev set_extended : Mlme.Request
set_extended =
    Mlme.set_request (record { attribute = mac_extended_address; value = PibValue.empty })

set_extended-refused :
    refused
      (process_mlme_request {Timer = ℕ} {M = List Change} 1 2 pib DataService.new set_extended
        (new pib)).0
    ≡ true
unfolding process_mlme_request process_mlme_set_request set
set_extended-refused = refl

process_mlme_request-refused_example :
    ((process_mlme_request {Timer = ℕ} {M = List Change} 1 2 pib DataService.new set_extended
        (new pib)).1
      ≡ pib)
    × ((process_mlme_request {Timer = ℕ} {M = List Change} 1 2 pib DataService.new set_extended
          (new pib)).2
        ≡ DataService.new)
    × ((process_mlme_request {Timer = ℕ} {M = List Change} 1 2 pib DataService.new set_extended
          (new pib)).3.outgoing
        ≡ (new pib).outgoing)
process_mlme_request-refused_example =
    process_mlme_request-refused 1 2 pib DataService.new set_extended (new pib) set_extended-refused

abbrev address : ExtendedAddress
address = record { value = 77 }

abbrev started : MacData ℕ (List Change)
started = Service.new 1 2 address 11 20

abbrev addressed : MacData ℕ (List Change)
addressed = (Service.process_mlme_request 5 6 set_address started).1

addressed-processed :
    process_input (λ n. n) 1 5 6 (mlme_request set_address) started
    ≡ some ((Service.process_mlme_request 5 6 set_address started).0, addressed)
unfolding process_input
addressed-processed = refl

addressed-Reach : Loop.Reach addressed
addressed-Reach =
    Loop.step (Loop.start 1 2 address 11 20)
      (Loop.processed (λ n. n) 1 5 6 (mlme_request set_address) _ addressed addressed-processed)

reach-Agrees_example :
    Agrees addressed.pib addressed.management.radio_params
    × ((handle key : ℕ)
        → changes.has addressed.data_service.msdu_handles handle key ≡ true
        → holds key addressed.data_service.queues ≡ true)
reach-Agrees_example = reach-Agrees addressed addressed-Reach

started-total : total started.data_service.queues < 3
unfolding total Service.new DataService.new
started-total = omega arith

poll_next_input-total_example :
    (x : Poll MacInput) × (mac' : MacData ℕ (List Change)) × (poll_next_input 3
        (λ t. false)
        1
        0
        pending
        pending
        pending
        started
      ≡ ok (x, mac'))
poll_next_input-total_example =
    poll_next_input-total 3 (λ t. false) 1 0 pending pending pending started
      (Loop.start 1 2 address 11 20) started-total

abbrev first_input : MacInput
first_input = management_action (set_param 1 channel (value_u16 11))

abbrev polled_once : MacData ℕ (List Change)
polled_once = record started { management = (poll_action 1 0 started.management).1 }

polled_once-answer :
    poll_next_input 3 (λ t. false) 1 0 pending pending pending started
    ≡ ok (ready first_input, polled_once)
unfolding poll_next_input poll_action poll_params new update_radio_parameters update_radio_parameter
    lookup store param_number wake Waker.new Attributes.new Service.new
polled_once-answer = refl

process_polled-stops_example :
    is_some (process_input (λ n. n) 2 5 6 first_input polled_once) ≡ not (is_garbled first_input)
process_polled-stops_example =
    process_polled-stops 3 (λ t. false) 1 0 pending pending pending first_input started polled_once
      (λ n. n) 2 5 6 (Loop.start 1 2 address 11 20) polled_once-answer
