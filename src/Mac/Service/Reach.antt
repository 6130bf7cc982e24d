-- ===== src/Mac/Service/Reach.antt =====
-- The states that the loop of the MAC reaches: the services with the PIB that they share.
use zigbee_rust_playground.Common.{
  ℕ, ◌<◌, ◌≡◌, refl, inl, inr, arith, Bool, true, Option, none, some, List, ok,
}
use mathlib.Core.Path.{subst}
use zigbee_rust_playground.Bitfield.{Bitfield}
use zigbee_rust_playground.Bimap.{BiMap}
use zigbee_rust_playground.Frame.Types.{ExtendedAddress}
use zigbee_rust_playground.Frame.Codec.{unpack}
use zigbee_rust_playground.Pib.{Pib}
use zigbee_rust_playground.Radio.{
  RadioResponse, RadioPacket, packet_received, param_set, param_got, pending_data_table_initialized,
  power_set, packet_sent, pending_short_set, pending_extended_set,
}
use zigbee_rust_playground.Services.Mcps
use zigbee_rust_playground.Services.Mlme
use zigbee_rust_playground.Mac.Waker.{Poll, Poll-cases}
use zigbee_rust_playground.Mac.DataService.Tables.{reach-HasTables}
use zigbee_rust_playground.Mac.DataService.{DataService, DataServiceAction, Stop}
use zigbee_rust_playground.Mac.DataService
use zigbee_rust_playground.Mac.DataService.Total.{total, poll_action-total}
use zigbee_rust_playground.Mac.DataService.Held.{holds}
use zigbee_rust_playground.Mac.DataService.Reach as Data
use zigbee_rust_playground.Mac.DataService.Counted.{poll_action-IsCounted}
use zigbee_rust_playground.Mac.Management.{ManagementService}
use zigbee_rust_playground.Mac.Management
use zigbee_rust_playground.Mac.Management.Requested.{
  Agrees, new-Agrees, poll_action-Agrees, process_set_param_result-Agrees,
}
use zigbee_rust_playground.Mac.Management.Handlers.{
  process_mlme_request-Agrees, process_frame-Agrees,
}
use zigbee_rust_playground.Mac.DataService.Fits.{
  AllFit, InsertsFit, poll_action-AllFit, step-AllFit,
}
use zigbee_rust_playground.Mac.Management.Fits.{
  FramesFit, poll_action-FramesFit, new-FramesFit, process_mlme_request-FramesFit,
  process_frame-FramesFit,
}
use zigbee_rust_playground.Mac.Service.{
  MacInput, radio_input, mlme_request, mlme_response, mcps_request, management_action, data_action,
  MacData, Output, is_ok, new, poll_next_input, process_management, process_data,
  process_mlme_request, process_mcps_request, process_radio_packet, process_radio_response,
  process_input, with_state,
}
use zigbee_rust_playground.Mac.Service.Stops.{Result-cases}

counted-Agrees :
    (pib pib' : Pib) (s : ManagementService) (n : ℕ)
    → pib' ≡ record pib { mac_dsn = n }
    → Agrees pib s.radio_params
    → Agrees pib' s.radio_params
counted-Agrees pib pib' s n same a = rw same (record {
  channel_value = a.channel_value;
  pan_value = a.pan_value;
  address_value = a.address_value;
  mode_value = a.mode_value;
  power_value = a.power_value;
})

module _ {Timer M : Type 0} ⦃b : BiMap M⦄ ⦃f : Bitfield⦄ where
  -- One poll for an input, or the processing of any input.
  pub data Step (mac : MacData Timer M) : MacData Timer M → Type 0 where
    polled :
        (fuel : ℕ) (expired : Timer → Bool) (key cx : ℕ) (radio : Poll RadioResponse)
        (mlme : Poll Mlme.Input) (mcps : Poll Mcps.Request) (x : Poll MacInput)
        (mac' : MacData Timer M)
        → poll_next_input fuel expired key cx radio mlme mcps mac ≡ ok (x, mac')
        → Step mac mac'
    processed :
        (sleep : ℕ → Timer) (key bsn dsn : ℕ) (i : MacInput) (outputs : List Output)
        (mac' : MacData Timer M)
        → process_input sleep key bsn dsn i mac ≡ some (outputs, mac')
        → Step mac mac'

  pub data Reach : MacData Timer M → Type 0 where
    start :
        (bsn dsn : ℕ) (extended_address : ExtendedAddress) (current_channel max_tx_power : ℕ)
        → Reach (new bsn dsn extended_address current_channel max_tx_power)
    step : {mac mac' : MacData Timer M} → Reach mac → Step mac mac' → Reach mac'

  -- The radio parameters follow the PIB, the state of the data service is one that it reaches by itself,
  -- and all frames to send can be packed.
  pub record IsSound (mac : MacData Timer M) : Type 0 where
    pub agree : Agrees mac.pib mac.management.radio_params
    pub reach : Data.Reach mac.data_service
    pub fits : AllFit mac.data_service.queues
    pub frames : FramesFit mac.management.outgoing

  -- The data service answered to a poll.
  data_polled-IsSound :
      (fuel : ℕ) (expired : Timer → Bool) (key cx : ℕ) (mac : MacData Timer M)
      (management : ManagementService) (x : Poll DataServiceAction) (pib : Pib)
      (s : DataService Timer M)
      → DataService.poll_action fuel expired key cx mac.pib mac.data_service ≡ ok (x, pib, s)
      → Agrees mac.pib management.radio_params
      → FramesFit management.outgoing
      → IsSound mac
      → IsSound (record { pib = pib; management = management; data_service = s })
  data_polled-IsSound fuel expired key cx mac management x pib s h agree frames i =
      let (n, same) =
        poll_action-IsCounted fuel expired key cx mac.pib mac.data_service x pib s h in
      record {
        agree = counted-Agrees mac.pib pib management n same agree;
        reach = Data.step i.reach (Data.polled fuel expired key cx mac.pib x pib h);
        fits = (poll_action-AllFit fuel expired key cx mac.pib mac.data_service x pib s h i.fits).0;
        frames = frames;
      }

  poll_next_input-IsSound :
      (fuel : ℕ) (expired : Timer → Bool) (key cx : ℕ) (radio : Poll RadioResponse)
      (mlme : Poll Mlme.Input) (mcps : Poll Mcps.Request) (x : Poll MacInput)
      (mac mac' : MacData Timer M)
      → poll_next_input fuel expired key cx radio mlme mcps mac ≡ ok (x, mac')
      → IsSound mac
      → IsSound mac'
  unfolding poll_next_input
  poll_next_input-IsSound fuel expired key cx radio mlme mcps x mac mac' h i =
      let agree = poll_action-Agrees mac.pib key cx mac.management i.agree in
      let (frames, sendable) = poll_action-FramesFit key cx mac.management i.frames in
      let management = (Management.poll_action key cx mac.management).1 in
      elim (Poll-cases (Management.poll_action key cx mac.management).0) [
        | inr (action, answer) ↦
            let h' = rw (answer, poll_next_input) at h in
            subst IsSound {x = record mac { management = management }} {y = mac'}
              (ground (arith, h'))
              (record { agree = agree; reach = i.reach; fits = i.fits; frames = frames })
        | inl waits ↦
            elim (Result-cases
              (DataService.poll_action fuel expired key cx mac.pib mac.data_service)) [
                | inl (stop, stopped) ↦
                    let h' = rw (waits, stopped, poll_next_input) at h in
                    absurd (ground (arith, h'))
                | inr ((y, pib, s), returned) ↦
                    let h' = rw (waits, returned, poll_next_input) at h in
                    subst IsSound
                      {x = record { pib = pib; management = management; data_service = s }}
                      {y = mac'} (ground (arith, h'))
                      (data_polled-IsSound fuel expired key cx mac management y pib s returned agree
                        frames i)
              ]
      ]

  -- An input that only has something sent.
  with_state-IsSound :
      (mac mac' : MacData Timer M) (outputs : Option (List Output)) (out : List Output)
      → with_state mac outputs ≡ some (out, mac')
      → IsSound mac
      → IsSound mac'
  with_state-IsSound mac mac' none out h i = absurd (ground (arith, h))
  with_state-IsSound mac mac' (some x) out h i =
      subst IsSound {x = mac} {y = mac'} (ground (arith, h)) i

  -- A call of the data service.
  data_step-IsSound :
      (mac : MacData Timer M) (s : DataService Timer M) (t : Data.Step mac.data_service s)
      → InsertsFit mac.data_service s t
      → IsSound mac
      → IsSound (record mac { data_service = s })
  data_step-IsSound mac s t inserts i = record {
    agree = i.agree;
    reach = Data.step i.reach t;
    fits = step-AllFit mac.data_service s t inserts i.fits;
    frames = i.frames;
  }

  process_mlme_request-Reach :
      (bsn dsn : ℕ) (pib : Pib) (s : DataService Timer M) (request : Mlme.Request)
      (m : ManagementService)
      → Data.Reach s
      → Data.Reach (Management.process_mlme_request bsn dsn pib s request m).2
  unfolding Management.process_mlme_request Management.process_mlme_reset_request
  process_mlme_request-Reach bsn dsn pib s (Mlme.beacon_request r) m h = h
  process_mlme_request-Reach bsn dsn pib s (Mlme.reset_request r) m h = Data.start
  process_mlme_request-Reach bsn dsn pib s (Mlme.start_request r) m h = h
  process_mlme_request-Reach bsn dsn pib s (Mlme.get_request r) m h = h
  process_mlme_request-Reach bsn dsn pib s (Mlme.set_request r) m h = h

  process_mlme_request-AllFit :
      (bsn dsn : ℕ) (pib : Pib) (s : DataService Timer M) (request : Mlme.Request)
      (m : ManagementService)
      → AllFit s.queues
      → AllFit (Management.process_mlme_request bsn dsn pib s request m).2.queues
  unfolding Management.process_mlme_request Management.process_mlme_reset_request DataService.new
  process_mlme_request-AllFit bsn dsn pib s (Mlme.beacon_request r) m h = h
  process_mlme_request-AllFit bsn dsn pib s (Mlme.reset_request r) m h = tt
  process_mlme_request-AllFit bsn dsn pib s (Mlme.start_request r) m h = h
  process_mlme_request-AllFit bsn dsn pib s (Mlme.get_request r) m h = h
  process_mlme_request-AllFit bsn dsn pib s (Mlme.set_request r) m h = h

  process_mlme_request-IsSound :
      (bsn dsn : ℕ) (request : Mlme.Request) (mac : MacData Timer M)
      → IsSound mac
      → IsSound (process_mlme_request bsn dsn request mac).1
  unfolding process_mlme_request
  process_mlme_request-IsSound bsn dsn request mac i = record {
    agree =
        process_mlme_request-Agrees bsn dsn mac.pib mac.data_service request mac.management i.agree;
    reach =
        process_mlme_request-Reach bsn dsn mac.pib mac.data_service request mac.management i.reach;
    fits =
        process_mlme_request-AllFit bsn dsn mac.pib mac.data_service request mac.management i.fits;
    frames =
        process_mlme_request-FramesFit bsn dsn mac.pib mac.data_service request mac.management
          i.frames;
  }

  process_mlme_response-IsSound :
      (sleep : ℕ → Timer) (key : ℕ) (response : Mlme.Response) (mac : MacData Timer M)
      → IsSound mac
      → IsSound (record mac {
        data_service = Management.process_mlme_response sleep key mac.pib response mac.data_service;
      })
  unfolding Management.process_mlme_response
  process_mlme_response-IsSound sleep key (Mlme.associate_response a fast status) mac i =
      data_step-IsSound mac _ (Data.inserted sleep mac.pib _) tt i

  process_radio_packet-IsSound :
      (packet : RadioPacket) (outputs : List Output) (mac mac' : MacData Timer M)
      → process_radio_packet packet mac ≡ some (outputs, mac')
      → IsSound mac
      → IsSound mac'
  unfolding process_radio_packet
  process_radio_packet-IsSound packet outputs mac mac' h i =
      elim (Result-cases (unpack packet.bytes)) [
        | inl (e, refused) ↦
            let h' = rw (refused, process_radio_packet) at h in absurd (ground (arith, h'))
        | inr ((frame, rest), read) ↦
            let h' = rw (read, process_radio_packet) at h in
            let (indication, pib, management) =
              Management.process_frame mac.pib frame mac.management in
            subst IsSound
              {x = record {
                pib = pib;
                management = management;
                data_service = DataService.process_frame pib frame mac.data_service;
              }}
              {y = mac'} (ground (arith, h'))
              (record {
                agree = process_frame-Agrees mac.pib frame mac.management i.agree;
                reach = Data.step i.reach (Data.received pib frame);
                fits = step-AllFit mac.data_service _ (Data.received pib frame) tt i.fits;
                frames = process_frame-FramesFit mac.pib frame mac.management i.frames;
              })
      ]

  process_radio_response-IsSound :
      (sleep : ℕ → Timer) (r : RadioResponse) (outputs : List Output) (mac mac' : MacData Timer M)
      → process_radio_response sleep r mac ≡ some (outputs, mac')
      → IsSound mac
      → IsSound mac'
  unfolding process_radio_response
  process_radio_response-IsSound sleep (pending_data_table_initialized key r) o mac mac' h i =
      subst IsSound {y = mac'} (ground (arith, h))
        (data_step-IsSound mac _ (Data.table_cleared key (is_ok r)) tt i)
  process_radio_response-IsSound sleep (pending_short_set key r) o mac mac' h i =
      subst IsSound {y = mac'} (ground (arith, h))
        (data_step-IsSound mac _ (Data.slot_written key (is_ok r)) tt i)
  process_radio_response-IsSound sleep (pending_extended_set key r) o mac mac' h i =
      subst IsSound {y = mac'} (ground (arith, h))
        (data_step-IsSound mac _ (Data.slot_written key (is_ok r)) tt i)
  process_radio_response-IsSound sleep (param_set key p r) o mac mac' h i =
      subst IsSound
        {x = record mac {
          management = Management.process_set_param_result key (is_ok r) mac.management;
        }}
        {y = mac'} (ground (arith, h))
        (record {
          agree = process_set_param_result-Agrees mac.pib key (is_ok r) mac.management i.agree;
          reach = i.reach;
          fits = i.fits;
          frames = unfold Management.process_set_param_result in i.frames;
        })
  process_radio_response-IsSound sleep (packet_received packet) o mac mac' h i =
      process_radio_packet-IsSound packet o mac mac' h i
  process_radio_response-IsSound sleep (packet_sent key r) o mac mac' h i =
      subst IsSound {y = mac'} (ground (arith, h))
        (data_step-IsSound mac _ (Data.sent sleep key (is_ok r)) tt i)
  process_radio_response-IsSound sleep (param_got key p r) o mac mac' h i =
      subst IsSound {x = mac} {y = mac'} (ground (arith, h)) i
  process_radio_response-IsSound sleep (power_set key p r) o mac mac' h i =
      subst IsSound {x = mac} {y = mac'} (ground (arith, h)) i

  process_input-IsSound :
      (sleep : ℕ → Timer) (key bsn dsn : ℕ) (input : MacInput) (outputs : List Output)
      (mac mac' : MacData Timer M)
      → process_input sleep key bsn dsn input mac ≡ some (outputs, mac')
      → IsSound mac
      → IsSound mac'
  unfolding process_input process_mcps_request
  process_input-IsSound sleep key bsn dsn (management_action x) o mac mac' h i =
      with_state-IsSound mac mac' (process_management key x) o h i
  process_input-IsSound sleep key bsn dsn (data_action x) o mac mac' h i =
      with_state-IsSound mac mac' (process_data x) o h i
  process_input-IsSound sleep key bsn dsn (mlme_request x) o mac mac' h i =
      subst IsSound {x = (process_mlme_request bsn dsn x mac).1} {y = mac'} (ground (arith, h))
        (process_mlme_request-IsSound bsn dsn x mac i)
  process_input-IsSound sleep key bsn dsn (mlme_response x) o mac mac' h i =
      subst IsSound {y = mac'} (ground (arith, h)) (process_mlme_response-IsSound sleep key x mac i)
  process_input-IsSound sleep key bsn dsn (radio_input x) o mac mac' h i =
      process_radio_response-IsSound sleep x o mac mac' h i
  process_input-IsSound sleep key bsn dsn (mcps_request x) o mac mac' h i =
      subst IsSound {y = mac'} (ground (arith, h))
        (data_step-IsSound mac _ (Data.mcps_requested sleep key mac.pib x) tt i)

  step-IsSound : (mac mac' : MacData Timer M) → Step mac mac' → IsSound mac → IsSound mac'
  step-IsSound mac mac' (polled fuel expired key cx radio mlme mcps x u h) i =
      poll_next_input-IsSound fuel expired key cx radio mlme mcps x mac mac' h i
  step-IsSound mac mac' (processed sleep key bsn dsn input o u h) i =
      process_input-IsSound sleep key bsn dsn input o mac mac' h i

  pub reach-IsSound : (mac : MacData Timer M) → Reach mac → IsSound mac
  unfolding new
  reach-IsSound mac (start bsn dsn a c p) = record {
    agree = new-Agrees _;
    reach = Data.start;
    fits = unfold DataService.new in tt;
    frames = new-FramesFit _;
  }
  reach-IsSound mac' (step {mac} r t) = step-IsSound mac mac' t (reach-IsSound mac r)

  -- In a reachable state of the MAC, the radio's parameters are asked to have the values of the PIB, and
  -- the request of every open handle is in a queue.
  pub reach-Agrees :
      (mac : MacData Timer M)
      → Reach mac
      → Agrees mac.pib mac.management.radio_params
        × ((handle key : ℕ)
            → b.has mac.data_service.msdu_handles handle key ≡ true
            → holds key mac.data_service.queues ≡ true)
  reach-Agrees mac r =
      let i = reach-IsSound mac r in (i.agree, (Data.reach-holds mac.data_service i.reach).1)

  -- In a reachable state of the MAC, a poll for the next input returns, with more rounds of the data
  -- service's loop as fuel than its queues have cost.
  pub poll_next_input-total :
      (fuel : ℕ) (expired : Timer → Bool) (key cx : ℕ) (radio : Poll RadioResponse)
      (mlme : Poll Mlme.Input) (mcps : Poll Mcps.Request) (mac : MacData Timer M)
      → Reach mac
      → total mac.data_service.queues < fuel
      → (x : Poll MacInput) × (mac' : MacData Timer M) × (poll_next_input fuel expired key cx radio
            mlme mcps mac
          ≡ ok (x, mac'))
  unfolding poll_next_input
  poll_next_input-total fuel expired key cx radio mlme mcps mac r less =
      let i = reach-IsSound mac r in
      elim (Poll-cases (Management.poll_action key cx mac.management).0) [
        | inr (action, answer) ↦ rw (answer, poll_next_input) (_, _, refl)
        | inl waits ↦
            let (y, pib, s, returned, h) =
              poll_action-total fuel expired key cx mac.pib mac.data_service
                (reach-HasTables mac.data_service i.reach) less in
            rw (waits, returned, poll_next_input) (_, _, refl)
      ]
