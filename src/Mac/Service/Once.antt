-- ===== src/Mac/Service/Once.antt =====
-- One round of the loop of the MAC: an input that a poll yields is processed.
use zigbee_rust_playground.Common.{ℕ, ◌≡◌, inl, inr, arith, Bool, not, is_some, ok}
use mathlib.Core.Path.{subst}
use zigbee_rust_playground.Bitfield.{Bitfield}
use zigbee_rust_playground.Bimap.{BiMap}
use zigbee_rust_playground.Radio.{RadioResponse}
use zigbee_rust_playground.Services.Mcps
use zigbee_rust_playground.Services.Mlme
use zigbee_rust_playground.Mac.Waker.{Poll, ready, pending, Poll-cases}
use zigbee_rust_playground.Mac.DataService.{DataService, DataServiceAction}
use zigbee_rust_playground.Mac.DataService
use zigbee_rust_playground.Mac.DataService.Fits.{FitsPoll, poll_action-AllFit}
use zigbee_rust_playground.Mac.Management.{ManagementServiceAction}
use zigbee_rust_playground.Mac.Management
use zigbee_rust_playground.Mac.Management.Fits.{FitsAction, poll_action-FramesFit}
use zigbee_rust_playground.Mac.Service.{
  MacInput, radio_input, mcps_request, management_action, data_action, MacData, poll_next_input,
  process_input, or_else, map_poll, from_mlme,
}
use zigbee_rust_playground.Mac.Service.Stops.{Fits, is_garbled, process_input-stops, Result-cases}
use zigbee_rust_playground.Mac.Service.Reach.{Reach, IsSound, reach-IsSound}

abbrev FitsInput : Poll MacInput → Type 0
FitsInput (ready i) = Fits i
FitsInput pending = Unit {0}

management-FitsInput :
    (x : ManagementServiceAction) → FitsAction (ready x) → Fits (management_action x)
management-FitsInput (ManagementServiceAction.send_frame frame) h = h
management-FitsInput (ManagementServiceAction.set_param key p v) h = tt

data-FitsInput :
    (x : Poll DataServiceAction) (rest : Poll MacInput)
    → FitsPoll x
    → FitsInput rest
    → FitsInput (or_else (map_poll data_action x) rest)
data-FitsInput pending rest h h' = h'
data-FitsInput (ready (DataServiceAction.send_data key frame)) rest h h' = h
data-FitsInput (ready (DataServiceAction.init_pending_table key)) rest h h' = tt
data-FitsInput (ready (DataServiceAction.set_pending_short key i v)) rest h h' = tt
data-FitsInput (ready (DataServiceAction.set_pending_extended key i v)) rest h h' = tt
data-FitsInput (ready (DataServiceAction.confirm c)) rest h h' = tt

-- The inputs of the channels have no frame sent.
channels-FitsInput :
    (radio : Poll RadioResponse) (mlme : Poll Mlme.Input) (mcps : Poll Mcps.Request)
    → FitsInput (
        or_else
          (map_poll radio_input radio)
          (or_else (map_poll from_mlme mlme) (map_poll mcps_request mcps)))
unfolding from_mlme
channels-FitsInput (ready r) mlme mcps = tt
channels-FitsInput pending (ready (Mlme.request_input x)) mcps = tt
channels-FitsInput pending (ready (Mlme.response_input x)) mcps = tt
channels-FitsInput pending pending (ready x) = tt
channels-FitsInput pending pending pending = tt

module _ {Timer M : Type 0} ⦃b : BiMap M⦄ ⦃f : Bitfield⦄ where
  poll_next_input-FitsInput :
      (fuel : ℕ) (expired : Timer → Bool) (key cx : ℕ) (radio : Poll RadioResponse)
      (mlme : Poll Mlme.Input) (mcps : Poll Mcps.Request) (x : Poll MacInput)
      (mac mac' : MacData Timer M)
      → poll_next_input fuel expired key cx radio mlme mcps mac ≡ ok (x, mac')
      → IsSound mac
      → FitsInput x
  unfolding poll_next_input
  poll_next_input-FitsInput fuel expired key cx radio mlme mcps x mac mac' h i =
      let (frames, sendable) = poll_action-FramesFit key cx mac.management i.frames in
      elim (Poll-cases (Management.poll_action key cx mac.management).0) [
        | inr (action, answer) ↦
            let h' = rw (answer, poll_next_input) at h in
            subst FitsInput {x = ready (management_action action)} {y = x} (ground (arith, h'))
              (management-FitsInput action (rw answer at sendable))
        | inl waits ↦
            elim (Result-cases
              (DataService.poll_action fuel expired key cx mac.pib mac.data_service)) [
                | inl (stop, stopped) ↦
                    let h' = rw (waits, stopped, poll_next_input) at h in
                    absurd (ground (arith, h'))
                | inr ((y, pib, s), returned) ↦
                    let h' = rw (waits, returned, poll_next_input) at h in
                    let fits =
                      (poll_action-AllFit fuel expired key cx mac.pib mac.data_service y pib s
                        returned i.fits).1 in
                    subst FitsInput {y = x} (ground (arith, h'))
                      (data-FitsInput y _ fits (channels-FitsInput radio mlme mcps))
              ]
      ]

  -- In a reachable state of the MAC, processing the input that a poll yields panics exactly where it is a
  -- packet that `Frame::unpack` refuses.
  pub process_polled-stops :
      (fuel : ℕ) (expired : Timer → Bool) (key cx : ℕ) (radio : Poll RadioResponse)
      (mlme : Poll Mlme.Input) (mcps : Poll Mcps.Request) (i : MacInput)
      (mac mac' : MacData Timer M) (sleep : ℕ → Timer) (key' bsn dsn : ℕ)
      → Reach mac
      → poll_next_input fuel expired key cx radio mlme mcps mac ≡ ok (ready i, mac')
      → is_some (process_input sleep key' bsn dsn i mac') ≡ not (is_garbled i)
  process_polled-stops fuel expired key cx radio mlme mcps i mac mac' sleep key' bsn dsn r h =
      process_input-stops sleep key' bsn dsn i mac' (
        poll_next_input-FitsInput fuel expired key cx radio mlme mcps (ready i) mac mac' h
          (reach-IsSound mac r))
