-- ===== src/Mac/Management/Fits.antt =====
-- The frames that the management service has sent can be packed.
use zigbee_rust_playground.Common.{
  ℕ, ◌==◌, ==_iff, ◌≡◌, refl, inl, inr, arith, not, ◌&&◌, ◌||◌, Bool-cases, Option-cases, some,
  is_some, List, [], ◌∷◌, ◌++◌, Result, ok, err,
}
use mathlib.Core.Path.{subst}
use zigbee_rust_playground.Bimap.{BiMap}
use zigbee_rust_playground.Frame.Types.{
  Frame, FrameType, Command, beacon_request, association_request, short_eq, invalid,
}
use zigbee_rust_playground.Frame.Layout.{BodyFits}
use zigbee_rust_playground.Pib.{Pib, Error, set}
use zigbee_rust_playground.Services.Mlme
use zigbee_rust_playground.Mac.Waker.{Poll, ready, pending}
use zigbee_rust_playground.Mac.DataService.{DataService}
use zigbee_rust_playground.Mac.Management.{
  RadioParams, ManagementService, ManagementServiceAction, set_param, send_frame, new, poll_params,
  poll_outgoing, poll_action, beacon_frame, process_mlme_beacon_request, process_mlme_set_request,
  process_mlme_start_request, process_mlme_reset_request, process_mlme_request, process_frame,
  process_frame_beacon_request,
}
use zigbee_rust_playground.Mac.Management.Handlers.{update_radio_parameters-outgoing}

abbrev pub FramesFit : List Frame → Type 0
FramesFit [] = Unit {0}
FramesFit (f ∷ fs) = BodyFits f.frame_type × FramesFit fs

FramesFit-append :
    (fs : List Frame) (f : Frame)
    → FramesFit fs
    → BodyFits f.frame_type
    → FramesFit (fs ++ (f ∷ []))
FramesFit-append [] f a h = (h, tt)
FramesFit-append (g ∷ fs) f (h', a) h = (h', FramesFit-append fs f a h)

abbrev pub FitsAction : Poll ManagementServiceAction → Type 0
FitsAction (ready (send_frame frame)) = BodyFits frame.frame_type
FitsAction (ready (set_param key p v)) = Unit {0}
FitsAction pending = Unit {0}

poll_params-FitsAction :
    (key : ℕ) (params : RadioParams) (action : ManagementServiceAction)
    → (poll_params key params).0 ≡ some action
    → FitsAction (ready action)
unfolding poll_params
poll_params-FitsAction key [] action h = absurd (ground (arith, h))
poll_params-FitsAction key ((p, info) ∷ ps) action h =
    elim (Bool-cases (info.dirty && not (is_some info.updating))) [
      | inl due ↦
          subst (λ a. FitsAction (ready a)) {x = set_param key p info.requested_value} {y = action}
            (ground (arith, rw due at h)) tt
      | inr waits ↦ poll_params-FitsAction key ps action (rw waits at h)
    ]

poll_outgoing-FramesFit :
    (cx : ℕ) (s : ManagementService) (frames : List Frame)
    → s.outgoing ≡ frames
    → FramesFit frames
    → FramesFit (poll_outgoing cx s frames).1.outgoing × FitsAction (poll_outgoing cx s frames).0
unfolding poll_outgoing
poll_outgoing-FramesFit cx s [] same a = (rw same a, tt)
poll_outgoing-FramesFit cx s (f ∷ fs) same (h, a) = (a, h)

pub poll_action-FramesFit :
    (key cx : ℕ) (s : ManagementService)
    → FramesFit s.outgoing
    → FramesFit (poll_action key cx s).1.outgoing × FitsAction (poll_action key cx s).0
unfolding poll_action
poll_action-FramesFit key cx s a = elim (Option-cases (poll_params key s.radio_params).0) [
  | inl idle ↦ rw (idle, poll_action) (poll_outgoing-FramesFit cx s s.outgoing refl a)
  | inr (action, found) ↦
      rw (found, poll_action) (a, poll_params-FitsAction key s.radio_params action found)
]

process_mlme_beacon_request-FramesFit :
    (pib : Pib) (request : Mlme.BeaconRequest) (s : ManagementService)
    → FramesFit s.outgoing
    → FramesFit (process_mlme_beacon_request pib request s).2.outgoing
unfolding process_mlme_beacon_request beacon_frame
process_mlme_beacon_request-FramesFit pib request s a =
    elim (Bool-cases (
      not (request.superframe_order == 15)
      || (not (request.channel == pib.phy_current_channel) || not (request.channel_page == 0)))) [
        | inl bad ↦ simp bad a
        | inr good ↦
            let order : request.superframe_order ≡ 15 =
              (==_iff request.superframe_order 15).0 (ground (arith, good)) in
            simp good (
              FramesFit-append s.outgoing (beacon_frame pib request) a
                (omega arith, omega (arith, order), omega arith))
      ]

process_mlme_set_request-FramesFit :
    (pib : Pib) (request : Mlme.SetRequest) (s : ManagementService) (r : Result Error Pib)
    → set request.attribute request.value pib ≡ r
    → FramesFit s.outgoing
    → FramesFit (process_mlme_set_request pib request s).2.outgoing
unfolding process_mlme_set_request
process_mlme_set_request-FramesFit pib request s (err e) same a =
    rw (same, process_mlme_set_request) (rw (update_radio_parameters-outgoing pib s) a)
process_mlme_set_request-FramesFit pib request s (ok pib') same a =
    rw (same, process_mlme_set_request) (rw (update_radio_parameters-outgoing pib' s) a)

process_mlme_start_request-FramesFit :
    (pib : Pib) (request : Mlme.StartRequest) (s : ManagementService)
    → FramesFit s.outgoing
    → FramesFit (process_mlme_start_request pib request s).2.outgoing
unfolding process_mlme_start_request
process_mlme_start_request-FramesFit pib request s a =
    elim (Bool-cases (short_eq pib.mac_short_address invalid)) [
      | inl without ↦ rw without a
      | inr addressed ↦
          elim (Bool-cases (
            not (request.channel_page == 0)
            || (not (request.start_time == 0)
                || (not (request.beacon_order == 15)
                    || (not (request.superframe_order == 15)
                        || (not request.pan_coordinator || request.battery_life_extension)))))) [
                          | inl bad ↦ rw (addressed, bad) a
                          | inr good ↦
                              rw (addressed, good) (rw (update_radio_parameters-outgoing _ s) a)
                        ]
    ]

pub new-FramesFit : (pib : Pib) → FramesFit (new pib).outgoing
unfolding new
new-FramesFit pib = rw (update_radio_parameters-outgoing pib _) tt

module _ {Timer M : Type 0} ⦃b : BiMap M⦄ where
  pub process_mlme_request-FramesFit :
      (bsn dsn : ℕ) (pib : Pib) (d : DataService Timer M) (request : Mlme.Request)
      (s : ManagementService)
      → FramesFit s.outgoing
      → FramesFit (process_mlme_request bsn dsn pib d request s).3.outgoing
  unfolding process_mlme_request process_mlme_reset_request
  process_mlme_request-FramesFit bsn dsn pib d (Mlme.beacon_request r) s a =
      process_mlme_beacon_request-FramesFit pib r s a
  process_mlme_request-FramesFit bsn dsn pib d (Mlme.reset_request r) s a = new-FramesFit _
  process_mlme_request-FramesFit bsn dsn pib d (Mlme.start_request r) s a =
      process_mlme_start_request-FramesFit pib r s a
  process_mlme_request-FramesFit bsn dsn pib d (Mlme.get_request r) s a = a
  process_mlme_request-FramesFit bsn dsn pib d (Mlme.set_request r) s a =
      process_mlme_set_request-FramesFit pib r s _ refl a

process_frame_beacon_request-FramesFit :
    (pib : Pib) (frame : Frame) (s : ManagementService)
    → FramesFit s.outgoing
    → FramesFit (process_frame_beacon_request pib frame s).2.outgoing
unfolding process_frame_beacon_request
process_frame_beacon_request-FramesFit pib frame s a =
    elim (Bool-cases pib.mac_beacon_auto_respond) [
      | inl answers ↦ simp answers (process_mlme_beacon_request-FramesFit pib _ s a)
      | inr asks ↦ simp asks a
    ]

process_frame_of :
    (pib : Pib) (frame : Frame) (s : ManagementService) (t : FrameType)
    → frame.frame_type ≡ t
    → FramesFit s.outgoing
    → FramesFit (process_frame pib frame s).2.outgoing
unfolding process_frame
process_frame_of pib frame s (FrameType.command beacon_request) same a =
    rw (same, process_frame) (process_frame_beacon_request-FramesFit pib frame s a)
process_frame_of pib frame s (FrameType.command (association_request c)) same a =
    rw (same, process_frame) a
process_frame_of pib frame s (FrameType.command (Command.association_response c)) same a =
    rw (same, process_frame) a
process_frame_of pib frame s (FrameType.command Command.data_request) same a =
    rw (same, process_frame) a
process_frame_of pib frame s (FrameType.beacon x) same a = rw (same, process_frame) a
process_frame_of pib frame s (FrameType.ack x) same a = rw (same, process_frame) a
process_frame_of pib frame s (FrameType.data_frame x) same a = rw (same, process_frame) a
process_frame_of pib frame s (FrameType.reserved x) same a = rw (same, process_frame) a
process_frame_of pib frame s (FrameType.multipurpose x) same a = rw (same, process_frame) a
process_frame_of pib frame s (FrameType.fragment x) same a = rw (same, process_frame) a
process_frame_of pib frame s (FrameType.extended x) same a = rw (same, process_frame) a

pub process_frame-FramesFit :
    (pib : Pib) (frame : Frame) (s : ManagementService)
    → FramesFit s.outgoing
    → FramesFit (process_frame pib frame s).2.outgoing
process_frame-FramesFit pib frame s a = process_frame_of pib frame s frame.frame_type refl a
