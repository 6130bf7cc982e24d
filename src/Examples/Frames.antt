-- ===== src/Examples/Frames.antt =====
-- Frames of src/ieee802154/frame.rs.
use zigbee_rust_playground.Common.{
  ◌≤◌, ◌<◌, ◌≡◌, refl, arith, ◌⊎◌, [], ◌∷◌, ◌++◌, length, drop, some, true, false, ok, err,
}
use zigbee_rust_playground.Bitfield.{Bitfield, arithmetic}
use zigbee_rust_playground.Pack.{
  VecPackTarget, vec_target, vec_new, SlicePackTarget, slice_target, slice_new, target_error,
  not_enough_space, not_enough_data,
}
use zigbee_rust_playground.Pack.Targets.{concat}
use zigbee_rust_playground.Frame.Types.{
  Frame, FrameType, CapabilityInformation, association_request, Address, rfd, battery,
}
use zigbee_rust_playground.Frame.Codec.{pack, unpack}
use zigbee_rust_playground.Frame.Layout.{frame_chunks, BodyFits}
use zigbee_rust_playground.Frame.Valid.{IsFrame}
use zigbee_rust_playground.Frame.RoundTrip.{
  unpack-pack, pack-slice, unpack-pack_association_request,
}

instance bits : Bitfield
bits = arithmetic

-- A beacon from a coordinator's short address.
abbrev beacon_frame : Frame
beacon_frame = record {
  frame_pending = false;
  acknowledge_request = true;
  sequence_number = some 7;
  destination = some (record {
    pan_id = record { value = 0x1234 };
    address = Address.short (record { value = 0xFFFF });
  });
  source = some (record {
    pan_id = record { value = 0x1234 };
    address = Address.extended (record { value = 0x0011223344556677 });
  });
  frame_type = FrameType.beacon (record {
    beacon_order = 15;
    superframe_order = 15;
    final_cap_slot = 15;
    battery_life_extension = false;
    pan_coordinator = true;
    association_permit = true;
    payload = record { bytes = 1 ∷ 2 ∷ [] };
  });
}

beacon_frame-IsFrame : IsFrame beacon_frame
beacon_frame-IsFrame = record {
  sequence_number = ground arith;
  destination = (ground arith, ground arith);
  source = (ground arith, ground arith);
  body = tt;
}

beacon_frame-fits : BodyFits beacon_frame.frame_type
beacon_frame-fits = (omega arith, omega arith, omega arith)

unpack-pack_example :
    (v : VecPackTarget) × (pack beacon_frame vec_new ≡ ok v)
    × (unpack v.bytes ≡ ok (beacon_frame, []))
unpack-pack_example = unpack-pack beacon_frame beacon_frame-IsFrame beacon_frame-fits tt

abbrev info : CapabilityInformation
info = record {
  device_type = rfd;
  power_source = battery;
  receiver_on_when_idle = false;
  fast_association = false;
  security_capable = false;
  allocate_address = true;
}

abbrev request_frame : Frame
request_frame = record beacon_frame { frame_type = FrameType.command (association_request info) }

request_frame-IsFrame : IsFrame request_frame
request_frame-IsFrame = record {
  sequence_number = ground arith;
  destination = (ground arith, ground arith);
  source = (ground arith, ground arith);
  body = tt;
}

unpack-pack_association_request_example :
    (v : VecPackTarget) × (pack request_frame vec_new ≡ ok v)
    × (unpack v.bytes ≡ err not_enough_data)
unpack-pack_association_request_example =
    unpack-pack_association_request request_frame info request_frame-IsFrame refl

pack-slice_example :
    (((length (concat (frame_chunks beacon_frame))) ≤ 3)
      × (s : SlicePackTarget) × (pack beacon_frame (slice_new (0 ∷ 0 ∷ 0 ∷ [])) ≡ ok s)
      × (s.offset ≡ length (concat (frame_chunks beacon_frame)))
      × (s.target
          ≡ concat (frame_chunks beacon_frame)
            ++ drop (length (concat (frame_chunks beacon_frame))) (0 ∷ 0 ∷ 0 ∷ [])))
    ⊎ ((3 < length (concat (frame_chunks beacon_frame)))
        × (pack beacon_frame (slice_new (0 ∷ 0 ∷ 0 ∷ [])) ≡ err (target_error not_enough_space)))
pack-slice_example = pack-slice beacon_frame (0 ∷ 0 ∷ 0 ∷ []) beacon_frame-fits
