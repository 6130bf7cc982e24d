-- ===== src/Frame/Codec.antt =====
-- frame.rs: `impl Pack for Frame`.
use zigbee_rust_playground.Common.{
  ℕ, Option, none, some, Bool, Result, ok, err, ◌>>=◌, map_err, ◌==◌, not, if◌then◌else◌,
}
use zigbee_rust_playground.Bitfield.{Bitfield}
use zigbee_rust_playground.Pack.{
  Unpack, unimplemented, invalid_enum_tag, from_ext_enum, PackTarget, PackError, unpack_uint,
  pack_uint, unpack_option, pack_option,
}
use zigbee_rust_playground.Frame.Types.{PanId, FullAddress, Payload, FrameType, Frame}
use zigbee_rust_playground.Frame.Address.{
  mode_try_from_tag, unpack_address, pack_address_data, pack_full_address_data,
}
use zigbee_rust_playground.Frame.Beacon.{unpack_payload, pack_payload, unpack_beacon, pack_beacon}
use zigbee_rust_playground.Frame.Command.{unpack_command, pack_command}
use zigbee_rust_playground.Frame.Control.{
  FrameControl, read_control, write_control, uses_compression,
}

-- `destination.map(|d| d.pan_id)`
abbrev pub pan_of : Option FullAddress → Option PanId
pan_of none = none
pan_of (some d) = some d.pan_id

-- The derived `unpack_data` of FrameType.
unfoldable pub unpack_frame_payload : (Payload → FrameType) → Unpack FrameType
unfolding unpack_payload
unpack_frame_payload make bytes = do (payload, rest) ← unpack_payload bytes; ok (make payload, rest)

module _ ⦃b : Bitfield⦄ where
  unfoldable pub unpack_frame_type : ℕ → Unpack FrameType
  unfolding unpack_frame_payload
  unpack_frame_type tag bytes =
      if tag == 0
      then (do (beacon, rest) ← unpack_beacon bytes; ok (FrameType.beacon beacon, rest))
      else if tag == 1
      then unpack_frame_payload FrameType.data_frame bytes
      else if tag == 2
      then unpack_frame_payload FrameType.ack bytes
      else if tag == 3
      then (do (command, rest) ← unpack_command bytes; ok (FrameType.command command, rest))
      else if tag == 4
      then unpack_frame_payload FrameType.reserved bytes
      else if tag == 5
      then unpack_frame_payload FrameType.multipurpose bytes
      else if tag == 6
      then unpack_frame_payload FrameType.fragment bytes
      else if tag == 7
      then unpack_frame_payload FrameType.extended bytes
      else err invalid_enum_tag

  -- `Frame::unpack` behind the frame control word.
  unfoldable pub unpack_fields : FrameControl → Unpack Frame
  unpack_fields fc bytes = do
    (sequence_number, rest) ←
        unpack_option (unpack_uint 1) (fc.sequence_number_supression == 0) bytes
    destination_mode ← map_err from_ext_enum (mode_try_from_tag fc.destination_addressing_mode)
    (destination, rest) ← unpack_address destination_mode none rest
    source_mode ← map_err from_ext_enum (mode_try_from_tag fc.source_addressing_mode)
    (source, rest) ←
        unpack_address source_mode
          (if not (fc.pan_id_compression == 0) then pan_of destination else none) rest
    if not (fc.information_elements_present == 0)
        then err (unimplemented (some "Information elements not implemented"))
        else if not (fc.security_enabled == 0)
        then err (unimplemented (some "Secured frames not yet supported"))
        else do
          (frame_type, rest) ← unpack_frame_type fc.frame_type rest
          ok (
            record {
              frame_pending = not (fc.frame_pending == 0);
              acknowledge_request = not (fc.acknowledge_request == 0);
              sequence_number = sequence_number;
              destination = destination;
              source = source;
              frame_type = frame_type;
            },
            rest,
          )

  unfoldable pub unpack : Unpack Frame
  unfolding unpack_fields read_control
  unpack bytes = do (fc, rest) ← unpack_uint 2 bytes; unpack_fields (read_control fc) rest

module _ {T : Type 0} ⦃t : PackTarget T⦄ where
  unfoldable pub pack_destination : Option FullAddress → T → Result (PackError t.Error) T
  pack_destination (some destination) target = pack_full_address_data destination target
  pack_destination none target = ok target

  unfoldable pub pack_source : Bool → Option FullAddress → T → Result (PackError t.Error) T
  pack_source pan_id_compression (some source) target =
      if pan_id_compression
      then pack_address_data source.address target
      else pack_full_address_data source target
  pack_source pan_id_compression none target = ok target

module _ ⦃b : Bitfield⦄ {T : Type 0} ⦃t : PackTarget T⦄ where
  -- The derived `pack_data` of FrameType.
  unfoldable pub pack_frame_type : FrameType → T → Result (PackError t.Error) T
  pack_frame_type (FrameType.beacon x) target = pack_beacon x target
  pack_frame_type (FrameType.data_frame x) target = pack_payload x target
  pack_frame_type (FrameType.ack x) target = pack_payload x target
  pack_frame_type (FrameType.command x) target = pack_command x target
  pack_frame_type (FrameType.reserved x) target = pack_payload x target
  pack_frame_type (FrameType.multipurpose x) target = pack_payload x target
  pack_frame_type (FrameType.fragment x) target = pack_payload x target
  pack_frame_type (FrameType.extended x) target = pack_payload x target

  unfoldable pub pack : Frame → T → Result (PackError t.Error) T
  unfolding write_control uses_compression pack_destination pack_source
  pack f target = do
    target ← pack_uint 2 (write_control f) target
    target ← pack_option (pack_uint 1) f.sequence_number target
    target ← pack_destination f.destination target
    target ← pack_source (uses_compression f.destination f.source) f.source target
    pack_frame_type f.frame_type target
