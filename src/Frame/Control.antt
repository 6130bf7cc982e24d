-- ===== src/Frame/Control.antt =====
-- frame.rs: the bit fields of `FrameControl` and the word that `Frame::pack` writes.
use zigbee_rust_playground.Common.{ℕ, Option, none, some, Bool, false, bit_of, is_some, not}
use zigbee_rust_playground.Bitfield.{Bitfield}
use zigbee_rust_playground.Frame.Types.{FullAddress, FrameType, Frame, AddressingMode, pan_eq}
use zigbee_rust_playground.Frame.Address.{full_address_tag, mode_into_tag}

-- The derived `get_tag` of FrameType.
unfoldable pub frame_type_tag : FrameType → ℕ
frame_type_tag (FrameType.beacon b) = 0
frame_type_tag (FrameType.data_frame p) = 1
frame_type_tag (FrameType.ack p) = 2
frame_type_tag (FrameType.command c) = 3
frame_type_tag (FrameType.reserved p) = 4
frame_type_tag (FrameType.multipurpose p) = 5
frame_type_tag (FrameType.fragment p) = 6
frame_type_tag (FrameType.extended p) = 7

-- `self.destination.map(|a| a.get_tag()).unwrap_or(AddressingMode::None).into_tag()`
unfoldable pub address_mode_tag : Option FullAddress → ℕ
unfolding full_address_tag mode_into_tag
address_mode_tag none = mode_into_tag AddressingMode.none
address_mode_tag (some a) = mode_into_tag (full_address_tag a)

-- `destination_pan_id.is_some() && destination_pan_id == source_pan_id`
unfoldable pub uses_compression : Option FullAddress → Option FullAddress → Bool
uses_compression (some d) (some s) = pan_eq d.pan_id s.pan_id
uses_compression (some d) none = false
uses_compression none source = false

-- The fields of a frame control word, as `Frame::unpack` reads them.
pub record FrameControl : Type 0 where
  pub frame_type : ℕ
  pub security_enabled : ℕ
  pub frame_pending : ℕ
  pub acknowledge_request : ℕ
  pub pan_id_compression : ℕ
  pub sequence_number_supression : ℕ
  pub information_elements_present : ℕ
  pub destination_addressing_mode : ℕ
  pub source_addressing_mode : ℕ

module _ ⦃b : Bitfield⦄ where
  unfoldable pub read_control : ℕ → FrameControl
  read_control fc = record {
    frame_type = b.get 2 0 fc;
    security_enabled = b.get 3 3 fc;
    frame_pending = b.get 4 4 fc;
    acknowledge_request = b.get 5 5 fc;
    pan_id_compression = b.get 6 6 fc;
    sequence_number_supression = b.get 8 8 fc;
    information_elements_present = b.get 9 9 fc;
    destination_addressing_mode = b.get 11 10 fc;
    source_addressing_mode = b.get 15 14 fc;
  }

  -- The calls of the setters in `Frame::pack`, in their order.
  unfoldable pub write_control : Frame → ℕ
  unfolding frame_type_tag address_mode_tag uses_compression
  write_control f =
      let fc = b.set 2 0 0 (frame_type_tag f.frame_type) in
      let fc = b.set 3 3 fc 0 in
      let fc = b.set 4 4 fc (bit_of f.frame_pending) in
      let fc = b.set 5 5 fc (bit_of f.acknowledge_request) in
      let fc = b.set 6 6 fc (bit_of (uses_compression f.destination f.source)) in
      let fc = b.set 7 7 fc 0 in
      let fc = b.set 8 8 fc (bit_of (not (is_some f.sequence_number))) in
      let fc = b.set 9 9 fc 0 in
      let fc = b.set 11 10 fc (address_mode_tag f.destination) in
      let fc = b.set 15 14 fc (address_mode_tag f.source) in b.set 13 12 fc 0
