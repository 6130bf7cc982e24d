-- ===== src/Frame/ReadBody.antt =====
-- The contents of a frame: what `pack_data` writes, `unpack_data` reads back.
use zigbee_rust_playground.Common.{
  ℕ, ◌+◌, ◌<◌, ◌^◌, ◌≡◌, refl, ◌∙◌, arith, Bool, true, false, not, List, [], ◌∷◌, ◌++◌, append-nil,
  length, drop, Result, ok, err, ◌==◌, if◌then◌else◌, to_le_bytes, from_le_bytes, bit_and, bit_or,
  bit_and-top, bit_and-low, bit_or-top,
}
use zigbee_rust_playground.Bitfield.{Bitfield}
use zigbee_rust_playground.Pack.{not_enough_data, unpack_uint, unpack_pair}
use zigbee_rust_playground.Pack.RoundTrip.{unpack_uint-to_le_bytes}
use zigbee_rust_playground.Pack.Targets.{concat}
use zigbee_rust_playground.Frame.Types.{
  CapabilityInformation, ShortAddress, Beacon, Payload, AssociationError, AssociationResponse,
  Command, association_request, association_response, data_request, beacon_request, FrameType,
}
use zigbee_rust_playground.Frame.Beacon.{unpack_beacon, unpack_beacon_head, write_superframe}
use zigbee_rust_playground.Frame.Command.{
  unpack_capability, unpack_status, unpack_association_error, unpack_association_response,
  response_address, response_status, status_byte, command_tag, unpack_command,
  association_error_tag,
}
use zigbee_rust_playground.Frame.Address.{unpack_short_address}
use zigbee_rust_playground.Frame.Control.{frame_type_tag}
use zigbee_rust_playground.Frame.Codec.{unpack_frame_payload, unpack_frame_type}
use zigbee_rust_playground.Frame.Layout.{body_chunks, command_chunks, BodyFits}
use zigbee_rust_playground.Frame.ReadHeader.{read_uint}
use zigbee_rust_playground.Frame.Valid.{IsStatus, IsCommand, IsBody, IsWritten}
use zigbee_rust_playground.Frame.Words.{read-write_superframe}

drop-length : (xs : List ℕ) → drop (length xs) xs ≡ []
drop-length [] = refl
drop-length (x ∷ xs) = drop-length xs

response_status-lt : (s : Result AssociationError ShortAddress) → response_status s < 128
unfolding response_status association_error_tag
response_status-lt (ok a) = omega arith
response_status-lt (err e) = ground arith

-- The top bit of a byte as a flag.
flag_byte :
    (n : ℕ) (flag : Bool)
    → n < 128
    → (let x = if flag then bit_or n 0x80 else n in
        (x < 256) × (not (bit_and x 0x80 == 0) ≡ flag) × (bit_and x 0x7F ≡ n))
flag_byte n true h = rw (bit_or-top n h) (
  omega arith,
  ground (arith, bit_and-top (n + 128)),
  bit_and-low (n + 128) (omega arith) ∙ omega arith,
)
flag_byte n false h =
    (omega arith, ground (arith, bit_and-top n), bit_and-low n (omega arith) ∙ omega arith)

-- The status byte holds the error and the flag.
status_byte_lem :
    (r : AssociationResponse)
    → (status_byte r < 256 ^ 1)
      × (not (bit_and (status_byte r) 0x80 == 0) ≡ r.fast_association)
      × (bit_and (status_byte r) 0x7F ≡ response_status r.status)
unfolding status_byte
status_byte_lem r =
    flag_byte (response_status r.status) r.fast_association (response_status-lt r.status)

unpack_status-lem :
    (s : Result AssociationError ShortAddress) (rest : List ℕ)
    → unpack_status (response_address s) (response_status s) rest ≡ ok (s, rest)
unfolding unpack_status response_address response_status association_error_tag
    unpack_association_error
unpack_status-lem (ok a) rest = refl
unpack_status-lem (err e) rest = ground arith

-- On an error the broadcast address is written; reading ignores it.
response_address-lt :
    (s : Result AssociationError ShortAddress) → IsStatus s → (response_address s).value < 256 ^ 2
unfolding response_address
response_address-lt (ok a) h = h
response_address-lt (err e) h = omega arith

unpack_association_response-chunks :
    (r : AssociationResponse) (rest : List ℕ)
    → IsStatus r.status
    → unpack_association_response (concat (command_chunks (association_response r)) ++ rest)
      ≡ ok (r, rest)
unfolding unpack_association_response unpack_short_address command_chunks
unpack_association_response-chunks r rest h =
    let (byte, fast, status) = status_byte_lem r in
    rw (
      read_uint 2 (response_address r.status).value (to_le_bytes 1 (status_byte r) ++ []) rest
          (response_address-lt r.status h),
      read_uint 1 (status_byte r) [] rest byte,
      fast,
      status,
      unpack_status-lem r.status rest,
    )

unpack_command-chunks :
    (c : Command) (rest : List ℕ)
    → IsCommand c
    → IsWritten (FrameType.command c)
    → unpack_command (concat (to_le_bytes 1 (command_tag c) ∷ command_chunks c) ++ rest)
      ≡ ok (c, rest)
unfolding unpack_command command_chunks command_tag
unpack_command-chunks (association_request info) rest h w = absurd w
unpack_command-chunks (association_response r) rest h w =
    rw (read_uint 1 0x02 _ rest (omega arith), unpack_association_response-chunks r rest h)
unpack_command-chunks data_request rest h w = rw (read_uint 1 0x04 [] rest (omega arith))
unpack_command-chunks beacon_request rest h w = rw (read_uint 1 0x07 [] rest (omega arith))

module _ ⦃b : Bitfield⦄ where
  unpack_beacon-chunks :
      (f : Beacon)
      → BodyFits (FrameType.beacon f)
      → unpack_beacon (concat (body_chunks (FrameType.beacon f))) ≡ ok (f, [])
  unfolding unpack_beacon unpack_beacon_head unpack_pair body_chunks
  unpack_beacon-chunks f h =
      let (small, same) = read-write_superframe f h in
      rw (
        unpack_uint-to_le_bytes 2 (write_superframe f)
            (to_le_bytes 1 0 ++ (to_le_bytes 1 0 ++ (f.payload.bytes ++ []))) small,
        unpack_uint-to_le_bytes 1 0 (to_le_bytes 1 0 ++ (f.payload.bytes ++ [])) (omega arith),
        unpack_uint-to_le_bytes 1 0 (f.payload.bytes ++ []) (omega arith),
        append-nil f.payload.bytes,
        drop-length f.payload.bytes,
        same,
      )

  unpack_payload-chunks :
      (make : Payload → FrameType) (p : Payload)
      → unpack_frame_payload make (p.bytes ++ []) ≡ ok (make p, [])
  unfolding unpack_frame_payload
  unpack_payload-chunks make p = rw (append-nil p.bytes, drop-length p.bytes)

  -- The contents are read back by their tag.
  pub unpack_body-chunks :
      (f : FrameType)
      → BodyFits f
      → IsBody f
      → IsWritten f
      → unpack_frame_type (frame_type_tag f) (concat (body_chunks f)) ≡ ok (f, [])
  unfolding unpack_frame_type body_chunks frame_type_tag
  unpack_body-chunks (FrameType.beacon f) fits h w = rw (unpack_beacon-chunks f fits)
  unpack_body-chunks (FrameType.data_frame p) fits h w =
      unpack_payload-chunks FrameType.data_frame p
  unpack_body-chunks (FrameType.ack p) fits h w = unpack_payload-chunks FrameType.ack p
  unpack_body-chunks (FrameType.command c) fits h w =
      rw (← append-nil (concat (body_chunks (FrameType.command c))), unpack_command-chunks c [] h w)
  unpack_body-chunks (FrameType.reserved p) fits h w = unpack_payload-chunks FrameType.reserved p
  unpack_body-chunks (FrameType.multipurpose p) fits h w =
      unpack_payload-chunks FrameType.multipurpose p
  unpack_body-chunks (FrameType.fragment p) fits h w = unpack_payload-chunks FrameType.fragment p
  unpack_body-chunks (FrameType.extended p) fits h w = unpack_payload-chunks FrameType.extended p

  -- An association request is written as its tag alone, and its capabilities are missed.
  pub unpack_body-association_request :
      (info : CapabilityInformation)
      → (let body = FrameType.command (association_request info) in
          unpack_frame_type (frame_type_tag body) (concat (body_chunks body)) ≡ err not_enough_data)
  unfolding unpack_frame_type unpack_command unpack_capability body_chunks frame_type_tag
      command_tag unpack_uint to_le_bytes from_le_bytes
  unpack_body-association_request info = refl
