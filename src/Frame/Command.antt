-- ===== src/Frame/Command.antt =====
-- frame.rs: MAC commands, capability information and association responses.
use Prim.Native.Nat.{bit_and, bit_or}
use zigbee_rust_playground.Common.{ℕ, ◌/◌, Result, ok, err, ◌>>=◌, ◌==◌, not, if◌then◌else◌}
use zigbee_rust_playground.Pack.{
  Unpack, invalid_enum_tag, PackTarget, PackError, unpack_uint, pack_uint,
}
use zigbee_rust_playground.Frame.Address.{unpack_short_address}
use zigbee_rust_playground.Frame.Types.{
  ShortAddress, invalid, DeviceType, rfd, ffd, PowerSource, battery, ac, CapabilityInformation,
  AssociationError, pan_at_capacity, pan_access_denied, hopping_sequence_offset,
  AssociationResponse, Command, association_request, association_response, data_request,
  beacon_request,
}

-- The derived `PackTagged` of DeviceType and PowerSource.
unfoldable pub unpack_device_type : ℕ → Unpack DeviceType
unpack_device_type tag bytes =
    if tag == 0 then ok (rfd, bytes) else if tag == 1 then ok (ffd, bytes) else err invalid_enum_tag

unfoldable pub unpack_power_source : ℕ → Unpack PowerSource
unpack_power_source tag bytes =
    if tag == 0
    then ok (battery, bytes)
    else if tag == 1
    then ok (ac, bytes)
    else err invalid_enum_tag

-- `impl Pack for CapabilityInformation`. `x >> k` is `x / 2 ^ k`.
unfoldable pub unpack_capability : Unpack CapabilityInformation
unfolding unpack_device_type unpack_power_source
unpack_capability bytes = do
  (info, rest) ← unpack_uint 1 bytes
  (device_type, rest) ← unpack_device_type (bit_and (info / 2) 1) rest
  (power_source, rest) ← unpack_power_source (bit_and (info / 4) 1) rest
  ok (
    record {
      device_type = device_type;
      power_source = power_source;
      receiver_on_when_idle = not (bit_and (info / 8) 1 == 0);
      fast_association = not (bit_and (info / 16) 1 == 0);
      security_capable = not (bit_and (info / 64) 1 == 0);
      allocate_address = not (bit_and (info / 128) 1 == 0);
    },
    rest,
  )

-- The derived `PackTagged` of AssociationError.
unfoldable pub association_error_tag : AssociationError → ℕ
association_error_tag pan_at_capacity = 1
association_error_tag pan_access_denied = 2
association_error_tag hopping_sequence_offset = 3

unfoldable pub unpack_association_error : ℕ → Unpack AssociationError
unpack_association_error tag bytes =
    if tag == 1
    then ok (pan_at_capacity, bytes)
    else if tag == 2
    then ok (pan_access_denied, bytes)
    else if tag == 3
    then ok (hopping_sequence_offset, bytes)
    else err invalid_enum_tag

-- The `match status` of `AssociationResponse::unpack`.
unfoldable pub unpack_status : ShortAddress → ℕ → Unpack (Result AssociationError ShortAddress)
unfolding unpack_association_error
unpack_status short_address status bytes =
    if status == 0
    then ok (ok short_address, bytes)
    else do (error, rest) ← unpack_association_error status bytes; ok (err error, rest)

-- `impl Pack for AssociationResponse`
unfoldable pub unpack_association_response : Unpack AssociationResponse
unfolding unpack_short_address unpack_status
unpack_association_response bytes = do
  (short_address, rest) ← unpack_short_address bytes
  (status, rest) ← unpack_uint 1 rest
  let fast = not (bit_and status 0x80 == 0)
  (status', rest) ← unpack_status short_address (bit_and status 0x7F) rest
  ok (record { fast_association = fast; status = status' }, rest)

-- The address and the status byte that `AssociationResponse::pack` writes.
unfoldable pub response_address : Result AssociationError ShortAddress → ShortAddress
response_address (ok address) = address
response_address (err x) = invalid

unfoldable pub response_status : Result AssociationError ShortAddress → ℕ
unfolding association_error_tag
response_status (ok address) = 0
response_status (err x) = association_error_tag x

unfoldable pub status_byte : AssociationResponse → ℕ
unfolding response_status
status_byte r =
    if r.fast_association then bit_or (response_status r.status) 0x80 else response_status r.status

-- The derived `Pack` of Command.
unfoldable pub command_tag : Command → ℕ
command_tag (association_request c) = 0x01
command_tag (association_response r) = 0x02
command_tag data_request = 0x04
command_tag beacon_request = 0x07

unfoldable pub unpack_command_data : ℕ → Unpack Command
unfolding unpack_capability unpack_association_response
unpack_command_data tag bytes =
    if tag == 0x01
    then (do (info, rest) ← unpack_capability bytes; ok (association_request info, rest))
    else if tag == 0x02
    then (do
      (response, rest) ← unpack_association_response bytes
      ok (association_response response, rest))
    else if tag == 0x04
    then ok (data_request, bytes)
    else if tag == 0x07
    then ok (beacon_request, bytes)
    else err invalid_enum_tag

unfoldable pub unpack_command : Unpack Command
unfolding unpack_command_data
unpack_command bytes = do (tag, rest) ← unpack_uint 1 bytes; unpack_command_data tag rest

module _ {T : Type 0} ⦃t : PackTarget T⦄ where
  -- `CapabilityInformation::pack` writes nothing.
  unfoldable pub pack_capability : CapabilityInformation → T → Result (PackError t.Error) T
  pack_capability info target = ok target

  unfoldable pub pack_association_response : AssociationResponse → T → Result (PackError t.Error) T
  unfolding response_address status_byte
  pack_association_response r target = do
    target ← pack_uint 2 (response_address r.status).value target
    pack_uint 1 (status_byte r) target

  unfoldable pub pack_command_data : Command → T → Result (PackError t.Error) T
  unfolding pack_capability pack_association_response
  pack_command_data (association_request info) target = pack_capability info target
  pack_command_data (association_response r) target = pack_association_response r target
  pack_command_data data_request target = ok target
  pack_command_data beacon_request target = ok target

  unfoldable pub pack_command : Command → T → Result (PackError t.Error) T
  unfolding command_tag pack_command_data
  pack_command c target = do target ← pack_uint 1 (command_tag c) target; pack_command_data c target
