-- ===== src/Frame/Address.antt =====
-- frame.rs: packing and unpacking of addresses and addressing modes.
use zigbee_rust_playground.Common.{
  ℕ, Option, none, some, Result, ok, err, ◌>>=◌, ◌==◌, if◌then◌else◌,
}
use zigbee_rust_playground.Pack.{
  Unpack, invalid_enum_tag, ExtEnumError, invalid_tag, PackTarget, PackError, unpack_uint,
  pack_uint,
}
use zigbee_rust_playground.Frame.Types.{
  ShortAddress, ExtendedAddress, PanId, Address, FullAddress, AddressingMode,
}

-- The derived `ExtEnum` of AddressingMode.
unfoldable pub mode_into_tag : AddressingMode → ℕ
mode_into_tag AddressingMode.none = 0
mode_into_tag AddressingMode.reserved = 1
mode_into_tag AddressingMode.short = 2
mode_into_tag AddressingMode.extended = 3

unfoldable pub mode_try_from_tag : ℕ → Result ExtEnumError AddressingMode
mode_try_from_tag tag =
    if tag == 0
    then ok AddressingMode.none
    else if tag == 1
    then ok AddressingMode.reserved
    else if tag == 2
    then ok AddressingMode.short
    else if tag == 3
    then ok AddressingMode.extended
    else err invalid_tag

unfoldable pub unpack_short_address : Unpack ShortAddress
unpack_short_address bytes = do (x, rest) ← unpack_uint 2 bytes; ok (record { value = x }, rest)

unfoldable pub unpack_extended_address : Unpack ExtendedAddress
unpack_extended_address bytes = do (x, rest) ← unpack_uint 8 bytes; ok (record { value = x }, rest)

unfoldable pub unpack_pan_id : Unpack PanId
unpack_pan_id bytes = do (x, rest) ← unpack_uint 2 bytes; ok (record { value = x }, rest)

-- The derived `PackTagged` of Address.
unfoldable pub address_tag : Address → AddressingMode
address_tag (Address.short a) = AddressingMode.short
address_tag (Address.extended a) = AddressingMode.extended

unfoldable pub unpack_address_data : AddressingMode → Unpack Address
unfolding unpack_short_address unpack_extended_address
unpack_address_data AddressingMode.short bytes = do
  (a, rest) ← unpack_short_address bytes
  ok (Address.short a, rest)
unpack_address_data AddressingMode.extended bytes = do
  (a, rest) ← unpack_extended_address bytes
  ok (Address.extended a, rest)
unpack_address_data _ bytes = err invalid_enum_tag

-- `impl PackTagged for FullAddress`
unfoldable pub full_address_tag : FullAddress → AddressingMode
unfolding address_tag
full_address_tag a = address_tag a.address

unfoldable pub unpack_full_address_data : AddressingMode → Unpack FullAddress
unfolding unpack_pan_id unpack_address_data
unpack_full_address_data tag bytes = do
  (pan_id, rest) ← unpack_pan_id bytes
  (address, rest') ← unpack_address_data tag rest
  ok (record { pan_id = pan_id; address = address }, rest')

-- `Frame::unpack_address`
unfoldable pub unpack_address : AddressingMode → Option PanId → Unpack (Option FullAddress)
unfolding unpack_address_data unpack_full_address_data
unpack_address AddressingMode.none previous_pan bytes = ok (none, bytes)
unpack_address mode (some pan_id) bytes = do
  (address, rest) ← unpack_address_data mode bytes
  ok (some (record { pan_id = pan_id; address = address }), rest)
unpack_address mode none bytes = do
  (address, rest) ← unpack_full_address_data mode bytes
  ok (some address, rest)

module _ {T : Type 0} ⦃t : PackTarget T⦄ where
  unfoldable pub pack_address_data : Address → T → Result (PackError t.Error) T
  pack_address_data (Address.short a) target = pack_uint 2 a.value target
  pack_address_data (Address.extended a) target = pack_uint 8 a.value target

  unfoldable pub pack_full_address_data : FullAddress → T → Result (PackError t.Error) T
  unfolding pack_address_data
  pack_full_address_data a target = do
    target ← pack_uint 2 a.pan_id.value target
    pack_address_data a.address target
