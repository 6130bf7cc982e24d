-- ===== src/Frame/Beacon.antt =====
-- frame.rs: payloads and beacons. A beacon starts with a superframe specification, a word of fields.
use zigbee_rust_playground.Common.{
  ℕ, bit_of, some, length, drop, Result, ok, err, ◌>>=◌, ltb, ◌==◌, ◌||◌, not, if◌then◌else◌,
}
use zigbee_rust_playground.Bitfield.{Bitfield}
use zigbee_rust_playground.Pack.{
  Unpack, unimplemented, PackTarget, PackError, not_allowed, append, unpack_uint, pack_uint,
  unpack_pair, pack_pair,
}
use zigbee_rust_playground.Frame.Types.{Payload, Beacon}

-- `impl Pack for Payload`: everything that is left.
unfoldable pub unpack_payload : Unpack Payload
unpack_payload bytes = ok (record { bytes = bytes }, drop (length bytes) bytes)

module _ {T : Type 0} ⦃t : PackTarget T⦄ where
  unfoldable pub pack_payload : Payload → T → Result (PackError t.Error) T
  pack_payload p target = append p.bytes target

-- The superframe specification with the GTS and pending-address bytes behind it:
-- `<(SuperframeSpecification, u8, u8)>::unpack`.
unfoldable pub unpack_beacon_head : Unpack (ℕ × (ℕ × ℕ))
unfolding unpack_pair
unpack_beacon_head = unpack_pair (unpack_uint 2) (unpack_pair (unpack_uint 1) (unpack_uint 1))

module _ ⦃b : Bitfield⦄ where
  unfoldable pub read_superframe : ℕ → Payload → Beacon
  read_superframe ss payload = record {
    beacon_order = b.get 3 0 ss;
    superframe_order = b.get 7 4 ss;
    final_cap_slot = b.get 11 8 ss;
    battery_life_extension = not (b.get 12 12 ss == 0);
    pan_coordinator = not (b.get 14 14 ss == 0);
    association_permit = not (b.get 15 15 ss == 0);
    payload = payload;
  }

  -- `impl Pack for Beacon`
  unfoldable pub unpack_beacon : Unpack Beacon
  unfolding unpack_beacon_head unpack_payload read_superframe
  unpack_beacon bytes = do
    ((ss, (gts, pending_addresses)), rest) ← unpack_beacon_head bytes
    if not (gts == 0) || not (pending_addresses == 0)
        then err (unimplemented (some "Non-zero GTS or pending-addresses not yet supported"))
        else do (payload, rest') ← unpack_payload rest; ok (read_superframe ss payload, rest')

  -- The calls of the setters in `Beacon::pack`, where its checks have passed.
  unfoldable pub write_superframe : Beacon → ℕ
  write_superframe f =
      let ss = b.set 3 0 0 f.beacon_order in
      let ss = b.set 7 4 ss f.superframe_order in
      let ss = b.set 11 8 ss f.final_cap_slot in
      let ss = b.set 12 12 ss (bit_of f.battery_life_extension) in
      let ss = b.set 13 13 ss 0 in
      let ss = b.set 14 14 ss (bit_of f.pan_coordinator) in
      b.set 15 15 ss (bit_of f.association_permit)

module _ ⦃b : Bitfield⦄ {T : Type 0} ⦃t : PackTarget T⦄ where
  unfoldable pub pack_beacon : Beacon → T → Result (PackError t.Error) T
  unfolding write_superframe pack_payload pack_pair
  pack_beacon f target =
      if ltb 0xF f.beacon_order
      then err (not_allowed (some "Beacon order out of range"))
      else if ltb 0xF f.superframe_order
      then err (not_allowed (some "Superframe order out of range"))
      else if ltb 0xF f.final_cap_slot
      then err (not_allowed (some "Final cap slot order out of range"))
      else do
        target ←
            pack_pair (pack_uint 2) (pack_pair (pack_uint 1) (pack_uint 1))
              (write_superframe f, (0, 0)) target
        pack_payload f.payload target
