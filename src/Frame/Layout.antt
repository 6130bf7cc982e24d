-- ===== src/Frame/Layout.antt =====
-- The layout of a frame on the wire, as the chunks that packing appends, and the proof that packing
-- appends exactly these to any target.
use zigbee_rust_playground.Common.{
  ℕ, ◌≤◌, ◌≡◌, refl, sym, ap, ◌∙◌, arith, Option, none, some, Bool, true, false, List, [], ◌∷◌,
  ◌++◌, Result, ok, err, ◌>>=◌, to_le_bytes, ltb,
}
use zigbee_rust_playground.Bitfield.{Bitfield}
use zigbee_rust_playground.Pack.{PackTarget, append, pack_uint, pack_option, pack_pair}
use zigbee_rust_playground.Pack.Targets.{append_all, append_all-append}
use zigbee_rust_playground.Frame.Types.{
  Address, FullAddress, Beacon, Command, association_request, association_response, data_request,
  beacon_request, FrameType, Frame,
}
use zigbee_rust_playground.Frame.Address.{pack_address_data, pack_full_address_data}
use zigbee_rust_playground.Frame.Beacon.{pack_payload, pack_beacon, write_superframe}
use zigbee_rust_playground.Frame.Command.{command_tag, response_address, status_byte, pack_command}
use zigbee_rust_playground.Frame.Control.{write_control, uses_compression}
use zigbee_rust_playground.Frame.Codec.{pack_frame_type, pack_destination, pack_source, pack}

abbrev pub Chunks : Type 0
Chunks = List (List ℕ)

unfoldable pub address_chunks : Address → Chunks
address_chunks (Address.short a) = to_le_bytes 2 a.value ∷ []
address_chunks (Address.extended a) = to_le_bytes 8 a.value ∷ []

unfoldable pub destination_chunks : Option FullAddress → Chunks
unfolding address_chunks
destination_chunks none = []
destination_chunks (some a) = to_le_bytes 2 a.pan_id.value ∷ address_chunks a.address

-- The source leaves its PAN id out where it is that of the destination.
unfoldable pub source_chunks : Bool → Option FullAddress → Chunks
unfolding destination_chunks
source_chunks compressed none = []
source_chunks true (some a) = address_chunks a.address
source_chunks false (some a) = destination_chunks (some a)

unfoldable pub sequence_chunks : Option ℕ → Chunks
sequence_chunks none = []
sequence_chunks (some n) = to_le_bytes 1 n ∷ []

unfoldable pub command_chunks : Command → Chunks
command_chunks (association_request info) = []
command_chunks (association_response r) =
    to_le_bytes 2 (response_address r.status).value ∷ to_le_bytes 1 (status_byte r) ∷ []
command_chunks data_request = []
command_chunks beacon_request = []

-- A beacon can be packed only if its three numbers fit four bits.
abbrev pub BeaconFits : Beacon → Type 0
BeaconFits f = (f.beacon_order ≤ 15) × (f.superframe_order ≤ 15) × (f.final_cap_slot ≤ 15)

abbrev pub BodyFits : FrameType → Type 0
BodyFits (FrameType.beacon f) = BeaconFits f
BodyFits _ = Unit {0}

module _ ⦃b : Bitfield⦄ where
  unfoldable pub body_chunks : FrameType → Chunks
  unfolding command_chunks
  body_chunks (FrameType.beacon f) =
      to_le_bytes 2 (write_superframe f) ∷ to_le_bytes 1 0 ∷ to_le_bytes 1 0 ∷ f.payload.bytes ∷ []
  body_chunks (FrameType.data_frame p) = p.bytes ∷ []
  body_chunks (FrameType.ack p) = p.bytes ∷ []
  body_chunks (FrameType.command c) = to_le_bytes 1 (command_tag c) ∷ command_chunks c
  body_chunks (FrameType.reserved p) = p.bytes ∷ []
  body_chunks (FrameType.multipurpose p) = p.bytes ∷ []
  body_chunks (FrameType.fragment p) = p.bytes ∷ []
  body_chunks (FrameType.extended p) = p.bytes ∷ []

  -- Control word, sequence number, destination, source, contents.
  unfoldable pub frame_chunks : Frame → Chunks
  unfolding destination_chunks source_chunks sequence_chunks body_chunks
  frame_chunks f =
      to_le_bytes 2 (write_control f)
      ∷ (sequence_chunks f.sequence_number
          ++ (destination_chunks f.destination
              ++ (source_chunks (uses_compression f.destination f.source) f.source
                  ++ body_chunks f.frame_type)))

>>=-ok {ℓ κ} : {E : Type ℓ} {A : Type κ} (m : Result E A) → (m >>= ok) ≡ m
>>=-ok (ok a) = refl
>>=-ok (err e) = refl

>>=-assoc {ℓ κ} :
    {E : Type ℓ} {A B C : Type κ} (m : Result E A) (f : A → Result E B) (g : B → Result E C)
    → ((m >>= f) >>= g) ≡ (m >>= λ a. f a >>= g)
>>=-assoc (ok a) f g = refl
>>=-assoc (err e) f g = refl

in_range : (n : ℕ) → n ≤ 15 → ltb 15 n ≡ false
in_range n h = ground arith

module _ {T : Type 0} ⦃t : PackTarget T⦄ where
  append-one : (c : List ℕ) (target : T) → append c target ≡ append_all (c ∷ []) target
  unfolding append_all
  append-one c target = sym (>>=-ok (append c target))

  pack_address_data-chunks :
      (a : Address) (target : T) → pack_address_data a target ≡ append_all (address_chunks a) target
  unfolding pack_address_data address_chunks pack_uint
  pack_address_data-chunks (Address.short a) target = append-one _ target
  pack_address_data-chunks (Address.extended a) target = append-one _ target

  pack_full-chunks :
      (a : FullAddress) (target : T)
      → pack_full_address_data a target ≡ append_all (destination_chunks (some a)) target
  unfolding pack_full_address_data destination_chunks pack_uint append_all
  pack_full-chunks a target =
      ap (λ k. append (to_le_bytes 2 a.pan_id.value) target >>= k)
        (λ i u. pack_address_data-chunks a.address u i)

  pack_destination-chunks :
      (a : Option FullAddress) (target : T)
      → pack_destination a target ≡ append_all (destination_chunks a) target
  unfolding pack_destination
  pack_destination-chunks none target = unfold destination_chunks append_all in refl
  pack_destination-chunks (some a) target = pack_full-chunks a target

  pack_source-chunks :
      (compressed : Bool) (a : Option FullAddress) (target : T)
      → pack_source compressed a target ≡ append_all (source_chunks compressed a) target
  unfolding pack_source source_chunks
  pack_source-chunks compressed none target = unfold append_all in refl
  pack_source-chunks true (some a) target = pack_address_data-chunks a.address target
  pack_source-chunks false (some a) target = pack_full-chunks a target

  pack_sequence-chunks :
      (n : Option ℕ) (target : T)
      → pack_option (pack_uint 1) n target ≡ append_all (sequence_chunks n) target
  unfolding pack_option sequence_chunks pack_uint
  pack_sequence-chunks none target = unfold append_all in refl
  pack_sequence-chunks (some n) target = append-one _ target

  pack_command-chunks :
      (c : Command) (target : T)
      → pack_command c target ≡ append_all (to_le_bytes 1 (command_tag c) ∷ command_chunks c) target
  unfolding pack_command command_chunks append_all pack_uint
  pack_command-chunks (association_request info) target = refl
  pack_command-chunks (association_response r) target =
      ap (λ k. append (to_le_bytes 1 2) target >>= k)
        (λ i u. append (to_le_bytes 2 (response_address r.status).value) u >>= λ v.
          append-one (to_le_bytes 1 (status_byte r)) v i)
  pack_command-chunks data_request target = refl
  pack_command-chunks beacon_request target = refl

module _ ⦃b : Bitfield⦄ {T : Type 0} ⦃t : PackTarget T⦄ where
  pack_beacon-chunks :
      (f : Beacon) (target : T)
      → BeaconFits f
      → pack_beacon f target ≡ append_all (body_chunks (FrameType.beacon f)) target
  unfolding pack_beacon pack_pair pack_payload body_chunks pack_uint append_all
  pack_beacon-chunks f target (h, h', h'') =
      rw (in_range _ h, in_range _ h', in_range _ h'', pack_beacon, pack_pair)
        (simp (>>=-assoc, >>=-ok))

  pack_body-chunks :
      (f : FrameType) (target : T)
      → BodyFits f
      → pack_frame_type f target ≡ append_all (body_chunks f) target
  unfolding pack_frame_type body_chunks pack_payload
  pack_body-chunks (FrameType.beacon f) target h = pack_beacon-chunks f target h
  pack_body-chunks (FrameType.data_frame p) target h = append-one p.bytes target
  pack_body-chunks (FrameType.ack p) target h = append-one p.bytes target
  pack_body-chunks (FrameType.command c) target h = pack_command-chunks c target
  pack_body-chunks (FrameType.reserved p) target h = append-one p.bytes target
  pack_body-chunks (FrameType.multipurpose p) target h = append-one p.bytes target
  pack_body-chunks (FrameType.fragment p) target h = append-one p.bytes target
  pack_body-chunks (FrameType.extended p) target h = append-one p.bytes target

  -- Packing a frame whose contents fit appends the chunks of its layout, whatever the target.
  pub pack-chunks :
      (f : Frame) (target : T)
      → BodyFits f.frame_type
      → pack f target ≡ append_all (frame_chunks f) target
  unfolding pack frame_chunks pack_uint append_all
  pack-chunks f target h =
      (λ i. append (to_le_bytes 2 (write_control f)) target >>= λ u.
      pack_sequence-chunks f.sequence_number u i >>= λ v.
      pack_destination-chunks f.destination v i >>= λ w.
      pack_source-chunks (uses_compression f.destination f.source) f.source w i >>= λ x.
      pack_body-chunks f.frame_type x h i)
      ∙ simp append_all-append
