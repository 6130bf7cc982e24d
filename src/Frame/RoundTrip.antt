-- ===== src/Frame/RoundTrip.antt =====
-- `Frame::pack` against its layout on both targets, and against `Frame::unpack`.
use zigbee_rust_playground.Common.{
  ℕ, ◌≤◌, ◌<◌, ◌≡◌, ◌∙◌, ◌⊎◌, inl, inr, List, [], ◌++◌, ◌>>=◌, take-append-drop, sym, length, drop,
  ok, err, is_some, not, bit_of, arith,
}
use zigbee_rust_playground.Bitfield.{Bitfield}
use zigbee_rust_playground.Pack.{
  vec_target, slice_target, unpack_uint, VecPackTarget, vec_new, SlicePackTarget, slice_new,
  target_error, not_enough_space, not_enough_data,
}
use zigbee_rust_playground.Pack.RoundTrip.{unpack_uint-to_le_bytes}
use zigbee_rust_playground.Pack.Targets.{concat, concat-append, append_all-vec, append_all-slice}
use zigbee_rust_playground.Frame.Types.{
  Frame, FrameType, association_request, CapabilityInformation,
}
use zigbee_rust_playground.Frame.Codec.{unpack_frame_type, unpack, unpack_fields, pack}
use zigbee_rust_playground.Frame.Control.{
  read_control, address_mode_tag, write_control, uses_compression, frame_type_tag,
}
use zigbee_rust_playground.Frame.Layout.{
  BodyFits, frame_chunks, pack-chunks, sequence_chunks, destination_chunks, source_chunks,
  body_chunks,
}
use zigbee_rust_playground.Frame.ReadHeader.{
  unpack_sequence-chunks, unpack_destination-chunks, unpack_source-chunks, mode_try_from_tag-mode,
}
use zigbee_rust_playground.Frame.ReadBody.{unpack_body-chunks, unpack_body-association_request}
use zigbee_rust_playground.Frame.Valid.{IsFrame, IsWritten}
use zigbee_rust_playground.Frame.Words.{read-write_control, bit_of-not_zero}

module _ ⦃b : Bitfield⦄ where
  -- A frame whose beacon numbers fit is packed into a vector as its layout.
  pub pack-vec :
      (f : Frame)
      → BodyFits f.frame_type
      → pack f vec_new ≡ ok (record { bytes = concat (frame_chunks f) })
  pack-vec f fits =
      pack-chunks f vec_new fits ∙ unfold vec_new in append_all-vec (frame_chunks f) vec_new

  unpack_step :
      (bytes : List ℕ) (word : ℕ) (rest : List ℕ)
      → unpack_uint 2 bytes ≡ ok (word, rest)
      → unpack bytes ≡ unpack_fields (read_control word) rest
  unfolding unpack
  unpack_step bytes word rest e = rw e

  -- The fields behind the control word are read back, whatever the contents are read as.
  unpack_fields-chunks :
      (f : Frame) (body : List ℕ)
      → IsFrame f
      → unpack_fields
          (record {
            frame_type = frame_type_tag f.frame_type;
            security_enabled = 0;
            frame_pending = bit_of f.frame_pending;
            acknowledge_request = bit_of f.acknowledge_request;
            pan_id_compression = bit_of (uses_compression f.destination f.source);
            sequence_number_supression = bit_of (not (is_some f.sequence_number));
            information_elements_present = 0;
            destination_addressing_mode = address_mode_tag f.destination;
            source_addressing_mode = address_mode_tag f.source;
          })
          (concat (sequence_chunks f.sequence_number)
            ++ (concat (destination_chunks f.destination)
                ++ (concat (source_chunks (uses_compression f.destination f.source) f.source)
                    ++ body)))
        ≡ (unpack_frame_type (frame_type_tag f.frame_type) body >>= λ p.
            ok (record f { frame_type = p.0 }, p.1))
  unfolding unpack_fields
  unpack_fields-chunks f body v = rw (
    unpack_sequence-chunks f.sequence_number _ v.sequence_number,
    mode_try_from_tag-mode f.destination,
    unpack_destination-chunks f.destination _ v.destination,
    mode_try_from_tag-mode f.source,
    unpack_source-chunks f.destination f.source _ v.source,
    bit_of-not_zero f.frame_pending,
    bit_of-not_zero f.acknowledge_request,
  )

  unpack-chunks :
      (f : Frame)
      → IsFrame f
      → unpack (concat (frame_chunks f)) ≡ (
          unpack_frame_type (frame_type_tag f.frame_type) (concat (body_chunks f.frame_type))
          >>= λ p. ok (record f { frame_type = p.0 }, p.1))
  unfolding frame_chunks
  unpack-chunks f v =
      let (small, fields) = read-write_control f in
      unpack_step _ (write_control f) _ (unpack_uint-to_le_bytes 2 (write_control f) _ small)
      ∙ rw
          (
            fields,
            concat-append (sequence_chunks f.sequence_number),
            concat-append (destination_chunks f.destination),
            concat-append (source_chunks (uses_compression f.destination f.source) f.source),
          )
          (unpack_fields-chunks f (concat (body_chunks f.frame_type)) v)

  -- A frame of the ranges of its types, whose beacon numbers fit four bits and which is no association
  -- request, is packed into a fresh vector, and unpacking those bytes gives the frame and nothing more.
  pub unpack-pack :
      (f : Frame)
      → IsFrame f
      → BodyFits f.frame_type
      → IsWritten f.frame_type
      → (v : VecPackTarget) × (pack f vec_new ≡ ok v) × (unpack v.bytes ≡ ok (f, []))
  unpack-pack f v fits w = (
    record { bytes = concat (frame_chunks f) },
    pack-vec f fits,
    unpack-chunks f v ∙ rw (unpack_body-chunks f.frame_type fits v.body w),
  )

  -- Packed into a slice, a frame whose beacon numbers fit fills the front of the slice with the bytes
  -- that a vector gets and leaves the rest of it as it was, or does not fit and gives the target's error.
  pub pack-slice :
      (f : Frame) (target : List ℕ)
      → BodyFits f.frame_type
      → (let bytes = concat (frame_chunks f) in
          ((length bytes ≤ length target)
            × (s : SlicePackTarget) × (pack f (slice_new target) ≡ ok s)
            × (s.offset ≡ length bytes)
            × (s.target ≡ bytes ++ drop (length bytes) target))
          ⊎ ((length target < length bytes)
              × (pack f (slice_new target) ≡ err (target_error not_enough_space))))
  unfolding slice_new
  pack-slice f target fits =
      let bytes = concat (frame_chunks f) in
      elim (append_all-slice (frame_chunks f) (slice_new target) (omega arith)) [
        | inl (room, s, e, a) ↦
            let filled : s.offset ≡ length bytes = omega (arith, a.moved) in
            inl (
              omega arith,
              s,
              pack-chunks f (slice_new target) fits ∙ e,
              filled,
              sym (take-append-drop s.offset s.target) ∙ rw (a.written, a.untouched, filled),
            )
        | inr (over, e) ↦ inr (omega arith, pack-chunks f (slice_new target) fits ∙ e)
      ]

  -- An association request is packed without its capabilities, so it cannot be read back: whatever
  -- frame of the ranges of its types carries it, unpacking what was packed runs out of data.
  pub unpack-pack_association_request :
      (f : Frame) (info : CapabilityInformation)
      → IsFrame f
      → f.frame_type ≡ FrameType.command (association_request info)
      → (v : VecPackTarget) × (pack f vec_new ≡ ok v) × (unpack v.bytes ≡ err not_enough_data)
  unpack-pack_association_request f info v e = (
    record { bytes = concat (frame_chunks f) },
    pack-vec f (rw e tt),
    unpack-chunks f v ∙ rw e (rw (unpack_body-association_request info)),
  )
