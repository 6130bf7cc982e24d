-- ===== src/Frame/Words.antt =====
-- The words of bit fields as sums: what the setters of `Frame::pack` and `Beacon::pack` write, and
-- what the getters read back.
use zigbee_rust_playground.Common.{
  ℕ, ◌+◌, ◌*◌, ◌/◌, ◌%◌, ◌^◌, ◌-◌, ◌≤◌, ◌<◌, ◌≡◌, refl, ◌∙◌, arith, Bool, true, false, bit_of, ◌==◌,
  not, is_some, Option, none, some,
}
use native.Mathlib.Nat.{pow-le-pow_right, div-eq_of_lt, mod-eq_of_lt}
use zigbee_rust_playground.Bitfield.{Bitfield}
use zigbee_rust_playground.Frame.Types.{Frame, FrameType, FullAddress, Beacon}
use zigbee_rust_playground.Frame.Address.{address_tag}
use zigbee_rust_playground.Frame.Control.{
  read_control, write_control, frame_type_tag, address_mode_tag, uses_compression,
}
use zigbee_rust_playground.Frame.Beacon.{read_superframe, write_superframe}
use zigbee_rust_playground.Frame.Layout.{BeaconFits}

pub bit_of-lt : (x : Bool) → bit_of x < 2
bit_of-lt true = omega arith
bit_of-lt false = omega arith

pub bit_of-not_zero : (x : Bool) → not (bit_of x == 0) ≡ x
bit_of-not_zero true = refl
bit_of-not_zero false = refl

pub frame_type_tag-lt : (x : FrameType) → frame_type_tag x < 8
unfolding frame_type_tag
frame_type_tag-lt x = ground arith

pub address_mode_tag-lt : (a : Option FullAddress) → address_mode_tag a < 4
unfolding address_mode_tag address_tag
address_mode_tag-lt none = omega arith
address_mode_tag-lt (some a) = ground arith

module _ ⦃b : Bitfield⦄ where
  -- Setting a field above all the bits that are set adds its value at the field's place.
  set_fresh :
      (hi lo word value : ℕ)
      → (lo ≤ hi) × (hi < 16) × (word < 2 ^ lo) × (value < 2 ^ (hi + 1 - lo))
      → b.set hi lo word value ≡ word + value * 2 ^ lo
  set_fresh hi lo word value (p, q, r, v) =
      let below : 2 ^ lo ≤ 2 ^ (hi + 1) = pow-le-pow_right (omega arith) (omega arith) in
      let small : 2 ^ lo ≤ 2 ^ 16 = pow-le-pow_right (omega arith) {j = 16} (omega arith) in
      b.set_lem hi lo word value p q (omega arith)
      ∙ rw
          (div-eq_of_lt {n = word} {m = 2 ^ (hi + 1)} (omega arith), mod-eq_of_lt v, mod-eq_of_lt r)
          (omega arith)

  module _ (t p a c s d m : ℕ)
      (fit : (t < 8) × (p < 2) × (a < 2) × (c < 2) × (s < 2) × (d < 4) × (m < 4)) where
    control_sum : ℕ
    control_sum = t + 16 * p + 32 * a + 64 * c + 256 * s + 1024 * d + 16384 * m

    set_control :
        (let w = b.set 2 0 0 t in
          let w = b.set 3 3 w 0 in
          let w = b.set 4 4 w p in
          let w = b.set 5 5 w a in
          let w = b.set 6 6 w c in
          let w = b.set 7 7 w 0 in
          let w = b.set 8 8 w s in
          let w = b.set 9 9 w 0 in
          let w = b.set 11 10 w d in let w = b.set 15 14 w m in b.set 13 12 w 0)
        ≡ control_sum
    unfolding control_sum
    set_control =
        let w1 = b.set 2 0 0 t in
        let e1 = set_fresh 2 0 0 t (omega arith) in
        let w2 = b.set 3 3 w1 0 in
        let e2 = set_fresh 3 3 w1 0 (omega arith) in
        let w3 = b.set 4 4 w2 p in
        let e3 = set_fresh 4 4 w2 p (omega arith) in
        let w4 = b.set 5 5 w3 a in
        let e4 = set_fresh 5 5 w3 a (omega arith) in
        let w5 = b.set 6 6 w4 c in
        let e5 = set_fresh 6 6 w4 c (omega arith) in
        let w6 = b.set 7 7 w5 0 in
        let e6 = set_fresh 7 7 w5 0 (omega arith) in
        let w7 = b.set 8 8 w6 s in
        let e7 = set_fresh 8 8 w6 s (omega arith) in
        let w8 = b.set 9 9 w7 0 in
        let e8 = set_fresh 9 9 w7 0 (omega arith) in
        let w9 = b.set 11 10 w8 d in
        let e9 = set_fresh 11 10 w8 d (omega arith) in
        let w10 = b.set 15 14 w9 m in
        let e10 = set_fresh 15 14 w9 m (omega arith) in
        omega (arith, b.set_lem 13 12 w10 0 (omega arith) (omega arith) (omega arith))

    read_control_sum : read_control control_sum ≡ record {
      frame_type = t;
      security_enabled = 0;
      frame_pending = p;
      acknowledge_request = a;
      pan_id_compression = c;
      sequence_number_supression = s;
      information_elements_present = 0;
      destination_addressing_mode = d;
      source_addressing_mode = m;
    }
    unfolding control_sum read_control
    read_control_sum =
        let field : (hi lo : ℕ)
            → (lo ≤ hi) × (hi < 16)
            → b.get hi lo control_sum ≡ control_sum / 2 ^ lo % 2 ^ (hi + 1 - lo) =
          λ hi lo (q, r). b.get_lem hi lo control_sum q r (omega arith) in
        ground (
          arith,
          field 2 0 (omega arith),
          field 3 3 (omega arith),
          field 4 4 (omega arith),
          field 5 5 (omega arith),
          field 6 6 (omega arith),
          field 8 8 (omega arith),
          field 9 9 (omega arith),
          field 11 10 (omega arith),
          field 15 14 (omega arith),
        )

  -- What `Frame::unpack` reads from the word that `Frame::pack` writes.
  pub read-write_control :
      (f : Frame)
      → (write_control f < 256 ^ 2)
        × (read_control (write_control f) ≡ record {
          frame_type = frame_type_tag f.frame_type;
          security_enabled = 0;
          frame_pending = bit_of f.frame_pending;
          acknowledge_request = bit_of f.acknowledge_request;
          pan_id_compression = bit_of (uses_compression f.destination f.source);
          sequence_number_supression = bit_of (not (is_some f.sequence_number));
          information_elements_present = 0;
          destination_addressing_mode = address_mode_tag f.destination;
          source_addressing_mode = address_mode_tag f.source;
        })
  unfolding write_control
  read-write_control f =
      let t = frame_type_tag f.frame_type in
      let p = bit_of f.frame_pending in
      let a = bit_of f.acknowledge_request in
      let c = bit_of (uses_compression f.destination f.source) in
      let s = bit_of (not (is_some f.sequence_number)) in
      let d = address_mode_tag f.destination in
      let m = address_mode_tag f.source in
      let fit : (t < 8) × (p < 2) × (a < 2) × (c < 2) × (s < 2) × (d < 4) × (m < 4) = (
        frame_type_tag-lt f.frame_type,
        bit_of-lt f.frame_pending,
        bit_of-lt f.acknowledge_request,
        bit_of-lt (uses_compression f.destination f.source),
        bit_of-lt (not (is_some f.sequence_number)),
        address_mode_tag-lt f.destination,
        address_mode_tag-lt f.source,
      ) in
      rw (set_control t p a c s d m fit)
        (unfold control_sum in omega arith, read_control_sum t p a c s d m fit)

  module _ (o u f l c a : ℕ)
      (fit : (o < 16) × (u < 16) × (f < 16) × (l < 2) × (c < 2) × (a < 2)) where
    superframe_sum : ℕ
    superframe_sum = o + 16 * u + 256 * f + 4096 * l + 16384 * c + 32768 * a

    set_superframe :
        (let w = b.set 3 0 0 o in
          let w = b.set 7 4 w u in
          let w = b.set 11 8 w f in
          let w = b.set 12 12 w l in
          let w = b.set 13 13 w 0 in let w = b.set 14 14 w c in b.set 15 15 w a)
        ≡ superframe_sum
    unfolding superframe_sum
    set_superframe =
        let w1 = b.set 3 0 0 o in
        let e1 = set_fresh 3 0 0 o (omega arith) in
        let w2 = b.set 7 4 w1 u in
        let e2 = set_fresh 7 4 w1 u (omega arith) in
        let w3 = b.set 11 8 w2 f in
        let e3 = set_fresh 11 8 w2 f (omega arith) in
        let w4 = b.set 12 12 w3 l in
        let e4 = set_fresh 12 12 w3 l (omega arith) in
        let w5 = b.set 13 13 w4 0 in
        let e5 = set_fresh 13 13 w4 0 (omega arith) in
        let w6 = b.set 14 14 w5 c in
        let e6 = set_fresh 14 14 w5 c (omega arith) in
        omega (arith, set_fresh 15 15 w6 a (omega arith))

    get_superframe :
        (b.get 3 0 superframe_sum ≡ o)
        × (b.get 7 4 superframe_sum ≡ u)
        × (b.get 11 8 superframe_sum ≡ f)
        × (b.get 12 12 superframe_sum ≡ l)
        × (b.get 14 14 superframe_sum ≡ c)
        × (b.get 15 15 superframe_sum ≡ a)
    unfolding superframe_sum
    get_superframe =
        let field : (hi lo : ℕ)
            → (lo ≤ hi) × (hi < 16)
            → b.get hi lo superframe_sum ≡ superframe_sum / 2 ^ lo % 2 ^ (hi + 1 - lo) =
          λ hi lo (q, r). b.get_lem hi lo superframe_sum q r (omega arith) in
        (
          omega (arith, field 3 0 (omega arith)),
          omega (arith, field 7 4 (omega arith)),
          omega (arith, field 11 8 (omega arith)),
          omega (arith, field 12 12 (omega arith)),
          omega (arith, field 14 14 (omega arith)),
          omega (arith, field 15 15 (omega arith)),
        )

  -- What `Beacon::unpack` reads from the word that `Beacon::pack` writes.
  pub read-write_superframe :
      (f : Beacon)
      → BeaconFits f
      → (write_superframe f < 256 ^ 2) × (read_superframe (write_superframe f) f.payload ≡ f)
  unfolding write_superframe read_superframe
  read-write_superframe f (h, h', h'') =
      let l = bit_of f.battery_life_extension in
      let c = bit_of f.pan_coordinator in
      let a = bit_of f.association_permit in
      let fit : (f.beacon_order < 16)
          × (f.superframe_order < 16)
          × (f.final_cap_slot < 16)
          × (l < 2)
          × (c < 2)
          × (a < 2) =
        (
          omega arith,
          omega arith,
          omega arith,
          bit_of-lt f.battery_life_extension,
          bit_of-lt f.pan_coordinator,
          bit_of-lt f.association_permit,
        ) in
      let (g1, g2, g3, g4, g5, g6) =
        get_superframe f.beacon_order f.superframe_order f.final_cap_slot l c a fit in
      rw (set_superframe f.beacon_order f.superframe_order f.final_cap_slot l c a fit)
        (unfold superframe_sum in omega arith, rw (g1, g2, g3, g4, g5, g6) (simp bit_of-not_zero))
