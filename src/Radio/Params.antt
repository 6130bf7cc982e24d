-- ===== src/Radio/Params.antt =====
-- Radio parameters as keys, and the equality tests that src/radio/mod.rs and raw.rs derive.
use zigbee_rust_playground.Common.{
  ◌==◌, ==_iff, ◌≡◌, refl, sym, ap, ◌∙◌, arith, Bool, true, false, some, get_elem?, List, [], ◌∷◌,
}
use zigbee_rust_playground.Common.Eq.{Eq}
use zigbee_rust_playground.Radio.{
  RawRadioParam, param_number, power_mode, channel, pan_id, short_address, rx_mode, tx_mode,
  tx_power, cca_threshold, rssi, last_rssi, last_link_quality, long_address, last_packet_timestamp,
  channel_min, channel_max, tx_power_min, tx_power_max, RadioParamValue, value_u16, value_u32,
  value_u64,
}

-- The parameters in the order of their numbers.
abbrev params : List RawRadioParam
params =
    power_mode ∷ channel ∷ pan_id ∷ short_address ∷ rx_mode ∷ tx_mode ∷ tx_power ∷ cca_threshold
    ∷ rssi ∷ last_rssi ∷ last_link_quality ∷ long_address ∷ last_packet_timestamp ∷ channel_min
    ∷ channel_max ∷ tx_power_min ∷ tx_power_max ∷ []

-- A parameter's number tells it apart.
get_elem-params : (p : RawRadioParam) → get_elem? params (param_number p) ≡ some p
unfolding param_number
get_elem-params power_mode = refl
get_elem-params channel = refl
get_elem-params pan_id = refl
get_elem-params short_address = refl
get_elem-params rx_mode = refl
get_elem-params tx_mode = refl
get_elem-params tx_power = refl
get_elem-params cca_threshold = refl
get_elem-params rssi = refl
get_elem-params last_rssi = refl
get_elem-params last_link_quality = refl
get_elem-params long_address = refl
get_elem-params last_packet_timestamp = refl
get_elem-params channel_min = refl
get_elem-params channel_max = refl
get_elem-params tx_power_min = refl
get_elem-params tx_power_max = refl

abbrev pub param_eq : RawRadioParam → RawRadioParam → Bool
param_eq a b = param_number a == param_number b

pub param_eq-elim : (a b : RawRadioParam) → param_eq a b ≡ true → a ≡ b
param_eq-elim a b h =
    let both : some a ≡ some b =
      sym (get_elem-params a)
      ∙ ap (get_elem? params) ((==_iff (param_number a) (param_number b)).0 h)
      ∙ get_elem-params b in
    ground (arith, both)

pub param_eq_refl : (a : RawRadioParam) → param_eq a a ≡ true
param_eq_refl a = ground arith

instance abbrev pub param_key : Eq RawRadioParam
param_key = record {
  beq = param_eq;
  beq_law = λ a b. (param_eq-elim a b, λ h. rw h (param_eq_refl b));
}

abbrev pub value_eq : RadioParamValue → RadioParamValue → Bool
value_eq (value_u16 a) (value_u16 b) = a == b
value_eq (value_u32 a) (value_u32 b) = a == b
value_eq (value_u64 a) (value_u64 b) = a == b
value_eq _ _ = false

pub value_eq-elim : (a b : RadioParamValue) → value_eq a b ≡ true → a ≡ b
value_eq-elim (value_u16 a) (value_u16 b) h = ap value_u16 ((==_iff a b).0 h)
value_eq-elim (value_u16 a) (value_u32 b) h = absurd (ground (arith, h))
value_eq-elim (value_u16 a) (value_u64 b) h = absurd (ground (arith, h))
value_eq-elim (value_u32 a) (value_u16 b) h = absurd (ground (arith, h))
value_eq-elim (value_u32 a) (value_u32 b) h = ap value_u32 ((==_iff a b).0 h)
value_eq-elim (value_u32 a) (value_u64 b) h = absurd (ground (arith, h))
value_eq-elim (value_u64 a) (value_u16 b) h = absurd (ground (arith, h))
value_eq-elim (value_u64 a) (value_u32 b) h = absurd (ground (arith, h))
value_eq-elim (value_u64 a) (value_u64 b) h = ap value_u64 ((==_iff a b).0 h)
