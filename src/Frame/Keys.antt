-- ===== src/Frame/Keys.antt =====
-- Addresses as keys of the tables.
use zigbee_rust_playground.Common.{◌≡◌, ap, arith, ==_iff, ◌==◌, true}
use zigbee_rust_playground.Common.Eq.{Eq}
use zigbee_rust_playground.Frame.Types.{
  PanId, ShortAddress, ExtendedAddress, Address, FullAddress, address_eq, full_address_eq,
}

short_of : {a b : ShortAddress} → a.value ≡ b.value → a ≡ b
short_of e i = record { value = e i }

extended_of : {a b : ExtendedAddress} → a.value ≡ b.value → a ≡ b
extended_of e i = record { value = e i }

pan_of : {a b : PanId} → a.value ≡ b.value → a ≡ b
pan_of e i = record { value = e i }

address_eq-elim : (a b : Address) → address_eq a b ≡ true → a ≡ b
address_eq-elim (Address.short a) (Address.short b) h =
    ap Address.short (short_of ((==_iff a.value b.value).0 h))
address_eq-elim (Address.short a) (Address.extended b) h = absurd (ground (arith, h))
address_eq-elim (Address.extended a) (Address.short b) h = absurd (ground (arith, h))
address_eq-elim (Address.extended a) (Address.extended b) h =
    ap Address.extended (extended_of ((==_iff a.value b.value).0 h))

address_eq_refl : (a : Address) → address_eq a a ≡ true
address_eq_refl (Address.short a) = ground arith
address_eq_refl (Address.extended a) = ground arith

full_of : {a b : FullAddress} → a.pan_id ≡ b.pan_id → a.address ≡ b.address → a ≡ b
full_of e e' i = record { pan_id = e i; address = e' i }

pub full_address_eq-elim : (a b : FullAddress) → full_address_eq a b ≡ true → a ≡ b
full_address_eq-elim a b h =
    let same_pan : (a.pan_id.value == b.pan_id.value) ≡ true = ground (arith, h) in
    let same_address : address_eq a.address b.address ≡ true = ground (arith, h) in
    full_of (pan_of ((==_iff a.pan_id.value b.pan_id.value).0 same_pan))
      (address_eq-elim a.address b.address same_address)

pub full_address_eq_refl : (a : FullAddress) → full_address_eq a a ≡ true
full_address_eq_refl a = ground (arith, address_eq_refl a.address)

instance abbrev pub full_address_key : Eq FullAddress
full_address_key = record {
  beq = full_address_eq;
  beq_law = λ a b. (full_address_eq-elim a b, λ h. rw h (full_address_eq_refl b));
}
