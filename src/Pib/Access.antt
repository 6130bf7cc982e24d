-- ===== src/Pib/Access.antt =====
-- What `get` reads after a `set`.
use zigbee_rust_playground.Common.{
  ◌≡◌, ◌≢◌, refl, sym, arith, ap, ℕ, Bool, List, Option, none, some, ok,
}
use zigbee_rust_playground.Frame.Types.{ShortAddress, PanId}
use zigbee_rust_playground.Pib.{
  PibProperty, PibValue, Pib, get, set, reset, from_coord, assign, try_bool, try_u8, try_u16,
  try_blob, try_duration, try_short_address, try_pan_id,
}

assign-ok :
    {A : Type 0} (o : Option A) (write : A → Pib) (q : Pib)
    → assign o write ≡ ok q
    → (a : A) × (o ≡ some a) × (q ≡ write a)
unfolding assign
assign-ok none write q h = absurd (ground (arith, h))
assign-ok (some a) write q h = (a, refl, ground (arith, h))

try_bool-some : (v : PibValue) (a : Bool) → try_bool v ≡ some a → v ≡ PibValue.bool a
unfolding try_bool
try_bool-some v a h = ground (arith, h)

try_u8-some : (v : PibValue) (a : ℕ) → try_u8 v ≡ some a → v ≡ PibValue.u8 a
unfolding try_u8
try_u8-some v a h = ground (arith, h)

try_u16-some : (v : PibValue) (a : ℕ) → try_u16 v ≡ some a → v ≡ PibValue.u16 a
unfolding try_u16
try_u16-some v a h = ground (arith, h)

try_blob-some : (v : PibValue) (a : List ℕ) → try_blob v ≡ some a → v ≡ PibValue.blob a
unfolding try_blob
try_blob-some v a h = ground (arith, h)

try_duration-some : (v : PibValue) (a : ℕ) → try_duration v ≡ some a → v ≡ PibValue.duration a
unfolding try_duration
try_duration-some v a h = ground (arith, h)

try_short_address-some :
    (v : PibValue) (a : ShortAddress) → try_short_address v ≡ some a → v ≡ PibValue.short_address a
unfolding try_short_address
try_short_address-some v a h = ground (arith, h)

try_pan_id-some : (v : PibValue) (a : PanId) → try_pan_id v ≡ some a → v ≡ PibValue.pan_id a
unfolding try_pan_id
try_pan_id-some v a h = ground (arith, h)

-- A property that was set reads as the value it was set to.
pub get-set : (k : PibProperty) (v : PibValue) (p q : Pib) → set k v p ≡ ok q → get k q ≡ some v
unfolding get set from_coord
get-set PibProperty.mac_extended_address v p q h = absurd (ground (arith, h))
get-set PibProperty.mac_associated_pan_coord v p q h = absurd (ground (arith, h))
get-set PibProperty.mac_max_frame_retries v p q h = absurd (ground (arith, h))
get-set PibProperty.mac_association_permit v p q h =
    let (x, e1, e2) = assign-ok (try_bool v) (λ x. record p { mac_association_permit = x }) q h in
    rw (e2, try_bool-some v x e1)
get-set PibProperty.mac_beacon_payload v p q h =
    let (x, e1, e2) = assign-ok (try_blob v) (λ x. record p { mac_beacon_payload = x }) q h in
    rw (e2, try_blob-some v x e1)
get-set PibProperty.mac_bsn v p q h =
    let (x, e1, e2) = assign-ok (try_u8 v) (λ x. record p { mac_bsn = x }) q h in
    rw (e2, try_u8-some v x e1)
get-set PibProperty.mac_dsn v p q h =
    let (x, e1, e2) = assign-ok (try_u8 v) (λ x. record p { mac_dsn = x }) q h in
    rw (e2, try_u8-some v x e1)
get-set PibProperty.mac_pan_id v p q h =
    let (x, e1, e2) = assign-ok (try_pan_id v) (λ x. record p { mac_pan_id = x }) q h in
    rw (e2, try_pan_id-some v x e1)
get-set PibProperty.mac_short_address v p q h =
    let (x, e1, e2) =
      assign-ok (try_short_address v) (λ x. record p { mac_short_address = x }) q h in
    rw (e2, try_short_address-some v x e1)
get-set PibProperty.mac_beacon_auto_respond v p q h =
    let (x, e1, e2) = assign-ok (try_bool v) (λ x. record p { mac_beacon_auto_respond = x }) q h in
    rw (e2, try_bool-some v x e1)
get-set PibProperty.mac_transaction_persistence_time v p q h =
    let (x, e1, e2) =
      assign-ok (try_duration v) (λ x. record p { mac_transaction_persistence_time = x }) q h in
    rw (e2, try_duration-some v x e1)
get-set PibProperty.phy_current_channel v p q h =
    let (x, e1, e2) = assign-ok (try_u16 v) (λ x. record p { phy_current_channel = x }) q h in
    rw (e2, try_u16-some v x e1)
get-set PibProperty.phy_max_tx_power v p q h =
    let (x, e1, e2) = assign-ok (try_u16 v) (λ x. record p { phy_max_tx_power = x }) q h in
    rw (e2, try_u16-some v x e1)
get-set PibProperty.phy_tx_power v p q h =
    let (x, e1, e2) = assign-ok (try_u16 v) (λ x. record p { phy_tx_power = x }) q h in
    rw (e2, try_u16-some v x e1)

-- Setting a property leaves every other one as it reads.
pub get-set_other :
    (k j : PibProperty) (v : PibValue) (p q : Pib) → j ≢ k → set k v p ≡ ok q → get j q ≡ get j p
unfolding get set
get-set_other PibProperty.mac_extended_address j v p q ne h = absurd (ground (arith, h))
get-set_other PibProperty.mac_associated_pan_coord j v p q ne h = absurd (ground (arith, h))
get-set_other PibProperty.mac_max_frame_retries j v p q ne h = absurd (ground (arith, h))
get-set_other PibProperty.mac_association_permit j v p q ne h =
    let (x, e1, e2) = assign-ok (try_bool v) (λ x. record p { mac_association_permit = x }) q h in
    rw e2 (ground (arith, ne))
get-set_other PibProperty.mac_beacon_payload j v p q ne h =
    let (x, e1, e2) = assign-ok (try_blob v) (λ x. record p { mac_beacon_payload = x }) q h in
    rw e2 (ground (arith, ne))
get-set_other PibProperty.mac_bsn j v p q ne h =
    let (x, e1, e2) = assign-ok (try_u8 v) (λ x. record p { mac_bsn = x }) q h in
    rw e2 (ground (arith, ne))
get-set_other PibProperty.mac_dsn j v p q ne h =
    let (x, e1, e2) = assign-ok (try_u8 v) (λ x. record p { mac_dsn = x }) q h in
    rw e2 (ground (arith, ne))
get-set_other PibProperty.mac_pan_id j v p q ne h =
    let (x, e1, e2) = assign-ok (try_pan_id v) (λ x. record p { mac_pan_id = x }) q h in
    rw e2 (ground (arith, ne))
get-set_other PibProperty.mac_short_address j v p q ne h =
    let (x, e1, e2) =
      assign-ok (try_short_address v) (λ x. record p { mac_short_address = x }) q h in
    rw e2 (ground (arith, ne))
get-set_other PibProperty.mac_beacon_auto_respond j v p q ne h =
    let (x, e1, e2) = assign-ok (try_bool v) (λ x. record p { mac_beacon_auto_respond = x }) q h in
    rw e2 (ground (arith, ne))
get-set_other PibProperty.mac_transaction_persistence_time j v p q ne h =
    let (x, e1, e2) =
      assign-ok (try_duration v) (λ x. record p { mac_transaction_persistence_time = x }) q h in
    rw e2 (ground (arith, ne))
get-set_other PibProperty.phy_current_channel j v p q ne h =
    let (x, e1, e2) = assign-ok (try_u16 v) (λ x. record p { phy_current_channel = x }) q h in
    rw e2 (ground (arith, ne))
get-set_other PibProperty.phy_max_tx_power j v p q ne h =
    let (x, e1, e2) = assign-ok (try_u16 v) (λ x. record p { phy_max_tx_power = x }) q h in
    rw e2 (ground (arith, ne))
get-set_other PibProperty.phy_tx_power j v p q ne h =
    let (x, e1, e2) = assign-ok (try_u16 v) (λ x. record p { phy_tx_power = x }) q h in
    rw e2 (ground (arith, ne))

-- After the transmit power was set and the PIB reset, the highest transmit power reads as the transmit
-- power that was set, whatever the highest one was.
pub get-reset_set :
    (bsn dsn w : ℕ) (p q : Pib)
    → set PibProperty.phy_tx_power (PibValue.u16 w) p ≡ ok q
    → get PibProperty.phy_max_tx_power (reset bsn dsn q) ≡ some (PibValue.u16 w)
unfolding get set reset
get-reset_set bsn dsn w p q h =
    let (x, e1, e2) =
      assign-ok (try_u16 (PibValue.u16 w)) (λ x. record p { phy_tx_power = x }) q h in
    rw e2 (ap some (sym (try_u16-some (PibValue.u16 w) x e1)))
