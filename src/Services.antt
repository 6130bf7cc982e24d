-- ===== src/Services.antt =====
-- src/ieee802154/services: the primitives of the MAC's two services. A `MsduHandle` is a number.
pub mod Mcps
pub mod Mlme
