-- ===== src/Frame.antt =====
-- src/ieee802154/frame.rs: the frames of IEEE 802.15.4, and their packing and unpacking.
pub mod Types
pub mod Address
pub mod Beacon
pub mod Command
pub mod Control
pub mod Codec
pub mod Layout
pub mod Words
pub mod Valid
pub mod Keys
pub mod ReadHeader
pub mod ReadBody
pub mod RoundTrip
