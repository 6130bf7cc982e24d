-- ===== src/Zigbee.antt =====
-- The earlier implementation of Zigbee's layers under old_src/zigbee.
pub mod Security
