-- ===== src/Zigbee/Security.antt =====
-- old_src/zigbee/security: authentication codes over a block cipher.
pub mod CbcMac
pub mod MmoHash
