-- ===== src/Utils.antt =====
-- backend/src/utils.
pub mod Network
pub mod Probing
