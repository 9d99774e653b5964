-- ===== src/EeCore.antt =====
-- EE_core: the resident part on the main processor.
pub mod Patches
mod Tests
