-- ===== src/Udnl.antt =====
-- modules/udnl: the module that reboots the IOP with replacement modules.
pub mod Relocation
pub mod Romdir
pub mod Address
pub mod Modules
pub mod Loader
pub mod Boot
pub mod Image
pub mod Config
mod Tests
