-- ===== src/Gui.antt =====
-- gui: the loader that the player sees.
pub mod History
mod Crc16
mod Plugins
