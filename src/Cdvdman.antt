-- ===== src/Cdvdman.antt =====
-- modules/cdvdman: the emulated CD/DVD drive.
pub mod Drive
pub mod Command
pub mod Stream
pub mod Position
pub mod SectorIo
pub mod AsyncRead
pub mod Directory
pub mod PathSearch
pub mod File
mod Tests
