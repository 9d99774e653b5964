-- ===== src/Lib.antt =====
-- PS2ESDL lets a PlayStation 2 run games from an USB device. A loader (gui) reboots the I/O processor
-- with replacement modules, and these take the place of the CD/DVD drive. This library models
--
-- - Cdvdman: modules/cdvdman, the emulated drive. Command.antt is the command state, send_asynccmd, the
--   passes of cdvd_asyncthread and intr_cb (cdvdman_internal.c); Drive.antt a read while it is in flight
--   (cdvdman_read_noCB, sceCdSync, isLSNValid), over the interface `Medium` of what a read brings;
--   AsyncRead.antt the loop of async_read to the memory of the I/O processor, which calls read_sector,
--   and AsyncRead/Usb.antt fills the interface with it; Stream.antt the streaming calls
--   (stInit, stReadRingBuffer, sceCdStInit, sceCdStStart, sceCdStSeekF, sceCdStRead of
--   cdvdman_main.c); Position.antt sceCdIntToPos and sceCdPosToInt; SectorIo.antt read_sector of
--   sector_io.c with the device configuration; Directory.antt cdvdman_CdReturnFileInfo, the search of a
--   directory; PathSearch.antt cdvdman_CdSearchFile, cdvdman_open and cdrom_dread, with the semaphore of
--   the searches; File.antt cdrom_read and cdrom_lseek of device.c.
-- - Udnl: modules/udnl/udnl.c, which loads the modules after the reboot. Romdir.antt is the directory of
--   a boot image (GetFileStatFromImage, GetFileInfo), Modules.antt the choice among the images
--   (ScanImagesForFile, SelectModuleFromImages), Address.antt ParseStartAddress, Relocation.antt the
--   relocations of one word or pair, Loader.antt the loading of a module (LoadELFModule, LoadCOFFModule,
--   LoadIRXModule, LoadModule), Boot.antt InitModuleInfo and BeginBootupSequence, Image.antt
--   GetIOPRPStat, Config.antt ParseIOPBTCONF.
-- - EeCore: EE_core/patches.c, the patches to a game that was loaded (patch_ELF, scan_pattern).
-- - Gui: gui/OSDHistory.c, the play history. History.antt is AddHistoryRecord on the entries, and
--   GetBootFilename; History/Card.antt the files of the two memory cards. Crc16.antt is gui/crc16.c with
--   HasValidPS2Logo of gui/system.c, Plugins.antt LoadPlugins of gui/plugin.c.
-- - Prelude: tests on numbers, lists with native indices, machine words.
--
-- Numbers are natural numbers, wrapped to the width of the C type where the code computes. A pointer
-- is an address, memory a function from addresses to bytes, the disc a function from positions to
-- bytes. Stream.antt stands on Drive.antt: every copy reads memory through `view`, in which a
-- schedule decides what has arrived of the command in flight, and sceCdSync waits for all of it.
-- File.antt stands on Drive.antt too, with reads that are waited for. The disc lies in slices on the USB
-- device; the interface `Medium` speaks of reads within one slice, and leaves open the cache of the
-- driver, into which async_read reads for a destination that is not aligned. Command.antt has the same
-- commands without their data: its steps are what the thread and the interrupt do between two calls.
-- Udnl/Modules.antt stands on Udnl/Romdir.antt, Udnl/Boot.antt on Udnl/Loader.antt; memory there is a
-- function from the addresses of words to words.
--
-- The loops of sceCdStRead, async_read and read_sector run on fuel, one unit for each sector asked
-- for, those of GetFileInfo and CopySection on one unit for each word, that of GetIOPRPStat on one for
-- each record and one more, ParseIOPBTCONF on one for each character and, for its recursion, one for
-- each image, the draw of a free bit in AddHistoryRecord on the number of results of rand() in which
-- every value comes up, and the search of patch_ELF on one for each word of memory that is left and one
-- more; the theorems show that it is enough. The search of a directory or a path need not end, and its
-- fuel is an argument: one round for each record of the directory is enough. LoadPlugins need not end
-- either; three passes are enough when each plugin has at least as many modules as the number of its
-- file. The other loops are recursions on what they run over.
--
-- Not modelled: the USB stack (modules/usbd, modules/usbhdfsd and the copies in modules/cdvdman,
-- which come from the ps2sdk), the transfer cbw_scsi_read_sector, which is the device's contents here,
-- thread and semaphore calls of the I/O processor's kernel, the printing of messages, and what is
-- written behind an array of fixed size: the names of an !include and the list of modules of
-- ParseIOPBTCONF, the names of a path and of a game are lists without a bound. Left out too:
-- reads of async_read to the memory of the main processor, the S-commands, cdvdfsv, eesync, the lists
-- of games, the screens of gui.
pub mod Prelude
pub mod Cdvdman
pub mod Udnl
pub mod Gui
pub mod EeCore
