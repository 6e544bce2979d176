-- ===== src/Lib.antt =====
-- libfcd: a C library that talks to FUNcube dongles over USB HID, with a firmware and a
-- diagnostic utility.
--
-- A dongle is addressed by its path. Everything goes through `fcd_io` of lib/fcd_common.c: it
-- opens the path, writes a report of a command byte and up to 63 bytes of data, reads a response
-- that repeats the command and has a status byte and up to 62 bytes of data, and closes the path.
-- The application interface (lib/fcd_application.c) and the bootloader interface
-- (lib/fcd_bootloader.c) encode their arguments for it and decode its answers.
--
-- The files:
--   Base         names shared by all modules: Boolean tests, lists, bits, and byte arrays with bounds
--   Word         lib/fcd_common.h: `convert_le_u16`, `convert_le_u32`, and the integers in memory
--   Platform     hidapi, malloc, strdup and usleep as parameters (record `Platform`); C's state and
--                control flow as `Sys` (the world, what the program has assigned to errno, open
--                handles, live blocks, output) and `Run`
--   Command      lib/fcd_cmd.h and `FCD_VALUE_ENUM` of include/fcd.h
--   Device       lib/fcd_common.c: `fcd_io`, `fcd_get`, `fcd_set`
--   Sleep        lib/fcd_common.c: `ms_sleep`, in each of the three builds
--   Discovery    lib/fcd_common.c: `fcd_open`, `fcd_close`, `fcd_query`, `fcd_for_each`, the resets
--   Application  lib/fcd_application.c
--   Bootloader   lib/fcd_bootloader.c
--   Api          include/fcd.h and the prototypes of lib/fcd_common.h: the functions as records,
--                and contracts for them
--   FlashOptions src/flash.c: the options, the action flags and the texts of the firmware utility
--   FlashTool    src/flash.c: the firmware utility
--   DebugTool    src/main.c, the diagnostic utility
--   Tuner        include/fcd_tuner.h, the values of the tuner
--   Tests        simulated dongles, and the code run on them
--
-- A C function is a `Cmd`: a function from the state to a `Run`, which is a result with the state
-- after it, the call of `exit`, an access out of bounds (`fault`), or the end of the fuel. A
-- pointer to bytes is NULL or the bytes from there to the end of the object; what a function
-- stores through it comes back beside its result. The transfer buffer of `fcd_io` is a list of 65
-- bytes that starts as junk, and Device.Transact has the same exchange with no buffer. The object
-- that `fread_all` allocates is as long as the size passed to `malloc`, and what `fread` stores
-- is checked against it.
--
-- What is relied on: that `hid_read` fills no more than asked and that a result that is no error
-- counts its bytes (`ReadsCounted`), that `fread` stores no more than its item, and all of it
-- where it counts it as read (`ReadsWhole`), and, where a theorem says that a dongle answers, the
-- commands of lib/fcd_cmd.h as `Chip` of Bootloader.Chip (the flash), `Setting` of
-- Application.Settings (the corrections and the frequency) and `Replies` of DebugTool.Output (the
-- query) state them. `Fleet` of FlashTool.Fleet is several such dongles that do not disturb one
-- another, and `Readable` of FlashTool.Upgrade.File an image file. The modules of Tests have an
-- instance of each.
--
-- Device.Session is what passes between the library and a device, a data type of exchanges by
-- their phases, and Bootloader.Commands and DebugTool.Session show which commands are among them.
-- Bootloader.Invariant carries a condition through the loops of the flash functions.
--
-- FlashTool.Upgrade follows the firmware utility over a fleet: one device (Upgrade), all devices
-- (Every), the file (File), `main` without a restart (Program), the restart into the bootloader
-- (Reboot, with the record `Reboots` of what a dongle does then: it comes back at a path that may
-- be another one), `main` with it (Full), the verify action alone (Verdict, Judge), and the write
-- action where a range does not suit the image: one device (Refuse), the walk that it ends
-- (Halt), and `main` (Failure). Application.Register is a register as a client sees it, which the
-- settings are compared with; the frequency is kept as the actual one that the dongle tunes to.
--
-- The firmware utility gets what `getopt_long` returns as a list, and files and the texts of the
-- C library from a record `Host`; FlashOptions.Switches has its action flags as four switches.
--
-- Fuel: `sleep_loop` has one round for each second and one for the rest, and the flash loops one
-- for each block of 48 bytes and one for the test that ends the loop (`rounds`). Theorems show
-- that these are enough for all arguments. Integers are natural numbers with the wrap-around
-- written out, and C's signed `int` is `ℤ`.
--
-- Not modelled: hidapi (a copy of another project), the Windows branches, how `getopt_long` reads
-- a command line. The calls out of the program return: a `hid_read` that blocks for ever is not
-- represented. What they leave in `errno` is not either: `Sys` has the value that the program has
-- assigned last, and the text that `perror` prints is left to `Host`, by the world and that
-- value.
pub mod Base
pub mod Word
pub mod Platform
pub mod Device
pub mod Command
pub mod Sleep
pub mod Discovery
pub mod Application
pub mod Bootloader
pub mod Api
pub mod Tuner
pub mod FlashOptions
pub mod FlashTool
pub mod DebugTool
mod Tests
