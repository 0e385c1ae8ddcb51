-- ===== src/Lib.antt =====
-- fcp-support: the user-space server and client for Focusrite devices that speak FCP over the Linux
-- kernel driver. The development is about the server (server/), the socket protocol that it shares with
-- the client (shared/fcp-shared.h), and the client (client/): its command
-- line, its updates of firmware and its data command.
--
-- The parts and the files that model them:
-- - Base: lists, tests, signed integers, bytes and words, bits, and the two ways that the C functions
--   are written here: `Hw D A` for a function that talks to the device and returns 0 or -errno, `St S A`
--   for one that changes a state and returns an `int`.
-- - Fcp (server/fcp.c): the commands, each one request and one response of the driver. The driver is
--   the parameter `ioctl`, with a state `D` of its own; nothing is assumed of it except where a theorem
--   says so.
-- - Protocol (shared/fcp-shared.h, the senders of server/fcp-socket.c): codes, headers and payloads.
--   What is sent to a client is a log of effects.
-- - EspDfu (server/esp-dfu.c, server/hash.c): Config looks the registers up in the device map, with
--   json-c as the parameter of Json; Wait has the waits, over a list of what `select` and the read will
--   meet; Update has the update. `junk` is the value of an `int` that C has not initialised. SHA256 is
--   a parameter.
-- - Socket (server/fcp-socket.c): Segments finds the flash segments, Flash erases and writes them,
--   Command dispatches a request, Client reassembles requests from what the socket delivers.
-- - Mix (server/mix.c) and Mux (server/mux.c): the caches of the mixer and the router, and the reads
--   and writes of their controls.
-- - Firmware (client/firmware.c, client/firmware.h): the reader of a firmware file, as a function of the
--   file's bytes. SHA256 and MD5 are parameters; a `free` of an unset pointer is the result `undefined`.
-- - Control (server/control-utils.c, server/device.h): Types has the data types of controls, Values the
--   reads and writes that their function pointers lead to. A function pointer is a constructor of `Func`.
-- - Device (server/device.c, server/device-ops.c): the table of controls. Functions dispatches the function
--   pointers, Add adds controls, Notify takes changes from the device to ALSA, Change takes them from ALSA
--   to the device. The calls of the ALSA library are the parameter `Alsa`.
-- - Controls (server/input-controls.c, server/output-controls.c, server/global-controls.c, and the search
--   for a member of server/control-utils.c): the controls that the device map and the FCP ALSA map
--   describe. Router (server/mux.c), Mixer (server/mix.c, server/sync.c) and Meters (server/meter.c) build
--   those of the subsystems, and Startup (device_init_controls of server/device-ops.c) puts all together.
--   json-c, the formatting of a name and the splitting of a path are parameters; atoi and the searches in
--   a text are functions on the text's characters (Base/Chars). A `void` function with early returns is a
--   function into `Flow` (Base/Flow).
-- - DeviceMap (server/fcp-devmap.c): the device map from a file or from the device. Base64, zlib and the
--   parser of json-c are parameters. Config (server/device-ops.c) adds the FCP ALSA map, and Fcp/Init is the
--   opening of a card (server/device-ops.c) with the start of FCP (server/fcp.c).
-- - Client (client/main.c, client/devices.c, client/data-cmd.c): Versions orders the firmware files
--   found, Messages reads what the server sends, over lists of what `read`, `select` and the clock will
--   give, Send sends requests, Update selects a firmware and uploads what is needed, Data reads and sends commands of the data space,
--   Args reads the command line, Cards (client/alsa.c) lists the cards, Main selects the card and the
--   command, and Replugged (client/wait.c, client/alsa.c) waits for the server to go and for the card to
--   come back, over a list of looks, each with its time. What ALSA and the system say of a card is an
--   argument, and so is `sscanf`.
-- - Upload: the client's request for an ESP update, the server's reassembly of it, and the update, together.
-- - Examples: runs at concrete inputs.
--
-- Loops: the blocks of a firmware and the blocks of the device map are counted by fuel, the size of the
-- payload and 65, and each round moves on by at least one byte or by 1024 of at most 65535 bytes. The
-- retries of the waits are the 5 of the source. The wait for a notification ends with its list of events.
-- An erase ends when the device says so: it runs on fuel, and `none` is a run that has not ended.
--
-- Memory: a buffer is the list of its bytes, and what lies behind a message is the parameter `beyond`.
-- `none` in the router and in the device map is a write outside a buffer, whose effect C does not define.
-- Out of range, a list reads as a default value, which no modelled path uses. Allocation is taken to
-- succeed. The sizes of a command to the driver have 16 bits, and a longer one is cut as the code cuts it.
--
-- Not modelled: the main function of the server and the set-up of its socket, the lists and responses that
-- the client prints, the opening of its socket, logging, and the event loop's system calls.
pub mod Base
pub mod Fcp
pub mod Protocol
pub mod EspDfu
pub mod Json
pub mod Socket
pub mod Mix
pub mod Mux
pub mod Firmware
pub mod Control
pub mod Device
pub mod Controls
pub mod Client
pub mod DeviceMap
pub mod Upload
pub mod Examples
