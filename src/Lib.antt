-- ===== src/Lib.antt =====
-- esp-console-kit: a model of its core components, and what is proved of them.
--
-- The kit is a set of ESP-IDF components that several tasks of a firmware call: a console, a web
-- server and the application. Modelled here are six that keep the program's own logic.
--
-- events (events/events.c) tells listeners what changed. Events/State is its statics. Kinds are
-- declared by name and numbered by bits (Events/Kinds); events_parse turns a list of names into a
-- mask (Events/Parse, its loop a walk with fuel for each byte of the text); events_changed marks
-- the listeners and calls them, and events_take hands over what is marked (Events/Sinks);
-- events_happened numbers a happening and keeps the last 32 in a ring that events_since reads
-- (Events/Ring, Ring/Window for the interleaving of tasks: a happening is two critical sections,
-- each one step). Numbers are 32 bits wide, and the theorems say where they must not wrap.
--
-- ota_core (cmd_fs/ota_core.c) is the one update session that every transport shares. Ota/State
-- holds the session, the owner's statics, and a record Board for what the build and ESP-IDF
-- bring: constants, the layout of an image's head, and SHA-256. What a library call answers in a
-- call of the component is an argument of it. The statics of the hash and of the update handle
-- are extended by what they have taken in (`hashed`, `flash`). Ota/Session has begin and
-- set_source, Ota/Write write, Ota/Finish finish, fail, discard, activate and busy; Ota/Invariant
-- is what holds between two calls, and Ota/Activate any sequence of calls. A piece
-- of an image is taken whole or not at all, as esp_ota_write documents; what the session
-- says in words is a value of the type Why. The names of states, the table of slots, the puller
-- and the restart timer are not modelled.
--
-- api_core (api_core/api_core.c) is the table of HTTP routes (Api/Routes) and the reading of a
-- query string (Api/Query). A handler is a number here, the address of its function. The helpers
-- that build JSON with cJSON are not modelled.
--
-- nvs_backup (cmd_nvs/nvs_backup.c) writes a board's settings as text and reads them back.
-- Nvs/Rules is the registry of what a backup never holds. Nvs/Strs is a str as it is
-- quoted, Nvs/Numbers the integers (an int64_t is its 64 bits as a number, so that a negative one
-- is taken from 2^64), Nvs/Blobs the lines of hex digits, Nvs/Trailer the CRC at the end (the CRC
-- itself is a parameter), Nvs/Lines and Nvs/Parse the lines of a file and the whole of it. An
-- import (Nvs/Plan, Nvs/Order, Nvs/Check, Nvs/Apply) works on a partition of ESP-IDF's NVS through
-- the interface of Nvs/Store: the calls are fields of a record, and what NVS documents of them is
-- the record IsNvs. Whether the board's MAC is known and what the snapshot before the writes
-- answers are arguments. The loops over a text take fuel, one for each byte. Memory is taken to
-- suffice, and the lines that an import says are left out. The export's own walk and the
-- sources of a file are not modelled.
--
-- xmodem (cmd_fs/xmodem.c) moves a file over a serial line. Xmodem/Frame has its CRC and the checks
-- of a block's frame, Xmodem/Receive the receiver: its loop is a step function on where it waits
-- and what it then hears, a byte, the rest of a block, or that the wait is over. So the clock and
-- the reads of one wait are not modelled, and a run is a sequence of steps, which needs no fuel.
-- The sink is a function of what it took before and what it is handed. Xmodem/Send is the frame of
-- a block as xmodem_send builds it, and Send/Loop the sender: the line is a function of all that
-- was written to it, the source one of what it gave so far. Its loop has fuel, one round more than
-- the file has bytes, since each block takes one at least; fill has fuel for each byte it may put
-- in the buffer. Xmodem/Transfer feeds a receiver the bytes that a sender wrote, two steps for each
-- frame, all of them in time.
--
-- wifi_known (cmd_wifi/wifi_known.c) keeps the networks a board knows and holds its station to
-- one. Wifi/Store is the table, Wifi/State the statics, with the blob that NVS holds, the retry
-- timer and, in order, what was asked of the driver and told to the hook (`deeds`). Wifi/Events is
-- what the event task and the timer do, Wifi/Calls the calls. A section under the lock is one step
-- and what a call does behind it another, so Wifi/Moves has any interleaving of events with the
-- sections of calls, resets among them. Wifi/Autojoin is the setting that a start asks for.
-- Whether NVS takes a save, what a call of the driver answers, the retry interval and the number
-- of fast retries are arguments. The radio's mode, the IPv6 address, the scan, the logs and the
-- console commands are not modelled.
--
-- Strings and buffers are lists of bytes without their NUL (Prelude/Strings); Prelude also has the
-- lists, tests and bits that the components share, Ascii the hex digits, and Segments the walk over
-- a text cut at a separator.
--
-- The other components (consoles, web handlers, the access point, servos, and so on) are calls of
-- ESP-IDF for the most part and are not modelled.
pub mod Prelude
pub mod Segments
pub mod Xmodem
pub mod Wifi
pub mod Ascii
pub mod Events
pub mod Ota
pub mod Api
pub mod Nvs
