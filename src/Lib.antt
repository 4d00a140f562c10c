-- ===== src/Lib.antt =====
-- Capture2Cloud streams a game console's picture and sound to browsers and native clients, and
-- sends their controller input back to the console. This library models parts of its core:
--
--   - the server's WebSocket framing (server/ws_frame.c, WsFrame): bytes are lists of numbers,
--     ws_take_frame returns what it takes together with the buffer that it unmasks in place;
--     -1, 0 and a positive count are the constructors refused, incomplete and taken;
--   - the controller state that all sources share (server/controller_state.h, Controller) and its
--     calibration (server/controller_shaping.c, Controller/Shaping);
--   - the gamepad bridge (server/gamepad_bridge.c, Bridge): the table of eight sources, its search
--     and its expiry, the merge, the registry of backends. The file's static variables are the
--     record Bridge, and the calls of a backend are returned as a list, in order. Bridge/Sources
--     is about the search, Bridge/Table and Bridge/Operations about the table as a map from keys,
--     Bridge/Merge about the merge, Bridge/Promises about the operations as callers see them;
--   - the emulated Nintendo controller (pcble_backend/poc/protocol.c, Pcble/Protocol, Pcble/Spi and
--     Pcble/Reply) and the translation to its reports (server/output_pcble.c, Pcble/Output);
--   - the login of the web server (server/web_stream.c, WebAuth): what auth_mutex guards is the
--     record WebStream, and each function is taken as one step under that mutex;
--   - the hexadecimal text and the path test of the reset methods (server/reset_method.c, Reset);
--   - the wire's byte order and codecs (shared/c2s_protocol.h, Wire), and the sound of the Old 3DS
--     (Adpcm): the encoder of server/switch_stream.c and the decoder of 3ds/source/audio.c;
--   - the server of the native clients and of the browsers' WebSockets (server/switch_stream.c,
--     Native). struct SwitchStream and SsClient are records, the arrays lists, rx, ws_rx and pending
--     the bytes up to their lengths; every function takes the server and returns it with the events
--     that it sets off elsewhere (the bridge, the pipeline, the web server, UDP). Native/Socket is
--     about sending, Native/Table about the table of clients, Native/Broadcast about
--     broadcast_filtered, Native/Hello and Native/Messages about handle_hello and handle_messages,
--     Native/Websocket about unwrap_ws and the adopting of browsers, Native/Poll about a round of
--     accept_thread, Native/Audio about the ways of sound. Native/Sound states the table's invariant,
--     and Native/Poll/History has the steps that the server takes, as a relation;
--   - the session of that controller (server/output_pcble.c, Pcble/Session): what its lock guards is
--     the record Session; Launch is about the start of a helper, with the words that its tests
--     accept (Launch/Words) and the command line that comes of them (Launch/Command), Worker about
--     a round of the worker, before and after the helper's answer, and Recovery about
--     output_pcble_service. What a function does outside the program, a launch, a request to stop,
--     an end of a process, is returned as a list, in order;
--   - the Wii U client's bindings and stick scaling (wiiu_console/src/input.c, PadInput);
--   - its connection to the host (wiiu_console/src/net.c, HostLink). The file's static variables are
--     the records Rx, AsyncState, AudioState and Link. HostLink/Buffer is fill_rx and consume,
--     HostLink/Frames take_frame_direct, HostLink/Events the ring of events, HostLink/Video what the
--     receiver's thread makes of a message and its loop, HostLink/Sound net_take_audio, and
--     HostLink/Link the connection: opening and closing, sending, Link/Poll a call of net_poll,
--     Link/Requests the messages to the host, Link/Thread a round of the thread. Link/Reach and
--     Video/History have the calls that are made, in any order, as relations.
--
-- A source's state goes from a client (PadInput, for the Wii U) over a WebSocket (WsFrame) or the
-- native protocol to the bridge (Bridge), which merges it with the others and shapes it
-- (Controller/Shaping), and on to a backend, here pcble (Pcble). Sound goes the other way (Adpcm).
-- Link/Greeting and Link/Greeting/Agreed put the console's connection (HostLink) against its host
-- (Native): the hello and the answer, as each writes and the other reads them. So do the tests for
-- the messages after that.
--
-- Conventions. C's int is the integer type of Base/Int where no value leaves its range, and casts
-- to fixed widths are written out (u8, u16, u32, int8, int16). An array is a list; reading outside
-- it gives 0 and writing outside it does nothing, and the theorems on bounds say that neither
-- happens. Loops are structural: on the list, or on the number of rounds left (take_from, unmask,
-- copy_flash), which is the loop's own bound, so that no fuel can run out. handle_messages and
-- unwrap_ws have fuel: one round more than there are bytes, of which each round takes some; and so
-- has async_drain_rx. The rounds of fill_rx are the kernel's answers.
-- Each function of switch_stream.c is one step under its mutex, and a time that it reads more than
-- once is one number. The callbacks that the program registers are all set. A function of
-- output_pcble.c is one step under its lock; a round of its worker is two, since it gives the lock up
-- while it waits for the helper. Of net.c a round of the thread and a call from the main loop are
-- one step each. Memory that the C code leaves unwritten is 0 in the model, and a clock does not go
-- back; 64-bit times in milliseconds are not wrapped.
--
-- Parameters. SHA-1 and base64 of the handshake are GLib's. The random token of a login is
-- the kernel's. The floats of the shaping are the record Floats, of which nothing is assumed. A machine's byte order is a Boolean. SDL's clock is
-- an argument of the bridge's operations and of the server's; a socket's descriptor holds the
-- bytes that the kernel took and its answers to come; the record Host has its answers on queued
-- bytes and memory, and web_stream_may_control is a Boolean function of the token;
-- what a backend has and answers is the record Backend. Of the session: the process that a launch
-- makes, the settings, and resolve_hci_for_address, a function from addresses. Of the connection: the
-- record System has the system's answers during a call of net_poll; the sizes for which realloc finds
-- memory, and the decoder's answers, are functions to Boolean values.
--
-- Not modelled: capture, video encoders, GStreamer and GTK, sockets, threads and processes, the
-- pages in JavaScript, the Android app, the scripts. Of the modelled files: of gamepad_bridge.c
-- the lines on stderr, the report rate, the console wake and the Titan protocol names; of
-- output_pcble.c the text of the requests and their socket, the search for adapters, the start and
-- the end of the threads, and the report rate; of net.c the set-up and end of the network, the login
-- and the texts that are shown; of switch_stream.c the
-- listening sockets, the thread, the socket options and the gathering of ADPCM blocks; of
-- 3ds/source/audio.c all but the ADPCM sound; of web_stream.c all but the login;
-- of reset_method.c the settings, the scripts and the Bluetooth wake;
-- of wiiu_console/src/input.c the sampling of the joystick and the button names.
pub mod Base
pub mod WsFrame
pub mod Controller
pub mod Bridge
pub mod WebAuth
pub mod PadInput
pub mod Native
pub mod HostLink
pub mod Pcble
pub mod Wire
pub mod Adpcm
pub mod Reset
