-- ===== src/Lib.antt =====
-- A verification library for the Deskflow client of this repository: the native code that connects
-- to a Deskflow server, reads its framed messages and injects the keyboard and mouse events that
-- they ask for.
--
-- Parts, from the wire upwards:
--   Proto     entry/src/main/cpp/protocol/proto_util.cpp. `writef` and `readf` interpret a format
--             string as the source does, character by character (`write_char`, `read_char` over a
--             `Mode`). Proto.Format describes the same messages as lists of items, with no format
--             string to scan; Encode, Decode and RoundTrip compare the two on what a peer wrote,
--             Ensures, Canonical, Conversions and Shapes on any bytes that arrive.
--   Stream    entry/src/main/cpp/protocol/socket_stream.cpp. SocketStream is the record `Stream`:
--             readExact, writeAll, readFrame, writeFrame, pushToBuffer, close and connect are
--             `read_exact`, `write_all`, `read_frame`, `write_frame`, `push_to_buffer`, `close`,
--             `connect`. Stream.Read, Write and Frame hold the contract of reads and writes,
--             Stream.Torn the frames of two writing threads in turns, Stream.Stopping what
--             becomes of a stop request, Stream.Supply the number of bytes that a connection can
--             still give.
--   Keys      keysymToKeycode of entry/src/main/cpp/protocol/deskflow_client.cpp over the key
--             identifiers of protocol_types.h.
--   Client    DeskflowClient (deskflow_client.cpp, deskflow_client.h): the record `Client` is its
--             state and what it has done to the world. Client.Input are the inject functions,
--             Client.Modifiers maskModifierKeysym and syncModifiers, Client.Clipboard the clipboard
--             (Container: marshalText and unmarshalText; Size: the decimal size of a transfer),
--             Client.Messages handleMessage, Client.Session handshake and the message loop,
--             Client.Run start, stop, runOnce and run, Client.Settings the setters.
--             Client.Messages.Payload compares the variables that readf fills with those that the
--             handlers use.
--   Bridge    entry/src/main/cpp/napi_init.cpp: the record `Bridge` holds the client and the functions
--             that the scripting side registered. Bridge.Control are connectDeskflow,
--             disconnectDeskflow, pushClipboard and the switches, Bridge.Inject the click, the smooth
--             movement and the key, Bridge.Reports the interceptors and the authorisation,
--             Bridge.Status the texts of the statuses, Bridge.Delivery the strings on their way to the
--             script's callbacks (DeskflowStatusCallJs, ClipboardDataCallJs, CallJsOnThread).
--             Bridge.Delivery.Refines compares them with the list of texts in `Bridge`.
--   Base      names and lemmas that the others share; Base.Word the wrap-around of C integers.
--
-- How they interact: a connection is a `Stream`; `run_once` connects it, `handshake` and the
-- message loop take frames from it, push each into the stream's buffer and read its four-byte
-- key, and `handle_message` reads the rest with `readf` and calls the injections,
-- `sync_modifiers` and the clipboard. Answers go out through `writef` and `write_frame`.
-- Client.Messages.Stable states once what a predicate needs to be kept by every message;
-- Client.Messages.OnScreen, Reserve, Channel, Running and Return fill it. Proto.Composes does the
-- same for what passes from readExact to readf; Proto.Supply, Proto.Buffered and Proto.Segments
-- fill it. Client.Session.Packet and Sync compare the message loop with the list of messages that
-- a server sends, Client.Session.Overlong a frame that holds more than its message reads;
-- Client.Session.Kept says what the messages keep. Client.Run.Service joins them with the handshake,
-- Client.Run.Return with reconnection, and Client.Session.Download, Transfer and Exchange with the
-- clipboard. Client.Session.Lasting and Client.Run.Lasting are for a whole connection what
-- Client.Messages.Stable is for a message; Client.Run.Running, Stopped and Return fill it.
-- Client.Run.Threads has the test and the store of start(), the other calls on the client and the
-- steps of the workers as a step relation, each step with the functions of Client, Client.Session and
-- Client.Run. Its parameter is the number of threads that may be inside start() at a time: one in this
-- program, where only the script's thread calls it, through connectDeskflow.
--
-- The world is data. What recv, send and connect meet are scripts in the stream (`RecvEvent`,
-- `SendEvent`, `Candidate`), where stop() of another thread is one event of recv; an `Attempt` says
-- whether it is called while connect() is under way or in the wait before the next attempt. What the
-- platform answers to an injection is a script in the client (`Reply`). The calls of the status and the
-- clipboard callback and the injected events are recorded in lists. A C integer is its bit pattern;
-- int16_t and int32_t values that are computed with are `ℤ`. The pointer's int32_t sums of DMRM lie
-- far inside their range and do not wrap; so do those of the smooth movement, whose sums lie between
-- its ends. setStatus is modelled with its callback set, as connectDeskflow does before start().
--
-- Fuel: `chunks_of` gets the payload's length, `to_string` twenty digits, enough for a size_t; the
-- message loop gets one round more than the bytes that the connection can still give. `run` recurs
-- on the list of attempts that the network allows, and gives `none` once they are used up with the
-- worker still running.
--
-- In the bridge, what a platform call reads from a script value is an argument (`none` where the call
-- fails), as are the handles that napi_create_threadsafe_function makes (`Create`), what the worker
-- does to the client in each pause of connectDeskflow's wait (`Meanwhile`), the operations on
-- doubles of the smooth movement (`Doubles`; what IEEE 754 says of whole numbers is the hypothesis
-- `ExactInts`), the printing of floats, and the times that it measures. The
-- queues of the thread-safe functions are an argument (`Queues`), with what the bridge relies on as
-- the hypothesis `IsFifo`. They are created without a limit, so that a call on a live function is
-- taken; a call on a function that is being released, whose string would not be freed, is left out.
--
-- Not modelled: the ArkTS user interface and abilities, logging, the table of the bridge's exports and
-- the wrapping of a text into a script object, the request for the injection authorisation at the
-- start of a connection, mutexes and data races between the worker and the threads that call it
-- (besides the order of start, stop and the end of run, and a frame that comes between the writes of
-- another), and the values of the platform's key codes.
pub mod Base
pub mod Proto
pub mod Stream
pub mod Keys
pub mod Client
pub mod Bridge
