-- ===== src/Lib.antt =====
-- Statik: a Minecraft server that answers status requests and keeps the clients that log in in an
-- empty world ("limbo"). This library models the bytes on the wire, the packets of the protocol
-- versions 1.20.1 and 1.21.1, and the connection of one client.
--
-- How the parts work together. A client's bytes are collected in the read buffer of a connection.
-- `try_parse_packet` takes a frame off its front (a length, and a body that may be compressed), and
-- decodes the body by the packet group of the connection's version in the connection's state.
-- `dispatch_packet` hands the packet to the handler of the state, which may write packets by
-- `write_packet` and change the state. `handle_connection` does this for all that arrives.
-- `Handler::run` runs it until it fails or the server shuts down, which a signal to the program or a
-- request to the management interface can ask for: `Server::run` accepts clients and requests, and a
-- broadcast channel tells every task.
--
-- The files, each with the code that it models (paths from the repository's root):
--   Prelude        numbers, integers of a width, bits, lists and tests that all files share
--   Core/Result    the errors (`anyhow::Error`) and the result type
--   Core/State     crates/statik_core/src/state.rs (`State`), handshake.rs (`ClientIntent`)
--   Core/VarInt    crates/statik_core/src/varint.rs: `encode_varint`, `decode_varint`
--   Core/Utf8      `String::from_utf8` of the standard library
--   Core/Position  crates/statik_core/src/position.rs: `to_packed`, `from_packed`
--   Core/Status    crates/statik_core/src/chat.rs and
--                  crates/statik_proto/src/v1_20_1/s2c/status/response.rs (that of v1_21_1 is the same)
--   Core/Crates    the crates byteorder and serde_json, as parameters
--   Core/Wire      crates/statik_core/src/impls.rs: the types of the wire (`Ty`), their values (`Val`),
--                  `encode` and `decode`; a derived codec (crates/statik_derive/src/encode.rs,
--                  decode.rs) is the list of its fields
--   Core/BitSet    crates/statik_core/src/bitset.rs
--   Derive         crates/statik_derive/src/packet.rs, packet_group.rs: the generated code
--                  (`encode_packet`, `decode_packet`, `decode_in_state`)
--   Proto/Common, Proto/V1_20_1, Proto/V1_21_1
--                  crates/statik_proto/src: every packet with its id, state and fields, and the groups
--                  `C2SPacket` and `S2CPacket` of both versions
--   Proto/Chunk    crates/statik_proto/src/common.rs: the empty chunk
--   Server/Config  crates/statik_server/src/config.rs
--   Server/Protocol
--                  crates/statik_server/src/protocol.rs
--   Server/Connection
--                  crates/statik_server/src/connection.rs: the struct; Frame holds `write_packet` and
--                  `try_parse_packet`, Username `is_valid_username`, Burst the packets that are sent,
--                  Handlers the handlers and `dispatch_packet`, Loop `handle_connection` (whole
--                  sessions are in its modules Conversation, Chunks and those called a Session)
--   Server/Shutdown, Server/Handler
--                  crates/statik_server/src/shutdown.rs, handler.rs: `Shutdown::recv`, `Handler::run`
--   Server/Api     crates/statik_server/src/api.rs: `handle`, `dispatch`,
--                  `write_response`
--   Server/Channels
--                  the broadcast channel of tokio, as a parameter
--   Server/Accept  crates/statik_server/src/server.rs: `Server::new`, `run` (`occur`, `serve`) and
--                  `shutdown`, with the tasks that are spawned
--   Program        src/main.rs and src/quit.rs: the configuration (`load_config`), `start`, `main_loop`,
--                  and the wait for the tasks (`wait`, `finish`)
--   Tests          the parameters as concrete functions, and examples
--
-- Conventions. A byte is a number below 256, a string the list of its UTF-8 bytes, a float its bit
-- pattern, a `Uuid` its u128. A reader is the list of the bytes that are left, a writer the list of
-- those written. An integer of w bits keeps its wrap-around (`% 2 ^ w`). A method on `&mut self` is a
-- function from the connection to a result and the connection (Server/Exec), so that what was done
-- before an error stays done. The burst of packets that a handler sends is a list, which `write_each`
-- writes one by one and stops at the first error, as the chain of `?` does.
--
-- Fuel and termination. `VarInt::encode` and `write_var_int` recur on the order of the numbers. The
-- loop that drains the read buffer has one round more than the buffer has bytes as fuel; each packet
-- shortens the buffer, so that this is enough, and it is shown that the fuel is never used up.
-- `handle_connection` runs on a list of events: bytes read, the end of the stream, or a timer tick;
-- `Handler::run` on a list of the branches that its `select!` takes, the server on a list of occurrences
-- (a client, a request, a task that is polled), and `main` on a list of happenings.
--
-- What is not modelled. A socket that fails, the addresses and the logging; the configuration is
-- constant while a connection lives. flate2, byteorder, serde_json and the embedded binary files are
-- parameters, and so are the JSON parser and printer of the management interface (its error texts are
-- constructors), the broadcast channel, the listeners, the file system, base64, the TOML parser and
-- the signals. A receiver of the channel is kept when its task has ended. A `usize` has 64 bits. Of the
-- capacity that a decoder reserves only the panic of `BitSet` is modelled. The player
-- (player.rs), which nothing uses, the reading of the command line and the build script are left out.

pub mod Prelude
pub mod Core
pub mod Derive
pub mod Proto
pub mod Server
pub mod Program
pub mod Tests
