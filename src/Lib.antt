-- ===== src/Lib.antt =====
-- MagicShare's Rust core: the signaling server by which devices find each other, the tokens by
-- which they know each other, and the transfer of files over a WebRTC data channel.
--
-- How the program works. A device opens a web socket to the signaling server (server/src), which
-- keeps one room for each IP group and passes offers and answers between the peers of a room. Two
-- peers that have exchanged descriptions talk over a data channel (core/src/webrtc/webrtc.rs):
-- they exchange nonces and signed tokens (core/src/crypto), one may ask the other for a PIN, the
-- sender offers a list of files, and the files that the receiver accepts are sent in chunks.
--
-- The files:
--   Base, Exec, Map    lists and tests over the native numbers, `anyhow::Result` (Base.Results),
--                      code that changes a world and may fail, and `HashMap` as a list of entries
--   Signaling          the messages of core/src/webrtc/signaling.rs and their conversions
--   Signaling.Client   a client's listener (`start_listener`), the callbacks for answers, and the
--                      sends. What happens to a connection is a list of events in the order in which
--                      they take effect; Signaling.Client.Offer is the place in `send_offer` of
--                      webrtc.rs that sends the offer and then registers its callback
--   Signaling.Connect  `SignalingConnection::connect`: the address with the client's information, and
--                      the reader up to and after the server's Hello. The socket is what it yields,
--                      and whether it is closed then
--   Server             server/src/controller/ws_controller.rs, config/state.rs, config/scheduler.rs:
--                      `handle_socket` is cut where it takes the lock: `connect` (admission, `Join`,
--                      `Hello`), `receive` (a round of `recv_task`), `disconnect` (the clean-up), and
--                      `clear_request_counts` (the hourly job); a history is a list of these events.
--                      A handler returns the new state and the messages it hands to which peers.
--                      Server.Rooms is the abstract server: finite rooms and counters, no messages
--   Server.Handler     `ws_handler`: the peer in the query, and the address that decides on its group
--   Server.IpGroup     server/src/util/ip.rs; addresses are printed by the standard library
--   Crypto, Crypto.Token   core/src/crypto/nonce.rs and token.rs: generation and verification of
--                      tokens. base64, SHA-256 and Ed25519 are parameters with their documented laws
--   Rtc, Rtc.Chunks    chunks, `process_in_chunks`, `send_string_in_chunks`,
--                      `receive_string_from_chunks`, and the delimiter
--   Rtc.Io             one end of a connection: the messages that will arrive, what was sent, how many
--                      more messages the channel takes, the status and error channels to the app, the
--                      user's verdicts, and the files put into the app's hands
--   Rtc.Nonce          `receive_nonce` and the nonce exchange of `send_offer` and `accept_offer`
--   Rtc.Pin            `verify_pin` and `handle_pin`
--   Rtc.Messages       the messages of a session, and serde at them
--   Rtc.Session        the tasks of `send_offer` (Sender) and `accept_offer` (Receiver), from the
--                      opened channel to their end: nonces, tokens, PINs, file list, pairing, files.
--                      A peer is a function from what has come to what it sends. A session is a pair of
--                      streams, each of which makes the one peer send the other, and a part of one is
--                      sent when only the parts before it have come (Streams.InTurn)
--   Rtc.Transfer       the loops of `send_offer` and `accept_offer` that send and receive files
--   Crypto.Cert        core/src/crypto/cert.rs over x509-parser and pem as parameters
--   Http, Http.Nonce   the nonce exchange of core/src/http/server/controller/v3.rs with
--                      server/error.rs, and of core/src/http/client/v3.rs; the cache is a parameter
--   Http.Messages      core/src/http/dto.rs and dto_v2.rs and the conversions between them
--   Http.Url           core/src/http/client/url.rs
--   Http.Routes        `handle_request` of core/src/http/server/mod.rs and `register`
--   Http.Client        core/src/http/client: v2.rs and `register` of v3.rs, and in Versions the
--                      other calls of v3.rs and the choice in mod.rs, and in Download the writing
--                      of a response to a file; the crate reqwest is a function from a request to
--                      its response (Http.Reqwest)
--   Network            the server and all its clients together: sockets between them are queues, and
--                      a run is any sequence of steps, in which a client joins or leaves, its app
--                      acts, its writer sends to the server, or its listener takes a message.
--                      Network.Handshake is a client's `connect` over the server's `ws_handler`
--   Bridge             `buffer_receiver` of app/rust/src/util/bytes.rs; the children are
--                      app/rust/src/api/webrtc.rs: Connect (`connect`), Keys and Receive
--                      (`accept_offer`, its controller and file receivers), Send (`send_offer`, its
--                      controller and file senders), Pins (the PIN's way from the app to a session),
--                      and Delivery (a file's way from a session's sender to the receiving app).
--                      A receiver is the list of what it will yield, a slot that was taken is none,
--                      and the calls of the app come in any order
--
-- Numbers. Request counts are `u32` and wrap at 2 ^ 32; the counter of tries is a `u8` and wraps at
-- 256; a timestamp is 8 bytes. Texts are lists of code points where the code looks inside them.
--
-- Loops. A loop over a channel is recursion on what will arrive on it. The inner loop of
-- `process_in_chunks` has the buffer's length as fuel, and each round shortens the buffer. The loop
-- of `verify_pin` has one round more than the tries it allows, and each round counts a try.
--
-- Not modelled: serde's JSON (a codec is a parameter, with the law that what it writes it reads
-- back), the transport, the waits for an empty send buffer and their time limits, and what tasks do
-- to each other between two sections under a lock.
-- The socket of a signaling client with its keep-alive, and the sockets and TLS of the HTTP
-- server, are the libraries'. A channel that is full only delays what is sent on it, but in
-- Signaling.Connect, where nothing is taken out of it yet. Also not: the calls of
-- app/rust/src/api/http.rs, one of the core each, and making a client of reqwest.
pub mod Base
pub mod Map
pub mod Signaling
pub mod Server
pub mod Crypto
pub mod Exec
pub mod Rtc
pub mod Http
pub mod Network
pub mod Bridge
