-- ===== src/Lib.antt =====
-- ProxyNet: a chat and voice program whose server relays what it cannot read.
--
-- The clients encrypt; the server (core/server.py) relays chat lines over TCP and hands voice
-- datagrams to the relay (core/voice_relay.py). A sender pads a chat message before it encrypts
-- it (core/padding.py). The members of a room agree on pair keys that the room's password
-- authenticates (core/key_agreement.py) and hand each other the keys that they write under
-- (core/room_session.py); a client (core/client.py) carries that exchange out, holds back a message
-- whose key is still on its way, and shows what opens. A line of text is a packet
-- (core/transport.py). The hub (core/hub.py) knows who is in which room. A voice client assembles
-- a cleartext header and a sealed body (core/voice_packet.py); the relay looks at the
-- header alone, checks who sent the datagram and forwards it to the room; the receiver refuses
-- replayed numbers (ReplayWindow in core/voice_crypto.py) and puts the frames in order
-- (core/voice_jitter.py); a voice session
-- (core/voice_session.py) joins these with the codecs (core/voice_codec.py) and sums what it plays.
--
--   Padding      core/padding.py: `BUCKETS`, `bucket_for`, `pad`, `unpad`.
--   VoicePacket  core/voice_packet.py: the header, `encode_header`, `decode_header`, `pack`,
--                `unpack`, `read_sender_id`.
--   Jitter       core/voice_jitter.py: `JitterBuffer` with all its counters; Jitter.Runs follows
--                sessions of `push`, `pop` and `reset` in any order.
--   Replay       core/voice_crypto.py: `ReplayWindow`.
--   Relay        core/voice_relay.py: `VoiceRelay`; Relay.Membership follows histories of its calls.
--   RateLimit    core/server.py: `RateLimiter`.
--   Hub          core/server_state.py and core/hub.py: `RoomRegistry` and `MessageHub`;
--                Hub.Runs follows histories of its calls.
--   History      core/server.py: `_append_history` and `_history_packet`.
--   Names        core/server.py: `_clean_name` and `_unique_username`, with `str.isspace` and
--                `str.casefold` as parameters.
--   Transport    core/transport.py: `recv_packet` of `LineSocket`, as `recv` on fuel.
--   KeyAgreement core/key_agreement.py, and `derive_master_key` of core/crypto.py.
--   RoomSession  core/room_session.py: `RoomSession`; RoomSession.Runs follows histories of offers,
--                wrapped keys, departures and messages.
--   Cipher       core/voice_crypto.py: `_VoiceCipherBase` and its three versions in one record, with
--                the version as a field; `open` is `open_datagram`.
--   VoiceCodec   core/voice_codec.py: `choose_codec`, `FrameCodec`, `faded_repeat`.
--   VoiceSession core/voice_session.py: VoiceSession.Bins is `Distribution`, VoiceSession.Network
--                `outgoing` and `incoming`, VoiceSession.Playback `play`; VoiceSession.Runs follows histories of calls. `make_voice_cipher` of
--                core/voice_crypto.py stands here.
--   Packets      core/protocol.py: a packet as a list of fields with JSON values; core/crypto.py:
--                `NullCipher`, `decrypt_packet_content`, `mark_undecryptable`.
--   Client       core/client.py: `ChatClient`. Client.Exchange has the key exchange (`_accept_offer`
--                is `accept_peer_offer`, `_accept_sender_key` is `accept_peer_key`), Client.Inbox the
--                way of a packet to the interface, Client.Peers the peers' names, Client.Listen the
--                body of the listen loop (`receive`); Client.Runs follows histories of calls and packets.
--   Server       core/server.py: `_client_loop`. Server.Rooms has the handshake, `join` and the end of a
--                connection, Server.Messages the messages and the carried key packets, Server.Voice the
--                voice packets, Server.Loop a round; Server.Threads puts the threads of all clients
--                beside the server, and Server.Runs follows what reaches them.
--
-- Prelude, Bytes, Bits and Dict are helpers: tests on numbers, results for code that raises,
-- Python's big-endian conversions, the binary digits behind the bit map, and dictionaries as
-- lists of entries in the order of insertion. Every component with state has a function that runs
-- a list of calls.
--
-- Integers that the code keeps from zero up are natural numbers, and Python's do not wrap; the
-- fields of the header have their widths written out. A byte is a number below 256. Texts are
-- lists of code points. Times are readings of the clock, in nanoseconds for the relay. The
-- dictionaries of the relay share participants, so those are objects of a store that both refer
-- to. Random tokens, salts and clock readings are arguments. HKDF and AES-GCM are a record of
-- functions, `Library`, that the cipher's operations take; X25519, HMAC, Argon2id, UTF-8 and
-- base64 join them in `KeyLibrary`, and audioop and the states of Opus are `SoundLibrary`.
-- In `KeyLibrary`, `encodes` tells the texts that UTF-8 can encode: a lone surrogate, which JSON can
-- spell, makes the code raise UnicodeEncodeError. The model raises it in the constructor of a session,
-- in `encrypt`, and for the key packets; for the packets of the client's own calls, where it reaches
-- the caller, and in the server it is left out.
-- `KeyLibrary` has laws, `IsSound` in KeyAgreement.Agreement, and `SoundLibrary` has `IsAudio` in
-- VoiceSession.Playing. A measurement is a number of half milliseconds, and a fading factor one
-- of quarters. What is sent to a transport is returned by the call that sends it. The shifts of
-- the bit map are multiplications and divisions by powers of two. The loop of
-- `_skip_missing_head` lowers the depth in each round and recurses on it. The outer loop of
-- `recv_packet` runs on fuel: a round that goes on has taken a newline, so that one more than the
-- bytes to come is enough.
--
-- The client's own objects are one record: the session that `_cipher` is stands in `_ciphers`, under
-- the key `current`. `Python` is what Python makes of a JSON value where the client asks for its
-- truth or its text. A clock reading, in milliseconds, holds while the client handles one packet.
--
-- A client's thread in the server is a record of its variables, a round of its loop is one step, and
-- the rounds of several clients come in any order; every send succeeds.
--
-- Not modelled: sockets, threads, the user interface, the audio devices and the cryptographic
-- library; how the server starts, accepts and stops, the text of JSON and the noise gate.
-- Two threads use a voice session, and its calls are taken one after another.
pub mod Prelude
pub mod Bytes
pub mod Bits
pub mod Dict
pub mod Padding
pub mod VoicePacket
pub mod Jitter
pub mod Replay
pub mod Relay
pub mod RateLimit
pub mod Hub
pub mod Names
pub mod Transport
pub mod History
pub mod KeyAgreement
pub mod RoomSession
pub mod Cipher
pub mod VoiceCodec
pub mod VoiceSession
pub mod Packets
pub mod Client
pub mod Server
