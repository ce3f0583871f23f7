-- ===== src/VoicePacket.antt =====
-- core/voice_packet.py: the cleartext header of a voice datagram and its assembly.
pub mod Header
pub mod Datagram
mod Examples
use proxy_net.Prelude.{
  ℕ, ◌+◌, ◌%◌, ◌^◌, List, [], ◌∷◌, ◌++◌, Bool, false, true, not, ◌||◌, Option, none, some, leb, eqb,
  length, take, drop, Result, ok, err, ◌>>=◌, ◌>>◌, guard,
}
use proxy_net.Bytes.{Bytes, to_bytes, from_bytes}

abbrev pub voice_protocol_version : ℕ
voice_protocol_version = 1

abbrev pub type_audio : ℕ
type_audio = 1

abbrev pub type_hello : ℕ
type_hello = 2

abbrev pub header_bytes : ℕ
header_bytes = 18

abbrev pub max_datagram_bytes : ℕ
max_datagram_bytes = 1200

abbrev pub max_sender_id : ℕ
max_sender_id = 0xffff_ffff

abbrev pub max_sequence : ℕ
max_sequence = 0xffff_ffff_ffff_ffff

abbrev pub timestamp_modulo : ℕ
timestamp_modulo = 0x1_0000_0000

-- The reasons of VoicePacketError; `struct_error` is the one that `HEADER.pack` raises itself.
pub data VoicePacketError : Type 0 where
  sender_does_not_fit sequence_does_not_fit struct_error : VoicePacketError
  shorter_than_header unknown_version unknown_type too_large empty_body : VoicePacketError

pub record VoiceHeader : Type 0 where
  pub version : ℕ
  pub type : ℕ
  pub sender_id : ℕ
  pub sequence : ℕ
  pub timestamp_ms : ℕ

-- `_KNOWN_TYPES`
abbrev pub is_known_type : ℕ → Bool
is_known_type t = eqb t type_audio || eqb t type_hello

abbrev pub packed : ℕ → ℕ → Result VoicePacketError Bytes
packed width n = elim (to_bytes width n) [ none ↦ err struct_error | some bs ↦ ok bs ]

-- `HEADER.pack`, the format "!BBIQI".
unfoldable pub header_pack : VoiceHeader → Result VoicePacketError Bytes
header_pack h = do
  version ← packed 1 h.version
  type ← packed 1 h.type
  sender ← packed 4 h.sender_id
  sequence ← packed 8 h.sequence
  timestamp ← packed 4 h.timestamp_ms
  ok (version ++ (type ++ (sender ++ (sequence ++ timestamp))))

-- `HEADER.unpack` of 18 bytes.
unfoldable pub header_unpack : Bytes → VoiceHeader
header_unpack raw = record {
  version = from_bytes (take 1 raw);
  type = from_bytes (take 1 (drop 1 raw));
  sender_id = from_bytes (take 4 (drop 2 raw));
  sequence = from_bytes (take 8 (drop 6 raw));
  timestamp_ms = from_bytes (take 4 (drop 14 raw));
}

unfoldable pub encode_header : ℕ → ℕ → ℕ → ℕ → Result VoicePacketError Bytes
encode_header sender_id sequence timestamp_ms packet_type = do
  guard (leb sender_id max_sender_id) sender_does_not_fit
  guard (leb sequence max_sequence) sequence_does_not_fit
  header_pack (record {
    version = voice_protocol_version;
    type = packet_type;
    sender_id = sender_id;
    sequence = sequence;
    timestamp_ms = timestamp_ms % timestamp_modulo;
  })

unfoldable pub decode_header : Bytes → Result VoicePacketError VoiceHeader
decode_header raw = do
  guard (leb header_bytes (length raw)) shorter_than_header
  let header = header_unpack (take header_bytes raw)
  guard (eqb header.version voice_protocol_version) unknown_version
  guard (is_known_type header.type) unknown_type
  ok header

unfoldable pub read_sender_id : Bytes → Result VoicePacketError ℕ
read_sender_id raw = do header ← decode_header raw; ok header.sender_id

unfoldable pub pack : Bytes → Bytes → Result VoicePacketError Bytes
pack header body = do
  let datagram = header ++ body
  guard (leb (length datagram) max_datagram_bytes) too_large
  ok datagram

abbrev is_empty : Bytes → Bool
is_empty [] = true
is_empty (b ∷ bs) = false

unfoldable pub unpack : Bytes → Result VoicePacketError (VoiceHeader × Bytes)
unpack datagram = do
  guard (leb (length datagram) max_datagram_bytes) too_large
  header ← decode_header datagram
  let body = drop header_bytes datagram
  guard (not (is_empty body)) empty_body
  ok (header, body)
