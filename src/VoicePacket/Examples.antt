-- ===== src/VoicePacket/Examples.antt =====
-- Runs of core/voice_packet.py at concrete inputs.
use proxy_net.Prelude.{◌≡◌, refl, [], ◌∷◌, arith, ok, err}
use proxy_net.Bytes.{Bytes, to_bytes, from_bytes, big_endian}
use proxy_net.VoicePacket.{
  encode_header, decode_header, pack, unpack, read_sender_id, unknown_type, header_unpack,
  header_pack,
}
use proxy_net.VoicePacket.Header.{sent_header}
use proxy_net.VoicePacket.Datagram.{unpack-pack}

abbrev sample_header : Bytes
sample_header = 1 ∷ 1 ∷ 0 ∷ 0 ∷ 1 ∷ 2 ∷ 0 ∷ 0 ∷ 0 ∷ 0 ∷ 0 ∷ 0 ∷ 0 ∷ 7 ∷ 0 ∷ 0 ∷ 0 ∷ 20 ∷ []

encode_sample : encode_header 258 7 20 1 ≡ ok sample_header
unfolding encode_header header_pack to_bytes big_endian
encode_sample = refl

decode_unknown_type :
    decode_header (1 ∷ 3 ∷ 0 ∷ 0 ∷ 1 ∷ 2 ∷ 0 ∷ 0 ∷ 0 ∷ 0 ∷ 0 ∷ 0 ∷ 0 ∷ 7 ∷ 0 ∷ 0 ∷ 0 ∷ 20 ∷ [])
    ≡ err unknown_type
unfolding decode_header header_unpack from_bytes
decode_unknown_type = refl

unpack-pack_example :
    (header : Bytes) × (datagram : Bytes) × (encode_header 258 7 20 1 ≡ ok header)
    × (pack header (9 ∷ []) ≡ ok datagram)
    × (unpack datagram ≡ ok (sent_header 258 7 20 1, 9 ∷ []))
    × (read_sender_id datagram ≡ ok 258)
unpack-pack_example =
    unpack-pack 258 7 20 1 (9 ∷ []) (omega arith) (omega arith) refl (λ e. cc) (omega arith)
