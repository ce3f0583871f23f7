-- ===== src/VoicePacket/Datagram.antt =====
-- Datagrams of core/voice_packet.py: assembly, and reading back what was assembled.
use proxy_net.Prelude.{
  ℕ, ◌+◌, ◌≤◌, ◌<◌, ◌≡◌, ◌≢◌, refl, [], ◌++◌, arith, ok, length, true, length-append, le→leb,
}
use proxy_net.Bytes.{Bytes}
use proxy_net.VoicePacket.{
  encode_header, decode_header, read_sender_id, pack, unpack, max_sender_id, max_sequence,
  is_known_type, max_datagram_bytes, header_bytes,
}
use proxy_net.VoicePacket.Header.{
  fields, sent_header, encode_header-fields, decode_header-fields, cut_body, length-fields,
}

known-lt : (t : ℕ) → is_known_type t ≡ true → t < 256
known-lt t h = ground arith

module _ (sender_id sequence timestamp_ms packet_type : ℕ) (body : Bytes) where
  -- For an id and a sequence number in range and a known type, the datagram of the header and a
  -- body that is not empty and leaves it within the limit is assembled; the receiver reads back
  -- that header, the time stamp modulo 2 ^ 32, and that body, and the relay reads that sender id.
  pub unpack-pack :
      sender_id ≤ max_sender_id
      → sequence ≤ max_sequence
      → is_known_type packet_type ≡ true
      → body ≢ []
      → length body + header_bytes ≤ max_datagram_bytes
      → (header : Bytes) × (datagram : Bytes) × (encode_header sender_id sequence timestamp_ms
            packet_type
          ≡ ok header)
        × (pack header body ≡ ok datagram)
        × (unpack datagram ≡ ok (sent_header sender_id sequence timestamp_ms packet_type, body))
        × (read_sender_id datagram ≡ ok sender_id)
  unfolding pack unpack read_sender_id
  unpack-pack a b c d e =
      let h = sent_header sender_id sequence timestamp_ms packet_type in
      let size : length (fields h ++ body) ≤ max_datagram_bytes =
        omega (arith, length-append (fields h) body, length-fields h) in
      let back : decode_header (fields h ++ body) ≡ ok h =
        decode_header-fields h body
          (record {
            version_fits = omega arith;
            type_fits = known-lt packet_type c;
            sender_fits = omega arith;
            sequence_fits = omega arith;
            timestamp_fits = omega arith;
          })
          refl c in
      (
        fields h,
        fields h ++ body,
        encode_header-fields sender_id sequence timestamp_ms packet_type a b
            (known-lt packet_type c),
        rw (le→leb (length (fields h ++ body)) 1200 size),
        rw (le→leb (length (fields h ++ body)) 1200 size, back, cut_body h body) (ground arith),
        rw back,
      )
