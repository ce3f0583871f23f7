-- ===== src/VoicePacket/Header.antt =====
-- The header of core/voice_packet.py: what is written is what is read.
use proxy_net.Prelude.{
  ℕ, ◌%◌, ◌^◌, ◌≤◌, ◌<◌, ◌≡◌, refl, ◌⊎◌, inl, inr, ◌++◌, arith, ok, err, Result, length, true,
  length-append, take, drop, leb, Bool-cases, lt→ltb, ltb→lt, le→ltb_false, ltb, le→leb, leb→le,
}
use proxy_net.Bytes.{Bytes, to_bytes, from_bytes, big_endian}
use proxy_net.Bytes.Fields.{from_bytes-big_endian}
use proxy_net.VoicePacket.{
  VoiceHeader, VoicePacketError, header_pack, header_unpack, encode_header, decode_header, packed,
  max_sender_id, max_sequence, is_known_type, timestamp_modulo, voice_protocol_version,
  sender_does_not_fit, sequence_does_not_fit, struct_error, header_bytes,
}

-- The five fields in a row.
abbrev pub fields : VoiceHeader → Bytes
fields h =
    big_endian 1 h.version
    ++ (big_endian 1 h.type
        ++ (big_endian 4 h.sender_id ++ (big_endian 8 h.sequence ++ big_endian 4 h.timestamp_ms)))

-- Every field is in range.
pub record InRange (h : VoiceHeader) : Type 0 where
  pub version_fits : h.version < 256
  pub type_fits : h.type < 256
  pub sender_fits : h.sender_id < 2 ^ 32
  pub sequence_fits : h.sequence < 2 ^ 64
  pub timestamp_fits : h.timestamp_ms < 2 ^ 32

pub packed-fits : (w n : ℕ) → n < 256 ^ w → packed w n ≡ ok (big_endian w n)
unfolding to_bytes
packed-fits w n h = rw (lt→ltb n (256 ^ w) h, packed)

pub header_pack-fields : (h : VoiceHeader) → InRange h → header_pack h ≡ ok (fields h)
unfolding header_pack
header_pack-fields h r = rw (
  packed-fits 1 h.version (omega arith),
  packed-fits 1 h.type (omega arith),
  packed-fits 4 h.sender_id (omega arith),
  packed-fits 8 h.sequence (omega arith),
  packed-fits 4 h.timestamp_ms (omega arith),
)

-- Where the fields stand, whatever follows them.
module _ (h : VoiceHeader) (body : Bytes) where
  pub cut_header : take 18 (fields h ++ body) ≡ fields h
  unfolding big_endian
  cut_header = refl

  pub cut_body : drop 18 (fields h ++ body) ≡ body
  unfolding big_endian
  cut_body = refl

module _ (h : VoiceHeader) where
  pub length-fields : length (fields h) ≡ 18
  unfolding big_endian
  length-fields = refl

  header_unpack-parts : header_unpack (fields h) ≡ record {
    version = from_bytes (big_endian 1 h.version);
    type = from_bytes (big_endian 1 h.type);
    sender_id = from_bytes (big_endian 4 h.sender_id);
    sequence = from_bytes (big_endian 8 h.sequence);
    timestamp_ms = from_bytes (big_endian 4 h.timestamp_ms);
  }
  unfolding header_unpack big_endian
  header_unpack-parts = refl

  pub header_unpack-fields : InRange h → header_unpack (fields h) ≡ h
  header_unpack-fields r = rw (
    header_unpack-parts,
    from_bytes-big_endian 1 h.version (omega arith),
    from_bytes-big_endian 1 h.type (omega arith),
    from_bytes-big_endian 4 h.sender_id (omega arith),
    from_bytes-big_endian 8 h.sequence (omega arith),
    from_bytes-big_endian 4 h.timestamp_ms (omega arith),
  )

-- The header that `encode_header` writes.
abbrev pub sent_header : ℕ → ℕ → ℕ → ℕ → VoiceHeader
sent_header sender_id sequence timestamp_ms packet_type = record {
  version = voice_protocol_version;
  type = packet_type;
  sender_id = sender_id;
  sequence = sequence;
  timestamp_ms = timestamp_ms % timestamp_modulo;
}

module _ (sender_id sequence timestamp_ms packet_type : ℕ) where
  abbrev sent : VoiceHeader
  sent = sent_header sender_id sequence timestamp_ms packet_type

  pub encode_header-fields :
      sender_id ≤ max_sender_id
      → sequence ≤ max_sequence
      → packet_type < 256
      → encode_header sender_id sequence timestamp_ms packet_type ≡ ok (fields sent)
  unfolding encode_header
  encode_header-fields a b c = rw (
    le→leb sender_id max_sender_id a,
    le→leb sequence max_sequence b,
    header_pack-fields sent (omega arith),
  )

  abbrev pub EncodesTo : Result VoicePacketError Bytes → Type 0
  EncodesTo (ok h) =
      (sender_id ≤ max_sender_id)
      × (sequence ≤ max_sequence)
      × (packet_type < 256)
      × (h ≡ fields sent)
      × (length h ≡ header_bytes)
  EncodesTo (err e) =
      ((e ≡ sender_does_not_fit) × (max_sender_id < sender_id))
      ⊎ ((e ≡ sequence_does_not_fit) × (max_sequence < sequence))
      ⊎ ((e ≡ struct_error) × (256 ≤ packet_type))

  bad_type : 256 ≤ packet_type → header_pack sent ≡ err struct_error
  unfolding header_pack to_bytes
  bad_type h = rw (le→ltb_false packet_type 256 h, packed)

  -- `encode_header` writes 18 bytes, the five fields in a row, if the id, the sequence number and
  -- the type fit their fields; otherwise it raises for a field that does not fit.
  pub encode_header-EncodesTo :
      EncodesTo (encode_header sender_id sequence timestamp_ms packet_type)
  unfolding encode_header
  encode_header-EncodesTo = elim (Bool-cases (leb sender_id max_sender_id)) [
    | inr a ↦ rw (a, encode_header) (inl (refl, ground arith))
    | inl a ↦ elim (Bool-cases (leb sequence max_sequence)) [
      | inr b ↦ rw (a, b, encode_header) (inr (inl (refl, ground arith)))
      | inl b ↦ elim (Bool-cases (ltb packet_type 256)) [
        | inr c ↦ rw (a, b, encode_header, bad_type (ground arith)) (inr (inr (refl, ground arith)))
        | inl c ↦
            rw (encode_header-fields (leb→le _ _ a) (leb→le _ _ b) (ltb→lt _ _ c))
              (leb→le _ _ a, leb→le _ _ b, ltb→lt _ _ c, refl, length-fields sent)
      ]
    ]
  ]

module _ (h : VoiceHeader) (body : Bytes) where
  pub decode_header-fields :
      InRange h
      → h.version ≡ voice_protocol_version
      → is_known_type h.type ≡ true
      → decode_header (fields h ++ body) ≡ ok h
  unfolding decode_header
  decode_header-fields r v t = rw (
    cut_header h body,
    header_unpack-fields h r,
    le→leb 18 (length (fields h ++ body))
        (omega (arith, length-append (fields h) body, length-fields h)),
    v,
    t,
  )
