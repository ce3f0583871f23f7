-- ===== src/VoiceSession/Network.antt =====
-- `outgoing` and `incoming` of core/voice_session.py.
use proxy_net.Prelude.{
  ℕ, ◌+◌, ◌-◌, ◌*◌, ◌%◌, ◌^◌, ◌++◌, not, ◌&&◌, none, some, ltb, leb, eqb, if◌then◌else◌, length,
  take, drop, nat_eq, Result, ok, err, ◌>>=◌,
}
use proxy_net.Bytes.{Bytes, from_bytes}
use proxy_net.Dict.{get, put}
use proxy_net.VoicePacket.{VoiceHeader, packed, decode_header, header_bytes}
use proxy_net.VoiceSession.Bins.{add}
use proxy_net.Jitter.{push}
use proxy_net.Cipher.{Library, Cipher, CipherError, lift, seal, open_datagram}
use proxy_net.VoiceCodec.{SoundLibrary, encode}
use proxy_net.VoiceSession.{
  Peer, VoiceSession, VoiceError, cipher_error, codec_error, is_decryption_error, timing_bytes,
  no_echo,
}

module _ {S : Type 0} where
  -- `_timing`
  unfoldable pub timing : (ℕ → ℕ → ℕ) → VoiceSession S → ℕ → Result CipherError Bytes
  timing since s now = elim s.echo [
    | none ↦ do
      id ← lift (packed 4 no_echo)
      stamp ← lift (packed 4 0)
      waited ← lift (packed 2 0)
      ok (id ++ (stamp ++ waited))
    | some (sender_id, stamp, arrived) ↦ do
      id ← lift (packed 4 sender_id)
      stamp' ← lift (packed 4 stamp)
      waited ←
          lift (packed 2 (if ltb 0xffff (since now arrived) then 0xffff else since now arrived))
      ok (id ++ (stamp' ++ waited))
  ]

  -- `_ms`
  abbrev pub ms : (ℕ → ℕ → ℕ) → VoiceSession S → ℕ → ℕ
  ms since s now = since now s.started % 2 ^ 32

  -- `_read_timing` behind the test of the sender; a stamp is below 2 ^ 32.
  unfoldable pub note_rtt : VoiceSession S → ℕ → ℕ → VoiceSession S
  note_rtt s trip waited =
      if leb waited trip && ltb (trip - waited) 60000
      then record s { last_rtt = some (trip - waited); rtt = add s.rtt (2 * (trip - waited)) }
      else s

  unfoldable pub read_timing : (ℕ → ℕ → ℕ) → VoiceSession S → Bytes → ℕ → VoiceSession S
  read_timing since s extra now =
      if eqb (from_bytes (take 4 extra)) s.sender_id
      then note_rtt s ((ms since s now + 2 ^ 32 - from_bytes (take 4 (drop 4 extra))) % 2 ^ 32)
          (from_bytes (drop 8 extra))
      else s

  -- The end of `incoming`: the frame goes into the sender's buffer.
  unfoldable pub take_frame :
      (ℕ → ℕ → ℕ) → VoiceSession S → Peer S → VoiceHeader → Bytes → ℕ → VoiceSession S
  take_frame since s peer header body now =
      let s' = read_timing since s (drop peer.codec.frame_bytes body) now in
      record s' {
        peers = put s'.peers header.sender_id (record peer {
          buffer = (push peer.buffer header.sequence (take peer.codec.frame_bytes body)).0;
          last_seen = some (header.timestamp_ms, now);
          received = peer.received + 1;
        });
        echo = some (header.sender_id, header.timestamp_ms, now);
        received = s'.received + 1;
      }

  -- `incoming` from the outcome of `open` on.
  unfoldable pub after_open :
      (ℕ → ℕ → ℕ)
      → VoiceSession S
      → Peer S
      → ℕ
      → ℕ
      → Cipher × Result CipherError (VoiceHeader × Bytes)
      → VoiceSession S × Result VoiceError (Unit {0})
  after_open since s peer id now (cipher, err e) =
      if is_decryption_error e
      then (
        record s {
          cipher = cipher;
          peers = put s.peers id (record peer { undecryptable = peer.undecryptable + 1 });
          undecryptable = s.undecryptable + 1;
        },
        ok tt,
      )
      else (record s { cipher = cipher }, err (cipher_error e))
  after_open since s peer id now (cipher, ok (header, body)) =
      if not (eqb (length body) (peer.codec.frame_bytes + timing_bytes))
      then (record s { cipher = cipher; malformed = s.malformed + 1 }, ok tt)
      else (take_frame since (record s { cipher = cipher }) peer header body now, ok tt)

module _ {S : Type 0} (lib : Library) (sound : SoundLibrary S) (since : ℕ → ℕ → ℕ) where
  -- The end of `outgoing`, behind the encoder.
  unfoldable pub send_frame : VoiceSession S → Bytes → ℕ → VoiceSession S × Result VoiceError Bytes
  send_frame s frame now =
      elim (do
        extra ← timing since s now
        seal lib s.cipher (frame ++ extra) s.sequence (ms since s now)) [
          | err e ↦ (s, err (cipher_error e))
          | ok (cipher, datagram) ↦ (record s { cipher = cipher; sent = s.sent + 1 }, ok datagram)
        ]

  unfoldable pub outgoing : VoiceSession S → Bytes → ℕ → VoiceSession S × Result VoiceError Bytes
  outgoing s pcm now =
      let (encoder, encoded) = encode sound s.encoder pcm in
      let s' = record s { sequence = s.sequence + 1; encoder = encoder } in
      elim encoded [ err e ↦ (s', err (codec_error e)) | ok frame ↦ send_frame s' frame now ]

module _ {S : Type 0} (lib : Library) (since : ℕ → ℕ → ℕ) where
  -- `incoming` from the header on: the own packets and those of strangers are dropped.
  unfoldable pub from_header :
      VoiceSession S → Bytes → ℕ → ℕ → VoiceSession S × Result VoiceError (Unit {0})
  from_header s datagram now id = if eqb id s.sender_id then (s, ok tt) else elim (get s.peers id) [
    | none ↦ (s, ok tt)
    | some peer ↦ after_open since s peer id now (open_datagram lib s.cipher datagram)
  ]

  unfoldable pub incoming :
      VoiceSession S → Bytes → ℕ → VoiceSession S × Result VoiceError (Unit {0})
  incoming s datagram now =
      if ltb (length datagram) header_bytes
      then (record s { malformed = s.malformed + 1 }, ok tt)
      else elim (decode_header datagram) [
        | err e ↦ (record s { malformed = s.malformed + 1 }, ok tt)
        | ok preview ↦ from_header s datagram now preview.sender_id
      ]
