-- ===== src/VoiceSession/Delivery.antt =====
-- core/voice_session.py from one person to another: what is spoken is buffered.
use proxy_net.Prelude.{
  ℕ, ◌+◌, ◌≡◌, ◌≢◌, refl, inl, inr, List, [], ◌++◌, true, false, some, ltb, eqb, eqb_iff,
  if◌then◌else◌, length, take, drop, take-append, length-append, arith, Option-cases, Result, ok,
  err, Result-cases, ok_injective, nat_eq, ap, sym, ◌∙◌, ◌>>=◌, le→ltb_false,
}
use proxy_net.Bytes.{Bytes, to_bytes}
use proxy_net.Bytes.Fields.{length-big_endian}
use proxy_net.Dict.{get, put}
use proxy_net.Dict.Laws.{get-put}
use proxy_net.VoicePacket.{
  VoiceHeader, VoicePacketError, decode_header, header_bytes, type_audio, packed,
}
use proxy_net.VoicePacket.Header.{sent_header}
use proxy_net.Jitter.{push}
use proxy_net.Replay.Window.{Tracks, is_fresh_from}
use proxy_net.Cipher.{Library, Cipher, CipherError, Sender, lift, seal, open_datagram}
use proxy_net.Cipher.Seal.{seal-Sealed, Sealed-header}
use proxy_net.Cipher.RoundTrip.{Authentic, open-seal}
use proxy_net.VoiceCodec.{SoundLibrary, encode}
use proxy_net.VoiceSession.{Peer, VoiceSession, timing_bytes, no_echo}
use proxy_net.VoiceSession.Network.{
  timing, ms, read_timing, take_frame, after_open, send_frame, outgoing, from_header, incoming,
}
use proxy_net.VoiceSession.Incoming.{decoded-long}

length-to_bytes : (w n : ℕ) (bs : Bytes) → to_bytes w n ≡ some bs → length bs ≡ w
unfolding to_bytes
length-to_bytes w n bs e = ground (arith, length-big_endian w n)

length-packed : (w n : ℕ) (bs : Bytes) → packed w n ≡ ok bs → length bs ≡ w
length-packed w n bs e = elim (Option-cases (to_bytes w n)) [
  | inl over ↦ let f = rw (over, packed) at e in absurd (cc)
  | inr (x, fits) ↦
      let is = ok_injective (rw (fits, packed) at e) in rw (← is) (length-to_bytes w n x fits)
]

fields :
    (x y z : Result VoicePacketError Bytes) (bs : Bytes)
    → ◌≡◌ {A = Result CipherError Bytes}
        (do a ← lift x; b ← lift y; c ← lift z; ok (a ++ (b ++ c)))
        (ok bs)
    → (a : Bytes) × (b : Bytes) × (c : Bytes) × (x ≡ ok a)
      × (y ≡ ok b)
      × (z ≡ ok c)
      × (bs ≡ a ++ (b ++ c))
fields (ok a) (ok b) (ok c) bs e = (a, b, c, refl, refl, refl, sym (ok_injective e))
fields (ok a) (ok b) (err z) bs e = absurd (cc)
fields (ok a) (err y) z bs e = absurd (cc)
fields (err x) y z bs e = absurd (cc)

-- Fields of four, four and two bytes.
length-fields :
    (x y z : ℕ) (bs : Bytes)
    → ◌≡◌ {A = Result CipherError Bytes}
        (do a ← lift (packed 4 x); b ← lift (packed 4 y); c ← lift (packed 2 z); ok (a ++ (b ++ c)))
        (ok bs)
    → length bs ≡ timing_bytes
length-fields x y z bs e =
    let (a, b, c, made_a, made_b, made_c, is) =
      fields (packed 4 x) (packed 4 y) (packed 2 z) bs e in
    rw is (
      omega (
        arith,
        length-append a (b ++ c),
        length-append b c,
        length-packed 4 x a made_a,
        length-packed 4 y b made_b,
        length-packed 2 z c made_c,
      ))

-- The ten bytes of the timing.
length-timing :
    {S : Type 0} (since : ℕ → ℕ → ℕ) (s : VoiceSession S) (now : ℕ) (extra : Bytes)
    → timing since s now ≡ ok extra
    → length extra ≡ timing_bytes
unfolding timing
length-timing since s now extra e = elim (Option-cases s.echo) [
  | inl silent ↦ length-fields no_echo 0 0 extra (rw (silent, timing) at e)
  | inr ((id, stamp, arrived), heard) ↦
      length-fields id stamp (if ltb 0xffff (since now arrived) then 0xffff else since now arrived)
        extra (rw (heard, timing) at e)
]

module _ {S : Type 0} (lib : Library) (sound : SoundLibrary S) (since : ℕ → ℕ → ℕ) where
  -- What was sealed behind an encoded frame.
  outgoing-seals :
      (a : VoiceSession S) (pcm frame datagram : Bytes) (now : ℕ)
      → (encode sound a.encoder pcm).1 ≡ ok frame
      → (outgoing lib sound since a pcm now).1 ≡ ok datagram
      → (extra : Bytes) × (c : Cipher) × (length extra ≡ timing_bytes)
        × (seal lib a.cipher (frame ++ extra) (a.sequence + 1) (ms since a now) ≡ ok (c, datagram))
  unfolding outgoing send_frame
  outgoing-seals a pcm frame datagram now encoded sent =
      let s : VoiceSession S = record a {
        sequence = a.sequence + 1;
        encoder = (encode sound a.encoder pcm).0;
      } in
      let f = rw (encoded, outgoing) at sent in
      elim (Result-cases (timing since s now)) [
        | inr (e, bad) ↦ let g = rw (bad, send_frame) at f in absurd (cc)
        | inl (extra, timed) ↦
            elim (Result-cases
              (seal lib a.cipher (frame ++ extra) (a.sequence + 1) (ms since a now))) [
                | inr (e, bad) ↦ let g = rw (timed, bad, send_frame) at f in absurd (cc)
                | inl ((c, d), sealed) ↦
                    let g = rw (timed, sealed, send_frame) at f in
                    let is : d ≡ datagram = ok_injective g in
                    (
                      extra,
                      c,
                      length-timing since s now extra timed,
                      sealed ∙ ap (λ (x : Bytes). ok (c, x)) is,
                    )
              ]
      ]

  module _ (authentic : Authentic lib) where
    -- What one person speaks stands in the buffer that another keeps for them: of a datagram that
    -- `outgoing` made, `incoming` does not raise, and the encoded frame is pushed into the buffer of
    -- the sender under the next number of the sender, and counted. The receiver has the sender as a
    -- peer, under another id than its own, with a codec of that frame size, and knows its key; its
    -- window tracks the numbers opened so far and finds the number fresh; and decryption gives back
    -- what was encrypted.
    pub incoming-outgoing :
        (a b : VoiceSession S) (pcm frame datagram : Bytes) (now later : ℕ) (p : Peer S)
        (sender : Sender) (log : List ℕ)
        → (encode sound a.encoder pcm).1 ≡ ok frame
        → (outgoing lib sound since a pcm now).1 ≡ ok datagram
        → a.cipher.sender_id ≢ b.sender_id
        → get b.peers a.cipher.sender_id ≡ some p
        → p.codec.frame_bytes ≡ length frame
        → get b.cipher.senders a.cipher.sender_id ≡ some sender
        → sender.aead ≡ a.cipher.own_aead
        → Tracks sender.window log
        → is_fresh_from sender.window.highest sender.window.size log (a.sequence + 1) ≡ true
        → (p' : Peer S) × ((incoming lib since b datagram later).1 ≡ ok tt)
          × (get (incoming lib since b datagram later).0.peers a.cipher.sender_id ≡ some p')
          × (p'.buffer ≡ (push p.buffer (a.sequence + 1) frame).0)
          × (p'.received ≡ p.received + 1)
    unfolding incoming from_header after_open take_frame
    incoming-outgoing a b pcm frame datagram now later p sender log encoded sent apart known size
          there same_key tracks fresh =
        let (extra, c, ten, sealed) = outgoing-seals a pcm frame datagram now encoded sent in
        let m =
          seal-Sealed lib a.cipher (frame ++ extra) (a.sequence + 1) (ms since a now) c datagram
            sealed in
        let h : VoiceHeader =
          sent_header a.cipher.sender_id (a.sequence + 1) (ms since a now) type_audio in
        let read : decode_header datagram ≡ ok h =
          Sealed-header lib a.cipher (frame ++ extra) (a.sequence + 1) (ms since a now) c datagram
            m in
        let long : ltb (length datagram) header_bytes ≡ false =
          le→ltb_false _ _ (decoded-long datagram h read).0 in
        let body_size : length (frame ++ extra) ≡ p.codec.frame_bytes + timing_bytes =
          omega (arith, length-append frame extra) in
        let some_body : frame ++ extra ≢ [] = λ e. omega (arith, ap length e) in
        let opened =
          open-seal lib authentic a.cipher b.cipher c (frame ++ extra) datagram (a.sequence + 1)
            (ms since a now) sender log sealed some_body there same_key tracks fresh in
        let other : eqb a.cipher.sender_id b.sender_id ≡ false =
          ground (arith, eqb_iff a.cipher.sender_id b.sender_id) in
        let sized : eqb (length (frame ++ extra)) (p.codec.frame_bytes + timing_bytes) ≡ true =
          (eqb_iff _ _).1 body_size in
        let cut : take p.codec.frame_bytes (frame ++ extra) ≡ frame =
          rw size (take-append frame extra) in
        let p' : Peer S = record p {
          buffer = (push p.buffer (a.sequence + 1) frame).0;
          received = p.received + 1;
          last_seen = some (h.timestamp_ms, later);
        } in
        let s : VoiceSession S =
          read_timing since (record b { cipher = (open_datagram lib b.cipher datagram).0 })
            (drop p.codec.frame_bytes (frame ++ extra)) later in
        let stored : get (put s.peers a.cipher.sender_id p') a.cipher.sender_id ≡ some p' =
          ground (arith, get-put s.peers a.cipher.sender_id a.cipher.sender_id p') in
        rw (long, read, other, known, opened, sized, cut, incoming, from_header, after_open)
          (p', refl, stored, refl, refl)
