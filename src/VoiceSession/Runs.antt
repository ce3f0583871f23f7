-- ===== src/VoiceSession/Runs.antt =====
-- core/voice_session.py over any history of its calls, in a session whose codec is µ-law.
use proxy_net.Prelude.{
  ℕ, ◌+◌, ◌≡◌, refl, inl, inr, List, [], ◌∷◌, ◌++◌, Bool, Option, some, ltb, eqb, eqb_iff, length,
  take, drop, length-take, arith, Bool-cases, Option-cases, Result, ok, err, Result-cases,
  ok_injective, All, nat_eq, text_eq, ap, sym, ◌∙◌, Text, ◌>>=◌,
}
use mathlib.Core.Path.{subst}
use proxy_net.Bytes.{Bytes}
use proxy_net.Dict.{Dict, get, put}
use proxy_net.VoicePacket.{VoiceHeader, decode_header, header_bytes}
use proxy_net.Jitter.{JitterBuffer, push}
use proxy_net.Jitter as Jitter
use proxy_net.Jitter.Push.{push-IsValid, push-Reports}
use proxy_net.Jitter.Runs.Genuine.{push-Holds}
use proxy_net.Cipher.{Library, Cipher, CipherError, add_sender, open_datagram, seal}
use proxy_net.VoiceCodec.{
  SoundLibrary, FrameCodec, codec_mulaw, frame_samples, frame_pcm_bytes, encode, frame_bytes_of,
  CodecError,
}
use proxy_net.VoiceCodec as VoiceCodec
use proxy_net.VoiceSession.{
  Peer, VoiceSession, new, new_peer, with_peer, add_peer, remove_peer, make_voice_cipher,
  timing_bytes, is_decryption_error,
}
use proxy_net.VoiceSession.Network.{
  send_frame, outgoing, timing, ms, note_rtt, read_timing, take_frame, after_open, from_header,
  incoming,
}
use proxy_net.VoiceSession.Playback.{play}
use proxy_net.VoiceSession.Playing.{
  IsAudio, IsMulaw, IsReady, HasFrameSize, get-All, put-All, remove-All, play-IsReady,
}

pub data Call : Type 0 where
  adds : (id : ℕ) (salt : Bytes) (key : Option Bytes) → Call
  removes : ℕ → Call
  speaks : (pcm : Bytes) (now : ℕ) → Call
  arrives : (datagram : Bytes) (now : ℕ) → Call
  plays : Call

module _ {S : Type 0} (lib : Library) (sound : SoundLibrary S) (since : ℕ → ℕ → ℕ) where
  -- The session after a call, also one that raises.
  unfoldable pub step : VoiceSession S → Call → VoiceSession S
  step s (adds id salt key) = (add_peer lib sound s id salt key).0
  step s (removes id) = remove_peer s id
  step s (speaks pcm now) = (outgoing lib sound since s pcm now).0
  step s (arrives datagram now) = (incoming lib since s datagram now).0
  step s plays = (play sound s).0

  unfoldable pub run : VoiceSession S → List Call → VoiceSession S
  run s [] = s
  run s (call ∷ calls) = run (step s call) calls

module _ {S : Type 0} where
  IsReady-as :
      (s s' : VoiceSession S)
      → s'.peers ≡ s.peers
      → s'.codec_name ≡ s.codec_name
      → IsReady s
      → IsReady s'
  IsReady-as s s' peers codec r = record {
    mulaw = codec ∙ r.mulaw;
    peers = subst (All (λ entry. IsMulaw entry.1)) (sym peers) r.peers;
  }

  IsReady-with :
      (s s' : VoiceSession S) (id : ℕ) (p : Peer S)
      → s'.peers ≡ put s.peers id p
      → s'.codec_name ≡ s.codec_name
      → IsMulaw p
      → IsReady s
      → IsReady s'
  IsReady-with s s' id p peers codec m r = record {
    mulaw = codec ∙ r.mulaw;
    peers =
        subst (All (λ entry. IsMulaw entry.1)) (sym peers) (put-All IsMulaw s.peers id p r.peers m);
  }

  read_timing-same :
      (since : ℕ → ℕ → ℕ) (s : VoiceSession S) (extra : Bytes) (now : ℕ)
      → ((read_timing since s extra now).peers ≡ s.peers)
        × ((read_timing since s extra now).codec_name ≡ s.codec_name)
  unfolding read_timing note_rtt
  read_timing-same since s extra now = (ground arith, ground arith)

  take_frame-IsReady :
      (since : ℕ → ℕ → ℕ) (s : VoiceSession S) (p : Peer S) (h : VoiceHeader) (body : Bytes)
      (now : ℕ)
      → IsMulaw p
      → length body ≡ p.codec.frame_bytes + timing_bytes
      → IsReady s
      → IsReady (take_frame since s p h body now)
  unfolding take_frame
  take_frame-IsReady since s p h body now m size r =
      let (peers, codec) = read_timing-same since s (drop p.codec.frame_bytes body) now in
      let frame : Bytes = take p.codec.frame_bytes body in
      let sized : length frame ≡ frame_samples =
        length-take p.codec.frame_bytes body (omega arith) ∙ m.sized in
      let p' : Peer S = record p {
        buffer = (push p.buffer h.sequence frame).0;
        last_seen = some (h.timestamp_ms, now);
        received = p.received + 1;
      } in
      IsReady-with s (take_frame since s p h body now) h.sender_id p'
        (ap (λ (x : Dict ℕ (Peer S)). put x h.sender_id p') peers) codec
        (record {
          plain = m.plain;
          sized = m.sized;
          valid = push-IsValid p.buffer h.sequence frame m.valid;
          framed =
              push-Holds HasFrameSize p.buffer (push p.buffer h.sequence frame).0 h.sequence frame
                (push p.buffer h.sequence frame).1 sized m.framed
                (push-Reports p.buffer h.sequence frame);
          last = m.last;
        })
        r

  after_open-IsReady :
      (since : ℕ → ℕ → ℕ) (s : VoiceSession S) (p : Peer S) (id now : ℕ)
      (out : Cipher × Result CipherError (VoiceHeader × Bytes))
      → IsMulaw p
      → IsReady s
      → IsReady (after_open since s p id now out).0
  unfolding after_open
  after_open-IsReady since s p id now (c, err e) m r = elim (Bool-cases (is_decryption_error e)) [
    | inl caught ↦
        let p' : Peer S = record p { undecryptable = p.undecryptable + 1 } in
        let m' : IsMulaw p' = record {
          plain = m.plain;
          sized = m.sized;
          valid = m.valid;
          framed = m.framed;
          last = m.last;
        } in
        rw (caught, after_open) (IsReady-with s _ id p' refl refl m' r)
    | inr raised ↦ rw (raised, after_open) (IsReady-as s _ refl refl r)
  ]
  after_open-IsReady since s p id now (c, ok (h, body)) m r =
      elim (Bool-cases (eqb (length body) (p.codec.frame_bytes + timing_bytes))) [
        | inl sized ↦
            rw (sized, after_open)
              (take_frame-IsReady since (record s { cipher = c }) p h body now m
                ((eqb_iff _ _).0 sized) (IsReady-as s (record s { cipher = c }) refl refl r))
        | inr other ↦ rw (other, after_open) (IsReady-as s _ refl refl r)
      ]

module _ {S : Type 0} (lib : Library) (since : ℕ → ℕ → ℕ) where
  incoming-IsReady :
      (s : VoiceSession S) (d : Bytes) (now : ℕ)
      → IsReady s
      → IsReady (incoming lib since s d now).0
  unfolding incoming from_header
  incoming-IsReady s d now r = elim (Bool-cases (ltb (length d) header_bytes)) [
    | inl short ↦ rw (short, incoming) (IsReady-as s _ refl refl r)
    | inr long ↦ elim (Result-cases (decode_header d)) [
      | inr (x, bad) ↦ rw (long, bad, incoming) (IsReady-as s _ refl refl r)
      | inl (h, read) ↦ elim (Bool-cases (eqb h.sender_id s.sender_id)) [
        | inl own ↦ rw (long, read, own, incoming, from_header) r
        | inr other ↦ elim (Option-cases (get s.peers h.sender_id)) [
          | inl stranger ↦ rw (long, read, other, stranger, incoming, from_header) r
          | inr (p, known) ↦
              rw (long, read, other, known, incoming, from_header)
                (after_open-IsReady since s p h.sender_id now (open_datagram lib s.cipher d)
                  (get-All IsMulaw s.peers h.sender_id p r.peers known) r)
        ]
      ]
    ]
  ]

module _ {S : Type 0} (sound : SoundLibrary S) where
  new_peer-IsMulaw : (p : Peer S) × (new_peer sound codec_mulaw ≡ ok p) × IsMulaw p
  unfolding new_peer VoiceCodec.new Jitter.new frame_bytes_of get
  new_peer-IsMulaw = (
    _,
    refl,
    record {
      plain = refl;
      sized = refl;
      valid = record {
        distinct = tt;
        bounded = omega arith;
        some_capacity = omega arith;
        some_target = omega arith;
        ahead = λ e. cc;
      };
      framed = λ k v e. cc;
      last = tt;
    },
  )

module _ {S : Type 0} (lib : Library) (sound : SoundLibrary S) (since : ℕ → ℕ → ℕ) where
  send_frame-IsReady :
      (s : VoiceSession S) (frame : Bytes) (now : ℕ)
      → IsReady s
      → IsReady (send_frame lib sound since s frame now).0
  unfolding send_frame
  send_frame-IsReady s frame now r =
      elim (Result-cases (do
        extra ← timing since s now
        seal lib s.cipher (frame ++ extra) s.sequence (ms since s now))) [
          | inr (e, bad) ↦ rw (bad, send_frame) r
          | inl ((c, d), sealed) ↦ rw (sealed, send_frame) (IsReady-as s _ refl refl r)
        ]

  outgoing-IsReady :
      (s : VoiceSession S) (pcm : Bytes) (now : ℕ)
      → IsReady s
      → IsReady (outgoing lib sound since s pcm now).0
  unfolding outgoing
  outgoing-IsReady s pcm now r =
      let s' : VoiceSession S = record s {
        sequence = s.sequence + 1;
        encoder = (encode sound s.encoder pcm).0;
      } in
      elim (Result-cases (encode sound s.encoder pcm).1) [
        | inr (e, bad) ↦ rw (bad, outgoing) (IsReady-as s s' refl refl r)
        | inl (frame, encoded) ↦
            rw (encoded, outgoing) (send_frame-IsReady s' frame now (IsReady-as s s' refl refl r))
      ]

  with_peer-IsReady : (s : VoiceSession S) (id : ℕ) → IsReady s → IsReady (with_peer sound s id).0
  with_peer-IsReady s id r = elim (Option-cases (get s.peers id)) [
    | inr (p, known) ↦ rw (known, with_peer) r
    | inl unknown ↦
        let (p, made, m) = new_peer-IsMulaw sound in
        let made' : new_peer sound s.codec_name ≡ ok p = ap (new_peer sound) r.mulaw ∙ made in
        rw (unknown, made', with_peer) (IsReady-with s _ id p refl refl m r)
  ]

  add_peer-IsReady :
      (s : VoiceSession S) (id : ℕ) (salt : Bytes) (key : Option Bytes)
      → IsReady s
      → IsReady (add_peer lib sound s id salt key).0
  unfolding add_peer
  add_peer-IsReady s id salt key r =
      let s' : VoiceSession S = record s { cipher = (add_sender lib s.cipher id salt key).0 } in
      elim (Bool-cases (eqb id s.sender_id)) [
        | inl own ↦ rw (own, add_peer) r
        | inr other ↦ elim (Result-cases (add_sender lib s.cipher id salt key).1) [
          | inr (e, bad) ↦ rw (other, bad, add_peer) (IsReady-as s s' refl refl r)
          | inl (u, added) ↦
              rw (other, added, add_peer) (with_peer-IsReady s' id (IsReady-as s s' refl refl r))
        ]
      ]

  remove_peer-IsReady : (s : VoiceSession S) (id : ℕ) → IsReady s → IsReady (remove_peer s id)
  unfolding remove_peer
  remove_peer-IsReady s id r = record {
    mulaw = r.mulaw;
    peers = remove-All IsMulaw s.peers id r.peers;
  }

  new-IsReady :
      (password : Option Text) (voice_key : Bytes) (sender_id : ℕ) (own_key : Option Bytes)
      (allow : Bool) (salt : Bytes) (now : ℕ) (s : VoiceSession S)
      → new lib sound password voice_key sender_id codec_mulaw own_key allow salt now ≡ ok s
      → IsReady s
  unfolding new
  new-IsReady password voice_key sender_id own_key allow salt now s e =
      elim (Result-cases (make_voice_cipher lib password voice_key sender_id own_key allow salt)) [
        | inr (x, bad) ↦ let f = simp bad at e in absurd (cc)
        | inl (c, made) ↦ elim (Result-cases (VoiceCodec.new sound codec_mulaw)) [
          | inr (x, bad) ↦ let f = simp (made, bad) at e in absurd (cc)
          | inl (encoder, codec) ↦
              let is = ok_injective (simp (made, codec) at e) in
              subst IsReady is (record { mulaw = refl; peers = tt })
        ]
      ]

  module _ (audio : IsAudio sound) where
    step-IsReady :
        (s : VoiceSession S) (call : Call) → IsReady s → IsReady (step lib sound since s call)
    unfolding step
    step-IsReady s (adds id salt key) r = add_peer-IsReady s id salt key r
    step-IsReady s (removes id) r = remove_peer-IsReady s id r
    step-IsReady s (speaks pcm now) r = outgoing-IsReady s pcm now r
    step-IsReady s (arrives d now) r = incoming-IsReady lib since s d now r
    step-IsReady s plays r = (play-IsReady sound audio s r).1

    run-IsReady :
        (s : VoiceSession S) (calls : List Call) → IsReady s → IsReady (run lib sound since s calls)
    unfolding run
    run-IsReady s [] r = r
    run-IsReady s (call ∷ calls) r =
        run-IsReady (step lib sound since s call) calls (step-IsReady s call r)

    -- In a session with µ-law, after any history of peers that come and go, of frames sent and of
    -- datagrams that arrive, genuine or not, and of calls that raise, `play` does not raise and
    -- returns exactly the 640 bytes of a frame, if `ulaw2lin` doubles a fragment and `add` sums
    -- fragments of one length, in whole samples of two bytes, to that length.
    pub run-plays :
        (password : Option Text) (voice_key : Bytes) (sender_id : ℕ) (own_key : Option Bytes)
        (allow : Bool) (salt : Bytes) (now : ℕ) (s : VoiceSession S) (calls : List Call)
        → new lib sound password voice_key sender_id codec_mulaw own_key allow salt now ≡ ok s
        → (pcm : Bytes) × ((play sound (run lib sound since s calls)).1 ≡ ok pcm)
          × (length pcm ≡ frame_pcm_bytes)
    unfolding new
    run-plays password voice_key sender_id own_key allow salt now s calls e =
        (play-IsReady sound audio (run lib sound since s calls) (
          run-IsReady s calls
            (new-IsReady password voice_key sender_id own_key allow salt now s e))).0
