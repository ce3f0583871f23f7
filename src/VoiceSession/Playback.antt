-- ===== src/VoiceSession/Playback.antt =====
-- The playback of core/voice_session.py: one frame of each peer, summed.
use proxy_net.Prelude.{
  ℕ, ◌+◌, ◌-◌, [], ◌∷◌, Option, none, some, if◌then◌else◌, nat_eq, Result, ok, err,
}
use proxy_net.Bytes.{Bytes}
use proxy_net.Dict.{Dict, put}
use proxy_net.Jitter.{pop}
use proxy_net.VoiceCodec.{
  SoundLibrary, CodecError, FrameCodec, silence, faded_repeat, decode, conceal,
}
use proxy_net.VoiceSession.{
  Peer, VoiceSession, VoiceError, codec_error, jitter_error, audio_error, heard, count_concealed,
  gives_up,
}

-- The repeated frame of a peer, silence where it gives up; none where `faded_repeat` raises.
abbrev pub stand_in : Option Bytes → ℕ → Option Bytes
stand_in none run = some silence
stand_in (some pcm) run =
    if gives_up (some pcm) run then some silence else faded_repeat pcm (4 - run)

-- The sum of the frames so far and one more.
abbrev pub mix : {S : Type 0} → SoundLibrary S → Option Bytes → Bytes → Option Bytes
mix sound none pcm = some pcm
mix sound (some mixed) pcm = sound.add mixed pcm

-- The frame that `play` returns.
abbrev pub or_silence :
    {S : Type 0}
    → VoiceSession S × Result VoiceError (Option Bytes)
    → VoiceSession S × Result VoiceError Bytes
or_silence (s, err e) = (s, err e)
or_silence (s, ok (some pcm)) = (s, ok pcm)
or_silence (s, ok none) = (record s { silent = s.silent + 1 }, ok silence)

-- A session, a peer of it and what became of the peer's frame.
abbrev pub Played : Type 0 → Type 0
Played S = VoiceSession S × Peer S × Result VoiceError Bytes

module _ {S : Type 0} (sound : SoundLibrary S) where
  -- `_conceal` with the codec's own concealment or without.
  unfoldable pub concealed_by :
      VoiceSession S → Peer S → Result CodecError (Option Bytes) → Played S
  concealed_by s peer (err e) = (s, peer, err (codec_error e))
  concealed_by s peer (ok (some native)) =
      (count_concealed s (gives_up peer.last_pcm peer.concealed_run), peer, ok native)
  concealed_by s peer (ok none) = elim (stand_in peer.last_pcm peer.concealed_run) [
    | none ↦ (
      count_concealed s (gives_up peer.last_pcm peer.concealed_run),
      peer,
      err (codec_error proxy_net.VoiceCodec.value_error),
    )
    | some pcm ↦ (count_concealed s (gives_up peer.last_pcm peer.concealed_run), peer, ok pcm)
  ]

  -- `_conceal`
  unfoldable pub conceal_frame : VoiceSession S → Peer S → Played S
  conceal_frame s peer =
      let (codec, native) = conceal sound peer.codec in
      concealed_by s (record peer { concealed_run = peer.concealed_run + 1; codec = codec }) native

  unfoldable pub decoded : VoiceSession S → Peer S → Result CodecError Bytes → Played S
  decoded s peer (err e) = (s, peer, err (codec_error e))
  decoded s peer (ok pcm) = (
    heard s s.last_rtt peer.buffer,
    record peer { last_pcm = some pcm; concealed_run = 0 },
    ok pcm,
  )

  unfoldable pub play_frame : VoiceSession S → Peer S → Option Bytes → Played S
  play_frame s peer none = conceal_frame s peer
  play_frame s peer (some frame) =
      let (codec, pcm) = decode sound peer.codec frame in
      decoded s (record peer { codec = codec }) pcm

  -- The frame of one peer. Where `pop` raises, which it does for no valid buffer, the peer stays.
  unfoldable pub play_peer : VoiceSession S → Peer S → Played S
  play_peer s peer = elim (pop peer.buffer) [
    | err e ↦ (s, peer, err (jitter_error e))
    | ok (frame, buffer) ↦ play_frame s (record peer { buffer = buffer }) frame
  ]

  -- The loop over the peers; `mixed` is the sum so far.
  unfoldable pub play_all :
      VoiceSession S
      → Dict ℕ (Peer S)
      → Option Bytes
      → VoiceSession S × Result VoiceError (Option Bytes)
  play_all s [] mixed = (s, ok mixed)
  play_all s ((id, peer) ∷ rest) mixed =
      let (s', peer', played) = play_peer s peer in
      let s'' : VoiceSession S = record s' { peers = put s'.peers id peer' } in
      elim played [
        | err e ↦ (s'', err e)
        | ok pcm ↦ elim (mix sound mixed pcm) [
          | none ↦ (s'', err audio_error)
          | some sum ↦ play_all s'' rest (some sum)
        ]
      ]

  unfoldable pub play : VoiceSession S → VoiceSession S × Result VoiceError Bytes
  play s = or_silence (play_all s s.peers none)
