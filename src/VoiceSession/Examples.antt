-- ===== src/VoiceSession/Examples.antt =====
-- Voice sessions of core/voice_session.py at concrete inputs.
use proxy_net.Prelude.{
  ℕ, suc, ◌-◌, ◌*◌, ◌≤◌, ◌<◌, ◌≡◌, ◌↔◌, refl, List, [], ◌∷◌, ◌++◌, ◌&&◌, ◌%◌, true, false, none,
  some, eqb, if◌then◌else◌, length, replicate, drop, take, arith, ok, nat_eq, text_eq,
}
use proxy_net.Bytes.{Bytes, from_bytes, from_bytes_onto, to_bytes, big_endian}
use proxy_net.Dict.{get, put}
use proxy_net.VoicePacket.{decode_header, header_unpack, encode_header, header_pack, pack}
use proxy_net.Cipher.{Library, unencrypted}
use proxy_net.Cipher as Cipher
use proxy_net.Cipher.RoundTrip.{Authentic}
use proxy_net.Replay.Check.{new-Tracks}
use proxy_net.Replay as Replay
use proxy_net.VoiceSession.Delivery.{incoming-outgoing}
use proxy_net.Jitter as Jitter
use proxy_net.VoiceCodec.{SoundLibrary, codec_mulaw, frame_bytes_of, frame_pcm_bytes, encode}
use proxy_net.VoiceCodec as VoiceCodec
use proxy_net.VoiceSession.{
  Peer, VoiceSession, VoiceError, new, new_peer, add_peer, make_voice_cipher,
}
use proxy_net.VoiceSession.Network.{incoming, from_header, outgoing, send_frame, timing}
use proxy_net.VoiceSession.Bins.{percentile, empty_distribution}
use proxy_net.VoiceSession.Percentile.{add_all, below, percentile_rank, one_or_more}
use proxy_net.VoiceSession.Incoming.{Raises, Breaks, incoming-Raises_iff}
use proxy_net.VoiceSession.Playback.{play}
use proxy_net.VoiceSession.Playing.{IsAudio}
use proxy_net.VoiceSession.Runs.{Call, adds, arrives, plays, run, run-plays}

-- Measurements of 10, 20 and 20.5 ms.
percentile_rank_example :
    (v : ℕ) × (percentile (add_all empty_distribution (20 ∷ 40 ∷ 41 ∷ [])) 2 ≡ some v)
    × (below v (20 ∷ 40 ∷ 41 ∷ []) < one_or_more 2)
    × (one_or_more 2 ≤ below (suc v) (20 ∷ 40 ∷ 41 ∷ []))
percentile_rank_example = percentile_rank (20 ∷ 40 ∷ 41 ∷ []) 2 (omega arith) (omega arith)

unfoldable doubled : Bytes → Bytes
doubled [] = []
doubled (b ∷ bs) = b ∷ b ∷ doubled bs

length-doubled : (bs : Bytes) → length (doubled bs) ≡ 2 * length bs
unfolding doubled
length-doubled [] = refl
length-doubled (b ∷ bs) = omega (arith, length-doubled bs)

abbrev plain_sound : SoundLibrary ℕ
plain_sound = record {
  lin2ulaw = λ pcm. take 320 pcm;
  ulaw2lin = doubled;
  add = λ a b. if eqb (length a) (length b) && eqb (length a % 2) 0 then some a else none;
  opus_encoder = none;
  opus_decoder = none;
  opus_encode = λ s pcm. (s, none);
  opus_decode = λ s packet. (s, none);
}

plain_sound-IsAudio : IsAudio plain_sound
plain_sound-IsAudio = record {
  doubles = length-doubled;
  adds = λ a b samples e f.
      let same : (eqb (length a) (length b) && eqb (length a % 2) 0) ≡ true = ground arith in
      rw same (a, refl, refl);
}

abbrev plain : Library
plain = record {
  hkdf = λ salt info key. replicate 32 9;
  encrypt = λ key number plaintext associated. replicate 16 7 ++ plaintext;
  decrypt = λ key number ciphertext associated. some (drop 16 ciphertext);
}

plain-Authentic : Authentic plain
plain-Authentic = record {
  gives_back = λ key number plaintext associated. refl;
  tagged = λ key number plaintext associated e. cc;
}

-- A clock that counts milliseconds.
abbrev since : ℕ → ℕ → ℕ
since now moment = now - moment

abbrev session : VoiceSession ℕ
session = record {
  cipher = record {
    scheme = unencrypted;
    sender_id = 5;
    session_salt = replicate 16 1;
    last_sequence = none;
    own_aead = none;
    senders = (5, record { salt = replicate 16 1; window = Cipher.new_window; aead = none }) ∷ [];
    keys = [];
  };
  sender_id = 5;
  codec_name = codec_mulaw;
  encoder = record { codec = codec_mulaw; frame_bytes = 320; encoder = none; decoder = none };
  peers = [];
  started = 0;
  sequence = 0;
  echo = none;
  last_rtt = none;
  sent = 0;
  received = 0;
  concealed = 0;
  silent = 0;
  undecryptable = 0;
  malformed = 0;
  rtt = empty_distribution;
  mouth_to_ear = empty_distribution;
}

-- The header of an audio datagram of sender 7, and nothing behind it.
abbrev bare_header : Bytes
bare_header = 1 ∷ 1 ∷ 0 ∷ 0 ∷ 0 ∷ 7 ∷ replicate 12 0

abbrev with_peer_7 : VoiceSession ℕ
with_peer_7 = (add_peer plain plain_sound session 7 (replicate 16 2) none).0

incoming-Raises_iff_example :
    Raises (incoming plain since with_peer_7 bare_header 100) ↔ Breaks with_peer_7 bare_header
incoming-Raises_iff_example =
    incoming-Raises_iff plain since with_peer_7 bare_header 100 (omega arith)

-- So a datagram that the relay forwards stops the receiver.
bare_header-Raises : Raises (incoming plain since with_peer_7 bare_header 100)
unfolding incoming from_header add_peer Cipher.add_sender Cipher.record_sender Cipher.renew_sender
    Cipher.session_aead Cipher.open_datagram proxy_net.VoicePacket.unpack decode_header
    header_unpack from_bytes from_bytes_onto get put new_peer VoiceCodec.new Jitter.new
    frame_bytes_of proxy_net.VoiceSession.Network.after_open
bare_header-Raises = (_, refl)

abbrev calls : List Call
calls =
    adds 7 (replicate 16 2) none
    ∷ arrives (bare_header ++ replicate 330 255) 10
    ∷ plays
    ∷ arrives bare_header 30
    ∷ []

run-plays_example :
    (pcm : Bytes) × ((play plain_sound (run plain plain_sound since session calls)).1 ≡ ok pcm)
    × (length pcm ≡ frame_pcm_bytes)
unfolding new make_voice_cipher Cipher.new Cipher.session_aead VoiceCodec.new frame_bytes_of
run-plays_example =
    run-plays plain plain_sound since plain_sound-IsAudio none [] 5 none false (replicate 16 1) 0
      session calls refl

abbrev empty_buffer : Jitter.JitterBuffer
empty_buffer = record {
  target_ms = 60;
  frame_ms = 20;
  capacity = 50;
  target_frames = 3;
  catchup_slack_frames = 2;
  catchup_interval = some 5;
  frames = [];
  next = 0;
  playing = false;
  catching_up = false;
  pops_since_drop = 5;
  lost = 0;
  late = 0;
  duplicate = 0;
  overflow = 0;
  resync = 0;
  underrun = 0;
  dropped = 0;
  skipped = 0;
}

abbrev speaker : Peer ℕ
speaker = record {
  buffer = empty_buffer;
  codec = record { codec = codec_mulaw; frame_bytes = 320; encoder = none; decoder = none };
  last_pcm = none;
  concealed_run = 0;
  received = 0;
  undecryptable = 0;
  last_seen = none;
}

abbrev known_sender : Cipher.Sender
known_sender = record { salt = replicate 16 1; window = Cipher.new_window; aead = none }

abbrev listener : VoiceSession ℕ
listener = record session {
  sender_id = 8;
  cipher = record session.cipher { sender_id = 8 };
  peers = (5, speaker) ∷ [];
}

new_window_is_new : Replay.new 64 ≡ some Cipher.new_window
unfolding Replay.new
new_window_is_new = refl

-- The frame of number 1, twenty milliseconds into the session, with no packet to echo.
abbrev spoken : Bytes
spoken =
    1
    ∷ 1
    ∷ 0
    ∷ 0
    ∷ 0
    ∷ 5
    ∷ 0
    ∷ 0
    ∷ 0
    ∷ 0
    ∷ 0
    ∷ 0
    ∷ 0
    ∷ 1
    ∷ 0
    ∷ 0
    ∷ 0
    ∷ 20
    ∷ (replicate 320 9 ++ replicate 10 0)

incoming-outgoing_example :
    (p' : Peer ℕ) × ((incoming plain since listener spoken 30).1 ≡ ok tt)
    × (get (incoming plain since listener spoken 30).0.peers 5 ≡ some p')
    × (p'.buffer ≡ (Jitter.push empty_buffer 1 (replicate 320 9)).0)
    × (p'.received ≡ 1)
unfolding outgoing encode timing send_frame Cipher.seal encode_header header_pack to_bytes
    big_endian pack get
incoming-outgoing_example =
    incoming-outgoing plain plain_sound since plain-Authentic session listener (replicate 640 9)
      (replicate 320 9) spoken 20 30 speaker known_sender [] refl refl (λ e. cc) refl refl refl refl
      (new-Tracks 64 Cipher.new_window new_window_is_new) refl
