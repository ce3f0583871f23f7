-- ===== src/Cipher/Examples.antt =====
-- Runs of the voice ciphers at concrete inputs, with a library that does not hide anything.
use proxy_net.Prelude.{
  ℕ, ◌≡◌, refl, List, [], ◌∷◌, ◌++◌, none, some, ok, replicate, drop, arith, nat_eq,
}
use proxy_net.Bytes.{Bytes, from_bytes}
use proxy_net.Dict.{get, put}
use proxy_net.VoicePacket.{decode_header, header_unpack, unpack}
use proxy_net.Cipher.{
  Library, Cipher, Sender, unencrypted, new, new_window, session_aead, open_datagram, open_from,
  admit, forward_secret,
}
use proxy_net.Cipher.Seal.{SealCall, sealed, Climbs, HasOwnNonces, sealed-Climbs}
use proxy_net.Cipher.RoundTrip.{Authentic}
use proxy_net.Cipher.Open.{opened, numbers_of, opened_unique}
use proxy_net.Replay
use proxy_net.Replay.{check}
use proxy_net.Replay.Runs.{NoRepeats}
use proxy_net.Replay.Window.{Tracks}
use proxy_net.Replay.Check.{new-Tracks}

-- The tag is sixteen bytes at the front; decryption takes it off.
abbrev plain_library : Library
plain_library = record {
  hkdf = λ salt info key. key;
  encrypt = λ key number plaintext associated. replicate 16 7 ++ plaintext;
  decrypt = λ key number ciphertext associated. some (drop 16 ciphertext);
}

abbrev room_cipher : Cipher
room_cipher = record {
  scheme = unencrypted;
  sender_id = 3;
  session_salt = replicate 16 1;
  last_sequence = none;
  own_aead = none;
  senders = (3, record { salt = replicate 16 1; window = new_window; aead = none }) ∷ [];
  keys = [];
}

new-room_cipher : new plain_library unencrypted 3 (replicate 16 1) ≡ ok room_cipher
unfolding new session_aead
new-room_cipher = refl

abbrev datagram : Bytes
datagram = 1 ∷ 1 ∷ 0 ∷ 0 ∷ 0 ∷ 3 ∷ 0 ∷ 0 ∷ 0 ∷ 0 ∷ 0 ∷ 0 ∷ 0 ∷ 5 ∷ 0 ∷ 0 ∷ 0 ∷ 60 ∷ 7 ∷ []

-- The datagram arrives twice and is opened once.
opened_twice : (opened plain_library room_cipher (datagram ∷ datagram ∷ []) []).1 ≡ (3, 5) ∷ []
unfolding opened open_datagram open_from admit unpack decode_header header_unpack from_bytes get put
    check
opened_twice = refl

new_window_is_new : Replay.new 64 ≡ some new_window
unfolding Replay.new
new_window_is_new = refl

room_cipher_is_fresh :
    (i : ℕ) (s : Sender) → get room_cipher.senders i ≡ some s → Tracks s.window []
unfolding get
room_cipher_is_fresh i s e = ground (arith, new-Tracks 64 new_window new_window_is_new)

opened_unique_example :
    NoRepeats (numbers_of 3 (opened plain_library room_cipher (datagram ∷ datagram ∷ []) []).1)
opened_unique_example =
    opened_unique plain_library room_cipher (datagram ∷ datagram ∷ []) room_cipher_is_fresh 3

plain_library_is_Authentic : Authentic plain_library
plain_library_is_Authentic = record {
  gives_back = λ key number plaintext associated. refl;
  tagged = λ key number plaintext associated e. cc;
}

-- The key that the sender and the receiver share.
abbrev shared_key : Bytes
shared_key = replicate 32 5

abbrev speaker : Sender
speaker = record { salt = replicate 16 1; window = new_window; aead = some shared_key }

abbrev speaking : Cipher
speaking = record {
  scheme = forward_secret shared_key;
  sender_id = 3;
  session_salt = replicate 16 1;
  last_sequence = none;
  own_aead = some shared_key;
  senders = (3, speaker) ∷ [];
  keys = [];
}

-- The second call reuses a number and is refused.
abbrev calls : List SealCall
calls = (9 ∷ [], 0, 20) ∷ (8 ∷ [], 0, 40) ∷ (7 ∷ [], 5, 60) ∷ []

sealed-Climbs_example :
    Climbs plain_library (some shared_key) 3 none (sealed plain_library speaking calls)
    × HasOwnNonces 3
sealed-Climbs_example = sealed-Climbs plain_library speaking calls

-- The receiver has its own key, and the speaker's.
abbrev listening : Cipher
listening = record {
  scheme = forward_secret (replicate 32 6);
  sender_id = 4;
  session_salt = replicate 16 2;
  last_sequence = none;
  own_aead = some (replicate 32 6);
  senders =
      (4, record { salt = replicate 16 2; window = new_window; aead = some (replicate 32 6) })
      ∷ (3, speaker)
      ∷ [];
  keys = (3, shared_key) ∷ [];
}

abbrev protected_datagram : Bytes
protected_datagram =
    1
    ∷ 1
    ∷ 0
    ∷ 0
    ∷ 0
    ∷ 3
    ∷ 0
    ∷ 0
    ∷ 0
    ∷ 0
    ∷ 0
    ∷ 0
    ∷ 0
    ∷ 5
    ∷ 0
    ∷ 0
    ∷ 0
    ∷ 60
    ∷ (replicate 16 7 ++ (9 ∷ []))
