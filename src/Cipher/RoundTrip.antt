-- ===== src/Cipher/RoundTrip.antt =====
-- core/voice_crypto.py: what one cipher seals, another opens.
use proxy_net.Prelude.{
  ℕ, ◌≡◌, ◌≢◌, refl, List, [], true, Option, none, some, leb, length, take, drop, ok, arith, sym,
  ◌∙◌, ok_injective, nat_eq,
}
use proxy_net.Bytes.{Bytes}
use proxy_net.Dict.{get}
use proxy_net.VoicePacket.{
  VoiceHeader, decode_header, unpack, type_audio, header_bytes, max_datagram_bytes,
}
use proxy_net.VoicePacket.Header.{sent_header, encode_header-EncodesTo, cut_header, cut_body}
use proxy_net.Replay.{check}
use proxy_net.Replay.Window.{Tracks, is_fresh_from}
use proxy_net.Replay.Check.{check-Answers}
use proxy_net.Cipher.{
  Library, Cipher, Sender, protect, unprotect, seal, admit, open_from, open_datagram,
}
use proxy_net.Cipher.Seal.{seal-Sealed, Sealed-header, pack-fits, protect-key}

unpack_lem :
    (d body : Bytes) (h : VoiceHeader)
    → leb (length d) max_datagram_bytes ≡ true
    → decode_header d ≡ ok h
    → drop header_bytes d ≡ body
    → body ≢ []
    → unpack d ≡ ok (h, body)
unfolding unpack
unpack_lem d body h fits decoded cut some_body = rw (fits, decoded, cut) (ground arith)

-- AES-GCM gives back what it encrypted, and its result is never empty, for the tag is in it.
pub record Authentic (lib : Library) : Type 0 where
  pub gives_back :
      (key number plaintext associated : Bytes)
      → lib.decrypt key number (lib.encrypt key number plaintext associated) associated
        ≡ some plaintext
  pub tagged :
      (key number plaintext associated : Bytes) → lib.encrypt key number plaintext associated ≢ []

module _ (lib : Library) (authentic : Authentic lib) where
  unprotect-protect :
      (c : Cipher) (aead : Option Bytes) (h : VoiceHeader) (header audio body : Bytes)
      → h.sender_id ≡ c.sender_id
      → protect lib c aead h.sequence header audio ≡ ok body
      → unprotect lib aead h header body ≡ ok audio
  unprotect-protect c none h header audio body same e = sym e
  unprotect-protect c (some key) h header audio body same e =
      let (n, made, is) = protect-key lib c key h.sequence header audio body e in
      rw (same, made, ← is, authentic.gives_back key n audio header) refl

  protect-some :
      (c : Cipher) (aead : Option Bytes) (n : ℕ) (header audio body : Bytes)
      → audio ≢ []
      → protect lib c aead n header audio ≡ ok body
      → body ≢ []
  protect-some c none n header audio body some_audio e = λ f. some_audio (ok_injective e ∙ f)
  protect-some c (some key) n header audio body some_audio e =
      let (m, made, is) = protect-key lib c key n header audio body e in
      λ f. authentic.tagged key m audio header (is ∙ f)

  -- What a cipher seals, a receiver opens to the same audio and the header that was written, if
  -- decryption gives back what was encrypted: the receiver knows the sender under the same key, its
  -- window tracks the numbers opened so far and finds the number fresh, and the audio is not empty.
  pub open-seal :
      (c r c' : Cipher) (audio datagram : Bytes) (sequence timestamp_ms : ℕ) (sender : Sender)
      (log : List ℕ)
      → seal lib c audio sequence timestamp_ms ≡ ok (c', datagram)
      → audio ≢ []
      → get r.senders c.sender_id ≡ some sender
      → sender.aead ≡ c.own_aead
      → Tracks sender.window log
      → is_fresh_from sender.window.highest sender.window.size log sequence ≡ true
      → (open_datagram lib r datagram).1
        ≡ ok (sent_header c.sender_id sequence timestamp_ms type_audio, audio)
  unfolding open_datagram open_from admit
  open-seal c r c' audio datagram sequence timestamp_ms sender log made some_audio known same_key
        tracks fresh =
      let m = seal-Sealed lib c audio sequence timestamp_ms c' datagram made in
      let h : VoiceHeader = sent_header c.sender_id sequence timestamp_ms type_audio in
      let (_, _, _, shape, _) =
        rw (m.encoded) at (encode_header-EncodesTo c.sender_id sequence timestamp_ms type_audio) in
      let read : unpack datagram ≡ ok (h, m.body) =
        unpack_lem datagram m.body h (pack-fits m.header m.body datagram m.assembled)
          (Sealed-header lib c audio sequence timestamp_ms c' datagram m)
          (rw (m.joined, shape) (cut_body h m.body))
          (protect-some c c.own_aead sequence m.header audio m.body some_audio m.protected) in
      let front : take header_bytes datagram ≡ m.header =
        rw (m.joined, shape) (cut_header h m.body) in
      let plain : unprotect lib sender.aead h (take header_bytes datagram) m.body ≡ ok audio =
        rw (same_key, front)
          (unprotect-protect c c.own_aead h m.header audio m.body refl m.protected) in
      let accepted : (check sender.window sequence).1 ≡ true =
        (check-Answers sender.window log sequence tracks).verdict ∙ fresh in
      rw (read, known, plain, accepted, open_datagram, open_from, admit) refl
