-- ===== src/Cipher/Seal.antt =====
-- `seal` of core/voice_crypto.py: the numbers of the datagrams that leave a cipher.
use proxy_net.Prelude.{
  ℕ, ◌^◌, ltb, ltb→lt, take, drop, drop-append, ◌<◌, ◌≡◌, refl, inl, inr, List, [], ◌∷◌, ◌++◌, true,
  false, Option, none, some, leb, ok, err, Result-cases, Bool-cases, guard, arith, sym, ap,
  ok_injective, ◌∙◌, length,
}
use mathlib.Core.Path.{subst}
use proxy_net.Bytes.{Bytes, from_bytes, to_bytes}
use proxy_net.Bytes.Fields.{from_bytes-big_endian}
use proxy_net.VoicePacket.{
  VoiceHeader, encode_header, decode_header, pack, packed, type_audio, max_datagram_bytes,
  header_bytes, struct_error,
}
use proxy_net.VoicePacket.Header.{
  sent_header, encode_header-EncodesTo, decode_header-fields, cut_header, cut_body, packed-fits,
}
use proxy_net.Cipher.{Library, Cipher, nonce, protect, is_used, seal}

pub pack-fits :
    (header body d : Bytes) → pack header body ≡ ok d → leb (length d) max_datagram_bytes ≡ true
unfolding pack
pack-fits header body d e = elim (Bool-cases (leb (length (header ++ body)) max_datagram_bytes)) [
  | inl fits ↦ let f = rw (fits, guard) at e in cc
  | inr large ↦ let f = rw (large, guard) at e in cc
]

pack-ok : (header body d : Bytes) → pack header body ≡ ok d → d ≡ header ++ body
unfolding pack
pack-ok header body d e = elim (Bool-cases (leb (length (header ++ body)) max_datagram_bytes)) [
  | inl fits ↦ let f = rw (fits, guard) at e in cc
  | inr large ↦ let f = rw (large, guard) at e in cc
]

module _ (lib : Library) where
  -- What a sealed datagram was made of.
  pub record Sealed (c : Cipher) (audio : Bytes) (sequence timestamp_ms : ℕ) (c' : Cipher)
      (d : Bytes) : Type 0 where
    pub header : Bytes
    pub body : Bytes
    pub unused : is_used c.last_sequence sequence ≡ false
    pub encoded : encode_header c.sender_id sequence timestamp_ms type_audio ≡ ok header
    pub protected : protect lib c c.own_aead sequence header audio ≡ ok body
    pub assembled : pack header body ≡ ok d
    pub joined : d ≡ header ++ body
    pub advanced : c' ≡ record c { last_sequence = some sequence }

  pub seal-Sealed :
      (c : Cipher) (audio : Bytes) (sequence timestamp_ms : ℕ) (c' : Cipher) (d : Bytes)
      → seal lib c audio sequence timestamp_ms ≡ ok (c', d)
      → Sealed c audio sequence timestamp_ms c' d
  unfolding seal
  seal-Sealed c audio sequence timestamp_ms c' d e =
      elim (Bool-cases (is_used c.last_sequence sequence)) [
        | inl used ↦ let f = simp used at e in absurd (cc)
        | inr unused ↦
            elim (Result-cases (encode_header c.sender_id sequence timestamp_ms type_audio)) [
              | inr (x, failed) ↦ let f = simp (unused, failed) at e in absurd (cc)
              | inl (header, encoded) ↦
                  elim (Result-cases (protect lib c c.own_aead sequence header audio)) [
                    | inr (x, failed) ↦ let f = simp (unused, encoded, failed) at e in absurd (cc)
                    | inl (body, protected) ↦ elim (Result-cases (pack header body)) [
                      | inr (x, failed) ↦
                          let f = simp (unused, encoded, protected, failed) at e in absurd (cc)
                      | inl (datagram, joined) ↦
                          let f = ok_injective (simp (unused, encoded, protected, joined) at e) in
                          record {
                            header = header;
                            body = body;
                            unused = unused;
                            encoded = encoded;
                            protected = protected;
                            assembled = joined ∙ ap ok (ap (λ (x : Cipher × Bytes). x.1) f);
                            joined =
                                sym (ap (λ (x : Cipher × Bytes). x.1) f)
                                ∙ pack-ok header body datagram joined;
                            advanced = sym (ap (λ (x : Cipher × Bytes). x.0) f);
                          }
                    ]
                  ]
            ]
      ]

-- The calls of `seal`: the audio, the sequence number and the time stamp.
abbrev pub SealCall : Type 0
SealCall = Bytes × ℕ × ℕ

-- The datagrams that a cipher seals, in order. A call that raises leaves the cipher as it was.
unfoldable pub sealed : Library → Cipher → List SealCall → List Bytes
sealed lib c [] = []
sealed lib c ((audio, sequence, timestamp_ms) ∷ calls) =
    elim (seal lib c audio sequence timestamp_ms) [
      | err e ↦ sealed lib c calls
      | ok (c', d) ↦ d ∷ sealed lib c' calls
    ]

-- The number is above the last one, if there was one.
abbrev pub Above : Option ℕ → ℕ → Type 0
Above none n = Unit
Above (some m) n = m < n

unused-Above : (o : Option ℕ) (n : ℕ) → is_used o n ≡ false → Above o n
unused-Above none n e = tt
unused-Above (some m) n e = ground arith

-- Behind the header stands the result of an encryption with the sender's key, where it has one,
-- under the nonce of its id and the number in the header, which is the associated data.
abbrev pub IsBody : Library → Option Bytes → ℕ → ℕ → Bytes → Type 0
IsBody lib none sender_id sequence d = Unit
IsBody lib (some key) sender_id sequence d =
    (n : Bytes) × (audio : Bytes) × (nonce sender_id sequence ≡ ok n)
    × (drop header_bytes d ≡ lib.encrypt key n audio (take header_bytes d))

-- The datagrams bear the sender's id, and numbers that grow strictly, above the last one, and each
-- is encrypted under the nonce of its own number.
abbrev pub Climbs : Library → Option Bytes → ℕ → Option ℕ → List Bytes → Type 0
Climbs lib own_aead sender_id last [] = Unit
Climbs lib own_aead sender_id last (d ∷ ds) =
    (h : VoiceHeader) × (decode_header d ≡ ok h)
    × (h.sender_id ≡ sender_id)
    × Above last h.sequence
    × IsBody lib own_aead sender_id h.sequence d
    × Climbs lib own_aead sender_id (some h.sequence) ds

-- Different numbers of a sender have different nonces.
abbrev pub HasOwnNonces : ℕ → Type 0
HasOwnNonces sender_id =
    (m k : ℕ) (n : Bytes) → nonce sender_id m ≡ ok n → nonce sender_id k ≡ ok n → m ≡ k

from_bytes-packed : (w n : ℕ) (bs : Bytes) → packed w n ≡ ok bs → from_bytes bs ≡ n
unfolding to_bytes
from_bytes-packed w n bs e = elim (Bool-cases (ltb n (256 ^ w))) [
  | inl fits ↦
      let small = ltb→lt n (256 ^ w) fits in
      let same = ok_injective (sym (packed-fits w n small) ∙ e) in
      rw (← same) (from_bytes-big_endian w n small)
  | inr large ↦
      let bad : packed w n ≡ err struct_error = rw (large, packed) refl in
      let f = sym bad ∙ e in absurd (cc)
]

-- What a nonce is made of.
nonce-parts :
    (sender_id m : ℕ) (n : Bytes)
    → nonce sender_id m ≡ ok n
    → (a : Bytes) × (b : Bytes) × (packed 4 sender_id ≡ ok a) × (packed 8 m ≡ ok b) × (n ≡ a ++ b)
unfolding nonce
nonce-parts sender_id m n e = elim (Result-cases (packed 4 sender_id)) [
  | inr (x, bad) ↦ let f = simp bad at e in absurd (cc)
  | inl (a, is_a) ↦ elim (Result-cases (packed 8 m)) [
    | inr (x, bad) ↦ let f = simp (is_a, bad) at e in absurd (cc)
    | inl (b, is_b) ↦ (a, b, is_a, is_b, sym (ok_injective (simp (is_a, is_b) at e)))
  ]
]

nonce-HasOwnNonces : (sender_id : ℕ) → HasOwnNonces sender_id
nonce-HasOwnNonces sender_id m k n e f =
    let (a, b, is_a, is_b, p) = nonce-parts sender_id m n e in
    let (c, d, is_c, is_d, q) = nonce-parts sender_id k n f in
    let same_id : c ≡ a = ok_injective (sym is_c ∙ is_a) in
    let same : a ++ b ≡ a ++ d = rw (← p, q, same_id) refl in
    let same_number : b ≡ d = sym (drop-append a b) ∙ ap (drop (length a)) same ∙ drop-append a d in
    sym (from_bytes-packed 8 m b is_b) ∙ ap from_bytes same_number ∙ from_bytes-packed 8 k d is_d

module _ (lib : Library) where
  pub Sealed-header :
      (c : Cipher) (audio : Bytes) (sequence timestamp_ms : ℕ) (c' : Cipher) (d : Bytes)
      → Sealed lib c audio sequence timestamp_ms c' d
      → decode_header d ≡ ok (sent_header c.sender_id sequence timestamp_ms type_audio)
  Sealed-header c audio sequence timestamp_ms c' d m =
      let written = encode_header-EncodesTo c.sender_id sequence timestamp_ms type_audio in
      let (id_fits, number_fits, _, shape, _) = rw (m.encoded) at written in
      let h : VoiceHeader = sent_header c.sender_id sequence timestamp_ms type_audio in
      rw (m.joined, shape)
        (decode_header-fields h m.body
          (record {
            version_fits = omega arith;
            type_fits = omega arith;
            sender_fits = omega arith;
            sequence_fits = omega arith;
            timestamp_fits = omega arith;
          })
          refl refl)

  pub protect-key :
      (c : Cipher) (key : Bytes) (sequence : ℕ) (header audio body : Bytes)
      → protect lib c (some key) sequence header audio ≡ ok body
      → (n : Bytes) × (nonce c.sender_id sequence ≡ ok n) × (lib.encrypt key n audio header ≡ body)
  protect-key c key sequence header audio body e =
      elim (Result-cases (nonce c.sender_id sequence)) [
        | inl (n, made) ↦ (n, made, ok_injective (simp made at e))
        | inr (x, failed) ↦ let f = simp failed at e in absurd (cc)
      ]

  protect-IsBody :
      (c : Cipher) (own : Option Bytes) (sequence : ℕ) (header audio body d : Bytes)
      → protect lib c own sequence header audio ≡ ok body
      → take header_bytes d ≡ header
      → drop header_bytes d ≡ body
      → IsBody lib own c.sender_id sequence d
  protect-IsBody c none sequence header audio body d e front back = tt
  protect-IsBody c (some key) sequence header audio body d e front back =
      let (n, made, is) = protect-key c key sequence header audio body e in
      (n, audio, made, rw (front, back) (sym is))

  Sealed-IsBody :
      (c : Cipher) (audio : Bytes) (sequence timestamp_ms : ℕ) (c' : Cipher) (d : Bytes)
      → Sealed lib c audio sequence timestamp_ms c' d
      → IsBody lib c.own_aead c.sender_id sequence d
  Sealed-IsBody c audio sequence timestamp_ms c' d m =
      let h : VoiceHeader = sent_header c.sender_id sequence timestamp_ms type_audio in
      let (_, _, _, shape, _) =
        rw (m.encoded) at (encode_header-EncodesTo c.sender_id sequence timestamp_ms type_audio) in
      protect-IsBody c c.own_aead sequence m.header audio m.body d m.protected
        (rw (m.joined, shape) (cut_header h m.body)) (rw (m.joined, shape) (cut_body h m.body))

  all-Climb :
      (c : Cipher) (calls : List SealCall)
      → Climbs lib c.own_aead c.sender_id c.last_sequence (sealed lib c calls)
  unfolding sealed
  all-Climb c [] = tt
  all-Climb c ((audio, sequence, timestamp_ms) ∷ calls) =
      elim (Result-cases (seal lib c audio sequence timestamp_ms)) [
        | inr (x, failed) ↦ rw (failed, sealed) (all-Climb c calls)
        | inl ((c', d), made) ↦
            let m = seal-Sealed lib c audio sequence timestamp_ms c' d made in
            rw (made, sealed)
              (
                sent_header c.sender_id sequence timestamp_ms type_audio,
                Sealed-header c audio sequence timestamp_ms c' d m,
                refl,
                unused-Above c.last_sequence sequence m.unused,
                Sealed-IsBody c audio sequence timestamp_ms c' d m,
                let go = λ (x : Cipher).
                      Climbs lib x.own_aead x.sender_id x.last_sequence (sealed lib c' calls) in
                    subst go m.advanced (all-Climb c' calls),
              )
      ]

  -- Whatever a client seals, and however often it tries, the datagrams that a cipher returns bear
  -- its sender id and sequence numbers that grow strictly; where the cipher has a key, the body of
  -- each is encrypted with it under the nonce of its id and its own number; and different numbers
  -- have different nonces, so that no nonce is used twice.
  pub sealed-Climbs :
      (c : Cipher) (calls : List SealCall)
      → Climbs lib c.own_aead c.sender_id c.last_sequence (sealed lib c calls)
        × HasOwnNonces c.sender_id
  sealed-Climbs c calls = (all-Climb c calls, nonce-HasOwnNonces c.sender_id)
