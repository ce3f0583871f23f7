-- ===== src/VoiceSession/Incoming.antt =====
-- `incoming` of core/voice_session.py on every datagram: which ones raise.
use proxy_net.Prelude.{
  ℕ, ◌+◌, ◌^◌, ◌≤◌, ◌<◌, ◌≡◌, ◌≢◌, refl, ◌⊎◌, inl, inr, ◌↔◌, [], ◌∷◌, ◌++◌, true, Option, none,
  some, ltb, leb, eqb, eqb_iff, length, take, drop, length-take, length-drop, arith, Bool-cases,
  Option-cases, Result, ok, err, Result-cases, nat_eq, leb→le, ltb→lt, ok_injective, ap, sym,
}
use mathlib.Core.Path.{subst}
use proxy_net.Bytes.{Bytes, big_endian, from_bytes}
use proxy_net.Bytes.Fields.{AreBytes, from_bytes-bounded, take-AreBytes, drop-AreBytes}
use proxy_net.Dict.{get}
use proxy_net.VoicePacket.{
  VoiceHeader, VoicePacketError, decode_header, header_unpack, unpack, header_bytes,
  max_datagram_bytes, too_large, empty_body,
}
use proxy_net.VoicePacket.Header.{packed-fits}
use proxy_net.Replay.{check}
use proxy_net.Cipher.{
  Library, Cipher, Sender, CipherError, packet_error, nonce, unprotect, admit, open_from,
  open_datagram,
}
use proxy_net.VoiceSession.{
  Peer, VoiceSession, VoiceError, cipher_error, is_decryption_error, timing_bytes,
}
use proxy_net.VoiceSession.Network.{after_open, from_header, incoming}

-- The header alone, or more than a datagram may hold.
abbrev pub IsBodiless : Bytes → Type 0
IsBodiless d = (length d ≡ header_bytes) ⊎ (max_datagram_bytes < length d)

pub decoded-long :
    (d : Bytes) (h : VoiceHeader)
    → decode_header d ≡ ok h
    → (header_bytes ≤ length d) × (h ≡ header_unpack (take header_bytes d))
unfolding decode_header
decoded-long d h e = ground arith

nonce_within :
    (sender sequence : ℕ)
    → sender < 256 ^ 4
    → sequence < 256 ^ 8
    → (n : Bytes) × (nonce sender sequence ≡ ok n)
unfolding nonce
nonce_within sender sequence fits4 fits8 = (
  big_endian 4 sender ++ big_endian 8 sequence,
  simp (packed-fits 4 sender fits4, packed-fits 8 sequence fits8) refl,
)

-- The fields of a header fit the nonce.
nonce_fits :
    (d : Bytes) (h : VoiceHeader)
    → AreBytes d
    → decode_header d ≡ ok h
    → (n : Bytes) × (nonce h.sender_id h.sequence ≡ ok n)
unfolding header_unpack
nonce_fits d h a e =
    let (long, is) = decoded-long d h e in
    let front : Bytes = take header_bytes d in
    let whole : length front ≡ header_bytes = length-take header_bytes d long in
    let sender : from_bytes (take 4 (drop 2 front)) < 256 ^ length (take 4 (drop 2 front)) =
      from_bytes-bounded (take 4 (drop 2 front))
        (take-AreBytes 4 (drop 2 front) (drop-AreBytes 2 front (take-AreBytes header_bytes d a))) in
    let four : length (take 4 (drop 2 front)) ≡ 4 =
      length-take 4 (drop 2 front) (omega (arith, length-drop 2 front, whole)) in
    let number : from_bytes (take 8 (drop 6 front)) < 256 ^ length (take 8 (drop 6 front)) =
      from_bytes-bounded (take 8 (drop 6 front))
        (take-AreBytes 8 (drop 6 front) (drop-AreBytes 6 front (take-AreBytes header_bytes d a))) in
    let eight : length (take 8 (drop 6 front)) ≡ 8 =
      length-take 8 (drop 6 front) (omega (arith, length-drop 6 front, whole)) in
    rw is (
      nonce_within (from_bytes (take 4 (drop 2 front))) (from_bytes (take 8 (drop 6 front)))
        (rw four at sender) (rw eight at number))

-- An error that `incoming` catches, or none.
abbrev IsCaught : {A : Type 0} → Result CipherError A → Type 0
IsCaught (ok x) = Unit
IsCaught (err e) = is_decryption_error e ≡ true

admit-IsCaught :
    (c : Cipher) (sender : Sender) (h : VoiceHeader) (audio : Bytes)
    → IsCaught (admit c sender h audio).1
unfolding admit
admit-IsCaught c sender h audio = elim (Bool-cases (check sender.window h.sequence).1) [
  | inl fresh ↦ rw (fresh, admit) tt
  | inr old ↦ rw (old, admit) refl
]

unprotect-IsCaught :
    (lib : Library) (aead : Option Bytes) (h : VoiceHeader) (header body n : Bytes)
    → nonce h.sender_id h.sequence ≡ ok n
    → IsCaught (unprotect lib aead h header body)
unprotect-IsCaught lib none h header body n made = tt
unprotect-IsCaught lib (some key) h header body n made =
    elim (Option-cases (lib.decrypt key n body header)) [
      | inl failed ↦ rw (made, failed) refl
      | inr (audio, opened) ↦ rw (made, opened) tt
    ]

-- How `open` of a datagram with a readable header ends.
abbrev Opens : Bytes → Cipher × Result CipherError (VoiceHeader × Bytes) → Type 0
Opens d (c, r) =
    (IsBodiless d × ((e : VoicePacketError) × (r ≡ err (packet_error e))))
    ⊎ ((length d ≢ header_bytes) × (length d ≤ max_datagram_bytes) × IsCaught r)

unpack-cases :
    (d : Bytes) (h : VoiceHeader)
    → decode_header d ≡ ok h
    → (IsBodiless d × ((e : VoicePacketError) × (unpack d ≡ err e)))
      ⊎ ((length d ≢ header_bytes)
          × (length d ≤ max_datagram_bytes)
          × (unpack d ≡ ok (h, drop header_bytes d)))
unfolding unpack
unpack-cases d h e = elim (Bool-cases (leb (length d) max_datagram_bytes)) [
  | inr over ↦ inl (inr (ground arith), (too_large, simp over refl))
  | inl fits ↦ from_body fits (drop header_bytes d) refl
]
  where
    from_body :
        leb (length d) max_datagram_bytes ≡ true
        → (body : Bytes) → drop header_bytes d ≡ body
        → (IsBodiless d × ((x : VoicePacketError) × (unpack d ≡ err x)))
          ⊎ ((length d ≢ header_bytes)
              × (length d ≤ max_datagram_bytes)
              × (unpack d ≡ ok (h, drop header_bytes d)))
    from_body fits [] cut =
        let long = (decoded-long d h e).0 in
        inl (
          inl (omega (arith, length-drop header_bytes d, ap length cut)),
          (empty_body, rw (fits, e, cut) refl),
        )
    from_body fits (b ∷ bs) cut =
        let long = (decoded-long d h e).0 in
        inr (
          omega (arith, length-drop header_bytes d, ap length cut),
          leb→le (length d) max_datagram_bytes fits,
          rw (fits, e, cut) refl,
        )

open-Opens :
    (lib : Library) (c : Cipher) (d : Bytes) (h : VoiceHeader)
    → AreBytes d
    → decode_header d ≡ ok h
    → Opens d (open_datagram lib c d)
unfolding open_datagram open_from
open-Opens lib c d h a e = elim (unpack-cases d h e) [
  | inl (bodiless, (x, failed)) ↦ rw (failed, open_datagram) (inl (bodiless, (x, refl)))
  | inr (some_body, fits, read) ↦ elim (Option-cases (get c.senders h.sender_id)) [
    | inl missing ↦ rw (read, missing, open_datagram) (inr (some_body, fits, refl))
    | inr (sender, there) ↦
        let (n, made) = nonce_fits d h a e in
        let caught =
          unprotect-IsCaught lib sender.aead h (take header_bytes d) (drop header_bytes d) n made in
        elim (Result-cases
          (unprotect lib sender.aead h (take header_bytes d) (drop header_bytes d))) [
            | inr (x, failed) ↦
                let f = rw failed at caught in
                rw (read, there, failed, open_datagram, open_from) (inr (some_body, fits, f))
            | inl (audio, opened) ↦
                rw (read, there, opened, open_datagram, open_from)
                  (inr (some_body, fits, admit-IsCaught c sender h audio))
          ]
  ]
]

has_body : (d : Bytes) → length d ≢ header_bytes → length d ≤ max_datagram_bytes → IsBodiless d → ⊥
has_body d some_body fits (inl e) = some_body e
has_body d some_body fits (inr over) = omega arith

module _ {S : Type 0} where
  -- The datagram names a known peer, not the own id, and has no body or is too long.
  abbrev pub Breaks : VoiceSession S → Bytes → Type 0
  Breaks s d =
      (h : VoiceHeader) × (decode_header d ≡ ok h)
      × (h.sender_id ≢ s.sender_id)
      × (get s.peers h.sender_id ≢ none)
      × IsBodiless d

  abbrev pub Raises : VoiceSession S × Result VoiceError (Unit {0}) → Type 0
  Raises (s, r) = (e : VoiceError) × (r ≡ err e)

  -- What breaks behind a header.
  abbrev Fails : VoiceSession S → Bytes → VoiceHeader → Type 0
  Fails s d h = (h.sender_id ≢ s.sender_id) × (get s.peers h.sender_id ≢ none) × IsBodiless d

module _ {S : Type 0} (lib : Library) (since : ℕ → ℕ → ℕ) where
  after_open-Raises :
      (s : VoiceSession S) (peer : Peer S) (d : Bytes) (id now : ℕ)
      (out : Cipher × Result CipherError (VoiceHeader × Bytes))
      → Opens d out
      → Raises (after_open since s peer id now out) ↔ IsBodiless d
  unfolding after_open
  after_open-Raises s peer d id now (c, ok x) (inl (bodiless, (e, f))) = absurd (cc)
  after_open-Raises s peer d id now (c, ok (h, body)) (inr (some_body, fits, caught)) =
      elim (Bool-cases (eqb (length body) (peer.codec.frame_bytes + timing_bytes))) [
        | inl sized ↦
            rw (sized, after_open)
              ((λ (e, f). absurd (cc)), (λ b. absurd (has_body d some_body fits b)))
        | inr other ↦
            rw (other, after_open)
              ((λ (e, f). absurd (cc)), (λ b. absurd (has_body d some_body fits b)))
      ]
  after_open-Raises s peer d id now (c, err e) (inl (bodiless, (x, is))) =
      let same : e ≡ packet_error x = cc in
      rw (same, after_open) ((λ r. bodiless), (λ b. (cipher_error (packet_error x), refl)))
  after_open-Raises s peer d id now (c, err e) (inr (some_body, fits, caught)) =
      rw (caught, after_open) ((λ (x, f). absurd (cc)), (λ b. absurd (has_body d some_body fits b)))

  from_header-Raises :
      (s : VoiceSession S) (d : Bytes) (h : VoiceHeader) (now : ℕ)
      → AreBytes d
      → decode_header d ≡ ok h
      → Raises (from_header lib since s d now h.sender_id) ↔ Fails s d h
  unfolding from_header
  from_header-Raises s d h now a read = elim (Bool-cases (eqb h.sender_id s.sender_id)) [
    | inl own ↦
        rw (own, from_header) ((λ (x, f). absurd (cc)), (λ f. absurd (f.0 ((eqb_iff _ _).0 own))))
    | inr other ↦ elim (Option-cases (get s.peers h.sender_id)) [
      | inl stranger ↦
          rw (other, stranger, from_header) ((λ (x, f). absurd (cc)), (λ f. absurd (f.1 refl)))
      | inr (peer, known) ↦
          let raises =
            after_open-Raises s peer d h.sender_id now (open_datagram lib s.cipher d)
              (open-Opens lib s.cipher d h a read) in
          rw (other, known, from_header)
            (
              (λ r. ((λ e. cc ((eqb_iff h.sender_id s.sender_id).1 e)), (λ e. cc), raises.0 r)),
              (λ f. raises.1 f.2),
            )
    ]
  ]

  -- Of the datagrams that can arrive, `incoming` raises for exactly those that carry a readable
  -- header with the id of a known peer, not the own one, and are the header alone or longer than
  -- 1200 bytes.
  pub incoming-Raises_iff :
      (s : VoiceSession S) (d : Bytes) (now : ℕ)
      → AreBytes d
      → Raises (incoming lib since s d now) ↔ Breaks s d
  unfolding incoming
  incoming-Raises_iff s d now a = elim (Bool-cases (ltb (length d) header_bytes)) [
    | inl short ↦
        rw (short, incoming)
          (
            (λ (x, f). absurd (cc)),
            (λ b.
                absurd (
                  omega (arith, (decoded-long d b.0 b.1).0, ltb→lt (length d) header_bytes short))),
          )
    | inr long ↦ elim (Result-cases (decode_header d)) [
      | inr (x, bad) ↦
          rw (long, bad, incoming) ((λ (y, f). absurd (cc)), (λ b. let e = b.1 in absurd (cc)))
      | inl (h, read) ↦
          let raises = from_header-Raises s d h now a read in
          rw (long, read, incoming)
            (
              (λ r. let f = raises.0 r in (h, refl, f.0, f.1, f.2)),
              (λ b. raises.1 (subst (Fails s d) (sym (ok_injective b.1)) (b.2, b.3, b.4))),
            )
    ]
  ]
