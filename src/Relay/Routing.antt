-- ===== src/Relay/Routing.antt =====
-- `handle` of core/voice_relay.py: what may become of a datagram.
use proxy_net.Prelude.{
  ℕ, ◌≡◌, refl, inl, inr, [], true, false, not, ◌||◌, Option, none, some, ltb, eqb, if◌then◌else◌,
  arith, Bool-cases, Option-cases, Result-cases, ◌==◌, ==_iff, nat_eq, text_eq, ok, take, drop,
  length,
}
use mathlib.Core.Path.{ap₂}
use proxy_net.Bytes.{Bytes}
use proxy_net.Dict.{get}
use proxy_net.VoicePacket.{
  VoiceHeader, decode_header, header_bytes, max_datagram_bytes, type_audio, type_hello,
  voice_protocol_version,
}
use proxy_net.Relay.{
  Relay, Participant, Address, Outgoing, write, participants, token_bytes, reject, hello, handle,
  handle_peer, handle_header, within_rate_limit, forward, is_bound_to,
}

-- The datagram names a participant, and comes from the IP of that participant's connection.
pub record Known (s : Relay) (datagram : Bytes) (address : Address) : Type 0 where
  pub header : VoiceHeader
  pub ref : ℕ
  pub peer : Participant
  pub decoded : decode_header datagram ≡ ok header
  pub sender : get s.by_sender header.sender_id ≡ some ref
  pub object : get s.objects ref ≡ some peer
  pub same_ip : peer.ip ≡ address.0

-- What `handle` may do: refuse; refuse for the rate; bind the address; or forward.
pub data Handles (s : Relay) (datagram : Bytes) (address : Address) (now : ℕ)
    (out : Relay × Outgoing) : Type 0 where
  refused : out ≡ reject s → Handles s datagram address now out
  limited :
      (k : Known s datagram address)
      → (within_rate_limit k.peer now).1 ≡ false
      → out ≡ reject (write s k.ref (within_rate_limit k.peer now).0)
      → Handles s datagram address now out
  bound :
      (k : Known s datagram address)
      → take token_bytes (drop header_bytes datagram) ≡ k.peer.token
      → out ≡ (write s k.ref (record (k.peer) { address = some address }), [])
      → Handles s datagram address now out
  forwarded :
      (k : Known s datagram address)
      → k.header.type ≡ type_audio
      → k.peer.address ≡ some address
      → (within_rate_limit k.peer now).1 ≡ true
      → out ≡ (
        write s k.ref (within_rate_limit k.peer now).0,
        forward datagram
            (within_rate_limit k.peer now).0
            (participants (write s k.ref (within_rate_limit k.peer now).0)),
      )
      → Handles s datagram address now out

is_bound_to-some : (o : Option Address) (a : Address) → is_bound_to o a ≡ true → o ≡ some a
is_bound_to-some none a e = cc
is_bound_to-some (some (ip, port)) (ip', port') e =
    ap₂ (λ x y. some (x, y)) ((==_iff ip ip').0 (ground arith))
      ((==_iff port port').0 (ground arith))

module _ (s : Relay) (datagram : Bytes) (address : Address) (now : ℕ) where
  hello-Handles :
      (k : Known s datagram address)
      → Handles s datagram address now (hello s k.ref k.peer datagram address)
  unfolding hello
  hello-Handles k =
      elim (Bool-cases (
        not (eqb (length (take token_bytes (drop header_bytes datagram))) token_bytes)
        || not (take token_bytes (drop header_bytes datagram) == k.peer.token))) [
          | inl wrong ↦ rw wrong (refused refl)
          | inr right ↦ rw right (
              bound k
                ((==_iff (take token_bytes (drop header_bytes datagram)) k.peer.token).0
                  (ground arith))
                refl)
        ]

  audio-Handles :
      (k : Known s datagram address)
      → k.header.type ≡ type_audio
      → k.peer.address ≡ some address
      → Handles s datagram address now (
          let (peer', allowed) = within_rate_limit k.peer now in
          let s' = write s k.ref peer' in
          if allowed then (s', forward datagram peer' (participants s')) else reject s')
  audio-Handles k audio at = elim (Bool-cases (within_rate_limit k.peer now).1) [
    | inl allowed ↦ simp allowed (forwarded k audio at allowed refl)
    | inr denied ↦ simp denied (limited k denied refl)
  ]

  peer-Handles :
      (header : VoiceHeader) (ref : ℕ) (peer : Participant)
      → decode_header datagram ≡ ok header
      → get s.by_sender header.sender_id ≡ some ref
      → get s.objects ref ≡ some peer
      → Handles s datagram address now (handle_peer s ref peer header datagram address now)
  unfolding handle_peer
  peer-Handles header ref peer d i o = elim (Bool-cases (peer.ip == address.0)) [
    | inr other ↦ simp other (refused refl)
    | inl same ↦
        let k : Known s datagram address = record {
          header = header;
          ref = ref;
          peer = peer;
          decoded = d;
          sender = i;
          object = o;
          same_ip = (==_iff peer.ip address.0).0 same;
        } in
        simp same (elim (Bool-cases (eqb header.type type_hello)) [
          | inl greets ↦ simp greets (hello-Handles k)
          | inr talks ↦ simp talks (elim (Bool-cases (eqb header.type type_audio)) [
            | inr unknown ↦ simp unknown (refused refl)
            | inl audio ↦ simp audio (elim (Bool-cases (is_bound_to peer.address address)) [
              | inr unbound ↦ simp unbound (refused refl)
              | inl bound' ↦
                  simp bound'
                    (audio-Handles k (ground arith) (is_bound_to-some peer.address address bound'))
            ])
          ])
        ])
  ]

  header-Handles :
      (header : VoiceHeader)
      → decode_header datagram ≡ ok header
      → Handles s datagram address now (handle_header s header datagram address now)
  unfolding handle_header
  header-Handles header d = elim (Bool-cases (eqb header.version voice_protocol_version)) [
    | inr other ↦ simp other (refused refl)
    | inl same ↦ simp same (elim (Option-cases (get s.by_sender header.sender_id)) [
      | inl missing ↦ rw missing (refused refl)
      | inr (ref, i) ↦ rw i (elim (Option-cases (get s.objects ref)) [
        | inl missing ↦ rw missing (refused refl)
        | inr (peer, o) ↦ rw o (peer-Handles header ref peer d i o)
      ])
    ])
  ]

  pub handle-Handles : Handles s datagram address now (handle s datagram address now)
  unfolding handle
  handle-Handles =
      elim (Bool-cases
        (ltb (length datagram) header_bytes || ltb max_datagram_bytes (length datagram))) [
          | inl badly_sized ↦ rw badly_sized (refused refl)
          | inr sized ↦ rw sized (elim (Result-cases (decode_header datagram)) [
            | inl (header, d) ↦ rw d (header-Handles header d)
            | inr (e, d) ↦ rw d (refused refl)
          ])
        ]
