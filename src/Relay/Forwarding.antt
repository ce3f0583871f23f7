-- ===== src/Relay/Forwarding.antt =====
-- core/voice_relay.py: the audio of a bound participant does reach the room.
use proxy_net.Prelude.{
  ℕ, ◌≤◌, ◌≡◌, ◌↔◌, refl, true, false, ◌||◌, some, ltb, arith, ◌==◌, ==_iff, nat_eq, text_eq, ok,
  length, Member,
}
use mathlib.Core.Path.{subst₂}
use proxy_net.Bytes.{Bytes}
use proxy_net.Dict.{get}
use proxy_net.VoicePacket.{
  VoiceHeader, decode_header, header_bytes, max_datagram_bytes, type_audio, voice_protocol_version,
}
use proxy_net.Relay.{
  Relay, Participant, Address, write, participants, handle, handle_peer, handle_header,
  within_rate_limit, forward, is_bound_to,
}
use proxy_net.Relay.Binding.{Hears, forward_iff, within_rate_limit_keeps}

is_bound_to_own : (a : Address) → is_bound_to (some a) a ≡ true
is_bound_to_own (ip, port) = ground (arith, ==_iff ip ip, ==_iff port port)

decode_version :
    (raw : Bytes) (h : VoiceHeader) → decode_header raw ≡ ok h → h.version ≡ voice_protocol_version
unfolding decode_header
decode_version raw h e = ground arith

well_sized :
    {n : ℕ}
    → header_bytes ≤ n
    → n ≤ max_datagram_bytes
    → (ltb n header_bytes || ltb max_datagram_bytes n) ≡ false
well_sized low high = ground arith

module _ (s : Relay) (datagram : Bytes) (address : Address) (now ref : ℕ) (header : VoiceHeader)
    (peer : Participant) where
  handle_peer_lem :
      peer.ip ≡ address.0
      → header.type ≡ type_audio
      → peer.address ≡ some address
      → (within_rate_limit peer now).1 ≡ true
      → handle_peer s ref peer header datagram address now ≡ (
        write s ref (within_rate_limit peer now).0,
        forward datagram
            (within_rate_limit peer now).0
            (participants (write s ref (within_rate_limit peer now).0)),
      )
  unfolding handle_peer
  handle_peer_lem ip audio at allowed =
      let same : (peer.ip == address.0) ≡ true = (==_iff peer.ip address.0).1 ip in
      let bound : is_bound_to peer.address address ≡ true = rw at (is_bound_to_own address) in
      simp (same, audio, bound, allowed) refl

  -- A datagram of admissible size whose header is audio of a known participant, from that
  -- participant's IP and bound address and within its rate limit, leaves the relay unchanged for
  -- each participant, but the sender, that stands in the sender's room with a bound address, and
  -- for nobody else.
  pub handle-forwards :
      header_bytes ≤ length datagram
      → length datagram ≤ max_datagram_bytes
      → decode_header datagram ≡ ok header
      → get s.by_sender header.sender_id ≡ some ref
      → get s.objects ref ≡ some peer
      → peer.ip ≡ address.0
      → header.type ≡ type_audio
      → peer.address ≡ some address
      → (within_rate_limit peer now).1 ≡ true
      → (d : Bytes) (a : Address)
      → Member (d, a) (handle s datagram address now).1 ↔ (
          (d ≡ datagram)
          × (t : Participant) × Member t (participants (handle s datagram address now).0)
          × Hears peer.room peer.sender_id t a)
  unfolding handle handle_header
  handle-forwards long short decoded named object ip audio at allowed d a =
      let rated : Participant = (within_rate_limit peer now).0 in
      let after : Relay = write s ref rated in
      let (room, number, _) = within_rate_limit_keeps peer now in
      let sent : handle s datagram address now
          ≡ (after, forward datagram rated (participants after)) =
        simp
          (
            well_sized long short,
            decoded,
            decode_version datagram header decoded,
            named,
            object,
            handle_peer_lem ip audio at allowed,
          )
          refl in
      rw sent (
        subst₂
          (λ x y.
            Member (d, a) (forward datagram rated (participants after))
            ↔ ((d ≡ datagram) × (t : Participant) × Member t (participants after) × Hears x y t a))
          room number (forward_iff datagram d a rated (participants after)))
