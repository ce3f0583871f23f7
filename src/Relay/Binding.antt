-- ===== src/Relay/Binding.antt =====
-- Who hears whom in core/voice_relay.py: addresses are bound by token, and datagrams go to the
-- bound participants of the sender's room.
use proxy_net.Prelude.{
  ℕ, ◌≡◌, ◌≢◌, refl, ◌⊎◌, inl, inr, ◌↔◌, List, [], ◌∷◌, Option, none, some, eqb, eqb_iff, arith, ap,
  sym, Bool-cases, Option-cases, Text, ==_iff, nat_eq, text_eq, take, drop, Member,
}
use mathlib.Core.Path.{subst, subst₂}
use proxy_net.Bytes.{Bytes}
use proxy_net.Dict.{get}
use proxy_net.Dict.Laws.{get-put}
use proxy_net.VoicePacket.{header_bytes, type_audio}
use proxy_net.Relay.{
  Relay, Participant, Address, Outgoing, write, participants, token_bytes, reject, handle,
  within_rate_limit, forward, target_address,
}
use proxy_net.Relay.Routing.{Known, Handles, refused, limited, bound, forwarded, handle-Handles}

-- A participant that is to hear, at `a`, the sender of that room and id.
abbrev pub Hears : Text → ℕ → Participant → Address → Type 0
Hears room sender_id target a =
    (target.room ≡ room) × (target.sender_id ≢ sender_id) × (target.address ≡ some a)

target_address_iff :
    (peer target : Participant) (a : Address)
    → (target_address peer target ≡ some a) ↔ Hears peer.room peer.sender_id target a
unfolding target_address
target_address_iff peer target a = (
  λ e. ((==_iff target.room peer.room).0 (ground arith), ground arith, ground arith),
  λ h. ground (arith, ==_iff target.room peer.room, eqb_iff target.sender_id peer.sender_id),
)

-- What is forwarded, from the head's address on.
abbrev forward_head : Bytes → Option Address → Outgoing → Outgoing
forward_head datagram none rest = rest
forward_head datagram (some a) rest = (datagram, a) ∷ rest

forward-cons :
    (datagram : Bytes) (peer t : Participant) (ts : List Participant)
    → forward datagram peer (t ∷ ts)
      ≡ forward_head datagram (target_address peer t) (forward datagram peer ts)
unfolding forward
forward-cons datagram peer t ts = elim (Option-cases (target_address peer t)) [
  | inl e ↦ rw (e, forward) refl
  | inr (a, e) ↦ rw (e, forward) refl
]

forward_head_iff :
    (datagram d : Bytes) (a : Address) (o : Option Address) (rest : Outgoing)
    → Member (d, a) (forward_head datagram o rest)
      ↔ (((d ≡ datagram) × (o ≡ some a)) ⊎ Member (d, a) rest)
forward_head_iff datagram d a none rest = (λ m. inr m, λ h. elim h [ inl (_, e) ↦ cc | inr m ↦ m ])
forward_head_iff datagram d a (some b) rest = (
  λ m. elim m [
    | inl e ↦
        inl (ap (λ (x : Bytes × Address). x.0) e, ap (λ (x : Bytes × Address). some x.1) (sym e))
    | inr m' ↦ inr m'
  ],
  λ h. elim h [ inl (x, y) ↦ inl (cc) | inr m ↦ inr m ],
)

-- `forward` sends the datagram, unchanged, to exactly those who are to hear the sender.
pub forward_iff :
    (datagram d : Bytes) (a : Address) (peer : Participant) (ts : List Participant)
    → Member (d, a) (forward datagram peer ts)
      ↔ ((d ≡ datagram) × (t : Participant) × Member t ts × Hears peer.room peer.sender_id t a)
unfolding forward
forward_iff datagram d a peer [] = (λ m. absurd m, λ (_, _, m, _). absurd m)
forward_iff datagram d a peer (t ∷ ts) =
    let ih = forward_iff datagram d a peer ts in
    let head = forward_head_iff datagram d a (target_address peer t) (forward datagram peer ts) in
    (
      λ m. elim (head.0 (rw (forward-cons datagram peer t ts) at m)) [
        | inl (same, e) ↦ (same, t, inl refl, (target_address_iff peer t a).0 e)
        | inr m' ↦ let (same, u, there, h) = ih.0 m' in (same, u, inr there, h)
      ],
      λ (same, u, there, h). rw (forward-cons datagram peer t ts) (
          head.1 (elim there [
            | inl e ↦ inl (
              same,
              (target_address_iff peer t a).1 (subst (λ x. Hears peer.room peer.sender_id x a) e h),
            )
            | inr m ↦ inr (ih.1 (same, u, m, h))
          ])),
    )

-- The datagram leaves for exactly the hearers of the room, as the relay `t` knows them.
abbrev pub Delivers : Relay → Bytes → Address → Relay → Outgoing → Type 0
Delivers s datagram address after out =
    (out ≡ [])
    ⊎ ((k : Known s datagram address) × (k.header.type ≡ type_audio)
        × (k.peer.address ≡ some address)
        × ((d : Bytes) (a : Address)
            → Member (d, a) out ↔ (
                (d ≡ datagram)
                × (t : Participant) × Member t (participants after)
                × Hears k.peer.room k.peer.sender_id t a)))

pub within_rate_limit_keeps :
    (p : Participant) (now : ℕ)
    → ((within_rate_limit p now).0.room ≡ p.room)
      × ((within_rate_limit p now).0.sender_id ≡ p.sender_id)
      × ((within_rate_limit p now).0.address ≡ p.address)
unfolding within_rate_limit
within_rate_limit_keeps p now = ground arith

-- Whatever arrives, nothing leaves the relay, or the datagram itself leaves for each participant,
-- but the sender, that stands in the sender's room with a bound address, and for nobody else. In
-- the second case the datagram is audio, the sender id of its header belongs to a participant, and
-- it came from that participant's IP and bound address.
pub handle-Delivers :
    (s : Relay) (datagram : Bytes) (address : Address) (now : ℕ)
    → Delivers s datagram address
        (handle s datagram address now).0
        (handle s datagram address now).1
unfolding reject
handle-Delivers s datagram address now =
    from_outcome (handle s datagram address now) (handle-Handles s datagram address now)
  where
    hearers : Known s datagram address → List Participant
    hearers k = participants (write s k.ref (within_rate_limit k.peer now).0)

    sent : Known s datagram address → Outgoing
    sent k = forward datagram (within_rate_limit k.peer now).0 (hearers k)

    from_outcome :
        (out : Relay × Outgoing)
        → Handles s datagram address now out
        → Delivers s datagram address out.0 out.1
    from_outcome out (refused e) = inl (ap (λ (x : Relay × Outgoing). x.1) e)
    from_outcome out (limited k _ e) = inl (ap (λ (x : Relay × Outgoing). x.1) e)
    from_outcome out (bound k _ e) = inl (ap (λ (x : Relay × Outgoing). x.1) e)
    from_outcome out (forwarded k audio at _ e) =
        let (room, number, _) = within_rate_limit_keeps k.peer now in
        rw e (
          inr (
            k,
            audio,
            at,
            λ d a.
                subst₂
                  (λ x y.
                    Member (d, a) (sent k)
                    ↔ ((d ≡ datagram) × (t : Participant) × Member t (hearers k) × Hears x y t a))
                  room number
                  (forward_iff datagram d a (within_rate_limit k.peer now).0 (hearers k)),
          ))

-- What a datagram may do to the bound address of a participant.
abbrev pub Binds : Relay → Bytes → Address → ℕ → Participant → Participant → Type 0
Binds s datagram address r before after =
    (after.address ≡ before.address)
    ⊎ ((after.address ≡ some address)
        × (take token_bytes (drop header_bytes datagram) ≡ before.token)
        × (before.ip ≡ address.0)
        × (k : Known s datagram address) × (k.ref ≡ r))

-- A datagram changes the bound address of no participant, except to its own source address, and
-- then it carries that participant's token behind the header, names the participant's reference by
-- its sender id, and comes from the IP of the participant's connection.
pub handle-Binds :
    (s : Relay) (datagram : Bytes) (address : Address) (now r : ℕ) (before after : Participant)
    → get s.objects r ≡ some before
    → get (handle s datagram address now).0.objects r ≡ some after
    → Binds s datagram address r before after
unfolding reject write
handle-Binds s datagram address now r before after was is =
    from_outcome (handle s datagram address now) (handle-Handles s datagram address now) is
  where
    rated :
        (k : Known s datagram address)
        → get (write s k.ref (within_rate_limit k.peer now).0).objects r ≡ some after
        → Binds s datagram address r before after
    rated k is' = inl (
        ground (
          arith,
          get-put s.objects k.ref r (within_rate_limit k.peer now).0,
          eqb_iff k.ref r,
          (within_rate_limit_keeps k.peer now).2,
          k.object,
        ))

    from_outcome :
        (out : Relay × Outgoing)
        → Handles s datagram address now out
        → get out.0.objects r ≡ some after
        → Binds s datagram address r before after
    from_outcome out (refused e) is' = inl (ground arith)
    from_outcome out (limited k _ e) is' = rated k (rw e at is')
    from_outcome out (bound k token e) is' = elim (Bool-cases (eqb k.ref r)) [
      | inl same ↦ inr (
        ground (arith, get-put s.objects k.ref r (record (k.peer) { address = some address })),
        ground (arith, eqb_iff k.ref r, token, k.object),
        ground (arith, eqb_iff k.ref r, k.object, k.same_ip),
        k,
        (eqb_iff k.ref r).0 same,
      )
      | inr other ↦
          inl
            (ground (arith, get-put s.objects k.ref r (record (k.peer) { address = some address })))
    ]
    from_outcome out (forwarded k audio at _ e) is' = rated k (rw e at is')
