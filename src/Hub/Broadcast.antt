-- ===== src/Hub/Broadcast.antt =====
-- `broadcast_packet` of core/hub.py: whom a packet reaches.
use proxy_net.Prelude.{
  ℕ, ◌≡◌, ◌≢◌, ◌↔◌, refl, inl, inr, List, [], ◌∷◌, ◌++◌, Option, none, some, arith, Bool-cases,
  Option-cases, Text, ◌==◌, ==_iff, text_eq, Member, Member-append_iff, ap, sym,
}
use mathlib.Core.Path.{subst}
use proxy_net.Dict.{get}
use proxy_net.Dict.Laws.{get-put}
use proxy_net.Hub.{
  Members, members, MessageHub, MessagePacket, Client, attached, transport, targets_of,
  broadcast_targets, send_to, send_all, broadcast_packet,
}
use proxy_net.Hub.Membership.{IsValid}

-- Whom a room's list names without an exclusion.
Member-targets_of : (ms : Members) (c : Text) → Member c (targets_of ms none) ↔ (get ms c ≢ none)
unfolding targets_of get
Member-targets_of [] c = (λ m. absurd m, λ h. absurd (h refl))
Member-targets_of ((d, m) ∷ ms) c =
    let rest = Member-targets_of ms c in
    (
      λ there. elim there [
        | inl e ↦ λ h. ground (arith, ==_iff d c)
        | inr deeper ↦ λ h. ground (arith, rest.0 deeper)
      ],
      λ h. elim (Bool-cases (d == c)) [
        | inl same ↦ inl (sym ((==_iff d c).0 same))
        | inr apart ↦ inr (rest.1 (λ missing. h (rw apart missing)))
      ],
    )

module _ (packet : MessagePacket) where
  -- A broadcast rebinds no transport.
  send_to_keeps :
      (h : MessageHub) (c d : Text) (client : Option Client) (t : ℕ)
      → get h.clients c ≡ client
      → (get (send_to h c packet client).0.clients d ≡ some (transport t))
        ↔ (get h.clients d ≡ some (transport t))
  send_to_keeps h c d none t at = (λ e. e, λ e. e)
  send_to_keeps h c d (some (transport u)) t at = (λ e. e, λ e. e)
  send_to_keeps h c d (some (attached packets)) t at =
      let found = get-put h.clients c d (attached (packets ++ packet ∷ [])) in
      (λ e. ground (arith, found, ==_iff c d), λ e. ground (arith, found, ==_iff c d))

  send_to_iff :
      (h : MessageHub) (c : Text) (client : Option Client) (t : ℕ) (p : MessagePacket)
      → Member (t, p) (send_to h c packet client).1 ↔ ((p ≡ packet) × (client ≡ some (transport t)))
  send_to_iff h c none t p = (λ m. absurd m, λ (_, e). cc)
  send_to_iff h c (some (attached packets)) t p = (λ m. absurd m, λ (_, e). cc)
  send_to_iff h c (some (transport u)) t p = (
    λ m. elim m [
      | inl e ↦ (
        ap (λ (x : ℕ × MessagePacket). x.1) e,
        ap (λ (x : ℕ × MessagePacket). some (transport x.0)) (sym e),
      )
      | inr n ↦ absurd n
    ],
    λ (e, f). inl (cc),
  )

  -- The client's transport is the one asked for.
  abbrev IsBound : MessageHub → ℕ → Text → Type 0
  IsBound h t c = get h.clients c ≡ some (transport t)

  send_all_iff :
      (h : MessageHub) (targets : List Text) (t : ℕ) (p : MessagePacket)
      → Member (t, p) (send_all h packet targets).1
        ↔ ((p ≡ packet) × (c : Text) × Member c targets × IsBound h t c)
  unfolding send_all
  send_all_iff h [] t p = (λ m. absurd m, λ (_, c, m, _). absurd m)
  send_all_iff h (d ∷ targets) t p =
      let h' : MessageHub = (send_to h d packet (get h.clients d)).0 in
      let both =
        Member-append_iff (t, p) (send_to h d packet (get h.clients d)).1
          (send_all h' packet targets).1 in
      let here = send_to_iff h d (get h.clients d) t p in
      let later = send_all_iff h' targets t p in
      let keeps = λ (c : Text). send_to_keeps h d c (get h.clients d) t refl in
      (
        λ m. elim (both.0 m) [
          | inl n ↦ let (e, bound) = here.0 n in (e, d, inl refl, bound)
          | inr n ↦ let (e, c, there, bound) = later.0 n in (e, c, inr there, (keeps c).0 bound)
        ],
        λ (e, c, there, bound). both.1 (elim there [
          | inl same ↦ inl (here.1 (e, subst (λ x. IsBound h t x) same bound))
          | inr n ↦ inr (later.1 (e, c, n, (keeps c).1 bound))
        ]),
      )

-- From a valid hub, a broadcast to a room sends the packet, unchanged, to the transports of exactly the clients that
-- the hub keeps in that room.
pub broadcast_packet_reaches :
    (h : MessageHub) (room : Text) (packet : MessagePacket) (t : ℕ) (p : MessagePacket)
    → IsValid h
    → Member (t, p) (broadcast_packet h room packet).1 ↔ (
        (p ≡ packet)
        × (c : Text) × (get h.client_rooms c ≡ some room)
        × (get h.clients c ≡ some (transport t)))
unfolding broadcast_packet broadcast_targets
broadcast_packet_reaches h room packet t p v =
    let sent = send_all_iff packet h (targets_of (members h.registry room) none) t p in
    let named = λ (c : Text). Member-targets_of (members h.registry room) c in
    let home : (c : Text)
        → get (members h.registry room) c ≢ none
        → get h.client_rooms c ≡ some room =
      λ c there. elim (Option-cases (get (members h.registry room) c)) [
        | inl missing ↦ absurd (there missing)
        | inr (m, e) ↦ (v.member_of room c m e).0
      ] in
    (
      λ m. let (e, c, there, bound) = sent.0 m in (e, c, home c ((named c).0 there), bound),
      λ (e, c, lives, bound). sent.1 (e, c, (named c).1 (v.listed room c lives), bound),
    )
