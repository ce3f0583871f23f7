-- ===== src/Relay/Ids.antt =====
-- The sender ids of core/voice_relay.py: no number is handed out twice.
use proxy_net.Prelude.{
  ℕ, ◌+◌, ◌≤◌, ◌≡◌, refl, ◌⊎◌, inl, inr, List, [], ◌∷◌, Option, none, some, ltb, arith, ap,
  Bool-cases, Option-cases, Text, Result, ok, err, take,
}
use proxy_net.Bytes.{Bytes}
use proxy_net.VoicePacket.{max_sender_id}
use proxy_net.Relay.{
  Relay, Participant, JoinRequest, Address, Outgoing, find, leave, write, enter, join,
  participant_of, update, move, rename, set_salt, reject, handle, within_rate_limit,
}
use proxy_net.Relay.Routing.{Handles, refused, limited, bound, forwarded, handle-Handles}
use proxy_net.Relay.Membership.{Call, joins, leaves, moves, renames, sets_salt, receives, step}

next-leave : (s : Relay) (c : Text) → (leave s c).0.next_sender_id ≡ s.next_sender_id
unfolding leave
next-leave s c = elim (Option-cases (find s c)) [
  | inl e ↦ rw (e, leave) refl
  | inr (found, e) ↦ rw (e, leave) refl
]

next-update :
    (s : Relay) (c : Text) (f : Participant → Participant)
    → (update s c f).next_sender_id ≡ s.next_sender_id
unfolding update write
next-update s c f = elim (Option-cases (find s c)) [
  | inl e ↦ rw (e, update) refl
  | inr (found, e) ↦ rw (e, update) refl
]

next-set_salt :
    (s : Relay) (c salt : Text) → (set_salt s c salt).0.next_sender_id ≡ s.next_sender_id
unfolding set_salt
next-set_salt s c salt = elim (Option-cases (find s c)) [
  | inl e ↦ rw (e, set_salt) refl
  | inr (found, e) ↦
      rw (e, set_salt) (next-update s c (λ p. record p { session_salt = take 64 salt }))
]

next-handle :
    (s : Relay) (datagram : Bytes) (address : Address) (now : ℕ)
    → (handle s datagram address now).0.next_sender_id ≡ s.next_sender_id
unfolding reject write
next-handle s datagram address now =
    from_outcome (handle s datagram address now) (handle-Handles s datagram address now)
  where
    from_outcome :
        (out : Relay × Outgoing)
        → Handles s datagram address now out
        → out.0.next_sender_id ≡ s.next_sender_id
    from_outcome out (refused e) = rw e refl
    from_outcome out (limited k _ e) = rw e refl
    from_outcome out (bound k _ e) = rw e refl
    from_outcome out (forwarded k _ _ _ e) = rw e refl

-- The id of a participant that joined.
abbrev id_of : Result proxy_net.Relay.RelayError Participant → Option ℕ
id_of (ok p) = some p.sender_id
id_of (err e) = none

abbrev pub issued : Relay → Call → Option ℕ
issued s (joins q token) = id_of (join s q token).1
issued s (leaves c) = none
issued s (moves c room) = none
issued s (renames c name) = none
issued s (sets_salt c salt) = none
issued s (receives datagram address now) = none

abbrev Counts : Relay → Relay → Option ℕ → Type 0
Counts s t o =
    ((o ≡ none) × (t.next_sender_id ≡ s.next_sender_id))
    ⊎ ((o ≡ some s.next_sender_id)
        × (t.next_sender_id ≡ s.next_sender_id + 1)
        × (s.next_sender_id ≤ max_sender_id))

join-Counts :
    (s : Relay) (q : JoinRequest) (token : Bytes)
    → Counts s (join s q token).0 (id_of (join s q token).1)
unfolding join enter participant_of
join-Counts s q token =
    elim (Bool-cases (ltb max_sender_id (leave s q.client_id).0.next_sender_id)) [
      | inl full ↦ simp full (inl (refl, next-leave s q.client_id))
      | inr room ↦ simp room (
          inr (
            ap some (next-leave s q.client_id),
            ground (arith, next-leave s q.client_id),
            ground (arith, next-leave s q.client_id),
          ))
    ]

step-Counts : (s : Relay) (call : Call) → Counts s (step s call) (issued s call)
unfolding step move rename
step-Counts s (joins q token) = join-Counts s q token
step-Counts s (leaves c) = inl (refl, next-leave s c)
step-Counts s (moves c room) = inl (refl, next-update s c (λ p. record p { room = room }))
step-Counts s (renames c name) = inl (refl, next-update s c (λ p. record p { username = name }))
step-Counts s (sets_salt c salt) = inl (refl, next-set_salt s c salt)
step-Counts s (receives datagram address now) = inl (refl, next-handle s datagram address now)

abbrev note : Option ℕ → List ℕ → List ℕ
note none ids = ids
note (some i) ids = i ∷ ids

-- The ids handed out over a history, the earliest first.
unfoldable pub handed_out : Relay → List Call → List ℕ
handed_out s [] = []
handed_out s (call ∷ calls) = note (issued s call) (handed_out (step s call) calls)

abbrev pub Ascending : ℕ → List ℕ → Type 0
Ascending n [] = Unit
Ascending n (i ∷ ids) = (n ≤ i) × (i ≤ max_sender_id) × Ascending (i + 1) ids

note-Ascending :
    (s t : Relay) (o : Option ℕ) (ids : List ℕ)
    → Counts s t o
    → Ascending t.next_sender_id ids
    → Ascending s.next_sender_id (note o ids)
note-Ascending s t o ids (inl (e, same)) h = rw (e, ← same) h
note-Ascending s t o ids (inr (e, up, fits)) h = rw e (omega arith, fits, rw (← up) h)

-- Over any history of joins, leaves, moves and datagrams the ids that are handed out grow
-- strictly, from the counter on, and stay within four bytes: the id of someone who left never goes
-- to a newcomer.
pub handed_out-Ascending :
    (s : Relay) (calls : List Call) → Ascending s.next_sender_id (handed_out s calls)
unfolding handed_out
handed_out-Ascending s [] = tt
handed_out-Ascending s (call ∷ calls) =
    note-Ascending s (step s call) (issued s call) (handed_out (step s call) calls)
      (step-Counts s call) (handed_out-Ascending (step s call) calls)
