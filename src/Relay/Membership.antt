-- ===== src/Relay/Membership.antt =====
-- Joining, leaving and changing a participant in core/voice_relay.py: every call keeps the relay
-- valid, and no sender id is ever handed out twice.
use proxy_net.Prelude.{
  ℕ, ◌≡◌, refl, inl, inr, List, [], ◌∷◌, some, ltb, arith, Bool-cases, Option-cases, Text, nat_eq,
  text_eq, take,
}
use proxy_net.Bytes.{Bytes}
use proxy_net.Dict.{get}
use proxy_net.VoicePacket.{max_sender_id}
use proxy_net.Relay.{
  Relay, Participant, JoinRequest, Address, Outgoing, new, find, leave, write, join, participant_of,
  update, move, rename, set_salt, reject, handle, within_rate_limit,
}
use proxy_net.Relay.Routing.{Known, Handles, refused, limited, bound, forwarded, handle-Handles}
use proxy_net.Relay.Valid.{
  IsValid, find-some, write-IsValid, leave-IsValid, get-leave, enter-IsValid,
}

pub new-IsValid : IsValid new
unfolding get
new-IsValid = record {
  clients_distinct = tt;
  senders_distinct = tt;
  client_object = λ c r e. cc;
  sender_object = λ i r e. cc;
  ids_below = λ r p e. cc;
  objects_below = λ r p e. cc;
  some_id = omega arith;
}

join-IsValid :
    (s : Relay) (q : JoinRequest) (token : Bytes) → IsValid s → IsValid (join s q token).0
unfolding join participant_of
join-IsValid s q token v =
    elim (Bool-cases (ltb max_sender_id (leave s q.client_id).0.next_sender_id)) [
      | inl full ↦ simp full (leave-IsValid s q.client_id v)
      | inr room ↦ simp room (
          enter-IsValid (leave s q.client_id).0 (participant_of (leave s q.client_id).0 q token)
            (leave-IsValid s q.client_id v) (get-leave s q.client_id v) refl)
    ]

update-IsValid :
    (s : Relay) (c : Text) (f : Participant → Participant)
    → ((p : Participant) → ((f p).client_id ≡ p.client_id) × ((f p).sender_id ≡ p.sender_id))
    → IsValid s
    → IsValid (update s c f)
unfolding update
update-IsValid s c f same v = elim (Option-cases (find s c)) [
  | inl e ↦ rw (e, update) v
  | inr ((r, p), e) ↦
      rw (e, update) (write-IsValid s r p (f p) v (find-some s c r p e).1 (same p).0 (same p).1)
]

-- What the server does to the relay.
pub data Call : Type 0 where
  joins : JoinRequest → Bytes → Call
  leaves : Text → Call
  moves renames sets_salt : Text → Text → Call
  receives : Bytes → Address → ℕ → Call

unfoldable pub step : Relay → Call → Relay
step s (joins q token) = (join s q token).0
step s (leaves c) = (leave s c).0
step s (moves c room) = move s c room
step s (renames c name) = rename s c name
step s (sets_salt c salt) = (set_salt s c salt).0
step s (receives datagram address now) = (handle s datagram address now).0

rejected-IsValid : (s : Relay) → IsValid s → IsValid (reject s).0
unfolding reject
rejected-IsValid s v = record {
  clients_distinct = v.clients_distinct;
  senders_distinct = v.senders_distinct;
  client_object = v.client_object;
  sender_object = v.sender_object;
  ids_below = v.ids_below;
  objects_below = v.objects_below;
  some_id = v.some_id;
}

-- The rate limit leaves the identity of a participant.
within_rate_limit_same :
    (p : Participant) (now : ℕ)
    → ((within_rate_limit p now).0.client_id ≡ p.client_id)
      × ((within_rate_limit p now).0.sender_id ≡ p.sender_id)
unfolding within_rate_limit
within_rate_limit_same p now = ground arith

handle-IsValid :
    (s : Relay) (datagram : Bytes) (address : Address) (now : ℕ)
    → IsValid s
    → IsValid (handle s datagram address now).0
handle-IsValid s datagram address now v =
    from_outcome (handle s datagram address now) (handle-Handles s datagram address now)
  where
    written :
        (k : Known s datagram address) → IsValid (write s k.ref (within_rate_limit k.peer now).0)
    written k =
        let (c, i) = within_rate_limit_same k.peer now in
        write-IsValid s k.ref k.peer (within_rate_limit k.peer now).0 v k.object c i

    from_outcome : (out : Relay × Outgoing) → Handles s datagram address now out → IsValid out.0
    from_outcome out (refused e) = rw e (rejected-IsValid s v)
    from_outcome out (limited k _ e) = rw e (rejected-IsValid _ (written k))
    from_outcome out (bound k _ e) = rw e (
        write-IsValid s k.ref k.peer (record (k.peer) { address = some address }) v k.object refl
          refl)
    from_outcome out (forwarded k _ _ _ e) = rw e (written k)

set_salt-IsValid : (s : Relay) (c salt : Text) → IsValid s → IsValid (set_salt s c salt).0
unfolding set_salt
set_salt-IsValid s c salt v = elim (Option-cases (find s c)) [
  | inl e ↦ rw (e, set_salt) v
  | inr (found, e) ↦
      rw (e, set_salt)
        (update-IsValid s c (λ p. record p { session_salt = take 64 salt }) (λ p. (refl, refl)) v)
]

-- Every call keeps the relay valid: each client and each sender id leads to one participant, and
-- that one back to the client and the id.
pub step-IsValid : (s : Relay) (call : Call) → IsValid s → IsValid (step s call)
unfolding step move rename
step-IsValid s (joins q token) v = join-IsValid s q token v
step-IsValid s (leaves c) v = leave-IsValid s c v
step-IsValid s (moves c room) v =
    update-IsValid s c (λ p. record p { room = room }) (λ p. (refl, refl)) v
step-IsValid s (renames c name) v =
    update-IsValid s c (λ p. record p { username = name }) (λ p. (refl, refl)) v
step-IsValid s (sets_salt c salt) v = set_salt-IsValid s c salt v
step-IsValid s (receives datagram address now) v = handle-IsValid s datagram address now v

unfoldable pub run : Relay → List Call → Relay
run s [] = s
run s (call ∷ calls) = run (step s call) calls

relay_run_from-IsValid : (s : Relay) (calls : List Call) → IsValid s → IsValid (run s calls)
unfolding run
relay_run_from-IsValid s [] v = v
relay_run_from-IsValid s (call ∷ calls) v =
    relay_run_from-IsValid (step s call) calls (step-IsValid s call v)

-- After any history of joins, leaves, moves, renames, salts and datagrams the relay is valid: each
-- client and each sender id leads to one participant, and that one back to the client and the id.
pub relay_run-IsValid : (calls : List Call) → IsValid (run new calls)
relay_run-IsValid calls = relay_run_from-IsValid new calls new-IsValid
