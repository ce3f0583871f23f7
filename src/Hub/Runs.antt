-- ===== src/Hub/Runs.antt =====
-- core/hub.py: any history of the server's calls keeps the hub valid.
use proxy_net.Prelude.{ℕ, ◌≢◌, List, [], ◌∷◌, Option, none, All, Text, text_eq}
use proxy_net.Dict.{get, put, remove}
use proxy_net.Hub.{
  members, MessageHub, new, attach_client, bind_transport, detach_client, join_room, leave_room,
  broadcast_message, broadcast_packet, build_message_packet, broadcast_targets, transport,
}
use proxy_net.Hub.Membership.{
  IsValid, enter_room-IsValid, leave_room-IsValid, clients-IsValid, attach_client-IsValid,
  send_all-IsValid,
}

-- What the server does to the hub.
pub data Call : Type 0 where
  joins : (room client_id username : Text) (joined_at : ℕ) → Call
  leaves detaches : Text → Call
  binds : Text → ℕ → Call
  says : (room sender content : Text) (ts : ℕ) → Option Text → Call

unfoldable pub step : MessageHub → Call → MessageHub
step h (joins room c name at) = (join_room h room c name at).0
step h (leaves c) = leave_room h c
step h (detaches c) = detach_client h c
step h (binds c t) = bind_transport h c t
step h (says room sender content ts enc) = (broadcast_message h room sender content ts enc).0.0

-- The rooms that are joined have a name.
abbrev pub HasName : Call → Type 0
HasName (joins room c name at) = room ≢ []
HasName (leaves c) = Unit
HasName (detaches c) = Unit
HasName (binds c t) = Unit
HasName (says room sender content ts enc) = Unit

step-IsValid : (h : MessageHub) (call : Call) → HasName call → IsValid h → IsValid (step h call)
unfolding step join_room detach_client bind_transport broadcast_message broadcast_packet
step-IsValid h (joins room c name at) some_room v =
    enter_room-IsValid (attach_client h c) room c name at some_room (attach_client-IsValid h c v)
step-IsValid h (leaves c) _ v = leave_room-IsValid h c v
step-IsValid h (detaches c) _ v = clients-IsValid h (remove h.clients c) v
step-IsValid h (binds c t) _ v = clients-IsValid h (put h.clients c (transport t)) v
step-IsValid h (says room sender content ts enc) _ v =
    send_all-IsValid h (build_message_packet h room sender content ts enc)
      (broadcast_targets h.registry room none) v

pub new-IsValid : IsValid new
unfolding get members
new-IsValid = record {
  tidy = record { rooms_distinct = tt; members_distinct = λ room. tt; populated = λ room e. cc };
  rooms_distinct = tt;
  usernames_distinct = tt;
  named = λ c e. cc;
  member_of = λ room c m e. absurd (cc);
  listed = λ room c e missing. cc;
}

unfoldable pub run : MessageHub → List Call → MessageHub
run h [] = h
run h (call ∷ calls) = run (step h call) calls

hub_run_from-IsValid :
    (h : MessageHub) (calls : List Call) → All HasName calls → IsValid h → IsValid (run h calls)
unfolding run
hub_run_from-IsValid h [] _ v = v
hub_run_from-IsValid h (call ∷ calls) (named, rest) v =
    hub_run_from-IsValid (step h call) calls rest (step-IsValid h call named v)

-- After any history of joins to rooms with a name, leaves, bindings, detachments and messages, a
-- client stands among the members of exactly the room that the hub keeps for it, under the name
-- that the hub keeps for it, and no room is empty.
pub hub_run-IsValid : (calls : List Call) → All HasName calls → IsValid (run new calls)
hub_run-IsValid calls named = hub_run_from-IsValid new calls named new-IsValid
