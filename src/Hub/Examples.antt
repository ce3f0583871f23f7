-- ===== src/Hub/Examples.antt =====
-- Runs of core/hub.py at concrete inputs: a and b in one room, then a moves to another.
use proxy_net.Prelude.{◌≡◌, ◌↔◌, refl, List, [], ◌∷◌, none, some, Text, text, Member, All, text_eq}
use proxy_net.Dict.{get, put, remove}
use proxy_net.Hub.{
  MessageHub, MessagePacket, new, transport, broadcast_packet, broadcast_targets, targets_of,
  members, send_all, registry_join, registry_leave, join_room, enter_room, attach_client,
  bind_transport, leave_room, detach_client,
}
use proxy_net.Hub.Membership.{IsValid}
use proxy_net.Hub.Runs.{Call, joins, binds, run, step, HasName, hub_run-IsValid}
use proxy_net.Hub.Broadcast.{broadcast_packet_reaches}

abbrev calls : List Call
calls =
    binds (text "a") 1
    ∷ binds (text "b") 2
    ∷ joins (text "general") (text "a") (text "ann") 10
    ∷ joins (text "general") (text "b") (text "bob") 11
    ∷ joins (text "games") (text "a") (text "ann") 12
    ∷ []

calls_have_names : All HasName calls
calls_have_names = (tt, (tt, (λ e. cc, (λ e. cc, (λ e. cc, tt)))))

abbrev hub : MessageHub
hub = run new calls

hub_run-IsValid_example : IsValid hub
hub_run-IsValid_example = hub_run-IsValid calls calls_have_names

abbrev greeting : MessagePacket
greeting = record {
  room = text "general";
  user = text "bob";
  content = text "hi";
  ts = 13;
  enc = none;
}

who_hears : (broadcast_packet hub (text "general") greeting).1 ≡ (2, greeting) ∷ []
unfolding run step join_room enter_room attach_client bind_transport leave_room detach_client
    broadcast_packet broadcast_targets targets_of members send_all registry_join registry_leave get
    put remove
who_hears = refl

broadcast_packet_reaches_example :
    Member (2, greeting) (broadcast_packet hub (text "general") greeting).1 ↔ (
      (greeting ≡ greeting)
      × (c : Text) × (get hub.client_rooms c ≡ some (text "general"))
      × (get hub.clients c ≡ some (transport 2)))
broadcast_packet_reaches_example =
    broadcast_packet_reaches hub (text "general") greeting 2 greeting
      (hub_run-IsValid calls calls_have_names)
