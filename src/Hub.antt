-- ===== src/Hub.antt =====
-- core/server_state.py and core/hub.py: who is in which room, and whom a broadcast reaches. A
-- member's time of joining is an argument. A client object is the list of packets of an
-- `AttachedClient` or the number of a transport; what is sent to a transport is returned, in order,
-- since an OSError of `send_packet` changes nothing here.
pub mod Rooms
pub mod Membership
pub mod Runs
pub mod Broadcast
mod Examples
use proxy_net.Prelude.{
  ℕ, List, [], ◌∷◌, ◌++◌, Bool, true, false, not, ◌&&◌, Option, none, some, if◌then◌else◌, length,
  Text, ◌==◌, text_eq,
}
use proxy_net.Dict.{Dict, get, put, remove, keys, values}

pub record RoomMember : Type 0 where
  pub client_id : Text
  pub username : Text
  pub joined_at : ℕ

abbrev pub Members : Type 0
Members = Dict Text RoomMember

abbrev pub RoomRegistry : Type 0
RoomRegistry = Dict Text Members

-- `self._rooms.get(room, {})`
abbrev or_empty : Option Members → Members
or_empty none = []
or_empty (some members) = members

unfoldable pub members : RoomRegistry → Text → Members
members rooms room = or_empty (get rooms room)

unfoldable pub registry_join : RoomRegistry → Text → Text → Text → ℕ → RoomRegistry
registry_join rooms room client_id username joined_at = put rooms room (
    put (members rooms room) client_id
      (record { client_id = client_id; username = username; joined_at = joined_at }))

-- A room that its last member left goes.
abbrev pub set_or_drop : RoomRegistry → Text → Members → RoomRegistry
set_or_drop rooms room [] = remove rooms room
set_or_drop rooms room (m ∷ ms) = put rooms room (m ∷ ms)

abbrev leave_members : RoomRegistry → Text → Text → Option Members → RoomRegistry
leave_members rooms room client_id none = rooms
leave_members rooms room client_id (some []) = rooms
leave_members rooms room client_id (some (m ∷ ms)) =
    set_or_drop rooms room (remove (m ∷ ms) client_id)

unfoldable pub registry_leave : RoomRegistry → Text → Text → RoomRegistry
registry_leave rooms room client_id = leave_members rooms room client_id (get rooms room)

unfoldable pub member_count : RoomRegistry → Text → ℕ
member_count rooms room = length (members rooms room)

abbrev is_excluded : Option Text → Text → Bool
is_excluded none client_id = false
is_excluded (some excluded) client_id = client_id == excluded

unfoldable pub usernames_of : Members → Option Text → List Text
usernames_of [] excluded = []
usernames_of ((client_id, member) ∷ rest) excluded =
    if is_excluded excluded client_id
    then usernames_of rest excluded
    else member.username ∷ usernames_of rest excluded

unfoldable pub usernames : RoomRegistry → Text → Option Text → List Text
usernames rooms room excluded = usernames_of (members rooms room) excluded

unfoldable pub targets_of : Members → Option Text → List Text
targets_of [] excluded = []
targets_of ((client_id, member) ∷ rest) excluded =
    if is_excluded excluded client_id
    then targets_of rest excluded
    else client_id ∷ targets_of rest excluded

unfoldable pub broadcast_targets : RoomRegistry → Text → Option Text → List Text
broadcast_targets rooms room excluded = targets_of (members rooms room) excluded

pub record MessagePacket : Type 0 where
  pub room : Text
  pub user : Text
  pub content : Text
  pub ts : ℕ
  pub enc : Option Text

pub data Client : Type 0 where
  attached : List MessagePacket → Client
  transport : ℕ → Client

pub record MessageHub : Type 0 where
  pub registry : RoomRegistry
  pub clients : Dict Text Client
  pub client_rooms : Dict Text Text
  pub client_usernames : Dict Text Text

abbrev pub new : MessageHub
new = record { registry = []; clients = []; client_rooms = []; client_usernames = [] }

unfoldable pub attach_client : MessageHub → Text → MessageHub
attach_client h client_id = elim (get h.clients client_id) [
  | none ↦ record h { clients = put h.clients client_id (attached []) }
  | some client ↦ h
]

unfoldable pub bind_transport : MessageHub → Text → ℕ → MessageHub
bind_transport h client_id t = record h { clients = put h.clients client_id (transport t) }

unfoldable pub detach_client : MessageHub → Text → MessageHub
detach_client h client_id = record h { clients = remove h.clients client_id }

-- Of two room names, the previous one is left where it is not empty and not the new one.
abbrev pub must_leave : Text → Text → Bool
must_leave [] room = false
must_leave (c ∷ cs) room = not ((c ∷ cs) == room)

abbrev pub leave_previous : RoomRegistry → Option Text → Text → Text → RoomRegistry
leave_previous rooms none room client_id = rooms
leave_previous rooms (some previous) room client_id =
    if must_leave previous room then registry_leave rooms previous client_id else rooms

pub record RoomSnapshot : Type 0 where
  pub snapshot_room : Text
  pub users : List Text
  pub count : ℕ

unfoldable pub room_snapshot : MessageHub → Text → RoomSnapshot
room_snapshot h room =
    let users = usernames h.registry room none in
    record { snapshot_room = room; users = users; count = length users }

unfoldable pub enter_room : MessageHub → Text → Text → Text → ℕ → MessageHub
enter_room h room client_id username joined_at = record h {
  client_rooms = put h.client_rooms client_id room;
  client_usernames = put h.client_usernames client_id username;
  registry =
      registry_join (leave_previous h.registry (get h.client_rooms client_id) room client_id) room
        client_id username joined_at;
}

unfoldable pub join_room : MessageHub → Text → Text → Text → ℕ → MessageHub × RoomSnapshot
join_room h room client_id username joined_at =
    let h' = enter_room (attach_client h client_id) room client_id username joined_at in
    (h', room_snapshot h' room)

abbrev pub leave_registered : RoomRegistry → Option Text → Text → RoomRegistry
leave_registered rooms none client_id = rooms
leave_registered rooms (some room) client_id = registry_leave rooms room client_id

unfoldable pub leave_room : MessageHub → Text → MessageHub
leave_room h client_id = record h {
  client_rooms = remove h.client_rooms client_id;
  client_usernames = remove h.client_usernames client_id;
  registry = leave_registered h.registry (get h.client_rooms client_id) client_id;
}

abbrev pub or_default : Option Text → Text → Text
or_default none d = d
or_default (some t) d = t

unfoldable pub build_message_packet :
    MessageHub → Text → Text → Text → ℕ → Option Text → MessagePacket
build_message_packet h room sender_client_id content ts enc = record {
  room = room;
  user = or_default (get h.client_usernames sender_client_id) sender_client_id;
  content = content;
  ts = ts;
  enc = enc;
}

abbrev pub Sent : Type 0
Sent = List (ℕ × MessagePacket)

-- `client.send_packet(packet.copy())`, where the client is there.
abbrev pub send_to : MessageHub → Text → MessagePacket → Option Client → MessageHub × Sent
send_to h client_id packet none = (h, [])
send_to h client_id packet (some (attached packets)) =
    (record h { clients = put h.clients client_id (attached (packets ++ packet ∷ [])) }, [])
send_to h client_id packet (some (transport t)) = (h, (t, packet) ∷ [])

unfoldable pub send_all : MessageHub → MessagePacket → List Text → MessageHub × Sent
send_all h packet [] = (h, [])
send_all h packet (client_id ∷ targets) =
    let (h', sent) = send_to h client_id packet (get h.clients client_id) in
    let (h'', rest) = send_all h' packet targets in (h'', sent ++ rest)

unfoldable pub broadcast_packet : MessageHub → Text → MessagePacket → MessageHub × Sent
broadcast_packet h room packet = send_all h packet (broadcast_targets h.registry room none)

unfoldable pub broadcast_message :
    MessageHub → Text → Text → Text → ℕ → Option Text → (MessageHub × Sent) × MessagePacket
broadcast_message h room sender_client_id content ts enc =
    let packet = build_message_packet h room sender_client_id content ts enc in
    (broadcast_packet h room packet, packet)
