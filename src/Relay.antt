-- ===== src/Relay.antt =====
-- core/voice_relay.py: the voice participants, and the routing of datagrams to them. The two
-- dictionaries of the source share their participants, so those are objects of a store here, named
-- by references; a call that assigns to a field writes the object. `join` takes the random token
-- and `handle` the clock's reading, in nanoseconds, as arguments.
pub mod Valid
pub mod Membership
pub mod Routing
pub mod Binding
pub mod Forwarding
pub mod Ids
mod Examples
use proxy_net.Prelude.{
  ℕ, ◌+◌, List, [], ◌∷◌, Bool, true, false, not, ◌&&◌, ◌||◌, Option, none, some, ltb, leb, eqb,
  if◌then◌else◌, length, take, drop, Result, ok, err, Text, ◌==◌, nat_eq, text_eq,
}
use proxy_net.Bytes.{Bytes}
use proxy_net.Dict.{Dict, get, put, remove, values}
use proxy_net.VoicePacket.{
  VoiceHeader, decode_header, header_bytes, max_datagram_bytes, type_audio, type_hello,
  voice_protocol_version, max_sender_id,
}

abbrev pub token_bytes : ℕ
token_bytes = 16

abbrev pub rate_limit_packets : ℕ
rate_limit_packets = 60

-- One second.
abbrev pub rate_limit_window : ℕ
rate_limit_window = 1_000_000_000

-- (ip, port)
abbrev pub Address : Type 0
Address = Text × ℕ

pub record Participant : Type 0 where
  pub client_id : Text
  pub username : Text
  pub room : Text
  pub sender_id : ℕ
  pub token : Bytes
  pub ip : Text
  pub session_salt : Text
  pub codec : Text
  pub public_key : Text
  pub address : Option Address
  pub window_start : ℕ
  pub window_count : ℕ

pub record Relay : Type 0 where
  pub next_sender_id : ℕ
  pub by_client : Dict Text ℕ
  pub by_sender : Dict ℕ ℕ
  pub objects : Dict ℕ Participant
  pub next_object : ℕ
  pub rejected : ℕ

pub data RelayError : Type 0 where
  ids_exhausted : RelayError

abbrev pub new : Relay
new = record {
  next_sender_id = 1;
  by_client = [];
  by_sender = [];
  objects = [];
  next_object = 0;
  rejected = 0;
}

-- `public()`: the fields that are announced.
pub record PublicEntry : Type 0 where
  pub user : Text
  pub entry_sender_id : ℕ
  pub salt : Text
  pub pub_key : Text

abbrev pub public : Participant → PublicEntry
public p = record {
  user = p.username;
  entry_sender_id = p.sender_id;
  salt = p.session_salt;
  pub_key = p.public_key;
}

-- The objects behind a list of references.
unfoldable pub load : Dict ℕ Participant → List ℕ → List Participant
load objects [] = []
load objects (r ∷ rs) = elim (get objects r) [
  | none ↦ load objects rs
  | some p ↦ p ∷ load objects rs
]

-- `self._by_client.values()`
unfoldable pub participants : Relay → List Participant
participants s = load s.objects (values s.by_client)

-- `self._by_client.get(client_id)`, with the reference.
unfoldable pub find : Relay → Text → Option (ℕ × Participant)
find s client_id = elim (get s.by_client client_id) [
  | none ↦ none
  | some r ↦ elim (get s.objects r) [ none ↦ none | some p ↦ some (r, p) ]
]

unfoldable pub write : Relay → ℕ → Participant → Relay
write s r p = record s { objects = put s.objects r p }

abbrev is_empty : Text → Bool
is_empty [] = true
is_empty (c ∷ cs) = false

-- The loop of `room_codec`.
unfoldable pub first_codec : Text → Text → List Participant → Text
first_codec room proposed [] = proposed
first_codec room proposed (p ∷ ps) =
    if (p.room == room) && not (is_empty p.codec) then p.codec else first_codec room proposed ps

unfoldable pub room_codec : Relay → Text → Text → Text
room_codec s room proposed = first_codec room proposed (participants s)

unfoldable pub leave : Relay → Text → Relay × Option Participant
leave s client_id = elim (find s client_id) [
  | none ↦ (s, none)
  | some (r, p) ↦ (
    record s {
      by_client = remove s.by_client client_id;
      by_sender = remove s.by_sender p.sender_id;
    },
    some p,
  )
]

-- What a client asks for when it joins.
pub record JoinRequest : Type 0 where
  pub client_id : Text
  pub username : Text
  pub room : Text
  pub ip : Text
  pub session_salt : Text
  pub codec : Text
  pub public_key : Text

unfoldable pub participant_of : Relay → JoinRequest → Bytes → Participant
participant_of s q token = record {
  client_id = q.client_id;
  username = q.username;
  room = q.room;
  sender_id = s.next_sender_id;
  token = token;
  ip = q.ip;
  session_salt = q.session_salt;
  codec = room_codec s q.room q.codec;
  public_key = q.public_key;
  address = none;
  window_start = 0;
  window_count = 0;
}

unfoldable pub enter : Relay → Participant → Relay
enter s p = record s {
  next_sender_id = s.next_sender_id + 1;
  by_client = put s.by_client p.client_id s.next_object;
  by_sender = put s.by_sender p.sender_id s.next_object;
  objects = put s.objects s.next_object p;
  next_object = s.next_object + 1;
}

-- The client has left also where the ids are exhausted.
unfoldable pub join : Relay → JoinRequest → Bytes → Relay × Result RelayError Participant
join s q token =
    let s' = (leave s q.client_id).0 in
    let p = participant_of s' q token in
    if ltb max_sender_id s'.next_sender_id then (s', err ids_exhausted) else (enter s' p, ok p)

-- The participant of a client is changed by `f`, if there is one.
unfoldable pub update : Relay → Text → (Participant → Participant) → Relay
update s client_id f = elim (find s client_id) [ none ↦ s | some (r, p) ↦ write s r (f p) ]

unfoldable pub move : Relay → Text → Text → Relay
move s client_id room = update s client_id (λ p. record p { room = room })

unfoldable pub rename : Relay → Text → Text → Relay
rename s client_id username = update s client_id (λ p. record p { username = username })

unfoldable pub set_salt : Relay → Text → Text → Relay × Bool
set_salt s client_id session_salt = elim (find s client_id) [
  | none ↦ (s, false)
  | some found ↦ (update s client_id (λ p. record p { session_salt = take 64 session_salt }), true)
]

-- The loop of `peers`.
unfoldable pub announced : Text → List Participant → List PublicEntry
announced room [] = []
announced room (p ∷ ps) =
    if (p.room == room) && not (is_empty p.session_salt)
    then public p ∷ announced room ps
    else announced room ps

unfoldable pub peers : Relay → Text → List PublicEntry
peers s room = announced room (participants s)

abbrev pub Outgoing : Type 0
Outgoing = List (Bytes × Address)

unfoldable pub reject : Relay → Relay × Outgoing
reject s = (record s { rejected = s.rejected + 1 }, [])

unfoldable pub hello : Relay → ℕ → Participant → Bytes → Address → Relay × Outgoing
unfolding reject
hello s r peer datagram address =
    let claimed_token = take token_bytes (drop header_bytes datagram) in
    if not (eqb (length claimed_token) token_bytes) || not (claimed_token == peer.token)
    then reject s
    else (write s r (record peer { address = some address }), [])

unfoldable pub within_rate_limit : Participant → ℕ → Participant × Bool
within_rate_limit peer now =
    if leb (peer.window_start + rate_limit_window) now
    then (record peer { window_start = now; window_count = 1 }, true)
    else if leb rate_limit_packets peer.window_count
    then (peer, false)
    else (record peer { window_count = peer.window_count + 1 }, true)

-- `target.address` where the three conditions of the comprehension hold.
unfoldable pub target_address : Participant → Participant → Option Address
target_address peer target =
    if (target.room == peer.room) && not (target.sender_id == peer.sender_id)
    then target.address
    else none

unfoldable pub forward : Bytes → Participant → List Participant → Outgoing
forward datagram peer [] = []
forward datagram peer (target ∷ targets) = elim (target_address peer target) [
  | none ↦ forward datagram peer targets
  | some a ↦ (datagram, a) ∷ forward datagram peer targets
]

abbrev pub is_bound_to : Option Address → Address → Bool
is_bound_to none address = false
is_bound_to (some (ip, port)) (ip', port') = (ip == ip') && (port == port')

-- `handle` behind the lookup of the sender.
unfoldable pub handle_peer :
    Relay → ℕ → Participant → VoiceHeader → Bytes → Address → ℕ → Relay × Outgoing
unfolding reject
handle_peer s r peer header datagram address now =
    if not (peer.ip == address.0)
    then reject s
    else if eqb header.type type_hello
    then hello s r peer datagram address
    else if not (eqb header.type type_audio)
    then reject s
    else if not (is_bound_to peer.address address)
    then reject s
    else (let (peer', allowed) = within_rate_limit peer now in
        let s' = write s r peer' in
        if allowed then (s', forward datagram peer' (participants s')) else reject s')

unfoldable pub handle_header : Relay → VoiceHeader → Bytes → Address → ℕ → Relay × Outgoing
unfolding reject
handle_header s header datagram address now =
    if not (eqb header.version voice_protocol_version)
    then reject s
    else elim (get s.by_sender header.sender_id) [
      | none ↦ reject s
      | some r ↦ elim (get s.objects r) [
        | none ↦ reject s
        | some peer ↦ handle_peer s r peer header datagram address now
      ]
    ]

unfoldable pub handle : Relay → Bytes → Address → ℕ → Relay × Outgoing
unfolding reject
handle s datagram address now =
    if ltb (length datagram) header_bytes || ltb max_datagram_bytes (length datagram)
    then reject s
    else elim (decode_header datagram) [
      | err e ↦ reject s
      | ok header ↦ handle_header s header datagram address now
    ]
