-- ===== src/Hub/Membership.antt =====
-- core/hub.py: the rooms, the room of each client and the name of each client agree, through every
-- call.
use proxy_net.Prelude.{
  ℕ, ◌≡◌, ◌≢◌, refl, inl, inr, List, [], ◌∷◌, ◌++◌, true, false, not, ◌&&◌, Option, none, some,
  if◌then◌else◌, arith, Bool-cases, Option-cases, Text, ◌==◌, ==_iff, text_eq,
}
use proxy_net.Dict.{Dict, get, put}
use proxy_net.Dict.Laws.{Distinct, get-put, get-remove, put-Distinct, remove-Distinct}
use proxy_net.Hub.{
  RoomMember, RoomRegistry, members, registry_join, registry_leave, MessageHub, Client,
  MessagePacket, attach_client, must_leave, leave_previous, enter_room, leave_registered,
  leave_room, send_to, send_all, attached, transport,
}
use proxy_net.Hub.Rooms.{IsTidy, members-join, members-leave, join-IsTidy, leave-IsTidy}

pub record IsValid (h : MessageHub) : Type 0 where
  pub tidy : IsTidy h.registry
  pub rooms_distinct : Distinct h.client_rooms
  pub usernames_distinct : Distinct h.client_usernames
  pub named : (c : Text) → get h.client_rooms c ≢ some []
  pub member_of :
      (room c : Text) (m : RoomMember)
      → get (members h.registry room) c ≡ some m
      → (get h.client_rooms c ≡ some room) × (get h.client_usernames c ≡ some m.username)
  pub listed :
      (room c : Text) → get h.client_rooms c ≡ some room → get (members h.registry room) c ≢ none

-- The rooms without a client that is to enter `room`.
abbrev Cleared : RoomRegistry → RoomRegistry → Text → Text → Type 0
Cleared before after room c =
    (other d : Text)
    → get (members after other) d
      ≡ (if (c == d) && not (room == other) then none else get (members before other) d)

get-registry_leave :
    (rooms : RoomRegistry) (room other c d : Text)
    → IsTidy rooms
    → get (members (registry_leave rooms room c) other) d
      ≡ (if (room == other) && (c == d) then none else get (members rooms other) d)
get-registry_leave rooms room other c d t = rw (members-leave rooms room other c t.rooms_distinct) (
    ground
      (arith, get-remove (members rooms room) c d (t.members_distinct room), ==_iff room other))

-- A client is in no room but its own.
elsewhere :
    (h : MessageHub) (other c : Text)
    → IsValid h
    → get h.client_rooms c ≢ some other
    → get (members h.registry other) c ≡ none
elsewhere h other c v apart = elim (Option-cases (get (members h.registry other) c)) [
  | inl e ↦ e
  | inr (m, e) ↦ absurd (apart (v.member_of other c m e).0)
]

unmoved-Cleared :
    (h : MessageHub) (room c : Text)
    → IsValid h
    → ((other : Text) → (room == other) ≡ false → get h.client_rooms c ≢ some other)
    → Cleared h.registry h.registry room c
unmoved-Cleared h room c v away other d = elim (Bool-cases ((c == d) && not (room == other))) [
  | inr kept ↦ rw kept refl
  | inl gone ↦
      rw (gone, ← (==_iff c d).0 (ground arith)) (elsewhere h other c v (away other (ground arith)))
]

moved-Cleared :
    (h : MessageHub) (previous room c : Text)
    → IsValid h
    → get h.client_rooms c ≡ some previous
    → (previous == room) ≡ false
    → Cleared h.registry (registry_leave h.registry previous c) room c
moved-Cleared h previous room c v was apart other d =
    let nowhere : (c == d) ≡ true
        → (previous == other) ≡ false
        → get (members h.registry other) d ≡ none =
      λ same away.
        rw (← (==_iff c d).0 same)
          (elsewhere h other c v (λ there. ground (arith, ==_iff previous other))) in
    rw (get-registry_leave h.registry previous other c d v.tidy)
      (ground (arith, nowhere, ==_iff previous other, ==_iff room other, ==_iff previous room))

leave_previous-Cleared :
    (h : MessageHub) (room c : Text)
    → IsValid h
    → Cleared h.registry (leave_previous h.registry (get h.client_rooms c) room c) room c
leave_previous-Cleared h room c v other d = elim (Option-cases (get h.client_rooms c)) [
  | inl e ↦ rw e (unmoved-Cleared h room c v (λ o _ there. cc) other d)
  | inr ([], e) ↦ absurd (v.named c e)
  | inr (p ∷ ps, e) ↦ rw e (elim (Bool-cases ((p ∷ ps) == room)) [
    | inl same ↦ rw same (
        unmoved-Cleared h room c v
          (λ o apart there. ground (arith, ==_iff (p ∷ ps) room, ==_iff room o)) other d)
    | inr apart ↦ rw apart (moved-Cleared h (p ∷ ps) room c v e apart other d)
  ])
]

leave_previous-IsTidy :
    (rooms : RoomRegistry) (previous : Option Text) (room c : Text)
    → IsTidy rooms
    → IsTidy (leave_previous rooms previous room c)
leave_previous-IsTidy rooms none room c t = t
leave_previous-IsTidy rooms (some previous) room c t =
    elim (Bool-cases (must_leave previous room)) [
      | inl leaves ↦ rw leaves (leave-IsTidy rooms previous c t)
      | inr stays ↦ rw stays t
    ]

-- The registry of a hub that `c` enters.
abbrev entered : MessageHub → Text → Text → RoomRegistry
entered h room c = leave_previous h.registry (get h.client_rooms c) room c

get-entered :
    (h : MessageHub) (room c name : Text) (at : ℕ) (other d : Text)
    → IsValid h
    → get (members (registry_join (entered h room c) room c name at) other) d ≡ (
        if c == d
        then (if room == other
            then some (record { client_id = c; username = name; joined_at = at })
            else none)
        else get (members h.registry other) d)
get-entered h room c name at other d v = rw (members-join (entered h room c) room other c name at) (
    ground (
      arith,
      leave_previous-Cleared h room c v other d,
      ==_iff room other,
      get-put (members (entered h room c) room) c d
          (record { client_id = c; username = name; joined_at = at }),
      leave_previous-Cleared h room c v room d,
    ))

pub enter_room-IsValid :
    (h : MessageHub) (room c name : Text) (at : ℕ)
    → room ≢ []
    → IsValid h
    → IsValid (enter_room h room c name at)
unfolding enter_room
enter_room-IsValid h room c name at some_room v = record {
  tidy =
      join-IsTidy (entered h room c) room c name at
        (leave_previous-IsTidy h.registry (get h.client_rooms c) room c v.tidy);
  rooms_distinct = put-Distinct h.client_rooms c room v.rooms_distinct;
  usernames_distinct = put-Distinct h.client_usernames c name v.usernames_distinct;
  named = λ d e. ground (arith, get-put h.client_rooms c d room, v.named d);
  member_of = λ other d m e. ground (
    arith,
    get-entered h room c name at other d v,
    get-put h.client_rooms c d room,
    get-put h.client_usernames c d name,
    v.member_of other d m,
    ==_iff room other,
  );
  listed = λ other d e.
      let found = get-entered h room c name at other d v in
      λ missing.
        ground (arith, found, get-put h.client_rooms c d room, v.listed other d, ==_iff room other);
}

leave_registered-IsTidy :
    (rooms : RoomRegistry) (room : Option Text) (c : Text)
    → IsTidy rooms
    → IsTidy (leave_registered rooms room c)
leave_registered-IsTidy rooms none c t = t
leave_registered-IsTidy rooms (some room) c t = leave-IsTidy rooms room c t

get-leave_registered :
    (h : MessageHub) (c other d : Text)
    → IsValid h
    → get (members (leave_registered h.registry (get h.client_rooms c) c) other) d
      ≡ (if c == d then none else get (members h.registry other) d)
get-leave_registered h c other d v =
    let outside : get h.client_rooms c ≢ some other
        → (c == d) ≡ true
        → get (members h.registry other) d ≡ none =
      λ apart same. rw (← (==_iff c d).0 same) (elsewhere h other c v apart) in
    elim (Option-cases (get h.client_rooms c)) [
      | inl e ↦ rw e (ground (arith, outside))
      | inr (room, e) ↦ rw e (
          rw (get-registry_leave h.registry room other c d v.tidy)
            (elim (Bool-cases (room == other)) [
              | inl here ↦ ground arith
              | inr away ↦
                  let gone : get h.client_rooms c ≢ some other =
                    λ there. ground (arith, ==_iff room other) in
                  ground (arith, outside gone)
            ]))
    ]

pub leave_room-IsValid : (h : MessageHub) (c : Text) → IsValid h → IsValid (leave_room h c)
unfolding leave_room
leave_room-IsValid h c v = record {
  tidy = leave_registered-IsTidy h.registry (get h.client_rooms c) c v.tidy;
  rooms_distinct = remove-Distinct h.client_rooms c v.rooms_distinct;
  usernames_distinct = remove-Distinct h.client_usernames c v.usernames_distinct;
  named = λ d e. ground (arith, get-remove h.client_rooms c d v.rooms_distinct, v.named d);
  member_of = λ other d m e. ground (
    arith,
    get-leave_registered h c other d v,
    get-remove h.client_rooms c d v.rooms_distinct,
    get-remove h.client_usernames c d v.usernames_distinct,
    v.member_of other d m,
  );
  listed = λ other d e missing. ground (
    arith,
    get-leave_registered h c other d v,
    get-remove h.client_rooms c d v.rooms_distinct,
    v.listed other d,
  );
}

pub clients-IsValid :
    (h : MessageHub) (clients : Dict Text Client)
    → IsValid h
    → IsValid (record h { clients = clients })
clients-IsValid h clients v = record {
  tidy = v.tidy;
  rooms_distinct = v.rooms_distinct;
  usernames_distinct = v.usernames_distinct;
  named = v.named;
  member_of = v.member_of;
  listed = v.listed;
}

pub attach_client-IsValid : (h : MessageHub) (c : Text) → IsValid h → IsValid (attach_client h c)
unfolding attach_client
attach_client-IsValid h c v = elim (Option-cases (get h.clients c)) [
  | inl e ↦ rw (e, attach_client) (clients-IsValid h (put h.clients c (attached [])) v)
  | inr (client, e) ↦ rw (e, attach_client) v
]

send_to-IsValid :
    (h : MessageHub) (c : Text) (packet : MessagePacket) (client : Option Client)
    → IsValid h
    → IsValid (send_to h c packet client).0
send_to-IsValid h c packet none v = v
send_to-IsValid h c packet (some (attached packets)) v =
    clients-IsValid h (put h.clients c (attached (packets ++ packet ∷ []))) v
send_to-IsValid h c packet (some (transport t)) v = v

pub send_all-IsValid :
    (h : MessageHub) (packet : MessagePacket) (targets : List Text)
    → IsValid h
    → IsValid (send_all h packet targets).0
unfolding send_all
send_all-IsValid h packet [] v = v
send_all-IsValid h packet (c ∷ targets) v =
    send_all-IsValid (send_to h c packet (get h.clients c)).0 packet targets
      (send_to-IsValid h c packet (get h.clients c) v)
