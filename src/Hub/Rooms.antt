-- ===== src/Hub/Rooms.antt =====
-- The rooms of core/server_state.py by the members that a lookup finds.
use proxy_net.Prelude.{
  ℕ, ◌≡◌, ◌≢◌, inl, inr, [], ◌∷◌, some, if◌then◌else◌, arith, Option-cases, Text, ◌==◌, ==_iff,
  text_eq,
}
use proxy_net.Dict.{get, put, remove}
use proxy_net.Dict.Laws.{Distinct, get-put, get-remove, put-Distinct, remove-Distinct}
use proxy_net.Hub.{
  RoomMember, Members, RoomRegistry, members, registry_join, registry_leave, set_or_drop,
}

-- Every room has a member, and no name stands twice among the rooms or the members of one.
pub record IsTidy (rooms : RoomRegistry) : Type 0 where
  pub rooms_distinct : Distinct rooms
  pub members_distinct : (room : Text) → Distinct (members rooms room)
  pub populated : (room : Text) → get rooms room ≢ some []

pub members-put :
    (rooms : RoomRegistry) (room other : Text) (ms : Members)
    → members (put rooms room ms) other ≡ (if room == other then ms else members rooms other)
unfolding members
members-put rooms room other ms = ground (arith, get-put rooms room other ms)

pub members-join :
    (rooms : RoomRegistry) (room other c name : Text) (at : ℕ)
    → members (registry_join rooms room c name at) other ≡ (
        if room == other
        then put (members rooms room) c (record { client_id = c; username = name; joined_at = at })
        else members rooms other)
unfolding registry_join
members-join rooms room other c name at =
    members-put rooms room other
      (put (members rooms room) c (record { client_id = c; username = name; joined_at = at }))

members-set_or_drop :
    (rooms : RoomRegistry) (room other : Text) (ms : Members)
    → Distinct rooms
    → members (set_or_drop rooms room ms) other
      ≡ (if room == other then ms else members rooms other)
unfolding members
members-set_or_drop rooms room other [] d = ground (arith, get-remove rooms room other d)
members-set_or_drop rooms room other (m ∷ ms) d = ground (arith, get-put rooms room other (m ∷ ms))

pub members-leave :
    (rooms : RoomRegistry) (room other c : Text)
    → Distinct rooms
    → members (registry_leave rooms room c) other
      ≡ (if room == other then remove (members rooms room) c else members rooms other)
unfolding registry_leave members remove
members-leave rooms room other c d = elim (Option-cases (get rooms room)) [
  | inl e ↦ rw (e, registry_leave) (ground (arith, ==_iff room other))
  | inr ([], e) ↦ rw (e, registry_leave) (ground (arith, ==_iff room other))
  | inr (m ∷ ms, e) ↦
      rw (e, registry_leave) (members-set_or_drop rooms room other (remove (m ∷ ms) c) d)
]

pub put_not_empty : (ms : Members) (c : Text) (m : RoomMember) → put ms c m ≢ []
unfolding put
put_not_empty [] c m e = cc
put_not_empty ((d, n) ∷ ms) c m e = ground arith

pub join-IsTidy :
    (rooms : RoomRegistry) (room c name : Text) (at : ℕ)
    → IsTidy rooms
    → IsTidy (registry_join rooms room c name at)
unfolding registry_join
join-IsTidy rooms room c name at t =
    let member : RoomMember = record { client_id = c; username = name; joined_at = at } in
    record {
      rooms_distinct = put-Distinct rooms room (put (members rooms room) c member) t.rooms_distinct;
      members_distinct = λ other. rw (members-join rooms room other c name at) (
          ground (
            arith,
            put-Distinct (members rooms room) c member (t.members_distinct room),
            t.members_distinct other,
          ));
      populated = λ other e. ground (
        arith,
        get-put rooms room other (put (members rooms room) c member),
        t.populated other,
        put_not_empty (members rooms room) c member,
      );
    }

set_or_drop-IsTidy :
    (rooms : RoomRegistry) (room : Text) (ms : Members)
    → IsTidy rooms
    → Distinct ms
    → IsTidy (set_or_drop rooms room ms)
set_or_drop-IsTidy rooms room [] t d = record {
  rooms_distinct = remove-Distinct rooms room t.rooms_distinct;
  members_distinct = λ other.
      rw (members-set_or_drop rooms room other [] t.rooms_distinct)
        (ground (arith, t.members_distinct other));
  populated =
      λ other e. ground (arith, get-remove rooms room other t.rooms_distinct, t.populated other);
}
set_or_drop-IsTidy rooms room (m ∷ ms) t d = record {
  rooms_distinct = put-Distinct rooms room (m ∷ ms) t.rooms_distinct;
  members_distinct = λ other.
      rw (members-set_or_drop rooms room other (m ∷ ms) t.rooms_distinct)
        (ground (arith, t.members_distinct other, d));
  populated = λ other e. ground (arith, get-put rooms room other (m ∷ ms), t.populated other);
}

pub leave-IsTidy :
    (rooms : RoomRegistry) (room c : Text) → IsTidy rooms → IsTidy (registry_leave rooms room c)
unfolding registry_leave members
leave-IsTidy rooms room c t = elim (Option-cases (get rooms room)) [
  | inl e ↦ rw (e, registry_leave) t
  | inr ([], e) ↦ rw (e, registry_leave) t
  | inr (m ∷ ms, e) ↦
      rw (e, registry_leave)
        (set_or_drop-IsTidy rooms room (remove (m ∷ ms) c) t
          (remove-Distinct (m ∷ ms) c (rw e at (t.members_distinct room))))
]
