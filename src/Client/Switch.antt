-- ===== src/Client/Switch.antt =====
-- core/client.py: what a change of rooms leaves behind.
use proxy_net.Prelude.{
  ◌≡◌, refl, inl, inr, [], ◌∷◌, Bool, true, false, not, Option, none, some, if◌then◌else◌, Text,
  text, ◌==◌, ==_iff, text_eq, Bool-cases, arith, Result-cases, Result, ok, err, ◌∙◌, sym, ap,
}
use mathlib.Core.Path.{subst}
use proxy_net.Dict.{get, contains}
use proxy_net.Dict.Laws.{get-put}
use proxy_net.KeyAgreement.{KeyLibrary, KeyError}
use proxy_net.RoomSession.{offer}
use proxy_net.Packets.{Fields, text_field, RoomCipher, null_cipher, room_cipher}
use proxy_net.Client.{
  ChatClient, Fresh, cipher, new_cipher, cipher_for, entered, join_room, asked_to_join,
}
use proxy_net.Client.Peers.{is_named}
use proxy_net.Client.Inbox.{has_type}
use proxy_net.Client.Exchange.{send_key_packet, send_offer, offer_of}
use proxy_net.Client.Listen.{renamed, moved, absorb_session_state}

-- The client knows of its peers what it did before, in the session under this key too.
pub record IsKept (key : Text) (c d : ChatClient) : Type 0 where
  pub same_session : get d.ciphers key ≡ get c.ciphers key
  pub same_users : d.peer_users ≡ c.peer_users
  pub same_mismatched : d.mismatched ≡ c.mismatched

IsKept-refl : (key : Text) (c : ChatClient) → IsKept key c c
IsKept-refl key c = record { same_session = refl; same_users = refl; same_mismatched = refl }

IsKept-trans : (key : Text) (b c d : ChatClient) → IsKept key b c → IsKept key c d → IsKept key b d
IsKept-trans key b c d p q = record {
  same_session = q.same_session ∙ p.same_session;
  same_users = q.same_users ∙ p.same_users;
  same_mismatched = q.same_mismatched ∙ p.same_mismatched;
}

if-IsKept :
    (key : Text) (b : Bool) (c d : ChatClient) → IsKept key c d → IsKept key c (if b then d else c)
if-IsKept key true c d p = p
if-IsKept key false c d p = IsKept-refl key c

if-KeepsTo :
    (key : Text) (b : Bool) (c : ChatClient) (x y : ChatClient × Result KeyError (Unit {0}))
    → IsKept key c x.0
    → IsKept key c y.0
    → IsKept key c (if b then x else y).0
if-KeepsTo key true c x y p q = p
if-KeepsTo key false c x y p q = q

if_true : {A : Type 0} (b : Bool) (x y : A) → b ≡ true → (if b then x else y) ≡ x
if_true true x y e = refl
if_true false x y e = cc

renamed-IsKept : (key : Text) (c : ChatClient) (name : Option Text) → IsKept key c (renamed c name)
renamed-IsKept key c none = IsKept-refl key c
renamed-IsKept key c (some []) = IsKept-refl key c
renamed-IsKept key c (some (d ∷ ds)) = record {
  same_session = refl;
  same_users = refl;
  same_mismatched = refl;
}

renamed-room : (c : ChatClient) (name : Option Text) → (renamed c name).room ≡ c.room
renamed-room c none = refl
renamed-room c (some []) = refl
renamed-room c (some (d ∷ ds)) = refl

module _ (lib : KeyLibrary) where
  send_key_packet-IsKept :
      (key : Text) (c : ChatClient) (kind : Text) (payload : Fields)
      → IsKept key c (send_key_packet lib c kind payload).0
  unfolding send_key_packet
  send_key_packet-IsKept key c kind payload =
      if-KeepsTo key (not c.transport) c _ _ (IsKept-refl key c) (
        if-KeepsTo key (lib.encodes c.room) c _ _
          (record { same_session = refl; same_users = refl; same_mismatched = refl })
          (IsKept-refl key c))

  offer_of-IsKept :
      (key : Text) (c : ChatClient) (k : RoomCipher) → IsKept key c (offer_of lib c k).0
  offer_of-IsKept key c null_cipher = IsKept-refl key c
  offer_of-IsKept key c (room_cipher s) = elim (Result-cases (offer lib s)) [
    | inr (e, bad) ↦ rw bad (IsKept-refl key c)
    | inl (made, is) ↦ rw is (send_key_packet-IsKept key c _ _)
  ]

  entered-IsKept :
      (fresh : Fresh) (c : ChatClient) (room key : Text)
      → (lib.normalize_room room == key) ≡ false
      → IsKept key c (entered lib fresh c room).0
  unfolding cipher_for
  entered-IsKept fresh c room key apart =
      let normal : Text = lib.normalize_room room in
      elim (Bool-cases (contains c.ciphers normal)) [
        | inl there ↦
            rw (there, cipher_for)
              (record { same_session = refl; same_users = refl; same_mismatched = refl })
        | inr absent ↦ elim (Result-cases (new_cipher lib fresh room c.room_password)) [
          | inr (e, bad) ↦
              rw (absent, bad, cipher_for)
                (record { same_session = refl; same_users = refl; same_mismatched = refl })
          | inl (k, made) ↦
              rw (absent, made, cipher_for)
                (record {
                  same_session = ground (arith, get-put c.ciphers normal key k);
                  same_users = refl;
                  same_mismatched = refl;
                })
        ]
      ]

  entered-room :
      (fresh : Fresh) (c : ChatClient) (room : Text) → (entered lib fresh c room).0.room ≡ room
  entered-room fresh c room = elim (Result-cases (cipher_for lib fresh c room)) [
    | inl (ciphers, is) ↦ rw is refl
    | inr (e, is) ↦ rw is refl
  ]

  asked_to_join-IsKept :
      (key room : Text) (c : ChatClient) (out : ChatClient × Result KeyError (Unit {0}))
      → IsKept key c out.0
      → IsKept key c (asked_to_join lib room out).0
  asked_to_join-IsKept key room c (d, err e) p = p
  asked_to_join-IsKept key room c (d, ok _) p = record {
    same_session = p.same_session;
    same_users = p.same_users;
    same_mismatched = p.same_mismatched;
  }

  asked_to_join-room :
      (room : Text) (out : ChatClient × Result KeyError (Unit {0}))
      → (asked_to_join lib room out).0.room ≡ out.0.room
  asked_to_join-room room (d, err e) = refl
  asked_to_join-room room (d, ok _) = refl

  moved-here :
      (fresh : Fresh) (c : ChatClient) (room : Text)
      → c.room ≡ room
      → moved lib fresh c (some room) ≡ (c, ok tt)
  unfolding moved
  moved-here fresh c room here = elim (Bool-cases (is_named room)) [
    | inl named ↦
        let same : (room == c.room) ≡ true = ground (arith, ==_iff room c.room, sym here) in
        rw (moved, named, same) refl
    | inr unnamed ↦ rw (moved, unnamed) refl
  ]

  -- After `join_room` and the server's answer, which names the same room, the session of the room that
  -- was left holds the keys it held, and the peers' names and the record of failed offers are those of
  -- the room left. The names of the two rooms differ when normalized, and the client is connected.
  pub switch_keeps_old_keys :
      (fresh later : Fresh) (c : ChatClient) (packet : Fields) (room key : Text)
      → c.transport ≡ true
      → has_type packet (text "room_snapshot") ≡ false
      → has_type packet (text "joined") ≡ true
      → text_field packet (text "room") ≡ some room
      → (lib.normalize_room room == key) ≡ false
      → IsKept key c (absorb_session_state lib later (join_room lib fresh c room).0 packet).0
  unfolding absorb_session_state join_room send_offer
  switch_keeps_old_keys fresh later c packet room key up other joined named apart =
      let start : ChatClient = (join_room lib fresh c room).0 in
      let d : ChatClient = renamed start (text_field packet (text "user")) in
      let joins : join_room lib fresh c room ≡ asked_to_join lib room (entered lib fresh c room) =
        if_true c.transport _ _ up in
      let in_room : start.room ≡ room =
        ap (λ (x : ChatClient × Result KeyError (Unit {0})). x.0.room) joins
        ∙ asked_to_join-room room (entered lib fresh c room)
        ∙ entered-room fresh c room in
      let begun : IsKept key c start =
        subst (λ (x : ChatClient × Result KeyError (Unit {0})). IsKept key c x.0) (sym joins)
          (asked_to_join-IsKept key room c (entered lib fresh c room)
            (entered-IsKept fresh c room key apart)) in
      let stays : moved lib later d (some room) ≡ (d, ok tt) =
        moved-here later d room (renamed-room start (text_field packet (text "user")) ∙ in_room) in
      rw (absorb_session_state, other, joined, named, stays)
        (IsKept-trans key c d (send_offer lib d).0
          (IsKept-trans key c start d begun
            (renamed-IsKept key start (text_field packet (text "user"))))
          (offer_of-IsKept key d (cipher d)))
