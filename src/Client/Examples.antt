-- ===== src/Client/Examples.antt =====
-- Runs of core/client.py at concrete inputs, with a library that hides nothing.
use proxy_net.Prelude.{
  ◌≡◌, refl, List, [], ◌∷◌, ◌++◌, true, none, some, ok, err, replicate, Text, text, text_eq, arith,
}
use proxy_net.Bytes.{from_bytes}
use proxy_net.Dict.{get, put, contains}
use proxy_net.KeyAgreement.Plain.{sized, has_no_surrogate, plain_library, plain_library-IsSound}
use proxy_net.KeyAgreement.{pair_psk, pair_psk_context, derive_master_key, value_error}
use proxy_net.Padding.{unpad}
use proxy_net.RoomSession.{
  RoomSession, new, opened_with, message_aad, decrypt, first_sight, key_owner, key_id, head,
  is_seen,
}
use proxy_net.Packets.{
  string, Fields, end, field, get_field, set_field, text_field, scheme_name, room_cipher,
  decrypt_packet_content, decrypt_content,
}
use proxy_net.Client.{
  ChatClient, Python, Fresh, new_client, cipher, join_room, cipher_for, drop_all_peers, forget_all,
}
use proxy_net.Client.Inbox.{
  is_from, name_of, open_message, check_origin, check_sender, deliver_all, flush_deferred,
}
use proxy_net.Client.Listen.{receive, moved, absorb_session_state}
use proxy_net.Client.Limits.{IsWell}
use proxy_net.Client.Rooms.{Enters}
use proxy_net.Client.Runs.{Event, connects, joins, says, receives, turns, run, client_lasts}
use proxy_net.Client.Opening.{shown_is_genuine, replay_is_dropped}
use proxy_net.Client.Queue.{waiting, released, flush_deferred_lem, flush_deferred-expired}
use proxy_net.Client.Switch.{IsKept, switch_keeps_old_keys}

abbrev python : Python
python = record { is_nonzero = λ n. true; str_or_empty = λ value. [] }

abbrev fresh : Fresh
fresh = record { own = 1 ∷ []; sender_key = replicate 32 5; nonce = replicate 12 3 }

abbrev joined_packet : Text → Fields
joined_packet room =
    field (text "type") (string (text "joined"))
      (field (text "room") (string room) (field (text "user") (string (text "ann")) end))

abbrev stray_key : Fields
stray_key = field (text "type") (string (text "sender_key")) (
    field (text "pub") (string (text "x"))
      (field (text "to") (string (text "y")) (field (text "key") (string (text "z")) end)))

abbrev events : List Event
events =
    connects fresh (text "general") (text "ann") true
    ∷ receives fresh 5 (joined_packet (text "general"))
    ∷ says (replicate 12 4) (text "hello")
    ∷ turns 40000 0
    ∷ joins fresh (text "games")
    ∷ []

client_lasts_example :
    let c = run plain_library python (new_client (text "pw") true) events in
    let out = receive plain_library python fresh c 41000 stray_key in
    IsWell c × IsWell out.0 × Enters plain_library out.0.room out.0.room_password out.1
client_lasts_example =
    client_lasts plain_library python plain_library-IsSound (text "pw") true events fresh 41000
      stray_key (refl, (refl, (tt, (tt, (refl, tt))))) refl

abbrev session : RoomSession
session =
    opened_with plain_library (text "general") (message_aad ++ text "general")
      (sized 32 (text "pw")) (sized 32 (pair_psk_context ++ (text "general" ++ 0 ∷ []))) (1 ∷ [])
      (replicate 32 5)

new-session : new plain_library (text "general") (text "pw") (1 ∷ []) (replicate 32 5) ≡ ok session
unfolding new pair_psk derive_master_key has_no_surrogate
new-session = refl

-- Ann, alone in the room.
abbrev ann : ChatClient
ann = record (new_client (text "pw") true) {
  username = text "ann";
  ciphers = (text "general", room_cipher session) ∷ [];
  current = some (text "general");
  transport = true;
}

-- What she said, under her own key.
abbrev token : Text
token = replicate 4 5 ++ (replicate 12 4 ++ (replicate 16 7 ++ (0 ∷ 2 ∷ text "hi")))

abbrev message_with : Text → Fields
message_with content = field (text "type") (string (text "message")) (
    field (text "user") (string (text "ann"))
      (field (text "content") (string content) (field (text "enc") (string scheme_name) end)))

shown_is_genuine_example :
    (plaintext : Text) × (decrypt plain_library session token ≡ ok plaintext)
    × (get_field (message_with (text "hi")) (text "content") ≡ some (string plaintext))
    × (is_from
          (name_of plain_library python ann session (key_owner plain_library session token))
          (text_field (message_with token) (text "user"))
        ≡ true)
    × ((first_sight plain_library session token).1 ≡ true)
unfolding get get_field set_field text_field open_message check_origin check_sender
    decrypt_packet_content decrypt_content decrypt key_owner first_sight head is_seen key_id unpad
    from_bytes
shown_is_genuine_example =
    shown_is_genuine plain_library python ann session (message_with token)
      (message_with (text "hi")) token refl refl refl refl refl

replay_is_dropped_example :
    (open_message plain_library python
      (open_message plain_library python ann (message_with token)).0
      (message_with token)).1
    ≡ none
unfolding get get_field set_field text_field open_message check_origin check_sender
    decrypt_packet_content decrypt_content decrypt key_owner first_sight head is_seen key_id unpad
    from_bytes
replay_is_dropped_example =
    replay_is_dropped plain_library python ann session (message_with token)
      (message_with (text "hi")) token refl refl refl refl refl

-- The server answers with a room whose name is a lone surrogate: the listen loop ends.
receive-surrogate :
    (receive plain_library python fresh ann 5 (joined_packet (0xd800 ∷ []))).1 ≡ err value_error
unfolding receive absorb_session_state moved cipher_for new has_no_surrogate get_field text_field
    contains drop_all_peers forget_all get put
receive-surrogate = refl

-- Ann holds two messages, an old one and a new one.
abbrev holding : ChatClient
holding = record ann {
  deferred = (1000, message_with (text "old")) ∷ (3500, message_with (text "new")) ∷ [];
}

flush_deferred_lem_example :
    flush_deferred plain_library python holding 4000
    ≡ deliver_all plain_library python
        (record holding { deferred = waiting plain_library (cipher holding) 4000 holding.deferred })
        (released plain_library (cipher holding) 4000 0 holding.deferred)
flush_deferred_lem_example = flush_deferred_lem plain_library python holding 4000

flush_deferred-expired_example : (flush_deferred plain_library python holding 7000).deferred ≡ []
flush_deferred-expired_example =
    flush_deferred-expired plain_library python holding 7000 (omega arith, (omega arith, tt))

-- Ann moves on, and the server agrees.
switch_keeps_old_keys_example :
    IsKept
      (text "general")
      ann
      (absorb_session_state plain_library fresh
        (join_room plain_library fresh ann (text "games")).0
        (joined_packet (text "games"))).0
unfolding get_field text_field
switch_keeps_old_keys_example =
    switch_keeps_old_keys plain_library fresh fresh ann (joined_packet (text "games"))
      (text "games") (text "general") refl refl refl refl refl
