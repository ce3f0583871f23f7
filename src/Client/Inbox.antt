-- ===== src/Client/Inbox.antt =====
-- core/client.py: what becomes of a packet for the interface: decrypted, checked against the key's
-- holder, held back until its key arrives, or shown.
use proxy_net.Prelude.{
  ℕ, ◌+◌, ◌-◌, List, [], ◌∷◌, ◌++◌, Bool, true, false, ◌||◌, Option, none, some, ltb, leb,
  if◌then◌else◌, length, Text, text, ◌==◌, text_eq, Result, ok, err,
}
use proxy_net.Bytes.{Bytes}
use proxy_net.Dict.{get}
use proxy_net.KeyAgreement.{
  KeyLibrary, KeyError, unknown_sender_key, offer_error, sender_key_error, decryption_error,
  message_too_long, value_error,
}
use proxy_net.RoomSession.{RoomSession, key_owner, first_sight, can_read, decrypt}
use proxy_net.Packets.{
  Json, string, array, null, boolean, number, object, Items, nil, cons, Fields, end, field,
  get_field, set_field, as_text, text_field, is_null, RoomCipher, null_cipher, room_cipher,
  mark_undecryptable, decrypt_reason_sender, decrypt_packet_content,
}
use proxy_net.Client.{
  ChatClient, Python, cipher, with_session, emit, shows, deferred_message_ms, max_deferred_messages,
}

-- Whether a field is this text.
abbrev pub is_text : Option Text → Text → Bool
is_text none t = false
is_text (some s) t = s == t

abbrev pub has_type : Fields → Text → Bool
has_type packet t = is_text (text_field packet (text "type")) t

-- `not expected or packet.get("user") != expected` is its negation.
abbrev pub is_from : Option Text → Option Text → Bool
is_from none user = false
is_from (some []) user = false
is_from (some (c ∷ cs)) user = is_text user (c ∷ cs)

-- A session that saw a message, for the first time or again.
abbrev pub sighted : ChatClient → RoomSession × Bool → Fields → ChatClient × Option Fields
sighted c (s, true) packet = (with_session c s, some packet)
sighted c (s, false) packet = (with_session c s, none)

abbrev pub with_opened : Option Json → Items → Items
with_opened none xs = xs
with_opened (some x) xs = cons x xs

abbrev pub as_object : Option Fields → Option Json
as_object none = none
as_object (some fs) = some (object fs)

abbrev pub shown : ChatClient × Option Fields → ChatClient
shown (c, none) = c
shown (c, some packet) = emit c (shows packet)

-- Packets that leave the queue, and the entries that stay.
abbrev pub Split : Type 0
Split = List Fields × List (ℕ × Fields)

abbrev pub sorted_out : Bool → ℕ → Fields → Split → Split
sorted_out true arrived held (leaving, staying) = (held ∷ leaving, staying)
sorted_out false arrived held (leaving, staying) = (leaving, (arrived, held) ∷ staying)

module _ (python : Python) where
  -- The truth of `packet.get(name)`.
  abbrev pub is_true : Option Json → Bool
  is_true none = false
  is_true (some null) = false
  is_true (some (boolean b)) = b
  is_true (some (number n)) = python.is_nonzero n
  is_true (some (string [])) = false
  is_true (some (string (c ∷ cs))) = true
  is_true (some (array nil)) = false
  is_true (some (array (cons x xs))) = true
  is_true (some (object end)) = false
  is_true (some (object (field n v fs))) = true

module _ (lib : KeyLibrary) where
  -- The key for a held message is there.
  abbrev pub is_readable : RoomCipher → Option Text → Bool
  is_readable null_cipher body = false
  is_readable (room_cipher s) none = false
  is_readable (room_cipher s) (some body) = can_read lib s body

  abbrev pub is_due : RoomCipher → ℕ → ℕ → ℕ → ℕ → Fields → Bool
  is_due k now overflow index arrived held =
      is_readable k (text_field held (text "content"))
      || leb (arrived + deferred_message_ms) now
      || ltb index overflow

  -- The loop over the queue, from an index on.
  unfoldable pub sort_out : RoomCipher → ℕ → ℕ → ℕ → List (ℕ × Fields) → Split
  sort_out k now overflow index [] = ([], [])
  sort_out k now overflow index ((arrived, held) ∷ rest) =
      sorted_out (is_due k now overflow index arrived held) arrived held
        (sort_out k now overflow (index + 1) rest)

module _ (lib : KeyLibrary) (python : Python) where
  -- The name of whoever holds the key.
  abbrev pub name_of : ChatClient → RoomSession → Option Bytes → Option Text
  name_of c s none = none
  name_of c s (some owner) =
      if owner == lib.public_of s.own then some c.username else get c.peer_users owner

  unfoldable pub check_sender :
      ChatClient → RoomSession → Fields → Text → ChatClient × Option Fields
  check_sender c s packet token =
      if is_from (name_of c s (key_owner lib s token)) (text_field packet (text "user"))
      then sighted c (first_sight lib s token) packet
      else (c, some (mark_undecryptable packet decrypt_reason_sender))

  abbrev pub check_token :
      ChatClient → RoomSession → Fields → Option Text → ChatClient × Option Fields
  check_token c s packet none = (c, some packet)
  check_token c s packet (some token) = check_sender c s packet token

  unfoldable pub check_origin :
      ChatClient → RoomCipher → Fields → Option Json → ChatClient × Option Fields
  check_origin c null_cipher packet token = (c, some packet)
  check_origin c (room_cipher s) packet token =
      if is_true python (get_field packet (text "decrypt_failed"))
        || is_null (get_field packet (text "enc"))
      then (c, some packet)
      else check_token c s packet (as_text token)

  unfoldable pub open_message : ChatClient → Fields → ChatClient × Option Fields
  open_message c packet =
      check_origin c (cipher c) (decrypt_packet_content lib packet (cipher c))
        (get_field packet (text "content"))

  -- An entry of a history; None is dropped.
  abbrev pub open_item : ChatClient → Json → ChatClient × Option Json
  open_item c (object packet) = let (c', opened) = open_message c packet in (c', as_object opened)
  open_item c null = (c, none)
  open_item c (boolean b) = (c, some (boolean b))
  open_item c (number n) = (c, some (number n))
  open_item c (string t) = (c, some (string t))
  open_item c (array xs) = (c, some (array xs))

  unfoldable pub open_all : ChatClient → Items → ChatClient × Items
  open_all c nil = (c, nil)
  open_all c (cons x xs) =
      let (c', opened) = open_item c x in
      let (last, rest) = open_all c' xs in (last, with_opened opened rest)

  abbrev pub open_history : ChatClient → Fields → Option Json → ChatClient × Option Fields
  open_history c packet (some (array xs)) =
      let (c', opened) = open_all c xs in
      (c', some (set_field packet (text "messages") (array opened)))
  open_history c packet (some null) = (c, some packet)
  open_history c packet (some (boolean b)) = (c, some packet)
  open_history c packet (some (number n)) = (c, some packet)
  open_history c packet (some (string t)) = (c, some packet)
  open_history c packet (some (object fs)) = (c, some packet)
  open_history c packet none = (c, some packet)

  unfoldable pub decrypt_incoming : ChatClient → Fields → ChatClient × Option Fields
  decrypt_incoming c packet =
      if has_type packet (text "message")
      then open_message c packet
      else if has_type packet (text "history")
      then open_history c packet (get_field packet (text "messages"))
      else (c, some packet)

  unfoldable pub deliver : ChatClient → Fields → ChatClient
  deliver c packet = if c.on_packet then shown (decrypt_incoming c packet) else c

  unfoldable pub deliver_all : ChatClient → List Fields → ChatClient
  deliver_all c [] = c
  deliver_all c (packet ∷ packets) = deliver_all (deliver c packet) packets

  abbrev pub flushed : ChatClient → Split → ChatClient
  flushed c (leaving, staying) = deliver_all (record c { deferred = staying }) leaving

  unfoldable pub flush_deferred : ChatClient → ℕ → ChatClient
  flush_deferred c now =
      flushed c
        (sort_out lib (cipher c) now (length c.deferred - max_deferred_messages) 0 c.deferred)

  abbrev pub hold : ChatClient → ℕ → Fields → List Bytes → ChatClient × Bool
  hold c now packet (peer ∷ peers) = (c, false)
  hold c now packet [] =
      (flush_deferred (record c { deferred = c.deferred ++ (now, packet) ∷ [] }) now, true)

  abbrev pub hold_if_unknown : ChatClient → ℕ → Fields → Result KeyError Text → ChatClient × Bool
  hold_if_unknown c now packet (err unknown_sender_key) = hold c now packet c.mismatched
  hold_if_unknown c now packet (err offer_error) = (c, false)
  hold_if_unknown c now packet (err sender_key_error) = (c, false)
  hold_if_unknown c now packet (err decryption_error) = (c, false)
  hold_if_unknown c now packet (err message_too_long) = (c, false)
  hold_if_unknown c now packet (err value_error) = (c, false)
  hold_if_unknown c now packet (ok plaintext) = (c, false)

  abbrev pub defer_body : ChatClient → ℕ → Fields → RoomCipher → Option Text → ChatClient × Bool
  defer_body c now packet null_cipher body = (c, false)
  defer_body c now packet (room_cipher s) none = (c, false)
  defer_body c now packet (room_cipher s) (some body) =
      hold_if_unknown c now packet (decrypt lib s body)

  unfoldable pub defer_if_unreadable : ChatClient → ℕ → Fields → ChatClient × Bool
  defer_if_unreadable c now packet =
      if has_type packet (text "message")
      then defer_body c now packet (cipher c) (text_field packet (text "content"))
      else (c, false)
