-- ===== src/Client/Peers.antt =====
-- core/client.py: whose keys the client has, and what it drops when peers leave.
use proxy_net.Prelude.{
  List, [], ◌∷◌, Bool, true, false, not, ◌&&◌, Option, none, some, if◌then◌else◌, Text, text, ◌==◌,
  text_eq,
}
use proxy_net.Bytes.{Bytes}
use proxy_net.Dict.{Dict, remove}
use proxy_net.Names.{is_among}
use proxy_net.KeyAgreement.{bytes_leb}
use proxy_net.RoomSession.{RoomSession, keyed_peers}
use proxy_net.Packets.{
  Json, string, array, null, boolean, number, object, Items, nil, cons, Fields, end, field,
  RoomCipher, null_cipher, room_cipher,
}
use proxy_net.Client.{ChatClient, cipher, with_session, forget_all, emit, shows}

-- A name into a sorted list without repetitions.
unfoldable pub insert_name : Text → List Text → List Text
insert_name x [] = x ∷ []
insert_name x (y ∷ ys) =
    let rest = insert_name x ys in
    if x == y then y ∷ ys else if bytes_leb x y then x ∷ y ∷ ys else y ∷ rest

-- `sorted` of the set of the names.
unfoldable pub sorted_names : List Text → List Text
sorted_names [] = []
sorted_names (x ∷ xs) = insert_name x (sorted_names xs)

-- `if name`
abbrev pub is_named : Text → Bool
is_named [] = false
is_named (c ∷ cs) = true

unfoldable pub verified_names : Dict Bytes Text → List Bytes → List Text
verified_names [] keyed = []
verified_names ((peer, name) ∷ users) keyed =
    let rest = verified_names users keyed in
    if is_named name && is_among peer keyed then name ∷ rest else rest

-- `verified_users`, the elements of the set.
abbrev pub verified_by : Dict Bytes Text → RoomCipher → List Text
verified_by users null_cipher = []
verified_by users (room_cipher s) = verified_names users (keyed_peers s)

unfoldable pub verified_users : ChatClient → List Text
verified_users c = verified_by c.peer_users (cipher c)

abbrev pub items_of : List Text → Items
items_of [] = nil
items_of (x ∷ xs) = cons (string x) (items_of xs)

abbrev pub verified_packet : ChatClient → Fields
verified_packet c = field (text "type") (string (text "peers_verified")) (
    field (text "room") (string c.room)
      (field (text "users") (array (items_of (sorted_names (verified_users c)))) end))

unfoldable pub publish_verified : ChatClient → ChatClient
publish_verified c = if c.on_packet then emit c (shows (verified_packet c)) else c

-- The texts among the entries.
unfoldable pub texts_of : Items → List Text
texts_of nil = []
texts_of (cons (string t) xs) = t ∷ texts_of xs
texts_of (cons null xs) = texts_of xs
texts_of (cons (boolean b) xs) = texts_of xs
texts_of (cons (number n) xs) = texts_of xs
texts_of (cons (array ys) xs) = texts_of xs
texts_of (cons (object fs) xs) = texts_of xs

-- The peers with a name that is not present.
unfoldable pub absent_peers : List Text → Dict Bytes Text → List Bytes
absent_peers present [] = []
absent_peers present ((peer, name) ∷ users) =
    let rest = absent_peers present users in
    if is_named name && not (is_among name present) then peer ∷ rest else rest

unfoldable pub remove_all : {V : Type 0} → Dict Bytes V → List Bytes → Dict Bytes V
remove_all d [] = d
remove_all d (peer ∷ peers) = remove_all (remove d peer) peers

-- `if dropped`
abbrev pub forgotten : ChatClient → RoomSession → List Bytes → ChatClient
forgotten c s [] = c
forgotten c s (peer ∷ peers) =
    publish_verified (record (with_session c (forget_all s (peer ∷ peers))) {
      peer_users = remove_all c.peer_users (peer ∷ peers);
      pending_keys = remove_all c.pending_keys (peer ∷ peers);
    })

abbrev pub forget_absent_from : ChatClient → RoomCipher → Option Json → ChatClient
forget_absent_from c (room_cipher s) (some (array users)) =
    forgotten c s (absent_peers (texts_of users) c.peer_users)
forget_absent_from c (room_cipher s) (some null) = c
forget_absent_from c (room_cipher s) (some (boolean b)) = c
forget_absent_from c (room_cipher s) (some (number n)) = c
forget_absent_from c (room_cipher s) (some (string t)) = c
forget_absent_from c (room_cipher s) (some (object fs)) = c
forget_absent_from c (room_cipher s) none = c
forget_absent_from c null_cipher users = c

unfoldable pub forget_absent_peers : ChatClient → Option Json → ChatClient
forget_absent_peers c users = forget_absent_from c (cipher c) users
