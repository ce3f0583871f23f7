-- ===== src/Client/Sessions.antt =====
-- core/client.py: the sessions that the client holds stay armed, and delivering a packet touches
-- nothing else.
use proxy_net.Prelude.{
  ◌≡◌, refl, inl, inr, List, [], ◌∷◌, Bool, true, false, ◌||◌, Option, none, some, if◌then◌else◌,
  Text, text, ◌==◌, text_eq, Bool-cases, Option-cases, ◌∙◌,
}
use proxy_net.Bytes.{Bytes}
use proxy_net.Dict.{Dict, get, put}
use proxy_net.Dict.Laws.{get-put}
use proxy_net.KeyAgreement.{KeyLibrary}
use proxy_net.RoomSession.{RoomSession, forget_peer, first_sight, head, is_seen, key_owner}
use proxy_net.Packets.{
  Json, null, boolean, number, string, array, object, Items, nil, cons, Fields, get_field,
  text_field, as_text, is_null, RoomCipher, null_cipher, room_cipher, decrypt_packet_content,
}
use proxy_net.Client.{ChatClient, Python, cipher, updated, with_session, forget_all}
use proxy_net.Client.Inbox.{
  has_type, is_true, is_from, name_of, sighted, check_sender, check_origin, open_message, open_item,
  open_all, decrypt_incoming, deliver, deliver_all, open_history, shown,
}
use proxy_net.Client.Outcomes.{IsArmed}

-- Every session of the dictionary is armed.
abbrev pub Armed : Dict Text RoomCipher → Type 0
Armed ciphers = (key : Text) (s : RoomSession) → get ciphers key ≡ some (room_cipher s) → IsArmed s

pub cipher-IsArmed :
    (c : ChatClient) (s : RoomSession) → Armed c.ciphers → cipher c ≡ room_cipher s → IsArmed s
cipher-IsArmed c s armed e = elim (Option-cases c.current) [
  | inl nowhere ↦ let f = rw nowhere at e in absurd (cc)
  | inr (key, here) ↦ elim (Option-cases (get c.ciphers key)) [
    | inl absent ↦ let f = rw (here, absent) at e in absurd (cc)
    | inr (k, known) ↦ let f = rw (here, known) at e in armed key s (rw f at known)
  ]
]

pub put-Armed :
    (d : Dict Text RoomCipher) (key : Text) (k : RoomCipher)
    → Armed d
    → ((s : RoomSession) → k ≡ room_cipher s → IsArmed s)
    → Armed (put d key k)
put-Armed d key k armed new j s e = elim (Bool-cases (key == j)) [
  | inl same ↦ let f = rw (get-put d key j k, same) at e in new s (cc)
  | inr apart ↦ let f = rw (get-put d key j k, apart) at e in armed j s f
]

updated-Armed :
    (current : Option Text) (d : Dict Text RoomCipher) (s : RoomSession)
    → Armed d
    → IsArmed s
    → Armed (updated current d s)
updated-Armed none d s armed new = armed
updated-Armed (some key) d s armed new =
    put-Armed d key (room_cipher s) armed (λ t e. let same : t ≡ s = cc in rw same new)

pub with_session-Armed :
    (c : ChatClient) (s : RoomSession)
    → Armed c.ciphers
    → IsArmed s
    → Armed (with_session c s).ciphers
with_session-Armed c s = updated-Armed c.current c.ciphers s

pub forget_all-IsArmed :
    (s : RoomSession) (peers : List Bytes) → IsArmed s → IsArmed (forget_all s peers)
unfolding forget_all forget_peer
forget_all-IsArmed s [] a = a
forget_all-IsArmed s (peer ∷ peers) a = forget_all-IsArmed (forget_peer s peer) peers a

-- What delivering changes is the sessions, which stay armed, and what was shown.
pub record Alike (c d : ChatClient) : Type 0 where
  pub same_mismatched : d.mismatched ≡ c.mismatched
  pub same_deferred : d.deferred ≡ c.deferred
  pub same_pending : d.pending_keys ≡ c.pending_keys
  pub same_users : d.peer_users ≡ c.peer_users
  pub same_interface : d.on_packet ≡ c.on_packet
  pub still_armed : Armed c.ciphers → Armed d.ciphers

Alike-refl : (c : ChatClient) → Alike c c
Alike-refl c = record {
  same_mismatched = refl;
  same_deferred = refl;
  same_pending = refl;
  same_users = refl;
  same_interface = refl;
  still_armed = λ a. a;
}

pub Alike-trans : (b c d : ChatClient) → Alike b c → Alike c d → Alike b d
Alike-trans b c d p q = record {
  same_mismatched = q.same_mismatched ∙ p.same_mismatched;
  same_deferred = q.same_deferred ∙ p.same_deferred;
  same_pending = q.same_pending ∙ p.same_pending;
  same_users = q.same_users ∙ p.same_users;
  same_interface = q.same_interface ∙ p.same_interface;
  still_armed = λ a. q.still_armed (p.still_armed a);
}

if-Alike :
    (c : ChatClient) (b : Bool) (d e : ChatClient)
    → Alike c d
    → Alike c e
    → Alike c (if b then d else e)
if-Alike c true d e p q = p
if-Alike c false d e p q = q

sighted-Alike :
    (c : ChatClient) (seen : RoomSession × Bool) (packet : Fields)
    → (Armed c.ciphers → IsArmed seen.0)
    → Alike c (sighted c seen packet).0
sighted-Alike c (s, true) packet a = record {
  same_mismatched = refl;
  same_deferred = refl;
  same_pending = refl;
  same_users = refl;
  same_interface = refl;
  still_armed = λ b. with_session-Armed c s b (a b);
}
sighted-Alike c (s, false) packet a = record {
  same_mismatched = refl;
  same_deferred = refl;
  same_pending = refl;
  same_users = refl;
  same_interface = refl;
  still_armed = λ b. with_session-Armed c s b (a b);
}

module _ (lib : KeyLibrary) (python : Python) where
  first_sight-IsArmed :
      (s : RoomSession) (token : Text) → IsArmed s → IsArmed (first_sight lib s token).0
  unfolding first_sight
  first_sight-IsArmed s token a = elim (Option-cases (head lib token)) [
    | inl malformed ↦ rw (malformed, first_sight) a
    | inr (h, read) ↦ elim (Bool-cases (is_seen h s.seen)) [
      | inl again ↦ rw (read, again, first_sight) a
      | inr anew ↦ rw (read, anew, first_sight) a
    ]
  ]

  check_sender-Alike :
      (c : ChatClient) (s : RoomSession) (packet : Fields) (token : Text)
      → (Armed c.ciphers → IsArmed s)
      → Alike c (check_sender lib python c s packet token).0
  unfolding check_sender
  check_sender-Alike c s packet token a =
      elim (Bool-cases (
        is_from (name_of lib python c s (key_owner lib s token))
          (text_field packet (text "user")))) [
            | inl sent ↦
                rw (check_sender, sent)
                  (sighted-Alike c (first_sight lib s token) packet
                    (λ b. first_sight-IsArmed s token (a b)))
            | inr forged ↦ rw (check_sender, forged) (Alike-refl c)
          ]

  check_origin-Alike :
      (c : ChatClient) (k : RoomCipher) (packet : Fields) (token : Option Json)
      → cipher c ≡ k
      → Alike c (check_origin lib python c k packet token).0
  unfolding check_origin
  check_origin-Alike c null_cipher packet token e = Alike-refl c
  check_origin-Alike c (room_cipher s) packet token e =
      elim (Bool-cases (
        is_true python (get_field packet (text "decrypt_failed"))
        || is_null (get_field packet (text "enc")))) [
          | inl skipped ↦ rw (check_origin, skipped) (Alike-refl c)
          | inr checked ↦ elim (Option-cases (as_text token)) [
            | inl other ↦ rw (check_origin, checked, other) (Alike-refl c)
            | inr (t, is) ↦
                rw (check_origin, checked, is)
                  (check_sender-Alike c s packet t (λ b. cipher-IsArmed c s b e))
          ]
        ]

  open_message-Alike :
      (c : ChatClient) (packet : Fields) → Alike c (open_message lib python c packet).0
  unfolding open_message
  open_message-Alike c packet =
      check_origin-Alike c (cipher c) (decrypt_packet_content lib packet (cipher c))
        (get_field packet (text "content")) refl

  open_item-Alike : (c : ChatClient) (x : Json) → Alike c (open_item lib python c x).0
  open_item-Alike c (object packet) = open_message-Alike c packet
  open_item-Alike c null = Alike-refl c
  open_item-Alike c (boolean b) = Alike-refl c
  open_item-Alike c (number n) = Alike-refl c
  open_item-Alike c (string t) = Alike-refl c
  open_item-Alike c (array xs) = Alike-refl c

  open_all-Alike : (c : ChatClient) (xs : Items) → Alike c (open_all lib python c xs).0
  unfolding open_all
  open_all-Alike c nil = Alike-refl c
  open_all-Alike c (cons x xs) =
      let d = (open_item lib python c x).0 in
      Alike-trans c d (open_all lib python d xs).0 (open_item-Alike c x) (open_all-Alike d xs)

  open_history-Alike :
      (c : ChatClient) (packet : Fields) (m : Option Json)
      → Alike c (open_history lib python c packet m).0
  open_history-Alike c packet none = Alike-refl c
  open_history-Alike c packet (some (array xs)) = open_all-Alike c xs
  open_history-Alike c packet (some null) = Alike-refl c
  open_history-Alike c packet (some (boolean b)) = Alike-refl c
  open_history-Alike c packet (some (number n)) = Alike-refl c
  open_history-Alike c packet (some (string t)) = Alike-refl c
  open_history-Alike c packet (some (object fs)) = Alike-refl c

  decrypt_incoming-Alike :
      (c : ChatClient) (packet : Fields) → Alike c (decrypt_incoming lib python c packet).0
  unfolding decrypt_incoming
  decrypt_incoming-Alike c packet = elim (Bool-cases (has_type packet (text "message"))) [
    | inl message ↦ rw (decrypt_incoming, message) (open_message-Alike c packet)
    | inr other ↦ elim (Bool-cases (has_type packet (text "history"))) [
      | inl history ↦
          rw (decrypt_incoming, other, history)
            (open_history-Alike c packet (get_field packet (text "messages")))
      | inr signal ↦ rw (decrypt_incoming, other, signal) (Alike-refl c)
    ]
  ]

  shown-Alike :
      (c : ChatClient) (out : ChatClient × Option Fields) → Alike c out.0 → Alike c (shown out)
  shown-Alike c (d, none) a = a
  shown-Alike c (d, some packet) a = record {
    same_mismatched = a.same_mismatched;
    same_deferred = a.same_deferred;
    same_pending = a.same_pending;
    same_users = a.same_users;
    same_interface = a.same_interface;
    still_armed = a.still_armed;
  }

  pub deliver-Alike : (c : ChatClient) (packet : Fields) → Alike c (deliver lib python c packet)
  unfolding deliver
  deliver-Alike c packet =
      if-Alike c c.on_packet _ c
        (shown-Alike c (decrypt_incoming lib python c packet) (decrypt_incoming-Alike c packet))
        (Alike-refl c)

  pub deliver_all-Alike :
      (c : ChatClient) (packets : List Fields) → Alike c (deliver_all lib python c packets)
  unfolding deliver_all
  deliver_all-Alike c [] = Alike-refl c
  deliver_all-Alike c (packet ∷ packets) =
      let d = deliver lib python c packet in
      Alike-trans c d (deliver_all lib python d packets) (deliver-Alike c packet)
        (deliver_all-Alike d packets)
