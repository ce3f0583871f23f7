-- ===== src/Client/Answers.antt =====
-- core/client.py: the handlers of the key exchange come to their end, but where the room of a key
-- packet cannot be encoded, and keep the client bounded.
use proxy_net.Prelude.{ℕ, ◌≡◌, refl, Option, none, some, text, ◌==◌, ==_iff, text_eq, arith, Result}
use proxy_net.Bytes.{Bytes}
use proxy_net.Dict.{get, put, remove}
use proxy_net.Dict.Laws.{length-remove, get-put}
use proxy_net.KeyAgreement.{KeyLibrary, KeyError}
use proxy_net.RoomSession.{RoomSession, key_id, store_key, accept_offer, accept_sender_key}
use proxy_net.Packets.{Fields, RoomCipher, null_cipher, room_cipher}
use proxy_net.Client.{ChatClient, Python, Fresh, cipher, with_session}
use proxy_net.Client.Inbox.{flush_deferred, has_type, is_text}
use proxy_net.Client.Exchange.{
  bytes_field, sender_key_fields, keyed, after_pending, try_pending, answered, take_pending,
  after_offer, offer_with_tag, accept_peer_offer, after_key, key_with_wrapped, accept_peer_key,
  exchange_with, exchange_keys,
}
use proxy_net.Client.Outcomes.{
  IsArmed, OfferOutcome, rejected, agreed, accept_offer-OfferOutcome, KeyOutcome, unknown, unopened,
  stored, accept_sender_key-KeyOutcome,
}
use proxy_net.Client.Sessions.{cipher-IsArmed}
use proxy_net.Client.Limits.{
  IsWell, publish_verified-IsWell, with_session-IsWell, flush_deferred-IsWell,
}
use proxy_net.Client.Rooms.{
  IsSafe, if-IsSafe, enters, refused, length-add_mismatched, length-add_pending,
  send_key_packet-IsSafe,
}

module _ (lib : KeyLibrary) (python : Python) where
  keyed-IsWell : (c : ChatClient) (now : ℕ) → IsWell c → IsWell (keyed lib python c now)
  keyed-IsWell c now w =
      publish_verified-IsWell (flush_deferred lib python c now)
        (flush_deferred-IsWell lib python c now w.tracked (omega (arith, w.few_deferred)))

  after_pending-IsSafe :
      (c : ChatClient) (now : ℕ) (s : RoomSession) (peer : Bytes)
      (out : RoomSession × Result KeyError Bytes)
      → (pair : Bytes) → get s.pairs peer ≡ some pair
      → KeyOutcome lib s peer out
      → IsArmed s
      → IsWell c
      → IsSafe lib (after_pending lib python c now out)
  unfolding store_key
  after_pending-IsSafe c now s peer out pair paired (unknown absent is) a w = cc
  after_pending-IsSafe c now s peer out pair paired (unopened is) a w =
      rw is (with_session-IsWell c s w a, enters tt refl)
  after_pending-IsSafe c now s peer out pair paired (stored key is) a w =
      let t : RoomSession = store_key s peer (key_id lib key) key in
      rw is (keyed-IsWell (with_session c t) now (with_session-IsWell c t w a), enters tt refl)

  try_pending-IsSafe :
      (c : ChatClient) (now : ℕ) (s : RoomSession) (peer : Bytes) (waiting : Option Bytes)
      → (pair : Bytes) → get s.pairs peer ≡ some pair
      → IsArmed s
      → IsWell c
      → IsSafe lib (try_pending lib python c now s peer waiting)
  try_pending-IsSafe c now s peer none pair paired a w = (w, enters tt refl)
  try_pending-IsSafe c now s peer (some wrapped) pair paired a w =
      after_pending-IsSafe c now s peer (accept_sender_key lib s peer wrapped) pair paired
        (accept_sender_key-KeyOutcome lib s peer wrapped) a w

  answered-IsSafe :
      (c : ChatClient) (s : RoomSession) (peer : Bytes) (packet : Fields) (wrapped : Bytes)
      → IsArmed s
      → IsWell c
      → IsSafe lib (answered lib python c s peer packet wrapped)
  answered-IsSafe c s peer packet wrapped a w =
      let v = with_session-IsWell c s w a in
      send_key_packet-IsSafe lib _ (text "sender_key") (sender_key_fields lib s wrapped peer)
        (record {
          tracked = record {
            armed = v.tracked.armed;
            few_mismatched = v.tracked.few_mismatched;
            few_pending = v.tracked.few_pending;
          };
          few_deferred = v.few_deferred;
        })

  take_pending-IsSafe :
      (now : ℕ) (s : RoomSession) (peer pair : Bytes)
      (out : ChatClient × Result KeyError (Unit {0}))
      → get s.pairs peer ≡ some pair
      → IsArmed s
      → IsSafe lib out
      → IsSafe lib (take_pending lib python now s peer out)
  take_pending-IsSafe now s peer pair (c, r) paired a (w, refused t where_it_is bad is) =
      rw is (w, refused t where_it_is bad refl)
  take_pending-IsSafe now s peer pair (c, r) paired a (w, enters u is) = rw is (
      try_pending-IsSafe (record c { pending_keys = remove c.pending_keys peer }) now s peer
        (get c.pending_keys peer) pair paired a
        (record {
          tracked = record {
            armed = w.tracked.armed;
            few_mismatched = w.tracked.few_mismatched;
            few_pending = ground (arith, length-remove c.pending_keys peer, w.tracked.few_pending);
          };
          few_deferred = w.few_deferred;
        }))

  after_offer-IsSafe :
      (c : ChatClient) (now : ℕ) (s : RoomSession) (peer : Bytes) (packet : Fields)
      (out : RoomSession × Result KeyError Bytes)
      → OfferOutcome lib s peer out
      → IsArmed s
      → IsWell c
      → IsSafe lib (after_offer lib python c now peer packet out)
  after_offer-IsSafe c now s peer packet out (rejected is) a w =
      let v = with_session-IsWell c s w a in
      rw is (
        record {
          tracked = record {
            armed = v.tracked.armed;
            few_mismatched = length-add_mismatched c.mismatched peer w.tracked.few_mismatched;
            few_pending = v.tracked.few_pending;
          };
          few_deferred = v.few_deferred;
        },
        enters tt refl,
      )
  after_offer-IsSafe c now s peer packet out (agreed pair wrapped is) a w =
      let t : RoomSession = record s { pairs = put s.pairs peer pair } in
      rw is (
        take_pending-IsSafe now t peer pair (answered lib python c t peer packet wrapped)
          (ground (arith, get-put s.pairs peer peer pair, ==_iff peer peer)) a
          (answered-IsSafe c t peer packet wrapped a w))

  offer_with_tag-IsSafe :
      (fresh : Fresh) (c : ChatClient) (now : ℕ) (s : RoomSession) (peer : Bytes) (packet : Fields)
      (tag : Option Bytes)
      → IsArmed s
      → IsWell c
      → IsSafe lib (offer_with_tag lib python fresh c now s peer packet tag)
  offer_with_tag-IsSafe fresh c now s peer packet none a w = (w, enters tt refl)
  offer_with_tag-IsSafe fresh c now s peer packet (some tag) a w =
      after_offer-IsSafe c now s peer packet (accept_offer lib s fresh.nonce peer tag)
        (accept_offer-OfferOutcome lib s fresh.nonce peer tag a) a w

  after_key-IsSafe :
      (c : ChatClient) (now : ℕ) (s : RoomSession) (peer wrapped : Bytes)
      (out : RoomSession × Result KeyError Bytes)
      → KeyOutcome lib s peer out
      → IsArmed s
      → IsWell c
      → IsSafe lib (after_key lib python c now peer wrapped out)
  unfolding store_key
  after_key-IsSafe c now s peer wrapped out (unknown absent is) a w =
      let v = with_session-IsWell c s w a in
      rw is (
        record {
          tracked = record {
            armed = v.tracked.armed;
            few_mismatched = v.tracked.few_mismatched;
            few_pending = length-add_pending c.pending_keys peer wrapped w.tracked.few_pending;
          };
          few_deferred = v.few_deferred;
        },
        enters tt refl,
      )
  after_key-IsSafe c now s peer wrapped out (unopened is) a w =
      rw is (with_session-IsWell c s w a, enters tt refl)
  after_key-IsSafe c now s peer wrapped out (stored key is) a w =
      let t : RoomSession = store_key s peer (key_id lib key) key in
      rw is (keyed-IsWell (with_session c t) now (with_session-IsWell c t w a), enters tt refl)

  key_with_wrapped-IsSafe :
      (c : ChatClient) (now : ℕ) (s : RoomSession) (peer : Bytes) (wrapped : Option Bytes)
      → IsArmed s
      → IsWell c
      → IsSafe lib (key_with_wrapped lib python c now s peer wrapped)
  key_with_wrapped-IsSafe c now s peer none a w = (w, enters tt refl)
  key_with_wrapped-IsSafe c now s peer (some wrapped) a w =
      after_key-IsSafe c now s peer wrapped (accept_sender_key lib s peer wrapped)
        (accept_sender_key-KeyOutcome lib s peer wrapped) a w

  exchange_with-IsSafe :
      (fresh : Fresh) (c : ChatClient) (now : ℕ) (s : RoomSession) (peer : Option Bytes)
      (packet : Fields)
      → IsArmed s
      → IsWell c
      → IsSafe lib (exchange_with lib python fresh c now s peer packet)
  unfolding accept_peer_offer accept_peer_key
  exchange_with-IsSafe fresh c now s none packet a w = (w, enters tt refl)
  exchange_with-IsSafe fresh c now s (some peer) packet a w =
      if-IsSafe lib (peer == lib.public_of s.own) _ _ (w, enters tt refl)
        (if-IsSafe lib (has_type packet (text "key_offer")) _ _
          (offer_with_tag-IsSafe fresh c now s peer packet (bytes_field lib packet (text "mac")) a
            w)
          (if-IsSafe lib (is_text (bytes_field lib packet (text "to")) (lib.public_of s.own)) _ _
            (key_with_wrapped-IsSafe c now s peer (bytes_field lib packet (text "key")) a w)
            (w, enters tt refl)))

  pub exchange_keys-IsSafe :
      (fresh : Fresh) (c : ChatClient) (now : ℕ) (k : RoomCipher) (packet : Fields)
      → cipher c ≡ k
      → IsWell c
      → IsSafe lib (exchange_keys lib python fresh c now k packet)
  exchange_keys-IsSafe fresh c now null_cipher packet e w = (w, enters tt refl)
  exchange_keys-IsSafe fresh c now (room_cipher s) packet e w =
      exchange_with-IsSafe fresh c now s (bytes_field lib packet (text "pub")) packet
        (cipher-IsArmed c s w.tracked.armed e) w
