-- ===== src/Client/Rooms.antt =====
-- core/client.py: entering and leaving rooms, and learning who left, keeps what the client tracks
-- bounded and its sessions armed.
use proxy_net.Prelude.{
  ◌-◌, ◌≤◌, ◌≡◌, refl, ◌⊎◌, inl, inr, List, [], ◌∷◌, Bool, true, false, if◌then◌else◌, not, ◌&&◌,
  Option, none, some, length, drop, length-append, Text, text, ◌==◌, text_eq, Bool-cases, arith,
  Result, ok, err, ok_injective, Result-cases, ◌∙◌, ap,
}
use proxy_net.Bytes.{Bytes}
use proxy_net.Dict.{Dict, get, remove, contains, keys}
use proxy_net.Dict.Laws.{length-put, length-remove}
use proxy_net.KeyAgreement.{
  KeyLibrary, KeyError, sender_key_bytes, pair_psk, pair_psk_bytes, derive_master_key, value_error,
}
use proxy_net.KeyAgreement.Agreement.{IsSound}
use proxy_net.RoomSession.{RoomSession, new}
use proxy_net.RoomSession.Runs.{new-opened}
use proxy_net.Packets.{
  Json, null, boolean, number, string, array, object, Fields, text_field, get_field, RoomCipher,
  null_cipher, room_cipher,
}
use proxy_net.Client.{
  ChatClient, Fresh, cipher, max_tracked_strangers, without_peers, drop_all_peers, disconnect,
  forget_all, new_cipher, cipher_for, entered, entering, as_room_cipher, Effect, emit,
}
use proxy_net.Client.Peers.{
  remove_all, forgotten, forget_absent_from, forget_absent_peers, absent_peers, texts_of, is_named,
}
use proxy_net.Client.Inbox.{has_type}
use proxy_net.Client.Exchange.{add_mismatched, add_pending, send_key_packet, offer_of, send_offer}
use proxy_net.Client.Listen.{renamed, moved, offer_after, absorb_session_state}
use proxy_net.Client.Outcomes.{IsArmed, offer-Raises}
use proxy_net.Client.Sessions.{
  Armed, put-Armed, cipher-IsArmed, forget_all-IsArmed, with_session-Armed,
}
use proxy_net.Client.Limits.{
  IsTracked, IsWell, emit-IsWell, publish_verified-IsWell, with_session-IsTracked,
}

-- What it takes to make a session came about, or one of the texts that it needs, a room, its
-- normalized name or a password, cannot be encoded.
pub data Enters (lib : KeyLibrary) (room password : Text) {A : Type 0} (r : Result KeyError A)
    : Type 0 where
  enters : (a : A) → r ≡ ok a → Enters lib room password r
  refused :
      (t : Text)
      → (t ≡ room) ⊎ ((t ≡ lib.normalize_room room) ⊎ (t ≡ password))
      → lib.encodes t ≡ false
      → r ≡ err value_error
      → Enters lib room password r

-- A handler came to its end or, where the client's room as it is by then, its normalized name or the
-- password cannot be encoded, was stopped by UnicodeEncodeError; and the client is bounded.
abbrev pub IsSafe : KeyLibrary → ChatClient × Result KeyError (Unit {0}) → Type 0
IsSafe lib (c, r) = IsWell c × Enters lib c.room c.room_password r

pub length-add_mismatched :
    (peers : List Bytes) (peer : Bytes)
    → length peers ≤ max_tracked_strangers
    → length (add_mismatched peers peer) ≤ max_tracked_strangers
length-add_mismatched peers peer few = ground (arith, length-append peers (peer ∷ []))

length-drop_one : {A : Type 0} (xs : List A) → length (drop 1 xs) ≤ length xs - 1
length-drop_one [] = omega arith
length-drop_one (x ∷ xs) = omega arith

contains-drop_one :
    (d : Dict Bytes Bytes) (k : Bytes) → contains d k ≡ false → contains (drop 1 d) k ≡ false
unfolding contains
contains-drop_one [] k e = e
contains-drop_one ((j, v) ∷ d) k e = ground (arith)

pub length-add_pending :
    (pending : Dict Bytes Bytes) (peer wrapped : Bytes)
    → length pending ≤ max_tracked_strangers
    → length (add_pending pending peer wrapped) ≤ max_tracked_strangers
unfolding add_pending
length-add_pending pending peer wrapped few = ground (
  arith,
  length-put pending peer wrapped,
  length-put (drop 1 pending) peer wrapped,
  length-drop_one pending,
  contains-drop_one pending peer,
)

length-remove_all :
    {V : Type 0} (d : Dict Bytes V) (peers : List Bytes) → length (remove_all d peers) ≤ length d
unfolding remove_all
length-remove_all d [] = omega arith
length-remove_all d (peer ∷ peers) =
    ground (arith, length-remove d peer, length-remove_all (remove d peer) peers)

pub if-IsSafe :
    (lib : KeyLibrary) (b : Bool) (x y : ChatClient × Result KeyError (Unit {0}))
    → IsSafe lib x
    → IsSafe lib y
    → IsSafe lib (if b then x else y)
if-IsSafe lib true x y p q = p
if-IsSafe lib false x y p q = q

sent_if-IsSafe :
    (lib : KeyLibrary) (c : ChatClient) (e : Effect) (b : Bool)
    → lib.encodes c.room ≡ b
    → IsWell c
    → IsSafe lib (if b then (emit c e, ok tt) else (c, err value_error))
sent_if-IsSafe lib c e true is w = (emit-IsWell c e w, enters tt refl)
sent_if-IsSafe lib c e false is w = (w, refused c.room (inl refl) is refl)

pub send_key_packet-IsSafe :
    (lib : KeyLibrary) (c : ChatClient) (kind : Text) (payload : Fields)
    → IsWell c
    → IsSafe lib (send_key_packet lib c kind payload)
unfolding send_key_packet
send_key_packet-IsSafe lib c kind payload w =
    if-IsSafe lib (not c.transport) _ _ (w, enters tt refl)
      (sent_if-IsSafe lib c _ (lib.encodes c.room) refl w)

forgotten-IsWell :
    (c : ChatClient) (s : RoomSession) (peers : List Bytes)
    → IsArmed s
    → IsWell c
    → IsWell (forgotten c s peers)
forgotten-IsWell c s [] a w = w
forgotten-IsWell c s (peer ∷ peers) a w = publish_verified-IsWell _ (record {
  tracked = record {
    armed =
        with_session-Armed c (forget_all s (peer ∷ peers)) w.tracked.armed
          (forget_all-IsArmed s (peer ∷ peers) a);
    few_mismatched = w.tracked.few_mismatched;
    few_pending =
        omega (arith, length-remove_all c.pending_keys (peer ∷ peers), w.tracked.few_pending);
  };
  few_deferred = w.few_deferred;
})

forget_absent_from-IsWell :
    (c : ChatClient) (k : RoomCipher) (users : Option Json)
    → cipher c ≡ k
    → IsWell c
    → IsWell (forget_absent_from c k users)
forget_absent_from-IsWell c (room_cipher s) (some (array users)) e w =
    forgotten-IsWell c s (absent_peers (texts_of users) c.peer_users)
      (cipher-IsArmed c s w.tracked.armed e) w
forget_absent_from-IsWell c (room_cipher s) (some null) e w = w
forget_absent_from-IsWell c (room_cipher s) (some (boolean b)) e w = w
forget_absent_from-IsWell c (room_cipher s) (some (number n)) e w = w
forget_absent_from-IsWell c (room_cipher s) (some (string t)) e w = w
forget_absent_from-IsWell c (room_cipher s) (some (object fs)) e w = w
forget_absent_from-IsWell c (room_cipher s) none e w = w
forget_absent_from-IsWell c null_cipher users e w = w

without_peers-IsTracked :
    (c : ChatClient) (k : RoomCipher) → cipher c ≡ k → IsTracked c → IsTracked (without_peers c k)
without_peers-IsTracked c null_cipher e t = t
without_peers-IsTracked c (room_cipher s) e t =
    let peers = keys c.peer_users in
    with_session-IsTracked c (forget_all s peers) t
      (forget_all-IsArmed s peers (cipher-IsArmed c s t.armed e))

drop_all_peers-IsWell : (c : ChatClient) → IsWell c → IsWell (drop_all_peers c)
unfolding drop_all_peers
drop_all_peers-IsWell c w =
    let t = without_peers-IsTracked c (cipher c) refl w.tracked in
    record {
      tracked = record { armed = t.armed; few_mismatched = omega arith; few_pending = omega arith };
      few_deferred = omega arith;
    }

pub disconnect-IsWell : (c : ChatClient) → IsWell c → IsWell (disconnect c)
unfolding disconnect drop_all_peers get
disconnect-IsWell c w = record {
  tracked = record {
    armed = λ key s e. cc;
    few_mismatched = omega arith;
    few_pending = omega arith;
  };
  few_deferred = omega arith;
}

renamed-IsWell : (c : ChatClient) (name : Option Text) → IsWell c → IsWell (renamed c name)
renamed-IsWell c none w = w
renamed-IsWell c (some []) w = w
renamed-IsWell c (some (d ∷ ds)) w = record {
  tracked = record {
    armed = w.tracked.armed;
    few_mismatched = w.tracked.few_mismatched;
    few_pending = w.tracked.few_pending;
  };
  few_deferred = w.few_deferred;
}

-- A sender key of the right length.
abbrev pub IsFresh : Fresh → Type 0
IsFresh fresh = length fresh.sender_key ≡ sender_key_bytes

module _ (lib : KeyLibrary) (sound : IsSound lib) where
  new-IsArmed :
      (fresh : Fresh) (room password : Text) (s : RoomSession)
      → IsFresh fresh
      → new lib room password fresh.own fresh.sender_key ≡ ok s
      → IsArmed s
  unfolding pair_psk
  new-IsArmed fresh room password s f e =
      let (_, master, psk, shared, is) =
        new-opened lib room password fresh.own fresh.sender_key s e in
      let sized : length psk ≡ pair_psk_bytes = elim (Bool-cases (lib.encodes room)) [
        | inr surrogate ↦ let g = simp surrogate at shared in absurd (cc)
        | inl encodes ↦
            let same = ok_injective (simp encodes at shared) in rw (← same) (sound.hmac_length _ _)
      ] in
      rw is (sized, f)

  as_room_cipher-IsArmed :
      (fresh : Fresh) (room password : Text) (r : Result KeyError RoomSession) (s : RoomSession)
      → IsFresh fresh
      → new lib room password fresh.own fresh.sender_key ≡ r
      → as_room_cipher lib r ≡ ok (room_cipher s)
      → IsArmed s
  as_room_cipher-IsArmed fresh room password (ok t) s f made e =
      let same : s ≡ t = cc in rw same (new-IsArmed fresh room password t f made)
  as_room_cipher-IsArmed fresh room password (err x) s f made e = absurd (cc)

  new_cipher-IsArmed :
      (fresh : Fresh) (room password : Text) (s : RoomSession)
      → IsFresh fresh
      → new_cipher lib fresh room password ≡ ok (room_cipher s)
      → IsArmed s
  new_cipher-IsArmed fresh room [] s f e = absurd (cc)
  new_cipher-IsArmed fresh room (c ∷ cs) s f e =
      as_room_cipher-IsArmed fresh room (c ∷ cs) _ s f refl e

  pub cipher_for-Armed :
      (fresh : Fresh) (c : ChatClient) (room : Text) (ciphers : Dict Text RoomCipher)
      → IsFresh fresh
      → Armed c.ciphers
      → cipher_for lib fresh c room ≡ ok ciphers
      → Armed ciphers
  unfolding cipher_for
  cipher_for-Armed fresh c room ciphers f armed e =
      let key : Text = lib.normalize_room room in
      elim (Bool-cases (contains c.ciphers key)) [
        | inl there ↦ let same = ok_injective (rw (there, cipher_for) at e) in rw (← same) armed
        | inr absent ↦ elim (Result-cases (new_cipher lib fresh room c.room_password)) [
          | inr (x, bad) ↦ let g = rw (absent, bad, cipher_for) at e in absurd (cc)
          | inl (k, made) ↦
              let same = ok_injective (rw (absent, made, cipher_for) at e) in
              rw (← same) (
                put-Armed c.ciphers key k armed
                  (λ s is. new_cipher-IsArmed fresh room c.room_password s f (made ∙ ap ok is)))
        ]
      ]

  pub entering-IsWell :
      (c : ChatClient) (room : Text) (r : Result KeyError (Dict Text RoomCipher))
      → ((ciphers : Dict Text RoomCipher) → r ≡ ok ciphers → Armed ciphers)
      → IsWell c
      → IsWell (entering lib c room r).0
  entering-IsWell c room (ok ciphers) armed w = record {
    tracked = record {
      armed = armed ciphers refl;
      few_mismatched = w.tracked.few_mismatched;
      few_pending = w.tracked.few_pending;
    };
    few_deferred = w.few_deferred;
  }
  entering-IsWell c room (err e) armed w = record {
    tracked = record {
      armed = w.tracked.armed;
      few_mismatched = w.tracked.few_mismatched;
      few_pending = w.tracked.few_pending;
    };
    few_deferred = w.few_deferred;
  }

  pub entered-IsWell :
      (fresh : Fresh) (c : ChatClient) (room : Text)
      → IsFresh fresh
      → IsWell c
      → IsWell (entered lib fresh c room).0
  entered-IsWell fresh c room f w =
      entering-IsWell c room (cipher_for lib fresh c room)
        (λ ciphers e. cipher_for-Armed fresh c room ciphers f w.tracked.armed e) w

  new-Enters :
      (room password : Text) (own sender_key : Bytes)
      → Enters lib room password (new lib room password own sender_key)
  unfolding new derive_master_key pair_psk
  new-Enters room password own sender_key =
      elim (Bool-cases (lib.encodes (lib.normalize_room room))) [
        | inr bad ↦ refused (lib.normalize_room room) (inr (inl refl)) bad (simp bad refl)
        | inl named ↦ elim (Bool-cases (lib.encodes password)) [
          | inr bad ↦ refused password (inr (inr refl)) bad (simp (named, bad) refl)
          | inl secret ↦ elim (Bool-cases (lib.encodes room)) [
            | inr bad ↦ refused room (inl refl) bad (simp (named, secret, bad) refl)
            | inl good ↦ rw (named, secret, good, new) (enters _ refl)
          ]
        ]
      ]

  as_room_cipher-Enters :
      (room password : Text) (r : Result KeyError RoomSession)
      → Enters lib room password r
      → Enters lib room password (as_room_cipher lib r)
  as_room_cipher-Enters room password r (enters s is) = rw is (enters (room_cipher s) refl)
  as_room_cipher-Enters room password r (refused t where_it_is bad is) =
      rw is (refused t where_it_is bad refl)

  new_cipher-Enters :
      (fresh : Fresh) (room password : Text)
      → Enters lib room password (new_cipher lib fresh room password)
  new_cipher-Enters fresh room [] = enters null_cipher refl
  new_cipher-Enters fresh room (c ∷ cs) =
      as_room_cipher-Enters room (c ∷ cs) _ (new-Enters room (c ∷ cs) fresh.own fresh.sender_key)

  pub cipher_for-Enters :
      (fresh : Fresh) (c : ChatClient) (room : Text)
      → Enters lib room c.room_password (cipher_for lib fresh c room)
  unfolding cipher_for
  cipher_for-Enters fresh c room =
      elim (Bool-cases (contains c.ciphers (lib.normalize_room room))) [
        | inl there ↦ rw (there, cipher_for) (enters c.ciphers refl)
        | inr absent ↦ elim (new_cipher-Enters fresh room c.room_password) [
          | enters k is ↦ rw (absent, is, cipher_for) (enters _ refl)
          | refused t where_it_is bad is ↦
              rw (absent, is, cipher_for) (refused t where_it_is bad refl)
        ]
      ]

  entering-Enters :
      (c : ChatClient) (room : Text) (r : Result KeyError (Dict Text RoomCipher))
      → Enters lib room c.room_password r
      → let out = entering lib c room r in Enters lib out.0.room out.0.room_password out.1
  entering-Enters c room r (enters ciphers is) = rw is (enters tt refl)
  entering-Enters c room r (refused t where_it_is bad is) = rw is (refused t where_it_is bad refl)

  moved-IsSafe :
      (fresh : Fresh) (c : ChatClient) (room : Option Text)
      → IsFresh fresh
      → IsWell c
      → IsSafe lib (moved lib fresh c room)
  unfolding moved
  moved-IsSafe fresh c none f w = (w, enters tt refl)
  moved-IsSafe fresh c (some room) f w =
      let d = drop_all_peers c in
      if-IsSafe lib (is_named room && not (room == c.room)) _ _
        (
          entered-IsWell fresh d room f (drop_all_peers-IsWell c w),
          entering-Enters d room (cipher_for lib fresh d room) (cipher_for-Enters fresh d room),
        )
        (w, enters tt refl)

  offer_of-IsSafe : (c : ChatClient) (k : RoomCipher) → IsWell c → IsSafe lib (offer_of lib c k)
  offer_of-IsSafe c null_cipher w = (w, enters tt refl)
  offer_of-IsSafe c (room_cipher s) w =
      let (made, is) = offer-Raises lib s sound in rw is (send_key_packet-IsSafe lib c _ _ w)

  send_offer-IsSafe : (c : ChatClient) → IsWell c → IsSafe lib (send_offer lib c)
  unfolding send_offer
  send_offer-IsSafe c w = offer_of-IsSafe c (cipher c) w

  offer_after-IsSafe :
      (out : ChatClient × Result KeyError (Unit {0}))
      → IsSafe lib out
      → IsSafe lib (offer_after lib out)
  offer_after-IsSafe (c, r) (w, enters u is) = rw is (send_offer-IsSafe c w)
  offer_after-IsSafe (c, r) (w, refused t where_it_is bad is) =
      rw is (w, refused t where_it_is bad refl)

  pub absorb_session_state-IsSafe :
      (fresh : Fresh) (c : ChatClient) (packet : Fields)
      → IsFresh fresh
      → IsWell c
      → IsSafe lib (absorb_session_state lib fresh c packet)
  unfolding absorb_session_state forget_absent_peers
  absorb_session_state-IsSafe fresh c packet f w =
      if-IsSafe lib (has_type packet (text "room_snapshot")) _ _
        (send_offer-IsSafe _
          (forget_absent_from-IsWell c (cipher c) (get_field packet (text "users")) refl w))
        (if-IsSafe lib (not (has_type packet (text "joined"))) _ _ (w, enters tt refl)
          (offer_after-IsSafe _ (
            moved-IsSafe fresh (renamed c (text_field packet (text "user")))
              (text_field packet (text "room")) f
              (renamed-IsWell c (text_field packet (text "user")) w))))
