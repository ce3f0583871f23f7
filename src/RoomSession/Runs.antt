-- ===== src/RoomSession/Runs.antt =====
-- core/room_session.py over any history of packets, and whose keys a call can touch.
use proxy_net.Prelude.{
  ◌≡◌, ◌≢◌, refl, inl, inr, List, [], ◌∷◌, ◌++◌, false, Option, none, some, arith, Bool-cases,
  Option-cases, Result, ok, err, Result-cases, Text, ◌==◌, ==_iff, text_eq, ap, sym, ok_injective,
}
use proxy_net.Bytes.{Bytes}
use proxy_net.Dict.{get, put}
use proxy_net.Dict.Laws.{get-put, put-Distinct}
use proxy_net.KeyAgreement.{
  KeyLibrary, KeyError, verify_offer, pair_key, unwrap_sender_key, unknown_sender_key,
  sender_key_error, derive_master_key, pair_psk,
}
use proxy_net.KeyAgreement.Agreement.{pair_key-not_own}
use proxy_net.RoomSession.{
  RoomSession, key_id, new, opened_with, accept_offer, wrapped_for, accept_sender_key, accept_key,
  store_key, is_taken, forget_peer, first_sight, is_seen, head, trimmed,
}
use proxy_net.RoomSession.Tables.{
  IsValid, store_key-IsValid, forget_peer-IsValid, get-taken, get-without_id, is_id, is_id_iff,
  not_taken,
}

-- What reaches the session: an offer with the nonce to wrap for it, a wrapped key, a departure, or
-- a message that opened.
pub data Call : Type 0 where
  offers : (nonce peer mac : Bytes) → Call
  keys : (peer wrapped : Bytes) → Call
  departs : Bytes → Call
  sees : Text → Call

-- The peer whose key a call may store or drop.
abbrev pub concerns : Call → Option Bytes
concerns (offers nonce peer mac) = none
concerns (keys peer wrapped) = some peer
concerns (departs peer) = some peer
concerns (sees token) = none

abbrev pub Keeps : RoomSession → RoomSession → Bytes → Type 0
Keeps s t i = (get t.holders i ≡ get s.holders i) × (get t.by_id i ≡ get s.by_id i)

module _ (lib : KeyLibrary) where
  unfoldable pub step : RoomSession → Call → RoomSession
  step s (offers nonce peer mac) = (accept_offer lib s nonce peer mac).0
  step s (keys peer wrapped) = (accept_sender_key lib s peer wrapped).0
  step s (departs peer) = forget_peer s peer
  step s (sees token) = (first_sight lib s token).0

  paired-IsValid :
      (s : RoomSession) (peer pair : Bytes)
      → (peer == lib.public_of s.own) ≡ false
      → IsValid lib s
      → IsValid lib (record s { pairs = put s.pairs peer pair })
  paired-IsValid s peer pair apart v = record {
    by_id_distinct = v.by_id_distinct;
    holders_distinct = v.holders_distinct;
    peer_ids_distinct = v.peer_ids_distinct;
    pairs_distinct = put-Distinct s.pairs peer pair v.pairs_distinct;
    own_unpaired = ground (arith, get-put s.pairs peer (lib.public_of s.own) pair, v.own_unpaired);
    own_unkeyed = v.own_unkeyed;
    own_key = v.own_key;
    own_holder = v.own_holder;
    peer_holds = v.peer_holds;
    held = v.held;
    names = v.names;
    keyed = v.keyed;
  }

  seen-IsValid :
      (s : RoomSession) (seen : List Bytes) → IsValid lib s → IsValid lib (record s { seen = seen })
  seen-IsValid s seen v = record {
    by_id_distinct = v.by_id_distinct;
    holders_distinct = v.holders_distinct;
    peer_ids_distinct = v.peer_ids_distinct;
    pairs_distinct = v.pairs_distinct;
    own_unpaired = v.own_unpaired;
    own_unkeyed = v.own_unkeyed;
    own_key = v.own_key;
    own_holder = v.own_holder;
    peer_holds = v.peer_holds;
    held = v.held;
    names = v.names;
    keyed = v.keyed;
  }

  -- What an offer leads to.
  pub data Offered (s : RoomSession) (nonce peer : Bytes)
      (out : RoomSession × Result KeyError Bytes) : Type 0 where
    refused : (e : KeyError) → out ≡ (s, err e) → Offered s nonce peer out
    paired :
        (pair : Bytes)
        → pair_key lib s.own peer s.psk ≡ ok pair
        → out ≡ wrapped_for lib s nonce peer pair
        → Offered s nonce peer out

  pub accept_offer-Offered :
      (s : RoomSession) (nonce peer mac : Bytes)
      → Offered s nonce peer (accept_offer lib s nonce peer mac)
  unfolding accept_offer
  accept_offer-Offered s nonce peer mac =
      elim (Result-cases (verify_offer lib peer mac s.master s.room)) [
        | inr (e, bad) ↦ rw (bad, accept_offer) (refused e refl)
        | inl (u, verified) ↦ elim (Result-cases (pair_key lib s.own peer s.psk)) [
          | inr (e, bad) ↦ rw (verified, bad, accept_offer) (refused e refl)
          | inl (pair, agreed) ↦ rw (verified, agreed, accept_offer) (paired pair agreed refl)
        ]
      ]

  -- What a wrapped key leads to.
  pub data Keyed (s : RoomSession) (peer wrapped : Bytes)
      (out : RoomSession × Result KeyError Bytes) : Type 0 where
    unread : (e : KeyError) → out ≡ (s, err e) → Keyed s peer wrapped out
    stored :
        (pair key : Bytes)
        → get s.pairs peer ≡ some pair
        → unwrap_sender_key lib pair wrapped ≡ ok key
        → is_taken (get s.holders (key_id lib key)) peer ≡ false
        → out ≡ (store_key s peer (key_id lib key) key, ok (key_id lib key))
        → Keyed s peer wrapped out

  pub accept_sender_key-Keyed :
      (s : RoomSession) (peer wrapped : Bytes)
      → Keyed s peer wrapped (accept_sender_key lib s peer wrapped)
  unfolding accept_sender_key accept_key
  accept_sender_key-Keyed s peer wrapped = elim (Option-cases (get s.pairs peer)) [
    | inl absent ↦ rw (absent, accept_sender_key) (unread unknown_sender_key refl)
    | inr (pair, known) ↦ elim (Result-cases (unwrap_sender_key lib pair wrapped)) [
      | inr (e, bad) ↦ rw (known, bad, accept_sender_key) (unread e refl)
      | inl (key, opened) ↦ elim (Bool-cases (is_taken (get s.holders (key_id lib key)) peer)) [
        | inl taken ↦
            rw (known, opened, taken, accept_sender_key, accept_key) (unread sender_key_error refl)
        | inr free ↦
            rw (known, opened, free, accept_sender_key, accept_key)
              (stored pair key known opened free refl)
      ]
    ]
  ]

  accept_offer-IsValid :
      (s : RoomSession) (nonce peer mac : Bytes)
      → IsValid lib s
      → IsValid lib (accept_offer lib s nonce peer mac).0
  accept_offer-IsValid s nonce peer mac v =
      from_outcome (accept_offer lib s nonce peer mac) (accept_offer-Offered s nonce peer mac)
    where
      from_outcome :
          (out : RoomSession × Result KeyError Bytes) → Offered s nonce peer out → IsValid lib out.0
      from_outcome out (refused e is) = rw is v
      from_outcome out (paired pair agreed is) =
          rw is (paired-IsValid s peer pair (pair_key-not_own lib s.own peer s.psk pair agreed) v)

  accept_sender_key-IsValid :
      (s : RoomSession) (peer wrapped : Bytes)
      → IsValid lib s
      → IsValid lib (accept_sender_key lib s peer wrapped).0
  accept_sender_key-IsValid s peer wrapped v =
      from_outcome (accept_sender_key lib s peer wrapped) (accept_sender_key-Keyed s peer wrapped)
    where
      from_outcome :
          (out : RoomSession × Result KeyError Bytes) → Keyed s peer wrapped out → IsValid lib out.0
      from_outcome out (unread e is) = rw is v
      from_outcome out (stored pair key known opened free is) =
          rw is
            (store_key-IsValid lib s peer key v (λ f. ground (arith, v.own_unpaired, known)) free)

  first_sight-IsValid :
      (s : RoomSession) (token : Text) → IsValid lib s → IsValid lib (first_sight lib s token).0
  unfolding first_sight
  first_sight-IsValid s token v = elim (Option-cases (head lib token)) [
    | inl malformed ↦ rw (malformed, first_sight) v
    | inr (h, read) ↦ elim (Bool-cases (is_seen h s.seen)) [
      | inl again ↦ rw (read, again, first_sight) v
      | inr anew ↦ rw (read, anew, first_sight) (seen-IsValid s (trimmed (s.seen ++ h ∷ [])) v)
    ]
  ]

  step-IsValid : (s : RoomSession) (call : Call) → IsValid lib s → IsValid lib (step s call)
  unfolding step
  step-IsValid s (offers nonce peer mac) v = accept_offer-IsValid s nonce peer mac v
  step-IsValid s (keys peer wrapped) v = accept_sender_key-IsValid s peer wrapped v
  step-IsValid s (departs peer) v = forget_peer-IsValid lib s peer v
  step-IsValid s (sees token) v = first_sight-IsValid s token v

  -- What the constructor made, where it came to its end.
  pub new-opened :
      (room password : Text) (own sender_key : Bytes) (s : RoomSession)
      → new lib room password own sender_key ≡ ok s
      → (aad : Bytes) × (master : Bytes) × (psk : Bytes) × (pair_psk lib master room ≡ ok psk)
        × (s ≡ opened_with lib room aad master psk own sender_key)
  unfolding new
  new-opened room password own sender_key s e =
      elim (Bool-cases (lib.encodes (lib.normalize_room room))) [
        | inr surrogate ↦ let f = simp surrogate at e in absurd (cc)
        | inl encodes ↦ elim (Result-cases (derive_master_key lib room password)) [
          | inr (x, bad) ↦ let f = simp (encodes, bad) at e in absurd (cc)
          | inl (master, derived) ↦ elim (Result-cases (pair_psk lib master room)) [
            | inr (x, bad) ↦ let f = simp (encodes, derived, bad) at e in absurd (cc)
            | inl (psk, shared) ↦
                (_, master, psk, shared, sym (ok_injective (simp (encodes, derived, shared) at e)))
          ]
        ]
      ]

  opened_with-IsValid :
      (room : Text) (aad master psk own sender_key : Bytes)
      → IsValid lib (opened_with lib room aad master psk own sender_key)
  unfolding get
  opened_with-IsValid room aad master psk own sender_key =
      let mine : Bytes = key_id lib sender_key in
      record {
        by_id_distinct = (refl, tt);
        holders_distinct = (refl, tt);
        peer_ids_distinct = tt;
        pairs_distinct = tt;
        own_unpaired = refl;
        own_unkeyed = refl;
        own_key = ground (arith, ==_iff mine mine);
        own_holder = ground (arith, ==_iff mine mine);
        peer_holds = λ p i e. cc;
        held = λ i p e. inl (ground arith, ground (arith, ==_iff mine i));
        names = λ i k e. (ground (arith, ==_iff mine i), λ f. ground (arith, ==_iff mine i));
        keyed = λ i e f. e (ground (arith, ==_iff mine i));
      }

  pub new-IsValid :
      (room password : Text) (own sender_key : Bytes) (s : RoomSession)
      → new lib room password own sender_key ≡ ok s
      → IsValid lib s
  new-IsValid room password own sender_key s e =
      let (aad, master, psk, _, is) = new-opened room password own sender_key s e in
      rw is (opened_with-IsValid room aad master psk own sender_key)

  unfoldable pub run : RoomSession → List Call → RoomSession
  run s [] = s
  run s (call ∷ calls) = run (step s call) calls

  pub session_run_from-IsValid :
      (s : RoomSession) (calls : List Call) → IsValid lib s → IsValid lib (run s calls)
  unfolding run
  session_run_from-IsValid s [] v = v
  session_run_from-IsValid s (call ∷ calls) v =
      session_run_from-IsValid (step s call) calls (step-IsValid s call v)

  -- After any history of offers, wrapped keys, departures and messages, genuine or not, the tables
  -- of a session that the constructor made agree: the own key stands under its id, held by the own public key; each peer's id
  -- is held by that peer alone; and every id that is held names one key that has that id.
  pub session_run-IsValid :
      (room password : Text) (own sender_key : Bytes) (s : RoomSession) (calls : List Call)
      → new lib room password own sender_key ≡ ok s
      → IsValid lib (run s calls)
  session_run-IsValid room password own sender_key s calls made =
      session_run_from-IsValid s calls (new-IsValid room password own sender_key s made)

  store_key-Keeps :
      (s : RoomSession) (peer key i p : Bytes)
      → IsValid lib s
      → is_taken (get s.holders (key_id lib key)) peer ≡ false
      → get s.holders i ≡ some p
      → p ≢ peer
      → Keeps s (store_key s peer (key_id lib key) key) i
  unfolding store_key
  store_key-Keeps s peer key i p v free holds apart =
      let ident : Bytes = key_id lib key in
      let previous : Option Bytes = get s.peer_ids peer in
      let other : (ident == i) ≡ false =
        ground (arith, not_taken (get s.holders ident) peer p free, ==_iff ident i) in
      let not_previous : is_id previous i ≡ false =
        ground (arith, is_id_iff previous i, v.peer_holds peer i) in
      (
        ground (arith, get-taken s.holders previous ident peer i v.holders_distinct),
        ground (arith, get-taken s.by_id previous ident key i v.by_id_distinct),
      )

  forget_peer-Keeps :
      (s : RoomSession) (peer i p : Bytes)
      → IsValid lib s
      → get s.holders i ≡ some p
      → p ≢ peer
      → Keeps s (forget_peer s peer) i
  unfolding forget_peer
  forget_peer-Keeps s peer i p v holds apart =
      let o : Option Bytes = get s.peer_ids peer in
      let not_previous : is_id o i ≡ false = ground (arith, is_id_iff o i, v.peer_holds peer i) in
      (
        ground (arith, get-without_id s.holders o i v.holders_distinct),
        ground (arith, get-without_id s.by_id o i v.by_id_distinct),
      )

  first_sight-Keeps :
      (s : RoomSession) (token : Text) (i : Bytes) → Keeps s (first_sight lib s token).0 i
  unfolding first_sight
  first_sight-Keeps s token i = elim (Option-cases (head lib token)) [
    | inl malformed ↦ rw (malformed, first_sight) (refl, refl)
    | inr (h, read) ↦ elim (Bool-cases (is_seen h s.seen)) [
      | inl again ↦ rw (read, again, first_sight) (refl, refl)
      | inr anew ↦ rw (read, anew, first_sight) (refl, refl)
    ]
  ]

  -- In a valid session, whatever a peer sends, and also where it leaves, an id that someone else
  -- holds stays with its holder, and goes on naming the same key.
  pub step-Keeps :
      (s : RoomSession) (call : Call) (i p : Bytes)
      → IsValid lib s
      → get s.holders i ≡ some p
      → concerns call ≢ some p
      → Keeps s (step s call) i
  unfolding step
  step-Keeps s (offers nonce peer mac) i p v holds apart =
      from_outcome (accept_offer lib s nonce peer mac) (accept_offer-Offered s nonce peer mac)
    where
      from_outcome :
          (out : RoomSession × Result KeyError Bytes) → Offered s nonce peer out → Keeps s out.0 i
      from_outcome out (refused e is) = rw is (refl, refl)
      from_outcome out (paired pair agreed is) = rw is (refl, refl)
  step-Keeps s (keys peer wrapped) i p v holds apart =
      from_outcome (accept_sender_key lib s peer wrapped) (accept_sender_key-Keyed s peer wrapped)
    where
      from_outcome :
          (out : RoomSession × Result KeyError Bytes) → Keyed s peer wrapped out → Keeps s out.0 i
      from_outcome out (unread e is) = rw is (refl, refl)
      from_outcome out (stored pair key known opened free is) =
          rw is (store_key-Keeps s peer key i p v free holds (λ e. apart (ap some (sym e))))
  step-Keeps s (departs peer) i p v holds apart =
      forget_peer-Keeps s peer i p v holds (λ e. apart (ap some (sym e)))
  step-Keeps s (sees token) i p v holds apart = first_sight-Keeps s token i
