-- ===== src/Client/Outcomes.antt =====
-- Which exceptions the calls of core/room_session.py that the client makes can raise, and what they
-- leave as it was.
use proxy_net.Prelude.{
  ◌≡◌, refl, inl, inr, Bool, true, false, not, Option, none, some, eqb, ltb, length, take, drop,
  eqb_iff, Bool-cases, Option-cases, Result, ok, err, ◌>>=◌, guard, Text, ◌==◌, text_eq,
}
use proxy_net.Bytes.{Bytes}
use proxy_net.Dict.{get, put}
use proxy_net.KeyAgreement.{
  KeyLibrary, KeyError, offer_error, sender_key_error, unknown_sender_key, check_public, offer_mac,
  verify_offer, pair_key, wrap_sender_key, unwrap_sender_key, or_raise_key, public_key_bytes,
  offer_mac_bytes, sender_key_bytes, pair_psk_bytes, wrap_nonce_bytes, sender_key_wrap_info,
}
use proxy_net.KeyAgreement.Agreement.{IsSound}
use proxy_net.RoomSession.{
  RoomSession, key_id, offer, accept_offer, accept_sender_key, accept_key, is_taken, store_key,
}

-- A result that has no other error than this one.
pub data Raises {A : Type 0} (e : KeyError) (r : Result KeyError A) : Type 0 where
  returns : (a : A) → r ≡ ok a → Raises e r
  raises : r ≡ err e → Raises e r

bind-Raises :
    {A B : Type 0} (e : KeyError) (m : Result KeyError A) (f : A → Result KeyError B)
    → Raises e m
    → ((a : A) → Raises e (f a))
    → Raises e (m >>= f)
bind-Raises e m f (returns a is) k = rw is (k a)
bind-Raises e m f (raises is) k = rw is (raises refl)

guard-Raises : (e : KeyError) (b : Bool) → Raises e (guard b e)
guard-Raises e true = returns tt refl
guard-Raises e false = raises refl

or_raise_key-Raises : {A : Type 0} (e : KeyError) (o : Option A) → Raises e (or_raise_key o e)
or_raise_key-Raises e none = raises refl
or_raise_key-Raises e (some a) = returns a refl

-- The keys of a session have the lengths that its calls check.
abbrev pub IsArmed : RoomSession → Type 0
IsArmed s = (length s.psk ≡ pair_psk_bytes) × (length s.sender_key ≡ sender_key_bytes)

module _ (lib : KeyLibrary) where
  offer_mac-Raises :
      (public_key master : Bytes) (room : Text)
      → Raises offer_error (offer_mac lib public_key master room)
  unfolding offer_mac
  offer_mac-Raises public_key master room =
      bind-Raises offer_error (check_public public_key) _ (guard-Raises offer_error _)
        (λ a. returns _ refl)

  verify_offer-Raises :
      (public_key mac master : Bytes) (room : Text)
      → Raises offer_error (verify_offer lib public_key mac master room)
  unfolding verify_offer
  verify_offer-Raises public_key mac master room =
      bind-Raises offer_error _ _
        (guard-Raises offer_error (eqb (length public_key) public_key_bytes))
        (λ _.
          bind-Raises offer_error _ _ (guard-Raises offer_error (eqb (length mac) offer_mac_bytes))
            (λ _.
              bind-Raises offer_error _ _ (offer_mac-Raises public_key master room)
                (λ expected. guard-Raises offer_error (mac == expected))))

  pair_key-Raises :
      (own peer psk : Bytes)
      → length psk ≡ pair_psk_bytes
      → Raises offer_error (pair_key lib own peer psk)
  unfolding pair_key
  pair_key-Raises own peer psk e =
      let full : eqb (length psk) pair_psk_bytes ≡ true =
        (eqb_iff (length psk) pair_psk_bytes).1 e in
      rw full (
        bind-Raises offer_error _ _ (guard-Raises offer_error (eqb (length peer) public_key_bytes))
          (λ _.
            bind-Raises offer_error _ _ (guard-Raises offer_error (not (peer == lib.public_of own)))
              (λ _.
                bind-Raises offer_error _ _
                  (or_raise_key-Raises offer_error (lib.exchange own peer))
                  (λ shared. returns _ refl))))

  unwrap_sender_key-Raises :
      (pair wrapped : Bytes) → Raises sender_key_error (unwrap_sender_key lib pair wrapped)
  unfolding unwrap_sender_key
  unwrap_sender_key-Raises pair wrapped =
      bind-Raises sender_key_error _ _
        (guard-Raises sender_key_error (ltb wrap_nonce_bytes (length wrapped)))
        (λ _.
          bind-Raises sender_key_error _ _
            (or_raise_key-Raises sender_key_error (
              lib.decrypt pair (take wrap_nonce_bytes wrapped) (drop wrap_nonce_bytes wrapped)
                sender_key_wrap_info))
            (λ opened.
              bind-Raises sender_key_error _ _
                (guard-Raises sender_key_error (eqb (length opened) sender_key_bytes))
                (λ _. returns opened refl)))

  -- What an offer leads to.
  pub data OfferOutcome (s : RoomSession) (peer : Bytes) (out : RoomSession × Result KeyError Bytes)
      : Type 0 where
    rejected : out ≡ (s, err offer_error) → OfferOutcome s peer out
    agreed :
        (pair wrapped : Bytes)
        → out ≡ (record s { pairs = put s.pairs peer pair }, ok wrapped)
        → OfferOutcome s peer out

  pub accept_offer-OfferOutcome :
      (s : RoomSession) (nonce peer mac : Bytes)
      → IsArmed s
      → OfferOutcome s peer (accept_offer lib s nonce peer mac)
  unfolding accept_offer wrap_sender_key
  accept_offer-OfferOutcome s nonce peer mac (psk_length, key_length) =
      let full : eqb (length s.sender_key) sender_key_bytes ≡ true =
        (eqb_iff (length s.sender_key) sender_key_bytes).1 key_length in
      elim (verify_offer-Raises peer mac s.master s.room) [
        | raises bad ↦ rw (bad, accept_offer) (rejected refl)
        | returns u verified ↦ elim (pair_key-Raises s.own peer s.psk psk_length) [
          | raises bad ↦ rw (verified, bad, accept_offer) (rejected refl)
          | returns pair paired ↦
              rw (verified, paired, accept_offer, wrap_sender_key, full) (agreed pair _ refl)
        ]
      ]

  -- What a wrapped key leads to.
  pub data KeyOutcome (s : RoomSession) (peer : Bytes) (out : RoomSession × Result KeyError Bytes)
      : Type 0 where
    unknown : get s.pairs peer ≡ none → out ≡ (s, err unknown_sender_key) → KeyOutcome s peer out
    unopened : out ≡ (s, err sender_key_error) → KeyOutcome s peer out
    stored :
        (key : Bytes)
        → out ≡ (store_key s peer (key_id lib key) key, ok (key_id lib key))
        → KeyOutcome s peer out

  pub accept_sender_key-KeyOutcome :
      (s : RoomSession) (peer wrapped : Bytes)
      → KeyOutcome s peer (accept_sender_key lib s peer wrapped)
  unfolding accept_sender_key accept_key
  accept_sender_key-KeyOutcome s peer wrapped = elim (Option-cases (get s.pairs peer)) [
    | inl absent ↦ rw (absent, accept_sender_key) (unknown absent refl)
    | inr (pair, known) ↦ elim (unwrap_sender_key-Raises pair wrapped) [
      | raises bad ↦ rw (known, bad, accept_sender_key) (unopened refl)
      | returns key opened ↦ elim (Bool-cases (is_taken (get s.holders (key_id lib key)) peer)) [
        | inl taken ↦ rw (known, opened, taken, accept_sender_key, accept_key) (unopened refl)
        | inr free ↦ rw (known, opened, free, accept_sender_key, accept_key) (stored key refl)
      ]
    ]
  ]

  -- An offer of one's own is made where the library's public keys have their length.
  pub offer-Raises :
      (s : RoomSession) → IsSound lib → (made : Bytes × Bytes) × (offer lib s ≡ ok made)
  unfolding offer offer_mac
  offer-Raises s sound =
      let full : eqb (length (lib.public_of s.own)) public_key_bytes ≡ true =
        (eqb_iff (length (lib.public_of s.own)) public_key_bytes).1 (sound.public_length s.own) in
      rw (offer, offer_mac, full) (_, refl)
