-- ===== src/RoomSession/Reading.antt =====
-- core/room_session.py: after the handshake a peer reads what is written, and knows whose it is.
use proxy_net.Prelude.{
  ◌+◌, ◌≤◌, ◌<◌, ◌≡◌, ◌≢◌, refl, inl, inr, [], ◌∷◌, ◌++◌, true, false, some, ltb, leb, length, take,
  drop, take-append, drop-append, length-append, append_assoc, lt→ltb, lt→leb_false, arith, Result,
  Result-cases, Bool-cases, ok, ok_injective, Text, ◌==◌, ==_iff, text_eq, ap, sym, ◌∙◌,
}
use proxy_net.Bytes.{Bytes}
use proxy_net.Dict.{get, put}
use proxy_net.Dict.Laws.{get-put}
use proxy_net.Padding.{pad, max_plaintext_bytes}
use proxy_net.Padding.RoundTrip.{unpad-pad}
use proxy_net.KeyAgreement.{
  KeyLibrary, KeyError, offer_mac, verify_offer, pair_key, wrap_sender_key, unwrap_sender_key,
  public_key_bytes, sender_key_bytes, wrap_nonce_bytes, pair_psk_bytes, offer_mac_context,
  joined_sorted, pair_key_info, sender_key_wrap_info,
}
use proxy_net.KeyAgreement.Agreement.{IsSound, pair_key_comm, unwrap-wrap}
use proxy_net.RoomSession.{
  RoomSession, key_id, key_id_info, key_id_bytes, nonce_bytes, encrypt, decrypt, key_owner, head,
  offer, accept_offer, accept_sender_key, accept_key, store_key, wrapped_for, without_previous,
  is_taken,
}

module _ (lib : KeyLibrary) (sound : IsSound lib) where
  -- The bytes behind a token.
  abbrev sealed : RoomSession → Bytes → Bytes → Bytes
  sealed s nonce padded =
      key_id lib s.sender_key ++ (nonce ++ lib.encrypt s.sender_key nonce padded s.aad)

  encrypt-sealed :
      (s : RoomSession) (nonce : Bytes) (plaintext token : Text)
      → encrypt lib s nonce plaintext ≡ ok token
      → (padded : Bytes) × (pad (lib.to_utf8 plaintext) ≡ ok padded)
        × (token ≡ lib.to_base64 (sealed s nonce padded))
  unfolding encrypt
  encrypt-sealed s nonce plaintext token e = elim (Bool-cases (lib.encodes plaintext)) [
    | inr surrogate ↦ let f = simp surrogate at e in absurd (cc)
    | inl encodes ↦ elim (Result-cases (pad (lib.to_utf8 plaintext))) [
      | inr (x, bad) ↦ let f = simp (encodes, bad) at e in absurd (cc)
      | inl (padded, good) ↦ (padded, good, sym (ok_injective (simp (encodes, good) at e)))
    ]
  ]

  module _ (s : RoomSession) (nonce padded : Bytes) (sized : length nonce ≡ nonce_bytes) where
    length-key_id : length (key_id lib s.sender_key) ≡ key_id_bytes
    unfolding key_id
    length-key_id = sound.hkdf_length key_id_bytes [] key_id_info s.sender_key (omega arith)

    cut_id : take key_id_bytes (sealed s nonce padded) ≡ key_id lib s.sender_key
    cut_id = rw (← length-key_id) (
        take-append (key_id lib s.sender_key)
          (nonce ++ lib.encrypt s.sender_key nonce padded s.aad))

    behind_id :
        drop key_id_bytes (sealed s nonce padded)
        ≡ nonce ++ lib.encrypt s.sender_key nonce padded s.aad
    behind_id = rw (← length-key_id) (
        drop-append (key_id lib s.sender_key)
          (nonce ++ lib.encrypt s.sender_key nonce padded s.aad))

    cut_nonce : take nonce_bytes (drop key_id_bytes (sealed s nonce padded)) ≡ nonce
    cut_nonce =
        rw (behind_id, ← sized) (take-append nonce (lib.encrypt s.sender_key nonce padded s.aad))

    joined :
        sealed s nonce padded
        ≡ (key_id lib s.sender_key ++ nonce) ++ lib.encrypt s.sender_key nonce padded s.aad
    joined =
        sym (
          append_assoc (key_id lib s.sender_key) nonce
            (lib.encrypt s.sender_key nonce padded s.aad))

    front_length : length (key_id lib s.sender_key ++ nonce) ≡ key_id_bytes + nonce_bytes
    front_length =
        omega (arith, length-append (key_id lib s.sender_key) nonce, length-key_id, sized)

    cut_front :
        take (key_id_bytes + nonce_bytes) (sealed s nonce padded) ≡ key_id lib s.sender_key ++ nonce
    cut_front =
        rw (joined, ← front_length)
          (take-append (key_id lib s.sender_key ++ nonce)
            (lib.encrypt s.sender_key nonce padded s.aad))

    behind_front :
        drop (key_id_bytes + nonce_bytes) (sealed s nonce padded)
        ≡ lib.encrypt s.sender_key nonce padded s.aad
    behind_front =
        rw (joined, ← front_length)
          (drop-append (key_id lib s.sender_key ++ nonce)
            (lib.encrypt s.sender_key nonce padded s.aad))

    long : key_id_bytes + nonce_bytes < length (sealed s nonce padded)
    long = rw joined (
        omega (
          arith,
          length-append (key_id lib s.sender_key ++ nonce)
              (lib.encrypt s.sender_key nonce padded s.aad),
          front_length,
          sound.tagged s.sender_key nonce padded s.aad,
        ))

  head_lem :
      (s : RoomSession) (nonce padded : Bytes)
      → length nonce ≡ nonce_bytes
      → head lib (lib.to_base64 (sealed s nonce padded)) ≡ some (key_id lib s.sender_key ++ nonce)
  unfolding head
  head_lem s nonce padded sized =
      let not_short : leb (length (sealed s nonce padded)) (key_id_bytes + nonce_bytes) ≡ false =
        lt→leb_false _ _ (long s nonce padded sized) in
      rw (sound.base64_back (sealed s nonce padded), not_short, cut_front s nonce padded sized) refl

  -- A message that a session writes opens, to its text, in any session of the room that holds the
  -- key under its id; and the holder of that id there is named as its owner.
  decrypt-encrypt :
      (s r : RoomSession) (nonce : Bytes) (plaintext : Text) (owner : Bytes)
      → length nonce ≡ nonce_bytes
      → lib.encodes plaintext ≡ true
      → length (lib.to_utf8 plaintext) ≤ max_plaintext_bytes
      → r.aad ≡ s.aad
      → get r.by_id (key_id lib s.sender_key) ≡ some s.sender_key
      → get r.holders (key_id lib s.sender_key) ≡ some owner
      → (token : Text) × (encrypt lib s nonce plaintext ≡ ok token)
        × (decrypt lib r token ≡ ok plaintext)
        × (key_owner lib r token ≡ some owner)
  unfolding encrypt decrypt key_owner
  decrypt-encrypt s r nonce plaintext owner sized encodes fits same_room known held =
      let (padded, good, back) = unpad-pad (lib.to_utf8 plaintext) fits in
      let raw : Bytes = sealed s nonce padded in
      let is_long : ltb (key_id_bytes + nonce_bytes) (length raw) ≡ true =
        lt→ltb _ _ (long s nonce padded sized) in
      let front_id : take key_id_bytes (key_id lib s.sender_key ++ nonce)
          ≡ key_id lib s.sender_key =
        rw (← length-key_id s nonce padded sized) (take-append (key_id lib s.sender_key) nonce) in
      (
        lib.to_base64 raw,
        simp (encodes, good) refl,
        simp
            (
              sound.base64_back raw,
              is_long,
              cut_id s nonce padded sized,
              known,
              cut_nonce s nonce padded sized,
              behind_front s nonce padded sized,
              same_room,
              sound.gives_back s.sender_key nonce padded s.aad,
              back,
              sound.utf8_back plaintext encodes,
            )
            refl,
        rw (head_lem s nonce padded sized, front_id, key_owner) held,
      )

  -- The tag of a session's offer.
  abbrev mac_of : RoomSession → Bytes
  mac_of s =
      lib.hmac s.master (offer_mac_context ++ (lib.to_utf8 s.room ++ 0 ∷ lib.public_of s.own))

  offer_mac_lem :
      (s : RoomSession) → offer_mac lib (lib.public_of s.own) s.master s.room ≡ ok (mac_of s)
  unfolding offer_mac
  offer_mac_lem s = simp (sound.public_length s.own) refl

  offer_lem : (s : RoomSession) → offer lib s ≡ ok (lib.public_of s.own, mac_of s)
  unfolding offer
  offer_lem s = simp (offer_mac_lem s) refl

  verify_offer_lem :
      (s : RoomSession) → verify_offer lib (lib.public_of s.own) (mac_of s) s.master s.room ≡ ok tt
  unfolding verify_offer
  verify_offer_lem s =
      simp
        (
          sound.public_length s.own,
          sound.hmac_length s.master
              (offer_mac_context ++ (lib.to_utf8 s.room ++ 0 ∷ lib.public_of s.own)),
          offer_mac_lem s,
          (==_iff (mac_of s) (mac_of s)).1 refl,
        )
        refl

  pair_key_lem :
      (s : RoomSession) (p shared : Bytes)
      → length p ≡ public_key_bytes
      → length s.psk ≡ pair_psk_bytes
      → p ≢ lib.public_of s.own
      → lib.exchange s.own p ≡ some shared
      → (pair : Bytes) × (pair_key lib s.own p s.psk ≡ ok pair)
  unfolding pair_key
  pair_key_lem s p shared sized psk_sized apart agreed =
      let other : (p == lib.public_of s.own) ≡ false =
        ground (arith, ==_iff p (lib.public_of s.own)) in
      (
        lib.hkdf 32 (joined_sorted (lib.public_of s.own) p) pair_key_info (shared ++ s.psk),
        simp (sized, psk_sized, other, agreed) refl,
      )

  accept_offer_lem :
      (s : RoomSession) (nonce p mac pair : Bytes)
      → verify_offer lib p mac s.master s.room ≡ ok tt
      → pair_key lib s.own p s.psk ≡ ok pair
      → accept_offer lib s nonce p mac ≡ wrapped_for lib s nonce p pair
  unfolding accept_offer
  accept_offer_lem s nonce p mac pair verified agreed = rw (verified, agreed, accept_offer) refl

  wrap_lem :
      (nonce pair key : Bytes)
      → length key ≡ sender_key_bytes
      → (wrapped : Bytes) × (wrap_sender_key lib nonce pair key ≡ ok wrapped)
  unfolding wrap_sender_key
  wrap_lem nonce pair key sized =
      (nonce ++ lib.encrypt pair nonce key sender_key_wrap_info, simp sized refl)

  accept_sender_key_lem :
      (s : RoomSession) (p pair wrapped key : Bytes)
      → get s.pairs p ≡ some pair
      → unwrap_sender_key lib pair wrapped ≡ ok key
      → is_taken (get s.holders (key_id lib key)) p ≡ false
      → accept_sender_key lib s p wrapped
        ≡ (store_key s p (key_id lib key) key, ok (key_id lib key))
  unfolding accept_sender_key accept_key
  accept_sender_key_lem s p pair wrapped key known opened free =
      rw (known, opened, free, accept_sender_key, accept_key) refl

  stored_by_id :
      (s : RoomSession) (p ident key : Bytes) → get (store_key s p ident key).by_id ident ≡ some key
  unfolding store_key
  stored_by_id s p ident key = ground (
    arith,
    get-put (without_previous s.by_id (get s.peer_ids p) ident) ident ident key,
    ==_iff ident ident,
  )

  stored_holder :
      (s : RoomSession) (p ident key : Bytes) → get (store_key s p ident key).holders ident ≡ some p
  unfolding store_key
  stored_holder s p ident key = ground (
    arith,
    get-put (without_previous s.holders (get s.peer_ids p) ident) ident ident p,
    ==_iff ident ident,
  )

  stored_aad : (s : RoomSession) (p ident key : Bytes) → (store_key s p ident key).aad ≡ s.aad
  unfolding store_key
  stored_aad s p ident key = refl

  -- The handshake and a message of core/room_session.py, from `a` to `b`: each accepts the other's
  -- offer, `b` accepts the key that `a` wrapped for it, and then a message that `a` writes, which UTF-8
  -- can encode and which fits the largest rung, opens for `b` to its text, as a message of `a`. They stand in
  -- one room with one password, their public keys differ and X25519 gives them a secret, and no
  -- other peer of `b` holds the id of the key.
  pub handshake_reads :
      (a b : RoomSession) (wrap_nonce other_nonce nonce mac_a mac_b shared : Bytes)
      (plaintext : Text)
      → b.room ≡ a.room
      → b.master ≡ a.master
      → b.psk ≡ a.psk
      → b.aad ≡ a.aad
      → length a.psk ≡ pair_psk_bytes
      → length a.sender_key ≡ sender_key_bytes
      → lib.public_of b.own ≢ lib.public_of a.own
      → lib.exchange a.own (lib.public_of b.own) ≡ some shared
      → is_taken (get b.holders (key_id lib a.sender_key)) (lib.public_of a.own) ≡ false
      → length wrap_nonce ≡ wrap_nonce_bytes
      → length nonce ≡ nonce_bytes
      → lib.encodes plaintext ≡ true
      → length (lib.to_utf8 plaintext) ≤ max_plaintext_bytes
      → offer lib a ≡ ok (lib.public_of a.own, mac_a)
      → offer lib b ≡ ok (lib.public_of b.own, mac_b)
      → (wrapped : Bytes) × (token : Text) × ((accept_offer lib a wrap_nonce
            (lib.public_of b.own)
            mac_b).1
          ≡ ok wrapped)
        × (encrypt lib a nonce plaintext ≡ ok token)
        × (let b' =
              (accept_sender_key lib
                (accept_offer lib b other_nonce (lib.public_of a.own) mac_a).0
                (lib.public_of a.own)
                wrapped).0 in
            (decrypt lib b' token ≡ ok plaintext)
            × (key_owner lib b' token ≡ some (lib.public_of a.own)))
  handshake_reads a b wrap_nonce other_nonce nonce mac_a mac_b shared plaintext room master psk aad
        psk_sized key_sized apart agreed free wrap_sized sized encodes fits offered_a offered_b =
      let pa : Bytes = lib.public_of a.own in
      let pb : Bytes = lib.public_of b.own in
      let ident : Bytes = key_id lib a.sender_key in
      let tag_a : mac_a ≡ mac_of a =
        ap (λ (x : Bytes × Bytes). x.1) (ok_injective (sym offered_a ∙ offer_lem a)) in
      let tag_b : mac_b ≡ mac_of b =
        ap (λ (x : Bytes × Bytes). x.1) (ok_injective (sym offered_b ∙ offer_lem b)) in
      let (pair, agrees) =
        pair_key_lem a pb shared (sound.public_length b.own) psk_sized apart agreed in
      let agrees_b : pair_key lib b.own pa b.psk ≡ ok pair =
        rw psk (pair_key_comm lib sound b.own a.own a.psk ∙ agrees) in
      let verified_b : verify_offer lib pb mac_b a.master a.room ≡ ok tt =
        rw (tag_b, ← master, ← room) (verify_offer_lem b) in
      let verified_a : verify_offer lib pa mac_a b.master b.room ≡ ok tt =
        rw (tag_a, master, room) (verify_offer_lem a) in
      let (wrapped, made) = wrap_lem wrap_nonce pair a.sender_key key_sized in
      let b1 : RoomSession = record b { pairs = put b.pairs pa pair } in
      let knows : get b1.pairs pa ≡ some pair =
        ground (arith, get-put b.pairs pa pa pair, ==_iff pa pa) in
      let stored =
        accept_sender_key_lem b1 pa pair wrapped a.sender_key knows
          (unwrap-wrap lib sound wrap_nonce pair a.sender_key wrapped wrap_sized made) free in
      let (token, written, opens, owned) =
        decrypt-encrypt a (store_key b1 pa ident a.sender_key) nonce plaintext pa sized encodes fits
          (stored_aad b1 pa ident a.sender_key ∙ aad) (stored_by_id b1 pa ident a.sender_key)
          (stored_holder b1 pa ident a.sender_key) in
      (
        wrapped,
        token,
        ap (λ (x : RoomSession × Result KeyError Bytes). x.1)
              (accept_offer_lem a wrap_nonce pb mac_b pair verified_b agrees)
            ∙ made,
        written,
        rw (accept_offer_lem b other_nonce pa mac_a pair verified_a agrees_b, stored)
            (opens, owned),
      )
