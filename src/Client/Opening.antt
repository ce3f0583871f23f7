-- ===== src/Client/Opening.antt =====
-- core/client.py: an encrypted message reaches the interface only as what the holder of its key
-- wrote under its own name, and once.
use proxy_net.Prelude.{
  List, ◌≡◌, refl, ◌⊎◌, inl, inr, [], Bool, true, false, Option, none, some, Text, text, ==_iff,
  text_eq, Bool-cases, Option-cases, arith, ok, Result-cases, ap, sym, ◌∙◌,
}
use proxy_net.Bytes.{Bytes}
use proxy_net.Dict.Laws.{get-put}
use proxy_net.KeyAgreement.{KeyLibrary}
use proxy_net.RoomSession.{RoomSession, first_sight, key_owner, decrypt, head, is_seen}
use proxy_net.RoomSession.Sights.{first_sight_once}
use proxy_net.RoomSession.Runs.{run}
use proxy_net.Packets.{
  Json, null, boolean, number, string, array, object, Fields, get_field, set_field, get-set_field,
  text_field, as_text, is_null, is_scheme, scheme, reason_for, room_cipher, mark_undecryptable,
  decrypt_reason_sender, decrypt_reason_password, decrypt_content, decrypt_packet_content,
  undecryptable_placeholder,
}
use proxy_net.Client.{ChatClient, Python, cipher, with_session}
use proxy_net.Client.Inbox.{
  is_true, is_from, name_of, sighted, check_sender, check_origin, open_message,
}

sighted-new :
    (c : ChatClient) (out : RoomSession × Bool) (packet : Fields)
    → out.1 ≡ true
    → sighted c out packet ≡ (with_session c out.0, some packet)
sighted-new c (s, true) packet e = refl
sighted-new c (s, false) packet e = cc

sighted-again :
    (c : ChatClient) (out : RoomSession × Bool) (packet : Fields)
    → out.1 ≡ false
    → sighted c out packet ≡ (with_session c out.0, none)
sighted-again c (s, false) packet e = refl
sighted-again c (s, true) packet e = cc

module _ (lib : KeyLibrary) (python : Python) where
  abbrev failed : Fields → Bool
  failed packet = is_true python (get_field packet (text "decrypt_failed"))

  mark_undecryptable-failed :
      (packet : Fields) (reason : Text) → failed (mark_undecryptable packet reason) ≡ true
  unfolding mark_undecryptable
  mark_undecryptable-failed packet reason =
      let inner = set_field packet (text "content") (string undecryptable_placeholder) in
      rw
        (
          mark_undecryptable,
          get-set_field (set_field inner (text "decrypt_failed") (boolean true))
              (text "decrypt_reason") (text "decrypt_failed") (string reason),
          get-set_field inner (text "decrypt_failed") (text "decrypt_failed") (boolean true),
        )
        refl

  -- A message that passed the check.
  pub record IsChecked (c : ChatClient) (s : RoomSession) (packet : Fields) (token : Text)
      : Type 0 where
    pub from_holder :
        is_from (name_of lib python c s (key_owner lib s token)) (text_field packet (text "user"))
        ≡ true
    pub is_new : (first_sight lib s token).1 ≡ true

  check_sender-IsChecked :
      (c : ChatClient) (s : RoomSession) (packet shown : Fields) (token : Text)
      → (check_sender lib python c s packet token).1 ≡ some shown
      → failed shown ≡ false
      → (shown ≡ packet)
        × IsChecked c s packet token
        × (check_sender lib python c s packet token
            ≡ (with_session c (first_sight lib s token).0, some packet))
  unfolding check_sender
  check_sender-IsChecked c s packet shown token e f =
      elim (Bool-cases (
        is_from (name_of lib python c s (key_owner lib s token))
          (text_field packet (text "user")))) [
            | inr forged ↦
                let g = rw (check_sender, forged) at e in
                let same : shown ≡ mark_undecryptable packet decrypt_reason_sender = cc in
                let h = rw (same, mark_undecryptable-failed packet decrypt_reason_sender) at f in cc
            | inl sent ↦ elim (Bool-cases (first_sight lib s token).1) [
              | inl new ↦
                  let is = sighted-new c (first_sight lib s token) packet new in
                  let g = rw (check_sender, sent, is) at e in
                  rw (check_sender, sent, is)
                    (cc, record { from_holder = sent; is_new = new }, refl)
              | inr again ↦
                  let g =
                    rw (check_sender, sent, sighted-again c (first_sight lib s token) packet again)
                      at e in
                  absurd (cc)
            ]
          ]

  check_origin-IsChecked :
      (c : ChatClient) (s : RoomSession) (packet shown : Fields) (token : Text)
      → is_null (get_field packet (text "enc")) ≡ false
      → (check_origin lib python c (room_cipher s) packet (some (string token))).1 ≡ some shown
      → failed shown ≡ false
      → (shown ≡ packet)
        × IsChecked c s packet token
        × (check_origin lib python c (room_cipher s) packet (some (string token))
            ≡ (with_session c (first_sight lib s token).0, some packet))
  unfolding check_origin
  check_origin-IsChecked c s packet shown token enc e f = elim (Bool-cases (failed packet)) [
    | inl bad ↦
        let g = rw (check_origin, bad) at e in
        let same : shown ≡ packet = cc in let h = rw (same, bad) at f in absurd (cc)
    | inr fine ↦
        let g = rw (check_origin, fine, enc) at e in
        rw (check_origin, fine, enc) (check_sender-IsChecked c s packet shown token g f)
  ]

  opened_or_failed :
      (s : RoomSession) (packet : Fields) (token : Text)
      → text_field packet (text "content") ≡ some token
      → is_null (get_field packet (text "enc")) ≡ false
      → (failed (decrypt_packet_content lib packet (room_cipher s)) ≡ true)
        ⊎ ((plaintext : Text) × (decrypt lib s token ≡ ok plaintext)
            × (decrypt_packet_content lib packet (room_cipher s)
                ≡ set_field packet (text "content") (string plaintext)))
  unfolding decrypt_packet_content decrypt_content
  opened_or_failed s packet token content enc =
      elim (Bool-cases (is_scheme (text_field packet (text "enc")) (scheme (room_cipher s)))) [
        | inr foreign ↦
            rw (decrypt_packet_content, content, decrypt_content, enc, foreign)
              (inl (mark_undecryptable-failed packet (reason_for (scheme (room_cipher s)))))
        | inl ours ↦ elim (Result-cases (decrypt lib s token)) [
          | inr (e, bad) ↦
              rw (decrypt_packet_content, content, decrypt_content, enc, ours, bad)
                (inl (mark_undecryptable-failed packet decrypt_reason_password))
          | inl (plaintext, opened) ↦
              rw (decrypt_packet_content, content, decrypt_content, enc, ours, opened)
                (inr (plaintext, refl, refl))
        ]
      ]

  -- The token of a message whose content is a text.
  as_text-string : (o : Option Json) (t : Text) → as_text o ≡ some t → o ≡ some (string t)
  as_text-string none t e = cc
  as_text-string (some (string u)) t e = cc
  as_text-string (some null) t e = cc
  as_text-string (some (boolean b)) t e = cc
  as_text-string (some (number n)) t e = cc
  as_text-string (some (array xs)) t e = cc
  as_text-string (some (object fs)) t e = cc

  shown_was_opened :
      (c : ChatClient) (s : RoomSession) (packet shown : Fields) (token : Text)
      → cipher c ≡ room_cipher s
      → text_field packet (text "content") ≡ some token
      → is_null (get_field packet (text "enc")) ≡ false
      → (open_message lib python c packet).1 ≡ some shown
      → failed shown ≡ false
      → (plaintext : Text) × (decrypt lib s token ≡ ok plaintext)
        × (shown ≡ set_field packet (text "content") (string plaintext))
        × (decrypt_packet_content lib packet (room_cipher s) ≡ shown)
        × IsChecked c s packet token
        × ((open_message lib python c packet).0 ≡ with_session c (first_sight lib s token).0)
  unfolding open_message text_field check_origin
  shown_was_opened c s packet shown token k content enc e f =
      let raw = as_text-string (get_field packet (text "content")) token content in
      let new_packet : Fields = decrypt_packet_content lib packet (room_cipher s) in
      let g = rw (open_message, k, raw) at e in
      elim (opened_or_failed s packet token content enc) [
        | inl bad ↦
            let h = rw (check_origin, bad) at g in
            let same : shown ≡ new_packet = cc in let i = rw (same, bad) at f in absurd (cc)
        | inr (plaintext, opened, is) ↦
            let plain : Fields = set_field packet (text "content") (string plaintext) in
            let same_enc : get_field plain (text "enc") ≡ get_field packet (text "enc") =
              get-set_field packet (text "content") (text "enc") (string plaintext) in
            let same_user : get_field plain (text "user") ≡ get_field packet (text "user") =
              get-set_field packet (text "content") (text "user") (string plaintext) in
            let h = rw is at g in
            let (same, checked, after) =
              check_origin-IsChecked c s plain shown token (rw same_enc enc) h f in
            (
              plaintext,
              opened,
              same,
              is ∙ sym same,
              record { from_holder = rw⁻¹ same_user checked.from_holder; is_new = checked.is_new },
              rw (open_message, k, raw, is) (ap (λ o. o.0) after),
            )
      ]

  -- An encrypted message that a client in a room with a password hands to the interface without a
  -- placeholder opened under the key it names, its content is what came out, the name on its
  -- envelope is the name the client knows the holder of that key by, and it was not shown before.
  pub shown_is_genuine :
      (c : ChatClient) (s : RoomSession) (packet shown : Fields) (token : Text)
      → cipher c ≡ room_cipher s
      → text_field packet (text "content") ≡ some token
      → is_null (get_field packet (text "enc")) ≡ false
      → (open_message lib python c packet).1 ≡ some shown
      → is_true python (get_field shown (text "decrypt_failed")) ≡ false
      → (plaintext : Text) × (decrypt lib s token ≡ ok plaintext)
        × (get_field shown (text "content") ≡ some (string plaintext))
        × (is_from
              (name_of lib python c s (key_owner lib s token))
              (text_field packet (text "user"))
            ≡ true)
        × ((first_sight lib s token).1 ≡ true)
  shown_is_genuine c s packet shown token k content enc e f =
      let (plaintext, opened, is, becomes, checked, after) =
        shown_was_opened c s packet shown token k content enc e f in
      (
        plaintext,
        opened,
        rw is (get-set_field packet (text "content") (text "content") (string plaintext)),
        checked.from_holder,
        checked.is_new,
      )

  cipher-with_session :
      (c : ChatClient) (s t : RoomSession)
      → cipher c ≡ room_cipher s
      → cipher (with_session c t) ≡ room_cipher t
  cipher-with_session c s t k = elim (Option-cases c.current) [
    | inl nowhere ↦ let f = rw nowhere at k in absurd (cc)
    | inr (key, here) ↦
        rw here (ground (arith, get-put c.ciphers key key (room_cipher t), ==_iff key key))
  ]

  first_sight-seen :
      (s : RoomSession) (token : Text)
      → (x : List Bytes) × ((first_sight lib s token).0 ≡ record s { seen = x })
  unfolding first_sight
  first_sight-seen s token = elim (Option-cases (head lib token)) [
    | inl malformed ↦ rw (malformed, first_sight) (s.seen, refl)
    | inr (h, read) ↦ elim (Bool-cases (is_seen h s.seen)) [
      | inl again ↦ rw (read, again, first_sight) (s.seen, refl)
      | inr anew ↦ rw (read, anew, first_sight) (_, refl)
    ]
  ]

  opened_again :
      (d : ChatClient) (s : RoomSession) (x : List Bytes) (packet shown : Fields) (token : Text)
      → cipher d ≡ room_cipher (record s { seen = x })
      → text_field packet (text "content") ≡ some token
      → decrypt_packet_content lib packet (room_cipher s) ≡ shown
      → failed shown ≡ false
      → is_null (get_field shown (text "enc")) ≡ false
      → is_from (name_of lib python d s (key_owner lib s token)) (text_field shown (text "user"))
        ≡ true
      → (first_sight lib (record s { seen = x }) token).1 ≡ false
      → (open_message lib python d packet).1 ≡ none
  unfolding open_message text_field check_origin check_sender key_owner decrypt_packet_content
      decrypt_content decrypt
  opened_again d s x packet shown token k content becomes f enc sent again =
      let raw = as_text-string (get_field packet (text "content")) token content in
      let becomes_too : decrypt_packet_content lib packet (room_cipher (record s { seen = x }))
          ≡ shown =
        becomes in
      rw
        (
          open_message,
          k,
          raw,
          becomes_too,
          check_origin,
          f,
          enc,
          check_sender,
          sent,
          sighted-again d (first_sight lib (record s { seen = x }) token) shown again,
        )
        refl

  -- An encrypted message that a client in a room with a password handed to the interface without a
  -- placeholder goes nowhere when it is opened again at once.
  pub replay_is_dropped :
      (c : ChatClient) (s : RoomSession) (packet shown : Fields) (token : Text)
      → cipher c ≡ room_cipher s
      → text_field packet (text "content") ≡ some token
      → is_null (get_field packet (text "enc")) ≡ false
      → (open_message lib python c packet).1 ≡ some shown
      → is_true python (get_field shown (text "decrypt_failed")) ≡ false
      → (open_message lib python (open_message lib python c packet).0 packet).1 ≡ none
  unfolding run text_field
  replay_is_dropped c s packet shown token k content enc e f =
      let (plaintext, opened, is, becomes, checked, after) =
        shown_was_opened c s packet shown token k content enc e f in
      let (x, was) = first_sight-seen s token in
      let again = rw was at (first_sight_once lib s token [] checked.is_new (omega arith)) in
      let same_enc : get_field shown (text "enc") ≡ get_field packet (text "enc") =
        rw is (get-set_field packet (text "content") (text "enc") (string plaintext)) in
      let same_user : get_field shown (text "user") ≡ get_field packet (text "user") =
        rw is (get-set_field packet (text "content") (text "user") (string plaintext)) in
      rw (after, was)
        (opened_again (with_session c (record s { seen = x })) s x packet shown token
          (cipher-with_session c s (record s { seen = x }) k) content becomes f (rw same_enc enc)
          (rw same_user checked.from_holder) again)
