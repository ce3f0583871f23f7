-- ===== src/RoomSession/Examples.antt =====
-- Runs of core/room_session.py at concrete inputs, with a library that hides nothing.
use proxy_net.Prelude.{
  ◌≡◌, refl, List, [], ◌∷◌, ◌++◌, false, some, ok, err, replicate, Text, text, text_eq, arith,
}
use proxy_net.Bytes.{Bytes}
use proxy_net.Dict.{get}
use proxy_net.KeyAgreement.{offer_mac, pair_psk, derive_master_key, value_error, pair_psk_context}
use proxy_net.KeyAgreement.Plain.{sized, has_no_surrogate, plain_library, plain_library-IsSound}
use proxy_net.RoomSession.{
  RoomSession, key_id, new, opened_with, message_aad, offer, accept_offer, accept_sender_key,
  encrypt, decrypt, key_owner, first_sight, is_seen, head,
}
use proxy_net.RoomSession.Tables.{IsValid}
use proxy_net.RoomSession.Runs.{
  Call, departs, keys, sees, step, run, session_run-IsValid, Keeps, step-Keeps, new-IsValid,
}
use proxy_net.RoomSession.Sights.{first_sight_once}
use proxy_net.RoomSession.Reading.{handshake_reads}

-- A session of the room `general` with the password `pw`.
abbrev plain_session : Bytes → Bytes → RoomSession
plain_session own sender_key =
    opened_with plain_library (text "general") (message_aad ++ text "general")
      (sized 32 (text "pw")) (sized 32 (pair_psk_context ++ (text "general" ++ 0 ∷ []))) own
      sender_key

abbrev ann : RoomSession
ann = plain_session (1 ∷ []) (replicate 32 5)

abbrev bob : RoomSession
bob = plain_session (2 ∷ []) (replicate 32 6)

new-bob : new plain_library (text "general") (text "pw") (2 ∷ []) (replicate 32 6) ≡ ok bob
unfolding new pair_psk derive_master_key has_no_surrogate
new-bob = refl

-- A lone surrogate in the name of the room.
new-surrogate : new plain_library (0xd800 ∷ []) (text "pw") (2 ∷ []) [] ≡ err value_error
unfolding new has_no_surrogate
new-surrogate = refl

abbrev calls : List Call
calls = departs (sized 32 (1 ∷ [])) ∷ keys (sized 32 (1 ∷ [])) [] ∷ sees (text "x") ∷ []

session_run-IsValid_example : IsValid plain_library (run plain_library bob calls)
session_run-IsValid_example =
    session_run-IsValid plain_library (text "general") (text "pw") (2 ∷ []) (replicate 32 6) bob
      calls new-bob

-- Ann's departure leaves Bob's own key.
step-Keeps_example :
    Keeps bob (step plain_library bob (departs (sized 32 (1 ∷ [])))) (6 ∷ 6 ∷ 6 ∷ 6 ∷ [])
unfolding key_id get
step-Keeps_example =
    step-Keeps plain_library bob (departs (sized 32 (1 ∷ []))) (6 ∷ 6 ∷ 6 ∷ 6 ∷ [])
      (sized 32 (2 ∷ []))
      (new-IsValid plain_library (text "general") (text "pw") (2 ∷ []) (replicate 32 6) bob new-bob)
      refl (λ e. cc)

abbrev token : Text
token = replicate 40 9

first_sight_once_example :
    (first_sight plain_library
      (run plain_library (first_sight plain_library bob token).0 calls)
      token).1
    ≡ false
unfolding first_sight head is_seen
first_sight_once_example = first_sight_once plain_library bob token calls refl (omega arith)

abbrev tag_of : Bytes → Bytes
tag_of key = sized 32 (text "proxynet-offer-v1" ++ (text "general" ++ 0 ∷ sized 32 key))

handshake_reads_example :
    (wrapped : Bytes) × (token : Text) × ((accept_offer plain_library ann
        (replicate 12 3)
        (sized 32 (2 ∷ []))
        (tag_of (2 ∷ []))).1
      ≡ ok wrapped)
    × (encrypt plain_library ann (replicate 12 4) (text "hello") ≡ ok token)
    × (let bob' =
          (accept_sender_key plain_library
            (accept_offer plain_library bob
              (replicate 12 8)
              (sized 32 (1 ∷ []))
              (tag_of (1 ∷ []))).0
            (sized 32 (1 ∷ []))
            wrapped).0 in
        (decrypt plain_library bob' token ≡ ok (text "hello"))
        × (key_owner plain_library bob' token ≡ some (sized 32 (1 ∷ []))))
unfolding key_id get offer offer_mac has_no_surrogate
handshake_reads_example =
    handshake_reads plain_library plain_library-IsSound ann bob (replicate 12 3) (replicate 12 8)
      (replicate 12 4) (tag_of (1 ∷ [])) (tag_of (2 ∷ [])) (replicate 32 1) (text "hello") refl refl
      refl refl refl refl (λ e. cc) refl refl refl refl refl (omega arith) refl refl
