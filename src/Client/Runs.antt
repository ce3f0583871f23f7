-- ===== src/Client/Runs.antt =====
-- core/client.py over any history of calls, packets and turns of the keepalive loop.
use proxy_net.Prelude.{
  ℕ, ◌-◌, ◌≡◌, refl, inl, inr, List, [], ◌∷◌, Bool, true, false, if◌then◌else◌, ltb, Text, text_eq,
  Bool-cases, arith, Result, ok, err, ◌>>=◌, All, guard,
}
use proxy_net.Bytes.{Bytes}
use proxy_net.Dict.{Dict, get}
use proxy_net.KeyAgreement.{KeyLibrary, KeyError}
use proxy_net.KeyAgreement.Agreement.{IsSound}
use proxy_net.Packets.{Fields, RoomCipher, cipher_encrypt}
use proxy_net.Client.{
  ClientError, ChatClient, Python, Fresh, new_client, cipher, emit, sends, disconnect, entered,
  connect, connecting, connected, asked_to_join, cipher_for, or_cipher_error, not_connected,
  message_packet, join_room, join_packet, ping, ping_packet, send_message,
}
use proxy_net.Client.Sessions.{Armed}
use proxy_net.Client.Inbox.{flush_deferred}
use proxy_net.Client.Exchange.{exchange_keys, is_key_exchange, handle_key_exchange}
use proxy_net.Client.Listen.{
  absorb_session_state, pass_on, after_absorbed, receive, keepalive_turn, keepalive_interval_ms,
}
use proxy_net.Client.Limits.{IsWell, emit-IsWell, if-IsWell, flush_deferred-IsWell, pass_on-IsWell}
use proxy_net.Client.Rooms.{
  IsSafe, Enters, enters, refused, IsFresh, disconnect-IsWell, cipher_for-Armed, entered-IsWell,
  absorb_session_state-IsSafe,
}
use proxy_net.Client.Answers.{exchange_keys-IsSafe}

-- What reaches the client: its own calls, a packet read, or a turn of the keepalive loop.
pub data Event : Type 0 where
  connects : (fresh : Fresh) (room username : Text) (reached : Bool) → Event
  joins : (fresh : Fresh) (room : Text) → Event
  says : (nonce : Bytes) (content : Text) → Event
  pings : Event
  disconnects : Event
  receives : (fresh : Fresh) (now : ℕ) (packet : Fields) → Event
  turns : (now last_ping : ℕ) → Event

-- Whether an event's fresh sender key has its length.
abbrev pub IsGenerated : Event → Type 0
IsGenerated (connects fresh room username reached) = IsFresh fresh
IsGenerated (joins fresh room) = IsFresh fresh
IsGenerated (says nonce content) = Unit
IsGenerated pings = Unit
IsGenerated disconnects = Unit
IsGenerated (receives fresh now packet) = IsFresh fresh
IsGenerated (turns now last_ping) = Unit

-- The client after a call that may raise before it changes anything.
abbrev pub sent_or : ChatClient → Result ClientError ChatClient → ChatClient
sent_or c (ok d) = d
sent_or c (err e) = c

if_out-IsWell :
    (b : Bool) (x y : ChatClient × Result KeyError (Unit {0}))
    → IsWell x.0
    → IsWell y.0
    → IsWell (if b then x else y).0
if_out-IsWell true x y v w = v
if_out-IsWell false x y v w = w

module _ (lib : KeyLibrary) (python : Python) where
  unfoldable pub step : ChatClient → Event → ChatClient
  step c (connects fresh room username reached) = (connect lib fresh c room username reached).0
  step c (joins fresh room) = (join_room lib fresh c room).0
  step c (says nonce content) = sent_or c (send_message lib c nonce content)
  step c pings = ping c
  step c disconnects = disconnect c
  step c (receives fresh now packet) = (receive lib python fresh c now packet).0
  step c (turns now last_ping) = (keepalive_turn lib python c now last_ping).0

  unfoldable pub run : ChatClient → List Event → ChatClient
  run c [] = c
  run c (event ∷ events) = run (step c event) events

  handled-IsSafe :
      (fresh : Fresh) (now : ℕ) (packet : Fields) (out : ChatClient × Result KeyError (Unit {0}))
      → IsSafe lib out
      → IsSafe lib (let (c, r) = out in pass_on lib python now packet (c, r >>= λ _. ok true))
  handled-IsSafe fresh now packet (c, r) (w, enters u is) = rw is (w, enters tt refl)
  handled-IsSafe fresh now packet (c, r) (w, refused t where_it_is bad is) =
      rw is (w, refused t where_it_is bad refl)

  after_absorbed-IsSafe :
      (fresh : Fresh) (now : ℕ) (packet : Fields) (out : ChatClient × Result KeyError (Unit {0}))
      → IsSafe lib out
      → IsSafe lib (after_absorbed lib python fresh now packet out)
  unfolding handle_key_exchange
  after_absorbed-IsSafe fresh now packet (c, r) (w, refused t where_it_is bad is) =
      rw is (w, refused t where_it_is bad refl)
  after_absorbed-IsSafe fresh now packet (c, r) (w, enters u is) =
      rw is (elim (Bool-cases (is_key_exchange packet)) [
        | inl exchange ↦
            rw (handle_key_exchange, exchange)
              (handled-IsSafe fresh now packet
                (exchange_keys lib python fresh c now (cipher c) packet)
                (exchange_keys-IsSafe lib python fresh c now (cipher c) packet refl w))
        | inr other ↦
            rw (handle_key_exchange, other)
              (pass_on-IsWell lib python c now packet w, enters tt refl)
      ])

  keepalive_turn-IsWell :
      (c : ChatClient) (now last_ping : ℕ)
      → IsWell c
      → IsWell (keepalive_turn lib python c now last_ping).0
  unfolding keepalive_turn
  keepalive_turn-IsWell c now last_ping w =
      let v = flush_deferred-IsWell lib python c now w.tracked (omega (arith, w.few_deferred)) in
      elim (Bool-cases (ltb (now - last_ping) keepalive_interval_ms)) [
        | inl soon ↦ rw (keepalive_turn, soon) v
        | inr late ↦
            rw (keepalive_turn, late)
              (emit-IsWell (flush_deferred lib python c now) (sends ping_packet) v)
      ]

  said_as-IsWell :
      (b : Bool) (r : Result KeyError Text) (c : ChatClient)
      → IsWell c
      → IsWell (
          sent_or c (
            guard b not_connected
            >>= (λ _. or_cipher_error r >>= (λ t. ok (emit c (sends (message_packet c t)))))))
  said_as-IsWell false r c w = w
  said_as-IsWell true (ok t) c w = emit-IsWell c (sends (message_packet c t)) w
  said_as-IsWell true (err e) c w = w

  said-IsWell :
      (c : ChatClient) (nonce : Bytes) (content : Text)
      → IsWell c
      → IsWell (sent_or c (send_message lib c nonce content))
  unfolding send_message
  said-IsWell c nonce content w =
      said_as-IsWell c.transport (cipher_encrypt lib (cipher c) nonce content) c w

module _ (lib : KeyLibrary) (python : Python) (sound : IsSound lib) where
  receive-IsSafe :
      (fresh : Fresh) (c : ChatClient) (now : ℕ) (packet : Fields)
      → IsFresh fresh
      → IsWell c
      → IsSafe lib (receive lib python fresh c now packet)
  unfolding receive
  receive-IsSafe fresh c now packet f w =
      after_absorbed-IsSafe lib python fresh now packet (absorb_session_state lib fresh c packet)
        (absorb_session_state-IsSafe lib sound fresh c packet f w)

  connecting-IsWell :
      (c : ChatClient) (room username : Text) (reached : Bool)
      (r : Result KeyError (Dict Text RoomCipher))
      → ((ciphers : Dict Text RoomCipher) → r ≡ ok ciphers → Armed ciphers)
      → IsWell c
      → IsWell (connecting lib c room username reached r).0
  connecting-IsWell c room username reached (err e) armed w = w
  connecting-IsWell c room username true (ok ciphers) armed w = record {
    tracked = record {
      armed = armed ciphers refl;
      few_mismatched = w.tracked.few_mismatched;
      few_pending = w.tracked.few_pending;
    };
    few_deferred = w.few_deferred;
  }
  connecting-IsWell c room username false (ok ciphers) armed w = record {
    tracked = record {
      armed = armed ciphers refl;
      few_mismatched = w.tracked.few_mismatched;
      few_pending = w.tracked.few_pending;
    };
    few_deferred = w.few_deferred;
  }

  connect-IsWell :
      (fresh : Fresh) (c : ChatClient) (room username : Text) (reached : Bool)
      → IsFresh fresh
      → IsWell c
      → IsWell (connect lib fresh c room username reached).0
  unfolding connect
  connect-IsWell fresh c room username reached f w =
      let d = if connected c then disconnect c else c in
      let v = if-IsWell (connected c) (disconnect c) c (disconnect-IsWell c w) w in
      connecting-IsWell d room username reached (cipher_for lib fresh d room)
        (λ ciphers e. cipher_for-Armed lib sound fresh d room ciphers f v.tracked.armed e) v

  asked_to_join-IsWell :
      (room : Text) (out : ChatClient × Result KeyError (Unit {0}))
      → IsWell out.0
      → IsWell (asked_to_join lib room out).0
  asked_to_join-IsWell room (c, err e) w = w
  asked_to_join-IsWell room (c, ok _) w = emit-IsWell c (sends (join_packet room c.username)) w

  join_room-IsWell :
      (fresh : Fresh) (c : ChatClient) (room : Text)
      → IsFresh fresh
      → IsWell c
      → IsWell (join_room lib fresh c room).0
  unfolding join_room
  join_room-IsWell fresh c room f w =
      if_out-IsWell c.transport _ _
        (asked_to_join-IsWell room (entered lib fresh c room)
          (entered-IsWell lib sound fresh c room f w))
        w

  step-IsWell :
      (c : ChatClient) (event : Event)
      → IsGenerated event
      → IsWell c
      → IsWell (step lib python c event)
  unfolding step ping
  step-IsWell c (connects fresh room username reached) f w =
      connect-IsWell fresh c room username reached f w
  step-IsWell c (joins fresh room) f w = join_room-IsWell fresh c room f w
  step-IsWell c (says nonce content) f w = said-IsWell lib python c nonce content w
  step-IsWell c pings f w = if-IsWell c.transport _ c (emit-IsWell c (sends ping_packet) w) w
  step-IsWell c disconnects f w = disconnect-IsWell c w
  step-IsWell c (receives fresh now packet) f w = (receive-IsSafe fresh c now packet f w).0
  step-IsWell c (turns now last_ping) f w = keepalive_turn-IsWell lib python c now last_ping w

  run-IsWell :
      (c : ChatClient) (events : List Event)
      → All IsGenerated events
      → IsWell c
      → IsWell (run lib python c events)
  unfolding run
  run-IsWell c [] f w = w
  run-IsWell c (event ∷ events) f w =
      run-IsWell (step lib python c event) events f.1 (step-IsWell c event f.0 w)

  new_client-IsWell : (password : Text) (on_packet : Bool) → IsWell (new_client password on_packet)
  unfolding get
  new_client-IsWell password on_packet = record {
    tracked = record {
      armed = λ key s e. cc;
      few_mismatched = omega arith;
      few_pending = omega arith;
    };
    few_deferred = omega arith;
  }

  -- Whatever calls, packets and turns reached a client, whose sender keys were generated with their
  -- length: it holds at most fifty messages, it tracks at most 256 peers whose offer did not verify
  -- and at most 256 keys without an offer. The listen loop's body for a further packet, whatever it
  -- is, keeps these bounds, and it comes to its end or raises UnicodeEncodeError; it raises only if
  -- UTF-8 cannot encode the room that the client is in by then, its normalized name or the room
  -- password. The cryptographic library is sound.
  pub client_lasts :
      (password : Text) (on_packet : Bool) (events : List Event) (fresh : Fresh) (now : ℕ)
      (packet : Fields)
      → All IsGenerated events
      → IsFresh fresh
      → let c = run lib python (new_client password on_packet) events in
        let out = receive lib python fresh c now packet in
        IsWell c × IsWell out.0 × Enters lib out.0.room out.0.room_password out.1
  client_lasts password on_packet events fresh now packet g f =
      let c = run lib python (new_client password on_packet) events in
      let w =
        run-IsWell (new_client password on_packet) events g
          (new_client-IsWell password on_packet) in
      let (v, is) = receive-IsSafe fresh c now packet f w in (w, v, is)
