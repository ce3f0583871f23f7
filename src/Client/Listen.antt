-- ===== src/Client/Listen.antt =====
-- core/client.py: the body of the listen loop for a packet, and a turn of the keepalive loop.
use proxy_net.Prelude.{
  ℕ, ◌-◌, [], ◌∷◌, Bool, true, false, not, ◌&&◌, Option, none, some, ltb, if◌then◌else◌, Text, text,
  ◌==◌, text_eq, Result, ok, err,
}
use proxy_net.KeyAgreement.{KeyLibrary, KeyError}
use proxy_net.Packets.{Fields, get_field, text_field}
use proxy_net.Client.{ChatClient, Python, Fresh, entered, drop_all_peers, ping_packet, sends, emit}
use proxy_net.Client.Peers.{forget_absent_peers, is_named}
use proxy_net.Client.Inbox.{flush_deferred, defer_if_unreadable, deliver, has_type}
use proxy_net.Client.Exchange.{send_offer, handle_key_exchange}

abbrev pub keepalive_interval_ms : ℕ
keepalive_interval_ms = 30000

-- The name the server settled on, where it sent one.
abbrev pub renamed : ChatClient → Option Text → ChatClient
renamed c none = c
renamed c (some []) = c
renamed c (some (d ∷ ds)) = record c { username = d ∷ ds }

abbrev pub outcome : ChatClient × Bool → (ChatClient → ChatClient) → ChatClient
outcome (c, true) f = c
outcome (c, false) f = f c

module _ (lib : KeyLibrary) where
  -- The room the server settled on, where it is another one.
  unfoldable pub moved : Fresh → ChatClient → Option Text → ChatClient × Result KeyError (Unit {0})
  moved fresh c none = (c, ok tt)
  moved fresh c (some room) =
      if is_named room && not (room == c.room)
      then entered lib fresh (drop_all_peers c) room
      else (c, ok tt)

  -- The offer is sent unless the move raised.
  abbrev pub offer_after :
      ChatClient × Result KeyError (Unit {0}) → ChatClient × Result KeyError (Unit {0})
  offer_after (c, err e) = (c, err e)
  offer_after (c, ok _) = send_offer lib c

  unfoldable pub absorb_session_state :
      Fresh → ChatClient → Fields → ChatClient × Result KeyError (Unit {0})
  absorb_session_state fresh c packet =
      if has_type packet (text "room_snapshot")
      then send_offer lib (forget_absent_peers c (get_field packet (text "users")))
      else if not (has_type packet (text "joined"))
      then (c, ok tt)
      else offer_after (
          moved fresh (renamed c (text_field packet (text "user")))
            (text_field packet (text "room")))

module _ (lib : KeyLibrary) (python : Python) where
  -- After the key exchange: a packet that did not end there.
  abbrev pub pass_on :
      ℕ → Fields → ChatClient × Result KeyError Bool → ChatClient × Result KeyError (Unit {0})
  pass_on now packet (c, err e) = (c, err e)
  pass_on now packet (c, ok true) = (c, ok tt)
  pass_on now packet (c, ok false) = (
    outcome (defer_if_unreadable lib python (flush_deferred lib python c now) now packet)
        (λ d. deliver lib python d packet),
    ok tt,
  )

  abbrev pub after_absorbed :
      Fresh
      → ℕ
      → Fields
      → ChatClient × Result KeyError (Unit {0})
      → ChatClient × Result KeyError (Unit {0})
  after_absorbed fresh now packet (c, err e) = (c, err e)
  after_absorbed fresh now packet (c, ok _) =
      pass_on now packet (handle_key_exchange lib python fresh c now packet)

  unfoldable pub receive : Fresh → ChatClient → ℕ → Fields → ChatClient × Result KeyError (Unit {0})
  receive fresh c now packet =
      after_absorbed fresh now packet (absorb_session_state lib fresh c packet)

  -- A turn of the keepalive loop, whose pings are sent, and the time of its last ping.
  unfoldable pub keepalive_turn : ChatClient → ℕ → ℕ → ChatClient × ℕ
  keepalive_turn c now last_ping =
      let flushed = flush_deferred lib python c now in
      if ltb (now - last_ping) keepalive_interval_ms
      then (flushed, last_ping)
      else (emit flushed (sends ping_packet), now)
