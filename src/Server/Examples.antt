-- ===== src/Server/Examples.antt =====
-- Runs of core/server.py at concrete inputs.
use proxy_net.Prelude.{
  refl, List, [], ◌∷◌, ◌++◌, true, false, some, All, Text, text, text_eq, length,
}
use proxy_net.Dict.{get, put, contains}
use proxy_net.Hub.{usernames, usernames_of, members}
use proxy_net.Names.{clean_name, words, spaced, unique_username, is_among}
use proxy_net.RateLimit
use proxy_net.Packets.{Fields, end, field, string, get_field, text_field}
use proxy_net.Server.{
  Runtime, Moment, Connection, rate_limit_messages, rate_limit_window, key_exchange_rate_limit,
}
use proxy_net.Server.Rooms.{handshake, admit}
use proxy_net.Server.Loop.{handle_packet}
use proxy_net.Server.Senders.{IsOwn}
use proxy_net.Server.Threads.{Event, arrives, ends, IsRunning, new_server, step, run}
use proxy_net.Server.Runs.{sent_by, server_run-IsRunning, server_names_senders}

abbrev env : Runtime
env = record {
  is_space = λ c. false;
  casefold = λ t. t;
  strip = λ t. t;
  str = λ value. [];
  str_or_empty = λ value. [];
  utf8_size = λ t. length t;
  message_size = λ m. 100;
  history_size = λ room. 60;
}

abbrev now : Moment
now = record { monotonic = 5; wall = 7; token = [] }

abbrev join_packet : Text → Fields
join_packet user =
    field (text "type") (string (text "join"))
      (field (text "room") (string (text "general")) (field (text "user") (string user) end))

abbrev events : List Event
events = arrives now (text "c1") 1 [] (some (join_packet (text "ann"))) ∷ []

abbrev ann : Connection
ann = record {
  client_id = text "c1";
  line = 1;
  peer_ip = [];
  room = text "general";
  username = text "ann";
  limiter = RateLimit.new rate_limit_messages rate_limit_window;
  key_limiter = RateLimit.new key_exchange_rate_limit rate_limit_window;
  rate_limit_warned = false;
}

-- An offer in another's name.
abbrev forged : Fields
forged =
    field (text "type") (string (text "key_offer"))
      (field (text "user") (string (text "veli")) (field (text "pub") (string (text "k")) end))

server_run-IsRunning_example :
    IsRunning (run env (new_server true 5555) (events ++ ends (text "c1") ∷ []))
server_run-IsRunning_example = server_run-IsRunning env true 5555 (events ++ ends (text "c1") ∷ [])

server_names_senders_example :
    All
      (IsOwn (run env (new_server true 5555) events).server ann)
      (sent_by (handle_packet env now (run env (new_server true 5555) events).server ann forged))
unfolding run step handshake admit contains get put clean_name words spaced unique_username is_among
    usernames get_field text_field usernames_of members
server_names_senders_example =
    server_names_senders env true 5555 events now (text "c1") ann forged refl
