-- ===== src/Relay/Examples.antt =====
-- Runs of the relay at concrete inputs: two participants of a room, one that speaks.
use proxy_net.Prelude.{
  ℕ, ◌≡◌, ◌↔◌, refl, List, [], ◌∷◌, ◌++◌, none, some, Text, text, replicate, arith, Member,
}
use proxy_net.Bytes.{Bytes, from_bytes}
use proxy_net.Dict.{get, put}
use proxy_net.VoicePacket.{VoiceHeader, header_unpack, type_audio, type_hello, decode_header}
use proxy_net.Relay.{
  Relay, Participant, JoinRequest, new, handle, find, leave, join, enter, participant_of,
  room_codec, first_codec, participants, load, hello, handle_peer, handle_header, forward,
  target_address, within_rate_limit, write, reject,
}
use proxy_net.Relay.Valid.{IsValid}
use proxy_net.Relay.Membership.{Call, joins, leaves, receives, run, step, relay_run-IsValid}
use proxy_net.Relay.Binding.{Delivers, handle-Delivers, Binds, handle-Binds, Hears}
use proxy_net.Relay.Forwarding.{handle-forwards}
use proxy_net.Relay.Ids.{Ascending, handed_out, handed_out-Ascending}

abbrev request : Text → Text → JoinRequest
request c ip = record {
  client_id = c;
  username = c;
  room = text "general";
  ip = ip;
  session_salt = text "s";
  codec = text "pcm";
  public_key = text "k";
}

abbrev sent_by : ℕ → ℕ → Bytes
sent_by type id = 1 ∷ type ∷ 0 ∷ 0 ∷ 0 ∷ id ∷ 0 ∷ 0 ∷ 0 ∷ 0 ∷ 0 ∷ 0 ∷ 0 ∷ 1 ∷ 0 ∷ 0 ∷ 0 ∷ 0 ∷ []

abbrev home : Text
home = text "10.0.0.1"

abbrev work : Text
work = text "10.0.0.2"

abbrev calls : List Call
calls =
    joins (request (text "a") home) (replicate 16 7)
    ∷ joins (request (text "b") work) (replicate 16 8)
    ∷ receives (sent_by type_hello 1 ++ replicate 16 7) (home, 4000) 5
    ∷ receives (sent_by type_hello 2 ++ replicate 16 8) (work, 5000) 6
    ∷ []

abbrev talk : Bytes
talk = sent_by type_audio 1 ++ (1 ∷ 2 ∷ 3 ∷ [])

abbrev before : Relay
before = run new calls

-- b hears a, with the datagram unchanged; a stranger at another port is not forwarded.
b_hears_a : (handle before talk (home, 4000) 7).1 ≡ (talk, (work, 5000)) ∷ []
unfolding run step join leave find enter participant_of room_codec first_codec participants load
    handle decode_header header_unpack from_bytes get put handle_header handle_peer hello forward
    target_address within_rate_limit write reject
b_hears_a = refl

stranger_unheard : (handle before talk (home, 4001) 7).1 ≡ []
unfolding run step join leave find enter participant_of room_codec first_codec participants load
    handle decode_header header_unpack from_bytes get put handle_header handle_peer hello forward
    target_address within_rate_limit write reject
stranger_unheard = refl

-- The histories of this file keep the relay valid.
relay_run-IsValid_example : IsValid (run new calls)
relay_run-IsValid_example = relay_run-IsValid calls

handle-Delivers_example :
    Delivers before talk
      (home, 4000)
      (handle before talk (home, 4000) 7).0
      (handle before talk (home, 4000) 7).1
handle-Delivers_example = handle-Delivers before talk (home, 4000) 7

abbrev participant : Text → Text → ℕ → ℕ → Participant
participant c ip id token = record {
  client_id = c;
  username = c;
  room = text "general";
  sender_id = id;
  token = replicate 16 token;
  ip = ip;
  session_salt = text "s";
  codec = text "pcm";
  public_key = text "k";
  address = none;
  window_start = 0;
  window_count = 0;
}

-- a after its greeting.
abbrev a_bound : Participant
a_bound = record (participant (text "a") home 1 7) { address = some (home, 4000) }

abbrev greeting : Bytes
greeting = sent_by type_hello 1 ++ replicate 16 7

abbrev joined : Relay
joined = run new (joins (request (text "a") home) (replicate 16 7) ∷ [])

handle-Binds_example :
    Binds joined greeting (home, 4000) 0 (participant (text "a") home 1 7) a_bound
unfolding run step join leave find enter participant_of room_codec first_codec participants load
    handle decode_header header_unpack from_bytes get put handle_header handle_peer hello forward
    target_address within_rate_limit write reject
handle-Binds_example =
    handle-Binds joined greeting (home, 4000) 5 0 (participant (text "a") home 1 7) a_bound refl
      refl

handed_out-Ascending_example : Ascending 1 (
    handed_out new (
      joins (request (text "a") home) []
      ∷ leaves (text "a")
      ∷ joins (request (text "a") home) []
      ∷ []))
handed_out-Ascending_example = handed_out-Ascending new (
    joins (request (text "a") home) []
    ∷ leaves (text "a")
    ∷ joins (request (text "a") home) []
    ∷ [])

abbrev talk_header : VoiceHeader
talk_header = record { version = 1; type = 1; sender_id = 1; sequence = 1; timestamp_ms = 0 }

handle-forwards_example : Member (talk, (work, 5000)) (handle before talk (home, 4000) 7).1 ↔ (
    (talk ≡ talk)
    × (t : Participant) × Member t (participants (handle before talk (home, 4000) 7).0)
    × Hears (text "general") 1 t (work, 5000))
unfolding run step join leave find enter participant_of room_codec first_codec participants load
    handle decode_header header_unpack from_bytes get put handle_header handle_peer hello forward
    target_address within_rate_limit write reject
handle-forwards_example =
    handle-forwards before talk (home, 4000) 7 0 talk_header a_bound (omega arith) (omega arith)
      refl refl refl refl refl refl refl talk (work, 5000)
