-- ===== src/History.antt =====
-- The history of the chat server, core/server.py: `_append_history` and `_history_packet`. The size
-- of a packet is the length of its encoding, a parameter, since the encoder is the JSON library.
pub mod Bounds
pub mod Replies
mod Examples
use proxy_net.Prelude.{
  ℕ, ◌+◌, ◌-◌, ◌*◌, List, [], ◌∷◌, ◌++◌, Bool, true, false, Option, none, some, ltb, if◌then◌else◌,
  length, drop, Text, text_eq,
}
use proxy_net.Dict.{Dict, get, put, remove}
use proxy_net.Hub.{MessagePacket}
use proxy_net.Transport.{max_line_bytes}

abbrev pub max_history_messages : ℕ
max_history_messages = 100

abbrev pub history_packet_margin : ℕ
history_packet_margin = 1024

abbrev pub max_history_rooms : ℕ
max_history_rooms = 50

abbrev pub History : Type 0
History = Dict Text (List MessagePacket)

-- `packet.get("enc")` as a test: neither missing nor empty.
abbrev pub is_encrypted : MessagePacket → Bool
is_encrypted p = elim p.enc [ none ↦ false | some e ↦ elim e [ [] ↦ false | c ∷ cs ↦ true ] ]

abbrev pub or_no_messages : Option (List MessagePacket) → List MessagePacket
or_no_messages none = []
or_no_messages (some ms) = ms

-- xs[-n:], for n above 0
unfoldable pub last : ℕ → List MessagePacket → List MessagePacket
last n xs = drop (length xs - n) xs

-- The loop at the end of `_append_history`: the oldest room is the first.
unfoldable pub drop_oldest : History → History
drop_oldest [] = []
drop_oldest ((room, ms) ∷ rest) =
    if ltb max_history_rooms (length ((room, ms) ∷ rest))
    then drop_oldest rest
    else (room, ms) ∷ rest

-- The packet becomes the latest of its room, and its room the latest.
unfoldable pub store : History → Text → MessagePacket → History
store h room packet = drop_oldest (
    put (remove h room) room
      (last max_history_messages (or_no_messages (get h room) ++ packet ∷ [])))

unfoldable pub append_history : Bool → History → Text → MessagePacket → History
append_history false h room packet = h
append_history true h room packet = if is_encrypted packet then h else store h room packet

unfoldable pub reversed_onto : List MessagePacket → List MessagePacket → List MessagePacket
reversed_onto acc [] = acc
reversed_onto acc (m ∷ ms) = reversed_onto (m ∷ acc) ms

-- The loop of `_history_packet`, the newest message first. Where the source takes the costs off a
-- budget, they are added to what is `spent` here, so that nothing falls below zero.
unfoldable pub select : (MessagePacket → ℕ) → ℕ → List MessagePacket → List MessagePacket
select cost spent [] = []
select cost spent (m ∷ ms) =
    if ltb max_line_bytes (spent + cost m) then [] else m ∷ select cost (spent + cost m) ms

-- The `messages` of `_history_packet`; `empty` is the size of the packet without messages.
unfoldable pub history_messages : (MessagePacket → ℕ) → ℕ → History → Text → List MessagePacket
history_messages cost empty h room = reversed_onto [] (
    select cost (history_packet_margin + empty)
      (reversed_onto [] (last max_history_messages (or_no_messages (get h room)))))
