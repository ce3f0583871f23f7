-- ===== src/History/Examples.antt =====
-- Runs of the history of core/server.py at concrete inputs.
use proxy_net.Prelude.{
  ℕ, ◌+◌, ◌≤◌, ◌≡◌, refl, List, [], ◌∷◌, ◌++◌, none, some, true, Text, text, arith, text_eq,
}
use proxy_net.Dict.{get, put, remove}
use proxy_net.Hub.{MessagePacket}
use proxy_net.Transport.{max_line_bytes}
use proxy_net.History.{
  History, append_history, store, drop_oldest, last, or_no_messages, select, reversed_onto,
  history_messages, history_packet_margin, max_history_messages,
}
use proxy_net.History.Bounds.{IsBounded, append_all, append_all-IsBounded}
use proxy_net.History.Replies.{total, EndsBefore, history_messages_newest}

abbrev said : ℕ → MessagePacket
said n = record { room = text "general"; user = text "ann"; content = n ∷ []; ts = n; enc = none }

abbrev hidden : MessagePacket
hidden = record {
  room = text "general";
  user = text "ann";
  content = text "x";
  ts = 9;
  enc = some (text "v4");
}

abbrev sent : List (Text × MessagePacket)
sent =
    (text "general", said 1)
    ∷ (text "general", hidden)
    ∷ (text "general", said 2)
    ∷ (text "general", said 3)
    ∷ []

-- The encrypted message is not kept.
kept : append_all true [] sent ≡ (text "general", said 1 ∷ said 2 ∷ said 3 ∷ []) ∷ []
unfolding append_all append_history store drop_oldest last get put remove
kept = refl

append_all-IsBounded_example : IsBounded (append_all true [] sent)
append_all-IsBounded_example = append_all-IsBounded true sent

-- Messages as large as a third of the line: two of the three fit.
abbrev large : MessagePacket → ℕ
large m = 30_000

abbrev history : History
history = (text "general", said 1 ∷ said 2 ∷ said 3 ∷ []) ∷ []

two_fit : history_messages large 50 history (text "general") ≡ said 2 ∷ said 3 ∷ []
unfolding history_messages select reversed_onto last get
two_fit = refl

history_messages_newest_example :
    (older : List MessagePacket) × (last max_history_messages
        (or_no_messages (get history (text "general")))
      ≡ older ++ history_messages large 50 history (text "general"))
    × (history_packet_margin + 50 + total large (history_messages large 50 history (text "general"))
        ≤ max_line_bytes)
    × EndsBefore large
        (history_packet_margin
          + 50
          + total large (history_messages large 50 history (text "general")))
        older
history_messages_newest_example =
    history_messages_newest large history (text "general") 50 (omega arith)
