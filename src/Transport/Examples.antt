-- ===== src/Transport/Examples.antt =====
-- Sockets of core/transport.py at concrete inputs.
use proxy_net.Prelude.{◌≡◌, refl, [], ◌∷◌, ◌++◌, replicate, text, arith}
use proxy_net.Transport.{
  LineSocket, line, closed, too_large, split_line, fill, is_blank, after_fill, recv, recv_packet,
  joined, stream,
}
use proxy_net.Transport.Framing.{receive_all, receive_all-outcomes, outcomes}

-- Two lines and a blank one, cut within a line.
abbrev socket : LineSocket
socket = record {
  max_line = 10;
  buffer = [];
  chunks = text "ab" ∷ (text "c" ++ 10 ∷ 13 ∷ 10 ∷ text "d") ∷ text "e" ∷ [];
}

receives_both : receive_all 9 socket ≡ line (text "abc") ∷ line (text "de") ∷ closed ∷ []
unfolding receive_all recv_packet recv after_fill fill split_line is_blank joined
receives_both = refl

-- The line that is too long ends it, though a line follows.
receives_too_large :
    receive_all 40
      (record socket { chunks = text "ok" ∷ (10 ∷ replicate 11 65) ∷ (10 ∷ text "more") ∷ [] })
    ≡ line (text "ok") ∷ too_large ∷ []
unfolding receive_all recv_packet recv after_fill fill split_line is_blank joined
receives_too_large = refl

receive_all-outcomes_example : receive_all 9 socket ≡ outcomes 10 [] (stream socket)
unfolding joined
receive_all-outcomes_example =
    receive_all-outcomes 9 socket ((λ e. cc), ((λ e. cc), ((λ e. cc), tt))) (omega arith)
