-- ===== src/Transport.antt =====
-- `LineSocket.recv_packet` of core/transport.py: lines out of the chunks that a socket delivers. The
-- chunks to come are a list; none is left once the peer has closed. The line is returned as it is
-- handed to `decode_packet`, whose JSON library is not modelled.
pub mod Framing
mod Examples
use proxy_net.Prelude.{
  ℕ, zero, suc, ◌+◌, ◌*◌, List, [], ◌∷◌, ◌++◌, Bool, true, false, ◌&&◌, ◌||◌, Option, none, some,
  ltb, leb, eqb, if◌then◌else◌, length,
}
use proxy_net.Bytes.{Bytes}

abbrev pub max_line_bytes : ℕ
max_line_bytes = 64 * 1024

pub record LineSocket : Type 0 where
  pub max_line : ℕ
  pub buffer : Bytes
  pub chunks : List Bytes

-- A line for the decoder, None, or PacketTooLargeError.
pub data Outcome : Type 0 where
  line : Bytes → Outcome
  closed too_large : Outcome

-- `buffer.split(b"\n", 1)`, none where there is no newline.
unfoldable pub split_line : Bytes → Option (Bytes × Bytes)
split_line [] = none
split_line (b ∷ bs) =
    let rest = split_line bs in
    if eqb b 10 then some ([], bs) else elim rest [ none ↦ none | some (l, r) ↦ some (b ∷ l, r) ]

-- `not line.strip()`: nothing but whitespace.
abbrev pub is_space : ℕ → Bool
is_space b = eqb b 32 || (leb 9 b && leb b 13)

unfoldable pub is_blank : Bytes → Bool
is_blank [] = true
is_blank (b ∷ bs) = is_space b && is_blank bs

-- How the inner loop ends: with a line and the rest of the buffer, without a newline within the
-- limit, or because the peer has closed.
pub data Filled : Type 0 where
  found : Bytes → Bytes → Filled
  overflowed : Filled
  ended : Bytes → Filled

-- The buffer holds no newline: the next chunk is read, where the buffer is within the limit.
unfoldable pub fill : ℕ → Bytes → List Bytes → Filled × List Bytes
fill max_line buffer [] = elim (split_line buffer) [
  | some (l, r) ↦ (found l r, [])
  | none ↦ if ltb max_line (length buffer) then (overflowed, []) else (ended buffer, [])
]
fill max_line buffer ([] ∷ chunks) = elim (split_line buffer) [
  | some (l, r) ↦ (found l r, [] ∷ chunks)
  | none ↦
      if ltb max_line (length buffer) then (overflowed, [] ∷ chunks) else (ended buffer, chunks)
]
fill max_line buffer ((b ∷ bs) ∷ chunks) = elim (split_line buffer) [
  | some (l, r) ↦ (found l r, (b ∷ bs) ∷ chunks)
  | none ↦ elim (ltb max_line (length buffer)) [
    | true ↦ (overflowed, (b ∷ bs) ∷ chunks)
    | false ↦ fill max_line (buffer ++ (b ∷ bs)) chunks
  ]
]

-- What is left in the buffer when the peer closes is the last line.
abbrev pub at_end : ℕ → Bytes → List Bytes → Outcome × LineSocket
at_end max_line [] chunks = (closed, record { max_line = max_line; buffer = []; chunks = chunks })
at_end max_line (b ∷ bs) chunks =
    (line (b ∷ bs), record { max_line = max_line; buffer = []; chunks = chunks })

-- One round of the outer loop; `again` is the next.
unfoldable pub after_fill :
    (LineSocket → Outcome × LineSocket) → LineSocket → Filled × List Bytes → Outcome × LineSocket
after_fill again s (found l r, chunks) = elim (ltb s.max_line (length l)) [
  | true ↦ (too_large, record s { buffer = r; chunks = chunks })
  | false ↦ elim (is_blank l) [
    | true ↦ again (record s { buffer = r; chunks = chunks })
    | false ↦ (line l, record s { buffer = r; chunks = chunks })
  ]
]
after_fill again s (overflowed, chunks) = (too_large, record s { buffer = []; chunks = chunks })
after_fill again s (ended buffer, chunks) = at_end s.max_line buffer chunks

-- The outer loop. Each blank line takes a byte, so that the bytes to come are enough fuel.
unfoldable pub recv : ℕ → LineSocket → Outcome × LineSocket
recv zero s = (too_large, s)
recv (suc fuel) s = after_fill (recv fuel) s (fill s.max_line s.buffer s.chunks)

-- The chunks in a row.
unfoldable pub joined : List Bytes → Bytes
joined [] = []
joined (c ∷ cs) = c ++ joined cs

-- What was received and is to come.
abbrev pub stream : LineSocket → Bytes
stream s = s.buffer ++ joined s.chunks

unfoldable pub recv_packet : LineSocket → Outcome × LineSocket
recv_packet s = recv (length (stream s) + 1) s
