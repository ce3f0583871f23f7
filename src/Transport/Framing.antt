-- ===== src/Transport/Framing.antt =====
-- core/transport.py: the lines that a peer's bytes hold do not depend on how they are cut into
-- chunks.
use proxy_net.Prelude.{
  ℕ, zero, suc, ◌+◌, ◌≤◌, ◌<◌, ◌≡◌, ◌≢◌, refl, ◌⊎◌, inl, inr, List, [], ◌∷◌, ◌++◌, true, false,
  none, some, ltb, eqb, if◌then◌else◌, length, length-append, All, arith, Bool-cases, Option-cases,
  append_assoc, append-nil, ap, sym, ◌∙◌,
}
use mathlib.Core.Path.{subst}
use proxy_net.Bytes.{Bytes}
use proxy_net.Transport.{
  LineSocket, Outcome, line, closed, too_large, split_line, is_blank, Filled, found, overflowed,
  ended, fill, after_fill, recv, recv_packet, joined, stream,
}

abbrev pub last_outcomes : ℕ → Bytes → List Outcome
last_outcomes max_line [] = closed ∷ []
last_outcomes max_line (b ∷ bs) =
    if ltb max_line (length (b ∷ bs)) then too_large ∷ [] else line (b ∷ bs) ∷ closed ∷ []

-- The outcomes that a stream of bytes stands for, read byte by byte behind a begun line: each line
-- within the limit that is not blank, up to the end or the first line over the limit.
unfoldable pub outcomes : ℕ → Bytes → Bytes → List Outcome
outcomes max_line begun [] = last_outcomes max_line begun
outcomes max_line begun (b ∷ bs) =
    let next = outcomes max_line [] bs in
    let more = outcomes max_line (begun ++ b ∷ []) bs in
    if eqb b 10
    then (if ltb max_line (length begun)
        then too_large ∷ []
        else if is_blank begun
        then next
        else line begun ∷ next)
    else more

-- A begun line over the limit ends it.
outcomes_over :
    (max_line : ℕ) (begun bs : Bytes)
    → ltb max_line (length begun) ≡ true
    → outcomes max_line begun bs ≡ too_large ∷ []
unfolding outcomes
outcomes_over max_line [] [] e = ground arith
outcomes_over max_line (c ∷ cs) [] e = rw e refl
outcomes_over max_line begun (b ∷ bs) e = elim (Bool-cases (eqb b 10)) [
  | inl newline ↦ simp (newline, e) refl
  | inr other ↦
      simp other
        (outcomes_over max_line (begun ++ b ∷ []) bs (ground (arith, length-append begun (b ∷ []))))
]

-- Bytes without a newline only lengthen the begun line.
outcomes_through :
    (max_line : ℕ) (begun buffer bs : Bytes)
    → split_line buffer ≡ none
    → outcomes max_line begun (buffer ++ bs) ≡ outcomes max_line (begun ++ buffer) bs
unfolding outcomes split_line
outcomes_through max_line begun [] bs e =
    ap (λ (x : Bytes). outcomes max_line x bs) (sym (append-nil begun))
outcomes_through max_line begun (b ∷ buffer) bs e = elim (Bool-cases (eqb b 10)) [
  | inl newline ↦ let f = simp newline at e in absurd (cc)
  | inr other ↦
      let clear : split_line buffer ≡ none = ground (arith) in
      simp other (
        outcomes_through max_line (begun ++ b ∷ []) buffer bs clear
        ∙ ap (λ (x : Bytes). outcomes max_line x bs) (append_assoc begun (b ∷ []) buffer))
]

-- What a whole line stands for, before the bytes behind it.
abbrev after_line : ℕ → Bytes → Bytes → List Outcome
after_line max_line l bs =
    if ltb max_line (length l)
    then too_large ∷ []
    else if is_blank l
    then outcomes max_line [] bs
    else line l ∷ outcomes max_line [] bs

-- Behind the first newline the next line begins.
outcomes_line :
    (max_line : ℕ) (begun buffer l r bs : Bytes)
    → split_line buffer ≡ some (l, r)
    → outcomes max_line begun (buffer ++ bs) ≡ after_line max_line (begun ++ l) (r ++ bs)
unfolding outcomes split_line
outcomes_line max_line begun [] l r bs e = cc
outcomes_line max_line begun (b ∷ buffer) l r bs e = elim (Bool-cases (eqb b 10)) [
  | inl newline ↦
      let f = simp newline at e in
      let is : [] ≡ l = cc in
      let behind : buffer ≡ r = cc in rw (← is, ← behind, append-nil begun) (simp newline refl)
  | inr other ↦ elim (Option-cases (split_line buffer)) [
    | inl clear ↦ let f = simp (other, clear) at e in absurd (cc)
    | inr ((k, q), cut) ↦
        let f = simp (other, cut) at e in
        let is : b ∷ k ≡ l = cc in
        let behind : q ≡ r = cc in
        rw (← is, ← behind, ← append_assoc begun (b ∷ []) k)
          (simp other (outcomes_line max_line (begun ++ b ∷ []) buffer k q bs cut))
  ]
]

split_line_shorter :
    (buffer l r : Bytes) → split_line buffer ≡ some (l, r) → length r < length buffer
unfolding split_line
split_line_shorter [] l r e = cc
split_line_shorter (b ∷ buffer) l r e = elim (Bool-cases (eqb b 10)) [
  | inl newline ↦
      let f = simp newline at e in let behind : buffer ≡ r = cc in rw (← behind) (omega arith)
  | inr other ↦ elim (Option-cases (split_line buffer)) [
    | inl clear ↦ let f = simp (other, clear) at e in absurd (cc)
    | inr ((k, q), cut) ↦
        let f = simp (other, cut) at e in
        let behind : q ≡ r = cc in
        let ih = split_line_shorter buffer k q cut in rw (← behind) (omega arith)
  ]
]

outcomes_end :
    (max_line : ℕ) (begun : Bytes) → outcomes max_line begun [] ≡ last_outcomes max_line begun
unfolding outcomes
outcomes_end max_line begun = refl

abbrev pub HasBytes : Bytes → Type 0
HasBytes c = c ≢ []

-- How the inner loop ends, against the bytes that were there and are to come.
abbrev Fills : ℕ → Bytes → Filled × List Bytes → Type 0
Fills max_line bs (found l r, rest) =
    (outcomes max_line [] bs ≡ after_line max_line l (r ++ joined rest))
    × (length (r ++ joined rest) < length bs)
    × All HasBytes rest
Fills max_line bs (overflowed, rest) = outcomes max_line [] bs ≡ too_large ∷ []
Fills max_line bs (ended last, rest) =
    (outcomes max_line [] bs ≡ last_outcomes max_line last)
    × (rest ≡ [])
    × (length last ≤ max_line)
    × (last ≡ bs)

fill-Fills :
    (max_line : ℕ) (buffer : Bytes) (chunks : List Bytes)
    → All HasBytes chunks
    → Fills max_line (buffer ++ joined chunks) (fill max_line buffer chunks)
unfolding fill joined
fill-Fills max_line buffer [] a = elim (Option-cases (split_line buffer)) [
  | inr ((l, r), cut) ↦
      let shorter = split_line_shorter buffer l r cut in
      rw (cut, fill)
        (
          outcomes_line max_line [] buffer l r [] cut,
          omega (arith, length-append r [], length-append buffer []),
          tt,
        )
  | inl clear ↦ elim (Bool-cases (ltb max_line (length buffer))) [
    | inl over ↦
        rw (clear, over, fill)
          (outcomes_through max_line [] buffer [] clear ∙ outcomes_over max_line buffer [] over)
    | inr within ↦
        rw (clear, within, fill)
          (
            outcomes_through max_line [] buffer [] clear ∙ outcomes_end max_line buffer,
            refl,
            ground arith,
            sym (append-nil buffer),
          )
  ]
]
fill-Fills max_line buffer ([] ∷ chunks) a = absurd (a.0 refl)
fill-Fills max_line buffer ((b ∷ bs) ∷ chunks) a = elim (Option-cases (split_line buffer)) [
  | inr ((l, r), cut) ↦
      let shorter = split_line_shorter buffer l r cut in
      rw (cut, fill)
        (
          outcomes_line max_line [] buffer l r ((b ∷ bs) ++ joined chunks) cut,
          omega (
            arith,
            length-append r ((b ∷ bs) ++ joined chunks),
            length-append buffer ((b ∷ bs) ++ joined chunks),
          ),
          a,
        )
  | inl clear ↦ elim (Bool-cases (ltb max_line (length buffer))) [
    | inl over ↦
        rw (clear, over, fill)
          (outcomes_through max_line [] buffer ((b ∷ bs) ++ joined chunks) clear
            ∙ outcomes_over max_line buffer ((b ∷ bs) ++ joined chunks) over)
    | inr within ↦
        rw (clear, within, fill)
          (subst (λ x. Fills max_line x (fill max_line (buffer ++ (b ∷ bs)) chunks))
            (append_assoc buffer (b ∷ bs) (joined chunks))
            (fill-Fills max_line (buffer ++ (b ∷ bs)) chunks a.1))
  ]
]

abbrev followed : Outcome → List Outcome → List Outcome
followed (line l) rest = line l ∷ rest
followed closed rest = closed ∷ []
followed too_large rest = too_large ∷ []

-- What a call returns is the first of the outcomes; behind a line the others are still to come, and
-- fewer bytes.
abbrev Receives : ℕ → Bytes → Outcome × LineSocket → Type 0
Receives max_line bs (o, s) =
    (outcomes max_line [] bs ≡ followed o (outcomes max_line [] (stream s)))
    × ((o ≡ closed)
        ⊎ (o ≡ too_large)
        ⊎ ((length (stream s) < length bs) × All HasBytes s.chunks × (s.max_line ≡ max_line)))

over_less :
    (max_line : ℕ) (bs next : Bytes) (out : Outcome × LineSocket)
    → outcomes max_line [] bs ≡ outcomes max_line [] next
    → length next < length bs
    → Receives max_line next out
    → Receives max_line bs out
over_less max_line bs next (o, s) same less (is, inl e) = (same ∙ is, inl e)
over_less max_line bs next (o, s) same less (is, inr (inl e)) = (same ∙ is, inr (inl e))
over_less max_line bs next (o, s) same less (is, inr (inr (shorter, rest, kept))) =
    (same ∙ is, inr (inr (omega arith, rest, kept)))

-- One round, where the next rounds receive what is left.
after_fill-Receives :
    (again : LineSocket → Outcome × LineSocket) (s : LineSocket) (out : Filled × List Bytes)
    → ((s' : LineSocket)
        → All HasBytes s'.chunks
        → length (stream s') < length (stream s)
        → Receives s'.max_line (stream s') (again s'))
    → Fills s.max_line (stream s) out
    → Receives s.max_line (stream s) (after_fill again s out)
unfolding after_fill outcomes joined
after_fill-Receives again s (found l r, rest) next (is, shorter, more) =
    elim (Bool-cases (ltb s.max_line (length l))) [
      | inl over ↦ let f = simp over at is in rw (over, after_fill) (f, inr (inl refl))
      | inr within ↦ elim (Bool-cases (is_blank l)) [
        | inl blank ↦
            let f = simp (within, blank) at is in
            rw (within, blank, after_fill)
              (over_less s.max_line (stream s) (r ++ joined rest)
                (again (record s { buffer = r; chunks = rest })) f shorter
                (next (record s { buffer = r; chunks = rest }) more shorter))
        | inr full ↦
            let f = simp (within, full) at is in
            rw (within, full, after_fill) (f, inr (inr (shorter, more, refl)))
      ]
    ]
after_fill-Receives again s (overflowed, rest) next is = (is, inr (inl refl))
after_fill-Receives again s (ended [], rest) next (is, none_left, fits, all) = (is, inl refl)
after_fill-Receives again s (ended (b ∷ bs), c ∷ rest) next (is, none_left, fits, all) = absurd (cc)
after_fill-Receives again s (ended (b ∷ bs), []) next (is, none_left, fits, all) =
    let within : ltb s.max_line (length (b ∷ bs)) ≡ false = ground arith in
    let f = simp within at is in (f, inr (inr (omega (arith, ap length all), tt, refl)))

recv-Receives :
    (fuel : ℕ) (s : LineSocket)
    → All HasBytes s.chunks
    → length (stream s) < fuel
    → Receives s.max_line (stream s) (recv fuel s)
unfolding recv
recv-Receives zero s a few = absurd (omega arith)
recv-Receives (suc fuel) s a few =
    after_fill-Receives (recv fuel) s (fill s.max_line s.buffer s.chunks)
      (λ s' a' less. recv-Receives fuel s' a' (omega arith))
      (fill-Fills s.max_line s.buffer s.chunks a)

-- The calls of `recv_packet`, up to the one that returns no line.
abbrev pub then_all : (LineSocket → List Outcome) → Outcome × LineSocket → List Outcome
then_all again (o, s) = followed o (again s)

unfoldable pub receive_all : ℕ → LineSocket → List Outcome
receive_all zero s = []
receive_all (suc n) s = then_all (receive_all n) (recv_packet s)

then_all-outcomes :
    (again : LineSocket → List Outcome) (s : LineSocket) (out : Outcome × LineSocket)
    → ((s' : LineSocket)
        → All HasBytes s'.chunks
        → length (stream s') < length (stream s)
        → again s' ≡ outcomes s'.max_line [] (stream s'))
    → Receives s.max_line (stream s) out
    → then_all again out ≡ outcomes s.max_line [] (stream s)
then_all-outcomes again s (line l, s') next (is, inl no_line) = absurd (cc)
then_all-outcomes again s (line l, s') next (is, inr (inl no_line)) = absurd (cc)
then_all-outcomes again s (line l, s') next (is, inr (inr (less, more, same))) = sym (
    is
    ∙ sym (
        ap (λ (x : List Outcome). line l ∷ x)
          (next s' more less ∙ ap (λ (m : ℕ). outcomes m [] (stream s')) same)))
then_all-outcomes again s (closed, s') next (is, rest) = sym is
then_all-outcomes again s (too_large, s') next (is, rest) = sym is

-- The calls of `recv_packet` on a socket whose chunks are not empty, up to the one that reports the
-- end or a line over the limit, return what the bytes stand for when they are read one by one,
-- however they are cut into chunks: each line within the limit that is not blank, and the end or
-- the first line over the limit.
pub receive_all-outcomes :
    (n : ℕ) (s : LineSocket)
    → All HasBytes s.chunks
    → length (stream s) < n
    → receive_all n s ≡ outcomes s.max_line [] (stream s)
unfolding receive_all recv_packet
receive_all-outcomes zero s a few = absurd (omega arith)
receive_all-outcomes (suc n) s a few =
    then_all-outcomes (receive_all n) s (recv (length (stream s) + 1) s)
      (λ s' a' less. receive_all-outcomes n s' a' (omega arith))
      (recv-Receives (length (stream s) + 1) s a (omega arith))
