-- ===== src/History/Replies.antt =====
-- `_history_packet` of core/server.py: which messages a newcomer gets.
use proxy_net.Prelude.{
  ℕ, ◌+◌, ◌≤◌, ◌<◌, ◌≡◌, refl, ◌⊎◌, inl, inr, List, [], ◌∷◌, ◌++◌, ltb, arith, Bool-cases, Text,
  text_eq, append_assoc, append-nil, sym, ap, ◌∙◌,
}
use mathlib.Core.Path.{subst}
use proxy_net.Dict.{get}
use proxy_net.Hub.{MessagePacket}
use proxy_net.Transport.{max_line_bytes}
use proxy_net.History.{
  History, last, or_no_messages, select, reversed_onto, history_messages, max_history_messages,
  history_packet_margin,
}

reversed_onto_lem :
    (acc xs : List MessagePacket) → reversed_onto acc xs ≡ reversed_onto [] xs ++ acc
unfolding reversed_onto
reversed_onto_lem acc [] = refl
reversed_onto_lem acc (x ∷ xs) =
    reversed_onto_lem (x ∷ acc) xs
    ∙ sym (append_assoc (reversed_onto [] xs) (x ∷ []) acc)
    ∙ ap (λ (l : List MessagePacket). l ++ acc) (sym (reversed_onto_lem (x ∷ []) xs))

reversed_onto-append :
    (acc xs ys : List MessagePacket)
    → reversed_onto acc (xs ++ ys) ≡ reversed_onto (reversed_onto acc xs) ys
unfolding reversed_onto
reversed_onto-append acc [] ys = refl
reversed_onto-append acc (x ∷ xs) ys = reversed_onto-append (x ∷ acc) xs ys

reversed_twice :
    (acc xs : List MessagePacket)
    → reversed_onto [] (reversed_onto acc xs) ≡ reversed_onto [] acc ++ xs
unfolding reversed_onto
reversed_twice acc [] = sym (append-nil (reversed_onto [] acc))
reversed_twice acc (x ∷ xs) =
    reversed_twice (x ∷ acc) xs
    ∙ ap (λ (l : List MessagePacket). l ++ xs) (reversed_onto_lem (x ∷ []) acc)
    ∙ append_assoc (reversed_onto [] acc) (x ∷ []) xs

module _ (cost : MessagePacket → ℕ) where
  abbrev pub total : List MessagePacket → ℕ
  total [] = 0
  total (m ∷ ms) = cost m + total ms

  total-reversed_onto :
      (acc xs : List MessagePacket) → total (reversed_onto acc xs) ≡ total acc + total xs
  unfolding reversed_onto
  total-reversed_onto acc [] = omega arith
  total-reversed_onto acc (x ∷ xs) = omega (arith, total-reversed_onto (x ∷ acc) xs)

  -- There is nothing more, or the next one would go over the limit.
  abbrev Ends : ℕ → List MessagePacket → Type 0
  Ends spent [] = Unit
  Ends spent (m ∷ ms) = max_line_bytes < spent + cost m

  select-Ends :
      (spent : ℕ) (xs : List MessagePacket)
      → spent ≤ max_line_bytes
      → (rest : List MessagePacket) × (xs ≡ select cost spent xs ++ rest)
        × (spent + total (select cost spent xs) ≤ max_line_bytes)
        × Ends (spent + total (select cost spent xs)) rest
  unfolding select
  select-Ends spent [] fits = ([], refl, omega arith, tt)
  select-Ends spent (m ∷ ms) fits = elim (Bool-cases (ltb max_line_bytes (spent + cost m))) [
    | inl over ↦ rw (over, select) (m ∷ ms, refl, omega arith, ground arith)
    | inr under ↦
        let (rest, cut, fits', ends) = select-Ends (spent + cost m) ms (ground arith) in
        rw (under, select)
          (rest, ap (◌∷◌ m) cut, omega arith, subst (λ n. Ends n rest) (omega arith) ends)
  ]

  -- Nothing older is left, or the newest of what is left would go over the limit.
  abbrev pub EndsBefore : ℕ → List MessagePacket → Type 0
  EndsBefore spent older =
      (older ≡ [])
      ⊎ ((rest : List MessagePacket) × (m : MessagePacket) × (older ≡ rest ++ m ∷ [])
          × (max_line_bytes < spent + cost m))

  reversed-EndsBefore :
      (spent : ℕ) (rest : List MessagePacket)
      → Ends spent rest
      → EndsBefore spent (reversed_onto [] rest)
  unfolding reversed_onto
  reversed-EndsBefore spent [] e = inl refl
  reversed-EndsBefore spent (m ∷ ms) e =
      inr (reversed_onto [] ms, m, reversed_onto_lem (m ∷ []) ms, e)

  abbrev spent_at_first : ℕ → ℕ
  spent_at_first empty = history_packet_margin + empty

  -- If the packet without messages fits, a newcomer to a room gets the newest of its last 100
  -- messages, in order and without a gap: as many as fit the line limit less the margin, by the
  -- sizes of their encodings, and no fewer.
  pub history_messages_newest :
      (h : History) (room : Text) (empty : ℕ)
      → history_packet_margin + empty ≤ max_line_bytes
      → (older : List MessagePacket) × (last max_history_messages (or_no_messages (get h room))
          ≡ older ++ history_messages cost empty h room)
        × (history_packet_margin + empty + total (history_messages cost empty h room)
            ≤ max_line_bytes)
        × EndsBefore
            (history_packet_margin + empty + total (history_messages cost empty h room))
            older
  unfolding history_messages reversed_onto
  history_messages_newest h room empty fits =
      let kept : List MessagePacket = last max_history_messages (or_no_messages (get h room)) in
      let newest_first : List MessagePacket = reversed_onto [] kept in
      let chosen : List MessagePacket = select cost (history_packet_margin + empty) newest_first in
      let (rest, cut, within, ends) =
        select-Ends (history_packet_margin + empty) newest_first fits in
      let same_total : total (reversed_onto [] chosen) ≡ total chosen =
        omega (arith, total-reversed_onto [] chosen) in
      (
        reversed_onto [] rest,
        sym (reversed_twice [] kept)
            ∙ ap (λ (l : List MessagePacket). reversed_onto [] l) cut
            ∙ reversed_onto-append [] chosen rest
            ∙ reversed_onto_lem (reversed_onto [] chosen) rest,
        omega arith,
        subst (λ n. EndsBefore (history_packet_margin + empty + n) (reversed_onto [] rest))
            (sym same_total)
            (reversed-EndsBefore (history_packet_margin + empty + total chosen) rest ends),
      )
