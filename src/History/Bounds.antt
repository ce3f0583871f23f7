-- ===== src/History/Bounds.antt =====
-- `_append_history` of core/server.py keeps little, and nothing encrypted.
use proxy_net.Prelude.{
  ℕ, zero, suc, ◌-◌, ◌≤◌, ◌≡◌, inl, inr, List, [], ◌∷◌, ◌++◌, Bool, true, false, some, ltb, length,
  drop, length-drop, All, arith, Bool-cases, Option-cases, Text, text_eq, ◌==◌, ==_iff,
}
use proxy_net.Dict.{get, put, remove}
use proxy_net.Dict.Laws.{Distinct, get-put, get-remove, put-Distinct, remove-Distinct}
use proxy_net.Hub.{MessagePacket}
use proxy_net.History.{
  History, append_history, store, drop_oldest, last, or_no_messages, is_encrypted,
  max_history_messages, max_history_rooms,
}

abbrev pub Plain : MessagePacket → Type 0
Plain p = is_encrypted p ≡ false

-- Few rooms, few messages of each, none of them encrypted.
pub record IsBounded (h : History) : Type 0 where
  pub distinct : Distinct h
  pub few_rooms : length h ≤ max_history_rooms
  pub few_messages :
      (room : Text) (ms : List MessagePacket)
      → get h room ≡ some ms
      → (length ms ≤ max_history_messages) × All Plain ms

drop_oldest_few : (h : History) → length (drop_oldest h) ≤ max_history_rooms
unfolding drop_oldest
drop_oldest_few [] = omega arith
drop_oldest_few ((room, ms) ∷ rest) = ground (arith, drop_oldest_few rest)

drop_oldest-Distinct : (h : History) → Distinct h → Distinct (drop_oldest h)
unfolding drop_oldest
drop_oldest-Distinct [] d = tt
drop_oldest-Distinct ((room, ms) ∷ rest) d =
    elim (Bool-cases (ltb max_history_rooms (length ((room, ms) ∷ rest)))) [
      | inl many ↦ rw many (drop_oldest-Distinct rest d.1)
      | inr few ↦ rw few d
    ]

-- What is left was there.
get-drop_oldest :
    (h : History) (room : Text) (ms : List MessagePacket)
    → Distinct h
    → get (drop_oldest h) room ≡ some ms
    → get h room ≡ some ms
unfolding drop_oldest get
get-drop_oldest [] room ms d e = cc
get-drop_oldest ((r, ns) ∷ rest) room ms d e =
    ground (arith, get-drop_oldest rest room ms d.1, ==_iff r room)

drop-Plain : (n : ℕ) (xs : List MessagePacket) → All Plain xs → All Plain (drop n xs)
drop-Plain zero xs a = a
drop-Plain (suc n) [] a = a
drop-Plain (suc n) (x ∷ xs) a = drop-Plain n xs a.1

append-Plain :
    (xs : List MessagePacket) (p : MessagePacket)
    → All Plain xs
    → Plain p
    → All Plain (xs ++ p ∷ [])
append-Plain [] p a b = (b, tt)
append-Plain (x ∷ xs) p a b = (a.0, append-Plain xs p a.1 b)

last_few : (xs : List MessagePacket) → length (last max_history_messages xs) ≤ max_history_messages
unfolding last
last_few xs = omega (arith, length-drop (length xs - max_history_messages) xs)

kept-Plain : (h : History) (room : Text) → IsBounded h → All Plain (or_no_messages (get h room))
kept-Plain h room b = elim (Option-cases (get h room)) [
  | inl e ↦ rw e tt
  | inr (ms, e) ↦ rw e (b.few_messages room ms e).1
]

store-IsBounded :
    (h : History) (room : Text) (p : MessagePacket)
    → Plain p
    → IsBounded h
    → IsBounded (store h room p)
unfolding store last
store-IsBounded h room p plain b =
    let ms : List MessagePacket =
      last max_history_messages (or_no_messages (get h room) ++ p ∷ []) in
    let kept : History = put (remove h room) room ms in
    let distinct_kept = put-Distinct (remove h room) room ms (remove-Distinct h room b.distinct) in
    let all_plain : All Plain ms =
      drop-Plain (length (or_no_messages (get h room) ++ p ∷ []) - max_history_messages)
        (or_no_messages (get h room) ++ p ∷ [])
        (append-Plain (or_no_messages (get h room)) p (kept-Plain h room b) plain) in
    record {
      distinct = drop_oldest-Distinct kept distinct_kept;
      few_rooms = drop_oldest_few kept;
      few_messages = λ other ns e.
          let there = get-drop_oldest kept other ns distinct_kept e in
          elim (Bool-cases (room == other)) [
            | inl same ↦
                let is : ms ≡ ns = ground (arith, get-put (remove h room) room other ms) in
                rw (← is) (last_few (or_no_messages (get h room) ++ p ∷ []), all_plain)
            | inr apart ↦ b.few_messages other ns (
                ground (
                  arith,
                  get-put (remove h room) room other ms,
                  get-remove h room other b.distinct,
                ))
          ];
    }

-- The messages appended over a run of the server, from an empty history.
unfoldable pub append_all : Bool → History → List (Text × MessagePacket) → History
append_all keep h [] = h
append_all keep h ((room, p) ∷ rest) = append_all keep (append_history keep h room p) rest

pub append_history-IsBounded :
    (keep : Bool) (h : History) (room : Text) (p : MessagePacket)
    → IsBounded h
    → IsBounded (append_history keep h room p)
unfolding append_history
append_history-IsBounded false h room p b = b
append_history-IsBounded true h room p b = elim (Bool-cases (is_encrypted p)) [
  | inl hidden ↦ rw hidden b
  | inr plain ↦ rw plain (store-IsBounded h room p plain b)
]

append_from-IsBounded :
    (keep : Bool) (h : History) (sent : List (Text × MessagePacket))
    → IsBounded h
    → IsBounded (append_all keep h sent)
unfolding append_all
append_from-IsBounded keep h [] b = b
append_from-IsBounded keep h ((room, p) ∷ rest) b =
    append_from-IsBounded keep (append_history keep h room p) rest
      (append_history-IsBounded keep h room p b)

-- Whatever messages pass through the server, its history keeps at most 50 rooms and at most 100
-- messages of each, and never an encrypted one.
pub append_all-IsBounded :
    (keep : Bool) (sent : List (Text × MessagePacket)) → IsBounded (append_all keep [] sent)
unfolding get
append_all-IsBounded keep sent =
    append_from-IsBounded keep [] sent
      (record { distinct = tt; few_rooms = omega arith; few_messages = λ room ms e. absurd (cc) })
