-- ===== src/Names.antt =====
-- The names of core/server.py: `_clean_name` and `_unique_username`. `str.isspace` of a character
-- and `str.casefold` are parameters.
pub mod Unique
mod Examples
use proxy_net.Prelude.{
  ℕ, zero, suc, ◌+◌, ◌-◌, ◌/◌, ◌%◌, List, [], ◌∷◌, ◌++◌, Bool, true, false, Option, none, some, ltb,
  if◌then◌else◌, length, take, drop, map, Text, ◌==◌, text_eq,
}
use proxy_net.Hub.{RoomRegistry, usernames}

abbrev pub max_name_chars : ℕ
max_name_chars = 64

-- A word that has ended is kept where it is not empty.
abbrev pub with_word : Text → List Text → List Text
with_word [] ws = ws
with_word (c ∷ cs) ws = (c ∷ cs) ∷ ws

-- `split()`, behind the begun word.
unfoldable pub words : (ℕ → Bool) → Text → Text → List Text
words is_space begun [] = with_word begun []
words is_space begun (c ∷ cs) =
    let ended = with_word begun (words is_space [] cs) in
    let more = words is_space (begun ++ c ∷ []) cs in if is_space c then ended else more

-- " ".join
unfoldable pub spaced : List Text → Text
spaced [] = []
spaced (w ∷ []) = w
spaced (w ∷ v ∷ ws) = w ++ 32 ∷ spaced (v ∷ ws)

abbrev pub or_fallback : Text → Text → Text
or_fallback [] fallback = fallback
or_fallback (c ∷ cs) fallback = take max_name_chars (c ∷ cs)

abbrev or_empty_text : Option Text → Text
or_empty_text none = []
or_empty_text (some t) = t

-- `raw` is the text of the packet's field, none for None.
unfoldable pub clean_name : (ℕ → Bool) → Option Text → Text → Text
clean_name is_space raw fallback =
    or_fallback (spaced (words is_space [] (or_empty_text raw))) fallback

-- Membership of the set of the names that are taken.
unfoldable pub is_among : Text → List Text → Bool
is_among x [] = false
is_among x (y ∷ ys) = if x == y then true else is_among x ys

-- A number below 100 in decimal.
abbrev pub decimal : ℕ → Text
decimal n = if ltb n 10 then (48 + n) ∷ [] else (48 + n / 10) ∷ (48 + n % 10) ∷ []

abbrev pub numbered : Text → ℕ → Text
numbered requested suffix = requested ++ 45 ∷ decimal suffix

module _ (casefold : Text → Text) where
  -- The loop over `left` suffixes from `suffix` on.
  unfoldable pub first_free : List Text → Text → Text → ℕ → ℕ → Text
  first_free taken requested fallback suffix zero = fallback
  first_free taken requested fallback suffix (suc left) =
      let rest = first_free taken requested fallback (suc suffix) left in
      if is_among (casefold (numbered requested suffix)) taken
      then rest
      else numbered requested suffix

  abbrev pub unique_among : List Text → Text → Text → Text
  unique_among taken requested client_id =
      if is_among (casefold requested) taken
      then first_free taken requested (requested ++ 45 ∷ drop (length client_id - 4) client_id) 2 98
      else requested

  -- `_unique_username`
  unfoldable pub unique_username : RoomRegistry → Text → Text → Text → Text
  unique_username rooms room requested client_id =
      unique_among (map casefold (usernames rooms room (some client_id))) requested client_id
