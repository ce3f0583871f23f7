-- ===== src/Names/Examples.antt =====
-- Names of core/server.py at concrete inputs.
use proxy_net.Prelude.{
  ℕ, ◌<◌, ◌≡◌, ◌≢◌, refl, [], Bool, ◌∷◌, some, eqb, map, arith, Text, text, text_eq,
}
use proxy_net.Dict.{get}
use proxy_net.Hub.{RoomRegistry, usernames, usernames_of, members}
use proxy_net.Names.{words, spaced, clean_name, is_among, decimal, first_free, unique_username}
use proxy_net.Names.Unique.{IsGiven, unique_username_is_free}

abbrev only_space : ℕ → Bool
only_space c = eqb c 32

cleaned : clean_name only_space (some (text "  a  bc ")) (text "general") ≡ text "a bc"
unfolding clean_name words spaced
cleaned = refl

fell_back : clean_name only_space (some (text "   ")) (text "general") ≡ text "general"
unfolding clean_name words spaced
fell_back = refl

abbrev rooms : RoomRegistry
rooms =
    (
      text "general",
      (text "c1", record { client_id = text "c1"; username = text "ann"; joined_at = 0 })
          ∷ (text "c2", record { client_id = text "c2"; username = text "ann-2"; joined_at = 0 })
          ∷ [],
    )
    ∷ []

third_ann : unique_username (λ t. t) rooms (text "general") (text "ann") (text "c3") ≡ text "ann-3"
unfolding unique_username first_free is_among usernames usernames_of members get
third_ann = refl

decimal-apart : (i j : ℕ) → i < j → j < 100 → decimal i ≢ decimal j
decimal-apart i j less within e = ground arith

unique_username_is_free_example :
    IsGiven
      (λ t. t)
      (map (λ (t : Text). t) (usernames rooms (text "general") (some (text "c3"))))
      (text "ann")
      (unique_username (λ t. t) rooms (text "general") (text "ann") (text "c3"))
unfolding usernames usernames_of members get
unique_username_is_free_example =
    unique_username_is_free (λ t. t) (text "ann")
      (λ i j less within e. decimal-apart i j less within (cc)) rooms (text "general") (text "c3")
      (λ i from to e. cc) (omega arith)
