-- ===== src/Names/Unique.antt =====
-- The user names that core/server.py gives out in one room.
use proxy_net.Prelude.{
  ℕ, zero, suc, ◌+◌, ◌-◌, ◌≤◌, ◌<◌, ◌≡◌, ◌≢◌, refl, ◌⊎◌, inl, inr, List, [], ◌∷◌, ◌++◌, true, false,
  some, if◌then◌else◌, length, drop, map, eqb, eqb_iff, arith, Bool-cases, All, Text, ◌==◌, ==_iff,
  text_eq, ap, sym,
}
use proxy_net.Hub.{RoomRegistry, usernames}
use proxy_net.Names.{is_among, numbered, first_free, unique_username}

-- The list without the first occurrence.
abbrev without : Text → List Text → List Text
without x [] = []
without x (y ∷ ys) = if x == y then ys else y ∷ without x ys

length-without :
    (x : Text) (ys : List Text) → is_among x ys ≡ true → suc (length (without x ys)) ≡ length ys
unfolding is_among
length-without x [] e = absurd (cc)
length-without x (y ∷ ys) e = elim (Bool-cases (x == y)) [
  | inl here ↦ rw here refl
  | inr there ↦ rw there (ap suc (length-without x ys (simp there at e)))
]

is_among-without :
    (x z : Text) (ys : List Text)
    → (z == x) ≡ false
    → is_among z ys ≡ true
    → is_among z (without x ys) ≡ true
unfolding is_among
is_among-without x z [] apart e = absurd (cc)
is_among-without x z (y ∷ ys) apart e = elim (Bool-cases (x == y)) [
  | inl here ↦ rw here (ground (arith, ==_iff x y, ==_iff z y, ==_iff z x))
  | inr there ↦ rw there (ground (arith, is_among-without x z ys apart))
]

abbrev AllApart : Text → List Text → Type 0
AllApart x = All (λ z. (z == x) ≡ false)

abbrev AreDistinct : List Text → Type 0
AreDistinct [] = Unit
AreDistinct (x ∷ xs) = AllApart x xs × AreDistinct xs

abbrev AreAmong : List Text → List Text → Type 0
AreAmong ys = All (λ z. is_among z ys ≡ true)

still_among :
    (x : Text) (xs ys : List Text) → AllApart x xs → AreAmong ys xs → AreAmong (without x ys) xs
still_among x [] ys a m = tt
still_among x (z ∷ xs) ys a m = (is_among-without x z ys a.0 m.0, still_among x xs ys a.1 m.1)

-- Distinct names that all stand in a list are no more than the list is long.
length-AreDistinct : (xs ys : List Text) → AreDistinct xs → AreAmong ys xs → length xs ≤ length ys
length-AreDistinct [] ys d m = omega arith
length-AreDistinct (x ∷ xs) ys d m =
    let ih = length-AreDistinct xs (without x ys) d.1 (still_among x xs ys d.0 m.1) in
    omega (arith, length-without x ys m.0)

length-map : (f : Text → Text) (xs : List Text) → length (map f xs) ≡ length xs
length-map f [] = refl
length-map f (x ∷ xs) = ap suc (length-map f xs)

module _ (casefold : Text → Text) where
  abbrev candidates : Text → ℕ → ℕ → List Text
  candidates requested suffix zero = []
  candidates requested suffix (suc left) =
      casefold (numbered requested suffix) ∷ candidates requested (suc suffix) left

  length-candidates :
      (requested : Text) (suffix left : ℕ) → length (candidates requested suffix left) ≡ left
  length-candidates requested suffix zero = refl
  length-candidates requested suffix (suc left) =
      ap suc (length-candidates requested (suc suffix) left)

  -- The first numbered name from `suffix` on that is free.
  abbrev pub IsFirstFree : List Text → Text → ℕ → Text → Type 0
  IsFirstFree taken requested suffix u =
      (i : ℕ) × (suffix ≤ i)
      × (i < 100)
      × (u ≡ numbered requested i)
      × (is_among (casefold u) taken ≡ false)
      × ((k : ℕ) → suffix ≤ k → k < i → is_among (casefold (numbered requested k)) taken ≡ true)

  first_free-cases :
      (taken : List Text) (requested fallback : Text) (suffix left : ℕ)
      → suffix + left ≤ 100
      → IsFirstFree taken requested suffix
          (first_free casefold taken requested fallback suffix left)
        ⊎ AreAmong taken (candidates requested suffix left)
  unfolding first_free
  first_free-cases taken requested fallback suffix zero within = inr tt
  first_free-cases taken requested fallback suffix (suc left) within =
      elim (Bool-cases (is_among (casefold (numbered requested suffix)) taken)) [
        | inr free ↦ inl (
            rw free
              (suffix, omega arith, omega arith, refl, free, λ k from to. absurd (omega arith)))
        | inl used ↦
            elim (first_free-cases taken requested fallback (suc suffix) left (omega arith)) [
              | inl (i, from, to, is, free, others) ↦ inl (
                  rw used (
                    i,
                    omega arith,
                    to,
                    is,
                    free,
                    λ k from' to'. elim (Bool-cases (eqb suffix k)) [
                      | inl here ↦ rw (← (eqb_iff suffix k).0 here) used
                      | inr there ↦ others k (ground (arith, eqb_iff suffix k)) to'
                    ],
                  ))
              | inr all ↦ inr (used, all)
            ]
      ]

  -- The name asked for, where it is free, and else the first numbered one that is.
  abbrev pub IsGiven : List Text → Text → Text → Type 0
  IsGiven taken requested u =
      ((u ≡ requested) × (is_among (casefold u) taken ≡ false))
      ⊎ ((is_among (casefold requested) taken ≡ true) × IsFirstFree taken requested 2 u)

  module _ (requested : Text)
      (apart : (i j : ℕ)
        → i < j
        → j < 100
        → casefold (numbered requested i) ≢ casefold (numbered requested j)) where
    candidates-AllApart :
        (x : Text) (suffix left : ℕ)
        → ((i : ℕ) → suffix ≤ i → i < 100 → casefold (numbered requested i) ≢ x)
        → suffix + left ≤ 100
        → AllApart x (candidates requested suffix left)
    candidates-AllApart x suffix zero other within = tt
    candidates-AllApart x suffix (suc left) other within = (
      ground (arith, ==_iff (casefold (numbered requested suffix)) x, other suffix),
      candidates-AllApart x (suc suffix) left (λ i from. other i (omega arith)) (omega arith),
    )

    candidates-AreDistinct :
        (suffix left : ℕ) → suffix + left ≤ 100 → AreDistinct (candidates requested suffix left)
    candidates-AreDistinct suffix zero within = tt
    candidates-AreDistinct suffix (suc left) within = (
      candidates-AllApart (casefold (numbered requested suffix)) (suc suffix) left
          (λ i from to e. apart suffix i (omega arith) to (sym e)) (omega arith),
      candidates-AreDistinct (suc suffix) left (omega arith),
    )

    -- In a room with fewer than 99 others the name that a newcomer gets is the name asked for, where
    -- no other has it, whatever the letters' case, and else that name with the first number from 2 on
    -- with which no other has it, if folding keeps the name and its 98 numbered forms apart.
    pub unique_username_is_free :
        (rooms : RoomRegistry) (room client_id : Text)
        → ((i : ℕ) → 2 ≤ i → i < 100 → casefold (numbered requested i) ≢ casefold requested)
        → length (usernames rooms room (some client_id)) < 99
        → IsGiven
            (map casefold (usernames rooms room (some client_id)))
            requested
            (unique_username casefold rooms room requested client_id)
    unfolding unique_username
    unique_username_is_free rooms room client_id other few =
        let taken : List Text = map casefold (usernames rooms room (some client_id)) in
        elim (Bool-cases (is_among (casefold requested) taken)) [
          | inr free ↦ rw free (inl (refl, free))
          | inl used ↦
              elim (first_free-cases taken requested
                (requested ++ 45 ∷ drop (length client_id - 4) client_id) 2 98 (omega arith)) [
                  | inl found ↦ rw used (inr (refl, found))
                  | inr all ↦
                      let full =
                        length-AreDistinct (casefold requested ∷ candidates requested 2 98) taken
                          (
                            candidates-AllApart (casefold requested) 2 98 other (omega arith),
                            candidates-AreDistinct 2 98 (omega arith),
                          )
                          (used, all) in
                      absurd (
                        omega (
                          arith,
                          length-candidates requested 2 98,
                          length-map casefold (usernames rooms room (some client_id)),
                        ))
                ]
        ]
