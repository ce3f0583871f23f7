-- ===== src/RoomSession/Sights.antt =====
-- `first_sight` of core/room_session.py: a message that comes again is not shown again.
use proxy_net.Prelude.{
  ℕ, suc, ◌+◌, ◌≤◌, ◌<◌, ◌≡◌, refl, inl, inr, List, [], ◌∷◌, ◌++◌, true, false, some, ltb, length,
  length-append, arith, Bool-cases, Option-cases, Result, Text, ==_iff, text_eq, append_assoc,
}
use proxy_net.Bytes.{Bytes}
use proxy_net.KeyAgreement.{KeyLibrary, KeyError}
use proxy_net.RoomSession.{
  RoomSession, key_id, first_sight, forget_peer, accept_offer, accept_sender_key, store_key,
  is_seen, head, trimmed, seen_messages_limit,
}
use proxy_net.RoomSession.Runs.{
  Call, offers, keys, departs, sees, step, run, Offered, refused, paired, accept_offer-Offered,
  Keyed, unread, stored, accept_sender_key-Keyed,
}

-- The head is among the seen, with at most `n` newer ones behind it.
abbrev Recent : Bytes → ℕ → List Bytes → Type 0
Recent h n seen =
    (older : List Bytes) × (newer : List Bytes) × (seen ≡ older ++ h ∷ newer) × (length newer ≤ n)

is_seen-middle : (h : Bytes) (older newer : List Bytes) → is_seen h (older ++ h ∷ newer) ≡ true
unfolding is_seen
is_seen-middle h [] newer = ground (arith, ==_iff h h)
is_seen-middle h (x ∷ older) newer = ground (arith, is_seen-middle h older newer)

Recent-is_seen : (h : Bytes) (n : ℕ) (seen : List Bytes) → Recent h n seen → is_seen h seen ≡ true
Recent-is_seen h n seen (older, newer, is, _) = rw is (is_seen-middle h older newer)

-- The one that goes is older, while few are newer.
trimmed-middle :
    (h : Bytes) (older newer : List Bytes)
    → length newer < seen_messages_limit
    → Recent h (length newer) (trimmed (older ++ h ∷ newer))
trimmed-middle h [] newer few =
    let keep : ltb seen_messages_limit (suc (length newer)) ≡ false = ground arith in
    rw keep ([], newer, refl, omega arith)
trimmed-middle h (y ∷ older) newer few =
    elim (Bool-cases (ltb seen_messages_limit (suc (length (older ++ h ∷ newer))))) [
      | inl many ↦ rw many (older, newer, refl, omega arith)
      | inr fits ↦ rw fits (y ∷ older, newer, refl, omega arith)
    ]

Recent-mono : (h : Bytes) (m n : ℕ) (seen : List Bytes) → m ≤ n → Recent h m seen → Recent h n seen
Recent-mono h m n seen le (older, newer, is, short) = (older, newer, is, omega arith)

added-Recent :
    (h x : Bytes) (n : ℕ) (seen : List Bytes)
    → n + 1 < seen_messages_limit
    → Recent h n seen
    → Recent h (n + 1) (trimmed (seen ++ x ∷ []))
added-Recent h x n seen few (older, newer, is, short) =
    let more = length-append newer (x ∷ []) in
    rw (is, append_assoc older (h ∷ newer) (x ∷ []))
      (Recent-mono h (length (newer ++ x ∷ [])) (n + 1) (trimmed (older ++ h ∷ (newer ++ x ∷ [])))
        (omega arith) (trimmed-middle h older (newer ++ x ∷ []) (omega arith)))

module _ (lib : KeyLibrary) where
  first_sight-Recent :
      (s : RoomSession) (token : Text) (h : Bytes) (n : ℕ)
      → n + 1 < seen_messages_limit
      → Recent h n s.seen
      → Recent h (n + 1) (first_sight lib s token).0.seen
  unfolding first_sight
  first_sight-Recent s token h n few r = elim (Option-cases (head lib token)) [
    | inl malformed ↦ rw (malformed, first_sight) (Recent-mono h n (n + 1) s.seen (omega arith) r)
    | inr (x, read) ↦ elim (Bool-cases (is_seen x s.seen)) [
      | inl again ↦ rw (read, again, first_sight) (Recent-mono h n (n + 1) s.seen (omega arith) r)
      | inr anew ↦ rw (read, anew, first_sight) (added-Recent h x n s.seen few r)
    ]
  ]

  -- No call but `first_sight` touches what was seen.
  step-Recent :
      (s : RoomSession) (call : Call) (h : Bytes) (n : ℕ)
      → n + 1 < seen_messages_limit
      → Recent h n s.seen
      → Recent h (n + 1) (step lib s call).seen
  unfolding step forget_peer store_key
  step-Recent s (sees token) h n few r = first_sight-Recent s token h n few r
  step-Recent s (departs peer) h n few r = Recent-mono h n (n + 1) s.seen (omega arith) r
  step-Recent s (offers nonce peer mac) h n few r =
      from_outcome (accept_offer lib s nonce peer mac) (accept_offer-Offered lib s nonce peer mac)
    where
      from_outcome :
          (out : RoomSession × Result KeyError Bytes)
          → Offered lib s nonce peer out
          → Recent h (n + 1) out.0.seen
      from_outcome out (refused e is) = rw is (Recent-mono h n (n + 1) s.seen (omega arith) r)
      from_outcome out (paired pair agreed is) =
          rw is (Recent-mono h n (n + 1) s.seen (omega arith) r)
  step-Recent s (keys peer wrapped) h n few r =
      from_outcome (accept_sender_key lib s peer wrapped)
        (accept_sender_key-Keyed lib s peer wrapped)
    where
      kept : (key : Bytes) → Recent h (n + 1) (store_key s peer (key_id lib key) key).seen
      kept key = Recent-mono h n (n + 1) s.seen (omega arith) r

      from_outcome :
          (out : RoomSession × Result KeyError Bytes)
          → Keyed lib s peer wrapped out
          → Recent h (n + 1) out.0.seen
      from_outcome out (unread e is) = rw is (Recent-mono h n (n + 1) s.seen (omega arith) r)
      from_outcome out (stored pair key known opened free is) = rw is (kept key)

  run-Recent :
      (s : RoomSession) (calls : List Call) (h : Bytes) (n : ℕ)
      → n + length calls < seen_messages_limit
      → Recent h n s.seen
      → is_seen h (run lib s calls).seen ≡ true
  unfolding run
  run-Recent s [] h n few r = Recent-is_seen h n s.seen r
  run-Recent s (call ∷ calls) h n few r =
      run-Recent (step lib s call) calls h (n + 1) (omega arith)
        (step-Recent s call h n (omega arith) r)

  seen_after :
      (s : RoomSession) (token : Text)
      → (first_sight lib s token).1 ≡ true
      → (h : Bytes) × (head lib token ≡ some h) × Recent h 0 (first_sight lib s token).0.seen
  unfolding first_sight
  seen_after s token e = elim (Option-cases (head lib token)) [
    | inl malformed ↦ let f = rw (malformed, first_sight) at e in absurd (cc)
    | inr (h, read) ↦ elim (Bool-cases (is_seen h s.seen)) [
      | inl again ↦ let f = rw (read, again, first_sight) at e in absurd (cc)
      | inr anew ↦ rw (read, anew, first_sight) (h, refl, trimmed-middle h s.seen [] (omega arith))
    ]
  ]

  -- A message that was seen for the first time is not seen for the first time again, whatever
  -- reaches the session in between, as long as that is less than 8192 packets and messages.
  pub first_sight_once :
      (s : RoomSession) (token : Text) (calls : List Call)
      → (first_sight lib s token).1 ≡ true
      → length calls < seen_messages_limit
      → (first_sight lib (run lib (first_sight lib s token).0 calls) token).1 ≡ false
  unfolding first_sight
  first_sight_once s token calls e few =
      let (h, read, recent) = seen_after s token e in
      let again = run-Recent (first_sight lib s token).0 calls h 0 (omega arith) recent in
      rw (read, again, first_sight) refl
