-- ===== src/Client/Queue.antt =====
-- core/client.py: the queue of messages whose key has not arrived, against a description of which
-- entries leave it and in which order.
use proxy_net.Prelude.{
  ℕ, zero, suc, ◌+◌, ◌-◌, ◌≤◌, ◌≡◌, refl, inl, inr, List, [], ◌∷◌, ◌++◌, Bool, true, false, ◌||◌,
  if◌then◌else◌, ltb, leb, ltb→lt, le→leb, length, take, drop, All, text, Bool-cases, arith, ap,
}
use proxy_net.KeyAgreement.{KeyLibrary}
use proxy_net.Packets.{Fields, text_field, RoomCipher}
use proxy_net.Client.{ChatClient, Python, cipher, deferred_message_ms, max_deferred_messages}
use proxy_net.Client.Inbox.{sort_out, is_due, is_readable, flushed, flush_deferred, deliver_all}
use proxy_net.Client.Sessions.{deliver_all-Alike}

abbrev Held : Type 0
Held = ℕ × Fields

-- The packets of the entries.
abbrev messages : List Held → List Fields
messages [] = []
messages ((arrived, held) ∷ rest) = held ∷ messages rest

module _ (lib : KeyLibrary) where
  -- The key is there, or the time is over.
  abbrev pub is_ready : RoomCipher → ℕ → Held → Bool
  is_ready k now (arrived, held) =
      is_readable lib k (text_field held (text "content"))
      || leb (arrived + deferred_message_ms) now

  unfoldable pub ready : RoomCipher → ℕ → List Held → List Held
  ready k now [] = []
  ready k now (e ∷ queue) =
      let rest = ready k now queue in if is_ready k now e then e ∷ rest else rest

  unfoldable pub waiting : RoomCipher → ℕ → List Held → List Held
  waiting k now [] = []
  waiting k now (e ∷ queue) =
      let rest = waiting k now queue in if is_ready k now e then rest else e ∷ rest

  -- What leaves, in order, and what stays, where the overflow covers so many entries.
  abbrev pub released : RoomCipher → ℕ → ℕ → List Held → List Fields
  released k now overflow queue =
      messages (take overflow queue) ++ messages (ready k now (drop overflow queue))

  released_nil :
      (k : RoomCipher) (now n : ℕ)
      → (released k now n [] ≡ []) × (waiting k now (drop {A = Held} n []) ≡ [])
  unfolding ready waiting
  released_nil k now zero = (refl, refl)
  released_nil k now (suc n) = (refl, refl)

  is_due-covered :
      (k : RoomCipher) (now overflow index arrived : ℕ) (held : Fields)
      → is_due lib k now overflow index arrived held
        ≡ (if ltb index overflow then true else is_ready k now (arrived, held))
  is_due-covered k now overflow index arrived held =
      over (is_readable lib k (text_field held (text "content")))
        (leb (arrived + deferred_message_ms) now) (ltb index overflow)
    where
      over : (a b c : Bool) → (a || b || c) ≡ (if c then true else a || b)
      over true b true = refl
      over true b false = refl
      over false true true = refl
      over false true false = refl
      over false false true = refl
      over false false false = refl

  -- From an index on, what the overflow still covers leaves first.
  sort_out_lem :
      (k : RoomCipher) (now overflow index : ℕ) (queue : List Held)
      → sort_out lib k now overflow index queue
        ≡ (released k now (overflow - index) queue, waiting k now (drop (overflow - index) queue))
  unfolding sort_out ready waiting
  sort_out_lem k now overflow index [] =
      let (nothing, none_waits) = released_nil k now (overflow - index) in
      rw (nothing, none_waits) refl
  sort_out_lem k now overflow index ((arrived, held) ∷ rest) =
      let later = sort_out_lem k now overflow (index + 1) rest in
      let due = is_due-covered k now overflow index arrived held in
      elim (Bool-cases (ltb index overflow)) [
        | inl covered ↦
            let more : overflow - index ≡ suc (overflow - (index + 1)) =
              ground (arith, ltb→lt index overflow covered) in
            rw (due, covered, more, later) refl
        | inr beyond ↦
            let none_left : overflow - index ≡ 0 = ground arith in
            let still : overflow - (index + 1) ≡ 0 = omega arith in
            elim (Bool-cases (is_ready k now (arrived, held))) [
              | inl leaves ↦ rw (due, beyond, leaves, none_left, later, still, leaves) refl
              | inr stays ↦ rw (due, beyond, stays, none_left, later, still, stays) refl
            ]
      ]

  waiting-expired :
      (k : RoomCipher) (now : ℕ) (queue : List Held)
      → All (λ e. e.0 + deferred_message_ms ≤ now) queue
      → waiting k now queue ≡ []
  unfolding waiting
  waiting-expired k now [] old = refl
  waiting-expired k now (e ∷ queue) (over, old) =
      let is : is_ready k now e ≡ true =
        rw (le→leb (e.0 + deferred_message_ms) now over) (ground arith) in
      rw (is, waiting-expired k now queue old) refl

  All-drop :
      (n now : ℕ) (queue : List Held)
      → All (λ e. e.0 + deferred_message_ms ≤ now) queue
      → All (λ e. e.0 + deferred_message_ms ≤ now) (drop n queue)
  All-drop zero now queue a = a
  All-drop (suc n) now [] a = a
  All-drop (suc n) now (e ∷ queue) (_, a) = All-drop n now queue a

module _ (lib : KeyLibrary) (python : Python) where
  -- A flush delivers, in the order they arrived, first the entries beyond the newest fifty and then
  -- those of the rest whose key is there or that waited for three seconds; the others stay, in their order.
  pub flush_deferred_lem :
      (c : ChatClient) (now : ℕ)
      → let k = cipher c in
        let overflow : ℕ = length c.deferred - max_deferred_messages in
        flush_deferred lib python c now
        ≡ deliver_all lib python
            (record c { deferred = waiting lib k now (drop overflow c.deferred) })
            (released lib k now overflow c.deferred)
  unfolding flush_deferred
  flush_deferred_lem c now =
      let overflow : ℕ = length c.deferred - max_deferred_messages in
      let whole : overflow - 0 ≡ overflow = omega arith in
      let split = rw whole at (sort_out_lem lib (cipher c) now overflow 0 c.deferred) in
      ap (flushed lib python c) split

  -- After three seconds without the key, no message is held any more.
  pub flush_deferred-expired :
      (c : ChatClient) (now : ℕ)
      → All (λ e. e.0 + deferred_message_ms ≤ now) c.deferred
      → (flush_deferred lib python c now).deferred ≡ []
  flush_deferred-expired c now old =
      let overflow : ℕ = length c.deferred - max_deferred_messages in
      let stays : List Held = waiting lib (cipher c) now (drop overflow c.deferred) in
      let a =
        deliver_all-Alike lib python (record c { deferred = stays })
          (released lib (cipher c) now overflow c.deferred) in
      rw (flush_deferred_lem c now, a.same_deferred)
        (waiting-expired lib (cipher c) now (drop overflow c.deferred)
          (All-drop lib overflow now c.deferred old))
