-- ===== src/Relay/Valid.antt =====
-- The two dictionaries of core/voice_relay.py and the participants agree, through every call.
use proxy_net.Prelude.{
  ℕ, ◌≤◌, ◌<◌, ◌≡◌, inl, inr, none, some, eqb, eqb_iff, arith, Bool-cases, Option-cases, Text, ◌==◌,
  ==_iff, nat_eq, text_eq,
}
use proxy_net.Dict.{get, remove}
use proxy_net.Dict.Laws.{Distinct, get-put, get-remove, put-Distinct, remove-Distinct}
use proxy_net.Relay.{Relay, Participant, find, leave, write, enter}

-- The reference of a client leads to its participant, and the participant's id back to it.
abbrev pub HasClient : Relay → Text → ℕ → Type 0
HasClient s c r =
    (p : Participant) × (get s.objects r ≡ some p)
    × (p.client_id ≡ c)
    × (get s.by_sender p.sender_id ≡ some r)

-- The reference of an id leads to its participant, and the participant's client back to it.
abbrev pub HasSender : Relay → ℕ → ℕ → Type 0
HasSender s i r =
    (p : Participant) × (get s.objects r ≡ some p)
    × (p.sender_id ≡ i)
    × (get s.by_client p.client_id ≡ some r)

pub record IsValid (s : Relay) : Type 0 where
  pub clients_distinct : Distinct s.by_client
  pub senders_distinct : Distinct s.by_sender
  pub client_object : (c : Text) (r : ℕ) → get s.by_client c ≡ some r → HasClient s c r
  pub sender_object : (i r : ℕ) → get s.by_sender i ≡ some r → HasSender s i r
  pub ids_below :
      (r : ℕ) (p : Participant)
      → get s.objects r ≡ some p
      → (1 ≤ p.sender_id) × (p.sender_id < s.next_sender_id)
  pub objects_below : (r : ℕ) (p : Participant) → get s.objects r ≡ some p → r < s.next_object
  pub some_id : 1 ≤ s.next_sender_id

-- `find` follows the reference.
pub find-some :
    (s : Relay) (c : Text) (r : ℕ) (p : Participant)
    → find s c ≡ some (r, p)
    → (get s.by_client c ≡ some r) × (get s.objects r ≡ some p)
unfolding find
find-some s c r p e = ground arith

pub find-none : (s : Relay) (c : Text) → IsValid s → find s c ≡ none → get s.by_client c ≡ none
unfolding find
find-none s c v e = elim (Option-cases (get s.by_client c)) [
  | inl missing ↦ missing
  | inr (r, there) ↦ let (p, at, _, _) = v.client_object c r there in cc
]

-- A write that keeps the identity of an object keeps everything.
pub write-IsValid :
    (s : Relay) (r : ℕ) (p q : Participant)
    → IsValid s
    → get s.objects r ≡ some p
    → q.client_id ≡ p.client_id
    → q.sender_id ≡ p.sender_id
    → IsValid (write s r q)
unfolding write
write-IsValid s r p q v at c i = record {
  clients_distinct = v.clients_distinct;
  senders_distinct = v.senders_distinct;
  client_object = λ d k e.
      let (x, there, name, back) = v.client_object d k e in
      elim (Bool-cases (eqb r k)) [
        | inl same ↦ (
          q,
          ground (arith, get-put s.objects r k q),
          ground (arith, eqb_iff r k),
          ground (arith, eqb_iff r k),
        )
        | inr other ↦ (x, ground (arith, get-put s.objects r k q), name, back)
      ];
  sender_object = λ j k e.
      let (x, there, number, back) = v.sender_object j k e in
      elim (Bool-cases (eqb r k)) [
        | inl same ↦ (
          q,
          ground (arith, get-put s.objects r k q),
          ground (arith, eqb_iff r k),
          ground (arith, eqb_iff r k),
        )
        | inr other ↦ (x, ground (arith, get-put s.objects r k q), number, back)
      ];
  ids_below = λ k x e. ground (arith, get-put s.objects r k q, v.ids_below k x, v.ids_below r p at);
  objects_below = λ k x e.
      ground
        (arith, get-put s.objects r k q, v.objects_below k x, v.objects_below r p at, eqb_iff r k);
  some_id = v.some_id;
}

-- The relay without a participant.
abbrev without : Relay → Text → Participant → Relay
without s c p = record s {
  by_client = remove s.by_client c;
  by_sender = remove s.by_sender p.sender_id;
}

without-IsValid :
    (s : Relay) (c : Text) (r : ℕ) (p : Participant)
    → IsValid s
    → get s.by_client c ≡ some r
    → get s.objects r ≡ some p
    → IsValid (without s c p)
without-IsValid s c r p v named at = record {
  clients_distinct = remove-Distinct s.by_client c v.clients_distinct;
  senders_distinct = remove-Distinct s.by_sender p.sender_id v.senders_distinct;
  client_object = λ d k e.
      let old : get s.by_client d ≡ some k =
        ground (arith, get-remove s.by_client c d v.clients_distinct) in
      let (x, there, name, back) = v.client_object d k old in
      let (y, yat, yname, yback) = v.client_object c r named in
      (
        x,
        there,
        name,
        ground (
          arith,
          get-remove s.by_client c d v.clients_distinct,
          get-remove s.by_sender p.sender_id x.sender_id v.senders_distinct,
          eqb_iff p.sender_id x.sender_id,
          ==_iff c d,
        ),
      );
  sender_object = λ j k e.
      let old : get s.by_sender j ≡ some k =
        ground (arith, get-remove s.by_sender p.sender_id j v.senders_distinct) in
      let (x, there, number, back) = v.sender_object j k old in
      let (y, yat, yname, yback) = v.client_object c r named in
      (
        x,
        there,
        number,
        ground (
          arith,
          get-remove s.by_sender p.sender_id j v.senders_distinct,
          get-remove s.by_client c x.client_id v.clients_distinct,
          eqb_iff p.sender_id j,
          ==_iff c x.client_id,
        ),
      );
  ids_below = v.ids_below;
  objects_below = v.objects_below;
  some_id = v.some_id;
}

pub leave-IsValid : (s : Relay) (c : Text) → IsValid s → IsValid (leave s c).0
unfolding leave
leave-IsValid s c v = elim (Option-cases (find s c)) [
  | inl e ↦ rw (e, leave) v
  | inr ((r, p), e) ↦
      rw (e, leave) (without-IsValid s c r p v (find-some s c r p e).0 (find-some s c r p e).1)
]

-- Who has left is in neither dictionary.
pub get-leave : (s : Relay) (c : Text) → IsValid s → get (leave s c).0.by_client c ≡ none
unfolding leave
get-leave s c v = elim (Option-cases (find s c)) [
  | inl e ↦ rw (e, leave) (find-none s c v e)
  | inr ((r, p), e) ↦
      rw (e, leave) (ground (arith, get-remove s.by_client c c v.clients_distinct, ==_iff c c))
]

-- A fresh participant of a client that is not in.
pub enter-IsValid :
    (s : Relay) (p : Participant)
    → IsValid s
    → get s.by_client p.client_id ≡ none
    → p.sender_id ≡ s.next_sender_id
    → IsValid (enter s p)
unfolding enter
enter-IsValid s p v absent fresh = record {
  clients_distinct = put-Distinct s.by_client p.client_id s.next_object v.clients_distinct;
  senders_distinct = put-Distinct s.by_sender p.sender_id s.next_object v.senders_distinct;
  client_object = λ d k e. elim (Bool-cases (p.client_id == d)) [
    | inl same ↦
        let new_ref : k ≡ s.next_object =
          ground (arith, get-put s.by_client p.client_id d s.next_object) in
        (
          p,
          ground (arith, get-put s.objects s.next_object k p, eqb_iff s.next_object k),
          (==_iff p.client_id d).0 same,
          ground (
            arith,
            get-put s.by_sender p.sender_id p.sender_id s.next_object,
            eqb_iff p.sender_id p.sender_id,
          ),
        )
    | inr other ↦
        let (x, there, name, back) =
          v.client_object d k (ground (arith, get-put s.by_client p.client_id d s.next_object)) in
        (
          x,
          ground (arith, get-put s.objects s.next_object k p, v.objects_below k x there),
          name,
          ground (
            arith,
            get-put s.by_sender p.sender_id x.sender_id s.next_object,
            (v.ids_below k x there).1,
          ),
        )
  ];
  sender_object = λ j k e. elim (Bool-cases (eqb p.sender_id j)) [
    | inl same ↦
        let new_ref : k ≡ s.next_object =
          ground (arith, get-put s.by_sender p.sender_id j s.next_object) in
        (
          p,
          ground (arith, get-put s.objects s.next_object k p, eqb_iff s.next_object k),
          (eqb_iff p.sender_id j).0 same,
          ground (
            arith,
            get-put s.by_client p.client_id p.client_id s.next_object,
            ==_iff p.client_id p.client_id,
          ),
        )
    | inr other ↦
        let (x, there, number, back) =
          v.sender_object j k (ground (arith, get-put s.by_sender p.sender_id j s.next_object)) in
        (
          x,
          ground (arith, get-put s.objects s.next_object k p, v.objects_below k x there),
          number,
          ground (
            arith,
            get-put s.by_client p.client_id x.client_id s.next_object,
            ==_iff p.client_id x.client_id,
          ),
        )
  ];
  ids_below =
      λ k x e. ground (arith, get-put s.objects s.next_object k p, v.ids_below k x, v.some_id);
  objects_below = λ k x e.
      ground
        (arith, get-put s.objects s.next_object k p, v.objects_below k x, eqb_iff s.next_object k);
  some_id = omega (arith, v.some_id);
}
