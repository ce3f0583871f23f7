-- ===== src/RoomSession/Tables.antt =====
-- The key tables of core/room_session.py: which key has which id, who holds it, and under which id
-- each peer is keyed.
use proxy_net.Prelude.{
  ◌≡◌, ◌≢◌, refl, ◌⊎◌, inl, inr, ◌↔◌, Bool, true, false, not, ◌&&◌, Option, none, some,
  if◌then◌else◌, arith, Bool-cases, ◌==◌, ==_iff, text_eq, ap, sym,
}
use proxy_net.Bytes.{Bytes}
use proxy_net.Dict.{Dict, get, put}
use proxy_net.Dict.Laws.{Distinct, get-put, get-remove, put-Distinct, remove-Distinct}
use proxy_net.KeyAgreement.{KeyLibrary}
use proxy_net.RoomSession.{
  RoomSession, key_id, is_taken, without_previous, store_key, without_id, forget_peer,
}

-- The own key stands under its id, held by the own public key; each peer's id is held by that peer
-- alone; and every id that is held names one key.
pub record IsValid (lib : KeyLibrary) (s : RoomSession) : Type 0 where
  pub by_id_distinct : Distinct s.by_id
  pub holders_distinct : Distinct s.holders
  pub peer_ids_distinct : Distinct s.peer_ids
  pub pairs_distinct : Distinct s.pairs
  pub own_unpaired : get s.pairs (lib.public_of s.own) ≡ none
  pub own_unkeyed : get s.peer_ids (lib.public_of s.own) ≡ none
  pub own_key : get s.by_id (key_id lib s.sender_key) ≡ some s.sender_key
  pub own_holder : get s.holders (key_id lib s.sender_key) ≡ some (lib.public_of s.own)
  pub peer_holds : (p i : Bytes) → get s.peer_ids p ≡ some i → get s.holders i ≡ some p
  pub held :
      (i p : Bytes)
      → get s.holders i ≡ some p
      → ((p ≡ lib.public_of s.own) × (i ≡ key_id lib s.sender_key)) ⊎ (get s.peer_ids p ≡ some i)
  pub names : (i k : Bytes) → get s.by_id i ≡ some k → (key_id lib k ≡ i) × (get s.holders i ≢ none)
  pub keyed : (i : Bytes) → get s.holders i ≢ none → get s.by_id i ≢ none

-- Whether the id is the one asked for.
abbrev pub is_id : Option Bytes → Bytes → Bool
is_id none j = false
is_id (some i) j = i == j

pub is_id_iff : (o : Option Bytes) (j : Bytes) → (is_id o j ≡ true) ↔ (o ≡ some j)
is_id_iff none j = (λ e. cc, λ e. cc)
is_id_iff (some i) j = (λ e. ap some ((==_iff i j).0 e), λ e. (==_iff i j).1 (cc))

get-without_previous :
    (d : Dict Bytes Bytes) (previous : Option Bytes) (ident j : Bytes)
    → Distinct d
    → get (without_previous d previous ident) j
      ≡ (if is_id previous j && not (ident == j) then none else get d j)
get-without_previous d none ident j t = refl
get-without_previous d (some q) ident j t = elim (Bool-cases (q == ident)) [
  | inl same ↦ simp same (ground (arith, ==_iff q ident, ==_iff q j, ==_iff ident j))
  | inr apart ↦
      simp apart (ground (arith, get-remove d q j t, ==_iff q ident, ==_iff q j, ==_iff ident j))
]

without_previous-Distinct :
    (d : Dict Bytes Bytes) (previous : Option Bytes) (ident : Bytes)
    → Distinct d
    → Distinct (without_previous d previous ident)
without_previous-Distinct d none ident t = t
without_previous-Distinct d (some q) ident t = elim (Bool-cases (q == ident)) [
  | inl same ↦ simp same t
  | inr apart ↦ simp apart (remove-Distinct d q t)
]

-- A table after a peer took an id.
pub get-taken :
    (d : Dict Bytes Bytes) (previous : Option Bytes) (ident v j : Bytes)
    → Distinct d
    → get (put (without_previous d previous ident) ident v) j
      ≡ (if ident == j then some v else if is_id previous j then none else get d j)
get-taken d previous ident v j t = ground (
  arith,
  get-put (without_previous d previous ident) ident j v,
  get-without_previous d previous ident j t,
)

pub get-without_id :
    (d : Dict Bytes Bytes) (o : Option Bytes) (j : Bytes)
    → Distinct d
    → get (without_id d o) j ≡ (if is_id o j then none else get d j)
get-without_id d none j t = refl
get-without_id d (some i) j t = get-remove d i j t

without_id-Distinct :
    (d : Dict Bytes Bytes) (o : Option Bytes) → Distinct d → Distinct (without_id d o)
without_id-Distinct d none t = t
without_id-Distinct d (some i) t = remove-Distinct d i t

pub not_taken :
    (o : Option Bytes) (peer holder : Bytes)
    → is_taken o peer ≡ false
    → o ≡ some holder
    → holder ≡ peer
not_taken none peer holder f e = cc
not_taken (some h) peer holder f e = ground (arith, ==_iff h peer)

module _ (lib : KeyLibrary) where
  pub store_key-IsValid :
      (s : RoomSession) (peer key : Bytes)
      → IsValid lib s
      → peer ≢ lib.public_of s.own
      → is_taken (get s.holders (key_id lib key)) peer ≡ false
      → IsValid lib (store_key s peer (key_id lib key) key)
  unfolding store_key
  store_key-IsValid s peer key v other free =
      let ident : Bytes = key_id lib key in
      let previous : Option Bytes = get s.peer_ids peer in
      let ids = λ (j : Bytes). get-taken s.by_id previous ident key j v.by_id_distinct in
      let owners = λ (j : Bytes). get-taken s.holders previous ident peer j v.holders_distinct in
      let keyed_by = λ (p : Bytes). get-put s.peer_ids peer p ident in
      -- An id of someone else is neither the new one nor the previous one.
      let kept : (j p : Bytes)
          → get s.holders j ≡ some p
          → p ≢ peer
          → ((ident == j) ≡ false) × (is_id previous j ≡ false) =
        λ j p e apart. (
          ground (arith, not_taken (get s.holders ident) peer p free, ==_iff ident j),
          ground (arith, is_id_iff previous j, v.peer_holds peer j),
        ) in
      let own_kept =
        kept (key_id lib s.sender_key) (lib.public_of s.own) v.own_holder (λ e. other (sym e)) in
      record {
        by_id_distinct =
            put-Distinct (without_previous s.by_id previous ident) ident key
              (without_previous-Distinct s.by_id previous ident v.by_id_distinct);
        holders_distinct =
            put-Distinct (without_previous s.holders previous ident) ident peer
              (without_previous-Distinct s.holders previous ident v.holders_distinct);
        peer_ids_distinct = put-Distinct s.peer_ids peer ident v.peer_ids_distinct;
        pairs_distinct = v.pairs_distinct;
        own_unpaired = v.own_unpaired;
        own_unkeyed = ground (
          arith,
          keyed_by (lib.public_of s.own),
          ==_iff peer (lib.public_of s.own),
          v.own_unkeyed,
        );
        own_key = ground (arith, ids (key_id lib s.sender_key), own_kept, v.own_key);
        own_holder = ground (arith, owners (key_id lib s.sender_key), own_kept, v.own_holder);
        peer_holds = λ p i e. elim (Bool-cases (peer == p)) [
          | inl same ↦ ground (arith, keyed_by p, owners i, ==_iff ident i, ==_iff peer p)
          | inr apart ↦
              let old : get s.peer_ids p ≡ some i = ground (arith, keyed_by p) in
              let safe = kept i p (v.peer_holds p i old) (λ f. ground (arith, ==_iff peer p)) in
              ground (arith, owners i, safe, v.peer_holds p i old)
        ];
        held = λ i p e. elim (Bool-cases (ident == i)) [
          | inl same ↦ inr (ground (arith, keyed_by p, owners i, ==_iff ident i, ==_iff peer p))
          | inr apart ↦
              let old : get s.holders i ≡ some p = ground (arith, owners i) in
              elim (v.held i p old) [
                | inl own ↦ inl own
                | inr there ↦ inr (
                    ground
                      (arith, keyed_by p, owners i, is_id_iff previous i, there, ==_iff peer p))
              ]
        ];
        names = λ i k e. elim (Bool-cases (ident == i)) [
          | inl same ↦ (ground (arith, ids i, ==_iff ident i), λ f. ground (arith, owners i))
          | inr apart ↦
              let old : get s.by_id i ≡ some k = ground (arith, ids i) in
              let named = v.names i k old in
              (named.0, λ f. named.1 (ground (arith, owners i, ids i)))
        ];
        keyed = λ i e. λ f.
            v.keyed i (λ g. e (ground (arith, owners i, ids i))) (ground (arith, ids i, owners i));
      }

  pub forget_peer-IsValid :
      (s : RoomSession) (peer : Bytes) → IsValid lib s → IsValid lib (forget_peer s peer)
  unfolding forget_peer
  forget_peer-IsValid s peer v =
      let o : Option Bytes = get s.peer_ids peer in
      let ids = λ (j : Bytes). get-without_id s.by_id o j v.by_id_distinct in
      let owners = λ (j : Bytes). get-without_id s.holders o j v.holders_distinct in
      let keyed_by = λ (p : Bytes). get-remove s.peer_ids peer p v.peer_ids_distinct in
      -- The own id is no peer's.
      let mine : is_id o (key_id lib s.sender_key) ≡ false = ground (
        arith,
        is_id_iff o (key_id lib s.sender_key),
        v.peer_holds peer (key_id lib s.sender_key),
        v.own_holder,
        v.own_unkeyed,
      ) in
      record {
        by_id_distinct = without_id-Distinct s.by_id o v.by_id_distinct;
        holders_distinct = without_id-Distinct s.holders o v.holders_distinct;
        peer_ids_distinct = remove-Distinct s.peer_ids peer v.peer_ids_distinct;
        pairs_distinct = remove-Distinct s.pairs peer v.pairs_distinct;
        own_unpaired =
            ground (
              arith,
              get-remove s.pairs peer (lib.public_of s.own) v.pairs_distinct,
              v.own_unpaired,
            );
        own_unkeyed = ground (arith, keyed_by (lib.public_of s.own), v.own_unkeyed);
        own_key = ground (arith, ids (key_id lib s.sender_key), mine, v.own_key);
        own_holder = ground (arith, owners (key_id lib s.sender_key), mine, v.own_holder);
        peer_holds = λ p i e.
            let old : get s.peer_ids p ≡ some i = ground (arith, keyed_by p) in
            ground (
              arith,
              owners i,
              is_id_iff o i,
              v.peer_holds p i old,
              v.peer_holds peer i,
              keyed_by p,
              ==_iff peer p,
            );
        held = λ i p e.
            let old : get s.holders i ≡ some p = ground (arith, owners i) in
            elim (v.held i p old) [
              | inl own ↦ inl own
              | inr there ↦ inr (ground (arith, keyed_by p, owners i, is_id_iff o i, ==_iff peer p))
            ];
        names = λ i k e.
            let named = v.names i k (ground (arith, ids i)) in
            (named.0, λ f. named.1 (ground (arith, owners i, ids i)));
        keyed = λ i e f.
            v.keyed i (λ g. e (ground (arith, owners i))) (ground (arith, ids i, owners i));
      }
