-- ===== src/Client/Limits.antt =====
-- core/client.py: whatever reaches the client, its queue of held messages and what it tracks of
-- strangers stay bounded, and no packet ends the listen loop with an exception.
use proxy_net.Prelude.{
  ℕ, suc, ◌+◌, ◌-◌, ◌≤◌, ◌≡◌, inl, inr, List, [], ◌∷◌, ◌++◌, Bool, true, false, Option, none, some,
  if◌then◌else◌, ltb, ltb→lt, lt→ltb, length, length-append, Text, text, text_eq, Bool-cases, arith,
  Result, ok, err,
}
use proxy_net.Bytes.{Bytes}
use proxy_net.KeyAgreement.{
  KeyLibrary, KeyError, unknown_sender_key, offer_error, sender_key_error, decryption_error,
  message_too_long, value_error,
}
use proxy_net.RoomSession.{RoomSession, decrypt}
use proxy_net.Packets.{Fields, text_field, RoomCipher, null_cipher, room_cipher}
use proxy_net.Client.Listen.{outcome, pass_on}
use proxy_net.Client.{
  Effect, emit, ChatClient, Python, cipher, with_session, max_tracked_strangers,
  max_deferred_messages,
}
use proxy_net.Client.Peers.{publish_verified}
use proxy_net.Client.Inbox.{
  Split, sort_out, sorted_out, is_due, flushed, flush_deferred, deliver_all, deliver, hold,
  hold_if_unknown, defer_body, defer_if_unreadable, has_type,
}
use proxy_net.Client.Outcomes.{IsArmed}
use proxy_net.Client.Sessions.{Armed, Alike, deliver_all-Alike, deliver-Alike, with_session-Armed}

-- What the client tracks of strangers is bounded, and its sessions are armed.
pub record IsTracked (c : ChatClient) : Type 0 where
  pub armed : Armed c.ciphers
  pub few_mismatched : length c.mismatched ≤ max_tracked_strangers
  pub few_pending : length c.pending_keys ≤ max_tracked_strangers

-- The queue of held messages is bounded too.
pub record IsWell (c : ChatClient) : Type 0 where
  pub tracked : IsTracked c
  pub few_deferred : length c.deferred ≤ max_deferred_messages

pub Alike-IsTracked : (c d : ChatClient) → Alike c d → IsTracked c → IsTracked d
Alike-IsTracked c d a t = record {
  armed = a.still_armed t.armed;
  few_mismatched = rw a.same_mismatched t.few_mismatched;
  few_pending = rw a.same_pending t.few_pending;
}

sorted_out-length :
    (due : Bool) (arrived : ℕ) (held : Fields) (rest : Split) (n : ℕ)
    → length rest.1 ≤ n
    → length (sorted_out due arrived held rest).1 ≤ (if due then n else suc n)
sorted_out-length true arrived held rest n h = h
sorted_out-length false arrived held rest n h = omega arith

module _ (lib : KeyLibrary) where
  -- The entries before the overflow's end leave.
  length-sort_out :
      (k : RoomCipher) (now overflow index : ℕ) (queue : List (ℕ × Fields))
      → length (sort_out lib k now overflow index queue).1 ≤ length queue - (overflow - index)
  unfolding sort_out
  length-sort_out k now overflow index [] = omega arith
  length-sort_out k now overflow index ((arrived, held) ∷ rest) =
      let due : Bool = is_due lib k now overflow index arrived held in
      let later : ltb index overflow ≡ true → due ≡ true = λ e. rw e (ground arith) in
      let rest_short = length-sort_out k now overflow (index + 1) rest in
      ground (
        arith,
        sorted_out-length due arrived held (sort_out lib k now overflow (index + 1) rest)
            (length rest - (overflow - (index + 1))) rest_short,
        later,
        ltb→lt index overflow,
        lt→ltb index overflow,
      )

pub IsWell-of :
    (c : ChatClient) → IsTracked c → length c.deferred ≤ max_deferred_messages → IsWell c
IsWell-of c t d = record { tracked = t; few_deferred = d }

pub emit-IsWell : (c : ChatClient) (e : Effect) → IsWell c → IsWell (emit c e)
emit-IsWell c e w = record {
  tracked = record {
    armed = w.tracked.armed;
    few_mismatched = w.tracked.few_mismatched;
    few_pending = w.tracked.few_pending;
  };
  few_deferred = w.few_deferred;
}

pub if-IsWell : (b : Bool) (c d : ChatClient) → IsWell c → IsWell d → IsWell (if b then c else d)
if-IsWell true c d v w = v
if-IsWell false c d v w = w

pub publish_verified-IsWell : (c : ChatClient) → IsWell c → IsWell (publish_verified c)
unfolding publish_verified
publish_verified-IsWell c w = if-IsWell c.on_packet _ c (emit-IsWell c _ w) w

pub with_session-IsTracked :
    (c : ChatClient) (s : RoomSession) → IsTracked c → IsArmed s → IsTracked (with_session c s)
with_session-IsTracked c s t a = record {
  armed = with_session-Armed c s t.armed a;
  few_mismatched = t.few_mismatched;
  few_pending = t.few_pending;
}

pub with_session-IsWell :
    (c : ChatClient) (s : RoomSession) → IsWell c → IsArmed s → IsWell (with_session c s)
with_session-IsWell c s w a =
    IsWell-of (with_session c s) (with_session-IsTracked c s w.tracked a) w.few_deferred

module _ (lib : KeyLibrary) (python : Python) where
  flushed-IsWell :
      (c : ChatClient) (out : Split)
      → IsTracked c
      → length out.1 ≤ max_deferred_messages
      → IsWell (flushed lib python c out)
  flushed-IsWell c (leaving, staying) t few =
      let base : ChatClient = record c { deferred = staying } in
      let a = deliver_all-Alike lib python base leaving in
      let kept : IsTracked base = record {
        armed = t.armed;
        few_mismatched = t.few_mismatched;
        few_pending = t.few_pending;
      } in
      IsWell-of (deliver_all lib python base leaving)
        (Alike-IsTracked base (deliver_all lib python base leaving) a kept) (rw a.same_deferred few)

  -- However many messages were held, at most fifty are after a flush.
  pub flush_deferred-IsWell :
      (c : ChatClient) (now : ℕ)
      → IsTracked c
      → length c.deferred ≤ max_deferred_messages + 1
      → IsWell (flush_deferred lib python c now)
  unfolding flush_deferred
  flush_deferred-IsWell c now t few =
      let overflow : ℕ = length c.deferred - max_deferred_messages in
      flushed-IsWell c (sort_out lib (cipher c) now overflow 0 c.deferred) t
        (omega (arith, length-sort_out lib (cipher c) now overflow 0 c.deferred))

  deliver-IsWell :
      (c : ChatClient) (packet : Fields) → IsWell c → IsWell (deliver lib python c packet)
  deliver-IsWell c packet w =
      let a = deliver-Alike lib python c packet in
      IsWell-of (deliver lib python c packet)
        (Alike-IsTracked c (deliver lib python c packet) a w.tracked)
        (rw a.same_deferred w.few_deferred)

  hold-IsWell :
      (c : ChatClient) (now : ℕ) (packet : Fields) (mismatched : List Bytes)
      → IsWell c
      → IsWell (hold lib python c now packet mismatched).0
  hold-IsWell c now packet (peer ∷ peers) w = w
  hold-IsWell c now packet [] w =
      let t = w.tracked in
      let few = length-append c.deferred ((now, packet) ∷ []) in
      flush_deferred-IsWell (record c { deferred = c.deferred ++ (now, packet) ∷ [] }) now
        (record { armed = t.armed; few_mismatched = t.few_mismatched; few_pending = t.few_pending })
        (omega (arith, w.few_deferred))

  hold_if_unknown-IsWell :
      (c : ChatClient) (now : ℕ) (packet : Fields) (r : Result KeyError Text)
      → IsWell c
      → IsWell (hold_if_unknown lib python c now packet r).0
  hold_if_unknown-IsWell c now packet (err unknown_sender_key) w =
      hold-IsWell c now packet c.mismatched w
  hold_if_unknown-IsWell c now packet (err offer_error) w = w
  hold_if_unknown-IsWell c now packet (err sender_key_error) w = w
  hold_if_unknown-IsWell c now packet (err decryption_error) w = w
  hold_if_unknown-IsWell c now packet (err message_too_long) w = w
  hold_if_unknown-IsWell c now packet (err value_error) w = w
  hold_if_unknown-IsWell c now packet (ok plaintext) w = w

  defer_body-IsWell :
      (c : ChatClient) (now : ℕ) (packet : Fields) (k : RoomCipher) (body : Option Text)
      → IsWell c
      → IsWell (defer_body lib python c now packet k body).0
  defer_body-IsWell c now packet null_cipher body w = w
  defer_body-IsWell c now packet (room_cipher s) none w = w
  defer_body-IsWell c now packet (room_cipher s) (some body) w =
      hold_if_unknown-IsWell c now packet (decrypt lib s body) w

  defer_if_unreadable-IsWell :
      (c : ChatClient) (now : ℕ) (packet : Fields)
      → IsWell c
      → IsWell (defer_if_unreadable lib python c now packet).0
  unfolding defer_if_unreadable
  defer_if_unreadable-IsWell c now packet w = elim (Bool-cases (has_type packet (text "message"))) [
    | inl message ↦
        rw (defer_if_unreadable, message)
          (defer_body-IsWell c now packet (cipher c) (text_field packet (text "content")) w)
    | inr other ↦ rw (defer_if_unreadable, other) w
  ]

  outcome-IsWell :
      (out : ChatClient × Bool) (packet : Fields)
      → IsWell out.0
      → IsWell (outcome out (λ d. deliver lib python d packet))
  outcome-IsWell (c, true) packet w = w
  outcome-IsWell (c, false) packet w = deliver-IsWell c packet w

  -- A packet for the interface.
  pub pass_on-IsWell :
      (c : ChatClient) (now : ℕ) (packet : Fields)
      → IsWell c
      → IsWell (pass_on lib python now packet (c, ok false)).0
  pass_on-IsWell c now packet w =
      let d = flush_deferred lib python c now in
      let v = flush_deferred-IsWell c now w.tracked (omega (arith, w.few_deferred)) in
      outcome-IsWell (defer_if_unreadable lib python d now packet) packet
        (defer_if_unreadable-IsWell d now packet v)
