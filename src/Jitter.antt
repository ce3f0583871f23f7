-- ===== src/Jitter.antt =====
-- core/voice_jitter.py: the jitter buffer of one sender. Python's integers that stay above zero
-- are numbers here; sequence numbers and durations are numbers from the start, so the refusals of
-- negative arguments have no counterpart.
pub mod Skip
pub mod CatchUp
pub mod Slot
pub mod Pop
pub mod Push
pub mod Runs
mod Examples
use proxy_net.Prelude.{
  ℕ, zero, suc, ◌+◌, ◌-◌, ◌*◌, ◌/◌, List, [], ◌∷◌, Bool, true, false, not, ◌&&◌, ◌||◌, Option, none,
  some, ltb, leb, if◌then◌else◌, length, Result, ok, err, ◌>>=◌, ◌>>◌, guard, nat_eq,
}
use proxy_net.Bytes.{Bytes}
use proxy_net.Dict.{Dict, get, put, remove, contains, keys}

-- `bad_frame_ms`, `bad_capacity` and `bad_interval` are ValueErrors of the constructor;
-- `key_error` is what `del self._frames[self._next]` raises where the key is missing.
pub data JitterError : Type 0 where
  bad_frame_ms bad_capacity bad_interval key_error : JitterError

pub record JitterBuffer : Type 0 where
  pub target_ms : ℕ
  pub frame_ms : ℕ
  pub capacity : ℕ
  pub target_frames : ℕ
  pub catchup_slack_frames : ℕ
  pub catchup_interval : Option ℕ
  pub frames : Dict ℕ Bytes
  pub next : ℕ
  pub playing : Bool
  pub catching_up : Bool
  pub pops_since_drop : ℕ
  pub lost : ℕ
  pub late : ℕ
  pub duplicate : ℕ
  pub overflow : ℕ
  pub resync : ℕ
  pub underrun : ℕ
  pub dropped : ℕ
  pub skipped : ℕ

abbrev pub default_target_ms : ℕ
default_target_ms = 60

abbrev pub default_frame_ms : ℕ
default_frame_ms = 20

abbrev pub default_capacity : ℕ
default_capacity = 50

abbrev pub default_catchup_slack_ms : ℕ
default_catchup_slack_ms = 40

abbrev pub default_catchup_interval : ℕ
default_catchup_interval = 5

-- -(-a // b)
abbrev pub ceil_div : ℕ → ℕ → ℕ
ceil_div a b = (a + b - 1) / b

abbrev at_least_one : ℕ → ℕ
at_least_one n = if ltb n 1 then 1 else n

abbrev interval_is_valid : Option ℕ → Bool
interval_is_valid none = true
interval_is_valid (some n) = leb 1 n

-- `catchup_interval or 0`
abbrev or_zero : Option ℕ → ℕ
or_zero none = 0
or_zero (some n) = n

unfoldable pub new : ℕ → ℕ → ℕ → ℕ → Option ℕ → Result JitterError JitterBuffer
new target_ms frame_ms capacity catchup_slack_ms catchup_interval = do
  guard (leb 1 frame_ms) bad_frame_ms
  guard (leb 1 capacity) bad_capacity
  guard (interval_is_valid catchup_interval) bad_interval
  ok (record {
    target_ms = target_ms;
    frame_ms = frame_ms;
    capacity = capacity;
    target_frames = at_least_one (ceil_div target_ms frame_ms);
    catchup_slack_frames = ceil_div catchup_slack_ms frame_ms;
    catchup_interval = catchup_interval;
    frames = [];
    next = 0;
    playing = false;
    catching_up = false;
    pops_since_drop = or_zero catchup_interval;
    lost = 0;
    late = 0;
    duplicate = 0;
    overflow = 0;
    resync = 0;
    underrun = 0;
    dropped = 0;
    skipped = 0;
  })

-- `min` and `max` of the keys, the first of them given.
unfoldable pub least : ℕ → List ℕ → ℕ
least m [] = m
least m (k ∷ ks) = least (if ltb k m then k else m) ks

unfoldable pub greatest : ℕ → List ℕ → ℕ
greatest m [] = m
greatest m (k ∷ ks) = greatest (if ltb m k then k else m) ks

unfoldable pub buffered_ms : JitterBuffer → ℕ
buffered_ms b = length b.frames * b.frame_ms

-- The span from `start` to the newest frame, `max(...) - start + 1`.
unfoldable pub span : ℕ → Dict ℕ Bytes → ℕ
span start [] = 0
span start ((k, v) ∷ rest) = greatest k (keys rest) + 1 - start

-- `min(self._frames)`; it is read only where there are frames.
unfoldable pub first_sequence : Dict ℕ Bytes → ℕ
first_sequence [] = 0
first_sequence ((k, v) ∷ rest) = least k (keys rest)

unfoldable pub depth_frames : JitterBuffer → ℕ
depth_frames b = span (if b.playing then b.next else first_sequence b.frames) b.frames

unfoldable pub restart : JitterBuffer → ℕ → Bytes → JitterBuffer
restart b sequence payload = record b {
  resync = b.resync + 1;
  frames = (sequence, payload) ∷ [];
  next = sequence;
  playing = false;
  catching_up = false;
}

-- abs(sequence - self._next) > self.capacity
abbrev pub is_far : JitterBuffer → ℕ → Bool
is_far b sequence = ltb b.capacity (sequence - b.next) || ltb b.capacity (b.next - sequence)

unfoldable pub push : JitterBuffer → ℕ → Bytes → JitterBuffer × Bool
push b sequence payload =
    if b.playing && is_far b sequence
    then (restart b sequence payload, true)
    else if b.playing && ltb sequence b.next
    then (record b { late = b.late + 1 }, false)
    else if contains b.frames sequence
    then (record b { duplicate = b.duplicate + 1 }, false)
    else if leb b.capacity (length b.frames)
    then (record b { overflow = b.overflow + 1 }, false)
    else (record b { frames = put b.frames sequence payload }, true)

-- The loop ends because each round lowers `depth`.
unfoldable pub skip_missing_head : JitterBuffer → ℕ → JitterBuffer × ℕ
skip_missing_head b zero = (b, zero)
skip_missing_head b (suc d) = elim (ltb b.target_frames (suc d) && not (contains b.frames b.next)) [
  | true ↦ skip_missing_head (record b { next = b.next + 1; skipped = b.skipped + 1 }) d
  | false ↦ (b, suc d)
]

-- The oldest real frame is dropped, then the empty slots behind it.
unfoldable pub drop_head : JitterBuffer → ℕ → Result JitterError JitterBuffer
drop_head b depth = do
  guard (contains b.frames b.next) key_error
  let (b', _) =
      skip_missing_head
        (record b {
          frames = remove b.frames b.next;
          next = b.next + 1;
          dropped = b.dropped + 1;
          pops_since_drop = 0;
        })
        (depth - 1)
  ok b'

-- excess > 0 and holes < excess and self._pops_since_drop >= self.catchup_interval, where excess is
-- depth - target and holes is depth less the number of frames.
abbrev pub must_drop : JitterBuffer → ℕ → ℕ → Bool
must_drop b interval depth =
    ltb b.target_frames depth
    && (ltb depth (depth - b.target_frames + length b.frames) && leb interval b.pops_since_drop)

-- The part of `_catch_up` behind the test of `_catching_up`.
unfoldable pub melt : JitterBuffer → ℕ → ℕ → Result JitterError JitterBuffer
melt b interval depth =
    let (b', depth') = skip_missing_head b depth in
    if must_drop b' interval depth' then drop_head b' depth' else ok b'

-- The hysteresis of `_catching_up`.
abbrev pub judge : JitterBuffer → ℕ → Bool
judge b depth =
    if ltb (b.target_frames + b.catchup_slack_frames) depth
    then true
    else if leb depth b.target_frames
    then false
    else b.catching_up

unfoldable pub catch_up_every : JitterBuffer → ℕ → Result JitterError JitterBuffer
catch_up_every b interval =
    let depth = depth_frames b in
    let judged = record b { catching_up = judge b depth } in
    if judge b depth then melt judged interval depth else ok judged

unfoldable pub catch_up_if : Option ℕ → JitterBuffer → Result JitterError JitterBuffer
catch_up_if none b = ok b
catch_up_if (some interval) b = catch_up_every b interval

unfoldable pub catch_up : JitterBuffer → Result JitterError JitterBuffer
unfolding catch_up_if
catch_up b = catch_up_if b.catchup_interval b

-- The frame of the slot at `next`, counted as lost if it never arrived.
unfoldable pub take_next : JitterBuffer → Option Bytes × JitterBuffer
take_next b =
    let frame = get b.frames b.next in
    (
      frame,
      record b {
        frames = remove b.frames b.next;
        next = b.next + 1;
        pops_since_drop = b.pops_since_drop + 1;
        lost = elim frame [ none ↦ b.lost + 1 | some f ↦ b.lost ];
      },
    )

unfoldable pub play : JitterBuffer → Result JitterError (Option Bytes × JitterBuffer)
play b = do b' ← catch_up b; ok (take_next b')

unfoldable pub begin : JitterBuffer → JitterBuffer
begin b = record b { playing = true; next = first_sequence b.frames }

unfoldable pub pop : JitterBuffer → Result JitterError (Option Bytes × JitterBuffer)
pop b =
    if b.playing
    then (if leb (length b.frames) 0
        then ok (none, record b { underrun = b.underrun + 1; playing = false })
        else play b)
    else if ltb (length b.frames) b.target_frames
    then ok (none, b)
    else play (begin b)

unfoldable pub reset : JitterBuffer → JitterBuffer
reset b = record b { frames = []; next = 0; playing = false; catching_up = false }
