-- ===== src/Jitter/Skip.antt =====
-- The skip loop of core/voice_jitter.py, and the span that it walks.
use proxy_net.Prelude.{
  ℕ, zero, suc, ◌+◌, ◌≤◌, ◌<◌, ◌≡◌, inl, inr, true, false, not, ◌&&◌, some, ltb, arith, Bool-cases,
  nat_eq, ◌∙◌,
}
use proxy_net.Bytes.{Bytes}
use proxy_net.Dict.{Dict, get, contains}
use proxy_net.Dict.Laws.{contains-get-some}
use proxy_net.Jitter.{JitterBuffer, skip_missing_head}

add-suc_right : (m n : ℕ) → m + suc n ≡ m + 1 + n
add-suc_right m n = omega arith

add-zero : (n : ℕ) → n + 0 ≡ n
add-zero n = omega arith

-- No frame stands below `n`.
abbrev pub NoneBelow : ℕ → Dict ℕ Bytes → Type 0
NoneBelow n d = (k : ℕ) (v : Bytes) → get d k ≡ some v → n ≤ k

-- Two buffers that differ by `n` skipped slots.
abbrev pub skip_by : JitterBuffer → ℕ → JitterBuffer
skip_by b n = record b { next = b.next + n; skipped = b.skipped + n }

-- What the loop does from `b` at a depth: it skips `n` slots, all of them empty, and stops at the
-- target or in front of a frame.
pub record Skips (b : JitterBuffer) (depth : ℕ) (r : JitterBuffer × ℕ) : Type 0 where
  pub n : ℕ
  pub buffer : r.0 ≡ skip_by b n
  pub depth_left : r.1 + n ≡ depth
  pub none_passed : NoneBelow b.next b.frames → NoneBelow (b.next + n) b.frames
  pub stops : b.target_frames < r.1 → contains b.frames (b.next + n) ≡ true
  pub above_target : 0 < n → b.target_frames ≤ r.1

Skips-here :
    (b : JitterBuffer) (depth : ℕ)
    → (b.target_frames < depth → contains b.frames b.next ≡ true)
    → Skips b depth (b, depth)
Skips-here b depth full = record {
  n = 0;
  buffer = ground arith;
  depth_left = omega arith;
  none_passed = λ h k v g. omega (arith, h k v g);
  stops = λ h. rw add-zero (full h);
  above_target = λ h. absurd (omega arith);
}

-- One round of the loop, over an empty slot.
abbrev one_skipped : JitterBuffer → JitterBuffer
one_skipped b = record b { next = b.next + 1; skipped = b.skipped + 1 }

not_below_suc :
    (n : ℕ) (d : Dict ℕ Bytes) → contains d n ≡ false → NoneBelow n d → NoneBelow (n + 1) d
not_below_suc n d e h k v g = ground (arith, h k v g, contains-get-some d k v g)

Skips-step :
    (b : JitterBuffer) (d : ℕ) (r : JitterBuffer × ℕ)
    → contains b.frames b.next ≡ false
    → b.target_frames < suc d
    → Skips (one_skipped b) d r
    → Skips b (suc d) r
Skips-step b d r empty above s = record {
  n = suc s.n;
  buffer = s.buffer ∙ ground arith;
  depth_left = omega (arith, s.depth_left);
  none_passed =
      λ h. rw (add-suc_right b.next s.n) (s.none_passed (not_below_suc b.next b.frames empty h));
  stops = λ h. rw (add-suc_right b.next s.n) (s.stops h);
  above_target = λ h. after_round s.n r.1 s.depth_left s.above_target;
}
  where
    after_round :
        (n left : ℕ) → left + n ≡ d → (0 < n → b.target_frames ≤ left) → b.target_frames ≤ left
    after_round zero left e h = omega arith
    after_round (suc n) left e h = h (omega arith)

pub skip_missing_head-Skips :
    (b : JitterBuffer) (depth : ℕ) → Skips b depth (skip_missing_head b depth)
unfolding skip_missing_head
skip_missing_head-Skips b zero = Skips-here b zero (λ h. absurd (omega arith))
skip_missing_head-Skips b (suc d) =
    elim (Bool-cases (ltb b.target_frames (suc d) && not (contains b.frames b.next))) [
      | inl more ↦
          rw (more, skip_missing_head)
            (Skips-step b d (skip_missing_head (one_skipped b) d) (ground arith) (ground arith)
              (skip_missing_head-Skips (one_skipped b) d))
      | inr done ↦ rw (done, skip_missing_head) (Skips-here b (suc d) (λ h. ground arith))
    ]
