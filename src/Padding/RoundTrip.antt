-- ===== src/Padding/RoundTrip.antt =====
-- `pad` and `unpad` of core/padding.py: sizes on the wire, round trip, refusals.
use proxy_net.Prelude.{
  ℕ, ◌+◌, ◌-◌, ◌*◌, ◌/◌, ◌≤◌, ◌<◌, ◌≡◌, refl, ◌⊎◌, inl, inr, ◌++◌, arith, some, ok, err, Result,
  length, length-append, length-replicate, take, drop, replicate, take-append, leb, Bool-cases,
  lt→ltb, leb→le, length-take, length-drop, take-append-drop, le→leb, ap, sym, ◌∙◌,
}
use proxy_net.Bytes.{Bytes, to_bytes, from_bytes, big_endian}
use proxy_net.Bytes.Fields.{length-big_endian, from_bytes-big_endian}
use proxy_net.Padding.{
  PaddingError, message_too_long, shorter_than_length_field, length_does_not_fit, bucket_for,
  buckets, max_plaintext_bytes, max_content_bytes, envelope_bytes, pad, unpad,
}
use proxy_net.Padding.Rungs.{
  FirstFit, Fits, bucket_for-Fits, FirstFit-le, FirstFit-buckets-le, bucket_for-total,
}

-- The payload that `pad` builds on a rung.
abbrev framed : Bytes → ℕ → Bytes
framed p rung = big_endian 2 (length p) ++ (p ++ replicate (rung - length p - 2) 0)

length-framed : (p : Bytes) (rung : ℕ) → length p + 2 ≤ rung → length (framed p rung) ≡ rung
length-framed p rung h = omega (
  arith,
  length-append (big_endian 2 (length p)) (p ++ replicate (rung - length p - 2) 0),
  length-append p (replicate (rung - length p - 2) 0),
  length-big_endian 2 (length p),
  length-replicate {0} {A = ℕ} (rung - length p - 2) 0,
)

to_bytes-fits : (n : ℕ) → n ≤ 6110 → to_bytes 2 n ≡ some (big_endian 2 n)
unfolding to_bytes
to_bytes-fits n h = rw (lt→ltb n 65536 (omega arith))

pad-ok :
    (p : Bytes) (rung : ℕ)
    → bucket_for (length p) ≡ ok rung
    → length p ≤ 6110
    → pad p ≡ ok (framed p rung)
unfolding pad
pad-ok p rung e h = rw (e, to_bytes-fits (length p) h)

pad-err : (p : Bytes) (x : PaddingError) → bucket_for (length p) ≡ err x → pad p ≡ err x
unfolding pad
pad-err p x e = rw e

-- Cutting after the two length bytes.
field_of : (n : ℕ) (rest : Bytes) → take 2 (big_endian 2 n ++ rest) ≡ big_endian 2 n
unfolding big_endian
field_of n rest = refl

rest_of : (n : ℕ) (rest : Bytes) → drop 2 (big_endian 2 n ++ rest) ≡ rest
unfolding big_endian
rest_of n rest = refl

unpad-framed :
    (p : Bytes) (rung : ℕ) → length p + 2 ≤ rung → length p ≤ 6110 → unpad (framed p rung) ≡ ok p
unfolding unpad
unpad-framed p rung h k = rw (
  field_of (length p) (p ++ replicate (rung - length p - 2) 0),
  rest_of (length p) (p ++ replicate (rung - length p - 2) 0),
  from_bytes-big_endian 2 (length p) (omega arith),
  length-framed p rung h,
  le→leb 2 rung (omega arith),
  le→leb (length p) (rung - 2) (omega arith),
  take-append p (replicate (rung - length p - 2) 0),
)

-- A plaintext that fits the largest rung is padded, and `unpad` gives it back.
pub unpad-pad :
    (p : Bytes) → length p ≤ max_plaintext_bytes → (q : Bytes) × (pad p ≡ ok q) × (unpad q ≡ ok p)
unpad-pad p h =
    let (rung, e, fits) = bucket_for-total (length p) h in
    (framed p rung, pad-ok p rung e h, unpad-framed p rung fits h)

abbrev pub PadsTo : Bytes → Result PaddingError Bytes → Type 0
PadsTo p (ok q) = FirstFit (length p + 2) (length q) buckets
PadsTo p (err e) = (e ≡ message_too_long) × (max_plaintext_bytes < length p)

-- A padded payload is as long as the first rung that holds the plaintext and its length field, so
-- its length tells the rung and no more; `pad` refuses a plaintext exactly if it is longer than
-- `max_plaintext_bytes`, and then as too long.
pub pad-PadsTo : (p : Bytes) → PadsTo p (pad p)
pad-PadsTo p = go (bucket_for (length p)) refl (bucket_for-Fits (length p))
  where
    go :
        (r : Result PaddingError ℕ)
        → bucket_for (length p) ≡ r
        → Fits (length p + 2) buckets r
        → PadsTo p (pad p)
    go (ok rung) e f =
        let le = FirstFit-le (length p + 2) rung buckets f in
        let top = FirstFit-buckets-le (length p + 2) rung f in
        rw (pad-ok p rung e (omega arith), length-framed p rung le) f
    go (err x) e f = rw (pad-err p x e) (f.0, omega arith)

-- base64 writes four characters for every three bytes begun.
abbrev pub base64_length : ℕ → ℕ
base64_length n = (n + 2) / 3 * 4

-- The token of any padded message, envelope included, fits the server's limit on `content`, and a
-- message on the top rung fills the limit exactly.
pad-fits-limit :
    (p q : Bytes)
    → pad p ≡ ok q
    → (base64_length (envelope_bytes + length q) ≤ max_content_bytes)
      × (4094 < length p → base64_length (envelope_bytes + length q) ≡ max_content_bytes)
pad-fits-limit p q e =
    let fit : FirstFit (length p + 2) (length q) buckets = rw e at (pad-PadsTo p) in omega arith

abbrev pub UnpadsTo : Bytes → Result PaddingError Bytes → Type 0
UnpadsTo payload (ok p) =
    (length p ≡ from_bytes (take 2 payload))
    × (rest : Bytes) × (payload ≡ take 2 payload ++ (p ++ rest))
UnpadsTo payload (err e) =
    ((e ≡ shorter_than_length_field) × (length payload < 2))
    ⊎ ((e ≡ length_does_not_fit) × (length payload < 2 + from_bytes (take 2 payload)))

-- Whatever the payload, `unpad` returns the bytes behind the length field, as many as the field
-- says; it raises only if the payload is shorter than the field or than the field says.
unpad-UnpadsTo : (payload : Bytes) → UnpadsTo payload (unpad payload)
unfolding unpad
unpad-UnpadsTo payload = elim (Bool-cases (leb 2 (length payload))) [
  | inl long ↦ rw long (elim (Bool-cases (leb n (length payload - 2))) [
    | inl within ↦ rw within (
      length-take n (drop 2 payload) (omega (arith, leb→le n _ within, length-drop 2 payload)),
      drop n (drop 2 payload),
      sym (
          ap (◌++◌ (take 2 payload)) (take-append-drop n (drop 2 payload))
          ∙ take-append-drop 2 payload),
    )
    | inr beyond ↦ rw beyond (inr (refl, ground arith))
  ])
  | inr short ↦ rw short (inl (refl, ground arith))
]
  where
    n : ℕ
    n = from_bytes (take 2 payload)
