-- ===== src/Padding.antt =====
-- core/padding.py: messages are grown to the next rung of a ladder of sizes before encryption.
-- `top_bucket` follows `MAX_CONTENT_BYTES` of core/protocol.py.
pub mod Rungs
pub mod RoundTrip
mod Examples
use proxy_net.Prelude.{
  ℕ, ◌+◌, ◌-◌, ◌*◌, ◌/◌, List, [], ◌∷◌, ◌++◌, Option, none, some, ltb, leb, if◌then◌else◌, length,
  take, drop, replicate, Result, ok, err, ◌>>=◌, ◌>>◌, guard,
}
use proxy_net.Bytes.{Bytes, to_bytes, from_bytes}

abbrev pub max_content_bytes : ℕ
max_content_bytes = 8192

abbrev pub length_bytes : ℕ
length_bytes = 2

abbrev pub envelope_bytes : ℕ
envelope_bytes = 4 + 12 + 16

abbrev pub top_bucket : ℕ
top_bucket = let raw : ℕ = max_content_bytes / 4 * 3 in raw - envelope_bytes

abbrev pub buckets : List ℕ
buckets = 32 ∷ 64 ∷ 128 ∷ 256 ∷ 512 ∷ 1024 ∷ 2048 ∷ 4096 ∷ top_bucket ∷ []

-- MessageTooLong, the OverflowError of `to_bytes`, and the two ValueErrors of `unpad`.
pub data PaddingError : Type 0 where
  message_too_long overflow shorter_than_length_field length_does_not_fit : PaddingError

-- `BUCKETS[-1]`
abbrev pub last_bucket : List ℕ → ℕ
last_bucket [] = 0
last_bucket (r ∷ []) = r
last_bucket (r ∷ s ∷ rs) = last_bucket (s ∷ rs)

abbrev pub max_plaintext_bytes : ℕ
max_plaintext_bytes = last_bucket buckets - length_bytes

-- The loop of `bucket_for`.
pub first_rung : ℕ → List ℕ → Result PaddingError ℕ
first_rung needed [] = err message_too_long
first_rung needed (rung ∷ rungs) = if leb needed rung then ok rung else first_rung needed rungs

unfoldable pub bucket_for : ℕ → Result PaddingError ℕ
unfolding first_rung
bucket_for len = first_rung (len + length_bytes) buckets

abbrev pub or_raise : {A : Type 0} → Option A → PaddingError → Result PaddingError A
or_raise none e = err e
or_raise (some a) e = ok a

unfoldable pub pad : Bytes → Result PaddingError Bytes
pad plaintext = do
  rung ← bucket_for (length plaintext)
  field ← or_raise (to_bytes length_bytes (length plaintext)) overflow
  ok (field ++ (plaintext ++ replicate (rung - length plaintext - length_bytes) 0))

unfoldable pub unpad : Bytes → Result PaddingError Bytes
unpad payload = do
  guard (leb length_bytes (length payload)) shorter_than_length_field
  let len = from_bytes (take length_bytes payload)
  guard (leb len (length payload - length_bytes)) length_does_not_fit
  ok (take len (drop length_bytes payload))
