-- ===== src/KeyAgreement/Agreement.antt =====
-- Both sides of core/key_agreement.py arrive at the same keys.
use proxy_net.Prelude.{
  ℕ, ◌*◌, ◌≤◌, ◌<◌, ◌≡◌, refl, inl, inr, [], ◌∷◌, ◌++◌, true, false, not, some, ltb, eqb, length,
  take, drop, take-append, drop-append, length-append, Text, ◌==◌, ==_iff, text_eq, ok,
  ok_injective, arith, Bool-cases, lt→ltb,
}
use mathlib.Core.Path.{ap₂}
use proxy_net.Bytes.{Bytes}
use proxy_net.KeyAgreement.{
  KeyLibrary, public_key_bytes, sender_key_bytes, wrap_nonce_bytes, pair_psk_bytes,
  sender_key_wrap_info, wrap_sender_key, unwrap_sender_key, bytes_leb, joined_sorted, pair_key,
}

bytes_leb_total : (a b : Bytes) → bytes_leb a b ≡ false → bytes_leb b a ≡ true
unfolding bytes_leb
bytes_leb_total [] b e = cc
bytes_leb_total (x ∷ a) [] e = refl
bytes_leb_total (x ∷ a) (y ∷ b) e = ground (arith, bytes_leb_total a b)

bytes_leb_antisym : (a b : Bytes) → bytes_leb a b ≡ true → bytes_leb b a ≡ true → a ≡ b
unfolding bytes_leb
bytes_leb_antisym [] [] d e = refl
bytes_leb_antisym [] (y ∷ b) d e = cc
bytes_leb_antisym (x ∷ a) [] d e = cc
bytes_leb_antisym (x ∷ a) (y ∷ b) d e =
    ap₂ ◌∷◌ (ground arith) (bytes_leb_antisym a b (ground arith) (ground arith))

-- The salt is the same from both sides.
pub joined_sorted_comm : (a b : Bytes) → joined_sorted a b ≡ joined_sorted b a
unfolding joined_sorted
joined_sorted_comm a b = elim (Bool-cases (bytes_leb a b)) [
  | inr later ↦ simp (later, bytes_leb_total a b later) refl
  | inl first ↦ elim (Bool-cases (bytes_leb b a)) [
    | inr only ↦ simp (first, only) refl
    | inl both ↦ simp (first, both) (let same = bytes_leb_antisym a b first both in cc)
  ]
]

-- What the code relies on: X25519 agrees from both sides, AES-GCM gives back what it encrypted and
-- adds a tag, and the encodings are undone by their decodings; keys and tags have their
-- lengths, and HKDF gives out at most 255 blocks.
pub record IsSound (lib : KeyLibrary) : Type 0 where
  pub commutes : (a b : Bytes) → lib.exchange a (lib.public_of b) ≡ lib.exchange b (lib.public_of a)
  pub public_length : (a : Bytes) → length (lib.public_of a) ≡ public_key_bytes
  pub hmac_length : (key message : Bytes) → length (lib.hmac key message) ≡ 32
  pub hkdf_length :
      (n : ℕ) (salt info key : Bytes) → n ≤ 255 * 32 → length (lib.hkdf n salt info key) ≡ n
  pub gives_back :
      (key number plaintext associated : Bytes)
      → lib.decrypt key number (lib.encrypt key number plaintext associated) associated
        ≡ some plaintext
  pub tagged :
      (key number plaintext associated : Bytes)
      → 0 < length (lib.encrypt key number plaintext associated)
  pub utf8_back : (t : Text) → lib.encodes t ≡ true → lib.from_utf8 (lib.to_utf8 t) ≡ some t
  pub base64_back : (bs : Bytes) → lib.from_base64 (lib.to_base64 bs) ≡ some bs

differs_comm : (a b : Bytes) → not (a == b) ≡ not (b == a)
differs_comm a b = ground (arith, ==_iff a b, ==_iff b a)

module _ (lib : KeyLibrary) (sound : IsSound lib) where
  -- Two clients of one room compute the same pair key, or both are refused.
  pub pair_key_comm :
      (a b psk : Bytes)
      → pair_key lib a (lib.public_of b) psk ≡ pair_key lib b (lib.public_of a) psk
  unfolding pair_key
  pair_key_comm a b psk =
      simp
        (
          sound.public_length a,
          sound.public_length b,
          sound.commutes a b,
          joined_sorted_comm (lib.public_of a) (lib.public_of b),
          differs_comm (lib.public_of a) (lib.public_of b),
        )
        refl

  -- A peer unwraps the key that was wrapped for it.
  pub unwrap-wrap :
      (nonce pair key wrapped : Bytes)
      → length nonce ≡ wrap_nonce_bytes
      → wrap_sender_key lib nonce pair key ≡ ok wrapped
      → unwrap_sender_key lib pair wrapped ≡ ok key
  unfolding wrap_sender_key unwrap_sender_key
  unwrap-wrap nonce pair key wrapped len e = elim (Bool-cases (eqb (length key) sender_key_bytes)) [
    | inr bad ↦ let f = simp bad at e in absurd (cc)
    | inl good ↦
        let sealed = lib.encrypt pair nonce key sender_key_wrap_info in
        let is : nonce ++ sealed ≡ wrapped = ok_injective (simp good at e) in
        let front : take wrap_nonce_bytes (nonce ++ sealed) ≡ nonce =
          rw (← len) (take-append nonce sealed) in
        let back : drop wrap_nonce_bytes (nonce ++ sealed) ≡ sealed =
          rw (← len) (drop-append nonce sealed) in
        let some_tag = sound.tagged pair nonce key sender_key_wrap_info in
        let long : ltb wrap_nonce_bytes (length (nonce ++ sealed)) ≡ true =
          lt→ltb _ _ (omega (arith, length-append nonce sealed)) in
        rw (← is) (
          simp (long, front, back, sound.gives_back pair nonce key sender_key_wrap_info, good) refl)
  ]

-- A client agrees with no key of its own.
pub pair_key-not_own :
    (lib : KeyLibrary) (a p psk k : Bytes)
    → pair_key lib a p psk ≡ ok k
    → (p == lib.public_of a) ≡ false
unfolding pair_key
pair_key-not_own lib a p psk k e = elim (Bool-cases (p == lib.public_of a)) [
  | inr apart ↦ apart
  | inl same ↦ elim (Bool-cases (eqb (length p) public_key_bytes)) [
    | inr bad ↦ let f = simp bad at e in absurd (cc)
    | inl good ↦ elim (Bool-cases (eqb (length psk) pair_psk_bytes)) [
      | inr bad ↦ let f = simp (good, bad) at e in absurd (cc)
      | inl fits ↦ let f = simp (good, fits, same) at e in absurd (cc)
    ]
  ]
]
