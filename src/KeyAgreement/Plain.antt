-- ===== src/KeyAgreement/Plain.antt =====
-- A library that hides nothing, at which the theorems on core/key_agreement.py, core/room_session.py
-- and core/client.py can be run.
use proxy_net.Prelude.{
  ℕ, ◌≡◌, refl, [], ◌∷◌, Bool, true, ltb, ◌||◌, ◌&&◌, Text, ◌++◌, some, length, take, drop,
  replicate, length-take, length-append, length-replicate, arith,
}
use proxy_net.Bytes.{Bytes}
use proxy_net.KeyAgreement.{KeyLibrary}
use proxy_net.KeyAgreement.Agreement.{IsSound}

-- Cut or filled up to a length.
abbrev pub sized : ℕ → Bytes → Bytes
sized n bs = take n (bs ++ replicate n 0)

length-sized : (n : ℕ) (bs : Bytes) → length (sized n bs) ≡ n
length-sized n bs =
    length-take n (bs ++ replicate n 0)
      (omega (arith, length-append bs (replicate n 0), length-replicate {A = ℕ} n 0))

-- No code point from 0xd800 to 0xdfff.
unfoldable pub has_no_surrogate : Text → Bool
has_no_surrogate [] = true
has_no_surrogate (c ∷ cs) = (ltb c 0xd800 || ltb 0xdfff c) && has_no_surrogate cs

abbrev pub plain_library : KeyLibrary
plain_library = record {
  public_of = λ key. sized 32 key;
  exchange = λ key peer. some (replicate 32 1);
  hmac = λ key message. sized 32 message;
  hkdf = λ n salt info key. sized n key;
  argon2id = λ salt password. sized 32 password;
  encrypt = λ key number plaintext associated. replicate 16 7 ++ plaintext;
  decrypt = λ key number ciphertext associated. some (drop 16 ciphertext);
  encodes = has_no_surrogate;
  to_utf8 = λ t. t;
  from_utf8 = λ bs. some bs;
  to_base64 = λ bs. bs;
  from_base64 = λ t. some t;
  normalize_room = λ t. t;
}

pub plain_library-IsSound : IsSound plain_library
plain_library-IsSound = record {
  commutes = λ a b. refl;
  public_length = λ a. length-sized 32 a;
  hmac_length = λ key message. length-sized 32 message;
  hkdf_length = λ n salt info key few. length-sized n key;
  gives_back = λ key number plaintext associated. refl;
  tagged = λ key number plaintext associated. omega arith;
  utf8_back = λ t e. refl;
  base64_back = λ bs. refl;
}
