-- ===== src/Packets.antt =====
-- Packets: the JSON objects of core/protocol.py after decoding, and what core/crypto.py does with
-- the content of one. A number keeps the text of its numeral.
use proxy_net.Prelude.{
  Bool, true, false, not, Option, none, some, if◌then◌else◌, Text, text, ◌==◌, ==_iff, text_eq,
  Result, ok, err, ◌≡◌, refl, arith,
}
use proxy_net.Bytes.{Bytes}
use proxy_net.KeyAgreement.{KeyLibrary, KeyError}
use proxy_net.RoomSession.{RoomSession, encrypt, decrypt}

mutual
  pub data Json : Type 0 where
    null : Json
    boolean : Bool → Json
    number : Text → Json
    string : Text → Json
    array : Items → Json
    object : Fields → Json

  pub data Items : Type 0 where
    nil : Items
    cons : Json → Items → Items

  pub data Fields : Type 0 where
    end : Fields
    field : Text → Json → Fields → Fields

-- packet.get(name)
unfoldable pub get_field : Fields → Text → Option Json
get_field end name = none
get_field (field n v fs) name = if n == name then some v else get_field fs name

-- packet[name] = value
unfoldable pub set_field : Fields → Text → Json → Fields
set_field end name value = field name value end
set_field (field n v fs) name value =
    if n == name then field n value fs else field n v (set_field fs name value)

pub get-set_field :
    (fs : Fields) (name other : Text) (v : Json)
    → get_field (set_field fs name v) other ≡ (if name == other then some v else get_field fs other)
unfolding get_field set_field
get-set_field end name other v = refl
get-set_field (field n w fs) name other v =
    ground (arith, ==_iff n name, ==_iff n other, ==_iff name other, get-set_field fs name other v)

-- `value if isinstance(value, str) else None`
abbrev pub as_text : Option Json → Option Text
as_text (some (string t)) = some t
as_text (some null) = none
as_text (some (boolean b)) = none
as_text (some (number n)) = none
as_text (some (array xs)) = none
as_text (some (object fs)) = none
as_text none = none

unfoldable pub text_field : Fields → Text → Option Text
text_field packet name = as_text (get_field packet name)

-- `value is None`
abbrev pub is_null : Option Json → Bool
is_null none = true
is_null (some null) = true
is_null (some (boolean b)) = false
is_null (some (number n)) = false
is_null (some (string t)) = false
is_null (some (array xs)) = false
is_null (some (object fs)) = false

abbrev pub undecryptable_placeholder : Text
undecryptable_placeholder = text "[could not decrypt - different room password]"

abbrev pub decrypt_reason_password : Text
decrypt_reason_password = text "password"

abbrev pub decrypt_reason_scheme : Text
decrypt_reason_scheme = text "scheme"

abbrev pub decrypt_reason_sender : Text
decrypt_reason_sender = text "sender"

abbrev pub scheme_name : Text
scheme_name = text "aesgcm-x25519-v3"

-- A client's cipher in a room: NullCipher, or the room's session.
pub data RoomCipher : Type 0 where
  null_cipher : RoomCipher
  room_cipher : RoomSession → RoomCipher

abbrev pub scheme : RoomCipher → Option Text
scheme null_cipher = none
scheme (room_cipher s) = some scheme_name

-- `scheme != cipher.scheme`, of a field that is not None.
abbrev pub is_scheme : Option Text → Option Text → Bool
is_scheme none scheme = false
is_scheme (some name) none = false
is_scheme (some name) (some scheme) = name == scheme

unfoldable pub mark_undecryptable : Fields → Text → Fields
mark_undecryptable packet reason =
    set_field
      (set_field (set_field packet (text "content") (string undecryptable_placeholder))
        (text "decrypt_failed") (boolean true))
      (text "decrypt_reason") (string reason)

-- `DECRYPT_REASON_SCHEME if cipher.scheme is not None else DECRYPT_REASON_PASSWORD`
abbrev pub reason_for : Option Text → Text
reason_for none = decrypt_reason_password
reason_for (some name) = decrypt_reason_scheme

-- DecryptionError and its subclass.
abbrev pub with_plaintext : Fields → Result KeyError Text → Fields
with_plaintext packet (ok plaintext) = set_field packet (text "content") (string plaintext)
with_plaintext packet (err e) = mark_undecryptable packet decrypt_reason_password

module _ (lib : KeyLibrary) where
  -- `encrypt` and `decrypt` of the two ciphers.
  abbrev pub cipher_encrypt : RoomCipher → Bytes → Text → Result KeyError Text
  cipher_encrypt null_cipher nonce plaintext = ok plaintext
  cipher_encrypt (room_cipher s) nonce plaintext = encrypt lib s nonce plaintext

  abbrev pub cipher_decrypt : RoomCipher → Text → Result KeyError Text
  cipher_decrypt null_cipher token = ok token
  cipher_decrypt (room_cipher s) token = decrypt lib s token

  -- `decrypt_packet_content` of a packet whose content is a text.
  unfoldable pub decrypt_content : Fields → RoomCipher → Text → Fields
  decrypt_content packet cipher content =
      if is_null (get_field packet (text "enc"))
      then packet
      else if not (is_scheme (text_field packet (text "enc")) (scheme cipher))
      then mark_undecryptable packet (reason_for (scheme cipher))
      else with_plaintext packet (cipher_decrypt cipher content)

  unfoldable pub decrypt_packet_content : Fields → RoomCipher → Fields
  decrypt_packet_content packet cipher = elim (text_field packet (text "content")) [
    | none ↦ packet
    | some content ↦ decrypt_content packet cipher content
  ]
