-- ===== src/Utils/Strings.antt =====
-- utils/string.go: keys to bytes and to text. A string is the list of its bytes. crypto/x509 is the
-- parameter `KeyCodec`; encoding/hex is written out.
pub mod RoundTrip
use plairo.Common.{ℕ, ◌+◌, ◌-◌, ◌*◌, ◌/◌, ◌%◌, leb, ltb, ◌&&◌, Bool, if◌then◌else◌}
use plairo.Common.{List, [], ◌∷◌, Option, none, some, ◌>>=◌}

-- `MarshalPKIXPublicKey`, `MarshalECPrivateKey`, `ParsePKIXPublicKey` (`some none` is a key of another
-- kind, which the type assertion refuses) and `ParseECPrivateKey`; `none` is an error.
pub record KeyCodec : Type 1 where
  pub PublicKey : Type 0
  pub PrivateKey : Type 0
  pub marshal_public : PublicKey → Option (List ℕ)
  pub marshal_private : PrivateKey → Option (List ℕ)
  pub parse_public : List ℕ → Option (Option PublicKey)
  pub parse_private : List ℕ → Option PrivateKey

pub data KeyError : Type 0 where
  marshalling_public_key marshalling_private_key decoding_key : KeyError
  parsing_public_key getting_pubkey parsing_private_key : KeyError

pub data Converted {ℓ} (A : Type ℓ) : Type ℓ where
  converted : A → Converted A
  key_error : KeyError → Converted A

-- The value, or the error that stands for `none`.
abbrev pub or_error {ℓ κ} :
    {A : Type ℓ} {B : Type κ} → KeyError → Option A → (A → Converted B) → Converted B
or_error e none next = key_error e
or_error e (some a) next = next a

-- A digit of `hex.EncodeToString`.
abbrev pub hex_digit : ℕ → ℕ
hex_digit n = if ltb n 10 then 48 + n else 87 + n

unfoldable pub encode_to_string : List ℕ → List ℕ
encode_to_string [] = []
encode_to_string (b ∷ bytes) = hex_digit (b / 16) ∷ hex_digit (b % 16) ∷ encode_to_string bytes

-- The value of a digit of either case.
unfoldable pub from_hex_char : ℕ → Option ℕ
from_hex_char c =
    if leb 48 c && leb c 57
    then some (c - 48)
    else if leb 97 c && leb c 102
    then some (c - 87)
    else if leb 65 c && leb c 70
    then some (c - 55)
    else none

-- An odd length is an error.
unfoldable pub decode_string : List ℕ → Option (List ℕ)
decode_string [] = some []
decode_string (c ∷ []) = none
decode_string (c ∷ d ∷ text) = from_hex_char c >>= λ high.
    from_hex_char d >>= λ low. decode_string text >>= λ bytes. some ((16 * high + low) ∷ bytes)

module _ (codec : KeyCodec) where
  unfoldable pub convert_pub_key_to_bytes : KeyCodec.PublicKey codec → Converted (List ℕ)
  convert_pub_key_to_bytes pubkey =
      or_error marshalling_public_key (codec.marshal_public pubkey) λ encpubkey. converted encpubkey

  unfoldable pub convert_priv_key_to_bytes : KeyCodec.PrivateKey codec → Converted (List ℕ)
  convert_priv_key_to_bytes privkey =
      or_error marshalling_private_key (codec.marshal_private privkey)
        λ encprivkey. converted encprivkey

  unfoldable pub convert_pub_key_to_string : KeyCodec.PublicKey codec → Converted (List ℕ)
  convert_pub_key_to_string pubkey =
      or_error marshalling_public_key (codec.marshal_public pubkey)
        λ encpubkey. converted (encode_to_string encpubkey)

  unfoldable pub convert_priv_key_to_string : KeyCodec.PrivateKey codec → Converted (List ℕ)
  convert_priv_key_to_string privkey =
      or_error marshalling_private_key (codec.marshal_private privkey)
        λ encprivkey. converted (encode_to_string encprivkey)

  unfoldable pub convert_bytes_to_pub_key : List ℕ → Converted (KeyCodec.PublicKey codec)
  convert_bytes_to_pub_key keybytes =
      or_error parsing_public_key (codec.parse_public keybytes)
        λ res. or_error getting_pubkey res λ pubkey. converted pubkey

  unfoldable pub convert_bytes_to_priv_key : List ℕ → Converted (KeyCodec.PrivateKey codec)
  convert_bytes_to_priv_key keybytes =
      or_error parsing_private_key (codec.parse_private keybytes) λ privkey. converted privkey

  unfoldable pub convert_string_to_pub_key : List ℕ → Converted (KeyCodec.PublicKey codec)
  convert_string_to_pub_key keystr = or_error decoding_key (decode_string keystr) λ keybytes.
      or_error parsing_public_key (codec.parse_public keybytes)
        λ res. or_error getting_pubkey res λ pubkey. converted pubkey

  unfoldable pub convert_string_to_priv_key : List ℕ → Converted (KeyCodec.PrivateKey codec)
  convert_string_to_priv_key keystr = or_error decoding_key (decode_string keystr) λ keybytes.
      or_error parsing_private_key (codec.parse_private keybytes) λ privkey. converted privkey
