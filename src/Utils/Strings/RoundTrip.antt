-- ===== src/Utils/Strings/RoundTrip.antt =====
-- Keys to text and back.
use plairo.Common.{
  ℕ, ◌+◌, ◌/◌, ◌%◌, ◌<◌, ◌≡◌, refl, ap, arith, leb, ltb, ◌&&◌, true, false, Bool-cases,
  Option-cases, inl, inr,
}
use plairo.Common.{List, [], ◌∷◌, some, All, IsByte}
use plairo.Utils.Strings.{
  KeyCodec, Converted, converted, key_error, marshalling_public_key, marshalling_private_key,
  hex_digit, encode_to_string, from_hex_char, decode_string, convert_pub_key_to_string,
  convert_priv_key_to_string, convert_string_to_pub_key, convert_string_to_priv_key,
}

from_hex_char-hex_digit : (n : ℕ) → n < 16 → from_hex_char (hex_digit n) ≡ some n
unfolding from_hex_char
from_hex_char-hex_digit n l = elim (Bool-cases (ltb n 10)) [
  | inl small ↦
      let is_digit : (leb 48 (48 + n) && leb (48 + n) 57) ≡ true = ground arith in
      rw (small, from_hex_char, is_digit) (ap some (omega arith))
  | inr large ↦
      let no_digit : (leb 48 (87 + n) && leb (87 + n) 57) ≡ false = ground arith in
      let is_letter : (leb 97 (87 + n) && leb (87 + n) 102) ≡ true = ground arith in
      rw (large, from_hex_char, no_digit, is_letter) (ap some (omega arith))
]

decode-encode_to_string :
    (bytes : List ℕ) → All IsByte bytes → decode_string (encode_to_string bytes) ≡ some bytes
unfolding decode_string encode_to_string
decode-encode_to_string [] a = refl
decode-encode_to_string (b ∷ bytes) a =
    rw
      (
        from_hex_char-hex_digit (b / 16) (omega arith),
        from_hex_char-hex_digit (b % 16) (omega arith),
        decode-encode_to_string bytes a.1,
      )
      (ap (λ x. some (x ∷ bytes)) (omega arith))

-- A key parses from its own encoding, which is of bytes.
pub record IsCodec (codec : KeyCodec) : Type 0 where
  pub parse-marshal_public :
      (k : KeyCodec.PublicKey codec) (bytes : List ℕ)
      → codec.marshal_public k ≡ some bytes
      → codec.parse_public bytes ≡ some (some k)
  pub parse-marshal_private :
      (k : KeyCodec.PrivateKey codec) (bytes : List ℕ)
      → codec.marshal_private k ≡ some bytes
      → codec.parse_private bytes ≡ some k
  pub public_bytes :
      (k : KeyCodec.PublicKey codec) (bytes : List ℕ)
      → codec.marshal_public k ≡ some bytes
      → All IsByte bytes
  pub private_bytes :
      (k : KeyCodec.PrivateKey codec) (bytes : List ℕ)
      → codec.marshal_private k ≡ some bytes
      → All IsByte bytes

module _ (codec : KeyCodec) (ok : IsCodec codec) where
  same_text : {a b : List ℕ} → converted a ≡ converted b → a ≡ b
  same_text p = cc

  no_text : {a : List ℕ} {e : plairo.Utils.Strings.KeyError} → key_error e ≡ converted a → ⊥
  no_text p = cc

  -- A public key that `ConvertPubKeyToString` gives as text comes back from that text.
  pub convert_string_to_pub_key-convert_pub_key_to_string :
      (k : KeyCodec.PublicKey codec) (text : List ℕ)
      → convert_pub_key_to_string codec k ≡ converted text
      → convert_string_to_pub_key codec text ≡ converted k
  unfolding convert_pub_key_to_string convert_string_to_pub_key
  convert_string_to_pub_key-convert_pub_key_to_string k text p =
      elim (Option-cases (codec.marshal_public k)) [
        | inl m ↦ absurd (no_text (rw (convert_pub_key_to_string, m) at p))
        | inr (bytes, m) ↦
            let text_of = same_text (rw (convert_pub_key_to_string, m) at p) in
            rw
              (
                ← text_of,
                convert_string_to_pub_key,
                decode-encode_to_string bytes (ok.public_bytes k bytes m),
                ok.parse-marshal_public k bytes m,
              )
              refl
      ]

  -- A private key that `ConvertPrivKeyToString` gives as text comes back from that text.
  convert_string_to_priv_key-convert_priv_key_to_string :
      (k : KeyCodec.PrivateKey codec) (text : List ℕ)
      → convert_priv_key_to_string codec k ≡ converted text
      → convert_string_to_priv_key codec text ≡ converted k
  unfolding convert_priv_key_to_string convert_string_to_priv_key
  convert_string_to_priv_key-convert_priv_key_to_string k text p =
      elim (Option-cases (codec.marshal_private k)) [
        | inl m ↦ absurd (no_text (rw (convert_priv_key_to_string, m) at p))
        | inr (bytes, m) ↦
            let text_of = same_text (rw (convert_priv_key_to_string, m) at p) in
            rw
              (
                ← text_of,
                convert_string_to_priv_key,
                decode-encode_to_string bytes (ok.private_bytes k bytes m),
                ok.parse-marshal_private k bytes m,
              )
              refl
      ]
