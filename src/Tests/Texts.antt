-- ===== src/Tests/Texts.antt =====
-- Keys as text, with keys that are their own encoding.
use plairo.Common.{
  ℕ, ◌≡◌, refl, arith, ltb, true, false, Bool, if◌then◌else◌, List, [], ◌∷◌, none, some, All,
  IsByte, unsome,
}
use plairo.Utils.Strings.{
  KeyCodec, converted, encode_to_string, convert_pub_key_to_string, convert_string_to_pub_key,
  convert_priv_key_to_string,
}
use plairo.Utils.Strings.RoundTrip.{IsCodec, convert_string_to_pub_key-convert_pub_key_to_string}

abbrev toy_codec : KeyCodec
toy_codec = record {
  PublicKey = Bool;
  PrivateKey = Bool;
  marshal_public = λ k. some (if k then 0xab ∷ [] else 0xcd ∷ []);
  marshal_private = λ k. some (if k then 0x01 ∷ [] else 0x02 ∷ []);
  parse_public = λ bytes. elim bytes [ [] ↦ none | b ∷ _ ↦ some (some (ltb b 0xcd)) ];
  parse_private = λ bytes. elim bytes [ [] ↦ none | b ∷ _ ↦ some (ltb b 2) ];
}

public_parses :
    (k : Bool) (bytes : List ℕ)
    → toy_codec.marshal_public k ≡ some bytes
    → (toy_codec.parse_public bytes ≡ some (some k)) × All IsByte bytes
public_parses true bytes p = rw (← unsome p) (refl, (omega arith, tt))
public_parses false bytes p = rw (← unsome p) (refl, (omega arith, tt))

private_parses :
    (k : Bool) (bytes : List ℕ)
    → toy_codec.marshal_private k ≡ some bytes
    → (toy_codec.parse_private bytes ≡ some k) × All IsByte bytes
private_parses true bytes p = rw (← unsome p) (refl, (omega arith, tt))
private_parses false bytes p = rw (← unsome p) (refl, (omega arith, tt))

toy_codec-IsCodec : IsCodec toy_codec
toy_codec-IsCodec = record {
  parse-marshal_public = λ k bytes p. (public_parses k bytes p).0;
  parse-marshal_private = λ k bytes p. (private_parses k bytes p).0;
  public_bytes = λ k bytes p. (public_parses k bytes p).1;
  private_bytes = λ k bytes p. (private_parses k bytes p).1;
}

public_text : convert_pub_key_to_string toy_codec true ≡ converted (97 ∷ 98 ∷ [])
unfolding convert_pub_key_to_string encode_to_string
public_text = refl

private_text : convert_priv_key_to_string toy_codec false ≡ converted (48 ∷ 50 ∷ [])
unfolding convert_priv_key_to_string encode_to_string
private_text = refl

convert_string_to_pub_key-convert_pub_key_to_string_example :
    convert_string_to_pub_key toy_codec (97 ∷ 98 ∷ []) ≡ converted true
convert_string_to_pub_key-convert_pub_key_to_string_example =
    convert_string_to_pub_key-convert_pub_key_to_string toy_codec toy_codec-IsCodec true
      (97 ∷ 98 ∷ []) public_text
