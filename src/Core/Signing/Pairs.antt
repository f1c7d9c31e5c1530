-- ===== src/Core/Signing/Pairs.antt =====
-- `GenerateKeyPair`, `GenerateSignature` and `VerifySignature` of utils/keys.go together.
use plairo.Common.{ℕ, ◌≡◌, sym, ap, ◌∙◌, true, List, some, unsome, >>=-eq-some}
use mathlib.Core.Path.{subst}
use plairo.Core.Validate.{Ecdsa, verify_signature}
use plairo.Core.Signing.{Signer, generate_key_pair, generate_signature}
use plairo.Core.Signing.Check.{IsSound}

module _ (sha256 : List ℕ → List ℕ) (ecdsa : Ecdsa) (signer : Signer ecdsa)
    (sound : IsSound ecdsa signer) where
  -- What is signed with the private key of a pair verifies with its public key.
  verify_signature-generate_signature :
      (seed seed' : Signer.Seed signer) (msg sig : List ℕ) (privkey : Signer.PrivateKey signer)
      (pubkey : Ecdsa.Key ecdsa)
      → generate_key_pair sha256 ecdsa signer seed ≡ some (privkey, pubkey)
      → generate_signature sha256 ecdsa signer seed' msg privkey ≡ some sig
      → verify_signature sha256 ecdsa msg sig pubkey ≡ true
  unfolding generate_key_pair generate_signature verify_signature
  verify_signature-generate_signature seed seed' msg sig privkey pubkey pair signs =
      let (k, _, made) = >>=-eq-some (signer.generate_key seed) _ pair in
      let same : (k, signer.public_key k) ≡ (privkey, pubkey) = unsome made in
      subst (λ p. ecdsa.verify_asn1 p (sha256 msg) sig ≡ true)
        (ap signer.public_key (sym (ap (λ q. q.0) same)) ∙ ap (λ q. q.1) same)
        (sound.verify-sign seed' privkey (sha256 msg) sig signs)
