-- ===== src/Tests/Signing.antt =====
-- Signing a payment with the toy scheme of `Tests.Validation`.
use plairo.Common.{ℕ, ◌≡◌, refl, List, [], ◌∷◌, ◌++◌, some, bytes_eq, bytes_eq_refl, unsome}
use plairo.Core.Validate.{sighash_all}
use plairo.Core.Signing.{Signer, signed, sign_input, generate_signature, set_script_sig}
use plairo.Core.Signing.Check.{IsSound, KeepsChecks, sign_input-KeepsChecks}
use plairo.Tests.Validation.{toy_hash, toy_ecdsa, toy_utxos, unsigned, payment, funds}

-- A private key is its public key, and a signature the key before the hash.
abbrev pub toy_signer : Signer toy_ecdsa
toy_signer = record {
  PrivateKey = List ℕ;
  Seed = ℕ;
  public_key = λ k. k;
  generate_key = λ seed. some (seed ∷ []);
  sign_asn1 = λ seed k hash. some (k ++ hash);
  marshal_key = λ k. some k;
}

toy_signer-IsSound : IsSound toy_ecdsa toy_signer
toy_signer-IsSound = record { verify-sign = λ seed k hash sig p. rw (unsome p) (bytes_eq_refl sig) }

signs :
    sign_input toy_hash toy_ecdsa toy_signer 0 unsigned 0 (8 ∷ 9 ∷ []) sighash_all ≡ signed payment
unfolding sign_input generate_signature set_script_sig
signs = refl

sign_input-KeepsChecks_example :
    KeepsChecks toy_hash toy_ecdsa toy_signer toy_utxos unsigned 0
      (record { output_referred = funds; script_sig = [] })
      payment
unfolding bytes_eq
sign_input-KeepsChecks_example =
    sign_input-KeepsChecks toy_hash toy_ecdsa toy_signer toy_utxos toy_signer-IsSound 0 unsigned
      payment 0 (8 ∷ 9 ∷ []) (record { output_referred = funds; script_sig = [] }) refl refl refl
      signs
