-- ===== src/Crypto/Signing.antt =====
-- src/tools/approve-crypto.ts: the keys and signatures of the human's side, and that the server's
-- side reads them back. Key generation and signing are those of node:crypto, and are parameters.
use vigor3912s_mcp.Common.{
  ◌≡◌, refl, ap, ◌∙◌, ℕ, true, false, Option, none, some, List, ◌∷◌, Text, lit, trim, ok,
  string_key,
}
use vigor3912s_mcp.Crypto.{
  Crypto, build_sign_payload, includes, parse_public_key, ed25519_only, parse_approve_public_key,
  verify_bytes, verified, verify_approval_signature,
}

-- What `generateKeyPairSync` drew.
pub record DrawnKeys (PublicKey PrivateKey : Type 0) : Type 0 where
  pub public_key : PublicKey
  pub private_key : PrivateKey

pub record KeyPair : Type 0 where
  pub public_key_pem : Text
  pub private_key_pem : Text

-- What the human's side takes from node:crypto and Buffer. `none` stands for a thrown error.
pub record Signer (PublicKey PrivateKey : Type 0) : Type 0 where
  pub export_spki_pem : PublicKey → Text
  pub export_spki_der : PublicKey → List ℕ
  pub export_pkcs8_pem : PrivateKey → Text
  pub create_private_key : Text → Option PrivateKey
  pub sign : List ℕ → PrivateKey → Option (List ℕ)
  pub to_base64 : List ℕ → Text

module _ {PublicKey PrivateKey : Type 0} (crypto : Crypto PublicKey)
    (signer : Signer PublicKey PrivateKey) where
  unfoldable pub generate_approve_key_pair : DrawnKeys PublicKey PrivateKey → KeyPair
  generate_approve_key_pair drawn = record {
    public_key_pem = signer.export_spki_pem drawn.public_key;
    private_key_pem = signer.export_pkcs8_pem drawn.private_key;
  }

  unfoldable pub parse_private_key : Text → Option PrivateKey
  parse_private_key pem = signer.create_private_key (trim pem)

  config_value : Option PublicKey → Option Text
  config_value none = none
  config_value (some key) = some (signer.to_base64 (signer.export_spki_der key))

  unfoldable pub public_key_to_config_value : Text → Option Text
  unfolding config_value
  public_key_to_config_value pem = config_value (crypto.create_public_key_pem pem)

  encoded : Option (List ℕ) → Option Text
  encoded none = none
  encoded (some bytes) = some (signer.to_base64 bytes)

  signed_with : Option PrivateKey → List ℕ → Option Text
  unfolding encoded
  signed_with none payload = none
  signed_with (some key) payload = encoded (signer.sign payload key)

  unfoldable pub sign_approval : Text → Text → Text → Text → ℕ → Option Text
  unfolding parse_private_key signed_with
  sign_approval private_key_pem confirmation_id nonce command_digest expires_at =
      signed_with (parse_private_key private_key_pem)
        (build_sign_payload crypto confirmation_id nonce command_digest expires_at)

  -- What node:crypto and Buffer document of a drawn pair of keys: the encodings are read back, a
  -- base64 text has no white space around it and no PEM header in it, and a signature is not empty
  -- and verifies with the other key of the pair.
  pub record Documented (drawn : DrawnKeys PublicKey PrivateKey) : Type 0 where
    pub base64 : (bytes : List ℕ) → crypto.from_base64 (signer.to_base64 bytes) ≡ bytes
    pub base64_trimmed : (bytes : List ℕ) → trim (signer.to_base64 bytes) ≡ signer.to_base64 bytes
    pub base64_headless :
        (bytes : List ℕ) → includes (signer.to_base64 bytes) (lit "BEGIN PUBLIC KEY") ≡ false
    pub spki_pem :
        crypto.create_public_key_pem (signer.export_spki_pem drawn.public_key)
        ≡ some drawn.public_key
    pub spki_der :
        crypto.create_public_key_der (signer.export_spki_der drawn.public_key)
        ≡ some drawn.public_key
    pub pkcs8_pem :
        signer.create_private_key (trim (signer.export_pkcs8_pem drawn.private_key))
        ≡ some drawn.private_key
    pub key_type : crypto.asymmetric_key_type drawn.public_key ≡ "ed25519"
    pub signs :
        (payload : List ℕ)
        → (first : ℕ) × ((bytes : List ℕ) × (signer.sign payload drawn.private_key
              ≡ some (first ∷ bytes))
            × (crypto.verify payload drawn.public_key (first ∷ bytes) ≡ some true))

  module _ (drawn : DrawnKeys PublicKey PrivateKey) (doc : Documented drawn) where
    -- The value for the configuration that is made of a generated public key is read back as that key.
    pub public_key_to_config_value-parse :
        (value : Text) × (public_key_to_config_value
            (generate_approve_key_pair drawn).public_key_pem
          ≡ some value)
        × (parse_approve_public_key crypto value ≡ ok drawn.public_key)
    unfolding public_key_to_config_value generate_approve_key_pair parse_approve_public_key
        parse_public_key ed25519_only
    public_key_to_config_value-parse =
        let der = signer.export_spki_der drawn.public_key in
        (
          signer.to_base64 der,
          ap config_value doc.spki_pem,
          rw
              (
                doc.base64_trimmed der,
                doc.base64_headless der,
                doc.base64 der,
                doc.spki_der,
                doc.key_type,
              )
              refl,
        )

    -- A signature made with a generated private key verifies with its public key, for the same values.
    pub sign_approval-verify :
        (confirmation_id nonce command_digest : Text) (expires_at : ℕ)
        → (signature : Text) × (sign_approval
              (generate_approve_key_pair drawn).private_key_pem
              confirmation_id
              nonce
              command_digest
              expires_at
            ≡ some signature)
          × (verify_approval_signature crypto drawn.public_key signature confirmation_id nonce
                command_digest expires_at
              ≡ true)
    unfolding sign_approval generate_approve_key_pair verify_approval_signature verify_bytes
        verified
    sign_approval-verify confirmation_id nonce command_digest expires_at =
        let payload = build_sign_payload crypto confirmation_id nonce command_digest expires_at in
        let (first, (bytes, made, verifies)) = doc.signs payload in
        (
          signer.to_base64 (first ∷ bytes),
          ap (λ k. signed_with k payload) doc.pkcs8_pem ∙ ap encoded made,
          rw (doc.base64 (first ∷ bytes), doc.key_type, verifies) refl,
        )
