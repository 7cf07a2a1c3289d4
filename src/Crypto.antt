-- ===== src/Crypto.antt =====
-- src/tools/approve-crypto.ts: the payload that a human signs and its verification. The hash, the
-- key parser and the signature scheme are those of node:crypto, and are parameters.
pub mod Digits
pub mod Payload
pub mod Signing
pub mod Tests
use vigor3912s_mcp.Common.{
  ℕ, String, Bool, false, true, not, ◌||◌, Option, none, some, List, [], ◌∷◌, ◌++◌, Text, lit, trim,
  if◌then◌else◌, ◌==◌, string_key, starts_with, Result, ok, err, plain_error,
}
use Digits.{decimal}

-- What the program takes from node:crypto and Buffer. `none` stands for a thrown error.
pub record Crypto (PublicKey : Type 0) : Type 0 where
  pub sha256_hex : Text → Text
  pub utf8_bytes : Text → List ℕ
  pub utf8_text : List ℕ → Text
  pub from_base64 : Text → List ℕ
  pub create_public_key_pem : Text → Option PublicKey
  pub create_public_key_der : List ℕ → Option PublicKey
  pub asymmetric_key_type : PublicKey → String
  pub verify : List ℕ → PublicKey → List ℕ → Option Bool

abbrev newline : ℕ
newline = 10

-- The text of the payload.
unfoldable pub sign_text : Text → Text → Text → ℕ → Text
sign_text confirmation_id nonce command_digest expires_at =
    confirmation_id
    ++ newline ∷ (nonce ++ newline ∷ (command_digest ++ newline ∷ decimal expires_at))

-- `text.includes(part)`
unfoldable pub includes : Text → Text → Bool
includes [] part = starts_with [] part
includes (c ∷ s) part = starts_with (c ∷ s) part || includes s part

module _ {PublicKey : Type 0} (crypto : Crypto PublicKey) where
  open crypto use {
    sha256_hex, from_base64, create_public_key_pem, create_public_key_der, asymmetric_key_type,
    verify, utf8_bytes,
  }

  unfoldable pub build_sign_payload : Text → Text → Text → ℕ → List ℕ
  unfolding sign_text
  build_sign_payload confirmation_id nonce command_digest expires_at =
      utf8_bytes (sign_text confirmation_id nonce command_digest expires_at)

  unfoldable pub digest_command : Text → Text
  digest_command command = sha256_hex command

  unfoldable pub parse_public_key : Text → Option PublicKey
  unfolding includes trim lit
  parse_public_key pem_or_b64 =
      let trimmed = trim pem_or_b64 in
      if includes trimmed (lit "BEGIN PUBLIC KEY")
      then create_public_key_pem trimmed
      else create_public_key_der (from_base64 trimmed)

  unfoldable pub ed25519_only : Option PublicKey → Result PublicKey
  ed25519_only none = err (
      plain_error none
        (lit "VIGOR_APPROVE_PUBKEY must be an Ed25519 public key (SPKI PEM or base64 DER)"))
  ed25519_only (some key) =
      if asymmetric_key_type key == "ed25519"
      then ok key
      else err (
          plain_error none
            (lit "VIGOR_APPROVE_PUBKEY must be an Ed25519 public key (SPKI PEM or base64 DER)"))

  unfoldable pub parse_approve_public_key : Text → Result PublicKey
  unfolding parse_public_key ed25519_only
  parse_approve_public_key pem_or_b64 = ed25519_only (parse_public_key pem_or_b64)

  unfoldable pub verified : Option Bool → Bool
  verified none = false
  verified (some b) = b

  unfoldable pub verify_bytes : PublicKey → List ℕ → List ℕ → Bool
  verify_bytes key [] payload = false
  verify_bytes key (b ∷ bytes) payload =
      if asymmetric_key_type key == "ed25519"
      then verified (verify payload key (b ∷ bytes))
      else false

  unfoldable pub verify_approval_signature : PublicKey → Text → Text → Text → Text → ℕ → Bool
  unfolding verify_bytes verified
  verify_approval_signature key signature_b64 confirmation_id nonce command_digest expires_at =
      verify_bytes key (from_base64 signature_b64)
        (build_sign_payload confirmation_id nonce command_digest expires_at)
