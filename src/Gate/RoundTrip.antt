-- ===== src/Gate/RoundTrip.antt =====
-- From the preview to the consumed confirmation: what src/tools/confirm-gate.ts issues, signed by
-- the human's side of src/tools/approve-crypto.ts, is what src/tools/confirm-gate.ts accepts.
use vigor3912s_mcp.Common.{◌≡◌, ◌≤◌, ◌+◌, String, some, List, Text, ok}
use vigor3912s_mcp.Crypto.{Crypto}
use vigor3912s_mcp.Crypto.Signing.{
  DrawnKeys, Signer, generate_approve_key_pair, sign_approval, Documented, sign_approval-verify,
}
use vigor3912s_mcp.Gate.{ConfirmGate, CreateIntentResult, Call, create, consume_signed}
use vigor3912s_mcp.Gate.Issue.{create-consume_signed}

module _ {PublicKey PrivateKey : Type 0} (crypto : Crypto PublicKey)
    (signer : Signer PublicKey PrivateKey) (drawn : DrawnKeys PublicKey PrivateKey)
    (doc : Documented crypto signer drawn) where
  -- If the gate has the public key of a generated pair and `create` gave the receipt `r`, then
  -- signing the receipt's values with the private key gives a signature, and `consumeSigned` accepts
  -- it for the same command within the lifetime.
  pub create-sign-consume :
      (c : Call) (g : ConfirmGate PublicKey) (tool_id : String) (command command_preview : Text)
      (redacted_fields : List String) (r : CreateIntentResult) (c' : Call)
      → (create crypto c g tool_id command command_preview redacted_fields).0 ≡ ok r
      → g.approve_public_key ≡ some drawn.public_key
      → c'.now ≤ c.now + g.ttl_ms
      → (signature : Text) × (sign_approval crypto signer
            (generate_approve_key_pair crypto signer drawn).private_key_pem
            r.confirmation_id
            r.nonce
            r.command_digest
            r.expires_at
          ≡ some signature)
        × ((consume_signed crypto c'
              (create crypto c g tool_id command command_preview redacted_fields).1
              r.confirmation_id
              command
              signature).0
            ≡ ok tt)
  create-sign-consume c g tool_id command command_preview redacted_fields r c' made configured
        in_time =
      let (signature, signed, verifies) =
        sign_approval-verify crypto signer drawn doc r.confirmation_id r.nonce r.command_digest
          r.expires_at in
      (
        signature,
        signed,
        create-consume_signed crypto c g tool_id command command_preview redacted_fields r
            drawn.public_key c' signature made configured in_time verifies,
      )
