-- ===== src/Crypto/Tests.antt =====
-- Concrete payloads (src/tools/approve-crypto.ts).
use vigor3912s_mcp.Common.{
  ℕ, ◌+◌, ◌-◌, ◌≡◌, refl, sym, if◌then◌else◌, ap, ◌∙◌, arith, false, some, List, [], ◌∷◌, Text,
  text_eq, text_eq_refl, lit, is_space, trim, trim_start, trim_end, starts_with, ok,
}
use vigor3912s_mcp.Crypto.{Crypto, includes, parse_approve_public_key}
use vigor3912s_mcp.Crypto.Signing.{
  DrawnKeys, Signer, generate_approve_key_pair, Documented, public_key_to_config_value,
  public_key_to_config_value-parse,
}
use vigor3912s_mcp.Crypto.Payload.{
  OneLine, Plain, is_well_formed, IsFaithful, build_sign_payload-injective,
}

abbrev a : Text
a = 97 ∷ []

a-OneLine : OneLine a
a-OneLine = (λ e. cc e, tt)

-- A scheme whose base64 shifts every byte out of the characters that `trim` knows, whose keys are one
-- key, and whose signature of a payload is a 1 and the payload.
abbrev shift : ℕ → ℕ
shift b = b + 70000

abbrev pub shifted : List ℕ → Text
shifted [] = []
shifted (b ∷ bytes) = shift b ∷ shifted bytes

abbrev pub unshifted : Text → List ℕ
unshifted [] = []
unshifted (c ∷ s) = (c - 70000) ∷ unshifted s

abbrev pub shift_crypto : Crypto ℕ
shift_crypto = record {
  sha256_hex = λ s. s;
  utf8_bytes = λ s. s;
  utf8_text = λ s. s;
  from_base64 = unshifted;
  create_public_key_pem = λ s. some 7;
  create_public_key_der = λ bytes. some 7;
  asymmetric_key_type = λ key. "ed25519";
  verify = λ payload key signature. some (text_eq signature (1 ∷ payload));
}

abbrev pub shift_signer : Signer ℕ ℕ
shift_signer = record {
  export_spki_pem = λ key. [];
  export_spki_der = λ key. key ∷ [];
  export_pkcs8_pem = λ key. [];
  create_private_key = λ pem. some 9;
  sign = λ payload key. some (1 ∷ payload);
  to_base64 = shifted;
}

abbrev pub drawn : DrawnKeys ℕ ℕ
drawn = record { public_key = 7; private_key = 9 }

unshifted-shifted : (bytes : List ℕ) → unshifted (shifted bytes) ≡ bytes
unshifted-shifted [] = refl
unshifted-shifted (b ∷ bytes) =
    let same : (b + 70000) - 70000 ≡ b = omega arith in
    ap (λ x. x ∷ unshifted (shifted bytes)) same ∙ ap (λ xs. b ∷ xs) (unshifted-shifted bytes)

shift-is_space : (b : ℕ) → is_space (shift b) ≡ false
unfolding is_space
shift-is_space b = ground arith

trim_end-shifted : (bytes : List ℕ) → trim_end (shifted bytes) ≡ shifted bytes
unfolding trim_end
trim_end-shifted [] = refl
trim_end-shifted (b ∷ bytes) =
    rw (shift-is_space b) (ap (λ s. shift b ∷ s) (trim_end-shifted bytes))

trim-shifted : (bytes : List ℕ) → trim (shifted bytes) ≡ shifted bytes
unfolding trim trim_start
trim-shifted [] = refl
trim-shifted (b ∷ bytes) = rw (shift-is_space b) (trim_end-shifted (b ∷ bytes))

starts_with-shifted :
    (bytes : List ℕ) → starts_with (shifted bytes) (lit "BEGIN PUBLIC KEY") ≡ false
unfolding starts_with lit
starts_with-shifted [] = refl
starts_with-shifted (b ∷ bytes) = ground arith

includes-shifted : (bytes : List ℕ) → includes (shifted bytes) (lit "BEGIN PUBLIC KEY") ≡ false
unfolding includes
includes-shifted [] = starts_with-shifted []
includes-shifted (b ∷ bytes) = rw (starts_with-shifted (b ∷ bytes)) (includes-shifted bytes)

pub drawn-Documented : Documented shift_crypto shift_signer drawn
drawn-Documented = record {
  base64 = unshifted-shifted;
  base64_trimmed = trim-shifted;
  base64_headless = includes-shifted;
  spki_pem = refl;
  spki_der = refl;
  pkcs8_pem = refl;
  key_type = refl;
  signs = λ payload. (1, (payload, refl, ap some (text_eq_refl (1 ∷ payload))));
}

public_key_to_config_value-parse_example :
    (value : Text) × (public_key_to_config_value shift_crypto shift_signer
        (generate_approve_key_pair shift_crypto shift_signer drawn).public_key_pem
      ≡ some value)
    × (parse_approve_public_key shift_crypto value ≡ ok 7)
public_key_to_config_value-parse_example =
    public_key_to_config_value-parse shift_crypto shift_signer drawn drawn-Documented

a-Plain : Plain a
unfolding is_well_formed
a-Plain = (a-OneLine, refl)

-- An encoding that, like UTF-8, has one text for all that are not well-formed.
abbrev encoding : Text → List ℕ
encoding s = if is_well_formed s then s else 239 ∷ 191 ∷ 189 ∷ []

abbrev encoding_crypto : Crypto ℕ
encoding_crypto = record shift_crypto { utf8_bytes = encoding }

encoding-Faithful : IsFaithful encoding_crypto
encoding-Faithful s t h k e = sym (rw h refl) ∙ e ∙ rw k refl

-- The payload of one confirmation, built twice.
build_sign_payload-injective_example : (a ≡ a) × (a ≡ a) × (a ≡ a) × (◌≡◌ {A = ℕ} 12 12)
build_sign_payload-injective_example =
    build_sign_payload-injective encoding_crypto encoding-Faithful a a a 12 a a a 12
      (a-Plain, a-Plain, a-Plain) (a-Plain, a-Plain, a-Plain) refl
