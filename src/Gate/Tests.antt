-- ===== src/Gate/Tests.antt =====
-- Concrete gates and calls (src/tools/confirm-gate.ts), and what the theorems on the gate say of
-- them.
use vigor3912s_mcp.Common.{
  ℕ, ◌+◌, ◌<◌, ◌≤◌, ◌≡◌, ◌↔◌, ◌≢◌, err, refl, true, false, some, none, List, [], ◌∷◌, Text, text_eq,
  inl, lookup, text_key, ok, length, arith, text_eq_refl, insert, are_distinct,
}
use vigor3912s_mcp.Crypto.{
  Crypto, build_sign_payload, digest_command, verify_approval_signature, verify_bytes, verified,
}
use vigor3912s_mcp.Gate.{
  ConfirmGate, WriteIntent, CreateIntentResult, Call, written, create, prune, persist, drop_expired,
  draw_id, consume_signed, new_gate, used_already, prune_then, persist_to, add_drawn, register,
  created,
}
use vigor3912s_mcp.Gate.Approval.{
  Approved, consume_signed_iff, consume_signed_once, consume_signed_replay,
}
use vigor3912s_mcp.Gate.Drawing.{create-Drawn}
use vigor3912s_mcp.Gate.Issue.{Issued, create-Issued, create-consume_signed}
use vigor3912s_mcp.Gate.RoundTrip.{create-sign-consume}
use vigor3912s_mcp.Crypto.Signing.{generate_approve_key_pair, sign_approval}
use vigor3912s_mcp.Crypto.Tests.{shift_crypto, shift_signer, drawn, drawn-Documented}
use vigor3912s_mcp.Gate.History.{
  Method, creates, consumes, run, run_single_use, run-within_bound, total, consumptions, issues,
}

-- A digest that is the command itself, and a scheme whose signature is the payload itself.
abbrev pub plain_crypto : Crypto ℕ
plain_crypto = record {
  sha256_hex = λ s. s;
  utf8_bytes = λ s. s;
  utf8_text = λ s. s;
  from_base64 = λ s. s;
  create_public_key_pem = λ s. none;
  create_public_key_der = λ s. some 0;
  asymmetric_key_type = λ key. "ed25519";
  verify = λ payload key signature. some (text_eq payload signature);
}

abbrev pub command : Text
command = 114 ∷ 109 ∷ []

abbrev pub id : Text
id = 97 ∷ []

abbrev pub nonce : Text
nonce = 110 ∷ []

abbrev pub intent : WriteIntent
intent = record {
  confirmation_id = id;
  tool_id = "sys_reboot";
  command_digest = command;
  command_preview = command;
  redacted_fields = [];
  nonce = nonce;
  created_at = 5;
  expires_at = 105;
  used = false;
}

abbrev pub gate : ConfirmGate ℕ
gate = record {
  intents = (id, intent) ∷ [];
  used = [];
  ttl_ms = 100;
  max_pending = 2;
  pending_file = none;
  approve_public_key = some 7;
}

abbrev pub at : ℕ → Call
at now = record { now = now; disk = written; draws = id ∷ (98 ∷ []) ∷ []; nonce = nonce }

abbrev pub signature : Text
signature = build_sign_payload plain_crypto id nonce command 105

pub signature_fits : verify_approval_signature plain_crypto 7 signature id nonce command 105 ≡ true
unfolding verify_approval_signature verify_bytes verified build_sign_payload
signature_fits = text_eq_refl signature

pub gate-Approved : Approved plain_crypto (at 50) gate id command signature
unfolding lookup text_eq digest_command
gate-Approved = record {
  key = 7;
  configured = refl;
  replay_free = inl refl;
  intent = intent;
  pending = refl;
  is_signed = record {
    unused = refl;
    in_time = omega arith;
    same_command = refl;
    signed = signature_fits;
  };
}

gate_consumes : (consume_signed plain_crypto (at 50) gate id command signature).0 ≡ ok tt
gate_consumes = (consume_signed_iff plain_crypto (at 50) id command signature gate).1 gate-Approved

consume_signed_iff_example :
    ((consume_signed plain_crypto (at 50) gate id command signature).0 ≡ ok tt)
    ↔ Approved plain_crypto (at 50) gate id command signature
consume_signed_iff_example = consume_signed_iff plain_crypto (at 50) id command signature gate

consume_signed_once_example :
    (consume_signed plain_crypto
      (at 60)
      (consume_signed plain_crypto (at 50) gate id command signature).1
      id
      command
      signature).0
    ≢ ok tt
consume_signed_once_example =
    consume_signed_once plain_crypto (at 50) gate id command signature gate_consumes (at 60) command
      signature

consume_signed_replay_example :
    (consume_signed plain_crypto
      (at 60)
      (consume_signed plain_crypto (at 50) gate id command signature).1
      id
      command
      signature).0
    ≡ err used_already
consume_signed_replay_example =
    consume_signed_replay plain_crypto (at 50) gate id command signature gate_consumes (at 60)
      command signature (omega arith)

-- On this gate the first draw is taken, and the second is free.
abbrev fresh : Text
fresh = 98 ∷ []

abbrev fresh_receipt : CreateIntentResult
fresh_receipt = record {
  confirmation_id = fresh;
  nonce = nonce;
  command_digest = command;
  expires_at = 150;
}

gate_creates :
    (create plain_crypto (at 50) gate "sys_reboot" command command []).0 ≡ ok fresh_receipt
unfolding create prune prune_then drop_expired persist persist_to draw_id add_drawn register created
    lookup text_eq digest_command insert
gate_creates = refl

create-Issued_example :
    Issued plain_crypto
      (at 50)
      gate
      "sys_reboot"
      command
      command
      []
      fresh_receipt
      (create plain_crypto (at 50) gate "sys_reboot" command command []).1
create-Issued_example =
    create-Issued plain_crypto (at 50) gate "sys_reboot" command command [] fresh_receipt
      gate_creates

draws_distinct : are_distinct (at 50).draws ≡ true
unfolding are_distinct text_eq
draws_distinct = refl

one_pending :
    length (prune (at 50) gate).intents + length (prune (at 50) gate).used < length (at 50).draws
unfolding prune prune_then drop_expired persist persist_to
one_pending = omega arith

room_for_one : length (prune (at 50) gate).intents < (prune (at 50) gate).max_pending
unfolding prune prune_then drop_expired persist persist_to
room_for_one = omega arith

-- One intent is pending, and two different ids may be drawn.
create-Drawn_example :
    (r : CreateIntentResult) × ((create plain_crypto (at 50) gate "sys_reboot" command command []).0
      ≡ ok r)
create-Drawn_example =
    create-Drawn plain_crypto (at 50) gate "sys_reboot" command command [] draws_distinct
      one_pending room_for_one

abbrev fresh_signature : Text
fresh_signature = build_sign_payload plain_crypto fresh nonce command 150

fresh_signature_fits :
    verify_approval_signature plain_crypto 7 fresh_signature fresh nonce command 150 ≡ true
unfolding verify_approval_signature verify_bytes verified build_sign_payload
fresh_signature_fits = text_eq_refl fresh_signature

create-consume_signed_example :
    (consume_signed plain_crypto
      (at 90)
      (create plain_crypto (at 50) gate "sys_reboot" command command []).1
      fresh
      command
      fresh_signature).0
    ≡ ok tt
create-consume_signed_example =
    create-consume_signed plain_crypto (at 50) gate "sys_reboot" command command [] fresh_receipt 7
      (at 90) fresh_signature gate_creates refl (omega arith) fresh_signature_fits

-- An approval that is replayed, and a new preview.
abbrev history : List (Call × Method)
history =
    (at 50, creates "sys_reboot" command command [])
    ∷ (at 60, consumes id command (build_sign_payload plain_crypto id nonce command 150))
    ∷ (at 70, consumes id command (build_sign_payload plain_crypto id nonce command 150))
    ∷ []

run_single_use_example :
    let es = (run plain_crypto history (new_gate 100 2 false (some 7))).0 in
    total (consumptions id) es ≤ total (issues id) es
run_single_use_example = run_single_use plain_crypto id history 100 2 false (some 7)

run-within_bound_example :
    (length (run plain_crypto history gate).1.intents ≤ 2)
    × ((run plain_crypto history gate).1.max_pending ≡ 2)
run-within_bound_example = run-within_bound plain_crypto history gate (omega arith)

-- The same confirmation, signed with the private key of a generated pair.
abbrev signing_gate : ConfirmGate ℕ
signing_gate = record {
  intents = [];
  used = [];
  ttl_ms = 100;
  max_pending = 2;
  pending_file = none;
  approve_public_key = some 7;
}

abbrev signing_receipt : CreateIntentResult
signing_receipt = record {
  confirmation_id = id;
  nonce = nonce;
  command_digest = command;
  expires_at = 150;
}

signing_gate_creates :
    (create shift_crypto (at 50) signing_gate "sys_reboot" command command []).0
    ≡ ok signing_receipt
unfolding create prune prune_then drop_expired draw_id add_drawn lookup register created persist
    persist_to digest_command text_eq insert
signing_gate_creates = refl

create-sign-consume_example :
    (signature : Text) × (sign_approval shift_crypto shift_signer
        (generate_approve_key_pair shift_crypto shift_signer drawn).private_key_pem
        id
        nonce
        command
        150
      ≡ some signature)
    × ((consume_signed shift_crypto
          (at 90)
          (create shift_crypto (at 50) signing_gate "sys_reboot" command command []).1
          id
          command
          signature).0
        ≡ ok tt)
create-sign-consume_example =
    create-sign-consume shift_crypto shift_signer drawn drawn-Documented (at 50) signing_gate
      "sys_reboot" command command [] signing_receipt (at 90) signing_gate_creates refl
      (omega arith)
