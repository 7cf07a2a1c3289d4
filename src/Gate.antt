-- ===== src/Gate.antt =====
-- src/tools/confirm-gate.ts: the signature gate for write commands. A `Map` is an association list
-- in insertion order. A call reads the clock once (the methods are synchronous), and the outcome
-- of its file operations and its random draws come with the call.
pub mod Prune
pub mod RoundTrip
pub mod Drawing
pub mod Approval
pub mod Issue
mod Effects
pub mod History
pub mod Tests
use vigor3912s_mcp.Common.{
  ℕ, zero, suc, ◌+◌, String, Bool, true, false, not, ◌||◌, Option, none, some, List, [], ◌∷◌, ◌++◌,
  map, Text, lit, ltb, leb, if◌then◌else◌, ◌==◌, text_key, string_key, lookup, has, insert, delete,
  length, Result, ok, err, Error, confirm_error, out_of_draws, invalid_token, token_used,
  token_expired, mismatch, bad_signature, any, keep,
}
use vigor3912s_mcp.Crypto.{Crypto, digest_command, verify_approval_signature}
use vigor3912s_mcp.Crypto.Digits.{decimal}

pub record WriteIntent : Type 0 where
  pub confirmation_id : Text
  pub tool_id : String
  pub command_digest : Text
  pub command_preview : Text
  pub redacted_fields : List String
  pub nonce : Text
  pub created_at : ℕ
  pub expires_at : ℕ
  pub used : Bool

pub record PendingIntentView : Type 0 where
  pub confirmation_id : Text
  pub tool_id : String
  pub command_digest : Text
  pub command_preview : Text
  pub redacted_fields : List String
  pub nonce : Text
  pub created_at : ℕ
  pub expires_at : ℕ

pub record CreateIntentResult : Type 0 where
  pub confirmation_id : Text
  pub nonce : Text
  pub command_digest : Text
  pub expires_at : ℕ

-- `pending_file` is the content of the file, and `none` if the gate was built without one.
pub record ConfirmGate (PublicKey : Type 0) : Type 0 where
  pub intents : List (Text × WriteIntent)
  pub used : List (Text × ℕ)
  pub ttl_ms : ℕ
  pub max_pending : ℕ
  pub pending_file : Option (List PendingIntentView)
  pub approve_public_key : Option PublicKey

-- How far `persist` gets: the folder cannot be made, the file cannot be written, or all is well.
pub data Disk : Type 0 where
  no_folder no_write written : Disk

-- What a call reads from its surroundings: the clock, the disk and the random source.
pub record Call : Type 0 where
  pub now : ℕ
  pub disk : Disk
  pub draws : List Text
  pub nonce : Text

abbrev pub expired : ℕ → Text × WriteIntent → Bool
expired now (id, intent) = ltb intent.expires_at now

abbrev pub forgotten : ℕ → Text × ℕ → Bool
forgotten now (id, expiry) = ltb expiry now

abbrev pub view : Text × WriteIntent → PendingIntentView
view (id, i) = record {
  confirmation_id = i.confirmation_id;
  tool_id = i.tool_id;
  command_digest = i.command_digest;
  command_preview = i.command_preview;
  redacted_fields = i.redacted_fields;
  nonce = i.nonce;
  created_at = i.created_at;
  expires_at = i.expires_at;
}

abbrev pub used_already : Error
used_already = confirm_error token_used (lit "confirmation has already been used")

module _ {PublicKey : Type 0} where
  -- The constructor, once the key is parsed.
  unfoldable pub new_gate : ℕ → ℕ → Bool → Option PublicKey → ConfirmGate PublicKey
  new_gate ttl_ms max_pending has_file key = record {
    intents = [];
    used = [];
    ttl_ms = ttl_ms;
    max_pending = max_pending;
    pending_file = if has_file then some [] else none;
    approve_public_key = key;
  }

  -- The two loops of `prune`.
  unfoldable pub drop_expired : ℕ → ConfirmGate PublicKey → ConfirmGate PublicKey
  drop_expired now g = record g {
    intents = keep (λ e. not (expired now e)) g.intents;
    used = keep (λ e. not (forgotten now e)) g.used;
  }

  write_file : Disk → ConfirmGate PublicKey → ConfirmGate PublicKey
  write_file written g = record g { pending_file = some (map view g.intents) }
  write_file _ g = g

  -- `prune`, given the `persist` that it calls when an intent went.
  prune_then :
      (ConfirmGate PublicKey → ConfirmGate PublicKey)
      → ℕ
      → ConfirmGate PublicKey
      → ConfirmGate PublicKey
  unfolding drop_expired
  prune_then save now g =
      if any (expired now) g.intents then save (drop_expired now g) else drop_expired now g

  -- `persist`: `pendingViews` prunes before the file is written. That inner `prune` may itself
  -- write; within it nothing is left to prune at the same instant.
  persist_to :
      Option (List PendingIntentView) → Call → ConfirmGate PublicKey → ConfirmGate PublicKey
  unfolding write_file prune_then
  persist_to none c g = g
  persist_to (some content) c g = elim c.disk [
    | no_folder ↦ g
    | other ↦ write_file other (prune_then (write_file other) c.now g)
  ]

  unfoldable pub persist : Call → ConfirmGate PublicKey → ConfirmGate PublicKey
  unfolding persist_to
  persist c g = persist_to g.pending_file c g

  unfoldable pub prune : Call → ConfirmGate PublicKey → ConfirmGate PublicKey
  unfolding prune_then persist
  prune c g = prune_then (persist c) c.now g

  -- `id` is in neither map.
  abbrev pub is_free : ConfirmGate PublicKey → Text → Bool
  is_free g id = not (has id g.intents || has id g.used)

  -- The loop that draws an id until one is free.
  unfoldable pub draw_id : ConfirmGate PublicKey → List Text → Option Text
  draw_id g [] = none
  draw_id g (id ∷ draws) = let next = draw_id g draws in if is_free g id then some id else next

  unfoldable pub get_by_confirmation_id :
      Call → ConfirmGate PublicKey → Text → Option WriteIntent × ConfirmGate PublicKey
  unfolding prune
  get_by_confirmation_id c g id = let g' = prune c g in (lookup id g'.intents, g')

  unfoldable pub pending_views :
      Call → ConfirmGate PublicKey → List PendingIntentView × ConfirmGate PublicKey
  unfolding prune
  pending_views c g = let g' = prune c g in (map view g'.intents, g')

  -- The end of `consumeSigned`: the intent is spent.
  unfoldable pub spend : Call → ConfirmGate PublicKey → Text → ConfirmGate PublicKey
  unfolding persist
  spend c g id =
      persist c
        (record g { intents = delete id g.intents; used = insert id (c.now + g.ttl_ms) g.used })

module _ {PublicKey : Type 0} (crypto : Crypto PublicKey) where
  created : Call → Text → String → Text → Text → List String → ℕ → WriteIntent
  created c id tool_id command command_preview redacted_fields ttl_ms = record {
    confirmation_id = id;
    tool_id = tool_id;
    command_digest = digest_command crypto command;
    command_preview = command_preview;
    redacted_fields = redacted_fields;
    nonce = c.nonce;
    created_at = c.now;
    expires_at = c.now + ttl_ms;
    used = false;
  }

  -- `create` from the drawn id on.
  abbrev pub receipt : WriteIntent → CreateIntentResult
  receipt i = record {
    confirmation_id = i.confirmation_id;
    nonce = i.nonce;
    command_digest = i.command_digest;
    expires_at = i.expires_at;
  }

  register :
      Call → ConfirmGate PublicKey → WriteIntent → Result CreateIntentResult × ConfirmGate PublicKey
  unfolding persist
  register c g i =
      (ok (receipt i), persist c (record g { intents = insert i.confirmation_id i g.intents }))

  add_drawn :
      Call
      → ConfirmGate PublicKey
      → String
      → Text
      → Text
      → List String
      → Option Text
      → Result CreateIntentResult × ConfirmGate PublicKey
  unfolding register created
  add_drawn c g tool_id command command_preview redacted_fields none = (err out_of_draws, g)
  add_drawn c g tool_id command command_preview redacted_fields (some id) =
      register c g (created c id tool_id command command_preview redacted_fields g.ttl_ms)

  unfoldable pub create :
      Call
      → ConfirmGate PublicKey
      → String
      → Text
      → Text
      → List String
      → Result CreateIntentResult × ConfirmGate PublicKey
  unfolding prune draw_id add_drawn
  create c g tool_id command command_preview redacted_fields =
      let g' = prune c g in
      if leb g'.max_pending (length g'.intents)
      then (
        err (
            confirm_error invalid_token (
              lit "too many pending confirmations (max "
              ++ decimal g'.max_pending
              ++ lit "); confirm or wait")),
        g',
      )
      else add_drawn c g' tool_id command command_preview redacted_fields (draw_id g' c.draws)

  -- `consumeSigned` from the lookup of the intent on.
  consume_intent :
      Call
      → ConfirmGate PublicKey
      → PublicKey
      → Text
      → Text
      → Text
      → Option WriteIntent
      → Result (Unit {0}) × ConfirmGate PublicKey
  unfolding spend
  consume_intent c g key id command signature none =
      (err (confirm_error invalid_token (lit "confirmation not found")), g)
  consume_intent c g key id command signature (some intent) =
      if intent.used
      then (err used_already, g)
      else if ltb intent.expires_at c.now
      then (
        err (confirm_error token_expired (lit "confirmation has expired")),
        persist c (record g { intents = delete id g.intents }),
      )
      else if not (digest_command crypto command == intent.command_digest)
      then (err (confirm_error mismatch (lit "confirmed command does not match the change")), g)
      else if not (
          verify_approval_signature crypto key signature intent.confirmation_id intent.nonce
            intent.command_digest intent.expires_at)
      then (err (confirm_error bad_signature (lit "approval signature is invalid")), g)
      else (ok tt, spend c g id)

  -- `consumeSigned` from the replay check on.
  consume_unless_used :
      Call
      → ConfirmGate PublicKey
      → PublicKey
      → Text
      → Text
      → Text
      → Option ℕ
      → Result (Unit {0}) × ConfirmGate PublicKey
  unfolding consume_intent
  consume_unless_used c g key id command signature none =
      consume_intent c g key id command signature (lookup id g.intents)
  consume_unless_used c g key id command signature (some used_expiry) =
      if ltb used_expiry c.now
      then consume_intent c (record g { used = delete id g.used }) key id command signature
          (lookup id g.intents)
      else (err used_already, g)

  consume_with_key :
      Call
      → ConfirmGate PublicKey
      → Option PublicKey
      → Text
      → Text
      → Text
      → Result (Unit {0}) × ConfirmGate PublicKey
  unfolding consume_unless_used
  consume_with_key c g none id command signature =
      (err (confirm_error bad_signature (lit "VIGOR_APPROVE_PUBKEY is not configured")), g)
  consume_with_key c g (some key) id command signature =
      consume_unless_used c g key id command signature (lookup id g.used)

  unfoldable pub consume_signed :
      Call → ConfirmGate PublicKey → Text → Text → Text → Result (Unit {0}) × ConfirmGate PublicKey
  unfolding consume_with_key
  consume_signed c g confirmation_id command signature =
      consume_with_key c g g.approve_public_key confirmation_id command signature
