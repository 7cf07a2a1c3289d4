-- ===== src/Gate/Issue.antt =====
-- `create` (src/tools/confirm-gate.ts): the new intent, the bound on pending intents, and
-- the approval of the new intent.
use vigor3912s_mcp.Common.{
  ◌+◌, ◌<◌, true, false, ◌≡◌, refl, inl, inr, Option, none, some, List, [], ◌∷◌, arith, Text,
  text_key, String, leb, lookup, insert, is_some, ok, ok-injective, subst, any, Bool-cases,
  lookup-insert, same_refl, length, ◌∙◌, ◌≤◌, sym,
}
use vigor3912s_mcp.Crypto.{Crypto, digest_command, verify_approval_signature}
use vigor3912s_mcp.Gate.{
  ConfirmGate, WriteIntent, CreateIntentResult, Call, create, created, add_drawn, prune, is_free,
  draw_id, consume_signed,
}
use vigor3912s_mcp.Gate.Approval.{consume_signed_iff}
use vigor3912s_mcp.Gate.Prune.{
  persist-Settles, persist-used_none, persist-intents_some, prune-settings,
}

module _ {PublicKey : Type 0} where
  draw_id-is_free :
      (g : ConfirmGate PublicKey) (draws : List Text) (id : Text)
      → draw_id g draws ≡ some id
      → is_free g id ≡ true
  unfolding draw_id
  draw_id-is_free g [] id h = cc
  draw_id-is_free g (d ∷ draws) id h = ground (arith, draw_id-is_free g draws id)

  -- The loop that draws an id ends with one exactly when some draw is free.
  draw_id_iff :
      (g : ConfirmGate PublicKey) (draws : List Text)
      → is_some (draw_id g draws) ≡ any (is_free g) draws
  unfolding draw_id
  draw_id_iff g [] = refl
  draw_id_iff g (d ∷ draws) = elim (Bool-cases (is_free g d)) [
    | inl free ↦ rw free
    | inr taken ↦ rw taken (draw_id_iff g draws)
  ]

module _ {PublicKey : Type 0} (crypto : Crypto PublicKey) (c : Call) (g : ConfirmGate PublicKey)
    (tool_id : String) (command command_preview : Text) (redacted_fields : List String) where
  -- What a successful `create` leaves behind.
  pub record Issued (r : CreateIntentResult) (h : ConfirmGate PublicKey) : Type 0 where
    pub intent : WriteIntent
    pub pending : lookup r.confirmation_id h.intents ≡ some intent
    pub for_id : intent.confirmation_id ≡ r.confirmation_id
    pub for_tool : intent.tool_id ≡ tool_id
    pub for_command : intent.command_digest ≡ digest_command crypto command
    pub same_digest : intent.command_digest ≡ r.command_digest
    pub same_nonce : intent.nonce ≡ r.nonce
    pub shows : intent.command_preview ≡ command_preview
    pub lasts : intent.expires_at ≡ c.now + g.ttl_ms
    pub same_expiry : intent.expires_at ≡ r.expires_at
    pub unused : intent.used ≡ false
    pub was_free : is_free (prune c g) r.confirmation_id ≡ true
    pub not_replayed : lookup r.confirmation_id h.used ≡ none
    pub same_key : h.approve_public_key ≡ g.approve_public_key
    pub had_room : length (prune c g).intents < g.max_pending

  add_drawn-Issued :
      (o : Option Text)
      → draw_id (prune c g) c.draws ≡ o
      → leb (prune c g).max_pending (length (prune c g).intents) ≡ false
      → (r : CreateIntentResult)
      → (add_drawn crypto c (prune c g) tool_id command command_preview redacted_fields o).0 ≡ ok r
      → Issued r
          (add_drawn crypto c (prune c g) tool_id command command_preview redacted_fields o).1
  unfolding add_drawn
  add_drawn-Issued none drawn room r h = cc
  add_drawn-Issued (some id) drawn room r h =
      let i =
        created crypto c id tool_id command command_preview redacted_fields (prune c g).ttl_ms in
      let settings = prune-settings c g in
      let after =
        (add_drawn crypto c (prune c g) tool_id command command_preview redacted_fields
          (some id)).1 in
      subst (λ x. Issued x after) (ok-injective h)
        (record {
          intent = i;
          pending =
              persist-intents_some c
                (record (prune c g) { intents = insert id i (prune c g).intents }) id i
                (simp (lookup-insert, same_refl)) (omega arith);
          for_id = refl;
          for_tool = refl;
          for_command = refl;
          same_digest = refl;
          same_nonce = refl;
          shows = refl;
          lasts = omega (arith, settings);
          same_expiry = refl;
          unused = refl;
          was_free = draw_id-is_free (prune c g) c.draws id drawn;
          not_replayed =
              persist-used_none c (record (prune c g) { intents = insert id i (prune c g).intents })
                id (ground (arith, draw_id-is_free (prune c g) c.draws id drawn));
          same_key =
              (persist-Settles c (record (prune c g) {
                intents = insert id i (prune c g).intents;
              })).approve_public_key
              ∙ settings.2;
          had_room = ground (arith, settings);
        })

  -- A successful `create` found room for one more pending intent and an id that was neither pending
  -- nor in the replay list; the new intent is pending under that id with the caller's tool and
  -- preview, the digest of the command and a full lifetime, and the receipt shows its id, nonce,
  -- digest and expiry.
  pub create-Issued :
      (r : CreateIntentResult)
      → (create crypto c g tool_id command command_preview redacted_fields).0 ≡ ok r
      → Issued r (create crypto c g tool_id command command_preview redacted_fields).1
  unfolding create
  create-Issued r h = elim (Bool-cases (leb (prune c g).max_pending (length (prune c g).intents))) [
    | inl full ↦ cc (rw full at h)
    | inr room ↦ rw room (add_drawn-Issued (draw_id (prune c g) c.draws) refl room r (rw room at h))
  ]

  -- An approval of a new confirmation is accepted: if `create` gave the receipt `r`, a key is
  -- configured, the lifetime is not over and the signature verifies for the receipt's four values,
  -- then `consumeSigned` with the same command succeeds on the gate that `create` left.
  pub create-consume_signed :
      (r : CreateIntentResult) (key : PublicKey) (c' : Call) (signature : Text)
      → (create crypto c g tool_id command command_preview redacted_fields).0 ≡ ok r
      → g.approve_public_key ≡ some key
      → c'.now ≤ c.now + g.ttl_ms
      → verify_approval_signature crypto key signature r.confirmation_id r.nonce r.command_digest
          r.expires_at
        ≡ true
      → (consume_signed crypto c'
          (create crypto c g tool_id command command_preview redacted_fields).1
          r.confirmation_id
          command
          signature).0
        ≡ ok tt
  create-consume_signed r key c' signature made configured in_time signed =
      let i = create-Issued r made in
      (consume_signed_iff crypto c' r.confirmation_id command signature _).1 (record {
        key = key;
        configured = i.same_key ∙ configured;
        replay_free = inl i.not_replayed;
        intent = i.intent;
        pending = i.pending;
        is_signed = record {
          unused = i.unused;
          in_time = omega (arith, i.lasts);
          same_command = sym i.for_command;
          signed = rw (i.for_id, i.same_nonce, i.same_digest, i.same_expiry) signed;
        };
      })
